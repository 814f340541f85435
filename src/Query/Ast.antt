-- ===== src/Query/Ast.antt =====
-- crates/ingodb-query/src/lib.rs: the query interface, and the fields to sort by.
use ingodb.Base.{ℕ, Option, List}
use ingodb.Blob.Id.{DocumentId}
use ingodb.Query.{Filter}

pub data SortDirection : Type 0 where
  ascending : SortDirection
  descending : SortDirection

pub record SortField : Type 0 where
  pub name : List ℕ
  pub direction : SortDirection

pub data Query : Type 0 where
  get : DocumentId → Query
  scan : Option Filter → Option (List SortField) → Option (List (List ℕ)) → Option ℕ → Query
  traverse : Option Filter → List ℕ → List ℕ → ℕ → Query
