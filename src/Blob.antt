-- ===== src/Blob.antt =====
-- crates/ingodb-blob: document ids, values, documents and their binary form.
pub mod Id
pub mod Error
pub mod Utf8
pub mod Value
pub mod IBlob
