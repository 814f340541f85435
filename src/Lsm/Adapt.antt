-- ===== src/Lsm/Adapt.antt =====
-- crates/ingodb-lsm/src/lib.rs, `maybe_adjust_w`: the scaling parameter follows the load.
--
-- An `i32` n is the number n + 2 ^ 31, so that zero is 2 ^ 31; its sums and differences wrap around, as
-- in a release build. The floating-point target, of the reads among all operations, is the argument
-- `target_of`. The clock is in seconds.
use ingodb.Base.{ℕ, ◌+◌, ◌-◌, ◌%◌, ◌^◌, ◌≤◌, ◌<◌, Bool, not, arith, ltb, min, max, if◌then◌else◌}

pub record Config : Type 0 where
  pub adaptive_w : Bool
  pub adaptive_w_cooldown_secs : ℕ
  pub adaptive_w_min : ℕ
  pub adaptive_w_max : ℕ
  pub adaptive_w_max_step : ℕ

pub record Load : Type 0 where
  pub effective_w : ℕ
  pub target_w : ℕ
  pub read_count : ℕ
  pub write_count : ℕ
  pub last_w_adjustment : ℕ

-- `a + b` and `a - b` on `i32`.
abbrev pub add_i32 : ℕ → ℕ → ℕ
add_i32 a b = (a + b + 2 ^ 31) % 2 ^ 32

abbrev pub sub_i32 : ℕ → ℕ → ℕ
sub_i32 a b = (a + 2 ^ 32 + 2 ^ 31 - b) % 2 ^ 32

-- The change is clamped to the step and to the ends of the range.
unfoldable pub step_to : Config → ℕ → ℕ → ℕ
step_to c target_w current_w =
    if ltb current_w target_w
    then min (min (add_i32 current_w c.adaptive_w_max_step) target_w) c.adaptive_w_max
    else if ltb target_w current_w
    then max (max (sub_i32 current_w c.adaptive_w_max_step) target_w) c.adaptive_w_min
    else current_w

unfoldable pub maybe_adjust_w : (ℕ → ℕ → ℕ) → Config → ℕ → Load → Load
unfolding step_to
maybe_adjust_w target_of c now l =
    let reads = l.read_count in
    let total = (l.read_count + l.write_count) % 2 ^ 64 in
    let swapped : Load = record l { read_count = 0; write_count = 0 } in
    let target_w = target_of reads total in
    if not c.adaptive_w
    then l
    else if ltb (now - l.last_w_adjustment) c.adaptive_w_cooldown_secs
    then l
    else if ltb total 10
    then swapped
    else record swapped {
      target_w = target_w;
      effective_w = step_to c target_w l.effective_w;
      last_w_adjustment = now;
    }

-- A parameter in effect that lies within the configured range, a step that is not negative, and a range
-- whose ends a step does not carry out of `i32`: the parameter stays within the range, whatever the load
-- and the target, and an adjustment moves it by at most the step.
pub maybe_adjust_w-bounds :
    (target_of : ℕ → ℕ → ℕ) (c : Config) (now : ℕ) (l : Load)
    → c.adaptive_w_min ≤ l.effective_w
    → l.effective_w ≤ c.adaptive_w_max
    → 2 ^ 31 ≤ c.adaptive_w_max_step
    → c.adaptive_w_max + (c.adaptive_w_max_step - 2 ^ 31) < 2 ^ 32
    → c.adaptive_w_max_step - 2 ^ 31 ≤ c.adaptive_w_min
    → (c.adaptive_w_min ≤ (maybe_adjust_w target_of c now l).effective_w)
      × ((maybe_adjust_w target_of c now l).effective_w ≤ c.adaptive_w_max)
      × ((maybe_adjust_w target_of c now l).effective_w
          ≤ l.effective_w + (c.adaptive_w_max_step - 2 ^ 31))
      × (l.effective_w
          ≤ (maybe_adjust_w target_of c now l).effective_w + (c.adaptive_w_max_step - 2 ^ 31))
unfolding maybe_adjust_w step_to
maybe_adjust_w-bounds target_of c now l low high step above below =
    ground (arith, target_of l.read_count ((l.read_count + l.write_count) % 2 ^ 64))
