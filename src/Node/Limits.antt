-- ===== src/Node/Limits.antt =====
-- crates/node/src/pipeline.rs: the limits of a request under the node's ceilings, and the progress
-- handler that meters a statement. A ceiling of the node's configuration is not negative.
pub mod Ceilings
use rsntr.Base.{ℕ, ◌+◌, ◌/◌, Bool, true, false, Option, none, some, if◌then◌else◌, ltb, leb, ◌==◌}
use rsntr.Protocol.Envelope.{ℤ, pos, negsuc}

pub record RequestLimits : Type 0 where
  pub row_limit : Option ℤ
  pub byte_limit : Option ℤ
  pub timeout_ms : Option ℤ

pub record NodeConfig : Type 0 where
  pub max_rows : ℕ
  pub max_response_bytes : ℕ
  pub max_duration_ms : ℕ
  pub vdbe_step_budget : ℕ

pub record Limits : Type 0 where
  pub row_cap : ℕ
  pub byte_cap : ℕ
  pub timeout_ms : ℕ
  pub step_budget : ℕ

abbrev pub min : ℕ → ℕ → ℕ
min a b = if leb a b then a else b

-- `opt.filter(|v| *v >= 0).map_or(max, |v| v.min(max))`
abbrev pub clamp_from_zero : Option ℤ → ℕ → ℕ
clamp_from_zero none max = max
clamp_from_zero (some (negsuc n)) max = max
clamp_from_zero (some (pos n)) max = min n max

-- the same with `*v > 0`
abbrev pub clamp_positive : Option ℤ → ℕ → ℕ
clamp_positive none max = max
clamp_positive (some (negsuc n)) max = max
clamp_positive (some (pos n)) max = if n == 0 then max else min n max

unfoldable pub effective : RequestLimits → NodeConfig → Limits
effective opts cfg = record {
  row_cap = clamp_from_zero opts.row_limit cfg.max_rows;
  byte_cap = clamp_positive opts.byte_limit cfg.max_response_bytes;
  timeout_ms = clamp_positive opts.timeout_ms cfg.max_duration_ms;
  step_budget = cfg.vdbe_step_budget;
}

-- The progress handler at its next call: it counts one unit of 500 steps more, and says whether the
-- statement is interrupted and the flag `steps_exceeded` set; `late` is whether the deadline passed.
unfoldable pub progress : Limits → Bool → ℕ → ℕ × Bool × Bool
progress limits late units =
    if ltb (limits.step_budget / 500) (units + 1)
    then (units + 1, true, true)
    else (units + 1, late, false)
