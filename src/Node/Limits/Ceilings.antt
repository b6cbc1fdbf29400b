-- ===== src/Node/Limits/Ceilings.antt =====
-- crates/node/src/pipeline.rs: the limits of a request stay below the node's ceilings and below what
-- the request asked for, and the progress handler ends a statement.
use rsntr.Base.{
  ℕ, zero, suc, ◌+◌, ◌-◌, ◌/◌, ◌≤◌, ◌<◌, ◌≡◌, inl, inr, Bool, true, false, Option, none, some, List,
  [], ◌∷◌, ltb, arith, Bool-cases,
}
use rsntr.Protocol.Envelope.{ℤ, pos, negsuc}
use rsntr.Node.Limits.{
  RequestLimits, NodeConfig, Limits, clamp_from_zero, clamp_positive, effective, progress,
}

-- A limit is no more than a request asked for, where it asked for a number from 1 on.
abbrev AtMostAsked : Option ℤ → ℕ → Type 0
AtMostAsked none n = Unit
AtMostAsked (some (negsuc k)) n = Unit
AtMostAsked (some (pos zero)) n = Unit
AtMostAsked (some (pos (suc k))) n = n ≤ suc k

clamp_from_zero-AtMostAsked :
    (o : Option ℤ) (max : ℕ) → (clamp_from_zero o max ≤ max) × AtMostAsked o (clamp_from_zero o max)
clamp_from_zero-AtMostAsked none max = (omega arith, tt)
clamp_from_zero-AtMostAsked (some (negsuc k)) max = (omega arith, tt)
clamp_from_zero-AtMostAsked (some (pos zero)) max = (ground arith, tt)
clamp_from_zero-AtMostAsked (some (pos (suc k))) max = (ground arith, ground arith)

clamp_positive-AtMostAsked :
    (o : Option ℤ) (max : ℕ) → (clamp_positive o max ≤ max) × AtMostAsked o (clamp_positive o max)
clamp_positive-AtMostAsked none max = (omega arith, tt)
clamp_positive-AtMostAsked (some (negsuc k)) max = (omega arith, tt)
clamp_positive-AtMostAsked (some (pos zero)) max = (ground arith, tt)
clamp_positive-AtMostAsked (some (pos (suc k))) max = (ground arith, ground arith)

-- Each limit of a request is at most the node's ceiling, and at most what the request asked for where
-- that was at least 1.
pub effective-AtMostAsked :
    (opts : RequestLimits) (cfg : NodeConfig)
    → ((effective opts cfg).row_cap ≤ cfg.max_rows)
      × AtMostAsked opts.row_limit (effective opts cfg).row_cap
      × ((effective opts cfg).byte_cap ≤ cfg.max_response_bytes)
      × AtMostAsked opts.byte_limit (effective opts cfg).byte_cap
      × ((effective opts cfg).timeout_ms ≤ cfg.max_duration_ms)
      × AtMostAsked opts.timeout_ms (effective opts cfg).timeout_ms
unfolding effective
effective-AtMostAsked opts cfg =
    let rows = clamp_from_zero-AtMostAsked opts.row_limit cfg.max_rows in
    let bytes = clamp_positive-AtMostAsked opts.byte_limit cfg.max_response_bytes in
    let time = clamp_positive-AtMostAsked opts.timeout_ms cfg.max_duration_ms in
    (rows.0, rows.1, bytes.0, bytes.1, time.0, time.1)

-- The calls of the progress handler up to the one that interrupts, of a list of calls with whether
-- each comes behind the deadline.
unfoldable pub calls_made : Limits → List Bool → ℕ → ℕ
calls_made limits [] units = 0
calls_made limits (late ∷ lates) units =
    let rest = calls_made limits lates (progress limits late units).0 in
    elim (progress limits late units).1 [ true ↦ 1 | false ↦ suc rest ]

under_lem :
    (limits : Limits) (units : ℕ)
    → ltb (limits.step_budget / 500) (units + 1) ≡ false
    → units < limits.step_budget / 500
under_lem limits units h = ground arith

progress_counts :
    (limits : Limits) (late : Bool) (units : ℕ) → (progress limits late units).0 ≡ units + 1
unfolding progress
progress_counts limits late units = ground arith

-- Behind so many units, the progress handler is called at most once more than the step budget has units
-- of 500 steps left: by then it interrupted.
pub calls_made-bound :
    (limits : Limits) (lates : List Bool) (units : ℕ)
    → calls_made limits lates units ≤ suc (limits.step_budget / 500 - units)
unfolding calls_made progress
calls_made-bound limits [] units = omega arith
calls_made-bound limits (late ∷ lates) units =
    elim (Bool-cases (ltb (limits.step_budget / 500) (units + 1))) [
      | inl over ↦ rw (over, calls_made) (omega arith)
      | inr under ↦ elim (Bool-cases late) [
        | inl l ↦ rw (under, calls_made) (rw (l, calls_made) (omega arith))
        | inr l ↦
            let rest = calls_made-bound limits lates (progress limits late units).0 in
            let next = progress_counts limits late units in
            rw (under, calls_made)
              (rw (l, calls_made) (omega (arith, rest, next, under_lem limits units under)))
      ]
    ]
