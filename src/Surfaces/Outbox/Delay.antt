-- ===== src/Surfaces/Outbox/Delay.antt =====
-- crates/surfaces/src/outbox.rs: the delays between the attempts.
use native.Mathlib.Nat.{mul-le-mul_left, pow-le-pow_right}
use rsntr.Base.{ℕ, ◌+◌, ◌-◌, ◌*◌, ◌^◌, ◌≤◌, ◌<◌, ◌≡◌, inl, inr, ltb, arith, Bool-cases}
use rsntr.Node.Limits.{min}
use rsntr.Surfaces.Outbox.{backoff_delay}

-- Where the ceiling is a duration, an overflow is no longer seen.
backoff_delay-eq :
    (attempts base max : ℕ)
    → max < 2 ^ 64 * 1000000000
    → backoff_delay attempts base max ≡ min (base * 2 ^ min (attempts - 1) 20) max
unfolding backoff_delay
backoff_delay-eq attempts base max small =
    elim (Bool-cases (ltb (base * 2 ^ min (attempts - 1) 20) (2 ^ 64 * 1000000000))) [
      | inl fits ↦ ground (arith, fits)
      | inr over ↦ ground (arith, over)
    ]

-- Delays start at the base, or the ceiling if that is less, never exceed the ceiling, and do not shrink
-- from attempt to attempt; the ceiling is a duration that fits.
pub backoff_delay-bounds :
    (attempts base max : ℕ)
    → max < 2 ^ 64 * 1000000000
    → (backoff_delay 1 base max ≡ min base max)
      × (backoff_delay attempts base max ≤ max)
      × (backoff_delay attempts base max ≤ backoff_delay (attempts + 1) base max)
backoff_delay-bounds attempts base max small =
    let now = backoff_delay-eq attempts base max small in
    let next = backoff_delay-eq (attempts + 1) base max small in
    let first = backoff_delay-eq 1 base max small in
    let two_positive : 0 < 2 = omega arith in
    let longer : min (attempts - 1) 20 ≤ min (attempts + 1 - 1) 20 = ground arith in
    let grows = mul-le-mul_left base (pow-le-pow_right two_positive longer) in
    (ground (arith, first), ground (arith, now), ground (arith, now, next, grows))
