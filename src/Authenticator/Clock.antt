-- ===== src/Authenticator/Clock.antt =====
-- The timestamp helpers of crates/authenticator/src/human.rs and crates/node/src/clock.rs. Time is
-- the nanoseconds since the epoch, so the days are not negative and the branch of
-- `civil_from_days` for earlier days is not modelled; the rounding of `f64` is not either.
use rsntr.Base.{
  ℕ, zero, suc, ◌+◌, ◌-◌, ◌*◌, ◌/◌, ◌%◌, [], ◌∷◌, ◌++◌, if◌then◌else◌, ltb, leb, Str, codes, length,
}

-- The decimal form of a number, by at most so many divisions.
unfoldable pub decimal_up_to : ℕ → ℕ → Str
decimal_up_to zero n = []
decimal_up_to (suc fuel) n =
    let front = decimal_up_to fuel (n / 10) in
    if ltb n 10 then (b'0' + n) ∷ [] else front ++ (b'0' + n % 10) ∷ []

-- `{}` on a number: a number has no more digits than its successor counts.
unfoldable pub decimal : ℕ → Str
unfolding decimal_up_to
decimal n = decimal_up_to (suc n) n

zeros : ℕ → Str
zeros zero = []
zeros (suc n) = b'0' ∷ zeros n

-- `{:0w}`
unfoldable pub padded : ℕ → ℕ → Str
unfolding decimal zeros
padded w n = let d = decimal n in zeros (w - length d) ++ d

pub record Date : Type 0 where
  pub year : ℕ
  pub month : ℕ
  pub day : ℕ

unfoldable pub civil_from_days : ℕ → Date
civil_from_days days =
    let z = days + 719_468 in
    let era = z / 146_097 in
    let doe = z - era * 146_097 in
    let yoe = (doe - doe / 1460 + doe / 36_524 - doe / 146_096) / 365 in
    let y = yoe + era * 400 in
    let doy = doe - (365 * yoe + yoe / 4 - yoe / 100) in
    let mp = (5 * doy + 2) / 153 in
    let d = doy - (153 * mp + 2) / 5 + 1 in
    let m = if ltb mp 10 then mp + 3 else mp - 9 in
    record { year = if leb m 2 then y + 1 else y; month = m; day = d }

abbrev pub nanos_per_sec : ℕ
nanos_per_sec = 1_000_000_000

-- The text of `now_rfc3339` at the given time.
unfoldable pub now_rfc3339 : ℕ → Str
unfolding civil_from_days padded
now_rfc3339 now =
    let secs = now / nanos_per_sec in
    let date = civil_from_days (secs / 86_400) in
    let rem = secs % 86_400 in
    padded 4 date.year
    ++ codes "-"
    ++ padded 2 date.month
    ++ codes "-"
    ++ padded 2 date.day
    ++ codes "T"
    ++ padded 2 (rem / 3600)
    ++ codes ":"
    ++ padded 2 (rem % 3600 / 60)
    ++ codes ":"
    ++ padded 2 (rem % 60)
    ++ codes "Z"
