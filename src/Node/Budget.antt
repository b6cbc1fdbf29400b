-- ===== src/Node/Budget.antt =====
-- crates/node/src/pipeline.rs: the persisted token buckets of the knocks (`spend_knock_token`,
-- `bucket_level`, `store_bucket`). A level is a number of parts of a token, `whole` of them to a token,
-- and a refill the parts in a unit of time: exact where the code computes in f64.
pub mod Rate
use rsntr.Base.{
  ℕ, ◌+◌, ◌-◌, ◌*◌, Bool, true, false, ◌&&◌, Option, none, some, List, [], ◌∷◌, if◌then◌else◌, leb,
  Str, codes, ◌=s◌,
}
use rsntr.Authenticator.Chain.{get}
use rsntr.Node.Limits.{min}

pub record KnockLimits : Type 0 where
  pub whole : ℕ
  pub per_key_burst : ℕ
  pub per_key_refill : ℕ
  pub global_burst : ℕ
  pub global_refill : ℕ

-- a row of `_knock_budget`
pub record Bucket : Type 0 where
  pub tokens : ℕ
  pub updated_at : ℕ

-- `_knock_budget`; `none` is a missing table.
abbrev pub Budget : Type 0
Budget = Option (List (Str × Bucket))

-- A bucket without a row starts full; a query that fails reads as no row.
unfoldable pub bucket_level : Budget → Str → ℕ → ℕ → ℕ → ℕ
unfolding get
bucket_level none bucket burst refill now = burst
bucket_level (some rows) bucket burst refill now = elim (get bucket rows) [
  | none ↦ burst
  | some b ↦ min (b.tokens + (now - b.updated_at) * refill) burst
]

-- INSERT … ON CONFLICT(bucket) DO UPDATE
unfoldable pub upsert : Str → Bucket → List (Str × Bucket) → List (Str × Bucket)
upsert bucket b [] = (bucket, b) ∷ []
upsert bucket b ((k, old) ∷ rows) =
    if k =s bucket then (k, b) ∷ rows else (k, old) ∷ upsert bucket b rows

unfoldable pub store_bucket : Str → ℕ → ℕ → Budget → Budget
unfolding upsert
store_bucket bucket tokens now none = none
store_bucket bucket tokens now (some rows) =
    some (upsert bucket (record { tokens = tokens; updated_at = now }) rows)

abbrev pub spent : Bool → ℕ → ℕ → ℕ
spent grant whole level = if grant then level - whole else level

unfoldable pub spend_knock_token : KnockLimits → ℕ → Str → Budget → Bool × Budget
unfolding bucket_level store_bucket
spend_knock_token limits now peer budget =
    let per_key = bucket_level budget peer limits.per_key_burst limits.per_key_refill now in
    let global = bucket_level budget (codes "*") limits.global_burst limits.global_refill now in
    let grant = leb limits.whole per_key && leb limits.whole global in
    (
      grant,
      store_bucket (codes "*") (spent grant limits.whole global) now
          (store_bucket peer (spent grant limits.whole per_key) now budget),
    )
