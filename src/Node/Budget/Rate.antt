-- ===== src/Node/Budget/Rate.antt =====
-- crates/node/src/pipeline.rs: however knocks come, the grants of a time are bounded.
use rsntr.Base.{
  ℕ, ◌+◌, ◌-◌, ◌*◌, ◌≤◌, ◌≡◌, refl, sym, ap, ◌∙◌, inl, inr, Bool, true, false, ◌&&◌, some, List, [],
  ◌∷◌, if◌then◌else◌, leb, arith, Str, codes, ◌=s◌, =s_iff, =s_refl, Bool-cases, Option-cases,
}
use native.Mathlib.Nat.{mul-le-mul_right, add-mul, mul-add}
use rsntr.Authenticator.Chain.{get}
use rsntr.Node.Budget.{
  KnockLimits, Bucket, Budget, bucket_level, upsert, store_bucket, spent, spend_knock_token,
}

-- The knocks in the order they come, each with the time since the one before, and whether it is
-- granted.
unfoldable pub spend_all : KnockLimits → ℕ → List (Str × ℕ) → Budget → List (Str × Bool)
spend_all limits now [] budget = []
spend_all limits now ((peer, gap) ∷ knocks) budget =
    let (grant, budget') = spend_knock_token limits (now + gap) peer budget in
    (peer, grant) ∷ spend_all limits (now + gap) knocks budget'

abbrev pub one_if : Bool → ℕ
one_if true = 1
one_if false = 0

-- The number of granted knocks of the peers that `who` names.
unfoldable pub granted : (Str → Bool) → List (Str × Bool) → ℕ
granted who [] = 0
granted who ((peer, grant) ∷ results) = one_if (grant && who peer) + granted who results

unfoldable pub elapsed : List (Str × ℕ) → ℕ
elapsed [] = 0
elapsed ((peer, gap) ∷ knocks) = gap + elapsed knocks

get-upsert : (k : Str) (b : Bucket) (rows : List (Str × Bucket)) → get k (upsert k b rows) ≡ some b
unfolding get upsert
get-upsert k b [] = rw (=s_refl k) refl
get-upsert k b ((k', old) ∷ rows) = ground (arith, get-upsert k b rows)

get-upsert_ne :
    (k k' : Str) (b : Bucket) (rows : List (Str × Bucket))
    → (k' =s k) ≡ false
    → get k (upsert k' b rows) ≡ get k rows
unfolding get upsert
get-upsert_ne k k' b [] h = rw h refl
get-upsert_ne k k' b ((k2, old) ∷ rows) h = elim (Bool-cases (k2 =s k')) [
  | inl e ↦
      let same = (=s_iff k2 k').0 e in
      let other_key : (k2 =s k) ≡ false = ap (λ x. x =s k) same ∙ h in rw e (rw other_key refl)
  | inr n ↦ rw n (ap (λ rest. if k2 =s k then some old else rest) (get-upsert_ne k k' b rows h))
]

bucket_level_later :
    (rows : List (Str × Bucket)) (k : Str) (burst refill now gap : ℕ)
    → bucket_level (some rows) k burst refill (now + gap)
      ≤ bucket_level (some rows) k burst refill now + gap * refill
unfolding bucket_level
bucket_level_later rows k burst refill now gap = elim (Option-cases (get k rows)) [
  | inl e ↦ rw (e, bucket_level) (omega arith)
  | inr (b, e) ↦
      let longer : now + gap - b.updated_at ≤ now - b.updated_at + gap = omega arith in
      let more = mul-le-mul_right refill longer in
      let split = add-mul (now - b.updated_at) gap refill in
      rw (e, bucket_level) (ground (arith, more, split))
]

bucket_level_burst :
    (rows : List (Str × Bucket)) (k : Str) (burst refill now : ℕ)
    → bucket_level (some rows) k burst refill now ≤ burst
unfolding bucket_level
bucket_level_burst rows k burst refill now = elim (Option-cases (get k rows)) [
  | inl e ↦ rw (e, bucket_level) (omega arith)
  | inr (b, e) ↦ rw (e, bucket_level) (ground arith)
]

-- A bucket right behind its storing.
bucket_level_stored :
    (rows : List (Str × Bucket)) (k : Str) (tokens burst refill now : ℕ)
    → get k rows ≡ some (record { tokens = tokens; updated_at = now })
    → bucket_level (some rows) k burst refill now ≤ tokens
unfolding bucket_level
bucket_level_stored rows k tokens burst refill now e =
    let nothing : now - now ≤ 0 = omega arith in
    let none_passed = mul-le-mul_right refill nothing in
    rw (e, bucket_level) (ground (arith, none_passed))

bucket_level_same :
    (rows rows' : List (Str × Bucket)) (k : Str) (burst refill now : ℕ)
    → get k rows' ≡ get k rows
    → bucket_level (some rows') k burst refill now ≡ bucket_level (some rows) k burst refill now
unfolding bucket_level
bucket_level_same rows rows' k burst refill now e = rw (e, bucket_level) refl

module _ (limits : KnockLimits) (now : ℕ) (peer : Str) (rows : List (Str × Bucket)) where
  abbrev per_key : ℕ
  per_key = bucket_level (some rows) peer limits.per_key_burst limits.per_key_refill now

  abbrev global : ℕ
  global = bucket_level (some rows) (codes "*") limits.global_burst limits.global_refill now

  abbrev grants : Bool
  grants = leb limits.whole per_key && leb limits.whole global

  abbrev stored : List (Str × Bucket)
  stored =
      upsert (codes "*") (record { tokens = spent grants limits.whole global; updated_at = now })
        (upsert peer (record { tokens = spent grants limits.whole per_key; updated_at = now }) rows)

  spend_knock_token_lem : spend_knock_token limits now peer (some rows) ≡ (grants, some stored)
  unfolding spend_knock_token store_bucket
  spend_knock_token_lem = refl

  spent-global : limits.whole * one_if (grants && true) + spent grants limits.whole global ≤ global
  spent-global = ground arith

  spent-per_key :
      limits.whole * one_if (grants && true) + spent grants limits.whole per_key ≤ per_key
  spent-per_key = ground arith

  global_pays :
      limits.whole * one_if (grants && true)
        + bucket_level (some stored) (codes "*") limits.global_burst limits.global_refill now
      ≤ global
  global_pays = omega (
    arith,
    spent-global,
    bucket_level_stored stored (codes "*") (spent grants limits.whole global) limits.global_burst
        limits.global_refill now
        (get-upsert (codes "*") _ (
          upsert peer (record { tokens = spent grants limits.whole per_key; updated_at = now })
            rows)),
  )

  per_key_pays :
      (p : Str)
      → (codes "*" =s p) ≡ false
      → limits.whole * one_if (grants && peer =s p)
          + bucket_level (some stored) p limits.per_key_burst limits.per_key_refill now
        ≤ bucket_level (some rows) p limits.per_key_burst limits.per_key_refill now
  per_key_pays p star =
      let row : Bucket = record { tokens = spent grants limits.whole per_key; updated_at = now } in
      let unstarred =
        get-upsert_ne p (codes "*")
          (record { tokens = spent grants limits.whole global; updated_at = now })
          (upsert peer row rows) star in
      elim (Bool-cases (peer =s p)) [
        | inr differs ↦
            let same =
              bucket_level_same rows stored p limits.per_key_burst limits.per_key_refill now
                (unstarred ∙ get-upsert_ne p peer row rows differs) in
            ground (arith, same, differs)
        | inl is_p ↦
            let p_eq : peer ≡ p = (=s_iff peer p).0 is_p in
            let there_is : get p stored ≡ some row =
              unstarred
              ∙ ap (λ k. get k (upsert peer row rows)) (sym p_eq)
              ∙ get-upsert peer row rows in
            let kept =
              bucket_level_stored stored p (spent grants limits.whole per_key) limits.per_key_burst
                limits.per_key_refill now there_is in
            let from =
              ap (λ k. bucket_level (some rows) k limits.per_key_burst limits.per_key_refill now)
                p_eq in
            rw is_p (omega (arith, spent-per_key, kept, from))
      ]

module _ (limits : KnockLimits) (who : Str → Bool) (k : Str) (burst refill : ℕ)
    (pays : (now : ℕ) (peer : Str) (rows : List (Str × Bucket))
      → limits.whole * one_if (grants limits now peer rows && who peer)
          + bucket_level (some (stored limits now peer rows)) k burst refill now
        ≤ bucket_level (some rows) k burst refill now) where
  granted-bound :
      (now : ℕ) (knocks : List (Str × ℕ)) (rows : List (Str × Bucket))
      → limits.whole * granted who (spend_all limits now knocks (some rows))
        ≤ bucket_level (some rows) k burst refill now + elapsed knocks * refill
  unfolding spend_all granted elapsed
  granted-bound now [] rows = omega arith
  granted-bound now ((peer, gap) ∷ knocks) rows =
      let rest = granted-bound (now + gap) knocks (stored limits (now + gap) peer rows) in
      let paid = pays (now + gap) peer rows in
      let later = bucket_level_later rows k burst refill now gap in
      let times = add-mul gap (elapsed knocks) refill in
      let sum = mul-add limits.whole (one_if (grants limits (now + gap) peer rows && who peer)) (
        granted who
          (spend_all limits (now + gap) knocks (some (stored limits (now + gap) peer rows)))) in
      rw (spend_knock_token_lem limits (now + gap) peer rows)
        (omega (arith, rest, paid, later, times, sum))

-- Whatever the table holds and however the knocks come, with a clock that does not go back: the grants
-- to all peers cost at most the global burst and the global refill of the time that passed, and the
-- grants to one peer, whose id is not "*", at most the burst and the refill of a key.
pub granted-spend_all :
    (limits : KnockLimits) (now : ℕ) (knocks : List (Str × ℕ)) (rows : List (Str × Bucket))
    (p : Str)
    → (codes "*" =s p) ≡ false
    → let results = spend_all limits now knocks (some rows) in
      (limits.whole * granted (λ peer. true) results
        ≤ limits.global_burst + elapsed knocks * limits.global_refill)
      × (limits.whole * granted (λ peer. peer =s p) results
          ≤ limits.per_key_burst + elapsed knocks * limits.per_key_refill)
granted-spend_all limits now knocks rows p star =
    let all_peers =
      granted-bound limits (λ peer. true) (codes "*") limits.global_burst limits.global_refill
        (global_pays limits) now knocks rows in
    let one_peer =
      granted-bound limits (λ peer. peer =s p) p limits.per_key_burst limits.per_key_refill
        (λ now peer rows. per_key_pays limits now peer rows p star) now knocks rows in
    (
      omega (
        arith,
        all_peers,
        bucket_level_burst rows (codes "*") limits.global_burst limits.global_refill now,
      ),
      omega (
        arith,
        one_peer,
        bucket_level_burst rows p limits.per_key_burst limits.per_key_refill now,
      ),
    )
