-- ===== src/Authenticator/Policy/Precedence.antt =====
-- crates/authenticator/src/policy.rs: which rows win. `top p rows` is one more than the greatest
-- score of the rows with `p`, and 0 where there is none.
use mathlib.Core.Path.{subst}
use rsntr.Base.{
  sym, ℕ, ◌+◌, ◌≤◌, ◌<◌, ◌≡◌, ◌↔◌, Bool, true, false, not, ◌&&◌, Option, none, some, List, [], ◌∷◌,
  refl, arith, if◌then◌else◌, ltb, Bool-cases, In, here, there, Str, inl, inr,
}
use rsntr.Authenticator.Db.{PolicyRow}
use rsntr.Authenticator.Policy.{
  allowed, refused, unmatched, matches, score, is_allow, better, best_of, resolved, resolve,
}

larger : ℕ → ℕ → ℕ
larger a b = if ltb a b then b else a

pub top : (PolicyRow → Bool) → List PolicyRow → ℕ
top p [] = 0
top p (r ∷ rows) = let n = top p rows in if p r then larger n (score r + 1) else n

larger_bounds : (a b : ℕ) → (a ≤ larger a b) × (b ≤ larger a b)
unfolding larger
larger_bounds a b = ground arith

top-ge_head :
    (p : PolicyRow → Bool) (x : PolicyRow) (xs : List PolicyRow)
    → p x ≡ true
    → score x < top p (x ∷ xs)
unfolding top
top-ge_head p x xs h = rw h (omega (arith, larger_bounds (top p xs) (score x + 1)))

top-ge :
    {r : PolicyRow} (p : PolicyRow → Bool) {rows : List PolicyRow}
    → In r rows
    → p r ≡ true
    → score r < top p rows
unfolding top
top-ge {r} p (here {x = x} {xs = xs} e) h =
    subst (λ z. p z ≡ true → score z < top p (x ∷ xs)) (sym e) (top-ge_head p x xs) h
top-ge {r} p (there {x = x} {xs = xs} m) h = elim (Bool-cases (p x)) [
  | inl also ↦ rw also (omega (arith, top-ge p m h, larger_bounds (top p xs) (score x + 1)))
  | inr other ↦ rw other (top-ge p m h)
]

-- A row with `p` whose score is the greatest.
abbrev Attains : (PolicyRow → Bool) → List PolicyRow → ℕ → Type 0
Attains p rows n = (r : PolicyRow) × In r rows × (p r ≡ true) × (score r + 1 ≡ n)

Attains-there :
    {p : PolicyRow → Bool} {rows : List PolicyRow} {n : ℕ} (x : PolicyRow)
    → Attains p rows n
    → Attains p (x ∷ rows) n
Attains-there x (r, m, h, e) = (r, there m, h, e)

larger-Attains :
    (p : PolicyRow → Bool) (x : PolicyRow) (rows : List PolicyRow) (n : ℕ)
    → p x ≡ true
    → (0 < n → Attains p rows n)
    → Attains p (x ∷ rows) (larger n (score x + 1))
unfolding larger
larger-Attains p x rows n h ih = elim (Bool-cases (ltb n (score x + 1))) [
  | inl new ↦ rw new (x, here refl, h, refl)
  | inr old ↦ rw old (Attains-there x (ih (ground arith)))
]

top_attained :
    (p : PolicyRow → Bool) (rows : List PolicyRow) → 0 < top p rows → Attains p rows (top p rows)
unfolding top
top_attained p [] h = absurd (omega arith)
top_attained p (x ∷ rows) h = elim (Bool-cases (p x)) [
  | inl also ↦ rw also (larger-Attains p x rows (top p rows) also (top_attained p rows))
  | inr other ↦ rw other (Attains-there x (top_attained p rows (rw other at h)))
]

top-le :
    (p : PolicyRow → Bool) (rows : List PolicyRow) (n : ℕ)
    → ((q : PolicyRow) → In q rows → p q ≡ true → score q < n)
    → top p rows ≤ n
unfolding top larger
top-le p [] n h = omega arith
top-le p (x ∷ rows) n h = elim (Bool-cases (p x)) [
  | inl also ↦
      rw also (ground (arith, top-le p rows n (λ q m. h q (there m)), h x (here refl) also))
  | inr other ↦ rw other (top-le p rows n (λ q m. h q (there m)))
]

-- The loop's state stands for the greatest allowing and refusing scores seen.
abbrev Stands : Option (ℕ × Bool) → ℕ → ℕ → Type 0
Stands none a d = (a ≡ 0) × (d ≡ 0)
Stands (some (s, true)) a d = (a ≡ s + 1) × (d ≤ s)
Stands (some (s, false)) a d = (d ≡ s + 1) × (a ≤ s + 1)

better_allows-Stands :
    (best : Option (ℕ × Bool)) (n a d : ℕ)
    → Stands best a d
    → Stands (better best n true) (larger a (n + 1)) d
unfolding better larger
better_allows-Stands none n a d h = ground arith
better_allows-Stands (some (s, true)) n a d h = ground arith
better_allows-Stands (some (s, false)) n a d h = ground arith

better_refuses-Stands :
    (best : Option (ℕ × Bool)) (n a d : ℕ)
    → Stands best a d
    → Stands (better best n false) a (larger d (n + 1))
unfolding better larger
better_refuses-Stands none n a d h = ground arith
better_refuses-Stands (some (s, true)) n a d h = ground arith
better_refuses-Stands (some (s, false)) n a d h = ground arith

larger_zero : (a : ℕ) → larger a 0 ≡ a
unfolding larger
larger_zero a = ground arith

zero-larger : (a : ℕ) → larger 0 a ≡ a
unfolding larger
zero-larger a = ground arith

larger_assoc : (a b c : ℕ) → larger (larger a c) b ≡ larger a (larger b c)
unfolding larger
larger_assoc a b c = ground arith

resolved-Stands :
    (b : Option (ℕ × Bool)) (a d : ℕ)
    → Stands b a d
    → ((resolved b ≡ allowed) ↔ (d < a))
      × ((resolved b ≡ refused) ↔ ((0 < d) × (a ≤ d)))
      × ((resolved b ≡ unmatched) ↔ ((a ≡ 0) × (d ≡ 0)))
unfolding resolved
resolved-Stands none a d h = ground arith
resolved-Stands (some (s, true)) a d h = ground arith
resolved-Stands (some (s, false)) a d h = ground arith

module _ (peer table action : Str) where
  -- A row of the query that allows, and one that does not.
  abbrev pub allows : PolicyRow → Bool
  allows r = matches peer table action r && is_allow r

  abbrev pub refuses : PolicyRow → Bool
  refuses r = matches peer table action r && not (is_allow r)

  best_of-Stands :
      (rows : List PolicyRow) (best : Option (ℕ × Bool)) (a d : ℕ)
      → Stands best a d
      → Stands
          (best_of peer table action best rows)
          (larger a (top allows rows))
          (larger d (top refuses rows))
  unfolding best_of top
  best_of-Stands [] best a d h = rw (larger_zero a, larger_zero d) h
  best_of-Stands (r ∷ rows) best a d h = elim (Bool-cases (matches peer table action r)) [
    | inr out ↦ rw (out) (best_of-Stands rows best a d h)
    | inl within ↦ elim (Bool-cases (is_allow r)) [
      | inl yes_allow ↦
          rw (within, yes_allow)
            (rw (← larger_assoc a)
              (best_of-Stands rows _ _ _ (better_allows-Stands best (score r) a d h)))
      | inr no_allow ↦
          rw (within, no_allow)
            (rw (← larger_assoc d)
              (best_of-Stands rows _ _ _ (better_refuses-Stands best (score r) a d h)))
    ]
  ]

  resolve-Stands :
      (rows : List PolicyRow)
      → Stands (best_of peer table action none rows) (top allows rows) (top refuses rows)
  resolve-Stands rows =
      rw (← zero-larger (top allows rows), ← zero-larger (top refuses rows))
        (best_of-Stands rows none 0 0 (refl, refl))

  -- A matching row allows, and every matching row that does not has a smaller score.
  abbrev pub AllowedBy : List PolicyRow → Type 0
  AllowedBy rows =
      (r : PolicyRow) × In r rows
      × (allows r ≡ true)
      × ((q : PolicyRow) → In q rows → refuses q ≡ true → score q < score r)

  -- A matching row does not allow, and no matching row that does has a greater score.
  abbrev pub RefusedBy : List PolicyRow → Type 0
  RefusedBy rows =
      (r : PolicyRow) × In r rows
      × (refuses r ≡ true)
      × ((q : PolicyRow) → In q rows → allows q ≡ true → score q ≤ score r)

  abbrev pub NoneMatches : List PolicyRow → Type 0
  NoneMatches rows = (q : PolicyRow) → In q rows → matches peer table action q ≡ false

  allowed_of_top : (rows : List PolicyRow) → top refuses rows < top allows rows → AllowedBy rows
  allowed_of_top rows h =
      let (r, m, a, e) = top_attained allows rows (omega arith) in
      (r, m, a, λ q n b. omega (arith, top-ge refuses n b))

  refused_of_top :
      (rows : List PolicyRow)
      → 0 < top refuses rows
      → top allows rows ≤ top refuses rows
      → RefusedBy rows
  refused_of_top rows h le =
      let (r, m, a, e) = top_attained refuses rows h in
      (r, m, a, λ q n b. omega (arith, top-ge allows n b))

  none_of_top :
      (rows : List PolicyRow) → top allows rows ≡ 0 → top refuses rows ≡ 0 → NoneMatches rows
  none_of_top rows a d q m = ground (arith, top-ge allows m, top-ge refuses m)

  top_of_allowed : (rows : List PolicyRow) → AllowedBy rows → top refuses rows < top allows rows
  top_of_allowed rows (r, m, a, h) =
      omega (arith, top-ge allows m a, top-le refuses rows (score r) h)

  top_of_refused :
      (rows : List PolicyRow)
      → RefusedBy rows
      → (0 < top refuses rows) × (top allows rows ≤ top refuses rows)
  top_of_refused rows (r, m, a, h) =
      let most = top-le allows rows (score r + 1) (λ q n b. omega (arith, h q n b)) in
      let least = top-ge refuses m a in (omega arith, omega arith)

  top_of_none :
      (rows : List PolicyRow) → NoneMatches rows → (top allows rows ≡ 0) × (top refuses rows ≡ 0)
  top_of_none rows h =
      let none_allows = top-le allows rows 0 (λ q m b. absurd (ground (arith, h q m))) in
      let none_refuses = top-le refuses rows 0 (λ q m b. absurd (ground (arith, h q m))) in
      (omega arith, omega arith)

  -- The most specific matching row decides, and at equal specificity a row that does not allow
  -- wins: `resolve` allows exactly if some matching row that allows outranks every matching row
  -- that does not, refuses exactly if no allowing row outranks some row that does not, and
  -- leaves the table unmatched exactly if no row matches.
  pub resolve_precedence :
      (rows : List PolicyRow)
      → ((resolve rows peer table action ≡ allowed) ↔ AllowedBy rows)
        × ((resolve rows peer table action ≡ refused) ↔ RefusedBy rows)
        × ((resolve rows peer table action ≡ unmatched) ↔ NoneMatches rows)
  unfolding resolve
  resolve_precedence rows =
      let (yes_iff, no_iff, none_iff) = resolved-Stands _ _ _ (resolve-Stands rows) in
      (
        (λ e. allowed_of_top rows (yes_iff.0 e), λ b. yes_iff.1 (top_of_allowed rows b)),
        (
          λ e. let (d, l) = no_iff.0 e in refused_of_top rows d l,
          λ b. no_iff.1 (top_of_refused rows b),
        ),
        (
          λ e. let (z, w) = none_iff.0 e in none_of_top rows z w,
          λ b. none_iff.1 (top_of_none rows b),
        ),
      )
