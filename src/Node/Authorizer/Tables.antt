-- ===== src/Node/Authorizer/Tables.antt =====
-- The tables of a footprint as `entry` and `insert` of the tree map and the tree set build them, for
-- crates/node/src/footprint.rs.
use rsntr.Base.{
  ◌≡◌, inl, inr, refl, Bool, true, false, ◌||◌, Option, none, some, List, [], ◌∷◌, arith, All, any,
  Str, str_lt, ◌=s◌, =s_iff, =s_refl, Bool-cases,
}
use rsntr.Authenticator.Types.{set_insert}
use rsntr.Authenticator.Types.Order.{str_lt_irrefl, str_lt_trans, str_lt_total}
use rsntr.Authenticator.Chain.{get}
use rsntr.Node.Authorizer.{touch}

-- Every key is greater than `k`.
abbrev pub Above : Str → List (Str × List Str) → Type 0
Above k m = All (λ e. str_lt k (e.0) ≡ true) m

abbrev pub Sorted : List (Str × List Str) → Type 0
Sorted [] = Unit
Sorted ((k, v) ∷ m) = Above k m × Sorted m

Above-lower : (k j : Str) (m : List (Str × List Str)) → str_lt k j ≡ true → Above j m → Above k m
Above-lower k j [] lower above = tt
Above-lower k j ((i, v) ∷ m) lower (one, above) =
    (str_lt_trans k j i lower one, Above-lower k j m lower above)

get-Above : (k : Str) (m : List (Str × List Str)) → Above k m → get k m ≡ none
unfolding get
get-Above k [] above = refl
get-Above k ((i, v) ∷ m) (one, above) =
    ground (arith, get-Above k m above, =s_iff i k, str_lt_irrefl k)

=s_swap : (a b : Str) (t : Bool) → (a =s b) ≡ t → (b =s a) ≡ t
=s_swap a b true e = ground (arith, =s_iff a b, =s_iff b a)
=s_swap a b false e = ground (arith, =s_iff a b, =s_iff b a)

abbrev pub or_default : Option (List Str) → List Str
or_default none = []
or_default (some cols) = cols

pub get-touch :
    (k : Str) (f : List Str → List Str) (m : List (Str × List Str))
    → Sorted m
    → get k (touch k f m) ≡ some (f (or_default (get k m)))
unfolding get touch
get-touch k f [] sorted = ground (arith, =s_refl k)
get-touch k f ((j, w) ∷ m) (above, sorted) = elim (Bool-cases (k =s j)) [
  | inl same ↦ rw (same, =s_swap k j true same) refl
  | inr other ↦ elim (Bool-cases (str_lt k j)) [
    | inl lower ↦
        rw
          (
            other,
            lower,
            =s_refl k,
            =s_swap k j false other,
            get-Above k m (Above-lower k j m lower above),
          )
          refl
    | inr higher ↦ rw (other, higher, =s_swap k j false other) (get-touch k f m sorted)
  ]
]

pub get-touch_ne :
    (k j : Str) (f : List Str → List Str) (m : List (Str × List Str))
    → (k =s j) ≡ false
    → get j (touch k f m) ≡ get j m
unfolding get touch
get-touch_ne k j f [] other = ground arith
get-touch_ne k j f ((i, w) ∷ m) other =
    ground (arith, get-touch_ne k j f m other, =s_iff k i, =s_iff i j, =s_iff k j)

Above-touch :
    (i k : Str) (f : List Str → List Str) (m : List (Str × List Str))
    → str_lt i k ≡ true
    → Above i m
    → Above i (touch k f m)
unfolding touch
Above-touch i k f [] lower above = (lower, tt)
Above-touch i k f ((j, w) ∷ m) lower (one, above) = ground (arith, Above-touch i k f m lower above)

pub Sorted-touch :
    (k : Str) (f : List Str → List Str) (m : List (Str × List Str))
    → Sorted m
    → Sorted (touch k f m)
unfolding touch
Sorted-touch k f [] sorted = (tt, tt)
Sorted-touch k f ((j, w) ∷ m) (above, sorted) = elim (Bool-cases (k =s j)) [
  | inl same ↦ rw same (above, sorted)
  | inr other ↦ elim (Bool-cases (str_lt k j)) [
    | inl lower ↦ rw (other, lower) ((lower, Above-lower k j m lower above), (above, sorted))
    | inr higher ↦
        rw (other, higher)
          (Above-touch j k f m (str_lt_total k j other higher) above, Sorted-touch k f m sorted)
  ]
]

pub any-set_insert :
    (a c : Str) (xs : List Str)
    → any (λ x. x =s c) (set_insert a xs) ≡ (a =s c || any (λ x. x =s c) xs)
unfolding set_insert
any-set_insert a c [] = ground arith
any-set_insert a c (x ∷ xs) =
    ground (arith, any-set_insert a c xs, =s_iff a x, =s_iff x c, =s_iff a c)
