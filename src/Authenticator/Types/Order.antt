-- ===== src/Authenticator/Types/Order.antt =====
-- crates/authenticator/src/types.rs: the tree sets of a footprint do not depend on the order in
-- which their members were collected.
use mathlib.Core.List.{Permᴰ}
use rsntr.Base.{
  sym, ◌∙◌, true, false, List, [], ◌∷◌, ◌≡◌, refl, inl, inr, Bool-cases, arith, Str, ◌=s◌, =s_iff,
  str_lt, ap,
}
use rsntr.Authenticator.Types.{set_insert, set_collect}

pub str_lt_irrefl : (a : Str) → str_lt a a ≡ false
unfolding str_lt
str_lt_irrefl [] = refl
str_lt_irrefl (x ∷ a) = ground (arith, str_lt_irrefl a)

pub str_lt_trans : (a b c : Str) → str_lt a b ≡ true → str_lt b c ≡ true → str_lt a c ≡ true
unfolding str_lt
str_lt_trans (x ∷ a) (y ∷ b) (z ∷ c) p q = ground (arith, str_lt_trans a b c)
str_lt_trans _ _ _ p q = ground arith

pub str_lt_total : (a b : Str) → (a =s b) ≡ false → str_lt a b ≡ false → str_lt b a ≡ true
unfolding str_lt ◌=s◌
str_lt_total (x ∷ a) (y ∷ b) p q = ground (arith, str_lt_total a b)
str_lt_total _ _ p q = ground arith

-- Two insertions, first the smaller one.
set_insert-below :
    (a b : Str) (s : List Str)
    → str_lt a b ≡ true
    → set_insert a (set_insert b s) ≡ set_insert b (set_insert a s)
unfolding set_insert
set_insert-below a b [] h =
    ground (arith, =s_iff a b, =s_iff b a, str_lt_irrefl a, str_lt_trans a b a)
set_insert-below a b (x ∷ s) h = ground (
  arith,
  =s_iff a b,
  =s_iff b a,
  =s_iff a x,
  =s_iff b x,
  str_lt_irrefl a,
  str_lt_irrefl x,
  str_lt_trans a b a,
  str_lt_trans a b x,
  str_lt_total b x,
  str_lt_trans x b x,
  str_lt_total a x,
  str_lt_trans x a b,
  set_insert-below a b s h,
)

-- The order of two insertions does not matter, whether or not the list is sorted.
pub set_insert_comm :
    (a b : Str) (s : List Str) → set_insert a (set_insert b s) ≡ set_insert b (set_insert a s)
set_insert_comm a b s = elim (Bool-cases (a =s b)) [
  | inl same ↦ rw ((=s_iff a b).0 same)
  | inr apart ↦ elim (Bool-cases (str_lt a b)) [
    | inl below ↦ set_insert-below a b s below
    | inr above ↦ sym (set_insert-below b a s (str_lt_total a b apart above))
  ]
]

-- Collecting the same names in any order, each as often, gives one set.
pub set_collect-perm : {xs ys : List Str} → Permᴰ xs ys → set_collect xs ≡ set_collect ys
unfolding set_collect
set_collect-perm Permᴰ.nil = refl
set_collect-perm (Permᴰ.cons e p) = rw e (ap (set_insert _) (set_collect-perm p))
set_collect-perm (Permᴰ.swap {l = l} e f) = rw (e, f) (set_insert_comm _ _ (set_collect l))
set_collect-perm (Permᴰ.trans p q) = set_collect-perm p ∙ set_collect-perm q
