-- ===== src/Authenticator/Chain/Masks.antt =====
-- crates/authenticator/src/chain.rs: what a mask lets a tier say, in terms of membership.
use rsntr.Base.{
  ◌≡◌, ◌⊎◌, inl, inr, Bool, true, ◌||◌, none, some, List, [], ◌∷◌, refl, sym, subst, arith,
  Bool-cases, Option-cases, Str, codes, ◌=s◌, =s_iff, In, here, there, any,
}
use rsntr.Authenticator.Types.{
  Decision, Decision.allow, Decision.allow_narrowed, Decision.deny, Decision.escalate,
}
use rsntr.Authenticator.Chain.{TierMask, permits, get, permitted}

-- The action, or the wildcard, is on the list.
abbrev pub Lists : Str → List Str → Type 0
Lists action l = In (codes "*") l ⊎ In action l

-- What a mask lets its tier say.
abbrev pub MaskAllows : TierMask → Decision → Str → Type 0
MaskAllows m allow action = Lists action m.allow
MaskAllows m (allow_narrowed rewrite) action = Lists action m.allow_narrowed
MaskAllows m (deny reason) action = Lists action m.deny
MaskAllows m escalate action = Unit

-- A tier with no mask may say anything.
abbrev pub May : List (Str × TierMask) → Str → Decision → Str → Type 0
May masks name decision action =
    (get name masks ≡ none)
    ⊎ ((m : TierMask) × (get name masks ≡ some m) × MaskAllows m decision action)

abbrev is_listed : Str → Str → Bool
is_listed action a = a =s codes "*" || a =s action

Lists-there : {action x : Str} {l : List Str} → Lists action l → Lists action (x ∷ l)
Lists-there (inl i) = inl (there i)
Lists-there (inr i) = inr (there i)

Lists-of_any : (action : Str) (l : List Str) → any (is_listed action) l ≡ true → Lists action l
Lists-of_any action [] h = absurd (cc)
Lists-of_any action (x ∷ l) h = elim (Bool-cases (x =s codes "*")) [
  | inl star ↦ inl (here (sym ((=s_iff x (codes "*")).0 star)))
  | inr plain ↦ elim (Bool-cases (x =s action)) [
    | inl same ↦ inr (here (sym ((=s_iff x action).0 same)))
    | inr other ↦ Lists-there (Lists-of_any action l (rw (plain, other) at h))
  ]
]

any-In : {A : Type 0} (p : A → Bool) (a : A) (l : List A) → In a l → p a ≡ true → any p l ≡ true
any-In p a [] i h = elim i [ ]
any-In p a (x ∷ l) (here e) h = rw (subst (λ z. p z ≡ true) e h)
any-In p a (x ∷ l) (there i) h = ground (arith, any-In p a l i)

any_of_Lists : (action : Str) (l : List Str) → Lists action l → any (is_listed action) l ≡ true
any_of_Lists action l (inl i) =
    any-In (is_listed action) (codes "*") l i (ground (arith, =s_iff (codes "*") (codes "*")))
any_of_Lists action l (inr i) =
    any-In (is_listed action) action l i (ground (arith, =s_iff action action))

MaskAllows-of_permits :
    (m : TierMask) (d : Decision) (action : Str) → permits m d action ≡ true → MaskAllows m d action
unfolding permits
MaskAllows-of_permits m allow action h = Lists-of_any action m.allow h
MaskAllows-of_permits m (allow_narrowed r) action h = Lists-of_any action m.allow_narrowed h
MaskAllows-of_permits m (deny r) action h = Lists-of_any action m.deny h
MaskAllows-of_permits m escalate action h = tt

permits_of_MaskAllows :
    (m : TierMask) (d : Decision) (action : Str) → MaskAllows m d action → permits m d action ≡ true
unfolding permits
permits_of_MaskAllows m allow action h = any_of_Lists action m.allow h
permits_of_MaskAllows m (allow_narrowed r) action h = any_of_Lists action m.allow_narrowed h
permits_of_MaskAllows m (deny r) action h = any_of_Lists action m.deny h
permits_of_MaskAllows m escalate action h = refl

pub May-of_permitted :
    (masks : List (Str × TierMask)) (name : Str) (d : Decision) (action : Str)
    → permitted masks name d action ≡ true
    → May masks name d action
unfolding permitted
May-of_permitted masks name d action h = elim (Option-cases (get name masks)) [
  | inl n ↦ inl n
  | inr (m, e) ↦ inr (m, e, MaskAllows-of_permits m d action (rw (e, permitted) at h))
]

pub permitted_of_May :
    (masks : List (Str × TierMask)) (name : Str) (d : Decision) (action : Str)
    → May masks name d action
    → permitted masks name d action ≡ true
unfolding permitted
permitted_of_May masks name d action (inl n) = rw (n, permitted)
permitted_of_May masks name d action (inr (m, e, h)) =
    rw (e, permitted) (permits_of_MaskAllows m d action h)
