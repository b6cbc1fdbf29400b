-- ===== src/Surfaces/Wire/Kinds.antt =====
-- crates/surfaces/src/outbox.rs: the kind of a request under a pinned mod.
use rsntr.Base.{ℕ, ◌≡◌, refl, ap, Bool, true, false, [], ◌∷◌, ◌++◌, ◌==◌, All, Str}
use rsntr.Surfaces.Wire.{first_of, infer_kind}

first_of-append :
    (sep : ℕ → Bool) (base : Str) (c : ℕ) (rest : Str)
    → All (λ b. sep b ≡ false) base
    → sep c ≡ true
    → first_of sep (base ++ c ∷ rest) ≡ base
unfolding first_of
first_of-append sep [] c rest h s = rw s refl
first_of-append sep (b ∷ base) c rest h s =
    rw h.0 (ap (λ x. b ∷ x) (first_of-append sep base c rest h.1 s))

first_of-All :
    (sep : ℕ → Bool) (base : Str) → All (λ b. sep b ≡ false) base → first_of sep base ≡ base
unfolding first_of
first_of-All sep [] h = refl
first_of-All sep (b ∷ base) h = rw h.0 (ap (λ x. b ∷ x) (first_of-All sep base h.1))

-- A mod that is pinned to a version gets the kind that its base name gets, where the base name has no
-- slash.
pub infer_kind_pinned :
    (base version signal : Str)
    → All (λ c. (c == b'/') ≡ false) base
    → infer_kind (base ++ b'/' ∷ version) signal ≡ infer_kind base signal
unfolding infer_kind
infer_kind_pinned base version signal h =
    rw (first_of-append (λ c. c == b'/') base b'/' version h refl)
      (rw (first_of-All (λ c. c == b'/') base h) refl)
