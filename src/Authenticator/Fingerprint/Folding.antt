-- ===== src/Authenticator/Fingerprint/Folding.antt =====
-- crates/authenticator/src/fingerprint.rs: the shape of a statement does not depend on the case
-- of its ASCII letters.
use mathlib.Core.List.{reverse}
use rsntr.Base.{
  ℕ, Bool, false, List, [], ◌∷◌, ◌≡◌, refl, ap, ◌∙◌, ◌⊎◌, arith, map, to_ascii_lowercase,
  is_whitespace,
}
use rsntr.Authenticator.Fingerprint.{
  Mode, outside, literal, escaped, number, space, quoted, Scan, outside_step, quote_next, step_in,
  scan, start, normalize_bytes, pop_tail, number_byte,
}

-- The byte that closes an open identifier is one of the two quotes.
abbrev Quotes : Mode → Type 0
Quotes (quoted q) = (q ≡ b'"') ⊎ (q ≡ b'`')
Quotes _ = Unit

outside_step-fold :
    (w : Bool) (out : List ℕ) (c : ℕ)
    → outside_step w out (to_ascii_lowercase c) ≡ outside_step w out c
unfolding outside_step
outside_step-fold w out c = ground arith

number_byte-fold : (c : ℕ) → number_byte (to_ascii_lowercase c) ≡ number_byte c
number_byte-fold c = ground arith

quote_next-fold : (bs : List ℕ) → quote_next (map to_ascii_lowercase bs) ≡ quote_next bs
quote_next-fold [] = refl
quote_next-fold (b ∷ bs) = ground arith

step_in-fold :
    (m : Mode) (s : Scan) (c : ℕ) (bs : List ℕ)
    → Quotes m
    → step_in m s (to_ascii_lowercase c) (map to_ascii_lowercase bs) ≡ step_in m s c bs
unfolding step_in
step_in-fold outside s c bs q = outside_step-fold s.in_word s.out c
step_in-fold literal s c bs q = rw quote_next-fold (ground arith)
step_in-fold escaped s c bs q = refl
step_in-fold (quoted x) s c bs q = ground arith
step_in-fold number s c bs q =
    ground (arith, number_byte-fold c, outside_step-fold false (b'?' ∷ s.out) c)
step_in-fold space s c bs q =
    unfold is_whitespace in ground (arith, outside_step-fold false s.out c)

outside_step-Quotes : (w : Bool) (out : List ℕ) (c : ℕ) → Quotes (outside_step w out c).mode
unfolding outside_step
outside_step-Quotes w out c = ground arith

step_in-Quotes :
    (m : Mode) (s : Scan) (c : ℕ) (bs : List ℕ)
    → s.mode ≡ m
    → Quotes m
    → Quotes (step_in m s c bs).mode
unfolding step_in
step_in-Quotes outside s c bs e q = outside_step-Quotes s.in_word s.out c
step_in-Quotes number s c bs e q = ground (arith, outside_step-Quotes false (b'?' ∷ s.out) c)
step_in-Quotes space s c bs e q = ground (arith, outside_step-Quotes false s.out c)
step_in-Quotes _ s c bs e q = ground arith

scan-fold :
    (bs : List ℕ) (s : Scan) → Quotes s.mode → scan s (map to_ascii_lowercase bs) ≡ scan s bs
unfolding scan
scan-fold [] s q = refl
scan-fold (b ∷ bs) s q =
    ap (λ t. scan t (map to_ascii_lowercase bs)) (step_in-fold s.mode s b bs q)
    ∙ scan-fold bs (step_in s.mode s b bs) (step_in-Quotes s.mode s b bs refl q)

-- Folding the ASCII case of a statement beforehand does not change its shape.
pub normalize_bytes-fold :
    (bs : List ℕ) → normalize_bytes (map to_ascii_lowercase bs) ≡ normalize_bytes bs
unfolding normalize_bytes
normalize_bytes-fold bs = ap (λ out. reverse (pop_tail out)) (scan-fold bs start tt)
