-- ===== src/Authenticator/Fingerprint/Literals.antt =====
-- crates/authenticator/src/fingerprint.rs: the values of literals leave no trace in the shape.
use mathlib.Core.List.{reverse}
use rsntr.Base.{
  sym, Bool-cases, ℕ, Bool, false, List, [], ◌∷◌, ◌++◌, ◌≡◌, refl, ap, ◌∙◌, inl, inr, arith, ◌==◌,
  if◌then◌else◌, Str,
}
use rsntr.Authenticator.Fingerprint.{
  Mode, outside, literal, number, space, Scan, quote_next, step_in, scan, start, normalize_bytes,
  pop_tail,
}

-- A text as SQL quotes it between its outer quotes: a quote is written twice.
abbrev pub doubled : List ℕ → List ℕ
doubled [] = []
doubled (c ∷ cs) = if c == b'\'' then b'\'' ∷ b'\'' ∷ doubled cs else c ∷ doubled cs

-- The state behind `before`, where `after` follows.
abbrev pub state_after : Scan → List ℕ → List ℕ → Scan
state_after s [] after = s
state_after s (b ∷ bs) after = state_after (step_in s.mode s b (bs ++ after)) bs after

-- No literal and no quoted identifier is open.
abbrev pub AtTop : Mode → Type 0
AtTop outside = Unit
AtTop number = Unit
AtTop space = Unit
AtTop _ = ⊥

scan-append :
    (before after : List ℕ) (s : Scan)
    → scan s (before ++ after) ≡ scan (state_after s before after) after
unfolding scan
scan-append [] after s = refl
scan-append (b ∷ bs) after s = scan-append bs after (step_in s.mode s b (bs ++ after))

quote_next-append :
    (bs xs ys : List ℕ)
    → quote_next xs ≡ quote_next ys
    → quote_next (bs ++ xs) ≡ quote_next (bs ++ ys)
quote_next-append [] xs ys h = h
quote_next-append (b ∷ bs) xs ys h = refl

step_in-quote_next :
    (m : Mode) (s : Scan) (c : ℕ) (xs ys : List ℕ)
    → quote_next xs ≡ quote_next ys
    → step_in m s c xs ≡ step_in m s c ys
unfolding step_in
step_in-quote_next literal s c xs ys h = rw h
step_in-quote_next _ s c xs ys h = refl

-- What precedes is told from what follows only by whether a quote stands next.
state_after-quote_next :
    (before xs ys : List ℕ) (s : Scan)
    → quote_next xs ≡ quote_next ys
    → state_after s before xs ≡ state_after s before ys
state_after-quote_next [] xs ys s h = refl
state_after-quote_next (b ∷ bs) xs ys s h =
    ap (λ t. state_after t bs xs) (step_in-quote_next s.mode s b _ _ (quote_next-append bs xs ys h))
    ∙ state_after-quote_next bs xs ys _ h

abbrev at : Mode → Bool → Str → Scan
at m w out = record { mode = m; in_word = w; out = out }

-- The body of a literal is read up to its closing quote, and leaves one question mark.
scan-literal :
    (t rest : List ℕ) (w : Bool) (out : Str)
    → quote_next rest ≡ false
    → scan (at literal w out) (doubled t ++ b'\'' ∷ rest)
      ≡ scan (at outside false (b'?' ∷ out)) rest
unfolding scan step_in
scan-literal [] rest w out h = ground arith
scan-literal (c ∷ t) rest w out h = elim (Bool-cases (c == b'\'')) [
  | inl quote ↦ rw quote (scan-literal t rest w out h)
  | inr plain ↦ rw plain (rw (plain, scan) (scan-literal t rest w out h))
]

-- The emitted text when a literal opens in state `s`.
abbrev opened : Mode → Str → Str
opened number out = b'?' ∷ out
opened _ out = out

scan_open :
    (m : Mode) (w : Bool) (out : Str) (rest : List ℕ)
    → AtTop m
    → (v : Bool) × (scan (at m w out) (b'\'' ∷ rest) ≡ scan (at literal v (opened m out)) rest)
unfolding scan step_in
scan_open outside w out rest h = (w, refl)
scan_open number w out rest h = (false, refl)
scan_open space w out rest h = (false, refl)
scan_open _ w out rest h = absurd h

-- A statement text, cut at a literal.
abbrev pub with_literal : List ℕ → List ℕ → List ℕ → List ℕ
with_literal before t rest = before ++ b'\'' ∷ (doubled t ++ b'\'' ∷ rest)

scan-with_literal :
    (before t rest : List ℕ)
    → AtTop (state_after start before (b'\'' ∷ [])).mode
    → quote_next rest ≡ false
    → scan start (with_literal before t rest)
      ≡ scan
          (at outside false (
            b'?'
            ∷ opened
                (state_after start before (b'\'' ∷ [])).mode
                (state_after start before (b'\'' ∷ [])).out))
          rest
scan-with_literal before t rest top h =
    let tail = b'\'' ∷ (doubled t ++ b'\'' ∷ rest) in
    let s = state_after start before (b'\'' ∷ []) in
    let (v, opens) = scan_open s.mode s.in_word s.out (doubled t ++ b'\'' ∷ rest) top in
    scan-append before tail start
    ∙ ap (λ q. scan q tail) (state_after-quote_next before tail (b'\'' ∷ []) start refl)
    ∙ opens
    ∙ scan-literal t rest v (opened s.mode s.out) h

-- Two statements that differ in the value of one string literal have one shape, whatever the two
-- texts hold, where the literal opens outside literals and quoted identifiers and the byte behind
-- its closing quote is not a quote.
pub normalize_bytes-with_literal :
    (before t u rest : List ℕ)
    → AtTop (state_after start before (b'\'' ∷ [])).mode
    → quote_next rest ≡ false
    → normalize_bytes (with_literal before t rest) ≡ normalize_bytes (with_literal before u rest)
unfolding normalize_bytes
normalize_bytes-with_literal before t u rest top h =
    ap (λ out. reverse (pop_tail out))
      (scan-with_literal before t rest top h ∙ sym (scan-with_literal before u rest top h))
