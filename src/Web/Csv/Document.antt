-- ===== src/Web/Csv/Document.antt =====
-- crates/web/src/csv.rs: a document of encoded cells, parsed.
use rsntr.Base.{
  ℕ, ◌≡◌, ◌≢◌, inl, inr, refl, sym, ap, ◌∙◌, subst, Bool, true, false, List, [], ◌∷◌, ◌++◌, arith,
  ◌==◌, ==_iff, any, All, hex, hex_byte, hex_digit, ◌/◌, ◌%◌, Str, Bool-cases, append_assoc,
  append-nil, map,
}
use rsntr.Web.Csv.{
  Value, null, integer, real, text, blob, blob_ref, comma, double_quote, cr, lf, doubled, quote,
  needs_quote, encode_text, encode_field, ok, Scan, turn, loop, peeks, csv_line, integer_text,
  blob_ref_text, apostrophe,
}
use rsntr.Web.Csv.Cells.{cell, IsStorable, integer_plain, blob_literal}

abbrev pub scan : List (List (Str × Bool)) → List (Str × Bool) → Str → Bool → Bool → Scan
scan rows row field quoted in_quotes = record {
  rows = rows;
  row = row;
  field = field;
  quoted = quoted;
  in_quotes = in_quotes;
}

-- A character that the parser copies outside of quotes.
abbrev pub IsPlain : ℕ → Type 0
IsPlain c = (c ≢ comma) × (c ≢ double_quote) × (c ≢ lf) × (c ≢ cr)

pub ==_ne : (a b : ℕ) → a ≢ b → (a == b) ≡ false
==_ne a b ne = ground (arith, ==_iff a b)

turn_plain :
    (rows : List (List (Str × Bool))) (row : List (Str × Bool)) (field : Str) (c : ℕ) (rest : Str)
    → IsPlain c
    → turn (scan rows row field false false) c rest
      ≡ ok (scan rows row (field ++ c ∷ []) false false, false)
unfolding turn
turn_plain rows row field c rest (no_comma, no_quote, no_lf, no_cr) =
    rw (==_ne c double_quote no_quote, ==_ne c comma no_comma, ==_ne c cr no_cr, ==_ne c lf no_lf)
      refl

turn_quoted :
    (rows : List (List (Str × Bool))) (row : List (Str × Bool)) (field : Str) (c : ℕ) (rest : Str)
    → (c == double_quote) ≡ false
    → turn (scan rows row field true true) c rest
      ≡ ok (scan rows row (field ++ c ∷ []) true true, false)
unfolding turn
turn_quoted rows row field c rest other = rw other refl

turn_close :
    (rows : List (List (Str × Bool))) (row : List (Str × Bool)) (field rest : Str)
    → peeks double_quote rest ≡ false
    → turn (scan rows row field true true) double_quote rest
      ≡ ok (scan rows row field true false, false)
unfolding turn
turn_close rows row field rest next = rw next refl

doubled_other : (c : ℕ) (t : Str) → (c == double_quote) ≡ false → doubled (c ∷ t) ≡ c ∷ doubled t
unfolding doubled
doubled_other c t other = rw other refl

module _ (rows : List (List (Str × Bool))) (row : List (Str × Bool)) where
  grown :
      (c : ℕ) (t field rest : Str) (quoted : Bool)
      → loop rest (scan rows row ((field ++ c ∷ []) ++ t) quoted false) false
        ≡ loop rest (scan rows row (field ++ c ∷ t) quoted false) false
  grown c t field rest quoted =
      ap (λ f. loop rest (scan rows row f quoted false) false) (append_assoc field (c ∷ []) t)

  loop-plain :
      (t rest field : Str)
      → All IsPlain t
      → loop (t ++ rest) (scan rows row field false false) false
        ≡ loop rest (scan rows row (field ++ t) false false) false
  unfolding loop
  loop-plain [] rest field plain =
      ap (λ f. loop rest (scan rows row f false false) false) (sym (append-nil field))
  loop-plain (c ∷ t) rest field (one, plain) =
      rw (loop, turn_plain rows row field c (t ++ rest) one)
        (loop-plain t rest (field ++ c ∷ []) plain ∙ grown c t field rest false)

  loop_quote :
      (rest field : Str)
      → peeks double_quote rest ≡ false
      → loop (double_quote ∷ rest) (scan rows row field true true) false
        ≡ loop rest (scan rows row field true false) false
  unfolding loop
  loop_quote rest field next = rw (loop, turn_close rows row field rest next) refl

  loop_other :
      (c : ℕ) (rest field : Str)
      → (c == double_quote) ≡ false
      → loop (c ∷ rest) (scan rows row field true true) false
        ≡ loop rest (scan rows row (field ++ c ∷ []) true true) false
  unfolding loop
  loop_other c rest field other = rw (loop, turn_quoted rows row field c rest other) refl

  loop_pair :
      (rest field : Str)
      → loop (double_quote ∷ double_quote ∷ rest) (scan rows row field true true) false
        ≡ loop rest (scan rows row (field ++ double_quote ∷ []) true true) false
  unfolding loop turn
  loop_pair rest field = refl

  -- Inside of quotes, up to the closing one.
  loop-doubled :
      (t rest field : Str)
      → peeks double_quote rest ≡ false
      → loop (doubled t ++ double_quote ∷ rest) (scan rows row field true true) false
        ≡ loop rest (scan rows row (field ++ t) true false) false
  unfolding doubled
  loop-doubled [] rest field next =
      loop_quote rest field next
      ∙ ap (λ f. loop rest (scan rows row f true false) false) (sym (append-nil field))
  loop-doubled (c ∷ t) rest field next = elim (Bool-cases (c == double_quote)) [
    | inl same ↦
        subst
          (λ k.
            loop (doubled (k ∷ t) ++ double_quote ∷ rest) (scan rows row field true true) false
            ≡ loop rest (scan rows row (field ++ k ∷ t) true false) false)
          (sym ((==_iff c double_quote).0 same))
          (loop_pair (doubled t ++ double_quote ∷ rest) field
            ∙ loop-doubled t rest (field ++ double_quote ∷ []) next
            ∙ grown double_quote t field rest true)
    | inr other ↦
        ap (λ cs. loop (cs ++ double_quote ∷ rest) (scan rows row field true true) false)
          (doubled_other c t other)
        ∙ loop_other c (doubled t ++ double_quote ∷ rest) field other
        ∙ loop-doubled t rest (field ++ c ∷ []) next
        ∙ grown c t field rest true
  ]

  pub loop-quote :
      (t rest : Str)
      → peeks double_quote rest ≡ false
      → loop (quote t ++ rest) (scan rows row [] false false) false
        ≡ loop rest (scan rows row t true false) false
  unfolding loop turn quote
  loop-quote t rest next =
      ap (λ cs. loop cs (scan rows row [] true true) false)
        (append_assoc (doubled t) (double_quote ∷ []) rest)
      ∙ loop-doubled t rest [] next

IsPlain-of :
    (t : Str)
    → any (λ c. c == comma) t ≡ false
    → any (λ c. c == double_quote) t ≡ false
    → any (λ c. c == lf) t ≡ false
    → any (λ c. c == cr) t ≡ false
    → All IsPlain t
IsPlain-of [] e f g h = tt
IsPlain-of (c ∷ t) e f g h = (
  ground (arith, ==_iff c comma, ==_iff c double_quote, ==_iff c lf, ==_iff c cr),
  IsPlain-of t (ground arith) (ground arith) (ground arith) (ground arith),
)

needs_quote-IsPlain : (t : Str) → needs_quote t ≡ false → All IsPlain t
unfolding needs_quote
needs_quote-IsPlain t plain =
    IsPlain-of t (ground arith) (ground arith) (ground arith) (ground arith)

-- What ends a cell: a comma or a line end.
abbrev Ends : Str → Type 0
Ends rest = peeks double_quote rest ≡ false

hex_digit-IsPlain : (n : ℕ) → IsPlain (hex_digit n)
hex_digit-IsPlain n = ground arith

hex-IsPlain : (bytes : List ℕ) → All IsPlain (hex bytes ++ apostrophe ∷ [])
unfolding hex hex_byte
hex-IsPlain [] = (ground arith, tt)
hex-IsPlain (b ∷ bytes) =
    (hex_digit-IsPlain (b / 16), (hex_digit-IsPlain (b % 16), hex-IsPlain bytes))

encode_text_quoted :
    (c : ℕ) (cs : Str) → needs_quote (c ∷ cs) ≡ true → encode_text (c ∷ cs) ≡ quote (c ∷ cs)
unfolding encode_text
encode_text_quoted c cs quoted = rw quoted refl

encode_text_bare : (c : ℕ) (cs : Str) → needs_quote (c ∷ cs) ≡ false → encode_text (c ∷ cs) ≡ c ∷ cs
unfolding encode_text
encode_text_bare c cs plain = rw plain refl

module _ {Real : Type 0} (format_real : Real → Str) where
  loop-encode_text :
      (rows : List (List (Str × Bool))) (row : List (Str × Bool)) (t rest : Str)
      → Ends rest
      → loop (encode_text t ++ rest) (scan rows row [] false false) false
        ≡ loop rest
            (scan rows row ((cell format_real (text t)).0) ((cell format_real (text t)).1) false)
            false
  unfolding encode_text quote doubled
  loop-encode_text rows row [] rest next = loop-quote rows row [] rest next
  loop-encode_text rows row (c ∷ cs) rest next = elim (Bool-cases (needs_quote (c ∷ cs))) [
    | inl quoted ↦
        ap (λ cs'. loop (cs' ++ rest) (scan rows row [] false false) false)
          (encode_text_quoted c cs quoted)
        ∙ loop-quote rows row (c ∷ cs) rest next
        ∙ ap (λ q. loop rest (scan rows row (c ∷ cs) q false) false) (sym quoted)
    | inr plain ↦
        ap (λ cs'. loop (cs' ++ rest) (scan rows row [] false false) false)
          (encode_text_bare c cs plain)
        ∙ loop-plain rows row (c ∷ cs) rest [] (needs_quote-IsPlain (c ∷ cs) plain)
        ∙ ap (λ q. loop rest (scan rows row (c ∷ cs) q false) false) (sym plain)
  ]

  pub loop-encode_field :
      (rows : List (List (Str × Bool))) (row : List (Str × Bool)) (v : Value Real) (rest : Str)
      → IsStorable format_real v
      → Ends rest
      → loop (encode_field format_real v ++ rest) (scan rows row [] false false) false
        ≡ loop rest (scan rows row ((cell format_real v).0) ((cell format_real v).1) false) false
  unfolding encode_field
  loop-encode_field rows row null rest storable next = refl
  loop-encode_field rows row (integer i) rest storable next =
      loop-plain rows row (integer_text i) rest []
        (needs_quote-IsPlain (integer_text i) ((integer_plain i).1))
  loop-encode_field rows row (real f) rest (filled, plain) next =
      loop-plain rows row (format_real f) rest [] (needs_quote-IsPlain (format_real f) plain)
  loop-encode_field rows row (blob bytes) rest storable next =
      loop-plain rows row (blob_literal bytes) rest []
        (ground arith, (ground arith, hex-IsPlain bytes))
  loop-encode_field rows row (blob_ref hash bytes) rest storable next =
      loop-quote rows row (blob_ref_text hash bytes) rest next
  loop-encode_field rows row (text t) rest storable next = loop-encode_text rows row t rest next

  loop_line_end :
      (rows : List (List (Str × Bool))) (row : List (Str × Bool)) (field rest : Str) (quoted : Bool)
      → loop (cr ∷ lf ∷ rest) (scan rows row field quoted false) false
        ≡ loop rest (scan (rows ++ (row ++ (field, quoted) ∷ []) ∷ []) [] [] false false) false
  unfolding loop turn
  loop_line_end rows row field rest quoted = refl

  pub loop-comma :
      (rows : List (List (Str × Bool))) (row : List (Str × Bool)) (field rest : Str) (quoted : Bool)
      → loop (comma ∷ rest) (scan rows row field quoted false) false
        ≡ loop rest (scan rows (row ++ (field, quoted) ∷ []) [] false false) false
  unfolding loop turn
  loop-comma rows row field rest quoted = refl

  pub loop-csv_line :
      (rows : List (List (Str × Bool))) (row : List (Str × Bool)) (v : Value Real)
      (vs : List (Value Real)) (rest : Str)
      → All (IsStorable format_real) (v ∷ vs)
      → loop
          (csv_line (map (encode_field format_real) (v ∷ vs)) ++ rest)
          (scan rows row [] false false)
          false
        ≡ loop rest
            (scan (rows ++ (row ++ map (cell format_real) (v ∷ vs)) ∷ []) [] [] false false)
            false
  unfolding csv_line
  loop-csv_line rows row v [] rest (one, _) =
      ap (λ cs. loop cs (scan rows row [] false false) false)
        (append_assoc (encode_field format_real v) (cr ∷ lf ∷ []) rest)
      ∙ loop-encode_field rows row v (cr ∷ lf ∷ rest) one refl
      ∙ loop_line_end rows row _ rest _
  loop-csv_line rows row v (w ∷ vs) rest (one, storable) =
      ap (λ cs. loop cs (scan rows row [] false false) false)
        (append_assoc (encode_field format_real v) _ rest)
      ∙ loop-encode_field rows row v _ one refl
      ∙ loop-comma rows row _ _ _
      ∙ loop-csv_line rows (row ++ cell format_real v ∷ []) w vs rest storable
      ∙ ap (λ cells. loop rest (scan (rows ++ cells ∷ []) [] [] false false) false)
          (append_assoc row (cell format_real v ∷ []) (map (cell format_real) (w ∷ vs)))
