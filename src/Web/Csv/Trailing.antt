-- ===== src/Web/Csv/Trailing.antt =====
-- crates/web/src/csv.rs: what may follow a closing quote in its field.
use rsntr.Base.{
  ◌≡◌, ◌≢◌, refl, sym, ap, ◌∙◌, Bool, true, false, ℕ, List, [], ◌∷◌, ◌++◌, All, Str, is_whitespace,
  append_assoc, append-nil, map, ◌==◌,
}
use rsntr.Web.Csv.{
  Value, encode_field, comma, cr, lf, double_quote, quote, data_after_quote, quote_in_unquoted,
  peeks, Parsed, ok, err, Scan, fresh, turn, loop, parse_csv, end_of_text,
}
use rsntr.Web.Csv.Cells.{cell, IsStorable}
use rsntr.Web.Csv.Document.{scan, loop-quote, loop-encode_field, loop-comma, IsPlain, ==_ne}
use rsntr.Web.Csv.RoundTrip.{IsLine, export, loop-export}

conclude : Parsed Scan → Parsed (List (List (Str × Bool)))
conclude (ok s) = end_of_text s
conclude (err e) = err e

parse_of : (text : Str) → text ≢ [] → parse_csv text ≡ conclude (loop text fresh false)
unfolding parse_csv conclude
parse_of [] filled = absurd (filled refl)
parse_of (c ∷ cs) filled =
    elim (loop (c ∷ cs) fresh false)
      as (λ s. (elim s [ ok n ↦ end_of_text n | err e ↦ err e ]) ≡ conclude s) [
        | ok s ↦ refl
        | err e ↦ refl
      ]

filled_behind : (before : Str) (c : ℕ) (rest : Str) → before ++ c ∷ rest ≢ []
filled_behind [] c rest e = absurd (cc)
filled_behind (b ∷ before) c rest e = absurd (cc)

module _ (rows : List (List (Str × Bool))) (row : List (Str × Bool)) (t rest : Str) (c : ℕ)
    (plain : IsPlain c) where
  turn_white :
      is_whitespace c ≡ true
      → turn (scan rows row t true false) c rest
        ≡ ok (scan rows row (t ++ c ∷ []) true false, false)
  unfolding turn
  turn_white white =
      let (no_comma, no_quote, no_lf, no_cr) = plain in
      rw (==_ne c double_quote no_quote, ==_ne c comma no_comma, ==_ne c cr no_cr, ==_ne c lf no_lf)
        (rw white refl)

  turn_black :
      is_whitespace c ≡ false → turn (scan rows row t true false) c rest ≡ err data_after_quote
  unfolding turn
  turn_black black =
      let (no_comma, no_quote, no_lf, no_cr) = plain in
      rw (==_ne c double_quote no_quote, ==_ne c comma no_comma, ==_ne c cr no_cr, ==_ne c lf no_lf)
        (rw black refl)

  loop_white :
      is_whitespace c ≡ true
      → loop (c ∷ rest) (scan rows row t true false) false
        ≡ loop rest (scan rows row (t ++ c ∷ []) true false) false
  unfolding loop
  loop_white white = rw (loop, turn_white white) refl

  loop_black :
      is_whitespace c ≡ false
      → loop (c ∷ rest) (scan rows row t true false) false ≡ err data_after_quote
  unfolding loop
  loop_black black = rw (loop, turn_black black) refl

loop_second_quote :
    (rows : List (List (Str × Bool))) (row : List (Str × Bool)) (t rest : Str)
    → loop (double_quote ∷ rest) (scan rows row t true false) false ≡ err quote_in_unquoted
unfolding loop turn
loop_second_quote rows row [] rest = refl
loop_second_quote rows row (c ∷ t) rest = refl

module _ {Real : Type 0} (format_real : Real → Str) where
  -- Encoded cells, each with its comma.
  abbrev pub cells_text : List (Value Real) → Str
  cells_text [] = []
  cells_text (v ∷ vs) = encode_field format_real v ++ comma ∷ cells_text vs

  loop-cells_text :
      (rows : List (List (Str × Bool))) (row : List (Str × Bool)) (vs : List (Value Real))
      (rest : Str)
      → All (IsStorable format_real) vs
      → loop (cells_text vs ++ rest) (scan rows row [] false false) false
        ≡ loop rest (scan rows (row ++ map (cell format_real) vs) [] false false) false
  loop-cells_text rows row [] rest storable =
      ap (λ cells. loop rest (scan rows cells [] false false) false) (sym (append-nil row))
  loop-cells_text rows row (v ∷ vs) rest (one, storable) =
      ap (λ cs. loop cs (scan rows row [] false false) false)
        (append_assoc (encode_field format_real v) (comma ∷ cells_text vs) rest)
      ∙ loop-encode_field format_real rows row v (comma ∷ cells_text vs ++ rest) one refl
      ∙ loop-comma format_real rows row _ _ _
      ∙ loop-cells_text rows (row ++ cell format_real v ∷ []) vs rest storable
      ∙ ap (λ cells. loop rest (scan rows cells [] false false) false)
          (append_assoc row (cell format_real v ∷ []) (map (cell format_real) vs))

  -- The text in front of a field: the lines of a table, and cells of the field's own line.
  abbrev pub in_front : List (List (Value Real)) → List (Value Real) → Str → Str
  in_front table cells rest = export format_real table ++ (cells_text cells ++ rest)

  loop-in_front :
      (table : List (List (Value Real))) (cells : List (Value Real)) (rest : Str)
      → All (IsLine format_real) table
      → All (IsStorable format_real) cells
      → loop (in_front table cells rest) fresh false
        ≡ loop rest
            (scan
              (map (map (cell format_real)) table)
              (map (cell format_real) cells)
              []
              false
              false)
            false
  loop-in_front table cells rest lines storable =
      loop-export format_real [] table (cells_text cells ++ rest) lines
      ∙ loop-cells_text (map (map (cell format_real)) table) [] cells rest storable

  in_front-filled :
      (table : List (List (Value Real))) (cells : List (Value Real)) (c : ℕ) (rest : Str)
      → in_front table cells (c ∷ rest) ≢ []
  in_front-filled table cells c rest e =
      filled_behind (export format_real table ++ cells_text cells) c rest
        (append_assoc (export format_real table) (cells_text cells) (c ∷ rest) ∙ e)

-- A quoted field in a document, behind lines of a table and cells of its own line as an export writes
-- them, with a character behind its closing quote that is no comma, quote or line end; anything may
-- follow. If that is no white space, the document is an error. White space is taken into the field, as
-- if it stood in front of the quote; and if a quote is next, the document is an error.
pub parse_csv-quote :
    {Real : Type 0} (format_real : Real → Str) (table : List (List (Value Real)))
    (cells : List (Value Real)) (t : Str) (c : ℕ) (rest : Str)
    → All (IsLine format_real) table
    → All (IsStorable format_real) cells
    → IsPlain c
    → (is_whitespace c ≡ false
        → parse_csv (in_front format_real table cells (quote t ++ c ∷ rest)) ≡ err data_after_quote)
      × (is_whitespace c ≡ true
          → peeks double_quote rest ≡ false
          → parse_csv (in_front format_real table cells (quote t ++ c ∷ rest))
            ≡ parse_csv (in_front format_real table cells (quote (t ++ c ∷ []) ++ rest)))
      × (is_whitespace c ≡ true
          → parse_csv (in_front format_real table cells (quote t ++ c ∷ double_quote ∷ rest))
            ≡ err quote_in_unquoted)
unfolding conclude quote
parse_csv-quote format_real table cells t c rest lines storable plain =
    let rows = map (map (cell format_real)) table in
    let row = map (cell format_real) cells in
    let (no_comma, no_quote, no_lf, no_cr) = plain in
    let closes : (c == double_quote) ≡ false = ==_ne c double_quote no_quote in
    let looped = λ (u after : Str) (next : peeks double_quote after ≡ false).
      parse_of (in_front format_real table cells (quote u ++ after))
        (in_front-filled format_real table cells _ _)
      ∙ ap conclude (loop-in_front format_real table cells (quote u ++ after) lines storable)
      ∙ ap conclude (loop-quote rows row u after next) in
    (
      λ black. looped t (c ∷ rest) closes ∙ ap conclude (loop_black rows row t rest c plain black),
      λ white next.
          looped t (c ∷ rest) closes
          ∙ ap conclude (loop_white rows row t rest c plain white)
          ∙ sym (looped (t ++ c ∷ []) rest next),
      λ white.
          looped t (c ∷ double_quote ∷ rest) closes
          ∙ ap conclude (loop_white rows row t (double_quote ∷ rest) c plain white)
          ∙ ap conclude (loop_second_quote rows row (t ++ c ∷ []) rest),
    )
