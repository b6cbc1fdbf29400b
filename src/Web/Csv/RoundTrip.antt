-- ===== src/Web/Csv/RoundTrip.antt =====
-- crates/web/src/csv.rs: a table that was exported is imported as it was.
use rsntr.Base.{
  ◌≡◌, ◌≢◌, refl, sym, ap, ◌∙◌, Bool, false, List, [], ◌∷◌, ◌++◌, All, Str, append_assoc,
  append-nil, map,
}
use rsntr.Web.Csv.{
  Value, encode_field, field_value, ok, Scan, fresh, loop, parse_csv, csv_line, csv_document,
  end_of_text,
}
use rsntr.Web.Csv.Cells.{cell, imported, IsStorable, field_value-cell}
use rsntr.Web.Csv.Document.{scan, loop-csv_line}

-- The fields of a parsed line as values.
abbrev pub read_cells : {Real : Type 0} → List (Str × Bool) → List (Value Real)
read_cells row = map (λ f. field_value (f.0) (f.1)) row

module _ {Real : Type 0} (format_real : Real → Str) where
  -- A line that `export_csv` writes: at least one column.
  abbrev pub IsLine : List (Value Real) → Type 0
  IsLine vs = (vs ≢ []) × All (IsStorable format_real) vs

  abbrev pub export : List (List (Value Real)) → Str
  export table = csv_document (map (map (encode_field format_real)) table)

  pub loop-export :
      (rows : List (List (Str × Bool))) (table : List (List (Value Real))) (rest : Str)
      → All IsLine table
      → loop (export table ++ rest) (scan rows [] [] false false) false
        ≡ loop rest (scan (rows ++ map (map (cell format_real)) table) [] [] false false) false
  unfolding csv_document
  loop-export rows [] rest lines =
      ap (λ all. loop rest (scan all [] [] false false) false) (sym (append-nil rows))
  loop-export rows ([] ∷ table) rest (line, lines) = absurd ((line.0) refl)
  loop-export rows ((v ∷ vs) ∷ table) rest (line, lines) =
      ap (λ cs. loop cs (scan rows [] [] false false) false) (append_assoc _ (export table) rest)
      ∙ loop-csv_line format_real rows [] v vs (export table ++ rest) (line.1)
      ∙ loop-export (rows ++ map (cell format_real) (v ∷ vs) ∷ []) table rest lines
      ∙ ap (λ all. loop rest (scan all [] [] false false) false)
          (append_assoc rows (map (cell format_real) (v ∷ vs) ∷ [])
            (map (map (cell format_real)) table))

  loop-csv_document :
      (table : List (List (Value Real)))
      → All IsLine table
      → loop (export table) fresh false
        ≡ ok (scan (map (map (cell format_real)) table) [] [] false false)
  unfolding loop
  loop-csv_document table lines =
      ap (λ cs. loop cs fresh false) (sym (append-nil (export table)))
      ∙ loop-export [] table [] lines

  parse_looped :
      (text : Str) (s : Scan)
      → text ≢ []
      → loop text fresh false ≡ ok s
      → parse_csv text ≡ end_of_text s
  unfolding parse_csv
  parse_looped [] s filled e = absurd (filled refl)
  parse_looped (c ∷ cs) s filled e = rw (parse_csv, e) refl

  read_cells-cell :
      (vs : List (Value Real))
      → All (IsStorable format_real) vs
      → read_cells (map (cell format_real) vs) ≡ map (imported format_real) vs
  read_cells-cell [] storable = refl
  read_cells-cell (v ∷ vs) (one, storable) =
      ap (λ x. x ∷ read_cells (map (cell format_real) vs)) (field_value-cell format_real v one)
      ∙ ap (λ xs. imported format_real v ∷ xs) (read_cells-cell vs storable)

  read_table :
      (table : List (List (Value Real)))
      → All IsLine table
      → map read_cells (map (map (cell format_real)) table) ≡ map (map (imported format_real)) table
  read_table [] lines = refl
  read_table (vs ∷ table) (line, lines) =
      ap (λ row. row ∷ map read_cells (map (map (cell format_real)) table))
        (read_cells-cell vs (line.1))
      ∙ ap (λ rows. map (imported format_real) vs ∷ rows) (read_table table lines)

csv_line-filled : (fields : List Str) (rest : Str) → csv_line fields ++ rest ≢ []
unfolding csv_line
csv_line-filled [] rest e = absurd (cc)
csv_line-filled ([] ∷ []) rest e = absurd (cc)
csv_line-filled ((c ∷ f) ∷ []) rest e = absurd (cc)
csv_line-filled ([] ∷ g ∷ fs) rest e = absurd (cc)
csv_line-filled ((c ∷ f) ∷ g ∷ fs) rest e = absurd (cc)

csv_document-filled :
    (fields : List Str) (lines : List (List Str)) → csv_document (fields ∷ lines) ≢ []
unfolding csv_document
csv_document-filled fields lines = csv_line-filled fields (csv_document lines)

-- Lines of storable values, each with at least one column, parse to as many lines of fields, and
-- field by field these are the values written: NULL, empty and quoted text, texts that look like
-- blobs, and blobs are themselves again; numbers and blob references are their text.
pub parse_csv-export :
    {Real : Type 0} (format_real : Real → Str) (first : List (Value Real))
    (table : List (List (Value Real)))
    → All (IsLine format_real) (first ∷ table)
    → (rows : List (List (Str × Bool))) × (parse_csv (export format_real (first ∷ table)) ≡ ok rows)
      × (map read_cells rows ≡ map (map (imported format_real)) (first ∷ table))
parse_csv-export format_real first table lines = (
  map (map (cell format_real)) (first ∷ table),
  parse_looped format_real (export format_real (first ∷ table)) _ (csv_document-filled _ _)
      (loop-csv_document format_real (first ∷ table) lines),
  read_table format_real (first ∷ table) lines,
)
