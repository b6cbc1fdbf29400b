-- ===== src/Surfaces/Wire/Rows.antt =====
-- crates/surfaces/src/outbox.rs with crates/node/src/pipeline.rs: what _results holds of a row that a
-- node read from sqlite.
use rsntr.Base.{
  ℕ, ◌≡◌, refl, sym, ap, ◌∙◌, subst, inl, inr, true, false, Option, none, some, List, [], ◌∷◌, map,
  length, All, arith, Str, ◌=s◌, =s_iff, =s_refl, Bool-cases, Option-cases, some_inj,
}
use rsntr.Protocol.Envelope.{ℤ, Row}
use rsntr.Web.Csv.{Value}
use rsntr.Node.Engine.{Cell}
use rsntr.Node.Stream.{cell_value, row_cells, row_from_sql}
use rsntr.Surfaces.Wire.{Number, Json, null, last_cell, value_to_json, cell_json, row_to_json}

abbrev pub Differs : Str → List Str → Type 0
Differs name names = All (λ c. (name =s c) ≡ false) names

abbrev pub AllDiffer : List Str → Type 0
AllDiffer [] = Unit
AllDiffer (c ∷ columns) = Differs c columns × AllDiffer columns

module _ {Real : Type 0} (lossy : List ℕ → Str) (from_i64 : ℤ → Number Real)
    (from_f64 : Real → Option (Number Real)) where
  abbrev pub sized_json : Option (Value Real × ℕ) → Json Real
  sized_json none = null
  sized_json (some (v, size)) = value_to_json from_i64 from_f64 v

  -- What becomes of a cell that sqlite holds: a NULL is JSON's null.
  abbrev pub stored_json : Cell Real → Json Real
  stored_json cell = sized_json (cell_value lossy cell)

  abbrev json_row : List Str → List (Str × Value Real) → List (Json Real)
  json_row columns cells =
      row_to_json from_i64 from_f64 columns (record { seq = ℤ.pos 0; cells = cells })

  json_row-seq :
      (columns : List Str) (r : Row (Value Real))
      → row_to_json from_i64 from_f64 columns r ≡ json_row columns r.cells
  unfolding row_to_json
  json_row-seq [] r = refl
  json_row-seq (c ∷ columns) r =
      ap (λ rest. cell_json (value_to_json from_i64 from_f64) (last_cell c r.cells) ∷ rest)
        (json_row-seq columns r)

  last_cell-other :
      (c name : Str) (v : Value Real) (cells : List (Str × Value Real))
      → (name =s c) ≡ false
      → last_cell c ((name, v) ∷ cells) ≡ last_cell c cells
  unfolding last_cell
  last_cell-other c name v cells n = elim (Option-cases (last_cell c cells)) [
    | inl e ↦ rw (e, last_cell) (rw n refl)
    | inr (later, e) ↦ rw (e, last_cell) refl
  ]

  json_row-other :
      (columns : List Str) (name : Str) (v : Value Real) (cells : List (Str × Value Real))
      → Differs name columns
      → json_row columns ((name, v) ∷ cells) ≡ json_row columns cells
  unfolding row_to_json
  json_row-other [] name v cells d = refl
  json_row-other (c ∷ columns) name v cells d = rw (last_cell-other c name v cells d.0) (
      ap (λ rest. cell_json (value_to_json from_i64 from_f64) (last_cell c cells) ∷ rest)
        (json_row-other columns name v cells d.1))

  -- What is said of the cells of a row that was read.
  abbrev Shows : List Str → List (Cell Real) → Option (List (Str × Value Real) × ℕ) → Type 0
  Shows columns cells none = Unit
  Shows columns cells (some (named, est)) =
      (json_row columns named ≡ map stored_json cells)
      × ((name : Str) → Differs name columns → last_cell name named ≡ none)

  row_cells-Shows :
      (columns : List Str) (cells : List (Cell Real))
      → length cells ≡ length columns
      → AllDiffer columns
      → Shows columns cells (row_cells lossy columns cells)
  unfolding row_cells row_to_json last_cell
  row_cells-Shows [] [] n d = (refl, λ name h. refl)
  row_cells-Shows [] (x ∷ cells) n d = absurd (omega (arith, n))
  row_cells-Shows (c ∷ columns) [] n d = tt
  row_cells-Shows (c ∷ columns) (x ∷ cells) n d =
      elim (Option-cases (row_cells lossy columns cells)) [
        | inl e ↦ rw (e, row_cells) tt
        | inr ((rest, est), e) ↦
            let (shown, absent) =
              subst (Shows columns cells) e
                (row_cells-Shows columns cells (omega (arith, n)) d.1) in
            elim (Option-cases (cell_value lossy x)) [
              | inl nothing ↦
                  rw (e, row_cells)
                    (rw (nothing, row_cells)
                      (
                        rw (absent c d.0) (
                            ap (λ r. null ∷ r) shown
                            ∙ ap (λ y. y ∷ map stored_json cells) (sym (ap sized_json nothing))),
                        λ name h. absent name h.1,
                      ))
              | inr ((v, size), there_is) ↦
                  rw (e, row_cells)
                    (rw (there_is, row_cells)
                      (
                        rw (absent c d.0, last_cell)
                            (rw (=s_refl c) (
                              ap (λ r. value_to_json from_i64 from_f64 v ∷ r)
                                (json_row-other columns c v rest d.0 ∙ shown)
                              ∙ ap (λ y. y ∷ map stored_json cells)
                                  (sym (ap sized_json there_is)))),
                        λ name h.
                            last_cell-other name c v rest (differs_sym name c h.0)
                            ∙ absent name h.1,
                      ))
            ]
      ]
    where
      differs_sym : (a b : Str) → (a =s b) ≡ false → (b =s a) ≡ false
      differs_sym a b h = elim (Bool-cases (b =s a)) [
        | inr n ↦ n
        | inl y ↦
            let same : b ≡ a = (=s_iff b a).0 y in
            absurd (let f : true ≡ false = sym (=s_refl a) ∙ ap (λ x. a =s x) (sym same) ∙ h in cc)
      ]

  row_from_sql-Shows :
      (columns : List Str) (n : ℕ) (cells : List (Cell Real)) (r : Row (Value Real)) (est : ℕ)
      → row_from_sql lossy columns n cells ≡ some (r, est)
      → Shows columns cells (row_cells lossy columns cells)
      → row_to_json from_i64 from_f64 columns r ≡ map stored_json cells
  unfolding row_from_sql
  row_from_sql-Shows columns n cells r est e shows =
      elim (Option-cases (row_cells lossy columns cells)) [
        | inl broken ↦
            absurd (let f : none ≡ some (r, est) = (rw (broken, row_from_sql) at e) in cc)
        | inr ((named, size), read) ↦
            let made = (rw (read, row_from_sql) at e) in
            let cells_eq : named ≡ r.cells = ap (λ p. p.0.cells) (some_inj made) in
            json_row-seq columns r
            ∙ ap (json_row columns) (sym cells_eq)
            ∙ (subst (Shows columns cells) read shows).0
      ]

-- A row that a node reads from sqlite, with distinct column names and a cell to each, comes back in
-- _results as the JSON of its cells in the order of the columns, a NULL as null, though the wire leaves
-- a NULL out.
pub row_to_json-row_from_sql :
    {Real : Type 0} (lossy : List ℕ → Str) (from_i64 : ℤ → Number Real)
    (from_f64 : Real → Option (Number Real)) (columns : List Str) (n : ℕ) (cells : List (Cell Real))
    (r : Row (Value Real)) (est : ℕ)
    → length cells ≡ length columns
    → AllDiffer columns
    → row_from_sql lossy columns n cells ≡ some (r, est)
    → row_to_json from_i64 from_f64 columns r ≡ map (stored_json lossy from_i64 from_f64) cells
row_to_json-row_from_sql lossy from_i64 from_f64 columns n cells r est same d e =
    row_from_sql-Shows lossy from_i64 from_f64 columns n cells r est e
      (row_cells-Shows lossy from_i64 from_f64 columns cells same d)
