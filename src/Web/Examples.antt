-- ===== src/Web/Examples.antt =====
-- Runs of the theorems of the CSV codec.
use rsntr.Base.{ℕ, ◌≡◌, refl, Bool, List, [], ◌∷◌, ◌++◌, map, arith, Str, codes, is_whitespace}
use rsntr.Web.Csv.{Value, null, text, blob, quote, ok, err, data_after_quote, parse_csv}
use rsntr.Web.Csv.Cells.{imported}
use rsntr.Web.Csv.RoundTrip.{export, read_cells, parse_csv-export}
use rsntr.Web.Csv.Trailing.{in_front, parse_csv-quote}

-- Floats that print as one digit.
abbrev digit : ℕ → Str
digit n = codes "1"

abbrev head : List (Value ℕ)
head = text (codes "a") ∷ text (codes "b,c") ∷ []

abbrev line : List (Value ℕ)
line = null ∷ blob (255 ∷ []) ∷ []

parse_csv-export_example :
    (rows : List (List (Str × Bool))) × (parse_csv (export digit (head ∷ line ∷ [])) ≡ ok rows)
    × (map read_cells rows ≡ map (map (imported digit)) (head ∷ line ∷ []))
parse_csv-export_example = parse_csv-export digit head (line ∷ []) (
  ((λ bad. absurd (cc)), (tt, (tt, tt))),
  (((λ bad. absurd (cc)), (tt, ((omega arith, tt), tt))), tt),
)

parse_csv-quote_example :
    parse_csv
      (in_front digit (head ∷ []) (text (codes "d") ∷ []) (quote (codes "a") ++ b'x' ∷ codes ",e"))
    ≡ err data_after_quote
unfolding is_whitespace
parse_csv-quote_example =
    (parse_csv-quote digit (head ∷ []) (text (codes "d") ∷ []) (codes "a") b'x' (codes ",e")
        (((λ bad. absurd (cc)), (tt, (tt, tt))), tt) (tt, tt)
        (omega arith, omega arith, omega arith, omega arith)).0
      refl
