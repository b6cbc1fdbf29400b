-- ===== src/Web/Csv.antt =====
-- crates/web/src/csv.rs: the cell codec and the parser of CSV documents. A text is its code points.
-- `Real` stands for `f64`, and `format_real` for its `Display`.
pub mod Cells
pub mod Document
pub mod RoundTrip
pub mod Trailing
use rsntr.Base.{
  ℕ, zero, suc, ◌+◌, ◌-◌, ◌*◌, ◌%◌, Bool, true, false, not, ◌&&◌, ◌||◌, Option, none, some, List,
  [], ◌∷◌, ◌++◌, if◌then◌else◌, ltb, leb, ◌==◌, length, take, drop, all, any, Str, codes, hex,
  is_whitespace, is_ascii_digit,
}
use rsntr.Protocol.Envelope.{ℤ, pos, negsuc}
use rsntr.Authenticator.Clock.{decimal}

pub data Value (Real : Type 0) : Type 0 where
  null : Value Real
  integer : ℤ → Value Real
  real : Real → Value Real
  text : Str → Value Real
  blob : List ℕ → Value Real
  blob_ref : Str → ℕ → Value Real

abbrev pub comma : ℕ
comma = 44

abbrev pub double_quote : ℕ
double_quote = 34

abbrev pub apostrophe : ℕ
apostrophe = 39

abbrev pub cr : ℕ
cr = 13

abbrev pub lf : ℕ
lf = 10

abbrev pub is_ascii_hexdigit : ℕ → Bool
is_ascii_hexdigit c = is_ascii_digit c || (leb b'A' c && leb c b'F') || (leb b'a' c && leb c b'f')

-- `strip_suffix('\'')`
unfoldable pub strip_apostrophe : Str → Option Str
strip_apostrophe [] = none
strip_apostrophe (c ∷ []) = if c == apostrophe then some [] else none
strip_apostrophe (c ∷ d ∷ cs) = elim (strip_apostrophe (d ∷ cs)) [
  | none ↦ none
  | some front ↦ some (c ∷ front)
]

unfoldable pub strip_blob : Str → Option Str
unfolding strip_apostrophe
strip_blob (x ∷ q ∷ rest) =
    if (x == b'x' || x == b'X') && q == apostrophe then strip_apostrophe rest else none
strip_blob _ = none

abbrev pub is_hex_text : Option Str → Bool
is_hex_text none = false
is_hex_text (some digits) = length digits % 2 == 0 && all is_ascii_hexdigit digits

unfoldable pub is_blob_lexical : Str → Bool
unfolding strip_blob
is_blob_lexical field = is_hex_text (strip_blob field)

-- The loop of `quote`: a quote in the text is doubled.
unfoldable pub doubled : Str → Str
doubled [] = []
doubled (c ∷ cs) =
    if c == double_quote then double_quote ∷ double_quote ∷ doubled cs else c ∷ doubled cs

unfoldable pub quote : Str → Str
unfolding doubled
quote t = double_quote ∷ doubled t ++ double_quote ∷ []

unfoldable pub needs_quote : Str → Bool
unfolding is_blob_lexical
needs_quote t =
    any (λ c. c == comma) t
    || any (λ c. c == double_quote) t
    || any (λ c. c == lf) t
    || any (λ c. c == cr) t
    || is_blob_lexical t

unfoldable pub encode_text : Str → Str
unfolding needs_quote quote
encode_text [] = double_quote ∷ double_quote ∷ []
encode_text (c ∷ cs) = if needs_quote (c ∷ cs) then quote (c ∷ cs) else c ∷ cs

unfoldable pub integer_text : ℤ → Str
unfolding decimal
integer_text (pos n) = decimal n
integer_text (negsuc n) = b'-' ∷ decimal (suc n)

unfoldable pub blob_ref_text : Str → ℕ → Str
unfolding decimal
blob_ref_text hash bytes =
    codes "blobref(" ++ hash ++ codes ", " ++ decimal bytes ++ codes " bytes)"

module _ {Real : Type 0} (format_real : Real → Str) where
  unfoldable pub encode_field : Value Real → Str
  unfolding integer_text hex quote blob_ref_text encode_text
  encode_field null = []
  encode_field (integer i) = integer_text i
  encode_field (real f) = format_real f
  encode_field (blob bytes) = b'x' ∷ apostrophe ∷ hex bytes ++ apostrophe ∷ []
  encode_field (blob_ref hash bytes) = quote (blob_ref_text hash bytes)
  encode_field (text t) = encode_text t

abbrev pub hex_value : ℕ → ℕ
hex_value c = if is_ascii_digit c then c - 48 else if leb b'a' c then c - 87 else c - 55

-- `from_str_radix` on the digits in pairs
unfoldable pub unhex : Str → List ℕ
unhex (a ∷ b ∷ cs) = (16 * hex_value a + hex_value b) ∷ unhex cs
unhex _ = []

unfoldable pub field_value : {Real : Type 0} → Str → Bool → Value Real
unfolding is_blob_lexical unhex
field_value field true = text field
field_value [] false = null
field_value (c ∷ cs) false =
    if is_blob_lexical (c ∷ cs)
    then blob (unhex (take (length (c ∷ cs) - 3) (drop 2 (c ∷ cs))))
    else text (c ∷ cs)

pub data CsvError : Type 0 where
  quote_in_unquoted data_after_quote unterminated empty_document : CsvError

pub data Parsed {ℓ} (A : Type ℓ) : Type ℓ where
  ok : A → Parsed A
  err : CsvError → Parsed A

-- The locals of the loop.
pub record Scan : Type 0 where
  pub rows : List (List (Str × Bool))
  pub row : List (Str × Bool)
  pub field : Str
  pub quoted : Bool
  pub in_quotes : Bool

abbrev pub fresh : Scan
fresh = record { rows = []; row = []; field = []; quoted = false; in_quotes = false }

abbrev pub push : Scan → ℕ → Scan
push s c = record {
  rows = s.rows;
  row = s.row;
  field = s.field ++ c ∷ [];
  quoted = s.quoted;
  in_quotes = s.in_quotes;
}

abbrev pub set_quotes : Scan → Bool → Bool → Scan
set_quotes s quoted in_quotes = record {
  rows = s.rows;
  row = s.row;
  field = s.field;
  quoted = quoted;
  in_quotes = in_quotes;
}

abbrev pub end_field : Scan → Scan
end_field s = record {
  rows = s.rows;
  row = s.row ++ (s.field, s.quoted) ∷ [];
  field = [];
  quoted = false;
  in_quotes = s.in_quotes;
}

abbrev pub end_row : Scan → Scan
end_row s = record {
  rows = s.rows ++ (s.row ++ (s.field, s.quoted) ∷ []) ∷ [];
  row = [];
  field = [];
  quoted = false;
  in_quotes = s.in_quotes;
}

-- `chars.peek() == Some(&c)`
abbrev pub peeks : ℕ → Str → Bool
peeks c [] = false
peeks c (d ∷ _) = d == c

abbrev pub is_nil : {A : Type 0} → List A → Bool
is_nil [] = true
is_nil _ = false

-- One turn of the loop on `c`, with the characters behind it; the Boolean says that it took the next
-- one, too.
unfoldable pub turn : Scan → ℕ → Str → Parsed (Scan × Bool)
unfolding is_whitespace
turn s c rest =
    if s.in_quotes
    then (if c == double_quote
        then (if peeks double_quote rest
            then ok (push s double_quote, true)
            else ok (set_quotes s s.quoted false, false))
        else ok (push s c, false))
    else if c == double_quote
    then (if is_nil s.field && not s.quoted
        then ok (set_quotes s true true, false)
        else err quote_in_unquoted)
    else if c == comma
    then ok (end_field s, false)
    else if c == cr
    then ok (end_row s, peeks lf rest)
    else if c == lf
    then ok (end_row s, false)
    else if s.quoted && not (is_whitespace c)
    then err data_after_quote
    else ok (push s c, false)

unfoldable pub loop : Str → Scan → Bool → Parsed Scan
unfolding turn
loop [] s skip = ok s
loop (c ∷ rest) s true = loop rest s false
loop (c ∷ rest) s false = elim (turn s c rest) [
  | ok next ↦ loop rest (next.0) (next.1)
  | err e ↦ err e
]

abbrev pub end_of_text : Scan → Parsed (List (List (Str × Bool)))
end_of_text s =
    if s.in_quotes
    then err unterminated
    else if not (is_nil s.field) || s.quoted || not (is_nil s.row)
    then ok (s.rows ++ (s.row ++ (s.field, s.quoted) ∷ []) ∷ [])
    else ok s.rows

unfoldable pub parse_csv : Str → Parsed (List (List (Str × Bool)))
unfolding loop
parse_csv [] = err empty_document
parse_csv (c ∷ cs) = elim (loop (c ∷ cs) fresh false) [ ok s ↦ end_of_text s | err e ↦ err e ]

-- `join(",")` on the encoded fields, and the lines of `export_csv` behind the header's.
unfoldable pub csv_line : List Str → Str
csv_line [] = cr ∷ lf ∷ []
csv_line (f ∷ []) = f ++ cr ∷ lf ∷ []
csv_line (f ∷ g ∷ fs) = f ++ comma ∷ csv_line (g ∷ fs)

unfoldable pub csv_document : List (List Str) → Str
unfolding csv_line
csv_document [] = []
csv_document (line ∷ lines) = csv_line line ++ csv_document lines
