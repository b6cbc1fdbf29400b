-- ===== src/Surfaces/Wire.antt =====
-- crates/surfaces/src/outbox.rs: what a row of _outbox becomes on the wire and what a response becomes
-- in _results (`wire_request_id`, `infer_kind`, `json_to_value`, `value_to_json`, `row_to_json`,
-- `parse_params`). `ulid` reads a ULID; a value of serde_json is data here, with what its number
-- methods answer; the uppercase of a letter is the ASCII one.
pub mod Kinds
pub mod Rows
use Prim.Native.Nat.{bit_xor}
use rsntr.Base.{
  ℕ, suc, ◌+◌, ◌-◌, ◌*◌, ◌/◌, ◌%◌, ◌^◌, Bool, true, false, not, ◌&&◌, ◌||◌, Option, none, some,
  List, [], ◌∷◌, ◌++◌, if◌then◌else◌, ◌==◌, any, map, find, Str, codes, as_bytes, ◌=s◌,
  is_ascii_lower, is_whitespace, hex, trim_start,
}
use rsntr.Protocol.Envelope.{ℤ, pos, Row}
use rsntr.Authenticator.Chain.{get}
use rsntr.Web.Csv.{Value, blob_ref}

-- `u64::wrapping_mul`, `wrapping_add` and `rotate_left(7)`
abbrev pub u64 : ℕ → ℕ
u64 n = n % 2 ^ 64

abbrev pub rotate_left_7 : ℕ → ℕ
rotate_left_7 n = u64 (n * 2 ^ 7) + n / 2 ^ 57

abbrev pub fold_step : ℕ × ℕ → ℕ → ℕ × ℕ
fold_step (h1, h2) b =
    (u64 (bit_xor h1 b * 0x100000001b3), u64 (rotate_left_7 (u64 (h2 + b)) * 0x100000001b3))

unfoldable pub fold_bytes : ℕ × ℕ → List ℕ → ℕ × ℕ
fold_bytes h [] = h
fold_bytes h (b ∷ bs) = fold_bytes (fold_step h b) bs

unfoldable pub to_be_bytes : ℕ → List ℕ
to_be_bytes h =
    (h / 2 ^ 56 % 256)
    ∷ (h / 2 ^ 48 % 256)
    ∷ (h / 2 ^ 40 % 256)
    ∷ (h / 2 ^ 32 % 256)
    ∷ (h / 2 ^ 24 % 256)
    ∷ (h / 2 ^ 16 % 256)
    ∷ (h / 2 ^ 8 % 256)
    ∷ (h % 256)
    ∷ []

unfoldable pub wire_request_id : (Str → Option (List ℕ)) → Str → List ℕ
unfolding fold_bytes to_be_bytes as_bytes
wire_request_id ulid stored = elim (ulid stored) [
  | some bytes ↦ bytes
  | none ↦
      let (h1, h2) = fold_bytes (0xcbf29ce484222325, 0x84222325cbf29ce4) (as_bytes stored) in
      to_be_bytes h1 ++ to_be_bytes h2
]

pub data RequestKind : Type 0 where
  query execute : RequestKind

-- `split(c).next()`: up to the first character that is a separator
unfoldable pub first_of : (ℕ → Bool) → Str → Str
first_of sep [] = []
first_of sep (c ∷ cs) = if sep c then [] else c ∷ first_of sep cs

abbrev pub to_ascii_uppercase : Str → Str
to_ascii_uppercase = map (λ c. if is_ascii_lower c then c - 32 else c)

abbrev pub pushed : Str → List Str → List Str
pushed [] rest = rest
pushed (c ∷ cs) rest = (c ∷ cs) ∷ rest

-- `split_whitespace`, with the word before the first white space
unfoldable pub words_from : Str → Str → List Str
unfolding is_whitespace
words_from word [] = pushed word []
words_from word (c ∷ cs) =
    let fresh = words_from [] cs in
    let longer = words_from (word ++ c ∷ []) cs in
    if is_whitespace c then pushed word fresh else longer

abbrev pub one_of : List Str → Str → Bool
one_of names w = any (λ n. n =s w) names

unfoldable pub starts_with : Str → Str → Bool
starts_with [] s = true
starts_with (p ∷ ps) [] = false
starts_with (p ∷ ps) (c ∷ cs) = p == c && starts_with ps cs

-- the words that the walk over the prologue passes
abbrev pub in_prologue : Str → Bool
unfolding starts_with
in_prologue w =
    starts_with (codes "PREFIX") w
    || starts_with (codes "BASE") w
    || any (λ c. c == b':') w
    || starts_with (codes "<") w

unfoldable pub walk_prologue : List Str → RequestKind
unfolding in_prologue ◌=s◌
walk_prologue [] = execute
walk_prologue (word ∷ words) =
    let w = to_ascii_uppercase word in
    let rest = walk_prologue words in
    if one_of (codes "SELECT" ∷ codes "ASK" ∷ codes "CONSTRUCT" ∷ codes "DESCRIBE" ∷ []) w
    then query
    else if in_prologue w
    then rest
    else execute

abbrev pub ends_keyword : ℕ → Bool
unfolding is_whitespace
ends_keyword c = is_whitespace c || c == b'(' || c == b';'

unfoldable pub sql_kind : Str → RequestKind
unfolding first_of trim_start ends_keyword ◌=s◌
sql_kind signal =
    if one_of
      (codes "SELECT" ∷ codes "WITH" ∷ codes "PRAGMA" ∷ codes "EXPLAIN" ∷ codes "VALUES" ∷ [])
      (to_ascii_uppercase (first_of ends_keyword (trim_start signal)))
    then query
    else execute

unfoldable pub infer_kind : Str → Str → RequestKind
unfolding first_of sql_kind walk_prologue words_from ◌=s◌
infer_kind modulation signal =
    let base = first_of (λ c. c == b'/') modulation in
    if base =s codes "sql-sqlite"
    then sql_kind signal
    else if base =s codes "sparql"
    then walk_prologue (words_from [] signal)
    else if base =s codes "chat"
    then execute
    else query

-- a number of serde_json: what `as_i64` and `as_f64` answer, and its text
pub record Number (Real : Type 0) : Type 0 where
  pub as_i64 : Option ℤ
  pub as_f64 : Option Real
  pub text : Str

pub data Json (Real : Type 0) : Type 0 where
  null array object : Json Real
  bool : Bool → Json Real
  number : Number Real → Json Real
  string : Str → Json Real

pub data ParamError : Type 0 where
  not_an_array unsupported : ParamError
  out_of_range : Str → ParamError

pub data Parsed (A : Type 0) : Type 0 where
  parsed : A → Parsed A
  malformed : ParamError → Parsed A

module _ {Real : Type 0} where
  abbrev pub number_value : Number Real → Parsed (Value Real)
  number_value n = elim n.as_i64 [
    | some i ↦ parsed (Value.integer i)
    | none ↦ elim n.as_f64 [
      | some f ↦ parsed (Value.real f)
      | none ↦ malformed (out_of_range n.text)
    ]
  ]

  unfoldable pub json_to_value : Json Real → Parsed (Value Real)
  json_to_value null = parsed Value.null
  json_to_value (bool true) = parsed (Value.integer (pos 1))
  json_to_value (bool false) = parsed (Value.integer (pos 0))
  json_to_value (number n) = number_value n
  json_to_value (string s) = parsed (Value.text s)
  json_to_value array = malformed unsupported
  json_to_value object = malformed unsupported

  unfoldable pub values_of : List (Json Real) → Parsed (List (Value Real))
  unfolding json_to_value
  values_of [] = parsed []
  values_of (j ∷ js) = elim (json_to_value j) [
    | malformed e ↦ malformed e
    | parsed v ↦ elim (values_of js) [ malformed e ↦ malformed e | parsed vs ↦ parsed (v ∷ vs) ]
  ]

  -- `read` is the reading of serde_json, `none` where it is no array of values
  unfoldable pub parse_params : (Str → Option (List (Json Real))) → Str → Parsed (List (Value Real))
  unfolding values_of
  parse_params read raw = elim (read raw) [ none ↦ malformed not_an_array | some js ↦ values_of js ]

  -- `J::from` of an integer, and `Number::from_f64`, which is `none` for what is not finite
  unfoldable pub value_to_json :
      (ℤ → Number Real) → (Real → Option (Number Real)) → Value Real → Json Real
  unfolding hex
  value_to_json from_i64 from_f64 Value.null = null
  value_to_json from_i64 from_f64 (Value.integer i) = number (from_i64 i)
  value_to_json from_i64 from_f64 (Value.real f) = elim (from_f64 f) [
    | some n ↦ number n
    | none ↦ null
  ]
  value_to_json from_i64 from_f64 (Value.text s) = string s
  value_to_json from_i64 from_f64 (Value.blob b) = string (hex b)
  value_to_json from_i64 from_f64 (blob_ref hash bytes) = string hash

  -- collecting into a `HashMap`: the last cell of a name stands
  unfoldable pub last_cell : Str → List (Str × Value Real) → Option (Value Real)
  last_cell name [] = none
  last_cell name ((n, v) ∷ cells) = elim (last_cell name cells) [
    | some later ↦ some later
    | none ↦ if n =s name then some v else none
  ]

  abbrev pub cell_json : (Value Real → Json Real) → Option (Value Real) → Json Real
  cell_json to_json none = null
  cell_json to_json (some v) = to_json v

  -- the array that `row_to_json` writes
  unfoldable pub row_to_json :
      (ℤ → Number Real)
      → (Real → Option (Number Real))
      → List Str
      → Row (Value Real)
      → List (Json Real)
  unfolding last_cell value_to_json
  row_to_json from_i64 from_f64 [] r = []
  row_to_json from_i64 from_f64 (c ∷ columns) r =
      cell_json (value_to_json from_i64 from_f64) (last_cell c r.cells)
      ∷ row_to_json from_i64 from_f64 columns r
