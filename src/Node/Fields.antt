-- ===== src/Node/Fields.antt =====
-- crates/node/src/projection.rs: the columns of `_projection` that hold JSON (`parse_string_array`,
-- `parse_fields`, `expand_datatype`, `json_to_value`). `from_str` is serde_json's reading of a text; the
-- members of an object have distinct names.
use rsntr.Base.{
  Bool, true, false, Option, none, some, List, [], ◌∷◌, ◌++◌, if◌then◌else◌, ◌==◌, any, Str, codes,
  ◌=s◌,
}
use rsntr.Protocol.Envelope.{ℤ, pos}
use rsntr.Web.Csv.{Value, integer, real, text}

-- serde_json's Value; a number has what `as_i64` and `as_f64` answer.
mutual
  pub data JsonValue (Real : Type 0) : Type 0 where
    null : JsonValue Real
    bool : Bool → JsonValue Real
    number : (as_i64 : Option ℤ) → (as_f64 : Option Real) → JsonValue Real
    string : Str → JsonValue Real
    array : Items Real → JsonValue Real
    object : Members Real → JsonValue Real

  pub data Items (Real : Type 0) : Type 0 where
    no_items : Items Real
    item : JsonValue Real → Items Real → Items Real

  pub data Members (Real : Type 0) : Type 0 where
    no_members : Members Real
    member : Str → JsonValue Real → Members Real → Members Real

pub record PointField (Real : Type 0) : Type 0 where
  pub name : Str
  pub datatype : Option Str
  pub required : Bool
  pub default : Option (Value Real)
  pub one_of : List (Value Real)
  pub hint : Option Str

unfoldable pub strip_prefix : Str → Str → Option Str
strip_prefix [] s = some s
strip_prefix (p ∷ ps) [] = none
strip_prefix (p ∷ ps) (c ∷ cs) = if p == c then strip_prefix ps cs else none

abbrev xsd_ns : Str
xsd_ns = codes "http://www.w3.org/2001/XMLSchema#"

unfoldable pub expand_datatype : Str → Str
unfolding strip_prefix
expand_datatype s = elim (strip_prefix (codes "xsd:") s) [
  | some local ↦ xsd_ns ++ local
  | none ↦ if any (λ c. c == b':') s then s else xsd_ns ++ s
]

abbrev map_some : {A B : Type 0} → (A → B) → Option A → Option B
map_some f none = none
map_some f (some x) = some (f x)

abbrev or_else : {B : Type 0} → B → Option B → B
or_else b none = b
or_else b (some x) = x

module _ {Real : Type 0} where
  -- `as_str`, `as_bool`
  abbrev as_str : JsonValue Real → Option Str
  as_str (string s) = some s
  as_str _ = none

  abbrev as_bool : JsonValue Real → Option Bool
  as_bool (bool b) = some b
  as_bool _ = none

  unfoldable pub json_to_value : JsonValue Real → Option (Value Real)
  json_to_value (string s) = some (text s)
  json_to_value (number (some i) f) = some (integer i)
  json_to_value (number none (some f)) = some (real f)
  json_to_value (number none none) = none
  json_to_value (bool true) = some (integer (pos 1))
  json_to_value (bool false) = some (integer (pos 0))
  json_to_value null = none
  json_to_value (array items) = none
  json_to_value (object obj) = none

  unfoldable pub get : Str → Members Real → Option (JsonValue Real)
  get name no_members = none
  get name (member n v obj) = if n =s name then some v else get name obj

  unfoldable pub values_of : Items Real → List (Value Real)
  unfolding json_to_value
  values_of no_items = []
  values_of (item v items) =
      let rest = values_of items in elim (json_to_value v) [ some x ↦ x ∷ rest | none ↦ rest ]

  abbrev one_of_json : JsonValue Real → List (Value Real)
  unfolding values_of
  one_of_json (array items) = values_of items
  one_of_json _ = []

  abbrev and_then : {B : Type 0} → (JsonValue Real → Option B) → Option (JsonValue Real) → Option B
  and_then f none = none
  and_then f (some v) = f v

  -- an entry of the array, once its name is read
  abbrev field_of : Str → Members Real → PointField Real
  unfolding get expand_datatype json_to_value one_of_json
  field_of name obj = record {
    name = name;
    datatype = map_some expand_datatype (and_then as_str (get (codes "datatype") obj));
    required = or_else false (and_then as_bool (get (codes "required") obj));
    default = and_then json_to_value (get (codes "default") obj);
    one_of = or_else [] (map_some one_of_json (get (codes "one_of") obj));
    hint = and_then as_str (get (codes "hint") obj);
  }

  abbrev point_field : JsonValue Real → Option (PointField Real)
  unfolding field_of
  point_field (object obj) =
      map_some (λ name. field_of name obj) (and_then as_str (get (codes "name") obj))
  point_field _ = none

  unfoldable pub point_fields : Items Real → List (PointField Real)
  unfolding point_field
  point_fields no_items = []
  point_fields (item v items) =
      let rest = point_fields items in elim (point_field v) [ some f ↦ f ∷ rest | none ↦ rest ]

  -- `none` if an element is no text
  unfoldable pub strings_of : Items Real → Option (List Str)
  strings_of no_items = some []
  strings_of (item v items) =
      let rest = strings_of items in
      elim (as_str v) [ some s ↦ map_some (λ l. s ∷ l) rest | none ↦ none ]

  abbrev pub string_array : JsonValue Real → List Str
  unfolding strings_of
  string_array (array items) = or_else [] (strings_of items)
  string_array _ = []

  abbrev pub field_array : JsonValue Real → List (PointField Real)
  unfolding point_fields
  field_array (array items) = point_fields items
  field_array _ = []

module _ {Real : Type 0} (from_str : Str → Option (JsonValue Real)) where
  unfoldable pub parse_string_array : Option Str → List Str
  parse_string_array none = []
  parse_string_array (some raw) = or_else [] (map_some string_array (from_str raw))

  unfoldable pub parse_fields : Option Str → List (PointField Real)
  unfolding field_array
  parse_fields none = []
  parse_fields (some raw) = or_else [] (map_some field_array (from_str raw))
