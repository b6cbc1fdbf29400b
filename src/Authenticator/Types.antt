-- ===== src/Authenticator/Types.antt =====
-- crates/authenticator/src/types.rs: footprints and decisions. A `BTreeSet` or a `BTreeMap` is a
-- list in the order of its keys, built by ordered insertion.
pub mod Order
use rsntr.Base.{
  Bool, Option, none, some, List, [], ◌∷◌, if◌then◌else◌, Str, codes, ◌=s◌, str_lt, not, map,
}

pub data ActionKind : Type 0 where
  read write other : ActionKind

unfoldable pub as_str : ActionKind → Str
as_str ActionKind.read = codes "read"
as_str ActionKind.write = codes "write"
as_str ActionKind.other = codes "other"

unfoldable pub default_action : ActionKind → Str
default_action ActionKind.read = codes "read"
default_action _ = codes "write"

-- `BTreeSet::insert`
unfoldable pub set_insert : Str → List Str → List Str
set_insert a [] = a ∷ []
set_insert a (x ∷ xs) =
    if a =s x then x ∷ xs else if str_lt a x then a ∷ x ∷ xs else x ∷ set_insert a xs

-- collecting into a `BTreeSet`
unfoldable pub set_collect : List Str → List Str
set_collect [] = []
set_collect (x ∷ xs) = set_insert x (set_collect xs)

-- `BTreeMap::insert`: the value of a key that is there is replaced.
unfoldable pub map_insert : Str → List Str → List (Str × List Str) → List (Str × List Str)
map_insert k v [] = (k, v) ∷ []
map_insert k v ((j, w) ∷ m) =
    if k =s j
    then (k, v) ∷ m
    else if str_lt k j
    then (k, v) ∷ (j, w) ∷ m
    else (j, w) ∷ map_insert k v m

abbrev keys : List (Str × List Str) → List Str
keys [] = []
keys ((k, v) ∷ m) = k ∷ keys m

pub record Footprint : Type 0 where
  pub kind : ActionKind
  pub tables : List (Str × List Str)
  pub denied : List Str

unfoldable pub is_empty : Footprint → Bool
is_empty f = elim f.tables [ [] ↦ Bool.true | _ ↦ Bool.false ]

unfoldable pub has_denied : Footprint → Bool
has_denied f = not (elim f.denied [ [] ↦ Bool.true | _ ↦ Bool.false ])

unfoldable pub deny_construct : Footprint → Str → Footprint
deny_construct f construct = record f { denied = set_insert construct f.denied }

-- `footprint.tables.keys()`
unfoldable pub table_names : Footprint → List Str
table_names f = keys f.tables

collect_tables : List (Str × List Str) → List (Str × List Str) → List (Str × List Str)
collect_tables m [] = m
collect_tables m ((t, cols) ∷ items) = collect_tables (map_insert t (set_collect cols) m) items

unfoldable pub from_tables : ActionKind → List (Str × List Str) → Footprint
unfolding collect_tables set_collect set_insert map_insert
from_tables kind items = record { kind = kind; tables = collect_tables [] items; denied = [] }

pub data Decision : Type 0 where
  allow : Decision
  allow_narrowed : Str → Decision
  deny : Str → Decision
  escalate : Decision

unfoldable pub audit_str : Decision → Option Str
audit_str Decision.allow = some (codes "allow")
audit_str (Decision.allow_narrowed rewrite) = some (codes "allow_narrowed")
audit_str (Decision.deny reason) = some (codes "deny")
audit_str Decision.escalate = none
