-- ===== src/Node/Authorizer.antt =====
-- crates/node/src/footprint.rs: the authorizer callbacks, which collect the footprint of a statement
-- and hold its execution to the approved one. The actions are those of rusqlite's `AuthAction` that
-- the source names; a reason is data with what its text quotes, and a lock is never poisoned.
pub mod Tables
pub mod Collected
pub mod Known
pub mod Agreement
pub mod Bans
use rsntr.Base.{
  Bool, true, false, not, ◌&&◌, ◌||◌, Option, none, some, List, [], ◌∷◌, map, if◌then◌else◌, any,
  Str, codes, ◌=s◌, str_lt, to_ascii_lowercase,
}
use rsntr.Authenticator.Types.{
  ActionKind, ActionKind.read, ActionKind.write, ActionKind.other, Footprint, deny_construct,
  set_insert,
}
use rsntr.Authenticator.Chain.{get}

pub data Lane : Type 0 where
  remote owner : Lane

pub data Ddl : Type 0 where
  create_index create_table create_temp_index create_temp_table create_temp_trigger
        create_temp_view :
      Ddl
  create_trigger create_view drop_index drop_table drop_temp_index drop_temp_table
        drop_temp_trigger :
      Ddl
  drop_temp_view drop_trigger drop_view alter_table reindex analyze create_vtable drop_vtable : Ddl

pub data AuthAction : Type 0 where
  attach detach transaction savepoint select recursive : AuthAction
  pragma function insert delete : Str → AuthAction
  read_column update : Str → Str → AuthAction
  ddl : Ddl → AuthAction
  unknown : Str → AuthAction

pub data Reason : Type 0 where
  attach_banned load_extension_banned transaction_banned ddl_banned other_denied : Reason
  pragma_banned unknown_banned write_exceeds pragma_unapproved : Str → Reason
  read_exceeds update_exceeds : Str → Str → Reason

pub data Authorization : Type 0 where
  allowed denied : Authorization

unfoldable pub is_owner : Lane → Bool
is_owner owner = true
is_owner remote = false

-- `eq_ignore_ascii_case`
unfoldable pub eq_ignore_ascii_case : Str → Str → Bool
eq_ignore_ascii_case a b = map to_ascii_lowercase a =s map to_ascii_lowercase b

-- The construct and the reason of a banned action.
unfoldable pub banned : AuthAction → List Str → Lane → Option (Str × Reason)
unfolding is_owner eq_ignore_ascii_case
banned attach allowlist lane = some (codes "attach", attach_banned)
banned detach allowlist lane = some (codes "attach", attach_banned)
banned (pragma name) allowlist lane =
    if is_owner lane || any (λ p. eq_ignore_ascii_case p name) allowlist
    then none
    else some (codes "pragma", pragma_banned name)
banned (function name) allowlist lane =
    if eq_ignore_ascii_case name (codes "load_extension")
    then some (codes "load_extension", load_extension_banned)
    else none
banned transaction allowlist lane =
    if is_owner lane then none else some (codes "transaction", transaction_banned)
banned savepoint allowlist lane =
    if is_owner lane then none else some (codes "transaction", transaction_banned)
banned (ddl statement) allowlist lane =
    if is_owner lane then none else some (codes "ddl", ddl_banned)
banned (unknown code) allowlist lane = some (codes "unknown", unknown_banned code)
banned (read_column table column) allowlist lane = none
banned (insert table) allowlist lane = none
banned (delete table) allowlist lane = none
banned (update table column) allowlist lane = none
banned select allowlist lane = none
banned recursive allowlist lane = none

-- `denied` of the source is `first_denial` here.
pub record CollectState : Type 0 where
  pub footprint : Footprint
  pub wrote : Bool
  pub pragma_used : Bool
  pub first_denial : Option Reason

abbrev pub default_state : CollectState
default_state = record {
  footprint = record { kind = read; tables = []; denied = [] };
  wrote = false;
  pragma_used = false;
  first_denial = none;
}

unfoldable pub kind_of : CollectState → ActionKind
kind_of st = if st.wrote then write else if st.pragma_used then other else read

unfoldable pub finish : CollectState → Footprint
unfolding kind_of
finish st = record { kind = kind_of st; tables = st.footprint.tables; denied = st.footprint.denied }

-- `entry(table).or_default()`, and what is done with the columns
unfoldable pub touch : Str → (List Str → List Str) → List (Str × List Str) → List (Str × List Str)
touch k f [] = (k, f []) ∷ []
touch k f ((j, w) ∷ m) =
    if k =s j
    then (j, f w) ∷ m
    else if str_lt k j
    then (k, f []) ∷ (j, w) ∷ m
    else (j, w) ∷ touch k f m

abbrev pub with_tables : CollectState → List (Str × List Str) → Bool → CollectState
with_tables st tables wrote = record {
  footprint = record { kind = st.footprint.kind; tables = tables; denied = st.footprint.denied };
  wrote = wrote;
  pragma_used = st.pragma_used;
  first_denial = st.first_denial;
}

-- `get_or_insert`
abbrev pub get_or_insert : Option Reason → Reason → Option Reason
get_or_insert none r = some r
get_or_insert (some first) r = some first

unfoldable pub deny_action : CollectState → Str → Reason → CollectState
unfolding deny_construct
deny_action st construct reason = record {
  footprint = deny_construct st.footprint construct;
  wrote = st.wrote;
  pragma_used = st.pragma_used;
  first_denial = get_or_insert st.first_denial reason;
}

-- The `match` over an action that is not banned.
unfoldable pub note_action : CollectState → AuthAction → CollectState
unfolding touch set_insert
note_action st (read_column table column) =
    with_tables st (touch table (λ cols. set_insert column cols) st.footprint.tables) st.wrote
note_action st (insert table) = with_tables st (touch table (λ cols. cols) st.footprint.tables) true
note_action st (delete table) = with_tables st (touch table (λ cols. cols) st.footprint.tables) true
note_action st (update table column) =
    with_tables st (touch table (λ cols. set_insert column cols) st.footprint.tables) true
note_action st (pragma name) = record {
  footprint = st.footprint;
  wrote = st.wrote;
  pragma_used = true;
  first_denial = st.first_denial;
}
note_action st action = st

unfoldable pub collect : List Str → Lane → CollectState → AuthAction → Authorization × CollectState
unfolding banned deny_action note_action
collect allowlist lane st action = elim (banned action allowlist lane) [
  | some (construct, reason) ↦ (denied, deny_action st construct reason)
  | none ↦ (allowed, note_action st action)
]

-- The callback over the actions of one prepare.
unfoldable pub collect_all : List Str → Lane → CollectState → List AuthAction → CollectState
unfolding collect
collect_all allowlist lane st [] = st
collect_all allowlist lane st (action ∷ actions) =
    collect_all allowlist lane ((collect allowlist lane st action).1) actions

pub record Approved : Type 0 where
  pub footprint : Footprint
  pub lane : Lane

abbrev pub has_column : Str → Option (List Str) → Bool
has_column column none = false
has_column column (some cols) = any (λ c. c =s column) cols

abbrev pub is_there : Option (List Str) → Bool
is_there none = false
is_there (some cols) = true

abbrev pub is_write : ActionKind → Bool
is_write write = true
is_write _ = false

abbrev pub is_other : ActionKind → Bool
is_other other = true
is_other _ = false

unfoldable pub read_ok : Approved → Str → Str → Bool
unfolding get
read_ok a table column = has_column column (get table a.footprint.tables)

unfoldable pub write_ok : Approved → Str → Bool
unfolding get
write_ok a table = is_write a.footprint.kind && is_there (get table a.footprint.tables)

-- `none` is the authorization, `some` a denial with the reason that it records.
abbrev pub unless : Bool → Reason → Option Reason
unless true reason = none
unless false reason = some reason

-- The `match` over an action that is not banned.
unfoldable pub permit : Approved → AuthAction → Option Reason
unfolding read_ok write_ok is_owner
permit a (read_column table column) = unless (read_ok a table column) (read_exceeds table column)
permit a (insert table) = unless (write_ok a table) (write_exceeds table)
permit a (delete table) = unless (write_ok a table) (write_exceeds table)
permit a (update table column) =
    unless (write_ok a table && read_ok a table column) (update_exceeds table column)
permit a (pragma name) =
    unless (is_owner a.lane || is_other a.footprint.kind) (pragma_unapproved name)
permit a select = none
permit a (function name) = none
permit a recursive = none
permit a action = unless (is_owner a.lane) other_denied

unfoldable pub enforce : Approved → List Str → AuthAction → Option Reason
unfolding banned permit
enforce a allowlist action = elim (banned action allowlist a.lane) [
  | some (construct, reason) ↦ some reason
  | none ↦ permit a action
]
