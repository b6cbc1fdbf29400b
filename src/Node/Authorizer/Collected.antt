-- ===== src/Node/Authorizer/Collected.antt =====
-- crates/node/src/footprint.rs: what one action adds to the state of the collect pass.
use rsntr.Base.{
  ◌≡◌, inl, inr, refl, sym, ap, ◌∙◌, subst, Bool, true, false, ◌&&◌, ◌||◌, Option, none, some, List,
  any, Str, ◌=s◌, =s_iff, =s_refl, Bool-cases,
}
use rsntr.Authenticator.Types.{set_insert}
use rsntr.Authenticator.Chain.{get}
use rsntr.Node.Authorizer.{
  AuthAction, pragma, insert, delete, read_column, update, CollectState, touch, note_action,
  has_column, is_there,
}
use rsntr.Node.Authorizer.Tables.{
  Sorted, Sorted-touch, get-touch, get-touch_ne, any-set_insert, or_default,
}

abbrev pub tables_of : CollectState → List (Str × List Str)
tables_of st = st.footprint.tables

abbrev pub reads : CollectState → Str → Str → Bool
reads st table column = has_column column (get table (tables_of st))

abbrev pub touches : CollectState → Str → Bool
touches st table = is_there (get table (tables_of st))

has_column-or_default :
    (c : Str) (o : Option (List Str)) → has_column c o ≡ any (λ x. x =s c) (or_default o)
has_column-or_default c none = refl
has_column-or_default c (some cols) = refl

abbrev adding : Str → List Str → List Str
adding column cols = set_insert column cols

abbrev keeping : List Str → List Str
keeping cols = cols

reads-own :
    (k column c : Str) (m : List (Str × List Str))
    → Sorted m
    → has_column c (get k (touch k (adding column) m)) ≡ (column =s c || has_column c (get k m))
reads-own k column c m sorted =
    ap (λ o. has_column c o) (get-touch k (adding column) m sorted)
    ∙ any-set_insert column c (or_default (get k m))
    ∙ ap (λ b. column =s c || b) (sym (has_column-or_default c (get k m)))

-- A column of a table behind a touch of some table: it was there, or it is the one inserted.
reads-adding :
    (k column t c : Str) (m : List (Str × List Str))
    → Sorted m
    → has_column c (get t (touch k (adding column) m))
      ≡ ((k =s t && column =s c) || has_column c (get t m))
reads-adding k column t c m sorted = elim (Bool-cases (k =s t)) [
  | inl same ↦
      subst
        (λ u.
          has_column c (get u (touch k (adding column) m))
          ≡ ((k =s u && column =s c) || has_column c (get u m)))
        ((=s_iff k t).0 same) (rw (=s_refl k) (reads-own k column c m sorted))
  | inr differ ↦ rw (get-touch_ne k t (adding column) m differ, differ) refl
]

reads-keeping :
    (k t c : Str) (m : List (Str × List Str))
    → Sorted m
    → has_column c (get t (touch k keeping m)) ≡ has_column c (get t m)
reads-keeping k t c m sorted = elim (Bool-cases (k =s t)) [
  | inl same ↦
      subst (λ u. has_column c (get u (touch k keeping m)) ≡ has_column c (get u m))
        ((=s_iff k t).0 same)
        (ap (λ o. has_column c o) (get-touch k keeping m sorted)
          ∙ sym (has_column-or_default c (get k m)))
  | inr differ ↦ ap (λ o. has_column c o) (get-touch_ne k t keeping m differ)
]

touches-touch :
    (k t : Str) (f : List Str → List Str) (m : List (Str × List Str))
    → Sorted m
    → is_there (get t (touch k f m)) ≡ (k =s t || is_there (get t m))
touches-touch k t f m sorted = elim (Bool-cases (k =s t)) [
  | inl same ↦
      subst (λ u. is_there (get u (touch k f m)) ≡ (k =s u || is_there (get u m)))
        ((=s_iff k t).0 same) (rw (get-touch k f m sorted, =s_refl k) refl)
  | inr differ ↦ rw (get-touch_ne k t f m differ, differ) refl
]

pub note-Sorted :
    (st : CollectState) (a : AuthAction)
    → Sorted (tables_of st)
    → Sorted (tables_of (note_action st a))
unfolding note_action
note-Sorted st (read_column table column) sorted =
    Sorted-touch table (adding column) (tables_of st) sorted
note-Sorted st (insert table) sorted = Sorted-touch table keeping (tables_of st) sorted
note-Sorted st (delete table) sorted = Sorted-touch table keeping (tables_of st) sorted
note-Sorted st (update table column) sorted =
    Sorted-touch table (adding column) (tables_of st) sorted
note-Sorted st (pragma name) sorted = sorted
note-Sorted st a sorted = sorted

-- The columns that an action reads.
abbrev pub reads_by : AuthAction → Str → Str → Bool
reads_by (read_column table column) t c = table =s t && column =s c
reads_by (update table column) t c = table =s t && column =s c
reads_by a t c = false

-- The columns that the pass knows behind an action are those before it and the action's.
pub reads-note_action :
    (st : CollectState) (a : AuthAction) (t c : Str)
    → Sorted (tables_of st)
    → reads (note_action st a) t c ≡ (reads_by a t c || reads st t c)
unfolding note_action
reads-note_action st (read_column table column) t c sorted =
    reads-adding table column t c (tables_of st) sorted
reads-note_action st (insert table) t c sorted = reads-keeping table t c (tables_of st) sorted
reads-note_action st (delete table) t c sorted = reads-keeping table t c (tables_of st) sorted
reads-note_action st (update table column) t c sorted =
    reads-adding table column t c (tables_of st) sorted
reads-note_action st (pragma name) t c sorted = refl
reads-note_action st a t c sorted = refl

abbrev pub touches_by : AuthAction → Str → Bool
touches_by (read_column table column) t = table =s t
touches_by (update table column) t = table =s t
touches_by (insert table) t = table =s t
touches_by (delete table) t = table =s t
touches_by a t = false

pub touches-note_action :
    (st : CollectState) (a : AuthAction) (t : Str)
    → Sorted (tables_of st)
    → touches (note_action st a) t ≡ (touches_by a t || touches st t)
unfolding note_action
touches-note_action st (read_column table column) t sorted =
    touches-touch table t (adding column) (tables_of st) sorted
touches-note_action st (insert table) t sorted = touches-touch table t keeping (tables_of st) sorted
touches-note_action st (delete table) t sorted = touches-touch table t keeping (tables_of st) sorted
touches-note_action st (update table column) t sorted =
    touches-touch table t (adding column) (tables_of st) sorted
touches-note_action st (pragma name) t sorted = refl
touches-note_action st a t sorted = refl

-- The flags of an action.
abbrev pub writes : AuthAction → Bool
writes (insert table) = true
writes (delete table) = true
writes (update table column) = true
writes a = false

abbrev pub is_pragma : AuthAction → Bool
is_pragma (pragma name) = true
is_pragma a = false

pub wrote-note_action :
    (st : CollectState) (a : AuthAction) → (note_action st a).wrote ≡ (writes a || st.wrote)
unfolding note_action
wrote-note_action st (insert table) = refl
wrote-note_action st a = refl

pub pragma-note_action :
    (st : CollectState) (a : AuthAction)
    → (note_action st a).pragma_used ≡ (is_pragma a || st.pragma_used)
unfolding note_action
pragma-note_action st (insert table) = refl
pragma-note_action st a = refl
