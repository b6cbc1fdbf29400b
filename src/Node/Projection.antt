-- ===== src/Node/Projection.antt =====
-- crates/node/src/projection.rs: the projection of a caller, with the gates of crates/node/src/
-- entrain.rs (`gate_entrain`, `gate_entrain_owner`) and mod_matches of crates/protocol/src/vocab.rs.
-- `d` is serde_json's reading of a text; `ord` is not negative.
pub mod Offers
pub mod Entrainable
mod Examples
use rsntr.Base.{
  ℕ, Bool, true, false, not, ◌&&◌, ◌||◌, Option, none, some, List, [], ◌∷◌, ◌++◌, if◌then◌else◌,
  ◌==◌, ltb, any, find, Str, codes, ◌=s◌, str_lt, is_ascii_digit, trim_start, trim_end,
}
use rsntr.Authenticator.Db.{PolicyRow, Db}
use rsntr.Authenticator.Human.{is_nil}
use rsntr.Node.ModInstall.{peer_known}
use rsntr.Node.Fields.{JsonValue, PointField, strip_prefix, parse_fields, parse_string_array}

-- a row of `_projection`
pub record PointRow : Type 0 where
  pub point_iri : Str
  pub kind : Str
  pub label : Option Str
  pub icon : Option Str
  pub role : Option Str
  pub path : Str
  pub ord : ℕ
  pub projects_path : Option Str
  pub modulation : Option Str
  pub signal : Option Str
  pub params_order : Option Str
  pub fields : Option Str
  pub signal_template : Option Str
  pub fires : Option Str
  pub resource : Option Str

pub data PointKind : Type 0 where
  excitable radiant sympathetic bare : PointKind
  custom : Str → PointKind

pub record Point (Real : Type 0) : Type 0 where
  pub iri : Str
  pub kind : PointKind
  pub label : Option Str
  pub comment : Option Str
  pub icon : Option Str
  pub role : Option Str
  pub projects : Option Str
  pub coupling : List (PointField Real)
  pub modulation : Option Str
  pub signal : Option Str
  pub params_order : List Str
  pub signal_template : Option Str
  pub fires : Option Str

abbrev pub projection_changed : Str
projection_changed = codes "urn:rsntr:projection-changed"

abbrev pub starts_with_digit : Str → Bool
starts_with_digit [] = false
starts_with_digit (c ∷ cs) = is_ascii_digit c

unfoldable pub mod_matches : Str → Str → Bool
unfolding strip_prefix
mod_matches requested advertised =
    advertised =s requested || elim (strip_prefix requested advertised) [
      | none ↦ false
      | some rest ↦ elim (strip_prefix (codes "-") rest) [
        | none ↦ false
        | some v ↦ starts_with_digit v
      ]
    ]

unfoldable pub parse_kind : Str → PointKind
unfolding ◌=s◌
parse_kind kind =
    if kind =s codes "excitable"
    then excitable
    else if kind =s codes "radiant"
    then radiant
    else if kind =s codes "sympathetic"
    then sympathetic
    else if kind =s codes "bare"
    then bare
    else if any (λ c. c == b':') kind
    then custom kind
    else bare

unfoldable pub actions_for_kind : Str → List Str
unfolding ◌=s◌
actions_for_kind kind =
    if kind =s codes "excitable"
    then codes "write" ∷ []
    else if kind =s codes "sympathetic"
    then codes "entrain" ∷ codes "read" ∷ []
    else codes "read" ∷ []

abbrev pub pushes : Option Str → Str → List Str
unfolding mod_matches
pushes none name = []
pushes (some m) name = if mod_matches name m then name ∷ [] else []

-- the WHERE clause of the query of `visible`
unfoldable pub lets_see : Str → Str → Str → PolicyRow → Bool
lets_see peer resource action r =
    r.effect =s codes "allow"
    && r.action =s action
    && (r.table_name =s resource || r.table_name =s codes "*")
    && (r.peer_or_group =s peer || r.peer_or_group =s codes "*")

abbrev pub visible_actions : Str → Option Str → List Str
unfolding actions_for_kind pushes
visible_actions kind modulation =
    actions_for_kind kind
    ++ (pushes modulation (codes "chat")
        ++ (pushes modulation (codes "media") ++ pushes modulation (codes "audio-duplex")))

-- `none` is the error of a missing table.
unfoldable pub visible : Option (List PolicyRow) → Str → Str → Option Str → Option Str → Option Bool
unfolding lets_see visible_actions
visible policy peer kind modulation none = some true
visible none peer kind modulation (some resource) = none
visible (some rows) peer kind modulation (some resource) =
    some
      (any (λ action. any (lets_see peer resource action) rows) (visible_actions kind modulation))

-- ORDER BY ord, point_iri
abbrev pub before : PointRow → PointRow → Bool
before a b = ltb a.ord b.ord || (a.ord == b.ord && str_lt a.point_iri b.point_iri)

unfoldable pub insert_ordered : PointRow → List PointRow → List PointRow
insert_ordered r [] = r ∷ []
insert_ordered r (q ∷ rows) = if before q r then q ∷ insert_ordered r rows else r ∷ q ∷ rows

unfoldable pub rows_at : Str → List PointRow → List PointRow
unfolding insert_ordered
rows_at path [] = []
rows_at path (r ∷ rows) =
    if r.path =s path then insert_ordered r (rows_at path rows) else rows_at path rows

pub record Projection (Real : Type 0) : Type 0 where
  pub id : Option Str
  pub offers : List (Point Real)

pub data ProjectionOutcome (Real : Type 0) : Type 0 where
  unknown_path : ProjectionOutcome Real
  built : Projection Real → ProjectionOutcome Real

abbrev pub shown : Option (List PolicyRow) → Str → Bool → PointRow → Option Bool
unfolding visible
shown policy peer unfiltered r =
    if unfiltered then some true else visible policy peer r.kind r.modulation r.resource

abbrev pub no_rows : List PointRow → Bool
no_rows [] = true
no_rows (r ∷ rows) = false

module _ {Real : Type 0} (d : Str → Option (JsonValue Real)) where
  unfoldable pub row_to_point : PointRow → Point Real
  unfolding parse_kind parse_fields parse_string_array
  row_to_point r = record {
    iri = r.point_iri;
    kind = parse_kind r.kind;
    label = r.label;
    comment = none;
    icon = r.icon;
    role = r.role;
    projects = r.projects_path;
    coupling = parse_fields d r.fields;
    modulation = r.modulation;
    signal = r.signal;
    params_order = parse_string_array d r.params_order;
    signal_template = r.signal_template;
    fires = r.fires;
  }

  abbrev pub projection_changed_point : Point Real
  projection_changed_point = record {
    iri = projection_changed;
    kind = sympathetic;
    label = some (codes "projection changed");
    comment = none;
    icon = none;
    role = none;
    projects = none;
    coupling = [];
    modulation = none;
    signal = none;
    params_order = [];
    signal_template = none;
    fires = none;
  }

  abbrev pub offered : Bool → PointRow → List (Point Real) → List (Point Real)
  unfolding row_to_point
  offered true r rest = row_to_point r ∷ rest
  offered false r rest = rest

  -- The loop over the rows; `none` is an error.
  unfoldable pub collect_offers :
      Option (List PolicyRow) → Str → Bool → List PointRow → Option (List (Point Real))
  unfolding shown offered
  collect_offers policy peer unfiltered [] = some []
  collect_offers policy peer unfiltered (r ∷ rows) = elim (shown policy peer unfiltered r) [
    | none ↦ none
    | some b ↦ elim (collect_offers policy peer unfiltered rows) [
      | none ↦ none
      | some rest ↦ some (offered b r rest)
    ]
  ]

  abbrev pub with_changed : Str → List (Point Real) → List (Point Real)
  with_changed [] offers = offers ++ projection_changed_point ∷ []
  with_changed (c ∷ cs) offers = offers

  unfoldable pub build_projection :
      Option (List PointRow)
      → Option (List PolicyRow)
      → Str
      → Str
      → Str
      → Bool
      → Option (ProjectionOutcome Real)
  unfolding rows_at collect_offers trim_start trim_end
  build_projection none policy peer id path unfiltered = none
  build_projection (some table) policy peer id path unfiltered =
      let at_path = trim_end (trim_start path) in
      let rows = rows_at at_path table in
      if no_rows rows && not (is_nil at_path)
      then some unknown_path
      else elim (collect_offers policy peer unfiltered rows) [
        | none ↦ none
        | some offers ↦ some (
            built (record {
              id = if is_nil id then none else some id;
              offers = with_changed at_path offers;
            }))
      ]

pub data EntrainGate : Type 0 where
  unknown_peer : EntrainGate
  unknown_point denied : Str → EntrainGate
  allowed : Option Str → EntrainGate

-- SELECT … FROM _projection WHERE point_iri = ?1; a query that fails is no row.
unfoldable pub find_point : Str → Option (List PointRow) → Option PointRow
find_point point none = none
find_point point (some rows) = find (λ r. r.point_iri =s point) rows

abbrev pub no_point : Str → Str
no_point point = codes "no point <" ++ point ++ codes "> in this projection"

abbrev pub not_sympathetic : Str → Str
not_sympathetic point = codes "<" ++ point ++ codes "> is not a Sympathetic point"

unfoldable pub gate_entrain_owner : Option (List PointRow) → Str → EntrainGate
unfolding find_point
gate_entrain_owner points point =
    if point =s projection_changed then allowed none else elim (find_point point points) [
      | none ↦ unknown_point (no_point point)
      | some r ↦
          if r.kind =s codes "sympathetic"
          then allowed r.resource
          else unknown_point (not_sympathetic point)
    ]

module _ {Json : Type 0} (error : Str) (db : Db Json) (points : Option (List PointRow)) where
  abbrev pub answer_visible : Str → PointRow → Option Bool → EntrainGate
  answer_visible point r (some true) = allowed r.resource
  answer_visible point r (some false) =
      denied (codes "no entrain policy for <" ++ point ++ codes ">")
  answer_visible point r none = denied (codes "policy check failed: " ++ error)

  unfoldable pub gate_entrain : Str → Str → EntrainGate
  unfolding peer_known find_point visible
  gate_entrain peer point =
      if not (peer_known db peer)
      then unknown_peer
      else if point =s projection_changed
      then allowed none
      else elim (find_point point points) [
        | none ↦ unknown_point (no_point point)
        | some r ↦
            if r.kind =s codes "sympathetic"
            then answer_visible point r (visible db.policy peer r.kind r.modulation r.resource)
            else unknown_point (not_sympathetic point)
      ]
