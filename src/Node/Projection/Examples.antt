-- ===== src/Node/Projection/Examples.antt =====
-- Runs of the theorems on projections: a table with a public event, one on the table notes and one on
-- the table secrets.
use rsntr.Node.ModInstall.{peer_known}
use rsntr.Base.{
  ◌≡◌, refl, false, Option, none, some, List, [], ◌∷◌, here, Str, codes, str_lt, trim_end,
  trim_start,
}
use rsntr.Authenticator.Db.{PolicyRow, Db}
use rsntr.Node.Fields.{JsonValue, string, array, object, no_items, item, no_members, member}
use rsntr.Node.Projection.{
  PointRow, Projection, built, row_to_point, projection_changed_point, build_projection,
  gate_entrain, allowed,
}
use rsntr.Node.Projection.Offers.{Offered, build_projection_offers}
use rsntr.Node.Projection.Entrainable.{build_projection-gate_entrain}

abbrev event : Str → Str → Option Str → PointRow
event point_iri path resource = record {
  point_iri = point_iri;
  kind = codes "sympathetic";
  label = none;
  icon = none;
  role = none;
  path = path;
  ord = 0;
  projects_path = none;
  modulation = none;
  signal = none;
  params_order = none;
  fields = some (codes "[...]");
  signal_template = none;
  fires = none;
  resource = resource;
}

abbrev notes_event : PointRow
notes_event = event (codes "urn:notes") [] (some (codes "notes"))

abbrev points : List PointRow
points =
    event (codes "urn:secrets") [] (some (codes "secrets"))
    ∷ notes_event
    ∷ event (codes "urn:below") (codes "urn:a") none
    ∷ []

abbrev rules : List PolicyRow
rules =
    record {
      peer_or_group = codes "a";
      table_name = codes "notes";
      action = codes "read";
      effect = codes "allow";
      note = none;
    }
    ∷ []

-- the reading of the text of an array with one entry
abbrev decoding : Str → Option (JsonValue Str)
decoding raw = some (
    array (
      item
        (object (
          member (codes "name") (string (codes "n"))
            (member (codes "datatype") (string (codes "xsd:int")) no_members)))
        no_items))

abbrev db : Db Str
db = record {
  rsntr = none;
  policy = some rules;
  decisions = none;
  inbox = none;
  peers = some (record { endpoint_id = codes "a"; added_at = []; notes = none } ∷ []);
}

abbrev root : Projection Str
root = record {
  id = some (codes "p1");
  offers = row_to_point decoding notes_event ∷ projection_changed_point decoding ∷ [];
}

root_built :
    build_projection decoding (some points) (some rules) (codes "a") (codes "p1") (codes " ") false
    ≡ some (built root)
unfolding build_projection row_to_point str_lt
root_built = refl

build_projection_offers_example :
    Offered decoding (some rules) (codes "a") false [] points (row_to_point decoding notes_event)
unfolding trim_end trim_start
build_projection_offers_example =
    (build_projection_offers decoding (some rules) (codes "a") false points (codes "p1") (codes " ")
        root (row_to_point decoding notes_event) root_built).0
      (here refl)

build_projection-gate_entrain_example :
    (t : Option Str) × (gate_entrain
        (codes "no table")
        db
        (some points)
        (codes "a")
        (codes "urn:notes")
      ≡ allowed t)
unfolding row_to_point peer_known
build_projection-gate_entrain_example =
    build_projection-gate_entrain (codes "no table") db points (codes "a") decoding (codes "p1")
      (codes " ") root (row_to_point decoding notes_event) (refl, (refl, (refl, tt))) refl
      root_built (here refl) refl
