-- ===== src/Node/Screen/Examples.antt =====
-- Runs of the theorems on screening: a peer that may read the table notes, look into the camera and
-- run a mod.
use rsntr.Authenticator.Policy.{policy_decide, resolve}
use rsntr.Base.{◌≡◌, refl, inr, none, some, List, [], ◌∷◌, Str, codes, ◌=s◌}
use rsntr.Authenticator.Types.{ActionKind.read, has_denied, is_empty, table_names}
use rsntr.Authenticator.Db.{PolicyRow, Db}
use rsntr.Authenticator.Chain.{Parsers, Tier, policy_tier}
use rsntr.Node.Authorizer.{remote, AuthAction, read_column, Approved, collect_all}
use rsntr.Node.Execute.{first_denied}
use rsntr.Node.Screen.{Preparer, screen_request}
use rsntr.Node.Screen.Cleared.{Justified, screen_request-Justified, screen_request-first_denied}
use rsntr.Node.Sources.{MediaRow}

abbrev rule : Str → Str → PolicyRow
rule table action = record {
  peer_or_group = codes "a";
  table_name = table;
  action = action;
  effect = codes "allow";
  note = none;
}

abbrev db : Db Str
db = record {
  rsntr = some ((codes "auth_chain", codes "policy") ∷ []);
  policy = some (
      rule (codes "notes") (codes "read")
      ∷ rule (codes "cam") (codes "media")
      ∷ rule (codes "*") (codes "mod:m")
      ∷ []);
  decisions = none;
  inbox = none;
  peers = some (record { endpoint_id = codes "a"; added_at = []; notes = none } ∷ []);
}

abbrev parsers : Parsers
parsers = record { parse_chain = λ s. some (s ∷ []); parse_masks = λ s. none }

abbrev tiers : List (Tier Str)
tiers = policy_tier ∷ []

abbrev reads_id : AuthAction
reads_id = read_column (codes "notes") (codes "id")

abbrev sqlite : Preparer
sqlite = record {
  reports = λ lane sql. reads_id ∷ [];
  prepare_error = λ lane sql. none;
  reason_text = λ reason. codes "banned";
  to_json = λ footprint. codes "{}";
}

abbrev approved_read : Approved
approved_read = record {
  footprint = record { kind = read; tables = (codes "notes", codes "id" ∷ []) ∷ []; denied = [] };
  lane = remote;
}

screen_request-Justified_example :
    Justified sqlite [] parsers tiers (codes "a") (codes "01") (codes "SELECT id FROM notes") db (
      screen_request sqlite [] parsers tiers
        (codes "a")
        (codes "01")
        (codes "SELECT id FROM notes")
        db)
screen_request-Justified_example =
    screen_request-Justified sqlite [] parsers tiers (codes "a") (codes "01")
      (codes "SELECT id FROM notes") db

screen_request-first_denied_example : first_denied approved_read [] (reads_id ∷ []) ≡ none
unfolding screen_request ◌=s◌ collect_all policy_decide has_denied is_empty table_names resolve
screen_request-first_denied_example =
    screen_request-first_denied sqlite [] parsers tiers (codes "a") (codes "01")
      (codes "SELECT id FROM notes") db approved_read (codes "SELECT id FROM notes") (reads_id ∷ [])
      refl (inr refl) (λ action m. m)

abbrev camera : MediaRow
camera = record {
  name = codes "cam";
  command = codes "ffmpeg";
  content_type = codes "video/mp4";
  accepts = none;
}
