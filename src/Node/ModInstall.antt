-- ===== src/Node/ModInstall.antt =====
-- crates/node/src/mod_install.rs: the gate in front of a remote installation of a mod, and peer_known
-- of crates/node/src/pipeline.rs. `ulid` is the fresh id, `now` the time, `debug` the quoting of a text
-- by `{:?}` and `error` the text of a failure of sqlite. What the gate passes to audit_direct is part of
-- its result.
pub mod Gate
pub mod Retry
pub mod Approval
use rsntr.Base.{
  ℕ, Bool, true, false, not, ◌&&◌, ◌||◌, Option, none, some, List, [], ◌∷◌, ◌++◌, if◌then◌else◌,
  any, all, Str, codes, ◌=s◌, is_ascii_alphanumeric, ◌==◌,
}
use rsntr.Authenticator.Types.{ActionKind, ActionKind.other, Footprint, from_tables}
use rsntr.Authenticator.Db.{PolicyRow, PeerRow, InboxRow, Db}
use rsntr.Authenticator.Fingerprint.{statement_fingerprint}
use rsntr.Authenticator.Human.{Codec, pending, insert_inbox, parked_row, pending_reason}
use rsntr.Authenticator.Policy.{join}
use rsntr.Authenticator.Chain.{read_rsntr}

unfoldable pub name_ok : Str → Bool
name_ok [] = false
name_ok (c ∷ cs) =
    all (λ d. is_ascii_alphanumeric d || d == b'-' || d == b'_' || d == b'.') (c ∷ cs)

pub data GateAnswer : Type 0 where
  unknown_peer pending_answer allowed : GateAnswer
  denied : Str → GateAnswer

pub record AuditRow : Type 0 where
  pub peer : Str
  pub id : Str
  pub signal : Str
  pub decision : Str
  pub decided_by : Str
  pub reason : Str

abbrev pub is_own : Str → Option Str → Bool
is_own peer none = false
is_own peer (some own) = own =s peer

abbrev pub has_peer : Str → Option (List PeerRow) → Bool
has_peer peer none = false
has_peer peer (some rows) = any (λ r. r.endpoint_id =s peer) rows

-- the WHERE clause of `policy_matches`
unfoldable pub row_matches : Str → Str → Str → Str → PolicyRow → Bool
row_matches peer name action effect r =
    r.action =s action
    && r.effect =s effect
    && (r.peer_or_group =s peer || r.peer_or_group =s codes "*")
    && (r.table_name =s name || r.table_name =s codes "*")

-- A missing table is no match.
unfoldable pub policy_matches : Option (List PolicyRow) → Str → Str → Str → Str → Bool
unfolding row_matches
policy_matches none peer name action effect = false
policy_matches (some rows) peer name action effect = any (row_matches peer name action effect) rows

abbrev pub mod_footprint : Str → Footprint
mod_footprint name = from_tables other ((name, []) ∷ [])

pub data Parking (Json : Type 0) : Type 0 where
  parked : Option (List (InboxRow Json)) → Parking Json
  failed : Parking Json
  panicked : Parking Json

module _ {Json : Type 0} where
  unfoldable pub peer_known : Db Json → Str → Bool
  unfolding read_rsntr
  peer_known db peer = is_own peer (read_rsntr db (codes "endpoint_id")) || has_peer peer db.peers

module _ {Json : Type 0} (c : Codec Json) (sha256 : List ℕ → List ℕ) where
  abbrev pub install_fingerprint : Str → Str → Str
  install_fingerprint signal name =
      statement_fingerprint sha256 (codes "mod-install") signal (mod_footprint name)

  -- behind the query for a pending row
  unfoldable pub park_new : ℕ → Str → List (InboxRow Json) → Str → Str → Str → Parking Json
  unfolding insert_inbox
  park_new now ulid rows peer signal name =
      elim (c.to_json (record {
        action = codes "mod-install";
        fingerprint = install_fingerprint signal name;
        footprint = mod_footprint name;
      })) [
        | none ↦ panicked
        | some params ↦ elim (insert_inbox c (parked_row now ulid peer signal params) rows) [
          | none ↦ failed
          | some rows' ↦ parked (some rows')
        ]
      ]

  -- The table `_inbox` that it leaves; a missing table fails the query.
  unfoldable pub park_install :
      ℕ → Str → Option (List (InboxRow Json)) → Str → Str → Str → Parking Json
  unfolding park_new pending
  park_install now ulid none peer signal name = failed
  park_install now ulid (some rows) peer signal name =
      elim (pending c peer (install_fingerprint signal name) rows) [
        | none ↦ failed
        | some true ↦ parked (some rows)
        | some false ↦ park_new now ulid rows peer signal name
      ]

abbrev pub cap_action : Str → Str
cap_action cap = codes "mod-cap:" ++ cap

unfoldable pub lacks : Option (List PolicyRow) → Str → Str → Str → Bool
unfolding policy_matches
lacks policy peer name cap =
    policy_matches policy peer name (cap_action cap) (codes "deny")
    || not (policy_matches policy peer name (cap_action cap) (codes "allow"))

-- `caps.iter().filter(…)`
unfoldable pub missing_caps : Option (List PolicyRow) → Str → Str → List Str → List Str
unfolding lacks
missing_caps policy peer name [] = []
missing_caps policy peer name (cap ∷ caps) =
    if lacks policy peer name cap
    then cap ∷ missing_caps policy peer name caps
    else missing_caps policy peer name caps

-- What the gate answers, the row it writes to `_audit`, and the table `_inbox` it leaves; `none` is a
-- panic.
abbrev pub Outcome : Type 0 → Type 0
Outcome Json = Option (GateAnswer × AuditRow × Db Json)

abbrev pub audited : Str → Str → Str → Str → Str → Str → AuditRow
audited peer id name decision decided_by reason = record {
  peer = peer;
  id = id;
  signal = codes "mod-install " ++ name;
  decision = decision;
  decided_by = decided_by;
  reason = reason;
}

module _ (debug : Str → Str) (error : Str) {Json : Type 0} (db : Db Json) (peer id name : Str) where
  abbrev pub ungranted : Str
  ungranted = codes "no policy grants you mod-install on " ++ debug name

  abbrev pub answer_denied : Str → Outcome Json
  answer_denied reason =
      some (denied reason, audited peer id name (codes "deny") (codes "policy") reason, db)

  abbrev pub answer_parking : Parking Json → Outcome Json
  answer_parking panicked = none
  answer_parking failed = some (
    denied ungranted,
    audited peer id name (codes "deny") (codes "policy")
        (ungranted ++ codes " (park failed: " ++ error ++ codes ")"),
    db,
  )
  answer_parking (parked inbox) = some (
    pending_answer,
    audited peer id name (codes "deny") (codes "human") pending_reason,
    record {
      rsntr = db.rsntr;
      policy = db.policy;
      decisions = db.decisions;
      inbox = inbox;
      peers = db.peers;
    },
  )

  abbrev pub answer_caps : List Str → Outcome Json
  answer_caps [] =
      some
        (allowed, audited peer id name (codes "allow") (codes "policy") (codes "mod-install"), db)
  answer_caps (cap ∷ caps) = answer_denied (
      codes "the caps ceiling for " ++ debug name ++ codes " does not grant: " ++ join (cap ∷ caps))

  abbrev pub answer_unknown : Outcome Json
  answer_unknown = some (
    unknown_peer,
    audited peer id name (codes "deny") (codes "peer-gate") (codes "unknown peer"),
    db,
  )

module _ (debug : Str → Str) (error : Str) {Json : Type 0} (c : Codec Json)
    (sha256 : List ℕ → List ℕ) where
  unfoldable pub gate : ℕ → Str → Db Json → Str → Str → Str → List Str → Str → Outcome Json
  unfolding peer_known policy_matches park_install missing_caps join
  gate now ulid db peer id name caps signal =
      if not (peer_known db peer)
      then answer_unknown debug error db peer id name
      else if policy_matches db.policy peer name (codes "mod-install") (codes "deny")
      then answer_denied debug error db peer id name
          (codes "mod-install on " ++ debug name ++ codes " is denied by policy")
      else if not (policy_matches db.policy peer name (codes "mod-install") (codes "allow"))
      then answer_parking debug error db peer id name
          (park_install c sha256 now ulid db.inbox peer signal name)
      else answer_caps debug error db peer id name (missing_caps db.policy peer name caps)
