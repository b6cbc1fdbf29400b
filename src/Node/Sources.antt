-- ===== src/Node/Sources.antt =====
-- crates/node/src/pipeline.rs: the gates of the media sources and of the mods (`screen_source`,
-- `source_policy_match`, `gate_mod_request`). `debug` is the quoting of a text by `{:?}`; each gate's
-- row of `_audit` is part of its result.
pub mod Allowed
use rsntr.Base.{
  Bool, true, false, not, Option, none, some, List, [], ◌∷◌, ◌++◌, if◌then◌else◌, any, find, Str,
  codes, ◌=s◌,
}
use rsntr.Authenticator.Types.{
  Decision, Decision.allow, Decision.allow_narrowed, Decision.deny, Decision.escalate,
}
use rsntr.Authenticator.Db.{PolicyRow, Db}
use rsntr.Authenticator.Chain.{Request, Tier, Parsers, Decided, decide}
use rsntr.Node.ModInstall.{AuditRow, row_matches, peer_known}
use rsntr.Node.Knock.{default_footprint}

-- a row of `_media`
pub record MediaRow : Type 0 where
  pub name : Str
  pub command : Str
  pub content_type : Str
  pub accepts : Option Str

pub data MediaVerdict : Type 0 where
  unknown_peer unknown_source : MediaVerdict
  denied : Str → MediaVerdict
  allowed : (command content_type : Str) → (accepts : Option Str) → MediaVerdict

-- A missing table is no match.
unfoldable pub source_policy_match : Option (List PolicyRow) → Str → Str → Str → Str → Bool
unfolding row_matches
source_policy_match none peer name action effect = false
source_policy_match (some rows) peer name action effect =
    any (row_matches peer name action effect) rows

-- SELECT … FROM _media WHERE name = ?1; a query that fails is no row.
unfoldable pub find_media : Str → Option (List MediaRow) → Option MediaRow
find_media name none = none
find_media name (some rows) = find (λ r. r.name =s name) rows

abbrev pub row : Str → Str → Str → Str → Str → Str → AuditRow
row peer id signal decision decided_by reason = record {
  peer = peer;
  id = id;
  signal = signal;
  decision = decision;
  decided_by = decided_by;
  reason = reason;
}

module _ (debug : Str → Str) {Json : Type 0} (db : Db Json) (media : Option (List MediaRow))
    (peer id name action : Str) where
  abbrev pub source_signal : Str
  source_signal = action ++ codes " " ++ name

  abbrev pub answer_media : Option MediaRow → MediaVerdict × AuditRow
  answer_media none = (
    unknown_source,
    row peer id source_signal (codes "deny") (codes "node") (codes "unknown media source"),
  )
  answer_media (some r) = (
    allowed r.command r.content_type r.accepts,
    row peer id source_signal (codes "allow") (codes "policy") (codes "feed opened"),
  )

  abbrev pub denied_source : Str → MediaVerdict × AuditRow
  denied_source reason =
      (denied reason, row peer id source_signal (codes "deny") (codes "policy") reason)

  unfoldable pub screen_source : MediaVerdict × AuditRow
  unfolding peer_known source_policy_match find_media
  screen_source =
      if not (peer_known db peer)
      then (
        unknown_peer,
        row peer id source_signal (codes "deny") (codes "peer-gate") (codes "unknown peer"),
      )
      else if source_policy_match db.policy peer name action (codes "deny")
      then denied_source (action ++ codes " source " ++ debug name ++ codes " is denied by policy")
      else if not (source_policy_match db.policy peer name action (codes "allow"))
      then denied_source
          (codes "no policy allows you the " ++ action ++ codes " source " ++ debug name)
      else answer_media (find_media name media)

pub data ModVerdict : Type 0 where
  unknown_peer allowed : ModVerdict
  denied : Str → ModVerdict

module _ {Json : Type 0} (p : Parsers) (tiers : List (Tier Json))
    (peer id mod_name signal : Str) where
  abbrev pub mod_request : Request
  mod_request = record {
    peer = peer;
    action = codes "mod:" ++ mod_name;
    footprint = default_footprint;
    statement = signal;
  }

  -- behind the chain
  unfoldable pub answer_mod : Decided → ModVerdict × AuditRow
  answer_mod decided = elim decided.decision [
    | allow ↦ (
      ModVerdict.allowed,
      row peer id signal (codes "allow") decided.decided_by
          (codes "mod " ++ mod_name ++ codes " invoked"),
    )
    | allow_narrowed rewrite ↦ (
      ModVerdict.allowed,
      row peer id signal (codes "allow") decided.decided_by
          (codes "mod " ++ mod_name ++ codes " invoked"),
    )
    | deny reason ↦
        (ModVerdict.denied reason, row peer id signal (codes "deny") decided.decided_by reason)
    | escalate ↦ (
      ModVerdict.denied (codes "authenticator chain did not decide"),
      row peer id signal (codes "deny") (codes "node") (codes "authenticator chain did not decide"),
    )
  ]

  unfoldable pub gate_mod_request : Db Json → ModVerdict × AuditRow × Db Json
  unfolding peer_known decide answer_mod
  gate_mod_request db =
      if not (peer_known db peer)
      then (
        ModVerdict.unknown_peer,
        row peer id signal (codes "deny") (codes "peer-gate") (codes "unknown peer"),
        db,
      )
      else (let (decided, db') = decide p tiers mod_request db in
          let (verdict, audit) = answer_mod decided in (verdict, audit, db'))
