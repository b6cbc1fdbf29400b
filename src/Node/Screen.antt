-- ===== src/Node/Screen.antt =====
-- crates/node/src/pipeline.rs: a request's way to its execution (`collect_footprint`,
-- `screen_request`, `screen_owner_request`). What sqlite reports while it prepares a statement, and its
-- error, are the parameter `Preparer`; `to_json` is the JSON of a footprint. A row of `_audit` is kept
-- without its time and duration.
pub mod Cleared
pub mod Owner
mod Examples
use rsntr.Base.{
  Bool, true, false, not, ◌&&◌, Option, none, some, List, [], ◌∷◌, ◌++◌, if◌then◌else◌, Str, codes,
}
use rsntr.Authenticator.Types.{
  ActionKind, ActionKind.read, Footprint, default_action, Decision, Decision.allow,
  Decision.allow_narrowed, Decision.deny, Decision.escalate,
}
use rsntr.Authenticator.Db.{Db}
use rsntr.Authenticator.Chain.{get, Request, Tier, Parsers, Decided, decide}
use rsntr.Node.Authorizer.{
  Lane, Lane.remote, Lane.owner, AuthAction, Reason, CollectState, default_state, finish,
  collect_all, Approved, is_there,
}
use rsntr.Node.ModInstall.{peer_known}

pub record Preparer : Type 0 where
  pub reports : Lane → Str → List AuthAction
  pub prepare_error : Lane → Str → Option Str
  pub reason_text : Reason → Str
  pub to_json : Footprint → Str

-- `ScreenErr` on the error side: the banned reason, the footprint and the message
pub data Collected : Type 0 where
  collected : Footprint → Collected
  refused : (banned_reason : Option Str) (footprint_json message : Str) → Collected

pub data Verdict : Type 0 where
  unknown_peer : Verdict
  banned prepare_failed denied : Str → Verdict
  cleared : Approved → Str → Verdict

pub record AuditEntry : Type 0 where
  pub direction : Str
  pub peer : Str
  pub id : Str
  pub signal : Str
  pub footprint_json : Str
  pub decision : Str
  pub decided_by : Str
  pub reason : Option Str

module _ (sqlite : Preparer) (allowlist : List Str) where
  abbrev pub state_of : Lane → Str → CollectState
  state_of lane sql = collect_all allowlist lane default_state (sqlite.reports lane sql)

  unfoldable pub collect_footprint : Lane → Str → Collected
  unfolding finish
  collect_footprint lane sql =
      let st = state_of lane sql in
      elim st.first_denial [
        | some reason ↦
            refused (some (sqlite.reason_text reason)) (sqlite.to_json (finish st))
              (sqlite.reason_text reason)
        | none ↦ elim (sqlite.prepare_error lane sql) [
          | some e ↦ refused none (sqlite.to_json (finish st)) (codes "prepare failed: " ++ e)
          | none ↦ collected (finish st)
        ]
      ]

abbrev pub entry : Str → Str → Str → Str → Str → Str → Str → Option Str → AuditEntry
entry direction peer id signal footprint_json decision decided_by reason = record {
  direction = direction;
  peer = peer;
  id = id;
  signal = signal;
  footprint_json = footprint_json;
  decision = decision;
  decided_by = decided_by;
  reason = reason;
}

unfoldable pub decision_str : Decision → Str × Option Str
decision_str allow = (codes "allow", none)
decision_str (allow_narrowed rewrite) = (codes "allow_narrowed", none)
decision_str (deny reason) = (codes "deny", some reason)
decision_str escalate = (codes "deny", some (codes "authenticator chain did not decide"))

-- the guard of the reserved table
unfoldable pub writes_modulations : Footprint → Bool
unfolding get
writes_modulations footprint = elim footprint.kind [
  | read ↦ false
  | _ ↦ is_there (get (codes "_modulations") footprint.tables)
]

abbrev pub reserved_text : Str
reserved_text =
    codes
      "direct writes to _modulations are not allowed;              install mods via the mod-install modulation"

abbrev pub message_of : Option Str → Str → Str
message_of none message = message
message_of (some reason) message = reason

-- `Banned` with a banned reason, `PrepareFailed` otherwise
abbrev pub refusal : Option Str → Str → Verdict
refusal none message = prepare_failed message
refusal (some reason) message = banned reason

module _ {Json : Type 0} (sqlite : Preparer) (allowlist : List Str) (p : Parsers)
    (tiers : List (Tier Json)) (peer id signal : Str) where
  -- the last match of `screen_request`
  unfoldable pub verdict_of : Footprint → Decision → Verdict
  unfolding collect_footprint
  verdict_of footprint allow = cleared (record { footprint = footprint; lane = remote }) signal
  verdict_of footprint (allow_narrowed rewrite) =
      elim (collect_footprint sqlite allowlist remote rewrite) [
        | collected new_fp ↦ cleared (record { footprint = new_fp; lane = remote }) rewrite
        | refused banned_reason footprint_json message ↦
            prepare_failed (codes "narrowed rewrite failed to prepare: " ++ message)
      ]
  verdict_of footprint (deny reason) = denied reason
  verdict_of footprint escalate = denied (codes "authenticator chain did not decide")

  abbrev pub screen_chain_request : Footprint → Request
  unfolding default_action
  screen_chain_request footprint = record {
    peer = peer;
    action = default_action footprint.kind;
    footprint = footprint;
    statement = signal;
  }

  -- behind the prepare
  unfoldable pub screen_collected : Collected → Db Json → Verdict × AuditEntry × Db Json
  unfolding writes_modulations decide decision_str verdict_of screen_chain_request
  screen_collected (refused banned_reason footprint_json message) db = (
    refusal banned_reason message,
    entry (codes "in") peer id signal footprint_json (codes "deny") (codes "node")
        (some (message_of banned_reason message)),
    db,
  )
  screen_collected (collected footprint) db =
      if writes_modulations footprint
      then (
        banned reserved_text,
        entry (codes "in") peer id signal (codes "{}") (codes "deny") (codes "node")
            (some reserved_text),
        db,
      )
      else (let (decided, db') = decide p tiers (screen_chain_request footprint) db in
          (
            verdict_of footprint decided.decision,
            entry (codes "in") peer id signal (sqlite.to_json footprint)
                ((decision_str decided.decision).0) decided.decided_by
                ((decision_str decided.decision).1),
            db',
          ))

  unfoldable pub screen_request : Db Json → Verdict × AuditEntry × Db Json
  unfolding peer_known screen_collected collect_footprint
  screen_request db =
      if not (peer_known db peer)
      then (
        unknown_peer,
        entry (codes "in") peer id signal (codes "{}") (codes "deny") (codes "peer-gate")
            (some (codes "unknown peer")),
        db,
      )
      else screen_collected (collect_footprint sqlite allowlist remote signal) db

module _ (sqlite : Preparer) (allowlist : List Str) (peer id signal : Str) where
  unfoldable pub screen_owner_request : Verdict × AuditEntry
  unfolding collect_footprint
  screen_owner_request = elim (collect_footprint sqlite allowlist owner signal) [
    | refused banned_reason footprint_json message ↦ (
      refusal banned_reason message,
      entry (codes "local") peer id signal footprint_json (codes "deny") (codes "owner")
          (some message),
    )
    | collected footprint ↦ (
      cleared (record { footprint = footprint; lane = owner }) signal,
      entry (codes "local") peer id signal (sqlite.to_json footprint) (codes "allow")
          (codes "owner") none,
    )
  ]
