-- ===== src/Node/Knock.antt =====
-- crates/node/src/pipeline.rs: the admission of a stranger that knocks (`weigh_knock`, `admit_peer`,
-- `park_knock`). `raw` is a text as the params column holds it, `canonical` the reading of a ULID and
-- its canonical form, `fresh` the id that is minted, `now` the time in seconds and `clock` in the units
-- of the buckets. A row of `_audit` is kept without its time and duration; its footprint is empty.
pub mod Admission
pub mod Again
mod Examples
use rsntr.Base.{
  ℕ, Bool, true, false, not, ◌&&◌, ◌||◌, Option, none, some, List, [], ◌∷◌, ◌++◌, if◌then◌else◌,
  any, Str, codes, ◌=s◌, str_lt,
}
use rsntr.Authenticator.Types.{
  ActionKind, ActionKind.read, Footprint, Decision, Decision.allow, Decision.allow_narrowed,
  Decision.deny, Decision.escalate,
}
use rsntr.Authenticator.Db.{InboxRow, PeerRow, Db}
use rsntr.Authenticator.Clock.{now_rfc3339}
use rsntr.Authenticator.Human.{Codec, is_nil, is_null, parked_row, insert_inbox}
use rsntr.Authenticator.Chain.{Request, Tier, Parsers, Decided, decide}
use rsntr.Node.ModInstall.{AuditRow, peer_known}
use rsntr.Node.Budget.{KnockLimits, Budget, spend_knock_token}

pub data KnockReply : Type 0 where
  dropped : KnockReply
  answered : (id decision decided_by reason : Str) → KnockReply

pub record KnockState (Json : Type 0) : Type 0 where
  pub db : Db Json
  pub budget : Budget
  pub audit : List AuditRow

abbrev pub default_footprint : Footprint
default_footprint = record { kind = read; tables = []; denied = [] }

-- `id`: the client's ULID in canonical form, or a fresh one
abbrev pub knock_id : (Str → Option Str) → Str → Option Str → Str
knock_id canonical fresh none = fresh
knock_id canonical fresh (some s) = elim (canonical s) [ none ↦ fresh | some u ↦ u ]

abbrev pub knocked_row : ℕ → Str → Str → PeerRow
knocked_row now peer id = record {
  endpoint_id = peer;
  added_at = now_rfc3339 now;
  notes = some (codes "admitted via knock " ++ id);
}

-- INSERT OR IGNORE INTO _peers; a statement that fails is only logged.
unfoldable pub admit_peer : ℕ → Str → Str → Option (List PeerRow) → Option (List PeerRow)
admit_peer now peer id none = none
admit_peer now peer id (some rows) =
    if any (λ r. r.endpoint_id =s peer) rows
    then some rows
    else some (rows ++ knocked_row now peer id ∷ [])

module _ {Json : Type 0} where
  abbrev pub waits : Str → InboxRow Json → Bool
  waits peer r = r.peer =s peer && is_null r.decision && is_nil r.sql

  -- ORDER BY received_at, request_id
  abbrev pub before : InboxRow Json → InboxRow Json → Bool
  before a b =
      str_lt a.received_at b.received_at
      || (a.received_at =s b.received_at && str_lt a.request_id b.request_id)

  unfoldable pub pending_knock : Str → List (InboxRow Json) → Option (InboxRow Json)
  pending_knock peer [] = none
  pending_knock peer (r ∷ rows) =
      let rest = pending_knock peer rows in
      if waits peer r
      then (elim rest [ none ↦ some r | some b ↦ some (if before b r then b else r) ])
      else rest

module _ {Json : Type 0} (c : Codec Json) (raw : Str → Json) where
  abbrev pub knock_row : ℕ → Str → Str → Str → InboxRow Json
  knock_row now peer id message = parked_row now id peer [] (raw (codes "knock: " ++ message))

  -- The id that the answer names, and the table `_inbox` that it leaves. A query or an insertion that
  -- fails, on a missing table or a taken id, is only logged.
  unfoldable pub park_knock :
      ℕ → Str → Str → Str → Option (List (InboxRow Json)) → Str × Option (List (InboxRow Json))
  unfolding pending_knock insert_inbox
  park_knock now peer id message none = (id, none)
  park_knock now peer id message (some rows) = elim (pending_knock peer rows) [
    | some r ↦ (r.request_id, some rows)
    | none ↦ elim (insert_inbox c (knock_row now peer id message) rows) [
      | none ↦ (id, some rows)
      | some rows' ↦ (id, some rows')
    ]
  ]

abbrev pub audit_row : Str → Str → Str → Str → Str → AuditRow
audit_row peer id decision decided_by reason = record {
  peer = peer;
  id = id;
  signal = [];
  decision = decision;
  decided_by = decided_by;
  reason = reason;
}

module _ {Json : Type 0} (c : Codec Json) (raw : Str → Json) (now : ℕ) (peer id message : Str)
    (budget : Budget) (audit : List AuditRow) where
  abbrev pub leaves : KnockReply → Db Json → AuditRow → KnockReply × KnockState Json
  leaves reply db row = (reply, record { db = db; budget = budget; audit = audit ++ row ∷ [] })

  abbrev pub pending_text : Str → Str
  pending_text id' =
      codes "your knock is parked for the owner's decision (pending id " ++ id' ++ codes ")"

  unfoldable pub admitted : Str → Db Json → KnockReply × KnockState Json
  unfolding admit_peer
  admitted decided_by db =
      leaves (answered id (codes "allow") decided_by (codes "admitted"))
        (record db { peers = admit_peer now peer id db.peers })
        (audit_row peer id (codes "allow") decided_by (codes "knock admitted"))

  unfoldable pub parked : Str → Str → Db Json → KnockReply × KnockState Json
  unfolding park_knock
  parked decided_by why db =
      let (id', inbox) = park_knock c raw now peer id message db.inbox in
      leaves (answered id' (codes "pending") (codes "node") (pending_text id'))
        (record db { inbox = inbox }) (audit_row peer id (codes "deny") decided_by why)

  -- behind the chain
  unfoldable pub act_on : Decided → Db Json → KnockReply × KnockState Json
  unfolding admitted parked
  act_on decided db = elim decided.decision [
    | allow ↦ admitted decided.decided_by db
    | allow_narrowed rewrite ↦ admitted decided.decided_by db
    | deny reason ↦
        if decided.decided_by =s codes "default"
        then parked (codes "default") (codes "knock parked for the owner") db
        else leaves (answered id (codes "deny") decided.decided_by reason) db
            (audit_row peer id (codes "deny") decided.decided_by reason)
    | escalate ↦ parked (codes "node") (codes "knock parked (chain escalated)") db
  ]

module _ {Json : Type 0} (c : Codec Json) (raw : Str → Json) (p : Parsers)
    (tiers : List (Tier Json)) (limits : KnockLimits) (canonical : Str → Option Str) where
  abbrev pub knock_request : Str → Str → Request
  knock_request peer message = record {
    peer = peer;
    action = codes "knock";
    footprint = default_footprint;
    statement = message;
  }

  unfoldable pub weigh_knock :
      ℕ → ℕ → Str → Str → Option Str → Str → KnockState Json → KnockReply × KnockState Json
  unfolding peer_known spend_knock_token decide act_on
  weigh_knock now clock fresh peer client_request_id message st =
      let id = knock_id canonical fresh client_request_id in
      if peer_known st.db peer
      then leaves c raw now peer id message st.budget st.audit
          (answered id (codes "allow") (codes "node") (codes "you are already admitted")) st.db
          (audit_row peer id (codes "allow") (codes "node")
            (codes "knock from an already admitted peer"))
      else (let (grant, budget) = spend_knock_token limits clock peer st.budget in
          if grant
          then (let (decided, db) = decide p tiers (knock_request peer message) st.db in
              act_on c raw now peer id message budget st.audit decided db)
          else (dropped, record { db = st.db; budget = budget; audit = st.audit }))
