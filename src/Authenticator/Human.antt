-- ===== src/Authenticator/Human.antt =====
-- crates/authenticator/src/human.rs: the tier that parks requests in `_inbox`.
-- What serde_json and sqlite's json_extract do with the params column is the parameter `Codec`.
pub mod Parking
pub mod Once
use rsntr.Base.{
  ℕ, Bool, true, false, not, ◌&&◌, ◌||◌, Option, none, some, List, [], ◌∷◌, ◌++◌, if◌then◌else◌,
  Str, codes, ◌=s◌, any, ◌≡◌,
}
use rsntr.Authenticator.Types.{Footprint, has_denied, Decision, Decision.deny, Decision.escalate}
use rsntr.Authenticator.Db.{InboxRow, Db}
use rsntr.Authenticator.Clock.{now_rfc3339}
use rsntr.Authenticator.Fingerprint.{statement_fingerprint}

abbrev pub pending_reason : Str
pending_reason = codes "pending human decision"

pub record ParkedParams : Type 0 where
  pub action : Str
  pub fingerprint : Str
  pub footprint : Footprint

-- `extract` is `json_extract(params, '$.fingerprint')`: `none` where it raises an error, and
-- `some none` where it is NULL.
pub record Codec (Json : Type 0) : Type 0 where
  pub to_json : ParkedParams → Option Json
  pub from_json : Json → Option ParkedParams
  pub extract : Json → Option (Option Str)

-- What serde_json and json_extract promise of a text that `to_json` wrote.
pub record IsFaithful {Json : Type 0} (c : Codec Json) : Type 0 where
  pub from_to : (p : ParkedParams) (j : Json) → c.to_json p ≡ some j → c.from_json j ≡ some p
  pub extract_to :
      (p : ParkedParams) (j : Json) → c.to_json p ≡ some j → c.extract j ≡ some (some p.fingerprint)

abbrev pub is_nil : Str → Bool
is_nil [] = true
is_nil _ = false

abbrev pub is_null {ℓ} : {A : Type ℓ} → Option A → Bool
is_null none = true
is_null (some _) = false

abbrev pub parked_row : {Json : Type 0} → ℕ → Str → Str → Str → Json → InboxRow Json
parked_row now ulid peer statement params = record {
  request_id = ulid;
  peer = peer;
  sql = statement;
  params = params;
  decision = none;
  decided_by = none;
  received_at = now_rfc3339 now;
}

module _ {Json : Type 0} (c : Codec Json) where
  -- The query for a pending row of this shape, row by row: `none` is an error.
  unfoldable pub pending : Str → Str → List (InboxRow Json) → Option Bool
  pending peer fp [] = some false
  pending peer fp (r ∷ rows) =
      let rest = pending peer fp rows in
      if r.peer =s peer && is_null r.decision && not (is_nil r.sql)
      then (elim (c.extract r.params) [
        | none ↦ none
        | some none ↦ rest
        | some (some f) ↦ if f =s fp then some true else rest
      ])
      else rest

  -- INSERT INTO _inbox, whose primary key is request_id; `none` is a constraint failure.
  unfoldable pub insert_inbox : InboxRow Json → List (InboxRow Json) → Option (List (InboxRow Json))
  insert_inbox row rows =
      if any (λ r. r.request_id =s row.request_id) rows then none else some (rows ++ row ∷ [])

  -- The tier's work behind its guards. `ulid` is the fresh id, `fp` the fingerprint.
  unfoldable pub park :
      ℕ
      → Str
      → Db Json
      → List (InboxRow Json)
      → Str
      → Str
      → Str
      → Footprint
      → Str
      → Decision × Db Json
  unfolding insert_inbox
  park now ulid db rows fp peer action footprint statement =
      elim (c.to_json (record { action = action; fingerprint = fp; footprint = footprint })) [
        | none ↦ (escalate, db)
        | some params ↦ elim (insert_inbox (parked_row now ulid peer statement params) rows) [
          | none ↦ (escalate, db)
          | some rows' ↦ (deny pending_reason, record db { inbox = some rows' })
        ]
      ]

  -- behind the guards, on the table `_inbox`
  unfoldable pub ask :
      Option (List (InboxRow Json))
      → ℕ
      → Str
      → Db Json
      → Str
      → Str
      → Str
      → Footprint
      → Str
      → Decision × Db Json
  unfolding park pending
  ask none now ulid db fp peer action footprint statement = (escalate, db)
  ask (some rows) now ulid db fp peer action footprint statement = elim (pending peer fp rows) [
    | none ↦ (escalate, db)
    | some true ↦ (deny pending_reason, db)
    | some false ↦ park now ulid db rows fp peer action footprint statement
  ]

  -- The answer and the database that the tier leaves.
  unfoldable pub human_decide :
      (List ℕ → List ℕ) → ℕ → Str → Db Json → Str → Str → Footprint → Str → Decision × Db Json
  unfolding ask
  human_decide sha256 now ulid db peer action footprint statement =
      if is_nil statement || action =s codes "knock"
      then (escalate, db)
      else if has_denied footprint
      then (escalate, db)
      else ask db.inbox now ulid db (statement_fingerprint sha256 action statement footprint) peer
          action footprint statement
