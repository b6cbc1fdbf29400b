-- ===== src/Authenticator/Human/Parking.antt =====
-- crates/authenticator/src/human.rs: a request waits at most once, and is never allowed here.
use rsntr.Base.{
  ℕ, ◌+◌, ◌≤◌, ◌≡◌, ◌⊎◌, inl, inr, Bool, true, false, not, ◌&&◌, ◌||◌, Option, none, some, List, [],
  ◌∷◌, ◌++◌, refl, arith, if◌then◌else◌, Bool-cases, Option-cases, Str, codes, ◌=s◌,
}
use rsntr.Authenticator.Types.{Footprint, has_denied, Decision, Decision.deny, Decision.escalate}
use rsntr.Authenticator.Db.{InboxRow, Db}
use rsntr.Authenticator.Fingerprint.{statement_fingerprint}
use rsntr.Authenticator.Human.{
  ParkedParams, Codec, IsFaithful, is_nil, is_null, pending, insert_inbox, parked_row, park, ask,
  human_decide, pending_reason,
}

module _ {Json : Type 0} (c : Codec Json) where
  -- The row waits for an answer to the peer's request of this shape.
  abbrev pub waits : Str → Str → InboxRow Json → Bool
  waits peer fp r =
      r.peer =s peer
      && is_null r.decision
      && not (is_nil r.sql)
      && elim (c.extract r.params) [ none ↦ false | some none ↦ false | some (some f) ↦ f =s fp ]

  abbrev pub waiting : Str → Str → List (InboxRow Json) → ℕ
  waiting peer fp [] = 0
  waiting peer fp (r ∷ rows) = (if waits peer fp r then 1 else 0) + waiting peer fp rows

  -- At most one row waits for each peer and shape.
  abbrev pub WaitsOnce : List (InboxRow Json) → Type 0
  WaitsOnce rows = (peer fp : Str) → waiting peer fp rows ≤ 1

  pub pending-false :
      (peer fp : Str) (rows : List (InboxRow Json))
      → pending c peer fp rows ≡ some false
      → waiting peer fp rows ≡ 0
  unfolding pending
  pending-false peer fp [] h = refl
  pending-false peer fp (r ∷ rows) h = ground (arith, pending-false peer fp rows)

  pub waiting-append :
      (peer fp : Str) (rows : List (InboxRow Json)) (r : InboxRow Json)
      → waiting peer fp (rows ++ r ∷ []) ≡ waiting peer fp rows + (if waits peer fp r then 1 else 0)
  waiting-append peer fp [] r = omega arith
  waiting-append peer fp (q ∷ rows) r = omega (arith, waiting-append peer fp rows r)

  pub pending-append :
      (peer fp : Str) (rows : List (InboxRow Json)) (r : InboxRow Json)
      → pending c peer fp rows ≡ some false
      → waits peer fp r ≡ true
      → pending c peer fp (rows ++ r ∷ []) ≡ some true
  unfolding pending
  pending-append peer fp [] r h w = ground arith
  pending-append peer fp (q ∷ rows) r h w = ground (arith, pending-append peer fp rows r)

  module _ (faithful : IsFaithful c) where
    pub waits-parked_row :
        (now : ℕ) (ulid peer other fp shape action statement : Str) (footprint : Footprint)
        (j : Json)
        → is_nil statement ≡ false
        → c.to_json (record { action = action; fingerprint = fp; footprint = footprint }) ≡ some j
        → waits other shape (parked_row now ulid peer statement j) ≡ (peer =s other && fp =s shape)
    waits-parked_row now ulid peer other fp shape action statement footprint j s e =
        rw (faithful.extract_to _ j e, s) (ground arith)

pub Option-Bool-cases : (o : Option Bool) → (o ≡ none) ⊎ (o ≡ some true) ⊎ (o ≡ some false)
Option-Bool-cases none = inl refl
Option-Bool-cases (some true) = inr (inl refl)
Option-Bool-cases (some false) = inr (inr refl)

module _ {Json : Type 0} (c : Codec Json) (now : ℕ) (ulid : Str) (db : Db Json)
    (fp peer action : Str) (footprint : Footprint) (statement : Str) where
  abbrev pub params_of : ParkedParams
  params_of = record { action = action; fingerprint = fp; footprint = footprint }

  -- What the tier does behind its guards: it abstains and writes nothing, it finds a row that
  -- waits and writes nothing, or it appends one row under a new id.
  pub data Asked (result : Decision × Db Json) : Type 0 where
    abstains : result ≡ (escalate, db) → Asked result
    waits_already :
        (rows : List (InboxRow Json))
        → db.inbox ≡ some rows
        → pending c peer fp rows ≡ some true
        → result ≡ (deny pending_reason, db)
        → Asked result
    parks :
        (rows rows' : List (InboxRow Json)) (j : Json)
        → db.inbox ≡ some rows
        → pending c peer fp rows ≡ some false
        → c.to_json params_of ≡ some j
        → insert_inbox c (parked_row now ulid peer statement j) rows ≡ some rows'
        → result ≡ (deny pending_reason, record db { inbox = some rows' })
        → Asked result

  park-Asked :
      (rows : List (InboxRow Json))
      → db.inbox ≡ some rows
      → pending c peer fp rows ≡ some false
      → Asked (park c now ulid db rows fp peer action footprint statement)
  unfolding park
  park-Asked rows e p = elim (Option-cases (c.to_json params_of)) [
    | inl n ↦ rw (n, park) (abstains refl)
    | inr (j, t) ↦
        elim (Option-cases (insert_inbox c (parked_row now ulid peer statement j) rows)) [
          | inl n ↦ rw (t, park) (rw (n, park) (abstains refl))
          | inr (rows', i) ↦ rw (t, park) (rw (i, park) (parks rows rows' j e p t i refl))
        ]
  ]

  ask-Asked :
      (table : Option (List (InboxRow Json)))
      → db.inbox ≡ table
      → Asked (ask c table now ulid db fp peer action footprint statement)
  unfolding ask
  ask-Asked none e = abstains refl
  ask-Asked (some rows) e = elim (Option-Bool-cases (pending c peer fp rows)) [
    | inl n ↦ rw (n, ask) (abstains refl)
    | inr (inl t) ↦ rw (t, ask) (waits_already rows e t refl)
    | inr (inr f) ↦ rw (f, ask) (park-Asked rows e f)
  ]

  -- The tables that the tier does not write.
  pub record OthersKept (result : Db Json) : Type 0 where
    pub rsntr : result.rsntr ≡ db.rsntr
    pub policy : result.policy ≡ db.policy
    pub decisions : result.decisions ≡ db.decisions
    pub peers : result.peers ≡ db.peers

  -- The tier abstains and writes nothing, or makes the request wait and writes at most `_inbox`.
  abbrev pub AbstainsOrWaits : Decision × Db Json → Type 0
  AbstainsOrWaits result =
      (result ≡ (escalate, db)) ⊎ ((result.0 ≡ deny pending_reason) × OthersKept result.1)

  Asked-AbstainsOrWaits : {result : Decision × Db Json} → Asked result → AbstainsOrWaits result
  Asked-AbstainsOrWaits (abstains e) = inl e
  Asked-AbstainsOrWaits (waits_already rows e p r) = inr (ground arith)
  Asked-AbstainsOrWaits (parks rows rows' j e p t i r) = inr (ground arith)

module _ {Json : Type 0} (c : Codec Json) (sha256 : List ℕ → List ℕ) (now : ℕ) (ulid : Str)
    (db : Db Json) (peer action : Str) (footprint : Footprint) (statement : Str) where
  abbrev pub shape : Str
  shape = statement_fingerprint sha256 action statement footprint

  -- What `human_decide` does: it abstains, or it asks about a statement that is not empty.
  pub human_decide-cases :
      (human_decide c sha256 now ulid db peer action footprint statement ≡ (escalate, db))
      ⊎ ((is_nil statement || action =s codes "knock" ≡ false)
          × (has_denied footprint ≡ false)
          × Asked c now ulid db shape peer action footprint statement
              (human_decide c sha256 now ulid db peer action footprint statement))
  unfolding human_decide
  human_decide-cases = elim (Bool-cases (is_nil statement || action =s codes "knock")) [
    | inl t ↦ inl (rw t)
    | inr f ↦ elim (Bool-cases (has_denied footprint)) [
      | inl d ↦ inl (rw (f, d))
      | inr a ↦
          rw (f, a)
            (inr (
              refl,
              refl,
              ask-Asked c now ulid db shape peer action footprint statement db.inbox refl,
            ))
    ]
  ]

  -- The tier never allows a request: it abstains and writes nothing, or it answers that the
  -- request waits for a human, and writes no table but `_inbox`.
  pub human_decide-AbstainsOrWaits :
      AbstainsOrWaits c now ulid db shape peer action footprint statement
        (human_decide c sha256 now ulid db peer action footprint statement)
  human_decide-AbstainsOrWaits = elim human_decide-cases [
    | inl e ↦ inl e
    | inr (g, d, a) ↦ Asked-AbstainsOrWaits c now ulid db shape peer action footprint statement a
  ]
