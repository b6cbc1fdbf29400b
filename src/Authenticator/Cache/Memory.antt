-- ===== src/Authenticator/Cache/Memory.antt =====
-- crates/authenticator/src/cache.rs: what the tier answers after a decision was recorded.
use rsntr.Base.{
  ℕ, ◌≡◌, ◌≢◌, Bool, true, false, not, ◌&&◌, Option, none, some, List, [], ◌∷◌, refl, arith, Str,
  ◌⊎◌, Option-cases, ◌=s◌, =s_iff, =s_refl, find, if◌then◌else◌, codes, Bool-cases, ap, inl, inr,
  all,
}
use rsntr.Authenticator.Types.{Footprint, has_denied, Decision, Decision.escalate}
use rsntr.Authenticator.Db.{DecisionRow, Db}
use rsntr.Authenticator.Fingerprint.{statement_fingerprint}
use rsntr.Authenticator.Cache.{
  same_key, upsert, decision_row, record_decision, is_live, hits, answer_of, lookup_decision,
  cache_decide,
}

-- `peer` and `fingerprint` are the key of the row.
abbrev is_at : Str → Str → DecisionRow → Bool
is_at peer fingerprint r = r.peer =s peer && r.fingerprint =s fingerprint

-- The primary key: no two rows have one key.
abbrev pub KeysDistinct : List DecisionRow → Type 0
KeysDistinct [] = Unit
KeysDistinct (r ∷ rows) = (all (λ s. not (same_key s r)) rows ≡ true) × KeysDistinct rows

find-hits-absent :
    (now : ℕ) (r : DecisionRow) (rows : List DecisionRow)
    → all (λ s. not (same_key s r)) rows ≡ true
    → find (hits now r.peer r.fingerprint) rows ≡ none
unfolding hits
find-hits-absent now r [] h = refl
find-hits-absent now r (s ∷ rows) h = ground (arith, find-hits-absent now r rows)

-- The row found at the key that was written is the new row, while it lives.
find-upsert_self :
    (now : ℕ) (new : DecisionRow) (rows : List DecisionRow)
    → KeysDistinct rows
    → find (hits now new.peer new.fingerprint) (upsert new rows)
      ≡ (if is_live now new then some new else none)
unfolding upsert hits
find-upsert_self now new [] h = ground (arith, =s_refl new.peer, =s_refl new.fingerprint)
find-upsert_self now new (r ∷ rows) h = elim (Bool-cases (same_key r new)) [
  | inl same ↦ rw same (
      ground (
        arith,
        =s_refl new.peer,
        =s_refl new.fingerprint,
        =s_iff r.peer new.peer,
        =s_iff r.fingerprint new.fingerprint,
        find-hits-absent now r rows h.0,
      ))
  | inr other ↦ rw other (rw other (find-upsert_self now new rows h.1))
]

same_key_sym : (r s : DecisionRow) → same_key r s ≡ false → same_key s r ≡ false
same_key_sym r s h = ground (
  arith,
  =s_iff r.peer s.peer,
  =s_iff r.fingerprint s.fingerprint,
  =s_iff s.peer r.peer,
  =s_iff s.fingerprint r.fingerprint,
)

absent_of_same :
    (r new : DecisionRow) (rows : List DecisionRow)
    → same_key r new ≡ true
    → all (λ s. not (same_key s r)) rows ≡ true
    → all (λ s. not (same_key s new)) rows ≡ true
absent_of_same r new [] k h = refl
absent_of_same r new (s ∷ rows) k h =
    ground (
      arith,
      absent_of_same r new rows,
      =s_iff r.peer new.peer,
      =s_iff r.fingerprint new.fingerprint,
    )

upsert-absent :
    (new r : DecisionRow) (rows : List DecisionRow)
    → all (λ s. not (same_key s r)) rows ≡ true
    → same_key new r ≡ false
    → all (λ s. not (same_key s r)) (upsert new rows) ≡ true
unfolding upsert
upsert-absent new r [] h n = ground arith
upsert-absent new r (s ∷ rows) h n = ground (arith, upsert-absent new r rows)

-- If the keys of `_decisions` are unique, they still are behind a recorded row.
pub upsert-KeysDistinct :
    (new : DecisionRow) (rows : List DecisionRow)
    → KeysDistinct rows
    → KeysDistinct (upsert new rows)
unfolding upsert
upsert-KeysDistinct new [] h = (refl, tt)
upsert-KeysDistinct new (r ∷ rows) h = elim (Bool-cases (same_key r new)) [
  | inl same ↦ rw same (absent_of_same r new rows same h.0, h.1)
  | inr other ↦
      rw other
        (upsert-absent new r rows h.0 (same_key_sym r new other), upsert-KeysDistinct new rows h.1)
]

-- At another key the rows are as they were.
find-upsert_ne :
    (now : ℕ) (new : DecisionRow) (peer fingerprint : Str) (rows : List DecisionRow)
    → is_at peer fingerprint new ≡ false
    → find (hits now peer fingerprint) (upsert new rows) ≡ find (hits now peer fingerprint) rows
unfolding upsert hits
find-upsert_ne now new peer fingerprint [] h = ground arith
find-upsert_ne now new peer fingerprint (r ∷ rows) h = ground (
  arith,
  find-upsert_ne now new peer fingerprint rows,
  =s_iff r.peer new.peer,
  =s_iff r.fingerprint new.fingerprint,
)

-- What the recorded row answers while it lives.
abbrev pub while_live : ℕ → DecisionRow → Decision
while_live later row = if is_live later row then answer_of (some row) else escalate

pub lookup-upsert_self :
    (later : ℕ) (row : DecisionRow) (rows : List DecisionRow)
    → KeysDistinct rows
    → lookup_decision later row.peer row.fingerprint (some (upsert row rows)) ≡ while_live later row
unfolding lookup_decision
lookup-upsert_self later row rows keys =
    rw (find-upsert_self later row rows keys)
      (elim (Bool-cases (is_live later row)) [ inl live ↦ rw live | inr dead ↦ rw dead ])

module _ {Json : Type 0} (sha256 : List ℕ → List ℕ) where
  decisions-record_decision :
      (db after : Db Json) (now : ℕ) (peer fp decision : Str) (reason : Option Str)
      (decided_by : Str) (ttl : Option ℕ) (rows : List DecisionRow)
      → db.decisions ≡ some rows
      → record_decision now peer fp decision reason decided_by ttl db ≡ some after
      → after.decisions
        ≡ some (upsert (decision_row now peer fp decision reason decided_by ttl) rows)
  unfolding record_decision
  decisions-record_decision db after now peer fp decision reason decided_by ttl rows e r =
      ground arith

  -- What the tier answers to a request whose shape was recorded for the peer at `now`, asked at
  -- `later`: the recorded decision while it has not expired, and an abstention from then on.
  -- Knocks and refused statements are excluded, and the key of the table is assumed unique.
  pub cache_decide-record_decision :
      (db after : Db Json) (now later : ℕ) (peer action statement : Str) (footprint : Footprint)
      (decision : Str) (reason : Option Str) (decided_by : Str) (ttl : Option ℕ)
      (rows : List DecisionRow)
      → db.decisions ≡ some rows
      → KeysDistinct rows
      → record_decision now peer
          (statement_fingerprint sha256 action statement footprint)
          decision
          reason
          decided_by
          ttl
          db
        ≡ some after
      → has_denied footprint ≡ false
      → (action =s codes "knock") ≡ false
      → cache_decide sha256 later after peer action footprint statement
        ≡ while_live later (
            decision_row now peer
              (statement_fingerprint sha256 action statement footprint)
              decision
              reason
              decided_by
              ttl)
  unfolding cache_decide
  cache_decide-record_decision db after now later peer action statement footprint decision reason
        decided_by ttl rows e keys r d k =
      let fp = statement_fingerprint sha256 action statement footprint in
      let row = decision_row now peer fp decision reason decided_by ttl in
      rw
        (
          d,
          k,
          decisions-record_decision db after now peer fp decision reason decided_by ttl rows e r,
        )
        (lookup-upsert_self later row rows keys)

  lookup-record_decision_ne :
      (db after : Db Json) (now later : ℕ) (peer fp decision : Str) (reason : Option Str)
      (decided_by : Str) (ttl : Option ℕ) (asker shape : Str)
      → record_decision now peer fp decision reason decided_by ttl db ≡ some after
      → (peer ≢ asker) ⊎ (fp ≢ shape)
      → lookup_decision later asker shape after.decisions
        ≡ lookup_decision later asker shape db.decisions
  unfolding record_decision lookup_decision
  lookup-record_decision_ne db after now later peer fp decision reason decided_by ttl asker shape r
        n =
      elim (Option-cases db.decisions) [
        | inl e ↦ ground arith
        | inr (rows, e) ↦
            let row = decision_row now peer fp decision reason decided_by ttl in
            rw
              (
                e,
                decisions-record_decision db after now peer fp decision reason decided_by ttl rows e
                    r,
              )
              (ap answer_of (
                find-upsert_ne later row asker shape rows
                  (ground (arith, =s_iff peer asker, =s_iff fp shape))))
      ]

  -- Recording for one key, where there is a table to record in, changes no answer at another: to
  -- another peer, or to a shape with another fingerprint.
  pub cache_decide-record_decision_ne :
      (db after : Db Json) (now later : ℕ) (peer fp decision : Str) (reason : Option Str)
      (decided_by : Str) (ttl : Option ℕ) (asker action statement : Str) (footprint : Footprint)
      → record_decision now peer fp decision reason decided_by ttl db ≡ some after
      → (peer ≢ asker) ⊎ (fp ≢ statement_fingerprint sha256 action statement footprint)
      → cache_decide sha256 later after asker action footprint statement
        ≡ cache_decide sha256 later db asker action footprint statement
  unfolding cache_decide
  cache_decide-record_decision_ne db after now later peer fp decision reason decided_by ttl asker
        action statement footprint r n =
      rw (
        lookup-record_decision_ne db after now later peer fp decision reason decided_by ttl asker
          (statement_fingerprint sha256 action statement footprint) r n)
