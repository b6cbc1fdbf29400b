-- ===== src/Authenticator/Cache.antt =====
-- crates/authenticator/src/cache.rs: the remembered decisions and the tier that answers from them.
pub mod Memory
use rsntr.Base.{
  ℕ, ◌+◌, Bool, true, ◌&&◌, Option, none, some, List, [], ◌∷◌, if◌then◌else◌, ltb, Str, codes, ◌=s◌,
  find,
}
use rsntr.Authenticator.Types.{
  Footprint, has_denied, Decision, Decision.allow, Decision.deny, Decision.escalate,
}
use rsntr.Authenticator.Db.{DecisionRow, Db}
use rsntr.Authenticator.Clock.{now_rfc3339}
use rsntr.Authenticator.Fingerprint.{statement_fingerprint}

-- the primary key
abbrev pub same_key : DecisionRow → DecisionRow → Bool
same_key r s = r.peer =s s.peer && r.fingerprint =s s.fingerprint

-- INSERT … ON CONFLICT(peer, fingerprint) DO UPDATE SET of every other column
unfoldable pub upsert : DecisionRow → List DecisionRow → List DecisionRow
upsert new [] = new ∷ []
upsert new (r ∷ rows) = if same_key r new then new ∷ rows else r ∷ upsert new rows

-- `ttl_secs.map(|t| now + t)`
abbrev expiry : ℕ → Option ℕ → Option ℕ
expiry now none = none
expiry now (some ttl) = some (now + ttl)

abbrev pub decision_row : ℕ → Str → Str → Str → Option Str → Str → Option ℕ → DecisionRow
decision_row now peer fingerprint decision reason decided_by ttl = record {
  peer = peer;
  fingerprint = fingerprint;
  decision = decision;
  reason = reason;
  decided_by = decided_by;
  created_at = now_rfc3339 now;
  expires_at = expiry now ttl;
}

module _ {Json : Type 0} where
  -- `none` if there is no table to write to.
  unfoldable pub record_decision :
      ℕ → Str → Str → Str → Option Str → Str → Option ℕ → Db Json → Option (Db Json)
  unfolding upsert
  record_decision now peer fingerprint decision reason decided_by ttl db = elim db.decisions [
    | none ↦ none
    | some rows ↦ some (record db {
      decisions =
          some (upsert (decision_row now peer fingerprint decision reason decided_by ttl) rows);
    })
  ]

  unfoldable pub invalidate_decisions : Db Json → Option (Db Json)
  invalidate_decisions db = elim db.decisions [
    | none ↦ none
    | some rows ↦ some (record db { decisions = some [] })
  ]

-- `expires_at IS NULL OR expires_at > ?3`
unfoldable pub is_live : ℕ → DecisionRow → Bool
is_live now r = elim r.expires_at [ none ↦ true | some t ↦ ltb now t ]

-- the WHERE clause of the query
unfoldable pub hits : ℕ → Str → Str → DecisionRow → Bool
unfolding is_live
hits now peer fingerprint r = r.peer =s peer && r.fingerprint =s fingerprint && is_live now r

-- the `match row`
unfoldable pub answer_of : Option DecisionRow → Decision
answer_of none = escalate
answer_of (some r) =
    if r.decision =s codes "allow"
    then allow
    else if r.decision =s codes "deny"
    then deny (elim r.reason [ none ↦ codes "denied by remembered decision" | some why ↦ why ])
    else escalate

-- A missing table fails the query.
unfoldable pub lookup_decision : ℕ → Str → Str → Option (List DecisionRow) → Decision
unfolding hits answer_of
lookup_decision now peer fingerprint none = escalate
lookup_decision now peer fingerprint (some rows) = answer_of (find (hits now peer fingerprint) rows)

unfoldable pub cache_decide :
    {Json : Type 0} → (List ℕ → List ℕ) → ℕ → Db Json → Str → Str → Footprint → Str → Decision
unfolding lookup_decision
cache_decide sha256 now db peer action footprint statement =
    if has_denied footprint
    then escalate
    else if action =s codes "knock"
    then escalate
    else lookup_decision now peer (statement_fingerprint sha256 action statement footprint)
        db.decisions
