-- ===== src/Authenticator/Inbox/Remembered.antt =====
-- crates/authenticator/src/human.rs and cache.rs together: the answer to a parked request is what
-- the cache tier says to the next request of the same shape.
use rsntr.Base.{
  ℕ, ◌≡◌, Bool, true, false, none, some, List, ◌++◌, refl, ap, ◌∙◌, arith, Str, codes, find, ◌=s◌,
}
use rsntr.Authenticator.Types.{Footprint, has_denied, Decision}
use rsntr.Authenticator.Db.{DecisionRow, InboxRow, Db}
use rsntr.Authenticator.Fingerprint.{statement_fingerprint}
use rsntr.Authenticator.Cache.{
  upsert, decision_row, record_decision, lookup_decision, cache_decide, is_live, answer_of,
}
use rsntr.Authenticator.Cache.Memory.{KeysDistinct, lookup-upsert_self, while_live}
use rsntr.Authenticator.Human.{ParkedParams, Codec, is_nil}
use rsntr.Authenticator.Inbox.{
  Result, ok, remember_decision, effect_of, write_rules, answer_statement, apply_answer,
  answer_inbox, InboxAnswer,
}
use rsntr.Authenticator.Inbox.Keeps.{bind_ok, write_rules-decisions}
use rsntr.Authenticator.Inbox.Answer.{Reads, marked, answer_inbox-eq}

abbrev pub answered_from : Str → Str
answered_from request_id = codes "answered from _inbox " ++ request_id

-- The remembered decision, as the cache tier gives it.
abbrev pub verdict : Bool → Str → Decision
verdict true request_id = Decision.allow
verdict false request_id = Decision.deny (answered_from request_id)

-- the row that `answer_inbox` records
abbrev answer_row_of : ℕ → Str → Str → Str → Bool → DecisionRow
answer_row_of now request_id peer fp allow =
    decision_row now peer fp (effect_of allow) (some (answered_from request_id)) (codes "human")
      none

while_live-answer :
    (now later : ℕ) (request_id peer fp : Str) (allow : Bool)
    → while_live later (answer_row_of now request_id peer fp allow) ≡ verdict allow request_id
unfolding is_live answer_of effect_of ◌=s◌
while_live-answer now later request_id peer fp true = refl
while_live-answer now later request_id peer fp false = refl

module _ {Json : Type 0} where
  remember_decision-eq :
      (now : ℕ) (peer fp : Str) (allow : Bool) (request_id : Str) (db : Db Json)
      (ds : List DecisionRow)
      → db.decisions ≡ some ds
      → remember_decision now peer fp (effect_of allow) request_id db ≡ (
        ok tt,
        record db { decisions = some (upsert (answer_row_of now request_id peer fp allow) ds) },
      )
  unfolding remember_decision record_decision
  remember_decision-eq now peer fp allow request_id db ds e = ground arith

  decisions-answer_statement :
      (now : ℕ) (request_id peer : Str) (p : ParkedParams) (allow remember : Bool)
      (grants : List Str) (db : Db Json) (ds : List DecisionRow)
      → db.decisions ≡ some ds
      → (answer_statement now request_id peer p allow remember grants db).1.decisions
        ≡ some (upsert (answer_row_of now request_id peer p.fingerprint allow) ds)
  unfolding answer_statement
  decisions-answer_statement now request_id peer p allow remember grants db ds e =
      ap (λ (z : Result InboxAnswer × Db Json). z.1.decisions)
        (bind_ok (remember_decision now peer p.fingerprint (effect_of allow) request_id)
          (λ _. write_rules request_id peer p allow remember grants)
          (remember_decision-eq now peer p.fingerprint allow request_id db ds e))
      ∙ (write_rules-decisions request_id peer p allow remember grants).at _

module _ {Json : Type 0} (c : Codec Json) (sha256 : List ℕ → List ℕ) where
  decisions-answer_inbox :
      (now : ℕ) (request_id : Str) (allow remember : Bool) (grants : List Str) (db : Db Json)
      (rows : List (InboxRow Json)) (r : InboxRow Json) (p : ParkedParams) (ds : List DecisionRow)
      → db.inbox ≡ some rows
      → find (λ q. q.request_id =s request_id) rows ≡ some r
      → r.decision ≡ none
      → is_nil r.sql ≡ false
      → c.from_json r.params ≡ some p
      → db.decisions ≡ some ds
      → (answer_inbox c now request_id allow remember grants db).1.decisions
        ≡ some (upsert (answer_row_of now request_id r.peer p.fingerprint allow) ds)
  unfolding apply_answer
  decisions-answer_inbox now request_id allow remember grants db rows r p ds e f d s j k =
      ap (λ (z : Result InboxAnswer × Db Json). z.1.decisions)
        (answer_inbox-eq c now request_id allow remember grants db rows r (some p) e f d
          (Reads.statement p s j refl))
      ∙ decisions-answer_statement now request_id r.peer p allow remember grants
          (marked c request_id allow rows db) ds k

  -- Once a pending statement row with readable params was answered, where the keys of `_decisions`
  -- are unique, with or without remembering and whatever the grants did,
  -- the cache tier gives the answer to every later request of the same peer whose fingerprint is
  -- the parked one, if it is no knock and uses no denied construct: `allow`, or a denial that
  -- names the row.
  pub cache_decide-answer_inbox :
      (now later : ℕ) (request_id : Str) (allow remember : Bool) (grants : List Str) (db : Db Json)
      (rows : List (InboxRow Json)) (r : InboxRow Json) (p : ParkedParams) (ds : List DecisionRow)
      (action statement : Str) (footprint : Footprint)
      → db.inbox ≡ some rows
      → find (λ q. q.request_id =s request_id) rows ≡ some r
      → r.decision ≡ none
      → is_nil r.sql ≡ false
      → c.from_json r.params ≡ some p
      → db.decisions ≡ some ds
      → KeysDistinct ds
      → p.fingerprint ≡ statement_fingerprint sha256 action statement footprint
      → (action =s codes "knock") ≡ false
      → has_denied footprint ≡ false
      → cache_decide sha256 later
          (answer_inbox c now request_id allow remember grants db).1
          r.peer
          action
          footprint
          statement
        ≡ verdict allow request_id
  unfolding cache_decide
  cache_decide-answer_inbox now later request_id allow remember grants db rows r p ds action
        statement footprint e f d s j k keys same knock denied =
      rw (denied, knock, ← same)
        (ap (lookup_decision later r.peer p.fingerprint)
            (decisions-answer_inbox now request_id allow remember grants db rows r p ds e f d s j k)
          ∙ lookup-upsert_self later (answer_row_of now request_id r.peer p.fingerprint allow) ds
              keys
          ∙ while_live-answer now later request_id r.peer p.fingerprint allow)
