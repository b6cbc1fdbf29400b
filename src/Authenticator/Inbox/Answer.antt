-- ===== src/Authenticator/Inbox/Answer.antt =====
-- crates/authenticator/src/human.rs: an answer is taken once, and rejected answers write nothing.
use rsntr.Base.{
  some_inj, ℕ, ◌≡◌, inl, inr, Bool, true, false, Option, none, some, List, [], ◌∷◌, map, refl, ap,
  ◌∙◌, arith, Bool-cases, Str, codes, find, ◌=s◌,
}
use rsntr.Authenticator.Db.{InboxRow, Db}
use rsntr.Authenticator.Human.{ParkedParams, Codec, is_nil}
use rsntr.Authenticator.Inbox.{
  already_decided, Result, ok, err, ◌>>=◌, InboxAnswer, find_row, not_decided, read_params, mark,
  mark_row, effect_of, apply_answer, settle, answer_row, answer_inbox,
}
use rsntr.Authenticator.Inbox.Keeps.{bind_ok, bind_err, apply_answer-inbox}

module _ {Json : Type 0} (c : Codec Json) where
  -- What the flow reads from a row: nothing for a knock, the params of a statement.
  pub data Reads (r : InboxRow Json) : Option ParkedParams → Type 0 where
    knock : {o : Option ParkedParams} → is_nil r.sql ≡ true → o ≡ none → Reads r o
    statement :
        {o : Option ParkedParams} (p : ParkedParams)
        → is_nil r.sql ≡ false
        → c.from_json r.params ≡ some p
        → o ≡ some p
        → Reads r o

  find_row-eq :
      (request_id : Str) (db : Db Json) (rows : List (InboxRow Json)) (r : InboxRow Json)
      → db.inbox ≡ some rows
      → find (λ q. q.request_id =s request_id) rows ≡ some r
      → find_row request_id db ≡ (ok r, db)
  unfolding find_row
  find_row-eq request_id db rows r e f = ground arith

  read_params-eq :
      (request_id : Str) (db : Db Json) (r : InboxRow Json) (o : Option ParkedParams)
      → Reads r o
      → read_params c request_id r db ≡ (ok o, db)
  unfolding read_params
  read_params-eq request_id db r o (knock n e) = ground arith
  read_params-eq request_id db r o (statement p n e f) = ground arith

  -- the database behind the marking
  abbrev pub marked : Str → Bool → List (InboxRow Json) → Db Json → Db Json
  marked request_id allow rows db = record db {
    inbox = some (map (mark_row request_id (effect_of allow)) rows);
  }

  mark-eq :
      (request_id : Str) (allow : Bool) (db : Db Json) (rows : List (InboxRow Json))
      → db.inbox ≡ some rows
      → mark request_id (effect_of allow) db ≡ (ok tt, marked request_id allow rows db)
  unfolding mark
  mark-eq request_id allow db rows e = ground arith

  not_decided-eq :
      (request_id : Str) (o : Option Str) (db : Db Json)
      → o ≡ none
      → not_decided request_id o db ≡ (ok tt, db)
  unfolding not_decided
  not_decided-eq request_id o db e = rw (e, not_decided)

  -- An answer to a pending row with readable params marks the row and does the rest behind it.
  pub answer_inbox-eq :
      (now : ℕ) (request_id : Str) (allow remember : Bool) (grants : List Str) (db : Db Json)
      (rows : List (InboxRow Json)) (r : InboxRow Json) (o : Option ParkedParams)
      → db.inbox ≡ some rows
      → find (λ q. q.request_id =s request_id) rows ≡ some r
      → r.decision ≡ none
      → Reads r o
      → answer_inbox c now request_id allow remember grants db
        ≡ apply_answer now request_id r.peer o allow remember grants
            (marked request_id allow rows db)
  unfolding answer_inbox
  answer_inbox-eq now request_id allow remember grants db rows r o e f d rd =
      let last = settle now request_id allow remember grants r.peer in
      bind_ok (find_row request_id) (answer_row c now request_id allow remember grants)
        (find_row-eq request_id db rows r e f)
      ∙ bind_ok (not_decided request_id r.decision) (λ _. read_params c request_id r >>= last)
          (not_decided-eq request_id r.decision db d)
      ∙ bind_ok (read_params c request_id r) last (read_params-eq request_id db r o rd)
      ∙ bind_ok (mark request_id (effect_of allow))
          (λ _. apply_answer now request_id r.peer o allow remember grants)
          (mark-eq request_id allow db rows e)

  abbrev as_marked : Str → InboxRow Json → InboxRow Json
  as_marked d r = record r { decision = some d; decided_by = some (codes "human") }

  mark_row_at :
      (request_id d : Str) (q : InboxRow Json)
      → (q.request_id =s request_id) ≡ true
      → mark_row request_id d q ≡ as_marked d q
  unfolding mark_row
  mark_row_at request_id d q h = rw h

  mark_row_ne :
      (request_id d : Str) (q : InboxRow Json)
      → (q.request_id =s request_id) ≡ false
      → mark_row request_id d q ≡ q
  unfolding mark_row
  mark_row_ne request_id d q h = rw h

  find-map-mark_row :
      (request_id d : Str) (rows : List (InboxRow Json)) (r : InboxRow Json)
      → find (λ q. q.request_id =s request_id) rows ≡ some r
      → find (λ q. q.request_id =s request_id) (map (mark_row request_id d) rows)
        ≡ some (as_marked d r)
  find-map-mark_row request_id d [] r h = absurd (cc)
  find-map-mark_row request_id d (q ∷ rows) r h = elim (Bool-cases (q.request_id =s request_id)) [
    | inl at_row ↦
        let e : q ≡ r = some_inj (rw at_row at h) in
        rw (mark_row_at request_id d q at_row)
          (rw at_row (ap (λ (z : InboxRow Json). some (as_marked d z)) e))
    | inr other ↦
        rw (mark_row_ne request_id d q other)
          (rw other (find-map-mark_row request_id d rows r (rw other at h)))
  ]

  not_decided-err :
      (request_id d : Str) (db : Db Json)
      → not_decided request_id (some d) db ≡ (err (already_decided request_id d), db)
  unfolding not_decided
  not_decided-err request_id d db = refl

  answer_inbox_decided :
      (now : ℕ) (request_id : Str) (allow remember : Bool) (grants : List Str) (db : Db Json)
      (rows : List (InboxRow Json)) (r : InboxRow Json) (d : Str)
      → db.inbox ≡ some rows
      → find (λ q. q.request_id =s request_id) rows ≡ some r
      → r.decision ≡ some d
      → answer_inbox c now request_id allow remember grants db
        ≡ (err (already_decided request_id d), db)
  unfolding answer_inbox
  answer_inbox_decided now request_id allow remember grants db rows r d e f s =
      bind_ok (find_row request_id) (answer_row c now request_id allow remember grants)
        (find_row-eq request_id db rows r e f)
      ∙ bind_err (not_decided request_id r.decision)
          (λ _. read_params c request_id r >>= settle now request_id allow remember grants r.peer)
          (ap (λ o. not_decided request_id o db) s ∙ not_decided-err request_id d db)

  -- A row that was pending and readable when it was answered takes no second answer: whatever the
  -- first answer did behind the marking, also if it ended with an error, each later answer is refused
  -- and writes nothing.
  pub answer_inbox_once :
      (now later : ℕ) (request_id : Str) (allow allow' remember remember' : Bool)
      (grants grants' : List Str) (db : Db Json) (rows : List (InboxRow Json)) (r : InboxRow Json)
      (o : Option ParkedParams)
      → db.inbox ≡ some rows
      → find (λ q. q.request_id =s request_id) rows ≡ some r
      → r.decision ≡ none
      → Reads r o
      → answer_inbox c later request_id allow' remember' grants'
          (answer_inbox c now request_id allow remember grants db).1
        ≡ (
          err (already_decided request_id (effect_of allow)),
          (answer_inbox c now request_id allow remember grants db).1,
        )
  answer_inbox_once now later request_id allow allow' remember remember' grants grants' db rows r o
        e f d rd =
      let after = (answer_inbox c now request_id allow remember grants db).1 in
      answer_inbox_decided later request_id allow' remember' grants' after
        (map (mark_row request_id (effect_of allow)) rows) (as_marked (effect_of allow) r)
        (effect_of allow)
        (ap (λ (z : Result InboxAnswer × Db Json). z.1.inbox)
            (answer_inbox-eq now request_id allow remember grants db rows r o e f d rd)
          ∙ (apply_answer-inbox now request_id r.peer o allow remember grants).at _)
        (find-map-mark_row request_id (effect_of allow) rows r f) refl
