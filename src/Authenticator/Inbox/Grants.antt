-- ===== src/Authenticator/Inbox/Grants.antt =====
-- crates/authenticator/src/human.rs: the grants of an answer.
use rsntr.Base.{
  ℕ, ◌≡◌, inl, inr, Bool, true, false, none, some, List, [], ◌∷◌, ◌++◌, refl, sym, ap, ◌∙◌, arith,
  subst, Bool-cases, Str, codes, find, any, ◌=s◌, =s_iff, ◌==◌,
}
use rsntr.Authenticator.Db.{PeerRow, InboxRow, Db}
use rsntr.Authenticator.Human.{Codec, is_nil}
use rsntr.Authenticator.Inbox.{
  bad_grant, already_decided, Result, ok, err, Act, ◌>>=◌, pure, InboxAnswer, split_once,
  write_grants, admitted_row, admit, apply_answer, answer_knock, answer_inbox, effect_of,
}
use rsntr.Authenticator.Inbox.Keeps.{bind_ok, bind_err}
use rsntr.Authenticator.Inbox.Answer.{Reads, marked, answer_inbox-eq, answer_inbox_once}

-- `split_once` cuts at the first equals sign.
pub split_once-append :
    (table action : Str)
    → any (λ c. c == b'=') table ≡ false
    → split_once (table ++ b'=' ∷ action) ≡ some (table, action)
unfolding split_once
split_once-append [] action h = refl
split_once-append (c ∷ table) action h = ground (arith, split_once-append table action)

split_once-none : (s : Str) → any (λ c. c == b'=') s ≡ false → split_once s ≡ none
unfolding split_once
split_once-none [] h = refl
split_once-none (c ∷ s) h = ground (arith, split_once-none s)

any-append :
    (peer : Str) (rows : List PeerRow) (r : PeerRow)
    → r.endpoint_id ≡ peer
    → any (λ q. q.endpoint_id =s peer) (rows ++ r ∷ []) ≡ true
any-append peer [] r e = ground (arith, =s_iff r.endpoint_id peer)
any-append peer (q ∷ rows) r e = ground (arith, any-append peer rows r)

module _ {Json : Type 0} where
  -- The peer has a row in `_peers`.
  abbrev pub IsAdmitted : Str → Db Json → Type 0
  IsAdmitted peer db =
      (rows : List PeerRow) × (db.peers ≡ some rows)
      × (any (λ r. r.endpoint_id =s peer) rows ≡ true)

  admit-IsAdmitted :
      (now : ℕ) (peer request_id : Str) (db : Db Json) (rows : List PeerRow)
      → db.peers ≡ some rows
      → (db' : Db Json) × (admit now peer request_id db ≡ (ok tt, db')) × IsAdmitted peer db'
  unfolding admit
  admit-IsAdmitted now peer request_id db rows e =
      elim (Bool-cases (any (λ r. r.endpoint_id =s peer) rows)) [
        | inl old ↦ (db, ground arith, (rows, e, old))
        | inr new ↦
            let rows' = rows ++ admitted_row now peer request_id ∷ [] in
            (
              record db { peers = some rows' },
              ground arith,
              (rows', refl, any-append peer rows (admitted_row now peer request_id) refl),
            )
      ]

  write_grants_bad :
      (peer request_id g : Str) (gs : List Str) (db : Db Json)
      → split_once g ≡ none
      → write_grants peer request_id (g ∷ gs) db ≡ (err (bad_grant g), db)
  unfolding write_grants
  write_grants_bad peer request_id g gs db n = rw (n, write_grants)

  abbrev knock_answer : Str → List Str → Act Json InboxAnswer
  knock_answer peer granted =
      pure (record { peer = peer; knock = true; remembered = []; granted = granted })

  answer_knock_bad :
      (now : ℕ) (request_id peer g : Str) (gs : List Str) (db db' : Db Json)
      → admit now peer request_id db ≡ (ok tt, db')
      → split_once g ≡ none
      → answer_knock now request_id peer true (g ∷ gs) db ≡ (err (bad_grant g), db')
  unfolding answer_knock
  answer_knock_bad now request_id peer g gs db db' a n =
      bind_ok (admit now peer request_id)
        (λ _. write_grants peer request_id (g ∷ gs) >>= knock_answer peer) a
      ∙ bind_err (write_grants peer request_id (g ∷ gs)) (knock_answer peer)
          (write_grants_bad peer request_id g gs db' n)

module _ {Json : Type 0} (c : Codec Json) where
  -- The answer flow is no transaction: an answer that allows a pending knock with a first grant that
  -- has no equals sign, where the table `_peers` exists, ends with an error, and still the knock is
  -- decided and its peer is admitted; the corrected answer is then refused.
  pub answer_inbox_bad_grant :
      (now later : ℕ) (request_id g : Str) (gs grants : List Str) (remember : Bool) (db : Db Json)
      (rows : List (InboxRow Json)) (r : InboxRow Json) (peers : List PeerRow)
      → db.inbox ≡ some rows
      → find (λ q. q.request_id =s request_id) rows ≡ some r
      → r.decision ≡ none
      → is_nil r.sql ≡ true
      → db.peers ≡ some peers
      → any (λ ch. ch == b'=') g ≡ false
      → (let (result, after) = answer_inbox c now request_id true remember (g ∷ gs) db in
          (result ≡ err (bad_grant g))
          × IsAdmitted r.peer after
          × (answer_inbox c later request_id true remember grants after
              ≡ (err (already_decided request_id (codes "allow")), after)))
  unfolding apply_answer answer_knock effect_of
  answer_inbox_bad_grant now later request_id g gs grants remember db rows r peers e f d k p n =
      let base = marked c request_id true rows db in
      let (db', a, admitted) = admit-IsAdmitted now r.peer request_id base peers p in
      let ran =
        answer_inbox-eq c now request_id true remember (g ∷ gs) db rows r none e f d
          (Reads.knock k refl)
        ∙ answer_knock_bad now request_id r.peer g gs base db' a (split_once-none g n) in
      (
        ap (λ (z : Result InboxAnswer × Db Json). z.0) ran,
        subst (λ (z : Result InboxAnswer × Db Json). IsAdmitted r.peer z.1) (sym ran) admitted,
        answer_inbox_once c now later request_id true true remember remember (g ∷ gs) grants db rows
            r none e f d (Reads.knock k refl),
      )
