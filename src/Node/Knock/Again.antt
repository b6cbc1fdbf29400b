-- ===== src/Node/Knock/Again.antt =====
-- crates/node/src/pipeline.rs: a stranger that knocks again.
use rsntr.Base.{
  ℕ, ◌≡◌, refl, inl, inr, true, false, none, some, List, [], ◌∷◌, ◌++◌, if◌then◌else◌, any, arith,
  Str, ◌=s◌, =s_refl, Bool-cases, Option-cases,
}
use rsntr.Authenticator.Db.{InboxRow}
use rsntr.Authenticator.Human.{Codec, insert_inbox}
use rsntr.Node.Knock.{before, waits, pending_knock, knock_row, park_knock}

module _ {Json : Type 0} where
  pending_knock-append :
      (peer : Str) (rows : List (InboxRow Json)) (row : InboxRow Json)
      → waits peer row ≡ true
      → pending_knock peer rows ≡ none
      → pending_knock peer (rows ++ row ∷ []) ≡ some row
  unfolding pending_knock
  pending_knock-append peer [] row w n = rw w refl
  pending_knock-append peer (r ∷ rows) row w n = elim (Bool-cases (waits peer r)) [
    | inr idle ↦ rw idle (pending_knock-append peer rows row w (rw idle at n))
    | inl waiting ↦ elim (Option-cases (pending_knock peer rows)) [
      | inl e ↦ absurd (let f : some r ≡ none = (rw (e, pending_knock) at (rw waiting at n)) in cc)
      | inr (b, e) ↦ absurd (
          let f : some (if before b r then b else r) ≡ none =
            (rw (e, pending_knock) at (rw waiting at n)) in
          cc)
    ]
  ]

-- A stranger that knocks again while its knock waits gets the same id and adds no row, whatever its
-- second message and id; the table `_inbox` is there, and the id of the first knock was not taken.
pub park_knock_again :
    {Json : Type 0} (c : Codec Json) (raw : Str → Json) (now now' : ℕ)
    (peer id id' message message' : Str) (rows : List (InboxRow Json))
    → any (λ r. r.request_id =s id) rows ≡ false
    → let first = park_knock c raw now peer id message (some rows) in
      park_knock c raw now' peer id' message' first.1 ≡ first
unfolding park_knock insert_inbox
park_knock_again c raw now now' peer id id' message message' rows free =
    elim (Option-cases (pending_knock peer rows)) [
      | inr (r, e) ↦ rw (e, park_knock) (rw (e, park_knock) refl)
      | inl e ↦
          let again =
            pending_knock-append peer rows (knock_row c raw now peer id message)
              (ground (arith, =s_refl peer)) e in
          rw (e, park_knock) (rw free (rw (again, park_knock) refl))
    ]
