-- ===== src/Authenticator/Inbox/RoundTrip.antt =====
-- crates/authenticator: a request that the human tier parks, the owner's answer to it, and the
-- cache tier's answer to the retry.
use rsntr.Base.{
  ℕ, ◌≡◌, inl, inr, Bool, true, false, none, some, List, [], ◌∷◌, ◌++◌, refl, sym, ap, ◌∙◌, arith,
  subst, Bool-cases, Str, find, any, ◌=s◌, =s_refl, some_inj,
}
use rsntr.Authenticator.Types.{Footprint, Decision}
use rsntr.Authenticator.Db.{DecisionRow, InboxRow, Db}
use rsntr.Authenticator.Fingerprint.{statement_fingerprint}
use rsntr.Authenticator.Cache.{cache_decide}
use rsntr.Authenticator.Cache.Memory.{KeysDistinct}
use rsntr.Authenticator.Human.{
  Codec, IsFaithful, human_decide, pending_reason, pending, insert_inbox, parked_row,
}
use rsntr.Authenticator.Human.Parking.{Asked, human_decide-cases}
use rsntr.Authenticator.Human.Once.{insert_inbox-append}
use rsntr.Authenticator.Inbox.{answer_inbox}
use rsntr.Authenticator.Inbox.Remembered.{verdict, cache_decide-answer_inbox}

module _ {Json : Type 0} (c : Codec Json) (faithful : IsFaithful c) (sha256 : List ℕ → List ℕ) where
  find-append :
      (request_id : Str) (rows : List (InboxRow Json)) (row : InboxRow Json)
      → any (λ r. r.request_id =s request_id) rows ≡ false
      → (row.request_id =s request_id) ≡ true
      → find (λ r. r.request_id =s request_id) (rows ++ row ∷ []) ≡ some row
  find-append request_id [] row n h = rw h
  find-append request_id (r ∷ rows) row n h = ground (arith, find-append request_id rows row)

  pub insert_inbox-find :
      (row : InboxRow Json) (rows rows' : List (InboxRow Json))
      → insert_inbox c row rows ≡ some rows'
      → find (λ r. r.request_id =s row.request_id) rows' ≡ some row
  unfolding insert_inbox
  insert_inbox-find row rows rows' h =
      elim (Bool-cases (any (λ r. r.request_id =s row.request_id) rows)) [
        | inl there_is ↦ absurd (let e : none ≡ some rows' = (rw there_is at h) in cc)
        | inr fresh ↦
            rw (insert_inbox-append c faithful row rows rows' h)
              (find-append row.request_id rows row fresh (=s_refl row.request_id))
      ]

  -- A request that was parked under a new id and then answered is, from then on, answered the same
  -- way by the cache tier whenever the same peer repeats it: the three fingerprints agree. The codec
  -- of the params is faithful, the keys of `_decisions` are unique, and no row of this peer and shape
  -- was pending.
  pub cache_decide-answer_inbox-human_decide :
      (asked now later : ℕ) (ulid : Str) (db after : Db Json) (peer action statement : Str)
      (footprint : Footprint) (rows : List (InboxRow Json)) (ds : List DecisionRow)
      (allow remember : Bool) (grants : List Str)
      → db.inbox ≡ some rows
      → db.decisions ≡ some ds
      → KeysDistinct ds
      → pending c peer (statement_fingerprint sha256 action statement footprint) rows ≡ some false
      → human_decide c sha256 asked ulid db peer action footprint statement
        ≡ (Decision.deny pending_reason, after)
      → cache_decide sha256 later
          (answer_inbox c now ulid allow remember grants after).1
          peer
          action
          footprint
          statement
        ≡ verdict allow ulid
  cache_decide-answer_inbox-human_decide asked now later ulid db after peer action statement
        footprint rows ds allow remember grants e k keys fresh h =
      elim (human_decide-cases c sha256 asked ulid db peer action footprint statement) [
        | inl r ↦ absurd (cc)
        | inr (g, d, Asked.abstains r) ↦ absurd (cc)
        | inr (g, d, Asked.waits_already rows₀ e₀ p r) ↦
            let same : rows ≡ rows₀ = some_inj (sym e ∙ e₀) in
            absurd (
              cc (
                ap (pending c peer (statement_fingerprint sha256 action statement footprint)) same))
        | inr (g, d, Asked.parks rows₀ rows' j e₀ p t i r) ↦
            subst
              (λ (z : Db Json).
                cache_decide sha256 later (answer_inbox c now ulid allow remember grants z).1 peer
                  action footprint statement
                ≡ verdict allow ulid)
              (ap (λ (z : Decision × Db Json). z.1) (sym r ∙ h))
              (cache_decide-answer_inbox c sha256 now later ulid allow remember grants
                (record db { inbox = some rows' }) rows' (parked_row asked ulid peer statement j) _
                ds action statement footprint refl (insert_inbox-find _ rows₀ rows' i) refl
                (ground arith) (faithful.from_to _ j t) k keys refl (ground arith) d)
      ]
