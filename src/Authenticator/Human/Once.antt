-- ===== src/Authenticator/Human/Once.antt =====
-- crates/authenticator/src/human.rs: retries of one request do not stack up in `_inbox`.
use rsntr.Base.{
  ℕ, ◌≡◌, inl, inr, true, false, ◌&&◌, some, List, [], ◌∷◌, ◌++◌, sym, ap, ◌∙◌, subst, arith,
  Bool-cases, Str, ◌=s◌, =s_iff, =s_refl, some_inj,
}
use rsntr.Authenticator.Types.{Footprint, Decision, Decision.deny}
use rsntr.Authenticator.Db.{InboxRow, Db}
use rsntr.Authenticator.Fingerprint.{statement_fingerprint}
use rsntr.Authenticator.Human.{
  Codec, IsFaithful, is_nil, pending, insert_inbox, parked_row, ask, human_decide, pending_reason,
}
use rsntr.Authenticator.Human.Parking.{
  waiting, WaitsOnce, pending-false, waiting-append, pending-append, waits-parked_row, Asked,
  human_decide-cases, shape,
}

module _ {Json : Type 0} (c : Codec Json) (faithful : IsFaithful c) where
  pub insert_inbox-append :
      (row : InboxRow Json) (rows rows' : List (InboxRow Json))
      → insert_inbox c row rows ≡ some rows'
      → rows' ≡ rows ++ row ∷ []
  unfolding insert_inbox
  insert_inbox-append row rows rows' h = ground arith

  own_count :
      (peer other fp shape : Str) (rows : List (InboxRow Json))
      → (peer =s other && fp =s shape) ≡ true
      → waiting c peer fp rows ≡ 0
      → waiting c other shape rows ≡ 0
  own_count peer other fp shape rows same z = ground (arith, =s_iff peer other, =s_iff fp shape)

  parked-WaitsOnce :
      (now : ℕ) (ulid peer fp action statement : Str) (footprint : Footprint) (j : Json)
      (rows rows' : List (InboxRow Json))
      → is_nil statement ≡ false
      → WaitsOnce c rows
      → pending c peer fp rows ≡ some false
      → c.to_json (record { action = action; fingerprint = fp; footprint = footprint }) ≡ some j
      → insert_inbox c (parked_row now ulid peer statement j) rows ≡ some rows'
      → WaitsOnce c rows'
  parked-WaitsOnce now ulid peer fp action statement footprint j rows rows' s once p t i other
        shape =
      rw (insert_inbox-append _ rows rows' i, waiting-append c other shape rows)
        (rw
          (waits-parked_row c faithful now ulid peer other fp shape action statement footprint j s
            t)
          (elim (Bool-cases (peer =s other && fp =s shape)) [
            | inr apart ↦ rw apart (omega (arith, once other shape))
            | inl same ↦ rw same (
                omega
                  (arith, own_count peer other fp shape rows same (pending-false c peer fp rows p)))
          ]))

  Asked-WaitsOnce :
      (now : ℕ) (ulid : Str) (db : Db Json) (fp peer action : Str) (footprint : Footprint)
      (statement : Str) (result : Decision × Db Json) (rows rows' : List (InboxRow Json))
      → is_nil statement ≡ false
      → Asked c now ulid db fp peer action footprint statement result
      → db.inbox ≡ some rows
      → WaitsOnce c rows
      → result.1.inbox ≡ some rows'
      → WaitsOnce c rows'
  Asked-WaitsOnce now ulid db fp peer action footprint statement result rows rows' s
        (Asked.abstains r) e once k =
      subst (WaitsOnce c) (some_inj (sym e ∙ sym (ap (λ q. q.1.inbox) r) ∙ k)) once
  Asked-WaitsOnce now ulid db fp peer action footprint statement result rows rows' s
        (Asked.waits_already rows₀ e₀ p r) e once k =
      subst (WaitsOnce c) (some_inj (sym e ∙ sym (ap (λ q. q.1.inbox) r) ∙ k)) once
  Asked-WaitsOnce now ulid db fp peer action footprint statement result rows rows' s
        (Asked.parks rows₀ rows₁ j e₀ p t i r) e once k =
      subst (WaitsOnce c) (some_inj (sym (ap (λ q. q.1.inbox) r) ∙ k)) (
        parked-WaitsOnce now ulid peer fp action statement footprint j rows₀ rows₁ s
          (subst (WaitsOnce c) (some_inj (sym e ∙ e₀)) once) p t i)

  -- Where the codec of the params is faithful, a pending row of a shape stays the only one: whatever
  -- the request, if at most one row waits for each peer and shape, this still holds of the table
  -- that the tier leaves.
  pub human_decide-WaitsOnce :
      (sha256 : List ℕ → List ℕ) (now : ℕ) (ulid : Str) (db : Db Json) (peer action : Str)
      (footprint : Footprint) (statement : Str) (rows rows' : List (InboxRow Json))
      → db.inbox ≡ some rows
      → WaitsOnce c rows
      → (human_decide c sha256 now ulid db peer action footprint statement).1.inbox ≡ some rows'
      → WaitsOnce c rows'
  human_decide-WaitsOnce sha256 now ulid db peer action footprint statement rows rows' e once k =
      elim (human_decide-cases c sha256 now ulid db peer action footprint statement) [
        | inl r ↦ subst (WaitsOnce c) (some_inj (sym e ∙ sym (ap (λ q. q.1.inbox) r) ∙ k)) once
        | inr (g, d, a) ↦
            Asked-WaitsOnce now ulid db _ peer action footprint statement _ rows rows'
              (ground arith) a e once k
      ]

  -- After a deny, a row waits.
  Asked-pending :
      (now : ℕ) (ulid : Str) (db after : Db Json) (fp peer action : Str) (footprint : Footprint)
      (statement : Str) (result : Decision × Db Json)
      → is_nil statement ≡ false
      → Asked c now ulid db fp peer action footprint statement result
      → result ≡ (deny pending_reason, after)
      → (rows : List (InboxRow Json)) × (after.inbox ≡ some rows)
        × (pending c peer fp rows ≡ some true)
  Asked-pending now ulid db after fp peer action footprint statement result s (Asked.abstains r) h =
      absurd (cc)
  Asked-pending now ulid db after fp peer action footprint statement result s
        (Asked.waits_already rows e p r) h =
      (rows, sym (ap (λ q. q.1.inbox) (sym r ∙ h)) ∙ e, p)
  Asked-pending now ulid db after fp peer action footprint statement result s
        (Asked.parks rows rows' j e p t i r) h =
      (
        rows',
        sym (ap (λ q. q.1.inbox) (sym r ∙ h)),
        rw (insert_inbox-append _ rows rows' i) (
            pending-append c peer fp rows _ p (
              rw (
                waits-parked_row c faithful now ulid peer peer fp fp action statement footprint j s
                    t,
                =s_refl peer,
                =s_refl fp,
              ))),
      )

  ask_waits :
      (now : ℕ) (ulid : Str) (db : Db Json) (fp peer action : Str) (footprint : Footprint)
      (statement : Str) (rows : List (InboxRow Json))
      → pending c peer fp rows ≡ some true
      → ask c (some rows) now ulid db fp peer action footprint statement ≡ (deny pending_reason, db)
  unfolding ask
  ask_waits now ulid db fp peer action footprint statement rows p = rw (p, ask)

  -- Where the codec of the params is faithful: a retry of a request that was answered as pending is
  -- answered the same and writes nothing, at whatever time and under whatever new id it comes.
  pub human_decide_retry :
      (sha256 : List ℕ → List ℕ) (now later : ℕ) (ulid ulid' : Str) (db after : Db Json)
      (peer action : Str) (footprint : Footprint) (statement : Str)
      → human_decide c sha256 now ulid db peer action footprint statement
        ≡ (deny pending_reason, after)
      → human_decide c sha256 later ulid' after peer action footprint statement
        ≡ (deny pending_reason, after)
  unfolding human_decide
  human_decide_retry sha256 now later ulid ulid' db after peer action footprint statement h =
      elim (human_decide-cases c sha256 now ulid db peer action footprint statement) [
        | inl r ↦ absurd (cc)
        | inr (g, d, a) ↦
            let fp = statement_fingerprint sha256 action statement footprint in
            let (rows, e, p) =
              Asked-pending now ulid db after fp peer action footprint statement _ (ground arith) a
                h in
            rw (g, d)
              (ap (λ t. ask c t later ulid' after fp peer action footprint statement) e
                ∙ ask_waits later ulid' after fp peer action footprint statement rows p)
      ]
