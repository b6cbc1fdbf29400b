-- ===== src/Node/ModInstall/Retry.antt =====
-- crates/node/src/mod_install.rs: a second request for an installation that waits for the owner.
use rsntr.Base.{
  ℕ, ◌≡◌, refl, sym, ap, Bool, true, false, not, Option, none, some, List, [], ◌∷◌, if◌then◌else◌,
  Str, codes, =s_refl, Option-cases, some_inj, inl, inr, subst,
}
use rsntr.Authenticator.Db.{InboxRow, Db}
use rsntr.Authenticator.Human.{
  Codec, IsFaithful, is_nil, pending, insert_inbox, parked_row, pending_reason,
}
use rsntr.Authenticator.Human.Parking.{Option-Bool-cases, pending-append, waits-parked_row}
use rsntr.Authenticator.Human.Once.{insert_inbox-append}
use rsntr.Node.ModInstall.{
  pending_answer, AuditRow, policy_matches, peer_known, Parking, parked, failed, panicked, park_new,
  park_install, install_fingerprint, mod_footprint, audited, answer_parking, answer_unknown,
  answer_denied, answer_caps, gate,
}

module _ {Json : Type 0} (c : Codec Json) (faithful : IsFaithful c) (sha256 : List ℕ → List ℕ)
    (now later : ℕ) (ulid ulid' : Str) (peer signal name : Str)
    (nonempty : is_nil signal ≡ false) where
  -- A row waits for the installation in the table that parking leaves.
  abbrev Waits : Option (List (InboxRow Json)) → Type 0
  Waits inbox =
      (rows : List (InboxRow Json)) × (inbox ≡ some rows)
      × (pending c peer (install_fingerprint c sha256 signal name) rows ≡ some true)

  abbrev WaitsAfter : Parking Json → Type 0
  WaitsAfter (parked inbox) = Waits inbox
  WaitsAfter failed = Unit
  WaitsAfter panicked = Unit

  park_new-WaitsAfter :
      (rows : List (InboxRow Json))
      → pending c peer (install_fingerprint c sha256 signal name) rows ≡ some false
      → WaitsAfter (park_new c sha256 now ulid rows peer signal name)
  unfolding park_new
  park_new-WaitsAfter rows p =
      elim (Option-cases (
        c.to_json (record {
          action = codes "mod-install";
          fingerprint = install_fingerprint c sha256 signal name;
          footprint = mod_footprint name;
        }))) [
          | inl e ↦ rw (e, park_new) tt
          | inr (j, t) ↦
              elim (Option-cases (insert_inbox c (parked_row now ulid peer signal j) rows)) [
                | inl e ↦ rw (t, park_new) (rw (e, park_new) tt)
                | inr (rows', i) ↦
                    rw (t, park_new)
                      (rw (i, park_new)
                        (
                          rows',
                          refl,
                          rw (insert_inbox-append c faithful _ rows rows' i) (
                              pending-append c peer _ rows _ p (
                                rw (
                                  waits-parked_row c faithful now ulid peer peer _ _ _ signal _ j
                                      nonempty t,
                                  =s_refl peer,
                                  =s_refl (install_fingerprint c sha256 signal name),
                                ))),
                        ))
              ]
        ]

  park_install-WaitsAfter :
      (before : Option (List (InboxRow Json)))
      → WaitsAfter (park_install c sha256 now ulid before peer signal name)
  unfolding park_install
  park_install-WaitsAfter none = tt
  park_install-WaitsAfter (some rows) =
      elim (Option-Bool-cases (pending c peer (install_fingerprint c sha256 signal name) rows)) [
        | inl e ↦ rw (e, park_install) tt
        | inr (inl t) ↦ rw (t, park_install) (rows, refl, t)
        | inr (inr f) ↦ rw (f, park_install) (park_new-WaitsAfter rows f)
      ]

  park_install_retry :
      (before inbox : Option (List (InboxRow Json)))
      → park_install c sha256 now ulid before peer signal name ≡ parked inbox
      → park_install c sha256 later ulid' inbox peer signal name ≡ parked inbox
  unfolding park_install
  park_install_retry before inbox h =
      let (rows, e, p) = subst WaitsAfter h (park_install-WaitsAfter before) in
      rw (e, park_install, p) refl

-- What a database keeps when a request is parked.
abbrev pub with_inbox : {Json : Type 0} → Db Json → Option (List (InboxRow Json)) → Db Json
with_inbox db inbox = record {
  rsntr = db.rsntr;
  policy = db.policy;
  decisions = db.decisions;
  inbox = inbox;
  peers = db.peers;
}

module _ (debug : Str → Str) (error : Str) {Json : Type 0} (db after : Db Json) (peer id name : Str)
    (row : AuditRow) where
  pub answer_parking-pending :
      (p : Parking Json)
      → answer_parking debug error db peer id name p ≡ some (pending_answer, row, after)
      → (inbox : Option (List (InboxRow Json))) × (p ≡ parked inbox) × (after ≡ with_inbox db inbox)
  answer_parking-pending (parked inbox) h = (inbox, refl, sym (ap (λ q. q.2) (some_inj h)))
  answer_parking-pending failed h = absurd (cc)
  answer_parking-pending panicked h = absurd (cc)

  answer_caps-pending :
      (caps : List Str)
      → ¬ (answer_caps debug error db peer id name caps ≡ some (pending_answer, row, after))
  answer_caps-pending [] h = absurd (cc)
  answer_caps-pending (cap ∷ caps) h = absurd (cc)

  pub steps-pending :
      (known undue due : Bool) (p : Parking Json) (reason : Str) (caps : List Str)
      → (if not known
          then answer_unknown debug error db peer id name
          else if undue
          then answer_denied debug error db peer id name reason
          else if not due
          then answer_parking debug error db peer id name p
          else answer_caps debug error db peer id name caps)
        ≡ some (pending_answer, row, after)
      → (known ≡ true)
        × (undue ≡ false)
        × (due ≡ false)
        × (answer_parking debug error db peer id name p ≡ some (pending_answer, row, after))
  steps-pending false undue due p reason caps h = absurd (cc)
  steps-pending true true due p reason caps h = absurd (cc)
  steps-pending true false false p reason caps h = (refl, refl, refl, h)
  steps-pending true false true p reason caps h = absurd (answer_caps-pending caps h)

module _ (debug : Str → Str) (error : Str) {Json : Type 0} (c : Codec Json)
    (faithful : IsFaithful c) (sha256 : List ℕ → List ℕ) (now later : ℕ) (ulid ulid' : Str)
    (peer id id' signal name : Str) (caps caps' : List Str) (db after : Db Json)
    (row : AuditRow) where
  -- Where the codec of the params is faithful: a peer whose request to install a mod was answered as
  -- pending and that sends it again gets the same answer and one more row for `_audit`, which denies,
  -- and parks nothing: `_inbox`, `_policy`, `_decisions`, `_peers` and `_rsntr` stay as they are,
  -- whatever the time, the new ids and the caps of the second request. The text of the request is not
  -- empty.
  pub gate_retry :
      is_nil signal ≡ false
      → gate debug error c sha256 now ulid db peer id name caps signal
        ≡ some (pending_answer, row, after)
      → gate debug error c sha256 later ulid' after peer id' name caps' signal
        ≡ some (
          pending_answer,
          audited peer id' name (codes "deny") (codes "human") pending_reason,
          after,
        )
  unfolding gate peer_known
  gate_retry nonempty h =
      let (known, undue, due, a) =
        steps-pending debug error db after peer id name row (peer_known db peer)
          (policy_matches db.policy peer name (codes "mod-install") (codes "deny"))
          (policy_matches db.policy peer name (codes "mod-install") (codes "allow"))
          (park_install c sha256 now ulid db.inbox peer signal name) _ _ h in
      let (inbox, p, e) = answer_parking-pending debug error db after peer id name row _ a in
      subst
        (λ (z : Db Json).
          gate debug error c sha256 later ulid' z peer id' name caps' signal
          ≡ some (
            pending_answer,
            audited peer id' name (codes "deny") (codes "human") pending_reason,
            z,
          ))
        (sym e)
        (rw
          (
            known,
            undue,
            due,
            park_install_retry c faithful sha256 now later ulid ulid' peer signal name nonempty
                db.inbox inbox p,
          )
          refl)
