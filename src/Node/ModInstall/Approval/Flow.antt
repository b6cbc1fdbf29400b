-- ===== src/Node/ModInstall/Approval/Flow.antt =====
-- crates/node/src/mod_install.rs with crates/authenticator/src/human.rs: a request for an installation
-- that is parked, the owner's answer to it, and the gate's answer to the retry.
use rsntr.Base.{
  ℕ, ◌≡◌, refl, sym, ap, ◌∙◌, true, false, Option, some, List, [], Str, codes, Option-cases, inl,
  inr, subst,
}
use rsntr.Authenticator.Db.{PolicyRow, DecisionRow, InboxRow, Db}
use rsntr.Authenticator.Human.{Codec, IsFaithful, is_nil, pending, insert_inbox, parked_row}
use rsntr.Authenticator.Inbox.{Result, answer_inbox, InboxAnswer}
use rsntr.Authenticator.Inbox.Answer.{Reads, marked, answer_inbox-eq}
use rsntr.Authenticator.Inbox.RoundTrip.{insert_inbox-find}
use rsntr.Node.ModInstall.{
  pending_answer, allowed, AuditRow, policy_matches, peer_known, Parking, parked, failed, panicked,
  park_new, park_install, install_fingerprint, gate,
}
use rsntr.Node.ModInstall.Approval.{params_of, answered, approved-MayInstall}
use rsntr.Node.ModInstall.Gate.{Answers, MayInstall, granted-gate}
use rsntr.Node.ModInstall.Retry.{with_inbox, steps-pending, answer_parking-pending}

module _ {Json : Type 0} (c : Codec Json) (sha256 : List ℕ → List ℕ) (now : ℕ)
    (ulid peer name signal : Str) where
  -- What parking leaves where nothing waited.
  data Stores (rows : List (InboxRow Json)) : Parking Json → Type 0 where
    stores :
        (rows' : List (InboxRow Json)) (j : Json)
        → c.to_json (params_of c sha256 now ulid peer name signal) ≡ some j
        → insert_inbox c (parked_row now ulid peer signal j) rows ≡ some rows'
        → Stores rows (parked (some rows'))
    stops : Stores rows failed
    panics : Stores rows panicked

  park_install-Stores :
      (rows : List (InboxRow Json))
      → pending c peer (params_of c sha256 now ulid peer name signal).fingerprint rows ≡ some false
      → Stores rows (park_install c sha256 now ulid (some rows) peer signal name)
  unfolding park_install park_new
  park_install-Stores rows p =
      elim (Option-cases (c.to_json (params_of c sha256 now ulid peer name signal))) [
        | inl e ↦ rw (p, park_install) (rw (e, park_new) panics)
        | inr (j, t) ↦
            elim (Option-cases (insert_inbox c (parked_row now ulid peer signal j) rows)) [
              | inl e ↦ rw (p, park_install) (rw (t, park_new) (rw (e, park_new) stops))
              | inr (rows', i) ↦
                  rw (p, park_install) (rw (t, park_new) (rw (i, park_new) (stores rows' j t i)))
            ]
      ]

  stored :
      (rows : List (InboxRow Json)) (inbox : Option (List (InboxRow Json))) (q : Parking Json)
      → Stores rows q
      → q ≡ parked inbox
      → (rows' : List (InboxRow Json)) × (j : Json) × (inbox ≡ some rows')
        × (c.to_json (params_of c sha256 now ulid peer name signal) ≡ some j)
        × (insert_inbox c (parked_row now ulid peer signal j) rows ≡ some rows')
  stored rows inbox q (stores rows' j t i) h = (rows', j, cc, t, i)
  stored rows inbox q stops h = absurd (cc)
  stored rows inbox q panics h = absurd (cc)

module _ (debug : Str → Str) (error : Str) {Json : Type 0} (c : Codec Json)
    (faithful : IsFaithful c) (sha256 : List ℕ → List ℕ) (asked now later : ℕ) (ulid ulid' : Str)
    (peer id id' signal signal' name : Str) (caps : List Str) (db after : Db Json) (row : AuditRow)
    (rows : List (InboxRow Json)) (ps : List PolicyRow) (ds : List DecisionRow) where
  approved_row-MayInstall :
      (inbox : Option (List (InboxRow Json))) (rows' : List (InboxRow Json)) (j : Json)
      → is_nil signal ≡ false
      → inbox ≡ some rows'
      → c.to_json (params_of c sha256 now ulid peer name signal) ≡ some j
      → insert_inbox c (parked_row asked ulid peer signal j) rows ≡ some rows'
      → db.policy ≡ some ps
      → db.decisions ≡ some ds
      → peer_known db peer ≡ true
      → policy_matches db.policy peer name (codes "mod-install") (codes "deny") ≡ false
      → MayInstall (answer_inbox c now ulid true true [] (with_inbox db inbox)).1 peer name []
  unfolding peer_known
  approved_row-MayInstall inbox rows' j nonempty eⱼ t i eₚ eₔ known undue =
      let behind = marked c ulid true rows' (with_inbox db inbox) in
      let params = params_of c sha256 now ulid peer name signal in
      subst (λ (z : Result InboxAnswer × Db Json). MayInstall z.1 peer name [])
        (sym (
          answer_inbox-eq c now ulid true true [] (with_inbox db inbox) rows'
            (parked_row asked ulid peer signal j) (some params) eⱼ
            (insert_inbox-find c faithful sha256 (parked_row asked ulid peer signal j) rows rows' i)
            refl (Reads.statement params nonempty (faithful.from_to _ j t) refl)))
        (approved-MayInstall c sha256 now ulid peer name signal behind _ ps
          (answered c sha256 now ulid peer name signal behind ps ds eₚ eₔ) eₚ known undue)

  -- A request for an installation was answered as pending, and the owner approved it, to be remembered
  -- and without further grants: from then on the gate lets this peer install a mod of this name that
  -- asks for no caps. The codec of the params is faithful, the text of the request is not empty,
  -- the tables were there, and no row for this peer and request was waiting.
  pub gate-answer_inbox-gate :
      is_nil signal ≡ false
      → db.inbox ≡ some rows
      → db.policy ≡ some ps
      → db.decisions ≡ some ds
      → pending c peer (install_fingerprint c sha256 signal name) rows ≡ some false
      → gate debug error c sha256 asked ulid db peer id name caps signal
        ≡ some (pending_answer, row, after)
      → Answers
          (gate debug error c sha256 later ulid'
            (answer_inbox c now ulid true true [] after).1
            peer
            id'
            name
            []
            signal')
          allowed
  unfolding gate
  gate-answer_inbox-gate nonempty eᵢ eₚ eₔ fresh h =
      let (known, undue, due, a) =
        steps-pending debug error db after peer id name row (peer_known db peer)
          (policy_matches db.policy peer name (codes "mod-install") (codes "deny"))
          (policy_matches db.policy peer name (codes "mod-install") (codes "allow"))
          (park_install c sha256 asked ulid db.inbox peer signal name) _ _ h in
      let (inbox, p, e) = answer_parking-pending debug error db after peer id name row _ a in
      let (rows', j, eⱼ, t, i) =
        stored c sha256 asked ulid peer name signal rows inbox _
          (park_install-Stores c sha256 asked ulid peer name signal rows fresh)
          (ap (λ b. park_install c sha256 asked ulid b peer signal name) (sym eᵢ) ∙ p) in
      granted-gate debug error c sha256 later ulid' _ peer id' name [] signal' (
        subst (λ (z : Db Json). MayInstall (answer_inbox c now ulid true true [] z).1 peer name [])
          (sym e) (approved_row-MayInstall inbox rows' j nonempty eⱼ t i eₚ eₔ known undue))
