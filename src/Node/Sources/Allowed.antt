-- ===== src/Node/Sources/Allowed.antt =====
-- crates/node/src/pipeline.rs: when a media source opens and a mod runs.
use rsntr.Base.{
  ◌≡◌, ◌↔◌, refl, ap, ◌∙◌, inl, inr, true, false, Option, some, List, Str, codes, Bool-cases,
  Option-cases, some_inj,
}
use rsntr.Authenticator.Types.{
  Decision, Decision.allow, Decision.allow_narrowed, Decision.deny, Decision.escalate,
}
use rsntr.Authenticator.Db.{Db}
use rsntr.Authenticator.Chain.{Tier, Parsers, decide}
use rsntr.Node.ModInstall.{peer_known}
use rsntr.Node.Sources.{
  MediaRow, MediaVerdict.allowed, source_policy_match, find_media, screen_source, ModVerdict,
  gate_mod_request, answer_mod, mod_request,
}

-- A media source opens with a row of _media exactly if the peer is known, no row of _policy denies it
-- the source and some row allows it, and the source has that row.
pub screen_source_allowed_iff :
    (debug : Str → Str) {Json : Type 0} (db : Db Json) (media : Option (List MediaRow))
    (peer id name action : Str) (command content_type : Str) (accepts : Option Str)
    → ((screen_source debug db media peer id name action).0 ≡ allowed command content_type accepts)
      ↔ ((peer_known db peer ≡ true)
          × (source_policy_match db.policy peer name action (codes "deny") ≡ false)
          × (source_policy_match db.policy peer name action (codes "allow") ≡ true)
          × ((r : MediaRow) × (find_media name media ≡ some r)
              × (r.command ≡ command)
              × (r.content_type ≡ content_type)
              × (r.accepts ≡ accepts)))
unfolding screen_source
screen_source_allowed_iff debug db media peer id name action command content_type accepts =
    elim (Bool-cases (peer_known db peer)) [
      | inr unknown ↦ rw unknown (λ e. absurd (cc), λ h. absurd (cc))
      | inl known ↦
          elim (Bool-cases (source_policy_match db.policy peer name action (codes "deny"))) [
            | inl refused ↦ rw known (rw refused (λ e. absurd (cc), λ h. absurd (cc)))
            | inr unrefused ↦
                elim (Bool-cases (source_policy_match db.policy peer name action (codes "allow"))) [
                  | inr ungranted ↦
                      rw known (rw unrefused (rw ungranted (λ e. absurd (cc), λ h. absurd (cc))))
                  | inl granted ↦ elim (Option-cases (find_media name media)) [
                    | inl absent ↦ rw known (
                        rw unrefused (
                          rw granted (
                            rw absent (
                              λ e. absurd (cc),
                              λ h. let (k, d, a, m) = h in let (r, f, c, t, x) = m in absurd (cc),
                            ))))
                    | inr (r, f) ↦ rw known (rw unrefused (rw granted (rw f (found r))))
                  ]
                ]
          ]
    ]
  where
    found :
        (r : MediaRow)
        → (allowed r.command r.content_type r.accepts ≡ allowed command content_type accepts) ↔ (
            (true ≡ true)
            × (false ≡ false)
            × (true ≡ true)
            × ((q : MediaRow) × (some r ≡ some q)
                × (q.command ≡ command)
                × (q.content_type ≡ content_type)
                × (q.accepts ≡ accepts)))
    found r = (
      λ e. (refl, refl, refl, (r, refl, cc, cc, cc)),
      λ h.
          let (k, d, a, m) = h in
          let (q, f, c, t, x) = m in
          let same : r ≡ q = some_inj f in
          let c' : r.command ≡ command = ap (λ y. y.command) same ∙ c in
          let t' : r.content_type ≡ content_type = ap (λ y. y.content_type) same ∙ t in
          let x' : r.accepts ≡ accepts = ap (λ y. y.accepts) same ∙ x in cc,
    )

module _ {Json : Type 0} (p : Parsers) (tiers : List (Tier Json)) (peer id mod_name signal : Str)
    (db : Db Json) where
  -- A decision that lets a mod run.
  abbrev pub Lets : Decision → Type 0
  Lets allow = Unit
  Lets (allow_narrowed rewrite) = Unit
  Lets (deny reason) = ⊥
  Lets escalate = ⊥

  answer_mod_iff :
      (decision : Decision) (decided_by : Str)
      → ((answer_mod p tiers peer id mod_name signal
            (record { decision = decision; decided_by = decided_by })).0
          ≡ ModVerdict.allowed)
        ↔ Lets decision
  unfolding answer_mod
  answer_mod_iff allow decided_by = (λ e. tt, λ l. refl)
  answer_mod_iff (allow_narrowed rewrite) decided_by = (λ e. tt, λ l. refl)
  answer_mod_iff (deny reason) decided_by = (λ e. cc, λ l. absurd l)
  answer_mod_iff escalate decided_by = (λ e. cc, λ l. absurd l)

-- A peer may run a mod exactly if it is known and the chain allows the action of that mod, be it with a
-- rewriting, which is not looked at.
pub gate_mod_request_iff :
    {Json : Type 0} (p : Parsers) (tiers : List (Tier Json)) (peer id mod_name signal : Str)
    (db : Db Json)
    → ((gate_mod_request p tiers peer id mod_name signal db).0 ≡ ModVerdict.allowed) ↔ (
        (peer_known db peer ≡ true)
        × Lets p tiers peer id mod_name signal db
            ((decide p tiers (mod_request p tiers peer id mod_name signal) db).0.decision))
unfolding gate_mod_request
gate_mod_request_iff p tiers peer id mod_name signal db = elim (Bool-cases (peer_known db peer)) [
  | inr unknown ↦ rw unknown (λ e. absurd (cc), λ h. absurd (cc))
  | inl known ↦
      let decided = (decide p tiers (mod_request p tiers peer id mod_name signal) db).0 in
      let either =
        answer_mod_iff p tiers peer id mod_name signal db decided.decision decided.decided_by in
      rw known (λ e. (refl, either.0 e), λ h. either.1 h.1)
]
