-- ===== src/Node/ModInstall/Approval.antt =====
-- crates/node/src/mod_install.rs with crates/authenticator/src/human.rs: the row of `_policy`
-- that the owner's approval of an installation writes, and what the gate reads from it.
pub mod Flow
use rsntr.Base.{
  ℕ, ◌≡◌, refl, sym, ap, ◌∙◌, true, false, ◌||◌, Option, some, List, [], ◌∷◌, ◌++◌, arith, Str,
  codes, ◌=s◌, =s_refl, Option-cases, inl, inr, subst,
}
use rsntr.Authenticator.Types.{from_tables, is_empty, table_names}
use rsntr.Authenticator.Db.{PolicyRow, DecisionRow, InboxRow, PeerRow, Db}
use rsntr.Authenticator.Cache.{record_decision}
use rsntr.Authenticator.Human.{
  ParkedParams, Codec, IsFaithful, is_nil, pending, insert_inbox, parked_row,
}
use rsntr.Authenticator.Inbox.{
  Result, remember_decision, effect_of, write_rules, answer_statement, apply_answer, answer_inbox,
  InboxAnswer, insert_policy, remember_tables, remembered_tables, write_grants,
}
use rsntr.Authenticator.Inbox.Answer.{Reads, marked, answer_inbox-eq}
use rsntr.Authenticator.Inbox.RoundTrip.{insert_inbox-find}
use rsntr.Node.ModInstall.{
  pending_answer, allowed, AuditRow, policy_matches, row_matches, peer_known, Parking, parked,
  failed, panicked, park_new, park_install, install_fingerprint, mod_footprint, gate,
}
use rsntr.Node.ModInstall.Gate.{Answers, MayInstall, granted-gate}
use rsntr.Node.ModInstall.Retry.{with_inbox, steps-pending, answer_parking-pending}

-- the row of `_policy` that remembers the approval
abbrev approval : Str → Str → Str → PolicyRow
approval peer request_id name = record {
  peer_or_group = peer;
  table_name = name;
  action = codes "mod-install";
  effect = codes "allow";
  note = some (codes "remembered from inbox " ++ request_id);
}

matches-append :
    (ps : List PolicyRow) (r : PolicyRow) (peer name action effect : Str)
    → policy_matches (some (ps ++ r ∷ [])) peer name action effect
      ≡ (policy_matches (some ps) peer name action effect || row_matches peer name action effect r)
unfolding policy_matches
matches-append [] r peer name action effect = ground arith
matches-append (p ∷ ps) r peer name action effect =
    ground (arith, matches-append ps r peer name action effect)

approval_deny :
    (peer request_id name : Str)
    → row_matches peer name (codes "mod-install") (codes "deny") (approval peer request_id name)
      ≡ false
unfolding row_matches ◌=s◌
approval_deny peer request_id name = refl

approval_allow :
    (peer request_id name : Str)
    → row_matches peer name (codes "mod-install") (codes "allow") (approval peer request_id name)
      ≡ true
unfolding row_matches
approval_allow peer request_id name =
    rw (=s_refl peer, =s_refl name, =s_refl (codes "mod-install"), =s_refl (codes "allow")) refl

module _ {Json : Type 0} (c : Codec Json) (sha256 : List ℕ → List ℕ) (now : ℕ)
    (ulid peer name signal : Str) where
  abbrev pub params_of : ParkedParams
  params_of = record {
    action = codes "mod-install";
    fingerprint = install_fingerprint c sha256 signal name;
    footprint = mod_footprint name;
  }

  pub record IsApproved (db after : Db Json) (ps : List PolicyRow) : Type 0 where
    pub policy : after.policy ≡ some (ps ++ approval peer ulid name ∷ [])
    pub rsntr : after.rsntr ≡ db.rsntr
    pub peers : after.peers ≡ db.peers

  abbrev pub Approves : Db Json → List PolicyRow → Type 0
  Approves db ps = IsApproved db (apply_answer now ulid peer (some params_of) true true [] db).1 ps

  answered_tables :
      (rsntr : Option (List (Str × Str))) (ps : List PolicyRow) (ds : List DecisionRow)
      (inbox : Option (List (InboxRow Json))) (peers : Option (List PeerRow))
      → Approves
          (record {
            rsntr = rsntr;
            policy = some ps;
            decisions = some ds;
            inbox = inbox;
            peers = peers;
          })
          ps
  unfolding apply_answer answer_statement remember_decision record_decision write_rules
      remember_tables insert_policy write_grants remembered_tables effect_of is_empty from_tables
      table_names
  answered_tables rsntr ps ds inbox peers = record { policy = refl; rsntr = refl; peers = refl }

  pub answered :
      (db : Db Json) (ps : List PolicyRow) (ds : List DecisionRow)
      → db.policy ≡ some ps
      → db.decisions ≡ some ds
      → Approves db ps
  answered db ps ds e k =
      subst
        (λ (policy : Option (List PolicyRow)).
          Approves
            (record {
              rsntr = db.rsntr;
              policy = policy;
              decisions = db.decisions;
              inbox = db.inbox;
              peers = db.peers;
            })
            ps)
        (sym e)
        (subst
          (λ (decisions : Option (List DecisionRow)).
            Approves
              (record {
                rsntr = db.rsntr;
                policy = some ps;
                decisions = decisions;
                inbox = db.inbox;
                peers = db.peers;
              })
              ps)
          (sym k) (answered_tables db.rsntr ps ds db.inbox db.peers))

  pub approved-MayInstall :
      (db after : Db Json) (ps : List PolicyRow)
      → IsApproved db after ps
      → db.policy ≡ some ps
      → peer_known db peer ≡ true
      → policy_matches db.policy peer name (codes "mod-install") (codes "deny") ≡ false
      → MayInstall after peer name []
  unfolding peer_known
  approved-MayInstall db after ps approved e known undue = (
    rw (approved.rsntr, approved.peers) known,
    (
      rw
          (
            approved.policy,
            matches-append ps (approval peer ulid name) peer name (codes "mod-install")
                (codes "deny"),
            (rw e at undue),
          )
          (approval_deny peer ulid name),
      rw
          (
            approved.policy,
            matches-append ps (approval peer ulid name) peer name (codes "mod-install")
                (codes "allow"),
            approval_allow peer ulid name,
          )
          (ground arith),
    ),
    tt,
  )
