-- ===== src/Node/ModInstall/Gate.antt =====
-- crates/node/src/mod_install.rs: whom the gate lets install, and what it writes.
use rsntr.Base.{
  ℕ, ◌≡◌, ◌↔◌, refl, Bool, true, false, not, Option, some, List, [], ◌∷◌, arith, if◌then◌else◌, All,
  Str, codes,
}
use rsntr.Authenticator.Db.{PolicyRow, Db}
use rsntr.Authenticator.Human.{Codec}
use rsntr.Node.ModInstall.{
  GateAnswer, allowed, AuditRow, policy_matches, peer_known, Parking, parked, failed, panicked,
  park_install, lacks, missing_caps, cap_action, Outcome, answer_parking, answer_caps, gate,
}

-- The right to a cap: no row denies it, and some row allows it.
abbrev pub IsGranted : Option (List PolicyRow) → Str → Str → Str → Type 0
IsGranted policy peer name action =
    (policy_matches policy peer name action (codes "deny") ≡ false)
    × (policy_matches policy peer name action (codes "allow") ≡ true)

missing_caps-none :
    (policy : Option (List PolicyRow)) (peer name : Str) (caps : List Str)
    → (missing_caps policy peer name caps ≡ [])
      ↔ All (λ cap. IsGranted policy peer name (cap_action cap)) caps
unfolding missing_caps lacks
missing_caps-none policy peer name [] = ground arith
missing_caps-none policy peer name (cap ∷ caps) =
    ground (arith, missing_caps-none policy peer name caps)

-- What the outcome answers.
abbrev pub Answers : {Json : Type 0} → Outcome Json → GateAnswer → Type 0
Answers {Json} outcome answer =
    (row : AuditRow) × (after : Db Json) × (outcome ≡ some (answer, row, after))

module _ (debug : Str → Str) (error : Str) {Json : Type 0} (db : Db Json) (peer id name : Str) where
  answer_parking-allowed :
      (p : Parking Json) → ¬ Answers (answer_parking debug error db peer id name p) allowed
  answer_parking-allowed (parked rows) (row, after, e) = absurd (cc)
  answer_parking-allowed failed (row, after, e) = absurd (cc)
  answer_parking-allowed panicked (row, after, e) = absurd (cc)

  answer_caps-allowed :
      (missing : List Str)
      → Answers (answer_caps debug error db peer id name missing) allowed ↔ (missing ≡ [])
  answer_caps-allowed [] = (λ a. refl, λ e. (_, _, refl))
  answer_caps-allowed (cap ∷ missing) = ((λ (row, after, e). absurd (cc)), λ e. absurd (cc))

module _ {Json : Type 0} {unknown banned parking ceiling : Outcome Json}
    (unknown_no : ¬ Answers unknown allowed) (banned_no : ¬ Answers banned allowed)
    (parking_no : ¬ Answers parking allowed) where
  steps_allowed :
      (known undue due : Bool)
      → Answers
          (if not known
            then unknown
            else if undue
            then banned
            else if not due
            then parking
            else ceiling)
          allowed
      → (known ≡ true) × ((undue ≡ false) × (due ≡ true)) × Answers ceiling allowed
  steps_allowed false undue due a = absurd (unknown_no a)
  steps_allowed true true due a = absurd (banned_no a)
  steps_allowed true false false a = absurd (parking_no a)
  steps_allowed true false true a = (refl, (refl, refl), a)

-- What lets a peer install a mod that asks for these caps.
abbrev pub MayInstall : {Json : Type 0} → Db Json → Str → Str → List Str → Type 0
MayInstall db peer name caps =
    (peer_known db peer ≡ true)
    × IsGranted db.policy peer name (codes "mod-install")
    × All (λ cap. IsGranted db.policy peer name (cap_action cap)) caps

module _ (debug : Str → Str) (error : Str) {Json : Type 0} (c : Codec Json)
    (sha256 : List ℕ → List ℕ) (now : ℕ) (ulid : Str) (db : Db Json) (peer id name : Str)
    (caps : List Str) (signal : Str) where
  pub granted-gate :
      MayInstall db peer name caps
      → Answers (gate debug error c sha256 now ulid db peer id name caps signal) allowed
  unfolding gate
  granted-gate (known, (undenied, granted), ceiling) =
      rw (known, undenied, granted, (missing_caps-none db.policy peer name caps).1 ceiling)
        (_, _, refl)

  gate-granted :
      Answers (gate debug error c sha256 now ulid db peer id name caps signal) allowed
      → MayInstall db peer name caps
  unfolding gate
  gate-granted answers =
      let (known, right, rest) =
        steps_allowed (λ (row, after, e). absurd (cc)) (λ (row, after, e). absurd (cc))
          (answer_parking-allowed debug error db peer id name
            (park_install c sha256 now ulid db.inbox peer signal name))
          (peer_known db peer)
          (policy_matches db.policy peer name (codes "mod-install") (codes "deny"))
          (policy_matches db.policy peer name (codes "mod-install") (codes "allow")) answers in
      (
        known,
        right,
        (missing_caps-none db.policy peer name caps).0 (
            (answer_caps-allowed debug error db peer id name
                (missing_caps db.policy peer name caps)).0
              rest),
      )

  -- The gate lets a peer install a mod exactly if the peer is known, no row of `_policy` denies it the
  -- installation and some row allows it, and likewise for each cap that the mod asks for.
  pub gate_allowed_iff :
      Answers (gate debug error c sha256 now ulid db peer id name caps signal) allowed
      ↔ MayInstall db peer name caps
  gate_allowed_iff = (gate-granted, granted-gate)
