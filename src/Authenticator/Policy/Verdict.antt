-- ===== src/Authenticator/Policy/Verdict.antt =====
-- crates/authenticator/src/policy.rs: the answers of the tier.
use mathlib.Core.Path.{subst}
use rsntr.Base.{
  ◌≡◌, ◌↔◌, ◌≤◌, Bool, true, false, Option, none, some, List, [], ◌∷◌, refl, arith, All, In, here,
  there, Str, inl, inr, ◌⊎◌, ◌=s◌, =s_refl, codes, Bool-cases, ◌≢◌, some_inj, sym,
}
use rsntr.Authenticator.Types.{Footprint, has_denied, Decision, Decision.allow, Decision.deny}
use rsntr.Authenticator.Db.{PolicyRow, Db}
use rsntr.Authenticator.Policy.{
  Resolved, allowed, refused, unmatched, resolve, resources, decide_all, decide_rows, policy_decide,
  denial, star, matches, score, is_allow,
}
use rsntr.Authenticator.Policy.Precedence.{resolve_precedence, refuses}

Resolved-cases : (r : Resolved) → (r ≡ allowed) ⊎ (r ≡ refused) ⊎ (r ≡ unmatched)
Resolved-cases allowed = inl refl
Resolved-cases refused = inr (inl refl)
Resolved-cases unmatched = inr (inr refl)

abbrev pub Denies : Decision → Type 0
Denies d = (reason : Str) × (d ≡ deny reason)

module _ (rows : List PolicyRow) (peer action : Str) where
  abbrev pub AllAllowed : List Str → Type 0
  AllAllowed = All (λ table. resolve rows peer table action ≡ allowed)

  decide_all-missing : (tables : List Str) → decide_all rows peer action true tables ≢ allow
  unfolding decide_all
  decide_all-missing [] e = cc
  decide_all-missing (t ∷ ts) e = ground (arith, decide_all-missing ts)

  decide_all-allow :
      (tables : List Str) → (decide_all rows peer action false tables ≡ allow) ↔ AllAllowed tables
  unfolding decide_all
  decide_all-allow [] = (λ e. tt, λ h. refl)
  decide_all-allow (t ∷ ts) = ground (arith, decide_all-allow ts, decide_all-missing ts)

  -- Some table is refused.
  abbrev pub SomeRefused : List Str → Type 0
  SomeRefused tables = (t : Str) × In t tables × (resolve rows peer t action ≡ refused)

  SomeRefused-there : {t : Str} {ts : List Str} → SomeRefused ts → SomeRefused (t ∷ ts)
  SomeRefused-there (u, m, e) = (u, there m, e)

  decide_all_denied :
      (tables : List Str) (missing : Bool) (reason : Str)
      → decide_all rows peer action missing tables ≡ deny reason
      → SomeRefused tables
  unfolding decide_all
  decide_all_denied [] missing reason h = ground arith
  decide_all_denied (t ∷ ts) missing reason h = elim (Resolved-cases (resolve rows peer t action)) [
    | inl y ↦ SomeRefused-there (decide_all_denied ts missing reason (rw (y, decide_all) at h))
    | inr (inl n) ↦ (t, here refl, n)
    | inr (inr u) ↦ SomeRefused-there (decide_all_denied ts true reason (rw (u, decide_all) at h))
  ]

  SomeRefused-tail :
      {t : Str} {ts : List Str}
      → resolve rows peer t action ≢ refused
      → SomeRefused (t ∷ ts)
      → SomeRefused ts
  SomeRefused-tail ne (u, here e, h) = absurd (ne (subst Refuses e h))
    where
      Refuses : Str → Type 0
      Refuses t = resolve rows peer t action ≡ refused
  SomeRefused-tail ne (u, there m, h) = (u, m, h)

  decide_all-refused :
      (tables : List Str) (missing : Bool)
      → SomeRefused tables
      → Denies (decide_all rows peer action missing tables)
  unfolding decide_all denial
  decide_all-refused [] missing (u, m, h) = elim m [ ]
  decide_all-refused (t ∷ ts) missing h = elim (Resolved-cases (resolve rows peer t action)) [
    | inl y ↦ rw (y, decide_all) (decide_all-refused ts missing (SomeRefused-tail (cc) h))
    | inr (inl n) ↦ rw (n, decide_all) (denial peer t action, refl)
    | inr (inr u) ↦ rw (u, decide_all) (decide_all-refused ts true (SomeRefused-tail (cc) h))
  ]

module _ (peer action : Str) (footprint : Footprint) where
  AllowedIn : List PolicyRow → Type 0
  AllowedIn rows = AllAllowed rows peer action (resources footprint)

  RefusedIn : List PolicyRow → Type 0
  RefusedIn rows = SomeRefused rows peer action (resources footprint)

  decide_rows-allow :
      (table : Option (List PolicyRow))
      → (decide_rows table peer action footprint ≡ allow)
        ↔ ((rows : List PolicyRow) × (table ≡ some rows) × AllowedIn rows)
  unfolding decide_rows AllowedIn
  decide_rows-allow none = (λ e. cc, λ (rows, e, h). cc)
  decide_rows-allow (some found) =
      let law = decide_all-allow found peer action (resources footprint) in
      (λ e. (found, refl, law.0 e), λ (rows, e, h). law.1 (subst AllowedIn (sym (some_inj e)) h))

  decide_rows-deny :
      (table : Option (List PolicyRow))
      → Denies (decide_rows table peer action footprint)
        ↔ ((rows : List PolicyRow) × (table ≡ some rows) × RefusedIn rows)
  unfolding decide_rows RefusedIn
  decide_rows-deny none = (λ (reason, e). cc, λ (rows, e, h). cc)
  decide_rows-deny (some found) =
      let names = resources footprint in
      (
        λ (reason, e). (found, refl, decide_all_denied found peer action names false reason e),
        λ (rows, e, h).
            decide_all-refused found peer action names false (subst RefusedIn (sym (some_inj e)) h),
      )

module _ {Json : Type 0} (db : Db Json) (peer action : Str) (footprint : Footprint) where
  -- The tier allows exactly if the statement uses no denied construct, the table `_policy`
  -- exists, and every resource of the request resolves to an allowing row.
  pub policy_decide-allow : (policy_decide db peer action footprint ≡ allow) ↔ (
      (has_denied footprint ≡ false)
      × ((rows : List PolicyRow) × (db.policy ≡ some rows)
          × AllAllowed rows peer action (resources footprint)))
  unfolding policy_decide AllowedIn
  policy_decide-allow = elim (Bool-cases (has_denied footprint)) [
    | inl d ↦ rw d (λ e. cc, λ (e, h). cc)
    | inr n ↦
        let law = decide_rows-allow peer action footprint db.policy in
        rw n (λ e. (refl, law.0 e), λ (e, h). law.1 h)
  ]

  -- The tier denies exactly if the statement uses a denied construct, or the table exists and
  -- some resource resolves to a row that does not allow; it never narrows.
  pub policy_decide-deny : (Denies (policy_decide db peer action footprint)) ↔ (
      (has_denied footprint ≡ true)
      ⊎ ((rows : List PolicyRow) × (db.policy ≡ some rows)
          × SomeRefused rows peer action (resources footprint)))
  unfolding policy_decide RefusedIn
  policy_decide-deny = elim (Bool-cases (has_denied footprint)) [
    | inl d ↦ rw d (λ e. inl refl, λ h. (_, refl))
    | inr n ↦
        let law = decide_rows-deny peer action footprint db.policy in
        rw n (λ e. inr (law.0 e), λ h. elim h [ inl e ↦ cc | inr h ↦ law.1 h ])
  ]

-- A row that refuses at the highest score refuses, wherever it stands.
abbrev pub deny_row : Str → Str → Str → Option Str → PolicyRow
deny_row peer table action remark = record {
  peer_or_group = peer;
  table_name = table;
  action = action;
  effect = codes "deny";
  note = remark;
}

score-le : (r : PolicyRow) → score r ≤ 3
unfolding score
score-le r = ground arith

score-deny_row :
    (peer table action : Str) (remark : Option Str)
    → (peer =s star) ≡ false
    → (table =s star) ≡ false
    → score (deny_row peer table action remark) ≡ 3
unfolding score
score-deny_row peer table action remark p t = ground arith

refuses-deny_row :
    (peer table action : Str) (remark : Option Str)
    → refuses peer table action (deny_row peer table action remark) ≡ true
unfolding matches is_allow ◌=s◌
refuses-deny_row peer table action remark = rw (=s_refl action, =s_refl peer, =s_refl table)

-- Where a row of `_policy` denies one peer an action on one table, neither of the two being the
-- wildcard, the policy tier denies every request of that peer for that action that touches the table,
-- whatever other rows stand there. A tier that is asked before it may have answered.
pub deny_row_final :
    {Json : Type 0} (db : Db Json) (rows : List PolicyRow) (peer table action : Str)
    (remark : Option Str) (footprint : Footprint)
    → (peer =s star) ≡ false
    → (table =s star) ≡ false
    → In table (resources footprint)
    → db.policy ≡ some rows
    → In (deny_row peer table action remark) rows
    → Denies (policy_decide db peer action footprint)
deny_row_final db rows peer table action remark footprint p t touched there_is stored =
    (policy_decide-deny db peer action footprint).1 (
      inr (
        rows,
        there_is,
        (
          table,
          touched,
          (resolve_precedence peer table action rows).1.1 (
            deny_row peer table action remark,
            stored,
            refuses-deny_row peer table action remark,
            λ q m a. omega (arith, score-le q, score-deny_row peer table action remark p t),
          ),
        ),
      ))
