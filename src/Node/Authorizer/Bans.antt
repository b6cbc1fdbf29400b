-- ===== src/Node/Authorizer/Bans.antt =====
-- crates/node/src/footprint.rs with crates/authenticator/src/policy.rs: a banned action reaches the
-- policy tier as a denied construct.
use rsntr.Base.{
  ◌≡◌, refl, ◌∙◌, subst, inl, inr, true, some, List, [], ◌∷◌, arith, In, here, there, Str,
  Option-cases,
}
use rsntr.Authenticator.Types.{Footprint, has_denied, deny_construct, set_insert}
use rsntr.Authenticator.Db.{Db}
use rsntr.Authenticator.Policy.{policy_decide}
use rsntr.Authenticator.Policy.Verdict.{Denies, policy_decide-deny}
use rsntr.Node.Authorizer.{
  Lane, AuthAction, Reason, banned, CollectState, default_state, finish, note_action, deny_action,
  collect, collect_all, insert,
}

set_insert-has :
    (a : Str) (xs : List Str) (f : Footprint) → f.denied ≡ set_insert a xs → has_denied f ≡ true
unfolding has_denied set_insert
set_insert-has a [] f e = rw e refl
set_insert-has a (x ∷ xs) f e = ground (arith, e)

note-denied :
    (st : CollectState) (a : AuthAction) → (note_action st a).footprint.denied ≡ st.footprint.denied
unfolding note_action
note-denied st (insert t) = refl
note-denied st a = refl

has_denied-eq : (f g : Footprint) → f.denied ≡ g.denied → has_denied f ≡ has_denied g
unfolding has_denied
has_denied-eq f g e = rw e refl

module _ (allowlist : List Str) (lane : Lane) where
  collect-banned :
      (st : CollectState) (a : AuthAction) (construct : Str) (reason : Reason)
      → banned a allowlist lane ≡ some (construct, reason)
      → has_denied ((collect allowlist lane st a).1.footprint) ≡ true
  unfolding collect deny_action deny_construct
  collect-banned st a construct reason e =
      rw (collect, e)
        (set_insert-has construct st.footprint.denied (deny_construct st.footprint construct) refl)

  collect_keeps :
      (st : CollectState) (a : AuthAction)
      → has_denied st.footprint ≡ true
      → has_denied ((collect allowlist lane st a).1.footprint) ≡ true
  unfolding collect
  collect_keeps st a h = elim (Option-cases (banned a allowlist lane)) [
    | inl fine ↦ rw (collect, fine) (has_denied-eq _ st.footprint (note-denied st a) ∙ h)
    | inr ((construct, reason), e) ↦ collect-banned st a construct reason e
  ]

  collect_all_keeps :
      (actions : List AuthAction) (st : CollectState)
      → has_denied st.footprint ≡ true
      → has_denied ((collect_all allowlist lane st actions).footprint) ≡ true
  unfolding collect_all
  collect_all_keeps [] st h = h
  collect_all_keeps (a ∷ actions) st h = collect_all_keeps actions _ (collect_keeps st a h)

  collect_all-banned :
      (actions : List AuthAction) (st : CollectState) (a : AuthAction) (construct : Str)
      (reason : Reason)
      → In a actions
      → banned a allowlist lane ≡ some (construct, reason)
      → has_denied ((collect_all allowlist lane st actions).footprint) ≡ true
  unfolding collect_all
  collect_all-banned [] st a construct reason missing e = elim missing [ ]
  collect_all-banned (b ∷ actions) st a construct reason (here same) e =
      collect_all_keeps actions _ (
        collect-banned st b construct reason
          (subst (λ x. banned x allowlist lane ≡ some (construct, reason)) same e))
  collect_all-banned (b ∷ actions) st a construct reason (there later) e =
      collect_all-banned actions _ a construct reason later e

-- A statement with a banned action somewhere is denied by the policy tier, for every peer and action
-- and whatever the tables hold.
pub policy_decide-collect_all :
    {Json : Type 0} (db : Db Json) (peer request : Str) (allowlist : List Str) (lane : Lane)
    (actions : List AuthAction) (a : AuthAction) (construct : Str) (reason : Reason)
    → In a actions
    → banned a allowlist lane ≡ some (construct, reason)
    → Denies
        (policy_decide db peer request (finish (collect_all allowlist lane default_state actions)))
unfolding finish
policy_decide-collect_all db peer request allowlist lane actions a construct reason m e =
    (policy_decide-deny db peer request
        (finish (collect_all allowlist lane default_state actions))).1
      (inl (
        has_denied-eq _ (collect_all allowlist lane default_state actions).footprint refl
        ∙ collect_all-banned allowlist lane actions default_state a construct reason m e))
