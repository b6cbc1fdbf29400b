-- ===== src/Node/Authorizer/Known.antt =====
-- crates/node/src/footprint.rs: what the collect pass knows of a whole statement.
use rsntr.Base.{
  ◌≡◌, refl, sym, ap, ◌∙◌, subst, Bool, true, false, ◌||◌, none, List, [], ◌∷◌, arith, All, In,
  here, there, any, Str,
}
use rsntr.Node.Authorizer.{
  Lane, AuthAction, banned, CollectState, default_state, kind_of, finish, note_action, collect,
  collect_all, Approved, read_ok, write_ok,
}
use rsntr.Node.Authorizer.Tables.{Sorted}
use rsntr.Node.Authorizer.Collected.{
  tables_of, reads, touches, reads_by, touches_by, writes, is_pragma, note-Sorted,
  reads-note_action, touches-note_action, wrote-note_action, pragma-note_action,
}

pub any-In :
    (p : AuthAction → Bool) (a : AuthAction) (actions : List AuthAction)
    → In a actions
    → p a ≡ true
    → any p actions ≡ true
any-In p a [] missing e = elim missing [ ]
any-In p a (b ∷ actions) (here same) e = ground (arith, sym (ap p same) ∙ e)
any-In p a (b ∷ actions) (there later) e = ground (arith, any-In p a actions later e)

module _ (allowlist : List Str) (lane : Lane) where
  abbrev pub IsAllowed : AuthAction → Type 0
  IsAllowed a = banned a allowlist lane ≡ none

  pub collect-IsAllowed :
      (st : CollectState) (a : AuthAction)
      → IsAllowed a
      → (collect allowlist lane st a).1 ≡ note_action st a
  unfolding collect
  collect-IsAllowed st a fine = rw (collect, fine) refl

  -- What the collect pass knows behind actions none of which is banned, as sums over the actions.
  pub record Knows (st : CollectState) (actions : List AuthAction) (after : CollectState)
      : Type 0 where
    pub reads_sum :
        (t c : Str) → reads after t c ≡ (any (λ a. reads_by a t c) actions || reads st t c)
    pub touches_sum :
        (t : Str) → touches after t ≡ (any (λ a. touches_by a t) actions || touches st t)
    pub wrote_sum : after.wrote ≡ (any writes actions || st.wrote)
    pub pragma_sum : after.pragma_used ≡ (any is_pragma actions || st.pragma_used)

  or_left : (a b c : Bool) → (b || (a || c)) ≡ ((a || b) || c)
  or_left a b c = ground arith

  Knows-note :
      (st : CollectState) (a : AuthAction) (actions : List AuthAction) (after : CollectState)
      → Sorted (tables_of st)
      → Knows (note_action st a) actions after
      → Knows st (a ∷ actions) after
  Knows-note st a actions after sorted k = record {
    reads_sum = λ t c.
        k.reads_sum t c
        ∙ ap (λ b. any (λ x. reads_by x t c) actions || b) (reads-note_action st a t c sorted)
        ∙ or_left (reads_by a t c) (any (λ x. reads_by x t c) actions) (reads st t c);
    touches_sum = λ t.
        k.touches_sum t
        ∙ ap (λ b. any (λ x. touches_by x t) actions || b) (touches-note_action st a t sorted)
        ∙ or_left (touches_by a t) (any (λ x. touches_by x t) actions) (touches st t);
    wrote_sum =
        k.wrote_sum
        ∙ ap (λ b. any writes actions || b) (wrote-note_action st a)
        ∙ or_left (writes a) (any writes actions) st.wrote;
    pragma_sum =
        k.pragma_sum
        ∙ ap (λ b. any is_pragma actions || b) (pragma-note_action st a)
        ∙ or_left (is_pragma a) (any is_pragma actions) st.pragma_used;
  }

  Knows-collect_all :
      (actions : List AuthAction) (st : CollectState)
      → Sorted (tables_of st)
      → All IsAllowed actions
      → Knows st actions (collect_all allowlist lane st actions)
  unfolding collect_all
  Knows-collect_all [] st sorted fine = record {
    reads_sum = λ t c. refl;
    touches_sum = λ t. refl;
    wrote_sum = refl;
    pragma_sum = refl;
  }
  Knows-collect_all (a ∷ actions) st sorted (one, fine) =
      subst (λ s. Knows st (a ∷ actions) (collect_all allowlist lane s actions))
        (sym (collect-IsAllowed st a one))
        (Knows-note st a actions _ sorted
          (Knows-collect_all actions (note_action st a) (note-Sorted st a sorted) fine))

  -- The statement's actions, collected, and then approved on the same lane.
  abbrev pub approved : List AuthAction → Approved
  approved actions = record {
    footprint = finish (collect_all allowlist lane default_state actions);
    lane = lane;
  }

  pub known :
      (actions : List AuthAction)
      → All IsAllowed actions
      → Knows default_state actions (collect_all allowlist lane default_state actions)
  known actions fine = Knows-collect_all actions default_state tt fine

  pub All-In :
      (a : AuthAction) (actions : List AuthAction)
      → In a actions
      → All IsAllowed actions
      → IsAllowed a
  All-In a [] missing fine = elim missing [ ]
  All-In a (b ∷ actions) (here same) (one, fine) = subst (λ x. IsAllowed x) (sym same) one
  All-In a (b ∷ actions) (there later) (one, fine) = All-In a actions later fine

  pub known_reads :
      (actions : List AuthAction) (t c : Str)
      → All IsAllowed actions
      → read_ok (approved actions) t c ≡ any (λ a. reads_by a t c) actions
  unfolding read_ok finish
  known_reads actions t c fine =
      (known actions fine).reads_sum t c ∙ or_false (any (λ a. reads_by a t c) actions)
    where
      or_false : (b : Bool) → (b || false) ≡ b
      or_false b = ground arith

  -- A write of the statement is let through on a table that the statement touches.
  pub known_writes :
      (actions : List AuthAction) (t : Str)
      → All IsAllowed actions
      → any writes actions ≡ true
      → any (λ a. touches_by a t) actions ≡ true
      → write_ok (approved actions) t ≡ true
  unfolding write_ok finish kind_of
  known_writes actions t fine wrote touched =
      let k = known actions fine in
      let e : (collect_all allowlist lane default_state actions).wrote ≡ true =
        k.wrote_sum ∙ rw wrote refl in
      let f : touches (collect_all allowlist lane default_state actions) t ≡ true =
        k.touches_sum t ∙ rw touched refl in
      rw (e, f) refl
