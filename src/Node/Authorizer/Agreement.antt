-- ===== src/Node/Authorizer/Agreement.antt =====
-- crates/node/src/footprint.rs: what the collect pass recorded, the enforce pass lets through, and no
-- other read.
use rsntr.Base.{
  ◌≡◌, ◌↔◌, ◌⊎◌, inl, inr, refl, sym, ◌∙◌, Bool, true, false, ◌&&◌, ◌||◌, none, some, List, [], ◌∷◌,
  arith, All, In, here, there, any, Str, ◌=s◌, =s_iff, =s_refl, Bool-cases, if◌then◌else◌,
}
use rsntr.Node.Authorizer.{
  Lane, is_owner, AuthAction, attach, detach, transaction, savepoint, select, recursive, pragma,
  function, insert, delete, read_column, update, ddl, unknown, Reason, banned, default_state,
  kind_of, finish, collect_all, Approved, permit, unless, enforce, is_other,
}
use rsntr.Node.Authorizer.Collected.{reads_by, touches_by, writes, is_pragma}
use rsntr.Node.Authorizer.Known.{
  IsAllowed, approved, known, any-In, All-In, known_reads, known_writes,
}

module _ (allowlist : List Str) (lane : Lane) where
  -- An action passes when it is not banned and its permission is given.
  enforce-permit :
      (approval : Approved) (a : AuthAction)
      → banned a allowlist approval.lane ≡ none
      → permit approval a ≡ none
      → enforce approval allowlist a ≡ none
  unfolding enforce
  enforce-permit approval a fine given = rw (enforce, fine) given

  owner_of :
      (a : AuthAction) (given : Bool) (r : Str × Reason)
      → (if given then none else some r) ≡ none
      → given ≡ true
  owner_of a true r e = refl
  owner_of a false r e = absurd (cc)

  -- A statement does not both write and use a pragma, or it runs on the owner's lane.
  abbrev pub Unmixed : List AuthAction → Type 0
  Unmixed actions = (is_owner lane ≡ true) ⊎ ((any writes actions && any is_pragma actions) ≡ false)

  pragma_kind :
      (actions : List AuthAction)
      → All (IsAllowed allowlist lane) actions
      → Unmixed actions
      → any is_pragma actions ≡ true
      → (is_owner lane || is_other (approved allowlist lane actions).footprint.kind) ≡ true
  unfolding finish kind_of
  pragma_kind actions fine (inl mine) used = rw mine refl
  pragma_kind actions fine (inr apart) used =
      let k = known allowlist lane actions fine in
      let e : (collect_all allowlist lane default_state actions).wrote ≡ false =
        k.wrote_sum ∙ ground (arith, apart, used) in
      let f : (collect_all allowlist lane default_state actions).pragma_used ≡ true =
        k.pragma_sum ∙ rw used refl in
      rw (e, f) (ground arith)

  permit_each :
      (actions : List AuthAction) (a : AuthAction)
      → All (IsAllowed allowlist lane) actions
      → Unmixed actions
      → In a actions
      → IsAllowed allowlist lane a
      → permit (approved allowlist lane actions) a ≡ none
  unfolding permit banned
  permit_each actions (read_column t c) fine apart m one =
      rw
        (
          known_reads allowlist lane actions t c fine,
          any-In (λ x. reads_by x t c) (read_column t c) actions m (rw (=s_refl t, =s_refl c) refl),
        )
        refl
  permit_each actions (insert t) fine apart m one =
      rw
        (known_writes allowlist lane actions t fine (any-In writes (insert t) actions m refl)
          (any-In (λ x. touches_by x t) (insert t) actions m (=s_refl t)))
        refl
  permit_each actions (delete t) fine apart m one =
      rw
        (known_writes allowlist lane actions t fine (any-In writes (delete t) actions m refl)
          (any-In (λ x. touches_by x t) (delete t) actions m (=s_refl t)))
        refl
  permit_each actions (update t c) fine apart m one =
      rw
        (
          known_writes allowlist lane actions t fine (any-In writes (update t c) actions m refl)
              (any-In (λ x. touches_by x t) (update t c) actions m (=s_refl t)),
          known_reads allowlist lane actions t c fine,
          any-In (λ x. reads_by x t c) (update t c) actions m (rw (=s_refl t, =s_refl c) refl),
        )
        refl
  permit_each actions (pragma name) fine apart m one =
      rw (pragma_kind actions fine apart (any-In is_pragma (pragma name) actions m refl)) refl
  permit_each actions select fine apart m one = refl
  permit_each actions recursive fine apart m one = refl
  permit_each actions (function name) fine apart m one = refl
  permit_each actions attach fine apart m one = absurd (cc)
  permit_each actions detach fine apart m one = absurd (cc)
  permit_each actions (unknown code) fine apart m one = absurd (cc)
  permit_each actions transaction fine apart m one =
      rw (owner_of transaction (is_owner lane) _ one) refl
  permit_each actions savepoint fine apart m one =
      rw (owner_of savepoint (is_owner lane) _ one) refl
  permit_each actions (ddl statement) fine apart m one =
      rw (owner_of (ddl statement) (is_owner lane) _ one) refl

-- What was decided can be executed: if no action of a statement is banned, and on the remote lane it
-- does not both write and use a pragma, then each of its actions passes under the footprint that was
-- collected from them.
pub enforce-collect :
    (allowlist : List Str) (lane : Lane) (actions : List AuthAction) (a : AuthAction)
    → All (IsAllowed allowlist lane) actions
    → Unmixed allowlist lane actions
    → In a actions
    → enforce (approved allowlist lane actions) allowlist a ≡ none
enforce-collect allowlist lane actions a fine apart m =
    enforce-permit allowlist lane (approved allowlist lane actions) a
      (All-In allowlist lane a actions m fine)
      (permit_each allowlist lane actions a fine apart m (All-In allowlist lane a actions m fine))

both_eq : (table t column c : Str) → (table =s t && column =s c) ≡ true → (table ≡ t) × (column ≡ c)
both_eq table t column c e = ground (arith, =s_iff table t, =s_iff column c)

reads_by-eq :
    (a : AuthAction) (t c : Str) → reads_by a t c ≡ true → (read_column t c ≡ a) ⊎ (update t c ≡ a)
reads_by-eq (read_column table column) t c e = let (p, q) = both_eq table t column c e in inl (cc)
reads_by-eq (update table column) t c e = let (p, q) = both_eq table t column c e in inr (cc)
reads_by-eq a t c e = absurd (cc)

In-reads_by :
    (actions : List AuthAction) (t c : Str)
    → any (λ a. reads_by a t c) actions ≡ true
    → In (read_column t c) actions ⊎ In (update t c) actions
In-reads_by [] t c e = absurd (cc)
In-reads_by (a ∷ actions) t c e = elim (Bool-cases (reads_by a t c)) [
  | inl mine ↦ elim (reads_by-eq a t c mine) [
    | inl same ↦ inl (here same)
    | inr same ↦ inr (here same)
  ]
  | inr differ ↦ elim (In-reads_by actions t c (ground (arith, differ))) [
    | inl later ↦ inl (there later)
    | inr later ↦ inr (there later)
  ]
]

unless-none : (given : Bool) (r : Reason) → unless given r ≡ none → given ≡ true
unless-none true r e = refl
unless-none false r e = absurd (cc)

-- The read of a column passes exactly if the statement whose actions were collected, none of them
-- banned, reads or updates that column.
pub enforce_read_iff :
    (allowlist : List Str) (lane : Lane) (actions : List AuthAction) (t c : Str)
    → All (IsAllowed allowlist lane) actions
    → (enforce (approved allowlist lane actions) allowlist (read_column t c) ≡ none)
      ↔ (In (read_column t c) actions ⊎ In (update t c) actions)
unfolding enforce permit banned
enforce_read_iff allowlist lane actions t c fine = (
  λ e.
      In-reads_by actions t c
        (sym (known_reads allowlist lane actions t c fine) ∙ unless-none _ _ e),
  λ m. rw (known_reads allowlist lane actions t c fine, any_of m) refl,
)
  where
    any_of :
        In (read_column t c) actions ⊎ In (update t c) actions
        → any (λ a. reads_by a t c) actions ≡ true
    any_of (inl m) =
        any-In (λ a. reads_by a t c) (read_column t c) actions m (rw (=s_refl t, =s_refl c) refl)
    any_of (inr m) =
        any-In (λ a. reads_by a t c) (update t c) actions m (rw (=s_refl t, =s_refl c) refl)
