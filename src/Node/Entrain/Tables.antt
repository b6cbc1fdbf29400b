-- ===== src/Node/Entrain/Tables.antt =====
-- crates/node/src/entrain.rs: the tables that the watcher of foreign writes signals.
use rsntr.Base.{
  ℕ, ◌≡◌, refl, sym, ap, ◌∙◌, Bool, true, false, ◌||◌, List, [], ◌∷◌, Str, ◌=s◌, =s_iff, arith, any,
  Option-cases, Bool-cases, inl, inr,
}
use rsntr.Authenticator.Types.{set_insert, set_collect}
use rsntr.Node.Entrain.{
  Channels, Sub, Entrainments, tables_of, is_table, subscribed_tables, signal_where, signal_table,
}

any-set_insert :
    (t a : Str) (s : List Str)
    → any (λ x. x =s t) (set_insert a s) ≡ (a =s t || any (λ x. x =s t) s)
unfolding set_insert
any-set_insert t a [] = ground arith
any-set_insert t a (x ∷ s) =
    ground (arith, any-set_insert t a s, =s_iff a x, =s_iff a t, =s_iff x t)

any-set_collect :
    (t : Str) (xs : List Str) → any (λ x. x =s t) (set_collect xs) ≡ any (λ x. x =s t) xs
unfolding set_collect
any-set_collect t [] = refl
any-set_collect t (x ∷ xs) = rw (any-set_insert t x (set_collect xs), any-set_collect t xs) refl

listens-any :
    {Chan : Type 0} (t : Str) (subs : List (ℕ × Sub Chan))
    → any (λ x. x =s t) (tables_of subs) ≡ any (λ e. is_table t e.1.table) subs
listens-any t [] = refl
listens-any t ((id, s) ∷ subs) = elim (Option-cases s.table) [
  | inl e ↦ rw e (listens-any t subs)
  | inr (a, e) ↦ rw e (rw (listens-any t subs) refl)
]

-- A table stands among the subscribed tables exactly if some active entrainment listens to it.
pub any-subscribed_tables :
    {Chan : Type 0} (t : Str) (r : Entrainments Chan)
    → any (λ x. x =s t) (subscribed_tables r) ≡ any (λ e. is_table t e.1.table) r.subs
unfolding subscribed_tables
any-subscribed_tables t r = any-set_collect t (tables_of r.subs) ∙ listens-any t r.subs

module _ {Chan : Type 0} (channels : Channels Chan) where
  signal_where_none :
      (test : Sub Chan → Bool) (subs : List (ℕ × Sub Chan))
      → any (λ e. test e.1) subs ≡ false
      → signal_where channels test subs ≡ subs
  unfolding signal_where
  signal_where_none test [] h = refl
  signal_where_none test ((id, s) ∷ subs) h = elim (Bool-cases (test s)) [
    | inl e ↦ absurd (let f : true ≡ false = (rw e at h) in cc)
    | inr e ↦ rw (e, signal_where_none test subs (rw e at h)) refl
  ]

  -- A signal for a table that is not among the subscribed tables changes nothing.
  pub signal_table_unlisted :
      (t : Str) (r : Entrainments Chan)
      → any (λ x. x =s t) (subscribed_tables r) ≡ false
      → signal_table channels t r ≡ r
  unfolding signal_table
  signal_table_unlisted t r h =
      ap (λ (subs : List (ℕ × Sub Chan)). record { subs = subs; next_id = r.next_id })
        (signal_where_none (λ s. is_table t s.table) r.subs (sym (any-subscribed_tables t r) ∙ h))
