-- ===== src/Node/Entrain/Ids.antt =====
-- crates/node/src/entrain.rs: the ids that the registry hands out.
use rsntr.Base.{
  ℕ, suc, ◌^◌, ◌<◌, ◌≡◌, refl, Bool, false, Option, List, [], ◌∷◌, Str, ◌==◌, arith, any,
}
use rsntr.Node.Entrain.{
  Channels, Sub, Entrainments, new, insert, remove, unsubscribe, close_all, subscribe, signal_where,
  signal_table, signal_point,
}

module _ {Chan : Type 0} (channels : Channels Chan) where
  -- The registries that are reached from the empty one, with the number of subscriptions so far.
  pub data Reached : ℕ → Entrainments Chan → Type 0 where
    starts : Reached 0 new
    subscribes :
        (n : ℕ) (r : Entrainments Chan) (point : Str) (table : Option Str)
        → Reached n r
        → Reached (suc n) (subscribe channels point table r).1
    unsubscribes :
        (n : ℕ) (r : Entrainments Chan) (id : ℕ) → Reached n r → Reached n (unsubscribe id r)
    signals_table :
        (n : ℕ) (r : Entrainments Chan) (table : Str)
        → Reached n r
        → Reached n (signal_table channels table r)
    signals_point :
        (n : ℕ) (r : Entrainments Chan) (point : Str)
        → Reached n r
        → Reached n (signal_point channels point r)
    closes : (n : ℕ) (r : Entrainments Chan) → Reached n r → Reached n (close_all r)

  abbrev Below : ℕ → List (ℕ × Sub Chan) → Type 0
  Below n [] = Unit
  Below n ((id, s) ∷ subs) = (id < n) × Below n subs

  insert-Below :
      (n : ℕ) (s : Sub Chan) (subs : List (ℕ × Sub Chan))
      → Below n subs
      → Below (suc n) (insert n s subs)
  unfolding insert
  insert-Below n s [] b = ground arith
  insert-Below n s ((i, t) ∷ subs) b = ground (arith, insert-Below n s subs)

  remove-Below : (n id : ℕ) (subs : List (ℕ × Sub Chan)) → Below n subs → Below n (remove id subs)
  unfolding remove
  remove-Below n id [] b = tt
  remove-Below n id ((i, t) ∷ subs) b = ground (arith, remove-Below n id subs)

  signal_where-Below :
      (n : ℕ) (test : Sub Chan → Bool) (subs : List (ℕ × Sub Chan))
      → Below n subs
      → Below n (signal_where channels test subs)
  unfolding signal_where
  signal_where-Below n test [] b = tt
  signal_where-Below n test ((i, t) ∷ subs) b = (b.0, signal_where-Below n test subs b.1)

  Reached-Below :
      {n : ℕ} {r : Entrainments Chan} → Reached n r → n < 2 ^ 64 → (r.next_id ≡ n) × Below n r.subs
  unfolding subscribe unsubscribe signal_table signal_point close_all
  Reached-Below starts h = (refl, tt)
  Reached-Below (subscribes n r point table q) h =
      let (e, b) = Reached-Below q (ground arith) in rw e (ground arith, insert-Below n _ r.subs b)
  Reached-Below (unsubscribes n r id q) h =
      let (e, b) = Reached-Below q h in (e, remove-Below n id r.subs b)
  Reached-Below (signals_table n r table q) h =
      let (e, b) = Reached-Below q h in (e, signal_where-Below n _ r.subs b)
  Reached-Below (signals_point n r point q) h =
      let (e, b) = Reached-Below q h in (e, signal_where-Below n _ r.subs b)
  Reached-Below (closes n r q) h = ((Reached-Below q h).0, tt)

  Below-any : (n : ℕ) (subs : List (ℕ × Sub Chan)) → Below n subs → any (λ e. e.0 == n) subs ≡ false
  Below-any n [] b = refl
  Below-any n ((i, t) ∷ subs) b = ground (arith, Below-any n subs)

  -- In every registry that is reached with fewer than 2 ^ 64 subscriptions, the next subscription gets
  -- an id that no active entrainment has.
  pub subscribe_fresh :
      (n : ℕ) (r : Entrainments Chan) (point : Str) (table : Option Str)
      → Reached n r
      → n < 2 ^ 64
      → any (λ e. e.0 == (subscribe channels point table r).0) r.subs ≡ false
  unfolding subscribe
  subscribe_fresh n r point table q h =
      let (e, b) = Reached-Below q h in rw e (Below-any n r.subs b)
