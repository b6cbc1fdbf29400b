-- ===== src/Node/Entrain.antt =====
-- crates/node/src/entrain.rs: the registry of the active entrainments. A sender and its receiver share
-- the channel, whose state stands in the registry; tokio's channels are the parameter `Channels`. The
-- map from ids is a list of pairs. An operation under the lock is one step.
pub mod Ids
pub mod Tables
use rsntr.Base.{
  ℕ, ◌+◌, ◌%◌, ◌^◌, Bool, true, false, Option, none, some, List, [], ◌∷◌, if◌then◌else◌, Str, ◌=s◌,
  ◌==◌, length, map,
}
use rsntr.Authenticator.Types.{set_collect}

-- `mpsc::channel` of a capacity, and what `try_send` leaves
pub record Channels (Chan : Type 0) : Type 0 where
  pub channel : ℕ → Chan
  pub try_send : Chan → Chan

pub record Sub (Chan : Type 0) : Type 0 where
  pub point : Str
  pub table : Option Str
  pub tx : Chan

pub record Entrainments (Chan : Type 0) : Type 0 where
  pub subs : List (ℕ × Sub Chan)
  pub next_id : ℕ

abbrev pub is_table : Str → Option Str → Bool
is_table table none = false
is_table table (some t) = t =s table

abbrev pub tables_of : {Chan : Type 0} → List (ℕ × Sub Chan) → List Str
tables_of [] = []
tables_of ((id, s) ∷ subs) = elim s.table [ none ↦ tables_of subs | some t ↦ t ∷ tables_of subs ]

module _ {Chan : Type 0} where
  abbrev pub new : Entrainments Chan
  new = record { subs = []; next_id = 0 }

  -- `HashMap::insert`: the value of a key that is there is replaced.
  unfoldable pub insert : ℕ → Sub Chan → List (ℕ × Sub Chan) → List (ℕ × Sub Chan)
  insert id s [] = (id, s) ∷ []
  insert id s ((i, t) ∷ subs) = if i == id then (id, s) ∷ subs else (i, t) ∷ insert id s subs

  unfoldable pub remove : ℕ → List (ℕ × Sub Chan) → List (ℕ × Sub Chan)
  remove id [] = []
  remove id ((i, t) ∷ subs) = if i == id then subs else (i, t) ∷ remove id subs

  unfoldable pub unsubscribe : ℕ → Entrainments Chan → Entrainments Chan
  unfolding remove
  unsubscribe id r = record { subs = remove id r.subs; next_id = r.next_id }

  unfoldable pub active : Entrainments Chan → ℕ
  active r = length r.subs

  -- Sorting and `dedup` make the list an ordered set.
  unfoldable pub subscribed_tables : Entrainments Chan → List Str
  unfolding set_collect
  subscribed_tables r = set_collect (tables_of r.subs)

  unfoldable pub close_all : Entrainments Chan → Entrainments Chan
  close_all r = record { subs = []; next_id = r.next_id }

module _ {Chan : Type 0} (channels : Channels Chan) where
  -- The id, whose channel the receiver reads; the counter is a u64.
  unfoldable pub subscribe : Str → Option Str → Entrainments Chan → ℕ × Entrainments Chan
  unfolding insert
  subscribe point table r = (
    r.next_id,
    record {
      subs =
          insert r.next_id (record { point = point; table = table; tx = channels.channel 1 })
            r.subs;
      next_id = (r.next_id + 1) % 2 ^ 64;
    },
  )

  abbrev pub signalled : Sub Chan → Sub Chan
  signalled s = record { point = s.point; table = s.table; tx = channels.try_send s.tx }

  -- the loop over the values
  unfoldable pub signal_where : (Sub Chan → Bool) → List (ℕ × Sub Chan) → List (ℕ × Sub Chan)
  signal_where test [] = []
  signal_where test ((id, s) ∷ subs) =
      let rest = signal_where test subs in (id, if test s then signalled s else s) ∷ rest

  unfoldable pub signal_table : Str → Entrainments Chan → Entrainments Chan
  unfolding signal_where
  signal_table table r = record {
    subs = signal_where (λ s. is_table table s.table) r.subs;
    next_id = r.next_id;
  }

  unfoldable pub signal_point : Str → Entrainments Chan → Entrainments Chan
  unfolding signal_where
  signal_point point r = record {
    subs = signal_where (λ s. s.point =s point) r.subs;
    next_id = r.next_id;
  }
