-- ===== src/Authenticator/Policy.antt =====
-- crates/authenticator/src/policy.rs: the tier that reads `_policy`.
pub mod Precedence
pub mod Verdict
use rsntr.Base.{
  ℕ, ◌+◌, Bool, true, false, not, ◌&&◌, ◌||◌, Option, none, some, List, [], ◌∷◌, ◌++◌,
  if◌then◌else◌, ltb, ◌==◌, Str, codes, ◌=s◌,
}
use rsntr.Authenticator.Types.{
  Footprint, has_denied, is_empty, table_names, Decision, Decision.allow, Decision.deny,
  Decision.escalate,
}
use rsntr.Authenticator.Db.{PolicyRow, Db}

pub data Resolved : Type 0 where
  allowed refused unmatched : Resolved

abbrev pub star : Str
star = codes "*"

-- the WHERE clause of the query
unfoldable pub matches : Str → Str → Str → PolicyRow → Bool
matches peer table action r =
    r.action =s action
    && (r.peer_or_group =s peer || r.peer_or_group =s star)
    && (r.table_name =s table || r.table_name =s star)

unfoldable pub score : PolicyRow → ℕ
score r =
    (if not (r.peer_or_group =s star) then 2 else 0) + (if not (r.table_name =s star) then 1 else 0)

unfoldable pub is_allow : PolicyRow → Bool
is_allow r = r.effect =s codes "allow"

-- the `match best` of the loop
unfoldable pub better : Option (ℕ × Bool) → ℕ → Bool → Option (ℕ × Bool)
better none n a = some (n, a)
better (some (s, b)) n a =
    if ltb s n then some (n, a) else if n == s then some (s, b && a) else some (s, b)

-- the loop over the rows that the query yields
unfoldable pub best_of : Str → Str → Str → Option (ℕ × Bool) → List PolicyRow → Option (ℕ × Bool)
unfolding better matches score is_allow
best_of peer table action best [] = best
best_of peer table action best (r ∷ rows) =
    best_of peer table action
      (if matches peer table action r then better best (score r) (is_allow r) else best) rows

unfoldable pub resolved : Option (ℕ × Bool) → Resolved
resolved none = unmatched
resolved (some (_, true)) = allowed
resolved (some (_, false)) = refused

unfoldable pub resolve : List PolicyRow → Str → Str → Str → Resolved
unfolding best_of resolved
resolve rows peer table action = resolved (best_of peer table action none rows)

-- `constructs.join(", ")`
unfoldable pub join : List Str → Str
join [] = []
join (x ∷ []) = x
join (x ∷ y ∷ xs) = x ++ codes ", " ++ join (y ∷ xs)

-- one wildcard resource for a request with no tables
unfoldable pub resources : Footprint → List Str
resources f = if is_empty f then star ∷ [] else table_names f

denial : Str → Str → Str → Str
denial peer table action =
    codes "policy: " ++ action ++ codes " on " ++ table ++ codes " denied for " ++ peer

-- the loop over the resources, with its flag
unfoldable pub decide_all : List PolicyRow → Str → Str → Bool → List Str → Decision
unfolding denial
decide_all rows peer action missing [] = if missing then escalate else allow
decide_all rows peer action missing (table ∷ tables) = elim (resolve rows peer table action) [
  | allowed ↦ decide_all rows peer action missing tables
  | refused ↦ deny (denial peer table action)
  | unmatched ↦ decide_all rows peer action true tables
]

-- A missing table fails the query of the first resource; there always is one.
unfoldable pub decide_rows : Option (List PolicyRow) → Str → Str → Footprint → Decision
unfolding decide_all resources
decide_rows none peer action footprint = escalate
decide_rows (some rows) peer action footprint =
    decide_all rows peer action false (resources footprint)

unfoldable pub policy_decide : {Json : Type 0} → Db Json → Str → Str → Footprint → Decision
unfolding decide_rows join
policy_decide db peer action footprint =
    if has_denied footprint
    then deny (codes "policy: statement uses denied constructs: " ++ join footprint.denied)
    else decide_rows db.policy peer action footprint
