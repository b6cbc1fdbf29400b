-- ===== src/Authenticator/Chain.antt =====
-- crates/authenticator/src/chain.rs: the tiers in the configured order, each under its mask. What
-- serde_json makes of the two configuration values is the parameter `Parsers`.
pub mod Masks
pub mod FirstAnswer
pub mod Config
use rsntr.Base.{
  ℕ, Bool, true, ◌||◌, Option, none, some, List, [], ◌∷◌, if◌then◌else◌, Str, codes, ◌=s◌, any,
  find,
}
use rsntr.Authenticator.Types.{
  Footprint, Decision, Decision.allow, Decision.allow_narrowed, Decision.deny, Decision.escalate,
}
use rsntr.Authenticator.Db.{Db}
use rsntr.Authenticator.Policy.{policy_decide}
use rsntr.Authenticator.Cache.{cache_decide}
use rsntr.Authenticator.Human.{Codec, human_decide}

-- The arguments of `decide`.
pub record Request : Type 0 where
  pub peer : Str
  pub action : Str
  pub footprint : Footprint
  pub statement : Str

-- A tier may write to the database, and may panic: then there is no decision.
pub record Tier (Json : Type 0) : Type 0 where
  pub name : Str
  pub decide : Request → Db Json → Option Decision × Db Json

pub record TierMask : Type 0 where
  pub allow : List Str
  pub allow_narrowed : List Str
  pub deny : List Str

abbrev lists : Str → List Str → Bool
lists action = any (λ a. a =s codes "*" || a =s action)

unfoldable pub permits : TierMask → Decision → Str → Bool
permits m allow action = lists action m.allow
permits m (allow_narrowed rewrite) action = lists action m.allow_narrowed
permits m (deny reason) action = lists action m.deny
permits m escalate action = true

pub record Decided : Type 0 where
  pub decision : Decision
  pub decided_by : Str

abbrev pub default_deny : Decided
default_deny = record {
  decision = deny (codes "no decider in the chain allowed the request");
  decided_by = codes "default";
}

pub record Parsers : Type 0 where
  pub parse_chain : Str → Option (List Str)
  pub parse_masks : Str → Option (List (Str × TierMask))

-- `HashMap::get` on an association list
unfoldable pub get {ℓ} : {V : Type ℓ} → Str → List (Str × V) → Option V
get key [] = none
get key ((k, v) ∷ m) = if k =s key then some v else get key m

unfoldable pub read_masks : Parsers → List Str → Option Str → List Str × List (Str × TierMask)
read_masks p names none = (names, [])
read_masks p names (some raw) = elim (p.parse_masks raw) [
  | none ↦ ([], [])
  | some masks ↦ (names, masks)
]

unfoldable pub read_names : Parsers → Option Str → Option Str → List Str × List (Str × TierMask)
unfolding read_masks
read_names p none masks = read_masks p [] masks
read_names p (some raw) masks = elim (p.parse_chain raw) [
  | none ↦ ([], [])
  | some names ↦ read_masks p names masks
]

-- `masks.get(name).is_none_or(|m| m.permits(&decision, action))`
unfoldable pub permitted : List (Str × TierMask) → Str → Decision → Str → Bool
unfolding permits get
permitted masks name decision action = elim (get name masks) [
  | none ↦ true
  | some m ↦ permits m decision action
]

-- What counts of a tier's outcome: `none` where the loop continues.
unfoldable pub judge : List (Str × TierMask) → Str → Str → Option Decision → Option Decision
unfolding permitted
judge masks name action none = none
judge masks name action (some escalate) = none
judge masks name action (some decision) =
    if permitted masks name decision action then some decision else none

module _ {Json : Type 0} where
  -- a missing table fails the query, which reads as an absent key
  unfoldable pub read_rsntr : Db Json → Str → Option Str
  unfolding get
  read_rsntr db key = elim db.rsntr [ none ↦ none | some rows ↦ get key rows ]

  unfoldable pub read_config : Parsers → Db Json → List Str × List (Str × TierMask)
  unfolding read_names
  read_config p db =
      read_names p (read_rsntr db (codes "auth_chain")) (read_rsntr db (codes "auth_masks"))

  -- `HashMap::insert` under the tier's own name
  unfoldable pub register : Tier Json → List (Tier Json) → List (Tier Json)
  register tier [] = tier ∷ []
  register tier (t ∷ tiers) = if t.name =s tier.name then tier ∷ tiers else t ∷ register tier tiers

  unfoldable pub tier_at : Str → List (Tier Json) → Option (Tier Json)
  tier_at name = find (λ t. t.name =s name)

  unfoldable pub run :
      List (Tier Json) → List (Str × TierMask) → Request → List Str → Db Json → Decided × Db Json
  unfolding judge tier_at
  run tiers masks req [] db = (default_deny, db)
  run tiers masks req (name ∷ names) db = elim (tier_at name tiers) [
    | none ↦ run tiers masks req names db
    | some tier ↦
        let (outcome, db') = tier.decide req db in
        elim (judge masks name req.action outcome) [
          | none ↦ run tiers masks req names db'
          | some decision ↦ (record { decision = decision; decided_by = name }, db')
        ]
  ]

  unfoldable pub decide : Parsers → List (Tier Json) → Request → Db Json → Decided × Db Json
  unfolding run read_config
  decide p tiers req db = let (names, masks) = read_config p db in run tiers masks req names db

  -- The built-in tiers; `now` is the time of the call, `ulid` the id that a parked row gets.
  abbrev pub cache_tier : (List ℕ → List ℕ) → ℕ → Tier Json
  cache_tier sha256 now = record {
    name = codes "cache";
    decide =
        λ r db. (some (cache_decide sha256 now db r.peer r.action r.footprint r.statement), db);
  }

  abbrev pub policy_tier : Tier Json
  policy_tier = record {
    name = codes "policy";
    decide = λ r db. (some (policy_decide db r.peer r.action r.footprint), db);
  }

  abbrev pub human_tier : Codec Json → (List ℕ → List ℕ) → ℕ → Str → Tier Json
  human_tier c sha256 now ulid = record {
    name = codes "human";
    decide = λ r db.
        let (d, db') = human_decide c sha256 now ulid db r.peer r.action r.footprint r.statement in
        (some d, db');
  }

  -- `script` is the script tier, where its feature is on.
  unfoldable pub with_builtin_tiers :
      Codec Json → (List ℕ → List ℕ) → ℕ → Str → Option (Tier Json) → List (Tier Json)
  unfolding register
  with_builtin_tiers c sha256 now ulid script =
      let two = register policy_tier (register (cache_tier sha256 now) []) in
      register (human_tier c sha256 now ulid)
        (elim script [ none ↦ two | some tier ↦ register tier two ])
