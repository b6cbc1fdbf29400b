-- ===== src/Authenticator/Chain/Config.antt =====
-- crates/authenticator/src/chain.rs: configuration that cannot be read denies everything, and a
-- registry holds one tier for each name.
use rsntr.Base.{
  ◌≡◌, Option, none, some, List, [], ◌∷◌, refl, arith, if◌then◌else◌, Str, codes, ◌=s◌, =s_iff, ap,
}
use rsntr.Authenticator.Db.{Db}
use rsntr.Authenticator.Chain.{
  Request, Tier, Parsers, TierMask, read_masks, read_names, default_deny, read_rsntr, read_config,
  register, tier_at, run, decide,
}

-- The names of the configuration are empty.
abbrev NoNames : List Str × List (Str × TierMask) → Type 0
NoNames config = config.0 ≡ []

read_masks-NoNames : (p : Parsers) (masks : Option Str) → NoNames (read_masks p [] masks)
unfolding read_masks
read_masks-NoNames p none = refl
read_masks-NoNames p (some raw) = ground arith

read_names_bad_masks :
    (p : Parsers) (chain : Option Str) (raw : Str)
    → p.parse_masks raw ≡ none
    → NoNames (read_names p chain (some raw))
unfolding read_names
read_names_bad_masks p none raw n = read_masks-NoNames p (some raw)
read_names_bad_masks p (some c) raw n = unfold read_masks in ground arith

module _ {Json : Type 0} (p : Parsers) (tiers : List (Tier Json)) (req : Request)
    (db : Db Json) where
  -- One of the two values is there and cannot be parsed, or no chain is configured.
  pub data Unreadable : Type 0 where
    no_chain : read_rsntr db (codes "auth_chain") ≡ none → Unreadable
    bad_chain :
        (raw : Str)
        → read_rsntr db (codes "auth_chain") ≡ some raw
        → p.parse_chain raw ≡ none
        → Unreadable
    bad_masks :
        (raw : Str)
        → read_rsntr db (codes "auth_masks") ≡ some raw
        → p.parse_masks raw ≡ none
        → Unreadable

  read_config-NoNames : Unreadable → NoNames (read_config p db)
  unfolding read_config read_names
  read_config-NoNames (no_chain e) = rw (e, read_names) (read_masks-NoNames p _)
  read_config-NoNames (bad_chain raw e n) = rw (e, read_names) (rw n)
  read_config-NoNames (bad_masks raw e n) = rw e (read_names_bad_masks p _ raw n)

  -- With no chain, a chain that does not parse or masks that do not parse, every request is
  -- denied by default and no tier runs: the database is as it was.
  pub decide_unreadable : Unreadable → decide p tiers req db ≡ (default_deny, db)
  unfolding decide run
  decide_unreadable u =
      ap (λ names. run tiers (read_config p db).1 req names db) (read_config-NoNames u)

module _ {Json : Type 0} where
  -- Registering a tier puts it under its own name and leaves the other names as they were.
  pub tier_at-register :
      (tier : Tier Json) (tiers : List (Tier Json)) (name : Str)
      → tier_at name (register tier tiers)
        ≡ (if tier.name =s name then some tier else tier_at name tiers)
  unfolding tier_at register
  tier_at-register tier [] name = refl
  tier_at-register tier (t ∷ tiers) name = ground (
    arith,
    tier_at-register tier tiers name,
    =s_iff t.name tier.name,
    =s_iff t.name name,
    =s_iff tier.name name,
  )
