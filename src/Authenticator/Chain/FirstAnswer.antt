-- ===== src/Authenticator/Chain/FirstAnswer.antt =====
-- crates/authenticator/src/chain.rs: the chain as a relation. The first tier whose answer counts
-- decides; with none, the request is denied.
use rsntr.Base.{
  ◌≡◌, ◌≢◌, ◌↔◌, ◌⊎◌, inl, inr, true, Option, none, some, List, [], ◌∷◌, refl, sym, ap, ◌∙◌, subst,
  arith, if◌then◌else◌, Bool-cases, Option-cases, Str, some_inj,
}
use rsntr.Authenticator.Types.{Decision, Decision.escalate}
use rsntr.Authenticator.Db.{Db}
use rsntr.Authenticator.Chain.{
  Request, Tier, TierMask, Decided, default_deny, tier_at, permitted, judge, run, Parsers,
  read_config, decide,
}
use rsntr.Authenticator.Chain.Masks.{May, May-of_permitted, permitted_of_May}

module _ {Json : Type 0} (tiers : List (Tier Json)) (masks : List (Str × TierMask))
    (req : Request) where
  -- An outcome that does not count: a panic, an abstention, or a decision beyond the mask.
  abbrev pub Abstains : Str → Option Decision → Type 0
  Abstains name outcome =
      (outcome ≡ none)
      ⊎ (outcome ≡ some escalate)
      ⊎ ((d : Decision) × (outcome ≡ some d) × ¬ May masks name d req.action)

  -- The chain goes on behind this name: no tier has it, or its tier abstains.
  abbrev pub Passes : Str → Db Json → Db Json → Type 0
  Passes name db db' =
      ((tier_at name tiers ≡ none) × (db' ≡ db))
      ⊎ ((tier : Tier Json) × (tier_at name tiers ≡ some tier)
          × Abstains name (tier.decide req db).0
          × (db' ≡ (tier.decide req db).1))

  -- The tier of this name decides.
  abbrev pub Says : Str → Db Json → Decision → Db Json → Type 0
  Says name db d db' =
      (tier : Tier Json) × (tier_at name tiers ≡ some tier)
      × (tier.decide req db ≡ (some d, db'))
      × (d ≢ escalate)
      × May masks name d req.action

  pub data Answers (decided : Decided) (final : Db Json) : List Str → Db Json → Type 0 where
    nobody : {db : Db Json} → decided ≡ default_deny → final ≡ db → Answers decided final [] db
    passes :
        {name : Str} {names : List Str} {db db' : Db Json}
        → Passes name db db'
        → Answers decided final names db'
        → Answers decided final (name ∷ names) db
    says :
        {name : Str} {names : List Str} {db : Db Json} (d : Decision)
        → Says name db d final
        → decided ≡ record { decision = d; decided_by = name }
        → Answers decided final (name ∷ names) db

  counted :
      (name : Str) (x d : Decision)
      → x ≢ escalate
      → (if permitted masks name x req.action then some x else none) ≡ some d
      → (some x ≡ some d) × (d ≢ escalate) × May masks name d req.action
  counted name x d ne h = elim (Bool-cases (permitted masks name x req.action)) [
    | inl p ↦
        let e : x ≡ d = some_inj (rw p at h) in
        (
          ap some e,
          subst (λ z. z ≢ escalate) e ne,
          subst (λ z. May masks name z req.action) e (May-of_permitted masks name x req.action p),
        )
    | inr p ↦ absurd (let e : none ≡ some d = (rw p at h) in cc)
  ]

  judge-some :
      (name : Str) (outcome : Option Decision) (d : Decision)
      → judge masks name req.action outcome ≡ some d
      → (outcome ≡ some d) × (d ≢ escalate) × May masks name d req.action
  unfolding judge
  judge-some name none d h = absurd (cc)
  judge-some name (some escalate) d h = absurd (cc)
  judge-some name (some x) d h = counted name x d (λ e. cc) h

  not_counted :
      (name : Str) (x : Decision)
      → (if permitted masks name x req.action then some x else none) ≡ none
      → ¬ May masks name x req.action
  not_counted name x h may =
      let p : permitted masks name x req.action ≡ true =
        permitted_of_May masks name x req.action may in
      ground arith

  judge-none :
      (name : Str) (outcome : Option Decision)
      → judge masks name req.action outcome ≡ none
      → Abstains name outcome
  unfolding judge
  judge-none name none h = inl refl
  judge-none name (some escalate) h = inr (inl refl)
  judge-none name (some x) h = inr (inr (x, refl, not_counted name x h))

  judge_says :
      (name : Str) (d : Decision)
      → d ≢ escalate
      → May masks name d req.action
      → judge masks name req.action (some d) ≡ some d
  unfolding judge
  judge_says name escalate ne may = absurd (ne refl)
  judge_says name d ne may = rw (permitted_of_May masks name _ req.action may)

  judge-Abstains :
      (name : Str) (outcome : Option Decision)
      → Abstains name outcome
      → judge masks name req.action outcome ≡ none
  unfolding judge
  judge-Abstains name outcome (inl e) = rw (e, judge)
  judge-Abstains name outcome (inr (inl e)) = rw (e, judge)
  judge-Abstains name outcome (inr (inr (d, e, no_may))) =
      elim (Option-cases (judge masks name req.action outcome)) [
        | inl n ↦ n
        | inr (x, j) ↦
            let (e', ne, may) = judge-some name outcome x j in
            absurd (no_may (subst (λ z. May masks name z req.action) (some_inj (sym e' ∙ e)) may))
      ]

  run-Answers :
      (names : List Str) (db : Db Json)
      → Answers (run tiers masks req names db).0 (run tiers masks req names db).1 names db
  unfolding run
  run-Answers [] db = nobody refl refl
  run-Answers (name ∷ names) db = elim (Option-cases (tier_at name tiers)) [
    | inl n ↦ rw (n, run) (passes (inl (n, refl)) (run-Answers names db))
    | inr (tier, t) ↦ elim (Option-cases (judge masks name req.action (tier.decide req db).0)) [
      | inl n ↦
          rw (t, run)
            (rw (n, run)
              (passes (inr (tier, t, judge-none name _ n, refl))
                (run-Answers names (tier.decide req db).1)))
      | inr (d, j) ↦
          let (o, ne, may) = judge-some name _ d j in
          rw (t, run)
            (rw (j, run) (says d (tier, t, λ i. (o i, (tier.decide req db).1), ne, may) refl))
    ]
  ]

  Answers-run :
      {decided : Decided} {final : Db Json} {names : List Str} {db : Db Json}
      → Answers decided final names db
      → run tiers masks req names db ≡ (decided, final)
  unfolding run
  Answers-run (nobody d f) = λ i. (sym d i, sym f i)
  Answers-run (passes {names = names} (inl (n, e)) a) =
      rw (n, run) (ap (run tiers masks req names) (sym e) ∙ Answers-run a)
  Answers-run (passes {name = name} {names = names} (inr (tier, t, ab, e)) a) =
      rw (t, run)
        (rw (judge-Abstains name _ ab, run)
          (ap (run tiers masks req names) (sym e) ∙ Answers-run a))
  Answers-run (says {name = name} d (tier, t, o, ne, may) e) =
      rw (t, run) (rw (o, run) (rw (judge_says name d ne may, run) (λ i. (sym e i, (o i).1))))

  -- The loop is the relation: it ends with a decision and a database exactly if the names before
  -- some name pass in turn, each by having no tier, by a panic, by an abstention or by a decision
  -- that its mask forbids, and the tier of that name says the decision, which is no abstention
  -- and within its mask; or all the names pass, and the decision is the denial by default.
  pub run_iff :
      (names : List Str) (db final : Db Json) (decided : Decided)
      → (run tiers masks req names db ≡ (decided, final)) ↔ Answers decided final names db
  run_iff names db final decided = (
    λ e. subst (λ (r : Decided × Db Json). Answers r.0 r.1 names db) e (run-Answers names db),
    λ a. Answers-run a,
  )

  -- Whatever the names, the answer is no abstention, and an answer by default denies.
  Answers-decision :
      {decided : Decided} {final : Db Json} {names : List Str} {db : Db Json}
      → Answers decided final names db
      → decided.decision ≢ escalate
  Answers-decision (nobody d f) e = cc
  Answers-decision (passes p a) e = Answers-decision a e
  Answers-decision (says d (tier, t, o, ne, may) e) h =
      ne (sym (ap (λ (x : Decided). x.decision) e) ∙ h)

module _ {Json : Type 0} (p : Parsers) (tiers : List (Tier Json)) (req : Request)
    (db : Db Json) where
  -- The chain answers every request: it never abstains.
  pub decide-ne-escalate : (decide p tiers req db).0.decision ≢ escalate
  unfolding decide
  decide-ne-escalate =
      let (names, masks) = read_config p db in
      Answers-decision tiers masks req (run-Answers tiers masks req names db)
