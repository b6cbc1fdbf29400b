-- ===== src/Authenticator/Inbox/Keeps.antt =====
-- crates/authenticator/src/human.rs: which tables the steps of the answer flow leave alone,
-- whether they succeed or fail. `view` is the part of the database that is looked at.
use rsntr.Base.{
  inl, inr, ℕ, ◌≡◌, Bool, true, false, Option, none, some, List, [], ◌∷◌, refl, ap, ◌∙◌, arith, Str,
  if◌then◌else◌, Option-cases,
}
use rsntr.Authenticator.Db.{PolicyRow, DecisionRow, InboxRow, Db}
use rsntr.Authenticator.Cache.{record_decision}
use rsntr.Authenticator.Human.{ParkedParams}
use rsntr.Authenticator.Inbox.{
  AnswerError, bad_grant, Result, ok, err, Act, ◌>>=◌, pure, raise, insert_policy, grant_policy,
  write_grants, split_once, admit, write_rules, remember_decision, remember_tables, effect_of,
  answer_knock, answer_statement, apply_answer,
}

module _ {Json A B : Type 0} (m : Act Json A) (f : A → Act Json B) where
  continue : Result A × Db Json → Result B × Db Json
  continue (r, d) = elim r [ ok a ↦ f a d | err e ↦ (err e, d) ]

  -- A step that succeeds hands its value and its database on.
  pub bind_ok : {db db' : Db Json} {a : A} → m db ≡ (ok a, db') → (m >>= f) db ≡ f a db'
  unfolding continue
  bind_ok e = ap continue e

  -- A step that fails ends the flow.
  pub bind_err :
      {db db' : Db Json} {e : AnswerError} → m db ≡ (err e, db') → (m >>= f) db ≡ (err e, db')
  unfolding continue
  bind_err e = ap continue e

pub record Keeps {ℓ} {Json A : Type 0} {V : Type ℓ} (view : Db Json → V) (m : Act Json A)
    : Type ℓ where
  pub at : (db : Db Json) → view (m db).1 ≡ view db

module _ {ℓ} {Json : Type 0} {V : Type ℓ} {view : Db Json → V} where
  pub Keeps-pure : {A : Type 0} (a : A) → Keeps view (pure a)
  Keeps-pure a = record { at = λ db. refl }

  pub Keeps-raise : {A : Type 0} (e : AnswerError) → Keeps view (raise {A = A} e)
  Keeps-raise e = record { at = λ db. refl }

  pub Keeps-bind :
      {A B : Type 0} (m : Act Json A) (f : A → Act Json B)
      → Keeps view m
      → ((a : A) → Keeps view (f a))
      → Keeps view (m >>= f)
  Keeps-bind {A} {B} m f km kf = record { at = λ db. go (m db).0 (m db).1 ∙ km.at db }
    where
      go :
          (r : Result A) (db' : Db Json)
          → view
              (let x : Result B × Db Json = elim r [ ok a ↦ f a db' | err e ↦ (err e, db') ] in x).1
            ≡ view db'
      go (ok a) db' = (kf a).at db'
      go (err e) db' = refl

  pub Keeps-if :
      {A : Type 0} (b : Bool) (m n : Act Json A)
      → Keeps view m
      → Keeps view n
      → Keeps view (if b then m else n)
  Keeps-if true m n km kn = km
  Keeps-if false m n km kn = kn

ruleset keeps_rules = (Keeps-pure, Keeps-raise, Keeps-bind, Keeps-if)

module _ {Json : Type 0} where
  -- The parts that the steps behind the marking may not write.
  abbrev pub inbox_of : Db Json → Option (List (InboxRow Json))
  inbox_of db = db.inbox

  abbrev pub decisions_of : Db Json → Option (List DecisionRow)
  decisions_of db = db.decisions

  insert_policy-inbox : (row : PolicyRow) → Keeps inbox_of (insert_policy row)
  unfolding insert_policy
  insert_policy-inbox row = record { at = λ db. ground arith }

  insert_policy-decisions : (row : PolicyRow) → Keeps decisions_of (insert_policy row)
  unfolding insert_policy
  insert_policy-decisions row = record { at = λ db. ground arith }

  grant_policy-inbox : (row : PolicyRow) → Keeps inbox_of (grant_policy row)
  unfolding grant_policy
  grant_policy-inbox row = record { at = λ db. ground arith }

  grant_policy-decisions : (row : PolicyRow) → Keeps decisions_of (grant_policy row)
  unfolding grant_policy
  grant_policy-decisions row = record { at = λ db. ground arith }

  admit-inbox : (now : ℕ) (peer request_id : Str) → Keeps inbox_of (admit now peer request_id)
  unfolding admit
  admit-inbox now peer request_id = record { at = λ db. ground arith }

  remember_decision-inbox :
      (now : ℕ) (peer fp decision request_id : Str)
      → Keeps inbox_of (remember_decision now peer fp decision request_id)
  unfolding remember_decision record_decision
  remember_decision-inbox now peer fp decision request_id = record { at = λ db. ground arith }

  module _ {ℓ} {V : Type ℓ} (view : Db Json → V)
      (inserts : (row : PolicyRow) → Keeps view (insert_policy row))
      (grants_keep : (row : PolicyRow) → Keeps view (grant_policy row)) where
    write_grants-Keeps :
        (peer request_id : Str) (grants : List Str)
        → Keeps view (write_grants peer request_id grants)
    unfolding write_grants
    write_grants-Keeps peer request_id [] = Keeps-pure []
    write_grants-Keeps peer request_id (g ∷ gs) = elim (Option-cases (split_once g)) [
      | inl n ↦ rw (n, write_grants) (Keeps-raise (bad_grant g))
      | inr ((table, action), e) ↦
          rw (e, write_grants)
            (Keeps-bind _ _ (grants_keep _) (λ _.
              Keeps-bind _ _ (write_grants-Keeps peer request_id gs)
                (λ more. Keeps-pure (g ∷ more))))
    ]

    remember_tables-Keeps :
        (peer request_id action effect : Str) (tables : List Str)
        → Keeps view (remember_tables peer request_id action effect tables)
    unfolding remember_tables
    remember_tables-Keeps peer request_id action effect [] = Keeps-pure []
    remember_tables-Keeps peer request_id action effect (t ∷ ts) = Keeps-bind _ _ (inserts _) (λ _.
        Keeps-bind _ _ (remember_tables-Keeps peer request_id action effect ts)
          (λ more. Keeps-pure (t ∷ more)))

    write_rules-Keeps :
        (request_id peer : Str) (parked : ParkedParams) (allow remember : Bool) (grants : List Str)
        → Keeps view (write_rules request_id peer parked allow remember grants)
    unfolding write_rules
    write_rules-Keeps request_id peer parked allow remember grants =
        Keeps-bind _ _
          (Keeps-if remember _ _ (remember_tables-Keeps peer request_id _ _ _) (Keeps-pure []))
          (λ remembered.
            Keeps-bind _ _
              (Keeps-if allow _ _ (write_grants-Keeps peer request_id grants) (Keeps-pure []))
              (λ granted. Keeps-pure _))

  -- Behind the marking, no step writes `_inbox`.
  pub apply_answer-inbox :
      (now : ℕ) (request_id peer : Str) (parked : Option ParkedParams) (allow remember : Bool)
      (grants : List Str)
      → Keeps inbox_of (apply_answer now request_id peer parked allow remember grants)
  unfolding apply_answer answer_knock answer_statement
  apply_answer-inbox now request_id peer none allow remember grants =
      Keeps-if allow _ _
        (Keeps-bind _ _ (admit-inbox now peer request_id) (λ _.
          Keeps-bind _ _
            (write_grants-Keeps inbox_of insert_policy-inbox grant_policy-inbox peer request_id
              grants)
            (λ granted. Keeps-pure _)))
        (Keeps-pure _)
  apply_answer-inbox now request_id peer (some p) allow remember grants =
      Keeps-bind _ _ (remember_decision-inbox now peer p.fingerprint (effect_of allow) request_id)
        (λ _.
          write_rules-Keeps inbox_of insert_policy-inbox grant_policy-inbox request_id peer p allow
            remember grants)

  -- Behind `record_decision`, no step writes `_decisions`.
  pub write_rules-decisions :
      (request_id peer : Str) (parked : ParkedParams) (allow remember : Bool) (grants : List Str)
      → Keeps decisions_of (write_rules request_id peer parked allow remember grants)
  write_rules-decisions =
      write_rules-Keeps decisions_of insert_policy-decisions grant_policy-decisions
