-- ===== src/Node/Execute/Cases.antt =====
-- crates/node/src/pipeline.rs: the ways in which a job ends, for proofs about every one of them.
use rsntr.Base.{
  ◌≡◌, refl, inl, inr, true, false, Option, none, some, [], ◌∷◌, any, Str, Option-cases, Bool-cases,
}
use rsntr.Node.Engine.{Store, Query, Bound, bound, unbound, Statement, Engine}
use rsntr.Node.Stream.{
  Patience, ExecJob, Halt, client_gone, sqlite, is_write, is_there, is_blob_ref,
}
use rsntr.Node.Execute.{
  Execution, halts, answer_from_applied, step_rows, run_statement, prepare_and_run, recorded,
  first_denied, execute_in_tx, header_of,
}

module _ {κ} {Real Tables : Type 0} (Body : Type 0) (engine : Engine Real Tables)
    (patience : Patience) (job : ExecJob Real) (db : Store Tables)
    (P : Execution Real Tables Body → Type κ)
    (first : (h : Halt)
      → (h ≡ client_gone → is_there patience 0 ≡ false)
      → P (halts Body engine patience [] db h))
    (opened : (st : Statement Real Tables) (h : Halt)
      → (h ≡ client_gone → ⊥)
      → P (halts Body engine patience (header_of Body engine patience job st ∷ []) db h))
    (stepped : (st : Statement Real Tables) (q : Query Real Tables)
      → P (step_rows Body engine patience job db st q)) where
  bound_cases :
      (st : Statement Real Tables) (b : Bound Real Tables)
      → P (elim b [
        | unbound e ↦
            halts Body engine patience (header_of Body engine patience job st ∷ []) db (sqlite e)
        | bound q ↦ step_rows Body engine patience job db st q
      ])
  bound_cases st (unbound e) = opened st (sqlite e) (λ eq. cc)
  bound_cases st (bound q) = stepped st q

  run_statement_cases :
      (st : Statement Real Tables) → P (run_statement Body engine patience job db st)
  unfolding run_statement
  run_statement_cases st = elim (Bool-cases (is_there patience 0)) [
    | inr gone ↦ rw gone (first client_gone (λ eq. gone))
    | inl taken ↦ elim (Bool-cases (any is_blob_ref job.params)) [
      | inl refs ↦ rw taken (rw refs (opened st _ (λ eq. cc)))
      | inr plain ↦ rw taken (rw plain (bound_cases st (st.query job.params)))
    ]
  ]

  prepare_and_run_cases : P (prepare_and_run Body engine patience job db)
  unfolding prepare_and_run
  prepare_and_run_cases =
      elim (Option-cases
        (first_denied job.approved job.pragma_allowlist (engine.actions job.sql db))) [
          | inr (reason, e) ↦ rw (e, prepare_and_run) (first _ (λ eq. absurd (cc)))
          | inl fine ↦ elim (Option-cases (engine.prepare job.sql db)) [
            | inl broken ↦
                rw (fine, prepare_and_run)
                  (rw (broken, prepare_and_run) (first _ (λ eq. absurd (cc))))
            | inr (st, e) ↦
                rw (fine, prepare_and_run) (rw (e, prepare_and_run) (run_statement_cases st))
          ]
        ]

  module _
      (answered : (json : Str)
        → is_write job ≡ true
        → recorded job.id db ≡ some (some json)
        → P (answer_from_applied Body engine patience job.id json db)) where
    found_cases :
        (found : Option (Option Str))
        → is_write job ≡ true
        → recorded job.id db ≡ found
        → P (elim found [
          | none ↦ halts Body engine patience [] db (sqlite engine.failure)
          | some (some json) ↦ answer_from_applied Body engine patience job.id json db
          | some none ↦ prepare_and_run Body engine patience job db
        ])
    found_cases none w e = first _ (λ eq. absurd (cc))
    found_cases (some none) w e = prepare_and_run_cases
    found_cases (some (some json)) w e = answered json w e

    -- A job ends before its header, with an error behind it, behind its rows, or with a recorded answer.
    pub execute_in_tx_cases : P (execute_in_tx Body engine patience job db)
    unfolding execute_in_tx
    execute_in_tx_cases = elim (Option-cases (engine.begin (is_write job) db)) [
      | inr (error, e) ↦ rw (e, execute_in_tx) (first _ (λ eq. absurd (cc)))
      | inl begun ↦ elim (Bool-cases (is_write job)) [
        | inr reads ↦ rw (begun, execute_in_tx) (rw reads prepare_and_run_cases)
        | inl writes ↦
            rw (begun, execute_in_tx) (rw writes (found_cases (recorded job.id db) writes refl))
      ]
    ]
