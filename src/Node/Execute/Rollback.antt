-- ===== src/Node/Execute/Rollback.antt =====
-- crates/node/src/pipeline.rs: an error of a job rolls its transaction back.
use rsntr.Base.{ℕ, ◌≡◌, ◌≢◌, refl, inl, inr, Bool, List, ◌∷◌, Str, Option-cases, Bool-cases}
use rsntr.Protocol.Envelope.{Done, EnvelopeObject}
use rsntr.Web.Csv.{Value}
use rsntr.Node.Engine.{Store, Query, Statement, Engine}
use rsntr.Node.Execute.Once.{answer_from_applied-store}
use rsntr.Node.Execute.Cases.{execute_in_tx_cases}
use rsntr.Node.Stream.{
  Patience, ExecJob, Halt, client_gone, Emitted, emitted, halted, Streamed, streamed, stopped,
  is_write, is_there,
}
use rsntr.Node.Execute.{
  Execution, answer_from_applied, insert_applied, commit_and_done, conclude, conclude_streamed,
  step_rows, execute_in_tx,
}

module _ {Real Tables : Type 0} (Body : Type 0) (engine : Engine Real Tables) (patience : Patience)
    (job : ExecJob Real) (db : Store Tables) where
  -- An error of the job, other than that the client hung up, leaves the store as it was.
  abbrev RollsBack : Execution Real Tables Body → Type 0
  RollsBack x = (h : Halt) → x.outcome ≡ halted h → (h ≡ client_gone → ⊥) → x.store ≡ db

  commit_and_done-RollsBack :
      (frames : List (EnvelopeObject (Value Real) Body)) (sent : ℕ) (d : Done) (db' : Store Tables)
      (e : Emitted)
      → RollsBack (commit_and_done Body engine patience frames sent d db db' e)
  unfolding commit_and_done
  commit_and_done-RollsBack frames sent d db' e h o n = elim (Option-cases (engine.commit db')) [
    | inr (error, bad) ↦ rw (bad, commit_and_done) refl
    | inl fine ↦ elim (Bool-cases (is_there patience sent)) [
      | inl there_is ↦
          absurd (
            let f : emitted e ≡ halted h = (rw there_is at (rw (fine, commit_and_done) at o)) in cc)
      | inr gone ↦ absurd (
          let f : halted client_gone ≡ halted h = (rw gone at (rw (fine, commit_and_done) at o)) in
          n (cc))
    ]
  ]

  conclude-RollsBack :
      (q : Query Real Tables) (frames : List (EnvelopeObject (Value Real) Body))
      (sent seq bytes steps : ℕ) (truncated : Bool)
      → RollsBack (conclude Body engine patience job db q frames sent seq bytes steps truncated)
  unfolding conclude
  conclude-RollsBack q frames sent seq bytes steps truncated = elim (Bool-cases (is_write job)) [
    | inr reads ↦ rw reads (commit_and_done-RollsBack frames sent _ (q.after steps) _)
    | inl writes ↦
        elim (Option-cases
          (insert_applied job.id (engine.to_json q.changes q.last_insert_rowid) (q.after steps))) [
            | inl taken ↦ rw writes (rw (taken, conclude) (λ h o n. refl))
            | inr (db', fresh) ↦
                rw writes (rw (fresh, conclude) (commit_and_done-RollsBack frames sent _ db' _))
          ]
  ]

  conclude_streamed-RollsBack :
      (q : Query Real Tables) (header : EnvelopeObject (Value Real) Body)
      (frames : List (EnvelopeObject (Value Real) Body)) (end : Streamed)
      → RollsBack (conclude_streamed Body engine patience job db q header frames end)
  unfolding conclude_streamed
  conclude_streamed-RollsBack q header frames (stopped h) = λ h o n. refl
  conclude_streamed-RollsBack q header frames (streamed sent seq bytes steps truncated) =
      conclude-RollsBack q (header ∷ frames) sent seq bytes steps truncated

  step_rows-RollsBack :
      (st : Statement Real Tables) (q : Query Real Tables)
      → RollsBack (step_rows Body engine patience job db st q)
  unfolding step_rows
  step_rows-RollsBack st q = conclude_streamed-RollsBack q _ _ _

  answer_from_applied-RollsBack :
      (json : Str) → RollsBack (answer_from_applied Body engine patience job.id json db)
  answer_from_applied-RollsBack json h o n =
      answer_from_applied-store Body engine patience job db json

-- Where a job ends with an error, be it a denial, a parameter that cannot be bound or an error of
-- sqlite, an interrupt included, the store is as it was, whatever rows were stepped to.
pub execute_in_tx-RollsBack :
    {Real Tables : Type 0} (Body : Type 0) (engine : Engine Real Tables) (patience : Patience)
    (job : ExecJob Real) (db : Store Tables) (h : Halt)
    → (execute_in_tx Body engine patience job db).outcome ≡ halted h
    → h ≢ client_gone
    → (execute_in_tx Body engine patience job db).store ≡ db
execute_in_tx-RollsBack Body engine patience job db h o n =
    execute_in_tx_cases Body engine patience job db (RollsBack Body engine patience job db)
      (λ h n h' o n'. refl) (λ st h n h' o n'. refl)
      (λ st q. step_rows-RollsBack Body engine patience job db st q)
      (λ json w r. answer_from_applied-RollsBack Body engine patience job db json) h o n
