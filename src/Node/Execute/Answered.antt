-- ===== src/Node/Execute/Answered.antt =====
-- crates/node/src/pipeline.rs with crates/protocol/src/response.rs: whatever a job does, the client
-- gets a whole response.
use rsntr.Base.{
  ℕ, ◌≡◌, ◌≢◌, refl, inl, inr, Bool, true, false, none, some, List, [], ◌∷◌, ◌++◌, Str,
  Option-cases, Bool-cases,
}
use rsntr.Protocol.Envelope.{pos, Done, EnvelopeObject}
use rsntr.Protocol.Response.{ok, new, read_all}
use rsntr.Protocol.Response.Grammar.{Closes, Batches, IsResponse}
use rsntr.Protocol.Response.Accepts.{read_all_iff}
use rsntr.Web.Csv.{Value}
use rsntr.Node.Engine.{interrupted, busy, other_error, Store, Query, Statement, Engine}
use rsntr.Node.Stream.{
  ExecJob, Halt, client_gone, denied, bad_param, sqlite, Emitted, Streamed, streamed, stopped,
  is_write,
}
use rsntr.Node.Execute.{
  Execution, halts, push_done, applied_header, answer_from_applied, insert_applied, commit_and_done,
  conclude, conclude_streamed, step_rows, execute_in_tx, sqlite_frame, last_frames, run_execute,
  first_batch, header_of,
}
use rsntr.Node.Execute.Cases.{execute_in_tx_cases}
use rsntr.Node.Execute.Frames.{Runs, stream_rows-Runs}

module _ {Real Tables : Type 0} (Body : Type 0) (engine : Engine Real Tables)
    (job : ExecJob Real) where
  -- The client gets a whole response.
  abbrev pub Complete : Execution Real Tables Body → Type 0
  Complete x = IsResponse job.id 0 (last_frames Body engine none job.id x.frames x.outcome)

  abbrev Open : List (EnvelopeObject (Value Real) Body) → Type 0
  Open frames =
      (closing : List (EnvelopeObject (Value Real) Body))
      → Closes job.id closing
      → IsResponse job.id 0 (frames ++ closing)

  halts-Complete :
      (frames : List (EnvelopeObject (Value Real) Body)) (db : Store Tables) (h : Halt)
      → Open frames
      → h ≢ client_gone
      → Complete (halts Body engine none frames db h)
  unfolding last_frames sqlite_frame
  halts-Complete frames db client_gone o n = absurd (n refl)
  halts-Complete frames db (denied reason) o n = o _ (Closes.error _ refl)
  halts-Complete frames db (bad_param m) o n = o _ (Closes.error _ refl)
  halts-Complete frames db (sqlite (interrupted true)) o n = o _ (Closes.error _ refl)
  halts-Complete frames db (sqlite (interrupted false)) o n = o _ (Closes.error _ refl)
  halts-Complete frames db (sqlite busy) o n = o _ (Closes.error _ refl)
  halts-Complete frames db (sqlite (other_error m)) o n = o _ (Closes.error _ refl)

  -- before the header, an error is the whole response
  halts_first :
      (db : Store Tables) (h : Halt) → h ≢ client_gone → Complete (halts Body engine none [] db h)
  unfolding last_frames sqlite_frame
  halts_first db client_gone n = absurd (n refl)
  halts_first db (denied reason) n = IsResponse.failure _ refl
  halts_first db (bad_param m) n = IsResponse.failure _ refl
  halts_first db (sqlite (interrupted true)) n = IsResponse.failure _ refl
  halts_first db (sqlite (interrupted false)) n = IsResponse.failure _ refl
  halts_first db (sqlite busy) n = IsResponse.failure _ refl
  halts_first db (sqlite (other_error m)) n = IsResponse.failure _ refl

  push_done-Complete :
      (frames : List (EnvelopeObject (Value Real) Body)) (sent : ℕ) (d : Done) (db : Store Tables)
      (e : Emitted)
      → d.id ≡ job.id
      → Open frames
      → Complete (push_done Body engine none frames sent d db e)
  unfolding last_frames
  push_done-Complete frames sent d db e mine o = o _ (Closes.done d mine)

  commit_and_done-Complete :
      (frames : List (EnvelopeObject (Value Real) Body)) (sent : ℕ) (d : Done)
      (db db' : Store Tables) (e : Emitted)
      → d.id ≡ job.id
      → Open frames
      → Complete (commit_and_done Body engine none frames sent d db db' e)
  unfolding commit_and_done
  commit_and_done-Complete frames sent d db db' e mine o = elim (Option-cases (engine.commit db')) [
    | inl fine ↦ rw (fine, commit_and_done) (push_done-Complete frames sent d db' e mine o)
    | inr (error, bad) ↦
        rw (bad, commit_and_done) (halts-Complete frames db (sqlite error) o (λ eq. cc))
  ]

  conclude-Complete :
      (db : Store Tables) (q : Query Real Tables) (frames : List (EnvelopeObject (Value Real) Body))
      (sent seq bytes steps : ℕ) (truncated : Bool)
      → Open frames
      → Complete (conclude Body engine none job db q frames sent seq bytes steps truncated)
  unfolding conclude
  conclude-Complete db q frames sent seq bytes steps truncated o =
      elim (Bool-cases (is_write job)) [
        | inr reads ↦ rw reads (commit_and_done-Complete frames sent _ db (q.after steps) _ refl o)
        | inl writes ↦
            elim (Option-cases (
              insert_applied job.id (engine.to_json q.changes q.last_insert_rowid)
                (q.after steps))) [
                  | inl taken ↦ rw writes (
                      rw (taken, conclude)
                        (halts-Complete frames db (sqlite engine.failure) o (λ eq. cc)))
                  | inr (db', fresh) ↦ rw writes (
                      rw (fresh, conclude) (commit_and_done-Complete frames sent _ db db' _ refl o))
                ]
      ]

  header_only : (st : Statement Real Tables) → Open (header_of Body engine none job st ∷ [])
  header_only st closing c = IsResponse.table _ refl (Batches.close c)

  conclude_streamed-Complete :
      (db : Store Tables) (st : Statement Real Tables) (q : Query Real Tables)
      (frames : List (EnvelopeObject (Value Real) Body)) (end : Streamed)
      → Runs Body engine job st.column_names 0 (frames, end)
      → Complete (
          conclude_streamed Body engine none job db q
            (header_of Body engine none job st)
            frames
            end)
  unfolding conclude_streamed
  conclude_streamed-Complete db st q frames (stopped h) r =
      halts-Complete _ db h (λ closing c. IsResponse.table _ refl (r.0 closing c)) r.1
  conclude_streamed-Complete db st q frames (streamed sent seq bytes steps truncated) r =
      conclude-Complete db q _ sent seq bytes steps truncated
        (λ closing c. IsResponse.table _ refl (r.0 closing c))

  step_rows-Complete :
      (db : Store Tables) (st : Statement Real Tables) (q : Query Real Tables)
      → Complete (step_rows Body engine none job db st q)
  unfolding step_rows first_batch
  step_rows-Complete db st q = conclude_streamed-Complete db st q _ _ (
      stream_rows-Runs Body engine job st.column_names q.ending 0 0 q.rows
        (first_batch Body engine none st.column_names)
        (record { numbered = tt; declared = tt; counted = refl }))

  answer_from_applied-Complete :
      (json : Str) (db : Store Tables)
      → Complete (answer_from_applied Body engine none job.id json db)
  unfolding answer_from_applied
  answer_from_applied-Complete json db =
      push_done-Complete (applied_header Body engine none job.id ∷ []) 1
        (record {
          id = job.id;
          row_count = some (pos 0);
          affected_rows = (engine.from_json json).0;
          last_insert_rowid = (engine.from_json json).1;
          truncated = false;
        })
        db (record { rows_out = 0; bytes_out = 0 }) refl
        (λ closing c.
          IsResponse.table (record { id = job.id; columns = []; decl_types = [] }) refl
            (Batches.close c))

  execute_in_tx-Complete : (db : Store Tables) → Complete (execute_in_tx Body engine none job db)
  execute_in_tx-Complete db =
      execute_in_tx_cases Body engine none job db Complete
        (λ h n. halts_first db h (λ e. absurd (let f : true ≡ false = n e in cc)))
        (λ st h n. halts-Complete (header_of Body engine none job st ∷ []) db h (header_only st) n)
        (λ st q. step_rows-Complete db st q) (λ json w e. answer_from_applied-Complete json db)

-- Whatever the statement, the store and sqlite do, a client that does not hang up gets a whole
-- response: the reader of crates/protocol takes every frame of the job, and is finished at the end.
pub read_all-run_execute :
    {Real Tables : Type 0} (Body : Type 0) (engine : Engine Real Tables) (job : ExecJob Real)
    (db : Store Tables)
    → read_all (new job.id) (run_execute Body engine none job db).frames ≡ ok tt
unfolding run_execute
read_all-run_execute Body engine job db =
    (read_all_iff job.id _).1 (execute_in_tx-Complete Body engine job db)
