-- ===== src/Node/Execute.antt =====
-- crates/node/src/pipeline.rs: the execution of a cleared statement (`run_execute`, `execute_in_tx`,
-- `answer_from_applied`). A transaction that is not committed leaves no trace.
pub mod Cases
pub mod Frames
pub mod Answered
pub mod Once
pub mod Rollback
pub mod Delivered
pub mod Trailer
pub mod Sample
mod Examples
use rsntr.Base.{
  ℕ, suc, ◌+◌, ◌*◌, ◌/◌, Bool, true, false, not, ◌||◌, Option, none, some, List, [], ◌∷◌, ◌++◌,
  if◌then◌else◌, ltb, leb, ◌==◌, length, map, any, find, Str, codes, as_bytes, ◌=s◌,
}
use rsntr.Authenticator.Types.{ActionKind, ActionKind.read, ActionKind.write, ActionKind.other}
use rsntr.Authenticator.Chain.{get}
use rsntr.Protocol.Envelope.{ℤ, pos, negsuc, ResultHeader, Row, Done, ErrorEnvelope, EnvelopeObject}
use rsntr.Protocol.ErrorCode.{ErrorCode, auth_denied, timeout, limit_exceeded, engine_error, as_str}
use rsntr.Web.Csv.{Value, blob_ref}
use rsntr.Node.Authorizer.{AuthAction, Reason, Approved, enforce}
use rsntr.Node.Engine.{
  SqlError, interrupted, busy, other_error, Cell, null, integer, real, text, blob, Store, Query,
  Bound, bound, unbound, Statement, Engine,
}
use rsntr.Node.Limits.{Limits}
use rsntr.Node.Stream.{
  ExecJob, Halt, client_gone, denied, bad_param, sqlite, Emitted, Outcome, emitted, halted,
  Patience, is_there, byte_length, columns_estimate, header_estimate, is_write, is_blob_ref,
  cell_value, row_cells, row_from_sql, Batching, take_row, flushed, is_full, Streamed, streamed,
  stopped, flush_last, stream_rows,
}

-- What a job sends, the store that it leaves, and how it ends. The rows of `_applied` are kept without
-- the time of the write.
pub record Execution (Real Tables Body : Type 0) : Type 0 where
  pub frames : List (EnvelopeObject (Value Real) Body)
  pub store : Store Tables
  pub outcome : Outcome

module _ {Tables : Type 0} where
  -- INSERT INTO _applied, whose primary key is request_id
  unfoldable pub insert_applied : Str → Str → Store Tables → Option (Store Tables)
  insert_applied id json db = elim db.applied [
    | none ↦ none
    | some rows ↦
        if any (λ row. row.0 =s id) rows
        then none
        else some (record { applied = some (rows ++ (id, json) ∷ []); tables = db.tables })
  ]

  -- the row of `_applied`; the outer `none` is a missing table
  unfoldable pub recorded : Str → Store Tables → Option (Option Str)
  unfolding get
  recorded id db = elim db.applied [ none ↦ none | some rows ↦ some (get id rows) ]

-- The reason of the first action that the enforce pass denies.
unfoldable pub first_denied : Approved → List Str → List AuthAction → Option Reason
unfolding enforce
first_denied approved allowlist [] = none
first_denied approved allowlist (action ∷ actions) = elim (enforce approved allowlist action) [
  | some reason ↦ some reason
  | none ↦ first_denied approved allowlist actions
]

module _ {Real Tables : Type 0} (Body : Type 0) (engine : Engine Real Tables)
    (patience : Patience) where
  abbrev pub halts :
      List (EnvelopeObject (Value Real) Body) → Store Tables → Halt → Execution Real Tables Body
  halts frames db h = record { frames = frames; store = db; outcome = halted h }

  -- push_frame of the last frame, and what follows it
  abbrev pub push_done :
      List (EnvelopeObject (Value Real) Body)
      → ℕ
      → Done
      → Store Tables
      → Emitted
      → Execution Real Tables Body
  push_done frames sent d db e =
      if is_there patience sent
      then record { frames = frames ++ EnvelopeObject.done d ∷ []; store = db; outcome = emitted e }
      else halts frames db client_gone

  abbrev pub applied_header : Str → EnvelopeObject (Value Real) Body
  applied_header id = EnvelopeObject.result (record { id = id; columns = []; decl_types = [] })

  unfoldable pub answer_from_applied : Str → Str → Store Tables → Execution Real Tables Body
  answer_from_applied id json db =
      let (affected, last_rowid) = engine.from_json json in
      if is_there patience 0
      then push_done (applied_header id ∷ []) 1
          (record {
            id = id;
            row_count = some (pos 0);
            affected_rows = affected;
            last_insert_rowid = last_rowid;
            truncated = false;
          })
          db (record { rows_out = 0; bytes_out = 0 })
      else halts [] db client_gone

  -- the commit, and the trailer
  unfoldable pub commit_and_done :
      List (EnvelopeObject (Value Real) Body)
      → ℕ
      → Done
      → Store Tables
      → Store Tables
      → Emitted
      → Execution Real Tables Body
  commit_and_done frames sent d db db' e = elim (engine.commit db') [
    | some error ↦ halts frames db (sqlite error)
    | none ↦ push_done frames sent d db' e
  ]

  -- behind the rows: the record of a write, the commit and the trailer
  unfoldable pub conclude :
      ExecJob Real
      → Store Tables
      → Query Real Tables
      → List (EnvelopeObject (Value Real) Body)
      → (sent seq bytes_out steps : ℕ) → Bool
      → Execution Real Tables Body
  unfolding insert_applied commit_and_done
  conclude job db q frames sent seq bytes_out steps truncated =
      let emits : Emitted = record { rows_out = seq; bytes_out = bytes_out } in
      if is_write job
      then (elim (insert_applied job.id (engine.to_json q.changes q.last_insert_rowid)
          (q.after steps)) [
            | none ↦ halts frames db (sqlite engine.failure)
            | some db' ↦
                commit_and_done frames sent
                  (record {
                    id = job.id;
                    row_count = some (pos seq);
                    affected_rows = some q.changes;
                    last_insert_rowid = some q.last_insert_rowid;
                    truncated = truncated;
                  })
                  db db' emits
          ])
      else commit_and_done frames sent
          (record {
            id = job.id;
            row_count = some (pos seq);
            affected_rows = none;
            last_insert_rowid = none;
            truncated = truncated;
          })
          db (q.after steps) emits

  abbrev pub or_empty : Option Str → Str
  or_empty none = []
  or_empty (some s) = s

  abbrev pub header_of : ExecJob Real → Statement Real Tables → EnvelopeObject (Value Real) Body
  header_of job st =
      EnvelopeObject.result
        (record { id = job.id; columns = st.column_names; decl_types = map or_empty st.decl_types })

  abbrev pub first_batch : List Str → Batching Real
  unfolding header_estimate
  first_batch columns = record {
    sent = 1;
    seq = 0;
    bytes_out = header_estimate columns;
    batch = [];
    batch_bytes = 0;
  }

  -- What the loop leaves, behind the header.
  unfoldable pub conclude_streamed :
      ExecJob Real
      → Store Tables
      → Query Real Tables
      → EnvelopeObject (Value Real) Body
      → List (EnvelopeObject (Value Real) Body)
      → Streamed
      → Execution Real Tables Body
  unfolding conclude
  conclude_streamed job db q header frames (stopped h) = halts (header ∷ frames) db h
  conclude_streamed job db q header frames (streamed sent seq bytes_out steps truncated) =
      conclude job db q (header ∷ frames) sent seq bytes_out steps truncated

  -- behind the binding of the parameters
  unfoldable pub step_rows :
      ExecJob Real
      → Store Tables
      → Statement Real Tables
      → Query Real Tables
      → Execution Real Tables Body
  unfolding stream_rows conclude_streamed
  step_rows job db st q =
      let (frames, end) =
        stream_rows Body engine patience job st.column_names q.ending 0 q.rows
          (first_batch st.column_names) in
      conclude_streamed job db q (header_of job st) frames end

  -- behind the prepare
  unfoldable pub run_statement :
      ExecJob Real → Store Tables → Statement Real Tables → Execution Real Tables Body
  unfolding step_rows
  run_statement job db st =
      if not (is_there patience 0)
      then halts [] db client_gone
      else if any is_blob_ref job.params
      then halts (header_of job st ∷ []) db
          (bad_param (codes "rsntr:BlobRef parameters are not supported yet"))
      else elim (st.query job.params) [
        | unbound e ↦ halts (header_of job st ∷ []) db (sqlite e)
        | bound q ↦ step_rows job db st q
      ]

  -- behind the question whether a write was applied already
  unfoldable pub prepare_and_run : ExecJob Real → Store Tables → Execution Real Tables Body
  unfolding first_denied run_statement
  prepare_and_run job db =
      elim (first_denied job.approved job.pragma_allowlist (engine.actions job.sql db)) [
        | some reason ↦ halts [] db (denied (engine.reason_text reason))
        | none ↦ elim (engine.prepare job.sql db) [
          | none ↦ halts [] db (sqlite (engine.prepare_error job.sql db))
          | some st ↦ run_statement job db st
        ]
      ]

  unfoldable pub execute_in_tx : ExecJob Real → Store Tables → Execution Real Tables Body
  unfolding recorded answer_from_applied prepare_and_run
  execute_in_tx job db = elim (engine.begin (is_write job) db) [
    | some e ↦ halts [] db (sqlite e)
    | none ↦ if not (is_write job) then prepare_and_run job db else elim (recorded job.id db) [
      | none ↦ halts [] db (sqlite engine.failure)
      | some (some json) ↦ answer_from_applied job.id json db
      | some none ↦ prepare_and_run job db
    ]
  ]

  abbrev pub error_frame : Str → ErrorCode → Str → EnvelopeObject (Value Real) Body
  unfolding as_str
  error_frame id code reason =
      EnvelopeObject.error (record { id = some id; code = as_str code; reason = some reason })

  -- the code and the text for an error of sqlite
  unfoldable pub sqlite_frame : Str → SqlError → EnvelopeObject (Value Real) Body
  unfolding as_str
  sqlite_frame id (interrupted true) =
      error_frame id limit_exceeded (codes "VDBE step budget exhausted")
  sqlite_frame id (interrupted false) =
      error_frame id timeout
        (codes "wall-clock deadline elapsed; statement interrupted and rolled back")
  sqlite_frame id busy =
      error_frame id engine_error
        (codes "database busy: another process held the write lock longer than 5s; retry")
  sqlite_frame id (other_error message) = error_frame id engine_error message

  -- push_frame_lossy
  abbrev pub push_lossy :
      List (EnvelopeObject (Value Real) Body)
      → EnvelopeObject (Value Real) Body
      → List (EnvelopeObject (Value Real) Body)
  push_lossy frames frame =
      if is_there patience (length frames) then frames ++ frame ∷ [] else frames

  unfoldable pub last_frames :
      Str
      → List (EnvelopeObject (Value Real) Body)
      → Outcome
      → List (EnvelopeObject (Value Real) Body)
  unfolding sqlite_frame as_str
  last_frames id frames (emitted e) = frames
  last_frames id frames (halted client_gone) = frames
  last_frames id frames (halted (denied reason)) =
      push_lossy frames (error_frame id auth_denied reason)
  last_frames id frames (halted (bad_param msg)) =
      push_lossy frames (error_frame id engine_error msg)
  last_frames id frames (halted (sqlite e)) = push_lossy frames (sqlite_frame id e)

  -- What the job sends in all; its outcome goes to the row of `_audit` if it emitted.
  unfoldable pub run_execute : ExecJob Real → Store Tables → Execution Real Tables Body
  unfolding execute_in_tx last_frames
  run_execute job db =
      let x = execute_in_tx job db in
      record {
        frames = last_frames job.id x.frames x.outcome;
        store = x.store;
        outcome = x.outcome;
      }
