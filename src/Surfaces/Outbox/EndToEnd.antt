-- ===== src/Surfaces/Outbox/EndToEnd.antt =====
-- crates/surfaces/src/outbox.rs with crates/node/src/pipeline.rs: a row that reaches a node is settled.
use rsntr.Base.{◌≡◌, refl, ap, ◌∙◌, Bool, true, false, none, [], map, Str}
use rsntr.Protocol.Response.{new, read_all, is_finished}
use rsntr.Web.Csv.{Value}
use rsntr.Node.Engine.{Store, Engine}
use rsntr.Node.Stream.{ExecJob}
use rsntr.Node.Execute.{run_execute}
use rsntr.Node.Execute.Answered.{read_all-run_execute}
use rsntr.Surfaces.Outbox.{
  frame, Ended, outcome, truncated, retried, done, denied, error, Texts, Faults, conclude, World,
  Tables, OutboxRow, opened, settled, process_row, dialled, mark_sent,
}
use rsntr.Surfaces.Outbox.Settles.{EndsWell, read_frames-EndsWell}

module _ {Value Body : Type 0} (texts : Texts Value Body) where
  pub conclude-settled :
      (fails : Bool) (id : Str) (end : Ended) (t : Tables)
      → EndsWell texts end
      → (conclude texts fails id end t).0 ≡ settled
  unfolding conclude
  conclude-settled fails id (outcome done rows) t h = refl
  conclude-settled fails id (outcome (denied reason) rows) t h = refl
  conclude-settled fails id (outcome (error msg) rows) t h = refl
  conclude-settled fails id truncated t h = absurd h
  conclude-settled fails id retried t h = absurd h

-- From end to end: a row whose params can be read and whose peer resolves, sent to a node that executes
-- it under the row's id on the wire, is settled by this attempt, whatever the statement and the node's
-- sqlite do, where all frames arrive. The worker then drops the row's backoff; that the end is written
-- is for its own sqlite.
pub process_row-run_execute :
    {Real Store' : Type 0} (Body : Type 0) (w : World (Value Real) Body)
    (engine : Engine Real Store') (job : ExecJob Real) (db : Store Store') (faults : Faults)
    (row : OutboxRow) (t : Tables)
    → w.malformed row.params ≡ none
    → w.resolves row.peer ≡ true
    → w.request_id row.request_id ≡ job.id
    → (process_row w faults row
        (opened false (map (λ f. frame f) (run_execute Body engine none job db).frames))
        t).0
      ≡ settled
unfolding process_row dialled is_finished
process_row-run_execute Body w engine job db faults row t readable known same =
    let frames = (run_execute Body engine none job db).frames in
    rw (readable, process_row)
      (rw known (
        conclude-settled w.texts faults.end_fails row.request_id _
          (mark_sent faults.mark_fails row.request_id t)
          (read_frames-EndsWell w.texts frames (new (w.request_id row.request_id)) [] [] refl
            (ap (λ id. read_all (new id) frames) same ∙ read_all-run_execute Body engine job db))))
