-- ===== src/Node/Execute/Examples.antt =====
-- Runs of the theorems on the execution of a statement: a write that returns two rows, of which the
-- row cap lets one pass.
use rsntr.Base.{
  ◌≡◌, ◌≤◌, ◌<◌, ◌⊎◌, refl, ◌++◌, length, none, some, List, [], ◌∷◌, codes, true, false,
}
use rsntr.Protocol.Envelope.{pos, negsuc, Done, EnvelopeObject}
use rsntr.Protocol.Response.{ok, new, read_all}
use rsntr.Web.Csv.{Value}
use rsntr.Node.Engine.{Cell.integer, Cell.null, busy}
use rsntr.Node.Limits.{RequestLimits, NodeConfig, effective}
use rsntr.Node.Limits.Ceilings.{calls_made, calls_made-bound}
use rsntr.Node.Stream.{Emitted, emitted, sqlite, byte_length}
use rsntr.Node.Execute.{execute_in_tx, run_execute, step_rows, first_batch}
use rsntr.Node.Execute.Answered.{read_all-run_execute}
use rsntr.Node.Execute.Once.{execute_in_tx_once}
use rsntr.Node.Execute.Rollback.{execute_in_tx-RollsBack}
use rsntr.Node.Execute.Delivered.{sent_rows, AreFirst}
use rsntr.Node.Execute.Trailer.{execute_in_tx-KeepsCaps, step_rows-SendsFirst}
use rsntr.Node.Execute.Sample.{rows_query, statement, engine, job, store}

read_all-run_execute_example :
    read_all (new (codes "r")) (run_execute Unit (engine none) none job store).frames ≡ ok tt
read_all-run_execute_example = read_all-run_execute Unit (engine none) job store

execute_in_tx-RollsBack_example :
    (execute_in_tx Unit (engine (some busy)) none job store).store ≡ store
unfolding execute_in_tx first_batch byte_length
execute_in_tx-RollsBack_example =
    execute_in_tx-RollsBack Unit (engine (some busy)) none job store (sqlite busy) refl (λ eq. cc)

abbrev finished : Emitted
finished = record { rows_out = 1; bytes_out = 138 }

execute_in_tx-KeepsCaps_example :
    let frames = (execute_in_tx Unit (engine none) none job store).frames in
    (1 ≡ length (sent_rows frames)) × (1 ≤ 1) × ((138 ≤ 1000) ⊎ (sent_rows frames ≡ []))
unfolding execute_in_tx first_batch byte_length
execute_in_tx-KeepsCaps_example =
    execute_in_tx-KeepsCaps Unit (engine none) none job store finished refl

step_rows-SendsFirst_example :
    let frames =
      (step_rows Unit (engine none) none job store (statement store) (rows_query store)).frames in
    AreFirst
      (λ bytes. bytes)
      (codes "n" ∷ [])
      0
      ((integer (pos 7) ∷ []) ∷ (null ∷ []) ∷ [])
      (sent_rows frames)
    × ((d : Done) × (before : List (EnvelopeObject (Value Unit) Unit)) × (frames
          ≡ before ++ EnvelopeObject.done d ∷ [])
        × (d.row_count ≡ some (pos (length (sent_rows frames))))
        × (d.truncated ≡ false → length (sent_rows frames) ≡ 2)
        × (d.truncated ≡ true → length (sent_rows frames) < 2))
unfolding step_rows first_batch byte_length
step_rows-SendsFirst_example =
    step_rows-SendsFirst Unit (engine none) none job store (statement store) (rows_query store)
      finished refl

execute_in_tx_once_example :
    let first = execute_in_tx Unit (engine none) none job store in
    let second = execute_in_tx Unit (engine none) (some 1) job first.store in
    ((first.store ≡ store) ⊎ (second.store ≡ first.store))
    × ((e : Emitted) → first.outcome ≡ emitted e → second.store ≡ first.store)
execute_in_tx_once_example =
    execute_in_tx_once Unit (engine none) none (some 1) job job store refl refl refl

abbrev asked : RequestLimits
asked = record { row_limit = some (pos 5); byte_limit = none; timeout_ms = some (negsuc 0) }

abbrev ceilings : NodeConfig
ceilings = record {
  max_rows = 3;
  max_response_bytes = 100;
  max_duration_ms = 10;
  vdbe_step_budget = 1200;
}

calls_made-bound_example :
    calls_made (effective asked ceilings) (false ∷ false ∷ false ∷ false ∷ []) 0 ≤ 3
unfolding effective
calls_made-bound_example =
    calls_made-bound (effective asked ceilings) (false ∷ false ∷ false ∷ false ∷ []) 0
