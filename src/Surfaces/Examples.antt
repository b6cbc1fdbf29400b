-- ===== src/Surfaces/Examples.antt =====
-- Runs of the theorems on the outbox: a row that is sent to a node and one that is done.
use rsntr.Node.Stream.{row_from_sql, byte_length}
use rsntr.Base.{
  ◌≤◌, ◌≡◌, ◌≢◌, refl, sym, ap, ◌∙◌, true, false, none, some, [], ◌∷◌, map, In, here, there, arith,
  Str, codes, ◌=s◌, =s_iff,
}
use rsntr.Protocol.Envelope.{pos, EnvelopeObject}
use rsntr.Web.Csv.{Value}
use rsntr.Node.Engine.{Cell}
use rsntr.Node.Execute.{run_execute}
use rsntr.Surfaces.Wire.{Number, Json, row_to_json, value_to_json}
use rsntr.Surfaces.Wire.Rows.{row_to_json-row_from_sql}
use rsntr.Surfaces.Outbox.{
  queued, finished, OutboxRow, Tables, World, Turn, Worker, Faults, opened, dial_failed, frame,
  Received, settled, process_row, tick, backoff_delay, read_frames,
}
use rsntr.Surfaces.Outbox.Delay.{backoff_delay-bounds}
use rsntr.Surfaces.Outbox.EndToEnd.{process_row-run_execute}
use rsntr.Surfaces.Outbox.Results.{results_of, count_from}
use rsntr.Surfaces.Outbox.Closed.{tick_closed}
use rsntr.Surfaces.Outbox.Settled.{Lands, process_row-Lands, process_row-results}
use rsntr.Node.Execute.Sample.{engine, job, store}
use rsntr.Node.Limits.{min}
use rsntr.Surfaces.Worker.{Outside, worker_world}

abbrev no_number : Number Unit
no_number = record { as_i64 = none; as_f64 = none; text = [] }

row_to_json-row_from_sql_example :
    row_to_json
      (λ i. no_number)
      (λ f. none)
      (codes "a" ∷ codes "b" ∷ [])
      (record { seq = pos 3; cells = (codes "b", Value.text (codes "x")) ∷ [] })
    ≡ Json.null ∷ Json.string (codes "x") ∷ []
unfolding ◌=s◌ row_from_sql byte_length value_to_json
row_to_json-row_from_sql_example =
    row_to_json-row_from_sql (λ bytes. bytes) (λ i. no_number) (λ f. none)
      (codes "a" ∷ codes "b" ∷ []) 3 (Cell.null ∷ Cell.text (codes "x") ∷ [])
      (record { seq = pos 3; cells = (codes "b", Value.text (codes "x")) ∷ [] }) 62 refl
      ((refl, tt), (tt, tt)) refl

backoff_delay-bounds_example :
    (backoff_delay 1 500 60000 ≡ min 500 60000)
    × (backoff_delay 7 500 60000 ≤ 60000)
    × (backoff_delay 7 500 60000 ≤ backoff_delay 8 500 60000)
backoff_delay-bounds_example = backoff_delay-bounds 7 500 60000 (omega arith)

abbrev row : OutboxRow
row = record {
  request_id = codes "r";
  peer = codes "p";
  modulation = codes "sql-sqlite";
  signal = codes "INSERT";
  params = codes "[]";
  status = queued;
  error = none;
  created_at = codes "t";
}

abbrev done_row : OutboxRow
done_row = record {
  request_id = codes "d";
  peer = codes "p";
  modulation = codes "sql-sqlite";
  signal = codes "SELECT";
  params = codes "[]";
  status = finished;
  error = none;
  created_at = codes "s";
}

abbrev tables : Tables
tables = record {
  outbox = row ∷ done_row ∷ [];
  results = (codes "r", 0, codes "old") ∷ (codes "d", 0, codes "kept") ∷ [];
}

-- The worker of a node that knows no ULIDs and prints every id alike.
abbrev outside : Outside Unit Unit
outside = record {
  read = λ raw. some [];
  read_error = λ raw. [];
  ulid = λ stored. none;
  ulid_text = λ bytes. codes "r";
  debug = λ s. s;
  from_i64 = λ i. no_number;
  from_f64 = λ f. none;
  array_text = λ values. codes "row";
  string_text = λ s. s;
  graph_text = λ g. codes "graph";
}

-- thirty-two times the pair 0a
abbrev endpoint : Str
endpoint = codes "0a0a0a0a0a0a0a0a0a0a0a0a0a0a0a0a0a0a0a0a0a0a0a0a0a0a0a0a0a0a0a0a"

abbrev world : World (Value Unit) Unit
unfolding worker_world
world =
    worker_world outside (some (record { endpoint_id = endpoint; name = some (codes "p") } ∷ []))

abbrev faults : Faults
faults = record { mark_fails = true; end_fails = false }

process_row-run_execute_example :
    (process_row world faults row
      (opened false (map (λ f. frame f) (run_execute Unit (engine none) none job store).frames))
      tables).0
    ≡ settled
unfolding world ◌=s◌
process_row-run_execute_example =
    process_row-run_execute Unit world (engine none) job store faults row tables refl refl refl

process_row-Lands_example :
    Lands false (codes "r") tables (process_row world faults row dial_failed tables)
process_row-Lands_example = process_row-Lands world faults row dial_failed tables

abbrev finished_frame : Received (Value Unit) Unit
finished_frame =
    frame (EnvelopeObject.result (record { id = codes "r"; columns = []; decl_types = [] }))

abbrev trailer : Received (Value Unit) Unit
trailer = frame (
    EnvelopeObject.done (record {
      id = codes "r";
      row_count = some (pos 0);
      affected_rows = none;
      last_insert_rowid = none;
      truncated = false;
    }))

process_row-results_example :
    results_of
      (codes "r")
      ((process_row world faults row (opened false (finished_frame ∷ trailer ∷ [])) tables).1
        ).results
    ≡ count_from 0 []
unfolding read_frames ◌=s◌ world
process_row-results_example =
    process_row-results world faults row (finished_frame ∷ trailer ∷ []) [] tables refl refl refl

abbrev worker : Worker
worker = record { backoff = []; tables = tables }

abbrev turn : Turn (Value Unit) Unit
turn = record {
  now = 5;
  after = 6;
  age_secs = pos 1;
  dial = opened false (finished_frame ∷ trailer ∷ []);
  faults = faults;
}

ids_differ : codes "d" ≢ codes "r"
unfolding ◌=s◌
ids_differ e = absurd (let f : false ≡ true = (=s_iff (codes "d") (codes "r")).1 e in cc)

has_key :
    (q r : OutboxRow)
    → In q tables.outbox
    → In r tables.outbox
    → r.request_id ≡ q.request_id
    → r ≡ q
has_key q r (here a) (here b) e = b ∙ sym a
has_key q r (here a) (there (here b)) e =
    absurd (ids_differ (sym (ap (λ x. x.request_id) b) ∙ e ∙ ap (λ x. x.request_id) a))
has_key q r (there (here a)) (here b) e =
    absurd (ids_differ (sym (sym (ap (λ x. x.request_id) b) ∙ e ∙ ap (λ x. x.request_id) a)))
has_key q r (there (here a)) (there (here b)) e = b ∙ sym a
has_key q r (there (there m)) n e = elim m [ ]
has_key q r m (there (there n)) e = elim n [ ]

tick_closed_example :
    let t =
      (tick
        (record { base_backoff = 500; max_backoff = 60000; expiry_secs = 1000 })
        world
        false
        (λ id. turn)
        worker).tables in
    In done_row t.outbox
    × (results_of (codes "d") t.results ≡ results_of (codes "d") tables.results)
tick_closed_example =
    tick_closed (record { base_backoff = 500; max_backoff = 60000; expiry_secs = 1000 }) world false
      (λ id. turn) worker done_row has_key (there (here refl)) tt
