-- ===== src/Surfaces/Outbox.antt =====
-- crates/surfaces/src/outbox.rs: the worker that ships the rows of _outbox (`tick`, `process_row`,
-- `read_response`, `scan`, `mark_sent`, `mark_terminal`, `persist_done`, `backoff_delay`). Times are
-- nanoseconds of the monotonic clock. What the transport does for a row is an input of the step: a dial
-- that fails, or a stream that takes the request or not and then gives frames; which of the worker's
-- statements sqlite fails is another. No other connection writes within a tick; the times of completion
-- are left out.
pub mod Delay
pub mod Settles
pub mod Results
pub mod Moves
pub mod Closed
pub mod Settled
pub mod EndToEnd
use rsntr.Base.{
  ℕ, suc, ◌+◌, ◌-◌, ◌*◌, ◌^◌, Bool, true, false, not, ◌&&◌, ◌||◌, Option, none, some, List, [], ◌∷◌,
  ◌++◌, if◌then◌else◌, map, ltb, leb, any, Str, codes, ◌=s◌, str_lt,
}
use rsntr.Protocol.Envelope.{
  ℤ, pos, negsuc, Row, Graph, Generic, ResultHeader, Done, Denied, ErrorEnvelope, EnvelopeObject,
}
use rsntr.Protocol.Response.{Result, ok, err, ResponseEvent, ResponseReader, new, accept}
use rsntr.Authenticator.Chain.{get}
use rsntr.Node.Limits.{min}

-- `queued`, `sent` and the four terminal words
pub data Status : Type 0 where
  queued sent finished denied failed expired : Status

pub record OutboxRow : Type 0 where
  pub request_id : Str
  pub peer : Str
  pub modulation : Str
  pub signal : Str
  pub params : Str
  pub status : Status
  pub error : Option Str
  pub created_at : Str

-- `_outbox`, and `_results` with the request, the number and the text of a row
pub record Tables : Type 0 where
  pub outbox : List OutboxRow
  pub results : List (Str × ℕ × Str)

pub record OutboxConfig : Type 0 where
  pub base_backoff : ℕ
  pub max_backoff : ℕ
  pub expiry_secs : ℕ

pub record Backoff : Type 0 where
  pub attempts : ℕ
  pub next_attempt : ℕ

pub data Step : Type 0 where
  settled again : Step

pub data Outcome : Type 0 where
  done : Outcome
  denied error : Str → Outcome

-- `Duration::checked_mul`: seconds in a u64
abbrev pub checked : ℕ → Option ℕ
checked n = if ltb n (2 ^ 64 * 1000000000) then some n else none

abbrev pub or_max : ℕ → Option ℕ → ℕ
or_max max none = max
or_max max (some n) = n

unfoldable pub backoff_delay : ℕ → ℕ → ℕ → ℕ
backoff_delay attempts base max = min (or_max max (checked (base * 2 ^ min (attempts - 1) 20))) max

unfoldable pub is_open : Status → Bool
is_open queued = true
is_open sent = true
is_open _ = false

-- ORDER BY created_at
unfoldable pub insert_by_created : OutboxRow → List OutboxRow → List OutboxRow
insert_by_created r [] = r ∷ []
insert_by_created r (q ∷ rows) =
    if str_lt q.created_at r.created_at then q ∷ insert_by_created r rows else r ∷ q ∷ rows

unfoldable pub scan : List OutboxRow → List OutboxRow
unfolding is_open insert_by_created
scan [] = []
scan (r ∷ rows) = if is_open r.status then insert_by_created r (scan rows) else scan rows

abbrev pub with_status : OutboxRow → Status → Option Str → OutboxRow
with_status r status message = record {
  request_id = r.request_id;
  peer = r.peer;
  modulation = r.modulation;
  signal = r.signal;
  params = r.params;
  status = status;
  error = message;
  created_at = r.created_at;
}

abbrev pub if_queued : OutboxRow → OutboxRow
if_queued r = elim r.status [ queued ↦ with_status r sent r.error | _ ↦ r ]

-- UPDATE _outbox … WHERE request_id = ?1
abbrev pub update_row : Str → (OutboxRow → OutboxRow) → OutboxRow → OutboxRow
update_row id f r = if r.request_id =s id then f r else r

-- The first argument of the next two says that sqlite fails the statement, which is only logged.
unfoldable pub mark_sent : Bool → Str → Tables → Tables
mark_sent true id t = t
mark_sent false id t = record {
  outbox = map (update_row id if_queued) t.outbox;
  results = t.results;
}

unfoldable pub mark_terminal : Bool → Str → Status → Option Str → Tables → Tables
mark_terminal true id status message t = t
mark_terminal false id status message t = record {
  outbox = map (update_row id (λ r. with_status r status message)) t.outbox;
  results = t.results;
}

-- DELETE FROM _results WHERE request_id = ?1
unfoldable pub delete_results : Str → List (Str × ℕ × Str) → List (Str × ℕ × Str)
delete_results id [] = []
delete_results id (r ∷ rows) =
    if r.0 =s id then delete_results id rows else r ∷ delete_results id rows

unfoldable pub numbered : Str → ℕ → List Str → List (Str × ℕ × Str)
numbered id n [] = []
numbered id n (row ∷ rows) = (id, n, row) ∷ numbered id (suc n) rows

-- A transaction: if a statement of it fails, or it cannot begin or commit, all is as before.
unfoldable pub persist_done : Bool → Str → List Str → Tables → Tables
unfolding delete_results numbered
persist_done true id rows t = t
persist_done false id rows t = record {
  outbox = map (update_row id (λ r. with_status r finished none)) t.outbox;
  results = delete_results id t.results ++ numbered id 0 rows;
}

-- What `stream.recv` gives; behind the last the stream has ended.
pub data Received (Value Body : Type 0) : Type 0 where
  frame : EnvelopeObject Value Body → Received Value Body
  transport_error : Received Value Body

-- How the loop over the frames ends: with an outcome, without one, or for another attempt.
pub data Ended : Type 0 where
  outcome : Outcome → List Str → Ended
  truncated retried : Ended

-- The texts of the rows: of a row under the columns of the header, of a graph chunk, and of a
-- passthrough frame's class.
pub record Texts (Value Body : Type 0) : Type 0 where
  pub row_text : List Str → Row Value → Str
  pub graph_text : Graph Body → Str
  pub generic_text : Generic Body → Str

abbrev pub or_text : Str → Option Str → Str
or_text text none = text
or_text text (some s) = s

module _ {Value Body : Type 0} (texts : Texts Value Body) where
  -- one event: how it ends the loop, or the columns and rows that the loop goes on with
  unfoldable pub on_event :
      List Str → List Str → ResponseEvent Value Body → Option Ended × List Str × List Str
  on_event columns rows (ResponseEvent.header h) = (none, h.columns, rows)
  on_event columns rows (ResponseEvent.rows rs) =
      (none, columns, rows ++ map (texts.row_text columns) rs)
  on_event columns rows (ResponseEvent.graph g) = (none, columns, rows ++ texts.graph_text g ∷ [])
  on_event columns rows (ResponseEvent.generic g) =
      (none, columns, rows ++ texts.generic_text g ∷ [])
  on_event columns rows (ResponseEvent.done d) = (some (outcome done rows), columns, rows)
  on_event columns rows (ResponseEvent.denied d) =
      (some (outcome (denied (or_text (codes "request denied") d.reason)) rows), columns, rows)
  on_event columns rows (ResponseEvent.error e) =
      (some (outcome (error (e.code ++ codes ": " ++ or_text [] e.reason)) rows), columns, rows)
  on_event columns rows (ResponseEvent.help signal topics) = (
    some (outcome (error (codes "unexpected help response to an outbox request")) rows),
    columns,
    rows,
  )
  on_event columns rows (ResponseEvent.media m) = (
    some (outcome (error (codes "unexpected media response to an outbox request")) rows),
    columns,
    rows,
  )

  unfoldable pub read_frames :
      ResponseReader → List Str → List Str → List (Received Value Body) → Ended
  unfolding accept on_event
  read_frames reader columns rows [] = truncated
  read_frames reader columns rows (transport_error ∷ received) = retried
  read_frames reader columns rows (frame obj ∷ received) = elim ((accept reader obj).0) [
    | err e ↦ retried
    | ok event ↦
        let (ended, columns', rows') = on_event columns rows event in
        let rest = read_frames ((accept reader obj).1) columns' rows' received in
        elim ended [ some end ↦ end | none ↦ rest ]
  ]

  -- the match behind the loop
  unfoldable pub conclude : Bool → Str → Ended → Tables → Step × Tables
  unfolding persist_done mark_terminal
  conclude fails id (outcome done rows) t = (settled, persist_done fails id rows t)
  conclude fails id (outcome (denied reason) rows) t =
      (settled, mark_terminal fails id Status.denied (some reason) t)
  conclude fails id (outcome (error msg) rows) t =
      (settled, mark_terminal fails id failed (some msg) t)
  conclude fails id truncated t = (again, t)
  conclude fails id retried t = (again, t)

-- Which statements of an attempt sqlite fails: the one that marks the row sent, and the statement or
-- transaction that writes its end.
pub record Faults : Type 0 where
  pub mark_fails : Bool
  pub end_fails : Bool

-- What the transport does for a row.
pub data Dial (Value Body : Type 0) : Type 0 where
  dial_failed : Dial Value Body
  opened : (send_fails : Bool) → List (Received Value Body) → Dial Value Body

-- What the worker does beside the tables that it writes: why the params are malformed, if they are;
-- whether the peer resolves; the id of the request on the wire; and texts. Surfaces/Worker.antt has the
-- code's.
pub record World (Value Body : Type 0) : Type 0 where
  pub malformed : Str → Option Str
  pub resolves : Str → Bool
  pub unknown_peer : Str → Str
  pub request_id : Str → Str
  pub texts : Texts Value Body

module _ {Value Body : Type 0} (w : World Value Body) where
  -- behind the request on the wire
  abbrev pub exchange :
      Faults → OutboxRow → Bool → List (Received Value Body) → Tables → Step × Tables
  exchange faults row true received t = (again, t)
  exchange faults row false received t =
      conclude w.texts faults.end_fails row.request_id
        (read_frames w.texts (new (w.request_id row.request_id)) [] [] received) t

  -- behind the peer
  unfoldable pub dialled : Faults → OutboxRow → Dial Value Body → Tables → Step × Tables
  unfolding mark_sent read_frames conclude
  dialled faults row dial_failed t = (again, t)
  dialled faults row (opened send_fails received) t =
      exchange faults row send_fails received (mark_sent faults.mark_fails row.request_id t)

  unfoldable pub process_row : Faults → OutboxRow → Dial Value Body → Tables → Step × Tables
  unfolding mark_terminal dialled
  process_row faults row dial t = elim (w.malformed row.params) [
    | some e ↦ (settled, mark_terminal faults.end_fails row.request_id failed (some e) t)
    | none ↦
        if not (w.resolves row.peer)
        then (
          settled,
          mark_terminal faults.end_fails row.request_id failed (some (w.unknown_peer row.peer)) t,
        )
        else dialled faults row dial t
  ]

-- The backoffs of the rows, a HashMap.
abbrev pub Backoffs : Type 0
Backoffs = List (Str × Backoff)

unfoldable pub remove : Str → Backoffs → Backoffs
remove id [] = []
remove id ((k, b) ∷ m) = if k =s id then remove id m else (k, b) ∷ remove id m

abbrev pub attempts_of : Option Backoff → ℕ
attempts_of none = 0
attempts_of (some b) = b.attempts

abbrev pub waits : Option Backoff → ℕ → Bool
waits none now = false
waits (some b) now = ltb now b.next_attempt

-- `age_secs >= expiry`
abbrev pub has_expired : ℤ → ℕ → Bool
has_expired (pos age) expiry = leb expiry age
has_expired (negsuc n) expiry = false

-- The worker at a row: the clock before and behind the attempt, the age of the row in seconds, and what
-- the transport and sqlite do.
pub record Turn (Value Body : Type 0) : Type 0 where
  pub now : ℕ
  pub after : ℕ
  pub age_secs : ℤ
  pub dial : Dial Value Body
  pub faults : Faults

pub record Worker : Type 0 where
  pub backoff : Backoffs
  pub tables : Tables

module _ {Value Body : Type 0} (cfg : OutboxConfig) (w : World Value Body) where
  -- behind the attempt: the backoff of the row
  abbrev pub after_step : Turn Value Body → Str → Backoffs → Step × Tables → Worker
  after_step turn id m (settled, t) = record { backoff = remove id m; tables = t }
  after_step turn id m (again, t) =
      let attempts = suc (attempts_of (get id m)) in
      let next = turn.after + backoff_delay attempts cfg.base_backoff cfg.max_backoff in
      record {
        backoff = (id, record { attempts = attempts; next_attempt = next }) ∷ remove id m;
        tables = t;
      }

  unfoldable pub tick_row : Turn Value Body → OutboxRow → Worker → Worker
  unfolding process_row mark_terminal get remove backoff_delay
  tick_row turn row s =
      if waits (get row.request_id s.backoff) turn.now
      then s
      else if has_expired turn.age_secs cfg.expiry_secs
      then record {
        backoff = remove row.request_id s.backoff;
        tables =
            mark_terminal turn.faults.end_fails row.request_id expired
              (some (codes "request expired before completion")) s.tables;
      }
      else after_step turn row.request_id s.backoff
          (process_row w turn.faults row turn.dial s.tables)

  unfoldable pub tick_rows : (Str → Turn Value Body) → List OutboxRow → Worker → Worker
  unfolding tick_row
  tick_rows turns [] s = s
  tick_rows turns (row ∷ rows) s = tick_rows turns rows (tick_row (turns row.request_id) row s)

  -- A scan that sqlite fails has no rows.
  abbrev pub scanned : Bool → List OutboxRow → List OutboxRow
  unfolding scan
  scanned true rows = []
  scanned false rows = scan rows

  unfoldable pub tick : Bool → (Str → Turn Value Body) → Worker → Worker
  unfolding tick_rows scanned
  tick scan_fails turns s = tick_rows turns (scanned scan_fails s.tables.outbox) s
