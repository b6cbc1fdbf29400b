-- ===== src/Node/Stream.antt =====
-- crates/node/src/pipeline.rs: the rows of a statement and the frames that carry them (`row_from_sql`,
-- the loop of `execute_in_tx`). Sizes are unbounded. The receiver of the frames takes a number of them
-- and hangs up, or never does.
use rsntr.Base.{
  ℕ, suc, ◌+◌, ◌*◌, ◌/◌, Bool, true, false, ◌||◌, Option, none, some, List, [], ◌∷◌, ◌++◌,
  if◌then◌else◌, ltb, leb, length, Str, as_bytes,
}
use rsntr.Authenticator.Types.{ActionKind.read, ActionKind.write, ActionKind.other}
use rsntr.Protocol.Envelope.{pos, Row, EnvelopeObject}
use rsntr.Web.Csv.{Value, blob_ref}
use rsntr.Node.Authorizer.{Approved}
use rsntr.Node.Engine.{SqlError, Cell, null, integer, real, text, blob, Engine}
use rsntr.Node.Limits.{Limits}

pub record ExecJob (Real : Type 0) : Type 0 where
  pub id : Str
  pub sql : Str
  pub params : List (Value Real)
  pub approved : Approved
  pub limits : Limits
  pub rows_per_frame : ℕ
  pub frame_byte_budget : ℕ
  pub pragma_allowlist : List Str

pub data Halt : Type 0 where
  client_gone : Halt
  denied bad_param : Str → Halt
  sqlite : SqlError → Halt

pub record Emitted : Type 0 where
  pub rows_out : ℕ
  pub bytes_out : ℕ

pub data Outcome : Type 0 where
  emitted : Emitted → Outcome
  halted : Halt → Outcome

-- The number of frames that the receiver takes before it hangs up; `none` never does.
abbrev pub Patience : Type 0
Patience = Option ℕ

abbrev pub is_there : Patience → ℕ → Bool
is_there none sent = true
is_there (some n) sent = ltb sent n

unfoldable pub byte_length : Str → ℕ
unfolding as_bytes
byte_length s = length (as_bytes s)

-- `(64 + columns.iter().map(|c| c.len() + 8).sum())`
unfoldable pub columns_estimate : List Str → ℕ
columns_estimate [] = 0
columns_estimate (c ∷ columns) = byte_length c + 8 + columns_estimate columns

unfoldable pub header_estimate : List Str → ℕ
unfolding columns_estimate
header_estimate columns = 64 + columns_estimate columns

module _ {Real : Type 0} where
  abbrev pub is_write : ExecJob Real → Bool
  is_write job = elim job.approved.footprint.kind [ read ↦ false | write ↦ true | other ↦ false ]

  abbrev pub is_blob_ref : Value Real → Bool
  is_blob_ref (blob_ref hash bytes) = true
  is_blob_ref Value.null = false
  is_blob_ref (Value.integer i) = false
  is_blob_ref (Value.real r) = false
  is_blob_ref (Value.text s) = false
  is_blob_ref (Value.blob b) = false

-- A value and its estimated size; `none` is a NULL, which is left out.
abbrev pub cell_value : {Real : Type 0} → (List ℕ → Str) → Cell Real → Option (Value Real × ℕ)
cell_value lossy null = none
cell_value lossy (integer i) = some (Value.integer i, 20)
cell_value lossy (real r) = some (Value.real r, 26)
cell_value lossy (text t) = some (Value.text (lossy t), length t + 16)
cell_value lossy (blob b) = some (Value.blob b, length b * 4 / 3 + 32)

module _ {Real : Type 0} where
  -- `none` where the row has fewer cells than there are columns
  unfoldable pub row_cells :
      (List ℕ → Str) → List Str → List (Cell Real) → Option (List (Str × Value Real) × ℕ)
  row_cells lossy [] cells = some ([], 0)
  row_cells lossy (name ∷ names) [] = none
  row_cells lossy (name ∷ names) (cell ∷ cells) = elim (row_cells lossy names cells) [
    | none ↦ none
    | some (rest, est) ↦ elim (cell_value lossy cell) [
      | none ↦ some (rest, est)
      | some (value, size) ↦ some ((name, value) ∷ rest, size + (byte_length name + 12) + est)
    ]
  ]

  unfoldable pub row_from_sql :
      (List ℕ → Str) → List Str → ℕ → List (Cell Real) → Option (Row (Value Real) × ℕ)
  unfolding row_cells
  row_from_sql lossy columns seq cells = elim (row_cells lossy columns cells) [
    | none ↦ none
    | some (named, est) ↦ some (record { seq = pos seq; cells = named }, 32 + est)
  ]

-- the variables of the loop over the rows, and the frames sent so far
pub record Batching (Real : Type 0) : Type 0 where
  pub sent : ℕ
  pub seq : ℕ
  pub bytes_out : ℕ
  pub batch : List (Row (Value Real))
  pub batch_bytes : ℕ

module _ {Real : Type 0} where
  abbrev pub take_row : Batching Real → Row (Value Real) → ℕ → Batching Real
  take_row st r est = record {
    sent = st.sent;
    seq = suc st.seq;
    bytes_out = st.bytes_out;
    batch = st.batch ++ r ∷ [];
    batch_bytes = st.batch_bytes + est;
  }

  abbrev pub flushed : Batching Real → Batching Real
  flushed st = record {
    sent = suc st.sent;
    seq = st.seq;
    bytes_out = st.bytes_out + st.batch_bytes;
    batch = [];
    batch_bytes = 0;
  }

  abbrev pub is_full : ExecJob Real → Batching Real → Bool
  is_full job st =
      leb job.rows_per_frame (length st.batch) || leb job.frame_byte_budget st.batch_bytes

-- How the loop and the last batch end.
pub data Streamed : Type 0 where
  streamed : (sent seq bytes_out steps : ℕ) → (truncated : Bool) → Streamed
  stopped : Halt → Streamed

module _ {Real Tables : Type 0} (Body : Type 0) (engine : Engine Real Tables)
    (patience : Patience) where
  -- the last batch, behind the loop
  unfoldable pub flush_last :
      Batching Real → ℕ → Bool → List (EnvelopeObject (Value Real) Body) × Streamed
  flush_last st steps truncated = elim st.batch [
    | [] ↦ ([], streamed st.sent st.seq st.bytes_out steps truncated)
    | r ∷ rs ↦
        if is_there patience st.sent
        then (
          EnvelopeObject.row (r ∷ rs) ∷ [],
          streamed (suc st.sent) st.seq (st.bytes_out + st.batch_bytes) steps truncated,
        )
        else ([], stopped client_gone)
  ]

  -- The loop over the rows, with the number of the rows stepped to so far.
  unfoldable pub stream_rows :
      ExecJob Real
      → List Str
      → Option SqlError
      → ℕ
      → List (List (Cell Real))
      → Batching Real
      → List (EnvelopeObject (Value Real) Body) × Streamed
  unfolding flush_last row_from_sql
  stream_rows job columns ending steps [] st = elim ending [
    | none ↦ flush_last st steps false
    | some e ↦ ([], stopped (sqlite e))
  ]
  stream_rows job columns ending steps (cells ∷ rows) st = elim (leb job.limits.row_cap st.seq) [
    | true ↦ flush_last st (suc steps) true
    | false ↦ elim (row_from_sql engine.from_utf8_lossy columns st.seq cells) [
      | none ↦ ([], stopped (sqlite engine.failure))
      | some (r, est) ↦ elim (ltb job.limits.byte_cap (st.bytes_out + (st.batch_bytes + est))) [
        | true ↦ flush_last st (suc steps) true
        | false ↦ elim (is_full job (take_row st r est)) [
          | false ↦ stream_rows job columns ending (suc steps) rows (take_row st r est)
          | true ↦ elim (is_there patience st.sent) [
            | false ↦ ([], stopped client_gone)
            | true ↦
                let (frames, end) =
                  stream_rows job columns ending (suc steps) rows (flushed (take_row st r est)) in
                (EnvelopeObject.row (st.batch ++ r ∷ []) ∷ frames, end)
          ]
        ]
      ]
    ]
  ]
