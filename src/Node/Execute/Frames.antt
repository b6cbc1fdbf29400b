-- ===== src/Node/Execute/Frames.antt =====
-- crates/node/src/pipeline.rs with crates/protocol/src/response.rs: the frames that a job sends are a
-- response that the client's reader takes.
use rsntr.Base.{
  ℕ, suc, ◌+◌, ◌≡◌, ◌≢◌, refl, ap, ◌∙◌, subst, inl, inr, Bool, true, false, Option, none, some,
  List, [], ◌∷◌, ◌++◌, ltb, leb, length, length-append, All, In, here, there, arith, Str,
  Option-cases, Bool-cases,
}
use rsntr.Protocol.Envelope.{pos, Row, EnvelopeObject}
use rsntr.Protocol.Response.Grammar.{Numbered, Declared, Closes, Batches}
use rsntr.Web.Csv.{Value}
use rsntr.Node.Engine.{SqlError, Cell, Engine}
use rsntr.Node.Stream.{
  ExecJob, client_gone, cell_value, row_cells, row_from_sql, Batching, Streamed, streamed, stopped,
  flush_last, take_row, flushed, is_full, stream_rows,
}

module _ {Real : Type 0} (lossy : List ℕ → Str) where
  abbrev CellsIn : List Str → List (Str × Value Real) → Type 0
  CellsIn columns cells = All (λ cell. In (cell.0) columns) cells

  CellsIn-weaken :
      (c : Str) (columns : List Str) (cells : List (Str × Value Real))
      → CellsIn columns cells
      → CellsIn (c ∷ columns) cells
  CellsIn-weaken c columns [] h = tt
  CellsIn-weaken c columns (cell ∷ cells) h = (there h.0, CellsIn-weaken c columns cells h.1)

  -- What is said of a row that was read.
  abbrev Named : List Str → Option (List (Str × Value Real) × ℕ) → Type 0
  Named columns none = Unit
  Named columns (some (named, est)) = CellsIn columns named

  row_cells-Named :
      (columns : List Str) (cells : List (Cell Real))
      → Named columns (row_cells lossy columns cells)
  unfolding row_cells
  row_cells-Named [] cells = tt
  row_cells-Named (c ∷ columns) [] = tt
  row_cells-Named (c ∷ columns) (x ∷ cells) = elim (Option-cases (row_cells lossy columns cells)) [
    | inl e ↦ rw (e, row_cells) tt
    | inr ((rest, est), e) ↦
        let rest_in : CellsIn columns rest =
          subst (Named columns) e (row_cells-Named columns cells) in
        elim (Option-cases (cell_value lossy x)) [
          | inl n ↦ rw (e, row_cells) (rw (n, row_cells) (CellsIn-weaken c columns rest rest_in))
          | inr ((value, size), v) ↦
              rw (e, row_cells)
                (rw (v, row_cells) (here refl, CellsIn-weaken c columns rest rest_in))
        ]
  ]

  abbrev Fits : List Str → ℕ → Option (Row (Value Real) × ℕ) → Type 0
  Fits columns n none = Unit
  Fits columns n (some (r, est)) = (r.seq ≡ pos n) × CellsIn columns r.cells

  row_from_sql-Fits :
      (columns : List Str) (n : ℕ) (cells : List (Cell Real))
      → Fits columns n (row_from_sql lossy columns n cells)
  unfolding row_from_sql
  row_from_sql-Fits columns n cells = elim (Option-cases (row_cells lossy columns cells)) [
    | inl e ↦ rw (e, row_from_sql) tt
    | inr ((named, size), e) ↦
        rw (e, row_from_sql) (refl, subst (Named columns) e (row_cells-Named columns cells))
  ]

Numbered-append :
    {Real : Type 0} (n : ℕ) (rs : List (Row (Value Real))) (r : Row (Value Real))
    → Numbered n rs
    → r.seq ≡ pos (n + length rs)
    → Numbered n (rs ++ r ∷ [])
Numbered-append n [] r h e = ground arith
Numbered-append n (x ∷ rs) r h e = (h.0, Numbered-append (suc n) rs r h.1 (ground arith))

Declared-append :
    {Real : Type 0} (columns : List Str) (rs : List (Row (Value Real))) (r : Row (Value Real))
    → Declared columns rs
    → All (λ cell. In (cell.0) columns) r.cells
    → Declared columns (rs ++ r ∷ [])
Declared-append columns [] r h c = (c, tt)
Declared-append columns (x ∷ rs) r h c = (h.0, Declared-append columns rs r h.1 c)

module _ {Real Tables : Type 0} (Body : Type 0) (engine : Engine Real Tables) (job : ExecJob Real)
    (columns : List Str) where
  -- The frames of an unfinished table from row `n` on: any end closes it.
  abbrev pub Extends : ℕ → List (EnvelopeObject (Value Real) Body) → Type 0
  Extends n frames =
      (closing : List (EnvelopeObject (Value Real) Body))
      → Closes job.id closing
      → Batches job.id columns n (frames ++ closing)

  abbrev pub Stays : Streamed → Type 0
  Stays (streamed sent seq bytes steps truncated) = Unit
  Stays (stopped h) = h ≢ client_gone

  abbrev pub Runs : ℕ → List (EnvelopeObject (Value Real) Body) × Streamed → Type 0
  Runs n (frames, end) = Extends n frames × Stays end

  pub record InBatch (n : ℕ) (st : Batching Real) : Type 0 where
    pub numbered : Numbered n st.batch
    pub declared : Declared columns st.batch
    pub counted : st.seq ≡ n + length st.batch

  pub nothing-Extends : (n : ℕ) → Extends n []
  nothing-Extends n closing c = Batches.close c

  cons-ne-nil : (r : Row (Value Real)) (rs : List (Row (Value Real))) → r ∷ rs ≢ []
  cons-ne-nil r rs e = cc

  append-ne-nil : (rs : List (Row (Value Real))) (r : Row (Value Real)) → rs ++ r ∷ [] ≢ []
  append-ne-nil [] r e = cc
  append-ne-nil (x ∷ rs) r e = cc

  flush_last-Runs :
      (n steps : ℕ) (truncated : Bool) (sent seq bytes : ℕ) (batch : List (Row (Value Real)))
      (size : ℕ)
      → Numbered n batch
      → Declared columns batch
      → Runs n (
          flush_last Body engine none
            (record {
              sent = sent;
              seq = seq;
              bytes_out = bytes;
              batch = batch;
              batch_bytes = size;
            })
            steps
            truncated)
  unfolding flush_last
  flush_last-Runs n steps truncated sent seq bytes [] size num dec = (nothing-Extends n, tt)
  flush_last-Runs n steps truncated sent seq bytes (r ∷ rs) size num dec =
      (λ closing c. Batches.batch (r ∷ rs) (cons-ne-nil r rs) num dec (Batches.close c), tt)

  take_row-InBatch :
      (n : ℕ) (st : Batching Real) (r : Row (Value Real)) (est : ℕ)
      → InBatch n st
      → (r.seq ≡ pos st.seq) × All (λ cell. In (cell.0) columns) r.cells
      → InBatch n (take_row st r est)
  take_row-InBatch n st r est b (s, c) = record {
    numbered = Numbered-append n st.batch r b.numbered (s ∙ ap pos b.counted);
    declared = Declared-append columns st.batch r b.declared c;
    counted = omega (arith, b.counted, length-append {0} st.batch (r ∷ []));
  }

  flushed-InBatch :
      (n : ℕ) (st : Batching Real) → InBatch n st → InBatch (n + length st.batch) (flushed st)
  flushed-InBatch n st b = record {
    numbered = tt;
    declared = tt;
    counted = omega (arith, b.counted);
  }

  pub stream_rows-Runs :
      (ending : Option SqlError) (n steps : ℕ) (rows : List (List (Cell Real))) (st : Batching Real)
      → InBatch n st
      → Runs n (stream_rows Body engine none job columns ending steps rows st)
  unfolding stream_rows
  stream_rows-Runs none n steps [] st b =
      flush_last-Runs n steps false st.sent st.seq st.bytes_out st.batch st.batch_bytes b.numbered
        b.declared
  stream_rows-Runs (some e) n steps [] st b = (nothing-Extends n, λ eq. cc)
  stream_rows-Runs ending n steps (cells ∷ rows) st b =
      elim (Bool-cases (leb job.limits.row_cap st.seq)) [
        | inl capped ↦
            rw (capped, stream_rows)
              (flush_last-Runs n (suc steps) true st.sent st.seq st.bytes_out st.batch
                st.batch_bytes b.numbered b.declared)
        | inr below ↦
            elim (Option-cases (row_from_sql engine.from_utf8_lossy columns st.seq cells)) [
              | inl broken ↦
                  rw (below, stream_rows) (rw (broken, stream_rows) (nothing-Extends n, λ eq. cc))
              | inr ((r, est), read) ↦
                  let next = take_row-InBatch n st r est b (
                    subst (Fits engine.from_utf8_lossy columns st.seq) read
                      (row_from_sql-Fits engine.from_utf8_lossy columns st.seq cells)) in
                  elim (Bool-cases
                    (ltb job.limits.byte_cap (st.bytes_out + (st.batch_bytes + est)))) [
                      | inl over ↦
                          rw (below, stream_rows)
                            (rw (read, stream_rows)
                              (rw (over, stream_rows)
                                (flush_last-Runs n (suc steps) true st.sent st.seq st.bytes_out
                                  st.batch st.batch_bytes b.numbered b.declared)))
                      | inr within ↦ elim (Bool-cases (is_full job (take_row st r est))) [
                        | inr room ↦
                            rw (below, stream_rows)
                              (rw (read, stream_rows)
                                (rw (within, stream_rows)
                                  (rw (room, stream_rows)
                                    (stream_rows-Runs ending n (suc steps) rows (take_row st r est)
                                      next))))
                        | inl full ↦
                            let later =
                              stream_rows-Runs ending (n + length (st.batch ++ r ∷ [])) (suc steps)
                                rows (flushed (take_row st r est))
                                (flushed-InBatch n (take_row st r est) next) in
                            rw (below, stream_rows)
                              (rw (read, stream_rows)
                                (rw (within, stream_rows)
                                  (rw (full, stream_rows)
                                    (
                                      λ closing c.
                                          Batches.batch (st.batch ++ r ∷ [])
                                            (append-ne-nil st.batch r) next.numbered next.declared
                                            (later.0 closing c),
                                      later.1,
                                    ))))
                      ]
                    ]
            ]
      ]
