-- ===== src/Node/Execute/Delivered.antt =====
-- crates/node/src/pipeline.rs: which rows a job sends, and the caps on them.
use rsntr.Base.{
  ℕ, suc, ◌+◌, ◌≤◌, ◌<◌, ◌≡◌, refl, sym, ap, ◌∙◌, inl, inr, Bool, true, false, Option, none, some,
  List, [], ◌∷◌, ◌++◌, append_assoc, ltb, leb, length, arith, Str, Option-cases, Bool-cases,
}
use rsntr.Protocol.Envelope.{Row, EnvelopeObject}
use rsntr.Web.Csv.{Value}
use rsntr.Node.Engine.{SqlError, Cell, Engine}
use rsntr.Node.Stream.{
  Patience, ExecJob, row_from_sql, Batching, Streamed, streamed, stopped, flush_last, take_row,
  flushed, is_full, stream_rows, is_there,
}

module _ {Real Body : Type 0} where
  -- The rows in the frames of a response.
  abbrev pub rows_of : EnvelopeObject (Value Real) Body → List (Row (Value Real))
  rows_of (EnvelopeObject.row rs) = rs
  rows_of (EnvelopeObject.result h) = []
  rows_of (EnvelopeObject.done d) = []
  rows_of frame = []

  unfoldable pub sent_rows : List (EnvelopeObject (Value Real) Body) → List (Row (Value Real))
  sent_rows [] = []
  sent_rows (frame ∷ frames) = rows_of frame ++ sent_rows frames

  pub sent_rows-append :
      (frames frames' : List (EnvelopeObject (Value Real) Body))
      → sent_rows (frames ++ frames') ≡ sent_rows frames ++ sent_rows frames'
  unfolding sent_rows
  sent_rows-append [] frames' = refl
  sent_rows-append (f ∷ frames) frames' =
      rw (sent_rows-append frames frames')
        (sym (append_assoc (rows_of f) (sent_rows frames) (sent_rows frames')))

module _ {Real : Type 0} (lossy : List ℕ → Str) (columns : List Str) where
  -- The rows are the first ones that sqlite steps to, read in order and numbered from `n` on.
  unfoldable pub AreFirst : ℕ → List (List (Cell Real)) → List (Row (Value Real)) → Type 0
  AreFirst n rows [] = Unit
  AreFirst n [] (r ∷ rs) = ⊥
  AreFirst n (cells ∷ rows) (r ∷ rs) =
      ((est : ℕ) × (row_from_sql lossy columns n cells ≡ some (r, est))) × AreFirst (suc n) rows rs

module _ {Real Tables : Type 0} (Body : Type 0) (engine : Engine Real Tables) (patience : Patience)
    (job : ExecJob Real) (columns : List Str) where
  -- What the loop sent, from a state of it to its end.
  abbrev pub Delivers :
      Batching Real
      → List (List (Cell Real))
      → List (EnvelopeObject (Value Real) Body) × Streamed
      → Type 0
  Delivers st rows (frames, stopped h) = Unit
  Delivers st rows (frames, streamed sent seq bytes steps truncated) =
      ((taken : List (Row (Value Real))) × (sent_rows frames ≡ st.batch ++ taken)
        × AreFirst engine.from_utf8_lossy columns st.seq rows taken
        × (seq ≡ st.seq + length taken)
        × (truncated ≡ false → length taken ≡ length rows)
        × (truncated ≡ true → length taken < length rows))
      × ((st.seq ≤ job.limits.row_cap → seq ≤ job.limits.row_cap)
          × (st.bytes_out + st.batch_bytes ≤ job.limits.byte_cap → bytes ≤ job.limits.byte_cap)
          × (job.limits.byte_cap < st.bytes_out + st.batch_bytes → seq ≡ st.seq))

  flush_last-Delivers :
      (sent seq bytes size : ℕ) (batch : List (Row (Value Real))) (steps : ℕ) (truncated : Bool)
      (rows : List (List (Cell Real)))
      → (truncated ≡ false → 0 ≡ length rows)
      → (truncated ≡ true → 0 < length rows)
      → Delivers
          (record { sent = sent; seq = seq; bytes_out = bytes; batch = batch; batch_bytes = size })
          rows
          (flush_last Body engine patience
            (record {
              sent = sent;
              seq = seq;
              bytes_out = bytes;
              batch = batch;
              batch_bytes = size;
            })
            steps
            truncated)
  unfolding flush_last sent_rows AreFirst
  flush_last-Delivers sent seq bytes size [] steps truncated rows all some_left =
      (([], refl, tt, ground arith, all, some_left), (λ h. h, λ h. ground arith, λ h. refl))
  flush_last-Delivers sent seq bytes size (r ∷ rs) steps truncated rows all some_left =
      elim (Bool-cases (is_there patience sent)) [
        | inl there_is ↦
            rw there_is (([], refl, tt, ground arith, all, some_left), (λ h. h, λ h. h, λ h. refl))
        | inr gone ↦ rw gone tt
      ]

  -- One row more, which stays in the batch, or is sent with it.
  kept-Delivers :
      (st : Batching Real) (cells : List (Cell Real)) (rows : List (List (Cell Real)))
      (r : Row (Value Real)) (est : ℕ) (result : List (EnvelopeObject (Value Real) Body) × Streamed)
      → row_from_sql engine.from_utf8_lossy columns st.seq cells ≡ some (r, est)
      → st.seq < job.limits.row_cap
      → st.bytes_out + (st.batch_bytes + est) ≤ job.limits.byte_cap
      → Delivers (take_row st r est) rows result
      → Delivers st (cells ∷ rows) result
  unfolding AreFirst
  kept-Delivers st cells rows r est (frames, stopped h) read below within d = tt
  kept-Delivers st cells rows r est (frames, streamed sent seq bytes steps truncated) read below
        within d =
      let (taken, rows_eq, first, counted, all, more) = d.0 in
      (
        (
          r ∷ taken,
          rows_eq ∙ append_assoc st.batch (r ∷ []) taken,
          ((est, read), first),
          omega (arith, counted),
          λ t. ap suc (all t),
          λ t. omega (arith, more t),
        ),
        (λ h. d.1.0 (ground arith), λ h. d.1.1 (ground arith), λ h. absurd (omega arith)),
      )

  sent-Delivers :
      (st : Batching Real) (cells : List (Cell Real)) (rows : List (List (Cell Real)))
      (r : Row (Value Real)) (est : ℕ) (frames : List (EnvelopeObject (Value Real) Body))
      (end : Streamed)
      → row_from_sql engine.from_utf8_lossy columns st.seq cells ≡ some (r, est)
      → st.seq < job.limits.row_cap
      → st.bytes_out + (st.batch_bytes + est) ≤ job.limits.byte_cap
      → Delivers (flushed (take_row st r est)) rows (frames, end)
      → Delivers st (cells ∷ rows) (EnvelopeObject.row (st.batch ++ r ∷ []) ∷ frames, end)
  unfolding AreFirst sent_rows
  sent-Delivers st cells rows r est frames (stopped h) read below within d = tt
  sent-Delivers st cells rows r est frames (streamed sent seq bytes steps truncated) read below
        within d =
      let (taken, rows_eq, first, counted, all, more) = d.0 in
      (
        (
          r ∷ taken,
          ap (λ rest. (st.batch ++ r ∷ []) ++ rest) rows_eq ∙ append_assoc st.batch (r ∷ []) taken,
          ((est, read), first),
          omega (arith, counted),
          λ t. ap suc (all t),
          λ t. omega (arith, more t),
        ),
        (λ h. d.1.0 (ground arith), λ h. d.1.1 (ground arith), λ h. absurd (omega arith)),
      )

  pub stream_rows-Delivers :
      (ending : Option SqlError) (steps : ℕ) (rows : List (List (Cell Real))) (st : Batching Real)
      → Delivers st rows (stream_rows Body engine patience job columns ending steps rows st)
  unfolding stream_rows
  stream_rows-Delivers none steps [] st =
      flush_last-Delivers st.sent st.seq st.bytes_out st.batch_bytes st.batch steps false []
        (λ t. refl) (λ t. absurd (cc))
  stream_rows-Delivers (some e) steps [] st = tt
  stream_rows-Delivers ending steps (cells ∷ rows) st =
      let cut =
        flush_last-Delivers st.sent st.seq st.bytes_out st.batch_bytes st.batch (suc steps) true
          (cells ∷ rows) (λ t. absurd (cc)) (λ t. ground arith) in
      elim (Bool-cases (leb job.limits.row_cap st.seq)) [
        | inl capped ↦ rw (capped, stream_rows) cut
        | inr below ↦
            elim (Option-cases (row_from_sql engine.from_utf8_lossy columns st.seq cells)) [
              | inl broken ↦ rw (below, stream_rows) (rw (broken, stream_rows) tt)
              | inr ((r, est), read) ↦
                  elim (Bool-cases
                    (ltb job.limits.byte_cap (st.bytes_out + (st.batch_bytes + est)))) [
                      | inl over ↦
                          rw (below, stream_rows)
                            (rw (read, stream_rows) (rw (over, stream_rows) cut))
                      | inr within ↦ elim (Bool-cases (is_full job (take_row st r est))) [
                        | inr room ↦
                            rw (below, stream_rows)
                              (rw (read, stream_rows)
                                (rw (within, stream_rows)
                                  (rw (room, stream_rows)
                                    (kept-Delivers st cells rows r est _ read (ground arith)
                                      (ground arith)
                                      (stream_rows-Delivers ending (suc steps) rows
                                        (take_row st r est))))))
                        | inl full ↦ elim (Bool-cases (is_there patience st.sent)) [
                          | inr gone ↦
                              rw (below, stream_rows)
                                (rw (read, stream_rows)
                                  (rw (within, stream_rows)
                                    (rw (full, stream_rows) (rw (gone, stream_rows) tt))))
                          | inl there_is ↦
                              rw (below, stream_rows)
                                (rw (read, stream_rows)
                                  (rw (within, stream_rows)
                                    (rw (full, stream_rows)
                                      (rw (there_is, stream_rows)
                                        (sent-Delivers st cells rows r est _ _ read (ground arith)
                                          (ground arith)
                                          (stream_rows-Delivers ending (suc steps) rows
                                            (flushed (take_row st r est))))))))
                        ]
                      ]
                    ]
            ]
      ]
