-- ===== src/Node/Execute/Trailer.antt =====
-- crates/node/src/pipeline.rs: what the trailer of a job says of its rows, and the caps of the job.
use rsntr.Base.{
  ℕ, ◌+◌, ◌≤◌, ◌<◌, ◌≡◌, refl, sym, ap, ◌∙◌, subst, ◌⊎◌, inl, inr, Bool, true, false, some, List,
  [], ◌∷◌, ◌++◌, append-nil, leb, length, arith, Str, Option-cases, Bool-cases,
}
use rsntr.Protocol.Envelope.{pos, Row, Done, EnvelopeObject}
use rsntr.Web.Csv.{Value}
use rsntr.Node.Engine.{Store, Query, Statement, Engine}
use rsntr.Node.Stream.{
  Patience, ExecJob, Halt, client_gone, sqlite, Emitted, emitted, Streamed, streamed, stopped,
  is_write, is_there, header_estimate,
}
use rsntr.Node.Execute.{
  Execution, halts, push_done, answer_from_applied, insert_applied, commit_and_done, conclude,
  conclude_streamed, step_rows, execute_in_tx, first_batch, header_of,
}
use rsntr.Node.Execute.Cases.{execute_in_tx_cases}
use rsntr.Node.Execute.Delivered.{
  sent_rows, sent_rows-append, AreFirst, Delivers, stream_rows-Delivers,
}

module _ {Real Tables : Type 0} (Body : Type 0) (engine : Engine Real Tables) (patience : Patience)
    (job : ExecJob Real) where
  -- A job that emitted its trailer kept within its caps.
  abbrev pub KeepsCaps : Execution Real Tables Body → Type 0
  KeepsCaps x =
      (e : Emitted)
      → x.outcome ≡ emitted e
      → (e.rows_out ≡ length (sent_rows x.frames))
        × (e.rows_out ≤ job.limits.row_cap)
        × ((e.bytes_out ≤ job.limits.byte_cap) ⊎ (sent_rows x.frames ≡ []))

  -- It sent the first rows of the query, and its trailer counts them and says whether they are all.
  abbrev pub SendsFirst :
      Statement Real Tables → Query Real Tables → Execution Real Tables Body → Type 0
  SendsFirst st q x =
      (e : Emitted)
      → x.outcome ≡ emitted e
      → AreFirst engine.from_utf8_lossy st.column_names 0 q.rows (sent_rows x.frames)
        × ((d : Done) × (before : List (EnvelopeObject (Value Real) Body)) × (x.frames
              ≡ before ++ EnvelopeObject.done d ∷ [])
            × (d.row_count ≡ some (pos (length (sent_rows x.frames))))
            × (d.truncated ≡ false → length (sent_rows x.frames) ≡ length q.rows)
            × (d.truncated ≡ true → length (sent_rows x.frames) < length q.rows))

  halts-both :
      (st : Statement Real Tables) (q : Query Real Tables)
      (frames : List (EnvelopeObject (Value Real) Body)) (db : Store Tables) (h : Halt)
      → KeepsCaps (halts Body engine patience frames db h)
        × SendsFirst st q (halts Body engine patience frames db h)
  halts-both st q frames db h = (λ e eq. absurd (cc), λ e eq. absurd (cc))

  sent_rows-done :
      (st : Statement Real Tables) (frames : List (EnvelopeObject (Value Real) Body)) (d : Done)
      → sent_rows (header_of Body engine patience job st ∷ frames ++ EnvelopeObject.done d ∷ [])
        ≡ sent_rows frames
  unfolding sent_rows
  sent_rows-done st frames d =
      sent_rows-append frames (EnvelopeObject.done d ∷ []) ∙ append-nil (sent_rows frames)

  emitted_inj : (e e' : Emitted) → emitted e ≡ emitted e' → e ≡ e'
  emitted_inj e e' eq = cc

  nothing-length : (rows : List (Row (Value Real))) → length rows ≡ 0 → rows ≡ []
  nothing-length [] h = refl
  nothing-length (r ∷ rows) h = absurd (omega (arith, h))

  push_done-both :
      (st : Statement Real Tables) (q : Query Real Tables) (db : Store Tables)
      (frames : List (EnvelopeObject (Value Real) Body)) (sent seq bytes steps : ℕ)
      (truncated : Bool) (d : Done)
      → d.row_count ≡ some (pos seq)
      → d.truncated ≡ truncated
      → Delivers Body engine patience job st.column_names
          (first_batch Body engine patience st.column_names)
          q.rows
          (frames, streamed sent seq bytes steps truncated)
      → let x =
          push_done Body engine patience
            (header_of Body engine patience job st ∷ frames)
            sent
            d
            db
            (record { rows_out = seq; bytes_out = bytes }) in
        KeepsCaps x × SendsFirst st q x
  unfolding first_batch
  push_done-both st q db frames sent seq bytes steps truncated d count cut del =
      elim (Bool-cases (is_there patience sent)) [
        | inr gone ↦
            rw gone
              (halts-both st q (header_of Body engine patience job st ∷ frames) db client_gone)
        | inl there_is ↦
            let (taken, rows_eq, first, counted, all, more) = del.0 in
            let (rows_cap, bytes_cap, over) = del.1 in
            let all_sent = sent_rows-done st frames d in
            let same : length (sent_rows frames) ≡ length taken = ap length rows_eq in
            let total : seq ≡ length (sent_rows frames) = omega (arith, counted, same) in
            let e0 : Emitted = record { rows_out = seq; bytes_out = bytes } in
            let capped : (bytes ≤ job.limits.byte_cap) ⊎ (sent_rows frames ≡ []) =
              elim (Bool-cases (leb (header_estimate st.column_names + 0) job.limits.byte_cap)) [
                | inl room ↦ inl (bytes_cap (ground arith))
                | inr full ↦
                    inr (nothing-length (sent_rows frames) (sym total ∙ over (ground arith)))
              ] in
            rw there_is (
              λ e eq.
                  subst
                    (λ e.
                      (e.rows_out
                        ≡ length (
                            sent_rows (
                              header_of Body engine patience job st ∷ frames
                              ++ EnvelopeObject.done d ∷ [])))
                      × (e.rows_out ≤ job.limits.row_cap)
                      × ((e.bytes_out ≤ job.limits.byte_cap)
                          ⊎ (sent_rows (
                                header_of Body engine patience job st ∷ frames
                                ++ EnvelopeObject.done d ∷ [])
                              ≡ [])))
                    (emitted_inj e0 e eq) (rw all_sent (total, rows_cap (omega arith), capped)),
              λ e eq. rw all_sent (
                subst (AreFirst engine.from_utf8_lossy st.column_names 0 q.rows) (sym rows_eq)
                    first,
                (
                  d,
                  header_of Body engine patience job st ∷ frames,
                  refl,
                  count ∙ ap (λ n. some (pos n)) total,
                  λ t. same ∙ all (sym cut ∙ t),
                  λ t. rw same (more (sym cut ∙ t)),
                ),
              ),
            )
      ]

  commit_and_done-both :
      (st : Statement Real Tables) (q : Query Real Tables) (db db' : Store Tables)
      (frames : List (EnvelopeObject (Value Real) Body)) (sent seq bytes steps : ℕ)
      (truncated : Bool) (d : Done)
      → d.row_count ≡ some (pos seq)
      → d.truncated ≡ truncated
      → Delivers Body engine patience job st.column_names
          (first_batch Body engine patience st.column_names)
          q.rows
          (frames, streamed sent seq bytes steps truncated)
      → let x =
          commit_and_done Body engine patience
            (header_of Body engine patience job st ∷ frames)
            sent
            d
            db
            db'
            (record { rows_out = seq; bytes_out = bytes }) in
        KeepsCaps x × SendsFirst st q x
  unfolding commit_and_done
  commit_and_done-both st q db db' frames sent seq bytes steps truncated d count cut del =
      elim (Option-cases (engine.commit db')) [
        | inr (error, bad) ↦
            rw (bad, commit_and_done)
              (halts-both st q (header_of Body engine patience job st ∷ frames) db (sqlite error))
        | inl fine ↦
            rw (fine, commit_and_done)
              (push_done-both st q db' frames sent seq bytes steps truncated d count cut del)
      ]

  conclude_streamed-both :
      (st : Statement Real Tables) (q : Query Real Tables) (db : Store Tables)
      (frames : List (EnvelopeObject (Value Real) Body)) (end : Streamed)
      → Delivers Body engine patience job st.column_names
          (first_batch Body engine patience st.column_names)
          q.rows
          (frames, end)
      → let x =
          conclude_streamed Body engine patience job db q
            (header_of Body engine patience job st)
            frames
            end in
        KeepsCaps x × SendsFirst st q x
  unfolding conclude_streamed conclude
  conclude_streamed-both st q db frames (stopped h) del =
      halts-both st q (header_of Body engine patience job st ∷ frames) db h
  conclude_streamed-both st q db frames (streamed sent seq bytes steps truncated) del =
      elim (Bool-cases (is_write job)) [
        | inr reads ↦ rw reads (
            commit_and_done-both st q db (q.after steps) frames sent seq bytes steps truncated _
              refl refl del)
        | inl writes ↦
            elim (Option-cases (
              insert_applied job.id (engine.to_json q.changes q.last_insert_rowid)
                (q.after steps))) [
                  | inl taken ↦ rw writes (
                      rw (taken, conclude)
                        (halts-both st q (header_of Body engine patience job st ∷ frames) db
                          (sqlite engine.failure)))
                  | inr (db', fresh) ↦ rw writes (
                      rw (fresh, conclude)
                        (commit_and_done-both st q db db' frames sent seq bytes steps truncated _
                          refl refl del))
                ]
      ]

  step_rows-both :
      (db : Store Tables) (st : Statement Real Tables) (q : Query Real Tables)
      → KeepsCaps (step_rows Body engine patience job db st q)
        × SendsFirst st q (step_rows Body engine patience job db st q)
  unfolding step_rows
  step_rows-both db st q = conclude_streamed-both st q db _ _ (
      stream_rows-Delivers Body engine patience job st.column_names q.ending 0 q.rows
        (first_batch Body engine patience st.column_names))

  answer_from_applied-KeepsCaps :
      (json : Str) (db : Store Tables)
      → KeepsCaps (answer_from_applied Body engine patience job.id json db)
  unfolding answer_from_applied sent_rows
  answer_from_applied-KeepsCaps json db = elim (Bool-cases (is_there patience 0)) [
    | inr gone ↦ rw gone (λ e eq. absurd (cc))
    | inl there_is ↦ elim (Bool-cases (is_there patience 1)) [
      | inr gone ↦ rw there_is (rw gone (λ e eq. absurd (cc)))
      | inl second ↦ rw there_is (
          rw second (λ e eq.
            subst
              (λ e.
                (e.rows_out ≡ 0)
                × (e.rows_out ≤ job.limits.row_cap)
                × ((e.bytes_out ≤ job.limits.byte_cap) ⊎ (◌≡◌ {A = List (Row (Value Real))} [] [])))
              (emitted_inj (record { rows_out = 0; bytes_out = 0 }) e eq)
              (refl, omega arith, inl (omega arith))))
    ]
  ]

-- Whatever the client takes of its frames, a job that ends behind its trailer reported the number of
-- the rows that it sent, which is at most the row cap, and a number of bytes that is at most the byte
-- cap, or it sent no row at all.
pub execute_in_tx-KeepsCaps :
    {Real Tables : Type 0} (Body : Type 0) (engine : Engine Real Tables) (patience : Patience)
    (job : ExecJob Real) (db : Store Tables) (e : Emitted)
    → let x = execute_in_tx Body engine patience job db in
      x.outcome ≡ emitted e
      → (e.rows_out ≡ length (sent_rows x.frames))
        × (e.rows_out ≤ job.limits.row_cap)
        × ((e.bytes_out ≤ job.limits.byte_cap) ⊎ (sent_rows x.frames ≡ []))
execute_in_tx-KeepsCaps Body engine patience job db e o =
    execute_in_tx_cases Body engine patience job db (KeepsCaps Body engine patience job)
      (λ h n e eq. absurd (cc)) (λ st h n e eq. absurd (cc))
      (λ st q. (step_rows-both Body engine patience job db st q).0)
      (λ json w r. answer_from_applied-KeepsCaps Body engine patience job json db) e o

-- A bound statement that ends behind its trailer sent the first of the rows that sqlite steps to, in
-- order and numbered from 0; the last frame is a Done with their number, and they are all of the rows
-- unless it says truncated, and fewer if it does.
pub step_rows-SendsFirst :
    {Real Tables : Type 0} (Body : Type 0) (engine : Engine Real Tables) (patience : Patience)
    (job : ExecJob Real) (db : Store Tables) (st : Statement Real Tables) (q : Query Real Tables)
    (e : Emitted)
    → let x = step_rows Body engine patience job db st q in
      x.outcome ≡ emitted e
      → AreFirst engine.from_utf8_lossy st.column_names 0 q.rows (sent_rows x.frames)
        × ((d : Done) × (before : List (EnvelopeObject (Value Real) Body)) × (x.frames
              ≡ before ++ EnvelopeObject.done d ∷ [])
            × (d.row_count ≡ some (pos (length (sent_rows x.frames))))
            × (d.truncated ≡ false → length (sent_rows x.frames) ≡ length q.rows)
            × (d.truncated ≡ true → length (sent_rows x.frames) < length q.rows))
step_rows-SendsFirst Body engine patience job db st q e o =
    (step_rows-both Body engine patience job db st q).1 e o
