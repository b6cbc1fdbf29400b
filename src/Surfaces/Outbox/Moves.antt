-- ===== src/Surfaces/Outbox/Moves.antt =====
-- crates/surfaces/src/outbox.rs: shipping a row leaves the rows and results of other requests alone.
use rsntr.Base.{
  ◌≡◌, refl, sym, ap, ◌∙◌, subst, inl, inr, Bool, true, false, Option, none, some, List, [], ◌∷◌,
  ◌++◌, map, append-nil, In, here, there, Str, ◌=s◌, =s_iff, =s_refl, Bool-cases, Option-cases,
}
use rsntr.Protocol.Response.{new}
use rsntr.Surfaces.Outbox.{
  Status, finished, failed, OutboxRow, Tables, done, denied, error, Ended, outcome, truncated,
  retried, Texts, Faults, Dial, dial_failed, opened, World, Received, with_status, if_queued,
  update_row, mark_sent, mark_terminal, delete_results, numbered, persist_done, conclude, exchange,
  dialled, process_row, read_frames,
}
use rsntr.Surfaces.Outbox.Results.{
  results_of, results_of-append, results_of-numbered_ne, results_of-delete_results_ne,
}

In-map :
    (f : OutboxRow → OutboxRow) (r : OutboxRow) (rows : List OutboxRow)
    → In r rows
    → f r ≡ r
    → In r (map f rows)
In-map f r [] h e = elim h [ ]
In-map f r (q ∷ rows) (here same) e = here (sym e ∙ ap f same)
In-map f r (q ∷ rows) (there later) e = there (In-map f r rows later e)

-- A row of another request stands as it was, and its results do.
abbrev pub Keeps : OutboxRow → Tables → Tables → Type 0
Keeps r t t' =
    (In r t.outbox → In r t'.outbox)
    × (results_of r.request_id t'.results ≡ results_of r.request_id t.results)

module _ (r : OutboxRow) (id : Str) (other_row : (r.request_id =s id) ≡ false) where
  other_id : (id =s r.request_id) ≡ false
  other_id = elim (Bool-cases (id =s r.request_id)) [
    | inr n ↦ n
    | inl y ↦
        let same = (=s_iff id r.request_id).0 y in
        absurd (
          let f : true ≡ false =
            sym (=s_refl r.request_id) ∙ ap (λ x. r.request_id =s x) (sym same) ∙ other_row in
          cc)
  ]

  update_row-other : (f : OutboxRow → OutboxRow) → update_row id f r ≡ r
  update_row-other f = rw other_row refl

  mark_sent-Keeps : (fails : Bool) (t : Tables) → Keeps r t (mark_sent fails id t)
  unfolding mark_sent
  mark_sent-Keeps true t = (λ m. m, refl)
  mark_sent-Keeps false t =
      (λ m. In-map (update_row id if_queued) r t.outbox m (update_row-other if_queued), refl)

  pub mark_terminal-Keeps :
      (fails : Bool) (s : Status) (e : Option Str) (t : Tables)
      → Keeps r t (mark_terminal fails id s e t)
  unfolding mark_terminal
  mark_terminal-Keeps true s e t = (λ m. m, refl)
  mark_terminal-Keeps false s e t = (
    λ m.
        In-map (update_row id (λ q. with_status q s e)) r t.outbox m
          (update_row-other (λ q. with_status q s e)),
    refl,
  )

  persist_done-Keeps :
      (fails : Bool) (rows : List Str) (t : Tables) → Keeps r t (persist_done fails id rows t)
  unfolding persist_done
  persist_done-Keeps true rows t = (λ m. m, refl)
  persist_done-Keeps false rows t = (
    λ m.
        In-map (update_row id (λ q. with_status q finished none)) r t.outbox m
          (update_row-other (λ q. with_status q finished none)),
    results_of-append r.request_id (delete_results id t.results) (numbered id 0 rows)
        ∙ ap (λ rest. results_of r.request_id (delete_results id t.results) ++ rest)
            (results_of-numbered_ne r.request_id id 0 rows other_id)
        ∙ append-nil (results_of r.request_id (delete_results id t.results))
        ∙ results_of-delete_results_ne r.request_id id t.results other_id,
  )

  pub Keeps-trans : (t t' t2 : Tables) → Keeps r t t' → Keeps r t' t2 → Keeps r t t2
  Keeps-trans t t' t2 k k' = (λ m. k'.0 (k.0 m), k'.1 ∙ k.1)

  marked :
      (fails : Bool) (row : OutboxRow) (e : Str) (t : Tables)
      → row.request_id ≡ id
      → Keeps r t (mark_terminal fails row.request_id failed (some e) t)
  marked fails row e t same =
      subst (λ k. Keeps r t (mark_terminal fails k failed (some e) t)) (sym same)
        (mark_terminal-Keeps fails failed (some e) t)

  module _ {Value Body : Type 0} (faults : Faults) where
    conclude-Keeps :
        (texts : Texts Value Body) (end : Ended) (t : Tables)
        → Keeps r t ((conclude texts faults.end_fails id end t).1)
    unfolding conclude
    conclude-Keeps texts (outcome done rows) t = persist_done-Keeps faults.end_fails rows t
    conclude-Keeps texts (outcome (denied reason) rows) t =
        mark_terminal-Keeps faults.end_fails Status.denied (some reason) t
    conclude-Keeps texts (outcome (error msg) rows) t =
        mark_terminal-Keeps faults.end_fails failed (some msg) t
    conclude-Keeps texts truncated t = (λ m. m, refl)
    conclude-Keeps texts retried t = (λ m. m, refl)

    exchange-Keeps :
        (w : World Value Body) (row : OutboxRow) (send_fails : Bool)
        (received : List (Received Value Body)) (t : Tables)
        → row.request_id ≡ id
        → Keeps r t ((exchange w faults row send_fails received t).1)
    exchange-Keeps w row true received t e = (λ m. m, refl)
    exchange-Keeps w row false received t e =
        subst
          (λ k. Keeps r t (
            (conclude w.texts faults.end_fails k
              (read_frames w.texts (new (w.request_id row.request_id)) [] [] received) t).1))
          (sym e)
          (conclude-Keeps w.texts
            (read_frames w.texts (new (w.request_id row.request_id)) [] [] received) t)

    dialled-Keeps :
        (w : World Value Body) (row : OutboxRow) (dial : Dial Value Body) (t : Tables)
        → row.request_id ≡ id
        → Keeps r t ((dialled w faults row dial t).1)
    unfolding dialled
    dialled-Keeps w row dial_failed t same = (λ m. m, refl)
    dialled-Keeps w row (opened send_fails received) t same =
        let sent_to = mark_sent faults.mark_fails row.request_id t in
        Keeps-trans t sent_to ((exchange w faults row send_fails received sent_to).1)
          (subst (λ k. Keeps r t (mark_sent faults.mark_fails k t)) (sym same)
            (mark_sent-Keeps faults.mark_fails t))
          (exchange-Keeps w row send_fails received sent_to same)

    pub process_row-Keeps :
        (w : World Value Body) (row : OutboxRow) (dial : Dial Value Body) (t : Tables)
        → row.request_id ≡ id
        → Keeps r t ((process_row w faults row dial t).1)
    unfolding process_row
    process_row-Keeps w row dial t same = elim (Option-cases (w.malformed row.params)) [
      | inr (e, bad) ↦ rw (bad, process_row) (marked faults.end_fails row e t same)
      | inl readable ↦ elim (Bool-cases (w.resolves row.peer)) [
        | inr unknown ↦
            rw (readable, process_row)
              (rw unknown (marked faults.end_fails row (w.unknown_peer row.peer) t same))
        | inl known ↦ rw (readable, process_row) (rw known (dialled-Keeps w row dial t same))
      ]
    ]
