-- ===== src/Surfaces/Outbox/Settled.antt =====
-- crates/surfaces/src/outbox.rs: what an attempt leaves of its own row.
use rsntr.Base.{
  ◌≡◌, ◌⊎◌, refl, sym, ap, ◌∙◌, subst, inl, inr, Bool, true, false, if◌then◌else◌, Option, none,
  some, List, [], ◌∷◌, ◌++◌, map, In, here, there, Str, ◌=s◌, Bool-cases, Option-cases,
}
use rsntr.Protocol.Response.{new}
use rsntr.Surfaces.Outbox.{
  Status, queued, sent, finished, expired, failed, OutboxRow, Tables, Step, settled, again, done,
  denied, error, Ended, outcome, truncated, retried, Texts, Faults, Dial, dial_failed, opened,
  World, Received, is_open, with_status, if_queued, update_row, mark_sent, mark_terminal,
  persist_done, delete_results, numbered, conclude, dialled, process_row, read_frames,
}
use rsntr.Surfaces.Outbox.Results.{
  results_of, count_from, results_of-append, results_of-numbered, results_of-delete_results,
}

map-In :
    (f : OutboxRow → OutboxRow) (q : OutboxRow) (rows : List OutboxRow)
    → In q (map f rows)
    → (p : OutboxRow) × In p rows × (q ≡ f p)
map-In f q [] m = elim m [ ]
map-In f q (p ∷ rows) (here e) = (p, here refl, e)
map-In f q (p ∷ rows) (there later) = let (p', m, e) = map-In f q rows later in (p', there m, e)

-- The results stand, and a row of the request is as it was or sent.
abbrev pub Stays : Str → Tables → Tables → Type 0
Stays id t t' =
    (t'.results ≡ t.results)
    × ((q : OutboxRow)
        → In q t'.outbox
        → (q.request_id =s id) ≡ true
        → In q t.outbox ⊎ (q.status ≡ sent))

-- What an attempt leaves. If it settled the row and sqlite did not fail the statement that writes so, no
-- row of the request is queued or sent any more; otherwise the row stays.
abbrev pub Lands : Bool → Str → Tables → Step × Tables → Type 0
Lands false id t (settled, t') =
    (q : OutboxRow) → In q t'.outbox → (q.request_id =s id) ≡ true → is_open q.status ≡ false
Lands true id t (settled, t') = Stays id t t'
Lands false id t (again, t') = Stays id t t'
Lands true id t (again, t') = Stays id t t'

module _ (id : Str) (t : Tables) where
  update_row-status :
      (s : Status) (e : Option Str) (q : OutboxRow)
      → In q (map (update_row id (λ r. with_status r s e)) t.outbox)
      → (q.request_id =s id) ≡ true
      → q.status ≡ s
  update_row-status s e q m mine =
      let (p, there_is, made) = map-In (update_row id (λ r. with_status r s e)) q t.outbox m in
      elim (Bool-cases (p.request_id =s id)) [
        | inl it_is ↦
            let here_too : q ≡ with_status p s e = made ∙ rw it_is refl in
            ap (λ x. x.status) here_too
        | inr is_other ↦
            let kept : q ≡ p = made ∙ rw is_other refl in
            absurd
              (let f : true ≡ false = sym mine ∙ ap (λ x. x.request_id =s id) kept ∙ is_other in cc)
      ]

  mark_terminal-Lands :
      (fails : Bool) (t0 : Tables) (s : Status) (e : Option Str)
      → is_open s ≡ false
      → Stays id t0 t
      → Lands fails id t0 (settled, mark_terminal fails id s e t)
  unfolding mark_terminal
  mark_terminal-Lands true t0 s e closed before = before
  mark_terminal-Lands false t0 s e closed before =
      λ q m mine. ap is_open (update_row-status s e q m mine) ∙ closed

  persist_done-Lands :
      (fails : Bool) (t0 : Tables) (rows : List Str)
      → Stays id t0 t
      → Lands fails id t0 (settled, persist_done fails id rows t)
  unfolding persist_done is_open
  persist_done-Lands true t0 rows before = before
  persist_done-Lands false t0 rows before =
      λ q m mine. ap is_open (update_row-status finished none q m mine)

  if_queued-either : (p : OutboxRow) → (if_queued p ≡ p) ⊎ ((if_queued p).status ≡ sent)
  if_queued-either p = go p.status refl
    where
      go : (s : Status) → p.status ≡ s → (if_queued p ≡ p) ⊎ ((if_queued p).status ≡ sent)
      go queued e = inr (rw e refl)
      go sent e = inl (rw e refl)
      go finished e = inl (rw e refl)
      go Status.denied e = inl (rw e refl)
      go failed e = inl (rw e refl)
      go expired e = inl (rw e refl)

  Stays-self : Stays id t t
  Stays-self = (refl, λ q m mine. inl m)

  mark_sent-Stays : (fails : Bool) → Stays id t (mark_sent fails id t)
  unfolding mark_sent
  mark_sent-Stays true = Stays-self
  mark_sent-Stays false = (
    refl,
    λ q m mine.
        let (p, there_is, made) = map-In (update_row id if_queued) q t.outbox m in
        elim (Bool-cases (p.request_id =s id)) [
          | inr is_other ↦ inl (subst (λ x. In x t.outbox) (sym (made ∙ rw is_other refl)) there_is)
          | inl it_is ↦ elim (if_queued-either p) [
            | inl kept ↦ inl (subst (λ x. In x t.outbox) (sym (made ∙ rw it_is kept)) there_is)
            | inr now_sent ↦
                (let here_too : q ≡ if_queued p = made ∙ rw it_is refl in
                  inr (ap (λ x. x.status) here_too ∙ now_sent))
          ]
        ],
  )

  again-Lands : (fails : Bool) (t' : Tables) → Stays id t t' → Lands fails id t (again, t')
  again-Lands true t' before = before
  again-Lands false t' before = before

module _ {Value Body : Type 0} where
  -- with what was marked before
  conclude-Lands :
      (texts : Texts Value Body) (fails : Bool) (id : Str) (end : Ended) (t0 t : Tables)
      → Stays id t0 t
      → Lands fails id t0 (conclude texts fails id end t)
  unfolding conclude is_open
  conclude-Lands texts fails id (outcome done rows) t0 t before =
      persist_done-Lands id t fails t0 rows before
  conclude-Lands texts fails id (outcome (denied reason) rows) t0 t before =
      mark_terminal-Lands id t fails t0 Status.denied (some reason) refl before
  conclude-Lands texts fails id (outcome (error msg) rows) t0 t before =
      mark_terminal-Lands id t fails t0 failed (some msg) refl before
  conclude-Lands texts fails id truncated t0 t before = again-Lands id t0 fails t before
  conclude-Lands texts fails id retried t0 t before = again-Lands id t0 fails t before

  dialled-Lands :
      (w : World Value Body) (faults : Faults) (row : OutboxRow) (dial : Dial Value Body)
      (t : Tables)
      → Lands faults.end_fails row.request_id t (dialled w faults row dial t)
  unfolding dialled
  dialled-Lands w faults row dial_failed t =
      again-Lands row.request_id t faults.end_fails t (Stays-self row.request_id t)
  dialled-Lands w faults row (opened true received) t =
      again-Lands row.request_id t faults.end_fails (mark_sent faults.mark_fails row.request_id t)
        (mark_sent-Stays row.request_id t faults.mark_fails)
  dialled-Lands w faults row (opened false received) t =
      conclude-Lands w.texts faults.end_fails row.request_id
        (read_frames w.texts (new (w.request_id row.request_id)) [] [] received) t
        (mark_sent faults.mark_fails row.request_id t)
        (mark_sent-Stays row.request_id t faults.mark_fails)

-- An attempt that settles its row leaves no row of the request queued or sent, unless sqlite fails the
-- statement that writes so. Then, and after every other attempt, the results are as they were, and the
-- row is as it was or sent.
pub process_row-Lands :
    {Value Body : Type 0} (w : World Value Body) (faults : Faults) (row : OutboxRow)
    (dial : Dial Value Body) (t : Tables)
    → Lands faults.end_fails row.request_id t (process_row w faults row dial t)
unfolding process_row is_open
process_row-Lands w faults row dial t =
    let id = row.request_id in
    elim (Option-cases (w.malformed row.params)) [
      | inr (e, bad) ↦
          rw (bad, process_row)
            (mark_terminal-Lands id t faults.end_fails t failed (some e) refl (Stays-self id t))
      | inl readable ↦ elim (Bool-cases (w.resolves row.peer)) [
        | inr unknown ↦
            rw (readable, process_row)
              (rw unknown (
                mark_terminal-Lands id t faults.end_fails t failed (some (w.unknown_peer row.peer))
                  refl (Stays-self id t)))
        | inl known ↦ rw (readable, process_row) (rw known (dialled-Lands w faults row dial t))
      ]
    ]

persist_done-results :
    (fails : Bool) (id : Str) (rows : List Str) (t : Tables)
    → results_of id (persist_done fails id rows t).results
      ≡ (if fails then results_of id t.results else count_from 0 rows)
unfolding persist_done
persist_done-results true id rows t = refl
persist_done-results false id rows t =
    results_of-append id (delete_results id t.results) (numbered id 0 rows)
    ∙ ap (λ kept. kept ++ results_of id (numbered id 0 rows))
        (results_of-delete_results id t.results)
    ∙ results_of-numbered id 0 rows

mark_sent-results :
    (fails : Bool) (id : Str) (t : Tables) → (mark_sent fails id t).results ≡ t.results
unfolding mark_sent
mark_sent-results true id t = refl
mark_sent-results false id t = refl

-- A resend never duplicates: whatever _results held of the request, a response that ends with a Done
-- leaves exactly its own rows there, numbered from 0; or what was there, if sqlite fails the transaction.
pub process_row-results :
    {Value Body : Type 0} (w : World Value Body) (faults : Faults) (row : OutboxRow)
    (received : List (Received Value Body)) (rows : List Str) (t : Tables)
    → w.malformed row.params ≡ none
    → w.resolves row.peer ≡ true
    → read_frames w.texts (new (w.request_id row.request_id)) [] [] received ≡ outcome done rows
    → results_of row.request_id ((process_row w faults row (opened false received) t).1).results
      ≡ (if faults.end_fails then results_of row.request_id t.results else count_from 0 rows)
unfolding process_row dialled conclude
process_row-results w faults row received rows t readable known e =
    let id = row.request_id in
    let sent_to = mark_sent faults.mark_fails id t in
    rw (readable, process_row)
      (rw known (
        rw (e, conclude)
          (persist_done-results faults.end_fails id rows sent_to
            ∙ ap (λ results. if faults.end_fails then results_of id results else count_from 0 rows)
                (mark_sent-results faults.mark_fails id t))))
