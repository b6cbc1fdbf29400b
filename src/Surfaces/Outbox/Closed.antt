-- ===== src/Surfaces/Outbox/Closed.antt =====
-- crates/surfaces/src/outbox.rs: a row that is done, denied, failed or expired stays so.
use rsntr.Base.{
  ◌≡◌, refl, sym, ap, ◌∙◌, inl, inr, Bool, true, false, List, [], ◌∷◌, All, In, here, there, Str,
  ◌=s◌, =s_iff, Bool-cases, str_lt,
}
use rsntr.Authenticator.Chain.{get}
use rsntr.Surfaces.Outbox.{
  Status, queued, sent, finished, failed, expired, OutboxRow, Tables, OutboxConfig, Step, settled,
  again, World, Turn, Worker, Backoffs, is_open, insert_by_created, scan, process_row, waits,
  has_expired, after_step, tick_row, tick_rows, tick,
}
use rsntr.Surfaces.Outbox.Results.{results_of}
use rsntr.Surfaces.Outbox.Moves.{Keeps, mark_terminal-Keeps, process_row-Keeps, Keeps-trans}

All-In :
    {P : OutboxRow → Type 0} (rows : List OutboxRow)
    → ((q : OutboxRow) → In q rows → P q)
    → All P rows
All-In [] h = tt
All-In (q ∷ rows) h = (h q (here refl), All-In rows (λ p m. h p (there m)))

All-map :
    {P Q : OutboxRow → Type 0} (rows : List OutboxRow)
    → ((q : OutboxRow) → P q → Q q)
    → All P rows
    → All Q rows
All-map [] f h = tt
All-map (q ∷ rows) f h = (f q h.0, All-map rows f h.1)

insert_by_created-All :
    (P : OutboxRow → Type 0) (r : OutboxRow) (rows : List OutboxRow)
    → P r
    → All P rows
    → All P (insert_by_created r rows)
unfolding insert_by_created
insert_by_created-All P r [] h k = (h, tt)
insert_by_created-All P r (q ∷ rows) h k = elim (Bool-cases (str_lt q.created_at r.created_at)) [
  | inl before ↦ rw before (k.0, insert_by_created-All P r rows h k.1)
  | inr behind ↦ rw behind (h, k)
]

-- What the scan yields stands in the table and is queued or sent.
scan-open : (rows : List OutboxRow) → All (λ q. In q rows × (is_open q.status ≡ true)) (scan rows)
unfolding scan
scan-open [] = tt
scan-open (r ∷ rows) =
    let rest : All (λ q. In q (r ∷ rows) × (is_open q.status ≡ true)) (scan rows) =
      All-map (scan rows) (λ q h. (there h.0, h.1)) (scan-open rows) in
    elim (Bool-cases (is_open r.status)) [
      | inl waiting ↦ rw waiting (
          insert_by_created-All (λ q. In q (r ∷ rows) × (is_open q.status ≡ true)) r (scan rows)
            (here refl, waiting) rest)
      | inr closed ↦ rw closed rest
    ]

module _ {Value Body : Type 0} (cfg : OutboxConfig) (w : World Value Body) (r : OutboxRow) where
  after_step-Keeps :
      (turn : Turn Value Body) (row : OutboxRow) (m : Backoffs) (t : Tables)
      (result : Step × Tables)
      → Keeps r t result.1
      → Keeps r t (after_step cfg w turn row.request_id m result).tables
  after_step-Keeps turn row m t (settled, t') k = k
  after_step-Keeps turn row m t (again, t') k = k

  tick_row-Keeps :
      (turn : Turn Value Body) (row : OutboxRow) (s : Worker)
      → (r.request_id =s row.request_id) ≡ false
      → Keeps r s.tables (tick_row cfg w turn row s).tables
  unfolding tick_row
  tick_row-Keeps turn row s differs =
      elim (Bool-cases (waits (get row.request_id s.backoff) turn.now)) [
        | inl backing_off ↦ rw backing_off (λ m. m, refl)
        | inr due ↦ elim (Bool-cases (has_expired turn.age_secs cfg.expiry_secs)) [
          | inl old ↦ rw due (
              rw old (
                mark_terminal-Keeps r row.request_id differs turn.faults.end_fails expired _
                  s.tables))
          | inr young ↦ rw due (
              rw young (
                after_step-Keeps turn row s.backoff s.tables
                  (process_row w turn.faults row turn.dial s.tables)
                  (process_row-Keeps r row.request_id differs turn.faults w row turn.dial s.tables
                    refl)))
        ]
      ]

  tick_rows-Keeps :
      (turns : Str → Turn Value Body) (rows : List OutboxRow) (s : Worker)
      → All (λ row. (r.request_id =s row.request_id) ≡ false) rows
      → Keeps r s.tables (tick_rows cfg w turns rows s).tables
  unfolding tick_rows
  tick_rows-Keeps turns [] s h = (λ m. m, refl)
  tick_rows-Keeps turns (row ∷ rows) s h =
      let next = tick_row cfg w (turns row.request_id) row s in
      Keeps-trans r row.request_id h.0 s.tables next.tables (tick_rows cfg w turns rows next).tables
        (tick_row-Keeps (turns row.request_id) row s h.0) (tick_rows-Keeps turns rows next h.1)

-- `finished` (the text done), `denied`, `failed` and `expired`
abbrev pub IsTerminal : Status → Type 0
IsTerminal queued = ⊥
IsTerminal sent = ⊥
IsTerminal finished = Unit
IsTerminal Status.denied = Unit
IsTerminal failed = Unit
IsTerminal expired = Unit

is_open-IsTerminal : (status : Status) → IsTerminal status → is_open status ≡ false
unfolding is_open
is_open-IsTerminal finished h = refl
is_open-IsTerminal Status.denied h = refl
is_open-IsTerminal failed h = refl
is_open-IsTerminal expired h = refl
is_open-IsTerminal queued h = absurd h
is_open-IsTerminal sent h = absurd h

-- request_id is the primary key of _outbox.
abbrev pub HasKey : List OutboxRow → Type 0
HasKey rows = (q r : OutboxRow) → In q rows → In r rows → r.request_id ≡ q.request_id → r ≡ q

-- A row that is done, denied, failed or expired is left as it is by every tick, whatever the transport
-- does and whichever statements sqlite fails, and so are its results; request_id is the primary key.
pub tick_closed :
    {Value Body : Type 0} (cfg : OutboxConfig) (w : World Value Body) (scan_fails : Bool)
    (turns : Str → Turn Value Body) (s : Worker) (r : OutboxRow)
    → HasKey s.tables.outbox
    → In r s.tables.outbox
    → IsTerminal r.status
    → let t = (tick cfg w scan_fails turns s).tables in
      In r t.outbox × (results_of r.request_id t.results ≡ results_of r.request_id s.tables.results)
unfolding tick tick_rows
tick_closed cfg w true turns s r key m terminal = (m, refl)
tick_closed cfg w false turns s r key m terminal =
    let closed = is_open-IsTerminal r.status terminal in
    let differs =
      All-map (scan s.tables.outbox)
        (λ q h. elim (Bool-cases (r.request_id =s q.request_id)) [
          | inr n ↦ n
          | inl y ↦
              let same : r ≡ q = key q r h.0 m ((=s_iff r.request_id q.request_id).0 y) in
              absurd
                (let f : false ≡ true = sym closed ∙ ap (λ x. is_open x.status) same ∙ h.1 in cc)
        ])
        (scan-open s.tables.outbox) in
    let k = tick_rows-Keeps cfg w r turns (scan s.tables.outbox) s differs in (k.0 m, k.1)
