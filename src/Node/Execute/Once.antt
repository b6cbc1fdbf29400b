-- ===== src/Node/Execute/Once.antt =====
-- crates/node/src/pipeline.rs: a write is applied at most once, and an error leaves the store alone.
use rsntr.Base.{
  ℕ, ◌≡◌, ◌⊎◌, refl, ap, ◌∙◌, subst, inl, inr, Bool, true, false, Option, none, some, List, [], ◌∷◌,
  ◌++◌, any, arith, Str, ◌=s◌, =s_refl, Option-cases, Bool-cases,
}
use rsntr.Authenticator.Chain.{get}
use rsntr.Protocol.Envelope.{Done, EnvelopeObject}
use rsntr.Web.Csv.{Value}
use rsntr.Node.Engine.{Store, Query, Statement, Engine}
use rsntr.Node.Execute.Cases.{execute_in_tx_cases}
use rsntr.Node.Stream.{
  Patience, ExecJob, Halt, client_gone, sqlite, Emitted, emitted, Streamed, streamed, stopped,
  is_write, is_there,
}
use rsntr.Node.Execute.{
  Execution, halts, push_done, applied_header, answer_from_applied, insert_applied, commit_and_done,
  conclude, conclude_streamed, step_rows, recorded, execute_in_tx, header_of,
}

get-append :
    (id json : Str) (rows : List (Str × Str))
    → any (λ row. row.0 =s id) rows ≡ false
    → get id (rows ++ (id, json) ∷ []) ≡ some json
unfolding get
get-append id json [] h = rw (=s_refl id) refl
get-append id json ((k, v) ∷ rows) h = ground (arith, get-append id json rows)

abbrev Records : {Tables : Type 0} → Str → Str → Option (Store Tables) → Type 0
Records id json none = Unit
Records id json (some db) = recorded id db ≡ some (some json)

insert_applied-Records :
    {Tables : Type 0} (id json : Str) (applied : Option (List (Str × Str))) (tables : Tables)
    → Records id json (insert_applied id json (record { applied = applied; tables = tables }))
unfolding insert_applied recorded
insert_applied-Records id json none tables = tt
insert_applied-Records id json (some rows) tables =
    elim (Bool-cases (any (λ row. row.0 =s id) rows)) [
      | inl taken ↦ rw taken tt
      | inr fresh ↦ rw fresh (ap some (get-append id json rows fresh))
    ]

module _ {Real Tables : Type 0} (Body : Type 0) (engine : Engine Real Tables) (patience : Patience)
    (job : ExecJob Real) (db : Store Tables) where
  -- Either nothing happened to the store, or the job is recorded as applied; it is if it emitted.
  abbrev Reached : Execution Real Tables Body → Type 0
  Reached x =
      ((x.store ≡ db) ⊎ ((json : Str) × (recorded job.id x.store ≡ some (some json))))
      × ((e : Emitted)
          → x.outcome ≡ emitted e
          → (json : Str) × (recorded job.id x.store ≡ some (some json)))

  halts-Reached :
      (frames : List (EnvelopeObject (Value Real) Body)) (h : Halt)
      → Reached (halts Body engine patience frames db h)
  halts-Reached frames h = (inl refl, λ e eq. absurd (cc))

  push_done-Reached :
      (frames : List (EnvelopeObject (Value Real) Body)) (sent : ℕ) (d : Done) (db' : Store Tables)
      (e : Emitted) (json : Str)
      → recorded job.id db' ≡ some (some json)
      → Reached (push_done Body engine patience frames sent d db' e)
  push_done-Reached frames sent d db' e json r = elim (Bool-cases (is_there patience sent)) [
    | inl there_is ↦ rw there_is (inr (json, r), λ e' eq. (json, r))
    | inr gone ↦ rw gone (inr (json, r), λ e' eq. (json, r))
  ]

  commit_and_done-Reached :
      (frames : List (EnvelopeObject (Value Real) Body)) (sent : ℕ) (d : Done) (db' : Store Tables)
      (e : Emitted) (json : Str)
      → recorded job.id db' ≡ some (some json)
      → Reached (commit_and_done Body engine patience frames sent d db db' e)
  unfolding commit_and_done
  commit_and_done-Reached frames sent d db' e json r = elim (Option-cases (engine.commit db')) [
    | inl fine ↦ rw (fine, commit_and_done) (push_done-Reached frames sent d db' e json r)
    | inr (error, bad) ↦ rw (bad, commit_and_done) (halts-Reached frames (sqlite error))
  ]

  conclude-Reached :
      (q : Query Real Tables) (frames : List (EnvelopeObject (Value Real) Body))
      (sent seq bytes steps : ℕ) (truncated : Bool)
      → is_write job ≡ true
      → Reached (conclude Body engine patience job db q frames sent seq bytes steps truncated)
  unfolding conclude
  conclude-Reached q frames sent seq bytes steps truncated writes =
      let json = engine.to_json q.changes q.last_insert_rowid in
      elim (Option-cases (insert_applied job.id json (q.after steps))) [
        | inl taken ↦
            rw writes (rw (taken, conclude) (halts-Reached frames (sqlite engine.failure)))
        | inr (db', fresh) ↦ rw writes (
            rw (fresh, conclude)
              (commit_and_done-Reached frames sent _ db' _ json (
                subst (Records job.id json) fresh (
                  insert_applied-Records job.id json (q.after steps).applied
                    (q.after steps).tables))))
      ]

  conclude_streamed-Reached :
      (q : Query Real Tables) (header : EnvelopeObject (Value Real) Body)
      (frames : List (EnvelopeObject (Value Real) Body)) (end : Streamed)
      → is_write job ≡ true
      → Reached (conclude_streamed Body engine patience job db q header frames end)
  unfolding conclude_streamed
  conclude_streamed-Reached q header frames (stopped h) writes = halts-Reached (header ∷ frames) h
  conclude_streamed-Reached q header frames (streamed sent seq bytes steps truncated) writes =
      conclude-Reached q (header ∷ frames) sent seq bytes steps truncated writes

  step_rows-Reached :
      (st : Statement Real Tables) (q : Query Real Tables)
      → is_write job ≡ true
      → Reached (step_rows Body engine patience job db st q)
  unfolding step_rows
  step_rows-Reached st q writes = conclude_streamed-Reached q _ _ _ writes

  answer_from_applied-Reached :
      (json : Str)
      → recorded job.id db ≡ some (some json)
      → Reached (answer_from_applied Body engine patience job.id json db)
  unfolding answer_from_applied
  answer_from_applied-Reached json r = elim (Bool-cases (is_there patience 0)) [
    | inl taken ↦
        rw taken
          (push_done-Reached (applied_header Body engine patience job.id ∷ []) 1 _ db _ json r)
    | inr gone ↦ rw gone (halts-Reached [] client_gone)
  ]

  execute_in_tx-Reached : is_write job ≡ true → Reached (execute_in_tx Body engine patience job db)
  execute_in_tx-Reached writes =
      execute_in_tx_cases Body engine patience job db Reached (λ h n. halts-Reached [] h)
        (λ st h n. halts-Reached (header_of Body engine patience job st ∷ []) h)
        (λ st q. step_rows-Reached st q writes) (λ json w r. answer_from_applied-Reached json r)

  push_done-store :
      (frames : List (EnvelopeObject (Value Real) Body)) (sent : ℕ) (d : Done) (db' : Store Tables)
      (e : Emitted)
      → (push_done Body engine patience frames sent d db' e).store ≡ db'
  push_done-store frames sent d db' e = ground arith

  pub answer_from_applied-store :
      (json : Str) → (answer_from_applied Body engine patience job.id json db).store ≡ db
  unfolding answer_from_applied
  answer_from_applied-store json = ground arith

  -- A job that is recorded leaves the store alone.
  execute_in_tx-recorded :
      (json : Str)
      → is_write job ≡ true
      → recorded job.id db ≡ some (some json)
      → (execute_in_tx Body engine patience job db).store ≡ db
  unfolding execute_in_tx
  execute_in_tx-recorded json writes r = elim (Option-cases (engine.begin (is_write job) db)) [
    | inr (error, e) ↦ rw (e, execute_in_tx) refl
    | inl begun ↦
        rw (begun, execute_in_tx)
          (rw writes (rw (r, execute_in_tx) (answer_from_applied-store json)))
  ]

-- A write is applied at most once. Of two jobs that write under the same request id, one after the
-- other and whatever the client takes of the frames, the first leaves the store as it was or the
-- second does; and once the first emitted its trailer, the second does.
pub execute_in_tx_once :
    {Real Tables : Type 0} (Body : Type 0) (engine : Engine Real Tables)
    (patience patience' : Patience) (job job' : ExecJob Real) (db : Store Tables)
    → is_write job ≡ true
    → is_write job' ≡ true
    → job'.id ≡ job.id
    → let first = execute_in_tx Body engine patience job db in
      let second = execute_in_tx Body engine patience' job' first.store in
      ((first.store ≡ db) ⊎ (second.store ≡ first.store))
      × ((e : Emitted) → first.outcome ≡ emitted e → second.store ≡ first.store)
execute_in_tx_once Body engine patience patience' job job' db w w' same =
    let first = execute_in_tx Body engine patience job db in
    let (either, when) = execute_in_tx-Reached Body engine patience job db w in
    let again = λ (json : Str) (r : recorded job.id first.store ≡ some (some json)).
      execute_in_tx-recorded Body engine patience' job' first.store json w'
        (ap (λ id. recorded id first.store) same ∙ r) in
    (
      elim either [ inl kept ↦ inl kept | inr (json, r) ↦ inr (again json r) ],
      λ e o. let (json, r) = when e o in again json r,
    )
