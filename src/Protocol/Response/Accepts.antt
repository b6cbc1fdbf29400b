-- ===== src/Protocol/Response/Accepts.antt =====
-- crates/protocol/src/response.rs: what ResponseReader accepts, from the frames of one response to
-- its verdict at the end of the stream.
use rsntr.Base.{
  ℕ, suc, ◌+◌, ◌≡◌, ◌≢◌, ◌↔◌, refl, Option, none, some, List, [], ◌∷◌, arith, Str, codes, length,
  =s_iff,
}
use rsntr.Protocol.Envelope.{Row, EnvelopeObject}
use rsntr.Protocol.Response.{
  Choreography, Choreography.already_failed, ok, err, State, await_header, in_rows, in_graphs,
  in_generics, finished, failed, ResponseReader, ResponseEvent, is_terminal, is_finished, new,
  check_id, check_rows, accept_live, try_accept, accept, finish, read_all, poisoned, accept_checked,
  Step,
}
use rsntr.Protocol.Response.Grammar.{
  Closes, Batches, Graphs, Generics, IsResponse, is_seq_iff, check_rows_iff,
}
use rsntr.Protocol.Response.Reader.{at, check_id_iff, read_response}

abbrev Runs : State → Type 0
Runs (in_rows _) = Unit
Runs in_graphs = Unit
Runs in_generics = Unit
Runs _ = ⊥

module _ {Value Body : Type 0} (id : Str) where
  after_close :
      (s : State) (n : ℕ) (objs : List (EnvelopeObject Value Body))
      → Runs s
      → Closes id objs
      → read_all (at id s n) objs ≡ ok tt
  unfolding read_all accept try_accept accept_live finish check_id
  after_close (in_rows columns) n _ runs (Closes.done d mine) = ground (arith, =s_iff d.id id)
  after_close in_graphs n _ runs (Closes.done d mine) = ground (arith, =s_iff d.id id)
  after_close in_generics n _ runs (Closes.done d mine) = ground (arith, =s_iff d.id id)
  after_close (in_rows columns) n _ runs (Closes.error x mine) =
      ground (arith, (check_id_iff id (in_rows columns) n x.id (codes "rsntr:Error")).1 mine)
  after_close in_graphs n _ runs (Closes.error x mine) =
      ground (arith, (check_id_iff id in_graphs n x.id (codes "rsntr:Error")).1 mine)
  after_close in_generics n _ runs (Closes.error x mine) =
      ground (arith, (check_id_iff id in_generics n x.id (codes "rsntr:Error")).1 mine)
  after_close await_header n _ runs closing = absurd runs
  after_close finished n _ runs closing = absurd runs
  after_close failed n _ runs closing = absurd runs

  after-Batches :
      (columns : List Str) (n : ℕ) (objs : List (EnvelopeObject Value Body))
      → Batches id columns n objs
      → read_all (at id (in_rows columns) n) objs ≡ ok tt
  unfolding read_all accept try_accept accept_live finish check_id
  after-Batches columns n objs (Batches.close closing) =
      after_close (in_rows columns) n objs tt closing
  after-Batches columns n _ (Batches.batch [] filled numbered declared rest) = absurd (filled refl)
  after-Batches columns n _ (Batches.batch (r ∷ rs) {objs} filled numbered declared rest) = ground (
    arith,
    after-Batches columns (n + suc (length rs)) objs rest,
    (check_rows_iff columns n (n + suc (length rs)) (r ∷ rs)).1 (numbered, declared, refl),
  )

  after-Graphs :
      (n : ℕ) (objs : List (EnvelopeObject Value Body))
      → Graphs id n objs
      → read_all (at id in_graphs n) objs ≡ ok tt
  unfolding read_all accept try_accept accept_live finish check_id
  after-Graphs n objs (Graphs.close closing) = after_close in_graphs n objs tt closing
  after-Graphs n _ (Graphs.graph g {objs} mine next rest) =
      ground (arith, after-Graphs (suc n) objs rest, =s_iff g.id id, is_seq_iff g.seq n)

  after-Generics :
      (n : ℕ) (objs : List (EnvelopeObject Value Body))
      → Generics id objs
      → read_all (at id in_generics n) objs ≡ ok tt
  unfolding read_all accept try_accept accept_live finish check_id
  after-Generics n objs (Generics.close closing) = after_close in_generics n objs tt closing
  after-Generics n _ (Generics.generic g {objs} rest) = after-Generics n objs rest

  read_of_IsResponse :
      (n : ℕ) (objs : List (EnvelopeObject Value Body))
      → IsResponse id n objs
      → read_all (at id await_header n) objs ≡ ok tt
  unfolding read_all accept try_accept accept_live finish check_id
  read_of_IsResponse n _ (IsResponse.table h {objs} mine rest) =
      ground (arith, =s_iff h.id id, after-Batches h.columns n objs rest)
  read_of_IsResponse n _ (IsResponse.chunks g {objs} mine next rest) =
      ground (arith, =s_iff g.id id, is_seq_iff g.seq n, after-Graphs (suc n) objs rest)
  read_of_IsResponse n _ (IsResponse.passthrough g {objs} rest) = after-Generics n objs rest
  read_of_IsResponse n _ (IsResponse.denial d mine) =
      ground (arith, (check_id_iff id await_header n d.id (codes "rsntr:Denied")).1 mine)
  read_of_IsResponse n _ (IsResponse.failure x mine) =
      ground (arith, (check_id_iff id await_header n x.id (codes "rsntr:Error")).1 mine)
  read_of_IsResponse n _ (IsResponse.guidance h mine) =
      ground (arith, (check_id_iff id await_header n h.id (codes "rsntr:Help")).1 mine)
  read_of_IsResponse n _ (IsResponse.feed m mine) =
      ground (arith, (check_id_iff id await_header n (some m.id) (codes "rsntr:Media")).1 mine)

-- A stream is read without an error, up to its end, exactly when it is a response of the grammar:
-- a header and batches of rows of its columns, graph chunks or passthrough frames, closed by a Done
-- or an Error, or a Denied, Error, Help or Media alone; its ids are the request's, and its rows or
-- graphs are numbered from 0 with no gap.
pub read_all_iff :
    {Value Body : Type 0} (id : Str) (objs : List (EnvelopeObject Value Body))
    → (read_all (new id) objs ≡ ok tt) ↔ IsResponse id 0 objs
read_all_iff id objs = (read_response id objs 0, read_of_IsResponse id 0 objs)

already_failed_after :
    {Value Body : Type 0} (step : Step Value Body) (more : List (EnvelopeObject Value Body))
    (why : Choreography)
    → (poisoned step).0 ≡ err why
    → read_all ((poisoned step).1) more ≡ err already_failed
unfolding read_all accept try_accept finish
already_failed_after (ok event, r) more why e = absurd (cc)
already_failed_after (err _, r) [] why e = refl
already_failed_after (err _, r) (obj ∷ objs) why e = refl

-- After a frame that was refused, every frame is refused, and so is the end of the stream.
pub read_all-accept_err :
    {Value Body : Type 0} (r : ResponseReader) (obj : EnvelopeObject Value Body)
    (more : List (EnvelopeObject Value Body)) (why : Choreography)
    → (accept r obj).0 ≡ err why
    → read_all ((accept r obj).1) more ≡ err already_failed
unfolding read_all accept
read_all-accept_err r obj more why e = already_failed_after (try_accept r obj) more why e

batch_at :
    {Value Body : Type 0} (id : Str) (s : State) (n : ℕ) (rs : List (Row Value))
    (outcome : Option Choreography × ℕ) (event : ResponseEvent Value Body)
    → s ≢ finished
    → (poisoned (accept_checked (at id s n) rs outcome)).0 ≡ ok event
    → is_finished
        ((poisoned (accept_checked {Value = Value} {Body = Body} (at id s n) rs outcome)).1)
      ≡ is_terminal event
unfolding is_finished is_terminal
batch_at id s n rs (none, m) event live e = ground arith
batch_at id s n rs (some why, m) event live e = absurd (cc)

terminal_at :
    {Value Body : Type 0} (id : Str) (s : State) (n : ℕ) (obj : EnvelopeObject Value Body)
    (event : ResponseEvent Value Body)
    → (accept (at id s n) obj).0 ≡ ok event
    → is_finished ((accept (at id s n) obj).1) ≡ is_terminal event
unfolding accept try_accept accept_live is_finished is_terminal
terminal_at id failed n obj event e = ground arith
terminal_at id finished n obj event e = ground arith
terminal_at id await_header n (EnvelopeObject.row rs) event e = ground arith
terminal_at id await_header n obj event e = ground arith
terminal_at id (in_rows columns) n (EnvelopeObject.row []) event e = ground arith
terminal_at id (in_rows columns) n (EnvelopeObject.row (r ∷ rs)) event e =
    batch_at id (in_rows columns) n (r ∷ rs) (check_rows columns n (r ∷ rs)) event (λ bad. cc) e
terminal_at id (in_rows columns) n obj event e = ground arith
terminal_at id in_graphs n obj event e = ground arith
terminal_at id in_generics n obj event e = ground arith

-- An accepted frame finishes the reader exactly when its event is terminal.
pub accept-is_terminal :
    {Value Body : Type 0} (r : ResponseReader) (obj : EnvelopeObject Value Body)
    (event : ResponseEvent Value Body)
    → (accept r obj).0 ≡ ok event
    → is_finished ((accept r obj).1) ≡ is_terminal event
unfolding accept try_accept accept_live is_finished is_terminal
accept-is_terminal r obj event e = terminal_at r.id r.state r.next_seq obj event e
