-- ===== src/Protocol/Response/Reader.antt =====
-- crates/protocol/src/response.rs: ResponseReader accepts exactly the sequences of the grammar.
use rsntr.Base.{
  ℕ, suc, ◌≡◌, ◌≢◌, ◌↔◌, refl, subst, Option, none, some, List, [], ◌∷◌, arith, Str, =s_iff,
}
use rsntr.Protocol.Envelope.{pos, ResultHeader, Row, Done, ErrorEnvelope, Graph, EnvelopeObject}
use rsntr.Protocol.Response.{
  Choreography, Result, ok, err, State, await_header, in_rows, in_graphs, in_generics, finished,
  ResponseReader, ResponseEvent, check_id, check_rows, accept_live, try_accept, accept, finish,
  read_all, poisoned, accept_checked, checked, completes, accept_graph, Step,
}
use rsntr.Protocol.Response.Grammar.{
  IsFor, Closes, Batches, Graphs, Generics, IsResponse, is_seq_iff, check_rows_iff,
}

abbrev pub at : Str → State → ℕ → ResponseReader
at id s n = record { id = id; state = s; next_seq = n }

pub check_id_iff :
    (id : Str) (s : State) (n : ℕ) (own : Option Str) (class : Str)
    → (check_id (at id s n) own class ≡ ok tt) ↔ IsFor id own
unfolding check_id
check_id_iff id s n none class = ground arith
check_id_iff id s n (some own) class = ground (arith, =s_iff own id)

module _ {Value Body : Type 0} (id : Str) where
  -- What a client makes of one step, with the frames that follow.
  abbrev Ends : Step Value Body → List (EnvelopeObject Value Body) → Type 0
  Ends step objs = (elim (step.0) [ ok _ ↦ read_all (step.1) objs | err why ↦ err why ]) ≡ ok tt

  read_finished :
      (n : ℕ) (objs : List (EnvelopeObject Value Body))
      → read_all (at id finished n) objs ≡ ok tt
      → objs ≡ []
  unfolding read_all accept try_accept
  read_finished n [] e = refl
  read_finished n (obj ∷ objs) e = absurd (cc)

  read_checked :
      (s : State) (n : ℕ) (outcome : Result (Unit {0})) (event : ResponseEvent Value Body)
      (objs : List (EnvelopeObject Value Body))
      → Ends (poisoned (checked (at id s n) outcome (ok event, at id finished n))) objs
      → (outcome ≡ ok tt) × (read_all (at id finished n) objs ≡ ok tt)
  read_checked s n (ok _) event objs e = (refl, e)
  read_checked s n (err why) event objs e = absurd (cc)

  -- A terminal frame is this request's, and the last.
  read_completes :
      (s : State) (n : ℕ) (own : Option Str) (class : Str) (event : ResponseEvent Value Body)
      (objs : List (EnvelopeObject Value Body))
      → Ends (poisoned (completes (at id s n) own class event)) objs
      → IsFor id own × (objs ≡ [])
  unfolding check_id completes
  read_completes s n own class event objs e =
      let (mine, rest) = read_checked s n (check_id (at id s n) own class) event objs e in
      ((check_id_iff id s n own class).0 mine, read_finished n objs rest)

  close_done :
      (d : Done) (objs : List (EnvelopeObject Value Body))
      → IsFor id (some d.id) × (objs ≡ [])
      → Closes id (EnvelopeObject.done d ∷ objs)
  close_done d [] (mine, last) = Closes.done d mine
  close_done d (obj ∷ objs) (mine, last) = absurd (cc)

  close_error :
      (x : ErrorEnvelope) (objs : List (EnvelopeObject Value Body))
      → IsFor id x.id × (objs ≡ [])
      → Closes id (EnvelopeObject.error x ∷ objs)
  close_error x [] (mine, last) = Closes.error x mine
  close_error x (obj ∷ objs) (mine, last) = absurd (cc)

  -- A batch counts when its loop complains of nothing; the reader goes on from the loop's counter.
  read_batch :
      (columns : List Str) (n : ℕ) (rs : List (Row Value)) (outcome : Option Choreography × ℕ)
      (objs : List (EnvelopeObject Value Body))
      → Ends (poisoned (accept_checked (at id (in_rows columns) n) rs outcome)) objs
      → (outcome ≡ (none, outcome.1))
        × (read_all (at id (in_rows columns) (outcome.1)) objs ≡ ok tt)
  read_batch columns n rs (none, m) objs e = (refl, e)
  read_batch columns n rs (some why, m) objs e = absurd (cc)

  read_row :
      (columns : List Str) (n : ℕ) (rs : List (Row Value)) (objs : List (EnvelopeObject Value Body))
      → read_all (at id (in_rows columns) n) (EnvelopeObject.row rs ∷ objs) ≡ ok tt
      → (rs ≢ [])
        × (check_rows columns n rs ≡ (none, (check_rows columns n rs).1))
        × (read_all (at id (in_rows columns) ((check_rows columns n rs).1)) objs ≡ ok tt)
  unfolding read_all accept try_accept accept_live
  read_row columns n [] objs e = absurd (ground arith)
  read_row columns n (r ∷ rs) objs e =
      let (fine, rest) = read_batch columns n (r ∷ rs) (check_rows columns n (r ∷ rs)) objs e in
      ((λ bad. absurd (cc)), fine, rest)

  read_rows :
      (columns : List Str) (objs : List (EnvelopeObject Value Body)) (n : ℕ)
      → read_all (at id (in_rows columns) n) objs ≡ ok tt
      → Batches id columns n objs
  unfolding read_all accept try_accept accept_live finish check_id
  read_rows columns [] n e = absurd (ground arith)
  read_rows columns (EnvelopeObject.done d ∷ objs) n e =
      Batches.close (close_done d objs (read_completes (in_rows columns) n (some d.id) _ _ objs e))
  read_rows columns (EnvelopeObject.error x ∷ objs) n e =
      Batches.close (close_error x objs (read_completes (in_rows columns) n x.id _ _ objs e))
  read_rows columns (EnvelopeObject.row rs ∷ objs) n e =
      let (filled, fine, rest) = read_row columns n rs objs e in
      let (numbered, declared, moves) =
        (check_rows_iff columns n ((check_rows columns n rs).1) rs).0 fine in
      Batches.batch rs filled numbered declared
        (subst (λ m. Batches id columns m objs) moves (read_rows columns objs _ rest))
  read_rows columns (obj ∷ objs) n e = absurd (ground arith)

  read_graph :
      (s : State) (n : ℕ) (g : Graph Body) (objs : List (EnvelopeObject Value Body))
      → Ends (poisoned (accept_graph (at id s n) g)) objs
      → (g.id ≡ id) × (g.seq ≡ pos n) × (read_all (at id in_graphs (suc n)) objs ≡ ok tt)
  unfolding check_id
  read_graph s n g objs e = ground (arith, =s_iff g.id id, is_seq_iff g.seq n)

  read-Graphs :
      (objs : List (EnvelopeObject Value Body)) (n : ℕ)
      → read_all (at id in_graphs n) objs ≡ ok tt
      → Graphs id n objs
  unfolding read_all accept try_accept accept_live finish check_id
  read-Graphs [] n e = absurd (ground arith)
  read-Graphs (EnvelopeObject.done d ∷ objs) n e =
      Graphs.close (close_done d objs (read_completes in_graphs n (some d.id) _ _ objs e))
  read-Graphs (EnvelopeObject.error x ∷ objs) n e =
      Graphs.close (close_error x objs (read_completes in_graphs n x.id _ _ objs e))
  read-Graphs (EnvelopeObject.graph g ∷ objs) n e =
      let (mine, next, rest) = read_graph in_graphs n g objs e in
      Graphs.graph g mine next (read-Graphs objs (suc n) rest)
  read-Graphs (obj ∷ objs) n e = absurd (ground arith)

  read-Generics :
      (objs : List (EnvelopeObject Value Body)) (n : ℕ)
      → read_all (at id in_generics n) objs ≡ ok tt
      → Generics id objs
  unfolding read_all accept try_accept accept_live finish check_id
  read-Generics [] n e = absurd (ground arith)
  read-Generics (EnvelopeObject.done d ∷ objs) n e =
      Generics.close (close_done d objs (read_completes in_generics n (some d.id) _ _ objs e))
  read-Generics (EnvelopeObject.error x ∷ objs) n e =
      Generics.close (close_error x objs (read_completes in_generics n x.id _ _ objs e))
  read-Generics (EnvelopeObject.generic g ∷ objs) n e = Generics.generic g (read-Generics objs n e)
  read-Generics (obj ∷ objs) n e = absurd (ground arith)

  read_result :
      (n : ℕ) (h : ResultHeader) (objs : List (EnvelopeObject Value Body))
      → read_all (at id await_header n) (EnvelopeObject.result h ∷ objs) ≡ ok tt
      → (h.id ≡ id) × (read_all (at id (in_rows h.columns) n) objs ≡ ok tt)
  unfolding read_all accept try_accept accept_live check_id
  read_result n h objs e = ground (arith, =s_iff h.id id)

  -- A response of one frame.
  alone :
      (n : ℕ) (own : Option Str) (obj : EnvelopeObject Value Body)
      (objs : List (EnvelopeObject Value Body))
      → (IsFor id own → IsResponse id n (obj ∷ []))
      → IsFor id own × (objs ≡ [])
      → IsResponse id n (obj ∷ objs)
  alone n own obj [] whole (mine, last) = whole mine
  alone n own obj (_ ∷ _) whole (mine, last) = absurd (cc)

  pub read_response :
      (objs : List (EnvelopeObject Value Body)) (n : ℕ)
      → read_all (at id await_header n) objs ≡ ok tt
      → IsResponse id n objs
  unfolding read_all accept try_accept accept_live finish check_id
  read_response [] n e = absurd (ground arith)
  read_response (EnvelopeObject.result h ∷ objs) n e =
      let (mine, rest) = read_result n h objs e in
      IsResponse.table h mine (read_rows h.columns objs n rest)
  read_response (EnvelopeObject.graph g ∷ objs) n e =
      let (mine, next, rest) = read_graph await_header n g objs e in
      IsResponse.chunks g mine next (read-Graphs objs (suc n) rest)
  read_response (EnvelopeObject.generic g ∷ objs) n e =
      IsResponse.passthrough g (read-Generics objs n e)
  read_response (EnvelopeObject.denied d ∷ objs) n e =
      alone n d.id _ objs (IsResponse.denial d) (read_completes await_header n d.id _ _ objs e)
  read_response (EnvelopeObject.error x ∷ objs) n e =
      alone n x.id _ objs (IsResponse.failure x) (read_completes await_header n x.id _ _ objs e)
  read_response (EnvelopeObject.help h ∷ objs) n e =
      alone n h.id _ objs (IsResponse.guidance h) (read_completes await_header n h.id _ _ objs e)
  read_response (EnvelopeObject.media m ∷ objs) n e =
      alone n (some m.id) _ objs (IsResponse.feed m)
        (read_completes await_header n (some m.id) _ _ objs e)
  read_response (obj ∷ objs) n e = absurd (ground arith)
