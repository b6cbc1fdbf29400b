-- ===== src/Protocol/Entrainment/Stream.antt =====
-- crates/protocol/src/entrainment.rs: EntrainmentReader accepts exactly the streams of a grammar.
use rsntr.Base.{
  ℕ, suc, ◌≡◌, ◌↔◌, refl, Option, none, some, List, [], ◌∷◌, arith, Str, codes, =s_iff,
}
use rsntr.Protocol.Envelope.{pos, Done, Denied, ErrorEnvelope, Vibration, EnvelopeObject}
use rsntr.Protocol.Response.Grammar.{IsFor, is_seq_iff}
use rsntr.Protocol.Entrainment.{
  Result, ok, err, State, await_ack, flowing, finished, EntrainmentReader, new, check_id,
  accept_live, try_accept, accept, finish, read_all, Step, poisoned, checked, EntrainmentEvent,
}

module _ {Value Body : Type 0} (id point : Str) where
  -- Behind the acknowledgment and `n` vibrations: the stream ends, or it is damped by the node, or
  -- the node confirms a damp, or the next vibration of the point follows.
  pub data Flow : ℕ → List (EnvelopeObject Value Body) → Type 0 where
    cut : {n : ℕ} → Flow n []
    confirmed : {n : ℕ} (d : Done) → d.id ≡ id → Flow n (EnvelopeObject.done d ∷ [])
    damped : {n : ℕ} (e : ErrorEnvelope) → IsFor id e.id → Flow n (EnvelopeObject.error e ∷ [])
    pulse :
        {n : ℕ} {objs : List (EnvelopeObject Value Body)} (v : Vibration Body)
        → v.id ≡ id
        → v.point ≡ point
        → v.seq ≡ pos n
        → Flow (suc n) objs
        → Flow n (EnvelopeObject.vibration v ∷ objs)

  pub data IsEntrainment (n : ℕ) : List (EnvelopeObject Value Body) → Type 0 where
    acknowledged :
        {objs : List (EnvelopeObject Value Body)} (d : Done)
        → d.id ≡ id
        → Flow n objs
        → IsEntrainment n (EnvelopeObject.done d ∷ objs)
    refused : (d : Denied) → IsFor id d.id → IsEntrainment n (EnvelopeObject.denied d ∷ [])
    failure : (e : ErrorEnvelope) → IsFor id e.id → IsEntrainment n (EnvelopeObject.error e ∷ [])

abbrev at : Str → Str → State → ℕ → EntrainmentReader
at id point s n = record { id = id; point = point; state = s; next_seq = n }

check_id_iff :
    (id point : Str) (s : State) (n : ℕ) (own : Option Str) (class : Str)
    → (check_id (at id point s n) own class ≡ ok tt) ↔ IsFor id own
unfolding check_id
check_id_iff id point s n none class = ground arith
check_id_iff id point s n (some own) class = ground (arith, =s_iff own id)

module _ {Value Body : Type 0} (id point : Str) where
  -- What a client makes of one step, with the frames that follow.
  abbrev Ends : Step Body → List (EnvelopeObject Value Body) → Type 0
  Ends step objs = (elim (step.0) [ ok _ ↦ read_all (step.1) objs | err why ↦ err why ]) ≡ ok tt

  read_finished :
      (n : ℕ) (objs : List (EnvelopeObject Value Body))
      → read_all (at id point finished n) objs ≡ ok tt
      → objs ≡ []
  unfolding read_all accept try_accept
  read_finished n [] e = refl
  read_finished n (obj ∷ objs) e = absurd (cc)

  read_checked :
      (s : State) (n : ℕ) (outcome : Result (Unit {0})) (next : Step Body)
      (objs : List (EnvelopeObject Value Body))
      → Ends (poisoned (checked (at id point s n) outcome next)) objs
      → (outcome ≡ ok tt) × Ends (poisoned next) objs
  read_checked s n (ok _) next objs e = (refl, e)
  read_checked s n (err why) next objs e = absurd (cc)

  -- A frame of this request that ends the stream.
  read_last :
      (s : State) (n : ℕ) (own : Option Str) (class : Str) (event : EntrainmentEvent Body)
      (objs : List (EnvelopeObject Value Body))
      → Ends
          (poisoned (
            checked
              (at id point s n)
              (check_id (at id point s n) own class)
              (ok event, at id point finished n)))
          objs
      → IsFor id own × (objs ≡ [])
  read_last s n own class event objs e =
      let (mine, rest) =
        read_checked s n (check_id (at id point s n) own class) (ok event, at id point finished n)
          objs e in
      ((check_id_iff id point s n own class).0 mine, read_finished n objs rest)

  -- A stream of one frame more.
  last :
      (P : List (EnvelopeObject Value Body) → Type 0) (own : Option Str)
      (obj : EnvelopeObject Value Body) (objs : List (EnvelopeObject Value Body))
      → (IsFor id own → P (obj ∷ []))
      → IsFor id own × (objs ≡ [])
      → P (obj ∷ objs)
  last P own obj [] whole (mine, e) = whole mine
  last P own obj (_ ∷ _) whole (mine, e) = absurd (cc)

  read_vibration :
      (n : ℕ) (v : Vibration Body) (objs : List (EnvelopeObject Value Body))
      → read_all (at id point flowing n) (EnvelopeObject.vibration v ∷ objs) ≡ ok tt
      → (v.id ≡ id)
        × (v.point ≡ point)
        × (v.seq ≡ pos n)
        × (read_all (at id point flowing (suc n)) objs ≡ ok tt)
  unfolding read_all accept try_accept accept_live check_id
  read_vibration n v objs e =
      ground (arith, =s_iff v.id id, =s_iff v.point point, is_seq_iff v.seq n)

  read-Flow :
      (objs : List (EnvelopeObject Value Body)) (n : ℕ)
      → read_all (at id point flowing n) objs ≡ ok tt
      → Flow id point n objs
  unfolding read_all accept try_accept accept_live check_id
  read-Flow [] n e = Flow.cut
  read-Flow (EnvelopeObject.done d ∷ objs) n e =
      last (Flow id point n) (some d.id) _ objs (Flow.confirmed d)
        (read_last flowing n (some d.id) _ _ objs e)
  read-Flow (EnvelopeObject.error x ∷ objs) n e =
      last (Flow id point n) x.id _ objs (Flow.damped x) (read_last flowing n x.id _ _ objs e)
  read-Flow (EnvelopeObject.vibration v ∷ objs) n e =
      let (mine, here, next, rest) = read_vibration n v objs e in
      Flow.pulse v mine here next (read-Flow objs (suc n) rest)
  read-Flow (obj ∷ objs) n e = absurd (ground arith)

  read-IsEntrainment :
      (objs : List (EnvelopeObject Value Body)) (n : ℕ)
      → read_all (at id point await_ack n) objs ≡ ok tt
      → IsEntrainment id point n objs
  unfolding read_all accept try_accept accept_live finish check_id
  read-IsEntrainment [] n e = absurd (ground arith)
  read-IsEntrainment (EnvelopeObject.done d ∷ objs) n e =
      let (mine, rest) =
        read_checked await_ack n
          (check_id (at id point await_ack n) (some d.id) (codes "rsntr:Done"))
          (ok EntrainmentEvent.entrained, at id point flowing n) objs e in
      IsEntrainment.acknowledged d
        ((check_id_iff id point await_ack n (some d.id) (codes "rsntr:Done")).0 mine)
        (read-Flow objs n rest)
  read-IsEntrainment (EnvelopeObject.denied d ∷ objs) n e =
      last (IsEntrainment id point n) d.id _ objs (IsEntrainment.refused d)
        (read_last await_ack n d.id _ _ objs e)
  read-IsEntrainment (EnvelopeObject.error x ∷ objs) n e =
      last (IsEntrainment id point n) x.id _ objs (IsEntrainment.failure x)
        (read_last await_ack n x.id _ _ objs e)
  read-IsEntrainment (obj ∷ objs) n e = absurd (ground arith)

  Flow-read :
      (n : ℕ) (objs : List (EnvelopeObject Value Body))
      → Flow id point n objs
      → read_all (at id point flowing n) objs ≡ ok tt
  unfolding read_all accept try_accept accept_live finish check_id
  Flow-read n _ Flow.cut = refl
  Flow-read n _ (Flow.confirmed d mine) = ground (arith, =s_iff d.id id)
  Flow-read n _ (Flow.damped x mine) =
      ground (arith, (check_id_iff id point flowing n x.id (codes "rsntr:Error")).1 mine)
  Flow-read n _ (Flow.pulse {objs} v mine here next rest) =
      ground (
        arith,
        =s_iff v.id id,
        =s_iff v.point point,
        is_seq_iff v.seq n,
        Flow-read (suc n) objs rest,
      )

  IsEntrainment-read :
      (n : ℕ) (objs : List (EnvelopeObject Value Body))
      → IsEntrainment id point n objs
      → read_all (at id point await_ack n) objs ≡ ok tt
  unfolding read_all accept try_accept accept_live finish check_id
  IsEntrainment-read n _ (IsEntrainment.acknowledged {objs} d mine rest) =
      ground (arith, =s_iff d.id id, Flow-read n objs rest)
  IsEntrainment-read n _ (IsEntrainment.refused d mine) =
      ground (arith, (check_id_iff id point await_ack n d.id (codes "rsntr:Denied")).1 mine)
  IsEntrainment-read n _ (IsEntrainment.failure x mine) =
      ground (arith, (check_id_iff id point await_ack n x.id (codes "rsntr:Error")).1 mine)

-- A stream is read without an error, and may end where it does, exactly when it is an entrainment:
-- a Done of the request, then vibrations of the point numbered from 0 with no gap, and at the end
-- nothing, a Done or an Error; or a Denied or an Error alone. The ids are the request's.
pub read-IsEntrainment_iff :
    {Value Body : Type 0} (id point : Str) (objs : List (EnvelopeObject Value Body))
    → (read_all (new id point) objs ≡ ok tt) ↔ IsEntrainment id point 0 objs
read-IsEntrainment_iff id point objs =
    (read-IsEntrainment id point objs 0, IsEntrainment-read id point 0 objs)
