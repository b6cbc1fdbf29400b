-- ===== src/Protocol/Entrainment.antt =====
-- crates/protocol/src/entrainment.rs: the state machine over the frames of one entrainment. The
-- counter `next_seq` has no upper bound here; the program's is an `i64`.
pub mod Stream
use rsntr.Base.{
  ℕ, suc, Bool, true, false, not, Option, none, some, List, [], ◌∷◌, if◌then◌else◌, Str, codes,
  ◌=s◌,
}
use rsntr.Protocol.Envelope.{
  ℤ, Done, Denied, ErrorEnvelope, Vibration, EnvelopeObject, envelope_class_name,
}
use rsntr.Protocol.Response.{is_seq}

-- The messages of `ProtocolError::choreography`, with what they quote.
pub data Choreography : Type 0 where
  already_failed no_acknowledgment early_vibration late_denied : Choreography
  after_completion not_an_entrainment : Str → Choreography
  wrong_point : Str → Str → Choreography
  wrong_seq : ℤ → ℕ → Choreography
  wrong_id : Str → Str → Str → Choreography

pub data Result {ℓ} (A : Type ℓ) : Type ℓ where
  ok : A → Result A
  err : Choreography → Result A

pub data EntrainmentEvent (Body : Type 0) : Type 0 where
  entrained damped : EntrainmentEvent Body
  vibration : Vibration Body → EntrainmentEvent Body
  denied : Denied → EntrainmentEvent Body
  error : ErrorEnvelope → EntrainmentEvent Body

pub data State : Type 0 where
  await_ack flowing finished failed : State

pub record EntrainmentReader : Type 0 where
  pub id : Str
  pub point : Str
  pub state : State
  pub next_seq : ℕ

abbrev pub new : Str → Str → EntrainmentReader
new id point = record { id = id; point = point; state = await_ack; next_seq = 0 }

unfoldable pub is_flowing : EntrainmentReader → Bool
is_flowing r = elim r.state [ flowing ↦ true | _ ↦ false ]

unfoldable pub is_finished : EntrainmentReader → Bool
is_finished r = elim r.state [ finished ↦ true | _ ↦ false ]

unfoldable pub check_id : EntrainmentReader → Option Str → Str → Result (Unit {0})
check_id r none class = ok tt
check_id r (some id) class = if id =s r.id then ok tt else err (wrong_id class id r.id)

abbrev pub Step : Type 0 → Type 0
Step Body = Result (EntrainmentEvent Body) × EntrainmentReader

-- `?` on a check: what follows it, or its error with the reader as it is.
abbrev pub checked : {Body : Type 0} → EntrainmentReader → Result (Unit {0}) → Step Body → Step Body
checked r (ok _) next = next
checked r (err e) next = (err e, r)

abbrev pub with_state : EntrainmentReader → State → EntrainmentReader
with_state r s = record { id = r.id; point = r.point; state = s; next_seq = r.next_seq }

abbrev pub advanced : EntrainmentReader → EntrainmentReader
advanced r = record { id = r.id; point = r.point; state = r.state; next_seq = suc r.next_seq }

-- behind the id check
abbrev pub accept_done : {Body : Type 0} → EntrainmentReader → Bool → Step Body
accept_done r flows =
    if flows then (ok damped, with_state r finished) else (ok entrained, with_state r flowing)

abbrev pub accept_vibration : {Body : Type 0} → EntrainmentReader → Vibration Body → Step Body
accept_vibration r v =
    if not (v.point =s r.point)
    then (err (wrong_point v.point r.point), r)
    else if not (is_seq v.seq r.next_seq)
    then (err (wrong_seq v.seq r.next_seq), r)
    else (ok (vibration v), advanced r)

abbrev pub foreign :
    {Value Body : Type 0} → EntrainmentReader → EnvelopeObject Value Body → Step Body
unfolding envelope_class_name
foreign r obj = (err (not_an_entrainment (envelope_class_name obj)), r)

-- The `match` over the frame; the Boolean says whether the reader is flowing.
unfoldable pub accept_live :
    {Value Body : Type 0} → EntrainmentReader → Bool → EnvelopeObject Value Body → Step Body
unfolding check_id envelope_class_name
accept_live r flows (EnvelopeObject.done d) =
    checked r (check_id r (some d.id) (codes "rsntr:Done")) (accept_done r flows)
accept_live r flows (EnvelopeObject.vibration v) =
    if not flows
    then (err early_vibration, r)
    else checked r (check_id r (some v.id) (codes "rsntr:Vibration")) (accept_vibration r v)
accept_live r flows (EnvelopeObject.denied d) =
    if flows
    then (err late_denied, r)
    else checked r (check_id r d.id (codes "rsntr:Denied")) (ok (denied d), with_state r finished)
accept_live r flows (EnvelopeObject.error e) =
    checked r (check_id r e.id (codes "rsntr:Error")) (ok (error e), with_state r finished)
accept_live r flows obj = foreign r obj

unfoldable pub try_accept :
    {Value Body : Type 0} → EntrainmentReader → EnvelopeObject Value Body → Step Body
unfolding accept_live envelope_class_name
try_accept r obj = elim r.state [
  | failed ↦ (err already_failed, r)
  | finished ↦ (err (after_completion (envelope_class_name obj)), r)
  | await_ack ↦ accept_live r false obj
  | flowing ↦ accept_live r true obj
]

-- An error poisons the reader.
abbrev pub poisoned : {Body : Type 0} → Step Body → Step Body
poisoned (ok event, r) = (ok event, r)
poisoned (err e, r) = (err e, with_state r failed)

unfoldable pub accept :
    {Value Body : Type 0} → EntrainmentReader → EnvelopeObject Value Body → Step Body
unfolding try_accept
accept r obj = poisoned (try_accept r obj)

unfoldable pub finish : EntrainmentReader → Result (Unit {0})
finish r = elim r.state [
  | flowing ↦ ok tt
  | finished ↦ ok tt
  | await_ack ↦ err no_acknowledgment
  | failed ↦ err already_failed
]

-- A client: it feeds frames until one is refused, then it asks whether the stream may end there.
unfoldable pub read_all :
    {Value Body : Type 0} → EntrainmentReader → List (EnvelopeObject Value Body) → Result (Unit {0})
unfolding accept finish
read_all r [] = finish r
read_all r (obj ∷ objs) =
    let rest = read_all ((accept r obj).1) objs in
    elim ((accept r obj).0) [ ok _ ↦ rest | err e ↦ err e ]
