-- ===== src/Protocol/Response.antt =====
-- crates/protocol/src/response.rs: the state machine over the frames of one response. The counter
-- `next_seq` has no upper bound here; the program's is an `i64`.
pub mod Grammar
pub mod Reader
pub mod Accepts
use rsntr.Base.{
  ℕ, suc, ◌+◌, Bool, true, false, not, Option, none, some, List, [], ◌∷◌, if◌then◌else◌, ◌==◌, any,
  Str, codes, ◌=s◌,
}
use rsntr.Protocol.Envelope.{
  ℤ, pos, negsuc, ResultHeader, Row, Done, Denied, ErrorEnvelope, Help, Media, Graph, Generic,
  EnvelopeObject, envelope_class_name,
}

-- The messages of `ProtocolError::choreography`, with what they quote.
pub data Choreography : Type 0 where
  already_failed no_header no_trailer header_out_of_order row_before_header : Choreography
  empty_batch graph_out_of_order generic_out_of_order early_done late_denied : Choreography
  late_help late_media : Choreography
  after_completion not_a_response : Str → Choreography
  row_seq graph_seq : ℤ → ℕ → Choreography
  undeclared_column : Str → Choreography
  wrong_id : Str → Str → Str → Choreography

pub data Result {ℓ} (A : Type ℓ) : Type ℓ where
  ok : A → Result A
  err : Choreography → Result A

pub data ResponseEvent (Value Body : Type 0) : Type 0 where
  header : ResultHeader → ResponseEvent Value Body
  rows : List (Row Value) → ResponseEvent Value Body
  graph : Graph Body → ResponseEvent Value Body
  generic : Generic Body → ResponseEvent Value Body
  done : Done → ResponseEvent Value Body
  denied : Denied → ResponseEvent Value Body
  error : ErrorEnvelope → ResponseEvent Value Body
  help : Str → List Str → ResponseEvent Value Body
  media : Media → ResponseEvent Value Body

unfoldable pub is_terminal : {Value Body : Type 0} → ResponseEvent Value Body → Bool
is_terminal (ResponseEvent.done _) = true
is_terminal (ResponseEvent.denied _) = true
is_terminal (ResponseEvent.error _) = true
is_terminal (ResponseEvent.help _ _) = true
is_terminal (ResponseEvent.media _) = true
is_terminal _ = false

pub data State : Type 0 where
  await_header : State
  in_rows : List Str → State
  in_graphs in_generics finished failed : State

pub record ResponseReader : Type 0 where
  pub id : Str
  pub state : State
  pub next_seq : ℕ

abbrev pub new : Str → ResponseReader
new id = record { id = id; state = await_header; next_seq = 0 }

unfoldable pub is_finished : ResponseReader → Bool
is_finished r = elim r.state [ finished ↦ true | _ ↦ false ]

-- `seq == self.next_seq`
abbrev pub is_seq : ℤ → ℕ → Bool
is_seq (pos n) next = n == next
is_seq (negsuc n) next = false

unfoldable pub check_id : ResponseReader → Option Str → Str → Result (Unit {0})
check_id r none class = ok tt
check_id r (some id) class = if id =s r.id then ok tt else err (wrong_id class id r.id)

-- the first cell that names no column
unfoldable pub undeclared : {Value : Type 0} → List Str → List (Str × Value) → Option Str
undeclared columns [] = none
undeclared columns ((name, value) ∷ cells) =
    if not (any (λ c. c =s name) columns) then some name else undeclared columns cells

-- The loop over a batch: what it complains of, and the counter that it leaves.
unfoldable pub check_rows :
    {Value : Type 0} → List Str → ℕ → List (Row Value) → Option Choreography × ℕ
unfolding undeclared
check_rows columns next [] = (none, next)
check_rows columns next (r ∷ rs) =
    let rest = check_rows columns (suc next) rs in
    if not (is_seq r.seq next)
    then (some (row_seq r.seq next), next)
    else elim (undeclared columns r.cells) [
      | none ↦ rest
      | some name ↦ (some (undeclared_column name), next)
    ]

abbrev pub at_start : State → Bool
at_start await_header = true
at_start _ = false

abbrev pub Step : Type 0 → Type 0 → Type 0
Step Value Body = Result (ResponseEvent Value Body) × ResponseReader

-- `?` on a check: what follows it, or its error with the reader as it is.
abbrev pub checked :
    {Value Body : Type 0} → ResponseReader → Result (Unit {0}) → Step Value Body → Step Value Body
checked r (ok _) next = next
checked r (err e) next = (err e, r)

abbrev pub with_state : ResponseReader → State → ResponseReader
with_state r s = record { id = r.id; state = s; next_seq = r.next_seq }

abbrev pub with_seq : ResponseReader → ℕ → ResponseReader
with_seq r n = record { id = r.id; state = r.state; next_seq = n }

-- The terminal frames: the id check, then the finished state.
abbrev pub completes :
    {Value Body : Type 0}
    → ResponseReader
    → Option Str
    → Str
    → ResponseEvent Value Body
    → Step Value Body
unfolding check_id
completes r id class event = checked r (check_id r id class) (ok event, with_state r finished)

abbrev pub accept_result : {Value Body : Type 0} → ResponseReader → ResultHeader → Step Value Body
unfolding check_id
accept_result r h =
    if not (at_start r.state)
    then (err header_out_of_order, r)
    else checked r (check_id r (some h.id) (codes "rsntr:Result"))
        (ok (ResponseEvent.header h), with_state r (in_rows h.columns))

-- The batch's outcome and the counter that the loop leaves.
abbrev pub accept_checked :
    {Value Body : Type 0}
    → ResponseReader
    → List (Row Value)
    → Option Choreography × ℕ
    → Step Value Body
accept_checked r rs (none, next) = (ok (ResponseEvent.rows rs), with_seq r next)
accept_checked r rs (some e, next) = (err e, with_seq r next)

abbrev pub accept_rows :
    {Value Body : Type 0} → ResponseReader → State → List (Row Value) → Step Value Body
unfolding check_rows
accept_rows r (in_rows columns) [] = (err empty_batch, r)
accept_rows r (in_rows columns) (x ∷ rs) =
    accept_checked r (x ∷ rs) (check_rows columns r.next_seq (x ∷ rs))
accept_rows r await_header rs = (err row_before_header, r)
accept_rows r in_graphs rs = (err row_before_header, r)
accept_rows r in_generics rs = (err row_before_header, r)
accept_rows r finished rs = (err row_before_header, r)
accept_rows r failed rs = (err row_before_header, r)

abbrev pub takes_graph : State → Bool
takes_graph await_header = true
takes_graph in_graphs = true
takes_graph _ = false

abbrev pub takes_generic : State → Bool
takes_generic await_header = true
takes_generic in_generics = true
takes_generic _ = false

abbrev pub accept_graph : {Value Body : Type 0} → ResponseReader → Graph Body → Step Value Body
unfolding check_id
accept_graph r g =
    if not (takes_graph r.state)
    then (err graph_out_of_order, r)
    else checked r (check_id r (some g.id) (codes "rsntr:Graph")) (
        if not (is_seq g.seq r.next_seq)
        then (err (graph_seq g.seq r.next_seq), r)
        else (ok (ResponseEvent.graph g), with_seq (with_state r in_graphs) (suc r.next_seq)))

abbrev pub accept_generic : {Value Body : Type 0} → ResponseReader → Generic Body → Step Value Body
accept_generic r g =
    if not (takes_generic r.state)
    then (err generic_out_of_order, r)
    else (ok (ResponseEvent.generic g), with_state r in_generics)

-- A frame that only opens a response, and then is all of it.
abbrev pub accept_alone :
    {Value Body : Type 0}
    → ResponseReader
    → Choreography
    → Option Str
    → Str
    → ResponseEvent Value Body
    → Step Value Body
unfolding check_id
accept_alone r late id class event =
    if not (at_start r.state) then (err late, r) else completes r id class event

abbrev pub accept_done : {Value Body : Type 0} → ResponseReader → Done → Step Value Body
unfolding check_id
accept_done r d =
    if at_start r.state
    then (err early_done, r)
    else completes r (some d.id) (codes "rsntr:Done") (ResponseEvent.done d)

abbrev pub foreign :
    {Value Body : Type 0} → ResponseReader → EnvelopeObject Value Body → Step Value Body
unfolding envelope_class_name
foreign r obj = (err (not_a_response (envelope_class_name obj)), r)

-- The `match` over the frame, of a reader that is neither failed nor finished.
unfoldable pub accept_live :
    {Value Body : Type 0} → ResponseReader → EnvelopeObject Value Body → Step Value Body
unfolding check_id check_rows envelope_class_name
accept_live r (EnvelopeObject.result h) = accept_result r h
accept_live r (EnvelopeObject.row rs) = accept_rows r r.state rs
accept_live r (EnvelopeObject.graph g) = accept_graph r g
accept_live r (EnvelopeObject.generic g) = accept_generic r g
accept_live r (EnvelopeObject.done d) = accept_done r d
accept_live r (EnvelopeObject.denied d) =
    accept_alone r late_denied d.id (codes "rsntr:Denied") (ResponseEvent.denied d)
accept_live r (EnvelopeObject.error e) =
    completes r e.id (codes "rsntr:Error") (ResponseEvent.error e)
accept_live r (EnvelopeObject.help h) =
    accept_alone r late_help h.id (codes "rsntr:Help") (ResponseEvent.help h.signal h.topics)
accept_live r (EnvelopeObject.media m) =
    accept_alone r late_media (some m.id) (codes "rsntr:Media") (ResponseEvent.media m)
accept_live r (EnvelopeObject.query b) = foreign r (EnvelopeObject.query b)
accept_live r (EnvelopeObject.execute b) = foreign r (EnvelopeObject.execute b)
accept_live r (EnvelopeObject.hello b) = foreign r (EnvelopeObject.hello b)
accept_live r (EnvelopeObject.knock b) = foreign r (EnvelopeObject.knock b)
accept_live r (EnvelopeObject.presence b) = foreign r (EnvelopeObject.presence b)
accept_live r (EnvelopeObject.decision b) = foreign r (EnvelopeObject.decision b)
accept_live r (EnvelopeObject.audio_duplex b) = foreign r (EnvelopeObject.audio_duplex b)
accept_live r (EnvelopeObject.projection b) = foreign r (EnvelopeObject.projection b)
accept_live r (EnvelopeObject.entrain b) = foreign r (EnvelopeObject.entrain b)
accept_live r (EnvelopeObject.vibration v) = foreign r (EnvelopeObject.vibration v)
accept_live r (EnvelopeObject.damp b) = foreign r (EnvelopeObject.damp b)

unfoldable pub try_accept :
    {Value Body : Type 0} → ResponseReader → EnvelopeObject Value Body → Step Value Body
unfolding accept_live envelope_class_name
try_accept r obj = elim r.state [
  | failed ↦ (err already_failed, r)
  | finished ↦ (err (after_completion (envelope_class_name obj)), r)
  | await_header ↦ accept_live r obj
  | in_rows _ ↦ accept_live r obj
  | in_graphs ↦ accept_live r obj
  | in_generics ↦ accept_live r obj
]

-- An error poisons the reader.
abbrev pub poisoned : {Value Body : Type 0} → Step Value Body → Step Value Body
poisoned (ok event, r) = (ok event, r)
poisoned (err e, r) = (err e, with_state r failed)

unfoldable pub accept :
    {Value Body : Type 0} → ResponseReader → EnvelopeObject Value Body → Step Value Body
unfolding try_accept
accept r obj = poisoned (try_accept r obj)

unfoldable pub finish : ResponseReader → Result (Unit {0})
finish r = elim r.state [
  | finished ↦ ok tt
  | await_header ↦ err no_header
  | in_rows _ ↦ err no_trailer
  | in_graphs ↦ err no_trailer
  | in_generics ↦ err no_trailer
  | failed ↦ err already_failed
]

-- A client: it feeds frames until one is refused, then it asks whether the stream was complete.
unfoldable pub read_all :
    {Value Body : Type 0} → ResponseReader → List (EnvelopeObject Value Body) → Result (Unit {0})
unfolding accept finish
read_all r [] = finish r
read_all r (obj ∷ objs) =
    let rest = read_all ((accept r obj).1) objs in
    elim ((accept r obj).0) [ ok _ ↦ rest | err e ↦ err e ]
