-- ===== src/Protocol/Examples.antt =====
-- Runs of the theorems of the protocol: a response of two rows in one batch, and a short frame.
use rsntr.Base.{ℕ, ◌≡◌, refl, false, none, some, List, [], ◌∷◌, ◌++◌, arith, Str, codes, take, here}
use rsntr.Protocol.Envelope.{Vibration, pos, ResultHeader, Row, Done, EnvelopeObject}
use rsntr.Protocol.Response.{ok, new, read_all}
use rsntr.Protocol.Response.Grammar.{Closes, Batches, IsResponse}
use rsntr.Protocol.Response.Accepts.{read_all_iff}
use rsntr.Protocol.Entrainment
use rsntr.Protocol.Entrainment.Stream.{Flow, IsEntrainment, read-IsEntrainment_iff}
use rsntr.Protocol.Frame.{
  FrameResult, truncated_frame, encode_frame, is_utf8, decode_frame, decode_frame_eof,
  decode_payload,
}
use rsntr.Protocol.Frame.Stream.{
  decode_frame-encode_frame, decode_frame-take, encode_frame-decode_frame,
}

abbrev id : Str
id = codes "q1"

abbrev column : Str
column = codes "n"

abbrev numbered : ℕ → Row ℕ
numbered n = record { seq = pos n; cells = (column, 7) ∷ [] }

abbrev header : ResultHeader
header = record { id = id; columns = column ∷ []; decl_types = [] }

abbrev trailer : Done
trailer = record {
  id = id;
  row_count = none;
  affected_rows = none;
  last_insert_rowid = none;
  truncated = false;
}

abbrev frames : List (EnvelopeObject ℕ ℕ)
frames =
    EnvelopeObject.result header
    ∷ EnvelopeObject.row (numbered 0 ∷ numbered 1 ∷ [])
    ∷ EnvelopeObject.done trailer
    ∷ []

read_all_iff_example : read_all (new id) frames ≡ ok tt
read_all_iff_example = (read_all_iff id frames).1 (
    IsResponse.table header refl (
      Batches.batch (numbered 0 ∷ numbered 1 ∷ []) (λ bad. absurd (cc)) (refl, (refl, tt))
        (((here refl), tt), (((here refl), tt), tt)) (Batches.close (Closes.done trailer refl))))

abbrev hello : List ℕ
hello = codes "hello"

decode_frame-encode_frame_example :
    decode_frame ((encode_frame hello []).1 ++ 9 ∷ []) ≡ (FrameResult.ok (some hello), 9 ∷ [])
unfolding is_utf8
decode_frame-encode_frame_example = decode_frame-encode_frame hello (9 ∷ []) (omega arith) refl

decode_frame-take_example :
    decode_frame_eof (take 6 ((encode_frame hello []).1))
    ≡ (FrameResult.err (truncated_frame 6), take 6 ((encode_frame hello []).1))
decode_frame-take_example = (decode_frame-take hello 5 (omega arith) (omega arith)).1

encode_frame-decode_frame_example :
    5 ∷ 0 ∷ 0 ∷ 0 ∷ hello ++ 9 ∷ [] ≡ (encode_frame hello []).1 ++ 9 ∷ []
unfolding decode_frame decode_payload is_utf8
encode_frame-decode_frame_example =
    (encode_frame-decode_frame (5 ∷ 0 ∷ 0 ∷ 0 ∷ hello ++ 9 ∷ []) hello (9 ∷ []) (ground arith)
      refl).0

abbrev point : Str
point = codes "p"

abbrev pulse : Vibration ℕ
pulse = record { id = id; point = point; seq = pos 0; at_time = none; payload = 5 }

abbrev stream : List (EnvelopeObject ℕ ℕ)
stream =
    EnvelopeObject.done trailer ∷ EnvelopeObject.vibration pulse ∷ EnvelopeObject.done trailer ∷ []

read-IsEntrainment_iff_example :
    Entrainment.read_all (Entrainment.new id point) stream ≡ Entrainment.Result.ok tt
read-IsEntrainment_iff_example = (read-IsEntrainment_iff id point stream).1 (
    IsEntrainment.acknowledged trailer refl
      (Flow.pulse pulse refl refl refl (Flow.confirmed trailer refl)))
