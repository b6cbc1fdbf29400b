-- ===== src/Protocol/Envelope.antt =====
-- crates/protocol/src/envelope.rs: the frame objects. `Value` is the type of cell values; `Body`
-- stands for what no reader looks into: statements, triples and properties, and whole objects of
-- the classes that are no response. Also envelope_class_name of crates/protocol/src/request.rs.
use rsntr.Base.{ℕ, Bool, Option, List, Str, codes}

-- `i64` on the wire; `negsuc n` is -(n + 1).
pub data ℤ : Type 0 where
  pos negsuc : ℕ → ℤ

pub record ResultHeader : Type 0 where
  pub id : Str
  pub columns : List Str
  pub decl_types : List Str

pub record Row (Value : Type 0) : Type 0 where
  pub seq : ℤ
  pub cells : List (Str × Value)

pub record Done : Type 0 where
  pub id : Str
  pub row_count : Option ℤ
  pub affected_rows : Option ℤ
  pub last_insert_rowid : Option ℤ
  pub truncated : Bool

pub record Denied : Type 0 where
  pub id : Option Str
  pub reason : Option Str

pub record ErrorEnvelope : Type 0 where
  pub id : Option Str
  pub code : Str
  pub reason : Option Str

pub record Help : Type 0 where
  pub id : Option Str
  pub signal : Str
  pub topics : List Str

pub record Media : Type 0 where
  pub id : Str
  pub content_type : Str

pub record Graph (Body : Type 0) : Type 0 where
  pub id : Str
  pub seq : ℤ
  pub payload : Body

pub record Generic (Body : Type 0) : Type 0 where
  pub class : Str
  pub props : Body

pub record Vibration (Body : Type 0) : Type 0 where
  pub id : Str
  pub point : Str
  pub seq : ℤ
  -- `at`
  pub at_time : Option Str
  pub payload : Body

pub data EnvelopeObject (Value Body : Type 0) : Type 0 where
  query execute : Body → EnvelopeObject Value Body
  result : ResultHeader → EnvelopeObject Value Body
  row : List (Row Value) → EnvelopeObject Value Body
  done : Done → EnvelopeObject Value Body
  denied : Denied → EnvelopeObject Value Body
  error : ErrorEnvelope → EnvelopeObject Value Body
  hello knock presence decision : Body → EnvelopeObject Value Body
  help : Help → EnvelopeObject Value Body
  media : Media → EnvelopeObject Value Body
  audio_duplex projection entrain : Body → EnvelopeObject Value Body
  vibration : Vibration Body → EnvelopeObject Value Body
  damp : Body → EnvelopeObject Value Body
  graph : Graph Body → EnvelopeObject Value Body
  generic : Generic Body → EnvelopeObject Value Body

unfoldable pub envelope_class_name : {Value Body : Type 0} → EnvelopeObject Value Body → Str
envelope_class_name (query _) = codes "rsntr:Query"
envelope_class_name (execute _) = codes "rsntr:Execute"
envelope_class_name (result _) = codes "rsntr:Result"
envelope_class_name (row _) = codes "rsntr:Row"
envelope_class_name (done _) = codes "rsntr:Done"
envelope_class_name (denied _) = codes "rsntr:Denied"
envelope_class_name (error _) = codes "rsntr:Error"
envelope_class_name (hello _) = codes "rsntr:Hello"
envelope_class_name (knock _) = codes "rsntr:Knock"
envelope_class_name (presence _) = codes "rsntr:Presence"
envelope_class_name (decision _) = codes "rsntr:Decision"
envelope_class_name (help _) = codes "rsntr:Help"
envelope_class_name (media _) = codes "rsntr:Media"
envelope_class_name (audio_duplex _) = codes "rsntr:AudioDuplex"
envelope_class_name (projection _) = codes "rsntr:Projection"
envelope_class_name (entrain _) = codes "rsntr:Entrain"
envelope_class_name (vibration _) = codes "rsntr:Vibration"
envelope_class_name (damp _) = codes "rsntr:Damp"
envelope_class_name (graph _) = codes "rsntr:Graph"
envelope_class_name (generic _) = codes "a generic rsntr frame"
