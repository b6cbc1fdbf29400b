-- ===== src/Node/Engine.antt =====
-- crates/node/src/pipeline.rs: what the pipeline uses of sqlite, as the parameter `Engine`: what it
-- reports to the authorizer while it prepares a statement, the rows that it steps to, the store behind
-- so many steps, and its errors; also the texts of JSON that `_applied` holds.
use rsntr.Base.{ℕ, Bool, Option, List, Str}
use rsntr.Protocol.Envelope.{ℤ}
use rsntr.Web.Csv.{Value}
use rsntr.Node.Authorizer.{AuthAction, Reason}

-- `interrupted` carries what the flag `steps_exceeded` then holds.
pub data SqlError : Type 0 where
  interrupted : Bool → SqlError
  busy : SqlError
  other_error : Str → SqlError

-- `ValueRef`; a text is its bytes.
pub data Cell (Real : Type 0) : Type 0 where
  null : Cell Real
  integer : ℤ → Cell Real
  real : Real → Cell Real
  text blob : List ℕ → Cell Real

-- `_applied`, and the other tables. A table that is `none` does not exist.
pub record Store (Tables : Type 0) : Type 0 where
  pub applied : Option (List (Str × Str))
  pub tables : Tables

-- A bound statement: the rows that it steps to and the error that ends them, and what so many steps
-- leave.
pub record Query (Real Tables : Type 0) : Type 0 where
  pub rows : List (List (Cell Real))
  pub ending : Option SqlError
  pub after : ℕ → Store Tables
  pub changes : ℤ
  pub last_insert_rowid : ℤ

pub data Bound (Real Tables : Type 0) : Type 0 where
  bound : Query Real Tables → Bound Real Tables
  unbound : SqlError → Bound Real Tables

pub record Statement (Real Tables : Type 0) : Type 0 where
  pub column_names : List Str
  pub decl_types : List (Option Str)
  pub query : List (Value Real) → Bound Real Tables

pub record Engine (Real Tables : Type 0) : Type 0 where
  -- opening a transaction, immediate or not
  pub begin : Bool → Store Tables → Option SqlError
  -- what preparing a statement reports to the authorizer, and then gives
  pub actions : Str → Store Tables → List AuthAction
  pub prepare : Str → Store Tables → Option (Statement Real Tables)
  pub prepare_error : Str → Store Tables → SqlError
  pub commit : Store Tables → Option SqlError
  -- the failure of a statement of the node itself
  pub failure : SqlError
  pub from_utf8_lossy : List ℕ → Str
  -- `json!({"affected_rows": …, "last_insert_rowid": …})`, and reading the two numbers of such a text
  pub to_json : ℤ → ℤ → Str
  pub from_json : Str → Option ℤ × Option ℤ
  -- the text of a denial's reason
  pub reason_text : Reason → Str
