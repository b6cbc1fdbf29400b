-- ===== src/Authenticator/Db.antt =====
-- The tables of the node's database that the tiers read and write, as the DDL of
-- crates/authenticator (`_decisions`, `_policy`) and of crates/node/src/ddl.rs (`_rsntr`, `_inbox`,
-- `_peers`) declares them. A table that is `none` does not exist: a statement on it fails.
-- `Json` is what the params column holds.
use rsntr.Base.{ℕ, Option, List, Str}

pub record PolicyRow : Type 0 where
  pub peer_or_group : Str
  pub table_name : Str
  pub action : Str
  pub effect : Str
  pub note : Option Str

-- `expires_at` is in whole units of the clock; `none` is no expiry.
pub record DecisionRow : Type 0 where
  pub peer : Str
  pub fingerprint : Str
  pub decision : Str
  pub reason : Option Str
  pub decided_by : Str
  pub created_at : Str
  pub expires_at : Option ℕ

pub record InboxRow (Json : Type 0) : Type 0 where
  pub request_id : Str
  pub peer : Str
  pub sql : Str
  pub params : Json
  pub decision : Option Str
  pub decided_by : Option Str
  pub received_at : Str

pub record PeerRow : Type 0 where
  pub endpoint_id : Str
  pub added_at : Str
  pub notes : Option Str

pub record Db (Json : Type 0) : Type 0 where
  pub rsntr : Option (List (Str × Str))
  pub policy : Option (List PolicyRow)
  pub decisions : Option (List DecisionRow)
  pub inbox : Option (List (InboxRow Json))
  pub peers : Option (List PeerRow)
