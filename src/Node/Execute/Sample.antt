-- ===== src/Node/Execute/Sample.antt =====
-- Small data for runs: an engine with one statement, and a job that writes.
use rsntr.Base.{ℕ, Option, none, some, [], ◌∷◌, codes}
use rsntr.Authenticator.Types.{ActionKind.write}
use rsntr.Protocol.Envelope.{pos}
use rsntr.Node.Authorizer.{remote}
use rsntr.Node.Engine.{
  Cell.integer, Cell.null, Store, Query, bound, Statement, Engine, busy, SqlError,
}
use rsntr.Node.Stream.{ExecJob}

abbrev pub rows_query : Store ℕ → Query Unit ℕ
rows_query db = record {
  rows = (integer (pos 7) ∷ []) ∷ (null ∷ []) ∷ [];
  ending = none;
  after = λ steps. record { applied = db.applied; tables = steps };
  changes = pos 2;
  last_insert_rowid = pos 5;
}

abbrev pub statement : Store ℕ → Statement Unit ℕ
statement db = record {
  column_names = codes "n" ∷ [];
  decl_types = none ∷ [];
  query = λ params. bound (rows_query db);
}

-- An engine that always prepares this statement, and commits or not.
abbrev pub engine : Option SqlError → Engine Unit ℕ
engine at_commit = record {
  begin = λ immediate db. none;
  actions = λ sql db. [];
  prepare = λ sql db. some (statement db);
  prepare_error = λ sql db. busy;
  commit = λ db. at_commit;
  failure = busy;
  from_utf8_lossy = λ bytes. bytes;
  to_json = λ affected rowid. codes "{}";
  from_json = λ json. (none, none);
  reason_text = λ reason. codes "denied";
}

abbrev pub job : ExecJob Unit
job = record {
  id = codes "r";
  sql = codes "INSERT";
  params = [];
  approved = record {
    footprint = record { kind = write; tables = []; denied = [] };
    lane = remote;
  };
  limits = record { row_cap = 1; byte_cap = 1000; timeout_ms = 10; step_budget = 10 };
  rows_per_frame = 4;
  frame_byte_budget = 100;
  pragma_allowlist = [];
}

abbrev pub store : Store ℕ
store = record { applied = some []; tables = 0 }
