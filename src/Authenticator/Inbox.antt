-- ===== src/Authenticator/Inbox.antt =====
-- crates/authenticator/src/human.rs: the owner's answer to a parked request or knock. Each statement
-- leaves the database that it wrote, also before an error: the flow is no transaction.
pub mod Keeps
pub mod Answer
pub mod Remembered
pub mod RoundTrip
pub mod Grants
use rsntr.Base.{
  ℕ, Bool, true, false, ◌&&◌, Option, none, some, List, [], ◌∷◌, ◌++◌, if◌then◌else◌, Str, codes,
  ◌=s◌, any, find, ◌==◌, map,
}
use rsntr.Authenticator.Types.{Footprint, is_empty, table_names}
use rsntr.Authenticator.Db.{PolicyRow, InboxRow, PeerRow, Db}
use rsntr.Authenticator.Clock.{now_rfc3339}
use rsntr.Authenticator.Cache.{record_decision}
use rsntr.Authenticator.Human.{ParkedParams, Codec, is_nil}

pub record InboxAnswer : Type 0 where
  pub peer : Str
  pub knock : Bool
  pub remembered : List Str
  pub granted : List Str

-- The messages of the answer flow; `sqlite` stands for a failed statement.
pub data AnswerError : Type 0 where
  no_row : Str → AnswerError
  already_decided : Str → Str → AnswerError
  unreadable_params : Str → AnswerError
  bad_grant : Str → AnswerError
  sqlite : AnswerError

pub data Result {ℓ} (A : Type ℓ) : Type ℓ where
  ok : A → Result A
  err : AnswerError → Result A

-- A function that returns a `Result` and leaves a database, whatever it returns.
abbrev pub Act : Type 0 → Type 0 → Type 0
Act Json A = Db Json → Result A × Db Json

module _ {Json A B : Type 0} where
  infixl 5 ◌>>=◌ ◌>>◌
  abbrev pub ◌>>=◌ : Act Json A → (A → Act Json B) → Act Json B
  ◌>>=◌ m f db = let (r, db') = m db in elim r [ ok a ↦ f a db' | err e ↦ (err e, db') ]

  abbrev pub ◌>>◌ : Act Json A → Act Json B → Act Json B
  m >> n = m >>= λ _. n

module _ {Json A : Type 0} where
  abbrev pub pure : A → Act Json A
  pure a db = (ok a, db)

  abbrev pub raise : AnswerError → Act Json A
  raise e db = (err e, db)

-- `grant.split_once('=')`
unfoldable pub split_once : Str → Option (Str × Str)
split_once [] = none
split_once (c ∷ cs) =
    if c == b'='
    then some ([], cs)
    else elim (split_once cs) [ none ↦ none | some (a, b) ↦ some (c ∷ a, b) ]

abbrev pub allow_rule : Str → Str → Str → PolicyRow → Bool
allow_rule peer table action r =
    r.peer_or_group =s peer
    && r.table_name =s table
    && r.action =s action
    && r.effect =s codes "allow"

abbrev pub grant_row : Str → Str → Str → Str → PolicyRow
grant_row peer request_id table action = record {
  peer_or_group = peer;
  table_name = table;
  action = action;
  effect = codes "allow";
  note = some (codes "granted with inbox answer " ++ request_id);
}

abbrev pub admitted_row : ℕ → Str → Str → PeerRow
admitted_row now peer request_id = record {
  endpoint_id = peer;
  added_at = now_rfc3339 now;
  notes = some (codes "admitted via inbox " ++ request_id);
}

module _ {Json : Type 0} where
  -- INSERT INTO _policy
  unfoldable pub insert_policy : PolicyRow → Act Json (Unit {0})
  insert_policy row db = elim db.policy [
    | none ↦ (err sqlite, db)
    | some rows ↦ (ok tt, record db { policy = some (rows ++ row ∷ []) })
  ]

  -- INSERT … WHERE NOT EXISTS (an allowing row for the same peer, table and action)
  unfoldable pub grant_policy : PolicyRow → Act Json (Unit {0})
  unfolding insert_policy
  grant_policy row db = elim db.policy [
    | none ↦ (err sqlite, db)
    | some rows ↦
        if any (allow_rule row.peer_or_group row.table_name row.action) rows
        then (ok tt, db)
        else insert_policy row db
  ]

  unfoldable pub write_grants : Str → Str → List Str → Act Json (List Str)
  unfolding grant_policy split_once
  write_grants peer request_id [] = pure []
  write_grants peer request_id (grant ∷ grants) =
      let rest = write_grants peer request_id grants in
      elim (split_once grant) [
        | none ↦ raise (bad_grant grant)
        | some (table, action) ↦ do
          grant_policy (grant_row peer request_id table action)
          more ← rest
          pure (grant ∷ more)
      ]

  -- INSERT OR IGNORE INTO _peers, whose primary key is endpoint_id
  unfoldable pub admit : ℕ → Str → Str → Act Json (Unit {0})
  admit now peer request_id db = elim db.peers [
    | none ↦ (err sqlite, db)
    | some rows ↦
        if any (λ r. r.endpoint_id =s peer) rows
        then (ok tt, db)
        else (ok tt, record db { peers = some (rows ++ admitted_row now peer request_id ∷ []) })
  ]

  -- SELECT … FROM _inbox WHERE request_id = ?1
  unfoldable pub find_row : Str → Act Json (InboxRow Json)
  find_row request_id db = elim db.inbox [
    | none ↦ (err sqlite, db)
    | some rows ↦ elim (find (λ r. r.request_id =s request_id) rows) [
      | none ↦ (err (no_row request_id), db)
      | some r ↦ (ok r, db)
    ]
  ]

  unfoldable pub not_decided : Str → Option Str → Act Json (Unit {0})
  not_decided request_id none = pure tt
  not_decided request_id (some d) = raise (already_decided request_id d)

  -- UPDATE _inbox SET decision, decided_by WHERE request_id = ?2
  unfoldable pub mark_row : Str → Str → InboxRow Json → InboxRow Json
  mark_row request_id decision r =
      if r.request_id =s request_id
      then record r { decision = some decision; decided_by = some (codes "human") }
      else r

  unfoldable pub mark : Str → Str → Act Json (Unit {0})
  unfolding mark_row
  mark request_id decision db = elim db.inbox [
    | none ↦ (err sqlite, db)
    | some rows ↦ (ok tt, record db { inbox = some (map (mark_row request_id decision) rows) })
  ]

  -- `record_decision` with its error
  unfoldable pub remember_decision : ℕ → Str → Str → Str → Str → Act Json (Unit {0})
  remember_decision now peer fp decision request_id db =
      elim (record_decision now peer fp decision
        (some (codes "answered from _inbox " ++ request_id)) (codes "human") none db) [
          | none ↦ (err sqlite, db)
          | some db' ↦ (ok tt, db')
        ]

  -- the loop that writes one row of `_policy` for each table
  unfoldable pub remember_tables : Str → Str → Str → Str → List Str → Act Json (List Str)
  unfolding insert_policy
  remember_tables peer request_id action effect [] = pure []
  remember_tables peer request_id action effect (table ∷ tables) =
      let rest = remember_tables peer request_id action effect tables in
      do
        insert_policy (record {
          peer_or_group = peer;
          table_name = table;
          action = action;
          effect = effect;
          note = some (codes "remembered from inbox " ++ request_id);
        })
        more ← rest
        pure (table ∷ more)

-- one row for the wildcard if the footprint has no tables
unfoldable pub remembered_tables : Footprint → List Str
remembered_tables f = if is_empty f then codes "*" ∷ [] else table_names f

unfoldable pub effect_of : Bool → Str
effect_of true = codes "allow"
effect_of false = codes "deny"

module _ {Json : Type 0} (c : Codec Json) where
  -- `none` for a knock, whose `sql` is empty
  unfoldable pub read_params : Str → InboxRow Json → Act Json (Option ParkedParams)
  read_params request_id r = if is_nil r.sql then pure none else elim (c.from_json r.params) [
    | none ↦ raise (unreadable_params request_id)
    | some p ↦ pure (some p)
  ]

module _ {Json : Type 0} where
  unfoldable pub answer_knock : ℕ → Str → Str → Bool → List Str → Act Json InboxAnswer
  unfolding admit write_grants
  answer_knock now request_id peer allow grants =
      if allow
      then (do
        admit now peer request_id
        granted ← write_grants peer request_id grants
        pure (record { peer = peer; knock = true; remembered = []; granted = granted }))
      else pure (record { peer = peer; knock = true; remembered = []; granted = [] })

  -- behind `record_decision`: the rows of `_policy`
  unfoldable pub write_rules :
      Str → Str → ParkedParams → Bool → Bool → List Str → Act Json InboxAnswer
  unfolding remember_tables write_grants remembered_tables
  write_rules request_id peer parked allow remember grants = do
    remembered ←
        (if remember
          then remember_tables peer request_id parked.action (effect_of allow)
              (remembered_tables parked.footprint)
          else pure [])
    granted ← (if allow then write_grants peer request_id grants else pure [])
    pure (record { peer = peer; knock = false; remembered = remembered; granted = granted })

  unfoldable pub answer_statement :
      ℕ → Str → Str → ParkedParams → Bool → Bool → List Str → Act Json InboxAnswer
  unfolding remember_decision write_rules effect_of
  answer_statement now request_id peer parked allow remember grants =
      remember_decision now peer parked.fingerprint (effect_of allow) request_id
      >> write_rules request_id peer parked allow remember grants

  unfoldable pub apply_answer :
      ℕ → Str → Str → Option ParkedParams → Bool → Bool → List Str → Act Json InboxAnswer
  unfolding answer_knock answer_statement
  apply_answer now request_id peer none allow remember grants =
      answer_knock now request_id peer allow grants
  apply_answer now request_id peer (some parked) allow remember grants =
      answer_statement now request_id peer parked allow remember grants

  -- from the UPDATE on
  abbrev pub settle :
      ℕ → Str → Bool → Bool → List Str → Str → Option ParkedParams → Act Json InboxAnswer
  settle now request_id allow remember grants peer parked = do
    mark request_id (effect_of allow)
    apply_answer now request_id peer parked allow remember grants

module _ {Json : Type 0} (c : Codec Json) where
  -- the row is there
  abbrev pub answer_row : ℕ → Str → Bool → Bool → List Str → InboxRow Json → Act Json InboxAnswer
  answer_row now request_id allow remember grants r = do
    not_decided request_id r.decision
    parked ← read_params c request_id r
    settle now request_id allow remember grants r.peer parked

  unfoldable pub answer_inbox : ℕ → Str → Bool → Bool → List Str → Act Json InboxAnswer
  unfolding find_row not_decided read_params mark apply_answer effect_of
  answer_inbox now request_id allow remember grants = do
    r ← find_row request_id
    answer_row now request_id allow remember grants r
