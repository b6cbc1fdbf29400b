-- ===== src/Authenticator/Examples.antt =====
-- Runs of the theorems of the authenticator on a small database: two peers, the table `notes`, a
-- statement that reads it. The hash is the identity, and the params column holds the params.
use rsntr.Base.{
  ℕ, ◌≡◌, ◌≢◌, refl, sym, ap, true, false, Option, none, some, List, [], ◌∷◌, arith, Str, codes,
  some_inj, here, there, ◌=s◌,
}
use rsntr.Authenticator.Types.{
  Footprint, ActionKind, Decision.allow, has_denied, is_empty, table_names,
}
use rsntr.Authenticator.Db.{PolicyRow, DecisionRow, InboxRow, Db}
use rsntr.Authenticator.Fingerprint.{statement_fingerprint}
use rsntr.Authenticator.Policy.{resolve, policy_decide, resources}
use rsntr.Authenticator.Cache.{decision_row, cache_decide}
use rsntr.Authenticator.Human.{Codec, IsFaithful, ParkedParams, human_decide, pending, parked_row}
use rsntr.Authenticator.Inbox.{answer_inbox, err, bad_grant}
use rsntr.Authenticator.Chain.{Request, Tier, Parsers, run, tier_at, policy_tier, cache_tier, judge}
use rsntr.Authenticator.Chain.FirstAnswer.{Answers, run_iff}
use rsntr.Authenticator.Policy.Precedence.{RefusedBy, resolve_precedence}
use rsntr.Authenticator.Policy.Verdict.{Denies, deny_row, policy_decide-allow, deny_row_final}
use rsntr.Authenticator.Human.Parking.{WaitsOnce}
use rsntr.Authenticator.Human.Once.{human_decide-WaitsOnce}
use rsntr.Authenticator.Inbox.Remembered.{verdict, cache_decide-answer_inbox}
use rsntr.Authenticator.Inbox.RoundTrip.{cache_decide-answer_inbox-human_decide}
use rsntr.Authenticator.Inbox.Grants.{answer_inbox_bad_grant}

abbrev identity_hash : List ℕ → List ℕ
identity_hash bs = bs

abbrev alice : Str
alice = codes "a"

abbrev bob : Str
bob = codes "b"

abbrev notes : Str
notes = codes "notes"

abbrev sql : Str
sql = codes "x 'y'"

abbrev notes_read : Footprint
notes_read = record { kind = ActionKind.read; tables = (notes, codes "t" ∷ []) ∷ []; denied = [] }

abbrev allow_all : PolicyRow
allow_all = record {
  peer_or_group = codes "*";
  table_name = codes "*";
  action = codes "read";
  effect = codes "allow";
  note = none;
}

abbrev bob_denied : PolicyRow
bob_denied = deny_row bob notes (codes "read") none

abbrev policy_rows : List PolicyRow
policy_rows = allow_all ∷ bob_denied ∷ []

abbrev params : ParkedParams
params = record {
  action = codes "read";
  fingerprint = statement_fingerprint identity_hash (codes "read") sql notes_read;
  footprint = notes_read;
}

abbrev codec : Codec (Option ParkedParams)
codec = record {
  to_json = λ p. some (some p);
  from_json = λ j. j;
  extract = λ j. elim j [ none ↦ some none | some p ↦ some (some p.fingerprint) ];
}

codec-IsFaithful : IsFaithful codec
codec-IsFaithful = record {
  from_to = λ p j e. sym (some_inj e);
  extract_to = λ p j e. ap codec.extract (sym (some_inj e));
}

abbrev waiting_row : InboxRow (Option ParkedParams)
waiting_row = parked_row 7 (codes "r1") alice sql (some params)

abbrev knock_row : InboxRow (Option ParkedParams)
knock_row = parked_row 7 (codes "k1") bob [] none

abbrev db : Db (Option ParkedParams)
db = record {
  rsntr = some [];
  policy = some policy_rows;
  decisions = some [];
  inbox = some (waiting_row ∷ knock_row ∷ []);
  peers = some [];
}

-- The same database before anything was asked.
abbrev quiet : Db (Option ParkedParams)
quiet = record {
  rsntr = some [];
  policy = some policy_rows;
  decisions = some [];
  inbox = some [];
  peers = some [];
}

abbrev request : Request
request = record { peer = bob; action = codes "read"; footprint = notes_read; statement = sql }

abbrev parsers : Parsers
parsers = record { parse_chain = λ raw. some (raw ∷ []); parse_masks = λ raw. some [] }

abbrev alice_asks : Request
alice_asks = record { peer = alice; action = codes "read"; footprint = notes_read; statement = sql }

abbrev tiers : List (Tier (Option ParkedParams))
tiers = cache_tier identity_hash 9 ∷ policy_tier ∷ []

abbrev cache_then_policy : List Str
cache_then_policy = codes "cache" ∷ codes "policy" ∷ []

abbrev first_letter : Str → ℕ
first_letter [] = 0
first_letter (c ∷ cs) = c

alice_is_not_bob : bob ≢ alice
alice_is_not_bob e = omega (arith, ap first_letter e)

run_iff_example :
    Answers tiers [] alice_asks
      (record { decision = allow; decided_by = codes "policy" })
      db
      cache_then_policy
      db
unfolding run judge tier_at cache_decide policy_decide ◌=s◌ has_denied is_empty table_names resolve
run_iff_example = (run_iff tiers [] alice_asks cache_then_policy db db _).0 refl

resolve_precedence_example : RefusedBy bob notes (codes "read") policy_rows
unfolding resolve ◌=s◌
resolve_precedence_example = (resolve_precedence bob notes (codes "read") policy_rows).1.0 refl

policy_decide-allow_example : policy_decide db alice (codes "read") notes_read ≡ allow
unfolding ◌=s◌ resources is_empty table_names has_denied resolve
policy_decide-allow_example =
    (policy_decide-allow db alice (codes "read") notes_read).1
      (refl, (policy_rows, refl, (refl, tt)))

deny_row_final_example : Denies (policy_decide db bob (codes "read") notes_read)
unfolding ◌=s◌ resources is_empty table_names
deny_row_final_example =
    deny_row_final db policy_rows bob notes (codes "read") none notes_read refl refl (here refl)
      refl (there (here refl))

-- The fingerprint of the request of the examples.
abbrev print : Str
print = statement_fingerprint identity_hash (codes "read") sql notes_read

abbrev recorded : DecisionRow
recorded = decision_row 3 bob print (codes "deny") (some (codes "no")) alice (some 4)

abbrev recorded_db : Db (Option ParkedParams)
recorded_db = record db { decisions = some (recorded ∷ []) }

abbrev asked : Db (Option ParkedParams)
asked = record quiet { inbox = some (waiting_row ∷ []) }

human_decide-WaitsOnce_example : WaitsOnce codec (waiting_row ∷ [])
unfolding human_decide ◌=s◌ has_denied
human_decide-WaitsOnce_example =
    human_decide-WaitsOnce codec codec-IsFaithful identity_hash 7 (codes "r1") quiet alice
      (codes "read") notes_read sql [] (waiting_row ∷ []) refl (λ p f. omega arith) refl

cache_decide-answer_inbox_example :
    cache_decide identity_hash 9
      ((answer_inbox codec 8 (codes "r1") true false [] db).1)
      alice
      (codes "read")
      notes_read
      sql
    ≡ verdict true (codes "r1")
unfolding ◌=s◌ has_denied
cache_decide-answer_inbox_example =
    cache_decide-answer_inbox codec identity_hash 8 9 (codes "r1") true false [] db
      (waiting_row ∷ knock_row ∷ []) waiting_row params [] (codes "read") sql notes_read refl refl
      refl refl refl refl tt refl refl refl

cache_decide-answer_inbox-human_decide_example :
    cache_decide identity_hash 9
      ((answer_inbox codec 8 (codes "r1") false false [] asked).1)
      alice
      (codes "read")
      notes_read
      sql
    ≡ verdict false (codes "r1")
unfolding human_decide pending ◌=s◌ has_denied
cache_decide-answer_inbox-human_decide_example =
    cache_decide-answer_inbox-human_decide codec codec-IsFaithful identity_hash 7 8 9 (codes "r1")
      quiet asked alice (codes "read") sql notes_read [] [] false false [] refl refl tt refl refl

answer_inbox_bad_grant_example :
    (answer_inbox codec 8 (codes "k1") true true (codes "g" ∷ []) db).0
    ≡ err (bad_grant (codes "g"))
unfolding ◌=s◌
answer_inbox_bad_grant_example =
    (answer_inbox_bad_grant codec 8 9 (codes "k1") (codes "g") [] [] true db
      (waiting_row ∷ knock_row ∷ []) knock_row [] refl refl refl refl refl refl).0
