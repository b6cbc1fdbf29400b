-- ===== src/Node/Examples.antt =====
-- Runs of the theorems: an update of one column, with the read of another, an installation of a mod,
-- and a registry with one entrainment.
use rsntr.Base.{
  ℕ, any, false, ◌==◌, arith, true, ◌≡◌, refl, inr, none, some, Option, sym, ap, some_inj, ◌=s◌,
  List, [], ◌∷◌, here, there, Str, codes,
}
use rsntr.Authenticator.Db.{PolicyRow, InboxRow, Db}
use rsntr.Authenticator.Chain.{read_rsntr}
use rsntr.Authenticator.Human.{
  Codec, IsFaithful, ParkedParams, parked_row, pending, pending_reason, insert_inbox,
}
use rsntr.Node.Authorizer.{remote, AuthAction, read_column, update, banned, enforce}
use rsntr.Node.Authorizer.Known.{approved}
use rsntr.Node.Authorizer.Agreement.{enforce-collect}
use rsntr.Node.Entrain.{Channels, Entrainments, new, subscribe, signal_table}
use rsntr.Node.Entrain.Ids.{starts, subscribes, signals_table, subscribe_fresh}
use rsntr.Node.ModInstall.{
  allowed, pending_answer, peer_known, policy_matches, row_matches, gate, park_install, park_new,
  install_fingerprint, mod_footprint, audited,
}
use rsntr.Node.ModInstall.Gate.{Answers, gate_allowed_iff}
use rsntr.Authenticator.Inbox.{answer_inbox}
use rsntr.Node.ModInstall.Approval.Flow.{gate-answer_inbox-gate}
use rsntr.Node.ModInstall.Retry.{gate_retry}

abbrev notes : Str
notes = codes "notes"

abbrev actions : List AuthAction
actions = read_column notes (codes "id") ∷ update notes (codes "body") ∷ []

abbrev empty_db : Db Str
empty_db = record { rsntr = none; policy = none; decisions = none; inbox = none; peers = none }

enforce-collect_example :
    enforce (approved [] remote actions) [] (update notes (codes "body")) ≡ none
unfolding banned
enforce-collect_example =
    enforce-collect [] remote actions (update notes (codes "body")) (refl, (refl, tt)) (inr refl)
      (there (here refl))

abbrev codec : Codec (Option ParkedParams)
codec = record {
  to_json = λ p. some (some p);
  from_json = λ j. j;
  extract = λ j. elim j [ none ↦ some none | some p ↦ some (some p.fingerprint) ];
}

codec-IsFaithful : IsFaithful codec
codec-IsFaithful = record {
  from_to = λ p j e. sym (some_inj e);
  extract_to = λ p j e. ap codec.extract (sym (some_inj e));
}

abbrev allows : Str → PolicyRow
allows action = record {
  peer_or_group = codes "a";
  table_name = codes "*";
  action = action;
  effect = codes "allow";
  note = none;
}

abbrev granting : Db (Option ParkedParams)
granting = record {
  rsntr = some ((codes "endpoint_id", codes "a") ∷ []);
  policy = some (allows (codes "mod-install") ∷ allows (codes "mod-cap:net") ∷ []);
  decisions = none;
  inbox = none;
  peers = none;
}

gate_allowed_iff_example :
    Answers
      (gate
        (λ s. s)
        []
        codec
        (λ b. b)
        7
        (codes "r")
        granting
        (codes "a")
        (codes "i")
        notes
        (codes "net" ∷ [])
        (codes "s"))
      allowed
unfolding peer_known policy_matches row_matches read_rsntr ◌=s◌
gate_allowed_iff_example =
    (gate_allowed_iff (λ s. s) [] codec (λ b. b) 7 (codes "r") granting (codes "a") (codes "i")
        notes (codes "net" ∷ []) (codes "s")).1
      (refl, (refl, refl), ((refl, refl), tt))

-- The node knows itself and has no policy.
abbrev asked : Option (List (InboxRow (Option ParkedParams))) → Db (Option ParkedParams)
asked inbox = record {
  rsntr = some ((codes "endpoint_id", codes "a") ∷ []);
  policy = none;
  decisions = none;
  inbox = inbox;
  peers = none;
}

abbrev waiting_row : InboxRow (Option ParkedParams)
waiting_row = parked_row 7 (codes "r") (codes "a") (codes "s") (
    some (record {
      action = codes "mod-install";
      fingerprint = install_fingerprint codec (λ b. b) (codes "s") notes;
      footprint = mod_footprint notes;
    }))

gate_retry_example :
    gate
      (λ s. s)
      []
      codec
      (λ b. b)
      8
      (codes "q")
      (asked (some (waiting_row ∷ [])))
      (codes "a")
      (codes "j")
      notes
      (codes "net" ∷ [])
      (codes "s")
    ≡ some (
      pending_answer,
      audited (codes "a") (codes "j") notes (codes "deny") (codes "human") pending_reason,
      asked (some (waiting_row ∷ [])),
    )
unfolding gate peer_known policy_matches read_rsntr ◌=s◌ park_install park_new pending insert_inbox
gate_retry_example =
    gate_retry (λ s. s) [] codec codec-IsFaithful (λ b. b) 7 8 (codes "r") (codes "q") (codes "a")
      (codes "i") (codes "j") (codes "s") notes [] (codes "net" ∷ []) (asked (some []))
      (asked (some (waiting_row ∷ [])))
      (audited (codes "a") (codes "i") notes (codes "deny") (codes "human") pending_reason) refl
      refl

-- The node knows itself, denies and allows nothing and remembers nothing.
abbrev fresh_node : Option (List (InboxRow (Option ParkedParams))) → Db (Option ParkedParams)
fresh_node inbox = record {
  rsntr = some ((codes "endpoint_id", codes "a") ∷ []);
  policy = some [];
  decisions = some [];
  inbox = inbox;
  peers = none;
}

gate-answer_inbox-gate_example :
    Answers
      (gate
        (λ s. s)
        []
        codec
        (λ b. b)
        9
        (codes "q")
        (answer_inbox codec 8 (codes "r") true true [] (fresh_node (some (waiting_row ∷ [])))).1
        (codes "a")
        (codes "j")
        notes
        []
        (codes "t"))
      allowed
unfolding gate peer_known policy_matches read_rsntr ◌=s◌ park_install park_new pending insert_inbox
gate-answer_inbox-gate_example =
    gate-answer_inbox-gate (λ s. s) [] codec codec-IsFaithful (λ b. b) 7 8 9 (codes "r") (codes "q")
      (codes "a") (codes "i") (codes "j") (codes "s") (codes "t") notes [] (fresh_node (some []))
      (fresh_node (some (waiting_row ∷ [])))
      (audited (codes "a") (codes "i") notes (codes "deny") (codes "human") pending_reason) [] [] []
      refl refl refl refl refl refl

-- A channel is its number of free places.
abbrev places : Channels ℕ
places = record { channel = λ n. n; try_send = λ n. 0 }

abbrev listening : Entrainments ℕ
listening = (subscribe places (codes "p") (some notes) new).1

subscribe_fresh_example :
    any
      (λ e. e.0 == (subscribe places (codes "q") none (signal_table places notes listening)).0)
      (signal_table places notes listening).subs
    ≡ false
subscribe_fresh_example =
    subscribe_fresh places 1 (signal_table places notes listening) (codes "q") none
      (signals_table 1 listening notes (subscribes 0 new (codes "p") (some notes) starts))
      (omega arith)
