-- ===== src/Node/Knock/Examples.antt =====
-- Runs of the theorems on knocks: two strangers with a budget of a knock per minute each.
use rsntr.Base.{ℕ, ◌+◌, ◌*◌, ◌≤◌, refl, true, none, some, List, [], ◌∷◌, Str, codes, ◌=s◌}
use rsntr.Authenticator.Human.{Codec}
use rsntr.Authenticator.Chain.{Parsers}
use rsntr.Node.Budget.{KnockLimits}
use rsntr.Node.Budget.Rate.{spend_all, granted, elapsed, granted-spend_all}
use rsntr.Node.Knock.{KnockReply, KnockState, weigh_knock}
use rsntr.Node.Knock.Admission.{Means, Spends, weigh_knock-Means}

abbrev limits : KnockLimits
limits = record {
  whole = 60;
  per_key_burst = 60;
  per_key_refill = 1;
  global_burst = 1200;
  global_refill = 10;
}

abbrev knocks : List (Str × ℕ)
knocks = (codes "a", 1) ∷ (codes "b", 2) ∷ (codes "a", 30) ∷ (codes "a", 40) ∷ []

granted-spend_all_example :
    (60 * granted (λ peer. true) (spend_all limits 5 knocks (some [])) ≤ 1200 + 73 * 10)
    × (60 * granted (λ peer. peer =s codes "a") (spend_all limits 5 knocks (some [])) ≤ 60 + 73 * 1)
unfolding ◌=s◌ elapsed
granted-spend_all_example = granted-spend_all limits 5 knocks [] (codes "a") refl

abbrev codec : Codec Str
codec = record { to_json = λ p. none; from_json = λ j. none; extract = λ j. none }

abbrev parsers : Parsers
parsers = record { parse_chain = λ s. none; parse_masks = λ s. none }

abbrev state : KnockState Str
state = record {
  db = record {
    rsntr = some [];
    policy = none;
    decisions = none;
    inbox = some [];
    peers = some [];
  };
  budget = some [];
  audit = [];
}

abbrev knocked : KnockReply × KnockState Str
knocked =
    weigh_knock codec (λ t. t) parsers [] limits (λ s. none) 7 70 (codes "01") (codes "a") none
      (codes "hello") state

weigh_knock-Means_example :
    Means (codes "a") state knocked × Spends limits 70 (codes "a") state knocked
weigh_knock-Means_example =
    weigh_knock-Means codec (λ t. t) parsers [] limits (λ s. none) 7 70 (codes "01") (codes "a")
      none (codes "hello") state
