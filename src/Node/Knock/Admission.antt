-- ===== src/Node/Knock/Admission.antt =====
-- crates/node/src/pipeline.rs: what an answer to a knock means, and the rows of _audit.
use rsntr.Base.{
  ℕ, ◌≡◌, ◌≢◌, ◌⊎◌, refl, subst, inl, inr, Bool, true, false, if◌then◌else◌, Option, none, some,
  List, [], ◌∷◌, ◌++◌, any, arith, Str, codes, ◌=s◌, =s_refl, Bool-cases,
}
use rsntr.Authenticator.Types.{
  Decision, Decision.allow, Decision.allow_narrowed, Decision.deny, Decision.escalate,
}
use rsntr.Authenticator.Db.{PeerRow, Db}
use rsntr.Authenticator.Human.{Codec}
use rsntr.Authenticator.Chain.{Tier, Parsers, Decided, decide}
use rsntr.Node.ModInstall.{AuditRow, has_peer, peer_known}
use rsntr.Node.Budget.{KnockLimits, Budget, spend_knock_token}
use rsntr.Node.Knock.{
  KnockReply, dropped, answered, KnockState, knock_id, knocked_row, admit_peer, leaves, admitted,
  parked, act_on, knock_request, weigh_knock, audit_row,
}

any-append_own :
    (peer : Str) (rows : List PeerRow) (row : PeerRow)
    → row.endpoint_id ≡ peer
    → any (λ r. r.endpoint_id =s peer) (rows ++ row ∷ []) ≡ true
any-append_own peer [] row e = ground (arith, e, =s_refl peer)
any-append_own peer (r ∷ rows) row e = ground (arith, any-append_own peer rows row e)

-- Behind `admit_peer` a table `_peers` that is there has the peer.
abbrev HasPeer : Str → Option (List PeerRow) → Type 0
HasPeer peer none = Unit
HasPeer peer (some rows) = any (λ r. r.endpoint_id =s peer) rows ≡ true

admit_peer-HasPeer :
    (now : ℕ) (peer id : Str) (peers : Option (List PeerRow))
    → HasPeer peer (admit_peer now peer id peers)
unfolding admit_peer
admit_peer-HasPeer now peer id none = tt
admit_peer-HasPeer now peer id (some rows) =
    elim (Bool-cases (any (λ r. r.endpoint_id =s peer) rows)) [
      | inl there_is ↦ rw there_is there_is
      | inr absent ↦ rw absent (any-append_own peer rows (knocked_row now peer id) refl)
    ]

module _ {Json : Type 0} where
  has_peer-known :
      (db : Db Json) (peer : Str) → has_peer peer db.peers ≡ true → peer_known db peer ≡ true
  unfolding peer_known
  has_peer-known db peer h = ground arith

  -- What an answer means. A dropped knock changes neither a table nor the audit. Every other answer
  -- adds one row for the peer to the audit: a row that allows for the answer "allow", and then the
  -- peer is known where the table `_peers` is there; and one that denies for every other answer.
  abbrev pub Means : Str → KnockState Json → KnockReply × KnockState Json → Type 0
  Means peer st (dropped, st') = (st'.db ≡ st.db) × (st'.audit ≡ st.audit)
  Means peer st (answered id decision decided_by reason, st') =
      (row : AuditRow) × (st'.audit ≡ st.audit ++ row ∷ [])
      × (row.peer ≡ peer)
      × (((row.decision ≡ codes "allow")
            × (decision ≡ codes "allow")
            × ((rows : List PeerRow) → st'.db.peers ≡ some rows → peer_known st'.db peer ≡ true))
          ⊎ ((row.decision ≡ codes "deny") × (decision ≢ codes "allow")))

  module _ (c : Codec Json) (raw : Str → Json) (now : ℕ) (peer id message : Str)
      (st : KnockState Json) (budget : Budget) where
    known-Means :
        (why why' : Str)
        → peer_known st.db peer ≡ true
        → Means peer st (
            leaves c raw now peer id message budget st.audit
              (answered id (codes "allow") (codes "node") why)
              st.db
              (audit_row peer id (codes "allow") (codes "node") why'))
    known-Means why why' known = (
      audit_row peer id (codes "allow") (codes "node") why',
      refl,
      refl,
      inl (refl, refl, λ rows e. known),
    )

    admitted-Means :
        (decided_by : Str) (db : Db Json)
        → Means peer st (admitted c raw now peer id message budget st.audit decided_by db)
    unfolding admitted
    admitted-Means decided_by db = (
      audit_row peer id (codes "allow") decided_by (codes "knock admitted"),
      refl,
      refl,
      inl (
        refl,
        refl,
        λ rows e.
            has_peer-known (record db { peers = admit_peer now peer id db.peers }) peer
              (rw e (subst (HasPeer peer) e (admit_peer-HasPeer now peer id db.peers))),
      ),
    )

    parked-Means :
        (decided_by why : Str) (db : Db Json)
        → Means peer st (parked c raw now peer id message budget st.audit decided_by why db)
    unfolding parked
    parked-Means decided_by why db =
        (audit_row peer id (codes "deny") decided_by why, refl, refl, inr (refl, λ e. absurd (cc)))

    denied-Means :
        (decided_by reason : Str) (db : Db Json)
        → Means peer st (
            leaves c raw now peer id message budget st.audit
              (answered id (codes "deny") decided_by reason)
              db
              (audit_row peer id (codes "deny") decided_by reason))
    denied-Means decided_by reason db = (
      audit_row peer id (codes "deny") decided_by reason,
      refl,
      refl,
      inr (refl, λ e. absurd (cc)),
    )

    act_on-Means :
        (decision : Decision) (decided_by : Str) (db : Db Json)
        → Means peer st (
            act_on c raw now peer id message budget st.audit
              (record { decision = decision; decided_by = decided_by })
              db)
    unfolding act_on
    act_on-Means allow decided_by db = admitted-Means decided_by db
    act_on-Means (allow_narrowed rewrite) decided_by db = admitted-Means decided_by db
    act_on-Means escalate decided_by db =
        parked-Means (codes "node") (codes "knock parked (chain escalated)") db
    act_on-Means (deny reason) decided_by db = elim (Bool-cases (decided_by =s codes "default")) [
      | inl default ↦
          rw default (parked-Means (codes "default") (codes "knock parked for the owner") db)
      | inr other_tier ↦ rw other_tier (denied-Means decided_by reason db)
    ]

-- What a knock costs: nothing for a known peer; an answer to a stranger spends a token of its bucket and
-- of the one for all, and a dropped knock was refused one, which leaves their levels as of now in
-- `_knock_budget`.
abbrev pub Spends :
    {Json : Type 0}
    → KnockLimits
    → ℕ
    → Str
    → KnockState Json
    → KnockReply × KnockState Json
    → Type 0
Spends limits clock peer st (dropped, st') =
    (peer_known st.db peer ≡ false)
    × (spend_knock_token limits clock peer st.budget ≡ (false, st'.budget))
Spends limits clock peer st (answered id decision decided_by reason, st') =
    ((peer_known st.db peer ≡ true) × (st'.budget ≡ st.budget))
    ⊎ ((peer_known st.db peer ≡ false)
        × (spend_knock_token limits clock peer st.budget ≡ (true, st'.budget)))

module _ {Json : Type 0} (c : Codec Json) (raw : Str → Json) (now clock : ℕ) (peer id message : Str)
    (limits : KnockLimits) (st : KnockState Json) (budget : Budget)
    (unknown : peer_known st.db peer ≡ false)
    (granted : spend_knock_token limits clock peer st.budget ≡ (true, budget)) where
  act_on-Spends :
      (decision : Decision) (decided_by : Str) (db : Db Json)
      → Spends limits clock peer st (
          act_on c raw now peer id message budget st.audit
            (record { decision = decision; decided_by = decided_by })
            db)
  unfolding act_on admitted parked
  act_on-Spends allow decided_by db = inr (unknown, granted)
  act_on-Spends (allow_narrowed rewrite) decided_by db = inr (unknown, granted)
  act_on-Spends escalate decided_by db = inr (unknown, granted)
  act_on-Spends (deny reason) decided_by db = elim (Bool-cases (decided_by =s codes "default")) [
    | inl default ↦ rw default (inr (unknown, granted))
    | inr other_tier ↦ rw other_tier (inr (unknown, granted))
  ]

module _ {Json : Type 0} (c : Codec Json) (raw : Str → Json) (now clock : ℕ) (peer id message : Str)
    (limits : KnockLimits) (st : KnockState Json) (unknown : peer_known st.db peer ≡ false) where
  -- A stranger's knock, with what the chain says and what the buckets do.
  weighed :
      (asked : Decided × Db Json) (paid : Bool × Budget)
      → spend_knock_token limits clock peer st.budget ≡ paid
      → let result =
          if paid.0
          then act_on c raw now peer id message paid.1 st.audit asked.0 asked.1
          else (dropped, record { db = st.db; budget = paid.1; audit = st.audit }) in
        Means peer st result × Spends limits clock peer st result
  weighed asked (false, budget) e = ((refl, refl), (unknown, e))
  weighed asked (true, budget) e = (
    act_on-Means c raw now peer id message st budget asked.0.decision asked.0.decided_by asked.1,
    act_on-Spends c raw now clock peer id message limits st budget unknown e asked.0.decision
        asked.0.decided_by asked.1,
  )

-- Whatever the chain decides: a dropped knock writes nothing but `_knock_budget`; every other answer adds
-- one row for the peer to the audit, which allows exactly for the answer "allow", and then the peer is
-- known where the table `_peers` is there. A knock is dropped exactly if a stranger's buckets refuse a
-- token, and `_knock_budget` changes only by the spending of it.
pub weigh_knock-Means :
    {Json : Type 0} (c : Codec Json) (raw : Str → Json) (p : Parsers) (tiers : List (Tier Json))
    (limits : KnockLimits) (canonical : Str → Option Str) (now clock : ℕ) (fresh peer : Str)
    (client_request_id : Option Str) (message : Str) (st : KnockState Json)
    → let result =
        weigh_knock c raw p tiers limits canonical now clock fresh peer client_request_id message
          st in
      Means peer st result × Spends limits clock peer st result
unfolding weigh_knock
weigh_knock-Means c raw p tiers limits canonical now clock fresh peer client_request_id message st =
    let id = knock_id canonical fresh client_request_id in
    elim (Bool-cases (peer_known st.db peer)) [
      | inl known ↦ rw known (
        known-Means c raw now peer id message st st.budget (codes "you are already admitted")
            (codes "knock from an already admitted peer") known,
        inl (known, refl),
      )
      | inr unknown ↦ rw unknown (
          weighed c raw now clock peer id message limits st unknown
            (decide p tiers (knock_request c raw p tiers limits canonical peer message) st.db)
            (spend_knock_token limits clock peer st.budget) refl)
    ]
