-- ===== src/Node/Screen/Cleared.antt =====
-- crates/node/src/pipeline.rs with crates/node/src/footprint.rs: what a verdict on a request means, and
-- that the execution of a cleared one is not denied.
use rsntr.Base.{
  ◌≡◌, ◌≢◌, ◌⊎◌, refl, sym, ap, ◌∙◌, subst, inl, inr, true, false, Option, none, some, List, [],
  ◌∷◌, ◌++◌, All, In, here, there, arith, Str, codes, Bool-cases, Option-cases,
}
use rsntr.Authenticator.Types.{
  Footprint, Decision, Decision.allow, Decision.allow_narrowed, Decision.deny, Decision.escalate,
}
use rsntr.Authenticator.Db.{Db}
use rsntr.Authenticator.Chain.{Tier, Parsers, decide}
use rsntr.Node.Authorizer.{
  Lane, Lane.remote, AuthAction, Reason, CollectState, default_state, collect, collect_all,
  deny_action, note_action, get_or_insert, banned, Approved,
}
use rsntr.Node.Authorizer.Known.{IsAllowed, collect-IsAllowed, approved}
use rsntr.Node.Authorizer.Agreement.{Unmixed, enforce-collect}
use rsntr.Node.ModInstall.{peer_known}
use rsntr.Node.Execute.{first_denied}
use rsntr.Node.Screen.{
  Preparer, Collected, collected, refused, Verdict, unknown_peer, prepare_failed, cleared,
  AuditEntry, collect_footprint, state_of, decision_str, writes_modulations, verdict_of,
  screen_chain_request, screen_collected, screen_request, entry, reserved_text,
}

module _ (allowlist : List Str) (lane : Lane) where
  abbrev Unbanned : Option (Str × Reason) → AuthAction → Type 0
  Unbanned o a = banned a allowlist lane ≡ o

  pub note_action-first_denial :
      (st : CollectState) (a : AuthAction) → (note_action st a).first_denial ≡ st.first_denial
  unfolding note_action
  note_action-first_denial st a = ground arith

  get_or_insert-ne-none : (o : Option Reason) (r : Reason) → get_or_insert o r ≢ none
  get_or_insert-ne-none none r e = cc
  get_or_insert-ne-none (some first) r e = cc

  collect-banned :
      (st : CollectState) (a : AuthAction) (construct : Str) (reason : Reason)
      → banned a allowlist lane ≡ some (construct, reason)
      → (collect allowlist lane st a).1 ≡ deny_action st construct reason
  unfolding collect
  collect-banned st a construct reason ban = rw (collect, ban) refl

  -- A denial is not forgotten.
  pub collect_all-denial :
      (actions : List AuthAction) (st : CollectState)
      → (collect_all allowlist lane st actions).first_denial ≡ none
      → (st.first_denial ≡ none) × All (IsAllowed allowlist lane) actions
  unfolding collect_all collect
  collect_all-denial [] st e = (e, tt)
  collect_all-denial (a ∷ actions) st e =
      let after = λ (s : CollectState) (eq : (collect allowlist lane st a).1 ≡ s).
        subst (λ s. (collect_all allowlist lane s actions).first_denial ≡ none) eq e in
      elim (Option-cases (banned a allowlist lane)) [
        | inl fine ↦
            let rest =
              collect_all-denial actions (note_action st a)
                (after (note_action st a) (collect-IsAllowed allowlist lane st a fine)) in
            (sym (note_action-first_denial st a) ∙ rest.0, (fine, rest.1))
        | inr ((construct, reason), ban) ↦
            let rest = collect_all-denial actions (deny_action st construct reason) (
              after (deny_action st construct reason) (collect-banned st a construct reason ban)) in
            absurd (get_or_insert-ne-none st.first_denial reason rest.0)
      ]

  pub enforce_each :
      (reported actions : List AuthAction)
      → All (IsAllowed allowlist lane) reported
      → Unmixed allowlist lane reported
      → ((a : AuthAction) → In a actions → In a reported)
      → first_denied (approved allowlist lane reported) allowlist actions ≡ none
  unfolding first_denied
  enforce_each reported [] fine apart within = refl
  enforce_each reported (a ∷ actions) fine apart within =
      rw (enforce-collect allowlist lane reported a fine apart (within a (here refl)), first_denied)
        (enforce_each reported actions fine apart (λ b m. within b (there m)))

module _ (sqlite : Preparer) (allowlist : List Str) where
  -- What the collect pass says of a statement.
  abbrev Collects : Lane → Str → Collected → Type 0
  Collects lane sql (collected fp) =
      (fp ≡ (approved allowlist lane (sqlite.reports lane sql)).footprint)
      × All (IsAllowed allowlist lane) (sqlite.reports lane sql)
  Collects lane sql (refused banned_reason json message) = Unit

  collect_footprint-Collects :
      (lane : Lane) (sql : Str) → Collects lane sql (collect_footprint sqlite allowlist lane sql)
  unfolding collect_footprint
  collect_footprint-Collects lane sql =
      elim (Option-cases (state_of sqlite allowlist lane sql).first_denial) [
        | inr (reason, e) ↦ rw (e, collect_footprint) tt
        | inl clean ↦ elim (Option-cases (sqlite.prepare_error lane sql)) [
          | inr (error, e) ↦ rw (clean, collect_footprint) (rw (e, collect_footprint) tt)
          | inl prepared ↦
              rw (clean, collect_footprint)
                (rw (prepared, collect_footprint)
                  (
                    refl,
                    (collect_all-denial allowlist lane (sqlite.reports lane sql) default_state
                        clean).1,
                  ))
        ]
      ]

module _ {Json : Type 0} (sqlite : Preparer) (allowlist : List Str) (p : Parsers)
    (tiers : List (Tier Json)) (peer id signal : Str) (db : Db Json) where
  abbrev chain_says : Footprint → Decision
  chain_says footprint =
      (decide p tiers (screen_chain_request sqlite allowlist p tiers peer id signal footprint)
        db).0.decision

  -- What the collect pass made of a statement.
  abbrev CollectedAs : Str → Collected → Type 0
  CollectedAs sql o = collect_footprint sqlite allowlist remote sql ≡ o

  -- The statement as it was sent prepares under this footprint, and the chain is asked.
  abbrev Asked : Footprint → Decision → Type 0
  Asked fp decision =
      CollectedAs signal (collected fp)
      × (writes_modulations fp ≡ false)
      × (chain_says fp ≡ decision)

  -- The chain let a statement run, as it was asked or in a rewriting, with the audit's word for it.
  abbrev LetRun : Approved → Str → Str → Type 0
  LetRun a sql decision =
      ((sql ≡ signal) × (decision ≡ codes "allow") × Asked a.footprint allow)
      ⊎ ((fp : Footprint) × (decision ≡ codes "allow_narrowed") × Asked fp (allow_narrowed sql))

  -- Why a statement is banned: one of its actions is, or it writes the reserved table.
  abbrev Bans : Str → Type 0
  Bans reason =
      ((json : Str) × (message : Str) × CollectedAs signal (refused (some reason) json message))
      ⊎ ((fp : Footprint) × CollectedAs signal (collected fp)
          × (writes_modulations fp ≡ true)
          × (reason ≡ reserved_text))

  -- Why a statement could not be prepared, with the audit's word: it could not itself, and the audit
  -- denies; or the chain narrowed it, and the rewriting could not.
  abbrev Unprepared : Str → Str → Type 0
  Unprepared message decision =
      ((json : Str) × (decision ≡ codes "deny") × CollectedAs signal (refused none json message))
      ⊎ ((fp : Footprint) × (rewrite : Str) × (reason : Option Str) × (json : Str) × (why : Str)
          × (decision ≡ codes "allow_narrowed")
          × Asked fp (allow_narrowed rewrite)
          × CollectedAs rewrite (refused reason json why)
          × (message ≡ codes "narrowed rewrite failed to prepare: " ++ why))

  -- What a verdict says. The peer is known but for the verdict on an unknown one. A statement is cleared
  -- if none of its actions is banned, under the footprint that was collected from it, and the chain,
  -- asked with the footprint that was collected from the statement as it was sent, let it run. The
  -- audit's row allows exactly then, or where the rewriting of the chain could not be prepared.
  abbrev pub Justified : Verdict × AuditEntry × Db Json → Type 0
  Justified (unknown_peer, e, db') =
      (peer_known db peer ≡ false) × (e.decision ≡ codes "deny") × (db' ≡ db)
  Justified (Verdict.banned reason, e, db') =
      (peer_known db peer ≡ true)
      × (e.decision ≡ codes "deny")
      × (e.reason ≡ some reason)
      × (db' ≡ db)
      × Bans reason
  Justified (prepare_failed message, e, db') =
      (peer_known db peer ≡ true) × Unprepared message e.decision
  Justified (Verdict.denied reason, e, db') =
      (peer_known db peer ≡ true)
      × (e.decision ≡ codes "deny")
      × (e.reason ≡ some reason)
      × ((fp : Footprint) × (Asked fp (deny reason)
            ⊎ (Asked fp escalate × (reason ≡ codes "authenticator chain did not decide"))))
  Justified (cleared a sql, e, db') =
      (peer_known db peer ≡ true)
      × All (IsAllowed allowlist remote) (sqlite.reports remote sql)
      × (a ≡ approved allowlist remote (sqlite.reports remote sql))
      × LetRun a sql e.decision

  verdict_of-Justified :
      (fp : Footprint) (decision : Decision) (decided_by : Str) (db' : Db Json)
      → peer_known db peer ≡ true
      → (fp ≡ (approved allowlist remote (sqlite.reports remote signal)).footprint)
        × All (IsAllowed allowlist remote) (sqlite.reports remote signal)
      → Asked fp decision
      → Justified (
        verdict_of sqlite allowlist p tiers peer id signal fp decision,
        entry
            (codes "in")
            peer
            id
            signal
            (sqlite.to_json fp)
            ((decision_str decision).0)
            decided_by
            ((decision_str decision).1),
        db',
      )
  unfolding verdict_of decision_str
  verdict_of-Justified fp allow decided_by db' known (e, fine) says =
      (known, fine, ap (λ f. record { footprint = f; lane = remote }) e, inl (refl, refl, says))
  verdict_of-Justified fp (deny reason) decided_by db' known (e, fine) says =
      (known, refl, refl, (fp, inl says))
  verdict_of-Justified fp escalate decided_by db' known (e, fine) says =
      (known, refl, refl, (fp, inr (says, refl)))
  verdict_of-Justified fp (allow_narrowed rewrite) decided_by db' known (e, fine) says =
      narrowed (collect_footprint sqlite allowlist remote rewrite) refl
        (collect_footprint-Collects sqlite allowlist remote rewrite)
    where
      narrowed :
          (o : Collected)
          → CollectedAs rewrite o
          → Collects sqlite allowlist remote rewrite o
          → Justified (
            elim o [
              | collected new_fp ↦ cleared (record { footprint = new_fp; lane = remote }) rewrite
              | refused banned_reason footprint_json message ↦
                  prepare_failed (codes "narrowed rewrite failed to prepare: " ++ message)
            ],
            entry
                (codes "in")
                peer
                id
                signal
                (sqlite.to_json fp)
                (codes "allow_narrowed")
                decided_by
                none,
            db',
          )
      narrowed (collected new_fp) made (e', fine') =
          (known, fine', ap (λ f. record { footprint = f; lane = remote }) e', inr (fp, refl, says))
      narrowed (refused reason json why) made u =
          (known, inr (fp, rewrite, reason, json, why, refl, says, made, refl))

  screen_collected-Justified :
      (o : Collected)
      → CollectedAs signal o
      → Collects sqlite allowlist remote signal o
      → peer_known db peer ≡ true
      → Justified (screen_collected sqlite allowlist p tiers peer id signal o db)
  unfolding screen_collected
  screen_collected-Justified (refused none json message) made u known =
      (known, inl (json, refl, made))
  screen_collected-Justified (refused (some reason) json message) made u known =
      (known, refl, refl, refl, inl (json, message, made))
  screen_collected-Justified (collected fp) made c known =
      elim (Bool-cases (writes_modulations fp)) [
        | inl reserved ↦ rw reserved (known, refl, refl, refl, inr (fp, made, reserved, refl))
        | inr plain ↦
            rw plain (verdict_of-Justified fp (chain_says fp) _ _ known c (made, plain, refl))
      ]

-- The verdict on every request of a peer is justified: a statement is cleared, refused, banned or denied
-- only for the reason that `Justified` names, with the word for it in the audit's row.
pub screen_request-Justified :
    {Json : Type 0} (sqlite : Preparer) (allowlist : List Str) (p : Parsers)
    (tiers : List (Tier Json)) (peer id signal : Str) (db : Db Json)
    → Justified sqlite allowlist p tiers peer id signal db
        (screen_request sqlite allowlist p tiers peer id signal db)
unfolding screen_request
screen_request-Justified sqlite allowlist p tiers peer id signal db =
    elim (Bool-cases (peer_known db peer)) [
      | inr unknown ↦ rw unknown (unknown, refl, refl)
      | inl known ↦ rw known (
          screen_collected-Justified sqlite allowlist p tiers peer id signal db
            (collect_footprint sqlite allowlist remote signal) refl
            (collect_footprint-Collects sqlite allowlist remote signal) known)
    ]

-- The execution of a cleared statement is not denied: where sqlite reports no action at the execution
-- that it did not report at the screening, and these do not both write and use a pragma, the enforce
-- pass lets each of them pass.
pub screen_request-first_denied :
    {Json : Type 0} (sqlite : Preparer) (allowlist : List Str) (p : Parsers)
    (tiers : List (Tier Json)) (peer id signal : Str) (db : Db Json) (a : Approved) (sql : Str)
    (actions : List AuthAction)
    → (screen_request sqlite allowlist p tiers peer id signal db).0 ≡ cleared a sql
    → Unmixed allowlist remote (sqlite.reports remote sql)
    → ((action : AuthAction) → In action actions → In action (sqlite.reports remote sql))
    → first_denied a allowlist actions ≡ none
screen_request-first_denied sqlite allowlist p tiers peer id signal db a sql actions v apart
      within =
    let s = screen_request sqlite allowlist p tiers peer id signal db in
    let j : Justified sqlite allowlist p tiers peer id signal db (cleared a sql, s.1, s.2) =
      subst (λ verdict. Justified sqlite allowlist p tiers peer id signal db (verdict, s.1, s.2)) v
        (screen_request-Justified sqlite allowlist p tiers peer id signal db) in
    let (known, fine, made, let_run) = j in
    subst (λ x. first_denied x allowlist actions ≡ none) (sym made)
      (enforce_each allowlist remote (sqlite.reports remote sql) actions fine apart within)
