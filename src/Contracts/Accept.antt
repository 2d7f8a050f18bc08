-- ===== src/Contracts/Accept.antt =====
-- contracts/inbox.py: when `ConfigInbox.receive` accepts, and what it raises.
use cherry_pulse_kr.Prelude.{
  ℕ, ◌<◌, max, ◌≡◌, refl, sym, ap, ◌∙◌, ◌≢◌, ◌⊎◌, inl, inr, Bool, true, false, Option, some, List,
  [], ◌∷◌, ◌++◌, arith, nat_eq, string_eq, Bool-cases, any, keep, pick, pick-append, ok, err,
  Result-cases,
}
use cherry_pulse_kr.Execution.Models.{Timestamp, Datetime, environment_eq}
use cherry_pulse_kr.Contracts.Settings.{
  Actor, ConfigCommand, ConfigDecision, DecisionState, is_authorized, is_valid_command,
}
use cherry_pulse_kr.Contracts.Inbox.{
  ConfigRow, InboxError, is_prior, current_version, new_row, receive_from, receive, sender,
  replay_or_record, scope_version, max_of,
}
use cherry_pulse_kr.Contracts.Received.{record_decision-total, decide-accepted}
use cherry_pulse_kr.Contracts.Recorded.{receive-eq_ok}

max_of-append : (ns : List ℕ) (n : ℕ) → max_of (ns ++ n ∷ []) ≡ max n (max_of ns)
max_of-append [] n = ground arith
max_of-append (m ∷ ns) n = rw (max_of-append ns n) (ground arith)

pick-one :
    {A B : Type 0} (f : A → Option B) (x : A) (y : B) → f x ≡ some y → pick f (x ∷ []) ≡ y ∷ []
pick-one f x y h = rw (pick, h) refl

keep-any : {A : Type 0} (p : A → Bool) (xs : List A) → any p xs ≡ false → keep p xs ≡ []
keep-any p [] h = refl
keep-any p (x ∷ xs) h = ground (arith, h, keep-any p xs)

module _ (digest : ConfigCommand → ℕ) {Context : Type 0}
    (authenticator : Option (ConfigCommand → Context → Option Actor)) where
  new_row-version :
      (c : ConfigCommand) (a : Actor) (d : ConfigDecision)
      → d.state ≡ DecisionState.accepted
      → scope_version c.settings (new_row c (digest c) a d) ≡ some c.settings.version
  new_row-version c a d h =
      rw
        (
          scope_version,
          (string_eq.equal_iff c.settings.account_id _).1 refl,
          (environment_eq.equal_iff c.settings.environment _).1 refl,
          (string_eq.equal_iff c.settings.symbol _).1 refl,
          h,
        )
        refl

  -- the highest accepted version after an accepted command is its own
  current_version-accepted :
      (c : ConfigCommand) (a : Actor) (d : ConfigDecision) (rows : List ConfigRow)
      → d.state ≡ DecisionState.accepted
      → current_version c.settings rows < c.settings.version
      → current_version c.settings (rows ++ new_row c (digest c) a d ∷ []) ≡ c.settings.version
  unfolding current_version
  current_version-accepted c a d rows h v =
      ap max_of (
        pick-append (scope_version c.settings) rows _
        ∙ ap (λ q. pick (scope_version c.settings) rows ++ q)
            (pick-one (scope_version c.settings) (new_row c (digest c) a d) c.settings.version
              (new_row-version c a d h)))
      ∙ max_of-append (pick (scope_version c.settings) rows) c.settings.version
      ∙ ground (arith, v)

  -- When a command is answered as accepted, either the table did not change, or one row was
  -- added for it and: the sender was authenticated and authorized in the account of the
  -- settings, the clock had a time zone and showed a time before the deadline, the highest
  -- accepted version of the symbol was the one that the command expects, and the version of the
  -- settings is greater and the highest one now.
  pub receive-accepts :
      (c : ConfigCommand) (now : Datetime) (context : Option Context) (rows : List ConfigRow)
      {d : ConfigDecision} {rows' : List ConfigRow}
      → receive digest authenticator c now context rows ≡ ok (d, rows')
      → d.state ≡ DecisionState.accepted
      → (rows' ≡ rows)
        ⊎ ((a : Actor) × (t : Timestamp) × (sender digest authenticator c context ≡ ok a)
            × (is_authorized a c.settings ≡ true)
            × (now ≡ Datetime.aware t)
            × (t < c.expires_at)
            × (current_version c.settings rows ≡ c.expected_version)
            × (c.expected_version < c.settings.version)
            × (rows' ≡ rows ++ new_row c (digest c) a d ∷ [])
            × (current_version c.settings rows' ≡ c.settings.version))
  receive-accepts c now context rows {d} {rows'} h acc =
      elim (receive-eq_ok digest authenticator c now context rows h) [
        | inl same ↦ inl same
        | inr r ↦
            let (p, (t, clock, before), current, above) =
              decide-accepted digest c r.actor (current_version c.settings rows) now
                (rw r.decided at acc) in
            inr (
              r.actor,
              t,
              r.sent,
              r.authorized,
              clock,
              before,
              current,
              rw (← current) above,
              r.appended,
              rw r.appended (current_version-accepted c r.actor d rows acc above),
            )
      ]

  replay_or_record-eq_err :
      (c : ConfigCommand) (a : Actor) (now : Datetime) (found rows : List ConfigRow)
      {e : InboxError}
      → found ≡ keep (is_prior c) rows
      → replay_or_record digest c a now found rows ≡ err e
      → (e ≡ InboxError.conflict_config_command_identity) × (found ≢ [])
  replay_or_record-eq_err c a now [] rows f h = absurd (
      ground (arith, rw (replay_or_record, record_decision-total digest c a now rows (sym f)) at h))
  replay_or_record-eq_err c a now (x ∷ []) rows f h = (ground (arith, h), λ q. cc)
  replay_or_record-eq_err c a now (x ∷ y ∷ xs) rows f h = (ground (arith, h), λ q. cc)

  receive_from-eq_err :
      (c : ConfigCommand) (a : Actor) (now : Datetime) (rows : List ConfigRow) {e : InboxError}
      → receive_from digest c a now rows ≡ err e
      → (e ≡ InboxError.conflict_config_command_identity) × (any (is_prior c) rows ≡ true)
  unfolding receive_from
  receive_from-eq_err c a now rows h = elim (Bool-cases (is_authorized a c.settings)) [
    | inr outside ↦ absurd (ground (arith, rw outside at h))
    | inl inside ↦
        let (e, ne) =
          replay_or_record-eq_err c a now (keep (is_prior c) rows) rows refl (rw inside at h) in
        (
          e,
          elim (Bool-cases (any (is_prior c) rows)) [
            | inl q ↦ q
            | inr q ↦ absurd (ne (keep-any (is_prior c) rows q))
          ],
        )
  ]

  -- The only error that receiving a valid command raises is the conflict of identities, and then
  -- the account has a row with the command's identity, or with its symbol and key: the
  -- constraints of the table are never what refuses a row.
  pub receive-raises :
      (c : ConfigCommand) (now : Datetime) (context : Option Context) (rows : List ConfigRow)
      {e : InboxError}
      → is_valid_command c ≡ true
      → receive digest authenticator c now context rows ≡ err e
      → (e ≡ InboxError.conflict_config_command_identity) × (any (is_prior c) rows ≡ true)
  unfolding receive
  receive-raises c now context rows valid h =
      elim (Result-cases (sender digest authenticator c context)) [
        | inl (a, sent) ↦ receive_from-eq_err c a now rows (rw (valid, sent) at h)
        | inr (e, missing) ↦ absurd (ground (arith, rw (valid, missing) at h))
      ]
