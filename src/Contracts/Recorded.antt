-- ===== src/Contracts/Recorded.antt =====
-- contracts/inbox.py: a call of `ConfigInbox.receive` adds one row or none, and it raises for one reason only.
use cherry_pulse_kr.Prelude.{
  ℕ, ◌≡◌, refl, ◌⊎◌, inl, inr, true, Option, List, [], ◌∷◌, ◌++◌, arith, nat_eq, string_eq,
  Bool-cases, keep, ok, Result-cases,
}
use cherry_pulse_kr.Execution.Models.{Datetime, environment_eq}
use cherry_pulse_kr.Contracts.Settings.{
  Actor, ConfigCommand, ConfigDecision, is_authorized, is_valid_command, decide,
}
use cherry_pulse_kr.Contracts.Inbox.{
  ConfigRow, is_prior, current_version, new_row, receive_from, receive, sender, replay_decision,
  replay_or_record, record_decision,
}
use cherry_pulse_kr.Contracts.Received.{record_decision-total}

module _ (digest : ConfigCommand → ℕ) {Context : Type 0}
    (authenticator : Option (ConfigCommand → Context → Option Actor)) where
  -- A command was authenticated, in its scope and new, and its decision is recorded.
  pub record Recorded (c : ConfigCommand) (now : Datetime) (context : Option Context)
      (rows : List ConfigRow) (d : ConfigDecision) (rows' : List ConfigRow) : Type 0 where
    pub actor : Actor
    pub sent : sender digest authenticator c context ≡ ok actor
    pub authorized : is_authorized actor c.settings ≡ true
    pub fresh : keep (is_prior c) rows ≡ []
    pub decided : d ≡ decide digest c actor (current_version c.settings rows) now
    pub appended : rows' ≡ rows ++ new_row c (digest c) actor d ∷ []

  replay_or_record-eq_ok :
      (c : ConfigCommand) (a : Actor) (now : Datetime) (found rows : List ConfigRow)
      {d : ConfigDecision} {rows' : List ConfigRow}
      → replay_or_record digest c a now found rows ≡ ok (d, rows')
      → (rows' ≡ rows) ⊎ ((found ≡ []) × (record_decision digest c a now rows ≡ ok (d, rows')))
  replay_or_record-eq_ok c a now [] rows h = inr (refl, h)
  replay_or_record-eq_ok c a now (x ∷ xs) rows h =
      elim (Result-cases (replay_decision c (x ∷ xs))) [
        | inl (e, p) ↦ inl (ground (arith, rw (p, replay_or_record) at h))
        | inr (e, p) ↦ absurd (ground (arith, rw (p, replay_or_record) at h))
      ]

  receive_from-eq_ok :
      (c : ConfigCommand) (a : Actor) (now : Datetime) (context : Option Context)
      (rows : List ConfigRow) {d : ConfigDecision} {rows' : List ConfigRow}
      → sender digest authenticator c context ≡ ok a
      → receive_from digest c a now rows ≡ ok (d, rows')
      → (rows' ≡ rows) ⊎ Recorded c now context rows d rows'
  unfolding receive_from
  receive_from-eq_ok c a now context rows {d} {rows'} sent h =
      elim (Bool-cases (is_authorized a c.settings)) [
        | inr outside ↦ inl (ground (arith, rw outside at h))
        | inl inside ↦
            elim (replay_or_record-eq_ok c a now (keep (is_prior c) rows) rows (rw inside at h)) [
              | inl same ↦ inl same
              | inr (fresh, made) ↦
                  let e = rw (record_decision-total digest c a now rows fresh) at made in
                  let d_e : d ≡ decide digest c a (current_version c.settings rows) now =
                    ground (arith, e) in
                  inr (record {
                    actor = a;
                    sent = sent;
                    authorized = inside;
                    fresh = fresh;
                    decided = d_e;
                    appended = rw d_e (ground (arith, e));
                  })
            ]
      ]

  pub receive-eq_ok :
      (c : ConfigCommand) (now : Datetime) (context : Option Context) (rows : List ConfigRow)
      {d : ConfigDecision} {rows' : List ConfigRow}
      → receive digest authenticator c now context rows ≡ ok (d, rows')
      → (rows' ≡ rows) ⊎ Recorded c now context rows d rows'
  unfolding receive
  receive-eq_ok c now context rows h = elim (Bool-cases (is_valid_command c)) [
    | inr bad ↦ absurd (ground (arith, rw bad at h))
    | inl good ↦ elim (Result-cases (sender digest authenticator c context)) [
      | inl (a, sent) ↦ receive_from-eq_ok c a now context rows sent (rw (good, sent) at h)
      | inr (e, missing) ↦ inl (ground (arith, rw (good, missing) at h))
    ]
  ]
