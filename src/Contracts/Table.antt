-- ===== src/Contracts/Table.antt =====
-- contracts/inbox.py: whole histories of an inbox.
use cherry_pulse_kr.Prelude.{
  ℕ, ◌≡◌, refl, inl, inr, Bool, Option, List, [], ◌∷◌, nat_eq, string_eq, Result, ok, err,
}
use cherry_pulse_kr.Execution.Models.{Uuid, Key, Datetime, Environment, environment_eq}
use cherry_pulse_kr.Contracts.Settings.{Actor, ConfigCommand, ConfigDecision}
use cherry_pulse_kr.Contracts.Inbox.{ApplyReason, InboxError, ConfigRow, receive}
use cherry_pulse_kr.Contracts.Application.{begin_apply, block_apply, mark_applied}
use cherry_pulse_kr.Contracts.Moves.{Evolves-refl, Evolves-trans}
use cherry_pulse_kr.Contracts.Sound.{IsSound, Progress}
use cherry_pulse_kr.Contracts.Recorded.{receive-eq_ok}
use cherry_pulse_kr.Contracts.Append.{Recorded-Progress}
use cherry_pulse_kr.Contracts.Calls.{
  begin_apply-Progress, block_apply-Progress, mark_applied-Progress,
}

-- A call of the inbox, with what its caller hands over.
pub data InboxCall (Context : Type 0) : Type 0 where
  receive_command : ConfigCommand → Datetime → Option Context → InboxCall Context
  begin_application : Uuid → Bool → InboxCall Context
  block_application : Uuid → ApplyReason → InboxCall Context
  complete_application : Uuid → (fingerprint applied_version : ℕ) → InboxCall Context

-- a call that raises changes nothing
abbrev pub after :
    {A : Type 0} → List ConfigRow → Result InboxError (A × List ConfigRow) → List ConfigRow
after rows (ok p) = p.1
after rows (err e) = rows

module _ (digest : ConfigCommand → ℕ) {Context : Type 0}
    (authenticator : Option (ConfigCommand → Context → Option Actor)) where
  unfoldable pub call : InboxCall Context → List ConfigRow → List ConfigRow
  call (InboxCall.receive_command c now context) rows =
      after rows (receive digest authenticator c now context rows)
  call (InboxCall.begin_application id retry) rows = after rows (begin_apply id retry rows)
  call (InboxCall.block_application id reason) rows = after rows (block_apply id reason rows)
  call (InboxCall.complete_application id fingerprint n) rows =
      after rows (mark_applied id fingerprint n rows)

  unfoldable pub call_all : List (InboxCall Context) → List ConfigRow → List ConfigRow
  unfolding call
  call_all [] rows = rows
  call_all (k ∷ ks) rows = call_all ks (call k rows)

  module _ (account_of : Uuid → Key × Environment) where
    -- the command of a call is one of its account
    abbrev pub IsOwned : InboxCall Context → Type 0
    IsOwned (InboxCall.receive_command c now context) =
        account_of c.command_id ≡ (c.settings.account_id, c.settings.environment)
    IsOwned _ = Unit

    abbrev pub AllOwned : List (InboxCall Context) → Type 0
    AllOwned [] = Unit
    AllOwned (k ∷ ks) = IsOwned k × AllOwned ks

    pub receive-Progress :
        (c : ConfigCommand) (now : Datetime) (context : Option Context) (rows : List ConfigRow)
        {d : ConfigDecision} {rows' : List ConfigRow}
        → account_of c.command_id ≡ (c.settings.account_id, c.settings.environment)
        → IsSound digest account_of rows
        → receive digest authenticator c now context rows ≡ ok (d, rows')
        → Progress digest account_of rows rows'
    receive-Progress c now context rows o s h =
        elim (receive-eq_ok digest authenticator c now context rows h) [
          | inl same ↦ rw same (record { evolves = Evolves-refl rows; sound = s })
          | inr r ↦ Recorded-Progress digest account_of authenticator c now context rows o s r
        ]

    after-Progress :
        {A : Type 0} (rows : List ConfigRow) (r : Result InboxError (A × List ConfigRow))
        → IsSound digest account_of rows
        → ((a : A) (rows' : List ConfigRow)
            → r ≡ ok (a, rows')
            → Progress digest account_of rows rows')
        → Progress digest account_of rows (after rows r)
    after-Progress rows (ok p) s g = g p.0 p.1 refl
    after-Progress rows (err e) s g = record { evolves = Evolves-refl rows; sound = s }

    call-Progress :
        (k : InboxCall Context) (rows : List ConfigRow)
        → IsOwned k
        → IsSound digest account_of rows
        → Progress digest account_of rows (call k rows)
    unfolding call
    call-Progress (InboxCall.receive_command c now context) rows o s =
        after-Progress rows (receive digest authenticator c now context rows) s
          (λ a rows' h. receive-Progress c now context rows o s h)
    call-Progress (InboxCall.begin_application id retry) rows o s =
        after-Progress rows (begin_apply id retry rows) s
          (λ a rows' h. begin_apply-Progress digest account_of id retry rows s h)
    call-Progress (InboxCall.block_application id reason) rows o s =
        after-Progress rows (block_apply id reason rows) s
          (λ a rows' h. block_apply-Progress digest account_of id reason rows s h)
    call-Progress (InboxCall.complete_application id fingerprint n) rows o s =
        after-Progress rows (mark_applied id fingerprint n rows) s
          (λ a rows' h. mark_applied-Progress digest account_of id fingerprint n rows s h)

    -- Any calls of the inbox keep a sound table sound (no two rows break a constraint, the
    -- columns of a row repeat its command and its digest, only accepted rows have a version and
    -- leave the state NOT_APPLIED, an applied row has the version of its command), remove no row
    -- and change each row only along the permitted steps: to APPLYING from NOT_APPLIED or from a
    -- block that is retried and is not a legacy one, and from APPLYING to APPLIED or to a block;
    -- each command identity is used in one account only.
    pub call_all-Progress :
        (ks : List (InboxCall Context)) (rows : List ConfigRow)
        → AllOwned ks
        → IsSound digest account_of rows
        → Progress digest account_of rows (call_all ks rows)
    unfolding call_all
    call_all-Progress [] rows o s = record { evolves = Evolves-refl rows; sound = s }
    call_all-Progress (k ∷ ks) rows (o, os) s =
        let first = call-Progress k rows o s in
        let rest = call_all-Progress ks (call k rows) os first.sound in
        record { evolves = Evolves-trans first.evolves rest.evolves; sound = rest.sound }
