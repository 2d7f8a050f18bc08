-- ===== src/Contracts/Lookup.antt =====
-- contracts/inbox.py: what later calls leave of a row that was found.
use cherry_pulse_kr.Prelude.{
  ℕ, ◌≡◌, refl, ap, ◌∙◌, subst, inl, inr, true, false, Option, some, List, arith, nat_eq, string_eq,
  Bool-cases, find?, ok, Result-cases,
}
use cherry_pulse_kr.Execution.Models.{Uuid, Key, Environment, environment_eq}
use cherry_pulse_kr.Contracts.Settings.{Actor, ConfigCommand, DecisionReason, DecisionState}
use cherry_pulse_kr.Contracts.Inbox.{ApplyState, InboxApplication, ConfigRow, row_accepted, has_id}
use cherry_pulse_kr.Contracts.Application.{application, application_of, accepted_row, starts}
use cherry_pulse_kr.Contracts.Moves.{Moves, Reaches, Evolves, Startable-starts}
use cherry_pulse_kr.Contracts.Sound.{IsSound, accepted_row-eq_ok, accepted_row-found}
use cherry_pulse_kr.Contracts.Table.{InboxCall, call_all, AllOwned, call_all-Progress}

-- The columns that no update writes.
pub record RowIdentity : Type 0 where
  pub account_id : Key
  pub environment : Environment
  pub symbol : Key
  pub idempotency_key : Key
  pub command_id : Uuid
  pub payload : ConfigCommand
  pub digest : ℕ
  pub decision : DecisionState
  pub reason : DecisionReason
  pub accepted_version : Option ℕ

abbrev pub identity : ConfigRow → RowIdentity
identity r = record {
  account_id = r.account_id;
  environment = r.environment;
  symbol = r.symbol;
  idempotency_key = r.idempotency_key;
  command_id = r.command_id;
  payload = r.payload;
  digest = r.digest;
  decision = r.decision;
  reason = r.reason;
  accepted_version = r.accepted_version;
}

Moves-identity : {r r' : ConfigRow} → Moves r r' → identity r' ≡ identity r
Moves-identity (Moves.begins retry h e) = ap identity e
Moves-identity (Moves.halts reason h e) = ap identity e
Moves-identity (Moves.completes h e) = ap identity e

pub Reaches-identity : {r r' : ConfigRow} → Reaches r r' → identity r' ≡ identity r
Reaches-identity Reaches.here = refl
Reaches-identity (Reaches.more g a m) = Moves-identity m ∙ Reaches-identity g

pub Reaches-row_accepted : {r r' : ConfigRow} → Reaches r r' → row_accepted r' ≡ row_accepted r
Reaches-row_accepted g =
    ap (λ i. elim i.decision [ DecisionState.accepted ↦ true | DecisionState.rejected ↦ false ])
      (Reaches-identity g)

-- no change leaves APPLIED
Moves-applied : {r r' : ConfigRow} → r.apply_state ≡ ApplyState.applied → Moves r r' → r' ≡ r
Moves-applied a (Moves.begins retry h e) =
    absurd (ground (arith, rw (starts, a) at (Startable-starts retry _ h)))
Moves-applied a (Moves.halts reason h e) = absurd (ground (arith, a, h))
Moves-applied a (Moves.completes h e) = absurd (ground (arith, a, h))

pub Reaches-applied :
    {r r' : ConfigRow} → r.apply_state ≡ ApplyState.applied → Reaches r r' → r' ≡ r
Reaches-applied a Reaches.here = refl
Reaches-applied a (Reaches.more g acc m) =
    let e = Reaches-applied a g in Moves-applied (ap (λ s. s.apply_state) e ∙ a) m ∙ e

-- A row that a query found is found again, as a row that it reached.
pub Evolves-find? :
    (id : Uuid) {rows rows' : List ConfigRow} {r : ConfigRow}
    → Evolves rows rows'
    → find? (has_id id) rows ≡ some r
    → (r' : ConfigRow) × (find? (has_id id) rows' ≡ some r') × Reaches r r'
Evolves-find? id (Evolves.grown new) h = absurd (ground (arith, h))
Evolves-find? id {r} (Evolves.kept {r = x} {r' = x'} {rows} {rows'} g gs) h =
    elim (Bool-cases (has_id id x)) [
      | inl same ↦
          let x_r : x ≡ r = ground (arith, rw same at h) in
          let hit : has_id id x' ≡ true = rw (ap (λ i. i.command_id) (Reaches-identity g)) same in
          (x', rw hit refl, subst (λ y. Reaches y x') x_r g)
      | inr differs ↦
          let miss : has_id id x' ≡ false =
            rw (ap (λ i. i.command_id) (Reaches-identity g)) differs in
          let (r', found, reach) = Evolves-find? id gs (rw differs at h) in
          (r', rw miss found, reach)
    ]

module _ (digest : ConfigCommand → ℕ) {Context : Type 0}
    (authenticator : Option (ConfigCommand → Context → Option Actor))
    (account_of : Uuid → Key × Environment) where
  -- Whatever calls of the inbox follow, an accepted command that was found is found again with
  -- the same content and digest, and once it is applied its state, reason and version stay as
  -- they are; each command identity is used in one account only, and the table was sound.
  pub desired_data_kept :
      (ks : List (InboxCall Context)) (rows : List ConfigRow) (id : Uuid) {a : InboxApplication}
      → AllOwned digest authenticator account_of ks
      → IsSound digest account_of rows
      → application id rows ≡ ok a
      → (b : InboxApplication) × (application id (call_all digest authenticator ks rows) ≡ ok b)
        × (b.command ≡ a.command)
        × (b.digest ≡ a.digest)
        × (a.state ≡ ApplyState.applied → b ≡ a)
  unfolding application
  desired_data_kept ks rows id {a} o s h = elim (Result-cases (accepted_row id rows)) [
    | inr (e, p) ↦ absurd (ground (arith, rw (p, application) at h))
    | inl (r, p) ↦
        let a_r : application_of r ≡ a = ground (arith, rw (p, application) at h) in
        let (found, acc) = accepted_row-eq_ok id rows p in
        let (r', again, reach) =
          Evolves-find? id (call_all-Progress digest authenticator account_of ks rows o s).evolves
            found in
        let same = Reaches-identity reach in
        let later =
          accepted_row-found id (call_all digest authenticator ks rows) again
            (Reaches-row_accepted reach ∙ acc) in
        (
          application_of r',
          rw (later, application) refl,
          rw (← a_r) (ap (λ i. i.payload) same),
          rw (← a_r) (ap (λ i. i.digest) same),
          λ done. ap application_of (Reaches-applied (rw (← a_r) at done) reach) ∙ a_r,
        )
  ]
