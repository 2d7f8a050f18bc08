-- ===== src/Contracts/Append.antt =====
-- contracts/inbox.py: a table with the row of a new command behind it.
use cherry_pulse_kr.Prelude.{
  ℕ, ◌≡◌, refl, sym, ◌∙◌, inl, inr, false, Option, none, some, List, [], ◌∷◌, ◌++◌, arith, Eq, ◌==◌,
  nat_eq, string_eq, Bool-cases, any, any-append,
}
use cherry_pulse_kr.Execution.Models.{Uuid, Key, Datetime, Environment, environment_eq}
use cherry_pulse_kr.Contracts.Settings.{Actor, ConfigCommand, ConfigDecision}
use cherry_pulse_kr.Contracts.Inbox.{ConfigRow, row_clashes, current_version, new_row, same_number}
use cherry_pulse_kr.Contracts.Moves.{Evolves-append, All-append}
use cherry_pulse_kr.Contracts.Sound.{RowSound, IsSeparate, IsSound, Progress}
use cherry_pulse_kr.Contracts.Received.{any-row_clashes, decide-accepted}
use cherry_pulse_kr.Contracts.Recorded.{Recorded}

equal_sym : {T : Type 0} ⦃class : Eq T⦄ (a b : T) → (a == b) ≡ (b == a)
equal_sym ⦃class⦄ a b = elim (Bool-cases (class.equal a b)) [
  | inl e ↦ e ∙ sym ((class.equal_iff b a).1 (sym ((class.equal_iff a b).0 e)))
  | inr e ↦ elim (Bool-cases (class.equal b a)) [
    | inl f ↦ absurd (ground (arith, e, (class.equal_iff a b).1 (sym ((class.equal_iff b a).0 f))))
    | inr f ↦ e ∙ sym f
  ]
]

same_number_sym : (a b : Option ℕ) → same_number a b ≡ same_number b a
same_number_sym none none = refl
same_number_sym none (some n) = refl
same_number_sym (some n) none = refl
same_number_sym (some n) (some m) = equal_sym n m

pub row_clashes_sym : (x y : ConfigRow) → row_clashes x y ≡ row_clashes y x
row_clashes_sym x y =
    rw
      (
        row_clashes,
        equal_sym y.account_id x.account_id,
        equal_sym y.environment x.environment,
        equal_sym y.symbol x.symbol,
        equal_sym y.idempotency_key x.idempotency_key,
        equal_sym y.command_id x.command_id,
        same_number_sym y.accepted_version x.accepted_version,
      )
      refl

module _ (digest : ConfigCommand → ℕ) (account_of : Uuid → Key × Environment) where
  IsSeparate-append :
      (rows : List ConfigRow) (new : ConfigRow)
      → IsSeparate digest account_of rows
      → any (row_clashes new) rows ≡ false
      → IsSeparate digest account_of (rows ++ new ∷ [])
  IsSeparate-append [] new p h = (refl, tt)
  IsSeparate-append (r ∷ rows) new (p, ps) h =
      let first : row_clashes r new ≡ false = row_clashes_sym r new ∙ ground (arith, h) in
      (
        any-append (row_clashes r) rows (new ∷ []) ∙ rw (p, first) refl,
        IsSeparate-append rows new ps (ground (arith, h)),
      )

  new_row-RowSound :
      (c : ConfigCommand) (a : Actor) (d : ConfigDecision)
      → account_of c.command_id ≡ (c.settings.account_id, c.settings.environment)
      → RowSound digest account_of (new_row c (digest c) a d)
  new_row-RowSound c a d o = record {
    account = refl;
    environment = refl;
    symbol = refl;
    key = refl;
    id = refl;
    fingerprint = refl;
    owner = o;
    version = refl;
    unapplied = λ h. refl;
    applied = λ h. cc;
  }

  pub Recorded-Progress :
      {Context : Type 0} (authenticator : Option (ConfigCommand → Context → Option Actor))
      (c : ConfigCommand) (now : Datetime) (context : Option Context) (rows : List ConfigRow)
      {d : ConfigDecision} {rows' : List ConfigRow}
      → account_of c.command_id ≡ (c.settings.account_id, c.settings.environment)
      → IsSound digest account_of rows
      → Recorded digest authenticator c now context rows d rows'
      → Progress digest account_of rows rows'
  unfolding current_version
  Recorded-Progress authenticator c now context rows {d} {rows'} o s r = rw r.appended (record {
    evolves = Evolves-append rows _;
    sound = record {
      each = All-append (RowSound digest account_of) rows _ s.each (new_row-RowSound c r.actor d o);
      separate = IsSeparate-append rows _ s.separate (
          any-row_clashes c (digest c) r.actor d rows r.fresh (λ e.
            let (p, q, m, v) =
              decide-accepted digest c r.actor (current_version c.settings rows) now
                (rw r.decided at e) in
            v));
    };
  })
