-- ===== src/Contracts/Replayed.antt =====
-- contracts/inbox.py: whatever happens in between, a command that was decided is answered the same way.
use cherry_pulse_kr.Prelude.{
  ℕ, ◌≡◌, refl, ap, ◌∙◌, inl, inr, true, Option, List, [], ◌∷◌, ◌++◌, arith, nat_eq, string_eq,
  Bool-cases, keep, find?-append_none, ok,
}
use cherry_pulse_kr.Execution.Models.{Uuid, Key, Datetime, Environment, environment_eq}
use cherry_pulse_kr.Contracts.Settings.{
  Actor, ConfigCommand, ConfigDecision, is_authorized, is_valid_command, decide,
}
use cherry_pulse_kr.Contracts.Inbox.{
  ConfigRow, is_prior, current_version, new_row, receive_from, receive, sender, replay_or_record,
  is_same_command, has_id, replay_decision, recorded_decision,
}
use cherry_pulse_kr.Contracts.Moves.{Evolves}
use cherry_pulse_kr.Contracts.Sound.{IsSound}
use cherry_pulse_kr.Contracts.Received.{record_decision-total}
use cherry_pulse_kr.Contracts.Lookup.{RowIdentity, Reaches-identity, Evolves-find?}
use cherry_pulse_kr.Contracts.Table.{
  InboxCall, call_all, AllOwned, call_all-Progress, receive-Progress,
}
use cherry_pulse_kr.Contracts.Again.{
  Decided, keep-is_prior, find?-fresh, find?-selected, is_same_command-IsFor, IsFor-is_same_command,
}

replay_decision-same :
    (c : ConfigCommand) (r : ConfigRow)
    → is_same_command c r ≡ true
    → replay_decision c (r ∷ []) ≡ ok (recorded_decision r)
replay_decision-same c r h = rw (replay_decision, h) refl

module _ (digest : ConfigCommand → ℕ) (account_of : Uuid → Key × Environment) where
  recorded_decision-new_row :
      (c : ConfigCommand) (a : Actor) (n : ℕ) (now : Datetime)
      → recorded_decision (new_row c (digest c) a (decide digest c a n now))
        ≡ decide digest c a n now
  unfolding decide
  recorded_decision-new_row c a n now = refl

  replay_or_record-Decided :
      (c : ConfigCommand) (a : Actor) (now : Datetime) (found rows : List ConfigRow)
      {d : ConfigDecision} {rows' : List ConfigRow}
      → account_of c.command_id ≡ (c.settings.account_id, c.settings.environment)
      → IsSound digest account_of rows
      → keep (is_prior c) rows ≡ found
      → replay_or_record digest c a now found rows ≡ ok (d, rows')
      → Decided c d rows'
  replay_or_record-Decided c a now [] rows {d} {rows'} o s f h =
      let e = rw (record_decision-total digest c a now rows f) at h in
      let d' : ConfigDecision = decide digest c a (current_version c.settings rows) now in
      let absent = find?-fresh digest account_of c rows o s.each f in
      let e' : rows' ≡ rows ++ new_row c (digest c) a d' ∷ [] = ground (arith, e) in
      record {
        row = new_row c (digest c) a d';
        found = rw e' (
            find?-append_none (has_id c.command_id) rows _ absent
            ∙ rw ((nat_eq.equal_iff c.command_id _).1 refl) refl);
        stands = record {
          account = refl;
          environment = refl;
          symbol = refl;
          key = refl;
          id = refl;
          payload = refl;
        };
        decision =
            recorded_decision-new_row c a (current_version c.settings rows) now ∙ ground (arith, e);
      }
  replay_or_record-Decided c a now (x ∷ []) rows {d} {rows'} o s f h =
      elim (Bool-cases (is_same_command c x)) [
        | inr differs ↦ absurd (ground (arith, rw (replay_or_record, differs) at h))
        | inl same ↦
            let k = rw (replay_or_record, same) at h in
            let (found, prior) =
              find?-selected digest account_of c rows x o s.each (ground (arith, same)) f in
            let e : rows' ≡ rows = ground (arith, k) in
            record {
              row = x;
              found = rw e found;
              stands = is_same_command-IsFor c x prior same;
              decision = ground (arith, k);
            }
      ]
  replay_or_record-Decided c a now (x ∷ y ∷ xs) rows o s f h = absurd (ground (arith, h))

  Decided-receive_from :
      (c : ConfigCommand) (a : Actor) (now : Datetime) (rows : List ConfigRow) {d : ConfigDecision}
      → IsSound digest account_of rows
      → is_authorized a c.settings ≡ true
      → Decided c d rows
      → receive_from digest c a now rows ≡ ok (d, rows)
  unfolding receive_from
  Decided-receive_from c a now rows {d} s inside h =
      let k : replay_decision c (h.row ∷ []) ≡ ok d =
        replay_decision-same c h.row (IsFor-is_same_command c h.row h.stands) ∙ ap ok h.decision in
      rw
        (
          receive_from,
          inside,
          keep-is_prior digest account_of c rows h.row h.stands s.separate h.found,
        )
        (rw (replay_or_record, k) refl)

  Decided-Evolves :
      (c : ConfigCommand) {d : ConfigDecision} {rows rows' : List ConfigRow}
      → Evolves rows rows'
      → Decided c d rows
      → Decided c d rows'
  Decided-Evolves c g h =
      let (r', found, reach) = Evolves-find? c.command_id g h.found in
      let same = Reaches-identity reach in
      record {
        row = r';
        found = found;
        stands = record {
          account = ap (λ i. i.account_id) same ∙ h.stands.account;
          environment = ap (λ i. i.environment) same ∙ h.stands.environment;
          symbol = ap (λ i. i.symbol) same ∙ h.stands.symbol;
          key = ap (λ i. i.idempotency_key) same ∙ h.stands.key;
          id = ap (λ i. i.command_id) same ∙ h.stands.id;
          payload = ap (λ i. i.payload) same ∙ h.stands.payload;
        };
        decision =
            ap
              (λ (i : RowIdentity). record {
                state = i.decision;
                reason = i.reason;
                digest = i.digest;
              })
              same
            ∙ h.decision;
      }

  module _ {Context : Type 0}
      (authenticator : Option (ConfigCommand → Context → Option Actor)) where
    receive-Decided :
        (c : ConfigCommand) (now : Datetime) (context : Option Context) (rows : List ConfigRow)
        (a : Actor) {d : ConfigDecision} {rows' : List ConfigRow}
        → account_of c.command_id ≡ (c.settings.account_id, c.settings.environment)
        → IsSound digest account_of rows
        → sender digest authenticator c context ≡ ok a
        → is_authorized a c.settings ≡ true
        → receive digest authenticator c now context rows ≡ ok (d, rows')
        → (is_valid_command c ≡ true) × Decided c d rows'
    unfolding receive receive_from
    receive-Decided c now context rows a o s sent inside h =
        elim (Bool-cases (is_valid_command c)) [
          | inr bad ↦ absurd (ground (arith, rw bad at h))
          | inl good ↦ (
            good,
            replay_or_record-Decided c a now (keep (is_prior c) rows) rows o s refl
                (rw (good, sent, receive_from, inside) at h),
          )
        ]

    -- What an authorized sender got as the decision on a command is what any authorized sender
    -- of the same command gets again, at any later time and whatever calls of the inbox came in
    -- between, and asking again changes nothing; each command identity is used in one account
    -- only, and the table was sound.
    pub receive_again :
        (c : ConfigCommand) (now later : Datetime) (context context' : Option Context)
        (a a' : Actor) (rows : List ConfigRow) (ks : List (InboxCall Context)) {d : ConfigDecision}
        {rows' : List ConfigRow}
        → account_of c.command_id ≡ (c.settings.account_id, c.settings.environment)
        → IsSound digest account_of rows
        → AllOwned digest authenticator account_of ks
        → sender digest authenticator c context ≡ ok a
        → is_authorized a c.settings ≡ true
        → sender digest authenticator c context' ≡ ok a'
        → is_authorized a' c.settings ≡ true
        → receive digest authenticator c now context rows ≡ ok (d, rows')
        → receive digest authenticator c later context' (call_all digest authenticator ks rows')
          ≡ ok (d, call_all digest authenticator ks rows')
    unfolding receive
    receive_again c now later context context' a a' rows ks {d} {rows'} o s os sent inside sent'
          inside' h =
        let (good, first) = receive-Decided c now context rows a o s sent inside h in
        let s' =
          (receive-Progress digest authenticator account_of c now context rows o s h).sound in
        let p = call_all-Progress digest authenticator account_of ks rows' os s' in
        rw (receive, good, sent')
          (Decided-receive_from c a' later _ p.sound inside' (Decided-Evolves c p.evolves first))
