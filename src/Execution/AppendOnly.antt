-- ===== src/Execution/AppendOnly.antt =====
-- What each writing method of the ledger (execution/ledger.py) does to the store.
use cherry_pulse_kr.Execution.Recovery.{recover_all, recovery, append_recovery}
use cherry_pulse_kr.Execution.Claim.{
  claim_found, claim, claim_request, claim_ready, take_claim, Session,
}
use cherry_pulse_kr.Prelude.{
  ℕ, inl, inr, Bool, ◌==◌, nat_eq, string_eq, Option-cases, find?, Option, none, some, List, [],
  ◌∷◌, ◌+◌,
}
use cherry_pulse_kr.Execution.Models.{
  Uuid, Key, Datetime, side_eq, environment_eq, OrderCommand, common, Request, AppliedConfig,
  Allocation, same_command,
}
use cherry_pulse_kr.Execution.Facts.{Fill, QuarantineReleased, Fact, event_id, same_fact}
use cherry_pulse_kr.Execution.Journal.{Journal}
use cherry_pulse_kr.Execution.Transaction.{Method}
use cherry_pulse_kr.Execution.Submit.{submit, create, append_obligation, answer, Submission}
use cherry_pulse_kr.Execution.Ingest.{
  ingest, record_fact, append_assignment, settle, discard, retire_intention, is_buy_of, binds,
}
use cherry_pulse_kr.Execution.Configure.{start_allocation, advance_config}
use cherry_pulse_kr.Execution.Quarantine.{commit_fill, release_fill, reprocess}
use cherry_pulse_kr.Execution.External.{External}
use cherry_pulse_kr.Execution.History.{
  Grows, Grows-pure, Grows-append_entry, grow_rules, Grows-replay, Grows-if, Grows-bind,
}

module _ (ext : External) where
  pub append_obligation-Grows : (r : Request) → Grows (append_obligation ext r)
  unfolding append_obligation
  append_obligation-Grows r = go r.command
    where
      go : (c : OrderCommand) → Grows (append_obligation ext (record r { command = c }))
      go (OrderCommand.new c) = elim (Option-cases c.stop_latch_version) [
        | inl p ↦ rw (p, append_obligation) (Grows-pure tt)
        | inr (v, p) ↦ rw (p, append_obligation) (Grows-append_entry _)
      ]
      go (OrderCommand.amend c) = Grows-pure tt
      go (OrderCommand.cancel c) = Grows-pure tt

  pub create-Grows :
      (j : Journal) (command : OrderCommand) (now : Datetime) (order_id request_id : Uuid)
      → Grows (create ext j command now order_id request_id)
  unfolding create
  create-Grows j command now order_id request_id = search (grow_rules, append_obligation-Grows)

  pub settle-Grows :
      (f : Fact) (found : Option Fact) (k : Method Bool) → Grows k → Grows (settle f found k)
  unfolding settle
  settle-Grows f none k g = g
  settle-Grows f (some existing) k g = Grows-replay (same_fact existing f) _ _

  pub append_assignment-Grows : (j : Journal) (f : Fact) → Grows (append_assignment ext j f)
  unfolding append_assignment
  append_assignment-Grows j (Fact.fill f) =
      elim (Option-cases (find? (is_buy_of f.order_id) j.requests)) [
        | inl p ↦ rw (p, append_assignment) (Grows-pure tt)
        | inr (r, p) ↦ elim (Option-cases (find? (binds (common r.command)) j.stop_bindings)) [
          | inl q ↦ rw (p, append_assignment, q) (Grows-pure tt)
          | inr (b, q) ↦ rw (p, append_assignment, q) (Grows-append_entry _)
        ]
      ]
  append_assignment-Grows j _ = Grows-pure tt

  pub record_fact-Grows : (j : Journal) (f : Fact) → Grows (record_fact ext j f)
  unfolding record_fact
  record_fact-Grows j f = search (grow_rules, append_assignment-Grows)

  pub ingest-Grows : (f : Fact) → Grows (ingest ext f)
  unfolding ingest
  ingest-Grows f = search (grow_rules, settle-Grows, record_fact-Grows)

  pub retire-Grows : (j : Journal) (f : Fact) (n : ℕ) → Grows (retire_intention ext j f n)
  unfolding retire_intention
  retire-Grows j f n = search grow_rules depth 12

  pub discard-Grows :
      (request_id : Uuid) (reason : Key) (n : ℕ) → Grows (discard ext request_id reason n)
  unfolding discard
  discard-Grows request_id reason n = search (grow_rules, settle-Grows, retire-Grows)

  answer-Grows :
      (command : OrderCommand) (found : Option Request) (k : Method Submission)
      → Grows k
      → Grows (answer command found k)
  unfolding answer
  answer-Grows command none k g = g
  answer-Grows command (some existing) k g =
      Grows-replay (same_command existing.command command) _ _

  pub submit-Grows :
      (command : OrderCommand) (now : Datetime) (order_id request_id : Uuid)
      → Grows (submit ext command now order_id request_id)
  unfolding submit
  submit-Grows command now order_id request_id = search (grow_rules, answer-Grows, create-Grows)

  pub advance_config-Grows :
      (c : AppliedConfig) (n : ℕ) (fresh : Uuid) → Grows (advance_config ext c n fresh)
  unfolding advance_config
  advance_config-Grows c n fresh = search grow_rules depth 12

  pub start_allocation-Grows : (j : Journal) (a : Allocation) → Grows (start_allocation j a)
  unfolding start_allocation
  start_allocation-Grows j a = search grow_rules depth 12

  pub commit_fill-Grows : (j : Journal) (f : Fill) → Grows (commit_fill ext j f)
  unfolding commit_fill
  commit_fill-Grows j f = elim (Option-cases (find? (λ g. event_id g == f.event_id) j.facts)) [
    | inl p ↦ rw (p, commit_fill) (search grow_rules)
    | inr (h, p) ↦ rw (p, commit_fill) (search grow_rules)
  ]

  pub release_fill-Grows :
      (j : Journal) (r : QuarantineReleased) (n : ℕ) → Grows (release_fill ext j r n)
  unfolding release_fill
  release_fill-Grows j r n = search (grow_rules, commit_fill-Grows) depth 12

  pub reprocess-Grows :
      (quarantine_id : Uuid) (proof_reference : Key) (n : ℕ)
      → Grows (reprocess ext quarantine_id proof_reference n)
  unfolding reprocess
  reprocess-Grows q k n = search (grow_rules, settle-Grows, release_fill-Grows)

  pub claim_ready-Grows :
      (j : Journal) (r : Request) (now : Datetime) (fresh : Uuid)
      → Grows (claim_ready ext j r now fresh)
  unfolding claim_ready take_claim
  claim_ready-Grows j r now fresh = search grow_rules depth 12

  pub claim_request-Grows :
      (j : Journal) (r : Request) (session : Option Session) (now : Datetime) (fresh : Uuid)
      → Grows (claim_request ext j r session now fresh)
  unfolding claim_request
  claim_request-Grows j r session now fresh = search (grow_rules, claim_ready-Grows) depth 12

  claim_found-Grows :
      (j : Journal) (found : Option Request) (session : Option Session) (now : Datetime)
      (fresh : Uuid)
      → Grows (claim_found ext j found session now fresh)
  unfolding claim_found
  claim_found-Grows j none session now fresh = Grows-pure none
  claim_found-Grows j (some r) session now fresh = claim_request-Grows j r session now fresh

  pub claim-Grows :
      (request_id : Uuid) (session : Option Session) (now : Datetime) (fresh : Uuid)
      → Grows (claim ext request_id session now fresh)
  unfolding claim
  claim-Grows request_id session now fresh = search (grow_rules, claim_found-Grows)

  append_recovery-Grows :
      (j : Journal) (r : Request) (fresh : Uuid) → Grows (append_recovery ext j r fresh)
  unfolding append_recovery
  append_recovery-Grows j r fresh = search grow_rules

  recover_all-Grows :
      (j : Journal) (rs : List Request) (fresh : ℕ → Uuid) → Grows (recover_all ext j rs fresh)
  unfolding recover_all
  recover_all-Grows j [] fresh = Grows-pure []
  recover_all-Grows j (r ∷ rs) fresh =
      let g = recover_all-Grows j rs (λ n. fresh (n + 1)) in
      Grows-if _ _ _
        (Grows-bind _ _ (append_recovery-Grows j r (fresh 0))
          (λ u. Grows-bind _ _ g (λ ids. Grows-pure (r.request_id ∷ ids))))
        g

  pub recovery-Grows : (fresh : ℕ → Uuid) → Grows (recovery ext fresh)
  unfolding recovery
  recovery-Grows fresh = search (grow_rules, recover_all-Grows)
