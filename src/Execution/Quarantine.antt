-- ===== src/Execution/Quarantine.antt =====
-- `reprocess` of execution/quarantine.py: a derived fill and the release of its quarantine.
use cherry_pulse_kr.Prelude.{
  ℕ, Bool, true, not, none, some, if◌then◌else◌, ◌==◌, nat_eq, string_eq, find?, raise_if,
}
use cherry_pulse_kr.Execution.Models.{Uuid, Key, LedgerError, side_eq, environment_eq}
use cherry_pulse_kr.Execution.Facts.{Fill, QuarantineReleased, Fact, event_id, same_fact}
use cherry_pulse_kr.Execution.Journal.{Journal, revision}
use cherry_pulse_kr.Execution.External.{External}
use cherry_pulse_kr.Execution.Linkage.{linked_fill}
use cherry_pulse_kr.Execution.Validation.{check_fact}
use cherry_pulse_kr.Execution.Transaction.{
  Method, pure, raise, lift, transaction, read_journal, append_entry, ◌>>=◌, ◌>>◌,
}
use cherry_pulse_kr.Execution.Ingest.{settle, once, settle, fact_entry}

module _ (ext : External) where
  abbrev pub release_of : Uuid → Key → QuarantineReleased
  release_of quarantine_id proof_reference = record {
    event_id = ext.uuid5 quarantine_id "release";
    quarantine_id = quarantine_id;
    fill_id = ext.uuid5 quarantine_id "linked-fill";
    proof_reference = proof_reference;
  }

  -- the derived fill, unless it is there already
  unfoldable pub commit_fill : Journal → Fill → Method (Unit {0})
  unfolding check_fact
  commit_fill j f = elim (find? (λ g. event_id g == f.event_id) j.facts) [
    | some existing ↦
        if same_fact existing (Fact.fill f)
        then pure tt
        else raise LedgerError.conflict_event_id_mismatch
    | none ↦ do lift (check_fact ext j (Fact.fill f)); append_entry (fact_entry ext (Fact.fill f))
  ]

  -- what `reprocess` does with a release that is new
  unfoldable pub release_fill : Journal → QuarantineReleased → ℕ → Method Bool
  unfolding commit_fill linked_fill
  release_fill j release expected_revision = do
    lift (raise_if (not (revision j == expected_revision)) LedgerError.stale_quarantine_review)
    f ← lift (linked_fill ext j release.quarantine_id)
    commit_fill j f
    j' ← read_journal
    lift (check_fact ext j' (Fact.quarantine_released release))
    append_entry (fact_entry ext (Fact.quarantine_released release))
    pure true

  unfoldable pub reprocess : Uuid → Key → ℕ → Method Bool
  unfolding settle release_fill
  reprocess quarantine_id proof_reference expected_revision =
      let release : QuarantineReleased = release_of quarantine_id proof_reference in
      transaction (do
        j ← read_journal
        once j (Fact.quarantine_released release) (release_fill j release expected_revision))
