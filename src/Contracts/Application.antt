-- ===== src/Contracts/Application.antt =====
-- contracts/inbox.py: the local application of an accepted command, and its states.
use cherry_pulse_kr.Prelude.{
  ℕ, Bool, true, false, not, ◌&&◌, Option, none, some, List, [], ◌∷◌, map, leb, if◌then◌else◌, ◌==◌,
  nat_eq, string_eq, keep, find?, Result, ok, err, ◌>>=◌, require,
}
use cherry_pulse_kr.Execution.Models.{Uuid, is_some}
use cherry_pulse_kr.Contracts.Inbox.{
  ApplyState, ApplyReason, InboxError, InboxApplication, ConfigRow, InboxMethod, same_reason,
  row_accepted, has_id,
}

-- `UPDATE ... WHERE command_id=?`
abbrev pub update_id : Uuid → (ConfigRow → ConfigRow) → List ConfigRow → List ConfigRow
update_id id f rows = map (λ r. if has_id id r then f r else r) rows

abbrev pub set_state : ApplyState → Option ApplyReason → ConfigRow → ConfigRow
set_state state reason r = record r { apply_state = state; apply_reason = reason }

abbrev pub set_applied : ℕ → ConfigRow → ConfigRow
set_applied version r = record r {
  apply_state = ApplyState.applied;
  apply_reason = none;
  applied_version = some version;
}

-- The row as a caller sees it.
abbrev pub application_of : ConfigRow → InboxApplication
application_of r = record {
  command = r.payload;
  digest = r.digest;
  state = r.apply_state;
  reason = r.apply_reason;
  applied_version = r.applied_version;
}

-- the first row of the query, which has to be accepted
unfoldable pub accepted_row : Uuid → List ConfigRow → Result InboxError ConfigRow
accepted_row id rows = do
  r ← require (find? (has_id id) rows) InboxError.config_command_not_found
  if row_accepted r then ok r else err InboxError.config_command_not_accepted

abbrev pub is_legacy : Option ApplyReason → Bool
is_legacy (some ApplyReason.legacy_authentication_unverified) = true
is_legacy _ = false

-- whether `begin_apply` writes APPLYING
abbrev pub starts : Bool → ConfigRow → Bool
starts retry_blocked r = elim r.apply_state [
  | ApplyState.not_applied ↦ true
  | ApplyState.applying ↦ false
  | ApplyState.applied ↦ false
  | ApplyState.apply_blocked ↦ retry_blocked && not (is_legacy r.apply_reason)
]

abbrev pub begin_row : Uuid → Bool → ConfigRow → InboxMethod InboxApplication
begin_row id retry_blocked r rows =
    if starts retry_blocked r
    then ok (
      application_of (set_state ApplyState.applying none r),
      update_id id (set_state ApplyState.applying none) rows,
    )
    else ok (application_of r, rows)

unfoldable pub begin_apply : Uuid → Bool → InboxMethod InboxApplication
unfolding accepted_row
begin_apply id retry_blocked rows = elim (accepted_row id rows) [
  | ok r ↦ begin_row id retry_blocked r rows
  | err e ↦ err e
]

abbrev pub block_row : Uuid → ApplyReason → ConfigRow → InboxMethod InboxApplication
block_row id reason r rows =
    let blocked : InboxApplication =
      application_of (set_state ApplyState.apply_blocked (some reason) r) in
    elim r.apply_state [
      | ApplyState.not_applied ↦ err InboxError.config_apply_not_in_progress
      | ApplyState.applying ↦
          ok (blocked, update_id id (set_state ApplyState.apply_blocked (some reason)) rows)
      | ApplyState.applied ↦ err InboxError.config_already_applied
      | ApplyState.apply_blocked ↦
          if same_reason reason r.apply_reason
          then ok (blocked, rows)
          else err InboxError.config_apply_not_in_progress
    ]

unfoldable pub block_apply : Uuid → ApplyReason → InboxMethod InboxApplication
unfolding accepted_row
block_apply id reason rows = elim (accepted_row id rows) [
  | ok r ↦ block_row id reason r rows
  | err e ↦ err e
]

abbrev pub has_version : ℕ → Option ℕ → Bool
has_version n none = false
has_version n (some m) = m == n

abbrev pub mark_row : Uuid → ℕ → ConfigRow → InboxMethod InboxApplication
mark_row id applied_version r rows = elim r.apply_state [
  | ApplyState.not_applied ↦ err InboxError.config_apply_not_in_progress
  | ApplyState.applying ↦ ok (
    application_of (set_applied applied_version r),
    update_id id (set_applied applied_version) rows,
  )
  | ApplyState.applied ↦
      if has_version applied_version r.applied_version
      then ok (application_of r, rows)
      else err InboxError.conflict_config_applied_version
  | ApplyState.apply_blocked ↦ err InboxError.config_apply_not_in_progress
]

unfoldable pub mark_applied :
    Uuid → (fingerprint applied_version : ℕ) → InboxMethod InboxApplication
unfolding accepted_row
mark_applied id fingerprint applied_version rows = elim (accepted_row id rows) [
  | ok r ↦
      if not (r.digest == fingerprint)
      then err InboxError.conflict_config_command_identity
      else if not (applied_version == r.payload.settings.version)
      then err InboxError.conflict_config_applied_version
      else mark_row id applied_version r rows
  | err e ↦ err e
]

unfoldable pub application : Uuid → List ConfigRow → Result InboxError InboxApplication
unfolding accepted_row
application id rows = elim (accepted_row id rows) [ ok r ↦ ok (application_of r) | err e ↦ err e ]

abbrev pub is_applying : ConfigRow → Bool
is_applying r = elim r.apply_state [ ApplyState.applying ↦ true | _ ↦ false ]

abbrev pub is_pending : ConfigRow → Bool
is_pending r = elim r.apply_state [
  | ApplyState.applying ↦ true
  | ApplyState.not_applied ↦ true
  | _ ↦ false
]

unfoldable pub applying_command_ids : List ConfigRow → List Uuid
applying_command_ids rows =
    map (λ r. r.command_id) (keep (λ r. row_accepted r && is_applying r) rows)

-- `ORDER BY accepted_version, rowid`, with NULL first
abbrev pub comes_before : ConfigRow → ConfigRow → Bool
comes_before a b = elim b.accepted_version [
  | none ↦ not (is_some a.accepted_version)
  | some n ↦ elim a.accepted_version [ none ↦ true | some m ↦ leb m n ]
]

-- a row that has the smaller rowid goes in front of the rows that it does not follow
abbrev pub place : ConfigRow → List ConfigRow → List ConfigRow
place r [] = r ∷ []
place r (s ∷ rows) = if comes_before r s then r ∷ s ∷ rows else s ∷ place r rows

abbrev pub sorted : List ConfigRow → List ConfigRow
sorted [] = []
sorted (r ∷ rows) = place r (sorted rows)

unfoldable pub pending_application_ids : List ConfigRow → List Uuid
pending_application_ids rows =
    map (λ r. r.command_id) (sorted (keep (λ r. row_accepted r && is_pending r) rows))
