-- ===== src/Execution/Settled.antt =====
-- `status` of execution/outcomes.py as facts arrive.
use cherry_pulse_kr.Execution.Transaction.{Store}
use cherry_pulse_kr.Execution.External.{External}
use cherry_pulse_kr.Execution.Calls.{run_all, run_all-Grown, Operation}
use cherry_pulse_kr.Execution.History.{Extends, journal_of}
use cherry_pulse_kr.Prelude.{
  ◌≡◌, refl, sym, subst, Bool, true, false, not, ◌&&◌, Option, none, some, List, [], ◌∷◌, ◌++◌,
  arith, nat_eq, string_eq, any, keep, get_last?, any-append, pick,
}
use cherry_pulse_kr.Execution.Models.{Uuid, side_eq, environment_eq, Request}
use cherry_pulse_kr.Execution.Facts.{Transport, TransportState, Fact, as_transport}
use cherry_pulse_kr.Execution.Journal.{Journal}
use cherry_pulse_kr.Execution.Outcomes.{
  TransportStatus, Effect, RequestStatus, concerns, status, request_state, is_acked, is_acceptance,
  is_confirmation, is_effect_rejected, is_send_failed, is_rejected, is_change, is_fill_of,
  observed_status, last_observed, summary,
}
use cherry_pulse_kr.Execution.Storage.{Payload}
use cherry_pulse_kr.Execution.Storage.Extend.{extend}

abbrev is_transport : Fact → Bool
is_transport (Fact.transport f) = true
is_transport _ = false

-- the request was accepted, rejected or not sent
abbrev pub is_terminal : TransportStatus → Bool
is_terminal TransportStatus.acked = true
is_terminal TransportStatus.rejected_by_broker = true
is_terminal TransportStatus.send_failed = true
is_terminal _ = false

any-inert :
    (p : Fact → Bool) (id : Uuid) (fs : List Fact) (f : Fact)
    → p f ≡ false
    → any p (keep (concerns id) (fs ++ f ∷ [])) ≡ any p (keep (concerns id) fs)
any-inert p id [] f h = ground arith
any-inert p id (g ∷ fs) f h = ground (arith, any-inert p id fs f)

any-kept :
    (p : Fact → Bool) (id : Uuid) (fs : List Fact) (f : Fact)
    → any p (keep (concerns id) fs) ≡ true
    → any p (keep (concerns id) (fs ++ f ∷ [])) ≡ true
any-kept p id [] f h = cc
any-kept p id (g ∷ fs) f h = ground (arith, any-kept p id fs f)

any-append_true :
    (p : Fact → Bool) (fs : List Fact) (f : Fact) → any p fs ≡ true → any p (fs ++ f ∷ []) ≡ true
any-append_true p fs f h = ground (arith, any-append p fs (f ∷ []))

observed_open : (o : Option Transport) → is_terminal (last_observed o) ≡ false
observed_open none = refl
observed_open (some t) = go t.state
  where
    go : (s : TransportState) → is_terminal (observed_status s) ≡ false
    go s = ground arith

-- What was last observed does not matter for the summary of a terminal request.
summary-terminal :
    (changed acceptance confirmation effect_rejection failure rejection execution : Bool)
    (o o' : Option Transport)
    → is_terminal
        (summary changed acceptance confirmation effect_rejection failure rejection execution
          (last_observed o)).transport
      ≡ true
    → summary changed acceptance confirmation effect_rejection failure rejection execution
        (last_observed o')
      ≡ summary changed acceptance confirmation effect_rejection failure rejection execution
          (last_observed o)
unfolding summary
summary-terminal c true k e f r x o o' h = refl
summary-terminal c false k e f true x o o' h = refl
summary-terminal c false k e true false x o o' h = refl
summary-terminal c false k e false false x o o' h = absurd (ground (arith, observed_open o))

fill_inert :
    (id : Uuid) (fs : List Fact) (t : Transport)
    → any (is_fill_of id) (fs ++ Fact.transport t ∷ []) ≡ any (is_fill_of id) fs
fill_inert id fs t = ground (arith, any-append (is_fill_of id) fs (Fact.transport t ∷ []))

-- A transport fact that arrives after a request was accepted, rejected or proved unsent leaves
-- its whole status as it was.
pub late_transport :
    (j : Journal) (r : Request) (t : Transport)
    → is_terminal (request_state j r) ≡ true
    → status (extend j (Payload.fact (Fact.transport t))) r ≡ status j r
unfolding status request_state
late_transport j r t h =
    let f : Fact = Fact.transport t in
    let id = r.request_id in
    let fs = j.facts in
    rw
      (
        any-inert is_acceptance id fs f refl,
        any-inert is_confirmation id fs f refl,
        any-inert is_effect_rejected id fs f refl,
        any-inert is_send_failed id fs f refl,
        any-inert is_rejected id fs f refl,
        fill_inert r.order_id fs t,
      )
      (summary-terminal (is_change r.command) (any is_acceptance (keep (concerns id) fs))
        (any is_confirmation (keep (concerns id) fs))
        (any is_effect_rejected (keep (concerns id) fs))
        (any is_send_failed (keep (concerns id) fs)) (any is_rejected (keep (concerns id) fs))
        (not (is_change r.command) && any (is_fill_of r.order_id) fs)
        (get_last? (pick as_transport (keep (concerns id) fs))) _ h)

abbrev pub effect_is_confirmed : Option Effect → Bool
effect_is_confirmed (some Effect.confirmed) = true
effect_is_confirmed _ = false

-- Evidence about a request is not lost from one status to the other.
pub record Keeps (before after : RequestStatus) : Type 0 where
  pub positive : before.positive_evidence ≡ true → after.positive_evidence ≡ true
  pub failed : before.failed ≡ true → after.failed ≡ true
  pub rejected : before.rejected ≡ true → after.rejected ≡ true
  pub conflict : before.conflict ≡ true → after.conflict ≡ true
  pub accepted : is_acked before.transport ≡ true → is_acked after.transport ≡ true
  pub confirmed : effect_is_confirmed before.effect ≡ true → effect_is_confirmed after.effect ≡ true

Keeps-refl : (s : RequestStatus) → Keeps s s
Keeps-refl s = record {
  positive = λ h. h;
  failed = λ h. h;
  rejected = λ h. h;
  conflict = λ h. h;
  accepted = λ h. h;
  confirmed = λ h. h;
}

Keeps-trans : {s t u : RequestStatus} → Keeps s t → Keeps t u → Keeps s u
Keeps-trans g h = record {
  positive = λ e. h.positive (g.positive e);
  failed = λ e. h.failed (g.failed e);
  rejected = λ e. h.rejected (g.rejected e);
  conflict = λ e. h.conflict (g.conflict e);
  accepted = λ e. h.accepted (g.accepted e);
  confirmed = λ e. h.confirmed (g.confirmed e);
}

-- The summary under more evidence.
summary-Keeps :
    (c : Bool) {a k e f r x a' k' e' f' r' x' : Bool} (o o' : TransportStatus)
    → (a ≡ true → a' ≡ true)
    → (k ≡ true → k' ≡ true)
    → (e ≡ true → e' ≡ true)
    → (f ≡ true → f' ≡ true)
    → (r ≡ true → r' ≡ true)
    → (x ≡ true → x' ≡ true)
    → is_terminal o ≡ false
    → Keeps (summary c a k e f r x o) (summary c a' k' e' f' r' x' o')
unfolding summary
summary-Keeps c {a} {k} {e} {f} {r} {x} {a'} {k'} {e'} {f'} {r'} {x'} o o' ha hk he hf hr hx
      open_o =
    record {
      positive = ground arith;
      failed = hf;
      rejected = hr;
      conflict = ground arith;
      accepted = ground arith;
      confirmed = ground arith;
    }

status-extend :
    (j : Journal) (p : Payload) (r : Request) → Keeps (status j r) (status (extend j p) r)
unfolding status
status-extend j (Payload.fact f) r =
    let id = r.request_id in
    let fs = j.facts in
    summary-Keeps (is_change r.command)
      (last_observed (get_last? (pick as_transport (keep (concerns id) fs)))) _
      (any-kept is_acceptance id fs f) (any-kept is_confirmation id fs f)
      (any-kept is_effect_rejected id fs f) (any-kept is_send_failed id fs f)
      (any-kept is_rejected id fs f)
      (λ h. ground (arith, any-append (is_fill_of r.order_id) j.facts (f ∷ [])))
      (observed_open (get_last? (pick as_transport (keep (concerns id) fs))))
status-extend j _ r = Keeps-refl (status j r)

status-Extends : (r : Request) {j k : Journal} → Extends j k → Keeps (status j r) (status k r)
status-Extends r {j} Extends.here = Keeps-refl (status j r)
status-Extends r (Extends.more {k = k} p g e) =
    Keeps-trans (status-Extends r g)
      (subst (λ l. Keeps (status k r) (status l r)) (sym e) (status-extend k p r))

module _ (ext : External) where
  -- Whatever transactions are run, what is known of a request stays known: positive evidence,
  -- failure, rejection, a conflict, acceptance and a confirmed effect are not undone by later
  -- entries.
  pub evidence_kept :
      (ops : List Operation) (s : Store) (r : Request)
      → Keeps (status (journal_of s) r) (status (journal_of (run_all ext ops s)) r)
  evidence_kept ops s r = status-Extends r (run_all-Grown ext ops s).entries
