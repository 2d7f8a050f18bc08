-- ===== src/Execution/Observed.antt =====
-- Transport facts in the journal, and the test of execution/virtual.py for what can be sent.
use cherry_pulse_kr.Execution.Found.{facts-extend}
use cherry_pulse_kr.Prelude.{
  ◌≡◌, refl, Bool, true, false, not, ◌&&◌, Option, none, some, List, [], ◌∷◌, ◌++◌, arith, ◌==◌,
  nat_eq, string_eq, any, keep, get_last?, keep-append, get_last?-append, pick, pick-append,
}
use cherry_pulse_kr.Execution.Models.{Uuid, side_eq, environment_eq, Request, is_some}
use cherry_pulse_kr.Execution.Facts.{Transport, TransportState, Fact, as_transport}
use cherry_pulse_kr.Execution.Journal.{Journal}
use cherry_pulse_kr.Execution.Outcomes.{
  concerns, status, request_state, is_intent, is_acceptance, is_confirmation, is_effect_rejected,
  is_send_failed, is_rejected, is_change, is_fill_of, observed_status, last_observed, summary,
}
use cherry_pulse_kr.Execution.Claim.{is_sendable, transport_fact}
use cherry_pulse_kr.Execution.History.{Extends}

-- a transport fact of the request is in the journal
abbrev pub observed : Uuid → List Fact → Bool
observed id fs = is_some (get_last? (pick as_transport (keep (concerns id) fs)))

is_some-get_last? {ℓ} :
    {A : Type ℓ} (xs ys : List A)
    → is_some (get_last? xs) ≡ true
    → is_some (get_last? (xs ++ ys)) ≡ true
is_some-get_last? [] ys h = cc
is_some-get_last? (x ∷ []) [] h = refl
is_some-get_last? (x ∷ []) (y ∷ []) h = refl
is_some-get_last? (x ∷ []) (y ∷ z ∷ ys) h = is_some-get_last? (y ∷ []) (z ∷ ys) refl
is_some-get_last? (x ∷ y ∷ xs) ys h = is_some-get_last? (y ∷ xs) ys h

pub observed-append :
    (id : Uuid) (fs gs : List Fact) → observed id fs ≡ true → observed id (fs ++ gs) ≡ true
observed-append id fs gs h =
    rw (keep-append (concerns id) fs gs, pick-append as_transport (keep (concerns id) fs))
      (is_some-get_last? (pick as_transport (keep (concerns id) fs)) _ h)

pub observed-Extends :
    (id : Uuid) {j k : Journal}
    → Extends j k
    → observed id j.facts ≡ true
    → observed id k.facts ≡ true
observed-Extends id Extends.here h = h
observed-Extends id (Extends.more {k = k} p g e) h =
    rw (e, facts-extend) (observed-append id k.facts _ (observed-Extends id g h))

pub summary-observed :
    (changed acceptance confirmation effect_rejection failure rejection execution : Bool)
    (o : Option Transport)
    → is_some o ≡ true
    → is_intent
        (summary changed acceptance confirmation effect_rejection failure rejection execution
          (last_observed o)).transport
      ≡ false
unfolding summary
summary-observed c a k e f r x none h = cc
summary-observed c a k e f r x (some t) h = go t.state
  where
    go :
        (s : TransportState)
        → is_intent (summary c a k e f r x (observed_status s)).transport ≡ false
    go s = ground arith

-- An intention whose transport was observed cannot be sent.
pub not_sendable :
    (j : Journal) (r : Request) → observed r.request_id j.facts ≡ true → is_sendable j r ≡ false
unfolding is_sendable request_state status
not_sendable j r h =
    let facts = keep (concerns r.request_id) j.facts in
    let moved =
      summary-observed (is_change r.command) (any is_acceptance facts) (any is_confirmation facts)
        (any is_effect_rejected facts) (any is_send_failed facts) (any is_rejected facts)
        (not (is_change r.command) && any (is_fill_of r.order_id) j.facts)
        (get_last? (pick as_transport facts)) h in
    ground (arith, moved)

-- the last transport fact of the request after one more
pub observed_new :
    (id n : Uuid) (state : TransportState) (fs : List Fact)
    → observed id (fs ++ transport_fact n id state ∷ []) ≡ true
observed_new id n state fs =
    let self : (id == id) ≡ true = (nat_eq.equal_iff _ _).1 refl in
    rw
      (
        keep-append (concerns id) fs (transport_fact n id state ∷ []),
        self,
        pick-append as_transport (keep (concerns id) fs),
        get_last?-append (pick as_transport (keep (concerns id) fs)),
      )
      refl
