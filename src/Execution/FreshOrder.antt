-- ===== src/Execution/FreshOrder.antt =====
-- What the projections of execution/projection.py say of an order that nothing is known of.
use cherry_pulse_kr.Prelude.{
  ◌≡◌, refl, Bool, false, none, some, List, [], ◌∷◌, ◌++◌, arith, ◌==◌, nat_eq, string_eq, any,
  keep,
}
use cherry_pulse_kr.Execution.Models.{Uuid, side_eq, environment_eq, New, Request}
use cherry_pulse_kr.Execution.Facts.{Fact}
use cherry_pulse_kr.Execution.Journal.{Journal}
use cherry_pulse_kr.Execution.Outcomes.{
  TransportStatus, RequestStatus, concerns, status, is_change, is_fill_of,
}
use cherry_pulse_kr.Execution.Projection.{
  initial_request, fills_of, cancels_of, changes_of, project, order_of,
}

-- A fact about the order, whoever caused it.
abbrev pub touches : Uuid → Fact → Bool
touches id (Fact.fill f) = f.order_id == id
touches id (Fact.amended f) = f.order_id == id
touches id (Fact.cancelled f) = f.order_id == id
touches id _ = false

-- What `uuid4` gives: no entry has the order's or the request's identity.
pub record IsFresh (j : Journal) (order_id request_id : Uuid) : Type 0 where
  pub no_order : any (λ r. r.order_id == order_id) j.requests ≡ false
  pub no_touch : any (touches order_id) j.facts ≡ false
  pub no_concern : any (concerns request_id) j.facts ≡ false

pub keep-none {ℓ} : {A : Type ℓ} (p : A → Bool) (xs : List A) → any p xs ≡ false → keep p xs ≡ []
keep-none p [] h = refl
keep-none p (x ∷ xs) h = ground (arith, keep-none p xs)

pub fills_of-none : (id : Uuid) (fs : List Fact) → any (touches id) fs ≡ false → fills_of id fs ≡ []
unfolding fills_of
fills_of-none id [] h = refl
fills_of-none id (Fact.fill f ∷ fs) h = ground (arith, fills_of-none id fs)
fills_of-none id (Fact.amended f ∷ fs) h = fills_of-none id fs (ground arith)
fills_of-none id (Fact.cancelled f ∷ fs) h = fills_of-none id fs (ground arith)
fills_of-none id (_ ∷ fs) h = fills_of-none id fs h

pub cancels_of-none :
    (id : Uuid) (fs : List Fact) → any (touches id) fs ≡ false → cancels_of id fs ≡ []
unfolding cancels_of
cancels_of-none id [] h = refl
cancels_of-none id (Fact.fill f ∷ fs) h = cancels_of-none id fs (ground arith)
cancels_of-none id (Fact.amended f ∷ fs) h = cancels_of-none id fs (ground arith)
cancels_of-none id (Fact.cancelled f ∷ fs) h = ground (arith, cancels_of-none id fs)
cancels_of-none id (_ ∷ fs) h = cancels_of-none id fs h

pub changes_of-none :
    (id : Uuid) (fs : List Fact) → any (touches id) fs ≡ false → changes_of id fs ≡ []
unfolding changes_of
changes_of-none id [] h = refl
changes_of-none id (Fact.fill f ∷ fs) h = changes_of-none id fs (ground arith)
changes_of-none id (Fact.amended f ∷ fs) h = ground (arith, changes_of-none id fs)
changes_of-none id (Fact.cancelled f ∷ fs) h = changes_of-none id fs (ground arith)
changes_of-none id (_ ∷ fs) h = changes_of-none id fs h

pub is_fill_of-none :
    (id : Uuid) (fs : List Fact) → any (touches id) fs ≡ false → any (is_fill_of id) fs ≡ false
is_fill_of-none id [] h = refl
is_fill_of-none id (Fact.fill f ∷ fs) h = ground (arith, is_fill_of-none id fs)
is_fill_of-none id (Fact.amended f ∷ fs) h = is_fill_of-none id fs (ground arith)
is_fill_of-none id (Fact.cancelled f ∷ fs) h = is_fill_of-none id fs (ground arith)
is_fill_of-none id (_ ∷ fs) h = is_fill_of-none id fs h

pub initial_request-append_some :
    (id : Uuid) (rs ys : List Request) {x : Request × New}
    → initial_request id rs ≡ some x
    → initial_request id (rs ++ ys) ≡ some x
unfolding initial_request
initial_request-append_some id [] ys h = cc
initial_request-append_some id (r ∷ rs) ys {x} h =
    ground (arith, initial_request-append_some id rs ys {x = x})

pub initial_request-append_none :
    (id : Uuid) (rs ys : List Request)
    → any (λ r. r.order_id == id) rs ≡ false
    → initial_request id (rs ++ ys) ≡ initial_request id ys
unfolding initial_request
initial_request-append_none id [] ys h = refl
initial_request-append_none id (r ∷ rs) ys h = ground (arith, initial_request-append_none id rs ys)

-- the status of a request that nothing is known of
abbrev pub quiet : RequestStatus
quiet = record {
  transport = TransportStatus.intent_persisted;
  effect = none;
  conflict = false;
  positive_evidence = false;
  failed = false;
  rejected = false;
}

pub status-fresh :
    (j : Journal) (r : Request)
    → any (concerns r.request_id) j.facts ≡ false
    → any (touches r.order_id) j.facts ≡ false
    → is_change r.command ≡ false
    → status j r ≡ quiet
unfolding status
status-fresh j r h untouched plain =
    rw
      (
        keep-none (concerns r.request_id) j.facts h,
        is_fill_of-none r.order_id j.facts untouched,
        plain,
      )
      refl

-- The order of a request that nothing is known of.
pub order_of-fresh :
    (j : Journal) (r : Request) (c : New)
    → any (concerns r.request_id) j.facts ≡ false
    → any (touches r.order_id) j.facts ≡ false
    → is_change r.command ≡ false
    → order_of j (r, c) ≡ project r.order_id c quiet [] [] []
unfolding order_of
order_of-fresh j r c h untouched plain = λ i.
    project r.order_id c (status-fresh j r h untouched plain i)
      (fills_of-none r.order_id j.facts untouched i)
      (cancels_of-none r.order_id j.facts untouched i)
      (changes_of-none r.order_id j.facts untouched i)
