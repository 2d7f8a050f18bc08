-- ===== src/Execution/StopViews.antt =====
-- The views of execution/stop_obligations.py and their quantities.
use cherry_pulse_kr.Prelude.{
  ℕ, ◌+◌, ◌-◌, ◌≤◌, ◌≡◌, refl, ap, ◌∙◌, inl, inr, Bool, true, ◌&&◌, Option, some, List, [], ◌∷◌,
  ◌++◌, map, reverse, arith, ltb, ◌==◌, nat_eq, string_eq, Bool-cases, Option-cases, all, keep,
  find?, pick, ok, Result-cases,
}
use cherry_pulse_kr.Execution.Models.{
  Key, side_eq, environment_eq, New, OrderCommand, Request, StopSellObligation,
}
use cherry_pulse_kr.Execution.Journal.{Journal}
use cherry_pulse_kr.Execution.Outcomes.{RequestStatus, status}
use cherry_pulse_kr.Execution.Projection.{Order, order}
use cherry_pulse_kr.Execution.Portfolio.{Portfolio, portfolio}
use cherry_pulse_kr.Execution.StopObligations.{
  StopObligationView, ObligationState, obligation_view, obligation_views, stop_obligation_views,
  view_of, is_consistent, obligation_state, blocked_view, unpaired_stop_requests, as_unpaired,
  view_for,
}

-- A view that is not blocked accounts for the whole quantity: a fulfilled one has it filled, and
-- of any other some part is unfilled.
abbrev pub adds_up : StopObligationView → Bool
adds_up v = elim v.state [
  | ObligationState.blocked_evidence ↦ true
  | ObligationState.fulfilled ↦ v.filled_qty == v.initial_qty && v.unfilled_qty == 0
  | _ ↦ ltb v.filled_qty v.initial_qty && v.filled_qty + v.unfilled_qty == v.initial_qty
]

is_consistent-filled :
    (j : Journal) (symbol : Key) (o : StopSellObligation) (r : Request) (c : New) (snapshot : Order)
    → is_consistent j symbol o r c snapshot ≡ true
    → snapshot.filled ≤ o.qty
unfolding is_consistent
is_consistent-filled j symbol o r c snapshot h = ground (arith, h)

abbrev sums : ObligationState → ℕ → ℕ → Bool
sums ObligationState.blocked_evidence filled qty = true
sums ObligationState.fulfilled filled qty = filled == qty && qty - filled == 0
sums _ filled qty = ltb filled qty && filled + (qty - filled) == qty

obligation_state-sums :
    (b : Bool) (o : StopSellObligation) (snapshot : Order) (outcome : RequestStatus) (p : Portfolio)
    → (b ≡ true → snapshot.filled ≤ o.qty)
    → sums (obligation_state b o snapshot outcome p) snapshot.filled o.qty ≡ true
unfolding obligation_state
obligation_state-sums b o snapshot outcome p h = ground arith

sums-adds_up :
    (s : ObligationState) (v : StopObligationView)
    → sums s v.filled_qty v.initial_qty ≡ true
    → adds_up (record v { unfilled_qty = v.initial_qty - v.filled_qty; state = s }) ≡ true
sums-adds_up ObligationState.blocked_evidence v h = refl
sums-adds_up ObligationState.fulfilled v h = h
sums-adds_up ObligationState.review_required v h = h
sums-adds_up ObligationState.pending v h = h

view_of-adds_up :
    (j : Journal) (symbol : Key) (position : Portfolio) (o : StopSellObligation) (r : Request)
    (c : New) (snapshot : Order)
    → adds_up (view_of j symbol position o r c snapshot) ≡ true
unfolding view_of
view_of-adds_up j symbol position o r c snapshot =
    let state =
      obligation_state (is_consistent j symbol o r c snapshot) o snapshot (status j r) position in
    sums-adds_up state (view_of j symbol position o r c snapshot) (
      obligation_state-sums _ o snapshot (status j r) position
        (is_consistent-filled j symbol o r c snapshot))

view_of_request :
    (j : Journal) (symbol : Key) (position : Portfolio) (o : StopSellObligation) (c : OrderCommand)
    (r : Request) {v : StopObligationView}
    → view_for j symbol position o c r ≡ ok v
    → (v.request_id ≡ o.request_id) × (v.initial_qty ≡ o.qty) × (adds_up v ≡ true)
unfolding view_for view_of
view_of_request j symbol position o (OrderCommand.new c) r {v} h =
    elim (Result-cases (order j o.order_id)) [
      | inr (e, p) ↦ absurd (ground (arith, rw (p, view_for) at h))
      | inl (snapshot, p) ↦
          let e : v ≡ view_of j symbol position o r c snapshot =
            ground (arith, rw (p, view_for) at h) in
          rw e (refl, refl, view_of-adds_up j symbol position o r c snapshot)
    ]
view_of_request j symbol position o (OrderCommand.amend c) r {v} h =
    let e : v ≡ blocked_view o.request_id o.order_id o.qty = ground arith in rw e (refl, refl, refl)
view_of_request j symbol position o (OrderCommand.cancel c) r {v} h =
    let e : v ≡ blocked_view o.request_id o.order_id o.qty = ground arith in rw e (refl, refl, refl)

-- The view of one obligation carries its request.
obligation_view-eq_ok :
    (j : Journal) (symbol : Key) (position : Portfolio) (o : StopSellObligation)
    {v : StopObligationView}
    → obligation_view j symbol position o ≡ ok v
    → (v.request_id ≡ o.request_id) × (v.initial_qty ≡ o.qty) × (adds_up v ≡ true)
unfolding obligation_view
obligation_view-eq_ok j symbol position o {v} h =
    elim (Option-cases (find? (λ r. r.request_id == o.request_id) (reverse j.requests))) [
      | inl p ↦
          let e : v ≡ blocked_view o.request_id o.order_id o.qty =
            ground (arith, rw (p, obligation_view) at h) in
          rw e (refl, refl, refl)
      | inr (r, p) ↦ view_of_request j symbol position o r.command r (rw (p, obligation_view) at h)
    ]

abbrev of_symbol : Key → StopSellObligation → Bool
of_symbol symbol o = o.symbol == symbol

obligation_views-eq_ok :
    (j : Journal) (symbol : Key) (position : Portfolio) (os : List StopSellObligation)
    {vs : List StopObligationView}
    → obligation_views j symbol position os ≡ ok vs
    → (map (λ v. v.request_id) vs ≡ map (λ o. o.request_id) (keep (of_symbol symbol) os))
      × (all adds_up vs ≡ true)
unfolding obligation_views
obligation_views-eq_ok j symbol position [] {vs} h =
    let e : vs ≡ [] = ground arith in rw e (refl, refl)
obligation_views-eq_ok j symbol position (o ∷ os) {vs} h = elim (Bool-cases (o.symbol == symbol)) [
  | inr other ↦
      let (a, b) =
        obligation_views-eq_ok j symbol position os {vs = vs} (rw (other, obligation_views) at h) in
      rw other (a, b)
  | inl same ↦ elim (Result-cases (obligation_view j symbol position o)) [
    | inr (e, p) ↦ absurd (ground (arith, rw (same, p, obligation_views) at h))
    | inl (v, p) ↦ elim (Result-cases (obligation_views j symbol position os)) [
      | inr (e, q) ↦ absurd (ground (arith, rw (same, p, q, obligation_views) at h))
      | inl (ws, q) ↦
          let (a, b) = obligation_views-eq_ok j symbol position os q in
          let (i, n, sound) = obligation_view-eq_ok j symbol position o p in
          let e : vs ≡ v ∷ ws = ground (arith, rw (same, p, q, obligation_views) at h) in
          rw (same, e, sound) (rw (i, a) refl, b)
    ]
  ]
]

as_unpaired-adds_up :
    (j : Journal) (symbol : Key) (r : Request) {v : StopObligationView}
    → as_unpaired j symbol r ≡ some v
    → adds_up v ≡ true
as_unpaired-adds_up j symbol r {v} h = go r.command h
  where
    go :
        (c : OrderCommand)
        → as_unpaired j symbol (record r { command = c }) ≡ some v
        → adds_up v ≡ true
    go (OrderCommand.new c) h = ground (arith, h)
    go (OrderCommand.amend c) h = cc
    go (OrderCommand.cancel c) h = cc

all-pick {ℓ κ} :
    {A : Type ℓ} {B : Type κ} (f : A → Option B) (p : B → Bool)
    → ((a : A) (b : B) → f a ≡ some b → p b ≡ true)
    → (xs : List A) → all p (pick f xs) ≡ true
all-pick f p h [] = refl
all-pick f p h (x ∷ xs) = elim (Option-cases (f x)) [
  | inl q ↦ let e : pick f (x ∷ xs) ≡ pick f xs = rw (q, pick) refl in rw e (all-pick f p h xs)
  | inr (b, q) ↦
      let e : pick f (x ∷ xs) ≡ b ∷ pick f xs = rw (q, pick) refl in
      rw (e, h x b q) (all-pick f p h xs)
]

all-append {ℓ} :
    {A : Type ℓ} (p : A → Bool) (xs ys : List A)
    → all p xs ≡ true
    → all p ys ≡ true
    → all p (xs ++ ys) ≡ true
all-append p [] ys g h = h
all-append p (x ∷ xs) ys g h = ground (arith, all-append p xs ys)

map-append {ℓ κ} :
    {A : Type ℓ} {B : Type κ} (f : A → B) (xs ys : List A) → map f (xs ++ ys) ≡ map f xs ++ map f ys
map-append f [] ys = refl
map-append f (x ∷ xs) ys = ap (λ zs. f x ∷ zs) (map-append f xs ys)

-- When the views of a symbol can be computed, there is one for each recorded obligation of the
-- symbol in order, then one for each stop sell without an obligation; in each that is not
-- blocked the filled and the unfilled quantity make up the initial one, with nothing unfilled
-- exactly where it is fulfilled.
pub stop_obligation_views_complete :
    (j : Journal) (symbol : Key) {vs : List StopObligationView}
    → stop_obligation_views j symbol ≡ ok vs
    → (map (λ v. v.request_id) vs
        ≡ map (λ o. o.request_id) (keep (λ o. o.symbol == symbol) j.stop_sell_obligations)
          ++ map (λ v. v.request_id) (unpaired_stop_requests j symbol))
      × (all adds_up vs ≡ true)
unfolding stop_obligation_views unpaired_stop_requests
stop_obligation_views_complete j symbol {vs} h = elim (Result-cases (portfolio j symbol)) [
  | inr (e, p) ↦ absurd (ground (arith, rw (p, stop_obligation_views) at h))
  | inl (position, p) ↦
      elim (Result-cases (obligation_views j symbol position j.stop_sell_obligations)) [
        | inr (e, q) ↦ absurd (ground (arith, rw (p, q, stop_obligation_views) at h))
        | inl (ws, q) ↦
            let (a, b) = obligation_views-eq_ok j symbol position j.stop_sell_obligations q in
            let rest = unpaired_stop_requests j symbol in
            let e : vs ≡ ws ++ rest = ground (arith, rw (p, q, stop_obligation_views) at h) in
            rw e (
              map-append (λ (v : StopObligationView). v.request_id) ws rest
                  ∙ ap (λ ids. ids ++ map (λ (v : StopObligationView). v.request_id) rest) a,
              all-append adds_up ws rest b (
                  all-pick (as_unpaired j symbol) adds_up (λ r v. as_unpaired-adds_up j symbol r)
                    j.requests),
            )
      ]
]
