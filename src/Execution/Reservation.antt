-- ===== src/Execution/Reservation.antt =====
-- What a new request does to the projections of execution/projection.py.
use cherry_pulse_kr.Prelude.{
  ℕ, ◌+◌, ◌≡◌, refl, ap, ◌∙◌, ◌⊎◌, inl, inr, Bool, true, false, ◌||◌, List, [], ◌∷◌, ◌++◌, arith,
  ◌==◌, nat_eq, string_eq, Bool-cases, Option-cases, ok, ◌>>=◌, Result-cases,
}
use cherry_pulse_kr.Prelude.Int.{◌+ℤ◌, ◌-ℤ◌}
use cherry_pulse_kr.Execution.Models.{
  Uuid, Key, Side, side_eq, environment_eq, New, OrderCommand, common, Request, StopSellObligation,
}
use cherry_pulse_kr.Execution.Journal.{Journal}
use cherry_pulse_kr.Execution.Outcomes.{
  RequestStatus, status, effect_settled, request_state, in_flight, is_change,
}
use cherry_pulse_kr.Execution.Projection.{Order, initial_request, project, order}
use cherry_pulse_kr.Execution.Portfolio.{
  Portfolio, Tally, tally_new, tally_sell, tally, scan, portfolio, start, report,
}
use cherry_pulse_kr.Execution.Storage.{Payload}
use cherry_pulse_kr.Execution.Storage.Extend.{extend}
use cherry_pulse_kr.Execution.FreshOrder.{
  IsFresh, initial_request-append_some, initial_request-append_none, quiet, status-fresh,
  order_of-fresh,
}

-- One more request leaves the other orders as they are.
order-extend :
    (j : Journal) (x : Request) (id : Uuid) {o : Order}
    → order j id ≡ ok o
    → order (extend j (Payload.request x)) id ≡ ok o
unfolding order status
order-extend j x id h = elim (Option-cases (initial_request id j.requests)) [
  | inl p ↦ absurd (ground (arith, rw p at h))
  | inr (y, p) ↦ rw (initial_request-append_some id j.requests (x ∷ []) p) (rw p at h)
]

tally-extend :
    (j : Journal) (x r : Request) (t : Tally) {u : Tally}
    → tally j r t ≡ ok u
    → tally (extend j (Payload.request x)) r t ≡ ok u
unfolding tally status request_state effect_settled
tally-extend j x r t {u} h = go r.command h
  where
    go :
        (c : OrderCommand)
        → tally j (record r { command = c }) t ≡ ok u
        → tally (extend j (Payload.request x)) (record r { command = c }) t ≡ ok u
    go (OrderCommand.new c) h = elim (Result-cases (order j r.order_id)) [
      | inl (o, p) ↦ rw (order-extend j x r.order_id p) (rw p at h)
      | inr (e, p) ↦ absurd (ground (arith, rw p at h))
    ]
    go (OrderCommand.amend c) h = h
    go (OrderCommand.cancel c) h = h

-- A round of the loop that returns, and the rest of it.
pub scan-cons :
    (j : Journal) (symbol : Key) (r : Request) (rs : List Request) (t : Tally) {u : Tally}
    → scan j symbol (r ∷ rs) t ≡ ok u
    → (((common r.command).symbol == symbol) ≡ false) × (scan j symbol rs t ≡ ok u)
      ⊎ (v : Tally) × (((common r.command).symbol == symbol) ≡ true)
        × (tally j r t ≡ ok v)
        × (scan j symbol rs v ≡ ok u)
unfolding scan
scan-cons j symbol r rs t {u} h = elim (Bool-cases ((common r.command).symbol == symbol)) [
  | inl same ↦ elim (Result-cases (tally j r t)) [
    | inl (v, p) ↦ inr (v, same, p, rw (same, p) at h)
    | inr (e, p) ↦ absurd (ground (arith, rw (same, p) at h))
  ]
  | inr other ↦ inl (other, rw other at h)
]

scan-extend :
    (j : Journal) (x : Request) (symbol : Key) (rs : List Request) (t : Tally) {u : Tally}
    → scan j symbol rs t ≡ ok u
    → scan (extend j (Payload.request x)) symbol rs t ≡ ok u
unfolding scan
scan-extend j x symbol [] t h = h
scan-extend j x symbol (r ∷ rs) t {u} h = elim (scan-cons j symbol r rs t h) [
  | inl (other, p) ↦ rw other (scan-extend j x symbol rs t p)
  | inr (v, same, p, q) ↦ rw (same, tally-extend j x r t p) (scan-extend j x symbol rs v q)
]

scan-append :
    (j : Journal) (symbol : Key) (rs ys : List Request) (t : Tally) {u : Tally}
    → scan j symbol rs t ≡ ok u
    → scan j symbol (rs ++ ys) t ≡ scan j symbol ys u
unfolding scan
scan-append j symbol [] ys t {u} h = let e : t ≡ u = ground arith in rw e refl
scan-append j symbol (r ∷ rs) ys t {u} h = elim (scan-cons j symbol r rs t h) [
  | inl (other, p) ↦ rw other (scan-append j symbol rs ys t p)
  | inr (v, same, p, q) ↦ rw (same, p) (scan-append j symbol rs ys v q)
]

-- A portfolio is the report of a tally over all requests.
pub portfolio-eq_ok :
    (j : Journal) (symbol : Key) {p : Portfolio}
    → portfolio j symbol ≡ ok p
    → (t : Tally) × (scan j symbol j.requests (start j symbol) ≡ ok t) × (p ≡ report j symbol t)
unfolding portfolio
portfolio-eq_ok j symbol {p} h = elim (Result-cases (scan j symbol j.requests (start j symbol))) [
  | inl (t, e) ↦ (t, e, ground (arith, rw e at h))
  | inr (x, e) ↦ absurd (ground (arith, rw e at h))
]

-- Such a request is in no state that makes the symbol's sells uncertain.
tally_sell-quiet :
    (j : Journal) (r : Request) (t : Tally)
    → status j r ≡ quiet
    → is_change r.command ≡ false
    → tally_sell j r t ≡ t
unfolding tally_sell request_state
tally_sell-quiet j r t q plain = ground (arith, ap (λ (s : RequestStatus). in_flight s.transport) q)

tally-new :
    (j : Journal) (r : Request) (c : New) (o : Order) (t : Tally)
    → r.command ≡ OrderCommand.new c
    → order j r.order_id ≡ ok o
    → tally j r t
      ≡ ok (
          tally_sell j r (
            tally_new c.side o (record t { discrepancy = t.discrepancy || (status j r).conflict })))
unfolding tally
tally-new j r c o t e h = rw (e, h) refl

order-fresh :
    (j : Journal) (r : Request) (c : New)
    → IsFresh j r.order_id r.request_id
    → r.command ≡ OrderCommand.new c
    → order (extend j (Payload.request r)) r.order_id ≡ ok (project r.order_id c quiet [] [] [])
unfolding order status
order-fresh j r c f e =
    let self : (r.order_id == r.order_id) ≡ true = (nat_eq.equal_iff _ _).1 refl in
    rw (initial_request-append_none r.order_id j.requests (r ∷ []) f.no_order) (
      rw (e, self)
        (ap ok
          (order_of-fresh (extend j (Payload.request r)) r c f.no_concern f.no_touch (rw e refl))))

-- what a fresh order of the side reserves
abbrev pub reserving : Side → ℕ → ℕ
reserving Side.buy qty = 0
reserving Side.sell qty = qty

-- all of a fresh order is open, and a sell reserves it
project-fresh :
    (id : Uuid) (c : New)
    → ((project id c quiet [] [] []).reserved ≡ reserving c.side c.qty)
      × ((project id c quiet [] [] []).filled ≡ 0)
      × ((project id c quiet [] [] []).reconciliation_required ≡ false)
unfolding project ◌+ℤ◌ ◌-ℤ◌
project-fresh id c = (ground arith, refl, ground arith)

tally_new-fresh :
    (side : Side) (o : Order) (t : Tally) (n : ℕ) (conflict : Bool)
    → o.reserved ≡ reserving side n
    → o.filled ≡ 0
    → o.reconciliation_required ≡ false
    → conflict ≡ false
    → tally_new side o (record t { discrepancy = t.discrepancy || conflict })
      ≡ record t { reserved = t.reserved + reserving side n }
unfolding tally_new ◌+ℤ◌ ◌-ℤ◌
tally_new-fresh Side.buy o t n conflict e f g h = ground arith
tally_new-fresh Side.sell o t n conflict e f g h = ground arith

-- The round of the loop for a fresh `New` request.
tally-fresh :
    (j : Journal) (r : Request) (c : New) (t : Tally)
    → IsFresh j r.order_id r.request_id
    → r.command ≡ OrderCommand.new c
    → tally (extend j (Payload.request r)) r t
      ≡ ok (record t { reserved = t.reserved + reserving c.side c.qty })
tally-fresh j r c t f e =
    let j' = extend j (Payload.request r) in
    let plain : is_change r.command ≡ false = rw e refl in
    let q : status j' r ≡ quiet = status-fresh j' r f.no_concern f.no_touch plain in
    tally-new j' r c _ t e (order-fresh j r c f e)
    ∙ ap ok (
        tally_sell-quiet j' r _ q plain
        ∙ tally_new-fresh c.side (project r.order_id c quiet [] [] []) t c.qty _
            (project-fresh r.order_id c).0 (project-fresh r.order_id c).1
            (project-fresh r.order_id c).2 (ap (λ (s : RequestStatus). s.conflict) q))

-- The portfolio of its symbol after a fresh request: a sell reserves its quantity, and nothing
-- else changes.
pub portfolio-fresh :
    (j : Journal) (r : Request) (c : New) {p : Portfolio}
    → IsFresh j r.order_id r.request_id
    → r.command ≡ OrderCommand.new c
    → portfolio j c.symbol ≡ ok p
    → (t : Tally) × (p ≡ report j c.symbol t)
      × (portfolio (extend j (Payload.request r)) c.symbol
          ≡ ok (report j c.symbol (record t { reserved = t.reserved + reserving c.side c.qty })))
unfolding portfolio start
portfolio-fresh j r c {p} f e h =
    let (t, q, k) = portfolio-eq_ok j c.symbol h in
    let same : ((common r.command).symbol == c.symbol) ≡ true =
      rw e ((string_eq.equal_iff _ _).1 refl) in
    let j' = extend j (Payload.request r) in
    let through =
      scan-append j' c.symbol j.requests (r ∷ []) (start j c.symbol)
        (scan-extend j r c.symbol j.requests (start j c.symbol) q) in
    (t, k, rw (through, same, tally-fresh j r c t f e) refl)

tally-obligation :
    (j : Journal) (b : StopSellObligation) (r : Request) (t : Tally)
    → tally (extend j (Payload.stop_sell_obligation b)) r t ≡ tally j r t
unfolding tally order status request_state effect_settled
tally-obligation j b r t = go r.command
  where
    go :
        (c : OrderCommand)
        → tally (extend j (Payload.stop_sell_obligation b)) (record r { command = c }) t
          ≡ tally j (record r { command = c }) t
    go (OrderCommand.new c) = refl
    go (OrderCommand.amend c) = refl
    go (OrderCommand.cancel c) = refl

scan-obligation :
    (j : Journal) (b : StopSellObligation) (symbol : Key) (rs : List Request) (t : Tally)
    → scan (extend j (Payload.stop_sell_obligation b)) symbol rs t ≡ scan j symbol rs t
unfolding scan
scan-obligation j b symbol [] t = refl
scan-obligation j b symbol (r ∷ rs) t = elim (Bool-cases ((common r.command).symbol == symbol)) [
  | inl same ↦
      rw (same, tally-obligation j b r t)
        (elim (Result-cases (tally j r t)) [
          | inl (v, p) ↦ rw p (scan-obligation j b symbol rs v)
          | inr (e, p) ↦ rw p refl
        ])
  | inr other ↦ rw other (scan-obligation j b symbol rs t)
]

-- An obligation is no part of what a portfolio counts.
pub portfolio-obligation :
    (j : Journal) (b : StopSellObligation) (symbol : Key)
    → portfolio (extend j (Payload.stop_sell_obligation b)) symbol ≡ portfolio j symbol
unfolding portfolio
portfolio-obligation j b symbol =
    ap (λ m. m >>= λ t. ok (report j symbol t))
      (scan-obligation j b symbol j.requests (start j symbol))
