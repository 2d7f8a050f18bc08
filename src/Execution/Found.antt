-- ===== src/Execution/Found.antt =====
-- Lookups in a journal and in those that extend it (execution/storage.py).
use cherry_pulse_kr.Prelude.{
  ◌≡◌, refl, sym, ◌≢◌, inl, inr, Bool, true, false, some, [], ◌∷◌, ◌++◌, append-nil, ◌==◌, nat_eq,
  string_eq, decided_iff, Bool-cases, find?, find?-append_some, pick,
}
use cherry_pulse_kr.Execution.Models.{
  Key, side_eq, environment_eq, OrderCommand, Request, OrderCommand-discrete, same_command,
}
use cherry_pulse_kr.Execution.Facts.{Fact}
use cherry_pulse_kr.Execution.Journal.{Journal}
use cherry_pulse_kr.Execution.Storage.{Payload, as_request, as_fact}
use cherry_pulse_kr.Execution.Storage.Extend.{extend}
use cherry_pulse_kr.Execution.History.{Extends}

pub requests-extend :
    (j : Journal) (p : Payload) → (extend j p).requests ≡ j.requests ++ pick as_request (p ∷ [])
requests-extend j (Payload.request x) = refl
requests-extend j _ = sym (append-nil j.requests)

pub facts-extend :
    (j : Journal) (p : Payload) → (extend j p).facts ≡ j.facts ++ pick as_fact (p ∷ [])
facts-extend j (Payload.fact x) = refl
facts-extend j _ = sym (append-nil j.facts)

-- What was found in a journal is found in each that extends it.
pub find?-requests_Extends :
    (p : Request → Bool) {j k : Journal} {r : Request}
    → Extends j k
    → find? p j.requests ≡ some r
    → find? p k.requests ≡ some r
find?-requests_Extends p Extends.here h = h
find?-requests_Extends p (Extends.more {k = k} x g e) h =
    rw (e, requests-extend) (find?-append_some p k.requests _ (find?-requests_Extends p g h))

pub find?-facts_Extends :
    (p : Fact → Bool) {j k : Journal} {f : Fact}
    → Extends j k
    → find? p j.facts ≡ some f
    → find? p k.facts ≡ some f
find?-facts_Extends p Extends.here h = h
find?-facts_Extends p (Extends.more {k = k} x g e) h =
    rw (e, facts-extend) (find?-append_some p k.facts _ (find?-facts_Extends p g h))

pub same_command_refl : (c : OrderCommand) → same_command c c ≡ true
same_command_refl c = (decided_iff (OrderCommand-discrete c c)).1 refl

pub same_command-ne : (a b : OrderCommand) → a ≢ b → same_command a b ≡ false
same_command-ne a b h = elim (Bool-cases (same_command a b)) [
  | inl same ↦ absurd (h ((decided_iff (OrderCommand-discrete a b)).0 same))
  | inr other ↦ other
]

pub key_refl : (k : Key) → (k == k) ≡ true
key_refl k = (string_eq.equal_iff k k).1 refl
