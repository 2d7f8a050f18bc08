-- ===== src/Execution/Query.antt =====
-- execution/query_evidence.py: when the pages of a query, and four queries together, are complete.
use cherry_pulse_kr.Prelude.{
  ℕ, Bool, not, ◌&&◌, Option, List, [], ◌∷◌, leb, if◌then◌else◌, ◌==◌, nat_eq, string_eq, length,
  any, all,
}
use cherry_pulse_kr.Execution.Models.{Uuid, Key, Timestamp, side_eq, environment_eq, is_some}

pub record QueryPages : Type 0 where
  pub expected_pages : ℕ
  pub received_pages : List ℕ
  pub finished : Bool
  pub error : Option Key

-- `set(xs)`
abbrev pub distinct : List ℕ → List ℕ
distinct [] = []
distinct (x ∷ xs) = if any (λ y. y == x) xs then distinct xs else x ∷ distinct xs

unfoldable pub pages_complete : QueryPages → Bool
pages_complete q =
    q.finished
    && not (is_some q.error)
    && length q.received_pages == q.expected_pages
    && length (distinct q.received_pages) == q.expected_pages
    && all (λ page. leb page q.expected_pages) q.received_pages

pub record QueryEvidence : Type 0 where
  pub query_id : Uuid
  pub started_at : Timestamp
  pub finished_at : Timestamp
  pub revision_at_start : ℕ
  pub revision_at_finish : ℕ
  pub observed_managed : ℕ
  pub orders : QueryPages
  pub fills : QueryPages
  pub open_orders : QueryPages
  pub balances : QueryPages

unfoldable pub query_complete : QueryEvidence → Bool
unfolding pages_complete
query_complete q =
    leb q.started_at q.finished_at
    && q.revision_at_start == q.revision_at_finish
    && all pages_complete (q.orders ∷ q.fills ∷ q.open_orders ∷ q.balances ∷ [])
