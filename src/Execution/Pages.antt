-- ===== src/Execution/Pages.antt =====
-- Paged queries of execution/query_evidence.py: which pages were received.
use cherry_pulse_kr.Prelude.{
  ℕ, zero, suc, ◌+◌, ◌≤◌, ◌<◌, ◌≡◌, refl, subst, inl, inr, Bool, true, false, not, ◌&&◌, List, [],
  ◌∷◌, arith, ltb, leb, ◌==◌, nat_eq, string_eq, Bool-cases, length, any, all, keep,
}
use cherry_pulse_kr.Execution.Models.{side_eq, environment_eq}
use cherry_pulse_kr.Execution.Query.{QueryPages, distinct, pages_complete}

-- No page is there twice.
abbrev pub is_distinct : List ℕ → Bool
is_distinct [] = true
is_distinct (x ∷ xs) = not (any (λ y. y == x) xs) && is_distinct xs

length-distinct : (xs : List ℕ) → length (distinct xs) ≤ length xs
length-distinct [] = omega arith
length-distinct (x ∷ xs) = ground (arith, length-distinct xs)

-- A list that loses nothing has no repetition.
distinct_full : (xs : List ℕ) → length (distinct xs) ≡ length xs → is_distinct xs ≡ true
distinct_full [] h = refl
distinct_full (x ∷ xs) h = ground (arith, distinct_full xs, length-distinct xs)

is_distinct-length : (xs : List ℕ) → is_distinct xs ≡ true → length (distinct xs) ≡ length xs
is_distinct-length [] h = refl
is_distinct-length (x ∷ xs) h = ground (arith, is_distinct-length xs)

-- without a number
abbrev without : ℕ → List ℕ → List ℕ
without n xs = keep (λ y. not (y == n)) xs

without_absent : (n : ℕ) (xs : List ℕ) → any (λ y. y == n) xs ≡ false → without n xs ≡ xs
without_absent n [] h = refl
without_absent n (x ∷ xs) h = ground (arith, without_absent n xs)

any-without :
    (m n : ℕ) (xs : List ℕ)
    → any (λ y. y == m) xs ≡ false
    → any (λ y. y == m) (without n xs) ≡ false
any-without m n [] h = refl
any-without m n (x ∷ xs) h = ground (arith, any-without m n xs)

without-IsDistinct :
    (n : ℕ) (xs : List ℕ) → is_distinct xs ≡ true → is_distinct (without n xs) ≡ true
without-IsDistinct n [] h = refl
without-IsDistinct n (x ∷ xs) h = ground (arith, without-IsDistinct n xs, any-without x n xs)

length-without :
    (n : ℕ) (xs : List ℕ) → is_distinct xs ≡ true → length xs ≤ length (without n xs) + 1
length-without n [] h = omega arith
length-without n (x ∷ xs) h = elim (Bool-cases (x == n)) [
  | inl same ↦
      let e : x ≡ n = (nat_eq.equal_iff _ _).0 same in
      let alone : any (λ y. y == x) xs ≡ false = ground (arith, h) in
      let absent : any (λ y. y == n) xs ≡ false =
        subst (λ m. any (λ y. y == m) xs ≡ false) e alone in
      rw (same, without_absent n xs absent) (omega arith)
  | inr other ↦ rw other (ground (arith, length-without n xs))
]

-- the pages from 1 to `n`
abbrev pub is_page : ℕ → ℕ → Bool
is_page n p = ltb 0 p && leb p n

all-without :
    (n : ℕ) (xs : List ℕ)
    → all (is_page (suc n)) xs ≡ true
    → all (is_page n) (without (suc n) xs) ≡ true
all-without n [] h = refl
all-without n (x ∷ xs) h = ground (arith, all-without n xs)

-- There are `n` distinct pages at most.
pages_bound :
    (n : ℕ) (xs : List ℕ) → is_distinct xs ≡ true → all (is_page n) xs ≡ true → length xs ≤ n
pages_bound zero [] g h = omega arith
pages_bound zero (x ∷ xs) g h = ground arith
pages_bound (suc n) xs g h = ground (
  arith,
  length-without (suc n) xs g,
  pages_bound n (without (suc n) xs) (without-IsDistinct (suc n) xs g) (all-without n xs h),
)

all-within :
    (n : ℕ) (xs : List ℕ)
    → all (λ p. ltb 0 p) xs ≡ true
    → all (λ p. leb p n) xs ≡ true
    → all (is_page n) xs ≡ true
all-within n [] g h = refl
all-within n (x ∷ xs) g h = ground (arith, all-within n xs)

-- When a paged query with positive page numbers counts as complete, no page was received twice
-- and every page from the first to the last expected one was received.
pub pages_complete-covers :
    (q : QueryPages)
    → all (λ p. ltb 0 p) q.received_pages ≡ true
    → pages_complete q ≡ true
    → (is_distinct q.received_pages ≡ true)
      × ((n : ℕ) → 0 < n → n ≤ q.expected_pages → any (λ p. p == n) q.received_pages ≡ true)
unfolding pages_complete
pages_complete-covers q positive h =
    let one : is_distinct q.received_pages ≡ true =
      distinct_full q.received_pages (ground (arith, h)) in
    let within : all (λ p. leb p q.expected_pages) q.received_pages ≡ true = ground (arith, h) in
    let pages = all-within q.expected_pages q.received_pages positive within in
    let count : length q.received_pages ≡ q.expected_pages = ground (arith, h) in
    (
      one,
      λ n low high. elim (Bool-cases (any (λ p. p == n) q.received_pages)) [
        | inl there ↦ there
        | inr missing ↦ absurd (ground (arith, pages_bound q.expected_pages (n ∷ q.received_pages)))
      ],
    )
