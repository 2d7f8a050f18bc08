-- ===== src/Contracts/Moves.antt =====
-- contracts/inbox.py: the states of the local application of a row, and tables that grow.
use cherry_pulse_kr.Prelude.{
  ◌≡◌, refl, subst, inl, inr, Bool, true, false, Option, none, some, ◌≢◌, List, [], ◌∷◌, ◌++◌,
  arith, nat_eq, string_eq, Bool-cases, any, find?,
}
use cherry_pulse_kr.Execution.Models.{Uuid, environment_eq}
use cherry_pulse_kr.Contracts.Inbox.{ApplyState, ApplyReason, ConfigRow, row_accepted, has_id}
use cherry_pulse_kr.Contracts.Application.{set_state, set_applied, starts, is_legacy, update_id}

-- An application that may begin: it has not begun before, or it was blocked, is retried, and the
-- block is not that of a command from before senders were authenticated.
pub data Startable (retry : Bool) (r : ConfigRow) : Type 0 where
  unapplied : r.apply_state ≡ ApplyState.not_applied → Startable retry r
  retried :
      r.apply_state ≡ ApplyState.apply_blocked
      → retry ≡ true
      → r.apply_reason ≢ some ApplyReason.legacy_authentication_unverified
      → Startable retry r

not_legacy :
    (x : Option ApplyReason)
    → x ≢ some ApplyReason.legacy_authentication_unverified
    → is_legacy x ≡ false
not_legacy none h = refl
not_legacy (some ApplyReason.legacy_authentication_unverified) h = absurd (h refl)
not_legacy (some _) h = refl

is_legacy-ne :
    (x : Option ApplyReason)
    → is_legacy x ≡ false
    → x ≢ some ApplyReason.legacy_authentication_unverified
is_legacy-ne x h e = ground (arith, rw e at h)

state_Startable :
    (retry : Bool) (r : ConfigRow) (q : ApplyState)
    → r.apply_state ≡ q
    → starts retry r ≡ true
    → Startable retry r
state_Startable retry r ApplyState.not_applied s h = Startable.unapplied s
state_Startable retry r ApplyState.applying s h = absurd (ground (arith, rw (starts, s) at h))
state_Startable retry r ApplyState.applied s h = absurd (ground (arith, rw (starts, s) at h))
state_Startable retry r ApplyState.apply_blocked s h =
    Startable.retried s (ground (arith, rw (starts, s) at h))
      (is_legacy-ne r.apply_reason (ground (arith, rw (starts, s) at h)))

pub starts-Startable : (retry : Bool) (r : ConfigRow) → starts retry r ≡ true → Startable retry r
starts-Startable retry r h = state_Startable retry r r.apply_state refl h

pub Startable-starts : (retry : Bool) (r : ConfigRow) → Startable retry r → starts retry r ≡ true
Startable-starts retry r (Startable.unapplied s) = rw (starts, s) refl
Startable-starts retry r (Startable.retried s on other) =
    rw (starts, s, on, not_legacy r.apply_reason other) refl

-- The changes that an accepted row may go through.
pub data Moves (r : ConfigRow) : ConfigRow → Type 0 where
  begins :
      {r' : ConfigRow} (retry : Bool)
      → Startable retry r
      → r' ≡ set_state ApplyState.applying none r
      → Moves r r'
  halts :
      {r' : ConfigRow} (reason : ApplyReason)
      → r.apply_state ≡ ApplyState.applying
      → r' ≡ set_state ApplyState.apply_blocked (some reason) r
      → Moves r r'
  completes :
      {r' : ConfigRow}
      → r.apply_state ≡ ApplyState.applying
      → r' ≡ set_applied r.payload.settings.version r
      → Moves r r'

pub data Reaches (r : ConfigRow) : ConfigRow → Type 0 where
  here : Reaches r r
  more : {s t : ConfigRow} → Reaches r s → row_accepted s ≡ true → Moves s t → Reaches r t

pub Reaches-trans : {r s t : ConfigRow} → Reaches r s → Reaches s t → Reaches r t
Reaches-trans h here = h
Reaches-trans h (more g a m) = more (Reaches-trans h g) a m

-- Rows that reach others, with rows added behind.
pub data Evolves : List ConfigRow → List ConfigRow → Type 0 where
  grown : (rows : List ConfigRow) → Evolves [] rows
  kept :
      {r r' : ConfigRow} {rows rows' : List ConfigRow}
      → Reaches r r'
      → Evolves rows rows'
      → Evolves (r ∷ rows) (r' ∷ rows')

pub Evolves-refl : (rows : List ConfigRow) → Evolves rows rows
Evolves-refl [] = grown []
Evolves-refl (r ∷ rows) = kept Reaches.here (Evolves-refl rows)

pub Evolves-append : (rows new : List ConfigRow) → Evolves rows (rows ++ new)
Evolves-append [] new = grown new
Evolves-append (r ∷ rows) new = kept Reaches.here (Evolves-append rows new)

pub Evolves-trans : {a b c : List ConfigRow} → Evolves a b → Evolves b c → Evolves a c
Evolves-trans (grown rows) h = grown _
Evolves-trans (kept g gs) (kept h hs) = kept (Reaches-trans g h) (Evolves-trans gs hs)

-- no two rows have one command
abbrev pub IsDistinct : List ConfigRow → Type 0
IsDistinct [] = Unit
IsDistinct (r ∷ rows) = (any (has_id r.command_id) rows ≡ false) × IsDistinct rows

pub update_id-absent :
    (id : Uuid) (f : ConfigRow → ConfigRow) (rows : List ConfigRow)
    → any (has_id id) rows ≡ false
    → update_id id f rows ≡ rows
update_id-absent id f [] h = refl
update_id-absent id f (r ∷ rows) h = ground (arith, update_id-absent id f rows)

-- An update of the row that the query found changes that row alone.
pub update_id-Evolves :
    (id : Uuid) (f : ConfigRow → ConfigRow) (rows : List ConfigRow) {r : ConfigRow}
    → IsDistinct rows
    → find? (has_id id) rows ≡ some r
    → row_accepted r ≡ true
    → Moves r (f r)
    → Evolves rows (update_id id f rows)
update_id-Evolves id f [] d h a m = cc
update_id-Evolves id f (x ∷ rows) {r} (d, ds) h a m = elim (Bool-cases (has_id id x)) [
  | inl same ↦
      let e : x.command_id ≡ id = (nat_eq.equal_iff _ _).0 same in
      let x_r : r ≡ x = ground (arith, rw same at h) in
      rw (same, update_id-absent id f rows (rw (← e) d))
        (kept (Reaches.more Reaches.here (rw x_r at a) (subst (λ y. Moves y (f y)) x_r m))
          (Evolves-refl rows))
  | inr differs ↦
      rw differs (kept Reaches.here (update_id-Evolves id f rows ds (rw differs at h) a m))
]

-- all rows have a property
abbrev pub All : (ConfigRow → Type 0) → List ConfigRow → Type 0
All P [] = Unit
All P (r ∷ rows) = P r × All P rows

pub All-append :
    (P : ConfigRow → Type 0) (rows : List ConfigRow) (new : ConfigRow)
    → All P rows
    → P new
    → All P (rows ++ new ∷ [])
All-append P [] new s n = (n, tt)
All-append P (r ∷ rows) new (s, ss) n = (s, All-append P rows new ss n)

pub All-map :
    (P Q : ConfigRow → Type 0) (rows : List ConfigRow)
    → ((r : ConfigRow) → P r → Q r)
    → All P rows
    → All Q rows
All-map P Q [] f s = tt
All-map P Q (r ∷ rows) f (s, ss) = (f r s, All-map P Q rows f ss)

pub All-find? :
    (P : ConfigRow → Type 0) (p : ConfigRow → Bool) (rows : List ConfigRow) {r : ConfigRow}
    → All P rows
    → find? p rows ≡ some r
    → P r
All-find? P p [] s h = cc
All-find? P p (x ∷ rows) {r} (s, ss) h = elim (Bool-cases (p x)) [
  | inl hit ↦ let x_r : x ≡ r = ground (arith, rw hit at h) in subst P x_r s
  | inr miss ↦ All-find? P p rows ss (rw miss at h)
]

-- An update of the row that the query found keeps a property that it keeps of that row.
pub update_id-All :
    (P : ConfigRow → Type 0) (id : Uuid) (f : ConfigRow → ConfigRow) (rows : List ConfigRow)
    {r : ConfigRow}
    → IsDistinct rows
    → find? (has_id id) rows ≡ some r
    → (P r → P (f r))
    → All P rows
    → All P (update_id id f rows)
update_id-All P id f [] d h g s = tt
update_id-All P id f (x ∷ rows) {r} (d, ds) h g (s, ss) = elim (Bool-cases (has_id id x)) [
  | inl same ↦
      let e : x.command_id ≡ id = (nat_eq.equal_iff _ _).0 same in
      let x_r : r ≡ x = ground (arith, rw same at h) in
      rw (same, update_id-absent id f rows (rw (← e) d)) (subst (λ y. P y → P (f y)) x_r g s, ss)
  | inr differs ↦ rw differs (s, update_id-All P id f rows ds (rw differs at h) g ss)
]
