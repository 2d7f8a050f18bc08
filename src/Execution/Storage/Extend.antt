-- ===== src/Execution/Storage/Extend.antt =====
-- What one insert does to the snapshots of all scopes.
use cherry_pulse_kr.Prelude.{
  ℕ, ◌+◌, ◌≡◌, refl, ap, ◌∙◌, true, false, List, [], ◌∷◌, ◌++◌, append_assoc, append-nil, arith,
  nat_eq, string_eq, decided_iff, length, length-append, any, pick-append, ok,
}
use cherry_pulse_kr.Execution.Models.{side_eq, environment_eq, Scope, StopQuoteCheckpoint}
use cherry_pulse_kr.Execution.Journal.{Journal, revision}
use cherry_pulse_kr.Execution.Storage.{
  Payload, Entry, Row, Database, OutboxRow, same_scope, clashes, payloads, read, insert, cursors,
  collect, added, Scope-discrete,
}

-- The journal with one more entry, at the end of the list of its kind.
abbrev pub extend : Journal → Payload → Journal
extend j (Payload.request x) = record j { requests = j.requests ++ x ∷ [] }
extend j (Payload.fact x) = record j { facts = j.facts ++ x ∷ [] }
extend j (Payload.allocation x) = record j { allocations = j.allocations ++ x ∷ [] }
extend j (Payload.control x) = record j { controls = j.controls ++ x ∷ [] }
extend j (Payload.config x) = record j { configs = j.configs ++ x ∷ [] }
extend j (Payload.stop_binding x) = record j { stop_bindings = j.stop_bindings ++ x ∷ [] }
extend j (Payload.stop_assignment x) = record j { stop_assignments = j.stop_assignments ++ x ∷ [] }
extend j (Payload.stop_latch x) = record j { stop_latches = j.stop_latches ++ x ∷ [] }
extend j (Payload.stop_sell_obligation x) = record j {
  stop_sell_obligations = j.stop_sell_obligations ++ x ∷ [];
}

same_scope_refl : (s : Scope) → same_scope s s ≡ true
same_scope_refl s = (decided_iff (Scope-discrete s s)).1 refl

payloads-append_own :
    (s : Scope) (e : Entry) (rows : List Row)
    → payloads s (rows ++ record { scope = s; entry = e } ∷ []) ≡ payloads s rows ++ e.payload ∷ []
payloads-append_own s e [] = rw (same_scope_refl s)
payloads-append_own s e (r ∷ rows) = ground (arith, payloads-append_own s e rows)

payloads-append_other :
    (s other : Scope) (e : Entry) (rows : List Row)
    → same_scope s other ≡ false
    → payloads other (rows ++ record { scope = s; entry = e } ∷ []) ≡ payloads other rows
payloads-append_other s other e [] h = rw h
payloads-append_other s other e (r ∷ rows) h =
    ground (arith, payloads-append_other s other e rows h)

pub revision-extend : (j : Journal) (p : Payload) → revision (extend j p) ≡ revision j + 1
unfolding revision
revision-extend j (Payload.request x) = omega (arith, length-append j.requests (x ∷ []))
revision-extend j (Payload.fact x) = omega (arith, length-append j.facts (x ∷ []))
revision-extend j (Payload.allocation x) = omega (arith, length-append j.allocations (x ∷ []))
revision-extend j (Payload.control x) = omega (arith, length-append j.controls (x ∷ []))
revision-extend j (Payload.config x) = omega (arith, length-append j.configs (x ∷ []))
revision-extend j (Payload.stop_binding x) = omega (arith, length-append j.stop_bindings (x ∷ []))
revision-extend j (Payload.stop_assignment x) =
    omega (arith, length-append j.stop_assignments (x ∷ []))
revision-extend j (Payload.stop_latch x) = omega (arith, length-append j.stop_latches (x ∷ []))
revision-extend j (Payload.stop_sell_obligation x) =
    omega (arith, length-append j.stop_sell_obligations (x ∷ []))

collect-append :
    (ps : List Payload) (qs : List StopQuoteCheckpoint) (p : Payload)
    → collect (ps ++ p ∷ []) qs ≡ extend (collect ps qs) p
collect-append ps qs (Payload.request x) = simp (pick-append, append-nil)
collect-append ps qs _ = simp (pick-append, append-nil)

insert-eq_ok :
    (s : Scope) (e : Entry) (db : Database) {db' : Database}
    → insert s e db ≡ ok db'
    → (any (clashes s e) db.journal ≡ false) × (db' ≡ added s e db)
unfolding insert
insert-eq_ok s e db h = ground arith

-- A successful insert extends the snapshot of its own scope by its payload.
pub read-insert :
    (s : Scope) (e : Entry) (db : Database) {db' : Database}
    → insert s e db ≡ ok db'
    → read s db' ≡ extend (read s db) e.payload
unfolding read
read-insert s e db h = rw (insert-eq_ok s e db h).1 (
    ap (λ ps. collect ps (cursors s db.stop_quote_cursors)) (payloads-append_own s e db.journal)
    ∙ collect-append (payloads s db.journal) _ e.payload)

-- An insert leaves the snapshots of the other scopes alone.
pub read-insert_other :
    (s other : Scope) (e : Entry) (db : Database) {db' : Database}
    → insert s e db ≡ ok db'
    → same_scope s other ≡ false
    → read other db' ≡ read other db
unfolding read
read-insert_other s other e db h ne = rw (insert-eq_ok s e db h).1 (
    ap (λ ps. collect ps (cursors other db.stop_quote_cursors))
      (payloads-append_other s other e db.journal ne))

-- The outbox that belongs to the rows, from the number n on.
abbrev pub published : ℕ → List Row → List OutboxRow
published n [] = []
published n (r ∷ rows) = record { seq = n; payload = r.entry.payload } ∷ published (n + 1) rows

published-append :
    (n : ℕ) (r : Row) (rows : List Row)
    → published n (rows ++ r ∷ [])
      ≡ published n rows ++ record { seq = length rows + n; payload = r.entry.payload } ∷ []
published-append n r [] = ground arith
published-append n r (x ∷ rows) = ground (arith, published-append (n + 1) r rows)

-- no row has the scope, kind and key of one before it
abbrev pub IsUnique : List Row → List Row → Type 0
IsUnique seen [] = Unit
IsUnique seen (r ∷ rows) =
    (any (clashes r.scope r.entry) seen ≡ false) × IsUnique (seen ++ r ∷ []) rows

IsUnique-append :
    (r : Row) (seen rows : List Row)
    → any (clashes r.scope r.entry) (seen ++ rows) ≡ false
    → IsUnique seen rows
    → IsUnique seen (rows ++ r ∷ [])
IsUnique-append r seen [] free h = (rw append-nil at free, tt)
IsUnique-append r seen (x ∷ rows) free (first, h) =
    (first, IsUnique-append r (seen ++ x ∷ []) rows (rw append_assoc free) h)

-- The outbox repeats the journal, numbered from one, and the keys are unique.
pub record IsConsistent (db : Database) : Type 0 where
  pub mirrored : db.outbox ≡ published 1 db.journal
  pub unique : IsUnique [] db.journal

pub insert-IsConsistent :
    (s : Scope) (e : Entry) (db : Database) {db' : Database}
    → insert s e db ≡ ok db'
    → IsConsistent db
    → IsConsistent db'
insert-IsConsistent s e db h c = rw (insert-eq_ok s e db h).1 (record {
  mirrored = rw (published-append, ← c.mirrored) refl;
  unique = IsUnique-append _ [] db.journal (insert-eq_ok s e db h).0 c.unique;
})
