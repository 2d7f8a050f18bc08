-- ===== src/Execution/History.antt =====
-- The journal as methods change it: extensions, and what a method that returns has done.
use cherry_pulse_kr.Prelude.{
  ◌≡◌, refl, ◌∙◌, inl, inr, Bool, true, false, arith, if◌then◌else◌, nat_eq, string_eq, ok, err,
  Result-cases, raise_if,
}
use cherry_pulse_kr.Execution.Models.{LedgerError, Raises, side_eq, environment_eq, Scope}
use cherry_pulse_kr.Execution.Journal.{Journal}
use cherry_pulse_kr.Execution.Lease.{require_ready, require_ready, operation}
use cherry_pulse_kr.Execution.Storage.{
  insert, Database, Payload, Entry, Database, same_scope, read, insert,
}
use cherry_pulse_kr.Execution.Transaction.{
  Store, Method, pure, raise, lift, transaction, read_journal, append_entry, ensure_ready, ◌>>=◌,
}
use cherry_pulse_kr.Execution.Storage.Extend.{
  extend, read-insert, read-insert_other, insert-IsConsistent, IsConsistent,
}

-- the snapshot that a method reads
unfoldable pub journal_of : Store → Journal
unfolding read
journal_of s = read s.lease.scope s.db

-- One journal is another with entries added one after the other.
pub data Extends (j : Journal) : Journal → Type 0 where
  here : Extends j j
  more : {k l : Journal} (p : Payload) → Extends j k → l ≡ extend k p → Extends j l

pub Extends-trans : {j k l : Journal} → Extends j k → Extends k l → Extends j l
Extends-trans h here = h
Extends-trans h (more p g e) = more p (Extends-trans h g) e

-- What a method that returns has done to the store.
pub record Grown (s s' : Store) : Type 0 where
  pub lease : s'.lease ≡ s.lease
  pub process : s'.process ≡ s.process
  pub entries : Extends (journal_of s) (journal_of s')
  pub consistent : IsConsistent s.db → IsConsistent s'.db
  pub others :
      (other : Scope) → same_scope s.lease.scope other ≡ false → read other s'.db ≡ read other s.db

pub Grown-refl : (s : Store) → Grown s s
Grown-refl s = record {
  lease = refl;
  process = refl;
  entries = Extends.here;
  consistent = λ h. h;
  others = λ o h. refl;
}

pub Grown-same : {s s' : Store} → s' ≡ s → Grown s s'
Grown-same {s} e = rw e (Grown-refl s)

pub Grown-trans : {s t u : Store} → Grown s t → Grown t u → Grown s u
Grown-trans g h = record {
  lease = h.lease ∙ g.lease;
  process = h.process ∙ g.process;
  entries = Extends-trans g.entries h.entries;
  consistent = λ c. h.consistent (g.consistent c);
  others = λ o e. h.others o (rw g.lease e) ∙ g.others o e;
}

-- The method only adds entries.
pub record Grows {A : Type 0} (m : Method A) : Type 0 where
  pub at : (s : Store) {a : A} {s' : Store} → m s ≡ ok (a, s') → Grown s s'

module _ {A : Type 0} where
  pub Grows-pure : (a : A) → Grows (pure a)
  Grows-pure a = record { at = λ s h. Grown-same (ground arith) }

  pub Grows-raise : (e : LedgerError) → Grows (raise {A = A} e)
  Grows-raise e = record { at = λ s h. cc }

  pub Grows-lift : (r : Raises A) → Grows (lift r)
  Grows-lift (ok a) = Grows-pure a
  Grows-lift (err e) = Grows-raise e

  pub Grows-if : (b : Bool) (m n : Method A) → Grows m → Grows n → Grows (if b then m else n)
  Grows-if true m n g h = g
  Grows-if false m n g h = h

  -- what a replay test does with a recorded value
  pub Grows-replay :
      (b : Bool) (a : A) (e : LedgerError) → Grows (λ s. if b then ok (a, s) else err e)
  Grows-replay true a e = Grows-pure a
  Grows-replay false a e = Grows-raise e

  pub Grows-transaction : (m : Method A) → Grows m → Grows (transaction m)
  unfolding transaction
  Grows-transaction m g = record { at = λ s {a} {s'} h. g.at s {a = a} {s' = s'} (ground arith) }

module _ {A : Type 0} where
  -- In a session that the process owns a transaction is its body.
  pub transaction_owned :
      (m : Method A) (s : Store) → operation s.lease s.process ≡ ok tt → transaction m s ≡ m s
  unfolding transaction
  transaction_owned m s own = rw (own, transaction)

  -- A transaction that returns ran in such a session.
  pub transaction-eq_ok :
      (m : Method A) (s : Store) {p : A × Store}
      → transaction m s ≡ ok p
      → (operation s.lease s.process ≡ ok tt) × (m s ≡ ok p)
  unfolding transaction
  transaction-eq_ok m s h = elim (Result-cases (operation s.lease s.process)) [
    | inl (u, own) ↦ (own, rw (own, transaction) at h)
    | inr (e, p) ↦ absurd (ground (arith, rw (p, transaction) at h))
  ]

pub append_entry-eq_ok :
    (e : Entry) (s : Store) {u : Unit {0}} {s' : Store}
    → append_entry e s ≡ ok (u, s')
    → (db : Database) × (insert s.lease.scope e s.db ≡ ok db) × (s' ≡ record s { db = db })
unfolding append_entry
append_entry-eq_ok e s h = elim (Result-cases (insert s.lease.scope e s.db)) [
  | inl (db, p) ↦ (db, p, ground arith)
  | inr (x, p) ↦ absurd (ground arith)
]

-- The snapshot after an append.
pub append_entry-extend :
    (e : Entry) (s : Store) {u : Unit {0}} {s' : Store}
    → append_entry e s ≡ ok (u, s')
    → journal_of s' ≡ extend (journal_of s) e.payload
unfolding journal_of
append_entry-extend e s h =
    let (db, p, q) = append_entry-eq_ok e s h in rw q (read-insert s.lease.scope e s.db p)

pub lift-eq_ok :
    {A : Type 0} (r : Raises A) (s : Store) {a : A} {s' : Store}
    → lift r s ≡ ok (a, s')
    → (r ≡ ok a) × (s' ≡ s)
lift-eq_ok (ok b) s h = ground arith
lift-eq_ok (err e) s h = cc

pub ensure_ready-eq_ok :
    (s : Store) {u : Unit {0}} {s' : Store}
    → ensure_ready s ≡ ok (u, s')
    → (require_ready s.lease s.process ≡ ok u) × (s' ≡ s)
unfolding ensure_ready
ensure_ready-eq_ok s h = lift-eq_ok (require_ready s.lease s.process) s h

pub read_journal-eq_ok :
    (s : Store) {j : Journal} {s' : Store}
    → read_journal s ≡ ok (j, s')
    → (j ≡ journal_of s) × (s' ≡ s)
unfolding read_journal journal_of
read_journal-eq_ok s h = (ground arith, ground arith)

-- The same facts forwards.
pub lift-ok : {A : Type 0} (r : Raises A) (s : Store) {a : A} → r ≡ ok a → lift r s ≡ ok (a, s)
lift-ok r s h = rw h refl

pub ensure_ready-ok :
    (s : Store) → require_ready s.lease s.process ≡ ok tt → ensure_ready s ≡ ok (tt, s)
unfolding ensure_ready
ensure_ready-ok s h = lift-ok (require_ready s.lease s.process) s h

pub read_journal-ok : (s : Store) → read_journal s ≡ ok (journal_of s, s)
unfolding read_journal journal_of
read_journal-ok s = refl

pub raise_if-eq_ok : (b : Bool) (e : LedgerError) {u : Unit {0}} → raise_if b e ≡ ok u → b ≡ false
raise_if-eq_ok b e h = ground arith

pub Grown-append_entry :
    (e : Entry) (s : Store) {u : Unit {0}} {s' : Store} → append_entry e s ≡ ok (u, s') → Grown s s'
unfolding journal_of
Grown-append_entry e s h =
    let (db, p, q) = append_entry-eq_ok e s h in
    rw q (record {
      lease = refl;
      process = refl;
      entries = Extends.more e.payload Extends.here (read-insert s.lease.scope e s.db p);
      consistent = insert-IsConsistent s.lease.scope e s.db p;
      others = λ o ne. read-insert_other s.lease.scope o e s.db p ne;
    })

pub Grows-append_entry : (e : Entry) → Grows (append_entry e)
Grows-append_entry e = record { at = Grown-append_entry e }

pub Grows-ensure_ready : Grows ensure_ready
unfolding ensure_ready
Grows-ensure_ready = record { at = λ s. (Grows-lift (require_ready s.lease s.process)).at s }

pub Grows-read_journal : Grows read_journal
unfolding read_journal
Grows-read_journal = record { at = λ s h. Grown-same (ground arith) }

module _ {A B : Type 0} where
  pub bind-eq_ok :
      (m : Method A) (f : A → Method B) (s : Store) {b : B} {t : Store}
      → (m >>= f) s ≡ ok (b, t)
      → (a : A) × (s' : Store) × (m s ≡ ok (a, s')) × (f a s' ≡ ok (b, t))
  bind-eq_ok m f s h = elim (Result-cases (m s)) [
    | inl ((a, s'), p) ↦ (a, s', p, rw (p, ◌>>=◌) at h)
    | inr (x, p) ↦ absurd (ground arith)
  ]

  pub bind-ok :
      (m : Method A) (f : A → Method B) (s : Store) {a : A} {s' : Store}
      → m s ≡ ok (a, s')
      → (m >>= f) s ≡ f a s'
  bind-ok m f s h = rw (◌>>=◌, h) refl

  pub Grows-bind :
      (m : Method A) (f : A → Method B) → Grows m → ((a : A) → Grows (f a)) → Grows (m >>= f)
  Grows-bind m f g h = record {
    at = λ s e. let (a, s', p, q) = bind-eq_ok m f s e in Grown-trans (g.at s p) ((h a).at s' q);
  }

pub ruleset grow_rules = (
  Grows-pure, Grows-raise, Grows-lift, Grows-if, Grows-transaction, Grows-append_entry,
  Grows-ensure_ready, Grows-read_journal, Grows-bind,
)
