-- ===== src/Store/Session/Triples.antt =====
-- What holds between the statements of a transaction, and is committed only as an invariant.
use voxellink_monitor.Common.{
  inl, inr, Bool, true, false, ◌||◌, ◌≡◌, refl, Result, ok, err, Bool-cases, if◌then◌else◌,
}
use voxellink_monitor.Store.Tables.{Db}
use voxellink_monitor.Store.Session.{
  Error, Session, Tx, pure, statement, query, change, begin, commit, continue, answer, next_fault,
  later_faults, ◌>>=◌, when,
}

-- Of a result and of what the transaction sees with it, if there is one.
abbrev pub Holds : {A : Type 0} → (A → Db → Type 0) → Result Error A → Db → Type 0
Holds Q (ok a) db = Q a db
Holds Q (err e) db = Unit

-- Of what a statement gives and leaves, if it succeeds.
abbrev pub Gives : {A : Type 0} → (A → Db → Type 0) → Result Error (A × Db) → Type 0
Gives Q (ok (a, db)) = Q a db
Gives Q (err e) = Unit

-- Where `I` holds of what is committed it stays so; and from `P` of what the transaction sees, a
-- success leads to `Q`.
pub record Triple {A : Type 0} (I P : Db → Type 0) (Q : A → Db → Type 0) (m : Tx A) : Type 0 where
  pub at :
      (s : Session) → I s.stored → P s.working → I (m s).1.stored × Holds Q (m s).0 (m s).1.working

-- Of no interest any more: the transaction is over.
abbrev pub Over : {A : Type 0} → A → Db → Type 0
Over a db = Unit

module _ {A : Type 0} (I : Db → Type 0) (Q : A → Db → Type 0) where
  given :
      (r : Result Error (A × Db)) (s : Session)
      → I s.stored
      → Gives Q r
      → I (answer r s).1.stored × Holds Q (answer r s).0 (answer r s).1.working
  given (ok (a, db)) s i g = (i, g)
  given (err e) s i g = (i, tt)

module _ {A : Type 0} {I P : Db → Type 0} {Q : A → Db → Type 0} where
  pub pure-Triple : (a : A) → ((db : Db) → P db → Q a db) → Triple I P Q (pure a)
  unfolding pure
  pure-Triple a f = record { at = λ s i p. (i, f s.working p) }

  pub statement-Triple :
      (f : Db → Result Error (A × Db))
      → ((db : Db) → P db → Gives Q (f db))
      → Triple I P Q (statement f)
  unfolding statement
  statement-Triple f give = record {
    at = λ s i p. elim (Bool-cases (s.aborted || next_fault s.faults)) [
      | inl e ↦ rw e (i, tt)
      | inr e ↦ rw e (
          given I Q (f s.working) (record s { faults = later_faults s.faults }) i
            (give s.working p))
    ];
  }

module _ {I P : Db → Type 0} {Q : Db → Type 0} where
  pub change-Triple :
      (f : Db → Db) → ((db : Db) → P db → Q (f db)) → Triple I P (λ _. Q) (statement (change f))
  change-Triple f lead = statement-Triple _ lead

module _ {A B : Type 0} (I : Db → Type 0) (R : A → Db → Type 0) (Q : B → Db → Type 0) where
  led_on :
      (r : Result Error A) (s : Session) (f : A → Tx B)
      → ((a : A) → Triple I (R a) Q (f a))
      → I s.stored
      → Holds R r s.working
      → I (continue (r, s) f).1.stored × Holds Q (continue (r, s) f).0 (continue (r, s) f).1.working
  led_on (ok a) s f tf i h = (tf a).at s i h
  led_on (err e) s f tf i h = (i, tt)

module _ {A B : Type 0} {I P : Db → Type 0} (R : A → Db → Type 0) {Q : B → Db → Type 0} where
  pub bind-Triple :
      (m : Tx A) (f : A → Tx B)
      → Triple I P R m
      → ((a : A) → Triple I (R a) Q (f a))
      → Triple I P Q (m >>= f)
  unfolding ◌>>=◌
  bind-Triple m f tm tf = record {
    at = λ s i p. let (r, s') = m s in let (i', h) = tm.at s i p in led_on I R Q r s' f tf i' h;
  }

module _ {I : Db → Type 0} where
  pub commit-Triple : {P : Db → Type 0} → ((db : Db) → P db → I db) → Triple I P Over commit
  unfolding commit
  commit-Triple keep = record {
    at = λ s i p. elim (Bool-cases (s.aborted || next_fault s.faults)) [
      | inl e ↦ rw e (i, tt)
      | inr e ↦ rw e (keep s.working p, tt)
    ];
  }

  pub when-Triple :
      {P : Db → Type 0} {Q : Unit {0} → Db → Type 0} (b : Bool) (m : Tx (Unit {0}))
      → (b ≡ true → Triple I P Q m)
      → (b ≡ false → (db : Db) → P db → Q tt db)
      → Triple I P Q (when b m)
  unfolding when pure
  when-Triple true m taken skipped = taken refl
  when-Triple false m taken skipped = record { at = λ s i p. (i, skipped refl s.working p) }

  -- A transaction that leads to its commit keeps the invariant.
  pub begun_with :
      {A : Type 0} (P : Db → Type 0) (f : Unit {0} → Tx A)
      → Triple I P Over (f tt)
      → (s : Session) → I s.stored
      → P s.stored
      → I ((begin >>= f) s).1.stored
  unfolding ◌>>=◌ begin
  begun_with P f tf s i p = elim (Bool-cases (next_fault s.faults)) [
    | inl e ↦ rw e i
    | inr e ↦ rw e (tf.at _ i p).0
  ]

  pub if-Triple :
      {A : Type 0} {P : Db → Type 0} {Q : A → Db → Type 0} (b : Bool) (m n : Tx A)
      → (b ≡ true → Triple I P Q m)
      → (b ≡ false → Triple I P Q n)
      → Triple I P Q (if b then m else n)
  if-Triple true m n tm tn = tm refl
  if-Triple false m n tm tn = tn refl

-- Actions that only read.
module _ {I P : Db → Type 0} {A : Type 0} where
  pub pure-reads : (a : A) → Triple I P (λ _. P) (pure a)
  pure-reads a = pure-Triple a (λ db p. p)

  pub query-reads : (f : Db → A) → Triple I P (λ _. P) (statement (query f))
  query-reads f = statement-Triple _ (λ db p. p)

  pub if-reads :
      (b : Bool) (m n : Tx A)
      → Triple I P (λ _. P) m
      → Triple I P (λ _. P) n
      → Triple I P (λ _. P) (if b then m else n)
  if-reads b m n tm tn = if-Triple b m n (λ _. tm) (λ _. tn)

  pub bind-reads :
      {B : Type 0} (m : Tx B) (f : B → Tx A)
      → Triple I P (λ _. P) m
      → ((b : B) → Triple I P (λ _. P) (f b))
      → Triple I P (λ _. P) (m >>= f)
  bind-reads m f tm tf = bind-Triple (λ _. P) m f tm tf

pub ruleset reads_rules = (pure-reads, query-reads, if-reads, bind-reads)
