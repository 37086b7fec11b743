-- ===== src/Store/Session/Invariants.antt =====
-- What every statement of a transaction keeps holds of the database afterwards, whichever calls
-- fail.
use voxellink_monitor.Common.{inl, inr, Bool, true, false, ◌||◌, Result, ok, err, Bool-cases}
use voxellink_monitor.Store.Tables.{Db}
use voxellink_monitor.Store.Session.{
  Error, Session, Tx, pure, statement, alone, begin, commit, continue, answer, answer_alone,
  next_fault, later_faults, ◌>>=◌, when,
}

-- Of the database that a statement leaves, if it succeeds.
abbrev pub Leaves {ℓ} : {A : Type ℓ} → (Db → Type 0) → Result Error (A × Db) → Type 0
Leaves P (ok (a, db)) = P db
Leaves P (err e) = Unit

-- `P` holds of what is committed and of what the transaction sees.
pub record Maintains {ℓ} {A : Type ℓ} (P : Db → Type 0) (m : Tx A) : Type ℓ where
  pub at : (s : Session) → P s.stored → P s.working → P (m s).1.stored × P (m s).1.working

module _ {ℓ} {A : Type ℓ} (P : Db → Type 0) where
  answered :
      (r : Result Error (A × Db)) (s : Session)
      → P s.stored
      → P s.working
      → Leaves P r
      → P (answer r s).1.stored × P (answer r s).1.working
  answered (ok (a, db)) s h k l = (h, l)
  answered (err e) s h k l = (h, k)

  answered_alone :
      (r : Result Error (A × Db)) (s : Session)
      → P s.stored
      → P s.working
      → Leaves P r
      → P (answer_alone r s).1.stored × P (answer_alone r s).1.working
  answered_alone (ok (a, db)) s h k l = (l, k)
  answered_alone (err e) s h k l = (h, k)

module _ {ℓ} {A : Type ℓ} {P : Db → Type 0} where
  pub pure-Maintains : (a : A) → Maintains P (pure a)
  unfolding pure
  pure-Maintains a = record { at = λ s h k. (h, k) }

  pub statement-Maintains :
      (f : Db → Result Error (A × Db))
      → ((db : Db) → P db → Leaves P (f db))
      → Maintains P (statement f)
  unfolding statement
  statement-Maintains f keep = record {
    at = λ s h k. elim (Bool-cases (s.aborted || next_fault s.faults)) [
      | inl e ↦ rw e (h, k)
      | inr e ↦ rw e (
          answered P (f s.working) (record s { faults = later_faults s.faults }) h k
            (keep s.working k))
    ];
  }

  pub alone-Maintains :
      (f : Db → Result Error (A × Db))
      → ((db : Db) → P db → Leaves P (f db))
      → Maintains P (alone f)
  unfolding alone
  alone-Maintains f keep = record {
    at = λ s h k. elim (Bool-cases (next_fault s.faults)) [
      | inl e ↦ rw e (h, k)
      | inr e ↦ rw e (
          answered_alone P (f s.stored) (record s { faults = later_faults s.faults }) h k
            (keep s.stored h))
    ];
  }

module _ {P : Db → Type 0} where
  pub begin-Maintains : Maintains P begin
  unfolding begin
  begin-Maintains = record {
    at = λ s h k. elim (Bool-cases (next_fault s.faults)) [
      | inl e ↦ rw e (h, h)
      | inr e ↦ rw e (h, h)
    ];
  }

  pub commit-Maintains : Maintains P commit
  unfolding commit
  commit-Maintains = record {
    at = λ s h k. elim (Bool-cases (s.aborted || next_fault s.faults)) [
      | inl e ↦ rw e (h, k)
      | inr e ↦ rw e (k, k)
    ];
  }

  pub when-Maintains : (b : Bool) (m : Tx (Unit {0})) → Maintains P m → Maintains P (when b m)
  unfolding when pure
  when-Maintains true m k = k
  when-Maintains false m k = record { at = λ s h l. (h, l) }

module _ {ℓ κ} {A : Type ℓ} {B : Type κ} {P : Db → Type 0} where
  continued :
      (r : Result Error A) (s : Session) (f : A → Tx B)
      → ((a : A) → Maintains P (f a))
      → P s.stored
      → P s.working
      → P (continue (r, s) f).1.stored × P (continue (r, s) f).1.working
  continued (ok a) s f kf h k = (kf a).at s h k
  continued (err e) s f kf h k = (h, k)

  pub bind-Maintains :
      (m : Tx A) (f : A → Tx B)
      → Maintains P m
      → ((a : A) → Maintains P (f a))
      → Maintains P (m >>= f)
  unfolding ◌>>=◌
  bind-Maintains m f km kf = record {
    at = λ s h k. let (r, s') = m s in let (h', k') = km.at s h k in continued r s' f kf h' k';
  }

-- A transaction that keeps `P` leaves a database with `P` behind, whatever the session saw before.
pub begun {ℓ} :
    {A : Type ℓ} {P : Db → Type 0} (f : Unit {0} → Tx A)
    → ((u : Unit {0}) → Maintains P (f u))
    → (s : Session) → P s.stored
    → P ((begin >>= f) s).1.stored
unfolding ◌>>=◌ begin
begun f kf s h = elim (Bool-cases (next_fault s.faults)) [
  | inl e ↦ rw e h
  | inr e ↦ rw e ((kf tt).at _ h h).0
]

pub ruleset maintain_rules = (
  pure-Maintains, statement-Maintains, alone-Maintains, begin-Maintains, commit-Maintains,
  when-Maintains, bind-Maintains,
)
