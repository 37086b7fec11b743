-- ===== src/Store/Session/Atomic.antt =====
-- Transactions are all or nothing: `defer tx.Rollback` and the one commit at the end.
use voxellink_monitor.Common.{
  ◌≡◌, refl, ◌∙◌, Bool, true, false, arith, Result, ok, err, if◌then◌else◌,
}
use voxellink_monitor.Store.Tables.{Db}
use voxellink_monitor.Store.Session.{
  Error, Session, Tx, pure, raise, statement, begin, commit, ◌>>=◌, when, continue,
}

-- `m` leaves what is committed as it is.
pub record IsQuiet {ℓ} {A : Type ℓ} (m : Tx A) : Type ℓ where
  pub at : (s : Session) → (m s).1.stored ≡ s.stored

-- `m` leaves what is committed as it is, if it returns an error.
pub record IsAtomic {ℓ} {A : Type ℓ} (m : Tx A) : Type ℓ where
  pub at : (s : Session) (e : Error) → (m s).0 ≡ err e → (m s).1.stored ≡ s.stored

module _ {ℓ} {A : Type ℓ} where
  pub pure-IsQuiet : (a : A) → IsQuiet (pure a)
  unfolding pure
  pure-IsQuiet a = record { at = λ s. refl }

  pub raise-IsQuiet : (e : Error) → IsQuiet (raise {A = A} e)
  unfolding raise
  raise-IsQuiet e = record { at = λ s. refl }

  pub statement-IsQuiet : (f : Db → Result Error (A × Db)) → IsQuiet (statement f)
  unfolding statement
  statement-IsQuiet f = record { at = λ s. ground arith }

  pub if-IsQuiet :
      (b : Bool) (m n : Tx A)
      → (b ≡ true → IsQuiet m)
      → (b ≡ false → IsQuiet n)
      → IsQuiet (if b then m else n)
  if-IsQuiet true m n km kn = km refl
  if-IsQuiet false m n km kn = kn refl

  pub if-IsAtomic :
      (b : Bool) (m n : Tx A)
      → (b ≡ true → IsAtomic m)
      → (b ≡ false → IsAtomic n)
      → IsAtomic (if b then m else n)
  if-IsAtomic true m n km kn = km refl
  if-IsAtomic false m n km kn = kn refl

  -- The last two calls of every transaction.
  pub commit-IsAtomic : (a : A) → IsAtomic (commit >>= λ _. pure a)
  unfolding ◌>>=◌
  commit-IsAtomic a = record { at = λ s e h. ground arith }

pub begin-IsQuiet : IsQuiet begin
unfolding begin
begin-IsQuiet = record { at = λ s. ground arith }

pub when-IsQuiet : (b : Bool) (m : Tx (Unit {0})) → IsQuiet m → IsQuiet (when b m)
unfolding when pure
when-IsQuiet true m k = k
when-IsQuiet false m k = record { at = λ s. refl }

module _ {ℓ κ} {A : Type ℓ} {B : Type κ} where
  continue_quiet :
      (r : Result Error A) (s : Session) (f : A → Tx B)
      → ((a : A) → IsQuiet (f a))
      → (continue (r, s) f).1.stored ≡ s.stored
  continue_quiet (ok a) s f k = (k a).at s
  continue_quiet (err e) s f k = refl

  continue_atomic :
      (r : Result Error A) (s : Session) (f : A → Tx B) (e : Error)
      → ((a : A) → IsAtomic (f a))
      → (continue (r, s) f).0 ≡ err e
      → (continue (r, s) f).1.stored ≡ s.stored
  continue_atomic (ok a) s f e k h = (k a).at s e h
  continue_atomic (err x) s f e k h = refl

  pub bind-IsQuiet :
      (m : Tx A) (f : A → Tx B) → IsQuiet m → ((a : A) → IsQuiet (f a)) → IsQuiet (m >>= f)
  unfolding ◌>>=◌
  bind-IsQuiet m f km kf = record {
    at = λ s. let (r, s') = m s in continue_quiet r s' f kf ∙ km.at s;
  }

  pub bind-IsAtomic :
      (m : Tx A) (f : A → Tx B) → IsQuiet m → ((a : A) → IsAtomic (f a)) → IsAtomic (m >>= f)
  unfolding ◌>>=◌
  bind-IsAtomic m f km kf = record {
    at = λ s e h. let (r, s') = m s in continue_atomic r s' f e kf h ∙ km.at s;
  }

pub ruleset atomic_rules = (
  pure-IsQuiet, raise-IsQuiet, statement-IsQuiet, if-IsQuiet, begin-IsQuiet, when-IsQuiet,
  bind-IsQuiet, if-IsAtomic, commit-IsAtomic, bind-IsAtomic,
)
