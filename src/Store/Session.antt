-- ===== src/Store/Session.antt =====
-- A session with PostgreSQL: what is committed, what the open transaction sees, and which of the
-- coming calls the server or the network will refuse.
pub mod Atomic
pub mod Invariants
pub mod Triples
use voxellink_monitor.Common.{
  ℕ, zero, suc, ◌+◌, ◌-◌, ◌*◌, ◌/◌, ◌%◌, ◌^◌, ◌≤◌, ◌<◌, bit_and, bit_or, min, max, String, ◌≡◌,
  refl, sym, ap, ◌∙◌, subst, ◌≢◌, ◌↔◌, ◌⊎◌, inl, inr, Bool, true, false, not, ◌&&◌, ◌||◌, Option,
  none, some, List, [], ◌∷◌, ◌++◌, arith, str_eq, eq_iff, Result, ok, err, Result-cases, ℤ, pos,
  negsuc, ltb, leb, ◌==◌, if◌then◌else◌, ltb→lt, leb→le, ==_iff, Bool-cases, Option-cases, length,
  take, drop, head?, filter, any, update_where, All, length-append, length-take-le,
  length-filter-le, length-update_where, is_empty,
}
use voxellink_monitor.Store.Tables.{Db}

-- `refused`: the call failed. `violation`: a constraint or a cast. `no_rows`: pgx.ErrNoRows.
-- `null_scan`: a NULL into a Go value that cannot hold it.
pub data Error : Type 0 where
  refused violation no_rows null_scan : Error

-- `faults` says of each coming call whether it is refused; past its end none is.
-- After a refused statement the transaction is aborted.
pub record Session : Type 0 where
  pub stored : Db
  pub working : Db
  pub aborted : Bool
  pub faults : List Bool

abbrev pub Tx {ℓ} : Type ℓ → Type ℓ
Tx A = Session → Result Error A × Session

abbrev pub next_fault : List Bool → Bool
next_fault [] = false
next_fault (b ∷ bs) = b

abbrev pub later_faults : List Bool → List Bool
later_faults [] = []
later_faults (b ∷ bs) = bs

module _ {ℓ} {A : Type ℓ} where
  unfoldable pub pure : A → Tx A
  pure a s = (ok a, s)

  unfoldable pub raise : Error → Tx A
  raise e s = (err e, s)

  abbrev pub answer : Result Error (A × Db) → Session → Result Error A × Session
  answer (ok (a, db)) s = (ok a, record s { working = db })
  answer (err e) s = (err e, record s { aborted = true })

  -- One statement in the open transaction.
  unfoldable pub statement : (Db → Result Error (A × Db)) → Tx A
  statement f s =
      let s' = record s { faults = later_faults s.faults } in
      if s.aborted || next_fault s.faults
      then (err refused, record s' { aborted = true })
      else answer (f s.working) s'

  abbrev pub answer_alone : Result Error (A × Db) → Session → Result Error A × Session
  answer_alone (ok (a, db)) s = (ok a, record s { stored = db })
  answer_alone (err e) s = (err e, s)

  -- One statement through the pool: a transaction of its own.
  unfoldable pub alone : (Db → Result Error (A × Db)) → Tx A
  alone f s =
      let s' = record s { faults = later_faults s.faults } in
      if next_fault s.faults then (err refused, s') else answer_alone (f s.stored) s'

-- A query changes nothing.
abbrev pub query {ℓ} : {A : Type ℓ} → (Db → A) → Db → Result Error (A × Db)
query f db = ok (f db, db)

-- A statement whose result the code does not read.
abbrev pub change : (Db → Db) → Db → Result Error (Unit {0} × Db)
change f db = ok (tt, f db)

unfoldable pub begin : Tx (Unit {0})
begin s =
    let s' = record s { faults = later_faults s.faults; working = s.stored; aborted = false } in
    if next_fault s.faults then (err refused, s') else (ok tt, s')

-- A refused commit, and one of an aborted transaction, leaves what was committed before.
unfoldable pub commit : Tx (Unit {0})
commit s =
    let s' = record s { faults = later_faults s.faults } in
    if s.aborted || next_fault s.faults
    then (err refused, s')
    else (ok tt, record s' { stored = s.working })

module _ {ℓ κ} {A : Type ℓ} {B : Type κ} where
  abbrev pub continue :
      Result Error A × Session → (A → Session → Result Error B × Session) → Result Error B × Session
  continue (ok a, s) f = f a s
  continue (err e, s) f = (err e, s)

  infixl 5 ◌>>=◌
  unfoldable pub ◌>>=◌ :
      (Session → Result Error A × Session)
      → (A → Session → Result Error B × Session)
      → Session
      → Result Error B × Session
  unfolding pure raise statement alone begin commit
  ◌>>=◌ m f s = continue (m s) f

infixl 5 ◌>>◌
abbrev pub ◌>>◌ {ℓ} : {B : Type ℓ} → Tx (Unit {0}) → Tx B → Tx B
m >> k = m >>= λ _. k

unfoldable pub when : Bool → Tx (Unit {0}) → Tx (Unit {0})
unfolding ◌>>=◌
when b m = if b then m else pure tt

-- A session with nothing open, on a server that refuses no call.
abbrev pub connected : Db → Session
connected db = record { stored = db; working = db; aborted = false; faults = [] }
