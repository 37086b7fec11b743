-- ===== src/Store/Record/Shown.antt =====
-- Servers that are shown in OUTAGE, and the incidents that are open.
use voxellink_monitor.Common.{
  ℕ, String, ◌≡◌, refl, sym, subst, ◌⊎◌, inl, inr, Bool, true, false, ◌||◌, some, List, [], ◌∷◌,
  arith, str_eq, eq_iff, Bool-cases, Option-cases, any, update_where, All, any-update_where,
}
use voxellink_monitor.Domain.{PublicStatus, outage, status_eq}
use voxellink_monitor.Store.Tables.{ServerRow, IncidentRow, opened, Db}
use voxellink_monitor.Store.Record.{is_open, latest_open, resolve}

-- Each row in OUTAGE has an open incident of its server.
abbrev pub HasOpen : List IncidentRow → List ServerRow → Type 0
HasOpen incidents =
    All (λ (s : ServerRow). status_eq s.status outage ≡ true → any (is_open s.id) incidents ≡ true)

abbrev pub with_id : String → IncidentRow → Bool
with_id id i = str_eq i.id id

abbrev pub IsPrimaryKey : List IncidentRow → Type 0
IsPrimaryKey [] = Unit
IsPrimaryKey (i ∷ rest) = (any (with_id i.id) rest ≡ false) × IsPrimaryKey rest

abbrev pub IsShown : Db → Type 0
IsShown db = HasOpen db.incidents db.servers × IsPrimaryKey db.incidents

abbrev pub IsFresh : String → Db → Type 0
IsFresh uuid db = any (with_id uuid) db.incidents ≡ false

-- The same of the rows of the other servers; and that no row of the server is in OUTAGE.
abbrev pub OthersHaveOpen : String → List IncidentRow → List ServerRow → Type 0
OthersHaveOpen id incidents = All (λ (s : ServerRow).
    status_eq s.status outage ≡ true → str_eq s.id id ≡ false → any (is_open s.id) incidents ≡ true)

abbrev pub OnlyOthers : String → List IncidentRow → List ServerRow → Type 0
OnlyOthers id incidents = All (λ (s : ServerRow).
    status_eq s.status outage ≡ true
    → (str_eq s.id id ≡ false) × (any (is_open s.id) incidents ≡ true))

module _ (now : ℕ) (id : String) (status : PublicStatus) (at : ℕ)
    (incidents : List IncidentRow) where
  abbrev moved : List ServerRow → List ServerRow
  moved =
      update_where (λ (s : ServerRow). str_eq s.id id)
        (λ (s : ServerRow). record s { status = status; status_changed_at = at; updated_at = now })

  pub moved-OthersHaveOpen :
      (rows : List ServerRow) → HasOpen incidents rows → OthersHaveOpen id incidents (moved rows)
  moved-OthersHaveOpen [] h = tt
  moved-OthersHaveOpen (s ∷ rows) (h, k) = (ground (arith, h), moved-OthersHaveOpen rows k)

  pub moved-OnlyOthers :
      (rows : List ServerRow)
      → status_eq status outage ≡ false
      → HasOpen incidents rows
      → OnlyOthers id incidents (moved rows)
  moved-OnlyOthers [] e h = tt
  moved-OnlyOthers (s ∷ rows) e (h, k) = (ground (arith, h), moved-OnlyOthers rows e k)

pub opened-HasOpen :
    (i : IncidentRow) (incidents : List IncidentRow) (rows : List ServerRow)
    → i.state ≡ opened
    → OthersHaveOpen i.server_id incidents rows
    → HasOpen (i ∷ incidents) rows
opened-HasOpen i incidents [] e h = tt
opened-HasOpen i incidents (s ∷ rows) e (h, k) = (
  ground (arith, h, eq_iff i.server_id s.id, eq_iff s.id i.server_id),
  opened-HasOpen i incidents rows e k,
)

-- The rows with the id of an incident that is open are of its server.
abbrev pub IsOf : String → String → List IncidentRow → Type 0
IsOf id server_id =
    All (λ (j : IncidentRow). with_id id j ≡ true → str_eq j.server_id server_id ≡ true)

unmatched-IsOf :
    (id server_id : String) (incidents : List IncidentRow)
    → any (with_id id) incidents ≡ false
    → IsOf id server_id incidents
unmatched-IsOf id server_id [] e = tt
unmatched-IsOf id server_id (j ∷ rest) e =
    (ground arith, unmatched-IsOf id server_id rest (ground arith))

latest_open-cases :
    (id : String) (j : IncidentRow) (rest : List IncidentRow) (i : IncidentRow)
    → latest_open id (j ∷ rest) ≡ some i
    → ((i ≡ j) × (str_eq j.server_id id ≡ true)) ⊎ (latest_open id rest ≡ some i)
latest_open-cases id j rest i e = elim (Bool-cases (is_open id j)) [
  | inr o ↦ ground arith
  | inl o ↦ elim (Option-cases (latest_open id rest)) [
    | inl f ↦ ground arith
    | inr (k, f) ↦ ground arith
  ]
]

same_id-false :
    (j : IncidentRow) (id : String) (rest : List IncidentRow)
    → any (with_id j.id) rest ≡ false
    → any (with_id id) rest ≡ true
    → with_id id j ≡ false
same_id-false j id rest u m = elim (Bool-cases (str_eq j.id id)) [
  | inl e ↦ cc (subst (λ k. any (with_id k) rest ≡ false) ((eq_iff j.id id).0 e) u)
  | inr e ↦ e
]

pub latest_open-IsOf :
    (id : String) (incidents : List IncidentRow) (i : IncidentRow)
    → IsPrimaryKey incidents
    → latest_open id incidents ≡ some i
    → IsOf i.id id incidents × (any (with_id i.id) incidents ≡ true)
latest_open-IsOf id [] i u e = cc
latest_open-IsOf id (j ∷ rest) i (u, v) e = elim (latest_open-cases id j rest i e) [
  | inl (f, o) ↦
      let none_left = subst (λ k. any (with_id k.id) rest ≡ false) (sym f) u in
      (
        (λ _. o, unmatched-IsOf i.id id rest none_left),
        subst (λ k. with_id k.id j || any (with_id k.id) rest ≡ true) (sym f)
            (ground (arith, eq_iff j.id j.id)),
      )
  | inr f ↦
      let (o, m) = latest_open-IsOf id rest i v f in
      ((ground (arith, same_id-false j i.id rest u m), o), ground arith)
]

module _ (id : String) (recovery at : ℕ) (i : IncidentRow) where
  abbrev closed : List IncidentRow → List IncidentRow
  closed = update_where (with_id i.id) (resolve recovery at)

  any-closed :
      (other_id : String) (incidents : List IncidentRow)
      → str_eq other_id id ≡ false
      → IsOf i.id id incidents
      → any (is_open other_id) incidents ≡ true
      → any (is_open other_id) (closed incidents) ≡ true
  any-closed other_id [] e o h = h
  any-closed other_id (j ∷ rest) e (o, p) h = ground (
    arith,
    any-closed other_id rest e p,
    eq_iff j.server_id id,
    eq_iff other_id id,
    eq_iff j.server_id other_id,
  )

  pub closed-HasOpen :
      (incidents : List IncidentRow) (rows : List ServerRow)
      → IsOf i.id id incidents
      → OnlyOthers id incidents rows
      → HasOpen (closed incidents) rows
  closed-HasOpen incidents [] o h = tt
  closed-HasOpen incidents (s ∷ rows) o (h, k) = (
    (λ down. let (e, f) = h down in any-closed s.id incidents e o f),
    closed-HasOpen incidents rows o k,
  )

  pub closed-IsPrimaryKey :
      (incidents : List IncidentRow) → IsPrimaryKey incidents → IsPrimaryKey (closed incidents)
  closed-IsPrimaryKey [] u = tt
  closed-IsPrimaryKey (j ∷ rest) (u, v) = (
    ground (
      arith,
      any-update_where (with_id i.id) (with_id j.id) (resolve recovery at) rest (λ k. refl),
    ),
    closed-IsPrimaryKey rest v,
  )
