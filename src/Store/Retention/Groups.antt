-- ===== src/Store/Retention/Groups.antt =====
-- What a GROUP BY and an upsert leave under one key.
use voxellink_monitor.Common.{
  ℕ, String, ◌≡◌, refl, sym, ap, ◌∙◌, inl, inr, Bool, true, false, not, ◌&&◌, List, [], ◌∷◌, arith,
  str_eq, eq_iff, ◌==◌, Bool-cases, filter, any,
}
use voxellink_monitor.Store.Retention.{same_group, group, replace}

module _ {A B : Type 0} (server : A → String) (bucket : A → ℕ) (agg : A → List A → B) where
  abbrev same : A → A → Bool
  same = same_group server bucket

  same_fields : (x y : A) → same x y ≡ true → (server y ≡ server x) × (bucket y ≡ bucket x)
  same_fields x y h = ground (arith, eq_iff (server y) (server x))

  -- A row may be replaced by another of its group in every test.
  any-same : (x y : A) (zs : List A) → same x y ≡ true → any (same y) zs ≡ any (same x) zs
  any-same x y zs h =
      let (e, f) = same_fields x y h in
      ap (λ p. any p zs) (λ i. λ z. str_eq (server z) (e i) && bucket z == f i)

  filter-same : (x y : A) (zs : List A) → same x y ≡ true → filter (same y) zs ≡ filter (same x) zs
  filter-same x y zs h =
      let (e, f) = same_fields x y h in
      ap (λ p. filter p zs) (λ i. λ z. str_eq (server z) (e i) && bucket z == f i)

  -- `key` picks the aggregate of the group of `x`.
  module _ (key : B → Bool) (x : A) (all : List A)
      (keyed : (y : A) → key (agg y (filter (same y) all)) ≡ same x y) where
    pub group-none :
        (ys : List A) → any (same x) ys ≡ false → filter key (group server bucket agg all ys) ≡ []
    group-none [] h = refl
    group-none (y ∷ ys) h = ground (arith, keyed y, group-none ys)

    abbrev One : List B → Type 0
    One rows = (y : A) × (same x y ≡ true) × (rows ≡ agg y (filter (same x) all) ∷ [])

    pub group-One :
        (ys : List A) → any (same x) ys ≡ true → One (filter key (group server bucket agg all ys))
    group-One [] h = cc
    group-One (y ∷ ys) h = elim (Bool-cases (any (same y) ys)) [
      | inl again ↦ elim (Bool-cases (same x y)) [
        | inl e ↦ rw again (group-One ys (sym (any-same x y ys e) ∙ again))
        | inr e ↦ rw again (group-One ys (ground arith))
      ]
      | inr last ↦ elim (Bool-cases (same x y)) [
        | inl e ↦
            rw (last, keyed y, e, filter-same x y all e)
              (y, e, rw (group-none ys (sym (any-same x y ys e) ∙ last)) refl)
        | inr e ↦ rw (last, keyed y, e) (group-One ys (ground arith))
      ]
    ]

-- Of the rows with a key, an upsert leaves the one it brings, or those that are there.
module _ {B : Type 0} (same : B → B → Bool) (key : B → Bool)
    (hit : (a b : B) → key a ≡ true → same a b ≡ key b)
    (miss : (a b : B) → key a ≡ false → key b ≡ true → same a b ≡ false) where
  filter_hit :
      (a : B) (rows : List B) → key a ≡ true → filter key (filter (λ r. not (same a r)) rows) ≡ []
  filter_hit a [] h = refl
  filter_hit a (b ∷ rows) h = ground (arith, hit a b h, filter_hit a rows h)

  filter_miss :
      (a : B) (rows : List B)
      → key a ≡ false
      → filter key (filter (λ r. not (same a r)) rows) ≡ filter key rows
  filter_miss a [] h = refl
  filter_miss a (b ∷ rows) h = ground (arith, miss a b h, filter_miss a rows h)

  pub filter-replace :
      (a : B) (new table : List B)
      → filter key new ≡ a ∷ []
      → filter key (replace same new table) ≡ a ∷ []
  filter-replace a [] table h = cc
  filter-replace a (b ∷ new) table h = elim (Bool-cases (key b)) [
    | inl e ↦ rw (e, filter_hit b (replace same new table) e) (ground arith)
    | inr e ↦
        rw (e, filter_miss b (replace same new table) e) (filter-replace a new table (ground arith))
  ]
