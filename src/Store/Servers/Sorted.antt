-- ===== src/Store/Servers/Sorted.antt =====
-- What holds of every row holds of the rows that a query returns.
use voxellink_monitor.Common.{
  ◌≡◌, refl, ap, ◌∙◌, inl, inr, Bool, ◌&&◌, ◌||◌, List, [], ◌∷◌, arith, Bool-cases, filter, any,
  All,
}
use voxellink_monitor.Store.Servers.{map_rows, insert_by, sort_by}

module _ {A : Type 0} (P : A → Type 0) (before : A → A → Bool) where
  All-insert_by : (x : A) (xs : List A) → P x → All P xs → All P (insert_by before x xs)
  unfolding insert_by
  All-insert_by x [] p h = (p, tt)
  All-insert_by x (y ∷ ys) p (q, h) = elim (Bool-cases (before y x)) [
    | inl e ↦ rw e (q, All-insert_by x ys p h)
    | inr e ↦ rw e (p, (q, h))
  ]

  pub All-sort_by : (xs : List A) → All P xs → All P (sort_by before xs)
  unfolding sort_by
  All-sort_by [] h = tt
  All-sort_by (x ∷ xs) (p, h) = All-insert_by x (sort_by before xs) p (All-sort_by xs h)

-- All of what is selected and mapped.
pub All-map_rows :
    {A B : Type 0} (P : B → Type 0) (f : A → B) (xs : List A)
    → All (λ (x : A). P (f x)) xs
    → All P (map_rows f xs)
All-map_rows P f [] h = tt
All-map_rows P f (x ∷ xs) (p, h) = (p, All-map_rows P f xs h)

pub All-of : {A : Type 0} (P : A → Type 0) → ((x : A) → P x) → (xs : List A) → All P xs
All-of P p [] = tt
All-of P p (x ∷ xs) = (p x, All-of P p xs)

-- A selection and a mapping keep what is there, as a sorting does.
module _ {A : Type 0} (p : A → Bool) (before : A → A → Bool) where
  any-insert_by : (x : A) (xs : List A) → any p (insert_by before x xs) ≡ any p (x ∷ xs)
  unfolding insert_by
  any-insert_by x [] = refl
  any-insert_by x (y ∷ ys) = elim (Bool-cases (before y x)) [
    | inl e ↦ rw e (ground (arith, any-insert_by x ys))
    | inr e ↦ rw e refl
  ]

  pub any-sort_by : (xs : List A) → any p (sort_by before xs) ≡ any p xs
  unfolding sort_by
  any-sort_by [] = refl
  any-sort_by (x ∷ xs) = any-insert_by x (sort_by before xs) ∙ ap (λ b. p x || b) (any-sort_by xs)

pub any-map_rows :
    {A B : Type 0} (p : B → Bool) (f : A → B) (xs : List A)
    → any p (map_rows f xs) ≡ any (λ x. p (f x)) xs
any-map_rows p f [] = refl
any-map_rows p f (x ∷ xs) = ap (λ b. p (f x) || b) (any-map_rows p f xs)

pub any-filter :
    {A : Type 0} (p q : A → Bool) (xs : List A) → any p (filter q xs) ≡ any (λ x. q x && p x) xs
any-filter p q [] = refl
any-filter p q (x ∷ xs) = ground (arith, any-filter p q xs)
