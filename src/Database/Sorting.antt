-- ===== src/Database/Sorting.antt =====
-- `orderBy` of a query: the rows in an order. `before x y` tells that `x` may come before `y`. Where
-- neither row must come first, PostgreSQL promises nothing, and here the order of the table is kept.
use hau_cex.Common.{
  ◌≡◌, refl, Bool, true, false, List, [], ◌∷◌, inl, inr, All, All-map, length, if◌then◌else◌,
  Bool-cases, arith,
}
use mathlib.Core.List.{Permᴰ}
use mathlib.Core.List.Permᴰ

module _ {ℓ} {A : Type ℓ} (before : A → A → Bool) where
  abbrev pub insert : A → List A → List A
  insert x [] = x ∷ []
  insert x (y ∷ ys) = let rest = insert x ys in if before x y then x ∷ y ∷ ys else y ∷ rest

  abbrev pub order_by : List A → List A
  order_by [] = []
  order_by (x ∷ xs) = insert x (order_by xs)

  -- Each row may come before all that follow it.
  abbrev pub IsSorted : List A → Type 0
  IsSorted [] = Unit
  IsSorted (x ∷ xs) = All (λ y. before x y ≡ true) xs × IsSorted xs

  -- Of two rows, one may come before the other.
  abbrev pub Comparable : A → A → Type 0
  Comparable x y = before x y ≡ false → before y x ≡ true

  abbrev pub AllComparable : List A → Type 0
  AllComparable [] = Unit
  AllComparable (x ∷ xs) = All (Comparable x) xs × AllComparable xs

  pub insert-All {κ} : (P : A → Type κ) (x : A) (xs : List A) → P x → All P xs → All P (insert x xs)
  insert-All P x [] p h = (p, tt)
  insert-All P x (y ∷ ys) p h = elim (Bool-cases (before x y)) [
    | inl b ↦ rw b (p, h)
    | inr b ↦ rw b (h.0, insert-All P x ys p h.1)
  ]

  pub order_by-All {κ} : (P : A → Type κ) (xs : List A) → All P xs → All P (order_by xs)
  order_by-All P [] h = tt
  order_by-All P (x ∷ xs) h = insert-All P x (order_by xs) h.0 (order_by-All P xs h.1)

  insert-Perm : (x : A) (xs : List A) → Permᴰ (insert x xs) (x ∷ xs)
  insert-Perm x [] = Permᴰ.refl (x ∷ [])
  insert-Perm x (y ∷ ys) = elim (Bool-cases (before x y)) [
    | inl b ↦ rw b (Permᴰ.refl (x ∷ y ∷ ys))
    | inr b ↦ rw b (Permᴰ.trans (Permᴰ.cons refl (insert-Perm x ys)) (Permᴰ.swap refl refl))
  ]

  -- The rows are those of the table, each as often.
  pub order_by-Perm : (xs : List A) → Permᴰ (order_by xs) xs
  order_by-Perm [] = Permᴰ.refl []
  order_by-Perm (x ∷ xs) =
      Permᴰ.trans (insert-Perm x (order_by xs)) (Permᴰ.cons refl (order_by-Perm xs))

  length-insert : (x : A) (xs : List A) → length (insert x xs) ≡ length (x ∷ xs)
  length-insert x [] = refl
  length-insert x (y ∷ ys) = elim (Bool-cases (before x y)) [
    | inl b ↦ rw b refl
    | inr b ↦ rw b (omega (arith, length-insert x ys))
  ]

  pub length-order_by : (xs : List A) → length (order_by xs) ≡ length xs
  length-order_by [] = refl
  length-order_by (x ∷ xs) = omega (arith, length-insert x (order_by xs), length-order_by xs)

  module _ (trans : (x y z : A) → before x y ≡ true → before y z ≡ true → before x z ≡ true) where
    insert-IsSorted :
        (x : A) (xs : List A) → All (Comparable x) xs → IsSorted xs → IsSorted (insert x xs)
    insert-IsSorted x [] c h = (tt, tt)
    insert-IsSorted x (y ∷ ys) c h = elim (Bool-cases (before x y)) [
      | inl b ↦ rw b (
        (
          b,
          All-map (λ z. before y z ≡ true) (λ z. before x z ≡ true) ys (λ z e. trans x y z b e) h.0,
        ),
        h,
      )
      | inr b ↦
          rw b (insert-All (λ z. before y z ≡ true) x ys (c.0 b) h.0, insert-IsSorted x ys c.1 h.1)
    ]

    pub order_by-IsSorted : (xs : List A) → AllComparable xs → IsSorted (order_by xs)
    order_by-IsSorted [] c = tt
    order_by-IsSorted (x ∷ xs) c =
        insert-IsSorted x (order_by xs) (order_by-All (Comparable x) xs c.0)
          (order_by-IsSorted xs c.1)

  pub all_comparable : ((x y : A) → Comparable x y) → (xs : List A) → AllComparable xs
  all_comparable h [] = tt
  all_comparable h (x ∷ xs) = (to_each xs, all_comparable h xs)
    where
      to_each : (ys : List A) → All (Comparable x) ys
      to_each [] = tt
      to_each (y ∷ ys) = (h x y, to_each ys)
