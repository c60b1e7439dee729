-- ===== src/Database/Table.antt =====
-- A table as the list of its rows: what the services ask of Prisma and of PostgreSQL. The first row
-- that fits is the row, since every key that the services look up by is unique in the schema.
use hau_cex.Common.{
  ◌≡◌, refl, Bool, true, false, ◌||◌, Option, none, some, List, [], ◌∷◌, arith, if◌then◌else◌,
}

module _ {ℓ} {A : Type ℓ} where
  -- `findUnique` and `findFirst`.
  abbrev pub find_first : (A → Bool) → List A → Option A
  find_first p [] = none
  find_first p (x ∷ xs) = if p x then some x else find_first p xs

  -- `update` on a unique key.
  abbrev pub update_first : (A → Bool) → (A → A) → List A → List A
  update_first p f [] = []
  update_first p f (x ∷ xs) = if p x then f x ∷ xs else x ∷ update_first p f xs

  -- `updateMany`.
  abbrev pub update_many : (A → Bool) → (A → A) → List A → List A
  update_many p f [] = []
  update_many p f (x ∷ xs) = (if p x then f x else x) ∷ update_many p f xs

  abbrev pub exists : (A → Bool) → List A → Bool
  exists p [] = false
  exists p (x ∷ xs) = p x || exists p xs

  -- What is found fits.
  pub find_first_holds :
      (p : A → Bool) (xs : List A) (x : A) → find_first p xs ≡ some x → p x ≡ true
  find_first_holds p [] x e = cc
  find_first_holds p (y ∷ ys) x e = ground (arith, find_first_holds p ys x)

  -- An update that leaves the key alone is seen by the key, and by no other key.
  pub find_first-update_self :
      (p : A → Bool) (f : A → A) (xs : List A) (x : A)
      → ((y : A) → p (f y) ≡ p y)
      → find_first p xs ≡ some x
      → find_first p (update_first p f xs) ≡ some (f x)
  find_first-update_self p f [] x same e = cc
  find_first-update_self p f (y ∷ ys) x same e =
      ground (arith, same y, find_first-update_self p f ys x same)

  pub find_first-update_ne :
      (p q : A → Bool) (f : A → A) (xs : List A)
      → ((y : A) → p (f y) ≡ p y)
      → ((y : A) → q y ≡ true → p y ≡ false)
      → find_first p (update_first q f xs) ≡ find_first p xs
  find_first-update_ne p q f [] same apart = refl
  find_first-update_ne p q f (y ∷ ys) same apart =
      ground (arith, same y, apart y, find_first-update_ne p q f ys same apart)

  -- Two updates of one row, of which the second undoes the first.
  pub update_first-undone :
      (p : A → Bool) (f g : A → A) (xs : List A) (x : A)
      → ((y : A) → p (f y) ≡ p y)
      → find_first p xs ≡ some x
      → g (f x) ≡ x
      → update_first p g (update_first p f xs) ≡ xs
  update_first-undone p f g [] x same e h = refl
  update_first-undone p f g (y ∷ ys) x same e h =
      ground (arith, same y, update_first-undone p f g ys x same)

  -- A row after `updateMany`.
  pub find_first-update_many :
      (p q : A → Bool) (f : A → A) (xs : List A) (x : A)
      → ((y : A) → p (f y) ≡ p y)
      → find_first p xs ≡ some x
      → find_first p (update_many q f xs) ≡ some (if q x then f x else x)
  find_first-update_many p q f [] x same e = cc
  find_first-update_many p q f (y ∷ ys) x same e =
      ground (arith, same y, find_first-update_many p q f ys x same)
