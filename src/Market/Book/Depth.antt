-- ===== src/Market/Book/Depth.antt =====
-- market.service.ts: the order of the levels, the best prices, and the depth.
use hau_cex.Common.{
  ℕ, zero, suc, ◌≤◌, ◌≡◌, refl, sym, subst, Bool, true, false, List, [], ◌∷◌, map, Option, none,
  some, some-injective, inl, inr, String, ℤ, pos, negsuc, ◌≤ℤ◌, length, take, All, if◌then◌else◌,
  Bool-cases, arith,
}
use hau_cex.EngineEvents.Messages.{Levels, OrderbookData}
use hau_cex.Market.Book.{
  Level, insert, sort, higher, lower, first_price, best_bid_ask, to_pair, clamp, order_book,
}

-- The price of the first level of an answer.
abbrev pub head_price : List (String × String) → Option String
head_price [] = none
head_price (x ∷ xs) = some x.0

-- Every two levels stand in the relation, the earlier one first.
abbrev pub IsOrdered : {A : Type 0} → (A → A → Type 0) → List A → Type 0
IsOrdered R [] = Unit
IsOrdered R (x ∷ xs) = All (R x) xs × IsOrdered R xs

All-map :
    {A B : Type 0} (P : B → Type 0) (f : A → B) (xs : List A)
    → All (λ x. P (f x)) xs
    → All P (map f xs)
All-map P f [] h = tt
All-map P f (x ∷ xs) h = (h.0, All-map P f xs h.1)

All-take : {A : Type 0} (P : A → Type 0) (n : ℕ) (xs : List A) → All P xs → All P (take n xs)
All-take P zero xs h = tt
All-take P (suc n) [] h = tt
All-take P (suc n) (x ∷ xs) h = (h.0, All-take P n xs h.1)

IsOrdered-take-map :
    {A B : Type 0} (R : B → B → Type 0) (f : A → B) (n : ℕ) (xs : List A)
    → IsOrdered (λ x y. R (f x) (f y)) xs
    → IsOrdered R (map f (take n xs))
IsOrdered-take-map R f zero xs h = tt
IsOrdered-take-map R f (suc n) [] h = tt
IsOrdered-take-map R f (suc n) (x ∷ xs) h = (
  All-map (R (f x)) f (take n xs) (All-take (λ y. R (f x) (f y)) n xs h.0),
  IsOrdered-take-map R f n xs h.1,
)

length-map-take : {A B : Type 0} (f : A → B) (n : ℕ) (xs : List A) → length (map f (take n xs)) ≤ n
length-map-take f zero xs = omega arith
length-map-take f (suc n) [] = omega arith
length-map-take f (suc n) (x ∷ xs) = omega (arith, length-map-take f n xs)

-- A sort by a test, for a relation that the test decides.
module _ (before : Level → Level → Bool) (R : Level → Level → Type 0)
    (holds : (x y : Level) → before y x ≡ false → R x y)
    (total : (x y : Level) → before y x ≡ true → R y x)
    (trans : (x y z : Level) → R x y → R y z → R x z) where
  All-weaken : (x y : Level) (xs : Levels) → R x y → All (R y) xs → All (R x) xs
  All-weaken x y [] r h = tt
  All-weaken x y (z ∷ zs) r h = (trans x y z r h.0, All-weaken x y zs r h.1)

  All-insert :
      (P : Level → Type 0) (x : Level) (ys : Levels) → P x → All P ys → All P (insert before x ys)
  All-insert P x [] p h = (p, tt)
  All-insert P x (y ∷ ys) p h = elim (Bool-cases (before y x)) [
    | inl b ↦ rw b (h.0, All-insert P x ys p h.1)
    | inr b ↦ rw b (p, h)
  ]

  insert-IsOrdered : (x : Level) (ys : Levels) → IsOrdered R ys → IsOrdered R (insert before x ys)
  insert-IsOrdered x [] h = (tt, tt)
  insert-IsOrdered x (y ∷ ys) h = elim (Bool-cases (before y x)) [
    | inl b ↦ rw b (All-insert (R y) x ys (total x y b) h.0, insert-IsOrdered x ys h.1)
    | inr b ↦ let r = holds x y b in rw b ((r, All-weaken x y ys r h.0), h)
  ]

  sort-IsOrdered : (xs : Levels) → IsOrdered R (sort before xs)
  sort-IsOrdered [] = tt
  sort-IsOrdered (x ∷ xs) = insert-IsOrdered x (sort before xs) (sort-IsOrdered xs)

  All-of_insert :
      (P : Level → Type 0) (x : Level) (ys : Levels) → All P (insert before x ys) → P x × All P ys
  All-of_insert P x [] h = h
  All-of_insert P x (y ∷ ys) h = of_test (before y x) (All-of_insert P x ys) h
    where
      of_test :
          (b : Bool)
          → (All P (insert before x ys) → P x × All P ys)
          → All P (if b then y ∷ insert before x ys else x ∷ y ∷ ys)
          → P x × All P (y ∷ ys)
      of_test true rest (py, g) = let (px, pys) = rest g in (px, (py, pys))
      of_test false rest (px, g) = (px, g)

  All-of_sort : (P : Level → Type 0) (xs : Levels) → All P (sort before xs) → All P xs
  All-of_sort P [] h = tt
  All-of_sort P (x ∷ xs) h =
      let (p, g) = All-of_insert P x (sort before xs) h in (p, All-of_sort P xs g)

  -- The first price is the price of a level that stands before every level.
  first_is_best :
      (number : String → ℤ)
      → ((x : Level) → R x x)
      → (xs : Levels) (price : String) → first_price number (sort before xs) ≡ some price
      → (best : Level) × (best.0 ≡ price) × All (R best) xs
  first_is_best number same xs price e = of_sorted (sort before xs) refl (sort-IsOrdered xs) e
    where
      of_sorted :
          (ys : Levels)
          → sort before xs ≡ ys
          → IsOrdered R ys
          → first_price number ys ≡ some price
          → (best : Level) × (best.0 ≡ price) × All (R best) xs
      of_sorted [] d o e = cc
      of_sorted (y ∷ ys) d o e =
          (y, some-injective _ _ e, All-of_sort (R y) xs (subst (All (R y)) (sym d) (same y, o.0)))

clamp-bounds : (depth : Option ℤ) → (1 ≤ clamp depth) × (clamp depth ≤ 100)
clamp-bounds none = (omega arith, omega arith)
clamp-bounds (some (pos n)) = (ground arith, ground arith)
clamp-bounds (some (negsuc n)) = (ground arith, ground arith)

module _ (number : String → ℤ) where
  head-take :
      (n : ℕ) (xs : Levels)
      → 1 ≤ n
      → head_price (map (to_pair number) (take n xs)) ≡ first_price number xs
  head-take zero xs h = absurd (omega (arith, h))
  head-take (suc n) [] h = refl
  head-take (suc n) (x ∷ xs) h = refl

  -- No bid is higher than one before it, no ask lower.
  abbrev pub Descends : List (String × String) → Type 0
  Descends = IsOrdered λ x y. number y.0 ≤ℤ number x.0

  abbrev pub Ascends : List (String × String) → Type 0
  Ascends = IsOrdered λ x y. number x.0 ≤ℤ number y.0

  abbrev AtMost : Level → Level → Type 0
  AtMost x y = number y.0 ≤ℤ number x.0

  abbrev AtLeast : Level → Level → Type 0
  AtLeast x y = number x.0 ≤ℤ number y.0

  pub bids-IsOrdered : (xs : Levels) → IsOrdered AtMost (sort (higher number) xs)
  bids-IsOrdered =
      sort-IsOrdered (higher number) AtMost (λ x y b. ground (arith, b))
        (λ x y b. ground (arith, b)) (λ x y z r s. omega (arith, r, s))

  pub asks-IsOrdered : (xs : Levels) → IsOrdered AtLeast (sort (lower number) xs)
  asks-IsOrdered =
      sort-IsOrdered (lower number) AtLeast (λ x y b. ground (arith, b))
        (λ x y b. ground (arith, b)) (λ x y z r s. omega (arith, r, s))

  -- An order book that is answered has its bids from the highest price on and its asks from the
  -- lowest on, and at most 100 of each, whatever depth is asked for.
  pub order_book_is_sorted :
      (symbol : String) (depth : Option ℤ) (book : OrderbookData)
      → let answer = order_book number symbol depth (some book) in
        Descends answer.bids
        × Ascends answer.asks
        × (length answer.bids ≤ 100)
        × (length answer.asks ≤ 100)
  unfolding order_book
  order_book_is_sorted symbol depth book =
      let (_, bound) = clamp-bounds depth in
      (
        IsOrdered-take-map _ (to_pair number) (clamp depth) _ (bids-IsOrdered book.bids),
        IsOrdered-take-map _ (to_pair number) (clamp depth) _ (asks-IsOrdered book.asks),
        omega (
          arith,
          bound,
          length-map-take (to_pair number) (clamp depth) (sort (higher number) book.bids),
        ),
        omega (
          arith,
          bound,
          length-map-take (to_pair number) (clamp depth) (sort (lower number) book.asks),
        ),
      )

  -- The best bid and the best ask are the first levels of the order book of any depth; no bid of the
  -- book is higher than the best bid, and no ask lower than the best ask.
  pub best_bid_ask_is_best :
      (symbol : String) (depth : Option ℤ) (book : OrderbookData)
      → let best = best_bid_ask number (some book) in
        let answer = order_book number symbol depth (some book) in
        (head_price answer.bids ≡ best.0)
        × (head_price answer.asks ≡ best.1)
        × ((price : String) → best.0 ≡ some price → All (λ x. number x.0 ≤ℤ number price) book.bids)
        × ((price : String) → best.1 ≡ some price → All (λ x. number price ≤ℤ number x.0) book.asks)
  unfolding order_book best_bid_ask
  best_bid_ask_is_best symbol depth book =
      let (some_level, _) = clamp-bounds depth in
      (
        head-take (clamp depth) (sort (higher number) book.bids) some_level,
        head-take (clamp depth) (sort (lower number) book.asks) some_level,
        λ price e.
            let (best, at, all) =
              first_is_best (higher number) AtMost (λ x y b. ground (arith, b))
                (λ x y b. ground (arith, b)) (λ x y z r s. omega (arith, r, s)) number
                (λ x. omega arith) book.bids price e in
            subst (λ s. All (λ x. number x.0 ≤ℤ number s) book.bids) at all,
        λ price e.
            let (best, at, all) =
              first_is_best (lower number) AtLeast (λ x y b. ground (arith, b))
                (λ x y b. ground (arith, b)) (λ x y z r s. omega (arith, r, s)) number
                (λ x. omega arith) book.asks price e in
            subst (λ s. All (λ x. number s ≤ℤ number x.0) book.asks) at all,
      )
