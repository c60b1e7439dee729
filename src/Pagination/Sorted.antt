-- ===== src/Pagination/Sorted.antt =====
-- cursor.helper.ts: the pages of a query that orders the rows itself, one after another.
use hau_cex.Common.{
  ℕ, zero, suc, ◌≡◌, refl, subst, ◌∙◌, Bool, false, List, [], ◌∷◌, Option, none, some, All, All-map,
  length, ◌==◌, map, filter, arith, inl, inr, Bool-cases,
}
use mathlib.Core.List.{Perm}
use hau_cex.Database.Sorting.{
  order_by, order_by-Perm, order_by-All, order_by-IsSorted, length-order_by, AllComparable,
  Comparable,
}
use hau_cex.Pagination.{CursorPayload, PaginatedResponse, next_page, find_page, all_pages}
use hau_cex.Pagination.Cover.{IsOrdered, IsWhole, newer, all_pages_cover}

pub filter-All {κ} :
    {A : Type 0} (P : A → Type κ) (q : A → Bool) (xs : List A) → All P xs → All P (filter q xs)
filter-All P q [] h = tt
filter-All P q (x ∷ xs) h = elim (Bool-cases (q x)) [
  | inl b ↦ rw b (h.0, filter-All P q xs h.1)
  | inr b ↦ rw b (filter-All P q xs h.1)
]

module _ {A : Type 0} (id_of : A → ℕ) where
  -- The id is the primary key.
  abbrev pub UniqueIds : List A → Type 0
  UniqueIds [] = Unit
  UniqueIds (x ∷ xs) = All (λ y. (id_of y == id_of x) ≡ false) xs × UniqueIds xs

  pub filter-UniqueIds : (q : A → Bool) (xs : List A) → UniqueIds xs → UniqueIds (filter q xs)
  filter-UniqueIds q [] u = tt
  filter-UniqueIds q (x ∷ xs) u = elim (Bool-cases (q x)) [
    | inl b ↦
        rw b (filter-All (λ y. (id_of y == id_of x) ≡ false) q xs u.0, filter-UniqueIds q xs u.1)
    | inr b ↦ rw b (filter-UniqueIds q xs u.1)
  ]

module _ {A : Type 0} (id_of created_at : A → ℕ) where
  abbrev before : A → A → Bool
  before = newer id_of created_at

  newer-Comparable : (x y : A) → (id_of y == id_of x) ≡ false → Comparable before x y
  newer-Comparable x y h e = ground (arith, h, e)

  comparable : (xs : List A) → UniqueIds id_of xs → AllComparable before xs
  comparable [] u = tt
  comparable (x ∷ xs) u = (
    All-map (λ y. (id_of y == id_of x) ≡ false) (Comparable before x) xs (newer-Comparable x) u.0,
    comparable xs u.1,
  )

  module _ {B : Type 0} where
    -- The items that a client gets that asks for page after page, each with the cursor of the page
    -- before, on fuel.
    abbrev pub follow :
        ℕ → (Option CursorPayload → PaginatedResponse B) → Option CursorPayload → Option (List B)
    follow zero page cursor = none
    follow (suc fuel) page cursor =
        let p = page cursor in
        next_page id_of created_at p.items p.next_cursor λ c. follow fuel page (some c)

    same_rest :
        (items : List B) (c : Option CursorPayload) (k l : CursorPayload → Option (List B))
        → ((x : CursorPayload) → k x ≡ l x)
        → next_page id_of created_at items c k ≡ next_page id_of created_at items c l
    same_rest items none k l h = refl
    same_rest items (some c) k l h = rw (next_page, h c) refl

    module _ (mapper : A → B) where
      follow-all_pages :
          (fuel : ℕ) (rows : List A) (limit : ℕ) (cursor : Option CursorPayload)
          → follow fuel (λ c. find_page id_of created_at rows limit c mapper) cursor
            ≡ all_pages id_of created_at fuel rows limit cursor mapper
      unfolding all_pages
      follow-all_pages zero rows limit cursor = refl
      follow-all_pages (suc fuel) rows limit cursor =
          same_rest _ _ _ _ λ c. follow-all_pages fuel rows limit (some c)

      -- The pages of the rows, ordered by the query, are all rows.
      pub pages_cover :
          (limit : ℕ) (rows : List A)
          → UniqueIds id_of rows
          → All (IsWhole id_of created_at) rows
          → let sorted = order_by before rows in
            Perm sorted rows
            × IsOrdered id_of created_at sorted
            × (follow
                  (suc (length rows))
                  (λ c. find_page id_of created_at sorted (suc limit) c mapper)
                  none
                ≡ some (map mapper sorted))
      pages_cover limit rows u w =
          let sorted = order_by before rows in
          let is_ordered =
            order_by-IsSorted before (λ x y z h k. ground (arith, h, k)) rows (comparable rows u) in
          (
            (∣ order_by-Perm before rows ∣₁),
            is_ordered,
            follow-all_pages (suc (length rows)) sorted (suc limit) none
                ∙ subst
                    (λ n.
                      all_pages id_of created_at (suc n) sorted (suc limit) none mapper
                      ≡ some (map mapper sorted))
                    (length-order_by before rows)
                    (all_pages_cover id_of created_at limit mapper sorted is_ordered
                      (order_by-All before (IsWhole id_of created_at) rows w)),
          )
