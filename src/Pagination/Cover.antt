-- ===== src/Pagination/Cover.antt =====
-- cursor.helper.ts: the pages that a client gets, one by one, are the whole table.
use hau_cex.Common.{
  ℕ, zero, suc, ◌≤◌, ◌<◌, ◌≡◌, refl, sym, subst, ap, ◌∙◌, Bool, true, false, ◌&&◌, ◌||◌, List, [],
  ◌∷◌, ◌++◌, map, Option, none, some, inl, inr, ltb, ◌==◌, length, take, filter, All, Bool-cases,
  arith, append_assoc, map-append,
}
use hau_cex.Database.Sorting.{IsSorted}
use hau_cex.Pagination.{
  CursorPayload, PaginatedResponse, to_millis, last_item, encode_cursor, is_after,
  build_cursor_where, build_paginated_result, find_page, all_pages,
}

module _ {A : Type 0} (id_of created_at : A → ℕ) where
  -- Newer, or as old with a greater id.
  abbrev pub newer : A → A → Bool
  newer x y =
      ltb (created_at y) (created_at x) || (created_at y == created_at x && ltb (id_of y) (id_of x))

  -- The order of the query, of rows that differ.
  abbrev pub IsOrdered : List A → Type 0
  IsOrdered = IsSorted newer

  -- The time is a whole number of milliseconds.
  abbrev pub IsWhole : A → Type 0
  IsWhole x = to_millis (created_at x) ≡ created_at x

  filter_none : (p : A → Bool) (xs : List A) → All (λ x. p x ≡ false) xs → filter p xs ≡ []
  filter_none p [] h = refl
  filter_none p (x ∷ xs) h = rw h.0 (filter_none p xs h.1)

  filter-All : (p : A → Bool) (xs : List A) → All (λ x. p x ≡ true) xs → filter p xs ≡ xs
  filter-All p [] h = refl
  filter-All p (x ∷ xs) h = rw h.0 (ap (λ l. x ∷ l) (filter-All p xs h.1))

  filter_append : (p : A → Bool) (xs ys : List A) → filter p (xs ++ ys) ≡ filter p xs ++ filter p ys
  filter_append p [] ys = refl
  filter_append p (x ∷ xs) ys = elim (Bool-cases (p x)) [
    | inl b ↦ rw b (ap (λ l. x ∷ l) (filter_append p xs ys))
    | inr b ↦ rw b (filter_append p xs ys)
  ]

  after_newer :
      (x y : A)
      → IsWhole x
      → is_after id_of created_at (encode_cursor id_of created_at x) y ≡ newer x y
  after_newer x y w = rw w refl

  newer_irrefl : (x : A) → newer x x ≡ false
  newer_irrefl x = ground arith

  newer-asym : (x y : A) → newer x y ≡ true → newer y x ≡ false
  newer-asym x y h = ground (arith, h)

  All-middle : (P : A → Type 0) (xs : List A) (x : A) (ys : List A) → All P (xs ++ x ∷ ys) → P x
  All-middle P [] x ys h = h.0
  All-middle P (z ∷ xs) x ys h = All-middle P xs x ys h.1

  after_newest :
      (xs : List A) (x : A) (ys : List A)
      → IsOrdered (xs ++ x ∷ ys)
      → filter (newer x) (xs ++ x ∷ ys) ≡ ys
  after_newest [] x ys (newest, _) = rw (newer_irrefl x) (filter-All (newer x) ys newest)
  after_newest (z ∷ xs) x ys (newest, h) =
      rw (newer-asym z x (All-middle (λ y. newer z y ≡ true) xs x ys newest))
        (after_newest xs x ys h)

  -- What follows a row is what is after its cursor.
  after_cursor :
      (xs : List A) (x : A) (ys : List A)
      → IsOrdered (xs ++ x ∷ ys)
      → IsWhole x
      → filter (is_after id_of created_at (encode_cursor id_of created_at x)) (xs ++ x ∷ ys) ≡ ys
  after_cursor xs x ys h w =
      subst
        (λ t.
          filter (is_after id_of created_at (record { id = id_of x; created_at = t }))
            (xs ++ x ∷ ys)
          ≡ ys)
        (sym w) (after_newest xs x ys h)

  -- A page of more than `n` rows, cut after its row `n + 1`.
  record Cut (n : ℕ) (ys : List A) : Type 0 where
    pub before : List A
    pub last : A
    pub left : List A
    pub taken : take (suc n) ys ≡ before ++ last ∷ []
    pub is_last : last_item (take (suc n) ys) ≡ some last
    pub all : ys ≡ before ++ last ∷ left
    pub shorter : length left < length ys

  cut : (n : ℕ) (ys : List A) → n < length ys → Cut n ys
  cut n [] h = absurd (omega (arith, h))
  cut zero (y ∷ ys) h = record {
    before = [];
    last = y;
    left = ys;
    taken = refl;
    is_last = refl;
    all = refl;
    shorter = omega arith;
  }
  cut (suc n) (y ∷ []) h = absurd (omega (arith, h))
  cut (suc n) (y ∷ v ∷ ys) h =
      let c = cut n (v ∷ ys) (omega (arith, h)) in
      record {
        before = y ∷ c.before;
        last = c.last;
        left = c.left;
        taken = ap (λ l. y ∷ l) c.taken;
        is_last = c.is_last;
        all = ap (λ l. y ∷ l) c.all;
        shorter = omega (arith, c.shorter);
      }

  take-take : (n : ℕ) (xs : List A) → take n (take (suc n) xs) ≡ take n xs
  take-take zero xs = refl
  take-take (suc n) [] = refl
  take-take (suc n) (x ∷ xs) = ap (λ l. x ∷ l) (take-take n xs)

  take_all : (n : ℕ) (xs : List A) → length xs ≤ n → take n xs ≡ xs
  take_all zero [] h = refl
  take_all zero (x ∷ xs) h = absurd (omega (arith, h))
  take_all (suc n) [] h = refl
  take_all (suc n) (x ∷ xs) h = ap (λ l. x ∷ l) (take_all n xs (omega (arith, h)))

  length-take : (n : ℕ) (xs : List A) → n < length xs → length (take (suc n) xs) ≡ suc n
  length-take n [] h = absurd (omega (arith, h))
  length-take zero (x ∷ xs) h = refl
  length-take (suc n) (x ∷ xs) h = omega (arith, length-take n xs (omega (arith, h)))

  module _ {B : Type 0} (n : ℕ) (mapper : A → B) where
    abbrev page : List A → Option CursorPayload → PaginatedResponse B
    page table cursor = find_page id_of created_at table (suc n) cursor mapper

    -- The last page.
    page_last :
        (table ys : List A) (cursor : Option CursorPayload)
        → filter (build_cursor_where id_of created_at cursor) table ≡ ys
        → length ys ≤ suc n
        → page table cursor ≡ record { items = map mapper ys; next_cursor = none; has_more = false }
    unfolding find_page build_paginated_result
    page_last table ys cursor e h =
        rw (e, take_all (suc (suc n)) ys (omega (arith, h)), not_more) refl
      where
        not_more : ltb (suc n) (length ys) ≡ false
        not_more = ground (arith, h)

    -- A page that is followed by another.
    page_more :
        (table ys : List A) (cursor : Option CursorPayload)
        → filter (build_cursor_where id_of created_at cursor) table ≡ ys
        → suc n < length ys
        → (c : Cut n ys)
        → page table cursor ≡ record {
          items = map mapper (c.before ++ c.last ∷ []);
          next_cursor = some (encode_cursor id_of created_at c.last);
          has_more = true;
        }
    unfolding find_page build_paginated_result
    page_more table ys cursor e h c =
        rw (e, length-take (suc n) ys h, more, take-take (suc n) ys, c.is_last, c.taken) refl
      where
        more : ltb (suc n) (suc (suc n)) ≡ true
        more = ground arith

    split :
        (table xs ys : List A) (c : Cut n ys)
        → table ≡ xs ++ ys
        → table ≡ (xs ++ c.before) ++ c.last ∷ c.left
    split table xs ys c d =
        d ∙ (ap (λ l. xs ++ l) c.all ∙ sym (append_assoc xs c.before (c.last ∷ c.left)))

    after_cut :
        (table xs : List A) (x : A) (left : List A)
        → table ≡ xs ++ x ∷ left
        → IsOrdered table
        → All IsWhole table
        → filter (is_after id_of created_at (encode_cursor id_of created_at x)) table ≡ left
    after_cut table xs x left d o w = rw d (
        after_cursor xs x left (subst IsOrdered d o)
          (All-middle IsWhole xs x left (subst (All IsWhole) d w)))

    joined :
        (ys : List A) (c : Cut n ys)
        → map mapper (c.before ++ c.last ∷ []) ++ map mapper c.left ≡ map mapper ys
    joined ys c =
        sym (map-append mapper (c.before ++ c.last ∷ []) c.left)
        ∙ ap (map mapper) (append_assoc c.before (c.last ∷ []) c.left ∙ sym c.all)

    -- The rest of the table, from the row of a cursor on.
    pages_from :
        (fuel : ℕ) (table xs ys : List A) (cursor : Option CursorPayload)
        → table ≡ xs ++ ys
        → IsOrdered table
        → All IsWhole table
        → filter (build_cursor_where id_of created_at cursor) table ≡ ys
        → length ys < fuel
        → all_pages id_of created_at fuel table (suc n) cursor mapper ≡ some (map mapper ys)
    unfolding all_pages
    pages_from zero table xs ys cursor d o w e h = absurd (omega (arith, h))
    pages_from (suc fuel) table xs ys cursor d o w e h =
        elim (Bool-cases (ltb (suc n) (length ys))) [
          | inl more ↦
              let c = cut n ys (ground (arith, more)) in
              let here = split table xs ys c d in
              rw
                (
                  page_more table ys cursor e (ground (arith, more)) c,
                  pages_from fuel table (xs ++ c.before ++ c.last ∷ []) c.left
                      (some (encode_cursor id_of created_at c.last))
                      (here ∙ sym (append_assoc (xs ++ c.before) (c.last ∷ []) c.left)) o w
                      (after_cut table (xs ++ c.before) c.last c.left here o w)
                      (omega (arith, c.shorter, h)),
                )
                (ap some (joined ys c))
          | inr done ↦ rw (page_last table ys cursor e (ground (arith, done))) refl
        ]

    -- A client that asks for page after page, each with the cursor of the page before, gets every row
    -- of the table once, in the order of the query, and then no cursor, in at most one page more
    -- than there are rows. The rows are in the order of the query, a page has at least one row, and
    -- the times are whole milliseconds.
    pub all_pages_cover :
        (table : List A)
        → IsOrdered table
        → All IsWhole table
        → all_pages id_of created_at (suc (length table)) table (suc n) none mapper
          ≡ some (map mapper table)
    all_pages_cover table o w =
        pages_from (suc (length table)) table [] table none refl o w
          (filter-All (λ _. true) table (always table)) (omega arith)
      where
        always : (xs : List A) → All (λ _. true ≡ true) xs
        always [] = tt
        always (x ∷ xs) = (refl, always xs)
