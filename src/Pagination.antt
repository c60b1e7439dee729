-- ===== src/Pagination.antt =====
-- apps/backend/src/common/helpers/cursor.helper.ts: pages by a cursor, of rows ordered from the newest
-- to the oldest. A time is in microseconds, as in the database; a `Date` keeps milliseconds. The
-- text of a cursor is left out: a cursor is what it decodes to.
pub mod Cover
pub mod Sorted
use Prim.Native.Nat.{◌/◌}
use hau_cex.Common.{
  ℕ, zero, suc, ◌*◌, Bool, true, false, ◌&&◌, ◌||◌, List, [], ◌∷◌, ◌++◌, map, Option, none, some,
  ltb, ◌==◌, length, take, filter, if◌then◌else◌,
}

-- `CursorPayload`.
pub record CursorPayload : Type 0 where
  pub id : ℕ
  pub created_at : ℕ

-- `PaginatedResponseDto`, its cursor as what it decodes to.
pub record PaginatedResponse (A : Type 0) : Type 0 where
  pub items : List A
  pub next_cursor : Option CursorPayload
  pub has_more : Bool

-- `new Date(...)` of a time.
abbrev pub to_millis : ℕ → ℕ
to_millis t = t / 1000 * 1000

-- `items[items.length - 1]`.
abbrev pub last_item : {A : Type 0} → List A → Option A
last_item [] = none
last_item (x ∷ []) = some x
last_item (x ∷ y ∷ xs) = last_item (y ∷ xs)

module _ {A : Type 0} (id_of created_at : A → ℕ) where
  -- `encodeCursor`.
  abbrev pub encode_cursor : A → CursorPayload
  encode_cursor x = record { id = id_of x; created_at = to_millis (created_at x) }

  -- `buildCursorWhere`, as the test that it is.
  abbrev pub is_after : CursorPayload → A → Bool
  is_after c x =
      ltb (created_at x) c.created_at || (created_at x == c.created_at && ltb (id_of x) c.id)

  abbrev pub build_cursor_where : Option CursorPayload → A → Bool
  build_cursor_where none x = true
  build_cursor_where (some c) x = is_after c x

  abbrev encode_last : Option A → Option CursorPayload
  encode_last none = none
  encode_last (some x) = some (encode_cursor x)

  module _ {B : Type 0} where
    -- `buildPaginatedResult`.
    pub build_paginated_result : List A → ℕ → (A → B) → PaginatedResponse B
    build_paginated_result rows limit mapper =
        let has_more = ltb limit (length rows) in
        let items = if has_more then take limit rows else rows in
        record {
          items = map mapper items;
          next_cursor = if has_more then encode_last (last_item items) else none;
          has_more = has_more;
        }

    -- A query of a page: `findMany` with `take: limit + 1`, of a table in the order of the query.
    pub find_page : List A → ℕ → Option CursorPayload → (A → B) → PaginatedResponse B
    find_page table limit cursor mapper =
        build_paginated_result (take (suc limit) (filter (build_cursor_where cursor) table)) limit
          mapper

    abbrev pub next_page :
        List B → Option CursorPayload → (CursorPayload → Option (List B)) → Option (List B)
    next_page items none rest = some items
    next_page items (some c) rest = elim (rest c) [ none ↦ none | some more ↦ some (items ++ more) ]

    -- The items of the pages that a client gets, each with the cursor of the page before, on fuel.
    unfoldable pub all_pages : ℕ → List A → ℕ → Option CursorPayload → (A → B) → Option (List B)
    all_pages zero table limit cursor mapper = none
    all_pages (suc fuel) table limit cursor mapper =
        let page = find_page table limit cursor mapper in
        next_page page.items page.next_cursor λ c. all_pages fuel table limit (some c) mapper
