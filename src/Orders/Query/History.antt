-- ===== src/Orders/Query/History.antt =====
-- order-query.service.ts: the pages of a user's history, one after another.
use hau_cex.Common.{ℕ, suc, ◌≡◌, List, Option, none, some, String, All, length, map}
use mathlib.Core.List.{Perm}
use hau_cex.Platform.{Platform}
use hau_cex.Database.Schema.{Db, Order}
use hau_cex.Database.Sorting.{order_by}
use hau_cex.Pagination.{CursorPayload, PaginatedResponse}
use hau_cex.Pagination.Cover.{IsOrdered, IsWhole}
use hau_cex.Pagination.Sorted.{UniqueIds, filter-All, filter-UniqueIds, follow, pages_cover}
use hau_cex.Orders.Query.{OrderResponse, history_rows, newer_order, to_response, get_order_history}

module _ (env : Platform) (created_at updated_at : Order → ℕ) (to_iso_string : ℕ → String)
    (user_id : ℕ) (symbol : Option String) (db : Db) where
  -- The page of the user's history at a cursor.
  abbrev pub page_at : ℕ → Option CursorPayload → PaginatedResponse OrderResponse
  page_at limit cursor =
      get_order_history env created_at updated_at to_iso_string user_id
        (record { symbol = symbol; limit = some limit; cursor = cursor }) db

  -- A client that asks for page after page of the user's history, each with the cursor of the page
  -- before, gets each order of the user of that pair once, the newest first, in at most one page
  -- more than there are orders. The ids of the orders differ, a page has at least one order, and
  -- the times are whole milliseconds.
  pub history_pages_cover :
      (limit : ℕ)
      → UniqueIds (λ o. o.id) db.orders
      → All (IsWhole (λ o. o.id) created_at) db.orders
      → let own = history_rows env created_at updated_at to_iso_string user_id symbol db in
        (sorted : List Order) × Perm sorted own
        × IsOrdered (λ o. o.id) created_at sorted
        × (follow (λ o. o.id) created_at (suc (length own)) (page_at (suc limit)) none
            ≡ some
                (map (to_response env created_at updated_at to_iso_string db.trading_pairs) sorted))
  unfolding get_order_history
  history_pages_cover limit u w =
      let own = history_rows env created_at updated_at to_iso_string user_id symbol db in
      let rows = order_by (newer_order env created_at updated_at to_iso_string) own in
      let (perm, sorted, pages) =
        pages_cover (λ o. o.id) created_at
          (to_response env created_at updated_at to_iso_string db.trading_pairs) limit own
          (filter-UniqueIds (λ o. o.id) _ db.orders u) (filter-All _ _ db.orders w) in
      (rows, perm, sorted, pages)
