-- ===== src/Wallets/Query/Pages.antt =====
-- wallets.service.ts: the wallets of a user, and the pages of the ledger, one after another.
use hau_cex.Common.{ℕ, suc, ◌≡◌, List, Option, none, some, All, length, map}
use mathlib.Core.List.{Perm}
use hau_cex.Platform.{Platform}
use hau_cex.Database.Schema.{Db, LedgerEntry}
use hau_cex.Database.Sorting.{order_by}
use hau_cex.Pagination.{CursorPayload, PaginatedResponse}
use hau_cex.Pagination.Cover.{IsOrdered, IsWhole}
use hau_cex.Pagination.Sorted.{UniqueIds, filter-All, filter-UniqueIds, follow, pages_cover}
use hau_cex.Wallets.Query.{
  Columns, LedgerItem, LedgerQuery, ledger_rows, newer_entry, to_ledger_item, get_my_ledger,
}

module _ (env : Platform) (columns : Columns) (user_id : ℕ) (query : LedgerQuery) (db : Db) where
  -- The page at a cursor.
  abbrev pub page_at : ℕ → Option CursorPayload → PaginatedResponse LedgerItem
  page_at limit cursor =
      get_my_ledger env columns user_id (record query { limit = some limit; cursor = cursor }) db

  -- A client that asks for page after page of the user's ledger, each with the cursor of the page
  -- before, gets each entry of the user of that asset once, the newest first, in at most one page
  -- more than there are entries. The ids of the entries differ, a page has at least one entry, and
  -- the times are whole milliseconds.
  pub ledger_pages_cover :
      (limit : ℕ)
      → UniqueIds columns.id_of db.ledger_entries
      → All (IsWhole columns.id_of columns.created_at) db.ledger_entries
      → let own = ledger_rows env columns user_id query db in
        (sorted : List LedgerEntry) × Perm sorted own
        × IsOrdered columns.id_of columns.created_at sorted
        × (follow columns.id_of columns.created_at (suc (length own)) (page_at (suc limit)) none
            ≡ some (map (to_ledger_item env columns db.assets) sorted))
  unfolding get_my_ledger
  ledger_pages_cover limit u w =
      let own = ledger_rows env columns user_id query db in
      let rows = order_by (newer_entry env columns) own in
      let (perm, sorted, pages) =
        pages_cover columns.id_of columns.created_at (to_ledger_item env columns db.assets) limit
          own (filter-UniqueIds columns.id_of _ db.ledger_entries u)
          (filter-All _ _ db.ledger_entries w) in
      (rows, perm, sorted, pages)
