-- ===== src/Wallets/Query.antt =====
-- apps/backend/src/modules/wallets/wallets.service.ts: what a user reads of the wallets and of the
-- ledger. PostgreSQL fills the columns `created_at`, `updated_at` and the id of a ledger entry,
-- orders texts, and compares them in any case for `mode: 'insensitive'`; `toISOString` is node's.
pub mod Pages
use Prim.Native.String.{◌++◌ as join}
use hau_cex.Common.{
  ℕ, Bool, true, false, ◌&&◌, ◌==◌, List, map, filter, Option, none, some, String, str_eq,
  if◌then◌else◌,
}
use hau_cex.Platform.{Platform}
use hau_cex.Database.Schema.{
  Db, Asset, Wallet, LedgerEntry, LedgerEntryType, LedgerBalanceType, ReferenceType,
}
use hau_cex.Database.Exceptions.{wallet_not_found}
use hau_cex.Database.Table.{find_first}
use hau_cex.Database.Tx.{Tx, Error, or_throw}
use hau_cex.Database.Sorting.{order_by}
use hau_cex.Decimal.{format_decimal}
use hau_cex.Pagination.{CursorPayload, PaginatedResponse, find_page}
use hau_cex.Pagination.Cover.{newer}

-- `WalletResponseDto`; the symbol and the name are those of the row that the foreign key points to.
pub record WalletResponse : Type 0 where
  pub id : ℕ
  pub asset_symbol : Option String
  pub asset_name : Option String
  pub available_balance : String
  pub locked_balance : String
  pub total_balance : String
  pub updated_at : String

-- `LedgerItemDto`.
pub record LedgerItem : Type 0 where
  pub id : ℕ
  pub entry_type : LedgerEntryType
  pub balance_type : LedgerBalanceType
  pub amount : String
  pub before_balance : String
  pub after_balance : String
  pub asset_symbol : Option String
  pub reference_type : ReferenceType
  pub reference_id : ℕ
  pub operation_id : ℕ
  pub created_at : String

-- `LedgerQueryDto`, its cursor as what it decodes to. The service reads no other field of it.
pub record LedgerQuery : Type 0 where
  pub asset : Option String
  pub asset_symbol : Option String
  pub limit : Option ℕ
  pub cursor : Option CursorPayload

abbrev pub asset_at : List Asset → ℕ → Option Asset
asset_at assets asset_id = find_first (λ a. a.id == asset_id) assets

abbrev symbol_of_row : Option Asset → Option String
symbol_of_row none = none
symbol_of_row (some a) = some a.symbol

abbrev name_of_row : Option Asset → Option String
name_of_row none = none
name_of_row (some a) = some a.name

abbrev or_20 : Option ℕ → ℕ
or_20 none = 20
or_20 (some n) = n

-- `assetSymbol || asset`: the empty text counts as none.
abbrev pub or_else : Option String → Option String → Option String
or_else none t = t
or_else (some s) t = if str_eq s "" then t else some s

-- What PostgreSQL and node give: see above.
pub record Columns : Type 0 where
  pub id_of : LedgerEntry → ℕ
  pub created_at : LedgerEntry → ℕ
  pub updated_at : Wallet → ℕ
  pub to_iso_string : ℕ → String
  pub text_before : String → String → Bool
  pub same_text : String → String → Bool

module _ (env : Platform) (columns : Columns) where
  abbrev is_symbol : String → Option String → Bool
  is_symbol symbol none = false
  is_symbol symbol (some s) = columns.same_text s symbol

  -- `asset: { symbol: { equals: symbol, mode: 'insensitive' } }`.
  abbrev pub of_asset : List Asset → String → ℕ → Bool
  of_asset assets symbol asset_id = is_symbol symbol (symbol_of_row (asset_at assets asset_id))

  abbrev symbols_in_order : Option String → Option String → Bool
  symbols_in_order (some s) (some t) = columns.text_before s t
  symbols_in_order (some s) none = true
  symbols_in_order none (some t) = false
  symbols_in_order none none = true

  -- `orderBy: { asset: { symbol: 'asc' } }`.
  abbrev pub symbol_first : List Asset → Wallet → Wallet → Bool
  symbol_first assets w x =
      symbols_in_order (symbol_of_row (asset_at assets w.asset_id))
        (symbol_of_row (asset_at assets x.asset_id))

  -- `toWalletResponseDto`.
  abbrev pub to_wallet_response : List Asset → Wallet → WalletResponse
  to_wallet_response assets w = record {
    id = w.id;
    asset_symbol = symbol_of_row (asset_at assets w.asset_id);
    asset_name = name_of_row (asset_at assets w.asset_id);
    available_balance = format_decimal env w.available_balance;
    locked_balance = format_decimal env w.locked_balance;
    total_balance = format_decimal env (env.plus w.available_balance w.locked_balance);
    updated_at = columns.to_iso_string (columns.updated_at w);
  }

  -- `toLedgerItemDto`.
  abbrev pub to_ledger_item : List Asset → LedgerEntry → LedgerItem
  to_ledger_item assets e = record {
    id = columns.id_of e;
    entry_type = e.entry_type;
    balance_type = e.balance_type;
    amount = format_decimal env e.amount;
    before_balance = format_decimal env e.before_balance;
    after_balance = format_decimal env e.after_balance;
    asset_symbol = symbol_of_row (asset_at assets e.asset_id);
    reference_type = e.reference_type;
    reference_id = e.reference_id;
    operation_id = e.operation_id;
    created_at = columns.to_iso_string (columns.created_at e);
  }

  unfoldable pub get_my_wallets : ℕ → Db → List WalletResponse
  get_my_wallets user_id db =
      map (to_wallet_response db.assets)
        (order_by (symbol_first db.assets) (filter (λ w. w.user_id == user_id) db.wallets))

  abbrev of_target : Option String → List Asset → LedgerEntry → Bool
  of_target none assets e = true
  of_target (some s) assets e = if str_eq s "" then true else of_asset assets s e.asset_id

  -- The entries of the user, of the asset that the query names.
  abbrev pub ledger_rows : ℕ → LedgerQuery → Db → List LedgerEntry
  ledger_rows user_id query db =
      filter
        (λ e.
          e.user_id == user_id && of_target (or_else query.asset_symbol query.asset) db.assets e)
        db.ledger_entries

  abbrev pub newer_entry : LedgerEntry → LedgerEntry → Bool
  newer_entry = newer columns.id_of columns.created_at

  unfoldable pub get_my_ledger : ℕ → LedgerQuery → Db → PaginatedResponse LedgerItem
  get_my_ledger user_id query db =
      find_page columns.id_of columns.created_at
        (order_by newer_entry (ledger_rows user_id query db)) (or_20 query.limit) query.cursor
        (to_ledger_item db.assets)

  -- `findWalletOrThrow`. Where more than one wallet fits, PostgreSQL promises none of them.
  pub find_wallet_or_throw : ℕ → String → Tx Wallet
  find_wallet_or_throw user_id asset_symbol db =
      or_throw
        (find_first
          (λ w.
            w.user_id == user_id && of_asset db.assets (env.to_upper_case asset_symbol) w.asset_id)
          db.wallets)
        (Error.http (
          wallet_not_found
            (some (join "user " (join (env.uuid_text user_id) (join " and asset " asset_symbol))))))
        db
