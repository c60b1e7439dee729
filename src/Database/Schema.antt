-- ===== src/Database/Schema.antt =====
-- apps/backend/prisma/schema.prisma: the tables as the services use them. An id is a uuid and is
-- only compared, so it is a number; an amount is the integer of its units of 10^-18; a time is a
-- number. Columns that no service reads or writes by itself are left out.
use hau_cex.Common.{ℕ, Bool, String, Option, List, ℤ}

pub data TradingPairStatus : Type 0 where
  recovering ready suspended : TradingPairStatus

pub data OrderSide : Type 0 where
  buy sell : OrderSide

pub data OrderStatus : Type 0 where
  pending open_ partially_filled filled cancel_pending cancelled rejected : OrderStatus

pub data LedgerBalanceType : Type 0 where
  available locked : LedgerBalanceType

pub data LedgerEntryType : Type 0 where
  initial_balance deposit order_lock order_unlock trade_settlement trading_fee : LedgerEntryType

pub data OutboxStatus : Type 0 where
  pending published failed : OutboxStatus

pub data ReferenceType : Type 0 where
  order trade deposit system : ReferenceType

pub data AssetStatus : Type 0 where
  active inactive : AssetStatus

pub record Asset : Type 0 where
  pub id : ℕ
  pub symbol : String
  pub name : String
  pub decimals : ℕ
  pub status : AssetStatus
  pub deposit_enabled : Bool
  pub trading_enabled : Bool

pub record TradingPair : Type 0 where
  pub id : ℕ
  pub symbol : String
  pub base_asset_id : ℕ
  pub quote_asset_id : ℕ
  pub price_precision : ℕ
  pub quantity_precision : ℕ
  pub tick_size : ℤ
  pub step_size : ℤ
  pub min_quantity : ℤ
  pub min_notional : ℤ
  pub maker_fee_rate : ℤ
  pub taker_fee_rate : ℤ
  pub status : TradingPairStatus

pub record Wallet : Type 0 where
  pub id : ℕ
  pub user_id : ℕ
  pub asset_id : ℕ
  pub available_balance : ℤ
  pub locked_balance : ℤ

pub record LedgerEntry : Type 0 where
  pub wallet_id : ℕ
  pub user_id : ℕ
  pub asset_id : ℕ
  pub entry_type : LedgerEntryType
  pub balance_type : LedgerBalanceType
  pub amount : ℤ
  pub before_balance : ℤ
  pub after_balance : ℤ
  pub reference_type : ReferenceType
  pub reference_id : ℕ
  pub operation_id : ℕ

pub record Order : Type 0 where
  pub id : ℕ
  pub user_id : ℕ
  pub trading_pair_id : ℕ
  pub side : OrderSide
  pub status : OrderStatus
  pub price : ℤ
  pub quantity : ℤ
  pub filled_quantity : ℤ
  pub remaining_quantity : ℤ
  pub locked_asset_id : ℕ
  pub locked_amount : ℤ
  pub remaining_locked_amount : ℤ
  pub order_sequence : ℕ
  pub idempotency_key : String
  pub idempotency_payload_hash : String

pub record Trade : Type 0 where
  pub id : ℕ
  pub engine_match_id : ℕ
  pub engine_message_id : ℕ
  pub trading_pair_id : ℕ
  pub buy_order_id : ℕ
  pub sell_order_id : ℕ
  pub buyer_user_id : ℕ
  pub seller_user_id : ℕ
  pub maker_order_id : ℕ
  pub taker_order_id : ℕ
  pub taker_side : OrderSide
  pub execution_price : ℤ
  pub executed_quantity : ℤ
  pub quote_amount : ℤ
  pub maker_fee_rate : ℤ
  pub taker_fee_rate : ℤ
  pub buyer_fee_amount : ℤ
  pub seller_fee_amount : ℤ
  pub sequence : ℕ
  pub matched_at : ℕ
  pub settled_at : Option ℕ

-- The payloads of the commands that the backend sends to the matching engine.
pub data CommandPayload : Type 0 where
  place_order :
      (trading_pair_id : ℕ) (market : String) (order_id user_id : ℕ) (side : OrderSide)
      (price quantity : String) (order_sequence created_at : ℕ)
      → CommandPayload
  cancel_order :
      (trading_pair_id : ℕ) (market : String) (order_id user_id requested_at : ℕ) → CommandPayload
  open_market :
      (trading_pair_id : ℕ) (market : String)
      (base_asset_id quote_asset_id price_precision quantity_precision : ℕ)
      (tick_size step_size min_quantity min_notional : String) (opened_at : ℕ)
      → CommandPayload

-- `messageType` of an outbox row.
pub data CommandType : Type 0 where
  place_order cancel_order open_market : CommandType

pub record OutboxEvent : Type 0 where
  pub id : ℕ
  pub message_id : ℕ
  pub stream_name : String
  pub message_type : CommandType
  pub payload : CommandPayload
  pub status : OutboxStatus
  pub partition_key : Option ℕ
  pub command_sequence : Option ℕ
  pub retry_count : ℕ
  pub last_error : Option String
  pub next_retry_at : Option ℕ
  pub created_at : ℕ
  pub published_at : Option ℕ

pub record ProcessedEvent : Type 0 where
  pub consumer_name : String
  pub message_id : ℕ
  pub message_type : String
  pub result : String

pub data UserRole : Type 0 where
  user admin system : UserRole

pub data UserStatus : Type 0 where
  active locked : UserStatus

pub record User : Type 0 where
  pub id : ℕ
  pub email : String
  pub password_hash : String
  pub full_name : Option String
  pub role : UserRole
  pub status : UserStatus
  pub last_login_at : Option ℕ

pub record Session : Type 0 where
  pub id : ℕ
  pub user_id : ℕ
  pub refresh_token_hash : String
  pub expires_at : ℕ
  pub revoked_at : Option ℕ

-- A row of `order_sequences` or of `engine_command_sequences`.
pub record SequenceRow : Type 0 where
  pub trading_pair_id : ℕ
  pub last_value : ℕ

-- The tables, and the next value of each PostgreSQL sequence by trading pair.
pub record Db : Type 0 where
  pub trading_pairs : List TradingPair
  pub wallets : List Wallet
  pub ledger_entries : List LedgerEntry
  pub orders : List Order
  pub trades : List Trade
  pub outbox_events : List OutboxEvent
  pub processed_events : List ProcessedEvent
  pub users : List User
  pub sessions : List Session
  pub assets : List Asset
  pub order_sequences : List SequenceRow
  pub engine_command_sequences : List SequenceRow
  pub order_seq : ℕ → ℕ
  pub cmd_seq : ℕ → ℕ
