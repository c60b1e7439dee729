-- ===== src/Testing.antt =====
-- What the examples of the tests share: a platform that meets the documented behaviour (exact sums,
-- products cut to 18 decimals, plain stand-ins for the texts), and a small exchange.
use Prim.Native.Nat.{◌/◌, ◌%◌}
use hau_cex.Common.{
  ℕ, true, ◌*◌, ◌^◌, refl, [], ◌∷◌, pos, pos_part, neg_part, sub_ℕ, ◌+ℤ◌, ◌-ℤ◌, arith, int_laws,
}
use hau_cex.Platform.{Platform}
use hau_cex.Database.Schema.{
  Db, AssetStatus, Wallet, LedgerEntry, LedgerBalanceType, LedgerEntryType, ReferenceType, Order,
  OrderSide, OrderStatus, TradingPair, TradingPairStatus,
}
use hau_cex.Wallets.Balance.Ledger.{LedgerMatches}
use hau_cex.EngineEvents.Settlement.Validity.{IsValid}

-- 10^18 units.
abbrev pub unit : ℕ
unit = 10 ^ 18

abbrev pub example_platform : Platform
example_platform = record {
  plus = ◌+ℤ◌;
  minus = ◌-ℤ◌;
  mul = λ a b. sub_ℕ ((pos_part a * pos_part b) / unit) ((neg_part a * pos_part b) / unit);
  modulo = λ a b. pos (pos_part a % pos_part b);
  to_fixed18 = λ a. "0.000000000000000000";
  sha256 = λ s. s;
  uuid_text = λ n. "00000000-0000-0000-0000-000000000000";
  to_upper_case = λ s. s;
  plus_exact = λ a b fits. refl;
  minus_exact = λ a b fits. refl;
}

-- BTC is asset 1, USDT asset 2; the fees are 0.1 and 0.2 percent.
abbrev pub example_pair : TradingPair
example_pair = record {
  id = 1;
  symbol = "BTC/USDT";
  base_asset_id = 1;
  quote_asset_id = 2;
  price_precision = 2;
  quantity_precision = 6;
  tick_size = pos (10 ^ 16);
  step_size = pos (10 ^ 12);
  min_quantity = pos (10 ^ 12);
  min_notional = pos unit;
  maker_fee_rate = pos (10 ^ 15);
  taker_fee_rate = pos (2 * 10 ^ 15);
  status = TradingPairStatus.ready;
}

abbrev wallet : ℕ → ℕ → ℕ → ℕ → ℕ → Wallet
wallet id user_id asset_id available locked = record {
  id = id;
  user_id = user_id;
  asset_id = asset_id;
  available_balance = pos (available * unit);
  locked_balance = pos (locked * unit);
}

abbrev entry : ℕ → ℕ → ℕ → LedgerBalanceType → ℕ → LedgerEntry
entry wallet_id user_id asset_id balance_type amount = record {
  wallet_id = wallet_id;
  user_id = user_id;
  asset_id = asset_id;
  entry_type = LedgerEntryType.initial_balance;
  balance_type = balance_type;
  amount = pos (amount * unit);
  before_balance = pos 0;
  after_balance = pos (amount * unit);
  reference_type = ReferenceType.system;
  reference_id = 0;
  operation_id = 0;
}

abbrev limit_order : ℕ → ℕ → OrderSide → ℕ → ℕ → Order
limit_order id user_id side locked_asset_id locked = record {
  id = id;
  user_id = user_id;
  trading_pair_id = 1;
  side = side;
  status = OrderStatus.open_;
  price = pos (50 * unit);
  quantity = pos unit;
  filled_quantity = pos 0;
  remaining_quantity = pos unit;
  locked_asset_id = locked_asset_id;
  locked_amount = pos (locked * unit);
  remaining_locked_amount = pos (locked * unit);
  order_sequence = id;
  idempotency_key = "first";
  idempotency_payload_hash = "payload";
}

-- User 1 buys and user 2 sells one BTC at 50 USDT.
abbrev pub buy_order : Order
buy_order = limit_order 100 1 OrderSide.buy 2 50

abbrev pub sell_order : Order
sell_order = limit_order 200 2 OrderSide.sell 1 1

abbrev pub quote_wallet : Wallet
quote_wallet = wallet 10 1 2 100 50

abbrev pub example_db : Db
example_db = record {
  trading_pairs = example_pair ∷ [];
  wallets = quote_wallet ∷ wallet 11 1 1 0 0 ∷ wallet 20 2 1 3 1 ∷ wallet 21 2 2 0 0 ∷ [];
  ledger_entries =
      entry 10 1 2 LedgerBalanceType.available 100
      ∷ entry 10 1 2 LedgerBalanceType.locked 50
      ∷ entry 20 2 1 LedgerBalanceType.available 3
      ∷ entry 20 2 1 LedgerBalanceType.locked 1
      ∷ [];
  orders = buy_order ∷ sell_order ∷ [];
  trades = [];
  outbox_events = [];
  processed_events = [];
  users = [];
  sessions = [];
  assets =
      record {
        id = 1;
        symbol = "BTC";
        name = "Bitcoin";
        decimals = 8;
        status = AssetStatus.active;
        deposit_enabled = true;
        trading_enabled = true;
      }
      ∷ record {
        id = 2;
        symbol = "USDT";
        name = "Tether USD";
        decimals = 6;
        status = AssetStatus.active;
        deposit_enabled = true;
        trading_enabled = true;
      }
      ∷ [];
  order_sequences = [];
  engine_command_sequences = [];
  order_seq = λ pair. 201;
  cmd_seq = λ pair. 7;
}

pub example_db-IsValid : IsValid example_db
example_db-IsValid = record {
  unique = (refl, (refl, (refl, (refl, tt))));
  solvent = ground arith;
  matches = matches;
}
  where
    matches : LedgerMatches example_db
    matches LedgerBalanceType.available id = grind int_laws
    matches LedgerBalanceType.locked id = grind int_laws
