-- ===== src/Seed/Rows.antt =====
-- seed.ts: the users, the assets, the trading pair and its sequences. A row that is there is kept.
use hau_cex.Common.{
  ℕ, ◌*◌, ◌^◌, ◌==◌, true, String, str_eq, List, [], ◌∷◌, ◌++◌, Option, none, some, pos,
  if◌then◌else◌,
}
use hau_cex.Database.Schema.{
  User, UserRole, UserStatus, Asset, AssetStatus, TradingPair, TradingPairStatus, SequenceRow,
}
use hau_cex.Database.Table.{find_first, update_first}
use hau_cex.Database.Tx.{Tx, ok, ◌>>=◌, ◌>>◌, pure, gets, modify}
use hau_cex.Auth.{has_email}
use hau_cex.Orders.Place.{has_symbol}

-- What the script does not write down: the hash of the password, and the ids that Prisma draws.
pub record SeedValues : Type 0 where
  pub hashed_password : String
  pub treasury : ℕ
  pub alice : ℕ
  pub bob : ℕ
  pub admin : ℕ
  pub usdt : ℕ
  pub btc : ℕ
  pub pair : ℕ
  pub treasury_usdt : ℕ
  pub alice_usdt : ℕ
  pub alice_btc : ℕ
  pub bob_usdt : ℕ
  pub bob_btc : ℕ

-- The ids of the rows that are there at the end.
pub record Seeded : Type 0 where
  pub treasury : ℕ
  pub alice : ℕ
  pub bob : ℕ
  pub usdt : ℕ
  pub btc : ℕ

abbrev add_user : User → Option User → Tx ℕ
add_user u none db = (ok u.id, record db { users = db.users ++ u ∷ [] })
add_user u (some there) db = (ok there.id, db)

-- `user.upsert`, with nothing to update: the id of the row.
abbrev pub upsert_user : SeedValues → ℕ → String → String → UserRole → Tx ℕ
upsert_user v id email full_name role = do
  there ← gets (λ db. find_first (has_email email) db.users)
  add_user
      (record {
        id = id;
        email = email;
        password_hash = v.hashed_password;
        full_name = some full_name;
        role = role;
        status = UserStatus.active;
        last_login_at = none;
      })
      there

abbrev add_asset : Asset → Option Asset → Tx ℕ
add_asset a none db = (ok a.id, record db { assets = db.assets ++ a ∷ [] })
add_asset a (some there) db = (ok there.id, db)

-- `asset.upsert`, with nothing to update: the id of the row.
abbrev pub upsert_asset : ℕ → String → String → ℕ → Tx ℕ
upsert_asset id symbol name decimals = do
  there ← gets (λ db. find_first (λ a. str_eq a.symbol symbol) db.assets)
  add_asset
      (record {
        id = id;
        symbol = symbol;
        name = name;
        decimals = decimals;
        status = AssetStatus.active;
        deposit_enabled = true;
        trading_enabled = true;
      })
      there

abbrev pub new_pair : ℕ → ℕ → ℕ → TradingPair
new_pair id btc usdt = record {
  id = id;
  symbol = "BTC_USDT";
  base_asset_id = btc;
  quote_asset_id = usdt;
  price_precision = 2;
  quantity_precision = 5;
  tick_size = pos (10 ^ 16);
  step_size = pos (10 ^ 13);
  min_quantity = pos (10 ^ 14);
  min_notional = pos (5 * 10 ^ 18);
  maker_fee_rate = pos (10 ^ 15);
  taker_fee_rate = pos (10 ^ 15);
  status = TradingPairStatus.recovering;
}

abbrev add_pair : TradingPair → Option TradingPair → Tx ℕ
add_pair t none db = (ok t.id, record db { trading_pairs = db.trading_pairs ++ t ∷ [] })
add_pair t (some there) db = (
  ok there.id,
  record db {
    trading_pairs =
        update_first (has_symbol "BTC_USDT")
          (λ p. record p { status = TradingPairStatus.recovering }) db.trading_pairs;
  },
)

-- `tradingPair.upsert`: a pair that is there is RECOVERING again.
abbrev pub upsert_pair : ℕ → ℕ → ℕ → Tx ℕ
upsert_pair id btc usdt = do
  there ← gets (λ db. find_first (has_symbol "BTC_USDT") db.trading_pairs)
  add_pair (new_pair id btc usdt) there

abbrev pub restart : ℕ → (ℕ → ℕ) → ℕ → ℕ
restart pair seq k = if k == pair then 1 else seq k

-- `ALTER SEQUENCE ... RESTART WITH 1`.
abbrev pub restart_sequences : ℕ → Tx (Unit {0})
restart_sequences pair =
    modify
      λ db. record db { order_seq = restart pair db.order_seq; cmd_seq = restart pair db.cmd_seq }

abbrev put_zero : ℕ → Option SequenceRow → List SequenceRow → List SequenceRow
put_zero pair none rows = rows ++ record { trading_pair_id = pair; last_value = 0 } ∷ []
put_zero pair (some there) rows =
    update_first (λ r. r.trading_pair_id == pair) (λ r. record r { last_value = 0 }) rows

-- `orderSequence.upsert` and `engineCommandSequence.upsert`.
abbrev pub zero_row : ℕ → List SequenceRow → List SequenceRow
zero_row pair rows = put_zero pair (find_first (λ r. r.trading_pair_id == pair) rows) rows

abbrev pub zero_sequences : ℕ → Tx (Unit {0})
zero_sequences pair = modify λ db. record db {
  order_sequences = zero_row pair db.order_sequences;
  engine_command_sequences = zero_row pair db.engine_command_sequences;
}

abbrev pub seed_rows : SeedValues → Tx Seeded
seed_rows v = do
  treasury ← upsert_user v v.treasury "treasury@haucex.com" "System Treasury" UserRole.system
  alice ← upsert_user v v.alice "alice@haucex.com" "Alice Nguyen" UserRole.user
  bob ← upsert_user v v.bob "bob@haucex.com" "Bob Tran" UserRole.user
  admin ← upsert_user v v.admin "admin@haucex.com" "Admin" UserRole.admin
  usdt ← upsert_asset v.usdt "USDT" "Tether USD" 6
  btc ← upsert_asset v.btc "BTC" "Bitcoin" 8
  pair ← upsert_pair v.pair btc usdt
  restart_sequences pair
  zero_sequences pair
  pure (record { treasury = treasury; alice = alice; bob = bob; usdt = usdt; btc = btc })
