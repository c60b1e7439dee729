-- ===== src/Tests/Trades.antt =====
-- The engine's trade between the two orders of the example, and the cancellation of one of them.
use hau_cex.Common.{◌≡◌, refl, ◌*◌, some, none, pos, Option, ℕ, ◌++◌, [], ◌∷◌, arith}
use hau_cex.Common.Int.{◌+ℤ◌, ◌-ℤ◌, neg_ℤ}
use hau_cex.Database.Schema.{Order, OrderSide, OrderStatus}
use hau_cex.Database.Table.{find_first}
use hau_cex.Database.Tx.{ok, Tx, transaction}
use hau_cex.Wallets.Balance.{
  add_to_balances, debit_locked, credit_available, move_locked_to_available,
}
use hau_cex.Wallets.Balance.Totals.{asset_total}
use hau_cex.EngineEvents.Settlement.{
  TradeCreatedPayload, Fresh, settle_trade, settle_between, move_funds, debit_user, credit_user,
  collect_fee, find_or_create_treasury_wallet, order_has_id, owned_by, quote_amount, trade_row,
}
use hau_cex.EngineEvents.Settlement.Validity.{IsValid}
use hau_cex.EngineEvents.Settlement.Funds.{FeesAreExact, settle_trade_conserves}
use hau_cex.EngineEvents.Settlement.Fills.{IsFilledBy, FillsExactly, settle_trade_fills}
use hau_cex.EngineEvents.Cancellation.{handle_order_cancelled, unlock_remaining}
use hau_cex.EngineEvents.Cancellation.Effects.{handle_order_cancelled_once}
use hau_cex.EngineEvents.Cancellation.Unlock.{handle_order_cancelled_unlocks}
use hau_cex.Testing.{
  unit, example_platform, example_db, example_db-IsValid, example_pair, buy_order, sell_order,
  quote_wallet,
}

abbrev pub trade : TradeCreatedPayload
trade = record {
  trade_id = none;
  engine_match_id = 70;
  trading_pair_id = 1;
  trade_sequence = 1;
  buy_order_id = 100;
  sell_order_id = 200;
  maker_order_id = 200;
  taker_order_id = 100;
  taker_side = OrderSide.buy;
  execution_price = pos (50 * unit);
  executed_quantity = pos unit;
  matched_at = 1000;
}

abbrev pub fresh : Fresh
fresh = record {
  operation_id = 501;
  trade_id = 502;
  base_wallet_id = 503;
  quote_wallet_id = 504;
  now = 1001;
}

abbrev pub treasury : Option ℕ
treasury = some 9

abbrev settled : Tx (Unit {0})
settled = settle_trade example_platform treasury trade 71 fresh

pub fees : FeesAreExact example_platform treasury example_pair trade
unfolding ◌-ℤ◌
fees = record {
  buyer_nonneg = omega arith;
  seller_nonneg = omega arith;
  buyer_fits = (998, 15, omega arith, refl);
  seller_fits = (4995, 16, omega arith, refl);
}

is_settled : (settled example_db).0 ≡ ok tt
unfolding settle_trade settle_between move_funds debit_user credit_user collect_fee
    find_or_create_treasury_wallet debit_locked credit_available ◌+ℤ◌ ◌-ℤ◌ neg_ℤ
is_settled = refl

settle_trade_conserves_example :
    let after = (transaction settled example_db).1 in
    IsValid after × (asset_total 2 after.wallets ≡ asset_total 2 example_db.wallets)
settle_trade_conserves_example =
    settle_trade_conserves example_platform treasury example_pair trade 71 fresh 2 example_db refl
      fees example_db-IsValid

pub fills_buy : FillsExactly example_platform treasury (pos unit) buy_order
unfolding ◌+ℤ◌ ◌-ℤ◌
fills_buy = ((1, 18, omega arith, refl), (0, 0, omega arith, refl))

pub fills_sell : FillsExactly example_platform treasury (pos unit) sell_order
unfolding ◌+ℤ◌ ◌-ℤ◌
fills_sell = ((1, 18, omega arith, refl), (0, 0, omega arith, refl))

settle_trade_fills_example :
    let after = (settled example_db).1 in
    (bought : Order) × (sold : Order) × (find_first (order_has_id 100) after.orders ≡ some bought)
    × (find_first (order_has_id 200) after.orders ≡ some sold)
    × IsFilledBy (pos unit) (quote_amount example_platform treasury trade) buy_order bought
    × IsFilledBy (pos unit) (pos unit) sell_order sold
    × (after.trades
        ≡ []
          ++ trade_row example_platform treasury example_pair buy_order sell_order trade 71 fresh
            ∷ [])
settle_trade_fills_example =
    settle_trade_fills example_platform treasury trade 71 fresh example_db example_pair buy_order
      sell_order refl refl refl refl fills_buy fills_sell is_settled

abbrev cancelled : Tx (Unit {0})
cancelled = handle_order_cancelled example_platform 601 100

is_cancelled : (cancelled example_db).0 ≡ ok tt
unfolding handle_order_cancelled unlock_remaining move_locked_to_available
is_cancelled = refl

handle_order_cancelled_once_example :
    let after = (cancelled example_db).1 in
    handle_order_cancelled example_platform 602 100 after ≡ (ok tt, after)
handle_order_cancelled_once_example =
    handle_order_cancelled_once example_platform 601 602 100 example_db is_cancelled

handle_order_cancelled_unlocks_example :
    let r = cancelled example_db in
    (r.0 ≡ ok tt)
    × (find_first (order_has_id 100) r.1.orders
        ≡ some
            (record buy_order { status = OrderStatus.cancelled; remaining_locked_amount = pos 0 }))
    × (find_first (owned_by 1 2) r.1.wallets
        ≡ some (add_to_balances (pos (50 * unit)) (neg_ℤ (pos (50 * unit))) quote_wallet))
handle_order_cancelled_unlocks_example =
    handle_order_cancelled_unlocks example_platform 601 100 buy_order example_db quote_wallet
      example_db-IsValid refl refl (omega arith) (omega arith)
