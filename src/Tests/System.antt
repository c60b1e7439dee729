-- ===== src/Tests/System.antt =====
-- The backend on the example: the engine's trade and a new order, and an order that is cancelled.
use hau_cex.Common.{
  ℕ, ◌≡◌, ◌≢◌, ◌⊎◌, refl, subst, ◌*◌, [], ◌∷◌, some, some-injective, none, str_eq, if◌then◌else◌,
  pos, ℤ, ◌≤ℤ◌, arith, int_laws,
}
use hau_cex.Database.Schema.{Db, Order, OrderStatus, TradingPair, Wallet}
use hau_cex.Database.Table.{find_first}
use hau_cex.Database.Tx.{ok, Result}
use hau_cex.EngineEvents.Settlement.{
  pair_has_id, quote_amount, settle_trade, settle_between, move_funds, debit_user, credit_user,
  collect_fee, find_or_create_treasury_wallet, TradeCreatedPayload, order_has_id, owned_by,
}
use hau_cex.EngineEvents.Messages.{EventPayload}
use hau_cex.Wallets.Balance.{add_to_balances}
use hau_cex.Wallets.Balance.Totals.{asset_total}
use hau_cex.Backing.{IsBacked}
use hau_cex.Backing.Trades.{IsCovered}
use hau_cex.Backing.Messages.{IsHonest}
use hau_cex.System.{System, Step, Reach, with_db, with_consumer, consumer_of}
use hau_cex.Terms.{terms}
use hau_cex.System.Terms.{reachable_order_stays}
use hau_cex.System.Cancellation.{reachable_cancellation_unlocks}
use hau_cex.EngineEvents.Consumer.{handle_message}
use hau_cex.EngineEvents.Cancellation.{handle_order_cancelled}
use hau_cex.Orders.Place.{
  PlaceOrderResult, new_order, place_order, place_in_tx, place_new, open_order,
}
use hau_cex.Orders.Cancel.{cancel_order, cancel_in_tx, set_cancel_pending}
use hau_cex.Wallets.Balance.{move_available_to_locked, debit_locked, credit_available}
use hau_cex.Common.Int.{neg_ℤ, ◌+ℤ◌, ◌-ℤ◌}
use hau_cex.System.Safety.{reachable_is_backed}
use hau_cex.Testing.{
  unit, example_platform, example_db, example_db-IsValid, example_pair, buy_order, sell_order,
}
use hau_cex.Tests.Tokens.{example_auth}
use hau_cex.Orders.Commands as Commands
use hau_cex.System.Residue.{filled_order_keeps_residue}
use hau_cex.Tests.Trades.{trade, treasury, fills_buy, fills_sell}
use hau_cex.Tests.Trades as Trades
use hau_cex.Tests.Consumer.{payload, codec, message, redis, exact}
use hau_cex.Tests.Orders.{dto}
use hau_cex.Tests.Orders as Orders

backed : IsBacked example_db
backed = record {
  valid = example_db-IsValid;
  owners = (refl, (refl, (refl, (refl, tt))));
  reserves = (omega arith, (omega arith, tt));
  backed = λ u a. grind int_laws;
}

-- What `parse_json` returns for the message is the payload.
of_payload :
    (Holds : EventPayload → Type 0) (p : EventPayload)
    → Holds payload
    → (if str_eq "{trade}" "{trade}" then some payload else none) ≡ some p
    → Holds p
of_payload Holds p h e = subst Holds (some-injective _ _ e) h

abbrev paid : ℤ
paid = quote_amount example_platform treasury trade

covered :
    (pair : TradingPair)
    → find_first (pair_has_id 1) (example_pair ∷ []) ≡ some pair
    → IsCovered example_platform treasury trade pair example_db
covered pair f =
    subst (λ t. IsCovered example_platform treasury trade t example_db) (some-injective _ _ f)
      (record {
        apart = refl;
        bought = λ o e.
            subst (λ x. (x.locked_asset_id ≡ 2) × (paid ≤ℤ x.remaining_locked_amount))
              (some-injective _ _ e) (refl, omega arith);
        sold = λ o e.
            subst (λ x. (x.locked_asset_id ≡ 1) × (pos unit ≤ℤ x.remaining_locked_amount))
              (some-injective _ _ e) (refl, omega arith);
      })

honest : IsHonest example_platform codec treasury message example_db
honest = record {
  exact = λ p pair id e i new t f. exact p e pair f;
  covered = λ p pair id e i new t.
      of_payload
        (λ q.
          find_first (pair_has_id q.trade.trading_pair_id) example_db.trading_pairs ≡ some pair
          → IsCovered example_platform treasury q.trade pair example_db)
        p (covered pair) e;
}

abbrev first : System
first = record { db = example_db; redis = redis; sent = [] }

abbrev traded : System
traded =
    with_consumer
      (handle_message example_platform codec treasury Trades.fresh message (consumer_of first)).1
      first

abbrev placed : System → System
placed s = with_db (place_order example_platform 300 1 "second" dto (Orders.fresh 301) s.db).1 s

reachable_is_backed_example :
    IsBacked (placed traded).db
    × ((a : ℕ) → asset_total a (placed traded).db.wallets ≡ asset_total a example_db.wallets)
reachable_is_backed_example =
    reachable_is_backed {env = example_platform} {codec = codec} {treasury_user_id = treasury}
      {auth = example_auth} {s = first}
      (Reach.later (Reach.later Reach.start (Step.handled message Trades.fresh honest))
        (Step.placed 300 1 "second" dto (Orders.fresh 301)))
      backed

reachable_order_stays_example :
    (later : Order) × (find_first (order_has_id 100) (placed traded).db.orders ≡ some later)
    × (terms later ≡ terms buy_order)
    × ((buy_order.status ≡ OrderStatus.pending) ⊎ (later.status ≢ OrderStatus.pending))
reachable_order_stays_example =
    reachable_order_stays {env = example_platform} {codec = codec} {treasury_user_id = treasury}
      {auth = example_auth} {Promises = λ m db. Unit} {s = first} 100 buy_order
      (Reach.later (Reach.later Reach.start (Step.handled message Trades.fresh tt))
        (Step.placed 300 1 "second" dto (Orders.fresh 301)))
      refl

abbrev asked : System
asked = with_db (cancel_order 1 300 (Orders.fresh 401) (placed first).db).1 (placed first)

abbrev waiting : Order
waiting = set_cancel_pending (new_order example_platform 300 1 "second" example_pair dto 201)

is_waiting : find_first (order_has_id 300) asked.db.orders ≡ some waiting
unfolding place_order place_in_tx place_new open_order move_available_to_locked cancel_order
    cancel_in_tx
is_waiting = refl

reachable_cancellation_unlocks_example :
    let r = handle_order_cancelled example_platform 601 300 asked.db in
    (w : Wallet) × (find_first (owned_by 1 2) asked.db.wallets ≡ some w)
    × (r.0 ≡ ok tt)
    × (find_first (order_has_id 300) r.1.orders
        ≡ some (record waiting { status = OrderStatus.cancelled; remaining_locked_amount = pos 0 }))
    × (find_first (owned_by 1 2) r.1.wallets
        ≡ some (add_to_balances (pos (50 * unit)) (neg_ℤ (pos (50 * unit))) w))
reachable_cancellation_unlocks_example =
    reachable_cancellation_unlocks example_platform {codec = codec} {treasury_user_id = treasury}
      {auth = example_auth} {s = first} 601 300 waiting
      (Reach.later (Reach.later Reach.start (Step.placed 300 1 "second" dto (Orders.fresh 301)))
        (Step.cancel_requested 1 300 (Orders.fresh 401)))
      backed is_waiting (omega arith)

-- The engine matches the two orders at 40, and the buyer has locked 50.
abbrev cheap : TradeCreatedPayload
cheap = record trade { execution_price = pos (40 * unit) }

abbrev bought_cheap : Result (Unit {0}) × Db
bought_cheap = settle_trade example_platform treasury cheap 71 Trades.fresh example_db

is_bought : bought_cheap.0 ≡ ok tt
unfolding settle_trade settle_between move_funds debit_user credit_user collect_fee
    find_or_create_treasury_wallet debit_locked credit_available ◌+ℤ◌ ◌-ℤ◌ neg_ℤ
is_bought = refl

filled_order_keeps_residue_example :
    (bought : Order) × (find_first (order_has_id 100) bought_cheap.1.orders ≡ some bought)
    × (bought.status ≡ OrderStatus.filled)
    × (bought.remaining_locked_amount
        ≡ pos (50 * unit) -ℤ quote_amount example_platform treasury cheap)
    × (pos 1 ≤ℤ bought.remaining_locked_amount)
    × ((user_id : ℕ) (again : Commands.Fresh) (answer : PlaceOrderResult)
        → (cancel_order user_id 100 again bought_cheap.1).0 ≢ ok answer)
filled_order_keeps_residue_example =
    filled_order_keeps_residue example_platform treasury cheap 71 Trades.fresh example_db
      example_pair buy_order sell_order refl refl refl refl fills_buy fills_sell refl
      (omega int_laws) is_bought
