-- ===== src/EngineEvents/Consumer/Conservation.antt =====
-- engine-event-consumer.service.ts: no message of the engine makes or loses money.
use hau_cex.Common.{ℕ, ◌≡◌, Option, none, some, inl, inr, pos, Option-cases, arith}
use hau_cex.Platform.{Platform}
use hau_cex.Database.Schema.{Db, TradingPair}
use hau_cex.Database.Table.{find_first}
use hau_cex.Database.Tx.{Error, err}
use hau_cex.Wallets.Balance.Totals.{asset_total}
use hau_cex.EngineEvents.Settlement.{TradeCreatedPayload, Fresh, pair_has_id, settle_trade}
use hau_cex.EngineEvents.Settlement.Validity.{IsValid}
use hau_cex.EngineEvents.Settlement.Measure.{Measure, Adds}
use hau_cex.EngineEvents.Settlement.Conservation.{assets}
use hau_cex.EngineEvents.Settlement.Funds.{FeesAreExact, settle_trade_adds_nothing}
use hau_cex.EngineEvents.Cancellation.Effects.{cancelled_adds_nothing}
use hau_cex.EngineEvents.Messages.{Message, EventPayload, Codec, State}
use hau_cex.EngineEvents.Consumer.{handle_message}
use hau_cex.EngineEvents.Consumer.Delivery.{payload_text}
use hau_cex.EngineEvents.Consumer.Walk.{handle_message_keeps}

-- A trade of a pair that is not there is not settled.
no_pair :
    (env : Platform) (treasury_user_id : Option ℕ) (p : TradeCreatedPayload) (message_id : ℕ)
    (fresh : Fresh) (db : Db)
    → find_first (pair_has_id p.trading_pair_id) db.trading_pairs ≡ none
    → settle_trade env treasury_user_id p message_id fresh db ≡ (err Error.record_not_found, db)
unfolding settle_trade
no_pair env t p message_id fresh db e = ground arith

-- A settlement adds nothing, if it adds nothing at the pair of the trade.
pub settle_at_pair :
    {env : Platform} (M : Measure env) (treasury_user_id : Option ℕ) (p : TradeCreatedPayload)
    (message_id : ℕ) (fresh : Fresh) (db : Db)
    → ((pair : TradingPair)
        → find_first (pair_has_id p.trading_pair_id) db.trading_pairs ≡ some pair
        → Adds M (pos 0) db (settle_trade env treasury_user_id p message_id fresh db))
    → Adds M (pos 0) db (settle_trade env treasury_user_id p message_id fresh db)
settle_at_pair {env} M t p message_id fresh db h =
    elim (Option-cases (find_first (pair_has_id p.trading_pair_id) db.trading_pairs)) [
      | inl e ↦ rw (no_pair env t p message_id fresh db e) tt
      | inr (pair, e) ↦ h pair e
    ]

module _ (env : Platform) (codec : Codec) (treasury_user_id : Option ℕ) (a : ℕ) where
  -- The fees of the trade are exact, at the pair of the trade.
  abbrev pub TradeIsExact : TradeCreatedPayload → Db → Type 0
  TradeIsExact p db =
      (pair : TradingPair)
      → find_first (pair_has_id p.trading_pair_id) db.trading_pairs ≡ some pair
      → FeesAreExact env treasury_user_id pair p

  -- A message of the engine, of any type, malformed or not, applied, skipped or rolled back: if the
  -- fees of the trade that it carries are exact, the database stays valid, and the wallets of every
  -- asset hold together what they held before.
  pub handle_message_conserves :
      (fresh : Fresh) (m : Message) (s : State)
      → ((payload : EventPayload)
          → codec.parse_json (payload_text env codec treasury_user_id m) ≡ some payload
          → TradeIsExact payload.trade s.db)
      → IsValid s.db
      → let after = (handle_message env codec treasury_user_id fresh m s).1.db in
        IsValid after × (asset_total a after.wallets ≡ asset_total a s.db.wallets)
  handle_message_conserves fresh m s exact v =
      handle_message_keeps (assets env a) codec treasury_user_id fresh m s
        (λ payload e. record {
          settles = λ id _ _ _.
              settle_at_pair (assets env a) treasury_user_id payload.trade id fresh s.db λ pair f.
                settle_trade_adds_nothing env treasury_user_id pair payload.trade id fresh a s.db f
                  (exact payload e pair f) v;
          cancels = λ i _. cancelled_adds_nothing env fresh.operation_id i a s.db v;
        })
        v
