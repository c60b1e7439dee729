-- ===== src/Backing/Messages.antt =====
-- engine-event-consumer.service.ts: what the engine's messages do to the locked balances.
use hau_cex.Common.{ℕ, ◌≡◌, ◌∙◌, Option, some, false}
use hau_cex.Platform.{Platform}
use hau_cex.Database.Schema.{Db, TradingPair}
use hau_cex.Database.Table.{find_first, exists}
use hau_cex.Wallets.Balance.Totals.{asset_total}
use hau_cex.EngineEvents.Settlement.{Fresh, pair_has_id}
use hau_cex.EngineEvents.Settlement.Conservation.{assets}
use hau_cex.EngineEvents.Settlement.Funds.{FeesAreExact, settle_trade_adds_nothing}
use hau_cex.EngineEvents.Cancellation.Effects.{cancelled_adds_nothing}
use hau_cex.EngineEvents.Messages.{Message, EventPayload, Codec, State}
use hau_cex.EngineEvents.Consumer.{handle_message, is_event}
use hau_cex.EngineEvents.Consumer.Delivery.{payload_text}
use hau_cex.EngineEvents.Consumer.Conservation.{settle_at_pair}
use hau_cex.EngineEvents.Consumer.Walk.{handle_message_keeps, id_of, type_of}
use hau_cex.Backing.{IsBacked}
use hau_cex.Backing.Gap.{IsSound, gap, gaps, no_gap, IsBacked-of_gaps}
use hau_cex.Backing.Trades.{IsCovered, settle_trade-gap}
use hau_cex.Backing.Cancellation.{handle_order_cancelled-gap}

module _ (env : Platform) (codec : Codec) (treasury_user_id : Option ℕ) where
  -- What a message says, if it is a trade that has not been processed: the trade's fees are exact, and
  -- the two orders have locked what it costs.
  pub record IsHonest (m : Message) (db : Db) : Type 0 where
    pub exact :
        (payload : EventPayload) (pair : TradingPair) (id : ℕ)
        → codec.parse_json (payload_text env codec treasury_user_id m) ≡ some payload
        → id_of codec m ≡ some id
        → exists (is_event id) db.processed_events ≡ false
        → type_of m ≡ some "TradeCreated"
        → find_first (pair_has_id payload.trade.trading_pair_id) db.trading_pairs ≡ some pair
        → FeesAreExact env treasury_user_id pair payload.trade
    pub covered :
        (payload : EventPayload) (pair : TradingPair) (id : ℕ)
        → codec.parse_json (payload_text env codec treasury_user_id m) ≡ some payload
        → id_of codec m ≡ some id
        → exists (is_event id) db.processed_events ≡ false
        → type_of m ≡ some "TradeCreated"
        → find_first (pair_has_id payload.trade.trading_pair_id) db.trading_pairs ≡ some pair
        → IsCovered env treasury_user_id payload.trade pair db

  module _ (fresh : Fresh) (m : Message) (s : State) (honest : IsHonest m s.db)
      (b : IsBacked s.db) where
    sound : IsSound s.db
    sound = record { valid = b.valid; owners = b.owners; reserves = b.reserves }

    message_gap :
        (u a : ℕ)
        → let after = (handle_message env codec treasury_user_id fresh m s).1.db in
          IsSound after × (gap env u a after ≡ gap env u a s.db)
    message_gap u a =
        handle_message_keeps (gaps env u a) codec treasury_user_id fresh m s
          (λ payload e. record {
            settles = λ id i new t.
                settle_at_pair (gaps env u a) treasury_user_id payload.trade id fresh s.db λ pair f.
                  let x = honest.exact payload pair id e i new t f in
                  settle_trade-gap env treasury_user_id payload.trade pair id fresh u a s.db f
                    (x.buyer_nonneg, x.seller_nonneg) (honest.covered payload pair id e i new t f)
                    sound;
            cancels = λ i _. handle_order_cancelled-gap env u a i fresh.operation_id s.db sound;
          })
          sound

    pub handle_message-IsBacked :
        IsBacked (handle_message env codec treasury_user_id fresh m s).1.db
    handle_message-IsBacked =
        IsBacked-of_gaps env _ (message_gap 0 0).0
          λ u a. (message_gap u a).1 ∙ no_gap env s.db b u a

    pub handle_message-total :
        (a : ℕ)
        → asset_total a (handle_message env codec treasury_user_id fresh m s).1.db.wallets
          ≡ asset_total a s.db.wallets
    handle_message-total a =
        (handle_message_keeps (assets env a) codec treasury_user_id fresh m s
          (λ payload e. record {
            settles = λ id i new t.
                settle_at_pair (assets env a) treasury_user_id payload.trade id fresh s.db λ pair f.
                  settle_trade_adds_nothing env treasury_user_id pair payload.trade id fresh a s.db
                    f (honest.exact payload pair id e i new t f) b.valid;
            cancels = λ i _. cancelled_adds_nothing env fresh.operation_id i a s.db b.valid;
          })
          b.valid).1
