-- ===== src/Bootstrap.antt =====
-- apps/backend/src/modules/engine/open-market.bootstrap.service.ts: at its start the backend asks the
-- engine to open every market that is RECOVERING.
pub mod Asked
pub mod Restart
use hau_cex.Common.{
  ℕ, Bool, true, false, ◌&&◌, List, [], ◌∷◌, ◌++◌, Option, none, some, ◌==◌, filter, if◌then◌else◌,
}
use hau_cex.Platform.{Platform}
use hau_cex.Database.Schema.{
  Db, TradingPair, TradingPairStatus, OutboxEvent, OutboxStatus, CommandPayload, CommandType,
}
use hau_cex.Database.Table.{exists}
use hau_cex.Database.Tx.{
  Tx, Error, Result, ok, err, ◌>>=◌, ◌>>◌, pure, gets, throw_if, modify, transaction,
}
use hau_cex.Orders.Commands.{Fresh, next_command_sequence, command_row, create_outbox_event}

abbrev is_pending : OutboxStatus → Bool
is_pending OutboxStatus.pending = true
is_pending _ = false

abbrev is_open_market : CommandType → Bool
is_open_market CommandType.open_market = true
is_open_market _ = false

abbrev is_key : ℕ → Option ℕ → Bool
is_key id none = false
is_key id (some k) = k == id

-- The filter of `findFirst`: a command to open the pair that is not sent yet.
abbrev pub opens : ℕ → OutboxEvent → Bool
opens pair_id e =
    is_open_market e.message_type && is_key pair_id e.partition_key && is_pending e.status

abbrev pub is_recovering : TradingPair → Bool
is_recovering t = recovering t.status
  where
    recovering : TradingPairStatus → Bool
    recovering TradingPairStatus.recovering = true
    recovering _ = false

module _ (env : Platform) where
  open env use {to_fixed18}

  -- `OpenMarketPayload`.
  abbrev open_market_payload : TradingPair → ℕ → CommandPayload
  open_market_payload t now =
      CommandPayload.open_market t.id t.symbol t.base_asset_id t.quote_asset_id t.price_precision
        t.quantity_precision (to_fixed18 t.tick_size) (to_fixed18 t.step_size)
        (to_fixed18 t.min_quantity) (to_fixed18 t.min_notional) now

  abbrev pub create_command : TradingPair → Fresh → Tx (Unit {0})
  create_command t fresh = do
    cmd_seq ← next_command_sequence t.id
    create_outbox_event
        (command_row fresh CommandType.open_market t.id cmd_seq (open_market_payload t fresh.now))

  -- The transaction of a pair.
  unfoldable pub open_market : TradingPair → Fresh → Tx (Unit {0})
  open_market t fresh = do
    existing ← gets (λ db. exists (opens t.id) db.outbox_events)
    if existing then pure tt else create_command t fresh

  -- The pairs one after the other, up to the first that throws.
  unfoldable pub open_markets : (ℕ → Fresh) → List TradingPair → Tx (Unit {0})
  open_markets fresh [] = pure tt
  open_markets fresh (t ∷ ts) = transaction (open_market t (fresh t.id)) >> open_markets fresh ts

  -- `bootstrapMarkets`; the ids that it draws are given by the pair.
  unfoldable pub bootstrap_markets : (ℕ → Fresh) → Tx (Unit {0})
  bootstrap_markets fresh db = open_markets fresh (filter is_recovering db.trading_pairs) db
