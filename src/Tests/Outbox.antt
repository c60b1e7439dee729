-- ===== src/Tests/Outbox.antt =====
-- Commands in the outbox, and the bootstrap of a market.
use mathlib.Core.List.{Perm}
use hau_cex.Common.{
  ℕ, ◌+◌, ◌*◌, ◌^◌, ◌≤◌, ◌<◌, ◌≡◌, ◌≢◌, ◌⊎◌, refl, some, false, List, [], ◌∷◌, ◌++◌, map, length,
  All, arith,
}
use hau_cex.Database.Schema.{Db, OutboxEvent, CommandPayload, CommandType, TradingPairStatus}
use hau_cex.Database.Tx.{ok}
use hau_cex.Orders.Commands.{Fresh, command_row}
use hau_cex.Outbox.{Poller, Outcome, fetch, entry_of, is_due, process_batch, second}
use hau_cex.Outbox.Retry.{fails, status_after, fails_five_times}
use hau_cex.Outbox.Sequence.{IsDue, AreInOrder, fetch_takes_first}
use hau_cex.Outbox.Sent.{IsValid}
use hau_cex.Outbox.Delivery.{process_batch-IsValid, process_batch_sends}
use hau_cex.Bootstrap.{bootstrap_markets, open_market, open_markets}
use hau_cex.Bootstrap.Asked.{Has, AsksFor, AsksToRecover, Appends}
use hau_cex.Bootstrap.Restart.{bootstrap_markets_once}
use hau_cex.Testing.{example_platform, example_db, example_pair}

abbrev fresh : ℕ → Fresh
fresh n = record { outbox_id = n; message_id = n + 100; now = 5 }

abbrev command : ℕ → ℕ → OutboxEvent
command id sequence =
    command_row (fresh id) CommandType.cancel_order 1 sequence
      (CommandPayload.cancel_order 1 "BTC/USDT" 100 1 5)

abbrev events : List OutboxEvent
events = command 2 8 ∷ command 1 7 ∷ record (command 3 6) { next_retry_at = some 9 } ∷ []

abbrev poller : Poller
poller = record { events = events; sent = [] }

fails_five_times_example :
    ((fails (λ k. k) (λ _. "down") 5 (command 1 7)).retry_count ≡ 5)
    × ((fails (λ k. k) (λ _. "down") 5 (command 1 7)).status
        ≡ status_after (λ k. k) (λ _. "down") 5)
    × (5 ≤ 5 → (now : ℕ) → is_due now (fails (λ k. k) (λ _. "down") 5 (command 1 7)) ≡ false)
    × (5 < 5
        → (fails (λ k. k) (λ _. "down") 6 (command 1 7)).next_retry_at ≡ some (5 + 2 ^ 5 * second))
fails_five_times_example = fails_five_times (λ k. k) (λ _. "down") 5 (command 1 7) refl refl

fetch_takes_first_example :
    (length (fetch 5 events) ≤ 50)
    × ((left : List OutboxEvent) × (rest : List OutboxEvent) × Perm
          ((fetch 5 events ++ left) ++ rest)
          events
        × All (IsDue 5) (fetch 5 events ++ left)
        × All (λ e. ¬ IsDue 5 e) rest
        × AreInOrder (fetch 5 events ++ left)
        × ((length (fetch 5 events) ≡ 50) ⊎ (left ≡ [])))
fetch_takes_first_example = fetch_takes_first 5 events

poller-IsValid : IsValid poller
poller-IsValid = record { unique = (refl, (refl, (refl, tt))); sent = ground arith }

process_batch-IsValid_example :
    IsValid (process_batch 5 (λ _. Outcome.postgres_lost "down") poller).1
process_batch-IsValid_example =
    process_batch-IsValid 5 (λ _. Outcome.postgres_lost "down") poller poller-IsValid

process_batch_sends_example :
    (process_batch 5 (λ _. Outcome.published) poller).1.sent ≡ [] ++ map entry_of (fetch 5 events)
process_batch_sends_example = process_batch_sends 5 poller

abbrev starting : Db
starting = record example_db {
  trading_pairs = record example_pair { status = TradingPairStatus.recovering } ∷ [];
}

is_started : (bootstrap_markets example_platform fresh starting).0 ≡ ok tt
unfolding bootstrap_markets open_markets open_market
is_started = refl

bootstrap_markets_once_example :
    let after = (bootstrap_markets example_platform fresh starting).1 in
    (after.trading_pairs ≡ starting.trading_pairs)
    × All
        (λ t. (t.status ≢ TradingPairStatus.recovering) ⊎ Has (AsksFor t) after.outbox_events)
        starting.trading_pairs
    × Appends (λ e. Has (AsksToRecover e) starting.trading_pairs) starting after
    × (bootstrap_markets example_platform (λ n. fresh (n + 1)) after ≡ (ok tt, after))
bootstrap_markets_once_example =
    bootstrap_markets_once example_platform fresh (λ n. fresh (n + 1)) starting is_started
