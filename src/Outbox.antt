-- ===== src/Outbox.antt =====
-- apps/backend/src/modules/outbox/outbox-poller.service.ts: commands that were committed with the
-- orders are published to the engine's stream.
pub mod Retry
pub mod Sequence
pub mod Sent
pub mod Delivery
use hau_cex.Common.{
  ℕ, suc, ◌+◌, ◌*◌, ◌^◌, min, Bool, true, false, ◌&&◌, ◌||◌, List, [], ◌∷◌, ◌++◌, Option, none,
  some, String, ltb, leb, ◌==◌, take, filter, if◌then◌else◌,
}
use hau_cex.Database.Schema.{Db, OutboxEvent, OutboxStatus, CommandPayload, CommandType}
use hau_cex.Database.Sorting.{order_by}
use hau_cex.Database.Table.{update_first}
use hau_cex.Database.Tx.{Result, Error, ok, err}

-- An entry of `XADD`.
pub record StreamEntry : Type 0 where
  pub stream_name : String
  pub message_id : ℕ
  pub message_type : CommandType
  pub partition_key : Option ℕ
  pub command_sequence : Option ℕ
  pub payload : CommandPayload

pub record Poller : Type 0 where
  pub events : List OutboxEvent
  pub sent : List StreamEntry

-- What happens to a row: `XADD` and the update succeed, or the first of them that fails throws, and
-- the update in the `catch` then succeeds (`failed`) or throws as well, with this text (`lost`).
pub data Outcome : Type 0 where
  published : Outcome
  redis_failed postgres_failed : String → Outcome
  redis_lost postgres_lost : String → Outcome

abbrev is_pending : OutboxStatus → Bool
is_pending OutboxStatus.pending = true
is_pending _ = false

abbrev is_past : ℕ → Option ℕ → Bool
is_past now none = true
is_past now (some t) = leb t now

-- `WHERE status = 'PENDING' AND (next_retry_at IS NULL OR next_retry_at <= NOW())`.
abbrev pub is_due : ℕ → OutboxEvent → Bool
is_due now e = is_pending e.status && is_past now e.next_retry_at

-- `ORDER BY command_sequence ASC NULLS LAST, created_at ASC`.
abbrev pub sequence_first : Option ℕ → ℕ → Option ℕ → ℕ → Bool
sequence_first none a none b = leb a b
sequence_first none a (some _) b = false
sequence_first (some _) a none b = true
sequence_first (some m) a (some n) b = ltb m n || (m == n && leb a b)

abbrev pub comes_first : OutboxEvent → OutboxEvent → Bool
comes_first e f = sequence_first e.command_sequence e.created_at f.command_sequence f.created_at

-- Step 1 of `processBatch`.
unfoldable pub fetch : ℕ → List OutboxEvent → List OutboxEvent
fetch now events = take 50 (order_by comes_first (filter (is_due now) events))

abbrev pub has_id : ℕ → OutboxEvent → Bool
has_id id e = e.id == id

abbrev pub entry_of : OutboxEvent → StreamEntry
entry_of e = record {
  stream_name = e.stream_name;
  message_id = e.message_id;
  message_type = e.message_type;
  partition_key = e.partition_key;
  command_sequence = e.command_sequence;
  payload = e.payload;
}

abbrev pub second : ℕ
second = 1000

abbrev pub delay_seconds : ℕ → ℕ
delay_seconds retry_count = min (2 ^ retry_count) 32

abbrev pub mark_published : ℕ → OutboxEvent → OutboxEvent
mark_published now e = record e { status = OutboxStatus.published; published_at = some now }

-- The update after an error, of a row that was read with so many retries.
abbrev pub mark_failed : ℕ → String → ℕ → OutboxEvent → OutboxEvent
mark_failed now error read_count e = record e {
  retry_count = e.retry_count + 1;
  last_error = some error;
  next_retry_at = some (now + delay_seconds read_count * second);
  status = if leb 5 (e.retry_count + 1) then OutboxStatus.failed else e.status;
}

abbrev update : ℕ → (OutboxEvent → OutboxEvent) → Poller → Poller
update id f p = record p { events = update_first (has_id id) f p.events }

abbrev send : OutboxEvent → Poller → Poller
send row p = record p { sent = p.sent ++ entry_of row ∷ [] }

-- Steps 2 and 3, of one row as it was read. A throw of the update in the `catch` leaves the row as it
-- was and goes up.
abbrev pub publish : ℕ → Outcome → OutboxEvent → Poller → Result (Unit {0}) × Poller
publish now Outcome.published row p = (ok tt, update row.id (mark_published now) (send row p))
publish now (Outcome.redis_failed error) row p =
    (ok tt, update row.id (mark_failed now error row.retry_count) p)
publish now (Outcome.postgres_failed error) row p =
    (ok tt, update row.id (mark_failed now error row.retry_count) (send row p))
publish now (Outcome.redis_lost error) row p = (err (Error.plain error), p)
publish now (Outcome.postgres_lost error) row p = (err (Error.plain error), send row p)

-- The first throw ends the batch.
unfoldable pub publish_rows :
    ℕ → (ℕ → Outcome) → List OutboxEvent → Poller → Result (Unit {0}) × Poller
publish_rows now outcome [] p = (ok tt, p)
publish_rows now outcome (row ∷ rows) p =
    let (result, after) = publish now (outcome row.id) row p in
    elim result [ ok _ ↦ publish_rows now outcome rows after | err e ↦ (err e, after) ]

abbrev is_empty : {A : Type 0} → List A → Bool
is_empty [] = true
is_empty (x ∷ xs) = false

-- `processBatch`: whether there was work, or what it throws, and the outbox and the stream after it.
unfoldable pub process_batch : ℕ → (ℕ → Outcome) → Poller → Result Bool × Poller
process_batch now outcome p =
    let rows = fetch now p.events in
    if is_empty rows
    then (ok false, p)
    else let (result, after) = publish_rows now outcome rows p in
      elim result [ ok _ ↦ (ok true, after) | err e ↦ (err e, after) ]

-- `pollLoop`, until it is stopped: the time and the outcomes of each pass. It catches what a batch
-- throws and goes on. The pauses are left out.
abbrev pub poll_loop : List (ℕ × (ℕ → Outcome)) → Poller → Poller
poll_loop [] p = p
poll_loop ((now, outcome) ∷ passes) p = poll_loop passes (process_batch now outcome p).1
