-- ===== src/Orders/Commands.antt =====
-- What placing and cancelling share: apps/backend/src/common/helpers/sequence.helper.ts, the outbox
-- row of a command, and common/constants/redis.constants.ts.
use hau_cex.Common.{ℕ, suc, Bool, [], ◌∷◌, ◌++◌, none, some, String, ◌==◌, ◌||◌, if◌then◌else◌}
use hau_cex.Database.Schema.{OutboxEvent, OutboxStatus, CommandPayload, CommandType}
use hau_cex.Database.Table.{exists}
use hau_cex.Database.Tx.{Tx, Error, ok, ◌>>=◌, ◌>>◌, gets, modify, throw_if}

abbrev pub engine_commands_stream : String
engine_commands_stream = "stream:engine:commands"

-- The ids and the time that one command draws.
pub record Fresh : Type 0 where
  pub outbox_id : ℕ
  pub message_id : ℕ
  pub now : ℕ

abbrev pub bump : ℕ → (ℕ → ℕ) → ℕ → ℕ
bump pair seq k = if k == pair then suc (seq k) else seq k

-- `nextOrderSequence` and `nextCommandSequence`: `nextval` of the pair's sequence.
abbrev pub next_order_sequence : ℕ → Tx ℕ
next_order_sequence pair db =
    (ok (db.order_seq pair), record db { order_seq = bump pair db.order_seq })

abbrev pub next_command_sequence : ℕ → Tx ℕ
next_command_sequence pair db = (ok (db.cmd_seq pair), record db { cmd_seq = bump pair db.cmd_seq })

-- The columns that a command sets; the others have their defaults.
abbrev pub command_row : Fresh → CommandType → ℕ → ℕ → CommandPayload → OutboxEvent
command_row fresh message_type pair cmd_seq payload = record {
  id = fresh.outbox_id;
  message_id = fresh.message_id;
  stream_name = engine_commands_stream;
  message_type = message_type;
  payload = payload;
  status = OutboxStatus.pending;
  partition_key = some pair;
  command_sequence = some cmd_seq;
  retry_count = 0;
  last_error = none;
  next_retry_at = none;
  created_at = fresh.now;
  published_at = none;
}

abbrev pub same_event : OutboxEvent → OutboxEvent → Bool
same_event e f = f.id == e.id || f.message_id == e.message_id

-- `tx.outboxEvent.create`.
abbrev pub create_outbox_event : OutboxEvent → Tx (Unit {0})
create_outbox_event e = do
  taken ← gets (λ db. exists (same_event e) db.outbox_events)
  throw_if taken Error.unique_violation
  modify λ db. record db { outbox_events = db.outbox_events ++ e ∷ [] }
