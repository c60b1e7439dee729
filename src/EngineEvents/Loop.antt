-- ===== src/EngineEvents/Loop.antt =====
-- engine-event-consumer.service.ts: the loop around the batches, until it is stopped. The pauses and
-- the log are left out.
pub mod Waiting
use hau_cex.Common.{ℕ, List, [], ◌∷◌, Option, none, some, length}
use hau_cex.Platform.{Platform}
use hau_cex.Database.Tx.{Result}
use hau_cex.EngineEvents.Settlement.{Fresh}
use hau_cex.EngineEvents.Messages.{Message, Codec, State}
use hau_cex.EngineEvents.Consumer.{process_batch, drain_pending}

-- What `XGROUP CREATE` comes to: the group is new, it was there (BUSYGROUP), or an error.
pub data GroupResult : Type 0 where
  created busy failed : GroupResult

-- A pass: the messages that Redis has for the group, and what their handling draws.
abbrev pub Pass : Type 0
Pass = List Message × (ℕ → Fresh)

abbrev pub drained : State → Option (Result (Unit {0}) × State) → State
drained s none = s
drained s (some (r, s')) = s'

module _ (env : Platform) (codec : Codec) (treasury_user_id : Option ℕ) where
  -- `while (this.running)`: an error ends the pass only.
  abbrev pub run_passes : List Pass → State → State
  run_passes [] s = s
  run_passes ((waiting, fresh) ∷ passes) s =
      run_passes passes (process_batch env codec treasury_user_id fresh waiting s).1

  -- `consumeLoop`: an error of the drain is logged. One round for each pending message is enough fuel.
  abbrev pub consume_loop : GroupResult → (ℕ → Fresh) → List Pass → State → State
  consume_loop GroupResult.failed fresh passes s = s
  consume_loop _ fresh passes s =
      run_passes passes
        (drained s (drain_pending env codec treasury_user_id (length s.redis.pending) fresh s))
