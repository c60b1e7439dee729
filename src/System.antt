-- ===== src/System.antt =====
-- The backend as a whole: the API process (apps/backend/src/main-api.ts) and the worker process
-- (apps/backend/src/main-worker.ts) on one database and one Redis. Every transaction runs alone,
-- since the rows that it reads for update are locked; transactions follow one another in any order.
pub mod Frames
pub mod Safety
pub mod Cancellation
pub mod Terms
pub mod Residue
use hau_cex.Common.{ℕ, String, List, ◌++◌, Option}
use hau_cex.Platform.{Platform}
use hau_cex.Database.Schema.{Db}
use hau_cex.EngineEvents.Settlement as Settlement
use hau_cex.EngineEvents.Messages.{Message, Codec, Redis, State}
use hau_cex.EngineEvents.Consumer.{handle_message}
use hau_cex.Orders.Commands as Commands
use hau_cex.Orders.Place.{CreateOrderDto, place_order}
use hau_cex.Orders.Cancel.{cancel_order}
use hau_cex.Outbox.{StreamEntry, Poller, Outcome, process_batch}
use hau_cex.Bootstrap.{bootstrap_markets}
use hau_cex.Auth as Auth
use hau_cex.Auth.{AuthPlatform, RegisterDto, LoginDto, register, login, refresh, logout}

-- The database, what the consumer of the engine's events keeps in Redis, and the stream of commands.
pub record System : Type 0 where
  pub db : Db
  pub redis : Redis
  pub sent : List StreamEntry

abbrev pub with_db : Db → System → System
with_db db s = record s { db = db }

abbrev pub consumer_of : System → State
consumer_of s = record { db = s.db; redis = s.redis }

abbrev pub with_consumer : State → System → System
with_consumer c s = record s { db = c.db; redis = c.redis }

abbrev pub poller_of : System → Poller
poller_of s = record { events = s.db.outbox_events; sent = s.sent }

abbrev pub with_poller : Poller → System → System
with_poller p s = record s { db = record s.db { outbox_events = p.events }; sent = p.sent }

-- `Sends` is what the engine promises of a message when the worker handles it.
module _ (env : Platform) (codec : Codec) (treasury_user_id : Option ℕ) (auth : AuthPlatform)
    (Sends : Message → Db → Type 0) where
  -- One request, message or batch.
  pub data Step (s : System) : System → Type 0 where
    placed :
        (order_id user_id : ℕ) (key : String) (dto : CreateOrderDto) (fresh : Commands.Fresh)
        → Step s (with_db (place_order env order_id user_id key dto fresh s.db).1 s)
    cancel_requested :
        (user_id order_id : ℕ) (fresh : Commands.Fresh)
        → Step s (with_db (cancel_order user_id order_id fresh s.db).1 s)
    delivered :
        (ms : List Message)
        → Step s (record s { redis = record s.redis { pending = s.redis.pending ++ ms } })
    handled :
        (m : Message) (fresh : Settlement.Fresh)
        → Sends m s.db
        → Step s
            (with_consumer (handle_message env codec treasury_user_id fresh m (consumer_of s)).1 s)
    polled :
        (now : ℕ) (outcome : ℕ → Outcome)
        → Step s (with_poller (process_batch now outcome (poller_of s)).1 s)
    started : (fresh : ℕ → Commands.Fresh) → Step s (with_db (bootstrap_markets env fresh s.db).1 s)
    registered :
        (dto : RegisterDto) (fresh : Auth.Fresh)
        → Step s (with_db (register auth dto fresh s.db).1 s)
    logged_in :
        (dto : LoginDto) (fresh : Auth.Fresh) → Step s (with_db (login auth dto fresh s.db).1 s)
    refreshed :
        (token : String) (fresh : Auth.Fresh) → Step s (with_db (refresh auth token fresh s.db).1 s)
    logged_out : (session_id now : ℕ) → Step s (with_db (logout auth session_id now s.db).1 s)

  -- What the backend comes to from a state.
  pub data Reach (s : System) : System → Type 0 where
    start : Reach s s
    later : {t u : System} → Reach s t → Step t u → Reach s u
