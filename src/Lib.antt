-- ===== src/Lib.antt =====
-- Verification of the backend of a centralised exchange (apps/backend).
--
-- The API process places and cancels orders: `placeOrder` locks the funds, writes the order and an
-- outbox row in one transaction. The outbox poller publishes the rows to a Redis stream, from which
-- the matching engine (a Go service, not modelled) takes its commands. The engine answers on a
-- second stream; the consumer of its events settles trades, unlocks what a cancelled order still
-- locks and changes statuses, in one transaction per message that also marks the message as
-- processed. It then caches the order book, publishes market events and acknowledges the message;
-- the market events reach the clients by WebSocket.
--
-- The database is a record of tables, each a list of rows; a transaction is a function from a
-- database to a result or an exception, and an exception leaves the database as it was. Ids and
-- times, which the code draws at random or from the clock, are arguments. An amount is an integer
-- number of units of 10^-18, the scale of the columns. Sums that PostgreSQL computes are exact;
-- those that decimal.js computes come from the record `Platform` and are exact only where the
-- result fits its 20 digits.
--
-- The files and the code they model; a definition has the name of the code in snake_case:
--   Common: shared names, lists and integers. Platform: decimal.js, hashes and texts.
--   Database: apps/backend/prisma/schema.prisma (Schema), apps/backend/src/common/exceptions
--     (Exceptions), the tables (Table), transactions (Tx) and what a step leaves alone (Frame).
--     Sorting is the order of a query.
--   Wallets/Balance: apps/backend/src/modules/wallets/wallet-balance.service.ts.
--   Wallets/Query: apps/backend/src/modules/wallets/wallets.service.ts.
--   EngineEvents/Settlement: apps/backend/src/modules/engine-events/trade-settlement.service.ts.
--     Measure is the interface of a quantity of the database that a wallet movement changes by what
--     it says; Steps and Walk follow such a quantity through a settlement. Its instances are the sum
--     of an asset (Conservation) and the gap between locked balances and locks (Backing/Gap).
--   EngineEvents/Cancellation:
--     apps/backend/src/modules/engine-events/order-cancellation.service.ts.
--   EngineEvents/Messages, EngineEvents/Consumer, and EngineEvents/Loop around the batches:
--     apps/backend/src/modules/engine-events/engine-event-consumer.service.ts.
--   Orders (Commands, Place, Cancel): apps/backend/src/modules/orders/orders.service.ts,
--     apps/backend/src/common/helpers/sequence.helper.ts and
--     apps/backend/src/common/helpers/idempotency.helper.ts.
--   Orders/Query: apps/backend/src/modules/orders/order-query.service.ts.
--   Outbox: apps/backend/src/modules/outbox/outbox-poller.service.ts.
--   Bootstrap: apps/backend/src/modules/engine/open-market.bootstrap.service.ts.
--   Auth: apps/backend/src/modules/auth/auth.service.ts.
--   Market/Book, Market/Service: apps/backend/src/modules/market/market.service.ts.
--   Market/Gateway: apps/backend/src/modules/market/market.gateway.ts and
--     market-events-consumer.service.ts.
--   Pagination: apps/backend/src/common/helpers/cursor.helper.ts.
--   Decimal: apps/backend/src/common/helpers/decimal.helper.ts.
--   Http: the guards, the interceptor and the controllers of apps/backend/src.
--   Seed: apps/backend/prisma/seed.ts.
--   Backing: the balances that wallets hold locked against what the orders have locked, through
--     orders.service.ts, trade-settlement.service.ts and order-cancellation.service.ts.
--   Terms: the columns of an order that are fixed when it is placed, through the same files.
--   System: both processes on one database and one Redis, as a relation of steps: a request, a
--     message of the engine, a batch of the outbox, a start. What the engine promises of a message
--     is a parameter of the steps: for the balances, that a trade's fees are exact and that the two
--     orders have locked what it costs (Backing/Messages). Of a message that has been processed
--     before, nothing is asked.
--   Tests, Testing: the theorems at concrete inputs.
--
-- The drain of pending messages is the one loop that runs on fuel, the number of passes; its
-- theorem tells how much is enough. The endless loops run over the passes that they make before
-- they are stopped. Calls of Redis in the consumer are taken to succeed, except for the creation
-- of its group; those of the outbox poller and its updates may fail, its read of the rows does
-- not. JSON, bcrypt, JWT, sha256 and the text of ids are parameters with the laws that the code
-- relies on, and so are the columns that PostgreSQL fills by itself and its order of texts. The
-- steps of the system are whole transactions, one after another: the rows that a transaction
-- changes are locked by it. The CHECK constraints of apps/backend/prisma/add-contrains.sql, the
-- text of a cursor, NestJS wiring, the web application, the contracts and the engine are not
-- modelled.
pub mod Common
pub mod Platform
pub mod Database
pub mod Wallets
pub mod EngineEvents
pub mod Orders
pub mod Backing
pub mod Outbox
pub mod Auth
pub mod Market
pub mod Decimal
pub mod Pagination
pub mod Bootstrap
pub mod Http
pub mod Seed
pub mod Terms
pub mod System
mod Tests
pub mod Testing
