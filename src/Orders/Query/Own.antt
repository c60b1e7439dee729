-- ===== src/Orders/Query/Own.antt =====
-- order-query.service.ts: a user reads no order of another.
use hau_cex.Platform.{Platform}
