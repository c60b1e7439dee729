-- ===== src/Orders/Query/Active.antt =====
-- order-query.service.ts: the active orders are those that may still change.
use hau_cex.Common.{ℕ, Bool, true, false, not, ◌&&◌, List, ◌==◌}
use hau_cex.Platform.{Platform}
use hau_cex.Database.Schema.{Order, OrderStatus}

-- FILLED, CANCELLED or REJECTED.
abbrev pub is_final : OrderStatus → Bool
is_final OrderStatus.filled = true
is_final OrderStatus.cancelled = true
is_final OrderStatus.rejected = true
is_final _ = false

-- The orders of a user whose status may still change.
abbrev pub unfinished : ℕ → Order → Bool
unfinished user_id o = o.user_id == user_id && not (is_final o.status)
