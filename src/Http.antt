-- ===== src/Http.antt =====
-- The edge of the API: the guards, the user of a request, the interceptor and the controllers of
-- apps/backend/src, on the services. NestJS routes a request to its handler, Passport verifies the
-- access token, and `trim` is that of texts.
use hau_cex.Common.{
  ℕ, Bool, true, false, ◌||◌, List, [], ◌∷◌, Option, none, some, String, str_eq, if◌then◌else◌,
}
use hau_cex.Platform.{Platform}
use hau_cex.Database.Exceptions.{validation_error}
use hau_cex.Database.Schema.{Db, Order, UserRole}
use hau_cex.Database.Tx.{Tx, Result, Error, throw}
use hau_cex.Pagination.{PaginatedResponse}
use hau_cex.Auth.{AuthPlatform, JwtPayload, logout, get_me}
use hau_cex.Orders.Commands.{Fresh}
use hau_cex.Orders.Place.{CreateOrderDto, PlaceOrderResult, place_order}
use hau_cex.Orders.Cancel.{cancel_order}
use hau_cex.Orders.Query as Query
use hau_cex.Orders.Query.{OrderResponse, OrderListQuery, OrderTradeItem}
use hau_cex.Wallets.Query.{
  Columns, WalletResponse, LedgerItem, LedgerQuery, get_my_wallets, get_my_ledger,
}

-- `AuthenticatedUser`.
pub record AuthenticatedUser : Type 0 where
  pub user_id : ℕ
  pub email : String
  pub role : UserRole
  pub session_id : ℕ

-- `JwtAccessStrategy.validate`.
abbrev pub validate : JwtPayload → AuthenticatedUser
validate payload = record {
  user_id = payload.sub;
  email = payload.email;
  role = payload.role;
  session_id = payload.session_id;
}

abbrev same_role : UserRole → UserRole → Bool
same_role UserRole.user UserRole.user = true
same_role UserRole.admin UserRole.admin = true
same_role UserRole.system UserRole.system = true
same_role _ _ = false

abbrev includes : List UserRole → UserRole → Bool
includes [] role = false
includes (r ∷ rs) role = same_role r role || includes rs role

-- `RolesGuard.canActivate`, of the roles that the route asks for and the user of the request.
pub can_activate : Option (List UserRole) → Option AuthenticatedUser → Bool
can_activate none user = true
can_activate (some roles) none = false
can_activate (some roles) (some u) = includes roles u.role

-- What a handler returns: nothing, a value, or an object that has a `requestId`.
pub data Returned (A : Type 0) : Type 0 where
  nothing : Returned A
  value : A → Returned A
  has_request_id : A → Returned A

-- `ApiResponse`: the empty object where the handler returns nothing.
pub data Sent (A : Type 0) : Type 0 where
  as_returned : A → Sent A
  wrapped : Option A → (request_id : ℕ) → Sent A

-- `ResponseInterceptor.intercept`.
pub intercept : {A : Type 0} → ℕ → Returned A → Sent A
intercept request_id Returned.nothing = Sent.wrapped none request_id
intercept request_id (Returned.value a) = Sent.wrapped (some a) request_id
intercept request_id (Returned.has_request_id a) = Sent.as_returned a

-- `OrdersController`.
module _ (env : Platform) (trim : String → String) (user : AuthenticatedUser) where
  -- `!key?.trim()`.
  abbrev is_blank : Option String → Bool
  is_blank none = true
  is_blank (some key) = str_eq (trim key) ""

  abbrev with_key : Option String → (String → Tx PlaceOrderResult) → Tx PlaceOrderResult
  with_key none k =
      throw (Error.http (validation_error (some "Idempotency-Key header is required")))
  with_key (some key) k =
      if is_blank (some key)
      then throw (Error.http (validation_error (some "Idempotency-Key header is required")))
      else k key

  pub place_order_request : ℕ → Option String → CreateOrderDto → Fresh → Tx PlaceOrderResult
  place_order_request order_id key dto fresh =
      with_key key λ k. place_order env order_id user.user_id k dto fresh

  pub cancel_order_request : ℕ → Fresh → Tx PlaceOrderResult
  cancel_order_request order_id fresh = cancel_order user.user_id order_id fresh

module _ (env : Platform) (created_at updated_at : Order → ℕ) (to_iso_string : ℕ → String)
    (user : AuthenticatedUser) where
  pub active_orders_request : Option String → Db → List OrderResponse
  active_orders_request symbol =
      Query.get_active_orders env created_at updated_at to_iso_string user.user_id symbol

  pub order_history_request : OrderListQuery → Db → PaginatedResponse OrderResponse
  order_history_request query =
      Query.get_order_history env created_at updated_at to_iso_string user.user_id query

  pub order_by_id_request : ℕ → Db → Result OrderResponse
  order_by_id_request order_id =
      Query.get_order_by_id env created_at updated_at to_iso_string user.user_id order_id

  pub order_trades_request : ℕ → Db → Result (List OrderTradeItem)
  order_trades_request order_id =
      Query.get_order_trades env created_at updated_at to_iso_string user.user_id order_id

-- `WalletsController` and `LedgerController`.
module _ (env : Platform) (columns : Columns) (user : AuthenticatedUser) where
  pub wallets_request : Db → List WalletResponse
  wallets_request = get_my_wallets env columns user.user_id

  pub ledger_request : LedgerQuery → Db → PaginatedResponse LedgerItem
  ledger_request query = get_my_ledger env columns user.user_id query

-- The two handlers of `AuthController` that need a user.
module _ (auth : AuthPlatform) (user : AuthenticatedUser) where
  pub logout_request : ℕ → Tx (Unit {0})
  logout_request now = logout auth user.session_id now

  pub me_request : Tx (ℕ × String × UserRole)
  me_request = get_me auth user.user_id
