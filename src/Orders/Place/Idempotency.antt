-- ===== src/Orders/Place/Idempotency.antt =====
-- orders.service.ts with idempotency.helper.ts: a request that is sent again.
use hau_cex.Common.{
  ℕ, ◌≡◌, refl, sym, ap, ◌∙◌, true, ◌&&◌, List, [], ◌∷◌, ◌++◌, none, some, inl, inr, String, str_eq,
  str_eq_iff, ◌==◌, ==_iff, if◌then◌else◌, Option-cases, Bool-cases, arith,
}
use hau_cex.Platform.{Platform}
use hau_cex.Database.Exceptions.{idempotency_conflict}
use hau_cex.Database.Schema.{Db, Order}
use hau_cex.Database.Table.{find_first}
use hau_cex.Database.Tx.{Error, Result, ok, err}
use hau_cex.Orders.Commands.{Fresh}
use hau_cex.Orders.Place.{
  CreateOrderDto, PlaceOrderResult, has_key, hash_order_payload, new_order, place_order,
  place_in_tx,
}
use hau_cex.Orders.Place.Effects.{placed, place_order-placed}

find_appended :
    (user_id : ℕ) (key : String) (os : List Order) (o : Order)
    → find_first (has_key user_id key) os ≡ none
    → has_key user_id key o ≡ true
    → find_first (has_key user_id key) (os ++ o ∷ []) ≡ some o
find_appended user_id key [] o e h = rw h refl
find_appended user_id key (x ∷ os) o e h = ground (arith, find_appended user_id key os o)

same_key : (user_id : ℕ) (key : String) → (user_id == user_id && str_eq key key) ≡ true
same_key user_id key = rw ((==_iff user_id user_id).1 refl, (str_eq_iff key key).1 refl) refl

ok-injective : (a b : PlaceOrderResult) → ok a ≡ ok b → a ≡ b
ok-injective a b e = cc

module _ (env : Platform) (user_id : ℕ) (key : String) where
  -- What a repeated request gets: the order, or a conflict if its payload is not the order's.
  abbrev replayed : String → String → PlaceOrderResult → Result PlaceOrderResult
  replayed hash again a = if str_eq hash again then ok a else err (Error.http idempotency_conflict)

  place_order-replays :
      (order_id : ℕ) (dto : CreateOrderDto) (fresh : Fresh) (db : Db) (o : Order)
      → find_first (has_key user_id key) db.orders ≡ some o
      → place_order env order_id user_id key dto fresh db ≡ (
        replayed o.idempotency_payload_hash
            (hash_order_payload env dto)
            (record { order_id = o.id; status = o.status }),
        db,
      )
  unfolding place_order place_in_tx
  place_order-replays order_id dto fresh db o e = ground arith

  replayed-ok :
      (hash again : String) (b a : PlaceOrderResult)
      → replayed hash again b ≡ ok a
      → (hash ≡ again) × (b ≡ a)
  replayed-ok hash again b a h = elim (Bool-cases (str_eq hash again)) [
    | inl same ↦ ((str_eq_iff hash again).0 same, ground arith)
    | inr differ ↦ absurd (ground arith)
  ]

  module _ (order_id again_id : ℕ) (dto again_dto : CreateOrderDto) (fresh again : Fresh)
      (db : Db) where
    again_known :
        (a : PlaceOrderResult) (o : Order)
        → find_first (has_key user_id key) db.orders ≡ some o
        → (place_order env order_id user_id key dto fresh db).0 ≡ ok a
        → let after = (place_order env order_id user_id key dto fresh db).1 in
          place_order env again_id user_id key again_dto again after
          ≡ (replayed (hash_order_payload env dto) (hash_order_payload env again_dto) a, after)
    again_known a o known h =
        let at = place_order-replays order_id dto fresh db o known in
        let (hash, b) = replayed-ok _ _ _ a (ap (λ r. r.0) (sym at) ∙ h) in
        rw at (place_order-replays again_id again_dto again db o known ∙ rw (hash, b) refl)

    again_new :
        (a : PlaceOrderResult)
        → find_first (has_key user_id key) db.orders ≡ none
        → (place_order env order_id user_id key dto fresh db).0 ≡ ok a
        → let after = (place_order env order_id user_id key dto fresh db).1 in
          place_order env again_id user_id key again_dto again after
          ≡ (replayed (hash_order_payload env dto) (hash_order_payload env again_dto) a, after)
    again_new a new h =
        let (pair, read, w, fp, ready, valid, fw, locks, at) =
          place_order-placed env order_id user_id key dto fresh db a new h in
        let o = new_order env order_id user_id key pair dto (db.order_seq pair.id) in
        rw at (
          place_order-replays again_id again_dto again
            (placed env order_id user_id key dto fresh pair read w db) o
            (find_appended user_id key db.orders o new (same_key user_id key))
          ∙ rw (ok-injective _ _ (sym h ∙ ap (λ r. r.0) at)) refl)

    -- A request that was accepted and is sent again with its idempotency key changes nothing: if
    -- the payload has the same hash the answer is the same, otherwise the request is refused
    -- with IDEMPOTENCY_CONFLICT.
    pub place_order_once :
        (a : PlaceOrderResult)
        → (place_order env order_id user_id key dto fresh db).0 ≡ ok a
        → let after = (place_order env order_id user_id key dto fresh db).1 in
          place_order env again_id user_id key again_dto again after ≡ (
            if str_eq (hash_order_payload env dto) (hash_order_payload env again_dto)
                then ok a
                else err (Error.http idempotency_conflict),
            after,
          )
    place_order_once a h = elim (Option-cases (find_first (has_key user_id key) db.orders)) [
      | inl new ↦ again_new a new h
      | inr (o, known) ↦ again_known a o known h
    ]
