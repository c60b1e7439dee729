-- ===== src/Market/Gateway/Rooms.antt =====
-- market.gateway.ts: who gets the broadcasts of a market.
use hau_cex.Common.{
  ℕ, ◌≡◌, refl, Bool, true, false, ◌&&◌, ◌||◌, List, [], ◌∷◌, ◌++◌, some, inl, inr, String, str_eq,
  str_eq_iff, ◌==◌, ==_iff, Bool-cases, arith,
}
use hau_cex.Platform.{Platform}
use hau_cex.Database.Table.{exists}
use hau_cex.Market.Gateway.{
  Rooms, Delivery, MarketSubscribePayload, is_member, join_room, leave_room, raw_symbol,
  market_room, orderbook_room, trades_room, emit, join_all, leave_all, handle_subscribe,
  handle_unsubscribe, broadcast_order_book, broadcast_trade,
}

module _ {P : Type 0} where
  -- The client gets the event.
  abbrev pub gets : ℕ → String → Delivery P → Bool
  gets client event d = d.client == client && str_eq d.event event

  abbrev pub is_for : ℕ → Delivery P → Bool
  is_for client d = d.client == client

  exists-append :
      (p : Delivery P → Bool) (xs ys : List (Delivery P))
      → exists p (xs ++ ys) ≡ (exists p xs || exists p ys)
  exists-append p [] ys = refl
  exists-append p (x ∷ xs) ys = ground (arith, exists-append p xs ys)

  first_of_three :
      (p : Delivery P → Bool) (xs ys zs : List (Delivery P))
      → exists p xs ≡ true
      → exists p (xs ++ ys ++ zs) ≡ true
  first_of_three p xs ys zs h = rw (exists-append p (xs ++ ys) zs, exists-append p xs ys, h) refl

  none_of_three :
      (p : Delivery P → Bool) (xs ys zs : List (Delivery P))
      → exists p xs ≡ false
      → exists p ys ≡ false
      → exists p zs ≡ false
      → exists p (xs ++ ys ++ zs) ≡ false
  none_of_three p xs ys zs h k l =
      rw (exists-append p (xs ++ ys) zs, exists-append p xs ys, h, k, l) refl

  emit-member :
      (client : ℕ) (room event : String) (payload : P) (rooms : Rooms)
      → exists (is_member client room) rooms ≡ true
      → exists (gets client event) (emit room event payload rooms) ≡ true
  emit-member client room event payload [] h = cc
  emit-member client room event payload ((c, r) ∷ rooms) h =
      ground (arith, emit-member client room event payload rooms, (str_eq_iff event event).1 refl)

  emit-stranger :
      (client : ℕ) (room event : String) (payload : P) (rooms : Rooms)
      → exists (is_member client room) rooms ≡ false
      → exists (is_for client) (emit room event payload rooms) ≡ false
  emit-stranger client room event payload [] h = refl
  emit-stranger client room event payload ((c, r) ∷ rooms) h =
      ground (arith, emit-stranger client room event payload rooms)

append-member :
    (client c : ℕ) (room r : String) (rooms : Rooms)
    → exists (is_member client room) rooms ≡ true
    → exists (is_member client room) (rooms ++ (c, r) ∷ []) ≡ true
append-member client c room r [] h = cc
append-member client c room r (x ∷ rooms) h = ground (arith, append-member client c room r rooms)

append-last :
    (client : ℕ) (room : String) (rooms : Rooms)
    → exists (is_member client room) (rooms ++ (client, room) ∷ []) ≡ true
append-last client room [] = rw ((==_iff client client).1 refl, (str_eq_iff room room).1 refl) refl
append-last client room (x ∷ rooms) = ground (arith, append-last client room rooms)

-- Joining a room makes a member of it, and takes nobody out of another.
join_room-member :
    (client : ℕ) (room : String) (rooms : Rooms)
    → exists (is_member client room) (join_room client room rooms) ≡ true
join_room-member client room rooms = elim (Bool-cases (exists (is_member client room) rooms)) [
  | inl e ↦ rw e e
  | inr e ↦ rw e (append-last client room rooms)
]

join_room-stays :
    (client : ℕ) (room other : String) (rooms : Rooms)
    → exists (is_member client room) rooms ≡ true
    → exists (is_member client room) (join_room client other rooms) ≡ true
join_room-stays client room other rooms h =
    elim (Bool-cases (exists (is_member client other) rooms)) [
      | inl e ↦ rw e h
      | inr e ↦ rw e (append-member client client room other rooms h)
    ]

leave_room-member :
    (client : ℕ) (room : String) (rooms : Rooms)
    → exists (is_member client room) (leave_room client room rooms) ≡ false
leave_room-member client room [] = refl
leave_room-member client room (x ∷ rooms) = ground (arith, leave_room-member client room rooms)

leave_room-stays :
    (client : ℕ) (room other : String) (rooms : Rooms)
    → exists (is_member client room) rooms ≡ false
    → exists (is_member client room) (leave_room client other rooms) ≡ false
leave_room-stays client room other [] h = refl
leave_room-stays client room other (x ∷ rooms) h =
    ground (arith, leave_room-stays client room other rooms)

module _ (env : Platform) (client : ℕ) (data_ : MarketSubscribePayload) (raw : String) where
  -- A client that has subscribed to a market gets the updates of its order book and its trades, in
  -- whatever case the symbol is written.
  pub subscribed_receives :
      {P : Type 0} (symbol : String) (payload : P) (rooms : Rooms)
      → raw_symbol data_ ≡ some raw
      → env.to_upper_case symbol ≡ env.to_upper_case raw
      → let after = (handle_subscribe env client data_ rooms).1 in
        (exists (gets client "orderbook.update") (broadcast_order_book env symbol payload after)
          ≡ true)
        × (exists (gets client "trade.created") (broadcast_trade env symbol payload after) ≡ true)
  unfolding handle_subscribe broadcast_order_book broadcast_trade
  subscribed_receives symbol payload rooms e same =
      let sym_ = env.to_upper_case raw in
      let joined = join_all env client sym_ rooms in
      let member = join_room-stays client (market_room sym_) (trades_room sym_) _ (
        join_room-stays client (market_room sym_) (orderbook_room sym_) _
          (join_room-member client (market_room sym_) rooms)) in
      rw (e, same)
        (
          first_of_three (gets client "orderbook.update")
              (emit (market_room sym_) "orderbook.update" payload joined) _ _
              (emit-member client (market_room sym_) "orderbook.update" payload joined member),
          first_of_three (gets client "trade.created")
              (emit (market_room sym_) "trade.created" payload joined) _ _
              (emit-member client (market_room sym_) "trade.created" payload joined member),
        )

  -- A client that has unsubscribed from a market gets none of its broadcasts.
  pub unsubscribed_receives_nothing :
      {P : Type 0} (symbol : String) (payload : P) (rooms : Rooms)
      → raw_symbol data_ ≡ some raw
      → env.to_upper_case symbol ≡ env.to_upper_case raw
      → let after = (handle_unsubscribe env client data_ rooms).1 in
        (exists (is_for client) (broadcast_order_book env symbol payload after) ≡ false)
        × (exists (is_for client) (broadcast_trade env symbol payload after) ≡ false)
  unfolding handle_unsubscribe broadcast_order_book broadcast_trade
  unsubscribed_receives_nothing symbol payload rooms e same =
      let sym_ = env.to_upper_case raw in
      let left = leave_all env client sym_ rooms in
      let market = leave_room-stays client (market_room sym_) (trades_room sym_) _ (
        leave_room-stays client (market_room sym_) (orderbook_room sym_) _
          (leave_room-member client (market_room sym_) rooms)) in
      let book = leave_room-stays client (orderbook_room sym_) (trades_room sym_) _ (
        leave_room-member client (orderbook_room sym_)
          (leave_room client (market_room sym_) rooms)) in
      let trades =
        leave_room-member client (trades_room sym_)
          (leave_room client (orderbook_room sym_) (leave_room client (market_room sym_) rooms)) in
      rw (e, same)
        (
          three (market_room sym_) (orderbook_room sym_) "orderbook.update" "orderbook.update"
              "ORDERBOOK_UPDATE" payload left market book,
          three (market_room sym_) (trades_room sym_) "trade.created" "trade.created" "TRADE"
              payload left market trades,
        )
    where
      three :
          {P : Type 0} (r s e f g : String) (payload : P) (left : Rooms)
          → exists (is_member client r) left ≡ false
          → exists (is_member client s) left ≡ false
          → exists
              (is_for client)
              (emit r e payload left ++ emit s f payload left ++ emit s g payload left)
            ≡ false
      three r s e f g payload left h k =
          none_of_three (is_for client) (emit r e payload left) (emit s f payload left)
            (emit s g payload left) (emit-stranger client r e payload left h)
            (emit-stranger client s f payload left k) (emit-stranger client s g payload left k)
