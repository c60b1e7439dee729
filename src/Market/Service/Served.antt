-- ===== src/Market/Service/Served.antt =====
-- market.service.ts with engine-event-consumer.service.ts: the order book that the engine sent is the
-- one that is answered.
use Prim.Native.String.{◌++◌ as join}
use hau_cex.Common.{
  ℕ, ◌≡◌, refl, ap, ◌∙◌, Bool, false, List, [], ◌∷◌, Option, none, some, inl, inr, String, str_eq,
  str_eq_iff, ℤ, ◌≤ℤ◌, map, take, Bool-cases, if◌then◌else◌, arith,
}
use mathlib.Core.List.{Perm, Permᴰ}
use mathlib.Core.List.Permᴰ
use hau_cex.Platform.{Platform}
use hau_cex.Database.Schema.{Db, TradingPair}
use hau_cex.Database.Table.{find_first}
use hau_cex.Database.Tx.{ok}
use hau_cex.EngineEvents.Messages.{EventPayload, Levels, Codec, OrderbookData, Redis, put, get}
use hau_cex.EngineEvents.Messages.Parsing.{get-put}
use hau_cex.EngineEvents.Consumer.{
  post_process_market_event, orderbook_data, get_or, orderbook_cache_prefix,
}
use hau_cex.Orders.Place.{has_symbol}
use hau_cex.Market.Book.{Level, insert, sort, clamp, higher, lower, order_book}
use hau_cex.Market.Book.Depth.{IsOrdered, bids-IsOrdered, asks-IsOrdered}
use hau_cex.Market.Service.{get_order_book}

insert-Perm :
    (before : Level → Level → Bool) (x : Level) (ys : Levels) → Permᴰ (insert before x ys) (x ∷ ys)
insert-Perm before x [] = Permᴰ.refl (x ∷ [])
insert-Perm before x (y ∷ ys) = elim (Bool-cases (before y x)) [
  | inl b ↦ rw b (Permᴰ.trans (Permᴰ.cons refl (insert-Perm before x ys)) (Permᴰ.swap refl refl))
  | inr b ↦ rw b (Permᴰ.refl (x ∷ y ∷ ys))
]

sort-Perm : (before : Level → Level → Bool) (xs : Levels) → Permᴰ (sort before xs) xs
sort-Perm before [] = Permᴰ.refl []
sort-Perm before (x ∷ xs) =
    Permᴰ.trans (insert-Perm before x (sort before xs)) (Permᴰ.cons refl (sort-Perm before xs))

-- The sequence number of an event, 0 where it has none.
abbrev pub or_zero : Option String → String
or_zero none = "0"
or_zero (some s) = if str_eq s "" then "0" else s

-- The time of an event, that of its arrival where it has none.
abbrev pub changed : String → Option String → Option String
changed now none = if str_eq now "" then none else some now
changed now (some t) = if str_eq t "" then none else some t

module _ (env : Platform) (codec : Codec) (treasury_user_id : Option ℕ) where
  of_texts :
      (number : String → ℤ) (symbol : String) (depth : Option ℤ) (pair_id : Option String)
      (p : EventPayload)
      → order_book number symbol depth (some (orderbook_data env codec treasury_user_id pair_id p))
        ≡ record {
          symbol = symbol;
          book_sequence = or_zero p.book_sequence;
          bids = map (λ x. (x.0, x.1)) (take (clamp depth) (sort (higher number) p.bids));
          asks = map (λ x. (x.0, x.1)) (take (clamp depth) (sort (lower number) p.asks));
          updated_at = changed codec.now_text p.changed_at;
        }
  unfolding order_book
  of_texts number symbol depth pair_id p = of_columns p.book_sequence p.changed_at
    where
      of_columns :
          (s t : Option String)
          → order_book number symbol depth (
              some (
                orderbook_data env codec treasury_user_id pair_id
                  (record p { book_sequence = s; changed_at = t })))
            ≡ record {
              symbol = symbol;
              book_sequence = or_zero s;
              bids = map (λ x. (x.0, x.1)) (take (clamp depth) (sort (higher number) p.bids));
              asks = map (λ x. (x.0, x.1)) (take (clamp depth) (sort (lower number) p.asks));
              updated_at = changed codec.now_text t;
            }
      of_columns none none = refl
      of_columns none (some t) = refl
      of_columns (some s) none = refl
      of_columns (some s) (some t) = refl

  cached :
      (key : String) (data_ : OrderbookData) (by_id : List (String × OrderbookData))
      → get key (put key data_ by_id) ≡ some data_
  cached key data_ by_id = get-put key key data_ by_id ∙ rw ((str_eq_iff key key).1 refl) refl

  book_cached :
      (pair_id : Option String) (p : EventPayload) (r : Redis)
      → str_eq p.market "" ≡ false
      → get
          (join orderbook_cache_prefix (env.to_upper_case p.market))
          (post_process_market_event env codec treasury_user_id
            (some "OrderBookChanged")
            pair_id
            p
            r).cache
        ≡ some (orderbook_data env codec treasury_user_id pair_id p)
  unfolding post_process_market_event
  book_cached pair_id p r named = rw named (
      cached (join orderbook_cache_prefix (env.to_upper_case p.market))
        (orderbook_data env codec treasury_user_id pair_id p)
        (put (join orderbook_cache_prefix (get_or env codec treasury_user_id "undefined" pair_id))
          (orderbook_data env codec treasury_user_id pair_id p) r.cache))

  get_order_book-at :
      (number : String → ℤ) (cache : List (String × OrderbookData)) (symbol : String)
      (depth : Option ℤ) (db : Db) (pair : TradingPair)
      → find_first (has_symbol (env.to_upper_case symbol)) db.trading_pairs ≡ some pair
      → get_order_book env number cache symbol depth db ≡ (
        ok (
            order_book number pair.symbol depth
              (get (join orderbook_cache_prefix pair.symbol) cache)),
        db,
      )
  unfolding get_order_book
  get_order_book-at number cache symbol depth db pair found = ground arith

  -- After an OrderBookChanged event of a market, a request for the order book of this market, in
  -- whatever case it writes the symbol, is answered with the levels of that event: the bids from the
  -- highest price on, the asks from the lowest on, each side cut at the depth, with the sequence
  -- number and the time of the event.
  pub order_book_is_served :
      (number : String → ℤ) (pair_id : Option String) (p : EventPayload) (r : Redis)
      (symbol : String) (depth : Option ℤ) (db : Db) (pair : TradingPair)
      → str_eq p.market "" ≡ false
      → find_first (has_symbol (env.to_upper_case symbol)) db.trading_pairs ≡ some pair
      → pair.symbol ≡ env.to_upper_case p.market
      → let cache =
          (post_process_market_event env codec treasury_user_id
            (some "OrderBookChanged")
            pair_id
            p
            r).cache in
        (bids : Levels) × (asks : Levels) × Perm bids p.bids
        × Perm asks p.asks
        × IsOrdered (λ x y. number y.0 ≤ℤ number x.0) bids
        × IsOrdered (λ x y. number x.0 ≤ℤ number y.0) asks
        × (get_order_book env number cache symbol depth db ≡ (
          ok (record {
            symbol = pair.symbol;
            book_sequence = or_zero p.book_sequence;
            bids = map (λ x. (x.0, x.1)) (take (clamp depth) bids);
            asks = map (λ x. (x.0, x.1)) (take (clamp depth) asks);
            updated_at = changed codec.now_text p.changed_at;
          }),
          db,
        ))
  unfolding order_book
  order_book_is_served number pair_id p r symbol depth db pair named found same =
      let after =
        post_process_market_event env codec treasury_user_id (some "OrderBookChanged") pair_id p
          r in
      let data_ = orderbook_data env codec treasury_user_id pair_id p in
      (
        sort (higher number) p.bids,
        sort (lower number) p.asks,
        (∣ sort-Perm (higher number) p.bids ∣₁),
        (∣ sort-Perm (lower number) p.asks ∣₁),
        bids-IsOrdered number p.bids,
        asks-IsOrdered number p.asks,
        get_order_book-at number after.cache symbol depth db pair found
            ∙ ap (λ book. (ok (order_book number pair.symbol depth book), db))
                (ap (λ name. get (join orderbook_cache_prefix name) after.cache) same
                  ∙ book_cached pair_id p r named)
            ∙ ap (λ book. (ok book, db)) (of_texts number pair.symbol depth pair_id p),
      )
