-- ===== src/Market/Book.antt =====
-- apps/backend/src/modules/market/market.service.ts: the order book in the cache, sorted and cut. The
-- cache holds what the consumer of the engine's events has put there. `Number` of a text is a
-- parameter; it orders the prices.
pub mod Depth
use hau_cex.Common.{
  ℕ, suc, Bool, true, false, not, List, [], ◌∷◌, map, Option, none, some, String, ℤ, pos, negsuc,
  str_eq, ltb, ltb_ℤ, leb_ℤ, is_zero, take, min, max, if◌then◌else◌,
}
use hau_cex.EngineEvents.Messages.{Levels, OrderbookData, get}

abbrev pub Level : Type 0
Level = String × String × String

-- `Array.prototype.sort` by a test that tells if the second of two must come before the first; it
-- keeps the order of equals.
abbrev pub insert : (Level → Level → Bool) → Level → Levels → Levels
insert before x [] = x ∷ []
insert before x (y ∷ ys) = if before y x then y ∷ insert before x ys else x ∷ y ∷ ys

abbrev pub sort : (Level → Level → Bool) → Levels → Levels
sort before [] = []
sort before (x ∷ xs) = insert before x (sort before xs)

-- `Math.min(Math.max(1, Number(n) || 50), 100)`; `none` is NaN.
abbrev pub clamp : Option ℤ → ℕ
clamp none = 50
clamp (some z) = if is_zero z then 50 else if ltb_ℤ z (pos 1) then 1 else min (magnitude z) 100
  where
    magnitude : ℤ → ℕ
    magnitude (pos n) = n
    magnitude (negsuc n) = 1

-- `OrderBookResult`.
pub record OrderBookResult : Type 0 where
  pub symbol : String
  pub book_sequence : String
  pub bids : List (String × String)
  pub asks : List (String × String)
  pub updated_at : Option String

module _ (number : String → ℤ) where
  -- The highest bid first, the lowest ask first.
  abbrev pub higher : Level → Level → Bool
  higher x y = ltb_ℤ (number y.0) (number x.0)

  abbrev pub lower : Level → Level → Bool
  lower x y = ltb_ℤ (number x.0) (number y.0)

  abbrev pub first_price : Levels → Option String
  first_price [] = none
  first_price (x ∷ xs) = some x.0

  -- `getBestBidAsk`, of the book that the cache has for the symbol.
  pub best_bid_ask : Option OrderbookData → Option String × Option String
  best_bid_ask none = (none, none)
  best_bid_ask (some book) =
      (first_price (sort higher book.bids), first_price (sort lower book.asks))

  abbrev pub to_pair : Level → String × String
  to_pair x = (x.0, x.1)

  -- `getOrderBook`, of the book in the cache.
  unfoldable pub order_book : String → Option ℤ → Option OrderbookData → OrderBookResult
  order_book symbol depth none = record {
    symbol = symbol;
    book_sequence = "0";
    bids = [];
    asks = [];
    updated_at = none;
  }
  order_book symbol depth (some book) = record {
    symbol = symbol;
    book_sequence = if str_eq book.book_sequence "" then "0" else book.book_sequence;
    bids = map to_pair (take (clamp depth) (sort higher book.bids));
    asks = map to_pair (take (clamp depth) (sort lower book.asks));
    updated_at = if str_eq book.changed_at "" then none else some book.changed_at;
  }
