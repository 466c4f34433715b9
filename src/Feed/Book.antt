-- ===== src/Feed/Book.antt =====
-- mdh/include/book/price_level.hpp, order_book.hpp, book_manager.hpp and mdh/src/book/order_book.cpp,
-- book_manager.cpp: the books that a feed rebuilds. A list iterator is the id of the order that it
-- points to; the ids in a book are all different.
pub mod Levels
pub mod Contents
pub mod Changed
pub mod Removal
pub mod Placement
pub mod Refines
pub mod Totals
pub mod Best
mod Tests
use cpp_projects.Base.{
  ℕ, Bool, true, false, Option, none, some, List, [], ◌∷◌, ◌++◌, ◌==◌, if◌then◌else◌, length, take,
}
use cpp_projects.Base.Int.{ℤ, pos, leb_ℤ, ltb_ℤ, ◌==ℤ◌, ==ℤ_iff}
use cpp_projects.Base.Map.{Key, ℕ_key, find, insert_or_assign, erase}
use cpp_projects.Base.Word.{add64, sub64, inc64}
use cpp_projects.Types.{Price, Quantity, Side, buy, sell, is_buy}

-- RestingOrder: id and quantity.
abbrev pub RestingOrder : Type 0
RestingOrder = ℕ × Quantity

pub record PriceLevel : Type 0 where
  pub orders : List RestingOrder
  pub aggregate_qty : Quantity

abbrev pub empty_level : PriceLevel
empty_level = record { orders = []; aggregate_qty = 0 }

abbrev pub add_to_level : ℕ → Quantity → PriceLevel → PriceLevel
add_to_level id qty level = record {
  orders = level.orders ++ ((id, qty) ∷ []);
  aggregate_qty = add64 level.aggregate_qty qty;
}

-- The quantity behind an iterator.
abbrev pub quantity_at : Option Quantity → Quantity
quantity_at none = 0
quantity_at (some qty) = qty

unfoldable pub remove_from_level : ℕ → PriceLevel → PriceLevel
unfolding find erase
remove_from_level id level = record {
  orders = erase id level.orders;
  aggregate_qty = sub64 level.aggregate_qty (quantity_at (find id level.orders));
}

abbrev pub is_empty_level : PriceLevel → Bool
is_empty_level level = elim level.orders [ [] ↦ true | o ∷ os ↦ false ]

pub data BookError : Type 0 where
  unknown_order_id duplicate_order_id invalid_price invalid_quantity : BookError

-- A std::map from prices, as its entries in the order of iteration.
abbrev pub Levels : Type 0
Levels = List (Price × PriceLevel)

-- The order of the map: the highest bid first, the lowest ask first.
abbrev pub before : Side → Price → Price → Bool
before buy p q = ltb_ℤ q p
before sell p q = ltb_ℤ p q

-- `try_emplace(price, price)` and a change of the level that it gives.
unfoldable pub with_level : Side → Price → (PriceLevel → PriceLevel) → Levels → Levels
with_level side price f [] = (price, f empty_level) ∷ []
with_level side price f ((p, level) ∷ rest) =
    if p ==ℤ price
    then (p, f level) ∷ rest
    else if before side price p
    then (price, f empty_level) ∷ (p, level) ∷ rest
    else (p, level) ∷ with_level side price f rest

pub record OrderLocation : Type 0 where
  pub side : Side
  pub price : Price
  pub it : ℕ

pub record OrderBook : Type 0 where
  pub bids : Levels
  pub asks : Levels
  pub order_index : List (ℕ × OrderLocation)

abbrev pub empty_book : OrderBook
empty_book = record { bids = []; asks = []; order_index = [] }

abbrev pub levels : Side → OrderBook → Levels
levels buy b = b.bids
levels sell b = b.asks

abbrev pub put_levels : Side → Levels → OrderBook → OrderBook
put_levels buy ls b = record b { bids = ls }
put_levels sell ls b = record b { asks = ls }

unfoldable pub insert_at : Side → ℕ → Price → Quantity → OrderBook → OrderBook
unfolding with_level insert_or_assign
insert_at side id price qty b =
    let b' = put_levels side (with_level side price (add_to_level id qty) (levels side b)) b in
    record b' {
      order_index =
          insert_or_assign id (record { side = side; price = price; it = id }) b'.order_index;
    }

-- `find(price)`, the removal, and `erase` of a level that it empties.
unfoldable pub take_order : Price → ℕ → Levels → Levels
unfolding remove_from_level
take_order price id [] = []
take_order price id ((p, level) ∷ rest) =
    let level' = remove_from_level id level in
    let rest' = take_order price id rest in
    if p ==ℤ price
    then if is_empty_level level' then rest else (p, level') ∷ rest
    else (p, level) ∷ rest'

unfoldable pub erase_at : OrderLocation → OrderBook → OrderBook
unfolding take_order
erase_at loc b = put_levels loc.side (take_order loc.price loc.it (levels loc.side b)) b

-- `price <= 0` and `qty == 0`.
abbrev pub invalid_order : Price → Quantity → Option BookError
invalid_order price qty =
    if leb_ℤ price (pos 0)
    then some invalid_price
    else if qty == 0
    then some invalid_quantity
    else none

unfoldable pub add_order : ℕ → Price → Quantity → Side → OrderBook → Option BookError × OrderBook
unfolding find insert_at
add_order id price qty side b = elim (invalid_order price qty) [
  | some e ↦ (some e, b)
  | none ↦ elim (find id b.order_index) [
    | some loc ↦ (some duplicate_order_id, b)
    | none ↦ (none, insert_at side id price qty b)
  ]
]

unfoldable pub cancel_order : ℕ → OrderBook → Option BookError × OrderBook
unfolding find erase erase_at
cancel_order id b = elim (find id b.order_index) [
  | none ↦ (some unknown_order_id, b)
  | some loc ↦ (none, record (erase_at loc b) { order_index = erase id b.order_index })
]

unfoldable pub modify_order : ℕ → Price → Quantity → OrderBook → Option BookError × OrderBook
unfolding find erase erase_at insert_at
modify_order id new_price new_qty b = elim (invalid_order new_price new_qty) [
  | some e ↦ (some e, b)
  | none ↦ elim (find id b.order_index) [
    | none ↦ (some unknown_order_id, b)
    | some loc ↦ (
      none,
      insert_at loc.side id new_price new_qty
          (record (erase_at loc b) { order_index = erase id b.order_index }),
    )
  ]
]

abbrev pub clear : OrderBook → OrderBook
clear b = empty_book

pub record PriceLevelView : Type 0 where
  pub price : Price
  pub aggregate_quantity : Quantity
  pub order_count : ℕ

abbrev pub view_level : Price × PriceLevel → PriceLevelView
view_level (price, level) = record {
  price = price;
  aggregate_quantity = level.aggregate_qty;
  order_count = length level.orders;
}

-- best_bid and best_ask.
abbrev pub best_level : Levels → Option PriceLevelView
best_level [] = none
best_level (l ∷ rest) = some (view_level l)

abbrev pub best_bid : OrderBook → Option PriceLevelView
best_bid b = best_level b.bids

abbrev pub best_ask : OrderBook → Option PriceLevelView
best_ask b = best_level b.asks

abbrev pub view_levels : Levels → List PriceLevelView
view_levels [] = []
view_levels (l ∷ rest) = view_level l ∷ view_levels rest

abbrev pub top_bids : ℕ → OrderBook → List PriceLevelView
top_bids n b = view_levels (take n b.bids)

abbrev pub top_asks : ℕ → OrderBook → List PriceLevelView
top_asks n b = view_levels (take n b.asks)

pub record OrderView : Type 0 where
  pub order_id : ℕ
  pub price : Price
  pub quantity : Quantity

abbrev pub view_orders : Price → List RestingOrder → List OrderView
view_orders price [] = []
view_orders price ((id, qty) ∷ rest) =
    record { order_id = id; price = price; quantity = qty } ∷ view_orders price rest

-- all_bids and all_asks.
abbrev pub all_orders : Levels → List OrderView
all_orders [] = []
all_orders ((price, level) ∷ rest) = view_orders price level.orders ++ all_orders rest
