-- ===== src/Lob.antt =====
-- LimitOrderBook/include/types.hpp, price_level.hpp, order_book.hpp and LimitOrderBook/src/price_level.cpp,
-- order_book.cpp: a book with the matching in it. A list iterator is the id of the order that it points to:
-- the index of a level has one for the latest order with an id.
mod Ladder
mod Matching
mod Uncrossed
mod Run
mod Engine
mod Tests
use cpp_projects.Base.{
  ℕ, zero, suc, ◌+◌, ◌-◌, ◌%◌, ◌^◌, Bool, true, false, Option, none, some, List, [], ◌∷◌, ◌++◌, ltb,
  ◌||◌, ◌&&◌, not, ◌==◌, if◌then◌else◌, length,
}
use cpp_projects.Base.Int.{ℤ, leb_ℤ, ltb_ℤ, ◌==ℤ◌}
use cpp_projects.Base.Map.{ℕ_key, find, insert_or_assign, erase}
use cpp_projects.Types.{Price, Quantity, Side, buy, sell}

pub record Order : Type 0 where
  pub price : Price
  pub timestamp : ℕ
  pub quantity : Quantity
  pub id : ℕ
  pub side : Side

pub record PriceLevel : Type 0 where
  pub order_map : List (ℕ × ℕ)
  pub orders : List Order

abbrev pub empty_level : PriceLevel
empty_level = record { order_map = []; orders = [] }

unfoldable pub level_add : Order → PriceLevel → PriceLevel
unfolding insert_or_assign
level_add order l = record {
  order_map = insert_or_assign order.id order.id l.order_map;
  orders = l.orders ++ (order ∷ []);
}

abbrev pub has_order : ℕ → List Order → Bool
has_order it [] = false
has_order it (o ∷ os) = (o.id == it) || has_order it os

-- `orders.erase` at an iterator, which points to the last order with its id.
abbrev pub erase_order : ℕ → List Order → List Order
erase_order it [] = []
erase_order it (o ∷ os) =
    let rest = erase_order it os in if (o.id == it) && not (has_order it os) then os else o ∷ rest

unfoldable pub level_cancel : ℕ → PriceLevel → Bool × PriceLevel
unfolding find erase
level_cancel id l = elim (find id l.order_map) [
  | none ↦ (false, l)
  | some it ↦ (true, record { order_map = erase id l.order_map; orders = erase_order it l.orders })
]

abbrev pub is_empty : PriceLevel → Bool
is_empty l = elim l.orders [ [] ↦ true | o ∷ os ↦ false ]

-- A std::map from prices, as its entries in the order of iteration.
abbrev pub Levels : Type 0
Levels = List (Price × PriceLevel)

pub record OrderBook : Type 0 where
  pub asks : Levels
  pub bids : Levels
  pub order_index : List (ℕ × (Side × Price))

abbrev pub empty_book : OrderBook
empty_book = record { asks = []; bids = []; order_index = [] }

-- `std::greater` for the bids.
abbrev pub before : Side → Price → Price → Bool
before buy p q = ltb_ℤ q p
before sell p q = ltb_ℤ p q

-- The level that `operator[]` gives, changed.
unfoldable pub at_level : Side → Price → (PriceLevel → PriceLevel) → Levels → Levels
at_level side price f [] = (price, f empty_level) ∷ []
at_level side price f ((p, level) ∷ rest) =
    if p ==ℤ price
    then (p, f level) ∷ rest
    else if before side price p
    then (price, f empty_level) ∷ (p, level) ∷ rest
    else (p, level) ∷ at_level side price f rest

-- A level after a change, erased where it is empty.
abbrev pub keep_level : Price → PriceLevel → Levels → Levels
keep_level p level rest = if is_empty level then rest else (p, level) ∷ rest

-- Whether an order of the side trades at the price: `price <= order.price` for a buy.
abbrev pub crosses : Side → Price → Price → Bool
crosses buy limit p = leb_ℤ p limit
crosses sell limit p = leb_ℤ limit p

-- What is filled, the levels of the other side and the index.
abbrev pub Matched : Type 0
Matched = Quantity × Levels × List (ℕ × (Side × Price))

-- modifyFrontQuantity.
abbrev pub modify_front_quantity : Quantity → Order → List Order → PriceLevel → PriceLevel
modify_front_quantity qty front others l = record l {
  orders = record front { quantity = front.quantity - qty } ∷ others;
}

-- The level behind pop.
abbrev pub popped : Order → List Order → PriceLevel → PriceLevel
popped front others l = record { order_map = erase front.id l.order_map; orders = others }

-- A round of the loop: the break, or the values for the next round.
pub data Round : Type 0 where
  breaks : Matched → Round
  goes_on : Quantity → Quantity → Levels → List (ℕ × (Side × Price)) → Round

abbrev pub add32 : Quantity → Quantity → Quantity
add32 a b = (a + b) % 2 ^ 32

unfoldable pub trade_front :
    Quantity
    → Quantity
    → Price
    → PriceLevel
    → Order
    → List Order
    → Levels
    → List (ℕ × (Side × Price))
    → Round
unfolding erase
trade_front order_quantity filled p level front others rest index =
    if ltb order_quantity front.quantity
    then breaks (
      add32 filled order_quantity,
      (p, modify_front_quantity order_quantity front others level) ∷ rest,
      index,
    )
    else if order_quantity == front.quantity
    then breaks (
      add32 filled order_quantity,
      keep_level p (popped front others level) rest,
      erase front.id index,
    )
    else goes_on (order_quantity - front.quantity) (add32 filled front.quantity)
        (keep_level p (popped front others level) rest) (erase front.id index)

-- The source does not look at a level that has no order.
abbrev pub trade_level :
    Quantity
    → Quantity
    → Price
    → PriceLevel
    → List Order
    → Levels
    → List (ℕ × (Side × Price))
    → Round
trade_level order_quantity filled p level [] rest index = breaks (filled, (p, level) ∷ rest, index)
trade_level order_quantity filled p level (front ∷ others) rest index =
    trade_front order_quantity filled p level front others rest index

unfoldable pub round :
    Side → Price → Quantity → Quantity → Levels → List (ℕ × (Side × Price)) → Round
unfolding trade_front
round side limit order_quantity filled [] index = breaks (filled, [], index)
round side limit order_quantity filled ((p, level) ∷ rest) index =
    if crosses side limit p
    then trade_level order_quantity filled p level level.orders rest index
    else breaks (filled, (p, level) ∷ rest, index)

-- The loop of match. An order is taken out in every round but the last, so one round more than there are
-- orders is enough.
unfoldable pub match_loop :
    ℕ → Side → Price → Quantity → Quantity → Levels → List (ℕ × (Side × Price)) → Matched
unfolding round
match_loop zero side limit order_quantity filled ls index = (filled, ls, index)
match_loop (suc fuel) side limit order_quantity filled ls index =
    elim (round side limit order_quantity filled ls index) [
      | breaks m ↦ m
      | goes_on left filled' ls' index' ↦ match_loop fuel side limit left filled' ls' index'
    ]

abbrev pub count_orders : Levels → ℕ
count_orders [] = 0
count_orders ((p, level) ∷ rest) = length level.orders + count_orders rest

abbrev pub opposite_levels : Side → OrderBook → Levels
opposite_levels buy b = b.asks
opposite_levels sell b = b.bids

-- `match`, with what is filled and what is left of the book.
unfoldable pub match_order : Order → OrderBook → Matched
unfolding match_loop
match_order order b =
    match_loop (suc (count_orders (opposite_levels order.side b))) order.side order.price
      order.quantity 0 (opposite_levels order.side b) b.order_index

abbrev pub after_match : Side → Levels → List (ℕ × (Side × Price)) → OrderBook → OrderBook
after_match buy ls index b = record b { asks = ls; order_index = index }
after_match sell ls index b = record b { bids = ls; order_index = index }

unfoldable pub rest_order : Order → OrderBook → OrderBook
unfolding at_level level_add insert_or_assign
rest_order order b = elim order.side [
  | sell ↦ record b {
    asks = at_level sell order.price (level_add order) b.asks;
    order_index = insert_or_assign order.id (order.side, order.price) b.order_index;
  }
  | buy ↦ record b {
    bids = at_level buy order.price (level_add order) b.bids;
    order_index = insert_or_assign order.id (order.side, order.price) b.order_index;
  }
]

-- `order.quantity - match(order)` in 32 bits.
abbrev pub sub32 : Quantity → Quantity → Quantity
sub32 a b = (a + 2 ^ 32 - b) % 2 ^ 32

unfoldable pub add : Order → OrderBook → OrderBook
unfolding match_order rest_order
add order b =
    let (filled, ls, index) = match_order order b in
    let b' = after_match order.side ls index b in
    if ltb 0 (sub32 order.quantity filled) then rest_order order b' else b'

-- `find(price)`, the cancel in the level, and `erase` of a level that it empties.
unfoldable pub cancel_at : Price → ℕ → Levels → Levels
unfolding level_cancel
cancel_at price id [] = []
cancel_at price id ((p, level) ∷ rest) =
    let rest' = cancel_at price id rest in
    if p ==ℤ price then keep_level p (level_cancel id level).1 rest else (p, level) ∷ rest'

abbrev pub cancel_located : ℕ → Option (Side × Price) → OrderBook → OrderBook
cancel_located id none b = b
cancel_located id (some (sell, price)) b = record b {
  asks = cancel_at price id b.asks;
  order_index = erase id b.order_index;
}
cancel_located id (some (buy, price)) b = record b {
  bids = cancel_at price id b.bids;
  order_index = erase id b.order_index;
}

unfoldable pub cancel : ℕ → OrderBook → OrderBook
unfolding find erase cancel_at
cancel id b = cancel_located id (find id b.order_index) b

abbrev pub best_price : Levels → Option Price
best_price [] = none
best_price ((p, level) ∷ rest) = some p

abbrev pub get_best_ask : OrderBook → Option Price
get_best_ask b = best_price b.asks

abbrev pub get_best_bid : OrderBook → Option Price
get_best_bid b = best_price b.bids

-- Command: its type and what it uses of its order.
pub data Command : Type 0 where
  add_command : Order → Command
  cancel_command : ℕ → Command

-- The switch of the engine's loop.
abbrev pub perform : Command → OrderBook → OrderBook
perform (add_command order) b = add order b
perform (cancel_command id) b = cancel id b
