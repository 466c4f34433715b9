-- ===== src/Exchange/Book.antt =====
-- MatchingBook of mdh/{include,src}/exchange/matching/matching_book.{hpp,cpp}: the order book of
-- one instrument. Orders live in a slab and are chained by index; a handle is a slot number.
pub mod Bits
pub mod Overflow
pub mod Index
pub mod Orders
mod Tests
use cpp_projects.Base.{
  ℕ, zero, suc, ◌+◌, ◌-◌, ◌*◌, ◌/◌, ◌%◌, ◌^◌, Bool, true, false, Option, none, some, List, [], ◌∷◌,
  ◌++◌, ltb, leb, ◌==◌, if◌then◌else◌, min, length,
}
use cpp_projects.Base.Int.{ltb_ℤ, pos}
use cpp_projects.Base.Word.{add64}
use cpp_projects.Base.Array.{Array, write, push_back, assign}
use cpp_projects.Types.{Price, Quantity, Side, buy, sell, is_buy}
use cpp_projects.Exchange.Core.{BookOrder, TimeInForce, gtc}
use Index
use Index.{SideIndex, LevelSlot, empty_level, nil_slot}

abbrev pub max_band_ticks : ℕ
max_band_ticks = 8192

abbrev pub min_band_ticks : ℕ
min_band_ticks = 1024

pub record SlabOrder : Type 0 where
  pub order : BookOrder
  pub next : ℕ
  pub prev : ℕ

pub record MatchingBook : Type 0 where
  pub slab : Array SlabOrder
  pub free_head : ℕ
  pub bids : SideIndex
  pub asks : SideIndex

-- What stands in the slab's unused memory.
abbrev pub vacant : SlabOrder
vacant = record {
  order = record {
    exchange_order_id = 0;
    client_order_id = 0;
    account_id = 0;
    price = pos 0;
    remaining_quantity = 1;
    side = buy;
    time_in_force = gtc;
  };
  next = nil_slot;
  prev = nil_slot;
}

-- std::bit_floor, for the powers of two from 2 ^ 13 down.
bit_floor : ℕ → ℕ → ℕ
bit_floor zero n = 1
bit_floor (suc k) n = let rest = bit_floor k n in if leb (2 ^ suc k) n then 2 ^ suc k else rest

unfoldable pub band_for : ℕ → ℕ → ℕ
unfolding bit_floor
band_for instrument_count byte_budget =
    let ticks = byte_budget / instrument_count / (2 * 8) in
    if instrument_count == 0
    then max_band_ticks
    else if ltb ticks min_band_ticks
    then 0
    else bit_floor 13 (min ticks max_band_ticks)

-- The constructor; what it reserves does not show.
unfoldable pub create : ℕ → MatchingBook
create band_ticks = record {
  slab = assign 0 vacant;
  free_head = nil_slot;
  bids = Index.create buy band_ticks;
  asks = Index.create sell band_ticks;
}

unfoldable pub side_of : MatchingBook → Side → SideIndex
side_of b buy = b.bids
side_of b sell = b.asks

unfoldable pub with_side : MatchingBook → Side → SideIndex → MatchingBook
with_side b buy s = record b { bids = s }
with_side b sell s = record b { asks = s }

-- Takes a slot for `order`, a freed one if there is any.
acquire_slot : MatchingBook → BookOrder → ℕ × MatchingBook
acquire_slot b order =
    let slot = b.free_head in
    let freed = b.slab.at slot in
    if slot == nil_slot
    then (
      b.slab.size,
      record b {
        slab = push_back b.slab (record { order = order; next = nil_slot; prev = nil_slot });
      },
    )
    else (
      slot,
      record b {
        slab = write b.slab slot (record freed { order = order });
        free_head = freed.next;
      },
    )

release_slot : MatchingBook → ℕ → MatchingBook
release_slot b slot =
    let entry = b.slab.at slot in
    record b { slab = write b.slab slot (record entry { next = b.free_head }); free_head = slot }

set_next : Array SlabOrder → ℕ → ℕ → Array SlabOrder
set_next slab slot next = let entry = slab.at slot in write slab slot (record entry { next = next })

set_prev : Array SlabOrder → ℕ → ℕ → Array SlabOrder
set_prev slab slot prev = let entry = slab.at slot in write slab slot (record entry { prev = prev })

-- The slab and the level after `slot` has joined the end of the level's queue.
link_back : Array SlabOrder → LevelSlot → ℕ → Array SlabOrder × LevelSlot
unfolding set_next set_prev
link_back slab level slot =
    let linked = set_prev (set_next slab slot nil_slot) slot level.tail in
    if level.tail == nil_slot
    then (linked, record { head = slot; tail = slot })
    else (set_next linked level.tail slot, record { head = level.head; tail = slot })

-- The slab and the level after `slot` has left the level's queue.
unlink : Array SlabOrder → LevelSlot → ℕ → Array SlabOrder × LevelSlot
unfolding set_next set_prev
unlink slab level slot =
    let next = (slab.at slot).next in
    let prev = (slab.at slot).prev in
    let slab' = if prev == nil_slot then slab else set_next slab prev next in
    let slab'' = if next == nil_slot then slab' else set_prev slab' next prev in
    (
      slab'',
      record {
        head = if prev == nil_slot then next else level.head;
        tail = if next == nil_slot then prev else level.tail;
      },
    )

-- `link_back(side_of(order.side).level_for(order.price), slot)`.
file_order : MatchingBook → Side → Price → ℕ → MatchingBook
unfolding link_back side_of with_side
file_order b side price slot =
    let index = Index.level_for (side_of b side) price in
    let (slab, level) = link_back b.slab (Index.level_at index price) slot in
    with_side (record b { slab = slab }) side (Index.put_level index price level)

unfoldable pub add : MatchingBook → BookOrder → ℕ × MatchingBook
unfolding acquire_slot file_order
add b order =
    let (slot, b') = acquire_slot b order in (slot, file_order b' order.side order.price slot)

-- Takes `slot` out of its level and drops a level that it leaves empty.
unfile : MatchingBook → Side → Price → LevelSlot → ℕ → MatchingBook
unfolding unlink side_of with_side
unfile b side price level slot =
    let index = side_of b side in
    let (slab, level') = unlink b.slab level slot in
    with_side (record b { slab = slab }) side
      (if level'.head == nil_slot
        then Index.erase_level index price
        else Index.put_level index price level')

abbrev deref : Option LevelSlot → LevelSlot
deref none = empty_level
deref (some level) = level

-- `*find_level(price)`: a null pointer, which no resting order has, reads as an empty level.
unfoldable pub remove_at : MatchingBook → ℕ → BookOrder × MatchingBook
unfolding unfile release_slot side_of
remove_at b slot =
    let removed = (b.slab.at slot).order in
    let level = deref (Index.find_level (side_of b removed.side) removed.price) in
    (removed, release_slot (unfile b removed.side removed.price level slot) slot)

set_order : MatchingBook → ℕ → BookOrder → MatchingBook
set_order b slot order =
    let entry = b.slab.at slot in
    record b { slab = write b.slab slot (record entry { order = order }) }

unfoldable pub reduce_at : MatchingBook → ℕ → Quantity → MatchingBook
unfolding set_order
reduce_at b slot new_remaining_quantity =
    let order = (b.slab.at slot).order in
    set_order b slot (record order { remaining_quantity = new_remaining_quantity })

unfoldable pub set_client_order_id_at : MatchingBook → ℕ → ℕ → MatchingBook
unfolding set_order
set_client_order_id_at b slot new_client_order_id =
    let order = (b.slab.at slot).order in
    set_order b slot (record order { client_order_id = new_client_order_id })

unfoldable pub order_at : MatchingBook → ℕ → BookOrder
order_at b slot = (b.slab.at slot).order

-- The slot at the head of the queue at the best price of a side; `none` on an empty side.
front_slot : MatchingBook → Side → Option ℕ
unfolding side_of
front_slot b side =
    let index = side_of b side in
    if Index.empty index then none else elim (Index.best_price index) [
      | none ↦ none
      | some price ↦ some (Index.level_at index price).head
    ]

unfoldable pub front_of_best : MatchingBook → Side → Option BookOrder
unfolding front_slot
front_of_best b side = elim (front_slot b side) [
  | none ↦ none
  | some slot ↦ some (b.slab.at slot).order
]

unfoldable pub reduce_front : MatchingBook → Side → Quantity → MatchingBook
unfolding front_slot reduce_at
reduce_front b side new_remaining_quantity = elim (front_slot b side) [
  | none ↦ b
  | some slot ↦ reduce_at b slot new_remaining_quantity
]

unfoldable pub remove_front : MatchingBook → Side → MatchingBook
unfolding unfile release_slot side_of
remove_front b side = elim (Index.best_price (side_of b side)) [
  | none ↦ b
  | some price ↦
      let level = Index.level_at (side_of b side) price in
      release_slot (unfile b side price level level.head) level.head
]

-- One level's queue from `slot` on, added up until `quantity` is covered. The flag says that it
-- was: the caller returns at once.
sum_queue : ℕ → Array SlabOrder → ℕ → Quantity → Quantity → Bool × Quantity
sum_queue zero slab slot quantity total = (false, total)
sum_queue (suc fuel) slab slot quantity total =
    let total' = add64 total (slab.at slot).order.remaining_quantity in
    let rest = sum_queue fuel slab (slab.at slot).next quantity total' in
    if slot == nil_slot
    then (false, total)
    else if leb quantity total'
    then (true, total')
    else rest

-- `bids ? price > level_price : price < level_price`.
worse_than : Side → Price → Price → Bool
worse_than buy price level_price = ltb_ℤ level_price price
worse_than sell price level_price = ltb_ℤ price level_price

sum_levels : ℕ → MatchingBook → Side → Price → Quantity → Option Price → Quantity → Quantity
sum_levels zero b side price quantity level_price total = total
sum_levels (suc fuel) b side price quantity none total = total
sum_levels (suc fuel) b side price quantity (some level_price) total =
    let index = side_of b side in
    let head = (Index.level_at index level_price).head in
    let (covered, total') = sum_queue (b.slab.size + 1) b.slab head quantity total in
    let rest = sum_levels fuel b side price quantity (Index.next_price index level_price) total' in
    if worse_than side price level_price then total else if covered then total' else rest

-- The walk takes one round for each level, and a level holds an order of the slab.
unfoldable pub crossable_quantity : MatchingBook → Side → Price → Quantity → Quantity
unfolding side_of sum_levels sum_queue worse_than
crossable_quantity b side price quantity =
    let index = side_of b side in
    if Index.empty index
    then 0
    else sum_levels (b.slab.size + 1) b side price quantity (Index.best_price index) 0

queue_from : ℕ → Array SlabOrder → ℕ → List BookOrder
queue_from zero slab slot = []
queue_from (suc fuel) slab slot =
    let rest = queue_from fuel slab (slab.at slot).next in
    if slot == nil_slot then [] else (slab.at slot).order ∷ rest

levels_from : ℕ → MatchingBook → Side → Option Price → List BookOrder
levels_from zero b side level_price = []
levels_from (suc fuel) b side none = []
levels_from (suc fuel) b side (some level_price) =
    let index = side_of b side in
    let queue = queue_from (b.slab.size + 1) b.slab (Index.level_at index level_price).head in
    queue ++ levels_from fuel b side (Index.next_price index level_price)

-- Every resting order of a side, by price priority and then by place in the queue.
unfoldable pub all_of : MatchingBook → Side → List BookOrder
unfolding side_of levels_from queue_from
all_of b side =
    let index = side_of b side in
    if Index.empty index then [] else levels_from (b.slab.size + 1) b side (Index.best_price index)

unfoldable pub out_of_band_levels : MatchingBook → ℕ
out_of_band_levels b = length b.bids.overflow + length b.asks.overflow
