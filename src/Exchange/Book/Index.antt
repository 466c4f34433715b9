-- ===== src/Exchange/Book/Index.antt =====
-- MatchingBook::SideIndex of mdh/{include,src}/exchange/matching/matching_book.{hpp,cpp}: one
-- side's price levels, in a tick ladder with an occupancy bitmap and a map for what lies outside.
use cpp_projects.Base.{
  ℕ, ◌+◌, ◌*◌, ◌/◌, ◌%◌, ◌^◌, Bool, true, false, ◌&&◌, ◌||◌, not, Option, none, some, List, [], ltb,
  leb, ◌==◌, if◌then◌else◌,
}
use cpp_projects.Base.Int.{ℤ, pos, ◌+ℤ◌, ◌-ℤ◌, ltb_ℤ, leb_ℤ}
use cpp_projects.Base.Word.{u32_max, to_u64}
use cpp_projects.Base.Array.{Array, write, assign}
use cpp_projects.Types.{Price, Side, buy, sell, is_buy}
use cpp_projects.Exchange.Book.Bits.{
  is_set, set_bit, clear_bit, highest_bit, lowest_bit, mask_below, mask_above,
}
use cpp_projects.Exchange.Book.Overflow
use Prim.Native.Nat.{bit_and}

-- `kNil`: end of chain, and empty level.
abbrev pub nil_slot : ℕ
nil_slot = u32_max

pub record LevelSlot : Type 0 where
  pub head : ℕ
  pub tail : ℕ

-- `LevelSlot{}`.
abbrev pub empty_level : LevelSlot
empty_level = record { head = nil_slot; tail = nil_slot }

pub record SideIndex : Type 0 where
  pub side : Side
  pub band_ticks : ℕ
  pub base : Price
  pub anchored : Bool
  pub ladder : Array LevelSlot
  pub occupancy : Array ℕ
  pub mid_summary : Array ℕ
  pub summary : ℕ
  pub overflow : List (ℤ × LevelSlot)

unfoldable pub create : Side → ℕ → SideIndex
create side band_ticks = record {
  side = side;
  band_ticks = band_ticks;
  base = pos 0;
  anchored = false;
  ladder = assign 0 empty_level;
  occupancy = assign 0 0;
  mid_summary = assign 0 0;
  summary = 0;
  overflow = [];
}

abbrev is_nil {ℓ} : {A : Type ℓ} → List A → Bool
is_nil [] = true
is_nil (List.◌∷◌ _ _) = false

unfoldable pub empty : SideIndex → Bool
empty s = (s.summary == 0) && is_nil s.overflow

words_for : ℕ → ℕ
words_for ticks = (ticks + 63) / 64

-- The unsigned cast makes one comparison do both bounds.
unfoldable pub in_band : SideIndex → Price → Bool
in_band s price = s.anchored && ltb (to_u64 (price -ℤ s.base)) s.band_ticks

tick_of : SideIndex → Price → ℕ
tick_of s price = to_u64 (price -ℤ s.base) % 2 ^ 32

price_of : SideIndex → ℕ → Price
price_of s tick = s.base +ℤ pos tick

-- The ladder is allocated once, when the side is first anchored.
allocate : SideIndex → SideIndex
unfolding words_for
allocate s =
    if s.ladder.size == 0
    then record s {
      ladder = assign s.band_ticks empty_level;
      occupancy = assign (words_for s.band_ticks) 0;
      mid_summary = assign (words_for (words_for s.band_ticks)) 0;
    }
    else s

anchor : SideIndex → Price → SideIndex
anchor s price = allocate (record s { base = price -ℤ pos (s.band_ticks / 2); anchored = true })

set_occupied : SideIndex → ℕ → SideIndex
set_occupied s tick =
    let word = tick / 64 in
    record s {
      occupancy = write s.occupancy word (set_bit (s.occupancy.at word) (tick % 64));
      mid_summary =
          write s.mid_summary (word / 64) (set_bit (s.mid_summary.at (word / 64)) (word % 64));
      summary = set_bit s.summary (word / 64);
    }

-- What `clear_occupied` does once a bottom word has emptied.
clear_mid : SideIndex → ℕ → SideIndex
clear_mid s word =
    let mid = word / 64 in
    let left = clear_bit (s.mid_summary.at mid) (word % 64) in
    record s {
      mid_summary = write s.mid_summary mid left;
      summary = if left == 0 then clear_bit s.summary mid else s.summary;
    }

clear_occupied : SideIndex → ℕ → SideIndex
unfolding clear_mid
clear_occupied s tick =
    let word = tick / 64 in
    let left = clear_bit (s.occupancy.at word) (tick % 64) in
    let s' = record s { occupancy = write s.occupancy word left } in
    if left == 0 then clear_mid s' word else s'

is_occupied : SideIndex → ℕ → Bool
is_occupied s tick = is_set (s.occupancy.at (tick / 64)) (tick % 64)

-- `(hi << 6) | lo`, for lo below 64.
abbrev join : ℕ → ℕ → ℕ
join hi lo = hi * 64 + lo

-- The descent from a middle word, and from a bottom word, to its highest or lowest tick.
highest_in_word : SideIndex → ℕ → ℕ
highest_in_word s word = join word (highest_bit (s.occupancy.at word))

highest_in_mid : SideIndex → ℕ → ℕ
unfolding highest_in_word
highest_in_mid s mid = highest_in_word s (join mid (highest_bit (s.mid_summary.at mid)))

lowest_in_word : SideIndex → ℕ → ℕ
lowest_in_word s word = join word (lowest_bit (s.occupancy.at word))

lowest_in_mid : SideIndex → ℕ → ℕ
unfolding lowest_in_word
lowest_in_mid s mid = lowest_in_word s (join mid (lowest_bit (s.mid_summary.at mid)))

highest_occupied : SideIndex → ℕ
unfolding highest_in_mid
highest_occupied s =
    if s.summary == 0 then s.band_ticks else highest_in_mid s (highest_bit s.summary)

lowest_occupied : SideIndex → ℕ
unfolding lowest_in_mid
lowest_occupied s = if s.summary == 0 then s.band_ticks else lowest_in_mid s (lowest_bit s.summary)

-- Within the starting word first, then the next non-empty word by the two summaries.
highest_occupied_below : SideIndex → ℕ → ℕ
unfolding highest_in_word highest_in_mid
highest_occupied_below s tick =
    let word = tick / 64 in
    let mid = word / 64 in
    let in_word = bit_and (s.occupancy.at word) (mask_below (tick % 64)) in
    let in_mid = bit_and (s.mid_summary.at mid) (mask_below (word % 64)) in
    let in_summary = bit_and s.summary (mask_below mid) in
    if (s.summary == 0) || (tick == 0)
    then s.band_ticks
    else if not (in_word == 0)
    then join word (highest_bit in_word)
    else if not (in_mid == 0)
    then highest_in_word s (join mid (highest_bit in_mid))
    else if in_summary == 0
    then s.band_ticks
    else highest_in_mid s (highest_bit in_summary)

lowest_occupied_above : SideIndex → ℕ → ℕ
unfolding lowest_in_word lowest_in_mid
lowest_occupied_above s tick =
    let word = tick / 64 in
    let mid = word / 64 in
    let in_word = bit_and (s.occupancy.at word) (mask_above (tick % 64)) in
    let in_mid = bit_and (s.mid_summary.at mid) (mask_above (word % 64)) in
    let in_summary = bit_and s.summary (mask_above mid) in
    if (s.summary == 0) || leb s.band_ticks ((tick + 1) % 2 ^ 32)
    then s.band_ticks
    else if not (in_word == 0)
    then join word (lowest_bit in_word)
    else if not (in_mid == 0)
    then lowest_in_word s (join mid (lowest_bit in_mid))
    else if in_summary == 0
    then s.band_ticks
    else lowest_in_mid s (lowest_bit in_summary)

-- A reference to a level is its price: `level_at` reads through it, `put_level` writes.
unfoldable pub level_at : SideIndex → Price → LevelSlot
unfolding in_band tick_of
level_at s price =
    if in_band s price
    then s.ladder.at (tick_of s price)
    else elim (Overflow.find price s.overflow) [ none ↦ empty_level | some level ↦ level ]

unfoldable pub put_level : SideIndex → Price → LevelSlot → SideIndex
unfolding in_band tick_of
put_level s price level =
    if in_band s price
    then record s { ladder = write s.ladder (tick_of s price) level }
    else record s { overflow = Overflow.put price level s.overflow }

-- The part of `level_for` that runs once the side is anchored.
open_level : SideIndex → Price → SideIndex
unfolding in_band tick_of is_occupied set_occupied
open_level s price =
    let tick = tick_of s price in
    let opened = set_occupied s tick in
    if in_band s price
    then (if is_occupied s tick
        then s
        else record opened { ladder = write opened.ladder tick empty_level })
    else elim (Overflow.find price s.overflow) [
      | none ↦ record s { overflow = Overflow.put price empty_level s.overflow }
      | some _ ↦ s
    ]

-- Creates the level if this price has none; an emptied side is anchored anew.
unfoldable pub level_for : SideIndex → Price → SideIndex
unfolding empty anchor allocate open_level
level_for s price =
    if not (s.band_ticks == 0) && (not s.anchored || empty s)
    then open_level (anchor s price) price
    else open_level s price

unfoldable pub find_level : SideIndex → Price → Option LevelSlot
unfolding in_band tick_of is_occupied
find_level s price =
    if in_band s price
    then (if is_occupied s (tick_of s price) then some (s.ladder.at (tick_of s price)) else none)
    else Overflow.find price s.overflow

unfoldable pub erase_level : SideIndex → Price → SideIndex
unfolding in_band tick_of clear_occupied
erase_level s price =
    if in_band s price
    then clear_occupied s (tick_of s price)
    else record s { overflow = Overflow.erase price s.overflow }

-- The best key of the map: the last for bids, the first for asks.
best_spilled : SideIndex → Option Price
best_spilled s =
    if is_buy s.side then Overflow.last_key s.overflow else Overflow.first_key s.overflow

-- Which of a laddered and a spilled price comes first.
better : Side → Price → Price → Price
better buy laddered spilled = if ltb_ℤ spilled laddered then laddered else spilled
better sell laddered spilled = if ltb_ℤ laddered spilled then laddered else spilled

merge : Side → Option Price → Option Price → Option Price
unfolding better
merge side none spilled = spilled
merge side (some laddered) none = some laddered
merge side (some laddered) (some spilled) = some (better side laddered spilled)

best_laddered : SideIndex → Option Price
unfolding highest_occupied lowest_occupied price_of
best_laddered s =
    let tick = if is_buy s.side then highest_occupied s else lowest_occupied s in
    if tick == s.band_ticks then none else some (price_of s tick)

-- `best_price` under its precondition `!empty()`; `none` where that fails.
unfoldable pub best_price : SideIndex → Option Price
unfolding best_laddered best_spilled merge
best_price s = merge s.side (best_laddered s) (best_spilled s)

-- The next occupied tick past `price`, which may lie outside the band.
next_tick : SideIndex → Price → ℕ
unfolding highest_occupied lowest_occupied highest_occupied_below lowest_occupied_above tick_of
next_tick s price =
    let first = s.base in
    let last = s.base +ℤ pos s.band_ticks -ℤ pos 1 in
    if is_buy s.side
    then (if ltb_ℤ last price
        then highest_occupied s
        else if leb_ℤ price first
        then s.band_ticks
        else highest_occupied_below s (tick_of s price))
    else (if ltb_ℤ price first
        then lowest_occupied s
        else if leb_ℤ last price
        then s.band_ticks
        else lowest_occupied_above s (tick_of s price))

next_laddered : SideIndex → Price → Option Price
unfolding next_tick price_of
next_laddered s price =
    let tick = next_tick s price in
    if s.anchored && not (s.summary == 0)
    then (if tick == s.band_ticks then none else some (price_of s tick))
    else none

next_spilled : SideIndex → Price → Option Price
next_spilled s price =
    if is_buy s.side
    then Overflow.last_below price s.overflow
    else Overflow.first_above price s.overflow

unfoldable pub next_price : SideIndex → Price → Option Price
unfolding next_laddered next_spilled merge
next_price s price = merge s.side (next_laddered s price) (next_spilled s price)
