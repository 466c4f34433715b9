-- ===== src/Exchange/Engine/State.antt =====
-- The state of MatchingEngine, its instrument registry, its event output and its snapshot. What is
-- reserved or pooled does not show, so expected_orders_per_book_ and the pool are left out.
use cpp_projects.Base.{
  ℕ, ◌+◌, ◌*◌, ◌^◌, ◌-◌, Bool, true, false, ◌&&◌, ◌||◌, not, Option, none, some, List, [], ◌∷◌, ltb,
  leb, ◌==◌, if◌then◌else◌, min, max, length,
}
use cpp_projects.Base.Word.{u32_max, inc64}
use cpp_projects.Base.Map.{ℕ_key, pair_key, find}
use cpp_projects.Base.Array.{Array, write, push_back, assign}
use cpp_projects.Types.{Side, buy, sell}
use cpp_projects.Exchange.Core.{
  RejectReason, NewOrderCommand, ReplaceOrderCommand, ExchangeRestingOrder, BookOrder,
}
use cpp_projects.Exchange.Events.{ExchangeEvent, order_rejected}
use cpp_projects.Exchange.Book
use cpp_projects.Exchange.Book.{MatchingBook, max_band_ticks}

-- `kNoSlot`.
abbrev pub no_slot : ℕ
no_slot = u32_max

abbrev pub max_instrument_id : ℕ
max_instrument_id = 2 ^ 22 - 1

abbrev pub ladder_byte_budget : ℕ
ladder_byte_budget = 8 * 2 ^ 20

pub record OrderRef : Type 0 where
  pub original_quantity : ℕ
  pub order_sequence : ℕ
  pub handle : ℕ
  pub instrument_id : ℕ

-- `LiveKey`: account id and client order id.
abbrev pub LiveKey : Type 0
LiveKey = ℕ × ℕ

pub record MatchingEngine : Type 0 where
  pub slot_of_id : Array ℕ
  pub books : Array MatchingBook
  pub band_ticks : ℕ
  pub by_id : List (ℕ × ℕ)
  pub orders : List (LiveKey × OrderRef)
  pub next_exchange_order_id : ℕ
  pub next_event_sequence : ℕ
  pub next_priority : ℕ

unfoldable pub knows_instrument : MatchingEngine → ℕ → Bool
knows_instrument e instrument_id =
    ltb instrument_id e.slot_of_id.size && not (e.slot_of_id.at instrument_id == no_slot)

unfoldable pub book_for : MatchingEngine → ℕ → MatchingBook
book_for e instrument_id = e.books.at (e.slot_of_id.at instrument_id)

-- A write through the reference that `book_for` returns.
abbrev pub put_book : MatchingEngine → ℕ → MatchingBook → MatchingEngine
put_book e instrument_id book = record e {
  books = write e.books (e.slot_of_id.at instrument_id) book;
}

-- `v.resize(n, no_slot)`, for n above the size.
grow_ids : Array ℕ → ℕ → Array ℕ
grow_ids v n = record { size = n; at = λ i. if ltb i v.size then v.at i else no_slot }

-- The insertion of `by_id_` at its lower bound.
insert_sorted : ℕ × ℕ → List (ℕ × ℕ) → List (ℕ × ℕ)
insert_sorted entry [] = entry ∷ []
insert_sorted (id, slot) ((i, s) ∷ rest) =
    if ltb i id then (i, s) ∷ insert_sorted (id, slot) rest else (id, slot) ∷ (i, s) ∷ rest

unfoldable pub register_instrument : MatchingEngine → ℕ → Bool × MatchingEngine
unfolding knows_instrument grow_ids insert_sorted
register_instrument e instrument_id =
    let ids =
      if leb e.slot_of_id.size instrument_id
      then grow_ids e.slot_of_id (instrument_id + 1)
      else e.slot_of_id in
    let slot = e.books.size in
    let band = min e.band_ticks (Book.band_for (slot + 1) ladder_byte_budget) in
    if ltb max_instrument_id instrument_id || knows_instrument e instrument_id
    then (false, e)
    else (
      true,
      record e {
        slot_of_id = write ids instrument_id slot;
        books = push_back e.books (Book.create band);
        band_ticks = band;
        by_id = insert_sorted (instrument_id, slot) e.by_id;
      },
    )

-- The widest id of the universe that may be registered.
widest : List ℕ → ℕ
widest [] = 0
widest (i ∷ universe) = if leb i max_instrument_id then max i (widest universe) else widest universe

unfoldable pub register_all : MatchingEngine → List ℕ → MatchingEngine
register_all e [] = e
register_all e (i ∷ universe) = register_all (register_instrument e i).1 universe

-- An engine with `ids` entries in its id table and no book yet.
unfoldable pub blank : ℕ → ℕ → MatchingEngine
blank ids band_ticks = record {
  slot_of_id = assign ids no_slot;
  books = assign 0 (Book.create 0);
  band_ticks = band_ticks;
  by_id = [];
  orders = [];
  next_exchange_order_id = 1;
  next_event_sequence = 1;
  next_priority = 1;
}

-- The constructor over its universe.
unfoldable pub create : List ℕ → MatchingEngine
unfolding widest register_all register_instrument blank
create [] = blank 0 max_band_ticks
create (i ∷ universe) =
    register_all
      (blank (widest (i ∷ universe) + 1) (Book.band_for (length (i ∷ universe)) ladder_byte_budget))
      (i ∷ universe)

-- The engine while it handles a command, with what it has emitted, the newest event first.
pub record Run : Type 0 where
  pub engine : MatchingEngine
  pub emitted : List ExchangeEvent

-- `sink(Event{.event_sequence = next_event_sequence_++, …})`.
abbrev pub sink : Run → (ℕ → ExchangeEvent) → Run
sink r event =
    let e = r.engine in
    record {
      engine = record e { next_event_sequence = inc64 e.next_event_sequence };
      emitted = event e.next_event_sequence ∷ r.emitted;
    }

unfoldable pub reject_new_order : NewOrderCommand → RejectReason → Run → Run
reject_new_order cmd reason r = sink r λ sequence. order_rejected (record {
  event_sequence = sequence;
  command_sequence = cmd.command_sequence;
  account_id = cmd.account_id;
  client_order_id = cmd.client_order_id;
  instrument_id = cmd.instrument_id;
  reason = reason;
})

-- A replace is reported under the original client order id.
unfoldable pub reject_replace_order : ReplaceOrderCommand → RejectReason → Run → Run
reject_replace_order cmd reason r = sink r λ sequence. order_rejected (record {
  event_sequence = sequence;
  command_sequence = cmd.command_sequence;
  account_id = cmd.account_id;
  client_order_id = cmd.original_client_order_id;
  instrument_id = cmd.instrument_id;
  reason = reason;
})

-- `orders_.at(key)` throws on a missing key: `none`.
unfoldable pub compose : MatchingEngine → ℕ → BookOrder → Option ExchangeRestingOrder
compose e instrument_id order = elim (find (order.account_id, order.client_order_id) e.orders) [
  | none ↦ none
  | some ref ↦ some (record {
    exchange_order_id = order.exchange_order_id;
    client_order_id = order.client_order_id;
    account_id = order.account_id;
    price = order.price;
    original_quantity = ref.original_quantity;
    remaining_quantity = order.remaining_quantity;
    order_sequence = ref.order_sequence;
    instrument_id = instrument_id;
    side = order.side;
    time_in_force = order.time_in_force;
  })
]

-- A snapshot of one instrument (mdh/include/exchange/matching/state_snapshot.hpp).
pub record InstrumentBookSnapshot : Type 0 where
  pub instrument_id : ℕ
  pub bids : List ExchangeRestingOrder
  pub asks : List ExchangeRestingOrder

compose_all : MatchingEngine → ℕ → List BookOrder → Option (List ExchangeRestingOrder)
unfolding compose
compose_all e instrument_id [] = some []
compose_all e instrument_id (order ∷ rest) =
    let later = compose_all e instrument_id rest in
    elim (compose e instrument_id order) [
      | none ↦ none
      | some composed ↦ elim later [ none ↦ none | some orders ↦ some (composed ∷ orders) ]
    ]

-- An instrument with nothing resting is left out.
add_instrument :
    ℕ
    → List ExchangeRestingOrder
    → List ExchangeRestingOrder
    → List InstrumentBookSnapshot
    → List InstrumentBookSnapshot
add_instrument instrument_id [] [] later = later
add_instrument instrument_id bids asks later =
    record { instrument_id = instrument_id; bids = bids; asks = asks } ∷ later

snapshot_from : MatchingEngine → List (ℕ × ℕ) → Option (List InstrumentBookSnapshot)
unfolding compose_all add_instrument
snapshot_from e [] = some []
snapshot_from e ((instrument_id, slot) ∷ rest) =
    let later = snapshot_from e rest in
    let all = λ (side : Side). compose_all e instrument_id (Book.all_of (e.books.at slot) side) in
    elim (all buy) [
      | none ↦ none
      | some bids ↦ elim (all sell) [
        | none ↦ none
        | some asks ↦ elim later [
          | none ↦ none
          | some books ↦ some (add_instrument instrument_id bids asks books)
        ]
      ]
    ]

unfoldable pub snapshot : MatchingEngine → Option (List InstrumentBookSnapshot)
unfolding snapshot_from
snapshot e = snapshot_from e e.by_id
