-- ===== src/Exchange/Engine/Match.antt =====
-- MatchingEngine::match_and_rest, rest_remainder_if_applicable and crossable_quantity of
-- mdh/src/exchange/matching/matching_engine.cpp.
use cpp_projects.Base.{
  ℕ, zero, suc, ◌-◌, Bool, Option, none, some, ◌==◌, if◌then◌else◌, min, ◌||◌, not,
}
use cpp_projects.Base.Int.{leb_ℤ}
use cpp_projects.Base.Map.{pair_key, insert_or_assign, erase}
use cpp_projects.Types.{Price, Quantity, Side, buy, sell, is_buy, opposite}
use cpp_projects.Exchange.Core.{ExchangeRestingOrder, BookOrder, is_gtc}
use cpp_projects.Exchange.Events.{
  TradeCounterparty, trade_executed, book_order_added, book_order_reduced, book_order_removed,
}
use cpp_projects.Exchange.Book
use cpp_projects.Exchange.Book.{MatchingBook}
use cpp_projects.Exchange.Engine.State.{
  MatchingEngine, OrderRef, LiveKey, Run, sink, book_for, put_book,
}

unfoldable pub crossable_quantity : MatchingEngine → ℕ → Side → Price → Quantity → Quantity
crossable_quantity e instrument_id incoming_side price quantity =
    Book.crossable_quantity (book_for e instrument_id) (opposite incoming_side) price quantity

-- `incoming.side == Buy ? incoming.price >= contra.price : incoming.price <= contra.price`.
unfoldable pub crosses : Side → Price → Price → Bool
crosses buy price contra_price = leb_ℤ contra_price price
crosses sell price contra_price = leb_ℤ price contra_price

-- The resting order that the next round trades with: `none` is each of the loop's three exits.
unfoldable pub next_contra : Run → ExchangeRestingOrder → Option BookOrder
next_contra r incoming =
    if incoming.remaining_quantity == 0
    then none
    else elim (Book.front_of_best (book_for r.engine incoming.instrument_id)
        (opposite incoming.side)) [
          | none ↦ none
          | some contra ↦
              if crosses incoming.side incoming.price contra.price then some contra else none
        ]

unfoldable pub traded : ExchangeRestingOrder → BookOrder → Quantity
traded incoming contra = min incoming.remaining_quantity contra.remaining_quantity

unfoldable pub reduce_incoming : ExchangeRestingOrder → BookOrder → ExchangeRestingOrder
unfolding traded
reduce_incoming incoming contra =
    let remaining = incoming.remaining_quantity - traded incoming contra in
    record incoming { remaining_quantity = remaining }

abbrev pub counterparty : ℕ → ℕ → ℕ → Quantity → TradeCounterparty
counterparty account client exchange remaining = record {
  account_id = account;
  client_order_id = client;
  exchange_order_id = exchange;
  remaining_quantity = remaining;
}

-- The trade goes at the resting order's price.
unfoldable pub announce_trade : ℕ → Run → ExchangeRestingOrder → BookOrder → Run
unfolding traded reduce_incoming
announce_trade command_sequence r incoming contra = sink r λ sequence. trade_executed (record {
  event_sequence = sequence;
  command_sequence = command_sequence;
  instrument_id = incoming.instrument_id;
  price = contra.price;
  quantity = traded incoming contra;
  aggressor_side = incoming.side;
  buyer = if is_buy incoming.side then aggressor else resting;
  seller = if is_buy incoming.side then resting else aggressor;
})
  where
    aggressor : TradeCounterparty
    aggressor =
        counterparty incoming.account_id incoming.client_order_id incoming.exchange_order_id
          (reduce_incoming incoming contra).remaining_quantity

    resting : TradeCounterparty
    resting =
        counterparty contra.account_id contra.client_order_id contra.exchange_order_id
          (contra.remaining_quantity - traded incoming contra)

-- The resting order is filled: it leaves the book and the directory.
unfoldable pub consume_contra : Run → ExchangeRestingOrder → BookOrder → Run
consume_contra r incoming contra =
    let e = r.engine in
    let book = Book.remove_front (book_for e incoming.instrument_id) (opposite incoming.side) in
    let e' = put_book e incoming.instrument_id book in
    let key : LiveKey = (contra.account_id, contra.client_order_id) in
    sink (record r { engine = record e' { orders = erase key e'.orders } })
      λ sequence. book_order_removed (record {
        event_sequence = sequence;
        instrument_id = incoming.instrument_id;
        exchange_order_id = contra.exchange_order_id;
        side = contra.side;
        price = contra.price;
      })

unfoldable pub reduce_contra : Run → ExchangeRestingOrder → BookOrder → Quantity → Run
reduce_contra r incoming contra remaining =
    let e = r.engine in
    let book =
      Book.reduce_front (book_for e incoming.instrument_id) (opposite incoming.side) remaining in
    sink (record r { engine = put_book e incoming.instrument_id book })
      λ sequence. book_order_reduced (record {
        event_sequence = sequence;
        instrument_id = incoming.instrument_id;
        exchange_order_id = contra.exchange_order_id;
        side = contra.side;
        price = contra.price;
        new_remaining_quantity = remaining;
      })

-- One round of the loop, after its tests.
unfoldable pub fill : ℕ → Run → ExchangeRestingOrder → BookOrder → Run
unfolding announce_trade consume_contra reduce_contra
fill command_sequence r incoming contra =
    let remaining = contra.remaining_quantity - traded incoming contra in
    let r' = announce_trade command_sequence r incoming contra in
    if remaining == 0
    then consume_contra r' incoming contra
    else reduce_contra r' incoming contra remaining

unfoldable pub match_loop : ℕ → ℕ → Run → ExchangeRestingOrder → Run × ExchangeRestingOrder
unfolding next_contra fill
match_loop zero command_sequence r incoming = (r, incoming)
match_loop (suc fuel) command_sequence r incoming = elim (next_contra r incoming) [
  | none ↦ (r, incoming)
  | some contra ↦
      match_loop fuel command_sequence (fill command_sequence r incoming contra)
        (reduce_incoming incoming contra)
]

-- A round trades at least one unit, so it runs at most `remaining_quantity` times.
unfoldable pub match_and_rest : ℕ → Run → ExchangeRestingOrder → Run × ExchangeRestingOrder
unfolding match_loop
match_and_rest command_sequence r incoming =
    match_loop incoming.remaining_quantity command_sequence r incoming

abbrev pub resting_form : ExchangeRestingOrder → BookOrder
resting_form order = record {
  exchange_order_id = order.exchange_order_id;
  client_order_id = order.client_order_id;
  account_id = order.account_id;
  price = order.price;
  remaining_quantity = order.remaining_quantity;
  side = order.side;
  time_in_force = order.time_in_force;
}

unfoldable pub rest_order : Run → ExchangeRestingOrder → Run
rest_order r order =
    let e = r.engine in
    let (handle, book) = Book.add (book_for e order.instrument_id) (resting_form order) in
    let e' = put_book e order.instrument_id book in
    let ref : OrderRef = record {
      original_quantity = order.original_quantity;
      order_sequence = order.order_sequence;
      handle = handle;
      instrument_id = order.instrument_id;
    } in
    let key : LiveKey = (order.account_id, order.client_order_id) in
    sink (record r { engine = record e' { orders = insert_or_assign key ref e'.orders } })
      λ sequence. book_order_added (record {
        event_sequence = sequence;
        instrument_id = order.instrument_id;
        exchange_order_id = order.exchange_order_id;
        side = order.side;
        price = order.price;
        quantity = order.remaining_quantity;
      })

unfoldable pub rest_remainder_if_applicable : Run → ExchangeRestingOrder → Run
unfolding rest_order
rest_remainder_if_applicable r order =
    if not (is_gtc order.time_in_force) || (order.remaining_quantity == 0)
    then r
    else rest_order r order
