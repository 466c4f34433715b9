-- ===== src/Exchange/Engine/Process.antt =====
-- MatchingEngine::process and its three command handlers, of
-- mdh/src/exchange/matching/matching_engine.cpp.
use cpp_projects.Base.{
  ℕ, Bool, true, false, Option, none, some, [], ltb, leb, ◌==◌, ◌&&◌, ◌||◌, not, if◌then◌else◌,
}
use cpp_projects.Base.Int.{pos, leb_ℤ, ◌==ℤ◌}
use cpp_projects.Base.Word.{inc64}
use cpp_projects.Base.Map.{pair_key, find, insert_or_assign, erase}
use cpp_projects.Types.{Side}
use cpp_projects.Exchange.Core.{
  RejectReason, invalid_price, invalid_quantity, duplicate_order_id, unknown_order_id,
  invalid_instrument, insufficient_liquidity, invalid_replacement, NewOrderCommand,
  CancelOrderCommand, ReplaceOrderCommand, ExchangeCommand, new_order, cancel_order, replace_order,
  ExchangeRestingOrder, BookOrder, is_fok, TimeInForce,
}
use cpp_projects.Exchange.Events.{
  order_accepted, order_rejected, order_cancelled, order_replaced, book_order_reduced,
  book_order_removed,
}
use cpp_projects.Exchange.Book
use cpp_projects.Exchange.Engine.State.{
  MatchingEngine, OrderRef, LiveKey, Run, sink, book_for, put_book, knows_instrument,
  reject_new_order, reject_replace_order,
}
use cpp_projects.Exchange.Engine.Match.{
  crossable_quantity, match_and_rest, rest_remainder_if_applicable,
}

-- `const auto exchange_order_id = next_exchange_order_id_++`, and likewise the priority.
unfoldable pub take_ids : Run → Run
take_ids r =
    let e = r.engine in
    record r {
      engine = record e {
        next_exchange_order_id = inc64 e.next_exchange_order_id;
        next_priority = inc64 e.next_priority;
      };
    }

-- `match_and_rest(order, …); rest_remainder_if_applicable(order, sink);`
unfoldable pub execute : ℕ → Run → ExchangeRestingOrder → Run
execute command_sequence r order =
    let (r', order') = match_and_rest command_sequence r order in
    rest_remainder_if_applicable r' order'

abbrev pub accepted_order : MatchingEngine → NewOrderCommand → ExchangeRestingOrder
accepted_order e cmd = record {
  exchange_order_id = e.next_exchange_order_id;
  client_order_id = cmd.client_order_id;
  account_id = cmd.account_id;
  price = cmd.price;
  original_quantity = cmd.quantity;
  remaining_quantity = cmd.quantity;
  order_sequence = e.next_priority;
  instrument_id = cmd.instrument_id;
  side = cmd.side;
  time_in_force = cmd.time_in_force;
}

unfoldable pub announce_accepted : NewOrderCommand → Run → Run
unfolding take_ids
announce_accepted cmd r =
    let order = accepted_order r.engine cmd in
    sink (take_ids r) λ sequence. order_accepted (record {
      event_sequence = sequence;
      command_sequence = cmd.command_sequence;
      account_id = cmd.account_id;
      client_order_id = cmd.client_order_id;
      exchange_order_id = order.exchange_order_id;
      instrument_id = cmd.instrument_id;
      side = cmd.side;
      price = cmd.price;
      quantity = cmd.quantity;
      order_type = cmd.order_type;
      time_in_force = cmd.time_in_force;
    })

-- What follows the checks of process_new_order.
unfoldable pub accept_new_order : NewOrderCommand → Run → Run
unfolding announce_accepted execute
accept_new_order cmd r =
    execute cmd.command_sequence (announce_accepted cmd r) (accepted_order r.engine cmd)

abbrev pub is_some {ℓ} : {A : Type ℓ} → Option A → Bool
is_some none = false
is_some (some _) = true

-- The first check of process_new_order that fails.
unfoldable pub new_order_fault : MatchingEngine → NewOrderCommand → Option RejectReason
new_order_fault e cmd =
    let available = crossable_quantity e cmd.instrument_id cmd.side cmd.price cmd.quantity in
    if not (knows_instrument e cmd.instrument_id)
    then some invalid_instrument
    else if leb_ℤ cmd.price (pos 0)
    then some invalid_price
    else if cmd.quantity == 0
    then some invalid_quantity
    else if is_some (find (cmd.account_id, cmd.client_order_id) e.orders)
    then some duplicate_order_id
    else if is_fok cmd.time_in_force && ltb available cmd.quantity
    then some insufficient_liquidity
    else none

unfoldable pub process_new_order : NewOrderCommand → Run → Run
unfolding new_order_fault reject_new_order accept_new_order
process_new_order cmd r = elim (new_order_fault r.engine cmd) [
  | some reason ↦ reject_new_order cmd reason r
  | none ↦ accept_new_order cmd r
]

-- The live order that a cancel or a replace names, if it is on that instrument.
unfoldable pub find_live : MatchingEngine → ℕ → ℕ → ℕ → Option OrderRef
find_live e account client instrument = elim (find (account, client) e.orders) [
  | none ↦ none
  | some ref ↦ if ref.instrument_id == instrument then some ref else none
]

abbrev pub reject_cancel : CancelOrderCommand → RejectReason → Run → Run
reject_cancel cmd reason r = sink r λ sequence. order_rejected (record {
  event_sequence = sequence;
  command_sequence = cmd.command_sequence;
  account_id = cmd.account_id;
  client_order_id = cmd.client_order_id;
  instrument_id = cmd.instrument_id;
  reason = reason;
})

-- The order leaves the directory and the book; both are announced.
unfoldable pub cancel_live : CancelOrderCommand → OrderRef → Run → Run
cancel_live cmd ref r =
    let e = r.engine in
    let key : LiveKey = (cmd.account_id, cmd.client_order_id) in
    let (removed, book) = Book.remove_at (book_for e cmd.instrument_id) ref.handle in
    let e' = put_book e cmd.instrument_id book in
    let r' =
      sink (record r { engine = record e' { orders = erase key e'.orders } })
        λ sequence. order_cancelled (record {
          event_sequence = sequence;
          command_sequence = cmd.command_sequence;
          account_id = cmd.account_id;
          client_order_id = cmd.client_order_id;
          exchange_order_id = removed.exchange_order_id;
          instrument_id = cmd.instrument_id;
        }) in
    sink r' λ sequence. book_order_removed (record {
      event_sequence = sequence;
      instrument_id = cmd.instrument_id;
      exchange_order_id = removed.exchange_order_id;
      side = removed.side;
      price = removed.price;
    })

unfoldable pub process_cancel : CancelOrderCommand → Run → Run
unfolding find_live cancel_live
process_cancel cmd r =
    if not (knows_instrument r.engine cmd.instrument_id)
    then reject_cancel cmd invalid_instrument r
    else elim (find_live r.engine cmd.account_id cmd.client_order_id cmd.instrument_id) [
      | none ↦ reject_cancel cmd unknown_order_id r
      | some ref ↦ cancel_live cmd ref r
    ]

unfoldable pub announce_replaced : ReplaceOrderCommand → ℕ → Run → Run
announce_replaced cmd exchange_order_id r = sink r λ sequence. order_replaced (record {
  event_sequence = sequence;
  command_sequence = cmd.command_sequence;
  account_id = cmd.account_id;
  original_client_order_id = cmd.original_client_order_id;
  new_client_order_id = cmd.new_client_order_id;
  exchange_order_id = exchange_order_id;
  instrument_id = cmd.instrument_id;
  new_price = cmd.new_price;
  new_quantity = cmd.new_quantity;
})

-- The order keeps its place and is re-keyed under its new client order id.
unfoldable pub replace_in_place : ReplaceOrderCommand → OrderRef → Run → Run
unfolding announce_replaced
replace_in_place cmd ref r =
    let e = r.engine in
    let book = book_for e cmd.instrument_id in
    let resting = Book.order_at book ref.handle in
    let original : LiveKey = (cmd.account_id, cmd.original_client_order_id) in
    let renamed : LiveKey = (cmd.account_id, cmd.new_client_order_id) in
    let reduced = Book.reduce_at book ref.handle cmd.new_quantity in
    let book' = Book.set_client_order_id_at reduced ref.handle cmd.new_client_order_id in
    let e' = put_book e cmd.instrument_id book' in
    let orders = insert_or_assign renamed ref (erase original e'.orders) in
    let r' =
      announce_replaced cmd resting.exchange_order_id
        (record r { engine = record e' { orders = orders } }) in
    sink r' λ sequence. book_order_reduced (record {
      event_sequence = sequence;
      instrument_id = cmd.instrument_id;
      exchange_order_id = resting.exchange_order_id;
      side = resting.side;
      price = resting.price;
      new_remaining_quantity = cmd.new_quantity;
    })

abbrev pub replacement_order :
    MatchingEngine → ReplaceOrderCommand → Side → TimeInForce → ExchangeRestingOrder
replacement_order e cmd side time_in_force = record {
  exchange_order_id = e.next_exchange_order_id;
  client_order_id = cmd.new_client_order_id;
  account_id = cmd.account_id;
  price = cmd.new_price;
  original_quantity = cmd.new_quantity;
  remaining_quantity = cmd.new_quantity;
  order_sequence = e.next_priority;
  instrument_id = cmd.instrument_id;
  side = side;
  time_in_force = time_in_force;
}

-- Cancel-plus-new: the old order goes, and a new one enters the ordinary matching path.
unfoldable pub replace_anew : ReplaceOrderCommand → OrderRef → Run → Run
unfolding announce_replaced take_ids execute
replace_anew cmd ref r =
    let e = r.engine in
    let original : LiveKey = (cmd.account_id, cmd.original_client_order_id) in
    let (resting, book) = Book.remove_at (book_for e cmd.instrument_id) ref.handle in
    let e' = put_book e cmd.instrument_id book in
    let order = replacement_order e cmd resting.side resting.time_in_force in
    let removed = record r { engine = record e' { orders = erase original e'.orders } } in
    let r' = sink (announce_replaced cmd order.exchange_order_id (take_ids removed)) λ sequence.
      book_order_removed (record {
        event_sequence = sequence;
        instrument_id = cmd.instrument_id;
        exchange_order_id = resting.exchange_order_id;
        side = resting.side;
        price = resting.price;
      }) in
    execute cmd.command_sequence r' order

unfoldable pub preserves_priority : ReplaceOrderCommand → BookOrder → Bool
preserves_priority cmd resting =
    (cmd.new_price ==ℤ resting.price) && leb cmd.new_quantity resting.remaining_quantity

unfoldable pub replace_live : ReplaceOrderCommand → OrderRef → Run → Run
unfolding replace_in_place replace_anew preserves_priority
replace_live cmd ref r =
    if preserves_priority cmd (Book.order_at (book_for r.engine cmd.instrument_id) ref.handle)
    then replace_in_place cmd ref r
    else replace_anew cmd ref r

unfoldable pub process_replace : ReplaceOrderCommand → Run → Run
unfolding find_live replace_live reject_replace_order
process_replace cmd r =
    if not (knows_instrument r.engine cmd.instrument_id)
    then reject_replace_order cmd invalid_instrument r
    else if leb_ℤ cmd.new_price (pos 0) || (cmd.new_quantity == 0)
    then reject_replace_order cmd invalid_replacement r
    else elim (find_live r.engine cmd.account_id cmd.original_client_order_id cmd.instrument_id) [
      | none ↦ reject_replace_order cmd unknown_order_id r
      | some ref ↦ replace_live cmd ref r
    ]

unfoldable pub process_command : ExchangeCommand → Run → Run
unfolding process_new_order process_cancel process_replace
process_command (new_order cmd) r = process_new_order cmd r
process_command (cancel_order cmd) r = process_cancel cmd r
process_command (replace_order cmd) r = process_replace cmd r

-- The events of one command, the newest first, and the engine afterwards.
unfoldable pub process : MatchingEngine → ExchangeCommand → Run
unfolding process_command
process e command = process_command command (record { engine = e; emitted = [] })
