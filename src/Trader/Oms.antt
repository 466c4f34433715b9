-- ===== src/Trader/Oms.antt =====
-- mdh/include/trader/oms/client_order.hpp, order_management_system.hpp and
-- mdh/src/trader/oms/order_management_system.cpp: orders from the requests sent and the answers read.
-- The sender is a parameter; the sinks are the lists of what they were called with. A sink that calls
-- back does so after the call that notified it.
pub mod Changes
pub mod Tracked
pub mod TrackedCalls
pub mod Consistent
pub mod Submissions
pub mod Requests
pub mod Replacements
mod Tests
use cpp_projects.Base.{
  ℕ, Bool, true, false, ◌&&◌, not, Option, none, some, List, [], ◌∷◌, ◌==◌, if◌then◌else◌,
}
use cpp_projects.Base.Map.{ℕ_key, find, insert_or_assign, erase, try_emplace}
use cpp_projects.Base.Word.{inc64}
use cpp_projects.Types.{Price, Quantity, Side}
use cpp_projects.Exchange.Core
use cpp_projects.Exchange.Core.{OrderType, TimeInForce, RejectReason, internal_error}
use cpp_projects.Wire.OrderEntry
use cpp_projects.Wire.OrderEntry.{Message, Accepted, Rejected, Cancelled, Replaced, TradeReport}

pub data ClientOrderState : Type 0 where
  pending_new live partially_filled filled rejected cancelled replaced : ClientOrderState

pub data PendingAction : Type 0 where
  no_action cancel_action replace_action : PendingAction

pub record ClientOrder : Type 0 where
  pub account_id : ℕ
  pub client_order_id : ℕ
  pub exchange_order_id : Option ℕ
  pub instrument_id : ℕ
  pub side : Side
  pub price : Price
  pub quantity : Quantity
  pub remaining_quantity : Quantity
  pub order_type : OrderType
  pub time_in_force : TimeInForce
  pub state : ClientOrderState
  pub pending_action : PendingAction
  pub last_reject_reason : RejectReason

pub record Fill : Type 0 where
  pub account_id : ℕ
  pub client_order_id : ℕ
  pub instrument_id : ℕ
  pub side : Side
  pub price : Price
  pub quantity : Quantity

-- What was sent and notified is kept with the newest first.
pub record OrderManagementSystem : Type 0 where
  pub account_id : ℕ
  pub next_client_order_id : ℕ
  pub orders : List (ℕ × ClientOrder)
  pub sent : List Message
  pub updates : List ClientOrder
  pub fills : List Fill

-- Whether a message gets out.
abbrev pub Sender : Type 0
Sender = Message → Bool

abbrev pub is_live : ClientOrderState → Bool
is_live live = true
is_live partially_filled = true
is_live _ = false

abbrev pub is_pending_new : ClientOrderState → Bool
is_pending_new pending_new = true
is_pending_new _ = false

abbrev pub is_idle : PendingAction → Bool
is_idle no_action = true
is_idle _ = false

abbrev pub order : OrderManagementSystem → ℕ → Option ClientOrder
order o client_order_id = find client_order_id o.orders

-- `sender_(message)`.
abbrev pub send : Sender → Message → OrderManagementSystem → OrderManagementSystem
send sender message o = if sender message then record o { sent = message ∷ o.sent } else o

abbrev pub notify : Option ClientOrder → OrderManagementSystem → OrderManagementSystem
notify none o = o
notify (some updated) o = record o { updates = updated ∷ o.updates }

-- A locked section that changes one order, if it is there, and copies it out.
unfoldable pub change :
    ℕ
    → (ClientOrder → ClientOrder)
    → OrderManagementSystem
    → OrderManagementSystem × Option ClientOrder
unfolding find insert_or_assign
change client_order_id f o = elim (order o client_order_id) [
  | none ↦ (o, none)
  | some before ↦
      (record o { orders = insert_or_assign client_order_id (f before) o.orders }, some (f before))
]

abbrev pub change_and_notify :
    ℕ → (ClientOrder → ClientOrder) → OrderManagementSystem → OrderManagementSystem
change_and_notify client_order_id f o =
    let (o', updated) = change client_order_id f o in notify updated o'

-- A ClientOrder that was not sent yet.
abbrev pub new_client_order :
    ℕ → ℕ → ℕ → Side → Price → Quantity → OrderType → TimeInForce → ClientOrder
new_client_order account_id id instrument_id side price quantity order_type time_in_force = record {
  account_id = account_id;
  client_order_id = id;
  exchange_order_id = none;
  instrument_id = instrument_id;
  side = side;
  price = price;
  quantity = quantity;
  remaining_quantity = quantity;
  order_type = order_type;
  time_in_force = time_in_force;
  state = pending_new;
  pending_action = no_action;
  last_reject_reason = Core.accepted;
}

-- Takes the next id for the order and records it.
abbrev pub register : (ℕ → ClientOrder) → OrderManagementSystem → OrderManagementSystem
register new o = record o {
  next_client_order_id = inc64 o.next_client_order_id;
  orders = try_emplace o.next_client_order_id (new o.next_client_order_id) o.orders;
}

abbrev pub send_failed : ClientOrder → ClientOrder
send_failed c = record c {
  state = rejected;
  pending_action = no_action;
  last_reject_reason = internal_error;
}

unfoldable pub mark_send_failed : ℕ → OrderManagementSystem → OrderManagementSystem
unfolding change
mark_send_failed client_order_id o = change_and_notify client_order_id send_failed o

unfoldable pub submit_new_order :
    Sender
    → ℕ
    → Side
    → Price
    → Quantity
    → OrderType
    → TimeInForce
    → OrderManagementSystem
    → ℕ × OrderManagementSystem
unfolding mark_send_failed try_emplace
submit_new_order sender instrument_id side price quantity order_type time_in_force o =
    let id = o.next_client_order_id in
    let o' =
      register
        (λ id.
          new_client_order o.account_id id instrument_id side price quantity order_type
            time_in_force)
        o in
    let message = OrderEntry.new_order (record {
      account_id = o.account_id;
      client_order_id = id;
      instrument_id = instrument_id;
      side = side;
      price = price;
      quantity = quantity;
      order_type = order_type;
      time_in_force = time_in_force;
    }) in
    (id, if sender message then send sender message o' else mark_send_failed id o')

abbrev pub with_action : PendingAction → ClientOrder → ClientOrder
with_action action c = record c { pending_action = action }

unfoldable pub clear_pending_action : ℕ → OrderManagementSystem → OrderManagementSystem
unfolding change
clear_pending_action client_order_id o = (change client_order_id (with_action no_action) o).0

-- The order, where it is live and has no request in flight.
unfoldable pub requestable : OrderManagementSystem → ℕ → Option ClientOrder
unfolding find
requestable o client_order_id = elim (order o client_order_id) [
  | none ↦ none
  | some c ↦ if is_live c.state && is_idle c.pending_action then some c else none
]

unfoldable pub cancel_order : Sender → ℕ → OrderManagementSystem → Bool × OrderManagementSystem
unfolding requestable change clear_pending_action
cancel_order sender client_order_id o = elim (requestable o client_order_id) [
  | none ↦ (false, o)
  | some c ↦
      let o' = (change client_order_id (with_action cancel_action) o).0 in
      let message = OrderEntry.cancel_order (record {
        account_id = o.account_id;
        client_order_id = client_order_id;
        instrument_id = c.instrument_id;
      }) in
      if sender message
      then (true, send sender message o')
      else (false, clear_pending_action client_order_id o')
]

-- What a replacement takes over from the order that it replaces.
abbrev pub replacement : ClientOrder → ℕ → Price → Quantity → ℕ → ClientOrder
replacement c account_id new_price new_quantity new_id =
    new_client_order account_id new_id c.instrument_id c.side new_price new_quantity c.order_type
      c.time_in_force

unfoldable pub replace_order :
    Sender → ℕ → Price → Quantity → OrderManagementSystem → Option ℕ × OrderManagementSystem
unfolding requestable change clear_pending_action try_emplace erase
replace_order sender client_order_id new_price new_quantity o =
    elim (requestable o client_order_id) [
      | none ↦ (none, o)
      | some c ↦
          let new_id = o.next_client_order_id in
          let o' =
            register (replacement c o.account_id new_price new_quantity)
              (change client_order_id (with_action replace_action) o).0 in
          let message = OrderEntry.replace_order (record {
            account_id = o.account_id;
            original_client_order_id = client_order_id;
            new_client_order_id = new_id;
            instrument_id = c.instrument_id;
            new_price = new_price;
            new_quantity = new_quantity;
          }) in
          if sender message then (some new_id, send sender message o') else (
            none,
            clear_pending_action client_order_id (record o' { orders = erase new_id o'.orders }),
          )
    ]

abbrev pub after_accepted : Accepted → ClientOrder → ClientOrder
after_accepted event c = record c {
  exchange_order_id = some event.exchange_order_id;
  state = live;
  quantity = event.quantity;
  remaining_quantity = event.quantity;
}

abbrev pub after_rejected : Rejected → ClientOrder → ClientOrder
after_rejected event c = record c {
  state = if is_pending_new c.state then rejected else c.state;
  pending_action = no_action;
  last_reject_reason = event.reason;
}

abbrev pub after_cancelled : ClientOrder → ClientOrder
after_cancelled c = record c { state = cancelled; pending_action = no_action }

abbrev pub after_replaced : ClientOrder → ClientOrder
after_replaced c = record c { state = replaced; pending_action = no_action }

abbrev pub after_replacing : Replaced → ClientOrder → ClientOrder
after_replacing event c = record c {
  state = live;
  exchange_order_id = some event.exchange_order_id;
  price = event.new_price;
  quantity = event.new_quantity;
  remaining_quantity = event.new_quantity;
}

abbrev pub after_traded : TradeReport → ClientOrder → ClientOrder
after_traded event c = record c {
  remaining_quantity = event.remaining_quantity;
  state = if event.remaining_quantity == 0 then filled else partially_filled;
}

unfoldable pub on_replaced : Replaced → OrderManagementSystem → OrderManagementSystem
unfolding change
on_replaced event o =
    let (o1, old_updated) = change event.original_client_order_id after_replaced o in
    let (o2, new_updated) = change event.new_client_order_id (after_replacing event) o1 in
    notify new_updated (notify old_updated o2)

abbrev pub fill_of : ℕ → TradeReport → ClientOrder → Fill
fill_of account_id event c = record {
  account_id = account_id;
  client_order_id = event.client_order_id;
  instrument_id = event.instrument_id;
  side = c.side;
  price = event.price;
  quantity = event.quantity;
}

abbrev pub record_fill :
    TradeReport → Option ClientOrder → OrderManagementSystem → OrderManagementSystem
record_fill event none o = o
record_fill event (some updated) o = record o {
  fills = fill_of o.account_id event updated ∷ o.fills;
}

unfoldable pub on_trade_report : TradeReport → OrderManagementSystem → OrderManagementSystem
unfolding change
on_trade_report event o =
    let (o', updated) = change event.client_order_id (after_traded event) o in
    record_fill event updated (notify updated o')

unfoldable pub handle_message : Message → OrderManagementSystem → OrderManagementSystem
unfolding on_replaced on_trade_report change
handle_message (OrderEntry.accepted event) o =
    change_and_notify event.client_order_id (after_accepted event) o
handle_message (OrderEntry.rejected event) o =
    change_and_notify event.client_order_id (after_rejected event) o
handle_message (OrderEntry.cancelled event) o =
    change_and_notify event.client_order_id after_cancelled o
handle_message (OrderEntry.replaced event) o = on_replaced event o
handle_message (OrderEntry.trade_report event) o = on_trade_report event o
handle_message (OrderEntry.new_order event) o = o
handle_message (OrderEntry.cancel_order event) o = o
handle_message (OrderEntry.replace_order event) o = o

-- The calls of the class that change it.
pub data Call : Type 0 where
  submit_call : ℕ → Side → Price → Quantity → OrderType → TimeInForce → Call
  cancel_call : ℕ → Call
  replace_call : ℕ → Price → Quantity → Call
  answer : Message → Call

abbrev pub perform : Sender → Call → OrderManagementSystem → OrderManagementSystem
perform sender (submit_call instrument_id side price quantity order_type time_in_force) o =
    (submit_new_order sender instrument_id side price quantity order_type time_in_force o).1
perform sender (cancel_call client_order_id) o = (cancel_order sender client_order_id o).1
perform sender (replace_call client_order_id new_price new_quantity) o =
    (replace_order sender client_order_id new_price new_quantity o).1
perform sender (answer message) o = handle_message message o
