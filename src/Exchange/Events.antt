-- ===== src/Exchange/Events.antt =====
-- mdh/include/exchange/core/events.hpp: what the matching engine emits through its EventSink.
use cpp_projects.Base.{ℕ}
use cpp_projects.Types.{Price, Quantity, Side}
use cpp_projects.Exchange.Core.{OrderType, TimeInForce, RejectReason}

pub record OrderAccepted : Type 0 where
  pub event_sequence : ℕ
  pub command_sequence : ℕ
  pub account_id : ℕ
  pub client_order_id : ℕ
  pub exchange_order_id : ℕ
  pub instrument_id : ℕ
  pub side : Side
  pub price : Price
  pub quantity : Quantity
  pub order_type : OrderType
  pub time_in_force : TimeInForce

pub record OrderRejected : Type 0 where
  pub event_sequence : ℕ
  pub command_sequence : ℕ
  pub account_id : ℕ
  pub client_order_id : ℕ
  pub instrument_id : ℕ
  pub reason : RejectReason

pub record OrderCancelled : Type 0 where
  pub event_sequence : ℕ
  pub command_sequence : ℕ
  pub account_id : ℕ
  pub client_order_id : ℕ
  pub exchange_order_id : ℕ
  pub instrument_id : ℕ

pub record OrderReplaced : Type 0 where
  pub event_sequence : ℕ
  pub command_sequence : ℕ
  pub account_id : ℕ
  pub original_client_order_id : ℕ
  pub new_client_order_id : ℕ
  pub exchange_order_id : ℕ
  pub instrument_id : ℕ
  pub new_price : Price
  pub new_quantity : Quantity

-- One side of a trade, with what is left on its order afterwards.
pub record TradeCounterparty : Type 0 where
  pub account_id : ℕ
  pub client_order_id : ℕ
  pub exchange_order_id : ℕ
  pub remaining_quantity : Quantity

pub record TradeExecuted : Type 0 where
  pub event_sequence : ℕ
  pub command_sequence : ℕ
  pub instrument_id : ℕ
  pub price : Price
  pub quantity : Quantity
  pub aggressor_side : Side
  pub buyer : TradeCounterparty
  pub seller : TradeCounterparty

pub record BookOrderAdded : Type 0 where
  pub event_sequence : ℕ
  pub instrument_id : ℕ
  pub exchange_order_id : ℕ
  pub side : Side
  pub price : Price
  pub quantity : Quantity

pub record BookOrderReduced : Type 0 where
  pub event_sequence : ℕ
  pub instrument_id : ℕ
  pub exchange_order_id : ℕ
  pub side : Side
  pub price : Price
  pub new_remaining_quantity : Quantity

pub record BookOrderRemoved : Type 0 where
  pub event_sequence : ℕ
  pub instrument_id : ℕ
  pub exchange_order_id : ℕ
  pub side : Side
  pub price : Price

pub data ExchangeEvent : Type 0 where
  order_accepted : OrderAccepted → ExchangeEvent
  order_rejected : OrderRejected → ExchangeEvent
  order_cancelled : OrderCancelled → ExchangeEvent
  order_replaced : OrderReplaced → ExchangeEvent
  trade_executed : TradeExecuted → ExchangeEvent
  book_order_added : BookOrderAdded → ExchangeEvent
  book_order_reduced : BookOrderReduced → ExchangeEvent
  book_order_removed : BookOrderRemoved → ExchangeEvent

-- The field that every event has.
abbrev pub event_sequence : ExchangeEvent → ℕ
event_sequence (order_accepted e) = e.event_sequence
event_sequence (order_rejected e) = e.event_sequence
event_sequence (order_cancelled e) = e.event_sequence
event_sequence (order_replaced e) = e.event_sequence
event_sequence (trade_executed e) = e.event_sequence
event_sequence (book_order_added e) = e.event_sequence
event_sequence (book_order_reduced e) = e.event_sequence
event_sequence (book_order_removed e) = e.event_sequence
