-- ===== src/Exchange/Core.antt =====
-- mdh/include/exchange/core/{types,commands}.hpp and mdh/include/exchange/matching/
-- resting_order.hpp: the exchange's inbound vocabulary and its resting orders.
use cpp_projects.Base.{ℕ, Bool, true, false}
use cpp_projects.Types.{Price, Quantity, Side}

pub data OrderType : Type 0 where
  limit : OrderType

pub data TimeInForce : Type 0 where
  gtc ioc fok : TimeInForce

abbrev pub is_gtc : TimeInForce → Bool
is_gtc gtc = true
is_gtc ioc = false
is_gtc fok = false

abbrev pub is_fok : TimeInForce → Bool
is_fok gtc = false
is_fok ioc = false
is_fok fok = true

-- `RejectReason::None` is `accepted` here.
pub data RejectReason : Type 0 where
  accepted invalid_price invalid_quantity duplicate_order_id unknown_order_id : RejectReason
  invalid_instrument insufficient_liquidity invalid_replacement internal_error : RejectReason
  insufficient_funds insufficient_position order_too_large account_mismatch : RejectReason

pub record NewOrderCommand : Type 0 where
  pub command_sequence : ℕ
  pub account_id : ℕ
  pub client_order_id : ℕ
  pub instrument_id : ℕ
  pub side : Side
  pub price : Price
  pub quantity : Quantity
  pub order_type : OrderType
  pub time_in_force : TimeInForce

pub record CancelOrderCommand : Type 0 where
  pub command_sequence : ℕ
  pub account_id : ℕ
  pub client_order_id : ℕ
  pub instrument_id : ℕ

pub record ReplaceOrderCommand : Type 0 where
  pub command_sequence : ℕ
  pub account_id : ℕ
  pub original_client_order_id : ℕ
  pub new_client_order_id : ℕ
  pub instrument_id : ℕ
  pub new_price : Price
  pub new_quantity : Quantity

pub data ExchangeCommand : Type 0 where
  new_order : NewOrderCommand → ExchangeCommand
  cancel_order : CancelOrderCommand → ExchangeCommand
  replace_order : ReplaceOrderCommand → ExchangeCommand

pub record ExchangeRestingOrder : Type 0 where
  pub exchange_order_id : ℕ
  pub client_order_id : ℕ
  pub account_id : ℕ
  pub price : Price
  pub original_quantity : Quantity
  pub remaining_quantity : Quantity
  pub order_sequence : ℕ
  pub instrument_id : ℕ
  pub side : Side
  pub time_in_force : TimeInForce

-- What the book stores while an order rests.
pub record BookOrder : Type 0 where
  pub exchange_order_id : ℕ
  pub client_order_id : ℕ
  pub account_id : ℕ
  pub price : Price
  pub remaining_quantity : Quantity
  pub side : Side
  pub time_in_force : TimeInForce
