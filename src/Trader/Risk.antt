-- ===== src/Trader/Risk.antt =====
-- mdh/include/trader/risk and mdh/src/trader/risk: the checks ahead of the order management system,
-- with the position tracker behind it.
use cpp_projects.Base.{ℕ, Bool, true, false, Option, none, some, List, [], ◌∷◌, ltb, if◌then◌else◌}
use cpp_projects.Base.Int.{ltb_ℤ}
use cpp_projects.Types.{Price, Quantity, Side, is_buy}
use cpp_projects.Exchange.Core.{
  OrderType, TimeInForce, RejectReason, accepted, order_too_large, insufficient_funds,
  insufficient_position,
}
use cpp_projects.Exchange.Ledger.{Balance, notional}
use cpp_projects.Trader.Oms.{
  ClientOrder, Fill, OrderManagementSystem, Sender, submit_new_order, cancel_order, replace_order,
  handle_message, change, after_traded, fill_of,
}
use cpp_projects.Trader.Positions.{PositionTracker, tracked_cash, tracked_position, apply_fill}
use cpp_projects.Wire.OrderEntry
use cpp_projects.Wire.OrderEntry.{Message}
pub mod Gate
mod Tests

pub record TraderRiskLimits : Type 0 where
  pub max_order_quantity : Quantity

unfoldable pub check :
    TraderRiskLimits → ℕ → ℕ → Side → Price → Quantity → PositionTracker → RejectReason
unfolding tracked_cash tracked_position
check limits account_id instrument_id side price quantity positions =
    if ltb limits.max_order_quantity quantity
    then order_too_large
    else if is_buy side
    then if ltb_ℤ (tracked_cash positions account_id) (notional quantity price)
      then insufficient_funds
      else accepted
    else if ltb (tracked_position positions account_id instrument_id) quantity
    then insufficient_position
    else accepted

pub record TraderRiskGatedOms : Type 0 where
  pub account_id : ℕ
  pub limits : TraderRiskLimits
  pub positions : PositionTracker
  pub oms : OrderManagementSystem

pub record SubmitOutcome : Type 0 where
  pub client_order_id : Option ℕ
  pub local_reject_reason : RejectReason

-- `reason != RejectReason::None`.
abbrev pub is_refusal : RejectReason → Bool
is_refusal accepted = false
is_refusal _ = true

unfoldable pub gated_submit :
    Sender
    → ℕ
    → Side
    → Price
    → Quantity
    → OrderType
    → TimeInForce
    → TraderRiskGatedOms
    → SubmitOutcome × TraderRiskGatedOms
unfolding check submit_new_order
gated_submit sender instrument_id side price quantity order_type time_in_force g =
    let reason = check g.limits g.account_id instrument_id side price quantity g.positions in
    let (id, oms) =
      submit_new_order sender instrument_id side price quantity order_type time_in_force g.oms in
    if is_refusal reason
    then (record { client_order_id = none; local_reject_reason = reason }, g)
    else (
      record { client_order_id = some id; local_reject_reason = accepted },
      record g { oms = oms },
    )

unfoldable pub gated_cancel : Sender → ℕ → TraderRiskGatedOms → Bool × TraderRiskGatedOms
unfolding cancel_order
gated_cancel sender client_order_id g =
    let (sent, oms) = cancel_order sender client_order_id g.oms in (sent, record g { oms = oms })

unfoldable pub gated_replace :
    Sender → ℕ → Price → Quantity → TraderRiskGatedOms → Option ℕ × TraderRiskGatedOms
unfolding replace_order
gated_replace sender client_order_id new_price new_quantity g =
    let (new_id, oms) = replace_order sender client_order_id new_price new_quantity g.oms in
    (new_id, record g { oms = oms })

-- The fill sink is the tracker: it takes the fill that a trade report adds.
abbrev pub sink_fills : Message → OrderManagementSystem → PositionTracker → PositionTracker
sink_fills (OrderEntry.trade_report event) o positions =
    elim (change event.client_order_id (after_traded event) o).1 [
      | none ↦ positions
      | some updated ↦ apply_fill positions (fill_of o.account_id event updated)
    ]
sink_fills message o positions = positions

unfoldable pub gated_handle_message : Message → TraderRiskGatedOms → TraderRiskGatedOms
unfolding handle_message change apply_fill
gated_handle_message message g = record g {
  oms = handle_message message g.oms;
  positions = sink_fills message g.oms g.positions;
}
