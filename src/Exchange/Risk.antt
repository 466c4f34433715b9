-- ===== src/Exchange/Risk.antt =====
-- mdh/include/exchange/risk and mdh/src/exchange/risk: the checks ahead of the engine, and the
-- engine with the checks before it and the ledger behind it.
use cpp_projects.Base.{
  ℕ, ◌-◌, Bool, true, false, not, Option, none, some, List, [], ◌∷◌, ltb, ◌==◌, if◌then◌else◌,
}
use cpp_projects.Base.Int.{ℤ, pos, ◌-ℤ◌, ltb_ℤ}
use cpp_projects.Types.{Quantity, is_buy}
use cpp_projects.Exchange.Core.{
  NewOrderCommand, ReplaceOrderCommand, ExchangeCommand, new_order, cancel_order, replace_order,
  RejectReason, accepted, invalid_instrument, insufficient_funds, insufficient_position,
  order_too_large,
}
use cpp_projects.Exchange.Events.{ExchangeEvent}
use cpp_projects.Exchange.Engine.State.{
  MatchingEngine, Run, knows_instrument, reject_new_order, reject_replace_order,
}
use cpp_projects.Exchange.Engine.Process.{process}
use cpp_projects.Exchange.Ledger.{
  Balance, Hold, Ledger, notional, available_cash, available_position, find_hold, apply,
}
mod Checks
mod Gated
mod Tests

pub record RiskLimits : Type 0 where
  pub max_order_quantity : Quantity

abbrev pub default_limits : RiskLimits
default_limits = record { max_order_quantity = 1000000 }

unfoldable pub check_new_order : RiskLimits → NewOrderCommand → Ledger → RejectReason
check_new_order limits cmd l =
    if ltb limits.max_order_quantity cmd.quantity
    then order_too_large
    else if is_buy cmd.side
    then if ltb_ℤ (available_cash l cmd.account_id) (notional cmd.quantity cmd.price)
      then insufficient_funds
      else accepted
    else if ltb (available_position l cmd.account_id cmd.instrument_id) cmd.quantity
    then insufficient_position
    else accepted

-- `std::max(Balance{0}, balance)`.
abbrev pub at_least_zero : Balance → Balance
at_least_zero balance = if ltb_ℤ (pos 0) balance then balance else pos 0

unfoldable pub check_credited : ReplaceOrderCommand → Ledger → Hold → RejectReason
check_credited cmd l hold =
    if is_buy hold.side
    then if ltb_ℤ (available_cash l cmd.account_id) (
        at_least_zero
          (notional cmd.new_quantity cmd.new_price -ℤ notional hold.remaining hold.limit_price))
      then insufficient_funds
      else accepted
    else if ltb (available_position l cmd.account_id cmd.instrument_id)
        (if ltb hold.remaining cmd.new_quantity then cmd.new_quantity - hold.remaining else 0)
    then insufficient_position
    else accepted

unfoldable pub check_replace_order : RiskLimits → ReplaceOrderCommand → Ledger → RejectReason
unfolding check_credited
check_replace_order limits cmd l =
    if ltb limits.max_order_quantity cmd.new_quantity
    then order_too_large
    else elim (find_hold l cmd.account_id cmd.original_client_order_id) [
      | none ↦ accepted
      | some hold ↦
          if not (hold.instrument_id == cmd.instrument_id)
          then accepted
          else check_credited cmd l hold
    ]

-- The ledger after the events, which it applies in the order they are emitted; the list has the
-- newest first.
abbrev pub apply_all : Ledger → List ExchangeEvent → Ledger
apply_all l [] = l
apply_all l (event ∷ older) = apply (apply_all l older) event

-- The engine's process with the ledger in front of the sink.
abbrev pub forward : MatchingEngine → Ledger → ExchangeCommand → Run × Ledger
forward e l command = let r = process e command in (r, apply_all l r.emitted)

-- A check's answer: `accepted` lets the command on, any other reason is reported with `reject`.
abbrev pub gate : RejectReason → (RejectReason → Run × Ledger) → Run × Ledger → Run × Ledger
gate accepted reject go = go
gate reason reject go = reject reason

unfoldable pub gated_process : RiskLimits → MatchingEngine → Ledger → ExchangeCommand → Run × Ledger
gated_process limits e l (new_order cmd) =
    let reject : RejectReason → Run × Ledger =
      λ reason. (reject_new_order cmd reason (record { engine = e; emitted = [] }), l) in
    if not (knows_instrument e cmd.instrument_id)
    then reject invalid_instrument
    else gate (check_new_order limits cmd l) reject (forward e l (new_order cmd))
gated_process limits e l (cancel_order cmd) = forward e l (cancel_order cmd)
gated_process limits e l (replace_order cmd) =
    let reject : RejectReason → Run × Ledger =
      λ reason. (reject_replace_order cmd reason (record { engine = e; emitted = [] }), l) in
    if not (knows_instrument e cmd.instrument_id)
    then reject invalid_instrument
    else gate (check_replace_order limits cmd l) reject (forward e l (replace_order cmd))
