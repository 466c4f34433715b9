-- ===== src/Trader/Positions.antt =====
-- mdh/include/trader/positions/position_tracker.hpp and mdh/src/trader/positions/position_tracker.cpp:
-- cash and holdings from the fills. They are kept as the exchange's ledger keeps its totals.
use cpp_projects.Base.{ℕ, Option, none, some, List, []}
use cpp_projects.Base.Int.{pos, ◌+ℤ◌, ◌-ℤ◌}
use cpp_projects.Base.Map.{ℕ_key, find, insert_or_assign}
use cpp_projects.Types.{Price, Quantity, Side, buy, sell}
use cpp_projects.Exchange.Ledger.{Balance, or_else, units, add_units, sub_units, notional}
use cpp_projects.Trader.Oms.{Fill}
pub mod Follows
mod Tests

pub record AccountPosition : Type 0 where
  pub cash : Balance
  pub holdings : List (ℕ × Quantity)

-- A default-constructed AccountPosition.
abbrev pub no_position : AccountPosition
no_position = record { cash = pos 0; holdings = [] }

abbrev pub PositionTracker : Type 0
PositionTracker = List (ℕ × AccountPosition)

unfoldable pub account : PositionTracker → ℕ → AccountPosition
unfolding find
account accounts account_id = or_else no_position (find account_id accounts)

unfoldable pub tracked_cash : PositionTracker → ℕ → Balance
unfolding account
tracked_cash accounts account_id = (account accounts account_id).cash

unfoldable pub tracked_position : PositionTracker → ℕ → ℕ → Quantity
unfolding account
tracked_position accounts account_id instrument_id =
    units (account accounts account_id).holdings instrument_id

unfoldable pub deposit_cash : PositionTracker → ℕ → Balance → PositionTracker
unfolding account insert_or_assign
deposit_cash accounts account_id amount =
    let a = account accounts account_id in
    insert_or_assign account_id (record a { cash = a.cash +ℤ amount }) accounts

unfoldable pub deposit_position : PositionTracker → ℕ → ℕ → Quantity → PositionTracker
unfolding account insert_or_assign
deposit_position accounts account_id instrument_id amount =
    let a = account accounts account_id in
    insert_or_assign account_id (record a { holdings = add_units a.holdings instrument_id amount })
      accounts

-- One fill, on the account's position.
unfoldable pub filled_position : Fill → AccountPosition → Side → AccountPosition
filled_position fill a buy = record {
  cash = a.cash -ℤ notional fill.quantity fill.price;
  holdings = add_units a.holdings fill.instrument_id fill.quantity;
}
filled_position fill a sell = record {
  cash = a.cash +ℤ notional fill.quantity fill.price;
  holdings = sub_units a.holdings fill.instrument_id fill.quantity;
}

unfoldable pub apply_fill : PositionTracker → Fill → PositionTracker
unfolding account insert_or_assign filled_position
apply_fill accounts fill =
    insert_or_assign fill.account_id
      (filled_position fill (account accounts fill.account_id) fill.side) accounts
