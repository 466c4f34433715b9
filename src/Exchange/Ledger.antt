-- ===== src/Exchange/Ledger.antt =====
-- mdh/include/exchange/ledger/ledger.hpp and mdh/src/exchange/ledger/ledger.cpp: balances and the
-- reservations behind resting orders, kept by watching the engine's events.
use cpp_projects.Base.{
  ℕ, zero, Bool, true, false, not, Option, none, some, List, [], ◌==◌, if◌then◌else◌,
}
use cpp_projects.Base.Int.{ℤ, pos, ◌+ℤ◌, ◌-ℤ◌, ◌*ℤ◌}
use cpp_projects.Base.Word.{add64, sub64, to_i64}
use cpp_projects.Base.Map.{ℕ_key, pair_key, find, insert_or_assign, erase}
use cpp_projects.Types.{Price, Quantity, Side, is_buy, buy, sell}
use cpp_projects.Exchange.Core.{is_gtc}
use cpp_projects.Exchange.Events.{
  ExchangeEvent, OrderAccepted, OrderReplaced, OrderCancelled, TradeExecuted, TradeCounterparty,
  order_accepted, order_replaced, order_cancelled, trade_executed,
}
pub mod Cash
pub mod Total
mod Tests

abbrev pub Balance : Type 0
Balance = ℤ

pub record AccountBalances : Type 0 where
  pub cash_total : Balance
  pub cash_reserved : Balance
  pub position_total : List (ℕ × Quantity)
  pub position_reserved : List (ℕ × Quantity)

-- A default-constructed AccountBalances.
abbrev pub no_balances : AccountBalances
no_balances = record {
  cash_total = pos 0;
  cash_reserved = pos 0;
  position_total = [];
  position_reserved = [];
}

pub record Hold : Type 0 where
  pub instrument_id : ℕ
  pub side : Side
  pub limit_price : Price
  pub remaining : Quantity

-- Accounts by id, and holds by account and client order id.
pub record Ledger : Type 0 where
  pub accounts : List (ℕ × AccountBalances)
  pub holds : List ((ℕ × ℕ) × Hold)

-- A value that operator[] of the maps default-constructs where the key is missing.
abbrev pub or_else {ℓ} : {A : Type ℓ} → A → Option A → A
or_else a none = a
or_else a (some b) = b

abbrev pub balances : Ledger → ℕ → AccountBalances
balances l account_id = or_else no_balances (find account_id l.accounts)

abbrev pub put_balances : Ledger → ℕ → AccountBalances → Ledger
put_balances l account_id b = record l { accounts = insert_or_assign account_id b l.accounts }

abbrev pub units : List (ℕ × Quantity) → ℕ → Quantity
units positions instrument_id = or_else 0 (find instrument_id positions)

abbrev pub add_units : List (ℕ × Quantity) → ℕ → Quantity → List (ℕ × Quantity)
add_units positions instrument_id quantity =
    insert_or_assign instrument_id (add64 (units positions instrument_id) quantity) positions

abbrev pub sub_units : List (ℕ × Quantity) → ℕ → Quantity → List (ℕ × Quantity)
sub_units positions instrument_id quantity =
    insert_or_assign instrument_id (sub64 (units positions instrument_id) quantity) positions

-- `static_cast<Balance>(quantity) * price`.
unfoldable pub notional : Quantity → Price → Balance
notional quantity price = to_i64 quantity *ℤ price

unfoldable pub deposit_cash : Ledger → ℕ → Balance → Ledger
deposit_cash l account_id amount =
    let b = balances l account_id in
    put_balances l account_id (record b { cash_total = b.cash_total +ℤ amount })

unfoldable pub deposit_position : Ledger → ℕ → ℕ → Quantity → Ledger
deposit_position l account_id instrument_id amount =
    let b = balances l account_id in
    put_balances l account_id
      (record b { position_total = add_units b.position_total instrument_id amount })

unfoldable pub available_cash : Ledger → ℕ → Balance
available_cash l account_id = let b = balances l account_id in b.cash_total -ℤ b.cash_reserved

unfoldable pub available_position : Ledger → ℕ → ℕ → Quantity
available_position l account_id instrument_id =
    let b = balances l account_id in
    sub64 (units b.position_total instrument_id) (units b.position_reserved instrument_id)

unfoldable pub find_hold : Ledger → ℕ → ℕ → Option Hold
unfolding find
find_hold l account_id client_order_id = find (account_id, client_order_id) l.holds

-- The reservation of open_hold, on the account's balances.
abbrev pub reserve : Hold → AccountBalances → AccountBalances
reserve hold b =
    if is_buy hold.side
    then record b { cash_reserved = b.cash_reserved +ℤ notional hold.remaining hold.limit_price }
    else record b {
      position_reserved = add_units b.position_reserved hold.instrument_id hold.remaining;
    }

unfoldable pub open_hold : Ledger → ℕ → ℕ → Hold → Ledger
unfolding insert_or_assign
open_hold l account_id client_order_id hold =
    let l' = put_balances l account_id (reserve hold (balances l account_id)) in
    if hold.remaining == 0
    then l
    else record l' { holds = insert_or_assign (account_id, client_order_id) hold l'.holds }

-- What `quantity` of a hold had reserved, given back.
abbrev pub unreserve : Side → ℕ → Price → Quantity → AccountBalances → AccountBalances
unreserve side instrument_id limit_price quantity b =
    if is_buy side
    then record b { cash_reserved = b.cash_reserved -ℤ notional quantity limit_price }
    else record b { position_reserved = sub_units b.position_reserved instrument_id quantity }

unfoldable pub release_hold_fully : Ledger → ℕ → Hold → Ledger
release_hold_fully l account_id hold =
    if hold.remaining == 0
    then l
    else put_balances l account_id (
        unreserve hold.side hold.instrument_id hold.limit_price hold.remaining
          (balances l account_id))

-- The first half of settle_leg: the filled slice leaves the hold, if there is one.
abbrev pub release_slice : Option Hold → Side → ℕ → Quantity → AccountBalances → AccountBalances
release_slice none side instrument_id quantity b = b
release_slice (some hold) side instrument_id quantity b =
    unreserve side instrument_id hold.limit_price quantity b

abbrev pub shrink_hold :
    Option Hold → ℕ × ℕ → Quantity → List ((ℕ × ℕ) × Hold) → List ((ℕ × ℕ) × Hold)
shrink_hold none key remaining holds = holds
shrink_hold (some hold) key remaining holds =
    if remaining == 0
    then erase key holds
    else insert_or_assign key (record hold { remaining = remaining }) holds

-- The second half: cash and units change hands.
unfoldable pub settle : Side → ℕ → Price → Quantity → AccountBalances → AccountBalances
settle buy instrument_id price quantity b = record b {
  cash_total = b.cash_total -ℤ notional quantity price;
  position_total = add_units b.position_total instrument_id quantity;
}
settle sell instrument_id price quantity b = record b {
  cash_total = b.cash_total +ℤ notional quantity price;
  position_total = sub_units b.position_total instrument_id quantity;
}

unfoldable pub settle_leg : Ledger → TradeCounterparty → Side → ℕ → Price → Quantity → Ledger
unfolding settle find_hold
settle_leg l leg side instrument_id price quantity =
    let hold = find_hold l leg.account_id leg.client_order_id in
    let b = release_slice hold side instrument_id quantity (balances l leg.account_id) in
    let l' = put_balances l leg.account_id (settle side instrument_id price quantity b) in
    record l' {
      holds =
          shrink_hold hold (leg.account_id, leg.client_order_id) leg.remaining_quantity l'.holds;
    }

unfoldable pub on_order_accepted : Ledger → OrderAccepted → Ledger
unfolding open_hold
on_order_accepted l event =
    if not (is_gtc event.time_in_force)
    then l
    else open_hold l event.account_id event.client_order_id (record {
      instrument_id = event.instrument_id;
      side = event.side;
      limit_price = event.price;
      remaining = event.quantity;
    })

abbrev pub close_hold : Ledger → ℕ → ℕ → Hold → Ledger
close_hold l account_id client_order_id hold =
    let l' = release_hold_fully l account_id hold in
    record l' { holds = erase (account_id, client_order_id) l'.holds }

unfoldable pub on_order_replaced : Ledger → OrderReplaced → Ledger
unfolding open_hold find_hold
on_order_replaced l event = elim (find_hold l event.account_id event.original_client_order_id) [
  | none ↦ l
  | some old_hold ↦
      open_hold (close_hold l event.account_id event.original_client_order_id old_hold)
        event.account_id event.new_client_order_id
        (record {
          instrument_id = event.instrument_id;
          side = old_hold.side;
          limit_price = event.new_price;
          remaining = event.new_quantity;
        })
]

unfoldable pub on_order_cancelled : Ledger → OrderCancelled → Ledger
unfolding find_hold
on_order_cancelled l event = elim (find_hold l event.account_id event.client_order_id) [
  | none ↦ l
  | some hold ↦ close_hold l event.account_id event.client_order_id hold
]

unfoldable pub on_trade_executed : Ledger → TradeExecuted → Ledger
unfolding settle_leg
on_trade_executed l event =
    settle_leg (settle_leg l event.buyer buy event.instrument_id event.price event.quantity)
      event.seller sell event.instrument_id event.price event.quantity

unfoldable pub apply : Ledger → ExchangeEvent → Ledger
unfolding on_order_accepted on_order_replaced on_order_cancelled on_trade_executed
apply l (order_accepted event) = on_order_accepted l event
apply l (order_replaced event) = on_order_replaced l event
apply l (order_cancelled event) = on_order_cancelled l event
apply l (trade_executed event) = on_trade_executed l event
apply l _ = l
