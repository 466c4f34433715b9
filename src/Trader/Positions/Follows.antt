-- ===== src/Trader/Positions/Follows.antt =====
-- mdh/src/trader/positions/position_tracker.cpp against mdh/src/exchange/ledger/ledger.cpp: the trader's
-- view of an account and the exchange's.
use mathlib.Core.Path.{subst}
use cpp_projects.Base.{
  ℕ, arith, ◌==◌, Bool-cases, inl, inr, ◌≡◌, ◌≢◌, refl, sym, ap, ◌∙◌, Option, none, some, List,
}
use cpp_projects.Base.Int.{◌+ℤ◌, ◌-ℤ◌}
use cpp_projects.Base.Word.{add64, sub64}
use cpp_projects.Base.Lookups.{find-insert_self, find-insert_ne}
use cpp_projects.Base.Map.{ℕ_key, insert_or_assign}
use cpp_projects.Types.{Price, Quantity, Side, buy, sell}
use cpp_projects.Exchange.Events.{TradeExecuted, TradeCounterparty}
use cpp_projects.Exchange.Gateway.Reports.{side_report}
use cpp_projects.Exchange.Ledger.{
  AccountBalances, no_balances, Hold, Ledger, or_else, balances, put_balances, units, notional,
  find_hold, release_slice, settle, settle_leg, on_trade_executed,
}
use cpp_projects.Trader.Oms.{ClientOrder, Fill, fill_of}
use cpp_projects.Trader.Positions.{
  AccountPosition, no_position, PositionTracker, account, filled_position, apply_fill,
}

-- Cash and holdings are the ledger's totals.
abbrev SameTotals : AccountPosition → AccountBalances → Type 0
SameTotals a b = (a.cash ≡ b.cash_total) × ((i : ℕ) → units a.holdings i ≡ units b.position_total i)

abbrev pub Follows : PositionTracker → Ledger → ℕ → Type 0
Follows t l account_id = SameTotals (account t account_id) (balances l account_id)

account-insert_self :
    (t : PositionTracker) (k : ℕ) (a : AccountPosition) → account (insert_or_assign k a t) k ≡ a
unfolding account
account-insert_self t k a = ap (or_else no_position) (find-insert_self k a t)

balances-put_self : (l : Ledger) (k : ℕ) (b : AccountBalances) → balances (put_balances l k b) k ≡ b
balances-put_self l k b = ap (or_else no_balances) (find-insert_self k b l.accounts)

balances-put_ne :
    (l : Ledger) (k j : ℕ) (b : AccountBalances)
    → j ≢ k
    → balances (put_balances l k b) j ≡ balances l j
balances-put_ne l k j b ne = ap (or_else no_balances) (find-insert_ne j k b l.accounts ne)

release_slice-SameTotals :
    (a : AccountPosition) (hold : Option Hold) (side : Side) (i : ℕ) (q : Quantity)
    (b : AccountBalances)
    → SameTotals a b
    → SameTotals a (release_slice hold side i q b)
release_slice-SameTotals a none side i q b h = h
release_slice-SameTotals a (some hold) buy i q b h = h
release_slice-SameTotals a (some hold) sell i q b h = h

-- The same number of units put under the same instrument in two maps.
same_units :
    (xs ys : List (ℕ × Quantity)) (i : ℕ) (f : Quantity → Quantity)
    → ((j : ℕ) → units xs j ≡ units ys j)
    → (j : ℕ)
    → units (insert_or_assign i (f (units xs i)) xs) j
      ≡ units (insert_or_assign i (f (units ys i)) ys) j
same_units xs ys i f h j = elim (Bool-cases (j == i)) [
  | inl same ↦
      let eq : j ≡ i = ground (arith, same) in
      rw (eq) (
        ap (or_else 0) (find-insert_self i (f (units xs i)) xs)
        ∙ ap f (h i)
        ∙ sym (ap (or_else 0) (find-insert_self i (f (units ys i)) ys)))
  | inr other ↦
      let ne : j ≢ i = λ eq. ground (arith, other, eq) in
      ap (or_else 0) (find-insert_ne j i (f (units xs i)) xs ne)
      ∙ h j
      ∙ sym (ap (or_else 0) (find-insert_ne j i (f (units ys i)) ys ne))
]

settle-SameTotals :
    (fill : Fill) (a : AccountPosition) (side : Side) (b : AccountBalances)
    → SameTotals a b
    → SameTotals
        (filled_position fill a side)
        (settle side fill.instrument_id fill.price fill.quantity b)
unfolding filled_position settle
settle-SameTotals fill a buy b h = (
  ap (λ x. x -ℤ notional fill.quantity fill.price) h.0,
  same_units a.holdings b.position_total fill.instrument_id (λ n. add64 n fill.quantity) h.1,
)
settle-SameTotals fill a sell b h = (
  ap (λ x. x +ℤ notional fill.quantity fill.price) h.0,
  same_units a.holdings b.position_total fill.instrument_id (λ n. sub64 n fill.quantity) h.1,
)

settle_leg-Follows :
    (t : PositionTracker) (l : Ledger) (leg : TradeCounterparty) (fill : Fill)
    → fill.account_id ≡ leg.account_id
    → Follows t l leg.account_id
    → Follows
        (apply_fill t fill)
        (settle_leg l leg fill.side fill.instrument_id fill.price fill.quantity)
        leg.account_id
unfolding apply_fill settle_leg
settle_leg-Follows t l leg fill same h =
    let b =
      release_slice (find_hold l leg.account_id leg.client_order_id) fill.side fill.instrument_id
        fill.quantity (balances l leg.account_id) in
    let released =
      release_slice-SameTotals (account t leg.account_id)
        (find_hold l leg.account_id leg.client_order_id) fill.side fill.instrument_id fill.quantity
        (balances l leg.account_id) h in
    let settled = settle-SameTotals fill (account t leg.account_id) fill.side b released in
    subst
      (λ k.
        SameTotals
          (account (insert_or_assign k (filled_position fill (account t k) fill.side) t)
            leg.account_id)
          (balances (settle_leg l leg fill.side fill.instrument_id fill.price fill.quantity)
            leg.account_id))
      (sym same)
      (rw
        (
          account-insert_self t leg.account_id
              (filled_position fill (account t leg.account_id) fill.side),
          balances-put_self l leg.account_id
              (settle fill.side fill.instrument_id fill.price fill.quantity b),
        )
        settled)

settle_leg-others :
    (l : Ledger) (leg : TradeCounterparty) (side : Side) (i : ℕ) (p : Price) (q : Quantity) (k : ℕ)
    → k ≢ leg.account_id
    → balances (settle_leg l leg side i p q) k ≡ balances l k
unfolding settle_leg
settle_leg-others l leg side i p q k ne = balances-put_ne l leg.account_id k _ ne

-- What the trader of an order makes of the report of its side of a trade.
abbrev pub after_report :
    PositionTracker → TradeExecuted → TradeCounterparty → ClientOrder → PositionTracker
after_report t event leg c = apply_fill t (fill_of leg.account_id (side_report event leg) c)

-- A trade between two accounts. If the positions of the buyer and of the seller, which each trader
-- keeps, are the ledger's totals before the trade, they are so after the ledger has seen the trade and
-- each trader the report of its side.
pub on_trade_executed-Follows :
    (buyers sellers : PositionTracker) (l : Ledger) (event : TradeExecuted)
    (bought sold : ClientOrder)
    → event.buyer.account_id ≢ event.seller.account_id
    → bought.side ≡ buy
    → sold.side ≡ sell
    → Follows buyers l event.buyer.account_id
    → Follows sellers l event.seller.account_id
    → Follows
        (after_report buyers event event.buyer bought)
        (on_trade_executed l event)
        event.buyer.account_id
      × Follows
          (after_report sellers event event.seller sold)
          (on_trade_executed l event)
          event.seller.account_id
unfolding on_trade_executed
on_trade_executed-Follows buyers sellers l event bought sold ne buys sells hb hs =
    let l' = settle_leg l event.buyer buy event.instrument_id event.price event.quantity in
    let b =
      settle_leg-Follows buyers l event.buyer
        (fill_of event.buyer.account_id (side_report event event.buyer)
          (record bought { side = buy }))
        refl hb in
    let same_b =
      settle_leg-others l' event.seller sell event.instrument_id event.price event.quantity
        event.buyer.account_id ne in
    let same_s =
      settle_leg-others l event.buyer buy event.instrument_id event.price event.quantity
        event.seller.account_id (λ eq. ne (sym eq)) in
    let s =
      settle_leg-Follows sellers l' event.seller
        (fill_of event.seller.account_id (side_report event event.seller)
          (record sold { side = sell }))
        refl (rw (same_s) hs) in
    (rw (same_b, buys) b, rw (sells) s)
