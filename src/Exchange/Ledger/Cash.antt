-- ===== src/Exchange/Ledger/Cash.antt =====
-- mdh/src/exchange/ledger/ledger.cpp: what each event does to the cash of each account.
use cpp_projects.Base.{
  ℕ, ◌≡◌, refl, sym, ap, ◌∙◌, Bool-cases, Option-cases, inl, inr, Option, arith, ◌==◌, ==_iff, not,
  if◌then◌else◌,
}
use cpp_projects.Base.Int.{◌+ℤ◌, ◌-ℤ◌}
use cpp_projects.Base.Map.{ℕ_key, pair_key}
use cpp_projects.Base.Lookups.{find-insert_self, find-insert_ne}
use cpp_projects.Types.{Price, Quantity, buy, sell}
use cpp_projects.Exchange.Core.{is_gtc}
use cpp_projects.Exchange.Events.{
  ExchangeEvent, TradeCounterparty, order_accepted, order_rejected, order_replaced, order_cancelled,
  trade_executed, book_order_added, book_order_reduced, book_order_removed,
}
use cpp_projects.Exchange.Ledger.{
  Balance, AccountBalances, no_balances, or_else, Hold, Ledger, balances, put_balances, notional,
  open_hold, release_hold_fully, settle, settle_leg, close_hold, find_hold, on_order_accepted,
  on_order_replaced, on_order_cancelled, on_trade_executed, apply,
}
use cpp_projects.Exchange.Ledger.Total.{
  total_cash, apply-total_cash, reserve-cash_total, unreserve-cash_total, slice-cash_total,
}

abbrev pub cash_of : Ledger → ℕ → Balance
cash_of l account_id = (balances l account_id).cash_total

-- The cash that an account has after an event: the buyer of a trade has its notional less, the
-- seller has it more, and every other event leaves the cash.
abbrev pub cash_after : ExchangeEvent → ℕ → Balance → Balance
cash_after (trade_executed t) account_id cash =
    let paid : Balance =
      if t.buyer.account_id == account_id then cash -ℤ notional t.quantity t.price else cash in
    if t.seller.account_id == account_id then paid +ℤ notional t.quantity t.price else paid
cash_after (order_accepted _) account_id cash = cash
cash_after _ account_id cash = cash

found_cash : Option AccountBalances → Balance
found_cash b = (or_else no_balances b).cash_total

cash_of-put :
    (l : Ledger) (k a : ℕ) (b : AccountBalances)
    → cash_of (put_balances l k b) a ≡ (if k == a then b.cash_total else cash_of l a)
unfolding found_cash
cash_of-put l k a b = elim (Bool-cases (k == a)) [
  | inl h ↦
      let key : k ≡ a = (==_iff k a).0 h in
      rw (h) (
        ap (cash_of (put_balances l k b)) (sym key)
        ∙ ap found_cash (find-insert_self k b l.accounts))
  | inr h ↦ rw (h) (ap found_cash (find-insert_ne a k b l.accounts (λ e. absurd (ground arith))))
]

-- A change of an account's balances that leaves its cash leaves that of every account.
keep :
    (l : Ledger) (k a : ℕ) (b : AccountBalances)
    → b.cash_total ≡ cash_of l k
    → cash_of (put_balances l k b) a ≡ cash_of l a
keep l k a b h = elim (Bool-cases (k == a)) [
  | inl same ↦
      let key : k ≡ a = (==_iff k a).0 same in
      cash_of-put l k a b ∙ rw (same) (h ∙ ap (cash_of l) key)
  | inr other ↦ cash_of-put l k a b ∙ rw (other) refl
]

open_hold-cash_of :
    (l : Ledger) (account_id client_order_id a : ℕ) (hold : Hold)
    → cash_of (open_hold l account_id client_order_id hold) a ≡ cash_of l a
unfolding open_hold
open_hold-cash_of l account_id client_order_id a hold = elim (Bool-cases (hold.remaining == 0)) [
  | inl h ↦ rw (h) refl
  | inr h ↦ rw (h) (keep l account_id a _ (reserve-cash_total hold (balances l account_id)))
]

close_hold-cash_of :
    (l : Ledger) (account_id client_order_id a : ℕ) (hold : Hold)
    → cash_of (close_hold l account_id client_order_id hold) a ≡ cash_of l a
unfolding release_hold_fully
close_hold-cash_of l account_id client_order_id a hold = elim (Bool-cases (hold.remaining == 0)) [
  | inl h ↦ rw (h) refl
  | inr h ↦ rw (h) (
      keep l account_id a _ (
        unreserve-cash_total hold.side hold.instrument_id hold.limit_price hold.remaining
          (balances l account_id)))
]

-- The leg of a trade pays, or is paid, on its own account only.
settle_buy-cash_of :
    (l : Ledger) (leg : TradeCounterparty) (i : ℕ) (p : Price) (q : Quantity) (a : ℕ)
    → cash_of (settle_leg l leg buy i p q) a
      ≡ (if leg.account_id == a then cash_of l a -ℤ notional q p else cash_of l a)
unfolding settle_leg settle
settle_buy-cash_of l leg i p q a =
    cash_of-put l leg.account_id a _ ∙ (elim (Bool-cases (leg.account_id == a)) [
      | inl same ↦
          let key : leg.account_id ≡ a = (==_iff leg.account_id a).0 same in
          rw (same) (
            ap (λ (c : Balance). c -ℤ notional q p)
              (slice-cash_total l leg buy i q ∙ ap (cash_of l) key))
      | inr other ↦ rw (other) refl
    ])

settle_sell-cash_of :
    (l : Ledger) (leg : TradeCounterparty) (i : ℕ) (p : Price) (q : Quantity) (a : ℕ)
    → cash_of (settle_leg l leg sell i p q) a
      ≡ (if leg.account_id == a then cash_of l a +ℤ notional q p else cash_of l a)
unfolding settle_leg settle
settle_sell-cash_of l leg i p q a =
    cash_of-put l leg.account_id a _ ∙ (elim (Bool-cases (leg.account_id == a)) [
      | inl same ↦
          let key : leg.account_id ≡ a = (==_iff leg.account_id a).0 same in
          rw (same) (
            ap (λ (c : Balance). c +ℤ notional q p)
              (slice-cash_total l leg sell i q ∙ ap (cash_of l) key))
      | inr other ↦ rw (other) refl
    ])

apply-cash_of :
    (l : Ledger) (event : ExchangeEvent) (a : ℕ)
    → cash_of (apply l event) a ≡ cash_after event a (cash_of l a)
unfolding apply on_order_accepted on_order_replaced on_order_cancelled on_trade_executed
apply-cash_of l (order_accepted event) a = elim (Bool-cases (not (is_gtc event.time_in_force))) [
  | inl h ↦ rw (h) refl
  | inr h ↦ rw (h) (open_hold-cash_of _ _ _ a _)
]
apply-cash_of l (order_replaced event) a =
    elim (Option-cases (find_hold l event.account_id event.original_client_order_id)) [
      | inl h ↦ rw (apply, on_order_replaced, h) refl
      | inr (old_hold, h) ↦
          rw (apply, on_order_replaced, h)
            (open_hold-cash_of _ _ _ a _
              ∙ close_hold-cash_of l event.account_id event.original_client_order_id a old_hold)
    ]
apply-cash_of l (order_cancelled event) a =
    elim (Option-cases (find_hold l event.account_id event.client_order_id)) [
      | inl h ↦ rw (apply, on_order_cancelled, h) refl
      | inr (hold, h) ↦
          rw (apply, on_order_cancelled, h)
            (close_hold-cash_of l event.account_id event.client_order_id a hold)
    ]
apply-cash_of l (trade_executed event) a =
    settle_sell-cash_of _ event.seller event.instrument_id event.price event.quantity a
    ∙ ap
        (λ (c : Balance).
          if event.seller.account_id == a then c +ℤ notional event.quantity event.price else c)
        (settle_buy-cash_of l event.buyer event.instrument_id event.price event.quantity a)
apply-cash_of l (order_rejected event) a = refl
apply-cash_of l (book_order_added event) a = refl
apply-cash_of l (book_order_reduced event) a = refl
apply-cash_of l (book_order_removed event) a = refl

-- A trade takes its notional from the cash of the buyer's account and adds it to the cash of the
-- seller's; no other account's cash changes, no other event changes the cash of any account, and the
-- cash of all accounts together stays the same.
pub apply-cash :
    (l : Ledger) (event : ExchangeEvent) (account_id : ℕ)
    → ((balances (apply l event) account_id).cash_total
        ≡ cash_after event account_id (balances l account_id).cash_total)
      × (total_cash (apply l event).accounts ≡ total_cash l.accounts)
apply-cash l event account_id = (apply-cash_of l event account_id, apply-total_cash l event)
