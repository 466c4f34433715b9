-- ===== src/Exchange/Ledger/Total.antt =====
-- mdh/src/exchange/ledger/ledger.cpp: what the events do to the cash of all accounts together.
use cpp_projects.Base.{
  ℕ, ◌≡◌, refl, sym, ap, ◌∙◌, Bool-cases, Option-cases, inl, inr, Option, none, some, List, [], ◌∷◌,
  arith, ◌==◌, not,
}
use cpp_projects.Base.Int.{ℤ, pos, ◌+ℤ◌, ◌-ℤ◌, +ℤ_comm, +ℤ_assoc, int_laws, eq_of_parts}
use cpp_projects.Base.Map.{ℕ_key, pair_key, find, insert_or_assign, erase}
use cpp_projects.Types.{Price, Quantity, Side, is_buy, buy, sell}
use cpp_projects.Exchange.Core.{is_gtc}
use cpp_projects.Exchange.Events.{
  ExchangeEvent, TradeCounterparty, order_accepted, order_rejected, order_replaced, order_cancelled,
  trade_executed, book_order_added, book_order_reduced, book_order_removed,
}
use cpp_projects.Exchange.Ledger.{
  Balance, AccountBalances, no_balances, Hold, Ledger, or_else, balances, put_balances, notional,
  reserve, open_hold, unreserve, release_hold_fully, release_slice, settle, settle_leg, close_hold,
  find_hold, on_order_accepted, on_order_replaced, on_order_cancelled, on_trade_executed, apply,
}

-- The cash of all accounts.
abbrev pub total_cash : List (ℕ × AccountBalances) → Balance
total_cash [] = pos 0
total_cash ((account_id, b) ∷ accounts) = b.cash_total +ℤ total_cash accounts

-- x, y, z stand for what changes places.
swap_heads : (x y t : ℤ) → (x +ℤ t) +ℤ y ≡ (y +ℤ t) +ℤ x
swap_heads x y t = eq_of_parts _ _ (omega int_laws)

under_head : (w t' c t d : ℤ) → t' +ℤ c ≡ t +ℤ d → (w +ℤ t') +ℤ c ≡ (w +ℤ t) +ℤ d
under_head w t' c t d h = +ℤ_assoc w t' c ∙ ap (λ s. w +ℤ s) h ∙ sym (+ℤ_assoc w t d)

total_cash-put :
    (accounts : List (ℕ × AccountBalances)) (k : ℕ) (b : AccountBalances)
    → total_cash (insert_or_assign k b accounts)
        +ℤ (or_else no_balances (find k accounts)).cash_total
      ≡ total_cash accounts +ℤ b.cash_total
unfolding find insert_or_assign
total_cash-put [] k b = eq_of_parts _ _ (omega int_laws)
total_cash-put ((j, w) ∷ accounts) k b = elim (Bool-cases (j == k)) [
  | inl h ↦ rw (h) (swap_heads b.cash_total w.cash_total (total_cash accounts))
  | inr h ↦ rw (h) (under_head w.cash_total _ _ _ _ (total_cash-put accounts k b))
]

cancel : (t' t c : ℤ) → t' +ℤ c ≡ t +ℤ c → t' ≡ t
unfolding ◌+ℤ◌
cancel t' t c h = ground arith

move : (t' t c d : ℤ) → t' +ℤ c ≡ t +ℤ (c +ℤ d) → t' ≡ t +ℤ d
move t' t c d h = cancel t' (t +ℤ d) c (h ∙ ap (λ s. t +ℤ s) (+ℤ_comm c d) ∙ sym (+ℤ_assoc t d c))

cash : Ledger → Balance
cash l = total_cash l.accounts

-- A change of an account's balances that leaves its cash leaves the total.
keep :
    (l : Ledger) (k : ℕ) (b : AccountBalances)
    → b.cash_total ≡ (balances l k).cash_total
    → total_cash (put_balances l k b).accounts ≡ total_cash l.accounts
unfolding find insert_or_assign
keep l k b h =
    cancel _ _ (balances l k).cash_total
      (total_cash-put l.accounts k b ∙ ap (λ s. total_cash l.accounts +ℤ s) h)

back : (t' t c n : ℤ) → t' +ℤ c ≡ t +ℤ (c -ℤ n) → t' +ℤ n ≡ t
back t' t c n h = cancel (t' +ℤ n) t c (
    swap_tails t' n c ∙ ap (λ s. s +ℤ n) h ∙ +ℤ_assoc t (c -ℤ n) n ∙ ap (λ s. t +ℤ s) (restore c n))
  where
    swap_tails : (x y z : ℤ) → (x +ℤ y) +ℤ z ≡ (x +ℤ z) +ℤ y
    swap_tails x y z = eq_of_parts _ _ (omega int_laws)

    restore : (x y : ℤ) → (x -ℤ y) +ℤ y ≡ x
    restore x y = eq_of_parts _ _ (omega int_laws)

pub reserve-cash_total :
    (hold : Hold) (b : AccountBalances) → (reserve hold b).cash_total ≡ b.cash_total
reserve-cash_total hold b = elim (Bool-cases (is_buy hold.side)) [
  | inl h ↦ rw (h) refl
  | inr h ↦ rw (h) refl
]

pub unreserve-cash_total :
    (side : Side) (i : ℕ) (p : Price) (q : Quantity) (b : AccountBalances)
    → (unreserve side i p q b).cash_total ≡ b.cash_total
unreserve-cash_total buy i p q b = refl
unreserve-cash_total sell i p q b = refl

release_slice-cash_total :
    (hold : Option Hold) (side : Side) (i : ℕ) (q : Quantity) (b : AccountBalances)
    → (release_slice hold side i q b).cash_total ≡ b.cash_total
release_slice-cash_total none side i q b = refl
release_slice-cash_total (some hold) side i q b = unreserve-cash_total side i hold.limit_price q b

open_hold-cash :
    (l : Ledger) (account_id client_order_id : ℕ) (hold : Hold)
    → cash (open_hold l account_id client_order_id hold) ≡ cash l
unfolding open_hold cash insert_or_assign
open_hold-cash l account_id client_order_id hold = elim (Bool-cases (hold.remaining == 0)) [
  | inl h ↦ rw (h) refl
  | inr h ↦ rw (h) (keep l account_id _ (reserve-cash_total hold (balances l account_id)))
]

close_hold-cash :
    (l : Ledger) (account_id client_order_id : ℕ) (hold : Hold)
    → cash (close_hold l account_id client_order_id hold) ≡ cash l
unfolding release_hold_fully cash erase
close_hold-cash l account_id client_order_id hold = elim (Bool-cases (hold.remaining == 0)) [
  | inl h ↦ rw (h) refl
  | inr h ↦ rw (h) (
      keep l account_id _ (
        unreserve-cash_total hold.side hold.instrument_id hold.limit_price hold.remaining
          (balances l account_id)))
]

pub slice-cash_total :
    (l : Ledger) (leg : TradeCounterparty) (side : Side) (i : ℕ) (q : Quantity)
    → (release_slice
        (find_hold l leg.account_id leg.client_order_id)
        side
        i
        q
        (balances l leg.account_id)).cash_total
      ≡ (balances l leg.account_id).cash_total
slice-cash_total l leg side i q =
    release_slice-cash_total (find_hold l leg.account_id leg.client_order_id) side i q
      (balances l leg.account_id)

settle_buy-cash :
    (l : Ledger) (leg : TradeCounterparty) (i : ℕ) (p : Price) (q : Quantity)
    → cash (settle_leg l leg buy i p q) +ℤ notional q p ≡ cash l
unfolding settle_leg settle cash insert_or_assign find
settle_buy-cash l leg i p q = back _ _ (balances l leg.account_id).cash_total (notional q p) (
    total_cash-put l.accounts leg.account_id _
    ∙ ap (λ s. cash l +ℤ (s -ℤ notional q p)) (slice-cash_total l leg buy i q))

settle_sell-cash :
    (l : Ledger) (leg : TradeCounterparty) (i : ℕ) (p : Price) (q : Quantity)
    → cash (settle_leg l leg sell i p q) ≡ cash l +ℤ notional q p
unfolding settle_leg settle cash insert_or_assign find
settle_sell-cash l leg i p q = move _ _ (balances l leg.account_id).cash_total (notional q p) (
    total_cash-put l.accounts leg.account_id _
    ∙ ap (λ s. cash l +ℤ (s +ℤ notional q p)) (slice-cash_total l leg sell i q))

-- No event changes the cash of all accounts together.
pub apply-total_cash :
    (l : Ledger) (event : ExchangeEvent)
    → total_cash (apply l event).accounts ≡ total_cash l.accounts
unfolding apply on_order_accepted on_order_replaced on_order_cancelled on_trade_executed cash
apply-total_cash l (order_accepted event) = elim (Bool-cases (not (is_gtc event.time_in_force))) [
  | inl h ↦ rw (h) refl
  | inr h ↦ rw (h) (open_hold-cash _ _ _ _)
]
apply-total_cash l (order_replaced event) =
    elim (Option-cases (find_hold l event.account_id event.original_client_order_id)) [
      | inl h ↦ rw (apply, on_order_replaced, h) refl
      | inr (old_hold, h) ↦
          rw (apply, on_order_replaced, h)
            (open_hold-cash _ _ _ _
              ∙ close_hold-cash l event.account_id event.original_client_order_id old_hold)
    ]
apply-total_cash l (order_cancelled event) =
    elim (Option-cases (find_hold l event.account_id event.client_order_id)) [
      | inl h ↦ rw (apply, on_order_cancelled, h) refl
      | inr (hold, h) ↦
          rw (apply, on_order_cancelled, h)
            (close_hold-cash l event.account_id event.client_order_id hold)
    ]
apply-total_cash l (trade_executed event) =
    settle_sell-cash _ event.seller event.instrument_id event.price event.quantity
    ∙ settle_buy-cash l event.buyer event.instrument_id event.price event.quantity
apply-total_cash l (order_rejected event) = refl
apply-total_cash l (book_order_added event) = refl
apply-total_cash l (book_order_reduced event) = refl
apply-total_cash l (book_order_removed event) = refl
