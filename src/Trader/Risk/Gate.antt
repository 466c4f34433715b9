-- ===== src/Trader/Risk/Gate.antt =====
-- mdh/src/trader/risk/trader_risk_gated_oms.cpp: what a submission that gets past the checks is.
use cpp_projects.Base.{
  ℕ, ◌≤◌, ◌≡◌, ◌⊎◌, refl, true, false, Bool-cases, inl, inr, none, some, arith, ltb,
}
use cpp_projects.Base.Int.{ℤ, ltb_ℤ, ◌≤ℤ◌}
use cpp_projects.Types.{Price, Quantity, Side, is_buy}
use cpp_projects.Exchange.Core.{
  OrderType, TimeInForce, RejectReason, order_too_large, insufficient_funds, insufficient_position,
}
use cpp_projects.Exchange.Ledger.{notional}
use cpp_projects.Trader.Oms.{Sender, submit_new_order}
use cpp_projects.Trader.Positions.{tracked_cash, tracked_position}
use cpp_projects.Trader.Risk.{TraderRiskGatedOms, check, is_refusal, gated_submit}

-- The order is within the limit, and the account covers it.
abbrev pub IsCovered : TraderRiskGatedOms → ℕ → Side → Price → Quantity → Type 0
IsCovered g instrument_id side price quantity =
    (quantity ≤ g.limits.max_order_quantity)
    × (((is_buy side ≡ true) × (notional quantity price ≤ℤ tracked_cash g.positions g.account_id))
        ⊎ ((is_buy side ≡ false)
            × quantity ≤ tracked_position g.positions g.account_id instrument_id))

≤ℤ_of_test : (a b : ℤ) → ltb_ℤ a b ≡ false → b ≤ℤ a
≤ℤ_of_test a b h = ground arith

check-IsCovered :
    (g : TraderRiskGatedOms) (instrument_id : ℕ) (side : Side) (price : Price) (quantity : Quantity)
    → is_refusal (check g.limits g.account_id instrument_id side price quantity g.positions) ≡ false
    → IsCovered g instrument_id side price quantity
unfolding check
check-IsCovered g instrument_id side price quantity h =
    elim (Bool-cases (ltb g.limits.max_order_quantity quantity)) [
      | inl large ↦ absurd (refused order_too_large refl (rw (check, large) refl))
      | inr fits ↦ elim (Bool-cases (is_buy side)) [
        | inl buys ↦
            elim (Bool-cases
              (ltb_ℤ (tracked_cash g.positions g.account_id) (notional quantity price))) [
                | inl poor ↦
                    absurd (refused insufficient_funds refl (rw (check, fits, buys, poor) refl))
                | inr paid ↦ (
                  ground (arith, fits),
                  inl (
                    buys,
                    ≤ℤ_of_test (tracked_cash g.positions g.account_id) (notional quantity price)
                        paid,
                  ),
                )
              ]
        | inr sells ↦
            elim (Bool-cases
              (ltb (tracked_position g.positions g.account_id instrument_id) quantity)) [
                | inl short ↦
                    absurd
                      (refused insufficient_position refl (rw (check, fits, sells, short) refl))
                | inr held ↦ (ground (arith, fits), inr (sells, ground (arith, held)))
              ]
      ]
    ]
  where
    refused :
        (r : RejectReason)
        → is_refusal r ≡ true
        → check g.limits g.account_id instrument_id side price quantity g.positions ≡ r
        → ⊥
    refused r bad eq = cc

-- A submission is refused on the trader's side, with a reason, and changes nothing; or it is the
-- system's own submission, of an order within the limit that the cash or the holdings cover.
pub gated_submit-cases :
    (sender : Sender) (instrument_id : ℕ) (side : Side) (price : Price) (quantity : Quantity)
    (t : OrderType) (tif : TimeInForce) (g : TraderRiskGatedOms)
    → let (outcome, g') = gated_submit sender instrument_id side price quantity t tif g in
      let (id, oms) = submit_new_order sender instrument_id side price quantity t tif g.oms in
      ((outcome.client_order_id ≡ none)
        × (is_refusal outcome.local_reject_reason ≡ true)
        × (g' ≡ g))
      ⊎ ((outcome.client_order_id ≡ some id)
          × (g' ≡ record g { oms = oms })
          × IsCovered g instrument_id side price quantity)
unfolding gated_submit
gated_submit-cases sender instrument_id side price quantity t tif g =
    elim (Bool-cases
      (is_refusal (check g.limits g.account_id instrument_id side price quantity g.positions))) [
        | inl bad ↦ rw (gated_submit, bad) (inl (refl, bad, refl))
        | inr fine ↦
            rw (gated_submit, fine)
              (inr (refl, refl, check-IsCovered g instrument_id side price quantity fine))
      ]
