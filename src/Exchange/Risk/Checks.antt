-- ===== src/Exchange/Risk/Checks.antt =====
-- mdh/src/exchange/risk/risk_engine.cpp: which orders and replacements the checks accept.
use cpp_projects.Base.{
  ℕ, ◌-◌, ◌≤◌, ◌≡◌, ◌≢◌, refl, ◌⊎◌, Bool, true, false, arith, not, Bool-cases, inl, inr, Option,
  none, some, ltb, ◌==◌, ==_iff, if◌then◌else◌,
}
use cpp_projects.Base.Int.{ℤ, pos, ◌-ℤ◌, ◌≤ℤ◌, ltb_ℤ}
use cpp_projects.Types.{Side, is_buy, buy, sell}
use cpp_projects.Exchange.Core.{
  ExchangeCommand, NewOrderCommand, ReplaceOrderCommand, new_order, cancel_order, replace_order,
  RejectReason, accepted, insufficient_funds, insufficient_position, order_too_large,
}
use cpp_projects.Exchange.Engine.State.{MatchingEngine, knows_instrument}
use cpp_projects.Exchange.Ledger.{
  Ledger, Hold, available_cash, available_position, notional, find_hold,
}
use cpp_projects.Exchange.Risk.{
  RiskLimits, check_new_order, check_credited, check_replace_order, at_least_zero,
}

-- What an order needs is available: cash for a buy, units for a sell.
abbrev Covers : Side → ℤ → ℕ → ℤ → ℕ → Type 0
Covers buy cash units needed_cash needed_units = needed_cash ≤ℤ cash
Covers sell cash units needed_cash needed_units = needed_units ≤ units

-- What a replacement needs beyond the hold of the order that it replaces, and no debt. Without a
-- hold, or with one for another instrument, it is left to the engine.
abbrev Credited : Option Hold → Ledger → ReplaceOrderCommand → Type 0
Credited none l cmd = Unit
Credited (some hold) l cmd =
    (hold.instrument_id ≢ cmd.instrument_id)
    ⊎ (Covers hold.side (available_cash l cmd.account_id)
          (available_position l cmd.account_id cmd.instrument_id)
          (notional cmd.new_quantity cmd.new_price -ℤ notional hold.remaining hold.limit_price)
          (cmd.new_quantity - hold.remaining)
        × Covers hold.side (available_cash l cmd.account_id)
            (available_position l cmd.account_id cmd.instrument_id) (pos 0) 0)

abbrev pub Fits : RiskLimits → Ledger → NewOrderCommand → Type 0
Fits limits l cmd =
    (cmd.quantity ≤ limits.max_order_quantity)
    × Covers cmd.side (available_cash l cmd.account_id)
        (available_position l cmd.account_id cmd.instrument_id) (notional cmd.quantity cmd.price)
        cmd.quantity

abbrev pub FitsReplaced : RiskLimits → Ledger → ReplaceOrderCommand → Type 0
FitsReplaced limits l cmd =
    (cmd.new_quantity ≤ limits.max_order_quantity)
    × Credited (find_hold l cmd.account_id cmd.original_client_order_id) l cmd

-- The engine has the instrument, the quantity is within the limit, and what the order needs is
-- available to its account.
abbrev pub Allows : RiskLimits → MatchingEngine → Ledger → ExchangeCommand → Type 0
Allows limits e l (new_order cmd) =
    (knows_instrument e cmd.instrument_id ≡ true) × Fits limits l cmd
Allows limits e l (cancel_order cmd) = Unit
Allows limits e l (replace_order cmd) =
    (knows_instrument e cmd.instrument_id ≡ true) × FitsReplaced limits l cmd

-- A check accepts what has the property, and nothing else.
abbrev pub Decides : RejectReason → Type 0 → Type 0
Decides reason A = ((reason ≡ accepted) × A) ⊎ ((reason ≢ accepted) × ¬ A)

guard_lem :
    {A B : Type 0} (failed : Bool) (reason rest : RejectReason)
    → reason ≢ accepted
    → (failed ≡ true → ¬ A)
    → (failed ≡ false → A)
    → Decides rest B
    → Decides (if failed then reason else rest) (A × B)
guard_lem true reason rest bad refutes proves d = inr (bad, λ h. refutes refl h.0)
guard_lem false reason rest bad refutes proves (inl d) = inl (d.0, (proves refl, d.1))
guard_lem false reason rest bad refutes proves (inr d) = inr (d.0, λ h. d.1 h.1)

test_lem :
    {A : Type 0} (failed : Bool) (reason : RejectReason)
    → reason ≢ accepted
    → (failed ≡ true → ¬ A)
    → (failed ≡ false → A)
    → Decides (if failed then reason else accepted) A
test_lem true reason bad refutes proves = inr (bad, refutes refl)
test_lem false reason bad refutes proves = inl (refl, proves refl)

or_lem : {A B : Type 0} (reason : RejectReason) → ¬ A → Decides reason B → Decides reason (A ⊎ B)
or_lem reason other (inl (e, b)) = inl (e, inr b)
or_lem reason other (inr (bad, refuted)) =
    inr (bad, λ h. elim h [ inl a ↦ other a | inr b ↦ refuted b ])

covers_lem :
    (side : Side) (cash : ℤ) (units : ℕ) (needed_cash : ℤ) (needed_units : ℕ)
    → Decides
        (if is_buy side
          then if ltb_ℤ cash needed_cash then insufficient_funds else accepted
          else if ltb units needed_units
          then insufficient_position
          else accepted)
        (Covers side cash units needed_cash needed_units)
covers_lem buy cash units needed_cash needed_units =
    test_lem (ltb_ℤ cash needed_cash) insufficient_funds (λ e. absurd (cc))
      (λ f g. absurd (ground arith)) (λ f. ground arith)
covers_lem sell cash units needed_cash needed_units =
    test_lem (ltb units needed_units) insufficient_position (λ e. absurd (cc))
      (λ f g. absurd (ground arith)) (λ f. ground arith)

extra_lem :
    (side : Side) (cash : ℤ) (units : ℕ) (extra : ℤ) (now before : ℕ)
    → Decides
        (if is_buy side
          then if ltb_ℤ cash (at_least_zero extra) then insufficient_funds else accepted
          else if ltb units (if ltb before now then now - before else 0)
          then insufficient_position
          else accepted)
        (Covers side cash units extra (now - before) × Covers side cash units (pos 0) 0)
extra_lem buy cash units extra now before =
    test_lem (ltb_ℤ cash (at_least_zero extra)) insufficient_funds (λ e. absurd (cc))
      (λ f g. absurd (ground arith)) (λ f. ground arith)
extra_lem sell cash units extra now before =
    test_lem (ltb units (if ltb before now then now - before else 0)) insufficient_position
      (λ e. absurd (cc)) (λ f g. absurd (ground arith)) (λ f. ground arith)

pub new_order_lem :
    (limits : RiskLimits) (cmd : NewOrderCommand) (l : Ledger)
    → Decides (check_new_order limits cmd l) (Fits limits l cmd)
unfolding check_new_order
new_order_lem limits cmd l =
    guard_lem (ltb limits.max_order_quantity cmd.quantity) order_too_large _ (λ e. absurd (cc))
      (λ f g. absurd (ground arith)) (λ f. ground arith) (covers_lem cmd.side _ _ _ _)

credited_lem :
    (hold : Option Hold) (cmd : ReplaceOrderCommand) (l : Ledger)
    → Decides
        (elim hold [
          | none ↦ accepted
          | some h ↦
              if not (h.instrument_id == cmd.instrument_id)
              then accepted
              else check_credited cmd l h
        ])
        (Credited hold l cmd)
unfolding check_credited
credited_lem none cmd l = inl (refl, tt)
credited_lem (some h) cmd l = elim (Bool-cases (h.instrument_id == cmd.instrument_id)) [
  | inl same ↦ rw (same) (
      or_lem _ (λ ne. ne ((==_iff h.instrument_id cmd.instrument_id).0 same))
        (extra_lem h.side _ _ _ cmd.new_quantity h.remaining))
  | inr other ↦ rw (other) (inl (refl, inl (λ e. absurd (ground arith))))
]

pub replace_order_lem :
    (limits : RiskLimits) (cmd : ReplaceOrderCommand) (l : Ledger)
    → Decides (check_replace_order limits cmd l) (FitsReplaced limits l cmd)
unfolding check_replace_order
replace_order_lem limits cmd l =
    guard_lem (ltb limits.max_order_quantity cmd.new_quantity) order_too_large _ (λ e. absurd (cc))
      (λ f g. absurd (ground arith)) (λ f. ground arith)
      (credited_lem (find_hold l cmd.account_id cmd.original_client_order_id) cmd l)
