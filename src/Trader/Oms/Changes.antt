-- ===== src/Trader/Oms/Changes.antt =====
-- mdh/src/trader/oms/order_management_system.cpp: what a locked section on one order finds and leaves.
use cpp_projects.Base.{
  ℕ, Bool, false, ◌||◌, ◌==◌, ◌≡◌, ◌≢◌, refl, ap, ◌∙◌, Option, none, some, Option-cases, inl, inr,
}
use cpp_projects.Base.Lookups.{find-insert_self, find-insert_ne}
use cpp_projects.Base.Map.{ℕ_key, insert_or_assign}
use cpp_projects.Trader.Oms.{
  ClientOrder, OrderManagementSystem, order, change, notify, change_and_notify,
}
use cpp_projects.Wire.OrderEntry
use cpp_projects.Wire.OrderEntry.{Message}

module _ (id : ℕ) (f : ClientOrder → ClientOrder) (o : OrderManagementSystem) where
  pub change-missing : order o id ≡ none → change id f o ≡ (o, none)
  unfolding change
  change-missing missing = rw (change, missing) refl

  pub change-found :
      (c : ClientOrder)
      → order o id ≡ some c
      → change id f o ≡ (record o { orders = insert_or_assign id (f c) o.orders }, some (f c))
  unfolding change
  change-found c found = rw (change, found) refl

  pub order-change_self :
      (c : ClientOrder) → order o id ≡ some c → order (change id f o).0 id ≡ some (f c)
  order-change_self c found =
      ap (λ r. order r.0 id) (change-found c found) ∙ find-insert_self id (f c) o.orders

  pub order-change_ne : (j : ℕ) → j ≢ id → order (change id f o).0 j ≡ order o j
  order-change_ne j ne = elim (Option-cases (order o id)) [
    | inl missing ↦ ap (λ r. order r.0 j) (change-missing missing)
    | inr (c, found) ↦
        ap (λ r. order r.0 j) (change-found c found) ∙ find-insert_ne j id (f c) o.orders ne
  ]

  -- The account and the ids that are left stay.
  pub ids-change :
      ((change id f o).0.account_id ≡ o.account_id)
      × ((change id f o).0.next_client_order_id ≡ o.next_client_order_id)
  ids-change = elim (Option-cases (order o id)) [
    | inl missing ↦ rw (change-missing missing) (refl, refl)
    | inr (c, found) ↦ rw (change-found c found) (refl, refl)
  ]

pub order-notify :
    (updated : Option ClientOrder) (o : OrderManagementSystem) (j : ℕ)
    → order (notify updated o) j ≡ order o j
order-notify none o j = refl
order-notify (some c) o j = refl

pub order-change_and_notify :
    (id : ℕ) (f : ClientOrder → ClientOrder) (o : OrderManagementSystem) (j : ℕ)
    → j ≢ id
    → order (change_and_notify id f o) j ≡ order o j
order-change_and_notify id f o j ne =
    order-notify (change id f o).1 (change id f o).0 j ∙ order-change_ne id f o j ne

-- The orders that a message from the gateway names.
abbrev pub names : Message → ℕ → Bool
names (OrderEntry.accepted event) j = event.client_order_id == j
names (OrderEntry.rejected event) j = event.client_order_id == j
names (OrderEntry.cancelled event) j = event.client_order_id == j
names (OrderEntry.replaced event) j =
    (event.original_client_order_id == j) || (event.new_client_order_id == j)
names (OrderEntry.trade_report event) j = event.client_order_id == j
names (OrderEntry.new_order event) j = false
names (OrderEntry.cancel_order event) j = false
names (OrderEntry.replace_order event) j = false
