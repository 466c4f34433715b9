-- ===== src/Trader/Oms/Replacements.antt =====
-- mdh/src/trader/oms/order_management_system.cpp: replacements.
use mathlib.Core.Path.{subst}
use cpp_projects.Base.{
  ℕ, ◌+◌, ◌<◌, ◌^◌, ◌≡◌, ◌≢◌, refl, sym, ap, ◌∙◌, Bool-cases, none, some, Option-cases, inl, inr,
  ◌∷◌, arith, ◌==◌,
}
use cpp_projects.Base.Entries.{AllEntries-find}
use cpp_projects.Base.Lookups.{
  find-insert_self, find-insert_ne, find-erase_self, find-erase_ne, try_emplace-free,
}
use cpp_projects.Base.Map.{ℕ_key, find, insert_or_assign, erase, try_emplace}
use cpp_projects.Types.{Price, Quantity}
use cpp_projects.Trader.Oms.{
  ClientOrder, pending_new, replace_action, OrderManagementSystem, Sender, order, change,
  with_action, requestable, register, replacement, replace_order, handle_message, after_rejected,
}
use cpp_projects.Trader.Oms.Changes.{
  ids-change, order-change_and_notify, order-change_self, order-change_ne,
}
use cpp_projects.Trader.Oms.Requests.{requestable-idle, change_back}
use cpp_projects.Trader.Oms.Tracked.{IsConsistent, IsTracked}
use cpp_projects.Trader.Oms.Consistent.{order-next_id}
use cpp_projects.Wire.OrderEntry
use cpp_projects.Wire.OrderEntry.{Message}

abbrev replace_message : OrderManagementSystem → ℕ → ClientOrder → Price → Quantity → Message
replace_message o id c new_price new_quantity = OrderEntry.replace_order (record {
  account_id = o.account_id;
  original_client_order_id = id;
  new_client_order_id = o.next_client_order_id;
  instrument_id = c.instrument_id;
  new_price = new_price;
  new_quantity = new_quantity;
})

-- The registered replacement is under an id of its own, and the order is still there.
module _ (id : ℕ) (new_price : Price) (new_quantity : Quantity) (o : OrderManagementSystem)
    (c : ClientOrder) where
  abbrev requested : OrderManagementSystem
  requested = (change id (with_action replace_action) o).0

  abbrev registered : OrderManagementSystem
  registered = register (replacement c o.account_id new_price new_quantity) requested

  module _ (few : o.next_client_order_id + 1 < 2 ^ 64) (w : IsConsistent o)
      (found : order o id ≡ some c) where
    below : id < o.next_client_order_id
    below =
        (AllEntries-find (IsTracked o.account_id o.next_client_order_id) id o.orders c w.orders
          found).given_out

    registered-orders :
        registered.orders
        ≡ insert_or_assign o.next_client_order_id
            (replacement c o.account_id new_price new_quantity o.next_client_order_id)
            requested.orders
    registered-orders =
        let free =
          order-change_ne id (with_action replace_action) o o.next_client_order_id
            (λ eq. omega (arith, eq, below))
          ∙ (order-next_id o w) in
        let same = (ids-change id (with_action replace_action) o).1 in
        subst
          (λ n.
            try_emplace n (replacement c o.account_id new_price new_quantity n) requested.orders
            ≡ insert_or_assign o.next_client_order_id
                (replacement c o.account_id new_price new_quantity o.next_client_order_id)
                requested.orders)
          (sym same) (try_emplace-free o.next_client_order_id _ requested.orders free)

    found_in-registered :
        (j : ℕ) → j ≢ o.next_client_order_id → find j registered.orders ≡ order requested j
    found_in-registered j ne =
        ap (find j) registered-orders
        ∙ find-insert_ne j o.next_client_order_id _ requested.orders ne

    abbrev withdrawn : OrderManagementSystem
    withdrawn = record registered { orders = erase o.next_client_order_id registered.orders }

    order-withdrawn : (j : ℕ) → j ≢ o.next_client_order_id → order withdrawn j ≡ order requested j
    order-withdrawn j ne =
        find-erase_ne j o.next_client_order_id registered.orders ne ∙ found_in-registered j ne

    withdrawn-others : (j : ℕ) → j ≢ id → order withdrawn j ≡ order o j
    withdrawn-others j other = elim (Bool-cases (j == o.next_client_order_id)) [
      | inl same ↦
          let eq : j ≡ o.next_client_order_id = ground (arith, same) in
          rw (eq)
            (find-erase_self o.next_client_order_id registered.orders ∙ sym (order-next_id o w))
      | inr ne ↦
          order-withdrawn j (λ eq. ground (arith, ne, eq))
          ∙ order-change_ne id (with_action replace_action) o j other
    ]

-- A replacement that was not sent leaves every order as it was, the new id's included, while fewer than
-- 2 ^ 64 - 1 ids were given out.
pub replace_order-refused :
    (sender : Sender) (id : ℕ) (new_price : Price) (new_quantity : Quantity)
    (o : OrderManagementSystem) (j : ℕ)
    → o.next_client_order_id + 1 < 2 ^ 64
    → IsConsistent o
    → (replace_order sender id new_price new_quantity o).0 ≡ none
    → order (replace_order sender id new_price new_quantity o).1 j ≡ order o j
unfolding replace_order
replace_order-refused sender id new_price new_quantity o j few w h =
    elim (Option-cases (requestable o id)) [
      | inl refused ↦ rw (replace_order, refused) refl
      | inr (c, may) ↦
          let found = requestable-idle o id c may in
          elim (Bool-cases (sender (replace_message o id c new_price new_quantity))) [
            | inl out ↦
                let sent : (replace_order sender id new_price new_quantity o).0
                    ≡ some o.next_client_order_id =
                  rw (replace_order, may, out) refl in
                absurd cc
            | inr lost ↦
                let below = below id new_price new_quantity o c few w found.0 in
                rw (replace_order, may, lost)
                  (change_back id replace_action o c
                    (withdrawn id new_price new_quantity o c few w found.0) found
                    (order-withdrawn id new_price new_quantity o c few w found.0 id
                        (λ eq. omega (arith, eq, below))
                      ∙ order-change_self id (with_action replace_action) o c found.0)
                    j (withdrawn-others id new_price new_quantity o c few w found.0 j))
          ]
    ]

-- After a replacement was sent, a rejection that names the order to be replaced leaves the order of
-- the new id pending, while fewer than 2 ^ 64 - 1 ids were given out.
pub rejected-replace_order :
    (sender : Sender) (id : ℕ) (new_price : Price) (new_quantity : Quantity)
    (o : OrderManagementSystem) (new_id : ℕ) (event : OrderEntry.Rejected)
    → o.next_client_order_id + 1 < 2 ^ 64
    → IsConsistent o
    → (replace_order sender id new_price new_quantity o).0 ≡ some new_id
    → event.client_order_id ≡ id
    → let o' =
        handle_message
          (OrderEntry.rejected event)
          (replace_order sender id new_price new_quantity o).1 in
      (c : ClientOrder) × (order o' new_id ≡ some c) × (c.state ≡ pending_new)
unfolding replace_order handle_message
rejected-replace_order sender id new_price new_quantity o new_id event few w h names =
    elim (Option-cases (requestable o id)) [
      | inl refused ↦
          let unsent : (replace_order sender id new_price new_quantity o).0 ≡ none =
            rw (replace_order, refused) refl in
          absurd cc
      | inr (c, may) ↦
          let found = requestable-idle o id c may in
          elim (Bool-cases (sender (replace_message o id c new_price new_quantity))) [
            | inl out ↦
                let sent : (replace_order sender id new_price new_quantity o).0
                    ≡ some o.next_client_order_id =
                  rw (replace_order, may, out) refl in
                let same : new_id ≡ o.next_client_order_id = cc in
                let below = below id new_price new_quantity o c few w found.0 in
                let r = registered id new_price new_quantity o c in
                let r' = record r {
                  sent = replace_message o id c new_price new_quantity ∷ r.sent;
                } in
                let new =
                  replacement c o.account_id new_price new_quantity o.next_client_order_id in
                rw (replace_order, may, out, same, names)
                  (
                    new,
                    order-change_and_notify id (after_rejected event) r' o.next_client_order_id
                          (λ eq. omega (arith, eq, below))
                        ∙ ap (find o.next_client_order_id)
                            (registered-orders id new_price new_quantity o c few w found.0)
                        ∙ find-insert_self o.next_client_order_id new
                            (requested id new_price new_quantity o c).orders,
                    refl,
                  )
            | inr lost ↦
                let unsent : (replace_order sender id new_price new_quantity o).0 ≡ none =
                  rw (replace_order, may, lost) refl in
                absurd cc
          ]
    ]
