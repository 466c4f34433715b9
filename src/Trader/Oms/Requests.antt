-- ===== src/Trader/Oms/Requests.antt =====
-- mdh/src/trader/oms/order_management_system.cpp: what a request leaves behind when it does not get
-- out, and while it is in flight.
use cpp_projects.Base.{
  ℕ, ◌≡◌, ◌≢◌, ◌&&◌, refl, sym, ap, ◌∙◌, true, false, Bool-cases, none, some, Option-cases, inl,
  inr, ◌∷◌, arith, ◌==◌,
}
use cpp_projects.Base.Map.{ℕ_key}
use cpp_projects.Types.{Price, Quantity}
use cpp_projects.Trader.Oms.{
  ClientOrder, PendingAction, no_action, cancel_action, replace_action, OrderManagementSystem,
  Sender, is_live, is_idle, order, change, with_action, requestable, clear_pending_action,
  cancel_order, replace_order,
}
use cpp_projects.Trader.Oms.Changes.{order-change_self, order-change_ne}
use cpp_projects.Wire.OrderEntry
use cpp_projects.Wire.OrderEntry.{Message}

idle_iff : (a : PendingAction) → is_idle a ≡ true → a ≡ no_action
idle_iff no_action h = refl
idle_iff cancel_action h = cc
idle_iff replace_action h = cc

-- What is requestable is there and has nothing in flight.
pub requestable-idle :
    (o : OrderManagementSystem) (id : ℕ) (c : ClientOrder)
    → requestable o id ≡ some c
    → (order o id ≡ some c) × (c.pending_action ≡ no_action)
unfolding requestable
requestable-idle o id c h = elim (Option-cases (order o id)) [
  | inl missing ↦ absurd (ground (arith, missing))
  | inr (d, found) ↦ elim (Bool-cases (is_live d.state && is_idle d.pending_action)) [
    | inl may ↦
        let same : d ≡ c = ground (arith, found, may) in
        rw (← same) (found, idle_iff d.pending_action (ground (arith, may)))
    | inr may_not ↦ absurd (ground (arith, found, may_not))
  ]
]

-- The order with its request taken back.
taken_back :
    (a : PendingAction) (c : ClientOrder)
    → c.pending_action ≡ no_action
    → with_action no_action (with_action a c) ≡ c
taken_back a c idle = ap (λ p. with_action p c) (sym idle)

pub change_back :
    (id : ℕ) (a : PendingAction) (o : OrderManagementSystem) (c : ClientOrder)
    (o' : OrderManagementSystem)
    → (order o id ≡ some c) × (c.pending_action ≡ no_action)
    → order o' id ≡ some (with_action a c)
    → (j : ℕ) → (j ≢ id → order o' j ≡ order o j)
    → order (clear_pending_action id o') j ≡ order o j
unfolding clear_pending_action
change_back id a o c o' found here j others = elim (Bool-cases (j == id)) [
  | inl same ↦
      let eq : j ≡ id = ground (arith, same) in
      rw (eq) (
        order-change_self id (with_action no_action) o' (with_action a c) here
        ∙ ap some (taken_back a c found.1)
        ∙ sym found.0)
  | inr other ↦
      let ne : j ≢ id = λ eq. ground (arith, other, eq) in
      order-change_ne id (with_action no_action) o' j ne ∙ others ne
]

-- A cancel that was not sent leaves every order as it was.
pub cancel_order-refused :
    (sender : Sender) (id : ℕ) (o : OrderManagementSystem) (j : ℕ)
    → (cancel_order sender id o).0 ≡ false
    → order (cancel_order sender id o).1 j ≡ order o j
unfolding cancel_order
cancel_order-refused sender id o j h = elim (Option-cases (requestable o id)) [
  | inl refused ↦ rw (cancel_order, refused) refl
  | inr (c, may) ↦
      let found = requestable-idle o id c may in
      let m = OrderEntry.cancel_order (record {
        account_id = o.account_id;
        client_order_id = id;
        instrument_id = c.instrument_id;
      }) in
      elim (Bool-cases (sender m)) [
        | inl out ↦
            let sent : (cancel_order sender id o).0 ≡ true = rw (cancel_order, may, out) refl in
            absurd cc
        | inr lost ↦
            rw (cancel_order, may, lost)
              (change_back id cancel_action o c _ found
                (order-change_self id (with_action cancel_action) o c found.0) j
                (order-change_ne id (with_action cancel_action) o j))
      ]
]

-- An order with a request in flight is not requestable.
pub busy-requestable :
    (id : ℕ) (o : OrderManagementSystem) (c : ClientOrder)
    → order o id ≡ some c
    → is_idle c.pending_action ≡ false
    → requestable o id ≡ none
unfolding requestable
busy-requestable id o c found busy = elim (Bool-cases (is_live c.state)) [
  | inl alive ↦ rw (requestable, found, alive, busy) refl
  | inr dead ↦ rw (requestable, found, dead) refl
]

refused-replace_order :
    (sender : Sender) (id : ℕ) (new_price : Price) (new_quantity : Quantity)
    (o : OrderManagementSystem)
    → requestable o id ≡ none
    → replace_order sender id new_price new_quantity o ≡ (none, o)
unfolding replace_order
refused-replace_order sender id new_price new_quantity o h = rw (replace_order, h) refl

cancelling-requestable :
    (sender : Sender) (id : ℕ) (o : OrderManagementSystem)
    → (cancel_order sender id o).0 ≡ true
    → requestable (cancel_order sender id o).1 id ≡ none
unfolding cancel_order
cancelling-requestable sender id o h = elim (Option-cases (requestable o id)) [
  | inl refused ↦
      let unsent : (cancel_order sender id o).0 ≡ false = rw (cancel_order, refused) refl in
      absurd cc
  | inr (c, may) ↦
      let found = requestable-idle o id c may in
      let m = OrderEntry.cancel_order (record {
        account_id = o.account_id;
        client_order_id = id;
        instrument_id = c.instrument_id;
      }) in
      elim (Bool-cases (sender m)) [
        | inl out ↦
            rw (cancel_order, may, out)
              (busy-requestable id
                (record (change id (with_action cancel_action) o).0 {
                  sent = m ∷ (change id (with_action cancel_action) o).0.sent;
                })
                (with_action cancel_action c)
                (order-change_self id (with_action cancel_action) o c found.0) refl)
        | inr lost ↦
            let unsent : (cancel_order sender id o).0 ≡ false = rw (cancel_order, may, lost) refl in
            absurd cc
      ]
]

-- Once a cancel was sent, no further cancel or replacement of the order is: both are refused and
-- change nothing.
pub cancel_order-in_flight :
    (sender later : Sender) (id : ℕ) (o : OrderManagementSystem) (new_price : Price)
    (new_quantity : Quantity)
    → (cancel_order sender id o).0 ≡ true
    → let o' = (cancel_order sender id o).1 in
      (cancel_order later id o' ≡ (false, o'))
      × (replace_order later id new_price new_quantity o' ≡ (none, o'))
unfolding cancel_order
cancel_order-in_flight sender later id o new_price new_quantity h =
    let busy = cancelling-requestable sender id o h in
    (rw (cancel_order, busy) refl, refused-replace_order later id new_price new_quantity _ busy)
