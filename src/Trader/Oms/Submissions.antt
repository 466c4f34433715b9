-- ===== src/Trader/Oms/Submissions.antt =====
-- mdh/src/trader/oms/order_management_system.cpp: what submit_new_order leaves behind.
use cpp_projects.Base.{
  ℕ, ◌≡◌, ◌⊎◌, refl, ap, ◌∙◌, true, false, Bool-cases, none, some, inl, inr, ◌∷◌,
}
use cpp_projects.Base.Lookups.{find-insert_self, try_emplace-free}
use cpp_projects.Base.Map.{ℕ_key, find}
use cpp_projects.Types.{Side, Price, Quantity}
use cpp_projects.Exchange.Core.{OrderType, TimeInForce}
use cpp_projects.Trader.Oms.{
  ClientOrder, OrderManagementSystem, Sender, order, register, new_client_order, send_failed,
  mark_send_failed, submit_new_order, change, notify,
}
use cpp_projects.Trader.Oms.Changes.{change-found, order-change_self, order-notify}
use cpp_projects.Trader.Oms.Tracked.{IsConsistent}
use cpp_projects.Trader.Oms.Consistent.{order-next_id}
use cpp_projects.Wire.OrderEntry
use cpp_projects.Wire.OrderEntry.{Message}

abbrev pub order_message : ℕ → ℕ → ℕ → Side → Price → Quantity → OrderType → TimeInForce → Message
order_message account_id id instrument_id side price quantity t tif = OrderEntry.new_order (record {
  account_id = account_id;
  client_order_id = id;
  instrument_id = instrument_id;
  side = side;
  price = price;
  quantity = quantity;
  order_type = t;
  time_in_force = tif;
})

order-register :
    (new : ℕ → ClientOrder) (o : OrderManagementSystem)
    → IsConsistent o
    → order (register new o) o.next_client_order_id ≡ some (new o.next_client_order_id)
order-register new o w =
    let n = o.next_client_order_id in
    ap (find n) (try_emplace-free n (new n) o.orders (order-next_id o w))
    ∙ find-insert_self n (new n) o.orders

abbrev pub IsSubmission :
    Sender → ℕ → Side → Price → Quantity → OrderType → TimeInForce → OrderManagementSystem → Type 0
IsSubmission sender instrument_id side price quantity t tif o =
    let (id, o') = submit_new_order sender instrument_id side price quantity t tif o in
    let c = new_client_order o.account_id id instrument_id side price quantity t tif in
    let message = order_message o.account_id id instrument_id side price quantity t tif in
    (order o id ≡ none)
    × (((sender message ≡ true) × (order o' id ≡ some c) × (o'.sent ≡ message ∷ o.sent))
        ⊎ ((sender message ≡ false)
            × (order o' id ≡ some (send_failed c))
            × (o'.sent ≡ o.sent)
            × (o'.updates ≡ send_failed c ∷ o.updates)))

-- A submission to a consistent system takes an id that no order has. If the message gets out it is the last one sent, and the
-- order is pending under the id; if not, nothing is sent, and the order is rejected under the id and
-- notified so.
pub submit_new_order-cases :
    (sender : Sender) (instrument_id : ℕ) (side : Side) (price : Price) (quantity : Quantity)
    (t : OrderType) (tif : TimeInForce) (o : OrderManagementSystem)
    → IsConsistent o
    → IsSubmission sender instrument_id side price quantity t tif o
unfolding submit_new_order mark_send_failed
submit_new_order-cases sender instrument_id side price quantity t tif o w =
    let id = o.next_client_order_id in
    let new : ℕ → ClientOrder =
      λ id. new_client_order o.account_id id instrument_id side price quantity t tif in
    let r = register new o in
    let here = order-register new o w in
    let message = order_message o.account_id id instrument_id side price quantity t tif in
    elim (Bool-cases (sender message)) [
      | inl out ↦ rw (out) (order-next_id o w, inl (refl, here, refl))
      | inr lost ↦
          let found = change-found id send_failed r (new id) here in
          rw (lost) (
            order-next_id o w,
            inr (
              refl,
              order-notify (change id send_failed r).1 (change id send_failed r).0 id
                  ∙ order-change_self id send_failed r (new id) here,
              ap (λ x. (notify x.1 x.0).sent) found,
              ap (λ x. (notify x.1 x.0).updates) found,
            ),
          )
    ]
