-- ===== src/Trader/Oms/Consistent.antt =====
-- mdh/src/trader/oms/order_management_system.cpp: what holds of every order, update and fill.
use cpp_projects.Base.{◌+◌, ◌<◌, ◌^◌, ◌≡◌, none, Option-cases, inl, inr, arith}
use cpp_projects.Base.Entries.{AllEntries-find}
use cpp_projects.Base.Map.{ℕ_key}
use cpp_projects.Trader.Oms.{
  OrderManagementSystem, Sender, order, Call, submit_call, cancel_call, replace_call, answer,
  perform,
}
use cpp_projects.Trader.Oms.Tracked.{IsTracked, IsConsistent}
use cpp_projects.Trader.Oms.TrackedCalls.{
  submit_new_order-IsConsistent, cancel_order-IsConsistent, replace_order-IsConsistent,
  handle_message-IsConsistent,
}

-- Whatever is asked of the system, and whatever answer it is given, every order, update and fill is of
-- its account under an id that it gave out, and an order that is still pending has no exchange id, no
-- request in flight and all of its quantity, while fewer than 2 ^ 64 - 1 ids were given out.
pub perform-IsConsistent :
    (sender : Sender) (call : Call) (o : OrderManagementSystem)
    → o.next_client_order_id + 1 < 2 ^ 64
    → IsConsistent o
    → IsConsistent (perform sender call o)
perform-IsConsistent sender (submit_call instrument_id side price quantity t tif) o few w =
    submit_new_order-IsConsistent sender instrument_id side price quantity t tif o few w
perform-IsConsistent sender (cancel_call id) o few w = cancel_order-IsConsistent sender id o w
perform-IsConsistent sender (replace_call id new_price new_quantity) o few w =
    replace_order-IsConsistent sender id new_price new_quantity o few w
perform-IsConsistent sender (answer m) o few w = handle_message-IsConsistent m o w

-- The next id is not given out.
pub order-next_id :
    (o : OrderManagementSystem) → IsConsistent o → order o o.next_client_order_id ≡ none
order-next_id o w = elim (Option-cases (order o o.next_client_order_id)) [
  | inl free ↦ free
  | inr (d, taken) ↦
      let tracked =
        AllEntries-find (IsTracked o.account_id o.next_client_order_id) o.next_client_order_id
          o.orders d w.orders taken in
      absurd (omega (arith, tracked.given_out))
]
