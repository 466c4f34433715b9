-- ===== src/Trader/Oms/TrackedCalls.antt =====
-- mdh/src/trader/oms/order_management_system.cpp: the requests and the answers, one by one.
use mathlib.Core.Path.{subst}
use cpp_projects.Base.{
  ℕ, if◌then◌else◌, ◌+◌, ◌<◌, ◌^◌, ◌≡◌, ◌&&◌, ◌==◌, refl, sym, ◌∙◌, Bool, true, false, Bool-cases,
  Option, none, some, Option-cases, inl, inr, arith,
}
use cpp_projects.Base.Entries.{
  AllItems-mono, AllEntries-mono, AllEntries-erase, AllEntries-try_emplace,
}
use cpp_projects.Base.Map.{ℕ_key}
use cpp_projects.Base.Word.{inc64}
use cpp_projects.Types.{Side, Price, Quantity}
use cpp_projects.Exchange.Core.{OrderType, TimeInForce}
use cpp_projects.Trader.Oms.{
  ClientOrder, partially_filled, filled, is_live, is_idle, OrderManagementSystem, PendingAction,
  no_action, cancel_action, replace_action, is_pending_new, Sender, order, notify, change, register,
  new_client_order, replacement, send_failed, with_action, mark_send_failed, clear_pending_action,
  requestable, submit_new_order, cancel_order, replace_order, after_accepted, after_rejected,
  after_cancelled, after_replaced, after_replacing, after_traded, record_fill, on_replaced,
  on_trade_report, handle_message,
}
use cpp_projects.Trader.Oms.Changes.{ids-change}
use cpp_projects.Wire.OrderEntry
use cpp_projects.Wire.OrderEntry.{Message}
use cpp_projects.Trader.Oms.Tracked.{
  AllAnswered, live_ne_pending, rejected-answered, IsTracked, IsConsistent, cleared, CopyIsTracked,
  change-IsConsistent, notify-IsConsistent, change_and_notify-IsConsistent, send-IsConsistent,
  IsTracked-later,
}

pub register-IsConsistent :
    (new : ℕ → ClientOrder) (o : OrderManagementSystem)
    → o.next_client_order_id + 1 < 2 ^ 64
    → IsTracked o.account_id
        (o.next_client_order_id + 1)
        o.next_client_order_id
        (new o.next_client_order_id)
    → IsConsistent o
    → IsConsistent (register new o)
register-IsConsistent new o few h w =
    let n = o.next_client_order_id in
    let after : inc64 n ≡ n + 1 = omega arith in
    rw (after) (record {
      orders = AllEntries-try_emplace (IsTracked o.account_id (n + 1)) n (new n) o.orders h (
          AllEntries-mono _ _ o.orders
            (λ k c. IsTracked-later o.account_id n (n + 1) k c (omega arith)) w.orders);
      updates =
          AllItems-mono _ _ o.updates
            (λ c. IsTracked-later o.account_id n (n + 1) c.client_order_id c (omega arith))
            w.updates;
      fills = AllItems-mono _ _ o.fills (λ fill own. (own.0, omega (arith, own.1))) w.fills;
    })

pub new_client_order-IsTracked :
    (a id instrument_id : ℕ) (side : Side) (price : Price) (quantity : Quantity) (t : OrderType)
    (tif : TimeInForce)
    → IsTracked a (id + 1) id (new_client_order a id instrument_id side price quantity t tif)
new_client_order-IsTracked a id instrument_id side price quantity t tif = record {
  given_out = omega arith;
  own_id = refl;
  own_account = refl;
  unanswered = inr (refl, refl, refl);
}

pub if-IsConsistent :
    (b : Bool) (o o' : OrderManagementSystem)
    → IsConsistent o
    → IsConsistent o'
    → IsConsistent (if b then o else o')
if-IsConsistent true o o' w w' = w
if-IsConsistent false o o' w w' = w'

pub submit_new_order-IsConsistent :
    (sender : Sender) (instrument_id : ℕ) (side : Side) (price : Price) (quantity : Quantity)
    (t : OrderType) (tif : TimeInForce) (o : OrderManagementSystem)
    → o.next_client_order_id + 1 < 2 ^ 64
    → IsConsistent o
    → IsConsistent (submit_new_order sender instrument_id side price quantity t tif o).1
unfolding submit_new_order mark_send_failed
submit_new_order-IsConsistent sender instrument_id side price quantity t tif o few w =
    let w' =
      register-IsConsistent
        (λ id. new_client_order o.account_id id instrument_id side price quantity t tif) o few
        (new_client_order-IsTracked o.account_id o.next_client_order_id instrument_id side price
          quantity t tif)
        w in
    if-IsConsistent (sender _) _ _ (send-IsConsistent sender _ _ w') (
      change_and_notify-IsConsistent o.next_client_order_id send_failed _
        (λ c. (λ h. inl refl, refl, refl)) w')

pub requestable-found :
    (o : OrderManagementSystem) (id : ℕ) (c : ClientOrder)
    → requestable o id ≡ some c
    → (order o id ≡ some c) × (is_pending_new c.state ≡ false)
unfolding requestable
requestable-found o id c h = elim (Option-cases (order o id)) [
  | inl missing ↦ absurd (ground (arith, missing))
  | inr (d, found) ↦ elim (Bool-cases (is_live d.state && is_idle d.pending_action)) [
    | inl may ↦
        let same : d ≡ c = ground (arith, found, may) in
        rw (← same) (found, live_ne_pending d.state (ground (arith, may)))
    | inr may_not ↦ absurd (ground (arith, found, may_not))
  ]
]

pub clear_pending_action-IsConsistent :
    (id : ℕ) (o : OrderManagementSystem) → IsConsistent o → IsConsistent (clear_pending_action id o)
unfolding clear_pending_action
clear_pending_action-IsConsistent id o w =
    (change-IsConsistent id (with_action no_action) o (λ c found. (cleared c, refl, refl)) w).0

pub requested-IsConsistent :
    (id : ℕ) (a : PendingAction) (o : OrderManagementSystem) (c : ClientOrder)
    → (order o id ≡ some c) × (is_pending_new c.state ≡ false)
    → IsConsistent o
    → IsConsistent (change id (with_action a) o).0
requested-IsConsistent id a o c found w =
    (change-IsConsistent id (with_action a) o
      (λ d same. (λ h. inl (subst (λ r. AllAnswered r) (sym found.0 ∙ same) found.1), refl, refl))
      w).0

pub sent_or-IsConsistent :
    {A : Type 0} (b : Bool) (o o' : OrderManagementSystem) (x y : A)
    → IsConsistent o
    → IsConsistent o'
    → let r : A × OrderManagementSystem = if b then (x, o) else (y, o') in IsConsistent r.1
sent_or-IsConsistent true o o' x y w w' = w
sent_or-IsConsistent false o o' x y w w' = w'

pub cancel_order-IsConsistent :
    (sender : Sender) (id : ℕ) (o : OrderManagementSystem)
    → IsConsistent o
    → IsConsistent (cancel_order sender id o).1
unfolding cancel_order
cancel_order-IsConsistent sender id o w = elim (Option-cases (requestable o id)) [
  | inl refused ↦ rw (cancel_order, refused) w
  | inr (c, may) ↦
      let found = requestable-found o id c may in
      let w' = (requested-IsConsistent id cancel_action o c found w) in
      rw (cancel_order, may)
        (sent_or-IsConsistent (sender _) _ _ true false (send-IsConsistent sender _ _ w')
          (clear_pending_action-IsConsistent id _ w'))
]

pub replace_order-IsConsistent :
    (sender : Sender) (id : ℕ) (new_price : Price) (new_quantity : Quantity)
    (o : OrderManagementSystem)
    → o.next_client_order_id + 1 < 2 ^ 64
    → IsConsistent o
    → IsConsistent (replace_order sender id new_price new_quantity o).1
unfolding replace_order
replace_order-IsConsistent sender id new_price new_quantity o few w =
    elim (Option-cases (requestable o id)) [
      | inl refused ↦ rw (replace_order, refused) w
      | inr (c, may) ↦
          let found = requestable-found o id c may in
          let w' = requested-IsConsistent id replace_action o c found w in
          let same = ids-change id (with_action replace_action) o in
          let new = replacement c o.account_id new_price new_quantity in
          let n = (change id (with_action replace_action) o).0.next_client_order_id in
          let w'' =
            register-IsConsistent new (change id (with_action replace_action) o).0
              (omega (arith, same.1))
              (subst (λ a. IsTracked a (n + 1) n (new n)) (sym same.0)
                (new_client_order-IsTracked o.account_id n c.instrument_id c.side new_price
                  new_quantity c.order_type c.time_in_force))
              w' in
          rw (replace_order, may)
            (sent_or-IsConsistent (sender _) _ _ (some o.next_client_order_id) none
              (send-IsConsistent sender _ _ w'')
              (clear_pending_action-IsConsistent id _ (record {
                orders = AllEntries-erase _ o.next_client_order_id _ w''.orders;
                updates = w''.updates;
                fills = w''.fills;
              })))
    ]

pub record_fill-IsConsistent :
    (event : OrderEntry.TradeReport) (updated : Option ClientOrder) (o : OrderManagementSystem)
    → (a n : ℕ) → (o.account_id ≡ a) × (o.next_client_order_id ≡ n)
    → CopyIsTracked a n event.client_order_id updated
    → IsConsistent o
    → IsConsistent (record_fill event updated o)
record_fill-IsConsistent event none o a n same h w = w
record_fill-IsConsistent event (some c) o a n same h w = record {
  orders = w.orders;
  updates = w.updates;
  fills = ((refl, omega (arith, h.given_out, same.1)), w.fills);
}

pub ids-notify :
    (updated : Option ClientOrder) (o : OrderManagementSystem)
    → ((notify updated o).account_id ≡ o.account_id)
      × ((notify updated o).next_client_order_id ≡ o.next_client_order_id)
ids-notify none o = (refl, refl)
ids-notify (some c) o = (refl, refl)

pub traded-answered : (n : ℕ) → is_pending_new (if n == 0 then filled else partially_filled) ≡ false
traded-answered n = elim (Bool-cases (n == 0)) [
  | inl done ↦ rw (done) refl
  | inr more ↦ rw (more) refl
]

pub handle_message-IsConsistent :
    (m : Message) (o : OrderManagementSystem) → IsConsistent o → IsConsistent (handle_message m o)
unfolding handle_message on_replaced on_trade_report
handle_message-IsConsistent (OrderEntry.accepted event) o w =
    change_and_notify-IsConsistent event.client_order_id (after_accepted event) o
      (λ c. (λ h. inl refl, refl, refl)) w
handle_message-IsConsistent (OrderEntry.rejected event) o w =
    change_and_notify-IsConsistent event.client_order_id (after_rejected event) o
      (λ c. (λ h. inl (rejected-answered c.state), refl, refl)) w
handle_message-IsConsistent (OrderEntry.cancelled event) o w =
    change_and_notify-IsConsistent event.client_order_id after_cancelled o
      (λ c. (λ h. inl refl, refl, refl)) w
handle_message-IsConsistent (OrderEntry.replaced event) o w =
    let id = event.original_client_order_id in
    let id' = event.new_client_order_id in
    let first =
      change-IsConsistent id after_replaced o (λ c found. (λ h. inl refl, refl, refl)) w in
    let o1 = (change id after_replaced o).0 in
    let same1 = ids-change id after_replaced o in
    let second =
      change-IsConsistent id' (after_replacing event) o1 (λ c found. (λ h. inl refl, refl, refl))
        first.0 in
    let o2 = (change id' (after_replacing event) o1).0 in
    let same2 = ids-change id' (after_replacing event) o1 in
    let old = (change id after_replaced o).1 in
    let w2 =
      notify-IsConsistent _ _ id old o2 (same2.0 ∙ same1.0, same2.1 ∙ same1.1) first.1 second.0 in
    let same = ids-notify old o2 in
    notify-IsConsistent _ _ id' (change id' (after_replacing event) o1).1 (notify old o2)
      (same.0 ∙ same2.0, same.1 ∙ same2.1) second.1 w2
handle_message-IsConsistent (OrderEntry.trade_report event) o w =
    let id = event.client_order_id in
    let h =
      change-IsConsistent id (after_traded event) o
        (λ c found. (λ h. inl (traded-answered event.remaining_quantity), refl, refl)) w in
    let o' = (change id (after_traded event) o).0 in
    let updated = (change id (after_traded event) o).1 in
    let same = ids-change id (after_traded event) o in
    let w' = notify-IsConsistent _ _ id updated o' same h.1 h.0 in
    let same' = ids-notify updated o' in
    record_fill-IsConsistent event updated (notify updated o') _ _
      (same'.0 ∙ same.0, same'.1 ∙ same.1) h.1 w'
handle_message-IsConsistent (OrderEntry.new_order event) o w = w
handle_message-IsConsistent (OrderEntry.cancel_order event) o w = w
handle_message-IsConsistent (OrderEntry.replace_order event) o w = w
