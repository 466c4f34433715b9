-- ===== src/Trader/Oms/Tests.antt =====
-- An order management system with one live order.
use cpp_projects.Base.{◌≡◌, refl, inl, true, false, none, some, [], ◌∷◌, arith}
use cpp_projects.Base.Int.{pos}
use cpp_projects.Base.Map.{ℕ_key, find}
use cpp_projects.Types.{buy}
use cpp_projects.Exchange.Core
use cpp_projects.Exchange.Core.{limit, gtc, invalid_replacement}
use cpp_projects.Trader.Oms.{
  ClientOrder, OrderManagementSystem, Sender, live, pending_new, no_action, order, requestable,
  cancel_order, replace_order, handle_message, perform, replace_call,
}
use cpp_projects.Trader.Oms.Tracked.{IsConsistent}
use cpp_projects.Trader.Oms.Consistent.{perform-IsConsistent}
use cpp_projects.Trader.Oms.Replacements.{replace_order-refused, rejected-replace_order}
use cpp_projects.Trader.Oms.Submissions.{IsSubmission, submit_new_order-cases}
use cpp_projects.Trader.Oms.Requests.{cancel_order-refused, cancel_order-in_flight}
use cpp_projects.Wire.OrderEntry
use cpp_projects.Wire.OrderEntry.{Message}

abbrev resting : ClientOrder
resting = record {
  account_id = 7;
  client_order_id = 1;
  exchange_order_id = some 40;
  instrument_id = 3;
  side = buy;
  price = pos 100;
  quantity = 5;
  remaining_quantity = 5;
  order_type = limit;
  time_in_force = gtc;
  state = live;
  pending_action = no_action;
  last_reject_reason = Core.accepted;
}

abbrev system : OrderManagementSystem
system = record {
  account_id = 7;
  next_client_order_id = 2;
  orders = (1, resting) ∷ [];
  sent = [];
  updates = [];
  fills = [];
}

system-IsConsistent : IsConsistent system
system-IsConsistent = record {
  orders = (
    record { given_out = omega arith; own_id = refl; own_account = refl; unanswered = inl refl },
    tt,
  );
  updates = tt;
  fills = tt;
}

abbrev connected : Sender
connected m = true

abbrev dropped : Sender
dropped m = false

perform-IsConsistent_example : IsConsistent (perform connected (replace_call 1 (pos 101) 4) system)
perform-IsConsistent_example =
    perform-IsConsistent connected (replace_call 1 (pos 101) 4) system (omega arith)
      system-IsConsistent

cancel_lost : (cancel_order dropped 1 system).0 ≡ false
unfolding cancel_order requestable find
cancel_lost = refl

cancel_order-refused_example : order (cancel_order dropped 1 system).1 1 ≡ order system 1
cancel_order-refused_example = cancel_order-refused dropped 1 system 1 cancel_lost

cancel_sent : (cancel_order connected 1 system).0 ≡ true
unfolding cancel_order requestable find
cancel_sent = refl

cancel_order-in_flight_example :
    (cancel_order connected 1 (cancel_order connected 1 system).1
      ≡ (false, (cancel_order connected 1 system).1))
    × (replace_order connected 1 (pos 101) 4 (cancel_order connected 1 system).1
        ≡ (none, (cancel_order connected 1 system).1))
cancel_order-in_flight_example =
    cancel_order-in_flight connected connected 1 system (pos 101) 4 cancel_sent

replace_lost : (replace_order dropped 1 (pos 101) 4 system).0 ≡ none
unfolding replace_order requestable find
replace_lost = refl

replace_order-refused_example :
    order (replace_order dropped 1 (pos 101) 4 system).1 2 ≡ order system 2
replace_order-refused_example =
    replace_order-refused dropped 1 (pos 101) 4 system 2 (omega arith) system-IsConsistent
      replace_lost

abbrev refusal : OrderEntry.Rejected
refusal = record {
  account_id = 7;
  client_order_id = 1;
  instrument_id = 3;
  reason = invalid_replacement;
}

replace_sent : (replace_order connected 1 (pos 101) 4 system).0 ≡ some 2
unfolding replace_order requestable find
replace_sent = refl

rejected-replace_order_example :
    (c : ClientOrder) × (order
        (handle_message
          (OrderEntry.rejected refusal)
          (replace_order connected 1 (pos 101) 4 system).1)
        2
      ≡ some c)
    × (c.state ≡ pending_new)
rejected-replace_order_example =
    rejected-replace_order connected 1 (pos 101) 4 system 2 refusal (omega arith)
      system-IsConsistent replace_sent refl

submit_new_order-cases_example : IsSubmission dropped 3 buy (pos 100) 5 limit gtc system
submit_new_order-cases_example =
    submit_new_order-cases dropped 3 buy (pos 100) 5 limit gtc system system-IsConsistent
