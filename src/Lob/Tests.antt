-- ===== src/Lob/Tests.antt =====
-- LimitOrderBook/src/order_book.cpp: runs of a book.
use cpp_projects.Base.{ℕ, ◌+◌, ◌≡◌, refl, true, List, [], ◌∷◌, arith}
use cpp_projects.Base.Int.{pos, ltb_ℤ}
use cpp_projects.Types.{Side, buy, sell}
use cpp_projects.Lob.{
  Order, Command, add_command, cancel_command, OrderBook, opposite_levels, match_loop, match_order,
  round, trade_front, at_level, level_add, rest_order, add, cancel,
}
use cpp_projects.Lob.Matching.{IsMatch, match_order-IsMatch}
use cpp_projects.Lob.Uncrossed.{IsBook}
use cpp_projects.Lob.Run.{performs-best_apart, resting, add-rests_whole}

abbrev order : ℕ → Side → ℕ → ℕ → Order
order id side price quantity = record {
  price = pos price;
  timestamp = 0;
  quantity = quantity;
  id = id;
  side = side;
}

abbrev commands : List Command
commands =
    add_command (order 0 sell 101 5) ∷ add_command (order 1 buy 100 3) ∷ cancel_command 7 ∷ []

performs-best_apart_example : ltb_ℤ (pos 100) (pos 101) ≡ true
unfolding add cancel match_order match_loop round rest_order at_level level_add
performs-best_apart_example =
    performs-best_apart commands (pos 100) (pos 101) (omega arith, (omega arith, tt)) refl refl

abbrev one_ask : OrderBook
one_ask = record {
  asks = (pos 100, record { order_map = (0, 0) ∷ []; orders = order 0 sell 100 5 ∷ [] }) ∷ [];
  bids = [];
  order_index = (0, (sell, pos 100)) ∷ [];
}

one_ask-IsBook : IsBook one_ask
one_ask-IsBook = record { bids_sorted = tt; asks_sorted = ((λ h. cc), tt, tt); apart = tt }

match_order-IsMatch_example :
    IsMatch buy
      (pos 100)
      8
      0
      (opposite_levels buy one_ask)
      (match_order (order 1 buy 100 8) one_ask)
match_order-IsMatch_example =
    match_order-IsMatch (order 1 buy 100 8) one_ask (omega arith) ((λ h. cc), tt, tt)

-- A bid for 8 that takes the ask of 5 rests with 8.
add-rests_whole_example :
    resting (add (order 1 buy 100 8) one_ask) + (match_order (order 1 buy 100 8) one_ask).0
    ≡ resting one_ask + 8
unfolding match_order match_loop round trade_front
add-rests_whole_example =
    add-rests_whole (order 1 buy 100 8) one_ask (omega arith) one_ask-IsBook (omega arith)

resting_test : resting (add (order 1 buy 100 8) one_ask) ≡ 8
unfolding add match_order match_loop round trade_front rest_order at_level level_add
resting_test = refl
