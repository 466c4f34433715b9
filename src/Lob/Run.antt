-- ===== src/Lob/Run.antt =====
-- LimitOrderBook/src/order_book.cpp: runs of commands, and what add leaves in the book.
use mathlib.Core.Path.{subst}
use cpp_projects.Base.{ℕ, ◌+◌, ◌<◌, ◌^◌, ◌≡◌, refl, true, some, List, [], ◌∷◌, arith, ltb}
use cpp_projects.Base.Int.{ltb_ℤ}
use cpp_projects.Base.Map.{ℕ_key}
use cpp_projects.Types.{Price, Quantity, Side, buy, sell}
use cpp_projects.Lob.{
  Order, Levels, OrderBook, Command, add_command, cancel_command, empty_book, Matched,
  opposite_levels, match_order, after_match, rest_order, sub32, add, cancel, perform, best_price,
  get_best_bid, get_best_ask,
}
use cpp_projects.Lob.Ladder.{total, total-at_level}
use cpp_projects.Lob.Matching.{IsMatch, match_order-IsMatch}
use cpp_projects.Lob.Uncrossed.{IsUncrossed, IsBook, opposite-IsLadder, add-IsBook, cancel-IsBook}

-- Commands in a row.
abbrev pub performs : List Command → OrderBook → OrderBook
performs [] b = b
performs (c ∷ cs) b = performs cs (perform c b)

-- The quantities of the orders are of 32 bits.
abbrev pub AllFit : List Command → Type 0
AllFit [] = Unit
AllFit (add_command order ∷ cs) = (order.quantity < 2 ^ 32) × AllFit cs
AllFit (cancel_command id ∷ cs) = AllFit cs

performs-IsBook :
    (cs : List Command) (b : OrderBook) → AllFit cs → IsBook b → IsBook (performs cs b)
performs-IsBook [] b small w = w
performs-IsBook (add_command order ∷ cs) b small w =
    performs-IsBook cs (add order b) small.1 (add-IsBook order b small.0 w)
performs-IsBook (cancel_command id ∷ cs) b small w =
    performs-IsBook cs (cancel id b) small (cancel-IsBook id b w)

best-apart :
    (b : OrderBook) (p q : Price)
    → IsBook b
    → get_best_bid b ≡ some p
    → get_best_ask b ≡ some q
    → ltb_ℤ p q ≡ true
best-apart b p q w bid ask = best_price-apart b.bids b.asks w.apart bid ask
  where
    best_price-apart :
        (bids asks : Levels)
        → IsUncrossed bids asks
        → best_price bids ≡ some p
        → best_price asks ≡ some q
        → ltb_ℤ p q ≡ true
    best_price-apart [] asks h bid ask = absurd cc
    best_price-apart (l ∷ bids) [] h bid ask = absurd cc
    best_price-apart ((p', l) ∷ bids) ((q', k) ∷ asks) h bid ask =
        let here : p' ≡ p = cc in
        let there : q' ≡ q = cc in
        subst (λ (x : Price). ltb_ℤ x q ≡ true) here
          (subst (λ (y : Price). ltb_ℤ p' y ≡ true) there h.0.0)

-- The book is never crossed: after any commands with quantities of 32 bits on an empty book, where both sides
-- have an order the best bid is below the best ask.
pub performs-best_apart :
    (cs : List Command) (p q : Price)
    → AllFit cs
    → get_best_bid (performs cs empty_book) ≡ some p
    → get_best_ask (performs cs empty_book) ≡ some q
    → ltb_ℤ p q ≡ true
performs-best_apart cs p q small bid ask =
    best-apart (performs cs empty_book) p q
      (performs-IsBook cs empty_book small
        (record { bids_sorted = tt; asks_sorted = tt; apart = tt }))
      bid ask

-- What rests on the two sides.
abbrev pub resting : OrderBook → Quantity
resting b = total b.bids + total b.asks

settled-resting :
    (s : Side) (order : Order) (b : OrderBook) (f : Quantity) (ls : Levels)
    (index : List (ℕ × (Side × Price)))
    → order.side ≡ s
    → total ls + f ≡ total (opposite_levels s b) + 0
    → resting (rest_order order (after_match s ls index b)) + f ≡ resting b + order.quantity
unfolding rest_order
settled-resting buy order b f ls index side lost =
    rw (rest_order, side) (omega (arith, lost, total-at_level buy order.price order b.bids))
settled-resting sell order b f ls index side lost =
    rw (rest_order, side) (omega (arith, lost, total-at_level sell order.price order b.asks))

left_over : (q f : Quantity) → q < 2 ^ 32 → f < q → ltb 0 (sub32 q f) ≡ true
left_over q f small h = ground arith

-- Where a book is in order and a part of an order of 32 bits is filled, but not all of it: what rests
-- afterwards is what rested before, less what was filled, and the whole quantity of the order, the filled
-- part included.
pub add-rests_whole :
    (order : Order) (b : OrderBook)
    → order.quantity < 2 ^ 32
    → IsBook b
    → (match_order order b).0 < order.quantity
    → resting (add order b) + (match_order order b).0 ≡ resting b + order.quantity
unfolding add
add-rests_whole order b small w part =
    let m : Matched = match_order order b in
    let matched : IsMatch order.side order.price order.quantity 0 (opposite_levels order.side b) m =
      match_order-IsMatch order b small (opposite-IsLadder order.side b w) in
    rw (add, left_over order.quantity m.0 small part)
      (settled-resting order.side order b m.0 m.1 m.2 refl matched.1)
