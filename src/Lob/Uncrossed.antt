-- ===== src/Lob/Uncrossed.antt =====
-- LimitOrderBook/src/order_book.cpp: add and cancel on a whole book.
use cpp_projects.Base.{
  ℕ, ◌<◌, ◌≤◌, ◌^◌, ◌≡◌, refl, true, Bool-cases, inl, inr, Option, none, some, List, [], ◌∷◌, arith,
  ltb, if◌then◌else◌,
}
use cpp_projects.Base.Int.{ltb_ℤ}
use cpp_projects.Base.Entries.{AllEntries-mono}
use cpp_projects.Base.Map.{ℕ_key, find}
use cpp_projects.Types.{Price, Quantity, Side, buy, sell}
use cpp_projects.Lob.{
  Order, Levels, OrderBook, Matched, level_add, at_level, opposite_levels, match_order, after_match,
  rest_order, sub32, add, cancel_at, cancel_located, cancel,
}
use cpp_projects.Lob.Ladder.{
  IsLadder, AllPrices, at_level-AllPrices, at_level-IsLadder, cancel_at-AllPrices,
  cancel_at-IsLadder,
}
use cpp_projects.Lob.Matching.{
  other, NoneCrosses, IsMatch, match_order-IsMatch, match_order-AllPrices,
}

-- Every bid is below every ask.
abbrev pub IsUncrossed : Levels → Levels → Type 0
IsUncrossed bids asks = AllPrices (λ p. AllPrices (λ q. ltb_ℤ p q ≡ true) asks) bids

-- The levels of both sides come in order, each with an order, and the sides are apart.
pub record IsBook (b : OrderBook) : Type 0 where
  pub bids_sorted : IsLadder buy b.bids
  pub asks_sorted : IsLadder sell b.asks
  pub apart : IsUncrossed b.bids b.asks

IsUncrossed-asks :
    (bids asks asks' : Levels)
    → ((P : Price → Type 0) → AllPrices P asks → AllPrices P asks')
    → IsUncrossed bids asks
    → IsUncrossed bids asks'
IsUncrossed-asks bids asks asks' fewer h =
    AllEntries-mono _ _ bids (λ p l k. fewer (λ q. ltb_ℤ p q ≡ true) k) h

all_both :
    (P Q : Price → Type 0) (ls : Levels)
    → AllPrices P ls
    → AllPrices Q ls
    → AllPrices (λ p. P p × Q p) ls
all_both P Q [] h k = tt
all_both P Q ((p, level) ∷ rest) h k = ((h.0, k.0), all_both P Q rest h.1 k.1)

-- A price more on the ask side, above every bid.
IsUncrossed-ask_more :
    (bids asks asks' : Levels) (price : Price)
    → ((P : Price → Type 0) → P price → AllPrices P asks → AllPrices P asks')
    → AllPrices (λ p. ltb_ℤ p price ≡ true) bids
    → IsUncrossed bids asks
    → IsUncrossed bids asks'
IsUncrossed-ask_more bids asks asks' price more below h =
    AllEntries-mono _ _ bids (λ p l k. more (λ q. ltb_ℤ p q ≡ true) k.0 k.1)
      (all_both (λ p. ltb_ℤ p price ≡ true) (λ p. AllPrices (λ q. ltb_ℤ p q ≡ true) asks) bids below
        h)

not_filled : (q f : Quantity) → q < 2 ^ 32 → f ≤ q → ltb 0 (sub32 q f) ≡ true → f < q
not_filled q f small most h = ground arith

buy_apart :
    (limit : Price) (ls : Levels)
    → NoneCrosses buy limit ls
    → AllPrices (λ q. ltb_ℤ limit q ≡ true) ls
buy_apart limit ls h = AllEntries-mono _ _ ls (λ q l k. ground arith) h

sell_apart :
    (limit : Price) (ls : Levels)
    → NoneCrosses sell limit ls
    → AllPrices (λ q. ltb_ℤ q limit ≡ true) ls
sell_apart limit ls h = AllEntries-mono _ _ ls (λ q l k. ground arith) h

add_buy-IsBook :
    (order : Order) (b : OrderBook) (f : Quantity) (ls : Levels) (index : List (ℕ × (Side × Price)))
    → order.side ≡ buy
    → IsBook b
    → IsLadder sell ls
    → ((P : Price → Type 0) → AllPrices P b.asks → AllPrices P ls)
    → NoneCrosses buy order.price ls
    → IsBook (rest_order order (after_match buy ls index b))
unfolding rest_order
add_buy-IsBook order b f ls index side w ladder fewer none_crosses =
    rw (rest_order, side)
      (record {
        bids_sorted = at_level-IsLadder buy order.price order b.bids w.bids_sorted;
        asks_sorted = ladder;
        apart =
            at_level-AllPrices buy order.price order (λ p. AllPrices (λ q. ltb_ℤ p q ≡ true) ls)
              b.bids (buy_apart order.price ls none_crosses)
              (IsUncrossed-asks b.bids b.asks ls fewer w.apart);
      })

add_sell-IsBook :
    (order : Order) (b : OrderBook) (f : Quantity) (ls : Levels) (index : List (ℕ × (Side × Price)))
    → order.side ≡ sell
    → IsBook b
    → IsLadder buy ls
    → ((P : Price → Type 0) → AllPrices P b.bids → AllPrices P ls)
    → NoneCrosses sell order.price ls
    → IsBook (rest_order order (after_match sell ls index b))
unfolding rest_order
add_sell-IsBook order b f ls index side w ladder fewer none_crosses =
    rw (rest_order, side)
      (record {
        bids_sorted = ladder;
        asks_sorted = at_level-IsLadder sell order.price order b.asks w.asks_sorted;
        apart =
            IsUncrossed-ask_more ls b.asks (at_level sell order.price (level_add order) b.asks)
              order.price (λ P here h. at_level-AllPrices sell order.price order P b.asks here h)
              (sell_apart order.price ls none_crosses)
              (fewer (λ p. AllPrices (λ q. ltb_ℤ p q ≡ true) b.asks) w.apart);
      })

after_buy-IsBook :
    (b : OrderBook) (ls : Levels) (index : List (ℕ × (Side × Price)))
    → IsBook b
    → IsLadder sell ls
    → ((P : Price → Type 0) → AllPrices P b.asks → AllPrices P ls)
    → IsBook (after_match buy ls index b)
after_buy-IsBook b ls index w ladder fewer = record {
  bids_sorted = w.bids_sorted;
  asks_sorted = ladder;
  apart = IsUncrossed-asks b.bids b.asks ls fewer w.apart;
}

after_sell-IsBook :
    (b : OrderBook) (ls : Levels) (index : List (ℕ × (Side × Price)))
    → IsBook b
    → IsLadder buy ls
    → ((P : Price → Type 0) → AllPrices P b.bids → AllPrices P ls)
    → IsBook (after_match sell ls index b)
after_sell-IsBook b ls index w ladder fewer = record {
  bids_sorted = ladder;
  asks_sorted = w.asks_sorted;
  apart = fewer (λ p. AllPrices (λ q. ltb_ℤ p q ≡ true) b.asks) w.apart;
}

pub opposite-IsLadder :
    (s : Side) (b : OrderBook) → IsBook b → IsLadder (other s) (opposite_levels s b)
opposite-IsLadder buy b w = w.asks_sorted
opposite-IsLadder sell b w = w.bids_sorted

-- The end of add, where the order rests only if something is left of it.
settled-IsBook :
    (s : Side) (order : Order) (b : OrderBook) (f : Quantity) (ls : Levels)
    (index : List (ℕ × (Side × Price)))
    → order.side ≡ s
    → IsBook b
    → IsLadder (other s) ls
    → ((P : Price → Type 0) → AllPrices P (opposite_levels s b) → AllPrices P ls)
    → (ltb 0 (sub32 order.quantity f) ≡ true → NoneCrosses s order.price ls)
    → IsBook (
        if ltb 0 (sub32 order.quantity f)
        then rest_order order (after_match s ls index b)
        else after_match s ls index b)
settled-IsBook buy order b f ls index side w ladder fewer rests =
    elim (Bool-cases (ltb 0 (sub32 order.quantity f))) [
      | inl left ↦ rw (left) (add_buy-IsBook order b f ls index side w ladder fewer (rests left))
      | inr nothing ↦ rw (nothing) (after_buy-IsBook b ls index w ladder fewer)
    ]
settled-IsBook sell order b f ls index side w ladder fewer rests =
    elim (Bool-cases (ltb 0 (sub32 order.quantity f))) [
      | inl left ↦ rw (left) (add_sell-IsBook order b f ls index side w ladder fewer (rests left))
      | inr nothing ↦ rw (nothing) (after_sell-IsBook b ls index w ladder fewer)
    ]

pub add-IsBook :
    (order : Order) (b : OrderBook) → order.quantity < 2 ^ 32 → IsBook b → IsBook (add order b)
unfolding add
add-IsBook order b small w =
    let m : Matched = match_order order b in
    let matched : IsMatch order.side order.price order.quantity 0 (opposite_levels order.side b) m =
      match_order-IsMatch order b small (opposite-IsLadder order.side b w) in
    let fewer : (P : Price → Type 0)
        → AllPrices P (opposite_levels order.side b)
        → AllPrices P m.1 =
      λ P h. match_order-AllPrices P order b h in
    let rests : ltb 0 (sub32 order.quantity m.0) ≡ true → NoneCrosses order.side order.price m.1 =
      λ h.
        matched.3
          (omega (arith, not_filled order.quantity m.0 small (omega (arith, matched.2)) h)) in
    settled-IsBook order.side order b m.0 m.1 m.2 refl w matched.0 fewer rests

cancel_located-IsBook :
    (id : ℕ) (place : Option (Side × Price)) (b : OrderBook)
    → IsBook b
    → IsBook (cancel_located id place b)
cancel_located-IsBook id none b w = w
cancel_located-IsBook id (some (sell, price)) b w = record {
  bids_sorted = w.bids_sorted;
  asks_sorted = cancel_at-IsLadder sell price id b.asks w.asks_sorted;
  apart =
      IsUncrossed-asks b.bids b.asks (cancel_at price id b.asks)
        (λ P h. cancel_at-AllPrices P price id b.asks h) w.apart;
}
cancel_located-IsBook id (some (buy, price)) b w = record {
  bids_sorted = cancel_at-IsLadder buy price id b.bids w.bids_sorted;
  asks_sorted = w.asks_sorted;
  apart =
      cancel_at-AllPrices (λ p. AllPrices (λ q. ltb_ℤ p q ≡ true) b.asks) price id b.bids w.apart;
}

pub cancel-IsBook : (id : ℕ) (b : OrderBook) → IsBook b → IsBook (cancel id b)
unfolding cancel
cancel-IsBook id b w = cancel_located-IsBook id (find id b.order_index) b w
