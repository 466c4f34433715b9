-- ===== src/Lob/Matching.antt =====
-- LimitOrderBook/src/order_book.cpp: what match takes out of the other side of the book.
use cpp_projects.Base.{
  ℕ, zero, suc, ◌+◌, ◌<◌, ◌≤◌, ◌^◌, ◌≡◌, ◌≢◌, refl, ap, true, false, Bool-cases, inl, inr, List, [],
  ◌∷◌, arith, length, ltb, ◌==◌,
}
use cpp_projects.Base.Entries.{AllEntries, AllEntries-mono}
use cpp_projects.Types.{Price, Quantity, Side, buy, sell}
use cpp_projects.Lob.{
  Order, PriceLevel, Levels, OrderBook, Matched, Round, breaks, goes_on, before, keep_level, popped,
  crosses, trade_front, trade_level, round, match_loop, count_orders, opposite_levels, match_order,
}
use cpp_projects.Lob.Ladder.{
  IsLadder, sum, total, AllPrices, keep_level-AllPrices, keep_level-IsLadder,
}

abbrev pub other : Side → Side
other buy = sell
other sell = buy

-- No level of a side is at a price that the limit trades at.
abbrev pub NoneCrosses : Side → Price → Levels → Type 0
NoneCrosses s limit ls = AllPrices (λ p. crosses s limit p ≡ false) ls

crosses-before :
    (s : Side) (limit p q : Price)
    → crosses s limit p ≡ false
    → before (other s) p q ≡ true
    → crosses s limit q ≡ false
crosses-before buy limit p q h k = ground arith
crosses-before sell limit p q h k = ground arith

total-keep_level :
    (p : Price) (front : Order) (others : List Order) (level : PriceLevel) (rest : Levels)
    → (total (keep_level p (popped front others level) rest) ≡ sum others + total rest)
      × (count_orders (keep_level p (popped front others level) rest)
          ≡ length others + count_orders rest)
total-keep_level p front [] level rest = (omega arith, omega arith)
total-keep_level p front (o ∷ os) level rest = (refl, refl)

-- What a match has done: the quantity filled is what the other side has lost, it is no more than was
-- asked for, and where it is less nothing is left to trade with.
abbrev pub IsMatch : Side → Price → Quantity → Quantity → Levels → Matched → Type 0
IsMatch s limit asked filled ls (f, ls', index) =
    IsLadder (other s) ls'
    × (total ls' + f ≡ total ls + filled)
    × (f ≤ filled + asked)
    × (f < filled + asked → NoneCrosses s limit ls')

abbrev IsRound : Side → Price → Quantity → Quantity → Levels → Round → Type 0
IsRound s limit asked filled ls (breaks m) = IsMatch s limit asked filled ls m
IsRound s limit asked filled ls (goes_on left f ls' index) =
    IsLadder (other s) ls'
    × (total ls' + f ≡ total ls + filled)
    × (f + left ≡ filled + asked)
    × (count_orders ls' < count_orders ls)

module _ (s : Side) (limit : Price) (asked filled : Quantity)
    (small : filled + asked < 2 ^ 32) where
  trade_front-IsRound :
      (p : Price) (level : PriceLevel) (front : Order) (others : List Order) (rest : Levels)
      → (index : List (ℕ × (Side × Price))) → level.orders ≡ front ∷ others
      → AllEntries (λ q l. before (other s) p q ≡ true) rest
      → IsLadder (other s) rest
      → IsRound s limit asked filled
          ((p, level) ∷ rest)
          (trade_front asked filled p level front others rest index)
  unfolding trade_front
  trade_front-IsRound p level front others rest index queue ahead w =
      let (worth, left) = total-keep_level p front others level rest in
      let here : sum level.orders ≡ front.quantity + sum others = ap sum queue in
      let long : length level.orders ≡ suc (length others) =
        ap (λ (os : List Order). length os) queue in
      elim (Bool-cases (ltb asked front.quantity)) [
        | inl less ↦
            let bound : asked < front.quantity = ground (arith, less) in
            rw (trade_front, less)
              (
                (λ h. cc, ahead, w),
                omega (arith, here, bound),
                omega arith,
                λ h. absurd (omega arith),
              )
        | inr enough ↦ elim (Bool-cases (asked == front.quantity)) [
          | inl exact ↦
              let same : asked ≡ front.quantity = ground (arith, exact) in
              rw (trade_front, enough, exact)
                (
                  keep_level-IsLadder (other s) p (popped front others level) rest ahead w,
                  omega (arith, here, same, worth),
                  omega arith,
                  λ h. absurd (omega arith),
                )
          | inr more ↦
              let bound : front.quantity < asked = ground (arith, enough, more) in
              rw (trade_front, enough, more)
                (
                  keep_level-IsLadder (other s) p (popped front others level) rest ahead w,
                  omega (arith, here, bound, worth),
                  omega (arith, bound),
                  omega (arith, left, long),
                )
        ]
      ]

  trade_level-IsRound :
      (p : Price) (level : PriceLevel) (os : List Order) (rest : Levels)
      (index : List (ℕ × (Side × Price)))
      → level.orders ≡ os
      → level.orders ≢ []
      → AllEntries (λ q l. before (other s) p q ≡ true) rest
      → IsLadder (other s) rest
      → IsRound s limit asked filled
          ((p, level) ∷ rest)
          (trade_level asked filled p level os rest index)
  trade_level-IsRound p level [] rest index queue some_order ahead w = absurd (some_order queue)
  trade_level-IsRound p level (front ∷ others) rest index queue some_order ahead w =
      trade_front-IsRound p level front others rest index queue ahead w

  round-IsRound :
      (ls : Levels) (index : List (ℕ × (Side × Price)))
      → IsLadder (other s) ls
      → IsRound s limit asked filled ls (round s limit asked filled ls index)
  unfolding round
  round-IsRound [] index w = (tt, refl, omega arith, λ h. tt)
  round-IsRound ((p, level) ∷ rest) index (some_order, ahead, w) =
      elim (Bool-cases (crosses s limit p)) [
        | inl trades ↦
            rw (round, trades)
              (trade_level-IsRound p level level.orders rest index refl some_order ahead w)
        | inr too_far ↦
            rw (round, too_far)
              (
                (some_order, ahead, w),
                refl,
                omega arith,
                λ h. (
                  too_far,
                  AllEntries-mono _ _ rest (λ q l k. crosses-before s limit p q too_far k) ahead,
                ),
              )
      ]

match_loop-IsMatch :
    (fuel : ℕ) (s : Side) (limit : Price) (asked filled : Quantity) (ls : Levels)
    → (index : List (ℕ × (Side × Price))) → filled + asked < 2 ^ 32
    → count_orders ls < fuel
    → IsLadder (other s) ls
    → IsMatch s limit asked filled ls (match_loop fuel s limit asked filled ls index)
unfolding match_loop
match_loop-IsMatch zero s limit asked filled ls index small enough w = absurd (omega arith)
match_loop-IsMatch (suc fuel) s limit asked filled ls index small enough w =
    go (round s limit asked filled ls index) (round-IsRound s limit asked filled small ls index w)
      (match_loop-IsMatch fuel s limit)
  where
    go :
        (r : Round)
        → IsRound s limit asked filled ls r
        → ((a f : Quantity) (l : Levels) (i : List (ℕ × (Side × Price)))
            → f + a < 2 ^ 32
            → count_orders l < fuel
            → IsLadder (other s) l
            → IsMatch s limit a f l (match_loop fuel s limit a f l i))
        → IsMatch s limit asked filled ls
            (elim r [ breaks m ↦ m | goes_on a f l i ↦ match_loop fuel s limit a f l i ])
    go (breaks m) h on = h
    go (goes_on a f l i) (ladder, kept, same, fewer) on =
        let (ladder', kept', most, rest) =
          on a f l i (omega (arith, same, small)) (omega (arith, fewer, enough)) ladder in
        (
          ladder',
          omega (arith, kept, kept'),
          omega (arith, most, same),
          λ h. rest (omega (arith, h, same)),
        )

-- Prices only go away from the other side.
abbrev AllIn : (Price → Type 0) → Round → Type 0
AllIn P (breaks (f, ls, index)) = AllPrices P ls
AllIn P (goes_on left f ls index) = AllPrices P ls

trade_level-AllPrices :
    (P : Price → Type 0) (asked filled : Quantity) (p : Price) (level : PriceLevel)
    (os : List Order) (rest : Levels)
    → (index : List (ℕ × (Side × Price))) → AllPrices P ((p, level) ∷ rest)
    → AllIn P (trade_level asked filled p level os rest index)
unfolding trade_front
trade_level-AllPrices P asked filled p level [] rest index w = w
trade_level-AllPrices P asked filled p level (front ∷ others) rest index w =
    let kept : AllPrices P (keep_level p (popped front others level) rest) =
      keep_level-AllPrices P p (popped front others level) rest w.0 w.1 in
    elim (Bool-cases (ltb asked front.quantity)) [
      | inl less ↦ rw (trade_front, less) w
      | inr enough ↦ elim (Bool-cases (asked == front.quantity)) [
        | inl exact ↦ rw (trade_front, enough, exact) kept
        | inr more ↦ rw (trade_front, enough, more) kept
      ]
    ]

round-AllPrices :
    (P : Price → Type 0) (s : Side) (limit : Price) (asked filled : Quantity) (ls : Levels)
    → (index : List (ℕ × (Side × Price))) → AllPrices P ls
    → AllIn P (round s limit asked filled ls index)
unfolding round trade_front
round-AllPrices P s limit asked filled [] index w = tt
round-AllPrices P s limit asked filled ((p, level) ∷ rest) index w =
    elim (Bool-cases (crosses s limit p)) [
      | inl trades ↦
          rw (round, trades)
            (trade_level-AllPrices P asked filled p level level.orders rest index w)
      | inr too_far ↦ rw (round, too_far) w
    ]

match_loop-AllPrices :
    (P : Price → Type 0) (fuel : ℕ) (s : Side) (limit : Price) (asked filled : Quantity)
    (ls : Levels)
    → (index : List (ℕ × (Side × Price))) → AllPrices P ls
    → AllPrices P (match_loop fuel s limit asked filled ls index).1
unfolding match_loop
match_loop-AllPrices P zero s limit asked filled ls index w = w
match_loop-AllPrices P (suc fuel) s limit asked filled ls index w =
    go (round s limit asked filled ls index) (round-AllPrices P s limit asked filled ls index w)
      (match_loop-AllPrices P fuel s limit)
  where
    go :
        (r : Round)
        → AllIn P r
        → ((a f : Quantity) (l : Levels) (i : List (ℕ × (Side × Price)))
            → AllPrices P l
            → AllPrices P (match_loop fuel s limit a f l i).1)
        → AllPrices P
            (elim r as (λ x. Matched) [
              | breaks m ↦ m
              | goes_on a f l i ↦ match_loop fuel s limit a f l i
            ]).1
    go (breaks m) h on = h
    go (goes_on a f l i) h on = on a f l i h

-- Where a book's other side is in order: what is filled of an order of 32 bits is what the other side has
-- lost, no more than the order has, and if it is less, then no order is left there that the limit price
-- of the order trades with.
pub match_order-IsMatch :
    (order : Order) (b : OrderBook)
    → order.quantity < 2 ^ 32
    → IsLadder (other order.side) (opposite_levels order.side b)
    → IsMatch order.side order.price order.quantity 0
        (opposite_levels order.side b)
        (match_order order b)
unfolding match_order
match_order-IsMatch order b small w =
    match_loop-IsMatch (suc (count_orders (opposite_levels order.side b))) order.side order.price
      order.quantity 0 (opposite_levels order.side b) b.order_index (omega (arith, small))
      (omega arith) w

pub match_order-AllPrices :
    (P : Price → Type 0) (order : Order) (b : OrderBook)
    → AllPrices P (opposite_levels order.side b)
    → AllPrices P (match_order order b).1
unfolding match_order
match_order-AllPrices P order b w =
    match_loop-AllPrices P (suc (count_orders (opposite_levels order.side b))) order.side
      order.price order.quantity 0 (opposite_levels order.side b) b.order_index w
