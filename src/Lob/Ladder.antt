-- ===== src/Lob/Ladder.antt =====
-- LimitOrderBook/src/order_book.cpp: the levels of a side, in the order of their prices.
use cpp_projects.Base.{
  ℕ, ◌+◌, ◌≡◌, ◌≢◌, refl, true, false, Bool-cases, inl, inr, List, [], ◌∷◌, ◌++◌, arith,
}
use cpp_projects.Base.Int.{◌==ℤ◌}
use cpp_projects.Base.Entries.{AllEntries, AllEntries-mono}
use cpp_projects.Types.{Price, Quantity, Side, buy, sell}
use cpp_projects.Lob.{
  Order, PriceLevel, Levels, level_add, before, at_level, keep_level, cancel_at, level_cancel,
  is_empty,
}

-- The levels come in the order of their prices, each with an order.
abbrev pub IsLadder : Side → Levels → Type 0
IsLadder s [] = Unit
IsLadder s ((p, level) ∷ rest) =
    (level.orders ≢ []) × AllEntries (λ q l. before s p q ≡ true) rest × IsLadder s rest

-- What rests on a side.
abbrev pub sum : List Order → Quantity
sum [] = 0
sum (o ∷ os) = o.quantity + sum os

abbrev pub total : Levels → Quantity
total [] = 0
total ((p, level) ∷ rest) = sum level.orders + total rest

-- What holds of the prices of a side.
abbrev pub AllPrices : (Price → Type 0) → Levels → Type 0
AllPrices P ls = AllEntries (λ p l. P p) ls

before_trans :
    (s : Side) (p q r : Price) → before s p q ≡ true → before s q r ≡ true → before s p r ≡ true
before_trans buy p q r h k = ground arith
before_trans sell p q r h k = ground arith

before_total :
    (s : Side) (p q : Price) → (p ==ℤ q) ≡ false → before s q p ≡ false → before s p q ≡ true
before_total buy p q h k = ground arith
before_total sell p q h k = ground arith

pub keep_level-AllPrices :
    (P : Price → Type 0) (p : Price) (level : PriceLevel) (rest : Levels)
    → P p
    → AllPrices P rest
    → AllPrices P (keep_level p level rest)
keep_level-AllPrices P p level rest here others = elim (Bool-cases (is_empty level)) [
  | inl emptied ↦ rw (emptied) others
  | inr more ↦ rw (more) (here, others)
]

occupied_of_test :
    (level : PriceLevel) (os : List Order) → level.orders ≡ os → is_empty level ≡ false → os ≢ []
occupied_of_test level os same more h = cc

pub keep_level-IsLadder :
    (s : Side) (p : Price) (level : PriceLevel) (rest : Levels)
    → AllEntries (λ q l. before s p q ≡ true) rest
    → IsLadder s rest
    → IsLadder s (keep_level p level rest)
keep_level-IsLadder s p level rest ahead w = elim (Bool-cases (is_empty level)) [
  | inl emptied ↦ rw (emptied) w
  | inr more ↦ rw (more) (occupied_of_test level level.orders refl more, ahead, w)
]

append_ne : (os : List Order) (o : Order) → os ++ (o ∷ []) ≢ []
append_ne [] o h = cc
append_ne (k ∷ os) o h = cc

sum-append : (os : List Order) (o : Order) → sum (os ++ (o ∷ [])) ≡ sum os + o.quantity
sum-append [] o = omega arith
sum-append (k ∷ os) o = omega (arith, sum-append os o)

module _ (s : Side) (price : Price) (order : Order) where
  pub at_level-AllPrices :
      (P : Price → Type 0) (ls : Levels)
      → P price
      → AllPrices P ls
      → AllPrices P (at_level s price (level_add order) ls)
  unfolding at_level
  at_level-AllPrices P [] here w = (here, tt)
  at_level-AllPrices P ((p, level) ∷ rest) here w = elim (Bool-cases (p ==ℤ price)) [
    | inl same ↦ rw (same) w
    | inr other ↦ elim (Bool-cases (before s price p)) [
      | inl ahead ↦ rw (other, ahead) (here, w)
      | inr behind ↦ rw (other, behind) (w.0, at_level-AllPrices P rest here w.1)
    ]
  ]

  pub at_level-IsLadder :
      (ls : Levels) → IsLadder s ls → IsLadder s (at_level s price (level_add order) ls)
  unfolding at_level level_add
  at_level-IsLadder [] w = (append_ne [] order, tt, tt)
  at_level-IsLadder ((p, level) ∷ rest) (some_order, ahead_of, w) =
      elim (Bool-cases (p ==ℤ price)) [
        | inl same ↦ rw (same) (append_ne level.orders order, ahead_of, w)
        | inr other ↦ elim (Bool-cases (before s price p)) [
          | inl ahead ↦
              rw (other, ahead)
                (
                  append_ne [] order,
                  (
                    ahead,
                    AllEntries-mono _ _ rest (λ q l k. before_trans s price p q ahead k) ahead_of,
                  ),
                  (some_order, ahead_of, w),
                )
          | inr behind ↦
              rw (other, behind)
                (
                  some_order,
                  at_level-AllPrices (λ q. before s p q ≡ true) rest
                      (before_total s p price other behind) ahead_of,
                  at_level-IsLadder rest w,
                )
        ]
      ]

  pub total-at_level :
      (ls : Levels) → total (at_level s price (level_add order) ls) ≡ total ls + order.quantity
  unfolding at_level level_add
  total-at_level [] = omega arith
  total-at_level ((p, level) ∷ rest) = elim (Bool-cases (p ==ℤ price)) [
    | inl same ↦ rw (same) (omega (arith, sum-append level.orders order))
    | inr other ↦ elim (Bool-cases (before s price p)) [
      | inl ahead ↦ rw (other, ahead) (omega arith)
      | inr behind ↦ rw (other, behind) (omega (arith, total-at_level rest))
    ]
  ]

pub cancel_at-AllPrices :
    (P : Price → Type 0) (price : Price) (id : ℕ) (ls : Levels)
    → AllPrices P ls
    → AllPrices P (cancel_at price id ls)
unfolding cancel_at
cancel_at-AllPrices P price id [] w = tt
cancel_at-AllPrices P price id ((p, level) ∷ rest) w = elim (Bool-cases (p ==ℤ price)) [
  | inl same ↦ rw (same) (keep_level-AllPrices P p (level_cancel id level).1 rest w.0 w.1)
  | inr other ↦ rw (other) (w.0, cancel_at-AllPrices P price id rest w.1)
]

pub cancel_at-IsLadder :
    (s : Side) (price : Price) (id : ℕ) (ls : Levels)
    → IsLadder s ls
    → IsLadder s (cancel_at price id ls)
unfolding cancel_at
cancel_at-IsLadder s price id [] w = tt
cancel_at-IsLadder s price id ((p, level) ∷ rest) (some_order, ahead, w) =
    elim (Bool-cases (p ==ℤ price)) [
      | inl same ↦ rw (same) (keep_level-IsLadder s p (level_cancel id level).1 rest ahead w)
      | inr other ↦ rw (other) (
        some_order,
        cancel_at-AllPrices (λ q. before s p q ≡ true) price id rest ahead,
        cancel_at-IsLadder s price id rest w,
      )
    ]
