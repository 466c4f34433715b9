-- ===== src/Feed/Book/Levels.antt =====
-- mdh/src/book/order_book.cpp: what a side of a book holds at a price, and the order of its levels.
use mathlib.Core.Path.{subst}
use cpp_projects.Base.{
  ℕ, ◌≡◌, ◌≢◌, refl, sym, ap, ◌∙◌, true, false, Bool-cases, inl, inr, List, [], ◌∷◌, ◌++◌, arith,
  if◌then◌else◌,
}
use cpp_projects.Base.Int.{◌==ℤ◌, ==ℤ_iff}
use cpp_projects.Base.Entries.{AllEntries, AllEntries-mono}
use cpp_projects.Base.Map.{ℕ_key, erase}
use cpp_projects.Types.{Price, Quantity, Side, buy, sell}
use cpp_projects.Feed.Book.{
  RestingOrder, PriceLevel, add_to_level, remove_from_level, is_empty_level, Levels, before,
  with_level, take_order,
}

before_ne : (s : Side) (p q : Price) → before s p q ≡ true → (p ==ℤ q) ≡ false
before_ne buy p q h = ground arith
before_ne sell p q h = ground arith

before_trans :
    (s : Side) (p q r : Price) → before s p q ≡ true → before s q r ≡ true → before s p r ≡ true
before_trans buy p q r h k = ground arith
before_trans sell p q r h k = ground arith

before_total :
    (s : Side) (p q : Price) → (p ==ℤ q) ≡ false → before s q p ≡ false → before s p q ≡ true
before_total buy p q h k = ground arith
before_total sell p q h k = ground arith

-- The levels come in the order of their prices, each price once.
abbrev pub IsSorted : Side → Levels → Type 0
IsSorted s [] = Unit
IsSorted s ((p, level) ∷ rest) = AllEntries (λ q l. before s p q ≡ true) rest × IsSorted s rest

-- The queue at a price, which is empty where there is no level.
abbrev pub queue_at : Price → Levels → List RestingOrder
queue_at price [] = []
queue_at price ((p, level) ∷ rest) = if p ==ℤ price then level.orders else queue_at price rest

test_ne : (p q : Price) → p ≢ q → (p ==ℤ q) ≡ false
test_ne p q ne = elim (Bool-cases (p ==ℤ q)) [
  | inl same ↦ absurd (ne ((==ℤ_iff p q).0 same))
  | inr other ↦ other
]

test_self : (p : Price) → (p ==ℤ p) ≡ true
test_self p = (==ℤ_iff p p).1 refl

-- A price ahead of all levels has none.
queue_at-ahead :
    (s : Side) (price : Price) (ls : Levels)
    → AllEntries (λ q l. before s price q ≡ true) ls
    → queue_at price ls ≡ []
queue_at-ahead s price [] h = refl
queue_at-ahead s price ((p, level) ∷ rest) h =
    let other : (p ==ℤ price) ≡ false = ground (arith, before_ne s price p h.0) in
    rw (other) (queue_at-ahead s price rest h.1)

ahead_of_all :
    (s : Side) (price p : Price) (rest : Levels)
    → before s price p ≡ true
    → AllEntries (λ q l. before s p q ≡ true) rest
    → AllEntries (λ q l. before s price q ≡ true) rest
ahead_of_all s price p rest h all =
    AllEntries-mono _ _ rest (λ q l k. before_trans s price p q h k) all

module _ (s : Side) (price : Price) (id : ℕ) (qty : Quantity) where
  pub queue_at-with_level_self :
      (ls : Levels)
      → IsSorted s ls
      → queue_at price (with_level s price (add_to_level id qty) ls)
        ≡ queue_at price ls ++ ((id, qty) ∷ [])
  unfolding with_level
  queue_at-with_level_self [] w = rw (test_self price) refl
  queue_at-with_level_self ((p, level) ∷ rest) w = elim (Bool-cases (p ==ℤ price)) [
    | inl same ↦ rw (same, same) refl
    | inr other ↦ elim (Bool-cases (before s price p)) [
      | inl ahead ↦
          rw
            (
              other,
              ahead,
              test_self price,
              queue_at-ahead s price rest (ahead_of_all s price p rest ahead w.0),
            )
            refl
      | inr behind ↦ rw (other, behind, other) (queue_at-with_level_self rest w.1)
    ]
  ]

  pub queue_at-with_level_ne :
      (other : Price) (f : PriceLevel → PriceLevel) (ls : Levels)
      → other ≢ price
      → queue_at other (with_level s price f ls) ≡ queue_at other ls
  unfolding with_level
  queue_at-with_level_ne other f [] ne = rw (test_ne price other (λ h. ne (sym h))) refl
  queue_at-with_level_ne other f ((p, level) ∷ rest) ne = elim (Bool-cases (p ==ℤ price)) [
    | inl same ↦
        let eq : p ≡ price = (==ℤ_iff p price).0 same in
        rw (eq, test_self price, test_ne price other (λ h. ne (sym h))) refl
    | inr differs ↦ elim (Bool-cases (before s price p)) [
      | inl ahead ↦ rw (differs, ahead, test_ne price other (λ h. ne (sym h))) refl
      | inr behind ↦
          rw (differs, behind)
            (ap (λ q. if p ==ℤ other then level.orders else q)
              (queue_at-with_level_ne other f rest ne))
    ]
  ]

  All-with_level :
      (P : Price → Type 0) (f : PriceLevel → PriceLevel) (ls : Levels)
      → P price
      → AllEntries (λ q l. P q) ls
      → AllEntries (λ q l. P q) (with_level s price f ls)
  unfolding with_level
  All-with_level P f [] p h = (p, tt)
  All-with_level P f ((q, level) ∷ rest) p h = elim (Bool-cases (q ==ℤ price)) [
    | inl same ↦ rw (same) h
    | inr other ↦ elim (Bool-cases (before s price q)) [
      | inl ahead ↦ rw (other, ahead) (p, h)
      | inr behind ↦ rw (other, behind) (h.0, All-with_level P f rest p h.1)
    ]
  ]

  pub with_level-IsSorted :
      (f : PriceLevel → PriceLevel) (ls : Levels)
      → IsSorted s ls
      → IsSorted s (with_level s price f ls)
  unfolding with_level
  with_level-IsSorted f [] w = (tt, tt)
  with_level-IsSorted f ((p, level) ∷ rest) w = elim (Bool-cases (p ==ℤ price)) [
    | inl same ↦ rw (same) w
    | inr other ↦ elim (Bool-cases (before s price p)) [
      | inl ahead ↦ rw (other, ahead) ((ahead, ahead_of_all s price p rest ahead w.0), w)
      | inr behind ↦
          rw (other, behind)
            (
              All-with_level (λ q. before s p q ≡ true) f rest (before_total s p price other behind)
                  w.0,
              with_level-IsSorted f rest w.1,
            )
    ]
  ]

empty_of_test :
    (os : List RestingOrder)
    → is_empty_level (record { orders = os; aggregate_qty = 0 }) ≡ true
    → os ≡ []
empty_of_test [] h = refl
empty_of_test (o ∷ os) h = cc

module _ (price : Price) (id : ℕ) where
  All-take_order :
      (P : Price → Type 0) (ls : Levels)
      → AllEntries (λ q l. P q) ls
      → AllEntries (λ q l. P q) (take_order price id ls)
  unfolding take_order
  All-take_order P [] h = tt
  All-take_order P ((q, level) ∷ rest) h = elim (Bool-cases (q ==ℤ price)) [
    | inl same ↦ elim (Bool-cases (is_empty_level (remove_from_level id level))) [
      | inl emptied ↦ rw (same, emptied) h.1
      | inr more ↦ rw (same, more) h
    ]
    | inr other ↦ rw (other) (h.0, All-take_order P rest h.1)
  ]

  pub take_order-IsSorted :
      (s : Side) (ls : Levels) → IsSorted s ls → IsSorted s (take_order price id ls)
  unfolding take_order
  take_order-IsSorted s [] w = tt
  take_order-IsSorted s ((p, level) ∷ rest) w = elim (Bool-cases (p ==ℤ price)) [
    | inl same ↦ elim (Bool-cases (is_empty_level (remove_from_level id level))) [
      | inl emptied ↦ rw (same, emptied) w.1
      | inr more ↦ rw (same, more) w
    ]
    | inr other ↦
        rw (other)
          (All-take_order (λ q. before s p q ≡ true) rest w.0, take_order-IsSorted s rest w.1)
  ]

  pub queue_at-take_order_self :
      (s : Side) (ls : Levels)
      → IsSorted s ls
      → queue_at price (take_order price id ls) ≡ erase id (queue_at price ls)
  unfolding take_order remove_from_level erase
  queue_at-take_order_self s [] w = refl
  queue_at-take_order_self s ((p, level) ∷ rest) w = elim (Bool-cases (p ==ℤ price)) [
    | inl same ↦
        let eq : p ≡ price = (==ℤ_iff p price).0 same in
        elim (Bool-cases (is_empty_level (remove_from_level id level))) [
          | inl emptied ↦
              let ahead : AllEntries (λ q l. before s price q ≡ true) rest =
                subst (λ r. AllEntries (λ q l. before s r q ≡ true) rest) eq w.0 in
              rw (same, emptied)
                (queue_at-ahead s price rest ahead
                  ∙ sym (empty_of_test (erase id level.orders) emptied))
          | inr more ↦ rw (same, more, same) refl
        ]
    | inr other ↦ rw (other, other) (queue_at-take_order_self s rest w.1)
  ]

  pub queue_at-take_order_ne :
      (other : Price) (ls : Levels)
      → other ≢ price
      → queue_at other (take_order price id ls) ≡ queue_at other ls
  unfolding take_order
  queue_at-take_order_ne other [] ne = refl
  queue_at-take_order_ne other ((p, level) ∷ rest) ne = elim (Bool-cases (p ==ℤ price)) [
    | inl same ↦
        let eq : p ≡ price = (==ℤ_iff p price).0 same in
        elim (Bool-cases (is_empty_level (remove_from_level id level))) [
          | inl emptied ↦
              rw (eq, test_self price, emptied, test_ne price other (λ h. ne (sym h))) refl
          | inr more ↦ rw (eq, test_self price, more, test_ne price other (λ h. ne (sym h))) refl
        ]
    | inr differs ↦
        rw (differs)
          (ap (λ q. if p ==ℤ other then level.orders else q) (queue_at-take_order_ne other rest ne))
  ]
