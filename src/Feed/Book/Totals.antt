-- ===== src/Feed/Book/Totals.antt =====
-- mdh/src/book/order_book.cpp and mdh/include/book/price_level.hpp: no level is empty, and the aggregate
-- of a level against the orders in it.
use cpp_projects.Base.{
  ℕ, ◌+◌, ◌<◌, ◌%◌, ◌^◌, ◌≡◌, ◌≢◌, refl, sym, ap, ◌∙◌, false, Bool-cases, inl, inr, none, List, [],
  ◌∷◌, ◌++◌, arith, ◌==◌,
}
use cpp_projects.Base.Int.{◌==ℤ◌}
use cpp_projects.Base.Entries.{AllEntries}
use cpp_projects.Base.Lookups.{same_self, find-erase_self, find-erase_ne}
use cpp_projects.Base.Map.{ℕ_key, find, erase}
use cpp_projects.Types.{Price, Quantity, Side}
use cpp_projects.Feed.Book.{
  RestingOrder, PriceLevel, empty_level, add_to_level, quantity_at, remove_from_level,
  is_empty_level, Levels, before, with_level, take_order,
}
use cpp_projects.Feed.Book.Levels.{queue_at}
use cpp_projects.Feed.Book.Changed.{id_cases}
use cpp_projects.Feed.Book.Placement.{find-append_ne}

-- The sum of the quantities in a queue.
abbrev pub total : List RestingOrder → ℕ
total [] = 0
total ((id, q) ∷ os) = q + total os

-- The ids in a queue are all different, and the quantities are of 64 bits.
abbrev pub IsQueue : List RestingOrder → Type 0
IsQueue [] = Unit
IsQueue ((id, q) ∷ os) = (find id os ≡ none) × (q < 2 ^ 64) × IsQueue os

pub record IsLevel (level : PriceLevel) : Type 0 where
  pub occupied : level.orders ≢ []
  pub queue : IsQueue level.orders
  pub sums : level.aggregate_qty ≡ total level.orders % 2 ^ 64

total-append :
    (os : List RestingOrder) (id : ℕ) (q : Quantity) → total (os ++ ((id, q) ∷ [])) ≡ total os + q
total-append [] id q = omega arith
total-append ((k, r) ∷ os) id q = omega (arith, total-append os id q)

append-IsQueue :
    (os : List RestingOrder) (id : ℕ) (q : Quantity)
    → find id os ≡ none
    → q < 2 ^ 64
    → IsQueue os
    → IsQueue (os ++ ((id, q) ∷ []))
unfolding find
append-IsQueue [] id q free small w = (refl, small, tt)
append-IsQueue ((k, r) ∷ os) id q free small (fresh, bound, rest) = elim (id_cases k id) [
  | inl same ↦ absurd (ground (arith, same, same_self id))
  | inr ne ↦
      (find-append_ne k id q os ne ∙ fresh, bound, append-IsQueue os id q (ground arith) small rest)
]

erase-absent : (os : List RestingOrder) (id : ℕ) → find id os ≡ none → erase id os ≡ os
unfolding find erase
erase-absent [] id free = refl
erase-absent ((k, r) ∷ os) id free = elim (Bool-cases (k == id)) [
  | inl same ↦ absurd (ground (arith, same))
  | inr other ↦ rw (other) (ap (λ l. (k, r) ∷ l) (erase-absent os id (ground (arith, other))))
]

find-erase_absent :
    (os : List RestingOrder) (k id : ℕ) → find k os ≡ none → find k (erase id os) ≡ none
find-erase_absent os k id free = elim (id_cases k id) [
  | inl same ↦ rw (same) (find-erase_self id os)
  | inr ne ↦ find-erase_ne k id os ne ∙ free
]

erase-IsQueue : (os : List RestingOrder) (id : ℕ) → IsQueue os → IsQueue (erase id os)
unfolding erase
erase-IsQueue [] id w = tt
erase-IsQueue ((k, r) ∷ os) id (fresh, bound, rest) = elim (Bool-cases (k == id)) [
  | inl same ↦ rw (same) (erase-IsQueue os id rest)
  | inr other ↦ rw (other) (find-erase_absent os k id fresh, bound, erase-IsQueue os id rest)
]

total-erase :
    (os : List RestingOrder) (id : ℕ)
    → IsQueue os
    → (total (erase id os) + quantity_at (find id os) ≡ total os)
      × (quantity_at (find id os) < 2 ^ 64)
unfolding find erase
total-erase [] id w = (refl, omega arith)
total-erase ((k, r) ∷ os) id (fresh, bound, rest) = elim (Bool-cases (k == id)) [
  | inl same ↦
      let free : find id os ≡ none = ground (arith, same, fresh) in
      rw (same) (rw (erase-absent os id free) (omega arith), bound)
  | inr other ↦ let (sum, small) = total-erase os id rest in rw (other) (omega (arith, sum), small)
]

append_ne : (os : List RestingOrder) (o : RestingOrder) → os ++ (o ∷ []) ≢ []
append_ne [] o h = cc
append_ne (k ∷ os) o h = cc

occupied_of_test :
    (os : List RestingOrder) (a : Quantity)
    → is_empty_level (record { orders = os; aggregate_qty = a }) ≡ false
    → os ≢ []
occupied_of_test [] a h = absurd cc
occupied_of_test (o ∷ os) a h = λ e. cc

add_to_level-IsLevel :
    (id : ℕ) (q : Quantity) (level : PriceLevel)
    → find id level.orders ≡ none
    → q < 2 ^ 64
    → IsQueue level.orders
    → level.aggregate_qty ≡ total level.orders % 2 ^ 64
    → IsLevel (add_to_level id q level)
add_to_level-IsLevel id q level free small w sums = record {
  occupied = append_ne level.orders (id, q);
  queue = append-IsQueue level.orders id q free small w;
  sums = omega (arith, sums, total-append level.orders id q);
}

remove_from_level-IsLevel :
    (id : ℕ) (level : PriceLevel)
    → IsLevel level
    → is_empty_level (remove_from_level id level) ≡ false
    → IsLevel (remove_from_level id level)
unfolding remove_from_level
remove_from_level-IsLevel id level w more =
    let (sum, small) = total-erase level.orders id w.queue in
    record {
      occupied = occupied_of_test (erase id level.orders) level.aggregate_qty more;
      queue = erase-IsQueue level.orders id w.queue;
      sums = omega (arith, w.sums, sum, small);
    }

-- Every level of a side.
abbrev pub AllLevels : Levels → Type 0
AllLevels ls = AllEntries (λ p level. IsLevel level) ls

pub with_level-AllLevels :
    (s : Side) (price : Price) (id : ℕ) (q : Quantity) (ls : Levels)
    → q < 2 ^ 64
    → find id (queue_at price ls) ≡ none
    → AllLevels ls
    → AllLevels (with_level s price (add_to_level id q) ls)
unfolding with_level find
with_level-AllLevels s price id q [] small free w =
    (add_to_level-IsLevel id q empty_level refl small tt refl, tt)
with_level-AllLevels s price id q ((p, level) ∷ rest) small free w =
    elim (Bool-cases (p ==ℤ price)) [
      | inl same ↦
          let here : queue_at price ((p, level) ∷ rest) ≡ level.orders = rw (same) refl in
          rw (same) (
            add_to_level-IsLevel id q level (sym (ap (λ os. find id os) here) ∙ free) small
                w.0.queue w.0.sums,
            w.1,
          )
      | inr other ↦ elim (Bool-cases (before s price p)) [
        | inl ahead ↦
            rw (other, ahead) (add_to_level-IsLevel id q empty_level refl small tt refl, w)
        | inr behind ↦
            let later : queue_at price ((p, level) ∷ rest) ≡ queue_at price rest =
              rw (other) refl in
            rw (other, behind)
              (
                w.0,
                with_level-AllLevels s price id q rest small
                    (sym (ap (λ os. find id os) later) ∙ free) w.1,
              )
      ]
    ]

pub take_order-AllLevels :
    (price : Price) (id : ℕ) (ls : Levels) → AllLevels ls → AllLevels (take_order price id ls)
unfolding take_order
take_order-AllLevels price id [] w = tt
take_order-AllLevels price id ((p, level) ∷ rest) w = elim (Bool-cases (p ==ℤ price)) [
  | inl same ↦ elim (Bool-cases (is_empty_level (remove_from_level id level))) [
    | inl emptied ↦ rw (same, emptied) w.1
    | inr more ↦ rw (same, more) (remove_from_level-IsLevel id level w.0 more, w.1)
  ]
  | inr other ↦ rw (other) (w.0, take_order-AllLevels price id rest w.1)
]
