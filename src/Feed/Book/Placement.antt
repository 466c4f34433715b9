-- ===== src/Feed/Book/Placement.antt =====
-- mdh/src/book/order_book.cpp: insert_at of an id that the book does not have.
use cpp_projects.Base.{
  ℕ, ◌≡◌, ◌≢◌, ◌⊎◌, refl, sym, ap, ◌∙◌, Bool-cases, Option-cases, inl, inr, none, some, List, [],
  ◌∷◌, ◌++◌, arith, ◌==◌, if◌then◌else◌,
}
use cpp_projects.Base.Lookups.{same_self, same_ne, find-insert_self, find-insert_ne}
use cpp_projects.Base.Map.{ℕ_key, find, insert_or_assign}
use cpp_projects.Types.{Price, Quantity, Side}
use cpp_projects.Feed.Book.{
  RestingOrder, OrderLocation, OrderBook, Levels, levels, add_to_level, with_level, insert_at,
}
use cpp_projects.Feed.Book.Levels.{
  queue_at, queue_at-with_level_self, queue_at-with_level_ne, with_level-IsSorted,
}
use cpp_projects.Feed.Book.Contents.{
  place_cases, index-put_levels, quantity_of, held_at, held, IsBook,
}
use cpp_projects.Feed.Book.Changed.{
  id_cases, held_at-same, changed, levels-changed_self, changed-IsSorted, queue_at-changed_away,
}

-- A last order in a queue.
pub find-append_ne :
    (j id : ℕ) (q : Quantity) (os : List RestingOrder)
    → j ≢ id
    → find j (os ++ ((id, q) ∷ [])) ≡ find j os
unfolding find
find-append_ne j id q [] ne = rw (same_ne id j (λ h. ne (sym h))) refl
find-append_ne j id q ((k, r) ∷ os) ne =
    ap (λ o. if k == j then some r else o) (find-append_ne j id q os ne)

find-append_self :
    (id : ℕ) (q : Quantity) (os : List RestingOrder)
    → find id os ≡ none
    → find id (os ++ ((id, q) ∷ [])) ≡ some q
unfolding find
find-append_self id q [] h = rw (same_self id) refl
find-append_self id q ((k, r) ∷ os) h = elim (Bool-cases (k == id)) [
  | inl same ↦ absurd (ground (arith, same))
  | inr other ↦ rw (other) (find-append_self id q os (ground (arith, other)))
]

pub quantity_of-free :
    (b : OrderBook) (t : Side) (r : Price) (id : ℕ)
    → IsBook b
    → find id b.order_index ≡ none
    → quantity_of b t r id ≡ none
quantity_of-free b t r id w free = elim (Option-cases (quantity_of b t r id)) [
  | inl nothing ↦ nothing
  | inr (q, found) ↦ let (l, lfound, side, price) = w.located t r id q found in absurd cc
]

-- insert_at of an id that the book does not have.
module _ (s : Side) (id : ℕ) (p : Price) (q : Quantity) (b : OrderBook) where
  abbrev pub placed_levels : Levels
  placed_levels = with_level s p (add_to_level id q) (levels s b)

  abbrev pub placed_at : OrderLocation
  placed_at = record { side = s; price = p; it = id }

  abbrev pub placement : OrderBook
  placement = changed b s placed_levels (insert_or_assign id placed_at b.order_index)

  pub insert_at-placement : insert_at s id p q b ≡ placement
  unfolding insert_at
  insert_at-placement =
      ap
        (λ (m : List (ℕ × OrderLocation)).
          changed b s placed_levels (insert_or_assign id placed_at m))
        (index-put_levels s placed_levels b)

  placement-queue_self :
      IsBook b → queue_at p (levels s placement) ≡ queue_at p (levels s b) ++ ((id, q) ∷ [])
  placement-queue_self w =
      ap (λ l. queue_at p l)
        (levels-changed_self b s placed_levels (insert_or_assign id placed_at b.order_index))
      ∙ queue_at-with_level_self s p id q (levels s b) (w.sorted s)

  placement-queue_away :
      (t : Side) (r : Price)
      → (t ≢ s) ⊎ (r ≢ p)
      → queue_at r (levels t placement) ≡ queue_at r (levels t b)
  placement-queue_away t r away =
      queue_at-changed_away b s placed_levels (insert_or_assign id placed_at b.order_index) t r p
        (λ o ne. queue_at-with_level_ne s p id q o (add_to_level id q) (levels s b) ne) away

  placement-quantity_ne :
      (t : Side) (r : Price) (j : ℕ)
      → IsBook b
      → j ≢ id
      → quantity_of placement t r j ≡ quantity_of b t r j
  placement-quantity_ne t r j w ne = elim (place_cases t s r p) [
    | inl (side, price) ↦
        rw (side, price, placement-queue_self w)
          (find-append_ne j id q (queue_at p (levels s b)) ne)
    | inr away ↦ ap (λ os. find j os) (placement-queue_away t r away)
  ]

  placement-quantity_self :
      IsBook b → find id b.order_index ≡ none → quantity_of placement s p id ≡ some q
  placement-quantity_self w free =
      ap (λ os. find id os) (placement-queue_self w)
      ∙ find-append_self id q (queue_at p (levels s b)) (quantity_of-free b s p id w free)

  placement-located :
      (t : Side) (r : Price) (j : ℕ) (x : Quantity)
      → IsBook b
      → find id b.order_index ≡ none
      → quantity_of placement t r j ≡ some x
      → (l : OrderLocation) × (find j placement.order_index ≡ some l) × (l.side ≡ t) × (l.price ≡ r)
  placement-located t r j x w free found = elim (id_cases j id) [
    | inl same ↦ elim (place_cases t s r p) [
      | inl (side, price) ↦
          (placed_at, rw (same) (find-insert_self id placed_at b.order_index), sym side, sym price)
      | inr away ↦
          let none_here : quantity_of placement t r j ≡ none = rw (same) (
            ap (λ os. find id os) (placement-queue_away t r away)
            ∙ quantity_of-free b t r id w free) in
          absurd cc
    ]
    | inr ne ↦
        let (l, lfound, side, price) =
          w.located t r j x (sym (placement-quantity_ne t r j w ne) ∙ found) in
        (l, find-insert_ne j id placed_at b.order_index ne ∙ lfound, side, price)
  ]

  placement-indexed :
      (j : ℕ) (l : OrderLocation)
      → IsBook b
      → find id b.order_index ≡ none
      → find j placement.order_index ≡ some l
      → (l.it ≡ j) × ((x : Quantity) × (quantity_of placement l.side l.price j ≡ some x))
  placement-indexed j l w free found = elim (id_cases j id) [
    | inl same ↦
        let here : l ≡ placed_at = cc (find-insert_self id placed_at b.order_index) in
        rw (here, same) (refl, (q, placement-quantity_self w free))
    | inr ne ↦
        let there : find j b.order_index ≡ some l =
          sym (find-insert_ne j id placed_at b.order_index ne) ∙ found in
        let (x, at) = w.indexed j l there in
        (w.own_it j l there, (x, placement-quantity_ne l.side l.price j w ne ∙ at))
  ]

  pub placement-IsBook : IsBook b → find id b.order_index ≡ none → IsBook placement
  placement-IsBook w free = record {
    sorted =
        changed-IsSorted b s placed_levels (insert_or_assign id placed_at b.order_index) w.sorted
          (with_level-IsSorted s p id q (add_to_level id q) (levels s b) (w.sorted s));
    own_it = λ j l found. (placement-indexed j l w free found).0;
    indexed = λ j l found. (placement-indexed j l w free found).1;
    located = λ t r j x found. placement-located t r j x w free found;
  }

  pub held-placement_self :
      IsBook b
      → find id b.order_index ≡ none
      → held placement id ≡ some (record { side = s; price = p; quantity = q })
  unfolding held
  held-placement_self w free =
      ap (held_at placement id) (find-insert_self id placed_at b.order_index)
      ∙ rw (placement-quantity_self w free) refl

  pub held-placement_ne : (j : ℕ) → IsBook b → j ≢ id → held placement j ≡ held b j
  unfolding held
  held-placement_ne j w ne =
      ap (held_at placement j) (find-insert_ne j id placed_at b.order_index ne)
      ∙ held_at-same b placement j (find j b.order_index) (λ t r. placement-quantity_ne t r j w ne)
