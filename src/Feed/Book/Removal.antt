-- ===== src/Feed/Book/Removal.antt =====
-- mdh/src/book/order_book.cpp: erase_at and the index entry of the order that it takes out.
use cpp_projects.Base.{ℕ, ◌≡◌, ◌≢◌, ◌⊎◌, sym, ap, ◌∙◌, Option-cases, inl, inr, none, some, List}
use cpp_projects.Base.Lookups.{find-erase_self, find-erase_ne}
use cpp_projects.Base.Map.{ℕ_key, find, erase}
use cpp_projects.Types.{Price, Quantity, Side}
use cpp_projects.Feed.Book.{OrderLocation, OrderBook, Levels, levels, take_order, erase_at}
use cpp_projects.Feed.Book.Levels.{
  queue_at, take_order-IsSorted, queue_at-take_order_self, queue_at-take_order_ne,
}
use cpp_projects.Feed.Book.Contents.{place_cases, quantity_of, held_at, held, IsBook}
use cpp_projects.Feed.Book.Changed.{
  id_cases, held_at-same, levels-changed_self, changed-IsSorted, queue_at-changed_away,
}

find-erased :
    (j id : ℕ) (l : OrderLocation) (m : List (ℕ × OrderLocation))
    → find j (erase id m) ≡ some l
    → (j ≢ id) × (find j m ≡ some l)
find-erased j id l m found =
    let ne : j ≢ id = λ h. cc (find-erase_self id m, ap (λ i. find i (erase id m)) h) in
    (ne, sym (find-erase_ne j id m ne) ∙ found)

-- An order stands only where the index says.
only_place :
    (b : OrderBook) (t : Side) (r : Price) (id : ℕ) (q : Quantity) (loc : OrderLocation)
    → IsBook b
    → find id b.order_index ≡ some loc
    → quantity_of b t r id ≡ some q
    → (loc.side ≡ t) × (loc.price ≡ r)
only_place b t r id q loc w known found =
    let (l, lfound, side, price) = w.located t r id q found in
    let same : l ≡ loc = cc in
    (
      sym (ap (λ (o : OrderLocation). o.side) same) ∙ side,
      sym (ap (λ (o : OrderLocation). o.price) same) ∙ price,
    )

quantity_of-elsewhere :
    (b : OrderBook) (t : Side) (r : Price) (id : ℕ) (loc : OrderLocation)
    → IsBook b
    → find id b.order_index ≡ some loc
    → (t ≢ loc.side) ⊎ (r ≢ loc.price)
    → quantity_of b t r id ≡ none
quantity_of-elsewhere b t r id loc w known away = elim (Option-cases (quantity_of b t r id)) [
  | inl free ↦ free
  | inr (q, found) ↦
      let (side, price) = only_place b t r id q loc w known found in
      elim away [ inl ne ↦ absurd (ne (sym side)) | inr ne ↦ absurd (ne (sym price)) ]
]

-- cancel_order, where the index has the id: the order is gone, and no other is touched.
module _ (id : ℕ) (loc : OrderLocation) (b : OrderBook) where
  abbrev pub removal : OrderBook
  removal = record (erase_at loc b) { order_index = erase id b.order_index }

  removal-queue_self :
      IsBook b
      → loc.it ≡ id
      → queue_at loc.price (levels loc.side removal)
        ≡ erase id (queue_at loc.price (levels loc.side b))
  unfolding erase_at
  removal-queue_self w own =
      let ls : Levels = take_order loc.price loc.it (levels loc.side b) in
      ap (λ l. queue_at loc.price l) (levels-changed_self b loc.side ls (erase id b.order_index))
      ∙ queue_at-take_order_self loc.price loc.it loc.side (levels loc.side b) (w.sorted loc.side)
      ∙ ap (λ i. erase i (queue_at loc.price (levels loc.side b))) own

  removal-queue_away :
      (t : Side) (r : Price)
      → (t ≢ loc.side) ⊎ (r ≢ loc.price)
      → queue_at r (levels t removal) ≡ queue_at r (levels t b)
  unfolding erase_at
  removal-queue_away t r away =
      let ls : Levels = take_order loc.price loc.it (levels loc.side b) in
      queue_at-changed_away b loc.side ls (erase id b.order_index) t r loc.price
        (λ o ne. queue_at-take_order_ne loc.price loc.it o (levels loc.side b) ne) away

  removal-quantity_ne :
      (t : Side) (r : Price) (j : ℕ)
      → IsBook b
      → loc.it ≡ id
      → j ≢ id
      → quantity_of removal t r j ≡ quantity_of b t r j
  removal-quantity_ne t r j w own ne = elim (place_cases t loc.side r loc.price) [
    | inl (side, price) ↦
        rw (side, price, removal-queue_self w own)
          (find-erase_ne j id (queue_at loc.price (levels loc.side b)) ne)
    | inr away ↦ ap (λ os. find j os) (removal-queue_away t r away)
  ]

  removal-quantity_self :
      (t : Side) (r : Price)
      → IsBook b
      → find id b.order_index ≡ some loc
      → quantity_of removal t r id ≡ none
  removal-quantity_self t r w known = elim (place_cases t loc.side r loc.price) [
    | inl (side, price) ↦
        rw (side, price, removal-queue_self w (w.own_it id loc known))
          (find-erase_self id (queue_at loc.price (levels loc.side b)))
    | inr away ↦
        ap (λ os. find id os) (removal-queue_away t r away)
        ∙ quantity_of-elsewhere b t r id loc w known away
  ]

  removal-located :
      (t : Side) (p : Price) (j : ℕ) (q : Quantity)
      → IsBook b
      → find id b.order_index ≡ some loc
      → quantity_of removal t p j ≡ some q
      → (l : OrderLocation) × (find j removal.order_index ≡ some l) × (l.side ≡ t) × (l.price ≡ p)
  removal-located t p j q w known found = elim (id_cases j id) [
    | inl same ↦
        let gone : quantity_of removal t p j ≡ none =
          rw (same) (removal-quantity_self t p w known) in
        absurd cc
    | inr ne ↦
        let own : loc.it ≡ id = w.own_it id loc known in
        let (l, lfound, side, price) =
          w.located t p j q (sym (removal-quantity_ne t p j w own ne) ∙ found) in
        (l, find-erase_ne j id b.order_index ne ∙ lfound, side, price)
  ]

  pub removal-IsBook : IsBook b → find id b.order_index ≡ some loc → IsBook removal
  unfolding erase_at
  removal-IsBook w known =
      let own : loc.it ≡ id = w.own_it id loc known in
      record {
        sorted =
            changed-IsSorted b loc.side (take_order loc.price loc.it (levels loc.side b))
              (erase id b.order_index) w.sorted
              (take_order-IsSorted loc.price loc.it loc.side (levels loc.side b)
                (w.sorted loc.side));
        own_it = λ j l found. w.own_it j l (find-erased j id l b.order_index found).1;
        indexed = λ j l found.
            let (ne, before) = find-erased j id l b.order_index found in
            let (q, there) = w.indexed j l before in
            (q, removal-quantity_ne l.side l.price j w own ne ∙ there);
        located = λ t p j q found. removal-located t p j q w known found;
      }

  pub held-removal_self : held removal id ≡ none
  unfolding held
  held-removal_self = ap (held_at removal id) (find-erase_self id b.order_index)

  pub held-removal_ne : (j : ℕ) → IsBook b → loc.it ≡ id → j ≢ id → held removal j ≡ held b j
  unfolding held
  held-removal_ne j w own ne =
      ap (held_at removal j) (find-erase_ne j id b.order_index ne)
      ∙ held_at-same b removal j (find j b.order_index) (λ t r. removal-quantity_ne t r j w own ne)
