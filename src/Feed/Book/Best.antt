-- ===== src/Feed/Book/Best.antt =====
-- mdh/src/book/order_book.cpp: best_bid and best_ask against the orders that the book holds.
use mathlib.Core.Path.{subst}
use cpp_projects.Base.{
  ℕ, ◌<◌, ◌%◌, ◌^◌, ◌≡◌, ◌≢◌, ◌⊎◌, refl, sym, ap, ◌∙◌, true, Bool-cases, Option-cases, inl, inr,
  Option, none, some, List, [], ◌∷◌,
}
use cpp_projects.Base.Int.{◌==ℤ◌, ==ℤ_iff}
use cpp_projects.Base.Entries.{AllEntries}
use cpp_projects.Base.Lookups.{same_self, find-erase_self}
use cpp_projects.Base.Map.{ℕ_key, find, erase, insert_or_assign}
use cpp_projects.Types.{Price, Quantity, Side, buy, sell}
use cpp_projects.Feed.Book.{
  RestingOrder, PriceLevel, Levels, before, OrderLocation, OrderBook, levels, empty_book,
  add_to_level, with_level, take_order, invalid_order, insert_at, erase_at, add_order, cancel_order,
  modify_order, PriceLevelView, best_level, best_bid, best_ask,
}
use cpp_projects.Feed.Book.Levels.{IsSorted, queue_at}
use cpp_projects.Feed.Book.Contents.{quantity_of, Held, held_at, held, IsBook}
use cpp_projects.Feed.Book.Changed.{changed-levels}
use cpp_projects.Feed.Book.Removal.{removal, removal-IsBook}
use cpp_projects.Feed.Book.Placement.{insert_at-placement, quantity_of-free}
use cpp_projects.Feed.Book.Totals.{total, AllLevels, with_level-AllLevels, take_order-AllLevels}
use cpp_projects.Feed.Book.Refines.{
  BookCall, add_call, cancel_call, modify_call, clear_call, perform, performs, perform-IsBook,
  empty_book-IsBook,
}

abbrev LevelsOf : OrderBook → Type 0
LevelsOf b = (t : Side) → AllLevels (levels t b)

-- The quantities of the calls are of 64 bits.
abbrev pub HasQuantity : BookCall → Type 0
HasQuantity (add_call id price qty side) = qty < 2 ^ 64
HasQuantity (cancel_call id) = Unit
HasQuantity (modify_call id price qty) = qty < 2 ^ 64
HasQuantity clear_call = Unit

insert_at-LevelsOf :
    (s : Side) (id : ℕ) (p : Price) (q : Quantity) (b : OrderBook)
    → IsBook b
    → find id b.order_index ≡ none
    → q < 2 ^ 64
    → LevelsOf b
    → LevelsOf (insert_at s id p q b)
insert_at-LevelsOf s id p q b w free small h = rw (insert_at-placement s id p q b) (
    changed-levels b s (with_level s p (add_to_level id q) (levels s b))
      (insert_or_assign id (record { side = s; price = p; it = id }) b.order_index) AllLevels h
      (with_level-AllLevels s p id q (levels s b) small (quantity_of-free b s p id w free) (h s)))

removal-LevelsOf :
    (id : ℕ) (loc : OrderLocation) (b : OrderBook) → LevelsOf b → LevelsOf (removal id loc b)
unfolding erase_at
removal-LevelsOf id loc b h =
    changed-levels b loc.side (take_order loc.price loc.it (levels loc.side b))
      (erase id b.order_index) AllLevels h
      (take_order-AllLevels loc.price loc.it (levels loc.side b) (h loc.side))

empty_book-LevelsOf : LevelsOf empty_book
empty_book-LevelsOf buy = tt
empty_book-LevelsOf sell = tt

perform-LevelsOf :
    (c : BookCall) (b : OrderBook)
    → HasQuantity c
    → IsBook b
    → LevelsOf b
    → LevelsOf (perform c b).1
unfolding add_order cancel_order modify_order
perform-LevelsOf (add_call id price qty side) b small w h =
    elim (Option-cases (invalid_order price qty)) [
      | inr (e, bad) ↦ rw (add_order, bad) h
      | inl fine ↦ elim (Option-cases (find id b.order_index)) [
        | inr (loc, known) ↦ rw (add_order, fine, known) h
        | inl free ↦
            rw (add_order, fine, free) (insert_at-LevelsOf side id price qty b w free small h)
      ]
    ]
perform-LevelsOf (cancel_call id) b small w h = elim (Option-cases (find id b.order_index)) [
  | inl free ↦ rw (cancel_order, free) h
  | inr (loc, known) ↦ rw (cancel_order, known) (removal-LevelsOf id loc b h)
]
perform-LevelsOf (modify_call id price qty) b small w h =
    elim (Option-cases (invalid_order price qty)) [
      | inr (e, bad) ↦ rw (modify_order, bad) h
      | inl fine ↦ elim (Option-cases (find id b.order_index)) [
        | inl free ↦ rw (modify_order, fine, free) h
        | inr (loc, known) ↦
            rw (modify_order, fine, known)
              (insert_at-LevelsOf loc.side id price qty (removal id loc b)
                (removal-IsBook id loc b w known) (find-erase_self id b.order_index) small
                (removal-LevelsOf id loc b h))
      ]
    ]
perform-LevelsOf clear_call b small w h = empty_book-LevelsOf

abbrev pub AllHaveQuantity : List BookCall → Type 0
AllHaveQuantity [] = Unit
AllHaveQuantity (c ∷ cs) = HasQuantity c × AllHaveQuantity cs

performs-LevelsOf :
    (cs : List BookCall) (b : OrderBook)
    → AllHaveQuantity cs
    → IsBook b
    → LevelsOf b
    → IsBook (performs cs b).1 × LevelsOf (performs cs b).1
performs-LevelsOf [] b small w h = (w, h)
performs-LevelsOf (c ∷ cs) b small w h =
    performs-LevelsOf cs (perform c b).1 small.1 (perform-IsBook c b w)
      (perform-LevelsOf c b small.0 w h)

-- An order of a side that stands at a price, or none.
abbrev pub HoldsAt : OrderBook → Side → Price → Type 0
HoldsAt b s p = (j : ℕ) × (h : Held) × (held b j ≡ some h) × (h.side ≡ s) × (h.price ≡ p)

-- What the best level of a side is: the price of some order of the side, and no order of the side stands at
-- a better one; none where the side has no order.
abbrev pub IsBest : Side → OrderBook → Option PriceLevelView → Type 0
IsBest s b none = (j : ℕ) (h : Held) → held b j ≡ some h → h.side ≢ s
IsBest s b (some v) =
    HoldsAt b s v.price
    × ((j : ℕ) (h : Held)
        → held b j ≡ some h
        → h.side ≡ s
        → (h.price ≡ v.price) ⊎ (before s v.price h.price ≡ true))
    × (v.aggregate_quantity ≡ total (queue_at v.price (levels s b)) % 2 ^ 64)

-- An order that is held stands in the queue of its place.
held_at-quantity :
    (b : OrderBook) (j : ℕ) (o : Option OrderLocation) (h : Held)
    → held_at b j o ≡ some h
    → quantity_of b h.side h.price j ≡ some h.quantity
held_at-quantity b j none h there = absurd cc
held_at-quantity b j (some loc) h there = elim (Option-cases (quantity_of b loc.side loc.price j)) [
  | inl free ↦ let nothing : held_at b j (some loc) ≡ none = rw (held_at, free) refl in absurd cc
  | inr (q, at) ↦
      let value : held_at b j (some loc)
          ≡ some (record { side = loc.side; price = loc.price; quantity = q }) =
        rw (held_at, at) refl in
      let same : record { side = loc.side; price = loc.price; quantity = q } ≡ h = cc in
      subst (λ (x : Held). quantity_of b x.side x.price j ≡ some x.quantity) same at
]

held-quantity :
    (b : OrderBook) (j : ℕ) (h : Held)
    → held b j ≡ some h
    → quantity_of b h.side h.price j ≡ some h.quantity
unfolding held
held-quantity b j h there = held_at-quantity b j (find j b.order_index) h there

quantity-held :
    (b : OrderBook) (s : Side) (p : Price) (j : ℕ) (q : Quantity)
    → IsBook b
    → quantity_of b s p j ≡ some q
    → HoldsAt b s p
unfolding held
quantity-held b s p j q w there =
    let (loc, known, side, price) = w.located s p j q there in
    let at : quantity_of b loc.side loc.price j ≡ some q =
      ap (λ t. quantity_of b t loc.price j) side ∙ ap (λ r. quantity_of b s r j) price ∙ there in
    (
      j,
      record { side = loc.side; price = loc.price; quantity = q },
      ap (held_at b j) known ∙ rw (held_at, at) refl,
      side,
      price,
    )

queue_at-All :
    (P : Price → Type 0) (ls : Levels) (r : Price) (j : ℕ) (q : Quantity)
    → AllEntries (λ o l. P o) ls
    → find j (queue_at r ls) ≡ some q
    → P r
unfolding find
queue_at-All P [] r j q all there = absurd cc
queue_at-All P ((p, level) ∷ rest) r j q all there = elim (Bool-cases (p ==ℤ r)) [
  | inl same ↦ subst P ((==ℤ_iff p r).0 same) all.0
  | inr other ↦
      let later : queue_at r ((p, level) ∷ rest) ≡ queue_at r rest = rw (other) refl in
      queue_at-All P rest r j q all.1 (sym (ap (λ os. find j os) later) ∙ there)
]

queue_at-ranked :
    (s : Side) (p : Price) (level : PriceLevel) (rest : Levels) (r : Price) (j : ℕ) (q : Quantity)
    → AllEntries (λ o l. before s p o ≡ true) rest
    → find j (queue_at r ((p, level) ∷ rest)) ≡ some q
    → (r ≡ p) ⊎ (before s p r ≡ true)
queue_at-ranked s p level rest r j q ahead there = elim (Bool-cases (p ==ℤ r)) [
  | inl same ↦ inl (sym ((==ℤ_iff p r).0 same))
  | inr other ↦
      let later : queue_at r ((p, level) ∷ rest) ≡ queue_at r rest = rw (other) refl in
      inr (
        queue_at-All (λ o. before s p o ≡ true) rest r j q ahead
          (sym (ap (λ os. find j os) later) ∙ there))
]

find-first : (os : List RestingOrder) → os ≢ [] → (j : ℕ) × ((q : Quantity) × (find j os ≡ some q))
unfolding find
find-first [] ne = absurd (ne refl)
find-first ((id, q) ∷ os) ne = (id, (q, rw (same_self id) refl))

best_level-IsBest_of :
    (s : Side) (b : OrderBook) (ls : Levels)
    → levels s b ≡ ls
    → IsBook b
    → IsSorted s ls
    → AllLevels ls
    → IsBest s b (best_level ls)
unfolding find
best_level-IsBest_of s b [] here w sorted all = λ j h there side.
    let found : quantity_of b h.side h.price j ≡ some h.quantity = held-quantity b j h there in
    let nowhere : quantity_of b h.side h.price j ≡ none =
      ap (λ t. quantity_of b t h.price j) side ∙ ap (λ l. find j (queue_at h.price l)) here in
    cc
best_level-IsBest_of s b ((p, level) ∷ rest) here w sorted all =
    let front : queue_at p ((p, level) ∷ rest) ≡ level.orders = rw ((==ℤ_iff p p).1 refl) refl in
    let (j, (q, first)) = find-first level.orders all.0.occupied in
    (
      quantity-held b s p j q w
          (ap (λ l. find j (queue_at p l)) here ∙ ap (λ os. find j os) front ∙ first),
      (λ k h there side.
          let found : quantity_of b h.side h.price k ≡ some h.quantity =
            held-quantity b k h there in
          queue_at-ranked s p level rest h.price k h.quantity sorted.0 (
            sym (
              ap (λ t. quantity_of b t h.price k) side ∙ ap (λ l. find k (queue_at h.price l)) here)
            ∙ found)),
      all.0.sums ∙ ap (λ os. total os % 2 ^ 64) (sym (ap (λ l. queue_at p l) here ∙ front)),
    )

-- After any calls with quantities of 64 bits on an empty book, the best bid is the highest price at which
-- the book holds a buy order and the best ask the lowest one of a sell order, with the sum of the
-- quantities queued there modulo 2 ^ 64 as its aggregate; there is none exactly where the side is empty.
pub performs-IsBest :
    (calls : List BookCall)
    → AllHaveQuantity calls
    → IsBest buy (performs calls empty_book).1 (best_bid (performs calls empty_book).1)
      × IsBest sell (performs calls empty_book).1 (best_ask (performs calls empty_book).1)
performs-IsBest calls small =
    let b : OrderBook = (performs calls empty_book).1 in
    let (w, h) = performs-LevelsOf calls empty_book small empty_book-IsBook empty_book-LevelsOf in
    (
      best_level-IsBest_of buy b b.bids refl w (w.sorted buy) (h buy),
      best_level-IsBest_of sell b b.asks refl w (w.sorted sell) (h sell),
    )
