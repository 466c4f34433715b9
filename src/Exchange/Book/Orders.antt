-- ===== src/Exchange/Book/Orders.antt =====
-- What each operation of the book of mdh/src/exchange/matching/matching_book.cpp does to the orders
-- in the slab. Relinking moves no order.
use cpp_projects.Base.{
  ℕ, ◌≡◌, refl, ◌∙◌, ◌<◌, inl, inr, some, arith, ◌==◌, if◌then◌else◌, Bool-cases, Option-cases,
}
use cpp_projects.Base.Array.{Array}
use cpp_projects.Types.{Price, Quantity, Side, buy, sell}
use cpp_projects.Exchange.Core.{BookOrder}
use cpp_projects.Exchange.Book.Index
use cpp_projects.Exchange.Book.Index.{LevelSlot, SideIndex, nil_slot}
use cpp_projects.Exchange.Book.{
  MatchingBook, SlabOrder, create, side_of, acquire_slot, release_slot, set_next, set_prev,
  link_back, unlink, file_order, add, unfile, remove_at, reduce_at, set_client_order_id_at,
  order_at, front_slot, front_of_best, reduce_front, remove_front,
}

-- The order in a slot of the slab.
abbrev slot_order : Array SlabOrder → ℕ → BookOrder
slot_order slab j = (slab.at j).order

slot_order-set_next :
    (slab : Array SlabOrder) (slot next j : ℕ)
    → slot_order (set_next slab slot next) j ≡ slot_order slab j
unfolding set_next
slot_order-set_next slab slot next j = ground arith

slot_order-set_prev :
    (slab : Array SlabOrder) (slot prev j : ℕ)
    → slot_order (set_prev slab slot prev) j ≡ slot_order slab j
unfolding set_prev
slot_order-set_prev slab slot prev j = ground arith

slot_order-link_back :
    (slab : Array SlabOrder) (level : LevelSlot) (slot j : ℕ)
    → slot_order (link_back slab level slot).0 j ≡ slot_order slab j
unfolding link_back
slot_order-link_back slab level slot j = elim (Bool-cases (level.tail == nil_slot)) [
  | inl e ↦ rw e linked
  | inr e ↦ rw e (
      slot_order-set_next (set_prev (set_next slab slot nil_slot) slot level.tail) level.tail slot j
      ∙ linked)
]
  where
    linked :
        slot_order (set_prev (set_next slab slot nil_slot) slot level.tail) j ≡ slot_order slab j
    linked =
        slot_order-set_prev (set_next slab slot nil_slot) slot level.tail j
        ∙ slot_order-set_next slab slot nil_slot j

slot_order-unlink :
    (slab : Array SlabOrder) (level : LevelSlot) (slot j : ℕ)
    → slot_order (unlink slab level slot).0 j ≡ slot_order slab j
unfolding unlink
slot_order-unlink slab level slot j = elim (Bool-cases ((slab.at slot).prev == nil_slot)) [
  | inl p ↦ elim (Bool-cases ((slab.at slot).next == nil_slot)) [
    | inl n ↦ rw (p, n)
    | inr n ↦ rw (p, n) (slot_order-set_prev slab (slab.at slot).next (slab.at slot).prev j)
  ]
  | inr p ↦ elim (Bool-cases ((slab.at slot).next == nil_slot)) [
    | inl n ↦ rw (p, n) spliced
    | inr n ↦
        rw (p, n)
          (slot_order-set_prev (set_next slab (slab.at slot).prev (slab.at slot).next)
              (slab.at slot).next (slab.at slot).prev j
            ∙ spliced)
  ]
]
  where
    spliced :
        slot_order (set_next slab (slab.at slot).prev (slab.at slot).next) j ≡ slot_order slab j
    spliced = slot_order-set_next slab (slab.at slot).prev (slab.at slot).next j

order_at-file_order :
    (b : MatchingBook) (side : Side) (price : Price) (slot j : ℕ)
    → order_at (file_order b side price slot) j ≡ order_at b j
unfolding order_at file_order
order_at-file_order b buy price slot j = slot_order-link_back b.slab _ slot j
order_at-file_order b sell price slot j = slot_order-link_back b.slab _ slot j

order_at-unfile :
    (b : MatchingBook) (side : Side) (price : Price) (level : LevelSlot) (slot j : ℕ)
    → order_at (unfile b side price level slot) j ≡ order_at b j
unfolding order_at unfile
order_at-unfile b buy price level slot j = slot_order-unlink b.slab level slot j
order_at-unfile b sell price level slot j = slot_order-unlink b.slab level slot j

order_at-release_slot :
    (b : MatchingBook) (slot j : ℕ) → order_at (release_slot b slot) j ≡ order_at b j
unfolding order_at release_slot
order_at-release_slot b slot j = ground arith

order_at-acquire_slot :
    (b : MatchingBook) (order : BookOrder) (j : ℕ)
    → order_at (acquire_slot b order).1 j
      ≡ (if (acquire_slot b order).0 == j then order else order_at b j)
unfolding order_at acquire_slot
order_at-acquire_slot b order j = elim (Bool-cases (b.free_head == nil_slot)) [
  | inl e ↦ rw (e) (ground arith)
  | inr e ↦ rw (e) (ground arith)
]

-- A new order stands in the slot that the handle names; no other slot changes.
pub order_at-add :
    (b : MatchingBook) (order : BookOrder) (j : ℕ)
    → order_at (add b order).1 j ≡ (if (add b order).0 == j then order else order_at b j)
unfolding add
order_at-add b order j =
    order_at-file_order _ order.side order.price _ j ∙ order_at-acquire_slot b order j

pub order_at-remove_at :
    (b : MatchingBook) (slot j : ℕ) → order_at (remove_at b slot).1 j ≡ order_at b j
unfolding remove_at
order_at-remove_at b slot j = order_at-release_slot _ slot j ∙ order_at-unfile b _ _ _ slot j

pub order_at-remove_front :
    (b : MatchingBook) (side : Side) (j : ℕ) → order_at (remove_front b side) j ≡ order_at b j
unfolding remove_front
order_at-remove_front b side j = elim (Option-cases (Index.best_price (side_of b side))) [
  | inl e ↦ rw (e, remove_front) refl
  | inr (price, e) ↦
      rw (e, remove_front) (order_at-release_slot _ _ j ∙ order_at-unfile b _ _ _ _ j)
]

pub order_at-reduce_at :
    (b : MatchingBook) (slot : ℕ) (q : Quantity) (j : ℕ)
    → order_at (reduce_at b slot q) j ≡ (
        let o = order_at b slot in
        if slot == j then record o { remaining_quantity = q } else order_at b j)
unfolding order_at reduce_at
order_at-reduce_at b slot q j = ground arith

pub order_at-set_client_order_id_at :
    (b : MatchingBook) (slot id j : ℕ)
    → order_at (set_client_order_id_at b slot id) j ≡ (
        let o = order_at b slot in
        if slot == j then record o { client_order_id = id } else order_at b j)
unfolding order_at set_client_order_id_at
order_at-set_client_order_id_at b slot id j = ground arith

-- Every order in the slab has something left to trade.
abbrev pub IsPositive : MatchingBook → Type 0
IsPositive b = (slot : ℕ) → 0 < (order_at b slot).remaining_quantity

pub create-IsPositive : (band : ℕ) → IsPositive (create band)
unfolding create order_at
create-IsPositive band slot = omega arith

pub add-IsPositive :
    (b : MatchingBook) (order : BookOrder)
    → 0 < order.remaining_quantity
    → IsPositive b
    → IsPositive (add b order).1
add-IsPositive b order fits h j = rw order_at-add (ground (arith, h j))

pub remove_at-IsPositive :
    (b : MatchingBook) (slot : ℕ) → IsPositive b → IsPositive (remove_at b slot).1
remove_at-IsPositive b slot h j = rw order_at-remove_at (h j)

pub remove_front-IsPositive :
    (b : MatchingBook) (side : Side) → IsPositive b → IsPositive (remove_front b side)
remove_front-IsPositive b side h j = rw order_at-remove_front (h j)

pub reduce_at-IsPositive :
    (b : MatchingBook) (slot : ℕ) (q : Quantity)
    → 0 < q
    → IsPositive b
    → IsPositive (reduce_at b slot q)
reduce_at-IsPositive b slot q fits h j = rw order_at-reduce_at (ground (arith, h j))

pub set_client_order_id_at-IsPositive :
    (b : MatchingBook) (slot id : ℕ) → IsPositive b → IsPositive (set_client_order_id_at b slot id)
set_client_order_id_at-IsPositive b slot id h j =
    rw order_at-set_client_order_id_at (ground (arith, h j, h slot))

pub reduce_front-IsPositive :
    (b : MatchingBook) (side : Side) (q : Quantity)
    → 0 < q
    → IsPositive b
    → IsPositive (reduce_front b side q)
unfolding reduce_front
reduce_front-IsPositive b side q fits h = elim (Option-cases (front_slot b side)) [
  | inl e ↦ rw (e, reduce_front) h
  | inr (slot, e) ↦ rw (e, reduce_front) (reduce_at-IsPositive b slot q fits h)
]

pub front_of_best_pos :
    (b : MatchingBook) (side : Side) (o : BookOrder)
    → IsPositive b
    → front_of_best b side ≡ some o
    → 0 < o.remaining_quantity
unfolding front_of_best order_at
front_of_best_pos b side o h e = elim (Option-cases (front_slot b side)) [
  | inl f ↦ cc
  | inr (slot, f) ↦ ground (arith, h slot)
]
