-- ===== src/Feed/Book/Changed.antt =====
-- mdh/src/book/order_book.cpp: a book whose one side and index are replaced.
use cpp_projects.Base.{
  ℕ, ◌≡◌, ◌≢◌, ◌⊎◌, refl, ap, ◌∙◌, Bool-cases, inl, inr, Option, none, some, List, arith, ◌==◌,
}
use cpp_projects.Base.Map.{ℕ_key}
use cpp_projects.Types.{Price, Side}
use cpp_projects.Feed.Book.{OrderLocation, OrderBook, Levels, levels, put_levels}
use cpp_projects.Feed.Book.Levels.{IsSorted, queue_at}
use cpp_projects.Feed.Book.Contents.{
  side_cases, levels_of_index, levels-put_self, levels-put_ne, quantity_of, held_at,
}

pub id_cases : (j id : ℕ) → (j ≡ id) ⊎ (j ≢ id)
id_cases j id = elim (Bool-cases (j == id)) [
  | inl same ↦ inl (ground (arith, same))
  | inr other ↦ inr (λ h. ground (arith, other))
]

pub held_at-same :
    (b b' : OrderBook) (j : ℕ) (o : Option OrderLocation)
    → ((t : Side) (r : Price) → quantity_of b' t r j ≡ quantity_of b t r j)
    → held_at b' j o ≡ held_at b j o
held_at-same b b' j none h = refl
held_at-same b b' j (some loc) h = rw (held_at, h loc.side loc.price) refl

-- A side of the book with other levels, and another index.
module _ (b : OrderBook) (s : Side) (ls : Levels) (index : List (ℕ × OrderLocation)) where
  abbrev pub changed : OrderBook
  changed = record (put_levels s ls b) { order_index = index }

  pub levels-changed_self : levels s changed ≡ ls
  levels-changed_self = levels_of_index s (put_levels s ls b) index ∙ levels-put_self s ls b

  levels-changed_ne : (t : Side) → t ≢ s → levels t changed ≡ levels t b
  levels-changed_ne t ne = levels_of_index t (put_levels s ls b) index ∙ levels-put_ne s t ls b ne

  pub changed-IsSorted :
      ((t : Side) → IsSorted t (levels t b))
      → IsSorted s ls
      → (t : Side) → IsSorted t (levels t changed)
  changed-IsSorted w h t = elim (side_cases t s) [
    | inl same ↦ rw (same, levels-changed_self) h
    | inr other ↦ rw (levels-changed_ne t other) (w t)
  ]

  pub changed-levels :
      (P : Levels → Type 0)
      → ((t : Side) → P (levels t b))
      → P ls
      → (t : Side) → P (levels t changed)
  changed-levels P w h t = elim (side_cases t s) [
    | inl same ↦ rw (same, levels-changed_self) h
    | inr other ↦ rw (levels-changed_ne t other) (w t)
  ]

  pub queue_at-changed_away :
      (t : Side) (r p : Price)
      → ((o : Price) → o ≢ p → queue_at o ls ≡ queue_at o (levels s b))
      → (t ≢ s) ⊎ (r ≢ p)
      → queue_at r (levels t changed) ≡ queue_at r (levels t b)
  queue_at-changed_away t r p h (inl other) = ap (λ l. queue_at r l) (levels-changed_ne t other)
  queue_at-changed_away t r p h (inr away) = elim (side_cases t s) [
    | inl same ↦ rw (same, levels-changed_self) (h r away)
    | inr other ↦ ap (λ l. queue_at r l) (levels-changed_ne t other)
  ]
