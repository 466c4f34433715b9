-- ===== src/Feed/Book/Contents.antt =====
-- mdh/src/book/order_book.cpp: the orders that a book holds, by id, and what its operations do to them.
use cpp_projects.Base.{ℕ, ◌≡◌, ◌≢◌, ◌⊎◌, refl, Bool-cases, inl, inr, Option, none, some, List}
use cpp_projects.Base.Int.{◌==ℤ◌, ==ℤ_iff}
use cpp_projects.Base.Map.{ℕ_key, find}
use cpp_projects.Types.{Price, Quantity, Side, buy, sell}
use cpp_projects.Feed.Book.{Levels, OrderLocation, OrderBook, levels, put_levels}
use cpp_projects.Feed.Book.Levels.{IsSorted, queue_at}

pub side_cases : (s t : Side) → (s ≡ t) ⊎ (s ≢ t)
side_cases buy buy = inl refl
side_cases buy sell = inr (λ h. cc)
side_cases sell buy = inr (λ h. cc)
side_cases sell sell = inl refl

pub price_cases : (p q : Price) → (p ≡ q) ⊎ (p ≢ q)
price_cases p q = elim (Bool-cases (p ==ℤ q)) [
  | inl same ↦ inl ((==ℤ_iff p q).0 same)
  | inr other ↦ inr (λ h. cc (other, (==ℤ_iff p q).1 h))
]

-- Either the place itself, or another side or another price.
pub place_cases : (t s : Side) (r p : Price) → ((t ≡ s) × (r ≡ p)) ⊎ ((t ≢ s) ⊎ (r ≢ p))
place_cases t s r p = elim (side_cases t s) [
  | inl same ↦ elim (price_cases r p) [ inl here ↦ inl (same, here) | inr away ↦ inr (inr away) ]
  | inr other ↦ inr (inl other)
]

pub levels_of_index :
    (s : Side) (b : OrderBook) (index : List (ℕ × OrderLocation))
    → levels s (record b { order_index = index }) ≡ levels s b
levels_of_index buy b index = refl
levels_of_index sell b index = refl

pub index-put_levels :
    (s : Side) (ls : Levels) (b : OrderBook) → (put_levels s ls b).order_index ≡ b.order_index
index-put_levels buy ls b = refl
index-put_levels sell ls b = refl

pub levels-put_self : (s : Side) (ls : Levels) (b : OrderBook) → levels s (put_levels s ls b) ≡ ls
levels-put_self buy ls b = refl
levels-put_self sell ls b = refl

pub levels-put_ne :
    (s t : Side) (ls : Levels) (b : OrderBook) → t ≢ s → levels t (put_levels s ls b) ≡ levels t b
levels-put_ne buy buy ls b ne = absurd (ne refl)
levels-put_ne buy sell ls b ne = refl
levels-put_ne sell buy ls b ne = refl
levels-put_ne sell sell ls b ne = absurd (ne refl)

-- What is left of the order that has the id, at the price.
abbrev pub quantity_of : OrderBook → Side → Price → ℕ → Option Quantity
quantity_of b s p id = find id (queue_at p (levels s b))

pub record Held : Type 0 where
  pub side : Side
  pub price : Price
  pub quantity : Quantity

abbrev pub held_at : OrderBook → ℕ → Option OrderLocation → Option Held
held_at b id none = none
held_at b id (some loc) = elim (quantity_of b loc.side loc.price id) [
  | none ↦ none
  | some q ↦ some (record { side = loc.side; price = loc.price; quantity = q })
]

-- The order that the book holds under an id.
unfoldable pub held : OrderBook → ℕ → Option Held
unfolding find
held b id = held_at b id (find id b.order_index)

-- The levels are in order, and the index leads to every order and to nothing else.
pub record IsBook (b : OrderBook) : Type 0 where
  pub sorted : (s : Side) → IsSorted s (levels s b)
  pub own_it : (id : ℕ) (loc : OrderLocation) → find id b.order_index ≡ some loc → loc.it ≡ id
  pub indexed :
      (id : ℕ) (loc : OrderLocation)
      → find id b.order_index ≡ some loc
      → (q : Quantity) × (quantity_of b loc.side loc.price id ≡ some q)
  pub located :
      (s : Side) (p : Price) (id : ℕ) (q : Quantity)
      → quantity_of b s p id ≡ some q
      → (loc : OrderLocation) × (find id b.order_index ≡ some loc)
        × (loc.side ≡ s)
        × (loc.price ≡ p)
