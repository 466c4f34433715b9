-- ===== src/Feed/Book/Refines.antt =====
-- mdh/src/book/order_book.cpp: the calls of a book against a table of the orders that it holds.
use mathlib.Core.Path.{fun_ext}
use cpp_projects.Base.{
  ℕ, ◌≡◌, ◌≢◌, refl, ap, ◌∙◌, Option-cases, inl, inr, Option, none, some, List, [], ◌∷◌, ◌==◌,
  if◌then◌else◌,
}
use cpp_projects.Base.Lookups.{same_self, same_ne, find-erase_self}
use cpp_projects.Base.Map.{ℕ_key, find, erase}
use cpp_projects.Types.{Price, Quantity, Side, buy, sell}
use cpp_projects.Feed.Book.{
  BookError, unknown_order_id, duplicate_order_id, OrderLocation, OrderBook, levels, empty_book,
  invalid_order, insert_at, add_order, cancel_order, modify_order, clear,
}
use cpp_projects.Feed.Book.Levels.{IsSorted}
use cpp_projects.Feed.Book.Contents.{quantity_of, Held, held_at, held, IsBook}
use cpp_projects.Feed.Book.Changed.{id_cases}
use cpp_projects.Feed.Book.Removal.{removal, removal-IsBook, held-removal_self, held-removal_ne}
use cpp_projects.Feed.Book.Placement.{
  placement, insert_at-placement, placement-IsBook, held-placement_self, held-placement_ne,
}

-- The calls that change a book.
pub data BookCall : Type 0 where
  add_call : ℕ → Price → Quantity → Side → BookCall
  cancel_call : ℕ → BookCall
  modify_call : ℕ → Price → Quantity → BookCall
  clear_call : BookCall

abbrev pub perform : BookCall → OrderBook → Option BookError × OrderBook
perform (add_call id price qty side) b = add_order id price qty side b
perform (cancel_call id) b = cancel_order id b
perform (modify_call id price qty) b = modify_order id price qty b
perform clear_call b = (none, clear b)

-- The table that the calls are meant to keep: the orders by id.
abbrev pub Table : Type 0
Table = ℕ → Option Held

abbrev pub entry : ℕ → Option Held → Table → Table
entry id h t = λ j. if j == id then h else t j

abbrev pub table_add : ℕ → Held → Option Held → Table → Option BookError × Table
table_add id h (some old) t = (some duplicate_order_id, t)
table_add id h none t = (none, entry id (some h) t)

abbrev pub table_cancel : ℕ → Option Held → Table → Option BookError × Table
table_cancel id none t = (some unknown_order_id, t)
table_cancel id (some old) t = (none, entry id none t)

abbrev pub table_modify : ℕ → Price → Quantity → Option Held → Table → Option BookError × Table
table_modify id price qty none t = (some unknown_order_id, t)
table_modify id price qty (some old) t =
    (none, entry id (some (record { side = old.side; price = price; quantity = qty })) t)

abbrev pub act : BookCall → Table → Option BookError × Table
act (add_call id price qty side) t = elim (invalid_order price qty) [
  | some e ↦ (some e, t)
  | none ↦ table_add id (record { side = side; price = price; quantity = qty }) (t id) t
]
act (cancel_call id) t = table_cancel id (t id) t
act (modify_call id price qty) t = elim (invalid_order price qty) [
  | some e ↦ (some e, t)
  | none ↦ table_modify id price qty (t id) t
]
act clear_call t = (none, λ j. none)

-- A result of a call: the same answer, a table with the book's orders, and a book that is in order.
abbrev pub Shows : Option BookError × OrderBook → Option BookError × Table → Type 0
Shows (e, b) (f, t) = (e ≡ f) × ((j : ℕ) → held b j ≡ t j) × IsBook b

held-free : (b : OrderBook) (id : ℕ) → find id b.order_index ≡ none → held b id ≡ none
unfolding held
held-free b id free = ap (held_at b id) free

held-known :
    (b : OrderBook) (id : ℕ) (loc : OrderLocation)
    → IsBook b
    → find id b.order_index ≡ some loc
    → (q : Quantity) × (held b id
        ≡ some (record { side = loc.side; price = loc.price; quantity = q }))
unfolding held
held-known b id loc w known =
    let (q, there) = w.indexed id loc known in
    (q, ap (held_at b id) known ∙ rw (held_at, there) refl)

entry_pointwise :
    (b c : OrderBook) (id : ℕ) (h : Option Held)
    → held c id ≡ h
    → ((j : ℕ) → j ≢ id → held c j ≡ held b j)
    → (j : ℕ) → held c j ≡ entry id h (held b) j
entry_pointwise b c id h self others j = elim (id_cases j id) [
  | inl same ↦ rw (same, same_self id) self
  | inr ne ↦ rw (same_ne j id ne) (others j ne)
]

-- A book with a new order under the id.
insert_at-held :
    (s : Side) (id : ℕ) (p : Price) (q : Quantity) (b c : OrderBook)
    → IsBook c
    → find id c.order_index ≡ none
    → ((j : ℕ) → j ≢ id → held c j ≡ held b j)
    → (j : ℕ)
    → held (insert_at s id p q c) j
      ≡ entry id (some (record { side = s; price = p; quantity = q })) (held b) j
insert_at-held s id p q b c w free others = rw (insert_at-placement s id p q c) (
    entry_pointwise b (placement s id p q c) id
      (some (record { side = s; price = p; quantity = q })) (held-placement_self s id p q c w free)
      (λ j ne. held-placement_ne s id p q c j w ne ∙ others j ne))

insert_at-IsBook :
    (s : Side) (id : ℕ) (p : Price) (q : Quantity) (b : OrderBook)
    → IsBook b
    → find id b.order_index ≡ none
    → IsBook (insert_at s id p q b)
insert_at-IsBook s id p q b w free =
    rw (insert_at-placement s id p q b) (placement-IsBook s id p q b w free)

add_order-Shows :
    (id : ℕ) (price : Price) (qty : Quantity) (side : Side) (b : OrderBook)
    → IsBook b
    → Shows (add_order id price qty side b) (act (add_call id price qty side) (held b))
unfolding add_order
add_order-Shows id price qty side b w = elim (Option-cases (invalid_order price qty)) [
  | inr (e, bad) ↦ rw (add_order, act, bad) (refl, λ j. refl, w)
  | inl fine ↦ elim (Option-cases (find id b.order_index)) [
    | inr (loc, known) ↦
        let (q, there) = held-known b id loc w known in
        rw (add_order, act, fine, known, there) (refl, λ j. refl, w)
    | inl free ↦
        rw (add_order, act, fine, free, held-free b id free)
          (
            refl,
            insert_at-held side id price qty b b w free (λ j ne. refl),
            insert_at-IsBook side id price qty b w free,
          )
  ]
]

cancel_order-Shows :
    (id : ℕ) (b : OrderBook) → IsBook b → Shows (cancel_order id b) (act (cancel_call id) (held b))
unfolding cancel_order
cancel_order-Shows id b w = elim (Option-cases (find id b.order_index)) [
  | inl free ↦ rw (cancel_order, act, free, held-free b id free) (refl, λ j. refl, w)
  | inr (loc, known) ↦
      let (q, there) = held-known b id loc w known in
      rw (cancel_order, act, known, there)
        (
          refl,
          entry_pointwise b (removal id loc b) id none (held-removal_self id loc b)
              (λ j ne. held-removal_ne id loc b j w (w.own_it id loc known) ne),
          removal-IsBook id loc b w known,
        )
]

modify_order-Shows :
    (id : ℕ) (price : Price) (qty : Quantity) (b : OrderBook)
    → IsBook b
    → Shows (modify_order id price qty b) (act (modify_call id price qty) (held b))
unfolding modify_order
modify_order-Shows id price qty b w = elim (Option-cases (invalid_order price qty)) [
  | inr (e, bad) ↦ rw (modify_order, act, bad) (refl, λ j. refl, w)
  | inl fine ↦ elim (Option-cases (find id b.order_index)) [
    | inl free ↦ rw (modify_order, act, fine, free, held-free b id free) (refl, λ j. refl, w)
    | inr (loc, known) ↦
        let (q, there) = held-known b id loc w known in
        let kept : IsBook (removal id loc b) = removal-IsBook id loc b w known in
        let free : find id (erase id b.order_index) ≡ none = find-erase_self id b.order_index in
        rw (modify_order, act, fine, known, there)
          (
            refl,
            insert_at-held loc.side id price qty b (removal id loc b) kept free
                (λ j ne. held-removal_ne id loc b j w (w.own_it id loc known) ne),
            insert_at-IsBook loc.side id price qty (removal id loc b) kept free,
          )
  ]
]

empty_book-IsSorted : (s : Side) → IsSorted s (levels s empty_book)
empty_book-IsSorted buy = tt
empty_book-IsSorted sell = tt

pub empty_book-located :
    (s : Side) (p : Price) (id : ℕ) (q : Quantity) → quantity_of empty_book s p id ≢ some q
unfolding find
empty_book-located buy p id q h = cc
empty_book-located sell p id q h = cc

pub empty_book-IsBook : IsBook empty_book
unfolding find
empty_book-IsBook = record {
  sorted = empty_book-IsSorted;
  own_it = λ id loc h. absurd cc;
  indexed = λ id loc h. absurd cc;
  located = λ s p id q h. absurd (empty_book-located s p id q h);
}

perform-Shows : (c : BookCall) (b : OrderBook) → IsBook b → Shows (perform c b) (act c (held b))
unfolding held
perform-Shows (add_call id price qty side) b w = add_order-Shows id price qty side b w
perform-Shows (cancel_call id) b w = cancel_order-Shows id b w
perform-Shows (modify_call id price qty) b w = modify_order-Shows id price qty b w
perform-Shows clear_call b w = (refl, λ j. refl, empty_book-IsBook)

pub perform-IsBook : (c : BookCall) (b : OrderBook) → IsBook b → IsBook (perform c b).1
perform-IsBook c b w = let (answer, orders, kept) = perform-Shows c b w in kept

-- Calls in a row, with their answers.
abbrev pub performs : List BookCall → OrderBook → List (Option BookError) × OrderBook
performs [] b = ([], b)
performs (c ∷ cs) b = let (e, b') = perform c b in let (es, b'') = performs cs b' in (e ∷ es, b'')

abbrev pub acts : List BookCall → Table → List (Option BookError) × Table
acts [] t = ([], t)
acts (c ∷ cs) t = let (e, t') = act c t in let (es, t'') = acts cs t' in (e ∷ es, t'')

performs-acts_from :
    (calls : List BookCall) (b : OrderBook) (t : Table)
    → IsBook b
    → held b ≡ t
    → ((performs calls b).0 ≡ (acts calls t).0) × (held (performs calls b).1 ≡ (acts calls t).1)
performs-acts_from [] b t w same = (refl, same)
performs-acts_from (c ∷ cs) b t w same =
    let (answer, orders, kept) = perform-Shows c b w in
    let next : act c (held b) ≡ act c t = ap (act c) same in
    let (answers, final) =
      performs-acts_from cs (perform c b).1 (act c t).1 kept
        (fun_ext orders ∙ ap (λ (r : Option BookError × Table). r.1) next) in
    let first : (perform c b).0 ≡ (act c t).0 =
      answer ∙ ap (λ (r : Option BookError × Table). r.0) next in
    (rw (first, answers) refl, final)

-- After any calls on an empty book, every call was answered as by the table of the orders by id, with
-- the same error or none, and the book holds under each id the side, the price and the quantity that the
-- table has: an addition of a known id, a change or a cancel of an unknown one, and an order with no
-- positive price or no quantity change nothing.
pub performs-acts :
    (calls : List BookCall)
    → ((performs calls empty_book).0 ≡ (acts calls (λ j. none)).0)
      × (held (performs calls empty_book).1 ≡ (acts calls (λ j. none)).1)
unfolding held find
performs-acts calls = performs-acts_from calls empty_book (λ j. none) empty_book-IsBook refl

pub performs-IsBook :
    (calls : List BookCall) (b : OrderBook) → IsBook b → IsBook (performs calls b).1
performs-IsBook [] b w = w
performs-IsBook (c ∷ cs) b w = performs-IsBook cs (perform c b).1 (perform-IsBook c b w)
