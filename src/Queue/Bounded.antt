-- ===== src/Queue/Bounded.antt =====
-- What SpscQueue promises one caller at a time (mdh/include/common/spsc_queue.hpp): a first-in
-- first-out list of at most `capacity` items, which the ring buffer stands for.
use Prim.Native.Nat.{◌∣◌}
use cpp_projects.Base.{
  ℕ, suc, ◌+◌, ◌%◌, ◌^◌, ◌≤◌, ◌<◌, ◌≡◌, refl, ap, ◌∙◌, Bool, true, false, Option, none, some, List,
  [], ◌∷◌, ◌++◌, arith, ◌==◌, ltb, ltb→lt, if◌then◌else◌, length, get_elem?, length-append,
  Bool-cases, inl, inr, dec_lt,
}
use cpp_projects.Base.Appends.{get_elem?-append_left, get_elem?-append_last}
use cpp_projects.Base.Word.{u64_mod}
use cpp_projects.Queue.{SpscQueue, occupancy, is_full, construct, try_push, try_pop}
use cpp_projects.Queue.Places.{mod_ne, occupancy-counts, slot-counts}

pub record BoundedQueue {ℓ} (T : Type ℓ) : Type ℓ where
  pub capacity : ℕ
  pub items : List T

module _ {ℓ} {T : Type ℓ} where
  unfoldable pub bounded_push : BoundedQueue T → T → BoundedQueue T × Bool
  bounded_push b value =
      if ltb (length b.items) b.capacity
      then (record b { items = b.items ++ (value ∷ []) }, true)
      else (b, false)

  abbrev pub pop_items : List T → Option T × List T
  pop_items [] = (none, [])
  pop_items (value ∷ rest) = (some value, rest)

  unfoldable pub bounded_pop : BoundedQueue T → Option T × BoundedQueue T
  bounded_pop b = let (value, rest) = pop_items b.items in (value, record b { items = rest })

module _ {T : Type 0} where
  -- The ring buffer stands for the items: `popped` counts what went before them.
  pub record Implements (q : SpscQueue T) (b : BoundedQueue T) (popped : ℕ) : Type 0 where
    pub same_capacity : q.storage.size ≡ b.capacity
    pub divides : b.capacity ∣ u64_mod
    pub small : b.capacity ≤ 2 ^ 63
    pub fits : length b.items ≤ b.capacity
    pub head_counts : q.head ≡ (popped + length b.items) % u64_mod
    pub tail_counts : q.tail ≡ popped % u64_mod
    pub kept :
        (i : ℕ)
        → i < length b.items
        → get_elem? b.items i ≡ some (q.storage.at ((popped + i) % b.capacity))

  size-Implements :
      (q : SpscQueue T) (b : BoundedQueue T) (popped : ℕ)
      → Implements q b popped
      → occupancy q.head q.tail ≡ length b.items
  size-Implements q b popped w =
      rw (w.head_counts, w.tail_counts)
        (occupancy-counts (popped + length b.items) popped (omega arith)
            (omega (arith, w.fits, w.small))
          ∙ omega arith)

  push-kept :
      (q : SpscQueue T) (b : BoundedQueue T) (popped : ℕ) (value : T)
      → Implements q b popped
      → length b.items < b.capacity
      → (i : ℕ) → i < length (b.items ++ (value ∷ []))
      → get_elem? (b.items ++ (value ∷ [])) i
        ≡ some ((construct q q.tail value).storage.at ((popped + i) % b.capacity))
  push-kept q b popped value w room i h =
      let place : q.head % q.storage.size ≡ (popped + length b.items) % b.capacity =
        rw (w.same_capacity, w.head_counts)
          (slot-counts b.capacity (popped + length b.items) w.divides) in
      elim (dec_lt i (length b.items)) [
        | yes old ↦
            let ne =
              mod_ne (popped + i) (popped + length b.items) b.capacity (omega arith)
                (omega arith) in
            let same = get_elem?-append_left b.items (value ∷ []) i old in
            ground (arith, same, w.kept i old, place, ne)
        | no new ↦
            let last : i ≡ length b.items = omega (arith, length-append b.items (value ∷ [])) in
            let same = get_elem?-append_last b.items value in ground (arith, last, same, place)
      ]

  -- A push is taken or refused as the list has room, and then the ring buffer stands for the longer list.
  pub try_push-Implements :
      (q : SpscQueue T) (b : BoundedQueue T) (popped : ℕ) (value : T)
      → Implements q b popped
      → ((try_push q value).1 ≡ (bounded_push b value).1)
        × Implements (try_push q value).0 (bounded_push b value).0 popped
  unfolding try_push bounded_push
  try_push-Implements q b popped value w = elim (Bool-cases (ltb (length b.items) b.capacity)) [
    | inl room ↦
        let open_slot : is_full q q.tail ≡ false =
          ground (arith, size-Implements q b popped w, w.same_capacity) in
        let longer : length (b.items ++ (value ∷ [])) ≡ length b.items + 1 =
          length-append b.items (value ∷ []) in
        rw (open_slot, room)
          (
            refl,
            record {
              same_capacity = w.same_capacity;
              divides = w.divides;
              small = w.small;
              fits = ground (arith, longer);
              head_counts = omega (arith, longer, w.head_counts);
              tail_counts = w.tail_counts;
              kept = push-kept q b popped value w (ltb→lt _ _ room);
            },
          )
    | inr full ↦
        let no_slot : is_full q q.tail ≡ true =
          ground (arith, size-Implements q b popped w, w.same_capacity) in
        rw (no_slot, full) (refl, w)
  ]

  pop-cases :
      (q : SpscQueue T) (capacity : ℕ) (items : List T) (popped : ℕ)
      → Implements q (record { capacity = capacity; items = items }) popped
      → ((try_pop q).0 ≡ (pop_items items).0)
        × ((popped' : ℕ) × Implements
              (try_pop q).1
              (record { capacity = capacity; items = (pop_items items).1 })
              popped')
  unfolding try_pop
  pop-cases q capacity [] popped w =
      let nothing : (q.tail == q.head) ≡ true = ground (arith, w.head_counts, w.tail_counts) in
      rw (nothing) (refl, (popped, w))
  pop-cases q capacity (value ∷ rest) popped w =
      let counted =
        size-Implements q (record { capacity = capacity; items = value ∷ rest }) popped w in
      let some_left : (q.tail == q.head) ≡ false = ground (arith, counted) in
      let place : q.tail % q.storage.size ≡ popped % capacity =
        rw (w.same_capacity, w.tail_counts) (slot-counts capacity popped w.divides) in
      rw (some_left) (
        ground (arith, place, w.same_capacity, w.kept 0 (omega arith)),
        (
          popped + 1,
          record {
            same_capacity = w.same_capacity;
            divides = w.divides;
            small = w.small;
            fits = omega (arith, w.fits);
            head_counts = w.head_counts ∙ ap (λ n. n % u64_mod) (omega arith);
            tail_counts = omega (arith, w.tail_counts);
            kept = λ i h.
                w.kept (suc i) (omega arith)
                ∙ ap (λ n. some (q.storage.at (n % capacity))) (omega arith);
          },
        ),
      )

  -- A pop gives the oldest item, or nothing from an empty list, and leaves the rest.
  pub try_pop-Implements :
      (q : SpscQueue T) (b : BoundedQueue T) (popped : ℕ)
      → Implements q b popped
      → ((try_pop q).0 ≡ (bounded_pop b).0)
        × ((popped' : ℕ) × Implements (try_pop q).1 (bounded_pop b).1 popped')
  unfolding bounded_pop
  try_pop-Implements q b popped w = pop-cases q b.capacity b.items popped w
