-- ===== src/Queue/Places.antt =====
-- mdh/include/common/spsc_queue.hpp: the counts behind the cursors, and what each thread's place says of the
-- slots.
use Prim.Native.Nat.{◌∣◌}
use native.Mathlib.Nat.{mod-mod_of_dvd, mod-eq_of_lt, mod-eq-sub-mod, mod-lt, mod-add-mod}
use cpp_projects.Base.{
  ℕ, ◌+◌, ◌-◌, ◌%◌, ◌^◌, ◌≤◌, ◌<◌, ◌≡◌, ◌≢◌, sym, ap, ◌∙◌, false, some, List, arith, Bool-cases,
  inl, inr, ltb, ltb→lt, ◌==◌, length, get_elem?, take,
}
use cpp_projects.Base.Word.{u64_mod}
use cpp_projects.Base.Array.{Array}
use cpp_projects.Queue.{SpscQueue, occupancy, is_full}
use cpp_projects.Queue.Threads.{Producer, Consumer, System}

-- Two counts less than a capacity apart stand for different slots.
pub shifted_ne : (r d c : ℕ) → r < c → 0 < d → d < c → (r + d) % c ≢ r
shifted_ne r d c h k l e = elim (Bool-cases (ltb (r + d) c)) [
  | inl small ↦ omega (arith, mod-eq_of_lt {n = r + d} {m = c} (ltb→lt _ _ small))
  | inr large ↦
      let big : c ≤ r + d = ground arith in
      absurd (
        omega (
          arith,
          mod-eq-sub-mod {n = r + d} {m = c} big,
          mod-eq_of_lt {n = r + d - c} {m = c} (omega arith),
        ))
]

pub mod_ne : (i n c : ℕ) → i < n → n < i + c → i % c ≢ n % c
mod_ne i n c h k e =
    shifted_ne (i % c) (n - i) c (mod-lt i (omega arith)) (omega arith) (omega arith)
      (mod-add-mod i c (n - i) ∙ ap (λ t. t % c) whole ∙ sym e)
  where
    whole : i + (n - i) ≡ n
    whole = omega arith

-- The cursors' difference, as the threads compute it.
pub occupancy-counts :
    (n m : ℕ) → m ≤ n → n ≤ m + 2 ^ 63 → occupancy (n % u64_mod) (m % u64_mod) ≡ n - m
occupancy-counts n m h k = omega arith

-- The slot of a cursor is that of the count it stands for.
pub slot-counts : (c n : ℕ) → c ∣ u64_mod → n % u64_mod % c ≡ n % c
slot-counts c n h = mod-mod_of_dvd c n h

module _ {T : Type 0} where
  -- What the producer's place says: the tail that it loaded is one that the consumer had reached, and
  -- it left room for one more; once stored, the value stands in its slot.
  abbrev pub ProducerFits : Array T → List T → List T → Producer T → Type 0
  ProducerFits storage sent received Producer.outside = Unit
  ProducerFits storage sent received (Producer.checked value tail) =
      (r : ℕ) × (tail ≡ r % u64_mod) × (r ≤ length received) × (length sent < r + storage.size)
  ProducerFits storage sent received (Producer.stored value) =
      (length sent < length received + storage.size)
      × (storage.at (length sent % storage.size) ≡ value)

  abbrev pub ConsumerFits : List T → List T → Consumer T → Type 0
  ConsumerFits sent received Consumer.outside = Unit
  ConsumerFits sent received Consumer.checked = length received < length sent
  ConsumerFits sent received (Consumer.moved value) =
      (length received < length sent) × (get_elem? sent (length received) ≡ some value)

  -- The slots from count `m` on hold what was published and not yet popped.
  abbrev pub Keeps : Array T → List T → ℕ → Type 0
  Keeps storage sent m =
      (i : ℕ) → m ≤ i → i < length sent → get_elem? sent i ≡ some (storage.at (i % storage.size))

  -- The cursors count what was published and popped, the slots between them hold what was published
  -- and not yet popped, and what was popped is the first part of what was published.
  pub record Holds (q : SpscQueue T) (sent received : List T) : Type 0 where
    pub divides : q.storage.size ∣ u64_mod
    pub small : q.storage.size ≤ 2 ^ 63
    pub head_counts : q.head ≡ length sent % u64_mod
    pub tail_counts : q.tail ≡ length received % u64_mod
    pub in_order : length received ≤ length sent
    pub bounded : length sent ≤ length received + q.storage.size
    pub kept : Keeps q.storage sent (length received)
    pub popped : received ≡ take (length received) sent
    pub high_water : q.high_water_mark ≤ q.storage.size

  pub record IsFifo (s : System T) : Type 0 where
    pub holds : Holds s.queue s.sent s.received
    pub producer_fits : ProducerFits s.queue.storage s.sent s.received s.producer
    pub consumer_fits : ConsumerFits s.sent s.received s.consumer

  pub room_left :
      (s : System T)
      → IsFifo s
      → is_full s.queue s.queue.tail ≡ false
      → length s.sent < length s.received + s.queue.storage.size
  room_left s w room =
      let counted : occupancy s.queue.head s.queue.tail ≡ length s.sent - length s.received =
        rw (w.holds.head_counts, w.holds.tail_counts)
          (occupancy-counts _ _ w.holds.in_order (omega (arith, w.holds.bounded, w.holds.small))) in
      ground (arith, counted)

  pub more_left :
      (s : System T)
      → IsFifo s
      → (s.queue.tail == s.queue.head) ≡ false
      → length s.received < length s.sent
  more_left s w more = ground (arith, w.holds.in_order, w.holds.head_counts, w.holds.tail_counts)
