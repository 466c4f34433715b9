-- ===== src/Queue/Tests.antt =====
-- A queue of two slots through a push and a pop that overlap, and the capacity for five items.
use native.Mathlib.Nat.{dvd-mul_right}
use cpp_projects.Base.{ℕ, ◌+◌, ◌^◌, ◌≤◌, ◌≡◌, refl, false, some, [], ◌∷◌, arith, length, take}
use cpp_projects.Queue.{
  SpscQueue, DroppingQueue, empty_queue, construct, publish, try_push, try_pop, push,
  next_power_of_two,
}
use cpp_projects.Queue.Threads.{
  Producer, Consumer, System, Reach, start, push_load, push_construct, push_publish, pop_load, here,
  next, pop_move, pop_free,
}
use cpp_projects.Queue.Capacity.{IsCapacity, next_power_of_two_total}
use cpp_projects.Queue.Fifo.{fifo}
use cpp_projects.Queue.Bounded.{
  BoundedQueue, Implements, bounded_push, bounded_pop, try_push-Implements, try_pop-Implements,
}

abbrev zeros : ℕ → ℕ
zeros _ = 0

-- The queue once 7 is published and once 8 is in place behind it.
abbrev first : SpscQueue ℕ
first = publish (construct (empty_queue 2 zeros) 0 7)

abbrev second : SpscQueue ℕ
second = construct first 0 8

abbrev overlapped : System ℕ
overlapped = record {
  queue = record second { tail = 1 };
  producer = Producer.stored 8;
  consumer = Consumer.outside;
  sent = 7 ∷ [];
  received = 7 ∷ [];
}

overlapped-reached : Reach (start 2 zeros) overlapped
overlapped-reached =
    next
      (next
        (next
          (next
            (next
              (next (next (next here (push_load 7 refl refl)) (push_construct 7 0 refl))
                (push_publish 7 refl))
              (pop_load refl refl))
            (push_load 8 refl refl))
          (pop_move refl))
        (push_construct 8 0 refl))
      (pop_free 7 refl)

fifo_example :
    (overlapped.received ≡ take (length overlapped.received) overlapped.sent)
    × (length overlapped.sent ≤ length overlapped.received + overlapped.queue.storage.size)
    × (overlapped.queue.high_water_mark ≤ overlapped.queue.storage.size)
fifo_example = fifo 2 zeros overlapped (dvd-mul_right 2 (2 ^ 63)) (omega arith) overlapped-reached

next_power_of_two_total_example : (q : ℕ) × (next_power_of_two 5 ≡ some q) × IsCapacity 5 q
next_power_of_two_total_example = next_power_of_two_total 5 (omega arith)

capacity_for_five : next_power_of_two 5 ≡ some 8
unfolding next_power_of_two
capacity_for_five = refl

-- A third item does not fit two slots and is counted as dropped.
abbrev filled : DroppingQueue ℕ
filled = (push (push (record { queue = empty_queue 2 zeros; dropped_count = 0 }) 7).0 8).0

dropped : (push filled 9).1 ≡ false
unfolding push
dropped = refl

popped : (try_pop filled.queue).0 ≡ some 7
unfolding push try_pop
popped = refl

abbrev one_item : BoundedQueue ℕ
one_item = record { capacity = 2; items = 7 ∷ [] }

one_item-Implements : Implements first one_item 0
one_item-Implements = record {
  same_capacity = refl;
  divides = dvd-mul_right 2 (2 ^ 63);
  small = omega arith;
  fits = omega arith;
  head_counts = refl;
  tail_counts = refl;
  kept = λ i h. ground (arith, h);
}

try_push-Implements_example :
    ((try_push first 8).1 ≡ (bounded_push one_item 8).1)
    × Implements (try_push first 8).0 (bounded_push one_item 8).0 0
try_push-Implements_example = try_push-Implements first one_item 0 8 one_item-Implements

try_pop-Implements_example :
    ((try_pop first).0 ≡ (bounded_pop one_item).0)
    × ((popped : ℕ) × Implements (try_pop first).1 (bounded_pop one_item).1 popped)
try_pop-Implements_example = try_pop-Implements first one_item 0 one_item-Implements
