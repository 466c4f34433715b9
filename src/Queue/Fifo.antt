-- ===== src/Queue/Fifo.antt =====
-- mdh/include/common/spsc_queue.hpp: what the producer published against what the consumer got, over
-- the steps of Threads.
use Prim.Native.Nat.{◌∣◌}
use cpp_projects.Base.{ℕ, ◌+◌, ◌^◌, ◌≤◌, ◌≡◌, refl, arith, length, take}
use cpp_projects.Base.Word.{u64_mod}
use cpp_projects.Queue.Threads.{
  System, Step, Reach, start, push_load, push_construct, push_publish, pop_load, pop_move, pop_free,
  here, next,
}
use cpp_projects.Queue.Places.{IsFifo, more_left}
use cpp_projects.Queue.FifoSteps.{
  push_load-IsFifo, push_construct-IsFifo, push_publish-IsFifo, pop_move-IsFifo, pop_free-IsFifo,
}

module _ {T : Type 0} where
  Step-IsFifo : {s t : System T} → Step s t → IsFifo s → IsFifo t
  Step-IsFifo {s} (push_load value at room) w = push_load-IsFifo s value room w
  Step-IsFifo {s} (push_construct value tail at) w = push_construct-IsFifo s value tail at w
  Step-IsFifo {s} (push_publish value at) w = push_publish-IsFifo s value at w
  Step-IsFifo {s} (pop_load at more) w = record {
    holds = w.holds;
    producer_fits = w.producer_fits;
    consumer_fits = more_left s w more;
  }
  Step-IsFifo {s} (pop_move at) w = pop_move-IsFifo s at w
  Step-IsFifo {s} (pop_free value at) w = pop_free-IsFifo s value at w

  Reach-IsFifo : {s t : System T} → IsFifo s → Reach s t → IsFifo t
  Reach-IsFifo h here = h
  Reach-IsFifo h (next r step) = Step-IsFifo step (Reach-IsFifo h r)

  start-IsFifo :
      (capacity : ℕ) (memory : ℕ → T)
      → capacity ∣ u64_mod
      → capacity ≤ 2 ^ 63
      → IsFifo (start capacity memory)
  start-IsFifo capacity memory d small = record {
    holds = record {
      divides = d;
      small = small;
      head_counts = refl;
      tail_counts = refl;
      in_order = omega arith;
      bounded = omega arith;
      kept = λ i h k. absurd (omega arith);
      popped = refl;
      high_water = omega arith;
    };
    producer_fits = tt;
    consumer_fits = tt;
  }

-- However the threads interleave, what was popped is the first part of what was published, at most a
-- capacity behind it, and the high-water mark is no more than the capacity.
pub fifo :
    {T : Type 0} (capacity : ℕ) (memory : ℕ → T) (s : System T)
    → capacity ∣ u64_mod
    → capacity ≤ 2 ^ 63
    → Reach (start capacity memory) s
    → (s.received ≡ take (length s.received) s.sent)
      × (length s.sent ≤ length s.received + s.queue.storage.size)
      × (s.queue.high_water_mark ≤ s.queue.storage.size)
fifo capacity memory s d small r =
    let w = (Reach-IsFifo (start-IsFifo capacity memory d small) r).holds in
    (w.popped, w.bounded, w.high_water)
