-- ===== src/Queue.antt =====
-- mdh/include/common/spsc_queue.hpp and dropping_queue.hpp: the ring buffer between one producer and
-- one consumer, and the wrapper that drops what does not fit. The object's memory is a function from
-- slots; what is constructed in a slot is what the function holds there.
mod Capacity
mod Threads
pub mod Places
pub mod FifoSteps
pub mod Fifo
pub mod Bounded
mod Tests
use cpp_projects.Base.{
  ℕ, zero, suc, ◌%◌, ◌*◌, ◌-◌, ◌+◌, Bool, true, false, Option, none, some, ltb, leb, ◌==◌,
  if◌then◌else◌,
}
use cpp_projects.Base.Word.{u64_mod, inc64, sub64}
use cpp_projects.Base.Array.{Array, write}

-- `storage.size` is capacity_. The cursors count without end, modulo 2 ^ 64.
pub record SpscQueue {ℓ} (T : Type ℓ) : Type ℓ where
  pub storage : Array T
  pub high_water_mark : ℕ
  pub head : ℕ
  pub tail : ℕ

-- The loop of next_power_of_two: `none` where the fuel runs out.
unfoldable pub double_until : ℕ → ℕ → ℕ → Option ℕ
double_until zero p n = none
double_until (suc fuel) p n =
    let rest = double_until fuel (2 * p % u64_mod) n in if ltb p n then rest else some p

-- For an `n` past 2 ^ 63 the shift reaches 0 and the loop of the source does not end.
unfoldable pub next_power_of_two : ℕ → Option ℕ
unfolding double_until
next_power_of_two n = double_until 64 1 n

-- `head - tail`.
abbrev pub occupancy : ℕ → ℕ → ℕ
occupancy head tail = sub64 head tail

pub record DroppingQueue {ℓ} (T : Type ℓ) : Type ℓ where
  pub queue : SpscQueue T
  pub dropped_count : ℕ

module _ {ℓ} {T : Type ℓ} where
  -- A queue over storage of `capacity` slots, a power of two, whose bytes are as they were.
  abbrev pub empty_queue : ℕ → (ℕ → T) → SpscQueue T
  empty_queue capacity memory = record {
    storage = record { size = capacity; at = memory };
    high_water_mark = 0;
    head = 0;
    tail = 0;
  }

  -- `i & mask_`, the mask being one less than the capacity.
  abbrev pub slot : SpscQueue T → ℕ → ℕ
  slot q i = i % q.storage.size

  -- The test of try_push, on the tail that it loaded.
  abbrev pub is_full : SpscQueue T → ℕ → Bool
  is_full q tail = leb q.storage.size (occupancy q.head tail)

  -- construct_at, and the store of the high-water mark.
  abbrev pub construct : SpscQueue T → ℕ → T → SpscQueue T
  construct q tail value =
      let new_occupancy = sub64 (inc64 q.head) tail in
      record q {
        storage = write q.storage (slot q q.head) value;
        high_water_mark =
            if ltb q.high_water_mark new_occupancy then new_occupancy else q.high_water_mark;
      }

  -- The release store that hands the slot to the consumer.
  abbrev pub publish : SpscQueue T → SpscQueue T
  publish q = record q { head = inc64 q.head }

  -- The release store that hands the slot back to the producer.
  abbrev pub free_slot : SpscQueue T → SpscQueue T
  free_slot q = record q { tail = inc64 q.tail }

  unfoldable pub try_push : SpscQueue T → T → SpscQueue T × Bool
  try_push q value =
      if is_full q q.tail then (q, false) else (publish (construct q q.tail value), true)

  unfoldable pub try_pop : SpscQueue T → Option T × SpscQueue T
  try_pop q =
      if q.tail == q.head then (none, q) else (some (q.storage.at (slot q q.tail)), free_slot q)

  unfoldable pub size : SpscQueue T → ℕ
  size q = occupancy q.head q.tail

  unfoldable pub push : DroppingQueue T → T → DroppingQueue T × Bool
  unfolding try_push
  push d value =
      let (q, pushed) = try_push d.queue value in
      if pushed
      then (record d { queue = q }, true)
      else (record d { dropped_count = inc64 d.dropped_count }, false)
