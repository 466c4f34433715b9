-- ===== src/Queue/Threads.antt =====
-- mdh/include/common/spsc_queue.hpp: try_push and try_pop as the steps of two threads that interleave
-- at the loads and stores of the shared cursors. Every load reads what was stored last.
use cpp_projects.Base.{ℕ, ◌≡◌, false, List, [], ◌∷◌, ◌++◌, ◌==◌}
use cpp_projects.Queue.{SpscQueue, empty_queue, slot, is_full, construct, publish, free_slot}

module _ {ℓ} (T : Type ℓ) where
  -- Where the producer stands: outside try_push, past its test with the tail that it loaded, or with
  -- the value in place and not yet published.
  pub data Producer : Type ℓ where
    outside : Producer
    checked : T → ℕ → Producer
    stored : T → Producer

  -- Where the consumer stands: outside try_pop, past its test, or with the value moved out.
  pub data Consumer : Type ℓ where
    outside : Consumer
    checked : Consumer
    moved : T → Consumer

  -- The queue, the threads, and what was published and popped so far, the oldest first.
  pub record System : Type ℓ where
    pub queue : SpscQueue T
    pub producer : Producer
    pub consumer : Consumer
    pub sent : List T
    pub received : List T

module _ {ℓ} {T : Type ℓ} where
  pub data Step (s : System T) : System T → Type ℓ where
    push_load :
        (value : T)
        → s.producer ≡ outside
        → is_full s.queue s.queue.tail ≡ false
        → Step s (record s { producer = checked value s.queue.tail })
    push_construct :
        (value : T) (tail : ℕ)
        → s.producer ≡ checked value tail
        → Step s (record s { producer = stored value; queue = construct s.queue tail value })
    push_publish :
        (value : T)
        → s.producer ≡ stored value
        → Step s (record s {
          producer = outside;
          queue = publish s.queue;
          sent = s.sent ++ (value ∷ []);
        })
    pop_load :
        s.consumer ≡ outside
        → (s.queue.tail == s.queue.head) ≡ false
        → Step s (record s { consumer = checked })
    pop_move :
        s.consumer ≡ checked
        → Step s (record s { consumer = moved (s.queue.storage.at (slot s.queue s.queue.tail)) })
    pop_free :
        (value : T)
        → s.consumer ≡ moved value
        → Step s (record s {
          consumer = outside;
          queue = free_slot s.queue;
          received = s.received ++ (value ∷ []);
        })

  abbrev pub start : ℕ → (ℕ → T) → System T
  start capacity memory = record {
    queue = empty_queue capacity memory;
    producer = outside;
    consumer = outside;
    sent = [];
    received = [];
  }

  pub data Reach (s : System T) : System T → Type ℓ where
    here : Reach s s
    next : {t u : System T} → Reach s t → Step t u → Reach s u
