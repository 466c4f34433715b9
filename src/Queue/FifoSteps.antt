-- ===== src/Queue/FifoSteps.antt =====
-- mdh/include/common/spsc_queue.hpp: the steps of the producer and of the consumer.
use mathlib.Core.Path.{subst}
use cpp_projects.Base.{
  ℕ, suc, ◌+◌, ◌-◌, ◌%◌, ◌<◌, ◌≡◌, ◌≢◌, sym, ap, ◌∙◌, false, some, List, [], ◌∷◌, ◌++◌, arith,
  length, length-append, dec_lt,
}
use cpp_projects.Base.Appends.{
  get_elem?-append_left, get_elem?-append_last, take-append_left, take-suc,
}
use cpp_projects.Base.Word.{inc64, sub64}
use cpp_projects.Base.Array.{Array, write}
use cpp_projects.Queue.{slot, is_full, construct, publish, free_slot}
use cpp_projects.Queue.Threads.{Producer, Consumer, System}
use cpp_projects.Queue.Places.{
  mod_ne, slot-counts, ProducerFits, ConsumerFits, Keeps, IsFifo, room_left,
}

module _ {T : Type 0} where
  pub push_load-IsFifo :
      (s : System T) (value : T)
      → is_full s.queue s.queue.tail ≡ false
      → IsFifo s
      → IsFifo (record s { producer = Producer.checked value s.queue.tail })
  push_load-IsFifo s value room w = record {
    holds = w.holds;
    consumer_fits = w.consumer_fits;
    producer_fits = (length s.received, w.holds.tail_counts, omega arith, room_left s w room);
  }

  -- The value is put where no unpopped one stands.
  pub Keeps-write :
      (storage : Array T) (sent : List T) (m : ℕ) (value : T)
      → length sent < m + storage.size
      → Keeps storage sent m
      → Keeps (write storage (length sent % storage.size) value) sent m
  Keeps-write storage sent m value room h i k l =
      h i k l ∙ ap some (sym (other (mod_ne i (length sent) storage.size l (omega arith))))
    where
      other :
          i % storage.size ≢ length sent % storage.size
          → (write storage (length sent % storage.size) value).at (i % storage.size)
            ≡ storage.at (i % storage.size)
      other ne = ground arith

  pub Keeps-append :
      (storage : Array T) (sent : List T) (m : ℕ) (value : T)
      → storage.at (length sent % storage.size) ≡ value
      → Keeps storage sent m
      → Keeps storage (sent ++ (value ∷ [])) m
  Keeps-append storage sent m value stands h i k l = elim (dec_lt i (length sent)) [
    | yes old ↦ get_elem?-append_left sent (value ∷ []) i old ∙ h i k old
    | no new ↦
        let last : i ≡ length sent = omega (arith, length-append sent (value ∷ [])) in
        rw (last, stands) (get_elem?-append_last sent value)
  ]

  pub push_construct-IsFifo :
      (s : System T) (value : T) (tail : ℕ)
      → s.producer ≡ Producer.checked value tail
      → IsFifo s
      → IsFifo (record s { producer = Producer.stored value; queue = construct s.queue tail value })
  push_construct-IsFifo s value tail at w =
      let (r, loaded, reached, room) = fits in
      let c = s.queue.storage.size in
      let occupied : sub64 (inc64 s.queue.head) tail ≡ length s.sent + 1 - r =
        rw (w.holds.head_counts, loaded)
          (omega (arith, reached, room, w.holds.in_order, w.holds.small)) in
      let place : s.queue.head % c ≡ length s.sent % c =
        rw (w.holds.head_counts) (slot-counts c (length s.sent) w.holds.divides) in
      record {
        holds = record {
          divides = w.holds.divides;
          small = w.holds.small;
          head_counts = w.holds.head_counts;
          tail_counts = w.holds.tail_counts;
          in_order = w.holds.in_order;
          bounded = w.holds.bounded;
          kept = rw (place) (
              Keeps-write s.queue.storage s.sent (length s.received) value (omega arith)
                w.holds.kept);
          popped = w.holds.popped;
          high_water = ground (arith, occupied, w.holds.high_water);
        };
        producer_fits = (omega arith, ground (arith, place));
        consumer_fits = w.consumer_fits;
      }
    where
      fits : ProducerFits s.queue.storage s.sent s.received (Producer.checked value tail)
      fits = subst (ProducerFits s.queue.storage s.sent s.received) at w.producer_fits

  pub push_publish-IsFifo :
      (s : System T) (value : T)
      → s.producer ≡ Producer.stored value
      → IsFifo s
      → IsFifo (record s {
        producer = Producer.outside;
        queue = publish s.queue;
        sent = s.sent ++ (value ∷ []);
      })
  push_publish-IsFifo s value at w =
      let longer : length (s.sent ++ (value ∷ [])) ≡ length s.sent + 1 =
        length-append s.sent (value ∷ []) in
      record {
        holds = record {
          divides = w.holds.divides;
          small = w.holds.small;
          head_counts = omega (arith, longer, w.holds.head_counts);
          tail_counts = w.holds.tail_counts;
          in_order = omega (arith, longer, w.holds.in_order);
          bounded = omega (arith, longer, fits.0);
          kept = Keeps-append s.queue.storage s.sent (length s.received) value fits.1 w.holds.kept;
          popped =
              w.holds.popped
              ∙ sym (take-append_left (length s.received) s.sent (value ∷ []) w.holds.in_order);
          high_water = w.holds.high_water;
        };
        producer_fits = tt;
        consumer_fits = still s.consumer w.consumer_fits;
      }
    where
      fits : ProducerFits s.queue.storage s.sent s.received (Producer.stored value)
      fits = subst (ProducerFits s.queue.storage s.sent s.received) at w.producer_fits

      still :
          (c : Consumer T)
          → ConsumerFits s.sent s.received c
          → ConsumerFits (s.sent ++ (value ∷ [])) s.received c
      still Consumer.outside h = tt
      still Consumer.checked h = omega (arith, h, length-append s.sent (value ∷ []))
      still (Consumer.moved v) h = (
        omega (arith, h.0, length-append s.sent (value ∷ [])),
        get_elem?-append_left s.sent (value ∷ []) (length s.received) h.0 ∙ h.1,
      )

  pub pop_move-IsFifo :
      (s : System T)
      → s.consumer ≡ Consumer.checked
      → IsFifo s
      → IsFifo
          (record s { consumer = Consumer.moved (s.queue.storage.at (slot s.queue s.queue.tail)) })
  pop_move-IsFifo s at w =
      let place : s.queue.tail % s.queue.storage.size ≡ length s.received % s.queue.storage.size =
        rw (w.holds.tail_counts)
          (slot-counts s.queue.storage.size (length s.received) w.holds.divides) in
      record {
        holds = w.holds;
        producer_fits = w.producer_fits;
        consumer_fits = (fits, rw (place) (w.holds.kept (length s.received) (omega arith) fits));
      }
    where
      fits : ConsumerFits s.sent s.received Consumer.checked
      fits = subst (ConsumerFits s.sent s.received) at w.consumer_fits

  pub pop_free-IsFifo :
      (s : System T) (value : T)
      → s.consumer ≡ Consumer.moved value
      → IsFifo s
      → IsFifo (record s {
        consumer = Consumer.outside;
        queue = free_slot s.queue;
        received = s.received ++ (value ∷ []);
      })
  pop_free-IsFifo s value at w =
      let longer : length (s.received ++ (value ∷ [])) ≡ suc (length s.received) =
        omega (arith, length-append s.received (value ∷ [])) in
      record {
        holds = record {
          divides = w.holds.divides;
          small = w.holds.small;
          head_counts = w.holds.head_counts;
          tail_counts = omega (arith, longer, w.holds.tail_counts);
          in_order = omega (arith, longer, fits.0);
          bounded = omega (arith, longer, w.holds.bounded);
          kept = λ i h k. w.holds.kept i (omega (arith, longer, h)) k;
          popped =
              rw (longer, take-suc (length s.received) s.sent fits.1)
                (ap (λ l. l ++ (value ∷ [])) w.holds.popped);
          high_water = w.holds.high_water;
        };
        producer_fits = still s.producer w.producer_fits;
        consumer_fits = tt;
      }
    where
      fits : ConsumerFits s.sent s.received (Consumer.moved value)
      fits = subst (ConsumerFits s.sent s.received) at w.consumer_fits

      still :
          (p : Producer T)
          → ProducerFits s.queue.storage s.sent s.received p
          → ProducerFits s.queue.storage s.sent (s.received ++ (value ∷ [])) p
      still Producer.outside h = tt
      still (Producer.checked v tail) (r, loaded, reached, room) =
          (r, loaded, omega (arith, reached, length-append s.received (value ∷ [])), room)
      still (Producer.stored v) h = (omega (arith, h.0, length-append s.received (value ∷ [])), h.1)
