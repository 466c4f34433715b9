-- ===== src/Lob/Engine/Drain.antt =====
-- LimitOrderBook/src/matching_engine.cpp: commands through the queue into the book.
use mathlib.Core.Path.{subst}
use cpp_projects.Base.{
  ℕ, zero, suc, ◌+◌, ◌<◌, ◌≤◌, ◌%◌, ◌^◌, ◌≡◌, refl, sym, ap, ◌∙◌, true, false, Bool-cases, inl, inr,
  Option, none, some, List, [], ◌∷◌, ◌++◌, append-nil, append_assoc, arith, length, length-append,
  ◌==◌, if◌then◌else◌,
}
use cpp_projects.Base.Word.{inc64, sub64}
use cpp_projects.Types.{Price, Quantity, Side}
use cpp_projects.Lob.{Order, OrderBook, Command, add_command, perform, empty_book}
use cpp_projects.Lob.Run.{performs}
use cpp_projects.Lob.Engine.{
  SpscQueue, store_at, push, pop, MatchingEngine, new_engine, is_valid, submit, publish, with_item,
  round, rounds,
}

-- The items in the slots from a position on.
abbrev pub Slots : (ℕ → Command) → ℕ → List Command → Type 0
Slots buffer h [] = Unit
Slots buffer h (c ∷ cs) = (buffer (h % 4096) ≡ c) × Slots buffer (inc64 h) cs

pub record Holds (q : SpscQueue) (cs : List Command) : Type 0 where
  pub head_fits : q.head < 2 ^ 64
  pub few : length cs ≤ 4096
  pub tail_at : q.tail ≡ (q.head + length cs) % 2 ^ 64
  pub slots : Slots q.buffer q.head cs

-- A write behind the items.
store_at-Slots :
    (buffer : ℕ → Command) (h : ℕ) (cs : List Command) (k : ℕ) (item : Command)
    → h < 2 ^ 64
    → length cs ≤ k
    → k < 4096
    → Slots buffer h cs
    → Slots (store_at ((h + k) % 4096) item buffer) h cs
store_at-Slots buffer h [] k item fits long few w = tt
store_at-Slots buffer h (c ∷ cs) zero item fits long few w = absurd (omega arith)
store_at-Slots buffer h (c ∷ cs) (suc k) item fits long few (here, rest) =
    let apart : (h % 4096 == (h + suc k) % 4096) ≡ false = ground arith in
    let slot : (h + suc k) % 4096 ≡ (inc64 h + k) % 4096 = omega arith in
    (
      rw (apart) here,
      subst (λ (m : ℕ). Slots (store_at m item buffer) (inc64 h) cs) (sym slot)
          (store_at-Slots buffer (inc64 h) cs k item (omega arith) (omega arith) (omega arith)
            rest),
    )

Slots-append :
    (buffer : ℕ → Command) (h : ℕ) (cs : List Command) (item : Command)
    → h < 2 ^ 64
    → Slots buffer h cs
    → buffer ((h + length cs) % 4096) ≡ item
    → Slots buffer h (cs ++ (item ∷ []))
Slots-append buffer h [] item fits w last =
    (ap (λ (n : ℕ). buffer (n % 4096)) (omega arith) ∙ last, tt)
Slots-append buffer h (c ∷ cs) item fits (here, rest) last = (
  here,
  Slots-append buffer (inc64 h) cs item (omega arith) rest (ap buffer (omega arith) ∙ last),
)

pub push-Holds :
    (q : SpscQueue) (cs : List Command) (c : Command)
    → Holds q cs
    → length cs < 4096
    → Holds (push c q).1 (cs ++ (c ∷ []))
unfolding push
push-Holds q cs c w room =
    let free : (sub64 q.tail q.head == 4096) ≡ false =
      ground (arith, w.tail_at, w.head_fits, room) in
    let slot : q.tail % 4096 ≡ (q.head + length cs) % 4096 = omega (arith, w.tail_at) in
    let long : length (cs ++ (c ∷ [])) ≡ length cs + 1 = length-append cs (c ∷ []) in
    let self : ((q.head + length cs) % 4096 == (q.head + length cs) % 4096) ≡ true = ground arith in
    rw (push, free)
      (record {
        head_fits = w.head_fits;
        few = omega (arith, long, room);
        tail_at = omega (arith, long, w.tail_at);
        slots = rw (slot) (
            Slots-append (store_at ((q.head + length cs) % 4096) c q.buffer) q.head cs c w.head_fits
              (store_at-Slots q.buffer q.head cs (length cs) c w.head_fits (omega arith) room
                w.slots)
              (rw (self) refl));
      })

pop-empty : (q : SpscQueue) → Holds q [] → (pop q ≡ (none, q))
unfolding pop
pop-empty q w =
    let same : (q.head == q.tail) ≡ true = ground (arith, w.tail_at, w.head_fits) in
    rw (pop, same) refl

pop-first :
    (q : SpscQueue) (c : Command) (cs : List Command)
    → Holds q (c ∷ cs)
    → (pop q ≡ (some c, record q { head = inc64 q.head }))
      × Holds (record q { head = inc64 q.head }) cs
unfolding pop
pop-first q c cs w =
    let differs : (q.head == q.tail) ≡ false = ground (arith, w.tail_at, w.head_fits, w.few) in
    (
      rw (pop, differs, w.slots.0) refl,
      record {
        head_fits = omega arith;
        few = omega (arith, w.few);
        tail_at = omega (arith, w.tail_at);
        slots = w.slots.1;
      },
    )

-- An engine whose queue is empty, with the commands on its book.
abbrev pub HasDone : List Command → OrderBook → MatchingEngine → Type 0
HasDone cs b e = (e.order_book ≡ performs cs b) × ((pop e.queue).0 ≡ none)

round-none : (e : MatchingEngine) → pop e.queue ≡ (none, e.queue) → round e ≡ e
unfolding round
round-none e h = ap (λ (r : Option Command × SpscQueue). with_item r e) h

round-some :
    (e : MatchingEngine) (c : Command) (q : SpscQueue)
    → pop e.queue ≡ (some c, q)
    → round e ≡ publish (record e { queue = q; order_book = perform c e.order_book })
unfolding round
round-some e c q h = ap (λ (r : Option Command × SpscQueue). with_item r e) h

rounds-HasDone :
    (n : ℕ) (e : MatchingEngine) (cs : List Command)
    → Holds e.queue cs
    → length cs ≤ n
    → HasDone cs e.order_book (rounds n e)
unfolding rounds
rounds-HasDone zero e [] w enough =
    (refl, ap (λ (r : Option Command × SpscQueue). r.0) (pop-empty e.queue w))
rounds-HasDone zero e (c ∷ cs) w enough = absurd (omega arith)
rounds-HasDone (suc n) e [] w enough =
    rw (rounds, round-none e (pop-empty e.queue w)) (rounds-HasDone n e [] w (omega arith))
rounds-HasDone (suc n) e (c ∷ cs) w enough =
    let (first, kept) = pop-first e.queue c cs w in
    let e' : MatchingEngine = publish (record e {
      queue = record e.queue { head = inc64 e.queue.head };
      order_book = perform c e.order_book;
    }) in
    rw (rounds, round-some e c (record e.queue { head = inc64 e.queue.head }) first)
      (rounds-HasDone n e' cs kept (omega arith))

-- A call of submit.
pub record Request : Type 0 where
  pub timestamp : ℕ
  pub price : Price
  pub quantity : Quantity
  pub side : Side

abbrev order_of : ℕ → Request → Order
order_of id r = record {
  price = r.price;
  timestamp = r.timestamp;
  quantity = r.quantity;
  id = id;
  side = r.side;
}

abbrev pub submit_all : List Request → MatchingEngine → MatchingEngine
submit_all [] e = e
submit_all (r ∷ rs) e = submit_all rs (submit r.timestamp r.price r.quantity r.side e)

-- The orders that are valid, with the ids that the calls have taken.
abbrev pub commands_from : ℕ → List Request → List Command
commands_from id [] = []
commands_from id (r ∷ rs) =
    let rest = commands_from ((id + 1) % 2 ^ 32) rs in
    if is_valid (order_of id r) then add_command (order_of id r) ∷ rest else rest

length-commands_from : (id : ℕ) (rs : List Request) → length (commands_from id rs) ≤ length rs
length-commands_from id [] = omega arith
length-commands_from id (r ∷ rs) = elim (Bool-cases (is_valid (order_of id r))) [
  | inl valid ↦ rw (valid) (omega (arith, length-commands_from ((id + 1) % 2 ^ 32) rs))
  | inr invalid ↦ rw (invalid) (omega (arith, length-commands_from ((id + 1) % 2 ^ 32) rs))
]

submit-valid :
    (e : MatchingEngine) (r : Request)
    → is_valid (order_of e.next_id r) ≡ true
    → submit r.timestamp r.price r.quantity r.side e ≡ record e {
      next_id = (e.next_id + 1) % 2 ^ 32;
      queue = (push (add_command (order_of e.next_id r)) e.queue).1;
    }
unfolding submit
submit-valid e r h = rw (submit, h) refl

submit-invalid :
    (e : MatchingEngine) (r : Request)
    → is_valid (order_of e.next_id r) ≡ false
    → submit r.timestamp r.price r.quantity r.side e
      ≡ record e { next_id = (e.next_id + 1) % 2 ^ 32 }
unfolding submit
submit-invalid e r h = rw (submit, h) refl

submit_all-Holds :
    (rs : List Request) (e : MatchingEngine) (cs : List Command)
    → Holds e.queue cs
    → length cs + length rs ≤ 4096
    → Holds (submit_all rs e).queue (cs ++ commands_from e.next_id rs)
      × ((submit_all rs e).order_book ≡ e.order_book)
submit_all-Holds [] e cs w room = (rw (append-nil cs) w, refl)
submit_all-Holds (r ∷ rs) e cs w room = elim (Bool-cases (is_valid (order_of e.next_id r))) [
  | inl valid ↦
      let c : Command = add_command (order_of e.next_id r) in
      let e' : MatchingEngine = record e {
        next_id = (e.next_id + 1) % 2 ^ 32;
        queue = (push c e.queue).1;
      } in
      let long : length (cs ++ (c ∷ [])) ≡ length cs + 1 = length-append cs (c ∷ []) in
      let step : submit_all (r ∷ rs) e ≡ submit_all rs e' =
        ap (submit_all rs) (submit-valid e r valid) in
      rw (step, valid, ← append_assoc cs (c ∷ []) (commands_from ((e.next_id + 1) % 2 ^ 32) rs))
        (submit_all-Holds rs e' (cs ++ (c ∷ [])) (push-Holds e.queue cs c w (omega arith))
          (omega (arith, long)))
  | inr invalid ↦
      let e' : MatchingEngine = record e { next_id = (e.next_id + 1) % 2 ^ 32 } in
      let step : submit_all (r ∷ rs) e ≡ submit_all rs e' =
        ap (submit_all rs) (submit-invalid e r invalid) in
      rw (step, invalid) (submit_all-Holds rs e' cs w (omega arith))
]

-- Of at most 4096 calls of submit on a new engine none is lost: after at least as many rounds of the engine's
-- loop the queue is empty and the book is the one that the valid orders give, added in the order of the
-- calls, each with the number of its call as its id, and nothing else.
pub submit_all-HasDone :
    (rs : List Request) (n : ℕ)
    → length rs ≤ 4096
    → length rs ≤ n
    → HasDone (commands_from 0 rs) empty_book (rounds n (submit_all rs new_engine))
submit_all-HasDone rs n room enough =
    let start : Holds new_engine.queue [] = record {
      head_fits = omega arith;
      few = omega arith;
      tail_at = omega arith;
      slots = tt;
    } in
    let (w, book) = submit_all-Holds rs new_engine [] start (omega (arith, room)) in
    let (done, empty) =
      rounds-HasDone n (submit_all rs new_engine) (commands_from 0 rs) w
        (omega (arith, enough, length-commands_from 0 rs)) in
    (done ∙ ap (performs (commands_from 0 rs)) book, empty)
