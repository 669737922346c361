-- ===== src/Ring/Threads/Fifo.antt =====
-- The two threads of `RingBuffer` pass every frame on once and in order, whatever the interleaving.
use mathlib.Core.List.{append_assoc}
use mathlib.Core.Path.{subst}
use mathlib.Core.Option.{some-injective}
use can_from_scratch.Prelude.{
  ℕ, ◌^◌, ◌<◌, ◌≡◌, refl, ap, ap₂, sym, ◌∙◌, some, List, [], ◌∷◌, ◌++◌, if◌then◌else◌, ◌==◌, length,
  arith,
}
use can_from_scratch.Ring.{CanFrame, next_index}
use can_from_scratch.Ring.Refine.{
  Represents, new_ring-Represents, store-Represents, publish-Represents, front-Represents,
  release-Represents,
}
use can_from_scratch.Ring.Threads.{
  Producer, Consumer, Machine, new_machine, push_step, pop_step, Turn, step, run,
}
use can_from_scratch.Ring.Threads.Inv.{
  ProducerReady, ConsumerReady, Inv, consumer_keeps, producer_keeps, tested_full, tested_empty,
}

pub push_step-Inv :
    {n : ℕ} (m : Machine) (q : List CanFrame) (next : CanFrame) (w : Producer)
    → Inv n m q
    → ProducerReady m.ring q w
    → (m' : Machine) × (q' : List CanFrame) × (push_step m w next ≡ some m') × Inv n m' q'
unfolding push_step
push_step-Inv m q next Producer.ready i ready = (
  record m { producer = Producer.checking next m.ring.head },
  q,
  refl,
  record {
    sized = i.sized;
    represents = i.represents;
    in_order = i.in_order;
    producer_ready = (
      i.represents.head_inside,
      0,
      ground (arith, i.represents.head_inside),
      ground (arith, i.represents.room),
    );
    consumer_ready = i.consumer_ready;
  },
)
push_step-Inv m q next (Producer.checking frame head) i ready = (
  _,
  q,
  refl,
  record {
    sized = i.sized;
    represents = i.represents;
    in_order = i.in_order;
    producer_ready = tested_full m.ring q frame head i.represents ready;
    consumer_ready = i.consumer_ready;
  },
)
push_step-Inv m q next (Producer.writing frame tail) i (e, room) =
    let (buffer, written, rep, stored) = store-Represents m.ring q frame i.represents room in
    (
      record m {
        ring = record m.ring { buffer = buffer };
        producer = Producer.publishing frame tail;
      },
      q,
      simp written,
      record {
        sized = i.sized;
        represents = rep;
        in_order = i.in_order;
        producer_ready = (e, room, stored);
        consumer_ready = i.consumer_ready;
      },
    )
push_step-Inv m q next (Producer.publishing frame tail) i (e, room, stored) = (
  _,
  q ++ frame ∷ [],
  refl,
  record {
    sized = i.sized;
    represents =
        subst (λ t. Represents (record m.ring { tail = t }) (q ++ frame ∷ [])) (sym e)
          (publish-Represents m.ring q frame i.represents room stored);
    in_order = ap (λ s. s ++ frame ∷ []) i.in_order ∙ append_assoc m.received q (frame ∷ []);
    producer_ready = tt;
    consumer_ready = consumer_keeps m.ring q m.ring.buffer tail frame m.consumer i.consumer_ready;
  },
)

pub pop_step-Inv :
    {n : ℕ} (m : Machine) (q : List CanFrame) (c : Consumer)
    → Inv n m q
    → ConsumerReady m.ring q c
    → (m' : Machine) × (q' : List CanFrame) × (pop_step m c ≡ some m') × Inv n m' q'
unfolding pop_step
pop_step-Inv m q Consumer.ready i ready = (
  record m { consumer = Consumer.checking m.ring.tail },
  q,
  refl,
  record {
    sized = i.sized;
    represents = i.represents;
    in_order = i.in_order;
    producer_ready = i.producer_ready;
    consumer_ready = (length q, i.represents.ends, omega arith);
  },
)
pop_step-Inv m q (Consumer.checking tail) i ready = (
  _,
  q,
  refl,
  record {
    sized = i.sized;
    represents = i.represents;
    in_order = i.in_order;
    producer_ready = i.producer_ready;
    consumer_ready = tested_empty m.ring q tail i.represents ready;
  },
)
pop_step-Inv m [] (Consumer.copying head) i (e, lt) = absurd (omega arith)
pop_step-Inv m (f ∷ q) (Consumer.copying head) i (e, lt) = (
  record m { consumer = Consumer.releasing f head },
  f ∷ q,
  simp (e, front-Represents m.ring q f i.represents),
  record {
    sized = i.sized;
    represents = i.represents;
    in_order = i.in_order;
    producer_ready = i.producer_ready;
    consumer_ready = (e, refl);
  },
)
pop_step-Inv m [] (Consumer.releasing frame head) i (e, first) = cc
pop_step-Inv m (f ∷ q) (Consumer.releasing frame head) i (e, first) = (
  record m {
    ring = record m.ring { head = next_index m.ring.size m.ring.head };
    consumer = Consumer.ready;
    received = m.received ++ f ∷ [];
  },
  q,
  ap₂
      (λ h x. some (record m {
        ring = record m.ring { head = next_index m.ring.size h };
        consumer = Consumer.ready;
        received = m.received ++ x ∷ [];
      }))
      e (some-injective _ _ (sym first)),
  record {
    sized = i.sized;
    represents = release-Represents m.ring q f i.represents;
    in_order = i.in_order ∙ sym (append_assoc m.received (f ∷ []) q);
    producer_ready = producer_keeps m.ring q f m.producer i.represents i.producer_ready;
    consumer_ready = tt;
  },
)

pub step-Inv :
    {n : ℕ} (m : Machine) (q : List CanFrame) (t : Turn)
    → Inv n m q
    → (m' : Machine) × (q' : List CanFrame) × (step m t ≡ some m') × Inv n m' q'
unfolding step
step-Inv m q (Turn.producer next) i = push_step-Inv m q next m.producer i i.producer_ready
step-Inv m q Turn.consumer i = pop_step-Inv m q m.consumer i i.consumer_ready

pub run-Inv :
    {n : ℕ} (m : Machine) (q : List CanFrame) (schedule : List Turn)
    → Inv n m q
    → (m' : Machine) × (q' : List CanFrame) × (run m schedule ≡ some m') × Inv n m' q'
unfolding run
run-Inv m q [] i = (m, q, refl, i)
run-Inv m q (t ∷ rest) i =
    let (m1, q1, e1, i1) = step-Inv m q t i in
    let (m2, q2, e2, i2) = run-Inv m1 q1 rest i1 in (m2, q2, simp (e1, e2), i2)

-- The producer writes a cell while the consumer reads it.
abbrev pub Races : Machine → Producer → Consumer → Type 0
Races m (Producer.writing frame next_tail) (Consumer.copying head) = m.ring.tail ≡ head
Races m _ _ = ⊥

no_race :
    (m : Machine) (q : List CanFrame) (w : Producer) (c : Consumer)
    → Represents m.ring q
    → ProducerReady m.ring q w
    → ConsumerReady m.ring q c
    → ¬ Races m w c
no_race m q (Producer.writing frame next_tail) (Consumer.copying head) rep (e, room) (at, lt) same =
    ground (arith, rep.head_inside, rep.ends)
no_race m q _ _ rep ready ready' same = same

pub new_machine-Inv :
    (size : ℕ) (garbage : CanFrame)
    → size < 2 ^ 32
    → Inv (if size == 0 then 1 else size) (new_machine size garbage) []
unfolding new_machine
new_machine-Inv size garbage w = record {
  sized = refl;
  represents = new_ring-Represents size garbage w;
  in_order = refl;
  producer_ready = tt;
  consumer_ready = tt;
}

-- On a new ring whose size is a `uint32_t`, every interleaving of the steps of one thread that
-- pushes and one that pops runs without an access outside the buffer. At any moment the frames
-- received, followed by fewer than `max 1 size` frames, are the frames sent: none is lost, doubled
-- or overtaken. And the producer is never about to write the cell that the consumer is about to
-- read.
pub run-Fifo :
    (size : ℕ) (garbage : CanFrame) (schedule : List Turn)
    → size < 2 ^ 32
    → (m : Machine) × (queue : List CanFrame) × (run (new_machine size garbage) schedule ≡ some m)
      × (m.sent ≡ m.received ++ queue)
      × (length queue < (if size == 0 then 1 else size))
      × ¬ Races m m.producer m.consumer
run-Fifo size garbage schedule w =
    let (m, queue, e, i) =
      run-Inv (new_machine size garbage) [] schedule (new_machine-Inv size garbage w) in
    (
      m,
      queue,
      e,
      i.in_order,
      ground (arith, i.sized, i.represents.room),
      no_race m queue m.producer m.consumer i.represents i.producer_ready i.consumer_ready,
    )
