-- ===== src/Ring/Threads/Inv.antt =====
-- What the two threads of `RingBuffer` may rely on at each of their places, and what keeps it.
use can_from_scratch.Prelude.{
  ℕ, suc, ◌+◌, ◌<◌, ◌≤◌, ◌≡◌, refl, some, List, [], ◌∷◌, ◌++◌, if◌then◌else◌, ◌==◌, get_elem?,
  length, arith, inl, inr, Bool-cases, length-append,
}
use can_from_scratch.Ring.{CanFrame, RingBuffer, next_index}
use can_from_scratch.Ring.Refine.{cell, Represents, next_index_lem}
use can_from_scratch.Ring.Threads.{Producer, Consumer, Machine}

-- What the producer may rely on: a loaded `head` is the place of one popped `j` frames ago.
abbrev pub ProducerReady : RingBuffer → List CanFrame → Producer → Type 0
ProducerReady r q Producer.ready = Unit
ProducerReady r q (Producer.checking frame head) =
    (head < r.size) × (j : ℕ) × (r.head ≡ cell r.size head j) × (length q + j < r.size)
ProducerReady r q (Producer.writing frame next) =
    (next ≡ next_index r.size r.tail) × (length q + 1 < r.size)
ProducerReady r q (Producer.publishing frame next) =
    (next ≡ next_index r.size r.tail)
    × (length q + 1 < r.size)
    × (get_elem? r.buffer r.tail ≡ some frame)

-- What the consumer may rely on: a loaded `tail` is the place after `k` of the frames.
abbrev pub ConsumerReady : RingBuffer → List CanFrame → Consumer → Type 0
ConsumerReady r q Consumer.ready = Unit
ConsumerReady r q (Consumer.checking tail) =
    (k : ℕ) × (tail ≡ cell r.size r.head k) × (k ≤ length q)
ConsumerReady r q (Consumer.copying head) = (head ≡ r.head) × (0 < length q)
ConsumerReady r q (Consumer.releasing frame head) = (head ≡ r.head) × (get_elem? q 0 ≡ some frame)

pub record Inv (n : ℕ) (m : Machine) (q : List CanFrame) : Type 0 where
  pub sized : m.ring.size ≡ n
  pub represents : Represents m.ring q
  pub in_order : m.sent ≡ m.received ++ q
  pub producer_ready : ProducerReady m.ring q m.producer
  pub consumer_ready : ConsumerReady m.ring q m.consumer

get_elem?-append_first :
    (q : List CanFrame) (f g : CanFrame)
    → get_elem? q 0 ≡ some f
    → get_elem? (q ++ g ∷ []) 0 ≡ some f
get_elem?-append_first [] f g e = cc
get_elem?-append_first (x ∷ q) f g e = e

-- A push leaves the consumer's knowledge true.
pub consumer_keeps :
    (r : RingBuffer) (q : List CanFrame) (buffer : List CanFrame) (tail : ℕ) (f : CanFrame)
    (c : Consumer)
    → ConsumerReady r q c
    → ConsumerReady (record r { buffer = buffer; tail = tail }) (q ++ f ∷ []) c
consumer_keeps r q buffer tail f Consumer.ready h = tt
consumer_keeps r q buffer tail f (Consumer.checking t) (k, e, le) =
    (k, e, omega (arith, length-append q (f ∷ [])))
consumer_keeps r q buffer tail f (Consumer.copying head) (e, lt) =
    (e, omega (arith, length-append q (f ∷ [])))
consumer_keeps r q buffer tail f (Consumer.releasing frame head) (e, first) =
    (e, get_elem?-append_first q frame f first)

-- A pop leaves the producer's knowledge true.
pub producer_keeps :
    (r : RingBuffer) (q : List CanFrame) (f : CanFrame) (w : Producer)
    → Represents r (f ∷ q)
    → ProducerReady r (f ∷ q) w
    → ProducerReady (record r { head = next_index r.size r.head }) q w
producer_keeps r q f Producer.ready rep h = tt
producer_keeps r q f (Producer.checking frame head) rep (lt, j, e, room) =
    let moved : next_index r.size r.head ≡ cell r.size r.head 1 =
      next_index_lem r.size r.head rep.head_inside rep.fits in
    (lt, suc j, ground arith, omega arith)
producer_keeps r q f (Producer.writing frame next) rep (e, room) = (e, omega arith)
producer_keeps r q f (Producer.publishing frame next) rep (e, room, stored) =
    (e, omega arith, stored)

-- The result of the producer's test.
pub tested_full :
    (r : RingBuffer) (q : List CanFrame) (frame : CanFrame) (head : ℕ)
    → Represents r q
    → ProducerReady r q (Producer.checking frame head)
    → ProducerReady r q (
        if next_index r.size r.tail == head
        then Producer.ready
        else Producer.writing frame (next_index r.size r.tail))
tested_full r q frame head rep (lt, j, e, room) =
    let next : next_index r.size r.tail ≡ cell r.size r.tail 1 =
      next_index_lem r.size r.tail (ground (arith, rep.ends, rep.head_inside, rep.room)) rep.fits in
    elim (Bool-cases (next_index r.size r.tail == head)) [
      | inl full ↦ rw full tt
      | inr free ↦ rw free (refl, ground (arith, rep.ends, rep.head_inside))
    ]

-- The result of the consumer's test.
pub tested_empty :
    (r : RingBuffer) (q : List CanFrame) (tail : ℕ)
    → Represents r q
    → ConsumerReady r q (Consumer.checking tail)
    → ConsumerReady r q (if r.head == tail then Consumer.ready else Consumer.copying r.head)
tested_empty r q tail rep (k, e, le) = elim (Bool-cases (r.head == tail)) [
  | inl empty ↦ rw empty tt
  | inr some_left ↦ rw some_left (refl, ground (arith, rep.head_inside, rep.room))
]
