-- ===== src/Ring/Threads.antt =====
-- src/ring_buffer.cpp with its two threads: `push` runs in the producer's thread and `pop` in the
-- consumer's, and a step of either is one access to what they share. Steps are interleaved in any
-- order, each on the state the last one left: an acquire load of an index sees the release store it
-- reads from and all that came before, so what a step may read of the cells does not depend on the
-- memory order.
pub mod Inv
pub mod Fifo
pub mod Drain
use can_from_scratch.Prelude.{
  ℕ, Option, none, some, ◌>>=◌, List, [], ◌∷◌, ◌++◌, if◌then◌else◌, ◌==◌, get_elem?,
}
use can_from_scratch.Ring.{CanFrame, RingBuffer, new_ring, next_index, write}

-- Where the producer is in `push`, with its locals.
pub data Producer : Type 0 where
  ready : Producer
  checking : (frame : CanFrame) (head : ℕ) → Producer  -- `head` is loaded
  writing : (frame : CanFrame) (next_tail : ℕ) → Producer  -- the ring was not full
  publishing : (frame : CanFrame) (next_tail : ℕ) → Producer  -- the frame is in its cell

-- Where the consumer is in `pop`, with its locals.
pub data Consumer : Type 0 where
  ready : Consumer
  checking : (tail : ℕ) → Consumer  -- `tail` is loaded
  copying : (head : ℕ) → Consumer  -- the ring was not empty
  releasing : (frame : CanFrame) (head : ℕ) → Consumer  -- the frame is copied out

-- `sent` has the frames of the pushes that have stored `m_tail`, and `received` those of the pops
-- that have stored `m_head`, the oldest first.
pub record Machine : Type 0 where
  pub ring : RingBuffer
  pub producer : Producer
  pub consumer : Consumer
  pub sent : List CanFrame
  pub received : List CanFrame

unfoldable pub new_machine : ℕ → CanFrame → Machine
unfolding new_ring
new_machine size garbage = record {
  ring = new_ring size garbage;
  producer = Producer.ready;
  consumer = Consumer.ready;
  sent = [];
  received = [];
}

-- One step of `push`; a new call pushes `next`.
unfoldable pub push_step : Machine → Producer → CanFrame → Option Machine
unfolding next_index write
push_step m Producer.ready next = some (record m { producer = Producer.checking next m.ring.head })
push_step m (Producer.checking frame head) next =
    let next_tail = next_index m.ring.size m.ring.tail in
    some (record m {
      producer = if next_tail == head then Producer.ready else Producer.writing frame next_tail;
    })
push_step m (Producer.writing frame next_tail) next = do
  buffer ← write m.ring.buffer m.ring.tail frame
  some (record m {
    ring = record m.ring { buffer = buffer };
    producer = Producer.publishing frame next_tail;
  })
push_step m (Producer.publishing frame next_tail) next = some (record m {
  ring = record m.ring { tail = next_tail };
  producer = Producer.ready;
  sent = m.sent ++ frame ∷ [];
})

-- One step of `pop`.
unfoldable pub pop_step : Machine → Consumer → Option Machine
unfolding next_index
pop_step m Consumer.ready = some (record m { consumer = Consumer.checking m.ring.tail })
pop_step m (Consumer.checking tail) = some (record m {
  consumer = if m.ring.head == tail then Consumer.ready else Consumer.copying m.ring.head;
})
pop_step m (Consumer.copying head) = do
  frame ← get_elem? m.ring.buffer head
  some (record m { consumer = Consumer.releasing frame head })
pop_step m (Consumer.releasing frame head) = some (record m {
  ring = record m.ring { head = next_index m.ring.size head };
  consumer = Consumer.ready;
  received = m.received ++ frame ∷ [];
})

-- Whose turn it is.
pub data Turn : Type 0 where
  producer : (next : CanFrame) → Turn
  consumer : Turn

unfoldable pub step : Machine → Turn → Option Machine
unfolding push_step pop_step
step m (Turn.producer next) = push_step m m.producer next
step m Turn.consumer = pop_step m m.consumer

unfoldable pub run : Machine → List Turn → Option Machine
unfolding step
run m [] = some m
run m (t ∷ rest) = do m' ← step m t; run m' rest
