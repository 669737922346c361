-- ===== src/Tasks/Interleaved.antt =====
-- src/main.cpp with src/ring_buffer.cpp: `producer_task` and `consumer_task` at the granularity of
-- their accesses to the ring. The counter of dropped frames is the producer's, the parser the
-- consumer's, so what either does with them after its call of the ring is one with the last access
-- of that call.
pub mod Producing
pub mod Order
pub mod Drain
pub mod Masked
use can_from_scratch.Prelude.{
  ℕ, ◌+◌, Option, none, some, ◌>>=◌, List, [], ◌∷◌, ◌++◌, bit_and, ◌==◌, if◌then◌else◌,
}
use can_from_scratch.Platform.{Platform}
use can_from_scratch.Ring.{CanFrame, next_index}
use can_from_scratch.Ring.Threads.{Producer, Consumer, Machine, new_machine, push_step, pop_step}
use can_from_scratch.Parser.{CanParser, increment}
use can_from_scratch.Tasks.{Arrival, Shown, consume}

-- A frame that the consumer took, with the readings of the clock while it handled it.
pub record Taking (p : Platform) : Type 0 where
  pub frame : CanFrame
  pub now : p.Time
  pub clock : ℕ → p.Time
  pub drawn : ℕ → p.Time

-- `taken` are the frames that were taken, the oldest first, and `log` what was shown for them.
pub record System (p : Platform) : Type 0 where
  pub machine : Machine
  pub parser : CanParser p
  pub total_received : ℕ
  pub total_dropped : ℕ
  pub taken : List (Taking p)
  pub log : List (Shown p)

module _ (p : Platform) where
  -- The ring of `main`, with its size as a parameter, and no frame counted.
  unfoldable pub new_system : (size : ℕ) (garbage : CanFrame) → CanParser p → System p
  new_system size garbage parser = record {
    machine = new_machine size garbage;
    parser = parser;
    total_received = 0;
    total_dropped = 0;
    taken = [];
    log = [];
  }

  -- A read that the producer makes when it is not in a call of `push`.
  unfoldable pub start_push :
      (eff_mask : ℕ) → System p → Arrival → (timestamp : ℕ) → Option (System p)
  start_push eff_mask g Arrival.read_error timestamp = some g
  start_push eff_mask g Arrival.other_size timestamp = some g
  start_push eff_mask g (Arrival.raw_frame can_id dlc payload) timestamp = do
    machine ← push_step g.machine Producer.ready (record {
      id = bit_and can_id eff_mask;
      dlc = dlc;
      payload = payload;
      timestamp = timestamp;
    })
    some (record g { machine = machine; total_received = increment g.total_received })

  -- The next access of the producer; `arrival` is what it reads if it reads.
  unfoldable pub producer_move :
      (eff_mask : ℕ) → System p → Producer → Arrival → (timestamp : ℕ) → Option (System p)
  unfolding start_push
  producer_move eff_mask g Producer.ready arrival timestamp =
      start_push eff_mask g arrival timestamp
  producer_move eff_mask g (Producer.checking frame head) arrival timestamp = do
    machine ← push_step g.machine (Producer.checking frame head) frame
    let full = next_index g.machine.ring.size g.machine.ring.tail == head
    some (record g {
      machine = machine;
      total_dropped = if full then increment g.total_dropped else g.total_dropped;
    })
  producer_move eff_mask g (Producer.writing frame tail) arrival timestamp = do
    machine ← push_step g.machine (Producer.writing frame tail) frame
    some (record g { machine = machine })
  producer_move eff_mask g (Producer.publishing frame tail) arrival timestamp = do
    machine ← push_step g.machine (Producer.publishing frame tail) frame
    some (record g { machine = machine })

  -- The next access of the consumer; the last one of a call that takes a frame, with the handling.
  unfoldable pub consumer_move :
      System p → Consumer → p.Time → (ℕ → p.Time) → (ℕ → p.Time) → Option (System p)
  consumer_move g (Consumer.releasing frame head) now clock drawn = do
    machine ← pop_step g.machine (Consumer.releasing frame head)
    (parser, shown) ← consume p g.parser frame now clock drawn
    some (record g {
      machine = machine;
      parser = parser;
      taken = g.taken ++ record { frame = frame; now = now; clock = clock; drawn = drawn } ∷ [];
      log = g.log ++ shown ∷ [];
    })
  consumer_move g Consumer.ready now clock drawn = do
    machine ← pop_step g.machine Consumer.ready
    some (record g { machine = machine })
  consumer_move g (Consumer.checking tail) now clock drawn = do
    machine ← pop_step g.machine (Consumer.checking tail)
    some (record g { machine = machine })
  consumer_move g (Consumer.copying head) now clock drawn = do
    machine ← pop_step g.machine (Consumer.copying head)
    some (record g { machine = machine })

  pub data Move : Type 0 where
    produce : (arrival : Arrival) (timestamp : ℕ) → Move
    consume_next : (now : p.Time) (clock : ℕ → p.Time) (drawn : ℕ → p.Time) → Move

  unfoldable pub move : (eff_mask : ℕ) → System p → Move → Option (System p)
  unfolding producer_move consumer_move
  move eff_mask g (Move.produce arrival timestamp) =
      producer_move eff_mask g g.machine.producer arrival timestamp
  move eff_mask g (Move.consume_next now clock drawn) =
      consumer_move g g.machine.consumer now clock drawn

  unfoldable pub run_system : (eff_mask : ℕ) → System p → List Move → Option (System p)
  unfolding move
  run_system eff_mask g [] = some g
  run_system eff_mask g (t ∷ rest) = do g' ← move eff_mask g t; run_system eff_mask g' rest
