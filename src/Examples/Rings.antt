-- ===== src/Examples/Rings.antt =====
-- A ring of four cells, its two threads, and the gateway's loops.
use can_from_scratch.Prelude.{
  ◌+◌, ◌<◌, ◌≡◌, ◌⊎◌, refl, true, false, none, some, List, [], ◌∷◌, ◌++◌, length, ◌==◌,
  if◌then◌else◌, arith,
}
use can_from_scratch.Ring.{CanFrame, RingBuffer, new_ring, push, pop}
use can_from_scratch.Ring.Refine.{Represents, new_ring-Represents, push-Represents, pop-Represents}
use can_from_scratch.Ring.Threads.{Machine, Turn, new_machine, run}
use can_from_scratch.Ring.Threads.Fifo.{Races, run-Fifo}
use can_from_scratch.Tasks.{Gateway, Arrival, Shown, run_tasks}
use can_from_scratch.Tasks
use can_from_scratch.Tasks.Flow.{Flow}
use can_from_scratch.Tasks.Run.{run_tasks-Flow}
use can_from_scratch.Examples.{
  sample, sample_frame, sample_frame-IsFrame, sample_clock, sample_parser,
}
use can_from_scratch.Examples.Parsers.{sample_parser-IsSafe}

abbrev pub sent_frame : CanFrame
sent_frame = record { id = 0x100; dlc = 8; payload = sample_frame; timestamp = 7 }

abbrev no_frames : List CanFrame
no_frames = []

abbrev pub small_ring : RingBuffer
small_ring = new_ring 4 sent_frame

pub small_ring-Represents : Represents small_ring []
small_ring-Represents = new_ring-Represents 4 sent_frame (omega arith)

push-Represents_example :
    ((length {A = CanFrame} [] + 1 ≡ small_ring.size)
      × (push small_ring sent_frame ≡ some (small_ring, false)))
    ⊎ (length {A = CanFrame} [] + 1 < small_ring.size)
      × (r' : RingBuffer) × (push small_ring sent_frame ≡ some (r', true))
      × Represents r' ([] ++ sent_frame ∷ [])
push-Represents_example = push-Represents small_ring [] sent_frame small_ring-Represents

pop-Represents_example :
    ((no_frames ≡ []) × (pop small_ring ≡ some (small_ring, none)))
    ⊎ (f : CanFrame) × (rest : List CanFrame) × (no_frames ≡ f ∷ rest)
      × (r' : RingBuffer) × (pop small_ring ≡ some (r', some f))
      × Represents r' rest
pop-Represents_example = pop-Represents small_ring no_frames small_ring-Represents

-- The consumer looks while the producer writes.
abbrev pub schedule : List Turn
schedule =
    Turn.producer sent_frame
    ∷ Turn.producer sent_frame
    ∷ Turn.consumer
    ∷ Turn.producer sent_frame
    ∷ Turn.consumer
    ∷ Turn.producer sent_frame
    ∷ Turn.consumer
    ∷ Turn.consumer
    ∷ Turn.consumer
    ∷ []

run-Fifo_example :
    (m : Machine) × (queue : List CanFrame) × (run (new_machine 4 sent_frame) schedule ≡ some m)
    × (m.sent ≡ m.received ++ queue)
    × (length queue < (if 4 == 0 then 1 else 4))
    × ¬ Races m m.producer m.consumer
run-Fifo_example = run-Fifo 4 sent_frame schedule (omega arith)

abbrev pub gateway : Gateway sample
gateway = record {
  ring = small_ring;
  parser = record sample_parser { total_frames = 0; valid_frames = 0; invalid_frames = 0 };
  total_received = 0;
  total_dropped = 0;
}

pub gateway-Flow : Flow sample gateway [] []
gateway-Flow = record {
  represents = small_ring-Represents;
  payloads = tt;
  ready = record { safe = sample_parser-IsSafe; no_diagnosis = refl };
  received = refl;
  total = refl;
  judged = refl;
}

abbrev pub turns : List (Tasks.Turn sample)
turns =
    Tasks.Turn.produce (Arrival.raw_frame 0x100 8 sample_frame) 7
    ∷ Tasks.Turn.consume_next 50 sample_clock sample_clock
    ∷ Tasks.Turn.consume_next 60 sample_clock sample_clock
    ∷ []

run_tasks-Flow_example :
    (g' : Gateway sample) × (queue : List CanFrame) × (log : List (Shown sample)) × (run_tasks
        sample 0x1FFFFFFF gateway turns
      ≡ some (g', log))
    × Flow sample g' queue log
run_tasks-Flow_example =
    run_tasks-Flow sample 0x1FFFFFFF gateway turns (sample_frame-IsFrame, (tt, (tt, tt)))
      gateway-Flow
