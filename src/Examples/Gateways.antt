-- ===== src/Examples/Gateways.antt =====
-- The gateway beside its plain queue, its counters, and a drained ring.
use can_from_scratch.Prelude.{
  ◌+◌, ◌%◌, ◌^◌, ◌<◌, ◌≤◌, ◌≡◌, refl, some, List, [], ◌∷◌, ◌++◌, map, length, replicate, arith,
  ◌==◌, if◌then◌else◌,
}
use can_from_scratch.Ring.{CanFrame, new_ring}
use can_from_scratch.Tasks.Interleaved.Drain.{run_system-drains}
use can_from_scratch.Tasks.{Gateway, Arrival, Shown, run_tasks}
use can_from_scratch.Tasks.Flow.{taken, parsed}
use can_from_scratch.Tasks.Plain.{Plain, run_plain}
use can_from_scratch.Tasks.Refine.{Matches, Agree, run_tasks-refines}
use can_from_scratch.Tasks.Bounds.{run_tasks-exact}
use can_from_scratch.Tasks.Lossless.{run_tasks-lossless}
use can_from_scratch.Tasks.Interleaved.{Taking, System, new_system, Move, run_system}
use can_from_scratch.Tasks.Interleaved.Producing.{take_all, in_flight}
use can_from_scratch.Tasks.Interleaved.Order.{run_system-Whole}
use can_from_scratch.Examples.{sample, sample_frame, sample_frame-IsFrame, sample_clock}
use can_from_scratch.Examples.Rings.{
  sent_frame, small_ring-Represents, gateway, gateway-Flow, turns,
}

abbrev plain_gateway : Plain sample
plain_gateway = record { queue = []; parser = gateway.parser; received = 0; dropped = 0 }

gateway-Matches : Matches sample 3 0x1FFFFFFF gateway plain_gateway
unfolding new_ring
gateway-Matches = record {
  represents = small_ring-Represents;
  sized = refl;
  same_parser = refl;
  same_received = refl;
  same_dropped = refl;
}

run_tasks-refines_example :
    Agree sample 3 0x1FFFFFFF
      (run_tasks sample 0x1FFFFFFF gateway turns)
      (run_plain sample 3 0x1FFFFFFF plain_gateway turns)
run_tasks-refines_example =
    run_tasks-refines sample 3 0x1FFFFFFF gateway plain_gateway turns gateway-Matches

run_tasks-exact_example :
    (g' : Gateway sample) × (queue : List CanFrame) × (log : List (Shown sample)) × (run_tasks
        sample 0x1FFFFFFF gateway turns
      ≡ some (g', log))
    × (g'.total_received ≡ g'.total_dropped + length queue + taken log)
    × (g'.parser.total_frames ≡ taken log + parsed log)
    × (g'.parser.valid_frames + g'.parser.invalid_frames ≡ parsed log)
    × (parsed log ≤ taken log)
    × (length queue < g'.ring.size)
    × (g'.parser.rolling_counter_errors ≤ g'.parser.invalid_frames)
    × (g'.parser.checksum_errors ≤ g'.parser.invalid_frames)
run_tasks-exact_example =
    run_tasks-exact sample 0x1FFFFFFF gateway turns (sample_frame-IsFrame, (tt, (tt, tt)))
      gateway-Flow (refl, refl, refl, refl, refl) (omega arith)

-- The consumer looks while the frame is being pushed, and takes it afterwards.
abbrev moves : List (Move sample)
moves =
    Move.produce (Arrival.raw_frame 0x100 8 sample_frame) 7
    ∷ Move.consume_next 10 sample_clock sample_clock
    ∷ Move.produce Arrival.read_error 8
    ∷ Move.consume_next 20 sample_clock sample_clock
    ∷ Move.produce Arrival.read_error 8
    ∷ Move.produce Arrival.read_error 8
    ∷ Move.consume_next 30 sample_clock sample_clock
    ∷ Move.consume_next 40 sample_clock sample_clock
    ∷ Move.consume_next 50 sample_clock sample_clock
    ∷ Move.consume_next 60 sample_clock sample_clock
    ∷ []

run_system-Whole_example :
    (g : System sample) × (queue : List CanFrame) × (run_system sample 0x1FFFFFFF
        (new_system sample 4 sent_frame gateway.parser)
        moves
      ≡ some g)
    × (g.machine.sent ≡ map (λ (t : Taking sample). t.frame) g.taken ++ queue)
    × (length queue < (if 4 == 0 then 1 else 4))
    × (take_all sample (some (gateway.parser, [])) g.taken ≡ some (g.parser, g.log))
    × (g.total_received
        ≡ (length g.machine.sent + g.total_dropped + in_flight sample g.machine.producer) % 2 ^ 64)
run_system-Whole_example =
    run_system-Whole sample 0x1FFFFFFF 4 sent_frame gateway.parser moves (omega arith)
      gateway-Flow.ready
      (sample_frame-IsFrame, (tt, (tt, (tt, (tt, (tt, (tt, (tt, (tt, (tt, tt))))))))))

-- Before the frame is taken, and sixteen moves of the consumer.
abbrev before : List (Move sample)
before =
    Move.produce (Arrival.raw_frame 0x100 8 sample_frame) 7
    ∷ Move.consume_next 10 sample_clock sample_clock
    ∷ Move.produce Arrival.read_error 8
    ∷ Move.produce Arrival.read_error 8
    ∷ Move.produce Arrival.read_error 8
    ∷ []

abbrev afterwards : List (Move sample)
afterwards = replicate 16 (Move.consume_next 50 sample_clock sample_clock)

run_system-drains_example :
    (g : System sample) × (run_system sample 0x1FFFFFFF
        (new_system sample 4 sent_frame gateway.parser)
        before
      ≡ some g)
    × (g' : System sample) × (run_system sample 0x1FFFFFFF g afterwards ≡ some g')
    × (map (λ (t : Taking sample). t.frame) g'.taken ≡ g.machine.sent)
    × (take_all sample (some (gateway.parser, [])) g'.taken ≡ some (g'.parser, g'.log))
run_system-drains_example =
    run_system-drains sample 0x1FFFFFFF 4 sent_frame gateway.parser before afterwards (omega arith)
      gateway-Flow.ready (sample_frame-IsFrame, (tt, (tt, (tt, (tt, tt))))) (omega arith)
      (omega arith)

run_tasks-lossless_example :
    (g' : Gateway sample) × (queue : List CanFrame) × (log : List (Shown sample)) × (run_tasks
        sample 0x1FFFFFFF gateway turns
      ≡ some (g', log))
    × (g'.total_dropped ≡ gateway.total_dropped)
    × (g'.total_received ≡ (gateway.total_dropped + length queue + taken log) % 2 ^ 64)
unfolding new_ring
run_tasks-lossless_example =
    run_tasks-lossless sample 3 0x1FFFFFFF gateway turns (sample_frame-IsFrame, (tt, (tt, tt)))
      gateway-Flow refl refl
