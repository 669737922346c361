-- ===== src/Examples/Databases.antt =====
-- protocol/test_matrix.dbc: its messages with its signals, with scaled integers for the factors.
use Prim.Native.String.{String}
use can_from_scratch.Prelude.{
  ℕ, ◌+◌, ◌%◌, ◌^◌, ◌<◌, ◌≡◌, true, false, none, some, List, [], ◌∷◌, ◌++◌, map, length, arith,
}
use can_from_scratch.Prelude.Int.{pos, negsuc}
use can_from_scratch.Frame.{IsFrame, bytes8}
use can_from_scratch.Registry.{lookup}
use can_from_scratch.Signal.{Signal}
use can_from_scratch.Ring.{CanFrame}
use can_from_scratch.Parser.{new_parser, is_in_whitelist, get_timeout_signals}
use can_from_scratch.Tasks.{Arrival}
use can_from_scratch.Tasks.Flow.{taken, parsed}
use can_from_scratch.Tasks.Interleaved.{Taking, System, new_system, Move, run_system}
use can_from_scratch.Codegen.{DbcSignal, Mark, SignalMatch, Line, init_generated_database}
use can_from_scratch.Codegen.Lines.{signals_of, is_declared}
use can_from_scratch.Codegen.Statements.{Constructed}
use can_from_scratch.Codegen.Database.{message_of, init_generated_database-declared}
use can_from_scratch.Codegen.Gateway.{run_system-Generated}
use can_from_scratch.Codegen.Reading.{matches_of, MeansAll}
use can_from_scratch.Codegen.Values.{Displays, Pairwise, Unseen}
use can_from_scratch.Tasks.Interleaved.Masked.{can_eff_mask}
use can_from_scratch.Codegen.Extended.{run_system-Unseen}
use can_from_scratch.Codegen.Display.{last_payload, registered_signals, run_system-Displays}
use can_from_scratch.Examples.{sample, sample_clock}
use can_from_scratch.Examples.Rings.{sent_frame}

-- A little-endian signal with no sign, as most of the file's are.
abbrev plain_match : String → Mark → ℕ → ℕ → SignalMatch sample
plain_match name mark start len = record {
  name = name;
  mark = mark;
  start_bit = start;
  length = len;
  byte_order = 1;
  minus = false;
  factor = pos 1;
  offset = pos 0;
}

abbrev test_matrix : List (Line sample)
test_matrix =
    Line.other
    ∷ Line.bo 291 "WheelSpeedFrame"
    ∷ Line.sg (plain_match "FrontLeftSpeed" Mark.no_mark 0 16)
    ∷ Line.sg (plain_match "FrontRightSpeed" Mark.no_mark 16 16)
    ∷ Line.bo 512 "EngineStatusFrame"
    ∷ Line.sg (record (plain_match "EngineTemp" Mark.no_mark 7 8) {
      byte_order = 0;
      minus = true;
      offset = negsuc 39;
    })
    ∷ Line.bo 600 "MuxDemoFrame"
    ∷ Line.sg (plain_match "ModeSwitch" Mark.multiplexor 0 4)
    ∷ Line.sg (plain_match "NormalData" Mark.no_mark 4 4)
    ∷ Line.sg (plain_match "BatteryVoltage" (Mark.multiplexed 0) 8 16)
    ∷ Line.sg (plain_match "MotorCurrent" (Mark.multiplexed 1) 8 16)
    ∷ Line.other
    ∷ []

abbrev start_time : ℕ → ℕ
start_time i = 5

init_generated_database-declared_example :
    ((sigs : List (Signal sample)) × Constructed sample
        (signals_of sample 600 false test_matrix)
        sigs
      × (lookup 600
            (init_generated_database sample
              (new_parser sample)
              test_matrix
              start_time).message_registry
          ≡ message_of sample sigs))
    × (is_in_whitelist sample
          (init_generated_database sample (new_parser sample) test_matrix start_time)
          600
        ≡ is_declared sample 600 test_matrix)
    × ((init_generated_database sample
          (new_parser sample)
          test_matrix
          start_time).diagnostic_mode_enabled
        ≡ false)
init_generated_database-declared_example =
    init_generated_database-declared sample test_matrix start_time 600

-- A frame of the multiplexed message, pushed and taken.
abbrev mux_frame : List ℕ
mux_frame = bytes8 0x10 0xC8 0x04 0 0 0 0 0

mux_frame-IsFrame : IsFrame mux_frame
mux_frame-IsFrame = ground arith

abbrev mux_moves : List (Move sample)
mux_moves =
    Move.produce (Arrival.raw_frame 600 8 mux_frame) 7
    ∷ Move.produce Arrival.read_error 8
    ∷ Move.consume_next 10 sample_clock sample_clock
    ∷ Move.produce Arrival.read_error 8
    ∷ Move.produce Arrival.read_error 8
    ∷ Move.consume_next 20 sample_clock sample_clock
    ∷ Move.consume_next 30 sample_clock sample_clock
    ∷ Move.consume_next 40 sample_clock sample_clock
    ∷ Move.consume_next 50 sample_clock sample_clock
    ∷ []

run_system-Generated_example :
    (g : System sample) × (queue : List CanFrame) × (run_system sample 0x1FFFFFFF
        (new_system sample 1024 sent_frame
          (init_generated_database sample (new_parser sample) test_matrix start_time))
        mux_moves
      ≡ some g)
    × (g.machine.sent ≡ map (λ (t : Taking sample). t.frame) g.taken ++ queue)
    × (length queue < 1024)
    × (g.parser.invalid_frames ≡ 0)
    × (g.parser.rolling_counter_errors ≡ 0)
    × (g.parser.checksum_errors ≡ 0)
    × (get_timeout_signals sample g.parser sample_clock ≡ 0)
    × (g.parser.valid_frames ≡ parsed g.log % 2 ^ 64)
    × (g.parser.total_frames ≡ (taken g.log + parsed g.log) % 2 ^ 64)
run_system-Generated_example =
    run_system-Generated sample 0x1FFFFFFF sent_frame test_matrix start_time mux_moves sample_clock
      (ground arith) (mux_frame-IsFrame, (tt, (tt, (tt, (tt, (tt, (tt, (tt, (tt, tt)))))))))

run_system-Displays_example :
    (g : System sample) × (queue : List CanFrame) × (run_system sample 0x1FFFFFFF
        (new_system sample 1024 sent_frame
          (init_generated_database sample (new_parser sample) test_matrix start_time))
        mux_moves
      ≡ some g)
    × (g.machine.sent ≡ map (λ (t : Taking sample). t.frame) g.taken ++ queue)
    × (xs : List (DbcSignal sample)) × MeansAll sample (matches_of sample 600 false test_matrix) xs
    × Displays sample
        (last_payload sample 600 none (map (λ (t : Taking sample). t.frame) g.taken))
        xs
        (registered_signals sample 600 g.parser)
run_system-Displays_example =
    run_system-Displays sample 600 0x1FFFFFFF sent_frame test_matrix start_time mux_moves
      (ground arith) (mux_frame-IsFrame, (tt, (tt, (tt, (tt, (tt, (tt, (tt, (tt, tt)))))))))

-- A message with an extended identifier, and a frame that has it.
abbrev extended_id : ℕ
extended_id = 2 ^ 31 + 0x18FEF100

abbrev extended_lines : List (Line sample)
extended_lines =
    Line.bo extended_id "CruiseControl"
    ∷ Line.sg (plain_match "VehicleSpeed" Mark.no_mark 8 16)
    ∷ []

abbrev extended_moves : List (Move sample)
extended_moves = Move.produce (Arrival.raw_frame extended_id 8 mux_frame) 7 ∷ []

run_system-Unseen_example :
    (g : System sample) × (run_system sample can_eff_mask
        (new_system sample 1024 sent_frame
          (init_generated_database sample (new_parser sample) extended_lines start_time))
        extended_moves
      ≡ some g)
    × Pairwise sample
        (Unseen sample)
        (signals_of sample extended_id false extended_lines)
        (registered_signals sample extended_id g.parser)
run_system-Unseen_example =
    run_system-Unseen sample extended_id (omega arith) sent_frame extended_lines start_time
      extended_moves (ground arith) (mux_frame-IsFrame, tt)
