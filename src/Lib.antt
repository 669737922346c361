-- ===== src/Lib.antt =====
-- A model of the CAN gateway: frames come from a socket, pass a lock-free ring buffer from the
-- producer's thread to the consumer's, and are validated and parsed into physical values, which a
-- dashboard shows; a plugin reassembles UDS messages; a monitor shows the frames received and
-- dropped; and a server answers DoIP clients in a thread of its own.
--
-- The files, and the code that each is about:
--   Prelude, Bits, Frame: shared names, Boolean tests and lists over the native numbers, bits of
--     words, and the eight bytes of a frame.
--   Platform: what the C++ code takes from its platform, as a parameter: `double` and the steady clock.
--   Protocol: src/protocol.cpp and include/protocol.hpp, `extract_raw_signal`. Its children describe
--     the result by the bits of the frame, as two's complement, and say where it is defined.
--   Checksum: `CanMessage::calculateChecksum` of src/can_parser.cpp. Checksum.Named and
--     Checksum.Polynomial describe it by the polynomials of the CRCs.
--   Signal, Message: the classes `Signal` and `CanMessage` of src/can_parser.cpp and
--     include/can_parser.hpp: `signal` is the constructor, `update`, `is_timeout`, `parse`,
--     `validate_rolling_counter`, `validate_checksum` and so on the methods of these names.
--   Uds: the diagnostic plugin, from `getPciType` to `handleDiagnosticFrame`, with `processUdsMessage`.
--   Registry, Parser: `CanParser`, with its unordered containers, its statistics and `handleFrame`.
--     Parser.View and Parser.Reorder take it up to the order of its containers, as a quotient.
--     Parser.Tally is a checker of a stream of frames beside which Parser.Stream puts the parser.
--   Screen: what the parser prints, `Signal::print`, `CanMessage::display`, `CanParser::showData` and
--     `CanParser::renderDashboard` of src/can_parser.cpp, as records.
--   Ring: src/ring_buffer.cpp and include/ring_buffer.hpp. Ring.Threads takes `push` and `pop` apart
--     into the accesses to shared memory and interleaves one thread of each.
--   Tasks: `producer_task` and `consumer_task` of src/main.cpp, one iteration as one step, and
--     `monitor_task` in Tasks.Monitor. Tasks.Plain is the same gateway with a plain queue for the ring, and
--     Tasks.Interleaved the two loops with each access to the ring as a step, on Ring.Threads.
--     Tasks.Interleaved.Masked is about the mask of the identifiers, Tasks.Lossless about a consumer
--     that keeps up.
--   Calls: the calls of the operating system that matter outside, and a test of their order.
--   Doip: src/doip_server.cpp and include/doip_server.hpp, the class `DoipServer`.
--   Main: `main` of src/main.cpp. Main.Shutdown is how the program stops: the signal handler, the
--     tests of the running flag in the loops of the threads, and the joins, in any order of turns.
--   Codegen: scripts/dbc_codegen.py, and `init_generated_database`, which it writes, on a parser.
--     Codegen.Bits relates its start bits to the numbering of the DBC file, Codegen.Reading says what
--     the lines of the file mean, Codegen.Gateway and
--     Codegen.Display are about the gateway as `main` sets it up with the generated function, and
--     Codegen.Extended is about the identifiers of 29 bits in it.
--   Trials: the tests inside the program, in src/can_parser.cpp and src/protocol.cpp, with what they print.
--   Examples: a platform, a message and frames on which the theorems are tried.
--
-- Conventions. `Option` stands for undefined behaviour: `none` is a shift out of range or a read or
-- a write outside an array. Fixed-width integers keep their wrap-around as a remainder; a C++ `int`
-- that may be negative is a ℤ. What the code prints or sends is a list of outputs where a property
-- depends on it, and left out elsewhere. A call that reads the clock takes the reading as an argument;
-- where one call reads it for every signal, the argument is a function of the signal's place.
-- Loops recurse on the list or on the number of rounds the code has; no definition of the code takes
-- fuel. The sender of Uds.Assemble takes the length of the payload as fuel, which is at least the
-- number of its frames.
--
-- Taken as given. The steps of Ring.Threads are interleaved on one memory, where a load sees the
-- newest store; under the acquire and release accesses of the code a thread may also see an older
-- index of the other, which makes the ring look fuller or emptier than it is. `double` is a type with the
-- operations the code uses and no laws. The lists that stand for the unordered containers have an
-- order; it is the order of the lines on the dashboard and of the readings of the clock.
--
-- In Doip and Main the results of the system calls are arguments, and a loop takes one element of a
-- list, or one unary number, for each pass that finds the running flag set; nothing says that a call
-- that blocks returns. In Main.Shutdown a turn of a thread is a test of the flag or a body of a loop
-- to its end, so a thread whose call does not return is one that gets no further turn.
-- In Codegen the matches of the two regular expressions are given, the numbers in the DBC file are
-- taken to fit the types of the generated code and to be written with no leading zero, and `double` literals stand for their values.
--
-- Not modelled: the fixed text and the format of the numbers in what is printed; the addresses and
-- options given to the system calls; the regular expressions of dbc_codegen.py; the test client
-- scripts/tester.py and the script scripts/stress_test_can.sh, which loads the bus.
pub mod Prelude
pub mod Bits
pub mod Frame
pub mod Protocol
pub mod Platform
pub mod Checksum
pub mod Signal
pub mod Message
pub mod Uds
pub mod Registry
pub mod Parser
pub mod Ring
pub mod Tasks
pub mod Calls
pub mod Doip
pub mod Main
pub mod Codegen
pub mod Examples
pub mod Screen
pub mod Trials
