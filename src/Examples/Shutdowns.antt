-- ===== src/Examples/Shutdowns.antt =====
-- The program is interrupted while the DoIP server has a client.
use can_from_scratch.Prelude.{ℕ, ◌≤◌, ◌≡◌, true, List, [], ◌∷◌, ◌++◌, replicate, arith}
use can_from_scratch.Prelude.Int.{pos}
use can_from_scratch.Calls.{Thread}
use can_from_scratch.Main.{start_and_stop}
use can_from_scratch.Main.Shutdown.{Place, Outcome, Stage, Event, happen_all, started_program}
use can_from_scratch.Main.Shutdown.Trace.{has_closed}
use can_from_scratch.Main.Shutdown.Safety.{happen_all-in_order}
use can_from_scratch.Main.Shutdown.Progress.{turns_of}
use can_from_scratch.Main.Shutdown.Ending.{stopped_run, happen_all-ends}

abbrev connecting : List Event
connecting =
    Event.main_goes_on
    ∷ Event.thread_goes_on Thread.doip Outcome.nothing
    ∷ Event.thread_goes_on Thread.doip Outcome.nothing
    ∷ Event.thread_goes_on Thread.producer Outcome.nothing
    ∷ Event.thread_goes_on Thread.doip Outcome.connected
    ∷ Event.thread_goes_on Thread.doip Outcome.nothing
    ∷ []

-- Three turns of each thread, and one of `main`.
abbrev turns_after : List Event
turns_after =
    replicate 3 (Event.thread_goes_on Thread.doip Outcome.client_sent)
    ++ Event.main_goes_on
      ∷ (replicate 3 (Event.thread_goes_on Thread.producer Outcome.nothing)
          ++ (replicate 3 (Event.thread_goes_on Thread.consumer Outcome.nothing)
              ++ replicate 3 (Event.thread_goes_on Thread.monitor Outcome.nothing)))

turns_after-enough : (t : Thread) → 3 ≤ turns_of t turns_after
turns_after-enough Thread.producer = omega arith
turns_after-enough Thread.consumer = omega arith
turns_after-enough Thread.monitor = omega arith
turns_after-enough Thread.doip = omega arith

-- The client keeps sending, and `main` closes the socket in the end.
abbrev interrupted : List Event
interrupted = connecting ++ Event.interrupt ∷ (turns_after ++ replicate 6 Event.main_goes_on)

happen_all-in_order_example :
    (has_closed (happen_all (started_program true (pos 3)) interrupted).calls ≡ true
      → (happen_all (started_program true (pos 3)) interrupted).place Thread.doip ≡ Place.stopped)
    × ((happen_all (started_program true (pos 3)) interrupted).stage ≡ Stage.finished
        → (n : ℕ) × ((happen_all (started_program true (pos 3)) interrupted).calls
            ≡ start_and_stop (pos 3) n))
happen_all-in_order_example = happen_all-in_order true (pos 3) interrupted Thread.doip

happen_all-ends_example :
    ((stopped_run true (pos 3) connecting turns_after (replicate 6 Event.main_goes_on)).stage
      ≡ Stage.finished)
    × ((t : Thread)
        → (stopped_run true (pos 3) connecting turns_after (replicate 6 Event.main_goes_on)).place t
          ≡ Place.stopped)
happen_all-ends_example =
    happen_all-ends true (pos 3) connecting turns_after (replicate 6 Event.main_goes_on)
      turns_after-enough (omega arith)
