-- ===== src/Main/Shutdown.antt =====
-- src/main.cpp and src/doip_server.cpp: how the program stops. The signal handler clears the
-- running flag; each thread reads it in the test of its loop; `main` waits for the flag and joins
-- the threads. A turn of a thread is a test of its flag, or the body of its loop, whose blocking
-- call is taken to return; the turns and the signal come in any order.
pub mod Joining
pub mod Trace
pub mod Safety
pub mod Progress
pub mod Ending
use can_from_scratch.Prelude.{ℕ, suc, ◌+◌, Bool, true, false, List, [], ◌∷◌, ◌++◌, if◌then◌else◌}
use can_from_scratch.Prelude.Int.{ℤ}
use can_from_scratch.Calls.{Thread, Call, same_thread}

-- Where a thread stands: before its loop (DoIP only), at the test of the loop, in its body, at the
-- test of the loop of `handleClient` and in that body, or at its end.
pub data Place : Type 0 where
  starting loop_test in_body client_test in_client stopped : Place

-- What the calls of the DoIP thread give in one turn.
pub data Outcome : Type 0 where
  call_failed nothing connected client_left client_sent : Outcome

-- The loops of `producer_task`, `consumer_task` and `monitor_task`: no path of a body leaves them.
abbrev pub worker_turn : Bool → Place → Place
worker_turn running Place.loop_test = if running then Place.in_body else Place.stopped
worker_turn running Place.in_body = Place.loop_test
worker_turn running place = place

-- `DoipServer::run` with `handleClient`: a failed preparation or a failed `poll` ends the thread; a
-- failed `recv` or a client that has left ends `handleClient` only.
abbrev pub doip_turn : Bool → Place → Outcome → Place
doip_turn running Place.starting Outcome.call_failed = Place.stopped
doip_turn running Place.starting outcome = Place.loop_test
doip_turn running Place.loop_test outcome = if running then Place.in_body else Place.stopped
doip_turn running Place.in_body Outcome.call_failed = Place.stopped
doip_turn running Place.in_body Outcome.connected = Place.client_test
doip_turn running Place.in_body outcome = Place.loop_test
doip_turn running Place.client_test outcome = if running then Place.in_client else Place.loop_test
doip_turn running Place.in_client Outcome.call_failed = Place.loop_test
doip_turn running Place.in_client Outcome.client_left = Place.loop_test
doip_turn running Place.in_client outcome = Place.client_test
doip_turn running Place.stopped outcome = Place.stopped

abbrev pub thread_turn : Thread → Bool → Place → Outcome → Place
thread_turn Thread.doip running place outcome = doip_turn running place outcome
thread_turn t running place outcome = worker_turn running place

-- Where `main` stands: in the loop that waits, at a `join`, at `close`, or at its end.
pub data Stage : Type 0 where
  waiting : Stage
  joining : Thread → Stage
  closing finished : Stage

pub record Program : Type 0 where
  pub running : Bool
  pub place : Thread → Place
  pub stage : Stage
  pub can_fd : ℤ
  pub calls : List Call

abbrev pub after_join : Thread → Stage
after_join Thread.doip = Stage.joining Thread.producer
after_join Thread.producer = Stage.joining Thread.consumer
after_join Thread.consumer = Stage.joining Thread.monitor
after_join Thread.monitor = Stage.closing

abbrev pub is_stopped : Place → Bool
is_stopped Place.stopped = true
is_stopped _ = false

-- A turn of `main`; `join` lets it go on only when the thread has ended.
unfoldable pub main_turn : Program → Stage → Program
main_turn s Stage.waiting =
    if s.running
    then record s { calls = s.calls ++ Call.slept ∷ [] }
    else record s { stage = Stage.joining Thread.doip }
main_turn s (Stage.joining t) =
    if is_stopped (s.place t)
    then record s { stage = after_join t; calls = s.calls ++ Call.joined t ∷ [] }
    else s
main_turn s Stage.closing = record s {
  stage = Stage.finished;
  calls = s.calls ++ Call.closed s.can_fd ∷ Call.reported ∷ [];
}
main_turn s Stage.finished = s

-- `g_running.store(false)`
unfoldable pub signal_handler : Program → Program
signal_handler s = record s { running = false }

pub data Event : Type 0 where
  interrupt main_goes_on : Event
  thread_goes_on : Thread → Outcome → Event

unfoldable pub happen : Program → Event → Program
unfolding main_turn signal_handler
happen s Event.interrupt = signal_handler s
happen s Event.main_goes_on = main_turn s s.stage
happen s (Event.thread_goes_on t outcome) = record s {
  place = λ other.
      if same_thread t other then thread_turn t s.running (s.place t) outcome else s.place other;
}

unfoldable pub happen_all : Program → List Event → Program
unfolding happen
happen_all s [] = s
happen_all s (e ∷ rest) = happen_all (happen s e) rest

-- `main` has started its threads; the signal may have come before.
abbrev pub first_place : Thread → Place
first_place Thread.doip = Place.starting
first_place _ = Place.loop_test

unfoldable pub started_program : Bool → ℤ → Program
started_program running can_fd = record {
  running = running;
  place = first_place;
  stage = Stage.waiting;
  can_fd = can_fd;
  calls =
      Call.started Thread.producer
      ∷ Call.started Thread.consumer
      ∷ Call.started Thread.monitor
      ∷ Call.started Thread.doip
      ∷ Call.reported
      ∷ [];
}
