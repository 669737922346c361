-- ===== src/Main.antt =====
-- src/main.cpp: `main`, with the results of the system calls as arguments and the calls as the
-- result. The threads' own work is in `Tasks` and `Doip`, the test that `main` runs first, which
-- opens and starts nothing, in `Trials`.
pub mod Released
pub mod Shutdown
use can_from_scratch.Prelude.{ℕ, zero, suc, Bool, true, false, List, [], ◌∷◌, ◌++◌, if◌then◌else◌}
use can_from_scratch.Prelude.Int.{ℤ, pos, ltb_ℤ}
use can_from_scratch.Calls.{Thread, Call}

-- The results of `socket`, `ioctl` and `bind`.
pub record CanSocket : Type 0 where
  pub socket_result : ℤ
  pub ioctl_result : ℤ
  pub bind_result : ℤ

-- The loop that waits for the running flag, which reads true `n` times.
unfoldable pub wait_for_stop : ℕ → List Call
wait_for_stop zero = []
wait_for_stop (suc n) = Call.slept ∷ wait_for_stop n

-- The end of a start that failed: the error is reported, the socket closed.
abbrev pub failed_start : ℤ → List Call
failed_start can_fd = Call.reported ∷ Call.closed can_fd ∷ []

unfoldable pub start_and_stop : ℤ → ℕ → List Call
unfolding wait_for_stop
start_and_stop can_fd n =
    Call.started Thread.producer
    ∷ Call.started Thread.consumer
    ∷ Call.started Thread.monitor
    ∷ Call.started Thread.doip
    ∷ Call.reported
    ∷ (wait_for_stop n
        ++ Call.joined Thread.doip
          ∷ Call.joined Thread.producer
          ∷ Call.joined Thread.consumer
          ∷ Call.joined Thread.monitor
          ∷ Call.closed can_fd
          ∷ Call.reported
          ∷ [])

-- The calls, and whether the exit status is 0.
unfoldable pub main : CanSocket → ℕ → List Call × Bool
unfolding start_and_stop
main results n =
    if ltb_ℤ results.socket_result (pos 0)
    then (Call.reported ∷ [], false)
    else if ltb_ℤ results.ioctl_result (pos 0)
    then (Call.opened results.socket_result ∷ failed_start results.socket_result, false)
    else if ltb_ℤ results.bind_result (pos 0)
    then (Call.opened results.socket_result ∷ failed_start results.socket_result, false)
    else (Call.opened results.socket_result ∷ start_and_stop results.socket_result n, true)
