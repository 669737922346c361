-- ===== src/Main/Released.antt =====
-- What `main` leaves behind.
use can_from_scratch.Prelude.{
  ℕ, zero, suc, ◌≡◌, refl, ◌∙◌, Bool, true, ◌&&◌, List, [], ◌∷◌, ◌++◌, arith,
}
use can_from_scratch.Prelude.Int.{ℤ, pos, leb_ℤ, eqb_ℤ_self}
use can_from_scratch.Calls.{Thread, Call, in_order}
use can_from_scratch.Main.{CanSocket, wait_for_stop, start_and_stop, main}

wait_for_stop-in_order :
    (fds : List ℤ) (threads : List Thread) (n : ℕ) (rest : List Call)
    → in_order fds threads (wait_for_stop n ++ rest) ≡ in_order fds threads rest
unfolding wait_for_stop in_order
wait_for_stop-in_order fds threads zero rest = refl
wait_for_stop-in_order fds threads (suc n) rest = wait_for_stop-in_order fds threads n rest

abbrev pub all_ok : CanSocket → Bool
all_ok r =
    leb_ℤ (pos 0) r.socket_result && leb_ℤ (pos 0) r.ioctl_result && leb_ℤ (pos 0) r.bind_result

start_and_stop-in_order : (fd : ℤ) (n : ℕ) → in_order (fd ∷ []) [] (start_and_stop fd n) ≡ true
unfolding start_and_stop in_order
start_and_stop-in_order fd n =
    wait_for_stop-in_order (fd ∷ [])
      (Thread.doip ∷ Thread.monitor ∷ Thread.consumer ∷ Thread.producer ∷ []) n
      (Call.joined Thread.doip
        ∷ Call.joined Thread.producer
        ∷ Call.joined Thread.consumer
        ∷ Call.joined Thread.monitor
        ∷ Call.closed fd
        ∷ Call.reported
        ∷ [])
    ∙ ground (arith, eqb_ℤ_self fd)

-- Whatever the system calls return and however long the program runs, `main` closes the socket that
-- it opened, once, joins every thread that it started, and closes the socket only when no thread is
-- running; and its exit status is 0 exactly if no call failed.
pub main-in_order :
    (results : CanSocket) (n : ℕ)
    → (in_order [] [] (main results n).0 ≡ true) × ((main results n).1 ≡ all_ok results)
unfolding main in_order
main-in_order results n =
    ground
      (arith, eqb_ℤ_self results.socket_result, start_and_stop-in_order results.socket_result n)
