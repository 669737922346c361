-- ===== src/Main/Shutdown/Ending.antt =====
-- The program stops: with enough turns after the signal, every thread and then `main` ends.
use can_from_scratch.Prelude.{
  ℕ, suc, ◌-◌, ◌≤◌, ◌≡◌, refl, ap, ◌∙◌, Bool, true, false, List, [], ◌∷◌, ◌++◌, arith,
}
use can_from_scratch.Prelude.Int.{ℤ}
use can_from_scratch.Calls.{Thread, same_thread}
use can_from_scratch.Main.Shutdown.Joining.{same_thread-eq}
use can_from_scratch.Main.Shutdown.Safety.{turned}
use can_from_scratch.Main.Shutdown.{
  Place, Stage, Program, after_join, main_turn, signal_handler, Event, happen, happen_all,
  started_program,
}
use can_from_scratch.Main.Shutdown.Progress.{
  turns_of, is_own, happen-is_own, happen-off, happen_all-left, main_turn-same, left-stopped,
  left-bound,
}

-- The turns of `main`.
abbrev pub main_turns : List Event → ℕ
main_turns [] = 0
main_turns (Event.main_goes_on ∷ rest) = suc (main_turns rest)
main_turns (Event.interrupt ∷ rest) = main_turns rest
main_turns (Event.thread_goes_on own outcome ∷ rest) = main_turns rest

-- The turns that `main` needs to its end, once the threads have ended.
abbrev main_left : Stage → ℕ
main_left Stage.waiting = 6
main_left (Stage.joining Thread.doip) = 5
main_left (Stage.joining Thread.producer) = 4
main_left (Stage.joining Thread.consumer) = 3
main_left (Stage.joining Thread.monitor) = 2
main_left Stage.closing = 1
main_left Stage.finished = 0

main_left-after_join : (t : Thread) → main_left (after_join t) ≤ main_left (Stage.joining t) - 1
main_left-after_join t = grind arith

main_left-main_turn :
    (s : Program) (stage : Stage)
    → s.running ≡ false
    → ((t : Thread) → s.place t ≡ Place.stopped)
    → s.stage ≡ stage
    → main_left (main_turn s stage).stage ≤ main_left stage - 1
unfolding main_turn
main_left-main_turn s Stage.waiting off h at = rw off (omega arith)
main_left-main_turn s (Stage.joining t) off h at = rw (h t) (main_left-after_join t)
main_left-main_turn s Stage.closing off h at = omega arith
main_left-main_turn s Stage.finished off h at = omega (arith, ap main_left at)

happen-stopped :
    (s : Program) (e : Event)
    → ((t : Thread) → s.place t ≡ Place.stopped)
    → (t : Thread) → (happen s e).place t ≡ Place.stopped
unfolding happen signal_handler
happen-stopped s Event.interrupt h t = h t
happen-stopped s Event.main_goes_on h t = ap (λ x. x t) (main_turn-same s s.stage).1 ∙ h t
happen-stopped s (Event.thread_goes_on own outcome) h t =
    turned own t (same_thread own t) s.running s.place outcome (same_thread-eq own t) (h t)

happen_all-main_left :
    (s : Program) (events : List Event)
    → s.running ≡ false
    → ((t : Thread) → s.place t ≡ Place.stopped)
    → main_left (happen_all s events).stage ≤ main_left s.stage - main_turns events
unfolding happen_all happen signal_handler
happen_all-main_left s [] off h = omega arith
happen_all-main_left s (Event.interrupt ∷ rest) off h =
    happen_all-main_left (signal_handler s) rest refl h
happen_all-main_left s (Event.main_goes_on ∷ rest) off h =
    let e = Event.main_goes_on in
    let later =
      happen_all-main_left (happen s e) rest (happen-off s e off) (happen-stopped s e h) in
    omega (arith, later, main_left-main_turn s s.stage off h refl)
happen_all-main_left s (Event.thread_goes_on own outcome ∷ rest) off h =
    let e = Event.thread_goes_on own outcome in
    happen_all-main_left (happen s e) rest off (happen-stopped s e h)

main_left-finished : (stage : Stage) → main_left stage ≤ 0 → stage ≡ Stage.finished
main_left-finished stage h = grind arith

happen_all-is_own :
    (s : Program) (events : List Event)
    → ((t : Thread) → is_own t (s.place t) ≡ true)
    → (t : Thread) → is_own t ((happen_all s events).place t) ≡ true
unfolding happen_all
happen_all-is_own s [] h = h
happen_all-is_own s (e ∷ rest) h = happen_all-is_own (happen s e) rest (happen-is_own s e h)

happen_all-off :
    (s : Program) (events : List Event) → s.running ≡ false → (happen_all s events).running ≡ false
unfolding happen_all
happen_all-off s [] h = h
happen_all-off s (e ∷ rest) h = happen_all-off (happen s e) rest (happen-off s e h)

happen_all-stopped :
    (s : Program) (events : List Event)
    → ((t : Thread) → s.place t ≡ Place.stopped)
    → (t : Thread) → (happen_all s events).place t ≡ Place.stopped
unfolding happen_all
happen_all-stopped s [] h = h
happen_all-stopped s (e ∷ rest) h = happen_all-stopped (happen s e) rest (happen-stopped s e h)

started_program-is_own :
    (running : Bool) (fd : ℤ) (t : Thread) → is_own t ((started_program running fd).place t) ≡ true
unfolding started_program
started_program-is_own running fd t = grind arith

interrupted :
    (s : Program) (before : List Event)
    → (happen_all s (before ++ Event.interrupt ∷ [])).running ≡ false
unfolding happen_all happen signal_handler
interrupted s [] = refl
interrupted s (e ∷ rest) = interrupted (happen s e) rest

main_left-joining : (t : Thread) → main_left (Stage.joining t) ≤ 6
main_left-joining t = grind arith

main_left-bound : (stage : Stage) → main_left stage ≤ 6
main_left-bound Stage.waiting = omega arith
main_left-bound (Stage.joining t) = main_left-joining t
main_left-bound Stage.closing = omega arith
main_left-bound Stage.finished = omega arith

-- A run in which the signal comes after `before`.
abbrev pub stopped_run : Bool → ℤ → (before during after : List Event) → Program
stopped_run running fd before during after =
    happen_all
      (happen_all (happen_all (started_program running fd) (before ++ Event.interrupt ∷ [])) during)
      after

-- Let the program run in any way, let the signal come, let each thread then have three turns or
-- more, mixed in any way with other turns, and `main` six turns or more after that. Then every
-- thread has ended and `main` has finished. No number of turns before the signal, no result of a
-- call and no client of the DoIP server prevents it, as long as the calls return.
pub happen_all-ends :
    (running : Bool) (fd : ℤ) (before during after : List Event)
    → ((t : Thread) → 3 ≤ turns_of t during)
    → 6 ≤ main_turns after
    → ((stopped_run running fd before during after).stage ≡ Stage.finished)
      × ((t : Thread) → (stopped_run running fd before during after).place t ≡ Place.stopped)
happen_all-ends running fd before during after enough main_enough =
    let s1 = happen_all (started_program running fd) (before ++ Event.interrupt ∷ []) in
    let s2 = happen_all s1 during in
    let off : s1.running ≡ false = interrupted (started_program running fd) before in
    let own : (t : Thread) → is_own t (s1.place t) ≡ true =
      happen_all-is_own (started_program running fd) (before ++ Event.interrupt ∷ [])
        (started_program-is_own running fd) in
    let ended : (t : Thread) → s2.place t ≡ Place.stopped = λ t.
      left-stopped (s2.place t)
        (omega (arith, happen_all-left s1 during t off own, left-bound (s1.place t), enough t)) in
    (
      main_left-finished _ (
          omega (
            arith,
            happen_all-main_left s2 after (happen_all-off s1 during off) ended,
            main_left-bound s2.stage,
            main_enough,
          )),
      happen_all-stopped s2 after ended,
    )
