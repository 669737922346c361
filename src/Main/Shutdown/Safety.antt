-- ===== src/Main/Shutdown/Safety.antt =====
-- What `main` has done at any moment, and that the socket outlives the threads.
use mathlib.Core.List.{append_assoc}
use can_from_scratch.Prelude.{
  ℕ, suc, ◌≡◌, refl, ap, ap₂, sym, ◌∙◌, Bool, true, false, List, [], ◌∷◌, ◌++◌, if◌then◌else◌,
  Bool-cases, inl, inr,
}
use can_from_scratch.Prelude.Int.{ℤ}
use can_from_scratch.Calls.{Thread, Call, same_thread}
use can_from_scratch.Main.{wait_for_stop, start_and_stop}
use can_from_scratch.Main.Shutdown.Joining.{is_joined, same_thread-eq, joins, is_stopped-eq}
use can_from_scratch.Main.Shutdown.Trace.{
  calls_until, first_calls, wait_for_stop-append, made-append, calls_until-after_join, has_closed,
  wait_for_stop-has_closed, calls_until-has_closed, start_and_stop_lem,
}
use can_from_scratch.Main.Shutdown.{
  Place, Outcome, thread_turn, Stage, Program, is_stopped, main_turn, signal_handler, Event, happen,
  happen_all, started_program,
}

-- `slept` is the number of sleeps of the waiting loop.
pub record Stopping (fd : ℤ) (s : Program) : Type 0 where
  pub slept : ℕ
  pub same_fd : s.can_fd ≡ fd
  pub joined : (t : Thread) → is_joined s.stage t ≡ true → s.place t ≡ Place.stopped
  pub made : s.calls ≡ first_calls ++ (wait_for_stop slept ++ calls_until fd s.stage)

-- A thread that has ended stays so.
stopped-thread_turn :
    (t : Thread) (running : Bool) (outcome : Outcome)
    → thread_turn t running Place.stopped outcome ≡ Place.stopped
stopped-thread_turn Thread.doip running outcome = refl
stopped-thread_turn Thread.producer running outcome = refl
stopped-thread_turn Thread.consumer running outcome = refl
stopped-thread_turn Thread.monitor running outcome = refl

pub turned :
    (t other : Thread) (own running : Bool) (place : Thread → Place) (outcome : Outcome)
    → (own ≡ true → t ≡ other)
    → place other ≡ Place.stopped
    → (if own then thread_turn t running (place t) outcome else place other) ≡ Place.stopped
turned t other true running place outcome same h =
    ap (λ (x : Place). thread_turn t running x outcome) (ap place (same refl) ∙ h)
    ∙ stopped-thread_turn t running outcome
turned t other false running place outcome same h = h

thread_goes_on-Stopping :
    (fd : ℤ) (s : Program) (t : Thread) (outcome : Outcome)
    → Stopping fd s
    → Stopping fd (happen s (Event.thread_goes_on t outcome))
unfolding happen
thread_goes_on-Stopping fd s t outcome i = record {
  slept = i.slept;
  same_fd = i.same_fd;
  joined = λ other h.
      turned t other (same_thread t other) s.running s.place outcome (same_thread-eq t other)
        (i.joined other h);
  made = i.made;
}

join-Stopping :
    (fd : ℤ) (s : Program) (t : Thread)
    → Stopping fd s
    → s.stage ≡ Stage.joining t
    → Stopping fd (main_turn s (Stage.joining t))
unfolding main_turn
join-Stopping fd s t i at = elim (Bool-cases (is_stopped (s.place t))) [
  | inl ended ↦ rw ended (record {
    slept = i.slept;
    same_fd = i.same_fd;
    joined = λ other h. elim (joins t other h) [
      | inl before ↦ i.joined other (ap (λ x. is_joined x other) at ∙ before)
      | inr now ↦ ap s.place (sym now) ∙ is_stopped-eq (s.place t) ended
    ];
    made =
        made-append fd s.calls i.slept _ _ i.made
        ∙ ap (λ l. first_calls ++ (wait_for_stop i.slept ++ l))
            (ap (λ x. calls_until fd x ++ Call.joined t ∷ []) at ∙ calls_until-after_join fd t);
  })
  | inr goes_on ↦ rw goes_on i
]

main_turn-Stopping :
    (fd : ℤ) (s : Program) (stage : Stage)
    → Stopping fd s
    → s.stage ≡ stage
    → Stopping fd (main_turn s stage)
unfolding main_turn
main_turn-Stopping fd s Stage.waiting i at = elim (Bool-cases s.running) [
  | inl on ↦ rw on (record {
    slept = suc i.slept;
    same_fd = i.same_fd;
    joined = i.joined;
    made =
        ap (λ l. l ++ Call.slept ∷ [])
          (i.made ∙ ap (λ x. first_calls ++ (wait_for_stop i.slept ++ calls_until fd x)) at)
        ∙ ap (λ l. first_calls ++ l)
            (append_assoc (wait_for_stop i.slept) [] (Call.slept ∷ [])
              ∙ wait_for_stop-append i.slept []
              ∙ ap (λ x. wait_for_stop (suc i.slept) ++ calls_until fd x) (sym at));
  })
  | inr off ↦ rw off (record {
    slept = i.slept;
    same_fd = i.same_fd;
    joined = λ t h. cc;
    made = i.made ∙ ap (λ x. first_calls ++ (wait_for_stop i.slept ++ calls_until fd x)) at;
  })
]
main_turn-Stopping fd s (Stage.joining t) i at = join-Stopping fd s t i at
main_turn-Stopping fd s Stage.closing i at = record {
  slept = i.slept;
  same_fd = i.same_fd;
  joined = λ t h. i.joined t (ap (λ x. is_joined x t) at);
  made =
      made-append fd s.calls i.slept _ _ i.made
      ∙ ap (λ l. first_calls ++ (wait_for_stop i.slept ++ l))
          (ap₂ (λ x own. calls_until fd x ++ Call.closed own ∷ Call.reported ∷ []) at i.same_fd);
}
main_turn-Stopping fd s Stage.finished i at = i

happen-Stopping : (fd : ℤ) (s : Program) (e : Event) → Stopping fd s → Stopping fd (happen s e)
unfolding happen signal_handler
happen-Stopping fd s Event.interrupt i = record {
  slept = i.slept;
  same_fd = i.same_fd;
  joined = i.joined;
  made = i.made;
}
happen-Stopping fd s Event.main_goes_on i = main_turn-Stopping fd s s.stage i refl
happen-Stopping fd s (Event.thread_goes_on t outcome) i = thread_goes_on-Stopping fd s t outcome i

happen_all-Stopping :
    (fd : ℤ) (s : Program) (events : List Event) → Stopping fd s → Stopping fd (happen_all s events)
unfolding happen_all
happen_all-Stopping fd s [] i = i
happen_all-Stopping fd s (e ∷ rest) i =
    happen_all-Stopping fd (happen s e) rest (happen-Stopping fd s e i)

started_program-Stopping : (running : Bool) (fd : ℤ) → Stopping fd (started_program running fd)
unfolding started_program wait_for_stop
started_program-Stopping running fd = record {
  slept = 0;
  same_fd = refl;
  joined = λ t h. cc;
  made = refl;
}

-- Whenever the signal comes and however the turns of `main` and of the threads are ordered, the
-- socket is closed only when all four threads have ended, and once `main` has finished its calls
-- are those of `start_and_stop`, with the sleeps that it made.
pub happen_all-in_order :
    (running : Bool) (fd : ℤ) (events : List Event) (t : Thread)
    → (has_closed (happen_all (started_program running fd) events).calls ≡ true
        → (happen_all (started_program running fd) events).place t ≡ Place.stopped)
      × ((happen_all (started_program running fd) events).stage ≡ Stage.finished
          → (n : ℕ) × ((happen_all (started_program running fd) events).calls
              ≡ start_and_stop fd n))
happen_all-in_order running fd events t =
    let s = happen_all (started_program running fd) events in
    let i = happen_all-Stopping fd _ events (started_program-Stopping running fd) in
    (
      λ closed.
          let at : s.stage ≡ Stage.finished =
            calls_until-has_closed fd s.stage
              (sym (ap has_closed i.made ∙ wait_for_stop-has_closed i.slept _) ∙ closed) in
          i.joined t (ap (λ x. is_joined x t) at),
      λ at. (
        i.slept,
        i.made
            ∙ ap (λ x. first_calls ++ (wait_for_stop i.slept ++ calls_until fd x)) at
            ∙ start_and_stop_lem fd i.slept,
      ),
    )
