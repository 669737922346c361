-- ===== src/Main/Shutdown/Trace.antt =====
-- The calls that `main` has made when it has come to a stage.
use mathlib.Core.List.{append_assoc}
use can_from_scratch.Prelude.{
  ℕ, zero, suc, ◌≡◌, refl, ap, ◌∙◌, Bool, true, false, List, [], ◌∷◌, ◌++◌,
}
use can_from_scratch.Prelude.Int.{ℤ}
use can_from_scratch.Calls.{Thread, Call}
use can_from_scratch.Main.{wait_for_stop, start_and_stop}
use can_from_scratch.Main.Shutdown.{Stage, after_join}

-- The calls of `main` from the waiting loop to a stage, without the sleeps.
abbrev pub calls_until : ℤ → Stage → List Call
calls_until fd Stage.waiting = []
calls_until fd (Stage.joining Thread.doip) = []
calls_until fd (Stage.joining Thread.producer) = Call.joined Thread.doip ∷ []
calls_until fd (Stage.joining Thread.consumer) =
    Call.joined Thread.doip ∷ Call.joined Thread.producer ∷ []
calls_until fd (Stage.joining Thread.monitor) =
    Call.joined Thread.doip ∷ Call.joined Thread.producer ∷ Call.joined Thread.consumer ∷ []
calls_until fd Stage.closing =
    Call.joined Thread.doip
    ∷ Call.joined Thread.producer
    ∷ Call.joined Thread.consumer
    ∷ Call.joined Thread.monitor
    ∷ []
calls_until fd Stage.finished =
    Call.joined Thread.doip
    ∷ Call.joined Thread.producer
    ∷ Call.joined Thread.consumer
    ∷ Call.joined Thread.monitor
    ∷ Call.closed fd
    ∷ Call.reported
    ∷ []

-- The calls before the waiting loop.
abbrev pub first_calls : List Call
first_calls =
    Call.started Thread.producer
    ∷ Call.started Thread.consumer
    ∷ Call.started Thread.monitor
    ∷ Call.started Thread.doip
    ∷ Call.reported
    ∷ []

pub wait_for_stop-append :
    (n : ℕ) (rest : List Call)
    → wait_for_stop n ++ Call.slept ∷ rest ≡ wait_for_stop (suc n) ++ rest
unfolding wait_for_stop
wait_for_stop-append zero rest = refl
wait_for_stop-append (suc n) rest = ap (λ l. Call.slept ∷ l) (wait_for_stop-append n rest)

-- The next call of `main` goes to the end.
pub made-append :
    (fd : ℤ) (calls : List Call) (n : ℕ) (before now : List Call)
    → calls ≡ first_calls ++ (wait_for_stop n ++ before)
    → calls ++ now ≡ first_calls ++ (wait_for_stop n ++ (before ++ now))
made-append fd calls n before now h =
    ap (λ l. l ++ now) h ∙ ap (λ l. first_calls ++ l) (append_assoc (wait_for_stop n) before now)

pub calls_until-after_join :
    (fd : ℤ) (t : Thread)
    → calls_until fd (Stage.joining t) ++ Call.joined t ∷ [] ≡ calls_until fd (after_join t)
calls_until-after_join fd Thread.producer = refl
calls_until-after_join fd Thread.consumer = refl
calls_until-after_join fd Thread.monitor = refl
calls_until-after_join fd Thread.doip = refl

-- A descriptor has been closed.
abbrev pub has_closed : List Call → Bool
has_closed [] = false
has_closed (Call.closed fd ∷ rest) = true
has_closed (call ∷ rest) = has_closed rest

pub wait_for_stop-has_closed :
    (n : ℕ) (rest : List Call) → has_closed (wait_for_stop n ++ rest) ≡ has_closed rest
unfolding wait_for_stop
wait_for_stop-has_closed zero rest = refl
wait_for_stop-has_closed (suc n) rest = wait_for_stop-has_closed n rest

pub calls_until-has_closed :
    (fd : ℤ) (stage : Stage) → has_closed (calls_until fd stage) ≡ true → stage ≡ Stage.finished
calls_until-has_closed fd Stage.finished h = refl
calls_until-has_closed fd Stage.waiting h = cc
calls_until-has_closed fd Stage.closing h = cc
calls_until-has_closed fd (Stage.joining Thread.producer) h = cc
calls_until-has_closed fd (Stage.joining Thread.consumer) h = cc
calls_until-has_closed fd (Stage.joining Thread.monitor) h = cc
calls_until-has_closed fd (Stage.joining Thread.doip) h = cc

pub start_and_stop_lem :
    (fd : ℤ) (n : ℕ)
    → first_calls ++ (wait_for_stop n ++ calls_until fd Stage.finished) ≡ start_and_stop fd n
unfolding start_and_stop
start_and_stop_lem fd n = refl
