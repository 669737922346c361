-- ===== src/Main/Shutdown/Progress.antt =====
-- How far each thread is from its end, and that a turn after the signal brings it nearer.
use mathlib.Core.Path.{subst}
use can_from_scratch.Prelude.{
  ℕ, suc, ◌-◌, ◌≤◌, ◌≡◌, refl, ap, sym, ◌∙◌, Bool, true, false, List, [], ◌∷◌, if◌then◌else◌, arith,
}
use can_from_scratch.Calls.{Thread, same_thread}
use can_from_scratch.Main.Shutdown.Joining.{same_thread-eq}
use can_from_scratch.Main.Shutdown.{
  Place, Outcome, worker_turn, doip_turn, thread_turn, Stage, Program, main_turn, signal_handler,
  Event, happen, happen_all,
}

-- The turns that a thread needs at most to its end, once the flag reads false.
abbrev pub left : Place → ℕ
left Place.stopped = 0
left Place.loop_test = 1
left Place.starting = 2
left Place.client_test = 2
left Place.in_body = 3
left Place.in_client = 3

-- The turns of a thread.
abbrev pub turns_of : Thread → List Event → ℕ
turns_of t [] = 0
turns_of t (Event.interrupt ∷ rest) = turns_of t rest
turns_of t (Event.main_goes_on ∷ rest) = turns_of t rest
turns_of t (Event.thread_goes_on own outcome ∷ rest) =
    if same_thread own t then suc (turns_of t rest) else turns_of t rest

left-doip_turn :
    (place : Place) (outcome : Outcome) → left (doip_turn false place outcome) ≤ left place - 1
left-doip_turn place outcome = grind arith

-- The places of a thread's own code.
abbrev pub is_own : Thread → Place → Bool
is_own Thread.doip place = true
is_own t Place.loop_test = true
is_own t Place.in_body = true
is_own t Place.stopped = true
is_own t place = false

left-worker_turn :
    (t : Thread) (place : Place)
    → same_thread Thread.doip t ≡ false
    → is_own t place ≡ true
    → left (worker_turn false place) ≤ left place - 1
left-worker_turn t place o h = grind arith

left-thread_turn :
    (t : Thread) (place : Place) (outcome : Outcome)
    → is_own t place ≡ true
    → left (thread_turn t false place outcome) ≤ left place - 1
left-thread_turn Thread.doip place outcome h = left-doip_turn place outcome
left-thread_turn Thread.producer place outcome h = left-worker_turn Thread.producer place refl h
left-thread_turn Thread.consumer place outcome h = left-worker_turn Thread.consumer place refl h
left-thread_turn Thread.monitor place outcome h = left-worker_turn Thread.monitor place refl h

thread_turn-is_own :
    (t : Thread) (running : Bool) (place : Place) (outcome : Outcome)
    → is_own t place ≡ true
    → is_own t (thread_turn t running place outcome) ≡ true
thread_turn-is_own t running place outcome h = grind arith

-- `main` leaves the threads and the flag alone.
pub main_turn-same :
    (s : Program) (stage : Stage)
    → ((main_turn s stage).running ≡ s.running) × ((main_turn s stage).place ≡ s.place)
unfolding main_turn
main_turn-same s stage = grind arith

turned-is_own :
    (s : Program) (t other : Thread) (outcome : Outcome) (own : Bool)
    → ((x : Thread) → is_own x (s.place x) ≡ true)
    → (own ≡ true → t ≡ other)
    → is_own other (if own then thread_turn t s.running (s.place t) outcome else s.place other)
      ≡ true
turned-is_own s t other outcome true h same =
    subst (λ x. is_own x (thread_turn t s.running (s.place t) outcome) ≡ true) (same refl)
      (thread_turn-is_own t s.running (s.place t) outcome (h t))
turned-is_own s t other outcome false h same = h other

pub happen-is_own :
    (s : Program) (e : Event)
    → ((t : Thread) → is_own t (s.place t) ≡ true)
    → (t : Thread) → is_own t ((happen s e).place t) ≡ true
unfolding happen main_turn signal_handler
happen-is_own s Event.interrupt h t = h t
happen-is_own s Event.main_goes_on h t = ap (λ x. is_own t (x t)) (main_turn-same s s.stage).1 ∙ h t
happen-is_own s (Event.thread_goes_on own outcome) h t =
    turned-is_own s own t outcome (same_thread own t) h (same_thread-eq own t)

pub happen-off : (s : Program) (e : Event) → s.running ≡ false → (happen s e).running ≡ false
unfolding happen main_turn signal_handler
happen-off s Event.interrupt h = refl
happen-off s Event.main_goes_on h = (main_turn-same s s.stage).0 ∙ h
happen-off s (Event.thread_goes_on own outcome) h = h

turned-left :
    (s : Program) (own t : Thread) (outcome : Outcome) (same : Bool)
    → s.running ≡ false
    → ((x : Thread) → is_own x (s.place x) ≡ true)
    → (same ≡ true → own ≡ t)
    → left (if same then thread_turn own s.running (s.place own) outcome else s.place t)
      ≤ left (s.place t) - (if same then 1 else 0)
turned-left s own t outcome true off h eq =
    subst (λ x. left (thread_turn own s.running (s.place own) outcome) ≤ left (s.place x) - 1)
      (eq refl)
      (subst (λ b. left (thread_turn own b (s.place own) outcome) ≤ left (s.place own) - 1)
        (sym off) (left-thread_turn own (s.place own) outcome (h own)))
turned-left s own t outcome false off h eq = omega arith

-- Every turn of a thread after the signal brings it nearer to its end.
pub happen_all-left :
    (s : Program) (events : List Event) (t : Thread)
    → s.running ≡ false
    → ((x : Thread) → is_own x (s.place x) ≡ true)
    → left ((happen_all s events).place t) ≤ left (s.place t) - turns_of t events
unfolding happen_all happen signal_handler
happen_all-left s [] t off h = omega arith
happen_all-left s (Event.interrupt ∷ rest) t off h =
    happen_all-left (signal_handler s) rest t refl h
happen_all-left s (Event.main_goes_on ∷ rest) t off h =
    let next = happen s Event.main_goes_on in
    let later =
      happen_all-left next rest t (happen-off s Event.main_goes_on off)
        (happen-is_own s Event.main_goes_on h) in
    omega (arith, later, ap (λ x. left (x t)) (main_turn-same s s.stage).1)
happen_all-left s (Event.thread_goes_on own outcome ∷ rest) t off h =
    let e = Event.thread_goes_on own outcome in
    let later = happen_all-left (happen s e) rest t off (happen-is_own s e h) in
    let now = turned-left s own t outcome (same_thread own t) off h (same_thread-eq own t) in
    ground (arith, later, now)

pub left-stopped : (place : Place) → left place ≤ 0 → place ≡ Place.stopped
left-stopped place h = grind arith

pub left-bound : (place : Place) → left place ≤ 3
left-bound place = grind arith
