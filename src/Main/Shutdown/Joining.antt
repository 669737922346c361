-- ===== src/Main/Shutdown/Joining.antt =====
-- The order in which `main` joins the threads.
use can_from_scratch.Prelude.{◌≡◌, Bool, true, false, ◌||◌, ◌⊎◌, arith}
use can_from_scratch.Calls.{Thread, same_thread}
use can_from_scratch.Main.Shutdown.{Place, Stage, after_join, is_stopped}

-- The threads that `main` has joined when it has come to a stage.
abbrev pub is_joined : Stage → Thread → Bool
is_joined Stage.waiting t = false
is_joined (Stage.joining Thread.doip) t = false
is_joined (Stage.joining Thread.producer) t = same_thread Thread.doip t
is_joined (Stage.joining Thread.consumer) t =
    same_thread Thread.doip t || same_thread Thread.producer t
is_joined (Stage.joining Thread.monitor) t =
    same_thread Thread.doip t || same_thread Thread.producer t || same_thread Thread.consumer t
is_joined Stage.closing t = true
is_joined Stage.finished t = true

pub same_thread-eq : (t other : Thread) → same_thread t other ≡ true → t ≡ other
same_thread-eq t other h = grind arith

-- The thread that is joined is the next one.
pub joins :
    (t other : Thread)
    → is_joined (after_join t) other ≡ true
    → (is_joined (Stage.joining t) other ≡ true) ⊎ (t ≡ other)
joins t other h = grind arith

pub is_stopped-eq : (x : Place) → is_stopped x ≡ true → x ≡ Place.stopped
is_stopped-eq x h = grind arith
