-- ===== src/Calls.antt =====
-- The calls of the operating system that the program makes, in order, and a test of the order: what
-- is opened or started is used only until it is closed or joined, once, and nothing is left at the
-- end.
use can_from_scratch.Prelude.{ℕ, Bool, true, false, not, ◌&&◌, ◌||◌, List, [], ◌∷◌, if◌then◌else◌}
use can_from_scratch.Prelude.Int.{ℤ, eqb_ℤ}

-- The threads that `main` starts.
pub data Thread : Type 0 where
  producer consumer monitor doip : Thread

abbrev pub same_thread : Thread → Thread → Bool
same_thread Thread.producer Thread.producer = true
same_thread Thread.consumer Thread.consumer = true
same_thread Thread.monitor Thread.monitor = true
same_thread Thread.doip Thread.doip = true
same_thread _ _ = false

-- A descriptor opened and closed; one that is polled, accepted on or received from; bytes sent, a
-- thread started and joined, a line of output, and a sleep.
pub data Call : Type 0 where
  opened closed used : ℤ → Call
  sent : ℤ → List ℕ → Call
  started joined : Thread → Call
  printed : (length : ℕ) (text : List ℕ) → Call
  reported slept : Call

abbrev pub is_open : ℤ → List ℤ → Bool
is_open fd [] = false
is_open fd (x ∷ rest) = eqb_ℤ x fd || is_open fd rest

abbrev pub without : ℤ → List ℤ → List ℤ
without fd [] = []
without fd (x ∷ rest) = let later = without fd rest in if eqb_ℤ x fd then later else x ∷ later

abbrev pub is_running : Thread → List Thread → Bool
is_running t [] = false
is_running t (x ∷ rest) = same_thread x t || is_running t rest

abbrev pub stopped : Thread → List Thread → List Thread
stopped t [] = []
stopped t (x ∷ rest) = let later = stopped t rest in if same_thread x t then later else x ∷ later

abbrev pub is_nil {ℓ} : {A : Type ℓ} → List A → Bool
is_nil [] = true
is_nil (x ∷ rest) = false

-- With the descriptors open and the threads running before the calls. A descriptor is closed when
-- no thread is running that might use it.
unfoldable pub in_order : List ℤ → List Thread → List Call → Bool
in_order fds threads [] = is_nil fds && is_nil threads
in_order fds threads (Call.opened fd ∷ rest) =
    not (is_open fd fds) && in_order (fd ∷ fds) threads rest
in_order fds threads (Call.closed fd ∷ rest) =
    (is_open fd fds && is_nil threads) && in_order (without fd fds) threads rest
in_order fds threads (Call.used fd ∷ rest) = is_open fd fds && in_order fds threads rest
in_order fds threads (Call.sent fd bytes ∷ rest) = is_open fd fds && in_order fds threads rest
in_order fds threads (Call.started t ∷ rest) =
    not (is_running t threads) && in_order fds (t ∷ threads) rest
in_order fds threads (Call.joined t ∷ rest) =
    is_running t threads && in_order fds (stopped t threads) rest
in_order fds threads (Call.printed length text ∷ rest) = in_order fds threads rest
in_order fds threads (Call.reported ∷ rest) = in_order fds threads rest
in_order fds threads (Call.slept ∷ rest) = in_order fds threads rest
