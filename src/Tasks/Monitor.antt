-- ===== src/Tasks/Monitor.antt =====
-- src/main.cpp: a pass of the loop of `monitor_task`, which prints the two global counters.
use can_from_scratch.Prelude.{ℕ, if◌then◌else◌, ◌==◌}
use can_from_scratch.Platform.{Platform}
use can_from_scratch.Tasks.{Gateway}

-- What is printed.
pub record Line (p : Platform) : Type 0 where
  pub received : ℕ
  pub dropped : ℕ
  pub drop_rate : p.Double

-- `divide` is the division of `double`.
module _ (p : Platform) (divide : p.Double → p.Double → p.Double) where
  -- The counters are loaded one after the other: from `g`, and from `later`, which may be another
  -- state.
  unfoldable pub monitor_task : (g later : Gateway p) → Line p
  monitor_task g later =
      let rec = g.total_received in
      let drop = later.total_dropped in
      record {
        received = rec;
        dropped = drop;
        drop_rate =
            if rec == 0
            then p.zero_double
            else p.times (divide (p.from_uint64 drop) (p.from_uint64 rec)) (p.from_uint64 100);
      }
