-- ===== src/Tasks/Refine.antt =====
-- The gateway refines its loops over a plain queue.
use mathlib.Core.Path.{subst}
use mathlib.Core.Option.{some-injective}
use can_from_scratch.Prelude.{
  ℕ, ◌+◌, ◌≡◌, refl, ap, ap₂, sym, ◌∙◌, inl, inr, Bool, true, false, Option, some, none, ◌>>=◌,
  List, [], ◌∷◌, ◌++◌, length, ◌==◌, bit_and, arith,
}
use can_from_scratch.Platform.{Platform}
use can_from_scratch.Ring.{CanFrame, RingBuffer, write, push, pop}
use can_from_scratch.Ring.Refine.{Represents, push-Represents, pop-Represents}
use can_from_scratch.Parser.{CanParser, increment}
use can_from_scratch.Tasks.{
  Gateway, Arrival, Shown, offer, producer_task, consume, on_popped, consumer_task, Turn, turn,
  run_tasks,
}
use can_from_scratch.Tasks.Plain.{
  Plain, plain_offer, plain_arrival, plain_take, plain_turn, run_plain,
}

module _ (p : Platform) (capacity : ℕ) (eff_mask : ℕ) where
  -- The ring represents the queue, and all else is the same.
  pub record Matches (g : Gateway p) (s : Plain p) : Type 0 where
    pub represents : Represents g.ring s.queue
    pub sized : g.ring.size ≡ capacity + 1
    pub same_parser : g.parser ≡ s.parser
    pub same_received : g.total_received ≡ s.received
    pub same_dropped : g.total_dropped ≡ s.dropped

  -- Both are undefined, or both go on, with the same log, to states that match.
  abbrev pub Agree :
      Option (Gateway p × List (Shown p)) → Option (Plain p × List (Shown p)) → Type 0
  Agree none none = Unit
  Agree (some (g, log)) (some (s, log')) = Matches g s × (log ≡ log')
  Agree _ _ = ⊥

  push-size :
      (r ring : RingBuffer) (f : CanFrame) (b : Bool)
      → push r f ≡ some (ring, b)
      → ring.size ≡ r.size
  unfolding push write
  push-size r ring f b e = ground arith

  pop-size :
      (r ring : RingBuffer) (popped : Option CanFrame)
      → pop r ≡ some (ring, popped)
      → ring.size ≡ r.size
  unfolding pop
  pop-size r ring popped e = ground arith

  offer-Matches :
      (g : Gateway p) (s : Plain p) (f : CanFrame)
      → Matches g s
      → (g' : Gateway p) × (offer p (record g { total_received = increment g.total_received }) f
          ≡ some g')
        × Matches g' (plain_offer p capacity eff_mask s f)
  unfolding offer
  offer-Matches g s f m = elim (push-Represents g.ring s.queue f m.represents) [
    | inl (full, e) ↦
        let at_capacity : (length s.queue == capacity) ≡ true = ground (arith, m.sized, full) in
        (
          record g {
            total_received = increment g.total_received;
            total_dropped = increment g.total_dropped;
          },
          simp e,
          rw at_capacity (record {
            represents = m.represents;
            sized = m.sized;
            same_parser = m.same_parser;
            same_received = ap increment m.same_received;
            same_dropped = ap increment m.same_dropped;
          }),
        )
    | inr (room, ring, e, rep) ↦
        let below : (length s.queue == capacity) ≡ false = ground (arith, m.sized, room) in
        (
          record g { ring = ring; total_received = increment g.total_received },
          simp e,
          rw below (record {
            represents = rep;
            sized = push-size g.ring ring f true e ∙ m.sized;
            same_parser = m.same_parser;
            same_received = ap increment m.same_received;
            same_dropped = m.same_dropped;
          }),
        )
  ]

  offer-Agree :
      (g : Gateway p) (s : Plain p) (t : ℕ) (arrival : Arrival)
      → Matches g s
      → (g' : Gateway p) × (producer_task p eff_mask g arrival t ≡ some g')
        × Matches g' (plain_arrival p capacity eff_mask s arrival t)
  unfolding producer_task
  offer-Agree g s t Arrival.read_error m = (g, refl, m)
  offer-Agree g s t Arrival.other_size m = (g, refl, m)
  offer-Agree g s t (Arrival.raw_frame can_id dlc payload) m =
      offer-Matches g s
        (record { id = bit_and can_id eff_mask; dlc = dlc; payload = payload; timestamp = t }) m

  -- A frame that was popped goes to parsers that are the same.
  consume-Agree :
      (g : Gateway p) (s : Plain p) (ring : RingBuffer) (rest : List CanFrame)
      (given given' : Option (CanParser p × Shown p))
      → Represents ring rest
      → ring.size ≡ capacity + 1
      → Matches g s
      → given ≡ given'
      → Agree
          (do
            (g', shown) ← (do
              (parser, shown) ← given
              some (record g { ring = ring; parser = parser }, shown))
            some (g', shown ∷ []))
          (do
            (parser, shown) ← given'
            some (record s { queue = rest; parser = parser }, shown ∷ []))
  consume-Agree g s ring rest none none rep sized m e = tt
  consume-Agree g s ring rest (some (parser, shown)) none rep sized m e = absurd (cc)
  consume-Agree g s ring rest none (some (parser, shown)) rep sized m e = absurd (cc)
  consume-Agree g s ring rest (some (parser, shown)) (some (parser', shown')) rep sized m e =
      let same = some-injective _ _ e in
      (
        record {
          represents = rep;
          sized = sized;
          same_parser = ap (λ x. x.0) same;
          same_received = m.same_received;
          same_dropped = m.same_dropped;
        },
        ap (λ x. x.1 ∷ []) same,
      )

  turn-Agree :
      (g : Gateway p) (s : Plain p) (t : Turn p)
      → Matches g s
      → Agree (turn p eff_mask g t) (plain_turn p capacity eff_mask s t)
  unfolding turn consumer_task on_popped
  turn-Agree g s (Turn.produce arrival timestamp) m =
      let (g', e, m') = offer-Agree g s timestamp arrival m in rw e (m', refl)
  turn-Agree g s (Turn.consume_next now clock drawn) m =
      elim (pop-Represents g.ring s.queue m.represents) [
        | inl (none_left, e) ↦
            simp (e, none_left)
              (
                record {
                  represents = m.represents;
                  sized = m.sized;
                  same_parser = m.same_parser;
                  same_received = m.same_received;
                  same_dropped = m.same_dropped;
                },
                refl,
              )
        | inr (f, rest, same, ring, e, rep) ↦
            subst
              (λ q.
                Agree (turn p eff_mask g (Turn.consume_next now clock drawn))
                  (plain_take p capacity eff_mask s q now clock drawn))
              (sym same)
              (simp e (
                consume-Agree g s ring rest (consume p g.parser f now clock drawn)
                  (consume p s.parser f now clock drawn) rep
                  (pop-size g.ring ring (some f) e ∙ m.sized) m
                  (ap (λ x. consume p x f now clock drawn) m.same_parser)))
      ]

  -- What follows one iteration.
  abbrev after :
      {A B : Type 0}
      → Option (A × List (Shown p))
      → (A → Option (B × List (Shown p)))
      → Option (B × List (Shown p))
  after o rest = do (a, log) ← o; (a', log') ← rest a; some (a', log ++ log')

  add_log-Agree :
      (g0 : Gateway p) (s0 : Plain p) (log log' : List (Shown p))
      (o : Option (Gateway p × List (Shown p))) (o' : Option (Plain p × List (Shown p)))
      → log ≡ log'
      → Agree o o'
      → Agree (after (some (g0, log)) (λ _. o)) (after (some (s0, log')) (λ _. o'))
  add_log-Agree g0 s0 log log' none none same a = tt
  add_log-Agree g0 s0 log log' none (some x) same a = absurd a
  add_log-Agree g0 s0 log log' (some x) none same a = absurd a
  add_log-Agree g0 s0 log log' (some (g, more)) (some (s, more')) same (m, same') =
      (m, ap₂ (λ a b. a ++ b) same same')

  after-Agree :
      (o : Option (Gateway p × List (Shown p))) (o' : Option (Plain p × List (Shown p)))
      (rest : Gateway p → Option (Gateway p × List (Shown p)))
      (rest' : Plain p → Option (Plain p × List (Shown p)))
      → Agree o o'
      → ((g : Gateway p) (s : Plain p) → Matches g s → Agree (rest g) (rest' s))
      → Agree (after o rest) (after o' rest')
  after-Agree none none rest rest' a h = tt
  after-Agree none (some x) rest rest' a h = absurd a
  after-Agree (some x) none rest rest' a h = absurd a
  after-Agree (some (g, log)) (some (s, log')) rest rest' (m, same) h =
      add_log-Agree g s log log' (rest g) (rest' s) same (h g s m)

  -- Let the ring represent a queue with room for `capacity` frames, one fewer than its cells, and
  -- let the parser and the two global counters be those of a gateway with that plain queue in place
  -- of the ring. Then over any sequence of iterations, the two have undefined behaviour together,
  -- or show the same in the same order and end in states that correspond again: each frame read
  -- goes to the parser once and in order, and is counted as dropped exactly if `capacity` frames
  -- wait.
  pub run_tasks-refines :
      (g : Gateway p) (s : Plain p) (turns : List (Turn p))
      → Matches g s
      → Agree (run_tasks p eff_mask g turns) (run_plain p capacity eff_mask s turns)
  unfolding run_tasks run_plain
  run_tasks-refines g s [] m = (m, refl)
  run_tasks-refines g s (t ∷ rest) m =
      after-Agree (turn p eff_mask g t) (plain_turn p capacity eff_mask s t)
        (λ g'. run_tasks p eff_mask g' rest) (λ s'. run_plain p capacity eff_mask s' rest)
        (turn-Agree g s t m) (λ g' s' m'. run_tasks-refines g' s' rest m')
