-- ===== src/Tasks/Run.antt =====
-- Runs of the gateway's two loops.
use mathlib.Core.Path.{subst}
use mathlib.Core.List.{append-nil, append_assoc}
use can_from_scratch.Prelude.{
  ℕ, ◌≡◌, refl, ap, sym, inl, inr, some, List, [], ◌∷◌, ◌++◌, length, All, arith, bit_and,
}
use can_from_scratch.Frame.{IsFrame}
use can_from_scratch.Platform.{Platform}
use can_from_scratch.Ring.{CanFrame}
use can_from_scratch.Ring.Refine.{pop-Represents}
use can_from_scratch.Tasks.{
  Gateway, Arrival, Shown, producer_task, on_popped, consumer_task, Turn, turn, run_tasks,
}
use can_from_scratch.Tasks.Flow.{
  taken-append, parsed-append, IsTurn, Flow, offer-Flow, consume-Taken,
}

module _ (p : Platform) where
  turn-Flow :
      (eff_mask : ℕ) (g : Gateway p) (q : List CanFrame) (log : List (Shown p)) (t : Turn p)
      → IsTurn p t
      → Flow p g q log
      → (g' : Gateway p) × (q' : List CanFrame) × (more : List (Shown p)) × (turn p eff_mask g t
          ≡ some (g', more))
        × Flow p g' q' (log ++ more)
  unfolding turn producer_task consumer_task on_popped
  turn-Flow eff_mask g q log (Turn.produce Arrival.read_error timestamp) v i =
      (g, q, [], refl, subst (Flow p g q) (sym (append-nil log)) i)
  turn-Flow eff_mask g q log (Turn.produce Arrival.other_size timestamp) v i =
      (g, q, [], refl, subst (Flow p g q) (sym (append-nil log)) i)
  turn-Flow eff_mask g q log (Turn.produce (Arrival.raw_frame can_id dlc payload) timestamp) v i =
      let (g', q', e, i') =
        offer-Flow p g q log
          (record {
            id = bit_and can_id eff_mask;
            dlc = dlc;
            payload = payload;
            timestamp = timestamp;
          })
          i v in
      (g', q', [], simp e, subst (Flow p g' q') (sym (append-nil log)) i')
  turn-Flow eff_mask g q log (Turn.consume_next now clock drawn) v i =
      elim (pop-Represents g.ring q i.represents) [
        | inl (none_left, e) ↦ (
          g,
          q,
          Shown.slept ∷ [],
          simp e,
          record {
            represents = i.represents;
            payloads = i.payloads;
            ready = i.ready;
            received = ground (arith, i.received, taken-append log (Shown.slept ∷ []));
            total = ground (
              arith,
              i.total,
              taken-append log (Shown.slept ∷ []),
              parsed-append log (Shown.slept ∷ []),
            );
            judged = ground (arith, i.judged, parsed-append log (Shown.slept ∷ []));
          },
        )
        | inr (f, rest, same, ring, e, rep) ↦
            let payloads : All (λ x. IsFrame x.payload) (f ∷ rest) =
              subst (All (λ x. IsFrame x.payload)) same i.payloads in
            let (s, shown, e', t) = consume-Taken p g.parser f now clock drawn payloads.0 i.ready in
            (
              record g { ring = ring; parser = s },
              rest,
              shown ∷ [],
              simp (e, e'),
              record {
                represents = rep;
                payloads = payloads.1;
                ready = t.ready;
                received =
                    ground
                      (arith, i.received, ap length same, t.one, taken-append log (shown ∷ []));
                total = ground (
                  arith,
                  i.total,
                  t.total,
                  t.one,
                  taken-append log (shown ∷ []),
                  parsed-append log (shown ∷ []),
                );
                judged = ground (arith, i.judged, t.judged, parsed-append log (shown ∷ []));
              },
            )
      ]

  pub run_tasks-from :
      (eff_mask : ℕ) (g : Gateway p) (q : List CanFrame) (log : List (Shown p))
      (turns : List (Turn p))
      → All (IsTurn p) turns
      → Flow p g q log
      → (g' : Gateway p) × (q' : List CanFrame) × (more : List (Shown p)) × (run_tasks p eff_mask g
            turns
          ≡ some (g', more))
        × Flow p g' q' (log ++ more)
  unfolding run_tasks
  run_tasks-from eff_mask g q log [] v i =
      (g, q, [], refl, subst (Flow p g q) (sym (append-nil log)) i)
  run_tasks-from eff_mask g q log (t ∷ rest) v i =
      let (g1, q1, more1, e1, i1) = turn-Flow eff_mask g q log t v.0 i in
      let (g2, q2, more2, e2, i2) = run_tasks-from eff_mask g1 q1 (log ++ more1) rest v.1 i1 in
      (
        g2,
        q2,
        more1 ++ more2,
        simp (e1, e2),
        subst (Flow p g2 q2) (append_assoc log more1 more2) i2,
      )

  -- Let the gateway start with a ring that represents the empty queue, as many frames received as
  -- dropped, no frame counted by the parser, its diagnostic mode off, and its messages configured
  -- with fields that can be read. Then any sequence of iterations of the producer and the consumer
  -- has defined behaviour, when the payloads read have eight bytes, and modulo 2 ^ 64 the frames
  -- received are those dropped, those still queued in the ring and those popped; the parser's
  -- total counts a popped frame once if its identifier is not registered, and twice if it is; and
  -- its valid and invalid frames together are the registered ones.
  pub run_tasks-Flow :
      (eff_mask : ℕ) (g : Gateway p) (turns : List (Turn p))
      → All (IsTurn p) turns
      → Flow p g [] []
      → (g' : Gateway p) × (queue : List CanFrame) × (log : List (Shown p)) × (run_tasks p eff_mask
            g turns
          ≡ some (g', log))
        × Flow p g' queue log
  run_tasks-Flow eff_mask g turns v i = run_tasks-from eff_mask g [] [] turns v i
