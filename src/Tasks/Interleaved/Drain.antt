-- ===== src/Tasks/Interleaved/Drain.antt =====
-- Every frame that was pushed reaches the parser when the consumer gets turns.
use mathlib.Core.List.{append-nil}
use can_from_scratch.Prelude.{
  ℕ, ◌*◌, ◌^◌, ◌<◌, ◌≤◌, ◌≡◌, refl, sym, ◌∙◌, some, List, [], ◌∷◌, length, map, All, arith, ◌==◌,
  if◌then◌else◌,
}
use can_from_scratch.Platform.{Platform}
use can_from_scratch.Ring.{CanFrame}
use can_from_scratch.Ring.Threads.Drain.{cost, cost_le, cost_pos, length-queue, pop_step-Closer}
use can_from_scratch.Parser.{CanParser}
use can_from_scratch.Tasks.Flow.{Ready}
use can_from_scratch.Tasks.Interleaved.{Taking, System, new_system, Move, move, run_system}
use can_from_scratch.Tasks.Interleaved.Producing.{take_all, Whole}
use can_from_scratch.Tasks.Interleaved.Order.{
  IsMove, consumer_move-Whole, run_system-from, new_system-Whole,
}

module _ (p : Platform) where
  abbrev pub IsConsumer : Move p → Type 0
  IsConsumer (Move.produce arrival timestamp) = ⊥
  IsConsumer (Move.consume_next now clock drawn) = Unit

  drain-Whole :
      {n : ℕ} (eff_mask : ℕ) (start : CanParser p) (g : System p) (q : List CanFrame)
      (moves : List (Move p))
      → Whole p n start g q
      → All IsConsumer moves
      → cost g.machine.ring.head g.machine.consumer (length q) ≤ length moves
      → (g' : System p) × (run_system p eff_mask g moves ≡ some g')
        × Whole p n start g' []
        × (g'.machine.sent ≡ g.machine.sent)
  unfolding run_system move
  drain-Whole eff_mask start g [] [] i v enough = (g, refl, i, refl)
  drain-Whole eff_mask start g (f ∷ q) [] i v enough =
      absurd (omega (arith, enough, cost_pos g.machine.ring.head g.machine.consumer (length q)))
  drain-Whole eff_mask start g q (Move.produce arrival timestamp ∷ rest) i v enough = absurd v.0
  drain-Whole eff_mask start g q (Move.consume_next now clock drawn ∷ rest) i v enough =
      let (g1, q1, e1, i1, stepped) =
        consumer_move-Whole p start g q g.machine.consumer now clock drawn i refl in
      let (sent, closer) =
        pop_step-Closer g.machine q g.machine.consumer (length q1) i.inv i.inv.consumer_ready
          stepped in
      let (g2, e2, i2, same) =
        drain-Whole eff_mask start g1 q1 rest i1 v.1
          (omega (arith, enough, closer (length-queue g1.machine q1 i1.inv))) in
      (g2, simp (e1, e2), i2, same ∙ sent)

  -- Let the accesses be interleaved as in `run_system-Whole`. If then only the consumer makes
  -- moves, at least four for each cell of the ring, the parser has handled every frame that was
  -- pushed, once each and in order, whatever the two were doing; and the parser and what was shown
  -- are what comes of handling these frames one after another.
  pub run_system-drains :
      (eff_mask size : ℕ) (garbage : CanFrame) (parser : CanParser p) (moves more : List (Move p))
      → size < 2 ^ 32
      → Ready p parser
      → All (IsMove p) moves
      → All IsConsumer more
      → 4 * (if size == 0 then 1 else size) ≤ length more
      → (g : System p) × (run_system p eff_mask (new_system p size garbage parser) moves ≡ some g)
        × (g' : System p) × (run_system p eff_mask g more ≡ some g')
        × (map (λ (t : Taking p). t.frame) g'.taken ≡ g.machine.sent)
        × (take_all p (some (parser, [])) g'.taken ≡ some (g'.parser, g'.log))
  run_system-drains eff_mask size garbage parser moves more w ready v v' enough =
      let (g, q, e, i) =
        run_system-from p eff_mask parser (new_system p size garbage parser) [] moves
          (new_system-Whole p size garbage parser w ready) v in
      let (g', e', i', same) = drain-Whole eff_mask parser g q more i v' (
        omega (
          arith,
          enough,
          cost_le g.machine.ring.head g.machine.consumer (length q),
          i.inv.represents.room,
          i.inv.sized,
        )) in
      (
        g,
        e,
        g',
        e',
        i'.frames ∙ sym (append-nil g'.machine.received) ∙ sym i'.inv.in_order ∙ same,
        i'.handled,
      )
