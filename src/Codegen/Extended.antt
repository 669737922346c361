-- ===== src/Codegen/Extended.antt =====
-- Extended identifiers: a DBC file marks them by bit 31, and the script registers them as they
-- stand.
use mathlib.Core.Path.{subst}
use can_from_scratch.Prelude.{
  ℕ, ◌^◌, ◌≤◌, ◌≡◌, refl, ap, ◌∙◌, false, none, some, List, [], ◌∷◌, map, All, arith,
}
use can_from_scratch.Platform.{Platform}
use can_from_scratch.Ring.{CanFrame}
use can_from_scratch.Parser.{new_parser}
use can_from_scratch.Tasks.Interleaved.{Taking, System, new_system, Move, run_system}
use can_from_scratch.Tasks.Interleaved.Order.{IsMove}
use can_from_scratch.Tasks.Interleaved.Masked.{
  can_eff_mask, HasShortId, run_system-ShortIds, new_system-ShortIds,
}
use can_from_scratch.Codegen.{Line, init_generated_database}
use can_from_scratch.Codegen.Lines.{signals_of}
use can_from_scratch.Codegen.Database.{LineFits}
use can_from_scratch.Codegen.Values.{Displays, Pairwise, Unseen}
use can_from_scratch.Codegen.Display.{All-left, registered_signals, last_payload, run_system-Shows}

module _ (p : Platform) (id : ℕ) (long : 2 ^ 29 ≤ id) where
  last_payload-none :
      (frames : List CanFrame) → All HasShortId frames → last_payload p id none frames ≡ none
  last_payload-none [] h = refl
  last_payload-none (f ∷ rest) h =
      ap (λ last. last_payload p id last rest) (ground (arith, h.0, long))
      ∙ last_payload-none rest h.1

  -- In the gateway as `main` sets it up from a DBC file whose signals fit the frame, with
  -- `CAN_EFF_MASK` the mask of 29 bits, the signals that are registered for an identifier of more
  -- than 29 bits, as every extended identifier of a DBC file is, never become valid, whatever
  -- frames of eight bytes arrive and however the accesses to the ring are interleaved.
  pub run_system-Unseen :
      (garbage : CanFrame) (lines : List (Line p)) (time : ℕ → p.Time) (moves : List (Move p))
      → All (LineFits p) lines
      → All (IsMove p) moves
      → (g : System p) × (run_system p can_eff_mask
            (new_system p 1024 garbage (init_generated_database p (new_parser p) lines time))
            moves
          ≡ some g)
        × Pairwise p (Unseen p) (signals_of p id false lines) (registered_signals p id g.parser)
  run_system-Unseen garbage lines time moves fits v =
      let (g, queue, e, sent, h) =
        run_system-Shows p id can_eff_mask garbage lines time moves fits v in
      let frames = map (λ (t : Taking p). t.frame) g.taken in
      let start = init_generated_database p (new_parser p) lines time in
      let short : All HasShortId frames = All-left _ frames queue (
        subst (All HasShortId) sent
          (run_system-ShortIds p (new_system p 1024 garbage start) moves
            (new_system-ShortIds p 1024 garbage start) e).sent) in
      (
        g,
        e,
        subst
            (λ last.
              Displays p last (signals_of p id false lines) (registered_signals p id g.parser))
            (last_payload-none frames short) h,
      )
