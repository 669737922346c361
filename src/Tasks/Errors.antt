-- ===== src/Tasks/Errors.antt =====
-- The counters of errors beside the counter of invalid frames.
use mathlib.Core.Path.{subst}
use mathlib.Core.Option.{some-injective}
use can_from_scratch.Prelude.{
  ℕ, ◌+◌, ◌^◌, ◌<◌, ◌≤◌, ◌≡◌, refl, ap, sym, inl, inr, Option, none, some, List, [], ◌∷◌, length,
  arith, Bool-cases, >>=-eq-some, ◌⊎◌, ◌&&◌,
}
use can_from_scratch.Platform.{Platform}
use can_from_scratch.Registry.{lookup}
use can_from_scratch.Uds.{Output}
use can_from_scratch.Message.{CanMessage}
use can_from_scratch.Ring.{CanFrame, push, pop}
use can_from_scratch.Parser.{
  CanParser, increment, increment_frame, has_message, is_diagnostic, is_in_whitelist,
  handle_message, handle_diagnostic, handle_found, handle_frame,
}
use can_from_scratch.Parser.Accounting.{counted}
use can_from_scratch.Tasks.{
  Gateway, Arrival, Shown, offer, producer_task, consume, on_popped, consumer_task, Turn, turn,
  run_tasks,
}

module _ (p : Platform) where
  -- A frame counts no error, or counts as invalid with at most one error of each kind.
  abbrev pub Errors : CanParser p → CanParser p → Type 0
  Errors s s' =
      ((s'.invalid_frames ≡ s.invalid_frames)
        × (s'.rolling_counter_errors ≡ s.rolling_counter_errors)
        × (s'.checksum_errors ≡ s.checksum_errors))
      ⊎ ((s'.invalid_frames ≡ increment s.invalid_frames)
          × ((s'.rolling_counter_errors ≡ s.rolling_counter_errors)
              ⊎ (s'.rolling_counter_errors ≡ increment s.rolling_counter_errors))
          × ((s'.checksum_errors ≡ s.checksum_errors)
              ⊎ (s'.checksum_errors ≡ increment s.checksum_errors)))

  module _ (id : ℕ) (frame : List ℕ) (clock : ℕ → p.Time) where
    handle_message-Errors :
        (s : CanParser p) (m : CanMessage p) {s' : CanParser p}
        → handle_message p s id m frame clock ≡ some s'
        → Errors s s'
    unfolding handle_message
    handle_message-Errors s m e = ground arith

    handle_found-Errors :
        (s : CanParser p) (found : Option (CanMessage p)) {s' : CanParser p}
        → handle_found p s id found frame clock ≡ some s'
        → Errors s s'
    unfolding handle_found
    handle_found-Errors s (some m) e = handle_message-Errors s m e
    handle_found-Errors s none e = ground arith

    diagnostic-Errors :
        (s : CanParser p) (now : p.Time) {s' : CanParser p} {out : List Output}
        → handle_diagnostic p s id frame now ≡ some (s', out)
        → Errors s s'
    unfolding handle_diagnostic
    diagnostic-Errors s now e = ground arith

    handle_frame-Errors :
        (s : CanParser p) (now : p.Time) {s' : CanParser p} {out : List Output}
        → handle_frame p s id frame now clock ≡ some (s', out)
        → Errors s s'
    unfolding handle_frame
    handle_frame-Errors s now e =
        elim (Bool-cases (s.diagnostic_mode_enabled && is_diagnostic id)) [
          | inl diagnostic ↦ diagnostic-Errors (counted p s) now (rw diagnostic at e)
          | inr other ↦ elim (Bool-cases (is_in_whitelist p (counted p s) id)) [
            | inr barred ↦ ground arith
            | inl allowed ↦
                let (s'', found, last) =
                  >>=-eq-some
                    (handle_found p (counted p s) id (lookup id s.message_registry) frame clock) _
                    (rw (other, allowed) at e) in
                ground
                  (arith, handle_found-Errors (counted p s) (lookup id s.message_registry) found)
          ]
        ]

  -- At most `k` invalid frames, and no more errors of a kind than those.
  abbrev pub Bounded : ℕ → CanParser p → Type 0
  Bounded k s =
      (s.invalid_frames ≤ k)
      × (s.rolling_counter_errors ≤ s.invalid_frames)
      × (s.checksum_errors ≤ s.invalid_frames)

  Errors-Bounded :
      (k : ℕ) (s s' : CanParser p) → Bounded k s → k < 2 ^ 62 → Errors s s' → Bounded (k + 1) s'
  Errors-Bounded k s s' h few e = ground (arith, e, h)

  consume-Bounded :
      (k : ℕ) (parser : CanParser p) (f : CanFrame) (now : p.Time) (clock drawn : ℕ → p.Time)
      {result : CanParser p × Shown p}
      → Bounded k parser
      → k < 2 ^ 62
      → consume p parser f now clock drawn ≡ some result
      → Bounded (k + 1) result.0
  unfolding consume increment_frame
  consume-Bounded k parser f now clock drawn h few e =
      let s : CanParser p = increment_frame p parser in
      elim (Bool-cases (has_message p s f.id)) [
        | inr unknown ↦
            subst (λ r. Bounded (k + 1) r.0) (some-injective _ _ (rw unknown at e))
              (Errors-Bounded k parser s h few (inl (refl, refl, refl)))
        | inl known ↦
            let (pair, found, last) =
              >>=-eq-some (handle_frame p s f.id f.payload now clock) _ (rw known at e) in
            subst (λ r. Bounded (k + 1) r.0) (some-injective _ _ last)
              (Errors-Bounded k s pair.0 h few
                (handle_frame-Errors f.id f.payload clock s now found))
      ]

  on_popped-Bounded :
      (k : ℕ) (g : Gateway p) (popped : Option CanFrame) (now : p.Time) (clock drawn : ℕ → p.Time)
      {result : Gateway p × Shown p}
      → Bounded k g.parser
      → k < 2 ^ 62
      → on_popped p g popped now clock drawn ≡ some result
      → Bounded (k + 1) result.0.parser
  unfolding on_popped
  on_popped-Bounded k g none now clock drawn h few e =
      subst (λ r. Bounded (k + 1) r.0.parser) (some-injective _ _ e)
        (Errors-Bounded k g.parser g.parser h few (inl (refl, refl, refl)))
  on_popped-Bounded k g (some f) now clock drawn h few e =
      let (pair, found, last) = >>=-eq-some (consume p g.parser f now clock drawn) _ e in
      subst (λ r. Bounded (k + 1) r.0.parser) (some-injective _ _ last)
        (consume-Bounded k g.parser f now clock drawn h few found)

  -- The producer leaves the parser alone.
  producer_task-parser :
      (eff_mask : ℕ) (g : Gateway p) (arrival : Arrival) (timestamp : ℕ) {g' : Gateway p}
      → producer_task p eff_mask g arrival timestamp ≡ some g'
      → g'.parser ≡ g.parser
  unfolding producer_task offer
  producer_task-parser eff_mask g Arrival.read_error timestamp e =
      ap (λ (x : Gateway p). x.parser) (sym (some-injective _ _ e))
  producer_task-parser eff_mask g Arrival.other_size timestamp e =
      ap (λ (x : Gateway p). x.parser) (sym (some-injective _ _ e))
  producer_task-parser eff_mask g (Arrival.raw_frame can_id dlc payload) timestamp e =
      let (pair, found, last) = >>=-eq-some (push g.ring _) _ e in
      ground (arith, ap (λ (x : Gateway p). x.parser) (some-injective _ _ last))

  turn-Bounded :
      (eff_mask k : ℕ) (g : Gateway p) (t : Turn p) {result : Gateway p × List (Shown p)}
      → Bounded k g.parser
      → k < 2 ^ 62
      → turn p eff_mask g t ≡ some result
      → Bounded (k + 1) result.0.parser
  unfolding turn consumer_task
  turn-Bounded eff_mask k g (Turn.produce arrival timestamp) h few e =
      let (g', found, last) = >>=-eq-some (producer_task p eff_mask g arrival timestamp) _ e in
      let same = producer_task-parser eff_mask g arrival timestamp found in
      subst (λ r. Bounded (k + 1) r.0.parser) (some-injective _ _ last)
        (subst (Bounded (k + 1)) (sym same)
          (Errors-Bounded k g.parser g.parser h few (inl (refl, refl, refl))))
  turn-Bounded eff_mask k g (Turn.consume_next now clock drawn) h few e =
      let (pair, found, last) = >>=-eq-some (consumer_task p g now clock drawn) _ e in
      let (got, found', last') = >>=-eq-some (pop g.ring) _ found in
      subst (λ r. Bounded (k + 1) r.0.parser) (some-injective _ _ last)
        (on_popped-Bounded k (record g { ring = got.0 }) got.1 now clock drawn h few last')

  pub run_tasks-Bounded :
      (eff_mask k : ℕ) (g : Gateway p) (turns : List (Turn p)) {result : Gateway p × List (Shown p)}
      → Bounded k g.parser
      → k + length turns < 2 ^ 62
      → run_tasks p eff_mask g turns ≡ some result
      → Bounded (k + length turns) result.0.parser
  unfolding run_tasks
  run_tasks-Bounded eff_mask k g [] h few e =
      subst (λ r. Bounded (k + 0) r.0.parser) (some-injective _ _ e) (omega (arith, h.0), h.1, h.2)
  run_tasks-Bounded eff_mask k g (t ∷ rest) h few e =
      let (first, found, last) = >>=-eq-some (turn p eff_mask g t) _ e in
      let (second, found', last') = >>=-eq-some (run_tasks p eff_mask first.0 rest) _ last in
      let later =
        run_tasks-Bounded eff_mask (k + 1) first.0 rest
          (turn-Bounded eff_mask k g t h (omega arith) found) (omega arith) found' in
      subst (λ r. Bounded (k + length (t ∷ rest)) r.0.parser) (some-injective _ _ last')
        (omega (arith, later.0), later.1, later.2)
