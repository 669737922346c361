-- ===== src/Uds/Assemble.antt =====
-- A whole ISO-TP transfer: the sender cuts a payload into frames, the plugin puts it together.
use mathlib.Core.List.{append_assoc, append-nil}
use mathlib.Core.Path.{subst}
use can_from_scratch.Prelude.{
  ℕ, zero, suc, ◌+◌, ◌*◌, ◌/◌, ◌%◌, ◌≤◌, ◌<◌, ◌≡◌, refl, ap, sym, ◌∙◌, some, ◌>>=◌, List, [], ◌∷◌,
  ◌++◌, length, take, drop, arith, length-append, length-take, length-drop, take-append-drop,
  take_all, drop_all,
}
use native.Mathlib.Decide.{dec_lt}
use can_from_scratch.Platform.{Platform}
use can_from_scratch.Uds.{
  UdsState, PciType, DiagnosticMessage, Output, Handled, process_uds_message, get_pci_type,
  on_first_frame, handle_diagnostic_frame,
}
use can_from_scratch.Uds.Bytes.{read_range, read_range-eq-take}
use can_from_scratch.Uds.Pci.{pci_of, get_pci_type-eq, long_length-eq}
use can_from_scratch.Uds.Step.{
  consecutive, IsWaiting, continued, completed, dispatch, append_more, append_last,
}

-- The frames after the first, numbered from `n`, with at most `fuel` of them.
abbrev pub consecutives : ℕ → ℕ → List ℕ → List (List ℕ)
consecutives zero n rest = []
consecutives (suc fuel) n [] = []
consecutives (suc fuel) n (b ∷ rest) =
    consecutive n (b ∷ rest) ∷ consecutives fuel (n + 1) (drop 7 (b ∷ rest))

-- The first frame carries the length in twelve bits and six bytes.
abbrev pub first : List ℕ → List ℕ
first payload = ((0x10 + length payload / 256) ∷ (length payload % 256) ∷ []) ++ take 6 payload

-- The frames of a transfer, as scripts/tester.py cuts them.
abbrev pub transfer : List ℕ → List (List ℕ)
transfer payload = first payload ∷ consecutives (length payload) 1 (drop 6 payload)

module _ (p : Platform) where
  -- The calls of `handleDiagnosticFrame` for the frames in order, the i-th at time `clock i`.
  unfoldable pub handle_all : DiagnosticMessage p → List (List ℕ) → (ℕ → p.Time) → ℕ → Handled p
  handle_all diag [] clock i = some (diag, [])
  handle_all diag (frame ∷ frames) clock i = do
    (diag', out) ← handle_diagnostic_frame p diag frame (clock i)
    (diag'', more) ← handle_all diag' frames clock (i + 1)
    some (diag'', out ++ more)

  -- The first frame starts the reception, whatever was there before.
  abbrev pub started : DiagnosticMessage p → List ℕ → p.Time → DiagnosticMessage p
  started diag payload now = record diag {
    state = UdsState.receiving_multiframe;
    payload = take 6 payload;
    total_length = length payload;
    sequence_number = 1;
    last_frame_time = now;
  }

  pub first_step :
      (diag : DiagnosticMessage p) (payload : List ℕ) (now : p.Time)
      → 6 ≤ length payload
      → length payload < 4096
      → handle_diagnostic_frame p diag (first payload) now
        ≡ some (
          started diag payload now,
          Output.first_frame_received (length payload)
              ∷ Output.diagnostic_response 0x7E8 (0x30 ∷ 0x00 ∷ 0x00 ∷ [])
              ∷ [],
        )
  unfolding handle_diagnostic_frame on_first_frame
  first_step diag payload now h k = ground (
    arith,
    first_type,
    long_length-eq (0x10 + length payload / 256) (length payload % 256),
    bytes,
    length-take 6 payload,
  )
    where
      first_type : get_pci_type (0x10 + length payload / 256) ≡ PciType.first_frame
      first_type =
          let one : (0x10 + length payload / 256) / 16 ≡ 1 = omega arith in
          get_pci_type-eq (0x10 + length payload / 256) (omega arith) ∙ ap pci_of one

      bytes : read_range (first payload) 2 6 ≡ some (take 6 payload)
      bytes =
          read_range-eq-take (first payload) 2 6 (omega (arith, length-take 6 payload))
          ∙ ap some (take_all 6 (take 6 payload) (omega (arith, length-take 6 payload)))

  pub started-IsWaiting :
      (diag : DiagnosticMessage p) (payload : List ℕ) (now : p.Time)
      → length payload < 4096
      → IsWaiting p (started diag payload now) 1 (drop 6 payload)
  started-IsWaiting diag payload now h = record {
    receiving = refl;
    number = refl;
    missing = omega (arith, length-take 6 payload, length-drop 6 payload);
    short = omega arith;
  }

  -- What the rest of the transfer leaves: the whole payload, announced at the end.
  pub record Assembled (payload : List ℕ) (result : Handled p) : Type 0 where
    pub final : DiagnosticMessage p
    pub before : List Output
    pub returns :
        result
        ≡ some (final, before ++ Output.message_assembled payload ∷ process_uds_message payload)
    pub finished : final.state ≡ UdsState.complete
    pub whole : final.payload ≡ payload

  -- The calls one by one.
  pub handle_all-cons :
      (diag : DiagnosticMessage p) (frame : List ℕ) (frames : List (List ℕ)) (clock : ℕ → p.Time)
      (i : ℕ) {d d' : DiagnosticMessage p} {out more : List Output}
      → handle_diagnostic_frame p diag frame (clock i) ≡ some (d, out)
      → handle_all d frames clock (i + 1) ≡ some (d', more)
      → handle_all diag (frame ∷ frames) clock i ≡ some (d', out ++ more)
  unfolding handle_all
  handle_all-cons diag frame frames clock i e e' = rw (e, e')

  Assembled-cons :
      (diag : DiagnosticMessage p) (frame : List ℕ) (frames : List (List ℕ)) (clock : ℕ → p.Time)
      (i : ℕ) {d : DiagnosticMessage p} {out : List Output} {payload : List ℕ}
      → handle_diagnostic_frame p diag frame (clock i) ≡ some (d, out)
      → Assembled payload (handle_all d frames clock (i + 1))
      → Assembled payload (handle_all diag (frame ∷ frames) clock i)
  Assembled-cons diag frame frames clock i {out = out} {payload = payload} e a = record {
    final = a.final;
    before = out ++ a.before;
    returns =
        handle_all-cons diag frame frames clock i e a.returns
        ∙ ap (λ o. some (a.final, o)) (sym (append_assoc out a.before _));
    finished = a.finished;
    whole = a.whole;
  }

  pub consecutives-nil : (fuel n : ℕ) → consecutives fuel n [] ≡ []
  consecutives-nil zero n = refl
  consecutives-nil (suc fuel) n = refl

  pub IsWaiting-continued :
      (diag : DiagnosticMessage p) (n : ℕ) (rest : List ℕ) (now : p.Time)
      → n < 16
      → IsWaiting p diag n rest
      → 7 < length rest
      → IsWaiting p (continued p diag rest now) (n + 1) (drop 7 rest)
  IsWaiting-continued diag n rest now h w long = record {
    receiving = w.receiving;
    number = omega (arith, w.number);
    missing = omega (
      arith,
      w.missing,
      length-append diag.payload (take 7 rest),
      length-take 7 rest,
      length-drop 7 rest,
    );
    short = w.short;
  }

  rest-Assembled :
      (fuel n : ℕ) (rest : List ℕ) (diag : DiagnosticMessage p) (clock : ℕ → p.Time) (i : ℕ)
      → IsWaiting p diag n rest
      → 1 ≤ length rest
      → length rest ≤ fuel
      → length rest + 7 * n ≤ 112
      → Assembled (diag.payload ++ rest) (handle_all diag (consecutives fuel n rest) clock i)
  unfolding handle_all
  rest-Assembled zero n rest diag clock i w h k l = absurd (omega arith)
  rest-Assembled (suc fuel) n [] diag clock i w h k l = absurd (omega arith)
  rest-Assembled (suc fuel) n (b ∷ bs) diag clock i w h k l = elim (dec_lt 7 (length (b ∷ bs))) [
    | yes long ↦
        subst (λ x. Assembled x (handle_all diag (consecutive n (b ∷ bs) ∷ later) clock i)) joined
          (Assembled-cons diag (consecutive n (b ∷ bs)) later clock i
            (dispatch p diag n (b ∷ bs) (clock i) w small
              ∙ append_more p diag n (b ∷ bs) (clock i) w small long)
            (rest-Assembled fuel (n + 1) (drop 7 (b ∷ bs)) (continued p diag (b ∷ bs) (clock i))
              clock (i + 1) (IsWaiting-continued diag n (b ∷ bs) (clock i) small w long)
              (omega (arith, length-drop 7 (b ∷ bs))) (omega (arith, length-drop 7 (b ∷ bs)))
              (omega (arith, length-drop 7 (b ∷ bs)))))
    | no short ↦ record {
      final = completed p diag (b ∷ bs) (clock i);
      before = [];
      returns =
          handle_all-cons diag (consecutive n (b ∷ bs)) later clock i
            (dispatch p diag n (b ∷ bs) (clock i) w small
              ∙ append_last p diag n (b ∷ bs) (clock i) w small (omega arith))
            (rw (all_sent short))
          ∙ ap (λ o. some (completed p diag (b ∷ bs) (clock i), o)) (append-nil _);
      finished = refl;
      whole = refl;
    }
  ]
    where
      small : n < 16
      small = omega arith

      later : List (List ℕ)
      later = consecutives fuel (n + 1) (drop 7 (b ∷ bs))

      joined : (diag.payload ++ take 7 (b ∷ bs)) ++ drop 7 (b ∷ bs) ≡ diag.payload ++ b ∷ bs
      joined =
          append_assoc diag.payload (take 7 (b ∷ bs)) (drop 7 (b ∷ bs))
          ∙ ap (λ r. diag.payload ++ r) (take-append-drop 7 (b ∷ bs))

      all_sent : ¬ (7 < length (b ∷ bs)) → later ≡ []
      all_sent h =
          ap (consecutives fuel (n + 1)) (drop_all 7 (b ∷ bs) (omega arith))
          ∙ consecutives-nil fuel (n + 1)

  -- A transfer of 7 to 111 bytes is received whole, whatever the state before it: the message ends
  -- complete with the payload that was sent, and the last outputs announce that payload and process
  -- it as a UDS request.
  pub transfer-Assembled :
      (payload : List ℕ) (diag : DiagnosticMessage p) (clock : ℕ → p.Time)
      → 7 ≤ length payload
      → length payload ≤ 111
      → Assembled payload (handle_all diag (transfer payload) clock 0)
  transfer-Assembled payload diag clock h k =
      Assembled-cons diag (first payload) later clock 0
        (first_step diag payload (clock 0) (omega arith) (omega arith))
        (subst (λ x. Assembled x (handle_all (started diag payload (clock 0)) later clock 1))
          (take-append-drop 6 payload)
          (rest-Assembled (length payload) 1 (drop 6 payload) (started diag payload (clock 0)) clock
            1 (started-IsWaiting diag payload (clock 0) (omega arith))
            (omega (arith, length-drop 6 payload)) (omega (arith, length-drop 6 payload))
            (omega (arith, length-drop 6 payload))))
    where
      later : List (List ℕ)
      later = consecutives (length payload) 1 (drop 6 payload)
