-- ===== src/Uds/Invariant.antt =====
-- The state machine of the UDS plugin: its invariant, and where it has undefined behaviour.
use can_from_scratch.Prelude.{
  ℕ, ◌+◌, ◌-◌, ◌*◌, ◌%◌, ◌^◌, ◌≤◌, ◌<◌, ◌≡◌, ◌⊎◌, ◌↔◌, inl, inr, refl, ap, ◌∙◌, min, true, false,
  some, none, List, [], ◌∷◌, ◌++◌, length, get_elem?, get_or, take, drop, leb, ◌==◌, arith,
  length-drop, length-append, length-take, Bool-cases, bit_and,
}
use mathlib.Core.Path.{subst}
use native.Mathlib.Decide.{dec_lt, dec_le}
use can_from_scratch.Platform.{Platform}
use can_from_scratch.Bits.{low_nibble}
use can_from_scratch.Frame.{IsFrame, IsByte}
use can_from_scratch.Uds.{
  UdsState, PciType, DiagnosticMessage, Output, Handled, is_receiving, get_pci_type,
  on_single_frame, on_first_frame, append_frame, on_consecutive_frame, on_type,
  handle_diagnostic_frame,
}
use can_from_scratch.Uds.Bytes.{read_range, read_range-eq-take, read_range-eq-none}
use can_from_scratch.Uds.Pci.{get_pci_type-eq, long_length-eq}

-- What the length of the payload, the total length and the sequence number are in each state.
abbrev pub Shape : UdsState → ℕ → ℕ → ℕ → Type 0
Shape UdsState.idle len total seq = (len ≡ 0) × (total ≡ 0) × (seq ≡ 0)
Shape UdsState.receiving_multiframe len total seq =
    (len ≡ min total (7 * seq - 1))
    × (1 ≤ seq)
    × (seq ≤ 16)
    × (total ≤ 4095)
    × ((seq ≡ 1) ⊎ (len < total))
Shape UdsState.assembling len total seq = ⊥
Shape UdsState.complete len total seq = ((len ≤ 7) × (total ≡ 0)) ⊎ ((len ≡ total) × (total ≤ 111))

is_receiving_iff : (s : UdsState) → is_receiving s ≡ true → s ≡ UdsState.receiving_multiframe
is_receiving_iff s h = ground arith

module _ (p : Platform) where
  abbrev pub IsValid : DiagnosticMessage p → Type 0
  IsValid d = Shape d.state (length d.payload) d.total_length d.sequence_number

  -- A defined result has a valid message.
  abbrev Valid : Handled p → Type 0
  Valid none = Unit
  Valid (some (d, out)) = IsValid d

  module _ (b : ℕ) (rest : List ℕ) (v : IsFrame (b ∷ rest)) (diag : DiagnosticMessage p) where
    single-Valid : Valid (on_single_frame p diag (b ∷ rest) b)
    unfolding on_single_frame
    single-Valid = elim (dec_lt 7 (b % 16)) [
      | yes long ↦
          rw (low_nibble b, read_range-eq-none (b ∷ rest) 1 (b % 16) (omega arith) (omega arith)) tt
      | no short ↦
          rw (low_nibble b, read_range-eq-take (b ∷ rest) 1 (b % 16) (omega arith))
            (inl (omega (arith, length-take (b % 16) rest), refl))
    ]

    module _ (s : diag.sequence_number ≤ 15)
        (h : Shape UdsState.receiving_multiframe
          (length diag.payload)
          diag.total_length
          diag.sequence_number) where
      taken : List ℕ
      taken = take (min 7 (diag.total_length - length diag.payload)) rest

      taken_read :
          read_range
            (b ∷ rest)
            1
            (min 7 ((diag.total_length + 2 ^ 64 - length diag.payload) % 2 ^ 64))
          ≡ some taken
      unfolding taken
      taken_read =
          ap (λ k. read_range (b ∷ rest) 1 (min 7 k)) (omega arith)
          ∙ read_range-eq-take (b ∷ rest) 1 (min 7 (diag.total_length - length diag.payload))
              (omega arith)

      longer :
          length (diag.payload ++ taken)
          ≡ length diag.payload + min 7 (diag.total_length - length diag.payload)
      unfolding taken
      longer = omega (
        arith,
        length-append diag.payload taken,
        length-take (min 7 (diag.total_length - length diag.payload)) rest,
      )

      append-Valid :
          diag.state ≡ UdsState.receiving_multiframe → Valid (append_frame p diag (b ∷ rest))
      unfolding append_frame taken
      append-Valid e = elim (dec_le diag.total_length (length diag.payload + 7)) [
        | yes last ↦
            let done : leb diag.total_length (length (diag.payload ++ taken)) ≡ true =
              ground (arith, longer) in
            rw (taken_read, done)
              (inr (
                omega (arith, longer, length-take diag.total_length (diag.payload ++ taken)),
                omega arith,
              ))
        | no more ↦
            let open_end : leb diag.total_length (length (diag.payload ++ taken)) ≡ false =
              ground (arith, longer) in
            rw (taken_read, open_end, e) (omega (arith, longer))
      ]

    consecutive-Valid : IsValid diag → Valid (on_consecutive_frame p diag (b ∷ rest) b)
    unfolding on_consecutive_frame
    consecutive-Valid h = elim (Bool-cases (is_receiving diag.state)) [
      | inr other ↦ simp other h
      | inl receiving ↦ elim (Bool-cases (bit_and b 0x0F == diag.sequence_number)) [
        | inl same ↦
            simp (receiving, same)
              (append-Valid (ground (arith, low_nibble b))
                (shape (is_receiving_iff diag.state receiving))
                (is_receiving_iff diag.state receiving))
        | inr differs ↦ simp (receiving, differs) (refl, refl, refl)
      ]
    ]
      where
        shape :
            diag.state ≡ UdsState.receiving_multiframe
            → Shape UdsState.receiving_multiframe
                (length diag.payload)
                diag.total_length
                diag.sequence_number
        shape e =
            subst (λ x. Shape x (length diag.payload) diag.total_length diag.sequence_number) e h

    first-Valid :
        (second : ℕ)
        → get_elem? rest 0 ≡ some second
        → IsByte second
        → Valid (on_first_frame p diag (b ∷ rest) b)
    unfolding on_first_frame
    first-Valid second e small =
        rw (e, long_length-eq b second small, read_range-eq-take (b ∷ rest) 2 6 (omega arith))
          (ground (
            arith,
            length-take 6 (drop 1 rest),
            length-drop 1 rest,
            length-take (b % 16 * 256 + second) (take 6 (drop 1 rest)),
          ))

    type-Valid :
        (second : ℕ)
        → get_elem? rest 0 ≡ some second
        → IsByte second
        → IsValid diag
        → (type : PciType) → Valid (on_type p diag (b ∷ rest) b type)
    unfolding on_type
    type-Valid second e small h PciType.single_frame = single-Valid
    type-Valid second e small h PciType.first_frame = first-Valid second e small
    type-Valid second e small h PciType.consecutive_frame = consecutive-Valid h
    type-Valid second e small h PciType.flow_control = h
    type-Valid second e small h (PciType.other n) = h

    -- The only undefined case: a single frame that claims more than seven bytes.
    Faults : PciType → Type 0
    Faults PciType.single_frame = 7 < b % 16
    Faults _ = ⊥

    type-none_iff :
        (second : ℕ)
        → get_elem? rest 0 ≡ some second
        → (type : PciType) → (on_type p diag (b ∷ rest) b type ≡ none) ↔ Faults type
    unfolding on_type Faults on_single_frame on_first_frame on_consecutive_frame append_frame
    type-none_iff second e PciType.single_frame = ground (
      arith,
      low_nibble b,
      read_range-eq-none (b ∷ rest) 1 (b % 16),
      read_range-eq-take (b ∷ rest) 1 (b % 16),
    )
    type-none_iff second e PciType.first_frame = ground (arith, read_range-eq-take (b ∷ rest) 2 6)
    type-none_iff second e PciType.consecutive_frame = ground (
      arith,
      read_range-eq-take (b ∷ rest) 1
          (min 7 ((diag.total_length + 2 ^ 64 - length diag.payload) % 2 ^ 64)),
    )
    type-none_iff second e PciType.flow_control = ground arith
    type-none_iff second e (PciType.other n) = ground arith

  module _ (b c : ℕ) (rest : List ℕ) (v : IsFrame (b ∷ c ∷ rest)) (diag : DiagnosticMessage p)
      (now : p.Time) where
    handle-Valid : IsValid diag → Valid (handle_diagnostic_frame p diag (b ∷ c ∷ rest) now)
    unfolding handle_diagnostic_frame
    handle-Valid h =
        type-Valid b (c ∷ rest) v (record diag { last_frame_time = now }) c refl v.1.1.0 h
          (get_pci_type b)

    handle-none_iff :
        (handle_diagnostic_frame p diag (b ∷ c ∷ rest) now ≡ none) ↔ ((8 ≤ b) × (b < 16))
    unfolding handle_diagnostic_frame Faults
    handle-none_iff = ground (
      arith,
      type-none_iff b (c ∷ rest) v (record diag { last_frame_time = now }) c refl (get_pci_type b),
      get_pci_type-eq b v.1.0,
    )

  -- When `handleDiagnosticFrame` returns for an eight-byte frame, it keeps what holds of a message
  -- in each state: an idle one is empty; one being received has the shorter of its total length
  -- and 7 * n - 1 bytes, where n, from 1 to 16, is the number waited for, fewer than its total
  -- once n is past 1, and a total of at most 4095; a complete one is a single frame's of at most 7
  -- bytes, or has its total length of at most 111; none is assembling.
  pub handle_diagnostic_frame-IsValid :
      (diag : DiagnosticMessage p) (frame : List ℕ) (now : p.Time) {diag' : DiagnosticMessage p}
      {out : List Output}
      → IsFrame frame
      → IsValid diag
      → handle_diagnostic_frame p diag frame now ≡ some (diag', out)
      → IsValid diag'
  handle_diagnostic_frame-IsValid diag [] now v h e = absurd (omega arith)
  handle_diagnostic_frame-IsValid diag (b ∷ []) now v h e = absurd (omega arith)
  handle_diagnostic_frame-IsValid diag (b ∷ c ∷ rest) now v h e =
      subst Valid e (handle-Valid b c rest v diag now h)

  -- On an eight-byte frame `handleDiagnosticFrame` has undefined behaviour exactly when the first
  -- byte is 8 to 15: a single frame that claims more than the seven bytes that follow.
  pub handle_diagnostic_frame-none_iff :
      (diag : DiagnosticMessage p) (frame : List ℕ) (now : p.Time)
      → IsFrame frame
      → (handle_diagnostic_frame p diag frame now ≡ none)
        ↔ ((8 ≤ get_or frame 0 0) × (get_or frame 0 0 < 16))
  handle_diagnostic_frame-none_iff diag [] now v = absurd (omega arith)
  handle_diagnostic_frame-none_iff diag (b ∷ []) now v = absurd (omega arith)
  handle_diagnostic_frame-none_iff diag (b ∷ c ∷ rest) now v = handle-none_iff b c rest v diag now
