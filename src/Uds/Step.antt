-- ===== src/Uds/Step.antt =====
-- One consecutive frame that has the number that is waited for.
use can_from_scratch.Prelude.{
  ℕ, suc, ◌+◌, ◌-◌, ◌/◌, ◌%◌, ◌^◌, ◌≤◌, ◌<◌, ◌≡◌, ap, sym, ◌∙◌, min, some, List, [], ◌∷◌, ◌++◌,
  length, take, ljust, replicate, arith, length-append, length-take, take-length-append, take_all,
  length-ljust,
}
use can_from_scratch.Platform.{Platform}
use can_from_scratch.Bits.{low_nibble}
use can_from_scratch.Uds.{
  UdsState, PciType, DiagnosticMessage, Output, process_uds_message, get_pci_type, append_frame,
  on_consecutive_frame, handle_diagnostic_frame,
}
use can_from_scratch.Uds.Bytes.{read_range, read_range-eq-take}
use can_from_scratch.Uds.Pci.{pci_of, get_pci_type-eq}

-- The consecutive frame number `n` of an ISO-TP sender with `rest` still to send, filled up to
-- eight bytes with zeros as `build_can_frame` of scripts/tester.py does it.
abbrev pub consecutive : ℕ → List ℕ → List ℕ
consecutive n rest = ljust 8 0 ((0x20 + n % 16) ∷ take 7 rest)

-- What is read of it is what was sent.
read_chunk :
    (n : ℕ) (rest : List ℕ)
    → read_range (consecutive n rest) 1 (min 7 (length rest)) ≡ some (take 7 rest)
read_chunk n rest =
    read_range-eq-take (consecutive n rest) 1 (min 7 (length rest)) (omega (arith, whole))
    ∙ ap some (
        ap (λ k. take k (take 7 rest ++ replicate (8 - suc (length (take 7 rest))) 0))
          (sym (length-take 7 rest))
        ∙ take-length-append (take 7 rest) _)
  where
    whole : length (consecutive n rest) ≡ 8
    whole = length-ljust 8 0 ((0x20 + n % 16) ∷ take 7 rest) (omega (arith, length-take 7 rest))

pub consecutive_type : (n : ℕ) → get_pci_type (0x20 + n % 16) ≡ PciType.consecutive_frame
consecutive_type n =
    let two : (0x20 + n % 16) / 16 ≡ 2 = omega arith in
    get_pci_type-eq (0x20 + n % 16) (omega arith) ∙ ap pci_of two

module _ (p : Platform) where
  -- The message is being received, and `rest` is what is missing.
  pub record IsWaiting (diag : DiagnosticMessage p) (n : ℕ) (rest : List ℕ) : Type 0 where
    pub receiving : diag.state ≡ UdsState.receiving_multiframe
    pub number : diag.sequence_number ≡ n
    pub missing : length diag.payload + length rest ≡ diag.total_length
    pub short : diag.total_length < 2 ^ 16

  -- The message after a frame of which bytes are still missing.
  abbrev pub continued : DiagnosticMessage p → List ℕ → p.Time → DiagnosticMessage p
  continued diag rest now = record diag {
    payload = diag.payload ++ take 7 rest;
    sequence_number = diag.sequence_number + 1;
    last_frame_time = now;
  }

  abbrev pub completed : DiagnosticMessage p → List ℕ → p.Time → DiagnosticMessage p
  completed diag rest now = record diag {
    state = UdsState.complete;
    payload = diag.payload ++ rest;
    sequence_number = diag.sequence_number + 1;
    last_frame_time = now;
  }

  module _ (diag : DiagnosticMessage p) (n : ℕ) (rest : List ℕ) (now : p.Time)
      (w : IsWaiting diag n rest) (small : n < 16) where
    pub dispatch :
        handle_diagnostic_frame p diag (consecutive n rest) now
        ≡ append_frame p (record diag { last_frame_time = now }) (consecutive n rest)
    unfolding handle_diagnostic_frame on_consecutive_frame
    dispatch = ground (arith, consecutive_type n, low_nibble (0x20 + n % 16))

    -- The subtraction does not wrap, and seven bytes or what is missing is read.
    read_missing :
        read_range
          (consecutive n rest)
          1
          (min 7 ((diag.total_length + 2 ^ 64 - length diag.payload) % 2 ^ 64))
        ≡ some (take 7 rest)
    read_missing =
        ap (λ k. read_range (consecutive n rest) 1 (min 7 k)) (omega arith) ∙ read_chunk n rest

    longer : length (diag.payload ++ take 7 rest) ≡ length diag.payload + min 7 (length rest)
    longer = omega (arith, length-append diag.payload (take 7 rest), length-take 7 rest)

    pub append_more :
        7 < length rest
        → append_frame p (record diag { last_frame_time = now }) (consecutive n rest)
          ≡ some (
            continued diag rest now,
            Output.progress (length (diag.payload ++ take 7 rest)) diag.total_length ∷ [],
          )
    unfolding append_frame
    append_more h = rw read_missing (ground (arith, longer))

    pub append_last :
        length rest ≤ 7
        → append_frame p (record diag { last_frame_time = now }) (consecutive n rest)
          ≡ some (
            completed diag rest now,
            Output.message_assembled (diag.payload ++ rest)
                ∷ process_uds_message (diag.payload ++ rest),
          )
    unfolding append_frame
    append_last h = rw read_missing (
        ground
          (arith, longer, take_all 7 rest h, take_all diag.total_length (diag.payload ++ rest)))
