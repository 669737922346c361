-- ===== src/Examples/Transfers.antt =====
-- Diagnostic transfers of a few bytes, and of more than the plugin can receive.
use can_from_scratch.Prelude.{ℕ, ◌<◌, ◌≤◌, ◌≡◌, ◌↔◌, refl, none, some, List, [], ◌∷◌, get_or, arith}
use can_from_scratch.Frame.{bytes8}
use can_from_scratch.Parser.{found_or}
use can_from_scratch.Uds.{DiagnosticMessage, Output, new_diagnostic, handle_diagnostic_frame}
use can_from_scratch.Uds.Assemble.{transfer, handle_all, Assembled, transfer-Assembled}
use can_from_scratch.Uds.{get_frame_length, get_pci_type}
use can_from_scratch.Uds.Invariant.{
  IsValid, handle_diagnostic_frame-IsValid, handle_diagnostic_frame-none_iff,
}
use can_from_scratch.Examples.{sample, sample_clock}

-- `VERSION-2026-123456`, the payload of scripts/tester.py.
abbrev version : List ℕ
version =
    0x56 ∷ 0x45 ∷ 0x52 ∷ 0x53 ∷ 0x49 ∷ 0x4F ∷ 0x4E ∷ 0x2D ∷ 0x32 ∷ 0x30 ∷ 0x32 ∷ 0x36 ∷ 0x2D ∷ 0x31
    ∷ 0x32 ∷ 0x33 ∷ 0x34 ∷ 0x35 ∷ 0x36 ∷ []

transfer-Assembled_example :
    Assembled sample version
      (handle_all sample (new_diagnostic sample) (transfer version) sample_clock 0)
transfer-Assembled_example =
    transfer-Assembled sample version (new_diagnostic sample) sample_clock (ground arith)
      (ground arith)

-- Its first frame.
abbrev first_frame : List ℕ
first_frame = bytes8 0x10 19 0x56 0x45 0x52 0x53 0x49 0x4F

abbrev after_first : DiagnosticMessage sample × List Output
after_first =
    found_or (new_diagnostic sample, [])
      (handle_diagnostic_frame sample (new_diagnostic sample) first_frame 50)

handled :
    handle_diagnostic_frame sample (new_diagnostic sample) first_frame 50
    ≡ some (after_first.0, after_first.1)
unfolding handle_diagnostic_frame can_from_scratch.Uds.get_pci_type
    can_from_scratch.Uds.on_first_frame can_from_scratch.Uds.Bytes.read_range
handled = refl

handle_diagnostic_frame-IsValid_example : IsValid sample after_first.0
handle_diagnostic_frame-IsValid_example =
    handle_diagnostic_frame-IsValid sample (new_diagnostic sample) first_frame 50 (ground arith)
      (refl, refl, refl) handled

handle_diagnostic_frame-none_iff_example :
    (handle_diagnostic_frame sample (new_diagnostic sample) first_frame 50 ≡ none)
    ↔ ((8 ≤ get_or first_frame 0 0) × (get_or first_frame 0 0 < 16))
handle_diagnostic_frame-none_iff_example =
    handle_diagnostic_frame-none_iff sample (new_diagnostic sample) first_frame 50 (ground arith)
