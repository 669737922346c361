-- ===== src/Uds/Lengths.antt =====
-- `CanParser::getFrameLength`, which announces what `handleDiagnosticFrame` stores.
use can_from_scratch.Prelude.{
  ℕ, ◌%◌, ◌≡◌, refl, ap, ◌∙◌, some, List, [], ◌∷◌, length, get_or, arith, length-take, bit_and,
}
use native.Mathlib.Decide.{dec_lt}
use can_from_scratch.Platform.{Platform}
use can_from_scratch.Bits.{low_nibble}
use can_from_scratch.Frame.{IsFrame}
use can_from_scratch.Uds.{
  PciType, DiagnosticMessage, Output, get_pci_type, long_length, get_frame_length, on_single_frame,
  on_first_frame, on_type, handle_diagnostic_frame,
}
use can_from_scratch.Uds.Bytes.{read_range-eq-take, read_range-eq-none}

module _ (p : Platform) where
  -- What the frame announces: a single frame its payload, a first frame the whole message.
  abbrev pub announced : PciType → DiagnosticMessage p → ℕ
  announced PciType.single_frame d = length d.payload
  announced PciType.first_frame d = d.total_length
  announced _ d = 0

  module _ (b c : ℕ) (rest : List ℕ) (v : length (b ∷ c ∷ rest) ≡ 8) where
    abbrev claimed : PciType → ℕ
    claimed PciType.single_frame = bit_and b 0x0F
    claimed PciType.first_frame = long_length b c
    claimed _ = 0

    get_frame_length-eq-claimed : get_frame_length (b ∷ c ∷ rest) ≡ some (claimed (get_pci_type b))
    unfolding get_frame_length
    get_frame_length-eq-claimed = ground arith

    on_type-claimed :
        (diag : DiagnosticMessage p) (type : PciType) {diag' : DiagnosticMessage p}
        {out : List Output}
        → on_type p diag (b ∷ c ∷ rest) b type ≡ some (diag', out)
        → claimed type ≡ announced type diag'
    unfolding on_type on_single_frame on_first_frame
    on_type-claimed diag PciType.single_frame e = elim (dec_lt 7 (b % 16)) [
      | yes long ↦
          ground (arith, low_nibble b, read_range-eq-none (b ∷ c ∷ rest) 1 (bit_and b 0x0F))
      | no short ↦ ground (
        arith,
        low_nibble b,
        read_range-eq-take (b ∷ c ∷ rest) 1 (bit_and b 0x0F),
        length-take (bit_and b 0x0F) (c ∷ rest),
      )
    ]
    on_type-claimed diag PciType.first_frame e = ground arith
    on_type-claimed diag PciType.consecutive_frame e = refl
    on_type-claimed diag PciType.flow_control e = refl
    on_type-claimed diag (PciType.other n) e = refl

  -- For an eight-byte frame that `handleDiagnosticFrame` handles, `getFrameLength` is the length of
  -- the payload that a single frame leaves, the total length that a first frame leaves, and 0 for
  -- any other.
  pub get_frame_length-announced :
      (diag : DiagnosticMessage p) (frame : List ℕ) (now : p.Time) {diag' : DiagnosticMessage p}
      {out : List Output}
      → IsFrame frame
      → handle_diagnostic_frame p diag frame now ≡ some (diag', out)
      → get_frame_length frame ≡ some (announced (get_pci_type (get_or frame 0 0)) diag')
  unfolding handle_diagnostic_frame
  get_frame_length-announced diag [] now v e = absurd (omega arith)
  get_frame_length-announced diag (b ∷ []) now v e = absurd (omega arith)
  get_frame_length-announced diag (b ∷ c ∷ rest) now v e =
      get_frame_length-eq-claimed b c rest v.0
      ∙ ap some
          (on_type-claimed b c rest v.0 (record diag { last_frame_time = now }) (get_pci_type b) e)
