-- ===== src/Frame.antt =====
-- The payload of a CAN frame: `const uint8_t *data`, which every caller in the repository points at
-- an array of eight bytes.
use can_from_scratch.Prelude.{
  ℕ, ◌-◌, ◌/◌, ◌%◌, ◌^◌, ◌<◌, ◌≡◌, List, [], ◌∷◌, All, length, get_or, arith,
}

abbrev pub IsByte : ℕ → Type 0
IsByte b = b < 256

abbrev pub IsFrame : List ℕ → Type 0
IsFrame frame = (length frame ≡ 8) × All IsByte frame

-- Eight bytes in a list.
abbrev pub bytes8 : ℕ → ℕ → ℕ → ℕ → ℕ → ℕ → ℕ → ℕ → List ℕ
bytes8 a b c d e f g h = a ∷ b ∷ c ∷ d ∷ e ∷ f ∷ g ∷ h ∷ []

-- A property of frames is proved for eight bytes.
pub frame_cases {ℓ} :
    (P : List ℕ → Type ℓ)
    → ((a b c d e f g h : ℕ) → All IsByte (bytes8 a b c d e f g h) → P (bytes8 a b c d e f g h))
    → (frame : List ℕ) → IsFrame frame
    → P frame
frame_cases P each (a ∷ b ∷ c ∷ d ∷ e ∷ f ∷ g ∷ h ∷ []) v = each a b c d e f g h v.1
frame_cases P each [] v = absurd (omega arith)
frame_cases P each (a ∷ []) v = absurd (omega arith)
frame_cases P each (a ∷ b ∷ []) v = absurd (omega arith)
frame_cases P each (a ∷ b ∷ c ∷ []) v = absurd (omega arith)
frame_cases P each (a ∷ b ∷ c ∷ d ∷ []) v = absurd (omega arith)
frame_cases P each (a ∷ b ∷ c ∷ d ∷ e ∷ []) v = absurd (omega arith)
frame_cases P each (a ∷ b ∷ c ∷ d ∷ e ∷ f ∷ []) v = absurd (omega arith)
frame_cases P each (a ∷ b ∷ c ∷ d ∷ e ∷ f ∷ g ∷ []) v = absurd (omega arith)
frame_cases P each (a ∷ b ∷ c ∷ d ∷ e ∷ f ∷ g ∷ h ∷ i ∷ r) v = absurd (omega arith)

-- Bit `n` in the Intel numbering: bit `n % 8` of byte `n / 8`.
abbrev pub intel_bit : List ℕ → ℕ → ℕ
intel_bit frame n = get_or frame (n / 8) 0 / 2 ^ (n % 8) % 2

-- Bit `n` in the sequential Motorola numbering: the highest bit of byte 0 is bit 0.
abbrev pub motorola_bit : List ℕ → ℕ → ℕ
motorola_bit frame n = get_or frame (n / 8) 0 / 2 ^ (7 - n % 8) % 2
