-- ===== src/Doip/Text.antt =====
-- The line that `printDoipPacket` writes can be read back.
use mathlib.Core.List.{append-nil}
use can_from_scratch.Prelude.{
  ℕ, ◌+◌, ◌-◌, ◌*◌, ◌/◌, ◌%◌, ◌<◌, ◌≡◌, refl, sym, ap, ◌∙◌, true, false, Option, none, some, List,
  [], ◌∷◌, ◌++◌, All, arith, Bool-cases, inl, inr, ltb, if◌then◌else◌, ◌==◌,
}
use can_from_scratch.Frame.{IsByte}
use can_from_scratch.Doip.{hex_digit, hex, print_doip_packet}

abbrev digit_value : ℕ → ℕ
digit_value c = if ltb c 58 then c - 48 else c - 55

-- The number read so far, with one more digit.
abbrev extend : Option ℕ → ℕ → ℕ
extend none d = d
extend (some n) d = 16 * n + d

abbrev finish : Option ℕ → List ℕ → List ℕ
finish none rest = rest
finish (some n) rest = n ∷ rest

-- Hexadecimal numbers separated by spaces.
unfoldable pub read_packet : Option ℕ → List ℕ → List ℕ
read_packet seen [] = finish seen []
read_packet seen (c ∷ rest) = elim (c == 32) [
  | true ↦ finish seen (read_packet none rest)
  | false ↦ read_packet (some (extend seen (digit_value c))) rest
]

read_packet-digit :
    (seen : Option ℕ) (d : ℕ) (rest : List ℕ)
    → d < 16
    → read_packet seen (hex_digit d ∷ rest) ≡ read_packet (some (extend seen d)) rest
unfolding read_packet
read_packet-digit seen d rest h = ground (arith, back)
  where
    back : digit_value (hex_digit d) ≡ d
    back = ground arith

read_packet-hex :
    (b : ℕ) (rest : List ℕ)
    → IsByte b
    → read_packet none (hex b ++ rest) ≡ read_packet (some b) rest
read_packet-hex b rest h = elim (Bool-cases (ltb b 16)) [
  | inl short ↦ rw short (read_packet-digit none b rest (ground arith))
  | inr long ↦ rw long (
      read_packet-digit none (b / 16) (hex_digit (b % 16) ∷ rest) (omega arith)
      ∙ read_packet-digit (some (b / 16)) (b % 16) rest (omega arith)
      ∙ ap (λ n. read_packet (some n) rest) (omega arith))
]

-- The line that is printed for a packet of bytes, of any length, reads back as the packet.
pub read_packet-print_doip_packet :
    (bytes : List ℕ) → All IsByte bytes → read_packet none (print_doip_packet bytes) ≡ bytes
unfolding print_doip_packet read_packet
read_packet-print_doip_packet [] h = refl
read_packet-print_doip_packet (b ∷ []) h =
    ap (read_packet none) (sym (append-nil (hex b))) ∙ read_packet-hex b [] h.0
read_packet-print_doip_packet (b ∷ c ∷ rest) h =
    read_packet-hex b (32 ∷ print_doip_packet (c ∷ rest)) h.0
    ∙ ap (λ r. b ∷ r) (read_packet-print_doip_packet (c ∷ rest) h.1)
