-- ===== src/Uds/Pci.antt =====
-- The first byte of an ISO-TP frame: its type in the high nibble, a number in the low one.
use can_from_scratch.Prelude.{ℕ, ◌+◌, ◌*◌, ◌/◌, ◌%◌, ◌<◌, ◌≡◌, ap, ◌==◌, if◌then◌else◌, arith}
use can_from_scratch.Bits.{high_nibble, low_nibble, bit_or_below}
use can_from_scratch.Uds.{PciType, get_pci_type, long_length}

-- The type that a nibble stands for.
abbrev pub pci_of : ℕ → PciType
pci_of n =
    if n == 0
    then PciType.single_frame
    else if n == 1
    then PciType.first_frame
    else if n == 2
    then PciType.consecutive_frame
    else if n == 3
    then PciType.flow_control
    else PciType.other n

pub get_pci_type-eq : (b : ℕ) → b < 256 → get_pci_type b ≡ pci_of (b / 16)
unfolding get_pci_type
get_pci_type-eq b h = ap pci_of (high_nibble b h)

pub long_length-eq : (a b : ℕ) → b < 256 → long_length a b ≡ a % 16 * 256 + b
long_length-eq a b h = rw (low_nibble a, bit_or_below 8 (a % 16) b h) (omega arith)
