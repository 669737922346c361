-- ===== src/Uds.antt =====
-- src/can_parser.cpp and include/can_parser.hpp: the UDS plugin of `CanParser`, which puts ISO-TP
-- frames together. A `std::cout` line is a value of `Output`.
pub mod Bytes
pub mod Pci
pub mod Lengths
pub mod Step
pub mod Assemble
pub mod TooLong
pub mod Invariant
use can_from_scratch.Prelude.{
  ℕ, suc, ◌+◌, ◌-◌, ◌*◌, ◌/◌, ◌%◌, ◌^◌, min, bit_and, bit_or, Bool, true, false, not, ◌&&◌, Option,
  none, some, ◌>>=◌, List, [], ◌∷◌, ◌++◌, length, get_elem?, get_or, take, ltb, leb, ◌==◌,
  if◌then◌else◌,
}
use can_from_scratch.Platform.{Platform}
use Bytes.{read_range}

pub data UdsState : Type 0 where
  idle receiving_multiframe assembling complete : UdsState

-- `state == UdsState::RECEIVING_MULTIFRAME`
abbrev pub is_receiving : UdsState → Bool
is_receiving UdsState.receiving_multiframe = true
is_receiving _ = false

-- The values of the enumeration, and the other values that the cast can give.
pub data PciType : Type 0 where
  single_frame first_frame consecutive_frame flow_control : PciType
  other : ℕ → PciType

pub record DiagnosticMessage (p : Platform) : Type 0 where
  pub state : UdsState
  pub payload : List ℕ
  pub total_length : ℕ
  pub sequence_number : ℕ
  pub last_frame_time : p.Time

pub data Output : Type 0 where
  diagnostic_response : ℕ → List ℕ → Output
  empty_payload seed_sent unexpected_consecutive flow_control_ignored : Output
  read_data_done message_done message_assembled : List ℕ → Output
  single_frame_received first_frame_received unknown_pci : ℕ → Output
  sequence_mismatch progress : ℕ → ℕ → Output

-- `static_cast<PciType>((pci_byte & 0xF0) >> 4)`
unfoldable pub get_pci_type : ℕ → PciType
get_pci_type pci_byte =
    let n = bit_and pci_byte 0xF0 / 2 ^ 4 in
    if n == 0
    then PciType.single_frame
    else if n == 1
    then PciType.first_frame
    else if n == 2
    then PciType.consecutive_frame
    else if n == 3
    then PciType.flow_control
    else PciType.other n

-- `(data[0] & 0x0F) << 8 | data[1]` in a `uint16_t`
abbrev pub long_length : ℕ → ℕ → ℕ
long_length first second = bit_or (bit_and first 0x0F * 2 ^ 8) second % 2 ^ 16

unfoldable pub get_frame_length : List ℕ → Option ℕ
get_frame_length frame = do
  first ← get_elem? frame 0
  elim (get_pci_type first) [
    | PciType.single_frame ↦ some (bit_and first 0x0F)
    | PciType.first_frame ↦ (do second ← get_elem? frame 1; some (long_length first second))
    | _ ↦ some 0
  ]

abbrev pub security_seed : List ℕ
security_seed = 0xDE ∷ 0xAD ∷ 0xBE ∷ 0xEF ∷ []

-- `payload[1] == 0x01` is read only where there is a second byte.
unfoldable pub process_uds_message : List ℕ → List Output
process_uds_message [] = Output.empty_payload ∷ []
process_uds_message (service_id ∷ rest) =
    if service_id == 0x27 && (leb 2 (length (service_id ∷ rest)) && get_or rest 0 0 == 0x01)
    then Output.seed_sent ∷ Output.diagnostic_response 0x7E8 (0x67 ∷ 0x01 ∷ security_seed) ∷ []
    else if service_id == 0x22
    then Output.read_data_done (service_id ∷ rest) ∷ []
    else Output.message_done (service_id ∷ rest) ∷ []

module _ (p : Platform) where
  -- A message as `diagnostic_messages_[id]` makes it.
  abbrev pub new_diagnostic : DiagnosticMessage p
  new_diagnostic = record {
    state = UdsState.idle;
    payload = [];
    total_length = 0;
    sequence_number = 0;
    last_frame_time = p.epoch;
  }

  abbrev pub reset : DiagnosticMessage p → DiagnosticMessage p
  reset diag = record diag {
    state = UdsState.idle;
    payload = [];
    total_length = 0;
    sequence_number = 0;
  }

  abbrev pub Handled : Type 0
  Handled = Option (DiagnosticMessage p × List Output)

  unfoldable pub on_single_frame : DiagnosticMessage p → List ℕ → ℕ → Handled
  on_single_frame diag frame pci_byte = do
    let len = bit_and pci_byte 0x0F
    payload ← read_range frame 1 len
    some (
      record (reset diag) { state = UdsState.complete; payload = payload },
      Output.single_frame_received len ∷ process_uds_message payload,
    )

  unfoldable pub on_first_frame : DiagnosticMessage p → List ℕ → ℕ → Handled
  on_first_frame diag frame pci_byte = do
    second ← get_elem? frame 1
    let total = long_length pci_byte second
    bytes ← read_range frame 2 6
    some (
      record (reset diag) {
        state = UdsState.receiving_multiframe;
        total_length = total;
        sequence_number = 1;
        payload = if ltb total (length bytes) then take total bytes else bytes;
      },
      Output.first_frame_received total
          ∷ Output.diagnostic_response 0x7E8 (0x30 ∷ 0x00 ∷ 0x00 ∷ [])
          ∷ [],
    )

  -- The frame has the number that is waited for: `remaining` is a subtraction of `size_t`.
  unfoldable pub append_frame : DiagnosticMessage p → List ℕ → Handled
  append_frame diag frame = do
    let remaining = (diag.total_length + 2 ^ 64 - length diag.payload) % 2 ^ 64
    bytes ← read_range frame 1 (min 7 remaining)
    let payload = diag.payload ++ bytes
    let next = (diag.sequence_number + 1) % 2 ^ 8
    if leb diag.total_length (length payload)
        then some (
          record diag {
            state = UdsState.complete;
            payload = take diag.total_length payload;
            sequence_number = next;
          },
          Output.message_assembled (take diag.total_length payload)
              ∷ process_uds_message (take diag.total_length payload),
        )
        else some (
          record diag { payload = payload; sequence_number = next },
          Output.progress (length payload) diag.total_length ∷ [],
        )

  unfoldable pub on_consecutive_frame : DiagnosticMessage p → List ℕ → ℕ → Handled
  on_consecutive_frame diag frame pci_byte =
      if not (is_receiving diag.state)
      then some (diag, Output.unexpected_consecutive ∷ [])
      else (let seq = bit_and pci_byte 0x0F in
          if seq == diag.sequence_number
          then append_frame diag frame
          else some (reset diag, Output.sequence_mismatch diag.sequence_number seq ∷ []))

  -- The chain of tests on the type of the frame.
  unfoldable pub on_type : DiagnosticMessage p → List ℕ → ℕ → PciType → Handled
  on_type diag frame pci_byte PciType.single_frame = on_single_frame diag frame pci_byte
  on_type diag frame pci_byte PciType.first_frame = on_first_frame diag frame pci_byte
  on_type diag frame pci_byte PciType.consecutive_frame = on_consecutive_frame diag frame pci_byte
  on_type diag frame pci_byte PciType.flow_control = some (diag, Output.flow_control_ignored ∷ [])
  on_type diag frame pci_byte (PciType.other n) = some (diag, Output.unknown_pci pci_byte ∷ [])

  -- `now` is the clock's reading at the start of the call.
  unfoldable pub handle_diagnostic_frame : DiagnosticMessage p → List ℕ → p.Time → Handled
  unfolding on_type
  handle_diagnostic_frame diag frame now = do
    pci_byte ← get_elem? frame 0
    on_type (record diag { last_frame_time = now }) frame pci_byte (get_pci_type pci_byte)
