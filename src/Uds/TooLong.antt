-- ===== src/Uds/TooLong.antt =====
-- Transfers that the plugin loses: the sender numbers its frames modulo 16, while
-- `sequence_number` counts on to 16.
use can_from_scratch.Prelude.{ℕ, zero, suc, replicate, ◌+◌, ◌*◌, ◌≡◌, some, List, [], ◌∷◌, ◌++◌}
use can_from_scratch.Platform.{Platform}
use can_from_scratch.Uds.{UdsState, DiagnosticMessage, Output, Handled}

module _ (p : Platform) where
  -- The lines of `left` frames of seven bytes each, from the n-th consecutive frame on.
  abbrev pub progresses : (total n left : ℕ) → List Output
  progresses total n zero = []
  progresses total n (suc left) = Output.progress (6 + 7 * n) total ∷ progresses total (n + 1) left

  -- The handling ends idle with nothing kept, after these outputs and the ones of frames that come
  -- unexpected.
  pub record Dropped (shown : List Output) (result : Handled p) : Type 0 where
    pub final : DiagnosticMessage p
    pub ignored : ℕ
    pub returns : result ≡ some (final, shown ++ replicate ignored Output.unexpected_consecutive)
    pub forgotten : (final.state ≡ UdsState.idle) × (final.payload ≡ [])

  -- The outputs of a transfer that is lost at its sixteenth consecutive frame.
  abbrev pub lost_at_sixteen : (total : ℕ) → List Output
  lost_at_sixteen total =
      Output.first_frame_received total
      ∷ Output.diagnostic_response 0x7E8 (0x30 ∷ 0x00 ∷ 0x00 ∷ [])
      ∷ (progresses total 1 15 ++ Output.sequence_mismatch 16 0 ∷ [])
