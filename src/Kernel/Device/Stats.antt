-- ===== src/Kernel/Device/Stats.antt =====
-- The counters of a stream: `Stats` of driver/ak1-acx/src/stream.rs, and the value of the hardware key that
-- lib.rs leaves of them.
use ak1_driver.Prelude.{ℕ, List, [], ◌∷◌, Option, some, map, concat}
use ak1_driver.Kernel.Handlers.{word_bytes}
use ak1_driver.Kernel.Device.{
  Effect, add_circuit, remove_circuit, assign_firmware_version, assign_stream_stats,
  assign_asio_stats,
}

pub record Stats : Type 0 where
  pub capture_transfers : ℕ
  pub capture_failures : ℕ
  pub frames : ℕ
  pub check_errors : ℕ
  pub rejected_packets : ℕ
  pub playback_transfers : ℕ
  pub playback_failures : ℕ
  pub playback_overruns : ℕ
  pub invalid_packets : ℕ

unfoldable pub snapshot : Stats → List ℕ
snapshot s =
    s.capture_transfers ∷ s.capture_failures ∷ s.frames ∷ s.check_errors ∷ s.rejected_packets
    ∷ s.playback_transfers ∷ s.playback_failures ∷ s.playback_overruns ∷ s.invalid_packets ∷ []

-- The words as bytes.
unfoldable pub snapshot_bytes : List ℕ → List ℕ
snapshot_bytes counters = concat (map word_bytes counters)

-- What the value `StreamStats` holds after the effects.
unfoldable pub stream_value : (before : Option (List ℕ)) → List Effect → Option (List ℕ)
unfolding snapshot_bytes
stream_value before [] = before
stream_value before (assign_stream_stats counters ∷ effects) =
    stream_value (some (snapshot_bytes counters)) effects
stream_value before (add_circuit circuit ∷ effects) = stream_value before effects
stream_value before (remove_circuit circuit ∷ effects) = stream_value before effects
stream_value before (assign_firmware_version version ∷ effects) = stream_value before effects
stream_value before (assign_asio_stats stats ∷ effects) = stream_value before effects
