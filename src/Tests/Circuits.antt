-- ===== src/Tests/Circuits.antt =====
-- Theorems on the circuits of driver/ak1-acx/src at concrete inputs.
use ak1_driver.Prelude.{ℕ, ◌≡◌, refl, List, [], ◌∷◌, Option, some, length, ◌==◌, if◌then◌else◌}
use ak1_driver.Proto.Wire.{hz44100}
use ak1_driver.Kernel.Rt as Rt
use ak1_driver.Kernel.Rt.{Slot, block_align}
use ak1_driver.Kernel.Audio as Audio
use ak1_driver.Kernel.Audio.{claim_rate}
use ak1_driver.Kernel.Audio.Steps.{World, new-IsSound}
use ak1_driver.Kernel.Usb.{Outcome, done, failed, not_supported}
use ak1_driver.Kernel.Circuits.{Log, Request, create_all, wave_format}
use ak1_driver.Kernel.Circuits.Inits.{taken, given, create_all-balanced}
use ak1_driver.Kernel.Circuits.Streams.{create_stream, find_slot}
use ak1_driver.Kernel.Circuits.Streams.Books.{
  IsBooked, create_stream-IsBooked, create_stream-formats, all_done,
}

-- The framework gives new numbers, until it fails at the ninth call.
abbrev failing : Log → Request → Outcome ℕ
failing log request = if length log == 8 then failed not_supported else done (length log)

create_all-balanced_example : taken 0 (create_all failing []).1 ≡ given 0 (create_all failing []).1
create_all-balanced_example = create_all-balanced failing 0

-- A driver that was just loaded.
abbrev loaded : World
loaded = record { audio = Audio.new []; created = 0; ready = 0 }

abbrev circuits : List (Option ℕ)
circuits = some 4 ∷ some 5 ∷ some 6 ∷ []

create_stream-IsBooked_example : IsBooked loaded (
    create_stream all_done circuits loaded.audio 5
      (record { sample_rate = 44100; bits_per_sample = 16; channels_count = 2 }))
create_stream-IsBooked_example =
    create_stream-IsBooked loaded all_done circuits 5
      (record { sample_rate = 44100; bits_per_sample = 16; channels_count = 2 }) (new-IsSound [])

create_stream-formats_example :
    let wave = wave_format (hz44100, 32, 24) in
    let (a, r) = create_stream all_done circuits loaded.audio 6 (record {
      sample_rate = wave.samples_per_sec;
      bits_per_sample = wave.bits_per_sample;
      channels_count = wave.channels;
    }) in
    (a ≡ claim_rate loaded.audio hz44100)
    × ((r ≡ done (Rt.new Slot.input12 hz44100 32))
        × (block_align (Rt.new Slot.input12 hz44100 32) ≡ wave.block_align))
create_stream-formats_example =
    create_stream-formats circuits loaded.audio 6 Slot.input12 1 (hz44100, 32, 24)
      (unfold find_slot in refl) refl
