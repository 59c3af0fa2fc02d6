-- ===== src/Kernel/Circuits/Streams.antt =====
-- The streams of a circuit: create_stream and evt_stream_destroy of driver/ak1-acx/src/circuit.rs, with
-- evt_power_up. The answers of the framework are arguments; a stream's context is its RtStream.
pub mod Books
use ak1_driver.Prelude.{
  ℕ, Bool, true, false, ◌&&◌, ◌||◌, List, [], ◌∷◌, Option, none, some, get_or, ◌==◌, if◌then◌else◌,
}
use ak1_driver.Proto.Wire.{SampleRate, from_hz}
use ak1_driver.Kernel.Rt as Rt
use ak1_driver.Kernel.Rt.{Slot, RtStream}
use ak1_driver.Kernel.Audio.{Audio, claim_rate, release_rate, slot_index}
use ak1_driver.Kernel.Usb.{Status, not_supported, failure, Outcome, done, failed, check}

-- What the framework reads from a data format.
pub record Asked : Type 0 where
  pub sample_rate : ℕ
  pub bits_per_sample : ℕ
  pub channels_count : ℕ

-- The answers to the two assignments of callbacks and to the creation of the stream.
pub record StreamAnswers : Type 0 where
  pub callbacks : Option Status
  pub rt_callbacks : Option Status
  pub create : Option Status

abbrev is_circuit : Option ℕ → ℕ → Bool
is_circuit none circuit = false
is_circuit (some other) circuit = other == circuit

abbrev pub all_slots : List Slot
all_slots = Slot.output12 ∷ Slot.output34 ∷ Slot.input12 ∷ []

-- `Iterator::find` over the slots.
unfoldable pub find_slot : List (Option ℕ) → (circuit : ℕ) → List Slot → Option Slot
find_slot circuits circuit [] = none
find_slot circuits circuit (slot ∷ slots) =
    let rest = find_slot circuits circuit slots in
    if is_circuit (get_or circuits (slot_index slot) none) circuit then some slot else rest

-- The creation, once the callbacks are assigned: the rate is claimed before and released if it fails.
unfoldable pub create_claimed :
    (create : Option Status) → Audio → Slot → SampleRate → (bits : ℕ) → Audio × Outcome RtStream
unfolding claim_rate release_rate Rt.new
create_claimed none a slot rate bits = (claim_rate a rate, done (Rt.new slot rate bits))
create_claimed (some status) a slot rate bits = (release_rate (claim_rate a rate), failed status)

unfoldable pub create_checked :
    StreamAnswers → Audio → Slot → SampleRate → (bits : ℕ) → Audio × Outcome RtStream
unfolding create_claimed
create_checked answers a slot rate bits = elim answers.callbacks [
  | some status ↦ (a, failed status)
  | none ↦ elim answers.rt_callbacks [
    | some status ↦ (a, failed status)
    | none ↦ create_claimed answers.create a slot rate bits
  ]
]

-- Two channels in containers that the streams can read.
unfoldable pub is_stereo_pcm : Asked → Bool
is_stereo_pcm format =
    format.channels_count == 2 && (format.bits_per_sample == 16 || format.bits_per_sample == 32)

unfoldable pub create_stream :
    StreamAnswers
    → (circuits : List (Option ℕ)) → Audio
    → (circuit : ℕ) → Asked
    → Audio × Outcome RtStream
unfolding find_slot create_checked is_stereo_pcm
create_stream answers circuits a circuit format = elim (find_slot circuits circuit all_slots) [
  | none ↦ (a, failed not_supported)
  | some slot ↦ elim (from_hz format.sample_rate) [
    | none ↦ (a, failed not_supported)
    | some rate ↦
        if format.channels_count == 2
          && (format.bits_per_sample == 16 || format.bits_per_sample == 32)
        then create_checked answers a slot rate format.bits_per_sample
        else (a, failed not_supported)
  ]
]

-- `none` is a stream whose creation never set its context.
unfoldable pub evt_stream_destroy : Audio → Option RtStream → Audio
unfolding release_rate
evt_stream_destroy a none = a
evt_stream_destroy a (some stream) = release_rate a

-- The answers to the calls of `set_packet_size_constraints`.
pub record PowerAnswers : Type 0 where
  pub link_length : ℕ
  pub alias : Option Status
  pub property : Option Status

-- With whether the alias that was got is freed.
unfoldable pub set_packet_size_constraints : PowerAnswers → Outcome Unit × Bool
set_packet_size_constraints answers =
    let invalid_device_state = failure 0xc0000184 in
    if answers.link_length == 0 then (failed invalid_device_state, false) else elim answers.alias [
      | some status ↦ (failed status, false)
      | none ↦ (check answers.property, true)
    ]

-- Succeeds whatever the constraints' status is, which it reports.
unfoldable pub evt_power_up : PowerAnswers → Outcome Unit × Option Status
unfolding set_packet_size_constraints
evt_power_up answers = elim (set_packet_size_constraints answers).0 [
  | done _ ↦ (done tt, none)
  | failed status ↦ (done tt, some status)
]
