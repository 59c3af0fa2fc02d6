-- ===== src/Proto/Wire.antt =====
-- The commands and replies of crates/ak1-proto/src/lib.rs. A byte is a number below 256.
pub mod Laws
use ak1_driver.Prelude.{
  ℕ, suc, ◌+◌, ◌*◌, ◌/◌, ◌%◌, ◌^◌, min, max, Bool, true, false, List, [], ◌∷◌, Option, none, some,
  length, take, get_or, ltb, leb, ◌==◌, if◌then◌else◌,
}

abbrev pub max_packet_size : ℕ
max_packet_size = 512

abbrev pub channels_per_stream : ℕ
channels_per_stream = 2

abbrev pub clock_drift_tolerance : ℕ
clock_drift_tolerance = 5

pub data SampleRate : Type 0 where
  hz44100 hz48000 hz88200 hz96000 hz192000 : SampleRate

-- `SampleRate::ALL`.
abbrev pub all_rates : List SampleRate
all_rates = hz44100 ∷ hz48000 ∷ hz88200 ∷ hz96000 ∷ hz192000 ∷ []

unfoldable pub hz : SampleRate → ℕ
hz hz44100 = 44100
hz hz48000 = 48000
hz hz88200 = 88200
hz hz96000 = 96000
hz hz192000 = 192000

-- `Iterator::find` over the rates.
find_rate : ℕ → List SampleRate → Option SampleRate
find_rate n [] = none
find_rate n (r ∷ rs) = if hz r == n then some r else find_rate n rs

unfoldable pub from_hz : ℕ → Option SampleRate
unfolding find_rate hz
from_hz n = find_rate n all_rates

-- The rate selector of the AudioParams command; not in ascending order.
pub code : SampleRate → ℕ
code hz44100 = 0
code hz48000 = 1
code hz96000 = 2
code hz192000 = 3
code hz88200 = 4

pub record DeviceSpec : Type 0 where
  pub fw_version : ℕ
  pub hw_subtype : ℕ
  pub num_erp : ℕ
  pub num_analog_in : ℕ
  pub num_digital_in : ℕ
  pub num_digital_out : ℕ
  pub num_analog_audio_out : ℕ
  pub num_analog_audio_in : ℕ
  pub num_digital_audio_out : ℕ
  pub num_digital_audio_in : ℕ
  pub num_midi_out : ℕ
  pub num_midi_in : ℕ
  pub data_alignment : ℕ

abbrev pub wire_size : ℕ
wire_size = 14

-- `b.get(..n)`: the first `n` bytes, if there are as many.
abbrev pub get_prefix : ℕ → List ℕ → Option (List ℕ)
get_prefix n b = if ltb (length b) n then none else some (take n b)

spec_of : List ℕ → DeviceSpec
spec_of b = record {
  fw_version = get_or b 0 0 + 256 * get_or b 1 0;
  hw_subtype = get_or b 2 0;
  num_erp = get_or b 3 0;
  num_analog_in = get_or b 4 0;
  num_digital_in = get_or b 5 0;
  num_digital_out = get_or b 6 0;
  num_analog_audio_out = get_or b 7 0;
  num_analog_audio_in = get_or b 8 0;
  num_digital_audio_out = get_or b 9 0;
  num_digital_audio_in = get_or b 10 0;
  num_midi_out = get_or b 11 0;
  num_midi_in = get_or b 12 0;
  data_alignment = get_or b 13 0;
}

-- `DeviceSpec::parse`.
unfoldable pub parse_spec : List ℕ → Option DeviceSpec
unfolding spec_of
parse_spec b = elim (get_prefix wire_size b) [ none ↦ none | some b ↦ some (spec_of b) ]

unfoldable pub capture_streams : DeviceSpec → ℕ
capture_streams s = max s.num_analog_audio_in s.num_digital_audio_in / channels_per_stream

unfoldable pub playback_streams : DeviceSpec → ℕ
playback_streams s = max s.num_analog_audio_out s.num_digital_audio_out / channels_per_stream

-- Stereo streams carried in each packet, in both directions.
unfoldable pub streams : DeviceSpec → ℕ
unfolding capture_streams playback_streams
streams s = max (capture_streams s) (playback_streams s)

unfoldable pub wire_bytes_per_sample : DeviceSpec → ℕ
wire_bytes_per_sample s = if leb 2 s.data_alignment then 4 else 3

-- Largest isochronous packet the device may send at `rate`.
unfoldable pub max_packet_bytes : DeviceSpec → SampleRate → ℕ
unfolding hz wire_bytes_per_sample streams
max_packet_bytes s rate =
    let frames = hz rate / 8000 + clock_drift_tolerance in
    let bytes = frames * wire_bytes_per_sample s * channels_per_stream * streams s in
    min bytes max_packet_size % 2 ^ 16

pub get_device_info_request : List ℕ
get_device_info_request = 0x01 ∷ []

-- Selects sample rate, 24-bit depth and the maximum packet size, a `u16` in little-endian order.
pub audio_params_request : SampleRate → ℕ → List ℕ
unfolding code
audio_params_request rate max_packet =
    0x09 ∷ code rate ∷ 2 ∷ (max_packet % 256) ∷ (max_packet / 256 % 256) ∷ 1 ∷ []

pub auto_msg_request : ℕ → ℕ → ℕ → List ℕ
auto_msg_request digital analog erp = 0x0b ∷ digital ∷ analog ∷ erp ∷ []

pub data Reply : Type 0 where
  device_info : DeviceSpec → Reply
  audio_params : (accepted : Bool) → Reply
  midi_read : (port : ℕ) (bytes : List ℕ) → Reply
  read_io : List ℕ → Reply
  read_erp : List ℕ → Reply
  read_analog : List ℕ → Reply
  other : (command : ℕ) (payload : List ℕ) → Reply

parse_audio_params : List ℕ → Option Reply
parse_audio_params [] = none
parse_audio_params (answer ∷ _) = some (audio_params (answer == 1))

parse_midi : List ℕ → Option Reply
parse_midi [] = none
parse_midi (port ∷ []) = none
parse_midi (port ∷ len ∷ rest) = elim (get_prefix len rest) [
  | none ↦ none
  | some bytes ↦ some (midi_read port bytes)
]

parse_payload : ℕ → List ℕ → Option Reply
unfolding parse_spec parse_audio_params parse_midi
parse_payload command payload =
    if command == 0x01
    then elim (parse_spec payload) [ none ↦ none | some spec ↦ some (device_info spec) ]
    else if command == 0x09
    then parse_audio_params payload
    else if command == 0x06
    then parse_midi payload
    else if command == 0x04
    then some (read_io payload)
    else if command == 0x02
    then some (read_erp payload)
    else if command == 0x03
    then some (read_analog payload)
    else some (other command payload)

-- `Reply::parse`.
unfoldable pub parse_reply : List ℕ → Option Reply
unfolding parse_payload
parse_reply [] = none
parse_reply (command ∷ payload) = parse_payload command payload
