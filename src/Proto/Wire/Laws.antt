-- ===== src/Proto/Wire/Laws.antt =====
-- The commands and replies of crates/ak1-proto/src/lib.rs: what a device of that format sends is read
-- back, what is too short is refused, and packet sizes stay within the endpoint.
use ak1_driver.Prelude.{
  ℕ, ◌+◌, ◌*◌, ◌/◌, ◌%◌, ◌^◌, ◌≤◌, ◌<◌, ◌≡◌, refl, ◌↔◌, min, List, [], ◌∷◌, ◌++◌, none, some,
  length, take, get_or, arith, ◌⊎◌, length-take,
}
use ak1_driver.Proto.Wire.{
  SampleRate, hz44100, hz, from_hz, code, DeviceSpec, device_info, midi_read, parse_reply,
  audio_params_request, max_packet_bytes, max_packet_size, streams, wire_bytes_per_sample,
  clock_drift_tolerance,
}

-- The rates found by frequency are exactly the card's: each rate is found by its own frequency, and
-- what is found has the frequency that was asked for.
pub from_hz_iff : (n : ℕ) (r : SampleRate) → (from_hz n ≡ some r) ↔ (hz r ≡ n)
unfolding from_hz
from_hz_iff n r = (found r, own r)
  where
    found : (r : SampleRate) → from_hz n ≡ some r → hz r ≡ n
    found hz44100 e = ground arith
    found r e = ground arith

    own : (r : SampleRate) → hz r ≡ n → from_hz n ≡ some r
    own hz44100 e = ground arith
    own r e = ground arith

-- The reply of a device, byte by byte: the format that `DeviceSpec::parse` reads.
pub spec_bytes : DeviceSpec → List ℕ
spec_bytes s =
    (s.fw_version % 256)
    ∷ (s.fw_version / 256)
    ∷ s.hw_subtype
    ∷ s.num_erp
    ∷ s.num_analog_in
    ∷ s.num_digital_in
    ∷ s.num_digital_out
    ∷ s.num_analog_audio_out
    ∷ s.num_analog_audio_in
    ∷ s.num_digital_audio_out
    ∷ s.num_digital_audio_in
    ∷ s.num_midi_out
    ∷ s.num_midi_in
    ∷ s.data_alignment
    ∷ []

-- A device-info reply is read back as it was sent, whatever bytes follow.
pub parse_reply-spec_bytes :
    (s : DeviceSpec) (rest : List ℕ)
    → parse_reply (0x01 ∷ (spec_bytes s ++ rest)) ≡ some (device_info s)
unfolding parse_reply spec_bytes
parse_reply-spec_bytes s rest = ground arith

-- An empty reply, or one shorter than its command announces.
abbrev pub IsShort : List ℕ → Type 0
IsShort [] = Unit
IsShort (command ∷ payload) =
    ((command ≡ 0x01) × (length payload < 14))
    ⊎ ((command ≡ 0x09) × (length payload < 1))
    ⊎ ((command ≡ 0x06) × ((length payload < 2) ⊎ (length payload < 2 + get_or payload 1 0)))

-- The replies refused are just these: the empty one, a device info of fewer than 14 bytes, an answer
-- to AudioParams without its byte, and a MIDI message without port, length or as many bytes as it
-- announces.
pub parse_reply_refused : (b : List ℕ) → (parse_reply b ≡ none) ↔ IsShort b
unfolding parse_reply
parse_reply_refused [] = (λ _. tt, λ _. refl)
parse_reply_refused (command ∷ []) = (λ e. ground arith, λ h. ground arith)
parse_reply_refused (command ∷ x ∷ []) = (λ e. ground arith, λ h. ground arith)
parse_reply_refused (command ∷ x ∷ y ∷ rest) = (λ e. ground arith, λ h. ground arith)

-- A MIDI reply that is read carries its port, exactly as many bytes as it announces, and those are
-- the bytes that follow the header.
pub parse_reply-midi :
    (port len : ℕ) (rest : List ℕ)
    → len ≤ length rest
    → parse_reply (0x06 ∷ port ∷ len ∷ rest) ≡ some (midi_read port (take len rest))
      × (length (take len rest) ≡ len)
unfolding parse_reply
parse_reply-midi port len rest h = (ground arith, omega (arith, length-take len rest))

-- The largest packet never exceeds the endpoint's 512 bytes, so the `u16` conversion loses nothing.
pub max_packet_bytes_le :
    (s : DeviceSpec) (r : SampleRate)
    → (max_packet_bytes s r ≤ max_packet_size)
      × (max_packet_bytes s r
          ≡ min
              ((hz r / 8000 + clock_drift_tolerance) * wire_bytes_per_sample s * 2 * streams s)
              max_packet_size)
unfolding max_packet_bytes
max_packet_bytes_le s r = ground arith

-- A device as `prepare_hardware` accepts it: alignment mode 2 and two stereo streams.
abbrev pub IsSupported : DeviceSpec → Type 0
IsSupported s = (s.data_alignment ≡ 2) × (streams s ≡ 2)

-- On a supported device the largest packet holds whole frames of 16 bytes, at least five more
-- than the nominal number of a microframe, and at most 32.
pub max_packet_bytes_supported :
    (s : DeviceSpec) (r : SampleRate)
    → IsSupported s
    → (max_packet_bytes s r ≡ 16 * (hz r / 8000 + 5)) × (hz r / 8000 + 5 ≤ 32)
unfolding max_packet_bytes wire_bytes_per_sample hz
max_packet_bytes_supported s hz44100 h = ground arith
max_packet_bytes_supported s r h = ground arith

-- A request says rate and packet size unambiguously, and has the length and command of the format.
pub audio_params_request_inj :
    (r r' : SampleRate) (m m' : ℕ)
    → m < 2 ^ 16
    → m' < 2 ^ 16
    → audio_params_request r m ≡ audio_params_request r' m'
    → (r ≡ r') × (m ≡ m')
unfolding audio_params_request code
audio_params_request_inj r r' m m' h h' e = (rates r r' (ground arith), ground arith)
  where
    rates : (r r' : SampleRate) → code r ≡ code r' → r ≡ r'
    rates r r' e = ground arith
