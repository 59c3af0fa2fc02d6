-- ===== src/Kernel/Stream/Pace.antt =====
-- The pace of the USB engine of driver/ak1-acx/src/stream.rs, and the room its packets take.
use ak1_driver.Prelude.{
  ℕ, zero, suc, ◌+◌, ◌-◌, ◌*◌, ◌≤◌, ◌<◌, ◌≡◌, refl, Bool, true, false, List, [], ◌∷◌, length, arith,
  concat, length-append, length-replicate, replicate, length-take, ap, if◌then◌else◌,
}
use ak1_driver.Prelude.Int.{ℤ}
use ak1_driver.Proto.Mode2.{Frame, frames_in, frame_bytes}
use ak1_driver.Proto.Mode2.Capture.{decode_capture_bounds}
use ak1_driver.Proto.Mode2.Playback.{length-encode}
use ak1_driver.Kernel.Stream.{
  Codec, nominal_frames, IsoPacket, is_valid, received_data, frame_count, answer_packet,
  answer_packets,
}

-- `n` lost packets in a row.
pub lose : ℕ → Codec → (rate_hz : ℕ) → Codec × ℕ
lose zero codec rate_hz = (codec, 0)
lose (suc n) codec rate_hz =
    let (codec', frames) = nominal_frames codec rate_hz in
    let (end, rest) = lose n codec' rate_hz in (end, frames + rest)

-- A packet is answered by at most 32 frames, as many as the decoder's array has.
frame_count_bounds :
    (rate_hz max_packet_bytes : ℕ) (codec : Codec) (packet : IsoPacket)
    → rate_hz ≤ 192000
    → max_packet_bytes ≤ 512
    → codec.nominal_remainder < 8000
    → let (codec', count) = frame_count rate_hz max_packet_bytes codec packet in
      (count ≤ 32) × (codec'.nominal_remainder < 8000)
unfolding frame_count nominal_frames received_data frames_in is_valid
frame_count_bounds rate_hz max_packet_bytes codec packet h1 h2 h3 =
    let received = received_data max_packet_bytes packet in
    ground (
      arith,
      decode_capture_bounds received,
      length-take (if is_valid max_packet_bytes packet then packet.received else 0) packet.memory,
    )

module _ {S : Type 0} (at : S → ℕ → S) (capture : S → List ℤ → S) (render : S → S × Frame) where
  answer_packet_bounds :
      (rate_hz max_packet_bytes : ℕ) (has_playback : Bool) (qpc : ℕ) (packet : IsoPacket)
      (codec : Codec) (s : S)
      → rate_hz ≤ 192000
      → max_packet_bytes ≤ 512
      → codec.nominal_remainder < 8000
      → let (codec', _, out) =
          answer_packet at capture render rate_hz max_packet_bytes has_playback qpc packet codec
            s in
        (length out ≤ 512) × (codec'.nominal_remainder < 8000)
  unfolding answer_packet
  answer_packet_bounds rate_hz max_packet_bytes false qpc packet codec s h1 h2 h3 =
      (omega arith, (frame_count_bounds rate_hz max_packet_bytes codec packet h1 h2 h3).1)
  answer_packet_bounds rate_hz max_packet_bytes true qpc packet codec s h1 h2 h3 =
      let (codec', count) = frame_count rate_hz max_packet_bytes codec packet in
      let (few, remainder) = frame_count_bounds rate_hz max_packet_bytes codec packet h1 h2 h3 in
      let out : List ℕ = replicate (count * frame_bytes) 0 in
      let size : length out ≡ count * frame_bytes = length-replicate (count * frame_bytes) 0 in
      (omega (arith, few, size, length-encode render codec'.encoder out _), remainder)

  -- Whatever packets the host controller reports, valid or not, their answer fits in the buffer of a
  -- playback transfer, which has room for 512 bytes for each packet.
  pub answer_packets_bounds :
      (rate_hz max_packet_bytes : ℕ) (has_playback : Bool) (completed last qpc_per_microframe i : ℕ)
      (packets : List IsoPacket) (codec : Codec) (s : S)
      → rate_hz ≤ 192000
      → max_packet_bytes ≤ 512
      → codec.nominal_remainder < 8000
      → let (_, _, outs) =
          answer_packets at capture render rate_hz max_packet_bytes has_playback completed last
            qpc_per_microframe i packets codec s in
        (length outs ≡ length packets) × (length (concat outs) ≤ 512 * length packets)
  unfolding answer_packets
  answer_packets_bounds rate_hz max_packet_bytes has_playback completed last per i [] codec s h1 h2
        h3 =
      (refl, omega arith)
  answer_packets_bounds rate_hz max_packet_bytes has_playback completed last per i
        (packet ∷ packets) codec s h1 h2 h3 =
      let one =
        answer_packet at capture render rate_hz max_packet_bytes has_playback
          (completed - (last - i) * per) packet codec s in
      let (fits, remainder) =
        answer_packet_bounds rate_hz max_packet_bytes has_playback (completed - (last - i) * per)
          packet codec s h1 h2 h3 in
      let (count, rest) =
        answer_packets_bounds rate_hz max_packet_bytes has_playback completed last per (i + 1)
          packets one.0 one.1 h1 h2 remainder in
      let outs =
        (answer_packets at capture render rate_hz max_packet_bytes has_playback completed last per
          (i + 1) packets one.0 one.1).2 in
      (ap suc count, omega (arith, fits, rest, length-append one.2 (concat outs)))
