-- ===== src/Kernel/Stream.antt =====
-- How the USB engine answers a completed capture transfer: `Codec` and the loop of `Engine::answer` in
-- driver/ak1-acx/src/stream.rs. What it does with frames is given by the operations of `Frames`
-- (Kernel/Audio/Mix has them) on a state `S`. An isochronous packet has its status, its length, and the
-- memory from its offset on. Counters wrap at 2 ^ 32.
pub mod Pace
pub mod Transfers
pub mod Transfer
use ak1_driver.Prelude.{
  ℕ, zero, suc, ◌+◌, ◌-◌, ◌*◌, ◌/◌, ◌%◌, ◌^◌, Bool, true, false, ◌&&◌, not, List, [], ◌∷◌, ◌++◌,
  Option, none, some, length, take, replicate, get_or, leb, ltb, ◌==◌, if◌then◌else◌,
}
use ak1_driver.Prelude.Int.{ℤ, pos}
use ak1_driver.Proto.Mode2.{Frame, PlaybackEncoder, decode_capture, encode, frame_bytes}
use ak1_driver.Kernel.Rt.Packets.{microframes_per_second}

pub record Codec : Type 0 where
  pub encoder : PlaybackEncoder
  pub nominal_remainder : ℕ

-- Frames the device consumed in a microframe whose capture packet was lost.
unfoldable pub nominal_frames : Codec → (rate_hz : ℕ) → Codec × ℕ
nominal_frames codec rate_hz =
    let remainder = codec.nominal_remainder + rate_hz in
    (
      record codec { nominal_remainder = remainder % microframes_per_second },
      remainder / microframes_per_second,
    )

pub record IsoPacket : Type 0 where
  pub succeeded : Bool
  pub received : ℕ
  pub memory : List ℕ

-- The counters of `Stats` that the loop changes.
pub record Counts : Type 0 where
  pub frames : ℕ
  pub check_errors : ℕ
  pub rejected_packets : ℕ
  pub invalid_packets : ℕ

abbrev pub add_u32 : ℕ → ℕ → ℕ
add_u32 a b = (a + b) % 2 ^ 32

unfoldable pub is_valid : (max_packet_bytes : ℕ) → IsoPacket → Bool
is_valid max_packet_bytes packet =
    packet.succeeded && leb packet.received max_packet_bytes && packet.received % frame_bytes == 0

-- What a packet brings: its frames with the check errors, nothing if it is not valid.
unfoldable pub received_data : (max_packet_bytes : ℕ) → IsoPacket → List ℕ
received_data max_packet_bytes packet =
    take (if is_valid max_packet_bytes packet then packet.received else 0) packet.memory

-- A lost packet still took device time: both streams move by the nominal frame count.
unfoldable pub frame_count : (rate_hz max_packet_bytes : ℕ) → Codec → IsoPacket → Codec × ℕ
frame_count rate_hz max_packet_bytes codec packet =
    let (status, _) = decode_capture (received_data max_packet_bytes packet) in
    if is_valid max_packet_bytes packet
    then (codec, status.frames)
    else nominal_frames codec rate_hz

unfoldable pub count_packet : (max_packet_bytes : ℕ) → Counts → IsoPacket → Counts
count_packet max_packet_bytes counts packet =
    let (status, _) = decode_capture (received_data max_packet_bytes packet) in
    record {
      frames = add_u32 counts.frames status.frames;
      check_errors = add_u32 counts.check_errors status.check_errors;
      rejected_packets =
          if status.output_rejected
          then add_u32 counts.rejected_packets 1
          else counts.rejected_packets;
      invalid_packets =
          if is_valid max_packet_bytes packet
          then counts.invalid_packets
          else add_u32 counts.invalid_packets 1;
    }

-- The counters after the loop, which nothing else in it reads.
pub count_packets : (max_packet_bytes : ℕ) → Counts → List IsoPacket → Counts
count_packets max_packet_bytes counts [] = counts
count_packets max_packet_bytes counts (packet ∷ packets) =
    count_packets max_packet_bytes (count_packet max_packet_bytes counts packet) packets

-- The input that a decoded frame is delivered as: silence unless its packet was clean.
abbrev pub delivered : (clean : Bool) → Frame → List ℤ
delivered clean frame =
    if clean then get_or frame 0 (pos 0) ∷ get_or frame 1 (pos 0) ∷ [] else pos 0 ∷ pos 0 ∷ []

module _ {S : Type 0} (at : S → (qpc : ℕ) → S) (capture : S → List ℤ → S)
    (render : S → S × Frame) where
  -- The first `n` frames of `decoded`, which is silence past what was decoded.
  pub deliver : (n : ℕ) → (clean : Bool) → List Frame → S → S
  deliver zero clean decoded s = s
  deliver (suc n) clean [] s = deliver n clean [] (capture s (pos 0 ∷ pos 0 ∷ []))
  deliver (suc n) clean (frame ∷ decoded) s =
      deliver n clean decoded (capture s (delivered clean frame))

  -- One turn of the loop: the playback packet, if there is a transfer to put it in. The memory it is
  -- written to counts as zero: a packet of whole frames is overwritten whole.
  unfoldable pub answer_packet :
      (rate_hz max_packet_bytes : ℕ) (has_playback : Bool) (qpc : ℕ)
      → IsoPacket
      → Codec
      → S
      → Codec × S × List ℕ
  unfolding deliver
  answer_packet rate_hz max_packet_bytes has_playback qpc packet codec s =
      let (status, decoded) = decode_capture (received_data max_packet_bytes packet) in
      let (codec', count) = frame_count rate_hz max_packet_bytes codec packet in
      let clean = is_valid max_packet_bytes packet && status.check_errors == 0 in
      let s' = deliver count clean decoded (at s qpc) in
      let (encoder, s'', bytes) =
        encode render codec'.encoder (replicate (count * frame_bytes) 0) s' in
      if has_playback then (record codec' { encoder = encoder }, s'', bytes) else (codec', s', [])

  -- The loop over the packets of a transfer that completed at `completed`: `i` of them are done, and
  -- `last` is the last one's index.
  pub answer_packets :
      (rate_hz max_packet_bytes : ℕ) (has_playback : Bool) (completed last qpc_per_microframe i : ℕ)
      → List IsoPacket
      → Codec
      → S
      → Codec × S × List (List ℕ)
  answer_packets rate_hz max_packet_bytes has_playback completed last qpc_per_microframe i [] codec
        s =
      (codec, s, [])
  answer_packets rate_hz max_packet_bytes has_playback completed last qpc_per_microframe i
        (packet ∷ packets) codec s =
      let qpc = completed - (last - i) * qpc_per_microframe in
      let (codec', s', out) =
        answer_packet rate_hz max_packet_bytes has_playback qpc packet codec s in
      let (codec'', s'', outs) =
        answer_packets rate_hz max_packet_bytes has_playback completed last qpc_per_microframe
          (i + 1) packets codec' s' in
      (codec'', s'', out ∷ outs)
