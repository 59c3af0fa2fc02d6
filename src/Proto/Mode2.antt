-- ===== src/Proto/Mode2.antt =====
-- The isochronous sample layout of crates/ak1-proto/src/mode2.rs. Bytes are numbers below 256 and
-- samples integers; the frames that decoding hands to its closure are a list.
pub mod Samples
pub mod Capture
pub mod Playback
use Prim.Native.Nat.{bit_and, bit_or}
use ak1_driver.Prelude.{
  ℕ, zero, suc, ◌+◌, ◌*◌, ◌/◌, ◌%◌, ◌^◌, Bool, true, false, ◌||◌, not, List, [], ◌∷◌, ◌++◌, length,
  take, drop, get_or, set, replicate, as_chunks, ◌==◌, if◌then◌else◌,
}
use ak1_driver.Prelude.Int.{ℤ, pos, shr, to_bits, from_bits}
use ak1_driver.Proto.Wire.{channels_per_stream}

abbrev pub stream_count : ℕ
stream_count = 2

abbrev pub channels : ℕ
channels = stream_count * channels_per_stream

abbrev pub block_bytes : ℕ
block_bytes = 8

abbrev pub frame_bytes : ℕ
frame_bytes = 2 * block_bytes

abbrev pub check_mask : ℕ
check_mask = 0x3f

abbrev pub output_panic : ℕ
output_panic = 0x80

-- One sample per channel, stream-major: stream 0 left, stream 0 right, stream 1 left, ...
abbrev pub Frame : Type 0
Frame = List ℤ

pub record CaptureStatus : Type 0 where
  pub frames : ℕ
  pub check_errors : ℕ
  pub output_rejected : Bool

unfoldable pub frames_in : ℕ → ℕ
frames_in packet_len = packet_len / frame_bytes

unfoldable pub check_byte : (stream block_index : ℕ) → ℕ
check_byte stream block_index = bit_or (stream * 2 % 256) (if block_index % 2 == 0 then 1 else 0)

-- `i32::from_be_bytes([b0, b1, b2, 0]) >> 8`.
unfoldable pub from_be24 : (b0 b1 b2 : ℕ) → ℤ
from_be24 b0 b1 b2 = shr (from_bits (b0 * 2 ^ 24 + b1 * 2 ^ 16 + b2 * 2 ^ 8)) 8

-- The three low bytes of `i32::to_be_bytes`.
unfoldable pub to_be24 : ℤ → ℕ × ℕ × ℕ
to_be24 sample = (to_bits sample / 2 ^ 16 % 256, to_bits sample / 2 ^ 8 % 256, to_bits sample % 256)

-- What the decoding loops change: the status and the samples of the frame at hand.
pub record Decoding : Type 0 where
  pub check_errors : ℕ
  pub output_rejected : Bool
  pub samples : Frame

-- The body of the loop over the streams of a block.
unfoldable pub decode_sample :
    (block : List ℕ) (block_index block_in_frame stream : ℕ) → Decoding → Decoding
decode_sample block block_index block_in_frame stream d =
    let check = get_or block stream 0 in
    record d {
      check_errors =
          if bit_and check check_mask == check_byte stream block_index
          then d.check_errors
          else d.check_errors + 1;
      output_rejected = d.output_rejected || not (bit_and check output_panic == 0);
      samples = set d.samples (stream * channels_per_stream + block_in_frame) (
          from_be24 (get_or block (2 + stream) 0) (get_or block (4 + stream) 0)
            (get_or block (6 + stream) 0));
    }

-- The loop over the two streams of a block.
unfoldable pub decode_block :
    (block : List ℕ) (block_index block_in_frame : ℕ) → Decoding → Decoding
unfolding decode_sample
decode_block block block_index block_in_frame d =
    decode_sample block block_index block_in_frame 1
      (decode_sample block block_index block_in_frame 0 d)

-- The body of the loop over the frames: the left block comes second and is decoded first.
unfoldable pub decode_frame :
    (index : ℕ) (bytes : List ℕ) (check_errors : ℕ) (output_rejected : Bool) → Decoding
unfolding decode_block
decode_frame index bytes check_errors output_rejected =
    let right = take block_bytes bytes in
    let left = drop block_bytes bytes in
    decode_block right (2 * index) 1 (
      decode_block left (2 * index + 1) 0 (record {
        check_errors = check_errors;
        output_rejected = output_rejected;
        samples = replicate channels (pos 0);
      }))

pub decode_frames : (index : ℕ) → List (List ℕ) → CaptureStatus → CaptureStatus × List Frame
decode_frames index [] status = (status, [])
decode_frames index (bytes ∷ rest) status =
    let d = decode_frame index bytes status.check_errors status.output_rejected in
    let (end, frames) = decode_frames (index + 1) rest (record {
      frames = status.frames + 1;
      check_errors = d.check_errors;
      output_rejected = d.output_rejected;
    }) in
    (end, d.samples ∷ frames)

-- Decodes whole frames of a capture packet; trailing partial frames are ignored.
pub decode_capture : List ℕ → CaptureStatus × List Frame
unfolding decode_frames
decode_capture packet =
    decode_frames 0 (as_chunks frame_bytes packet)
      (record { frames = 0; check_errors = 0; output_rejected = false })

-- The tail of the last playback sample of each stream.
pub record PlaybackEncoder : Type 0 where
  pub tail0 : ℕ × ℕ
  pub tail1 : ℕ × ℕ

-- `PlaybackEncoder::default()`.
abbrev pub default_encoder : PlaybackEncoder
default_encoder = record { tail0 = (0, 0); tail1 = (0, 0) }

-- The eight bytes of a block, and the encoder after it; `s0` and `s1` are the two streams' samples.
unfoldable pub encode_block :
    PlaybackEncoder → (block_index : ℕ) (s0 s1 : ℤ) → PlaybackEncoder × List ℕ
encode_block e block_index s0 s1 =
    let (a0, a1, a2) = to_be24 s0 in
    let (b0, b1, b2) = to_be24 s1 in
    (
      record { tail0 = (a1, a2); tail1 = (b1, b2) },
      e.tail0.0
          ∷ e.tail1.0
          ∷ e.tail0.1
          ∷ e.tail1.1
          ∷ check_byte 0 block_index
          ∷ check_byte 1 block_index
          ∷ a0
          ∷ b0
          ∷ [],
    )

-- A frame: the even block begins the left samples, the odd one the right ones.
unfoldable pub encode_frame : PlaybackEncoder → (index : ℕ) → Frame → PlaybackEncoder × List ℕ
unfolding encode_block
encode_frame e index f =
    let (e1, left) = encode_block e (2 * index) (get_or f 0 (pos 0)) (get_or f 2 (pos 0)) in
    let (e2, right) = encode_block e1 (2 * index + 1) (get_or f 1 (pos 0)) (get_or f 3 (pos 0)) in
    (e2, left ++ right)

-- `next_frame` is a closure over a state of its own, which goes in and out.
module _ {S : Type 0} (next_frame : S → S × Frame) where
  -- The loop over `n` frames of a packet, from frame `index` on.
  unfoldable pub encode_frames : (n index : ℕ) → PlaybackEncoder → S → PlaybackEncoder × S × List ℕ
  encode_frames zero index e s = (e, s, [])
  encode_frames (suc n) index e s =
      let (s', f) = next_frame s in
      let (e', bytes) = encode_frame e index f in
      let (end, s'', rest) = encode_frames n (index + 1) e' s' in (end, s'', bytes ++ rest)

  -- Fills the whole frames of `packet`.
  unfoldable pub encode : PlaybackEncoder → (packet : List ℕ) → S → PlaybackEncoder × S × List ℕ
  unfolding encode_frames
  encode e packet s =
      let n = length packet / frame_bytes in
      let (e', s', bytes) = encode_frames n 0 e s in
      (e', s', bytes ++ drop (frame_bytes * n) packet)
