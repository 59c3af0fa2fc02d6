-- ===== src/Kernel/Rt.antt =====
-- The real-time packet streams of driver/ak1-acx/src/rt.rs. A packet buffer is the list of its bytes,
-- `none` a null pointer. The calls of AcxRtStreamNotifyPacketComplete are recorded in `notified`; the
-- handles that a stream only passes on are left out. Frame counts are numbers without bound.
pub mod Packets
pub mod Leaks
pub mod Layout
pub mod Progress
pub mod Loops
use ak1_driver.Prelude.{
  ℕ, zero, suc, ◌+◌, ◌-◌, ◌*◌, ◌/◌, ◌%◌, ◌^◌, Bool, true, false, ◌&&◌, ◌||◌, not, List, [], ◌∷◌,
  ◌++◌, Option, none, some, get_or, set, replicate, ltb, leb, ◌==◌, if◌then◌else◌,
}
use ak1_driver.Prelude.Int.{ℤ, pos, negsuc, shr, shl32, to_bits, from_bits}
use ak1_driver.Proto.Wire.{SampleRate, hz}
use ak1_driver.Proto.Resample as Resample
use ak1_driver.Proto.Resample.{Resampler, Frame}

pub data Slot : Type 0 where
  output12 : Slot
  output34 : Slot
  input12 : Slot

unfoldable pub is_capture : Slot → Bool
is_capture Slot.output12 = false
is_capture Slot.output34 = false
is_capture Slot.input12 = true

abbrev pub max_packets : ℕ
max_packets = 8

pub record Ring : Type 0 where
  pub buffers : List (Option (List ℕ))
  pub count : ℕ
  pub packet_bytes : ℕ
  pub first_offset : ℕ

pub record Cursor : Type 0 where
  pub frames : ℕ
  pub qpc : ℕ
  pub packet_start_qpc : ℕ

pub record RtStream : Type 0 where
  pub slot : Slot
  pub rate : SampleRate
  pub container_bytes : ℕ
  pub ring : Ring
  pub cursor : Cursor
  pub resampler : Resampler
  pub current_packet : ℕ
  pub last_packet_start_qpc : ℕ
  pub notified : List (ℕ × ℕ)

unfoldable pub new : Slot → SampleRate → (container_bits : ℕ) → RtStream
new slot rate container_bits = record {
  slot = slot;
  rate = rate;
  container_bytes = container_bits / 8;
  ring = record {
    buffers = replicate max_packets none;
    count = 0;
    packet_bytes = 0;
    first_offset = 0;
  };
  cursor = record { frames = 0; qpc = 0; packet_start_qpc = 0 };
  resampler = Resample.boxed 2;
  current_packet = 0;
  last_packet_start_qpc = 0;
  notified = [];
}

unfoldable pub block_align : RtStream → ℕ
block_align s = 2 * s.container_bytes

unfoldable pub frames_per_packet : RtStream → ℕ
unfolding block_align
frames_per_packet s = s.ring.packet_bytes / block_align s

-- The buffer and the offset in it of the next frame.
unfoldable pub frame_bytes : RtStream → Option (ℕ × ℕ)
unfolding block_align frames_per_packet
frame_bytes s =
    let frames = s.cursor.frames in
    let index = frames / frames_per_packet s % s.ring.count in
    let offset = frames % frames_per_packet s * block_align s in
    let base = if index == 0 then s.ring.first_offset else 0 in
    if s.ring.count == 0 then none else some (index, base + offset)

unfoldable pub advance : RtStream → (qpc : ℕ) → RtStream
unfolding frames_per_packet
advance s qpc =
    let per_packet = frames_per_packet s in
    let frames = s.cursor.frames + 1 in
    let start = if s.cursor.frames % per_packet == 0 then qpc else s.cursor.packet_start_qpc in
    let completed = frames / per_packet - 1 in
    if s.ring.count == 0
    then record s { cursor = record s.cursor { frames = frames; qpc = qpc } }
    else if frames % per_packet == 0
    then record s {
      cursor = record { frames = frames; qpc = qpc; packet_start_qpc = start };
      current_packet = (completed + 1) % 2 ^ 32;
      last_packet_start_qpc = start;
      notified = s.notified ++ ((completed, qpc) ∷ []);
    }
    else record s { cursor = record { frames = frames; qpc = qpc; packet_start_qpc = start } }

-- Little-endian words of memory.
abbrev pub read_word : (size : ℕ) → List ℕ → (at : ℕ) → ℕ
read_word zero bytes at = 0
read_word (suc n) bytes at = get_or bytes at 0 + 2 ^ 8 * read_word n bytes (at + 1)

abbrev pub write_word : (size : ℕ) → List ℕ → (at word : ℕ) → List ℕ
write_word zero bytes at word = bytes
write_word (suc n) bytes at word =
    write_word n (set bytes at (word % 2 ^ 8)) (at + 1) (word / 2 ^ 8)

-- The value of an `i16`.
abbrev pub from_bits16 : ℕ → ℤ
from_bits16 w = if ltb w (2 ^ 15) then pos w else negsuc (2 ^ 16 - 1 - w)

unfoldable pub load_sample : (container_bytes : ℕ) → List ℕ → (at : ℕ) → ℤ
load_sample container_bytes bytes at =
    if container_bytes == 2
    then shl32 (from_bits16 (read_word 2 bytes at)) 8
    else shr (from_bits (read_word 4 bytes at)) 8

unfoldable pub store_sample : (container_bytes : ℕ) → List ℕ → (at : ℕ) → ℤ → List ℕ
store_sample container_bytes bytes at sample =
    if container_bytes == 2
    then write_word 2 bytes at (to_bits (shr sample 8) % 2 ^ 16)
    else write_word 4 bytes at (to_bits (shl32 sample 8))

-- The bytes of a packet buffer; a null pointer has none.
abbrev pub buffer : RtStream → ℕ → List ℕ
buffer s index = elim (get_or s.ring.buffers index none) [ none ↦ [] | some bytes ↦ bytes ]

-- Reads the next render frame as 24-bit samples.
unfoldable pub render_frame : RtStream → (qpc : ℕ) → RtStream × Frame
render_frame s qpc = elim (frame_bytes s) [
  | none ↦ (s, Resample.zeros 2)
  | some (index, at) ↦
      let sample : ℕ → ℤ =
        λ i. load_sample s.container_bytes (buffer s index) (at + i * s.container_bytes) in
      (advance s qpc, sample 0 ∷ sample 1 ∷ [])
]

-- The writes of one frame's samples, `i` counting them.
pub store_samples : (container_bytes i at : ℕ) → List ℤ → List ℕ → List ℕ
store_samples container_bytes i at [] bytes = bytes
store_samples container_bytes i at (sample ∷ samples) bytes =
    store_samples container_bytes (i + 1) at samples
      (store_sample container_bytes bytes (at + i * container_bytes) sample)

-- Stores the next capture frame from 24-bit samples.
unfoldable pub capture_frame : RtStream → Frame → (qpc : ℕ) → RtStream
unfolding store_samples
capture_frame s samples qpc = elim (frame_bytes s) [
  | none ↦ advance s qpc
  | some (index, at) ↦
      let bytes = store_samples s.container_bytes 0 at samples (buffer s index) in
      advance
        (record s { ring = record s.ring { buffers = set s.ring.buffers index (some bytes) } }) qpc
]

-- `resampler.rates() != (from_hz, to_hz)` starts the conversion over.
unfoldable pub prepare_resampler : RtStream → (from_hz to_hz : ℕ) → RtStream
prepare_resampler s from_hz to_hz =
    if s.resampler.from_rate == from_hz && s.resampler.to_rate == to_hz
    then s
    else record s { resampler = Resample.reset 2 from_hz to_hz s.resampler }

-- The loops of `render` and `capture` run on fuel: `none` is out of fuel.
module _ (kernel : List ℤ) where
  pub render_loop : (fuel : ℕ) → RtStream → (qpc : ℕ) → Option (RtStream × Frame)
  render_loop zero s qpc = none
  render_loop (suc fuel) s qpc =
      let (r, popped) = Resample.pop kernel 2 s.resampler in
      elim popped [
        | some frame ↦ some (record s { resampler = r }, frame)
        | none ↦
            let (s', frame) = render_frame s qpc in
            render_loop fuel (record s' { resampler = Resample.push s'.resampler frame }) qpc
      ]

  -- The next frame to play at `card_hz`.
  unfoldable pub render : (fuel : ℕ) → RtStream → (card_hz qpc : ℕ) → Option (RtStream × Frame)
  unfolding render_loop
  render fuel s card_hz qpc =
      if hz s.rate == card_hz
      then some (render_frame s qpc)
      else render_loop fuel (prepare_resampler s (hz s.rate) card_hz) qpc

  pub capture_loop : (fuel : ℕ) → RtStream → (qpc : ℕ) → Option RtStream
  capture_loop zero s qpc = none
  capture_loop (suc fuel) s qpc =
      let (r, popped) = Resample.pop kernel 2 s.resampler in
      elim popped [
        | none ↦ some s
        | some frame ↦ capture_loop fuel (capture_frame (record s { resampler = r }) frame qpc) qpc
      ]

  -- Takes a frame captured at `card_hz`.
  unfoldable pub capture : (fuel : ℕ) → RtStream → Frame → (card_hz qpc : ℕ) → Option RtStream
  unfolding capture_loop
  capture fuel s samples card_hz qpc =
      if hz s.rate == card_hz
      then some (capture_frame s samples qpc)
      else let s' = prepare_resampler s card_hz (hz s.rate) in
        capture_loop fuel (record s' { resampler = Resample.push s'.resampler samples }) qpc

unfoldable pub position : RtStream → ℕ × ℕ
position s = (s.cursor.frames, s.cursor.qpc)

unfoldable pub reset : RtStream → RtStream
reset s = record s {
  cursor = record { frames = 0; qpc = 0; packet_start_qpc = 0 };
  resampler = Resample.clear s.resampler;
  current_packet = 0;
  last_packet_start_qpc = 0;
}
