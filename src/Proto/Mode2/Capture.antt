-- ===== src/Proto/Mode2/Capture.antt =====
-- Decoding of capture packets in crates/ak1-proto/src/mode2.rs, against the layout that its header
-- describes.
use ak1_driver.Prelude.{
  ℕ, ◌+◌, ◌*◌, ◌/◌, ◌%◌, ◌≤◌, ◌<◌, ◌≡◌, refl, ◌∙◌, Bool, false, List, [], ◌∷◌, ◌++◌, length, map,
  concat, AllLength, length-concat, chunks_of-concat, as_chunks, chunks_of, length-append,
  length-chunks_of, arith,
}
use ak1_driver.Prelude.Int.{ℤ, Is24}
use ak1_driver.Proto.Mode2.{
  Frame, CaptureStatus, check_byte, to_be24, decode_frame, decode_frames, decode_capture, frames_in,
  frame_bytes,
}
use ak1_driver.Proto.Mode2.Samples.{from_be24-to_be24}

-- A block of the device: `[chk0, chk1, b0, b0, b1, b1, b2, b2]`.
capture_block : (parity : ℕ) (s0 s1 : ℤ) → List ℕ
capture_block parity s0 s1 =
    let (a0, a1, a2) = to_be24 s0 in
    let (b0, b1, b2) = to_be24 s1 in parity ∷ (2 + parity) ∷ a0 ∷ b0 ∷ a1 ∷ b1 ∷ a2 ∷ b2 ∷ []

-- A frame of the device: the even block holds the right channels, the odd one the left channels.
abbrev capture_bytes : Frame → List ℕ
unfolding capture_block
capture_bytes (l0 ∷ r0 ∷ l1 ∷ r1 ∷ []) = capture_block 1 r0 r1 ++ capture_block 0 l0 l1
capture_bytes _ = []

-- Four samples of 24 bits.
abbrev pub IsFrame : Frame → Type 0
IsFrame (l0 ∷ r0 ∷ l1 ∷ r1 ∷ []) = Is24 l0 × Is24 r0 × Is24 l1 × Is24 r1
IsFrame _ = ⊥

abbrev pub AllFrames : List Frame → Type 0
AllFrames [] = Unit
AllFrames (f ∷ fs) = IsFrame f × AllFrames fs

-- The packet that a device sends for a list of frames.
pub capture_packet : List Frame → List ℕ
unfolding capture_block
capture_packet fs = concat (map capture_bytes fs)

even_check : (i : ℕ) → (check_byte 0 (2 * i) ≡ 1) × (check_byte 1 (2 * i) ≡ 3)
unfolding check_byte
even_check i = let e : 2 * i % 2 ≡ 0 = omega arith in (rw e, rw e)

odd_check : (i : ℕ) → (check_byte 0 (2 * i + 1) ≡ 0) × (check_byte 1 (2 * i + 1) ≡ 2)
unfolding check_byte
odd_check i = let e : (2 * i + 1) % 2 ≡ 1 = omega arith in (rw e, rw e)

decode_frame-capture_bytes :
    (i errors : ℕ) (f : Frame)
    → IsFrame f
    → decode_frame i (capture_bytes f) errors false
      ≡ record { check_errors = errors; output_rejected = false; samples = f }
unfolding decode_frame capture_block
decode_frame-capture_bytes i errors (l0 ∷ r0 ∷ l1 ∷ r1 ∷ []) h = simp (
  (even_check i).0,
  (even_check i).1,
  (odd_check i).0,
  (odd_check i).1,
  from_be24-to_be24 l0 h.0,
  from_be24-to_be24 r0 h.1,
  from_be24-to_be24 l1 h.2,
  from_be24-to_be24 r1 h.3,
)
decode_frame-capture_bytes i errors _ h = absurd h

decode_frames-capture_bytes :
    (i n : ℕ) (fs : List Frame)
    → AllFrames fs
    → decode_frames i
        (map capture_bytes fs)
        (record { frames = n; check_errors = 0; output_rejected = false })
      ≡ (record { frames = n + length fs; check_errors = 0; output_rejected = false }, fs)
unfolding decode_frames
decode_frames-capture_bytes i n [] h = ground arith
decode_frames-capture_bytes i n (f ∷ fs) h =
    rw (decode_frame-capture_bytes i 0 f h.0)
      (ground (arith, decode_frames-capture_bytes (i + 1) (n + 1) fs h.1))

capture_bytes-AllLength :
    (fs : List Frame) → AllFrames fs → AllLength frame_bytes (map capture_bytes fs)
unfolding capture_block
capture_bytes-AllLength [] h = tt
capture_bytes-AllLength ((l0 ∷ r0 ∷ l1 ∷ r1 ∷ []) ∷ fs) h = (refl, capture_bytes-AllLength fs h.1)
capture_bytes-AllLength (_ ∷ fs) h = absurd h.0

-- A packet of the documented layout is decoded into its frames, in order, without check errors or
-- a rejection report; bytes of a partial frame behind them are ignored.
pub decode_capture-capture_packet :
    (fs : List Frame) (rest : List ℕ)
    → AllFrames fs
    → length rest < frame_bytes
    → decode_capture (capture_packet fs ++ rest)
      ≡ (record { frames = length fs; check_errors = 0; output_rejected = false }, fs)
unfolding decode_capture capture_packet
decode_capture-capture_packet fs rest h short =
    rw (whole, cut) (decode_frames-capture_bytes 0 0 fs h ∙ ground arith)
  where
    blocks : List (List ℕ)
    blocks = map capture_bytes fs

    whole : length (concat blocks ++ rest) / frame_bytes ≡ length blocks
    whole = omega (
      arith,
      length-append (concat blocks) rest,
      length-concat frame_bytes blocks (capture_bytes-AllLength fs h),
    )

    cut : chunks_of frame_bytes (length blocks) (concat blocks ++ rest) ≡ blocks
    cut = chunks_of-concat frame_bytes blocks rest (capture_bytes-AllLength fs h)

decode_frame_bounds :
    (i errors : ℕ) (rejected : Bool) (bytes : List ℕ)
    → let d = decode_frame i bytes errors rejected in
      (errors ≤ d.check_errors) × (d.check_errors ≤ errors + 4) × (length d.samples ≡ 4)
unfolding decode_frame
decode_frame_bounds i errors rejected bytes = ground arith

decode_frames_bounds :
    (i : ℕ) (blocks : List (List ℕ)) (s : CaptureStatus)
    → let (end, fs) = decode_frames i blocks s in
      (end.frames ≡ s.frames + length blocks)
      × (length fs ≡ length blocks)
      × (end.check_errors ≤ s.check_errors + 4 * length blocks)
      × AllLength 4 fs
unfolding decode_frames
decode_frames_bounds i [] s = ground arith
decode_frames_bounds i (b ∷ bs) s = ground (
  arith,
  decode_frame_bounds i s.check_errors s.output_rejected b,
  decode_frames_bounds (i + 1) bs (record {
    frames = s.frames + 1;
    check_errors = (decode_frame i b s.check_errors s.output_rejected).check_errors;
    output_rejected = (decode_frame i b s.check_errors s.output_rejected).output_rejected;
  }),
)

-- Whatever bytes arrive, a packet gives one frame of four samples for each 16 bytes, and at most
-- four check errors for each frame.
pub decode_capture_bounds :
    (packet : List ℕ)
    → let (status, fs) = decode_capture packet in
      (status.frames ≡ frames_in (length packet))
      × (length fs ≡ status.frames)
      × (status.check_errors ≤ 4 * status.frames)
      × AllLength 4 fs
unfolding decode_capture frames_in
decode_capture_bounds packet = ground (
  arith,
  decode_frames_bounds 0 (as_chunks frame_bytes packet)
      (record { frames = 0; check_errors = 0; output_rejected = false }),
  length-chunks_of frame_bytes (length packet / frame_bytes) packet,
)
