-- ===== src/Tests/Proto.antt =====
-- Theorems on crates/ak1-proto/src at concrete inputs.
use ak1_driver.Prelude.{
  ◌*◌, ◌<◌, ◌+◌, ℕ, ◌+◌, ◌*◌, ◌/◌, ◌≡◌, refl, true, false, List, [], ◌∷◌, ◌++◌, none, some, take,
  map, replicate, length, arith, leb, if◌then◌else◌,
}
use ak1_driver.Prelude.Int.{ℤ, pos, negsuc}
use ak1_driver.Proto.Buffers
use ak1_driver.Proto.Buffers.{Frame, Buffers, silence, stats}
use ak1_driver.Proto.Buffers.Spec.{Op, start, run}
use ak1_driver.Proto.Buffers.Refine.{IsValid, view}
use ak1_driver.Proto.Buffers.Created.{new-IsValid}
use ak1_driver.Proto.Buffers.Calls.{calls, calls_refine}
use ak1_driver.Proto.Buffers.Latency.{loop_back-prompt}
use ak1_driver.Proto.Buffers.Turns.{loop_back}
use ak1_driver.Proto.Fifo.{Fifo}
use ak1_driver.Proto.Wire.{DeviceSpec, device_info, parse_reply}
use ak1_driver.Proto.Wire.Laws.{spec_bytes, parse_reply-spec_bytes}
use ak1_driver.Proto.Mode2.{decode_capture, encode, default_encoder, to_be24}
use ak1_driver.Proto.Mode2.Capture.{capture_packet, AllFrames, decode_capture-capture_packet}
use ak1_driver.Proto.Mode2.Playback.{Between, receive, pairs_of, frames_from, encode-receive}
use ak1_driver.Proto.Resample as Resample
use ak1_driver.Proto.Resample.{Resampler, gcd}
use ak1_driver.Proto.Resample.Ratio as Ratio
use ak1_driver.Proto.Resample.Ratio.{center-run}
use ak1_driver.Proto.Resample.History.{before, after}
use ak1_driver.Proto.Resample.Convert.{Used, pop-converts, reset_bounds}

-- A stereo frame, and a host's answer to it.
abbrev one_frame : Frame
one_frame = pos 3 ∷ pos 4 ∷ []

abbrev echo : Frame → Frame
echo frame = frame ++ frame

-- New buffers of two frames a period and a transfer of one.
abbrev fresh :
    (b : Buffers) × (Buffers.new true true 2 1 ≡ some b) × IsValid 2 1 b × (view b ≡ start 2 1)
fresh = new-IsValid 2 1 (omega arith) (omega arith)

loop_back-prompt_example :
    ((loop_back echo fresh.0 (one_frame ∷ one_frame ∷ [])).1
      ≡ take 2 (replicate 5 (silence 4) ++ map echo (one_frame ∷ one_frame ∷ [])))
    × (stats (loop_back echo fresh.0 (one_frame ∷ one_frame ∷ [])).0 ≡ (0, 0))
loop_back-prompt_example = loop_back-prompt echo 2 1 (one_frame ∷ one_frame ∷ []) fresh.2 fresh.3

calls_refine_example :
    (
      view (calls fresh.0 (Op.capture one_frame ∷ Op.render ∷ [])).0,
      (calls fresh.0 (Op.capture one_frame ∷ Op.render ∷ [])).1,
    )
    ≡ run 2 1 (view fresh.0) (Op.capture one_frame ∷ Op.render ∷ [])
calls_refine_example = calls_refine (Op.capture one_frame ∷ Op.render ∷ []) fresh.2

-- A full ring of two numbers.
abbrev full_ring : Fifo ℕ
full_ring = record { frames = 7 ∷ 8 ∷ []; start = 1; len = 2 }

abbrev card : DeviceSpec
card = record {
  fw_version = 0x0107;
  hw_subtype = 1;
  num_erp = 0;
  num_analog_in = 0;
  num_digital_in = 0;
  num_digital_out = 0;
  num_analog_audio_out = 4;
  num_analog_audio_in = 4;
  num_digital_audio_out = 0;
  num_digital_audio_in = 0;
  num_midi_out = 1;
  num_midi_in = 1;
  data_alignment = 2;
}

parse_reply-spec_bytes_example :
    parse_reply (0x01 ∷ (spec_bytes card ++ (9 ∷ []))) ≡ some (device_info card)
parse_reply-spec_bytes_example = parse_reply-spec_bytes card (9 ∷ [])

abbrev two_bytes : List ℕ
two_bytes = 3 ∷ 4 ∷ []

-- The four samples of a frame of the card.
abbrev four : Frame
four = pos 1 ∷ negsuc 1 ∷ pos 3 ∷ negsuc 8388607 ∷ []

abbrev four_small : AllFrames (four ∷ [])
four_small = (
  (
    (omega arith, omega arith),
    (omega arith, omega arith),
    (omega arith, omega arith),
    (omega arith, omega arith),
  ),
  tt,
)

decode_capture-capture_packet_example :
    decode_capture (capture_packet (four ∷ []) ++ (255 ∷ []))
    ≡ (record { frames = 1; check_errors = 0; output_rejected = false }, four ∷ [])
decode_capture-capture_packet_example =
    decode_capture-capture_packet (four ∷ []) (255 ∷ []) four_small (omega arith)

abbrev zeroed : ℕ → List ℕ
zeroed n = replicate n 0

-- A closure that always gives the same frame.
abbrev always : ℕ → ℕ × Frame
always n = (n + 1, four)

encode-receive_example :
    let (e', _, bytes) = encode always default_encoder (zeroed 16) 0 in
    let (w', pairs) = receive (record { first0 = 0; first1 = 0 }) bytes in
    (last : ℤ × ℤ) × Between last e' w'
    × (pairs ++ (last ∷ [])
        ≡ (pos 0, pos 0) ∷ pairs_of (frames_from always (length (zeroed 16) / 16) 0))
unfolding frames_from to_be24
encode-receive_example =
    encode-receive always default_encoder (zeroed 16) 0 (pos 0, pos 0)
      (record { first0 = 0; first1 = 0 })
      (record {
        bytes0 = refl;
        bytes1 = refl;
        small = ((omega arith, omega arith), (omega arith, omega arith));
      })
      refl four_small

center-run_example :
    let (r', popped) =
      Ratio.run
        (pos 1 ∷ [])
        2
        (Resample.reset 2 48000 44100 (Resample.boxed 2))
        (Ratio.feed one_frame ∷ Ratio.fetch ∷ []) in
    r'.center ≡ popped * 48000 / 44100
center-run_example =
    center-run (pos 1 ∷ []) 2 48000 44100 (Resample.boxed 2)
      (Ratio.feed one_frame ∷ Ratio.fetch ∷ []) (omega arith) (omega arith)

-- A resampler from 48 kHz to 44.1 kHz after its first frame.
abbrev converter : Resampler
converter = Resample.reset 2 48000 44100 (Resample.boxed 2)

nothing_yet : (Resample.pop (pos 1 ∷ []) 2 converter).1 ≡ none
unfolding Resample.pop Resample.reset
nothing_yet = ground arith

pop-converts_example : (Resample.pop (pos 1 ∷ []) 2 (Resample.push converter one_frame)).1 ≡ (
    if leb 1 (0 + (Resample.push converter one_frame).taps)
    then none
    else some (
        Resample.output
          (pos 1 ∷ [])
          2
          (before 2 (one_frame ∷ []) 0)
          (after (one_frame ∷ []) 0)
          (Resample.push converter one_frame)))
pop-converts_example =
    pop-converts (pos 1 ∷ []) 2 48000 44100
      (record { from_pos = omega arith; to_pos = omega arith; near = omega arith })
      (Used.pushes one_frame (Used.fresh (Resample.boxed 2)) nothing_yet) (omega arith)

reset_bounds_example :
    let r' = Resample.reset 2 192000 44100 (Resample.boxed 2) in
    2 * r'.taps + Resample.div_ceil r'.down r'.up + 1 < 512
reset_bounds_example =
    reset_bounds 2 (record { from_pos = omega arith; to_pos = omega arith; near = omega arith })
      (Resample.boxed 2)
