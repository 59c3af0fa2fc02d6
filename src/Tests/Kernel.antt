-- ===== src/Tests/Kernel.antt =====
-- Theorems on driver/ak1-acx/src at concrete inputs.
use ak1_driver.Prelude.{
  false, List, concat, length, ◌*◌, ◌≤◌, ℕ, ◌+◌, ◌-◌, ◌/◌, ◌≤◌, ◌<◌, ◌≡◌, ◌≢◌, refl, ◌↔◌, true, [],
  ◌∷◌, none, some, map, replicate, length, arith,
}
use ak1_driver.Prelude.Int.{ℤ, negsuc, pos}
use ak1_driver.Proto.Wire.{hz48000, hz96000}
use ak1_driver.Proto.Resample as Resample
use ak1_driver.Proto.Resample.{Resampler, Frame}
use ak1_driver.Proto.Buffers.Created.{new-IsValid}
use ak1_driver.Kernel.Session.{Session, Refusal}
use ak1_driver.Kernel.Handlers.Values.{IsWritten}
use ak1_driver.Host.Duplex.Worker.{collect, output_bytes}
use ak1_driver.Host.Duplex.Worker.Output.{write-collect}
use ak1_driver.Prelude.Int.{shr}
use ak1_driver.Prelude.{Option}
use ak1_driver.Proto.Mode2.{default_encoder}
use ak1_driver.Kernel.Stream.{Codec, IsoPacket, answer_packets}
use ak1_driver.Kernel.Stream.Pace.{answer_packets_bounds}
use ak1_driver.Kernel.Rt
use ak1_driver.Kernel.Rt.{
  Slot, RtStream, block_align, frames_per_packet, frame_bytes, render_loop, capture_loop,
}
use ak1_driver.Kernel.Rt.Packets.{
  Memory, Status, allocate_packets, free_packets, set_render_packet, get_capture_packet,
}
use ak1_driver.Kernel.Rt.Leaks.{allocate_packets-free_packets}
use ak1_driver.Kernel.Rt.Progress.{advance_all, count_up, advance_all-packets}
use ak1_driver.Kernel.Rt.Loops.{render_loop-returns, capture_loop-returns}
use ak1_driver.Kernel.Audio as Audio
use ak1_driver.Kernel.Audio.Steps.Sections.{Moment, Phase, Step, Reached, at_load, turned_back}
use ak1_driver.Kernel.Audio.Steps.Sound.{Reached-IsSound}
use ak1_driver.Kernel.Audio.Steps.Kept.{IsSound}

abbrev stream : RtStream
stream = Rt.new Slot.output12 hz48000 16

-- Memory that grants five allocations and refuses the sixth.
abbrev scarce : Memory
scarce = record { supply = true ∷ true ∷ true ∷ true ∷ true ∷ []; held = 7 }

allocate_packets-free_packets_example :
    let (s', m', status, packets) = allocate_packets stream scarce 3 400 in
    (status ≢ Status.success → m'.held ≡ 7)
    × (status ≡ Status.success → (free_packets s' m' packets 3).1.held ≡ 7)
unfolding Rt.new
allocate_packets-free_packets_example = allocate_packets-free_packets stream scarce 3 400 refl

-- A stream with two packets of two frames.
abbrev ringed : RtStream
ringed = record stream {
  ring = record {
    buffers = some (replicate 4096 0) ∷ some (replicate 4096 0) ∷ [];
    count = 2;
    packet_bytes = 8;
    first_offset = 4088;
  };
}

advance_all-packets_example :
    let s' = advance_all (record (Rt.reset ringed) { notified = [] }) (10 ∷ 20 ∷ 30 ∷ []) in
    let whole = length {A = ℕ} (10 ∷ 20 ∷ 30 ∷ []) / frames_per_packet ringed in
    (map (λ (x : ℕ × ℕ). x.0) s'.notified ≡ count_up whole)
    × ((packet : ℕ) → (set_render_packet s' packet ≡ Status.success) ↔ (packet ≡ whole + 1))
    × (0 < whole → (get_capture_packet s').0 ≡ whole - 1)
unfolding Rt.new block_align frames_per_packet
advance_all-packets_example =
    advance_all-packets ringed (10 ∷ 20 ∷ 30 ∷ []) (omega arith) (omega arith) (omega arith)

-- A stream that is resampled with one tap on a side.
abbrev resampled : RtStream
resampled = record ringed {
  resampler = record (Resample.boxed 2) { up = 1; down = 1; scale = 1; taps = 1 };
}

render_loop-returns_example :
    (s' : RtStream) × (frame : Frame) × (render_loop (pos 1 ∷ []) 3 resampled 5 ≡ some (s', frame))
unfolding Resample.boxed
render_loop-returns_example =
    render_loop-returns (pos 1 ∷ []) 2 resampled 5 (omega arith) (omega arith)

abbrev behind_by_one : RtStream
behind_by_one = record resampled { resampler = record resampled.resampler { pushed = 2 } }

capture_loop-returns_example :
    (s' : RtStream) × (capture_loop (pos 1 ∷ []) 2 behind_by_one 5 ≡ some s')
    × (s'.resampler.pushed ≤ s'.resampler.center + s'.resampler.taps)
    × (s'.resampler.pushed ≡ behind_by_one.resampler.pushed)
unfolding Resample.boxed
capture_loop-returns_example =
    capture_loop-returns (pos 1 ∷ []) 1 behind_by_one 5 (omega arith) (omega arith) (omega arith)

-- A session with a period of one frame, and an Audio that has it.
abbrev session : Session
session = record {
  owner = 5;
  signals = 0;
  buffers = (new-IsValid 1 1 (omega arith) (omega arith)).0;
}

-- While a session starts on a card that has no rate, a stream is created; then the card does not answer.
abbrev overtaken : Moment
overtaken =
    let begun = record (at_load []) {
      audio = Audio.claimed (at_load []).audio hz96000;
      phase = Phase.starting session hz96000 none;
    } in
    record begun { audio = Audio.claim_rate begun.audio hz48000; created = 1 }

overtaken_reached : Reached (at_load []) overtaken
unfolding Audio.new
overtaken_reached =
    Reached.next (Reached.next Reached.here (Step.starts session hz96000 refl refl))
      (Step.created_stream hz48000)

Reached-IsSound_example : IsSound overtaken
Reached-IsSound_example = Reached-IsSound [] overtaken_reached

-- The claim that the session gives back takes the rate of the stream.
rate_lost :
    (m : Moment) × Reached (at_load []) m
    × (m.audio.shared.streams ≡ 1)
    × (m.audio.shared.rate ≡ none)
unfolding Audio.new Audio.claim_rate Audio.stop_engine Audio.start_stopped Audio.start_engine
    Audio.give_back
rate_lost = (
  turned_back overtaken hz96000 none,
  Reached.next overtaken_reached
      (Step.refused session hz96000 none Refusal.device_not_ready refl refl),
  refl,
  refl,
)

abbrev in_session : Audio.Audio
in_session = record (Audio.new []) { asio = some session }

abbrev sample_frame : Frame
sample_frame = pos 1 ∷ negsuc 1 ∷ pos 3 ∷ negsuc 8388607 ∷ []

-- Outputs 1 and 4 are in use; of the first the host left the extremes.
abbrev left_outputs : List (Option ℕ)
left_outputs = some 0 ∷ none ∷ none ∷ some 1 ∷ []

abbrev left_memory : List (List ℤ)
left_memory = (pos 2147483647 ∷ negsuc 2147483647 ∷ []) ∷ (pos 256 ∷ negsuc 0 ∷ []) ∷ []

write-collect_example :
    IsWritten in_session session
      (output_bytes (collect left_outputs 0 2 left_memory))
      (map (map (λ x. shr x 8)) (collect left_outputs 0 2 left_memory))
write-collect_example =
    write-collect in_session session left_outputs 0 2 left_memory refl refl (omega arith)
      (omega arith)

abbrev codec : Codec
codec = record { encoder = default_encoder; nominal_remainder = 0 }

-- A lost packet, and one with a frame.
abbrev packets : List IsoPacket
packets =
    record { succeeded = false; received = 0; memory = [] }
    ∷ record { succeeded = true; received = 16; memory = replicate 512 0 }
    ∷ []

-- Operations of frames that count them.
abbrev count_at : ℕ → ℕ → ℕ
count_at n qpc = n

abbrev count_capture : ℕ → List ℤ → ℕ
count_capture n frame = n + 1

abbrev count_render : ℕ → ℕ × Frame
count_render n = (n, sample_frame)

answer_packets_bounds_example :
    let (_, _, outs) =
      answer_packets count_at count_capture count_render 48000 176 true 100 1 7 0 packets codec 0 in
    (length outs ≡ 2) × (length (concat outs) ≤ 512 * 2)
answer_packets_bounds_example =
    answer_packets_bounds count_at count_capture count_render 48000 176 true 100 1 7 0 packets codec
      0 (omega arith) (omega arith) (omega arith)
