-- ===== src/Proto/Buffers.antt =====
-- `Buffers` of crates/ak1-proto/src/asio.rs: an ASIO session's frames on their way between the card
-- and the host. An operation returns the new buffers beside its result.
pub mod Spec
pub mod Refine
pub mod Created
pub mod Calls
pub mod Latency
pub mod Turns
use ak1_driver.Prelude.{
  ℕ, zero, suc, ◌+◌, ◌-◌, ◌*◌, ◌^◌, min, Bool, true, false, List, [], ◌∷◌, ◌++◌, Option, none, some,
  length, drop, replicate, ltb, ◌==◌, if◌then◌else◌, not,
}
use ak1_driver.Prelude.Int.{ℤ, pos}
use ak1_driver.Proto.Fifo.{Fifo, add_size}
use ak1_driver.Proto.Fifo

abbrev pub inputs : ℕ
inputs = 2

abbrev pub outputs : ℕ
outputs = 4

abbrev pub max_period_frames : ℕ
max_period_frames = 8192

-- `[i32; C]`.
abbrev pub Frame : Type 0
Frame = List ℤ

abbrev pub silence : ℕ → Frame
silence channels = replicate channels (pos 0)

-- `u32::saturating_add(n, 1)`.
abbrev pub count_one : ℕ → ℕ
count_one n = min (n + 1) (2 ^ 32 - 1)

-- `read_value_bytes`: a header of four bytes, and a period of input samples of four bytes each.
pub read_value_bytes : ℕ → ℕ
read_value_bytes period_frames = 4 + period_frames * inputs * 4

pub record Buffers : Type 0 where
  pub period : ℕ
  pub input : Fifo Frame
  pub output : Fifo Frame
  pub captured : ℕ
  pub silent_frames : ℕ
  pub dropped_frames : ℕ

-- `while output.push([0; OUTPUTS]) {}`, with fuel.
pub fill : ℕ → Fifo Frame → Fifo Frame
fill zero f = f
fill (suc fuel) f =
    let (f', pushed) = Fifo.push (silence outputs) f (silence outputs) in
    let rest = fill fuel f' in if pushed then rest else f'

-- The allocator's answers are arguments, in the order of the requests.
pub new : (output_granted input_granted : Bool) (period transfer : ℕ) → Option Buffers
unfolding fill
new output_granted input_granted period transfer =
    elim (Fifo.new (silence outputs) output_granted (2 * period + transfer)) [
      | none ↦ none
      | some output ↦ elim (Fifo.new (silence inputs) input_granted (4 * period + 2 * transfer)) [
        | none ↦ none
        | some input ↦ some (record {
          period = period;
          input = input;
          output = fill (2 * period + transfer + 1) output;
          captured = 0;
          silent_frames = 0;
          dropped_frames = 0;
        })
      ]
    ]

-- Takes a captured frame; says whether it completed a period.
pub capture : Buffers → Frame → Buffers × Bool
capture b frame =
    let (input, full) = Fifo.push_over (silence inputs) b.input frame in
    let dropped = if full then count_one b.dropped_frames else b.dropped_frames in
    let captured = add_size b.captured 1 in
    if ltb captured b.period
    then (record b { input = input; captured = captured; dropped_frames = dropped }, false)
    else (record b { input = input; captured = 0; dropped_frames = dropped }, true)

-- The next frame to play, silence if the host has not written it.
pub render : Buffers → Buffers × Frame
render b =
    let (output, frame) = Fifo.pop (silence outputs) b.output in
    elim frame [
      | some frame ↦ (record b { output = output }, frame)
      | none ↦
          (record b { output = output; silent_frames = count_one b.silent_frames }, silence outputs)
    ]

-- `self.input.pop().unwrap_or_default()` for each of `n` frames.
pub pop_frames : ℕ → Fifo Frame → Fifo Frame × List Frame
pop_frames zero f = (f, [])
pop_frames (suc n) f =
    let (f', frame) = Fifo.pop (silence inputs) f in
    let (rest, frames) = pop_frames n f' in
    (rest, (elim frame [ some x ↦ x | none ↦ silence inputs ]) ∷ frames)

-- Moves the oldest complete period into `into`, which is returned as it is after the call.
pub read : Buffers → List Frame → Buffers × List Frame × Option ℕ
unfolding pop_frames
read b into =
    if ltb (length into) b.period
    then (b, into, none)
    else if ltb b.input.len b.period
    then (b, into, some 0)
    else let (input, frames) = pop_frames b.period b.input in
      (record b { input = input }, frames ++ drop b.period into, some b.period)

-- `self.output.push_over(frame)` for each frame.
pub push_frames : List Frame → Fifo Frame → Fifo Frame
push_frames [] f = f
push_frames (x ∷ xs) f = push_frames xs (Fifo.push_over (silence outputs) f x).0

-- Queues a period of output; refuses a list of another length.
pub write : Buffers → List Frame → Buffers × Bool
unfolding push_frames
write b from =
    if not (length from == b.period)
    then (b, false)
    else (record b { output = push_frames from b.output }, true)

pub stats : Buffers → ℕ × ℕ
stats b = (b.silent_frames, b.dropped_frames)
