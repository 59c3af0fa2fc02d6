-- ===== src/Proto/Buffers/Spec.antt =====
-- What the `Buffers` of crates/ak1-proto/src/asio.rs promise, over plain lists of frames: the input
-- and output queues are the lists, oldest frame first, bounded by the capacities of the code.
use ak1_driver.Prelude.{
  ℕ, ◌+◌, ◌*◌, Bool, true, false, List, [], ◌∷◌, ◌++◌, Option, none, some, length, take, drop,
  replicate, ltb, ◌==◌, if◌then◌else◌,
}
use ak1_driver.Proto.Fifo.Queue.{keep_last}
use ak1_driver.Proto.Buffers.{Frame, silence, outputs, count_one}

pub record State : Type 0 where
  pub input : List Frame
  pub output : List Frame
  pub captured : ℕ
  pub silent_frames : ℕ
  pub dropped_frames : ℕ

-- A call of the card's side (`capture`, `render`) or of the host's side (`read`, `write`).
pub data Op : Type 0 where
  capture : Frame → Op
  render : Op
  read : List Frame → Op
  write : List Frame → Op

pub data Reply : Type 0 where
  period_complete : Bool → Reply
  frame : Frame → Reply
  frames : List Frame → Option ℕ → Reply
  written : Bool → Reply

unfoldable pub render_spec : State → State × Reply
render_spec s = elim s.output [
  | [] ↦ (record s { silent_frames = count_one s.silent_frames }, frame (silence outputs))
  | x ∷ rest ↦ (record s { output = rest }, frame x)
]

module _ (period transfer : ℕ) where
  abbrev pub input_capacity : ℕ
  input_capacity = 4 * period + 2 * transfer

  abbrev pub output_capacity : ℕ
  output_capacity = 2 * period + transfer

  -- Output starts with silence for two periods and a transfer.
  abbrev pub start : State
  start = record {
    input = [];
    output = replicate output_capacity (silence outputs);
    captured = 0;
    silent_frames = 0;
    dropped_frames = 0;
  }

  unfoldable pub capture_spec : State → Frame → State × Reply
  capture_spec s x =
      let whole = not_below (s.captured + 1) in
      (
        record s {
          input = keep_last input_capacity (s.input ++ (x ∷ []));
          dropped_frames =
              if length s.input == input_capacity
              then count_one s.dropped_frames
              else s.dropped_frames;
          captured = if whole then 0 else s.captured + 1;
        },
        period_complete whole,
      )
    where
      not_below : ℕ → Bool
      not_below n = if ltb n period then false else true

  unfoldable pub read_spec : State → List Frame → State × Reply
  read_spec s into =
      if ltb (length into) period
      then (s, frames into none)
      else if ltb (length s.input) period
      then (s, frames into (some 0))
      else (
        record s { input = drop period s.input },
        frames (take period s.input ++ drop period into) (some period),
      )

  unfoldable pub write_spec : State → List Frame → State × Reply
  write_spec s from =
      if length from == period
      then (record s { output = keep_last output_capacity (s.output ++ from) }, written true)
      else (s, written false)

  unfoldable pub step : State → Op → State × Reply
  unfolding capture_spec render_spec read_spec write_spec
  step s (capture x) = capture_spec s x
  step s render = render_spec s
  step s (read into) = read_spec s into
  step s (write from) = write_spec s from

  unfoldable pub run : State → List Op → State × List Reply
  run s [] = (s, [])
  run s (op ∷ ops) =
      let (s', reply) = step s op in let (end, replies) = run s' ops in (end, reply ∷ replies)
