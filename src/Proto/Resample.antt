-- ===== src/Proto/Resample.antt =====
-- The resampler of crates/ak1-proto/src/resample.rs. Its kernel table is generated when the crate is
-- built (crates/ak1-proto/build.rs), so it is a parameter; 64-bit sums are integers without bound.
pub mod Gcd
pub mod Ratio
pub mod History
pub mod Convert
use mathlib.Core.WellFounded
use mathlib.Core.WellFounded.{Acc}
use ak1_driver.Prelude.Order.{lt_wf}
use ak1_driver.Prelude.{
  ℕ, zero, suc, ◌+◌, ◌-◌, ◌*◌, ◌/◌, ◌%◌, ◌^◌, ◌<◌, min, max, Bool, true, false, ◌||◌, List, [], ◌∷◌,
  Option, none, some, map, get_or, set, replicate, ltb, leb, ◌==◌, if◌then◌else◌, dec_lt, arith,
}
use ak1_driver.Prelude.Int.{ℤ, pos, negsuc, ◌+ℤ◌, ◌-ℤ◌, ◌*ℤ◌, shr, clamp}

-- `ZERO_CROSSINGS` and `STEPS` of the build script.
abbrev pub zero_crossings : ℕ
zero_crossings = 32

abbrev pub steps : ℕ
steps = 256

abbrev pub history_frames : ℕ
history_frames = 512

abbrev pub max_sample : ℤ
max_sample = pos (2 ^ 23 - 1)

abbrev pub min_sample : ℤ
min_sample = negsuc (2 ^ 23 - 1)

abbrev pub Frame : Type 0
Frame = List ℤ

abbrev pub zeros : ℕ → Frame
zeros channels = replicate channels (pos 0)

-- `while b != 0 { (a, b) = (b, a % b) }`.
gcd_acc : (a b : ℕ) → Acc ◌<◌ b → ℕ
gcd_acc a zero (Acc.intro _ _) = a
gcd_acc a (suc b) (Acc.intro _ smaller) =
    gcd_acc (suc b) (a % suc b) (smaller (a % suc b) (omega arith))

unfoldable pub gcd : ℕ → ℕ → ℕ
unfolding gcd_acc lt_wf
gcd a b = gcd_acc a b (lt_wf.apply b)

-- `div_ceil`, for a divisor that is not 0.
abbrev pub div_ceil : ℕ → ℕ → ℕ
div_ceil a b = (a + (b - 1)) / b

pub record Resampler : Type 0 where
  pub from_rate : ℕ
  pub to_rate : ℕ
  pub up : ℕ
  pub down : ℕ
  pub scale : ℕ
  pub taps : ℕ
  pub gain : ℕ
  pub reciprocal : ℕ
  pub step_index : ℕ
  pub step_fraction : ℕ
  pub pushed : ℕ
  pub center : ℕ
  pub phase : ℕ
  pub history : List Frame

module _ (channels : ℕ) where
  -- All zero: what `boxed` makes, and what `new` starts from.
  unfoldable pub boxed : Resampler
  boxed = record {
    from_rate = 0;
    to_rate = 0;
    up = 0;
    down = 0;
    scale = 0;
    taps = 0;
    gain = 0;
    reciprocal = 0;
    step_index = 0;
    step_fraction = 0;
    pushed = 0;
    center = 0;
    phase = 0;
    history = replicate history_frames (zeros channels);
  }

  -- Starts over converting from `from_hz` to `to_hz`.
  unfoldable pub reset : (from_hz to_hz : ℕ) → Resampler → Resampler
  reset from_hz to_hz r =
      let common = gcd from_hz to_hz in
      let up = to_hz / common in
      let down = from_hz / common in
      let scale = max up down in
      record r {
        from_rate = from_hz;
        to_rate = to_hz;
        up = up;
        down = down;
        scale = scale;
        taps = div_ceil (zero_crossings * scale) up;
        gain = if ltb up down then up * 2 ^ 16 / down else 0;
        reciprocal = 2 ^ 32 / scale;
        step_index = up * steps / scale;
        step_fraction = up * steps % scale;
        pushed = 0;
        center = 0;
        phase = 0;
        history = replicate history_frames (zeros channels);
      }

  unfoldable pub new : (from_hz to_hz : ℕ) → Resampler
  unfolding boxed reset
  new from_hz to_hz = reset from_hz to_hz boxed

-- Stops converting until the next `reset`.
unfoldable pub clear : Resampler → Resampler
clear r = record r { from_rate = 0; to_rate = 0; up = 0 }

unfoldable pub push : Resampler → Frame → Resampler
push r frame = record r {
  history = set r.history (r.pushed % history_frames) frame;
  pushed = r.pushed + 1;
}

-- `*sum += sample * coefficient` for each channel.
pub add_frame : Frame → ℤ → Frame → Frame
add_frame [] coefficient frame = []
add_frame (sum ∷ sums) coefficient [] = sum ∷ sums
add_frame (sum ∷ sums) coefficient (sample ∷ frame) =
    (sum +ℤ sample *ℤ coefficient) ∷ add_frame sums coefficient frame

-- The frame of a tap in the ring: an `i64` position before the stream's start wraps to a `usize`.
unfoldable pub history_before : Resampler → ℕ → Frame
history_before r tap = get_or r.history ((r.center + 2 ^ 64 - tap) % 2 ^ 64 % history_frames) []

unfoldable pub history_after : Resampler → ℕ → Frame
history_after r tap = get_or r.history ((r.center + 1 + tap) % history_frames) []

-- Rounds a sum to a 24-bit sample.
unfoldable pub finish : ℤ → ℤ
finish sum = clamp min_sample max_sample (shr (sum +ℤ pos (2 ^ 29)) 30)

-- The next output's time: `phase` / `up` past the input sample `center`.
unfoldable pub advance : Resampler → Resampler
advance r =
    let phase = r.phase + r.down in
    record r { center = r.center + phase / r.up; phase = phase % r.up }

-- `KERNEL` is `kernel`; a read behind the table would be 0.
module _ (kernel : List ℤ) where
  -- The kernel's value `fraction` / `scale` past entry `index`, for converting down times `gain`.
  unfoldable pub coefficient_at : Resampler → (index fraction : ℕ) → ℤ
  coefficient_at r index fraction =
      let left = get_or kernel index (pos 0) in
      let right = get_or kernel (index + 1) (pos 0) in
      let weight = fraction * r.reciprocal / 2 ^ 16 in
      let coefficient = left +ℤ shr ((right -ℤ left) *ℤ pos weight) 16 in
      if r.gain == 0 then coefficient else shr (coefficient *ℤ pos r.gain) 16

  -- The loop of `add_side` over `n` taps from `tap` on; `frame_at` gives the frame of a tap.
  pub add_taps : Resampler → (frame_at : ℕ → Frame) → (n tap index fraction : ℕ) → Frame → Frame
  add_taps r frame_at zero tap index fraction sums = sums
  add_taps r frame_at (suc n) tap index fraction sums =
      let wraps = leb r.scale (fraction + r.step_fraction) in
      let next_index = if wraps then index + r.step_index + 1 else index + r.step_index in
      let next_fraction =
        if wraps then fraction + r.step_fraction - r.scale else fraction + r.step_fraction in
      let rest =
        add_taps r frame_at n (tap + 1) next_index next_fraction
          (add_frame sums (coefficient_at r index fraction) (frame_at tap)) in
      if leb (zero_crossings * steps) index then sums else rest

  -- Adds the taps on one side, the first `distance` / `up` input samples away from the output.
  unfoldable pub add_side : Resampler → (frame_at : ℕ → Frame) → (distance : ℕ) → Frame → Frame
  unfolding add_taps
  add_side r frame_at distance sums =
      let position = distance * steps in
      add_taps r frame_at r.taps 0 (position / r.scale) (position % r.scale) sums

  unfoldable pub output : (channels : ℕ) → (before after : ℕ → Frame) → Resampler → Frame
  unfolding add_side finish
  output channels before after r =
      map finish (add_side r after (r.up - r.phase) (add_side r before r.phase (zeros channels)))

  -- The next output frame, once enough input has been pushed.
  unfoldable pub pop : (channels : ℕ) → Resampler → Resampler × Option Frame
  unfolding output advance history_before history_after
  pop channels r =
      if r.up == 0 || leb r.pushed (r.center + r.taps)
      then (r, none)
      else (advance r, some (output channels (history_before r) (history_after r) r))
