-- ===== src/Proto/Resample/Convert.antt =====
-- A resampler of crates/ak1-proto/src/resample.rs from its reset on, used the way driver/ak1-acx/src/rt.rs does: a frame
-- is pushed only when nothing is left to pop. The resampler's debug assertion about its ring holds for such rates.
use native.Mathlib.Nat
use ak1_driver.Prelude.{
  Bool, ℕ, ◌+◌, ◌*◌, ◌/◌, ◌^◌, ◌≤◌, ◌<◌, ◌≡◌, ◌∙◌, subst, ◌||◌, max, List, [], ◌∷◌, ◌++◌, Option,
  none, some, arith, length, leb, ◌==◌, if◌then◌else◌,
}
use ak1_driver.Prelude.Int.{ℤ}
use ak1_driver.Proto.Wire.{SampleRate, hz44100, hz48000, hz88200, hz96000, hz192000, hz}
use ak1_driver.Proto.Resample.{
  Frame, Resampler, history_frames, zero_crossings, div_ceil, gcd, reset, push, pop, advance,
  output,
}
use ak1_driver.Proto.Resample.Ratio.{
  IsOnTime, center_eq, push-IsOnTime, advance-IsOnTime, reset-IsOnTime, pop_cases, count,
}
use ak1_driver.Proto.Resample.History.{
  Holds, reset-Holds, push-Holds, advance-Holds, before, after, pop-Holds,
}

-- Rates of which the first is at most 7 times the second.
pub record AreNear (from_hz to_hz : ℕ) : Type 0 where
  pub from_pos : 0 < from_hz
  pub to_pos : 0 < to_hz
  pub near : from_hz ≤ 7 * to_hz

hz_bounds : (rate : SampleRate) → (44100 ≤ hz rate) × (hz rate ≤ 192000)
unfolding hz
hz_bounds hz44100 = omega arith
hz_bounds hz48000 = omega arith
hz_bounds hz88200 = omega arith
hz_bounds hz96000 = omega arith
hz_bounds hz192000 = omega arith

-- The rates between which streams are converted are near.
pub hz-AreNear : (stream card : SampleRate) → AreNear (hz stream) (hz card)
hz-AreNear stream card = record {
  from_pos = omega (arith, hz_bounds stream);
  to_pos = omega (arith, hz_bounds card);
  near = omega (arith, hz_bounds stream, hz_bounds card);
}

-- The sizes that keep the taps of the next output inside the ring.
record IsTight (r : Resampler) : Type 0 where
  down_le : r.down ≤ 7 * r.up
  up_pos : 0 < r.up
  taps_le : r.taps ≤ 224
  phase_lt : r.phase < r.up
  drained : r.pushed ≤ r.center + r.taps + 1
  center_le : r.center ≤ r.pushed + 7

taps_le_of :
    (up down : ℕ) → 0 < up → down ≤ 7 * up → div_ceil (zero_crossings * max up down) up ≤ 224
taps_le_of up down h k =
    let bounded : max up down ≤ 7 * up = ground arith in
    let below : div_ceil (zero_crossings * max up down) up < 225 =
      (Nat.div-lt_iff_lt-mul h).1 (omega (arith, bounded)) in
    omega (arith, below)

down_le_of :
    (up : ℕ) {down common from_hz to_hz : ℕ}
    → from_hz ≡ down * common
    → to_hz ≡ up * common
    → 0 < common
    → from_hz ≤ 7 * to_hz
    → down ≤ 7 * up
down_le_of up {down} {common} e f h k =
    Nat.le_of_mul-le-mul_right (omega (arith, Nat.mul_assoc 7 up common)) h

module _ (channels : ℕ) {from_hz to_hz : ℕ} (v : AreNear from_hz to_hz) (r : Resampler) where
  reset-down_le : (reset channels from_hz to_hz r).down ≤ 7 * (reset channels from_hz to_hz r).up
  reset-down_le =
      let w = reset-IsOnTime channels from_hz to_hz r v.from_pos v.to_pos in
      down_le_of _ w.from_eq w.to_eq w.common_pos v.near

  reset-taps_le : (reset channels from_hz to_hz r).taps ≤ 224
  unfolding reset
  reset-taps_le =
      taps_le_of _ _ (reset-IsOnTime channels from_hz to_hz r v.from_pos v.to_pos).up_pos
        reset-down_le

  reset-IsTight : IsTight (reset channels from_hz to_hz r)
  unfolding reset
  reset-IsTight =
      let w = reset-IsOnTime channels from_hz to_hz r v.from_pos v.to_pos in
      record {
        down_le = reset-down_le;
        up_pos = w.up_pos;
        taps_le = reset-taps_le;
        phase_lt = w.phase_lt;
        drained = omega arith;
        center_le = omega arith;
      }

-- For rates of which the first is at most 7 times the second the debug assertion of `reset` holds: twice the taps of a
-- side, and the frames by which an output may move on, are fewer than the ring holds.
pub reset_bounds :
    (channels : ℕ) {from_hz to_hz : ℕ}
    → AreNear from_hz to_hz
    → (r : Resampler)
    → let r' = reset channels from_hz to_hz r in
      2 * r'.taps + div_ceil r'.down r'.up + 1 < history_frames
reset_bounds channels {from_hz} {to_hz} v r =
    let w = reset-IsTight channels v r in
    let r' = reset channels from_hz to_hz r in
    let few : div_ceil r'.down r'.up < 8 =
      (Nat.div-lt_iff_lt-mul w.up_pos).1 (omega (arith, w.down_le, w.up_pos)) in
    omega (arith, few, w.taps_le)

module _ {r : Resampler} (v : IsTight r) where
  push-IsTight : (frame : Frame) → r.pushed ≤ r.center + r.taps → IsTight (push r frame)
  unfolding push
  push-IsTight frame h = ground arith

  advance-IsTight : r.center + r.taps < r.pushed → IsTight (advance r)
  unfolding advance
  advance-IsTight h =
      let moved : (r.phase + r.down) / r.up < 8 =
        (Nat.div-lt_iff_lt-mul v.up_pos).1 (omega (arith, v.down_le, v.phase_lt)) in
      record {
        down_le = v.down_le;
        up_pos = v.up_pos;
        taps_le = v.taps_le;
        phase_lt = Nat.mod-lt (r.phase + r.down) v.up_pos;
        drained = omega (arith, v.drained);
        center_le = omega (arith, moved);
      }

module _ (kernel : List ℤ) (channels from_hz to_hz : ℕ) where
  -- A resampler since its reset, by what was pushed and how many frames were popped.
  pub data Used : List Frame → ℕ → Resampler → Type 0 where
    fresh : (r : Resampler) → Used [] 0 (reset channels from_hz to_hz r)
    pushes :
        {input : List Frame} {popped : ℕ} {r : Resampler} (frame : Frame)
        → Used input popped r
        → (pop kernel channels r).1 ≡ none
        → Used (input ++ (frame ∷ [])) popped (push r frame)
    pops :
        {input : List Frame} {popped : ℕ} {r : Resampler}
        → Used input popped r
        → Used input
            (popped + count kernel channels (pop kernel channels r).1)
            (pop kernel channels r).0

  record IsFit (input : List Frame) (popped : ℕ) (r : Resampler) : Type 0 where
    on_time : IsOnTime (gcd from_hz to_hz) from_hz to_hz popped r
    holds : Holds channels input r
    tight : IsTight r

  none_left :
      (r : Resampler) → 0 < r.up → (pop kernel channels r).1 ≡ none → r.pushed ≤ r.center + r.taps
  none_left r h =
      pop_cases kernel channels (λ p. p.1 ≡ none → r.pushed ≤ r.center + r.taps) r
        (λ e _. ground arith) (λ _ k e. ground arith)

  pop-IsFit :
      {input : List Frame} {popped : ℕ} {r : Resampler}
      → IsFit input popped r
      → IsFit input
          (popped + count kernel channels (pop kernel channels r).1)
          (pop kernel channels r).0
  pop-IsFit {input} {popped} {r} v =
      pop_cases kernel channels (λ p. IsFit input (popped + count kernel channels p.1) p.0) r
        (λ h. subst (λ n. IsFit input n r) (omega arith) v)
        (λ h k.
          subst (λ n. IsFit input n (advance r)) (omega arith)
            (record {
              on_time = advance-IsOnTime v.on_time;
              holds = advance-Holds v.holds;
              tight = advance-IsTight v.tight k;
            }))

  Used-IsFit :
      AreNear from_hz to_hz
      → {input : List Frame} {popped : ℕ} {r : Resampler} → Used input popped r
      → IsFit input popped r
  Used-IsFit v (Used.fresh r) = record {
    on_time = reset-IsOnTime channels from_hz to_hz r v.from_pos v.to_pos;
    holds = reset-Holds channels from_hz to_hz r;
    tight = reset-IsTight channels v r;
  }
  Used-IsFit v (Used.pushes frame u e) =
      let w = Used-IsFit v u in
      record {
        on_time = push-IsOnTime w.on_time frame;
        holds = push-Holds w.holds frame;
        tight = push-IsTight w.tight frame (none_left _ w.tight.up_pos e);
      }
  Used-IsFit v (Used.pops u) = pop-IsFit (Used-IsFit v u)

  if_up :
      (up : ℕ) (b : Bool) (x : Option Frame)
      → 0 < up
      → (if up == 0 || b then none else x) ≡ (if b then none else x)
  if_up up b x h = ground arith

  -- A resampler that converts between near rates, and since its reset was popped empty before each push, computes
  -- from fewer than 2 ^ 62 frames each output as the sum of the kernel over all frames that were pushed, and not
  -- only those still in its ring: around the frame that the ratio of the rates gives for the number of outputs
  -- before it, with silence before the first. It has an output once `taps` frames
  -- follow that one.
  pub pop-converts :
      AreNear from_hz to_hz
      → {input : List Frame} {popped : ℕ} {r : Resampler} → Used input popped r
      → length input < 2 ^ 62
      → let center = popped * from_hz / to_hz in
        (pop kernel channels r).1 ≡ (
          if leb (length input) (center + r.taps)
          then none
          else some (output kernel channels (before channels input center) (after input center) r))
  pop-converts v {input} {popped} {r} u h =
      let w = Used-IsFit v u in
      rw (← center_eq w.on_time, ← w.holds.pushed_eq)
        ((pop-Holds kernel w.holds (omega (arith, w.tight.taps_le)) w.tight.drained
            (omega (arith, w.tight.center_le, w.holds.pushed_eq))).1
          ∙ if_up _ _ _ w.tight.up_pos)
