-- ===== src/Proto/Resample/Ratio.antt =====
-- The timing of the resampler: the position it outputs at never drifts from the ratio of its rates.
use native.Mathlib.Nat
use ak1_driver.Prelude.{
  ℕ, zero, suc, ◌+◌, ◌*◌, ◌/◌, ◌≤◌, ◌<◌, ◌≡◌, refl, sym, subst, ◌⊎◌, ◌||◌, Bool, true, false, List,
  [], ◌∷◌, Option, none, some, arith, leb, ◌==◌, if◌then◌else◌,
}
use ak1_driver.Prelude.Int.{ℤ}
use ak1_driver.Proto.Resample.{
  Frame, Resampler, gcd, reset, push, pop, advance, output, history_before, history_after,
}
use ak1_driver.Proto.Resample.Gcd.{gcd_pos, gcd-dvd}

-- `common` is the divisor that brought the rates to lowest terms; `popped` frames came out.
pub record IsOnTime (common from_hz to_hz popped : ℕ) (r : Resampler) : Type 0 where
  pub common_pos : 0 < common
  pub up_pos : 0 < r.up
  pub from_eq : from_hz ≡ r.down * common
  pub to_eq : to_hz ≡ r.up * common
  pub phase_lt : r.phase < r.up
  pub position : r.center * r.up + r.phase ≡ popped * r.down

module _ {common from_hz to_hz popped : ℕ} {r : Resampler}
    (v : IsOnTime common from_hz to_hz popped r) where
  pub center_eq : r.center ≡ popped * from_hz / to_hz
  center_eq = sym (
      rw
        (
          v.from_eq,
          v.to_eq,
          ← Nat.mul_assoc popped r.down common,
          Nat.mul-div-mul_right (popped * r.down) r.up v.common_pos,
          ← v.position,
          Nat.mul-add-div_right v.up_pos r.center r.phase,
          Nat.div-eq_of_lt v.phase_lt,
        )
        (omega arith))

  pub push-IsOnTime : (frame : Frame) → IsOnTime common from_hz to_hz popped (push r frame)
  unfolding push
  push-IsOnTime frame = ground arith

  pub advance-IsOnTime : IsOnTime common from_hz to_hz (suc popped) (advance r)
  unfolding advance
  advance-IsOnTime = record {
    common_pos = v.common_pos;
    up_pos = v.up_pos;
    from_eq = v.from_eq;
    to_eq = v.to_eq;
    phase_lt = Nat.mod-lt (r.phase + r.down) v.up_pos;
    position = omega (
      arith,
      v.position,
      Nat.div-add-mod (r.phase + r.down) r.up,
      Nat.mul_comm r.up ((r.phase + r.down) / r.up),
      Nat.add-mul r.center ((r.phase + r.down) / r.up) r.up,
      Nat.add-mul 1 popped r.down,
    );
  }

pos_of_mul : (a b : ℕ) → 0 < a * b → 0 < a
pos_of_mul zero b h = absurd (omega arith)
pos_of_mul (suc a) b h = omega arith

pub reset-IsOnTime :
    (channels from_hz to_hz : ℕ) (r : Resampler)
    → 0 < from_hz
    → 0 < to_hz
    → IsOnTime (gcd from_hz to_hz) from_hz to_hz 0 (reset channels from_hz to_hz r)
unfolding reset
reset-IsOnTime channels from_hz to_hz r hf ht =
    let g = gcd_pos from_hz to_hz ht in
    let from_eq : from_hz ≡ from_hz / gcd from_hz to_hz * gcd from_hz to_hz =
      sym (Nat.div-mul_cancel (gcd from_hz to_hz) (gcd-dvd from_hz to_hz).0) in
    let to_eq : to_hz ≡ to_hz / gcd from_hz to_hz * gcd from_hz to_hz =
      sym (Nat.div-mul_cancel (gcd from_hz to_hz) (gcd-dvd from_hz to_hz).1) in
    let up_pos : 0 < to_hz / gcd from_hz to_hz =
      pos_of_mul (to_hz / gcd from_hz to_hz) (gcd from_hz to_hz) (omega (arith, to_eq)) in
    record {
      common_pos = g;
      up_pos = up_pos;
      from_eq = from_eq;
      to_eq = to_eq;
      phase_lt = up_pos;
      position = omega arith;
    }

-- A push, or a pop.
pub data Op : Type 0 where
  feed : Frame → Op
  fetch : Op

module _ (kernel : List ℤ) (channels : ℕ) where
  pop_elim :
      (P : Resampler × Option Frame → Type 0) (r : Resampler) (b : Bool)
      → ((b ≡ true) → P (r, none))
      → ((b ≡ false)
          → P (advance r, some (output kernel channels (history_before r) (history_after r) r)))
      → P (
          if b
          then (r, none)
          else (advance r, some (output kernel channels (history_before r) (history_after r) r)))
  pop_elim P r true f g = f refl
  pop_elim P r false f g = g refl

  -- `pop` either changes nothing, or puts out a frame and advances.
  pub pop_cases :
      (P : Resampler × Option Frame → Type 0) (r : Resampler)
      → ((r.up ≡ 0) ⊎ (r.pushed ≤ r.center + r.taps) → P (r, none))
      → (0 < r.up
          → r.center + r.taps < r.pushed
          → P (advance r, some (output kernel channels (history_before r) (history_after r) r)))
      → P (pop kernel channels r)
  unfolding pop
  pop_cases P r f g =
      pop_elim P r (r.up == 0 || leb r.pushed (r.center + r.taps)) (λ e. f (blocked e))
        (λ e. g (ready e).0 (ready e).1)
    where
      blocked :
          (r.up == 0 || leb r.pushed (r.center + r.taps)) ≡ true
          → (r.up ≡ 0) ⊎ (r.pushed ≤ r.center + r.taps)
      blocked e = ground arith

      ready :
          (r.up == 0 || leb r.pushed (r.center + r.taps)) ≡ false
          → (0 < r.up) × (r.center + r.taps < r.pushed)
      ready e = ground arith

  abbrev pub count : Option Frame → ℕ
  count none = 0
  count (some x) = 1

  -- The resampler after the operations, and how many frames they popped.
  pub run : Resampler → List Op → Resampler × ℕ
  run r [] = (r, 0)
  run r (Op.feed x ∷ ops) = run (push r x) ops
  run r (Op.fetch ∷ ops) =
      let (r', x) = pop kernel channels r in let (end, n) = run r' ops in (end, count x + n)

  module _ {common from_hz to_hz : ℕ} where
    pop-IsOnTime :
        {popped : ℕ} {r : Resampler}
        → IsOnTime common from_hz to_hz popped r
        → IsOnTime common from_hz to_hz
            (popped + count (pop kernel channels r).1)
            (pop kernel channels r).0
    pop-IsOnTime {popped} {r} v =
        pop_cases (λ p. IsOnTime common from_hz to_hz (popped + count p.1) p.0) r
          (λ h. subst (λ n. IsOnTime common from_hz to_hz n r) (omega arith) v)
          (λ h k.
            subst (λ n. IsOnTime common from_hz to_hz n (advance r)) (omega arith)
              (advance-IsOnTime v))

    run-IsOnTime :
        (ops : List Op) {popped : ℕ} {r : Resampler}
        → IsOnTime common from_hz to_hz popped r
        → IsOnTime common from_hz to_hz (popped + (run r ops).1) (run r ops).0
    unfolding run
    run-IsOnTime [] {popped} {r} v = subst (λ n. IsOnTime common from_hz to_hz n r) (omega arith) v
    run-IsOnTime (Op.feed x ∷ ops) v = run-IsOnTime ops (push-IsOnTime v x)
    run-IsOnTime (Op.fetch ∷ ops) {popped} {r} v =
        subst (λ n. IsOnTime common from_hz to_hz n (run (pop kernel channels r).0 ops).0)
          (omega arith) (run-IsOnTime ops (pop-IsOnTime v))

  -- After any pushes and pops since a reset, the next output stands at the input sample that the
  -- ratio of the two rates gives for the number of frames popped: no error ever adds up.
  pub center-run :
      (from_hz to_hz : ℕ) (r : Resampler) (ops : List Op)
      → 0 < from_hz
      → 0 < to_hz
      → let (r', popped) = run (reset channels from_hz to_hz r) ops in
        r'.center ≡ popped * from_hz / to_hz
  center-run from_hz to_hz r ops hf ht =
      subst (λ n. (run (reset channels from_hz to_hz r) ops).0.center ≡ n * from_hz / to_hz)
        (omega arith) (center_eq (run-IsOnTime ops (reset-IsOnTime channels from_hz to_hz r hf ht)))
