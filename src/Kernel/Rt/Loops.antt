-- ===== src/Kernel/Rt/Loops.antt =====
-- The loops of `render` and `capture` in driver/ak1-acx/src/rt.rs come to an end.
use native.Mathlib.Nat
use ak1_driver.Prelude.{
  ℕ, zero, suc, ◌+◌, ◌*◌, ◌/◌, ◌≤◌, ◌<◌, ◌≡◌, refl, sym, ap, subst, ◌∙◌, ◌⊎◌, List, Option, none,
  some, arith, dec_lt,
}
use ak1_driver.Prelude.Int.{ℤ}
use ak1_driver.Proto.Resample as Resample
use ak1_driver.Proto.Resample.{Frame, Resampler}
use ak1_driver.Proto.Resample.Ratio.{pop_cases}
use ak1_driver.Kernel.Rt.{
  RtStream, frame_bytes, advance, render_frame, capture_frame, render_loop, capture_loop,
}

-- Moving a frame leaves the resampler alone.
advance-resampler : (s : RtStream) (qpc : ℕ) → (advance s qpc).resampler ≡ s.resampler
unfolding advance
advance-resampler s qpc = ground arith

render_frame-resampler : (s : RtStream) (qpc : ℕ) → (render_frame s qpc).0.resampler ≡ s.resampler
unfolding render_frame
render_frame-resampler s qpc = moved (frame_bytes s) refl
  where
    moved :
        (b : Option (ℕ × ℕ)) → frame_bytes s ≡ b → (render_frame s qpc).0.resampler ≡ s.resampler
    moved none e = rw (e, render_frame) refl
    moved (some at) e = rw (e, render_frame) (advance-resampler s qpc)

capture_frame-resampler :
    (s : RtStream) (frame : Frame) (qpc : ℕ) → (capture_frame s frame qpc).resampler ≡ s.resampler
unfolding capture_frame
capture_frame-resampler s frame qpc = moved (frame_bytes s) refl
  where
    moved :
        (b : Option (ℕ × ℕ))
        → frame_bytes s ≡ b
        → (capture_frame s frame qpc).resampler ≡ s.resampler
    moved none e = rw (e, capture_frame) (advance-resampler s qpc)
    moved (some at) e = rw (e, capture_frame) (advance-resampler _ qpc)

module _ (kernel : List ℤ) where
  pop_ready :
      (r : Resampler)
      → 0 < r.up
      → r.center + r.taps < r.pushed
      → (frame : Frame) × (Resample.pop kernel 2 r ≡ (Resample.advance r, some frame))
  pop_ready r h k =
      pop_cases kernel 2 (λ p. (frame : Frame) × (p ≡ (Resample.advance r, some frame))) r
        (λ b. absurd (blocked b)) (λ a b. (_, refl))
    where
      blocked : (r.up ≡ 0) ⊎ (r.pushed ≤ r.center + r.taps) → ⊥
      blocked b = ground arith

  pop_blocked : (r : Resampler) → r.pushed ≤ r.center + r.taps → Resample.pop kernel 2 r ≡ (r, none)
  pop_blocked r k =
      pop_cases kernel 2 (λ p. p ≡ (r, none)) r (λ b. refl) (λ a b. absurd (omega arith))

  render_loop-some :
      (fuel : ℕ) (s : RtStream) (qpc : ℕ) (r : Resampler) (frame : Frame)
      → Resample.pop kernel 2 s.resampler ≡ (r, some frame)
      → render_loop kernel (suc fuel) s qpc ≡ some (record s { resampler = r }, frame)
  unfolding render_loop
  render_loop-some fuel s qpc r frame e =
      rw (e, render_loop)
        (ap (λ (p : Resampler × Option Frame). some (record s { resampler = p.0 }, frame)) e)

  render_loop-none :
      (fuel : ℕ) (s : RtStream) (qpc : ℕ) (r : Resampler)
      → Resample.pop kernel 2 s.resampler ≡ (r, none)
      → render_loop kernel (suc fuel) s qpc
        ≡ render_loop kernel fuel
            (record (render_frame s qpc).0 {
              resampler = Resample.push (render_frame s qpc).0.resampler (render_frame s qpc).1;
            })
            qpc
  unfolding render_loop
  render_loop-none fuel s qpc r e = rw (e, render_loop) refl

  capture_loop-none :
      (fuel : ℕ) (s : RtStream) (qpc : ℕ) (r : Resampler)
      → Resample.pop kernel 2 s.resampler ≡ (r, none)
      → capture_loop kernel (suc fuel) s qpc ≡ some s
  unfolding capture_loop
  capture_loop-none fuel s qpc r e = rw (e, capture_loop) refl

  capture_loop-some :
      (fuel : ℕ) (s : RtStream) (qpc : ℕ) (r : Resampler) (frame : Frame)
      → Resample.pop kernel 2 s.resampler ≡ (r, some frame)
      → capture_loop kernel (suc fuel) s qpc
        ≡ capture_loop kernel fuel (capture_frame (record s { resampler = r }) frame qpc) qpc
  unfolding capture_loop
  capture_loop-some fuel s qpc r frame e =
      rw (e, capture_loop)
        (ap
          (λ (p : Resampler × Option Frame).
            capture_loop kernel fuel (capture_frame (record s { resampler = p.0 }) frame qpc) qpc)
          e)

  push-pushed :
      (r : Resampler) (frame : Frame)
      → ((Resample.push r frame).pushed ≡ r.pushed + 1)
        × ((Resample.push r frame).up ≡ r.up)
        × ((Resample.push r frame).center ≡ r.center)
        × ((Resample.push r frame).taps ≡ r.taps)
  unfolding Resample.push
  push-pushed r frame = (refl, refl, refl, refl)

  -- With a rate ratio set and at most `fuel` frames missing before one can be popped,
  -- the loop of `render` comes to a frame within `fuel + 1` turns.
  pub render_loop-returns :
      (fuel : ℕ) (s : RtStream) (qpc : ℕ)
      → 0 < s.resampler.up
      → s.resampler.center + s.resampler.taps < s.resampler.pushed + fuel
      → (s' : RtStream) × (frame : Frame) × (render_loop kernel (suc fuel) s qpc ≡ some (s', frame))
  render_loop-returns zero s qpc h k =
      let (frame, e) = pop_ready s.resampler h (omega arith) in
      (_, frame, render_loop-some 0 s qpc _ frame e)
  render_loop-returns (suc fuel) s qpc h k =
      elim (dec_lt (s.resampler.center + s.resampler.taps) s.resampler.pushed) [
        | yes p ↦
            let (frame, e) = pop_ready s.resampler h p in
            (_, frame, render_loop-some (suc fuel) s qpc _ frame e)
        | no p ↦
            let (s', read) = render_frame s qpc in
            let same : s'.resampler ≡ s.resampler = render_frame-resampler s qpc in
            let (pushed, up, center, taps) = push-pushed s.resampler read in
            let (end, frame, e) =
              render_loop-returns fuel (record s' { resampler = Resample.push s'.resampler read })
                qpc (subst (λ (r : Resampler). 0 < (Resample.push r read).up) (sym same) (rw up h))
                (subst
                  (λ (r : Resampler).
                    (Resample.push r read).center + (Resample.push r read).taps
                    < (Resample.push r read).pushed + fuel)
                  (sym same) (omega (arith, k, pushed, center, taps))) in
            (
              end,
              frame,
              render_loop-none (suc fuel) s qpc s.resampler
                    (pop_blocked s.resampler (omega (arith, p)))
                  ∙ e,
            )
      ]

  advance-time :
      (r : Resampler)
      → 0 < r.up
      → let r' = Resample.advance r in
        (r'.center * r'.up + r'.phase ≡ r.center * r.up + r.phase + r.down)
        × (r'.phase < r'.up)
        × (r'.taps ≡ r.taps)
        × (r'.up ≡ r.up)
        × (r'.down ≡ r.down)
        × (r'.pushed ≡ r.pushed)
  unfolding Resample.advance
  advance-time r h = (
    omega (
      arith,
      Nat.div-add-mod (r.phase + r.down) r.up,
      Nat.mul_comm r.up ((r.phase + r.down) / r.up),
      Nat.add-mul r.center ((r.phase + r.down) / r.up) r.up,
    ),
    Nat.mod-lt (r.phase + r.down) h,
    refl,
    refl,
    refl,
    refl,
  )

  behind :
      (r : Resampler) (fuel : ℕ)
      → 0 < r.down
      → 0 < r.up
      → r.pushed * r.up ≤ (r.center + r.taps) * r.up + r.phase + suc fuel
      → let r' = Resample.advance r in
        r'.pushed * r'.up ≤ (r'.center + r'.taps) * r'.up + r'.phase + fuel
  unfolding Resample.advance
  behind r fuel d h k =
      let turns = (r.phase + r.down) / r.up in
      omega (
        arith,
        Nat.div-add-mod (r.phase + r.down) r.up,
        Nat.mul_comm r.up turns,
        Nat.add-mul (r.center + turns) r.taps r.up,
        Nat.add-mul r.center turns r.up,
        Nat.add-mul r.center r.taps r.up,
      )

  drained :
      (r : Resampler)
      → r.phase < r.up
      → r.pushed * r.up ≤ (r.center + r.taps) * r.up + r.phase
      → r.pushed ≤ r.center + r.taps
  drained r h k = elim (dec_lt (r.center + r.taps) r.pushed) [
    | yes p ↦
        absurd (omega (arith, Nat.add-mul (r.center + r.taps) 1 r.up, Nat.mul-le-mul_right r.up p))
    | no p ↦ omega (arith, p)
  ]

  -- With a rate ratio set and the output no more than `fuel` units of 1/`up` samples behind, the loop of
  -- `capture` ends within `fuel + 1` turns, having pushed nothing and with no frame left to pop.
  pub capture_loop-returns :
      (fuel : ℕ) (s : RtStream) (qpc : ℕ)
      → 0 < s.resampler.down
      → s.resampler.phase < s.resampler.up
      → s.resampler.pushed * s.resampler.up
        ≤ (s.resampler.center + s.resampler.taps) * s.resampler.up + s.resampler.phase + fuel
      → (s' : RtStream) × (capture_loop kernel (suc fuel) s qpc ≡ some s')
        × (s'.resampler.pushed ≤ s'.resampler.center + s'.resampler.taps)
        × (s'.resampler.pushed ≡ s.resampler.pushed)
  capture_loop-returns zero s qpc d h k =
      let end = drained s.resampler h (omega arith) in
      (s, capture_loop-none 0 s qpc s.resampler (pop_blocked s.resampler end), end, refl)
  capture_loop-returns (suc fuel) s qpc d h k =
      elim (dec_lt (s.resampler.center + s.resampler.taps) s.resampler.pushed) [
        | no p ↦ (
          s,
          capture_loop-none (suc fuel) s qpc s.resampler
              (pop_blocked s.resampler (omega (arith, p))),
          omega (arith, p),
          refl,
        )
        | yes p ↦
            let (frame, e) = pop_ready s.resampler (omega arith) p in
            let (time, phase, taps, up, down, pushed) = advance-time s.resampler (omega arith) in
            let s' =
              capture_frame (record s { resampler = Resample.advance s.resampler }) frame qpc in
            let same : s'.resampler ≡ Resample.advance s.resampler =
              capture_frame-resampler (record s { resampler = Resample.advance s.resampler }) frame
                qpc in
            let (end, e', rest, kept) =
              capture_loop-returns fuel s' qpc
                (subst (λ (r : Resampler). 0 < r.down) (sym same) (rw down d))
                (subst (λ (r : Resampler). r.phase < r.up) (sym same) phase)
                (subst
                  (λ (r : Resampler). r.pushed * r.up ≤ (r.center + r.taps) * r.up + r.phase + fuel)
                  (sym same) (behind s.resampler fuel d (omega arith) k)) in
            (
              end,
              capture_loop-some (suc fuel) s qpc _ frame e ∙ e',
              rest,
              kept ∙ ap (λ (r : Resampler). r.pushed) same ∙ pushed,
            )
      ]
