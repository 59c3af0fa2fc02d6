-- ===== src/Proto/Buffers/Created.antt =====
-- `Buffers::new` of crates/ak1-proto/src/asio.rs: the loop that fills the output ring, and the buffers it makes.
use ak1_driver.Prelude.{
  ℕ, zero, suc, ◌+◌, ◌-◌, ◌*◌, ◌^◌, ◌<◌, ◌≡◌, refl, sym, ◌∙◌, Bool, true, false, ◌∷◌, ◌++◌, none,
  some, length, replicate, arith, ℕ_discrete, ◌≢◌, append-nil, append_assoc, ◌&&◌,
}
use ak1_driver.Proto.Fifo.{Fifo, add_size}
use ak1_driver.Proto.Fifo
use ak1_driver.Proto.Fifo.Queue
use ak1_driver.Proto.Fifo.Queue.{
  contents, keep_last, length-contents, push-IsValid, pop-IsValid, length-push, length-pop,
  pop_refines, pop_empty, keep_last_append, keep_last_all, contents-push, len-push, push_room,
  push_full,
}
use ak1_driver.Proto.Fifo.Overwrite.{new_granted, new_refused}
use ak1_driver.Proto.Buffers.{Frame, silence, inputs, outputs, Buffers, fill, new}
use ak1_driver.Proto.Buffers.Spec.{start}
use ak1_driver.Proto.Buffers.Refine.{After, IsValid, queued, view}

-- One round of the filling loop.
grown :
    (room fuel : ℕ) {f : Fifo Frame} (v : Queue.IsValid f)
    → f.len ≢ length f.frames
    → After room
        (silence outputs)
        (queued (Fifo.push (silence outputs) f (silence outputs)).0
          ++ replicate
              (room - (Fifo.push (silence outputs) f (silence outputs)).0.len)
              (silence outputs))
        (fill fuel (Fifo.push (silence outputs) f (silence outputs)).0)
    → After room
        (silence outputs)
        (queued f ++ silence outputs ∷ replicate (room - (f.len + 1)) (silence outputs))
        (fill fuel (Fifo.push (silence outputs) f (silence outputs)).0)
grown room fuel v ne r = record {
  ring = r.ring;
  size = r.size;
  holds =
      r.holds
      ∙ rw
          (
            contents-push (silence outputs) (silence outputs) v ne,
            len-push (silence outputs) (silence outputs) v ne,
            append_assoc,
          )
          refl;
}

-- Filling an empty ring of `room` frames takes `room` steps more than it holds, and the fuel is enough.
fill-After :
    (room fuel : ℕ) {f : Fifo Frame}
    → Queue.IsValid f
    → length f.frames ≡ room
    → room < f.len + fuel
    → After room
        (silence outputs)
        (queued f ++ replicate (room - f.len) (silence outputs))
        (fill fuel f)
unfolding fill
fill-After room zero {f} v e h = absurd (omega (arith, v))
fill-After room (suc fuel) {f} v e h = elim (ℕ_discrete f.len (length f.frames)) [
  | yes full ↦
      let none_left : room - f.len ≡ 0 = omega arith in
      rw (push_full (silence outputs) f (silence outputs) full)
        (record { ring = v; size = e; holds = rw none_left (sym (append-nil (queued f))) })
  | no ne ↦
      let one_less : room - f.len ≡ suc (room - (f.len + 1)) = omega (arith, v) in
      rw (push_room (silence outputs) f (silence outputs) ne, one_less)
        (grown room fuel v ne (
          fill-After room fuel (push-IsValid (silence outputs) {f = f} (silence outputs) v)
            (length-push (silence outputs) f (silence outputs) ∙ e)
            (omega (arith, len-push (silence outputs) (silence outputs) v ne))))
]

-- New buffers are valid, and hold no input and two periods and a transfer of silent output.
pub new-IsValid :
    (period transfer : ℕ)
    → 0 < period
    → 4 * period + 2 * transfer < 2 ^ 63
    → (b : Buffers) × (new true true period transfer ≡ some b)
      × IsValid period transfer b
      × (view b ≡ start period transfer)
unfolding new
new-IsValid period transfer p s =
    let (output, out_made, o) =
      new_granted (silence outputs) (2 * period + transfer) (omega arith) (omega arith) in
    let (input, in_made, i) =
      new_granted (silence inputs) (4 * period + 2 * transfer) (omega arith) (omega arith) in
    let filled =
      fill-After (2 * period + transfer) (2 * period + transfer + 1) o.ring o.size (omega arith) in
    (
      record {
        period = period;
        input = input;
        output = fill (2 * period + transfer + 1) output;
        captured = 0;
        silent_frames = 0;
        dropped_frames = 0;
      },
      rw (out_made, new) (rw (in_made, new)),
      record {
        same_period = refl;
        period_pos = p;
        small = s;
        input_ring = i.ring;
        output_ring = filled.ring;
        input_size = i.size;
        output_size = filled.size;
        partial = p;
      },
      ground (arith, filled.holds, i.holds, o.holds, o.empty),
    )

-- Without memory for either ring there are no buffers.
pub new-eq-none :
    (g h : Bool) (period transfer : ℕ) → g && h ≡ false → new g h period transfer ≡ none
unfolding new
new-eq-none g h period transfer e = ground (
  arith,
  new_refused (silence outputs) (2 * period + transfer),
  new_refused (silence inputs) (4 * period + 2 * transfer),
)
