-- ===== src/Proto/Buffers/Refine.antt =====
-- The `Buffers` of crates/ak1-proto/src/asio.rs implement the lists of Buffers/Spec: the invariant,
-- and that no sequence of calls tells the two apart.
use ak1_driver.Prelude.{
  ℕ, zero, suc, ◌+◌, ◌*◌, ◌^◌, ◌≤◌, ◌<◌, ◌≡◌, refl, sym, ◌∙◌, ap, List, [], ◌∷◌, ◌++◌, length, take,
  drop, arith, ℕ_discrete, append-nil, append_assoc,
}
use ak1_driver.Proto.Fifo.{Fifo, add_size}
use ak1_driver.Proto.Fifo
use ak1_driver.Proto.Fifo.Queue
use ak1_driver.Proto.Fifo.Queue.{
  contents, keep_last, length-contents, push-IsValid, pop-IsValid, length-push, length-pop,
  pop_refines, pop_empty, keep_last_append, keep_last_all, contents-push, len-push, push_room,
  push_full,
}
use ak1_driver.Proto.Fifo.Overwrite.{push_over-IsValid, length-push_over, push_over_refines}
use ak1_driver.Proto.Buffers.{
  Frame, silence, inputs, outputs, Buffers, capture, render, pop_frames, read, push_frames, write,
}
use ak1_driver.Proto.Buffers.Spec.{
  State, Reply, input_capacity, output_capacity, capture_spec, render_spec, read_spec, write_spec,
}

-- Every frame that the host queued, as a list.
abbrev pub queued : Fifo Frame → List Frame
queued = contents (silence outputs)

abbrev waiting : Fifo Frame → List Frame
waiting = contents (silence inputs)

abbrev pub view : Buffers → State
view b = record {
  input = waiting b.input;
  output = queued b.output;
  captured = b.captured;
  silent_frames = b.silent_frames;
  dropped_frames = b.dropped_frames;
}

pub record IsValid (period transfer : ℕ) (b : Buffers) : Type 0 where
  pub same_period : b.period ≡ period
  pub period_pos : 0 < period
  pub small : 4 * period + 2 * transfer < 2 ^ 63
  pub input_ring : Queue.IsValid b.input
  pub output_ring : Queue.IsValid b.output
  pub input_size : length b.input.frames ≡ input_capacity period transfer
  pub output_size : length b.output.frames ≡ output_capacity period transfer
  pub partial : b.captured < period

module _ {period transfer : ℕ} {b : Buffers} (v : IsValid period transfer b) where
  pub capture-IsValid : (x : Frame) → IsValid period transfer (capture b x).0
  unfolding capture
  capture-IsValid x = ground (
    arith,
    push_over-IsValid (silence inputs) x v.input_ring,
    length-push_over (silence inputs) b.input x,
  )

  pub capture_refines :
      (x : Frame)
      → let (b', whole) = capture b x in
        (view b', Reply.period_complete whole) ≡ capture_spec period transfer (view b) x
  unfolding capture capture_spec
  capture_refines x = ground (
    arith,
    push_over_refines (silence inputs) x v.input_ring,
    length-contents (silence inputs) b.input,
    v,
  )

  pub render-IsValid : IsValid period transfer (render b).0
  unfolding render
  render-IsValid =
      ground
        (arith, pop-IsValid (silence outputs) v.output_ring, length-pop (silence outputs) b.output)

  pub render_refines : let (b', x) = render b in (view b', Reply.frame x) ≡ render_spec (view b)
  unfolding render render_spec
  render_refines = elim (ℕ_discrete b.output.len 0) [
    | yes e ↦ ground (
      arith,
      pop_empty (silence outputs) b.output e,
      ap length {x = queued b.output} refl,
      length-contents (silence outputs) b.output,
    )
    | no ne ↦ ground (arith, pop_refines (silence outputs) v.output_ring ne)
  ]

-- What a ring of `room` frames is after a loop over it, by what it holds.
pub record After (room : ℕ) (blank : Frame) (held : List Frame) (f : Fifo Frame) : Type 0 where
  pub ring : Queue.IsValid f
  pub size : length f.frames ≡ room
  pub holds : contents blank f ≡ held

push_frames-After :
    (room : ℕ) (xs : List Frame) {f : Fifo Frame}
    → Queue.IsValid f
    → length f.frames ≡ room
    → After room (silence outputs) (keep_last room (queued f ++ xs)) (push_frames xs f)
unfolding push_frames
push_frames-After room [] {f} v e = record {
  ring = v;
  size = e;
  holds = sym (
      rw append-nil
        (keep_last_all room (queued f) (omega (arith, length-contents (silence outputs) f, v, e))));
}
push_frames-After room (x ∷ xs) {f} v e =
    let r =
      push_frames-After room xs (push_over-IsValid (silence outputs) x v)
        (length-push_over (silence outputs) f x ∙ e) in
    record { ring = r.ring; size = r.size; holds = r.holds ∙ again }
  where
    again :
        keep_last room (queued (Fifo.push_over (silence outputs) f x).0 ++ xs)
        ≡ keep_last room (queued f ++ (x ∷ xs))
    again =
        rw
          (
            (push_over_refines (silence outputs) x v).0,
            e,
            keep_last_append room (queued f ++ (x ∷ [])) xs,
            append_assoc,
          )
          refl

pop_frames-After :
    (room n : ℕ) {f : Fifo Frame}
    → Queue.IsValid f
    → length f.frames ≡ room
    → n ≤ f.len
    → After room (silence inputs) (drop n (waiting f)) (pop_frames n f).0
      × ((pop_frames n f).1 ≡ take n (waiting f))
unfolding pop_frames
pop_frames-After room zero v e h = (record { ring = v; size = e; holds = refl }, refl)
pop_frames-After room (suc n) {f} v e h =
    let (x, popped, left) = pop_refines (silence inputs) v (omega arith) in
    let (r, taken) =
      pop_frames-After room n (pop-IsValid (silence inputs) v) (length-pop (silence inputs) f ∙ e) (
        omega (
          arith,
          ap length left,
          length-contents (silence inputs) f,
          length-contents (silence inputs) (Fifo.pop (silence inputs) f).0,
        )) in
    rw (left, popped) (r, ap (◌∷◌ x) taken)

module _ {period transfer : ℕ} {b : Buffers} (v : IsValid period transfer b) where
  popped :
      period ≤ b.input.len
      → After
          (input_capacity period transfer)
          (silence inputs)
          (drop period (waiting b.input))
          (pop_frames period b.input).0
        × ((pop_frames period b.input).1 ≡ take period (waiting b.input))
  popped h = pop_frames-After (input_capacity period transfer) period v.input_ring v.input_size h

  pushed :
      (from : List Frame)
      → After
          (output_capacity period transfer)
          (silence outputs)
          (keep_last (output_capacity period transfer) (queued b.output ++ from))
          (push_frames from b.output)
  pushed from = push_frames-After (output_capacity period transfer) from v.output_ring v.output_size

  pub read-IsValid : (into : List Frame) → IsValid period transfer (read b into).0
  unfolding read
  read-IsValid into = ground (arith, popped)

  pub read_refines :
      (into : List Frame)
      → let (b', into', n) = read b into in
        (view b', Reply.frames into' n) ≡ read_spec period transfer (view b) into
  unfolding read read_spec
  read_refines into = ground (arith, popped, length-contents (silence inputs) b.input)

  pub write-IsValid : (from : List Frame) → IsValid period transfer (write b from).0
  unfolding write
  write-IsValid from = ground (arith, pushed from)

  pub write_refines :
      (from : List Frame)
      → let (b', done) = write b from in
        (view b', Reply.written done) ≡ write_spec period transfer (view b) from
  unfolding write write_spec
  write_refines from = ground (arith, pushed from)
