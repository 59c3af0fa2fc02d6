-- ===== src/Proto/Buffers/Turns.antt =====
-- One turn of the card and of a host that answers, over the `Buffers` of crates/ak1-proto/src/asio.rs.
use ak1_driver.Prelude.{
  ℕ, ◌+◌, ◌≤◌, ◌<◌, ◌≡◌, List, [], ◌∷◌, ◌++◌, map, length, replicate, arith, none, some, ◌==◌,
  if◌then◌else◌, ltb, length-append, take_all, append-nil, length-map, length-replicate, drop_all,
}
use ak1_driver.Proto.Fifo.Queue.{keep_last_all}
use ak1_driver.Proto.Buffers.{Frame, silence, inputs, Buffers, capture, render, read, write}
use ak1_driver.Proto.Buffers.Spec.{
  State, input_capacity, output_capacity, capture_spec, render_spec, read_spec, write_spec,
}
use ak1_driver.Proto.Buffers.Refine.{
  IsValid, view, capture-IsValid, render-IsValid, read-IsValid, write-IsValid, capture_refines,
  render_refines, read_refines, write_refines,
}

module _ (respond : Frame → Frame) where
  -- A host reads a period and answers it frame by frame.
  pub host_turn : Buffers → Buffers
  host_turn b =
      let (b', frames, n) = read b (replicate b.period (silence inputs)) in
      elim n [ none ↦ b' | some n ↦ if n == 0 then b' else (write b' (map respond frames)).0 ]

  -- A frame of the card, and the host's turn.
  unfoldable pub turn : Buffers → Frame → Buffers × Frame
  unfolding host_turn
  turn b x = let (b', _) = capture b x in let (b'', y) = render b' in (host_turn b'', y)

  unfoldable pub loop_back : Buffers → List Frame → Buffers × List Frame
  loop_back b [] = (b, [])
  loop_back b (x ∷ xs) = let (b', y) = turn b x in let (end, ys) = loop_back b' xs in (end, y ∷ ys)

-- The levels of buffers whose host is not late: what it has not read is a part of a period, and
-- the output is ahead by two periods and a transfer less that part.
pub record IsPrompt (period transfer : ℕ) (pending output : List Frame) (silent dropped : ℕ)
    (b : Buffers) : Type 0 where
  pub valid : IsValid period transfer b
  pub holds : view b ≡ record {
    input = pending;
    output = output;
    captured = length pending;
    silent_frames = silent;
    dropped_frames = dropped;
  }
  pub level : length pending + length output ≡ output_capacity period transfer

-- Valid buffers with a known content.
pub record Holds (period transfer : ℕ) (s : State) (b : Buffers) : Type 0 where
  pub valid : IsValid period transfer b
  pub holds : view b ≡ s

module _ {period transfer : ℕ} {pending output : List Frame} {silent dropped : ℕ}
    {b : Buffers} where
  captured_view :
      (x y : Frame)
      → IsPrompt period transfer pending (y ∷ output) silent dropped b
      → view (capture b x).0 ≡ record {
        input = pending ++ (x ∷ []);
        output = y ∷ output;
        captured = if ltb (length pending + 1) period then length pending + 1 else 0;
        silent_frames = silent;
        dropped_frames = dropped;
      }
  unfolding capture_spec
  captured_view x y p = ground (
    arith,
    capture_refines p.valid x,
    keep_last_all (input_capacity period transfer) (pending ++ (x ∷ [])),
    length-append pending (x ∷ []),
    p,
  )

  -- The card's side of a turn takes the frame in, and plays the oldest output.
  pub card :
      (x y : Frame)
      → IsPrompt period transfer pending (y ∷ output) silent dropped b
      → let (b', played) = render (capture b x).0 in
        (played ≡ y)
        × Holds period transfer
            (record {
              input = pending ++ (x ∷ []);
              output = output;
              captured = if ltb (length pending + 1) period then length pending + 1 else 0;
              silent_frames = silent;
              dropped_frames = dropped;
            })
            b'
  unfolding render_spec
  card x y p =
      let e = render_refines (capture-IsValid p.valid x) in
      let c = captured_view x y p in
      (
        ground (arith, e, c),
        record { valid = render-IsValid (capture-IsValid p.valid x); holds = ground (arith, e, c) },
      )

module _ (respond : Frame → Frame) {period transfer : ℕ} {s : State} {b : Buffers}
    (h : Holds period transfer s b) where
  abbrev room_for_period : List Frame
  room_for_period = replicate b.period (silence inputs)

  finds_none :
      length s.input < period
      → ((read b room_for_period).2 ≡ some 0) × (view (read b room_for_period).0 ≡ s)
  unfolding read_spec
  finds_none short =
      ground
        (arith, read_refines h.valid room_for_period, h, length-replicate b.period (silence inputs))

  -- A host that finds no complete period changes nothing.
  pub host_waits : length s.input < period → Holds period transfer s (host_turn respond b)
  unfolding host_turn
  host_waits short =
      let (e, same) = finds_none short in
      rw (e, host_turn) (record { valid = read-IsValid h.valid room_for_period; holds = same })

  finds_period :
      length s.input ≡ period
      → ((read b room_for_period).2 ≡ some period)
        × ((read b room_for_period).1 ≡ s.input)
        × (view (read b room_for_period).0 ≡ record s { input = [] })
  unfolding read_spec
  finds_period full = ground (
    arith,
    read_refines h.valid room_for_period,
    h,
    length-replicate b.period (silence inputs),
    take_all period s.input,
    drop_all period s.input,
    drop_all period room_for_period,
    append-nil s.input,
  )

  -- A host that finds a period takes it, and its answer goes behind the queued output.
  pub host_answers :
      length s.input ≡ period
      → length s.output + period ≤ output_capacity period transfer
      → Holds period transfer
          (record s { input = []; output = s.output ++ map respond s.input })
          (host_turn respond b)
  unfolding host_turn write_spec
  host_answers full room =
      let (e, taken, left) = finds_period full in
      let v = read-IsValid h.valid room_for_period in
      let answer : List Frame = map respond s.input in
      rw (e, host_turn)
        (ground (
          arith,
          write-IsValid v answer,
          write_refines v answer,
          left,
          h,
          length-map respond s.input,
          length-append s.output answer,
          keep_last_all (output_capacity period transfer) (s.output ++ answer),
        ))
