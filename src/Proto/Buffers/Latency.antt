-- ===== src/Proto/Buffers/Latency.antt =====
-- How long a frame takes through the `Buffers` of crates/ak1-proto/src/asio.rs: the card captures
-- and plays a frame, then a host that is not late answers each complete period.
use mathlib.Core.List.{map-append}
use ak1_driver.Prelude.{
  ℕ, ◌+◌, ◌*◌, ◌<◌, ◌≡◌, refl, ◌∙◌, ap₂, List, [], ◌∷◌, ◌++◌, map, length, take, replicate, arith,
  length-append, append_assoc, dec_lt, length-map, length-replicate,
}
use ak1_driver.Proto.Buffers.{Frame, silence, outputs, Buffers, stats}
use ak1_driver.Proto.Buffers.Spec.{start}
use ak1_driver.Proto.Buffers.Refine.{IsValid, view}
use ak1_driver.Proto.Buffers.Turns.{IsPrompt, card, host_answers, host_waits, loop_back, turn}

module _ (respond : Frame → Frame) {period transfer silent dropped : ℕ} where
  pending_short :
      {pending output : List Frame} {b : Buffers}
      → IsPrompt period transfer pending output silent dropped b
      → length pending < period
  pending_short {pending} {output} {b} p =
      let counted : b.captured ≡ length pending = ground (arith, p.holds) in
      omega (arith, p.valid, counted)

  -- A frame that does not complete a period.
  turn_within :
      {pending output : List Frame} {b : Buffers} (x y : Frame)
      → IsPrompt period transfer pending (y ∷ output) silent dropped b
      → length pending + 1 < period
      → ((turn respond b x).1 ≡ y)
        × IsPrompt period transfer (pending ++ (x ∷ [])) output silent dropped (turn respond b x).0
  unfolding turn
  turn_within {pending} x y p short =
      let (played, h) = card x y p in
      let w = host_waits respond h (omega (arith, length-append pending (x ∷ []))) in
      (
        played,
        record {
          valid = w.valid;
          holds = w.holds ∙ ground (arith, length-append pending (x ∷ []));
          level = omega (arith, p, length-append pending (x ∷ []));
        },
      )

  -- A frame that completes a period.
  turn_whole :
      {pending output : List Frame} {b : Buffers} (x y : Frame)
      → IsPrompt period transfer pending (y ∷ output) silent dropped b
      → length pending + 1 ≡ period
      → ((turn respond b x).1 ≡ y)
        × IsPrompt period transfer []
            (output ++ map respond (pending ++ (x ∷ [])))
            silent
            dropped
            (turn respond b x).0
  unfolding turn
  turn_whole {pending} {output} x y p whole =
      let (played, h) = card x y p in
      let e = length-append pending (x ∷ []) in
      let w = host_answers respond h (omega (arith, e)) (omega (arith, p)) in
      (
        played,
        record {
          valid = w.valid;
          holds = w.holds ∙ ground arith;
          level = omega (
            arith,
            p,
            e,
            length-append output (map respond (pending ++ (x ∷ []))),
            length-map respond (pending ++ (x ∷ [])),
          );
        },
      )

  -- With the level invariant, what plays is the queued output and then the answers in order.
  prompt_plays :
      (xs : List Frame) (pending output : List Frame) {b : Buffers}
      → IsPrompt period transfer pending output silent dropped b
      → ((loop_back respond b xs).1 ≡ take (length xs) (output ++ map respond (pending ++ xs)))
        × (stats (loop_back respond b xs).0 ≡ (silent, dropped))
  unfolding loop_back stats
  prompt_plays [] pending output p = (refl, ground (arith, p.holds))
  prompt_plays (x ∷ xs) pending [] p = absurd (omega (arith, p.level, pending_short p))
  prompt_plays (x ∷ xs) pending (y ∷ output) p = elim (dec_lt (length pending + 1) period) [
    | yes short ↦
        let (played, next) = turn_within x y p short in
        let (ys, counts) = prompt_plays xs (pending ++ (x ∷ [])) output next in
        (ap₂ ◌∷◌ played (ys ∙ rw append_assoc refl), counts)
    | no long ↦
        let (played, next) = turn_whole x y p (omega (arith, pending_short p)) in
        let (ys, counts) = prompt_plays xs [] (output ++ map respond (pending ++ (x ∷ []))) next in
        (ap₂ ◌∷◌ played (ys ∙ rw (append_assoc, ← map-append) (rw append_assoc refl)), counts)
  ]

-- For every input: from new buffers, a host that answers each period as soon as it is complete
-- hears the answer to a frame exactly two periods and a transfer after the frame was captured;
-- until then silence plays, and no frame is lost or missing.
pub loop_back-prompt :
    (respond : Frame → Frame) (period transfer : ℕ) (xs : List Frame) {b : Buffers}
    → IsValid period transfer b
    → view b ≡ start period transfer
    → ((loop_back respond b xs).1
        ≡ take (length xs) (replicate (2 * period + transfer) (silence outputs) ++ map respond xs))
      × (stats (loop_back respond b xs).0 ≡ (0, 0))
loop_back-prompt respond period transfer xs v e =
    prompt_plays respond xs [] (replicate (2 * period + transfer) (silence outputs)) (record {
      valid = v;
      holds = e;
      level = omega (arith, length-replicate (2 * period + transfer) (silence outputs));
    })

-- Whatever happened before, once the host has caught up the latency is the same again: with the
-- output queue full at the start of a period, later frames are heard after the same delay, and
-- the counters of silent and dropped frames stay as they are.
pub loop_back_again :
    (respond : Frame → Frame) (period transfer : ℕ) (xs : List Frame) {b : Buffers}
    → IsValid period transfer b
    → (view b).input ≡ []
    → b.captured ≡ 0
    → length (view b).output ≡ 2 * period + transfer
    → ((loop_back respond b xs).1 ≡ take (length xs) ((view b).output ++ map respond xs))
      × (stats (loop_back respond b xs).0 ≡ stats b)
unfolding stats
loop_back_again respond period transfer xs {b} v none_waiting none_captured full =
    prompt_plays respond xs [] (view b).output
      (record { valid = v; holds = ground arith; level = omega arith })
