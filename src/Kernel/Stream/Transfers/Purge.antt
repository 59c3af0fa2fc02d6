-- ===== src/Kernel/Stream/Transfers/Purge.antt =====
-- The completions of a stopped engine of driver/ak1-acx/src/stream.rs, whose targets are purged and
-- fail every send: each leaves less to do.
use ak1_driver.Prelude.{
  ℕ, zero, suc, ◌+◌, ◌^◌, ◌<◌, ◌≡◌, refl, ap, Bool, true, false, List, [], ◌∷◌, Option, none, some,
  arith, length, get_or, set,
}
use ak1_driver.Kernel.Usb.{Outcome, done, failed}
use ak1_driver.Kernel.Stream.Transfers.{
  SendAnswers, Flow, send, submit_capture, find_free, conclude_playback, answer_with, answer,
  capture_entered, count_failure, finish_capture, capture_left, playback_complete,
}
use ak1_driver.Kernel.Stream.Transfer.{count_of}
use ak1_driver.Kernel.Stream.Transfers.Flight.{
  Phase, idle, pending, entered, active, count_active, count_busy, World, submitted, after_left,
  Step, IsBalanced,
}
use ak1_driver.Kernel.Stream.Transfers.Answering.{answer-IsAnswered}
use ak1_driver.Kernel.Stream.Transfers.Counting.{
  get_or-active, get_or-busy, count_busy-set, count_active-length, count_busy-length,
}

-- What is left of a capture transfer, and of all transfers.
abbrev pub weight : Phase → ℕ
weight idle = 0
weight pending = 2
weight (entered seen_running) = 1

abbrev pub weights : List Phase → ℕ
weights [] = 0
weights (p ∷ ps) = weight p + weights ps

abbrev pub work : World → ℕ
work w = weights w.captures + count_busy w.flow.busy

-- The completions of a stopped engine, whose sends fail.
pub data Purged : World → World → Type 0 where
  enters :
      (w : World) (i : ℕ) (succeeded : Bool)
      → get_or w.captures i idle ≡ pending
      → Purged w (record {
        flow = (capture_entered succeeded w.flow).0;
        captures = set w.captures i (entered (capture_entered succeeded w.flow).1);
      })
  leaves :
      (w : World) (i : ℕ) (seen_running : Bool) (playback capture : SendAnswers) (offset : ℕ)
      → get_or w.captures i idle ≡ entered seen_running
      → playback.sent ≡ false
      → capture.sent ≡ false
      → Purged w (record {
        flow = capture_left seen_running playback capture offset w.flow;
        captures = set w.captures i (after_left seen_running playback capture offset w.flow);
      })
  completes :
      (w : World) (i : ℕ) (succeeded : Bool)
      → get_or w.flow.busy i false ≡ true
      → Purged w (record w { flow = playback_complete succeeded i w.flow })

pub weights-set :
    (ps : List Phase) (i : ℕ) (p : Phase)
    → i < length ps
    → weights (set ps i p) + weight (get_or ps i idle) ≡ weights ps + weight p
weights-set [] i p h = absurd (omega arith)
weights-set (x ∷ ps) zero p h = omega arith
weights-set (x ∷ ps) (suc i) p h = omega (arith, weights-set ps i p (omega arith))

pub send_fails :
    (answers : SendAnswers) (n : ℕ)
    → answers.sent ≡ false
    → n + 1 < 2 ^ 32
    → ((send answers n).0 ≡ n) × (submitted (send answers n).1 ≡ idle)
unfolding send
send_fails answers n fails few = ground (arith, fails)

pub conclude_playback_count :
    (i : ℕ) (flow : Flow) (r : ℕ × Outcome Unit) → (conclude_playback i flow r).in_flight ≡ r.0
unfolding conclude_playback
conclude_playback_count i flow (n, done _) = refl
conclude_playback_count i flow (n, failed status) = refl

pub answer_fails :
    (answers : SendAnswers) (offset : ℕ) (flow : Flow)
    → answers.sent ≡ false
    → flow.in_flight + 1 < 2 ^ 32
    → (answer answers offset flow).in_flight ≡ flow.in_flight
unfolding answer answer_with
answer_fails answers offset flow fails few = go (find_free flow.busy)
  where
    go : (o : Option ℕ) → (answer_with answers offset flow o).in_flight ≡ flow.in_flight
    go none = unfold answer_with in refl
    go (some i) =
        unfold answer_with in
        ground (
          arith,
          send_fails answers flow.in_flight fails few,
          conclude_playback_count i (record flow { busy = set flow.busy i true })
              (send answers flow.in_flight),
        )

pub Purged-Step : {w w' : World} → Purged w w' → Step w w'
Purged-Step (enters w i succeeded at_usb) = Step.enters w i succeeded at_usb
Purged-Step (leaves w i seen playback capture offset inside p c) =
    Step.leaves w i seen playback capture offset inside
Purged-Step (completes w i succeeded at_usb) = Step.completes w i succeeded at_usb

pub small : {w : World} → IsBalanced w → w.flow.in_flight + 1 < 2 ^ 32
small {w = w} v = omega (
  arith,
  v.balance,
  v.captures_made,
  v.playbacks_made,
  count_active-length w.captures,
  count_busy-length w.flow.busy,
)

pub answer_fails_busy :
    (answers : SendAnswers) (offset : ℕ) (w : World)
    → answers.sent ≡ false
    → IsBalanced w
    → count_busy (answer answers offset w.flow).busy ≡ count_busy w.flow.busy
answer_fails_busy answers offset w fails v =
    let answered =
      answer-IsAnswered answers offset (count_active w.captures) w.flow
        (omega (arith, count_active-length w.captures, v.captures_made))
        (record { count = v.balance; lasting = v.playbacks_made }) in
    omega (arith, answered.count, v.balance, answer_fails answers offset w.flow fails (small v))

pub count_failure_busy :
    (flow : Flow) (r : Outcome Unit) → (count_failure (flow, r)).busy ≡ flow.busy
count_failure_busy flow (done _) = refl
count_failure_busy flow (failed status) = refl

pub leaves_shrinks :
    (w : World) (i : ℕ) (playback capture : SendAnswers) (offset : ℕ)
    → get_or w.captures i idle ≡ entered true
    → playback.sent ≡ false
    → capture.sent ≡ false
    → IsBalanced w
    → weights (set w.captures i (after_left true playback capture offset w.flow))
        + count_busy (capture_left true playback capture offset w.flow).busy
      < work w
unfolding capture_left after_left submit_capture finish_capture
leaves_shrinks w i playback capture offset inside p c v =
    let flow = answer playback offset w.flow in
    let same = answer_fails playback offset w.flow p (small v) in
    let (kept, at_rest) = send_fails capture flow.in_flight c (omega (arith, same, small v)) in
    rw at_rest (
      rw
        (count_failure_busy (record flow { in_flight = (send capture flow.in_flight).0 })
          (send capture flow.in_flight).1)
        (omega (
          arith,
          ap weight inside,
          answer_fails_busy playback offset w p v,
          weights-set w.captures i idle (get_or-active w.captures i (ap active inside)),
        )))

-- Each completion of a stopped engine leaves less to do.
pub Purged-shrinks : {w w' : World} → Purged w w' → IsBalanced w → work w' < work w
unfolding capture_entered capture_left after_left finish_capture playback_complete
Purged-shrinks (enters w i succeeded at_usb) v =
    let room = get_or-active w.captures i (ap active at_usb) in
    ground (
      arith,
      ap weight at_usb,
      weights-set w.captures i (entered w.flow.running) room,
      weights-set w.captures i (entered false) room,
    )
Purged-shrinks (leaves w i true playback capture offset inside p c) v =
    leaves_shrinks w i playback capture offset inside p c v
Purged-shrinks (leaves w i false playback capture offset inside p c) v = omega (
  arith,
  ap weight inside,
  weights-set w.captures i idle (get_or-active w.captures i (ap active inside)),
)
Purged-shrinks (completes w i succeeded at_usb) v = omega (
  arith,
  ap count_of at_usb,
  count_busy-set w.flow.busy i false (get_or-busy w.flow.busy i at_usb),
)
