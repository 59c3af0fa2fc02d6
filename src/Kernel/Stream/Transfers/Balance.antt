-- ===== src/Kernel/Stream/Transfers/Balance.antt =====
-- That `in_flight` of driver/ak1-acx/src/stream.rs counts the transfers in flight.
use ak1_driver.Prelude.{
  ℕ, ◌+◌, ◌-◌, ◌%◌, ◌^◌, ◌<◌, ◌≡◌, refl, ap, ◌∙◌, Bool, true, false, List, arith, length, get_or,
  set, length-set,
}
use ak1_driver.Kernel.Usb.{Outcome, done, failed}
use ak1_driver.Kernel.Stream.Transfers.{
  SendAnswers, Flow, send, submit_capture, answer, capture_entered, count_failure, finish_capture,
  capture_left, playback_complete, stop_begun,
}
use ak1_driver.Kernel.Stream.Transfers.Flight.{
  Phase, idle, pending, entered, active, count_active, count_busy, World, submitted, after_left,
  Step, submits, enters, leaves, completes, stops, started, Reached, at_start, stepped, IsBalanced,
}
use ak1_driver.Kernel.Stream.Transfers.Counting.{
  count_active-length, count_active-set, count_busy-length, count_busy-set, get_or-active,
  get_or-busy,
}
use ak1_driver.Kernel.Stream.Transfers.Answering.{Counts, answer-IsAnswered, send-Counts}

-- A capture transfer at rest that is sent, with `others` in flight beside those of `ps`.
submitted_lem :
    (ps : List Phase) (i others before : ℕ) (r : ℕ × Outcome Unit)
    → i < length ps
    → get_or ps i idle ≡ idle
    → before ≡ count_active ps + others
    → Counts before r
    → r.0 ≡ count_active (set ps i (submitted r.1)) + others
submitted_lem ps i others before (n, done _) room rest e c =
    ground (arith, e, c, rest, count_active-set ps i pending room)
submitted_lem ps i others before (n, failed status) room rest e c =
    ground (arith, e, c, rest, count_active-set ps i idle room)

submits-IsBalanced :
    (w : World) (i : ℕ) (answers : SendAnswers)
    → i < length w.captures
    → get_or w.captures i idle ≡ idle
    → IsBalanced w
    → IsBalanced (record {
      flow = (submit_capture answers w.flow).0;
      captures = set w.captures i (submitted (submit_capture answers w.flow).1);
    })
unfolding submit_capture
submits-IsBalanced w i answers room rest v = record {
  balance =
      submitted_lem w.captures i (count_busy w.flow.busy) w.flow.in_flight
        (send answers w.flow.in_flight) room rest v.balance
        (send-Counts answers w.flow.in_flight (
          omega (
            arith,
            v.balance,
            v.captures_made,
            v.playbacks_made,
            count_active-length w.captures,
            count_busy-length w.flow.busy,
          )));
  captures_made = length-set w.captures i _ ∙ v.captures_made;
  playbacks_made = v.playbacks_made;
}

enters-IsBalanced :
    (w : World) (i : ℕ) (succeeded : Bool)
    → get_or w.captures i idle ≡ pending
    → IsBalanced w
    → IsBalanced (record {
      flow = (capture_entered succeeded w.flow).0;
      captures = set w.captures i (entered (capture_entered succeeded w.flow).1);
    })
unfolding capture_entered
enters-IsBalanced w i succeeded at_usb v =
    let room = get_or-active w.captures i (ap active at_usb) in
    record {
      balance = ground (
        arith,
        v.balance,
        at_usb,
        count_active-set w.captures i (entered w.flow.running) room,
        count_active-set w.captures i (entered false) room,
      );
      captures_made = length-set w.captures i _ ∙ v.captures_made;
      playbacks_made = ground (arith, v.playbacks_made);
    }

completes-IsBalanced :
    (w : World) (i : ℕ) (succeeded : Bool)
    → get_or w.flow.busy i false ≡ true
    → IsBalanced w
    → IsBalanced (record w { flow = playback_complete succeeded i w.flow })
unfolding playback_complete
completes-IsBalanced w i succeeded at_usb v =
    let room = get_or-busy w.flow.busy i at_usb in
    record {
      balance = ground (
        arith,
        v.balance,
        v.captures_made,
        v.playbacks_made,
        at_usb,
        count_active-length w.captures,
        count_busy-length w.flow.busy,
        count_busy-set w.flow.busy i false room,
      );
      captures_made = v.captures_made;
      playbacks_made = length-set w.flow.busy i false ∙ v.playbacks_made;
    }

-- A capture transfer that leaves its routine, sent again or not.
left_lem :
    (ps : List Phase) (i others before : ℕ) (r : ℕ × Outcome Unit)
    → i < length ps
    → active (get_or ps i idle) ≡ 1
    → before ≡ count_active ps + others
    → before + 1 < 2 ^ 32
    → Counts before r
    → (r.0 + (2 ^ 32 - 1)) % 2 ^ 32 ≡ count_active (set ps i (submitted r.1)) + others
left_lem ps i others before (n, done _) room busy e few c =
    omega (arith, e, c, busy, count_active-set ps i pending room)
left_lem ps i others before (n, failed status) room busy e few c =
    omega (arith, e, c, busy, count_active-set ps i idle room)

count_failure_lem :
    (flow : Flow) (r : Outcome Unit)
    → ((count_failure (flow, r)).in_flight ≡ flow.in_flight)
      × ((count_failure (flow, r)).busy ≡ flow.busy)
count_failure_lem flow (done _) = (refl, refl)
count_failure_lem flow (failed status) = (refl, refl)

leaves_sent :
    (w : World) (i : ℕ) (playback capture : SendAnswers) (offset : ℕ)
    → get_or w.captures i idle ≡ entered true
    → IsBalanced w
    → IsBalanced (record {
      flow = capture_left true playback capture offset w.flow;
      captures = set w.captures i (after_left true playback capture offset w.flow);
    })
unfolding capture_left after_left submit_capture finish_capture
leaves_sent w i playback capture offset inside v =
    let others = count_active w.captures in
    let few = count_active-length w.captures in
    let flow = answer playback offset w.flow in
    let answered =
      answer-IsAnswered playback offset others w.flow (omega (arith, few, v.captures_made))
        (record { count = v.balance; lasting = v.playbacks_made }) in
    let r = send capture flow.in_flight in
    let bound : flow.in_flight + 1 < 2 ^ 32 = omega (
      arith,
      answered.count,
      answered.lasting,
      few,
      v.captures_made,
      count_busy-length flow.busy,
    ) in
    let kept = count_failure_lem (record flow { in_flight = r.0 }) r.1 in
    record {
      balance = rw kept.0 (
          rw kept.1 (
            left_lem w.captures i (count_busy flow.busy) flow.in_flight r
              (get_or-active w.captures i (ap active inside)) (ap active inside) answered.count
              bound (send-Counts capture flow.in_flight bound)));
      captures_made = length-set w.captures i _ ∙ v.captures_made;
      playbacks_made = ap length kept.1 ∙ answered.lasting;
    }

leaves_quiet :
    (w : World) (i : ℕ) (playback capture : SendAnswers) (offset : ℕ)
    → get_or w.captures i idle ≡ entered false
    → IsBalanced w
    → IsBalanced (record {
      flow = capture_left false playback capture offset w.flow;
      captures = set w.captures i (after_left false playback capture offset w.flow);
    })
unfolding capture_left after_left finish_capture
leaves_quiet w i playback capture offset inside v =
    let room = get_or-active w.captures i (ap active inside) in
    record {
      balance = omega (
        arith,
        v.balance,
        v.captures_made,
        v.playbacks_made,
        ap active inside,
        count_active-length w.captures,
        count_busy-length w.flow.busy,
        count_active-set w.captures i idle room,
      );
      captures_made = length-set w.captures i _ ∙ v.captures_made;
      playbacks_made = v.playbacks_made;
    }

pub Step-IsBalanced : {w w' : World} → Step w w' → IsBalanced w → IsBalanced w'
unfolding stop_begun
Step-IsBalanced (submits w i answers room rest) v = submits-IsBalanced w i answers room rest v
Step-IsBalanced (enters w i succeeded at_usb) v = enters-IsBalanced w i succeeded at_usb v
Step-IsBalanced (leaves w i true playback capture offset inside) v =
    leaves_sent w i playback capture offset inside v
Step-IsBalanced (leaves w i false playback capture offset inside) v =
    leaves_quiet w i playback capture offset inside v
Step-IsBalanced (completes w i succeeded at_usb) v = completes-IsBalanced w i succeeded at_usb v
Step-IsBalanced (stops w) v = record {
  balance = v.balance;
  captures_made = v.captures_made;
  playbacks_made = v.playbacks_made;
}

started-IsBalanced : IsBalanced started
started-IsBalanced = record { balance = refl; captures_made = refl; playbacks_made = refl }

-- In every order of submissions, completions and a stop, `in_flight` is the number of transfers that the
-- USB stack has or that are in their completion routine; a playback transfer is that while busy.
pub Reached-IsBalanced : {w : World} → Reached w → IsBalanced w
Reached-IsBalanced at_start = started-IsBalanced
Reached-IsBalanced (stepped reached step) = Step-IsBalanced step (Reached-IsBalanced reached)
