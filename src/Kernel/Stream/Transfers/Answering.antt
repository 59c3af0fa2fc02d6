-- ===== src/Kernel/Stream/Transfers/Answering.antt =====
-- What the answer to a capture transfer in driver/ak1-acx/src/stream.rs does to the counts.
use ak1_driver.Prelude.{
  ℕ, ◌+◌, ◌^◌, ◌≤◌, ◌<◌, ◌≡◌, refl, ◌∙◌, true, false, Option, none, some, arith, length, get_or,
  set, length-set, get_or-set_self,
}
use ak1_driver.Kernel.Usb.{Outcome, done, failed}
use ak1_driver.Kernel.Stream.Transfers.{
  SendAnswers, Flow, transfers, send, find_free, conclude_playback, answer_with, answer,
}
use ak1_driver.Kernel.Stream.Transfers.Flight.{count_busy}
use ak1_driver.Kernel.Stream.Transfers.Counting.{count_busy-length, count_busy-set, find_free_lem}

-- A send counts the transfer just when it succeeds.
abbrev pub Counts : (before : ℕ) → ℕ × Outcome Unit → Type 0
Counts before (after, done _) = after ≡ before + 1
Counts before (after, failed status) = after ≡ before

pub send-Counts : (answers : SendAnswers) (n : ℕ) → n + 1 < 2 ^ 32 → Counts n (send answers n)
unfolding send
send-Counts answers n h = ground arith

-- What `answer` leaves counted beside `others`.
pub record IsAnswered (others : ℕ) (flow : Flow) : Type 0 where
  pub count : flow.in_flight ≡ others + count_busy flow.busy
  pub lasting : length flow.busy ≡ transfers

pub conclude_playback-IsAnswered :
    (i others : ℕ) (flow : Flow) (r : ℕ × Outcome Unit)
    → i < length flow.busy
    → get_or flow.busy i false ≡ true
    → length flow.busy ≡ transfers
    → flow.in_flight + 1 ≡ others + count_busy flow.busy
    → Counts flow.in_flight r
    → IsAnswered others (conclude_playback i flow r)
unfolding conclude_playback
conclude_playback-IsAnswered i others flow (n, done _) room set_busy len e c = record {
  count = omega (arith, e, c);
  lasting = len;
}
conclude_playback-IsAnswered i others flow (n, failed status) room set_busy len e c = record {
  count = ground (arith, e, c, set_busy, count_busy-set flow.busy i false room);
  lasting = length-set flow.busy i false ∙ len;
}

pub answer-IsAnswered :
    (answers : SendAnswers) (offset others : ℕ) (flow : Flow)
    → others ≤ transfers
    → IsAnswered others flow
    → IsAnswered others (answer answers offset flow)
unfolding answer
answer-IsAnswered answers offset others flow few a = go (find_free flow.busy) refl
  where
    go :
        (o : Option ℕ)
        → find_free flow.busy ≡ o
        → IsAnswered others (answer_with answers offset flow o)
    go none e = unfold answer_with in record { count = a.count; lasting = a.lasting }
    go (some i) e =
        let (room, more) = find_free_lem flow.busy i e in
        let busy = set flow.busy i true in
        let len : length busy ≡ transfers = length-set flow.busy i true ∙ a.lasting in
        let chosen : get_or busy i false ≡ true = get_or-set_self flow.busy i true false room in
        let released : IsAnswered others (record flow { busy = set busy i false }) = record {
          count = ground (
            arith,
            a.count,
            more,
            chosen,
            count_busy-set busy i false (omega (arith, len, room, a.lasting)),
          );
          lasting = length-set busy i false ∙ len;
        } in
        let sent =
          conclude_playback-IsAnswered i others (record flow { busy = busy })
            (send answers flow.in_flight) (omega (arith, len, room, a.lasting)) chosen len
            (omega (arith, a.count, more))
            (send-Counts answers flow.in_flight
              (omega (arith, a.count, few, count_busy-length flow.busy, a.lasting))) in
        unfold answer_with in ground (arith, released, sent)
