-- ===== src/Kernel/Stream/Transfers/Flight.antt =====
-- The transfers in flight: `in_flight` of driver/ak1-acx/src/stream.rs against the transfers themselves,
-- over any order of submissions, completions and a stop. A completion routine of a capture transfer is
-- two steps, for a stop may come between its test of `running` and what it does then.
use ak1_driver.Prelude.{
  ℕ, ◌+◌, ◌<◌, ◌≡◌, Bool, true, false, List, [], ◌∷◌, length, get_or, set, replicate,
}
use ak1_driver.Kernel.Usb.{Outcome, done, failed}
use ak1_driver.Kernel.Stream.Transfers.{
  SendAnswers, Flow, transfers, submit_capture, answer, capture_entered, capture_left,
  playback_complete, stop_begun, new_flow,
}
use ak1_driver.Kernel.Stream.Transfer.{count_of}

-- A capture transfer: at rest, with the USB stack, or in its completion routine, which saw `running`.
pub data Phase : Type 0 where
  idle pending : Phase
  entered : (seen_running : Bool) → Phase

abbrev pub active : Phase → ℕ
active idle = 0
active pending = 1
active (entered seen_running) = 1

abbrev pub count_active : List Phase → ℕ
count_active [] = 0
count_active (p ∷ ps) = active p + count_active ps

abbrev pub count_busy : List Bool → ℕ
count_busy [] = 0
count_busy (b ∷ bs) = count_of b + count_busy bs

pub record World : Type 0 where
  pub flow : Flow
  pub captures : List Phase

abbrev pub submitted : Outcome Unit → Phase
submitted (done _) = pending
submitted (failed status) = idle

-- Where a capture transfer is after its completion routine.
unfoldable pub after_left :
    (seen_running : Bool) (playback capture : SendAnswers) (offset : ℕ) → Flow → Phase
after_left false playback capture offset flow = idle
after_left true playback capture offset flow =
    submitted (submit_capture capture (answer playback offset flow)).1

pub data Step : World → World → Type 0 where
  submits :
      (w : World) (i : ℕ) (answers : SendAnswers)
      → i < length w.captures
      → get_or w.captures i idle ≡ idle
      → Step w (record {
        flow = (submit_capture answers w.flow).0;
        captures = set w.captures i (submitted (submit_capture answers w.flow).1);
      })
  enters :
      (w : World) (i : ℕ) (succeeded : Bool)
      → get_or w.captures i idle ≡ pending
      → Step w (record {
        flow = (capture_entered succeeded w.flow).0;
        captures = set w.captures i (entered (capture_entered succeeded w.flow).1);
      })
  leaves :
      (w : World) (i : ℕ) (seen_running : Bool) (playback capture : SendAnswers) (offset : ℕ)
      → get_or w.captures i idle ≡ entered seen_running
      → Step w (record {
        flow = capture_left seen_running playback capture offset w.flow;
        captures = set w.captures i (after_left seen_running playback capture offset w.flow);
      })
  completes :
      (w : World) (i : ℕ) (succeeded : Bool)
      → get_or w.flow.busy i false ≡ true
      → Step w (record w { flow = playback_complete succeeded i w.flow })
  stops : (w : World) → Step w (record w { flow = stop_begun w.flow })

abbrev pub started : World
started = record { flow = new_flow; captures = replicate transfers idle }

pub data Reached : World → Type 0 where
  at_start : Reached started
  stepped : {w w' : World} → Reached w → Step w w' → Reached w'

pub record IsBalanced (w : World) : Type 0 where
  pub balance : w.flow.in_flight ≡ count_active w.captures + count_busy w.flow.busy
  pub captures_made : length w.captures ≡ transfers
  pub playbacks_made : length w.flow.busy ≡ transfers
