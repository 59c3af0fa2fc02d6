-- ===== src/Tests/Engine.antt =====
-- Theorems on the USB side of driver/ak1-acx/src (usb.rs, lib.rs, stream.rs) at concrete inputs.
use ak1_driver.Prelude.{
  ℕ, ◌≤◌, ◌≡◌, some, refl, true, false, List, [], ◌∷◌, none, arith, replicate, set,
}
use ak1_driver.Proto.Wire.{hz48000, DeviceSpec, device_info, streams, parse_reply}
use ak1_driver.Kernel.Usb as Usb
use ak1_driver.Kernel.Usb.{
  Status, io_timeout, not_supported, Outcome, done, failed, Bus, Pipe, sync, set_audio_params,
  attempt_of, info_of, info, wrote, asked, open_usb, select_streaming, find_pipe, sync_loop,
  next_write, attempt, receive, next_read,
}
use ak1_driver.Kernel.Usb.Replies.{exchanges, sync-info}
use ak1_driver.Kernel.Device.{
  new_context, prepare_hardware, prepare_opened, prepare_with, conclude_prepare, add_all,
  conclude_add, add_circuits, open_once, record_version,
}
use ak1_driver.Kernel.Device.Prepared.{IsPrepared, prepare_hardware-IsPrepared}
use ak1_driver.Kernel.Stream.Transfers.{
  SendAnswers, StartAnswers, start, submit_capture, send, new_flow, capture_entered, capture_left,
  finish_capture,
}
use ak1_driver.Kernel.Stream.Transfer.{AllocateAnswers}
use ak1_driver.Kernel.Stream.Transfers.Leaks.{KeepsNothing, start-KeepsNothing}
use ak1_driver.Kernel.Stream.Transfers.Flight.{
  World, Reached, at_start, stepped, submits, enters, leaves, entered, after_left, submitted, idle,
  started,
}
use ak1_driver.Kernel.Stream.Transfers.Drained.{
  Completions, wait_ends, AllIdle, AllFree, none_in_flight,
}

-- A device info reply of an Audio Kontrol 1, and an input report.
abbrev info_reply : List ℕ
info_reply = 1 ∷ 25 ∷ 0 ∷ 1 ∷ 0 ∷ 0 ∷ 0 ∷ 0 ∷ 4 ∷ 4 ∷ 0 ∷ 0 ∷ 1 ∷ 1 ∷ 2 ∷ []

abbrev report : List ℕ
report = 4 ∷ 0 ∷ []

abbrev card : DeviceSpec
card = record {
  fw_version = 25;
  hw_subtype = 1;
  num_erp = 0;
  num_analog_in = 0;
  num_digital_in = 0;
  num_digital_out = 0;
  num_analog_audio_out = 4;
  num_analog_audio_in = 4;
  num_digital_audio_out = 0;
  num_digital_audio_in = 0;
  num_midi_out = 1;
  num_midi_in = 1;
  data_alignment = 2;
}

is_info : parse_reply info_reply ≡ some (device_info card)
is_info = unfold parse_reply in refl

-- The first read times out, and the second finds a report.
sync-info_example :
    sync (record {
      writes = none ∷ none ∷ none ∷ [];
      reads = failed io_timeout ∷ done report ∷ done info_reply ∷ [];
      log = [];
    })
    ≡ (record { writes = []; reads = []; log = exchanges 3 }, done card)
sync-info_example =
    sync-info (failed io_timeout ∷ done report ∷ []) info_reply [] [] [] card (omega arith)
      (refl, (unfold parse_reply in (λ spec e. cc e), tt)) is_info

abbrev opens : Usb.OpenAnswers
opens = record {
  created = done 1;
  configured = done 2;
  selected = none;
  pipes =
      record { address = 0x01; handle = 11 }
      ∷ record { address = 0x81; handle = 12 }
      ∷ record { address = 0x82; handle = 13 }
      ∷ record { address = 0x06; handle = 14 }
      ∷ [];
}

abbrev ready : Bus
ready = record { writes = none ∷ []; reads = done info_reply ∷ []; log = [] }

prepare_hardware-IsPrepared_example :
    IsPrepared opens (new_context []) (prepare_hardware opens true [] (new_context []) ready).1.0
prepare_hardware-IsPrepared_example =
    prepare_hardware-IsPrepared opens true [] (new_context []) ready (
      unfold prepare_hardware prepare_opened prepare_with conclude_prepare add_all conclude_add
        add_circuits open_once open_usb select_streaming find_pipe sync sync_loop Usb.send
        next_write attempt receive next_read attempt_of info_of parse_reply streams record_version
        new_context in
      refl)

abbrev granted : AllocateAnswers
granted = record { request = none; urb = none; mdl = true }

-- The memory for the second transfer is not described.
abbrev start_answers : StartAnswers
start_answers = record {
  reset_in = none;
  reset_out = none;
  allocations = granted ∷ record granted { mdl = false } ∷ [];
  submissions = [];
}

start-KeepsNothing_example : KeepsNothing 5 (start start_answers hz48000 176 5 ready).1
start-KeepsNothing_example = start-KeepsNothing start_answers hz48000 176 5 ready

abbrev sent_answers : SendAnswers
sent_answers = record { reuse = none; format = none; sent = true; status = io_timeout }

-- The first capture transfer is on its way.
abbrev sent_once : World
sent_once = record {
  flow = (submit_capture sent_answers new_flow).0;
  captures = set (replicate 16 idle) 0 (submitted (submit_capture sent_answers new_flow).1);
}

sent_once_reached : Reached sent_once
sent_once_reached = stepped at_start (submits started 0 sent_answers (omega arith) refl)

wait_ends_example :
    ((n : ℕ) (w' : World) → Completions n sent_once w' → n ≤ 48)
    × ((n : ℕ) × ((w' : World) × ((Completions n sent_once w') × (w'.flow.in_flight ≡ 0))))
wait_ends_example = wait_ends sent_once_reached

-- It fails, and its completion routine ends.
abbrev failed_once : World
failed_once = record {
  flow = (capture_entered false sent_once.flow).0;
  captures = set sent_once.captures 0 (entered (capture_entered false sent_once.flow).1);
}

abbrev ended : World
ended = record {
  flow = capture_left false sent_answers sent_answers 0 failed_once.flow;
  captures =
      set failed_once.captures 0 (after_left false sent_answers sent_answers 0 failed_once.flow);
}

ended_reached : Reached ended
ended_reached =
    stepped
      (stepped sent_once_reached (enters sent_once 0 false (unfold submit_capture send in refl)))
      (leaves failed_once 0 false sent_answers sent_answers 0 (unfold capture_entered in refl))

none_in_flight_example : AllIdle ended.captures × AllFree ended.flow.busy
none_in_flight_example =
    none_in_flight ended_reached
      (unfold capture_left finish_capture capture_entered submit_capture send in refl)
