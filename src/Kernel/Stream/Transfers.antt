-- ===== src/Kernel/Stream/Transfers.antt =====
-- The USB engine: `Engine` from `start` to its completion routines, in driver/ak1-acx/src/stream.rs. The framework's
-- answers are arguments. `held` is the count of Transfer. `in_flight` and the counters are `u32`.
pub mod Leaks
pub mod Flight
pub mod Counting
pub mod Answering
pub mod Balance
pub mod Purge
pub mod Drained
use ak1_driver.Prelude.{
  ℕ, zero, suc, ◌+◌, ◌-◌, ◌*◌, ◌%◌, ◌^◌, Bool, true, false, List, [], ◌∷◌, ◌++◌, Option, none, some,
  set, replicate, ◌==◌, if◌then◌else◌,
}
use ak1_driver.Proto.Wire.{SampleRate}
use ak1_driver.Kernel.Stream.{add_u32}
use ak1_driver.Kernel.Usb.{Status, failure, Outcome, done, failed, check, Bus, set_audio_params}
use ak1_driver.Kernel.Stream.Transfer.{AllocateAnswers, Transfer, free_all, make_all}

-- The engine's shared state. `busy` has an entry for each playback transfer.
pub record Flow : Type 0 where
  pub running : Bool
  pub in_flight : ℕ
  pub busy : List Bool
  pub capture_transfers : ℕ
  pub capture_failures : ℕ
  pub playback_transfers : ℕ
  pub playback_failures : ℕ
  pub playback_overruns : ℕ

abbrev pub transfers : ℕ
transfers = 16

abbrev pub sub_u32 : ℕ → ℕ → ℕ
sub_u32 a b = (a + (2 ^ 32 - b)) % 2 ^ 32

pub record SendAnswers : Type 0 where
  pub reuse : Option Status
  pub format : Option Status
  pub sent : Bool
  pub status : Status

-- The count of transfers in flight after it.
unfoldable pub send : SendAnswers → (in_flight : ℕ) → ℕ × Outcome Unit
send answers in_flight = elim answers.reuse [
  | some status ↦ (in_flight, failed status)
  | none ↦ elim answers.format [
    | some status ↦ (in_flight, failed status)
    | none ↦
        if answers.sent
        then (add_u32 in_flight 1, done tt)
        else (sub_u32 (add_u32 in_flight 1) 1, failed answers.status)
  ]
]

-- `submit_capture` sends every packet with its full room.
unfoldable pub submit_capture : SendAnswers → Flow → Flow × Outcome Unit
unfolding send
submit_capture answers flow =
    let (in_flight, r) = send answers flow.in_flight in (record flow { in_flight = in_flight }, r)

-- The first playback transfer that is not busy.
unfoldable pub find_free : List Bool → Option ℕ
find_free [] = none
find_free (false ∷ busy) = some 0
find_free (true ∷ busy) = elim (find_free busy) [ none ↦ none | some i ↦ some (suc i) ]

-- How the sending of playback transfer `i` ends.
unfoldable pub conclude_playback : (i : ℕ) → Flow → ℕ × Outcome Unit → Flow
conclude_playback i flow (in_flight, done _) = record flow { in_flight = in_flight }
conclude_playback i flow (in_flight, failed status) = record flow {
  in_flight = in_flight;
  busy = set flow.busy i false;
  playback_failures = add_u32 flow.playback_failures 1;
}

-- What `answer` does with its playback transfer; `offset` is the length of the packets in it.
unfoldable pub answer_with : SendAnswers → (offset : ℕ) → Flow → Option ℕ → Flow
unfolding send conclude_playback
answer_with answers offset flow none = record flow {
  playback_overruns = add_u32 flow.playback_overruns 1;
}
answer_with answers offset flow (some i) =
    let chosen : Flow = record flow { busy = set flow.busy i true } in
    if offset == 0
    then record chosen { busy = set chosen.busy i false }
    else conclude_playback i chosen (send answers chosen.in_flight)

unfoldable pub answer : SendAnswers → (offset : ℕ) → Flow → Flow
unfolding answer_with find_free
answer answers offset flow = answer_with answers offset flow (find_free flow.busy)

-- `capture_complete` up to its test of `running`, whose result comes second.
unfoldable pub capture_entered : (succeeded : Bool) → Flow → Flow × Bool
capture_entered true flow =
    (record flow { capture_transfers = add_u32 flow.capture_transfers 1 }, flow.running)
capture_entered false flow =
    (record flow { capture_failures = add_u32 flow.capture_failures 1 }, false)

abbrev pub count_failure : Flow × Outcome Unit → Flow
count_failure (flow, done _) = flow
count_failure (flow, failed status) = record flow {
  capture_failures = add_u32 flow.capture_failures 1;
}

unfoldable pub finish_capture : Flow → Flow
finish_capture flow = record flow { in_flight = sub_u32 flow.in_flight 1 }

-- The rest of `capture_complete`.
unfoldable pub capture_left :
    (seen_running : Bool) → (playback capture : SendAnswers) → (offset : ℕ) → Flow → Flow
unfolding answer submit_capture finish_capture
capture_left false playback capture offset flow = finish_capture flow
capture_left true playback capture offset flow =
    finish_capture (count_failure (submit_capture capture (answer playback offset flow)))

unfoldable pub capture_complete :
    (succeeded : Bool) → (playback capture : SendAnswers) → (offset : ℕ) → Flow → Flow
unfolding capture_entered capture_left
capture_complete succeeded playback capture offset flow =
    let (entered, seen_running) = capture_entered succeeded flow in
    capture_left seen_running playback capture offset entered

-- `playback_complete` of transfer `i`.
unfoldable pub playback_complete : (succeeded : Bool) (i : ℕ) → Flow → Flow
playback_complete succeeded i flow = record flow {
  in_flight = sub_u32 flow.in_flight 1;
  busy = set flow.busy i false;
  playback_transfers =
      if succeeded then add_u32 flow.playback_transfers 1 else flow.playback_transfers;
  playback_failures =
      if succeeded then flow.playback_failures else add_u32 flow.playback_failures 1;
}

-- `stop` up to its wait, which ends when nothing is in flight; it purges the targets in between.
unfoldable pub stop_begun : Flow → Flow
stop_begun flow = record flow { running = false }

abbrev pub new_flow : Flow
new_flow = record {
  running = true;
  in_flight = 0;
  busy = replicate transfers false;
  capture_transfers = 0;
  capture_failures = 0;
  playback_transfers = 0;
  playback_failures = 0;
  playback_overruns = 0;
}

-- The loop of `start` that submits the captures; when one fails the engine is stopped.
unfoldable pub submit_all : List SendAnswers → Flow → Flow × Outcome Unit
unfolding submit_capture stop_begun
submit_all [] flow = (flow, done tt)
submit_all (answers ∷ rest) flow = elim (submit_capture answers flow).1 [
  | failed status ↦ (stop_begun (submit_capture answers flow).0, failed status)
  | done _ ↦ submit_all rest (submit_capture answers flow).0
]

pub record StartAnswers : Type 0 where
  pub reset_in : Option Status
  pub reset_out : Option Status
  pub allocations : List AllocateAnswers
  pub submissions : List SendAnswers

-- The engine that `start` leaves with its transfers, or the error, and what is held then.
pub record Started : Type 0 where
  pub flow : Option Flow
  pub made : List Transfer
  pub result : Outcome Unit
  pub held : ℕ

-- When a submission fails, the stopped engine is dropped with its transfers.
abbrev pub conclude_start : (held : ℕ) → List Transfer → Flow × Outcome Unit → Started
conclude_start held made (flow, done _) = record {
  flow = some flow;
  made = made;
  result = done tt;
  held = held;
}
conclude_start held made (flow, failed status) = record {
  flow = some flow;
  made = [];
  result = failed status;
  held = free_all made held;
}

unfoldable pub start_made : List SendAnswers → Outcome (List Transfer) × ℕ → Started
unfolding submit_all free_all
start_made submissions (failed status, held) = record {
  flow = none;
  made = [];
  result = failed status;
  held = held;
}
start_made submissions (done made, held) =
    conclude_start held made (submit_all submissions new_flow)

unfoldable pub start_configured : StartAnswers → (held : ℕ) → Bus × Outcome Unit → Bus × Started
unfolding make_all start_made
start_configured answers held (bus, failed status) =
    (bus, record { flow = none; made = []; result = failed status; held = held })
start_configured answers held (bus, done _) =
    (bus, start_made answers.submissions (make_all answers.allocations [] held))

-- `Engine::start`: one entry of `allocations` for each transfer, in turn for the two pipes.
unfoldable pub start : StartAnswers → SampleRate → (max_packet_bytes held : ℕ) → Bus → Bus × Started
unfolding start_configured
start answers rate max_packet_bytes held bus = elim answers.reset_in [
  | some status ↦ (bus, record { flow = none; made = []; result = failed status; held = held })
  | none ↦ elim answers.reset_out [
    | some status ↦ (bus, record { flow = none; made = []; result = failed status; held = held })
    | none ↦ start_configured answers held (set_audio_params rate max_packet_bytes bus)
  ]
]
