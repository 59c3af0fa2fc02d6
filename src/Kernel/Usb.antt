-- ===== src/Kernel/Usb.antt =====
-- The card's command pipes and endpoints: `Ak1Usb` of driver/ak1-acx/src/usb.rs. What the USB stack answers
-- to writes and reads on the pipes is a script, in their order; one that runs out answers with a time
-- out. `log` keeps the requests that were written and the reads. Pipes and devices are numbers.
pub mod Replies
pub mod Pipes
use ak1_driver.Prelude.{
  ℕ, zero, suc, ◌+◌, Bool, true, false, List, [], ◌∷◌, ◌++◌, Option, none, some, length, ◌==◌,
  if◌then◌else◌,
}
use ak1_driver.Proto.Wire.{
  SampleRate, DeviceSpec, Reply, device_info, audio_params, midi_read, read_io, read_erp,
  read_analog, other, parse_reply, get_device_info_request, audio_params_request,
}

-- The NTSTATUS values of a failed call.
pub data Status : Type 0 where
  io_timeout : Status
  configuration_error : Status
  not_supported : Status
  failure : (code : ℕ) → Status

pub data Outcome (A : Type 0) : Type 0 where
  done : A → Outcome A
  failed : Status → Outcome A

-- `check` of a call's status.
abbrev pub check : Option Status → Outcome Unit
check none = done tt
check (some status) = failed status

pub data Io : Type 0 where
  wrote : (request : List ℕ) → Io
  asked : Io

pub record Bus : Type 0 where
  pub writes : List (Option Status)
  pub reads : List (Outcome (List ℕ))
  pub log : List Io

-- A call on the pipes, whose effects stay when it fails.
abbrev pub Call : Type 0 → Type 0
Call A = Bus → Bus × Outcome A

infixl 20 ◌>>=◌ ◌>>◌
abbrev pub ◌>>=◌ : {A B : Type 0} → Call A → (A → Call B) → Call B
◌>>=◌ m f bus = let (bus', r) = m bus in elim r [ done a ↦ f a bus' | failed s ↦ (bus', failed s) ]

abbrev pub ◌>>◌ : {B : Type 0} → Call Unit → Call B → Call B
m >> k = m >>= λ _. k

abbrev pub answer : {A : Type 0} → Outcome A → Call A
answer r bus = (bus, r)

unfoldable pub next_write : List (Option Status) → List (Option Status) × Outcome Unit
next_write [] = ([], failed io_timeout)
next_write (w ∷ writes) = (writes, check w)

unfoldable pub next_read : List (Outcome (List ℕ)) → List (Outcome (List ℕ)) × Outcome (List ℕ)
next_read [] = ([], failed io_timeout)
next_read (r ∷ reads) = (reads, r)

unfoldable pub send : List ℕ → Call Unit
unfolding next_write
send request bus =
    let (writes, r) = next_write bus.writes in
    (record bus { writes = writes; log = bus.log ++ (wrote request ∷ []) }, r)

-- One reply, as long as was read.
unfoldable pub receive : Call (List ℕ)
unfolding next_read
receive bus =
    let (reads, r) = next_read bus.reads in
    (record bus { reads = reads; log = bus.log ++ (asked ∷ []) }, r)

-- What an attempt to read the device info comes to.
pub data Attempt : Type 0 where
  info : DeviceSpec → Attempt
  again : Attempt
  stop : Status → Attempt

unfoldable pub info_of : Option Reply → Attempt
info_of none = again
info_of (some (device_info spec)) = info spec
info_of (some (audio_params accepted)) = again
info_of (some (midi_read port bytes)) = again
info_of (some (read_io bytes)) = again
info_of (some (read_erp bytes)) = again
info_of (some (read_analog bytes)) = again
info_of (some (other command payload)) = again

unfoldable pub attempt_of : Outcome (List ℕ) → Attempt
unfolding info_of
attempt_of (done bytes) = info_of (parse_reply bytes)
attempt_of (failed io_timeout) = again
attempt_of (failed configuration_error) = stop configuration_error
attempt_of (failed not_supported) = stop not_supported
attempt_of (failed (failure code)) = stop (failure code)

-- A read whose failure is a value.
unfoldable pub attempt : Call Attempt
unfolding receive attempt_of
attempt bus = let (bus', r) = receive bus in (bus', done (attempt_of r))

abbrev pub sync_attempts : ℕ
sync_attempts = 4

abbrev pub reply_attempts : ℕ
reply_attempts = 8

abbrev pub settle : Attempt → Call DeviceSpec → Call DeviceSpec
settle (info spec) rest = answer (done spec)
settle again rest = rest
settle (stop status) rest = answer (failed status)

-- The loop of `sync`, with `n` attempts left.
unfoldable pub sync_loop : (n : ℕ) → Call DeviceSpec
unfolding send attempt
sync_loop zero = answer (failed io_timeout)
sync_loop (suc n) = do send get_device_info_request; a ← attempt; settle a (sync_loop n)

unfoldable pub sync : Call DeviceSpec
unfolding sync_loop
sync = sync_loop sync_attempts

-- Whether a reply says that the audio parameters are accepted.
unfoldable pub accepted_of : Option Reply → Option Bool
accepted_of none = none
accepted_of (some (device_info spec)) = none
accepted_of (some (audio_params accepted)) = some accepted
accepted_of (some (midi_read port bytes)) = none
accepted_of (some (read_io bytes)) = none
accepted_of (some (read_erp bytes)) = none
accepted_of (some (read_analog bytes)) = none
accepted_of (some (other command payload)) = none

abbrev pub decide : Option Bool → Call Unit → Call Unit
decide none rest = rest
decide (some true) rest = answer (done tt)
decide (some false) rest = answer (failed not_supported)

-- The loop of `set_audio_params`, with `n` reads left.
unfoldable pub reply_loop : (n : ℕ) → Call Unit
unfolding receive accepted_of
reply_loop zero = answer (failed io_timeout)
reply_loop (suc n) = do bytes ← receive; decide (accepted_of (parse_reply bytes)) (reply_loop n)

unfoldable pub set_audio_params : SampleRate → (max_packet_bytes : ℕ) → Call Unit
unfolding send reply_loop
set_audio_params rate max_packet_bytes = do
  send (audio_params_request rate max_packet_bytes)
  reply_loop reply_attempts

-- A configured pipe with its endpoint address.
pub record Pipe : Type 0 where
  pub address : ℕ
  pub handle : ℕ

unfoldable pub find_pipe : List Pipe → (address : ℕ) → Outcome ℕ
find_pipe [] address = failed configuration_error
find_pipe (pipe ∷ pipes) address =
    let rest = find_pipe pipes address in if pipe.address == address then done pipe.handle else rest

-- `none` is a null handle.
pub record Usb : Type 0 where
  pub device : ℕ
  pub interface : ℕ
  pub cmd_out : Option ℕ
  pub cmd_in : Option ℕ
  pub audio_in : Option ℕ
  pub audio_out : Option ℕ

abbrev pub ep_cmd_out : ℕ
ep_cmd_out = 0x01

abbrev pub ep_cmd_in : ℕ
ep_cmd_in = 0x81

abbrev pub ep_audio_in : ℕ
ep_audio_in = 0x82

abbrev pub ep_audio_out : ℕ
ep_audio_out = 0x06

-- A chain of searches: the pipes that were found before one fails stay assigned.
abbrev pub assign : Usb × Outcome Unit → Outcome ℕ → (Usb → ℕ → Usb) → Usb × Outcome Unit
assign (usb, failed status) found put = (usb, failed status)
assign (usb, done _) (failed status) put = (usb, failed status)
assign (usb, done _) (done pipe) put = (put usb pipe, done tt)

-- `selected`: the status of selecting the setting; `pipes`: those that are configured then.
unfoldable pub select_streaming :
    (selected : Option Status) (pipes : List Pipe) → Usb → Usb × Outcome Unit
unfolding find_pipe
select_streaming selected pipes usb =
    let with_cmd_out =
      assign (usb, check selected) (find_pipe pipes ep_cmd_out)
        (λ u pipe. record u { cmd_out = some pipe }) in
    let with_cmd_in =
      assign with_cmd_out (find_pipe pipes ep_cmd_in) (λ u pipe. record u { cmd_in = some pipe }) in
    let with_audio_in =
      assign with_cmd_in (find_pipe pipes ep_audio_in)
        (λ u pipe. record u { audio_in = some pipe }) in
    assign with_audio_in (find_pipe pipes ep_audio_out)
      (λ u pipe. record u { audio_out = some pipe })

-- The answers to creating the target and to selecting the configuration, with their handles, and
-- those to selecting the setting.
pub record OpenAnswers : Type 0 where
  pub created : Outcome ℕ
  pub configured : Outcome ℕ
  pub selected : Option Status
  pub pipes : List Pipe

abbrev pub opened_with : Usb × Outcome Unit → Outcome Usb
opened_with (usb, done _) = done usb
opened_with (usb, failed status) = failed status

unfoldable pub open_usb : OpenAnswers → Outcome Usb
unfolding select_streaming
open_usb answers = elim answers.created [
  | failed status ↦ failed status
  | done device ↦ elim answers.configured [
    | failed status ↦ failed status
    | done interface ↦ opened_with (
        select_streaming answers.selected answers.pipes (record {
          device = device;
          interface = interface;
          cmd_out = none;
          cmd_in = none;
          audio_in = none;
          audio_out = none;
        }))
  ]
]

-- The status of the reset alone.
unfoldable pub reset_port : Option Status → Outcome Unit
reset_port status = check status
