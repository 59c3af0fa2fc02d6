-- ===== src/Kernel/Device.antt =====
-- The device's events: driver/ak1-acx/src/lib.rs. The framework's answers are arguments; a step that the
-- framework is asked for is an effect. Circuits and file objects are numbers.
pub mod Prepared
pub mod Stats
use ak1_driver.Prelude.{
  ℕ, ◌+◌, Bool, true, false, ◌||◌, ◌&&◌, not, List, [], ◌∷◌, ◌++◌, Option, none, some, replicate,
  get_or, ◌==◌, if◌then◌else◌,
}
use ak1_driver.Proto.Wire.{DeviceSpec, streams}
use ak1_driver.Kernel.Session.{Refusal, Result}
use ak1_driver.Kernel.Audio as Audio
use ak1_driver.Kernel.Audio.{Audio, attach, stop_asio, suspend, resume}
use ak1_driver.Kernel.Usb.{
  Status, not_supported, Outcome, done, failed, check, Bus, Pipe, Usb, OpenAnswers, open_usb, sync,
  reset_port, select_streaming,
}

pub data Effect : Type 0 where
  add_circuit : (circuit : Option ℕ) → Effect
  remove_circuit : (circuit : Option ℕ) → Effect
  assign_firmware_version : ℕ → Effect
  assign_stream_stats : List ℕ → Effect
  assign_asio_stats : ℕ × ℕ → Effect

-- A circuit that was not created is `none`.
pub record Context : Type 0 where
  pub usb : Option Usb
  pub audio : Audio
  pub circuits : List (Option ℕ)
  pub circuits_added : Bool

-- The answers to `add_device`'s calls, in their order.
pub record AddAnswers : Type 0 where
  pub init : Option Status
  pub create : Option Status
  pub lock : Option Status
  pub initialize : Option Status
  pub circuits : Outcome (List (Option ℕ))

unfoldable pub new_context : (starts : List (Option Refusal)) → Context
new_context starts = record {
  usb = none;
  audio = Audio.new starts;
  circuits = replicate 3 none;
  circuits_added = false;
}

unfoldable pub with_circuits : Context → Outcome (List (Option ℕ)) → Option Context × Outcome Unit
with_circuits context (failed status) = (some context, failed status)
with_circuits context (done circuits) = (some (record context { circuits = circuits }), done tt)

-- The device's context, once there is one. `starts` answers the starts of its engine.
unfoldable pub add_device :
    AddAnswers → (starts : List (Option Refusal)) → Option Context × Outcome Unit
unfolding new_context with_circuits
add_device answers starts = elim answers.init [
  | some status ↦ (none, failed status)
  | none ↦ elim answers.create [
    | some status ↦ (none, failed status)
    | none ↦ elim answers.lock [
      | some status ↦ (none, failed status)
      | none ↦ elim answers.initialize [
        | some status ↦ (some (new_context starts), failed status)
        | none ↦ with_circuits (new_context starts) answers.circuits
      ]
    ]
  ]
]

-- Ends the ASIO session of a handle that closes.
unfoldable pub file_cleanup : Context → (file : ℕ) → Context
file_cleanup context file = record context { audio = stop_asio context.audio file }

-- The loop over the circuits; answers that run out are successes.
unfoldable pub add_circuits : List (Option Status) → List (Option ℕ) → Outcome Unit × List Effect
add_circuits answers [] = (done tt, [])
add_circuits [] (circuit ∷ circuits) =
    let (r, effects) = add_circuits [] circuits in (r, add_circuit circuit ∷ effects)
add_circuits (some status ∷ answers) (circuit ∷ circuits) =
    (failed status, add_circuit circuit ∷ [])
add_circuits (none ∷ answers) (circuit ∷ circuits) =
    let (r, effects) = add_circuits answers circuits in (r, add_circuit circuit ∷ effects)

unfoldable pub conclude_add :
    Context → Outcome Unit × List Effect → Context × Outcome Unit × List Effect
conclude_add context (failed status, effects) = (context, failed status, effects)
conclude_add context (done _, effects) =
    (record context { circuits_added = true }, done tt, effects)

-- Circuits are added once.
unfoldable pub add_all : List (Option Status) → Context → Context × Outcome Unit × List Effect
unfolding add_circuits conclude_add
add_all answers context =
    if context.circuits_added
    then (context, done tt, [])
    else conclude_add context (add_circuits answers context.circuits)

abbrev pub is_supported : DeviceSpec → Bool
is_supported spec = spec.data_alignment == 2 && streams spec == 2

-- Where the registry key opens, it gets the firmware's version.
unfoldable pub record_version : (opened : Bool) → DeviceSpec → List Effect
record_version opened spec = if opened then assign_firmware_version spec.fw_version ∷ [] else []

unfoldable pub conclude_prepare :
    (key : Bool)
    → DeviceSpec
    → Context × Outcome Unit × List Effect
    → Context × Outcome Unit × List Effect
unfolding record_version
conclude_prepare key spec (context, failed status, effects) = (context, failed status, effects)
conclude_prepare key spec (context, done _, effects) =
    (context, done tt, effects ++ record_version key spec)

-- With the device's answer to `sync`.
unfoldable pub prepare_with :
    (key : Bool)
    → List (Option Status)
    → Context
    → Outcome DeviceSpec
    → Context × Outcome Unit × List Effect
unfolding add_all conclude_prepare
prepare_with key answers context (failed status) = (context, failed status, [])
prepare_with key answers context (done spec) =
    let attached : Context = record context { audio = attach context.audio spec } in
    if is_supported spec
    then conclude_prepare key spec (add_all answers attached)
    else (context, failed not_supported, [])

-- The target is opened once.
unfoldable pub open_once : OpenAnswers → Context → Outcome Context
open_once answers context = elim context.usb [
  | some usb ↦ done context
  | none ↦ elim (open_usb answers) [
    | failed status ↦ failed status
    | done usb ↦ done (record context { usb = some usb })
  ]
]

unfoldable pub prepare_opened :
    (key : Bool)
    → List (Option Status)
    → Context
    → Bus
    → Outcome Context
    → Bus × (Context × Outcome Unit × List Effect)
unfolding prepare_with
prepare_opened key answers context bus (failed status) = (bus, (context, failed status, []))
prepare_opened key answers context bus (done opened) =
    let (bus', spec) = sync bus in (bus', prepare_with key answers opened spec)

unfoldable pub prepare_hardware :
    OpenAnswers
    → (key : Bool) → List (Option Status)
    → Context
    → Bus
    → Bus × (Context × Outcome Unit × List Effect)
unfolding open_once prepare_opened
prepare_hardware opens key answers context bus =
    prepare_opened key answers context bus (open_once opens context)

-- The answers to the reset of the port and to the selection of the setting.
pub record RestoreAnswers : Type 0 where
  pub reset : Option Status
  pub selected : Option Status
  pub pipes : List Pipe

abbrev pub synced : Usb → Bus × Outcome DeviceSpec → Bus × Usb × Outcome Unit
synced usb (bus, done spec) = (bus, usb, done tt)
synced usb (bus, failed status) = (bus, usb, failed status)

abbrev pub selected_then : Bus → Usb × Outcome Unit → Bus × Usb × Outcome Unit
selected_then bus (usb, failed status) = (bus, usb, failed status)
selected_then bus (usb, done _) = synced usb (sync bus)

unfoldable pub restore_usb : RestoreAnswers → Usb → Bus → Bus × Usb × Outcome Unit
restore_usb answers usb bus = elim (reset_port answers.reset) [
  | failed status ↦ (bus, usb, failed status)
  | done _ ↦ selected_then bus (select_streaming answers.selected answers.pipes usb)
]

-- After the restore: streams that cannot restart fail on their own.
abbrev pub resume_after : Context → Bus × Usb × Outcome Unit → Bus × Context × Outcome Unit
resume_after context (bus, usb, failed status) =
    (bus, record context { usb = some usb }, failed status)
resume_after context (bus, usb, done _) =
    (bus, record context { usb = some usb; audio = (resume context.audio).0 }, done tt)

-- `first`: the previous state is D3Final. The framework restores only a device that was prepared; for
-- another the source panics, which is `none`.
unfoldable pub d0_entry :
    RestoreAnswers → (first : Bool) → Context → Bus → Option (Bus × Context × Outcome Unit)
unfolding restore_usb
d0_entry answers true context bus = some (bus, context, done tt)
d0_entry answers false context bus = elim context.usb [
  | none ↦ none
  | some usb ↦ some (resume_after context (restore_usb answers usb bus))
]

unfoldable pub d0_exit : Context → Context
d0_exit context = record context { audio = suspend context.audio }

unfoldable pub remove_circuits : List (Option ℕ) → List Effect
remove_circuits [] = []
remove_circuits (circuit ∷ circuits) = remove_circuit circuit ∷ remove_circuits circuits

unfoldable pub release_hardware : Context → Context × List Effect
unfolding remove_circuits
release_hardware context =
    if context.circuits_added
    then (record context { circuits_added = false }, remove_circuits context.circuits)
    else (context, [])

-- A stream that moved no audio does not hide the one before.
unfoldable pub record_stream_stats : (opened : Bool) (snapshot : List ℕ) → List Effect
record_stream_stats opened snapshot =
    if get_or snapshot 0 0 == 0
    then []
    else if opened
    then assign_stream_stats snapshot ∷ []
    else []

unfoldable pub record_asio_stats : (opened : Bool) (stats : ℕ × ℕ) → List Effect
record_asio_stats opened stats = if opened then assign_asio_stats stats ∷ [] else []
