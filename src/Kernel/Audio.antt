-- ===== src/Kernel/Audio.antt =====
-- `Audio` of driver/ak1-acx/src/audio.rs: who holds the card's rate, whether the engine runs, and the
-- ASIO session. A function is a whole call, made of the sections that the spin lock and the engine's start
-- divide it into; Steps/Sections interleaves these. `Engine::start` answers from
-- `answers`, one for each call (none left is a refusal); a running engine is the rate and the packet
-- size that it was started with. A stream is known by a number, its own state is in Kernel/Rt.
pub mod Steps
pub mod Mix
use ak1_driver.Prelude.{
  ℕ, zero, suc, ◌+◌, ◌-◌, ◌<◌, Bool, true, false, ◌&&◌, not, List, [], ◌∷◌, Option, none, some,
  get_or, set, leb, ltb, ◌==◌, if◌then◌else◌,
}
use ak1_driver.Proto.Wire.{SampleRate, hz, DeviceSpec, max_packet_bytes}
use ak1_driver.Kernel.Rt.{Slot, RtStream}
use ak1_driver.Kernel.Rt
use ak1_driver.Kernel.Session.{Session, Refusal, Result}

pub record Shared : Type 0 where
  pub streams : ℕ
  pub rate : Option SampleRate

pub record Engine : Type 0 where
  pub engine_rate : SampleRate
  pub packet_bytes : ℕ

pub record Hardware : Type 0 where
  pub usb : Bool
  pub spec : Option DeviceSpec
  pub engine : Option Engine
  pub prepared : ℕ

pub record Audio : Type 0 where
  pub hardware : Hardware
  pub shared : Shared
  pub running : List (Option ℕ)
  pub asio : Option Session
  pub answers : List (Option Refusal)

unfoldable pub new : List (Option Refusal) → Audio
new answers = record {
  hardware = record { usb = false; spec = none; engine = none; prepared = 0 };
  shared = record { streams = 0; rate = none };
  running = none ∷ none ∷ none ∷ [];
  asio = none;
  answers = answers;
}

unfoldable pub attach : Audio → DeviceSpec → Audio
attach a spec = record a { hardware = record a.hardware { usb = true; spec = some spec } }

-- `get_or_insert`.
abbrev pub or_rate : Option SampleRate → SampleRate → SampleRate
or_rate none rate = rate
or_rate (some held) rate = held

unfoldable pub claim_rate : Audio → SampleRate → Audio
claim_rate a rate = record a {
  shared = record { streams = a.shared.streams + 1; rate = some (or_rate a.shared.rate rate) };
}

unfoldable pub release_rate : Audio → Audio
release_rate a =
    let streams = a.shared.streams - 1 in
    record a {
      shared = record { streams = streams; rate = if streams == 0 then none else a.shared.rate };
    }

-- `Engine::start`.
unfoldable pub engine_start :
    List (Option Refusal) → SampleRate → DeviceSpec → List (Option Refusal) × Result Engine
engine_start [] rate spec = ([], Result.err Refusal.unsuccessful)
engine_start (some refusal ∷ answers) rate spec = (answers, Result.err refusal)
engine_start (none ∷ answers) rate spec =
    (answers, Result.ok (record { engine_rate = rate; packet_bytes = max_packet_bytes spec rate }))

unfoldable pub start_engine : Audio → SampleRate → Audio × Result Unit
unfolding engine_start
start_engine a rate = elim a.hardware.spec [
  | none ↦ (a, Result.err Refusal.device_not_ready)
  | some spec ↦
      let (answers, started) = engine_start a.answers rate spec in
      if not a.hardware.usb then (a, Result.err Refusal.device_not_ready) else elim started [
        | Result.err refusal ↦ (record a { answers = answers }, Result.err refusal)
        | Result.ok engine ↦ (
          record a { answers = answers; hardware = record a.hardware { engine = some engine } },
          Result.ok tt,
        )
      ]
]

unfoldable pub stop_engine : Audio → Audio
stop_engine a = record a { hardware = record a.hardware { engine = none } }

abbrev pub count_prepared : Audio → Audio
count_prepared a = record a { hardware = record a.hardware { prepared = a.hardware.prepared + 1 } }

-- `prepared.saturating_sub(1)`, and what follows it in `release` and in `stop_asio`.
abbrev pub drop_prepared : Audio → Audio
drop_prepared a =
    let a' = record a { hardware = record a.hardware { prepared = a.hardware.prepared - 1 } } in
    if a'.hardware.prepared == 0 then stop_engine a' else a'

-- With the rate that was read. The stream is reset on every branch.
unfoldable pub prepare_at : Option SampleRate → Audio → RtStream → Audio × RtStream × Result Unit
prepare_at read a stream =
    let rate = or_rate read stream.rate in
    let (a', started) = start_engine a rate in
    elim a.hardware.engine [
      | some engine ↦ (count_prepared a, Rt.reset stream, Result.ok tt)
      | none ↦ elim started [
        | Result.err refusal ↦ (a', Rt.reset stream, Result.err refusal)
        | Result.ok _ ↦ (count_prepared a', Rt.reset stream, Result.ok tt)
      ]
    ]

unfoldable pub prepare : Audio → RtStream → Audio × RtStream × Result Unit
unfolding prepare_at
prepare a stream = prepare_at a.shared.rate a stream

abbrev pub slot_index : Slot → ℕ
slot_index Slot.output12 = 0
slot_index Slot.output34 = 1
slot_index Slot.input12 = 2

unfoldable pub run : Audio → Slot → (stream : ℕ) → Audio
run a slot stream = record a { running = set a.running (slot_index slot) (some stream) }

abbrev pub same_stream : Option ℕ → ℕ → Bool
same_stream none stream = false
same_stream (some other) stream = other == stream

unfoldable pub pause : Audio → Slot → (stream : ℕ) → Audio
pause a slot stream =
    if same_stream (get_or a.running (slot_index slot) none) stream
    then record a { running = set a.running (slot_index slot) none }
    else a

unfoldable pub release : Audio → Slot → (stream : ℕ) → Audio
release a slot stream = drop_prepared (pause a slot stream)

abbrev pub same_rate : Option SampleRate → SampleRate → Bool
same_rate none rate = false
same_rate (some held) rate = hz held == hz rate

-- After a failed start: what `start_asio` claimed is given back.
unfoldable pub give_back : Audio → (previous : Option SampleRate) → Audio
give_back a previous =
    let streams = a.shared.streams - 1 in
    record a {
      shared = record { streams = streams; rate = if streams == 0 then none else previous };
    }

-- The streams that were playing at the rate before keep playing.
unfoldable pub restart : Audio → (restored : Option SampleRate) → Audio
restart a none = a
restart a (some rate) = if ltb 0 a.hardware.prepared then (start_engine a rate).0 else a

unfoldable pub restore : Audio → (previous : Option SampleRate) → Audio
unfolding give_back restart
restore a previous = restart (give_back a previous) (give_back a previous).shared.rate

-- The claim of the rate, and the stop of an engine at another.
abbrev pub claimed : Audio → SampleRate → Audio
claimed a rate =
    let taken = record a { shared = record { streams = a.shared.streams + 1; rate = some rate } } in
    if same_rate a.shared.rate rate then taken else stop_engine taken

abbrev pub join : Audio → Session → Audio
join a session = record (count_prepared a) { asio = some session }

-- What `start_asio` does once the engine was asked to start.
unfoldable pub conclude :
    Audio → Result Unit → Session → (previous : Option SampleRate) → Audio × Result Unit
conclude a (Result.err refusal) session previous = (restore a previous, Result.err refusal)
conclude a (Result.ok _) session previous = (join a session, Result.ok tt)

-- The start of an engine where none runs.
unfoldable pub start_stopped : Option Engine → Audio → SampleRate → Audio × Result Unit
start_stopped (some engine) a rate = (a, Result.ok tt)
start_stopped none a rate = start_engine a rate

-- What `start_asio` does once it has the rate.
unfoldable pub start_if_stopped :
    Option Engine
    → Audio
    → Session
    → (rate : SampleRate) → (previous : Option SampleRate) → Audio × Result Unit
unfolding conclude start_stopped
start_if_stopped engine a session rate previous =
    let (a', outcome) = start_stopped engine a rate in conclude a' outcome session previous

unfoldable pub start_unless_busy :
    Option Session → Audio → Session → SampleRate → Audio × Result Unit
unfolding start_if_stopped
start_unless_busy (some other) a session rate = (a, Result.err Refusal.device_busy)
start_unless_busy none a session rate =
    let stopped = claimed a rate in
    start_if_stopped stopped.hardware.engine stopped session rate a.shared.rate

unfoldable pub start_asio : Audio → Session → SampleRate → Audio × Result Unit
unfolding start_unless_busy
start_asio a session rate = start_unless_busy a.asio a session rate

-- The end of the session, but for its claim of the rate.
abbrev pub left : Audio → Audio
left a = drop_prepared (record a { asio = none })

-- Ends the session `owner` started, if any.
unfoldable pub stop_asio : Audio → (owner : ℕ) → Audio
stop_asio a owner = elim a.asio [
  | none ↦ a
  | some session ↦ if session.owner == owner then release_rate (left a) else a
]

-- Runs `f` on the session `owner` started.
unfoldable pub with_asio :
    {R : Type 0} → Audio → (owner : ℕ) → (Session → Session × R) → Audio × Result R
with_asio a owner f = elim a.asio [
  | none ↦ (a, Result.err Refusal.invalid_device_state)
  | some session ↦
      let (session', result) = f session in
      if session.owner == owner
      then (record a { asio = some session' }, Result.ok result)
      else (a, Result.err Refusal.invalid_device_state)
]

unfoldable pub suspend : Audio → Audio
suspend a = stop_engine a

-- With the rate that was read.
unfoldable pub resume_at : Option SampleRate → Audio → Audio × Result Unit
resume_at read a = elim read [
  | none ↦ (a, Result.ok tt)
  | some rate ↦ elim a.hardware.engine [
    | some engine ↦ (a, Result.ok tt)
    | none ↦ if ltb 0 a.hardware.prepared then start_engine a rate else (a, Result.ok tt)
  ]
]

unfoldable pub resume : Audio → Audio × Result Unit
unfolding resume_at
resume a = resume_at a.shared.rate a
