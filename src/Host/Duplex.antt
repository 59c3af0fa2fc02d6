-- ===== src/Host/Duplex.antt =====
-- The session's handle on the kernel driver: `Host`, `Clock`, `Duplex` and `request_reset` of
-- asio/src/duplex.rs. What is asked of the host, the system and the kernel driver is a list of effects;
-- their answers are arguments. A thread and a file are numbers; a channel's memory is its index in the
-- session's buffers.
pub mod Worker
pub mod Search
use ak1_driver.Prelude.{
  ℕ, Bool, true, false, List, [], ◌∷◌, ◌++◌, Option, none, some, ◌==◌, if◌then◌else◌,
}

-- The errors of the system that the driver tells apart.
pub data WinError : Type 0 where
  busy : WinError
  other : (code : ℕ) → WinError

-- The parameters of the start request; its event is the session's period event.
pub record StartParams : Type 0 where
  pub rate_hz : ℕ
  pub period_frames : ℕ

pub data Effect : Type 0 where
  ask_reset_supported : Effect
  reset_request : Effect
  ask_time_info : Effect
  device_start : StartParams → Effect
  device_stop : Effect
  set_stop_event : Effect
  join : (thread : ℕ) → Effect
  close_events : Effect

pub record Host : Type 0 where
  pub time_info : Bool
  pub buffer_frames : ℕ
  pub rate : ℕ
  pub inputs : List (Option ℕ)
  pub outputs : List (Option ℕ)

pub record Clock : Type 0 where
  pub sample_position : ℕ
  pub system_time_ns : ℕ

pub record Duplex : Type 0 where
  pub device : ℕ
  pub thread : Option ℕ

pub data Opened : Type 0 where
  opened : Duplex → Opened
  refused : WinError → Opened

-- The answers to opening the file and creating the two events.
pub record OpenAnswers : Type 0 where
  pub file : Option WinError
  pub period : Option WinError
  pub stop : Option WinError

unfoldable pub open_device : OpenAnswers → (path : ℕ) → Opened
open_device answers path = elim answers.file [
  | some e ↦ refused e
  | none ↦ elim answers.period [
    | some e ↦ refused e
    | none ↦ elim answers.stop [
      | some e ↦ refused e
      | none ↦ opened (record { device = path; thread = none })
    ]
  ]
]

-- The answers to resetting the two events and to the start request, and the thread that is spawned.
pub record StartAnswers : Type 0 where
  pub reset_period : Option WinError
  pub reset_stop : Option WinError
  pub device : Option WinError
  pub spawned : ℕ

unfoldable pub start_params : Host → StartParams
start_params host = record { rate_hz = host.rate; period_frames = host.buffer_frames }

-- The error, if any, comes second.
unfoldable pub start : StartAnswers → Duplex → Host → Duplex × Option WinError × List Effect
unfolding start_params
start answers duplex host = elim answers.reset_period [
  | some e ↦ (duplex, some e, [])
  | none ↦ elim answers.reset_stop [
    | some e ↦ (duplex, some e, [])
    | none ↦ elim answers.device [
      | some e ↦ (duplex, some e, device_start (start_params host) ∷ [])
      | none ↦ (
        record duplex { thread = some answers.spawned },
        none,
        device_start (start_params host) ∷ [],
      )
    ]
  ]
]

-- Hands the streaming thread over, if there is one.
unfoldable pub signal_stop : Duplex → Duplex × Option ℕ × List Effect
signal_stop duplex = elim duplex.thread [
  | none ↦ (duplex, none, [])
  | some thread ↦ (record duplex { thread = none }, some thread, set_stop_event ∷ [])
]

unfoldable pub stop_streams : List Effect
stop_streams = device_stop ∷ []

-- A thread does not wait for itself.
unfoldable pub join_worker : (current thread : ℕ) → List Effect
join_worker current thread = if thread == current then [] else join thread ∷ []

unfoldable pub join_if_any : (current : ℕ) → Option ℕ → List Effect
unfolding join_worker
join_if_any current none = []
join_if_any current (some thread) = join_worker current thread

-- `Drop for Duplex`.
unfoldable pub drop_duplex : (current : ℕ) → Duplex → List Effect
unfolding signal_stop join_if_any stop_streams
drop_duplex current duplex =
    let (_, thread, signalled) = signal_stop duplex in
    signalled ++ join_if_any current thread ++ stop_streams ++ (close_events ∷ [])

-- `supported`: the host answered 1 to the question.
unfoldable pub request_reset : (supported : Bool) → List Effect
request_reset supported = ask_reset_supported ∷ (if supported then reset_request ∷ [] else [])
