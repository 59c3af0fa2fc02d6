-- ===== src/Host/Driver.antt =====
-- The `IASIO` object: `Driver`, `Session` and `AsioObject` of asio/src/driver.rs, and the methods that do
-- not touch a session (Driver/Streams has the others, Driver/Create `create_buffers`). A method gives the
-- driver as it leaves it, its result, and its effects. A sample rate that a host passes as a float is
-- `some` natural number, or `none` where it is no such number. An error's message is kept as its form
-- and its arguments.
pub mod Object
pub mod Streams
pub mod Create
pub mod Counts
pub mod Counted
pub mod Valid
pub mod Accepts
pub mod Requests
use ak1_driver.Prelude.{
  ℕ, zero, suc, ◌+◌, ◌*◌, ◌/◌, ◌%◌, ◌^◌, Bool, true, false, List, [], ◌∷◌, Option, none, some, ltb,
  leb, replicate, ◌==◌, if◌then◌else◌,
}
use ak1_driver.Prelude.Int.{ℤ, pos, negsuc}
use ak1_driver.Proto.Buffers.{inputs, outputs}
use ak1_driver.Host.Abi.{
  AsioError, ok, success, not_present, invalid_parameter, no_clock, AsioU64, asio_u64_from,
  write_c_string,
}
use ak1_driver.Host.Settings as Settings
use ak1_driver.Host.Settings.{
  Settings, rates, transfer_ms, min_buffer_frames, max_buffer_frames, buffer_frames,
}
use ak1_driver.Host.Duplex.{WinError, Effect, Host, Clock, Duplex, request_reset}

pub data Message : Type 0 where
  empty : Message
  not_found : Message
  looking_failed : WinError → Message
  start_before_create : Message
  another_host : Message
  starting_failed : WinError → Message
  unsupported_rate : Option ℕ → Message
  buffers_exist : Message
  not_initialized : Message
  size_outside : (size : ℤ) (min max rate : ℕ) → Message
  no_channel : ℤ → Message
  opening_failed : WinError → Message
  panel_failed : WinError → Message

pub record Session : Type 0 where
  pub duplex : Duplex
  pub buffers : List (List ℤ)
  pub host : Host
  pub active_inputs : List Bool
  pub active_outputs : List Bool
  pub running : Bool
  pub stale_size : Bool

pub record Driver : Type 0 where
  pub device : Option ℕ
  pub error : Message
  pub rate : ℕ
  pub listed_rate : Option ℕ
  pub session : Option Session

-- What `read_dword` answers for the two settings.
pub record Registry : Type 0 where
  pub sample_rate : Option ℕ
  pub buffer_multiple : Option ℕ

unfoldable pub settings : Registry → Settings
settings registry = Settings.load registry.sample_rate registry.buffer_multiple

-- The driver of a new object.
unfoldable pub new : Registry → Driver
unfolding settings
new registry = record {
  device = none;
  error = empty;
  rate = (settings registry).sample_rate;
  listed_rate = none;
  session = none;
}

unfoldable pub fail : Driver → AsioError → Message → Driver × AsioError × List Effect
fail driver error message = (record driver { error = message }, error, [])

-- `find_device`'s answer.
pub data Found : Type 0 where
  found : (path : ℕ) → Found
  absent : Found
  search_failed : WinError → Found

unfoldable pub init : Found → Driver → Driver × Bool
init (found path) driver = (record driver { device = some path }, true)
init absent driver = (record driver { error = not_found }, false)
init (search_failed e) driver = (record driver { error = looking_failed e }, false)

-- The text of the messages and of an error is the system's and the formatter's.
unfoldable pub get_error_message : (text : Message → List ℕ) → Driver → (message : List ℕ) → List ℕ
get_error_message text driver message = write_c_string message 124 (text driver.error)

abbrev pub driver_version : ℕ
driver_version = 1

-- `Audio Kontrol 1`.
abbrev pub driver_name : List ℕ
driver_name =
    65 ∷ 117 ∷ 100 ∷ 105 ∷ 111 ∷ 32 ∷ 75 ∷ 111 ∷ 110 ∷ 116 ∷ 114 ∷ 111 ∷ 108 ∷ 32 ∷ 49 ∷ []

unfoldable pub get_driver_name : (name : List ℕ) → List ℕ
get_driver_name name = write_c_string name 32 driver_name

unfoldable pub get_channels : ℕ × ℕ × AsioError
get_channels = (inputs, outputs, ok)

-- The period of the session, or the one that the settings offer.
unfoldable pub period_frames : Registry → Driver → ℕ
period_frames registry driver = elim driver.session [
  | none ↦ buffer_frames (settings registry) driver.rate
  | some session ↦ session.host.buffer_frames
]

unfoldable pub get_latencies : Registry → Driver → ℕ × ℕ × AsioError
unfolding period_frames
get_latencies registry driver =
    let frames = period_frames registry driver in
    let transfer = driver.rate * transfer_ms / 1000 in
    (frames + transfer, frames + 2 * transfer, ok)

-- The smallest, the largest and the preferred size, and the granularity.
pub record Sizes : Type 0 where
  pub min : ℕ
  pub max : ℕ
  pub preferred : ℕ
  pub granularity : ℤ

unfoldable pub get_buffer_size : Registry → Driver → Driver × Sizes × AsioError
get_buffer_size registry driver = (
  record driver { listed_rate = some driver.rate },
  record {
    min = min_buffer_frames driver.rate;
    max = max_buffer_frames driver.rate;
    preferred = buffer_frames (settings registry) driver.rate;
    granularity = negsuc 0;
  },
  ok,
)

unfoldable pub find_listed : List ℕ → Option ℕ → Option ℕ
find_listed listed none = none
find_listed [] (some rate) = none
find_listed (r ∷ listed) (some rate) = if r == rate then some r else find_listed listed (some rate)

unfoldable pub can_sample_rate : (rate : Option ℕ) → AsioError
unfolding find_listed
can_sample_rate rate = elim (find_listed rates rate) [ none ↦ no_clock | some _ ↦ ok ]

unfoldable pub get_sample_rate : Driver → ℕ × AsioError
get_sample_rate driver = (driver.rate, ok)

-- A session's streams are opened at one rate: the host is asked to build it again.
unfoldable pub change_rate :
    (supported : Bool) → ℕ → Driver → Option Session → Driver × AsioError × List Effect
change_rate supported rate driver session = (
  record driver { rate = rate },
  ok,
  elim session [ none ↦ [] | some _ ↦ request_reset supported ],
)

-- `supported`: what the host says of reset requests, if it is asked.
unfoldable pub set_sample_rate :
    (supported : Bool) → (rate : Option ℕ) → Driver → Driver × AsioError × List Effect
unfolding find_listed fail change_rate
set_sample_rate supported rate driver = elim (find_listed rates rate) [
  | none ↦ fail driver no_clock (unsupported_rate rate)
  | some listed ↦
      if listed == driver.rate
      then (driver, ok, [])
      else change_rate supported listed driver driver.session
]

pub record ClockSource : Type 0 where
  pub index : ℤ
  pub associated_channel : ℤ
  pub associated_group : ℤ
  pub is_current_source : Bool
  pub name : List ℕ

-- `Internal`.
abbrev pub internal : List ℕ
internal = 73 ∷ 110 ∷ 116 ∷ 101 ∷ 114 ∷ 110 ∷ 97 ∷ 108 ∷ []

-- `none` for the source where nothing is written. `room` is the count at a pointer that may be null.
unfoldable pub get_clock_sources :
    (clocks : Bool) (room : Option ℤ) → Option (ClockSource × ℤ) × AsioError
get_clock_sources false room = (none, invalid_parameter)
get_clock_sources true none = (none, invalid_parameter)
get_clock_sources true (some (negsuc n)) = (none, invalid_parameter)
get_clock_sources true (some (pos zero)) = (none, invalid_parameter)
get_clock_sources true (some (pos (suc n))) = (
  some (
    record {
      index = pos 0;
      associated_channel = negsuc 0;
      associated_group = negsuc 0;
      is_current_source = true;
      name = write_c_string (replicate 32 0) 32 internal;
    },
    pos 1,
  ),
  ok,
)

unfoldable pub set_clock_source : (reference : ℤ) → AsioError
set_clock_source (pos zero) = ok
set_clock_source (pos (suc n)) = invalid_parameter
set_clock_source (negsuc n) = invalid_parameter

unfoldable pub get_sample_position : Clock → AsioU64 × AsioU64 × AsioError
get_sample_position clock =
    (asio_u64_from clock.sample_position, asio_u64_from clock.system_time_ns, ok)

-- Whether the panel could be started; no session is involved.
unfoldable pub control_panel : Option WinError → Driver → Driver × AsioError × List Effect
unfolding fail
control_panel none driver = (driver, ok, [])
control_panel (some e) driver = fail driver not_present (panel_failed e)

abbrev pub can_time_info : ℕ
can_time_info = 0x23111961

unfoldable pub future : (selector : ℤ) → AsioError
future (pos n) = if n == can_time_info then success else invalid_parameter
future (negsuc n) = invalid_parameter

unfoldable pub output_ready : AsioError
output_ready = not_present
