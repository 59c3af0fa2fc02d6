-- ===== src/Host/Driver/Streams.antt =====
-- The methods on a session's streams, and the control panel's changes: `start`, `stop`,
-- `get_channel_info`, `dispose_buffers`, `apply_buffer_size` and `watch_settings` of asio/src/driver.rs.
use ak1_driver.Prelude.{
  ℕ, ◌+◌, Bool, true, false, List, [], ◌∷◌, ◌++◌, Option, none, some, ltb, get_or, ◌==◌,
  if◌then◌else◌,
}
use ak1_driver.Prelude.Int.{ℤ, pos, negsuc}
use ak1_driver.Proto.Buffers.{inputs, outputs}
use ak1_driver.Host.Abi.{
  AsioError, ok, hw_malfunction, invalid_parameter, invalid_mode, write_c_string,
}
use ak1_driver.Host.Settings.{Settings, buffer_frames}
use ak1_driver.Host.Duplex as Duplex
use ak1_driver.Host.Duplex.{
  WinError, busy, other, Effect, Duplex, StartAnswers, signal_stop, stop_streams, join_if_any,
  drop_duplex, request_reset,
}
use ak1_driver.Host.Driver.{
  start_before_create, another_host, starting_failed, Session, Driver, fail,
}

abbrev pub with_session : Driver → Session → Driver
with_session driver session = record driver { session = some session }

-- The error of a start: that another host has the device is told apart.
unfoldable pub refuse_start : Driver → WinError → Driver × AsioError × List Effect
unfolding fail
refuse_start driver busy = fail driver hw_malfunction another_host
refuse_start driver (other code) = fail driver hw_malfunction (starting_failed (other code))

-- What `start` makes of the duplex's answer. A session whose size is stale is reported once.
unfoldable pub conclude_start :
    (supported : Bool)
    → Driver
    → Session
    → Duplex × Option WinError × List Effect
    → Driver × AsioError × List Effect
unfolding refuse_start
conclude_start supported driver session (duplex, none, effects) = (
  with_session driver (record session { duplex = duplex; running = true; stale_size = false }),
  ok,
  effects ++ (if session.stale_size then request_reset supported else []),
)
conclude_start supported driver session (duplex, some e, effects) =
    let (driver', error, _) =
      refuse_start (with_session driver (record session { duplex = duplex })) e in
    (driver', error, effects)

unfoldable pub start_session :
    StartAnswers → (supported : Bool) → Driver → Option Session → Driver × AsioError × List Effect
unfolding conclude_start fail
start_session answers supported driver none = fail driver invalid_mode start_before_create
start_session answers supported driver (some session) =
    if session.running
    then (driver, ok, [])
    else conclude_start supported driver session (Duplex.start answers session.duplex session.host)

unfoldable pub start : StartAnswers → (supported : Bool) → Driver → Driver × AsioError × List Effect
unfolding start_session
start answers supported driver = start_session answers supported driver driver.session

-- The first half of `stop`, with the driver locked: the streaming thread is told to end. `none`: there
-- is nothing to stop.
unfoldable pub stop_session : Driver → Option Session → Option (Driver × Option ℕ × List Effect)
unfolding signal_stop
stop_session driver none = none
stop_session driver (some session) =
    let (duplex, thread, effects) = signal_stop session.duplex in
    let session' : Session = record session { duplex = duplex; running = false } in
    if session.running then some (with_session driver session', thread, effects) else none

unfoldable pub stop_if_present : Option Session → List Effect
unfolding stop_streams
stop_if_present none = []
stop_if_present (some session) = stop_streams

-- Between its two halves `stop` waits for the thread with the driver unlocked: `meanwhile` is what
-- other threads make of the driver there.
unfoldable pub stop :
    (current : ℕ) (meanwhile : Driver → Driver) → Driver → Driver × AsioError × List Effect
unfolding stop_session stop_if_present join_if_any
stop current meanwhile driver = elim (stop_session driver driver.session) [
  | none ↦ (driver, ok, [])
  | some (driver', thread, effects) ↦
      let driver'' = meanwhile driver' in
      (driver'', ok, effects ++ join_if_any current thread ++ stop_if_present driver''.session)
]

unfoldable pub drop_session : (current : ℕ) → Option Session → List Effect
unfolding drop_duplex
drop_session current none = []
drop_session current (some session) = drop_duplex current session.duplex

unfoldable pub dispose_buffers : (current : ℕ) → Driver → Driver × AsioError × List Effect
unfolding drop_session
dispose_buffers current driver =
    (record driver { session = none }, ok, drop_session current driver.session)

pub record ChannelInfo : Type 0 where
  pub channel : ℤ
  pub is_input : Bool
  pub is_active : Bool
  pub channel_group : ℤ
  pub sample_type : ℤ
  pub name : List ℕ

-- `In ` and `Out `.
abbrev pub prefix : Bool → List ℕ
prefix true = 73 ∷ 110 ∷ 32 ∷ []
prefix false = 79 ∷ 117 ∷ 116 ∷ 32 ∷ []

unfoldable pub active : (is_input : Bool) (channel : ℕ) → Option Session → Bool
active is_input channel none = false
active true channel (some session) = get_or session.active_inputs channel false
active false channel (some session) = get_or session.active_outputs channel false

-- The channel's number, from 1, has one digit. An error leaves the info as it was.
unfoldable pub get_channel_info : Driver → ChannelInfo → ChannelInfo × AsioError
unfolding active
get_channel_info driver info = elim info.channel [
  | negsuc n ↦ (info, invalid_parameter)
  | pos channel ↦
      if ltb channel (if info.is_input then inputs else outputs)
      then (
        record info {
          is_active = active info.is_input channel driver.session;
          channel_group = pos 0;
          sample_type = pos 18;
          name = write_c_string info.name 32 (prefix info.is_input ++ ((49 + channel) ∷ []));
        },
        ok,
      )
      else (info, invalid_parameter)
]

-- Asks the host to build its buffers again when the settings offer another size than the session's.
unfoldable pub apply_buffer_size : (supported : Bool) → Settings → Driver → List Effect
apply_buffer_size supported settings driver = elim driver.session [
  | none ↦ []
  | some session ↦
      if session.host.buffer_frames == buffer_frames settings driver.rate
      then []
      else request_reset supported
]

-- The loop of `watch_settings`: what the settings are after each change, and the driver at that time.
unfoldable pub watch_settings :
    (supported : Bool) (last : Settings) → List (Settings × Driver) → List Effect
unfolding apply_buffer_size
watch_settings supported last [] = []
watch_settings supported last ((settings, driver) ∷ changes) =
    let rest = watch_settings supported settings changes in
    if settings.buffer_multiple == last.buffer_multiple
    then rest
    else apply_buffer_size supported settings driver ++ rest
