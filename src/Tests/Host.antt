-- ===== src/Tests/Host.antt =====
-- Theorems on asio/src at concrete inputs.
use ak1_driver.Prelude.{
  ◌⊎◌, ℕ, ◌≤◌, ◌≡◌, ◌≢◌, ◌↔◌, inl, refl, true, false, List, [], ◌∷◌, ◌++◌, none, some, arith,
  replicate, get_or,
}
use ak1_driver.Prelude.Int.{pos}
use ak1_driver.Host.Abi.{hw_malfunction, ok}
use ak1_driver.Proto.Buffers.{max_period_frames}
use ak1_driver.Host.Settings as Settings
use ak1_driver.Host.Settings.{
  rates, contains, transfer_ms, min_buffer_frames, max_buffer_frames, buffer_frames, doubled_to,
  next_power_of_two, min_buffer_frames_lem, buffer_frames-load,
}
use ak1_driver.Host.Duplex as Duplex
use ak1_driver.Host.Duplex.{Host, Clock, Duplex, Effect}
use ak1_driver.Host.Duplex.Worker as Worker
use ak1_driver.Host.Duplex.Worker.{
  State, Memory, Turn, Wait, input_samples, deliver_period, filled, unanswered, stopped, signalled,
}
use ak1_driver.Host.Duplex.Worker.Periods.{IsInStep, run-IsInStep}
use ak1_driver.Host.Duplex.Worker.Halves.{
  sample_at, period_input, deliver_period-elsewhere, deliver_period_lem,
}
use ak1_driver.Host.Duplex.Worker.Input.{period_input-fill_value}
use ak1_driver.Kernel.Session.{Result}
use ak1_driver.Kernel.Handlers.{fill_value}
use ak1_driver.Proto.Buffers.{Frame}
use ak1_driver.Prelude.Int.{negsuc, shl32}
use ak1_driver.Prelude.{map}
use ak1_driver.Host.Driver.{
  Driver, Registry, found, settings, new, init, get_buffer_size, set_sample_rate,
}
use ak1_driver.Host.Driver.Create.{BufferInfo, create_buffers, is_accepted}
use ak1_driver.Host.Driver.Valid.{
  IsValid, Reached, created, called, inits, creates, starts, Reached-IsValid,
}
use ak1_driver.Host.Driver.Requests.{AllStarts, IsPassedOn, Reached-IsPassedOn}
use ak1_driver.Host.Driver.Accepts.{CanCreate, is_accepted-set_sample_rate, create_buffers_iff}
use ak1_driver.Host.Driver.Object.{
  driver_class, create_instance, create_queried, query_interface, release, create, add_ref,
  is_driver, object_released, can_unload_now, s_ok, Library,
}
use ak1_driver.Host.Driver.Streams.{start}
use ak1_driver.Host.Driver.Counted as Counted
use ak1_driver.Host.Driver.Counts.{can_unload_now_iff}
use ak1_driver.Host.Driver.Counted.{count_live}

abbrev empty_registry : Registry
empty_registry = record { sample_rate = none; buffer_multiple = none }

-- A driver that found the device at path 5.
abbrev found_driver : Driver
found_driver = (init (found 5) (new empty_registry)).0

abbrev two_channels : List BufferInfo
two_channels =
    record { is_input = true; channel_num = pos 0 }
    ∷ record { is_input = false; channel_num = pos 3 }
    ∷ []

abbrev open_answers : Duplex.OpenAnswers
open_answers = record { file = none; period = none; stop = none }

abbrev start_answers : Duplex.StartAnswers
start_answers = record { reset_period = none; reset_stop = none; device = none; spawned = 7 }

-- With buffers of 256 frames.
abbrev created_driver : Driver
created_driver =
    (create_buffers open_answers true found_driver (some two_channels) (pos 2) (pos 256) true).0

abbrev all_effects : List Effect
all_effects =
    (([] ++ [])
      ++ (create_buffers open_answers true found_driver (some two_channels) (pos 2) (pos 256)
          true).2)
    ++ (start start_answers true created_driver).2

reached : Reached (start start_answers true created_driver).0 all_effects
reached =
    called
      (called (called (created empty_registry) (inits (found 5) (new empty_registry)))
        (creates open_answers true found_driver (some two_channels) (pos 2) (pos 256) true))
      (starts start_answers true created_driver)

Reached-IsPassedOn_example : AllStarts IsPassedOn all_effects
Reached-IsPassedOn_example = Reached-IsPassedOn reached

buffer_frames-load_example :
    let size = buffer_frames (Settings.load (some 7) (some 32)) 96000 in
    (min_buffer_frames 96000 ≤ size)
    × (size ≤ max_buffer_frames 96000)
    × (max_buffer_frames 96000 ≤ max_period_frames)
buffer_frames-load_example = buffer_frames-load (some 7) (some 32) 96000 refl

new-IsValid_found : IsValid found_driver
new-IsValid_found =
    Reached-IsValid (called (created empty_registry) (inits (found 5) (new empty_registry)))

-- 64 frames suit 48 kHz, at which the sizes were read, but are too few at 192 kHz.
is_accepted-set_sample_rate_example :
    is_accepted
      (set_sample_rate true (some 192000) (get_buffer_size empty_registry found_driver).0).0
      (pos 64)
    ≡ true
is_accepted-set_sample_rate_example =
    is_accepted-set_sample_rate empty_registry true (some 192000) found_driver 64 new-IsValid_found
      (unfold get_buffer_size init new settings Settings.load Settings.default Settings.listed_or
          min_buffer_frames next_power_of_two doubled_to in
        omega arith)
      (unfold get_buffer_size init new settings Settings.load Settings.default Settings.listed_or
          max_buffer_frames min_buffer_frames next_power_of_two doubled_to in
        omega arith)

create_buffers_iff_example :
    let made =
      create_buffers open_answers true found_driver (some two_channels) (pos 2) (pos 256) true in
    ((made.1 ≡ ok) ↔ CanCreate open_answers found_driver (some two_channels) (pos 2) (pos 256) true)
    × (made.1 ≢ ok
        → (made.0 ≡ record found_driver { error = made.0.error })
          × ((made.3 ≡ []) ⊎ (made.1 ≡ hw_malfunction)))
create_buffers_iff_example =
    create_buffers_iff open_answers true found_driver (some two_channels) (pos 2) (pos 256) true

abbrev one_object : Library
one_object = (create_instance (record { objects = 0; live = [] }) false (some driver_class) true).0

abbrev no_locks : ℕ
no_locks = 0

object_reached : Counted.Reached one_object no_locks
object_reached =
    Counted.called Counted.loaded
      (Counted.creates (record { objects = 0; live = [] }) 0 false (some driver_class) true)

can_unload_now_iff_example :
    (can_unload_now one_object ≡ s_ok) ↔ ((count_live one_object.live ≡ 0) × (no_locks ≡ 0))
can_unload_now_iff_example = can_unload_now_iff object_reached (
    unfold create_instance create_queried query_interface release create add_ref is_driver
      object_released in
    omega arith)

abbrev host : Host
host = record {
  time_info = true;
  buffer_frames = 2;
  rate = 48000;
  inputs = some 0 ∷ none ∷ [];
  outputs = none ∷ none ∷ none ∷ some 1 ∷ [];
}

-- Two frames of input, 1 and 2 in the first channel.
abbrev value : List ℕ
value = 2 ∷ 0 ∷ 0 ∷ 0 ∷ 1 ∷ 0 ∷ 0 ∷ 0 ∷ 0 ∷ 0 ∷ 0 ∷ 0 ∷ 2 ∷ 0 ∷ 0 ∷ 0 ∷ 0 ∷ 0 ∷ 0 ∷ 0 ∷ []

abbrev clock : Clock
clock = record { sample_position = 0; system_time_ns = 0 }

abbrev memory : Memory
memory = replicate 2 (replicate 4 (pos 0))

abbrev waits : List Wait
waits =
    signalled (
      record { answer = filled 20 value; now_ms = 5; written = true }
      ∷ record { answer = filled 4 (0 ∷ 0 ∷ 0 ∷ 0 ∷ []); now_ms = 5; written = true }
      ∷ [])
    ∷ stopped
    ∷ []

run-IsInStep_example : IsInStep host (Worker.run (λ index m. m) false host clock memory waits).0
run-IsInStep_example = run-IsInStep (λ index m. m) host false clock memory waits

-- The second half is the thread's.
abbrev second : State
second = record { input = value; output = []; index = 1; position = 2 }

deliver_period-elsewhere_example :
    sample_at (deliver_period host second memory) 0 1 ≡ sample_at memory 0 1
deliver_period-elsewhere_example =
    deliver_period-elsewhere host second memory 0 1 (inl (omega arith))

deliver_period_lem_example :
    sample_at (deliver_period host second memory) 0 3
    ≡ get_or (get_or (period_input host second) 1 []) 0 (pos 0)
deliver_period_lem_example =
    deliver_period_lem host second memory 0 0 1 (refl, tt) (omega arith)
      (unfold input_samples in omega arith) (record { allocated = omega arith; long = omega arith })

-- A period of one frame.
abbrev loudest : List Frame
loudest = (pos 8388607 ∷ negsuc 0 ∷ []) ∷ []

-- The thread's state after it read a period of one frame.
abbrev received : State
received = record {
  input = (fill_value (replicate 12 0) (Result.ok (loudest, some 1))).0;
  output = [];
  index = 0;
  position = 1;
}

abbrev one_frame_host : Host
one_frame_host = record host { buffer_frames = 1 }

period_input-fill_value_example :
    period_input one_frame_host received ≡ map (map (λ x. shl32 x 8)) loudest
period_input-fill_value_example =
    period_input-fill_value one_frame_host received (replicate 12 0) loudest
      ((omega arith, omega arith), tt) refl refl refl
