-- ===== src/Host/Driver/Create.antt =====
-- `create_buffers` of asio/src/driver.rs. A pointer into a channel's memory is the index of its
-- allocation and an offset in samples. The infos are a pointer that may be null, with as many infos as
-- `channels` says.
use ak1_driver.Prelude.{
  ℕ, ◌+◌, ◌-◌, ◌*◌, min, Bool, true, false, ◌&&◌, not, List, [], ◌∷◌, Option, none, some, length,
  take, replicate, set, get_or, ltb, leb, if◌then◌else◌,
}
use ak1_driver.Prelude.Int.{ℤ, pos, negsuc}
use ak1_driver.Proto.Buffers.{inputs, outputs}
use ak1_driver.Host.Abi.{
  AsioError, ok, not_present, hw_malfunction, invalid_parameter, invalid_mode,
}
use ak1_driver.Host.Settings.{rates, min_buffer_frames, max_buffer_frames}
use ak1_driver.Host.Duplex.{
  Effect, ask_time_info, Host, Duplex, OpenAnswers, Opened, opened, refused, open_device,
}
use ak1_driver.Host.Driver.{
  Message, buffers_exist, not_initialized, size_outside, no_channel, opening_failed, Session,
  Driver,
}

pub record BufferInfo : Type 0 where
  pub is_input : Bool
  pub channel_num : ℤ

abbrev pub Pointer : Type 0
Pointer = ℕ × ℕ

-- `usize::try_from(..).is_ok_and(..)`.
abbrev pub is_below : ℤ → ℕ → Bool
is_below (pos n) limit = ltb n limit
is_below (negsuc n) limit = false

abbrev pub as_usize : ℤ → ℕ
as_usize (pos n) = n
as_usize (negsuc n) = 0

-- The first channel number that is none.
unfoldable pub first_bad : List BufferInfo → Option ℤ
first_bad [] = none
first_bad (info ∷ infos) =
    let rest = first_bad infos in
    if is_below info.channel_num (if info.is_input then inputs else outputs)
    then rest
    else some info.channel_num

-- The smallest size that is accepted: one that suits the rate or the rate the sizes were read at.
unfoldable pub smallest : Driver → ℕ
smallest driver =
    let rate_min = min_buffer_frames driver.rate in
    elim driver.listed_rate [
      | none ↦ rate_min
      | some listed ↦ min rate_min (min_buffer_frames listed)
    ]

abbrev pub largest : ℕ
largest = max_buffer_frames (get_or rates (length rates - 1) 0)

unfoldable pub is_accepted : Driver → (size : ℤ) → Bool
unfolding smallest
is_accepted driver (pos size) = leb (smallest driver) size && leb size largest
is_accepted driver (negsuc n) = false

-- Allocation `i` on: where each info's two halves are.
unfoldable pub pointers : (frames i : ℕ) → List BufferInfo → List (Pointer × Pointer)
pointers frames i [] = []
pointers frames i (info ∷ infos) = ((i, 0), (i, frames)) ∷ pointers frames (i + 1) infos

abbrev pub same : Bool → Bool → Bool
same true b = b
same false b = not b

-- The channels of one direction that are active.
unfoldable pub mark : (is_input : Bool) → List BufferInfo → List Bool → List Bool
mark is_input [] channels = channels
mark is_input (info ∷ infos) channels = mark is_input infos (
    if same is_input info.is_input then set channels (as_usize info.channel_num) true else channels)

-- The memory of the channels of one direction, from allocation `i` on.
unfoldable pub place :
    (is_input : Bool) (i : ℕ) → List BufferInfo → List (Option ℕ) → List (Option ℕ)
place is_input i [] channels = channels
place is_input i (info ∷ infos) channels = place is_input (i + 1) infos (
    if same is_input info.is_input
    then set channels (as_usize info.channel_num) (some i)
    else channels)

unfoldable pub host_of : (time_info : Bool) (rate frames : ℕ) → List BufferInfo → Host
unfolding place
host_of time_info rate frames infos = record {
  time_info = time_info;
  buffer_frames = frames;
  rate = rate;
  inputs = place true 0 infos (replicate inputs none);
  outputs = place false 0 infos (replicate outputs none);
}

unfoldable pub session_of :
    (time_info stale : Bool) (rate frames : ℕ) → List BufferInfo → Duplex → Session
unfolding mark host_of
session_of time_info stale rate frames infos duplex = record {
  duplex = duplex;
  buffers = replicate (length infos) (replicate (2 * frames) (pos 0));
  host = host_of time_info rate frames infos;
  active_inputs = mark true infos (replicate inputs false);
  active_outputs = mark false infos (replicate outputs false);
  running = false;
  stale_size = stale;
}

-- The driver, the result, the effects, and the pointers written to the infos.
abbrev pub Outcome : Type 0
Outcome = Driver × AsioError × List Effect × List (Pointer × Pointer)

unfoldable pub refuse : Driver → AsioError → Message → Outcome
refuse driver error message = (record driver { error = message }, error, [], [])

unfoldable pub open_session :
    (time_info : Bool) (frames : ℕ) → Driver → List BufferInfo → Opened → Outcome
unfolding session_of pointers
open_session time_info frames driver infos (refused e) = (
  record driver { error = opening_failed e },
  hw_malfunction,
  ask_time_info ∷ [],
  pointers frames 0 infos,
)
open_session time_info frames driver infos (opened duplex) =
    let stale = ltb frames (min_buffer_frames driver.rate) in
    (
      record driver { session = some (session_of time_info stale driver.rate frames infos duplex) },
      ok,
      ask_time_info ∷ [],
      pointers frames 0 infos,
    )

-- With a slice of infos and a size that is accepted.
unfoldable pub create_checked :
    OpenAnswers → (time_info : Bool) (path frames : ℕ) → Driver → List BufferInfo → Outcome
unfolding first_bad refuse open_session
create_checked answers time_info path frames driver infos = elim (first_bad infos) [
  | some channel ↦ refuse driver invalid_parameter (no_channel channel)
  | none ↦ open_session time_info frames driver infos (open_device answers path)
]

unfoldable pub create_at :
    OpenAnswers
    → (time_info : Bool) (path : ℕ) → Driver
    → (infos : Option (List BufferInfo)) → (channels size : ℤ) (callbacks : Bool) → Outcome
unfolding create_checked is_accepted smallest
create_at answers time_info path driver infos channels size callbacks =
    let refusal =
      refuse driver invalid_parameter (size_outside size (smallest driver) largest driver.rate) in
    elim infos [
      | none ↦ refusal
      | some infos ↦
          let created =
            create_checked answers time_info path (as_usize size) driver
              (take (as_usize channels) infos) in
          if callbacks && ltb 0 (as_usize channels) && is_accepted driver size
          then created
          else refusal
    ]

-- `time_info` is the host's answer to the question, `callbacks` whether there are any.
unfoldable pub create_buffers :
    OpenAnswers
    → (time_info : Bool) → Driver
    → (infos : Option (List BufferInfo)) → (channels size : ℤ) (callbacks : Bool) → Outcome
unfolding create_at refuse
create_buffers answers time_info driver infos channels size callbacks = elim driver.session [
  | some session ↦ refuse driver invalid_mode buffers_exist
  | none ↦ elim driver.device [
    | none ↦ refuse driver not_present not_initialized
    | some path ↦ create_at answers time_info path driver infos channels size callbacks
  ]
]
