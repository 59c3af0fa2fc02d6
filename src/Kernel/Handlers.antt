-- ===== src/Kernel/Handlers.antt =====
-- The ASIO property handlers of driver/ak1-acx/src/asio.rs. A request carries the file object that it
-- came through and its value, the bytes at a pointer that may be null; the answers of the allocator and
-- of `Event::reference` are arguments. A read returns the value as it is after the call.
pub mod Values
pub mod Starts
use ak1_driver.Prelude.{
  ◌>>=◌, ℕ, zero, suc, ◌+◌, ◌-◌, ◌*◌, ◌/◌, ◌%◌, ◌^◌, min, Bool, true, false, ◌||◌, not, List, [],
  ◌∷◌, ◌++◌, Option, none, some, map, length, take, drop, get_or, replicate, as_chunks, concat, ltb,
  ◌==◌, if◌then◌else◌,
}
use ak1_driver.Prelude.Int.{ℤ, pos, negsuc, shr, shl32, to_bits, from_bits}
use ak1_driver.Proto.Wire.{SampleRate, from_hz}
use ak1_driver.Proto.Buffers
use ak1_driver.Proto.Buffers.{Frame, silence, inputs, max_period_frames}
use ak1_driver.Kernel.Session.{Session, Refusal, Result}
use ak1_driver.Kernel.Session
use ak1_driver.Kernel.Audio.{Audio, start_asio, stop_asio, with_asio}

pub record Request : Type 0 where
  pub file : Option ℕ
  pub value : Option (List ℕ)

abbrev pub word_bytes : ℕ → List ℕ
word_bytes w = (w % 2 ^ 8) ∷ (w / 2 ^ 8 % 2 ^ 8) ∷ (w / 2 ^ 16 % 2 ^ 8) ∷ (w / 2 ^ 24 % 2 ^ 8) ∷ []

abbrev pub bytes_word : List ℕ → ℕ
bytes_word b = get_or b 0 0 + 2 ^ 8 * get_or b 1 0 + 2 ^ 16 * get_or b 2 0 + 2 ^ 24 * get_or b 3 0

-- `sample << 8` as an `i32` of the value, and `sample >> 8` of one.
unfoldable pub sample_bytes : ℤ → List ℕ
sample_bytes sample = word_bytes (to_bits (shl32 sample 8))

unfoldable pub bytes_sample : List ℕ → ℤ
bytes_sample b = shr (from_bits (bytes_word b)) 8

abbrev pub after_ok : {A B : Type 0} → Result A → (A → Result B) → Result B
after_ok (Result.err refusal) f = Result.err refusal
after_ok (Result.ok a) f = f a

abbrev pub file_object : Request → Result ℕ
file_object request = elim request.file [
  | none ↦ Result.err Refusal.invalid_device_request
  | some owner ↦ Result.ok owner
]

-- The session that `start` makes of a request, before it asks for the card.
pub start_session :
    (referenced : Result Unit) (output_granted input_granted : Bool)
    → Request
    → Result (Session × SampleRate)
start_session referenced output_granted input_granted request = elim request.value [
  | none ↦ Result.err Refusal.invalid_parameter
  | some value ↦
      if ltb (length value) 16
      then Result.err Refusal.invalid_parameter
      else elim (from_hz (bytes_word value)) [
        | none ↦ Result.err Refusal.not_supported
        | some rate ↦
            let period = bytes_word (drop 4 value) in
            if period == 0 || ltb max_period_frames period
            then Result.err Refusal.invalid_parameter
            else after_ok (file_object request) (λ owner. after_ok referenced (λ _.
              after_ok (Session.new output_granted input_granted owner rate period)
                (λ session. Result.ok (session, rate))))
      ]
]

unfoldable pub start :
    (referenced : Result Unit) (output_granted input_granted : Bool)
    → Audio
    → Request
    → Audio × Result Unit
unfolding start_session
start referenced output_granted input_granted a request =
    elim (start_session referenced output_granted input_granted request) [
      | Result.err refusal ↦ (a, Result.err refusal)
      | Result.ok started ↦ start_asio a started.0 started.1
    ]

unfoldable pub stop : Audio → Request → Audio × Result Unit
stop a request = elim request.file [
  | none ↦ (a, Result.err Refusal.invalid_device_request)
  | some owner ↦ (stop_asio a owner, Result.ok tt)
]

-- The bytes of a frame, and the frame of bytes.
abbrev pub frame_value : Frame → List ℕ
frame_value frame = concat (map sample_bytes frame)

unfoldable pub value_frame : List ℕ → Frame
value_frame bytes = map bytes_sample (as_chunks 4 bytes)

-- Runs one of the session's operations, whose refusal is `none`.
abbrev pub or_refuse : {A : Type 0} → Refusal → Option A → Result A
or_refuse refusal none = Result.err refusal
or_refuse refusal (some a) = Result.ok a

unfoldable pub read_session : List Frame → Session → Session × (List Frame × Option ℕ)
read_session into session =
    let (buffers, frames, count) = Buffers.read session.buffers into in
    (record session { buffers = buffers }, (frames, count))

-- What `read` makes of the session's answer: the value, and its length.
unfoldable pub fill_value : List ℕ → Result (List Frame × Option ℕ) → List ℕ × Result ℕ
fill_value value (Result.err refusal) = (value, Result.err refusal)
fill_value value (Result.ok (frames, none)) = (value, Result.err Refusal.buffer_too_small)
fill_value value (Result.ok (frames, some count)) = (
  word_bytes count ++ concat (map frame_value (take count frames)) ++ drop (4 + count * 8) value,
  Result.ok (4 + count * 8),
)

unfoldable pub read_value :
    (granted : Bool) → Audio → (owner : ℕ) → List ℕ → Audio × List ℕ × Result ℕ
unfolding read_session fill_value
read_value granted a owner value =
    let room = min ((length value - 4) / 8) max_period_frames in
    let (a', answer) =
      with_asio {R = List Frame × Option ℕ} a owner
        (read_session (replicate room (silence inputs))) in
    if ltb (length value) 4
    then (a, value, Result.err Refusal.buffer_too_small)
    else if not granted
    then (a, value, Result.err Refusal.insufficient_resources)
    else let (value', count) = fill_value value answer in (a', value', count)

-- Fills the value with the oldest complete period, if any; returns its length.
unfoldable pub read : (granted : Bool) → Audio → Request → Audio × List ℕ × Result ℕ
unfolding read_value
read granted a request = elim request.file [
  | none ↦ (a, [], Result.err Refusal.invalid_device_request)
  | some owner ↦ elim request.value [
    | none ↦ (a, [], Result.err Refusal.buffer_too_small)
    | some value ↦ read_value granted a owner value
  ]
]

unfoldable pub write_session : List Frame → Session → Session × Bool
write_session from session =
    let (buffers, taken) = Buffers.write session.buffers from in
    (record session { buffers = buffers }, taken)

unfoldable pub taken_or_refused : Result Bool → Result Unit
taken_or_refused (Result.err refusal) = Result.err refusal
taken_or_refused (Result.ok false) = Result.err Refusal.invalid_buffer_size
taken_or_refused (Result.ok true) = Result.ok tt

unfoldable pub write_value : (granted : Bool) → Audio → (owner : ℕ) → List ℕ → Audio × Result Unit
unfolding write_session taken_or_refused
write_value granted a owner value =
    let (a', answer) = with_asio a owner (write_session (map value_frame (as_chunks 16 value))) in
    if not (length value % 16 == 0) || ltb max_period_frames (length value / 16)
    then (a, Result.err Refusal.invalid_buffer_size)
    else if not granted
    then (a, Result.err Refusal.insufficient_resources)
    else (a', taken_or_refused answer)

-- Queues the value, a period of output.
unfoldable pub write : (granted : Bool) → Audio → Request → Audio × Result Unit
unfolding write_value
write granted a request = elim request.file [
  | none ↦ (a, Result.err Refusal.invalid_device_request)
  | some owner ↦ elim request.value [
    | none ↦ (a, Result.err Refusal.invalid_buffer_size)
    | some value ↦ write_value granted a owner value
  ]
]
