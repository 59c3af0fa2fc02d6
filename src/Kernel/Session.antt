-- ===== src/Kernel/Session.antt =====
-- `Session` of driver/ak1-acx/src/asio.rs: the frames of an ASIO session and its event, whose signals
-- `signals` counts. A file object is a number.
use ak1_driver.Prelude.{ℕ, ◌+◌, ◌*◌, Bool, none, some, if◌then◌else◌}
use ak1_driver.Proto.Wire.{SampleRate, hz}
use ak1_driver.Proto.Resample.{div_ceil}
use ak1_driver.Proto.Buffers
use ak1_driver.Proto.Buffers.{Buffers, Frame}

-- The NTSTATUS values of the driver's own refusals.
pub data Refusal : Type 0 where
  device_busy : Refusal
  device_not_ready : Refusal
  invalid_device_state : Refusal
  insufficient_resources : Refusal
  invalid_parameter : Refusal
  not_supported : Refusal
  buffer_too_small : Refusal
  invalid_buffer_size : Refusal
  invalid_device_request : Refusal
  unsuccessful : Refusal

pub data Result (A : Type 0) : Type 0 where
  ok : A → Result A
  err : Refusal → Result A

pub record Session : Type 0 where
  pub owner : ℕ
  pub signals : ℕ
  pub buffers : Buffers

-- The allocator's answers come first.
unfoldable pub new :
    (output_granted input_granted : Bool) (owner : ℕ) → SampleRate → (period : ℕ) → Result Session
new output_granted input_granted owner rate period =
    elim (Buffers.new output_granted input_granted period (div_ceil (hz rate * 8) 8000)) [
      | none ↦ Result.err Refusal.insufficient_resources
      | some buffers ↦ Result.ok (record { owner = owner; signals = 0; buffers = buffers })
    ]

unfoldable pub capture : Session → Frame → Session
capture s frame =
    let (buffers, whole) = Buffers.capture s.buffers frame in
    record s { buffers = buffers; signals = if whole then s.signals + 1 else s.signals }

unfoldable pub render : Session → Session × Frame
render s =
    let (buffers, frame) = Buffers.render s.buffers in (record s { buffers = buffers }, frame)
