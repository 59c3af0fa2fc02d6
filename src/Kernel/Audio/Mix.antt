-- ===== src/Kernel/Audio/Mix.antt =====
-- `Frames` of driver/ak1-acx/src/audio.rs: what the running streams and the ASIO session play and are
-- given. The loops of a stream's resampler have `fuel` turns; `none` is out of them.
use ak1_driver.Prelude.{◌>>=◌, ℕ, ◌+◌, List, Option, none, some, get_or, set, map}
use ak1_driver.Prelude.Int.{ℤ, pos, ◌+ℤ◌, clamp}
use ak1_driver.Proto.Resample.{Frame, max_sample, min_sample}
use ak1_driver.Proto.Buffers.{silence}
use ak1_driver.Kernel.Rt.{RtStream}
use ak1_driver.Kernel.Rt
use ak1_driver.Kernel.Session.{Session}
use ak1_driver.Kernel.Session

-- The streams that run, one for each slot.
pub record Frames : Type 0 where
  pub rate_hz : ℕ
  pub qpc : ℕ
  pub output12 : Option RtStream
  pub output34 : Option RtStream
  pub input12 : Option RtStream
  pub asio : Option Session

unfoldable pub at : Frames → (qpc : ℕ) → Frames
at f qpc = record f { qpc = qpc }

unfoldable pub render_asio : Option Session → Option Session × Frame
render_asio none = (none, silence 4)
render_asio (some session) =
    let (session', frame) = Session.render session in (some session', frame)

unfoldable pub capture_asio : Option Session → Frame → Option Session
capture_asio none samples = none
capture_asio (some session) samples = some (Session.capture session samples)

-- `frame[first] += left; frame[first + 1] += right`.
unfoldable pub add_pair : (first : ℕ) → Frame → Frame → Frame
add_pair first pair frame =
    let left = set frame first (get_or frame first (pos 0) +ℤ get_or pair 0 (pos 0)) in
    set left (first + 1) (get_or left (first + 1) (pos 0) +ℤ get_or pair 1 (pos 0))

unfoldable pub limit : ℤ → ℤ
limit sample = clamp min_sample max_sample sample

module _ (kernel : List ℤ) (fuel : ℕ) where
  -- One slot's part of the frame.
  unfoldable pub mix_slot :
      Option RtStream → (rate_hz qpc first : ℕ) → Frame → Option (Option RtStream × Frame)
  mix_slot none rate_hz qpc first frame = some (none, frame)
  mix_slot (some stream) rate_hz qpc first frame = elim (Rt.render kernel fuel stream rate_hz qpc) [
    | none ↦ none
    | some (stream', pair) ↦ some (some stream', add_pair first pair frame)
  ]

  -- The next playback frame of all four outputs.
  unfoldable pub render : Frames → Option (Frames × Frame)
  unfolding mix_slot
  render f =
      let (asio, frame) = render_asio f.asio in
      do
        (first, frame12) ← mix_slot f.output12 f.rate_hz f.qpc 0 frame
        (second, frame34) ← mix_slot f.output34 f.rate_hz f.qpc 2 frame12
        some (record f { asio = asio; output12 = first; output34 = second }, map limit frame34)

  unfoldable pub capture_slot :
      Option RtStream → Frame → (rate_hz qpc : ℕ) → Option (Option RtStream)
  capture_slot none samples rate_hz qpc = some none
  capture_slot (some stream) samples rate_hz qpc =
      elim (Rt.capture kernel fuel stream samples rate_hz qpc) [
        | none ↦ none
        | some stream' ↦ some (some stream')
      ]

  -- Delivers a captured frame of inputs 1/2.
  unfoldable pub capture : Frames → Frame → Option Frames
  unfolding capture_slot
  capture f samples = do
    stream ← capture_slot f.input12 samples f.rate_hz f.qpc
    some (record f { asio = capture_asio f.asio samples; input12 = stream })
