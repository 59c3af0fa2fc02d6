-- ===== src/Kernel/Handlers/Starts.antt =====
-- A well-formed start request of driver/ak1-acx/src/asio.rs: a value of 16 bytes, the rate, the period
-- and the event's handle.
use ak1_driver.Prelude.{ℕ, ◌*◌, ◌/◌, ◌^◌, ◌≤◌, ◌<◌, ◌≡◌, refl, true, List, ◌++◌, some, arith}
use ak1_driver.Proto.Wire.{SampleRate, hz}
use ak1_driver.Proto.Wire.Laws.{from_hz_iff}
use ak1_driver.Proto.Resample.{div_ceil}
use ak1_driver.Proto.Buffers.{max_period_frames}
use ak1_driver.Proto.Buffers.Created.{new-IsValid}
use ak1_driver.Kernel.Session.{Session, Result}
use ak1_driver.Kernel.Session
use ak1_driver.Kernel.Audio.{Audio, start_asio}
use ak1_driver.Kernel.Handlers.{word_bytes, bytes_word, start, start_session}

abbrev pub start_value : (rate_hz period_frames event : ℕ) → List ℕ
start_value rate_hz period_frames event =
    word_bytes rate_hz
    ++ word_bytes period_frames
    ++ word_bytes event
    ++ word_bytes (event / 2 ^ 32)

bytes_word-word_bytes : (w : ℕ) (rest : List ℕ) → w < 2 ^ 32 → bytes_word (word_bytes w ++ rest) ≡ w
bytes_word-word_bytes w rest h = ground arith

hz_bounds : (rate : SampleRate) → (0 < hz rate) × (hz rate ≤ 192000)
unfolding hz
hz_bounds rate = ground arith

new_period :
    (owner : ℕ) (rate : SampleRate) (period : ℕ)
    → 0 < period
    → period ≤ max_period_frames
    → (s : Session) × ((Session.new true true owner rate period ≡ Result.ok s)
        × ((s.owner ≡ owner) × (s.buffers.period ≡ period)))
unfolding Session.new
new_period owner rate period positive small =
    let transfer = div_ceil (hz rate * 8) 8000 in
    let (b, made, v, _) = new-IsValid period transfer positive (omega (arith, hz_bounds rate)) in
    (
      record { owner = owner; signals = 0; buffers = b },
      (rw (made, Session.new) refl, (refl, v.same_period)),
    )

-- A start request for a rate of the card and a period of 1 to 8192 frames comes to the card itself, with
-- a session of that owner and period, if the event and the memory are there.
pub start-well_formed :
    (a : Audio) (owner event : ℕ) (rate : SampleRate) (period : ℕ)
    → 0 < period
    → period ≤ max_period_frames
    → (s : Session) × ((start
            (Result.ok tt)
            true
            true
            a
            (record { file = some owner; value = some (start_value (hz rate) period event) })
          ≡ start_asio a s rate)
        × ((s.owner ≡ owner) × (s.buffers.period ≡ period)))
unfolding start start_session
start-well_formed a owner event rate period positive small =
    let (s, made) = new_period owner rate period positive small in
    (
      s,
      (
        ground (
          arith,
          made.0,
          (from_hz_iff (hz rate) rate).1 refl,
          bytes_word-word_bytes (hz rate)
              (word_bytes period ++ word_bytes event ++ word_bytes (event / 2 ^ 32))
              (omega (arith, hz_bounds rate)),
          bytes_word-word_bytes period (word_bytes event ++ word_bytes (event / 2 ^ 32))
              (omega arith),
        ),
        made.1,
      ),
    )
