-- ===== src/Kernel/Audio/Steps/Starts.antt =====
-- What a start of the USB engine leaves of `Audio` in driver/ak1-acx/src/audio.rs.
use ak1_driver.Prelude.{
  ℕ, ◌≡◌, ◌≢◌, ◌⊎◌, inl, inr, refl, Bool, true, false, List, [], ◌∷◌, Option, none, some, arith,
}
use ak1_driver.Proto.Wire.{SampleRate, DeviceSpec}
use ak1_driver.Kernel.Session.{Refusal, Result}
use ak1_driver.Kernel.Audio.{Audio, Engine, start_engine, start_stopped, engine_start}

-- A start changes nothing but the engine and the answers.
start_engine-cases :
    (P : Audio × Result Unit → Type 0) (a : Audio) (rate : SampleRate)
    → ((answers : List (Option Refusal)) (refusal : Refusal)
        → P (record a { answers = answers }, Result.err refusal))
    → ((answers : List (Option Refusal)) (bytes : ℕ)
        → P (
          record a {
            answers = answers;
            hardware = record a.hardware {
              engine = some (record { engine_rate = rate; packet_bytes = bytes });
            };
          },
          Result.ok tt,
        ))
    → P (start_engine a rate)
unfolding start_engine engine_start
start_engine-cases P a rate f g = by_cases a.hardware.spec a.hardware.usb a.answers f g
  where
    here : Option DeviceSpec → Bool → List (Option Refusal) → Audio
    here spec usb answers = record a {
      answers = answers;
      hardware = record a.hardware { usb = usb; spec = spec };
    }

    by_cases :
        (spec : Option DeviceSpec) (usb : Bool) (answers : List (Option Refusal))
        → ((rest : List (Option Refusal)) (refusal : Refusal)
            → P (record (here spec usb answers) { answers = rest }, Result.err refusal))
        → ((rest : List (Option Refusal)) (bytes : ℕ)
            → P (
              record (here spec usb answers) {
                answers = rest;
                hardware = record (here spec usb answers).hardware {
                  engine = some (record { engine_rate = rate; packet_bytes = bytes });
                };
              },
              Result.ok tt,
            ))
        → P (start_engine (here spec usb answers) rate)
    by_cases none usb answers f g = f answers Refusal.device_not_ready
    by_cases (some spec) false answers f g = f answers Refusal.device_not_ready
    by_cases (some spec) true [] f g = f [] Refusal.unsuccessful
    by_cases (some spec) true (some refusal ∷ rest) f g = f rest refusal
    by_cases (some spec) true (none ∷ rest) f g = g rest _

-- What a start leaves, whatever came of it.
pub start_engine-keeps :
    (a : Audio) (rate : SampleRate)
    → let (a', outcome) = start_engine a rate in
      (a'.shared ≡ a.shared)
      × (a'.asio ≡ a.asio)
      × (a'.hardware.prepared ≡ a.hardware.prepared)
      × (bytes : ℕ) × (((a'.hardware.engine
              ≡ some (record { engine_rate = rate; packet_bytes = bytes }))
            × (outcome ≡ Result.ok tt))
          ⊎ ((a'.hardware.engine ≡ a.hardware.engine) × (outcome ≢ Result.ok tt)))
start_engine-keeps a rate =
    start_engine-cases
      (λ (p : Audio × Result Unit).
        (p.0.shared ≡ a.shared)
        × (p.0.asio ≡ a.asio)
        × (p.0.hardware.prepared ≡ a.hardware.prepared)
        × (bytes : ℕ) × (((p.0.hardware.engine
                ≡ some (record { engine_rate = rate; packet_bytes = bytes }))
              × (p.1 ≡ Result.ok tt))
            ⊎ ((p.0.hardware.engine ≡ a.hardware.engine) × (p.1 ≢ Result.ok tt))))
      a rate (λ answers refusal. (refl, refl, refl, 0, inr (refl, λ q. ground arith)))
      (λ answers bytes. (refl, refl, refl, bytes, inl (refl, refl)))

-- The same of a start that leaves a running engine alone.
pub start_stopped-keeps :
    (x : Option Engine) (a : Audio) (rate : SampleRate)
    → a.hardware.engine ≡ x
    → let (a', outcome) = start_stopped x a rate in
      (a'.shared ≡ a.shared)
      × (a'.asio ≡ a.asio)
      × (a'.hardware.prepared ≡ a.hardware.prepared)
      × ((e : Engine)
          → a'.hardware.engine ≡ some e
          → (a.hardware.engine ≡ some e) ⊎ (e.engine_rate ≡ rate))
      × ((refusal : Refusal) → outcome ≡ Result.err refusal → a'.hardware.engine ≡ none)
unfolding start_stopped
start_stopped-keeps (some e) a rate q = (refl, refl, refl, λ e h. inl h, λ refusal h. absurd (cc h))
start_stopped-keeps none a rate q =
    let (shared, asio, prepared, bytes, started) = start_engine-keeps a rate in
    (
      shared,
      asio,
      prepared,
      λ e h. ground (arith, started, h, q),
      λ refusal h. ground (arith, started, h, q),
    )
