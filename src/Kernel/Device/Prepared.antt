-- ===== src/Kernel/Device/Prepared.antt =====
-- What `prepare_hardware` of driver/ak1-acx/src/lib.rs leaves behind.
use ak1_driver.Prelude.{
  ◌+◌, ◌*◌, ◌/◌, ◌≤◌, ◌≡◌, refl, ◌∙◌, ◌⊎◌, inl, inr, Bool, true, List, Option, none, some, arith,
}
use ak1_driver.Proto.Wire.{DeviceSpec, SampleRate, hz, max_packet_bytes}
use ak1_driver.Proto.Wire.Laws.{IsSupported, max_packet_bytes_supported}
use ak1_driver.Kernel.Audio.{attach}
use ak1_driver.Kernel.Usb.{Status, Outcome, done, failed, Bus, OpenAnswers, Usb, open_usb, sync}
use ak1_driver.Kernel.Usb.Pipes.{IsOpen, open_usb-IsOpen}
use ak1_driver.Kernel.Device.{
  Context, is_supported, conclude_add, add_all, conclude_prepare, prepare_with, open_once,
  prepare_opened, prepare_hardware,
}

-- The target, by the context before: it is kept, or it was opened with the pipes of the card's endpoints.
abbrev pub IsOpened : OpenAnswers → Context → Context → Type 0
IsOpened opens before context =
    (usb : Usb) × (context.usb ≡ some usb)
    × ((before.usb ≡ some usb) ⊎ ((before.usb ≡ none) × IsOpen opens.pipes usb))

-- The device can stream: it has a target, its circuits are added, and the audio side knows of the target and a spec
-- for which a packet at each rate holds whole frames and fits the endpoint.
pub record IsPrepared (opens : OpenAnswers) (before context : Context) : Type 0 where
  pub opened : IsOpened opens before context
  pub added : context.circuits_added ≡ true
  pub known : context.audio.hardware.usb ≡ true
  pub attached :
      (spec : DeviceSpec) × ((context.audio.hardware.spec ≡ some spec)
        × ((rate : SampleRate)
            → (max_packet_bytes spec rate ≡ 16 * (hz rate / 8000 + 5)) × (hz rate / 8000 + 5 ≤ 32)))

is_supported-IsSupported : (spec : DeviceSpec) → is_supported spec ≡ true → IsSupported spec
is_supported-IsSupported spec h = ground arith

prepare_with_lem :
    (key : Bool) (answers : List (Option Status)) (context : Context) (spec : DeviceSpec)
    → (prepare_with key answers context (done spec)).1 ≡ done tt
    → let context' = (prepare_with key answers context (done spec)).0 in
      (is_supported spec ≡ true)
      × ((context'.usb ≡ context.usb)
          × ((context'.circuits_added ≡ true)
              × ((context'.audio.hardware.usb ≡ true)
                  × (context'.audio.hardware.spec ≡ some spec))))
unfolding prepare_with add_all conclude_add conclude_prepare attach
prepare_with_lem key answers context spec h = ground arith

open_once-IsOpened :
    (opens : OpenAnswers) (context context' : Context)
    → open_once opens context ≡ done context'
    → IsOpened opens context context'
unfolding open_once
open_once-IsOpened opens context context' e = by_cases context.usb (open_usb opens) refl refl
  where
    by_cases :
        (before : Option Usb) (found : Outcome Usb)
        → context.usb ≡ before
        → open_usb opens ≡ found
        → IsOpened opens context context'
    by_cases (some usb) found p q = (usb, ground (arith, e, p), inl p)
    by_cases none (failed s) p q = absurd (cc (rw (p, q, open_once) at e))
    by_cases none (done usb) p q =
        (usb, ground (arith, e, p, q), inr (p, open_usb-IsOpen opens usb q))

prepare_with-IsPrepared :
    (opens : OpenAnswers) (before : Context) (key : Bool) (answers : List (Option Status))
    (context : Context) (found : Outcome DeviceSpec)
    → IsOpened opens before context
    → (prepare_with key answers context found).1 ≡ done tt
    → IsPrepared opens before (prepare_with key answers context found).0
prepare_with-IsPrepared opens before key answers context (failed status) opened h =
    absurd (unfold prepare_with in cc h)
prepare_with-IsPrepared opens before key answers context (done spec) (usb, held, from) h =
    let (supported, (kept, (added, (known, attached)))) =
      prepare_with_lem key answers context spec h in
    record {
      opened = (usb, kept ∙ held, from);
      added = added;
      known = known;
      attached = (
        spec,
        (
          attached,
          λ rate. max_packet_bytes_supported spec rate (is_supported-IsSupported spec supported),
        ),
      );
    }

prepare_opened-IsPrepared :
    (opens : OpenAnswers) (before : Context) (key : Bool) (answers : List (Option Status))
    (bus : Bus) (o : Outcome Context)
    → ((context : Context) → o ≡ done context → IsOpened opens before context)
    → (prepare_opened key answers before bus o).1.1 ≡ done tt
    → IsPrepared opens before (prepare_opened key answers before bus o).1.0
unfolding prepare_opened
prepare_opened-IsPrepared opens before key answers bus (failed status) opened h = absurd (cc h)
prepare_opened-IsPrepared opens before key answers bus (done context) opened h =
    prepare_with-IsPrepared opens before key answers context (sync bus).1 (opened context refl) h

-- When `prepare_hardware` succeeds, whatever was there before, the device has the target that it had, or a new one whose
-- four pipes are those of the card's endpoints; its circuits are added; and the audio side knows that there is a
-- target, and a spec for which a packet at each rate holds whole frames and fits the endpoint.
pub prepare_hardware-IsPrepared :
    (opens : OpenAnswers) (key : Bool) (answers : List (Option Status)) (context : Context)
    (bus : Bus)
    → (prepare_hardware opens key answers context bus).1.1 ≡ done tt
    → IsPrepared opens context (prepare_hardware opens key answers context bus).1.0
unfolding prepare_hardware
prepare_hardware-IsPrepared opens key answers context bus h =
    prepare_opened-IsPrepared opens context key answers bus (open_once opens context)
      (open_once-IsOpened opens context) h
