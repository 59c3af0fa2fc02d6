-- ===== src/Kernel/Audio/Steps.antt =====
-- The books of driver/ak1-acx/src/audio.rs between calls: who is counted, and the rate that this gives.
pub mod Starts
pub mod Sections
pub mod Sound
pub mod Kept
pub mod Calls
use ak1_driver.Prelude.{
  ℕ, ◌+◌, ◌-◌, ◌≤◌, ◌<◌, ◌≡◌, ◌≢◌, ◌⊎◌, inl, inr, refl, sym, ap, ◌∙◌, subst, Bool, true, false,
  List, [], ◌∷◌, Option, none, some, ℕ_discrete, arith,
}
use ak1_driver.Proto.Wire.{SampleRate, hz, DeviceSpec}
use ak1_driver.Kernel.Rt.{Slot, RtStream}
use ak1_driver.Kernel.Session.{Session, Refusal, Result}
use ak1_driver.Kernel.Audio.{
  new, Audio, Shared, Engine, attach, claim_rate, release_rate, start_engine, engine_start,
  stop_engine, prepare, run, pause, release, restore, claimed, conclude, start_if_stopped,
  start_unless_busy, start_asio, stop_asio, suspend, resume, or_rate, count_prepared,
}

abbrev pub one_if : {A : Type 0} → Option A → ℕ
one_if none = 0
one_if (some x) = 1

-- `created` streams exist and `ready` of them are prepared.
pub record World : Type 0 where
  pub audio : Audio
  pub created : ℕ
  pub ready : ℕ

pub record IsSound (w : World) : Type 0 where
  pub counted : w.audio.shared.streams ≡ w.created + one_if w.audio.asio
  pub prepared : w.audio.hardware.prepared ≡ w.ready + one_if w.audio.asio
  pub ready_le : w.ready ≤ w.created
  pub has_rate : 0 < w.audio.shared.streams → w.audio.shared.rate ≢ none
  pub no_rate : w.audio.shared.streams ≡ 0 → w.audio.shared.rate ≡ none
  pub at_rate :
      (e : Engine) → w.audio.hardware.engine ≡ some e → w.audio.shared.rate ≡ some e.engine_rate
  pub idle : w.audio.hardware.prepared ≡ 0 → w.audio.hardware.engine ≡ none

-- A new stream keeps the books.
pub claim_rate-IsSound :
    {w : World} (rate : SampleRate)
    → IsSound w
    → IsSound (record w { audio = claim_rate w.audio rate; created = w.created + 1 })
unfolding claim_rate
claim_rate-IsSound rate v = ground (arith, v)

-- A driver that was just loaded has the books of nothing.
pub new-IsSound :
    (answers : List (Option Refusal))
    → IsSound (record { audio = new answers; created = 0; ready = 0 })
unfolding new
new-IsSound answers = record {
  counted = refl;
  prepared = refl;
  ready_le = omega arith;
  has_rate = λ h. absurd (omega arith);
  no_rate = λ h. refl;
  at_rate = λ e h. ground (arith, h);
  idle = λ h. refl;
}
