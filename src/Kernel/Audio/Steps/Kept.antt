-- ===== src/Kernel/Audio/Steps/Kept.antt =====
-- The books of Audio while calls of driver/ak1-acx/src/audio.rs interleave, and what the sections of the spin lock keep.
use ak1_driver.Prelude.{
  ℕ, ◌+◌, ◌-◌, ◌<◌, ◌≤◌, ◌≡◌, ◌≢◌, ◌⊎◌, inl, ap, none, some, Bool, false, arith,
}
use ak1_driver.Proto.Wire.{SampleRate}
use ak1_driver.Kernel.Audio.{Audio, Engine, Hardware, claim_rate, release_rate}
use ak1_driver.Kernel.Audio.Steps.{one_if}
use ak1_driver.Kernel.Audio.Steps.Sections.{
  Phase, Moment, free, starting, restoring, preparing, resuming, leaving, in_preparation,
}

-- The claim of a session that is starting or ending.
abbrev pub in_claim : Phase → ℕ
in_claim (starting session rate previous) = 1
in_claim leaving = 1
in_claim _ = 0

-- What a call knows of the rate that it read.
abbrev pub Knows : Phase → Audio → Bool → Type 0
Knows free a lost = Unit
Knows (starting session rate previous) a lost =
    (a.asio ≡ none)
    × (a.shared.rate ≡ some rate)
    × ((e : Engine) → a.hardware.engine ≡ some e → lost ≡ false → e.engine_rate ≡ rate)
Knows (restoring read) a lost =
    (a.hardware.engine ≡ none)
    × ((rate : SampleRate) → read ≡ some rate → 0 < a.hardware.prepared → a.shared.rate ≡ some rate)
Knows (preparing stream read) a lost = (lost ≡ false) → (a.shared.rate ≡ read) × (read ≢ none)
Knows (resuming read) a lost =
    (rate : SampleRate) → read ≡ some rate → 0 < a.hardware.prepared → a.shared.rate ≡ some rate
Knows leaving a lost = Unit

pub record IsSound (m : Moment) : Type 0 where
  pub counted : m.audio.shared.streams ≡ m.created + one_if m.audio.asio + in_claim m.phase
  pub prepared : m.audio.hardware.prepared ≡ m.ready + one_if m.audio.asio
  pub ready_le : m.ready + in_preparation m.phase ≤ m.created
  pub no_rate : m.audio.shared.streams ≡ 0 → m.audio.shared.rate ≡ none
  pub idle : m.audio.hardware.prepared ≡ 0 → m.audio.hardware.engine ≡ none
  pub has_rate : m.lost ≡ false → 0 < m.audio.shared.streams → m.audio.shared.rate ≢ none
  pub at_rate :
      m.lost ≡ false
      → (e : Engine) → m.audio.hardware.engine ≡ some e
      → m.audio.shared.rate ≡ some e.engine_rate

pub record IsKept (m : Moment) : Type 0 where
  pub sound : IsSound m
  pub knows : Knows m.phase m.audio m.lost

pub claim_rate-Knows :
    (p : Phase) (a : Audio) (lost : Bool) (rate : SampleRate)
    → Knows p a lost
    → Knows p (claim_rate a rate) lost
unfolding claim_rate
claim_rate-Knows free a lost rate k = tt
claim_rate-Knows (starting session r previous) a lost rate k = ground (arith, k)
claim_rate-Knows (restoring read) a lost rate k = ground (arith, k)
claim_rate-Knows (preparing stream read) a lost rate k = λ h. ground (arith, k h)
claim_rate-Knows (resuming read) a lost rate k = λ r e h. ground (arith, k r e h)
claim_rate-Knows leaving a lost rate k = tt

pub claim_rate-IsSound :
    (m : Moment) (rate : SampleRate)
    → IsSound m
    → IsSound (record m { audio = claim_rate m.audio rate; created = m.created + 1 })
unfolding claim_rate
claim_rate-IsSound m rate v = ground (arith, v)

pub release_rate-IsSound :
    (m : Moment)
    → m.ready + in_preparation m.phase < m.created
    → IsSound m
    → IsSound (record m { audio = release_rate m.audio; created = m.created - 1 })
unfolding release_rate
release_rate-IsSound m h v = ground (arith, v)

pub release_rate-Knows :
    (p : Phase) (a : Audio) (lost : Bool)
    → (0 < a.hardware.prepared + in_claim p + in_preparation p → 1 < a.shared.streams)
    → Knows p a lost
    → Knows p (release_rate a) lost
unfolding release_rate
release_rate-Knows free a lost h k = tt
release_rate-Knows (starting session r previous) a lost h k = ground (arith, k, h (omega arith))
release_rate-Knows (restoring read) a lost h k =
    (k.0, λ r e q. ground (arith, k.1 r e q, h (omega (arith, q))))
release_rate-Knows (preparing stream read) a lost h k = λ q. ground (arith, k q, h (omega arith))
release_rate-Knows (resuming read) a lost h k =
    λ r e q. ground (arith, k r e q, h (omega (arith, q)))
release_rate-Knows leaving a lost h k = tt

-- A section that changes neither counts nor rate, and no engine but to stop it.
pub others-IsSound :
    (m : Moment) (a : Audio)
    → a.shared ≡ m.audio.shared
    → a.asio ≡ m.audio.asio
    → a.hardware.prepared ≡ m.audio.hardware.prepared
    → (a.hardware.engine ≡ m.audio.hardware.engine) ⊎ (a.hardware.engine ≡ none)
    → IsSound m
    → IsSound (record m { audio = a })
others-IsSound m a h1 h2 h3 h4 v = ground (arith, v, h1, h2, h3, h4)

others-Knows :
    (p : Phase) (a a' : Audio) (lost : Bool)
    → a'.shared ≡ a.shared
    → a'.asio ≡ a.asio
    → a'.hardware ≡ a.hardware
    → Knows p a lost
    → Knows p a' lost
others-Knows free a a' lost h1 h2 h3 k = tt
others-Knows (starting session r previous) a a' lost h1 h2 h3 k = ground (arith, h1, h2, h3, k)
others-Knows (restoring read) a a' lost h1 h2 h3 k = ground (arith, h1, h2, h3, k)
others-Knows (preparing stream read) a a' lost h1 h2 h3 k = λ h. ground (arith, h1, k h)
others-Knows (resuming read) a a' lost h1 h2 h3 k = λ r e h. ground (arith, h1, h3, k r e)
others-Knows leaving a a' lost h1 h2 h3 k = tt

pub others-IsKept :
    {m : Moment} (a : Audio)
    → a.shared ≡ m.audio.shared
    → a.asio ≡ m.audio.asio
    → a.hardware ≡ m.audio.hardware
    → IsKept m
    → IsKept (record m { audio = a })
others-IsKept {m} a h1 h2 h3 k = record {
  sound =
      others-IsSound m a h1 h2 (ap (λ (h : Hardware). h.prepared) h3)
        (inl (ap (λ (h : Hardware). h.engine) h3)) k.sound;
  knows = others-Knows m.phase m.audio a m.lost h1 h2 h3 k.knows;
}
