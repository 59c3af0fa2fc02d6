-- ===== src/Host/Settings.antt =====
-- The settings and the buffer sizes offered to hosts: asio/src/settings.rs. The registry's answers are
-- arguments; a missing value is `none`.
use ak1_driver.Prelude.{
  ℕ, zero, suc, ◌+◌, ◌-◌, ◌*◌, ◌/◌, ◌%◌, ◌^◌, ◌≤◌, ◌<◌, ◌≡◌, refl, subst, Bool, true, false, List,
  [], ◌∷◌, Option, none, some, ◌⊎◌, inl, arith, leb, ◌==◌, if◌then◌else◌, get_or, length, ◌||◌,
  Option-cases, dec_le,
}
use ak1_driver.Proto.Resample.{div_ceil}
use ak1_driver.Proto.Buffers.{max_period_frames}

abbrev pub rates : List ℕ
rates = 44100 ∷ 48000 ∷ 88200 ∷ 96000 ∷ 192000 ∷ []

abbrev pub buffer_multiples : List ℕ
buffer_multiples = 1 ∷ 2 ∷ 4 ∷ 8 ∷ 16 ∷ 32 ∷ []

abbrev pub transfer_ms : ℕ
transfer_ms = 1

-- `[T]::contains`.
abbrev pub contains : List ℕ → ℕ → Bool
contains [] n = false
contains (x ∷ xs) n = (x == n) || contains xs n

pub record Settings : Type 0 where
  pub sample_rate : ℕ
  pub buffer_multiple : ℕ

unfoldable pub default : Settings
default = record { sample_rate = 48000; buffer_multiple = 4 }

-- `Option::filter` by membership, then `unwrap_or`.
unfoldable pub listed_or : List ℕ → Option ℕ → ℕ → ℕ
listed_or allowed none d = d
listed_or allowed (some n) d = if contains allowed n then n else d

-- What `read_dword` answers for the two values comes first.
unfoldable pub load : (sample_rate buffer_multiple : Option ℕ) → Settings
unfolding default listed_or
load sample_rate buffer_multiple = record {
  sample_rate = listed_or rates sample_rate default.sample_rate;
  buffer_multiple = listed_or buffer_multiples buffer_multiple default.buffer_multiple;
}

-- `u32::next_power_of_two`, from the power `p` on: a `u32` needs at most 31 doublings.
unfoldable pub doubled_to : (n fuel p : ℕ) → ℕ
doubled_to n zero p = p
doubled_to n (suc fuel) p = if leb n p then p else doubled_to n fuel (2 * p)

unfoldable pub next_power_of_two : ℕ → ℕ
unfolding doubled_to
next_power_of_two n = doubled_to n 31 1

unfoldable pub min_buffer_frames : (rate : ℕ) → ℕ
min_buffer_frames rate = next_power_of_two (div_ceil (rate * transfer_ms * 9 % 2 ^ 32 / 8) 1000)

abbrev pub last_multiple : ℕ
last_multiple = get_or buffer_multiples (length buffer_multiples - 1) 0

unfoldable pub max_buffer_frames : (rate : ℕ) → ℕ
unfolding min_buffer_frames
max_buffer_frames rate = min_buffer_frames rate * last_multiple % 2 ^ 32

unfoldable pub buffer_frames : Settings → (rate : ℕ) → ℕ
unfolding min_buffer_frames
buffer_frames settings rate = min_buffer_frames rate * settings.buffer_multiple % 2 ^ 32

doubled_to_lem :
    (n fuel p : ℕ)
    → n ≤ p * 2 ^ fuel
    → (n ≤ doubled_to n fuel p) × ((doubled_to n fuel p ≡ p) ⊎ (doubled_to n fuel p < 2 * n))
unfolding doubled_to
doubled_to_lem n zero p h = (grind arith, inl refl)
doubled_to_lem n (suc fuel) p h =
    grind (arith, doubled_to_lem n fuel (2 * p) (subst (λ m. n ≤ m) (doubled_bound p fuel) h))
  where
    doubled_bound : (p fuel : ℕ) → p * 2 ^ suc fuel ≡ 2 * p * 2 ^ fuel
    doubled_bound p fuel = grind arith

doubled_to_power : (n fuel k : ℕ) → (j : ℕ) × (doubled_to n fuel (2 ^ k) ≡ 2 ^ j)
unfolding doubled_to
doubled_to_power n zero k = (k, refl)
doubled_to_power n (suc fuel) k = elim (dec_le n (2 ^ k)) [
  | yes small ↦ (k, ground arith)
  | no large ↦ let rest = doubled_to_power n fuel (suc k) in (rest.0, ground (arith, rest.1))
]

-- The power of two is no smaller than `n`, and less than twice as large if `n` is at least one.
next_power_of_two_lem :
    (n : ℕ)
    → 0 < n
    → n ≤ 2 ^ 31
    → (n ≤ next_power_of_two n)
      × (next_power_of_two n < 2 * n)
      × (j : ℕ) × (next_power_of_two n ≡ 2 ^ j)
unfolding next_power_of_two
next_power_of_two_lem n positive small =
    let (above, near) = doubled_to_lem n 31 1 (omega arith) in
    let (j, power) = doubled_to_power n 31 0 in (above, omega (arith, near), j, power)

-- For a rate of at least 1 that times 9 fits 32 bits, the smallest buffer is a power of two, holds the
-- frames of one USB transfer and an eighth more, and is less than that doubled and one frame more.
pub min_buffer_frames_lem :
    (rate : ℕ)
    → 0 < rate
    → rate * 9 < 2 ^ 32
    → (rate * transfer_ms * 9 / 8 ≤ 1000 * min_buffer_frames rate)
      × (1000 * min_buffer_frames rate < 2 * (rate * transfer_ms * 9 / 8) + 1000)
      × (j : ℕ) × (min_buffer_frames rate ≡ 2 ^ j)
unfolding min_buffer_frames
min_buffer_frames_lem rate positive small =
    let needed = div_ceil (rate * transfer_ms * 9 % 2 ^ 32 / 8) 1000 in
    let (above, near, j, power) = next_power_of_two_lem needed (omega arith) (omega arith) in
    (omega (arith, above), omega (arith, near), j, power)

-- The smallest buffer at each rate.
pub min_buffer_frames_cases :
    (rate : ℕ)
    → contains rates rate ≡ true
    → ((rate ≤ 48000) × (min_buffer_frames rate ≡ 64))
      ⊎ ((rate ≤ 96000) × (min_buffer_frames rate ≡ 128))
      ⊎ ((rate ≡ 192000) × (min_buffer_frames rate ≡ 256))
min_buffer_frames_cases rate h = ground (arith, at_44100, at_48000, at_88200, at_96000, at_192000)
  where
    at_44100 : min_buffer_frames 44100 ≡ 64
    at_44100 = unfold min_buffer_frames next_power_of_two doubled_to in refl

    at_48000 : min_buffer_frames 48000 ≡ 64
    at_48000 = unfold min_buffer_frames next_power_of_two doubled_to in refl

    at_88200 : min_buffer_frames 88200 ≡ 128
    at_88200 = unfold min_buffer_frames next_power_of_two doubled_to in refl

    at_96000 : min_buffer_frames 96000 ≡ 128
    at_96000 = unfold min_buffer_frames next_power_of_two doubled_to in refl

    at_192000 : min_buffer_frames 192000 ≡ 256
    at_192000 = unfold min_buffer_frames next_power_of_two doubled_to in refl

pub max_buffer_frames_last : max_buffer_frames 192000 ≡ max_period_frames
max_buffer_frames_last =
    unfold max_buffer_frames min_buffer_frames next_power_of_two doubled_to in refl

pub load-IsListed :
    (sample_rate buffer_multiple : Option ℕ)
    → let settings = load sample_rate buffer_multiple in
      (contains rates settings.sample_rate ≡ true)
      × (contains buffer_multiples settings.buffer_multiple ≡ true)
unfolding load
load-IsListed sample_rate buffer_multiple =
    ground (arith, Option-cases sample_rate, Option-cases buffer_multiple)

-- Whatever the registry holds, the size offered at a listed rate lies between the two bounds offered
-- at it, and the upper one is no longer than the kernel driver's longest period.
pub buffer_frames-load :
    (sample_rate buffer_multiple : Option ℕ) (rate : ℕ)
    → contains rates rate ≡ true
    → let size = buffer_frames (load sample_rate buffer_multiple) rate in
      (min_buffer_frames rate ≤ size)
      × (size ≤ max_buffer_frames rate)
      × (max_buffer_frames rate ≤ max_period_frames)
unfolding buffer_frames max_buffer_frames
buffer_frames-load sample_rate buffer_multiple rate h =
    let (_, multiple) = load-IsListed sample_rate buffer_multiple in
    ground (arith, min_buffer_frames_cases rate h, multiple)
