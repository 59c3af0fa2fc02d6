-- ===== src/Kernel/Circuits/Streams/Books.antt =====
-- The streams of driver/ak1-acx/src/circuit.rs and the books of `Audio`; which formats get a stream.
use ak1_driver.Prelude.{
  ℕ, zero, suc, ◌+◌, ◌≡◌, ◌⊎◌, inl, inr, refl, ap, List, [], ◌∷◌, Option, none, some, get_elem?,
  Option-cases, Bool-cases, arith,
}
use ak1_driver.Proto.Wire.{SampleRate, hz, from_hz}
use ak1_driver.Proto.Wire.Laws.{from_hz_iff}
use ak1_driver.Kernel.Rt as Rt
use ak1_driver.Kernel.Rt.{Slot, RtStream, block_align}
use ak1_driver.Kernel.Audio.{Audio, claim_rate, release_rate}
use ak1_driver.Kernel.Audio.Steps.{World, IsSound, claim_rate-IsSound}
use ak1_driver.Kernel.Usb.{Status, Outcome, done, failed}
use ak1_driver.Kernel.Circuits.{Format, formats, KsWaveFormat, wave_format}
use ak1_driver.Kernel.Circuits.Streams.{
  Asked, is_stereo_pcm, StreamAnswers, find_slot, all_slots, create_claimed, create_checked,
  create_stream, evt_stream_destroy,
}

-- A failed creation changes nothing; a stream that was created is one more, and its end undoes that.
abbrev pub IsBooked : World → Audio × Outcome RtStream → Type 0
IsBooked w (a, failed status) = a ≡ w.audio
IsBooked w (a, done stream) =
    IsSound (record w { audio = a; created = w.created + 1 })
    × (evt_stream_destroy a (some stream) ≡ w.audio)

release-claim :
    (w : World) (rate : SampleRate) → IsSound w → release_rate (claim_rate w.audio rate) ≡ w.audio
unfolding release_rate claim_rate
release-claim w rate v = ground (arith, v)

create_claimed-IsBooked :
    (w : World) (create : Option Status) (slot : Slot) (rate : SampleRate) (bits : ℕ)
    → IsSound w
    → IsBooked w (create_claimed create w.audio slot rate bits)
unfolding create_claimed evt_stream_destroy
create_claimed-IsBooked w none slot rate bits v =
    (claim_rate-IsSound rate v, release-claim w rate v)
create_claimed-IsBooked w (some status) slot rate bits v = release-claim w rate v

create_checked-IsBooked :
    (w : World) (answers : StreamAnswers) (slot : Slot) (rate : SampleRate) (bits : ℕ)
    → IsSound w
    → IsBooked w (create_checked answers w.audio slot rate bits)
unfolding create_checked
create_checked-IsBooked w answers slot rate bits v = elim (Option-cases answers.callbacks) [
  | inr (status, e) ↦ rw e refl
  | inl e ↦ rw e (elim (Option-cases answers.rt_callbacks) [
    | inr (status, e') ↦ rw e' refl
    | inl e' ↦ rw e' (create_claimed-IsBooked w answers.create slot rate bits v)
  ])
]

-- Whatever the framework answers, a stream that cannot be created leaves a sound state of Audio as it was,
-- and one that is created keeps it sound, until its end leaves it as it was.
pub create_stream-IsBooked :
    (w : World) (answers : StreamAnswers) (circuits : List (Option ℕ)) (circuit : ℕ)
    (format : Asked)
    → IsSound w
    → IsBooked w (create_stream answers circuits w.audio circuit format)
unfolding create_stream
create_stream-IsBooked w answers circuits circuit format v =
    elim (Option-cases (find_slot circuits circuit all_slots)) [
      | inl e ↦ rw (e, create_stream) refl
      | inr (slot, e) ↦
          rw (e, create_stream)
            (elim (Option-cases (from_hz format.sample_rate)) [
              | inl e' ↦ rw e' refl
              | inr (rate, e') ↦ rw e' (elim (Bool-cases (is_stereo_pcm format)) [
                | inl t ↦
                    rw t (create_checked-IsBooked w answers slot rate format.bits_per_sample v)
                | inr t ↦ rw t refl
              ])
            ])
    ]

-- What the framework reads from a wave format.
abbrev read_from : KsWaveFormat → Asked
read_from wave = record {
  sample_rate = wave.samples_per_sec;
  bits_per_sample = wave.bits_per_sample;
  channels_count = wave.channels;
}

abbrev pub all_done : StreamAnswers
all_done = record { callbacks = none; rt_callbacks = none; create = none }

abbrev Readable : List Format → Type 0
Readable [] = Unit
Readable (format ∷ rest) = ((format.1 ≡ 16) ⊎ (format.1 ≡ 32)) × Readable rest

readable :
    (list : List Format) (i : ℕ) (format : Format)
    → Readable list
    → get_elem? list i ≡ some format
    → (format.1 ≡ 16) ⊎ (format.1 ≡ 32)
readable [] i format r h = absurd (cc h)
readable (first ∷ rest) zero format r h = ground (arith, r, h)
readable (first ∷ rest) (suc i) format r h = readable rest i format r.1 h

formats-Readable : Readable formats
formats-Readable =
    let big = inr refl in
    let small = inl refl in
    (big, (big, (big, (big, (big, (small, (small, (small, (small, (small, tt))))))))))

align :
    (rate : SampleRate) (bits valid : ℕ) (slot : Slot)
    → (bits ≡ 16) ⊎ (bits ≡ 32)
    → block_align (Rt.new slot rate bits) ≡ (wave_format (rate, bits, valid)).block_align
unfolding block_align Rt.new wave_format
align rate bits valid slot b = ground arith

accepted :
    (circuits : List (Option ℕ)) (a : Audio) (circuit : ℕ) (slot : Slot) (rate : SampleRate)
    (bits valid : ℕ)
    → find_slot circuits circuit all_slots ≡ some slot
    → (bits ≡ 16) ⊎ (bits ≡ 32)
    → create_stream all_done circuits a circuit (read_from (wave_format (rate, bits, valid)))
      ≡ (claim_rate a rate, done (Rt.new slot rate bits))
unfolding create_stream create_checked create_claimed is_stereo_pcm wave_format
accepted circuits a circuit slot rate bits valid e b =
    ground (arith, e, b, (from_hz_iff (hz rate) rate).1 refl)

-- Asked for a format of the list on a circuit of the device, which the framework then creates, the driver
-- creates a stream at the format's rate whose frames are as long as the wave format says.
pub create_stream-formats :
    (circuits : List (Option ℕ)) (a : Audio) (circuit : ℕ) (slot : Slot) (i : ℕ) (format : Format)
    → find_slot circuits circuit all_slots ≡ some slot
    → get_elem? formats i ≡ some format
    → let (a', r) = create_stream all_done circuits a circuit (read_from (wave_format format)) in
      (a' ≡ claim_rate a format.0)
      × ((r ≡ done (Rt.new slot format.0 format.1))
          × (block_align (Rt.new slot format.0 format.1) ≡ (wave_format format).block_align))
create_stream-formats circuits a circuit slot i (rate, bits, valid) e h =
    let b = readable formats i (rate, bits, valid) formats-Readable h in
    let r = accepted circuits a circuit slot rate bits valid e b in
    (ap (λ p. p.0) r, (ap (λ p. p.1) r, align rate bits valid slot b))
