-- ===== src/Host/Duplex/Worker/Halves.antt =====
-- Which memory the streaming thread of asio/src/duplex.rs writes: one half of each double buffer.
use ak1_driver.Prelude.{
  ℕ, zero, suc, ◌+◌, ◌*◌, ◌≤◌, ◌<◌, ◌≡◌, ◌≢◌, refl, ◌∙◌, sym, subst, ap, List, [], ◌∷◌, Option,
  none, some, ◌⊎◌, inl, arith, length, map, take, drop, get_or, set, as_chunks, length-set,
  length-map, length-take, get_or-set_self, get_or-set_ne,
}
use ak1_driver.Prelude.Int.{ℤ, pos}
use ak1_driver.Host.Duplex.{Host}
use ak1_driver.Host.Duplex.Worker.{
  State, Memory, input_samples, write_sample, deliver_frame, deliver, deliver_period,
}

-- What is read through the pointer of channel memory `base`, at sample `at`.
abbrev pub sample_at : Memory → (base at : ℕ) → ℤ
sample_at memory base at = get_or (get_or memory base []) at (pos 0)

-- A list that is none stays none, whatever is set in it.
write_sample-elsewhere :
    (memory : Memory) (base at base' at' : ℕ) (sample : ℤ)
    → at ≢ at'
    → sample_at (write_sample memory base at sample) base' at' ≡ sample_at memory base' at'
unfolding write_sample
write_sample-elsewhere [] base at base' at' sample ne = refl
write_sample-elsewhere (m ∷ memory) zero at zero at' sample ne = get_or-set_ne m sample (pos 0) ne
write_sample-elsewhere (m ∷ memory) zero at (suc base') at' sample ne = refl
write_sample-elsewhere (m ∷ memory) (suc base) at zero at' sample ne = refl
write_sample-elsewhere (m ∷ memory) (suc base) at (suc base') at' sample ne =
    unfold write_sample in write_sample-elsewhere memory base at base' at' sample ne

write_sample-other_base :
    (memory : Memory) (base at base' at' : ℕ) (sample : ℤ)
    → base ≢ base'
    → sample_at (write_sample memory base at sample) base' at' ≡ sample_at memory base' at'
unfolding write_sample
write_sample-other_base memory base at base' at' sample ne =
    ap (λ m. get_or m at' (pos 0))
      (get_or-set_ne memory (set (get_or memory base []) at sample) [] ne)

write_sample_lem :
    (memory : Memory) (base at : ℕ) (sample : ℤ)
    → base < length memory
    → at < length (get_or memory base [])
    → sample_at (write_sample memory base at sample) base at ≡ sample
unfolding write_sample
write_sample_lem memory base at sample there room =
    ap (λ m. get_or m at (pos 0))
      (get_or-set_self memory base (set (get_or memory base []) at sample) [] there)
    ∙ get_or-set_self (get_or memory base []) at sample (pos 0) room

deliver_frame-elsewhere :
    (channels : List (Option ℕ)) (at : ℕ) (samples : List ℤ) (memory : Memory) (base' at' : ℕ)
    → at ≢ at'
    → sample_at (deliver_frame channels at samples memory) base' at' ≡ sample_at memory base' at'
unfolding deliver_frame
deliver_frame-elsewhere channels at [] memory base' at' ne = refl
deliver_frame-elsewhere [] at (sample ∷ samples) memory base' at' ne = refl
deliver_frame-elsewhere (none ∷ channels) at (sample ∷ samples) memory base' at' ne =
    deliver_frame-elsewhere channels at samples memory base' at' ne
deliver_frame-elsewhere (some base ∷ channels) at (sample ∷ samples) memory base' at' ne =
    deliver_frame-elsewhere channels at samples (write_sample memory base at sample) base' at' ne
    ∙ write_sample-elsewhere memory base at base' at' sample ne

deliver-elsewhere :
    (channels : List (Option ℕ)) (at : ℕ) (frames : List (List ℤ)) (memory : Memory) (base' at' : ℕ)
    → (at' < at) ⊎ (at + length frames ≤ at')
    → sample_at (deliver channels at frames memory) base' at' ≡ sample_at memory base' at'
unfolding deliver
deliver-elsewhere channels at [] memory base' at' out = refl
deliver-elsewhere channels at (frame ∷ frames) memory base' at' out =
    deliver-elsewhere channels (at + 1) frames (deliver_frame channels at frame memory) base' at'
      (ground (arith, out))
    ∙ deliver_frame-elsewhere channels at frame memory base' at' (λ e. ground (arith, out, e))

-- What the writes keep: the memory's shape.
length-write_sample :
    (memory : Memory) (base at : ℕ) (sample : ℤ)
    → length (write_sample memory base at sample) ≡ length memory
unfolding write_sample
length-write_sample memory base at sample = length-set memory base _

length_of-write_sample :
    (memory : Memory) (base at base' : ℕ) (sample : ℤ)
    → length (get_or (write_sample memory base at sample) base' [])
      ≡ length (get_or memory base' [])
unfolding write_sample
length_of-write_sample [] base at base' sample = refl
length_of-write_sample (m ∷ memory) zero at zero sample = length-set m at sample
length_of-write_sample (m ∷ memory) zero at (suc base') sample = refl
length_of-write_sample (m ∷ memory) (suc base) at zero sample = refl
length_of-write_sample (m ∷ memory) (suc base) at (suc base') sample =
    length_of-write_sample memory base at base' sample

-- Channel memory `base` has a sample at `at`.
pub record IsThere (memory : Memory) (base at : ℕ) : Type 0 where
  pub allocated : base < length memory
  pub long : at < length (get_or memory base [])

write_sample-IsThere :
    (memory : Memory) (base at : ℕ) (sample : ℤ) {base' at' : ℕ}
    → IsThere memory base' at'
    → IsThere (write_sample memory base at sample) base' at'
write_sample-IsThere memory base at sample {base' = base'} {at' = at'} there = record {
  allocated = omega (arith, there.allocated, length-write_sample memory base at sample);
  long = omega (arith, there.long, length_of-write_sample memory base at base' sample);
}

deliver_frame-IsThere :
    (channels : List (Option ℕ)) (at : ℕ) (samples : List ℤ) (memory : Memory) {base' at' : ℕ}
    → IsThere memory base' at'
    → IsThere (deliver_frame channels at samples memory) base' at'
unfolding deliver_frame
deliver_frame-IsThere channels at [] memory there = there
deliver_frame-IsThere [] at (sample ∷ samples) memory there = there
deliver_frame-IsThere (none ∷ channels) at (sample ∷ samples) memory there =
    deliver_frame-IsThere channels at samples memory there
deliver_frame-IsThere (some base ∷ channels) at (sample ∷ samples) memory there =
    deliver_frame-IsThere channels at samples (write_sample memory base at sample)
      (write_sample-IsThere memory base at sample there)

-- No channel, and only channel `c`, has its memory at `base`.
abbrev pub IsUnused : ℕ → List (Option ℕ) → Type 0
IsUnused base [] = Unit
IsUnused base (none ∷ channels) = IsUnused base channels
IsUnused base (some other ∷ channels) = (other ≢ base) × IsUnused base channels

abbrev pub IsOnly : ℕ → (c : ℕ) → List (Option ℕ) → Type 0
IsOnly base c [] = zero ≡ suc zero
IsOnly base zero (channel ∷ channels) = (channel ≡ some base) × IsUnused base channels
IsOnly base (suc c) (none ∷ channels) = IsOnly base c channels
IsOnly base (suc c) (some other ∷ channels) = (other ≢ base) × IsOnly base c channels

deliver_frame-unused :
    (channels : List (Option ℕ)) (at : ℕ) (samples : List ℤ) (memory : Memory) (base' at' : ℕ)
    → IsUnused base' channels
    → sample_at (deliver_frame channels at samples memory) base' at' ≡ sample_at memory base' at'
unfolding deliver_frame
deliver_frame-unused channels at [] memory base' at' u = refl
deliver_frame-unused [] at (sample ∷ samples) memory base' at' u = refl
deliver_frame-unused (none ∷ channels) at (sample ∷ samples) memory base' at' u =
    deliver_frame-unused channels at samples memory base' at' u
deliver_frame-unused (some base ∷ channels) at (sample ∷ samples) memory base' at' u =
    deliver_frame-unused channels at samples (write_sample memory base at sample) base' at' u.1
    ∙ write_sample-other_base memory base at base' at' sample u.0

none-ne-some : {n : ℕ} → none ≢ some n
none-ne-some e = cc

some_inj : {m n : ℕ} → some m ≡ some n → m ≡ n
some_inj e = cc

deliver_frame_lem :
    (channels : List (Option ℕ)) (at : ℕ) (samples : List ℤ) (memory : Memory) (base c : ℕ)
    → IsOnly base c channels
    → IsThere memory base at
    → c < length samples
    → sample_at (deliver_frame channels at samples memory) base at ≡ get_or samples c (pos 0)
unfolding deliver_frame
deliver_frame_lem channels at [] memory base c only there room = absurd (omega arith)
deliver_frame_lem [] at (sample ∷ samples) memory base c only there room =
    absurd (omega (arith, only))
deliver_frame_lem (none ∷ channels) at (sample ∷ samples) memory base zero only there room =
    absurd (none-ne-some only.0)
deliver_frame_lem (some other ∷ channels) at (sample ∷ samples) memory base zero only there room =
    deliver_frame-unused channels at samples (write_sample memory other at sample) base at only.1
    ∙ own (some_inj only.0)
  where
    own : other ≡ base → sample_at (write_sample memory other at sample) base at ≡ sample
    own e =
        let there' : IsThere memory other at = subst (λ b. IsThere memory b at) (sym e) there in
        subst (λ b. sample_at (write_sample memory other at sample) b at ≡ sample) e
          (write_sample_lem memory other at sample there'.allocated there'.long)
deliver_frame_lem (none ∷ channels) at (sample ∷ samples) memory base (suc c) only there room =
    deliver_frame_lem channels at samples memory base c only there (omega arith)
deliver_frame_lem (some other ∷ channels) at (sample ∷ samples) memory base (suc c) only there
      room =
    deliver_frame_lem channels at samples (write_sample memory other at sample) base c only.1
      (write_sample-IsThere memory other at sample there) (omega arith)

deliver_lem :
    (channels : List (Option ℕ)) (at : ℕ) (frames : List (List ℤ)) (memory : Memory)
    (base c i k : ℕ)
    → k ≡ at + i
    → IsOnly base c channels
    → i < length frames
    → IsThere memory base k
    → c < length (get_or frames i [])
    → sample_at (deliver channels at frames memory) base k ≡ get_or (get_or frames i []) c (pos 0)
unfolding deliver
deliver_lem channels at [] memory base c i k e only here there room = absurd (omega arith)
deliver_lem channels at (frame ∷ frames) memory base c zero k e only here there room =
    let first : at ≡ k = omega (arith, e) in
    deliver-elsewhere channels (at + 1) frames (deliver_frame channels at frame memory) base k
      (inl (omega arith))
    ∙ subst (λ a. sample_at (deliver_frame channels a frame memory) base k ≡ get_or frame c (pos 0))
        (sym first) (deliver_frame_lem channels k frame memory base c only there room)
deliver_lem channels at (frame ∷ frames) memory base c (suc i) k e only here there room =
    deliver_lem channels (at + 1) frames (deliver_frame channels at frame memory) base c i k
      (omega (arith, e)) only (omega arith) (deliver_frame-IsThere channels at frame memory there)
      room

-- The input of the period that was read, as the thread decodes it.
abbrev pub period_input : Host → State → List (List ℤ)
period_input host state =
    map input_samples (take host.buffer_frames (as_chunks 8 (drop 4 state.input)))

module _ (host : Host) (state : State) (memory : Memory) where
  -- Outside the half that the switch names, no sample of any channel changes: the thread leaves the
  -- half that is the host's alone.
  pub deliver_period-elsewhere :
      (base at : ℕ)
      → (at < state.index * host.buffer_frames)
        ⊎ (state.index * host.buffer_frames + host.buffer_frames ≤ at)
      → sample_at (deliver_period host state memory) base at ≡ sample_at memory base at
  unfolding deliver_period
  deliver_period-elsewhere base at out =
      let chunks = as_chunks 8 (drop 4 state.input) in
      deliver-elsewhere host.inputs (state.index * host.buffer_frames) (period_input host state)
        memory base at
        (ground (
          arith,
          out,
          length-map input_samples (take host.buffer_frames chunks),
          length-take host.buffer_frames chunks,
        ))

  -- In that half, the memory of an input channel that shares it with no other holds the channel's
  -- samples of the period, one for each of its frames, if it has room for them.
  pub deliver_period_lem :
      (base c i : ℕ)
      → IsOnly base c host.inputs
      → i < length (period_input host state)
      → c < length (get_or (period_input host state) i [])
      → IsThere memory base (state.index * host.buffer_frames + i)
      → sample_at (deliver_period host state memory) base (state.index * host.buffer_frames + i)
        ≡ get_or (get_or (period_input host state) i []) c (pos 0)
  unfolding deliver_period
  deliver_period_lem base c i only here room there =
      deliver_lem host.inputs (state.index * host.buffer_frames) (period_input host state) memory
        base c i _ refl only here there room
