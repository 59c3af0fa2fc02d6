-- ===== src/Host/Duplex/Worker/Output.antt =====
-- A period of output on its way from the streaming thread (asio/src/duplex.rs) to the kernel driver's session
-- (driver/ak1-acx/src/asio.rs).
use ak1_driver.Prelude.{
  ℕ, zero, suc, ◌+◌, ◌-◌, ◌^◌, ◌≤◌, ◌≡◌, refl, ap, ap₂, ◌∙◌, subst, List, [], ◌∷◌, map, length,
  AllLength, concat, length-map, length-concat, Option, none, some, get_or, arith,
}
use ak1_driver.Prelude.Int.{ℤ, pos, negsuc, shr, to_bits, ◌≤ℤ◌}
use ak1_driver.Kernel.Session.{Session}
use ak1_driver.Kernel.Audio.{Audio}
use ak1_driver.Kernel.Handlers.{word_bytes, bytes_sample, value_frame}
use ak1_driver.Kernel.Handlers.Values.{as_chunks-concat, IsWritten, write-concat}
use ak1_driver.Host.Duplex.Worker.Periods.{length-collect}
use ak1_driver.Host.Duplex.Worker.{Memory, collect_frame, collect, output_frame, output_bytes}

-- A sample of the host, an `i32`.
abbrev pub Is32 : ℤ → Type 0
Is32 x = (negsuc (2 ^ 31 - 1) ≤ℤ x) × (x ≤ℤ pos (2 ^ 31 - 1))

abbrev AllSamples : List ℤ → Type 0
AllSamples [] = Unit
AllSamples (x ∷ xs) = Is32 x × AllSamples xs

abbrev pub AllMemory : Memory → Type 0
AllMemory [] = Unit
AllMemory (samples ∷ memory) = AllSamples samples × AllMemory memory

abbrev IsOutput : List ℤ → Type 0
IsOutput frame = (length frame ≡ 4) × AllSamples frame

abbrev AllOutputs : List (List ℤ) → Type 0
AllOutputs [] = Unit
AllOutputs (frame ∷ frames) = IsOutput frame × AllOutputs frames

sample_lem : (x : ℤ) → Is32 x → bytes_sample (word_bytes (to_bits x)) ≡ shr x 8
unfolding bytes_sample
sample_lem (pos n) h = ground arith
sample_lem (negsuc n) h = ground arith

get_or-Is32 : (xs : List ℤ) (i : ℕ) → AllSamples xs → Is32 (get_or xs i (pos 0))
get_or-Is32 [] i h = (omega arith, omega arith)
get_or-Is32 (x ∷ xs) zero h = h.0
get_or-Is32 (x ∷ xs) (suc i) h = get_or-Is32 xs i h.1

memory_samples :
    (memory : Memory) (base : ℕ) → AllMemory memory → AllSamples (get_or memory base [])
memory_samples [] base h = tt
memory_samples (samples ∷ memory) zero h = h.0
memory_samples (samples ∷ memory) (suc base) h = memory_samples memory base h.1

collect_frame-IsOutput :
    (channels : List (Option ℕ)) (at : ℕ) (memory : Memory)
    → AllMemory memory
    → (length (collect_frame channels at memory) ≡ length channels)
      × AllSamples (collect_frame channels at memory)
unfolding collect_frame
collect_frame-IsOutput [] at memory h = (refl, tt)
collect_frame-IsOutput (none ∷ channels) at memory h =
    let (n, rest) = collect_frame-IsOutput channels at memory h in
    (ap suc n, ((omega arith, omega arith), rest))
collect_frame-IsOutput (some base ∷ channels) at memory h =
    let (n, rest) = collect_frame-IsOutput channels at memory h in
    (ap suc n, (get_or-Is32 (get_or memory base []) at (memory_samples memory base h), rest))

collect-AllOutputs :
    (channels : List (Option ℕ)) (at n : ℕ) (memory : Memory)
    → length channels ≡ 4
    → AllMemory memory
    → AllOutputs (collect channels at n memory)
unfolding collect
collect-AllOutputs channels at zero memory e h = tt
collect-AllOutputs channels at (suc n) memory e h =
    let (l, samples) = collect_frame-IsOutput channels at memory h in
    ((l ∙ e, samples), collect-AllOutputs channels (at + 1) n memory e h)

four_words : (frame : List ℤ) → AllLength 4 (map (λ sample. word_bytes (to_bits sample)) frame)
four_words [] = tt
four_words (x ∷ xs) = (refl, four_words xs)

samples_back :
    (frame : List ℤ)
    → AllSamples frame
    → map bytes_sample (map (λ sample. word_bytes (to_bits sample)) frame)
      ≡ map (λ x. shr x 8) frame
samples_back [] h = refl
samples_back (x ∷ xs) h = ap₂ ◌∷◌ (sample_lem x h.0) (samples_back xs h.1)

value_frame-output_frame :
    (frame : List ℤ) → IsOutput frame → value_frame (output_frame frame) ≡ map (λ x. shr x 8) frame
unfolding value_frame output_frame
value_frame-output_frame frame h =
    ap (map bytes_sample) (
      as_chunks-concat 4 (map (λ sample. word_bytes (to_bits sample)) frame) (omega arith)
        (four_words frame))
    ∙ samples_back frame h.1

output_frame-length : (frame : List ℤ) → IsOutput frame → length (output_frame frame) ≡ 16
unfolding output_frame
output_frame-length frame h =
    length-concat 4 (map (λ sample. word_bytes (to_bits sample)) frame) (four_words frame)
    ∙ omega (arith, length-map (λ (sample : ℤ). word_bytes (to_bits sample)) frame, h.0)

frames-AllLength :
    (frames : List (List ℤ)) → AllOutputs frames → AllLength 16 (map output_frame frames)
frames-AllLength [] h = tt
frames-AllLength (frame ∷ frames) h = (output_frame-length frame h.0, frames-AllLength frames h.1)

frames_back :
    (frames : List (List ℤ))
    → AllOutputs frames
    → map value_frame (map output_frame frames) ≡ map (map (λ x. shr x 8)) frames
frames_back [] h = refl
frames_back (frame ∷ frames) h =
    ap₂ ◌∷◌ (value_frame-output_frame frame h.0) (frames_back frames h.1)

-- What the thread collects from the host's memory, `n` samples of each of four outputs, and sends in a write
-- reaches the session of the kernel driver as frames of the upper 24 bits of each sample.
pub write-collect :
    (a : Audio) (session : Session) (outputs : List (Option ℕ)) (at n : ℕ) (memory : Memory)
    → a.asio ≡ some session
    → length outputs ≡ 4
    → AllMemory memory
    → n ≤ 8192
    → IsWritten a session
        (output_bytes (collect outputs at n memory))
        (map (map (λ x. shr x 8)) (collect outputs at n memory))
unfolding output_bytes
write-collect a session outputs at n memory e four h short =
    let frames = collect outputs at n memory in
    let all = collect-AllOutputs outputs at n memory four h in
    subst (IsWritten a session (concat (map output_frame frames))) (frames_back frames all) (
      write-concat a session (map output_frame frames) e (frames-AllLength frames all)
        (omega (arith, length-map output_frame frames, length-collect outputs at n memory)))
