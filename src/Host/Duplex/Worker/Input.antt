-- ===== src/Host/Duplex/Worker/Input.antt =====
-- A period of input on its way from the kernel driver's handler (driver/ak1-acx/src/asio.rs) to the
-- streaming thread (asio/src/duplex.rs).
use ak1_driver.Prelude.{
  ℕ, ◌+◌, ◌*◌, ◌≡◌, refl, ap, ap₂, ◌∙◌, List, [], ◌∷◌, ◌++◌, map, length, take, drop, as_chunks,
  AllLength, concat, length-map, take_all, drop_all, append-nil, some, arith,
}
use ak1_driver.Prelude.Int.{ℤ, pos, negsuc, shl32, from_bits, Is24}
use ak1_driver.Proto.Buffers.{Frame}
use ak1_driver.Kernel.Session.{Result}
use ak1_driver.Kernel.Handlers.{sample_bytes, frame_value, word_bytes, bytes_word, fill_value}
use ak1_driver.Kernel.Handlers.Values.{as_chunks-concat}
use ak1_driver.Host.Duplex.{Host}
use ak1_driver.Host.Duplex.Worker.{State, input_samples}
use ak1_driver.Host.Duplex.Worker.Halves.{period_input}

-- A frame of the two inputs, of 24-bit samples.
abbrev pub IsInput : Frame → Type 0
IsInput (a ∷ b ∷ []) = Is24 a × Is24 b
IsInput _ = pos 0 ≡ pos 1

abbrev pub AllInputs : List Frame → Type 0
AllInputs [] = Unit
AllInputs (frame ∷ frames) = IsInput frame × AllInputs frames

sample_lem : (x : ℤ) → Is24 x → from_bits (bytes_word (sample_bytes x)) ≡ shl32 x 8
unfolding sample_bytes
sample_lem (pos n) h = ground arith
sample_lem (negsuc n) h = ground arith

two_words : (a b : ℤ) → AllLength 4 (map sample_bytes (a ∷ b ∷ []))
unfolding sample_bytes
two_words a b = (refl, (refl, tt))

frame_lem : (f : Frame) → IsInput f → input_samples (frame_value f) ≡ map (λ x. shl32 x 8) f
unfolding input_samples
frame_lem (a ∷ b ∷ []) h =
    rw (as_chunks-concat 4 (map sample_bytes (a ∷ b ∷ [])) (omega arith) (two_words a b))
      (ap₂ ◌∷◌ (sample_lem a h.0) (ap₂ ◌∷◌ (sample_lem b h.1) refl))
frame_lem _ h = absurd (cc h)

frames-AllLength : (fs : List Frame) → AllInputs fs → AllLength 8 (map frame_value fs)
frames-AllLength [] h = tt
frames-AllLength ((a ∷ b ∷ []) ∷ fs) h = (unfold sample_bytes in refl, frames-AllLength fs h.1)
frames-AllLength (_ ∷ fs) h = absurd (cc h.0)

frames_lem :
    (fs : List Frame)
    → AllInputs fs
    → map input_samples (map frame_value fs) ≡ map (map (λ x. shl32 x 8)) fs
frames_lem [] h = refl
frames_lem (f ∷ fs) h = ap₂ ◌∷◌ (frame_lem f h.0) (frames_lem fs h.1)

period_input-concat :
    (host : Host) (state : State) (fs : List Frame)
    → AllInputs fs
    → length fs ≡ host.buffer_frames
    → state.input ≡ word_bytes (length fs) ++ concat (map frame_value fs)
    → period_input host state ≡ map (map (λ x. shl32 x 8)) fs
period_input-concat host state fs h n e =
    ap (λ input. map input_samples (take host.buffer_frames (as_chunks 8 (drop 4 input)))) e
    ∙ ap (λ chunks. map input_samples (take host.buffer_frames chunks))
        (as_chunks-concat 8 (map frame_value fs) (omega arith) (frames-AllLength fs h))
    ∙ ap (map input_samples) (
        take_all host.buffer_frames (map frame_value fs)
          (omega (arith, n, length-map frame_value fs)))
    ∙ frames_lem fs h

filled_value :
    (value : List ℕ) (fs : List Frame)
    → length value ≡ 4 + length fs * 8
    → (fill_value value (Result.ok (fs, some (length fs)))).0
      ≡ word_bytes (length fs) ++ concat (map frame_value fs)
unfolding fill_value
filled_value value fs e =
    rw
      (take_all (length fs) fs (omega arith), drop_all (4 + length fs * 8) value (omega (arith, e)))
      (ap (λ bytes. word_bytes (length fs) ++ bytes) (append-nil (concat (map frame_value fs))))

-- When the kernel driver's handler fills a value of the right length with a whole period of 24-bit frames,
-- the thread decodes it as those frames, each sample in the upper 24 bits of its word.
pub period_input-fill_value :
    (host : Host) (state : State) (value : List ℕ) (fs : List Frame)
    → AllInputs fs
    → length fs ≡ host.buffer_frames
    → length value ≡ 4 + length fs * 8
    → state.input ≡ (fill_value value (Result.ok (fs, some (length fs)))).0
    → period_input host state ≡ map (map (λ x. shl32 x 8)) fs
period_input-fill_value host state value fs h n room e =
    period_input-concat host state fs h n (e ∙ filled_value value fs room)
