-- ===== src/Kernel/Handlers/Values.antt =====
-- What passes between an ASIO host and its session through the values of requests,
-- driver/ak1-acx/src/asio.rs.
use native.Mathlib.Nat
use ak1_driver.Prelude.{
  ℕ, ◌*◌, ◌/◌, ◌%◌, ◌≤◌, ◌<◌, ◌≡◌, refl, sym, subst, ap, ap₂, ◌∙◌, Bool, true, false, List, [], ◌∷◌,
  some, map, length, as_chunks, chunks_of, concat, AllLength, chunks_of-concat, length-concat,
  append-nil, arith, length-map, not, ◌||◌, ltb, ◌==◌, if◌then◌else◌,
}
use ak1_driver.Prelude.Int.{ℤ, pos, negsuc, Is24}
use ak1_driver.Proto.Buffers
use ak1_driver.Proto.Buffers.{Frame, Buffers}
use ak1_driver.Proto.Mode2.Capture.{IsFrame, AllFrames}
use ak1_driver.Kernel.Session.{Session, Refusal, Result}
use ak1_driver.Kernel.Audio.{Audio, with_asio}
use ak1_driver.Kernel.Handlers.{
  sample_bytes, bytes_sample, frame_value, value_frame, write, write_value, write_session,
  taken_or_refused,
}

bytes_sample-sample_bytes : (x : ℤ) → Is24 x → bytes_sample (sample_bytes x) ≡ x
unfolding bytes_sample sample_bytes
bytes_sample-sample_bytes (pos n) h = ground arith
bytes_sample-sample_bytes (negsuc n) h = ground arith

pub as_chunks-concat :
    (n : ℕ) (xs : List (List ℕ)) → 0 < n → AllLength n xs → as_chunks n (concat xs) ≡ xs
as_chunks-concat n xs p h =
    let count : length (concat xs) / n ≡ length xs =
      ap (λ k. k / n) (length-concat n xs h) ∙ Nat.mul-div_cancel (length xs) p in
    ap (λ k. chunks_of n k (concat xs)) count
    ∙ ap (chunks_of n (length xs)) (sym (append-nil (concat xs)))
    ∙ chunks_of-concat n xs [] h

four_words : (a b c d : ℤ) → AllLength 4 (map sample_bytes (a ∷ b ∷ c ∷ d ∷ []))
unfolding sample_bytes
four_words a b c d = (refl, (refl, (refl, (refl, tt))))

frame_value-AllLength : (f : Frame) → length f ≡ 4 → length (frame_value f) ≡ 16
unfolding sample_bytes
frame_value-AllLength (a ∷ b ∷ c ∷ d ∷ []) h = refl
frame_value-AllLength _ h = absurd (ground (arith, h))

length_4 : (f : Frame) → IsFrame f → length f ≡ 4
length_4 (a ∷ b ∷ c ∷ d ∷ []) h = refl
length_4 _ h = absurd h

value_frame-frame_value : (f : Frame) → IsFrame f → value_frame (frame_value f) ≡ f
unfolding value_frame
value_frame-frame_value (a ∷ b ∷ c ∷ d ∷ []) h =
    rw
      (as_chunks-concat 4 (map sample_bytes (a ∷ b ∷ c ∷ d ∷ [])) (omega arith)
        (four_words a b c d))
      (ap₂ ◌∷◌ (bytes_sample-sample_bytes a h.0) (
        ap₂ ◌∷◌ (bytes_sample-sample_bytes b h.1) (
          ap₂ ◌∷◌ (bytes_sample-sample_bytes c h.2)
            (ap₂ ◌∷◌ (bytes_sample-sample_bytes d h.3) refl))))
value_frame-frame_value _ h = absurd h

values-AllLength : (fs : List Frame) → AllFrames fs → AllLength 16 (map frame_value fs)
values-AllLength [] h = tt
values-AllLength (f ∷ fs) h = (frame_value-AllLength f (length_4 f h.0), values-AllLength fs h.1)

values_back : (fs : List Frame) → AllFrames fs → map value_frame (map frame_value fs) ≡ fs
values_back [] h = refl
values_back (f ∷ fs) h = ap₂ ◌∷◌ (value_frame-frame_value f h.0) (values_back fs h.1)

-- The bytes of a list of frames.
abbrev pub values : List Frame → List ℕ
values fs = concat (map frame_value fs)

length-values : (fs : List Frame) → AllFrames fs → length (values fs) ≡ length fs * 16
length-values fs h =
    length-concat 16 (map frame_value fs) (values-AllLength fs h)
    ∙ ap (λ n. n * 16) (length-map frame_value fs)

as_chunks-values : (fs : List Frame) → AllFrames fs → as_chunks 16 (values fs) ≡ map frame_value fs
as_chunks-values fs h =
    as_chunks-concat 16 (map frame_value fs) (omega arith) (values-AllLength fs h)

with_asio-own :
    {R : Type 0} (a : Audio) (session : Session) (f : Session → Session × R)
    → a.asio ≡ some session
    → with_asio a session.owner f
      ≡ (record a { asio = some (f session).0 }, Result.ok (f session).1)
unfolding with_asio
with_asio-own a session f e = ground (arith, e)

write_guard :
    (vs : List (List ℕ))
    → AllLength 16 vs
    → length vs ≤ 8192
    → (not (length (concat vs) % 16 == 0) || ltb 8192 (length (concat vs) / 16)) ≡ false
write_guard vs h short =
    let size = length-concat 16 vs h in
    let whole : length (concat vs) % 16 ≡ 0 = omega (arith, size) in
    let count : length (concat vs) / 16 ≤ 8192 = omega (arith, size, short) in
    refused_none (length (concat vs) % 16) (length (concat vs) / 16) whole count
  where
    refused_none : (r q : ℕ) → r ≡ 0 → q ≤ 8192 → (not (r == 0) || ltb 8192 q) ≡ false
    refused_none r q a b = ground (arith, a, b)

-- What comes of a write: the frames reach the session's buffers, and the reply says whether they took them.
abbrev pub IsWritten : Audio → Session → (value : List ℕ) → List Frame → Type 0
IsWritten a session value fs =
    let (buffers, taken) = Buffers.write session.buffers fs in
    write true a (record { file = some session.owner; value = some value }) ≡ (
      record a { asio = some (record session { buffers = buffers }) },
      (if taken then Result.ok tt else Result.err Refusal.invalid_buffer_size),
    )

-- The session takes a value of whole frames as those frames.
pub write-concat :
    (a : Audio) (session : Session) (vs : List (List ℕ))
    → a.asio ≡ some session
    → AllLength 16 vs
    → length vs ≤ 8192
    → IsWritten a session (concat vs) (map value_frame vs)
unfolding write write_value write_session taken_or_refused
write-concat a session vs e h short =
    rw
      (
        write_guard vs h short,
        as_chunks-concat 16 vs (omega arith) h,
        with_asio-own a session (write_session (map value_frame vs)) e,
        write_value,
      )
      (ap
        (λ r. (
          record a {
            asio = some (record session {
              buffers = (Buffers.write session.buffers (map value_frame vs)).0;
            });
          },
          r,
        ))
        (taken (Buffers.write session.buffers (map value_frame vs)).1))
  where
    taken :
        (b : Bool)
        → taken_or_refused (Result.ok b)
          ≡ (if b then Result.ok tt else Result.err Refusal.invalid_buffer_size)
    taken true = refl
    taken false = refl

-- A period that the host writes reaches the session as the frames of 24-bit samples that it is, however
-- the session takes it: whole if it has the session's length, and refused otherwise.
pub write-values :
    (a : Audio) (session : Session) (fs : List Frame)
    → a.asio ≡ some session
    → AllFrames fs
    → length fs ≤ 8192
    → IsWritten a session (values fs) fs
write-values a session fs e h short = subst (IsWritten a session (values fs)) (values_back fs h) (
    write-concat a session (map frame_value fs) e (values-AllLength fs h)
      (omega (arith, length-map frame_value fs, short)))
