-- ===== src/Proto/Mode2/Playback.antt =====
-- Encoding of playback packets in crates/ak1-proto/src/mode2.rs: a device that assembles samples as
-- the file's header describes receives every sample in order, across packets.
use ak1_driver.Prelude.{
  ℕ, zero, suc, ◌+◌, ◌*◌, ◌/◌, ◌%◌, ◌≡◌, refl, ap, sym, ◌∙◌, List, [], ◌∷◌, ◌++◌, length, drop,
  append_assoc, append-nil, length-append, length-drop, arith, drop_all,
}
use ak1_driver.Prelude.Int.{ℤ, Is24}
use ak1_driver.Proto.Mode2.{
  Frame, from_be24, to_be24, PlaybackEncoder, encode_frame, encode_frames, encode, frame_bytes,
}
use ak1_driver.Proto.Mode2.Samples.{from_be24-to_be24}
use ak1_driver.Proto.Mode2.Capture.{IsFrame, AllFrames}

-- The first bytes of the two samples that the device has begun.
pub record Began : Type 0 where
  pub first0 : ℕ
  pub first1 : ℕ

-- The device: a block `[b1, b1, b2, b2, chk0, chk1, b0, b0]` ends the samples begun in the block
-- before and begins the next two. It gives the pairs of samples that it has completed.
pub receive : Began → List ℕ → Began × List (ℤ × ℤ)
receive w (b1 ∷ c1 ∷ b2 ∷ c2 ∷ chk0 ∷ chk1 ∷ b0 ∷ c0 ∷ rest) =
    let (w', pairs) = receive (record { first0 = b0; first1 = c0 }) rest in
    (w', (from_be24 w.first0 b1 b2, from_be24 w.first1 c1 c2) ∷ pairs)
receive w _ = (w, [])

-- The pairs of the two streams' samples in a frame, left before right.
abbrev pub frame_pairs : Frame → List (ℤ × ℤ)
frame_pairs (l0 ∷ r0 ∷ l1 ∷ r1 ∷ []) = (l0, l1) ∷ (r0, r1) ∷ []
frame_pairs _ = []

abbrev pub pairs_of : List Frame → List (ℤ × ℤ)
pairs_of [] = []
pairs_of (f ∷ fs) = frame_pairs f ++ pairs_of fs

-- Between two packets: the device has the first bytes and the encoder the other two bytes of
-- the pair `p`.
pub record Between (p : ℤ × ℤ) (e : PlaybackEncoder) (w : Began) : Type 0 where
  pub bytes0 : to_be24 p.0 ≡ (w.first0, e.tail0.0, e.tail0.1)
  pub bytes1 : to_be24 p.1 ≡ (w.first1, e.tail1.0, e.tail1.1)
  pub small : Is24 p.0 × Is24 p.1

-- With the two bytes that the encoder kept, the device completes the pair.
Between-ends :
    {p : ℤ × ℤ} {e : PlaybackEncoder} {w : Began}
    → Between p e w
    → (from_be24 w.first0 e.tail0.0 e.tail0.1, from_be24 w.first1 e.tail1.0 e.tail1.1) ≡ p
Between-ends {p} {e} {w} b = λ i. (ends0 i, ends1 i)
  where
    ends0 : from_be24 w.first0 e.tail0.0 e.tail0.1 ≡ p.0
    ends0 = rw b.bytes0 at (from_be24-to_be24 p.0 b.small.0)

    ends1 : from_be24 w.first1 e.tail1.0 e.tail1.1 ≡ p.1
    ends1 = rw b.bytes1 at (from_be24-to_be24 p.1 b.small.1)

-- What the device makes of a frame's bytes, whatever follows: it completes the pairs `done`.
record Step (p : ℤ × ℤ) (w : Began) (f : Frame) (e' : PlaybackEncoder) (bytes : List ℕ)
    : Type 0 where
  done : List (ℤ × ℤ)
  next : ℤ × ℤ
  began : Began
  between : Between next e' began
  in_order : done ++ (next ∷ []) ≡ p ∷ frame_pairs f
  reads :
      (rest : List ℕ)
      → receive w (bytes ++ rest) ≡ ((receive began rest).0, done ++ (receive began rest).1)

encode_frame-Step :
    (index : ℕ) (e : PlaybackEncoder) (w : Began) (p : ℤ × ℤ) (f : Frame)
    → Between p e w
    → IsFrame f
    → let (e', bytes) = encode_frame e index f in Step p w f e' bytes
unfolding encode_frame receive
encode_frame-Step index e w p (l0 ∷ r0 ∷ l1 ∷ r1 ∷ []) b h = record {
  done = p ∷ (l0, l1) ∷ [];
  next = (r0, r1);
  began = record { first0 = (to_be24 r0).0; first1 = (to_be24 r1).0 };
  between = record { bytes0 = refl; bytes1 = refl; small = (h.1, h.3) };
  in_order = refl;
  reads = λ rest. λ i. (
    (receive (record { first0 = (to_be24 r0).0; first1 = (to_be24 r1).0 }) rest).0,
    Between-ends b i
        ∷ (from_be24-to_be24 l0 h.0 i, from_be24-to_be24 l1 h.2 i)
        ∷ (receive (record { first0 = (to_be24 r0).0; first1 = (to_be24 r1).0 }) rest).1,
  );
}
encode_frame-Step index e w p _ b h = absurd h

module _ {S : Type 0} (next_frame : S → S × Frame) where
  -- The frames that the next `n` calls of the closure give.
  unfoldable pub frames_from : ℕ → S → List Frame
  frames_from zero s = []
  frames_from (suc n) s = let (s', f) = next_frame s in f ∷ frames_from n s'

  received :
      (n index : ℕ) (e : PlaybackEncoder) (w : Began) (s : S) (p : ℤ × ℤ)
      → Between p e w
      → AllFrames (frames_from n s)
      → let (e', _, bytes) = encode_frames next_frame n index e s in
        let (w', pairs) = receive w bytes in
        (last : ℤ × ℤ) × Between last e' w'
        × (pairs ++ (last ∷ []) ≡ p ∷ pairs_of (frames_from n s))
  unfolding encode_frames receive frames_from
  received zero index e w s p b h = (p, b, refl)
  received (suc n) index e w s p b h =
      let t = encode_frame-Step index e w p (next_frame s).1 b h.0 in
      let (last, end, order) =
        received n (index + 1) (encode_frame e index (next_frame s).1).0 t.began (next_frame s).0
          t.next t.between h.1 in
      rw (t.reads _) (
        last,
        end,
        rw (append_assoc, order)
            (sym (append_assoc t.done (t.next ∷ []) (pairs_of (frames_from n (next_frame s).0)))
              ∙ ap (λ q. q ++ pairs_of (frames_from n (next_frame s).0)) t.in_order),
      )

  -- A device that has begun the pair `p` when a packet starts receives `p` and then the packet's
  -- samples, in order and unchanged; the last pair stays begun for the next packet.
  pub encode-receive :
      (e : PlaybackEncoder) (packet : List ℕ) (s : S) (p : ℤ × ℤ) (w : Began)
      → Between p e w
      → length packet % frame_bytes ≡ 0
      → AllFrames (frames_from (length packet / frame_bytes) s)
      → let (e', _, bytes) = encode next_frame e packet s in
        let (w', pairs) = receive w bytes in
        (last : ℤ × ℤ) × Between last e' w'
        × (pairs ++ (last ∷ []) ≡ p ∷ pairs_of (frames_from (length packet / frame_bytes) s))
  unfolding encode
  encode-receive e packet s p w b whole h =
      let rest_empty : drop (frame_bytes * (length packet / frame_bytes)) packet ≡ [] =
        drop_all _ packet (omega arith) in
      rw (rest_empty, append-nil) (received (length packet / frame_bytes) 0 e w s p b h)

  length-encode_frames :
      (n index : ℕ) (e : PlaybackEncoder) (s : S)
      → length (encode_frames next_frame n index e s).2 ≡ frame_bytes * n
  unfolding encode_frames encode_frame
  length-encode_frames zero index e s = refl
  length-encode_frames (suc n) index e s = omega (
    arith,
    length-encode_frames n (index + 1) (encode_frame e index (next_frame s).1).0 (next_frame s).0,
  )

  -- Encoding fills a packet without changing its length, whole frames or not.
  pub length-encode :
      (e : PlaybackEncoder) (packet : List ℕ) (s : S)
      → length (encode next_frame e packet s).2 ≡ length packet
  unfolding encode
  length-encode e packet s = omega (
    arith,
    length-encode_frames (length packet / frame_bytes) 0 e s,
    length-append (encode_frames next_frame (length packet / frame_bytes) 0 e s).2
        (drop (frame_bytes * (length packet / frame_bytes)) packet),
    length-drop (frame_bytes * (length packet / frame_bytes)) packet,
  )
