-- ===== src/Proto/Resample/History.antt =====
-- The ring of past frames of the resampler, and its outputs as sums over all that was pushed.
use ak1_driver.Prelude.{
  ℕ, zero, suc, ◌+◌, ◌-◌, ◌*◌, ◌%◌, ◌^◌, ◌≤◌, ◌<◌, ◌≡◌, refl, sym, ap, ◌∙◌, ◌≢◌, ◌||◌, List, [],
  ◌∷◌, ◌++◌, Option, none, some, arith, length, get_or, set, replicate, length-append, length-set,
  length-replicate, get_or-set_self, get_or-set_ne, leb, ◌==◌, if◌then◌else◌, dec_le, ℕ_discrete,
}
use ak1_driver.Prelude.Int.{ℤ}
use ak1_driver.Proto.Resample.{
  Frame, Resampler, history_frames, zeros, reset, push, pop, advance, output, add_taps, add_side,
  history_before, history_after,
}
use ak1_driver.Proto.Resample.Ratio.{pop_cases}

get_or-append_lt :
    (xs ys : List Frame) (i : ℕ) (d : Frame) → i < length xs → get_or (xs ++ ys) i d ≡ get_or xs i d
get_or-append_lt [] ys i d h = absurd (omega arith)
get_or-append_lt (x ∷ xs) ys zero d h = refl
get_or-append_lt (x ∷ xs) ys (suc i) d h = get_or-append_lt xs ys i d (omega arith)

get_or-append_last : (xs : List Frame) (x d : Frame) → get_or (xs ++ (x ∷ [])) (length xs) d ≡ x
get_or-append_last [] x d = refl
get_or-append_last (y ∷ xs) x d = get_or-append_last xs x d

pub get_or-replicate : (n i : ℕ) (x d : Frame) → i < n → get_or (replicate n x) i d ≡ x
get_or-replicate zero i x d h = absurd (omega arith)
get_or-replicate (suc n) zero x d h = refl
get_or-replicate (suc n) (suc i) x d h = get_or-replicate n i x d (omega arith)

-- The ring holds the last `history_frames` frames of `input`, and silence where none was pushed yet.
pub record Holds (channels : ℕ) (input : List Frame) (r : Resampler) : Type 0 where
  pub pushed_eq : r.pushed ≡ length input
  pub room : length r.history ≡ history_frames
  pub ring :
      (i : ℕ)
      → i < length input
      → length input ≤ i + history_frames
      → get_or r.history (i % history_frames) [] ≡ get_or input i []
  pub blank :
      (i : ℕ) → length input ≤ i → i < history_frames → get_or r.history i [] ≡ zeros channels

pub reset-Holds :
    (channels from_hz to_hz : ℕ) (r : Resampler)
    → Holds channels [] (reset channels from_hz to_hz r)
unfolding reset
reset-Holds channels from_hz to_hz r = record {
  pushed_eq = refl;
  room = length-replicate history_frames (zeros channels);
  ring = λ i h k. absurd (omega arith);
  blank = λ i h k. get_or-replicate history_frames i (zeros channels) [] k;
}

module _ {channels : ℕ} {input : List Frame} {r : Resampler} (v : Holds channels input r) where
  pub push-Holds : (frame : Frame) → Holds channels (input ++ (frame ∷ [])) (push r frame)
  unfolding push
  push-Holds frame = record {
    pushed_eq = omega (arith, v.pushed_eq, grows);
    room = length-set r.history (r.pushed % history_frames) frame ∙ v.room;
    ring = λ i h k. elim (ℕ_discrete i (length input)) [
      | yes e ↦ at_end i e
      | no ne ↦ not_end i h k ne
    ];
    blank = λ i h k.
        get_or-set_ne r.history frame [] (ne_blank i h k) ∙ v.blank i (omega (arith, grows)) k;
  }
    where
      grows : length (input ++ (frame ∷ [])) ≡ length input + 1
      grows = length-append input (frame ∷ [])

      at_end :
          (i : ℕ)
          → i ≡ length input
          → get_or (set r.history (r.pushed % history_frames) frame) (i % history_frames) []
            ≡ get_or (input ++ (frame ∷ [])) i []
      at_end i e =
          rw (e, v.pushed_eq)
            (get_or-set_self r.history (length input % history_frames) frame []
                (omega (arith, v.room))
              ∙ sym (get_or-append_last input frame []))

      not_end :
          (i : ℕ)
          → i < length (input ++ (frame ∷ []))
          → length (input ++ (frame ∷ [])) ≤ i + history_frames
          → i ≢ length input
          → get_or (set r.history (r.pushed % history_frames) frame) (i % history_frames) []
            ≡ get_or (input ++ (frame ∷ [])) i []
      not_end i h k ne =
          get_or-set_ne r.history frame [] (λ e. omega (arith, v.pushed_eq, grows, ne))
          ∙ v.ring i (omega (arith, grows, ne)) (omega (arith, grows))
          ∙ sym (get_or-append_lt input (frame ∷ []) i [] (omega (arith, grows, ne)))

      ne_blank :
          (i : ℕ)
          → length (input ++ (frame ∷ [])) ≤ i
          → i < history_frames
          → r.pushed % history_frames ≢ i
      ne_blank i h k e = omega (arith, grows, v.pushed_eq)

  pub advance-Holds : Holds channels input (advance r)
  unfolding advance
  advance-Holds = record { pushed_eq = v.pushed_eq; room = v.room; ring = v.ring; blank = v.blank }

-- The frame `tap` samples before `center`: silence before the first.
abbrev pub before : (channels : ℕ) → List Frame → (center tap : ℕ) → Frame
before channels input center tap =
    if leb tap center then get_or input (center - tap) [] else zeros channels

abbrev pub after : List Frame → (center tap : ℕ) → Frame
after input center tap = get_or input (center + 1 + tap) []

module _ {channels : ℕ} {input : List Frame} {r : Resampler} (v : Holds channels input r) where
  history_before_lem :
      (tap : ℕ)
      → tap < r.taps
      → 2 * r.taps ≤ history_frames
      → r.center + r.taps < r.pushed
      → r.pushed ≤ r.center + r.taps + 1
      → r.center < 2 ^ 63
      → history_before r tap ≡ before channels input r.center tap
  unfolding history_before
  history_before_lem tap h small enough drained in_range = elim (dec_le tap r.center) [
    | yes p ↦
        ap (λ i. get_or r.history i []) (omega arith)
        ∙ v.ring (r.center - tap) (omega (arith, v.pushed_eq)) (omega (arith, v.pushed_eq))
        ∙ sym (before_le p)
    | no p ↦
        ap (λ i. get_or r.history i []) (omega arith)
        ∙ v.blank (r.center + history_frames - tap) (omega (arith, v.pushed_eq)) (omega arith)
        ∙ sym (before_gt p)
  ]
    where
      before_le :
          tap ≤ r.center → before channels input r.center tap ≡ get_or input (r.center - tap) []
      before_le p = ground arith

      before_gt : ¬ (tap ≤ r.center) → before channels input r.center tap ≡ zeros channels
      before_gt p = ground arith

  history_after_lem :
      (tap : ℕ)
      → tap < r.taps
      → 2 * r.taps ≤ history_frames
      → r.center + r.taps < r.pushed
      → r.pushed ≤ r.center + r.taps + 1
      → history_after r tap ≡ after input r.center tap
  unfolding history_after
  history_after_lem tap h small enough drained =
      v.ring (r.center + 1 + tap) (omega (arith, v.pushed_eq)) (omega (arith, v.pushed_eq))

module _ (kernel : List ℤ) where
  add_taps_agree :
      (r : Resampler) (f g : ℕ → Frame) (n tap index fraction : ℕ) (sums : Frame)
      → ((k : ℕ) → tap ≤ k → k < tap + n → f k ≡ g k)
      → add_taps kernel r f n tap index fraction sums
        ≡ add_taps kernel r g n tap index fraction sums
  unfolding add_taps
  add_taps_agree r f g zero tap index fraction sums h = refl
  add_taps_agree r f g (suc n) tap index fraction sums h =
      rw
        (
          h tap (omega arith) (omega arith),
          add_taps_agree r f g n (tap + 1) _ _ _ (λ k a b. h k (omega arith) (omega arith)),
        )
        refl

  add_side_agree :
      (r : Resampler) (f g : ℕ → Frame) (distance : ℕ) (sums : Frame)
      → ((k : ℕ) → k < r.taps → f k ≡ g k)
      → add_side kernel r f distance sums ≡ add_side kernel r g distance sums
  unfolding add_side
  add_side_agree r f g distance sums h =
      add_taps_agree r f g r.taps 0 _ _ sums (λ k a b. h k (omega arith))

  output_agree :
      (channels : ℕ) (r : Resampler) (f f' g g' : ℕ → Frame)
      → ((k : ℕ) → k < r.taps → f k ≡ f' k)
      → ((k : ℕ) → k < r.taps → g k ≡ g' k)
      → output kernel channels f g r ≡ output kernel channels f' g' r
  unfolding output
  output_agree channels r f f' g g' h k =
      rw
        (
          add_side_agree r f f' r.phase (zeros channels) h,
          add_side_agree r g g' (r.up - r.phase) _ k,
        )
        refl

  when_ready :
      (up pushed center taps : ℕ) (x : Option Frame)
      → 0 < up
      → center + taps < pushed
      → x ≡ (if up == 0 || leb pushed (center + taps) then none else x)
  when_ready up pushed center taps x h k = ground arith

  -- A resampler that holds `input`, read out as soon as it can be, puts out the sum of the kernel
  -- over all of `input`, silence standing before its start: the ring of 512 frames loses nothing
  -- that a tap reads, for up to 256 taps on a side. It still holds `input` afterwards.
  pub pop-Holds :
      {channels : ℕ} {input : List Frame} {r : Resampler}
      → Holds channels input r
      → 2 * r.taps ≤ history_frames
      → r.pushed ≤ r.center + r.taps + 1
      → r.center < 2 ^ 63
      → let (r', frame) = pop kernel channels r in
        Holds channels input r'
        × (frame ≡ (
            if r.up == 0 || leb r.pushed (r.center + r.taps)
            then none
            else some
                (output kernel channels (before channels input r.center) (after input r.center) r)))
  pop-Holds {channels} {input} {r} v small drained in_range =
      pop_cases kernel channels
        (λ p.
          Holds channels input p.0
          × (p.1 ≡ (
              if r.up == 0 || leb r.pushed (r.center + r.taps)
              then none
              else some (
                  output kernel channels (before channels input r.center) (after input r.center)
                    r))))
        r (λ h. (v, ground arith))
        (λ h k. (
          advance-Holds v,
          ap some (
                output_agree channels r _ _ _ _
                  (λ t b. history_before_lem v t b small k drained in_range)
                  (λ t b. history_after_lem v t b small k drained))
              ∙ when_ready r.up r.pushed r.center r.taps _ h k,
        ))
