-- ===== src/Kernel/Rt/Progress.antt =====
-- How a stream's packets complete: `advance` and what it reports, driver/ak1-acx/src/rt.rs.
use native.Mathlib.Nat
use ak1_driver.Prelude.{
  ℕ, zero, suc, ◌+◌, ◌-◌, ◌/◌, ◌%◌, ◌^◌, ◌<◌, ◌≡◌, ◌≢◌, refl, sym, ap, ap₂, subst, ◌∙◌, ◌↔◌, List,
  [], ◌∷◌, ◌++◌, length, arith, ℕ_discrete, if◌then◌else◌, ◌==◌, map,
}
use ak1_driver.Kernel.Rt.{RtStream, frames_per_packet, advance, reset}
use ak1_driver.Kernel.Rt.Packets.{Status, set_render_packet, get_capture_packet}

div_suc : (n f : ℕ) → 0 < f → (n + 1) / f ≡ n / f + (n % f + 1) / f
div_suc n f h =
    ap (λ k. k / f) (omega (arith, Nat.div-add-mod n f)) ∙ Nat.mul-add-div h (n / f) (n % f + 1)

div_suc_whole : (n f : ℕ) → 0 < f → (n + 1) % f ≡ 0 → (n + 1) / f ≡ n / f + 1
div_suc_whole n f h e = elim (ℕ_discrete (n % f + 1) f) [
  | yes p ↦ div_suc n f h ∙ ap (λ k. n / f + k / f) p ∙ ap (◌+◌ (n / f)) (Nat.div_self h)
  | no p ↦ absurd (
      omega (
        arith,
        p,
        Nat.mod-lt n h,
        Nat.mod-add-mod n f 1,
        Nat.mod-eq_of_lt {n = n % f + 1} {m = f} (omega (arith, p, Nat.mod-lt n h)),
      ))
]

div_suc_part : (n f : ℕ) → 0 < f → (n + 1) % f ≢ 0 → (n + 1) / f ≡ n / f
div_suc_part n f h e = elim (ℕ_discrete (n % f + 1) f) [
  | yes p ↦ absurd (e (sym (Nat.mod-add-mod n f 1) ∙ ap (λ k. k % f) p ∙ Nat.mod_self f))
  | no p ↦ omega (
    arith,
    div_suc n f h,
    Nat.div-eq_of_lt {n = n % f + 1} {m = f} (omega (arith, p, Nat.mod-lt n h)),
  )
]

-- 0, 1, …, n - 1.
pub count_up : ℕ → List ℕ
count_up zero = []
count_up (suc n) = count_up n ++ (n ∷ [])

-- What a stream with packets has reported since it was reset.
pub record IsPaced (s : RtStream) : Type 0 where
  pub has_packets : s.ring.count ≢ 0
  pub some_frames : 0 < frames_per_packet s
  pub current : s.current_packet ≡ s.cursor.frames / frames_per_packet s % 2 ^ 32
  pub in_order :
      map (λ (x : ℕ × ℕ). x.0) s.notified ≡ count_up (s.cursor.frames / frames_per_packet s)

map-append_one :
    (xs : List (ℕ × ℕ)) (x : ℕ × ℕ)
    → map (λ (x : ℕ × ℕ). x.0) (xs ++ (x ∷ [])) ≡ map (λ (x : ℕ × ℕ). x.0) xs ++ (x.0 ∷ [])
map-append_one [] x = refl
map-append_one (y ∷ xs) x = ap (◌∷◌ y.0) (map-append_one xs x)

-- A frame that does not end a packet, and one that does.
advance_part :
    (s : RtStream) (qpc : ℕ)
    → s.ring.count ≢ 0
    → (s.cursor.frames + 1) % frames_per_packet s ≢ 0
    → (start : ℕ) × (advance s qpc ≡ record s {
      cursor = record { frames = s.cursor.frames + 1; qpc = qpc; packet_start_qpc = start };
    })
unfolding advance
advance_part s qpc h p = (
  if s.cursor.frames % frames_per_packet s == 0 then qpc else s.cursor.packet_start_qpc,
  ground arith,
)

advance_whole :
    (s : RtStream) (qpc : ℕ)
    → s.ring.count ≢ 0
    → (s.cursor.frames + 1) % frames_per_packet s ≡ 0
    → (start : ℕ) × (advance s qpc ≡ record s {
      cursor = record { frames = s.cursor.frames + 1; qpc = qpc; packet_start_qpc = start };
      current_packet = ((s.cursor.frames + 1) / frames_per_packet s - 1 + 1) % 2 ^ 32;
      last_packet_start_qpc = start;
      notified = s.notified ++ (((s.cursor.frames + 1) / frames_per_packet s - 1, qpc) ∷ []);
    })
unfolding advance
advance_whole s qpc h p = (
  if s.cursor.frames % frames_per_packet s == 0 then qpc else s.cursor.packet_start_qpc,
  ground arith,
)

pub advance-IsPaced : {s : RtStream} (qpc : ℕ) → IsPaced s → IsPaced (advance s qpc)
unfolding frames_per_packet count_up
advance-IsPaced {s} qpc v = elim (ℕ_discrete ((s.cursor.frames + 1) % frames_per_packet s) 0) [
  | yes p ↦
      let q = div_suc_whole s.cursor.frames (frames_per_packet s) v.some_frames p in
      let (start, e) = advance_whole s qpc v.has_packets p in
      let packets : (s.cursor.frames + 1) / frames_per_packet s - 1
          ≡ s.cursor.frames / frames_per_packet s =
        omega (arith, q) in
      subst IsPaced (sym e) (record {
        has_packets = v.has_packets;
        some_frames = v.some_frames;
        current = ap (λ k. k % 2 ^ 32) (omega (arith, q));
        in_order =
            map-append_one s.notified _ ∙ ap₂ ◌++◌ v.in_order (ap (λ k. k ∷ []) packets) ∙ grows q;
      })
  | no p ↦
      let q = div_suc_part s.cursor.frames (frames_per_packet s) v.some_frames p in
      let (start, e) = advance_part s qpc v.has_packets p in
      subst IsPaced (sym e) (record {
        has_packets = v.has_packets;
        some_frames = v.some_frames;
        current = v.current ∙ ap (λ k. k % 2 ^ 32) (sym q);
        in_order = v.in_order ∙ ap count_up (sym q);
      })
]
  where
    grows :
        (s.cursor.frames + 1) / frames_per_packet s ≡ s.cursor.frames / frames_per_packet s + 1
        → count_up (suc (s.cursor.frames / frames_per_packet s))
          ≡ count_up ((s.cursor.frames + 1) / frames_per_packet s)
    grows q =
        let e : suc (s.cursor.frames / frames_per_packet s)
            ≡ (s.cursor.frames + 1) / frames_per_packet s =
          omega (arith, q) in
        ap count_up e

advance-frames :
    (s : RtStream) (qpc : ℕ)
    → ((advance s qpc).cursor.frames ≡ s.cursor.frames + 1)
      × (frames_per_packet (advance s qpc) ≡ frames_per_packet s)
unfolding advance frames_per_packet
advance-frames s qpc = ground arith

-- One frame after the other.
pub advance_all : RtStream → List ℕ → RtStream
advance_all s [] = s
advance_all s (qpc ∷ qpcs) = advance_all (advance s qpc) qpcs

advance_all-IsPaced : (qpcs : List ℕ) {s : RtStream} → IsPaced s → IsPaced (advance_all s qpcs)
unfolding advance_all
advance_all-IsPaced [] v = v
advance_all-IsPaced (qpc ∷ qpcs) v = advance_all-IsPaced qpcs (advance-IsPaced qpc v)

advance_all-frames :
    (qpcs : List ℕ) (s : RtStream)
    → ((advance_all s qpcs).cursor.frames ≡ s.cursor.frames + length qpcs)
      × (frames_per_packet (advance_all s qpcs) ≡ frames_per_packet s)
unfolding advance_all
advance_all-frames [] s = (omega arith, refl)
advance_all-frames (qpc ∷ qpcs) s =
    let (frames, per_packet) = advance_all-frames qpcs (advance s qpc) in
    let (frames', per_packet') = advance-frames s qpc in
    (omega (arith, frames, frames'), per_packet ∙ per_packet')

reset-IsPaced :
    (s : RtStream)
    → s.ring.count ≢ 0
    → 0 < frames_per_packet s
    → IsPaced (record (reset s) { notified = [] })
unfolding reset frames_per_packet count_up
reset-IsPaced s h k = record {
  has_packets = h;
  some_frames = k;
  current = ap (λ k. k % 2 ^ 32) (sym (Nat.zero-div (frames_per_packet s)));
  in_order = ap count_up (sym (Nat.zero-div (frames_per_packet s)));
}

reset-frames :
    (s : RtStream)
    → ((reset s).cursor.frames ≡ 0)
      × (frames_per_packet (record (reset s) { notified = [] }) ≡ frames_per_packet s)
unfolding reset frames_per_packet
reset-frames s = (refl, refl)

answers :
    {s : RtStream} {n f : ℕ}
    → IsPaced s
    → s.cursor.frames ≡ n
    → frames_per_packet s ≡ f
    → n / f < 2 ^ 32
    → (map (λ (x : ℕ × ℕ). x.0) s.notified ≡ count_up (n / f))
      × ((packet : ℕ) → (set_render_packet s packet ≡ Status.success) ↔ (packet ≡ n / f + 1))
      × (0 < n / f → (get_capture_packet s).0 ≡ n / f - 1)
unfolding set_render_packet get_capture_packet
answers {s} {n} {f} v e g small =
    let whole : s.cursor.frames / frames_per_packet s ≡ n / f = ap₂ ◌/◌ e g in
    let current : s.current_packet ≡ n / f =
      v.current ∙ ap (λ k. k % 2 ^ 32) whole ∙ Nat.mod-eq_of_lt small in
    (
      v.in_order ∙ ap count_up whole,
      λ packet. (λ q. ground (arith, current), λ q. ground (arith, current)),
      λ h. omega (arith, current),
    )

-- After `n` frames of a stream that was just reset, the packets 0, 1, …, `n / frames_per_packet - 1`
-- have been reported, each once and in this order; the audio engine may set just the packet after the
-- next, and reads the one before it.
pub advance_all-packets :
    (s : RtStream) (qpcs : List ℕ)
    → s.ring.count ≢ 0
    → 0 < frames_per_packet s
    → length qpcs / frames_per_packet s < 2 ^ 32
    → let s' = advance_all (record (reset s) { notified = [] }) qpcs in
      let whole = length qpcs / frames_per_packet s in
      (map (λ (x : ℕ × ℕ). x.0) s'.notified ≡ count_up whole)
      × ((packet : ℕ) → (set_render_packet s' packet ≡ Status.success) ↔ (packet ≡ whole + 1))
      × (0 < whole → (get_capture_packet s').0 ≡ whole - 1)
advance_all-packets s qpcs h k small =
    let (frames, per_packet) = advance_all-frames qpcs (record (reset s) { notified = [] }) in
    let (frames', per_packet') = reset-frames s in
    answers (advance_all-IsPaced qpcs (reset-IsPaced s h k))
      (frames ∙ ap (λ k. k + length qpcs) frames' ∙ omega arith) (per_packet ∙ per_packet') small
