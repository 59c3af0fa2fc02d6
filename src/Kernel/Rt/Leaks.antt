-- ===== src/Kernel/Rt/Leaks.antt =====
-- What `allocate_packets` of driver/ak1-acx/src/rt.rs takes from the kernel's pool and
-- `free_packets` gives back.
use ak1_driver.Prelude.{
  ℕ, zero, suc, ◌+◌, ◌-◌, ◌*◌, ◌%◌, ◌^◌, ◌≤◌, ◌<◌, ◌≡◌, ◌≢◌, refl, sym, subst, ◌∙◌, Bool, true,
  false, List, [], ◌∷◌, ◌++◌, Option, none, some, get_or, set, replicate, length, arith,
  length-append, length-set, get_or-set_self, get_or-set_ne, ℕ_discrete, dec_le, if◌then◌else◌,
  ◌==◌,
}
use ak1_driver.Proto.Resample.{div_ceil}
use ak1_driver.Kernel.Rt.{RtStream, max_packets}
use ak1_driver.Kernel.Rt.Packets.{
  Status, Packet, Memory, page_size, pool_alloc, release, has_mdl_at, free_loop, free_packets,
  allocate_loop, allocate_packets,
}

-- The packets from `i` to `k` are whole: a buffer and its memory descriptor.
record AreMade (packets : List Packet) (buffers : List (Option (List ℕ))) (i k : ℕ) : Type 0 where
  each : (j : ℕ) → i ≤ j → j < k → (has_mdl_at packets j ≡ true) × (get_or buffers j none ≢ none)

free_loop-held :
    (n i : ℕ) (packets : List Packet) (buffers : List (Option (List ℕ))) (m : Memory)
    → AreMade packets buffers i (i + n)
    → 2 * n ≤ m.held
    → (free_loop n i packets buffers m).1.held + 2 * n ≡ m.held
unfolding free_loop
free_loop-held zero i packets buffers m made h = omega arith
free_loop-held (suc n) i packets buffers m made h =
    freed (get_or buffers i none) refl (
      free_loop-held n (i + 1) packets (set buffers i none) (release (release m)) rest
        (omega arith))
  where
    rest : AreMade packets (set buffers i none) (i + 1) (i + 1 + n)
    rest = record {
      each = λ j a b.
          let (mdl, buffer) = made.each j (omega arith) (omega arith) in
          (
            mdl,
            subst (λ o. o ≢ none)
                (sym (get_or-set_ne buffers {i = i} {j = j} none none (omega arith))) buffer,
          );
    }

    freed :
        (b : Option (List ℕ))
        → get_or buffers i none ≡ b
        → (free_loop n (i + 1) packets (set buffers i none) (release (release m))).1.held + 2 * n
          ≡ (release (release m)).held
        → (free_loop (suc n) i packets buffers m).1.held + 2 * suc n ≡ m.held
    freed none e ih = absurd ((made.each i (omega arith) (omega arith)).1 e)
    freed (some bytes) e ih =
        rw (e, (made.each i (omega arith) (omega arith)).0, free_loop) (omega (arith, ih))

-- What the loop made of the `k` packets it was to make, `i` of them there before.
record IsGrown (i k room held : ℕ) (result : Bool × List Packet × List (Option (List ℕ)) × Memory)
    : Type 0 where
  made : AreMade result.1 result.2 0 (length result.1)
  at_least : i ≤ length result.1
  at_most : length result.1 ≤ k
  all_of : result.0 ≡ true → length result.1 ≡ k
  same_room : length result.2 ≡ room
  counted : result.3.held ≡ held + 2 * (length result.1 - i)

has_mdl_at-append :
    (packets : List Packet) (packet : Packet)
    → packet.has_mdl ≡ true
    → (j : ℕ) → j ≡ length packets
    → has_mdl_at (packets ++ (packet ∷ [])) j ≡ true
unfolding has_mdl_at
has_mdl_at-append [] packet h zero e = h
has_mdl_at-append [] packet h (suc j) e = absurd (omega arith)
has_mdl_at-append (p ∷ packets) packet h zero e = absurd (omega arith)
has_mdl_at-append (p ∷ packets) packet h (suc j) e =
    has_mdl_at-append packets packet h j (omega arith)

has_mdl_at-append_lt :
    (packets : List Packet) (packet : Packet) (j : ℕ)
    → j < length packets
    → has_mdl_at (packets ++ (packet ∷ [])) j ≡ has_mdl_at packets j
unfolding has_mdl_at
has_mdl_at-append_lt [] packet j e = absurd (omega arith)
has_mdl_at-append_lt (p ∷ packets) packet zero e = refl
has_mdl_at-append_lt (p ∷ packets) packet (suc j) e =
    has_mdl_at-append_lt packets packet j (omega arith)

-- One more packet made.
AreMade-append :
    {packets : List Packet} {buffers : List (Option (List ℕ))} {i : ℕ} (packet : Packet)
    (bytes : List ℕ)
    → i ≡ length packets
    → i < length buffers
    → packet.has_mdl ≡ true
    → AreMade packets buffers 0 (length packets)
    → AreMade
        (packets ++ (packet ∷ []))
        (set buffers i (some bytes))
        0
        (length (packets ++ (packet ∷ [])))
AreMade-append {packets} {buffers} {i} packet bytes e room h made = record {
  each = λ j a b. elim (ℕ_discrete j i) [
    | yes p ↦ (
      has_mdl_at-append packets packet h j (omega arith),
      subst (λ o. o ≢ none) (sym (rw p (get_or-set_self buffers i (some bytes) none room))) some_ne,
    )
    | no p ↦
        let j_lt : j < length packets = omega (arith, p, length-append packets (packet ∷ [])) in
        (
          has_mdl_at-append_lt packets packet j j_lt ∙ (made.each j a j_lt).0,
          subst (λ o. o ≢ none)
              (sym (get_or-set_ne buffers {i = i} {j = j} (some bytes) none (omega (arith, p))))
              (made.each j a j_lt).1,
        )
  ];
}
  where
    some_ne : some bytes ≢ none
    some_ne q = ground arith

IsGrown-failed :
    {packets : List Packet} {buffers : List (Option (List ℕ))} {m : Memory} (i k held : ℕ)
    → i ≡ length packets
    → i ≤ k
    → m.held ≡ held
    → AreMade packets buffers 0 (length packets)
    → IsGrown i k (length buffers) held (false, packets, buffers, m)
IsGrown-failed {packets} {buffers} {m} i k held e h same made = record {
  made = made;
  at_least = omega arith;
  at_most = omega arith;
  all_of = λ q. ground arith;
  same_room = refl;
  counted = omega arith;
}

IsGrown-suc :
    {i k k' room room' held held' : ℕ}
    {result : Bool × List Packet × List (Option (List ℕ)) × Memory}
    → k' ≡ k
    → room' ≡ room
    → held' ≡ held + 2
    → IsGrown (i + 1) k' room' held' result
    → IsGrown i k room held result
IsGrown-suc ek er eh g = record {
  made = g.made;
  at_least = omega (arith, g.at_least);
  at_most = omega (arith, g.at_most);
  all_of = λ q. g.all_of q ∙ ek;
  same_room = g.same_room ∙ er;
  counted = omega (arith, g.counted, g.at_least);
}

allocate_loop-IsGrown :
    (n i packet_bytes alloc_bytes : ℕ) {packets : List Packet} {buffers : List (Option (List ℕ))}
    (supply : List Bool) {held : ℕ}
    → i ≡ length packets
    → i + n ≤ length buffers
    → AreMade packets buffers 0 (length packets)
    → IsGrown i (i + n) (length buffers) held (
        allocate_loop n i packet_bytes alloc_bytes packets buffers
          (record { supply = supply; held = held }))
unfolding allocate_loop pool_alloc
allocate_loop-IsGrown zero i packet_bytes alloc_bytes supply e room made = record {
  made = made;
  at_least = omega arith;
  at_most = omega arith;
  all_of = λ q. omega arith;
  same_room = refl;
  counted = omega arith;
}
allocate_loop-IsGrown (suc n) i packet_bytes alloc_bytes {packets} {buffers} [] {held} e room made =
    IsGrown-failed i (i + suc n) held e (omega arith) refl made
allocate_loop-IsGrown (suc n) i packet_bytes alloc_bytes {packets} {buffers} (false ∷ rest) {held} e
      room made =
    IsGrown-failed i (i + suc n) held e (omega arith) refl made
allocate_loop-IsGrown (suc n) i packet_bytes alloc_bytes {packets} {buffers} (true ∷ []) {held} e
      room made =
    IsGrown-failed i (i + suc n) held e (omega arith) (omega arith) made
allocate_loop-IsGrown (suc n) i packet_bytes alloc_bytes {packets} {buffers} (true ∷ false ∷ rest)
      {held} e room made =
    IsGrown-failed i (i + suc n) held e (omega arith) (omega arith) made
allocate_loop-IsGrown (suc n) i packet_bytes alloc_bytes {packets} {buffers} (true ∷ true ∷ rest)
      {held} e room made =
    let packet : Packet = record {
      has_mdl = true;
      buffer_length = alloc_bytes % 2 ^ 32;
      rt_packet_offset = if i == 0 then (alloc_bytes - packet_bytes) % 2 ^ 32 else 0;
      rt_packet_size = packet_bytes % 2 ^ 32;
    } in
    let kept : length (set buffers i (some (replicate alloc_bytes 0))) ≡ length buffers =
      length-set buffers i (some (replicate alloc_bytes 0)) in
    IsGrown-suc (omega arith) kept (omega arith) (
      allocate_loop-IsGrown n (i + 1) packet_bytes alloc_bytes rest {held = held + 1 + 1}
        (omega (arith, length-append packets (packet ∷ []))) (omega (arith, kept))
        (AreMade-append packet (replicate alloc_bytes 0) e (omega arith) refl made))

-- The stream with these buffers.
abbrev holding : RtStream → List (Option (List ℕ)) → RtStream
holding s buffers = record s { ring = record s.ring { buffers = buffers } }

freed-IsGrown :
    (s : RtStream) {k room held : ℕ} {result : Bool × List Packet × List (Option (List ℕ)) × Memory}
    → IsGrown 0 k room (held + 1) result
    → s.ring.buffers ≡ result.2
    → (free_packets s result.3 result.1 (length result.1)).1.held ≡ held
unfolding free_packets
freed-IsGrown s {result = result} g e = rw e (
    omega (
      arith,
      g.counted,
      free_loop-held (length result.1) 0 result.1 result.2 result.3
          (record { each = λ j a b. g.made.each j a (omega arith) }) (omega (arith, g.counted)),
    ))

-- Whatever the kernel grants, an allocation that fails keeps nothing, and freeing the packets of one
-- that succeeds gives all of it back.
pub allocate_packets-free_packets :
    (s : RtStream) (m : Memory) (count packet_bytes : ℕ)
    → length s.ring.buffers ≡ max_packets
    → let (s', m', status, packets) = allocate_packets s m count packet_bytes in
      (status ≢ Status.success → m'.held ≡ m.held)
      × (status ≡ Status.success → (free_packets s' m' packets count).1.held ≡ m.held)
unfolding allocate_packets pool_alloc
allocate_packets-free_packets s m count packet_bytes room = by_supply m.supply
  where
    by_supply :
        (supply : List Bool)
        → let (s', m', status, packets) =
            allocate_packets s (record m { supply = supply }) count packet_bytes in
          (status ≢ Status.success → m'.held ≡ m.held)
          × (status ≡ Status.success → (free_packets s' m' packets count).1.held ≡ m.held)
    by_supply [] = ground arith
    by_supply (false ∷ rest) = ground arith
    by_supply (true ∷ rest) =
        let loop =
          allocate_loop count 0 packet_bytes (div_ceil packet_bytes page_size * page_size) []
            s.ring.buffers (record { supply = rest; held = m.held + 1 }) in
        elim (dec_le count max_packets) [
          | yes p ↦
              let g : IsGrown 0 (0 + count) (length s.ring.buffers) (m.held + 1) loop =
                allocate_loop-IsGrown count 0 packet_bytes _ rest refl (omega arith)
                  (record { each = λ j a b. absurd (omega arith) }) in
              ground (arith, g.all_of, freed-IsGrown (holding s loop.2) g refl)
          | no p ↦ ground (arith, p)
        ]
