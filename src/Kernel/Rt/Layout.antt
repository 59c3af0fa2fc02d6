-- ===== src/Kernel/Rt/Layout.antt =====
-- Where a stream's frames lie in its packets: `frame_bytes` of driver/ak1-acx/src/rt.rs.
use native.Mathlib.Nat
use ak1_driver.Prelude.{ℕ, ◌+◌, ◌*◌, ◌/◌, ◌%◌, ◌≤◌, ◌<◌, ◌≡◌, ◌≢◌, some, arith, ◌==◌, if◌then◌else◌}
use ak1_driver.Kernel.Rt.{RtStream, frame_bytes, frames_per_packet, block_align}

packet_whole : (s : RtStream) → frames_per_packet s * block_align s ≤ s.ring.packet_bytes
unfolding frames_per_packet
packet_whole s = Nat.div-mul-le_self s.ring.packet_bytes (block_align s)

-- A frame's place is in a packet of the ring, whole inside the packet, past the packet's start: never
-- outside the packets that were allocated.
pub frame_bytes_bounds :
    (s : RtStream)
    → s.ring.count ≢ 0
    → 0 < frames_per_packet s
    → let base = λ (index : ℕ). if index == 0 then s.ring.first_offset else 0 in
      (index : ℕ) × (at : ℕ) × (frame_bytes s ≡ some (index, at))
      × (index < s.ring.count)
      × (base index ≤ at)
      × (at + block_align s ≤ base index + s.ring.packet_bytes)
unfolding frame_bytes
frame_bytes_bounds s h k =
    let index = s.cursor.frames / frames_per_packet s % s.ring.count in
    let offset = s.cursor.frames % frames_per_packet s * block_align s in
    (
      index,
      (if index == 0 then s.ring.first_offset else 0) + offset,
      found,
      Nat.mod-lt _ (omega (arith, h)),
      omega arith,
      omega (
        arith,
        packet_whole s,
        Nat.add-mul (s.cursor.frames % frames_per_packet s) 1 (block_align s),
        Nat.mul-le-mul_right (block_align s) (Nat.mod-lt s.cursor.frames k),
      ),
    )
  where
    found :
        frame_bytes s
        ≡ some (
          s.cursor.frames / frames_per_packet s % s.ring.count,
          (if s.cursor.frames / frames_per_packet s % s.ring.count == 0
                then s.ring.first_offset
                else 0)
              + s.cursor.frames % frames_per_packet s * block_align s,
        )
    found = ground (arith, h)
