-- ===== src/Kernel/Rt/Packets.antt =====
-- The packets of a stream (`allocate_packets`, `free_packets`) and the calls of the audio engine,
-- driver/ak1-acx/src/rt.rs. The kernel's pool and its memory descriptors answer from `supply`, one
-- answer for each call (none left is a refusal); `held` counts the allocations not yet freed.
use ak1_driver.Prelude.{
  ℕ, zero, suc, ◌+◌, ◌-◌, ◌*◌, ◌/◌, ◌%◌, ◌^◌, Bool, true, false, ◌||◌, not, length, List, [], ◌∷◌,
  ◌++◌, Option, none, some, get_or, set, replicate, ltb, leb, ◌==◌, if◌then◌else◌,
}
use ak1_driver.Proto.Wire.{hz}
use ak1_driver.Proto.Resample.{div_ceil}
use ak1_driver.Kernel.Rt.{RtStream, max_packets, block_align}

abbrev pub page_size : ℕ
page_size = 4096

abbrev pub packets_per_transfer : ℕ
packets_per_transfer = 8

abbrev pub microframes_per_second : ℕ
microframes_per_second = 8000

pub data Status : Type 0 where
  success : Status
  invalid_parameter : Status
  insufficient_resources : Status
  data_late_error : Status
  data_overrun : Status

-- An ACX_RTPACKET.
pub record Packet : Type 0 where
  pub has_mdl : Bool
  pub buffer_length : ℕ
  pub rt_packet_offset : ℕ
  pub rt_packet_size : ℕ

pub record Memory : Type 0 where
  pub supply : List Bool
  pub held : ℕ

-- One allocation: whether it was granted.
unfoldable pub pool_alloc : Memory → Memory × Bool
pool_alloc m = answer m.supply
  where
    answer : List Bool → Memory × Bool
    answer [] = (m, false)
    answer (true ∷ rest) = (record { supply = rest; held = m.held + 1 }, true)
    answer (false ∷ rest) = (record { supply = rest; held = m.held }, false)

abbrev pub release : Memory → Memory
release m = record m { held = m.held - 1 }

unfoldable pub has_mdl_at : List Packet → ℕ → Bool
has_mdl_at [] i = false
has_mdl_at (packet ∷ packets) zero = packet.has_mdl
has_mdl_at (packet ∷ packets) (suc i) = has_mdl_at packets i

-- `free_packets` on the packets from `i` on, `n` of them.
unfoldable pub free_loop :
    (n i : ℕ) → List Packet → List (Option (List ℕ)) → Memory → List (Option (List ℕ)) × Memory
free_loop zero i packets buffers m = (buffers, m)
free_loop (suc n) i packets buffers m =
    let m' = if has_mdl_at packets i then release m else m in
    elim (get_or buffers i none) [
      | none ↦ free_loop n (i + 1) packets buffers m'
      | some bytes ↦ free_loop n (i + 1) packets (set buffers i none) (release m')
    ]

unfoldable pub free_packets : RtStream → Memory → List Packet → (count : ℕ) → RtStream × Memory
unfolding free_loop
free_packets s m packets count =
    let (buffers, m') = free_loop count 0 packets s.ring.buffers m in
    (record s { ring = record s.ring { buffers = buffers; count = 0 } }, release m')

-- The loop of `allocate_packets` on the packets from `i` on, `n` of them; `packets` has those made,
-- the buffers of the stream are `buffers`. On failure the second part is what was made before it.
unfoldable pub allocate_loop :
    (n i packet_bytes alloc_bytes : ℕ)
    → List Packet
    → List (Option (List ℕ))
    → Memory
    → Bool × List Packet × List (Option (List ℕ)) × Memory
allocate_loop zero i packet_bytes alloc_bytes packets buffers m = (true, packets, buffers, m)
allocate_loop (suc n) i packet_bytes alloc_bytes packets buffers m =
    let (m1, has_buffer) = pool_alloc m in
    let (m2, has_mdl) = if has_buffer then pool_alloc m1 else (m1, false) in
    let packet : Packet = record {
      has_mdl = true;
      buffer_length = alloc_bytes % 2 ^ 32;
      rt_packet_offset = if i == 0 then (alloc_bytes - packet_bytes) % 2 ^ 32 else 0;
      rt_packet_size = packet_bytes % 2 ^ 32;
    } in
    elim has_mdl [
      | false ↦ (false, packets, buffers, if has_buffer then release m2 else m2)
      | true ↦
          allocate_loop n (i + 1) packet_bytes alloc_bytes (packets ++ (packet ∷ []))
            (set buffers i (some (replicate alloc_bytes 0))) m2
    ]

unfoldable pub allocate_packets :
    RtStream → Memory → (count packet_bytes : ℕ) → RtStream × Memory × Status × List Packet
unfolding allocate_loop free_packets block_align
allocate_packets s m count packet_bytes =
    let refused =
      count == 0
      || ltb max_packets count
      || packet_bytes == 0
      || not (packet_bytes % block_align s == 0) in
    let (m1, has_array) = pool_alloc m in
    let alloc_bytes = div_ceil packet_bytes page_size * page_size in
    let (done, packets, buffers, m2) =
      allocate_loop count 0 packet_bytes alloc_bytes [] s.ring.buffers m1 in
    let s1 = record s { ring = record s.ring { buffers = buffers } } in
    let (s2, m3) = free_packets s1 m2 packets (length packets) in
    if refused
    then (s, m, Status.invalid_parameter, [])
    else if not has_array
    then (s, m1, Status.insufficient_resources, [])
    else if not done
    then (s2, m3, Status.insufficient_resources, [])
    else (
      record s {
        ring = record {
          buffers = buffers;
          count = count;
          packet_bytes = packet_bytes;
          first_offset = alloc_bytes - packet_bytes;
        };
      },
      m2,
      Status.success,
      packets,
    )

-- `evt_get_hw_latency`: the size of the fifo in bytes, and the delay.
unfoldable pub get_hw_latency : RtStream → ℕ × ℕ
get_hw_latency s =
    let frames = hz s.rate * packets_per_transfer / microframes_per_second in
    (frames * block_align s % 2 ^ 32, 0)

unfoldable pub set_render_packet : RtStream → (packet : ℕ) → Status
set_render_packet s packet =
    if leb packet s.current_packet
    then Status.data_late_error
    else if ltb (s.current_packet + 1) packet
    then Status.data_overrun
    else Status.success

-- `evt_get_capture_packet`: the last whole packet and when it started.
unfoldable pub get_capture_packet : RtStream → ℕ × ℕ
get_capture_packet s = ((s.current_packet + 2 ^ 32 - 1) % 2 ^ 32, s.last_packet_start_qpc)

unfoldable pub get_presentation_position : RtStream → (now : ℕ) → ℕ × ℕ
get_presentation_position s now = (s.cursor.frames, if s.cursor.qpc == 0 then now else s.cursor.qpc)
