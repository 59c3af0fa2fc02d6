-- ===== src/Host/Duplex/Worker.antt =====
-- The streaming thread: `Worker` of asio/src/duplex.rs. Each read of a period, each write of one and each
-- wait answers from a script. The host's callback is a function on the buffers, which stands for
-- either of its two forms.
pub mod Periods
pub mod Halves
pub mod Input
pub mod Output
use ak1_driver.Prelude.{
  ℕ, zero, suc, ◌+◌, ◌-◌, ◌*◌, ◌%◌, ◌^◌, Bool, true, false, List, [], ◌∷◌, ◌++◌, Option, none, some,
  concat, length, take, drop, get_or, set, map, replicate, as_chunks, ltb, ◌==◌, if◌then◌else◌,
}
use ak1_driver.Prelude.Int.{ℤ, pos, from_bits, to_bits}
use ak1_driver.Proto.Buffers.{outputs, read_value_bytes}
use ak1_driver.Kernel.Handlers.{bytes_word, word_bytes}
use ak1_driver.Host.Duplex.{Host, Clock, Effect, request_reset}

-- Streaming state owned by the thread.
pub record State : Type 0 where
  pub input : List ℕ
  pub output : List (List ℤ)
  pub index : ℕ
  pub position : ℕ

-- The session's memory: the samples behind each channel's pointer.
abbrev pub Memory : Type 0
Memory = List (List ℤ)

unfoldable pub new : Host → State
new host = record {
  input = replicate (read_value_bytes host.buffer_frames) 0;
  output = replicate host.buffer_frames (replicate outputs (pos 0));
  index = 0;
  position = 0;
}

-- The samples of a frame of input.
unfoldable pub input_samples : List ℕ → List ℤ
input_samples frame = map (λ bytes. from_bits (bytes_word bytes)) (as_chunks 4 frame)

-- A write through the pointer of channel memory `base`, at sample `at`.
unfoldable pub write_sample : Memory → (base at : ℕ) → ℤ → Memory
write_sample memory base at sample = set memory base (set (get_or memory base []) at sample)

unfoldable pub deliver_frame : List (Option ℕ) → (at : ℕ) → List ℤ → Memory → Memory
unfolding write_sample
deliver_frame channels at [] memory = memory
deliver_frame [] at (sample ∷ samples) memory = memory
deliver_frame (none ∷ channels) at (sample ∷ samples) memory =
    deliver_frame channels at samples memory
deliver_frame (some base ∷ channels) at (sample ∷ samples) memory =
    deliver_frame channels at samples (write_sample memory base at sample)

unfoldable pub deliver : List (Option ℕ) → (at : ℕ) → List (List ℤ) → Memory → Memory
unfolding deliver_frame
deliver channels at [] memory = memory
deliver channels at (frame ∷ frames) memory =
    deliver channels (at + 1) frames (deliver_frame channels at frame memory)

-- A frame of output; a channel that the host does not use is silent.
unfoldable pub collect_frame : List (Option ℕ) → (at : ℕ) → Memory → List ℤ
collect_frame [] at memory = []
collect_frame (none ∷ channels) at memory = pos 0 ∷ collect_frame channels at memory
collect_frame (some base ∷ channels) at memory =
    get_or (get_or memory base []) at (pos 0) ∷ collect_frame channels at memory

unfoldable pub collect : List (Option ℕ) → (at n : ℕ) → Memory → List (List ℤ)
unfolding collect_frame
collect channels at zero memory = []
collect channels at (suc n) memory =
    collect_frame channels at memory ∷ collect channels (at + 1) n memory

-- The bytes of a frame's samples, and of all the frames that `Device::write` sends.
unfoldable pub output_frame : List ℤ → List ℕ
output_frame frame = concat (map (λ sample. word_bytes (to_bits sample)) frame)

unfoldable pub output_bytes : List (List ℤ) → List ℕ
unfolding output_frame
output_bytes frames = concat (map output_frame frames)

-- The answer to a read: the bytes the kernel driver filled, and the value as it is then.
pub data ReadAnswer : Type 0 where
  unanswered : ReadAnswer
  filled : (count : ℕ) (value : List ℕ) → ReadAnswer

-- `Device::read`: the value and its count of frames, 0 if no period is complete.
unfoldable pub read : ReadAnswer → Option (List ℕ × ℕ)
read unanswered = none
read (filled count value) = if ltb count 4 then none else some (value, bytes_word value)

-- What one turn of `drain` meets: the read's answer, the time of the switch, whether the write succeeds.
pub record Turn : Type 0 where
  pub answer : ReadAnswer
  pub now_ms : ℕ
  pub written : Bool

-- What a wait ends with.
pub data Wait : Type 0 where
  stopped : Wait
  signalled : List Turn → Wait
  timed_out : Wait

-- The thread's state and all it shares: the clock, the channels' memory, and what it wrote so far.
pub record Thread : Type 0 where
  pub state : State
  pub clock : Clock
  pub memory : Memory
  pub sent : List (List (List ℤ))

-- The input period in the half that is the thread's, before the host is called.
unfoldable pub deliver_period : Host → State → Memory → Memory
unfolding input_samples deliver
deliver_period host state memory =
    let frames = take host.buffer_frames (as_chunks 8 (drop 4 state.input)) in
    deliver host.inputs (state.index * host.buffer_frames) (map input_samples frames) memory

module _ (callback : (index : ℕ) → Memory → Memory) where
  -- The buffer switch at the time `now_ms`.
  unfoldable pub switch : Host → (now_ms : ℕ) → Thread → Thread
  unfolding deliver_period collect
  switch host now_ms t =
      let half = t.state.index * host.buffer_frames in
      let memory = callback t.state.index (deliver_period host t.state t.memory) in
      record t {
        state = record t.state {
          output = collect host.outputs half (length t.state.output) memory;
          index = 1 - t.state.index;
          position = (t.state.position + host.buffer_frames) % 2 ^ 64;
        };
        clock = record { sample_position = t.state.position; system_time_ns = now_ms * 1000000 };
        memory = memory;
      }

  -- A whole period: the switch with the value that was read, and the write of its output.
  unfoldable pub exchange : Host → (now_ms : ℕ) → List ℕ → Thread → Thread
  unfolding switch
  exchange host now_ms value t =
      let t' = switch host now_ms (record t { state = record t.state { input = value } }) in
      record t' { sent = t'.sent ++ (t'.state.output ∷ []) }

  -- Hands every complete input period to the host and writes its output; `false` is an error. Turns
  -- that run out are taken as a read that fails.
  unfoldable pub drain : Host → List Turn → Thread → Thread × Bool
  unfolding read exchange
  drain host [] t = (t, false)
  drain host (turn ∷ turns) t = elim (read turn.answer) [
    | none ↦ (t, false)
    | some (value, count) ↦
        let t' = exchange host turn.now_ms value t in
        let rest = drain host turns t' in
        if count == 0 then (t, true) else if turn.written then rest else (t', false)
  ]

  -- The loop of `run`; `true` is a failure, which ends it. Waits that run out are taken as timed out.
  unfoldable pub wait_loop : Host → List Wait → Thread → Thread × Bool
  unfolding drain
  wait_loop host [] t = (t, true)
  wait_loop host (stopped ∷ waits) t = (t, false)
  wait_loop host (timed_out ∷ waits) t = (t, true)
  wait_loop host (signalled turns ∷ waits) t =
      let (t', succeeded) = drain host turns t in
      let rest = wait_loop host waits t' in if succeeded then rest else (t', true)

  -- The whole thread; `supported` is the host's answer if it is asked.
  unfoldable pub run : (supported : Bool) → Host → Clock → Memory → List Wait → Thread × List Effect
  unfolding new wait_loop
  run supported host clock memory waits =
      let t : Thread = record { state = new host; clock = clock; memory = memory; sent = [] } in
      let (t', failed) = wait_loop host waits t in
      (t', if failed then request_reset supported else [])
