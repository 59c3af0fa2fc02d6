-- ===== src/Host/Duplex/Worker/Periods.antt =====
-- What the streaming thread of asio/src/duplex.rs counts: periods, samples and halves.
use ak1_driver.Prelude.{
  ℕ, zero, suc, ◌+◌, ◌*◌, ◌%◌, ◌^◌, ◌≡◌, refl, sym, subst, ◌∙◌, Bool, List, [], ◌∷◌, ◌++◌, Option,
  none, some, inl, inr, arith, length, length-replicate, length-append, Bool-cases,
}
use ak1_driver.Prelude.Int.{ℤ}
use ak1_driver.Host.Duplex.{Host, Clock}
use ak1_driver.Host.Duplex.Worker.{
  Memory, Thread, Turn, Wait, stopped, signalled, timed_out, new, read, collect, switch, exchange,
  drain, wait_loop, run,
}

-- Each period of output has the length of the session's period.
abbrev pub AllPeriods : ℕ → List (List (List ℤ)) → Type 0
AllPeriods frames [] = Unit
AllPeriods frames (period ∷ sent) = (length period ≡ frames) × AllPeriods frames sent

AllPeriods-append_one :
    (frames : ℕ) (sent : List (List (List ℤ))) (period : List (List ℤ))
    → AllPeriods frames sent
    → length period ≡ frames
    → AllPeriods frames (sent ++ (period ∷ []))
AllPeriods-append_one frames [] period h e = (e, tt)
AllPeriods-append_one frames (x ∷ sent) period h e =
    (h.0, AllPeriods-append_one frames sent period h.1 e)

pub length-collect :
    (channels : List (Option ℕ)) (at n : ℕ) (memory : Memory)
    → length (collect channels at n memory) ≡ n
unfolding collect
length-collect channels at zero memory = refl
length-collect channels at (suc n) memory = omega (arith, length-collect channels (at + 1) n memory)

step_on :
    (n frames : ℕ) {m p : ℕ}
    → m ≡ n + 1
    → p ≡ n * frames % 2 ^ 64
    → (p + frames) % 2 ^ 64 ≡ m * frames % 2 ^ 64
step_on n frames {m = m} {p = p} e h =
    subst (λ k. (p + frames) % 2 ^ 64 ≡ k * frames % 2 ^ 64) (sym e) (grind (arith, h))

-- The position is a period for each one that was sent, and the half is the other one after each.
pub record IsInStep (host : Host) (t : Thread) : Type 0 where
  pub positioned : t.state.position ≡ length t.sent * host.buffer_frames % 2 ^ 64
  pub alternating : t.state.index ≡ length t.sent % 2
  pub whole : length t.state.output ≡ host.buffer_frames
  pub periods : AllPeriods host.buffer_frames t.sent

module _ (callback : (index : ℕ) → Memory → Memory) (host : Host) where
  exchange-IsInStep :
      (now_ms : ℕ) (value : List ℕ) (t : Thread)
      → IsInStep host t
      → IsInStep host (exchange callback host now_ms value t)
  unfolding exchange switch
  exchange-IsInStep now_ms value t s = record {
    positioned = step_on (length t.sent) host.buffer_frames (length-append t.sent _) s.positioned;
    alternating = omega (arith, length-append t.sent (_ ∷ []), s.alternating);
    whole = length-collect _ _ _ _ ∙ s.whole;
    periods =
        AllPeriods-append_one host.buffer_frames t.sent _ s.periods
          (length-collect _ _ _ _ ∙ s.whole);
  }

  drain-IsInStep :
      (turns : List Turn) (t : Thread)
      → IsInStep host t
      → IsInStep host (drain callback host turns t).0
  unfolding drain
  drain-IsInStep [] t s = s
  drain-IsInStep (turn ∷ turns) t s = go (drain-IsInStep turns) (read turn.answer) refl
    where
      go :
          ((t' : Thread) → IsInStep host t' → IsInStep host (drain callback host turns t').0)
          → (answer : Option (List ℕ × ℕ)) → read turn.answer ≡ answer
          → IsInStep host (drain callback host (turn ∷ turns) t).0
      go rest none e = rw (e, drain) s
      go rest (some (value, count)) e =
          let t' = exchange callback host turn.now_ms value t in
          let s' = exchange-IsInStep turn.now_ms value t s in
          rw (e, drain) (ground (arith, s, s', rest t' s'))

  wait_loop-IsInStep :
      (waits : List Wait) (t : Thread)
      → IsInStep host t
      → IsInStep host (wait_loop callback host waits t).0
  unfolding wait_loop
  wait_loop-IsInStep [] t s = s
  wait_loop-IsInStep (stopped ∷ waits) t s = s
  wait_loop-IsInStep (timed_out ∷ waits) t s = s
  wait_loop-IsInStep (signalled turns ∷ waits) t s =
      let s' = drain-IsInStep turns t s in
      let rest = wait_loop-IsInStep waits (drain callback host turns t).0 s' in
      elim (Bool-cases (drain callback host turns t).1) [
        | inl fine ↦ rw fine rest
        | inr failed ↦ rw failed s'
      ]

  -- Whatever the reads, the writes and the waits answer: the sample position is the period times the
  -- periods that the thread has written, each of these has the period's length, and the half it would
  -- hand out next is told by their number's parity.
  pub run-IsInStep :
      (supported : Bool) (clock : Clock) (memory : Memory) (waits : List Wait)
      → IsInStep host (run callback supported host clock memory waits).0
  unfolding run new
  run-IsInStep supported clock memory waits =
      wait_loop-IsInStep waits
        (record { state = new host; clock = clock; memory = memory; sent = [] })
        (record {
          positioned = unfold new in omega arith;
          alternating = refl;
          whole = length-replicate host.buffer_frames _;
          periods = tt;
        })
