-- ===== src/Kernel/Stream/Transfers/Leaks.antt =====
-- What the start of the engine in driver/ak1-acx/src/stream.rs allocates, and gives back.
use ak1_driver.Prelude.{
  ℕ, ◌+◌, ◌-◌, ◌≡◌, ◌≢◌, refl, ap, ◌∙◌, List, [], ◌∷◌, ◌++◌, arith, if◌then◌else◌,
}
use ak1_driver.Proto.Wire.{SampleRate}
use ak1_driver.Kernel.Usb.{Outcome, done, failed, Bus, set_audio_params}
use ak1_driver.Kernel.Stream.Transfers.{
  SendAnswers, Flow, new_flow, submit_all, Started, conclude_start, start_made, start_configured,
  StartAnswers, start,
}
use ak1_driver.Kernel.Stream.Transfer.{
  Transfer, AllocateAnswers, allocate, count_of, free, new_transfer, free_all, make_all,
}

abbrev pub size : Transfer → ℕ
size t = count_of t.mdl + count_of t.buffer + (if t.request then 1 + count_of t.urb else 0)

abbrev pub total : List Transfer → ℕ
total [] = 0
total (t ∷ ts) = size t + total ts

free-size : (t : Transfer) (held : ℕ) → free t held ≡ held - size t
unfolding free
free-size t held = ground arith

free_all-total : (ts : List Transfer) (held : ℕ) → free_all ts held ≡ held - total ts
unfolding free_all
free_all-total [] held = omega arith
free_all-total (t ∷ ts) held = free_all-total ts (free t held) ∙ omega (arith, free-size t held)

total-append_one : (ts : List Transfer) (t : Transfer) → total (ts ++ (t ∷ [])) ≡ total ts + size t
total-append_one [] t = omega arith
total-append_one (x ∷ ts) t = omega (arith, total-append_one ts t)

-- A transfer that is made accounts for what it holds; one that is not holds nothing.
abbrev pub Made : (before : ℕ) → Outcome Transfer × ℕ → Type 0
Made before (failed status, held) = held ≡ before
Made before (done t, held) = held ≡ before + size t

new_transfer-Made : (answers : AllocateAnswers) (held : ℕ) → Made held (new_transfer answers held)
unfolding new_transfer allocate free
new_transfer-Made answers held = ground arith

abbrev pub AllMade : (before : ℕ) → Outcome (List Transfer) × ℕ → Type 0
AllMade before (failed status, held) = held ≡ before
AllMade before (done ts, held) = held ≡ before + total ts

make_all-AllMade :
    (answers : List AllocateAnswers) (made : List Transfer) (before held : ℕ)
    → held ≡ before + total made
    → AllMade before (make_all answers made held)
unfolding make_all
make_all-AllMade [] made before held e = e
make_all-AllMade (a ∷ answers) made before held e =
    go (new_transfer a held) refl (new_transfer-Made a held)
      (λ t held' e'. make_all-AllMade answers (made ++ (t ∷ [])) before held' e')
  where
    go :
        (r : Outcome Transfer × ℕ)
        → new_transfer a held ≡ r
        → Made held r
        → ((t : Transfer) (held' : ℕ)
            → held' ≡ before + total (made ++ (t ∷ []))
            → AllMade before (make_all answers (made ++ (t ∷ [])) held'))
        → AllMade before (make_all (a ∷ answers) made held)
    go (failed status, held') r m rest =
        let same : (new_transfer a held).1 ≡ held' = ap (λ p. p.1) r in
        rw (ap (λ p. p.0) r, make_all)
          (free_all-total made (new_transfer a held).1 ∙ omega (arith, same, m, e))
    go (done t, held') r m rest =
        let same : (new_transfer a held).1 ≡ held' = ap (λ p. p.1) r in
        rw (ap (λ p. p.0) r, make_all)
          (rest t (new_transfer a held).1 (omega (arith, same, m, e, total-append_one made t)))

-- What is held after `start`, from `before`.
abbrev pub KeepsNothing : (before : ℕ) → Started → Type 0
KeepsNothing before started =
    (started.result ≢ done tt → started.held ≡ before)
    × (started.result ≡ done tt → free_all started.made started.held ≡ before)

submitted :
    (ts : List Transfer) (before held : ℕ) (r : Flow × Outcome Unit)
    → held ≡ before + total ts
    → KeepsNothing before (conclude_start held ts r)
submitted ts before held (flow, done _) e =
    (λ no. absurd (no refl), λ _. free_all-total ts held ∙ omega (arith, e))
submitted ts before held (flow, failed status) e =
    (λ _. free_all-total ts held ∙ omega (arith, e), λ no. absurd (cc no))

start_made-KeepsNothing :
    (submissions : List SendAnswers) (before : ℕ) (r : Outcome (List Transfer) × ℕ)
    → AllMade before r
    → KeepsNothing before (start_made submissions r)
unfolding start_made
start_made-KeepsNothing submissions before (failed status, held) e = (λ _. e, λ no. absurd (cc no))
start_made-KeepsNothing submissions before (done ts, held) e =
    submitted ts before held (submit_all submissions new_flow) e

start_configured-KeepsNothing :
    (answers : StartAnswers) (before : ℕ) (r : Bus × Outcome Unit)
    → KeepsNothing before (start_configured answers before r).1
unfolding start_configured
start_configured-KeepsNothing answers before (bus, failed status) =
    (λ _. refl, λ no. absurd (cc no))
start_configured-KeepsNothing answers before (bus, done _) =
    start_made-KeepsNothing answers.submissions before (make_all answers.allocations [] before)
      (make_all-AllMade answers.allocations [] before before (omega arith))

-- A start that fails, wherever it does, has given back all that it allocated; after one that succeeds,
-- the drop of the engine's transfers gives it back.
pub start-KeepsNothing :
    (answers : StartAnswers) (rate : SampleRate) (max_packet before : ℕ) (bus : Bus)
    → KeepsNothing before (start answers rate max_packet before bus).1
unfolding start
start-KeepsNothing answers rate max_packet before bus =
    ground
      (arith, start_configured-KeepsNothing answers before (set_audio_params rate max_packet bus))
