-- ===== src/Kernel/Stream/Transfers/Drained.antt =====
-- That the wait of `Engine::stop` in driver/ak1-acx/src/stream.rs ends, once the purged targets fail every
-- send: the USB stack completes what it has, and each completion leaves less to do.
use ak1_driver.Prelude.{
  ℕ, zero, suc, ◌+◌, ◌*◌, ◌≤◌, ◌≡◌, refl, Bool, true, false, List, [], ◌∷◌, none, ◌⊎◌, arith,
  length, get_or, inl, inr,
}
use ak1_driver.Kernel.Usb.{io_timeout}
use ak1_driver.Kernel.Stream.Transfers.{SendAnswers}
use ak1_driver.Kernel.Stream.Transfers.Flight.{
  Phase, idle, pending, entered, count_active, count_busy, World, Reached, IsBalanced,
}
use ak1_driver.Kernel.Stream.Transfers.Balance.{Step-IsBalanced, Reached-IsBalanced}
use ak1_driver.Kernel.Stream.Transfers.Counting.{count_busy-length}
use ak1_driver.Kernel.Stream.Transfers.Purge.{
  Purged, Purged-Step, Purged-shrinks, completes, enters, leaves, weights, work,
}

find_active :
    (ps : List Phase)
    → (count_active ps ≡ 0)
      ⊎ ((i : ℕ) × ((get_or ps i idle ≡ pending)
            ⊎ ((seen : Bool) × (get_or ps i idle ≡ entered seen))))
find_active [] = inl refl
find_active (pending ∷ ps) = inr (0, inl refl)
find_active (entered seen ∷ ps) = inr (0, inr (seen, refl))
find_active (idle ∷ ps) = elim (find_active ps) [
  | inl none_left ↦ inl (omega (arith, none_left))
  | inr (i, found) ↦ inr (suc i, found)
]

find_busy : (bs : List Bool) → (count_busy bs ≡ 0) ⊎ ((i : ℕ) × (get_or bs i false ≡ true))
find_busy [] = inl refl
find_busy (true ∷ bs) = inr (0, refl)
find_busy (false ∷ bs) = elim (find_busy bs) [
  | inl none_left ↦ inl (omega (arith, none_left))
  | inr (i, found) ↦ inr (suc i, found)
]

abbrev refusing : SendAnswers
refusing = record { reuse = none; format = none; sent = false; status = io_timeout }

-- As long as something is in flight, a completion is to come.
progress : (w : World) → IsBalanced w → (w.flow.in_flight ≡ 0) ⊎ ((w' : World) × Purged w w')
progress w v = go (find_active w.captures) (find_busy w.flow.busy)
  where
    go :
        (count_active w.captures ≡ 0)
          ⊎ ((i : ℕ) × ((get_or w.captures i idle ≡ pending)
                ⊎ ((seen : Bool) × (get_or w.captures i idle ≡ entered seen))))
        → (count_busy w.flow.busy ≡ 0) ⊎ ((i : ℕ) × (get_or w.flow.busy i false ≡ true))
        → (w.flow.in_flight ≡ 0) ⊎ ((w' : World) × Purged w w')
    go (inl a) (inl b) = inl (omega (arith, v.balance, a, b))
    go (inl a) (inr (i, e)) = inr (_, completes w i true e)
    go (inr (i, inl e)) b = inr (_, enters w i false e)
    go (inr (i, inr (seen, e))) b = inr (_, leaves w i seen refusing refusing 0 e refl refl)

-- A number of completions, one after the other.
pub data Completions : ℕ → World → World → Type 0 where
  finished : {w : World} → Completions 0 w w
  followed :
      {n : ℕ} {w w' w'' : World} → Purged w w' → Completions n w' w'' → Completions (suc n) w w''

Purged-IsBalanced : {w w' : World} → Purged w w' → IsBalanced w → IsBalanced w'
Purged-IsBalanced step v = Step-IsBalanced (Purged-Step step) v

Completions-work : {n : ℕ} {w w' : World} → Completions n w w' → IsBalanced w → n + work w' ≤ work w
Completions-work finished v = omega arith
Completions-work (followed step rest) v =
    omega (arith, Purged-shrinks step v, Completions-work rest (Purged-IsBalanced step v))

drains :
    (fuel : ℕ) (w : World)
    → work w ≤ fuel
    → IsBalanced w
    → (n : ℕ) × ((w' : World) × ((Completions n w w') × (w'.flow.in_flight ≡ 0)))
drains zero w enough v = elim (progress w v) [
  | inl quiet ↦ (0, (w, (finished, quiet)))
  | inr (w', step) ↦ absurd (omega (arith, enough, Purged-shrinks step v))
]
drains (suc fuel) w enough v = elim (progress w v) [
  | inl quiet ↦ (0, (w, (finished, quiet)))
  | inr (w', step) ↦
      let (n, (end, (rest, quiet))) =
        drains fuel w' (omega (arith, enough, Purged-shrinks step v)) (Purged-IsBalanced step v) in
      (suc n, (end, (followed step rest, quiet)))
]

weights-length : (ps : List Phase) → weights ps ≤ 2 * length ps
weights-length [] = omega arith
weights-length (idle ∷ ps) = omega (arith, weights-length ps)
weights-length (pending ∷ ps) = omega (arith, weights-length ps)
weights-length (entered seen ∷ ps) = omega (arith, weights-length ps)

-- Once the sends fail, the wait of `stop` ends: from every reachable state at most 48 completions can
-- follow each other, and as long as a transfer is in flight one is to come, so that some number of
-- them leaves none in flight.
pub wait_ends :
    {w : World}
    → Reached w
    → ((n : ℕ) (w' : World) → Completions n w w' → n ≤ 48)
      × ((n : ℕ) × ((w' : World) × ((Completions n w w') × (w'.flow.in_flight ≡ 0))))
wait_ends {w = w} reached =
    let v = Reached-IsBalanced reached in
    (
      λ n w' run. omega (
        arith,
        Completions-work run v,
        v.captures_made,
        v.playbacks_made,
        weights-length w.captures,
        count_busy-length w.flow.busy,
      ),
      drains (work w) w (omega arith) v,
    )

-- Every entry of the captures is at rest, and no playback transfer is busy.
abbrev pub AllIdle : List Phase → Type 0
AllIdle [] = Unit
AllIdle (p ∷ ps) = (p ≡ idle) × AllIdle ps

abbrev pub AllFree : List Bool → Type 0
AllFree [] = Unit
AllFree (b ∷ bs) = (b ≡ false) × AllFree bs

none_active : (ps : List Phase) → count_active ps ≡ 0 → AllIdle ps
none_active [] e = tt
none_active (idle ∷ ps) e = (refl, none_active ps (omega (arith, e)))
none_active (pending ∷ ps) e = absurd (omega (arith, e))
none_active (entered seen ∷ ps) e = absurd (omega (arith, e))

none_busy : (bs : List Bool) → count_busy bs ≡ 0 → AllFree bs
none_busy [] e = tt
none_busy (false ∷ bs) e = (refl, none_busy bs (omega (arith, e)))
none_busy (true ∷ bs) e = absurd (omega (arith, e))

-- When `in_flight` is 0, no transfer is with the USB stack and no completion routine runs, so that the
-- engine's transfers can be freed.
pub none_in_flight :
    {w : World} → Reached w → w.flow.in_flight ≡ 0 → AllIdle w.captures × AllFree w.flow.busy
none_in_flight {w = w} reached quiet =
    let v = Reached-IsBalanced reached in
    (
      none_active w.captures (omega (arith, v.balance, quiet)),
      none_busy w.flow.busy (omega (arith, v.balance, quiet)),
    )
