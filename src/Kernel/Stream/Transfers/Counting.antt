-- ===== src/Kernel/Stream/Transfers/Counting.antt =====
-- How the counts of driver/ak1-acx/src/stream.rs change with one transfer.
use ak1_driver.Prelude.{
  ℕ, zero, suc, ◌+◌, ◌≤◌, ◌<◌, ◌≡◌, Bool, true, false, List, [], ◌∷◌, some, arith, length, get_or,
  set, Option-cases,
}
use ak1_driver.Kernel.Stream.Transfers.{find_free}
use ak1_driver.Kernel.Stream.Transfer.{count_of}
use ak1_driver.Kernel.Stream.Transfers.Flight.{
  Phase, idle, pending, entered, active, count_active, count_busy,
}

pub count_active-set :
    (ps : List Phase) (i : ℕ) (p : Phase)
    → i < length ps
    → count_active (set ps i p) + active (get_or ps i idle) ≡ count_active ps + active p
count_active-set [] i p h = absurd (omega arith)
count_active-set (x ∷ ps) zero p h = omega arith
count_active-set (x ∷ ps) (suc i) p h = omega (arith, count_active-set ps i p (omega arith))

pub get_or-active : (ps : List Phase) (i : ℕ) → active (get_or ps i idle) ≡ 1 → i < length ps
get_or-active [] i h = absurd (omega (arith, h))
get_or-active (x ∷ ps) zero h = omega arith
get_or-active (x ∷ ps) (suc i) h = omega (arith, get_or-active ps i h)

pub count_busy-set :
    (bs : List Bool) (i : ℕ) (b : Bool)
    → i < length bs
    → count_busy (set bs i b) + count_of (get_or bs i false) ≡ count_busy bs + count_of b
count_busy-set [] i b h = absurd (omega arith)
count_busy-set (x ∷ bs) zero b h = omega arith
count_busy-set (x ∷ bs) (suc i) b h = omega (arith, count_busy-set bs i b (omega arith))

pub get_or-busy : (bs : List Bool) (i : ℕ) → get_or bs i false ≡ true → i < length bs
get_or-busy [] i h = absurd (cc h)
get_or-busy (x ∷ bs) zero h = omega arith
get_or-busy (x ∷ bs) (suc i) h = omega (arith, get_or-busy bs i h)

pub count_active-length : (ps : List Phase) → count_active ps ≤ length ps
count_active-length [] = omega arith
count_active-length (idle ∷ ps) = omega (arith, count_active-length ps)
count_active-length (pending ∷ ps) = omega (arith, count_active-length ps)
count_active-length (entered seen ∷ ps) = omega (arith, count_active-length ps)

pub count_busy-length : (bs : List Bool) → count_busy bs ≤ length bs
count_busy-length [] = omega arith
count_busy-length (true ∷ bs) = omega (arith, count_busy-length bs)
count_busy-length (false ∷ bs) = omega (arith, count_busy-length bs)

-- The transfer that is found was not busy.
pub find_free_lem :
    (bs : List Bool) (i : ℕ)
    → find_free bs ≡ some i
    → (i < length bs) × (count_busy (set bs i true) ≡ count_busy bs + 1)
unfolding find_free
find_free_lem [] i e = absurd (cc e)
find_free_lem (false ∷ bs) zero e = (omega arith, omega arith)
find_free_lem (false ∷ bs) (suc i) e = absurd (ground (arith, e))
find_free_lem (true ∷ bs) zero e = absurd (ground (arith, e, Option-cases (find_free bs)))
find_free_lem (true ∷ bs) (suc i) e =
    let rest = find_free_lem bs i (ground (arith, e, Option-cases (find_free bs))) in
    (omega (arith, rest.0), omega (arith, rest.1))
