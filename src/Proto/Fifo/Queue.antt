-- ===== src/Proto/Fifo/Queue.antt =====
-- `Fifo` of crates/ak1-proto/src/asio.rs as a bounded queue: its invariant, what it holds, and what
-- each operation does to that.
use ak1_driver.Prelude.{
  length-drop, drop-append_le, min, ℕ, zero, suc, ◌+◌, ◌-◌, ◌%◌, ◌^◌, ◌≤◌, ◌<◌, ◌≡◌, refl, sym, ◌∙◌,
  ap, ap₂, ◌≢◌, true, false, List, [], ◌∷◌, ◌++◌, none, some, arith, length, get_or, set, drop,
  length-append, length-set, get_or-set_self, get_or-set_ne, dec_lt, ◌==◌, if◌then◌else◌,
}
use native.Mathlib.Nat.{mod-add-mod, mod-eq_of_lt, mod-eq-sub-mod, add-zero}
use ak1_driver.Proto.Fifo.{Fifo, add_size, push, pop}

-- `small` keeps the index sums of a ring below 2 ^ 64.
pub record IsValid {A : Type 0} (f : Fifo A) : Type 0 where
  pub start_in : f.start < length f.frames
  pub len_in : f.len ≤ length f.frames
  pub small : length f.frames < 2 ^ 63

module _ {A : Type 0} (blank : A) where
  module _ (frames : List A) (cap : ℕ) where
    -- the `n` frames from index `i` on, going round at `cap`
    abbrev window : ℕ → ℕ → List A
    window i zero = []
    window i (suc n) = get_or frames i blank ∷ window ((i + 1) % cap) n

    length-window : (i n : ℕ) → length (window i n) ≡ n
    length-window i zero = refl
    length-window i (suc n) = ap suc (length-window ((i + 1) % cap) n)

    -- `window` matches on `suc`, the code tests `len == 0`
    window_of_ne_zero :
        (i n : ℕ) → n ≢ 0 → window i n ≡ get_or frames i blank ∷ window ((i + 1) % cap) (n - 1)
    window_of_ne_zero i zero p = absurd (p refl)
    window_of_ne_zero i (suc n) p = ap (λ k. window i (suc k)) (omega arith)

  -- Oldest first.
  unfoldable pub contents : Fifo A → List A
  contents f = window f.frames (length f.frames) f.start f.len

  pub length-contents : (f : Fifo A) → length (contents f) ≡ f.len
  unfolding contents
  length-contents f = length-window f.frames (length f.frames) f.start f.len

module _ {A : Type 0} where
  -- The last `n` frames of a list.
  abbrev pub keep_last : ℕ → List A → List A
  keep_last n xs = drop (length xs - n) xs

  pub keep_last_all : (n : ℕ) (xs : List A) → length xs ≤ n → keep_last n xs ≡ xs
  keep_last_all n xs h = let e : length xs - n ≡ 0 = omega arith in rw e

  pub keep_last_cons : (n : ℕ) (x : A) (xs : List A) → length xs ≡ n → keep_last n (x ∷ xs) ≡ xs
  keep_last_cons n x xs h = let e : suc (length xs) - n ≡ 1 = omega arith in rw e

  drop-nil : (n : ℕ) → drop {A = A} n [] ≡ []
  drop-nil zero = refl
  drop-nil (suc n) = refl

  drop-drop : (a b : ℕ) (xs : List A) → drop a (drop b xs) ≡ drop (b + a) xs
  drop-drop a zero xs = let e : zero + a ≡ a = omega arith in rw e
  drop-drop a (suc b) [] = drop-nil a ∙ sym (drop-nil (suc b + a))
  drop-drop a (suc b) (x ∷ xs) =
      let e : suc b + a ≡ suc (b + a) = omega arith in rw e (drop-drop a b xs)

  -- Keeping the last frames after each step or once at the end gives the same frames.
  pub keep_last_append :
      (n : ℕ) (xs ys : List A) → keep_last n (keep_last n xs ++ ys) ≡ keep_last n (xs ++ ys)
  keep_last_append n xs ys =
      let e : drop (length xs - n) xs ++ ys ≡ drop (length xs - n) (xs ++ ys) =
        sym (drop-append_le (length xs - n) xs ys (omega arith)) in
      rw e (
        drop-drop (length (drop (length xs - n) (xs ++ ys)) - n) (length xs - n) (xs ++ ys)
        ∙ ap (λ k. drop k (xs ++ ys))
            (omega (arith, length-drop (length xs - n) (xs ++ ys), length-append xs ys)))

  pub length-keep_last : (n : ℕ) (xs : List A) → length (keep_last n xs) ≡ min n (length xs)
  length-keep_last n xs = omega (arith, length-drop (length xs - n) xs)

-- Fewer than `cap` steps round the ring do not come back to the start.
add-mod-ne : {cap i k : ℕ} → i < cap → suc k < cap → (i + suc k) % cap ≢ i
add-mod-ne {cap} {i} {k} hi hk = elim (dec_lt (i + suc k) cap) [
  | yes p ↦ omega (arith, mod-eq_of_lt p)
  | no p ↦ omega (
    arith,
    mod-eq-sub-mod {n = i + suc k} {m = cap} (omega arith),
    mod-eq_of_lt {n = i + suc k - cap} {m = cap} (omega arith),
  )
]

module _ {A : Type 0} (blank : A) where
  -- Writing just past a window extends it by that frame.
  window-set :
      (frames : List A) (cap : ℕ) (x : A) (n i at : ℕ)
      → cap ≤ length frames
      → i < cap
      → n < cap
      → at ≡ (i + n) % cap
      → window blank (set frames at x) cap i (suc n) ≡ window blank frames cap i n ++ (x ∷ [])
  window-set frames cap x zero i at hs hi hn e =
      rw (e, add-zero, mod-eq_of_lt hi, get_or-set_self frames i x blank (omega arith))
  window-set frames cap x (suc n) i at hs hi hn e =
      ap₂ ◌∷◌ (get_or-set_ne frames x blank (rw e (add-mod-ne hi hn)))
        (window-set frames cap x n ((i + 1) % cap) at hs (omega arith) (omega arith) (e ∙ shift))
    where
      shift : (i + suc n) % cap ≡ ((i + 1) % cap + n) % cap
      shift = rw mod-add-mod (ap (λ k. k % cap) (omega arith))

  pub length-push : (f : Fifo A) (x : A) → length (push blank f x).0.frames ≡ length f.frames
  unfolding push
  length-push f x = ground (arith, length-set f.frames (add_size f.start f.len % length f.frames) x)

  pub push-IsValid : {f : Fifo A} (x : A) → IsValid f → IsValid (push blank f x).0
  unfolding push
  push-IsValid {f} x v =
      ground (arith, length-set f.frames (add_size f.start f.len % length f.frames) x)

  pub pop-IsValid : {f : Fifo A} → IsValid f → IsValid (pop blank f).0
  unfolding pop
  pop-IsValid v = ground arith

  pub push_refines :
      {f : Fifo A} (x : A)
      → IsValid f
      → let (f', pushed) = push blank f x in
        (contents blank f'
          ≡ (if f.len == length f.frames then contents blank f else contents blank f ++ (x ∷ [])))
        × (pushed ≡ (if f.len == length f.frames then false else true))
  unfolding push contents
  push_refines {f} x v =
      ground
        (arith, length-set f.frames at x, window-set f.frames (length f.frames) x f.len f.start at)
    where
      at : ℕ
      at = add_size f.start f.len % length f.frames

  pub length-pop : (f : Fifo A) → length (pop blank f).0.frames ≡ length f.frames
  unfolding pop
  length-pop f = ground arith

  -- On a non-empty ring `pop` takes the oldest frame.
  pub pop_refines :
      {f : Fifo A}
      → IsValid f
      → f.len ≢ 0
      → (x : A) × ((pop blank f).1 ≡ some x)
        × (contents blank f ≡ x ∷ contents blank (pop blank f).0)
  unfolding pop contents
  pop_refines {f} v h = (
    get_or f.frames f.start blank,
    ground arith,
    ground (arith, window_of_ne_zero blank f.frames (length f.frames) f.start f.len),
  )

  pub pop_empty : (f : Fifo A) → f.len ≡ 0 → pop blank f ≡ (f, none)
  unfolding pop
  pop_empty f h = ground arith

  pub push_full : (f : Fifo A) (x : A) → f.len ≡ length f.frames → push blank f x ≡ (f, false)
  unfolding push
  push_full f x h = ground arith

  pub contents-push :
      {f : Fifo A} (x : A)
      → IsValid f
      → f.len ≢ length f.frames
      → contents blank (push blank f x).0 ≡ contents blank f ++ (x ∷ [])
  contents-push x v h = ground (arith, push_refines x v)

  pub len-push :
      {f : Fifo A} (x : A)
      → IsValid f
      → f.len ≢ length f.frames
      → (push blank f x).0.len ≡ f.len + 1
  unfolding push
  len-push x v h = ground arith

  pub push_room : (f : Fifo A) (x : A) → f.len ≢ length f.frames → (push blank f x).1 ≡ true
  unfolding push
  push_room f x h = ground arith
