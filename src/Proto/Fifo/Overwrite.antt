-- ===== src/Proto/Fifo/Overwrite.antt =====
-- `Fifo::new` and `Fifo::push_over` of crates/ak1-proto/src/asio.rs, of which `push_over` gives up the oldest frame
-- when the ring is full.
use ak1_driver.Prelude.{
  length-replicate, replicate, ℕ, suc, ◌+◌, ◌^◌, ◌<◌, ◌≡◌, refl, sym, ◌∙◌, ap, ◌≢◌, true, false, [],
  ◌∷◌, ◌++◌, none, some, arith, length, length-append, length-replicate, ℕ_discrete, ◌==◌,
}
use ak1_driver.Proto.Fifo.{Fifo, new, push, pop, push_over}
use ak1_driver.Proto.Fifo.Queue.{
  IsValid, contents, contents-push, keep_last, keep_last_all, keep_last_cons, length-contents,
  length-pop, length-push, pop-IsValid, pop_refines, push-IsValid, push_full, push_room,
}

module _ {A : Type 0} (blank : A) where
  pub push_over_full :
      (f : Fifo A) (x : A)
      → f.len ≡ length f.frames
      → push_over blank f x ≡ ((push blank (pop blank f).0 x).0, true)
  unfolding push_over
  push_over_full f x h = rw (push_full blank f x h)

  pub push_over_room :
      (f : Fifo A) (x : A)
      → f.len ≢ length f.frames
      → push_over blank f x ≡ ((push blank f x).0, false)
  unfolding push_over
  push_over_room f x h = rw (push_room blank f x h)

  pub push_over-IsValid : {f : Fifo A} (x : A) → IsValid f → IsValid (push_over blank f x).0
  push_over-IsValid {f} x v = elim (ℕ_discrete f.len (length f.frames)) [
    | yes e ↦ rw (push_over_full f x e) (push-IsValid blank x (pop-IsValid blank v))
    | no ne ↦ rw (push_over_room f x ne) (push-IsValid blank x v)
  ]

  pub length-push_over :
      (f : Fifo A) (x : A) → length (push_over blank f x).0.frames ≡ length f.frames
  length-push_over f x = elim (ℕ_discrete f.len (length f.frames)) [
    | yes e ↦ rw (push_over_full f x e) (length-push blank (pop blank f).0 x ∙ length-pop blank f)
    | no ne ↦ rw (push_over_room f x ne) (length-push blank f x)
  ]

  -- `push_over` keeps the last frames that the ring has room for, and tells whether one was lost.
  pub push_over_refines :
      {f : Fifo A} (x : A)
      → IsValid f
      → let (f', full) = push_over blank f x in
        (contents blank f' ≡ keep_last (length f.frames) (contents blank f ++ (x ∷ [])))
        × (full ≡ (f.len == length f.frames))
  push_over_refines {f} x v = elim (ℕ_discrete f.len (length f.frames)) [
    | yes e ↦ rw (push_over_full f x e) (over (omega arith) e, ground arith)
    | no ne ↦ rw (push_over_room f x ne) (
      contents-push blank x v ne ∙ sym (keep_last_all _ _ (omega (arith, one_more))),
      ground arith,
    )
  ]
    where
      one_more : length (contents blank f ++ (x ∷ [])) ≡ f.len + 1
      one_more = omega (arith, length-append (contents blank f) (x ∷ []), length-contents blank f)

      over :
          0 < length f.frames
          → f.len ≡ length f.frames
          → contents blank (push blank (pop blank f).0 x).0
            ≡ keep_last (length f.frames) (contents blank f ++ (x ∷ []))
      over p e =
          let (y, _, c) = pop_refines blank v (omega arith) in
          let fits : suc (pop blank f).0.len ≡ f.len =
            omega (
              arith,
              ap length c,
              length-contents blank f,
              length-contents blank (pop blank f).0,
            ) in
          contents-push blank x (pop-IsValid blank v) (omega (arith, length-pop blank f))
          ∙ sym (
              rw c (
                keep_last_cons (length f.frames) y _ (
                  omega (
                    arith,
                    length-append (contents blank (pop blank f).0) (x ∷ []),
                    length-contents blank (pop blank f).0,
                  ))))

  -- A new ring is valid and empty.
  pub record IsNew (capacity : ℕ) (f : Fifo A) : Type 0 where
    pub ring : IsValid f
    pub holds : contents blank f ≡ []
    pub empty : f.len ≡ 0
    pub size : length f.frames ≡ capacity

  pub new_granted :
      (capacity : ℕ)
      → 0 < capacity
      → capacity < 2 ^ 63
      → (f : Fifo A) × (new blank true capacity ≡ some f) × IsNew capacity f
  unfolding new contents
  new_granted capacity h s = (
    record { frames = replicate capacity blank; start = 0; len = 0 },
    refl,
    ground (arith, length-replicate capacity blank),
  )

  pub new_refused : (capacity : ℕ) → new blank false capacity ≡ none
  unfolding new
  new_refused capacity = refl
