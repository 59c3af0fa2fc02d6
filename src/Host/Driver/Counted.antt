-- ===== src/Host/Driver/Counted.antt =====
-- The counts of asio/src/lib.rs: what the module counts, the calls of a client, and each call of an object by
-- itself.
use ak1_driver.Prelude.{
  ℕ, zero, suc, ◌+◌, ◌-◌, ◌%◌, ◌^◌, ◌<◌, ◌≡◌, refl, sym, subst, ◌∙◌, ap, Bool, true, false, List,
  [], ◌∷◌, ◌++◌, Option, none, some, arith, length, get_or, set, Bool-cases, ℕ_discrete, inl, inr,
}
use ak1_driver.Host.Driver.Object.{
  InterfaceId, Library, refs, set_refs, add_one, add_ref, release, object_released, is_driver,
  query_interface, create, create_instance, lock_server,
}

abbrev pub count_live : List (Option ℕ) → ℕ
count_live [] = 0
count_live (none ∷ live) = count_live live
count_live (some count ∷ live) = suc (count_live live)

abbrev pub AllCounts : List (Option ℕ) → Type 0
AllCounts [] = Unit
AllCounts (none ∷ live) = AllCounts live
AllCounts (some count ∷ live) = (0 < count) × ((count < 2 ^ 32) × AllCounts live)

-- The module counts the objects that are not freed and the locks, and an object that is not freed has
-- references.
pub record IsCounted (library : Library) (locks : ℕ) : Type 0 where
  pub counted : library.objects ≡ (count_live library.live + locks) % 2 ^ 32
  pub referenced : AllCounts library.live

-- The library and the locks, before and after a call. No object has 2 ^ 32 references.
pub data Step : Library → ℕ → Library → ℕ → Type 0 where
  creates :
      (library : Library) (locks : ℕ) (outer : Bool) (iid : Option InterfaceId) (object : Bool)
      → Step library locks (create_instance library outer iid object).0 locks
  adds :
      (library : Library) (locks this count : ℕ)
      → refs library this ≡ some count
      → count + 1 < 2 ^ 32
      → Step library locks (add_ref library this).0 locks
  queries :
      (library : Library) (locks this count : ℕ) (iid : Option InterfaceId) (out : Bool)
      → refs library this ≡ some count
      → count + 1 < 2 ^ 32
      → Step library locks (query_interface library this iid out).0 locks
  releases :
      (library : Library) (locks this count : ℕ)
      → refs library this ≡ some count
      → Step library locks (release library this).0 locks
  locks_once :
      (library : Library) (locks : ℕ) → Step library locks (lock_server library true) (suc locks)
  unlocks :
      (library : Library) (locks : ℕ) → Step library (suc locks) (lock_server library false) locks

pub data Reached : Library → ℕ → Type 0 where
  loaded : Reached (record { objects = 0; live = [] }) 0
  called :
      {library library' : Library} {locks locks' : ℕ}
      → Reached library locks
      → Step library locks library' locks'
      → Reached library' locks'

count_live-set-some :
    (live : List (Option ℕ)) (this count new : ℕ)
    → get_or live this none ≡ some count
    → count_live (set live this (some new)) ≡ count_live live
count_live-set-some [] this count new h = refl
count_live-set-some (none ∷ live) zero count new h = absurd cc
count_live-set-some (some c ∷ live) zero count new h = refl
count_live-set-some (none ∷ live) (suc this) count new h = count_live-set-some live this count new h
count_live-set-some (some c ∷ live) (suc this) count new h =
    ap suc (count_live-set-some live this count new h)

pub count_live-set-none :
    (live : List (Option ℕ)) (this count : ℕ)
    → get_or live this none ≡ some count
    → suc (count_live (set live this none)) ≡ count_live live
count_live-set-none [] this count h = absurd cc
count_live-set-none (none ∷ live) zero count h = absurd cc
count_live-set-none (some c ∷ live) zero count h = refl
count_live-set-none (none ∷ live) (suc this) count h = count_live-set-none live this count h
count_live-set-none (some c ∷ live) (suc this) count h =
    ap suc (count_live-set-none live this count h)

AllCounts-set :
    (live : List (Option ℕ)) (this new : ℕ)
    → 0 < new
    → new < 2 ^ 32
    → AllCounts live
    → AllCounts (set live this (some new))
AllCounts-set [] this new p q h = tt
AllCounts-set (none ∷ live) zero new p q h = (p, (q, h))
AllCounts-set (some c ∷ live) zero new p q h = (p, (q, h.1.1))
AllCounts-set (none ∷ live) (suc this) new p q h = AllCounts-set live this new p q h
AllCounts-set (some c ∷ live) (suc this) new p q h =
    (h.0, (h.1.0, AllCounts-set live this new p q h.1.1))

AllCounts-set-none :
    (live : List (Option ℕ)) (this : ℕ) → AllCounts live → AllCounts (set live this none)
AllCounts-set-none [] this h = tt
AllCounts-set-none (none ∷ live) zero h = h
AllCounts-set-none (some c ∷ live) zero h = h.1.1
AllCounts-set-none (none ∷ live) (suc this) h = AllCounts-set-none live this h
AllCounts-set-none (some c ∷ live) (suc this) h = (h.0, (h.1.0, AllCounts-set-none live this h.1.1))

AllCounts-get :
    (live : List (Option ℕ)) (this count : ℕ)
    → AllCounts live
    → get_or live this none ≡ some count
    → (0 < count) × (count < 2 ^ 32)
AllCounts-get [] this count h e = absurd cc
AllCounts-get (none ∷ live) zero count h e = absurd cc
AllCounts-get (some c ∷ live) zero count h e = ground arith
AllCounts-get (none ∷ live) (suc this) count h e = AllCounts-get live this count h e
AllCounts-get (some c ∷ live) (suc this) count h e = AllCounts-get live this count h.1.1 e

-- What `create` appends.
pub count_live-append_one :
    (live : List (Option ℕ)) (count : ℕ)
    → count_live (live ++ (some count ∷ [])) ≡ suc (count_live live)
count_live-append_one [] count = refl
count_live-append_one (none ∷ live) count = count_live-append_one live count
count_live-append_one (some c ∷ live) count = ap suc (count_live-append_one live count)

AllCounts-append_one : (live : List (Option ℕ)) → AllCounts live → AllCounts (live ++ (some 1 ∷ []))
AllCounts-append_one [] h = (omega arith, (omega arith, tt))
AllCounts-append_one (none ∷ live) h = AllCounts-append_one live h
AllCounts-append_one (some c ∷ live) h = (h.0, (h.1.0, AllCounts-append_one live h.1.1))

pub get_or-append_one :
    (live : List (Option ℕ)) (count : ℕ)
    → get_or (live ++ (some count ∷ [])) (length live) none ≡ some count
get_or-append_one [] count = refl
get_or-append_one (c ∷ live) count = get_or-append_one live count

pub get_or-set-some :
    (live : List (Option ℕ)) (this count new : ℕ)
    → get_or live this none ≡ some count
    → get_or (set live this (some new)) this none ≡ some new
get_or-set-some [] this count new h = absurd cc
get_or-set-some (c ∷ live) zero count new h = refl
get_or-set-some (c ∷ live) (suc this) count new h = get_or-set-some live this count new h

pub create-IsCounted :
    (library : Library) (locks : ℕ) → IsCounted library locks → IsCounted (create library).0 locks
unfolding create
create-IsCounted library locks c = record {
  counted = omega (arith, c.counted, count_live-append_one library.live 1);
  referenced = AllCounts-append_one library.live c.referenced;
}

pub add_ref-IsCounted :
    (library : Library) (locks this count : ℕ)
    → refs library this ≡ some count
    → count + 1 < 2 ^ 32
    → IsCounted library locks
    → IsCounted (add_ref library this).0 locks
unfolding add_ref
add_ref-IsCounted library locks this count e small c =
    rw (e, add_ref)
      (record {
        counted = rw (count_live-set-some library.live this count (add_one count) e) c.counted;
        referenced =
            AllCounts-set library.live this (add_one count) (omega arith) (omega arith)
              c.referenced;
      })

pub release_last :
    (library : Library) (this : ℕ)
    → refs library this ≡ some 1
    → (release library this).0 ≡ object_released (set_refs library this none)
unfolding release
release_last library this e = rw (e, release) refl

release_other :
    (library : Library) (this count : ℕ)
    → refs library this ≡ some count
    → 1 < count
    → count < 2 ^ 32
    → (release library this).0 ≡ set_refs library this (some (count - 1))
unfolding release
release_other library this count e many small = ground arith

pub release-IsCounted :
    (library : Library) (locks this count : ℕ)
    → refs library this ≡ some count
    → IsCounted library locks
    → IsCounted (release library this).0 locks
release-IsCounted library locks this count e c =
    let (positive, small) = AllCounts-get library.live this count c.referenced e in
    elim (ℕ_discrete count 1) [
      | yes last ↦
          let one = e ∙ ap some last in
          subst (λ l. IsCounted l locks) (sym (release_last library this one))
            (unfold object_released in
              record {
                counted = omega (arith, c.counted, count_live-set-none library.live this count e);
                referenced = AllCounts-set-none library.live this c.referenced;
              })
      | no more ↦
          subst (λ l. IsCounted l locks)
            (sym (release_other library this count e (omega arith) small))
            (record {
              counted = rw (count_live-set-some library.live this count (count - 1) e) c.counted;
              referenced =
                  AllCounts-set library.live this (count - 1) (omega arith) (omega arith)
                    c.referenced;
            })
    ]

pub query_interface-IsCounted :
    (library : Library) (locks this count : ℕ) (iid : Option InterfaceId) (out : Bool)
    → refs library this ≡ some count
    → count + 1 < 2 ^ 32
    → IsCounted library locks
    → IsCounted (query_interface library this iid out).0 locks
unfolding query_interface
query_interface-IsCounted library locks this count iid false e small c = c
query_interface-IsCounted library locks this count none true e small c = c
query_interface-IsCounted library locks this count (some iid) true e small c =
    elim (Bool-cases (is_driver iid)) [
      | inl own ↦ rw own (add_ref-IsCounted library locks this count e small c)
      | inr foreign ↦ rw foreign c
    ]
