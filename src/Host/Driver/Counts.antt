-- ===== src/Host/Driver/Counts.antt =====
-- The counts of asio/src/lib.rs and asio/src/driver.rs over any sequence of calls in which a client only
-- uses objects that it holds, and unlocks what it locked.
use ak1_driver.Prelude.{
  ℕ, ◌+◌, ◌^◌, ◌<◌, ◌≡◌, refl, ◌∙◌, ap, Bool, true, false, [], ◌∷◌, ◌++◌, Option, none, some, ◌↔◌,
  arith, length, Bool-cases, inl, inr,
}
use ak1_driver.Host.Driver.Object.{
  s_ok, e_no_interface, InterfaceId, Library, refs, set_refs, add_ref, object_released, is_driver,
  query_interface, create, create_queried, create_instance, lock_server, can_unload_now,
}
use ak1_driver.Host.Driver.Counted.{
  IsCounted, Reached, Step, add_ref-IsCounted, adds, called, count_live, count_live-append_one,
  count_live-set-none, create-IsCounted, creates, get_or-append_one, get_or-set-some, loaded,
  locks_once, queries, query_interface-IsCounted, release-IsCounted, release_last, releases,
  unlocks,
}

add_ref-refs :
    (library : Library) (this : ℕ)
    → refs library this ≡ some 1
    → refs (add_ref library this).0 this ≡ some 2
unfolding add_ref
add_ref-refs library this e = rw (e, add_ref) (get_or-set-some library.live this 1 2 e)

-- After the query, the factory's own reference is still there.
query_interface-refs :
    (library : Library) (this : ℕ) (iid : InterfaceId)
    → refs library this ≡ some 1
    → (count : ℕ) × (refs (query_interface library this (some iid) true).0 this ≡ some count)
unfolding query_interface
query_interface-refs library this iid e = elim (Bool-cases (is_driver iid)) [
  | inl own ↦ (2, rw own (add_ref-refs library this e))
  | inr foreign ↦ (1, rw foreign e)
]

fresh_refs : (library : Library) → refs (create library).0 (create library).1 ≡ some 1
unfolding create
fresh_refs library = get_or-append_one library.live 1

create_instance-IsCounted :
    (library : Library) (locks : ℕ) (outer : Bool) (iid : Option InterfaceId) (object : Bool)
    → IsCounted library locks
    → IsCounted (create_instance library outer iid object).0 locks
unfolding create_instance create_queried
create_instance-IsCounted library locks outer iid false c = c
create_instance-IsCounted library locks outer none true c = c
create_instance-IsCounted library locks true (some iid) true c = c
create_instance-IsCounted library locks false (some iid) true c =
    let (made, driver) = create library in
    let fresh = fresh_refs library in
    let (count, held) = query_interface-refs made driver iid fresh in
    release-IsCounted (query_interface made driver (some iid) true).0 locks driver count held (
      query_interface-IsCounted made locks driver 1 (some iid) true fresh (omega arith)
        (create-IsCounted library locks c))

Step-IsCounted :
    {library library' : Library} {locks locks' : ℕ}
    → Step library locks library' locks'
    → IsCounted library locks
    → IsCounted library' locks'
unfolding lock_server object_released
Step-IsCounted (creates library locks outer iid object) c =
    create_instance-IsCounted library locks outer iid object c
Step-IsCounted (adds library locks this count e small) c =
    add_ref-IsCounted library locks this count e small c
Step-IsCounted (queries library locks this count iid out e small) c =
    query_interface-IsCounted library locks this count iid out e small c
Step-IsCounted (releases library locks this count e) c =
    release-IsCounted library locks this count e c
Step-IsCounted (locks_once library locks) c = record {
  counted = omega (arith, c.counted);
  referenced = c.referenced;
}
Step-IsCounted (unlocks library locks) c = record {
  counted = omega (arith, c.counted);
  referenced = c.referenced;
}

Reached-IsCounted :
    {library : Library} {locks : ℕ} → Reached library locks → IsCounted library locks
Reached-IsCounted loaded = record { counted = refl; referenced = tt }
Reached-IsCounted (called reached step) = Step-IsCounted step (Reached-IsCounted reached)

-- After any calls of clients that use only what they hold, the library says that it can be unloaded just
-- when no object is left and no lock is held, if there are fewer than 2 ^ 32 of both.
pub can_unload_now_iff :
    {library : Library} {locks : ℕ}
    → Reached library locks
    → count_live library.live + locks < 2 ^ 32
    → (can_unload_now library ≡ s_ok) ↔ ((count_live library.live ≡ 0) × (locks ≡ 0))
unfolding can_unload_now
can_unload_now_iff reached few = ground (arith, Reached-IsCounted reached)

create_queried-foreign :
    (library : Library) (iid : InterfaceId)
    → is_driver iid ≡ false
    → let (made, driver) = create library in
      create_queried library iid
      ≡ (object_released (set_refs made driver none), e_no_interface, some none)
unfolding create_queried query_interface
create_queried-foreign library iid foreign =
    let (made, driver) = create library in
    rw (foreign, release_last made driver (fresh_refs library)) refl

-- A creation that fails for its interface leaves no object behind: the counts are as before.
pub create_instance-eq-no_interface :
    {library : Library} {locks : ℕ} (iid : InterfaceId)
    → Reached library locks
    → is_driver iid ≡ false
    → let (library', status, pointer) = create_instance library false (some iid) true in
      (status ≡ e_no_interface)
      × ((pointer ≡ some none)
          × ((library'.objects ≡ library.objects)
              × (count_live library'.live ≡ count_live library.live)))
unfolding create_instance create object_released
create_instance-eq-no_interface {library = library} iid reached foreign =
    let fails = create_queried-foreign library iid foreign in
    (
      ap (λ r. r.1) fails,
      (
        ap (λ r. r.2) fails,
        (
          ap (λ r. r.0.objects) fails ∙ omega (arith, (Reached-IsCounted reached).counted),
          ap (λ r. count_live r.0.live) fails
              ∙ omega (
                arith,
                count_live-append_one library.live 1,
                count_live-set-none (library.live ++ (some 1 ∷ [])) (length library.live) 1
                    (get_or-append_one library.live 1),
              ),
        ),
      ),
    )
