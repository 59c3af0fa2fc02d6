-- ===== src/Setup/Leaves.antt =====
-- The files that setup/src/main.rs leaves: what its requests do to a folder tree, where they succeed, as
-- the standard library says.
pub mod Gone
use ak1_driver.Prelude.{
  ℕ, ◌≡◌, refl, sym, ap, ◌∙◌, inl, inr, Bool, true, false, ◌&&◌, ◌||◌, not, List, [], ◌∷◌, ◌++◌,
  Option, none, some, map, if◌then◌else◌, Bool-cases, arith,
}
use ak1_driver.Prelude.Text.{Text, text_eq, text_eq_refl, codes}
use ak1_driver.Setup.{
  FilePath, same_path, is_under, inf, certificate, driver_files, asio_dll, panel, setup_program,
  cert_stores, Paths, Store, Value, Request, turn_test_signing_on, create_dir, write_file,
  copy_file, trust, open_certificate, distrust, delete_driver, add_driver, register, unregister,
  save_shortcut, create_uninstall_key, set_value, delete_uninstall_key, remove_file, remove_dir,
  spawn, delete_at_restart, Result, ok, err, System, Action,
}
use ak1_driver.Setup.Signing.{is_active}
use ak1_driver.Setup.Install.{
  Payload, embedded, or_empty, Facts, join, uninstall_values, Ending, installed, removed, install,
}
use ak1_driver.Setup.Uninstall.{certificate_of, uninstall_from, hand_over}
use ak1_driver.Setup.Plan.{Does, Follows, IsDone}
use ak1_driver.Setup.Plan.Steps.{
  package_names, signing_steps, written, copy_steps, package_steps, program_steps, install_steps,
  install-Does,
}
use ak1_driver.Setup.Plan.Removal.{
  unregister_steps, distrust_steps, removal_steps, uninstall_steps, uninstall_from-Does,
}

-- Which files are there.
abbrev pub Files : Type 0
Files = FilePath → Bool

abbrev pub added : FilePath → Files → Files
added path files p = same_path p path || files p

-- Requests that change files in one folder only.
abbrev pub IsConfined : (Request → Files → Files) → (folder : FilePath) → Type 0
IsConfined store folder =
    (request : Request) (files : Files) (p : FilePath)
    → is_under p folder ≡ false
    → store request files p ≡ files p

-- The program's own places.
abbrev pub is_own : Paths → FilePath → Bool
is_own paths p =
    same_path p paths.shortcut || (is_under p paths.programs || is_under p paths.driver)

same_path-is_under :
    (p folder rest : FilePath) → same_path p (folder ++ rest) ≡ true → is_under p folder ≡ true
unfolding same_path is_under
same_path-is_under p [] rest h = refl
same_path-is_under [] (b ∷ folder) rest h = h
same_path-is_under (a ∷ p) (b ∷ folder) rest h = ground (arith, h, same_path-is_under p folder rest)

added_elsewhere :
    (p path : FilePath) (files : Files) → same_path p path ≡ false → added path files p ≡ files p
added_elsewhere p path files h = rw h refl

not_in :
    (p folder : FilePath) (file : Text)
    → is_under p folder ≡ false
    → same_path p (join folder file) ≡ false
not_in p folder file h = ground (arith, h, same_path-is_under p folder (file ∷ []))

module _ (store : Request → Files → Files) where
  -- The files after a request; `pnputil` does to them what `store` says.
  abbrev pub change : Request → Files → Files
  change (write_file path contents) files = added path files
  change (copy_file from to) files = added to files
  change (save_shortcut link target) files = added link files
  change (remove_file path) files = λ p. not (same_path p path) && files p
  change (remove_dir folder) files = λ p. not (is_under p folder) && files p
  change (add_driver path) files = store (add_driver path) files
  change (delete_driver name) files = store (delete_driver name) files
  change _ files = files

  abbrev pub change_all : List Request → Files → Files
  change_all [] files = files
  change_all (request ∷ requests) files = change_all requests (change request files)

  pub change_all-append :
      (first second : List Request) (files : Files)
      → change_all (first ++ second) files ≡ change_all second (change_all first files)
  change_all-append [] second files = refl
  change_all-append (request ∷ first) second files =
      change_all-append first second (change request files)

  -- Requests that leave the file at `p` alone.
  abbrev pub Spares : FilePath → List Request → Type 0
  Spares p [] = Unit
  Spares p (request ∷ requests) =
      ((files : Files) → change request files p ≡ files p) × Spares p requests

  pub change_all-Spares :
      (p : FilePath) (requests : List Request) (files : Files)
      → Spares p requests
      → change_all requests files p ≡ files p
  change_all-Spares p [] files h = refl
  change_all-Spares p (request ∷ requests) files h =
      change_all-Spares p requests (change request files) h.1 ∙ h.0 files

  pub Spares-append :
      (p : FilePath) (first second : List Request)
      → Spares p first
      → Spares p second
      → Spares p (first ++ second)
  Spares-append p [] second h k = k
  Spares-append p (request ∷ first) second h k = (h.0, Spares-append p first second h.1 k)

  pub Spares-map :
      {A : Type 0} (p : FilePath) (f : A → Request) (xs : List A)
      → ((x : A) (files : Files) → change (f x) files p ≡ files p)
      → Spares p (map f xs)
  Spares-map p f [] h = tt
  Spares-map p f (x ∷ xs) h = (h x, Spares-map p f xs h)

-- A file that is in none of the program's places, nor in the folder where `pnputil` keeps drivers.
module _ (store : Request → Files → Files) (windows : FilePath)
    (confined : IsConfined store windows) (facts : Facts) (p : FilePath)
    (outside : is_under p windows ≡ false) (elsewhere : is_own facts.paths p ≡ false) where
  not_shortcut : same_path p facts.paths.shortcut ≡ false
  not_shortcut = ground (arith, elsewhere)

  not_programs : is_under p facts.paths.programs ≡ false
  not_programs = ground (arith, elsewhere)

  not_driver : is_under p facts.paths.driver ≡ false
  not_driver = ground (arith, elsewhere)

  written-Spares :
      (payload : Payload) (folder : FilePath) (files : List Text)
      → is_under p folder ≡ false
      → Spares store p (written payload folder files)
  written-Spares payload folder files h =
      Spares-map store p (λ file. write_file (join folder file) (or_empty (embedded payload file)))
        files (λ file before. added_elsewhere p (join folder file) before (not_in p folder file h))

  copy_steps-Spares :
      (exe : Option FilePath)
      → Spares store p (copy_steps exe (join facts.paths.programs setup_program))
  copy_steps-Spares none = tt
  copy_steps-Spares (some exe) = elim (Bool-cases (same_path exe setup)) [
    | inl e ↦ rw e tt
    | inr e ↦ rw e (
      (λ before.
          added_elsewhere p setup before
            (not_in p facts.paths.programs setup_program not_programs)),
      tt,
    )
  ]
    where
      setup : FilePath
      setup = join facts.paths.programs setup_program

  signing_steps-Spares : Spares store p (signing_steps facts.signing)
  signing_steps-Spares = elim (Bool-cases (is_active facts.signing.start_options)) [
    | inl e ↦ rw e tt
    | inr e ↦ rw e ((λ before. refl), tt)
  ]

  package_steps-Spares : Spares store p (package_steps facts)
  package_steps-Spares =
      let contents = or_empty (embedded facts.payload certificate) in
      let trusted = map (λ store. trust store contents) cert_stores in
      let deleted = map delete_driver (package_names facts.drivers) in
      let last = add_driver (join facts.paths.driver inf) ∷ [] in
      (
        (λ before. refl),
        Spares-append store p (written facts.payload facts.paths.driver driver_files)
            (trusted ++ (deleted ++ last))
            (written-Spares facts.payload facts.paths.driver driver_files not_driver)
            (Spares-append store p trusted (deleted ++ last)
              (Spares-map store p (λ store. trust store contents) cert_stores
                (λ store before. refl))
              (Spares-append store p deleted last
                (Spares-map store p delete_driver (package_names facts.drivers)
                  (λ name before. confined (delete_driver name) before p outside))
                (
                  (λ before. confined (add_driver (join facts.paths.driver inf)) before p outside),
                  tt,
                ))),
      )

  program_steps-Spares : Spares store p (program_steps facts)
  program_steps-Spares = (
    (λ before. refl),
    Spares-append store p (written facts.payload facts.paths.programs (asio_dll ∷ panel ∷ [])) _
        (written-Spares facts.payload facts.paths.programs (asio_dll ∷ panel ∷ []) not_programs)
        (Spares-append store p (copy_steps facts.exe (join facts.paths.programs setup_program)) _
          (copy_steps-Spares facts.exe)
          (
            (λ before. refl),
            (
              (λ before. added_elsewhere p facts.paths.shortcut before not_shortcut),
              (
                (λ before. refl),
                Spares-map store p (λ v. set_value v.0 v.1)
                    (uninstall_values facts (join facts.paths.programs setup_program))
                    (λ v before. refl),
              ),
            ),
          )),
  )

  pub install_steps-Spares : Spares store p (install_steps facts)
  install_steps-Spares =
      Spares-append store p (signing_steps facts.signing) _ signing_steps-Spares
        (Spares-append store p (package_steps facts) _ package_steps-Spares program_steps-Spares)
