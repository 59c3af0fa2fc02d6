-- ===== src/Setup/Plan/Removal.antt =====
-- The steps of a removal by setup/src/main.rs, and that `uninstall` does them in this order.
use ak1_driver.Prelude.{
  ℕ, inl, inr, Bool, true, false, List, [], ◌∷◌, ◌++◌, Option, none, some, map, if◌then◌else◌,
  Bool-cases,
}
use ak1_driver.Setup.{
  FilePath, same_path, is_under, asio_dll, setup_program, cert_stores, Store, Request, copy_file,
  open_certificate, distrust, delete_driver, unregister, delete_uninstall_key, remove_file,
  remove_dir, spawn, delete_at_restart, System, pure, run, call, call_found, call_ignored,
}
use ak1_driver.Setup.Signing.{remove_driver_packages, distrust_in, distrust_certificate}
use ak1_driver.Setup.Install.{Facts, join, removed, handed_over}
use ak1_driver.Setup.Uninstall.{
  hand_over, unregister_dll, certificate_of, distrust_if_any, remove_all, uninstall_from,
}
use ak1_driver.Setup.Plan.{
  Does, Does-pure, Does-bind, Does-then, Does-run, Does-call, Does-call_found, Does-call_ignored,
}
use ak1_driver.Setup.Plan.Steps.{package_names, remove_driver_packages-Does}

abbrev pub unregister_steps : (exists : Bool) → FilePath → List Request
unregister_steps exists dll = if exists then unregister dll ∷ [] else []

abbrev pub distrust_steps : Option (List ℕ) → List Request
distrust_steps none = []
distrust_steps (some contents) =
    (open_certificate contents ∷ []) ++ map (λ store. distrust store contents) cert_stores

abbrev pub removal_steps : Facts → List Request
removal_steps facts =
    (remove_file facts.paths.shortcut ∷ [])
    ++ (unregister_steps facts.dll_exists (join facts.paths.programs asio_dll)
        ++ ((remove_dir facts.paths.programs ∷ [])
            ++ (map delete_driver (package_names facts.drivers)
                ++ (distrust_steps (certificate_of facts)
                    ++ ((remove_dir facts.paths.driver ∷ []) ++ (delete_uninstall_key ∷ []))))))

-- The installed program hands over to a copy, which Windows deletes at the next restart.
abbrev pub uninstall_steps : Facts → (exe : FilePath) → List Request
uninstall_steps facts exe =
    let temporary = join facts.temporary_folder setup_program in
    if is_under exe facts.paths.programs
    then copy_file exe temporary ∷ spawn temporary ∷ []
    else if same_path exe temporary
    then (delete_at_restart exe ∷ []) ++ removal_steps facts
    else removal_steps facts

module _ (system : System) where
  hand_over-Does :
      (exe temporary : FilePath)
      → Does (copy_file exe temporary ∷ spawn temporary ∷ []) (hand_over system exe temporary)
  unfolding hand_over
  hand_over-Does exe temporary =
      Does-then (copy_file exe temporary ∷ []) _ (call system (copy_file exe temporary)) _
        (Does-call system _)
        (Does-then (spawn temporary ∷ []) [] (call system (spawn temporary)) (pure handed_over)
          (Does-call system _) (Does-pure handed_over))

  unregister_dll-Does :
      (exists : Bool) (dll : FilePath)
      → Does (unregister_steps exists dll) (unregister_dll system exists dll)
  unfolding unregister_dll
  unregister_dll-Does false dll = Does-pure tt
  unregister_dll-Does true dll =
      Does-then (unregister dll ∷ []) [] (run system (unregister dll)) (pure tt) (Does-run system _)
        (Does-pure tt)

  distrust_in-Does :
      (contents : List ℕ) (stores : List Store)
      → Does (map (λ store. distrust store contents) stores) (distrust_in system stores contents)
  unfolding distrust_in
  distrust_in-Does contents [] = Does-pure tt
  distrust_in-Does contents (store ∷ stores) =
      Does-then (distrust store contents ∷ []) _ (call system (distrust store contents)) _
        (Does-call system _) (distrust_in-Does contents stores)

  distrust_if_any-Does :
      (certificate : Option (List ℕ))
      → Does (distrust_steps certificate) (distrust_if_any system certificate)
  unfolding distrust_if_any distrust_certificate
  distrust_if_any-Does none = Does-pure tt
  distrust_if_any-Does (some contents) =
      Does-then (open_certificate contents ∷ []) _ (call system (open_certificate contents)) _
        (Does-call system _) (distrust_in-Does contents cert_stores)

  remove_all-Does : (facts : Facts) → Does (removal_steps facts) (remove_all system facts)
  unfolding remove_all
  remove_all-Does facts =
      let shortcut = remove_file facts.paths.shortcut in
      let programs = remove_dir facts.paths.programs in
      let driver = remove_dir facts.paths.driver in
      let dll = join facts.paths.programs asio_dll in
      let key = delete_uninstall_key in
      Does-then (shortcut ∷ []) _ (call_found system shortcut) _ (Does-call_found system shortcut) (
        Does-then (unregister_steps facts.dll_exists dll) _
          (unregister_dll system facts.dll_exists dll) _ (unregister_dll-Does facts.dll_exists dll)
          (Does-then (programs ∷ []) _ (call_found system programs) _
            (Does-call_found system programs)
            (Does-bind (map delete_driver (package_names facts.drivers)) _
              (remove_driver_packages system facts.drivers) _
              (remove_driver_packages-Does system facts.drivers)
              (λ restart.
                Does-then (distrust_steps (certificate_of facts)) _
                  (distrust_if_any system (certificate_of facts)) _
                  (distrust_if_any-Does (certificate_of facts))
                  (Does-then (driver ∷ []) _ (call_found system driver) _
                    (Does-call_found system driver)
                    (Does-then (key ∷ []) [] (call_found system key) (pure (removed restart))
                      (Does-call_found system key) (Does-pure (removed restart))))))))

  -- Whatever Windows answers and however a removal ends, it has asked for the first of the listed steps in
  -- their order, and for all of them unless it fails.
  pub uninstall_from-Does :
      (facts : Facts) (exe : FilePath)
      → Does (uninstall_steps facts exe) (uninstall_from system facts exe)
  unfolding uninstall_from
  uninstall_from-Does facts exe =
      let temporary = join facts.temporary_folder setup_program in
      elim (Bool-cases (is_under exe facts.paths.programs)) [
        | inl e ↦ rw e (hand_over-Does exe temporary)
        | inr e ↦ rw e (elim (Bool-cases (same_path exe temporary)) [
          | inl e' ↦ rw e' (
              Does-then (delete_at_restart exe ∷ []) _ (call_ignored system (delete_at_restart exe))
                _ (Does-call_ignored system _) (remove_all-Does facts))
          | inr e' ↦ rw e' (remove_all-Does facts)
        ])
      ]
