-- ===== src/Setup/Leaves/Gone.antt =====
-- What is left after an installation and a removal by setup/src/main.rs. A removal that is started from the program
-- folder copies itself to the temporary folder and hands over to the copy, which the run of the copy cannot delete
-- itself: the file is there until Windows restarts, and is not counted here.
use ak1_driver.Prelude.{
  ℕ, ◌≡◌, refl, sym, ap, ◌∙◌, inl, inr, Bool, true, false, ◌&&◌, not, List, [], ◌∷◌, ◌++◌,
  append-nil, Option, none, some, map, Bool-cases, Option-cases, ◌≢◌, arith,
}
use ak1_driver.Prelude.Text.{Text}
use ak1_driver.Setup.{
  FilePath, same_path, is_under, asio_dll, setup_program, Request, delete_driver, remove_dir,
  delete_uninstall_key, delete_at_restart, call, Result, ok, err, System, Action, Log,
}
use ak1_driver.Setup.Install.{Facts, join, installed, removed, install}
use ak1_driver.Setup.Uninstall.{certificate_of, hand_over, uninstall_from, uninstall}
use ak1_driver.Setup.Plan.{Does, Follows}
use ak1_driver.Setup.Plan.Steps.{package_names, install_steps, install-Does}
use ak1_driver.Setup.Plan.Removal.{
  unregister_steps, distrust_steps, removal_steps, uninstall_steps, uninstall_from-Does,
}
use ak1_driver.Setup.Leaves.{
  Files, IsConfined, Spares, Spares-map, change_all, is_own, change_all-append, change_all-Spares,
  install_steps-Spares,
}

whole_steps :
    {A : Type 0} (steps : List Request) (log : Log) (r : Result A × Log) (a : A)
    → Follows log steps r
    → r.0 ≡ ok a
    → r.1 ≡ log ++ steps
whole_steps {A} steps log (ok b, log') a f e =
    f.logged
    ∙ ap (λ s. log ++ s) (sym (f.split ∙ ap (λ s. f.asked ++ s) f.whole ∙ append-nil f.asked))
whole_steps steps log (err b, log') a f e = absurd (cc e)

-- The requests of an action that succeeds.
pub Does-whole :
    {A : Type 0} (steps : List Request) (m : Action A) (log : Log) (a : A)
    → Does steps m
    → (m log).0 ≡ ok a
    → (m log).1 ≡ log ++ steps
Does-whole steps m log a d e = whole_steps steps log (m log) a (d.at log) e

-- What a removal does to a file outside of the folder where `pnputil` keeps drivers.
module _ (store : Request → Files → Files) (windows : FilePath)
    (confined : IsConfined store windows) (p : FilePath)
    (outside : is_under p windows ≡ false) where
  deletes-Spares : (names : List Text) → Spares store p (map delete_driver names)
  deletes-Spares names =
      Spares-map store p delete_driver names
        (λ name files. confined (delete_driver name) files p outside)

  distrust_steps-Spares :
      (certificate : Option (List ℕ)) → Spares store p (distrust_steps certificate)
  distrust_steps-Spares none = tt
  distrust_steps-Spares (some contents) = ((λ b. refl), ((λ b. refl), ((λ b. refl), tt)))

  unregister_steps-Spares :
      (exists : Bool) (dll : FilePath) → Spares store p (unregister_steps exists dll)
  unregister_steps-Spares false dll = tt
  unregister_steps-Spares true dll = ((λ before. refl), tt)

  removal_lem :
      (facts : Facts) (files : Files)
      → change_all store (removal_steps facts) files p ≡ (
          not (is_under p facts.paths.driver)
          && (not (is_under p facts.paths.programs)
              && (not (same_path p facts.paths.shortcut) && files p)))
  removal_lem facts files =
      let unregistered = unregister_steps facts.dll_exists (join facts.paths.programs asio_dll) in
      let deleted = map delete_driver (package_names facts.drivers) in
      let distrusted = distrust_steps (certificate_of facts) in
      let last = remove_dir facts.paths.driver ∷ delete_uninstall_key ∷ [] in
      let first = λ (p : FilePath). not (same_path p facts.paths.shortcut) && files p in
      let second = λ (p : FilePath).
        not (is_under p facts.paths.programs) && change_all store unregistered first p in
      at_p (
        change_all-append store unregistered
          (remove_dir facts.paths.programs ∷ (deleted ++ (distrusted ++ last))) first)
      ∙ at_p (change_all-append store deleted (distrusted ++ last) second)
      ∙ at_p (change_all-append store distrusted last (change_all store deleted second))
      ∙ ap (λ b. not (is_under p facts.paths.driver) && b)
          (change_all-Spares store p distrusted (change_all store deleted second)
              (distrust_steps-Spares (certificate_of facts))
            ∙ change_all-Spares store p deleted second
                (deletes-Spares (package_names facts.drivers))
            ∙ ap (λ b. not (is_under p facts.paths.programs) && b)
                (change_all-Spares store p unregistered first
                  (unregister_steps-Spares facts.dll_exists (join facts.paths.programs asio_dll))))
    where
      at_p : {f g : Files} → f ≡ g → f p ≡ g p
      at_p e = ap (λ (f : Files). f p) e

  removal_own :
      (facts : Facts) (files : Files)
      → change_all store (removal_steps facts) files p ≡ (not (is_own facts.paths p) && files p)
  removal_own facts files = removal_lem facts files ∙ ground arith

hand_over-removed :
    (system : System) (exe temporary : FilePath) (log : Log) (restart : Bool)
    → (hand_over system exe temporary log).0 ≢ ok (removed restart)
unfolding hand_over call
hand_over-removed system exe temporary log restart = λ h. ground (arith, h)

module _ (store : Request → Files → Files) (windows : FilePath)
    (confined : IsConfined store windows) (p : FilePath) (outside : is_under p windows ≡ false)
    (facts : Facts) (exe : FilePath) where
  removal_begins :
      is_under exe facts.paths.programs ≡ false
      → (before : List Request) × ((uninstall_steps facts exe ≡ before ++ removal_steps facts)
          × Spares store p before)
  removal_begins h = elim (Bool-cases (same_path exe (join facts.temporary_folder setup_program))) [
    | inl e ↦ (delete_at_restart exe ∷ [], (rw h (rw e refl), ((λ before. refl), tt)))
    | inr e ↦ ([], (rw h (rw e refl), tt))
  ]

  not_handed_over :
      (system : System) (log : Log) (restart : Bool)
      → (uninstall_from system facts exe log).0 ≡ ok (removed restart)
      → is_under exe facts.paths.programs ≡ false
  unfolding uninstall_from
  not_handed_over system log restart h = elim (Bool-cases (is_under exe facts.paths.programs)) [
    | inr e ↦ e
    | inl e ↦ absurd (
        hand_over-removed system exe (join facts.temporary_folder setup_program) log restart
          (rw e at h))
  ]

  uninstall_from_files :
      (system : System) (log : Log) (restart : Bool) (files : Files)
      → (uninstall_from system facts exe log).0 ≡ ok (removed restart)
      → change_all store (uninstall_from system facts exe log).1 files p
        ≡ (not (is_own facts.paths p) && change_all store log files p)
  uninstall_from_files system log restart files h =
      let (before, (steps, spared)) = removal_begins (not_handed_over system log restart h) in
      let asked =
        Does-whole (uninstall_steps facts exe) (uninstall_from system facts exe) log
          (removed restart) (uninstall_from-Does system facts exe) h in
      ap (λ (l : Log). change_all store l files p) (asked ∙ ap (λ s. log ++ s) steps)
      ∙ ap (λ (f : Files). f p)
          (change_all-append store log (before ++ removal_steps facts) files
            ∙ change_all-append store before (removal_steps facts) (change_all store log files))
      ∙ removal_own store windows confined p outside facts
          (change_all store before (change_all store log files))
      ∙ ap (λ b. not (is_own facts.paths p) && b)
          (change_all-Spares store p before (change_all store log files) spared)

module _ (store : Request → Files → Files) (windows : FilePath)
    (confined : IsConfined store windows) (p : FilePath)
    (outside : is_under p windows ≡ false) where
  uninstall_files :
      (system : System) (facts : Facts) (log : Log) (restart : Bool) (files : Files)
      → (uninstall system facts log).0 ≡ ok (removed restart)
      → change_all store (uninstall system facts log).1 files p
        ≡ (not (is_own facts.paths p) && change_all store log files p)
  unfolding uninstall
  uninstall_files system facts log restart files h = elim (Option-cases facts.exe) [
    | inl e ↦ absurd (cc (rw (e, uninstall) at h))
    | inr (exe, e) ↦
        rw (e, uninstall)
          (uninstall_from_files store windows confined p outside facts exe system log restart files
            (rw (e, uninstall) at h))
  ]

  install_files_elsewhere :
      (system : System) (facts : Facts) (restart : Bool) (files : Files)
      → (install system facts []).0 ≡ ok (installed restart)
      → is_own facts.paths p ≡ false
      → change_all store (install system facts []).1 files p ≡ files p
  install_files_elsewhere system facts restart files h elsewhere =
      ap (λ (l : Log). change_all store l files p)
        (Does-whole (install_steps facts) (install system facts) [] (installed restart)
          (install-Does system facts) h)
      ∙ change_all-Spares store p (install_steps facts) files
          (install_steps-Spares store windows confined facts p outside elsewhere)

-- After a successful installation and a later successful removal that did not hand over to a copy, with the same
-- folders: outside of the folder where `pnputil` keeps drivers, whatever it does there, the files are those from
-- before the installation, but for the program's places, where none is left.
pub uninstall-install :
    (store : Request → Files → Files) (windows : FilePath)
    → IsConfined store windows
    → (system : System) (facts later : Facts) (restart restart' : Bool) (files : Files)
      (p : FilePath)
    → is_under p windows ≡ false
    → later.paths ≡ facts.paths
    → (install system facts []).0 ≡ ok (installed restart)
    → (uninstall system later (install system facts []).1).0 ≡ ok (removed restart')
    → change_all store (uninstall system later (install system facts []).1).1 files p
      ≡ (not (is_own facts.paths p) && files p)
uninstall-install store windows confined system facts later restart restart' files p outside same h
      h' =
    uninstall_files store windows confined p outside system later (install system facts []).1
      restart' files h'
    ∙ ap (λ paths. not (is_own paths p) && change_all store (install system facts []).1 files p)
        same
    ∙ (elim (Bool-cases (is_own facts.paths p)) [
      | inl e ↦ rw e refl
      | inr e ↦
          rw e (
            install_files_elsewhere store windows confined p outside system facts restart files h e)
    ])
