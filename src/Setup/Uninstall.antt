-- ===== src/Setup/Uninstall.antt =====
-- `uninstall` of setup/src/main.rs.
use ak1_driver.Prelude.{ℕ, Bool, true, false, List, Option, none, some, if◌then◌else◌}
use ak1_driver.Setup.{
  FilePath, same_path, is_under, certificate, asio_dll, setup_program, copy_file, unregister,
  delete_uninstall_key, remove_file, remove_dir, spawn, delete_at_restart, unread, System, Action,
  ◌>>=◌, ◌>>◌, pure, raise, run, call, call_found, call_ignored,
}
use ak1_driver.Setup.Signing.{remove_driver_packages, distrust_certificate}
use ak1_driver.Setup.Install.{Facts, Ending, removed, handed_over, join, embedded}

-- The certificate that is built in, or else the one that the installation kept.
abbrev pub certificate_of : Facts → Option (List ℕ)
certificate_of facts = elim (embedded facts.payload certificate) [
  | none ↦ facts.stored
  | some contents ↦ some contents
]

module _ (system : System) where
  unfoldable pub hand_over : (exe temporary : FilePath) → Action Ending
  unfolding call
  hand_over exe temporary = do
    call system (copy_file exe temporary)
    call system (spawn temporary)
    pure handed_over

  unfoldable pub unregister_dll : (exists : Bool) → FilePath → Action Unit
  unfolding run
  unregister_dll false dll = pure tt
  unregister_dll true dll = do run system (unregister dll); pure tt

  unfoldable pub distrust_if_any : Option (List ℕ) → Action Unit
  unfolding distrust_certificate
  distrust_if_any none = pure tt
  distrust_if_any (some contents) = distrust_certificate system contents

  unfoldable pub remove_all : Facts → Action Ending
  unfolding call_found unregister_dll remove_driver_packages distrust_if_any
  remove_all facts = do
    call_found system (remove_file facts.paths.shortcut)
    unregister_dll facts.dll_exists (join facts.paths.programs asio_dll)
    call_found system (remove_dir facts.paths.programs)
    restart ← remove_driver_packages system facts.drivers
    distrust_if_any (certificate_of facts)
    call_found system (remove_dir facts.paths.driver)
    call_found system delete_uninstall_key
    pure (removed restart)

  unfoldable pub uninstall_from : Facts → (exe : FilePath) → Action Ending
  unfolding is_under same_path hand_over call_ignored remove_all
  uninstall_from facts exe =
      let temporary = join facts.temporary_folder setup_program in
      if is_under exe facts.paths.programs
      then hand_over exe temporary
      else if same_path exe temporary
      then (call_ignored system (delete_at_restart exe) >> remove_all facts)
      else remove_all facts

  unfoldable pub uninstall : Facts → Action Ending
  unfolding uninstall_from
  uninstall facts = elim facts.exe [ none ↦ raise unread | some exe ↦ uninstall_from facts exe ]
