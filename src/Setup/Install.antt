-- ===== src/Setup/Install.antt =====
-- `install` of setup/src/main.rs, what a run of the program reads, and how it ends.
use ak1_driver.Prelude.{ℕ, Bool, ◌||◌, List, [], ◌∷◌, ◌++◌, Option, none, some, if◌then◌else◌}
use ak1_driver.Prelude.Text.{Text, codes, text_eq}
use ak1_driver.Setup.{
  FilePath, same_path, name, inf, certificate, driver_files, asio_dll, panel, setup_program, Paths,
  Value, string, dword, create_dir, write_file, copy_file, add_driver, register, save_shortcut,
  create_uninstall_key, set_value, no_files, unset, unread, exit_code, Result, ok, err, System,
  Action, ◌>>=◌, ◌>>◌, pure, raise, lift, is_code, run, call,
}
use ak1_driver.Setup.Signing.{
  SigningFacts, Listing, decide_package, enable_test_signing, remove_driver_packages,
  trust_certificate,
}

-- The files built into the program.
abbrev pub Payload : Type 0
Payload = List (Text × List ℕ)

unfoldable pub embedded : Payload → Text → Option (List ℕ)
unfolding text_eq
embedded [] file = none
embedded ((other, contents) ∷ files) file =
    if text_eq other file then some contents else embedded files file

abbrev pub or_empty : Option (List ℕ) → List ℕ
or_empty none = []
or_empty (some contents) = contents

-- What a run reads: the environment is in `paths`; `exe` is the running program's file, `stored` the
-- certificate kept in the driver's folder.
pub record Facts : Type 0 where
  pub payload : Payload
  pub version : Text
  pub paths : Paths
  pub temporary_folder : FilePath
  pub signing : SigningFacts
  pub drivers : Listing
  pub exe : Option FilePath
  pub dll_exists : Bool
  pub stored : Option (List ℕ)

-- `Paths::new`, from the three variables of the environment.
unfoldable pub new_paths :
    (system_drive program_files program_data : Option FilePath) → Result Paths
new_paths none _ _ = err unset
new_paths (some drive) none _ = err unset
new_paths (some drive) (some files) none = err unset
new_paths (some drive) (some files) (some shared) = ok (record {
  driver = drive ++ (codes "ak1" ∷ []);
  programs = files ++ (name ∷ []);
  shortcut =
      shared
      ++ (codes "Microsoft"
          ∷ codes "Windows"
          ∷ codes "Start Menu"
          ∷ codes "Programs"
          ∷ codes "Audio Kontrol 1 Control Panel.lnk"
          ∷ []);
})

abbrev pub join : FilePath → Text → FilePath
join folder file = folder ++ (file ∷ [])

-- The values of the uninstall key, in their order.
abbrev pub uninstall_values : Facts → FilePath → List (Text × Value)
uninstall_values facts setup =
    (codes "DisplayName", string (codes "Audio Kontrol 1 driver" ∷ []))
    ∷ (codes "DisplayVersion", string (facts.version ∷ []))
    ∷ (codes "DisplayIcon", string (join facts.paths.programs panel))
    ∷ (codes "InstallLocation", string facts.paths.programs)
    ∷ (codes "UninstallString", string (setup ++ (codes "/uninstall" ∷ [])))
    ∷ (codes "NoModify", dword 1)
    ∷ (codes "NoRepair", dword 1)
    ∷ []

-- How a run ends that does not fail.
pub data Ending : Type 0 where
  installed : (restart : Bool) → Ending
  removed : (restart : Bool) → Ending
  handed_over : Ending
  quit : Ending

unfoldable pub unless_empty : Payload → Action Ending → Action Ending
unless_empty [] action = raise no_files
unless_empty (_ ∷ _) action = action

module _ (system : System) where
  -- Each of the files, as it is built in, into the folder.
  unfoldable pub write_files : Payload → FilePath → List Text → Action Unit
  unfolding call embedded
  write_files payload folder [] = pure tt
  write_files payload folder (file ∷ files) = do
    call system (write_file (join folder file) (or_empty (embedded payload file)))
    write_files payload folder files

  -- 259: no card is plugged in.
  unfoldable pub install_driver : FilePath → Action Bool
  unfolding run
  install_driver path = do
    code ← run system (add_driver path)
    lift (decide_package (add_driver path) (λ code. is_code code 0 || is_code code 259) code)

  unfoldable pub copy_setup : Option FilePath → (setup : FilePath) → Action Unit
  unfolding same_path call
  copy_setup none setup = raise unread
  copy_setup (some exe) setup =
      if same_path exe setup then pure tt else call system (copy_file exe setup)

  unfoldable pub register_dll : FilePath → Action Unit
  unfolding run
  register_dll dll = do
    code ← run system (register dll)
    lift (if is_code code 0 then ok tt else err (exit_code (register dll) code))

  unfoldable pub set_values : List (Text × Value) → Action Unit
  unfolding call
  set_values [] = pure tt
  set_values ((value_name, value) ∷ values) = do
    call system (set_value value_name value)
    set_values values

  unfoldable pub register_uninstall : Facts → (setup : FilePath) → Action Unit
  unfolding call set_values
  register_uninstall facts setup = do
    call system create_uninstall_key
    set_values (uninstall_values facts setup)

  unfoldable pub install_package : Facts → Action Bool
  unfolding call write_files trust_certificate remove_driver_packages install_driver
  install_package facts = do
    call system (create_dir facts.paths.driver)
    write_files facts.payload facts.paths.driver driver_files
    trust_certificate system (or_empty (embedded facts.payload certificate))
    replaced ← remove_driver_packages system facts.drivers
    added ← install_driver (join facts.paths.driver inf)
    pure (replaced || added)

  unfoldable pub install_programs : Facts → Action Unit
  unfolding call write_files copy_setup register_dll register_uninstall
  install_programs facts = do
    call system (create_dir facts.paths.programs)
    write_files facts.payload facts.paths.programs (asio_dll ∷ panel ∷ [])
    copy_setup facts.exe (join facts.paths.programs setup_program)
    register_dll (join facts.paths.programs asio_dll)
    call system (save_shortcut facts.paths.shortcut (join facts.paths.programs panel))
    register_uninstall facts (join facts.paths.programs setup_program)

  unfoldable pub install_files : Facts → Action Ending
  unfolding enable_test_signing install_package install_programs
  install_files facts = do
    signing ← enable_test_signing system facts.signing
    package_restart ← install_package facts
    install_programs facts
    pure (installed (signing || package_restart))

  unfoldable pub install : Facts → Action Ending
  unfolding install_files unless_empty
  install facts = unless_empty facts.payload (install_files facts)
