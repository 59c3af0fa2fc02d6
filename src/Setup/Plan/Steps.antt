-- ===== src/Setup/Plan/Steps.antt =====
-- The steps of an installation and of a removal, and that setup/src/main.rs does them in this order.
use ak1_driver.Prelude.{
  ℕ, subst, inl, inr, Bool, true, false, ◌||◌, List, [], ◌∷◌, ◌++◌, append-nil, Option, none, some,
  map, if◌then◌else◌, Bool-cases,
}
use ak1_driver.Prelude.Text.{Text}
use ak1_driver.Setup.{
  FilePath, same_path, inf, certificate, driver_files, asio_dll, panel, setup_program, cert_stores,
  Store, Value, Request, turn_test_signing_on, create_dir, write_file, copy_file, trust,
  delete_driver, add_driver, register, save_shortcut, create_uninstall_key, set_value, Result, ok,
  err, System, Action, ◌>>=◌, pure, lift, run, call, declined, secure_boot_on, unread, no_files,
  is_code,
}
use ak1_driver.Setup.Signing.{
  SigningFacts, Listing, is_active, is_on, confirm, ask_first, decide_signing, decide_package,
  list_packages, enable_test_signing, delete_packages, remove_driver_packages, trust_in,
  trust_certificate,
}
use ak1_driver.Setup.Install.{
  Payload, embedded, or_empty, Facts, join, uninstall_values, Ending, installed, write_files,
  install_driver, copy_setup, register_dll, set_values, register_uninstall, install_package,
  install_programs, install_files, unless_empty, install,
}
use ak1_driver.Setup.Plan.{
  Does, Does-lift, Does-pure, Does-raise, Does-bind, Does-then, Does-run, Does-call,
}

abbrev pub package_names : Listing → List Text
package_names listing = elim (list_packages listing) [ err e ↦ [] | ok names ↦ names ]

abbrev pub signing_steps : SigningFacts → List Request
signing_steps facts = if is_active facts.start_options then [] else turn_test_signing_on ∷ []

abbrev pub written : Payload → FilePath → List Text → List Request
written payload folder =
    map (λ file. write_file (join folder file) (or_empty (embedded payload file)))

abbrev pub copy_steps : Option FilePath → (setup : FilePath) → List Request
copy_steps none setup = []
copy_steps (some exe) setup = if same_path exe setup then [] else copy_file exe setup ∷ []

abbrev pub package_steps : Facts → List Request
package_steps facts =
    (create_dir facts.paths.driver ∷ [])
    ++ (written facts.payload facts.paths.driver driver_files
        ++ (map (λ store. trust store (or_empty (embedded facts.payload certificate))) cert_stores
            ++ (map delete_driver (package_names facts.drivers)
                ++ (add_driver (join facts.paths.driver inf) ∷ []))))

abbrev pub program_steps : Facts → List Request
program_steps facts =
    let setup = join facts.paths.programs setup_program in
    (create_dir facts.paths.programs ∷ [])
    ++ (written facts.payload facts.paths.programs (asio_dll ∷ panel ∷ [])
        ++ (copy_steps facts.exe setup
            ++ ((register (join facts.paths.programs asio_dll) ∷ [])
                ++ ((save_shortcut facts.paths.shortcut (join facts.paths.programs panel) ∷ [])
                    ++ ((create_uninstall_key ∷ [])
                        ++ map (λ v. set_value v.0 v.1) (uninstall_values facts setup))))))

-- Everything an installation asks for.
abbrev pub install_steps : Facts → List Request
install_steps facts = signing_steps facts.signing ++ (package_steps facts ++ program_steps facts)

module _ (system : System) where
  pub end_nil :
      {A : Type 0} (steps : List Request) (m : Action A) → Does (steps ++ []) m → Does steps m
  end_nil steps m d = subst (λ s. Does s m) (append-nil steps) d

  ask_first-Does :
      (facts : SigningFacts) (answer : Bool)
      → Does (turn_test_signing_on ∷ []) (ask_first system facts answer)
  unfolding ask_first
  ask_first-Does facts false = Does-raise _ declined
  ask_first-Does facts true =
      Does-bind (turn_test_signing_on ∷ []) [] (run system turn_test_signing_on) _
        (Does-run system turn_test_signing_on) (λ code. Does-lift (decide_signing code))

  enable_test_signing-Does :
      (facts : SigningFacts) → Does (signing_steps facts) (enable_test_signing system facts)
  unfolding enable_test_signing
  enable_test_signing-Does facts = elim (Bool-cases (is_active facts.start_options)) [
    | inl e ↦ rw e (Does-pure false)
    | inr e ↦ rw e (elim (Bool-cases (is_on facts.secure_boot)) [
      | inl e' ↦ rw e' (Does-raise _ secure_boot_on)
      | inr e' ↦ rw e' (
          Does-bind [] _ (lift (confirm facts.line)) (ask_first system facts)
            (Does-lift (confirm facts.line)) (ask_first-Does facts))
    ])
  ]

  delete_packages-Does :
      (names : List Text) → Does (map delete_driver names) (delete_packages system names)
  unfolding delete_packages
  delete_packages-Does [] = Does-pure false
  delete_packages-Does (driver ∷ drivers) =
      Does-bind (delete_driver driver ∷ []) (map delete_driver drivers)
        (run system (delete_driver driver)) _ (Does-run system (delete_driver driver))
        (λ code.
          Does-bind [] (map delete_driver drivers)
            (lift (decide_package (delete_driver driver) (λ code. is_code code 0) code)) _
            (Does-lift _)
            (λ restart. end_nil _ _ (
              Does-bind (map delete_driver drivers) [] (delete_packages system drivers)
                (λ others. pure (restart || others)) (delete_packages-Does drivers)
                (λ others. Does-pure (restart || others)))))

  pub remove_driver_packages-Does :
      (listing : Listing)
      → Does (map delete_driver (package_names listing)) (remove_driver_packages system listing)
  unfolding remove_driver_packages
  remove_driver_packages-Does listing = listed (list_packages listing)
    where
      listed :
          (r : Result (List Text))
          → Does
              (map delete_driver (elim r [ err e ↦ [] | ok names ↦ names ]))
              (lift r >>= delete_packages system)
      listed (err e) = Does-raise [] e
      listed (ok names) = delete_packages-Does names

  trust_in-Does :
      (contents : List ℕ) (stores : List Store)
      → Does (map (λ store. trust store contents) stores) (trust_in system stores contents)
  unfolding trust_in
  trust_in-Does contents [] = Does-pure tt
  trust_in-Does contents (store ∷ stores) =
      Does-then (trust store contents ∷ []) _ (call system (trust store contents)) _
        (Does-call system _) (trust_in-Does contents stores)

  write_files-Does :
      (payload : Payload) (folder : FilePath) (files : List Text)
      → Does (written payload folder files) (write_files system payload folder files)
  unfolding write_files
  write_files-Does payload folder [] = Does-pure tt
  write_files-Does payload folder (file ∷ files) =
      Does-then (write_file (join folder file) (or_empty (embedded payload file)) ∷ []) _
        (call system (write_file (join folder file) (or_empty (embedded payload file)))) _
        (Does-call system _) (write_files-Does payload folder files)

  install_driver-Does : (path : FilePath) → Does (add_driver path ∷ []) (install_driver system path)
  unfolding install_driver
  install_driver-Does path =
      Does-bind (add_driver path ∷ []) [] (run system (add_driver path)) _ (Does-run system _)
        (λ code. Does-lift _)

  copy_setup-Does :
      (exe : Option FilePath) (setup : FilePath)
      → Does (copy_steps exe setup) (copy_setup system exe setup)
  unfolding copy_setup
  copy_setup-Does none setup = Does-raise [] unread
  copy_setup-Does (some exe) setup = elim (Bool-cases (same_path exe setup)) [
    | inl e ↦ rw e (Does-pure tt)
    | inr e ↦ rw e (Does-call system (copy_file exe setup))
  ]

  register_dll-Does : (dll : FilePath) → Does (register dll ∷ []) (register_dll system dll)
  unfolding register_dll
  register_dll-Does dll =
      Does-bind (register dll ∷ []) [] (run system (register dll)) _ (Does-run system _)
        (λ code. Does-lift _)

  set_values-Does :
      (values : List (Text × Value))
      → Does (map (λ v. set_value v.0 v.1) values) (set_values system values)
  unfolding set_values
  set_values-Does [] = Does-pure tt
  set_values-Does ((value_name, value) ∷ values) =
      Does-then (set_value value_name value ∷ []) _ (call system (set_value value_name value)) _
        (Does-call system _) (set_values-Does values)

  install_package-Does : (facts : Facts) → Does (package_steps facts) (install_package system facts)
  unfolding install_package trust_certificate
  install_package-Does facts =
      let certified = or_empty (embedded facts.payload certificate) in
      Does-then (create_dir facts.paths.driver ∷ []) _ (call system (create_dir facts.paths.driver))
        _ (Does-call system _)
        (Does-then (written facts.payload facts.paths.driver driver_files) _
          (write_files system facts.payload facts.paths.driver driver_files) _
          (write_files-Does facts.payload facts.paths.driver driver_files)
          (Does-then (map (λ store. trust store certified) cert_stores) _
            (trust_in system cert_stores certified) _ (trust_in-Does certified cert_stores)
            (Does-bind (map delete_driver (package_names facts.drivers)) _
              (remove_driver_packages system facts.drivers) _
              (remove_driver_packages-Does facts.drivers)
              (λ replaced. end_nil _ _ (
                Does-bind (add_driver (join facts.paths.driver inf) ∷ []) []
                  (install_driver system (join facts.paths.driver inf))
                  (λ added. pure (replaced || added)) (install_driver-Does _)
                  (λ added. Does-pure (replaced || added)))))))

  install_programs-Does :
      (facts : Facts) → Does (program_steps facts) (install_programs system facts)
  unfolding install_programs register_uninstall
  install_programs-Does facts =
      let setup = join facts.paths.programs setup_program in
      let dll = join facts.paths.programs asio_dll in
      let link = save_shortcut facts.paths.shortcut (join facts.paths.programs panel) in
      Does-then (create_dir facts.paths.programs ∷ []) _
        (call system (create_dir facts.paths.programs)) _ (Does-call system _)
        (Does-then (written facts.payload facts.paths.programs (asio_dll ∷ panel ∷ [])) _
          (write_files system facts.payload facts.paths.programs (asio_dll ∷ panel ∷ [])) _
          (write_files-Does facts.payload facts.paths.programs (asio_dll ∷ panel ∷ []))
          (Does-then (copy_steps facts.exe setup) _ (copy_setup system facts.exe setup) _
            (copy_setup-Does facts.exe setup)
            (Does-then (register dll ∷ []) _ (register_dll system dll) _ (register_dll-Does dll) (
              Does-then (link ∷ []) _ (call system link) _ (Does-call system link) (
                Does-then (create_uninstall_key ∷ []) _ (call system create_uninstall_key) _
                  (Does-call system _) (set_values-Does (uninstall_values facts setup)))))))

  install_files-Does : (facts : Facts) → Does (install_steps facts) (install_files system facts)
  unfolding install_files
  install_files-Does facts =
      Does-bind (signing_steps facts.signing) _ (enable_test_signing system facts.signing) _
        (enable_test_signing-Does facts.signing)
        (λ signing.
          Does-bind (package_steps facts) _ (install_package system facts) _
            (install_package-Does facts)
            (λ package_restart. end_nil _ _ (
              Does-then (program_steps facts) [] (install_programs system facts)
                (pure (installed (signing || package_restart))) (install_programs-Does facts)
                (Does-pure _))))

  payload_cases :
      {steps : List Request} {m : Action Ending} (payload : Payload)
      → Does steps m
      → Does steps (unless_empty payload m)
  unfolding unless_empty
  payload_cases {steps} [] d = Does-raise steps no_files
  payload_cases (_ ∷ _) d = d

  -- Whatever Windows answers and however an installation ends, it has asked for the first of the listed
  -- steps in their order, and for all of them unless it fails.
  pub install-Does : (facts : Facts) → Does (install_steps facts) (install system facts)
  unfolding install
  install-Does facts = payload_cases facts.payload (install_files-Does facts)
