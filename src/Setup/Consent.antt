-- ===== src/Setup/Consent.antt =====
-- When setup/src/main.rs leaves the machine alone.
use ak1_driver.Prelude.{◌≡◌, ◌≢◌, ◌⊎◌, inl, inr, refl, Bool, true, false, [], ◌∷◌, Bool-cases}
use ak1_driver.Setup.{Error, secure_boot_on, no_files, Result, ok, err, Log, System, lift, ◌>>=◌}
use ak1_driver.Setup.Signing.{
  SigningFacts, is_active, is_on, confirm, ask_first, enable_test_signing,
}
use ak1_driver.Setup.Install.{Payload, Facts, install_files, unless_empty, install}

-- Windows cannot load the driver as it runs, and either cannot be told to or its user did not agree.
abbrev pub IsRefused : SigningFacts → Type 0
IsRefused facts =
    (is_active facts.start_options ≡ false)
    × ((is_on facts.secure_boot ≡ true) ⊎ (confirm facts.line ≢ ok true))

confirmed_refused :
    (system : System) (facts : SigningFacts) (log : Log) (r : Result Bool)
    → r ≢ ok true
    → (e : Error) × ((lift r >>= ask_first system facts) log ≡ (err e, log))
unfolding ask_first
confirmed_refused system facts log (err e) h = (e, refl)
confirmed_refused system facts log (ok false) h = (_, refl)
confirmed_refused system facts log (ok true) h = absurd (h refl)

enable_refused :
    (system : System) (facts : SigningFacts) (log : Log)
    → IsRefused facts
    → (e : Error) × (enable_test_signing system facts log ≡ (err e, log))
unfolding enable_test_signing
enable_refused system facts log (inactive, inl on) = (secure_boot_on, rw inactive (rw on refl))
enable_refused system facts log (inactive, inr h) = elim (Bool-cases (is_on facts.secure_boot)) [
  | inl on ↦ (secure_boot_on, rw inactive (rw on refl))
  | inr off ↦ rw inactive (rw off (confirmed_refused system facts log (confirm facts.line) h))
]

files_refused :
    (system : System) (facts : Facts) (log : Log)
    → IsRefused facts.signing
    → (e : Error) × (install_files system facts log ≡ (err e, log))
unfolding install_files
files_refused system facts log h =
    let (e, stopped) = enable_refused system facts.signing log h in (e, rw stopped refl)

-- If test signing is off, an installation on a machine with Secure Boot, or by a user who does not agree,
-- fails and asks Windows for nothing.
pub install_refused :
    (system : System) (facts : Facts) (log : Log)
    → IsRefused facts.signing
    → (e : Error) × (install system facts log ≡ (err e, log))
unfolding install
install_refused system facts log h =
    payload_refused facts.payload (files_refused system facts log h)
  where
    payload_refused :
        (payload : Payload)
        → (e : Error) × (install_files system facts log ≡ (err e, log))
        → (e : Error) × (unless_empty payload (install_files system facts) log ≡ (err e, log))
    payload_refused [] r = (no_files, unfold unless_empty in refl)
    payload_refused (_ ∷ _) r = unfold unless_empty in r
