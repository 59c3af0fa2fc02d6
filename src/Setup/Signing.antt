-- ===== src/Setup/Signing.antt =====
-- Test signing, driver packages and certificates of setup/src/main.rs.
use ak1_driver.Prelude.{
  ℕ, Bool, true, false, ◌&&◌, ◌||◌, List, [], ◌∷◌, Option, none, some, map, if◌then◌else◌, ◌==◌,
}
use ak1_driver.Prelude.Int.{ℤ}
use ak1_driver.Prelude.Text.{
  Text, codes, lower, starts_with, ends_with, contains, eq_ignore_case, trim, split_whitespace,
}
use ak1_driver.Setup.{
  catalog, cert_stores, Store, Request, turn_test_signing_on, trust, open_certificate, distrust,
  delete_driver, secure_boot_on, declined, exit_code, Result, ok, err, System, Action, ◌>>=◌, ◌>>◌,
  pure, raise, lift, is_code, run, call, unread,
}

-- The answer to a question: an error, the end of the input, or a line.
abbrev pub Line : Type 0
Line = Option (Option Text)

-- What `enable_test_signing` reads.
pub record SigningFacts : Type 0 where
  pub start_options : Option Text
  pub secure_boot : Option ℕ
  pub line : Line

unfoldable pub has_test_signing : List Text → Bool
unfolding eq_ignore_case
has_test_signing [] = false
has_test_signing (word ∷ rest) = eq_ignore_case word (codes "TESTSIGNING") || has_test_signing rest

-- Windows started with test signing on.
unfoldable pub is_active : Option Text → Bool
unfolding has_test_signing split_whitespace
is_active none = false
is_active (some options) = has_test_signing (split_whitespace options)

abbrev pub is_on : Option ℕ → Bool
is_on none = false
is_on (some value) = value == 1

unfoldable pub is_yes : Option Text → Bool
unfolding eq_ignore_case trim
is_yes none = false
is_yes (some answer) = eq_ignore_case (trim answer) (codes "y")

unfoldable pub confirm : Line → Result Bool
unfolding is_yes
confirm none = err unread
confirm (some answer) = ok (is_yes answer)

abbrev pub decide_signing : ℤ → Result Bool
decide_signing code = if is_code code 0 then ok true else err (exit_code turn_test_signing_on code)

-- Whether an exit code of pnputil asks for a restart; codes of `fine` need none.
abbrev pub decide_package : Request → (fine : ℤ → Bool) → ℤ → Result Bool
decide_package request fine code =
    if fine code
    then ok false
    else if is_code code 3010
    then ok true
    else err (exit_code request code)

-- A file in the folder of INFs; one that cannot be read is empty.
pub record Entry : Type 0 where
  pub file_name : Text
  pub contents : Text

-- The listing, where `none` is an error.
abbrev pub Listing : Type 0
Listing = Option (List (Option Entry))

unfoldable pub is_package : Entry → Bool
unfolding lower starts_with ends_with contains
is_package entry =
    let file_name = map lower entry.file_name in
    starts_with file_name (codes "oem")
    && ends_with file_name (codes ".inf")
    && contains (map lower entry.contents) catalog

-- `published_driver_packages`.
unfoldable pub published : List (Option Entry) → Result (List Text)
unfolding is_package lower
published [] = ok []
published (none ∷ entries) = err unread
published (some entry ∷ entries) = elim (published entries) [
  | err e ↦ err e
  | ok names ↦ if is_package entry then ok (map lower entry.file_name ∷ names) else ok names
]

unfoldable pub list_packages : Listing → Result (List Text)
unfolding published
list_packages none = err unread
list_packages (some entries) = published entries

module _ (system : System) where
  unfoldable pub ask_first : SigningFacts → Bool → Action Bool
  unfolding run
  ask_first facts false = raise declined
  ask_first facts true = do code ← run system turn_test_signing_on; lift (decide_signing code)

  -- Whether Windows has to restart for it.
  unfoldable pub enable_test_signing : SigningFacts → Action Bool
  unfolding is_active confirm ask_first
  enable_test_signing facts =
      if is_active facts.start_options
      then pure false
      else if is_on facts.secure_boot
      then raise secure_boot_on
      else (lift (confirm facts.line) >>= ask_first facts)

  unfoldable pub delete_packages : List Text → Action Bool
  unfolding run
  delete_packages [] = pure false
  delete_packages (driver ∷ drivers) = do
    code ← run system (delete_driver driver)
    restart ← lift (decide_package (delete_driver driver) (λ code. is_code code 0) code)
    others ← delete_packages drivers
    pure (restart || others)

  unfoldable pub remove_driver_packages : Listing → Action Bool
  unfolding list_packages delete_packages
  remove_driver_packages listing = lift (list_packages listing) >>= delete_packages

  unfoldable pub trust_in : List Store → List ℕ → Action Unit
  unfolding call
  trust_in [] contents = pure tt
  trust_in (store ∷ stores) contents = do
    call system (trust store contents)
    trust_in stores contents

  unfoldable pub trust_certificate : List ℕ → Action Unit
  unfolding trust_in
  trust_certificate = trust_in cert_stores

  unfoldable pub distrust_in : List Store → List ℕ → Action Unit
  unfolding call
  distrust_in [] contents = pure tt
  distrust_in (store ∷ stores) contents = do
    call system (distrust store contents)
    distrust_in stores contents

  unfoldable pub distrust_certificate : List ℕ → Action Unit
  unfolding call distrust_in
  distrust_certificate contents = do
    call system (open_certificate contents)
    distrust_in cert_stores contents
