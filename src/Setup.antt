-- ===== src/Setup.antt =====
-- The setup program, setup/src/main.rs. What Windows answers to each request is a function of the requests
-- before it; what the program reads, each once in a run, is a record of facts. A path is the list of its
-- parts. The calls that write a shortcut are one request, and so are the opening of a certificate store
-- and what is done in it. What is printed is left out.
pub mod Signing
pub mod Install
pub mod Uninstall
pub mod Main
pub mod Plan
pub mod Leaves
pub mod Consent
use ak1_driver.Prelude.{
  ℕ, Bool, true, false, ◌&&◌, List, [], ◌∷◌, ◌++◌, Option, none, some, ◌==◌, if◌then◌else◌,
}
use ak1_driver.Prelude.Int.{ℤ, pos, negsuc}
use ak1_driver.Prelude.Text.{Text, codes, text_eq}

abbrev pub FilePath : Type 0
FilePath = List Text

unfoldable pub same_path : FilePath → FilePath → Bool
unfolding text_eq
same_path [] [] = true
same_path (a ∷ p) (b ∷ q) = text_eq a b && same_path p q
same_path _ _ = false

-- `Path::starts_with`, by whole parts.
unfoldable pub is_under : (path folder : FilePath) → Bool
unfolding text_eq
is_under path [] = true
is_under [] (b ∷ folder) = false
is_under (a ∷ path) (b ∷ folder) = text_eq a b && is_under path folder

abbrev pub name : Text
name = codes "Audio Kontrol 1"

abbrev pub inf : Text
inf = codes "ak1acx.inf"

abbrev pub catalog : Text
catalog = codes "ak1acx.cat"

abbrev pub certificate : Text
certificate = codes "ak1-driver-test.cer"

abbrev pub driver_files : List Text
driver_files = inf ∷ codes "ak1acx.sys" ∷ catalog ∷ certificate ∷ []

abbrev pub asio_dll : Text
asio_dll = codes "ak1_asio.dll"

abbrev pub panel : Text
panel = codes "ak1-panel.exe"

abbrev pub setup_program : Text
setup_program = codes "ak1-setup.exe"

-- `CERT_STORES`.
pub data Store : Type 0 where
  root : Store
  trusted_publisher : Store

abbrev pub cert_stores : List Store
cert_stores = root ∷ trusted_publisher ∷ []

pub record Paths : Type 0 where
  pub driver : FilePath
  pub programs : FilePath
  pub shortcut : FilePath

pub data Value : Type 0 where
  string : List Text → Value
  dword : ℕ → Value

-- What changes the machine, but `open_certificate`. A string is given by its parts.
pub data Request : Type 0 where
  turn_test_signing_on : Request
  create_dir : FilePath → Request
  write_file : FilePath → (contents : List ℕ) → Request
  copy_file : (from to : FilePath) → Request
  trust : Store → (contents : List ℕ) → Request
  open_certificate : (contents : List ℕ) → Request
  distrust : Store → (contents : List ℕ) → Request
  delete_driver : (published : Text) → Request
  add_driver : FilePath → Request
  register : (dll : FilePath) → Request
  unregister : (dll : FilePath) → Request
  save_shortcut : (link target : FilePath) → Request
  create_uninstall_key : Request
  set_value : (value_name : Text) → Value → Request
  delete_uninstall_key : Request
  remove_file : FilePath → Request
  remove_dir : FilePath → Request
  spawn : FilePath → Request
  delete_at_restart : FilePath → Request

pub data Error : Type 0 where
  no_files : Error
  secure_boot_on : Error
  declined : Error
  unset : Error
  unread : Error
  usage : Error
  not_started : Request → Error
  exit_code : Request → ℤ → Error
  refused : Request → Error

pub data Result (A : Type 0) : Type 0 where
  ok : A → Result A
  err : Error → Result A

abbrev pub Log : Type 0
Log = List Request

-- What comes of a call on files, certificates or the registry.
pub data Answer : Type 0 where
  succeeded : Answer
  not_found : Answer
  failed : Answer

-- `run` answers the exit code of a program that was started.
pub record System : Type 0 where
  pub run : Log → Request → Option ℤ
  pub call : Log → Request → Answer

-- An action asks for what it logs, oldest first, and keeps the log beside an error.
abbrev pub Action : Type 0 → Type 0
Action A = Log → Result A × Log

abbrev pub continue : {A B : Type 0} → Result A → (A → Action B) → Action B
continue (ok a) f log = f a log
continue (err e) f log = (err e, log)

infixl 20 ◌>>=◌ ◌>>◌
abbrev pub ◌>>=◌ : {A B : Type 0} → Action A → (A → Action B) → Action B
◌>>=◌ m f log = let (r, log') = m log in continue r f log'

abbrev pub ◌>>◌ : {A B : Type 0} → Action A → Action B → Action B
m >> k = m >>= λ _. k

abbrev pub pure : {A : Type 0} → A → Action A
pure a log = (ok a, log)

abbrev pub raise : {A : Type 0} → Error → Action A
raise e log = (err e, log)

abbrev pub lift : {A : Type 0} → Result A → Action A
lift r log = (r, log)

abbrev pub exited : Request → Option ℤ → Result ℤ
exited request none = err (not_started request)
exited request (some code) = ok code

abbrev pub checked : Request → Answer → Result Unit
checked request succeeded = ok tt
checked request not_found = err (refused request)
checked request failed = err (refused request)

abbrev pub checked_found : Request → Answer → Result Unit
checked_found request succeeded = ok tt
checked_found request not_found = ok tt
checked_found request failed = err (refused request)

abbrev pub is_code : ℤ → ℕ → Bool
is_code (pos n) code = n == code
is_code (negsuc n) code = false

module _ (system : System) where
  -- Runs a program and returns its exit code.
  unfoldable pub run : Request → Action ℤ
  run request log = (exited request (system.run log request), log ++ (request ∷ []))

  -- A call that has to succeed.
  unfoldable pub call : Request → Action Unit
  call request log = (checked request (system.call log request), log ++ (request ∷ []))

  -- A call that may find nothing to do.
  unfoldable pub call_found : Request → Action Unit
  call_found request log = (checked_found request (system.call log request), log ++ (request ∷ []))

  -- A call whose outcome is ignored.
  unfoldable pub call_ignored : Request → Action Unit
  call_ignored request log = (ok tt, log ++ (request ∷ []))
