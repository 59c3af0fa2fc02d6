-- ===== src/Tests/Setup.antt =====
-- Theorems on setup/src at concrete inputs.
use ak1_driver.Prelude.{◌≡◌, if◌then◌else◌, refl, true, false, ◌&&◌, not, inl, [], ◌∷◌, none, some}
use ak1_driver.Prelude.Int.{pos}
use ak1_driver.Prelude.Text.{codes}
use ak1_driver.Setup.{Paths, System, Error, err, succeeded, FilePath, Request, is_under}
use ak1_driver.Setup.Signing.{is_active}
use ak1_driver.Setup.Install.{Facts, install}
use ak1_driver.Setup.Uninstall.{uninstall}
use ak1_driver.Setup.Plan.{Does}
use ak1_driver.Setup.Plan.Steps.{install_steps, install-Does}
use ak1_driver.Setup.Leaves.{change_all, is_own, Files, IsConfined}
use ak1_driver.Setup.Leaves.Gone.{uninstall-install}
use ak1_driver.Setup.Consent.{install_refused}

abbrev places : Paths
places = record {
  driver = codes "C:" ∷ codes "ak1" ∷ [];
  programs = codes "C:" ∷ codes "Program Files" ∷ codes "Audio Kontrol 1" ∷ [];
  shortcut = codes "C:" ∷ codes "Panel.lnk" ∷ [];
}

-- A user who agrees to test signing, and one older driver.
abbrev facts : Facts
facts = record {
  payload = (codes "ak1acx.inf", 1 ∷ 2 ∷ []) ∷ [];
  version = codes "1.0";
  paths = places;
  temporary_folder = codes "C:" ∷ codes "Temp" ∷ [];
  signing = record {
    start_options = some (codes " NOEXECUTE=OPTIN");
    secure_boot = some 0;
    line = some (some (codes "Y "));
  };
  drivers =
      some (some (record { file_name = codes "OEM7.inf"; contents = codes "AK1ACX.CAT" }) ∷ []);
  exe = some (codes "D:" ∷ codes "ak1-setup.exe" ∷ []);
  dll_exists = true;
  stored = none;
}

abbrev later : Facts
later = record facts { exe = some (codes "C:" ∷ codes "Temp" ∷ codes "ak1-setup.exe" ∷ []) }

-- A machine with Secure Boot.
abbrev secure : Facts
secure = record facts {
  signing = record { start_options = none; secure_boot = some 1; line = none };
}

-- Windows does everything it is asked for.
abbrev willing : System
willing = record { run = λ log request. some (pos 0); call = λ log request. succeeded }

install-Does_example : Does (install_steps facts) (install willing facts)
install-Does_example = install-Does willing facts

-- Wherever one looks there is a file.
abbrev every_file : Files
every_file p = true

abbrev hosts : FilePath
hosts = codes "C:" ∷ codes "hosts" ∷ []

abbrev windows : FilePath
windows = codes "C:" ∷ codes "Windows" ∷ []

-- All that is kept there goes.
abbrev emptied : Request → Files → Files
emptied request files p = if is_under p windows then false else files p

emptied-IsConfined : IsConfined emptied windows
emptied-IsConfined request files p h = rw h refl

uninstall-install_example :
    change_all emptied (uninstall willing later (install willing facts []).1).1 every_file hosts
    ≡ (not (is_own places hosts) && every_file hosts)
uninstall-install_example =
    uninstall-install emptied windows emptied-IsConfined willing facts later true false every_file
      hosts (unfold is_under in refl) refl (unfold install in refl)
      (unfold install uninstall in refl)

install_refused_example : (e : Error) × (install willing secure [] ≡ (err e, []))
install_refused_example = install_refused willing secure [] (unfold is_active in refl, inl refl)
