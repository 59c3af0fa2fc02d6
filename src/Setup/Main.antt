-- ===== src/Setup/Main.antt =====
-- `main` and `choose` of setup/src/main.rs.
use ak1_driver.Prelude.{List, [], ◌∷◌, none, some, if◌then◌else◌}
use ak1_driver.Prelude.Text.{Text, codes, text_eq, eq_ignore_case, trim}
use ak1_driver.Setup.{unread, usage, Result, ok, err, System, Action, ◌>>=◌, pure, raise, lift}
use ak1_driver.Setup.Signing.{Line}
use ak1_driver.Setup.Install.{Facts, Ending, quit, install}
use ak1_driver.Setup.Uninstall.{uninstall}

-- What an answered question chooses.
pub data Choice : Type 0 where
  to_install : Choice
  to_uninstall : Choice
  to_quit : Choice
  again : Choice

unfoldable pub choice_of : Text → Choice
unfolding text_eq trim
choice_of answer =
    let word = trim answer in
    if text_eq word (codes "1")
    then to_install
    else if text_eq word (codes "2")
    then to_uninstall
    else if text_eq word (codes "3")
    then to_quit
    else again

-- The loop of `choose` over the lines that are typed; lines that run out are the end of the input.
unfoldable pub choose : List Line → Result Choice
unfolding choice_of
choose [] = ok to_quit
choose (none ∷ lines) = err unread
choose (some none ∷ lines) = ok to_quit
choose (some (some answer) ∷ lines) = elim (choice_of answer) [
  | to_install ↦ ok to_install
  | to_uninstall ↦ ok to_uninstall
  | to_quit ↦ ok to_quit
  | again ↦ choose lines
]

module _ (system : System) where
  unfoldable pub perform : Facts → Choice → Action Ending
  unfolding install uninstall
  perform facts to_install = install system facts
  perform facts to_uninstall = uninstall system facts
  perform facts to_quit = pure quit
  perform facts again = pure quit

  -- The program, given its arguments and the lines that are typed for `choose`.
  unfoldable pub main : Facts → (arguments : List Text) → List Line → Action Ending
  unfolding choose perform eq_ignore_case
  main facts [] lines = lift (choose lines) >>= perform facts
  main facts (flag ∷ []) lines =
      if eq_ignore_case flag (codes "/install")
      then install system facts
      else if eq_ignore_case flag (codes "/uninstall")
      then uninstall system facts
      else raise usage
  main facts (_ ∷ _ ∷ _) lines = raise usage
