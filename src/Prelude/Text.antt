-- ===== src/Prelude/Text.antt =====
-- Texts as lists of their characters, which are ASCII where the program tells them apart: the functions of
-- the standard library that the modules share.
use Prim.Native.Nat.{ℕ, ◌+◌, ◌-◌}
use Prim.Native.String.{String}
use Prim.Native.Char.{code}
use mathlib.Core.Path.{◌≡◌, refl}
use mathlib.Core.Bool.{Bool, true, false, ◌&&◌, ◌||◌}
use mathlib.Core.List.{List, [], ◌∷◌, ◌++◌, map, reverse}
use native.Mathlib.Omega.{arith}
use ak1_driver.Prelude.Tests.{leb, ltb, ◌==◌, if◌then◌else◌}
use ak1_driver.Prelude.Lists.{length, drop}

abbrev pub Text : Type 0
Text = List ℕ

abbrev pub codes : String → Text
codes String.[] = []
codes (String.◌∷◌ c s) = code c ∷ codes s

-- `to_ascii_lowercase` of a character.
unfoldable pub lower : ℕ → ℕ
lower c = if leb 65 c && leb c 90 then c + 32 else c

unfoldable pub starts_with : (text prefix : List ℕ) → Bool
starts_with text [] = true
starts_with [] (p ∷ prefix) = false
starts_with (c ∷ text) (p ∷ prefix) = c == p && starts_with text prefix

unfoldable pub contains : (text part : List ℕ) → Bool
unfolding starts_with
contains [] part = starts_with [] part
contains (c ∷ text) part = starts_with (c ∷ text) part || contains text part

unfoldable pub ends_with : (text suffix : List ℕ) → Bool
unfolding starts_with
ends_with text suffix =
    if ltb (length text) (length suffix)
    then false
    else starts_with (drop (length text - length suffix) text) suffix

unfoldable pub text_eq : Text → Text → Bool
text_eq [] [] = true
text_eq (a ∷ s) (b ∷ t) = a == b && text_eq s t
text_eq _ _ = false

-- `eq_ignore_ascii_case`.
unfoldable pub eq_ignore_case : Text → Text → Bool
unfolding text_eq lower
eq_ignore_case s t = text_eq (map lower s) (map lower t)

abbrev pub is_space : ℕ → Bool
is_space c = c == 32 || (leb 9 c && leb c 13)

unfoldable pub trim_start : Text → Text
trim_start [] = []
trim_start (c ∷ s) = if is_space c then trim_start s else c ∷ s

unfoldable pub trim : Text → Text
unfolding trim_start
trim s = reverse (trim_start (reverse (trim_start s)))

abbrev with_word : (word : Text) → List Text → List Text
with_word [] rest = rest
with_word (c ∷ word) rest = (c ∷ word) ∷ rest

-- The words after the part `before` of one.
unfoldable pub words_from : (before : Text) → Text → List Text
words_from before [] = with_word before []
words_from before (c ∷ s) =
    let next = with_word before (words_from [] s) in
    let rest = words_from (before ++ (c ∷ [])) s in if is_space c then next else rest

-- `split_whitespace`.
unfoldable pub split_whitespace : Text → List Text
unfolding words_from
split_whitespace s = words_from [] s

pub text_eq_refl : (s : Text) → text_eq s s ≡ true
unfolding text_eq
text_eq_refl [] = refl
text_eq_refl (a ∷ s) = ground (arith, text_eq_refl s)

pub words :
    split_whitespace (codes " NOEXECUTE=OPTIN  TESTSIGNING")
    ≡ codes "NOEXECUTE=OPTIN" ∷ codes "TESTSIGNING" ∷ []
unfolding split_whitespace
words = refl
