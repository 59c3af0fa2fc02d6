-- ===== src/Host/Duplex/Search.antt =====
-- `find_device` of asio/src/duplex.rs: which of the system's device paths is the card's. A path is a list
-- of UTF-16 units, taken to be valid; both texts it is held against are ASCII. What the system answers to the two calls of each turn is an argument.
use ak1_driver.Prelude.{
  ℕ, zero, suc, ◌≡◌, refl, Bool, true, false, ◌&&◌, List, [], ◌∷◌, ◌++◌, Option, none, some, map,
  ◌⊎◌, inl, inr, ◌==◌, if◌then◌else◌, replicate,
}
use ak1_driver.Prelude.Text.{lower, contains, ends_with}
use ak1_driver.Host.Duplex.{WinError}

-- `vid_17cc&pid_0815`.
abbrev pub usb_vid_pid : List ℕ
usb_vid_pid =
    118 ∷ 105 ∷ 100 ∷ 95 ∷ 49 ∷ 55 ∷ 99 ∷ 99 ∷ 38 ∷ 112 ∷ 105 ∷ 100 ∷ 95 ∷ 48 ∷ 56 ∷ 49 ∷ 53 ∷ []

-- `\output12`.
abbrev pub circuit : List ℕ
circuit = 92 ∷ 111 ∷ 117 ∷ 116 ∷ 112 ∷ 117 ∷ 116 ∷ 49 ∷ 50 ∷ []

-- The path of the card's filter, in any case of its letters.
unfoldable pub is_card : List ℕ → Bool
unfolding lower contains ends_with
is_card path = contains (map lower path) usb_vid_pid && ends_with (map lower path) circuit

-- `split` at each 0, from the part `before` on.
unfoldable pub split_from : (before : List ℕ) → List ℕ → List (List ℕ)
split_from before [] = before ∷ []
split_from before (c ∷ list) =
    if c == 0 then before ∷ split_from [] list else split_from (before ++ (c ∷ [])) list

unfoldable pub find_card : List (List ℕ) → Option (List ℕ)
unfolding is_card
find_card [] = none
find_card (path ∷ paths) = if is_card path then some path else find_card paths

-- What a turn of the loop is answered: an error of either call, that the list is longer by now than was
-- measured, or the list.
pub data Listing : Type 0 where
  size_failed : WinError → Listing
  grown : Listing
  list_failed : WinError → Listing
  listed : List ℕ → Listing

pub data Search : Type 0 where
  ended : Option (List ℕ) → Search
  search_failed : WinError → Search
  searching : Search

-- `searching`: the answers end before the loop does.
unfoldable pub find_device : List Listing → Search
unfolding split_from find_card
find_device [] = searching
find_device (size_failed e ∷ answers) = search_failed e
find_device (grown ∷ answers) = find_device answers
find_device (list_failed e ∷ answers) = search_failed e
find_device (listed list ∷ answers) = ended (find_card (split_from [] list))

abbrev pub IsOne : List ℕ → List (List ℕ) → Type 0
IsOne path [] = true ≡ false
IsOne path (p ∷ paths) = (path ≡ p) ⊎ IsOne path paths

abbrev pub NoneIsCard : List (List ℕ) → Type 0
NoneIsCard [] = Unit
NoneIsCard (p ∷ paths) = (is_card p ≡ false) × NoneIsCard paths

-- What is found is a listed path of the card's; nothing is found only if none is.
abbrev pub IsRight : List (List ℕ) → Option (List ℕ) → Type 0
IsRight paths none = NoneIsCard paths
IsRight paths (some path) = IsOne path paths × (is_card path ≡ true)

if-IsRight :
    (p : List ℕ) (paths : List (List ℕ)) (b : Bool)
    → is_card p ≡ b
    → (found : Option (List ℕ)) → IsRight paths found
    → IsRight (p ∷ paths) (if b then some p else found)
if-IsRight p paths true e found right = (inl refl, e)
if-IsRight p paths false e none right = (e, right)
if-IsRight p paths false e (some path) right = (inr right.0, right.1)

find_card-IsRight : (paths : List (List ℕ)) → IsRight paths (find_card paths)
unfolding find_card
find_card-IsRight [] = tt
find_card-IsRight (p ∷ paths) =
    if-IsRight p paths (is_card p) refl (find_card paths) (find_card-IsRight paths)

-- However often the list grows before it is read, the search ends with the list that is read: with one of
-- its paths that is the card's, or with none if none of them is.
pub find_device-IsRight :
    (n : ℕ) (list : List ℕ) (rest : List Listing)
    → (found : Option (List ℕ)) × ((find_device (replicate n grown ++ (listed list ∷ rest))
          ≡ ended found)
        × IsRight (split_from [] list) found)
unfolding find_device
find_device-IsRight zero list rest =
    (find_card (split_from [] list), (refl, find_card-IsRight (split_from [] list)))
find_device-IsRight (suc n) list rest = find_device-IsRight n list rest
