-- ===== src/Panel/Template/Layout.antt =====
-- The dialogs of panel/src/template.rs, word by word: a reader of the layout gets back what was put in.
use ak1_driver.Prelude.{
  ℕ, suc, ◌+◌, ◌-◌, ◌%◌, ◌^◌, ◌<◌, ◌≡◌, inl, inr, refl, sym, ap, ap₂, ◌∙◌, List, [], ◌∷◌, ◌++◌,
  append_assoc, append-nil, some, map, length, drop, length-append, ◌==◌, if◌then◌else◌, Bool-cases,
  arith,
}
use ak1_driver.Panel.Template.{Template, padding, Item, item_words, item, add_all}
use ak1_driver.Panel.Template.Reads.{read_item, read_items, IsItem, shown, read_item-item_words}

-- What goes before an item at the word `at`.
unfoldable pub gap : (at : ℕ) → List ℕ
gap at = if at % 2 == 1 then 0 ∷ [] else []

-- The items from the word `at` on.
unfoldable pub laid : (at : ℕ) → List Item → List ℕ
laid at [] = []
laid at (i ∷ rest) = (gap at ++ item_words i) ++ laid (at + length (gap at ++ item_words i)) rest

-- A template whose header's first four words are `a` to `d`.
abbrev pub headed : (a b c d n : ℕ) → List ℕ → Template
headed a b c d n post = record { words = a ∷ b ∷ c ∷ d ∷ n ∷ post; items = n }

module _ (a b c d : ℕ) where
  item_lem :
      (post : List ℕ) (n : ℕ) (i : Item)
      → n + 1 < 2 ^ 16
      → item (headed a b c d n post) i
        ≡ headed a b c d (n + 1) (post ++ (gap (5 + length post) ++ item_words i))
  unfolding item padding gap
  item_lem post n i h =
      ap₂ (λ k at. headed a b c d k (post ++ (gap at ++ item_words i)))
        (let e : (n + 1) % 2 ^ 16 ≡ n + 1 = omega arith in e)
        (let e : length (a ∷ b ∷ c ∷ d ∷ n ∷ post) ≡ 5 + length post = omega arith in e)

  pub add_all_lem :
      (post : List ℕ) (n : ℕ) (items : List Item)
      → n + length items < 2 ^ 16
      → add_all (headed a b c d n post) items
        ≡ headed a b c d (n + length items) (post ++ laid (5 + length post) items)
  unfolding laid
  add_all_lem post n [] h =
      ap₂ (headed a b c d) (let e : n ≡ n + 0 = omega arith in e) (sym (append-nil post))
  add_all_lem post n (i ∷ rest) h =
      let w = gap (5 + length post) ++ item_words i in
      ap (λ t. add_all t rest) (item_lem post n i (omega (arith, h)))
      ∙ add_all_lem (post ++ w) (n + 1) rest (omega (arith, h))
      ∙ ap₂ (headed a b c d)
          (let e : n + 1 + length rest ≡ n + suc (length rest) = omega arith in e)
          (append_assoc post w (laid (5 + length (post ++ w)) rest)
            ∙ ap (λ at. post ++ (w ++ laid at rest)) (omega (arith, length-append post w)))

abbrev pub AllItems : List Item → Type 0
AllItems [] = Unit
AllItems (i ∷ rest) = IsItem i × AllItems rest

aligned : (at : ℕ) (words : List ℕ) → drop (at % 2) (gap at ++ words) ≡ words
unfolding gap
aligned at words = elim (Bool-cases (at % 2 == 1)) [
  | inl e ↦ rw e (ap (λ k. drop k (0 ∷ words)) (let k : at % 2 ≡ 1 = ground (arith, e) in k))
  | inr e ↦ rw e (ap (λ k. drop k words) (let k : at % 2 ≡ 0 = ground (arith, e) in k))
]

pub read_items-laid :
    (at : ℕ) (items : List Item) (tail : List ℕ)
    → AllItems items
    → read_items (length items) at (laid at items ++ tail) ≡ some (map shown items)
unfolding read_items
read_items-laid at [] tail h = refl
read_items-laid at (i ∷ rest) tail h =
    let w = gap at ++ item_words i in
    let left = laid (at + length w) rest ++ tail in
    let whole : laid at (i ∷ rest) ++ tail ≡ w ++ left =
      unfold laid in append_assoc w (laid (at + length w) rest) tail in
    let first : read_item (drop (at % 2) (w ++ left)) ≡ some (shown i, left) =
      ap (λ l. read_item (drop (at % 2) l)) (append_assoc (gap at) (item_words i) left)
      ∙ ap read_item (aligned at (item_words i ++ left))
      ∙ read_item-item_words i left h.0 in
    let place : at + (length (w ++ left) - length left) ≡ at + length w =
      omega (arith, length-append w left) in
    rw whole (rw first (rw place (rw (read_items-laid (at + length w) rest tail h.1) refl)))
