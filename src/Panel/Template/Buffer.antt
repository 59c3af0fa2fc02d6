-- ===== src/Panel/Template/Buffer.antt =====
-- The whole buffer that panel/src/template.rs hands to Windows.
use ak1_driver.Prelude.{
  ℕ, ◌+◌, ◌%◌, ◌^◌, ◌<◌, ◌≡◌, refl, ap, ap₂, ◌∙◌, List, [], ◌∷◌, ◌++◌, some, map, length, ◌==◌,
  Bool-cases, inl, inr, arith,
}
use ak1_driver.Prelude.Text.{Text}
use ak1_driver.Panel.Template.{
  Class, button, static, combo_box, named, dword, terminated, shorts, class_words, Item, item_words,
  build,
}
use ak1_driver.Panel.Template.Reads.{words_of, read_template, AllUnits, IsClass, IsItem, shown}
use ak1_driver.Panel.Template.Layout.{gap, laid, AllItems}
use ak1_driver.Panel.Template.Stream.{
  Header, IsHeader, high, post, read_template-words, said, template, template_lem, texts,
}

abbrev AllWords : List ℕ → Type 0
AllWords [] = Unit
AllWords (w ∷ words) = (w < 2 ^ 16) × AllWords words

-- What is left of the last double word.
abbrev pub rest_of : List ℕ → List ℕ
rest_of [] = []
rest_of (low ∷ []) = 0 ∷ []
rest_of (low ∷ top ∷ rest) = rest_of rest

words_of-build : (words : List ℕ) → AllWords words → words_of (build words) ≡ words ++ rest_of words
unfolding build
words_of-build [] h = refl
words_of-build (low ∷ []) h = ap₂ (λ a b. a ∷ b ∷ []) (omega (arith, h.0)) (omega (arith, h.0))
words_of-build (low ∷ top ∷ rest) h =
    ap₂ (λ a l. a ∷ l) (omega (arith, h.0, h.1.0))
      (ap₂ (λ a l. a ∷ l) (omega (arith, h.0, h.1.0)) (words_of-build rest h.1.1))

AllWords-append :
    (first second : List ℕ) → AllWords first → AllWords second → AllWords (first ++ second)
AllWords-append [] second h k = k
AllWords-append (w ∷ first) second h k = (h.0, AllWords-append first second h.1 k)

terminated-AllWords : (text : Text) → AllUnits text → AllWords (terminated text)
unfolding terminated
terminated-AllWords [] h = (omega arith, tt)
terminated-AllWords (c ∷ text) h = (omega (arith, h.1), terminated-AllWords text h.2)

class_words-AllWords : (c : Class) → IsClass c → AllWords (class_words c)
unfolding class_words
class_words-AllWords button h = (omega arith, (omega arith, tt))
class_words-AllWords static h = (omega arith, (omega arith, tt))
class_words-AllWords combo_box h = (omega arith, (omega arith, tt))
class_words-AllWords (named name) h = terminated-AllWords name h

item_words-AllWords : (i : Item) → IsItem i → AllWords (item_words i)
unfolding item_words dword shorts
item_words-AllWords i v = (
  omega arith,
  (
    omega arith,
    (
      omega arith,
      (
        omega arith,
        (
          v.x,
          (
            v.y,
            (
              v.cx,
              (
                v.cy,
                (
                  v.id,
                  AllWords-append (class_words i.class) (terminated i.text ++ (0 ∷ []))
                      (class_words-AllWords i.class v.class)
                      (AllWords-append (terminated i.text) (0 ∷ [])
                        (terminated-AllWords i.text v.text) (omega arith, tt)),
                ),
              ),
            ),
          ),
        ),
      ),
    ),
  ),
)

gap-AllWords : (at : ℕ) → AllWords (gap at)
unfolding gap
gap-AllWords at = elim (Bool-cases (at % 2 == 1)) [
  | inl e ↦ rw e (omega arith, tt)
  | inr e ↦ rw e tt
]

laid-AllWords : (at : ℕ) (items : List Item) → AllItems items → AllWords (laid at items)
unfolding laid
laid-AllWords at [] h = tt
laid-AllWords at (i ∷ rest) h =
    AllWords-append (gap at ++ item_words i) _
      (AllWords-append (gap at) (item_words i) (gap-AllWords at) (item_words-AllWords i h.0))
      (laid-AllWords (at + length (gap at ++ item_words i)) rest h.1)

texts-AllWords : (h : Header) → IsHeader h → AllWords (texts h)
unfolding texts
texts-AllWords h v =
    AllWords-append (terminated h.title) (h.point_size ∷ terminated h.font)
      (terminated-AllWords h.title v.title) (v.point_size, terminated-AllWords h.font v.font)

template-AllWords :
    (h : Header) (items : List Item)
    → IsHeader h
    → AllItems items
    → length items < 2 ^ 16
    → AllWords (template h items).words
template-AllWords h items v w n = rw (template_lem h items n) (
  omega arith,
  (
    unfold high in omega arith,
    (
      omega arith,
      (
        omega arith,
        (
          n,
          AllWords-append (post h) (laid (5 + length (post h)) items)
              (unfold post in
                (
                  omega arith,
                  (omega arith, (v.cx, (v.cy, (omega arith, (omega arith, texts-AllWords h v))))),
                ))
              (laid-AllWords (5 + length (post h)) items w),
        ),
      ),
    ),
  ),
)

-- A reader of the documented layout, which aligns each item to a double word, finds in the buffer of a template whose
-- style sets a font the header and every item as they were put in, the items with the styles of visible children,
-- at the place 0, 0; and no menu, no class of the dialog and no extended style.
pub read_template-build :
    (h : Header) (items : List Item)
    → IsHeader h
    → AllItems items
    → length items < 2 ^ 16
    → read_template (words_of (build (template h items).words)) ≡ some (said h (map shown items))
read_template-build h items v w n =
    ap read_template (words_of-build (template h items).words (template-AllWords h items v w n))
    ∙ read_template-words h items (rest_of (template h items).words) v w n
