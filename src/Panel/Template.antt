-- ===== src/Panel/Template.antt =====
-- Dialog templates in memory: panel/src/template.rs. A text is a list of UTF-16 units; words and counts are
-- numbers below 2 ^ 16, styles numbers below 2 ^ 32, and a coordinate is the word it is stored as.
pub mod Reads
pub mod Layout
pub mod Buffer
pub mod Stream
use ak1_driver.Prelude.{
  ℕ, ◌+◌, ◌*◌, ◌/◌, ◌%◌, ◌^◌, List, [], ◌∷◌, ◌++◌, length, set, ◌==◌, if◌then◌else◌,
}
use Prim.Native.Nat.{bit_or}
use ak1_driver.Prelude.Text.{Text}

pub data Class : Type 0 where
  button : Class
  static : Class
  combo_box : Class
  named : Text → Class

pub record Template : Type 0 where
  pub words : List ℕ
  pub items : ℕ

abbrev pub item_count_word : ℕ
item_count_word = 4

unfoldable pub dword : ℕ → List ℕ
dword value = (value % 2 ^ 16) ∷ (value / 2 ^ 16 % 2 ^ 16) ∷ []

unfoldable pub terminated : Text → List ℕ
terminated text = text ++ (0 ∷ [])

-- The four words of a rectangle.
pub record Rect : Type 0 where
  pub x : ℕ
  pub y : ℕ
  pub cx : ℕ
  pub cy : ℕ

unfoldable pub shorts : Rect → List ℕ
shorts r = r.x ∷ r.y ∷ r.cx ∷ r.cy ∷ []

-- No menu, the default dialog class.
unfoldable pub new :
    (title : Text) → (style : ℕ) → (font : Text) → (point_size cx cy : ℕ) → Template
unfolding dword terminated shorts
new title style font point_size cx cy = record {
  words =
      dword style
      ++ (dword 0
          ++ (0
              ∷ (shorts (record { x = 0; y = 0; cx = cx; cy = cy })
                  ++ (0 ∷ 0 ∷ (terminated title ++ (point_size ∷ terminated font))))));
  items = 0;
}

-- A template starts each item at an even word.
unfoldable pub padding : List ℕ → List ℕ
padding words = if length words % 2 == 1 then 0 ∷ [] else []

unfoldable pub class_words : Class → List ℕ
unfolding terminated
class_words button = 0xffff ∷ 0x0080 ∷ []
class_words static = 0xffff ∷ 0x0082 ∷ []
class_words combo_box = 0xffff ∷ 0x0085 ∷ []
class_words (named name) = terminated name

pub record Item : Type 0 where
  pub class : Class
  pub text : Text
  pub id : ℕ
  pub style : ℕ
  pub rect : Rect

-- `WS_CHILD` and `WS_VISIBLE` in the style.
unfoldable pub child_style : ℕ → ℕ
child_style style = bit_or 0x50000000 style

-- An item's own words; no creation data.
unfoldable pub item_words : Item → List ℕ
unfolding dword child_style shorts class_words terminated
item_words i =
    dword (child_style i.style)
    ++ (dword 0
        ++ (shorts i.rect ++ (i.id ∷ (class_words i.class ++ (terminated i.text ++ (0 ∷ []))))))

-- The count of items is kept in the header.
unfoldable pub item : Template → Item → Template
unfolding padding item_words
item t i =
    let items = (t.items + 1) % 2 ^ 16 in
    let words = t.words ++ (padding t.words ++ item_words i) in
    record { words = set words item_count_word items; items = items }

-- The buffer of double words.
unfoldable pub build : List ℕ → List ℕ
build [] = []
build (low ∷ []) = low ∷ []
build (low ∷ high ∷ rest) = (low + high * 2 ^ 16) ∷ build rest

abbrev pub add_all : Template → List Item → Template
add_all t [] = t
add_all t (i ∷ rest) = add_all (item t i) rest
