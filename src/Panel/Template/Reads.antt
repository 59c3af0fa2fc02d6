-- ===== src/Panel/Template/Reads.antt =====
-- What a reader of the documented DLGTEMPLATE layout finds in the buffers of panel/src/template.rs.
use ak1_driver.Prelude.{
  Bool, true, false, ℕ, zero, suc, ◌+◌, ◌-◌, ◌*◌, ◌/◌, ◌%◌, ◌^◌, ◌<◌, ◌≡◌, refl, ap, ◌∙◌, List, [],
  ◌∷◌, ◌++◌, append_assoc, Option, none, some, length, drop, ◌==◌, ◌>>=◌, if◌then◌else◌, arith,
}
use ak1_driver.Prelude.Text.{Text}
use ak1_driver.Panel.Template.{
  Class, button, static, combo_box, named, dword, terminated, shorts, class_words, Item,
  child_style, item_words,
}

-- The words of a buffer.
abbrev pub words_of : List ℕ → List ℕ
words_of [] = []
words_of (w ∷ buffer) = (w % 2 ^ 16) ∷ (w / 2 ^ 16) ∷ words_of buffer

abbrev with_front : ℕ → Text × List ℕ → Text × List ℕ
with_front c (text, rest) = (c ∷ text, rest)

-- A text up to its 0.
pub read_text : List ℕ → Option (Text × List ℕ)
read_text [] = none
read_text (zero ∷ rest) = some ([], rest)
read_text (suc c ∷ rest) = read_text rest >>= λ r. some (with_front (suc c) r)

class_numbered : List ℕ → Option (Class × List ℕ)
class_numbered [] = none
class_numbered (n ∷ rest) =
    if n == 0x0080
    then some (button, rest)
    else if n == 0x0082
    then some (static, rest)
    else if n == 0x0085
    then some (combo_box, rest)
    else none

-- 0xffff and the number of a class, or its name.
read_class : List ℕ → Option (Class × List ℕ)
unfolding read_text class_numbered
read_class [] = none
read_class (w ∷ rest) =
    let named_class = read_text (w ∷ rest) >>= λ r. some (named r.0, r.1) in
    if w == 0xffff then class_numbered rest else named_class

-- A word that is 0 in what is read here.
zero_word : List ℕ → Option (List ℕ)
zero_word [] = none
zero_word (zero ∷ rest) = some rest
zero_word (suc n ∷ rest) = none

-- An item of no extended style at an even word, and what is behind it.
pub read_item : List ℕ → Option (Item × List ℕ)
unfolding read_class zero_word
read_item (s0 ∷ s1 ∷ e0 ∷ e1 ∷ x ∷ y ∷ cx ∷ cy ∷ id ∷ body) = zero_word (e0 ∷ []) >>= λ _.
    zero_word (e1 ∷ []) >>= λ _. read_class body >>= λ c. read_text c.1 >>= λ t.
    zero_word t.1 >>= λ rest. some (
      record {
        class = c.0;
        text = t.0;
        id = id;
        style = s0 + s1 * 2 ^ 16;
        rect = record { x = x; y = y; cx = cx; cy = cy };
      },
      rest,
    )
read_item _ = none

-- As many items, `at` words from the start of the buffer; each is aligned to a double word.
unfoldable pub read_items : (n at : ℕ) → List ℕ → Option (List Item)
unfolding read_item
read_items zero at words = some []
read_items (suc n) at words =
    let aligned = drop (at % 2) words in
    read_item aligned >>= λ r.
    read_items n (at + (length words - length r.1)) r.1 >>= λ items. some (r.0 ∷ items)

-- What the header and the items say. `font` has its size first.
pub record Dialog : Type 0 where
  pub title : Text
  pub style : ℕ
  pub font : Option (ℕ × Text)
  pub x : ℕ
  pub y : ℕ
  pub cx : ℕ
  pub cy : ℕ
  pub items : List Item

-- `DS_SETFONT`.
unfoldable pub sets_font : (style : ℕ) → Bool
sets_font style = style / 64 % 2 == 1

-- A size and the name of a font, just where the style says that they are there.
unfoldable pub read_font : Bool → List ℕ → Option (Option (ℕ × Text) × List ℕ)
unfolding read_text
read_font false rest = some (none, rest)
read_font true [] = none
read_font true (point_size ∷ rest) = read_text rest >>= λ r. some (some (point_size, r.0), r.1)

-- A dialog of no extended style, with no menu and of the default class: their words are 0.
unfoldable pub read_template : List ℕ → Option Dialog
unfolding read_text read_items read_font sets_font zero_word
read_template (s0 ∷ s1 ∷ e0 ∷ e1 ∷ n ∷ x ∷ y ∷ cx ∷ cy ∷ menu ∷ window ∷ body) =
    zero_word (e0 ∷ []) >>= λ _. zero_word (e1 ∷ []) >>= λ _. zero_word (menu ∷ []) >>= λ _.
    zero_word (window ∷ []) >>= λ _. read_text body >>= λ t.
    read_font (sets_font (s0 + s1 * 2 ^ 16)) t.1 >>= λ f.
    read_items n (11 + (length body - length f.1)) f.1 >>= λ items. some (record {
      title = t.0;
      style = s0 + s1 * 2 ^ 16;
      font = f.0;
      x = x;
      y = y;
      cx = cx;
      cy = cy;
      items = items;
    })
read_template _ = none

abbrev pub AllUnits : Text → Type 0
AllUnits [] = Unit
AllUnits (c ∷ text) = (0 < c) × (c < 0xffff) × AllUnits text

abbrev pub IsClass : Class → Type 0
IsClass (named name) = AllUnits name
IsClass _ = Unit

pub read_text-terminated :
    (text : Text) (rest : List ℕ)
    → AllUnits text
    → read_text (terminated text ++ rest) ≡ some (text, rest)
unfolding read_text terminated
read_text-terminated [] rest h = refl
read_text-terminated (zero ∷ text) rest h = absurd (omega (arith, h.0))
read_text-terminated (suc c ∷ text) rest h = rw (read_text-terminated text rest h.2) refl

read_named :
    (c : ℕ) (name : Text) (rest : List ℕ)
    → AllUnits (c ∷ name)
    → read_text (c ∷ ((name ++ (0 ∷ [])) ++ rest)) ≡ some (c ∷ name, rest)
read_named c name rest h = unfold terminated in read_text-terminated (c ∷ name) rest h

read_class-class_words :
    (c : Class) (rest : List ℕ) → IsClass c → read_class (class_words c ++ rest) ≡ some (c, rest)
unfolding read_class class_words
read_class-class_words button rest h = refl
read_class-class_words static rest h = refl
read_class-class_words combo_box rest h = refl
read_class-class_words (named []) rest h = refl
read_class-class_words (named (c ∷ name)) rest h = ground (arith, h, read_named c name rest h)

-- The item as it is read: with the style that it gets as a child window.
abbrev pub shown : Item → Item
shown i = record i { style = child_style i.style }

pub record IsItem (i : Item) : Type 0 where
  pub class : IsClass i.class
  pub text : AllUnits i.text
  pub style : child_style i.style < 2 ^ 32
  pub id : i.id < 2 ^ 16
  pub x : i.rect.x < 2 ^ 16
  pub y : i.rect.y < 2 ^ 16
  pub cx : i.rect.cx < 2 ^ 16
  pub cy : i.rect.cy < 2 ^ 16

regroup : (c t z rest : List ℕ) → (c ++ (t ++ z)) ++ rest ≡ c ++ (t ++ (z ++ rest))
regroup c t z rest = append_assoc c (t ++ z) rest ∙ ap (λ l. c ++ l) (append_assoc t z rest)

pub style_lem : (s : ℕ) → s < 2 ^ 32 → s % 2 ^ 16 + s / 2 ^ 16 % 2 ^ 16 * 2 ^ 16 ≡ s
style_lem s h = omega arith

pub read_item-item_words :
    (i : Item) (rest : List ℕ) → IsItem i → read_item (item_words i ++ rest) ≡ some (shown i, rest)
unfolding read_item item_words zero_word dword shorts
read_item-item_words i rest v =
    rw (regroup (class_words i.class) (terminated i.text) (0 ∷ []) rest) (
      rw (read_class-class_words i.class (terminated i.text ++ ((0 ∷ []) ++ rest)) v.class) (
        rw (read_text-terminated i.text ((0 ∷ []) ++ rest) v.text)
          (rw (style_lem (child_style i.style) v.style) refl)))
