-- ===== src/Panel/Template/Stream.antt =====
-- The double words that `template` of panel/src/template.rs writes, and how a reader of the documented layout
-- takes them apart.
use ak1_driver.Prelude.{
  true, ℕ, ◌+◌, ◌-◌, ◌/◌, ◌%◌, ◌^◌, ◌<◌, ◌≡◌, refl, ap, ◌∙◌, List, ◌∷◌, ◌++◌, append_assoc, some,
  map, length, length-append, arith,
}
use ak1_driver.Prelude.Text.{Text}
use ak1_driver.Panel.Template.{Template, dword, terminated, shorts, new, Item, add_all}
use ak1_driver.Panel.Template.Reads.{
  read_template, read_font, sets_font, Dialog, AllUnits, shown, read_text-terminated, style_lem,
}
use ak1_driver.Panel.Template.Layout.{laid, add_all_lem, AllItems, read_items-laid}

-- What a dialog is made of.
pub record Header : Type 0 where
  pub title : Text
  pub style : ℕ
  pub font : Text
  pub point_size : ℕ
  pub cx : ℕ
  pub cy : ℕ

-- The style says that there is a font.
pub record IsHeader (h : Header) : Type 0 where
  pub has_font : sets_font h.style ≡ true
  pub title : AllUnits h.title
  pub style : h.style < 2 ^ 32
  pub font : AllUnits h.font
  pub point_size : h.point_size < 2 ^ 16
  pub cx : h.cx < 2 ^ 16
  pub cy : h.cy < 2 ^ 16

abbrev pub template : Header → List Item → Template
template h items = add_all (new h.title h.style h.font h.point_size h.cx h.cy) items

abbrev pub said : Header → List Item → Dialog
said h items = record {
  title = h.title;
  style = h.style;
  font = some (h.point_size, h.font);
  x = 0;
  y = 0;
  cx = h.cx;
  cy = h.cy;
  items = items;
}

-- The texts of the header.
unfoldable pub texts : Header → List ℕ
texts h = terminated h.title ++ (h.point_size ∷ terminated h.font)

unfoldable pub post : Header → List ℕ
post h = 0 ∷ 0 ∷ h.cx ∷ h.cy ∷ 0 ∷ 0 ∷ texts h

unfoldable pub high : ℕ → ℕ
high style = style / 2 ^ 16 % 2 ^ 16

pub template_lem :
    (h : Header) (items : List Item)
    → length items < 2 ^ 16
    → (template h items).words
      ≡ (h.style % 2 ^ 16)
        ∷ high h.style
        ∷ 0
        ∷ 0
        ∷ length items
        ∷ (post h ++ laid (5 + length (post h)) items)
unfolding new dword shorts post texts high
template_lem h items n =
    ap (λ (t : Template). t.words)
      (add_all_lem (h.style % 2 ^ 16) (h.style / 2 ^ 16 % 2 ^ 16) 0 0 (post h) 0 items
        (omega (arith, n)))
    ∙ ap
        (λ (k : ℕ).
          (h.style % 2 ^ 16)
          ∷ high h.style
          ∷ 0
          ∷ 0
          ∷ k
          ∷ (post h ++ laid (5 + length (post h)) items))
        (omega arith)

texts_lem :
    (h : Header) (items tail : List ℕ)
    → (texts h ++ items) ++ tail
      ≡ terminated h.title ++ (h.point_size ∷ (terminated h.font ++ (items ++ tail)))
unfolding texts
texts_lem h items tail =
    append_assoc (terminated h.title ++ (h.point_size ∷ terminated h.font)) items tail
    ∙ append_assoc (terminated h.title) (h.point_size ∷ terminated h.font) (items ++ tail)

place_lem :
    (h : Header) (left : List ℕ)
    → 11
        + (length (terminated h.title ++ (h.point_size ∷ (terminated h.font ++ left)))
            - length left)
      ≡ 5 + length (post h)
unfolding post texts
place_lem h left = omega (
  arith,
  length-append (terminated h.title) (h.point_size ∷ (terminated h.font ++ left)),
  length-append (terminated h.font) left,
  length-append (terminated h.title) (h.point_size ∷ terminated h.font),
)

read_font-terminated :
    (size : ℕ) (font : Text) (left : List ℕ)
    → AllUnits font
    → read_font true (size ∷ (terminated font ++ left)) ≡ some (some (size, font), left)
unfolding read_font
read_font-terminated size font left v = rw (read_text-terminated font left v) refl

pub read_template-words :
    (h : Header) (items : List Item) (tail : List ℕ)
    → IsHeader h
    → AllItems items
    → length items < 2 ^ 16
    → read_template ((template h items).words ++ tail) ≡ some (said h (map shown items))
unfolding read_template post high
read_template-words h items tail v w n =
    let left = laid (5 + length (post h)) items ++ tail in
    rw (template_lem h items n) (
      rw (texts_lem h (laid (5 + length (post h)) items) tail) (
        rw (read_text-terminated h.title (h.point_size ∷ (terminated h.font ++ left)) v.title) (
          rw (style_lem h.style v.style, v.has_font)
            (rw (read_font-terminated h.point_size h.font left v.font) (
              rw (place_lem h left)
                (rw (read_items-laid (5 + length (post h)) items tail w) refl))))))
