-- ===== src/State/Accepting.antt =====
-- What materialize_state of src/main.c accepts, and the state that it makes.
use i3sd.Common.{ℕ, ◌≤◌, ◌≡◌, ◌↔◌, refl, Bool, true, false, List, arith}
use i3sd.Common.Int.{ℤ, pos, negsuc, within, negative}
use i3sd.State.{
  TextField, full_text, short_text, color, background, border, align, markup, Border, border_top,
  border_right, border_bottom, border_left, StateView, BlockState, ok, text_fields, border_fields,
  int_max, Copy, text_copy, materialize_state,
}
use i3sd.State.Making.{All, Given, IsText, IsChecked, IsStored, materialize_state_parts}
use i3sd.State.Forms.{
  Alignment, Markup, ColourText, IsState, Copies, Made, copied-Made, Made-copied, Given-map,
  enum_value-Alignment, Alignment-enum_value, enum_value-Markup, Markup-enum_value,
  Alignment-IsText, Markup-IsText, checked-ColourText, ColourText-IsText, ColourText-valid_color,
}

within-pos : (x : ℤ) → within x int_max ≡ true → (n : ℕ) × (x ≡ pos n) × (n ≤ 2147483647)
within-pos (pos n) h = (n, refl, ground arith)
within-pos (negsuc n) h = cc

pos-within : (x : ℤ) (n : ℕ) → x ≡ pos n → n ≤ 2147483647 → within x int_max ≡ true
pos-within x n e h = rw e (ground arith)

not_negative : (x : ℤ) → negative x ≡ false → (n : ℕ) × (x ≡ pos n)
not_negative (pos n) h = (n, refl)
not_negative (negsuc n) h = cc

every_field : (P : TextField → Type 0) → All P text_fields → (field : TextField) → P field
every_field P (a, (b, (c, (d, (e, (f, (g, end))))))) full_text = a
every_field P (a, (b, (c, (d, (e, (f, (g, end))))))) short_text = b
every_field P (a, (b, (c, (d, (e, (f, (g, end))))))) color = c
every_field P (a, (b, (c, (d, (e, (f, (g, end))))))) background = d
every_field P (a, (b, (c, (d, (e, (f, (g, end))))))) border = e
every_field P (a, (b, (c, (d, (e, (f, (g, end))))))) align = f
every_field P (a, (b, (c, (d, (e, (f, (g, end))))))) markup = g

every_border : (P : Border → Type 0) → All P border_fields → (side : Border) → P side
every_border P (a, (b, (c, (d, end)))) border_top = a
every_border P (a, (b, (c, (d, end)))) border_right = b
every_border P (a, (b, (c, (d, end)))) border_bottom = c
every_border P (a, (b, (c, (d, end)))) border_left = d

IsChecked-IsState : (v : StateView) → IsChecked v → IsState v
IsChecked-IsState v h =
    let (full, (short, (own, (back, (edge, rest))))) = h.texts in
    let (own_good, back_good, edge_good) = h.colors in
    record {
      full = full;
      short = short;
      colors = (
        checked-ColourText (v.text color) own own_good,
        checked-ColourText (v.text background) back back_good,
        checked-ColourText (v.text border) edge edge_good,
      );
      alignment = enum_value-Alignment _ h.alignment;
      markups = enum_value-Markup _ h.markups;
      borders = λ side.
          within-pos (v.border_width side)
            (every_border (λ side. within (v.border_width side) int_max ≡ true) h.borders side);
      width_string = h.width_string;
      width_integer = λ is. not_negative v.min_width_integer (h.width_integer is);
    }

IsState-IsChecked : (v : StateView) → IsState v → IsChecked v
IsState-IsChecked v h =
    let (color_good, background_good, border_good) = h.colors in
    let bounded : (side : Border) → within (v.border_width side) int_max ≡ true =
      λ side. let (n, e, small) = h.borders side in pos-within (v.border_width side) n e small in
    record {
      texts = (
        h.full,
        (
          h.short,
          (
            Given-map ColourText (IsText 9) (v.text color) ColourText-IsText color_good,
            (
              Given-map ColourText (IsText 9) (v.text background) ColourText-IsText background_good,
              (
                Given-map ColourText (IsText 9) (v.text border) ColourText-IsText border_good,
                (
                  Given-map Alignment (IsText 8) (v.text align) Alignment-IsText h.alignment,
                  (Given-map Markup (IsText 8) (v.text markup) Markup-IsText h.markups, tt),
                ),
              ),
            ),
          ),
        ),
      );
      borders = (
        bounded border_top,
        (bounded border_right, (bounded border_bottom, (bounded border_left, tt))),
      );
      width_string = h.width_string;
      width_integer = λ is. let (n, e) = h.width_integer is in rw e refl;
      colors = (
        ColourText-valid_color (v.text color) color_good,
        ColourText-valid_color (v.text background) background_good,
        ColourText-valid_color (v.text border) border_good,
      );
      alignment = Alignment-enum_value _ h.alignment;
      markups = Markup-enum_value _ h.markups;
    }

IsStored-Copies : (memory : Copy → Bool) (v : StateView) → IsStored memory v → Copies memory v
IsStored-Copies memory v h = record {
  texts =
      every_field (λ field. Given (λ (_ : List ℕ). memory (text_copy field) ≡ true) (v.text field))
        h.texts;
  width = h.width;
}

Copies-IsStored : (memory : Copy → Bool) (v : StateView) → Copies memory v → IsStored memory v
Copies-IsStored memory v h = record {
  texts = (
    h.texts full_text,
    (
      h.texts short_text,
      (
        h.texts color,
        (h.texts background, (h.texts border, (h.texts align, (h.texts markup, tt)))),
      ),
    ),
  );
  width = h.width;
}

-- A state is made of a view exactly when its full and short text are valid UTF-8 without NUL of at most 6144 bytes, its
-- colours are `#rrggbb` or `#rrggbbaa`, its alignment is left, center or right, its markup none or pango, its borders
-- lie from 0 to 2147483647, its minimum width is such a text or an integer that is not negative, and each string that
-- is copied finds memory; the state then has the fields of the view, and is visible where full_text has a first byte
-- that is not NUL.
pub materialize_state_iff :
    (memory : Copy → Bool) (v : StateView) (s : BlockState)
    → (materialize_state memory v ≡ ok s) ↔ (IsState v × Copies memory v × Made v s)
materialize_state_iff memory v s =
    let checked = materialize_state_parts memory v s in
    (
      λ e.
          let (good, found, same) = checked.0 e in
          (IsChecked-IsState v good, IsStored-Copies memory v found, copied-Made v s same),
      λ (good, found, made).
          checked.1
            (IsState-IsChecked v good, Copies-IsStored memory v found, Made-copied v s made),
    )
