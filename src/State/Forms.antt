-- ===== src/State/Forms.antt =====
-- The forms that src/main.c asks of the fields of a state, against the tests of its code.
use mathlib.Core.Path.{fun_ext}
use i3sd.Common.{
  ℕ, ◌≤◌, ◌≡◌, ◌≢◌, ◌⊎◌, ◌↔◌, inl, inr, refl, sym, Bool, true, false, ◌||◌, Option, none, some,
  List, [], ◌∷◌, list_eq, list_eq_sound, Bool-cases, arith,
}
use i3sd.Common.Int.{pos}
use i3sd.Utf8.{valid_utf8}
use i3sd.Items.{valid_color}
use i3sd.Items.Colours.{Colour, valid_color_iff}
use i3sd.State.{
  TextField, full_text, short_text, color, background, border, align, markup, Border, StateView,
  BlockState, bytes_of, Copy, text_copy, min_width_copy, enum_value, shows, copied, left_text,
  center_text, right_text, none_text, pango_text,
}
use i3sd.State.Making.{Given, IsText}

-- `left`, `center` or `right`.
abbrev pub Alignment : List ℕ → Type 0
Alignment text =
    (text ≡ b'l' ∷ b'e' ∷ b'f' ∷ b't' ∷ [])
    ⊎ ((text ≡ b'c' ∷ b'e' ∷ b'n' ∷ b't' ∷ b'e' ∷ b'r' ∷ [])
        ⊎ (text ≡ b'r' ∷ b'i' ∷ b'g' ∷ b'h' ∷ b't' ∷ []))

-- `none` or `pango`.
abbrev pub Markup : List ℕ → Type 0
Markup text =
    (text ≡ b'n' ∷ b'o' ∷ b'n' ∷ b'e' ∷ []) ⊎ (text ≡ b'p' ∷ b'a' ∷ b'n' ∷ b'g' ∷ b'o' ∷ [])

abbrev pub ColourText : List ℕ → Type 0
ColourText text = (valid_utf8 text ≡ true) × Colour text

-- What a state may hold. A width is a text, or else an integer.
pub record IsState (v : StateView) : Type 0 where
  pub full : Given (IsText 6144) (v.text full_text)
  pub short : Given (IsText 6144) (v.text short_text)
  pub colors :
      Given ColourText (v.text color)
      × Given ColourText (v.text background)
      × Given ColourText (v.text border)
  pub alignment : Given Alignment (v.text align)
  pub markups : Given Markup (v.text markup)
  pub borders : (side : Border) → (n : ℕ) × (v.border_width side ≡ pos n) × (n ≤ 2147483647)
  pub width_string : v.min_width_is_string ≡ true → IsText 6144 (bytes_of v.min_width_text)
  pub width_integer : v.min_width_is_string ≡ false → (n : ℕ) × (v.min_width_integer ≡ pos n)

-- Each string that is copied finds memory.
pub record Copies (memory : Copy → Bool) (v : StateView) : Type 0 where
  pub texts :
      (field : TextField) → Given (λ (_ : List ℕ). memory (text_copy field) ≡ true) (v.text field)
  pub width : v.min_width_is_string ≡ true → memory min_width_copy ≡ true

-- A text that shows has a byte before its NUL.
abbrev pub Shows : Option (List ℕ) → Type 0
Shows none = ⊥
Shows (some []) = ⊥
Shows (some (first ∷ rest)) = first ≢ 0

-- The state has the fields of the view.
pub record Made (v : StateView) (s : BlockState) : Type 0 where
  pub texts : (field : TextField) → s.text field ≡ v.text field
  pub borders : (side : Border) → s.border_width side ≡ v.border_width side
  pub width_string :
      v.min_width_is_string ≡ true → s.min_width_string ≡ some (bytes_of v.min_width_text)
  pub no_width_string : v.min_width_is_string ≡ false → s.min_width_string ≡ none
  pub width_integer : s.min_width_integer ≡ v.min_width_integer
  pub is_string : s.min_width_is_string ≡ v.min_width_is_string
  pub present : s.min_width_present ≡ v.min_width_present
  pub urgent : s.urgent ≡ v.urgent
  pub visible : (s.visible ≡ true) ↔ Shows (v.text full_text)

shows_iff : (text : Option (List ℕ)) → (shows text ≡ true) ↔ Shows text
shows_iff none = (λ e. cc, λ h. absurd h)
shows_iff (some []) = (λ e. cc, λ h. absurd h)
shows_iff (some (first ∷ rest)) = (λ e z. ground arith, λ h. ground arith)

bool_iff : (a b : Bool) (P : Type 0) → ((a ≡ true) ↔ P) → ((b ≡ true) ↔ P) → a ≡ b
bool_iff true b P h g = sym (g.1 (h.0 refl))
bool_iff false true P h g = h.1 (g.0 refl)
bool_iff false false P h g = refl

pub copied-Made : (v : StateView) (s : BlockState) → s ≡ copied v → Made v s
copied-Made v s e = rw e (record {
  texts = λ field. refl;
  borders = λ side. refl;
  width_string = λ is. rw is refl;
  no_width_string = λ is. rw is refl;
  width_integer = refl;
  is_string = refl;
  present = refl;
  urgent = refl;
  visible = shows_iff (v.text full_text);
})

pub Made-copied : (v : StateView) (s : BlockState) → Made v s → s ≡ copied v
Made-copied v s h =
    let width : s.min_width_string ≡ (copied v).min_width_string =
      elim (Bool-cases v.min_width_is_string) [
        | inl is ↦ rw is (h.width_string is)
        | inr is ↦ rw is (h.no_width_string is)
      ] in
    let visible =
      bool_iff s.visible (shows (v.text full_text)) _ h.visible (shows_iff (v.text full_text)) in
    λ i. record {
      text = fun_ext h.texts i;
      min_width_string = width i;
      min_width_integer = h.width_integer i;
      border_width = fun_ext h.borders i;
      min_width_is_string = h.is_string i;
      min_width_present = h.present i;
      urgent = h.urgent i;
      visible = visible i;
    }

pub Given-map {ℓ} :
    {A : Type ℓ} (P Q : A → Type 0) (x : Option A) → ((a : A) → P a → Q a) → Given P x → Given Q x
Given-map P Q none f h = tt
Given-map P Q (some a) f h = f a h

list_eq_or :
    (value a b : List ℕ) (c : Bool)
    → ((list_eq value a || list_eq value b) || c) ≡ true
    → (value ≡ a) ⊎ ((value ≡ b) ⊎ (c ≡ true))
list_eq_or value a b c h = elim (Bool-cases (list_eq value a)) [
  | inl first ↦ inl (list_eq_sound value a first)
  | inr other ↦ elim (Bool-cases (list_eq value b)) [
    | inl second ↦ inr (inl (list_eq_sound value b second))
    | inr neither ↦ inr (inr (ground arith))
  ]
]

pub enum_value-Alignment :
    (x : Option (List ℕ))
    → enum_value x left_text center_text (some right_text) ≡ true
    → Given Alignment x
unfolding enum_value
enum_value-Alignment none h = tt
enum_value-Alignment (some value) h =
    elim (list_eq_or value left_text center_text (list_eq value right_text) h) [
      | inl left ↦ inl left
      | inr (inl center) ↦ inr (inl center)
      | inr (inr right) ↦ inr (inr (list_eq_sound value right_text right))
    ]

pub Alignment-enum_value :
    (x : Option (List ℕ))
    → Given Alignment x
    → enum_value x left_text center_text (some right_text) ≡ true
unfolding enum_value
Alignment-enum_value none h = refl
Alignment-enum_value (some value) (inl e) = rw e refl
Alignment-enum_value (some value) (inr (inl e)) = rw e refl
Alignment-enum_value (some value) (inr (inr e)) = rw e refl

pub enum_value-Markup :
    (x : Option (List ℕ)) → enum_value x none_text pango_text none ≡ true → Given Markup x
unfolding enum_value
enum_value-Markup none h = tt
enum_value-Markup (some value) h = elim (list_eq_or value none_text pango_text false h) [
  | inl first ↦ inl first
  | inr (inl second) ↦ inr second
  | inr (inr never) ↦ cc
]

pub Markup-enum_value :
    (x : Option (List ℕ)) → Given Markup x → enum_value x none_text pango_text none ≡ true
unfolding enum_value
Markup-enum_value none h = refl
Markup-enum_value (some value) (inl e) = rw e refl
Markup-enum_value (some value) (inr e) = rw e refl

pub Alignment-IsText : (text : List ℕ) → Alignment text → IsText 8 text
unfolding valid_utf8
Alignment-IsText text (inl e) = rw e (omega arith, refl)
Alignment-IsText text (inr (inl e)) = rw e (omega arith, refl)
Alignment-IsText text (inr (inr e)) = rw e (omega arith, refl)

pub Markup-IsText : (text : List ℕ) → Markup text → IsText 8 text
unfolding valid_utf8
Markup-IsText text (inl e) = rw e (omega arith, refl)
Markup-IsText text (inr e) = rw e (omega arith, refl)

-- Both ways for a colour.
pub checked-ColourText :
    (x : Option (List ℕ)) → Given (IsText 9) x → valid_color x ≡ true → Given ColourText x
checked-ColourText none h e = tt
checked-ColourText (some text) (short, utf8) e = (utf8, (valid_color_iff text).0 e)

pub ColourText-IsText : (text : List ℕ) → ColourText text → IsText 9 text
ColourText-IsText text (utf8, (digits, e, inl six, hex)) = (rw e (omega (arith, six)), utf8)
ColourText-IsText text (utf8, (digits, e, inr eight, hex)) = (rw e (omega (arith, eight)), utf8)

pub ColourText-valid_color : (x : Option (List ℕ)) → Given ColourText x → valid_color x ≡ true
unfolding valid_color
ColourText-valid_color none h = refl
ColourText-valid_color (some text) (utf8, h) = (valid_color_iff text).1 h
