-- ===== src/State.antt =====
-- src/main.c, the state of an item: the view of a Lua table, its comparison with the stored state, and
-- the state that is made from it.
pub mod Views
pub mod Matching
pub mod Making
pub mod Forms
pub mod Accepting
pub mod Parsing
mod Tests
use i3sd.Common.{
  ℕ, ◌+◌, ◌≡◌, Bool, true, false, not, ◌&&◌, ◌||◌, Option, none, some, List, [], ◌∷◌, ltb, leb,
  ◌==◌, if◌then◌else◌, length, list_eq,
}
use i3sd.Common.Int.{ℤ, pos, negsuc, int_eq, within, negative}
use i3sd.Utf8.{valid_utf8}
use i3sd.Items.{valid_color}

pub data TextField : Type 0 where
  full_text short_text color background border align markup : TextField

pub data Border : Type 0 where
  border_top border_right border_bottom border_left : Border

abbrev pub max_text : ℕ
max_text = 6144

abbrev pub int_max : ℕ
int_max = 2147483647

-- The tables of fields, in the order of the loops over them.
abbrev pub text_fields : List TextField
text_fields = full_text ∷ short_text ∷ color ∷ background ∷ border ∷ align ∷ markup ∷ []

abbrev pub border_fields : List Border
border_fields = border_top ∷ border_right ∷ border_bottom ∷ border_left ∷ []

abbrev pub limit_of : TextField → ℕ
limit_of full_text = max_text
limit_of short_text = max_text
limit_of color = 9
limit_of background = 9
limit_of border = 9
limit_of align = 8
limit_of markup = 8

-- A text view is none where it is not present.
pub record StateView : Type 0 where
  pub text : TextField → Option (List ℕ)
  pub min_width_text : Option (List ℕ)
  pub id : Option (List ℕ)
  pub border_width : Border → ℤ
  pub min_width_integer : ℤ
  pub min_width_present : Bool
  pub min_width_is_string : Bool
  pub urgent : Bool

-- A string is none where it is NULL; the fields of one kind as a function of the field.
pub record BlockState : Type 0 where
  pub text : TextField → Option (List ℕ)
  pub min_width_string : Option (List ℕ)
  pub min_width_integer : ℤ
  pub border_width : Border → ℤ
  pub min_width_is_string : Bool
  pub min_width_present : Bool
  pub urgent : Bool
  pub visible : Bool

abbrev pub empty_view : StateView
empty_view = record {
  text = λ _. none;
  min_width_text = none;
  id = none;
  border_width = λ _. pos 0;
  min_width_integer = pos 0;
  min_width_present = false;
  min_width_is_string = false;
  urgent = false;
}

pub data StateError : Type 0 where
  invalid_text : TextField → StateError
  invalid_border : Border → StateError
  invalid_min_width_string negative_min_width invalid_color invalid_enum : StateError
  invalid_id no_memory too_long : StateError

-- A result of a function that returns false with a message, or true with a value.
pub data Result {ℓ} (T : Type ℓ) : Type ℓ where
  err : StateError → Result T
  ok : T → Result T

-- An early return of false with a message, if the test holds.
abbrev pub fail_if : Bool → StateError → Result (Unit {0})
fail_if test problem = if test then err problem else ok tt

infixl 5 ◌>>=◌
abbrev pub ◌>>=◌ {ℓ} : {S T : Type ℓ} → Result S → (S → Result T) → Result T
err problem >>= next = err problem
ok value >>= next = next value

infixl 5 ◌>>◌
abbrev pub ◌>>◌ : {T : Type 0} → Result (Unit {0}) → Result T → Result T
check >> next = check >>= λ nothing. next

unfoldable pub valid_text : List ℕ → ℕ → Bool
valid_text text limit = leb (length text) limit && valid_utf8 text

abbrev pub bytes_of : Option (List ℕ) → List ℕ
bytes_of none = []
bytes_of (some text) = text

unfoldable pub text_matches : Option (List ℕ) → Option (List ℕ) → Bool
text_matches none none = true
text_matches (some stored) none = false
text_matches none (some text) = false
text_matches (some stored) (some text) = (length stored == length text) && list_eq stored text

unfoldable pub texts_match : BlockState → StateView → List TextField → Bool
texts_match s v [] = true
texts_match s v (field ∷ rest) =
    if not (text_matches (s.text field) (v.text field)) then false else texts_match s v rest

unfoldable pub borders_match : BlockState → StateView → List Border → Bool
borders_match s v [] = true
borders_match s v (side ∷ rest) =
    if not (int_eq (s.border_width side) (v.border_width side))
    then false
    else borders_match s v rest

abbrev pub bool_eq : Bool → Bool → Bool
bool_eq true b = b
bool_eq false b = not b

unfoldable pub state_matches_view : BlockState → StateView → Bool
state_matches_view s v =
    if not (texts_match s v text_fields)
    then false
    else if not (borders_match s v border_fields)
    then false
    else if (not (bool_eq s.min_width_present v.min_width_present)
          || not (bool_eq s.min_width_is_string v.min_width_is_string))
        || not (bool_eq s.urgent v.urgent)
    then false
    else if v.min_width_is_string
    then text_matches s.min_width_string v.min_width_text
    else int_eq s.min_width_integer v.min_width_integer

unfoldable pub check_texts : StateView → List TextField → Result (Unit {0})
check_texts v [] = ok tt
check_texts v (field ∷ rest) = elim (v.text field) [
  | none ↦ check_texts v rest
  | some text ↦
      (fail_if (not (valid_text text (limit_of field))) (invalid_text field)) >> check_texts v rest
]

unfoldable pub check_borders : StateView → List Border → Result (Unit {0})
check_borders v [] = ok tt
check_borders v (side ∷ rest) =
    (fail_if (not (within (v.border_width side) int_max)) (invalid_border side))
    >> check_borders v rest

-- The calls of copy_bytes, each of which may find no memory.
pub data Copy : Type 0 where
  text_copy : TextField → Copy
  min_width_copy id_copy : Copy

unfoldable pub copy_texts : (Copy → Bool) → StateView → List TextField → Result (Unit {0})
copy_texts memory v [] = ok tt
copy_texts memory v (field ∷ rest) = elim (v.text field) [
  | none ↦ copy_texts memory v rest
  | some text ↦ (fail_if (not (memory (text_copy field))) no_memory) >> copy_texts memory v rest
]

unfoldable pub enum_value : Option (List ℕ) → List ℕ → List ℕ → Option (List ℕ) → Bool
enum_value none first second third = true
enum_value (some value) first second third =
    (list_eq value first || list_eq value second)
    || elim third [ none ↦ false | some t ↦ list_eq value t ]

-- Whether the text shows: full_text is present in each view that is made to a state.
abbrev pub shows : Option (List ℕ) → Bool
shows none = false
shows (some []) = false
shows (some (first ∷ rest)) = not (first == 0)

-- The fields as they are copied.
abbrev pub copied : StateView → BlockState
copied v = record {
  text = v.text;
  min_width_string = if v.min_width_is_string then some (bytes_of v.min_width_text) else none;
  min_width_integer = v.min_width_integer;
  border_width = v.border_width;
  min_width_is_string = v.min_width_is_string;
  min_width_present = v.min_width_present;
  urgent = v.urgent;
  visible = shows (v.text full_text);
}

abbrev pub left_text : List ℕ
left_text = b'l' ∷ b'e' ∷ b'f' ∷ b't' ∷ []

abbrev pub center_text : List ℕ
center_text = b'c' ∷ b'e' ∷ b'n' ∷ b't' ∷ b'e' ∷ b'r' ∷ []

abbrev pub right_text : List ℕ
right_text = b'r' ∷ b'i' ∷ b'g' ∷ b'h' ∷ b't' ∷ []

abbrev pub none_text : List ℕ
none_text = b'n' ∷ b'o' ∷ b'n' ∷ b'e' ∷ []

abbrev pub pango_text : List ℕ
pango_text = b'p' ∷ b'a' ∷ b'n' ∷ b'g' ∷ b'o' ∷ []

unfoldable pub materialize_state : (Copy → Bool) → StateView → Result BlockState
materialize_state memory v = do
  check_texts v text_fields
  check_borders v border_fields
  fail_if (v.min_width_is_string && not (valid_text (bytes_of v.min_width_text) max_text))
      invalid_min_width_string
  fail_if (not v.min_width_is_string && negative v.min_width_integer) negative_min_width
  copy_texts memory v text_fields
  fail_if (v.min_width_is_string && not (memory min_width_copy)) no_memory
  fail_if
      (not (valid_color (v.text color))
        || (not (valid_color (v.text background)) || not (valid_color (v.text border))))
      invalid_color
  fail_if
      (not (enum_value (v.text align) left_text center_text (some right_text))
        || not (enum_value (v.text markup) none_text pango_text none))
      invalid_enum
  ok (copied v)
