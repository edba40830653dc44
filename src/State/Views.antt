-- ===== src/State/Views.antt =====
-- src/main.c, the view of a Lua table of a state: read_state_field and parse_state_view.
use i3sd.Common.{
  ℕ, Bool, true, ◌&&◌, Option, none, some, List, [], ◌∷◌, leb, ◌==◌, if◌then◌else◌, length, list_eq,
}
use i3sd.Common.Int.{ℤ}
use i3sd.State.{
  TextField, full_text, short_text, color, background, border, align, markup, Border, border_top,
  border_right, border_bottom, border_left, text_fields, border_fields, StateView, empty_view,
}

-- A Lua value as these functions see it: the bytes of a string, and the integer that Lua reads in it, if
-- any; the text that Lua converts a number to, and its integer; a boolean; or another value.
pub data LuaValue : Type 0 where
  string : List ℕ → Option ℤ → LuaValue
  number : List ℕ → ℤ → LuaValue
  boolean : Bool → LuaValue
  other : LuaValue

-- A key that is no string is none. The members come in the order in which lua_next finds them.
abbrev pub Table : Type 0
Table = List (Option (List ℕ) × LuaValue)

pub data ViewError : Type 0 where
  not_a_string not_an_integer not_a_boolean number_too_long unknown_option : ViewError
  non_string_key missing_full_text : ViewError

pub data Read {ℓ} (T : Type ℓ) : Type ℓ where
  refused : ViewError → Read T
  read : T → Read T

infixl 5 ◌>>=◌
abbrev pub ◌>>=◌ {ℓ} : {S T : Type ℓ} → Read S → (S → Read T) → Read T
refused problem >>= next = refused problem
read value >>= next = next value

-- What `strcmp` sees of a string: the bytes up to the first NUL.
unfoldable pub c_string : List ℕ → List ℕ
c_string [] = []
c_string (c ∷ rest) = if c == 0 then [] else c ∷ c_string rest

abbrev pub field_name : TextField → List ℕ
field_name full_text = b'f' ∷ b'u' ∷ b'l' ∷ b'l' ∷ b'_' ∷ b't' ∷ b'e' ∷ b'x' ∷ b't' ∷ []
field_name short_text = b's' ∷ b'h' ∷ b'o' ∷ b'r' ∷ b't' ∷ b'_' ∷ b't' ∷ b'e' ∷ b'x' ∷ b't' ∷ []
field_name color = b'c' ∷ b'o' ∷ b'l' ∷ b'o' ∷ b'r' ∷ []
field_name background = b'b' ∷ b'a' ∷ b'c' ∷ b'k' ∷ b'g' ∷ b'r' ∷ b'o' ∷ b'u' ∷ b'n' ∷ b'd' ∷ []
field_name border = b'b' ∷ b'o' ∷ b'r' ∷ b'd' ∷ b'e' ∷ b'r' ∷ []
field_name align = b'a' ∷ b'l' ∷ b'i' ∷ b'g' ∷ b'n' ∷ []
field_name markup = b'm' ∷ b'a' ∷ b'r' ∷ b'k' ∷ b'u' ∷ b'p' ∷ []

abbrev pub border_stem : List ℕ → List ℕ
border_stem side = b'b' ∷ b'o' ∷ b'r' ∷ b'd' ∷ b'e' ∷ b'r' ∷ b'_' ∷ side

abbrev pub border_name : Border → List ℕ
border_name border_top = border_stem (b't' ∷ b'o' ∷ b'p' ∷ [])
border_name border_right = border_stem (b'r' ∷ b'i' ∷ b'g' ∷ b'h' ∷ b't' ∷ [])
border_name border_bottom = border_stem (b'b' ∷ b'o' ∷ b't' ∷ b't' ∷ b'o' ∷ b'm' ∷ [])
border_name border_left = border_stem (b'l' ∷ b'e' ∷ b'f' ∷ b't' ∷ [])

abbrev pub min_width_name : List ℕ
min_width_name = b'm' ∷ b'i' ∷ b'n' ∷ b'_' ∷ b'w' ∷ b'i' ∷ b'd' ∷ b't' ∷ b'h' ∷ []

abbrev pub urgent_name : List ℕ
urgent_name = b'u' ∷ b'r' ∷ b'g' ∷ b'e' ∷ b'n' ∷ b't' ∷ []

abbrev pub id_name : List ℕ
id_name = b'i' ∷ b'd' ∷ []

unfoldable pub read_text_view : LuaValue → Read (List ℕ)
read_text_view (string bytes integer) = read bytes
read_text_view (number text integer) =
    if leb 64 (length text) then refused number_too_long else read text
read_text_view (boolean b) = refused not_a_string
read_text_view other = refused not_a_string

unfoldable pub read_integer_view : LuaValue → Read ℤ
read_integer_view (string bytes none) = refused not_an_integer
read_integer_view (string bytes (some integer)) = read integer
read_integer_view (number text integer) = read integer
read_integer_view (boolean b) = refused not_an_integer
read_integer_view other = refused not_an_integer

abbrev pub same_field : TextField → TextField → Bool
same_field f g = list_eq (field_name f) (field_name g)

abbrev pub same_border : Border → Border → Bool
same_border f g = list_eq (border_name f) (border_name g)

abbrev pub set_text : StateView → TextField → List ℕ → StateView
set_text v field text = record v { text = λ f. if same_field field f then some text else v.text f }

abbrev pub set_border : StateView → Border → ℤ → StateView
set_border v side width = record v {
  border_width = λ f. if same_border side f then width else v.border_width f;
}

-- The loops over the tables of fields: the field that the key names.
unfoldable pub find_text_field : List ℕ → List TextField → Option TextField
find_text_field key [] = none
find_text_field key (field ∷ rest) =
    if list_eq key (field_name field) then some field else find_text_field key rest

unfoldable pub find_border : List ℕ → List Border → Option Border
find_border key [] = none
find_border key (side ∷ rest) =
    if list_eq key (border_name side) then some side else find_border key rest

unfoldable pub read_min_width : StateView → LuaValue → Read StateView
read_min_width v (string bytes integer) =
    read (record v {
      min_width_present = true;
      min_width_is_string = true;
      min_width_text = some bytes;
    })
read_min_width v value = do
  integer ← read_integer_view value
  read (record v { min_width_present = true; min_width_integer = integer })

unfoldable pub read_urgent : StateView → LuaValue → Read StateView
read_urgent v (boolean b) = read (record v { urgent = b })
read_urgent v value = refused not_a_boolean

unfoldable pub read_id : StateView → LuaValue → Read StateView
read_id v (string bytes integer) = read (record v { id = some bytes })
read_id v value = refused not_a_string

unfoldable pub read_state_field : List ℕ → Bool → StateView → LuaValue → Read StateView
read_state_field key allow_id v value = elim (find_text_field key text_fields) [
  | some field ↦ read_text_view value >>= λ text. read (set_text v field text)
  | none ↦ elim (find_border key border_fields) [
    | some side ↦ read_integer_view value >>= λ width. read (set_border v side width)
    | none ↦
        if list_eq key min_width_name
        then read_min_width v value
        else if list_eq key urgent_name
        then read_urgent v value
        else if allow_id && list_eq key id_name
        then read_id v value
        else refused unknown_option
  ]
]

unfoldable pub read_fields : Bool → StateView → Table → Read StateView
read_fields allow_id v [] = read v
read_fields allow_id v ((none, value) ∷ rest) = refused non_string_key
read_fields allow_id v ((some key, value) ∷ rest) =
    read_state_field (c_string key) allow_id v value >>= λ next. read_fields allow_id next rest

unfoldable pub require_full_text : StateView → Read StateView
require_full_text v = elim (v.text full_text) [ none ↦ refused missing_full_text | some _ ↦ read v ]

unfoldable pub parse_state_view : Bool → Table → Read StateView
parse_state_view allow_id table = read_fields allow_id empty_view table >>= require_full_text
