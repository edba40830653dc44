-- ===== src/State/Parsing.antt =====
-- What parse_state_view of src/main.c reads.
use i3sd.Common.{ℕ, ◌≡◌, ◌≢◌, ◌⊎◌, inl, inr, refl, Bool, true, none, some, List, [], ◌∷◌, arith}
use i3sd.State.{StateView, empty_view}
use i3sd.State.Views.{
  LuaValue, string, number, boolean, other, Table, ViewError, c_string, Read, read, refused,
  read_integer_view, read_min_width, read_urgent, read_id, read_state_field, read_fields,
  require_full_text, parse_state_view,
}

Read-cases {ℓ} :
    {A : Type ℓ} (r : Read A) → ((a : A) × (r ≡ read a)) ⊎ ((e : ViewError) × (r ≡ refused e))
Read-cases (read a) = inl (a, refl)
Read-cases (refused e) = inr (e, refl)

-- A minimum width that is a string has its text.
abbrev WidthIsGiven : StateView → Type 0
WidthIsGiven v = v.min_width_is_string ≡ true → v.min_width_text ≢ none

read_min_width-WidthIsGiven :
    (v : StateView) (value : LuaValue) (v' : StateView)
    → WidthIsGiven v
    → read_min_width v value ≡ read v'
    → WidthIsGiven v'
unfolding read_min_width read_integer_view
read_min_width-WidthIsGiven v (string bytes integer) v' g h = λ is absent. ground arith
read_min_width-WidthIsGiven v (number text integer) v' g h = λ is absent. ground (arith, g)
read_min_width-WidthIsGiven v (boolean b) v' g h = λ is absent. ground arith
read_min_width-WidthIsGiven v other v' g h = λ is absent. ground arith

read_state_field-WidthIsGiven :
    (key : List ℕ) (allow_id : Bool) (v : StateView) (value : LuaValue) (v' : StateView)
    → WidthIsGiven v
    → read_state_field key allow_id v value ≡ read v'
    → WidthIsGiven v'
unfolding read_state_field read_urgent read_id
read_state_field-WidthIsGiven key allow_id v value v' g h =
    λ is absent. ground (arith, g, read_min_width-WidthIsGiven v value v' g)

read_fields-WidthIsGiven :
    (allow_id : Bool) (v : StateView) (table : Table) (v' : StateView)
    → WidthIsGiven v
    → read_fields allow_id v table ≡ read v'
    → WidthIsGiven v'
unfolding read_fields
read_fields-WidthIsGiven allow_id v [] v' g h = λ is absent. ground (arith, g)
read_fields-WidthIsGiven allow_id v ((none, value) ∷ rest) v' g h = λ is absent. cc
read_fields-WidthIsGiven allow_id v ((some key, value) ∷ rest) v' g h =
    elim (Read-cases (read_state_field (c_string key) allow_id v value)) [
      | inl (next, e) ↦
          read_fields-WidthIsGiven allow_id next rest v'
            (read_state_field-WidthIsGiven (c_string key) allow_id v value next g e) (rw e at h)
      | inr (problem, e) ↦ λ is absent. ground arith
    ]

pub parse_state_view-width :
    (allow_id : Bool) (table : Table) (v : StateView)
    → parse_state_view allow_id table ≡ read v
    → v.min_width_is_string ≡ true
    → v.min_width_text ≢ none
unfolding parse_state_view require_full_text
parse_state_view-width allow_id table v h =
    elim (Read-cases (read_fields allow_id empty_view table)) [
      | inl (next, e) ↦ λ is absent.
          ground
            (arith, read_fields-WidthIsGiven allow_id empty_view table next (λ is absent. cc) e)
      | inr (problem, e) ↦ λ is absent. ground arith
    ]
