-- ===== src/State/Matching.antt =====
-- What state_matches_view of src/main.c finds, and why a matching view need not be made again.
use mathlib.Core.Path.{fun_ext}
use i3sd.Common.{
  ◌≢◌, ℕ, ◌≡◌, ◌↔◌, inl, inr, refl, sym, ap, ◌∙◌, Bool, true, false, Option, none, some, List, [],
  ◌∷◌, if◌then◌else◌, list_eq_sound, list_eq_refl, Bool-cases, Option-cases, arith,
}
use i3sd.Common.Int.{pos, int_eq, int_eq_sound, int_eq_refl}
use i3sd.State.{
  TextField, full_text, short_text, color, background, border, align, markup, Border, border_top,
  border_right, border_bottom, border_left, StateView, BlockState, ok, Copy, text_fields,
  border_fields, text_matches, texts_match, borders_match, state_matches_view, copied,
  materialize_state, bytes_of,
}
use i3sd.State.Making.{All, Given, IsChecked, materialize_state_parts}
use i3sd.State.Views.{Table, read, parse_state_view}
use i3sd.State.Parsing.{parse_state_view-width}

-- A state up to an integer that its minimum width, being a string, leaves unused.
abbrev pub shown : BlockState → BlockState
shown s = record s {
  min_width_integer = if s.min_width_is_string then pos 0 else s.min_width_integer;
}

text_matches_sound : (a b : Option (List ℕ)) → text_matches a b ≡ true → a ≡ b
unfolding text_matches
text_matches_sound none none h = refl
text_matches_sound (some a) none h = cc
text_matches_sound none (some b) h = cc
text_matches_sound (some a) (some b) h = ground (arith, list_eq_sound a b)

text_matches_refl : (a : Option (List ℕ)) → text_matches a a ≡ true
unfolding text_matches
text_matches_refl none = refl
text_matches_refl (some a) = ground (arith, list_eq_refl a)

texts_match_sound :
    (s : BlockState) (v : StateView) (fields : List TextField)
    → texts_match s v fields ≡ true
    → All (λ field. s.text field ≡ v.text field) fields
unfolding texts_match
texts_match_sound s v [] h = tt
texts_match_sound s v (field ∷ rest) h =
    (text_matches_sound _ _ (ground arith), texts_match_sound s v rest (ground arith))

texts_match_refl :
    (s : BlockState) (v : StateView) (fields : List TextField)
    → s.text ≡ v.text
    → texts_match s v fields ≡ true
unfolding texts_match
texts_match_refl s v [] e = refl
texts_match_refl s v (field ∷ rest) e =
    let same : text_matches (s.text field) (v.text field) ≡ true =
      rw e (text_matches_refl (v.text field)) in
    rw same (texts_match_refl s v rest e)

borders_match_sound :
    (s : BlockState) (v : StateView) (sides : List Border)
    → borders_match s v sides ≡ true
    → All (λ side. s.border_width side ≡ v.border_width side) sides
unfolding borders_match
borders_match_sound s v [] h = tt
borders_match_sound s v (side ∷ rest) h =
    (int_eq_sound _ _ (ground arith), borders_match_sound s v rest (ground arith))

borders_match_refl :
    (s : BlockState) (v : StateView) (sides : List Border)
    → s.border_width ≡ v.border_width
    → borders_match s v sides ≡ true
unfolding borders_match
borders_match_refl s v [] e = refl
borders_match_refl s v (side ∷ rest) e =
    let same : int_eq (s.border_width side) (v.border_width side) ≡ true =
      rw e (int_eq_refl (v.border_width side)) in
    rw same (borders_match_refl s v rest e)

same_texts :
    (s : BlockState) (v : StateView)
    → All (λ field. s.text field ≡ v.text field) text_fields
    → (field : TextField) → s.text field ≡ v.text field
same_texts s v h full_text = h.0
same_texts s v h short_text = h.1.0
same_texts s v h color = h.1.1.0
same_texts s v h background = h.1.1.1.0
same_texts s v h border = h.1.1.1.1.0
same_texts s v h align = h.1.1.1.1.1.0
same_texts s v h markup = h.1.1.1.1.1.1.0

same_borders :
    (s : BlockState) (v : StateView)
    → All (λ side. s.border_width side ≡ v.border_width side) border_fields
    → (side : Border) → s.border_width side ≡ v.border_width side
same_borders s v h border_top = h.0
same_borders s v h border_right = h.1.0
same_borders s v h border_bottom = h.1.1.0
same_borders s v h border_left = h.1.1.1.0

-- What a match means of the fields.
record Matches (s : BlockState) (v : StateView) : Type 0 where
  texts : s.text ≡ v.text
  borders : s.border_width ≡ v.border_width
  present : s.min_width_present ≡ v.min_width_present
  is_string : s.min_width_is_string ≡ v.min_width_is_string
  urgent : s.urgent ≡ v.urgent
  string : v.min_width_is_string ≡ true → s.min_width_string ≡ v.min_width_text
  integer : v.min_width_is_string ≡ false → s.min_width_integer ≡ v.min_width_integer

state_matches_view-Matches :
    (s : BlockState) (v : StateView) → state_matches_view s v ≡ true → Matches s v
unfolding state_matches_view
state_matches_view-Matches s v h = record {
  texts = fun_ext (same_texts s v (texts_match_sound s v text_fields (ground arith)));
  borders = fun_ext (same_borders s v (borders_match_sound s v border_fields (ground arith)));
  present = ground arith;
  is_string = ground arith;
  urgent = ground arith;
  string = λ is. text_matches_sound _ _ (ground arith);
  integer = λ is. int_eq_sound _ _ (ground arith);
}

Matches-state_matches_view :
    (s : BlockState) (v : StateView) → Matches s v → state_matches_view s v ≡ true
unfolding state_matches_view
Matches-state_matches_view s v m =
    let texts : texts_match s v text_fields ≡ true = texts_match_refl s v text_fields m.texts in
    let borders : borders_match s v border_fields ≡ true =
      borders_match_refl s v border_fields m.borders in
    let width : (if v.min_width_is_string
          then text_matches s.min_width_string v.min_width_text
          else int_eq s.min_width_integer v.min_width_integer)
        ≡ true =
      elim (Bool-cases v.min_width_is_string) [
        | inl is ↦ rw is (rw (m.string is) (text_matches_refl v.min_width_text))
        | inr isnt ↦ rw isnt (rw (m.integer isnt) (int_eq_refl v.min_width_integer))
      ] in
    rw texts (rw borders (rw m.present (rw m.is_string (rw m.urgent (ground arith)))))

All-Copies :
    (v : StateView) (fields : List TextField)
    → All (λ field. Given (λ (_ : List ℕ). true ≡ true) (v.text field)) fields
All-Copies v [] = tt
All-Copies v (field ∷ rest) = elim (Option-cases (v.text field)) [
  | inl absent ↦ (rw absent tt, All-Copies v rest)
  | inr (text, present) ↦ (rw present refl, All-Copies v rest)
]

module _ (v0 v : StateView) (s : BlockState) (e : s ≡ copied v0) where
  Matches-texts : Matches s v → v.text ≡ v0.text
  Matches-texts m = sym m.texts ∙ ap (λ (t : BlockState). t.text) e

  Matches-borders : Matches s v → v.border_width ≡ v0.border_width
  Matches-borders m = sym m.borders ∙ ap (λ (t : BlockState). t.border_width) e

  Matches-is_string : Matches s v → v.min_width_is_string ≡ v0.min_width_is_string
  Matches-is_string m = sym m.is_string ∙ ap (λ (t : BlockState). t.min_width_is_string) e

  Matches-string :
      Matches s v
      → v.min_width_is_string ≡ true
      → v.min_width_text ≡ some (bytes_of v0.min_width_text)
  Matches-string m is =
      let was : v0.min_width_is_string ≡ true = sym (Matches-is_string m) ∙ is in
      let stored : s.min_width_string ≡ some (bytes_of v0.min_width_text) = ground arith in
      sym (m.string is) ∙ stored

  Matches-IsChecked : Matches s v → IsChecked v0 → IsChecked v
  Matches-IsChecked m good =
      let texts = Matches-texts m in
      let borders = Matches-borders m in
      record {
        texts = rw texts good.texts;
        borders = rw borders good.borders;
        width_string =
            λ is. rw (Matches-string m is) (good.width_string (sym (Matches-is_string m) ∙ is));
        width_integer = λ is.
            let same : v.min_width_integer ≡ v0.min_width_integer =
              sym (m.integer is) ∙ ap (λ (t : BlockState). t.min_width_integer) e in
            rw same (good.width_integer (sym (Matches-is_string m) ∙ is));
        colors = rw texts good.colors;
        alignment = rw texts good.alignment;
        markups = rw texts good.markups;
      }

  Matches-shown : Matches s v → shown (copied v) ≡ shown s
  Matches-shown m =
      let texts = Matches-texts m in
      let borders = Matches-borders m in
      let is_string = Matches-is_string m in
      elim (Bool-cases v.min_width_is_string) [
        | inl is ↦ let string = Matches-string m is in ground arith
        | inr isnt ↦ let integer = m.integer isnt in ground arith
      ]

  shown-Matches :
      (v.min_width_is_string ≡ true → v.min_width_text ≢ none)
      → shown (copied v) ≡ shown s
      → Matches s v
  shown-Matches given h = record {
    texts = sym (ap (λ (t : BlockState). t.text) h);
    borders = sym (ap (λ (t : BlockState). t.border_width) h);
    present = ground arith;
    is_string = ground arith;
    urgent = ground arith;
    string = λ is. elim (Option-cases v.min_width_text) [
      | inl absent ↦ absurd (given is absent)
      | inr (text, there) ↦ ground arith
    ];
    integer = λ is. ground arith;
  }

-- Let a state be made from one view, and let another view be read from a table. Then the second view
-- matches the state exactly when, with memory for the copies, a state can be made from it too and that
-- state is the old one, up to an integer that its minimum width, being a string, leaves unused.
pub state_matches_view_iff :
    (memory : Copy → Bool) (v0 v : StateView) (s : BlockState) (allow_id : Bool) (table : Table)
    → materialize_state memory v0 ≡ ok s
    → parse_state_view allow_id table ≡ read v
    → (state_matches_view s v ≡ true)
      ↔ ((materialize_state (λ _. true) v ≡ ok (copied v)) × (shown (copied v) ≡ shown s))
state_matches_view_iff memory v0 v s allow_id table made parsed =
    let was = (materialize_state_parts memory v0 s).0 made in
    let given = parse_state_view-width allow_id table v parsed in
    (
      λ same.
          let m = state_matches_view-Matches s v same in
          (
            (materialize_state_parts (λ _. true) v (copied v)).1 (
              Matches-IsChecked v0 v s was.2 m was.0,
              record { texts = All-Copies v text_fields; width = λ _. refl },
              refl,
            ),
            Matches-shown v0 v s was.2 m,
          ),
      λ both. Matches-state_matches_view s v (shown-Matches v0 v s was.2 given both.1),
    )

-- A state that is made from a view whose minimum width is no string matches the view.
pub copied_matches :
    (v : StateView) → v.min_width_is_string ≡ false → state_matches_view (copied v) v ≡ true
copied_matches v plain =
    Matches-state_matches_view (copied v) v
      (shown-Matches v v (copied v) refl (λ is. absurd (ground arith)) refl)
