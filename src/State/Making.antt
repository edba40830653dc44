-- ===== src/State/Making.antt =====
-- The tests and the copies of materialize_state of src/main.c.
use i3sd.Common.{
  ℕ, ◌≤◌, ◌≡◌, ◌↔◌, inl, inr, refl, Bool, true, false, not, Option, none, some, List, [], ◌∷◌,
  length, Option-cases, arith,
}
use i3sd.Common.Int.{within, negative}
use i3sd.Utf8.{valid_utf8}
use i3sd.Items.{valid_color}
use i3sd.State.{
  TextField, color, background, border, align, markup, Border, StateView, BlockState, StateError,
  invalid_border, no_memory, Result, ok, err, ◌>>◌, fail_if, text_fields, border_fields, limit_of,
  max_text, int_max, valid_text, bytes_of, check_texts, check_borders, Copy, text_copy,
  min_width_copy, copy_texts, enum_value, copied, left_text, center_text, right_text, none_text,
  pango_text, materialize_state,
}

-- `P` holds of each member.
abbrev pub All {ℓ κ} : {A : Type ℓ} → (A → Type κ) → List A → Type κ
All P [] = Unit
All P (x ∷ xs) = P x × All P xs

-- `P` holds of the value, if there is one.
abbrev pub Given {ℓ κ} : {A : Type ℓ} → (A → Type κ) → Option A → Type κ
Given P none = Unit
Given P (some x) = P x

-- Valid NUL-free UTF-8 of at most so many bytes.
abbrev pub IsText : ℕ → List ℕ → Type 0
IsText limit text = (length text ≤ limit) × (valid_utf8 text ≡ true)

-- The tests that pass.
pub record IsChecked (v : StateView) : Type 0 where
  pub texts : All (λ field. Given (IsText (limit_of field)) (v.text field)) text_fields
  pub borders : All (λ side. within (v.border_width side) int_max ≡ true) border_fields
  pub width_string : v.min_width_is_string ≡ true → IsText max_text (bytes_of v.min_width_text)
  pub width_integer : v.min_width_is_string ≡ false → negative v.min_width_integer ≡ false
  pub colors :
      (valid_color (v.text color) ≡ true)
      × (valid_color (v.text background) ≡ true)
      × (valid_color (v.text border) ≡ true)
  pub alignment : enum_value (v.text align) left_text center_text (some right_text) ≡ true
  pub markups : enum_value (v.text markup) none_text pango_text none ≡ true

-- Each string that is copied finds memory.
pub record IsStored (memory : Copy → Bool) (v : StateView) : Type 0 where
  pub texts :
      All
        (λ field. Given (λ (_ : List ℕ). memory (text_copy field) ≡ true) (v.text field))
        text_fields
  pub width : v.min_width_is_string ≡ true → memory min_width_copy ≡ true

then_ok :
    {B : Type 0} (m : Result (Unit {0})) (k : Result B) {b : B}
    → (m >> k) ≡ ok b
    → (m ≡ ok tt) × (k ≡ ok b)
then_ok (ok tt) k h = (refl, h)
then_ok (err e) k h = cc

fail_if_ok : (b : Bool) (e : StateError) → fail_if b e ≡ ok tt → b ≡ false
fail_if_ok true e h = cc
fail_if_ok false e h = refl

valid_text-IsText :
    (text : List ℕ) (limit : ℕ) → not (valid_text text limit) ≡ false → IsText limit text
unfolding valid_text
valid_text-IsText text limit h = (ground arith, ground arith)

IsText-valid_text : (text : List ℕ) (limit : ℕ) → IsText limit text → valid_text text limit ≡ true
unfolding valid_text
IsText-valid_text text limit h = ground arith

check_texts_ok :
    (v : StateView) (fields : List TextField)
    → check_texts v fields ≡ ok tt
    → All (λ field. Given (IsText (limit_of field)) (v.text field)) fields
unfolding check_texts
check_texts_ok v [] h = tt
check_texts_ok v (field ∷ rest) h = elim (Option-cases (v.text field)) [
  | inl absent ↦ (rw absent tt, check_texts_ok v rest (rw (absent, check_texts) at h))
  | inr (text, present) ↦
      let parts = then_ok _ _ (rw (present, check_texts) at h) in
      (
        rw present (valid_text-IsText text (limit_of field) (fail_if_ok _ _ parts.0)),
        check_texts_ok v rest parts.1,
      )
]

ok-check_texts :
    (v : StateView) (fields : List TextField)
    → All (λ field. Given (IsText (limit_of field)) (v.text field)) fields
    → check_texts v fields ≡ ok tt
unfolding check_texts
ok-check_texts v [] h = refl
ok-check_texts v (field ∷ rest) (h, others) = elim (Option-cases (v.text field)) [
  | inl absent ↦ rw (absent, check_texts) (ok-check_texts v rest others)
  | inr (text, present) ↦
      rw (present, check_texts)
        (rw (IsText-valid_text text (limit_of field) (rw present at h))
          (ok-check_texts v rest others))
]

check_borders_ok :
    (v : StateView) (sides : List Border)
    → check_borders v sides ≡ ok tt
    → All (λ side. within (v.border_width side) int_max ≡ true) sides
unfolding check_borders
check_borders_ok v [] h = tt
check_borders_ok v (side ∷ rest) h =
    let parts = then_ok _ _ h in
    (
      ground (
        arith,
        fail_if_ok (not (within (v.border_width side) int_max)) (invalid_border side) parts.0,
      ),
      check_borders_ok v rest parts.1,
    )

ok-check_borders :
    (v : StateView) (sides : List Border)
    → All (λ side. within (v.border_width side) int_max ≡ true) sides
    → check_borders v sides ≡ ok tt
unfolding check_borders
ok-check_borders v [] h = refl
ok-check_borders v (side ∷ rest) (h, others) = rw h (ok-check_borders v rest others)

copy_texts_ok :
    (memory : Copy → Bool) (v : StateView) (fields : List TextField)
    → copy_texts memory v fields ≡ ok tt
    → All (λ field. Given (λ (_ : List ℕ). memory (text_copy field) ≡ true) (v.text field)) fields
unfolding copy_texts
copy_texts_ok memory v [] h = tt
copy_texts_ok memory v (field ∷ rest) h = elim (Option-cases (v.text field)) [
  | inl absent ↦ (rw absent tt, copy_texts_ok memory v rest (rw (absent, copy_texts) at h))
  | inr (text, present) ↦
      let parts = then_ok _ _ (rw (present, copy_texts) at h) in
      (
        rw present (ground (arith, fail_if_ok (not (memory (text_copy field))) no_memory parts.0)),
        copy_texts_ok memory v rest parts.1,
      )
]

ok-copy_texts :
    (memory : Copy → Bool) (v : StateView) (fields : List TextField)
    → All (λ field. Given (λ (_ : List ℕ). memory (text_copy field) ≡ true) (v.text field)) fields
    → copy_texts memory v fields ≡ ok tt
unfolding copy_texts
ok-copy_texts memory v [] h = refl
ok-copy_texts memory v (field ∷ rest) (h, others) = elim (Option-cases (v.text field)) [
  | inl absent ↦ rw (absent, copy_texts) (ok-copy_texts memory v rest others)
  | inr (text, present) ↦
      let found : memory (text_copy field) ≡ true = rw present at h in
      rw (present, copy_texts) (rw found (ok-copy_texts memory v rest others))
]

materialize_state_ok :
    (memory : Copy → Bool) (v : StateView) (s : BlockState)
    → materialize_state memory v ≡ ok s
    → IsChecked v × IsStored memory v × (s ≡ copied v)
unfolding materialize_state
materialize_state_ok memory v s h =
    let passed : check_texts v text_fields ≡ ok tt = ground arith in
    let bounded : check_borders v border_fields ≡ ok tt = ground arith in
    let stored : copy_texts memory v text_fields ≡ ok tt = ground arith in
    (
      record {
        texts = check_texts_ok v text_fields passed;
        borders = check_borders_ok v border_fields bounded;
        width_string = λ is. valid_text-IsText (bytes_of v.min_width_text) max_text (ground arith);
        width_integer = λ is. ground arith;
        colors = ground arith;
        alignment = ground arith;
        markups = ground arith;
      },
      record { texts = copy_texts_ok memory v text_fields stored; width = λ is. ground arith },
      ground arith,
    )

ok-materialize_state :
    (memory : Copy → Bool) (v : StateView)
    → IsChecked v
    → IsStored memory v
    → materialize_state memory v ≡ ok (copied v)
unfolding materialize_state
ok-materialize_state memory v good found = rw (ok-check_texts v text_fields good.texts) (
    rw (ok-check_borders v border_fields good.borders) (
      rw (ok-copy_texts memory v text_fields found.texts)
        (ground (arith, IsText-valid_text (bytes_of v.min_width_text) max_text))))

-- The tests and the copies that succeed, and the state that is made.
pub materialize_state_parts :
    (memory : Copy → Bool) (v : StateView) (s : BlockState)
    → (materialize_state memory v ≡ ok s) ↔ (IsChecked v × IsStored memory v × (s ≡ copied v))
materialize_state_parts memory v s = (
  materialize_state_ok memory v s,
  λ (good, found, e). rw e (ok-materialize_state memory v good found),
)
