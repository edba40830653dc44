-- ===== src/PowerSupply/Fields.antt =====
-- Which uevents src/power_supply_events.c takes for events on a power supply.
use i3sd.Common.{
  ℕ, zero, suc, ◌≤◌, ◌<◌, ◌≡◌, ◌↔◌, ◌⊎◌, inl, inr, refl, ap, ◌∙◌, Bool, true, false, ◌&&◌, Option,
  none, some, List, [], ◌∷◌, ◌==◌, if◌then◌else◌, length, list_eq, list_eq_sound, Bool-cases,
  Option-cases, arith,
}
use i3sd.PowerSupply.{subsystem, split_field, scan_fields, event_is_power_supply}

-- A byte in front of the first field.
abbrev pub onto_first : ℕ → List (List ℕ) → List (List ℕ)
onto_first c [] = (c ∷ []) ∷ []
onto_first c (field ∷ fields) = (c ∷ field) ∷ fields

-- The fields of an event: what stands between its NULs.
unfoldable pub fields_of : List ℕ → List (List ℕ)
fields_of [] = [] ∷ []
fields_of (c ∷ event) = if c == 0 then [] ∷ fields_of event else onto_first c (fields_of event)

-- A field is one of the list.
abbrev pub Among : List ℕ → List (List ℕ) → Type 0
Among field [] = ⊥
Among field (first ∷ fields) = (first ≡ field) ⊎ Among field fields

-- What split_field leaves makes up the fields.
abbrev rejoined : List ℕ × Option (List ℕ) → List (List ℕ)
rejoined (field, none) = field ∷ []
rejoined (field, some next) = field ∷ fields_of next

onto_first-rejoined :
    (c : ℕ) (r : List ℕ × Option (List ℕ)) → onto_first c (rejoined r) ≡ rejoined (c ∷ r.0, r.1)
onto_first-rejoined c (field, none) = refl
onto_first-rejoined c (field, some next) = refl

fields_of-split : (event : List ℕ) → fields_of event ≡ rejoined (split_field event)
unfolding fields_of split_field
fields_of-split [] = refl
fields_of-split (c ∷ event) = elim (Bool-cases (c == 0)) [
  | inl ends ↦ rw ends refl
  | inr more ↦
      rw more
        (ap (onto_first c) (fields_of-split event) ∙ onto_first-rejoined c (split_field event))
]

-- What is left after a field is shorter than `n`.
abbrev Leaves : List ℕ × Option (List ℕ) → ℕ → Type 0
Leaves (field, none) n = Unit
Leaves (field, some next) n = length next < n

Leaves-more : (c n : ℕ) (r : List ℕ × Option (List ℕ)) → Leaves r n → Leaves (c ∷ r.0, r.1) (suc n)
Leaves-more c n (field, none) h = tt
Leaves-more c n (field, some next) h = omega arith

split_field-Leaves : (event : List ℕ) → Leaves (split_field event) (length event)
unfolding split_field
split_field-Leaves [] = tt
split_field-Leaves (c ∷ event) = elim (Bool-cases (c == 0)) [
  | inl ends ↦ rw ends (omega arith)
  | inr more ↦ rw more (Leaves-more c (length event) (split_field event) (split_field-Leaves event))
]

abbrev is_subsystem : List ℕ → Bool
is_subsystem field = length field == length subsystem && list_eq field subsystem

is_subsystem_sound : (field : List ℕ) → is_subsystem field ≡ true → field ≡ subsystem
is_subsystem_sound field h = list_eq_sound field subsystem (ground arith)

no_subsystem : (field : List ℕ) → is_subsystem field ≡ false → field ≡ subsystem → ⊥
no_subsystem field other same =
    let itself : is_subsystem field ≡ true = rw same refl in ground arith

-- A round of the loop, and what it means.
abbrev more_fields : ℕ → Option (List ℕ) → Bool
more_fields fuel none = false
more_fields fuel (some next) = scan_fields fuel next

scan_fields-step :
    (fuel c : ℕ) (event : List ℕ)
    → scan_fields (suc fuel) (c ∷ event) ≡ (
        if is_subsystem (split_field (c ∷ event)).0
        then true
        else more_fields fuel (split_field (c ∷ event)).1)
unfolding scan_fields
scan_fields-step fuel c event = elim (Option-cases (split_field (c ∷ event)).1) [
  | inl last ↦ rw last refl
  | inr (next, more) ↦ rw more refl
]

-- A field of the split is the subsystem, or one of those that are left.
round_iff :
    (r : List ℕ × Option (List ℕ)) (fuel : ℕ)
    → ((next : List ℕ)
        → r.1 ≡ some next
        → (scan_fields fuel next ≡ true) ↔ Among subsystem (fields_of next))
    → ((if is_subsystem r.0 then true else more_fields fuel r.1) ≡ true)
      ↔ Among subsystem (rejoined r)
round_iff (field, none) fuel ih = elim (Bool-cases (is_subsystem field)) [
  | inl here ↦ (λ h. inl (is_subsystem_sound field here), λ h. rw here refl)
  | inr other ↦ (
    λ h. absurd (ground arith),
    λ h. elim h [
      | inl same ↦ absurd (no_subsystem field other same)
      | inr impossible ↦ absurd impossible
    ],
  )
]
round_iff (field, some next) fuel ih = elim (Bool-cases (is_subsystem field)) [
  | inl here ↦ (λ h. inl (is_subsystem_sound field here), λ h. rw here refl)
  | inr other ↦ rw other (
    λ h. inr ((ih next refl).0 h),
    λ h. elim h [
      | inl same ↦ absurd (no_subsystem field other same)
      | inr later ↦ (ih next refl).1 later
    ],
  )
]

Leaves-short :
    (r : List ℕ × Option (List ℕ)) (n : ℕ) (next : List ℕ)
    → Leaves r n
    → r.1 ≡ some next
    → length next < n
Leaves-short (field, none) n next h e = absurd (ground arith)
Leaves-short (field, some rest) n next h e = let same : rest ≡ next = ground arith in rw (← same) h

nothing_left : Among subsystem (fields_of []) → ⊥
unfolding fields_of
nothing_left (inl same) = cc
nothing_left (inr impossible) = impossible

scan_fields_iff :
    (fuel : ℕ) (event : List ℕ)
    → length event ≤ fuel
    → (scan_fields fuel event ≡ true) ↔ Among subsystem (fields_of event)
scan_fields_iff zero [] h = (λ e. unfold scan_fields in cc, λ e. absurd (nothing_left e))
scan_fields_iff zero (c ∷ event) h = absurd (omega arith)
scan_fields_iff (suc fuel) [] h = (λ e. unfold scan_fields in cc, λ e. absurd (nothing_left e))
scan_fields_iff (suc fuel) (c ∷ event) h = rw (scan_fields-step fuel c event) (
    rw (fields_of-split (c ∷ event)) (
      round_iff (split_field (c ∷ event)) fuel (λ next e. scan_fields_iff fuel next (
        let shorter =
          Leaves-short (split_field (c ∷ event)) (length (c ∷ event)) next
            (split_field-Leaves (c ∷ event)) e in
        omega arith))))

-- The loop ends, and answers true exactly if one of the fields between the NULs of the event is
-- SUBSYSTEM=power_supply, whole.
pub event_is_power_supply_iff :
    (event : List ℕ) → (event_is_power_supply event ≡ true) ↔ Among subsystem (fields_of event)
unfolding event_is_power_supply
event_is_power_supply_iff event = scan_fields_iff (length event) event (omega arith)
