-- ===== src/Instance/Routing.antt =====
-- A click with the instance that was rendered for an item of src/main.c finds that item.
use mathlib.Core.List.{append-nil}
use i3sd.Common.{
  ap, ℕ, zero, suc, ◌+◌, ◌-◌, ◌≤◌, ◌<◌, ◌≡◌, ◌≢◌, inl, inr, refl, sym, ◌∙◌, true, false, Option,
  none, some, List, [], ◌∷◌, ◌++◌, length, take, drop, take-all, length-append, list_eq_sound,
  list_eq_refl, ltb, Bool-cases, arith,
}
use i3sd.Items.{Block}
use i3sd.State.Views.{c_string}
use i3sd.Instance.{
  Content, is_visible, token_len, instance_max, decimal, format_instance, find_by_id, id_is,
  find_by_number, find_clicked_item,
}
use i3sd.Instance.Decimal.{read_number-decimal, length-decimal}

take-prefix : (n : ℕ) (xs ys : List ℕ) → length xs ≡ n → take n (xs ++ ys) ≡ xs
take-prefix zero [] ys e = refl
take-prefix zero (x ∷ xs) ys e = absurd (omega arith)
take-prefix (suc n) [] ys e = absurd (omega arith)
take-prefix (suc n) (x ∷ xs) ys e = ap (◌∷◌ x) (take-prefix n xs ys (omega arith))

drop-prefix : (n : ℕ) (xs ys : List ℕ) → length xs ≡ n → drop n (xs ++ ys) ≡ ys
drop-prefix zero [] ys e = refl
drop-prefix zero (x ∷ xs) ys e = absurd (omega arith)
drop-prefix (suc n) [] ys e = absurd (omega arith)
drop-prefix (suc n) (x ∷ xs) ys e = drop-prefix n xs ys (omega arith)

-- How the instance of the item at `i` tells it from the others: it is the only one; or it is the first
-- with its id, which is a string as materialize_item accepts it; or it has no id, and a position that
-- three digits hold.
pub data Addressing (b : Block Content) (i : ℕ) : Type 0 where
  single : b.list_mode ≡ false → b.item_count ≡ 1 → Addressing b i
  by_id :
      (id : List ℕ)
      → b.list_mode ≡ true
      → (b.items i).id ≡ some id
      → 1 ≤ length id
      → length id ≤ 255
      → c_string id ≡ id
      → ((j : ℕ) → j < i → (b.items j).id ≢ some id)
      → Addressing b i
  by_position : b.list_mode ≡ true → (b.items i).id ≡ none → i < 999 → Addressing b i

-- A rendered item of a block, with its place in it.
pub record Rendered (b : Block Content) (i : ℕ) : Type 0 where
  pub place : i < b.item_count
  pub visible : is_visible (b.items i) ≡ true
  pub token : length b.token ≡ token_len
  pub addressing : Addressing b i

id_is_sound : (id : Option (List ℕ)) (key : List ℕ) → id_is id key ≡ true → id ≡ some key
id_is_sound none key h = cc
id_is_sound (some id) key h = ground (arith, list_eq_sound id key)

id_is_refl : (key : List ℕ) → id_is (some key) key ≡ true
id_is_refl key = ground (arith, list_eq_refl key)

find_by_id-first :
    (b : Block Content) (key : List ℕ) (index remaining i : ℕ)
    → index ≤ i
    → i < index + remaining
    → (b.items i).id ≡ some key
    → is_visible (b.items i) ≡ true
    → ((j : ℕ) → j < i → (b.items j).id ≢ some key)
    → find_by_id b key index remaining ≡ some i
unfolding find_by_id
find_by_id-first b key index zero i h k e v first = absurd (omega arith)
find_by_id-first b key index (suc remaining) i h k e v first =
    elim (Bool-cases (id_is (b.items index).id key)) [
      | inl found ↦
          let here : index ≡ i = elim (Bool-cases (ltb index i)) [
            | inl before ↦
                absurd (first index (ground arith) (id_is_sound (b.items index).id key found))
            | inr after ↦ ground arith
          ] in
          rw found (rw here (rw v refl))
      | inr other ↦
          let passed : index ≢ i = λ same.
            let yes_it_is : id_is (b.items index).id key ≡ true = rw (same, e) (id_is_refl key) in
            ground arith in
          rw other
            (find_by_id-first b key (index + 1) remaining i (omega arith) (omega arith) e v first)
    ]

module _ (b : Block Content) (i : ℕ) where
  find-id :
      (id : List ℕ)
      → b.list_mode ≡ true
      → 1 ≤ length id
      → find_clicked_item b (b':' ∷ id) ≡ find_by_id b id 0 b.item_count
  unfolding find_clicked_item
  find-id id listed long = rw listed (ground arith)

  find-number :
      b.list_mode ≡ true
      → i < 999
      → i < b.item_count
      → (b.items i).id ≡ none
      → is_visible (b.items i) ≡ true
      → find_clicked_item b (b'#' ∷ decimal (i + 1)) ≡ some i
  unfolding find_clicked_item find_by_number
  find-number listed small place none_given v =
      let size = length-decimal (i + 1) (omega arith) in
      let number = read_number-decimal (i + 1) in
      let back : i + 1 - 1 ≡ i = omega arith in
      rw (listed, number) (rw back (rw none_given (rw v (ground arith))))

  suffix_found :
      (suffix : List ℕ)
      → Rendered b i
      → format_instance b b.list_mode (b.items i).id i ≡ take (instance_max - 1) (b.token ++ suffix)
      → length suffix ≤ 256
      → find_clicked_item b suffix ≡ some i
      → (take token_len (format_instance b b.list_mode (b.items i).id i) ≡ b.token)
        × (find_clicked_item b (drop token_len (format_instance b b.list_mode (b.items i).id i))
            ≡ some i)
  suffix_found suffix r e short found =
      let whole : take (instance_max - 1) (b.token ++ suffix) ≡ b.token ++ suffix =
        take-all (instance_max - 1) (b.token ++ suffix)
          (omega (arith, r.token, length-append {0} b.token suffix)) in
      (
        rw (e, whole) (take-prefix token_len b.token suffix r.token),
        rw (e, whole) (rw (drop-prefix token_len b.token suffix r.token) found),
      )

  -- The instance that is rendered for an item starts with the token of its block, and what follows the
  -- token leads a click back to that item: for the only item of a block with one state, for the first
  -- item with an id, and for an item without an id among the first 999.
  pub format_instance-Found :
      Rendered b i
      → (take token_len (format_instance b b.list_mode (b.items i).id i) ≡ b.token)
        × (find_clicked_item b (drop token_len (format_instance b b.list_mode (b.items i).id i))
            ≡ some i)
  unfolding format_instance
  format_instance-Found r = elim r.addressing [
    | single one_state one ↦
        let here : i ≡ 0 = let p = r.place in omega arith in
        let v : is_visible (b.items 0) ≡ true = rw (← here) r.visible in
        suffix_found [] r (rw one_state (ap (take (instance_max - 1)) (sym (append-nil b.token))))
          (omega arith) (rw here (unfold find_clicked_item in rw (one_state, one) (rw v refl)))
    | by_id id listed given nonempty short clean first ↦
        suffix_found (b':' ∷ id) r (rw (listed, given) (rw clean refl)) (omega arith) (
          find-id id listed nonempty
          ∙ find_by_id-first b id 0 b.item_count i (omega arith) (let p = r.place in omega arith)
              given r.visible first)
    | by_position listed missing small ↦
        suffix_found (b'#' ∷ decimal (i + 1)) r (rw (listed, missing) refl)
          (let size = length-decimal (i + 1) (omega arith) in omega arith)
          (find-number listed small r.place missing r.visible)
  ]
