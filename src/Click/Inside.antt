-- ===== src/Click/Inside.antt =====
-- The framer of src/click.c inside an event: what it holds after some bytes of the event.
use native.Mathlib.Decide.{dec_le}
use i3sd.Common.{
  ℕ, ◌+◌, ◌≤◌, ◌<◌, min, max, ◌≡◌, sym, ap, ◌∙◌, ◌↔◌, ◌⊎◌, inl, inr, Bool, true, false, ◌||◌, List,
  [], ◌∷◌, ◌++◌, ltb, if◌then◌else◌, length, length-append, Bool-cases, arith,
}
use i3sd.Buffer.{Buffer, len, append, append_char}
use i3sd.Buffer.Bounds.{IsValid, Appended, added, refused, append-Appended, append-ok}
use i3sd.Click.{Framer, click_max_bytes, click_max_depth, store}

-- Whether an event of these bytes, with brackets as deep as `m`, is too large to deliver.
abbrev pub oversize : List ℕ → ℕ → Bool
oversize w m = ltb click_max_bytes (length w) || ltb click_max_depth m

-- The framer after the bytes `w` of an event, in a string or behind a backslash or neither, `d`
-- brackets deep now and `m` at most so far.
pub record Inside (s e : Bool) (w : List ℕ) (m d : ℕ) (f : Framer) : Type 0 where
  pub outer : f.outer_seen ≡ true
  pub within : f.in_event ≡ true
  pub alive : f.irrecoverable ≡ false
  pub string : f.in_string ≡ s
  pub escape : f.escaped ≡ e
  pub level : f.depth ≡ d
  pub top : d ≤ m
  pub shallow : m ≤ max 1 (length w)
  pub discards : f.discarding ≡ oversize w m
  pub holds : oversize w m ≡ false → f.event.bytes ≡ w
  pub some_held : min 2 (length w) ≤ len f.event
  pub valid : IsValid f.event

-- What the test means, in numbers that `omega` reads.
pub oversize_iff :
    (w : List ℕ) (m : ℕ)
    → (oversize w m ≡ true) ↔ ((click_max_bytes < length w) ⊎ (click_max_depth < m))
oversize_iff w m = (λ h. ground arith, λ h. ground arith)

pub oversize-false :
    (w : List ℕ) (m : ℕ)
    → oversize w m ≡ false
    → (length w ≤ click_max_bytes) × (m ≤ click_max_depth)
oversize-false w m h = (ground arith, ground arith)

oversize-le :
    (w w' : List ℕ) (m m' : ℕ)
    → length w ≤ length w'
    → m ≤ m'
    → oversize w m ≡ true
    → oversize w' m' ≡ true
oversize-le w w' m m' p q h = ground arith

module _ (realloc : ℕ → Bool) {s e : Bool} (w : List ℕ) (m d : ℕ) (f : Framer) (byte : ℕ)
    (found : (size : ℕ) → realloc size ≡ true) (h : Inside s e w m d f) where
  store-kept :
      (r : Bool × Buffer)
      → f.discarding ≡ false
      → Appended f.event (byte ∷ []) click_max_bytes r
      → IsValid r.1
      → (r.0 ≡ false → click_max_bytes < length (w ++ byte ∷ []))
      → Inside s e
          (w ++ byte ∷ [])
          m
          d
          (if r.0 then record f { event = r.1 } else record f { event = r.1; discarding = true })
  store-kept r keeps (added ok grown fits) valid full = rw ok (
      let size = length-append w (byte ∷ []) in
      let same = h.holds (sym h.discards ∙ keeps) in
      let small = oversize-false w m (sym h.discards ∙ keeps) in
      let whole : r.1.bytes ≡ w ++ byte ∷ [] = grown ∙ ap (λ v. v ++ byte ∷ []) same in
      let long = ap length whole in
      record {
        outer = h.outer;
        within = h.within;
        alive = h.alive;
        string = h.string;
        escape = h.escape;
        level = h.level;
        top = h.top;
        shallow = omega (arith, h.shallow);
        discards = ground arith;
        holds = λ _. whole;
        some_held = omega arith;
        valid = valid;
      })
  store-kept r keeps (refused ok old) valid full = rw ok (
      let size = length-append w (byte ∷ []) in
      let same = h.holds (sym h.discards ∙ keeps) in
      let over = full ok in
      let big = (oversize_iff (w ++ byte ∷ []) m).1 (inl over) in
      rw old (record {
        outer = h.outer;
        within = h.within;
        alive = h.alive;
        string = h.string;
        escape = h.escape;
        level = h.level;
        top = h.top;
        shallow = omega (arith, h.shallow);
        discards = sym big;
        holds = λ small. absurd (ground arith);
        some_held = omega (arith, ap length same);
        valid = h.valid;
      }))

  store-drops : f.discarding ≡ true → store realloc f byte ≡ f
  unfolding store
  store-drops drops = ground arith

  store-keeps :
      f.discarding ≡ false
      → store realloc f byte ≡ (
          let r = append realloc f.event (byte ∷ []) click_max_bytes in
          if r.0 then record f { event = r.1 } else record f { event = r.1; discarding = true })
  unfolding store append_char
  store-keeps keeps = simp keeps

  -- One more byte is stored, or dropped once the event is too large.
  pub store-Inside : Inside s e (w ++ byte ∷ []) m d (store realloc f byte)
  store-Inside =
      let size = length-append w (byte ∷ []) in
      elim (Bool-cases f.discarding) [
        | inl drops ↦ rw (store-drops drops) (
            let how = (oversize_iff w m).0 (sym h.discards ∙ drops) in
            let big =
              oversize-le w (w ++ byte ∷ []) m m (omega arith) (omega arith)
                (sym h.discards ∙ drops) in
            record {
              outer = h.outer;
              within = h.within;
              alive = h.alive;
              string = h.string;
              escape = h.escape;
              level = h.level;
              top = h.top;
              shallow = omega (arith, h.shallow);
              discards = drops ∙ sym big;
              holds = λ small. absurd (ground arith);
              some_held = omega (arith, h.some_held, h.shallow);
              valid = h.valid;
            })
        | inr keeps ↦ rw (store-keeps keeps) (
            let t =
              append-Appended realloc f.event (byte ∷ []) click_max_bytes h.valid (omega arith) in
            let same = ap length (h.holds (sym h.discards ∙ keeps)) in
            store-kept _ keeps t.2 t.0 (λ no_room. elim (dec_le (length w + 1) click_max_bytes) [
              | yes fits ↦
                  let fine =
                    append-ok realloc f.event (byte ∷ []) click_max_bytes found (omega arith)
                      (omega arith) in
                  absurd (ground arith)
              | no over ↦ omega arith
            ]))
      ]
