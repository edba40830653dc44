-- ===== src/Click/Text.antt =====
-- Whole events of src/click.c: any bracketed text with strings.
use mathlib.Core.List.{append_assoc, append-nil}
use i3sd.Common.{
  ℕ, suc, ◌+◌, ◌≤◌, ◌<◌, max, ◌≡◌, refl, sym, ap, ◌∙◌, ◌≢◌, Bool, true, false, List, [], ◌∷◌, ◌++◌,
  length, length-append, u32_mod, arith,
}
use i3sd.Click.{Framer, quote, backslash, go_on, step, store, classify, feed_from}
use i3sd.Click.Inside.{Inside, store-Inside}
use i3sd.Click.Bytes.{
  is_open, is_close, Goes, classify_plain, classify_quote, classify_open, classify_close,
  classify_char, classify_unquote, classify_backslash, classify_escaped,
}

-- The inside of a string: bytes and escaped bytes.
pub data Chars : Type 0 where
  end : Chars
  char : (byte : ℕ) → byte ≢ quote → byte ≢ backslash → Chars → Chars
  escape : ℕ → Chars → Chars

abbrev pub print_chars : Chars → List ℕ
print_chars end = quote ∷ []
print_chars (char byte _ _ cs) = byte ∷ print_chars cs
print_chars (escape byte cs) = backslash ∷ byte ∷ print_chars cs

-- The inside of brackets: plain bytes, strings and brackets. Every JSON object and array is such a
-- text. As in the source, a bracket may close another kind of bracket.
pub data Text : Type 0 where
  blank : Text
  plain : (byte : ℕ) → is_open byte ≡ false → is_close byte ≡ false → byte ≢ quote → Text → Text
  string : Chars → Text → Text
  nested :
      (opening closing : ℕ) → is_open opening ≡ true → is_close closing ≡ true → Text → Text → Text

abbrev pub print : Text → List ℕ
print blank = []
print (plain byte _ _ _ t) = byte ∷ print t
print (string cs t) = quote ∷ print_chars cs ++ print t
print (nested opening closing _ _ inner t) = opening ∷ print inner ++ closing ∷ print t

abbrev pub nesting : Text → ℕ
nesting blank = 0
nesting (plain _ _ _ _ t) = nesting t
nesting (string _ t) = nesting t
nesting (nested _ _ _ _ inner t) = max (suc (nesting inner)) (nesting t)

-- Every allocation succeeds.
abbrev pub memory : ℕ → ℕ → Bool
memory _ _ = true

-- The framer reads the bytes with no `return` and is then another.
pub data Reaches : Framer → List ℕ → Framer → Type 0 where
  done : {f : Framer} → Reaches f [] f
  next :
      {f g h : Framer} {bytes : List ℕ} (byte : ℕ)
      → step (λ _. true) f byte ≡ go_on g
      → Reaches g bytes h
      → Reaches f (byte ∷ bytes) h

pub Reaches-append :
    {f g h : Framer} {bytes more : List ℕ}
    → Reaches f bytes g
    → Reaches g more h
    → Reaches f (bytes ++ more) h
Reaches-append done r = r
Reaches-append (next byte e q) r = next byte e (Reaches-append q r)

pub feed_from-Reaches :
    {f g : Framer} {bytes : List ℕ} (index : ℕ) (rest : List ℕ)
    → Reaches f bytes g
    → feed_from memory f index (bytes ++ rest) ≡ feed_from memory g (index + length bytes) rest
unfolding feed_from
feed_from-Reaches {g = g} index rest done = ap (λ n. feed_from memory g n rest) (omega arith)
feed_from-Reaches {g = g} index rest (next {bytes = bytes} byte e q) =
    rw (e, feed_from)
      (feed_from-Reaches (suc index) rest q ∙ ap (λ n. feed_from memory g n rest) (omega arith))

pub Inside-cast :
    {s e : Bool} {w w' : List ℕ} {m m' d d' : ℕ} {f : Framer}
    → w ≡ w'
    → m ≡ m'
    → d ≡ d'
    → Inside s e w m d f
    → Inside s e w' m' d' f
Inside-cast p q r h = rw (← p, ← q, ← r) h

-- One byte inside an event.
pub step-inside :
    {s e : Bool} (w : List ℕ) (m d : ℕ) (f : Framer) (byte : ℕ)
    → Inside s e w m d f
    → step (λ _. true) f byte ≡ classify (store (λ _. true) f byte) byte
unfolding step
step-inside w m d f byte h = simp (h.outer, h.within)

inside-step :
    {s e : Bool} (w : List ℕ) (m d : ℕ) (f : Framer) (byte : ℕ) {P : Framer → Type 0}
    → Inside s e w m d f
    → Goes (classify (store (λ _. true) f byte) byte) P
    → Goes (step (λ _. true) f byte) P
inside-step w m d f byte h (g, e, p) = (g, step-inside w m d f byte h ∙ e, p)

module _ (s e : Bool) where
  -- The framer reads `bytes` behind `w` and is then inside the event as said.
  abbrev pub Moves : List ℕ → List ℕ → ℕ → ℕ → Framer → Type 0
  Moves w bytes m d f = (g : Framer) × Reaches f bytes g × Inside s e (w ++ bytes) m d g

-- Store a byte, then go on with the bytes behind it.
Moves-next :
    {s e s' e' s₂ e₂ : Bool} (w : List ℕ) (m d : ℕ) (f : Framer) (byte : ℕ) (bytes : List ℕ)
    {m' d' m₂ d₂ : ℕ}
    → Inside s e w m d f
    → Goes (classify (store (λ _. true) f byte) byte) (Inside s' e' (w ++ byte ∷ []) m' d')
    → ((g : Framer)
        → Inside s' e' (w ++ byte ∷ []) m' d' g
        → Moves s₂ e₂ (w ++ byte ∷ []) bytes m₂ d₂ g)
    → Moves s₂ e₂ w (byte ∷ bytes) m₂ d₂ f
Moves-next w m d f byte bytes h goes more =
    let (g, e, inside) = inside-step w m d f byte h goes in
    let (last, reaches, final) = more g inside in
    (last, next byte e reaches, Inside-cast (append_assoc w (byte ∷ []) bytes) refl refl final)

Moves-append :
    {s e s₂ e₂ : Bool} (w : List ℕ) (f : Framer) (bytes more : List ℕ) {m d m₂ d₂ : ℕ}
    → Moves s e w bytes m d f
    → ((g : Framer) → Inside s e (w ++ bytes) m d g → Moves s₂ e₂ (w ++ bytes) more m₂ d₂ g)
    → Moves s₂ e₂ w (bytes ++ more) m₂ d₂ f
Moves-append w f bytes more (g, reaches, inside) k =
    let (last, further, final) = k g inside in
    (last, Reaches-append reaches further, Inside-cast (append_assoc w bytes more) refl refl final)

pub stored :
    {s e : Bool} (w : List ℕ) (m d : ℕ) (f : Framer) (byte : ℕ)
    → Inside s e w m d f
    → Inside s e (w ++ byte ∷ []) m d (store (λ _. true) f byte)
stored w m d f byte h = store-Inside (λ _. true) w m d f byte (λ _. refl) h

run_chars :
    (cs : Chars) (w : List ℕ) (m d : ℕ) (f : Framer)
    → Inside true false w m d f
    → Moves false false w (print_chars cs) m d f
run_chars end w m d f h =
    Moves-next w m d f quote [] h (classify_unquote _ m d _ quote (stored w m d f quote h) refl)
      (λ g inside. (g, done, rw append-nil inside))
run_chars (char byte p q cs) w m d f h =
    let inside = stored w m d f byte h in
    Moves-next w m d f byte (print_chars cs) h (_, classify_char _ m d _ byte inside p q, inside)
      (run_chars cs (w ++ byte ∷ []) m d)
run_chars (escape byte cs) w m d f h =
    Moves-next w m d f backslash (byte ∷ print_chars cs) h
      (classify_backslash _ m d _ backslash (stored w m d f backslash h) refl)
      (λ g inside.
        Moves-next (w ++ backslash ∷ []) m d g byte (print_chars cs) inside
          (classify_escaped _ m d _ byte (stored (w ++ backslash ∷ []) m d g byte inside))
          (run_chars cs (w ++ backslash ∷ [] ++ byte ∷ []) m d))

-- The framer reads a whole text, and is then as deep as before.
pub run_text :
    (t : Text) (w : List ℕ) (m d : ℕ) (f : Framer)
    → Inside false false w m d f
    → 1 ≤ length w
    → 1 ≤ d
    → d + nesting t < u32_mod
    → Moves false false w (print t) (max m (d + nesting t)) d f
run_text blank w m d f h started deep small =
    (f, done, Inside-cast (sym (append-nil w)) (omega (arith, h.top)) refl h)
run_text (plain byte p q r t) w m d f h started deep small =
    let inside = stored w m d f byte h in
    let size = length-append w (byte ∷ []) in
    Moves-next w m d f byte (print t) h (_, classify_plain _ m d _ byte inside p q r, inside)
      (λ g i. run_text t (w ++ byte ∷ []) m d g i (omega arith) deep small)
run_text (string cs t) w m d f h started deep small =
    let size = length-append w (quote ∷ []) in
    let long = length-append (w ++ quote ∷ []) (print_chars cs) in
    Moves-next w m d f quote (print_chars cs ++ print t) h
      (classify_quote _ m d _ quote (stored w m d f quote h) refl)
      (λ g i.
        Moves-append (w ++ quote ∷ []) g (print_chars cs) (print t)
          (run_chars cs (w ++ quote ∷ []) m d g i)
          (λ g' i'.
            run_text t (w ++ quote ∷ [] ++ print_chars cs) m d g' i' (omega arith) deep small))
run_text (nested opening closing p q inner t) w m d f h started deep small =
    let size = length-append w (opening ∷ []) in
    let w₁ = w ++ opening ∷ [] in
    let w₂ = w₁ ++ print inner in
    let long = length-append w₁ (print inner) in
    let longer = length-append w₂ (closing ∷ []) in
    let m₁ = max m (suc d) in
    let m₂ = max m₁ (suc d + nesting inner) in
    Moves-next w m d f opening (print inner ++ closing ∷ print t) h
      (classify_open _ m d _ opening (stored w m d f opening h) p (omega arith) (omega arith)
        (omega (arith, h.top, h.shallow)))
      (λ g i.
        Moves-append w₁ g (print inner) (closing ∷ print t)
          (run_text inner w₁ m₁ (suc d) g i (omega arith) (omega arith) (omega arith))
          (λ g' i'.
            Moves-next w₂ m₂ (suc d) g' closing (print t) i'
              (classify_close _ m₂ (suc d) _ closing (stored w₂ m₂ (suc d) g' closing i') q
                (omega arith))
              (λ g'' i''.
                let (last, r, final) =
                  run_text t (w₂ ++ closing ∷ []) m₂ d g'' (Inside-cast refl refl (omega arith) i'')
                    (omega arith) deep (omega arith) in
                (last, r, Inside-cast refl (omega arith) refl final))))
