-- ===== src/Click/Events.antt =====
-- What a call of i3sd_click_framer_feed does with a whole event.
use mathlib.Core.List.{append_assoc}
use i3sd.Common.{
  ℕ, suc, ◌+◌, ◌<◌, ◌≡◌, refl, ap, ◌∙◌, inl, inr, Bool, true, false, ◌||◌, List, [], ◌∷◌, ◌++◌,
  ◌==◌, if◌then◌else◌, length, length-append, u32_mod, Bool-cases, arith,
}
use i3sd.Buffer.{clear}
use i3sd.Buffer.Bounds.{IsValid}
use i3sd.Click.{
  Framer, Outcome, go_on, stop, step, store, classify, reset_event, ClickResult, Feed, feed_from,
  feed, delivered, event, dropped, is_space, open_bracket,
}
use i3sd.Click.Inside.{oversize, Inside}
use i3sd.Click.Bytes.{is_close, classify_last}
use i3sd.Click.Text.{
  Text, print, nesting, memory, Reaches, done, next, Reaches-append, feed_from-Reaches, Moves,
  stored, step-inside, Inside-cast, run_text,
}

-- The framer between two events, behind the bracket that opens the stream.
pub record IsReady (f : Framer) : Type 0 where
  pub outer : f.outer_seen ≡ true
  pub between : f.in_event ≡ false
  pub alive : f.irrecoverable ≡ false
  pub string : f.in_string ≡ false
  pub escape : f.escaped ≡ false
  pub keeps : f.discarding ≡ false
  pub valid : IsValid f.event

-- The bytes that the source skips between two events.
abbrev pub is_gap : ℕ → Bool
is_gap b = is_space b || b == b',' || b == b']'

abbrev pub IsGap : List ℕ → Type 0
IsGap [] = Unit {0}
IsGap (b ∷ bytes) = (is_gap b ≡ true) × IsGap bytes

gap-Reaches : (f : Framer) (gap : List ℕ) → IsReady f → IsGap gap → Reaches f gap f
unfolding step is_space
gap-Reaches f [] h g = done
gap-Reaches f (b ∷ bytes) h (skip, g) =
    next b (ground (arith, h.outer, h.between)) (gap-Reaches f bytes h g)

-- The brace that begins an event.
start :
    (f : Framer)
    → IsReady f
    → Inside false false [] 1 1 (record f { event = clear f.event; in_event = true; depth = 1 })
unfolding clear
start f h = record {
  outer = h.outer;
  within = refl;
  alive = h.alive;
  string = h.string;
  escape = h.escape;
  level = refl;
  top = omega arith;
  shallow = omega arith;
  discards = h.keeps;
  holds = λ _. refl;
  some_held = omega arith;
  valid = record { fits = omega arith; word = h.valid.word };
}

step-begin :
    (f : Framer)
    → IsReady f
    → step (λ _. true) f b'{'
      ≡ classify
          (store (λ _. true) (record f { event = clear f.event; in_event = true; depth = 1 }) b'{')
          b'{'
unfolding step is_space
step-begin f h = simp (h.outer, h.between)

-- The first brace is not counted twice.
classify-begin : (g : Framer) → Inside false false (b'{' ∷ []) 1 1 g → classify g b'{' ≡ go_on g
unfolding classify open_bracket
classify-begin g h =
    let one = ap length (h.holds refl) in ground (arith, h.string, h.level, h.discards)

begin :
    (f : Framer)
    → IsReady f
    → (g : Framer) × (step (λ _. true) f b'{' ≡ go_on g) × Inside false false (b'{' ∷ []) 1 1 g
begin f h =
    let f₀ = record f { event = clear f.event; in_event = true; depth = 1 } in
    let g = store (λ _. true) f₀ b'{' in
    let inside : Inside false false (b'{' ∷ []) 1 1 g = stored [] 1 1 f₀ b'{' (start f h) in
    (g, step-begin f h ∙ classify-begin g inside, inside)

-- The bytes of an event.
abbrev pub event_bytes : Text → ℕ → List ℕ
event_bytes t closing = b'{' ∷ print t ++ closing ∷ []

to_last :
    (f : Framer) (t : Text)
    → IsReady f
    → suc (nesting t) < u32_mod
    → Moves false false [] (b'{' ∷ print t) (suc (nesting t)) 1 f
to_last f t h small =
    let (g, e, inside) = begin f h in
    let (last, reaches, final) =
      run_text t (b'{' ∷ []) 1 1 g inside (omega arith) (omega arith) (omega arith) in
    (last, next b'{' e reaches, Inside-cast refl (omega arith) refl final)

-- How the call ends at a bracket of depth one.
record Framed (w : List ℕ) (m : ℕ) (o : Outcome) (bytes : List ℕ) : Type 0 where
  framer : Framer
  result : ClickResult
  stops : o ≡ stop framer result
  ready : IsReady framer
  outcome : result ≡ (if oversize w m then dropped else event)
  given : delivered result framer ≡ (if oversize w m then [] else w)

last-Framed :
    (w : List ℕ) (m : ℕ) (f : Framer) (byte : ℕ)
    → Inside false false w m 1 f
    → is_close byte ≡ true
    → Framed w m (classify f byte) w
unfolding reset_event delivered clear
last-Framed w m f byte h close = elim (Bool-cases (oversize w m)) [
  | inl big ↦ record {
    framer = reset_event (record f { depth = 0 });
    result = dropped;
    stops = classify_last w m 1 f byte h close refl ∙ rw big;
    ready = record {
      outer = h.outer;
      between = refl;
      alive = h.alive;
      string = refl;
      escape = refl;
      keeps = refl;
      valid = record { fits = omega arith; word = h.valid.word };
    };
    outcome = rw big;
    given = rw big;
  }
  | inr fits ↦ record {
    framer = record f { depth = 0; in_event = false };
    result = event;
    stops = classify_last w m 1 f byte h close refl ∙ rw fits;
    ready = record {
      outer = h.outer;
      between = refl;
      alive = h.alive;
      string = h.string;
      escape = h.escape;
      keeps = h.discards ∙ fits;
      valid = h.valid;
    };
    outcome = rw fits;
    given = rw fits (h.holds fits);
  }
]

-- What a call of feed has done with the event `w` behind `skipped` other bytes.
pub record Delivers (skipped : ℕ) (w : List ℕ) (m : ℕ) (r : Feed) : Type 0 where
  pub consumed : r.consumed ≡ skipped + length w
  pub result : r.result ≡ (if oversize w m then dropped else event)
  pub bytes : r.event ≡ (if oversize w m then [] else w)
  pub ready : IsReady r.framer

feed_from-stop :
    (f : Framer) (index byte : ℕ) (rest : List ℕ) {g : Framer} {result : ClickResult}
    → step (λ _. true) f byte ≡ stop g result
    → feed_from memory f index (byte ∷ rest)
      ≡ record { framer = g; result = result; consumed = suc index; event = delivered result g }
unfolding feed_from
feed_from-stop f index byte rest e = rw (e, feed_from)

feed_ready :
    (f : Framer) (bytes : List ℕ)
    → f.irrecoverable ≡ false
    → feed memory f bytes ≡ feed_from memory f 0 bytes
unfolding feed
feed_ready f bytes e = rw (e, feed)

-- When every allocation succeeds and the framer stands between two events, a call that begins with
-- blanks, commas or closing brackets and then one whole event, whatever follows, consumes exactly
-- the blanks and the event and leaves the framer between two events. An event of at most 65536
-- bytes whose brackets are at most 32 deep is delivered byte for byte; any other is dropped.
pub feed-Delivers :
    (f : Framer) (gap rest : List ℕ) (t : Text) (closing : ℕ)
    → IsReady f
    → IsGap gap
    → is_close closing ≡ true
    → suc (nesting t) < u32_mod
    → Delivers
        (length gap)
        (event_bytes t closing)
        (suc (nesting t))
        (feed memory f (gap ++ event_bytes t closing ++ rest))
feed-Delivers f gap rest t closing h g close small =
    let (last, reaches, inside) = to_last f t h small in
    let w = event_bytes t closing in
    let start = b'{' ∷ print t in
    let end =
      last-Framed w (suc (nesting t)) _ closing
        (stored start (suc (nesting t)) 1 last closing inside) close in
    let whole = length-append start (closing ∷ []) in
    let behind = length-append gap start in
    let layout : gap ++ w ++ rest ≡ (gap ++ start) ++ closing ∷ rest = simp append_assoc in
    let run =
      feed_ready f (gap ++ w ++ rest) h.alive
      ∙ ap (feed_from memory f 0) layout
      ∙ feed_from-Reaches 0 (closing ∷ rest) (Reaches-append (gap-Reaches f gap h g) reaches)
      ∙ feed_from-stop last _ closing rest
          (step-inside start (suc (nesting t)) 1 last closing inside ∙ end.stops) in
    rw run (record {
      consumed = omega arith;
      result = end.outcome;
      bytes = end.given;
      ready = end.ready;
    })
