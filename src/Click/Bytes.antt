-- ===== src/Click/Bytes.antt =====
-- What each kind of byte does to the framer of src/click.c inside an event, once it is stored.
use i3sd.Common.{
  ℕ, suc, ◌+◌, ◌-◌, ◌≤◌, ◌<◌, ◌%◌, max, ◌≡◌, refl, ap, ◌∙◌, ◌≢◌, Bool, true, false, ◌||◌, List, ltb,
  ◌==◌, if◌then◌else◌, length, u32_mod, arith,
}
use i3sd.Buffer.{len}
use i3sd.Click.{
  Framer, click_max_depth, quote, backslash, event, dropped, Outcome, go_on, stop, string_byte,
  open_bracket, close_bracket, classify, reset_event,
}
use i3sd.Click.Inside.{oversize, Inside}

abbrev pub is_open : ℕ → Bool
is_open b = b == b'{' || b == b'['

abbrev pub is_close : ℕ → Bool
is_close b = b == b'}' || b == b']'

-- The round goes on to a framer that satisfies `P`.
abbrev pub Goes : Outcome → (Framer → Type 0) → Type 0
Goes o P = (g : Framer) × (o ≡ go_on g) × P g

module _ (w : List ℕ) (m d : ℕ) (f : Framer) (byte : ℕ) where
  module _ (h : Inside false false w m d f) where
    pub classify_plain :
        is_open byte ≡ false → is_close byte ≡ false → byte ≢ quote → classify f byte ≡ go_on f
    unfolding classify
    classify_plain p q r = ground (arith, h.string)

    pub classify_quote : byte ≡ quote → Goes (classify f byte) (Inside true false w m d)
    unfolding classify
    classify_quote p = (
      record f { in_string = true },
      ground (arith, h.string),
      record {
        outer = h.outer;
        within = h.within;
        alive = h.alive;
        string = refl;
        escape = h.escape;
        level = h.level;
        top = h.top;
        shallow = h.shallow;
        discards = h.discards;
        holds = h.holds;
        some_held = h.some_held;
        valid = h.valid;
      },
    )

    open_bracket-eq :
        2 ≤ length w
        → suc d < u32_mod
        → open_bracket f byte
          ≡ record f { depth = suc d; discarding = f.discarding || ltb click_max_depth (suc d) }
    unfolding open_bracket
    open_bracket-eq two small =
        let e : (f.depth + 1) % u32_mod ≡ suc d = omega (arith, h.level) in
        let long : len f.event ≢ 1 = omega (arith, h.some_held) in ground arith

    classify_open_lem : is_open byte ≡ true → classify f byte ≡ go_on (open_bracket f byte)
    unfolding classify
    classify_open_lem p = ground (arith, h.string)

    classify_close_lem : is_close byte ≡ true → classify f byte ≡ close_bracket f
    unfolding classify
    classify_close_lem p = ground (arith, h.string)

    close_bracket-eq : 2 ≤ d → close_bracket f ≡ go_on (record f { depth = f.depth - 1 })
    unfolding close_bracket
    close_bracket-eq two = ground (arith, h.level)

    pub classify_open :
        is_open byte ≡ true
        → 2 ≤ length w
        → suc d < u32_mod
        → suc d ≤ length w
        → Goes (classify f byte) (Inside false false w (max m (suc d)) (suc d))
    classify_open p two small room =
        let e = f.discarding || ltb click_max_depth (suc d) in
        (
          record f { depth = suc d; discarding = e },
          classify_open_lem p ∙ ap go_on (open_bracket-eq two small),
          record {
            outer = h.outer;
            within = h.within;
            alive = h.alive;
            string = h.string;
            escape = h.escape;
            level = refl;
            top = omega arith;
            shallow = omega (arith, h.shallow);
            discards = ground (arith, h.discards);
            holds = λ x. h.holds (ground arith);
            some_held = h.some_held;
            valid = h.valid;
          },
        )

    pub classify_close :
        is_close byte ≡ true → 2 ≤ d → Goes (classify f byte) (Inside false false w m (d - 1))
    classify_close p two = (
      record f { depth = f.depth - 1 },
      classify_close_lem p ∙ close_bracket-eq two,
      record {
        outer = h.outer;
        within = h.within;
        alive = h.alive;
        string = h.string;
        escape = h.escape;
        level = omega (arith, h.level);
        top = omega (arith, h.top);
        shallow = h.shallow;
        discards = h.discards;
        holds = h.holds;
        some_held = h.some_held;
        valid = h.valid;
      },
    )

    -- The bracket that ends the event.
    pub classify_last :
        is_close byte ≡ true
        → d ≡ 1
        → classify f byte ≡ (
            if oversize w m
            then stop (reset_event (record f { depth = 0 })) dropped
            else stop (record f { depth = 0; in_event = false }) event)
    unfolding close_bracket
    classify_last p last =
        let e : f.depth ≡ 1 = omega (arith, h.level) in
        let none_left : f.depth - 1 ≡ 0 = omega arith in
        classify_close_lem p ∙ rw none_left (ground (arith, h.discards))

  module _ (h : Inside true false w m d f) where
    pub classify_char : byte ≢ quote → byte ≢ backslash → classify f byte ≡ go_on f
    unfolding classify string_byte
    classify_char p q = ground (arith, h.string, h.escape)

    pub classify_unquote : byte ≡ quote → Goes (classify f byte) (Inside false false w m d)
    unfolding classify string_byte
    classify_unquote p = (
      record f { in_string = false },
      ground (arith, h.string, h.escape),
      record {
        outer = h.outer;
        within = h.within;
        alive = h.alive;
        string = refl;
        escape = h.escape;
        level = h.level;
        top = h.top;
        shallow = h.shallow;
        discards = h.discards;
        holds = h.holds;
        some_held = h.some_held;
        valid = h.valid;
      },
    )

    pub classify_backslash : byte ≡ backslash → Goes (classify f byte) (Inside true true w m d)
    unfolding classify string_byte
    classify_backslash p = (
      record f { escaped = true },
      ground (arith, h.string, h.escape),
      record {
        outer = h.outer;
        within = h.within;
        alive = h.alive;
        string = h.string;
        escape = refl;
        level = h.level;
        top = h.top;
        shallow = h.shallow;
        discards = h.discards;
        holds = h.holds;
        some_held = h.some_held;
        valid = h.valid;
      },
    )

  pub classify_escaped : Inside true true w m d f → Goes (classify f byte) (Inside true false w m d)
  unfolding classify string_byte
  classify_escaped h = (
    record f { escaped = false },
    ground (arith, h.string, h.escape),
    record {
      outer = h.outer;
      within = h.within;
      alive = h.alive;
      string = h.string;
      escape = refl;
      level = h.level;
      top = h.top;
      shallow = h.shallow;
      discards = h.discards;
      holds = h.holds;
      some_held = h.some_held;
      valid = h.valid;
    },
  )
