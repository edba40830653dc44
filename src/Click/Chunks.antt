-- ===== src/Click/Chunks.antt =====
-- How the input of the framer of src/click.c is cut into calls makes no difference.
use i3sd.Common.{
  ℕ, suc, ◌+◌, ◌≡◌, ◌≢◌, refl, sym, ap, ◌∙◌, ◌⊎◌, inl, inr, Bool, false, List, [], ◌∷◌, ◌++◌,
  length, arith,
}
use i3sd.Click.{
  Framer, ClickResult, none, event, dropped, fatal_framing, Outcome, go_on, stop, fail, step, store,
  string_byte, open_bracket, close_bracket, classify, Feed, feed_from, feed, delivered,
}

pub Outcome-cases :
    (o : Outcome)
    → ((g : Framer) × (o ≡ go_on g)) ⊎ ((g : Framer) × (r : ClickResult) × (o ≡ stop g r))
Outcome-cases (go_on g) = inl (g, refl)
Outcome-cases (stop g r) = inr (g, r, refl)

-- The same call, with the bytes counted from `n`.
abbrev pub moved : ℕ → Feed → Feed
moved n r = record r { consumed = n + r.consumed }

pub feed_from-go_on :
    (realloc : ℕ → ℕ → Bool) (f g : Framer) (index byte : ℕ) (bytes : List ℕ)
    → step (realloc index) f byte ≡ go_on g
    → feed_from realloc f index (byte ∷ bytes) ≡ feed_from realloc g (suc index) bytes
unfolding feed_from
feed_from-go_on realloc f g index byte bytes e = rw (e, feed_from)

pub feed_from-stop :
    (realloc : ℕ → ℕ → Bool) (f g : Framer) (r : ClickResult) (index byte : ℕ) (bytes : List ℕ)
    → step (realloc index) f byte ≡ stop g r
    → feed_from realloc f index (byte ∷ bytes)
      ≡ record { framer = g; result = r; consumed = suc index; event = delivered r g }
unfolding feed_from
feed_from-stop realloc f g r index byte bytes e = rw (e, feed_from)

pub feed_from-nil :
    (realloc : ℕ → ℕ → Bool) (f : Framer) (index : ℕ)
    → feed_from realloc f index []
      ≡ record { framer = f; result = none; consumed = index; event = [] }
unfolding feed_from
feed_from-nil realloc f index = refl

feed_from-shift :
    (realloc : ℕ → ℕ → Bool) (n : ℕ) (f : Framer) (index : ℕ) (bytes : List ℕ)
    → feed_from realloc f (n + index) bytes
      ≡ moved n (feed_from (λ k. realloc (n + k)) f index bytes)
feed_from-shift realloc n f index [] =
    rw (feed_from-nil realloc f (n + index), feed_from-nil (λ k. realloc (n + k)) f index)
feed_from-shift realloc n f index (byte ∷ bytes) =
    let later = λ (k : ℕ). realloc (n + k) in
    let e : suc (n + index) ≡ n + suc index = omega arith in
    elim (Outcome-cases (step (realloc (n + index)) f byte)) [
      | inl (g, p) ↦
          feed_from-go_on realloc f g (n + index) byte bytes p
          ∙ ap (λ k. feed_from realloc g k bytes) e
          ∙ feed_from-shift realloc n g (suc index) bytes
          ∙ ap (moved n) (sym (feed_from-go_on later f g index byte bytes p))
      | inr (g, r, p) ↦
          feed_from-stop realloc f g r (n + index) byte bytes p
          ∙ ap (λ k. record { framer = g; result = r; consumed = k; event = delivered r g }) e
          ∙ ap (moved n) (sym (feed_from-stop later f g r index byte bytes p))
    ]

step-alive :
    (realloc : ℕ → Bool) (f g : Framer) (byte : ℕ)
    → f.irrecoverable ≡ false
    → step realloc f byte ≡ go_on g
    → g.irrecoverable ≡ false
unfolding step store classify string_byte open_bracket close_bracket fail
step-alive realloc f g byte h e = ground arith

step-ne-none :
    (realloc : ℕ → Bool) (f g : Framer) (r : ClickResult) (byte : ℕ)
    → step realloc f byte ≡ stop g r
    → r ≢ none
unfolding step classify close_bracket fail
step-ne-none realloc f g r byte e = ground arith

-- `second r` if the first call has asked for more, and the first call's answer if not.
abbrev pub then_feed : Feed → (Framer → Feed) → Feed
then_feed r second = elim r.result [ none ↦ second r.framer | _ ↦ r ]

then_feed-stop : (r : Feed) (second : Framer → Feed) → r.result ≢ none → then_feed r second ≡ r
then_feed-stop r second h = ground arith

feed_from-append :
    (realloc : ℕ → ℕ → Bool) (f : Framer) (index : ℕ) (first second : List ℕ)
    → feed_from realloc f index (first ++ second)
      ≡ then_feed
          (feed_from realloc f index first)
          (λ g. feed_from realloc g (index + length first) second)
feed_from-append realloc f index [] second =
    rw (feed_from-nil realloc f index) (ap (λ k. feed_from realloc f k second) (omega arith))
feed_from-append realloc f index (byte ∷ first) second =
    elim (Outcome-cases (step (realloc index) f byte)) [
      | inl (g, p) ↦
          (let e : suc index + length first ≡ index + suc (length first) = omega arith in
            rw
              (
                feed_from-go_on realloc f g index byte (first ++ second) p,
                feed_from-go_on realloc f g index byte first p,
                ← e,
              )
              (feed_from-append realloc g (suc index) first second))
      | inr (g, r, p) ↦
          feed_from-stop realloc f g r index byte (first ++ second) p
          ∙ sym (feed_from-stop realloc f g r index byte first p)
          ∙ sym (
              then_feed-stop (feed_from realloc f index (byte ∷ first))
                (λ x. feed_from realloc x (index + length (byte ∷ first)) second)
                (rw (feed_from-stop realloc f g r index byte first p)
                  (step-ne-none (realloc index) f g r byte p)))
    ]

feed_from-alive :
    (realloc : ℕ → ℕ → Bool) (f : Framer) (index : ℕ) (bytes : List ℕ)
    → f.irrecoverable ≡ false
    → (feed_from realloc f index bytes).result ≡ none
    → (feed_from realloc f index bytes).framer.irrecoverable ≡ false
feed_from-alive realloc f index [] h e = rw (feed_from-nil realloc f index) h
feed_from-alive realloc f index (byte ∷ bytes) h e =
    elim (Outcome-cases (step (realloc index) f byte)) [
      | inl (g, p) ↦
          (let q = feed_from-go_on realloc f g index byte bytes p in
            rw q (
              feed_from-alive realloc g (suc index) bytes (step-alive (realloc index) f g byte h p)
                (rw q at e)))
      | inr (g, r, p) ↦ absurd (
          step-ne-none (realloc index) f g r byte p
            (rw (feed_from-stop realloc f g r index byte bytes p) at e))
    ]

pub feed_alive :
    (realloc : ℕ → ℕ → Bool) (f : Framer) (bytes : List ℕ)
    → f.irrecoverable ≡ false
    → feed realloc f bytes ≡ feed_from realloc f 0 bytes
unfolding feed
feed_alive realloc f bytes e = rw (e, feed)

none-cases : (r : ClickResult) → (r ≡ none) ⊎ (r ≢ none)
none-cases none = inl refl
none-cases event = inr (λ e. cc)
none-cases dropped = inr (λ e. cc)
none-cases fatal_framing = inr (λ e. cc)

-- From a framer that can go on, one call with all the bytes does the same as a call with the first
-- part and, if that returns none, a call with the second part by the framer that it leaves, with
-- the consumed bytes counted from the start. So a call gives the same result, the same event and
-- the same framer however the input is cut, whatever the allocations answer.
pub feed-append :
    (realloc : ℕ → ℕ → Bool) (f : Framer) (first second : List ℕ)
    → f.irrecoverable ≡ false
    → feed realloc f (first ++ second)
      ≡ then_feed
          (feed realloc f first)
          (λ g. moved (length first) (feed (λ k. realloc (length first + k)) g second))
feed-append realloc f first second h =
    let r = feed_from realloc f 0 first in
    let n = length first in
    let e : 0 + n ≡ n + 0 = omega arith in
    rw (feed_alive realloc f (first ++ second) h, feed_alive realloc f first h, feed_from-append)
      (elim (none-cases r.result) [
        | inr some_result ↦
            then_feed-stop r (λ g. feed_from realloc g (0 + n) second) some_result
            ∙ sym
                (then_feed-stop r (λ g. moved n (feed (λ k. realloc (n + k)) g second)) some_result)
        | inl more ↦
            rw
              (
                more,
                feed_alive (λ k. realloc (n + k)) r.framer second
                    (feed_from-alive realloc f 0 first h more),
                e,
              )
              (feed_from-shift realloc n r.framer 0 second)
      ])
