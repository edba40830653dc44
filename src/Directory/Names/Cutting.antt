-- ===== src/Directory/Names/Cutting.antt =====
-- What utf8_prefix of src/directory_feed.c keeps of a text that is cut at any byte.
use i3sd.Common.{
  ℕ, zero, suc, ◌+◌, ◌-◌, ◌≤◌, ◌<◌, ◌≡◌, ◌≢◌, refl, ◌∙◌, ap, inl, inr, true, List, [], ◌∷◌, ◌++◌,
  length, length-append, length-take, take-append-past, take, leb, Bool-cases, arith,
}
use i3sd.Utf8.{valid_utf8}
use i3sd.Utf8.Bytes.{All}
use i3sd.Utf8.Encoding.{IsScalar, encode, encode_all, scan-encode_all}
use i3sd.Directory.Names.{utf8_prefix, prefix_from}

-- The first `n` bytes are the longest valid text among the beginnings of `text`, and at most three bytes are left out.
pub record CutBack (text : List ℕ) (n : ℕ) : Type 0 where
  pub within : n ≤ length text
  pub near : length text ≤ n + 3
  pub valid : valid_utf8 (take n text) ≡ true
  pub longest : (m : ℕ) → m ≤ length text → valid_utf8 (take m text) ≡ true → m ≤ n

take-take : (j k : ℕ) (xs : List ℕ) → j ≤ k → take j (take k xs) ≡ take j xs
take-take zero k xs h = refl
take-take (suc j) zero xs h = absurd (omega arith)
take-take (suc j) (suc k) [] h = refl
take-take (suc j) (suc k) (x ∷ xs) h = ap (◌∷◌ x) (take-take j k xs (omega arith))

encode_short : (c : ℕ) → length (encode c) ≤ 4
unfolding encode
encode_short c = ground arith

-- An end of a character at `k` or at most three bytes before it.
record Boundary (cs : List ℕ) (k : ℕ) : Type 0 where
  place : ℕ
  before : place ≤ k
  near : k ≤ place + 3
  kept : List ℕ
  scalars : All IsScalar kept
  same : take place (encode_all cs) ≡ encode_all kept

boundary : (cs : List ℕ) (k : ℕ) → All IsScalar cs → k ≤ length (encode_all cs) → Boundary cs k
unfolding encode_all
boundary [] k s h = record {
  place = 0;
  before = omega arith;
  near = omega arith;
  kept = [];
  scalars = tt;
  same = refl;
}
boundary (c ∷ cs) k s h = elim (Bool-cases (leb (length (encode c)) k)) [
  | inl past ↦
      let rest =
        boundary cs (k - length (encode c)) s.1
          (ground (arith, length-append (encode c) (encode_all cs))) in
      let enough : length (encode c) ≤ k = ground arith in
      record {
        place = length (encode c) + rest.place;
        before = omega (arith, rest.before, enough);
        near = omega (arith, rest.near, enough);
        kept = c ∷ rest.kept;
        scalars = (s.0, rest.scalars);
        same =
            take-append-past (encode c) (encode_all cs) rest.place ∙ ap (◌++◌ (encode c)) rest.same;
      }
  | inr inside ↦ record {
    place = 0;
    before = omega arith;
    near = ground (arith, encode_short c);
    kept = [];
    scalars = tt;
    same = refl;
  }
]

-- Some beginning that the loop comes to is valid.
record Met (text : List ℕ) (j n : ℕ) : Type 0 where
  at_least : j ≤ n
  within : n ≤ length text
  valid : valid_utf8 (take n text) ≡ true

prefix_from-Met :
    (rounds trim j : ℕ) (text : List ℕ)
    → valid_utf8 (take j text) ≡ true
    → j + trim ≤ length text
    → length text < j + trim + rounds
    → Met text j (prefix_from rounds trim text)
unfolding prefix_from
prefix_from-Met zero trim j text v low high = absurd (omega arith)
prefix_from-Met (suc rounds) trim j text v low high =
    let inside : leb trim (length text) ≡ true = ground arith in
    rw inside (elim (Bool-cases (valid_utf8 (take (length text - trim) text))) [
      | inl good ↦ rw good (record { at_least = omega arith; within = omega arith; valid = good })
      | inr bad ↦
          let later : j ≢ length text - trim =
            λ e. let same : valid_utf8 (take (length text - trim) text) ≡ true = rw (← e) v in cc in
          rw bad (
            prefix_from-Met rounds (trim + 1) j text v (omega (arith, later, low))
              (omega (arith, high)))
    ])

-- A text of encoded scalar values that is cut at any byte is cut back by at most three bytes more, to its longest
-- beginning that is valid.
pub utf8_prefix-CutBack :
    (cs : List ℕ) (k : ℕ)
    → All IsScalar cs
    → k ≤ length (encode_all cs)
    → CutBack (take k (encode_all cs)) (utf8_prefix (take k (encode_all cs)))
unfolding utf8_prefix valid_utf8
utf8_prefix-CutBack cs k s h =
    let b = boundary cs k s h in
    let text = take k (encode_all cs) in
    let len : length text ≡ k = omega (arith, length-take k (encode_all cs), h) in
    let ends : take b.place text ≡ encode_all b.kept =
      take-take b.place k (encode_all cs) b.before ∙ b.same in
    let good : valid_utf8 (take b.place text) ≡ true =
      rw ends (scan-encode_all b.kept _ b.scalars (omega arith)) in
    let met =
      prefix_from-Met 4 0 b.place text good (omega (arith, len, b.before))
        (omega (arith, len, b.near)) in
    record {
      within = met.within;
      near = omega (arith, len, b.near, met.at_least);
      valid = met.valid;
      longest = λ m p v. elim (Bool-cases (leb (m + 4) (length text))) [
        | inl far ↦ ground (arith, len, b.near, met.at_least)
        | inr close ↦ (prefix_from-Met 4 0 m text v (omega arith) (ground arith)).at_least
      ];
    }
