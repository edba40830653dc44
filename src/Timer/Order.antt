-- ===== src/Timer/Order.antt =====
-- The heap order of src/timer.c over ranks: what one round of each sift loop does to it.
use i3sd.Common.{
  ℕ, zero, suc, ◌+◌, ◌-◌, ◌*◌, ◌/◌, ◌≤◌, ◌<◌, ◌≡◌, ◌≢◌, ◌⊎◌, inl, inr, ◌==◌, if◌then◌else◌, write,
  Bool-cases, arith,
}

abbrev pub parent : ℕ → ℕ
parent i = (i - 1) / 2

-- Two elements swapped.
abbrev pub exchange : (ℕ → ℕ) → ℕ → ℕ → ℕ → ℕ
exchange f l r i = if i == l then f r else if i == r then f l else f i

-- No element is before its parent.
pub record Ordered (f : ℕ → ℕ) (n : ℕ) : Type 0 where
  pub below : (i : ℕ) → 0 < i → i < n → f (parent i) ≤ f i

-- The same but for `k`, which may be before its parent.
pub record Rising (f : ℕ → ℕ) (n k : ℕ) : Type 0 where
  pub below : (i : ℕ) → i ≢ k → 0 < i → i < n → f (parent i) ≤ f i
  pub across : (i : ℕ) → 0 < i → i < n → parent i ≡ k → 0 < k → f (parent k) ≤ f i

-- The same but for `k`, which may be after its children.
pub record Sinking (f : ℕ → ℕ) (n k : ℕ) : Type 0 where
  pub below : (i : ℕ) → parent i ≢ k → 0 < i → i < n → f (parent i) ≤ f i
  pub across : (i : ℕ) → 0 < i → i < n → parent i ≡ k → 0 < k → f (parent k) ≤ f i

pub ℕ-split : (a b : ℕ) → (a ≡ b) ⊎ (a ≢ b)
ℕ-split a b = elim (Bool-cases (a == b)) [ inl e ↦ inl (ground arith) | inr e ↦ inr (ground arith) ]

module _ (f : ℕ → ℕ) (n k : ℕ) where
  pub Rising-Ordered : Rising f n k → (0 < k → f (parent k) ≤ f k) → Ordered f n
  Rising-Ordered r top = record {
    below =
        λ i p q. elim (ℕ-split i k) [ inl e ↦ rw e (top (omega arith)) | inr e ↦ r.below i e p q ];
  }

  pub Rising-swap :
      Rising f n k
      → 0 < k
      → k < n
      → f k < f (parent k)
      → Rising (exchange f k (parent k)) n (parent k)
  Rising-swap r pos small less = record {
    below = λ i e p q. ground (arith, r.below i, r.across i);
    across = λ i p q e pp. ground (arith, r.below i, r.below (parent k));
  }

  pub Sinking-Ordered :
      Sinking f n k
      → (k * 2 + 1 < n → f k ≤ f (k * 2 + 1))
      → (k * 2 + 2 < n → f k ≤ f (k * 2 + 2))
      → Ordered f n
  Sinking-Ordered s left right = record {
    below =
        λ i p q. elim (ℕ-split (parent i) k) [ inl e ↦ child i p q e | inr e ↦ s.below i e p q ];
  }
    where
      child : (i : ℕ) → 0 < i → i < n → parent i ≡ k → f (parent i) ≤ f i
      child i p q e = elim (ℕ-split i (k * 2 + 1)) [
        | inl l ↦ let ordered : f k ≤ f i = rw l (left (omega arith)) in rw e ordered
        | inr r ↦
            let last : i ≡ k * 2 + 2 = omega arith in
            let ordered : f k ≤ f i = rw last (right (omega arith)) in rw e ordered
      ]

  -- `c` is a child that no child of `k` is before.
  pub Sinking-swap :
      (c : ℕ)
      → Sinking f n k
      → parent c ≡ k
      → 0 < c
      → c < n
      → f c < f k
      → ((i : ℕ) → 0 < i → i < n → parent i ≡ k → f c ≤ f i)
      → Sinking (exchange f k c) n c
  Sinking-swap c s pc pos small less least = record {
    below = λ i e p q. ground (arith, s.below i, s.across c, least i);
    across = λ i p q e pp. ground (arith, s.below i);
  }

-- The root is before all.
pub root-least : (f : ℕ → ℕ) (n : ℕ) → Ordered f n → (fuel i : ℕ) → i ≤ fuel → i < n → f 0 ≤ f i
root-least f n o zero i h q = let e : i ≡ 0 = omega arith in ground arith
root-least f n o (suc fuel) zero h q = omega arith
root-least f n o (suc fuel) (suc i) h q = omega (
  arith,
  o.below (suc i) (omega arith) q,
  root-least f n o fuel (parent (suc i)) (omega arith) (omega arith),
)

-- The last of `suc n` elements replaces element `k`: out of order with its parent, or with its
-- children, but not both.
module _ (f : ℕ → ℕ) (n k : ℕ) (o : Ordered f (suc n)) (small : k < n) where
  pub replaced-Rising : 0 < k → f n < f (parent k) → Rising (write f k (f n)) n k
  replaced-Rising pos less = record {
    below = λ i e p q. ground (arith, o.below i, o.below k);
    across = λ i p q e c. ground (arith, o.below i, o.below k);
  }

  pub replaced-Sinking : (0 < k → f (parent k) ≤ f n) → Sinking (write f k (f n)) n k
  replaced-Sinking top = record {
    below = λ i e p q. ground (arith, o.below i, top);
    across = λ i p q e c. ground (arith, o.below i, o.below k);
  }
