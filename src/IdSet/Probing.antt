-- ===== src/IdSet/Probing.antt =====
-- Where the probe of src/id_set.c ends: at the first slot of its round that is empty or holds the key.
use Prim.Native.Nat.{bit_and}
use i3sd.Common.{
  ℕ, zero, suc, ◌+◌, ◌-◌, ◌%◌, ◌≤◌, ◌<◌, ◌≡◌, ◌≢◌, inl, inr, sym, ap, ◌∙◌, Bool, true, false, ◌||◌,
  some, List, ◌==◌, list_eq_sound, list_eq_refl, Bool-cases, arith,
}
use i3sd.Common.Bits.{bit_and_nine}
use i3sd.IdSet.{IdSet, Entry, same, probe_from}

-- The slot `d` steps from the home of `hash`.
abbrev pub slot_of : ℕ → ℕ → ℕ
slot_of hash d = (hash + d) % 512

-- The probe returns at slot `j`.
pub stops : IdSet → List ℕ → ℕ → ℕ → Bool
stops s key hash j = (s.slots j == 0) || same (s.entries (s.slots j - 1)) key hash

pub same_sound : (e : Entry) (key : List ℕ) (hash : ℕ) → same e key hash ≡ true → e.key ≡ key
unfolding same
same_sound e key hash h = ground (arith, list_eq_sound e.key key)

pub same_refl : (e : Entry) → same e e.key e.hash ≡ true
unfolding same
same_refl e = ground (arith, list_eq_refl e.key)

pub stops-false :
    (s : IdSet) (key : List ℕ) (hash j : ℕ) → stops s key hash j ≡ false → s.slots j ≢ 0
unfolding stops
stops-false s key hash j h e = ground arith

pub stops-free : (s : IdSet) (key : List ℕ) (hash j : ℕ) → s.slots j ≡ 0 → stops s key hash j ≡ true
unfolding stops
stops-free s key hash j e = ground arith

pub stops-same :
    (s : IdSet) (key : List ℕ) (hash j : ℕ)
    → stops s key hash j ≡ true
    → s.slots j ≢ 0
    → (s.entries (s.slots j - 1)).key ≡ key
unfolding stops
stops-same s key hash j h used = ground (arith, same_sound (s.entries (s.slots j - 1)) key hash)

pub stops-entry :
    (s : IdSet) (i j : ℕ)
    → s.slots j ≡ suc i
    → stops s (s.entries i).key (s.entries i).hash j ≡ true
unfolding stops
stops-entry s i j e = ground (arith, same_refl (s.entries i))

-- `probe_from` ends within `k` steps, at the first slot that stops it.
pub record Stopped (s : IdSet) (key : List ℕ) (hash start fuel k : ℕ) : Type 0 where
  pub steps : ℕ
  pub within : steps ≤ k
  pub ends : probe_from fuel s key hash start ≡ some (slot_of start steps)
  pub at_end : stops s key hash (slot_of start steps) ≡ true
  pub before : (e : ℕ) → e < steps → stops s key hash (slot_of start e) ≡ false

slot_of-zero : (start : ℕ) → start < 512 → slot_of start 0 ≡ start
slot_of-zero start h = omega arith

slot_of-next : (start d : ℕ) → slot_of (bit_and (start + 1) 511) d ≡ slot_of start (suc d)
slot_of-next start d = omega (arith, bit_and_nine (start + 1))

module _ (s : IdSet) (key : List ℕ) (hash : ℕ) where
  probe_from-now :
      (fuel start : ℕ)
      → stops s key hash start ≡ true
      → probe_from (suc fuel) s key hash start ≡ some start
  unfolding probe_from stops
  probe_from-now fuel start stop = ground arith

  probe_from-on :
      (fuel start : ℕ)
      → stops s key hash start ≡ false
      → probe_from (suc fuel) s key hash start
        ≡ probe_from fuel s key hash (bit_and (start + 1) 511)
  unfolding probe_from stops
  probe_from-on fuel start go = ground arith

  before-on :
      (start steps : ℕ)
      → start < 512
      → stops s key hash start ≡ false
      → ((e : ℕ) → e < steps → stops s key hash (slot_of (bit_and (start + 1) 511) e) ≡ false)
      → (e : ℕ) → e < suc steps
      → stops s key hash (slot_of start e) ≡ false
  before-on start steps small go rest zero h = rw (slot_of-zero start small) go
  before-on start steps small go rest (suc e) h = rw (← slot_of-next start e) (rest e (omega arith))

  pub probe_from-Stopped :
      (fuel start k : ℕ)
      → start < 512
      → k < fuel
      → stops s key hash (slot_of start k) ≡ true
      → Stopped s key hash start fuel k
  probe_from-Stopped zero start k small short stop = elim short [ ]
  probe_from-Stopped (suc fuel) start zero small short stop =
      let here = slot_of-zero start small in
      let stop' : stops s key hash start ≡ true = rw (← here) stop in
      record {
        steps = 0;
        within = omega arith;
        ends = probe_from-now fuel start stop' ∙ ap some (sym here);
        at_end = stop;
        before = λ e h. elim h [ ];
      }
  probe_from-Stopped (suc fuel) start (suc k) small short stop =
      elim (Bool-cases (stops s key hash start)) [
        | inl now ↦
            let here = slot_of-zero start small in
            record {
              steps = 0;
              within = omega arith;
              ends = probe_from-now fuel start now ∙ ap some (sym here);
              at_end = rw here now;
              before = λ e h. elim h [ ];
            }
        | inr go ↦
            let r =
              probe_from-Stopped fuel (bit_and (start + 1) 511) k
                (omega (arith, bit_and_nine (start + 1))) (omega arith)
                (rw (slot_of-next start k) stop) in
            record {
              steps = suc r.steps;
              within = omega (arith, r.within);
              ends = probe_from-on fuel start go ∙ r.ends ∙ ap some (slot_of-next start r.steps);
              at_end = rw (← slot_of-next start r.steps) r.at_end;
              before = before-on start r.steps small go r.before;
            }
      ]
