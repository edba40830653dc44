-- ===== src/Output/Stream.antt =====
-- The bytes that src/output.c has written are always whole frames between commas, then a part of the
-- frame in progress.
use i3sd.Common.{
  ℕ, ◌≤◌, ◌<◌, ◌≡◌, ◌≢◌, refl, ◌⊎◌, inl, Bool, true, false, List, [], ◌∷◌, ◌++◌, if◌then◌else◌,
  length, take, arith,
}
use i3sd.Buffer.{len, empty}
use i3sd.Buffer.Bounds.{IsValid}
use i3sd.Output.{comma, Output, init}

-- The frames, the latest first, as the protocol has them: with a comma before each but the first.
unfoldable pub joined : List (List ℕ) → List ℕ
joined [] = []
joined (frame ∷ []) = frame
joined (frame ∷ earlier ∷ frames) = joined (earlier ∷ frames) ++ comma ∷ frame

abbrev pub latest : List (List ℕ) → List ℕ
latest [] = []
latest (frame ∷ _) = frame

abbrev pub is_nil : List (List ℕ) → Bool
is_nil [] = true
is_nil (_ ∷ _) = false

-- Every frame has bytes and differs from the one before it.
abbrev pub NoneRepeated : List (List ℕ) → Type 0
NoneRepeated [] = Unit {0}
NoneRepeated (frame ∷ frames) = (0 < length frame) × (frame ≢ latest frames) × NoneRepeated frames

-- What has been written of the frame in progress.
abbrev pub partial : Output → List ℕ
partial o = (if o.prefix_written then comma ∷ [] else []) ++ take o.offset o.current.bytes

-- The output after the bytes `written`, which end in the middle of a frame after the `frames`.
pub record Stream (frames : List (List ℕ)) (written : List ℕ) (o : Output) : Type 0 where
  pub bytes : written ≡ joined frames ++ partial o
  pub first : o.first_frame ≡ is_nil frames
  pub last : o.last_completed.bytes ≡ latest frames
  pub within : o.offset ≤ len o.current
  pub begun : (o.offset ≡ 0) ⊎ ((o.first_frame ≡ true) ⊎ (o.prefix_written ≡ true))
  pub comma_only : o.prefix_written ≡ true → (o.first_frame ≡ false) × (0 < len o.current)
  pub fresh : 0 < len o.current → o.current.bytes ≢ latest frames
  pub none_repeated : NoneRepeated frames
  pub valid : IsValid o.current
  pub valid_last : IsValid o.last_completed

pub init-Stream : Stream [] [] init
unfolding init empty joined
init-Stream = record {
  bytes = refl;
  first = refl;
  last = refl;
  within = omega arith;
  begun = inl refl;
  comma_only = λ e. cc;
  fresh = λ e. absurd (omega arith);
  none_repeated = tt;
  valid = omega arith;
  valid_last = omega arith;
}
