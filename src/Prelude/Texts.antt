-- ===== src/Prelude/Texts.antt =====
-- Byte strings and texts as lists of numbers: equality, concatenation, and `AllOf`.
use Prim.Native.Nat.{ℕ, zero, suc, ◌+◌, ◌<◌, ◌≤◌}
use mathlib.Core.Path.{◌≡◌, refl, ap₂}
use mathlib.Core.Logic.{inl, inr}
use mathlib.Core.Bool.{Bool, true, false, ◌&&◌}
use mathlib.Core.List.{List, [], ◌∷◌, ◌++◌, append_assoc}
use native.Mathlib.Omega.{arith}
use llama_tov.Prelude.Tests.{◌==◌, ==_iff, Bool-cases}
use llama_tov.Prelude.Lanes.{tabulate_from}

abbrev pub same_bytes : List ℕ → List ℕ → Bool
same_bytes [] [] = true
same_bytes (a ∷ xs) (b ∷ ys) = a == b && same_bytes xs ys
same_bytes _ _ = false

pub same_bytes_sound : (xs ys : List ℕ) → same_bytes xs ys ≡ true → xs ≡ ys
same_bytes_sound [] [] h = refl
same_bytes_sound [] (b ∷ ys) h = ground arith
same_bytes_sound (a ∷ xs) [] h = ground arith
same_bytes_sound (a ∷ xs) (b ∷ ys) h = elim (Bool-cases (a == b)) [
  | inl hit ↦ ap₂ ◌∷◌ ((==_iff a b).0 hit) (same_bytes_sound xs ys (rw hit at h))
  | inr differ ↦ let bad = rw differ at h in ground arith
]

module _ {ℓ} {A : Type ℓ} where
  -- `"".join(parts)`
  abbrev pub join : List (List A) → List A
  join [] = []
  join (x ∷ xs) = x ++ join xs

module _ {ℓ} {A : Type ℓ} where
  pub join-append : (xs ys : List (List A)) → join (xs ++ ys) ≡ join xs ++ join ys
  join-append [] ys = refl
  join-append (x ∷ xs) ys = rw (join-append xs ys, append_assoc x (join xs) (join ys))

  abbrev pub AllOf : (A → Type 0) → List A → Type 0
  AllOf P [] = Unit
  AllOf P (x ∷ xs) = P x × AllOf P xs

next_lane : (i k : ℕ) → i ≤ k → (i == k) ≡ false → suc i ≤ k
next_lane i k lo h = ground arith

module _ {ℓ} {A : Type ℓ} where
  pub AllOf-append_left : (P : A → Type 0) (xs ys : List A) → AllOf P (xs ++ ys) → AllOf P xs
  AllOf-append_left P [] ys h = tt
  AllOf-append_left P (x ∷ xs) ys h = (h.0, AllOf-append_left P xs ys h.1)

  pub AllOf-append_right : (P : A → Type 0) (xs ys : List A) → AllOf P (xs ++ ys) → AllOf P ys
  AllOf-append_right P [] ys h = h
  AllOf-append_right P (x ∷ xs) ys h = AllOf-append_right P xs ys h.1

  pub AllOf-tabulate_from :
      (P : A → Type 0) (i n : ℕ) (f : ℕ → A)
      → ((k : ℕ) → k < i + n → P (f k))
      → AllOf P (tabulate_from i n f)
  AllOf-tabulate_from P i zero f h = tt
  AllOf-tabulate_from P i (suc n) f h =
      (h i (omega arith), AllOf-tabulate_from P (suc i) n f (λ k lt. h k (omega arith)))

  pub AllOf-lane :
      (P : A → Type 0) (i n : ℕ) (f : ℕ → A)
      → AllOf P (tabulate_from i n f)
      → (k : ℕ) → i ≤ k
      → k < i + n
      → P (f k)
  AllOf-lane P i zero f h k lo hi = absurd (omega arith)
  AllOf-lane P i (suc n) f h k lo hi = elim (Bool-cases (i == k)) [
    | inl same ↦ rw ((==_iff i k).0 same) at h.0
    | inr other ↦ AllOf-lane P (suc i) n f h.1 k (next_lane i k lo other) (omega arith)
  ]
