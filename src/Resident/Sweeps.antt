-- ===== src/Resident/Sweeps.antt =====
-- Loops and trees of a block with an operation that keeps upper bounds, or a predicate.
use llama_tov.Prelude.{
  ℕ, zero, suc, ◌+◌, ◌-◌, ◌*◌, ◌<◌, ◌≡◌, refl, inl, inr, List, [], ◌∷◌, arith, ltb, ltb→lt, lt→ltb,
  Bool-cases, either_holds,
}
use llama_tov.Resident.Attention.{strided, tree}
use llama_tov.Resident.Argmax.{block_halves}

-- each stride is half of the size, and the last size is 1
abbrev pub Halving : ℕ → List ℕ → Type 0
Halving size [] = size ≡ 1
Halving size (s ∷ ss) = (size ≡ s + s) × Halving s ss

pub halves_of_block : Halving 256 block_halves
halves_of_block = (refl, (refl, (refl, (refl, (refl, (refl, (refl, (refl, refl))))))))

-- An operation that keeps an order's upper bounds, in loops and trees.
module _ {A : Type 0} (op : A → A → A) (Under : A → A → Type 0)
    (trans : (a b c : A) → Under a b → Under b c → Under a c) (self : (a : A) → Under a a)
    (on_left : (a b : A) → Under a (op a b)) (on_right : (a b : A) → Under b (op a b)) where
  pub strided-acc :
      (f : ℕ → A) (lanes bound fuel t : ℕ) (acc : A)
      → Under acc (strided op f lanes bound fuel t acc)
  strided-acc f lanes bound zero t acc = self acc
  strided-acc f lanes bound (suc fuel) t acc = elim (Bool-cases (ltb t bound)) [
    | inr out ↦ rw out (self acc)
    | inl below ↦ rw below (
        trans acc (op acc (f t)) _ (on_left acc (f t))
          (strided-acc f lanes bound fuel (t + lanes) (op acc (f t))))
  ]

  -- the `k`-th round
  pub strided-Under :
      (f : ℕ → A) (lanes bound fuel t k i : ℕ) (acc : A)
      → i ≡ t + k * lanes
      → i < bound
      → k < fuel
      → Under (f i) (strided op f lanes bound fuel t acc)
  strided-Under f lanes bound zero t k i acc at lt h = elim h [ ]
  strided-Under f lanes bound (suc fuel) t zero i acc at lt h =
      let here : i ≡ t = omega (arith, at) in
      let below = lt→ltb t bound (omega (arith, here, lt)) in
      rw (here, below)
        (trans (f t) (op acc (f t)) _ (on_right acc (f t))
          (strided-acc f lanes bound fuel (t + lanes) (op acc (f t))))
  strided-Under f lanes bound (suc fuel) t (suc k) i acc at lt h =
      let below = lt→ltb t bound (grind arith) in
      rw below (
        strided-Under f lanes bound fuel (t + lanes) k i (op acc (f t)) (grind arith) lt
          (omega arith))

  pub tree-Under :
      (size : ℕ) (halves : List ℕ) (red : ℕ → A) (d : ℕ)
      → Halving size halves
      → d < size
      → Under (red d) (tree op halves red)
  tree-Under size [] red d h lt = let first : d ≡ 0 = omega (arith, h) in rw first (self (red 0))
  tree-Under size (s ∷ ss) red d (two, h) lt = elim (Bool-cases (ltb d s)) [
    | inl low ↦
        trans (red d) _ _ (rw low (on_left (red d) (red (d + s))))
          (tree-Under s ss _ d h (ltb→lt d s low))
    | inr high ↦
        let k = d - s in
        let small = lt→ltb k s (ground arith) in
        let back : k + s ≡ d = ground arith in
        trans (red d) _ _ (rw (small, back) (on_right (red k) (red d)))
          (tree-Under s ss _ k h (ltb→lt k s small))
  ]

-- What an operation keeps, loops and trees keep.
module _ {A : Type 0} (op : A → A → A) (P : A → Type 0)
    (keep : (a b : A) → P a → P b → P (op a b)) where
  pub strided-keeps :
      (f : ℕ → A) (lanes bound fuel t : ℕ) (acc : A)
      → ((i : ℕ) → i < bound → P (f i))
      → P acc
      → P (strided op f lanes bound fuel t acc)
  strided-keeps f lanes bound zero t acc each h = h
  strided-keeps f lanes bound (suc fuel) t acc each h = elim (Bool-cases (ltb t bound)) [
    | inr out ↦ rw out h
    | inl below ↦ rw below (
        strided-keeps f lanes bound fuel (t + lanes) (op acc (f t)) each
          (keep acc (f t) h (each t (ltb→lt t bound below))))
  ]

  pub tree-keeps : (halves : List ℕ) (red : ℕ → A) → ((d : ℕ) → P (red d)) → P (tree op halves red)
  tree-keeps [] red each = each 0
  tree-keeps (s ∷ ss) red each = tree-keeps ss _ λ d.
      either_holds P (ltb d s) (λ on. keep (red d) (red (d + s)) (each d) (each (d + s)))
        (λ off. each d)
