-- ===== src/Resident/ArgmaxAgree.antt =====
-- What the argmax kernels return.
use llama_tov.Prelude.{
  ℕ, ◌+◌, ◌-◌, ◌*◌, ◌/◌, ◌%◌, ◌≤◌, ◌<◌, ◌≡◌, refl, sym, ap, ◌∙◌, subst, ◌⊎◌, inl, inr, Bool, true,
  false, ◌&&◌, ◌||◌, arith, ltb, ◌==◌, if◌then◌else◌, lt→ltb, either_holds, ok,
}
use native.Mathlib.Nat.{div-lt_iff_lt-mul, div-mul-le_self, lt-div-mul-add}
use llama_tov.Resident.Sweeps.{
  halves_of_block, strided-acc, strided-Under, tree-Under, strided-keeps, tree-keeps,
}
use llama_tov.Resident.Attention.{strided}
use llama_tov.Resident.Argmax.{
  argmax_dev, Comparisons, block_halves, int_max, seed_candidate, pick, block_best, logit_at,
  k_argmax, k_argmax_s1, k_argmax_s2,
}

module _ {Num : Type 0} (C : Comparisons Num) where
  -- the first one of the greatest
  abbrev pub IsFirstMax : (ℕ → Num) → ℕ → ℕ → Type 0
  IsFirstMax x n i =
      (i < n)
      × ((j : ℕ) → j < n → C.gt (x j) (x i) ≡ false)
      × ((j : ℕ) → j < i → C.gt (x i) (x j) ≡ true)

-- What floats that are no NaN satisfy: there are finitely many, so their comparisons are those of
-- numbers, where 0.0 and -0.0 have the same one.
pub record ComparisonLaws {Num : Type 0} (C : Comparisons Num) : Type 0 where
  pub key : Num → ℕ
  pub gt-key : (a b : Num) → C.gt a b ≡ ltb (key b) (key a)
  pub eq-key : (a b : Num) → C.eq a b ≡ (key a == key b)

module _ {Num : Type 0} (C : Comparisons Num) (laws : ComparisonLaws C) where
  open laws use {key}

  -- `b` is not worse than `a`
  abbrev pub Under : Num × ℕ → Num × ℕ → Type 0
  Under a b = (key a.0 ≤ key b.0) × (key a.0 ≡ key b.0 → b.1 ≤ a.1)

  Under-trans : (a b c : Num × ℕ) → Under a b → Under b c → Under a c
  Under-trans a b c (le, tie) (le', tie') =
      (omega (arith, le, le'), λ same. omega (arith, tie (omega arith), tie' (omega arith)))

  Under-self : (a : Num × ℕ) → Under a a
  Under-self a = (omega arith, λ same. omega arith)

  abbrev takes_new : Num × ℕ → Num × ℕ → Bool
  takes_new a b = C.gt b.0 a.0 || (C.eq b.0 a.0 && ltb b.1 a.1)

  takes_new-key :
      (a b : Num × ℕ)
      → takes_new a b ≡ (ltb (key a.0) (key b.0) || ((key b.0 == key a.0) && ltb b.1 a.1))
  takes_new-key a b = rw (laws.gt-key b.0 a.0, laws.eq-key b.0 a.0) refl

  Under-pick-left : (a b : Num × ℕ) → Under a (pick C a b)
  Under-pick-left a b =
      either_holds (Under a) (takes_new a b)
        (λ new. let h = sym (takes_new-key a b) ∙ new in (ground arith, λ same. ground arith))
        (λ old. Under-self a)

  Under-pick-right : (a b : Num × ℕ) → Under b (pick C a b)
  Under-pick-right a b =
      either_holds (Under b) (takes_new a b) (λ new. Under-self b)
        (λ old. let h = sym (takes_new-key a b) ∙ old in (ground arith, λ same. ground arith))

  -- what the threads of a block find
  abbrev lanes : (ℕ → Num × ℕ) → ℕ → ℕ → ℕ → Num × ℕ
  lanes f lo hi t = strided (pick C) f 256 hi hi (lo + t) (seed_candidate C)

  -- what a block finds is not worse than what it has swept, and than the seed
  block-Under :
      (f : ℕ → Num × ℕ) (lo hi i : ℕ) → lo ≤ i → i < hi → Under (f i) (block_best C f lo hi)
  block-Under f lo hi i le lt =
      let d = (i - lo) % 256 in
      let k = (i - lo) / 256 in
      let lane : d < 256 = omega arith in
      Under-trans (f i) _ _
        (strided-Under (pick C) Under Under-trans Under-self Under-pick-left Under-pick-right f 256
          hi hi (lo + d) k i (seed_candidate C) (omega arith) lt (omega arith))
        (tree-Under (pick C) Under Under-trans Under-self Under-pick-left Under-pick-right 256
          block_halves (lanes f lo hi) d halves_of_block lane)

  block-seed : (f : ℕ → Num × ℕ) (lo hi : ℕ) → Under (seed_candidate C) (block_best C f lo hi)
  block-seed f lo hi =
      let lane : 0 < 256 = omega arith in
      Under-trans _ _ _
        (strided-acc (pick C) Under Under-trans Under-self Under-pick-left Under-pick-right f 256 hi
          hi (lo + 0) (seed_candidate C))
        (tree-Under (pick C) Under Under-trans Under-self Under-pick-left Under-pick-right 256
          block_halves (lanes f lo hi) 0 halves_of_block lane)

  -- the seed, or a logit
  abbrev pub Origin : (ℕ → Num) → ℕ → Num × ℕ → Type 0
  Origin x n c = (c ≡ seed_candidate C) ⊎ ((i : ℕ) × (i < n) × (c ≡ logit_at C x i))

  block-Origin :
      (x : ℕ → Num) (f : ℕ → Num × ℕ) (n lo hi : ℕ)
      → ((i : ℕ) → i < hi → Origin x n (f i))
      → Origin x n (block_best C f lo hi)
  block-Origin x f n lo hi each = tree-keeps (pick C) (Origin x n) picked block_halves _ λ t.
      strided-keeps (pick C) (Origin x n) picked f 256 hi hi (lo + t) (seed_candidate C) each
        (inl refl)
    where
      picked : (a b : Num × ℕ) → Origin x n a → Origin x n b → Origin x n (pick C a b)
      picked a b h h' = either_holds (Origin x n) (takes_new a b) (λ new. h') (λ old. h)

  -- the best candidate of all
  abbrev pub IsBest : (ℕ → Num) → ℕ → Num × ℕ → Type 0
  IsBest x n c =
      Origin x n c × Under (seed_candidate C) c × ((i : ℕ) → i < n → Under (logit_at C x i) c)

  single-IsBest : (x : ℕ → Num) (n : ℕ) → IsBest x n (block_best C (logit_at C x) 0 n)
  single-IsBest x n = (
    block-Origin x (logit_at C x) n 0 n (λ i lt. inr (i, lt, refl)),
    block-seed (logit_at C x) 0 n,
    λ i lt. block-Under (logit_at C x) 0 n i (omega arith) lt,
  )

  -- where chunk `b` of 256 begins, and ends
  abbrev chunk_of : ℕ → ℕ
  chunk_of n = (n + 256 - 1) / 256

  abbrev chunk_end : ℕ → ℕ → ℕ
  chunk_end n b = if ltb n (b * chunk_of n + chunk_of n) then n else b * chunk_of n + chunk_of n

  chunk_end-le : (n b : ℕ) → chunk_end n b ≤ n
  chunk_end-le n b =
      either_holds (λ e. e ≤ n) (ltb n (b * chunk_of n + chunk_of n)) (λ cut. omega arith)
        (λ whole. ground arith)

  chunk_end-gt : (n b i : ℕ) → i < n → i < b * chunk_of n + chunk_of n → i < chunk_end n b
  chunk_end-gt n b i lt small =
      either_holds (λ e. i < e) (ltb n (b * chunk_of n + chunk_of n)) (λ cut. lt) (λ whole. small)

  -- the chunk of an index
  chunk_index :
      (n i : ℕ)
      → i < n
      → (b : ℕ) × (b < 256) × (b * chunk_of n ≤ i) × (i < b * chunk_of n + chunk_of n)
  chunk_index n i lt =
      let c = chunk_of n in
      let enough : n ≤ c * 256 = omega arith in
      let pos : 0 < c = omega (arith, enough) in
      let swap : 256 * c ≡ c * 256 = omega arith in
      (
        i / c,
        (div-lt_iff_lt-mul pos).1 (omega (arith, enough, swap)),
        div-mul-le_self i c,
        lt-div-mul-add pos,
      )

  two_stage-IsBest : (x : ℕ → Num) (n : ℕ) → IsBest x n (block_best C (k_argmax_s1 C x n 256) 0 256)
  two_stage-IsBest x n =
      let partial = k_argmax_s1 C x n 256 in
      (
        block-Origin x partial n 0 256 (λ b lt.
            block-Origin x (logit_at C x) n (b * chunk_of n) (chunk_end n b)
              (λ i inside. inr (i, omega (arith, chunk_end-le n b), refl))),
        block-seed partial 0 256,
        λ i lt.
            let (b, small, from, before) = chunk_index n i lt in
            Under-trans (logit_at C x i) (partial b) _
              (block-Under (logit_at C x) (b * chunk_of n) (chunk_end n b) i from
                (chunk_end-gt n b i lt before))
              (block-Under partial 0 256 b (omega arith) small),
      )

  best_le : (x : ℕ → Num) (n : ℕ) (c d : Num × ℕ) → IsBest x n c → IsBest x n d → Under c d
  best_le x n c d (inl seed, above, each) (o, above', each') =
      subst (λ c. Under c d) (sym seed) above'
  best_le x n c d (inr (i, lt, here), above, each) (o, above', each') =
      subst (λ c. Under c d) (sym here) (each' i lt)

  best_unique : (x : ℕ → Num) (n : ℕ) (c d : Num × ℕ) → IsBest x n c → IsBest x n d → c.1 ≡ d.1
  best_unique x n c d h h' =
      let (le, tie) = best_le x n c d h h' in
      let (le', tie') = best_le x n d c h' h in
      let same : key c.0 ≡ key d.0 = omega (arith, le, le') in
      omega (arith, tie same, tie' (sym same))

  -- On floats of which none is a NaN, and as many as fit an `int` with 255 more, the two stages of 256
  -- blocks return the index that the single block returns.
  pub two_stage-single :
      (x : ℕ → Num) (n : ℕ)
      → n + 255 ≤ int_max
      → k_argmax_s2 C (k_argmax_s1 C x n 256) 256 ≡ k_argmax C x n
  two_stage-single x n fits = best_unique x n _ _ (two_stage-IsBest x n) (single-IsBest x n)

  best-IsFirstMax :
      (x : ℕ → Num) (n j : ℕ) (c : Num × ℕ)
      → n ≤ int_max
      → j < n
      → C.gt C.lowest (x j) ≡ false
      → IsBest x n c
      → IsFirstMax C x n c.1
  best-IsFirstMax x n j c fits lt high (inl seed, above, each) =
      let (le, tie) = subst (λ c. Under (x j, j) c) seed (each j lt) in
      let low = sym (laws.gt-key C.lowest (x j)) ∙ high in absurd (ground arith)
  best-IsFirstMax x n j c fits lt high (inr (i, inside, here), above, each) =
      let all : (k : ℕ) → k < n → Under (x k, k) (x i, i) =
        λ k h. subst (λ c. Under (x k, k) c) here (each k h) in
      subst (λ c. IsFirstMax C x n c.1) (sym here)
        (
          inside,
          (λ k h. let (le, tie) = all k h in laws.gt-key (x k) (x i) ∙ not_below le),
          (λ k h.
              let (le, tie) = all k (omega arith) in
              laws.gt-key (x i) (x k) ∙ lt→ltb (key (x k)) (key (x i)) (grind (arith, le, tie, h))),
        )
    where
      not_below : {a b : ℕ} → b ≤ a → ltb a b ≡ false
      not_below {a} {b} h = ground arith

  -- `argmax_dev` with either value of _ARGMAX2 returns the first index of a greatest float, provided
  -- that the indices fit an `int` with the 255 that the chunks add, some float is not below -3.4e38,
  -- and no float is a NaN.
  pub argmax_dev-IsFirstMax :
      (two_stage : Bool) (x : ℕ → Num) (n j : ℕ)
      → n + 255 ≤ int_max
      → j < n
      → C.gt C.lowest (x j) ≡ false
      → (i : ℕ) × (argmax_dev C two_stage x n ≡ ok i) × IsFirstMax C x n i
  unfolding argmax_dev
  argmax_dev-IsFirstMax two_stage x n j fits lt high =
      let some_float = lt→ltb 0 n (omega arith) in
      let best = best-IsFirstMax x n j _ (omega arith) lt high (single-IsBest x n) in
      (
        k_argmax C x n,
        rw some_float (
            ap ok (
              either_holds (λ i. i ≡ k_argmax C x n) two_stage (λ on. two_stage-single x n fits)
                (λ off. refl))),
        best,
      )
