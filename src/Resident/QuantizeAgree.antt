-- ===== src/Resident/QuantizeAgree.antt =====
-- The quantization kernels agree: one thread for a block, a warp for it, and the kernel with the
-- activation folded in.
use llama_tov.Prelude.{
  ℕ, zero, suc, ◌+◌, ◌*◌, ◌/◌, ◌<◌, ◌≡◌, refl, sym, ap, ◌∙◌, inl, inr, Bool, true, false, List, [],
  ◌∷◌, arith, ltb, ltb→lt, lt→ltb, Bool-cases, length, get_or, take, drop, length-take, length-drop,
  tabulate_cong, AllOf,
}
use llama_tov.Resident.Kernels.{Kernels}
use llama_tov.Resident.Quantize.{
  Floats, elementwise2, keep_greater, amax_serial, reduce_down, amax_warp, codes, lane, block,
  quant_block, launch_quant, silu_mul, launch_silu_quant,
}
use llama_tov.Resident.Reduce.{big, big-round}

-- What the comparison of floats does on those that are no NaN: on their magnitudes, which have the sign
-- bit cleared, the greater of two is a maximum, and none is below 0.
pub record MaxLaws (K : Kernels) : Type 1 where
  -- no NaN
  pub IsReal : K.Num → Type 0
  pub IsMagnitude : K.Num → Type 0
  pub magnitude : (a : K.Num) → IsReal a → IsMagnitude (K.fabs a)
  pub assoc :
      (a b c : K.Num)
      → IsMagnitude a
      → IsMagnitude b
      → IsMagnitude c
      → keep_greater K (keep_greater K a b) c ≡ keep_greater K a (keep_greater K b c)
  pub comm : (a b : K.Num) → IsMagnitude a → IsMagnitude b → keep_greater K a b ≡ keep_greater K b a
  pub above_zero : (a : K.Num) → IsMagnitude a → keep_greater K K.zero_num a ≡ a

AllOf-take {ℓ} :
    {A : Type ℓ} (P : A → Type 0) (n : ℕ) (xs : List A) → AllOf P xs → AllOf P (take n xs)
AllOf-take P zero xs h = tt
AllOf-take P (suc n) [] h = tt
AllOf-take P (suc n) (x ∷ xs) h = (h.0, AllOf-take P n xs h.1)

AllOf-drop {ℓ} :
    {A : Type ℓ} (P : A → Type 0) (n : ℕ) (xs : List A) → AllOf P xs → AllOf P (drop n xs)
AllOf-drop P zero xs h = h
AllOf-drop P (suc n) [] h = tt
AllOf-drop P (suc n) (x ∷ xs) h = AllOf-drop P n xs h.1

AllOf-get_or {ℓ} :
    {A : Type ℓ} (P : A → Type 0) (xs : List A) (k : ℕ) (d : A)
    → AllOf P xs
    → k < length xs
    → P (get_or xs k d)
AllOf-get_or P [] k d h lt = absurd (omega arith)
AllOf-get_or P (x ∷ xs) zero d h lt = h.0
AllOf-get_or P (x ∷ xs) (suc k) d h lt = AllOf-get_or P xs k d h.1 (omega arith)

module _ (K : Kernels) where
  open K use {Num}

  length-block : (xs : Floats K) (b : ℕ) → b < length xs / 32 → length (block K xs b) ≡ 32
  length-block xs b lt =
      omega (arith, length-take 32 (drop (b * 32) xs), length-drop (b * 32) xs, lt)

  pub length-elementwise2 :
      (f : Num → Num → Num) (g u : Floats K)
      → length g ≡ length u
      → length (elementwise2 K f g u) ≡ length g
  length-elementwise2 f [] u h = refl
  length-elementwise2 f (x ∷ g) [] h = absurd (omega (arith, h))
  length-elementwise2 f (x ∷ g) (y ∷ u) h = ap suc (length-elementwise2 f g u (omega (arith, h)))

  take-elementwise2 :
      (f : Num → Num → Num) (n : ℕ) (g u : Floats K)
      → take n (elementwise2 K f g u) ≡ elementwise2 K f (take n g) (take n u)
  take-elementwise2 f zero g u = refl
  take-elementwise2 f (suc n) [] u = refl
  take-elementwise2 f (suc n) (x ∷ g) [] = refl
  take-elementwise2 f (suc n) (x ∷ g) (y ∷ u) = ap (λ l. f x y ∷ l) (take-elementwise2 f n g u)

  drop-elementwise2 :
      (f : Num → Num → Num) (n : ℕ) (g u : Floats K)
      → length g ≡ length u
      → drop n (elementwise2 K f g u) ≡ elementwise2 K f (drop n g) (drop n u)
  drop-elementwise2 f zero g u h = refl
  drop-elementwise2 f (suc n) [] u h = refl
  drop-elementwise2 f (suc n) (x ∷ g) [] h = absurd (omega (arith, h))
  drop-elementwise2 f (suc n) (x ∷ g) (y ∷ u) h = drop-elementwise2 f n g u (omega (arith, h))

  -- `k_silu_mul_quant` is `k_silu_mul` followed by `k_quant_q8` with a warp for each block.
  pub launch_silu_quant-warp :
      (g u : Floats K)
      → length g ≡ length u
      → launch_silu_quant K g u ≡ launch_quant K true (elementwise2 K (silu_mul K) g u)
  unfolding launch_silu_quant launch_quant
  launch_silu_quant-warp g u h = rw (length-elementwise2 (silu_mul K) g u h) (
      tabulate_cong (length g / 32) _ _ λ b lt.
        rw
          (
            drop-elementwise2 (silu_mul K) (b * 32) g u h,
            take-elementwise2 (silu_mul K) 32 (drop (b * 32) g) (drop (b * 32) u),
          )
          refl)

module _ (K : Kernels) (laws : MaxLaws K) where
  open K use {Num, zero_num, fabs}

  -- every lane of the warp holds a magnitude
  abbrev Lanes : (ℕ → Num) → Type 0
  Lanes f = (l : ℕ) → l < 32 → laws.IsMagnitude (f l)

  keep :
      (a b : Num) → laws.IsMagnitude a → laws.IsMagnitude b → laws.IsMagnitude (keep_greater K a b)
  keep a b ha hb = elim (Bool-cases (K.gt b a)) [ inl more ↦ rw more hb | inr other ↦ rw other ha ]

  reduce_down-Lanes : (s : ℕ) (f : ℕ → Num) → Lanes f → Lanes (reduce_down K s f)
  reduce_down-Lanes s f h l lt = elim (Bool-cases (ltb (l + s) 32)) [
    | inl inside ↦
        rw inside (keep (f l) (f (l + s)) (h l lt) (h (l + s) (ltb→lt (l + s) 32 inside)))
    | inr other ↦ rw other (keep (f l) (f l) (h l lt) (h l lt))
  ]

  reduce_round :
      (f : ℕ → Num) (m : ℕ)
      → suc m + m < 32
      → Lanes f
      → big (keep_greater K) (reduce_down K (suc m) f) m ≡ big (keep_greater K) f (suc m + m)
  reduce_round f m small all =
      big-round (keep_greater K) laws.IsMagnitude keep laws.assoc laws.comm f
        (reduce_down K (suc m) f) m (λ k lt. all k (omega arith))
        λ k lt.
          let e : k + suc m ≡ suc m + k = omega arith in
          let inside = lt→ltb (k + suc m) 32 (omega arith) in rw (inside, e) refl

  -- the warp's tree over its 32 lanes
  amax_warp-big : (f : ℕ → Num) → Lanes f → amax_warp K f ≡ big (keep_greater K) f 31
  amax_warp-big f all =
      let r16 = reduce_down K 16 f in
      let r8 = reduce_down K 8 r16 in
      let r4 = reduce_down K 4 r8 in
      let all16 = reduce_down-Lanes 16 f all in
      let all8 = reduce_down-Lanes 8 r16 all16 in
      let all4 = reduce_down-Lanes 4 r8 all8 in
      reduce_round (reduce_down K 2 r4) 0 (omega arith) (reduce_down-Lanes 2 r4 all4)
      ∙ reduce_round r4 1 (omega arith) all4
      ∙ reduce_round r8 3 (omega arith) all8
      ∙ reduce_round r16 7 (omega arith) all16
      ∙ reduce_round f 15 (omega arith) all

  -- the loop, when `n` floats have been read and the rest is to come
  amax_serial-big :
      (f : ℕ → Num) (n : ℕ) (xs : Floats K)
      → ((k : ℕ) → k < length xs → fabs (get_or xs k zero_num) ≡ f (suc n + k))
      → amax_serial K (big (keep_greater K) f n) xs ≡ big (keep_greater K) f (n + length xs)
  amax_serial-big f n [] h = let e : n + 0 ≡ n = omega arith in rw e refl
  amax_serial-big f n (x ∷ xs) h =
      let e : n + suc (length xs) ≡ suc n + length xs = omega arith in
      let z : suc n + 0 ≡ suc n = omega arith in
      rw (e, h 0 (omega arith), z)
        (amax_serial-big f (suc n) xs λ k lt.
          let s : suc (suc n) + k ≡ suc n + suc k = omega arith in
          h (suc k) (omega arith) ∙ ap f (sym s))

  lane-Lanes : (xs : Floats K) → length xs ≡ 32 → AllOf laws.IsReal xs → Lanes (lane K xs)
  lane-Lanes xs h all l lt =
      laws.magnitude (get_or xs l zero_num)
        (AllOf-get_or laws.IsReal xs l zero_num all (omega (arith, h)))

  amax_same :
      (xs : Floats K)
      → length xs ≡ 32
      → AllOf laws.IsReal xs
      → amax_warp K (lane K xs) ≡ amax_serial K zero_num xs
  amax_same [] h all = absurd (omega (arith, h))
  amax_same (x ∷ xs) h all =
      let e : length xs ≡ 31 = omega (arith, h) in
      amax_warp-big (lane K (x ∷ xs)) (lane-Lanes (x ∷ xs) h all)
      ∙ sym (
          ap (λ m. amax_serial K m xs) (laws.above_zero (fabs x) (laws.magnitude x all.0))
          ∙ amax_serial-big (lane K (x ∷ xs)) 0 xs (λ k lt.
            let s : 1 + k ≡ suc k = omega arith in
            ap (λ (n : ℕ). fabs (get_or (x ∷ xs) n zero_num)) (sym s))
          ∙ ap (big (keep_greater K) (lane K (x ∷ xs))) (ap (λ (n : ℕ). 0 + n) e))

  quant_block_same :
      (par : Bool) (xs : Floats K)
      → length xs ≡ 32
      → AllOf laws.IsReal xs
      → quant_block K true xs ≡ quant_block K par xs
  quant_block_same true xs h all = refl
  quant_block_same false xs h all = ap (λ m. codes K m xs) (amax_same xs h all)

  -- `k_quant_q8` on floats without a NaN gives the same with a warp for each block of 32 as with one thread
  launch_quant_same :
      (par : Bool) (x : Floats K)
      → AllOf laws.IsReal x
      → launch_quant K true x ≡ launch_quant K par x
  unfolding launch_quant
  launch_quant_same par x all = tabulate_cong (length x / 32) _ _ λ b lt.
      quant_block_same par (block K x b) (length-block K x b lt)
        (AllOf-take laws.IsReal 32 (drop (b * 32) x) (AllOf-drop laws.IsReal (b * 32) x all))

  -- On two rows of one length of which no product silu(g) * u is a NaN, `k_silu_mul_quant` gives the codes and
  -- the scales that `k_silu_mul` followed by `k_quant_q8` gives, whether that takes a warp or one thread
  -- for a block. The laws are those of comparison on floats that are no NaN.
  pub launch_silu_quant-launch_quant :
      (par : Bool) (g u : Floats K)
      → length g ≡ length u
      → AllOf laws.IsReal (elementwise2 K (silu_mul K) g u)
      → launch_silu_quant K g u ≡ launch_quant K par (elementwise2 K (silu_mul K) g u)
  launch_silu_quant-launch_quant par g u h all =
      launch_silu_quant-warp K g u h ∙ launch_quant_same par (elementwise2 K (silu_mul K) g u) all
