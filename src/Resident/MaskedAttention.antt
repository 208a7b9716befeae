-- ===== src/Resident/MaskedAttention.antt =====
-- The masked kernel with its fixed number of positions against the kernel that ends at the length.
use llama_tov.Prelude.{
  ℕ, zero, suc, ◌+◌, ◌*◌, ◌≤◌, ◌<◌, ◌≡◌, refl, sym, ap, ap₂, ◌∙◌, fun_ext, inl, inr, false, arith,
  ltb, ltb→lt, lt→ltb, Bool-cases, tabulate_cong, rounds_from_cong,
}
use llama_tov.Resident.Kernels.{Kernels}
use llama_tov.Resident.Attention.{
  sum_from, strided, lane_loop, tree, frozen, score_at, max_of, weight_of, norm_of, head_out,
  position_major, head_major, group_of, attn_decode, masked_score, attn_decode_masked,
}

-- What floats that are no NaN satisfy: a maximum, and 0.0 added to a sum that is not -0.0.
pub record FloatLaws (K : Kernels) : Type 0 where
  pub fmax_assoc : (a b c : K.Num) → K.fmax (K.fmax a b) c ≡ K.fmax a (K.fmax b c)
  pub fmax_comm : (a b : K.Num) → K.fmax a b ≡ K.fmax b a
  pub fmax_idem : (a : K.Num) → K.fmax a a ≡ a
  pub add-zero : (a : K.Num) → K.add a K.zero_num ≡ a

module _ (K : Kernels) (laws : FloatLaws K) where
  open K use {Num, zero_num, neg_big, add, mul, div, fmax}

  -- From `len` on a loop adds nothing to what `Kept` describes.
  module _ (op : Num → Num → Num) (neutral : Num) (Kept : Num → Type 0)
      (kept : (a : Num) → Kept a → op a neutral ≡ a) where
    strided_idle :
        (f : ℕ → Num) (len lanes bound fuel t : ℕ) (acc : Num)
        → ((k : ℕ) → len ≤ k → f k ≡ neutral)
        → len ≤ t
        → Kept acc
        → strided op f lanes bound fuel t acc ≡ acc
    strided_idle f len lanes bound zero t acc tail le h = refl
    strided_idle f len lanes bound (suc fuel) t acc tail le h = elim (Bool-cases (ltb t bound)) [
      | inr out ↦ rw out refl
      | inl below ↦
          rw (below, tail t le, kept acc h)
            (strided_idle f len lanes bound fuel (t + lanes) acc tail (omega arith) h)
    ]

    strided_end :
        (g : ℕ → Num) (len lanes m t : ℕ) (acc : Num)
        → len ≤ t
        → strided op g lanes len m t acc ≡ acc
    strided_end g len lanes zero t acc le = refl
    strided_end g len lanes (suc m) t acc le = rw (ltb_false t len le) refl
      where
        ltb_false : (a b : ℕ) → b ≤ a → ltb a b ≡ false
        ltb_false a b h = ground arith

    -- Two loops that agree below `len`, of which the longer one is neutral from there.
    strided_masked :
        (f g : ℕ → Num) (len bound lanes n m t : ℕ) (acc : Num)
        → ((k : ℕ) → k < len → f k ≡ g k)
        → ((k : ℕ) → len ≤ k → f k ≡ neutral)
        → ((a b : Num) → Kept a → Kept (op a b))
        → len ≤ bound
        → bound ≤ t + n
        → len ≤ t + m
        → 0 < lanes
        → Kept acc
        → strided op f lanes bound n t acc ≡ strided op g lanes len m t acc
    strided_masked f g len bound lanes zero m t acc same tail keep le hn hm hl h =
        sym (strided_end g len lanes m t acc (omega arith))
    strided_masked f g len bound lanes (suc n) zero t acc same tail keep le hn hm hl h =
        strided_idle f len lanes bound (suc n) t acc tail (omega arith) h
    strided_masked f g len bound lanes (suc n) (suc m) t acc same tail keep le hn hm hl h =
        elim (Bool-cases (ltb t len)) [
          | inr out ↦
              strided_idle f len lanes bound (suc n) t acc tail (ge out) h
              ∙ sym (strided_end g len lanes (suc m) t acc (ge out))
          | inl below ↦
              let lt = ltb→lt t len below in
              let under = lt→ltb t bound (omega arith) in
              rw (under, below, same t lt)
                (strided_masked f g len bound lanes n m (t + lanes) (op acc (g t)) same tail keep le
                  (omega arith) (omega arith) hl (keep acc (g t) h))
        ]
      where
        ge : ltb t len ≡ false → len ≤ t
        ge h = ground arith

  lanes_masked :
      (op : Num → Num → Num) (neutral : Num) (f g : ℕ → Num) (len bound : ℕ)
      → ((a b : Num) → op a neutral ≡ a → op (op a b) neutral ≡ op a b)
      → op neutral neutral ≡ neutral
      → ((k : ℕ) → k < len → f k ≡ g k)
      → ((k : ℕ) → len ≤ k → f k ≡ neutral)
      → len ≤ bound
      → lane_loop op f 64 bound neutral ≡ lane_loop op g 64 len neutral
  lanes_masked op neutral f g len bound again twice same tail le = fun_ext λ d.
      strided_masked op neutral (λ a. op a neutral ≡ a) (λ a h. h) f g len bound 64 bound len d
        neutral same tail again le (omega arith) (omega arith) (omega arith) twice

  fmax_keeps : (a b : Num) → fmax a neg_big ≡ a → fmax (fmax a b) neg_big ≡ fmax a b
  fmax_keeps a b h =
      laws.fmax_assoc a b neg_big
      ∙ ap (fmax a) (laws.fmax_comm b neg_big)
      ∙ sym (laws.fmax_assoc a neg_big b)
      ∙ ap (λ c. fmax c b) h

  masked_low :
      (score score' : ℕ → Num) (len k : ℕ)
      → ((k : ℕ) → k < len → score k ≡ score' k)
      → k < len
      → masked_score K score len k ≡ score' k
  masked_low score score' len k same lt = rw (lt→ltb k len lt) (same k lt)

  masked_high : (score : ℕ → Num) (len k : ℕ) → len ≤ k → masked_score K score len k ≡ neg_big
  masked_high score len k le = rw (ltb_false k len le) refl
    where
      ltb_false : (a b : ℕ) → b ≤ a → ltb a b ≡ false
      ltb_false a b h = ground arith

  sum_from_cong :
      (f g : ℕ → Num) (i n : ℕ) (acc : Num)
      → ((k : ℕ) → k < i + n → f k ≡ g k)
      → sum_from K f i n acc ≡ sum_from K g i n acc
  sum_from_cong f g i zero acc h = refl
  sum_from_cong f g i (suc n) acc h =
      rw (h i (omega arith))
        (sum_from_cong f g (suc i) n (add acc (g i)) (λ k lt. h k (omega arith)))

  -- the weight of a masked position is 0
  abbrev pub Vanishes : (ℕ → Num) → ℕ → Type 0
  Vanishes score len = K.fast_exp (K.sub neg_big (max_of K 64 frozen score len)) ≡ zero_num

  -- scores and values that agree up to the length
  module _ (score score' : ℕ → Num) (len bound : ℕ) (le : len ≤ bound)
      (same : (k : ℕ) → k < len → score k ≡ score' k) where
    max_of_masked :
        max_of K 64 frozen (masked_score K score len) bound ≡ max_of K 64 frozen score' len
    max_of_masked = ap (tree fmax frozen) (
        lanes_masked fmax neg_big (masked_score K score len) score' len bound fmax_keeps
          (laws.fmax_idem neg_big) (λ k lt. masked_low score score' len k same lt)
          (masked_high score len) le)

    norm_of_masked :
        Vanishes score' len
        → (let mx = max_of K 64 frozen score' len in
            norm_of K 64 frozen (masked_score K score len) mx bound
            ≡ norm_of K 64 frozen score' mx len)
    norm_of_masked gone =
        let mx = max_of K 64 frozen score' len in
        ap (tree add frozen) (
          lanes_masked add zero_num (weight_of K (masked_score K score len) mx)
            (weight_of K score' mx) len bound (λ a b h. laws.add-zero (add a b))
            (laws.add-zero zero_num)
            (λ k lt. ap (λ v. K.fast_exp (K.sub v mx)) (masked_low score score' len k same lt))
            (λ k ge. ap (λ v. K.fast_exp (K.sub v mx)) (masked_high score len k ge) ∙ gone) le)

    head_out_masked :
        (value value' : ℕ → Num)
        → ((k : ℕ) → k < len → value k ≡ value' k)
        → Vanishes score' len
        → head_out K 64 frozen (masked_score K score len) bound len value
          ≡ head_out K 64 frozen score' len len value'
    head_out_masked value value' values gone =
        let mx = max_of K 64 frozen score' len in
        ap (λ m. div (total m) (norm_of K 64 frozen (masked_score K score len) m bound))
          max_of_masked
        ∙ ap₂ div
            (sum_from_cong _ _ 0 len zero_num (λ k lt.
              ap₂ (λ v u. mul (K.fast_exp (K.sub v mx)) u)
                (masked_low score score' len k same (omega arith)) (values k (omega arith))))
            (norm_of_masked gone)
      where
        total : Num → Num
        total m =
            sum_from K (λ t. mul (weight_of K (masked_score K score len) m t) (value t)) 0 len
              zero_num

  -- the same rows, by position and by head
  abbrev pub SameRows : ℕ → ℕ → ℕ → ℕ → (ℕ → Num) → (ℕ → Num) → Type 0
  SameRows nh nkv hd len by_position by_head =
      (h t i : ℕ)
      → h < nh
      → t < len
      → i < hd
      → by_position (position_major K nkv hd (group_of K nh nkv h) t + i)
        ≡ by_head (head_major K len hd (group_of K nh nkv h) t + i)

  -- the scores of a head with the keys by head
  abbrev pub head_scores : ℕ → ℕ → ℕ → Num → ℕ → (ℕ → Num) → (ℕ → Num) → ℕ → ℕ → Num
  head_scores nh nkv hd scale len q keys h t =
      score_at K q keys hd scale h (head_major K len hd (group_of K nh nkv h) t) t

  -- Where `fmaxf` is a maximum and adding 0.0 changes nothing: on at most MAXT positions, with every
  -- key and value as they stand in the cache by position, the masked kernel gives each output as
  -- `k_attn_decode` gives it on the same keys and values by head, provided that the exponential of a
  -- masked score less the maximum is 0.
  pub attn_decode_masked-attn_decode :
      (nh nkv hd : ℕ) (scale : Num) (maxt len : ℕ) (q keys values keys' values' : ℕ → Num)
      → len ≤ maxt
      → SameRows nh nkv hd len keys keys'
      → SameRows nh nkv hd len values values'
      → ((h : ℕ) → h < nh → Vanishes (head_scores nh nkv hd scale len q keys' h) len)
      → attn_decode_masked K nh nkv hd scale maxt len q keys values
        ≡ attn_decode K nh nkv hd scale len q keys' values'
  unfolding attn_decode_masked attn_decode
  attn_decode_masked-attn_decode nh nkv hd scale maxt len q keys values keys' values' le same same'
        gone =
      rounds_from_cong 0 nh _ _ λ h lt. tabulate_cong hd _ _ λ i lt'.
        head_out_masked _ (head_scores nh nkv hd scale len q keys' h) len maxt le
          (λ t in_use.
            ap (λ s. mul s scale)
              (sum_from_cong _ _ 0 hd zero_num (λ k small.
                ap (mul (q (h * hd + k))) (same h t k (omega arith) in_use (omega arith)))))
          _ _ (λ t in_use. same' h t i (omega arith) in_use lt') (gone h (omega arith))
