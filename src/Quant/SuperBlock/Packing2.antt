-- ===== src/Quant/SuperBlock/Packing2.antt =====
-- ggml's packing of a Q2_K superblock, as the comment of `dq2k` gives it, and `dq2k` as its inverse.
use llama_tov.Prelude.{
  ℕ, zero, suc, ◌+◌, ◌*◌, ◌/◌, ◌%◌, ◌<◌, ◌≡◌, refl, sym, ap, ap₂, ◌∙◌, List, [], ◌∷◌, ◌++◌, arith,
  tabulate_from, tabulate, tabulate_from-append, tabulate_from_shift, get_or_field, get_or_first,
  low_bits, shr,
}
use llama_tov.Prelude.Int.{pos}
use llama_tov.Quant.Floats.{FloatOps, Row, byte}
use llama_tov.Quant.SuperBlock.{dq2k_batch, dq2k_shifts, dq2k_block}

-- two float16 scales, 16 scales and 16 mins of 4 bits, and 256 quants of 2 bits
pub record Block2 : Type 0 where
  pub d_lo : ℕ
  pub d_hi : ℕ
  pub dmin_lo : ℕ
  pub dmin_hi : ℕ
  pub scale : ℕ → ℕ
  pub min : ℕ → ℕ
  pub quant : ℕ → ℕ

pub record FitsBlock2 (b : Block2) : Type 0 where
  pub scales_fit : (j : ℕ) → j < 16 → b.scale j < 16
  pub mins_fit : (j : ℕ) → j < 16 → b.min j < 16
  pub quants_fit : (i : ℕ) → i < 256 → b.quant i < 4

-- In each half of 128 quants, byte `r` of 32 holds quants `r`, `r + 32`, `r + 64` and `r + 96`.
abbrev quad : (ℕ → ℕ) → ℕ → ℕ → ℕ
quad quant c r =
    quant (c * 128 + r)
    + quant (c * 128 + (32 + r)) * 4
    + quant (c * 128 + (64 + r)) * 16
    + quant (c * 128 + (96 + r)) * 64

abbrev quad_field : (ℕ → ℕ) → ℕ → ℕ
quad_field quant k = quad quant (k / 32) (k % 32)

abbrev scale_field : Block2 → ℕ → ℕ
scale_field b j = b.scale j + b.min j * 16

abbrev scale_tail : Block2 → List ℕ
scale_tail b = b.d_lo ∷ b.d_hi ∷ b.dmin_lo ∷ b.dmin_hi ∷ []

unfoldable pub pack_q2k : Block2 → Row
pack_q2k b = tabulate 16 (scale_field b) ++ (tabulate 64 (quad_field b.quant) ++ scale_tail b)

module _ (F : FloatOps) where
  open F use {Float, from_half, from_int, mul, sub}

  -- what ggml's format makes of quant `i`
  abbrev pub value_q2k : Block2 → ℕ → Float
  value_q2k b i =
      sub
        (mul (mul (from_int (pos (b.scale (i / 16)))) (from_half b.d_lo b.d_hi))
          (from_int (pos (b.quant i))))
        (mul (from_int (pos (b.min (i / 16)))) (from_half b.dmin_lo b.dmin_hi))

-- lanes joined to the lanes that follow
glue {ℓ} :
    {A : Type ℓ} (f : ℕ → A) (z n : ℕ) {xs ys : List A}
    → xs ≡ tabulate_from z 16 f
    → ys ≡ tabulate_from (z + 16) n f
    → xs ++ ys ≡ tabulate_from z (16 + n) f
glue f z n p q = ap₂ ◌++◌ p q ∙ tabulate_from-append z 16 (z + 16) n f refl

module _ (b : Block2) (fits : FitsBlock2 b) where
  quad_at : (c r : ℕ) → c < 2 → r < 32 → byte (pack_q2k b) (16 + (c * 32 + r)) ≡ quad b.quant c r
  unfolding pack_q2k
  quad_at c r hc hr =
      let at_k =
        get_or_field (tabulate 16 (scale_field b)) 64 (quad_field b.quant) (scale_tail b) 16
          (c * 32 + r) 0 refl (omega arith) in
      let q : (c * 32 + r) / 32 ≡ c = omega arith in
      let m : (c * 32 + r) % 32 ≡ r = omega arith in at_k ∙ ap₂ (quad b.quant) q m

  scale_at : (j : ℕ) → j < 16 → byte (pack_q2k b) j ≡ scale_field b j
  unfolding pack_q2k
  scale_at j hj =
      get_or_first 16 (scale_field b) (tabulate 64 (quad_field b.quant) ++ scale_tail b) j 0 hj

  fit :
      (c r : ℕ)
      → c < 2
      → r < 32
      → (b.quant (c * 128 + r) < 4)
        × (b.quant (c * 128 + (32 + r)) < 4)
        × (b.quant (c * 128 + (64 + r)) < 4)
        × (b.quant (c * 128 + (96 + r)) < 4)
  fit c r hc hr = (
    fits.quants_fit (c * 128 + r) (omega arith),
    fits.quants_fit (c * 128 + (32 + r)) (omega arith),
    fits.quants_fit (c * 128 + (64 + r)) (omega arith),
    fits.quants_fit (c * 128 + (96 + r)) (omega arith),
  )

  -- two bits of a byte are the quant of that shift
  two_bits :
      (c s r : ℕ)
      → c < 2
      → s < 4
      → r < 32
      → low_bits 2 (shr (quad b.quant c r) (2 * s)) ≡ b.quant (c * 128 + (s * 32 + r))
  two_bits c zero r hc hs hr =
      let e : 0 * 32 + r ≡ r = omega arith in rw e (omega (arith, fit c r hc hr))
  two_bits c (suc zero) r hc hs hr = omega (arith, fit c r hc hr)
  two_bits c (suc (suc zero)) r hc hs hr = omega (arith, fit c r hc hr)
  two_bits c (suc (suc (suc zero))) r hc hs hr = omega (arith, fit c r hc hr)
  two_bits c (suc (suc (suc (suc s)))) r hc hs hr = absurd (omega arith)

module _ (F : FloatOps) (b : Block2) (fits : FitsBlock2 b) where
  open F use {Float, from_half, from_int, mul, sub}

  -- 16 outputs of the loop are 16 values of the format
  batch :
      (c s h at is_idx z : ℕ)
      → c < 2
      → s < 4
      → h < 2
      → at ≡ 16 + (c * 32 + h * 16)
      → is_idx ≡ c * 8 + s * 2 + h
      → z ≡ c * 128 + s * 32 + h * 16
      → dq2k_batch F (pack_q2k b) at (2 * s) is_idx ≡ tabulate_from z 16 (value_q2k F b)
  batch c s h at is_idx z hc hs hh ea ei ez = tabulate_from_shift z 16 _ (value_q2k F b) λ l hl.
      let e : at + l ≡ 16 + (c * 32 + (h * 16 + l)) = omega arith in
      let i : z + l ≡ c * 128 + (s * 32 + (h * 16 + l)) = omega arith in
      let j : (z + l) / 16 ≡ is_idx = omega arith in
      let jl : is_idx < 16 = omega arith in
      let sc : low_bits 4 (byte (pack_q2k b) is_idx) ≡ b.scale is_idx =
        omega (arith, scale_at b fits is_idx jl, fits.scales_fit is_idx jl) in
      let mn : shr (byte (pack_q2k b) is_idx) 4 ≡ b.min is_idx =
        omega (arith, scale_at b fits is_idx jl, fits.scales_fit is_idx jl) in
      let q : low_bits 2 (shr (byte (pack_q2k b) (at + l)) (2 * s)) ≡ b.quant (z + l) =
        ap (λ (t : ℕ). low_bits 2 (shr (byte (pack_q2k b) t) (2 * s))) e
        ∙ ap (λ (t : ℕ). low_bits 2 (shr t (2 * s)))
            (quad_at b fits c (h * 16 + l) hc (omega arith))
        ∙ two_bits b fits c s (h * 16 + l) hc hs (omega arith)
        ∙ ap b.quant (sym i) in
      lane is_idx (z + l) sc mn q (sym j)
    where
      lane :
          (is_idx i : ℕ) {sc mn q : ℕ}
          → sc ≡ b.scale is_idx
          → mn ≡ b.min is_idx
          → q ≡ b.quant i
          → is_idx ≡ i / 16
          → sub
              (mul
                (mul (from_int (pos sc)) (from_half (byte (pack_q2k b) 80) (byte (pack_q2k b) 81)))
                (from_int (pos q)))
              (mul (from_int (pos mn)) (from_half (byte (pack_q2k b) 82) (byte (pack_q2k b) 83)))
            ≡ value_q2k F b i
      lane is_idx i es em eq ei = unfold pack_q2k in cc (es, em, eq, ap b.scale ei, ap b.min ei)

  first_half :
      dq2k_shifts F (pack_q2k b) 16 (0 ∷ 2 ∷ 4 ∷ 6 ∷ []) 0 ≡ tabulate_from 0 128 (value_q2k F b)
  unfolding dq2k_shifts
  first_half =
      let v = value_q2k F b in
      (glue v 0 112 (batch 0 0 0 16 0 0 (omega arith) (omega arith) (omega arith) refl refl refl) (
        glue v 16 96 (batch 0 0 1 32 1 16 (omega arith) (omega arith) (omega arith) refl refl refl)
          (glue v 32 80
            (batch 0 1 0 16 2 32 (omega arith) (omega arith) (omega arith) refl refl refl)
            (glue v 48 64
              (batch 0 1 1 32 3 48 (omega arith) (omega arith) (omega arith) refl refl refl)
              (glue v 64 48
                (batch 0 2 0 16 4 64 (omega arith) (omega arith) (omega arith) refl refl refl)
                (glue v 80 32
                  (batch 0 2 1 32 5 80 (omega arith) (omega arith) (omega arith) refl refl refl)
                  (glue v 96 16
                    (batch 0 3 0 16 6 96 (omega arith) (omega arith) (omega arith) refl refl refl)
                    (glue v 112 0
                      (batch 0 3 1 32 7 112 (omega arith) (omega arith) (omega arith) refl refl
                        refl)
                      refl))))))))

  second_half :
      dq2k_shifts F (pack_q2k b) 48 (0 ∷ 2 ∷ 4 ∷ 6 ∷ []) 8 ≡ tabulate_from 128 128 (value_q2k F b)
  unfolding dq2k_shifts
  second_half =
      let v = value_q2k F b in
      (glue v 128 112
        (batch 1 0 0 48 8 128 (omega arith) (omega arith) (omega arith) refl refl refl)
        (glue v 144 96
          (batch 1 0 1 64 9 144 (omega arith) (omega arith) (omega arith) refl refl refl)
          (glue v 160 80
            (batch 1 1 0 48 10 160 (omega arith) (omega arith) (omega arith) refl refl refl)
            (glue v 176 64
              (batch 1 1 1 64 11 176 (omega arith) (omega arith) (omega arith) refl refl refl)
              (glue v 192 48
                (batch 1 2 0 48 12 192 (omega arith) (omega arith) (omega arith) refl refl refl)
                (glue v 208 32
                  (batch 1 2 1 64 13 208 (omega arith) (omega arith) (omega arith) refl refl refl)
                  (glue v 224 16
                    (batch 1 3 0 48 14 224 (omega arith) (omega arith) (omega arith) refl refl refl)
                    (glue v 240 0
                      (batch 1 3 1 64 15 240 (omega arith) (omega arith) (omega arith) refl refl
                        refl)
                      refl))))))))

  -- For a superblock with 4-bit scales and mins and 256 quants below 4, decoding its packed Q2_K
  -- bytes gives (d * scale * quant) - dmin * min for the quants in order.
  pub dq2k-pack : dq2k_block F (pack_q2k b) ≡ tabulate 256 (value_q2k F b)
  unfolding dq2k_block
  dq2k-pack =
      ap₂ ◌++◌ first_half (ap₂ ◌++◌ second_half refl)
      ∙ tabulate_from-append 0 128 128 128 (value_q2k F b) refl
