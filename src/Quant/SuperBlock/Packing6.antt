-- ===== src/Quant/SuperBlock/Packing6.antt =====
-- ggml's packing of a Q6_K superblock, as the comment of `dq6k` gives it, and `dq6k` as its inverse.
use llama_tov.Prelude.{
  ℕ, ◌+◌, ◌*◌, ◌/◌, ◌%◌, ◌<◌, bit_or, ◌≡◌, refl, sym, ap, ap₂, ◌∙◌, [], ◌∷◌, ◌++◌, arith,
  tabulate_from, tabulate, tabulate_from-append, rounds-tabulate, tabulate_from_shift, get_or_field,
  get_or_first, low_bits, shr, shl, joined_code,
}
use llama_tov.Prelude.Int.{sub_ℕ}
use llama_tov.Quant.Floats.{FloatOps, Row, byte, int8}
use llama_tov.Quant.SuperBlock.{q6k_value, dq6k_half, dq6k_block}

four_quarters {ℓ} :
    {A : Type ℓ} (z : ℕ) (f : ℕ → A)
    → tabulate_from z 32 f
        ++ (tabulate_from (z + 32) 32 f
            ++ (tabulate_from (z + 64) 32 f ++ tabulate_from (z + 96) 32 f))
      ≡ tabulate_from z 128 f
four_quarters z f =
    ap (λ t. tabulate_from z 32 f ++ (tabulate_from (z + 32) 32 f ++ t))
      (tabulate_from-append (z + 64) 32 (z + 96) 32 f (omega arith))
    ∙ ap (λ t. tabulate_from z 32 f ++ t)
        (tabulate_from-append (z + 32) 32 (z + 64) 64 f (omega arith))
    ∙ tabulate_from-append z 32 (z + 32) 96 f refl

-- a float16 scale, 16 signed scales as bytes, and 256 quants of 6 bits
pub record Block6 : Type 0 where
  pub scale_lo : ℕ
  pub scale_hi : ℕ
  pub scale : ℕ → ℕ
  pub quant : ℕ → ℕ

-- In each half of 128 quants, byte `r` of 64 holds the low nibbles of quants `r` and `r + 64`.
abbrev low_byte : (ℕ → ℕ) → ℕ → ℕ → ℕ
low_byte quant n r = quant (n * 128 + r) % 16 + quant (n * 128 + (64 + r)) % 16 * 16

-- Byte `l` of 32 holds the upper two bits of quants `l`, `l + 32`, `l + 64` and `l + 96`.
abbrev high_byte : (ℕ → ℕ) → ℕ → ℕ → ℕ
high_byte quant n l =
    quant (n * 128 + l) / 16
    + quant (n * 128 + (32 + l)) / 16 * 4
    + quant (n * 128 + (64 + l)) / 16 * 16
    + quant (n * 128 + (96 + l)) / 16 * 64

abbrev low_field : Block6 → ℕ → ℕ
low_field b k = low_byte b.quant (k / 64) (k % 64)

abbrev high_field : Block6 → ℕ → ℕ
high_field b k = high_byte b.quant (k / 32) (k % 32)

unfoldable pub pack_q6k : Block6 → Row
pack_q6k b =
    tabulate 128 (low_field b)
    ++ (tabulate 64 (high_field b) ++ (tabulate 16 b.scale ++ b.scale_lo ∷ b.scale_hi ∷ []))

module _ (b : Block6) where
  low_at : (n r : ℕ) → n < 2 → r < 64 → byte (pack_q6k b) (n * 64 + r) ≡ low_byte b.quant n r
  unfolding pack_q6k
  low_at n r hn hr =
      let at_k =
        get_or_first 128 (low_field b)
          (tabulate 64 (high_field b) ++ (tabulate 16 b.scale ++ b.scale_lo ∷ b.scale_hi ∷ []))
          (n * 64 + r) 0 (omega arith) in
      let q : (n * 64 + r) / 64 ≡ n = omega arith in
      let m : (n * 64 + r) % 64 ≡ r = omega arith in at_k ∙ ap₂ (low_byte b.quant) q m

  high_at :
      (n l : ℕ) → n < 2 → l < 32 → byte (pack_q6k b) (128 + (n * 32 + l)) ≡ high_byte b.quant n l
  unfolding pack_q6k
  high_at n l hn hl =
      let at_k =
        get_or_field (tabulate 128 (low_field b)) 64 (high_field b)
          (tabulate 16 b.scale ++ b.scale_lo ∷ b.scale_hi ∷ []) 128 (n * 32 + l) 0 refl
          (omega arith) in
      let q : (n * 32 + l) / 32 ≡ n = omega arith in
      let m : (n * 32 + l) % 32 ≡ l = omega arith in at_k ∙ ap₂ (high_byte b.quant) q m

  scale_at : (k : ℕ) → k < 16 → byte (pack_q6k b) (192 + k) ≡ b.scale k
  unfolding pack_q6k
  scale_at k hk =
      get_or_field (tabulate 128 (low_field b) ++ tabulate 64 (high_field b)) 16 b.scale
        (b.scale_lo ∷ b.scale_hi ∷ []) 192 k 0 refl hk

  scale_lo_at : byte (pack_q6k b) 208 ≡ b.scale_lo
  unfolding pack_q6k
  scale_lo_at = refl

  scale_hi_at : byte (pack_q6k b) 209 ≡ b.scale_hi
  unfolding pack_q6k
  scale_hi_at = refl

module _ (F : FloatOps) where
  open F use {Float, from_half, from_int, mul}

  -- what ggml's format makes of quant `i`
  abbrev pub value_q6k : Block6 → ℕ → Float
  value_q6k b i =
      mul (mul (from_int (sub_ℕ (b.quant i) 32)) (from_int (int8 (b.scale (i / 16)))))
        (from_half b.scale_lo b.scale_hi)

module _ (F : FloatOps) (b : Block6) (small : (i : ℕ) → i < 256 → b.quant i < 64) where
  open F use {Float}

  value_lane :
      (q sc i : ℕ)
      → q ≡ b.quant i
      → i / 16 ≡ sc
      → sc < 16
      → q6k_value F (pack_q6k b) q sc ≡ value_q6k F b i
  value_lane q sc i eq es hs = cc (
    ap (λ (t : ℕ). sub_ℕ t 32) eq,
    ap int8 (scale_at b sc hs ∙ ap b.scale (sym es)),
    scale_lo_at b,
    scale_hi_at b,
  )

  -- the four quants that share byte `l` of the upper bits
  fit :
      (n : ℕ)
      → n < 2
      → (l : ℕ) → l < 32
      → (b.quant (n * 128 + l) < 64)
        × (b.quant (n * 128 + (32 + l)) < 64)
        × (b.quant (n * 128 + (64 + l)) < 64)
        × (b.quant (n * 128 + (96 + l)) < 64)
  fit n hn l hl = (
    small (n * 128 + l) (omega arith),
    small (n * 128 + (32 + l)) (omega arith),
    small (n * 128 + (64 + l)) (omega arith),
    small (n * 128 + (96 + l)) (omega arith),
  )

  -- the code of each of the four quarters is the quant
  quarter0 :
      (n l : ℕ)
      → n < 2
      → l < 32
      → bit_or
          (low_bits 4 (byte (pack_q6k b) (n * 64 + l)))
          (shl (low_bits 2 (shr (byte (pack_q6k b) (128 + (n * 32 + l))) 0)) 4)
        ≡ b.quant (n * 128 + l)
  quarter0 n l hn hl =
      rw (low_at b n l hn (omega arith), high_at b n l hn hl)
        (joined_code (b.quant (n * 128 + l)) _ _ (small (n * 128 + l) (omega arith))
          (omega (arith, fit n hn l hl)) (omega (arith, fit n hn l hl)))

  quarter1 :
      (n l : ℕ)
      → n < 2
      → l < 32
      → bit_or
          (low_bits 4 (byte (pack_q6k b) (n * 64 + 32 + l)))
          (shl (low_bits 2 (shr (byte (pack_q6k b) (128 + (n * 32 + l))) 2)) 4)
        ≡ b.quant (n * 128 + (32 + l))
  quarter1 n l hn hl =
      let far : n * 64 + 32 + l ≡ n * 64 + (32 + l) = omega arith in
      let top : n * 128 + (64 + (32 + l)) ≡ n * 128 + (96 + l) = omega arith in
      rw (far, low_at b n (32 + l) hn (omega arith), high_at b n l hn hl, top)
        (joined_code (b.quant (n * 128 + (32 + l))) _ _ (small (n * 128 + (32 + l)) (omega arith))
          (omega (arith, fit n hn l hl)) (omega (arith, fit n hn l hl)))

  quarter2 :
      (n l : ℕ)
      → n < 2
      → l < 32
      → bit_or
          (shr (byte (pack_q6k b) (n * 64 + l)) 4)
          (shl (low_bits 2 (shr (byte (pack_q6k b) (128 + (n * 32 + l))) 4)) 4)
        ≡ b.quant (n * 128 + (64 + l))
  quarter2 n l hn hl =
      rw (low_at b n l hn (omega arith), high_at b n l hn hl)
        (joined_code (b.quant (n * 128 + (64 + l))) _ _ (small (n * 128 + (64 + l)) (omega arith))
          (omega (arith, fit n hn l hl)) (omega (arith, fit n hn l hl)))

  quarter3 :
      (n l : ℕ)
      → n < 2
      → l < 32
      → bit_or
          (shr (byte (pack_q6k b) (n * 64 + 32 + l)) 4)
          (shl (low_bits 2 (shr (byte (pack_q6k b) (128 + (n * 32 + l))) 6)) 4)
        ≡ b.quant (n * 128 + (96 + l))
  quarter3 n l hn hl =
      let far : n * 64 + 32 + l ≡ n * 64 + (32 + l) = omega arith in
      let top : n * 128 + (64 + (32 + l)) ≡ n * 128 + (96 + l) = omega arith in
      rw (far, low_at b n (32 + l) hn (omega arith), high_at b n l hn hl, top)
        (joined_code (b.quant (n * 128 + (96 + l))) _ _ (small (n * 128 + (96 + l)) (omega arith))
          (omega (arith, fit n hn l hl)) (omega (arith, fit n hn l hl)))

  -- round `n` of the loop makes the values of half `n`
  half : (n : ℕ) → n < 2 → dq6k_half F (pack_q6k b) n ≡ tabulate_from (n * 128) 128 (value_q6k F b)
  unfolding dq6k_half
  half n hn =
      let v = value_q6k F b in
      let z = n * 128 in
      ap₂ ◌++◌
        (tabulate_from_shift z 32 _ v λ l hl.
          value_lane _ (n * 8 + l / 16) (z + l) (quarter0 n l hn hl) (omega arith) (omega arith))
        (ap₂ ◌++◌
          (tabulate_from_shift (z + 32) 32 _ v λ l hl.
            let e : z + 32 + l ≡ z + (32 + l) = omega arith in
            value_lane _ (n * 8 + (l / 16 + 2)) (z + 32 + l)
              (quarter1 n l hn hl ∙ ap b.quant (sym e)) (omega arith) (omega arith))
          (ap₂ ◌++◌
            (tabulate_from_shift (z + 64) 32 _ v λ l hl.
              let e : z + 64 + l ≡ z + (64 + l) = omega arith in
              value_lane _ (n * 8 + (l / 16 + 4)) (z + 64 + l)
                (quarter2 n l hn hl ∙ ap b.quant (sym e)) (omega arith) (omega arith))
            (tabulate_from_shift (z + 96) 32 _ v λ l hl.
              let e : z + 96 + l ≡ z + (96 + l) = omega arith in
              value_lane _ (n * 8 + (l / 16 + 6)) (z + 96 + l)
                (quarter3 n l hn hl ∙ ap b.quant (sym e)) (omega arith) (omega arith))))
      ∙ four_quarters z v

  -- For a superblock whose 256 quants are below 64, decoding its packed Q6_K bytes gives
  -- d * scale * (quant - 32) for the quants in order, each with the scale of its group of 16.
  pub dq6k-pack : dq6k_block F (pack_q6k b) ≡ tabulate 256 (value_q6k F b)
  unfolding dq6k_block
  dq6k-pack = rounds-tabulate 128 2 (dq6k_half F (pack_q6k b)) (value_q6k F b) half
