-- ===== src/Quant/SuperBlock/Packing4.antt =====
-- ggml's packing of a Q4_K superblock, as the comment of `dq4k` gives it, and `dq4k` as its inverse.
use llama_tov.Prelude.{
  ℕ, ◌+◌, ◌-◌, ◌*◌, ◌/◌, ◌%◌, ◌≤◌, ◌<◌, ◌≡◌, refl, ap, ap₂, ◌∙◌, inl, inr, [], ◌++◌, arith, ltb,
  Bool-cases, length, tabulate, tabulate_cong, get_or_field,
}
use llama_tov.Prelude.Int.{pos}
use llama_tov.Quant.Floats.{FloatOps, Row, byte}
use llama_tov.Quant.SuperBlock.{q4k_code, dq4k_lane, dq4k_block}
use llama_tov.Quant.SuperBlock.Scales.{
  BlockK, HasCodes, scale_header, scale_value, min_value, k_scale-header, k_min-header,
}

-- In each group of 64 quants, byte `l` of 32 holds quants `l` and `l + 32`.
abbrev group_byte : (ℕ → ℕ) → ℕ → ℕ → ℕ
group_byte quant g l = quant (g * 64 + l) % 16 + quant (g * 64 + (32 + l)) % 16 * 16

abbrev group_field : (ℕ → ℕ) → ℕ → ℕ
group_field quant k = group_byte quant (k / 32) (k % 32)

unfoldable pub pack_q4k : BlockK → Row
pack_q4k b = scale_header b ++ (tabulate 128 (group_field b.quant) ++ [])

header_length : (b : BlockK) → length (scale_header b) ≡ 16
unfolding scale_header
header_length b = refl

module _ (b : BlockK) where
  group_at :
      (g l : ℕ) → g < 4 → l < 32 → byte (pack_q4k b) (16 + (g * 32 + l)) ≡ group_byte b.quant g l
  unfolding pack_q4k
  group_at g l hg hl =
      let at_k =
        get_or_field (scale_header b) 128 (group_field b.quant) [] 16 (g * 32 + l) 0
          (header_length b) (omega arith) in
      let q : (g * 32 + l) / 32 ≡ g = omega arith in
      let m : (g * 32 + l) % 32 ≡ l = omega arith in at_k ∙ ap₂ (group_byte b.quant) q m

  code_lane :
      ((i : ℕ) → i < 256 → b.quant i < 16)
      → (i : ℕ) → i < 256
      → q4k_code (pack_q4k b) (i / 64) (i % 64) ≡ b.quant i
  code_lane small i hi =
      let g = i / 64 in
      let l = i % 64 in
      elim (Bool-cases (ltb l 32)) [
        | inl low ↦
            let short : l < 32 = ground arith in
            let same : g * 64 + l ≡ i = omega arith in
            rw (low, group_at g l (omega arith) short, same) (omega (arith, small i hi))
        | inr high ↦
            let k = l - 32 in
            let short : k < 32 = omega arith in
            let long : 32 ≤ l = ground arith in
            let same : g * 64 + (32 + k) ≡ i = omega arith in
            rw (high, group_at g k (omega arith) short, same) (omega (arith, small i hi))
      ]

module _ (F : FloatOps) where
  open F use {Float, from_int, mul, sub}

  -- what ggml's format makes of quant `i`
  abbrev pub value_q4k : BlockK → ℕ → Float
  value_q4k b i =
      sub (mul (from_int (pos (b.quant i))) (scale_value F b (i / 32))) (min_value F b (i / 32))

  -- For a superblock with 6-bit scales and mins and 256 quants below 16, decoding its packed Q4_K
  -- bytes gives (quant * scale) - min for the quants in order, with the scale and min of its 32.
  pub dq4k-pack :
      (b : BlockK)
      → HasCodes b
      → ((i : ℕ) → i < 256 → b.quant i < 16)
      → dq4k_block F (pack_q4k b) ≡ tabulate 256 (value_q4k b)
  unfolding dq4k_block pack_q4k
  dq4k-pack b codes small = tabulate_cong 256 (dq4k_lane F (pack_q4k b)) (value_q4k b) λ i hi.
      let rest = tabulate 128 (group_field b.quant) ++ [] in
      cc (
        ap (λ (q : ℕ). from_int (pos q)) (code_lane b small i hi),
        k_scale-header F b rest codes (i / 32) (omega arith),
        k_min-header F b rest codes (i / 32) (omega arith),
      )
