-- ===== src/Quant/SuperBlock/Packing5.antt =====
-- ggml's packing of a Q5_K superblock, as the comment of `dq5k` gives it, and `dq5k` as its inverse.
use llama_tov.Prelude.{
  holds_below, ℕ, ◌+◌, ◌*◌, ◌/◌, ◌%◌, ◌^◌, ◌<◌, ◌≡◌, refl, sym, ap, ap₂, ◌∙◌, true, [], ◌++◌,
  append_assoc, arith, ◌==◌, ==_iff, length, tabulate_from, tabulate, tabulate_from-append,
  rounds-tabulate, tabulate_from_shift, get_or_field, low_bits, shr, holds_below_sound, bits_sum,
  bits_sum_bit, bits_sum-lt,
}
use llama_tov.Prelude.Int.{pos}
use llama_tov.Quant.Floats.{FloatOps, Row, byte}
use llama_tov.Quant.SuperBlock.{k_scale, k_min, fifth, dq5k_group, dq5k_block}
use llama_tov.Quant.SuperBlock.Scales.{
  BlockK, HasCodes, scale_header, scale_value, min_value, k_scale-header, k_min-header,
}

-- bit `k` of byte `l` of 32 is the fifth bit of quant `k * 32 + l`
abbrev fifth_bit : (ℕ → ℕ) → ℕ → ℕ → ℕ
fifth_bit quant l k = quant (k * 32 + l) / 16 % 2

abbrev fifth_field : (ℕ → ℕ) → ℕ → ℕ
fifth_field quant l = bits_sum 0 8 (fifth_bit quant l)

-- the low four bits, as in Q4_K
abbrev group_byte : (ℕ → ℕ) → ℕ → ℕ → ℕ
group_byte quant g l = quant (g * 64 + l) % 16 + quant (g * 64 + (32 + l)) % 16 * 16

abbrev group_field : (ℕ → ℕ) → ℕ → ℕ
group_field quant k = group_byte quant (k / 32) (k % 32)

unfoldable pub pack_q5k : BlockK → Row
pack_q5k b =
    scale_header b
    ++ (tabulate 32 (fifth_field b.quant) ++ (tabulate 128 (group_field b.quant) ++ []))

header_length : (b : BlockK) → length (scale_header b) ≡ 16
unfolding scale_header
header_length b = refl

fifth_table :
    holds_below 2048 (λ x. fifth (x % 256) (2 ^ (x / 256)) == shr (x % 256) (x / 256) % 2 * 16)
    ≡ true
unfolding holds_below
fifth_table = refl

fifth_lem : (x k : ℕ) → x < 256 → k < 8 → fifth x (2 ^ k) ≡ low_bits 1 (shr x k) * 16
fifth_lem x k hx hk =
    let y = k * 256 + x in
    let at_y = (==_iff _ _).0 (holds_below_sound 2048 _ y fifth_table (omega arith)) in
    let ex : y % 256 ≡ x = omega arith in let ek : y / 256 ≡ k = omega arith in rw (ex, ek) at at_y

module _ (b : BlockK) where
  group_at :
      (g l : ℕ) → g < 4 → l < 32 → byte (pack_q5k b) (48 + (g * 32 + l)) ≡ group_byte b.quant g l
  unfolding pack_q5k
  group_at g l hg hl =
      let before = scale_header b ++ tabulate 32 (fifth_field b.quant) in
      let at_k =
        get_or_field before 128 (group_field b.quant) [] 48 (g * 32 + l) 0
          (unfold scale_header in refl) (omega arith) in
      let q : (g * 32 + l) / 32 ≡ g = omega arith in
      let m : (g * 32 + l) % 32 ≡ l = omega arith in
      ap (λ t. byte t (48 + (g * 32 + l)))
        (sym (
          append_assoc (scale_header b) (tabulate 32 (fifth_field b.quant))
            (tabulate 128 (group_field b.quant) ++ [])))
      ∙ at_k
      ∙ ap₂ (group_byte b.quant) q m

  fifth_at :
      (l k : ℕ)
      → l < 32
      → k < 8
      → fifth (byte (pack_q5k b) (16 + l)) (2 ^ k) ≡ fifth_bit b.quant l k * 16
  unfolding pack_q5k
  fifth_at l k hl hk =
      let at_l =
        get_or_field (scale_header b) 32 (fifth_field b.quant)
          (tabulate 128 (group_field b.quant) ++ []) 16 l 0 (header_length b) hl in
      let bit = fifth_bit b.quant l in
      let e : 0 + k ≡ k = omega arith in
      ap (λ (t : ℕ). fifth t (2 ^ k)) at_l
      ∙ fifth_lem (fifth_field b.quant l) k (bits_sum-lt 0 8 bit (λ j. omega arith)) hk
      ∙ ap (λ (t : ℕ). t * 16) (bits_sum_bit 0 8 bit k (λ j. omega arith) hk ∙ ap bit e)

module _ (F : FloatOps) where
  open F use {Float, from_int, mul, sub}

  -- what ggml's format makes of quant `i`
  abbrev pub value_q5k : BlockK → ℕ → Float
  value_q5k b i =
      sub (mul (scale_value F b (i / 32)) (from_int (pos (b.quant i)))) (min_value F b (i / 32))

module _ (F : FloatOps) (b : BlockK) (codes : HasCodes b)
    (small : (i : ℕ) → i < 256 → b.quant i < 32) where
  open F use {Float, from_int, mul, sub}

  lo5 :
      (g l : ℕ)
      → g < 4
      → l < 32
      → low_bits 4 (byte (pack_q5k b) (48 + (g * 32 + l)))
          + fifth (byte (pack_q5k b) (16 + l)) (2 ^ (2 * g))
        ≡ b.quant (g * 64 + l)
  lo5 g l hg hl =
      let e : 2 * g * 32 + l ≡ g * 64 + l = omega arith in
      rw (group_at b g l hg hl, fifth_at b l (2 * g) hl (omega arith), e)
        (omega (arith, small (g * 64 + l) (omega arith)))

  hi5 :
      (g l : ℕ)
      → g < 4
      → l < 32
      → shr (byte (pack_q5k b) (48 + (g * 32 + l))) 4
          + fifth (byte (pack_q5k b) (16 + l)) (2 ^ (2 * g + 1))
        ≡ b.quant (g * 64 + (32 + l))
  hi5 g l hg hl =
      let e : (2 * g + 1) * 32 + l ≡ g * 64 + (32 + l) = omega arith in
      rw (group_at b g l hg hl, fifth_at b l (2 * g + 1) hl (omega arith), e)
        (omega (arith, small (g * 64 + (32 + l)) (omega arith)))

  value_lane :
      (q j i : ℕ)
      → q ≡ b.quant i
      → i / 32 ≡ j
      → j < 8
      → sub (mul (k_scale F (pack_q5k b) j) (from_int (pos q))) (k_min F (pack_q5k b) j)
        ≡ value_q5k F b i
  unfolding pack_q5k
  value_lane q j i eq ej hj =
      let rest = tabulate 32 (fifth_field b.quant) ++ (tabulate 128 (group_field b.quant) ++ []) in
      cc (
        ap (λ (t : ℕ). from_int (pos t)) eq,
        k_scale-header F b rest codes j hj,
        k_min-header F b rest codes j hj,
        ap (scale_value F b) ej,
        ap (min_value F b) ej,
      )

  -- round `g` of the loop makes the values of group `g`
  group : (g : ℕ) → g < 4 → dq5k_group F (pack_q5k b) g ≡ tabulate_from (g * 64) 64 (value_q5k F b)
  unfolding dq5k_group
  group g hg =
      let v = value_q5k F b in
      let z = g * 64 in
      ap₂ ◌++◌
        (tabulate_from_shift z 32 _ v
          λ l hl. value_lane _ (2 * g) (z + l) (lo5 g l hg hl) (omega arith) (omega arith))
        (tabulate_from_shift (z + 32) 32 _ v λ l hl.
          let e : z + 32 + l ≡ z + (32 + l) = omega arith in
          value_lane _ (2 * g + 1) (z + 32 + l) (hi5 g l hg hl ∙ ap b.quant (sym e)) (omega arith)
            (omega arith))
      ∙ tabulate_from-append z 32 (z + 32) 32 v refl

  -- For a superblock with 6-bit scales and mins and 256 quants below 32, decoding its packed Q5_K
  -- bytes, each fifth bit taken from the shared bit field, gives (scale * quant) - min in order.
  pub dq5k-pack : dq5k_block F (pack_q5k b) ≡ tabulate 256 (value_q5k F b)
  unfolding dq5k_block
  dq5k-pack = rounds-tabulate 64 4 (dq5k_group F (pack_q5k b)) (value_q5k F b) group
