-- ===== src/Quant/Simple/Packing.antt =====
-- ggml's packing of 32 quants into a block, as the comments of `dq4_0`, `dq5_0` and `dq8_0` give it,
-- and the decoders as its inverses.
use llama_tov.Prelude.{
  ℕ, ◌+◌, ◌-◌, ◌*◌, ◌/◌, ◌%◌, ◌<◌, bit_or, ◌≡◌, refl, ap, ◌∙◌, inl, inr, List, [], ◌∷◌, ◌++◌, arith,
  ltb, Bool-cases, length, tabulate, tabulate_cong, get_or_field, low_bits, shr, shl, bit_or_nibble,
  bits_sum, bits_sum_bit,
}
use llama_tov.Prelude.Int.{pos}
use llama_tov.Quant.Floats.{FloatOps, Row, int8}
use llama_tov.Quant.Simple.{
  nibbles, q5_0_high_bits, dq4_0_lane, dq5_0_lane, dq8_0_lane, dq4_0_block, dq5_0_block,
  dq8_0_block,
}

-- a float16 scale, as its two bytes, and the quants of one block
pub record Block : Type 0 where
  pub scale_lo : ℕ
  pub scale_hi : ℕ
  pub quant : ℕ → ℕ

-- byte `j` holds quant `j` in its low nibble and quant `j + 16` in its high one
abbrev nibble_byte : (ℕ → ℕ) → ℕ → ℕ
nibble_byte quant j = quant j % 16 + quant (j + 16) % 16 * 16

unfoldable pub pack_q4_0 : Block → Row
pack_q4_0 b = (b.scale_lo ∷ b.scale_hi ∷ []) ++ (tabulate 16 (nibble_byte b.quant) ++ [])

unfoldable pub pack_q8_0 : Block → Row
pack_q8_0 b = (b.scale_lo ∷ b.scale_hi ∷ []) ++ (tabulate 32 b.quant ++ [])

nibble_byte_fields :
    (lo hi : ℕ)
    → lo < 16
    → hi < 16
    → (low_bits 4 (lo % 16 + hi % 16 * 16) ≡ lo) × (shr (lo % 16 + hi % 16 * 16) 4 ≡ hi)
nibble_byte_fields lo hi hl hh = omega arith

-- the nibbles of a field of such bytes are the quants
nibbles_field :
    (before : List ℕ) (quant : ℕ → ℕ) (after : List ℕ) (m j : ℕ)
    → length before ≡ m
    → ((i : ℕ) → i < 32 → quant i < 16)
    → j < 32
    → nibbles (before ++ (tabulate 16 (nibble_byte quant) ++ after)) m j ≡ quant j
nibbles_field before quant after m j hm small hj = elim (Bool-cases (ltb j 16)) [
  | inl low ↦
      let at_j = get_or_field before 16 (nibble_byte quant) after m j 0 hm (ground arith) in
      rw (low, at_j) (omega (arith, small j hj))
  | inr high ↦
      let k = j - 16 in
      let at_k = get_or_field before 16 (nibble_byte quant) after m k 0 hm (ground arith) in
      let same : k + 16 ≡ j = ground arith in rw (high, at_k, same) (omega (arith, small j hj))
]

-- the fifth bits of quants 8c to 8c + 7
abbrev high_byte : (ℕ → ℕ) → ℕ → ℕ
high_byte quant at = bits_sum at 8 (λ i. quant i / 16 % 2)

abbrev q5_0_header : Block → List ℕ
q5_0_header b =
    b.scale_lo
    ∷ b.scale_hi
    ∷ high_byte b.quant 0
    ∷ high_byte b.quant 8
    ∷ high_byte b.quant 16
    ∷ high_byte b.quant 24
    ∷ []

unfoldable pub pack_q5_0 : Block → Row
pack_q5_0 b = q5_0_header b ++ (tabulate 16 (nibble_byte (λ i. b.quant i % 16)) ++ [])

high_bits_pack :
    (b : Block) → q5_0_high_bits (pack_q5_0 b) ≡ bits_sum 0 32 (λ i. b.quant i / 16 % 2)
unfolding pack_q5_0
high_bits_pack b = omega arith

fifth_bit :
    (b : Block) (j : ℕ)
    → j < 32
    → low_bits 1 (shr (q5_0_high_bits (pack_q5_0 b)) j) ≡ b.quant j / 16 % 2
fifth_bit b j h =
    let bit : ℕ → ℕ = λ i. b.quant i / 16 % 2 in
    let e : 0 + j ≡ j = omega arith in
    ap (λ (x : ℕ). low_bits 1 (shr x j)) (high_bits_pack b)
    ∙ bits_sum_bit 0 32 bit j (λ i. omega arith) h
    ∙ ap bit e

low_nibbles : (b : Block) (j : ℕ) → j < 32 → nibbles (pack_q5_0 b) 6 j ≡ b.quant j % 16
unfolding pack_q5_0
low_nibbles b j hj =
    nibbles_field (q5_0_header b) (λ i. b.quant i % 16) [] 6 j refl (λ i h. omega arith) hj

joined :
    (b : Block) (j : ℕ)
    → j < 32
    → b.quant j < 32
    → bit_or (nibbles (pack_q5_0 b) 6 j) (shl (low_bits 1 (shr (q5_0_high_bits (pack_q5_0 b)) j)) 4)
      ≡ b.quant j
joined b j hj small =
    rw (low_nibbles b j hj, fifth_bit b j hj)
      (bit_or_nibble (b.quant j % 16) (b.quant j / 16 % 2) (omega arith) (omega arith)
        ∙ omega arith)

-- What ggml's format makes of a block's quants.
module _ (F : FloatOps) where
  open F use {Float, from_half, from_int, mul, sub}

  abbrev pub value_q4_0 : Block → ℕ → Float
  value_q4_0 b j =
      mul (from_half b.scale_lo b.scale_hi) (sub (from_int (pos (b.quant j))) (from_int (pos 8)))

  abbrev pub value_q5_0 : Block → ℕ → Float
  value_q5_0 b j =
      mul (from_half b.scale_lo b.scale_hi) (sub (from_int (pos (b.quant j))) (from_int (pos 16)))

  abbrev pub value_q8_0 : Block → ℕ → Float
  value_q8_0 b j = mul (from_half b.scale_lo b.scale_hi) (from_int (int8 (b.quant j)))

module _ (F : FloatOps) (b : Block) where
  open F use {Float, from_half, from_int, mul, sub}

  -- For a block whose 32 quants are below 16, decoding its packed Q4_0 bytes gives
  -- scale * (quant - 8) for the quants in order.
  pub dq4_0-pack :
      ((i : ℕ) → i < 32 → b.quant i < 16)
      → dq4_0_block F (pack_q4_0 b) ≡ tabulate 32 (value_q4_0 F b)
  unfolding dq4_0_block dq4_0_lane pack_q4_0
  dq4_0-pack small = tabulate_cong 32 (dq4_0_lane F (pack_q4_0 b)) (value_q4_0 F b) λ j hj.
      ap
        (λ (q : ℕ).
          mul (from_half b.scale_lo b.scale_hi) (sub (from_int (pos q)) (from_int (pos 8))))
        (nibbles_field (b.scale_lo ∷ b.scale_hi ∷ []) b.quant [] 2 j refl small hj)

  -- For a block whose 32 quants are below 32, decoding its packed Q5_0 bytes, the fifth bits joined
  -- from the bit field, gives scale * (quant - 16) for the quants in order.
  pub dq5_0-pack :
      ((i : ℕ) → i < 32 → b.quant i < 32)
      → dq5_0_block F (pack_q5_0 b) ≡ tabulate 32 (value_q5_0 F b)
  unfolding dq5_0_block dq5_0_lane pack_q5_0
  dq5_0-pack small = tabulate_cong 32 (dq5_0_lane F (pack_q5_0 b)) (value_q5_0 F b) λ j hj.
      ap
        (λ (q : ℕ).
          mul (from_half b.scale_lo b.scale_hi) (sub (from_int (pos q)) (from_int (pos 16))))
        (joined b j hj (small j hj))

  -- Decoding packed Q8_0 bytes gives scale * quant, the quants read as signed bytes, in order.
  pub dq8_0-pack : dq8_0_block F (pack_q8_0 b) ≡ tabulate 32 (value_q8_0 F b)
  unfolding dq8_0_block dq8_0_lane pack_q8_0
  dq8_0-pack = tabulate_cong 32 (dq8_0_lane F (pack_q8_0 b)) (value_q8_0 F b) λ j hj.
      ap (λ (q : ℕ). mul (from_half b.scale_lo b.scale_hi) (from_int (int8 q)))
        (get_or_field (b.scale_lo ∷ b.scale_hi ∷ []) 32 b.quant [] 2 j 0 refl hj)
