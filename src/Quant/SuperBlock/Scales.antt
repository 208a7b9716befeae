-- ===== src/Quant/SuperBlock/Scales.antt =====
-- The 6-bit scales and mins that Q4_K and Q5_K share: ggml's packing of 8 of each into 12 bytes, and
-- the unpacking of `dq4k` and `dq5k` as its inverse.
use llama_tov.Prelude.{
  ℕ, ◌+◌, ◌-◌, ◌*◌, ◌/◌, ◌%◌, ◌<◌, ◌≡◌, refl, inl, inr, List, [], ◌∷◌, ◌++◌, arith, ltb, Bool-cases,
  tabulate, get_or_field, joined_code,
}
use llama_tov.Prelude.Int.{pos}
use llama_tov.Quant.Floats.{FloatOps, Row, byte}
use llama_tov.Quant.SuperBlock.{scale_code, min_code, k_scale, k_min}

-- two float16 scales, 8 scales and 8 mins of 6 bits, and 256 quants
pub record BlockK : Type 0 where
  pub d_lo : ℕ
  pub d_hi : ℕ
  pub dmin_lo : ℕ
  pub dmin_hi : ℕ
  pub scale : ℕ → ℕ
  pub min : ℕ → ℕ
  pub quant : ℕ → ℕ

-- the codes fit 6 bits
pub record HasCodes (b : BlockK) : Type 0 where
  pub scales_fit : (j : ℕ) → j < 8 → b.scale j < 64
  pub mins_fit : (j : ℕ) → j < 8 → b.min j < 64

-- the low six bits of the first four scales, with the upper two of the last four above them
abbrev scale_byte : BlockK → ℕ → ℕ
scale_byte b j = b.scale j + b.scale (j + 4) / 16 * 64

abbrev min_byte : BlockK → ℕ → ℕ
min_byte b j = b.min j + b.min (j + 4) / 16 * 64

-- the low four bits of the last four scales and mins
abbrev rest_byte : BlockK → ℕ → ℕ
rest_byte b j = b.scale (j + 4) % 16 + b.min (j + 4) % 16 * 16

-- the first 16 bytes of a block
unfoldable pub scale_header : BlockK → List ℕ
scale_header b =
    (b.d_lo ∷ b.d_hi ∷ b.dmin_lo ∷ b.dmin_hi ∷ [])
    ++ (tabulate 4 (scale_byte b) ++ (tabulate 4 (min_byte b) ++ tabulate 4 (rest_byte b)))

module _ (b : BlockK) (rest : List ℕ) where
  abbrev row : Row
  row = scale_header b ++ rest

  scale_byte_at : (j : ℕ) → j < 4 → byte row (4 + j) ≡ scale_byte b j
  unfolding scale_header
  scale_byte_at j h =
      get_or_field (b.d_lo ∷ b.d_hi ∷ b.dmin_lo ∷ b.dmin_hi ∷ []) 4 (scale_byte b)
        (tabulate 4 (min_byte b) ++ (tabulate 4 (rest_byte b) ++ rest)) 4 j 0 refl h

  min_byte_at : (j : ℕ) → j < 4 → byte row (8 + j) ≡ min_byte b j
  unfolding scale_header
  min_byte_at j h =
      get_or_field ((b.d_lo ∷ b.d_hi ∷ b.dmin_lo ∷ b.dmin_hi ∷ []) ++ tabulate 4 (scale_byte b)) 4
        (min_byte b) (tabulate 4 (rest_byte b) ++ rest) 8 j 0 refl h

  rest_byte_at : (j : ℕ) → j < 4 → byte row (12 + j) ≡ rest_byte b j
  unfolding scale_header
  rest_byte_at j h =
      get_or_field
        ((b.d_lo ∷ b.d_hi ∷ b.dmin_lo ∷ b.dmin_hi ∷ [])
          ++ (tabulate 4 (scale_byte b) ++ tabulate 4 (min_byte b)))
        4 (rest_byte b) rest 12 j 0 refl h

  pub scale_code-header : HasCodes b → (j : ℕ) → j < 8 → scale_code row j ≡ b.scale j
  scale_code-header fit j hj = elim (Bool-cases (ltb j 4)) [
    | inl low ↦ rw (low, scale_byte_at j (ground arith)) (omega (arith, fit.scales_fit j hj))
    | inr high ↦
        let k = j - 4 in
        let same : k + 4 ≡ j = ground arith in
        let small : k < 4 = ground arith in
        rw (high, scale_byte_at k small, rest_byte_at k small, same)
          (joined_code (b.scale j) _ _ (fit.scales_fit j hj) (omega arith)
            (omega (arith, fit.scales_fit k (omega arith))))
  ]

  pub min_code-header : HasCodes b → (j : ℕ) → j < 8 → min_code row j ≡ b.min j
  min_code-header fit j hj = elim (Bool-cases (ltb j 4)) [
    | inl low ↦ rw (low, min_byte_at j (ground arith)) (omega (arith, fit.mins_fit j hj))
    | inr high ↦
        let k = j - 4 in
        let same : k + 4 ≡ j = ground arith in
        let small : k < 4 = ground arith in
        rw (high, min_byte_at k small, rest_byte_at k small, same)
          (joined_code (b.min j) _ _ (fit.mins_fit j hj) (omega (arith, fit.scales_fit j hj))
            (omega (arith, fit.mins_fit k (omega arith))))
  ]

module _ (F : FloatOps) (b : BlockK) where
  open F use {Float, from_half, from_int, mul, sub}

  abbrev pub scale_value : ℕ → Float
  scale_value j = mul (from_int (pos (b.scale j))) (from_half b.d_lo b.d_hi)

  abbrev pub min_value : ℕ → Float
  min_value j = mul (from_int (pos (b.min j))) (from_half b.dmin_lo b.dmin_hi)

  pub k_scale-header :
      (rest : List ℕ)
      → HasCodes b
      → (j : ℕ) → j < 8
      → k_scale F (scale_header b ++ rest) j ≡ scale_value j
  k_scale-header rest fit j hj = cc (scale_code-header b rest fit j hj, header_d b rest)
    where
      header_d :
          (b : BlockK) (rest : List ℕ)
          → from_half (byte (scale_header b ++ rest) 0) (byte (scale_header b ++ rest) 1)
            ≡ from_half b.d_lo b.d_hi
      header_d b rest = unfold scale_header in refl

  pub k_min-header :
      (rest : List ℕ)
      → HasCodes b
      → (j : ℕ) → j < 8
      → k_min F (scale_header b ++ rest) j ≡ min_value j
  k_min-header rest fit j hj = cc (min_code-header b rest fit j hj, header_d b rest)
    where
      header_d :
          (b : BlockK) (rest : List ℕ)
          → from_half (byte (scale_header b ++ rest) 2) (byte (scale_header b ++ rest) 3)
            ≡ from_half b.dmin_lo b.dmin_hi
      header_d b rest = unfold scale_header in refl
