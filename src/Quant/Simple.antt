-- ===== src/Quant/Simple.antt =====
-- The blocks of 32 elements: `dq4_0`, `dq5_0` and `dq8_0` of bpd/llamatov_run.py. A decoder is the
-- lane expression of its vectorised numpy code: element `j` of one block.
pub mod Packing
use llama_tov.Prelude.{
  ℕ, ◌+◌, ◌-◌, ◌*◌, ◌^◌, bit_or, List, ltb, if◌then◌else◌, tabulate, low_bits, shr, shl,
}
use llama_tov.Prelude.Int.{pos}
use llama_tov.Quant.Floats.{FloatOps, Row, byte, int8}

-- `np.concatenate([lo, hi], axis=-1)` of two arrays with `n` and any number of lanes
abbrev pub concat_lanes {ℓ} : {A : Type ℓ} → ℕ → (ℕ → A) → (ℕ → A) → ℕ → A
concat_lanes n lo hi j = if ltb j n then lo j else hi (j - n)

-- the nibbles of the 16 bytes from `at` on, low ones first
abbrev pub nibbles : Row → ℕ → ℕ → ℕ
nibbles row at =
    concat_lanes 16 (λ j. low_bits 4 (byte row (at + j))) (λ j. shr (byte row (at + j)) 4)

-- the 32 high bits as one little-endian number
abbrev pub q5_0_high_bits : Row → ℕ
q5_0_high_bits row = byte row 2 + byte row 3 * 2 ^ 8 + byte row 4 * 2 ^ 16 + byte row 5 * 2 ^ 24

module _ (F : FloatOps) where
  open F use {Float, from_half, from_int, mul, sub}

  unfoldable pub dq4_0_lane : Row → ℕ → Float
  dq4_0_lane row j =
      let d = from_half (byte row 0) (byte row 1) in
      let q = nibbles row 2 j in mul d (sub (from_int (pos q)) (from_int (pos 8)))

  unfoldable pub dq5_0_lane : Row → ℕ → Float
  dq5_0_lane row j =
      let d = from_half (byte row 0) (byte row 1) in
      let low_nib = nibbles row 6 j in
      let qh5 = low_bits 1 (shr (q5_0_high_bits row) j) in
      mul d (sub (from_int (pos (bit_or low_nib (shl qh5 4)))) (from_int (pos 16)))

  unfoldable pub dq8_0_lane : Row → ℕ → Float
  dq8_0_lane row j = mul (from_half (byte row 0) (byte row 1)) (from_int (int8 (byte row (2 + j))))

  unfoldable pub dq4_0_block : Row → List Float
  unfolding dq4_0_lane
  dq4_0_block row = tabulate 32 (dq4_0_lane row)

  unfoldable pub dq5_0_block : Row → List Float
  unfolding dq5_0_lane
  dq5_0_block row = tabulate 32 (dq5_0_lane row)

  unfoldable pub dq8_0_block : Row → List Float
  unfolding dq8_0_lane
  dq8_0_block row = tabulate 32 (dq8_0_lane row)
