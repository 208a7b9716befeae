-- ===== src/Quant/Legacy.antt =====
-- The older decoders, `dequant_q2_k` to `dequant_q8_0` and `load_tensor_by_type` of
-- bpd/lib/llamatov_helpers.py. A decoder is the lane expression of its vectorised numpy code: element
-- `e` of one block. Shapes stay in the order of the file.
use llama_tov.Prelude.{
  ℕ, ◌+◌, ◌-◌, ◌*◌, ◌/◌, ◌%◌, List, ltb, ◌==◌, if◌then◌else◌, replicate, tabulate, Result, guard,
  ◌>>=◌, ◌>>◌, value_error, runtime_error, ok, low_bits, shr,
}
use llama_tov.Prelude.Int.{pos}
use llama_tov.Quant.Floats.{FloatOps, Row, byte, int8}
use llama_tov.Quant.Simple.{nibbles}
use llama_tov.Quant.SuperBlock.{scale_code, min_code}
use llama_tov.Quant.Load.{Tensor, product, dequantize, from_file, reshape}

-- the quants of `dequant_q4_k`: the low nibbles of all 128 bytes, and then the high ones
unfoldable pub legacy_q4k_code : Row → ℕ → ℕ
legacy_q4k_code row e =
    if ltb e 128 then low_bits 4 (byte row (16 + e)) else shr (byte row (16 + (e - 128))) 4

-- `np.stack([ql & 0xF, ql >> 4], -1)`
abbrev pub paired_nibble : Row → ℕ → ℕ
paired_nibble row e = if e % 2 == 0 then low_bits 4 (byte row (e / 2)) else shr (byte row (e / 2)) 4

module _ (F : FloatOps) where
  open F use {Float, from_half, from_int, mul, sub, add, zero, from_single}

  abbrev code : ℕ → Float
  code q = from_int (pos q)

  unfoldable pub dequant_q2_k : Row → List Float
  dequant_q2_k row = tabulate 256 λ e.
      let d = from_half (byte row 80) (byte row 81) in
      let dm = from_half (byte row 82) (byte row 83) in
      let sc = mul (code (low_bits 4 (byte row (e / 16)))) d in
      let mn = mul (code (shr (byte row (e / 16)) 4)) dm in
      sub (mul sc (code (low_bits 2 (shr (byte row (16 + e / 4)) (e % 4 * 2))))) mn

  -- the low nibbles of eight scale bytes, and then the high ones
  abbrev pub q3_scale : Row → ℕ → Float
  q3_scale row j =
      if ltb j 8
      then sub (code (low_bits 4 (byte row (96 + j)))) (code 8)
      else sub (code (shr (byte row (96 + (j - 8))) 4)) (code 8)

  unfoldable pub dequant_q3_k : Row → List Float
  dequant_q3_k row = tabulate 256 λ e.
      let d = from_half (byte row 108) (byte row 109) in
      let q_lo = code (low_bits 2 (shr (byte row (32 + e / 4)) (e % 4 * 2))) in
      let q_hi = code (low_bits 1 (shr (byte row (e / 8)) (e % 8))) in
      mul (mul d (q3_scale row (e / 16))) (sub (add q_lo (mul q_hi (code 4))) (code 4))

  unfoldable pub dequant_q4_0 : Row → List Float
  dequant_q4_0 row =
      tabulate 32
        λ e. mul (from_half (byte row 0) (byte row 1)) (sub (code (nibbles row 2 e)) (code 8))

  unfoldable pub dequant_q4_k : Row → List Float
  unfolding legacy_q4k_code
  dequant_q4_k row = tabulate 256 λ e.
      let d = from_half (byte row 0) (byte row 1) in
      let dmin = from_half (byte row 2) (byte row 3) in
      sub (mul (mul d (code (scale_code row (e / 32)))) (code (legacy_q4k_code row e)))
        (mul dmin (code (min_code row (e / 32))))

  unfoldable pub dequant_q6_k : Row → List Float
  dequant_q6_k row = tabulate 256 λ e.
      let d = from_half (byte row 208) (byte row 209) in
      let sc = from_int (int8 (byte row (192 + e / 16))) in
      let q_lo = code (paired_nibble row e) in
      let q_hi = code (low_bits 2 (shr (byte row (128 + e / 4)) (e % 4 * 2))) in
      mul (mul d sc) (sub (add q_lo (mul q_hi (code 16))) (code 32))

  unfoldable pub dequant_q8_0 : Row → List Float
  dequant_q8_0 row =
      tabulate 32
        λ e. mul (from_half (byte row 0) (byte row 1)) (from_int (int8 (byte row (2 + e))))

  -- a decoder of whole blocks, and `values.reshape(shape)`
  abbrev pub legacy_blocks : List ℕ → ℕ → ℕ → ℕ → (Row → List Float) → List ℕ → Result (Tensor F)
  legacy_blocks file offset nb size block shape = do
    a ← dequantize F file offset nb size block
    reshape F a shape value_error

  unfoldable pub load_tensor_by_type : List ℕ → ℕ → ℕ → List ℕ → ℕ → Result (Tensor F)
  load_tensor_by_type file offset n shape type_code =
      if type_code == 0
      then reshape F
          (from_file F file offset n 4
            (λ r. from_single (byte r 0) (byte r 1) (byte r 2) (byte r 3)))
          shape runtime_error
      else if type_code == 1
      then reshape F (from_file F file offset n 2 (λ r. from_half (byte r 0) (byte r 1))) shape
          runtime_error
      else if type_code == 2
      then legacy_blocks file offset (n / 32) 18 dequant_q4_0 shape
      else if type_code == 12
      then legacy_blocks file offset (n / 256) 144 dequant_q4_k shape
      else if type_code == 10
      then legacy_blocks file offset (n / 256) 84 dequant_q2_k shape
      else if type_code == 11
      then legacy_blocks file offset (n / 256) 110 dequant_q3_k shape
      else if type_code == 14
      then legacy_blocks file offset (n / 256) 210 dequant_q6_k shape
      else if type_code == 8
      then (do
        guard (n / 32 * 32 == n) value_error
        legacy_blocks file offset (n / 32) 34 dequant_q8_0 shape)
      else ok (record { shape = shape; items = replicate (product shape) zero })
