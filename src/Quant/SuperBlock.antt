-- ===== src/Quant/SuperBlock.antt =====
-- The superblocks of 256 elements: `dq2k`, `dq3k`, `dq4k`, `dq5k` and `dq6k` of bpd/llamatov_run.py. A
-- decoder makes the elements of one block in order; the slice that a loop writes is appended.
pub mod Packing2
pub mod Packing4
pub mod Packing5
pub mod Scales
pub mod Packing6
use llama_tov.Prelude.{
  ℕ, ◌+◌, ◌-◌, ◌*◌, ◌/◌, ◌%◌, ◌^◌, bit_or, bit_and, List, [], ◌∷◌, ◌++◌, ltb, ◌==◌, if◌then◌else◌,
  tabulate, rounds, low_bits, shr, shl,
}
use llama_tov.Prelude.Int.{pos, sub_ℕ}
use llama_tov.Quant.Floats.{FloatOps, Row, byte, int8}

-- The 6-bit codes of Q4_K and Q5_K: 8 scales and 8 mins in 12 bytes from byte 4 on.
abbrev pub scale_code : Row → ℕ → ℕ
scale_code row j =
    if ltb j 4
    then low_bits 6 (byte row (4 + j))
    else bit_or (low_bits 4 (byte row (12 + (j - 4)))) (shl (shr (byte row (4 + (j - 4))) 6) 4)

abbrev pub min_code : Row → ℕ → ℕ
min_code row j =
    if ltb j 4
    then low_bits 6 (byte row (8 + j))
    else bit_or (shr (byte row (12 + (j - 4))) 4) (shl (shr (byte row (8 + (j - 4))) 6) 4)

-- `qv[:, g, :32]` are the low nibbles of the group's 32 bytes, `qv[:, g, 32:]` the high ones
abbrev pub q4k_code : Row → ℕ → ℕ → ℕ
q4k_code row g l =
    if ltb l 32
    then low_bits 4 (byte row (16 + (g * 32 + l)))
    else shr (byte row (16 + (g * 32 + (l - 32)))) 4

-- `np.where((qh & mask) != 0, 16, 0)`
abbrev pub fifth : ℕ → ℕ → ℕ
fifth qh mask = if bit_and qh mask == 0 then 0 else 16

-- four bytes as a little-endian uint32
abbrev q3k_raw : Row → ℕ → ℕ
q3k_raw row at =
    bit_or (bit_or (bit_or (byte row at) (shl (byte row (at + 1)) 8)) (shl (byte row (at + 2)) 16))
      (shl (byte row (at + 3)) 24)

-- one of the four words that `dq3k` joins from the three words of 6-bit scales
abbrev q3k_word : Row → ℕ → ℕ
q3k_word row w =
    let a0 = q3k_raw row 96 in
    let a1 = q3k_raw row 100 in
    let a2 = q3k_raw row 104 in
    let kmask1 : ℕ = 0x03030303 in
    let kmask2 : ℕ = 0x0f0f0f0f in
    if w == 0
    then bit_or (bit_and a0 kmask2) (shl (bit_and (shr a2 0) kmask1) 4)
    else if w == 1
    then bit_or (bit_and a1 kmask2) (shl (bit_and (shr a2 2) kmask1) 4)
    else if w == 2
    then bit_or (bit_and (shr a0 4) kmask2) (shl (bit_and (shr a2 4) kmask1) 4)
    else bit_or (bit_and (shr a1 4) kmask2) (shl (bit_and (shr a2 6) kmask1) 4)

module _ (F : FloatOps) where
  open F use {Float, from_half, from_int, mul, sub}

  abbrev from_code : ℕ → Float
  from_code q = from_int (pos q)

  -- one pass of the loop body of `dq2k`: 16 outputs with scale and min `is_idx`
  abbrev pub dq2k_batch : Row → ℕ → ℕ → ℕ → List Float
  dq2k_batch row at shift is_idx =
      let d = from_half (byte row 80) (byte row 81) in
      let dm = from_half (byte row 82) (byte row 83) in
      let sc = mul (from_code (low_bits 4 (byte row is_idx))) d in
      let mn = mul (from_code (shr (byte row is_idx) 4)) dm in
      tabulate 16 (λ l. sub (mul sc (from_code (low_bits 2 (shr (byte row (at + l)) shift)))) mn)

  -- `for shift in ...`: `is_idx` advances twice
  pub dq2k_shifts : Row → ℕ → List ℕ → ℕ → List Float
  dq2k_shifts row at [] is_idx = []
  dq2k_shifts row at (shift ∷ shifts) is_idx =
      dq2k_batch row at shift is_idx
      ++ (dq2k_batch row (at + 16) shift (is_idx + 1) ++ dq2k_shifts row at shifts (is_idx + 2))

  unfoldable pub dq2k_block : Row → List Float
  unfolding dq2k_shifts
  dq2k_block row =
      rounds 2 (λ chunk. dq2k_shifts row (16 + chunk * 32) (0 ∷ 2 ∷ 4 ∷ 6 ∷ []) (chunk * 8))

  -- `scales *= d` and `mins *= dm`
  abbrev pub k_scale : Row → ℕ → Float
  k_scale row j = mul (from_code (scale_code row j)) (from_half (byte row 0) (byte row 1))

  abbrev pub k_min : Row → ℕ → Float
  k_min row j = mul (from_code (min_code row j)) (from_half (byte row 2) (byte row 3))

  unfoldable pub dq4k_lane : Row → ℕ → Float
  dq4k_lane row i =
      sub (mul (from_code (q4k_code row (i / 64) (i % 64))) (k_scale row (i / 32)))
        (k_min row (i / 32))

  unfoldable pub dq4k_block : Row → List Float
  unfolding dq4k_lane
  dq4k_block row = tabulate 256 (dq4k_lane row)

  -- one round of the loop of `dq5k`
  unfoldable pub dq5k_group : Row → ℕ → List Float
  dq5k_group row g =
      tabulate 32 (λ l.
        let lo5 =
          low_bits 4 (byte row (48 + (g * 32 + l))) + fifth (byte row (16 + l)) (2 ^ (2 * g)) in
        sub (mul (k_scale row (2 * g)) (from_code lo5)) (k_min row (2 * g)))
      ++ tabulate 32 (λ l.
        let hi5 =
          shr (byte row (48 + (g * 32 + l))) 4 + fifth (byte row (16 + l)) (2 ^ (2 * g + 1)) in
        sub (mul (k_scale row (2 * g + 1)) (from_code hi5)) (k_min row (2 * g + 1)))

  unfoldable pub dq5k_block : Row → List Float
  unfolding dq5k_group
  dq5k_block row = rounds 4 (dq5k_group row)

  -- `quants[...] = q * s`, then `quants *= d`
  abbrev pub q6k_value : Row → ℕ → ℕ → Float
  q6k_value row q sc_idx =
      mul (mul (from_int (sub_ℕ q 32)) (from_int (int8 (byte row (192 + sc_idx)))))
        (from_half (byte row 208) (byte row 209))

  -- one round of the loop of `dq6k`: q1 to q4, each with its scales
  unfoldable pub dq6k_half : Row → ℕ → List Float
  dq6k_half row n =
      let near = λ (l : ℕ). byte row (n * 64 + l) in
      let far = λ (l : ℕ). byte row (n * 64 + 32 + l) in
      let qh = λ (l : ℕ). byte row (128 + (n * 32 + l)) in
      tabulate 32 (λ l.
        q6k_value row (bit_or (low_bits 4 (near l)) (shl (low_bits 2 (shr (qh l) 0)) 4))
          (n * 8 + l / 16))
      ++ (tabulate 32 (λ l.
            q6k_value row (bit_or (low_bits 4 (far l)) (shl (low_bits 2 (shr (qh l) 2)) 4))
              (n * 8 + (l / 16 + 2)))
          ++ (tabulate 32 (λ l.
                q6k_value row (bit_or (shr (near l) 4) (shl (low_bits 2 (shr (qh l) 4)) 4))
                  (n * 8 + (l / 16 + 4)))
              ++ tabulate 32 (λ l.
                q6k_value row (bit_or (shr (far l) 4) (shl (low_bits 2 (shr (qh l) 6)) 4))
                  (n * 8 + (l / 16 + 6)))))

  unfoldable pub dq6k_block : Row → List Float
  unfolding dq6k_half
  dq6k_block row = rounds 2 (dq6k_half row)

  -- `sc_packed.view(np.int8).astype(np.float32) - 32`
  abbrev pub q3k_scale : Row → ℕ → Float
  q3k_scale row k =
      sub (from_int (int8 (low_bits 8 (shr (q3k_word row (k / 4)) (8 * (k % 4)))))) (from_code 32)

  -- 16 outputs: the quants from byte `at` on, their high bits from byte `mask_at` on
  abbrev pub dq3k_batch : Row → ℕ → ℕ → ℕ → ℕ → ℕ → List Float
  dq3k_batch row at mask_at shift m_bit is_idx =
      let dl = mul (from_half (byte row 108) (byte row 109)) (q3k_scale row is_idx) in
      tabulate 16 λ l.
        let q_val = low_bits 2 (shr (byte row (at + l)) shift) in
        mul dl
          (from_int (sub_ℕ q_val (if bit_and (byte row (mask_at + l)) m_bit == 0 then 4 else 0)))

  unfoldable pub dq3k_block : Row → List Float
  dq3k_block row = rounds 2 λ chunk. rounds 4 λ shift_idx.
      let m_bit = 2 ^ (chunk * 4 + shift_idx) in
      let is_idx = chunk * 8 + shift_idx * 2 in
      dq3k_batch row (32 + chunk * 32) 0 (shift_idx * 2) m_bit is_idx
      ++ dq3k_batch row (32 + chunk * 32 + 16) 16 (shift_idx * 2) m_bit (is_idx + 1)
