-- ===== src/Quant/Load/Packed.antt =====
-- Loading a file that holds packed blocks, from the offset of its tensor on.
use llama_tov.Prelude.{
  ℕ, ◌+◌, ◌*◌, ◌/◌, ◌<◌, ◌≡◌, refl, ap, ◌∙◌, true, List, ◌++◌, arith, ◌==◌, ==_iff, length, take,
  drop, tabulate, rounds, length-rounds_from, take-drop-append, row-rounds_from, rounds_from_cong,
  ok,
}
use llama_tov.Quant.Floats.{FloatOps, Row}
use llama_tov.Quant.Simple.{dq4_0_block}
use llama_tov.Quant.Simple.Packing.{Block, pack_q4_0, value_q4_0, dq4_0-pack}
use llama_tov.Quant.SuperBlock.{dq4k_block, dq6k_block}
use llama_tov.Quant.SuperBlock.Scales.{BlockK, HasCodes, scale_header}
use llama_tov.Quant.SuperBlock.Packing4.{pack_q4k, value_q4k, dq4k-pack}
use llama_tov.Quant.SuperBlock.Packing6.{Block6, pack_q6k, value_q6k, dq6k-pack}
use llama_tov.Quant.Load.{finalize, product, lt, dequantize}

-- a file with the blocks of one tensor behind `before` and in front of `after`
abbrev pub file_of : List ℕ → ℕ → (ℕ → Row) → List ℕ → List ℕ
file_of before nb rows after = before ++ (rounds nb rows ++ after)

module _ (F : FloatOps) where
  open F use {Float}

  -- The decoder meets each packed row once, in order.
  pub dequantize-file_of :
      (before after : List ℕ) (nb bsz : ℕ) (rows : ℕ → Row) (block : Row → List Float)
      (values : ℕ → List Float)
      → ((k : ℕ) → k < nb → length (rows k) ≡ bsz)
      → ((k : ℕ) → k < nb → block (rows k) ≡ values k)
      → dequantize F (file_of before nb rows after) (length before) nb bsz block
        ≡ ok (rounds nb values)
  unfolding dequantize
  dequantize-file_of before after nb bsz rows block values sized decoded =
      let raw = rounds nb rows in
      let len : length raw ≡ nb * bsz =
        length-rounds_from bsz 0 nb rows (λ k lt. sized k (omega arith)) in
      let read : take (nb * bsz) (drop (length before) (before ++ (raw ++ after))) ≡ raw =
        take-drop-append before raw after (length before) (nb * bsz) refl len in
      let whole : (length raw == nb * bsz) ≡ true = (==_iff _ _).1 len in
      rw (read, whole)
        (ap ok (
          rounds_from_cong 0 nb (λ k. block (take bsz (drop (k * bsz) raw))) values
            λ k lt.
              let e : 0 + k ≡ k = omega arith in
              ap block (
                row-rounds_from bsz 0 nb rows k (λ j l. sized j (omega arith)) (omega arith)
                ∙ ap rows e)
              ∙ decoded k (omega arith)))

  -- `lt` on a tensor of type Q4_0 whose blocks stand packed at its offset, each quant below 16, and
  -- whose dimensions multiply to 32 for each block, gives the blocks' values in order, turned to the
  -- tensor's shape.
  pub lt-q4_0 :
      (before after : List ℕ) (nb : ℕ) (blocks : ℕ → Block) (dims : List ℕ) (data_offset ro : ℕ)
      → ((k i : ℕ) → k < nb → i < 32 → (blocks k).quant i < 16)
      → data_offset + ro ≡ length before
      → product dims ≡ nb * 32
      → lt F (file_of before nb (λ k. pack_q4_0 (blocks k)) after) data_offset dims 2 ro
        ≡ finalize F (rounds nb (λ k. tabulate 32 (value_q4_0 F (blocks k)))) dims
  unfolding lt
  lt-q4_0 before after nb blocks dims data_offset ro small off cnt =
      let count : product dims / 32 ≡ nb = omega arith in
      let decoded =
        dequantize-file_of before after nb 18 (λ k. pack_q4_0 (blocks k)) (dq4_0_block F)
          (λ k. tabulate 32 (value_q4_0 F (blocks k))) (λ k lt. unfold pack_q4_0 in refl)
          (λ k lt. dq4_0-pack F (blocks k) (λ i hi. small k i lt hi)) in
      rw (off, count, decoded)

  -- `lt` on a tensor of type Q4_K whose superblocks stand packed at its offset, with 6-bit scales and
  -- mins and each quant below 16, and whose dimensions multiply to 256 for each superblock, gives
  -- the superblocks' values in order, turned to the tensor's shape.
  pub lt-q4k :
      (before after : List ℕ) (nb : ℕ) (blocks : ℕ → BlockK) (dims : List ℕ) (data_offset ro : ℕ)
      → ((k : ℕ) → k < nb → HasCodes (blocks k))
      → ((k i : ℕ) → k < nb → i < 256 → (blocks k).quant i < 16)
      → data_offset + ro ≡ length before
      → product dims ≡ nb * 256
      → lt F (file_of before nb (λ k. pack_q4k (blocks k)) after) data_offset dims 12 ro
        ≡ finalize F (rounds nb (λ k. tabulate 256 (value_q4k F (blocks k)))) dims
  unfolding lt
  lt-q4k before after nb blocks dims data_offset ro codes small off cnt =
      let count : product dims / 256 ≡ nb = omega arith in
      let decoded =
        dequantize-file_of before after nb 144 (λ k. pack_q4k (blocks k)) (dq4k_block F)
          (λ k. tabulate 256 (value_q4k F (blocks k)))
          (λ k lt. unfold pack_q4k scale_header in refl)
          (λ k lt. dq4k-pack F (blocks k) (codes k lt) (λ i hi. small k i lt hi)) in
      rw (off, count, decoded)

  -- `lt` on a tensor of type Q6_K whose superblocks stand packed at its offset, each quant below 64,
  -- and whose dimensions multiply to 256 for each superblock, gives the superblocks' values in
  -- order, turned to the tensor's shape.
  pub lt-q6k :
      (before after : List ℕ) (nb : ℕ) (blocks : ℕ → Block6) (dims : List ℕ) (data_offset ro : ℕ)
      → ((k i : ℕ) → k < nb → i < 256 → (blocks k).quant i < 64)
      → data_offset + ro ≡ length before
      → product dims ≡ nb * 256
      → lt F (file_of before nb (λ k. pack_q6k (blocks k)) after) data_offset dims 14 ro
        ≡ finalize F (rounds nb (λ k. tabulate 256 (value_q6k F (blocks k)))) dims
  unfolding lt
  lt-q6k before after nb blocks dims data_offset ro small off cnt =
      let count : product dims / 256 ≡ nb = omega arith in
      let decoded =
        dequantize-file_of before after nb 210 (λ k. pack_q6k (blocks k)) (dq6k_block F)
          (λ k. tabulate 256 (value_q6k F (blocks k))) (λ k lt. unfold pack_q6k in refl)
          (λ k lt. dq6k-pack F (blocks k) (λ i hi. small k i lt hi)) in
      rw (off, count, decoded)
