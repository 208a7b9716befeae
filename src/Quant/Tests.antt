-- ===== src/Quant/Tests.antt =====
-- Runs of the decoders, and the theorems at concrete blocks, with integers in place of floats.
use llama_tov.Prelude.{
  ℕ, ◌+◌, ◌-◌, ◌*◌, ◌%◌, ◌≡◌, refl, List, [], ◌∷◌, ◌++◌, arith, get_or, take, tabulate, rounds,
  value_error, ok, err,
}
use llama_tov.Prelude.Int.{ℤ, pos, ◌+ℤ◌, ◌*ℤ◌, ◌-ℤ◌}
use llama_tov.Quant.Floats.{FloatOps}
use llama_tov.Quant.Simple.{dq4_0_block}
use llama_tov.Quant.Simple.Packing.{Block, pack_q4_0, value_q4_0}
use llama_tov.Quant.SuperBlock.{dq2k_block, dq5k_block, dq3k_block, q4k_code, scale_code, min_code}
use llama_tov.Quant.SuperBlock.Scales.{BlockK, HasCodes}
use llama_tov.Quant.SuperBlock.Packing2.{Block2, FitsBlock2, pack_q2k, value_q2k, dq2k-pack}
use llama_tov.Quant.SuperBlock.Packing4.{pack_q4k, value_q4k}
use llama_tov.Quant.SuperBlock.Packing6.{Block6, pack_q6k, value_q6k}
use llama_tov.Quant.Legacy.{dequant_q4_k}
use llama_tov.Quant.LegacyAgree.{dequant_q4_k_lem, old_turned, load-load_tensor_by_type}
use llama_tov.Quant.Load.{
  f32, f16, q4_0, q8_0, load, orient2, orient3, finalize, finalize_2d_only, lt,
}
use llama_tov.Quant.Load.Orient.{lt-q8_0_no_matrix}
use llama_tov.Quant.Load.Packed.{file_of, lt-q4k, lt-q6k, lt-q4_0}
use llama_tov.Quant.SuperBlock.Packing5.{pack_q5k, value_q5k, dq5k-pack}

abbrev ints : FloatOps
ints = record {
  Float = ℤ;
  from_half = λ lo hi. pos (lo + hi * 256);
  from_int = λ z. z;
  mul = λ a b. a *ℤ b;
  sub = λ a b. a -ℤ b;
  add = λ a b. a +ℤ b;
  zero = pos 0;
  from_single = λ a b c d. pos (a + b * 256);
}

abbrev block : ℕ → Block
block k = record { scale_lo = 2; scale_hi = 0; quant = λ i. (i + k) % 16 }

abbrev wide_block : Block
wide_block = record { scale_lo = 2; scale_hi = 0; quant = λ i. i }

abbrev superblock : ℕ → BlockK
superblock k = record {
  d_lo = 3;
  d_hi = 0;
  dmin_lo = 1;
  dmin_hi = 0;
  scale = λ j. 7 * j + k % 2;
  min = λ j. 60 - j;
  quant = λ i. i % 16;
}

superblock_codes : (k : ℕ) → HasCodes (superblock k)
superblock_codes k = record { scales_fit = λ j h. omega arith; mins_fit = λ j h. omega arith }

abbrev two_bit_block : Block2
two_bit_block = record {
  d_lo = 3;
  d_hi = 0;
  dmin_lo = 1;
  dmin_hi = 0;
  scale = λ j. j % 16;
  min = λ j. 15 - j % 16;
  quant = λ i. i % 4;
}

two_bit_block_fits : FitsBlock2 two_bit_block
two_bit_block_fits = record {
  scales_fit = λ j h. omega arith;
  mins_fit = λ j h. omega arith;
  quants_fit = λ j h. omega arith;
}

abbrev six_bit_block : ℕ → Block6
six_bit_block k = record {
  scale_lo = 1;
  scale_hi = 0;
  scale = λ j. 255 - j;
  quant = λ i. (i + k) % 64;
}

dq2k-pack_example :
    dq2k_block ints (pack_q2k two_bit_block) ≡ tabulate 256 (value_q2k ints two_bit_block)
dq2k-pack_example = dq2k-pack ints two_bit_block two_bit_block_fits

dq5k-pack_example :
    dq5k_block ints (pack_q5k (superblock 0)) ≡ tabulate 256 (value_q5k ints (superblock 0))
dq5k-pack_example = dq5k-pack ints (superblock 0) (superblock_codes 0) (λ i h. omega arith)

lt-q4_0_example :
    lt ints (file_of (9 ∷ 9 ∷ []) 2 (λ k. pack_q4_0 (block k)) (7 ∷ [])) 1 (32 ∷ 2 ∷ []) 2 1
    ≡ finalize ints (rounds 2 (λ k. tabulate 32 (value_q4_0 ints (block k)))) (32 ∷ 2 ∷ [])
lt-q4_0_example =
    lt-q4_0 ints (9 ∷ 9 ∷ []) (7 ∷ []) 2 block (32 ∷ 2 ∷ []) 1 1 (λ k i hk hi. omega arith)
      (omega arith) (omega arith)

lt-q4k_example :
    lt ints (file_of (9 ∷ 9 ∷ []) 2 (λ k. pack_q4k (superblock k)) (7 ∷ [])) 1 (256 ∷ 2 ∷ []) 12 1
    ≡ finalize ints (rounds 2 (λ k. tabulate 256 (value_q4k ints (superblock k)))) (256 ∷ 2 ∷ [])
lt-q4k_example =
    lt-q4k ints (9 ∷ 9 ∷ []) (7 ∷ []) 2 superblock (256 ∷ 2 ∷ []) 1 1 (λ k hk. superblock_codes k)
      (λ k i hk hi. omega arith) (omega arith) (omega arith)

lt-q6k_example :
    lt ints
      (file_of (9 ∷ 9 ∷ []) 2 (λ k. pack_q6k (six_bit_block k)) (7 ∷ []))
      1
      (256 ∷ 2 ∷ [])
      14
      1
    ≡ finalize ints (rounds 2 (λ k. tabulate 256 (value_q6k ints (six_bit_block k)))) (256 ∷ 2 ∷ [])
lt-q6k_example =
    lt-q6k ints (9 ∷ 9 ∷ []) (7 ∷ []) 2 six_bit_block (256 ∷ 2 ∷ []) 1 1 (λ k i hk hi. omega arith)
      (omega arith) (omega arith)

abbrev six : List ℤ
six = tabulate 6 (λ i. pos i)

abbrev eight : List ℤ
eight = tabulate 8 (λ i. pos i)

six_turned :
    finalize ints six (2 ∷ 3 ∷ [])
    ≡ ok (record { shape = 2 ∷ 3 ∷ []; items = orient2 ints 2 3 six })
unfolding finalize
six_turned = refl

eight_turned :
    finalize ints eight (2 ∷ 2 ∷ 2 ∷ [])
    ≡ ok (record { shape = 2 ∷ 2 ∷ 2 ∷ []; items = orient3 ints 2 2 2 eight })
unfolding finalize
eight_turned = refl

left_eight :
    finalize_2d_only ints eight (2 ∷ 2 ∷ 2 ∷ [])
    ≡ ok (record { shape = 2 ∷ 2 ∷ 2 ∷ []; items = eight })
unfolding finalize_2d_only
left_eight = refl

lt-q8_0_no_matrix_example : lt ints (tabulate 34 (λ i. i)) 0 (32 ∷ []) 8 0 ≡ err value_error
lt-q8_0_no_matrix_example =
    lt-q8_0_no_matrix ints (tabulate 34 (λ i. i)) 0 0 (32 ∷ []) (omega arith)

-- The 6-bit scales of Q3_K: each of the 16 bytes of the joined words is a code of its own.
q3k_scales_one :
    get_or
      (dq3k_block ints
        (tabulate 96 (λ i. 0) ++ (tabulate 12 (λ i. 33 * (i + 1) % 256) ++ 1 ∷ 0 ∷ [])))
      0
      (pos 0)
    ≡ pos 60
unfolding dq3k_block ◌*ℤ◌ ◌-ℤ◌
q3k_scales_one = refl

-- the unpacked values of one block, by evaluation
first_values :
    take 3 (dq4_0_block ints (pack_q4_0 (block 0)))
    ≡ (pos 0 -ℤ pos 16) ∷ (pos 0 -ℤ pos 14) ∷ (pos 0 -ℤ pos 12) ∷ []
unfolding dq4_0_block pack_q4_0 ◌*ℤ◌ ◌-ℤ◌
first_values = refl

dequant_q4_k_lem_example :
    let row = tabulate 144 (λ i. i) in
    get_or (dequant_q4_k ints row) 200 ints.zero
    ≡ ints.sub
        (ints.mul
          (ints.mul (ints.from_half 0 1) (ints.from_int (pos (scale_code row 6))))
          (ints.from_int (pos (q4k_code row 2 40))))
        (ints.mul (ints.from_half 2 3) (ints.from_int (pos (min_code row 6))))
dequant_q4_k_lem_example = dequant_q4_k_lem ints (tabulate 144 (λ i. i)) 200 (omega arith)

abbrev small_file : List ℕ
small_file = tabulate 128 (λ i. i)

load-load_tensor_by_type_example :
    (load ints f32 small_file 0 32 (4 ∷ 8 ∷ []) ≡ old_turned ints small_file 0 32 4 8 0)
    × (load ints f16 small_file 0 32 (4 ∷ 8 ∷ []) ≡ old_turned ints small_file 0 32 4 8 1)
    × (load ints q4_0 small_file 0 32 (4 ∷ 8 ∷ []) ≡ old_turned ints small_file 0 32 4 8 2)
    × (old_turned ints small_file 0 32 4 8 8 ≡ load ints q8_0 small_file 0 32 (4 ∷ 8 ∷ []))
load-load_tensor_by_type_example = load-load_tensor_by_type ints small_file 0 32 4 8
