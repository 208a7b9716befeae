-- ===== src/Resident/Quantize.antt =====
-- The quantization kernels that bpd/lib/dev_residency.py holds as text: `k_quant_q8` with one thread for
-- a block of 32 floats and with a warp for it, `k_silu_mul`, `k_silu_mul_quant`, and `k_kvq8_quant` with
-- `k_kvq8_dequant`.
use llama_tov.Prelude.{
  ℕ, ◌+◌, ◌-◌, ◌*◌, ◌/◌, ◌%◌, Bool, true, false, List, [], ◌∷◌, map, ltb, ◌==◌, if◌then◌else◌,
  length, get_or, take, drop, tabulate, rounds,
}
use llama_tov.Resident.Kernels.{Kernels}

module _ (K : Kernels) where
  open K use {
    Num, Code, zero_num, one, top_code, add, mul, div, neg, fabs, fmax, gt, exp, half, code, uncode,
  }

  abbrev pub Floats : Type 0
  Floats = List Num

  -- a quantized activation: for each block its codes and its scale
  abbrev pub Acts : Type 0
  Acts = List (List Code × Num)

  -- `_elementwise2`, on as many floats as both have
  abbrev pub elementwise2 : (Num → Num → Num) → Floats → Floats → Floats
  elementwise2 f (a ∷ as_) (b ∷ bs) = f a b ∷ elementwise2 f as_ bs
  elementwise2 f _ _ = []

  -- `if (a > amax) amax = a`
  abbrev pub keep_greater : Num → Num → Num
  keep_greater amax a = if gt a amax then a else amax

  -- the loop over the block, in one thread
  abbrev pub amax_serial : Num → Floats → Num
  amax_serial amax [] = amax
  amax_serial amax (x ∷ xs) = amax_serial (keep_greater amax (fabs x)) xs

  -- `__shfl_down_sync(…, s)` of lane `l` reads lane `l + s`, or its own beyond the warp
  abbrev pub shuffle_down : ℕ → (ℕ → Num) → ℕ → Num
  shuffle_down s a l = if ltb (l + s) 32 then a (l + s) else a l

  -- one round of the warp's reduction, and the rounds for `s` = 16, 8, 4, 2, 1
  abbrev pub reduce_down : ℕ → (ℕ → Num) → ℕ → Num
  reduce_down s a l = keep_greater (a l) (shuffle_down s a l)

  abbrev pub amax_warp : (ℕ → Num) → Num
  amax_warp a = reduce_down 1 (reduce_down 2 (reduce_down 4 (reduce_down 8 (reduce_down 16 a)))) 0

  -- `__shfl_xor_sync(…, o)` of the kernel for keys and values
  abbrev pub flip : ℕ → ℕ → ℕ
  flip o l = if l / o % 2 == 0 then l + o else l - o

  abbrev pub reduce_xor : ℕ → (ℕ → Num) → ℕ → Num
  reduce_xor o a l = fmax (a l) (a (flip o l))

  abbrev pub amax_xor : (ℕ → Num) → Num
  amax_xor a = reduce_xor 1 (reduce_xor 2 (reduce_xor 4 (reduce_xor 8 (reduce_xor 16 a)))) 0

  -- the scale of a block, through FP16, and its codes
  abbrev pub scale_of : Num → Num
  scale_of amax = half (if gt amax zero_num then div amax top_code else one)

  abbrev pub codes : Num → Floats → List Code × Num
  codes amax xs = (map (λ v. code (div v (scale_of amax))) xs, scale_of amax)

  abbrev pub lane : Floats → ℕ → Num
  lane xs l = fabs (get_or xs l zero_num)

  -- the block `b` of a row
  abbrev pub block : Floats → ℕ → Floats
  block xs b = take 32 (drop (b * 32) xs)

  -- `k_quant_q8`: a block in one thread, or in a warp
  abbrev pub quant_block : Bool → Floats → List Code × Num
  quant_block false xs = codes (amax_serial zero_num xs) xs
  quant_block true xs = codes (amax_warp (lane xs)) xs

  -- `_launch_quant`
  unfoldable pub launch_quant : Bool → Floats → Acts
  launch_quant par x = tabulate (length x / 32) (λ b. quant_block par (block x b))

  -- `k_silu_mul`
  abbrev pub silu_mul : Num → Num → Num
  silu_mul g u = mul (div g (add one (exp (neg g)))) u

  -- `_launch_silu_quant`: the warp's lanes compute the products
  unfoldable pub launch_silu_quant : Floats → Floats → Acts
  launch_silu_quant g u =
      tabulate (length g / 32)
        λ b. let v = elementwise2 silu_mul (block g b) (block u b) in codes (amax_warp (lane v)) v

  -- `k_kvq8_dequant` of a block
  abbrev pub dequant : List Code × Num → Floats
  dequant (qs, d) = map (λ q. mul (uncode q) d) qs

  -- `kv_quantize_q8_inplace`: a row of another length is left alone
  unfoldable pub kv_quantize_q8 : Floats → Floats
  kv_quantize_q8 x =
      if length x % 32 == 0
      then rounds (length x / 32) (λ b. dequant (codes (amax_xor (lane (block x b))) (block x b)))
      else x
