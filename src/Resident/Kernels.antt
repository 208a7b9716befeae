-- ===== src/Resident/Kernels.antt =====
-- What the device-resident forward pass of bpd/lib/dev_residency.py takes from elsewhere: the float
-- arithmetic of the device, the kernels that are emitted from Prolog facts, and the host's own norm and
-- matrix product. A matrix is the list of its columns, one for each output of `x @ W`.
use llama_tov.Prelude.{ℕ, Bool, List}

-- the modes of the plain product kernel `k_q8_0_gemv`
pub data Gemv : Type 0 where
  dp4a : Gemv
  tiled tiled_v4 : ℕ → Gemv

-- those of the product kernels that quantize the activation themselves
pub data QuantGemv : Type 0 where
  prologue_quant : QuantGemv
  tiled_v4_qfused : ℕ → QuantGemv

-- those of `k_q8_0_gemv_addres`
pub data AddresGemv : Type 0 where
  epilogue_add_residual : AddresGemv
  tiled_v4_addres : ℕ → AddresGemv

pub record Kernels : Type 1 where
  pub Num : Type 0
  -- a signed byte
  pub Code : Type 0
  pub zero_num : Num
  pub one : Num
  -- `n ** -0.5`
  pub inv_sqrt : ℕ → Num
  pub top_code : Num
  pub neg_big : Num
  pub add : Num → Num → Num
  pub sub : Num → Num → Num
  pub mul : Num → Num → Num
  pub div : Num → Num → Num
  pub neg : Num → Num
  pub fabs : Num → Num
  pub fmax : Num → Num → Num
  pub gt : Num → Num → Bool
  pub exp : Num → Num
  pub fast_exp : Num → Num
  -- `__half2float(__float2half(x))`
  pub half : Num → Num
  -- the byte of `rintf(x)`, clamped to -127 and 127, and a byte as a float
  pub code : Num → Code
  pub uncode : Code → Num
  -- one output of a product: the quantized activation, in blocks of codes and a scale, and a column
  pub gemv : Gemv → List (List Code × Num) → List Num → Num
  pub gemv_addres : AddresGemv → List (List Code × Num) → List Num → Num → Num
  pub gemv_quant : QuantGemv → List Num → List Num → Num
  -- `k_rmsnorm` in mode block_row or canonical_serial: eps, the row and the weight
  pub rmsnorm : Bool → Num → List Num → List Num → List Num
  pub rms_quant : Num → List Num → List Num → List (List Code × Num)
  -- `k_rope` of one head of `hd` floats at a position: theta, hd, position
  pub rope : Num → ℕ → ℕ → List Num → List Num
  -- `fd.rms_norm_fact` and `x @ lm` on the host
  pub host_rms : Num → List Num → List Num → List Num
  pub host_matmul : List Num → List (List Num) → List Num
