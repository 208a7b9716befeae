-- ===== src/Resident/Linear.antt =====
-- The products of bpd/lib/dev_residency.py, `q8_linear_dev`, `q8_linear_add_residual_dev` and
-- `q8_linear_dev_bias`, and its norm. Shapes that do not agree, with which a kernel reads past a buffer,
-- are not modelled.
use llama_tov.Prelude.{◌&&◌, Option, none, some, List, [], ◌∷◌, map, if◌then◌else◌}
use llama_tov.Resident.Kernels.{
  AddresGemv, epilogue_add_residual, tiled_v4_addres, prologue_quant, tiled_v4_qfused, Kernels,
}
use llama_tov.Resident.Settings.{Settings, gemv_mode}
use llama_tov.Resident.Quantize.{Floats, Acts, elementwise2, launch_quant, launch_silu_quant}

module _ (K : Kernels) where
  open K use {Num, add, gemv, gemv_addres, gemv_quant, rmsnorm, rms_quant}

  -- the columns of a weight
  abbrev pub Matrix : Type 0
  Matrix = List (Floats K)

  -- the raw residual, the norm's weight on the device and eps
  abbrev pub RmsSource : Type 0
  RmsSource = Floats K × Floats K × Num

  module _ (s : Settings) where
    -- the quantized input of a product, with the norm folded in where it is asked for
    abbrev pub quant_input : Floats K → Option RmsSource → Acts K
    quant_input x none = launch_quant K s.quant_par x
    quant_input x (some (raw, weight, eps)) =
        if s.rms_quant_fused then rms_quant eps raw weight else launch_quant K s.quant_par x

    -- `q8_linear_dev`
    unfoldable pub q8_linear_dev : Floats K → Matrix → Option RmsSource → Floats K
    q8_linear_dev x w rms_src =
        if s.qfused
        then map (gemv_quant prologue_quant x) w
        else if s.gemv_tiled && (s.gemv_tiled_v4 && s.gemv_tiled_v4_qfused)
        then map (gemv_quant (tiled_v4_qfused s.gemv_tiled_bm) x) w
        else map (gemv (gemv_mode s) (quant_input x rms_src)) w

    -- the input of the product with the residual, with silu and product folded in
    abbrev pub silu_input : Floats K → Option (Floats K × Floats K) → Acts K
    silu_input x none = launch_quant K s.quant_par x
    silu_input x (some (g, u)) = launch_silu_quant K g u

    abbrev pub addres_mode : AddresGemv
    addres_mode = if s.gemv_tiled then tiled_v4_addres s.gemv_tiled_bm else epilogue_add_residual

    -- `k_q8_0_gemv_addres` on all columns
    abbrev pub addres_columns : AddresGemv → Acts K → Matrix → Floats K → Floats K
    addres_columns mode q (c ∷ cs) (r ∷ rs) = gemv_addres mode q c r ∷ addres_columns mode q cs rs
    addres_columns mode q _ _ = []

    -- `add_dev`
    abbrev pub add_dev : Floats K → Floats K → Floats K
    add_dev a b = elementwise2 K add a b

    -- `q8_linear_add_residual_dev`, wherever its result is stored
    unfoldable pub q8_linear_add_residual_dev :
        Floats K → Matrix → Floats K → Option (Floats K × Floats K) → Floats K
    q8_linear_add_residual_dev x w resid silu_src =
        if s.addres_fused
        then addres_columns addres_mode (silu_input x silu_src) w resid
        else add_dev resid (q8_linear_dev x w none)

    -- `held` is what the device holds at the pointer that `_dev_const` gives for an array
    module _ (held : Floats K → Floats K) where
      -- `q8_linear_dev_bias`
      unfoldable pub q8_linear_dev_bias : Floats K → Matrix → Option (Floats K) → Floats K
      q8_linear_dev_bias x w none = q8_linear_dev x w none
      q8_linear_dev_bias x w (some bias) =
          if s.bias_fold && s.addres_fused
          then q8_linear_add_residual_dev x w (held bias) none
          else add_dev (q8_linear_dev x w none) (held bias)

      -- `rms_norm_dev`
      abbrev pub rms_norm_dev : Floats K → Floats K → Num → Floats K
      rms_norm_dev x weight eps = rmsnorm s.rms_blockrow eps x (held weight)
