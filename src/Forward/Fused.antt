-- ===== src/Forward/Fused.antt =====
-- The layers with fused or biased projections: `phi3_layer`, `gpt2_layer` and `qwen2_layer` of
-- bpd/llamatov_run.py, and `LAYER_FN`.
use llama_tov.Prelude.{
  ℕ, ◌+◌, ◌*◌, ◌/◌, Option, none, some, List, map, length, take, drop, Result, ◌>>=◌, ok,
}
use llama_tov.Forward.Torch.{TorchOps}
use llama_tov.Forward.Rows.{Row, rms_norm, apply_rope, attend}
use llama_tov.Forward.Weights.{
  attn_norm_weight, attn_norm_bias, attn_q_bias, attn_k_bias, attn_v_bias, attn_qkv_bias,
  attn_output_bias, ffn_norm_weight, ffn_norm_bias, ffn_up_bias, ffn_down_bias, attn_q_weight,
  attn_k_weight, attn_v_weight, attn_qkv_weight, attn_output_weight, ffn_gate_weight, ffn_up_weight,
  ffn_down_weight, Arch, llama, gpt2, qwen2, starcoder2, gemma, gemma2, phi3, other_arch, need,
  Weights, Config, head_size,
}
use llama_tov.Forward.Layers.{
  Layer, plus, times, scaled_dot, gated_ffn, llama_fns, gemma_fns, gemma2_fns,
}

module _ (T : TorchOps) where
  open T use {Num, from_nat, add, mul, pow, silu, gelu, minus_half, layer_norm, matmul, dot}

  -- the projections of `phi3_layer`: three matrices, or one whose product is split
  pub data Qkv : Type 0 where
    separate : List (Row T) → List (Row T) → List (Row T) → Qkv
    fused : List (Row T) → Qkv

  -- query, key and value before RoPE, where a query has `a` entries and a key `b`
  abbrev pub split_qkv : ℕ → ℕ → Qkv → Row T → Row T × Row T × Row T
  split_qkv a b (separate wq wk wv) h = (matmul h wq, matmul h wk, matmul h wv)
  split_qkv a b (fused wqkv) h =
      let qkv = matmul h wqkv in (take a qkv, take b (drop a qkv), take b (drop (a + b) qkv))

  -- x + w.get(bias, 0)
  abbrev pub bias_or_zero : Option (Row T) → Row T → Row T
  bias_or_zero (some b) x = plus T x b
  bias_or_zero none x = map (λ v. add v (from_nat 0)) x

  module _ (w : Weights T) (il : ℕ) (cfg : Config T) where
    -- `if f'{p}.attn_q.weight' in w`
    abbrev pub phi3_qkv : Result (Qkv)
    phi3_qkv = elim (w.mat il attn_q_weight) [
      | some wq ↦ (do
        wk ← need (w.mat il attn_k_weight)
        wv ← need (w.mat il attn_v_weight)
        ok (separate wq wk wv))
      | none ↦ (do wqkv ← need (w.mat il attn_qkv_weight); ok (fused wqkv))
    ]

    -- gate and up in one matrix, of which the first half is the gate
    abbrev pub phi3_ffn : Row T → List (Row T) → List (Row T) → Row T → Row T
    phi3_ffn norm up down x =
        let fused_up = matmul (rms_norm T x norm cfg.norm_eps) up in
        let n_ff = length fused_up / 2 in
        matmul (times T (map silu (take n_ff fused_up)) (drop n_ff fused_up)) down

    unfoldable pub phi3_fns : Result (Layer T)
    phi3_fns = do
      norm ← need (w.vec il attn_norm_weight)
      proj ← phi3_qkv
      wo ← need (w.mat il attn_output_weight)
      norm2 ← need (w.vec il ffn_norm_weight)
      up ← need (w.mat il ffn_up_weight)
      down ← need (w.mat il ffn_down_weight)
      let hd = head_size T cfg
      ok (record {
        project = λ p x.
            let qkv =
              split_qkv (cfg.n_head * hd) (cfg.n_head_kv * hd) proj
                (rms_norm T x norm cfg.norm_eps) in
            (
              map (λ v. mul v (pow (from_nat hd) minus_half))
                  (apply_rope T cfg.rope_theta hd p qkv.0),
              apply_rope T cfg.rope_theta hd p qkv.1,
              qkv.2,
            );
        attention = attend T dot cfg.n_head cfg.n_head_kv hd;
        finish = λ x y. let x' = plus T x (matmul y wo) in plus T x' (phi3_ffn norm2 up down x');
      })

    -- LayerNorm, one matrix for query, key and value, and no RoPE
    unfoldable pub gpt2_fns : Result (Layer T)
    gpt2_fns = do
      norm ← need (w.vec il attn_norm_weight)
      norm_b ← need (w.vec il attn_norm_bias)
      wqkv ← need (w.mat il attn_qkv_weight)
      wqkv_b ← need (w.vec il attn_qkv_bias)
      wo ← need (w.mat il attn_output_weight)
      wo_b ← need (w.vec il attn_output_bias)
      norm2 ← need (w.vec il ffn_norm_weight)
      norm2_b ← need (w.vec il ffn_norm_bias)
      up ← need (w.mat il ffn_up_weight)
      up_b ← need (w.vec il ffn_up_bias)
      down ← need (w.mat il ffn_down_weight)
      down_b ← need (w.vec il ffn_down_bias)
      ok (record {
        project = λ p x.
            let qkv = plus T (matmul (layer_norm x norm norm_b) wqkv) wqkv_b in
            let c = length qkv / 3 in (take c qkv, take c (drop c qkv), drop (2 * c) qkv);
        attention = λ q ks vs p.
            let hd = length q / cfg.n_head in
            attend T (scaled_dot T hd) cfg.n_head cfg.n_head hd q ks vs p;
        finish = λ x y.
            let x' = plus T x (plus T (matmul y wo) wo_b) in
            let h = map gelu (plus T (matmul (layer_norm x' norm2 norm2_b) up) up_b) in
            plus T x' (plus T (matmul h down) down_b);
      })

    unfoldable pub qwen2_fns : Result (Layer T)
    qwen2_fns = do
      norm ← need (w.vec il attn_norm_weight)
      wq ← need (w.mat il attn_q_weight)
      wk ← need (w.mat il attn_k_weight)
      wv ← need (w.mat il attn_v_weight)
      wo ← need (w.mat il attn_output_weight)
      norm2 ← need (w.vec il ffn_norm_weight)
      gate ← need (w.mat il ffn_gate_weight)
      up ← need (w.mat il ffn_up_weight)
      down ← need (w.mat il ffn_down_weight)
      let hd = cfg.n_embd / cfg.n_head
      ok (record {
        project = λ p x.
            let h = rms_norm T x norm cfg.norm_eps in
            (
              apply_rope T cfg.rope_theta hd p (bias_or_zero (w.vec il attn_q_bias) (matmul h wq)),
              apply_rope T cfg.rope_theta hd p (bias_or_zero (w.vec il attn_k_bias) (matmul h wk)),
              bias_or_zero (w.vec il attn_v_bias) (matmul h wv),
            );
        attention = attend T (scaled_dot T hd) cfg.n_head cfg.n_head_kv hd;
        finish = λ x y.
            let x' = plus T x (matmul y wo) in
            plus T x' (gated_ffn T silu cfg.norm_eps norm2 gate up down x');
      })

    -- `LAYER_FN.get(arch, llama_layer)`
    unfoldable pub layer_fns : Arch → Result (Layer T)
    unfolding llama_fns gemma_fns gemma2_fns phi3_fns gpt2_fns qwen2_fns
    layer_fns llama = llama_fns T w il cfg
    layer_fns gpt2 = gpt2_fns
    layer_fns qwen2 = qwen2_fns
    layer_fns starcoder2 = llama_fns T w il cfg
    layer_fns gemma = gemma_fns T w il cfg
    layer_fns gemma2 = gemma2_fns T w il cfg
    layer_fns phi3 = phi3_fns
    layer_fns other_arch = llama_fns T w il cfg
