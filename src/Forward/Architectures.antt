-- ===== src/Forward/Architectures.antt =====
-- The attention of each architecture's layer: `LAYER_FN` and the layer of `generate`.
use llama_tov.Prelude.{
  ℕ, ◌/◌, ◌<◌, ◌≡◌, sym, ◌∙◌, Option, List, [], ◌∷◌, ◌++◌, arith, length, length-append, Result,
  ◌>>=◌, OnOk, bind-OnOk,
}
use llama_tov.Forward.Torch.{TorchOps, MaskLaw}
use llama_tov.Forward.Rows.{Row}
use llama_tov.Forward.Weights.{
  attn_norm_weight, attn_norm_bias, attn_qkv_bias, attn_output_bias, ffn_norm_weight, ffn_norm_bias,
  ffn_up_bias, ffn_down_bias, attn_q_weight, attn_k_weight, attn_v_weight, attn_qkv_weight,
  attn_output_weight, ffn_gate_weight, ffn_up_weight, ffn_down_weight, ffn_gate_inp_weight, Arch,
  llama, gpt2, qwen2, starcoder2, gemma, gemma2, phi3, other_arch, need, Weights, Config, head_size,
}
use llama_tov.Forward.Layers.{Layer, scaled_dot, llama_fns, gemma_fns, gemma2_fns}
use llama_tov.Forward.Fused.{phi3_qkv, phi3_fns, gpt2_fns, qwen2_fns, layer_fns}
use llama_tov.Forward.Generate.{cached_attention, is_gpt2, project_fn, ffn_fn, generate_fns}
use llama_tov.Forward.Causal.{attend-append, cached_attention-attend, Causal}

module _ (T : TorchOps) (law : MaskLaw T) where
  open T use {Num, dot}

  pub cached_attention-append :
      (score : Row T → Row T → Num) (nh nkv hd : ℕ) (q : Row T) (ks vs : List (Row T)) (k v : Row T)
      (limit : ℕ)
      → length ks ≡ length vs
      → limit < length ks
      → cached_attention T score nh nkv hd q (ks ++ (k ∷ [])) (vs ++ (v ∷ [])) limit
        ≡ cached_attention T score nh nkv hd q ks vs limit
  cached_attention-append score nh nkv hd q ks vs k v limit e h =
      cached_attention-attend T score nh nkv hd q (ks ++ (k ∷ [])) (vs ++ (v ∷ [])) limit
        (omega (arith, length-append ks (k ∷ [])))
      ∙ attend-append T law score nh nkv hd q ks vs k v limit e h
      ∙ sym (cached_attention-attend T score nh nkv hd q ks vs limit h)

  module _ (w : Weights T) (il : ℕ) (cfg : Config T) where
    -- the lookups of a layer come first, whatever they give
    needs {ℓ} :
        {A : Type ℓ} (o : Option A) (next : A → Result (Layer T))
        → ((a : A) → OnOk (Causal T) (next a))
        → OnOk (Causal T) (need o >>= next)
    needs o next h = bind-OnOk (Causal T) (need o) next h

    llama_fns-OnOk : OnOk (Causal T) (llama_fns T w il cfg)
    unfolding llama_fns
    llama_fns-OnOk = needs (w.vec il attn_norm_weight) _ λ a. needs (w.mat il attn_q_weight) _ λ b.
        needs (w.mat il attn_k_weight) _ λ c. needs (w.mat il attn_v_weight) _ λ d.
          needs (w.mat il attn_output_weight) _ λ e. needs (w.vec il ffn_norm_weight) _ λ g.
            needs (w.mat il ffn_gate_weight) _ λ h. needs (w.mat il ffn_up_weight) _ λ i.
              needs (w.mat il ffn_down_weight) _ λ j.
                attend-append T law (scaled_dot T (head_size T cfg)) cfg.n_head cfg.n_head_kv
                  (head_size T cfg)

    gemma_fns-OnOk : OnOk (Causal T) (gemma_fns T w il cfg)
    unfolding gemma_fns
    gemma_fns-OnOk = needs (w.vec il attn_norm_weight) _ λ a0.
        needs (w.mat il attn_q_weight) _ λ a1. needs (w.mat il attn_k_weight) _ λ a2.
          needs (w.mat il attn_v_weight) _ λ a3. needs (w.mat il attn_output_weight) _ λ a4.
            needs (w.vec il ffn_norm_weight) _ λ a5. needs (w.mat il ffn_gate_weight) _ λ a6.
              needs (w.mat il ffn_up_weight) _ λ a7.
                needs (w.mat il ffn_down_weight) _
                  λ a8. attend-append T law dot cfg.n_head cfg.n_head_kv (head_size T cfg)

    gemma2_fns-OnOk : OnOk (Causal T) (gemma2_fns T w il cfg)
    unfolding gemma2_fns
    gemma2_fns-OnOk = needs (w.vec il attn_norm_weight) _ λ a0.
        needs (w.mat il attn_q_weight) _ λ a1. needs (w.mat il attn_k_weight) _ λ a2.
          needs (w.mat il attn_v_weight) _ λ a3. needs (w.mat il attn_output_weight) _ λ a4.
            needs (w.vec il ffn_norm_weight) _ λ a5. needs (w.mat il ffn_gate_weight) _ λ a6.
              needs (w.mat il ffn_up_weight) _ λ a7.
                needs (w.mat il ffn_down_weight) _
                  λ a8. attend-append T law dot cfg.n_head cfg.n_head_kv (head_size T cfg)

    qwen2_fns-OnOk : OnOk (Causal T) (qwen2_fns T w il cfg)
    unfolding qwen2_fns
    qwen2_fns-OnOk =
        let hd = cfg.n_embd / cfg.n_head in
        needs (w.vec il attn_norm_weight) _ λ a0. needs (w.mat il attn_q_weight) _ λ a1.
          needs (w.mat il attn_k_weight) _ λ a2. needs (w.mat il attn_v_weight) _ λ a3.
            needs (w.mat il attn_output_weight) _ λ a4. needs (w.vec il ffn_norm_weight) _ λ a5.
              needs (w.mat il ffn_gate_weight) _ λ a6. needs (w.mat il ffn_up_weight) _ λ a7.
                needs (w.mat il ffn_down_weight) _
                  λ a8. attend-append T law (scaled_dot T hd) cfg.n_head cfg.n_head_kv hd

    gpt2_fns-OnOk : OnOk (Causal T) (gpt2_fns T w il cfg)
    unfolding gpt2_fns
    gpt2_fns-OnOk = needs (w.vec il attn_norm_weight) _ λ a0.
        needs (w.vec il attn_norm_bias) _ λ a1. needs (w.mat il attn_qkv_weight) _ λ a2.
          needs (w.vec il attn_qkv_bias) _ λ a3. needs (w.mat il attn_output_weight) _ λ a4.
            needs (w.vec il attn_output_bias) _ λ a5. needs (w.vec il ffn_norm_weight) _ λ a6.
              needs (w.vec il ffn_norm_bias) _ λ a7. needs (w.mat il ffn_up_weight) _ λ a8.
                needs (w.vec il ffn_up_bias) _ λ a9. needs (w.mat il ffn_down_weight) _ λ a10.
                  needs (w.vec il ffn_down_bias) _ λ a11. λ q.
                    let hd = length q / cfg.n_head in
                    attend-append T law (scaled_dot T hd) cfg.n_head cfg.n_head hd q

    phi3_fns-OnOk : OnOk (Causal T) (phi3_fns T w il cfg)
    unfolding phi3_fns
    phi3_fns-OnOk = needs (w.vec il attn_norm_weight) _ λ a.
        bind-OnOk (Causal T) (phi3_qkv T w il cfg) _ λ b.
          needs (w.mat il attn_output_weight) _ λ a0. needs (w.vec il ffn_norm_weight) _ λ a1.
            needs (w.mat il ffn_up_weight) _ λ a2.
              needs (w.mat il ffn_down_weight) _
                λ a3. attend-append T law dot cfg.n_head cfg.n_head_kv (head_size T cfg)

    -- `LAYER_FN.get(arch, llama_layer)`, for every architecture
    pub layer_fns-OnOk : (arch : Arch) → OnOk (Causal T) (layer_fns T w il cfg arch)
    unfolding layer_fns
    layer_fns-OnOk llama = llama_fns-OnOk
    layer_fns-OnOk gpt2 = gpt2_fns-OnOk
    layer_fns-OnOk qwen2 = qwen2_fns-OnOk
    layer_fns-OnOk starcoder2 = llama_fns-OnOk
    layer_fns-OnOk gemma = gemma_fns-OnOk
    layer_fns-OnOk gemma2 = gemma2_fns-OnOk
    layer_fns-OnOk phi3 = phi3_fns-OnOk
    layer_fns-OnOk other_arch = llama_fns-OnOk

    pub generate_fns-OnOk : OnOk (Causal T) (generate_fns T w il cfg)
    unfolding generate_fns
    generate_fns-OnOk =
        let hd = head_size T cfg in
        let g = is_gpt2 cfg.arch in
        bind-OnOk (Causal T) (project_fn T w il cfg g) _ λ a.
          needs (w.mat il attn_output_weight) _ λ b.
            bind-OnOk (Causal T) (ffn_fn T w il cfg g (w.mat il ffn_gate_inp_weight)) _
              λ c. cached_attention-append (scaled_dot T hd) cfg.n_head cfg.n_head_kv hd
