-- ===== src/Forward/Generate.antt =====
-- `generate` of bpd/llamatov_run.py: its own layer, the KV cache of each layer, and the loop that
-- computes all rows at step 0 and one row at each step after.
use llama_tov.Prelude.{
  ℕ, zero, suc, ◌*◌, ◌/◌, Bool, true, false, Option, none, some, List, [], ◌∷◌, ◌++◌, map, ltb,
  if◌then◌else◌, length, take, drop, replicate, rounds, Result, ◌>>=◌, ok,
}
use llama_tov.Forward.Torch.{TorchOps}
use llama_tov.Forward.Rows.{Row, rms_norm, apply_rope, head_at, kv_head, mask_from}
use llama_tov.Forward.Weights.{
  attn_norm_weight, attn_norm_bias, attn_q_bias, attn_k_bias, attn_v_bias, attn_q_norm_weight,
  attn_k_norm_weight, attn_qkv_bias, attn_output_bias, ffn_norm_weight, ffn_norm_bias, ffn_up_bias,
  ffn_down_bias, attn_q_weight, attn_k_weight, attn_v_weight, attn_qkv_weight, attn_output_weight,
  ffn_gate_weight, ffn_up_weight, ffn_down_weight, ffn_gate_inp_weight, ffn_gate_exps_weight,
  ffn_up_exps_weight, ffn_down_exps_weight, Arch, gpt2, starcoder2, need, Weights, Config,
  head_size,
}
use llama_tov.Forward.Layers.{
  Layer, keys_from, values_from, rows_from_at, plus, times, scaled_dot, gated_ffn,
}
use llama_tov.Forward.Run.{embed_from, pick_token}

abbrev pub is_gpt2 : Arch → Bool
is_gpt2 gpt2 = true
is_gpt2 starcoder2 = true
is_gpt2 _ = false

module _ (T : TorchOps) where
  open T use {
    Num, from_nat, add, mul, div, silu, gelu, total, topk, softmax, layer_norm, matmul, combine,
  }

  abbrev pub Heads : Type 0
  Heads = Row T × Row T × Row T

  -- one head of one query; the mask is made only when there is more than one key
  unfoldable pub cached_head :
      (Row T → Row T → Num) → Row T → List (Row T) → List (Row T) → ℕ → Row T
  cached_head score q ks vs pos =
      let att = map (score q) ks in
      combine (softmax (if ltb 1 (length ks) then mask_from T pos 0 att else att)) vs

  unfoldable pub cached_attention :
      (Row T → Row T → Num) → ℕ → ℕ → ℕ → Row T → List (Row T) → List (Row T) → ℕ → Row T
  unfolding cached_head
  cached_attention score nh nkv hd q ks vs pos = rounds nh λ j.
      let group = kv_head T nh nkv j in
      cached_head score (head_at T hd j q) (map (head_at T hd group) ks)
        (map (head_at T hd group) vs) pos

  -- `rms_norm` of each of `n` heads of `hd` numbers
  abbrev pub norm_heads : ℕ → ℕ → Row T → Num → Row T → Row T
  norm_heads n hd weight eps x = rounds n λ j. rms_norm T (head_at T hd j x) weight eps

  -- `acc + g * (eh @ down_e)` for each of the chosen experts
  abbrev pub add_experts :
      (gate up down : ℕ → List (Row T)) → Num → Row T → Row T → List (ℕ × Num) → Row T
  add_experts gate up down sum hv acc [] = acc
  add_experts gate up down sum hv acc ((e, p) ∷ es) =
      let eh = times T (map silu (matmul hv (gate e))) (matmul hv (up e)) in
      add_experts gate up down sum hv
        (plus T acc (map (λ v. mul (div p sum) v) (matmul eh (down e)))) es

  module _ (w : Weights T) (il : ℕ) (cfg : Config T) where
    abbrev pub gpt2_project : Result (ℕ → Row T → Heads)
    gpt2_project = do
      norm ← need (w.vec il attn_norm_weight)
      norm_b ← need (w.vec il attn_norm_bias)
      wqkv ← need (w.mat il attn_qkv_weight)
      wqkv_b ← need (w.vec il attn_qkv_bias)
      ok λ p x.
          let qkv = plus T (matmul (layer_norm x norm norm_b) wqkv) wqkv_b in
          let c = length qkv / 3 in (take c qkv, take c (drop c qkv), drop (2 * c) qkv)

    -- the three biases, where there is one for the query
    abbrev pub add_biases : Option (Row T) → Result (Heads → Heads)
    add_biases none = ok λ qkv. qkv
    add_biases (some bq) = do
      bk ← need (w.vec il attn_k_bias)
      bv ← need (w.vec il attn_v_bias)
      ok λ qkv. (plus T qkv.0 bq, plus T qkv.1 bk, plus T qkv.2 bv)

    -- the norm of the heads of query and key, where there is one for the query
    abbrev pub norm_query_key : Option (Row T) → Result (Heads → Heads)
    norm_query_key none = ok λ qkv. qkv
    norm_query_key (some nq) = do
      nk ← need (w.vec il attn_k_norm_weight)
      let hd = head_size T cfg
      ok λ qkv. (
        norm_heads cfg.n_head hd nq cfg.norm_eps qkv.0,
        norm_heads cfg.n_head_kv hd nk cfg.norm_eps qkv.1,
        qkv.2,
      )

    abbrev pub llama_project : Result (ℕ → Row T → Heads)
    llama_project = do
      norm ← need (w.vec il attn_norm_weight)
      wq ← need (w.mat il attn_q_weight)
      wk ← need (w.mat il attn_k_weight)
      wv ← need (w.mat il attn_v_weight)
      bias ← add_biases (w.vec il attn_q_bias)
      norm_qk ← norm_query_key (w.vec il attn_q_norm_weight)
      let hd = head_size T cfg
      ok λ p x.
          let h = rms_norm T x norm cfg.norm_eps in
          let qkv = norm_qk (bias (matmul h wq, matmul h wk, matmul h wv)) in
          (apply_rope T cfg.rope_theta hd p qkv.0, apply_rope T cfg.rope_theta hd p qkv.1, qkv.2)

    -- the output projection, with its bias where there is one
    abbrev pub add_output_bias : Option (Row T) → Row T → Row T
    add_output_bias (some b) y = plus T y b
    add_output_bias none y = y

    -- the router's best experts, weighted by their share
    abbrev pub moe_ffn : List (Row T) → Result (Row T → Row T)
    moe_ffn router = do
      norm2 ← need (w.vec il ffn_norm_weight)
      gate ← need (w.stack il ffn_gate_exps_weight)
      up ← need (w.stack il ffn_up_exps_weight)
      down ← need (w.stack il ffn_down_exps_weight)
      ok λ x.
          let h2 = rms_norm T x norm2 cfg.norm_eps in
          let top = topk cfg.moe_top_k (softmax (matmul h2 router)) in
          add_experts gate up down (total (map (λ ep. ep.1) top)) h2
            (replicate (length h2) (from_nat 0)) top

    abbrev pub gpt2_ffn : Result (Row T → Row T)
    gpt2_ffn = do
      norm2 ← need (w.vec il ffn_norm_weight)
      norm2_b ← need (w.vec il ffn_norm_bias)
      up ← need (w.mat il ffn_up_weight)
      up_b ← need (w.vec il ffn_up_bias)
      down ← need (w.mat il ffn_down_weight)
      down_b ← need (w.vec il ffn_down_bias)
      ok λ x.
          let h = map gelu (plus T (matmul (layer_norm x norm2 norm2_b) up) up_b) in
          plus T (matmul h down) down_b

    abbrev pub llama_ffn : Result (Row T → Row T)
    llama_ffn = do
      norm2 ← need (w.vec il ffn_norm_weight)
      gate ← need (w.mat il ffn_gate_weight)
      up ← need (w.mat il ffn_up_weight)
      down ← need (w.mat il ffn_down_weight)
      ok (gated_ffn T silu cfg.norm_eps norm2 gate up down)

    abbrev pub ffn_fn : Bool → Option (List (Row T)) → Result (Row T → Row T)
    ffn_fn g (some router) = moe_ffn router
    ffn_fn true none = gpt2_ffn
    ffn_fn false none = llama_ffn

    abbrev pub project_fn : Bool → Result (ℕ → Row T → Heads)
    project_fn true = gpt2_project
    project_fn false = llama_project

    unfoldable pub generate_fns : Result (Layer T)
    unfolding cached_attention
    generate_fns = do
      project ← project_fn (is_gpt2 cfg.arch)
      wo ← need (w.mat il attn_output_weight)
      ffn ← ffn_fn (is_gpt2 cfg.arch) (w.mat il ffn_gate_inp_weight)
      let hd = head_size T cfg
      ok (record {
        project = project;
        attention = cached_attention (scaled_dot T hd) cfg.n_head cfg.n_head_kv hd;
        finish = λ x y.
            let x' = plus T x (add_output_bias (w.vec il attn_output_bias) (matmul y wo)) in
            plus T x' (ffn x');
      })

  -- the keys and the values of one layer
  abbrev pub Cache : Type 0
  Cache = Option (List (Row T) × List (Row T))

  -- the cached rows and the new ones
  abbrev pub extend_cache : Cache → List (Row T) → List (Row T) → List (Row T) × List (Row T)
  extend_cache none ks vs = (ks, vs)
  extend_cache (some (ks0, vs0)) ks vs = (ks0 ++ ks, vs0 ++ vs)

  -- a layer on the rows at the positions from `p` on
  unfoldable pub layer_step : Layer T → ℕ → List (Row T) → Cache → List (Row T) × Cache
  layer_step f p xs cache =
      let kv = extend_cache cache (keys_from T f p xs) (values_from T f p xs) in
      (rows_from_at T f p xs kv.0 kv.1, some kv)

  module _ (w : Weights T) (cfg : Config T) where
    -- the layers from `il` on, one for each cache
    abbrev pub step_layers : ℕ → ℕ → List (Row T) → List Cache → Result (List (Row T) × List Cache)
    step_layers il p xs [] = ok (xs, [])
    step_layers il p xs (c ∷ cs) = do
      f ← generate_fns w il cfg
      let out = layer_step f p xs c
      rest ← step_layers (suc il) p out.0 cs
      ok (rest.0, out.1 ∷ rest.1)

    -- `generated[-1:]`, at its position
    abbrev pub last_token : ℕ → List ℕ → ℕ × List ℕ
    last_token p [] = (p, [])
    last_token p (t ∷ []) = (p, t ∷ [])
    last_token p (t ∷ u ∷ ts) = last_token (suc p) (u ∷ ts)

    -- the first position to compute, and the tokens there
    abbrev pub step_input : ℕ → List ℕ → ℕ × List ℕ
    step_input zero generated = (0, generated)
    step_input (suc step) generated = last_token 0 generated

    -- the body of the loop: the next token, and the caches
    unfoldable pub generate_step : ℕ → List ℕ → List Cache → Result (ℕ × List Cache)
    unfolding generate_fns layer_step
    generate_step step generated caches = do
      let input = step_input step generated
      xs ← embed_from T w cfg input.0 input.1
      out ← step_layers 0 input.0 xs caches
      next ← pick_token T w cfg out.0
      ok (next, out.1)

    -- the steps from `step` on, `n` of them
    abbrev pub generate_from : ℕ → ℕ → List ℕ → List Cache → Result (List ℕ)
    generate_from zero step generated caches = ok generated
    generate_from (suc n) step generated caches = do
      out ← generate_step step generated caches
      generate_from n (suc step) (generated ++ (out.0 ∷ [])) out.1

    unfoldable pub generate : ℕ → List ℕ → Result (List ℕ)
    unfolding generate_step
    generate n_tokens input_ids = generate_from n_tokens 0 input_ids (replicate cfg.n_layers none)
