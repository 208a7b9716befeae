-- ===== src/Forward/Layers.antt =====
-- The layers that `run` applies: `llama_layer`, `gemma_layer`, `gemma2_layer`, `phi3_layer`,
-- `gpt2_layer` and `qwen2_layer` of bpd/llamatov_run.py. Each is given by what it does with one row,
-- and by the attention, in which a row meets the keys and values of the rows up to its own. The
-- lookups of the tensors come first; a name that is not there is a KeyError.
use llama_tov.Prelude.{ℕ, suc, Option, none, some, List, [], ◌∷◌, map, Result, ◌>>=◌, ok}
use llama_tov.Forward.Torch.{TorchOps}
use llama_tov.Forward.Rows.{Row, zip_with, rms_norm, apply_rope, attend}
use llama_tov.Forward.Weights.{
  attn_norm_weight, post_attention_norm_weight, attn_post_norm_weight, post_ffw_norm_weight,
  ffn_post_norm_weight, ffn_norm_weight, attn_q_weight, attn_k_weight, attn_v_weight,
  attn_output_weight, ffn_gate_weight, ffn_up_weight, ffn_down_weight, need, or_else, Weights,
  Config, head_size,
}

module _ (T : TorchOps) where
  open T use {Num, from_nat, add, mul, pow, silu, gelu, minus_half, layer_norm, matmul, dot}

  -- what a layer does: the query, key and value of a row at a position, the attention of a query over
  -- keys and values up to a position, and the row that comes out of a row and its attention
  pub record Layer : Type 0 where
    pub project : ℕ → Row T → Row T × Row T × Row T
    pub attention : Row T → List (Row T) → List (Row T) → ℕ → Row T
    pub finish : Row T → Row T → Row T

  module _ (f : Layer) where
    abbrev pub keys_from : ℕ → List (Row T) → List (Row T)
    keys_from p [] = []
    keys_from p (x ∷ xs) = (f.project p x).1 ∷ keys_from (suc p) xs

    abbrev pub values_from : ℕ → List (Row T) → List (Row T)
    values_from p [] = []
    values_from p (x ∷ xs) = (f.project p x).2 ∷ values_from (suc p) xs

    -- the row at position `p`
    abbrev pub row_at : ℕ → Row T → List (Row T) → List (Row T) → Row T
    row_at p x ks vs = f.finish x (f.attention (f.project p x).0 ks vs p)

    abbrev pub rows_from_at : ℕ → List (Row T) → List (Row T) → List (Row T) → List (Row T)
    rows_from_at p [] ks vs = []
    rows_from_at p (x ∷ xs) ks vs = row_at p x ks vs ∷ rows_from_at (suc p) xs ks vs

    -- a layer on all rows, with the mask `triu(ones(T, T), diagonal=1)`
    unfoldable pub causal_layer : List (Row T) → List (Row T)
    causal_layer xs = rows_from_at 0 xs (keys_from 0 xs) (values_from 0 xs)

  abbrev pub plus : Row T → Row T → Row T
  plus = zip_with T add

  abbrev pub times : Row T → Row T → Row T
  times = zip_with T mul

  -- att = (q @ k.transpose(-2,-1)) * (hd**-0.5)
  abbrev pub scaled_dot : ℕ → Row T → Row T → Num
  scaled_dot hd q k = mul (dot q k) (pow (from_nat hd) minus_half)

  -- x + (act(h2 @ gate) * (h2 @ up)) @ down, where h2 = rms_norm(x, …)
  abbrev pub gated_ffn :
      (Num → Num) → Num → Row T → List (Row T) → List (Row T) → List (Row T) → Row T → Row T
  gated_ffn act eps norm gate up down x =
      let h2 = rms_norm T x norm eps in
      matmul (times (map act (matmul h2 gate)) (matmul h2 up)) down

  module _ (w : Weights T) (il : ℕ) (cfg : Config T) where
    unfoldable pub llama_fns : Result Layer
    llama_fns = do
      norm ← need (w.vec il attn_norm_weight)
      wq ← need (w.mat il attn_q_weight)
      wk ← need (w.mat il attn_k_weight)
      wv ← need (w.mat il attn_v_weight)
      wo ← need (w.mat il attn_output_weight)
      norm2 ← need (w.vec il ffn_norm_weight)
      gate ← need (w.mat il ffn_gate_weight)
      up ← need (w.mat il ffn_up_weight)
      down ← need (w.mat il ffn_down_weight)
      let hd = head_size T cfg
      ok (record {
        project = λ p x.
            let h = rms_norm T x norm cfg.norm_eps in
            (
              apply_rope T cfg.rope_theta hd p (matmul h wq),
              apply_rope T cfg.rope_theta hd p (matmul h wk),
              matmul h wv,
            );
        attention = attend T (scaled_dot hd) cfg.n_head cfg.n_head_kv hd;
        finish = λ x y.
            let x' = plus x (matmul y wo) in
            plus x' (gated_ffn silu cfg.norm_eps norm2 gate up down x');
      })

    -- GELU, and the query scaled before the attention
    unfoldable pub gemma_fns : Result Layer
    gemma_fns = do
      norm ← need (w.vec il attn_norm_weight)
      wq ← need (w.mat il attn_q_weight)
      wk ← need (w.mat il attn_k_weight)
      wv ← need (w.mat il attn_v_weight)
      wo ← need (w.mat il attn_output_weight)
      norm2 ← need (w.vec il ffn_norm_weight)
      gate ← need (w.mat il ffn_gate_weight)
      up ← need (w.mat il ffn_up_weight)
      down ← need (w.mat il ffn_down_weight)
      let hd = head_size T cfg
      ok (record {
        project = λ p x.
            let h = rms_norm T x norm cfg.norm_eps in
            (
              map (λ v. mul v (pow (from_nat hd) minus_half))
                  (apply_rope T cfg.rope_theta hd p (matmul h wq)),
              apply_rope T cfg.rope_theta hd p (matmul h wk),
              matmul h wv,
            );
        attention = attend T dot cfg.n_head cfg.n_head_kv hd;
        finish = λ x y.
            let x' = plus x (matmul y wo) in
            plus x' (gated_ffn gelu cfg.norm_eps norm2 gate up down x');
      })

    -- a norm after the attention or the feed-forward, where the model has one
    abbrev pub post_norm : Option (Row T) → Row T → Row T
    post_norm (some n) y = rms_norm T y n cfg.norm_eps
    post_norm none y = y

    -- cfg.get('f_attention_scale', hd ** -0.5)
    abbrev pub attn_scale : Option Num → Num
    attn_scale (some s) = s
    attn_scale none = pow (from_nat (head_size T cfg)) minus_half

    unfoldable pub gemma2_fns : Result Layer
    gemma2_fns = do
      norm ← need (w.vec il attn_norm_weight)
      wq ← need (w.mat il attn_q_weight)
      wk ← need (w.mat il attn_k_weight)
      wv ← need (w.mat il attn_v_weight)
      wo ← need (w.mat il attn_output_weight)
      norm2 ← need (w.vec il ffn_norm_weight)
      gate ← need (w.mat il ffn_gate_weight)
      up ← need (w.mat il ffn_up_weight)
      down ← need (w.mat il ffn_down_weight)
      let hd = head_size T cfg
      let after_attn =
          or_else (w.vec il post_attention_norm_weight) (w.vec il attn_post_norm_weight)
      let after_ffn = or_else (w.vec il post_ffw_norm_weight) (w.vec il ffn_post_norm_weight)
      ok (record {
        project = λ p x.
            let h = rms_norm T x norm cfg.norm_eps in
            (
              map (λ v. mul v (attn_scale cfg.f_attention_scale))
                  (apply_rope T cfg.rope_theta hd p (matmul h wq)),
              apply_rope T cfg.rope_theta hd p (matmul h wk),
              matmul h wv,
            );
        attention = attend T dot cfg.n_head cfg.n_head_kv hd;
        finish = λ x y.
            let x' = plus x (post_norm after_attn (matmul y wo)) in
            plus x' (post_norm after_ffn (gated_ffn gelu cfg.norm_eps norm2 gate up down x'));
      })
