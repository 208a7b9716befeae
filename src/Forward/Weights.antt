-- ===== src/Forward/Weights.antt =====
-- The tensors of a model by name, and its hyperparameters: the dictionaries `w` and `cfg` of
-- bpd/llamatov_run.py. The rank of a tensor is the one that its name has in GGUF.
use llama_tov.Prelude.{ℕ, zero, suc, ◌/◌, Option, none, some, List, Result, key_error, ok, err}
use llama_tov.Forward.Torch.{TorchOps}

-- the last parts of the names `blk.{il}.…` of one-dimensional tensors
pub data VecName : Type 0 where
  attn_norm_weight attn_norm_bias attn_q_bias attn_k_bias attn_v_bias : VecName
  attn_q_norm_weight attn_k_norm_weight attn_qkv_bias attn_output_bias : VecName
  post_attention_norm_weight attn_post_norm_weight post_ffw_norm_weight : VecName
  ffn_post_norm_weight ffn_norm_weight ffn_norm_bias ffn_up_bias ffn_down_bias : VecName

-- those of matrices
pub data MatName : Type 0 where
  attn_q_weight attn_k_weight attn_v_weight attn_qkv_weight attn_output_weight : MatName
  ffn_gate_weight ffn_up_weight ffn_down_weight ffn_gate_inp_weight : MatName

-- those of stacks of matrices, one for each expert
pub data StackName : Type 0 where
  ffn_gate_exps_weight ffn_up_exps_weight ffn_down_exps_weight : StackName

pub data Arch : Type 0 where
  llama gpt2 qwen2 starcoder2 gemma gemma2 phi3 other_arch : Arch

-- `w[name]` of a name that is not there
abbrev pub need {ℓ} : {A : Type ℓ} → Option A → Result A
need (some a) = ok a
need none = err key_error

-- `w.get(name, default)`
abbrev pub or_else {ℓ} : {A : Type ℓ} → Option A → Option A → Option A
or_else (some a) b = some a
or_else none b = b

module _ (T : TorchOps) where
  open T use {Num}

  pub record Weights : Type 0 where
    pub vec : ℕ → VecName → Option (List Num)
    pub mat : ℕ → MatName → Option (List (List Num))
    pub stack : ℕ → StackName → Option (ℕ → List (List Num))
    pub token_embd : Option (List (List Num))
    pub position_embd : Option (List (List Num))
    pub output_norm : Option (List Num)
    pub output_norm_bias : Option (List Num)
    pub output : Option (List (List Num))

  -- `cfg`, as `run`, `load_model` and `generate` fill it; `n_head` is not 0
  pub record Config : Type 0 where
    pub arch : Arch
    pub n_layers : ℕ
    pub n_head : ℕ
    pub n_head_kv : ℕ
    pub head_dim : Option ℕ
    pub moe_top_k : ℕ
    pub n_embd : ℕ
    pub rope_theta : Num
    pub norm_eps : Num
    pub f_attention_scale : Option Num

  -- cfg.get('head_dim') or (cfg['n_embd'] // nh)
  abbrev pub head_size : Config → ℕ
  head_size cfg = elim cfg.head_dim [
    | some zero ↦ cfg.n_embd / cfg.n_head
    | some (suc n) ↦ suc n
    | none ↦ cfg.n_embd / cfg.n_head
  ]
