-- ===== src/Resident/Forward.antt =====
-- `forward_pass_resident` of bpd/lib/dev_residency.py on its fully device-resident path: the embedding,
-- the layers, the logits, and a prompt of several tokens one at a time. A negative token id is not
-- modelled.
use llama_tov.Prelude.{
  ℕ, suc, Bool, true, false, Option, none, some, List, [], ◌∷◌, map, ltb, ◌==◌, if◌then◌else◌,
  length, get_or, tabulate, Result, ◌>>=◌, runtime_error, index_error, ok, err,
}
use llama_tov.Forward.Weights.{need, or_else}
use llama_tov.Residency.DevLength.{Device}
use llama_tov.Resident.Kernels.{Kernels}
use llama_tov.Resident.Settings.{Settings, gemv_mode}
use llama_tov.Resident.Quantize.{Floats, launch_quant}
use llama_tov.Resident.Linear.{rms_norm_dev}
use llama_tov.Resident.Layer.{Tensors, Config, Cache, read_block, eager_layer}

module _ (K : Kernels) where
  open K use {Num, zero_num, gemv, host_rms, host_matmul}

  -- a matrix by its rows as it is stored: `shape[-1]`, a column, and the columns
  abbrev pub row_width : List (Floats K) → ℕ
  row_width [] = 0
  row_width (r ∷ rs) = length r

  abbrev pub stored_column : List (Floats K) → ℕ → Floats K
  stored_column m i = map (λ r. get_or r i zero_num) m

  abbrev pub columns : List (Floats K) → List (Floats K)
  columns m = tabulate (row_width m) (stored_column m)

  -- emb.T[tok] if emb.shape[0] < emb.shape[1] else emb[tok]
  unfoldable pub embedding : List (Floats K) → ℕ → Result (Floats K)
  embedding emb tok =
      if ltb (length emb) (row_width emb)
      then if ltb tok (row_width emb) then ok (stored_column emb tok) else err index_error
      else if ltb tok (length emb)
      then ok (get_or emb tok [])
      else err index_error

  -- the embedding of a token
  unfoldable pub embed : Tensors K → ℕ → Result (Floats K)
  embed w tok = do emb ← need w.token_embd; embedding emb tok

  module _ (s : Settings) (held : Floats K → Floats K) (w : Tensors K) (cfg : Config K)
      (fresh : Device Num) where
    -- `kv_cache[il]`, or a new cache: `fresh` is what its memory holds
    abbrev pub cache_or_new : Option (Cache K) → Cache K
    cache_or_new (some c) = c
    cache_or_new none = record { dev = fresh; length_host = 0 }

    -- the layers from `il` on, one for each cache
    abbrev pub resident_layers :
        ℕ → ℕ → Floats K → List (Option (Cache K)) → Result (Floats K × List (Option (Cache K)))
    resident_layers il pos x [] = ok (x, [])
    resident_layers il pos x (c ∷ cs) = do
      b ← read_block K s.fuse_qkv w il
      let out = eager_layer K s held cfg b pos x (cache_or_new c)
      rest ← resident_layers (suc il) pos out.0 cs
      ok (rest.0, some out.1 ∷ rest.1)

    -- the weights of the logits: the output norm, and the output or the token embedding
    unfoldable pub read_head : Result (Floats K × List (Floats K))
    read_head = do
      norm ← need w.output_norm
      lm ← need (or_else w.output w.token_embd)
      ok (norm, lm)

    -- `_compute_folded_logits`, or the host's norm and product
    unfoldable pub head_logits : Floats K × List (Floats K) → Floats K → Floats K
    head_logits (norm, lm) x =
        if s.device_logits
        then map
            (gemv (gemv_mode s)
              (launch_quant K s.quant_par (rms_norm_dev K s held x norm cfg.norm_eps)))
            (if length lm == cfg.n_embd then columns lm else lm)
        else host_matmul (host_rms cfg.norm_eps x norm)
            (if row_width lm == cfg.n_embd then lm else columns lm)

    -- the device's logits are refused without the buffer of the residual
    abbrev pub check_logits : Bool → Bool → Result (Unit {0})
    check_logits true false = err runtime_error
    check_logits _ _ = ok tt

    -- one token at a position
    unfoldable pub forward_token :
        ℕ → ℕ → List (Option (Cache K)) → Result (Floats K × List (Option (Cache K)))
    forward_token pos tok caches = do
      x ← embed w tok
      out ← resident_layers 0 pos x caches
      _ ← check_logits s.device_logits s.graph_prep
      head ← read_head
      ok (head_logits head out.0, out.1)

    -- `forward_pass_resident` on tokens with their positions
    abbrev pub forward_pass_resident :
        List (ℕ × ℕ) → List (Option (Cache K)) → Result (Floats K × List (Option (Cache K)))
    forward_pass_resident [] caches = err runtime_error
    forward_pass_resident ((tok, pos) ∷ []) caches = forward_token pos tok caches
    forward_pass_resident ((tok, pos) ∷ t ∷ ts) caches = do
      out ← forward_token pos tok caches
      forward_pass_resident (t ∷ ts) out.1
