-- ===== src/Resident/Layer.antt =====
-- A layer of the fully device-resident path of `forward_pass_resident`, bpd/lib/dev_residency.py, on one
-- token: the projections, the rotation, the append to the cache, the attention and the feed-forward part.
-- The append of a decode step is the one that Residency.DevAppend gives for every choice of its kernels.
use llama_tov.Prelude.{
  ℕ, ◌+◌, ◌*◌, ◌/◌, Bool, true, ◌&&◌, Option, none, some, List, ◌++◌, ◌==◌, if◌then◌else◌, length,
  get_or, take, drop, rounds, Result, ◌>>=◌, value_error, ok, err,
}
use llama_tov.Forward.Weights.{
  VecName, MatName, attn_norm_weight, attn_q_bias, attn_k_bias, attn_v_bias, ffn_norm_weight,
  attn_q_weight, attn_k_weight, attn_v_weight, attn_output_weight, ffn_gate_weight, ffn_up_weight,
  ffn_down_weight, need,
}
use llama_tov.Residency.DevLength.{Device}
use llama_tov.Residency.DevAppend.{write_row, appended}
use llama_tov.Resident.Kernels.{Kernels}
use llama_tov.Resident.Settings.{Settings}
use llama_tov.Resident.Quantize.{Floats, elementwise2, silu_mul, kv_quantize_q8}
use llama_tov.Resident.Attention.{attn_decode_pm, attn_decode_masked}
use llama_tov.Resident.Linear.{
  Matrix, q8_linear_dev, q8_linear_add_residual_dev, add_dev, q8_linear_dev_bias, rms_norm_dev,
}

module _ (K : Kernels) where
  open K use {Num, zero_num, rope, inv_sqrt}

  -- the dictionary `w`, with a matrix by its columns; `token_embd` is by the rows as they are stored
  pub record Tensors : Type 0 where
    pub vec : ℕ → VecName → Option (Floats K)
    pub mat : ℕ → MatName → Option (Matrix K)
    pub token_embd : Option (List (Floats K))
    pub output_norm : Option (Floats K)
    pub output : Option (Matrix K)

  -- the entries of `cfg` that are read; `n_head` is not 0
  pub record Config : Type 0 where
    pub n_head : ℕ
    pub n_head_kv : ℕ
    pub n_embd : ℕ
    pub rope_theta : Num
    pub norm_eps : Num

  abbrev pub head_dim : Config → ℕ
  head_dim cfg = cfg.n_embd / cfg.n_head

  -- the weights that a layer reads
  pub record Block : Type 0 where
    pub attn_norm : Floats K
    pub wq : Matrix K
    pub wk : Matrix K
    pub wv : Matrix K
    pub bq : Option (Floats K)
    pub bk : Option (Floats K)
    pub bv : Option (Floats K)
    pub wo : Matrix K
    pub ffn_norm : Floats K
    pub gate : Matrix K
    pub up : Matrix K
    pub down : Matrix K

  -- the bias of `_fused_qkv_weight`; the weights are read only where all three or none are there
  abbrev pub cat_bias :
      Option (Floats K) → Option (Floats K) → Option (Floats K) → Option (Floats K)
  cat_bias (some bq) (some bk) (some bv) = some (bq ++ (bk ++ bv))
  cat_bias _ _ _ = none

  -- `concatenate` refuses the array that None becomes; without a bias of the query none is read
  abbrev pub check_biases :
      Bool → Option (Floats K) → Option (Floats K) → Option (Floats K) → Result (Unit {0})
  check_biases true (some bq) (some bk) none = err value_error
  check_biases true (some bq) none bv = err value_error
  check_biases _ _ _ _ = ok tt

  -- the lookups of a layer, in their order
  unfoldable pub read_block : Bool → Tensors → ℕ → Result Block
  read_block fuse_qkv w il = do
    attn_norm ← need (w.vec il attn_norm_weight)
    wq ← need (w.mat il attn_q_weight)
    wk ← need (w.mat il attn_k_weight)
    wv ← need (w.mat il attn_v_weight)
    _ ← check_biases fuse_qkv (w.vec il attn_q_bias) (w.vec il attn_k_bias) (w.vec il attn_v_bias)
    wo ← need (w.mat il attn_output_weight)
    ffn_norm ← need (w.vec il ffn_norm_weight)
    gate ← need (w.mat il ffn_gate_weight)
    up ← need (w.mat il ffn_up_weight)
    down ← need (w.mat il ffn_down_weight)
    ok (record {
      attn_norm = attn_norm;
      wq = wq;
      wk = wk;
      wv = wv;
      bq = w.vec il attn_q_bias;
      bk = w.vec il attn_k_bias;
      bv = w.vec il attn_v_bias;
      wo = wo;
      ffn_norm = ffn_norm;
      gate = gate;
      up = up;
      down = down;
    })

  -- query, key and value: views of one buffer with the sizes of the first two, or three buffers
  pub data Qkv : Type 0 where
    views : Floats K → ℕ → ℕ → Qkv
    buffers : Floats K → Floats K → Floats K → Qkv

  abbrev pub Heads : Type 0
  Heads = Floats K × Floats K × Floats K

  -- `_slice_dev` for the three views
  abbrev pub slices : Floats K → ℕ → ℕ → Heads
  slices y nq nk = (take nq y, take nk (drop nq y), drop (nq + nk) y)

  abbrev pub heads_of : Qkv → Heads
  heads_of (views y nq nk) = slices y nq nk
  heads_of (buffers q k v) = (q, k, v)

  -- `k_rope` of the first `n` heads of a buffer at position `pos`, in place
  unfoldable pub rope_heads : Num → ℕ → ℕ → ℕ → Floats K → Floats K
  rope_heads theta hd n pos y =
      rounds n (λ j. rope theta hd pos (take hd (drop (j * hd) y))) ++ drop (n * hd) y

  -- the row that a buffer holds
  abbrev pub row_at : Floats K → ℕ → Num
  row_at xs i = get_or xs i zero_num

  -- one layer's `DeviceKVCache`: the device's buffers and length, and the host's length
  pub record Cache : Type 0 where
    pub dev : Device Num
    pub length_host : ℕ

  module _ (s : Settings) (held : Floats K → Floats K) (cfg : Config) where
    -- rope of a query and a key
    abbrev pub rope_both : ℕ → Heads → Heads
    rope_both pos (q, k, v) = (
      rope_heads cfg.rope_theta (head_dim cfg) cfg.n_head pos q,
      rope_heads cfg.rope_theta (head_dim cfg) cfg.n_head_kv pos k,
      v,
    )

    abbrev pub quant_kv : Floats K → Floats K
    quant_kv x = if s.kv_quant_q8 then kv_quantize_q8 K x else x

    -- `qkv_fused_dev`, or a product for each
    unfoldable pub project : Block → Floats K → Qkv
    project b h =
        if s.fuse_qkv
        then views
            (q8_linear_dev_bias K s held h (b.wq ++ (b.wk ++ b.wv)) (cat_bias b.bq b.bk b.bv))
            (length b.wq) (length b.wk)
        else buffers (q8_linear_dev_bias K s held h b.wq b.bq)
            (quant_kv (q8_linear_dev_bias K s held h b.wk b.bk))
            (quant_kv (q8_linear_dev_bias K s held h b.wv b.bv))

    -- the rotation on the capture path: one launch over the heads of query and key where they are
    -- neighbours in one buffer
    unfoldable pub rope_qk : ℕ → Qkv → Heads
    rope_qk pos (buffers q k v) = rope_both pos (q, k, v)
    rope_qk pos (views y nq nk) =
        if s.rope_qk_fused && nq == cfg.n_head * head_dim cfg
        then slices (rope_heads cfg.rope_theta (head_dim cfg) (cfg.n_head + cfg.n_head_kv) pos y) nq
            nk
        else rope_both pos (slices y nq nk)

    -- `gateup_fused_dev`, or a product for each
    unfoldable pub gate_up : Block → Floats K → Floats K × Floats K
    gate_up b xres =
        if s.rms_quant_fused && s.fuse_gateup
        then split
            (q8_linear_dev K s xres (b.gate ++ b.up) (some (xres, held b.ffn_norm, cfg.norm_eps)))
        else let h2 = rms_norm_dev K s held xres b.ffn_norm cfg.norm_eps in
          if s.fuse_gateup
          then split (q8_linear_dev K s h2 (b.gate ++ b.up) none)
          else (q8_linear_dev K s h2 b.gate none, q8_linear_dev K s h2 b.up none)
      where
        split : Floats K → Floats K × Floats K
        split y = (take (length b.gate) y, drop (length b.gate) y)

    -- the product of the feed-forward part and its residual
    unfoldable pub down_proj : Block → Floats K → Floats K × Floats K → Floats K
    down_proj b xres gu =
        let product = elementwise2 K (silu_mul K) gu.0 gu.1 in
        if s.addres_fused
        then if s.silu_quant_fused
          then q8_linear_add_residual_dev K s gu.0 b.down xres (some gu)
          else q8_linear_add_residual_dev K s product b.down xres none
        else add_dev K s xres (q8_linear_dev K s product b.down none)

    -- the output projection and its residual
    unfoldable pub attn_output : Block → Floats K → Floats K → Floats K
    attn_output b x yd =
        if s.addres_fused
        then q8_linear_add_residual_dev K s yd b.wo x none
        else add_dev K s x (q8_linear_dev K s yd b.wo none)

    -- the layer behind its attention: the residual `x` and the attention's output
    unfoldable pub finish : Block → Floats K → Floats K → Floats K
    finish b x yd = let xres = attn_output b x yd in down_proj b xres (gate_up b xres)

    abbrev pub scale : Num
    scale = inv_sqrt (head_dim cfg)

    abbrev pub width_of : ℕ
    width_of = cfg.n_head_kv * head_dim cfg

    -- the part of a layer that a graph records: the position is the length that the device holds
    unfoldable pub graph_layer : Block → Floats K → Device Num → Floats K × Device Num
    graph_layer b x d =
        let h = rms_norm_dev K s held x b.attn_norm cfg.norm_eps in
        let qkv = rope_qk d.len (project b h) in
        let d' = appended d (row_at qkv.1) (row_at qkv.2) width_of in
        let yd =
          attn_decode_masked K cfg.n_head cfg.n_head_kv (head_dim cfg) scale s.kv_max_seq d'.len
            (row_at qkv.0) d'.kbuf d'.vbuf in
        (finish b x yd, d')

    -- `append` at the host's length
    abbrev pub append_host : Cache → (ℕ → Num) → (ℕ → Num) → Cache
    append_host c k v = record {
      dev = record {
        kbuf = write_row c.dev.kbuf k c.length_host width_of;
        vbuf = write_row c.dev.vbuf v c.length_host width_of;
        len = c.dev.len;
      };
      length_host = c.length_host + 1;
    }

    -- `_ensure_len_ptr(seed=True)`: the device's length is the host's
    abbrev pub seed_len : Cache → Cache
    seed_len c = record {
      dev = record { kbuf = c.dev.kbuf; vbuf = c.dev.vbuf; len = c.length_host };
      length_host = c.length_host;
    }

    -- the attention of the other path, which ends at the host's length or masks from it
    abbrev pub attend_host : Floats K → Cache → Floats K × Cache
    attend_host q c =
        if s.masked_attn
        then (let c' = seed_len c in
            (
              attn_decode_masked K cfg.n_head cfg.n_head_kv (head_dim cfg) scale s.kv_max_seq
                  c'.dev.len (row_at q) c'.dev.kbuf c'.dev.vbuf,
              c',
            ))
        else (
          attn_decode_pm K cfg.n_head cfg.n_head_kv (head_dim cfg) scale c.length_host (row_at q)
              c.dev.kbuf c.dev.vbuf,
          c,
        )

    -- the layer without _GRAPH_PREP, at a position that the caller gives
    unfoldable pub position_layer : Block → ℕ → Floats K → Cache → Floats K × Cache
    position_layer b pos x c =
        let h = rms_norm_dev K s held x b.attn_norm cfg.norm_eps in
        let qkv = rope_both pos (heads_of (project b h)) in
        let out = attend_host qkv.0 (append_host c (row_at qkv.1) (row_at qkv.2)) in
        (finish b x out.0, out.1)

    -- a layer that runs, and not one that is recorded
    unfoldable pub eager_layer : Block → ℕ → Floats K → Cache → Floats K × Cache
    eager_layer b pos x c =
        if s.graph_prep
        then (let out = graph_layer b x (seed_len c).dev in
            (out.0, record { dev = out.1; length_host = c.length_host + 1 }))
        else position_layer b pos x c
