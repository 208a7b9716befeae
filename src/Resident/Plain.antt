-- ===== src/Resident/Plain.antt =====
-- A decode step with one kernel for each operation, in the product's mode, the norm's and the quantization's that
-- the flags choose, against which the choices of bpd/lib/dev_residency.py
-- are measured; and what the file says of the kernels that are emitted from facts.
use llama_tov.Prelude.{ℕ, ◌*◌, ◌≡◌, true, false, ◌&&◌, Option, none, some, map, length}
use llama_tov.Residency.DevLength.{Device}
use llama_tov.Residency.DevAppend.{appended}
use llama_tov.Resident.Kernels.{
  dp4a, tiled, tiled_v4, epilogue_add_residual, tiled_v4_addres, Kernels,
}
use llama_tov.Resident.Settings.{Settings, gemv_mode}
use llama_tov.Resident.Quantize.{Floats, Acts, elementwise2, launch_quant, silu_mul}
use llama_tov.Resident.Attention.{attn_decode_masked}
use llama_tov.Resident.Linear.{Matrix}
use llama_tov.Resident.Layer.{Config, head_dim, Block, Heads, cat_bias, rope_heads, row_at}

-- What the file and the emitters state of the emitted kernels: the tiled product is bit-exact with wide loads,
-- each product with a residual is the product of its own mode and one sum, and the norm with quantization
-- is the block-per-row norm followed by the warp's quantization. Nothing is said of a tiled product against
-- one without tiles, or of the two norms, which differ in the order of their sums. Then the sum of two
-- floats in either order, and a rotation that keeps the length of a head.
pub record Exact (K : Kernels) : Type 0 where
  pub v4_same :
      (bm : ℕ) (q : Acts K) (column : Floats K)
      → K.gemv (tiled bm) q column ≡ K.gemv (tiled_v4 bm) q column
  pub addres_same :
      (q : Acts K) (column : Floats K) (r : K.Num)
      → K.gemv_addres epilogue_add_residual q column r ≡ K.add (K.gemv dp4a q column) r
  pub v4_addres_same :
      (bm : ℕ) (q : Acts K) (column : Floats K) (r : K.Num)
      → K.gemv_addres (tiled_v4_addres bm) q column r ≡ K.add (K.gemv (tiled_v4 bm) q column) r
  pub rms_quant_same :
      (eps : K.Num) (x weight : Floats K)
      → K.rms_quant eps x weight ≡ launch_quant K true (K.rmsnorm true eps x weight)
  pub add_comm : (a b : K.Num) → K.add a b ≡ K.add b a
  pub length-rope :
      (theta : K.Num) (hd pos : ℕ) (x : Floats K) → length (K.rope theta hd pos x) ≡ length x

-- No kernel that quantizes in its own way, keys and values as they are, and the kernels that quantize with a
-- warp for each block or norm with a block for each row only where the others do so too.
pub record Certified (s : Settings) : Type 0 where
  pub qfused_off : s.qfused ≡ false
  pub v4_qfused_off : (s.gemv_tiled && (s.gemv_tiled_v4 && s.gemv_tiled_v4_qfused)) ≡ false
  pub kv_quant_off : s.kv_quant_q8 ≡ false
  pub silu_warp : s.silu_quant_fused ≡ true → s.quant_par ≡ true
  pub rms_block : s.rms_quant_fused ≡ true → (s.quant_par ≡ true) × (s.rms_blockrow ≡ true)

module _ (K : Kernels) where
  open K use {Num, add, gemv, rmsnorm, inv_sqrt}

  -- `x @ W`, with the activation quantized first
  abbrev pub plain_linear : Settings → Floats K → Matrix K → Floats K
  plain_linear s x w = map (gemv (gemv_mode s) (launch_quant K s.quant_par x)) w

  abbrev pub plus_bias : Floats K → Option (Floats K) → Floats K
  plus_bias y none = y
  plus_bias y (some b) = elementwise2 K add y b

  module _ (cfg : Config K) where
    -- query, key and value at a position
    abbrev pub plain_heads : Settings → Block K → ℕ → Floats K → Heads K
    plain_heads s b pos h =
        let hd = head_dim K cfg in
        (
          rope_heads K cfg.rope_theta hd cfg.n_head pos (plus_bias (plain_linear s h b.wq) b.bq),
          rope_heads K cfg.rope_theta hd cfg.n_head_kv pos (plus_bias (plain_linear s h b.wk) b.bk),
          plus_bias (plain_linear s h b.wv) b.bv,
        )

    abbrev pub plain_finish : Settings → Block K → Floats K → Floats K → Floats K
    plain_finish s b x y =
        let x1 = elementwise2 K add (plain_linear s y b.wo) x in
        let h2 = rmsnorm s.rms_blockrow cfg.norm_eps x1 b.ffn_norm in
        let product =
          elementwise2 K (silu_mul K) (plain_linear s h2 b.gate) (plain_linear s h2 b.up) in
        elementwise2 K add (plain_linear s product b.down) x1

    -- a layer on a token behind the rows in use
    unfoldable pub plain_layer : Settings → Block K → Floats K → Device Num → Floats K × Device Num
    plain_layer s b x d =
        let hd = head_dim K cfg in
        let qkv = plain_heads s b d.len (rmsnorm s.rms_blockrow cfg.norm_eps x b.attn_norm) in
        let d' = appended d (row_at K qkv.1) (row_at K qkv.2) (cfg.n_head_kv * hd) in
        let y =
          attn_decode_masked K cfg.n_head cfg.n_head_kv hd (inv_sqrt hd) s.kv_max_seq d'.len
            (row_at K qkv.0) d'.kbuf d'.vbuf in
        (plain_finish s b x y, d')

    -- the biases of query, key and value are all there or all missing, and the sizes agree
    pub data Biases : Block K → Type 0 where
      without : {b : Block K} → b.bq ≡ none → b.bk ≡ none → b.bv ≡ none → Biases b
      with_all :
          {b : Block K} (bq bk bv : Floats K)
          → b.bq ≡ some bq
          → b.bk ≡ some bk
          → b.bv ≡ some bv
          → length b.wq ≡ length bq
          → length b.wk ≡ length bk
          → length b.wv ≡ length bv
          → Biases b

    pub record Shaped (b : Block K) : Type 0 where
      pub biases : Biases b
      pub query : length b.wq ≡ cfg.n_head * head_dim K cfg
      pub key : length b.wk ≡ cfg.n_head_kv * head_dim K cfg
      pub gate_up_same : length b.gate ≡ length b.up

-- an array on the device, where there is one
abbrev pub HeldBias : {A : Type 0} → (A → A) → Option A → Type 0
HeldBias held none = Unit
HeldBias held (some a) = held a ≡ a

-- `_dev_const` gives each array of the layer a pointer to that array.
pub record Held (K : Kernels) (held : Floats K → Floats K) (b : Block K) : Type 0 where
  pub attn_norm : held b.attn_norm ≡ b.attn_norm
  pub ffn_norm : held b.ffn_norm ≡ b.ffn_norm
  pub bias_q : HeldBias held b.bq
  pub bias_k : HeldBias held b.bk
  pub bias_v : HeldBias held b.bv
  pub bias_cat : HeldBias held (cat_bias K b.bq b.bk b.bv)
