-- ===== src/Resident/LayerAgree.antt =====
-- A layer agrees with the plain one, whichever of its kernels and its paths are chosen.
use llama_tov.Prelude.{
  ℕ, ◌+◌, ◌*◌, ◌≡◌, sym, ap, ◌∙◌, ◌⊎◌, inl, inr, true, false, arith, either_way_under,
}
use llama_tov.Residency.DevLength.{Device}
use llama_tov.Resident.Kernels.{Kernels}
use llama_tov.Resident.Settings.{Settings}
use llama_tov.Resident.Quantize.{Floats}
use llama_tov.Residency.DevAppend.{appended}
use llama_tov.Resident.Attention.{attn_decode_masked}
use llama_tov.Resident.Layer.{
  row_at, attend_host, append_host, Config, head_dim, Block, Heads, heads_of, Cache, rope_both,
  project, rope_qk, finish, graph_layer, seed_len, position_layer, eager_layer,
}
use llama_tov.Resident.Plain.{Exact, Certified, plain_heads, plain_layer, Shaped, Held}
use llama_tov.Resident.FinishAgree.{rms_norm_dev-rmsnorm, finish-plain_finish}
use llama_tov.Resident.ProjectAgree.{rope_qk-plain_heads, heads_of-project}

module _ (K : Kernels) (exact : Exact K) (s : Settings) (certified : Certified s)
    (held : Floats K → Floats K) (cfg : Config K) where
  open K use {Num, add, rmsnorm}

  -- the rows in use and their number, as the plain layer has them
  abbrev pub view : Cache K → Device Num
  view c = (seed_len K s held cfg c).dev

  graph_layer-plain_layer :
      (b : Block K) (x : Floats K) (d : Device Num)
      → Held K held b
      → Shaped K cfg b
      → graph_layer K s held cfg b x d ≡ plain_layer K cfg s b x d
  unfolding graph_layer plain_layer
  graph_layer-plain_layer b x d held' shaped =
      let hd = head_dim K cfg in
      let h = rmsnorm s.rms_blockrow cfg.norm_eps x b.attn_norm in
      let grown : Heads K → Device Num =
        λ qkv. appended d (row_at K qkv.1) (row_at K qkv.2) (cfg.n_head_kv * hd) in
      let attended : Heads K → Floats K = λ qkv.
        attn_decode_masked K cfg.n_head cfg.n_head_kv hd (K.inv_sqrt hd) s.kv_max_seq
          (grown qkv).len (row_at K qkv.0) (grown qkv).kbuf (grown qkv).vbuf in
      let step : Heads K → Floats K × Device Num =
        λ qkv. (finish K s held cfg b x (attended qkv), grown qkv) in
      let plain = plain_heads K cfg s b d.len h in
      ap (λ v. step (rope_qk K s held cfg d.len (project K s held cfg b v)))
        (rms_norm_dev-rmsnorm K exact s certified held cfg x b.attn_norm held'.attn_norm)
      ∙ ap step (rope_qk-plain_heads K exact s certified held cfg b h d.len held' shaped)
      ∙ ap (λ o. (o, grown plain))
          (finish-plain_finish K exact s certified held cfg b x (attended plain) held'.ffn_norm
            shaped.gate_up_same)

  position_layer-plain_layer :
      (b : Block K) (x : Floats K) (c : Cache K)
      → Held K held b
      → Shaped K cfg b
      → s.masked_attn ≡ true
      → (let out = position_layer K s held cfg b c.length_host x c in
          ◌≡◌ {A = Floats K × Device Num} (out.0, view out.1) (plain_layer K cfg s b x (view c)))
  unfolding position_layer plain_layer
  position_layer-plain_layer b x c held' shaped masked =
      let h = rmsnorm s.rms_blockrow cfg.norm_eps x b.attn_norm in
      let both = rope_both K s held cfg c.length_host in
      let result : Floats K × Cache K → Floats K × Device Num =
        λ o. (finish K s held cfg b x o.0, view o.1) in
      let step : Heads K → Floats K × Device Num = λ qkv. result (
        attend_host K s held cfg qkv.0
          (append_host K s held cfg c (row_at K qkv.1) (row_at K qkv.2))) in
      let plain = plain_heads K cfg s b c.length_host h in
      ap (λ v. step (both (heads_of K (project K s held cfg b v))))
        (rms_norm_dev-rmsnorm K exact s certified held cfg x b.attn_norm held'.attn_norm)
      ∙ ap (λ qkv. step (both qkv))
          (heads_of-project K exact s certified held cfg b h held' shaped.biases)
      ∙ either_way_under result s.masked_attn
          (λ on.
            ap (λ o. (o, (plain_layer K cfg s b x (view c)).1))
              (finish-plain_finish K exact s certified held cfg b x _ held'.ffn_norm
                shaped.gate_up_same))
          (λ off. absurd (apart (sym masked ∙ off)))
    where
      apart : true ≡ false → ⊥
      apart h = ground arith

  -- With kernels as the file and the emitters state of them (`Exact`), flags as `Certified` wants them, every array on the device under its own pointer and sizes that agree:
  -- whatever the other flags are, a layer gives the residual and extends the cache as the plain layer
  -- does; without _GRAPH_PREP provided that the attention is masked and the position is the length.
  pub eager_layer-plain_layer :
      (b : Block K) (pos : ℕ) (x : Floats K) (c : Cache K)
      → Held K held b
      → Shaped K cfg b
      → (s.graph_prep ≡ true) ⊎ ((s.masked_attn ≡ true) × (pos ≡ c.length_host))
      → (let out = eager_layer K s held cfg b pos x c in
          ◌≡◌ {A = Floats K × Device Num} (out.0, view out.1) (plain_layer K cfg s b x (view c)))
  unfolding eager_layer plain_layer
  eager_layer-plain_layer b pos x c held' shaped path =
      let result : Floats K × Cache K → Floats K × Device Num = λ o. (o.0, view o.1) in
      let longer : Floats K × Device Num → Floats K × Device Num =
        λ o. (o.0, record { kbuf = o.1.kbuf; vbuf = o.1.vbuf; len = c.length_host + 1 }) in
      either_way_under result s.graph_prep
        (λ on. ap longer (graph_layer-plain_layer b x (view c) held' shaped))
        (λ off. elim path [
          | inl on ↦ absurd (apart (sym on ∙ off))
          | inr (masked, at) ↦
              ap (λ (p : ℕ). result (position_layer K s held cfg b p x c)) at
              ∙ position_layer-plain_layer b x c held' shaped masked
        ])
    where
      apart : true ≡ false → ⊥
      apart h = ground arith
