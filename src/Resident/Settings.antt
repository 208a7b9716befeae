-- ===== src/Resident/Settings.antt =====
-- The module flags of bpd/lib/dev_residency.py that choose a path of `forward_pass_resident`. The path
-- that is modelled has _DEVICE_ATTN and _DEVICE_KV_CACHE on and no host operation for bisection.
use llama_tov.Prelude.{ℕ, Bool, true, false}
use llama_tov.Residency.Profile.{
  Setting, switch, size, unset, Globals, truthy, masked_attn, graph_prep, kv_max_seq, device_logits,
  qfused, gemv_tiled_v4_qfused, kv_quant_q8, addres_fused, bias_fold, rms_blockrow, gemv_tiled,
  gemv_tiled_v4, gemv_tiled_bm, quant_par, fuse_qkv, fuse_gateup, rope_qk_fused, silu_quant_fused,
}
use llama_tov.Resident.Kernels.{Gemv, dp4a, tiled, tiled_v4}

pub record Settings : Type 0 where
  pub fuse_qkv : Bool
  pub fuse_gateup : Bool
  pub kv_quant_q8 : Bool
  pub graph_prep : Bool
  pub rope_qk_fused : Bool
  pub addres_fused : Bool
  pub bias_fold : Bool
  pub rms_quant_fused : Bool
  pub silu_quant_fused : Bool
  pub masked_attn : Bool
  pub qfused : Bool
  pub gemv_tiled : Bool
  pub gemv_tiled_v4 : Bool
  pub gemv_tiled_v4_qfused : Bool
  pub quant_par : Bool
  pub rms_blockrow : Bool
  pub device_logits : Bool
  pub gemv_tiled_bm : ℕ
  pub kv_max_seq : ℕ

-- `_tiled_emit_args`, and the mode without tiles
abbrev pub gemv_mode : Settings → Gemv
gemv_mode s = choose s.gemv_tiled s.gemv_tiled_v4 s.gemv_tiled_bm
  where
    choose : Bool → Bool → ℕ → Gemv
    choose false v4 bm = dp4a
    choose true true bm = tiled_v4 bm
    choose true false bm = tiled bm

abbrev pub size_of : Setting → ℕ
size_of (size n) = n
size_of (switch b) = 0
size_of unset = 0

-- the module's globals; _RMS_QUANT_FUSED is the one flag that the named profile leaves out
unfoldable pub settings_of : Bool → Globals → Settings
settings_of rms_quant_fused g = record {
  fuse_qkv = truthy (g.value fuse_qkv);
  fuse_gateup = truthy (g.value fuse_gateup);
  kv_quant_q8 = truthy (g.value kv_quant_q8);
  graph_prep = truthy (g.value graph_prep);
  rope_qk_fused = truthy (g.value rope_qk_fused);
  addres_fused = truthy (g.value addres_fused);
  bias_fold = truthy (g.value bias_fold);
  silu_quant_fused = truthy (g.value silu_quant_fused);
  masked_attn = truthy (g.value masked_attn);
  qfused = truthy (g.value qfused);
  gemv_tiled = truthy (g.value gemv_tiled);
  gemv_tiled_v4 = truthy (g.value gemv_tiled_v4);
  gemv_tiled_v4_qfused = truthy (g.value gemv_tiled_v4_qfused);
  quant_par = truthy (g.value quant_par);
  rms_blockrow = truthy (g.value rms_blockrow);
  device_logits = truthy (g.value device_logits);
  rms_quant_fused = rms_quant_fused;
  gemv_tiled_bm = size_of (g.value gemv_tiled_bm);
  kv_max_seq = size_of (g.value kv_max_seq);
}
