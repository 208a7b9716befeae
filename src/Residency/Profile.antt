-- ===== src/Residency/Profile.antt =====
-- The named profile and its gate: `apply_production_profile`, `attest_profile` and
-- `assert_certified_composition` of bpd/lib/dev_residency.py. The module's globals are a map from the
-- flags that the profile names to their values; a flag that was never set is None.
use llama_tov.Prelude.{
  ℕ, Bool, true, false, not, ◌&&◌, ◌||◌, List, [], ◌∷◌, map, ◌==◌, if◌then◌else◌, Result, guard,
  runtime_error, ok,
}

-- the keys of PRODUCTION_PROFILE, without the underscore
pub data Flag : Type 0 where
  device_kv_cache device_attn masked_attn graph_prep kv_max_seq attn_split_k device_logits qfused
        gemv_tiled_v4_qfused :
      Flag
  kv_quant_q8 addres_fused bias_fold rms_blockrow gemv_tiled gemv_tiled_v4 gemv_tiled_bm quant_par
        argmax2 :
      Flag
  fuse_qkv fuse_gateup append_kv_fused append_incr_fused resid_carry_fused rope_qk_fused
        silu_quant_fused :
      Flag

pub data Setting : Type 0 where
  switch : Bool → Setting
  size : ℕ → Setting
  unset : Setting

abbrev pub number : Flag → ℕ
number device_kv_cache = 0
number device_attn = 1
number masked_attn = 2
number graph_prep = 3
number kv_max_seq = 4
number attn_split_k = 5
number device_logits = 6
number qfused = 7
number gemv_tiled_v4_qfused = 8
number kv_quant_q8 = 9
number addres_fused = 10
number bias_fold = 11
number rms_blockrow = 12
number gemv_tiled = 13
number gemv_tiled_v4 = 14
number gemv_tiled_bm = 15
number quant_par = 16
number argmax2 = 17
number fuse_qkv = 18
number fuse_gateup = 19
number append_kv_fused = 20
number append_incr_fused = 21
number resid_carry_fused = 22
number rope_qk_fused = 23
number silu_quant_fused = 24

pub record Globals : Type 0 where
  pub value : Flag → Setting
  pub slab_enabled : Bool

-- PRODUCTION_PROFILE
abbrev pub production_profile : List (Flag × Setting)
production_profile =
    (device_kv_cache, switch true)
    ∷ (device_attn, switch true)
    ∷ (masked_attn, switch true)
    ∷ (graph_prep, switch true)
    ∷ (kv_max_seq, size 256)
    ∷ (attn_split_k, switch false)
    ∷ (device_logits, switch true)
    ∷ (qfused, switch false)
    ∷ (gemv_tiled_v4_qfused, switch false)
    ∷ (kv_quant_q8, switch false)
    ∷ (addres_fused, switch true)
    ∷ (bias_fold, switch true)
    ∷ (rms_blockrow, switch true)
    ∷ (gemv_tiled, switch true)
    ∷ (gemv_tiled_v4, switch true)
    ∷ (gemv_tiled_bm, size 16)
    ∷ (quant_par, switch true)
    ∷ (argmax2, switch true)
    ∷ (fuse_qkv, switch true)
    ∷ (fuse_gateup, switch true)
    ∷ (append_kv_fused, switch true)
    ∷ (append_incr_fused, switch true)
    ∷ (resid_carry_fused, switch true)
    ∷ (rope_qk_fused, switch true)
    ∷ (silu_quant_fused, switch true)
    ∷ []

-- `g[k] = v`
abbrev pub set_global : (Flag → Setting) → Flag → Setting → Flag → Setting
set_global g k v f = if number k == number f then v else g f

-- `for k, v in PRODUCTION_PROFILE.items(): g[k] = v`
abbrev pub set_all : List (Flag × Setting) → (Flag → Setting) → Flag → Setting
set_all [] g = g
set_all ((k, v) ∷ rows) g = set_all rows (set_global g k v)

unfoldable pub apply_production_profile : Globals → Globals
apply_production_profile g = record {
  value = set_all production_profile g.value;
  slab_enabled = true;
}

-- `attest_profile`: a live dictionary of the profile's flags, and the slab's flag
unfoldable pub attest_profile : Globals → List (Flag × Setting) × Bool
attest_profile g = (map (λ row. (row.0, g.value row.0)) production_profile, g.slab_enabled)

-- `f.get(k)`
abbrev pub lookup : List (Flag × Setting) → Flag → Setting
lookup [] f = unset
lookup ((k, v) ∷ rows) f = if number k == number f then v else lookup rows f

-- Python's truth of a value
abbrev pub truthy : Setting → Bool
truthy (switch b) = b
truthy (size n) = not (n == 0)
truthy unset = false

-- the one entry of _UNCERTIFIED_COMPOSITIONS
abbrev pub fires : List (Flag × Setting) → Bool
fires f =
    truthy (lookup f qfused)
    && (truthy (lookup f bias_fold)
        || truthy (lookup f append_kv_fused)
        || truthy (lookup f append_incr_fused))

-- `assert_certified_composition`; `gate` is _GATE_COMPOSITIONS
unfoldable pub assert_certified_composition : Bool → Globals → Result (Unit {0})
unfolding attest_profile
assert_certified_composition gate g =
    if not gate then ok tt else guard (not (fires (attest_profile g).0)) runtime_error
