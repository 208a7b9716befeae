-- ===== src/Resident/Argmax.antt =====
-- The argmax kernels that bpd/lib/dev_residency.py holds as text, `argmax_dev`, and
-- `GraphRunner.replay_token`. A candidate is a float with its index; the seed's index is the greatest
-- `int`. The index arithmetic is that of ℕ: `n + nblocks - 1` has to fit an `int`.
use llama_tov.Prelude.{
  ℕ, ◌+◌, ◌-◌, ◌*◌, ◌/◌, Bool, ◌&&◌, ◌||◌, none, some, List, ◌∷◌, ltb, if◌then◌else◌, length,
  get_or, Result, guard, ◌>>=◌, assertion_error, ok, err,
}
use llama_tov.Resident.Kernels.{Kernels}
use llama_tov.Resident.Quantize.{Floats}
use llama_tov.Resident.Attention.{frozen, strided, tree}
use llama_tov.Resident.Settings.{settings_of}
use llama_tov.Resident.Layer.{Tensors, Config}
use llama_tov.Resident.Forward.{embed, head_logits}
use llama_tov.Resident.Graph.{Runner, run_graph}
use llama_tov.Residency.DevLength.{Device}
use llama_tov.Residency.Profile.{Globals}

-- the comparisons of floats, and `-3.4e38f`
pub record Comparisons (Num : Type 0) : Type 0 where
  pub gt : Num → Num → Bool
  pub eq : Num → Num → Bool
  pub lowest : Num

-- the halves of a block of 256 threads
abbrev pub block_halves : List ℕ
block_halves = 128 ∷ 64 ∷ frozen

abbrev pub int_max : ℕ
int_max = 2147483647

module _ {Num : Type 0} (C : Comparisons Num) where
  abbrev pub seed_candidate : Num × ℕ
  seed_candidate = (C.lowest, int_max)

  -- the better one of two candidates
  abbrev pub pick : Num × ℕ → Num × ℕ → Num × ℕ
  pick best new = if C.gt new.0 best.0 || (C.eq new.0 best.0 && ltb new.1 best.1) then new else best

  -- `sval[0]` and `sidx[0]` of a block whose thread `t` begins at `lo + t`
  abbrev pub block_best : (ℕ → Num × ℕ) → ℕ → ℕ → Num × ℕ
  block_best f lo hi =
      tree pick block_halves (λ t. strided pick f 256 hi hi (lo + t) seed_candidate)

  abbrev pub logit_at : (ℕ → Num) → ℕ → Num × ℕ
  logit_at x i = (x i, i)

  -- `k_argmax`
  abbrev pub k_argmax : (ℕ → Num) → ℕ → ℕ
  k_argmax x n = (block_best (logit_at x) 0 n).1

  -- `k_argmax_s1`: what block `b` writes
  abbrev pub k_argmax_s1 : (ℕ → Num) → ℕ → ℕ → ℕ → Num × ℕ
  k_argmax_s1 x n nblocks b =
      let chunk = (n + nblocks - 1) / nblocks in
      let lo = b * chunk in
      let hi = if ltb n (lo + chunk) then n else lo + chunk in block_best (logit_at x) lo hi

  -- `k_argmax_s2` on the values and the indices of the blocks
  abbrev pub k_argmax_s2 : (ℕ → Num × ℕ) → ℕ → ℕ
  k_argmax_s2 partials nblocks = (block_best partials 0 nblocks).1

  -- `argmax_dev`: the flag is _ARGMAX2
  unfoldable pub argmax_dev : Bool → (ℕ → Num) → ℕ → Result ℕ
  argmax_dev two_stage x n = do
    _ ← guard (ltb 0 n) assertion_error
    ok (if two_stage then k_argmax_s2 (k_argmax_s1 x n 256) 256 else k_argmax x n)

module _ (K : Kernels) (C : Comparisons K.Num) (two_stage rms_quant_fused : Bool) (g : Globals)
    (held : Floats K → Floats K) (w : Tensors K) (cfg : Config K) (fresh : Device K.Num) where
  -- `replay_token`: the logits stay on the device
  unfoldable pub replay_token : ℕ → Runner K → Result (ℕ × Runner K)
  replay_token tok r = elim r.captured [
    | none ↦ err assertion_error
    | some graph ↦ elim graph.head [
      | none ↦ err assertion_error
      | some head ↦ (do
        x ← embed K w tok
        let s = settings_of rms_quant_fused g
        let out = run_graph K s held cfg graph.blocks x r.kv
        let logits = head_logits K s held w cfg fresh head out.0
        idx ← argmax_dev C two_stage (λ i. get_or logits i K.zero_num) (length logits)
        ok (
          idx,
          record {
            kv = out.1;
            captured = r.captured;
            frozen = r.frozen;
            weight_keys = r.weight_keys;
          },
        ))
    ]
  ]
