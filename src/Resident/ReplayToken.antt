-- ===== src/Resident/ReplayToken.antt =====
-- `replay_token` against `replay_logits`, both of `GraphRunner` in bpd/lib/dev_residency.py.
use llama_tov.Prelude.{
  ℕ, ◌+◌, ◌≤◌, ◌<◌, ◌≡◌, refl, ap, ◌∙◌, inl, inr, Bool, false, some, List, length, get_or, Result,
  ◌>>=◌, Result-cases, ok,
}
use llama_tov.Residency.DevLength.{Device}
use llama_tov.Residency.Profile.{Globals}
use llama_tov.Resident.Kernels.{Kernels}
use llama_tov.Resident.Quantize.{Floats}
use llama_tov.Resident.Layer.{Block, Tensors, Config}
use llama_tov.Resident.Forward.{embed}
use llama_tov.Resident.Graph.{Runner, replay_logits}
use llama_tov.Resident.Argmax.{Comparisons, int_max, argmax_dev, replay_token}
use llama_tov.Resident.ArgmaxAgree.{ComparisonLaws, IsFirstMax, argmax_dev-IsFirstMax}

module _ (K : Kernels) (C : Comparisons K.Num) (laws : ComparisonLaws C)
    (two_stage gate rms_quant_fused : Bool) (g : Globals) (held : Floats K → Floats K)
    (w : Tensors K) (cfg : Config K) (fresh : Device K.Num) (keys : List ℕ) (n_ffn : ℕ)
    (shapes : List (ℕ × ℕ)) where
  -- a logit, as the kernel reads it
  abbrev pub logit : Floats K → ℕ → K.Num
  logit logits i = get_or logits i K.zero_num

  abbrev pub with_index : Floats K × Runner K → Result (ℕ × Runner K)
  with_index out = do idx ← argmax_dev C two_stage (logit out.0) (length out.0); ok (idx, out.1)

  -- the argmax behind `replay_logits`
  replay_token-bind :
      (tok : ℕ) (r : Runner K) (bs : List (Block K)) (head : Floats K × List (Floats K))
      → r.captured ≡ some (record { blocks = bs; head = some head })
      → replay_token K C two_stage rms_quant_fused g held w cfg fresh tok r ≡ (
          replay_logits K gate rms_quant_fused g held w cfg fresh keys n_ffn shapes tok r
          >>= with_index)
  unfolding replay_logits replay_token
  replay_token-bind tok r bs head captured = rw captured (elim (Result-cases (embed K w tok)) [
    | inl (x, found) ↦ rw found refl
    | inr (e, missing) ↦ rw missing refl
  ])

  -- Where a graph with the logits in it was captured and `replay_logits` returns logits, at least one of
  -- them not below -3.4e38, no NaN among them, and as many as fit an `int` with 255 more: `replay_token`
  -- returns the first index of a greatest one, and leaves the runner as `replay_logits` leaves it,
  -- whatever _ARGMAX2 is.
  pub replay_token-replay_logits :
      (tok : ℕ) (r r' : Runner K) (bs : List (Block K)) (head : Floats K × List (Floats K))
      (logits : Floats K) (j : ℕ)
      → r.captured ≡ some (record { blocks = bs; head = some head })
      → replay_logits K gate rms_quant_fused g held w cfg fresh keys n_ffn shapes tok r
        ≡ ok (logits, r')
      → length logits + 255 ≤ int_max
      → j < length logits
      → C.gt C.lowest (logit logits j) ≡ false
      → (i : ℕ) × (replay_token K C two_stage rms_quant_fused g held w cfg fresh tok r ≡ ok (i, r'))
        × IsFirstMax C (logit logits) (length logits) i
  replay_token-replay_logits tok r r' bs head logits j captured replayed fits lt high =
      let (i, chosen, first) =
        argmax_dev-IsFirstMax C laws two_stage (logit logits) (length logits) j fits lt high in
      (
        i,
        replay_token-bind tok r bs head captured
            ∙ ap (λ m. m >>= with_index) replayed
            ∙ ap (λ m. m >>= (λ idx. ok (idx, r'))) chosen,
        first,
      )
