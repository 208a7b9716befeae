-- ===== src/Forward/Iterate.antt =====
-- `generate` against `run`: the tokens that it appends, one `run` after the other.
use llama_tov.Prelude.{
  ℕ, zero, suc, ◌≡◌, refl, sym, ap, ◌∙◌, fun_ext, subst, ◌⊎◌, inl, inr, List, [], ◌∷◌, ◌++◌, length,
  Error, Result, ◌>>=◌, OnOk, Result-cases, ok, err,
}
use llama_tov.Forward.Torch.{TorchOps, MaskLaw}
use llama_tov.Forward.Rows.{Row}
use llama_tov.Forward.Weights.{Arch, Weights, Config}
use llama_tov.Forward.Layers.{Layer, causal_layer, row_at, keys_from, values_from}
use llama_tov.Forward.Fused.{layer_fns}
use llama_tov.Forward.Run.{embed_from, run_layers, pick_token, run}
use llama_tov.Forward.Generate.{generate_fns, generate}
use llama_tov.Forward.Causal.{Causal}
use llama_tov.Forward.Prefix.{causal_layer-append}
use llama_tov.Forward.Architectures.{layer_fns-OnOk}
use llama_tov.Forward.Cached.{all_layers, recompute_token, recompute}
use llama_tov.Forward.Loop.{generate-recompute}
use llama_tov.Forward.Agree.{
  Same, same_ok, same_err, causal_layer_cong, Plain, generate_fns-llama_fns,
}

module _ (T : TorchOps) (w : Weights T) (cfg : Config T) where
  -- `run` on all tokens so far, `n` times
  abbrev pub iterate_run : ℕ → List ℕ → Result (List ℕ)
  iterate_run zero tokens = ok tokens
  iterate_run (suc n) tokens = do t ← run T w cfg tokens; iterate_run n (tokens ++ (t ∷ []))

  -- Layers that agree, and what follows them.
  pub Same-bind :
      {r s : Result (Layer T)} (xs : List (Row T)) (next : List (Row T) → Result (List (Row T)))
      → Same T r s
      → (r >>= λ f. next (causal_layer T f xs)) ≡ (s >>= λ f. next (causal_layer T f xs))
  Same-bind xs next (same_ok a) = ap next (causal_layer_cong T a xs)
  Same-bind xs next same_err = refl

  module _ (plain : Plain T w cfg) where
    pub generate_fns-layer_fns :
        (il : ℕ) → Same T (generate_fns T w il cfg) (layer_fns T w il cfg cfg.arch)
    unfolding layer_fns
    generate_fns-layer_fns il =
        let same = generate_fns-llama_fns T w il cfg plain in
        elim plain.llama_arch [
          | inl e ↦
              subst (λ (a : Arch). Same T (generate_fns T w il cfg) (layer_fns T w il cfg a))
                (sym e) same
          | inr e ↦
              subst (λ (a : Arch). Same T (generate_fns T w il cfg) (layer_fns T w il cfg a))
                (sym e) same
        ]

    pub all_layers-run_layers :
        (n il : ℕ) (xs : List (Row T)) → all_layers T w cfg n il xs ≡ run_layers T w cfg n il xs
    all_layers-run_layers zero il xs = refl
    all_layers-run_layers (suc n) il xs =
        Same-bind xs (all_layers T w cfg n (suc il)) (generate_fns-layer_fns il)
        ∙ ap (λ k. layer_fns T w il cfg cfg.arch >>= λ f. k (causal_layer T f xs))
            (fun_ext (all_layers-run_layers n (suc il)))

    pub recompute_token-run : (ts : List ℕ) → recompute_token T w cfg ts ≡ run T w cfg ts
    unfolding run
    recompute_token-run ts =
        ap (λ k. embed_from T w cfg 0 ts >>= λ xs. k xs >>= pick_token T w cfg)
          (fun_ext (all_layers-run_layers cfg.n_layers 0))

    pub recompute-iterate_run : (n : ℕ) (ts : List ℕ) → recompute T w cfg n ts ≡ iterate_run n ts
    recompute-iterate_run zero ts = refl
    recompute-iterate_run (suc n) ts =
        ap (λ r. r >>= λ t. recompute T w cfg n (ts ++ (t ∷ []))) (recompute_token-run ts)
        ∙ ap (λ k. run T w cfg ts >>= λ t. k (ts ++ (t ∷ []))) (fun_ext (recompute-iterate_run n))

    -- Under the mask law, for a model of llama's architecture or one that `LAYER_FN` does not name,
    -- without query biases, norms of heads, output biases and routers: `generate` gives the tokens, or
    -- the exception, of as many `run`s, each on the prompt and the tokens so far.
    pub generate-run :
        (law : MaskLaw T) (n : ℕ) (ts : List ℕ) → generate T w cfg n ts ≡ iterate_run n ts
    generate-run law n ts = generate-recompute T w cfg law n ts ∙ recompute-iterate_run n ts

  -- the rows of a prefix, and those of a row more; or one exception for both
  abbrev pub Prefixes : ℕ → ℕ → List (Row T) → Row T → Type 0
  Prefixes n il xs x =
      ((ys : List (Row T)) × (y : Row T) × (run_layers T w cfg n il xs ≡ ok ys)
        × (run_layers T w cfg n il (xs ++ (x ∷ [])) ≡ ok (ys ++ (y ∷ []))))
      ⊎ ((e : Error) × (run_layers T w cfg n il xs ≡ err e)
          × (run_layers T w cfg n il (xs ++ (x ∷ [])) ≡ err e))

  -- Under the mask law, for every architecture of `LAYER_FN`: a row more at the end of the input of
  -- `run`'s layers adds one row to what they give and changes none of the others, or both inputs
  -- raise the same exception.
  pub run_layers-append :
      (law : MaskLaw T) (n il : ℕ) (xs : List (Row T)) (x : Row T) → Prefixes n il xs x
  run_layers-append law zero il xs x = inl (xs, x, refl, refl)
  run_layers-append law (suc n) il xs x = elim (Result-cases (layer_fns T w il cfg cfg.arch)) [
    | inr (e, a) ↦ inr (e, rw a refl, rw a refl)
    | inl (f, a) ↦
        let causal : Causal T f =
          subst (OnOk (Causal T)) a (layer_fns-OnOk T law w il cfg cfg.arch) in
        let more = causal_layer-append T f causal xs x in
        let y1 =
          row_at T f (length xs) x (keys_from T f 0 (xs ++ (x ∷ [])))
            (values_from T f 0 (xs ++ (x ∷ []))) in
        elim (run_layers-append law n (suc il) (causal_layer T f xs) y1) [
          | inr (e, left, right) ↦ inr (e, rw (a, left) refl, rw (a, more, right) refl)
          | inl (ys, y, left, right) ↦ inl (ys, y, rw (a, left) refl, rw (a, more, right) refl)
        ]
  ]
