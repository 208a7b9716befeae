-- ===== src/Forward/Cached.antt =====
-- The caches that `generate` keeps against the passes that they stand for: `recompute` runs every
-- layer on all rows at each step and keeps nothing.
use llama_tov.Prelude.{
  ℕ, zero, suc, ◌≡◌, refl, ap, ◌⊎◌, inl, inr, none, List, [], ◌∷◌, ◌++◌, length, replicate, Error,
  Result, ◌>>=◌, Result-cases, ok, err,
}
use llama_tov.Forward.Torch.{TorchOps}
use llama_tov.Forward.Rows.{Row}
use llama_tov.Forward.Weights.{Weights, Config}
use llama_tov.Forward.Layers.{Layer, causal_layer}
use llama_tov.Forward.Run.{embed_from, pick_token}
use llama_tov.Forward.Generate.{generate_fns, Cache, step_layers}
use llama_tov.Forward.Prefix.{cache_of, layer_step-none}

module _ (T : TorchOps) (w : Weights T) (cfg : Config T) where
  -- the layers from `il` on, `n` of them, on all rows
  abbrev pub all_layers : ℕ → ℕ → List (Row T) → Result (List (Row T))
  all_layers zero il xs = ok xs
  all_layers (suc n) il xs = do
    f ← generate_fns T w il cfg
    all_layers n (suc il) (causal_layer T f xs)

  -- the next token, from all tokens
  abbrev pub recompute_token : List ℕ → Result ℕ
  recompute_token tokens = do
    xs ← embed_from T w cfg 0 tokens
    ys ← all_layers cfg.n_layers 0 xs
    pick_token T w cfg ys

  -- generation without a cache
  abbrev pub recompute : ℕ → List ℕ → Result (List ℕ)
  recompute zero tokens = ok tokens
  recompute (suc n) tokens = do t ← recompute_token tokens; recompute n (tokens ++ (t ∷ []))

  -- The layers from `il` on take the rows `xs` to `ys`, and their caches hold what they saw.
  pub data Passed : ℕ → List (Row T) → List (Row T) → List (Cache T) → Type 0 where
    done : {il : ℕ} {xs : List (Row T)} → Passed il xs xs []
    next :
        {il : ℕ} {xs ys : List (Row T)} {cs : List (Cache T)} (f : Layer T)
        → generate_fns T w il cfg ≡ ok f
        → Passed (suc il) (causal_layer T f xs) ys cs
        → Passed il xs ys (cache_of T f xs ∷ cs)

  pub all_layers-Passed :
      {il : ℕ} {xs ys : List (Row T)} {cs : List (Cache T)}
      → Passed il xs ys cs
      → all_layers (length cs) il xs ≡ ok ys
  all_layers-Passed done = refl
  all_layers-Passed (next f e rest) = rw e (all_layers-Passed rest)

  -- what the first step does, when every lookup succeeds and when one fails
  abbrev pub Prefilled : ℕ → ℕ → List (Row T) → Type 0
  Prefilled n il xs =
      ((ys : List (Row T)) × (cs : List (Cache T)) × (length cs ≡ n)
        × Passed il xs ys cs
        × (step_layers T w cfg il 0 xs (replicate n none) ≡ ok (ys, cs)))
      ⊎ ((e : Error) × (all_layers n il xs ≡ err e)
          × (step_layers T w cfg il 0 xs (replicate n none) ≡ err e))

  pub prefill_lem : (n il : ℕ) (xs : List (Row T)) → Prefilled n il xs
  prefill_lem zero il xs = inl (xs, [], refl, done, refl)
  prefill_lem (suc n) il xs = elim (Result-cases (generate_fns T w il cfg)) [
    | inl (f, e) ↦ elim (prefill_lem n (suc il) (causal_layer T f xs)) [
      | inl (ys, cs, len, passed, step) ↦ inl (
        ys,
        cache_of T f xs ∷ cs,
        ap suc len,
        next f e passed,
        rw (e, layer_step-none T f xs, step) refl,
      )
      | inr (error, all, step) ↦
          inr (error, rw (e, all) refl, rw (e, layer_step-none T f xs, step) refl)
    ]
    | inr (error, e) ↦ inr (error, rw e refl, rw e refl)
  ]
