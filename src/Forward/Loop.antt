-- ===== src/Forward/Loop.antt =====
-- The loop of `generate`, step by step, against the recomputation of all rows at each step.
use llama_tov.Prelude.{
  ℕ, zero, suc, ◌≡◌, refl, ap, ◌∙◌, subst, ◌⊎◌, inl, inr, none, List, [], ◌∷◌, ◌++◌, arith, length,
  replicate, Error, OnOk, Result-cases, ok, err,
}
use llama_tov.Forward.Torch.{TorchOps, MaskLaw}
use llama_tov.Forward.Rows.{Row}
use llama_tov.Forward.Weights.{Weights, Config}
use llama_tov.Forward.Run.{embed_token, embed_from, pick_token}
use llama_tov.Forward.Generate.{
  Cache, step_layers, last_token, generate_step, generate_from, generate,
}
use llama_tov.Forward.Cached.{
  all_layers, recompute_token, recompute, Passed, all_layers-Passed, prefill_lem,
}
use llama_tov.Forward.Decode.{
  last_token-append, pick_token-append, embed_from-append, length-embed_from, step_layers-Passed,
}

module _ (T : TorchOps) (w : Weights T) (cfg : Config T) where
  module _ (law : MaskLaw T) where
    -- what a step leaves: a token and the caches of all rows, or an exception
    abbrev pub Stepped : ℕ → List ℕ → List (Cache T) → Type 0
    Stepped step ts cs =
        ((token : ℕ) × (xs : List (Row T)) × (ys : List (Row T)) × (cs' : List (Cache T))
          × (embed_from T w cfg 0 ts ≡ ok xs)
          × (length cs' ≡ cfg.n_layers)
          × Passed T w cfg 0 xs ys cs'
          × (generate_step T w cfg step ts cs ≡ ok (token, cs'))
          × (recompute_token T w cfg ts ≡ ok token))
        ⊎ ((e : Error) × (generate_step T w cfg step ts cs ≡ err e)
            × (recompute_token T w cfg ts ≡ err e))

    pub all_layers_n :
        {xs ys : List (Row T)} {cs : List (Cache T)}
        → length cs ≡ cfg.n_layers
        → Passed T w cfg 0 xs ys cs
        → all_layers T w cfg cfg.n_layers 0 xs ≡ ok ys
    all_layers_n {xs} {ys} len passed =
        subst (λ (n : ℕ). all_layers T w cfg n 0 xs ≡ ok ys) len (all_layers-Passed T w cfg passed)

    pub first_step-Stepped : (ts : List ℕ) → Stepped 0 ts (replicate cfg.n_layers none)
    unfolding generate_step
    first_step-Stepped ts = elim (Result-cases (embed_from T w cfg 0 ts)) [
      | inr (e, em) ↦ inr (e, rw em refl, rw em refl)
      | inl (xs, em) ↦ elim (prefill_lem T w cfg cfg.n_layers 0 xs) [
        | inr (e, all, step) ↦ inr (e, rw (em, step) refl, rw (em, all) refl)
        | inl (ys, cs, len, passed, step) ↦ elim (Result-cases (pick_token T w cfg ys)) [
          | inr (e, pick) ↦
              inr (e, rw (em, step, pick) refl, rw (em, all_layers_n len passed, pick) refl)
          | inl (token, pick) ↦ inl (
            token,
            xs,
            ys,
            cs,
            em,
            len,
            passed,
            rw (em, step, pick) refl,
            rw (em, all_layers_n len passed, pick) refl,
          )
        ]
      ]
    ]

    pub later_step-Stepped :
        (step : ℕ) (ts : List ℕ) (t : ℕ) {xs ys : List (Row T)} (cs : List (Cache T))
        → embed_from T w cfg 0 ts ≡ ok xs
        → length cs ≡ cfg.n_layers
        → Passed T w cfg 0 xs ys cs
        → Stepped (suc step) (ts ++ (t ∷ [])) cs
    unfolding generate_step
    later_step-Stepped step ts t {xs} {ys} cs em len passed =
        let at : last_token T w cfg 0 (ts ++ (t ∷ [])) ≡ (length ts, t ∷ []) =
          last_token-append T w cfg 0 ts t ∙ ap (λ (n : ℕ). (n, t ∷ [])) (omega arith) in
        let both = embed_from-append T w cfg 0 (length ts) ts t (omega arith) in
        let n : length xs ≡ length ts =
          subst (OnOk (λ xs. length xs ≡ length ts)) em (length-embed_from T w cfg 0 ts) in
        elim (Result-cases (embed_token T w cfg (length ts) t)) [
          | inr (e, one) ↦ inr (e, rw (at, one) refl, rw (both, em, one) refl)
          | inl (x, one) ↦
              let (y, cs', len', passed', step1) = step_layers-Passed T w cfg law x passed in
              let step' =
                subst (λ (n : ℕ). step_layers T w cfg 0 n (x ∷ []) cs ≡ ok (y ∷ [], cs')) n step1 in
              let all = all_layers_n (len' ∙ len) passed' in
              let pick_last = pick_token-append T w cfg ys y in
              let em' : embed_from T w cfg 0 (ts ++ (t ∷ [])) ≡ ok (xs ++ (x ∷ [])) =
                rw (both, em, one) refl in
              elim (Result-cases (pick_token T w cfg (y ∷ []))) [
                | inr (e, pick) ↦
                    inr (e, rw (at, one, step', pick) refl, rw (em', all, pick_last, pick) refl)
                | inl (token, pick) ↦ inl (
                  token,
                  xs ++ (x ∷ []),
                  ys ++ (y ∷ []),
                  cs',
                  em',
                  len' ∙ len,
                  passed',
                  rw (at, one, step', pick) refl,
                  rw (em', all, pick_last, pick) refl,
                )
              ]
        ]

    -- From the caches of all tokens but the last, the loop goes on as the recomputation does.
    pub generate_from-recompute :
        (n step : ℕ) (ts : List ℕ) (t : ℕ) {xs ys : List (Row T)} (cs : List (Cache T))
        → embed_from T w cfg 0 ts ≡ ok xs
        → length cs ≡ cfg.n_layers
        → Passed T w cfg 0 xs ys cs
        → generate_from T w cfg n (suc step) (ts ++ (t ∷ [])) cs
          ≡ recompute T w cfg n (ts ++ (t ∷ []))
    generate_from-recompute zero step ts t cs em len passed = refl
    generate_from-recompute (suc n) step ts t {xs} {ys} cs em len passed =
        elim (later_step-Stepped step ts t cs em len passed) [
          | inr (e, left, right) ↦ rw (left, right) refl
          | inl (token, xs', ys', cs', em', len', passed', left, right) ↦
              rw (left, right)
                (generate_from-recompute n (suc step) (ts ++ (t ∷ [])) token cs' em' len' passed')
        ]

    -- Under the mask law (a score of minus infinity at the end weighs nothing), for every model, number
    -- of tokens and prompt: `generate` with its key and value caches gives the tokens, or the
    -- exception, that it gives when every layer runs on all rows again at every step.
    pub generate-recompute : (n : ℕ) (ts : List ℕ) → generate T w cfg n ts ≡ recompute T w cfg n ts
    unfolding generate
    generate-recompute zero ts = refl
    generate-recompute (suc n) ts = elim (first_step-Stepped ts) [
      | inr (e, left, right) ↦ rw (left, right) refl
      | inl (token, xs, ys, cs, em, len, passed, left, right) ↦
          rw (left, right) (generate_from-recompute n 0 ts token cs em len passed)
    ]
