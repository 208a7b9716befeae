-- ===== src/Forward/Decode.antt =====
-- A step of `generate` after the first: one row through the cached layers, and the whole loop.
use llama_tov.Prelude.{
  ℕ, suc, ◌+◌, ◌≡◌, refl, ap, ◌∙◌, subst, inl, inr, List, [], ◌∷◌, ◌++◌, arith, length, ◌>>=◌, OnOk,
  bind-OnOk, Result-cases, chain-OnOk, ok,
}
use llama_tov.Forward.Torch.{TorchOps, MaskLaw}
use llama_tov.Forward.Rows.{Row}
use llama_tov.Forward.Weights.{Weights, Config}
use llama_tov.Forward.Layers.{row_at, keys_from, values_from}
use llama_tov.Forward.Run.{embed_token, embed_from, last_row, pick_token}
use llama_tov.Forward.Generate.{Cache, step_layers, last_token}
use llama_tov.Forward.Causal.{Causal}
use llama_tov.Forward.Prefix.{
  length-causal_layer, causal_layer-append, cache_of, layer_step-cache_of,
}
use llama_tov.Forward.Architectures.{generate_fns-OnOk}
use llama_tov.Forward.Cached.{Passed, done, next}

module _ (T : TorchOps) (w : Weights T) (cfg : Config T) where
  pub last_token-append :
      (p : ℕ) (ts : List ℕ) (t : ℕ)
      → last_token T w cfg p (ts ++ (t ∷ [])) ≡ (p + length ts, t ∷ [])
  last_token-append p [] t = ap (λ (n : ℕ). (n, t ∷ [])) (omega arith)
  last_token-append p (u ∷ []) t = ap (λ (n : ℕ). (n, t ∷ [])) (omega arith)
  last_token-append p (u ∷ v ∷ ts) t =
      last_token-append (suc p) (v ∷ ts) t ∙ ap (λ (n : ℕ). (n, t ∷ [])) (omega arith)

  pub last_row-append : (xs : List (Row T)) (x : Row T) → last_row T w cfg (xs ++ (x ∷ [])) ≡ ok x
  last_row-append [] x = refl
  last_row-append (y ∷ []) x = refl
  last_row-append (y ∷ z ∷ xs) x = last_row-append (z ∷ xs) x

  -- The last row alone gives the token.
  pub pick_token-append :
      (xs : List (Row T)) (x : Row T)
      → pick_token T w cfg (xs ++ (x ∷ [])) ≡ pick_token T w cfg (x ∷ [])
  unfolding pick_token
  pick_token-append xs x = rw (last_row-append xs x) refl

  -- the rows of the tokens so far, and the row of one more
  pub embed_from-append :
      (p n : ℕ) (ts : List ℕ) (t : ℕ)
      → p + length ts ≡ n
      → embed_from T w cfg p (ts ++ (t ∷ []))
        ≡ (do xs ← embed_from T w cfg p ts; x ← embed_token T w cfg n t; ok (xs ++ (x ∷ [])))
  embed_from-append p n [] t e =
      let e' : p ≡ n = omega arith in
      ap (λ (m : ℕ). embed_token T w cfg m t >>= λ x. ok (x ∷ [])) e'
  embed_from-append p n (u ∷ ts) t e =
      let ih = embed_from-append (suc p) n ts t (omega arith) in
      elim (Result-cases (embed_token T w cfg p u)) [
        | inr (error, a) ↦ rw a refl
        | inl (x, a) ↦ elim (Result-cases (embed_from T w cfg (suc p) ts)) [
          | inr (error, b) ↦ rw (a, ih, b) refl
          | inl (xs, b) ↦ elim (Result-cases (embed_token T w cfg n t)) [
            | inr (error, c) ↦ rw (a, ih, b, c) refl
            | inl (y, c) ↦ rw (a, ih, b, c) refl
          ]
        ]
      ]

  pub length-embed_from :
      (p : ℕ) (ts : List ℕ) → OnOk (λ xs. length xs ≡ length ts) (embed_from T w cfg p ts)
  length-embed_from p [] = refl
  length-embed_from p (t ∷ ts) =
      bind-OnOk (λ xs. length xs ≡ suc (length ts)) (embed_token T w cfg p t) _
        λ x.
          chain-OnOk (λ xs. length xs ≡ length ts) (λ xs. length xs ≡ suc (length ts))
            (embed_from T w cfg (suc p) ts) _ (length-embed_from (suc p) ts) λ xs e. ap suc e

  module _ (law : MaskLaw T) where
    -- what a step does with one row, from the caches of the rows before
    abbrev pub Extended : ℕ → List (Row T) → Row T → List (Row T) → List (Cache T) → Type 0
    Extended il xs x ys cs =
        (y : Row T) × (cs' : List (Cache T)) × (length cs' ≡ length cs)
        × Passed T w cfg il (xs ++ (x ∷ [])) (ys ++ (y ∷ [])) cs'
        × (step_layers T w cfg il (length xs) (x ∷ []) cs ≡ ok (y ∷ [], cs'))

    pub step_layers-Passed :
        {il : ℕ} {xs ys : List (Row T)} {cs : List (Cache T)} (x : Row T)
        → Passed T w cfg il xs ys cs
        → Extended il xs x ys cs
    step_layers-Passed x done = (x, [], refl, done, refl)
    step_layers-Passed {il} {xs} {ys} x (next {cs} f e passed) =
        let causal : Causal T f = subst (OnOk (Causal T)) e (generate_fns-OnOk T law w il cfg) in
        let y1 =
          row_at T f (length xs) x (keys_from T f 0 (xs ++ (x ∷ [])))
            (values_from T f 0 (xs ++ (x ∷ []))) in
        let (y, cs', len, passed', step) = step_layers-Passed y1 passed in
        let step' =
          subst (λ (n : ℕ). step_layers T w cfg (suc il) n (y1 ∷ []) cs ≡ ok (y ∷ [], cs'))
            (length-causal_layer T f xs) step in
        (
          y,
          cache_of T f (xs ++ (x ∷ [])) ∷ cs',
          ap suc len,
          next f e (rw (causal_layer-append T f causal xs x) passed'),
          rw (e, layer_step-cache_of T f xs x, step') refl,
        )
