-- ===== src/Forward/Total.antt =====
-- When `generate` raises nothing: a model whose tensors are there, and tokens of its vocabulary.
use llama_tov.Prelude.{
  ℕ, zero, suc, ◌+◌, ◌≤◌, ◌<◌, ◌≡◌, refl, sym, ap, ◌∙◌, List, [], ◌∷◌, ◌++◌, append_assoc,
  append-nil, arith, length, length-append, ok,
}
use llama_tov.Forward.Torch.{TorchOps, MaskLaw}
use llama_tov.Forward.Rows.{Row}
use llama_tov.Forward.Weights.{need, or_else, Weights, Config}
use llama_tov.Forward.Layers.{Layer, causal_layer}
use llama_tov.Forward.Run.{embed_token, embed_from, output_norm_row, logits, last_row, pick_token}
use llama_tov.Forward.Generate.{generate_fns, generate}
use llama_tov.Forward.Prefix.{length-causal_layer}
use llama_tov.Forward.Cached.{all_layers, recompute_token, recompute}
use llama_tov.Forward.Loop.{generate-recompute}

module _ (T : TorchOps) (w : Weights T) (cfg : Config T) (vocab context : ℕ) where
  open T use {argmax}

  -- a model whose tensors are there, and which chooses tokens of its vocabulary
  pub record Servable : Type 0 where
    pub layer : (il : ℕ) → il < cfg.n_layers → (f : Layer T) × (generate_fns T w il cfg ≡ ok f)
    pub row : (p t : ℕ) → p < context → t < vocab → (x : Row T) × (embed_token T w cfg p t ≡ ok x)
    pub head : List (Row T)
    pub has_head : need (or_else w.output w.token_embd) ≡ ok head
    pub choice : (x : Row T) → argmax (logits T w cfg head x) < vocab

  -- tokens of the vocabulary
  abbrev pub Below : List ℕ → Type 0
  Below [] = Unit
  Below (t ∷ ts) = (t < vocab) × Below ts

  Below-append : (ts : List ℕ) (t : ℕ) → Below ts → t < vocab → Below (ts ++ (t ∷ []))
  Below-append [] t b h = (h, tt)
  Below-append (u ∷ ts) t (h', b) h = (h', Below-append ts t b h)

  last_row_total : (xs : List (Row T)) → 0 < length xs → (x : Row T) × (last_row T w cfg xs ≡ ok x)
  last_row_total [] h = absurd (omega arith)
  last_row_total (x ∷ []) h = (x, refl)
  last_row_total (x ∷ y ∷ xs) h = last_row_total (y ∷ xs) (omega arith)

  module _ (model : Servable) where
    embed_from_total :
        (p : ℕ) (ts : List ℕ)
        → p + length ts ≤ context
        → Below ts
        → (xs : List (Row T)) × (embed_from T w cfg p ts ≡ ok xs) × (length xs ≡ length ts)
    embed_from_total p [] h b = ([], refl, refl)
    embed_from_total p (t ∷ ts) h (lt, b) =
        let (x, e) = model.row p t (omega arith) lt in
        let (xs, es, n) = embed_from_total (suc p) ts (omega arith) b in
        (x ∷ xs, rw (e, es) refl, ap suc n)

    all_layers_total :
        (n il : ℕ) (xs : List (Row T))
        → il + n ≤ cfg.n_layers
        → (ys : List (Row T)) × (all_layers T w cfg n il xs ≡ ok ys) × (length ys ≡ length xs)
    all_layers_total zero il xs h = (xs, refl, refl)
    all_layers_total (suc n) il xs h =
        let (f, e) = model.layer il (omega arith) in
        let (ys, es, len) = all_layers_total n (suc il) (causal_layer T f xs) (omega arith) in
        (ys, rw (e, es) refl, len ∙ length-causal_layer T f xs)

    recompute_token_total :
        (ts : List ℕ)
        → 0 < length ts
        → length ts ≤ context
        → Below ts
        → (t : ℕ) × (t < vocab) × (recompute_token T w cfg ts ≡ ok t)
    unfolding pick_token
    recompute_token_total ts pos h b =
        let (xs, embedded, n) = embed_from_total 0 ts (omega arith) b in
        let (ys, passed, m) = all_layers_total cfg.n_layers 0 xs (omega arith) in
        let (y, last) = last_row_total ys (omega (arith, n, m)) in
        (
          argmax (logits T w cfg model.head (output_norm_row T w cfg y)),
          model.choice (output_norm_row T w cfg y),
          rw (embedded, passed, model.has_head, last) refl,
        )

    recompute_total :
        (n : ℕ) (ts : List ℕ)
        → 0 < length ts
        → length ts + n ≤ suc context
        → Below ts
        → (out : List ℕ) × (length out ≡ n) × Below out × (recompute T w cfg n ts ≡ ok (ts ++ out))
    recompute_total zero ts pos h b = ([], refl, tt, ap ok (sym (append-nil ts)))
    recompute_total (suc n) ts pos h b =
        let (t, lt, e) = recompute_token_total ts pos (omega arith) b in
        let len = length-append ts (t ∷ []) in
        let (out, m, below, es) =
          recompute_total n (ts ++ (t ∷ [])) (omega (arith, len)) (omega (arith, len))
            (Below-append ts t b lt) in
        (t ∷ out, ap suc m, (lt, below), rw e (es ∙ ap ok (append_assoc ts (t ∷ []) out)))

    -- Under the mask law, if every layer finds its tensors, every token of the vocabulary has a row at
    -- every position of the context, and the choice of a token stays in the vocabulary: `generate`
    -- asked for `n` tokens returns the prompt followed by `n` tokens of the vocabulary, for every
    -- prompt of one token or more of the vocabulary that fits with the tokens that are read back.
    pub generate_total :
        (law : MaskLaw T) (n : ℕ) (ts : List ℕ)
        → 0 < length ts
        → length ts + n ≤ suc context
        → Below ts
        → (out : List ℕ) × (length out ≡ n) × Below out × (generate T w cfg n ts ≡ ok (ts ++ out))
    generate_total law n ts pos h b =
        let (out, len, below, e) = recompute_total n ts pos h b in
        (out, len, below, generate-recompute T w cfg law n ts ∙ e)
