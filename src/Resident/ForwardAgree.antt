-- ===== src/Resident/ForwardAgree.antt =====
-- The layers of a pass against the plain ones.
use llama_tov.Prelude.{
  ℕ, suc, ◌≡◌, refl, ap, ◌∙◌, ◌⊎◌, inl, inr, true, false, Option, some, List, [], ◌∷◌, map, Result,
  ◌>>=◌, Result-cases, ok, err,
}
use llama_tov.Forward.Weights.{attn_q_bias, attn_k_bias, attn_v_bias}
use llama_tov.Residency.DevLength.{Device}
use llama_tov.Resident.Kernels.{Kernels}
use llama_tov.Resident.Settings.{Settings}
use llama_tov.Resident.Quantize.{Floats}
use llama_tov.Resident.Layer.{Tensors, Config, Block, Cache, check_biases, read_block, eager_layer}
use llama_tov.Resident.Plain.{Exact, Certified, plain_layer, Shaped, Held}
use llama_tov.Resident.LayerAgree.{view, eager_layer-plain_layer}
use llama_tov.Resident.Forward.{cache_or_new, resident_layers}

module _ (K : Kernels) (s : Settings) (held : Floats K → Floats K) (w : Tensors K) (cfg : Config K)
    (fresh : Device K.Num) where
  -- the plain layers from `il` on
  abbrev pub plain_layers :
      ℕ → Floats K → List (Device K.Num) → Result (Floats K × List (Device K.Num))
  plain_layers il x [] = ok (x, [])
  plain_layers il x (d ∷ ds) = do
    b ← read_block K false w il
    let out = plain_layer K cfg s b x d
    rest ← plain_layers (suc il) out.0 ds
    ok (rest.0, out.1 ∷ rest.1)

  module _ (exact : Exact K) (certified : Certified s) where
    -- the rows in use of each layer; a layer without a cache has none
    abbrev pub rows_in_use : Option (Cache K) → Device K.Num
    rows_in_use c = view K exact s certified held cfg (cache_or_new K s held w cfg fresh c)

    -- the position is the length of every cache
    abbrev pub AllAt : ℕ → List (Option (Cache K)) → Type 0
    AllAt pos [] = Unit
    AllAt pos (c ∷ cs) = (pos ≡ (rows_in_use c).len) × AllAt pos cs

    abbrev pub Sound : Type 0
    Sound = (il : ℕ) (b : Block K) → read_block K false w il ≡ ok b → Held K held b × Shaped K cfg b

    -- the result of a pass with the rows in use of its caches
    abbrev pub to_rows :
        Floats K × List (Option (Cache K)) → Result (Floats K × List (Device K.Num))
    to_rows o = ok (o.0, map rows_in_use o.1)

    abbrev cons_cache :
        Cache K → Floats K × List (Option (Cache K)) → Result (Floats K × List (Option (Cache K)))
    cons_cache c o = ok (o.0, some c ∷ o.1)

    abbrev cons_rows :
        Device K.Num → Floats K × List (Device K.Num) → Result (Floats K × List (Device K.Num))
    cons_rows d o = ok (o.0, d ∷ o.1)

    bind_cons :
        (c : Cache K) (m : Result (Floats K × List (Option (Cache K))))
        → (m >>= cons_cache c >>= to_rows) ≡ (m >>= to_rows >>= cons_rows (rows_in_use (some c)))
    bind_cons c (ok o) = refl
    bind_cons c (err e) = refl

    read_block-false :
        (il : ℕ)
        → check_biases K s.fuse_qkv
            (w.vec il attn_q_bias)
            (w.vec il attn_k_bias)
            (w.vec il attn_v_bias)
          ≡ ok tt
        → read_block K s.fuse_qkv w il ≡ read_block K false w il
    unfolding read_block
    read_block-false il h = rw h refl

    -- The layers of a pass give the residual, the caches and the exceptions of the plain layers, which run one
    -- kernel for each operation, with the product's mode, the norm and the quantization that the flags choose.
    -- Conditions: the kernels are as the file and the emitters state (a product with residual is its own
    -- mode's product and a sum, wide loads change nothing, the norm with quantization is the block-per-row
    -- norm and the warp's quantization), the sum of two floats does not depend on their order and a rotation
    -- keeps a head's length; neither _QFUSED nor the fused v4 product nor the quantization of keys and
    -- values is on; with _SILU_QUANT_FUSED or _RMS_QUANT_FUSED also _QUANT_PAR is, and with the latter
    -- _RMS_BLOCKROW; for every layer whose weights are there the arrays on the device are under their own
    -- pointers, the sizes agree and the biases of query, key and value are all there or all missing; with
    -- _FUSE_QKV no layer has a bias of the query without one of the key or of the value; and without
    -- _GRAPH_PREP the attention is masked and the position is the length of every cache.
    pub resident_layers-plain_layers :
        (il pos : ℕ) (x : Floats K) (cs : List (Option (Cache K)))
        → Sound
        → ((il : ℕ)
            → check_biases K s.fuse_qkv
                (w.vec il attn_q_bias)
                (w.vec il attn_k_bias)
                (w.vec il attn_v_bias)
              ≡ ok tt)
        → (s.graph_prep ≡ true) ⊎ ((s.masked_attn ≡ true) × AllAt pos cs)
        → (resident_layers K s held w cfg fresh il pos x cs >>= to_rows)
          ≡ plain_layers il x (map rows_in_use cs)
    resident_layers-plain_layers il pos x [] sound biased path = refl
    resident_layers-plain_layers il pos x (c ∷ cs) sound biased path =
        elim (Result-cases (read_block K false w il)) [
          | inr (e, missing) ↦ rw (read_block-false il (biased il), missing) refl
          | inl (b, read) ↦
              let c0 = cache_or_new K s held w cfg fresh c in
              let out = eager_layer K s held cfg b pos x c0 in
              let rest = map rows_in_use cs in
              let next : Floats K × Device K.Num → Result (Floats K × List (Device K.Num)) =
                λ p. plain_layers (suc il) p.0 rest >>= cons_rows p.1 in
              let (held', shaped) = sound il b read in
              let one =
                eager_layer-plain_layer K exact s certified held cfg b pos x c0 held' shaped
                  (first path) in
              rw (read_block-false il (biased il), read)
                (bind_cons out.1 (resident_layers K s held w cfg fresh (suc il) pos out.0 cs)
                  ∙ ap (λ m. m >>= cons_rows (rows_in_use (some out.1)))
                      (resident_layers-plain_layers (suc il) pos out.0 cs sound biased
                        (others path))
                  ∙ ap next one)
        ]
      where
        first :
            (s.graph_prep ≡ true) ⊎ ((s.masked_attn ≡ true) × AllAt pos (c ∷ cs))
            → (s.graph_prep ≡ true)
              ⊎ ((s.masked_attn ≡ true) × (pos ≡ (cache_or_new K s held w cfg fresh c).length_host))
        first (inl prep) = inl prep
        first (inr (masked, at)) = inr (masked, at.0)

        others :
            (s.graph_prep ≡ true) ⊎ ((s.masked_attn ≡ true) × AllAt pos (c ∷ cs))
            → (s.graph_prep ≡ true) ⊎ ((s.masked_attn ≡ true) × AllAt pos cs)
        others (inl prep) = inl prep
        others (inr (masked, at)) = inr (masked, at.1)
