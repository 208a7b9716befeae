-- ===== src/Forward/Agree.antt =====
-- The two layers of a llama model: `llama_layer` of `run`, and the one that `generate` writes out.
use llama_tov.Prelude.{
  ℕ, suc, ◌+◌, ◌≤◌, ◌<◌, ◌≡◌, refl, ap, ap₂, ◌∙◌, ◌⊎◌, inl, inr, false, Option, none, some, List,
  [], ◌∷◌, arith, length, Error, Result, ◌>>=◌, ok, err,
}
use llama_tov.Forward.Torch.{TorchOps}
use llama_tov.Forward.Rows.{Row}
use llama_tov.Forward.Weights.{
  attn_norm_weight, attn_q_bias, attn_q_norm_weight, attn_output_bias, ffn_norm_weight,
  attn_q_weight, attn_k_weight, attn_v_weight, attn_output_weight, ffn_gate_weight, ffn_up_weight,
  ffn_down_weight, ffn_gate_inp_weight, llama, other_arch, need, Weights, Config,
}
use llama_tov.Forward.Layers.{Layer, keys_from, values_from, rows_from_at, causal_layer, llama_fns}
use llama_tov.Forward.Generate.{is_gpt2, generate_fns}
use llama_tov.Forward.Causal.{cached_attention-attend}
use llama_tov.Forward.Prefix.{length-keys_from}

module _ (T : TorchOps) where
  -- layers that cannot be told apart by rows whose keys are there
  pub record Agree (f g : Layer T) : Type 0 where
    pub same_project : (p : ℕ) (x : Row T) → f.project p x ≡ g.project p x
    pub same_finish : (x y : Row T) → f.finish x y ≡ g.finish x y
    pub same_attention :
        (q : Row T) (ks vs : List (Row T)) (p : ℕ)
        → p < length ks
        → f.attention q ks vs p ≡ g.attention q ks vs p

  -- the same exception, or layers that agree
  pub data Same : Result (Layer T) → Result (Layer T) → Type 0 where
    same_ok : {f g : Layer T} → Agree f g → Same (ok f) (ok g)
    same_err : {e : Error} → Same (err e) (err e)

  module _ {f g : Layer T} (a : Agree f g) where
    pub keys_from_cong : (p : ℕ) (xs : List (Row T)) → keys_from T f p xs ≡ keys_from T g p xs
    keys_from_cong p [] = refl
    keys_from_cong p (x ∷ xs) =
        ap₂ ◌∷◌ (ap (λ qkv. qkv.1) (a.same_project p x)) (keys_from_cong (suc p) xs)

    pub values_from_cong : (p : ℕ) (xs : List (Row T)) → values_from T f p xs ≡ values_from T g p xs
    values_from_cong p [] = refl
    values_from_cong p (x ∷ xs) =
        ap₂ ◌∷◌ (ap (λ qkv. qkv.2) (a.same_project p x)) (values_from_cong (suc p) xs)

    pub rows_from_at_cong :
        (p : ℕ) (xs ks vs : List (Row T))
        → p + length xs ≤ length ks
        → rows_from_at T f p xs ks vs ≡ rows_from_at T g p xs ks vs
    rows_from_at_cong p [] ks vs h = refl
    rows_from_at_cong p (x ∷ xs) ks vs h =
        ap₂ ◌∷◌
          (a.same_finish x (f.attention (f.project p x).0 ks vs p)
            ∙ ap (g.finish x) (
                a.same_attention (f.project p x).0 ks vs p (omega arith)
                ∙ ap (λ qkv. g.attention qkv.0 ks vs p) (a.same_project p x)))
          (rows_from_at_cong (suc p) xs ks vs (omega arith))

    pub causal_layer_cong : (xs : List (Row T)) → causal_layer T f xs ≡ causal_layer T g xs
    unfolding causal_layer
    causal_layer_cong xs =
        rows_from_at_cong 0 xs (keys_from T f 0 xs) (values_from T f 0 xs)
          (omega (arith, length-keys_from T f 0 xs))
        ∙ ap₂ (rows_from_at T g 0 xs) (keys_from_cong 0 xs) (values_from_cong 0 xs)

  -- the same lookup on both sides
  need-Same {ℓ} :
      {A : Type ℓ} (o : Option A) (m n : A → Result (Layer T))
      → ((a : A) → Same (m a) (n a))
      → Same (need o >>= m) (need o >>= n)
  need-Same (some a) m n h = h a
  need-Same none m n h = same_err

  -- the same lookup, on the left inside a part of the layer
  need_inner-Same {ℓ κ} :
      {A : Type ℓ} {B : Type κ} (o : Option A) (m : A → Result B) (k : B → Result (Layer T))
      (n : A → Result (Layer T))
      → ((a : A) → Same (m a >>= k) (n a))
      → Same ((need o >>= m) >>= k) (need o >>= n)
  need_inner-Same (some a) m k n h = h a
  need_inner-Same none m k n h = same_err

  -- a model with no biases, no norms of heads and no experts, whose layers `run` takes for llama's
  pub record Plain (w : Weights T) (cfg : Config T) : Type 0 where
    pub llama_arch : (cfg.arch ≡ llama) ⊎ (cfg.arch ≡ other_arch)
    pub no_query_bias : (il : ℕ) → w.vec il attn_q_bias ≡ none
    pub no_query_norm : (il : ℕ) → w.vec il attn_q_norm_weight ≡ none
    pub no_output_bias : (il : ℕ) → w.vec il attn_output_bias ≡ none
    pub no_router : (il : ℕ) → w.mat il ffn_gate_inp_weight ≡ none

  Plain-not_gpt2 : (w : Weights T) (cfg : Config T) → Plain w cfg → is_gpt2 cfg.arch ≡ false
  Plain-not_gpt2 w cfg plain = elim plain.llama_arch [ inl e ↦ ap is_gpt2 e | inr e ↦ ap is_gpt2 e ]

  module _ (w : Weights T) (il : ℕ) (cfg : Config T) (plain : Plain w cfg) where
    pub generate_fns-llama_fns : Same (generate_fns T w il cfg) (llama_fns T w il cfg)
    unfolding generate_fns llama_fns
    generate_fns-llama_fns = rw (Plain-not_gpt2 w cfg plain) (
        need_inner-Same (w.vec il attn_norm_weight) _ _ _ λ norm.
          need_inner-Same (w.mat il attn_q_weight) _ _ _ λ wq.
            need_inner-Same (w.mat il attn_k_weight) _ _ _ λ wk.
              need_inner-Same (w.mat il attn_v_weight) _ _ _ λ wv.
                rw (plain.no_query_bias il, plain.no_query_norm il)
                  (need-Same (w.mat il attn_output_weight) _ _ λ wo. rw (plain.no_router il) (
                    need_inner-Same (w.vec il ffn_norm_weight) _ _ _ λ norm2.
                      need_inner-Same (w.mat il ffn_gate_weight) _ _ _ λ gate.
                        need_inner-Same (w.mat il ffn_up_weight) _ _ _ λ up.
                          need_inner-Same (w.mat il ffn_down_weight) _ _ _ λ down. same_ok (record {
                            same_project = λ p x. refl;
                            same_finish = λ x y. rw (plain.no_output_bias il) refl;
                            same_attention = λ q ks vs p h.
                                cached_attention-attend T _ cfg.n_head cfg.n_head_kv _ q ks vs p h;
                          }))))
