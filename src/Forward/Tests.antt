-- ===== src/Forward/Tests.antt =====
-- The forward passes at concrete inputs: a model of one layer over the natural numbers.
use llama_tov.Prelude.{
  ℕ, zero, suc, ◌+◌, ◌-◌, ◌*◌, ◌/◌, ◌%◌, ◌<◌, ◌≡◌, refl, ap, inl, Option, none, some, List, [], ◌∷◌,
  ◌++◌, map, arith, ltb, if◌then◌else◌, length, take, index_error, ok, err,
}
use llama_tov.Forward.Torch.{TorchOps, MaskLaw}
use llama_tov.Forward.Weights.{
  VecName, MatName, attn_norm_weight, ffn_norm_weight, attn_q_weight, attn_k_weight, attn_v_weight,
  attn_output_weight, ffn_gate_weight, ffn_up_weight, ffn_down_weight, llama, Weights, Config,
}
use llama_tov.Forward.Rows.{rms_norm, apply_rope, attend}
use llama_tov.Forward.Layers.{causal_layer}
use llama_tov.Forward.Fused.{layer_fns}
use llama_tov.Forward.Run.{embed_row, embed_token, pick_token, run}
use llama_tov.Forward.Generate.{generate_fns, generate}
use llama_tov.Forward.Cached.{recompute}
use llama_tov.Forward.Loop.{generate-recompute}
use llama_tov.Forward.Agree.{Plain}
use llama_tov.Forward.Total.{Servable, Below, generate_total}
use llama_tov.Forward.Iterate.{iterate_run, Prefixes, generate-run, run_layers-append}

-- adds as far as either goes
abbrev add_rows : List ℕ → List ℕ → List ℕ
add_rows [] bs = bs
add_rows (a ∷ as_) [] = a ∷ as_
add_rows (a ∷ as_) (b ∷ bs) = (a + b) ∷ add_rows as_ bs

-- the sum of the rows that weigh something
abbrev weigh : List ℕ → List (List ℕ) → List ℕ
weigh [] rows = []
weigh (zero ∷ ws) [] = []
weigh (zero ∷ ws) (r ∷ rows) = weigh ws rows
weigh (suc n ∷ ws) [] = []
weigh (suc n ∷ ws) (r ∷ rows) = add_rows (map (λ v. suc n * v) r) (weigh ws rows)

abbrev inner : List ℕ → List ℕ → ℕ
inner [] bs = 0
inner (a ∷ as_) [] = 0
inner (a ∷ as_) (b ∷ bs) = a * b + inner as_ bs

-- the index of the greatest entry, of which `best` at `at` is the greatest so far
abbrev greatest : (at best i : ℕ) → List ℕ → ℕ
greatest at best i [] = at
greatest at best i (x ∷ xs) =
    if ltb best x then greatest i x (suc i) xs else greatest at best (suc i) xs

-- the vocabulary has three tokens, so a choice is one of three
abbrev natural_ops : TorchOps
natural_ops = record {
  Num = ℕ;
  from_nat = λ n. n;
  add = λ a b. a + b;
  sub = λ a b. a - b;
  mul = λ a b. a * b;
  div = λ a b. a / b;
  pow = λ a b. a;
  rsqrt = λ a. 1;
  cos = λ a. 1;
  sin = λ a. 0;
  silu = λ a. a;
  gelu = λ a. a;
  half = 1;
  minus_half = 1;
  neg_inf = 0;
  mean = λ xs. 1;
  total = λ xs. inner (map (λ x. 1) xs) xs;
  argmax = λ xs. greatest 0 0 0 xs % 3;
  topk = λ k xs. map (λ x. (0, x)) (take k xs);
  softmax = λ xs. xs;
  layer_norm = λ x w b. x;
  matmul = weigh;
  dot = inner;
  combine = weigh;
}

weigh-append :
    (ws : List ℕ) (rows : List (List ℕ)) (r : List ℕ)
    → length ws ≡ length rows
    → weigh (ws ++ (0 ∷ [])) (rows ++ (r ∷ [])) ≡ weigh ws rows
weigh-append [] [] r e = refl
weigh-append [] (r' ∷ rows) r e = absurd (omega arith)
weigh-append (w ∷ ws) [] r e = absurd (omega arith)
weigh-append (zero ∷ ws) (r' ∷ rows) r e = weigh-append ws rows r (omega arith)
weigh-append (suc n ∷ ws) (r' ∷ rows) r e =
    ap (add_rows (map (λ v. suc n * v) r')) (weigh-append ws rows r (omega arith))

abbrev natural_law : MaskLaw natural_ops
natural_law = record { masked = λ scores values v e h. weigh-append scores values v e }

abbrev eye : List (List ℕ)
eye = (1 ∷ 0 ∷ []) ∷ (0 ∷ 1 ∷ []) ∷ []

abbrev swap : List (List ℕ)
swap = (0 ∷ 1 ∷ []) ∷ (1 ∷ 0 ∷ []) ∷ []

abbrev vectors : VecName → Option (List ℕ)
vectors attn_norm_weight = some (1 ∷ 1 ∷ [])
vectors ffn_norm_weight = some (1 ∷ 1 ∷ [])
vectors _ = none

abbrev matrices : MatName → Option (List (List ℕ))
matrices attn_q_weight = some eye
matrices attn_k_weight = some eye
matrices attn_v_weight = some swap
matrices attn_output_weight = some eye
matrices ffn_gate_weight = some eye
matrices ffn_up_weight = some swap
matrices ffn_down_weight = some eye
matrices _ = none

abbrev tiny : Weights natural_ops
tiny = record {
  vec = λ il name. vectors name;
  mat = λ il name. matrices name;
  stack = λ il name. none;
  token_embd = some ((1 ∷ 2 ∷ []) ∷ (2 ∷ 1 ∷ []) ∷ (3 ∷ 1 ∷ []) ∷ []);
  position_embd = none;
  output_norm = none;
  output_norm_bias = none;
  output = none;
}

abbrev tiny_config : Config natural_ops
tiny_config = record {
  arch = llama;
  n_layers = 2;
  n_head = 1;
  n_head_kv = 1;
  head_dim = none;
  moe_top_k = 1;
  n_embd = 2;
  rope_theta = 1;
  norm_eps = 0;
  f_attention_scale = none;
}

tiny-Plain : Plain natural_ops tiny tiny_config
tiny-Plain = record {
  llama_arch = inl refl;
  no_query_bias = λ il. refl;
  no_query_norm = λ il. refl;
  no_output_bias = λ il. refl;
  no_router = λ il. refl;
}

run-tiny : run natural_ops tiny tiny_config (0 ∷ 1 ∷ []) ≡ ok 2
unfolding run embed_token layer_fns causal_layer attend apply_rope rms_norm
run-tiny = refl

run_empty : run natural_ops tiny tiny_config [] ≡ err index_error
unfolding run layer_fns causal_layer
run_empty = refl

generate-tiny : generate natural_ops tiny tiny_config 2 (0 ∷ 1 ∷ []) ≡ ok (0 ∷ 1 ∷ 2 ∷ 2 ∷ [])
unfolding generate embed_token pick_token apply_rope rms_norm
generate-tiny = refl

generate-recompute_example :
    generate natural_ops tiny tiny_config 3 (0 ∷ 1 ∷ [])
    ≡ recompute natural_ops tiny tiny_config 3 (0 ∷ 1 ∷ [])
generate-recompute_example =
    generate-recompute natural_ops tiny tiny_config natural_law 3 (0 ∷ 1 ∷ [])

generate-run_example :
    generate natural_ops tiny tiny_config 3 (0 ∷ 1 ∷ [])
    ≡ iterate_run natural_ops tiny tiny_config 3 (0 ∷ 1 ∷ [])
generate-run_example =
    generate-run natural_ops tiny tiny_config tiny-Plain natural_law 3 (0 ∷ 1 ∷ [])

run_layers-append_example :
    Prefixes natural_ops tiny tiny_config 2 0 ((1 ∷ 2 ∷ []) ∷ []) (3 ∷ 1 ∷ [])
run_layers-append_example =
    run_layers-append natural_ops tiny tiny_config natural_law 2 0 ((1 ∷ 2 ∷ []) ∷ []) (3 ∷ 1 ∷ [])

tiny-Servable : Servable natural_ops tiny tiny_config 3 5
unfolding generate_fns embed_token embed_row
tiny-Servable = record {
  layer = λ il h. (_, refl);
  row = λ p t h lt. any_row p t lt;
  head = (1 ∷ 2 ∷ []) ∷ (2 ∷ 1 ∷ []) ∷ (3 ∷ 1 ∷ []) ∷ [];
  has_head = refl;
  choice = λ x. omega arith;
}
  where
    any_row :
        (p t : ℕ) → t < 3 → (x : List ℕ) × (embed_token natural_ops tiny tiny_config p t ≡ ok x)
    any_row p zero h = (_, refl)
    any_row p (suc zero) h = (_, refl)
    any_row p (suc (suc zero)) h = (_, refl)
    any_row p (suc (suc (suc t))) h = absurd (omega arith)

generate_total_example :
    (out : List ℕ) × (length out ≡ 4)
    × Below natural_ops tiny tiny_config 3 5 out
    × (generate natural_ops tiny tiny_config 4 (0 ∷ 1 ∷ []) ≡ ok (0 ∷ 1 ∷ out))
generate_total_example =
    generate_total natural_ops tiny tiny_config 3 5 tiny-Servable natural_law 4 (0 ∷ 1 ∷ [])
      (omega arith) (omega arith) (omega arith, (omega arith, tt))
