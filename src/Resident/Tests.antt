-- ===== src/Resident/Tests.antt =====
-- The device-resident pass on natural numbers in place of floats: a model of one layer with two floats in
-- its only head.
mod Tokens
mod Launches
use llama_tov.Prelude.{
  ℕ, ◌+◌, ◌-◌, ◌*◌, ◌/◌, ◌≡◌, refl, ap, subst, inl, true, false, Option, none, some, List, [], ◌∷◌,
  map, arith, ltb, if◌then◌else◌, length-map, Result, ◌>>=◌, ok, err,
}
use llama_tov.Resident.Consts.{key_of, same_key, dev_const, const_calls, In, const_calls-own}
use llama_tov.Resident.Kernels.{Kernels}
use llama_tov.Resident.Quantize.{
  elementwise2, silu_mul, launch_silu_quant, keep_greater, launch_quant,
}
use llama_tov.Resident.QuantizeAgree.{launch_silu_quant-launch_quant, MaxLaws}
use llama_tov.Resident.Attention.{position_major, head_major, attn_decode, attn_decode_masked}
use llama_tov.Resident.MaskedAttention.{
  FloatLaws, Vanishes, head_scores, attn_decode_masked-attn_decode,
}
use llama_tov.Forward.Weights.{
  VecName, attn_norm_weight, attn_q_bias, attn_k_bias, attn_v_bias, ffn_norm_weight,
}
use llama_tov.Residency.DevLength.{Device}
use llama_tov.Residency.Profile.{
  Globals, unset, apply_production_profile, assert_certified_composition,
}
use llama_tov.Resident.Settings.{Settings, settings_of}
use llama_tov.Resident.Layer.{Tensors, Config, Block, read_block}
use llama_tov.Resident.Plain.{Exact, Certified, with_all, Shaped, Held}
use llama_tov.Resident.Forward.{
  embedding, embed, read_head, forward_token, resident_layers, forward_pass_resident,
}
use llama_tov.Resident.ForwardAgree.{
  plain_layers, to_rows, rows_in_use, resident_layers-plain_layers,
}
use llama_tov.Resident.Graph.{Runner, seed, capture, replay_all, eager_all}
use llama_tov.Resident.GraphAgree.{seed-capture-replay}

abbrev total : List ℕ → ℕ
total [] = 0
total (x ∷ xs) = x + total xs

abbrev total_codes : List (List ℕ × ℕ) → ℕ
total_codes [] = 0
total_codes ((q, d) ∷ bs) = d * total q + total_codes bs

abbrev on_naturals : (ℕ → List ℕ → List ℕ → List (List ℕ × ℕ)) → Kernels
on_naturals rms_quant = record {
  Num = ℕ;
  Code = ℕ;
  zero_num = 0;
  one = 1;
  inv_sqrt = λ n. 1;
  top_code = 1;
  neg_big = 0;
  add = ◌+◌;
  sub = λ a b. a + 1000 - b;
  mul = ◌*◌;
  div = ◌/◌;
  neg = λ a. 0;
  fabs = λ a. a;
  fmax = λ a b. if ltb a b then b else a;
  gt = λ a b. ltb b a;
  exp = λ a. a;
  fast_exp = λ a. a - 990;
  half = λ a. a;
  code = λ a. a;
  uncode = λ a. a;
  gemv = λ mode q column. total_codes q + total column;
  gemv_addres = λ mode q column r. total_codes q + total column + r;
  gemv_quant = λ mode x column. 0;
  rmsnorm = λ mode eps x weight. x;
  rms_quant = rms_quant;
  rope = λ theta hd pos x. map (λ v. v + pos) x;
  host_rms = λ eps x weight. x;
  host_matmul = λ x m. map total m;
}

abbrev naturals : Kernels
naturals = on_naturals (λ eps x weight. launch_quant (on_naturals (λ e y v. [])) true x)

naturals-MaxLaws : MaxLaws naturals
naturals-MaxLaws = record {
  IsReal = λ a. Unit;
  IsMagnitude = λ a. Unit;
  magnitude = λ a h. tt;
  assoc = λ a b c ha hb hc. max_assoc a b c;
  comm = λ a b ha hb. max_comm a b;
  above_zero = λ a h. max_zero a;
}
  where
    max_assoc :
        (a b c : ℕ)
        → keep_greater naturals (keep_greater naturals a b) c
          ≡ keep_greater naturals a (keep_greater naturals b c)
    max_assoc a b c = ground arith

    max_comm : (a b : ℕ) → keep_greater naturals a b ≡ keep_greater naturals b a
    max_comm a b = ground arith

    max_zero : (a : ℕ) → keep_greater naturals 0 a ≡ a
    max_zero a = ground arith

naturals-Exact : Exact naturals
unfolding launch_quant
naturals-Exact = record {
  v4_same = λ bm q column. refl;
  addres_same = λ q column r. refl;
  v4_addres_same = λ bm q column r. refl;
  rms_quant_same = λ eps x weight. refl;
  add_comm = λ a b. omega arith;
  length-rope = λ theta hd pos x. length-map x _;
}

abbrev vec_of : VecName → Option (List ℕ)
vec_of attn_norm_weight = some (1 ∷ 1 ∷ [])
vec_of ffn_norm_weight = some (1 ∷ 1 ∷ [])
vec_of attn_q_bias = some (3 ∷ 1 ∷ [])
vec_of attn_k_bias = some (2 ∷ 2 ∷ [])
vec_of attn_v_bias = some (0 ∷ 4 ∷ [])
vec_of _ = none

abbrev square : List (List ℕ)
square = (1 ∷ 2 ∷ []) ∷ (3 ∷ 0 ∷ []) ∷ []

abbrev tensors : Tensors naturals
tensors = record {
  vec = λ il name. vec_of name;
  mat = λ il name. some square;
  token_embd = some ((1 ∷ 0 ∷ []) ∷ (0 ∷ 2 ∷ []) ∷ (4 ∷ 1 ∷ []) ∷ []);
  output_norm = some (1 ∷ 1 ∷ []);
  output = none;
}

abbrev config : Config naturals
config = record { n_head = 1; n_head_kv = 1; n_embd = 2; rope_theta = 10; norm_eps = 0 }

abbrev memory : Device ℕ
memory = record { kbuf = λ a. 0; vbuf = λ a. 0; len = 7 }

-- the production profile, from globals that were never set
abbrev profile : Globals
profile = apply_production_profile (record { value = λ f. unset; slab_enabled = false })

abbrev production : Settings
production = settings_of true profile

abbrev loaded : Block naturals
loaded = record {
  attn_norm = 1 ∷ 1 ∷ [];
  wq = square;
  wk = square;
  wv = square;
  bq = some (3 ∷ 1 ∷ []);
  bk = some (2 ∷ 2 ∷ []);
  bv = some (0 ∷ 4 ∷ []);
  wo = square;
  ffn_norm = 1 ∷ 1 ∷ [];
  gate = square;
  up = square;
  down = square;
}

abbrev value_of {ℓ} : {A : Type ℓ} → Result A → A → A
value_of (ok a) d = a
value_of (err e) d = d

production-Certified : Certified production
unfolding settings_of apply_production_profile
production-Certified = record {
  qfused_off = refl;
  v4_qfused_off = refl;
  kv_quant_off = refl;
  silu_warp = λ on. refl;
  rms_block = λ on. (refl, refl);
}

loaded-Sound :
    (il : ℕ) (b : Block naturals)
    → read_block naturals false tensors il ≡ ok b
    → Held naturals (λ a. a) b × Shaped naturals config b
unfolding read_block
loaded-Sound il b read =
    subst (λ c. Held naturals (λ a. a) c × Shaped naturals config c)
      (ap (λ r. value_of r loaded) read) (held, shaped)
  where
    held : Held naturals (λ a. a) loaded
    held = record {
      attn_norm = refl;
      ffn_norm = refl;
      bias_q = refl;
      bias_k = refl;
      bias_v = refl;
      bias_cat = refl;
    }

    shaped : Shaped naturals config loaded
    shaped = record {
      biases = with_all _ _ _ refl refl refl refl refl refl;
      query = refl;
      key = refl;
      gate_up_same = refl;
    }

resident_layers-plain_layers_example :
    (resident_layers naturals production
        (λ a. a)
        tensors
        config
        memory
        0
        0
        (4 ∷ 1 ∷ [])
        (none ∷ none ∷ [])
      >>= to_rows naturals production
          (λ a. a)
          tensors
          config
          memory
          naturals-Exact
          production-Certified)
    ≡ plain_layers naturals production
        (λ a. a)
        tensors
        config
        memory
        0
        (4 ∷ 1 ∷ [])
        (map
          (rows_in_use naturals production
            (λ a. a)
            tensors
            config
            memory
            naturals-Exact
            production-Certified)
          (none ∷ none ∷ []))
unfolding settings_of apply_production_profile
resident_layers-plain_layers_example =
    resident_layers-plain_layers naturals production (λ a. a) tensors config memory naturals-Exact
      production-Certified 0 0 (4 ∷ 1 ∷ []) (none ∷ none ∷ []) loaded-Sound (λ il. refl) (inl refl)

abbrev idle : Runner naturals
idle = record { kv = none ∷ []; captured = none; frozen = none; weight_keys = 5 ∷ [] }

abbrev seeded : List ℕ × Runner naturals
seeded =
    value_of
      (seed naturals true true profile (λ a. a) tensors config memory (5 ∷ 6 ∷ []) 2 [] 2 0 idle)
      ([], idle)

seed_returns :
    seed naturals true true profile (λ a. a) tensors config memory (5 ∷ 6 ∷ []) 2 [] 2 0 idle
    ≡ ok seeded
unfolding seed settings_of apply_production_profile assert_certified_composition forward_token embed
    embedding read_block read_head
seed_returns = refl

found_one : embed naturals tensors 1 ≡ ok (0 ∷ 2 ∷ [])
unfolding embed embedding
found_one = refl

seed-capture-replay_example :
    (r' : Runner naturals) × (capture naturals true true profile
        (λ a. a)
        tensors
        config
        memory
        (5 ∷ 6 ∷ [])
        2
        []
        1
        seeded.1
      ≡ ok r')
    × (replay_all naturals true true profile
          (λ a. a)
          tensors
          config
          memory
          (5 ∷ 6 ∷ [])
          2
          []
          (1 ∷ 0 ∷ 2 ∷ [])
          r'
        ≡ eager_all naturals true true profile
            (λ a. a)
            tensors
            config
            memory
            (5 ∷ 6 ∷ [])
            2
            []
            1
            (1 ∷ 0 ∷ 2 ∷ [])
            seeded.1.kv)
seed-capture-replay_example =
    seed-capture-replay naturals true true profile (λ a. a) tensors config memory (5 ∷ 6 ∷ []) 2 []
      2 0 1 1 idle seeded (0 ∷ 2 ∷ []) (1 ∷ 0 ∷ 2 ∷ []) seed_returns found_one
