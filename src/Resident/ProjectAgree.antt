-- ===== src/Resident/ProjectAgree.antt =====
-- The projections of a layer and their rotation agree with the plain ones.
use llama_tov.Prelude.{
  ℕ, ◌+◌, ◌*◌, ◌≡◌, refl, ap, ap₂, ◌∙◌, ◌&&◌, none, some, ◌++◌, map-append, ◌==◌, either_way,
  either_way_under, length, length-map,
}
use llama_tov.Resident.Kernels.{Kernels}
use llama_tov.Resident.Settings.{Settings}
use llama_tov.Resident.Quantize.{Floats, elementwise2}
use llama_tov.Resident.QuantizeAgree.{length-elementwise2}
use llama_tov.Resident.Linear.{Matrix, q8_linear_dev_bias}
use llama_tov.Resident.Layer.{
  views, quant_kv, rope_heads, Config, head_dim, Block, Heads, cat_bias, slices, heads_of,
  rope_both, project, rope_qk,
}
use llama_tov.Resident.Plain.{
  Exact, Certified, plain_linear, plus_bias, plain_heads, Biases, without, with_all, Shaped, Held,
}
use llama_tov.Resident.LinearAgree.{linear_bias_plain, elementwise2-append}
use llama_tov.Resident.RopeAgree.{slices_three, rope_fused-apart}

module _ (K : Kernels) (exact : Exact K) (s : Settings) (certified : Certified s)
    (held : Floats K → Floats K) (cfg : Config K) where
  open K use {Num, add, rmsnorm}

  three_linear :
      (h : Floats K) (a b c : Matrix K)
      → plain_linear K s h (a ++ (b ++ c))
        ≡ plain_linear K s h a ++ (plain_linear K s h b ++ plain_linear K s h c)
  three_linear h a b c =
      map-append _ a (b ++ c) ∙ ap (λ l. plain_linear K s h a ++ l) (map-append _ b c)

  -- the projections before the rotation
  abbrev pub plain_qkv : Block K → Floats K → Heads K
  plain_qkv b h = (
    plus_bias K (plain_linear K s h b.wq) b.bq,
    plus_bias K (plain_linear K s h b.wk) b.bk,
    plus_bias K (plain_linear K s h b.wv) b.bv,
  )

  fused_buffer :
      (b : Block K) (h : Floats K)
      → Held K held b
      → Biases K cfg b
      → q8_linear_dev_bias K s held h (b.wq ++ (b.wk ++ b.wv)) (cat_bias K b.bq b.bk b.bv)
        ≡ (plain_qkv b h).0 ++ ((plain_qkv b h).1 ++ (plain_qkv b h).2)
  fused_buffer b h held' (without eq ek ev) =
      rw (eq, ek, ev)
        (linear_bias_plain K exact s certified held h (b.wq ++ (b.wk ++ b.wv)) none tt
          ∙ three_linear h b.wq b.wk b.wv)
  fused_buffer b h held' (with_all bq bk bv eq ek ev lq lk lv) =
      rw (eq, ek, ev)
        (linear_bias_plain K exact s certified held h (b.wq ++ (b.wk ++ b.wv))
            (some (bq ++ (bk ++ bv))) (rw (eq, ek, ev) at held'.bias_cat)
          ∙ ap (λ y. elementwise2 K add y (bq ++ (bk ++ bv))) (three_linear h b.wq b.wk b.wv)
          ∙ added (plain_linear K s h b.wq) (plain_linear K s h b.wk) (plain_linear K s h b.wv) bq
              bk bv (length-map b.wq _ ∙ lq) (length-map b.wk _ ∙ lk))
    where
      added :
          (x y z a b c : Floats K)
          → length x ≡ length a
          → length y ≡ length b
          → elementwise2 K add (x ++ (y ++ z)) (a ++ (b ++ c))
            ≡ elementwise2 K add x a ++ (elementwise2 K add y b ++ elementwise2 K add z c)
      added x y z a b c ha hb =
          elementwise2-append K exact s certified add x (y ++ z) a (b ++ c) ha
          ∙ ap (λ l. elementwise2 K add x a ++ l)
              (elementwise2-append K exact s certified add y z b c hb)

  length-plus_bias :
      (b : Block K) (h : Floats K)
      → Biases K cfg b
      → (length (plain_qkv b h).0 ≡ length b.wq) × (length (plain_qkv b h).1 ≡ length b.wk)
  length-plus_bias b h (without eq ek ev) = rw (eq, ek) (length-map b.wq _, length-map b.wk _)
  length-plus_bias b h (with_all bq bk bv eq ek ev lq lk lv) =
      rw (eq, ek)
        (
          length-elementwise2 K add (plain_linear K s h b.wq) bq (length-map b.wq _ ∙ lq)
              ∙ length-map b.wq _,
          length-elementwise2 K add (plain_linear K s h b.wk) bk (length-map b.wk _ ∙ lk)
              ∙ length-map b.wk _,
        )

  -- three products, without the quantization of keys and values
  apart_heads :
      (b : Block K) (h : Floats K)
      → Held K held b
      → ◌≡◌ {A = Heads K}
          (
            q8_linear_dev_bias K s held h b.wq b.bq,
            quant_kv K s held cfg (q8_linear_dev_bias K s held h b.wk b.bk),
            quant_kv K s held cfg (q8_linear_dev_bias K s held h b.wv b.bv),
          )
          (plain_qkv b h)
  apart_heads b h held' =
      triple (linear_bias_plain K exact s certified held h b.wq b.bq held'.bias_q)
        (not_quantized _ ∙ linear_bias_plain K exact s certified held h b.wk b.bk held'.bias_k)
        (not_quantized _ ∙ linear_bias_plain K exact s certified held h b.wv b.bv held'.bias_v)
    where
      not_quantized : (x : Floats K) → quant_kv K s held cfg x ≡ x
      not_quantized x = rw certified.kv_quant_off refl

      triple :
          {a b c x y z : Floats K} → a ≡ x → b ≡ y → c ≡ z → ◌≡◌ {A = Heads K} (a, b, c) (x, y, z)
      triple ha hb hc = rw (ha, hb, hc) refl

  fused_slices :
      (b : Block K) (h : Floats K)
      → Biases K cfg b
      → (let (q, k, v) = plain_qkv b h in
          slices K (q ++ (k ++ v)) (length b.wq) (length b.wk) ≡ (q, k, v))
  fused_slices b h biases =
      let (q, k, v) = plain_qkv b h in
      let (query, key) = length-plus_bias b h biases in
      slices_three K q k v (length b.wq) (length b.wk) query key

  -- the buffers, or the slices of the one buffer
  pub heads_of-project :
      (b : Block K) (h : Floats K)
      → Held K held b
      → Biases K cfg b
      → heads_of K (project K s held cfg b h) ≡ plain_qkv b h
  unfolding project
  heads_of-project b h held' biases =
      either_way_under (heads_of K) s.fuse_qkv
        (λ fused.
          ap (λ y. slices K y (length b.wq) (length b.wk)) (fused_buffer b h held' biases)
          ∙ fused_slices b h biases)
        (λ apart. apart_heads b h held')

  rope_views :
      (b : Block K) (h : Floats K) (pos : ℕ)
      → Shaped K cfg b
      → (let (q, k, v) = plain_qkv b h in
          rope_qk K s held cfg pos (views (q ++ (k ++ v)) (length b.wq) (length b.wk))
          ≡ plain_heads K cfg s b pos h)
  unfolding rope_qk
  rope_views b h pos shaped =
      let hd = head_dim K cfg in
      let (q, k, v) = plain_qkv b h in
      let (query, key) = length-plus_bias b h shaped.biases in
      let turned : Floats K =
        rope_heads K cfg.rope_theta hd (cfg.n_head + cfg.n_head_kv) pos (q ++ (k ++ v)) in
      either_way (s.rope_qk_fused && length b.wq == cfg.n_head * hd)
        (λ one.
          ap₂ (slices K turned) shaped.query shaped.key
          ∙ rope_fused-apart K exact cfg.rope_theta hd pos cfg.n_head cfg.n_head_kv q k v
              (query ∙ shaped.query) (key ∙ shaped.key))
        (λ two. ap (rope_both K s held cfg pos) (fused_slices b h shaped.biases))

  pub rope_qk-plain_heads :
      (b : Block K) (h : Floats K) (pos : ℕ)
      → Held K held b
      → Shaped K cfg b
      → rope_qk K s held cfg pos (project K s held cfg b h) ≡ plain_heads K cfg s b pos h
  unfolding project rope_qk
  rope_qk-plain_heads b h pos held' shaped =
      either_way_under (rope_qk K s held cfg pos) s.fuse_qkv
        (λ fused.
          ap (λ y. rope_qk K s held cfg pos (views y (length b.wq) (length b.wk)))
            (fused_buffer b h held' shaped.biases)
          ∙ rope_views b h pos shaped)
        (λ apart. ap (rope_both K s held cfg pos) (apart_heads b h held'))
