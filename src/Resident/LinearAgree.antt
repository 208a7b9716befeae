-- ===== src/Resident/LinearAgree.antt =====
-- The products agree, whichever of their kernels are chosen.
use llama_tov.Prelude.{
  ◌≡◌, refl, sym, ap, ap₂, ◌∙◌, inl, inr, true, false, ◌&&◌, Option, none, some, [], ◌∷◌, ◌++◌, map,
  arith, Bool-cases, either_way, length,
}
use llama_tov.Resident.Kernels.{Kernels}
use llama_tov.Resident.Settings.{Settings, gemv_mode}
use llama_tov.Resident.Quantize.{
  Floats, Acts, elementwise2, launch_quant, silu_mul, launch_silu_quant,
}
use llama_tov.Resident.QuantizeAgree.{launch_silu_quant-warp}
use llama_tov.Resident.Linear.{
  Matrix, quant_input, q8_linear_dev, addres_mode, addres_columns, q8_linear_add_residual_dev,
  q8_linear_dev_bias,
}
use llama_tov.Resident.Plain.{HeldBias, Exact, Certified, plain_linear, plus_bias}

module _ (K : Kernels) (exact : Exact K) (s : Settings) (certified : Certified s) where
  open K use {Num, add, gemv, rmsnorm}

  map_cong :
      (f g : Floats K → Num) (w : Matrix K) → ((c : Floats K) → f c ≡ g c) → map f w ≡ map g w
  map_cong f g [] h = refl
  map_cong f g (c ∷ cs) h = ap₂ ◌∷◌ (h c) (map_cong f g cs h)

  pub elementwise2_comm : (xs ys : Floats K) → elementwise2 K add xs ys ≡ elementwise2 K add ys xs
  elementwise2_comm [] [] = refl
  elementwise2_comm [] (y ∷ ys) = refl
  elementwise2_comm (x ∷ xs) [] = refl
  elementwise2_comm (x ∷ xs) (y ∷ ys) = ap₂ ◌∷◌ (exact.add_comm x y) (elementwise2_comm xs ys)

  -- neither of the kernels that quantize themselves
  linear_opened :
      (x : Floats K) (w : Matrix K) (src : _)
      → q8_linear_dev K s x w src ≡ map (gemv (gemv_mode s) (quant_input K s x src)) w
  unfolding q8_linear_dev
  linear_opened x w src = rw (certified.qfused_off, certified.v4_qfused_off) refl

  pub q8_linear_dev-plain_linear :
      (x : Floats K) (w : Matrix K) → q8_linear_dev K s x w none ≡ plain_linear K s x w
  q8_linear_dev-plain_linear x w = linear_opened x w none

  -- with the norm folded into the quantization
  pub q8_linear_dev-rmsnorm :
      (x weight : Floats K) (eps : Num) (w : Matrix K)
      → s.rms_quant_fused ≡ true
      → q8_linear_dev K s x w (some (x, weight, eps))
        ≡ plain_linear K s (rmsnorm s.rms_blockrow eps x weight) w
  q8_linear_dev-rmsnorm x weight eps w on =
      let (warp, block) = certified.rms_block on in
      linear_opened x w (some (x, weight, eps))
      ∙ map_cong _ _ w λ c.
        ap (λ q. gemv (gemv_mode s) q c) (rw (on, warp, block) (exact.rms_quant_same eps x weight))

  -- the product with a residual is the product of the chosen mode and a sum
  addres_added :
      (q : Acts K) (c : Floats K) (r : Num)
      → K.gemv_addres (addres_mode K s) q c r ≡ add (gemv (gemv_mode s) q c) r
  addres_added q c r = elim (Bool-cases s.gemv_tiled) [
    | inr off ↦ rw off (exact.addres_same q c r)
    | inl on ↦
        let wide = exact.v4_addres_same s.gemv_tiled_bm q c r in
        elim (Bool-cases s.gemv_tiled_v4) [
          | inl v4 ↦ rw (on, v4) wide
          | inr narrow ↦
              rw (on, narrow) (wide ∙ ap (λ y. add y r) (sym (exact.v4_same s.gemv_tiled_bm q c)))
        ]
  ]

  addres_columns-elementwise2 :
      (q : Acts K) (w : Matrix K) (r : Floats K)
      → addres_columns K s (addres_mode K s) q w r
        ≡ elementwise2 K add (map (gemv (gemv_mode s) q) w) r
  addres_columns-elementwise2 q [] r = refl
  addres_columns-elementwise2 q (c ∷ cs) [] = refl
  addres_columns-elementwise2 q (c ∷ cs) (a ∷ r) =
      ap₂ ◌∷◌ (addres_added q c a) (addres_columns-elementwise2 q cs r)

  -- the product and the residual, in one kernel or in two
  pub add_residual_plain :
      (x : Floats K) (w : Matrix K) (r : Floats K)
      → q8_linear_add_residual_dev K s x w r none ≡ elementwise2 K add (plain_linear K s x w) r
  unfolding q8_linear_add_residual_dev
  add_residual_plain x w r =
      either_way s.addres_fused
        (λ on. addres_columns-elementwise2 (launch_quant K s.quant_par x) w r)
        λ off.
          ap (elementwise2 K add r) (q8_linear_dev-plain_linear x w)
          ∙ elementwise2_comm r (plain_linear K s x w)

  -- with silu and product folded into the quantization
  pub add_residual_silu :
      (x g u : Floats K) (w : Matrix K) (r : Floats K)
      → s.addres_fused ≡ true
      → s.silu_quant_fused ≡ true
      → length g ≡ length u
      → q8_linear_add_residual_dev K s x w r (some (g, u))
        ≡ elementwise2 K add (plain_linear K s (elementwise2 K (silu_mul K) g u) w) r
  unfolding q8_linear_add_residual_dev
  add_residual_silu x g u w r on folded same =
      either_way s.addres_fused
        (λ fused.
          addres_columns-elementwise2 (launch_silu_quant K g u) w r
          ∙ ap (λ q. elementwise2 K add (map (gemv (gemv_mode s) q) w) r)
              (rw (certified.silu_warp folded) (launch_silu_quant-warp K g u same)))
        λ off. absurd (apart (sym on ∙ off))
    where
      apart : true ≡ false → ⊥
      apart h = ground arith

  -- the product and the bias
  pub linear_bias_plain :
      (held : Floats K → Floats K) (x : Floats K) (w : Matrix K) (b : Option (Floats K))
      → HeldBias held b
      → q8_linear_dev_bias K s held x w b ≡ plus_bias K (plain_linear K s x w) b
  unfolding q8_linear_dev_bias
  linear_bias_plain held x w none h = q8_linear_dev-plain_linear x w
  linear_bias_plain held x w (some bias) h =
      either_way (s.bias_fold && s.addres_fused)
        (λ on.
          add_residual_plain x w (held bias) ∙ ap (elementwise2 K add (plain_linear K s x w)) h)
        (λ off. ap₂ (elementwise2 K add) (q8_linear_dev-plain_linear x w) h)

  pub elementwise2-append :
      (f : Num → Num → Num) (a b c d : Floats K)
      → length a ≡ length c
      → elementwise2 K f (a ++ b) (c ++ d) ≡ elementwise2 K f a c ++ elementwise2 K f b d
  elementwise2-append f [] b [] d h = refl
  elementwise2-append f [] b (z ∷ c) d h = absurd (omega (arith, h))
  elementwise2-append f (x ∷ a) b [] d h = absurd (omega (arith, h))
  elementwise2-append f (x ∷ a) b (z ∷ c) d h =
      ap (λ l. f x z ∷ l) (elementwise2-append f a b c d (omega (arith, h)))
