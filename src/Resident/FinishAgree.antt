-- ===== src/Resident/FinishAgree.antt =====
-- The part of a layer behind its attention agrees with the plain one.
use llama_tov.Prelude.{
  ◌≡◌, refl, sym, ap, ap₂, ◌∙◌, Bool, true, false, ◌&&◌, none, some, ◌++◌, map-append, either_way,
  length, take, drop, length-map, take-append, drop-append,
}
use llama_tov.Resident.Kernels.{Kernels}
use llama_tov.Resident.Settings.{Settings}
use llama_tov.Resident.Quantize.{Floats, elementwise2, silu_mul}
use llama_tov.Resident.Linear.{Matrix, rms_norm_dev, q8_linear_dev}
use llama_tov.Resident.Layer.{Config, Block, gate_up, attn_output, down_proj, finish}
use llama_tov.Resident.Plain.{Exact, Certified, plain_linear, plain_finish}
use llama_tov.Resident.LinearAgree.{
  q8_linear_dev-plain_linear, q8_linear_dev-rmsnorm, add_residual_plain, add_residual_silu,
  elementwise2_comm,
}

module _ (K : Kernels) (exact : Exact K) (s : Settings) (certified : Certified s)
    (held : Floats K → Floats K) (cfg : Config K) where
  open K use {Num, add, rmsnorm}

  -- a product with concatenated columns
  split_linear :
      (x : Floats K) (a b : Matrix K)
      → (let y = plain_linear K s x (a ++ b) in
          (take (length a) y ≡ plain_linear K s x a) × (drop (length a) y ≡ plain_linear K s x b))
  split_linear x a b =
      let row = plain_linear K s x in
      let whole : row (a ++ b) ≡ row a ++ row b = map-append _ a b in
      let count : length a ≡ length (row a) = sym (length-map a _) in
      (
        ap₂ take count whole ∙ take-append (row a) (row b),
        ap₂ drop count whole ∙ drop-append (row a) (row b),
      )

  pub rms_norm_dev-rmsnorm :
      (x weight : Floats K)
      → held weight ≡ weight
      → rms_norm_dev K s held x weight cfg.norm_eps ≡ rmsnorm s.rms_blockrow cfg.norm_eps x weight
  rms_norm_dev-rmsnorm x weight h = ap (rmsnorm s.rms_blockrow cfg.norm_eps x) h

  gate_up-plain_linear :
      (b : Block K) (xres : Floats K)
      → held b.ffn_norm ≡ b.ffn_norm
      → (let h2 = rmsnorm s.rms_blockrow cfg.norm_eps xres b.ffn_norm in
          gate_up K s held cfg b xres ≡ (plain_linear K s h2 b.gate, plain_linear K s h2 b.up))
  unfolding gate_up
  gate_up-plain_linear b xres h =
      let h2 = rmsnorm s.rms_blockrow cfg.norm_eps xres b.ffn_norm in
      let row = plain_linear K s h2 in
      let split : Floats K → Floats K × Floats K =
        λ y. (take (length b.gate) y, drop (length b.gate) y) in
      let parts = split_linear h2 b.gate b.up in
      let whole : split (row (b.gate ++ b.up)) ≡ (row b.gate, row b.up) = pair parts.0 parts.1 in
      let norm = rms_norm_dev-rmsnorm xres b.ffn_norm h in
      let one = λ (w : Matrix K).
        ap (λ v. q8_linear_dev K s v w none) norm
        ∙ q8_linear_dev-plain_linear K exact s certified h2 w in
      either_way (s.rms_quant_fused && s.fuse_gateup)
        (λ on.
          ap split (
            ap
              (λ weight.
                q8_linear_dev K s xres (b.gate ++ b.up) (some (xres, weight, cfg.norm_eps)))
              h
            ∙ q8_linear_dev-rmsnorm K exact s certified xres b.ffn_norm cfg.norm_eps
                (b.gate ++ b.up) (left s.rms_quant_fused s.fuse_gateup on))
          ∙ whole)
        λ off.
          either_way s.fuse_gateup (λ fused. ap split (one (b.gate ++ b.up)) ∙ whole)
            (λ apart. pair (one b.gate) (one b.up))
    where
      left : (p q : Bool) → (p && q) ≡ true → p ≡ true
      left true q h = refl
      left false q h = h

      pair : {a b c d : Floats K} → a ≡ c → b ≡ d → ◌≡◌ {A = Floats K × Floats K} (a, b) (c, d)
      pair h k = ap₂ (λ (x y : Floats K). (x, y)) h k

  linear_added :
      (r z : Floats K) (w : Matrix K)
      → elementwise2 K add r (q8_linear_dev K s z w none)
        ≡ elementwise2 K add (plain_linear K s z w) r
  linear_added r z w =
      ap (elementwise2 K add r) (q8_linear_dev-plain_linear K exact s certified z w)
      ∙ elementwise2_comm K exact s certified r (plain_linear K s z w)

  attn_output-plain_linear :
      (b : Block K) (x y : Floats K)
      → attn_output K s held cfg b x y ≡ elementwise2 K add (plain_linear K s y b.wo) x
  unfolding attn_output
  attn_output-plain_linear b x y =
      either_way s.addres_fused (λ on. add_residual_plain K exact s certified y b.wo x)
        (λ off. linear_added x y b.wo)

  down_proj-plain_linear :
      (b : Block K) (r g u : Floats K)
      → length g ≡ length u
      → down_proj K s held cfg b r (g, u)
        ≡ elementwise2 K add (plain_linear K s (elementwise2 K (silu_mul K) g u) b.down) r
  unfolding down_proj
  down_proj-plain_linear b r g u same =
      let product = elementwise2 K (silu_mul K) g u in
      either_way s.addres_fused
        (λ on.
          either_way s.silu_quant_fused
            (λ fused. add_residual_silu K exact s certified g g u b.down r on fused same)
            (λ apart. add_residual_plain K exact s certified product b.down r))
        (λ off. linear_added r product b.down)

  pub finish-plain_finish :
      (b : Block K) (x y : Floats K)
      → held b.ffn_norm ≡ b.ffn_norm
      → length b.gate ≡ length b.up
      → finish K s held cfg b x y ≡ plain_finish K cfg s b x y
  unfolding finish
  finish-plain_finish b x y h same =
      let x1 = elementwise2 K add (plain_linear K s y b.wo) x in
      let h2 = rmsnorm s.rms_blockrow cfg.norm_eps x1 b.ffn_norm in
      ap (λ r. down_proj K s held cfg b r (gate_up K s held cfg b r))
        (attn_output-plain_linear b x y)
      ∙ ap (down_proj K s held cfg b x1) (gate_up-plain_linear b x1 h)
      ∙ down_proj-plain_linear b x1 (plain_linear K s h2 b.gate) (plain_linear K s h2 b.up)
          (length-map b.gate _ ∙ same ∙ sym (length-map b.up _))
