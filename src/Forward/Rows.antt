-- ===== src/Forward/Rows.antt =====
-- `rms_norm`, `apply_rope` and the attention of bpd/llamatov_run.py, on the rows of their tensors.
use llama_tov.Prelude.{
  ℕ, suc, ◌+◌, ◌*◌, ◌/◌, List, [], ◌∷◌, ◌++◌, map, ltb, if◌then◌else◌, length, get_or, take, drop,
  tabulate, rounds,
}
use llama_tov.Forward.Torch.{TorchOps}

module _ (T : TorchOps) where
  open T use {
    Num, from_nat, add, sub, mul, div, pow, rsqrt, cos, sin, mean, neg_inf, softmax, dot, combine,
  }

  abbrev pub Row : Type 0
  Row = List Num

  -- an elementwise operation on two rows
  abbrev pub zip_with : (Num → Num → Num) → Row → Row → Row
  zip_with f (a ∷ as_) (b ∷ bs) = f a b ∷ zip_with f as_ bs
  zip_with f _ _ = []

  -- w * (x * torch.rsqrt(x.pow(2).mean(-1, keepdim=True) + eps))
  unfoldable pub rms_norm : Row → Row → Num → Row
  rms_norm x w eps =
      let r = rsqrt (add (mean (map (λ v. pow v (from_nat 2)) x)) eps) in
      zip_with mul w (map (λ v. mul v r) x)

  -- head `j` of a row of heads
  abbrev pub head_at : ℕ → ℕ → Row → Row
  head_at hd j x = take hd (drop (j * hd) x)

  -- `angles`: position times 1.0 / (theta ** (2 i / head_dim))
  abbrev pub angle : Num → ℕ → ℕ → ℕ → Num
  angle theta hd t i =
      mul (from_nat t) (div (from_nat 1) (pow theta (div (from_nat (2 * i)) (from_nat hd))))

  -- `rotate` of one head at position `t`
  unfoldable pub rotate : Num → ℕ → ℕ → Row → Row
  rotate theta hd t x =
      let x1 = λ (i : ℕ). get_or x i (from_nat 0) in
      let x2 = λ (i : ℕ). get_or x (hd / 2 + i) (from_nat 0) in
      tabulate (hd / 2)
        (λ i. sub (mul (x1 i) (cos (angle theta hd t i))) (mul (x2 i) (sin (angle theta hd t i))))
      ++ tabulate (hd / 2)
          (λ i. add (mul (x1 i) (sin (angle theta hd t i))) (mul (x2 i) (cos (angle theta hd t i))))

  -- `apply_rope` of a row of `q` or of `k`, which may have fewer heads
  unfoldable pub apply_rope : Num → ℕ → ℕ → Row → Row
  unfolding rotate
  apply_rope theta hd t x = rounds (length x / hd) (λ j. rotate theta hd t (head_at hd j x))

  -- `repeat_interleave(nh // nkv, dim=1)`: the head of keys and values that query head `j` reads
  abbrev pub kv_head : ℕ → ℕ → ℕ → ℕ
  kv_head nh nkv j = if ltb nkv nh then j / (nh / nkv) else j

  -- scores from position `t` on, with those after `limit` masked
  abbrev pub mask_from : ℕ → ℕ → Row → Row
  mask_from limit t [] = []
  mask_from limit t (s ∷ ss) = (if ltb limit t then neg_inf else s) ∷ mask_from limit (suc t) ss

  -- softmax(masked scores) @ v, for one head and one query
  unfoldable pub attend_head : (Row → Row → Num) → Row → List Row → List Row → ℕ → Row
  attend_head score q ks vs limit = combine (softmax (mask_from limit 0 (map (score q) ks))) vs

  -- the heads of one query, side by side; `score` is the entry of `att` for a query and a key
  unfoldable pub attend : (Row → Row → Num) → ℕ → ℕ → ℕ → Row → List Row → List Row → ℕ → Row
  unfolding attend_head
  attend score nh nkv hd q ks vs limit = rounds nh λ j.
      let group = kv_head nh nkv j in
      attend_head score (head_at hd j q) (map (head_at hd group) ks) (map (head_at hd group) vs)
        limit
