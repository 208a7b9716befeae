-- ===== src/Resident/Attention.antt =====
-- The decode attention kernels that bpd/lib/dev_residency.py holds as text: `k_attn_decode`,
-- `k_attn_decode_pm` and `k_attn_decode_masked`. An array is a function of the index; a row of heads
-- has at most 256 floats in a head, as a block has 256 threads.
use llama_tov.Prelude.{
  ℕ, zero, suc, ◌+◌, ◌*◌, ◌/◌, List, [], ◌∷◌, ltb, if◌then◌else◌, tabulate, rounds,
}
use llama_tov.Resident.Kernels.{Kernels}

-- the halves of 64, the fixed number of lanes
abbrev pub frozen : List ℕ
frozen = 32 ∷ 16 ∷ 8 ∷ 4 ∷ 2 ∷ 1 ∷ []

-- `for (t = d; t < bound; t += lanes) acc = op(acc, f(t))`, with fuel
abbrev pub strided : {A : Type 0} → (A → A → A) → (ℕ → A) → ℕ → ℕ → ℕ → ℕ → A → A
strided op f lanes bound zero t acc = acc
strided op f lanes bound (suc fuel) t acc =
    let rest = strided op f lanes bound fuel (t + lanes) (op acc (f t)) in
    if ltb t bound then rest else acc

-- the loop of thread `d`, whose fuel is the bound
abbrev pub lane_loop : {A : Type 0} → (A → A → A) → (ℕ → A) → ℕ → ℕ → A → ℕ → A
lane_loop op f lanes bound init d = strided op f lanes bound bound d init

-- `for (s2 = lanes/2; s2 > 0; s2 >>= 1) if (d < s2) red[d] = op(red[d], red[d+s2])`, then `red[0]`
abbrev pub tree : {A : Type 0} → (A → A → A) → List ℕ → (ℕ → A) → A
tree op [] red = red 0
tree op (s ∷ ss) red = tree op ss (λ d. if ltb d s then op (red d) (red (d + s)) else red d)

module _ (K : Kernels) where
  open K use {Num, zero_num, neg_big, add, sub, mul, div, fmax, fast_exp}

  -- `for (i = from; i < from + n; i++) acc += f(i)`
  abbrev pub sum_from : (ℕ → Num) → ℕ → ℕ → Num → Num
  sum_from f i zero acc = acc
  sum_from f i (suc n) acc = sum_from f (suc i) n (add acc (f i))

  -- `(q . K[t]) * scale`, with the address of the row of a key
  abbrev pub score_at : (ℕ → Num) → (ℕ → Num) → ℕ → Num → ℕ → ℕ → ℕ → Num
  score_at q keys hd scale h row t =
      mul (sum_from (λ i. mul (q (h * hd + i)) (keys (row + i))) 0 hd zero_num) scale

  -- the maximum of the scores below `bound`, and the sum of their exponentials
  abbrev pub max_of : ℕ → List ℕ → (ℕ → Num) → ℕ → Num
  max_of lanes halves score bound =
      tree fmax halves (λ d. lane_loop fmax score lanes bound neg_big d)

  abbrev pub weight_of : (ℕ → Num) → Num → ℕ → Num
  weight_of score mx t = fast_exp (sub (score t) mx)

  abbrev pub norm_of : ℕ → List ℕ → (ℕ → Num) → Num → ℕ → Num
  norm_of lanes halves score mx bound =
      tree add halves (λ d. lane_loop add (weight_of score mx) lanes bound zero_num d)

  -- one output of a head: scores up to `bound`, values up to `len`
  abbrev pub head_out : ℕ → List ℕ → (ℕ → Num) → ℕ → ℕ → (ℕ → Num) → Num
  head_out lanes halves score bound len value =
      let mx = max_of lanes halves score bound in
      div (sum_from (λ t. mul (weight_of score mx t) (value t)) 0 len zero_num)
        (norm_of lanes halves score mx bound)

  -- the row of position `t` and head `hk`: keys by position, and keys by head
  abbrev pub position_major : ℕ → ℕ → ℕ → ℕ → ℕ
  position_major nkv hd hk t = (t * nkv + hk) * hd

  abbrev pub head_major : ℕ → ℕ → ℕ → ℕ → ℕ
  head_major len hd hk t = hk * len * hd + t * hd

  -- `hk`; `nkv` is not 0 and at most `nh`
  abbrev pub group_of : ℕ → ℕ → ℕ → ℕ
  group_of nh nkv h = h / (nh / nkv)

  -- the outputs of all heads
  abbrev pub heads_out : ℕ → ℕ → (ℕ → ℕ → Num) → List Num
  heads_out nh hd out = rounds nh (λ h. tabulate hd (out h))

  -- `k_attn_decode` on keys and values by head
  unfoldable pub attn_decode : ℕ → ℕ → ℕ → Num → ℕ → (ℕ → Num) → (ℕ → Num) → (ℕ → Num) → List Num
  attn_decode nh nkv hd scale len q keys values = heads_out nh hd λ h i.
      let row = head_major len hd (group_of nh nkv h) in
      head_out 64 frozen (λ t. score_at q keys hd scale h (row t) t) len len
        (λ t. values (row t + i))

  -- `k_attn_decode_pm` as `attn_decode_from_cache` launches it: 256 lanes. The model gives `red` an entry
  -- for each of them.
  unfoldable pub attn_decode_pm : ℕ → ℕ → ℕ → Num → ℕ → (ℕ → Num) → (ℕ → Num) → (ℕ → Num) → List Num
  attn_decode_pm nh nkv hd scale len q keys values = heads_out nh hd λ h i.
      let row = position_major nkv hd (group_of nh nkv h) in
      head_out 256 (128 ∷ 64 ∷ frozen) (λ t. score_at q keys hd scale h (row t) t) len len
        (λ t. values (row t + i))

  -- the scores of `k_attn_decode_masked`
  abbrev pub masked_score : (ℕ → Num) → ℕ → ℕ → Num
  masked_score score len t = if ltb t len then score t else neg_big

  -- `k_attn_decode_masked` for MAXT positions
  unfoldable pub attn_decode_masked :
      ℕ → ℕ → ℕ → Num → ℕ → ℕ → (ℕ → Num) → (ℕ → Num) → (ℕ → Num) → List Num
  attn_decode_masked nh nkv hd scale maxt len q keys values = heads_out nh hd λ h i.
      let row = position_major nkv hd (group_of nh nkv h) in
      head_out 64 frozen (masked_score (λ t. score_at q keys hd scale h (row t) t) len) maxt len
        (λ t. values (row t + i))
