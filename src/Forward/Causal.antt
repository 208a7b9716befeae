-- ===== src/Forward/Causal.antt =====
-- Attention over keys and values that later rows have joined, and layers on one row more.
use llama_tov.Prelude.{
  ℕ, zero, suc, ◌+◌, ◌<◌, ◌≡◌, refl, sym, ap, ◌∙◌, fun_ext, List, [], ◌∷◌, ◌++◌, map, map-append,
  arith, ltb, if◌then◌else◌, lt→ltb, length, length-map, rounds,
}
use llama_tov.Forward.Torch.{TorchOps, MaskLaw}
use llama_tov.Forward.Rows.{Row, head_at, kv_head, mask_from, attend_head, attend}
use llama_tov.Forward.Layers.{Layer}
use llama_tov.Forward.Generate.{cached_head, cached_attention}

module _ (T : TorchOps) where
  open T use {Num, neg_inf, softmax, combine}

  -- The scores after the limit are masked.
  pub mask_from-append :
      (limit t : ℕ) (ss : Row T) (s : Num)
      → limit < t + length ss
      → mask_from T limit t (ss ++ (s ∷ [])) ≡ mask_from T limit t ss ++ (neg_inf ∷ [])
  mask_from-append limit t [] s h = rw (lt→ltb limit t (omega arith)) refl
  mask_from-append limit t (r ∷ rs) s h =
      ap (λ l. (if ltb limit t then neg_inf else r) ∷ l)
        (mask_from-append limit (suc t) rs s (omega arith))

  pub length-mask_from : (limit t : ℕ) (ss : Row T) → length (mask_from T limit t ss) ≡ length ss
  length-mask_from limit t [] = refl
  length-mask_from limit t (s ∷ ss) = ap suc (length-mask_from limit (suc t) ss)

  -- A single score at the limit is not masked.
  pub mask_from-single :
      (score : Row T → Num) (ks : List (Row T)) (limit : ℕ)
      → limit < length ks
      → (if ltb 1 (length ks) then mask_from T limit 0 (map score ks) else map score ks)
        ≡ mask_from T limit 0 (map score ks)
  mask_from-single score [] limit h = refl
  mask_from-single score (k ∷ []) zero h = refl
  mask_from-single score (k ∷ []) (suc limit) h = absurd (omega arith)
  mask_from-single score (k ∷ k' ∷ ks) limit h =
      rw (lt→ltb 1 (suc (suc (length ks))) (omega arith)) refl

  pub cached_head-attend_head :
      (score : Row T → Row T → Num) (q : Row T) (ks vs : List (Row T)) (limit : ℕ)
      → limit < length ks
      → cached_head T score q ks vs limit ≡ attend_head T score q ks vs limit
  unfolding cached_head attend_head
  cached_head-attend_head score q ks vs limit h =
      ap (λ m. combine (softmax m) vs) (mask_from-single (score q) ks limit h)

  pub cached_attention-attend :
      (score : Row T → Row T → Num) (nh nkv hd : ℕ) (q : Row T) (ks vs : List (Row T)) (limit : ℕ)
      → limit < length ks
      → cached_attention T score nh nkv hd q ks vs limit ≡ attend T score nh nkv hd q ks vs limit
  unfolding cached_attention attend
  cached_attention-attend score nh nkv hd q ks vs limit h = ap (rounds nh) (
      fun_ext λ j.
        let g = head_at T hd (kv_head T nh nkv j) in
        cached_head-attend_head score (head_at T hd j q) (map g ks) (map g vs) limit
          (omega (arith, length-map ks g)))

  module _ (law : MaskLaw T) where
    pub attend_head-append :
        (score : Row T → Row T → Num) (q : Row T) (ks vs : List (Row T)) (k v : Row T) (limit : ℕ)
        → length ks ≡ length vs
        → limit < length ks
        → attend_head T score q (ks ++ (k ∷ [])) (vs ++ (v ∷ [])) limit
          ≡ attend_head T score q ks vs limit
    unfolding attend_head
    attend_head-append score q ks vs k v limit e h =
        let ss = map (score q) ks in
        let n = length-map ks (score q) in
        ap (λ m. combine (softmax (mask_from T limit 0 m)) (vs ++ (v ∷ [])))
          (map-append (score q) ks (k ∷ []))
        ∙ ap (λ m. combine (softmax m) (vs ++ (v ∷ [])))
            (mask_from-append limit 0 ss (score q k) (omega (arith, n)))
        ∙ law.masked (mask_from T limit 0 ss) vs v (length-mask_from limit 0 ss ∙ n ∙ e)
            (omega (arith, length-mask_from limit 0 ss, n))

    pub attend-append :
        (score : Row T → Row T → Num) (nh nkv hd : ℕ) (q : Row T) (ks vs : List (Row T))
        (k v : Row T) (limit : ℕ)
        → length ks ≡ length vs
        → limit < length ks
        → attend T score nh nkv hd q (ks ++ (k ∷ [])) (vs ++ (v ∷ [])) limit
          ≡ attend T score nh nkv hd q ks vs limit
    unfolding attend
    attend-append score nh nkv hd q ks vs k v limit e h = ap (rounds nh) (
        fun_ext λ j.
          let g = head_at T hd (kv_head T nh nkv j) in
          rw (map-append g ks (k ∷ []), map-append g vs (v ∷ []))
            (attend_head-append score (head_at T hd j q) (map g ks) (map g vs) (g k) (g v) limit
              (length-map ks g ∙ e ∙ sym (length-map vs g)) (omega (arith, length-map ks g))))

  -- the attention of a row does not see the rows after it
  abbrev pub Causal : Layer T → Type 0
  Causal f =
      (q : Row T) (ks vs : List (Row T)) (k v : Row T) (p : ℕ)
      → length ks ≡ length vs
      → p < length ks
      → f.attention q (ks ++ (k ∷ [])) (vs ++ (v ∷ [])) p ≡ f.attention q ks vs p
