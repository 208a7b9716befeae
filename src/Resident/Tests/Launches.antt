-- ===== src/Resident/Tests/Launches.antt =====
-- The attention and quantization kernels, and the constants, on natural numbers.
use llama_tov.Prelude.{
  ℕ, zero, suc, ◌+◌, ◌-◌, ◌*◌, ◌/◌, ◌<◌, ◌≡◌, refl, sym, ap, ◌∙◌, inl, inr, true, false, List, [],
  ◌∷◌, arith, length, get_or, tabulate, ok, AllOf,
}
use llama_tov.Resident.Consts.{key_of, same_num, dev_const, const_calls, In, const_calls-own}
use llama_tov.Resident.Quantize.{elementwise2, silu_mul, launch_silu_quant, launch_quant}
use llama_tov.Resident.QuantizeAgree.{launch_silu_quant-launch_quant}
use llama_tov.Resident.Attention.{position_major, head_major, attn_decode, attn_decode_masked}
use llama_tov.Resident.MaskedAttention.{
  FloatLaws, Vanishes, head_scores, attn_decode_masked-attn_decode,
}
use llama_tov.Resident.Tests.{naturals, naturals-MaxLaws}

naturals-FloatLaws : FloatLaws naturals
naturals-FloatLaws = record {
  fmax_assoc = λ a b c. max_assoc a b c;
  fmax_comm = λ a b. max_comm a b;
  fmax_idem = λ a. max_idem a;
  add-zero = λ a. omega arith;
}
  where
    max_assoc :
        (a b c : ℕ) → naturals.fmax (naturals.fmax a b) c ≡ naturals.fmax a (naturals.fmax b c)
    max_assoc a b c = ground arith

    max_comm : (a b : ℕ) → naturals.fmax a b ≡ naturals.fmax b a
    max_comm a b = ground arith

    max_idem : (a : ℕ) → naturals.fmax a a ≡ a
    max_idem a = ground arith

one_head :
    (h t i : ℕ)
    → h < 1
    → position_major naturals 1 1 (h / 1) t + i ≡ head_major naturals 2 1 (h / 1) t + i
one_head zero t i lt = omega arith
one_head (suc h) t i lt = absurd (omega arith)

masked_weight :
    (h : ℕ)
    → h < 1
    → Vanishes naturals naturals-FloatLaws
        (head_scores naturals naturals-FloatLaws 1 1 1 1 2 (λ i. 1) (λ i. 5 + 5 * i) h)
        2
masked_weight zero lt = refl
masked_weight (suc h) lt = absurd (omega arith)

-- two positions in use of four, in one head of one float
attn_decode_masked-attn_decode_example :
    attn_decode_masked naturals 1 1 1 1 4 2 (λ i. 1) (λ i. 5 + 5 * i) (λ i. i)
    ≡ attn_decode naturals 1 1 1 1 2 (λ i. 1) (λ i. 5 + 5 * i) (λ i. i)
attn_decode_masked-attn_decode_example =
    attn_decode_masked-attn_decode naturals naturals-FloatLaws 1 1 1 1 4 2 (λ i. 1) (λ i. 5 + 5 * i)
      (λ i. i) (λ i. 5 + 5 * i) (λ i. i) (omega arith)
      (λ h t i lt lt' lt''. ap (λ (a : ℕ). 5 + 5 * a) (one_head h t i lt))
      (λ h t i lt lt' lt''. one_head h t i lt) masked_weight

-- no natural number is a NaN
all_real : (xs : List ℕ) → AllOf naturals-MaxLaws.IsReal xs
unfolding naturals-MaxLaws
all_real [] = tt
all_real (x ∷ xs) = (tt, all_real xs)

launch_silu_quant-launch_quant_example :
    launch_silu_quant naturals (tabulate 32 (λ i. i)) (tabulate 32 (λ i. i * 3))
    ≡ launch_quant naturals false (
        elementwise2 naturals (silu_mul naturals) (tabulate 32 (λ i. i)) (tabulate 32 (λ i. i * 3)))
launch_silu_quant-launch_quant_example =
    launch_silu_quant-launch_quant naturals naturals-MaxLaws false (tabulate 32 (λ i. i))
      (tabulate 32 (λ i. i * 3)) refl
      (all_real (
        elementwise2 naturals (silu_mul naturals) (tabulate 32 (λ i. i))
          (tabulate 32 (λ i. i * 3))))

-- two weights of one length that differ in their middle only
abbrev two_weights : List (List ℕ)
two_weights = (1 ∷ 2 ∷ 3 ∷ []) ∷ (1 ∷ 5 ∷ 3 ∷ []) ∷ []

two_weights-separate :
    (u a : List ℕ)
    → In naturals u two_weights
    → In naturals a two_weights
    → length u ≡ length a
    → same_num naturals (get_or u 0 0) (get_or a 0 0) ≡ true
    → same_num naturals (get_or u (length u / 2) 0) (get_or a (length a / 2) 0) ≡ true
    → same_num naturals (get_or u (length u - 1) 0) (get_or a (length a - 1) 0) ≡ true
    → u ≡ a
two_weights-separate u a (inl e) (inl e') n first h last = sym e ∙ e'
two_weights-separate u a (inl e) (inr (inl e')) n first h last = absurd (no (rw (← e, ← e') at h))
  where
    no : false ≡ true → ⊥
    no h = ground arith
two_weights-separate u a (inr (inl e)) (inl e') n first h last = absurd (no (rw (← e, ← e') at h))
  where
    no : false ≡ true → ⊥
    no h = ground arith
two_weights-separate u a (inr (inl e)) (inr (inl e')) n first h last = sym e ∙ e'
two_weights-separate u a (inl e) (inr (inr i)) n first h last = elim i [ ]
two_weights-separate u a (inr (inl e)) (inr (inr i)) n first h last = elim i [ ]
two_weights-separate u a (inr (inr i)) _ n first h last = elim i [ ]

two_weights-filled : (a : List ℕ) → In naturals a two_weights → 0 < length a
two_weights-filled a (inl e) = rw (← e) (omega arith)
two_weights-filled a (inr (inl e)) = rw (← e) (omega arith)
two_weights-filled a (inr (inr i)) = elim i [ ]

const_calls-own_example : const_calls naturals [] two_weights ≡ ok two_weights
const_calls-own_example =
    const_calls-own naturals two_weights two_weights-filled two_weights-separate

-- of two that agree in their sample, the second call gives the first array
sampled :
    const_calls naturals [] ((1 ∷ 2 ∷ 3 ∷ 4 ∷ 5 ∷ []) ∷ (1 ∷ 9 ∷ 3 ∷ 8 ∷ 5 ∷ []) ∷ [])
    ≡ ok ((1 ∷ 2 ∷ 3 ∷ 4 ∷ 5 ∷ []) ∷ (1 ∷ 2 ∷ 3 ∷ 4 ∷ 5 ∷ []) ∷ [])
unfolding dev_const key_of
sampled = refl
