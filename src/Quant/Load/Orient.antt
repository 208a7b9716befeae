-- ===== src/Quant/Load/Orient.antt =====
-- GGUF stores a tensor with its first dimension fastest. Where the loaded tensors have an element of
-- the file, and the shapes that a loader refuses.
use llama_tov.Prelude.{
  ℕ, ◌+◌, ◌*◌, ◌/◌, ◌<◌, ◌≡◌, refl, ap, ◌∙◌, ◌≢◌, inl, inr, List, [], ◌∷◌, arith, ◌==◌, Bool-cases,
  length, get_or, take, drop, tabulate, length-tabulate, get_or-tabulate, rounds,
  length-rounds_from, get_or-rounds_from, value_error, ok, err,
}
use llama_tov.Quant.Floats.{FloatOps}
use llama_tov.Quant.Load.{
  Tensor, orient2, orient3, finalize, finalize_q8_0, product, lt, dequantize,
}

module _ (F : FloatOps) where
  open F use {Float, zero}

  orient2_lem :
      (ne0 ne1 : ℕ) (a : List Float) (i0 i1 : ℕ)
      → i0 < ne0
      → i1 < ne1
      → get_or (orient2 F ne0 ne1 a) (i0 * ne1 + i1) zero ≡ get_or a (i1 * ne0 + i0) zero
  unfolding orient2
  orient2_lem ne0 ne1 a i0 i1 h0 h1 =
      let column = λ (i : ℕ). tabulate ne1 (λ j. get_or a (j * ne0 + i) zero) in
      let e : 0 + i0 ≡ i0 = omega arith in
      get_or-rounds_from ne1 0 ne0 column i0 i1 zero
        (λ k lt. length-tabulate ne1 (λ j. get_or a (j * ne0 + k) zero)) h0 h1
      ∙ ap (λ (i : ℕ). get_or (column i) i1 zero) e
      ∙ get_or-tabulate ne1 (λ j. get_or a (j * ne0 + i0) zero) zero i1 h1

  orient3_lem :
      (ne0 ne1 ne2 : ℕ) (a : List Float) (i0 i1 i2 : ℕ)
      → i0 < ne0
      → i1 < ne1
      → i2 < ne2
      → get_or (orient3 F ne0 ne1 ne2 a) (i0 * (ne1 * ne2) + (i1 * ne2 + i2)) zero
        ≡ get_or a ((i2 * ne1 + i1) * ne0 + i0) zero
  unfolding orient3
  orient3_lem ne0 ne1 ne2 a i0 i1 i2 h0 h1 h2 =
      let cell = λ (i j k : ℕ). get_or a ((k * ne1 + j) * ne0 + i) zero in
      let row = λ (i j : ℕ). tabulate ne2 (cell i j) in
      let plane = λ (i : ℕ). rounds ne1 (row i) in
      let e0 : 0 + i0 ≡ i0 = omega arith in
      let e1 : 0 + i1 ≡ i1 = omega arith in
      get_or-rounds_from (ne1 * ne2) 0 ne0 plane i0 (i1 * ne2 + i2) zero
        (λ k lt. length-rounds_from ne2 0 ne1 (row k) (λ j l. length-tabulate ne2 (cell k j))) h0
        (grind arith)
      ∙ ap (λ (i : ℕ). get_or (plane i) (i1 * ne2 + i2) zero) e0
      ∙ get_or-rounds_from ne2 0 ne1 (row i0) i1 i2 zero (λ k lt. length-tabulate ne2 (cell i0 k))
          h1 h2
      ∙ ap (λ (j : ℕ). get_or (row i0 j) i2 zero) e1
      ∙ get_or-tabulate ne2 (cell i0 i1) zero i2 h2

  -- Where `_finalize_dequant` accepts a matrix, element (i0, i1) of the result, read row-major, is
  -- element i1 * ne0 + i0 of the decoded data: the first dimension is the fastest in the file.
  pub finalize_matrix :
      (ne0 ne1 : ℕ) (a : List Float) (t : Tensor F) (i0 i1 : ℕ)
      → finalize F a (ne0 ∷ ne1 ∷ []) ≡ ok t
      → i0 < ne0
      → i1 < ne1
      → get_or t.items (i0 * ne1 + i1) zero ≡ get_or a (i1 * ne0 + i0) zero
  unfolding finalize
  finalize_matrix ne0 ne1 a t i0 i1 h h0 h1 =
      let items : t.items ≡ orient2 F ne0 ne1 a = ground arith in
      ap (λ l. get_or l (i0 * ne1 + i1) zero) items ∙ orient2_lem ne0 ne1 a i0 i1 h0 h1

  -- Where `_finalize_dequant` accepts three dimensions, the result is turned the same way: element
  -- (i0, i1, i2) is element (i2 * ne1 + i1) * ne0 + i0 of the decoded data.
  pub finalize_cube :
      (ne0 ne1 ne2 : ℕ) (a : List Float) (t : Tensor F) (i0 i1 i2 : ℕ)
      → finalize F a (ne0 ∷ ne1 ∷ ne2 ∷ []) ≡ ok t
      → i0 < ne0
      → i1 < ne1
      → i2 < ne2
      → get_or t.items (i0 * (ne1 * ne2) + (i1 * ne2 + i2)) zero
        ≡ get_or a ((i2 * ne1 + i1) * ne0 + i0) zero
  unfolding finalize
  finalize_cube ne0 ne1 ne2 a t i0 i1 i2 h h0 h1 h2 =
      let items : t.items ≡ orient3 F ne0 ne1 ne2 a = ground arith in
      ap (λ l. get_or l (i0 * (ne1 * ne2) + (i1 * ne2 + i2)) zero) items
      ∙ orient3_lem ne0 ne1 ne2 a i0 i1 i2 h0 h1 h2

  no_matrix :
      (a : List Float) (dims : List ℕ) → length dims ≢ 2 → finalize_q8_0 F a dims ≡ err value_error
  unfolding finalize_q8_0
  no_matrix a [] h = refl
  no_matrix a (n ∷ []) h = refl
  no_matrix a (n ∷ m ∷ []) h = absurd (h refl)
  no_matrix a (n ∷ m ∷ k ∷ ns) h = refl

  -- A Q8_0 tensor whose shape has not two dimensions is never loaded: whatever the file holds, `lt`
  -- raises ValueError.
  pub lt-q8_0_no_matrix :
      (file : List ℕ) (data_offset ro : ℕ) (dims : List ℕ)
      → length dims ≢ 2
      → lt F file data_offset dims 8 ro ≡ err value_error
  unfolding lt dequantize
  lt-q8_0_no_matrix file data_offset ro dims h =
      let nb = product dims / 32 in
      let off = data_offset + ro in
      elim (Bool-cases (length (take (nb * 34) (drop off file)) == nb * 34)) [
        | inl whole ↦ rw whole (no_matrix _ dims h)
        | inr short ↦ rw short refl
      ]
