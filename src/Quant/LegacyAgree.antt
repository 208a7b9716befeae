-- ===== src/Quant/LegacyAgree.antt =====
-- The older decoders against those of bpd/llamatov_run.py.
use llama_tov.Prelude.{
  ℕ, ◌+◌, ◌-◌, ◌*◌, ◌/◌, ◌%◌, ◌≤◌, ◌<◌, ◌≡◌, refl, sym, inl, inr, true, false, List, [], ◌∷◌, arith,
  ltb, ◌==◌, if◌then◌else◌, lt→ltb, Bool-cases, length, get_or, get_or-tabulate, Error, Result,
  guard, ◌>>=◌, ◌>>◌, value_error, runtime_error, ok, err,
}
use llama_tov.Prelude.Int.{pos}
use llama_tov.Quant.Floats.{FloatOps, Row, byte}
use llama_tov.Quant.Simple.{dq4_0_block, dq8_0_block}
use llama_tov.Quant.SuperBlock.{q4k_code, scale_code, min_code}
use llama_tov.Quant.Load.{
  f32, f16, q4_0, q8_0, Tensor, orient2, dequantize, reshape, finalize, finalize_q8_0, plain, load,
}
use llama_tov.Quant.Legacy.{
  legacy_q4k_code, dequant_q8_0, dequant_q4_0, dequant_q4_k, load_tensor_by_type,
}

-- the place in the file's order of the quant that `dequant_q4_k` puts at `e`
abbrev pub q4k_place : ℕ → ℕ
q4k_place e = if ltb e 128 then e / 32 * 64 + e % 32 else (e - 128) / 32 * 64 + (32 + e % 32)

-- the quant that `dequant_q4_k` gives element `e` is the one that the file has at `q4k_place e`
pub legacy_q4k_code-q4k_code :
    (row : Row) (e : ℕ)
    → e < 256
    → (let p = q4k_place e in legacy_q4k_code row e ≡ q4k_code row (p / 64) (p % 64))
unfolding legacy_q4k_code
legacy_q4k_code-q4k_code row e h = elim (Bool-cases (ltb e 128)) [
  | inl low ↦
      let p = e / 32 * 64 + e % 32 in
      let first : ltb (p % 64) 32 ≡ true = lt→ltb (p % 64) 32 (omega arith) in
      let at : p / 64 * 32 + p % 64 ≡ e = omega arith in rw (low, first, at) refl
  | inr high ↦
      let p = (e - 128) / 32 * 64 + (32 + e % 32) in
      let big : 128 ≤ e = not_below high in
      let second : ltb (p % 64) 32 ≡ false = not_less (p % 64) (omega arith) in
      let at : p / 64 * 32 + (p % 64 - 32) ≡ e - 128 = omega arith in rw (high, second, at) refl
]
  where
    not_below : ltb e 128 ≡ false → 128 ≤ e
    not_below h = ground arith

    not_less : (r : ℕ) → 32 ≤ r → ltb r 32 ≡ false
    not_less r h = ground arith

module _ (F : FloatOps) where
  open F use {Float, from_half, from_int, mul, sub, zero}

  -- For every block of bytes and element `e`: `dequant_q4_k` gives `d * scale * quant - dmin * min`, with
  -- the scale and the minimum of the 32 elements at `e` itself, but with the quant that `dq4k` gives
  -- element `e / 32 * 64 + e % 32`, where `e` is below 128, or `(e - 128) / 32 * 64 + 32 + e % 32`.
  pub dequant_q4_k_lem :
      (row : Row) (e : ℕ)
      → e < 256
      → (let p = q4k_place e in
          get_or (dequant_q4_k F row) e zero
          ≡ sub
              (mul
                (mul
                  (from_half (byte row 0) (byte row 1))
                  (from_int (pos (scale_code row (e / 32)))))
                (from_int (pos (q4k_code row (p / 64) (p % 64)))))
              (mul (from_half (byte row 2) (byte row 3)) (from_int (pos (min_code row (e / 32))))))
  unfolding dequant_q4_k
  dequant_q4_k_lem row e h =
      rw (get_or-tabulate 256 _ zero e h, legacy_q4k_code-q4k_code row e h) refl

  -- the matrix of `ne0` by `ne1` whose rows were columns
  abbrev pub turned : ℕ → ℕ → Tensor F → Tensor F
  turned ne0 ne1 t = record { shape = ne0 ∷ ne1 ∷ []; items = orient2 F ne0 ne1 t.items }

  -- a shape's check and the turn, for one exception
  check_turned :
      (a : List Float) (ne0 ne1 : ℕ) (e : Error)
      → (do
        guard (length a == ne1 * ne0) e
        ok (record { shape = ne0 ∷ ne1 ∷ []; items = orient2 F ne0 ne1 a }))
        ≡ (do t ← reshape F a (ne1 ∷ ne0 ∷ []) e; ok (turned ne0 ne1 t))
  unfolding reshape
  check_turned a ne0 ne1 e =
      let one : ne0 * 1 ≡ ne0 = omega arith in
      elim (Bool-cases (length a == ne1 * ne0)) [
        | inl fits ↦ rw (one, fits) refl
        | inr other ↦ rw (one, other) refl
      ]

  -- `load_tensor_by_type` of the reversed shape, turned
  abbrev pub old_turned : List ℕ → ℕ → ℕ → ℕ → ℕ → ℕ → Result (Tensor F)
  old_turned file offset n ne0 ne1 type_code = do
    t ← load_tensor_by_type F file offset n (ne1 ∷ ne0 ∷ []) type_code
    ok (turned ne0 ne1 t)

  -- the same, behind the reading of the blocks
  blocks_turned :
      (r : Result (List Float)) (ne0 ne1 : ℕ)
      → (r >>= λ a. finalize F a (ne0 ∷ ne1 ∷ []))
        ≡ ((r >>= λ a. reshape F a (ne1 ∷ ne0 ∷ []) value_error) >>= λ t. ok (turned ne0 ne1 t))
  unfolding finalize
  blocks_turned (ok a) ne0 ne1 = check_turned a ne0 ne1 value_error
  blocks_turned (err e) ne0 ne1 = refl

  -- For every file, place and number of elements, of a matrix of `ne0` by `ne1` (in the order of GGUF),
  -- whether it is read or an exception is raised: what `lt`'s loader gives for float32, float16 and Q4_0
  -- is what `load_tensor_by_type` gives for the reversed shape, turned. For Q8_0 the older code raises
  -- ValueError where the number of elements is no multiple of 32, and agrees with the loader elsewhere.
  pub load-load_tensor_by_type :
      (file : List ℕ) (offset n ne0 ne1 : ℕ)
      → (load F f32 file offset n (ne0 ∷ ne1 ∷ []) ≡ old_turned file offset n ne0 ne1 0)
        × (load F f16 file offset n (ne0 ∷ ne1 ∷ []) ≡ old_turned file offset n ne0 ne1 1)
        × (load F q4_0 file offset n (ne0 ∷ ne1 ∷ []) ≡ old_turned file offset n ne0 ne1 2)
        × (old_turned file offset n ne0 ne1 8
            ≡ (do guard (n / 32 * 32 == n) value_error; load F q8_0 file offset n (ne0 ∷ ne1 ∷ [])))
  unfolding load_tensor_by_type load plain finalize finalize_q8_0 dq4_0_block dequant_q4_0
      dq8_0_block dequant_q8_0
  load-load_tensor_by_type file offset n ne0 ne1 = (
    check_turned _ ne0 ne1 runtime_error,
    check_turned _ ne0 ne1 runtime_error,
    blocks_turned (dequantize F file offset (n / 32) 18 (dq4_0_block F)) ne0 ne1,
    elim (Bool-cases (n / 32 * 32 == n)) [
      | inl whole ↦
          rw whole
            (sym (blocks_turned (dequantize F file offset (n / 32) 34 (dq8_0_block F)) ne0 ne1))
      | inr rest ↦ rw rest refl
    ],
  )
