-- ===== src/Quant/Load.antt =====
-- Loading a tensor: `_finalize_dequant` and `lt` of bpd/llamatov_run.py, with the reads and the
-- reshapes of the decoders. The file is the list of its bytes.
pub mod Orient
pub mod Packed
use llama_tov.Prelude.{
  ℕ, zero, ◌+◌, ◌*◌, ◌/◌, Option, none, some, List, [], ◌∷◌, ◌==◌, if◌then◌else◌, length, get_or,
  take, drop, replicate, tabulate, rounds, Error, Result, ◌>>=◌, ◌>>◌, guard, value_error,
  runtime_error, ok, err,
}
use llama_tov.Quant.Floats.{FloatOps, Row, byte}
use llama_tov.Quant.Simple.{dq4_0_block, dq5_0_block, dq8_0_block}
use llama_tov.Quant.SuperBlock.{dq2k_block, dq3k_block, dq4k_block, dq5k_block, dq6k_block}

abbrev pub product : List ℕ → ℕ
product [] = 1
product (n ∷ ns) = n * product ns

-- `f.seek(off); f.read(n)`, which is short at the end of the file
abbrev pub read_at : List ℕ → ℕ → ℕ → List ℕ
read_at file off n = take n (drop off file)

-- `np.frombuffer(...).reshape(nb, bsz)`
unfoldable pub read_rows : List ℕ → ℕ → ℕ → ℕ → Result (List ℕ)
read_rows file off nb bsz = do
  let raw = read_at file off (nb * bsz)
  guard (length raw == nb * bsz) value_error
  ok raw

abbrev pub nth_row : List ℕ → ℕ → ℕ → Row
nth_row raw bsz k = take bsz (drop (k * bsz) raw)

-- The loaders of `lt`, one for each type code that it knows.
pub data Loader : Type 0 where
  f32 f16 q4_0 q5_0 q8_0 q2_k q3_k q4_k q5_k q6_k : Loader

-- the keys of `loaders`
abbrev pub loader_of : ℕ → Option Loader
loader_of tt =
    if tt == 0
    then some f32
    else if tt == 1
    then some f16
    else if tt == 2
    then some q4_0
    else if tt == 6
    then some q5_0
    else if tt == 8
    then some q8_0
    else if tt == 10
    then some q2_k
    else if tt == 11
    then some q3_k
    else if tt == 12
    then some q4_k
    else if tt == 13
    then some q5_k
    else if tt == 14
    then some q6_k
    else none

module _ (F : FloatOps) where
  open F use {Float, zero, from_half, from_single}

  -- a float32 tensor: its shape and its elements in row-major order
  pub record Tensor : Type 0 where
    pub shape : List ℕ
    pub items : List Float

  -- `a.reshape([ne1, ne0]).T`
  unfoldable pub orient2 : ℕ → ℕ → List Float → List Float
  orient2 ne0 ne1 a = rounds ne0 (λ i0. tabulate ne1 (λ i1. get_or a (i1 * ne0 + i0) zero))

  -- `a.reshape([ne2, ne1, ne0]).transpose(2, 1, 0)`
  unfoldable pub orient3 : ℕ → ℕ → ℕ → List Float → List Float
  orient3 ne0 ne1 ne2 a =
      rounds ne0
        λ i0. rounds ne1 λ i1. tabulate ne2 (λ i2. get_or a ((i2 * ne1 + i1) * ne0 + i0) zero)

  -- `a.reshape(shape)`, row-major as `a` is
  unfoldable pub reshape : List Float → List ℕ → Error → Result Tensor
  reshape a shape e = do
    guard (length a == product shape) e
    ok (record { shape = shape; items = a })

  unfoldable pub finalize : List Float → List ℕ → Result Tensor
  unfolding reshape
  finalize a (ne0 ∷ ne1 ∷ []) = do
    guard (length a == ne1 * ne0) value_error
    ok (record { shape = ne0 ∷ ne1 ∷ []; items = orient2 ne0 ne1 a })
  finalize a (ne0 ∷ ne1 ∷ ne2 ∷ []) = do
    guard (length a == ne2 * (ne1 * ne0)) value_error
    ok (record { shape = ne0 ∷ ne1 ∷ ne2 ∷ []; items = orient3 ne0 ne1 ne2 a })
  finalize a shape = reshape a shape value_error

  -- The tail of `dq2k` and `dq3k`: only two dimensions are turned.
  unfoldable pub finalize_2d_only : List Float → List ℕ → Result Tensor
  unfolding reshape
  finalize_2d_only a (ne0 ∷ ne1 ∷ []) = do
    guard (length a == ne1 * ne0) value_error
    ok (record { shape = ne0 ∷ ne1 ∷ []; items = orient2 ne0 ne1 a })
  finalize_2d_only a shape = reshape a shape value_error

  -- The tail of `dq8_0`: `ne0, ne1 = shape` stands before the test on the shape's length.
  unfoldable pub finalize_q8_0 : List Float → List ℕ → Result Tensor
  finalize_q8_0 a (ne0 ∷ ne1 ∷ []) = do
    guard (length a == ne1 * ne0) value_error
    ok (record { shape = ne0 ∷ ne1 ∷ []; items = orient2 ne0 ne1 a })
  finalize_q8_0 a shape = err value_error

  -- The elements of the blocks from `off` on: the first lines of each decoder and its loops.
  unfoldable pub dequantize : List ℕ → ℕ → ℕ → ℕ → (Row → List Float) → Result (List Float)
  unfolding read_rows
  dequantize file off nb bsz block = do
    raw ← read_rows file off nb bsz
    ok (rounds nb (λ k. block (nth_row raw bsz k)))

  -- `np.fromfile(path, dtype, count=cnt, offset=off)` of items of `size` bytes
  abbrev pub from_file : List ℕ → ℕ → ℕ → ℕ → (Row → Float) → List Float
  from_file file off cnt size item =
      let raw = read_at file off (cnt * size) in
      tabulate (length raw / size) (λ k. item (nth_row raw size k))

  -- `reshape(dims[::-1]).T if len(dims)==2 else reshape(dims)` of a torch tensor
  unfoldable pub plain : List Float → List ℕ → Result Tensor
  unfolding reshape
  plain a (ne0 ∷ ne1 ∷ []) = do
    guard (length a == ne1 * ne0) runtime_error
    ok (record { shape = ne0 ∷ ne1 ∷ []; items = orient2 ne0 ne1 a })
  plain a dims = reshape a dims runtime_error

  unfoldable pub load : Loader → List ℕ → ℕ → ℕ → List ℕ → Result Tensor
  load f32 file off cnt dims =
      plain
        (from_file file off cnt 4 (λ r. from_single (byte r 0) (byte r 1) (byte r 2) (byte r 3)))
        dims
  load f16 file off cnt dims =
      plain (from_file file off cnt 2 (λ r. from_half (byte r 0) (byte r 1))) dims
  load q4_0 file off cnt dims = do
    a ← dequantize file off (cnt / 32) 18 (dq4_0_block F)
    finalize a dims
  load q5_0 file off cnt dims = do
    a ← dequantize file off (cnt / 32) 22 (dq5_0_block F)
    finalize a dims
  load q8_0 file off cnt dims = do
    a ← dequantize file off (cnt / 32) 34 (dq8_0_block F)
    finalize_q8_0 a dims
  load q2_k file off cnt dims = do
    a ← dequantize file off (cnt / 256) 84 (dq2k_block F)
    finalize_2d_only a dims
  load q3_k file off cnt dims = do
    a ← dequantize file off (cnt / 256) 110 (dq3k_block F)
    finalize_2d_only a dims
  load q4_k file off cnt dims = do
    a ← dequantize file off (cnt / 256) 144 (dq4k_block F)
    finalize a dims
  load q5_k file off cnt dims = do
    a ← dequantize file off (cnt / 256) 176 (dq5k_block F)
    finalize a dims
  load q6_k file off cnt dims = do
    a ← dequantize file off (cnt / 256) 210 (dq6k_block F)
    finalize a dims

  -- `lt`: an unknown type is all zeros
  unfoldable pub lt : List ℕ → ℕ → List ℕ → ℕ → ℕ → Result Tensor
  unfolding load
  lt file data_offset dims tt ro =
      let off = data_offset + ro in
      let cnt = product dims in
      elim (loader_of tt) [
        | some l ↦ load l file off cnt dims
        | none ↦ ok (record { shape = dims; items = replicate cnt zero })
      ]
