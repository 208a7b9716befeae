-- ===== src/Quant/Floats.antt =====
-- What the decoders use of numpy's float32 and float16, which is not code of the repository.
use llama_tov.Prelude.{ℕ, ◌-◌, List, get_or, ltb, if◌then◌else◌}
use llama_tov.Prelude.Int.{ℤ, pos, negsuc}

-- One row of `raw.reshape(nb, bsz)`: the bytes of one block.
abbrev pub Row : Type 0
Row = List ℕ

-- the byte at an index, which the decoders keep below the row's length
abbrev pub byte : Row → ℕ → ℕ
byte row i = get_or row i 0

pub record FloatOps : Type 1 where
  pub Float : Type 0
  -- the float32 of a float16 given by its two bytes, the low one first
  pub from_half : ℕ → ℕ → Float
  -- `.astype(np.float32)` of an integer
  pub from_int : ℤ → Float
  pub mul : Float → Float → Float
  pub sub : Float → Float → Float
  pub add : Float → Float → Float
  pub zero : Float
  -- the float32 and the float16 that stand at consecutive bytes of a file
  pub from_single : ℕ → ℕ → ℕ → ℕ → Float

-- `.view(np.int8)` of a byte
abbrev pub int8 : ℕ → ℤ
int8 b = if ltb b 128 then pos b else negsuc (255 - b)
