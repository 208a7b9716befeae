-- ===== src/Gguf/Parse.antt =====
-- `parse_gguf` of bpd/llamatov_run.py: the header, the metadata, the tensor table, and where the
-- tensor data begins.
pub mod Fuel
pub mod Written
pub mod Align
use llama_tov.Prelude.{
  ℕ, zero, suc, ◌+◌, ◌-◌, ◌*◌, ◌/◌, ◌^◌, Bool, true, false, ◌||◌, Option, none, some, List, [], ◌∷◌,
  leb, ◌==◌, if◌then◌else◌, length, Result, assertion_error, type_error, zero_division_error, ok,
  err, same_bytes,
}
use llama_tov.Prelude.Int.{ℤ, pos, negsuc, sub_ℕ}
use llama_tov.Gguf.Stream.{Stream, Reader, stream, pure, unpack, require, ◌>>=◌, ◌>>◌}
use llama_tov.Gguf.Value.{Value, uint, int, float, flag, rv, read_text}

-- Python's dict, in order of insertion
abbrev pub Dict {ℓ} : Type ℓ → Type ℓ
Dict V = List (List ℕ × V)

module _ {ℓ} {V : Type ℓ} where
  -- `d[k] = v`
  pub put : List ℕ → V → Dict V → Dict V
  put k v [] = (k, v) ∷ []
  put k v ((j, w) ∷ d) = if same_bytes j k then (k, v) ∷ d else (j, w) ∷ put k v d

  -- `d.get(k)`
  pub get : List ℕ → Dict V → Option V
  get k [] = none
  get k ((j, w) ∷ d) = if same_bytes j k then some w else get k d

pub record TensorInfo : Type 0 where
  pub dims : List ℕ
  pub type_code : ℕ
  pub offset : ℕ

-- Where the tensor data begins. With an alignment of type float it is the float that Python computes
-- from the end of the header and the alignment's 32-bit pattern, which is not evaluated here.
pub data Offset : Type 0 where
  whole : ℤ → Offset
  floating : ℕ → ℕ → Offset

pub record Parsed : Type 0 where
  pub metadata : Dict Value
  pub tensors : Dict TensorInfo
  pub data_offset : Offset

-- b'general.alignment'
abbrev pub alignment_key : List ℕ
alignment_key =
    b'g' ∷ b'e' ∷ b'n' ∷ b'e' ∷ b'r' ∷ b'a' ∷ b'l' ∷ b'.' ∷ b'a' ∷ b'l' ∷ b'i' ∷ b'g' ∷ b'n' ∷ b'm'
    ∷ b'e' ∷ b'n' ∷ b't' ∷ []

-- `(do + al - 1) // al * al`; Python's `//` rounds down, also at a negative `al`.
pub align_up : ℕ → ℤ → Result ℤ
align_up at (pos zero) = err zero_division_error
align_up at (pos (suc n)) = ok (pos ((at + suc n - 1) / suc n * suc n))
align_up at (negsuc n) =
    let m = suc n in
    if leb (m + 1) at
    then ok (pos ((at - m - 1 + (m - 1)) / m * m))
    else ok (sub_ℕ 0 ((m + 1 - at) / m * m))

abbrev pub as_offset : Result ℤ → Result Offset
as_offset (ok z) = ok (whole z)
as_offset (err e) = err e

-- An alignment that is no number makes the sum raise TypeError, and a float zero of either sign the
-- division ZeroDivisionError.
pub align_with : ℕ → Option Value → Result Offset
unfolding align_up
align_with at none = as_offset (align_up at (pos 32))
align_with at (some (uint n)) = as_offset (align_up at (pos n))
align_with at (some (int z)) = as_offset (align_up at z)
align_with at (some (flag true)) = as_offset (align_up at (pos 1))
align_with at (some (flag false)) = as_offset (align_up at (pos 0))
align_with at (some (float w)) =
    if w == 0 || w == 2 ^ 31 then err zero_division_error else ok (floating at w)
align_with at (some _) = err type_error

module _ {ℓ} {A : Type ℓ} where
  -- `[one() for _ in range(n)]`
  pub read_list : Reader A → ℕ → Reader (List A)
  read_list one zero = pure []
  read_list one (suc n) = do a ← one; rest ← read_list one n; pure (a ∷ rest)

  -- `for _ in range(n): d[key] = value`
  pub read_dict : Reader (List ℕ × A) → ℕ → Dict A → Reader (Dict A)
  unfolding put
  read_dict one zero d = pure d
  read_dict one (suc n) d = do kv ← one; read_dict one n (put kv.0 kv.1 d)

abbrev pub parsed : Dict Value → Dict TensorInfo → Result Offset → Result Parsed
parsed md ts (ok at) = ok (record { metadata = md; tensors = ts; data_offset = at })
parsed md ts (err e) = err e

-- the data begins at the next multiple of the alignment
pub finish : (Dict Value × Dict TensorInfo) × Stream → Result Parsed
unfolding align_with get
finish ((md, ts), s) = parsed md ts (align_with s.pos (get alignment_key md))

abbrev pub and_then : Result ((Dict Value × Dict TensorInfo) × Stream) → Result Parsed
and_then (ok r) = finish r
and_then (err e) = err e

module _ (is_utf8 : List ℕ → Bool) where
  pub read_metadata : ℕ → Reader (List ℕ × Value)
  unfolding read_text rv
  read_metadata fuel = do k ← read_text is_utf8; vt ← unpack 4; v ← rv is_utf8 fuel vt; pure (k, v)

  pub read_tensor_info : Reader (List ℕ × TensorInfo)
  unfolding read_text read_list
  read_tensor_info = do
    n ← read_text is_utf8
    nd ← unpack 4
    dims ← read_list (unpack 8) nd
    tt ← unpack 4
    off ← unpack 8
    pure (n, record { dims = dims; type_code = tt; offset = off })

  pub read_header : ℕ → Reader (Dict Value × Dict TensorInfo)
  unfolding read_dict read_metadata read_tensor_info
  read_header fuel = do
    magic ← unpack 4
    require (magic == 0x46554747) assertion_error
    ver ← unpack 4
    nt ← unpack 8
    nkv ← unpack 8
    md ← read_dict (read_metadata fuel) nkv []
    ts ← read_dict read_tensor_info nt []
    pure (md, ts)

  pub parse_gguf : List ℕ → Result Parsed
  unfolding read_header finish
  parse_gguf file = and_then (read_header (length file + 1) (stream 0 file))
