-- ===== src/Gguf/Value.antt =====
-- `rv` of bpd/llamatov_run.py: one metadata value of a given type code. A call for the elements of an
-- array costs one unit of fuel; `Fuel` shows how much is enough. Python's limit on recursion, which arrays
-- nested about a thousand deep reach, is not modelled.
pub mod Fuel
pub mod Written
use llama_tov.Prelude.{
  ℕ, zero, suc, ◌-◌, ◌^◌, Bool, not, ◌||◌, List, ltb, ◌==◌, if◌then◌else◌, value_error, out_of_fuel,
}
use llama_tov.Prelude.Int.{ℤ, pos, negsuc}
use llama_tov.Gguf.Stream.{Reader, pure, raise, read, unpack, require, ◌>>=◌, ◌>>◌}

-- What Python holds. `float` keeps the four bytes as a number, `text` its UTF-8 bytes; `nothing` is
-- None.
mutual
  pub data Value : Type 0 where
    uint : ℕ → Value
    int : ℤ → Value
    float : ℕ → Value
    text : List ℕ → Value
    flag : Bool → Value
    array : Items → Value
    nothing : Value

  pub data Items : Type 0 where
    no_items : Items
    item : Value → Items → Items

-- `<i`: the number that a 32-bit pattern stands for
abbrev pub signed32 : ℕ → ℤ
signed32 w = if ltb w (2 ^ 31) then pos w else negsuc (2 ^ 32 - w - 1)

-- the widths of the types that `rv` skips
abbrev pub skipped_width : ℕ → ℕ
skipped_width vt =
    if vt == 0 || vt == 1
    then 1
    else if vt == 2 || vt == 3
    then 2
    else if vt == 11 || vt == 12
    then 8
    else 4

-- `[rv(f, at) for _ in range(c)]`
unfoldable pub read_items : Reader Value → ℕ → Reader Items
read_items one zero = pure no_items
read_items one (suc c) = do v ← one; vs ← read_items one c; pure (item v vs)

-- `is_utf8` tells the byte strings that `bytes.decode()` accepts; it raises UnicodeDecodeError, a
-- ValueError, on the others.
module _ (is_utf8 : List ℕ → Bool) where
  -- a length and so many bytes of text
  unfoldable pub read_text : Reader (List ℕ)
  read_text = do n ← unpack 8; bytes ← read n; require (is_utf8 bytes) value_error; pure bytes

  unfoldable pub rv : ℕ → ℕ → Reader Value
  unfolding read_items read_text
  rv zero vt = raise out_of_fuel
  rv (suc fuel) vt =
      let elements = rv fuel in
      if vt == 4
      then (do n ← unpack 4; pure (uint n))
      else if vt == 5
      then (do n ← unpack 4; pure (int (signed32 n)))
      else if vt == 6
      then (do n ← unpack 4; pure (float n))
      else if vt == 8
      then (do t ← read_text; pure (text t))
      else if vt == 10
      then (do n ← unpack 8; pure (uint n))
      else if vt == 9
      then (do at ← unpack 4; c ← unpack 8; xs ← read_items (elements at) c; pure (array xs))
      else if vt == 7
      then (do n ← unpack 1; pure (flag (not (n == 0))))
      else (do read (skipped_width vt); pure nothing)
