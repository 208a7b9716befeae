-- ===== src/Gguf/Parse/Fuel.antt =====
-- `parse_gguf` has enough fuel for every file.
use llama_tov.Prelude.{
  ℕ, zero, suc, ◌+◌, ◌≤◌, ◌<◌, ap, ◌≢◌, Bool, true, false, Option, none, some, List, [], arith,
  length, Error, Result, value_error, assertion_error, out_of_fuel, ok, err,
}
use llama_tov.Prelude.Int.{ℤ, pos, negsuc}
use llama_tov.Gguf.Stream.{Stream, Reader, stream, unpack}
use llama_tov.Gguf.Stream.Takes.{
  Fine, Takes, Takes-pure, Takes-bind, Takes-unpack, Takes-require, Takes-any,
}
use llama_tov.Gguf.Value.{Value, uint, int, float, text, flag, array, nothing}
use llama_tov.Gguf.Value.Fuel.{Takes-read_text, Takes-rv}
use llama_tov.Gguf.Parse.{
  Dict, TensorInfo, Offset, as_offset, put, align_up, align_with, finish, parsed, get,
  alignment_key, and_then, read_list, read_dict, read_metadata, read_tensor_info, read_header,
  parse_gguf,
}

module _ {ℓ} {A : Type ℓ} where
  Takes-read_list :
      (one : Reader A) (c n : ℕ) → ((m : ℕ) → m ≤ n → Takes m 0 one) → Takes n 0 (read_list one c)
  unfolding read_list
  Takes-read_list one zero n h = Takes-pure n _
  Takes-read_list one (suc c) n h = Takes-bind n 0 one _ (h n (omega arith)) λ v left le.
      Takes-bind left 0 _ _ (Takes-read_list one c left (λ m k. h m (omega arith)))
        λ vs rest _. Takes-pure rest _

  Takes-read_dict :
      (one : Reader (List ℕ × A)) (c n : ℕ) (d : Dict A)
      → ((m : ℕ) → m ≤ n → Takes m 0 one)
      → Takes n 0 (read_dict one c d)
  unfolding read_dict
  Takes-read_dict one zero n d h = Takes-pure n _
  Takes-read_dict one (suc c) n d h =
      Takes-bind n 0 one _ (h n (omega arith))
        λ kv left le. Takes-read_dict one c left (put kv.0 kv.1 d) (λ m k. h m (omega arith))

align_up-no_fuel : (at : ℕ) (z : ℤ) → align_up at z ≢ err out_of_fuel
unfolding align_up
align_up-no_fuel at (pos zero) e = ground arith
align_up-no_fuel at (pos (suc n)) e = ground arith
align_up-no_fuel at (negsuc n) e = ground arith

err-no_fuel {ℓ} :
    {A : Type ℓ} (e : Error) → e ≢ out_of_fuel → ◌≢◌ {A = Result A} (err e) (err out_of_fuel)
err-no_fuel {A = A} e h eq = h (ap error_of eq)
  where
    error_of : Result A → Error
    error_of (ok a) = value_error
    error_of (err x) = x

as_offset-no_fuel : (r : Result ℤ) → r ≢ err out_of_fuel → as_offset r ≢ err out_of_fuel
as_offset-no_fuel (ok z) h = λ e. ground arith
as_offset-no_fuel (err e) h = err-no_fuel e (λ eq. h (ap err eq))

align_with-no_fuel : (at : ℕ) (v : Option Value) → align_with at v ≢ err out_of_fuel
unfolding align_with
align_with-no_fuel at none = as_offset-no_fuel _ (align_up-no_fuel at (pos 32))
align_with-no_fuel at (some (uint n)) = as_offset-no_fuel _ (align_up-no_fuel at (pos n))
align_with-no_fuel at (some (int z)) = as_offset-no_fuel _ (align_up-no_fuel at z)
align_with-no_fuel at (some (flag true)) = as_offset-no_fuel _ (align_up-no_fuel at (pos 1))
align_with-no_fuel at (some (flag false)) = as_offset-no_fuel _ (align_up-no_fuel at (pos 0))
align_with-no_fuel at (some (float w)) = λ e. ground arith
align_with-no_fuel at (some (text t)) = λ e. ground arith
align_with-no_fuel at (some (array xs)) = λ e. ground arith
align_with-no_fuel at (some nothing) = λ e. ground arith

parsed-no_fuel :
    (md : Dict Value) (ts : Dict TensorInfo) (r : Result Offset)
    → r ≢ err out_of_fuel
    → parsed md ts r ≢ err out_of_fuel
parsed-no_fuel md ts (ok at) h = λ e. ground arith
parsed-no_fuel md ts (err e) h = err-no_fuel e (λ eq. h (ap err eq))

and_then-no_fuel :
    (n : ℕ) (r : Result ((Dict Value × Dict TensorInfo) × Stream))
    → Fine n 0 r
    → and_then r ≢ err out_of_fuel
unfolding finish
and_then-no_fuel n (ok ((md, ts), s)) h =
    parsed-no_fuel md ts _ (align_with-no_fuel s.pos (get alignment_key md))
and_then-no_fuel n (err e) h = err-no_fuel e h

module _ (is_utf8 : List ℕ → Bool) where
  Takes-read_metadata : (fuel n : ℕ) → n < fuel → Takes n 0 (read_metadata is_utf8 fuel)
  unfolding read_metadata
  Takes-read_metadata fuel n h = Takes-bind n 0 _ _ (Takes-read_text is_utf8 n) λ k m le.
      Takes-bind m 4 _ _ (Takes-unpack m 4) λ vt j le'.
        Takes-bind j 0 _ _ (Takes-rv is_utf8 fuel j vt (omega arith)) λ v i _. Takes-pure i _

  Takes-read_tensor_info : (n : ℕ) → Takes n 0 (read_tensor_info is_utf8)
  unfolding read_tensor_info
  Takes-read_tensor_info n = Takes-bind n 0 _ _ (Takes-read_text is_utf8 n) λ name m _.
      Takes-bind m 4 _ _ (Takes-unpack m 4) λ nd j _.
        Takes-bind j 0 _ _
          (Takes-read_list (unpack 8) nd j (λ i _. Takes-any i 8 _ (Takes-unpack i 8)))
          λ dims i _.
            Takes-bind i 4 _ _ (Takes-unpack i 4)
              λ tt h _. Takes-bind h 8 _ _ (Takes-unpack h 8) (λ off g _. Takes-pure g _)

  Takes-read_header : (fuel n : ℕ) → n < fuel → Takes n 0 (read_header is_utf8 fuel)
  unfolding read_header
  Takes-read_header fuel n h = Takes-bind n 4 _ _ (Takes-unpack n 4) λ magic m le.
      Takes-bind m 0 _ _ (Takes-require m _ assertion_error (λ e. ground arith)) λ _ m' le0.
        Takes-bind m' 4 _ _ (Takes-unpack m' 4) λ ver j le1.
          Takes-bind j 8 _ _ (Takes-unpack j 8) λ nt i le2.
            Takes-bind i 8 _ _ (Takes-unpack i 8) λ nkv k le3.
              Takes-bind k 0 _ _
                (Takes-read_dict _ nkv k [] (λ a lt. Takes-read_metadata fuel a (omega arith)))
                λ md a le4.
                  Takes-bind a 0 _ _ (Takes-read_dict _ nt a [] (λ b _. Takes-read_tensor_info b))
                    λ ts b _. Takes-pure b _

  -- `parse_gguf` never runs out of the fuel that it gives to `rv`, whatever the file holds.
  pub parse_gguf-total : (file : List ℕ) → parse_gguf is_utf8 file ≢ err out_of_fuel
  unfolding parse_gguf
  parse_gguf-total file =
      let n = length file in
      and_then-no_fuel n (read_header is_utf8 (n + 1) (stream 0 file))
        (Takes-read_header (n + 1) n (omega arith) (stream 0 file) (omega arith))
