-- ===== src/Gguf/Value/Fuel.antt =====
-- The fuel of `rv`: each call for the elements of an array comes after twelve bytes of the file.
use llama_tov.Prelude.{ℕ, zero, suc, ◌≤◌, ◌<◌, Bool, not, List, arith, ◌==◌, value_error}
use llama_tov.Gguf.Stream.{Reader, pure, unpack, ◌>>=◌}
use llama_tov.Gguf.Stream.Takes.{
  Takes-if, Takes, Takes-pure, Takes-bind, Takes-read, Takes-unpack, Takes-require,
}
use llama_tov.Gguf.Value.{
  Value, array, uint, int, float, text, flag, nothing, signed32, skipped_width, rv, read_items,
  read_text,
}

Takes-read_items :
    (one : Reader Value) (c n : ℕ)
    → ((m : ℕ) → m ≤ n → Takes m 0 one)
    → Takes n 0 (read_items one c)
unfolding read_items
Takes-read_items one zero n h = Takes-pure n _
Takes-read_items one (suc c) n h = Takes-bind n 0 one _ (h n (omega arith)) λ v left le.
    Takes-bind left 0 _ _ (Takes-read_items one c left (λ m k. h m (omega arith)))
      λ vs rest _. Takes-pure rest _

module _ (is_utf8 : List ℕ → Bool) where
  pub Takes-read_text : (n : ℕ) → Takes n 0 (read_text is_utf8)
  unfolding read_text
  Takes-read_text n = Takes-bind n 8 _ _ (Takes-unpack n 8) λ l m _.
      Takes-bind m 0 _ _ (Takes-read m l) λ bytes k _.
        Takes-bind k 0 _ _ (Takes-require k (is_utf8 bytes) value_error (λ e. ground arith))
          λ _ j _. Takes-pure j bytes

  -- a field and a last step
  Takes-field : (n k : ℕ) (f : ℕ → Value) → Takes n 0 (unpack k >>= λ x. pure (f x))
  Takes-field n k f = Takes-bind n k _ _ (Takes-unpack n k) (λ x m _. Takes-pure m (f x))

  Takes-array :
      (fuel n : ℕ) (elements : ℕ → Reader Value)
      → n < suc fuel
      → ((at m : ℕ) → m < fuel → Takes m 0 (elements at))
      → Takes n 0 (
          unpack 4 >>= λ at. unpack 8 >>= λ c. read_items (elements at) c >>= λ xs. pure (array xs))
  Takes-array fuel n elements h rec = Takes-bind n 4 _ _ (Takes-unpack n 4) λ at m le.
      Takes-bind m 8 _ _ (Takes-unpack m 8) λ c left le'.
        Takes-bind left 0 _ _
          (Takes-read_items (elements at) c left (λ j k. rec at j (omega arith)))
          λ xs rest _. Takes-pure rest _

  -- Fuel beyond the number of bytes left is enough for any value.
  pub Takes-rv : (fuel n vt : ℕ) → n < fuel → Takes n 0 (rv is_utf8 fuel vt)
  unfolding rv
  Takes-rv zero n vt h = elim h [ ]
  Takes-rv (suc fuel) n vt h = Takes-if n (vt == 4) _ _ (Takes-field n 4 uint) (
      Takes-if n (vt == 5) _ _ (Takes-field n 4 (λ x. int (signed32 x))) (
        Takes-if n (vt == 6) _ _ (Takes-field n 4 float) (
          Takes-if n (vt == 8) _ _
            (Takes-bind n 0 _ _ (Takes-read_text n) (λ t m _. Takes-pure m (text t)))
            (Takes-if n (vt == 10) _ _ (Takes-field n 8 uint) (
              Takes-if n (vt == 9) _ _
                (Takes-array fuel n (rv is_utf8 fuel) h (λ at m lt. Takes-rv fuel m at lt))
                (Takes-if n (vt == 7) _ _ (Takes-field n 1 (λ x. flag (not (x == 0)))) (
                  Takes-bind n 0 _ _ (Takes-read n (skipped_width vt))
                    (λ _ m _. Takes-pure m nothing))))))))
