-- ===== src/Gguf/Stream/Takes.antt =====
-- How much of the file a reader takes, and that it raises only Python's exceptions.
use llama_tov.Prelude.{
  ℕ, ◌+◌, ◌≤◌, ◌≢◌, inl, inr, Bool, true, false, arith, ◌==◌, if◌then◌else◌, ==_iff, Bool-cases,
  length, take, length-take, length-drop, Error, Result, out_of_fuel, ok, err,
}
use llama_tov.Gguf.Stream.{Stream, Reader, pure, raise, read, unpack, require, continue, ◌>>=◌}

module _ {ℓ} {A : Type ℓ} where
  -- A run that had `n` bytes left: it took `k` or more, or raised one of Python's exceptions.
  abbrev pub Fine : ℕ → ℕ → Result (A × Stream) → Type 0
  Fine n k (ok r) = length (r.1).rest + k ≤ n
  Fine n k (err e) = e ≢ out_of_fuel

  abbrev pub Takes : ℕ → ℕ → Reader A → Type 0
  Takes n k m = (s : Stream) → length s.rest ≤ n → Fine n k (m s)

pub Takes-pure {ℓ} : {A : Type ℓ} (n : ℕ) (a : A) → Takes n 0 (pure a)
unfolding pure
Takes-pure n a s h = omega arith

pub Takes-raise {ℓ} :
    (A : Type ℓ) (n : ℕ) (e : Error) → e ≢ out_of_fuel → Takes {A = A} n 0 (raise e)
unfolding raise
Takes-raise A n e h s _ = h

Fine-lower {κ} : {B : Type κ} (r : Result (B × Stream)) (n m : ℕ) → n ≤ m → Fine n 0 r → Fine m 0 r
Fine-lower (ok r) n m h fine = omega arith
Fine-lower (err e) n m h fine = fine

module _ {ℓ κ} {A : Type ℓ} {B : Type κ} where
  Fine-continue :
      (r : Result (A × Stream)) (f : A → Reader B) (n k : ℕ)
      → Fine n k r
      → ((a : A) (left : ℕ) → left + k ≤ n → Takes left 0 (f a))
      → Fine n 0 (continue r f)
  Fine-continue (ok (a, s)) f n k h next =
      Fine-lower (f a s) (length s.rest) n (omega arith) (next a (length s.rest) h s (omega arith))
  Fine-continue (err e) f n k h next = h

  pub Takes-bind :
      (n k : ℕ) (m : Reader A) (f : A → Reader B)
      → Takes n k m
      → ((a : A) (left : ℕ) → left + k ≤ n → Takes left 0 (f a))
      → Takes n 0 (m >>= f)
  unfolding ◌>>=◌
  Takes-bind n k m f h next s le = Fine-continue (m s) f n k (h s le) next

pub Takes-read : (n k : ℕ) → Takes n 0 (read k)
unfolding read
Takes-read n k s h = omega (arith, length-drop k s.rest)

pub Takes-unpack : (n k : ℕ) → Takes n k (unpack k)
unfolding unpack
Takes-unpack n k s h = elim (Bool-cases (length (take k s.rest) == k)) [
  | inl whole ↦
      let all = (==_iff _ _).0 whole in
      rw whole (omega (arith, length-take k s.rest, length-drop k s.rest))
  | inr short ↦ rw short (λ e. ground arith)
]

pub Takes-require : (n : ℕ) (b : Bool) (e : Error) → e ≢ out_of_fuel → Takes n 0 (require b e)
unfolding require
Takes-require n true e h = Takes-pure n tt
Takes-require n false e h = Takes-raise _ n e h

pub Takes-if {ℓ} :
    {A : Type ℓ} (n : ℕ) (b : Bool) (x y : Reader A)
    → Takes n 0 x
    → Takes n 0 y
    → Takes n 0 (if b then x else y)
Takes-if n true x y hx hy = hx
Takes-if n false x y hx hy = hy

Fine-any {ℓ} : {A : Type ℓ} (n k : ℕ) (r : Result (A × Stream)) → Fine n k r → Fine n 0 r
Fine-any n k (ok r) h = omega arith
Fine-any n k (err e) h = h

pub Takes-any {ℓ} : {A : Type ℓ} (n k : ℕ) (m : Reader A) → Takes n k m → Takes n 0 m
Takes-any n k m h s le = Fine-any n k (m s) (h s le)
