-- ===== src/Gguf/Stream.antt =====
-- A binary file that is read from front to back, as `parse_gguf` reads it: the position and the
-- bytes that are left. A `Reader` may raise.
pub mod Takes
use llama_tov.Prelude.{
  ℕ, zero, suc, ◌+◌, ◌*◌, ◌/◌, ◌%◌, ◌^◌, ◌<◌, ◌≡◌, refl, ap, ◌∙◌, Bool, true, false, List, [], ◌∷◌,
  ◌++◌, append_assoc, append-nil, arith, ◌==◌, if◌then◌else◌, ==_iff, length, length-append, take,
  drop, take-append, drop-append, Error, Result, struct_error, ok, err,
}
use native.Mathlib.Nat.{pow-succ'}

pub record Stream : Type 0 where
  pub pos : ℕ
  pub rest : List ℕ

abbrev pub Reader {ℓ} : Type ℓ → Type ℓ
Reader A = Stream → Result (A × Stream)

abbrev pub stream : ℕ → List ℕ → Stream
stream p bytes = record { pos = p; rest = bytes }

pub pure {ℓ} : {A : Type ℓ} → A → Reader A
pure a s = ok (a, s)

pub raise {ℓ} : {A : Type ℓ} → Error → Reader A
raise e s = err e

-- `f.read(n)`: fewer bytes at the end of the file, and no error
pub read : ℕ → Reader (List ℕ)
read n s = let got = take n s.rest in ok (got, stream (s.pos + length got) (drop n s.rest))

-- a little-endian number
abbrev pub le : List ℕ → ℕ
le [] = 0
le (b ∷ bs) = b + 256 * le bs

-- `struct.unpack(fmt, f.read(n))` of an unsigned field of `n` bytes, which wants all of them
pub unpack : ℕ → Reader ℕ
unpack n s =
    let got = take n s.rest in
    if length got == n
    then ok (le got, stream (s.pos + length got) (drop n s.rest))
    else err struct_error

module _ {ℓ κ} {A : Type ℓ} {B : Type κ} where
  abbrev pub continue : Result (A × Stream) → (A → Reader B) → Result (B × Stream)
  continue (ok (a, s)) f = f a s
  continue (err e) f = err e

  infixl 5 ◌>>=◌ ◌>>◌
  unfoldable pub ◌>>=◌ : Reader A → (A → Reader B) → Reader B
  unfolding pure raise read unpack
  ◌>>=◌ m f s = continue (m s) f

  abbrev pub ◌>>◌ : Reader A → Reader B → Reader B
  m >> k = m >>= λ _. k

-- a test that raises
pub require : Bool → Error → Reader (Unit {0})
require true e = pure tt
require false e = raise e

-- `m` takes exactly `bytes` off the front of any input that begins with them, and returns `a`.
pub record Reads {ℓ} {A : Type ℓ} (m : Reader A) (bytes : List ℕ) (a : A) : Type ℓ where
  pub on :
      (p : ℕ) (after : List ℕ)
      → m (stream p (bytes ++ after)) ≡ ok (a, stream (p + length bytes) after)

module _ {ℓ} {A : Type ℓ} where
  pub Reads-pure : (a : A) → Reads (pure a) [] a
  unfolding pure
  Reads-pure a = record {
    on = λ p after. let e : p ≡ p + 0 = omega arith in ap (λ (t : ℕ). ok (a, stream t after)) e;
  }

  pub Reads-require :
      {m : Reader A} {bytes : List ℕ} {a : A} (b : Bool) (e : Error)
      → b ≡ true
      → Reads m bytes a
      → Reads (require b e >> m) bytes a
  unfolding require ◌>>=◌
  Reads-require b e h r = record { on = λ p after. rw h (r.on p after) }

module _ {ℓ κ} {A : Type ℓ} {B : Type κ} where
  pub Reads-bind :
      {m : Reader A} (f : A → Reader B) {xs ys : List ℕ} {a : A} {b : B}
      → Reads m xs a
      → Reads (f a) ys b
      → Reads (m >>= f) (xs ++ ys) b
  unfolding ◌>>=◌
  Reads-bind f {xs} {ys} {b = b} r t = record {
    on = λ p after.
        let assoc = append_assoc xs ys after in
        let len : p + length xs + length ys ≡ p + length (xs ++ ys) =
          omega (arith, length-append {0} xs ys) in
        rw (assoc, r.on p (ys ++ after), t.on (p + length xs) after)
          (ap (λ (q : ℕ). ok (b, stream q after)) len);
  }

module _ {ℓ κ} {A : Type ℓ} {B : Type κ} where
  -- a last step that takes nothing
  pub Reads-map :
      {m : Reader A} {xs : List ℕ} {a : A} (g : A → B)
      → Reads m xs a
      → Reads (m >>= λ x. pure (g x)) xs (g a)
  unfolding ◌>>=◌ pure
  Reads-map g r = record { on = λ p after. rw (r.on p after) }

module _ {ℓ κ} {A : Type ℓ} {B : Type κ} where
  -- the rest takes nothing
  pub Reads-then :
      {m : Reader A} (f : A → Reader B) {xs : List ℕ} {a : A} {b : B}
      → Reads m xs a
      → Reads (f a) [] b
      → Reads (m >>= f) xs b
  Reads-then f {xs} r t = let whole = Reads-bind f r t in rw (append-nil xs) at whole

pub Reads-read : (bytes : List ℕ) → Reads (read (length bytes)) bytes bytes
unfolding read
Reads-read bytes = record { on = λ p after. rw (take-append bytes after, drop-append bytes after) }

pub Reads-unpack : (bytes : List ℕ) (n : ℕ) → length bytes ≡ n → Reads (unpack n) bytes (le bytes)
unfolding unpack
Reads-unpack bytes n h = record {
  on = λ p after.
      let whole : (length bytes == length bytes) ≡ true = (==_iff _ _).1 refl in
      rw (← h, take-append bytes after, drop-append bytes after, whole);
}

-- the bytes of a field of `n` bytes
unfoldable pub le_bytes : ℕ → ℕ → List ℕ
le_bytes zero x = []
le_bytes (suc n) x = (x % 256) ∷ le_bytes n (x / 256)

pub length-le_bytes : (n x : ℕ) → length (le_bytes n x) ≡ n
unfolding le_bytes
length-le_bytes zero x = refl
length-le_bytes (suc n) x = ap suc (length-le_bytes n (x / 256))

pub le-le_bytes : (n x : ℕ) → x < 256 ^ n → le (le_bytes n x) ≡ x
unfolding le_bytes
le-le_bytes zero x h = omega arith
le-le_bytes (suc n) x h =
    let fits : x < 256 * 256 ^ n = rw (pow-succ' 256 n) at h in
    omega (arith, le-le_bytes n (x / 256) (div_below x (256 ^ n) fits))
  where
    div_below : (x m : ℕ) → x < 256 * m → x / 256 < m
    div_below x m h = omega arith

pub Reads-field : (n x : ℕ) → x < 256 ^ n → Reads (unpack n) (le_bytes n x) x
Reads-field n x h =
    let r = Reads-unpack (le_bytes n x) n (length-le_bytes n x) in
    record {
      on = λ p after.
          r.on p after
          ∙ ap (λ (y : ℕ). ok (y, stream (p + length (le_bytes n x)) after)) (le-le_bytes n x h);
    }
