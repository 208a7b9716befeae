-- ===== src/Gguf/Value/Written.antt =====
-- Metadata values as the GGUF format writes them, and that `rv` reads them back.
use llama_tov.Prelude.{
  ℕ, zero, suc, ◌^◌, ◌≤◌, ◌<◌, ◌≡◌, refl, ◌⊎◌, Bool, true, false, List, [], ◌++◌, arith, ◌==◌,
  if◌then◌else◌, length, length-append, value_error,
}
use llama_tov.Gguf.Stream.{
  Reads, Reads-pure, Reads-bind, Reads-map, Reads-then, Reads-read, Reads-field, Reads-require,
  le_bytes, length-le_bytes, read, pure, ◌>>◌,
}
use llama_tov.Gguf.Value.{
  Value, Items, uint, int, float, text, flag, array, item, no_items, rv, read_items, read_text,
  signed32, skipped_width, nothing,
}

-- The values of a metadata entry or of an array. An array declares the type code of its elements;
-- `int32` and `float32` hold the 32-bit pattern. `skipped` is a value of any other type code, with the
-- bytes that `rv` passes over.
mutual
  pub data Meta : Type 0 where
    uint32 int32 float32 uint64 : ℕ → Meta
    string : List ℕ → Meta
    bool : Bool → Meta
    array_of : ℕ → Metas → Meta
    skipped : ℕ → List ℕ → Meta

  pub data Metas : Type 0 where
    none_left : Metas
    next : Meta → Metas → Metas

abbrev pub code : Meta → ℕ
code (uint32 n) = 4
code (int32 n) = 5
code (float32 n) = 6
code (uint64 n) = 10
code (string t) = 8
code (bool b) = 7
code (array_of at ms) = 9
code (skipped vt bs) = vt

abbrev pub count : Metas → ℕ
count none_left = 0
count (next m ms) = suc (count ms)

abbrev pub text_bytes : List ℕ → List ℕ
text_bytes t = le_bytes 8 (length t) ++ t

mutual
  pub bytes : Meta → List ℕ
  bytes (uint32 n) = le_bytes 4 n
  bytes (int32 n) = le_bytes 4 n
  bytes (float32 n) = le_bytes 4 n
  bytes (uint64 n) = le_bytes 8 n
  bytes (string t) = text_bytes t
  bytes (bool b) = le_bytes 1 (if b then 1 else 0)
  bytes (array_of at ms) = le_bytes 4 at ++ (le_bytes 8 (count ms) ++ all_bytes ms)
  bytes (skipped vt bs) = bs

  pub all_bytes : Metas → List ℕ
  all_bytes none_left = []
  all_bytes (next m ms) = bytes m ++ all_bytes ms

-- what Python holds after the read
mutual
  pub meaning : Meta → Value
  meaning (uint32 n) = uint n
  meaning (int32 n) = int (signed32 n)
  meaning (float32 n) = float n
  meaning (uint64 n) = uint n
  meaning (string t) = text t
  meaning (bool b) = flag b
  meaning (array_of at ms) = array (meanings ms)
  meaning (skipped vt bs) = nothing

  pub meanings : Metas → Items
  meanings none_left = no_items
  meanings (next m ms) = item (meaning m) (meanings ms)

module _ (is_utf8 : List ℕ → Bool) where
  -- a length fits its field, and the text decodes
  abbrev pub FitsText : List ℕ → Type 0
  FitsText t = (length t < 256 ^ 8) × (is_utf8 t ≡ true)

  -- Every number fits its field, the elements of an array have the type that it declares, and a value
  -- that is passed over has a type code outside of 4 to 10 and the width of its type.
  unfoldable mutual
    pub Fits : Meta → Type 0
    Fits (uint32 n) = n < 256 ^ 4
    Fits (int32 n) = n < 256 ^ 4
    Fits (float32 n) = n < 256 ^ 4
    Fits (uint64 n) = n < 256 ^ 8
    Fits (string t) = FitsText t
    Fits (bool b) = Unit
    Fits (array_of at ms) = (at < 256 ^ 4) × (count ms < 256 ^ 8) × AllFit at ms
    Fits (skipped vt bs) = (vt < 256 ^ 4) × ((vt < 4) ⊎ (10 < vt)) × (length bs ≡ skipped_width vt)

    pub AllFit : ℕ → Metas → Type 0
    AllFit at none_left = Unit
    AllFit at (next m ms) = (code m ≡ at) × Fits m × AllFit at ms

  pub Reads-text : (t : List ℕ) → FitsText t → Reads (read_text is_utf8) (text_bytes t) t
  unfolding read_text
  Reads-text t h =
      let last = Reads-require (is_utf8 t) value_error h.1 (Reads-pure t) in
      Reads-bind _ (Reads-field 8 (length t) h.0) (Reads-then _ (Reads-read t) last)

  rv-skipped :
      (fuel vt : ℕ)
      → (vt < 4) ⊎ (10 < vt)
      → rv is_utf8 (suc fuel) vt ≡ (do read (skipped_width vt); pure nothing)
  unfolding rv
  rv-skipped fuel vt other =
      rw
        (
          kept 4 (omega arith) (omega arith),
          kept 5 (omega arith) (omega arith),
          kept 6 (omega arith) (omega arith),
          kept 8 (omega arith) (omega arith),
          kept 10 (omega arith) (omega arith),
          kept 9 (omega arith) (omega arith),
          kept 7 (omega arith) (omega arith),
        )
        refl
    where
      kept : (k : ℕ) → 4 ≤ k → k ≤ 10 → (vt == k) ≡ false
      kept k low high = ground arith

  Reads-skipped :
      (fuel vt : ℕ) (bs : List ℕ)
      → (vt < 4) ⊎ (10 < vt)
      → length bs ≡ skipped_width vt
      → Reads (rv is_utf8 (suc fuel) vt) bs nothing
  Reads-skipped fuel vt bs other width =
      rw (rv-skipped fuel vt other, ← width)
        (Reads-then (λ got. pure nothing) (Reads-read bs) (Reads-pure nothing))

  mutual
    unfolding rv bytes meaning Fits read_items

    pub Reads-rv :
        (fuel : ℕ) (m : Meta)
        → length (bytes m) < fuel
        → Fits m
        → Reads (rv is_utf8 fuel (code m)) (bytes m) (meaning m)
    Reads-rv zero m h fits = elim h [ ]
    Reads-rv (suc fuel) (uint32 n) h fits = Reads-map _ (Reads-field 4 n fits)
    Reads-rv (suc fuel) (int32 n) h fits = Reads-map _ (Reads-field 4 n fits)
    Reads-rv (suc fuel) (float32 n) h fits = Reads-map _ (Reads-field 4 n fits)
    Reads-rv (suc fuel) (uint64 n) h fits = Reads-map _ (Reads-field 8 n fits)
    Reads-rv (suc fuel) (string t) h fits = Reads-map _ (Reads-text t fits)
    Reads-rv (suc fuel) (bool true) h fits = Reads-map _ (Reads-field 1 1 (omega arith))
    Reads-rv (suc fuel) (bool false) h fits = Reads-map _ (Reads-field 1 0 (omega arith))
    Reads-rv (suc fuel) (array_of at ms) h fits =
        let header = length-append (le_bytes 4 at) (le_bytes 8 (count ms) ++ all_bytes ms) in
        let more = length-append (le_bytes 8 (count ms)) (all_bytes ms) in
        let four = length-le_bytes 4 at in
        Reads-bind _ (Reads-field 4 at fits.0) (
          Reads-bind _ (Reads-field 8 (count ms) fits.1)
            (Reads-map _ (Reads-items fuel at ms (omega (arith, header, more, four)) fits.2)))
    Reads-rv (suc fuel) (skipped vt bs) h fits = Reads-skipped fuel vt bs fits.1 fits.2

    pub Reads-items :
        (fuel at : ℕ) (ms : Metas)
        → length (all_bytes ms) < fuel
        → AllFit at ms
        → Reads (read_items (rv is_utf8 fuel at) (count ms)) (all_bytes ms) (meanings ms)
    Reads-items fuel at none_left h fits = Reads-pure no_items
    Reads-items fuel at (next m ms) h fits =
        let both = length-append (bytes m) (all_bytes ms) in
        let one = Reads-rv fuel m (omega (arith, both)) fits.1 in
        Reads-bind _ (rw fits.0 at one)
          (Reads-map _ (Reads-items fuel at ms (omega (arith, both)) fits.2))
