-- ===== src/Gguf/Parse/Written.antt =====
-- A whole GGUF file as the format writes it, and what `parse_gguf` returns for it.
use llama_tov.Prelude.{
  ℕ, ◌+◌, ◌^◌, ◌≤◌, ◌<◌, ◌≡◌, refl, Bool, List, [], ◌∷◌, ◌++◌, arith, length, length-append,
  assertion_error, AllOf,
}
use llama_tov.Gguf.Stream.{
  Reader, Reads, Reads-pure, Reads-bind, Reads-map, Reads-field, Reads-require, le_bytes, unpack,
}
use llama_tov.Gguf.Value.Written.{
  Meta, uint32, int32, float32, uint64, string, bool, array_of, skipped, code, bytes, meaning, Fits,
  FitsText, text_bytes, Reads-text, Reads-rv,
}
use llama_tov.Gguf.Parse.{
  Dict, TensorInfo, put, get, alignment_key, align_with, parsed, finish, read_list, read_dict,
  read_metadata, read_tensor_info, read_header, parse_gguf,
}

-- a metadata entry: key, type code, value
abbrev pub entry_bytes : List ℕ × Meta → List ℕ
entry_bytes (k, m) = text_bytes k ++ (le_bytes 4 (code m) ++ bytes m)

abbrev pub dims_bytes : List ℕ → List ℕ
dims_bytes [] = []
dims_bytes (n ∷ ns) = le_bytes 8 n ++ dims_bytes ns

-- a row of the tensor table
abbrev pub info_bytes : List ℕ × TensorInfo → List ℕ
info_bytes (name, info) =
    text_bytes name
    ++ (le_bytes 4 (length info.dims)
        ++ (dims_bytes info.dims ++ (le_bytes 4 info.type_code ++ le_bytes 8 info.offset)))

abbrev pub concat_map {ℓ} : {A : Type ℓ} → (A → List ℕ) → List A → List ℕ
concat_map f [] = []
concat_map f (x ∷ xs) = f x ++ concat_map f xs

abbrev pub header_bytes : ℕ → List (List ℕ × Meta) → List (List ℕ × TensorInfo) → List ℕ
header_bytes ver es ts =
    le_bytes 4 0x46554747
    ++ (le_bytes 4 ver
        ++ (le_bytes 8 (length ts)
            ++ (le_bytes 8 (length es) ++ (concat_map entry_bytes es ++ concat_map info_bytes ts))))

-- The dictionary after the rows are stored in order: a later row replaces an earlier one.
abbrev pub stored {ℓ κ} : {A : Type ℓ} {V : Type κ} → (A → V) → List (List ℕ × A) → Dict V → Dict V
stored f [] d = d
stored f ((k, a) ∷ rows) d = stored f rows (put k (f a) d)

module _ (is_utf8 : List ℕ → Bool) where
  abbrev pub FitsEntry : List ℕ × Meta → Type 0
  FitsEntry (k, m) = FitsText is_utf8 k × Fits is_utf8 m

  abbrev pub FitsInfo : List ℕ × TensorInfo → Type 0
  FitsInfo (name, info) =
      FitsText is_utf8 name
      × (length info.dims < 256 ^ 4)
      × AllOf (λ n. n < 256 ^ 8) info.dims
      × (info.type_code < 256 ^ 4)
      × (info.offset < 256 ^ 8)

  code-lt : (m : Meta) → Fits is_utf8 m → code m < 256 ^ 4
  unfolding Fits
  code-lt (skipped vt bs) fits = fits.0
  code-lt (uint32 n) fits = omega arith
  code-lt (int32 n) fits = omega arith
  code-lt (float32 n) fits = omega arith
  code-lt (uint64 n) fits = omega arith
  code-lt (string t) fits = omega arith
  code-lt (bool b) fits = omega arith
  code-lt (array_of at ms) fits = omega arith

  Reads-entry :
      (fuel : ℕ) (k : List ℕ) (m : Meta)
      → length (entry_bytes (k, m)) < fuel
      → FitsEntry (k, m)
      → Reads (read_metadata is_utf8 fuel) (entry_bytes (k, m)) (k, meaning m)
  unfolding read_metadata
  Reads-entry fuel k m h fits =
      let all = length-append (text_bytes k) (le_bytes 4 (code m) ++ bytes m) in
      let more = length-append (le_bytes 4 (code m)) (bytes m) in
      Reads-bind _ (Reads-text is_utf8 k fits.0) (
        Reads-bind _ (Reads-field 4 (code m) (code-lt m fits.1))
          (Reads-map _ (Reads-rv is_utf8 fuel m (omega (arith, all, more)) fits.1)))

  Reads-dims :
      (ns : List ℕ)
      → AllOf (λ n. n < 256 ^ 8) ns
      → Reads (read_list (unpack 8) (length ns)) (dims_bytes ns) ns
  unfolding read_list
  Reads-dims [] h = Reads-pure []
  Reads-dims (n ∷ ns) h = Reads-bind _ (Reads-field 8 n h.0) (Reads-map _ (Reads-dims ns h.1))

  Reads-info :
      (name : List ℕ) (info : TensorInfo)
      → FitsInfo (name, info)
      → Reads (read_tensor_info is_utf8) (info_bytes (name, info)) (name, info)
  unfolding read_tensor_info
  Reads-info name info fits = Reads-bind _ (Reads-text is_utf8 name fits.0) (
      Reads-bind _ (Reads-field 4 (length info.dims) fits.1) (
        Reads-bind _ (Reads-dims info.dims fits.2) (
          Reads-bind _ (Reads-field 4 info.type_code fits.3)
            (Reads-map _ (Reads-field 8 info.offset fits.4)))))

module _ {ℓ κ} {A : Type ℓ} {V : Type κ} where
  -- `n` rows, each of which the reader of a row reads
  Reads-rows :
      (one : Reader (List ℕ × V)) (row : List ℕ × A → List ℕ) (f : A → V) (P : List ℕ × A → Type 0)
      (fuel : ℕ)
      → ((k : List ℕ) (a : A)
          → length (row (k, a)) < fuel
          → P (k, a)
          → Reads one (row (k, a)) (k, f a))
      → (rows : List (List ℕ × A)) (d : Dict V) → length (concat_map row rows) < fuel
      → AllOf P rows
      → Reads (read_dict one (length rows) d) (concat_map row rows) (stored f rows d)
  unfolding read_dict
  Reads-rows one row f P fuel each [] d h all = Reads-pure d
  Reads-rows one row f P fuel each ((k, a) ∷ rows) d h all =
      let both = length-append (row (k, a)) (concat_map row rows) in
      Reads-bind _ (each k a (omega (arith, both)) all.0)
        (Reads-rows one row f P fuel each rows (put k (f a) d) (omega (arith, both)) all.1)

behind : (xs ys : List ℕ) (n : ℕ) → n ≤ length ys → n ≤ length (xs ++ ys)
behind xs ys n h = omega (arith, length-append xs ys)

-- the two tables stand inside the header
header-tables :
    (ver : ℕ) (es : List (List ℕ × Meta)) (ts : List (List ℕ × TensorInfo))
    → length (concat_map entry_bytes es ++ concat_map info_bytes ts)
      ≤ length (header_bytes ver es ts)
header-tables ver es ts = behind (le_bytes 4 0x46554747) _ _ (
    behind (le_bytes 4 ver) _ _
      (behind (le_bytes 8 (length ts)) _ _ (behind (le_bytes 8 (length es)) _ _ (omega arith))))

module _ (is_utf8 : List ℕ → Bool) where
  Reads-header :
      (fuel ver : ℕ) (es : List (List ℕ × Meta)) (ts : List (List ℕ × TensorInfo))
      → length (header_bytes ver es ts) < fuel
      → ver < 256 ^ 4
      → length es < 256 ^ 8
      → length ts < 256 ^ 8
      → AllOf (FitsEntry is_utf8) es
      → AllOf (FitsInfo is_utf8) ts
      → Reads
          (read_header is_utf8 fuel)
          (header_bytes ver es ts)
          (stored meaning es [], stored (λ (t : TensorInfo). t) ts [])
  unfolding read_header
  Reads-header fuel ver es ts h hv he ht fe ft =
      let tables = length-append (concat_map entry_bytes es) (concat_map info_bytes ts) in
      let rest = header-tables ver es ts in
      let e_le : length (concat_map entry_bytes es) < fuel = omega (arith, rest, tables) in
      let t_le : length (concat_map info_bytes ts) < fuel = omega (arith, rest, tables) in
      Reads-bind _ (Reads-field 4 0x46554747 (omega arith)) (
        Reads-require _ assertion_error refl (
          Reads-bind _ (Reads-field 4 ver hv) (
            Reads-bind _ (Reads-field 8 (length ts) ht) (
              Reads-bind _ (Reads-field 8 (length es) he) (
                Reads-bind _
                  (Reads-rows (read_metadata is_utf8 fuel) entry_bytes meaning (FitsEntry is_utf8)
                    fuel (Reads-entry is_utf8 fuel) es [] e_le fe)
                  (Reads-map _ (
                    Reads-rows (read_tensor_info is_utf8) info_bytes (λ t. t) (FitsInfo is_utf8)
                      fuel (λ k a _. Reads-info is_utf8 k a) ts [] t_le ft)))))))

  -- `parse_gguf` on a file whose header, metadata and tensor table are written as the format says,
  -- whatever follows them, returns every key and every tensor with what was written for it, the last
  -- row of a repeated name counting, None for a value of a type outside of codes 4 to 10, and the data
  -- offset that the written alignment gives (for a float the offset is not computed); with an alignment
  -- that is zero or no number it raises. Counts, lengths and numbers fit their fields, texts are UTF-8,
  -- the elements of an array have the type that it declares, and a value that becomes None has the
  -- width of its type: one, two or eight bytes for the codes 0 to 3, 11 and 12, and four for others.
  pub parse_gguf-written :
      (ver : ℕ) (es : List (List ℕ × Meta)) (ts : List (List ℕ × TensorInfo)) (after : List ℕ)
      → ver < 256 ^ 4
      → length es < 256 ^ 8
      → length ts < 256 ^ 8
      → AllOf (FitsEntry is_utf8) es
      → AllOf (FitsInfo is_utf8) ts
      → parse_gguf is_utf8 (header_bytes ver es ts ++ after) ≡ (
          let md = stored meaning es [] in
          let ts' = stored (λ (t : TensorInfo). t) ts [] in
          parsed md ts' (align_with (length (header_bytes ver es ts)) (get alignment_key md)))
  unfolding parse_gguf finish
  parse_gguf-written ver es ts after hv he ht fe ft =
      let file = header_bytes ver es ts ++ after in
      let both = length-append (header_bytes ver es ts) after in
      let r = Reads-header (length file + 1) ver es ts (omega (arith, both)) hv he ht fe ft in
      let at : 0 + length (header_bytes ver es ts) ≡ length (header_bytes ver es ts) =
        omega arith in
      rw (r.on 0 after, at) refl
