-- ===== src/Gguf/Header.antt =====
-- The header reader bpd-substrate/file-formats/gguf/output/gguf_reader.py, with its checks. The path,
-- which only the messages hold, is left out.
use llama_tov.Prelude.{
  ℕ, ◌≤◌, ◌<◌, ◌≡◌, inl, inr, not, List, [], ◌∷◌, arith, ltb, ◌==◌, Bool-cases, length, take, drop,
  Result, guard, ◌>>=◌, ◌>>◌, parse_error, ok, same_bytes, same_bytes_sound,
}
use llama_tov.Gguf.Stream.{le}

-- GGUF_MAGIC
abbrev pub gguf_magic : List ℕ
gguf_magic = 0x47 ∷ 0x47 ∷ 0x55 ∷ 0x46 ∷ []

pub record GgufHeader : Type 0 where
  pub magic : List ℕ
  pub version : ℕ
  pub tensor_count : ℕ
  pub metadata_kv_count : ℕ

-- `check_section_length_gguf_header`
abbrev pub check_length : List ℕ → Result (Unit {0})
check_length raw = guard (not (ltb (length raw) 24)) parse_error

-- `check_field_magic_gguf_header`
abbrev pub check_magic : List ℕ → Result (List ℕ)
check_magic raw = do guard (same_bytes (take 4 raw) gguf_magic) parse_error; ok (take 4 raw)

-- `check_field_version_must_equal_gguf_header`
abbrev pub check_version : ℕ → Result (Unit {0})
check_version value = guard (value == 3) parse_error

-- the two checks of a count against its maximum, 100000
abbrev pub check_count : ℕ → Result (Unit {0})
check_count value = guard (ltb value 100000) parse_error

unfoldable pub parse_gguf_header : List ℕ → Result GgufHeader
parse_gguf_header raw = do
  check_length raw
  magic ← check_magic raw
  let version = le (take 4 (drop 4 raw))
  let tensor_count = le (take 8 (drop 8 raw))
  let metadata_kv_count = le (take 8 (drop 16 raw))
  check_version version
  check_count tensor_count
  check_count metadata_kv_count
  ok (record {
    magic = magic;
    version = version;
    tensor_count = tensor_count;
    metadata_kv_count = metadata_kv_count;
  })

-- A header that is returned stands in the first 24 bytes of the input: its magic is the first four
-- bytes, which are those of GGUF, its version, 3, and its two counts, both below 100000, are the
-- little-endian numbers at their offsets.
pub parse_gguf_header_sound :
    (raw : List ℕ) (h : GgufHeader)
    → parse_gguf_header raw ≡ ok h
    → (24 ≤ length raw)
      × (take 4 raw ≡ gguf_magic)
      × (h.magic ≡ take 4 raw)
      × (h.version ≡ le (take 4 (drop 4 raw)))
      × (h.version ≡ 3)
      × (h.tensor_count ≡ le (take 8 (drop 8 raw)))
      × (h.metadata_kv_count ≡ le (take 8 (drop 16 raw)))
      × (h.tensor_count < 100000)
      × (h.metadata_kv_count < 100000)
unfolding parse_gguf_header
parse_gguf_header_sound raw h e = elim (Bool-cases (same_bytes (take 4 raw) gguf_magic)) [
  | inl same ↦ (
    ground arith,
    same_bytes_sound (take 4 raw) gguf_magic same,
    ground arith,
    ground arith,
    ground arith,
    ground arith,
    ground arith,
    ground arith,
    ground arith,
  )
  | inr other ↦ ground arith
]
