-- ===== src/Gguf/Query.antt =====
-- `parse_gguf` of bpd-substrate/file-formats/gguf/output/gguf_reader.py, and `evaluate_query` and `main` of
-- ggufq.py. A file is its bytes, or none where there is no such file. A text is ASCII; Python's
-- `isidentifier` is a parameter. What is printed is kept as a value: its layout is that of `json.dumps`
-- and of formats.
use llama_tov.Prelude.{
  ℕ, Bool, false, ◌||◌, Option, none, some, List, [], ◌∷◌, ltb, ◌==◌, if◌then◌else◌, take, Result,
  guard, ◌>>=◌, key_error, query_error, ok, err, same_bytes,
}
use llama_tov.Asm.Numbers.{Text, strip}
use llama_tov.Gguf.Header.{GgufHeader, parse_gguf_header}

-- `parse_gguf(path).header`: `f.read(HEADER_SIZE)` and its header
unfoldable pub read_gguf : List ℕ → Result GgufHeader
read_gguf content = parse_gguf_header (take 24 content)

pub data Field : Type 0 where
  text : Text → Field
  number : ℕ → Field

pub data Value : Type 0 where
  field : Field → Value
  keys : List Text → Value
  dict : List (Text × Field) → Value

-- `decode("ascii", errors="replace")`
abbrev pub decode_ascii : List ℕ → Text
decode_ascii [] = []
decode_ascii (c ∷ s) = (if ltb c 128 then c else 0xfffd) ∷ decode_ascii s

abbrev pub magic_key : Text
magic_key = b'm' ∷ b'a' ∷ b'g' ∷ b'i' ∷ b'c' ∷ []

abbrev pub version_key : Text
version_key = b'v' ∷ b'e' ∷ b'r' ∷ b's' ∷ b'i' ∷ b'o' ∷ b'n' ∷ []

abbrev pub tensor_count_key : Text
tensor_count_key =
    b't' ∷ b'e' ∷ b'n' ∷ b's' ∷ b'o' ∷ b'r' ∷ b'_' ∷ b'c' ∷ b'o' ∷ b'u' ∷ b'n' ∷ b't' ∷ []

abbrev pub metadata_kv_count_key : Text
metadata_kv_count_key =
    b'm' ∷ b'e' ∷ b't' ∷ b'a' ∷ b'd' ∷ b'a' ∷ b't' ∷ b'a' ∷ b'_' ∷ b'k' ∷ b'v' ∷ b'_' ∷ b'c' ∷ b'o'
    ∷ b'u' ∷ b'n' ∷ b't' ∷ []

-- the dictionary of `header_to_dict`
abbrev pub header_to_dict : GgufHeader → List (Text × Field)
header_to_dict h =
    (magic_key, text (decode_ascii h.magic))
    ∷ (version_key, number h.version)
    ∷ (tensor_count_key, number h.tensor_count)
    ∷ (metadata_kv_count_key, number h.metadata_kv_count)
    ∷ []

abbrev pub header_keys : List Text
header_keys = magic_key ∷ version_key ∷ tensor_count_key ∷ metadata_kv_count_key ∷ []

abbrev pub among : Text → List Text → Bool
among k [] = false
among k (j ∷ js) = same_bytes k j || among k js

-- `d[k]`
abbrev pub lookup : Text → List (Text × Field) → Result Value
lookup k [] = err key_error
lookup k ((j, v) ∷ rows) = if same_bytes k j then ok (field v) else lookup k rows

pub data Outcome : Type 0 where
  summary : GgufHeader → Outcome
  json : List (Text × Field) → Outcome
  printed : Value → Outcome
  exit_code : ℕ → Outcome

abbrev pub on_header : (GgufHeader → Outcome) → Result GgufHeader → Outcome
on_header next (ok h) = next h
on_header next (err e) = exit_code 2

module _ (is_identifier : Text → Bool) where
  -- behind the leading dot
  abbrev pub query_field : Text → GgufHeader → Result Value
  query_field [] h = ok (dict (header_to_dict h))
  query_field (c ∷ s) h = do
    _ ← guard (is_identifier (c ∷ s)) query_error
    _ ← guard (among (c ∷ s) header_keys) query_error
    lookup (c ∷ s) (header_to_dict h)

  abbrev pub query_stripped : Text → GgufHeader → Result Value
  query_stripped [] h = err query_error
  query_stripped (c ∷ s) h =
      if same_bytes (c ∷ s) (b'k' ∷ b'e' ∷ b'y' ∷ b's' ∷ [])
      then ok (keys header_keys)
      else if c == b'.'
      then query_field s h
      else err query_error

  -- `evaluate_query`
  unfoldable pub evaluate_query : Text → GgufHeader → Result Value
  evaluate_query query h = query_stripped (strip query) h

  abbrev pub answer : Result Value → Outcome
  answer (ok v) = printed v
  answer (err e) = exit_code 3

  -- behind the header: the flags `--summary` and `--json`, and the query
  abbrev pub show : Bool → Bool → Option Text → GgufHeader → Outcome
  show summary_flag json_flag none h =
      if summary_flag then summary h else if json_flag then json (header_to_dict h) else summary h
  show summary_flag json_flag (some query) h =
      if summary_flag
      then summary h
      else if json_flag || same_bytes query (b'.' ∷ [])
      then json (header_to_dict h)
      else answer (evaluate_query query h)

  -- `main`, from the options on
  unfoldable pub main : Option (List ℕ) → Bool → Bool → Option Text → Outcome
  main none summary_flag json_flag query = exit_code 2
  main (some content) summary_flag json_flag query =
      on_header (show summary_flag json_flag query) (read_gguf content)
