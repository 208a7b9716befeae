-- ===== src/Gguf/QueryWritten.antt =====
-- `ggufq` on a file that is written as the format says.
use llama_tov.Prelude.{
  ℕ, ◌<◌, ◌≡◌, refl, ap, ◌∙◌, Bool, true, false, some, List, ◌∷◌, ◌++◌, arith, lt→ltb, length, ok,
  AllOf,
}
use llama_tov.Asm.Numbers.{Text}
use llama_tov.Gguf.Stream.{le_bytes, le-le_bytes}
use llama_tov.Gguf.Value.Written.{Meta}
use llama_tov.Gguf.Parse.{TensorInfo}
use llama_tov.Gguf.Parse.Written.{header_bytes, concat_map, entry_bytes, info_bytes}
use llama_tov.Gguf.Header.{GgufHeader, gguf_magic, parse_gguf_header}
use llama_tov.Gguf.Query.{
  field, read_gguf, text, number, magic_key, version_key, tensor_count_key, metadata_kv_count_key,
  header_keys, evaluate_query, Outcome, printed, on_header, show, main,
}

abbrev pub written_header : ℕ → ℕ → GgufHeader
written_header tensors entries = record {
  magic = gguf_magic;
  version = 3;
  tensor_count = tensors;
  metadata_kv_count = entries;
}

read_fields :
    (tensors entries : ℕ) (rest : List ℕ)
    → tensors < 100000
    → entries < 100000
    → read_gguf (
        le_bytes 4 0x46554747
        ++ (le_bytes 4 3 ++ (le_bytes 8 tensors ++ (le_bytes 8 entries ++ rest))))
      ≡ ok (written_header tensors entries)
unfolding read_gguf parse_gguf_header le_bytes
read_fields tensors entries rest few few' =
    rw
      (
        le-le_bytes 8 tensors (omega arith),
        le-le_bytes 8 entries (omega arith),
        lt→ltb tensors 100000 few,
        lt→ltb entries 100000 few',
      )
      refl

module _ (is_identifier : Text → Bool) where
  -- `ggufq file .FIELD` without flags
  abbrev pub ask : List ℕ → Text → Outcome
  ask content key = main is_identifier (some content) false false (some (b'.' ∷ key))

  answer_of :
      (tensors entries : ℕ) (rest : List ℕ) (query : Text)
      → tensors < 100000
      → entries < 100000
      → main is_identifier
          (some (
            le_bytes 4 0x46554747
            ++ (le_bytes 4 3 ++ (le_bytes 8 tensors ++ (le_bytes 8 entries ++ rest)))))
          false
          false
          (some query)
        ≡ show is_identifier false false (some query) (written_header tensors entries)
  unfolding main
  answer_of tensors entries rest query few few' =
      ap (on_header (show is_identifier false false (some query)))
        (read_fields tensors entries rest few few')

  -- `ggufq` on a file that is written as the format says, in version 3 and with fewer than 100000 rows in
  -- each table, whatever follows them: `.tensor_count` and `.metadata_kv_count` print the numbers of the
  -- written tensors and entries, `.version` prints 3 and `.magic` GGUF, provided that Python takes these
  -- four names as identifiers.
  pub ask-written :
      (es : List (List ℕ × Meta)) (ts : List (List ℕ × TensorInfo)) (after : List ℕ)
      → length es < 100000
      → length ts < 100000
      → AllOf (λ k. is_identifier k ≡ true) header_keys
      → (let content = header_bytes 3 es ts ++ after in
          (ask content tensor_count_key ≡ printed (field (number (length ts))))
          × (ask content metadata_kv_count_key ≡ printed (field (number (length es))))
          × (ask content version_key ≡ printed (field (number 3)))
          × (ask content magic_key ≡ printed (field (text gguf_magic))))
  unfolding le_bytes evaluate_query
  ask-written es ts after few few' names =
      let (magic, (version, (tensors, (entries, none_left)))) = names in
      let rows = concat_map entry_bytes es ++ concat_map info_bytes ts ++ after in
      let header = written_header (length ts) (length es) in
      (
        answer_of (length ts) (length es) rows (b'.' ∷ tensor_count_key) few' few ∙ rw tensors refl,
        answer_of (length ts) (length es) rows (b'.' ∷ metadata_kv_count_key) few' few
            ∙ rw entries refl,
        answer_of (length ts) (length es) rows (b'.' ∷ version_key) few' few ∙ rw version refl,
        answer_of (length ts) (length es) rows (b'.' ∷ magic_key) few' few ∙ rw magic refl,
      )
