-- ===== src/Gguf/Tests.antt =====
-- `parse_gguf` on a file with an alignment, an array and two tensors.
use llama_tov.Prelude.{
  ℕ, ◌+◌, ◌*◌, ◌≤◌, ◌<◌, ◌≡◌, refl, ◌≢◌, inl, Bool, true, false, ◌&&◌, none, some, List, [], ◌∷◌,
  ◌++◌, arith, ltb, length, take, drop, out_of_fuel, ok, err,
}
use llama_tov.Prelude.Int.{pos}
use llama_tov.Gguf.Stream.{le}
use llama_tov.Asm.Numbers.{Text}
use llama_tov.Gguf.Query.{
  field, number, text, printed, exit_code, main, read_gguf, evaluate_query, magic_key, version_key,
  tensor_count_key, metadata_kv_count_key,
}
use llama_tov.Gguf.QueryWritten.{ask, ask-written}
use llama_tov.Gguf.Header.{GgufHeader, gguf_magic, parse_gguf_header, parse_gguf_header_sound}
use llama_tov.Gguf.Value.Written.{
  Meta, uint32, bool, skipped, string, array_of, next, none_left, meaning, Fits,
}
use llama_tov.Gguf.Parse.{TensorInfo, parse_gguf, parsed, get, align_with, align_up, alignment_key}
use llama_tov.Gguf.Parse.Written.{header_bytes, stored, parse_gguf-written}
use llama_tov.Gguf.Parse.Align.{align_up-multiple}
use llama_tov.Gguf.Parse.Fuel.{parse_gguf-total}

-- every byte is ASCII
abbrev ascii : List ℕ → Bool
ascii [] = true
ascii (b ∷ bs) = ltb b 128 && ascii bs

abbrev entries : List (List ℕ × Meta)
entries =
    (alignment_key, uint32 64)
    ∷ (b'n' ∷ [], array_of 8 (next (string (b'a' ∷ b'b' ∷ [])) (next (string []) none_left)))
    ∷ (b'q' ∷ [], bool true)
    ∷ (b'z' ∷ [], skipped 2 (7 ∷ 0 ∷ []))
    ∷ []

abbrev tensors : List (List ℕ × TensorInfo)
tensors =
    (b'w' ∷ [], record { dims = 64 ∷ 2 ∷ []; type_code = 2; offset = 0 })
    ∷ (b'v' ∷ [], record { dims = 256 ∷ []; type_code = 14; offset = 128 })
    ∷ []

parse_gguf-written_example : parse_gguf ascii (header_bytes 3 entries tensors ++ (7 ∷ 7 ∷ [])) ≡ (
    let md = stored meaning entries [] in
    let ts = stored (λ (t : TensorInfo). t) tensors [] in
    parsed md ts (align_with (length (header_bytes 3 entries tensors)) (get alignment_key md)))
unfolding Fits
parse_gguf-written_example =
    parse_gguf-written ascii 3 entries tensors (7 ∷ 7 ∷ []) (omega arith) (omega arith)
      (omega arith)
      (
        ((omega arith, refl), omega arith),
        (
          (
            (omega arith, refl),
            (
              omega arith,
              omega arith,
              (refl, (omega arith, refl), (refl, (omega arith, refl), tt)),
            ),
          ),
          (
            ((omega arith, refl), tt),
            (((omega arith, refl), (omega arith, inl (omega arith), refl)), tt),
          ),
        ),
      )
      (
        (
          (omega arith, refl),
          omega arith,
          (omega arith, (omega arith, tt)),
          omega arith,
          omega arith,
        ),
        (((omega arith, refl), omega arith, (omega arith, tt), omega arith, omega arith), tt),
      )

parse_gguf-total_example : parse_gguf ascii (9 ∷ []) ≢ err out_of_fuel
parse_gguf-total_example = parse_gguf-total ascii (9 ∷ [])

align_up-multiple_example :
    (n : ℕ) × (align_up 1000 (pos 32) ≡ ok (pos (n * 32))) × (1000 ≤ n * 32) × (n * 32 < 1000 + 32)
align_up-multiple_example = align_up-multiple 1000 32 (omega arith)

abbrev raw_header : List ℕ
raw_header =
    0x47 ∷ 0x47 ∷ 0x55 ∷ 0x46 ∷ 3 ∷ 0 ∷ 0 ∷ 0 ∷ 34 ∷ 1 ∷ 0 ∷ 0 ∷ 0 ∷ 0 ∷ 0 ∷ 0 ∷ 26 ∷ 0 ∷ 0 ∷ 0 ∷ 0
    ∷ 0 ∷ 0 ∷ 0 ∷ []

abbrev header : GgufHeader
header = record { magic = gguf_magic; version = 3; tensor_count = 290; metadata_kv_count = 26 }

header_read : parse_gguf_header raw_header ≡ ok header
unfolding parse_gguf_header
header_read = refl

parse_gguf_header_sound_example :
    (24 ≤ length raw_header)
    × (take 4 raw_header ≡ gguf_magic)
    × (gguf_magic ≡ take 4 raw_header)
    × (3 ≡ le (take 4 (drop 4 raw_header)))
    × (header.version ≡ 3)
    × (290 ≡ le (take 8 (drop 8 raw_header)))
    × (26 ≡ le (take 8 (drop 16 raw_header)))
    × (290 < 100000)
    × (26 < 100000)
parse_gguf_header_sound_example = parse_gguf_header_sound raw_header header header_read

abbrev any_name : Text → Bool
any_name name = true

ask-written_example :
    (let content = header_bytes 3 entries tensors ++ (7 ∷ []) in
      (ask any_name content tensor_count_key ≡ printed (field (number 2)))
      × (ask any_name content metadata_kv_count_key ≡ printed (field (number 4)))
      × (ask any_name content version_key ≡ printed (field (number 3)))
      × (ask any_name content magic_key ≡ printed (field (text gguf_magic))))
ask-written_example =
    ask-written any_name entries tensors (7 ∷ []) (omega arith) (omega arith)
      (refl, (refl, (refl, (refl, tt))))

-- a name that the header does not have, and a file that is too short
unknown_field : ask any_name raw_header (b'x' ∷ []) ≡ exit_code 3
unfolding main read_gguf parse_gguf_header evaluate_query
unknown_field = refl

short_file : main any_name (some (0x47 ∷ [])) false false none ≡ exit_code 2
unfolding main read_gguf parse_gguf_header
short_file = refl
