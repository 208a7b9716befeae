-- ===== src/Bpe.antt =====
-- The byte-level BPE tokenizer: `bytes_to_unicode` and `QwenBPE` of bpd/lib/qwen_bpe.py. A character is its code
-- point, a text the list of them.
pub mod ByteMap
pub mod Merge
pub mod RoundTrip
mod Tests
use llama_tov.Prelude.{
  ℕ, zero, suc, ◌+◌, ◌-◌, ◌^◌, Bool, true, false, ◌&&◌, ◌||◌, Option, none, some, List, [], ◌∷◌,
  ◌++◌, map, ltb, ◌==◌, if◌then◌else◌, length, get_elem?, get_or, take, drop, tabulate_from, Result,
  guard, ◌>>=◌, ◌>>◌, value_error, key_error, index_error, out_of_fuel, ok, err, same_bytes, join,
}

abbrev pub Text : Type 0
Text = List ℕ

-- `range(a, b)`
abbrev pub range : ℕ → ℕ → List ℕ
range a b = tabulate_from a (b - a) (λ i. i)

-- `b in bs`
abbrev pub elem : ℕ → List ℕ → Bool
elem b [] = false
elem b (x ∷ xs) = b == x || elem b xs

-- the bytes that stand for themselves: `!` to `~`, U+00A1 to U+00AC, U+00AE to U+00FF
abbrev pub printable : List ℕ
printable = range 33 127 ++ (range 161 173 ++ range 174 256)

-- `for b in range(256): if b not in bs: bs.append(b); cs.append(256+n); n += 1`
unfoldable pub shift_others : ℕ → ℕ → List ℕ → List ℕ → ℕ → List ℕ × List ℕ
shift_others b zero bs cs n = (bs, cs)
shift_others b (suc left) bs cs n = elim (elem b bs) [
  | true ↦ shift_others (suc b) left bs cs n
  | false ↦ shift_others (suc b) left (bs ++ (b ∷ [])) (cs ++ ((256 + n) ∷ [])) (suc n)
]

-- `dict(zip(keys, values)).get(k)`: a later pair replaces an earlier one.
abbrev pub zip_get : List ℕ → List ℕ → ℕ → Option ℕ
zip_get (k ∷ ks) (v ∷ vs) x =
    let rest = zip_get ks vs x in
    elim rest [ some w ↦ some w | none ↦ (if k == x then some v else none) ]
zip_get _ _ x = none

-- `bytes_to_unicode()`: the keys and the values of the dictionary
abbrev pub byte_map : List ℕ × List ℕ
byte_map = shift_others 0 256 printable printable 0

unfoldable pub b2u : ℕ → Option ℕ
unfolding shift_others
b2u b = zip_get byte_map.0 byte_map.1 b

-- `{v: k for k, v in self.b2u.items()}.get(c)`
unfoldable pub u2b : ℕ → Option ℕ
unfolding shift_others
u2b c = zip_get byte_map.1 byte_map.0 c

-- `{key: i for i, key in enumerate(keys)}.get(p)`: the last of equal keys counts.
abbrev pub last_index {ℓ} : {K : Type ℓ} → (K → K → Bool) → List K → K → ℕ → Option ℕ
last_index same [] p i = none
last_index same (k ∷ keys) p i =
    let rest = last_index same keys p (suc i) in
    elim rest [ some j ↦ some j | none ↦ (if same k p then some i else none) ]

-- `m.split(" ")`, with the part that is being read
abbrev pub split_space : Text → Text → List Text
split_space cur [] = cur ∷ []
split_space cur (ch ∷ rest) = elim (ch == 32) [
  | true ↦ cur ∷ split_space [] rest
  | false ↦ split_space (cur ++ (ch ∷ [])) rest
]

abbrev pub same_texts : List Text → List Text → Bool
same_texts [] [] = true
same_texts (x ∷ xs) (y ∷ ys) = same_bytes x y && same_texts xs ys
same_texts _ _ = false

-- `1 << 30`
abbrev pub no_rank : ℕ
no_rank = 2 ^ 30

-- `self.merge_rank.get((a, b), 1<<30)`
unfoldable pub rank_of : List Text → Text → Text → ℕ
rank_of merges a b = elim (last_index same_texts (map (split_space []) merges) (a ∷ b ∷ []) 0) [
  | some i ↦ i
  | none ↦ no_rank
]

-- `min` of tuples: the lexicographic order
abbrev pub min_pair : ℕ × ℕ → ℕ × ℕ → ℕ × ℕ
min_pair (r, i) (r', i') = if ltb r' r || (r' == r && ltb i' i) then (r', i') else (r, i)

abbrev pub min_of : ℕ × ℕ → List (ℕ × ℕ) → ℕ × ℕ
min_of best [] = best
min_of best (x ∷ xs) = min_of (min_pair best x) xs

-- `word[:idx] + [word[idx]+word[idx+1]] + word[idx+2:]`
abbrev pub merge_at : ℕ → List Text → List Text
merge_at idx word =
    take idx word ++ ((get_or word idx [] ++ get_or word (idx + 1) []) ∷ drop (idx + 2) word)

module _ (rank : Text → Text → ℕ) where
  -- `(self.merge_rank.get((word[i], word[i+1]), 1<<30), i)`
  abbrev pub ranked : List Text → ℕ → ℕ × ℕ
  ranked word i = (rank (get_or word i []) (get_or word (i + 1) []), i)

  -- `min(ranked)`; the loop's test leaves at least one pair
  abbrev pub best_pair : List Text → ℕ × ℕ
  best_pair word = min_of (ranked word 0) (tabulate_from 1 (length word - 2) (ranked word))

  -- the `while` loop, on fuel
  unfoldable pub bpe_loop : ℕ → List Text → Result (List Text)
  bpe_loop zero word = err out_of_fuel
  bpe_loop (suc fuel) word = elim (ltb 1 (length word)) [
    | false ↦ ok word
    | true ↦
        let best = best_pair word in
        elim (best.0 == no_rank) [ true ↦ ok word | false ↦ bpe_loop fuel (merge_at best.1 word) ]
  ]

  -- `_bpe`: every round makes the word shorter by one
  unfoldable pub bpe : Text → Result (List Text)
  unfolding bpe_loop
  bpe word_chars = let word = map (λ c. c ∷ []) word_chars in bpe_loop (length word + 1) word

-- `for ch in unicode_str`, which cuts before each U+0120
unfoldable pub chunks : Text → Text → List Text
chunks [] [] = []
chunks (c ∷ cur) [] = (c ∷ cur) ∷ []
chunks [] (ch ∷ rest) = chunks (ch ∷ []) rest
chunks (c ∷ cur) (ch ∷ rest) = elim (ch == 0x120) [
  | true ↦ (c ∷ cur) ∷ chunks (ch ∷ []) rest
  | false ↦ chunks (c ∷ (cur ++ (ch ∷ []))) rest
]

-- `"".join(self.b2u[b] for b in text.encode("utf-8"))`
unfoldable pub to_chars : List ℕ → Result Text
to_chars [] = ok []
to_chars (b ∷ bytes) = elim (b2u b) [
  | some c ↦ (do cs ← to_chars bytes; ok (c ∷ cs))
  | none ↦ err key_error
]

module _ (tokens : List Text) where
  -- `self.tok2id`
  abbrev pub tok2id : Text → Option ℕ
  tok2id piece = last_index same_bytes tokens piece 0

  -- the characters of a piece that is no token; one that is no token either is dropped
  unfoldable pub char_ids : Text → List ℕ
  char_ids [] = []
  char_ids (c ∷ cs) = elim (tok2id (c ∷ [])) [ some i ↦ i ∷ char_ids cs | none ↦ char_ids cs ]

  unfoldable pub piece_ids : Text → List ℕ
  unfolding char_ids
  piece_ids piece = elim (tok2id piece) [ some i ↦ i ∷ [] | none ↦ char_ids piece ]

  -- `"".join(self.tokens[i] for i in ids)`
  unfoldable pub token_text : List ℕ → Result Text
  token_text [] = ok []
  token_text (i ∷ ids) = elim (get_elem? tokens i) [
    | some t ↦ (do s ← token_text ids; ok (t ++ s))
    | none ↦ err index_error
  ]

-- `bytes(u2b.get(c, ord(c)) for c in s)`
unfoldable pub to_bytes : Text → Result (List ℕ)
to_bytes [] = ok []
to_bytes (c ∷ s) = do
  let b : ℕ = elim (u2b c) [ some a ↦ a | none ↦ c ]
  guard (ltb b 256) value_error
  rest ← to_bytes s
  ok (b ∷ rest)

-- `decode`, up to the bytes that Python then decodes as UTF-8
unfoldable pub decode : List Text → List ℕ → Result (List ℕ)
unfolding token_text to_bytes
decode tokens ids = do s ← token_text tokens ids; to_bytes s

module _ (tokens merges : List Text) where
  -- `for chunk in chunks: for piece in self._bpe(chunk): ...`
  unfoldable pub chunk_ids : List Text → Result (List ℕ)
  unfolding bpe rank_of piece_ids
  chunk_ids [] = ok []
  chunk_ids (chunk ∷ rest) = do
    pieces ← bpe (rank_of merges) chunk
    ids ← chunk_ids rest
    ok (join (map (piece_ids tokens) pieces) ++ ids)

  -- `encode`, on the bytes of the text
  unfoldable pub encode : List ℕ → Result (List ℕ)
  unfolding to_chars chunk_ids
  encode bytes = do unicode_str ← to_chars bytes; chunk_ids (chunks [] unicode_str)
