-- ===== src/Bpe/Tests.antt =====
-- The tokenizer on the text "aab a", with merges of `a` and `a`, and of U+0120 and `a`.
use llama_tov.Prelude.{
  ℕ, ◌≡◌, refl, sym, ap, ◌∙◌, Option, none, some, List, [], ◌∷◌, arith, ok, join,
}
use mathlib.Core.Path.{subst}
use llama_tov.Bpe.{Text, chunks, b2u, bpe, rank_of, encode, decode}
use llama_tov.Bpe.Merge.{bpe-Normal, Normal}
use llama_tov.Bpe.RoundTrip.{decode-encode, IsToken}

abbrev merges : List Text
merges = (b'a' ∷ 32 ∷ b'a' ∷ []) ∷ (0x120 ∷ 32 ∷ b'a' ∷ []) ∷ []

abbrev tokens : List Text
tokens = (b'a' ∷ []) ∷ (b'b' ∷ []) ∷ (0x120 ∷ []) ∷ (b'a' ∷ b'a' ∷ []) ∷ (0x120 ∷ b'a' ∷ []) ∷ []

b2u_a : b2u 97 ≡ some 97
unfolding b2u
b2u_a = refl

merged : bpe (rank_of merges) (b'a' ∷ b'a' ∷ b'b' ∷ []) ≡ ok ((b'a' ∷ b'a' ∷ []) ∷ (b'b' ∷ []) ∷ [])
unfolding bpe rank_of
merged = refl

bpe-Normal_example :
    (w : List Text) × (bpe (rank_of merges) (b'a' ∷ b'a' ∷ b'b' ∷ []) ≡ ok w)
    × (join w ≡ b'a' ∷ b'a' ∷ b'b' ∷ [])
    × Normal (rank_of merges) w
bpe-Normal_example = bpe-Normal (rank_of merges) (b'a' ∷ b'a' ∷ b'b' ∷ [])

b2u_b : b2u 98 ≡ some 98
unfolding b2u
b2u_b = refl

b2u_space : b2u 32 ≡ some 0x120
unfolding b2u
b2u_space = refl

only : (b c : ℕ) → b2u b ≡ some c → IsToken tokens c → (d : ℕ) → b2u b ≡ some d → IsToken tokens d
only b c h token d h' =
    subst (IsToken tokens) (ap (λ (o : Option ℕ). elim o [ some x ↦ x | none ↦ c ]) (sym h ∙ h'))
      token

abbrev words : List ℕ
words = b'a' ∷ b'a' ∷ b'b' ∷ 32 ∷ b'a' ∷ []

encoded : encode tokens merges words ≡ ok (3 ∷ 1 ∷ 4 ∷ [])
unfolding encode b2u chunks
encoded = refl

decode-encode_example :
    (ids : List ℕ) × (encode tokens merges words ≡ ok ids) × (decode tokens ids ≡ ok words)
decode-encode_example =
    let a = only 97 97 b2u_a (0, refl) in
    let b = only 98 98 b2u_b (1, refl) in
    let space = only 32 0x120 b2u_space (2, refl) in
    decode-encode tokens merges words (
      (omega arith, a),
      ((omega arith, a), ((omega arith, b), ((omega arith, space), ((omega arith, a), tt)))),
    )
