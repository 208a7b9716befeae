-- ===== src/Bpe/RoundTrip.antt =====
-- `decode` after `encode`, when every byte's character is a token.
use llama_tov.Prelude.{
  ℕ, suc, ◌+◌, ◌<◌, ◌≡◌, refl, sym, ap, ◌∙◌, inl, inr, true, false, Option, none, some, List, [],
  ◌∷◌, ◌++◌, map, append_assoc, append-nil, arith, ◌==◌, lt→ltb, Bool-cases, Option-cases,
  get_elem?, Result, ◌>>=◌, index_error, ok, err, same_bytes, same_bytes_sound, join, AllOf,
  AllOf-append_left, AllOf-append_right,
}
use mathlib.Core.Path.{subst}
use llama_tov.Bpe.{
  Text, last_index, chunks, to_chars, b2u, u2b, rank_of, tok2id, char_ids, piece_ids, chunk_ids,
  encode, token_text, to_bytes, decode,
}
use llama_tov.Bpe.ByteMap.{b2u-u2b}
use llama_tov.Bpe.Merge.{bpe-Normal}

chunks-cut :
    (c ch : ℕ) (cur t : Text)
    → (ch == 0x120) ≡ true
    → chunks (c ∷ cur) (ch ∷ t) ≡ (c ∷ cur) ∷ chunks (ch ∷ []) t
unfolding chunks
chunks-cut c ch cur t h = rw (chunks, h) refl

chunks-keep :
    (c ch : ℕ) (cur t : Text)
    → (ch == 0x120) ≡ false
    → chunks (c ∷ cur) (ch ∷ t) ≡ chunks (c ∷ (cur ++ (ch ∷ []))) t
unfolding chunks
chunks-keep c ch cur t h = rw (chunks, h) refl

-- cutting a text into chunks keeps the text
join-chunks : (cur t : Text) → join (chunks cur t) ≡ cur ++ t
unfolding chunks
join-chunks [] [] = refl
join-chunks (c ∷ cur) [] = refl
join-chunks [] (ch ∷ t) = join-chunks (ch ∷ []) t
join-chunks (c ∷ cur) (ch ∷ t) = elim (Bool-cases (ch == 0x120)) [
  | inl cut ↦
      rw (chunks-cut c ch cur t cut) (ap (λ (s : Text). c ∷ (cur ++ s)) (join-chunks (ch ∷ []) t))
  | inr keep ↦ rw (chunks-keep c ch cur t keep) (
      join-chunks (c ∷ (cur ++ (ch ∷ []))) t
      ∙ ap (λ (s : Text). c ∷ s) (append_assoc cur (ch ∷ []) t))
]

some_inj : {a b : ℕ} → ◌≡◌ {A = Option ℕ} (some a) (some b) → a ≡ b
some_inj {a} h = ap (λ (o : Option ℕ). elim o [ some x ↦ x | none ↦ a ]) h

plus_zero : (i : ℕ) → i ≡ i + 0
plus_zero i = omega arith

shift : (i n : ℕ) → suc i + n ≡ i + suc n
shift i n = omega arith

-- an index that the dictionary gives holds an equal token
last_index_sound :
    (keys : List Text) (p : Text) (i j : ℕ)
    → last_index same_bytes keys p i ≡ some j
    → (n : ℕ) × (j ≡ i + n) × (get_elem? keys n ≡ some p)
last_index_sound [] p i j h = ground arith
last_index_sound (k ∷ keys) p i j h = elim (Option-cases (last_index same_bytes keys p (suc i))) [
  | inl absent ↦
      let at = rw absent at h in
      elim (Bool-cases (same_bytes k p)) [
        | inl hit ↦
            (0, sym (some_inj (rw hit at at)) ∙ plus_zero i, ap some (same_bytes_sound k p hit))
        | inr miss ↦ let bad = rw miss at at in ground arith
      ]
  | inr (w, later) ↦
      let value = some_inj (rw later at h) in
      let (n, at, there) = last_index_sound keys p (suc i) w later in
      (suc n, sym value ∙ at ∙ shift i n, there)
]

module _ (tokens : List Text) where
  -- the character is a token of its own
  abbrev pub IsToken : ℕ → Type 0
  IsToken c = (i : ℕ) × (tok2id tokens (c ∷ []) ≡ some i)

  -- ids whose tokens make up a text
  abbrev Spells : List ℕ → Text → Type 0
  Spells ids t = token_text tokens ids ≡ ok t

  token_text-hit :
      (i : ℕ) (ids : List ℕ) (u : Text)
      → get_elem? tokens i ≡ some u
      → token_text tokens (i ∷ ids) ≡ (token_text tokens ids >>= λ s. ok (u ++ s))
  unfolding token_text
  token_text-hit i ids u h = rw (token_text, h) refl

  token_text-miss :
      (i : ℕ) (ids : List ℕ)
      → get_elem? tokens i ≡ none
      → token_text tokens (i ∷ ids) ≡ err index_error
  unfolding token_text
  token_text-miss i ids h = rw (token_text, h) refl

  regroup :
      (r : Result Text) (u t : Text)
      → ((r >>= λ s. ok (s ++ t)) >>= λ s. ok (u ++ s))
        ≡ ((r >>= λ s. ok (u ++ s)) >>= λ s. ok (s ++ t))
  regroup (ok s) u t = ap ok (sym (append_assoc u s t))
  regroup (err e) u t = refl

  token_text-append :
      (xs ys : List ℕ) (t : Text)
      → Spells ys t
      → token_text tokens (xs ++ ys) ≡ (token_text tokens xs >>= λ s. ok (s ++ t))
  unfolding token_text
  token_text-append [] ys t h = h
  token_text-append (x ∷ xs) ys t h = elim (Option-cases (get_elem? tokens x)) [
    | inl absent ↦ rw (token_text-miss x (xs ++ ys) absent, token_text-miss x xs absent) refl
    | inr (u, there) ↦
        rw
          (
            token_text-hit x (xs ++ ys) u there,
            token_text-hit x xs u there,
            token_text-append xs ys t h,
          )
          (regroup (token_text tokens xs) u t)
  ]

  Spells-append :
      (xs ys : List ℕ) (s t : Text) → Spells xs s → Spells ys t → Spells (xs ++ ys) (s ++ t)
  Spells-append xs ys s t hs ht = rw (token_text-append xs ys t ht, hs) refl

  Spells-token : (p : Text) (i : ℕ) → tok2id tokens p ≡ some i → Spells (i ∷ []) p
  unfolding token_text
  Spells-token p i h =
      let (n, at, there) = last_index_sound tokens p 0 i h in
      let same : i ≡ n = omega (arith, at) in
      let got : get_elem? tokens i ≡ some p = rw same there in
      rw (token_text-hit i [] p got) (ap ok (append-nil p))

  char_ids-next :
      (c : ℕ) (t : Text) (i : ℕ)
      → tok2id tokens (c ∷ []) ≡ some i
      → char_ids tokens (c ∷ t) ≡ i ∷ char_ids tokens t
  unfolding char_ids
  char_ids-next c t i h = rw (char_ids, h) refl

  Spells-chars : (t : Text) → AllOf IsToken t → Spells (char_ids tokens t) t
  unfolding token_text char_ids
  Spells-chars [] h = refl
  Spells-chars (c ∷ t) h =
      let (i, there) = h.0 in
      rw (char_ids-next c t i there) (
        Spells-append (i ∷ []) (char_ids tokens t) (c ∷ []) t (Spells-token (c ∷ []) i there)
          (Spells-chars t h.1))

  Spells-piece : (p : Text) → AllOf IsToken p → Spells (piece_ids tokens p) p
  unfolding piece_ids
  Spells-piece p h = elim (Option-cases (tok2id tokens p)) [
    | inl absent ↦ rw (piece_ids, absent) (Spells-chars p h)
    | inr (i, there) ↦ rw (piece_ids, there) (Spells-token p i there)
  ]

  Spells-pieces :
      (ps : List Text)
      → AllOf IsToken (join ps)
      → Spells (join (map (piece_ids tokens) ps)) (join ps)
  unfolding token_text
  Spells-pieces [] h = refl
  Spells-pieces (p ∷ ps) h =
      Spells-append (piece_ids tokens p) _ p (join ps)
        (Spells-piece p (AllOf-append_left IsToken p (join ps) h))
        (Spells-pieces ps (AllOf-append_right IsToken p (join ps) h))

  Spells-chunks :
      (merges : List Text) (cs : List Text)
      → AllOf IsToken (join cs)
      → (ids : List ℕ) × (chunk_ids tokens merges cs ≡ ok ids) × Spells ids (join cs)
  unfolding chunk_ids token_text
  Spells-chunks merges [] h = ([], refl, refl)
  Spells-chunks merges (c ∷ cs) h =
      let (ps, run, text, normal) = bpe-Normal (rank_of merges) c in
      let (ids, rest, spells) =
        Spells-chunks merges cs (AllOf-append_right IsToken c (join cs) h) in
      let here = subst (AllOf IsToken) (sym text) (AllOf-append_left IsToken c (join cs) h) in
      let first = subst (Spells (join (map (piece_ids tokens) ps))) text (Spells-pieces ps here) in
      (
        join (map (piece_ids tokens) ps) ++ ids,
        rw (run, rest) refl,
        Spells-append (join (map (piece_ids tokens) ps)) ids c (join cs) first spells,
      )

  to_chars-next :
      (b c : ℕ) (bytes : List ℕ)
      → b2u b ≡ some c
      → to_chars (b ∷ bytes) ≡ (to_chars bytes >>= λ cs. ok (c ∷ cs))
  unfolding to_chars
  to_chars-next b c bytes h = rw (to_chars, h) refl

  to_bytes-next :
      (b c : ℕ) (t : Text) (bytes : List ℕ)
      → u2b c ≡ some b
      → b < 256
      → to_bytes t ≡ ok bytes
      → to_bytes (c ∷ t) ≡ ok (b ∷ bytes)
  unfolding to_bytes
  to_bytes-next b c t bytes h lt rest = rw (to_bytes, h, lt→ltb b 256 lt, rest) refl

  to_chars-total :
      (bytes : List ℕ)
      → AllOf (λ b. (b < 256) × ((c : ℕ) → b2u b ≡ some c → IsToken c)) bytes
      → (t : Text) × (to_chars bytes ≡ ok t) × (to_bytes t ≡ ok bytes) × AllOf IsToken t
  unfolding to_chars to_bytes
  to_chars-total [] h = ([], refl, refl, tt)
  to_chars-total (b ∷ bytes) h =
      let (t, run, back, all) = to_chars-total bytes h.1 in
      let (c, there, inverse) = b2u-u2b b h.0.0 in
      (
        c ∷ t,
        rw (to_chars-next b c bytes there, run) refl,
        to_bytes-next b c t bytes inverse h.0.0 back,
        (h.0.1 c there, all),
      )

  -- `encode` succeeds on every text whose bytes' characters are tokens, with any merges, and `decode`
  -- of its ids gives the bytes of the text back.
  pub decode-encode :
      (merges : List Text) (bytes : List ℕ)
      → AllOf (λ b. (b < 256) × ((c : ℕ) → b2u b ≡ some c → IsToken c)) bytes
      → (ids : List ℕ) × (encode tokens merges bytes ≡ ok ids) × (decode tokens ids ≡ ok bytes)
  unfolding encode decode
  decode-encode merges bytes h =
      let (t, run, back, all) = to_chars-total bytes h in
      let same = join-chunks [] t in
      let (ids, found, spells) =
        Spells-chunks merges (chunks [] t) (subst (AllOf IsToken) (sym same) all) in
      let spells' = subst (Spells ids) same spells in (ids, rw run found, rw spells' back)
