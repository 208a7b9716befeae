-- ===== src/Bpe/Merge.antt =====
-- The merge loop `_bpe`: it ends, keeps the text, and stops only when no pair has a rank.
use llama_tov.Prelude.{
  ℕ, zero, suc, ◌+◌, ◌-◌, ◌≤◌, ◌<◌, ◌≡◌, refl, sym, ap, ◌∙◌, inl, inr, true, false, ◌&&◌, ◌||◌,
  List, [], ◌∷◌, ◌++◌, map, append_assoc, arith, ltb, ◌==◌, ltb→lt, ==_iff, Bool-cases, length,
  length-append, get_or, take, drop, length-take, length-drop, tabulate_from, ok, join, AllOf,
  AllOf-tabulate_from, AllOf-lane,
}
use mathlib.Core.Path.{subst}
use llama_tov.Bpe.{Text, no_rank, min_pair, min_of, ranked, best_pair, merge_at, bpe_loop, bpe}

min_pair-le : (a b : ℕ × ℕ) → ((min_pair a b).0 ≤ a.0) × ((min_pair a b).0 ≤ b.0)
min_pair-le (r, i) (r', i') = ground arith

min_pair-in : (P : ℕ × ℕ → Type 0) (a b : ℕ × ℕ) → P a → P b → P (min_pair a b)
min_pair-in P (r, i) (r', i') pa pb = elim (Bool-cases (ltb r' r || (r' == r && ltb i' i))) [
  | inl less ↦ rw less pb
  | inr more ↦ rw more pa
]

min_of-le : (best : ℕ × ℕ) (xs : List (ℕ × ℕ)) → (min_of best xs).0 ≤ best.0
min_of-le best [] = omega arith
min_of-le best (x ∷ xs) = omega (arith, min_of-le (min_pair best x) xs, (min_pair-le best x).0)

min_of-all : (best : ℕ × ℕ) (xs : List (ℕ × ℕ)) → AllOf (λ y. (min_of best xs).0 ≤ y.0) xs
min_of-all best [] = tt
min_of-all best (x ∷ xs) = (
  omega (arith, min_of-le (min_pair best x) xs, (min_pair-le best x).1),
  min_of-all (min_pair best x) xs,
)

min_of-in :
    (P : ℕ × ℕ → Type 0) (best : ℕ × ℕ) (xs : List (ℕ × ℕ))
    → P best
    → AllOf P xs
    → P (min_of best xs)
min_of-in P best [] pb ps = pb
min_of-in P best (x ∷ xs) pb ps =
    min_of-in P (min_pair best x) xs (min_pair-in P best x pb ps.0) ps.1

-- joining two neighbours keeps the text
pub join-merge_at :
    (idx : ℕ) (word : List Text) → idx + 1 < length word → join (merge_at idx word) ≡ join word
join-merge_at idx [] h = absurd (omega arith)
join-merge_at zero (a ∷ []) h = absurd (omega arith)
join-merge_at zero (a ∷ b ∷ word) h = append_assoc a b (join word)
join-merge_at (suc idx) (a ∷ word) h =
    let first : suc idx + 1 ≡ suc (idx + 1) = omega arith in
    let second : suc idx + 2 ≡ suc (idx + 2) = omega arith in
    rw (first, second) (ap (λ (t : Text). a ++ t) (join-merge_at idx word (omega arith)))

length-merge_at :
    (idx : ℕ) (word : List Text)
    → idx + 1 < length word
    → length (merge_at idx word) + 1 ≡ length word
length-merge_at idx word h =
    let merged = get_or word idx [] ++ get_or word (idx + 1) [] in
    omega (
      arith,
      length-append (take idx word) (merged ∷ drop (idx + 2) word),
      length-take idx word,
      length-drop (idx + 2) word,
    )

not_long : (n i : ℕ) → ltb 1 n ≡ false → i + 1 < n → ⊥
not_long n i h lt = ground arith

positive : (i : ℕ) → (i == 0) ≡ false → 1 ≤ i
positive i h = ground arith

module _ (rank : Text → Text → ℕ) where
  -- the pair that the loop picks is one of the word's, and none has a lower rank
  best_pair-bounds :
      (word : List Text)
      → 1 < length word
      → ((best_pair rank word).1 + 1 < length word)
        × ((i : ℕ)
            → i + 1 < length word
            → (best_pair rank word).0 ≤ rank (get_or word i []) (get_or word (i + 1) []))
  best_pair-bounds word h =
      let n = length word - 2 in
      let pairs = tabulate_from 1 n (ranked rank word) in
      let all = min_of-all (ranked rank word 0) pairs in
      (
        min_of-in (λ y. y.1 + 1 < length word) (ranked rank word 0) pairs (omega arith)
            (AllOf-tabulate_from (λ y. y.1 + 1 < length word) 1 n (ranked rank word)
              (λ k lt. omega arith)),
        λ i lt. elim (Bool-cases (i == 0)) [
          | inl first ↦
              let z : 0 ≡ i = sym ((==_iff i 0).0 first) in
              subst (λ (t : ℕ). (best_pair rank word).0 ≤ (ranked rank word t).0) z
                (min_of-le (ranked rank word 0) pairs)
          | inr later ↦
              AllOf-lane (λ y. (best_pair rank word).0 ≤ y.0) 1 n (ranked rank word) all i
                (positive i later) (omega arith)
        ],
      )

  -- no two neighbours have a rank
  abbrev pub Normal : List Text → Type 0
  Normal word =
      (i : ℕ) → i + 1 < length word → no_rank ≤ rank (get_or word i []) (get_or word (i + 1) [])

  bpe_loop-short :
      (fuel : ℕ) (word : List Text)
      → ltb 1 (length word) ≡ false
      → bpe_loop rank (suc fuel) word ≡ ok word
  unfolding bpe_loop
  bpe_loop-short fuel word h = rw (bpe_loop, h) refl

  bpe_loop-done :
      (fuel : ℕ) (word : List Text)
      → ltb 1 (length word) ≡ true
      → ((best_pair rank word).0 == no_rank) ≡ true
      → bpe_loop rank (suc fuel) word ≡ ok word
  unfolding bpe_loop
  bpe_loop-done fuel word h e = rw (bpe_loop, h, e) refl

  bpe_loop-next :
      (fuel : ℕ) (word : List Text)
      → ltb 1 (length word) ≡ true
      → ((best_pair rank word).0 == no_rank) ≡ false
      → bpe_loop rank (suc fuel) word ≡ bpe_loop rank fuel (merge_at (best_pair rank word).1 word)
  unfolding bpe_loop
  bpe_loop-next fuel word h e = rw (bpe_loop, h, e) refl

  bpe_loop-Normal :
      (fuel : ℕ) (word : List Text)
      → length word < fuel
      → (w : List Text) × (bpe_loop rank fuel word ≡ ok w) × (join w ≡ join word) × Normal w
  bpe_loop-Normal zero word h = elim h [ ]
  bpe_loop-Normal (suc fuel) word h = elim (Bool-cases (ltb 1 (length word))) [
    | inl pairs ↦
        let long = ltb→lt 1 (length word) pairs in
        let (inside, least) = best_pair-bounds word long in
        elim (Bool-cases ((best_pair rank word).0 == no_rank)) [
          | inl none_left ↦
              let stop = (==_iff _ _).0 none_left in
              (
                word,
                bpe_loop-done fuel word pairs none_left,
                refl,
                λ i lt. omega (arith, least i lt, stop),
              )
          | inr more ↦
              let idx = (best_pair rank word).1 in
              let shorter = length-merge_at idx word inside in
              let (w, run, text, normal) =
                bpe_loop-Normal fuel (merge_at idx word) (omega (arith, shorter)) in
              (
                w,
                bpe_loop-next fuel word pairs more ∙ run,
                text ∙ join-merge_at idx word inside,
                normal,
              )
        ]
    | inr short ↦ (
      word,
      bpe_loop-short fuel word short,
      refl,
      λ i lt. absurd (not_long (length word) i short lt),
    )
  ]

  join-singles : (t : Text) → join (map (λ c. c ∷ []) t) ≡ t
  join-singles [] = refl
  join-singles (c ∷ t) = ap (λ l. c ∷ l) (join-singles t)

  -- `_bpe` ends on every text and returns pieces that make up the text; no two neighbours among them
  -- have a rank below 2^30, the value that a pair without a merge gets.
  pub bpe-Normal : (t : Text) → (w : List Text) × (bpe rank t ≡ ok w) × (join w ≡ t) × Normal w
  unfolding bpe
  bpe-Normal t =
      let word = map (λ c. c ∷ []) t in
      let (w, run, text, normal) = bpe_loop-Normal (length word + 1) word (omega arith) in
      (w, run, text ∙ join-singles t, normal)
