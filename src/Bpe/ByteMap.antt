-- ===== src/Bpe/ByteMap.antt =====
-- The byte map of `bytes_to_unicode` and its inverse in `decode`.
use llama_tov.Prelude.{
  ℕ, zero, suc, ◌+◌, ◌≤◌, ◌<◌, ◌≡◌, refl, sym, ap, ◌∙◌, inl, inr, true, false, Option, none, some,
  List, [], ◌∷◌, ◌++◌, append-nil, arith, ◌==◌, ==_iff, Bool-cases, Option-cases, length,
  length-append, tabulate_from,
}
use mathlib.Core.Path.{subst}
use llama_tov.Bpe.{range, elem, printable, shift_others, zip_get, byte_map, b2u, u2b}

-- each value is above the one before, the first above `lo`, and all are below `hi`
abbrev Ascends : ℕ → ℕ → List ℕ → Type 0
Ascends lo hi [] = lo ≤ hi
Ascends lo hi (v ∷ vs) = (lo ≤ v) × Ascends (suc v) hi vs

below_differs : (v x : ℕ) → x < v → (v == x) ≡ false
below_differs v x h = ground arith

same_self : (x : ℕ) → (x == x) ≡ true
same_self x = ground arith

zip_get-above :
    (lo hi : ℕ) (vs ks : List ℕ) (x : ℕ) → Ascends lo hi vs → x < lo → zip_get vs ks x ≡ none
zip_get-above lo hi [] ks x h lt = refl
zip_get-above lo hi (v ∷ vs) [] x h lt = refl
zip_get-above lo hi (v ∷ vs) (k ∷ ks) x h lt =
    let none_later = zip_get-above (suc v) hi vs ks x h.1 (omega (arith, h.0)) in
    let differ : (v == x) ≡ false = below_differs v x (omega (arith, h.0)) in
    rw (none_later, differ) refl

some_inj : {a b : ℕ} → ◌≡◌ {A = Option ℕ} (some a) (some b) → a ≡ b
some_inj {a} h = ap (λ (o : Option ℕ). elim o [ some x ↦ x | none ↦ a ]) h

-- With distinct values the inverse dictionary leads back.
zip_get-inverse :
    (lo hi : ℕ) (ks vs : List ℕ) (x c : ℕ)
    → Ascends lo hi vs
    → zip_get ks vs x ≡ some c
    → zip_get vs ks c ≡ some x
zip_get-inverse lo hi [] vs x c up h = ground arith
zip_get-inverse lo hi (k ∷ ks) [] x c up h = ground arith
zip_get-inverse lo hi (k ∷ ks) (v ∷ vs) x c up h = elim (Option-cases (zip_get ks vs x)) [
  | inl absent ↦
      let at = rw absent at h in
      elim (Bool-cases (k == x)) [
        | inl hit ↦
            let value = some_inj (rw hit at at) in
            let later = zip_get-above (suc v) hi vs ks v up.1 (omega arith) in
            let first : zip_get (v ∷ vs) (k ∷ ks) v ≡ some k = rw (later, same_self v) refl in
            subst (λ t. zip_get (v ∷ vs) (k ∷ ks) t ≡ some x) value
              (first ∙ ap some ((==_iff k x).0 hit))
        | inr miss ↦ let bad = rw miss at at in ground arith
      ]
  | inr (w, later) ↦
      let value = some_inj (rw later at h) in
      let back = zip_get-inverse (suc v) hi ks vs x w up.1 later in rw (← value, back) refl
]

nothing_is_some : {o : Option ℕ} → o ≡ none → (c : ℕ) × (o ≡ some c) → ⊥
nothing_is_some absent (c, there) = let bad = rw absent at there in ground arith

-- a key of the first list has a value
zip_get-total :
    (ks vs : List ℕ) (x : ℕ)
    → length ks ≡ length vs
    → elem x ks ≡ true
    → (c : ℕ) × (zip_get ks vs x ≡ some c)
zip_get-total [] vs x len h = ground arith
zip_get-total (k ∷ ks) [] x len h = absurd (omega arith)
zip_get-total (k ∷ ks) (v ∷ vs) x len h = elim (Option-cases (zip_get ks vs x)) [
  | inl absent ↦ elim (Bool-cases (x == k)) [
    | inl hit ↦ let same = (==_iff x k).0 hit in (v, rw (absent, same, same_self k) refl)
    | inr miss ↦
        let rest = zip_get-total ks vs x (omega arith) (rw miss at h) in
        absurd (nothing_is_some absent rest)
  ]
  | inr (w, later) ↦ (w, rw later refl)
]

Ascends-snoc : (lo hi : ℕ) (vs : List ℕ) → Ascends lo hi vs → Ascends lo (suc hi) (vs ++ (hi ∷ []))
Ascends-snoc lo hi [] h = (h, omega arith)
Ascends-snoc lo hi (v ∷ vs) h = (h.0, Ascends-snoc (suc v) hi vs h.1)

elem-append : (x : ℕ) (xs ys : List ℕ) → elem x xs ≡ true → elem x (xs ++ ys) ≡ true
elem-append x [] ys h = ground arith
elem-append x (y ∷ xs) ys h = elim (Bool-cases (x == y)) [
  | inl hit ↦ rw hit refl
  | inr miss ↦ rw miss (elem-append x xs ys (rw miss at h))
]

elem-last : (x : ℕ) (xs : List ℕ) → elem x (xs ++ (x ∷ [])) ≡ true
elem-last x [] = rw (same_self x) refl
elem-last x (y ∷ xs) = elim (Bool-cases (x == y)) [
  | inl hit ↦ rw hit refl
  | inr miss ↦ rw miss (elem-last x xs)
]

after : (b x : ℕ) → b ≤ x → (b == x) ≡ false → suc b ≤ x
after b x h e = ground arith

Ascends-lower : (lo a hi : ℕ) (vs : List ℕ) → lo ≤ a → Ascends a hi vs → Ascends lo hi vs
Ascends-lower lo a hi [] h up = omega arith
Ascends-lower lo a hi (v ∷ vs) h up = (omega (arith, up.0), up.1)

-- a run of numbers before a list that ascends
Ascends-range :
    (lo a n hi : ℕ) (rest : List ℕ)
    → lo ≤ a
    → Ascends (a + n) hi rest
    → Ascends lo hi (tabulate_from a n (λ i. i) ++ rest)
Ascends-range lo a zero hi rest h up = Ascends-lower lo (a + 0) hi rest (omega arith) up
Ascends-range lo a (suc n) hi rest h up =
    let shift : suc a + n ≡ a + suc n = omega arith in
    (
      h,
      Ascends-range (suc a) (suc a) n hi rest (omega arith)
          (subst (λ (t : ℕ). Ascends t hi rest) (sym shift) up),
    )

printable-Ascends : Ascends 0 256 printable
printable-Ascends =
    let end = Ascends-range 173 174 82 256 [] (omega arith) (omega arith) in
    let high = subst (Ascends 173 256) (append-nil (range 174 256)) end in
    let middle = Ascends-range 127 161 12 256 (range 174 256) (omega arith) high in
    Ascends-range 0 33 94 256 (range 161 173 ++ range 174 256) (omega arith) middle

-- The lists of the loop's end are equally long and the values ascend; all that was there and every
-- byte from `b` on, `left` of them, is there.
abbrev Good : ℕ → ℕ → List ℕ → List ℕ × List ℕ → Type 0
Good b left bs r =
    (length r.0 ≡ length r.1)
    × ((m : ℕ) × Ascends 0 (256 + m) r.1)
    × ((x : ℕ) → elem x bs ≡ true → elem x r.0 ≡ true)
    × ((x : ℕ) → b ≤ x → x < b + left → elem x r.0 ≡ true)

Good-known :
    (b left : ℕ) (bs : List ℕ) (r : List ℕ × List ℕ)
    → elem b bs ≡ true
    → Good (suc b) left bs r
    → Good b (suc left) bs r
Good-known b left bs r known (len, up, old, all) = (
  len,
  up,
  old,
  λ x lo hi. elim (Bool-cases (b == x)) [
    | inl here ↦ old x (rw ((==_iff b x).0 here) at known)
    | inr later ↦ all x (after b x lo later) (omega arith)
  ],
)

Good-new :
    (b left : ℕ) (bs : List ℕ) (r : List ℕ × List ℕ)
    → Good (suc b) left (bs ++ (b ∷ [])) r
    → Good b (suc left) bs r
Good-new b left bs r (len, up, old, all) = (
  len,
  up,
  (λ x h. old x (elem-append x bs (b ∷ []) h)),
  λ x lo hi. elim (Bool-cases (b == x)) [
    | inl here ↦ let e = (==_iff b x).0 here in old x (rw e (elem-last x bs))
    | inr later ↦ all x (after b x lo later) (omega arith)
  ],
)

shift_others-known :
    (b left : ℕ) (bs cs : List ℕ) (n : ℕ)
    → elem b bs ≡ true
    → shift_others b (suc left) bs cs n ≡ shift_others (suc b) left bs cs n
unfolding shift_others
shift_others-known b left bs cs n h = rw (shift_others, h) refl

shift_others-new :
    (b left : ℕ) (bs cs : List ℕ) (n : ℕ)
    → elem b bs ≡ false
    → shift_others b (suc left) bs cs n
      ≡ shift_others (suc b) left (bs ++ (b ∷ [])) (cs ++ ((256 + n) ∷ [])) (suc n)
unfolding shift_others
shift_others-new b left bs cs n h = rw (shift_others, h) refl

shift_others-Good :
    (b left : ℕ) (bs cs : List ℕ) (n : ℕ)
    → length bs ≡ length cs
    → Ascends 0 (256 + n) cs
    → Good b left bs (shift_others b left bs cs n)
unfolding shift_others
shift_others-Good b zero bs cs n len up =
    (len, (n, up), (λ x h. h), λ x lo hi. absurd (omega arith))
shift_others-Good b (suc left) bs cs n len up = elim (Bool-cases (elem b bs)) [
  | inl known ↦
      subst (Good b (suc left) bs) (sym (shift_others-known b left bs cs n known))
        (Good-known b left bs _ known (shift_others-Good (suc b) left bs cs n len up))
  | inr new ↦
      let longer : length (bs ++ (b ∷ [])) ≡ length (cs ++ ((256 + n) ∷ [])) =
        omega (arith, length-append bs (b ∷ []), length-append cs ((256 + n) ∷ [])) in
      let above : suc (256 + n) ≡ 256 + suc n = omega arith in
      let up' =
        subst (λ (t : ℕ). Ascends 0 t (cs ++ ((256 + n) ∷ []))) above
          (Ascends-snoc 0 (256 + n) cs up) in
      subst (Good b (suc left) bs) (sym (shift_others-new b left bs cs n new))
        (Good-new b left bs _ (shift_others-Good (suc b) left _ _ (suc n) longer up'))
]

-- The map of `bytes_to_unicode` has a character for each byte, and the inverse map of `decode` leads
-- from that character back to the byte.
pub b2u-u2b : (b : ℕ) → b < 256 → (c : ℕ) × (b2u b ≡ some c) × (u2b c ≡ some b)
unfolding b2u u2b
b2u-u2b b h =
    let good = shift_others-Good 0 256 printable printable 0 refl printable-Ascends in
    let found =
      zip_get-total byte_map.0 byte_map.1 b good.0 (good.3 b (omega arith) (omega arith)) in
    (
      found.0,
      found.1,
      zip_get-inverse 0 (256 + good.1.0) byte_map.0 byte_map.1 b found.0 good.1.1 found.1,
    )
