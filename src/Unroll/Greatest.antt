-- ===== src/Unroll/Greatest.antt =====
-- `detect_unroll` finds the greatest unroll factor.
use llama_tov.Prelude.{
  ℕ, zero, suc, ◌+◌, ◌*◌, ◌/◌, ◌≤◌, ◌<◌, ◌≡◌, refl, sym, ap, ◌∙◌, ◌⊎◌, inl, inr, Bool, true, false,
  ◌&&◌, List, [], ◌∷◌, ◌++◌, map, append-nil, arith, ltb, ◌==◌, ltb→lt, lt→ltb, ==_iff, Bool-cases,
  length, take, drop,
}
use mathlib.Core.Path.{subst}
use llama_tov.Unroll.Copies.{copies, length-copies, repeats-copies, copies-repeats}
use llama_tov.Unroll.{Insn, Fingerprint, insn_fingerprint, repeats, search_down, detect_unroll}

search_hit :
    (fps : List Fingerprint) (f : ℕ)
    → (ltb 0 f && repeats fps (suc f)) ≡ true
    → search_down fps (suc f) ≡ suc f
search_hit fps f h = rw (search_down, h) refl

search_miss :
    (fps : List Fingerprint) (f : ℕ)
    → (ltb 0 f && repeats fps (suc f)) ≡ false
    → search_down fps (suc f) ≡ search_down fps f
search_miss fps f h = rw (search_down, h) refl

-- What the search from `top` down returns: a factor that repeats, or 1, and none above it repeats.
abbrev Found : List Fingerprint → ℕ → ℕ → Type 0
Found fps top r =
    ((r ≡ 1) ⊎ ((1 < r) × (r ≤ top) × (repeats fps r ≡ true)))
    × ((f : ℕ) → 1 < f → f ≤ top → repeats fps f ≡ true → f ≤ r)

both : {a b : Bool} → (a && b) ≡ true → (a ≡ true) × (b ≡ true)
both {a} {b} h = ground arith

above : (t : ℕ) → ltb 0 t ≡ true → 1 < suc t
above t h = omega (arith, ltb→lt 0 t h)

Found-next :
    (fps : List Fingerprint) (t r : ℕ)
    → (ltb 0 t && repeats fps (suc t)) ≡ false
    → Found fps t r
    → Found fps (suc t) r
Found-next fps t r miss (hit, none_above) = (
  higher hit,
  λ f lo hi h. elim (Bool-cases (f == suc t)) [
    | inl top ↦
        let e = (==_iff f (suc t)).0 top in
        let again : repeats fps (suc t) ≡ true = subst (λ (x : ℕ). repeats fps x ≡ true) e h in
        let positive : ltb 0 t ≡ true = lt→ltb 0 t (omega arith) in
        absurd (clash positive again miss)
    | inr lower ↦ none_above f lo (below f t hi lower) h
  ],
)
  where
    higher :
        ((r ≡ 1) ⊎ ((1 < r) × (r ≤ t) × (repeats fps r ≡ true)))
        → (r ≡ 1) ⊎ ((1 < r) × (r ≤ suc t) × (repeats fps r ≡ true))
    higher (inl one) = inl one
    higher (inr (lo, hi, h)) = inr (lo, omega arith, h)

    clash : {a b : Bool} → a ≡ true → b ≡ true → (a && b) ≡ false → ⊥
    clash {a} {b} ha hb h = ground arith

    below : (f t : ℕ) → f ≤ suc t → (f == suc t) ≡ false → f ≤ t
    below f t h e = ground arith

search_down-Found : (fps : List Fingerprint) (top : ℕ) → Found fps top (search_down fps top)
search_down-Found fps zero = (inl refl, λ f lo hi h. absurd (omega arith))
search_down-Found fps (suc t) = elim (Bool-cases (ltb 0 t && repeats fps (suc t))) [
  | inl hit ↦
      subst (Found fps (suc t)) (sym (search_hit fps t hit))
        (inr (above t (both hit).0, omega arith, (both hit).1), λ f lo hi h. hi)
  | inr miss ↦
      subst (Found fps (suc t)) (sym (search_miss fps t miss))
        (Found-next fps t (search_down fps t) miss (search_down-Found fps t))
]

-- the two outcomes of the test on the body's length
detect-short :
    (body : List Insn)
    → ltb (length (map insn_fingerprint body)) 2 ≡ true
    → detect_unroll body ≡ (1, body)
unfolding detect_unroll
detect-short body h = rw (detect_unroll, h) refl

detect-long :
    (body : List Insn)
    → ltb (length (map insn_fingerprint body)) 2 ≡ false
    → (let fps = map insn_fingerprint body in
        let factor = search_down fps (length fps) in
        detect_unroll body ≡ (factor, take (length fps / factor) body))
unfolding detect_unroll
detect-long body h = rw (detect_unroll, h) refl

one_repeats : (fps : List Fingerprint) → repeats fps 1 ≡ true
one_repeats fps =
    subst (λ l. repeats l 1 ≡ true) (append-nil fps) (copies-repeats fps 1 (omega arith))

repeat_found :
    (fps : List Fingerprint) {r top : ℕ}
    → ((r ≡ 1) ⊎ ((1 < r) × (r ≤ top) × (repeats fps r ≡ true)))
    → (0 < r) × (repeats fps r ≡ true)
repeat_found fps (inl one) =
    (omega arith, subst (λ (r : ℕ). repeats fps r ≡ true) (sym one) (one_repeats fps))
repeat_found fps (inr (lo, hi, h)) = (omega arith, h)

map-take :
    (n : ℕ) (xs : List Insn) → map insn_fingerprint (take n xs) ≡ take n (map insn_fingerprint xs)
map-take zero xs = refl
map-take (suc n) [] = refl
map-take (suc n) (x ∷ xs) = ap (λ l. insn_fingerprint x ∷ l) (map-take n xs)

prefix : (n : ℕ) (xs : List Insn) → xs ≡ take n xs ++ drop (length (take n xs)) xs
prefix zero xs = refl
prefix (suc n) [] = refl
prefix (suc n) (x ∷ xs) = ap (λ l. x ∷ l) (prefix n xs)

-- so many copies of a part that is not empty are a factor that the search has tried, or 1
tried :
    (fps c : List Fingerprint) (f r : ℕ)
    → 0 < r
    → 0 < length c
    → fps ≡ copies f c
    → ((f : ℕ) → 1 < f → f ≤ length fps → repeats fps f ≡ true → f ≤ r)
    → f ≤ r
tried fps c f r one filled same none_above = elim (Bool-cases (ltb 1 f)) [
  | inr few ↦ small few one
  | inl many ↦
      let lo = ltb→lt 1 f many in
      let len : length fps ≡ f * length c =
        ap (λ (l : List Fingerprint). length l) same ∙ length-copies f c in
      none_above f lo (factor len)
        (subst (λ l. repeats l f ≡ true) (sym same) (copies-repeats c f (omega arith)))
]
  where
    small : {f r : ℕ} → ltb 1 f ≡ false → 0 < r → f ≤ r
    small {f} {r} few one = ground arith

    factor : length fps ≡ f * length c → f ≤ length fps
    factor len = rw len (times f (length c) filled)
      where
        times : (f m : ℕ) → 0 < m → f ≤ f * m
        times f zero h = absurd (omega arith)
        times f (suc m) h = let e : f * suc m ≡ f + f * m = grind arith in omega (arith, e)

-- `detect_unroll` returns a factor and a rolled body, with which the loop's body begins: the fingerprints
-- of the body are that many copies of those of the rolled body, and if they are `f` copies of any list
-- that is not empty, `f` is at most the factor.
pub detect_unroll-greatest :
    (body : List Insn)
    → (let r = detect_unroll body in
        let fps = map insn_fingerprint body in
        (fps ≡ copies r.0 (map insn_fingerprint r.1))
        × (body ≡ r.1 ++ drop (length r.1) body)
        × ((f : ℕ) (c : List Fingerprint) → 0 < length c → fps ≡ copies f c → f ≤ r.0))
detect_unroll-greatest body =
    let fps = map insn_fingerprint body in
    let n = length fps in
    elim (Bool-cases (ltb n 2)) [
      | inl short ↦
          let few = ltb→lt n 2 short in
          rw (detect-short body short) (
            sym (append-nil fps),
            whole body,
            λ f c filled same.
                tried fps c f 1 (omega arith) filled same
                  (λ g lo hi h. absurd (omega (arith, few))),
          )
      | inr long ↦
          let (hit, none_above) = search_down-Found fps n in
          let (one, again) = repeat_found fps hit in
          let factor = search_down fps n in
          rw (detect-long body long) (
            repeats-copies fps factor one again
                ∙ ap (copies factor) (sym (map-take (n / factor) body)),
            prefix (n / factor) body,
            λ f c filled same. tried fps c f factor one filled same none_above,
          )
    ]
  where
    whole : (xs : List Insn) → xs ≡ xs ++ drop (length xs) xs
    whole [] = refl
    whole (x ∷ xs) = ap (λ l. x ∷ l) (whole xs)
