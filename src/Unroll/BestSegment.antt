-- ===== src/Unroll/BestSegment.antt =====
-- The segment that `detect_unroll_segment` returns, and those that it has passed over.
use llama_tov.Prelude.{
  ℕ, zero, suc, ◌+◌, ◌-◌, ◌*◌, ◌/◌, ◌≤◌, ◌<◌, ◌≡◌, refl, sym, ap, ◌∙◌, subst, ◌⊎◌, inl, inr, true,
  false, Option, none, some, List, [], ◌∷◌, ◌++◌, map, arith, ltb, Bool-cases, length, take, drop,
  take-append-drop, length-map,
}
use native.Mathlib.Nat.{le-div_iff_mul-le, mul-le-mul_right}
use llama_tov.Unroll.{Insn, Fingerprint, insn_fingerprint}
use llama_tov.Unroll.Segment.{
  Segment, Best, for_range, segment_at, try_period, try_start, whole_body, detect_unroll_segment,
}
use llama_tov.Unroll.SegmentLoops.{for_range_raises, for_range_each, for_range-keeps}
use llama_tov.Unroll.TryPeriod.{Beaten, Chosen, Tried, try_period-Tried, try_period_raises}

module _ (body : List Insn) (fps : List Fingerprint) where
  Beaten-mono :
      (start period s t : ℕ)
      → s ≤ t
      → Beaten body fps start period s
      → Beaten body fps start period t
  Beaten-mono start period s t le h m lo fits c = omega (arith, h m lo fits c)

  try_start_raises : (start : ℕ) (b : Best) → b.score ≤ (try_start body fps start b).score
  try_start_raises start b =
      for_range_raises (try_period body fps start) (try_period_raises body fps start) 1
        ((length fps - start) / 2) b

  -- after the round of a start, no segment there scores more
  try_start-Beaten :
      (start period : ℕ) (b : Best)
      → 1 ≤ period
      → Beaten body fps start period (try_start body fps start b).score
  try_start-Beaten start period b pos m lo fits c =
      let twice : 2 * period ≤ m * period = mul-le-mul_right period lo in
      let half = (length fps - start) / 2 in
      let two_pos : 0 < 2 = omega arith in
      let in_range : period ≤ half = (le-div_iff_mul-le two_pos).1 (omega arith) in
      for_range_each (try_period body fps start) (try_period_raises body fps start)
        (Beaten body fps start) (Beaten-mono start) 1 half b
        (λ k t l h. (try_period-Tried body fps start k t l).1) period pos (omega arith) m lo fits c

  -- a segment was chosen, or nothing was found
  abbrev pub Held : Best → Best → Type 0
  Held first b = Chosen body fps b ⊎ (b ≡ first)

  try_start-Held :
      (first : Best) (start : ℕ) (b : Best) → Held first b → Held first (try_start body fps start b)
  try_start-Held first start b h =
      for_range-keeps (try_period body fps start) (Held first) 1 ((length fps - start) / 2) b
        (λ k t l u held. after k t (try_period-Tried body fps start k t l) held) h
    where
      after :
          (k : ℕ) (t : Best)
          → Tried body fps start k t (try_period body fps start k t)
          → Held first t
          → Held first (try_period body fps start k t)
      after k t (raise, beaten, inl chosen) held = inl chosen
      after k t (raise, beaten, inr same) held = subst (Held first) (sym same) held

  search-Held : (first : Best) → Held first (for_range (try_start body fps) 0 (length fps) first)
  search-Held first =
      for_range-keeps (try_start body fps) (Held first) 0 (length fps) first
        (λ k t l u held. try_start-Held first k t held) (inr refl)

  search-Beaten :
      (first : Best) (start period : ℕ)
      → 1 ≤ period
      → start < length fps
      → Beaten body fps start period (for_range (try_start body fps) 0 (length fps) first).score
  search-Beaten first start period pos lt =
      for_range_each (try_start body fps) try_start_raises (λ k s. Beaten body fps k period s)
        (λ k s t le h. Beaten-mono k period s t le h) 0 (length fps) first
        (λ k t l u. try_start-Beaten k period t pos) start (omega arith) (omega arith)

-- what is returned for a body: a segment and its score
abbrev pub IsBest : List Insn → Segment × Option ℕ → Type 0
IsBest body r =
    let fps = map insn_fingerprint body in
    (score : ℕ) × (r.1 ≡ some score)
    × (Chosen body fps (record { segment = r.0; score = score })
        ⊎ ((r.0 ≡ whole_body body (length body)) × (score ≡ 0)))
    × ((start period : ℕ) → 1 ≤ period → start < length body → Beaten body fps start period score)

-- the best that the search finds
abbrev searched : List Insn → Best
searched body =
    let fps = map insn_fingerprint body in
    for_range (try_start body fps) 0 (length fps)
      (record { segment = whole_body body (length fps); score = 0 })

detect-searched :
    (body : List Insn)
    → ltb (length (map insn_fingerprint body)) 4 ≡ false
    → detect_unroll_segment body ≡ ((searched body).segment, some (searched body).score)
unfolding detect_unroll_segment
detect-searched body h = rw (detect_unroll_segment, h) refl

detect-whole :
    (body : List Insn)
    → ltb (length (map insn_fingerprint body)) 4 ≡ true
    → detect_unroll_segment body ≡ (whole_body body (length (map insn_fingerprint body)), none)
unfolding detect_unroll_segment
detect-whole body h = rw (detect_unroll_segment, h) refl

searched-IsBest :
    (body : List Insn) → IsBest body ((searched body).segment, some (searched body).score)
searched-IsBest body =
    let fps = map insn_fingerprint body in
    let first : Best = record { segment = whole_body body (length fps); score = 0 } in
    let len = length-map body insn_fingerprint in
    (
      (searched body).score,
      refl,
      held (search-Held body fps first),
      λ start period pos lt. search-Beaten body fps first start period pos (omega (arith, len)),
    )
  where
    held :
        (let fps = map insn_fingerprint body in
          Held body fps
            (record { segment = whole_body body (length fps); score = 0 })
            (searched body))
        → Chosen body (map insn_fingerprint body) (searched body)
          ⊎ (((searched body).segment ≡ whole_body body (length body))
              × ((searched body).score ≡ 0))
    held (inl chosen) = inl chosen
    held (inr same) = inr (
      ap (λ b. b.segment) same ∙ ap (whole_body body) (length-map body insn_fingerprint),
      ap (λ b. b.score) same,
    )

-- For a body of at least four instructions, `detect_unroll_segment` returns copies of a period, at
-- least two, next to each other and with the same fingerprints, with what is before and behind them,
-- or the whole body with factor 1 and score 0; and no two or more copies of any period at any place
-- score more, where `m` copies of `p` instructions score 100 m p + m.
pub detect_unroll_segment-IsBest :
    (body : List Insn) → 4 ≤ length body → IsBest body (detect_unroll_segment body)
detect_unroll_segment-IsBest body h =
    let long = not_below (omega (arith, length-map body insn_fingerprint)) in
    subst (IsBest body) (sym (detect-searched body long)) (searched-IsBest body)
  where
    not_below : {a b : ℕ} → b ≤ a → ltb a b ≡ false
    not_below {a} {b} h = ground arith

drop-drop {ℓ} : {A : Type ℓ} (a b : ℕ) (xs : List A) → drop b (drop a xs) ≡ drop (a + b) xs
drop-drop zero b xs = let e : 0 + b ≡ b = omega arith in rw e refl
drop-drop (suc a) zero [] = let e : suc a + 0 ≡ suc a = omega arith in rw e refl
drop-drop (suc a) (suc b) [] = let e : suc a + suc b ≡ suc (a + suc b) = omega arith in rw e refl
drop-drop (suc a) b (x ∷ xs) =
    let e : suc a + b ≡ suc (a + b) = omega arith in rw e (drop-drop a b xs)

-- the segment's instructions, with those before and behind it, are the body
abbrev pub Partition : List Insn → Segment → Type 0
Partition body s =
    s.preamble ++ (take (s.segment_end - s.segment_start) (drop s.segment_start body) ++ s.epilogue)
    ≡ body

segment_at-Partition :
    (body : List Insn) (fps : List Fingerprint) (start period factor : ℕ)
    → Partition body (segment_at body fps start period factor).segment
segment_at-Partition body fps start period factor =
    let n = factor * period in
    let e : start + n - start ≡ n = omega arith in
    rw (e, sym (drop-drop start n body), take-append-drop n (drop start body))
      (take-append-drop start body)

take_all {ℓ} : {A : Type ℓ} (xs : List A) → take (length xs) xs ++ [] ≡ xs
take_all [] = refl
take_all (x ∷ xs) = ap (λ l. x ∷ l) (take_all xs)

whole_body-Partition :
    (body : List Insn) (n : ℕ) → length body ≡ n → Partition body (whole_body body n)
whole_body-Partition body n e = let z : n - 0 ≡ length body = omega arith in rw z (take_all body)

-- For every body: what `detect_unroll_segment` calls the preamble, the segment from its start to its
-- end, and the epilogue are the body, in this order.
pub detect_unroll_segment-Partition :
    (body : List Insn) → Partition body (detect_unroll_segment body).0
detect_unroll_segment-Partition body =
    let fps = map insn_fingerprint body in
    elim (Bool-cases (ltb (length fps) 4)) [
      | inl short ↦
          subst (λ r. Partition body r.0) (sym (detect-whole body short))
            (whole_body-Partition body (length fps) (sym (length-map body insn_fingerprint)))
      | inr long ↦
          subst (λ r. Partition body r.0) (sym (detect-searched body long))
            (best (searched body).segment (searched-IsBest body).0 (searched-IsBest body).2)
    ]
  where
    best :
        (segment : Segment) (score : ℕ)
        → Chosen body (map insn_fingerprint body) (record { segment = segment; score = score })
          ⊎ ((segment ≡ whole_body body (length body)) × (score ≡ 0))
        → Partition body segment
    best segment score (inl (start, period, factor, p, f, fits, copies, same)) =
        subst (λ (b : Best). Partition body b.segment) (sym same)
          (segment_at-Partition body (map insn_fingerprint body) start period factor)
    best segment score (inr (same, zero_score)) =
        subst (Partition body) (sym same) (whole_body-Partition body (length body) refl)
