-- ===== src/Unroll/TryPeriod.antt =====
-- One round of the inner loop of `detect_unroll_segment`.
use llama_tov.Prelude.{
  ℕ, zero, suc, ◌+◌, ◌-◌, ◌*◌, ◌/◌, ◌≤◌, ◌<◌, ◌≡◌, refl, subst, ◌↔◌, ◌⊎◌, inl, inr, false, List,
  arith, ltb, leb, ltb→lt, leb→le, Bool-cases, length, take, drop,
}
use native.Mathlib.Nat.{div-zero, le-div_iff_mul-le, mul-le-mul_right}
use llama_tov.Unroll.{Insn, Fingerprint, same_fp}
use llama_tov.Unroll.Segment.{Best, is_copy, count_copies, segment_at, try_period}
use llama_tov.Unroll.SegmentLoops.{Copies, Counted, count_copies_lem}
use llama_tov.Unroll.Reflexive.{same_list_refl, same_fp_refl}

module _ (body : List Insn) (fps : List Fingerprint) where
  -- the first copy is the first period
  first-Copies : (start period : ℕ) → Copies fps start period 1
  unfolding is_copy
  first-Copies start period k lo hi =
      let e : k ≡ 1 = omega arith in
      let at : start + (1 - 1) * period ≡ start = omega arith in
      rw (e, at) (same_list_refl same_fp same_fp_refl (take period (drop start fps)))

  -- `m` periods at `start` score no more than `score`
  abbrev pub Beaten : ℕ → ℕ → ℕ → Type 0
  Beaten start period score =
      (m : ℕ)
      → 2 ≤ m
      → m * period ≤ length fps - start
      → Copies fps start period m
      → m * period * 100 + m ≤ score

  -- the segment of `factor` copies of a period, in the body
  abbrev pub Chosen : Best → Type 0
  Chosen b =
      (start : ℕ) × (period : ℕ) × (factor : ℕ) × (1 ≤ period)
      × (2 ≤ factor)
      × (factor * period ≤ length fps - start)
      × Copies fps start period factor
      × (b ≡ segment_at body fps start period factor)

  counted :
      (start period top : ℕ)
      → 2 ≤ top
      → Counted fps start period top (count_copies fps start period 1 top 1)
  counted start period zero h = absurd (omega arith)
  counted start period (suc t) h =
      let first = first-Copies start period in
      let e : 1 + t ≡ suc t = omega arith in
      rw (count_copies, first 1 (omega arith) (omega arith))
        (subst (λ (top : ℕ). Counted fps start period top (count_copies fps start period 2 t 1)) e
          (count_copies_lem fps start period 1 t first))

  -- what one round does with the best so far
  abbrev pub Tried : ℕ → ℕ → Best → Best → Type 0
  Tried start period b b' =
      (b.score ≤ b'.score) × Beaten start period b'.score × (Chosen b' ⊎ (b' ≡ b))

  room :
      (start period m : ℕ)
      → 1 ≤ period
      → (m ≤ (length fps - start) / period) ↔ (m * period ≤ length fps - start)
  room start period m h = le-div_iff_mul-le h

  -- a count that is not above `f` scores not above it
  score_mono : (m f period s : ℕ) → m ≤ f → f * period * 100 + f ≤ s → m * period * 100 + m ≤ s
  score_mono m f period s h le =
      let k : m * period ≤ f * period = mul-le-mul_right period h in omega arith

  pub try_period-Tried :
      (start period : ℕ) (b : Best)
      → 1 ≤ period
      → Tried start period b (try_period body fps start period b)
  unfolding try_period
  try_period-Tried start period b pos =
      let top = (length fps - start) / period in
      let f = count_copies fps start period 1 top 1 in
      elim (Bool-cases (ltb top 2)) [
        | inl few ↦
            rw (try_period, few)
              (
                omega arith,
                λ m lo fits c. absurd (none_fits m lo fits (ltb→lt top 2 few)),
                inr refl,
              )
        | inr enough ↦
            let (copies, under, most) = counted start period top (not_less enough) in
            elim (Bool-cases (leb 2 f)) [
              | inl some_copies ↦ elim (Bool-cases (ltb b.score (f * period * 100 + f))) [
                | inl better ↦
                    rw (try_period, enough, some_copies, better)
                      (
                        omega (arith, ltb→lt b.score (f * period * 100 + f) better),
                        λ m lo fits c.
                            score_mono m f period (f * period * 100 + f)
                              (most m ((room start period m pos).1 fits) c) (omega arith),
                        inl (
                          start,
                          period,
                          f,
                          pos,
                          leb→le 2 f some_copies,
                          (room start period f pos).0 under,
                          copies,
                          refl,
                        ),
                      )
                | inr worse ↦
                    rw (try_period, enough, some_copies, worse)
                      (
                        omega arith,
                        λ m lo fits c.
                            score_mono m f period b.score
                              (most m ((room start period m pos).1 fits) c) (not_less worse),
                        inr refl,
                      )
              ]
              | inr one ↦
                  rw (try_period, enough, one)
                    (
                      omega arith,
                      λ m lo fits c.
                          absurd (too_many m lo (most m ((room start period m pos).1 fits) c) one),
                      inr refl,
                    )
            ]
      ]
    where
      none_fits :
          (m : ℕ) → 2 ≤ m → m * period ≤ length fps - start → (length fps - start) / period < 2 → ⊥
      none_fits m lo fits few = omega (arith, (room start period m pos).1 fits)

      not_less : {a b : ℕ} → ltb a b ≡ false → b ≤ a
      not_less {a} {b} e = ground arith

      too_many : {f : ℕ} (m : ℕ) → 2 ≤ m → m ≤ f → leb 2 f ≡ false → ⊥
      too_many {f} m lo le e = ground arith

  -- no round lowers the score
  pub try_period_raises :
      (start : ℕ) (period : ℕ) (b : Best) → b.score ≤ (try_period body fps start period b).score
  unfolding try_period
  try_period_raises start zero b = rw (try_period, div-zero (length fps - start)) (omega arith)
  try_period_raises start (suc p) b = (try_period-Tried start (suc p) b (omega arith)).0
