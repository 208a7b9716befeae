-- ===== src/Unroll/SegmentLoops.antt =====
-- The loops of `detect_unroll_segment`: what their rounds do and their results have.
use llama_tov.Prelude.{
  ℕ, zero, suc, ◌+◌, ◌≤◌, ◌<◌, ◌≡◌, sym, subst, inl, inr, Bool, true, false, List, arith, leb, ◌==◌,
  leb→le, ==_iff, Bool-cases,
}
use llama_tov.Unroll.{Fingerprint}
use llama_tov.Unroll.Segment.{Best, is_copy, count_copies, for_range}

-- A loop that never lowers the score keeps what each of its rounds has done.
module _ (step : ℕ → Best → Best) (raises : (i : ℕ) (s : Best) → s.score ≤ (step i s).score) where
  pub for_range_raises : (i left : ℕ) (s : Best) → s.score ≤ (for_range step i left s).score
  for_range_raises i zero s = omega arith
  for_range_raises i (suc left) s =
      omega (arith, raises i s, for_range_raises (suc i) left (step i s))

  pub for_range_each :
      (Done : ℕ → ℕ → Type 0)
      → ((k s t : ℕ) → s ≤ t → Done k s → Done k t)
      → (i left : ℕ) (s : Best)
      → ((k : ℕ) (t : Best) → i ≤ k → k < i + left → Done k (step k t).score)
      → (k : ℕ) → i ≤ k
      → k < i + left
      → Done k (for_range step i left s).score
  for_range_each Done keep i zero s once k lo hi = absurd (omega arith)
  for_range_each Done keep i (suc left) s once k lo hi = elim (Bool-cases (k == i)) [
    | inl same ↦
        subst (λ (j : ℕ). Done j (for_range step i (suc left) s).score) (sym ((==_iff k i).0 same))
          (keep i (step i s).score (for_range step i (suc left) s).score
            (for_range_raises (suc i) left (step i s)) (once i s (omega arith) (omega arith)))
    | inr other ↦
        for_range_each Done keep (suc i) left (step i s)
          (λ j t l h. once j t (omega arith) (omega arith)) k (past lo other) (omega arith)
  ]
    where
      past : {a b : ℕ} → a ≤ b → (b == a) ≡ false → suc a ≤ b
      past {a} {b} h e = ground arith

pub for_range-keeps {ℓ} :
    {A : Type ℓ} (step : ℕ → A → A) (Inv : A → Type 0)
    → (i left : ℕ) (s : A) → ((k : ℕ) (t : A) → i ≤ k → k < i + left → Inv t → Inv (step k t))
    → Inv s
    → Inv (for_range step i left s)
for_range-keeps step Inv i zero s keep h = h
for_range-keeps step Inv i (suc left) s keep h =
    for_range-keeps step Inv (suc i) left (step i s)
      (λ k t lo hi. keep k t (omega arith) (omega arith)) (keep i s (omega arith) (omega arith) h)

module _ (fps : List Fingerprint) (start period : ℕ) where
  -- `m` copies of the first `period` fingerprints at `start`
  abbrev pub Copies : ℕ → Type 0
  Copies m = (k : ℕ) → 1 ≤ k → k ≤ m → is_copy fps start period k ≡ true

  -- the count, and every count that the loop could reach
  abbrev pub Counted : ℕ → ℕ → Type 0
  Counted top f = Copies f × (f ≤ top) × ((m : ℕ) → m ≤ top → Copies m → m ≤ f)

  pub count_copies_lem :
      (f left : ℕ) → Copies f → Counted (f + left) (count_copies fps start period (suc f) left f)
  count_copies_lem f zero h = (h, omega arith, λ m lt c. omega arith)
  count_copies_lem f (suc left) h = elim (Bool-cases (is_copy fps start period (suc f))) [
    | inl same ↦
        let (copies, top, most) = count_copies_lem (suc f) left (one_more same) in
        rw (count_copies, same) (copies, omega arith, λ m lt c. most m (omega arith) c)
    | inr differs ↦ rw (count_copies, differs) (h, omega arith, λ m lt c. stops differs m c)
  ]
    where
      one_more : is_copy fps start period (suc f) ≡ true → Copies (suc f)
      one_more same k lo hi = elim (Bool-cases (k == suc f)) [
        | inl e ↦
            subst (λ (j : ℕ). is_copy fps start period j ≡ true) (sym ((==_iff k (suc f)).0 e)) same
        | inr e ↦ h k lo (below e hi)
      ]
        where
          below : {a b : ℕ} → (a == suc b) ≡ false → a ≤ suc b → a ≤ b
          below {a} {b} e h = ground arith

      stops : is_copy fps start period (suc f) ≡ false → (m : ℕ) → Copies m → m ≤ f
      stops differs m c = elim (Bool-cases (leb (suc f) m)) [
        | inl more ↦ absurd (clash (c (suc f) (omega arith) (leb→le (suc f) m more)) differs)
        | inr e ↦ under e
      ]
        where
          clash : {b : Bool} → b ≡ true → b ≡ false → ⊥
          clash {b} x y = ground arith

          under : {a b : ℕ} → leb (suc a) b ≡ false → b ≤ a
          under {a} {b} e = ground arith
