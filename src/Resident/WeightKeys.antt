-- ===== src/Resident/WeightKeys.antt =====
-- The keys of the weight caches of bpd/lib/dev_residency.py between `seed` and `capture`.
use llama_tov.Prelude.{
  ℕ, ◌≡◌, refl, ap, ◌∙◌, inl, inr, Bool, true, false, ◌||◌, some, List, [], ◌∷◌, arith, ◌==◌,
  ==_iff, Bool-cases, either_holds, ok,
}
use llama_tov.Resident.Graph.{has_key, warmed, no_growth, assert_weight_cache_frozen}

-- A weight cache after the weights were read once more.
has_key-cons : (k j : ℕ) (ks : List ℕ) → has_key k ks ≡ true → has_key k (j ∷ ks) ≡ true
has_key-cons k j ks h = or_right (k == j) (has_key k ks) h
  where
    or_right : (a b : Bool) → b ≡ true → (a || b) ≡ true
    or_right true b h = refl
    or_right false b h = h

has_key_first : (k j : ℕ) (ks : List ℕ) → (k == j) ≡ true → has_key k (j ∷ ks) ≡ true
has_key_first k j ks h = rw h refl

has_key-warmed :
    (k : ℕ) (ks cache : List ℕ) → has_key k cache ≡ true → has_key k (warmed ks cache) ≡ true
has_key-warmed k [] cache h = h
has_key-warmed k (j ∷ ks) cache h = has_key-warmed k ks _ (
    either_holds (λ c. has_key k c ≡ true) (has_key j cache) (λ on. h)
      (λ off. has_key-cons k j cache h))

warmed_has : (k : ℕ) (ks cache : List ℕ) → has_key k ks ≡ true → has_key k (warmed ks cache) ≡ true
warmed_has k [] cache h = absurd (no h)
  where
    no : false ≡ true → ⊥
    no h = ground arith
warmed_has k (j ∷ ks) cache h = elim (Bool-cases (k == j)) [
  | inl same ↦ has_key-warmed k ks _ (
      either_holds (λ c. has_key k c ≡ true) (has_key j cache)
        (λ on. ap (λ (i : ℕ). has_key i cache) ((==_iff k j).0 same) ∙ on)
        (λ off. has_key_first k j cache same))
  | inr other ↦ warmed_has k ks _ (rw other at h)
]

warmed_idle :
    (ks cache : List ℕ)
    → ((k : ℕ) → has_key k ks ≡ true → has_key k cache ≡ true)
    → warmed ks cache ≡ cache
warmed_idle [] cache h = refl
warmed_idle (k ∷ ks) cache h =
    rw (h k (has_key_first k k ks ((==_iff k k).1 refl)))
      (warmed_idle ks cache (λ i known. h i (has_key-cons i k ks known)))

no_growth_within :
    (snap now : List ℕ)
    → ((k : ℕ) → has_key k now ≡ true → has_key k snap ≡ true)
    → no_growth snap now ≡ true
no_growth_within snap [] h = refl
no_growth_within snap (k ∷ ks) h =
    rw (h k (has_key_first k k ks ((==_iff k k).1 refl)))
      (no_growth_within snap ks (λ i known. h i (has_key-cons i k ks known)))

-- After a pass that read them all, the weights are in the caches, and a snapshot sees no growth.
pub warmed-again : (keys cache : List ℕ) → warmed keys (warmed keys cache) ≡ warmed keys cache
warmed-again keys cache =
    warmed_idle keys (warmed keys cache) (λ k known. warmed_has k keys cache known)

pub frozen_same : (now : List ℕ) → assert_weight_cache_frozen (some now) now ≡ ok tt
unfolding assert_weight_cache_frozen
frozen_same now = rw (no_growth_within now now (λ k h. h)) refl
