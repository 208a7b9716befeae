-- ===== src/Resident/Consts.antt =====
-- `_dev_const` of bpd/lib/dev_residency.py: the arrays that the device holds, by a sample of their contents.
use llama_tov.Prelude.{
  ℕ, ◌-◌, ◌/◌, ◌<◌, ◌≡◌, refl, sym, ap, ◌∙◌, ◌⊎◌, inl, inr, Bool, true, false, not, ◌&&◌, Option,
  none, some, List, [], ◌∷◌, arith, ◌==◌, if◌then◌else◌, Bool-cases, Option-cases, length, get_or,
  Result, ◌>>=◌, index_error, ok, err,
}
use llama_tov.Resident.Kernels.{Kernels}
use llama_tov.Resident.Quantize.{Floats}

module _ (K : Kernels) where
  open K use {Num, zero_num, gt}

  -- the equality of two floats that are no NaN
  abbrev pub same_num : Num → Num → Bool
  same_num a b = not (gt a b) && not (gt b a)

  -- the key: length, first, middle and last element
  abbrev pub Key : Type 0
  Key = ℕ × Num × Num × Num

  unfoldable pub key_of : Floats K → Key
  key_of a = (
    length a,
    get_or a 0 zero_num,
    get_or a (length a / 2) zero_num,
    get_or a (length a - 1) zero_num,
  )

  abbrev pub same_key : Key → Key → Bool
  same_key (n, a, b, c) (n', a', b', c') =
      n == n' && (same_num a a' && (same_num b b' && same_num c c'))

  -- `_DEV_CONST.get(key)`
  abbrev pub find_const : List (Floats K) → Floats K → Option (Floats K)
  find_const [] a = none
  find_const (u ∷ us) a = if same_key (key_of u) (key_of a) then some u else find_const us a

  -- `_dev_const`: what the pointer that it returns points to, and the arrays on the device
  unfoldable pub dev_const : List (Floats K) → Floats K → Result (Floats K × List (Floats K))
  dev_const held a =
      if length a == 0
      then err index_error
      else elim (find_const held a) [ some u ↦ ok (u, held) | none ↦ ok (a, a ∷ held) ]

  -- the arrays behind the pointers of a sequence of calls
  abbrev pub const_calls : List (Floats K) → List (Floats K) → Result (List (Floats K))
  const_calls held [] = ok []
  const_calls held (a ∷ arrays) = do
    out ← dev_const held a
    rest ← const_calls out.1 arrays
    ok (out.0 ∷ rest)

  abbrev pub In : Floats K → List (Floats K) → Type 0
  In a [] = ⊥
  In a (x ∷ xs) = (x ≡ a) ⊎ In a xs

  abbrev value_or : Option (Floats K) → Floats K → Floats K
  value_or (some a) d = a
  value_or none d = d

  find_const-In :
      (held : List (Floats K)) (a u : Floats K)
      → find_const held a ≡ some u
      → In u held × (same_key (key_of u) (key_of a) ≡ true)
  find_const-In [] a u h = absurd (no h)
    where
      no : ◌≡◌ {A = Option (Floats K)} none (some u) → ⊥
      no h = ground arith
  find_const-In (x ∷ xs) a u h = elim (Bool-cases (same_key (key_of x) (key_of a))) [
    | inl same ↦
        let e : x ≡ u = ap (λ o. value_or o x) (rw same at h) in
        (inl e, ap (λ v. same_key (key_of v) (key_of a)) (sym e) ∙ same)
    | inr other ↦ let (there, alike) = find_const-In xs a u (rw other at h) in (inr there, alike)
  ]

  calls_from :
      (all held arrays : List (Floats K))
      → ((u : Floats K) → In u held → In u all)
      → ((a : Floats K) → In a arrays → In a all × (0 < length a))
      → ((u a : Floats K) → In u all → In a all → same_key (key_of u) (key_of a) ≡ true → u ≡ a)
      → const_calls held arrays ≡ ok arrays
  unfolding dev_const
  calls_from all held [] known mine separate = refl
  calls_from all held (a ∷ arrays) known mine separate =
      let (here, some_floats) = mine a (inl refl) in
      let filled : (length a == 0) ≡ false = ground (arith, some_floats) in
      let others = λ (b : Floats K) (i : In b arrays). mine b (inr i) in
      elim (Option-cases (find_const held a)) [
        | inl new ↦
            rw
              (
                filled,
                new,
                calls_from all (a ∷ held) arrays
                    (λ u i. elim i [ inl e ↦ rw e at here | inr old ↦ known u old ]) others
                    separate,
              )
              refl
        | inr (u, found) ↦
            let (there, alike) = find_const-In held a u found in
            rw (filled, found, calls_from all held arrays known others separate)
              (ap (λ v. ok (v ∷ arrays)) (separate u a (known u there) here alike))
      ]

  -- When no array of a sequence is empty, and no two different ones have the same length and equal
  -- floats at the first place, at half the length and at the last place, every call of the sequence gives
  -- a pointer to the array that it was called with.
  pub const_calls-own :
      (arrays : List (Floats K))
      → ((a : Floats K) → In a arrays → 0 < length a)
      → ((u a : Floats K)
          → In u arrays
          → In a arrays
          → length u ≡ length a
          → same_num (get_or u 0 zero_num) (get_or a 0 zero_num) ≡ true
          → same_num (get_or u (length u / 2) zero_num) (get_or a (length a / 2) zero_num) ≡ true
          → same_num (get_or u (length u - 1) zero_num) (get_or a (length a - 1) zero_num) ≡ true
          → u ≡ a)
      → const_calls [] arrays ≡ ok arrays
  unfolding key_of
  const_calls-own arrays filled separate =
      calls_from arrays [] arrays (λ u i. absurd i) (λ a i. (i, filled a i))
        λ u a i i' same.
          let (ends, first, middle, last) =
            sampled (length u) (length a) (same_num (get_or u 0 zero_num) (get_or a 0 zero_num))
              (same_num (get_or u (length u / 2) zero_num) (get_or a (length a / 2) zero_num))
              (same_num (get_or u (length u - 1) zero_num) (get_or a (length a - 1) zero_num))
              same in
          separate u a i i' ends first middle last
    where
      sampled :
          (n m : ℕ) (x y z : Bool)
          → (n == m && (x && (y && z))) ≡ true
          → (n ≡ m) × (x ≡ true) × (y ≡ true) × (z ≡ true)
      sampled n m x y z h = ground arith
