-- ===== src/Unroll/Copies.antt =====
-- `repeats` holds of a list of fingerprints exactly when it is so many copies of one list.
use llama_tov.Prelude.{
  ℕ, zero, suc, ◌+◌, ◌-◌, ◌*◌, ◌/◌, ◌≤◌, ◌<◌, ◌≡◌, refl, sym, ap, ap₂, ◌∙◌, Bool, true, ◌&&◌, List,
  [], ◌∷◌, ◌++◌, arith, ==_iff, length, length-append, take, drop, take-append-drop, length-drop,
  take-append, drop-append,
}
use native.Mathlib.Nat.{mul-div_cancel_left, mul-mod_right, div-add-mod'}
use llama_tov.Unroll.{Fingerprint, same_fp, copy_at, copies_from, repeats}
use llama_tov.Unroll.Reflexive.{same_list_refl, same_fp_refl}
use llama_tov.Unroll.Sound.{same_fps_sound}

-- `n` copies of a list, one after the other
abbrev pub copies {ℓ} : {A : Type ℓ} → ℕ → List A → List A
copies zero xs = []
copies (suc n) xs = xs ++ copies n xs

module _ {ℓ} {A : Type ℓ} where
  pub length-copies : (n : ℕ) (xs : List A) → length (copies n xs) ≡ n * length xs
  length-copies zero xs = omega arith
  length-copies (suc n) xs =
      let step : suc n * length xs ≡ length xs + n * length xs = omega arith in
      length-append xs (copies n xs) ∙ ap (λ (m : ℕ). length xs + m) (length-copies n xs) ∙ sym step

  drop-drop : (m n : ℕ) (xs : List A) → drop (m + n) xs ≡ drop n (drop m xs)
  drop-drop zero n xs = let z : 0 + n ≡ n = omega arith in rw z refl
  drop-drop (suc m) n [] = let z : suc m + n ≡ suc (m + n) = omega arith in rw z (sym (nothing n))
    where
      nothing : (n : ℕ) → ◌≡◌ {A = List A} (drop n []) []
      nothing zero = refl
      nothing (suc n) = refl
  drop-drop (suc m) n (x ∷ xs) =
      let z : suc m + n ≡ suc (m + n) = omega arith in rw z (drop-drop m n xs)

  drop-copies : (m k : ℕ) (xs : List A) → drop (k * length xs) (copies (k + m) xs) ≡ copies m xs
  drop-copies m zero xs =
      let e : 0 * length xs ≡ 0 = omega arith in let z : 0 + m ≡ m = omega arith in rw (e, z) refl
  drop-copies m (suc k) xs =
      let e : suc k * length xs ≡ length xs + k * length xs = omega arith in
      let z : suc k + m ≡ suc (k + m) = omega arith in
      rw (e, z)
        (drop-drop (length xs) (k * length xs) (xs ++ copies (k + m) xs)
          ∙ ap (drop (k * length xs)) (drop-append xs (copies (k + m) xs))
          ∙ drop-copies m k xs)

copies_from-copies :
    (fps : List Fingerprint) (p k left : ℕ)
    → length fps ≡ (k + left) * p
    → copies_from fps p k left ≡ true
    → drop (k * p) fps ≡ copies left (take p fps)
copies_from-copies fps p k zero len h =
    empty (drop (k * p) fps) (length-drop (k * p) fps ∙ omega (arith, len ∙ whole))
  where
    whole : (k + 0) * p ≡ k * p
    whole = let z : k + 0 ≡ k = omega arith in rw z refl

    empty : (xs : List Fingerprint) → length xs ≡ 0 → xs ≡ []
    empty [] e = refl
    empty (x ∷ xs) e = absurd (omega (arith, e))
copies_from-copies fps p k (suc left) len h =
    let z : 0 * p ≡ 0 = omega arith in
    let n : k + suc left ≡ suc k + left = omega arith in
    let next : suc k * p ≡ k * p + p = omega arith in
    let (here, later) = both h in
    let first : take p (drop (k * p) fps) ≡ take p fps =
      rw z at (same_fps_sound (copy_at fps p k) (copy_at fps p 0) here) in
    let rest = copies_from-copies fps p (suc k) left (rw n at len) later in
    sym (take-append-drop p (drop (k * p) fps))
    ∙ ap₂ ◌++◌ first (sym (drop-drop (k * p) p fps) ∙ (rw next at rest))
  where
    both : {a b : Bool} → (a && b) ≡ true → (a ≡ true) × (b ≡ true)
    both {a} {b} h = ground arith

-- a body that repeats is that many copies of its first part
pub repeats-copies :
    (fps : List Fingerprint) (f : ℕ)
    → 0 < f
    → repeats fps f ≡ true
    → fps ≡ copies f (take (length fps / f) fps)
unfolding repeats
repeats-copies fps zero pos_f h = absurd (omega arith)
repeats-copies fps (suc f) pos_f h =
    let p = length fps / suc f in
    let parts = div-add-mod' (length fps) (suc f) in
    let one : 1 * p ≡ p = omega arith in
    let n : 1 + (suc f - 1) ≡ suc f = omega arith in
    let f' : suc f - 1 ≡ f = omega arith in
    let (whole, same) = both h in
    let len : length fps ≡ (1 + (suc f - 1)) * p =
      rw n (sym parts ∙ ap (λ (m : ℕ). p * suc f + m) ((==_iff _ 0).0 whole) ∙ omega arith) in
    let rest = rw one at (copies_from-copies fps p 1 (suc f - 1) len same) in
    sym (take-append-drop p fps) ∙ ap (λ l. take p fps ++ l) (rw f' at rest)
  where
    both : {a b : Bool} → (a && b) ≡ true → (a ≡ true) × (b ≡ true)
    both {a} {b} h = ground arith

copies_from-true :
    (c : List Fingerprint) (f k left : ℕ)
    → k + left ≤ f
    → 0 < f
    → copies_from (copies f c) (length c) k left ≡ true
copies_from-true c f k zero le pos_f = refl
copies_from-true c f k (suc left) le pos_f =
    rw
      (
        copy k (omega arith),
        copy 0 pos_f,
        same_list_refl same_fp same_fp_refl c,
        copies_from-true c f (suc k) left (omega arith) pos_f,
      )
      refl
  where
    copy : (k : ℕ) → k < f → copy_at (copies f c) (length c) k ≡ c
    copy k lt =
        let m : f ≡ k + suc (f - suc k) = omega arith in
        ap (λ (n : ℕ). take (length c) (drop (k * length c) (copies n c))) m
        ∙ ap (take (length c)) (drop-copies (suc (f - suc k)) k c)
        ∙ take-append c (copies (f - suc k) c)

-- copies repeat
pub copies-repeats : (c : List Fingerprint) (f : ℕ) → 0 < f → repeats (copies f c) f ≡ true
unfolding repeats
copies-repeats c f pos_f =
    rw
      (
        length-copies f c,
        mul-mod_right f (length c),
        mul-div_cancel_left (length c) pos_f,
        copies_from-true c f 1 (f - 1) (omega arith) pos_f,
      )
      refl
