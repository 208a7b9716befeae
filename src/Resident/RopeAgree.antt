-- ===== src/Resident/RopeAgree.antt =====
-- The rotation of query and key in one launch, over the heads of both.
use llama_tov.Prelude.{
  ℕ, zero, suc, ◌+◌, ◌*◌, ◌≤◌, ◌<◌, ◌≡◌, refl, sym, ap, ap₂, ◌∙◌, List, [], ◌∷◌, ◌++◌, append_assoc,
  append-nil, arith, length, length-append, take, drop, length-take, length-drop, take-append,
  drop-append, rounds_from, rounds, length-rounds_from, rounds_from_cong,
}
use native.Mathlib.Nat.{add-mul, mul-le-mul_right}
use llama_tov.Resident.Kernels.{Kernels}
use llama_tov.Resident.Quantize.{Floats}
use llama_tov.Resident.Layer.{slices, rope_heads}
use llama_tov.Resident.Plain.{Exact}

module _ {ℓ} {A : Type ℓ} where
  rounds_from-append :
      (i n m : ℕ) (body : ℕ → List A)
      → rounds_from i (n + m) body ≡ rounds_from i n body ++ rounds_from (i + n) m body
  rounds_from-append i zero m body =
      let e : 0 + m ≡ m = omega arith in let z : i + 0 ≡ i = omega arith in rw (e, z) refl
  rounds_from-append i (suc n) m body =
      let e : suc n + m ≡ suc (n + m) = omega arith in
      let z : i + suc n ≡ suc i + n = omega arith in
      rw (e, z, rounds_from-append (suc i) n m body)
        (sym (append_assoc (body i) (rounds_from (suc i) n body) (rounds_from (suc i + n) m body)))

  rounds_from_shift :
      (i n : ℕ) (f g : ℕ → List A) → ((k : ℕ) → f (i + k) ≡ g k) → rounds_from i n f ≡ rounds n g
  rounds_from_shift i n f g h = go i 0 n (λ k. h k ∙ ap g (omega arith))
    where
      go : (p j n : ℕ) → ((k : ℕ) → f (p + k) ≡ g (j + k)) → rounds_from p n f ≡ rounds_from j n g
      go p j zero h = refl
      go p j (suc n) h =
          ap₂ ◌++◌ (ap f (omega arith) ∙ h 0 ∙ ap g (omega arith))
            (go (suc p) (suc j) n (λ k. ap f (omega arith) ∙ h (suc k) ∙ ap g (omega arith)))

  slice_left :
      (a h : ℕ) (xs ys : List A)
      → a + h ≤ length xs
      → take h (drop a (xs ++ ys)) ≡ take h (drop a xs)
  slice_left zero zero xs ys le = refl
  slice_left zero (suc h) [] ys le = absurd (omega arith)
  slice_left zero (suc h) (x ∷ xs) ys le = ap (λ l. x ∷ l) (slice_left zero h xs ys (omega arith))
  slice_left (suc a) h [] ys le = absurd (omega arith)
  slice_left (suc a) h (x ∷ xs) ys le = slice_left a h xs ys (omega arith)

  drop_past : (a b : ℕ) (xs ys : List A) → length xs ≡ a → drop (a + b) (xs ++ ys) ≡ drop b ys
  drop_past zero b [] ys h = let e : 0 + b ≡ b = omega arith in rw e refl
  drop_past zero b (x ∷ xs) ys h = absurd (omega (arith, h))
  drop_past (suc a) b [] ys h = absurd (omega (arith, h))
  drop_past (suc a) b (x ∷ xs) ys h =
      let e : suc a + b ≡ suc (a + b) = omega arith in rw e (drop_past a b xs ys (omega (arith, h)))

  pub drop_all : (xs : List A) (n : ℕ) → length xs ≡ n → drop n xs ≡ []
  drop_all [] zero h = refl
  drop_all [] (suc n) h = refl
  drop_all (x ∷ xs) zero h = absurd (omega (arith, h))
  drop_all (x ∷ xs) (suc n) h = drop_all xs n (omega (arith, h))

module _ (K : Kernels) where
  pub slices_three :
      (a b c : Floats K) (m n : ℕ)
      → length a ≡ m
      → length b ≡ n
      → slices K (a ++ (b ++ c)) m n ≡ (a, b, c)
  slices_three a b c m n hm hn =
      let front : take m (a ++ (b ++ c)) ≡ a =
        ap (λ k. take k (a ++ (b ++ c))) (sym hm) ∙ take-append a (b ++ c) in
      let rest : drop m (a ++ (b ++ c)) ≡ b ++ c =
        ap (λ k. drop k (a ++ (b ++ c))) (sym hm) ∙ drop-append a (b ++ c) in
      let middle : take n (b ++ c) ≡ b = ap (λ k. take k (b ++ c)) (sym hn) ∙ take-append b c in
      let last : drop n (b ++ c) ≡ c = ap (λ k. drop k (b ++ c)) (sym hn) ∙ drop-append b c in
      rw (front, rest, middle, drop_past m n a (b ++ c) hm, last) refl

module _ (K : Kernels) (exact : Exact K) (theta : K.Num) (hd pos : ℕ) where
  -- the rotation of head `j` of a buffer
  abbrev head : Floats K → ℕ → Floats K
  head y j = K.rope theta hd pos (take hd (drop (j * hd) y))

  abbrev turn : ℕ → Floats K → Floats K
  turn n y = rope_heads K theta hd n pos y

  inside : (j n : ℕ) → j < n → j * hd + hd ≤ n * hd
  inside j n lt =
      let step : suc j * hd ≤ n * hd = mul-le-mul_right hd lt in
      let e : suc j * hd ≡ j * hd + hd = omega arith in rw e at step

  head_left :
      (n : ℕ) (q rest : Floats K)
      → length q ≡ n * hd
      → rounds n (head (q ++ rest)) ≡ rounds n (head q)
  head_left n q rest h = rounds_from_cong 0 n _ _ λ j lt.
      ap (K.rope theta hd pos) (slice_left (j * hd) hd q rest (rw h (inside j n (omega arith))))

  turn-append :
      (n : ℕ) (q rest : Floats K) → length q ≡ n * hd → turn n (q ++ rest) ≡ turn n q ++ rest
  unfolding rope_heads
  turn-append n q rest h =
      ap₂ ◌++◌ (head_left n q rest h) (ap (λ m. drop m (q ++ rest)) (sym h) ∙ drop-append q rest)
      ∙ ap (λ l. l ++ rest)
          (sym (append-nil (rounds n (head q)))
            ∙ ap (λ l. rounds n (head q) ++ l) (sym (drop_all q (n * hd) h)))

  -- `n` heads of `q` and `m` heads of what follows
  turn-more :
      (n m : ℕ) (q rest : Floats K)
      → length q ≡ n * hd
      → turn (n + m) (q ++ rest) ≡ turn n q ++ turn m rest
  unfolding rope_heads
  turn-more n m q rest h =
      ap₂ ◌++◌ heads (both_drop m)
      ∙ append_assoc (rounds n (head q)) (rounds m (head rest)) (drop (m * hd) rest)
      ∙ ap (λ l. l ++ turn m rest)
          (sym (append-nil (rounds n (head q)))
            ∙ ap (λ l. rounds n (head q) ++ l) (sym (drop_all q (n * hd) h)))
    where
      both_drop : (k : ℕ) → drop ((n + k) * hd) (q ++ rest) ≡ drop (k * hd) rest
      both_drop k = rw (add-mul n k hd) (drop_past (n * hd) (k * hd) q rest h)

      heads : rounds (n + m) (head (q ++ rest)) ≡ rounds n (head q) ++ rounds m (head rest)
      heads =
          rounds_from-append 0 n m (head (q ++ rest))
          ∙ ap₂ ◌++◌ (head_left n q rest h) (
              ap (λ (i : ℕ). rounds_from i m (head (q ++ rest))) (omega arith)
              ∙ rounds_from_shift n m (head (q ++ rest)) (head rest)
                  (λ k. ap (λ l. K.rope theta hd pos (take hd l)) (both_drop k)))

  length-turn : (n : ℕ) (q : Floats K) → length q ≡ n * hd → length (turn n q) ≡ n * hd
  unfolding rope_heads
  length-turn n q h =
      length-append (rounds n (head q)) (drop (n * hd) q)
      ∙ ap₂ ◌+◌
          (length-rounds_from hd 0 n (head q) λ j lt.
            exact.length-rope theta hd pos (take hd (drop (j * hd) q))
            ∙ omega (
              arith,
              inside j n (omega arith),
              h,
              length-take hd (drop (j * hd) q),
              length-drop (j * hd) q,
            ))
          (ap length (drop_all q (n * hd) h))
      ∙ omega arith

  -- query and key in one launch, and the value behind them
  pub rope_fused-apart :
      (nh nkv : ℕ) (q k v : Floats K)
      → length q ≡ nh * hd
      → length k ≡ nkv * hd
      → slices K (turn (nh + nkv) (q ++ (k ++ v))) (nh * hd) (nkv * hd) ≡ (turn nh q, turn nkv k, v)
  rope_fused-apart nh nkv q k v hq hk =
      rw (turn-more nh nkv q (k ++ v) hq, turn-append nkv k v hk)
        (slices_three K (turn nh q) (turn nkv k) v (nh * hd) (nkv * hd) (length-turn nh q hq)
          (length-turn nkv k hk))
