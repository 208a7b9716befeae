-- ===== src/Resident/Reduce.antt =====
-- Reductions by an operation that is associative and commutative on some values: the order of a warp's tree
-- does not matter to them.
use llama_tov.Prelude.{ℕ, zero, suc, ◌+◌, ◌<◌, ◌≡◌, refl, sym, ap, ap₂, ◌∙◌, arith}

module _ {ℓ} {A : Type ℓ} (op : A → A → A) where
  -- `f(0) op … op f(n)`
  abbrev pub big : (ℕ → A) → ℕ → A
  big f zero = f 0
  big f (suc n) = op (big f n) (f (suc n))

  pub big_cong : (f g : ℕ → A) (n : ℕ) → ((k : ℕ) → k < suc n → f k ≡ g k) → big f n ≡ big g n
  big_cong f g zero h = h 0 (omega arith)
  big_cong f g (suc n) h =
      ap₂ op (big_cong f g n (λ k lt. h k (omega arith))) (h (suc n) (omega arith))

  -- the values `P`, which `op` keeps
  module _ (P : A → Type 0) (keeps : (a b : A) → P a → P b → P (op a b))
      (assoc : (a b c : A) → P a → P b → P c → op (op a b) c ≡ op a (op b c))
      (comm : (a b : A) → P a → P b → op a b ≡ op b a) where
    -- the first entries are such values
    abbrev pub Below : (ℕ → A) → ℕ → Type 0
    Below f n = (k : ℕ) → k < n → P (f k)

    big-P : (f : ℕ → A) (n : ℕ) → Below f (suc n) → P (big f n)
    big-P f zero h = h 0 (omega arith)
    big-P f (suc n) h =
        keeps (big f n) (f (suc n)) (big-P f n (λ k lt. h k (omega arith)))
          (h (suc n) (omega arith))

    swap_middle :
        (a b c d : A) → P a → P b → P c → P d → op (op a b) (op c d) ≡ op (op a c) (op b d)
    swap_middle a b c d ha hb hc hd =
        assoc a b (op c d) ha hb (keeps c d hc hd)
        ∙ ap (op a)
            (sym (assoc b c d hb hc hd) ∙ ap (λ e. op e d) (comm b c hb hc) ∙ assoc c b d hc hb hd)
        ∙ sym (assoc a c (op b d) ha hc (keeps b d hb hd))

    -- two halves, entry by entry
    pub big-pairs :
        (f g : ℕ → A) (n : ℕ)
        → Below f (suc n)
        → Below g (suc n)
        → big (λ k. op (f k) (g k)) n ≡ op (big f n) (big g n)
    big-pairs f g zero hf hg = refl
    big-pairs f g (suc n) hf hg =
        let f' : Below f (suc n) = λ k lt. hf k (omega arith) in
        let g' : Below g (suc n) = λ k lt. hg k (omega arith) in
        ap (λ e. op e (op (f (suc n)) (g (suc n)))) (big-pairs f g n f' g')
        ∙ swap_middle (big f n) (big g n) (f (suc n)) (g (suc n)) (big-P f n f') (big-P g n g')
            (hf (suc n) (omega arith)) (hg (suc n) (omega arith))

    -- one after the other
    pub big-append :
        (f : ℕ → A) (m n : ℕ)
        → Below f (suc (suc m + n))
        → op (big f m) (big (λ k. f (suc m + k)) n) ≡ big f (suc m + n)
    big-append f m zero h = let e : suc m + 0 ≡ suc m = omega arith in rw e refl
    big-append f m (suc n) h =
        let e : suc m + suc n ≡ suc (suc m + n) = omega arith in
        let last : P (f (suc (suc m + n))) = h (suc (suc m + n)) (omega arith) in
        rw e (
          sym (
            assoc (big f m) (big (λ k. f (suc m + k)) n) (f (suc (suc m + n)))
              (big-P f m (λ k lt. h k (omega arith)))
              (big-P (λ k. f (suc m + k)) n (λ k lt. h (suc m + k) (omega arith))) last)
          ∙ ap (λ r. op r (f (suc (suc m + n)))) (big-append f m n (λ k lt. h k (omega arith))))

    -- a round of a tree: entry `k` takes in entry `k + s`
    pub big-round :
        (f g : ℕ → A) (m : ℕ)
        → Below f (suc (suc m + m))
        → ((k : ℕ) → k < suc m → g k ≡ op (f k) (f (suc m + k)))
        → big g m ≡ big f (suc m + m)
    big-round f g m all h =
        big_cong g (λ k. op (f k) (f (suc m + k))) m h
        ∙ big-pairs f (λ k. f (suc m + k)) m (λ k lt. all k (omega arith))
            (λ k lt. all (suc m + k) (omega arith))
        ∙ big-append f m m all
