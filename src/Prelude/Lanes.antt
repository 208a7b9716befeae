-- ===== src/Prelude/Lanes.antt =====
-- Vectorised array code: an array expression of `n` lanes is `tabulate n` of its lane expression.
use Prim.Native.Nat.{ℕ, zero, suc, ◌+◌, ◌*◌, ◌<◌}
use mathlib.Core.Path.{◌≡◌, refl, ap, ap₂, ◌∙◌}
use mathlib.Core.List.{List, [], ◌∷◌, ◌++◌}
use native.Mathlib.Omega.{arith}
use llama_tov.Prelude.Lists.{length, length-append, get_or, take, drop}

module _ {ℓ} {A : Type ℓ} where
  -- [f i, f (i + 1), ...], `n` of them
  abbrev pub tabulate_from : ℕ → ℕ → (ℕ → A) → List A
  tabulate_from i zero f = []
  tabulate_from i (suc n) f = f i ∷ tabulate_from (suc i) n f

  abbrev pub tabulate : ℕ → (ℕ → A) → List A
  tabulate n f = tabulate_from 0 n f

module _ {ℓ} {A : Type ℓ} where
  pub length-tabulate_from : (i n : ℕ) (f : ℕ → A) → length (tabulate_from i n f) ≡ n
  length-tabulate_from i zero f = refl
  length-tabulate_from i (suc n) f = ap suc (length-tabulate_from (suc i) n f)

  pub get_or-tabulate_from :
      (i n : ℕ) (f : ℕ → A) (d : A) (k : ℕ) → k < n → get_or (tabulate_from i n f) k d ≡ f (i + k)
  get_or-tabulate_from i zero f d k h = elim h [ ]
  get_or-tabulate_from i (suc n) f d zero h = ap f (omega arith)
  get_or-tabulate_from i (suc n) f d (suc k) h =
      let e : suc i + k ≡ i + suc k = omega arith in
      rw (get_or-tabulate_from (suc i) n f d k (omega arith)) (ap f e)

  pub tabulate_from_cong :
      (i n : ℕ) (f g : ℕ → A)
      → ((k : ℕ) → k < i + n → f k ≡ g k)
      → tabulate_from i n f ≡ tabulate_from i n g
  tabulate_from_cong i zero f g h = refl
  tabulate_from_cong i (suc n) f g h =
      ap₂ ◌∷◌ (h i (omega arith)) (tabulate_from_cong (suc i) n f g (λ k lt. h k (omega arith)))

module _ {ℓ} {A : Type ℓ} where
  pub length-tabulate : (n : ℕ) (f : ℕ → A) → length (tabulate n f) ≡ n
  length-tabulate n f = length-tabulate_from 0 n f

  pub get_or-tabulate :
      (n : ℕ) (f : ℕ → A) (d : A) (k : ℕ) → k < n → get_or (tabulate n f) k d ≡ f k
  get_or-tabulate n f d k h =
      let e : 0 + k ≡ k = omega arith in rw (get_or-tabulate_from 0 n f d k h) (ap f e)

  pub tabulate_cong :
      (n : ℕ) (f g : ℕ → A) → ((k : ℕ) → k < n → f k ≡ g k) → tabulate n f ≡ tabulate n g
  tabulate_cong n f g h = tabulate_from_cong 0 n f g (λ k lt. h k (omega arith))

  pub take-append : (xs ys : List A) → take (length xs) (xs ++ ys) ≡ xs
  take-append [] ys = refl
  take-append (x ∷ xs) ys = ap (λ l. x ∷ l) (take-append xs ys)

  pub drop-append : (xs ys : List A) → drop (length xs) (xs ++ ys) ≡ ys
  drop-append [] ys = refl
  drop-append (x ∷ xs) ys = drop-append xs ys

module _ {ℓ} {A : Type ℓ} where
  -- The loop `for i in range(n)` whose body appends `body i` to the output.
  abbrev pub rounds_from : ℕ → ℕ → (ℕ → List A) → List A
  rounds_from i zero body = []
  rounds_from i (suc n) body = body i ++ rounds_from (suc i) n body

  abbrev pub rounds : ℕ → (ℕ → List A) → List A
  rounds n body = rounds_from 0 n body

module _ {ℓ} {A : Type ℓ} where
  pub tabulate_from-append :
      (i m j n : ℕ) (f : ℕ → A)
      → i + m ≡ j
      → tabulate_from i m f ++ tabulate_from j n f ≡ tabulate_from i (m + n) f
  tabulate_from-append i zero j n f e =
      let e' : i ≡ j = omega arith in let z : 0 + n ≡ n = omega arith in rw (z, e')
  tabulate_from-append i (suc m) j n f e =
      let s : suc m + n ≡ suc (m + n) = omega arith in
      rw s (ap (λ l. f i ∷ l) (tabulate_from-append (suc i) m j n f (omega arith)))

  -- If round `i` appends the lanes `i * w` to `i * w + w - 1`, the loop makes all of them.
  pub rounds_from-tabulate :
      (w i n : ℕ) (body : ℕ → List A) (f : ℕ → A)
      → ((k : ℕ) → k < i + n → body k ≡ tabulate_from (k * w) w f)
      → rounds_from i n body ≡ tabulate_from (i * w) (n * w) f
  rounds_from-tabulate w i zero body f h = let z : 0 * w ≡ 0 = omega arith in rw z
  rounds_from-tabulate w i (suc n) body f h =
      let rest = rounds_from-tabulate w (suc i) n body f (λ k lt. h k (omega arith)) in
      let s : suc n * w ≡ w + n * w = omega arith in
      rw (h i (omega arith), rest, s)
        (tabulate_from-append (i * w) w (suc i * w) (n * w) f (omega arith))

  pub rounds-tabulate :
      (w n : ℕ) (body : ℕ → List A) (f : ℕ → A)
      → ((k : ℕ) → k < n → body k ≡ tabulate_from (k * w) w f)
      → rounds n body ≡ tabulate (n * w) f
  rounds-tabulate w n body f h =
      rounds_from-tabulate w 0 n body f (λ k lt. h k (omega arith))
      ∙ (let z : 0 * w ≡ 0 = omega arith in ap (λ (t : ℕ). tabulate_from t (n * w) f) z)

  -- lanes from `i` on are the lanes of a shifted expression
  pub tabulate_from_shift :
      (i n : ℕ) (f g : ℕ → A)
      → ((k : ℕ) → k < n → f k ≡ g (i + k))
      → tabulate n f ≡ tabulate_from i n g
  tabulate_from_shift i n f g h =
      tabulate_cong n f (λ k. g (i + k)) h
      ∙ shifted 0 i n
      ∙ (let z : i + 0 ≡ i = omega arith in ap (λ (t : ℕ). tabulate_from t n g) z)
    where
      shifted : (j i n : ℕ) → tabulate_from j n (λ k. g (i + k)) ≡ tabulate_from (i + j) n g
      shifted j i zero = refl
      shifted j i (suc n) =
          let e : i + suc j ≡ suc (i + j) = omega arith in
          ap (λ l. g (i + j) ∷ l) (shifted (suc j) i n ∙ ap (λ (t : ℕ). tabulate_from t n g) e)

module _ {ℓ} {A : Type ℓ} where
  pub get_or-append_left :
      (xs ys : List A) (k : ℕ) (d : A) → k < length xs → get_or (xs ++ ys) k d ≡ get_or xs k d
  get_or-append_left [] ys k d h = elim h [ ]
  get_or-append_left (x ∷ xs) ys zero d h = refl
  get_or-append_left (x ∷ xs) ys (suc k) d h = get_or-append_left xs ys k d (omega arith)

  pub get_or-append_right :
      (xs ys : List A) (m k : ℕ) (d : A)
      → length xs ≡ m
      → get_or (xs ++ ys) (m + k) d ≡ get_or ys k d
  get_or-append_right [] ys m k d h =
      let e : m + k ≡ k = omega arith in ap (λ (t : ℕ). get_or ys t d) e
  get_or-append_right (x ∷ xs) ys zero k d h = absurd (omega arith)
  get_or-append_right (x ∷ xs) ys (suc m) k d h =
      let e : suc m + k ≡ suc (m + k) = omega arith in
      rw e (get_or-append_right xs ys m k d (omega arith))

  pub length-rounds_from :
      (w i n : ℕ) (body : ℕ → List A)
      → ((k : ℕ) → k < i + n → length (body k) ≡ w)
      → length (rounds_from i n body) ≡ n * w
  length-rounds_from w i zero body h = omega arith
  length-rounds_from w i (suc n) body h =
      length-append (body i) (rounds_from (suc i) n body)
      ∙ ap₂ ◌+◌ (h i (omega arith))
          (length-rounds_from w (suc i) n body (λ k lt. h k (omega arith)))
      ∙ omega arith

  pub take-drop-append :
      (xs ys zs : List A) (m n : ℕ)
      → length xs ≡ m
      → length ys ≡ n
      → take n (drop m (xs ++ (ys ++ zs))) ≡ ys
  take-drop-append xs ys zs m n hm hn =
      rw (← hm, ← hn, drop-append xs (ys ++ zs)) (take-append ys zs)

  -- the rows of an array of equally long rows
  pub row-rounds_from :
      (w i n : ℕ) (body : ℕ → List A) (b : ℕ)
      → ((k : ℕ) → k < i + n → length (body k) ≡ w)
      → b < n
      → take w (drop (b * w) (rounds_from i n body)) ≡ body (i + b)
  row-rounds_from w i zero body b h lt = elim lt [ ]
  row-rounds_from w i (suc n) body zero h lt =
      let e : i + 0 ≡ i = omega arith in
      let z : 0 * w ≡ 0 = omega arith in
      rw (e, z)
        (take-drop-append [] (body i) (rounds_from (suc i) n body) 0 w refl (h i (omega arith)))
  row-rounds_from w i (suc n) body (suc b) h lt =
      let e : i + suc b ≡ suc i + b = omega arith in
      let m : suc b * w ≡ w + b * w = omega arith in
      rw (e, m, drop-add (body i) (rounds_from (suc i) n body) w (b * w) (h i (omega arith)))
        (row-rounds_from w (suc i) n body b (λ k l. h k (omega arith)) (omega arith))
    where
      drop-add : (xs ys : List A) (p q : ℕ) → length xs ≡ p → drop (p + q) (xs ++ ys) ≡ drop q ys
      drop-add [] ys p q hp = let e : p + q ≡ q = omega arith in ap (λ (t : ℕ). drop t ys) e
      drop-add (x ∷ xs) ys zero q hp = absurd (omega arith)
      drop-add (x ∷ xs) ys (suc p) q hp =
          let e : suc p + q ≡ suc (p + q) = omega arith in rw e (drop-add xs ys p q (omega arith))

  pub rounds_from_cong :
      (i n : ℕ) (f g : ℕ → List A)
      → ((k : ℕ) → k < i + n → f k ≡ g k)
      → rounds_from i n f ≡ rounds_from i n g
  rounds_from_cong i zero f g h = refl
  rounds_from_cong i (suc n) f g h =
      ap₂ ◌++◌ (h i (omega arith)) (rounds_from_cong (suc i) n f g (λ k lt. h k (omega arith)))

-- lane `j` of a field that stands behind `m` items
pub get_or_field {ℓ} :
    {A : Type ℓ} (before : List A) (n : ℕ) (f : ℕ → A) (after : List A) (m j : ℕ) (d : A)
    → length before ≡ m
    → j < n
    → get_or (before ++ (tabulate n f ++ after)) (m + j) d ≡ f j
get_or_field before n f after m j d hm hj =
    let e = length-tabulate n f in
    get_or-append_right before (tabulate n f ++ after) m j d hm
    ∙ get_or-append_left (tabulate n f) after j d (omega (arith, e))
    ∙ get_or-tabulate n f d j hj

pub get_or_first {ℓ} :
    {A : Type ℓ} (n : ℕ) (f : ℕ → A) (after : List A) (j : ℕ) (d : A)
    → j < n
    → get_or (tabulate n f ++ after) j d ≡ f j
get_or_first n f after j d hj =
    let e = length-tabulate n f in
    get_or-append_left (tabulate n f) after j d (omega (arith, e)) ∙ get_or-tabulate n f d j hj

-- item `j` of round `b`
pub get_or-rounds_from {ℓ} :
    {A : Type ℓ} (w i n : ℕ) (body : ℕ → List A) (b j : ℕ) (d : A)
    → ((k : ℕ) → k < i + n → length (body k) ≡ w)
    → b < n
    → j < w
    → get_or (rounds_from i n body) (b * w + j) d ≡ get_or (body (i + b)) j d
get_or-rounds_from w i zero body b j d h hb hj = elim hb [ ]
get_or-rounds_from w i (suc n) body zero j d h hb hj =
    let e : 0 * w + j ≡ j = omega arith in
    let z : i + 0 ≡ i = omega arith in
    rw (e, z)
      (get_or-append_left (body i) (rounds_from (suc i) n body) j d
        (omega (arith, h i (omega arith))))
get_or-rounds_from w i (suc n) body (suc b) j d h hb hj =
    let e : suc b * w + j ≡ w + (b * w + j) = omega arith in
    let z : i + suc b ≡ suc i + b = omega arith in
    rw (e, z)
      (get_or-append_right (body i) (rounds_from (suc i) n body) w (b * w + j) d (h i (omega arith))
        ∙ get_or-rounds_from w (suc i) n body b j d (λ k l. h k (omega arith)) (omega arith) hj)
