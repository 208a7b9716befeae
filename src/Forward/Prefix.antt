-- ===== src/Forward/Prefix.antt =====
-- A layer on the rows of a prefix and one more: the rows of the prefix come out as before, and the
-- cache gives the one that is new.
use llama_tov.Prelude.{
  ℕ, suc, ◌+◌, ◌≤◌, ◌≡◌, refl, sym, ap, ap₂, ◌∙◌, Option, none, some, List, [], ◌∷◌, ◌++◌, arith,
  length,
}
use llama_tov.Forward.Torch.{TorchOps}
use llama_tov.Forward.Rows.{Row}
use llama_tov.Forward.Layers.{Layer, keys_from, values_from, row_at, rows_from_at, causal_layer}
use llama_tov.Forward.Generate.{layer_step}
use llama_tov.Forward.Causal.{Causal}

module _ (T : TorchOps) (f : Layer T) where
  pub length-keys_from : (p : ℕ) (xs : List (Row T)) → length (keys_from T f p xs) ≡ length xs
  length-keys_from p [] = refl
  length-keys_from p (x ∷ xs) = ap suc (length-keys_from (suc p) xs)

  pub length-values_from : (p : ℕ) (xs : List (Row T)) → length (values_from T f p xs) ≡ length xs
  length-values_from p [] = refl
  length-values_from p (x ∷ xs) = ap suc (length-values_from (suc p) xs)

  pub keys_from-append :
      (p n : ℕ) (xs ys : List (Row T))
      → p + length xs ≡ n
      → keys_from T f p (xs ++ ys) ≡ keys_from T f p xs ++ keys_from T f n ys
  keys_from-append p n [] ys e = let e' : p ≡ n = omega arith in rw e' refl
  keys_from-append p n (x ∷ xs) ys e =
      ap (λ l. (f.project p x).1 ∷ l) (keys_from-append (suc p) n xs ys (omega arith))

  pub values_from-append :
      (p n : ℕ) (xs ys : List (Row T))
      → p + length xs ≡ n
      → values_from T f p (xs ++ ys) ≡ values_from T f p xs ++ values_from T f n ys
  values_from-append p n [] ys e = let e' : p ≡ n = omega arith in rw e' refl
  values_from-append p n (x ∷ xs) ys e =
      ap (λ l. (f.project p x).2 ∷ l) (values_from-append (suc p) n xs ys (omega arith))

  pub rows_from_at-append :
      (p n : ℕ) (xs ys ks vs : List (Row T))
      → p + length xs ≡ n
      → rows_from_at T f p (xs ++ ys) ks vs
        ≡ rows_from_at T f p xs ks vs ++ rows_from_at T f n ys ks vs
  rows_from_at-append p n [] ys ks vs e = let e' : p ≡ n = omega arith in rw e' refl
  rows_from_at-append p n (x ∷ xs) ys ks vs e =
      ap (λ l. row_at T f p x ks vs ∷ l) (rows_from_at-append (suc p) n xs ys ks vs (omega arith))

  pub length-rows_from_at :
      (p : ℕ) (xs ks vs : List (Row T)) → length (rows_from_at T f p xs ks vs) ≡ length xs
  length-rows_from_at p [] ks vs = refl
  length-rows_from_at p (x ∷ xs) ks vs = ap suc (length-rows_from_at (suc p) xs ks vs)

  pub length-causal_layer : (xs : List (Row T)) → length (causal_layer T f xs) ≡ length xs
  unfolding causal_layer
  length-causal_layer xs = length-rows_from_at 0 xs (keys_from T f 0 xs) (values_from T f 0 xs)

  module _ (causal : Causal T f) where
    -- One more key and value, after all the rows, change no row.
    pub rows_from_at-later :
        (p : ℕ) (xs ks vs : List (Row T)) (k v : Row T)
        → length ks ≡ length vs
        → p + length xs ≤ length ks
        → rows_from_at T f p xs (ks ++ (k ∷ [])) (vs ++ (v ∷ [])) ≡ rows_from_at T f p xs ks vs
    rows_from_at-later p [] ks vs k v e h = refl
    rows_from_at-later p (x ∷ xs) ks vs k v e h =
        ap₂ ◌∷◌ (ap (f.finish x) (causal (f.project p x).0 ks vs k v p e (omega arith)))
          (rows_from_at-later (suc p) xs ks vs k v e (omega arith))

    -- Nothing of the rows so far changes, and the row that is new meets all keys and values.
    pub causal_layer-append :
        (xs : List (Row T)) (x : Row T)
        → causal_layer T f (xs ++ (x ∷ []))
          ≡ causal_layer T f xs
            ++ (row_at T f
                  (length xs)
                  x
                  (keys_from T f 0 (xs ++ (x ∷ [])))
                  (values_from T f 0 (xs ++ (x ∷ [])))
                ∷ [])
    unfolding causal_layer
    causal_layer-append xs x =
        let n = length xs in
        let ks = keys_from T f 0 xs in
        let vs = values_from T f 0 xs in
        let ks' = keys_from T f 0 (xs ++ (x ∷ [])) in
        let vs' = values_from T f 0 (xs ++ (x ∷ [])) in
        let ek = keys_from-append 0 n xs (x ∷ []) (omega arith) in
        let ev = values_from-append 0 n xs (x ∷ []) (omega arith) in
        rows_from_at-append 0 n xs (x ∷ []) ks' vs' (omega arith)
        ∙ ap (λ l. l ++ (row_at T f n x ks' vs' ∷ []))
            (ap₂ (rows_from_at T f 0 xs) ek ev
              ∙ rows_from_at-later 0 xs ks vs (f.project n x).1 (f.project n x).2
                  (length-keys_from 0 xs ∙ sym (length-values_from 0 xs))
                  (omega (arith, length-keys_from 0 xs)))

  -- the cache after the rows `xs`
  abbrev pub cache_of : List (Row T) → Option (List (Row T) × List (Row T))
  cache_of xs = some (keys_from T f 0 xs, values_from T f 0 xs)

  -- From an empty cache, a step computes what the layer computes of all rows.
  pub layer_step-none :
      (xs : List (Row T)) → layer_step T f 0 xs none ≡ (causal_layer T f xs, cache_of xs)
  unfolding layer_step causal_layer
  layer_step-none xs = refl

  -- From the cache of a prefix, a step computes the row that the layer adds, and the cache of all.
  pub layer_step-cache_of :
      (xs : List (Row T)) (x : Row T)
      → layer_step T f (length xs) (x ∷ []) (cache_of xs) ≡ (
        row_at T f
              (length xs)
              x
              (keys_from T f 0 (xs ++ (x ∷ [])))
              (values_from T f 0 (xs ++ (x ∷ [])))
            ∷ [],
        cache_of (xs ++ (x ∷ [])),
      )
  unfolding layer_step
  layer_step-cache_of xs x =
      let n = length xs in
      ap₂ (λ (ks vs : List (Row T)). (row_at T f n x ks vs ∷ [], some (ks, vs)))
        (sym (keys_from-append 0 n xs (x ∷ []) (omega arith)))
        (sym (values_from-append 0 n xs (x ∷ []) (omega arith)))
