-- ===== src/Prolog/Quoting.antt =====
-- A Prolog reader takes a quoted item back: a doubled quote stands for one, a single one ends it.
use llama_tov.Prelude.{
  ℕ, ◌≡◌, refl, sym, ap, ◌∙◌, subst, ◌≢◌, inl, inr, Bool, true, false, ◌&&◌, ◌||◌, Option, none,
  some, [], ◌∷◌, ◌++◌, arith, ◌==◌, if◌then◌else◌, ==_iff, Bool-cases, OnOk, ok,
}
use llama_tov.Prolog.Pieces.{slash_cut, slash_keep, pieces}
use llama_tov.Prolog.{
  Goal, pg_atom, make_var, serialize, Text, escape, is_bare_atom, quote_atom_if_needed,
  starts_lower, split_slash, all_of,
}

abbrev pub with_char : ℕ → Option (Text × Text) → Option (Text × Text)
with_char c none = none
with_char c (some (s, rest)) = some (c ∷ s, rest)

-- what stands behind the opening quote
abbrev pub read_quoted : ℕ → Text → Option (Text × Text)
read_quoted q [] = none
read_quoted q (c ∷ []) = if c == q then some ([], []) else none
read_quoted q (c ∷ d ∷ s) =
    let plain = with_char c (read_quoted q (d ∷ s)) in
    let doubled = with_char q (read_quoted q s) in
    if c == q then if d == q then doubled else some ([], d ∷ s) else plain

-- the text behind an item does not go on with the quote
abbrev pub Ends : ℕ → Text → Type 0
Ends q [] = Unit
Ends q (c ∷ s) = (c == q) ≡ false

same_self : (c : ℕ) → (c == c) ≡ true
same_self c = ground arith

read_quoted-end :
    (q : ℕ) (after : Text) → Ends q after → read_quoted q (q ∷ after) ≡ some ([], after)
read_quoted-end q [] h = rw (same_self q) refl
read_quoted-end q (c ∷ after) h = rw (same_self q, h) refl

read_quoted-plain :
    (q c : ℕ) (t : Text) → (c == q) ≡ false → read_quoted q (c ∷ t) ≡ with_char c (read_quoted q t)
read_quoted-plain q c [] h = rw h refl
read_quoted-plain q c (d ∷ t) h = rw h refl

read_quoted-doubled : (q : ℕ) (t : Text) → read_quoted q (q ∷ q ∷ t) ≡ with_char q (read_quoted q t)
read_quoted-doubled q t = rw (same_self q) refl

-- Behind the opening quote, a reader of quoted items gets from the escaped text and the closing quote
-- the text itself, and stops at what follows, if that does not begin with the quote.
pub read_quoted-escape :
    (q : ℕ) (s after : Text)
    → Ends q after
    → read_quoted q (escape q s ++ (q ∷ after)) ≡ some (s, after)
read_quoted-escape q [] after h = read_quoted-end q after h
read_quoted-escape q (c ∷ s) after h = elim (Bool-cases (c == q)) [
  | inl quote ↦
      let same : q ≡ c = sym ((==_iff c q).0 quote) in
      rw quote (
        read_quoted-doubled q (escape q s ++ (q ∷ after))
        ∙ ap (with_char q) (read_quoted-escape q s after h)
        ∙ ap (λ (x : ℕ). some (x ∷ s, after)) same)
  | inr plain ↦ rw plain (
      read_quoted-plain q c (escape q s ++ (q ∷ after)) plain
      ∙ ap (with_char c) (read_quoted-escape q s after h))
]

-- what a quoted item holds that ends the text
whole_text : Option (Text × Text) → Option Text
whole_text (some (s, [])) = some s
whole_text (some (s, c ∷ rest)) = none
whole_text none = none

module _ (is_identifier : Text → Bool) (is_lower : ℕ → Bool) where
  starts_lower-split :
      (c : ℕ) (cur t : Text)
      → starts_lower is_identifier is_lower (split_slash (c ∷ cur) t) ≡ is_lower c
  starts_lower-split c cur [] = refl
  starts_lower-split c cur (d ∷ t) = elim (Bool-cases (d == b'/')) [
    | inl cut ↦ ap (starts_lower is_identifier is_lower) (slash_cut (c ∷ cur) d t cut)
    | inr keep ↦
        ap (starts_lower is_identifier is_lower) (slash_keep (c ∷ cur) d t keep)
        ∙ starts_lower-split c (cur ++ (d ∷ [])) t
  ]

  -- a bare atom begins with a lower-case letter
  bare_lower :
      (c : ℕ) (name : Text)
      → is_bare_atom is_identifier is_lower (c ∷ name) ≡ true
      → is_lower c ≡ true
  unfolding is_bare_atom
  bare_lower c name h = elim (Bool-cases (c == b'/')) [
    | inl cut ↦ absurd (
        clash (ap (starts_lower is_identifier is_lower) (slash_cut [] c name cut)) (first_of _ _ h))
    | inr keep ↦
        sym (starts_lower-split c [] name)
        ∙ ap (starts_lower is_identifier is_lower) (sym (slash_keep [] c name keep))
        ∙ first_of _ _ h
  ]
    where
      first_of : (a b : Bool) → (a && b) ≡ true → a ≡ true
      first_of a b e = ground arith

      clash : {x : Bool} → x ≡ false → x ≡ true → ⊥
      clash {x} hf ht = ground arith

  -- A reader's name of an atom's text: what stands between the quotes, or the text itself where it begins
  -- with a lower-case letter and has identifiers between its slashes.
  unfoldable pub read_atom : Text → Option Text
  unfolding whole_text pieces
  read_atom [] = none
  read_atom (c ∷ text) =
      let bare = is_lower c && all_of is_identifier (pieces (c ∷ text)) in
      if c == 39 then whole_text (read_quoted 39 text) else if bare then some (c ∷ text) else none

module _ (is_identifier : Text → Bool) (is_lower is_upper : ℕ → Bool) where
  var_first :
      (c : ℕ) (name a : Text)
      → (is_upper c || c == b'_') ≡ true
      → ((c : ℕ) → (is_upper c || c == b'_') ≡ true → is_lower c ≡ false)
      → is_upper 39 ≡ false
      → c ∷ name ≢ quote_atom_if_needed is_identifier is_lower a
  unfolding quote_atom_if_needed
  var_first c name a first disjoint quote e =
      elim (Bool-cases (is_bare_atom is_identifier is_lower a)) [
        | inl bare ↦
            let same = rw bare at e in
            absurd (
              clash (disjoint c first) (
                bare_lower is_identifier is_lower c name
                  (ap (is_bare_atom is_identifier is_lower) same ∙ bare)))
        | inr other ↦
            let same : c ≡ 39 = ap head (rw other at e) in
            absurd
              (clash (rw quote refl) (subst (λ c. (is_upper c || c == b'_') ≡ true) same first))
      ]
    where
      head : Text → ℕ
      head [] = 0
      head (c ∷ s) = c

      clash : {x : Bool} → x ≡ false → x ≡ true → ⊥
      clash {x} hf ht = ground arith

  NoAtom : Text → Goal → Type 0
  NoAtom a v = serialize is_identifier is_lower v ≢ serialize is_identifier is_lower (pg_atom a)

  make_var-NoAtom :
      (name a : Text)
      → ((c : ℕ) → (is_upper c || c == b'_') ≡ true → is_lower c ≡ false)
      → is_upper 39 ≡ false
      → OnOk (NoAtom a) (make_var is_upper name)
  unfolding make_var serialize NoAtom
  make_var-NoAtom [] a disjoint quote = tt
  make_var-NoAtom (c ∷ name) a disjoint quote = elim (Bool-cases (is_upper c || c == b'_')) [
    | inl first ↦ rw first (var_first c name a first disjoint quote)
    | inr other ↦ rw other tt
  ]

  -- A variable that `pg_var` accepts is never written as an atom is, where no character counts as
  -- lower-case that `pg_var` takes first, and the single quote is not upper-case.
  pub make_var-atom :
      (name a : Text) (v : Goal)
      → make_var is_upper name ≡ ok v
      → ((c : ℕ) → (is_upper c || c == b'_') ≡ true → is_lower c ≡ false)
      → is_upper 39 ≡ false
      → serialize is_identifier is_lower v ≢ serialize is_identifier is_lower (pg_atom a)
  unfolding NoAtom
  make_var-atom name a v made disjoint quote = rw made at (make_var-NoAtom name a disjoint quote)
