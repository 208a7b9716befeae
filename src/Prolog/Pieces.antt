-- ===== src/Prolog/Pieces.antt =====
-- The pieces of a name between its slashes, which `split_slash` reads from left to right.
use llama_tov.Prelude.{
  ℕ, ◌≡◌, refl, sym, ap, ◌∙◌, inl, inr, true, false, List, [], ◌∷◌, ◌++◌, append_assoc, append-nil,
  ◌==◌, if◌then◌else◌, Bool-cases,
}
use llama_tov.Prolog.{Text, split_slash}

pub slash_cut :
    (cur : Text) (d : ℕ) (t : Text)
    → (d == b'/') ≡ true
    → split_slash cur (d ∷ t) ≡ cur ∷ split_slash [] t
slash_cut cur d t h = rw (split_slash, h) refl

pub slash_keep :
    (cur : Text) (d : ℕ) (t : Text)
    → (d == b'/') ≡ false
    → split_slash cur (d ∷ t) ≡ split_slash (cur ++ (d ∷ [])) t
slash_keep cur d t h = rw (split_slash, h) refl

abbrev pub push : ℕ → List Text → List Text
push c [] = (c ∷ []) ∷ []
push c (p ∷ ps) = (c ∷ p) ∷ ps

-- the pieces of a text between its slashes
unfoldable pub pieces : Text → List Text
pieces [] = [] ∷ []
pieces (c ∷ s) = let rest = pieces s in if c == b'/' then [] ∷ rest else push c rest

abbrev pub attach : Text → List Text → List Text
attach cur [] = cur ∷ []
attach cur (p ∷ ps) = (cur ++ p) ∷ ps

attach-push :
    (cur : Text) (c : ℕ) (ps : List Text) → attach cur (push c ps) ≡ attach (cur ++ (c ∷ [])) ps
attach-push cur c [] = refl
attach-push cur c (p ∷ ps) = ap (λ q. q ∷ ps) (sym (append_assoc cur (c ∷ []) p))

push-filled : (c : ℕ) (ps : List Text) → attach [] (push c ps) ≡ push c ps
push-filled c [] = refl
push-filled c (p ∷ ps) = refl

pub pieces-filled : (s : Text) → attach [] (pieces s) ≡ pieces s
unfolding pieces
pieces-filled [] = refl
pieces-filled (c ∷ s) = elim (Bool-cases (c == b'/')) [
  | inl cut ↦ rw cut refl
  | inr keep ↦ rw keep (push-filled c (pieces s))
]

pub split_slash-pieces : (cur s : Text) → split_slash cur s ≡ attach cur (pieces s)
unfolding pieces
split_slash-pieces cur [] = ap (λ p. p ∷ []) (sym (append-nil cur))
split_slash-pieces cur (c ∷ s) = elim (Bool-cases (c == b'/')) [
  | inl cut ↦
      rw (slash_cut cur c s cut, cut, append-nil cur)
        (ap (λ ps. cur ∷ ps) (split_slash-pieces [] s ∙ pieces-filled s))
  | inr keep ↦
      rw (slash_keep cur c s keep, keep)
        (split_slash-pieces (cur ++ (c ∷ [])) s ∙ sym (attach-push cur c (pieces s)))
]
