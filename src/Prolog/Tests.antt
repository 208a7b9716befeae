-- ===== src/Prolog/Tests.antt =====
-- Quoting on small texts.
use llama_tov.Prelude.{ℕ, ◌≡◌, refl, ◌≢◌, Bool, true, false, ◌&&◌, ◌||◌, [], ◌∷◌, arith, leb, ◌==◌}
use llama_tov.Prolog.{
  Goal, pg_var, make_var, Text, pg_call, pg_atom, pg_seq, goal, no_goals, serialize,
}
use llama_tov.Prolog.Quoting.{make_var-atom}

abbrev lower : ℕ → Bool
lower c = leb b'a' c && leb c b'z'

abbrev identifier : Text → Bool
identifier [] = true
identifier (c ∷ s) = lower c && identifier s

-- a goal sequence as the one argument of a call reads as two arguments
sequence_in_call :
    serialize identifier lower (
      pg_call
        (b'f' ∷ [])
        (goal (pg_seq (goal (pg_atom (b'a' ∷ [])) (goal (pg_atom (b'b' ∷ [])) no_goals))) no_goals))
    ≡ serialize identifier lower
        (pg_call (b'f' ∷ []) (goal (pg_atom (b'a' ∷ [])) (goal (pg_atom (b'b' ∷ [])) no_goals)))
unfolding serialize
sequence_in_call = refl

abbrev upper : ℕ → Bool
upper c = leb b'A' c && leb c b'Z'

upper_not_lower : (c : ℕ) → (upper c || c == b'_') ≡ true → lower c ≡ false
upper_not_lower c h = ground arith

abbrev text_of : Goal → Text
text_of g = serialize identifier lower g

make_var-atom_example : text_of (pg_var (b'K' ∷ [])) ≢ text_of (pg_atom (b'K' ∷ []))
unfolding make_var
make_var-atom_example =
    make_var-atom identifier lower upper (b'K' ∷ []) (b'K' ∷ []) (pg_var (b'K' ∷ [])) refl
      upper_not_lower refl
