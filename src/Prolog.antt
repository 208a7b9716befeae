-- ===== src/Prolog.antt =====
-- Prolog goals as trees and their text: bpd/lib/prolog_goal.py. A text is the list of its code points;
-- Python's `isidentifier` and `islower` are parameters.
pub mod Pieces
pub mod Quoting
mod Tests
use llama_tov.Prelude.{
  ℕ, zero, suc, ◌+◌, ◌/◌, ◌%◌, Bool, true, false, ◌&&◌, ◌||◌, List, [], ◌∷◌, ◌++◌, ltb, ◌==◌,
  if◌then◌else◌, Result, guard, ◌>>=◌, ◌>>◌, value_error, ok, err,
}
use llama_tov.Prelude.Int.{ℤ, pos, negsuc}

abbrev pub Text : Type 0
Text = List ℕ

-- the tagged tuples
mutual
  pub data Goal : Type 0 where
    pg_atom pg_string pg_var : Text → Goal
    pg_int : ℤ → Goal
    pg_call : Text → Goals → Goal
    pg_list pg_seq : Goals → Goal

  pub data Goals : Type 0 where
    no_goals : Goals
    goal : Goal → Goals → Goals

-- `pg_var`, where `is_upper` is Python's `isupper`
unfoldable pub make_var : (ℕ → Bool) → Text → Result Goal
make_var is_upper [] = err value_error
make_var is_upper (c ∷ name) = do
  _ ← guard (is_upper c || c == b'_') value_error
  ok (pg_var (c ∷ name))

-- `s.replace(q, q + q)` of one character
abbrev pub escape : ℕ → Text → Text
escape q [] = []
escape q (c ∷ s) = if c == q then q ∷ q ∷ escape q s else c ∷ escape q s

-- the escaped text between quotes
abbrev pub quoted : ℕ → Text → Text
quoted q s = q ∷ (escape q s ++ (q ∷ []))

-- `_quote_string`
abbrev pub quote_string : Text → Text
quote_string s = quoted 34 s

-- `name.split('/')`, with the segment that is being read
abbrev pub split_slash : Text → Text → List Text
split_slash cur [] = cur ∷ []
split_slash cur (c ∷ s) = elim (c == b'/') [
  | true ↦ cur ∷ split_slash [] s
  | false ↦ split_slash (cur ++ (c ∷ [])) s
]

abbrev pub all_of : (Text → Bool) → List Text → Bool
all_of test [] = true
all_of test (x ∷ xs) = test x && all_of test xs

-- the decimal digits of a number, on fuel; a number has fewer digits than its value and one
abbrev pub digits : ℕ → ℕ → Text → Text
digits zero n after = after
digits (suc fuel) n after =
    let rest = digits fuel (n / 10) ((48 + n % 10) ∷ after) in
    if ltb n 10 then (48 + n) ∷ after else rest

-- `str(n)`
abbrev pub show_int : ℤ → Text
show_int (pos n) = digits (n + 1) n []
show_int (negsuc n) = b'-' ∷ digits (n + 2) (n + 1) []

module _ (is_identifier : Text → Bool) (is_lower : ℕ → Bool) where
  -- `segments[0] and segments[0][0].islower()`
  abbrev pub starts_lower : List Text → Bool
  starts_lower ((c ∷ s) ∷ segments) = is_lower c
  starts_lower _ = false

  unfoldable pub is_bare_atom : Text → Bool
  is_bare_atom [] = false
  is_bare_atom (c ∷ name) =
      let segments = split_slash [] (c ∷ name) in
      starts_lower segments && all_of is_identifier segments

  unfoldable pub quote_atom_if_needed : Text → Text
  quote_atom_if_needed name = if is_bare_atom name then name else quoted 39 name

  -- `serialize`, and `', '.join(serialize(g) for g in goals)`
  unfoldable mutual
    unfolding quote_atom_if_needed

    pub serialize : Goal → Text
    serialize (pg_atom name) = quote_atom_if_needed name
    serialize (pg_string s) = quote_string s
    serialize (pg_var name) = name
    serialize (pg_int n) = show_int n
    serialize (pg_call functor args) =
        quote_atom_if_needed functor ++ (b'(' ∷ (serialize_all args ++ (b')' ∷ [])))
    serialize (pg_list items) = b'[' ∷ (serialize_all items ++ (b']' ∷ []))
    serialize (pg_seq goals) = serialize_all goals

    pub serialize_all : Goals → Text
    serialize_all no_goals = []
    serialize_all (goal g no_goals) = serialize g
    serialize_all (goal g (goal h gs)) = serialize g ++ (b',' ∷ 32 ∷ serialize_all (goal h gs))
