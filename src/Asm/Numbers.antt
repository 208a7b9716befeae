-- ===== src/Asm/Numbers.antt =====
-- Python's `strip`, `hex`, `str` and `int` on ASCII texts, as bpd/tools/asm_pcode.py calls them.
use llama_tov.Prelude.{
  ℕ, zero, suc, ◌+◌, ◌-◌, ◌*◌, ◌/◌, ◌%◌, Bool, true, false, ◌&&◌, ◌||◌, Option, none, some, List,
  [], ◌∷◌, ltb, leb, ◌==◌, if◌then◌else◌,
}
use mathlib.Core.Option
use llama_tov.Prelude.Int.{ℤ, pos, negsuc}

abbrev pub Text : Type 0
Text = List ℕ

abbrev pub between : ℕ → ℕ → ℕ → Bool
between lo hi c = leb lo c && leb c hi

abbrev pub is_space : ℕ → Bool
is_space c = between 9 13 c || between 28 32 c

abbrev pub is_digit : ℕ → Bool
is_digit c = between 48 57 c

-- `[0-9a-f]`
abbrev pub is_hex : ℕ → Bool
is_hex c = is_digit c || between 97 102 c

-- `\w`
abbrev pub is_word : ℕ → Bool
is_word c = is_digit c || between 97 122 c || between 65 90 c || c == b'_'

abbrev pub lstrip : Text → Text
lstrip [] = []
lstrip (c ∷ s) = if is_space c then lstrip s else c ∷ s

-- a character before a text without white space at its end
abbrev pub unless_last : ℕ → Text → Text
unless_last c [] = if is_space c then [] else c ∷ []
unless_last c (d ∷ s) = c ∷ d ∷ s

abbrev pub rstrip : Text → Text
rstrip [] = []
rstrip (c ∷ s) = unless_last c (rstrip s)

-- `s.strip()`
abbrev pub strip : Text → Text
strip s = rstrip (lstrip s)

abbrev pub digit_char : ℕ → ℕ
digit_char v = if ltb v 10 then 48 + v else 87 + v

-- the digits of a number, on fuel; a number has at most as many digits as its value and one
abbrev pub digits : ℕ → ℕ → ℕ → Text → Text
digits base zero n after = after
digits base (suc fuel) n after =
    let rest = digits base fuel (n / base) (digit_char (n % base) ∷ after) in
    if ltb n base then digit_char n ∷ after else rest

abbrev pub number_text : ℕ → ℕ → Text
number_text base n = digits base (n + 1) n []

-- `hex(v)`
abbrev pub hex : ℤ → Text
hex (pos n) = b'0' ∷ b'x' ∷ number_text 16 n
hex (negsuc n) = b'-' ∷ b'0' ∷ b'x' ∷ number_text 16 (n + 1)

abbrev pub digit_value : ℕ → Option ℕ
digit_value c =
    if is_digit c
    then some (c - 48)
    else if between 97 122 c
    then some (c - 87)
    else if between 65 90 c
    then some (c - 55)
    else none

-- digits with single underscores between them; the flag tells whether the last character was a digit
abbrev pub read_digits : ℕ → ℕ → Bool → Text → Option ℕ
read_digits base acc after_digit [] = if after_digit then some acc else none
read_digits base acc after_digit (c ∷ s) =
    let skipped = read_digits base acc false s in
    let value = digit_value c in
    let v : ℕ = elim value [ some v ↦ v | none ↦ base ] in
    let rest = read_digits base (acc * base + v) true s in
    if c == b'_' then if after_digit then skipped else none else if ltb v base then rest else none

-- behind `0x`, `0o` and `0b` an underscore may stand
abbrev pub read_prefixed : ℕ → Text → Option ℕ
read_prefixed base [] = none
read_prefixed base (c ∷ s) = read_digits base 0 false (if c == b'_' then s else c ∷ s)

-- without a prefix only 0 may begin with a 0
abbrev pub read_decimal : ℕ → Option ℕ → Option ℕ
read_decimal first none = none
read_decimal first (some zero) = some 0
read_decimal first (some (suc n)) = if first == b'0' then none else some (suc n)

-- a number without a sign, in base 0
abbrev pub read_number : Text → Option ℕ
read_number [] = none
read_number (c ∷ []) = read_decimal c (read_digits 10 0 false (c ∷ []))
read_number (c ∷ d ∷ s) =
    let plain = read_decimal c (read_digits 10 0 false (c ∷ d ∷ s)) in
    if c == b'0'
    then if d == b'x' || d == b'X'
      then read_prefixed 16 s
      else if d == b'o' || d == b'O'
      then read_prefixed 8 s
      else if d == b'b' || d == b'B'
      then read_prefixed 2 s
      else plain
    else plain

abbrev pub negate : ℕ → ℤ
negate zero = pos 0
negate (suc n) = negsuc n

abbrev pub read_signed : Text → Option ℤ
read_signed [] = none
read_signed (c ∷ s) =
    if c == b'-'
    then Option.map negate (read_number s)
    else if c == b'+'
    then Option.map pos (read_number s)
    else Option.map pos (read_number (c ∷ s))

-- `int(s, 0)`; `none` is ValueError
abbrev pub int_of_text : Text → Option ℤ
int_of_text s = read_signed (strip s)
