-- ===== src/Asm/HexText.antt =====
-- What `int` reads from the digits that `hex` and `str` print.
use llama_tov.Prelude.{
  ℕ, zero, suc, ◌+◌, ◌-◌, ◌*◌, ◌/◌, ◌%◌, ◌≤◌, ◌<◌, ◌≡◌, refl, sym, ap, ◌∙◌, subst, inl, inr, Bool,
  true, false, Option, some, [], ◌∷◌, ◌++◌, arith, ltb, ◌==◌, ltb→lt, lt→ltb, Bool-cases,
  either_holds, AllOf,
}
use native.Mathlib.Nat.{div-add-mod', mod-lt, div-lt_self}
use llama_tov.Prelude.Int.{ℤ, pos, negsuc}
use llama_tov.Asm.Numbers.{
  lstrip, rstrip, unless_last, Text, is_space, is_digit, is_hex, between, strip, digit_char, digits,
  number_text, hex, digit_value, read_digits, read_prefixed, int_of_text, negate,
}

digit_value-char : (v : ℕ) → v < 16 → digit_value (digit_char v) ≡ some v
digit_value-char v h =
    either_holds (λ c. digit_value c ≡ some v) (ltb v 10)
      (λ small.
        let low : is_digit (48 + v) ≡ true = ground arith in
        let same : 48 + v - 48 ≡ v = omega arith in rw (low, same) refl)
      (λ large.
        let high : is_digit (87 + v) ≡ false = ground arith in
        let letter : between 97 122 (87 + v) ≡ true = ground arith in
        let same : 87 + v - 87 ≡ v = omega arith in rw (high, letter, same) refl)

digit_char-hex : (v : ℕ) → v < 16 → is_hex (digit_char v) ≡ true
digit_char-hex v h = ground arith

digit_char-digit : (v : ℕ) → v < 10 → is_digit (digit_char v) ≡ true
digit_char-digit v h = ground arith

hex-no_space : (c : ℕ) → is_hex c ≡ true → is_space c ≡ false
hex-no_space c h = ground arith

digit_char-no_underscore : (v : ℕ) → v < 16 → (digit_char v == b'_') ≡ false
digit_char-no_underscore v h = ground arith

hex-no_underscore : (c : ℕ) → is_hex c ≡ true → (c == b'_') ≡ false
hex-no_underscore c h = ground arith

-- one digit more
read_digits-digit :
    (base acc v : ℕ) (after_digit : Bool) (s : Text)
    → base ≤ 16
    → v < base
    → read_digits base acc after_digit (digit_char v ∷ s) ≡ read_digits base (acc * base + v) true s
read_digits-digit base acc v after_digit s le lt =
    rw
      (
        digit_char-no_underscore v (omega (arith, le, lt)),
        digit_value-char v (omega (arith, le, lt)),
        lt→ltb v base lt,
      )
      refl

read_digits-digits :
    (base fuel n : ℕ) (after : Text)
    → 1 < base
    → base ≤ 16
    → n < fuel
    → read_digits base 0 false (digits base fuel n after) ≡ read_digits base n true after
read_digits-digits base zero n after two le lt = elim lt [ ]
read_digits-digits base (suc fuel) n after two le lt = elim (Bool-cases (ltb n base)) [
  | inl small ↦
      let none_before : 0 * base + n ≡ n = omega arith in
      rw small (
        read_digits-digit base 0 n false after le (ltb→lt n base small)
        ∙ ap (λ m. read_digits base m true after) none_before)
  | inr large ↦
      let above : 0 < base = omega (arith, two) in
      let big : 0 < n = ground arith in
      let smaller : n / base < n = div-lt_self big two in
      rw large (
        read_digits-digits base fuel (n / base) (digit_char (n % base) ∷ after) two le
          (omega (arith, smaller, lt))
        ∙ read_digits-digit base (n / base) (n % base) true after le (mod-lt n above)
        ∙ ap (λ m. read_digits base m true after) (div-add-mod' n base))
]

-- what every digit satisfies
digits-AllOf :
    (P : ℕ → Type 0) (base fuel n : ℕ) (after : Text)
    → ((v : ℕ) → v < base → P (digit_char v))
    → 0 < base
    → AllOf P after
    → AllOf P (digits base fuel n after)
digits-AllOf P base zero n after each above h = h
digits-AllOf P base (suc fuel) n after each above h =
    either_holds (AllOf P) (ltb n base) (λ small. (each n (ltb→lt n base small), h))
      (λ large.
        digits-AllOf P base fuel (n / base) _ each above (each (n % base) (mod-lt n above), h))

-- the digits stand before what follows
digits-append :
    (base fuel n : ℕ) (after more : Text)
    → digits base fuel n after ++ more ≡ digits base fuel n (after ++ more)
digits-append base zero n after more = refl
digits-append base (suc fuel) n after more = elim (Bool-cases (ltb n base)) [
  | inl small ↦ rw small refl
  | inr large ↦ rw large (digits-append base fuel (n / base) (digit_char (n % base) ∷ after) more)
]

pub hex_digits : (n : ℕ) → AllOf (λ c. is_hex c ≡ true) (number_text 16 n)
hex_digits n = digits-AllOf (λ c. is_hex c ≡ true) 16 (n + 1) n [] digit_char-hex (omega arith) tt

pub decimal_digits : (n : ℕ) → AllOf (λ c. is_digit c ≡ true) (number_text 10 n)
decimal_digits n =
    digits-AllOf (λ c. is_digit c ≡ true) 10 (n + 1) n [] digit_char-digit (omega arith) tt

digits-cons :
    (base fuel n c : ℕ) (s : Text) → (d : ℕ) × (t : Text) × (digits base fuel n (c ∷ s) ≡ d ∷ t)
digits-cons base zero n c s = (c, s, refl)
digits-cons base (suc fuel) n c s = elim (Bool-cases (ltb n base)) [
  | inl small ↦ (digit_char n, c ∷ s, rw small refl)
  | inr large ↦
      let (d, t, e) = digits-cons base fuel (n / base) (digit_char (n % base)) (c ∷ s) in
      (d, t, rw large e)
]

-- there is at least one digit
pub number_text-cons : (base n : ℕ) → (d : ℕ) × (t : Text) × (number_text base n ≡ d ∷ t)
number_text-cons base n = first (n + 1) (omega arith)
  where
    first : (fuel : ℕ) → 0 < fuel → (d : ℕ) × (t : Text) × (digits base fuel n [] ≡ d ∷ t)
    first zero h = elim h [ ]
    first (suc fuel) h = elim (Bool-cases (ltb n base)) [
      | inl small ↦ (digit_char n, [], rw small refl)
      | inr large ↦
          let (d, t, e) = digits-cons base fuel (n / base) (digit_char (n % base)) [] in
          (d, t, rw large e)
    ]

pub read_decimal_text : (n : ℕ) → read_digits 10 0 false (number_text 10 n) ≡ some n
read_decimal_text n = read_digits-digits 10 (n + 1) n [] (omega arith) (omega arith) (omega arith)

pub read_hex_text : (n : ℕ) → read_digits 16 0 false (number_text 16 n) ≡ some n
read_hex_text n = read_digits-digits 16 (n + 1) n [] (omega arith) (omega arith) (omega arith)

-- texts without white space are not stripped
abbrev pub NoSpace : ℕ → Type 0
NoSpace c = is_space c ≡ false

rstrip-NoSpace : (s : Text) → AllOf NoSpace s → rstrip s ≡ s
rstrip-NoSpace [] h = refl
rstrip-NoSpace (c ∷ []) h = rw h.0 refl
rstrip-NoSpace (c ∷ d ∷ s) h = rw (rstrip-NoSpace (d ∷ s) h.1) refl

pub strip-NoSpace : (s : Text) → AllOf NoSpace s → strip s ≡ s
strip-NoSpace [] h = refl
strip-NoSpace (c ∷ s) h = rw h.0 (rstrip-NoSpace (c ∷ s) h)

pub AllOf-map : (P Q : ℕ → Type 0) (s : Text) → ((c : ℕ) → P c → Q c) → AllOf P s → AllOf Q s
AllOf-map P Q [] f h = tt
AllOf-map P Q (c ∷ s) f h = (f c h.0, AllOf-map P Q s f h.1)

pub hex-NoSpace : (v : ℤ) → AllOf NoSpace (hex v)
hex-NoSpace (pos n) =
    (refl, (refl, AllOf-map _ NoSpace (number_text 16 n) hex-no_space (hex_digits n)))
hex-NoSpace (negsuc n) = (
  refl,
  (refl, (refl, AllOf-map _ NoSpace (number_text 16 (n + 1)) hex-no_space (hex_digits (n + 1)))),
)

read_prefixed-text : (n : ℕ) → read_prefixed 16 (number_text 16 n) ≡ some n
read_prefixed-text n =
    let (d, t, e) = number_text-cons 16 n in
    let all = subst (AllOf (λ c. is_hex c ≡ true)) e (hex_digits n) in
    let plain : (d == b'_') ≡ false = hex-no_underscore d all.0 in
    rw e (rw plain (ap (read_digits 16 0 false) (sym e) ∙ read_hex_text n))

-- `int(hex(v), 0)`
pub int-hex : (v : ℤ) → int_of_text (hex v) ≡ some v
int-hex (pos n) = rw (strip-NoSpace (hex (pos n)) (hex-NoSpace (pos n)), read_prefixed-text n) refl
int-hex (negsuc n) =
    let one_more : n + 1 ≡ suc n = omega arith in
    rw (strip-NoSpace (hex (negsuc n)) (hex-NoSpace (negsuc n)), read_prefixed-text (n + 1))
      (ap (λ m. Option.some (negate m)) one_more)

unless_last-twice : (c : ℕ) (s : Text) → rstrip s ≡ s → rstrip (unless_last c s) ≡ unless_last c s
unless_last-twice c [] h = elim (Bool-cases (is_space c)) [
  | inl space ↦ rw space refl
  | inr plain ↦ rw plain (rw plain refl)
]
unless_last-twice c (d ∷ s) h = rw h refl

rstrip-rstrip : (s : Text) → rstrip (rstrip s) ≡ rstrip s
rstrip-rstrip [] = refl
rstrip-rstrip (c ∷ s) = unless_last-twice c (rstrip s) (rstrip-rstrip s)

-- a character that is no white space stays in front
lstrip-unless_last :
    (c : ℕ) (s : Text) → is_space c ≡ false → lstrip (unless_last c s) ≡ unless_last c s
lstrip-unless_last c [] h = rw h (rw h refl)
lstrip-unless_last c (d ∷ s) h = rw h refl

lstrip-strip : (s : Text) → lstrip (strip s) ≡ strip s
lstrip-strip [] = refl
lstrip-strip (c ∷ s) = elim (Bool-cases (is_space c)) [
  | inl space ↦ rw space (lstrip-strip s)
  | inr plain ↦ rw plain (lstrip-unless_last c (rstrip s) plain)
]

pub strip-strip : (s : Text) → strip (strip s) ≡ strip s
strip-strip s = ap rstrip (lstrip-strip s) ∙ rstrip-rstrip (lstrip s)
