-- ===== src/Asm/Closed.antt =====
-- Texts with no comma outside parentheses, as `lift_from_text` splits operands.
use llama_tov.Prelude.{
  ℕ, zero, suc, ◌+◌, ◌≡◌, refl, sym, ap, ap₂, ◌∙◌, subst, Bool, true, false, ◌&&◌, ◌||◌, List, [],
  ◌∷◌, ◌++◌, append_assoc, append-nil, arith, ◌==◌, either_holds, AllOf,
}
use llama_tov.Prelude.Int.{ℤ, pos, negsuc}
use llama_tov.Asm.Numbers.{
  Text, is_space, is_hex, is_word, is_digit, lstrip, rstrip, unless_last, strip, number_text, hex,
}
use llama_tov.Asm.HexText.{AllOf-map, hex_digits}
use llama_tov.Asm.Operand.{is_empty}
use llama_tov.Asm.Lift.{at_top, depth_after, split_operands}

-- a comma at this depth ends an operand
abbrev pub cuts : ℕ → ℤ → Bool
cuts c depth = c == b',' && at_top (depth_after c depth)

-- a text that leads from one depth to another and is not cut
abbrev pub ScanTo : ℤ → Text → ℤ → Type 0
ScanTo d [] d' = d ≡ d'
ScanTo d (c ∷ s) d' = (cuts c d ≡ false) × ScanTo (depth_after c d) s d'

abbrev pub Closed : Text → Type 0
Closed t = ScanTo (pos 0) t (pos 0)

abbrev pub Open : Text → Type 0
Open t = (d : ℤ) × ScanTo (pos 0) t d

pub ScanTo-append : (a b d : ℤ) (s t : Text) → ScanTo a s b → ScanTo b t d → ScanTo a (s ++ t) d
ScanTo-append a b d [] t h k = subst (λ a. ScanTo a t d) (sym h) k
ScanTo-append a b d (c ∷ s) t h k = (h.0, ScanTo-append (depth_after c a) b d s t h.1 k)

-- neither a comma nor a parenthesis
abbrev pub is_separator : ℕ → Bool
is_separator c = c == b',' || c == b'(' || c == b')'

abbrev pub NoSeparator : ℕ → Type 0
NoSeparator c = is_separator c ≡ false

depth_same : (c : ℕ) (d : ℤ) → NoSeparator c → depth_after c d ≡ d
depth_same c d h =
    let left : (c == b'(') ≡ false = ground arith in
    let right : (c == b')') ≡ false = ground arith in rw (left, right) refl

not_cut : (c : ℕ) (d : ℤ) → NoSeparator c → cuts c d ≡ false
not_cut c d h = let comma : (c == b',') ≡ false = ground arith in rw comma refl

pub plain-ScanTo : (d : ℤ) (s : Text) → AllOf NoSeparator s → ScanTo d s d
plain-ScanTo d [] h = refl
plain-ScanTo d (c ∷ s) h =
    (not_cut c d h.0, subst (λ e. ScanTo e s d) (sym (depth_same c d h.0)) (plain-ScanTo d s h.1))

pub hex-plain : (c : ℕ) → is_hex c ≡ true → NoSeparator c
hex-plain c h = ground arith

pub word-plain : (c : ℕ) → is_word c ≡ true → NoSeparator c
word-plain c h = ground arith

pub digit-plain : (c : ℕ) → is_digit c ≡ true → NoSeparator c
digit-plain c h = ground arith

space-plain : (c : ℕ) → is_space c ≡ true → NoSeparator c
space-plain c h = ground arith

pub hex-NoSeparator : (v : ℤ) → AllOf NoSeparator (hex v)
hex-NoSeparator (pos n) =
    (refl, (refl, AllOf-map _ NoSeparator (number_text 16 n) hex-plain (hex_digits n)))
hex-NoSeparator (negsuc n) = (
  refl,
  (refl, (refl, AllOf-map _ NoSeparator (number_text 16 (n + 1)) hex-plain (hex_digits (n + 1)))),
)

-- white space at the ends does not count
lstrip-ScanTo : (d d' : ℤ) (s : Text) → ScanTo d s d' → ScanTo d (lstrip s) d'
lstrip-ScanTo d d' [] h = h
lstrip-ScanTo d d' (c ∷ s) h =
    either_holds (λ t. ScanTo d t d') (is_space c)
      (λ space.
        lstrip-ScanTo d d' s
          (subst (λ e. ScanTo e s d') (depth_same c d (space-plain c space)) h.1))
      (λ other. h)

unless_last-ScanTo :
    (d d' : ℤ) (c : ℕ) (s : Text) → ScanTo d (c ∷ s) d' → ScanTo d (unless_last c s) d'
unless_last-ScanTo d d' c [] h =
    either_holds (λ t. ScanTo d t d') (is_space c)
      (λ space. sym (depth_same c d (space-plain c space)) ∙ h.1) (λ other. h)
unless_last-ScanTo d d' c (e ∷ s) h = h

rstrip-ScanTo : (d d' : ℤ) (s : Text) → ScanTo d s d' → ScanTo d (rstrip s) d'
rstrip-ScanTo d d' [] h = h
rstrip-ScanTo d d' (c ∷ s) h =
    unless_last-ScanTo d d' c (rstrip s) (h.0, rstrip-ScanTo (depth_after c d) d' s h.1)

pub strip-ScanTo : (d : ℤ) (s : Text) → ScanTo (pos 0) s d → ScanTo (pos 0) (strip s) d
strip-ScanTo d s h = rstrip-ScanTo (pos 0) d (lstrip s) (lstrip-ScanTo (pos 0) d s h)

-- every operand but the last is closed
abbrev pub Pieces : List Text → Type 0
Pieces [] = Unit
Pieces (t ∷ []) = Open t
Pieces (t ∷ u ∷ ts) = Closed t × Pieces (u ∷ ts)

pub Pieces-cons : (t : Text) (ts : List Text) → Closed t → Pieces ts → Pieces (t ∷ ts)
Pieces-cons t [] h k = (pos 0, h)
Pieces-cons t (u ∷ ts) h k = (h, k)

at_top-zero : (d : ℤ) → at_top d ≡ true → d ≡ pos 0
at_top-zero (pos zero) h = refl
at_top-zero (pos (suc n)) h = absurd (clash h)
  where
    clash : false ≡ true → ⊥
    clash h = ground arith
at_top-zero (negsuc n) h = absurd (clash h)
  where
    clash : false ≡ true → ⊥
    clash h = ground arith

comma_depth : (c : ℕ) (d : ℤ) → (c == b',') ≡ true → depth_after c d ≡ d
comma_depth c d h =
    let left : (c == b'(') ≡ false = ground arith in
    let right : (c == b')') ≡ false = ground arith in rw (left, right) refl

pub split_operands-Pieces :
    (d : ℤ) (cur s : Text) → ScanTo (pos 0) cur d → Pieces (split_operands d cur s)
split_operands-Pieces d cur [] h = either_holds Pieces (is_empty cur) (λ gone. tt) (λ there. (d, h))
split_operands-Pieces d cur (c ∷ s) h =
    either_holds Pieces (cuts c d)
      (λ cut.
        let zero_depth = at_top-zero (depth_after c d) (second_of _ _ cut) in
        let same = comma_depth c d (first_of _ _ cut) in
        Pieces-cons cur _ (subst (ScanTo (pos 0) cur) (sym same ∙ zero_depth) h)
          (split_operands-Pieces (depth_after c d) [] s (sym zero_depth)))
      (λ longer.
        split_operands-Pieces (depth_after c d) (cur ++ (c ∷ [])) s
          (ScanTo-append (pos 0) d (depth_after c d) cur (c ∷ []) h (longer, refl)))
  where
    first_of : (a b : Bool) → (a && b) ≡ true → a ≡ true
    first_of a b e = ground arith

    second_of : (a b : Bool) → (a && b) ≡ true → b ≡ true
    second_of a b e = ground arith

-- a text that is not cut is read as a whole
pub split_operands-scan :
    (d d' : ℤ) (cur t s : Text)
    → ScanTo d t d'
    → split_operands d cur (t ++ s) ≡ split_operands d' (cur ++ t) s
split_operands-scan d d' cur [] s h = ap₂ (λ e u. split_operands e u s) h (sym (append-nil cur))
split_operands-scan d d' cur (c ∷ t) s h = rw h.0 (
    split_operands-scan (depth_after c d) d' (cur ++ (c ∷ [])) t s h.1
    ∙ ap (λ u. split_operands d' u s) (append_assoc cur (c ∷ []) t))
