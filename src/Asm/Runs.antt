-- ===== src/Asm/Runs.antt =====
-- What the repetitions of the regular expressions take.
use llama_tov.Prelude.{
  ℕ, ◌+◌, ◌≡◌, refl, ap, subst, inl, inr, Bool, true, false, Option, none, some, [], ◌∷◌, ◌++◌,
  ◌==◌, Bool-cases, either_holds, AllOf,
}
use mathlib.Core.Option
use llama_tov.Prelude.Int.{ℤ, pos, negsuc}
use llama_tov.Asm.Numbers.{Text, is_digit, is_hex, is_word, number_text, hex}
use llama_tov.Asm.HexText.{hex_digits, number_text-cons}
use llama_tov.Asm.Operand.{
  unsigned_run, unsigned_run, span, is_empty, some_run, unsigned_run, number_run, register_run,
  optional, behind, behind_comma, MemText, mem_tail, mem_match,
}

-- the characters of a text pass a test
abbrev pub Pass : (ℕ → Bool) → Text → Type 0
Pass test = AllOf (λ c. test c ≡ true)

pub AllOf-append : (P : ℕ → Type 0) (xs ys : Text) → AllOf P xs → AllOf P ys → AllOf P (xs ++ ys)
AllOf-append P [] ys h k = k
AllOf-append P (x ∷ xs) ys h k = (h.0, AllOf-append P xs ys h.1 k)

span-stop :
    (test : ℕ → Bool) (s : Text) (q : ℕ) (after : Text)
    → Pass test s
    → test q ≡ false
    → span test (s ++ (q ∷ after)) ≡ (s, q ∷ after)
span-stop test [] q after h stop = rw stop refl
span-stop test (c ∷ s) q after h stop = rw (h.0, span-stop test s q after h.1 stop) refl

-- a repetition takes all of a text before a character that it does not take
pub some_run-stop :
    (test : ℕ → Bool) (c : ℕ) (s : Text) (q : ℕ) (after : Text)
    → Pass test (c ∷ s)
    → test q ≡ false
    → some_run test (c ∷ s ++ (q ∷ after)) ≡ some (c ∷ s, q ∷ after)
some_run-stop test c s q after h stop = rw (span-stop test (c ∷ s) q after h stop) refl

span-end : (test : ℕ → Bool) (s : Text) → Pass test s → span test s ≡ (s, [])
span-end test [] h = refl
span-end test (c ∷ s) h = rw (h.0, span-end test s h.1) refl

-- a name: characters that pass, at least one
abbrev pub Name : (ℕ → Bool) → Text → Type 0
Name test s = (is_empty s ≡ false) × Pass test s

span-Pass : (test : ℕ → Bool) (s : Text) → Pass test (span test s).0
span-Pass test [] = tt
span-Pass test (c ∷ s) =
    either_holds (λ (r : Text × Text). Pass test r.0) (test c) (λ on. (on, span-Pass test s))
      (λ off. tt)

abbrev pub OnSome : {A : Type 0} → (A → Type 0) → Option A → Type 0
OnSome P none = Unit
OnSome P (some a) = P a

some_run-Name : (test : ℕ → Bool) (s : Text) → OnSome (λ r. Name test r.0) (some_run test s)
some_run-Name test s = elim (Bool-cases (is_empty (span test s).0)) [
  | inl gone ↦ rw gone tt
  | inr there ↦ rw there (there, span-Pass test s)
]

register_run-Name : (s : Text) → OnSome (λ r. Name is_word r.0) (register_run s)
register_run-Name [] = tt
register_run-Name (c ∷ s) =
    either_holds (OnSome (λ r. Name is_word r.0)) (c == b'%') (λ on. some_run-Name is_word s)
      (λ off. tt)

-- the registers of a memory operand
abbrev pub Registers : MemText → Type 0
Registers m = Name is_word m.base × OnSome (Name is_word) m.idx

optional-Name :
    (run : Option (Text × Text)) (s : Text)
    → OnSome (λ r. Name is_word r.0) run
    → OnSome (Name is_word) (optional run s).0
optional-Name none s h = tt
optional-Name (some r) s h = h

OnSome-chain :
    {A B : Type 0} (Q : A → Type 0) (P : B → Type 0) (o : Option A) (f : A → Option B)
    → OnSome Q o
    → ((a : A) → Q a → OnSome P (f a))
    → OnSome P (elim o as (λ x. Option B) [ some a ↦ f a | none ↦ none ])
OnSome-chain Q P none f h each = tt
OnSome-chain Q P (some a) f h each = each a h

anything : {A : Type 0} (o : Option A) → OnSome (λ a. Unit) o
anything none = tt
anything (some a) = tt

comma-Name : (s : Text) → OnSome (λ r. Name is_word r.0) (behind_comma register_run s)
comma-Name s =
    OnSome-chain (λ t. Unit) (λ r. Name is_word r.0) (behind b',' s) register_run
      (anything (behind b',' s)) (λ t h. register_run-Name t)

mem_tail-Registers :
    (disp : Option Text) (base s : Text)
    → Name is_word base
    → OnSome Registers (mem_tail disp base s)
mem_tail-Registers disp base s h =
    let idx = optional (behind_comma register_run s) s in
    let scale = optional (behind_comma (some_run is_digit) idx.1) idx.1 in
    OnSome-chain (λ t. Unit) Registers (behind b')' scale.1) _ (anything (behind b')' scale.1))
      (λ t k. (h, optional-Name (behind_comma register_run s) s (comma-Name s)))

pub mem_match-Registers : (s : Text) → OnSome Registers (mem_match s)
mem_match-Registers s =
    let disp = optional (number_run s) s in
    OnSome-chain (λ t. Unit) Registers (behind b'(' disp.1) _ (anything (behind b'(' disp.1))
      (λ inner k.
        OnSome-chain (λ r. Name is_word r.0) Registers (register_run inner) _
          (register_run-Name inner) (λ base h. mem_tail-Registers disp.0 base.0 base.1 h))

hex_text_stop :
    (n : ℕ) (after : Text)
    → some_run is_hex (number_text 16 n ++ (b'(' ∷ after)) ≡ some (number_text 16 n, b'(' ∷ after)
hex_text_stop n after =
    let (d, t, e) = number_text-cons 16 n in
    let all = subst (Pass is_hex) e (hex_digits n) in
    rw e (some_run-stop is_hex d t b'(' after all refl)

hex_text_end : (n : ℕ) → some_run is_hex (number_text 16 n) ≡ some (number_text 16 n, [])
hex_text_end n =
    let (d, t, e) = number_text-cons 16 n in
    let all = subst (Pass is_hex) e (hex_digits n) in rw e (rw (span-end is_hex (d ∷ t) all) refl)

unsigned_run-hex :
    (s : Text) (r : Text × Text)
    → some_run is_hex s ≡ some r
    → unsigned_run (b'0' ∷ b'x' ∷ s) ≡ some (b'0' ∷ b'x' ∷ r.0, r.1)
unsigned_run-hex s r e = rw (unsigned_run, e) refl

-- `hex` before a parenthesis, and at the end
pub number_run-hex_paren :
    (v : ℤ) (after : Text) → number_run (hex v ++ (b'(' ∷ after)) ≡ some (hex v, b'(' ∷ after)
number_run-hex_paren (pos n) after =
    unsigned_run-hex (number_text 16 n ++ (b'(' ∷ after)) _ (hex_text_stop n after)
number_run-hex_paren (negsuc n) after =
    ap (Option.map (λ (r : Text × Text). (b'-' ∷ r.0, r.1)))
      (unsigned_run-hex (number_text 16 (n + 1) ++ (b'(' ∷ after)) _ (hex_text_stop (n + 1) after))

pub number_run-hex : (v : ℤ) → number_run (hex v) ≡ some (hex v, [])
number_run-hex (pos n) = unsigned_run-hex (number_text 16 n) _ (hex_text_end n)
number_run-hex (negsuc n) =
    ap (Option.map (λ (r : Text × Text). (b'-' ∷ r.0, r.1)))
      (unsigned_run-hex (number_text 16 (n + 1)) _ (hex_text_end (n + 1)))
