-- ===== src/Asm/RoundTrip.antt =====
-- What `emit_operand` prints of an operand that `parse_operand` returned parses to it again.
use llama_tov.Prelude.{
  ℕ, ◌≡◌, refl, sym, ap, ◌∙◌, subst, ◌⊎◌, inl, inr, true, false, Option, none, some, [], ◌∷◌, arith,
  ◌==◌, ==_iff, Bool-cases, Option-cases, either_way, either_holds, Result, ◌>>=◌, OnOk, bind-OnOk,
  ok,
}
use llama_tov.Prelude.Int.{ℤ, pos, negsuc}
use llama_tov.Unroll.{Operand, absent, imm, addr, reg, imm_sym, symbol, mem}
use llama_tov.Asm.Numbers.{Text, is_word, strip, hex, int_of_text}
use llama_tov.Asm.HexText.{strip-NoSpace, strip-strip, hex-NoSpace, int-hex}
use llama_tov.Asm.Operand.{
  MemText, mem_match, mem_of, is_number, parse_plain, parse_stripped, parse_operand, emit_operand,
  int_or_raise, scale_of, disp_of,
}
use llama_tov.Asm.Runs.{Name, OnSome, Registers, mem_match-Registers, number_run-hex}
use llama_tov.Asm.Closed.{Closed, plain-ScanTo, hex-NoSeparator}
use llama_tov.Asm.MemText.{Rereads, RereadsClosed, ScaleShown, mem-Rereads}

addr-Rereads : (v : ℤ) → RereadsClosed (addr v)
unfolding parse_operand emit_operand
addr-Rereads v = (
  hex v,
  refl,
  ap parse_stripped (strip-NoSpace (hex v) (hex-NoSpace v)) ∙ as_plain v,
  plain-ScanTo (pos 0) (hex v) (hex-NoSeparator v),
)
  where
    not_mem : (v : ℤ) → mem_match (hex v) ≡ none
    not_mem v = rw (mem_match, number_run-hex v) refl

    clash : false ≡ true → ⊥
    clash h = ground arith

    whole_number : (v : ℤ) → is_number (hex v) ≡ true
    whole_number v = rw (is_number, number_run-hex v) refl

    plain_hex : (v : ℤ) → parse_plain (hex v) ≡ ok (addr v)
    plain_hex v =
        rw (parse_plain, not_mem v)
          (either_way (is_number (hex v)) (λ on. rw (int_or_raise, int-hex v) refl)
            (λ off. absurd (clash (sym off ∙ whole_number v))))

    as_plain : (v : ℤ) → parse_stripped (hex v) ≡ ok (addr v)
    as_plain (pos n) = plain_hex (pos n)
    as_plain (negsuc n) = plain_hex (negsuc n)

imm-Rereads : (v : ℤ) → RereadsClosed (imm v)
unfolding parse_operand emit_operand
imm-Rereads v = (
  b'$' ∷ hex v,
  refl,
  ap parse_stripped (strip-NoSpace (b'$' ∷ hex v) (refl, hex-NoSpace v)) ∙ rw (int-hex v) refl,
  plain-ScanTo (pos 0) (b'$' ∷ hex v) (refl, hex-NoSeparator v),
)

-- an operand of which everything is printed: not the missing one, and a scale only with an index
abbrev pub Printable : Operand → Type 0
Printable absent = ⊥
Printable (mem disp base idx scale) = ScaleShown idx scale
Printable _ = Unit

-- An operand that was parsed from `s`: the printed text is `s`, or no comma in it ends an operand.
abbrev pub Reprinted : Text → Operand → Type 0
Reprinted s o =
    (t : Text) × (emit_operand o ≡ ok t) × (parse_operand t ≡ ok o) × ((t ≡ s) ⊎ Closed t)

abbrev pub RereadsIf : Text → Operand → Type 0
RereadsIf s o = Printable o → Reprinted s o

from_closed : (s : Text) (o : Operand) → RereadsClosed o → Reprinted s o
from_closed s o (t, printed, parsed, closed) = (t, printed, parsed, inr closed)

-- an operand that is printed as the text that it was parsed from
same_text :
    (s : Text) (o : Operand)
    → strip s ≡ s
    → emit_operand o ≡ ok s
    → parse_stripped s ≡ ok o
    → Reprinted s o
unfolding parse_operand
same_text s o fixed printed parsed = (s, printed, ap parse_stripped fixed ∙ parsed, inl refl)

mem-RereadsIf :
    (s : Text) (disp : ℤ) (base : Text) (idx : Option Text) (scale : ℕ)
    → Name is_word base
    → OnSome (Name is_word) idx
    → RereadsIf s (mem disp (some base) idx scale)
mem-RereadsIf s disp [] idx scale h name shown = absurd (clash h.0)
  where
    clash : true ≡ false → ⊥
    clash h = ground arith
mem-RereadsIf s disp (c ∷ b) idx scale h name shown =
    from_closed s (mem disp (some (c ∷ b)) idx scale)
      (mem-Rereads c b idx scale h.1 name shown disp)

mem_of-Rereads : (s : Text) (m : MemText) → Registers m → OnOk (RereadsIf s) (mem_of m)
mem_of-Rereads s m (base, idx) =
    bind-OnOk (RereadsIf s) (disp_of m.disp) _
      λ disp. mem-RereadsIf s disp m.base m.idx (scale_of m.scale) base idx

number-Rereads : (s : Text) → OnOk (RereadsIf s) (int_or_raise s >>= (λ n. ok (addr n)))
number-Rereads s =
    bind-OnOk (RereadsIf s) (int_or_raise s) _ λ n h. from_closed s (addr n) (addr-Rereads n)

plain-Rereads :
    (c : ℕ) (s : Text)
    → strip (c ∷ s) ≡ c ∷ s
    → (c == b'%') ≡ false
    → (c == b'$') ≡ false
    → OnOk (RereadsIf (c ∷ s)) (parse_plain (c ∷ s))
unfolding emit_operand
plain-Rereads c s fixed no_register no_immediate = elim (Option-cases (mem_match (c ∷ s))) [
  | inr (m, e) ↦
      rw (parse_plain, e)
        (mem_of-Rereads (c ∷ s) m (subst (OnSome Registers) e (mem_match-Registers (c ∷ s))))
  | inl e ↦ elim (Bool-cases (is_number (c ∷ s))) [
    | inl on ↦ rw (parse_plain, e, on) (number-Rereads (c ∷ s))
    | inr off ↦
        rw (parse_plain, e, off)
          λ h.
            same_text (c ∷ s) (symbol (c ∷ s)) fixed refl
              (rw (no_register, no_immediate) (plain_symbol e off))
  ]
]
  where
    plain_symbol :
        mem_match (c ∷ s) ≡ none
        → is_number (c ∷ s) ≡ false
        → parse_plain (c ∷ s) ≡ ok (symbol (c ∷ s))
    plain_symbol e off = rw (parse_plain, e, off) refl

stripped-Rereads : (s : Text) → strip s ≡ s → OnOk (RereadsIf s) (parse_stripped s)
unfolding emit_operand
stripped-Rereads [] fixed = λ h. elim h [ ]
stripped-Rereads (c ∷ s) fixed =
    either_holds (OnOk (RereadsIf (c ∷ s))) (c == b'%')
      (λ percent h.
        same_text (c ∷ s) (reg s) fixed
          (ap (λ c. Result.ok (c ∷ s)) (sym ((==_iff c b'%').0 percent))) (rw percent refl))
      (λ no_register.
        either_holds (OnOk (RereadsIf (c ∷ s))) (c == b'$')
          (λ dollar. elim (Option-cases (int_of_text s)) [
            | inr (v, e) ↦ rw e (λ h. from_closed (c ∷ s) (imm v) (imm-Rereads v))
            | inl e ↦ rw e (λ h.
                same_text (c ∷ s) (imm_sym s) fixed
                  (ap (λ c. Result.ok (c ∷ s)) (sym ((==_iff c b'$').0 dollar)))
                  (rw (no_register, dollar, e) refl))
          ])
          (λ no_immediate. plain-Rereads c s fixed no_register no_immediate))

-- the printed text, and how it was found
pub parse_operand-Reprinted :
    (op : Text) (o : Operand) → parse_operand op ≡ ok o → Printable o → Reprinted (strip op) o
unfolding parse_operand
parse_operand-Reprinted op o parsed printable =
    OnOk-value (stripped-Rereads (strip op) (strip-strip op)) parsed printable
  where
    OnOk-value :
        {m : Result Operand} {o : Operand}
        → OnOk (RereadsIf (strip op)) m
        → m ≡ ok o
        → RereadsIf (strip op) o
    OnOk-value h e = rw e at h

-- Whatever text `parse_operand` reads: if it returns an operand, which is not None and has no scale
-- without an index, `emit_operand` prints it, and parsing what is printed returns the same operand.
pub parse-emit : (op : Text) (o : Operand) → parse_operand op ≡ ok o → Printable o → Rereads o
parse-emit op o parsed printable =
    let (t, printed, again, shape) = parse_operand-Reprinted op o parsed printable in
    (t, printed, again)
