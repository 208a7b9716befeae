-- ===== src/Asm/Operand.antt =====
-- `parse_operand` and `emit_operand` of bpd/tools/asm_pcode.py. The regular expressions need no
-- backtracking: behind each of their repetitions stands a character that it does not take.
use llama_tov.Prelude.{
  ℕ, Bool, true, false, ◌&&◌, Option, none, some, [], ◌∷◌, ◌++◌, ◌==◌, if◌then◌else◌, Result, ◌>>=◌,
  value_error, type_error, ok, err,
}
use mathlib.Core.Option
use llama_tov.Prelude.Int.{ℤ, pos}
use llama_tov.Unroll.{Operand, absent, other, imm, addr, reg, imm_sym, symbol, mem, nonzero}
use llama_tov.Asm.Numbers.{
  Text, is_digit, is_hex, is_word, strip, number_text, hex, read_digits, int_of_text,
}

-- the longest beginning whose characters pass, and the rest
abbrev pub span : (ℕ → Bool) → Text → Text × Text
span test [] = ([], [])
span test (c ∷ s) = let rest = span test s in if test c then (c ∷ rest.0, rest.1) else ([], c ∷ s)

abbrev pub is_empty : Text → Bool
is_empty [] = true
is_empty (c ∷ s) = false

-- a repetition of one or more
abbrev pub some_run : (ℕ → Bool) → Text → Option (Text × Text)
some_run test s = let run = span test s in if is_empty run.0 then none else some run

-- `0x[0-9a-f]+`
abbrev pub hex_run : Text → Option (Text × Text)
hex_run (c ∷ d ∷ s) =
    if c == b'0' && d == b'x'
    then Option.map (λ r. (c ∷ d ∷ r.0, r.1)) (some_run is_hex s)
    else none
hex_run _ = none

-- `0x[0-9a-f]+|\d+`
abbrev pub unsigned_run : Text → Option (Text × Text)
unsigned_run s = elim (hex_run s) [ some r ↦ some r | none ↦ some_run is_digit s ]

-- `-?0x[0-9a-f]+|-?\d+`
abbrev pub number_run : Text → Option (Text × Text)
number_run [] = none
number_run (c ∷ s) =
    if c == b'-' then Option.map (λ r. (c ∷ r.0, r.1)) (unsigned_run s) else unsigned_run (c ∷ s)

-- `%\w+`
abbrev pub register_run : Text → Option (Text × Text)
register_run [] = none
register_run (c ∷ s) = if c == b'%' then some_run is_word s else none

-- a group that may be missing
abbrev pub optional : Option (Text × Text) → Text → Option Text × Text
optional (some r) s = (some r.0, r.1)
optional none s = (none, s)

-- what stands behind one character
abbrev pub behind : ℕ → Text → Option Text
behind q [] = none
behind q (c ∷ s) = if c == q then some s else none

abbrev pub behind_comma : (Text → Option (Text × Text)) → Text → Option (Text × Text)
behind_comma run s = elim (behind b',' s) [ some t ↦ run t | none ↦ none ]

-- the groups of the memory operand, the registers without their %
pub record MemText : Type 0 where
  pub disp : Option Text
  pub base : Text
  pub idx : Option Text
  pub scale : Option Text

-- the closing parenthesis, behind the scale
abbrev pub mem_close : Option Text → Text → Option Text → Option Text × Text → Option MemText
mem_close disp base idx scale = elim (behind b')' scale.1) [
  | some after ↦ some (record { disp = disp; base = base; idx = idx; scale = scale.0 })
  | none ↦ none
]

-- from the index, and from the scale
abbrev pub mem_scale : Option Text → Text → Option Text × Text → Option MemText
mem_scale disp base idx =
    mem_close disp base idx.0 (optional (behind_comma (some_run is_digit) idx.1) idx.1)

abbrev pub mem_tail : Option Text → Text → Text → Option MemText
mem_tail disp base s = mem_scale disp base (optional (behind_comma register_run s) s)

-- from the parenthesis on, behind the displacement
abbrev pub mem_base : Option Text × Text → Option MemText
mem_base disp = elim (behind b'(' disp.1) [
  | none ↦ none
  | some inner ↦ elim (register_run inner) [
    | none ↦ none
    | some base ↦ mem_tail disp.0 base.0 base.1
  ]
]

-- `re.match` of the memory operand: what follows the closing parenthesis is not read
abbrev pub mem_match : Text → Option MemText
mem_match s = mem_base (optional (number_run s) s)

-- `int(v, 0)` where ValueError is not caught
abbrev pub int_or_raise : Text → Result ℤ
int_or_raise v = elim (int_of_text v) [ some n ↦ ok n | none ↦ err value_error ]

-- `int(m.group(4)) if m.group(4) else 1`
abbrev pub scale_of : Option Text → ℕ
scale_of none = 1
scale_of (some v) = elim (read_digits 10 0 false v) [ some n ↦ n | none ↦ 1 ]

abbrev pub disp_of : Option Text → Result ℤ
disp_of none = ok (pos 0)
disp_of (some v) = int_or_raise v

abbrev pub mem_of : MemText → Result Operand
mem_of m = do disp ← disp_of m.disp; ok (mem disp (some m.base) m.idx (scale_of m.scale))

-- `^-?0x[0-9a-f]+$` or `^-?\d+$`
abbrev pub is_number : Text → Bool
is_number s = elim (number_run s) [ some r ↦ is_empty r.1 | none ↦ false ]

abbrev pub parse_plain : Text → Result Operand
parse_plain s = elim (mem_match s) [
  | some m ↦ mem_of m
  | none ↦
      let number = (do n ← int_or_raise s; ok (addr n)) in
      if is_number s then number else ok (symbol s)
]

abbrev pub parse_stripped : Text → Result Operand
parse_stripped [] = ok absent
parse_stripped (c ∷ s) =
    let immediate : Result Operand = elim (int_of_text s) [
      | some v ↦ ok (imm v)
      | none ↦ ok (imm_sym s)
    ] in
    if c == b'%' then ok (reg s) else if c == b'$' then immediate else parse_plain (c ∷ s)

-- `parse_operand`
unfoldable pub parse_operand : Text → Result Operand
parse_operand op = parse_stripped (strip op)

-- a base or an index, `,%` and its scale behind it; an empty name is no name
abbrev pub base_text : Option Text → Text
base_text none = []
base_text (some []) = []
base_text (some (c ∷ s)) = b'%' ∷ c ∷ s

abbrev pub idx_text : Option Text → ℕ → Text
idx_text none scale = []
idx_text (some []) scale = []
idx_text (some (c ∷ s)) scale = b',' ∷ b'%' ∷ c ∷ s ++ (b',' ∷ number_text 10 scale)

-- `emit_operand`
unfoldable pub emit_operand : Operand → Result Text
emit_operand absent = err type_error
emit_operand (reg name) = ok (b'%' ∷ name)
emit_operand (imm v) = ok (b'$' ∷ hex v)
emit_operand (imm_sym v) = ok (b'$' ∷ v)
emit_operand (addr a) = ok (hex a)
emit_operand (symbol s) = ok s
emit_operand (mem disp base idx scale) =
    let d = if nonzero disp then hex disp else [] in
    ok (d ++ (b'(' ∷ base_text base ++ (idx_text idx scale ++ (b')' ∷ []))))
emit_operand other = ok (b'?' ∷ [])
