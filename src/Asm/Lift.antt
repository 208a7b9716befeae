-- ===== src/Asm/Lift.antt =====
-- `lift_from_text` of bpd/tools/asm_pcode.py. `lift` reads objdump's output in the same way.
use llama_tov.Prelude.{
  ℕ, zero, suc, Bool, true, false, ◌&&◌, ◌||◌, Option, none, some, List, [], ◌∷◌, ◌++◌, ◌==◌,
  if◌then◌else◌, Result, ◌>>=◌, ok,
}
use llama_tov.Prelude.Int.{ℤ, pos, negsuc}
use llama_tov.Unroll.{Operand, Insn}
use llama_tov.Asm.Numbers.{Text, between, is_space, is_digit, is_hex, strip, lstrip, read_digits}
use llama_tov.Asm.Operand.{span, is_empty, some_run, behind, parse_operand}

-- where `splitlines` ends a line
abbrev pub is_break : ℕ → Bool
is_break c = between 10 13 c || between 28 30 c

-- `text.splitlines()`, with the line that is being read; `\r\n` ends one line
abbrev pub lines : Bool → Text → Text → List Text
lines after_return cur [] = if is_empty cur then [] else cur ∷ []
lines after_return cur (c ∷ s) =
    let skipped = lines false cur s in
    let ended = cur ∷ lines (c == 13) [] s in
    let longer = lines false (cur ++ (c ∷ [])) s in
    if after_return && c == 10 then skipped else if is_break c then ended else longer

-- one more and one less
abbrev pub deeper : ℤ → ℤ
deeper (pos n) = pos (suc n)
deeper (negsuc zero) = pos 0
deeper (negsuc (suc n)) = negsuc n

abbrev pub shallower : ℤ → ℤ
shallower (pos zero) = negsuc 0
shallower (pos (suc n)) = pos n
shallower (negsuc n) = negsuc (suc n)

abbrev pub at_top : ℤ → Bool
at_top (pos zero) = true
at_top _ = false

abbrev pub depth_after : ℕ → ℤ → ℤ
depth_after c depth =
    if c == b'(' then deeper depth else if c == b')' then shallower depth else depth

-- the operands between the commas outside parentheses, with the one that is being read
abbrev pub split_operands : ℤ → Text → Text → List Text
split_operands depth cur [] = if is_empty cur then [] else cur ∷ []
split_operands depth cur (c ∷ s) =
    let depth' = depth_after c depth in
    let cut = cur ∷ split_operands depth' [] s in
    let longer = split_operands depth' (cur ++ (c ∷ [])) s in
    if c == b',' && at_top depth' then cut else longer

-- `s.split("#")[0]`
abbrev pub before_comment : Text → Text
before_comment [] = []
before_comment (c ∷ s) = if c == b'#' then [] else c ∷ before_comment s

abbrev pub is_mnemonic : ℕ → Bool
is_mnemonic c = between 97 122 c || is_digit c || c == b'.'

-- the mnemonic and the operands: `([a-z][a-z0-9.]*)\s*(.*)`
abbrev pub mnemonic_run : Text → Option (Text × Text)
mnemonic_run [] = none
mnemonic_run (c ∷ s) =
    let run = span is_mnemonic (c ∷ s) in
    if between 97 122 c then some (run.0, lstrip run.1) else none

-- a line's address, mnemonic and operands; the address is the digits of a hexadecimal number
abbrev pub behind_address : Text → Text → Option (Text × Text × Text)
behind_address address s = elim (behind b':' s) [
  | none ↦ none
  | some t ↦ elim (some_run is_space t) [
    | none ↦ none
    | some gap ↦ elim (mnemonic_run gap.1) [ none ↦ none | some m ↦ some (address, m.0, m.1) ]
  ]
]

abbrev pub match_line : Text → Option (Text × Text × Text)
match_line s = elim (some_run is_hex (lstrip s)) [
  | none ↦ none
  | some address ↦ behind_address address.0 address.1
]

-- `int(m.group(1), 16)` of hexadecimal digits
abbrev pub address_of : Text → ℕ
address_of s = elim (read_digits 16 0 false s) [ some n ↦ n | none ↦ 0 ]

abbrev pub parse_all : List Text → Result (List Operand)
parse_all [] = ok []
parse_all (op ∷ ops) = do o ← parse_operand op; rest ← parse_all ops; ok (o ∷ rest)

abbrev pub lift_match : Text × Text × Text → Result Insn
lift_match m = do
  ops ← parse_all (split_operands (pos 0) [] (strip (before_comment m.2)))
  ok (record { address = address_of m.0; mnem = m.1; ops = ops })

-- one line before the others: a line that does not match is passed over
abbrev pub lift_line : Option (Text × Text × Text) → Result (List Insn) → Result (List Insn)
lift_line none rest = rest
lift_line (some m) rest = do insn ← lift_match m; chain ← rest; ok (insn ∷ chain)

abbrev pub lift_lines : List Text → Result (List Insn)
lift_lines [] = ok []
lift_lines (line ∷ rest) = lift_line (match_line line) (lift_lines rest)

-- `lift_from_text`
unfoldable pub lift_from_text : Text → Result (List Insn)
lift_from_text text = lift_lines (lines false [] text)
