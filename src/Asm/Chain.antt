-- ===== src/Asm/Chain.antt =====
-- `emit`, `to_prolog_term`, `to_prolog` and the round trip of bpd/tools/asm_pcode.py.
use llama_tov.Prelude.{
  ℕ, suc, ◌+◌, Option, none, some, List, [], ◌∷◌, ◌++◌, ◌==◌, if◌then◌else◌, Result, ◌>>=◌,
  type_error, ok, err,
}
use llama_tov.Prelude.Int.{ℤ, pos, negsuc}
use llama_tov.Unroll.{Operand, absent, other, imm, addr, reg, imm_sym, symbol, mem, Insn}
use llama_tov.Asm.Numbers.{Text, rstrip, number_text, hex}
use llama_tov.Asm.Operand.{parse_operand, emit_operand}

-- `str(v)`
abbrev pub decimal : ℤ → Text
decimal (pos n) = number_text 10 n
decimal (negsuc n) = b'-' ∷ number_text 10 (n + 1)

-- `sep.join(texts)`
abbrev pub join_with : Text → List Text → Text
join_with sep [] = []
join_with sep (t ∷ []) = t
join_with sep (t ∷ u ∷ ts) = t ++ (sep ++ join_with sep (u ∷ ts))

abbrev pub map_all : {A B : Type 0} → (A → Result B) → List A → Result (List B)
map_all f [] = ok []
map_all f (a ∷ rest) = do b ← f a; bs ← map_all f rest; ok (b ∷ bs)

-- one line of `emit`
unfoldable pub emit_insn : Insn → Result Text
emit_insn insn = do
  ops ← map_all emit_operand insn.ops
  ok (rstrip (insn.mnem ++ (b' ' ∷ join_with (b',' ∷ b' ' ∷ []) ops)))

-- `emit`
unfoldable pub emit : List Insn → Result Text
emit chain = do lines ← map_all emit_insn chain; ok (join_with (10 ∷ []) lines)

-- `name or 'none'`
abbrev pub or_none : Option Text → Text
or_none none = b'n' ∷ b'o' ∷ b'n' ∷ b'e' ∷ []
or_none (some []) = b'n' ∷ b'o' ∷ b'n' ∷ b'e' ∷ []
or_none (some (c ∷ s)) = c ∷ s

abbrev pub term : Text → Text → Text
term functor arguments = functor ++ (b'(' ∷ arguments ++ (b')' ∷ []))

abbrev pub in_quotes : Text → Text
in_quotes s = b'\'' ∷ s ++ (b'\'' ∷ [])

-- `to_prolog_term`
unfoldable pub to_prolog_term : Operand → Result Text
to_prolog_term absent = err type_error
to_prolog_term (reg name) = ok (term (b'r' ∷ b'e' ∷ b'g' ∷ []) name)
to_prolog_term (imm v) = ok (term (b'i' ∷ b'm' ∷ b'm' ∷ []) (decimal v))
to_prolog_term (imm_sym v) =
    ok (term (b'i' ∷ b'm' ∷ b'm' ∷ b'_' ∷ b's' ∷ b'y' ∷ b'm' ∷ []) (in_quotes v))
to_prolog_term (addr a) = ok (term (b'a' ∷ b'd' ∷ b'd' ∷ b'r' ∷ []) (decimal a))
to_prolog_term (symbol s) = ok (term (b's' ∷ b'y' ∷ b'm' ∷ []) (in_quotes s))
to_prolog_term (mem disp base idx scale) = ok (
    term (b'm' ∷ b'e' ∷ b'm' ∷ []) (
      join_with (b',' ∷ [])
        (decimal disp ∷ or_none base ∷ or_none idx ∷ number_text 10 scale ∷ [])))
to_prolog_term other = ok (b'u' ∷ b'n' ∷ b'k' ∷ b'n' ∷ b'o' ∷ b'w' ∷ b'n' ∷ [])

-- `mnem.replace('.', '_')`
abbrev pub underscored : Text → Text
underscored [] = []
underscored (c ∷ s) = (if c == b'.' then b'_' else c) ∷ underscored s

abbrev pub fact_text : ℕ → Insn → List Text → Text
fact_text n insn ops =
    let arguments =
      number_text 10 n
      ∷ hex (pos insn.address)
      ∷ underscored insn.mnem
      ∷ (b'[' ∷ join_with (b',' ∷ []) ops ++ (b']' ∷ []))
      ∷ [] in
    term (b'p' ∷ b'c' ∷ b'o' ∷ b'd' ∷ b'e' ∷ []) (join_with (b',' ∷ b' ' ∷ []) arguments)
    ++ (b'.' ∷ [])

abbrev pub fact : ℕ → Insn → Result Text
fact n insn = do ops ← map_all to_prolog_term insn.ops; ok (fact_text n insn ops)

abbrev pub facts_from : ℕ → List Insn → Result (List Text)
facts_from n [] = ok []
facts_from n (insn ∷ chain) = do f ← fact n insn; rest ← facts_from (suc n) chain; ok (f ∷ rest)

-- `to_prolog`
unfoldable pub to_prolog : List Insn → Result Text
to_prolog chain = do facts ← facts_from 0 chain; ok (join_with (10 ∷ []) facts)

abbrev pub reparse : Operand → Result Operand
reparse o = do t ← emit_operand o; parse_operand t

abbrev pub relift_insn : Insn → Result Insn
relift_insn insn = do
  ops ← map_all reparse insn.ops
  ok (record { address = insn.address; mnem = insn.mnem; ops = ops })

-- `relifted` of the mode `roundtrip`
unfoldable pub relift : List Insn → Result (List Insn)
relift chain = map_all relift_insn chain
