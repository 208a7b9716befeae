-- ===== src/Asm/Relift.antt =====
-- The round trip of a chain that `lift_from_text` returned.
use llama_tov.Prelude.{
  ◌≡◌, refl, inl, inr, false, Option, none, some, List, [], ◌∷◌, Result, OnOk, Result-cases,
  chain-OnOk, ok, AllOf,
}
use llama_tov.Prelude.Int.{pos}
use llama_tov.Unroll.{Operand, Insn}
use llama_tov.Asm.Numbers.{Text, strip}
use llama_tov.Asm.Operand.{parse_operand}
use llama_tov.Asm.MemText.{Rereads}
use llama_tov.Asm.RoundTrip.{Printable, parse-emit}
use llama_tov.Asm.Lift.{
  lines, split_operands, before_comment, match_line, parse_all, lift_match, lift_line, lift_lines,
  lift_from_text,
}
use llama_tov.Asm.Chain.{map_all, reparse, relift_insn, relift}

abbrev pub RereadsIf : Operand → Type 0
RereadsIf o = Printable o → Rereads o

abbrev pub InsnRereads : Insn → Type 0
InsnRereads insn = AllOf RereadsIf insn.ops

parse_operand-OnOk : (op : Text) → OnOk RereadsIf (parse_operand op)
parse_operand-OnOk op = elim (Result-cases (parse_operand op)) [
  | inl (o, parsed) ↦ rw parsed (parse-emit op o parsed)
  | inr (e, failed) ↦ rw failed tt
]

parse_all-OnOk : (ops : List Text) → OnOk (AllOf RereadsIf) (parse_all ops)
parse_all-OnOk [] = tt
parse_all-OnOk (op ∷ ops) =
    chain-OnOk RereadsIf (AllOf RereadsIf) (parse_operand op) _ (parse_operand-OnOk op) λ o h.
      chain-OnOk (AllOf RereadsIf) (AllOf RereadsIf) (parse_all ops) _ (parse_all-OnOk ops)
        λ rest hs. (h, hs)

lift_match-OnOk : (m : Text × Text × Text) → OnOk InsnRereads (lift_match m)
lift_match-OnOk m =
    let ops = split_operands (pos 0) [] (strip (before_comment m.2)) in
    chain-OnOk (AllOf RereadsIf) InsnRereads (parse_all ops) _ (parse_all-OnOk ops) λ parsed hs. hs

lift_line-OnOk :
    (m : Option (Text × Text × Text)) (rest : Result (List Insn))
    → OnOk (AllOf InsnRereads) rest
    → OnOk (AllOf InsnRereads) (lift_line m rest)
lift_line-OnOk none rest h = h
lift_line-OnOk (some m) rest h =
    chain-OnOk InsnRereads (AllOf InsnRereads) (lift_match m) _ (lift_match-OnOk m) λ insn here.
      chain-OnOk (AllOf InsnRereads) (AllOf InsnRereads) rest _ h λ chain hs. (here, hs)

lift_lines-OnOk : (ls : List Text) → OnOk (AllOf InsnRereads) (lift_lines ls)
lift_lines-OnOk [] = tt
lift_lines-OnOk (line ∷ ls) = lift_line-OnOk (match_line line) (lift_lines ls) (lift_lines-OnOk ls)

reparse_all :
    (ops : List Operand) → AllOf RereadsIf ops → AllOf Printable ops → map_all reparse ops ≡ ok ops
reparse_all [] h p = refl
reparse_all (o ∷ ops) h p =
    let (t, printed, parsed) = h.0 p.0 in rw (printed, parsed, reparse_all ops h.1 p.1) refl

abbrev pub InsnPrintable : Insn → Type 0
InsnPrintable insn = AllOf Printable insn.ops

relift_all :
    (chain : List Insn)
    → AllOf InsnRereads chain
    → AllOf InsnPrintable chain
    → map_all relift_insn chain ≡ ok chain
relift_all [] h p = refl
relift_all (insn ∷ chain) h p = rw (reparse_all insn.ops h.0 p.0, relift_all chain h.1 p.1) refl

-- Whatever listing is lifted: if it is lifted and no operand of the chain is None or has a scale without
-- an index, printing and parsing every operand gives the chain back.
pub lift-relift :
    (text : Text) (chain : List Insn)
    → lift_from_text text ≡ ok chain
    → AllOf InsnPrintable chain
    → relift chain ≡ ok chain
unfolding lift_from_text relift
lift-relift text chain lifted printable =
    relift_all chain (OnOk-value (lift_lines-OnOk (lines false [] text)) lifted) printable
  where
    OnOk-value :
        {m : Result (List Insn)} {chain : List Insn}
        → OnOk (AllOf InsnRereads) m
        → m ≡ ok chain
        → AllOf InsnRereads chain
    OnOk-value h e = rw e at h
