-- ===== src/Asm/Tests.antt =====
-- Operands and lines as objdump prints them, and some that do not come back.
use llama_tov.Prelude.{◌≡◌, refl, none, some, List, [], ◌∷◌, value_error, ok, err}
use llama_tov.Prelude.Int.{pos, negsuc}
use llama_tov.Unroll.{Operand, mem, imm, addr, reg, symbol, Insn}
use llama_tov.Asm.Numbers.{Text}
use llama_tov.Asm.Operand.{parse_operand, emit_operand}
use llama_tov.Asm.Lift.{lift_from_text}
use llama_tov.Asm.Chain.{relift, to_prolog, to_prolog_term}
use llama_tov.Asm.Relift.{lift-relift}
use llama_tov.Asm.EmitSplit.{separator, emit-split}
use llama_tov.Asm.Lift.{split_operands, parse_all}
use llama_tov.Asm.Chain.{join_with, map_all}

abbrev indexed : Operand
indexed = mem (negsuc 15) (some (b'r' ∷ b'8' ∷ [])) (some (b'r' ∷ b'a' ∷ b'x' ∷ [])) 4

indexed_parses :
    parse_operand (
      b' ' ∷ b'-' ∷ b'0' ∷ b'x' ∷ b'1' ∷ b'0' ∷ b'(' ∷ b'%' ∷ b'r' ∷ b'8' ∷ b',' ∷ b'%' ∷ b'r'
      ∷ b'a' ∷ b'x' ∷ b',' ∷ b'4' ∷ b')' ∷ [])
    ≡ ok indexed
unfolding parse_operand
indexed_parses = refl

abbrev listing : Text
listing =
    (b' ' ∷ b'4' ∷ b'2' ∷ b'8' ∷ b':' ∷ b' ' ∷ b'v' ∷ b'm' ∷ b'o' ∷ b'v' ∷ b's' ∷ b's' ∷ b' ' ∷ b'-'
      ∷ b'0' ∷ b'x' ∷ b'1' ∷ b'0' ∷ b'(' ∷ b'%' ∷ b'r' ∷ b'8' ∷ b',' ∷ b'%' ∷ b'r' ∷ b'a' ∷ b'x'
      ∷ b',' ∷ b'4' ∷ b')' ∷ b',' ∷ b'%' ∷ b'x' ∷ b'm' ∷ b'm' ∷ b'0' ∷ b' ' ∷ b'#' ∷ b' ' ∷ b'8'
      ∷ 10 ∷ 10 ∷ b'4' ∷ b'2' ∷ b'e' ∷ b':' ∷ b' ' ∷ b'j' ∷ b'm' ∷ b'p' ∷ b' ' ∷ b'4' ∷ b'0' ∷ b'1'
      ∷ b' ' ∷ b'<' ∷ b'f' ∷ b'>' ∷ 10 ∷ [])

abbrev lifted : List Insn
lifted =
    record {
      address = 1064;
      mnem = (b'v' ∷ b'm' ∷ b'o' ∷ b'v' ∷ b's' ∷ b's' ∷ []);
      ops = indexed ∷ reg (b'x' ∷ b'm' ∷ b'm' ∷ b'0' ∷ []) ∷ [];
    }
    ∷ record {
      address = 1070;
      mnem = (b'j' ∷ b'm' ∷ b'p' ∷ []);
      ops = symbol (b'4' ∷ b'0' ∷ b'1' ∷ b' ' ∷ b'<' ∷ b'f' ∷ b'>' ∷ []) ∷ [];
    }
    ∷ []

listing_lifts : lift_from_text listing ≡ ok lifted
unfolding lift_from_text parse_operand
listing_lifts = refl

lift-relift_example : relift lifted ≡ ok lifted
lift-relift_example = lift-relift listing lifted listing_lifts ((tt, (tt, tt)), ((tt, tt), tt))

abbrev operands : Text
operands =
    (b'-' ∷ b'0' ∷ b'x' ∷ b'1' ∷ b'0' ∷ b'(' ∷ b'%' ∷ b'r' ∷ b'8' ∷ b',' ∷ b'%' ∷ b'r' ∷ b'a' ∷ b'x'
      ∷ b',' ∷ b'4' ∷ b')' ∷ b',' ∷ b' ' ∷ b'%' ∷ b'x' ∷ b'm' ∷ b'm' ∷ b'0' ∷ [])

operands_parse :
    parse_all (split_operands (pos 0) [] operands)
    ≡ ok (indexed ∷ reg (b'x' ∷ b'm' ∷ b'm' ∷ b'0' ∷ []) ∷ [])
unfolding parse_operand
operands_parse = refl

emit-split_example :
    (ts : List Text) × (map_all emit_operand (indexed ∷ reg (b'x' ∷ b'm' ∷ b'm' ∷ b'0' ∷ []) ∷ [])
      ≡ ok ts)
    × (parse_all (split_operands (pos 0) [] (join_with separator ts))
        ≡ ok (indexed ∷ reg (b'x' ∷ b'm' ∷ b'm' ∷ b'0' ∷ []) ∷ []))
emit-split_example =
    emit-split operands (indexed ∷ reg (b'x' ∷ b'm' ∷ b'm' ∷ b'0' ∷ []) ∷ []) operands_parse
      (tt, (tt, tt))

-- a bare jump target is read in base 10
jump_target : parse_operand (b'4' ∷ b'0' ∷ b'1' ∷ b'0' ∷ []) ≡ ok (addr (pos 4010))
unfolding parse_operand
jump_target = refl

-- a displacement with a leading zero raises
leading_zero :
    parse_operand (b'0' ∷ b'1' ∷ b'0' ∷ b'(' ∷ b'%' ∷ b'r' ∷ b'a' ∷ b'x' ∷ b')' ∷ [])
    ≡ err value_error
unfolding parse_operand
leading_zero = refl

-- without a base the operand is a symbol
no_base :
    parse_operand (b'(' ∷ b',' ∷ b'%' ∷ b'r' ∷ b'a' ∷ b'x' ∷ b',' ∷ b'4' ∷ b')' ∷ [])
    ≡ ok (symbol (b'(' ∷ b',' ∷ b'%' ∷ b'r' ∷ b'a' ∷ b'x' ∷ b',' ∷ b'4' ∷ b')' ∷ []))
unfolding parse_operand
no_base = refl

-- a scale without an index is not printed
scale_without_index :
    emit_operand (mem (pos 0) (some (b'r' ∷ b'a' ∷ b'x' ∷ [])) none 4)
    ≡ ok (b'(' ∷ b'%' ∷ b'r' ∷ b'a' ∷ b'x' ∷ b')' ∷ [])
unfolding emit_operand
scale_without_index = refl

facts :
    to_prolog (
      record {
        address = 1070;
        mnem = (b'r' ∷ b'e' ∷ b'p' ∷ b'.' ∷ b'm' ∷ []);
        ops = imm (pos 32) ∷ [];
      }
      ∷ [])
    ≡ ok (
        b'p' ∷ b'c' ∷ b'o' ∷ b'd' ∷ b'e' ∷ b'(' ∷ b'0' ∷ b',' ∷ b' ' ∷ b'0' ∷ b'x' ∷ b'4' ∷ b'2'
        ∷ b'e' ∷ b',' ∷ b' ' ∷ b'r' ∷ b'e' ∷ b'p' ∷ b'_' ∷ b'm' ∷ b',' ∷ b' ' ∷ b'[' ∷ b'i' ∷ b'm'
        ∷ b'm' ∷ b'(' ∷ b'3' ∷ b'2' ∷ b')' ∷ b']' ∷ b')' ∷ b'.' ∷ [])
unfolding to_prolog to_prolog_term
facts = refl
