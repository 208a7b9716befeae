-- ===== src/Asm.antt =====
-- Assembly text and chains of instructions: bpd/tools/asm_pcode.py. A text is the list of its characters,
-- all ASCII, as objdump prints them. Asm/Numbers is Python's `strip`, `hex`, `str` and `int` on such
-- texts, without its limit on the digits of a decimal number.
pub mod Numbers
pub mod Operand
pub mod HexText
pub mod Runs
pub mod Closed
pub mod MemText
pub mod RoundTrip
pub mod Lift
pub mod Chain
pub mod Relift
pub mod EmitSplit
mod Tests
