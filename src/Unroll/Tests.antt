-- ===== src/Unroll/Tests.antt =====
-- A loop body of two equal halves up to registers and displacements.
use llama_tov.Prelude.{
  ℕ, ◌≤◌, ◌<◌, ◌≡◌, refl, none, some, List, [], ◌∷◌, ◌++◌, map, arith, length, drop,
}
use llama_tov.Prelude.Int.{pos}
use llama_tov.Unroll.{Fingerprint, Operand, reg, mem, Insn, insn_fingerprint, detect_unroll}
use llama_tov.Unroll.Segment.{detect_unroll_segment}
use llama_tov.Unroll.BestSegment.{
  IsBest, Partition, detect_unroll_segment-IsBest, detect_unroll_segment-Partition,
}
use llama_tov.Unroll.Copies.{copies}
use llama_tov.Unroll.Greatest.{detect_unroll-greatest}

abbrev xmm : ℕ → Operand
xmm d = reg (b'x' ∷ b'm' ∷ b'm' ∷ d ∷ [])

abbrev rsi : List ℕ
rsi = b'r' ∷ b's' ∷ b'i' ∷ []

abbrev load : ℕ → ℕ → ℕ → Insn
load a d r = record {
  address = a;
  mnem = b'm' ∷ b'o' ∷ b'v' ∷ [];
  ops = mem (pos d) (some rsi) none 1 ∷ xmm r ∷ [];
}

abbrev add : ℕ → ℕ → Insn
add a r = record { address = a; mnem = b'a' ∷ b'd' ∷ b'd' ∷ []; ops = xmm r ∷ xmm b'0' ∷ [] }

abbrev loop_body : List Insn
loop_body = load 0 16 b'1' ∷ add 4 b'1' ∷ load 8 32 b'2' ∷ add 12 b'2' ∷ []

twofold : detect_unroll loop_body ≡ (2, load 0 16 b'1' ∷ add 4 b'1' ∷ [])
unfolding detect_unroll
twofold = refl

detect_unroll-greatest_example :
    let r = detect_unroll loop_body in
    let fps = map insn_fingerprint loop_body in
    (fps ≡ copies r.0 (map insn_fingerprint r.1))
    × (loop_body ≡ r.1 ++ drop (length r.1) loop_body)
    × ((f : ℕ) (c : List Fingerprint) → 0 < length c → fps ≡ copies f c → f ≤ r.0)
detect_unroll-greatest_example = detect_unroll-greatest loop_body

-- an instruction before the two halves
abbrev with_preamble : List Insn
with_preamble = add 0 b'7' ∷ loop_body

segment_found : detect_unroll_segment with_preamble ≡ (
  record {
    factor = 2;
    segment_start = 0;
    segment_end = 4;
    rolled_body = add 0 b'7' ∷ load 0 16 b'1' ∷ [];
    preamble = [];
    epilogue = add 12 b'2' ∷ [];
  },
  some 402,
)
unfolding detect_unroll_segment
segment_found = refl

detect_unroll_segment-IsBest_example : IsBest loop_body (detect_unroll_segment loop_body)
detect_unroll_segment-IsBest_example = detect_unroll_segment-IsBest loop_body (omega arith)

detect_unroll_segment-Partition_example :
    Partition with_preamble (detect_unroll_segment with_preamble).0
detect_unroll_segment-Partition_example = detect_unroll_segment-Partition with_preamble
