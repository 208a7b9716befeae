-- ===== src/Unroll/Segment.antt =====
-- `detect_unroll_segment` of bpd/tools/asm_unroll.py: the unrolled segment of a loop body that scores
-- highest. The score is absent where the function returns before its search.
use llama_tov.Prelude.{
  ℕ, zero, suc, ◌+◌, ◌-◌, ◌*◌, ◌/◌, Bool, true, false, Option, none, some, List, [], map, ltb, leb,
  length, take, drop,
}
use llama_tov.Unroll.{Insn, Fingerprint, insn_fingerprint, same_fp, same_list}

pub record Segment : Type 0 where
  pub factor : ℕ
  pub segment_start : ℕ
  pub segment_end : ℕ
  pub rolled_body : List Insn
  pub preamble : List Insn
  pub epilogue : List Insn

-- `best`: a segment and its score
pub record Best : Type 0 where
  pub segment : Segment
  pub score : ℕ

-- `fps[start+(k-1)*period : start+k*period]`
abbrev pub copy_of : List Fingerprint → ℕ → ℕ → ℕ → List Fingerprint
copy_of fps start period k = take period (drop (start + (k - 1) * period) fps)

-- whether copy `k` is like the first
unfoldable pub is_copy : List Fingerprint → ℕ → ℕ → ℕ → Bool
unfolding same_fp
is_copy fps start period k =
    same_list same_fp (copy_of fps start period k) (take period (drop start fps))

-- `for k in range(k, max_factor + 1)`, which stops at the first copy that differs
abbrev pub count_copies : List Fingerprint → ℕ → ℕ → ℕ → ℕ → ℕ → ℕ
count_copies fps start period k zero factor = factor
count_copies fps start period k (suc left) factor = elim (is_copy fps start period k) [
  | true ↦ count_copies fps start period (suc k) left k
  | false ↦ factor
]

-- the loop `for i in range(i, i + left)` with a state
abbrev pub for_range {ℓ} : {A : Type ℓ} → (ℕ → A → A) → ℕ → ℕ → A → A
for_range step i zero s = s
for_range step i (suc left) s = for_range step (suc i) left (step i s)

module _ (body : List Insn) (fps : List Fingerprint) where
  -- the segment of `factor` periods at `start`
  abbrev pub segment_at : ℕ → ℕ → ℕ → Best
  segment_at start period factor = record {
    segment = record {
      factor = factor;
      segment_start = start;
      segment_end = start + factor * period;
      rolled_body = take period (drop start body);
      preamble = take start body;
      epilogue = drop (start + factor * period) body;
    };
    score = factor * period * 100 + factor;
  }

  -- the body of the inner loop
  unfoldable pub try_period : ℕ → ℕ → Best → Best
  unfolding is_copy
  try_period start period best =
      let max_factor = (length fps - start) / period in
      let factor = count_copies fps start period 1 max_factor 1 in
      elim (ltb max_factor 2) [
        | true ↦ best
        | false ↦ elim (leb 2 factor) [
          | true ↦ elim (ltb best.score (factor * period * 100 + factor)) [
            | true ↦ segment_at start period factor
            | false ↦ best
          ]
          | false ↦ best
        ]
      ]

  -- all the periods at one start
  abbrev pub try_start : ℕ → Best → Best
  try_start start best = for_range (try_period start) 1 ((length fps - start) / 2) best

abbrev pub whole_body : List Insn → ℕ → Segment
whole_body body n = record {
  factor = 1;
  segment_start = 0;
  segment_end = n;
  rolled_body = body;
  preamble = [];
  epilogue = [];
}

unfoldable pub detect_unroll_segment : List Insn → Segment × Option ℕ
unfolding insn_fingerprint try_period
detect_unroll_segment body =
    let fps = map insn_fingerprint body in
    let n = length fps in
    elim (ltb n 4) [
      | true ↦ (whole_body body n, none)
      | false ↦
          let best =
            for_range (try_start body fps) 0 n
              (record { segment = whole_body body n; score = 0 }) in
          (best.segment, some best.score)
    ]
