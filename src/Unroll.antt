-- ===== src/Unroll.antt =====
-- Loop unrolling in assembly: `operand_shape`, `insn_fingerprint` and `detect_unroll` of
-- bpd/tools/asm_unroll.py. Names are ASCII texts.
pub mod Greatest
pub mod Segment
pub mod SegmentLoops
pub mod Reflexive
pub mod Sound
pub mod Copies
pub mod TryPeriod
pub mod BestSegment
mod Tests
use llama_tov.Prelude.{
  ℕ, zero, suc, ◌-◌, ◌*◌, ◌/◌, ◌%◌, Bool, true, false, not, ◌&&◌, ◌||◌, Option, none, some, List,
  [], ◌∷◌, map, ltb, ◌==◌, if◌then◌else◌, length, take, drop, tabulate_from, same_bytes,
}
use llama_tov.Prelude.Int.{ℤ, pos, negsuc}

-- the operands of asm_pcode's tuples; `absent` is None
pub data Operand : Type 0 where
  absent other : Operand
  imm : ℤ → Operand
  addr : ℤ → Operand
  reg imm_sym symbol : List ℕ → Operand
  mem : ℤ → Option (List ℕ) → Option (List ℕ) → ℕ → Operand

pub data RegClass : Type 0 where
  vec gpr other_class : RegClass

pub data Shape : Type 0 where
  no_shape imm_shape addr_shape sym_shape unknown : Shape
  reg_shape : RegClass → Shape
  mem_shape : Option RegClass → Option RegClass → ℕ → Bool → Shape

-- `c in cls`
abbrev pub in_class : ℕ → List ℕ → Bool
in_class c [] = false
in_class c (x ∷ xs) = c == x || in_class c xs

-- `re.match` of a sequence of character classes, at the start of a name
abbrev pub starts : List (List ℕ) → List ℕ → Bool
starts [] name = true
starts (cls ∷ rest) [] = false
starts (cls ∷ rest) (c ∷ name) = in_class c cls && starts rest name

abbrev pub one : ℕ → List ℕ
one c = c ∷ []

abbrev pub digit : List ℕ
digit = tabulate_from 48 10 (λ c. c)

-- x?mm\d+|ymm\d+|zmm\d+
abbrev pub is_vec : List ℕ → Bool
is_vec name =
    let mm = one b'm' ∷ one b'm' ∷ digit ∷ [] in
    starts ((b'x' ∷ b'y' ∷ b'z' ∷ []) ∷ mm) name || starts mm name

-- [abcd]x|[sb]p|[sd]i after a first letter
abbrev pub named : ℕ → List ℕ → Bool
named first name =
    starts (one first ∷ (b'a' ∷ b'b' ∷ b'c' ∷ b'd' ∷ []) ∷ one b'x' ∷ []) name
    || starts (one first ∷ (b's' ∷ b'b' ∷ []) ∷ one b'p' ∷ []) name
    || starts (one first ∷ (b's' ∷ b'd' ∷ []) ∷ one b'i' ∷ []) name

-- r[abcd]x|r[sb]p|r[sd]i|r\d+
abbrev pub is_r : List ℕ → Bool
is_r name = named b'r' name || starts (one b'r' ∷ digit ∷ []) name

abbrev pub reg_class : List ℕ → RegClass
reg_class name =
    if is_vec name then vec else if is_r name || named b'e' name then gpr else other_class

-- the class of a base or an index, `None` where there is none (or an empty name)
abbrev pub part_class : Option (List ℕ) → Option RegClass
part_class none = none
part_class (some []) = none
part_class (some (c ∷ name)) = some (if is_r (c ∷ name) then gpr else other_class)

abbrev pub nonzero : ℤ → Bool
nonzero (pos n) = not (n == 0)
nonzero (negsuc n) = true

unfoldable pub operand_shape : Operand → Shape
operand_shape absent = no_shape
operand_shape (reg name) = reg_shape (reg_class name)
operand_shape (imm v) = imm_shape
operand_shape (imm_sym v) = imm_shape
operand_shape (addr a) = addr_shape
operand_shape (symbol s) = sym_shape
operand_shape (mem disp base idx scale) =
    mem_shape (part_class base) (part_class idx) scale (nonzero disp)
operand_shape other = unknown

pub record Insn : Type 0 where
  pub address : ℕ
  pub mnem : List ℕ
  pub ops : List Operand

abbrev pub Fingerprint : Type 0
Fingerprint = List ℕ × List Shape

unfoldable pub insn_fingerprint : Insn → Fingerprint
unfolding operand_shape
insn_fingerprint insn = (insn.mnem, map operand_shape insn.ops)

abbrev pub same_class : RegClass → RegClass → Bool
same_class vec vec = true
same_class gpr gpr = true
same_class other_class other_class = true
same_class _ _ = false

abbrev pub same_part : Option RegClass → Option RegClass → Bool
same_part none none = true
same_part (some a) (some b) = same_class a b
same_part _ _ = false

abbrev pub same_flag : Bool → Bool → Bool
same_flag true b = b
same_flag false b = not b

abbrev pub same_shape : Shape → Shape → Bool
same_shape no_shape no_shape = true
same_shape imm_shape imm_shape = true
same_shape addr_shape addr_shape = true
same_shape sym_shape sym_shape = true
same_shape unknown unknown = true
same_shape (reg_shape a) (reg_shape b) = same_class a b
same_shape (mem_shape a i s d) (mem_shape a' i' s' d') =
    same_part a a' && same_part i i' && s == s' && same_flag d d'
same_shape _ _ = false

-- `==` on lists
abbrev pub same_list {ℓ} : {A : Type ℓ} → (A → A → Bool) → List A → List A → Bool
same_list same [] [] = true
same_list same (x ∷ xs) (y ∷ ys) = same x y && same_list same xs ys
same_list same _ _ = false

unfoldable pub same_fp : Fingerprint → Fingerprint → Bool
same_fp (m, ops) (m', ops') = same_bytes m m' && same_list same_shape ops ops'

-- `fps[k*period:(k+1)*period]`
abbrev pub copy_at : List Fingerprint → ℕ → ℕ → List Fingerprint
copy_at fps period k = take period (drop (k * period) fps)

-- `for k in range(1, factor)`, from `k` on
abbrev pub copies_from : List Fingerprint → ℕ → ℕ → ℕ → Bool
copies_from fps period k zero = true
copies_from fps period k (suc left) =
    same_list same_fp (copy_at fps period k) (copy_at fps period 0)
    && copies_from fps period (suc k) left

-- the body of the loop over the factors: `n % factor == 0` and all copies are like the first
unfoldable pub repeats : List Fingerprint → ℕ → Bool
unfolding same_fp
repeats fps factor =
    length fps % factor == 0 && copies_from fps (length fps / factor) 1 (factor - 1)

-- `for factor in range(n, 1, -1)`: the first hit is the highest factor
abbrev pub search_down : List Fingerprint → ℕ → ℕ
search_down fps zero = 1
search_down fps (suc f) = elim (ltb 0 f && repeats fps (suc f)) [
  | true ↦ suc f
  | false ↦ search_down fps f
]

unfoldable pub detect_unroll : List Insn → ℕ × List Insn
unfolding insn_fingerprint repeats
detect_unroll body =
    let fps = map insn_fingerprint body in
    let n = length fps in
    elim (ltb n 2) [
      | true ↦ (1, body)
      | false ↦ let factor = search_down fps n in (factor, take (n / factor) body)
    ]
