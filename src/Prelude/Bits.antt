-- ===== src/Prelude/Bits.antt =====
-- Masks, shifts and `|` on bytes. `x & (2^k - 1)` and `x >> k` are written as `%` and `/`, which
-- `omega` reads; `|` and `&` with one bit are the native operations, with their laws by tables.
use Prim.Native.Nat.{ℕ, zero, suc, ◌+◌, ◌*◌, ◌/◌, ◌%◌, ◌^◌, ◌<◌, bit_or, bit_and}
use mathlib.Core.Path.{◌≡◌, refl, ◌∙◌}
use mathlib.Core.Bool.{Bool, true, ◌&&◌}
use native.Mathlib.Omega.{arith}
use native.Mathlib.Nat.{pow-succ', div-div-eq-div-mul}
use llama_tov.Prelude.Tests.{◌==◌, ==_iff}

abbrev pub low_bits : ℕ → ℕ → ℕ
low_bits k x = x % 2 ^ k

abbrev pub shr : ℕ → ℕ → ℕ
shr x k = x / 2 ^ k

abbrev pub shl : ℕ → ℕ → ℕ
shl x k = x * 2 ^ k

-- `test` holds at every number below `n`
unfoldable pub holds_below : ℕ → (ℕ → Bool) → Bool
holds_below zero test = true
holds_below (suc n) test = test n && holds_below n test

pub holds_below_sound :
    (n : ℕ) (test : ℕ → Bool) (x : ℕ) → holds_below n test ≡ true → x < n → test x ≡ true
unfolding holds_below
holds_below_sound zero test x h lt = elim lt [ ]
holds_below_sound (suc n) test x h lt = ground (arith, holds_below_sound n test x)

nibble_table : holds_below 64 (λ x. bit_or (x % 16) (shl (x / 16) 4) == x) ≡ true
unfolding holds_below
nibble_table = refl

-- a 2-bit (or 1-bit) field above a nibble is joined by `|` as by `+`
pub bit_or_nibble : (lo hi : ℕ) → lo < 16 → hi < 4 → bit_or lo (shl hi 4) ≡ lo + hi * 16
bit_or_nibble lo hi hl hh =
    let x = hi * 16 + lo in
    let at_x = (==_iff _ x).0 (holds_below_sound 64 _ x nibble_table (omega arith)) in
    let el : x % 16 ≡ lo = omega arith in
    let eh : x / 16 ≡ hi = omega arith in omega (arith, rw (el, eh) at at_x)

one_bit_table :
    holds_below 2048
      (λ x. bit_and (x % 256) (2 ^ (x / 256)) == shl (x % 256 / 2 ^ (x / 256) % 2) (x / 256))
    ≡ true
unfolding holds_below
one_bit_table = refl

-- `x & (1 << k)` on a byte
pub bit_and_one_bit : (x k : ℕ) → x < 256 → k < 8 → bit_and x (2 ^ k) ≡ shl (shr x k % 2) k
bit_and_one_bit x k hx hk =
    let y = k * 256 + x in
    let at_y = (==_iff _ _).0 (holds_below_sound 2048 _ y one_bit_table (omega arith)) in
    let ex : y % 256 ≡ x = omega arith in let ek : y / 256 ≡ k = omega arith in rw (ex, ek) at at_y

-- the two fields of a 6-bit code
pub joined_code : (a lo hi : ℕ) → a < 64 → lo ≡ a % 16 → hi ≡ a / 16 → bit_or lo (shl hi 4) ≡ a
joined_code a lo hi small el eh =
    rw (el, eh) (bit_or_nibble (a % 16) (a / 16) (omega arith) (omega arith) ∙ omega arith)

-- bits `i`, `i + 1`, ... as a number, the first one lowest
abbrev pub bits_sum : ℕ → ℕ → (ℕ → ℕ) → ℕ
bits_sum i zero bit = 0
bits_sum i (suc n) bit = bit i + 2 * bits_sum (suc i) n bit

pub bits_sum_bit :
    (i n : ℕ) (bit : ℕ → ℕ) (k : ℕ)
    → ((j : ℕ) → bit j < 2)
    → k < n
    → low_bits 1 (shr (bits_sum i n bit) k) ≡ bit (i + k)
bits_sum_bit i zero bit k one h = elim h [ ]
bits_sum_bit i (suc n) bit zero one h =
    let z : i + 0 ≡ i = omega arith in rw z (omega (arith, one i))
bits_sum_bit i (suc n) bit (suc k) one h =
    let rest = bits_sum (suc i) n bit in
    let half : (bit i + 2 * rest) / 2 ≡ rest = omega (arith, one i) in
    let e : suc i + k ≡ i + suc k = omega arith in
    rw (pow-succ' 2 k, ← div-div-eq-div-mul (bit i + 2 * rest) 2 (2 ^ k), half, ← e)
      (bits_sum_bit (suc i) n bit k one (omega arith))

pub bits_sum-lt : (i n : ℕ) (bit : ℕ → ℕ) → ((j : ℕ) → bit j < 2) → bits_sum i n bit < 2 ^ n
bits_sum-lt i zero bit one = omega arith
bits_sum-lt i (suc n) bit one =
    rw (pow-succ' 2 n) (omega (arith, one i, bits_sum-lt (suc i) n bit one))
