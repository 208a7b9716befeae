-- ===== src/Gguf/Parse/Align.antt =====
-- Where the tensor data begins.
use llama_tov.Prelude.{ℕ, zero, suc, ◌+◌, ◌-◌, ◌*◌, ◌/◌, ◌≤◌, ◌<◌, ◌≡◌, refl, arith, ok}
use native.Mathlib.Nat.{div-mul-le_self, lt-div-mul-add}
use llama_tov.Prelude.Int.{pos}
use llama_tov.Gguf.Parse.{align_up}

-- With a positive alignment the tensor data begins at a multiple of it, at the first one that is not
-- before the end of the header: less than one alignment after it.
pub align_up-multiple :
    (at al : ℕ)
    → 0 < al
    → (n : ℕ) × (align_up at (pos al) ≡ ok (pos (n * al))) × (at ≤ n * al) × (n * al < at + al)
unfolding align_up
align_up-multiple at zero h = absurd (omega arith)
align_up-multiple at (suc k) h =
    let n = (at + suc k - 1) / suc k in
    let lo = lt-div-mul-add {a = at + suc k - 1} {b = suc k} h in
    let hi = div-mul-le_self (at + suc k - 1) (suc k) in
    (n, refl, omega (arith, lo, hi), omega (arith, lo, hi))
