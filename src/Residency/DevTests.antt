-- ===== src/Residency/DevTests.antt =====
-- The device-side appends at small rows, with the threads of a block from the last to the first.
use llama_tov.Prelude.{
  ℕ, zero, suc, ◌+◌, ◌*◌, ◌≤◌, ◌<◌, ◌≡◌, refl, inl, inr, true, false, List, [], ◌∷◌, ◌++◌, arith,
  ◌==◌, Bool-cases,
}
use llama_tov.Residency.DevLength.{Device, Schedule, append_step}
use llama_tov.Residency.DevAppend.{Runs, appended, append_step-appended}
use llama_tov.Residency.DevReplay.{Step, replay, rows, replay-rows}

abbrev down : ℕ → List ℕ
down zero = []
down (suc n) = n ∷ down n

down-Runs : (n : ℕ) → Runs n (down n)
down-Runs zero i lt = absurd (omega arith)
down-Runs (suc n) i lt = elim (Bool-cases (i == n)) [
  | inl last ↦ rw last refl
  | inr other ↦ rw other (down-Runs n i (below other lt))
]
  where
    below : {i n : ℕ} → (i == n) ≡ false → i < suc n → i < n
    below {i} {n} h lt = ground arith

abbrev backwards : Schedule
backwards = record { first = down 128; second = down 128 }

abbrev blank : Device ℕ
blank = record { kbuf = λ a. 0; vbuf = λ a. 0; len = 3 }

two_launches : (append_step false false backwards blank (λ i. 7 + i) (λ i. 9) 2).kbuf 7 ≡ 8
unfolding append_step
two_launches = refl

folded_launch : (append_step true true backwards blank (λ i. 7 + i) (λ i. 9) 2).len ≡ 4
unfolding append_step
folded_launch = refl

append_step-appended_example :
    append_step true true backwards blank (λ i. 7 + i) (λ i. 9) 2
    ≡ appended blank (λ i. 7 + i) (λ i. 9) 2
append_step-appended_example =
    append_step-appended true true backwards blank (λ i. 7 + i) (λ i. 9) 2 (down-Runs 128)
      (down-Runs 128)

abbrev token : ℕ → Step ℕ
token t = record { order = backwards; k_src = λ i. t + i; v_src = λ i. t * 2 }

replay-rows_example :
    let e = replay ℕ false true 2 blank (token 5 ∷ token 6 ∷ []) in
    (e.len ≡ 3 + 2)
    × (rows ℕ e.kbuf 2 e.len ≡ rows ℕ (λ a. 0) 2 3 ++ ((5 ∷ 6 ∷ []) ∷ (6 ∷ 7 ∷ []) ∷ []))
    × (rows ℕ e.vbuf 2 e.len ≡ rows ℕ (λ a. 0) 2 3 ++ ((10 ∷ 10 ∷ []) ∷ (12 ∷ 12 ∷ []) ∷ []))
    × ((a : ℕ) → 5 * 2 ≤ a → (e.kbuf a ≡ 0) × (e.vbuf a ≡ 0))
replay-rows_example =
    replay-rows ℕ false true 2 5 blank (token 5 ∷ token 6 ∷ [])
      (down-Runs 128, down-Runs 128, (down-Runs 128, down-Runs 128, tt)) (omega arith)
