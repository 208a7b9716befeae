-- ===== src/Residency/DevReplay.antt =====
-- The device-side cache over many decode steps, as lists of rows.
use llama_tov.Prelude.{
  ℕ, suc, ◌+◌, ◌-◌, ◌*◌, ◌≤◌, ◌<◌, ◌≡◌, refl, sym, ap, ap₂, ◌∙◌, Bool, true, false, ◌&&◌, List, [],
  ◌∷◌, ◌++◌, map, append_assoc, append-nil, arith, ltb, leb, length, tabulate, tabulate_cong,
  tabulate_from-append,
}
use native.Mathlib.Nat.{mul-le-mul_right}
use llama_tov.Residency.DevLength.{Device, Schedule, append_step, grid_threads}
use llama_tov.Residency.DevAppend.{Runs, write_row, appended, append_step-appended}

module _ (F : Type 0) where
  -- a decode step: the order of its threads, and the key row and the value row that it appends
  pub record Step : Type 0 where
    pub order : Schedule
    pub k_src : ℕ → F
    pub v_src : ℕ → F

  module _ (fused incr_fused : Bool) (width : ℕ) where
    abbrev pub replay : Device F → List Step → Device F
    replay d [] = d
    replay d (s ∷ ss) = replay (append_step fused incr_fused s.order d s.k_src s.v_src width) ss

    -- every launch of every step runs all its threads
    abbrev pub AllRun : List Step → Type 0
    AllRun [] = Unit
    AllRun (s ∷ ss) =
        Runs (grid_threads fused incr_fused width) s.order.first
        × Runs (grid_threads fused incr_fused width) s.order.second
        × AllRun ss

  abbrev pub row_of : (ℕ → F) → ℕ → ℕ → List F
  row_of buf width r = tabulate width (λ j. buf (r * width + j))

  -- the rows in use
  abbrev pub rows : (ℕ → F) → ℕ → ℕ → List (List F)
  rows buf width l = tabulate l (row_of buf width)

  row_of-write_row :
      (buf src : ℕ → F) (l width : ℕ)
      → row_of (write_row buf src l width) width l ≡ tabulate width src
  row_of-write_row buf src l width = tabulate_cong width _ src λ j lt.
      let back : l * width + j - l * width ≡ j = omega arith in
      rw (inside (l * width) width j lt, back) refl
    where
      inside : (r w j : ℕ) → j < w → (leb r (r + j) && ltb (r + j) (r + w)) ≡ true
      inside r w j lt = ground arith

  row_of-write_row_before :
      (buf src : ℕ → F) (l width r : ℕ)
      → r < l
      → row_of (write_row buf src l width) width r ≡ row_of buf width r
  row_of-write_row_before buf src l width r lt = tabulate_cong width _ _ λ j in_row.
      let under : suc r * width ≤ l * width = mul-le-mul_right width lt in
      rw (before (r * width + j) (l * width) width (omega (arith, under))) refl
    where
      before : (a r w : ℕ) → a < r → (leb r a && ltb a (r + w)) ≡ false
      before a r w lt = ground arith

  rows-write_row :
      (buf src : ℕ → F) (l width : ℕ)
      → rows (write_row buf src l width) width (l + 1)
        ≡ rows buf width l ++ (tabulate width src ∷ [])
  rows-write_row buf src l width =
      sym (tabulate_from-append 0 l l 1 (row_of (write_row buf src l width) width) (omega arith))
      ∙ ap₂ ◌++◌ (tabulate_cong l _ _ λ r lt. row_of-write_row_before buf src l width r lt)
          (ap (λ row. row ∷ []) (row_of-write_row buf src l width))

  -- a row behind the last one that is written
  outside_row :
      (buf src : ℕ → F) (l width max_seq a : ℕ)
      → l < max_seq
      → max_seq * width ≤ a
      → write_row buf src l width a ≡ buf a
  outside_row buf src l width max_seq a lt le =
      let under : suc l * width ≤ max_seq * width = mul-le-mul_right width lt in
      rw (after (l * width) width a (omega (arith, under))) refl
    where
      after : (r w a : ℕ) → r + w ≤ a → (leb r a && ltb a (r + w)) ≡ false
      after r w a le = ground arith

  -- Nothing behind the rows that a cache of `max_seq` rows has is written.
  untouched :
      (fused incr_fused : Bool) (width max_seq : ℕ) (d : Device F) (steps : List Step)
      → AllRun fused incr_fused width steps
      → d.len + length steps ≤ max_seq
      → (let e = replay fused incr_fused width d steps in
          (a : ℕ) → max_seq * width ≤ a → (e.kbuf a ≡ d.kbuf a) × (e.vbuf a ≡ d.vbuf a))
  untouched fused incr_fused width max_seq d [] runs room a le = (refl, refl)
  untouched fused incr_fused width max_seq d (s ∷ ss) (first, second, rest) room a le =
      let d' = appended d s.k_src s.v_src width in
      let (keys, values) = untouched fused incr_fused width max_seq d' ss rest (omega arith) a le in
      rw
        (replay, append_step-appended fused incr_fused s.order d s.k_src s.v_src width first second)
        (
          keys ∙ outside_row d.kbuf s.k_src d.len width max_seq a (omega arith) le,
          values ∙ outside_row d.vbuf s.v_src d.len width max_seq a (omega arith) le,
        )

  -- the length and the rows in use after the steps
  stepped :
      (fused incr_fused : Bool) (width : ℕ) (d : Device F) (steps : List Step)
      → AllRun fused incr_fused width steps
      → (let e = replay fused incr_fused width d steps in
          (e.len ≡ d.len + length steps)
          × (rows e.kbuf width e.len
              ≡ rows d.kbuf width d.len ++ map (λ s. tabulate width s.k_src) steps)
          × (rows e.vbuf width e.len
              ≡ rows d.vbuf width d.len ++ map (λ s. tabulate width s.v_src) steps))
  stepped fused incr_fused width d [] runs = (omega arith, sym (append-nil _), sym (append-nil _))
  stepped fused incr_fused width d (s ∷ ss) (first, second, rest) =
      let d' = appended d s.k_src s.v_src width in
      let (len, keys, values) = stepped fused incr_fused width d' ss rest in
      rw
        (replay, append_step-appended fused incr_fused s.order d s.k_src s.v_src width first second)
        (
          len ∙ omega arith,
          keys
              ∙ ap (λ l. l ++ map (λ s. tabulate width s.k_src) ss)
                  (rows-write_row d.kbuf s.k_src d.len width)
              ∙ append_assoc (rows d.kbuf width d.len) (tabulate width s.k_src ∷ []) _,
          values
              ∙ ap (λ l. l ++ map (λ s. tabulate width s.v_src) ss)
                  (rows-write_row d.vbuf s.v_src d.len width)
              ∙ append_assoc (rows d.vbuf width d.len) (tabulate width s.v_src ∷ []) _,
        )

  -- Whichever kernels are used and in whichever order their threads run: as long as the steps do not fill
  -- more than the `max_seq` rows that are allocated, the length that the device holds after any number
  -- of decode steps is the first length plus the number of the steps, the keys and the values in use
  -- are those from before followed by the rows of the steps, in order, and nothing behind the allocated
  -- rows is written.
  pub replay-rows :
      (fused incr_fused : Bool) (width max_seq : ℕ) (d : Device F) (steps : List Step)
      → AllRun fused incr_fused width steps
      → d.len + length steps ≤ max_seq
      → (let e = replay fused incr_fused width d steps in
          (e.len ≡ d.len + length steps)
          × (rows e.kbuf width e.len
              ≡ rows d.kbuf width d.len ++ map (λ s. tabulate width s.k_src) steps)
          × (rows e.vbuf width e.len
              ≡ rows d.vbuf width d.len ++ map (λ s. tabulate width s.v_src) steps)
          × ((a : ℕ) → max_seq * width ≤ a → (e.kbuf a ≡ d.kbuf a) × (e.vbuf a ≡ d.vbuf a)))
  replay-rows fused incr_fused width max_seq d steps runs room =
      let (len, keys, values) = stepped fused incr_fused width d steps runs in
      (len, keys, values, untouched fused incr_fused width max_seq d steps runs room)
