-- ===== src/Residency/DevAppend.antt =====
-- What the device-side appends write, whatever their kernels and the order of their threads.
use llama_tov.Prelude.{
  ℕ, ◌+◌, ◌-◌, ◌*◌, ◌/◌, ◌≤◌, ◌<◌, ◌≡◌, refl, sym, ap, ap₂, ◌∙◌, fun_ext, inl, inr, Bool, true,
  false, ◌&&◌, ◌||◌, List, [], ◌∷◌, arith, ltb, leb, ◌==◌, if◌then◌else◌, ltb→lt, lt→ltb, ==_iff,
  Bool-cases,
}
use llama_tov.Residency.DevLength.{
  Device, Schedule, store, append_thread, launch_append, append_kv_thread, launch_append_kv,
  store_length, launch_append_kv_incr, append_at_len, append_step, grid_threads,
}

-- whether thread `i` runs
abbrev pub has : ℕ → List ℕ → Bool
has i [] = false
has i (j ∷ js) = i == j || has i js

-- every thread of a launch of `n` runs
abbrev pub Runs : ℕ → List ℕ → Type 0
Runs n order = (i : ℕ) → i < n → has i order ≡ true

Runs-below : (m n : ℕ) (order : List ℕ) → m ≤ n → Runs n order → Runs m order
Runs-below m n order le runs i lt = runs i (omega arith)

module _ {F : Type 0} where
  -- the array with `src` at row `r`
  abbrev pub write_row : (ℕ → F) → (ℕ → F) → ℕ → ℕ → ℕ → F
  write_row base src r width a =
      if leb (r * width) a && ltb a (r * width + width) then src (a - r * width) else base a

  store_same : (base : ℕ → F) (a : ℕ) (v : F) → store base a v a ≡ v
  store_same base a v = rw ((==_iff a a).1 refl) refl

  -- a thread writes nothing else to an entry that has its value
  thread_keeps :
      (base src : ℕ → F) (l width i j : ℕ)
      → base (l * width + i) ≡ src i
      → append_thread base src l width j (l * width + i) ≡ src i
  thread_keeps base src l width i j h = elim (Bool-cases (ltb j width)) [
    | inr out ↦ rw out h
    | inl in_row ↦ elim (Bool-cases (l * width + i == l * width + j)) [
      | inr other ↦ rw (in_row, other) h
      | inl same ↦
          let e : j ≡ i = omega (arith, (==_iff (l * width + i) (l * width + j)).0 same) in
          rw (in_row, same) (ap src e)
    ]
  ]

  launch_keeps :
      (base src : ℕ → F) (l width i : ℕ) (order : List ℕ)
      → base (l * width + i) ≡ src i
      → launch_append base src l width order (l * width + i) ≡ src i
  launch_keeps base src l width i [] h = h
  launch_keeps base src l width i (j ∷ js) h =
      launch_keeps (append_thread base src l width j) src l width i js
        (thread_keeps base src l width i j h)

  -- the entry of a thread that runs
  launch_writes :
      (base src : ℕ → F) (l width i : ℕ) (order : List ℕ)
      → i < width
      → has i order ≡ true
      → launch_append base src l width order (l * width + i) ≡ src i
  launch_writes base src l width i [] lt h = absurd (no h)
    where
      no : false ≡ true → ⊥
      no h = ground arith
  launch_writes base src l width i (j ∷ js) lt h = elim (Bool-cases (i == j)) [
    | inl same ↦
        let e : j ≡ i = sym ((==_iff i j).0 same) in
        launch_keeps (append_thread base src l width j) src l width i js
          (rw (e, lt→ltb i width lt) (store_same base (l * width + i) (src i)))
    | inr other ↦
        launch_writes (append_thread base src l width j) src l width i js lt (rw other at h)
  ]

  -- the entries of other rows
  launch_elsewhere :
      (base src : ℕ → F) (l width a : ℕ) (order : List ℕ)
      → (leb (l * width) a && ltb a (l * width + width)) ≡ false
      → launch_append base src l width order a ≡ base a
  launch_elsewhere base src l width a [] h = refl
  launch_elsewhere base src l width a (j ∷ js) h =
      launch_elsewhere (append_thread base src l width j) src l width a js h
      ∙ elim (Bool-cases (ltb j width)) [
        | inr out ↦ rw out refl
        | inl in_row ↦ rw (in_row, misses (l * width) width h (ltb→lt j width in_row)) refl
      ]
    where
      misses : (r w : ℕ) → (leb r a && ltb a (r + w)) ≡ false → j < w → (a == r + j) ≡ false
      misses r w h lt = ground arith

  -- A launch writes the row at the length, whatever the order of the threads.
  pub launch_append-write_row :
      (base src : ℕ → F) (l width : ℕ) (order : List ℕ)
      → Runs width order
      → launch_append base src l width order ≡ write_row base src l width
  launch_append-write_row base src l width order runs = fun_ext λ a.
      elim (Bool-cases (leb (l * width) a && ltb a (l * width + width))) [
        | inr out ↦ launch_elsewhere base src l width a order out ∙ (rw out refl)
        | inl in_row ↦
            let i = a - l * width in
            let (at, lt) = place (l * width) a width in_row in
            rw in_row (
              ap (launch_append base src l width order) at
              ∙ launch_writes base src l width i order lt (runs i lt))
      ]
    where
      place : (r a w : ℕ) → (leb r a && ltb a (r + w)) ≡ true → (a ≡ r + (a - r)) × (a - r < w)
      place r a w h = ground arith

  -- Both kernels of the pair, in one launch.
  launch_append_kv-launch_append :
      (d : Device F) (k_src v_src : ℕ → F) (width : ℕ) (order : List ℕ)
      → launch_append_kv d k_src v_src width order ≡ record {
        kbuf = launch_append d.kbuf k_src d.len width order;
        vbuf = launch_append d.vbuf v_src d.len width order;
        len = d.len;
      }
  launch_append_kv-launch_append d k_src v_src width [] = refl
  launch_append_kv-launch_append d k_src v_src width (i ∷ is_) =
      launch_append_kv-launch_append (append_kv_thread d k_src v_src width i) k_src v_src width is_

  -- the device with one length more
  abbrev pub lengthened : Device F → ℕ → Device F
  lengthened d l = record { kbuf = d.kbuf; vbuf = d.vbuf; len = l + 1 }

  store_length_again :
      (d : Device F) (l : ℕ) (order : List ℕ)
      → store_length (lengthened d l) l order ≡ lengthened d l
  store_length_again d l [] = refl
  store_length_again d l (i ∷ is_) = elim (Bool-cases (i == 0)) [
    | inl zero_thread ↦ rw zero_thread (store_length_again d l is_)
    | inr other ↦ rw other (store_length_again d l is_)
  ]

  -- Thread 0 advances the length.
  store_length_lem :
      (d : Device F) (l : ℕ) (order : List ℕ)
      → has 0 order ≡ true
      → store_length d l order ≡ lengthened d l
  store_length_lem d l [] h = absurd (no h)
    where
      no : false ≡ true → ⊥
      no h = ground arith
  store_length_lem d l (i ∷ is_) h = elim (Bool-cases (0 == i)) [
    | inl same ↦ let e : i ≡ 0 = sym ((==_iff 0 i).0 same) in rw e (store_length_again d l is_)
    | inr other ↦ rw (flip other) (store_length_lem d l is_ (rw other at h))
  ]
    where
      flip : (0 == i) ≡ false → (i == 0) ≡ false
      flip h = ground arith

  -- the device after one position: a row in each buffer, and the length
  abbrev pub appended : Device F → (ℕ → F) → (ℕ → F) → ℕ → Device F
  appended d k_src v_src width = record {
    kbuf = write_row d.kbuf k_src d.len width;
    vbuf = write_row d.vbuf v_src d.len width;
    len = d.len + 1;
  }

  rows_written :
      (d : Device F) (k_src v_src : ℕ → F) (width : ℕ) (first second : List ℕ)
      → Runs width first
      → Runs width second
      → ◌≡◌ {A = Device F}
          (record {
            kbuf = launch_append d.kbuf k_src d.len width first;
            vbuf = launch_append d.vbuf v_src d.len width second;
            len = d.len + 1;
          })
          (appended d k_src v_src width)
  rows_written d k_src v_src width first second runs runs' =
      ap₂ (λ (k v : ℕ → F). record { kbuf = k; vbuf = v; len = d.len + 1 })
        (launch_append-write_row d.kbuf k_src d.len width first runs)
        (launch_append-write_row d.vbuf v_src d.len width second runs')

  -- one launch for the rows and the length
  folded-appended :
      (d : Device F) (k_src v_src : ℕ → F) (width : ℕ) (first second : List ℕ)
      → width ≤ 128
      → Runs 128 first
      → Runs 128 second
      → launch_append_kv_incr d k_src v_src width first second ≡ appended d k_src v_src width
  unfolding launch_append_kv_incr
  folded-appended d k_src v_src width first second small runs runs' =
      let wide = Runs-below width 128 first small runs in
      store_length_lem (launch_append_kv d k_src v_src width first) d.len second
        (runs' 0 (omega arith))
      ∙ ap (λ e. lengthened e d.len) (launch_append_kv-launch_append d k_src v_src width first)
      ∙ rows_written d k_src v_src width first first wide wide

  -- a launch or two for the rows, and one for the length
  unfolded-appended :
      (fused : Bool) (order : Schedule) (d : Device F) (k_src v_src : ℕ → F) (width : ℕ)
      → Runs width order.first
      → Runs width order.second
      → lengthened (append_at_len fused order d k_src v_src width) d.len
        ≡ appended d k_src v_src width
  unfolding append_at_len
  unfolded-appended true order d k_src v_src width runs runs' =
      ap (λ e. lengthened e d.len) (launch_append_kv-launch_append d k_src v_src width order.first)
      ∙ rows_written d k_src v_src width order.first order.first runs runs
  unfolded-appended false order d k_src v_src width runs runs' =
      rows_written d k_src v_src width order.first order.second runs runs'

  append_at_len_same_length :
      (fused : Bool) (order : Schedule) (d : Device F) (k_src v_src : ℕ → F) (width : ℕ)
      → (append_at_len fused order d k_src v_src width).len ≡ d.len
  unfolding append_at_len
  append_at_len_same_length true order d k_src v_src width =
      ap (λ e. e.len) (launch_append_kv-launch_append d k_src v_src width order.first)
  append_at_len_same_length false order d k_src v_src width = refl

  -- Whichever kernels the two flags and the width choose, and in whichever order the threads of their
  -- launches run: a decode step's append writes the key row and the value row at the length that the
  -- device holds, changes nothing else in the buffers, and advances that length by one.
  pub append_step-appended :
      (fused incr_fused : Bool) (order : Schedule) (d : Device F) (k_src v_src : ℕ → F) (width : ℕ)
      → Runs (grid_threads fused incr_fused width) order.first
      → Runs (grid_threads fused incr_fused width) order.second
      → append_step fused incr_fused order d k_src v_src width ≡ appended d k_src v_src width
  unfolding append_step
  append_step-appended fused incr_fused order d k_src v_src width runs runs' =
      let out = append_at_len fused order d k_src v_src width in
      let grid : width ≤ (width + 127) / 128 * 128 = omega arith in
      elim (Bool-cases (fused && (incr_fused && leb width 128))) [
        | inl folds ↦ rw folds (
            folded-appended d k_src v_src width order.first order.second (small folds)
              (rw folds at runs) (rw folds at runs'))
        | inr apart ↦ rw apart (
            ap (λ l. lengthened out l) (append_at_len_same_length fused order d k_src v_src width)
            ∙ unfolded-appended fused order d k_src v_src width
                (Runs-below width _ order.first grid (rw apart at runs))
                (Runs-below width _ order.second grid (rw apart at runs')))
      ]
    where
      small : (fused && (incr_fused && leb width 128)) ≡ true → width ≤ 128
      small h = ground arith
