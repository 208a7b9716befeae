-- ===== src/Residency/KvCache.antt =====
-- `DeviceKVCache` of bpd/lib/dev_residency.py: the keys and values of one layer in two device buffers.
-- Device memory is a map from addresses to bytes; a copy between ranges that overlap is not modelled.
use llama_tov.Prelude.{
  ℕ, ◌+◌, ◌-◌, ◌*◌, ◌≤◌, ◌<◌, ◌≡◌, refl, sym, ap, ap₂, ◌∙◌, ◌⊎◌, inl, inr, true, false, ◌&&◌, List,
  ◌++◌, arith, ltb, leb, if◌then◌else◌, lt→ltb, tabulate, tabulate_cong, tabulate_from-append,
  tabulate_from_shift,
}
use native.Mathlib.Nat.{add-mul, mul-le-mul_right}

abbrev pub Memory : Type 0
Memory = ℕ → ℕ

-- `_memcpy_dtod(dst, src, nbytes)`
abbrev pub memcpy : Memory → ℕ → ℕ → ℕ → Memory
memcpy mem dst src nbytes a =
    if leb dst a && ltb a (dst + nbytes) then mem (src + (a - dst)) else mem a

-- `int* len_ptr` is left out: the kernels that read it are CUDA code.
pub record Cache : Type 0 where
  pub max_seq : ℕ
  pub nkv : ℕ
  pub hd : ℕ
  pub elem_bytes : ℕ
  pub k_ptr : ℕ
  pub v_ptr : ℕ
  pub length_now : ℕ

abbrev pub width : Cache → ℕ
width c = c.nkv * c.hd

-- `_row_off`
abbrev pub row_off : Cache → ℕ → ℕ
row_off c pos = pos * (c.nkv * c.hd * c.elem_bytes)

-- `append`
unfoldable pub append : Cache → Memory → ℕ → ℕ → ℕ → Cache × Memory
append c mem k_src v_src count =
    let n = count * (c.nkv * c.hd * c.elem_bytes) in
    let mem1 = memcpy mem (c.k_ptr + row_off c c.length_now) k_src n in
    let mem2 = memcpy mem1 (c.v_ptr + row_off c c.length_now) v_src n in
    (
      record {
        max_seq = c.max_seq;
        nkv = c.nkv;
        hd = c.hd;
        elem_bytes = c.elem_bytes;
        k_ptr = c.k_ptr;
        v_ptr = c.v_ptr;
        length_now = c.length_now + count;
      },
      mem2,
    )

-- the bytes at an address
abbrev pub bytes_at : Memory → ℕ → ℕ → List ℕ
bytes_at mem at n = tabulate n (λ i. mem (at + i))

-- `k_slice_host` and `v_slice_host`: the valid region, before the reshape
abbrev pub k_slice_host : Cache → Memory → List ℕ
k_slice_host c mem = bytes_at mem c.k_ptr (c.length_now * (c.nkv * c.hd * c.elem_bytes))

abbrev pub v_slice_host : Cache → Memory → List ℕ
v_slice_host c mem = bytes_at mem c.v_ptr (c.length_now * (c.nkv * c.hd * c.elem_bytes))

-- the ranges of two buffers do not meet
abbrev pub Apart : ℕ → ℕ → ℕ → ℕ → Type 0
Apart a n b m = (a + n ≤ b) ⊎ (b + m ≤ a)

memcpy-inside :
    (mem : Memory) (dst src n i : ℕ) → i < n → memcpy mem dst src n (dst + i) ≡ mem (src + i)
memcpy-inside mem dst src n i h =
    let low : leb dst (dst + i) ≡ true = le_true dst (dst + i) (omega arith) in
    let high : ltb (dst + i) (dst + n) ≡ true = lt→ltb (dst + i) (dst + n) (omega arith) in
    let back : dst + i - dst ≡ i = omega arith in rw (low, high, back) refl
  where
    le_true : (a b : ℕ) → a ≤ b → leb a b ≡ true
    le_true a b h = ground arith

memcpy-outside : (mem : Memory) (dst src n a : ℕ) → Apart dst n a 1 → memcpy mem dst src n a ≡ mem a
memcpy-outside mem dst src n a h = rw (outside dst n a h) refl
  where
    outside : (dst n a : ℕ) → Apart dst n a 1 → (leb dst a && ltb a (dst + n)) ≡ false
    outside dst n a h = ground arith

-- a copy to just behind a region makes it longer by what is copied
bytes_at-memcpy :
    (mem : Memory) (at old src n : ℕ)
    → bytes_at (memcpy mem (at + old) src n) at (old + n)
      ≡ bytes_at mem at old ++ bytes_at mem src n
bytes_at-memcpy mem at old src n =
    let after = memcpy mem (at + old) src n in
    let all = λ (i : ℕ). after (at + i) in
    sym (tabulate_from-append 0 old old n all (omega arith))
    ∙ ap₂ ◌++◌
        (tabulate_cong old all (λ i. mem (at + i))
          (λ k lt. memcpy-outside mem (at + old) src n (at + k) (inr (omega arith))))
        (sym (
          tabulate_from_shift old n (λ i. mem (src + i)) all
            λ k lt.
              let e : at + old + k ≡ at + (old + k) = omega arith in
              sym (ap after (sym e) ∙ memcpy-inside mem (at + old) src n k lt)))

-- a copy elsewhere leaves a region
bytes_at-Apart :
    (mem : Memory) (dst src n at m : ℕ)
    → Apart dst n at m
    → bytes_at (memcpy mem dst src n) at m ≡ bytes_at mem at m
bytes_at-Apart mem dst src n at m h =
    tabulate_cong m _ _ (λ k lt. memcpy-outside mem dst src n (at + k) (single dst n at m k h lt))
  where
    single : (dst n at m k : ℕ) → Apart dst n at m → k < m → Apart dst n (at + k) 1
    single dst n at m k (inl h) lt = inl (omega arith)
    single dst n at m k (inr h) lt = inr (omega arith)

Apart-part :
    (a n b m x k y j : ℕ)
    → Apart a n b m
    → a ≤ x
    → x + k ≤ a + n
    → b ≤ y
    → y + j ≤ b + m
    → Apart x k y j
Apart-part a n b m x k y j (inl h) lo hi lo' hi' = inl (omega arith)
Apart-part a n b m x k y j (inr h) lo hi lo' hi' = inr (omega arith)

-- the sizes of a cache: bytes in use, bytes that are added, bytes of a whole buffer
rows_fit : (l count max_seq row : ℕ) → l + count ≤ max_seq → l * row + count * row ≤ max_seq * row
rows_fit l count max_seq row h = rw (← add-mul l count row) (mul-le-mul_right row h)

-- While the appended positions fit into `max_seq`, the two buffers are apart, and the source of the
-- values is apart from the buffer of the keys, `append` makes the keys and the values of the cache
-- longer by what its two sources hold, keeps what was there, and advances the length by `count`.
pub append-slices :
    (c : Cache) (mem : Memory) (k_src v_src count : ℕ)
    → c.length_now + count ≤ c.max_seq
    → Apart c.k_ptr (row_off c c.max_seq) c.v_ptr (row_off c c.max_seq)
    → Apart c.k_ptr (row_off c c.max_seq) v_src (row_off c count)
    → (let r = append c mem k_src v_src count in
        (k_slice_host r.0 r.1 ≡ k_slice_host c mem ++ bytes_at mem k_src (row_off c count))
        × (v_slice_host r.0 r.1 ≡ v_slice_host c mem ++ bytes_at mem v_src (row_off c count))
        × (r.0.length_now ≡ c.length_now + count))
unfolding append
append-slices c mem k_src v_src count fits buffers source =
    let row = c.nkv * c.hd * c.elem_bytes in
    let old = c.length_now * row in
    let n = count * row in
    let size = c.max_seq * row in
    let mem1 = memcpy mem (c.k_ptr + old) k_src n in
    let mem2 = memcpy mem1 (c.v_ptr + old) v_src n in
    let room : old + n ≤ size = rows_fit c.length_now count c.max_seq row fits in
    let longer = add-mul c.length_now count row in
    let keys_kept = bytes_at-Apart mem1 (c.v_ptr + old) v_src n c.k_ptr (old + n) (
      swap c.k_ptr (old + n) (c.v_ptr + old) n (
        Apart-part c.k_ptr size c.v_ptr size c.k_ptr (old + n) (c.v_ptr + old) n buffers
          (omega arith) (omega (arith, room)) (omega arith) (omega (arith, room)))) in
    let values_kept = bytes_at-Apart mem (c.k_ptr + old) k_src n c.v_ptr old (
      Apart-part c.k_ptr size c.v_ptr size (c.k_ptr + old) n c.v_ptr old buffers (omega arith)
        (omega (arith, room)) (omega arith) (omega (arith, room))) in
    let source_kept = bytes_at-Apart mem (c.k_ptr + old) k_src n v_src n (
      Apart-part c.k_ptr size v_src n (c.k_ptr + old) n v_src n source (omega arith)
        (omega (arith, room)) (omega arith) (omega arith)) in
    (
      ap (bytes_at mem2 c.k_ptr) longer ∙ keys_kept ∙ bytes_at-memcpy mem c.k_ptr old k_src n,
      ap (bytes_at mem2 c.v_ptr) longer
          ∙ bytes_at-memcpy mem1 c.v_ptr old v_src n
          ∙ ap₂ ◌++◌ values_kept source_kept,
      refl,
    )
  where
    swap : (a n b m : ℕ) → Apart a n b m → Apart b m a n
    swap a n b m (inl h) = inr h
    swap a n b m (inr h) = inl h

-- `append` does not compare with `max_seq`: when the cache is full and the buffer of the values follows
-- that of the keys, the key bytes that it appends stand where values of the cache were.
pub append-overflow :
    (c : Cache) (mem : Memory) (k_src v_src count i : ℕ)
    → c.length_now ≡ c.max_seq
    → c.v_ptr ≡ c.k_ptr + row_off c c.max_seq
    → i < row_off c count
    → i < row_off c c.length_now
    → (append c mem k_src v_src count).1 (c.v_ptr + i) ≡ mem (k_src + i)
unfolding append
append-overflow c mem k_src v_src count i full next inside low =
    let row = c.nkv * c.hd * c.elem_bytes in
    let n = count * row in
    let mem1 = memcpy mem (c.k_ptr + c.length_now * row) k_src n in
    let at : c.k_ptr + c.length_now * row + i ≡ c.v_ptr + i = rw (full, next) refl in
    memcpy-outside mem1 (c.v_ptr + c.length_now * row) v_src n (c.v_ptr + i) (inr (omega arith))
    ∙ ap mem1 (sym at)
    ∙ memcpy-inside mem (c.k_ptr + c.length_now * row) k_src n i inside
