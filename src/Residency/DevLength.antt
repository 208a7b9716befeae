-- ===== src/Residency/DevLength.antt =====
-- The device-side appends of `DeviceKVCache` (bpd/lib/dev_residency.py), with the kernels that the file
-- holds as text: `k_append_at_len`, `k_append_kv`, `k_append_kv_incr` and `k_incr_len`. The buffers are
-- arrays of floats, of which `max_seq * width` are allocated (`DeviceKVCache.__init__`); nothing checks
-- the length, and an append at a length of `max_seq` or more, which writes past them, is outside of the
-- model. The threads of a launch run in any order: a launch takes the sequence of the threads' global
-- indices `blockIdx.x * blockDim.x + threadIdx.x`.
use llama_tov.Prelude.{
  ℕ, ◌+◌, ◌*◌, ◌/◌, Bool, true, false, ◌&&◌, List, [], ◌∷◌, ltb, leb, ◌==◌, if◌then◌else◌,
}

-- The contents of the two buffers and of `*len_ptr`. It stands for the device while the length is at most
-- `max_seq`: index `max_seq * width` and what follows it is not memory of the buffer.
pub record Device (F : Type 0) : Type 0 where
  pub kbuf : ℕ → F
  pub vbuf : ℕ → F
  pub len : ℕ

-- the orders in which the threads of the launches run
pub record Schedule : Type 0 where
  pub first : List ℕ
  pub second : List ℕ

module _ {F : Type 0} where
  -- `base[at] = value`
  abbrev pub store : (ℕ → F) → ℕ → F → ℕ → F
  store base at value a = if a == at then value else base a

  -- the body of `k_append_at_len`, in the thread with global index `i`
  abbrev pub append_thread : (ℕ → F) → (ℕ → F) → ℕ → ℕ → ℕ → ℕ → F
  append_thread base src len width i =
      if ltb i width then store base (len * width + i) (src i) else base

  -- a launch of `k_append_at_len`
  abbrev pub launch_append : (ℕ → F) → (ℕ → F) → ℕ → ℕ → List ℕ → ℕ → F
  launch_append base src len width [] = base
  launch_append base src len width (i ∷ is_) =
      launch_append (append_thread base src len width i) src len width is_

  -- the body of `k_append_kv`, which reads the length and leaves it
  abbrev pub append_kv_thread : Device F → (ℕ → F) → (ℕ → F) → ℕ → ℕ → Device F
  append_kv_thread d k_src v_src width i = record {
    kbuf = append_thread d.kbuf k_src d.len width i;
    vbuf = append_thread d.vbuf v_src d.len width i;
    len = d.len;
  }

  abbrev pub launch_append_kv : Device F → (ℕ → F) → (ℕ → F) → ℕ → List ℕ → Device F
  launch_append_kv d k_src v_src width [] = d
  launch_append_kv d k_src v_src width (i ∷ is_) =
      launch_append_kv (append_kv_thread d k_src v_src width i) k_src v_src width is_

  -- behind `__syncthreads` thread 0 writes `L + 1`, with the `L` that it read at its start
  abbrev pub store_length : Device F → ℕ → List ℕ → Device F
  store_length d l [] = d
  store_length d l (i ∷ is_) =
      store_length (if i == 0 then record { kbuf = d.kbuf; vbuf = d.vbuf; len = l + 1 } else d) l
        is_

  -- `k_append_kv_incr`: the threads up to the barrier, then the threads from it on
  unfoldable pub launch_append_kv_incr :
      Device F → (ℕ → F) → (ℕ → F) → ℕ → List ℕ → List ℕ → Device F
  launch_append_kv_incr d k_src v_src width before after =
      store_length (launch_append_kv d k_src v_src width before) d.len after

  -- `incr_len_dev`: one thread
  abbrev pub incr_len_dev : Device F → Device F
  incr_len_dev d = record { kbuf = d.kbuf; vbuf = d.vbuf; len = d.len + 1 }

  -- `append_at_len`: one launch for both buffers, or one for each
  unfoldable pub append_at_len : Bool → Schedule → Device F → (ℕ → F) → (ℕ → F) → ℕ → Device F
  append_at_len fused order d k_src v_src width =
      if fused then launch_append_kv d k_src v_src width order.first else record {
        kbuf = launch_append d.kbuf k_src d.len width order.first;
        vbuf = launch_append d.vbuf v_src d.len width order.second;
        len = d.len;
      }

  -- `append_at_len_incr`: whether it has advanced the length, and the device
  unfoldable pub append_at_len_incr :
      Bool → Bool → Schedule → Device F → (ℕ → F) → (ℕ → F) → ℕ → Bool × Device F
  unfolding append_at_len launch_append_kv_incr
  append_at_len_incr fused incr_fused order d k_src v_src width =
      if fused && (incr_fused && leb width 128)
      then (true, launch_append_kv_incr d k_src v_src width order.first order.second)
      else (false, append_at_len fused order d k_src v_src width)

  -- The append of a decode step: `if not cache.append_at_len_incr(…): cache.incr_len_dev()`. It is that of
  -- the device at a length below `max_seq`.
  unfoldable pub append_step : Bool → Bool → Schedule → Device F → (ℕ → F) → (ℕ → F) → ℕ → Device F
  unfolding append_at_len_incr
  append_step fused incr_fused order d k_src v_src width =
      let r = append_at_len_incr fused incr_fused order d k_src v_src width in
      if r.0 then r.1 else incr_len_dev r.1

-- `blk` and `grid = (self.width + blk - 1) // blk`; the fused increment has one block
abbrev pub grid_threads : Bool → Bool → ℕ → ℕ
grid_threads fused incr_fused width =
    if fused && (incr_fused && leb width 128) then 128 else (width + 127) / 128 * 128
