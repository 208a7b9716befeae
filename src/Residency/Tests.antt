-- ===== src/Residency/Tests.antt =====
-- The slab arena and the cache on small cases.
use llama_tov.Prelude.{
  ℕ, ◌+◌, ◌≤◌, ◌≡◌, refl, inl, true, false, some, ◌++◌, arith, runtime_error, ok, err,
}
use llama_tov.Residency.Profile.{
  Globals, switch, production_profile, apply_production_profile, attest_profile,
  assert_certified_composition,
}
use llama_tov.Residency.Slab.{
  Slab, new_slab, alloc, rounded, reset, now, then_alloc, alloc-Later, reset-Later,
}
use llama_tov.Residency.KvCache.{
  Memory, Cache, append, k_slice_host, v_slice_host, bytes_at, row_off, append-slices,
  append-overflow,
}

abbrev used : ℕ → Slab
used o = record { enabled = true; base = some 4096; cap = 8388608; off = o }

first_block : alloc 4096 (new_slab true) 300 ≡ (used 512, ok 4096)
unfolding alloc
first_block = refl

alloc-Later_example :
    (4096 + rounded 300 ≤ 4608)
    × ((b : ℕ) × ((used 768).base ≡ some b) × (4608 + rounded 1 ≤ b + 8388608) × (b ≤ 4096))
unfolding alloc
alloc-Later_example =
    alloc-Later 4096 300 0 1 (new_slab true) (used 512) (used 512) (used 768) 4096 4608 refl now
      refl

reset-Later_example : reset (alloc 0 (used 0) 300).0 ≡ reset (used 0)
reset-Later_example = reset-Later 4096 refl (then_alloc 0 300 now)

abbrev cache : ℕ → Cache
cache l = record {
  max_seq = 4;
  nkv = 1;
  hd = 2;
  elem_bytes = 4;
  k_ptr = 0;
  v_ptr = 32;
  length_now = l;
}

abbrev memory : Memory
memory a = a

append-slices_example :
    let r = append (cache 1) memory 100 200 2 in
    (k_slice_host r.0 r.1
      ≡ k_slice_host (cache 1) memory ++ bytes_at memory 100 (row_off (cache 1) 2))
    × (v_slice_host r.0 r.1
        ≡ v_slice_host (cache 1) memory ++ bytes_at memory 200 (row_off (cache 1) 2))
    × (r.0.length_now ≡ 1 + 2)
append-slices_example =
    append-slices (cache 1) memory 100 200 2 (omega arith) (inl (omega arith)) (inl (omega arith))

append-overflow_example : (append (cache 4) memory 100 200 1).1 (32 + 3) ≡ memory (100 + 3)
append-overflow_example =
    append-overflow (cache 4) memory 100 200 1 3 refl refl (omega arith) (omega arith)

-- every flag on, which the gate refuses
abbrev all_on : Globals
all_on = record { value = λ f. switch true; slab_enabled = false }

refused : assert_certified_composition true all_on ≡ err runtime_error
unfolding assert_certified_composition
refused = refl

-- the profile, which it lets pass, whatever the flags were
profile_passes :
    (attest_profile (apply_production_profile all_on) ≡ (production_profile, true))
    × (assert_certified_composition true (apply_production_profile all_on) ≡ ok tt)
unfolding apply_production_profile attest_profile assert_certified_composition
profile_passes = (refl, refl)
