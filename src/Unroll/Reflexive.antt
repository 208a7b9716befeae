-- ===== src/Unroll/Reflexive.antt =====
-- The comparison of fingerprints finds each like itself.
use llama_tov.Prelude.{
  ℕ, ◌≡◌, refl, Bool, true, false, Option, none, some, List, [], ◌∷◌, ==_iff, same_bytes,
}
use llama_tov.Unroll.{
  RegClass, vec, gpr, other_class, Shape, no_shape, reg_shape, imm_shape, addr_shape, sym_shape,
  mem_shape, unknown, Fingerprint, same_class, same_part, same_flag, same_shape, same_fp, same_list,
}

pub same_list_refl {ℓ} :
    {A : Type ℓ} (same : A → A → Bool)
    → ((a : A) → same a a ≡ true)
    → (xs : List A) → same_list same xs xs ≡ true
same_list_refl same h [] = refl
same_list_refl same h (x ∷ xs) = rw (h x) (same_list_refl same h xs)

same_bytes_refl : (xs : List ℕ) → same_bytes xs xs ≡ true
same_bytes_refl [] = refl
same_bytes_refl (x ∷ xs) = rw ((==_iff x x).1 refl) (same_bytes_refl xs)

same_class_refl : (c : RegClass) → same_class c c ≡ true
same_class_refl vec = refl
same_class_refl gpr = refl
same_class_refl other_class = refl

same_part_refl : (p : Option RegClass) → same_part p p ≡ true
same_part_refl none = refl
same_part_refl (some c) = same_class_refl c

same_flag_refl : (b : Bool) → same_flag b b ≡ true
same_flag_refl true = refl
same_flag_refl false = refl

same_shape_refl : (s : Shape) → same_shape s s ≡ true
same_shape_refl no_shape = refl
same_shape_refl imm_shape = refl
same_shape_refl addr_shape = refl
same_shape_refl sym_shape = refl
same_shape_refl unknown = refl
same_shape_refl (reg_shape c) = same_class_refl c
same_shape_refl (mem_shape a i s d) =
    rw (same_part_refl a, same_part_refl i, (==_iff s s).1 refl) (same_flag_refl d)

pub same_fp_refl : (f : Fingerprint) → same_fp f f ≡ true
unfolding same_fp
same_fp_refl (m, ops) = rw (same_bytes_refl m) (same_list_refl same_shape same_shape_refl ops)
