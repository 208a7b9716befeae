-- ===== src/Unroll/Sound.antt =====
-- Fingerprints that the comparison finds alike are equal.
use llama_tov.Prelude.{
  ◌≡◌, refl, sym, ap, ap₂, Bool, true, false, ◌&&◌, Option, none, some, List, [], ◌∷◌, arith, ◌==◌,
  ==_iff, same_bytes_sound,
}
use llama_tov.Unroll.{
  RegClass, vec, gpr, other_class, Shape, no_shape, reg_shape, imm_shape, addr_shape, sym_shape,
  mem_shape, unknown, Fingerprint, same_class, same_part, same_flag, same_shape, same_fp, same_list,
}

both : {a b : Bool} → (a && b) ≡ true → (a ≡ true) × (b ≡ true)
both {a} {b} h = ground arith

no : false ≡ true → ⊥
no h = ground arith

same_list_sound {ℓ} :
    {A : Type ℓ} (same : A → A → Bool)
    → ((a b : A) → same a b ≡ true → a ≡ b)
    → (xs ys : List A) → same_list same xs ys ≡ true
    → xs ≡ ys
same_list_sound same sound [] [] h = refl
same_list_sound same sound [] (y ∷ ys) h = absurd (no h)
same_list_sound same sound (x ∷ xs) [] h = absurd (no h)
same_list_sound same sound (x ∷ xs) (y ∷ ys) h =
    let (head, tail) = both h in ap₂ ◌∷◌ (sound x y head) (same_list_sound same sound xs ys tail)

same_class_sound : (c d : RegClass) → same_class c d ≡ true → c ≡ d
same_class_sound vec vec h = refl
same_class_sound vec gpr h = absurd (no h)
same_class_sound vec other_class h = absurd (no h)
same_class_sound gpr vec h = absurd (no h)
same_class_sound gpr gpr h = refl
same_class_sound gpr other_class h = absurd (no h)
same_class_sound other_class vec h = absurd (no h)
same_class_sound other_class gpr h = absurd (no h)
same_class_sound other_class other_class h = refl

same_part_sound : (p q : Option RegClass) → same_part p q ≡ true → p ≡ q
same_part_sound none none h = refl
same_part_sound none (some d) h = absurd (no h)
same_part_sound (some c) none h = absurd (no h)
same_part_sound (some c) (some d) h = ap some (same_class_sound c d h)

same_flag_sound : (a b : Bool) → same_flag a b ≡ true → a ≡ b
same_flag_sound true b h = sym h
same_flag_sound false true h = absurd (no h)
same_flag_sound false false h = refl

same_shape_sound : (s t : Shape) → same_shape s t ≡ true → s ≡ t
same_shape_sound no_shape no_shape h = refl
same_shape_sound imm_shape imm_shape h = refl
same_shape_sound addr_shape addr_shape h = refl
same_shape_sound sym_shape sym_shape h = refl
same_shape_sound unknown unknown h = refl
same_shape_sound no_shape imm_shape h = absurd (no h)
same_shape_sound no_shape addr_shape h = absurd (no h)
same_shape_sound no_shape sym_shape h = absurd (no h)
same_shape_sound no_shape unknown h = absurd (no h)
same_shape_sound no_shape (reg_shape d) h = absurd (no h)
same_shape_sound no_shape (mem_shape a_ i_ s_ d_) h = absurd (no h)
same_shape_sound imm_shape no_shape h = absurd (no h)
same_shape_sound imm_shape addr_shape h = absurd (no h)
same_shape_sound imm_shape sym_shape h = absurd (no h)
same_shape_sound imm_shape unknown h = absurd (no h)
same_shape_sound imm_shape (reg_shape d) h = absurd (no h)
same_shape_sound imm_shape (mem_shape a_ i_ s_ d_) h = absurd (no h)
same_shape_sound addr_shape no_shape h = absurd (no h)
same_shape_sound addr_shape imm_shape h = absurd (no h)
same_shape_sound addr_shape sym_shape h = absurd (no h)
same_shape_sound addr_shape unknown h = absurd (no h)
same_shape_sound addr_shape (reg_shape d) h = absurd (no h)
same_shape_sound addr_shape (mem_shape a_ i_ s_ d_) h = absurd (no h)
same_shape_sound sym_shape no_shape h = absurd (no h)
same_shape_sound sym_shape imm_shape h = absurd (no h)
same_shape_sound sym_shape addr_shape h = absurd (no h)
same_shape_sound sym_shape unknown h = absurd (no h)
same_shape_sound sym_shape (reg_shape d) h = absurd (no h)
same_shape_sound sym_shape (mem_shape a_ i_ s_ d_) h = absurd (no h)
same_shape_sound unknown no_shape h = absurd (no h)
same_shape_sound unknown imm_shape h = absurd (no h)
same_shape_sound unknown addr_shape h = absurd (no h)
same_shape_sound unknown sym_shape h = absurd (no h)
same_shape_sound unknown (reg_shape d) h = absurd (no h)
same_shape_sound unknown (mem_shape a_ i_ s_ d_) h = absurd (no h)
same_shape_sound (reg_shape c) no_shape h = absurd (no h)
same_shape_sound (reg_shape c) imm_shape h = absurd (no h)
same_shape_sound (reg_shape c) addr_shape h = absurd (no h)
same_shape_sound (reg_shape c) sym_shape h = absurd (no h)
same_shape_sound (reg_shape c) unknown h = absurd (no h)
same_shape_sound (reg_shape c) (mem_shape a_ i_ s_ d_) h = absurd (no h)
same_shape_sound (mem_shape a i s d) no_shape h = absurd (no h)
same_shape_sound (mem_shape a i s d) imm_shape h = absurd (no h)
same_shape_sound (mem_shape a i s d) addr_shape h = absurd (no h)
same_shape_sound (mem_shape a i s d) sym_shape h = absurd (no h)
same_shape_sound (mem_shape a i s d) unknown h = absurd (no h)
same_shape_sound (mem_shape a i s d) (reg_shape e) h = absurd (no h)
same_shape_sound (reg_shape c) (reg_shape d) h = ap reg_shape (same_class_sound c d h)
same_shape_sound (mem_shape a i s d) (mem_shape a' i' s' d') h =
    let (ha, hi, hs, hd) = parts (same_part a a') (same_part i i') (s == s') (same_flag d d') h in
    rw
      (
        same_part_sound a a' ha,
        same_part_sound i i' hi,
        (==_iff s s').0 hs,
        same_flag_sound d d' hd,
      )
      refl
  where
    parts :
        (a i s d : Bool)
        → (a && i && s && d) ≡ true
        → (a ≡ true) × (i ≡ true) × (s ≡ true) × (d ≡ true)
    parts a i s d h = ground arith

pub same_fp_sound : (f g : Fingerprint) → same_fp f g ≡ true → f ≡ g
unfolding same_fp
same_fp_sound (m, ops) (m', ops') h =
    let (names, shapes) = both h in
    rw (same_bytes_sound m m' names, same_list_sound same_shape same_shape_sound ops ops' shapes)
      refl

pub same_fps_sound : (xs ys : List Fingerprint) → same_list same_fp xs ys ≡ true → xs ≡ ys
same_fps_sound xs ys h = same_list_sound same_fp same_fp_sound xs ys h
