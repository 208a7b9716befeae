-- ===== src/Residency/Slab.antt =====
-- `_SlabArena` of bpd/lib/dev_residency.py: one device buffer, handed out by a bump pointer.
use Prim.Native.Nat.{max}
use mathlib.Core.Path.{subst}
use llama_tov.Prelude.{
  ℕ, ◌+◌, ◌*◌, ◌/◌, ◌≤◌, ◌≡◌, refl, sym, ap, ◌∙◌, inl, inr, Bool, true, false, Option, none, some,
  arith, ltb, Bool-cases, Option-cases, Result, runtime_error, type_error, ok, err, shl,
}

pub record Slab : Type 0 where
  pub enabled : Bool
  pub base : Option ℕ
  pub cap : ℕ
  pub off : ℕ

-- `__init__`, with `os.environ.get("BPD_SLAB", "") == "1"`
abbrev pub new_slab : Bool → Slab
new_slab on = record { enabled = on; base = none; cap = 0; off = 0 }

-- `ensure`, by the test on `self.base`; `fresh` is the address that `cuMemAlloc` gives
abbrev pub ensured : ℕ → Slab → ℕ → Option ℕ → Slab
ensured fresh s nbytes (some b) = s
ensured fresh s nbytes none = record {
  enabled = s.enabled;
  base = some fresh;
  cap = max nbytes (shl 8 20);
  off = s.off;
}

unfoldable pub ensure : ℕ → Slab → ℕ → Slab
ensure fresh s nbytes = ensured fresh s nbytes s.base

-- `(nbytes + 255) & ~255`
abbrev pub rounded : ℕ → ℕ
rounded nbytes = (nbytes + 255) / 256 * 256

-- the bump pointer after a call that succeeds
abbrev pub advanced : Slab → ℕ → Slab
advanced s n = record { enabled = s.enabled; base = s.base; cap = s.cap; off = s.off + rounded n }

-- the rest of `alloc`, by the test `self.off + a > self.cap`
abbrev pub granted : Slab → ℕ → ℕ → Bool → Slab × Result ℕ
granted s nbytes b true = (s, err runtime_error)
granted s nbytes b false = (advanced s nbytes, ok (b + s.off))

-- `self.base.value` of None raises; after `ensure` there is a base
abbrev pub placed : Slab → ℕ → Option ℕ → Slab × Result ℕ
placed s nbytes (some b) = granted s nbytes b (ltb s.cap (s.off + rounded nbytes))
placed s nbytes none = (s, err type_error)

abbrev pub place : Slab → ℕ → Slab × Result ℕ
place s nbytes = placed s nbytes s.base

unfoldable pub alloc : ℕ → Slab → ℕ → Slab × Result ℕ
unfolding ensure
alloc fresh s nbytes = place (ensure fresh s nbytes) nbytes

pub reset : Slab → Slab
reset s = record { enabled = s.enabled; base = s.base; cap = s.cap; off = 0 }

-- What any number of calls of `alloc` makes of an arena, those that raise included.
pub data Later (s : Slab) : Slab → Type 0 where
  now : Later s s
  then_alloc : {t : Slab} → (fresh n : ℕ) → Later s t → Later s (alloc fresh t n).0

-- The arena has its buffer at `b` and `c` bytes there, and at least `o` of them are handed out.
abbrev Holds : ℕ → ℕ → ℕ → Slab → Type 0
Holds b c o s = (s.base ≡ some b) × (s.cap ≡ c) × (o ≤ s.off)

ensure-some : (b fresh n : ℕ) (s : Slab) → s.base ≡ some b → ensure fresh s n ≡ s
unfolding ensure
ensure-some b fresh n s h = ap (ensured fresh s n) h

-- the two outcomes of a call on an arena with a buffer
alloc-full :
    (b fresh n : ℕ) (s : Slab)
    → s.base ≡ some b
    → ltb s.cap (s.off + rounded n) ≡ true
    → alloc fresh s n ≡ (s, err runtime_error)
unfolding alloc
alloc-full b fresh n s h full =
    ap (λ r. place r n) (ensure-some b fresh n s h) ∙ (ap (placed s n) h ∙ ap (granted s n b) full)

alloc-room :
    (b fresh n : ℕ) (s : Slab)
    → s.base ≡ some b
    → ltb s.cap (s.off + rounded n) ≡ false
    → alloc fresh s n ≡ (advanced s n, ok (b + s.off))
unfolding alloc
alloc-room b fresh n s h room =
    ap (λ r. place r n) (ensure-some b fresh n s h) ∙ (ap (placed s n) h ∙ ap (granted s n b) room)

Holds-alloc : (b c o fresh n : ℕ) (s : Slab) → Holds b c o s → Holds b c o (alloc fresh s n).0
Holds-alloc b c o fresh n s h = elim (Bool-cases (ltb s.cap (s.off + rounded n))) [
  | inl full ↦ rw (alloc-full b fresh n s h.0 full) h
  | inr room ↦ rw (alloc-room b fresh n s h.0 room) (h.0, h.1, omega (arith, h.2))
]

Holds-Later : (b c o : ℕ) {s t : Slab} → Later s t → Holds b c o s → Holds b c o t
Holds-Later b c o now h = h
Holds-Later b c o (then_alloc fresh n before) h =
    Holds-alloc b c o fresh n _ (Holds-Later b c o before h)

no_room : (c x : ℕ) → ltb c x ≡ false → x ≤ c
no_room c x h = ground arith

-- a call that succeeds on an arena with a buffer
alloc-room_inv :
    (b fresh n : ℕ) (s t : Slab) (p : ℕ)
    → s.base ≡ some b
    → alloc fresh s n ≡ (t, ok p)
    → (advanced s n ≡ t) × (b + s.off ≡ p) × (s.off + rounded n ≤ s.cap)
alloc-room_inv b fresh n s t p h e = elim (Bool-cases (ltb s.cap (s.off + rounded n))) [
  | inl full ↦
      let bad = sym (alloc-full b fresh n s h full) ∙ e in absurd (raised (ap (λ r. r.1) bad))
  | inr room ↦
      let same = sym (alloc-room b fresh n s h room) ∙ e in
      (ap (λ r. r.0) same, ok_inj (ap (λ r. r.1) same), no_room s.cap (s.off + rounded n) room)
]
  where
    raised : ◌≡◌ {A = Result ℕ} (err runtime_error) (ok p) → ⊥
    raised bad = ground arith

    ok_inj : {x y : ℕ} → ◌≡◌ {A = Result ℕ} (ok x) (ok y) → x ≡ y
    ok_inj {x} same = ap (λ (r : Result ℕ). elim r [ ok v ↦ v | err _ ↦ x ]) same

-- the first call makes the buffer and then does as any other
alloc-first :
    (fresh n : ℕ) (s : Slab) → s.base ≡ none → alloc fresh s n ≡ alloc fresh (ensure fresh s n) n
unfolding alloc
alloc-first fresh n s h =
    let made = ap (ensured fresh s n) h in
    let base : (ensure fresh s n).base ≡ some fresh = ap (λ (r : Slab). r.base) made in
    ap (λ r. place r n) (sym (ensure-some fresh fresh n (ensure fresh s n) base))

ensure-base : (fresh n : ℕ) (s : Slab) → (b : ℕ) × ((ensure fresh s n).base ≡ some b)
unfolding ensure
ensure-base fresh n s = elim (Option-cases s.base) [
  | inl absent ↦ (fresh, ap (λ (o : Option ℕ). (ensured fresh s n o).base) absent)
  | inr (b, there) ↦ (b, ap (λ (o : Option ℕ). (ensured fresh s n o).base) there ∙ there)
]

-- where a block stands in the arena that the call leaves
abbrev Granted : ℕ → Slab → ℕ → Type 0
Granted n t p =
    (b : ℕ) × (t.base ≡ some b) × (p + rounded n ≡ b + t.off) × (t.off ≤ t.cap) × (b ≤ p)

Granted-base :
    (b fresh n : ℕ) (s t : Slab) (p : ℕ)
    → s.base ≡ some b
    → alloc fresh s n ≡ (t, ok p)
    → Granted n t p
Granted-base b fresh n s t p there e =
    let (same, at, fits) = alloc-room_inv b fresh n s t p there e in
    subst (λ r. Granted n r p) same (b, there, omega (arith, at), fits, omega (arith, at))

alloc-Granted : (fresh n : ℕ) (s t : Slab) (p : ℕ) → alloc fresh s n ≡ (t, ok p) → Granted n t p
alloc-Granted fresh n s t p e = elim (Option-cases s.base) [
  | inl absent ↦
      let (b, there) = ensure-base fresh n s in
      Granted-base b fresh n (ensure fresh s n) t p there (sym (alloc-first fresh n s absent) ∙ e)
  | inr (b, there) ↦ Granted-base b fresh n s t p there e
]

-- Two blocks that the arena hands out with no reset between them, with any calls of `alloc` between,
-- do not overlap: the first ends, rounded up to 256 bytes, before the second begins, and the second
-- ends inside the buffer of `cap` bytes at the base.
pub alloc-Later :
    (fresh n fresh' m : ℕ) (s t u v : Slab) (p q : ℕ)
    → alloc fresh s n ≡ (t, ok p)
    → Later t u
    → alloc fresh' u m ≡ (v, ok q)
    → (p + rounded n ≤ q) × ((b : ℕ) × (v.base ≡ some b) × (q + rounded m ≤ b + v.cap) × (b ≤ p))
alloc-Later fresh n fresh' m s t u v p q first between second =
    let (b, base, at, fits, low) = alloc-Granted fresh n s t p first in
    let (base', cap', above) = Holds-Later b t.cap t.off between (base, refl, omega arith) in
    let (same, at', fits') = alloc-room_inv b fresh' m u v q base' second in
    (
      omega (arith, at, at', above),
      subst (λ (r : Slab). (b : ℕ) × (r.base ≡ some b) × (q + rounded m ≤ b + r.cap) × (b ≤ p)) same
          (b, base', omega (arith, at', fits'), low),
    )

reset-alloc : (b fresh n : ℕ) (s : Slab) → s.base ≡ some b → reset (alloc fresh s n).0 ≡ reset s
unfolding reset
reset-alloc b fresh n s h = elim (Bool-cases (ltb s.cap (s.off + rounded n))) [
  | inl full ↦ ap (λ r. reset r.0) (alloc-full b fresh n s h full)
  | inr room ↦ ap (λ r. reset r.0) (alloc-room b fresh n s h room)
]

-- Once the arena has its buffer, a reset after any calls of `alloc` leads to one and the same state,
-- so that the same requests get the same addresses for every token.
pub reset-Later : (b : ℕ) {s t : Slab} → s.base ≡ some b → Later s t → reset t ≡ reset s
reset-Later b h now = refl
reset-Later b {s} h (then_alloc {t} fresh n before) =
    let (base, cap, above) = Holds-Later b s.cap s.off before (h, refl, omega arith) in
    reset-alloc b fresh n t base ∙ reset-Later b h before
