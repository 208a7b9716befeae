-- ===== src/Asm/MemText.antt =====
-- A memory operand is read back from its printed text.
use llama_tov.Prelude.{
  ℕ, ◌≡◌, refl, sym, ap, ◌∙◌, subst, inl, inr, true, false, Option, none, some, [], ◌∷◌, ◌++◌,
  append_assoc, arith, if◌then◌else◌, Bool-cases, either_holds, Result, ok, AllOf,
}
use llama_tov.Prelude.Int.{ℤ, pos, negsuc}
use llama_tov.Unroll.{Operand, mem, nonzero}
use llama_tov.Asm.Numbers.{Text, is_digit, is_word, is_space, number_text, hex}
use llama_tov.Asm.HexText.{
  decimal_digits, number_text-cons, read_decimal_text, NoSpace, AllOf-map, strip-NoSpace,
  hex-NoSpace, int-hex,
}
use llama_tov.Asm.Operand.{
  some_run, register_run, optional, MemText, mem_tail, mem_base, mem_scale, mem_close, mem_match,
  mem_of, parse_plain, parse_stripped, parse_operand, base_text, idx_text, emit_operand,
  int_or_raise, scale_of, disp_of,
}
use llama_tov.Asm.Runs.{Pass, AllOf-append, some_run-stop, Name, OnSome, number_run-hex_paren}
use llama_tov.Asm.Closed.{
  ScanTo, Closed, ScanTo-append, NoSeparator, plain-ScanTo, hex-NoSeparator, word-plain,
  digit-plain,
}

-- the printed text parses to the operand, and no comma in it ends an operand
abbrev pub RereadsClosed : Operand → Type 0
RereadsClosed o = (t : Text) × (emit_operand o ≡ ok t) × (parse_operand t ≡ ok o) × Closed t

-- the printed text parses to the operand
abbrev pub Rereads : Operand → Type 0
Rereads o = (t : Text) × (emit_operand o ≡ ok t) × (parse_operand t ≡ ok o)

-- what is printed of the scale
abbrev pub printed_scale : Option Text → ℕ → Option Text
printed_scale none scale = none
printed_scale (some i) scale = some (number_text 10 scale)

-- from the base to the closing parenthesis
abbrev pub inner_text : Text → Option Text → ℕ → Text
inner_text base idx scale = base_text (some base) ++ (idx_text idx scale ++ (b')' ∷ []))

abbrev pub with_base : Option Text → Option (Text × Text) → Option MemText
with_base disp o = elim o as (λ x. Option MemText) [
  | none ↦ none
  | some base ↦ mem_tail disp base.0 base.1
]

scale_run :
    (scale : ℕ)
    → some_run is_digit (number_text 10 scale ++ (b')' ∷ []))
      ≡ some (number_text 10 scale, b')' ∷ [])
scale_run scale =
    let (d, t, e) = number_text-cons 10 scale in
    let all = subst (Pass is_digit) e (decimal_digits scale) in
    rw e (some_run-stop is_digit d t b')' [] all refl)

-- the groups are read back from their text
inner-match :
    (disp : Option Text) (c : ℕ) (b : Text) (idx : Option Text) (scale : ℕ)
    → Pass is_word (c ∷ b)
    → OnSome (Name is_word) idx
    → with_base disp (register_run (inner_text (c ∷ b) idx scale))
      ≡ some (record { disp = disp; base = c ∷ b; idx = idx; scale = printed_scale idx scale })
inner-match disp c b none scale h k = ap (with_base disp) (some_run-stop is_word c b b')' [] h refl)
inner-match disp c b (some []) scale h k = absurd (clash k.0)
  where
    clash : true ≡ false → ⊥
    clash h = ground arith
inner-match disp c b (some (i ∷ is)) scale h k =
    let after = b',' ∷ number_text 10 scale ++ (b')' ∷ []) in
    let tail = b',' ∷ b'%' ∷ i ∷ is ++ after in
    ap (λ u. with_base disp (register_run (b'%' ∷ c ∷ b ++ (b',' ∷ b'%' ∷ i ∷ u))))
      (append_assoc is (b',' ∷ number_text 10 scale) (b')' ∷ []))
    ∙ ap (with_base disp) (some_run-stop is_word c b b',' (b'%' ∷ i ∷ is ++ after) h refl)
    ∙ tail_match (some_run-stop is_word i is b',' (number_text 10 scale ++ (b')' ∷ [])) k.1 refl)
  where
    tail_match :
        some_run is_word (i ∷ is ++ (b',' ∷ number_text 10 scale ++ (b')' ∷ [])))
          ≡ some (i ∷ is, b',' ∷ number_text 10 scale ++ (b')' ∷ []))
        → mem_tail disp
            (c ∷ b)
            (b',' ∷ b'%' ∷ i ∷ is ++ (b',' ∷ number_text 10 scale ++ (b')' ∷ [])))
          ≡ some (record {
            disp = disp;
            base = c ∷ b;
            idx = some (i ∷ is);
            scale = some (number_text 10 scale);
          })
    tail_match found =
        let after = number_text 10 scale ++ (b')' ∷ []) in
        ap (λ o. mem_scale disp (c ∷ b) (optional o (b',' ∷ b'%' ∷ i ∷ is ++ (b',' ∷ after)))) found
        ∙ ap (λ o. mem_close disp (c ∷ b) (some (i ∷ is)) (optional o (b',' ∷ after)))
            (scale_run scale)

-- the printed displacement
abbrev disp_text : ℤ → Text
disp_text disp = if nonzero disp then hex disp else []

abbrev pub mem_text : ℤ → Text → Option Text → ℕ → Text
mem_text disp base idx scale = disp_text disp ++ (b'(' ∷ inner_text base idx scale)

-- where nothing was printed, the scale is 1
abbrev pub ScaleShown : Option Text → ℕ → Type 0
ScaleShown none scale = scale ≡ 1
ScaleShown (some i) scale = Unit

scale_of-printed :
    (idx : Option Text) (scale : ℕ)
    → ScaleShown idx scale
    → scale_of (printed_scale idx scale) ≡ scale
scale_of-printed none scale h = sym h
scale_of-printed (some i) scale h = rw (scale_of, read_decimal_text scale) refl

parse_plain-match : (t : Text) (m : MemText) → mem_match t ≡ some m → parse_plain t ≡ mem_of m
parse_plain-match t m e = rw (parse_plain, e) refl

zero_disp : (disp : ℤ) → nonzero disp ≡ false → disp ≡ pos 0
zero_disp (pos n) h = let none_left : n ≡ 0 = ground arith in ap pos none_left
zero_disp (negsuc n) h = absurd (clash h)
  where
    clash : true ≡ false → ⊥
    clash h = ground arith

word-no_space : (c : ℕ) → is_word c ≡ true → is_space c ≡ false
word-no_space c h = ground arith

digit-no_space : (c : ℕ) → is_digit c ≡ true → is_space c ≡ false
digit-no_space c h = ground arith

word-NoSpace : (s : Text) → Pass is_word s → AllOf NoSpace s
word-NoSpace s h = AllOf-map (λ c. is_word c ≡ true) NoSpace s word-no_space h

idx-NoSpace :
    (idx : Option Text) (scale : ℕ) → OnSome (Name is_word) idx → AllOf NoSpace (idx_text idx scale)
idx-NoSpace none scale h = tt
idx-NoSpace (some []) scale h = tt
idx-NoSpace (some (i ∷ is)) scale h = (
  refl,
  (
    refl,
    AllOf-append NoSpace (i ∷ is) (b',' ∷ number_text 10 scale) (word-NoSpace (i ∷ is) h.1) (
      refl,
      AllOf-map (λ c. is_digit c ≡ true) NoSpace (number_text 10 scale) digit-no_space
          (decimal_digits scale),
    ),
  ),
)

idx-ScanTo :
    (idx : Option Text) (scale : ℕ)
    → OnSome (Name is_word) idx
    → ScanTo (pos 1) (idx_text idx scale) (pos 1)
idx-ScanTo none scale h = refl
idx-ScanTo (some []) scale h = refl
idx-ScanTo (some (i ∷ is)) scale h = (
  refl,
  ScanTo-append (pos 1) (pos 1) (pos 1) (b'%' ∷ i ∷ is) (b',' ∷ number_text 10 scale)
      (plain-ScanTo (pos 1) (b'%' ∷ i ∷ is)
        (refl, AllOf-map (λ c. is_word c ≡ true) NoSeparator (i ∷ is) word-plain h.1))
      (
        refl,
        plain-ScanTo (pos 1) (number_text 10 scale) (
            AllOf-map (λ c. is_digit c ≡ true) NoSeparator (number_text 10 scale) digit-plain
              (decimal_digits scale)),
      ),
)

module _ (c : ℕ) (b : Text) (idx : Option Text) (scale : ℕ) (word : Pass is_word (c ∷ b))
    (name : OnSome (Name is_word) idx) (shown : ScaleShown idx scale) where
  abbrev inner : Text
  inner = inner_text (c ∷ b) idx scale

  groups-mem :
      (printed : Option Text) (disp : ℤ)
      → disp_of printed ≡ ok disp
      → mem_of (record { disp = printed; base = c ∷ b; idx = idx; scale = printed_scale idx scale })
        ≡ ok (mem disp (some (c ∷ b)) idx scale)
  groups-mem printed disp read =
      rw read
        (ap (λ s. Result.ok (mem disp (some (c ∷ b)) idx s)) (scale_of-printed idx scale shown))

  plain-hex :
      (disp : ℤ) → parse_plain (hex disp ++ (b'(' ∷ inner)) ≡ ok (mem disp (some (c ∷ b)) idx scale)
  plain-hex disp =
      parse_plain-match (hex disp ++ (b'(' ∷ inner)) _ (
        ap (λ o. mem_base (optional o (hex disp ++ (b'(' ∷ inner))))
          (number_run-hex_paren disp inner)
        ∙ inner-match (some (hex disp)) c b idx scale word name)
      ∙ groups-mem (some (hex disp)) disp (rw (disp_of, int_or_raise, int-hex disp) refl)

  plain-none : parse_plain (b'(' ∷ inner) ≡ ok (mem (pos 0) (some (c ∷ b)) idx scale)
  plain-none =
      parse_plain-match (b'(' ∷ inner) _ (inner-match none c b idx scale word name)
      ∙ groups-mem none (pos 0) refl

  stripped-hex :
      (disp : ℤ)
      → parse_stripped (hex disp ++ (b'(' ∷ inner)) ≡ parse_plain (hex disp ++ (b'(' ∷ inner))
  stripped-hex (pos n) = refl
  stripped-hex (negsuc n) = refl

  stripped-mem :
      (disp : ℤ)
      → parse_stripped (mem_text disp (c ∷ b) idx scale) ≡ ok (mem disp (some (c ∷ b)) idx scale)
  stripped-mem disp = elim (Bool-cases (nonzero disp)) [
    | inl on ↦ rw on (stripped-hex disp ∙ plain-hex disp)
    | inr off ↦ rw off (
        plain-none
        ∙ ap (λ d. Result.ok (mem d (some (c ∷ b)) idx scale)) (sym (zero_disp disp off)))
  ]

  inner-NoSpace : AllOf NoSpace inner
  inner-NoSpace = (
    refl,
    AllOf-append NoSpace (c ∷ b) (idx_text idx scale ++ (b')' ∷ [])) (word-NoSpace (c ∷ b) word) (
        AllOf-append NoSpace (idx_text idx scale) (b')' ∷ []) (idx-NoSpace idx scale name)
          (refl, tt)),
  )

  inner-ScanTo : Closed (b'(' ∷ inner)
  inner-ScanTo = (
    refl,
    ScanTo-append (pos 1) (pos 1) (pos 0) (b'%' ∷ c ∷ b) (idx_text idx scale ++ (b')' ∷ []))
        (plain-ScanTo (pos 1) (b'%' ∷ c ∷ b)
          (refl, AllOf-map (λ c. is_word c ≡ true) NoSeparator (c ∷ b) word-plain word))
        (ScanTo-append (pos 1) (pos 1) (pos 0) (idx_text idx scale) (b')' ∷ [])
          (idx-ScanTo idx scale name) (refl, refl)),
  )

  pub mem-Rereads : (disp : ℤ) → RereadsClosed (mem disp (some (c ∷ b)) idx scale)
  unfolding parse_operand emit_operand
  mem-Rereads disp =
      let t = mem_text disp (c ∷ b) idx scale in
      (
        t,
        refl,
        ap parse_stripped (
              strip-NoSpace t (
                AllOf-append NoSpace (disp_text disp) (b'(' ∷ inner)
                  (either_holds (AllOf NoSpace) (nonzero disp) (λ on. hex-NoSpace disp) (λ off. tt))
                  (refl, inner-NoSpace)))
            ∙ stripped-mem disp,
        ScanTo-append (pos 0) (pos 0) (pos 0) (disp_text disp) (b'(' ∷ inner)
            (either_holds (λ t. ScanTo (pos 0) t (pos 0)) (nonzero disp)
              (λ on. plain-ScanTo (pos 0) (hex disp) (hex-NoSeparator disp)) (λ off. refl))
            inner-ScanTo,
      )
