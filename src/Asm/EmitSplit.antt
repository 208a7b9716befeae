-- ===== src/Asm/EmitSplit.antt =====
-- The operands that `emit` prints on a line, split and parsed again as `lift_from_text` does.
use llama_tov.Prelude.{
  ◌≡◌, refl, sym, ap, ◌∙◌, subst, ◌⊎◌, inl, inr, Bool, true, false, List, [], ◌∷◌, ◌++◌, append-nil,
  arith, Result, ◌>>=◌, OnOk, Result-cases, chain-OnOk, ok, err, AllOf,
}
use llama_tov.Prelude.Int.{pos}
use llama_tov.Unroll.{Operand}
use llama_tov.Asm.Numbers.{Text, strip}
use llama_tov.Asm.Operand.{is_empty, parse_operand, emit_operand, parse_stripped}
use llama_tov.Asm.RoundTrip.{Printable, parse_operand-Reprinted}
use llama_tov.Asm.Lift.{split_operands, parse_all}
use llama_tov.Asm.Chain.{join_with, map_all}
use llama_tov.Asm.Closed.{
  ScanTo, Closed, Open, Pieces, Pieces-cons, strip-ScanTo, split_operands-Pieces,
  split_operands-scan,
}

-- a printed operand: it parses to `o`, and is closed unless it is the last one
abbrev pub Printed : Operand → Text → Type 0
Printed o t = (emit_operand o ≡ ok t) × (parse_operand t ≡ ok o)

abbrev pub AllPrinted : List Operand → List Text → Type 0
AllPrinted [] [] = Unit
AllPrinted (o ∷ ops) (t ∷ ts) = Printed o t × AllPrinted ops ts
AllPrinted _ _ = ⊥

abbrev pub separator : Text
separator = b',' ∷ b' ' ∷ []

reprint-Closed :
    (p : Text) (o : Operand)
    → parse_operand p ≡ ok o
    → Printable o
    → Closed p
    → (t : Text) × Printed o t × Closed t
reprint-Closed p o parsed printable closed =
    let (t, printed, again, shape) = parse_operand-Reprinted p o parsed printable in
    (t, (printed, again), shape_closed t shape)
  where
    shape_closed : (t : Text) → (t ≡ strip p) ⊎ Closed t → Closed t
    shape_closed t (inl same) = subst Closed (sym same) (strip-ScanTo (pos 0) p closed)
    shape_closed t (inr plain) = plain

reprint-Open :
    (p : Text) (o : Operand)
    → parse_operand p ≡ ok o
    → Printable o
    → Open p
    → (t : Text) × Printed o t × Open t
reprint-Open p o parsed printable (d, scan) =
    let (t, printed, again, shape) = parse_operand-Reprinted p o parsed printable in
    (t, (printed, again), shape_open t shape)
  where
    shape_open : (t : Text) → (t ≡ strip p) ⊎ Closed t → Open t
    shape_open t (inl same) =
        (d, subst (λ t. ScanTo (pos 0) t d) (sym same) (strip-ScanTo d p scan))
    shape_open t (inr plain) = (pos 0, plain)

-- the pieces of a line, printed again
abbrev pub PiecesPrinted : List Operand → Type 0
PiecesPrinted ops = AllOf Printable ops → (ts : List Text) × AllPrinted ops ts × Pieces ts

reprint-Pieces : (ps : List Text) → Pieces ps → OnOk PiecesPrinted (parse_all ps)
reprint-Pieces [] pieces = λ h. ([], tt, tt)
reprint-Pieces (p ∷ []) pieces = elim (Result-cases (parse_operand p)) [
  | inr (e, failed) ↦ rw failed tt
  | inl (o, parsed) ↦ rw parsed λ h.
      let (t, printed, open_end) = reprint-Open p o parsed h.0 pieces in
      (t ∷ [], (printed, tt), open_end)
]
reprint-Pieces (p ∷ u ∷ ps) pieces = elim (Result-cases (parse_operand p)) [
  | inr (e, failed) ↦ rw failed tt
  | inl (o, parsed) ↦ rw parsed (
      chain-OnOk PiecesPrinted PiecesPrinted (parse_all (u ∷ ps)) _
        (reprint-Pieces (u ∷ ps) pieces.1)
        λ ops rest h.
          let (t, printed, closed) = reprint-Closed p o parsed h.0 pieces.0 in
          let (ts, all, shut) = rest h.1 in (t ∷ ts, (printed, all), Pieces-cons t ts closed shut))
]

Printed-nonempty : (o : Operand) (t : Text) → Printed o t → is_empty t ≡ false
unfolding parse_operand emit_operand
Printed-nonempty o [] h = absurd (clash (ap is_ok (ap (λ r. r >>= emit_operand) h.1 ∙ h.0)))
  where
    is_ok : Result Text → Bool
    is_ok (ok t) = true
    is_ok (err e) = false

    clash : false ≡ true → ⊥
    clash h = ground arith
Printed-nonempty o (c ∷ t) h = refl

-- white space in front of an operand
abbrev pub Blank : Text → Type 0
Blank cur = (t : Text) → strip (cur ++ t) ≡ strip t

nonempty-append : (cur t : Text) → is_empty t ≡ false → is_empty (cur ++ t) ≡ false
nonempty-append [] t h = h
nonempty-append (c ∷ cur) t h = refl

parse_operand-Blank :
    (cur t : Text) (o : Operand)
    → Blank cur
    → parse_operand t ≡ ok o
    → parse_operand (cur ++ t) ≡ ok o
unfolding parse_operand
parse_operand-Blank cur t o blank parsed = ap parse_stripped (blank t) ∙ parsed

join-parse :
    (o : Operand) (ops : List Operand) (t : Text) (ts : List Text) (cur : Text)
    → Blank cur
    → AllPrinted (o ∷ ops) (t ∷ ts)
    → Pieces (t ∷ ts)
    → parse_all (split_operands (pos 0) cur (join_with separator (t ∷ ts))) ≡ ok (o ∷ ops)
join-parse o [] t [] cur blank (printed, none_left) (d, scan) =
    let whole =
      ap (split_operands (pos 0) cur) (sym (append-nil t))
      ∙ split_operands-scan (pos 0) d cur t [] scan in
    let there = nonempty-append cur t (Printed-nonempty o t printed) in
    ap parse_all whole ∙ rw (there, parse_operand-Blank cur t o blank printed.1) refl
join-parse o (o' ∷ ops) t [] cur blank (printed, nothing) pieces = elim nothing [ ]
join-parse o [] t (u ∷ ts) cur blank (printed, nothing) pieces = elim nothing [ ]
join-parse o (o' ∷ ops) t (u ∷ ts) cur blank (printed, all) (closed, pieces) =
    let rest = join_with separator (u ∷ ts) in
    ap parse_all (split_operands-scan (pos 0) (pos 0) cur t (separator ++ rest) closed)
    ∙ rw
        (
          parse_operand-Blank cur t o blank printed.1,
          join-parse o' ops u ts (b' ' ∷ []) (λ v. refl) all pieces,
        )
        refl

map_all-Printed :
    (ops : List Operand) (ts : List Text) → AllPrinted ops ts → map_all emit_operand ops ≡ ok ts
map_all-Printed [] [] h = refl
map_all-Printed [] (t ∷ ts) h = elim h [ ]
map_all-Printed (o ∷ ops) [] h = elim h [ ]
map_all-Printed (o ∷ ops) (t ∷ ts) h = rw (h.0.0, map_all-Printed ops ts h.1) refl

split-join :
    (ops : List Operand) (ts : List Text)
    → AllPrinted ops ts
    → Pieces ts
    → parse_all (split_operands (pos 0) [] (join_with separator ts)) ≡ ok ops
split-join [] [] h pieces = refl
split-join [] (t ∷ ts) h pieces = elim h [ ]
split-join (o ∷ ops) [] h pieces = elim h [ ]
split-join (o ∷ ops) (t ∷ ts) h pieces = join-parse o ops t ts [] (λ v. refl) h pieces

-- Whatever stands behind a mnemonic: if its operands, split at the commas outside parentheses, parse and
-- none is None or has a scale without an index, `emit_operand` prints them all, and their texts with
-- commas between, as `emit` writes them, split and parse to the same operands.
pub emit-split :
    (line : Text) (ops : List Operand)
    → parse_all (split_operands (pos 0) [] line) ≡ ok ops
    → AllOf Printable ops
    → (ts : List Text) × (map_all emit_operand ops ≡ ok ts)
      × (parse_all (split_operands (pos 0) [] (join_with separator ts)) ≡ ok ops)
emit-split line ops parsed printable =
    let pieces = split_operands-Pieces (pos 0) [] line refl in
    let (ts, all, shut) =
      OnOk-value (reprint-Pieces (split_operands (pos 0) [] line) pieces) parsed printable in
    (ts, map_all-Printed ops ts all, split-join ops ts all shut)
  where
    OnOk-value :
        {m : Result (List Operand)} {ops : List Operand}
        → OnOk PiecesPrinted m
        → m ≡ ok ops
        → PiecesPrinted ops
    OnOk-value h e = rw e at h
