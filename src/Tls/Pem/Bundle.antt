-- ===== src/Tls/Pem/Bundle.antt =====
-- tls.rs, `split_pem_certs`: it finds the certificates that a bundle was made of.
use unstable_drift.Prelude.{
  ℕ, zero, ◌<◌, ◌≡◌, ◌≢◌, refl, ap, ◌∙◌, sym, true, false, Option, none, some, List, [], ◌∷◌, ◌++◌,
  map, concat, All, All-append, All-split, All-map, append_assoc, append-nil, arith, subst,
}
use unstable_drift.Prelude.{◌==◌, lt→ltb}
use unstable_drift.Bytes.{Bytes, AreBytes}
use unstable_drift.Bytes.Text.{white}
use unstable_drift.Bytes.Search.{trim, trim_end, trim_start_from, only_white, same_text}
use unstable_drift.Bytes.Utf8.{from_utf8, is_utf8}
use unstable_drift.Tls.Base64.{base64, base64_decode-base64, IsText, base64-IsText}
use unstable_drift.Tls.Pem.{
  first_line, lines, begin_mark, end_mark, decoded, emitted, push_str, on_line, on_lines, certs_in,
  split_pem_certs,
}

-- Each line with a line feed behind it.
written : List Bytes → Bytes
written [] = []
written (l ∷ ls) = l ++ 10 ∷ written ls

-- A certificate in its lines, between the marks, with the bytes that they stand for.
abbrev pub Block : Type 0
Block = List Bytes × Bytes

pub block_lines : List Block → List Bytes
block_lines [] = []
block_lines ((ls, der) ∷ bs) = begin_mark ∷ (ls ++ end_mark ∷ block_lines bs)

pub bundle : List Block → Bytes
bundle blocks = written (block_lines blocks)

-- The lines make up the encoding of the bytes, cut anywhere.
unfoldable pub IsBlock : Block → Type 0
IsBlock (ls, der) = (concat ls ≡ base64 der) × AreBytes der

-- A byte of a line in ASCII.
IsInLine : ℕ → Type 0
IsInLine b = (b < 128) × (b ≢ 10) × (b ≢ 13)

white_none : (b : ℕ) (bs : Bytes) → 32 < b → b < 128 → white (b ∷ bs) ≡ 0
unfolding white
white_none b [] p q = ground arith
white_none b (c ∷ []) p q = ground arith
white_none b (c ∷ d ∷ bs) p q = ground arith

only_white_none : (b : ℕ) (bs : Bytes) → 32 < b → b < 128 → only_white zero (b ∷ bs) ≡ false
unfolding only_white
only_white_none b bs p q = rw (white_none b bs p q) refl

trim_end-text : (l : Bytes) → All IsText l → trim_end l ≡ l
unfolding trim_end IsText
trim_end-text [] h = refl
trim_end-text (b ∷ bs) (p, h) = rw (only_white_none b bs p.0 p.1, trim_end-text bs h) refl

trim-text : (l : Bytes) → All IsText l → trim l ≡ l
unfolding trim trim_start_from IsText trim_end
trim-text [] h = refl
trim-text (b ∷ bs) (p, h) = rw (white_none b bs p.0 p.1) (trim_end-text (b ∷ bs) (p, h))

unlike : (a b : ℕ) → a ≢ b → (a == b) ≡ false
unlike a b h = ground arith

lines-line : (l : Bytes) (rest : Bytes) → All IsInLine l → lines (l ++ 10 ∷ rest) ≡ l ∷ lines rest
unfolding lines IsInLine first_line
lines-line [] rest h = refl
lines-line (b ∷ bs) rest (p, h) = rw (unlike b 10 p.1, unlike b 13 p.2, lines-line bs rest h) refl

lines-written : (ls : List Bytes) → All (All IsInLine) ls → lines (written ls) ≡ ls
unfolding lines written
lines-written [] h = refl
lines-written (l ∷ ls) (p, h) = lines-line l (written ls) p ∙ ap (◌∷◌ l) (lines-written ls h)

utf8-ascii : (bs : Bytes) → All (λ b. b < 128) bs → is_utf8 bs ≡ true
unfolding is_utf8
utf8-ascii [] h = refl
utf8-ascii (a ∷ []) (p, h) = lt→ltb a 128 p
utf8-ascii (a ∷ b ∷ []) (p, h) = rw (lt→ltb a 128 p, utf8-ascii (b ∷ []) h) refl
utf8-ascii (a ∷ b ∷ c ∷ []) (p, h) = rw (lt→ltb a 128 p, utf8-ascii (b ∷ c ∷ []) h) refl
utf8-ascii (a ∷ b ∷ c ∷ d ∷ rest) (p, h) = rw (lt→ltb a 128 p, utf8-ascii (b ∷ c ∷ d ∷ rest) h) refl

marks-IsInLine : All IsInLine begin_mark × All IsInLine end_mark
unfolding IsInLine
marks-IsInLine = omega arith

text-IsInLine : (l : Bytes) → All IsText l → All IsInLine l
unfolding IsText IsInLine
text-IsInLine [] h = tt
text-IsInLine (b ∷ bs) (p, h) = ((p.1, omega arith, omega arith), text-IsInLine bs h)

not_mark : (l mark : Bytes) → All IsText l → same_text l (45 ∷ mark) ≡ false
unfolding IsText same_text
not_mark [] mark h = refl
not_mark (b ∷ bs) mark (p, h) = rw (unlike b 45 p.2) refl

trim-begin : trim begin_mark ≡ begin_mark
unfolding trim trim_start_from trim_end only_white white
trim-begin = refl

trim-end : trim end_mark ≡ end_mark
unfolding trim trim_start_from trim_end only_white white
trim-end = refl

on_line-text :
    (out : List Bytes) (current : Option Bytes) (l : Bytes)
    → All IsText l
    → on_line (out, current) l ≡ (out, push_str l current)
unfolding on_line
on_line-text out current l p = rw (trim-text l p, not_mark l _ p, not_mark l _ p) refl

on_line-begin :
    (out : List Bytes) (current : Option Bytes) → on_line (out, current) begin_mark ≡ (out, some [])
unfolding on_line same_text
on_line-begin out current = rw (trim-begin) refl

on_line-end :
    (out : List Bytes) (current : Option Bytes)
    → on_line (out, current) end_mark ≡ (out ++ emitted current, none)
unfolding on_line same_text
on_line-end out current = rw (trim-end) refl

-- The lines between the marks.
on_lines-text :
    (out : List Bytes) (acc : Bytes) (ls rest : List Bytes)
    → All (All IsText) ls
    → on_lines (out, some acc) (ls ++ rest) ≡ on_lines (out, some (acc ++ concat ls)) rest
unfolding on_lines push_str
on_lines-text out acc [] rest h = rw (append-nil acc) refl
on_lines-text out acc (l ∷ ls) rest (p, h) =
    ap (λ st. on_lines st (ls ++ rest)) (on_line-text out (some acc) l p)
    ∙ on_lines-text out (acc ++ l) ls rest h
    ∙ ap (λ a. on_lines (out, some a) rest) (append_assoc acc l (concat ls))

-- A line of a text is one.
concat-IsText : (ls : List Bytes) → All IsText (concat ls) → All (All IsText) ls
concat-IsText [] h = tt
concat-IsText (l ∷ ls) h = let (p, q) = All-split IsText l (concat ls) h in (p, concat-IsText ls q)

block-IsText : (b : Block) → IsBlock b → All (All IsText) b.0
unfolding IsBlock
block-IsText (ls, der) (e, h) = concat-IsText ls (subst (All IsText) (sym e) (base64-IsText der h))

emitted-block : (b : Block) → IsBlock b → emitted (some (concat b.0)) ≡ b.1 ∷ []
unfolding IsBlock emitted decoded
emitted-block (ls, der) (e, h) = rw (e, base64_decode-base64 der h) refl

-- The blocks of a bundle, behind certificates that are found already.
on_lines-blocks :
    (out : List Bytes) (blocks : List Block)
    → All IsBlock blocks
    → on_lines (out, none) (block_lines blocks) ≡ (out ++ map (λ (b : Block). b.1) blocks, none)
unfolding on_lines block_lines
on_lines-blocks out [] h = rw (append-nil out) refl
on_lines-blocks out ((ls, der) ∷ bs) (p, h) =
    ap (λ st. on_lines st (ls ++ end_mark ∷ block_lines bs)) (on_line-begin out none)
    ∙ on_lines-text out [] ls (end_mark ∷ block_lines bs) (block-IsText (ls, der) p)
    ∙ ap (λ st. on_lines st (block_lines bs))
        (on_line-end out (some (concat ls))
          ∙ ap (λ o. (out ++ o, none)) (emitted-block (ls, der) p))
    ∙ on_lines-blocks (out ++ der ∷ []) bs h
    ∙ ap (λ o. (o, none)) (append_assoc out (der ∷ []) (map (λ (b : Block). b.1) bs))

block_lines-IsInLine :
    (blocks : List Block) → All IsBlock blocks → All (All IsInLine) (block_lines blocks)
unfolding block_lines
block_lines-IsInLine [] h = tt
block_lines-IsInLine ((ls, der) ∷ bs) (p, h) = (
  marks-IsInLine.0,
  All-append (All IsInLine) ls (end_mark ∷ block_lines bs)
      (All-map text-IsInLine ls (block-IsText (ls, der) p))
      (marks-IsInLine.1, block_lines-IsInLine bs h),
)

written-ascii : (ls : List Bytes) → All (All IsInLine) ls → All (λ b. b < 128) (written ls)
unfolding written IsInLine
written-ascii [] h = tt
written-ascii (l ∷ ls) (p, h) =
    All-append (λ b. b < 128) l (10 ∷ written ls) (All-map (λ b q. q.0) l p)
      (omega arith, written-ascii ls h)

-- A bundle of certificates in PEM gives back the certificates in their order, however their encodings
-- are cut into lines.
pub split_pem_certs-bundle :
    (blocks : List Block)
    → All IsBlock blocks
    → split_pem_certs (bundle blocks) ≡ map (λ (b : Block). b.1) blocks
unfolding split_pem_certs certs_in from_utf8 bundle
split_pem_certs-bundle blocks h =
    let ls = block_lines blocks in
    let q = block_lines-IsInLine blocks h in
    rw (utf8-ascii (written ls) (written-ascii ls q)) (
      ap (λ ls. (on_lines ([], none) ls).0) (lines-written ls q)
      ∙ ap (λ r. r.0) (on_lines-blocks [] blocks h))
