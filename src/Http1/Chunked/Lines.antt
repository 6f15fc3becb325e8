-- ===== src/Http1/Chunked/Lines.antt =====
-- http1.rs, `read_chunked_body`: where a size line ends, and how it is waited for.
use unstable_drift.Prelude.{
  ℕ, suc, ◌<◌, ◌≡◌, refl, ap, sym, ◌∙◌, false, ◌&&◌, Option, none, some, subst, List, [], ◌∷◌, ◌++◌,
  length, take, drop, min, append-nil, cut_unique, length-take, arith,
}
use unstable_drift.Prelude.{
  Succeeds, Result, ◌==◌, if-cases, Bool-cases, Option-cases, inl, inr, Yields,
}
use unstable_drift.Bytes.{Bytes}
use unstable_drift.Http1.{Http1Error, one_further, Rest, found}
use unstable_drift.Http1.Framing.{moved}
use unstable_drift.Http1.Total.{Suffices, later_Suffices}
use unstable_drift.Http1.Chunked.{find_crlf, read_size_line}

-- A line holds no CRLF.
unfoldable pub IsLine : Bytes → Type 0
IsLine (a ∷ b ∷ rest) = (((a == 13) && (b == 10)) ≡ false) × IsLine (b ∷ rest)
IsLine _ = Unit

abbrev pub line_end : Bytes → Bytes
line_end rest = 13 ∷ 10 ∷ rest

pub find_crlf-IsLine :
    (line rest : Bytes) → IsLine line → find_crlf (line ++ line_end rest) ≡ some (length line)
unfolding IsLine find_crlf one_further
find_crlf-IsLine [] rest h = refl
find_crlf-IsLine (a ∷ []) rest h = ground arith
find_crlf-IsLine (a ∷ b ∷ l) rest h = rw (h.0, find_crlf-IsLine (b ∷ l) rest h.1) refl

-- A line and what stands behind its end.
abbrev pub Cut : Bytes → ℕ → Type 0
Cut buf p = (line rest : Bytes) × (buf ≡ line ++ line_end rest) × (length line ≡ p) × IsLine line

cons-IsLine :
    (a b : ℕ) (line rest more : Bytes)
    → ((a == 13) && (b == 10)) ≡ false
    → b ∷ more ≡ line ++ line_end rest
    → IsLine line
    → IsLine (a ∷ line)
unfolding IsLine
cons-IsLine a b [] rest more h e l = tt
cons-IsLine a b (c ∷ line) rest more h e l = (ground arith, l)

pub find_crlf-Cut : (buf : Bytes) (p : ℕ) → find_crlf buf ≡ some p → Cut buf p
unfolding find_crlf one_further IsLine
find_crlf-Cut [] p e = ground arith
find_crlf-Cut (a ∷ []) p e = ground arith
find_crlf-Cut (a ∷ b ∷ more) p e = elim (Bool-cases ((a == 13) && (b == 10))) [
  | inl h ↦ ([], more, ground arith, (some_lem (rw h at e)), tt)
  | inr h ↦ elim (Option-cases (find_crlf (b ∷ more))) [
    | inl k ↦ let f : none ≡ some p = sym (rw (h, k) refl) ∙ e in ground arith
    | inr (q, k) ↦
        let (line, rest, c, n, l) = find_crlf-Cut (b ∷ more) q k in
        let f : some (suc q) ≡ some p = sym (rw (h, k) refl) ∙ e in
        (a ∷ line, rest, ap (◌∷◌ a) c, ap suc n ∙ some_lem f, cons-IsLine a b line rest more h c l)
  ]
]
  where
    some_lem : {x y : ℕ} → some x ≡ some y → x ≡ y
    some_lem e = ground arith

-- Two ways to cut the first line off are one.
pub line_unique :
    (line line' rest rest' : Bytes)
    → IsLine line
    → IsLine line'
    → line ++ line_end rest ≡ line' ++ line_end rest'
    → (line ≡ line') × (rest ≡ rest')
line_unique line line' rest rest' h h' e = (cut.0, ap (drop 2) cut.1)
  where
    some_lem : {x y : ℕ} → some x ≡ some y → x ≡ y
    some_lem e = ground arith

    long : length line ≡ length line'
    long =
        some_lem
          (sym (find_crlf-IsLine line rest h) ∙ ap find_crlf e ∙ find_crlf-IsLine line' rest' h')

    cut : (line ≡ line') × (line_end rest ≡ line_end rest')
    cut = cut_unique line line' (line_end rest) (line_end rest') long e

-- What waiting for a line leaves of the bytes `wire`.
abbrev pub Waited : Bytes → ℕ × Bytes × Rest → Type 0
Waited wire r = (find_crlf r.1 ≡ some r.0) × (r.1 ++ r.2.0 ≡ wire)

found-Waited :
    (o : Option ℕ) (buf : Bytes) (rest : Rest) (otherwise : Result Http1Error (ℕ × Bytes × Rest))
    → find_crlf buf ≡ o
    → Yields (Waited (buf ++ rest.0)) otherwise
    → Yields (Waited (buf ++ rest.0)) (found o buf rest otherwise)
unfolding found
found-Waited none buf rest otherwise e h = h
found-Waited (some p) buf rest otherwise e h = (e, refl)

pub size_line-Yields :
    (arrivals : List ℕ) (buf incoming : Bytes)
    → Yields (Waited (buf ++ incoming)) (read_size_line arrivals buf incoming)
unfolding read_size_line
size_line-Yields [] buf incoming = found-Waited (find_crlf buf) buf (incoming, []) _ refl tt
size_line-Yields (arriving ∷ later) buf incoming =
    let n = min arriving 32768 in
    let got = take n incoming in
    found-Waited (find_crlf buf) buf (incoming, arriving ∷ later) _ refl
      (if-cases (Yields (Waited (buf ++ incoming))) (length got == 0) (λ e. tt)
        (λ e.
          subst (λ w. Yields (Waited w) (read_size_line later (buf ++ got) (drop n incoming)))
            (moved n buf incoming) (size_line-Yields later (buf ++ got) (drop n incoming))))

nothing_new :
    (buf incoming : Bytes) (p : ℕ)
    → find_crlf buf ≡ none
    → find_crlf (buf ++ incoming) ≡ some p
    → 0 < length incoming
nothing_new buf [] p e f =
    let g : none ≡ some p = sym e ∙ ap find_crlf (sym (append-nil buf)) ∙ f in ground arith
nothing_new buf (b ∷ bs) p e f = omega arith

-- A line that the peer sends is waited for long enough.
pub size_line_total :
    (arrivals : List ℕ) (buf incoming : Bytes) (p : ℕ)
    → Suffices incoming arrivals
    → find_crlf (buf ++ incoming) ≡ some p
    → Succeeds (read_size_line arrivals buf incoming) (λ r. Suffices r.2.0 r.2.1)
unfolding read_size_line found
size_line_total [] buf [] p s f =
    let g : find_crlf buf ≡ some p = ap find_crlf (sym (append-nil buf)) ∙ f in
    ((p, buf, ([], [])), rw g refl, s)
size_line_total [] buf (b ∷ bs) p s f = absurd (omega (arith, s.1))
size_line_total (arriving ∷ later) buf incoming p s f = elim (Option-cases (find_crlf buf)) [
  | inr (q, e) ↦ ((q, buf, (incoming, arriving ∷ later)), rw e refl, s)
  | inl e ↦
      let n = min arriving 32768 in
      let got = take n incoming in
      let new = nothing_new buf incoming p e f in
      let t = length-take n incoming in
      let pos = s.0.0 in
      let some : (length got == 0) ≡ false = ground arith in
      let (r, q, u) =
        size_line_total later (buf ++ got) (drop n incoming) p
          (later_Suffices arriving n incoming later (omega arith) s)
          (ap find_crlf (moved n buf incoming) ∙ f) in
      (r, rw (e, some) q, u)
]
