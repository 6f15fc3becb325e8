-- ===== src/Http1/Chunked/Trailers.antt =====
-- http1.rs, `read_chunked_body`: the loops that fill the buffer with a chunk and that skip what stands
-- behind the last one.
use unstable_drift.Prelude.{
  ℕ, zero, suc, ◌+◌, ◌-◌, ◌≤◌, ◌<◌, ◌≡◌, refl, ap, false, some, List, [], ◌∷◌, ◌++◌, length, take,
  drop, min, subst, length-append, length-take, length-drop, arith,
}
use unstable_drift.Prelude.{
  Result, ok, Succeeds, ◌==◌, ltb, le→ltb, if-both, if-cases, Bool-cases, Option-cases, inl, inr,
  Yields,
}
use unstable_drift.Bytes.{Bytes}
use unstable_drift.Http1.{Http1Error, Rest}
use unstable_drift.Http1.Framing.{moved}
use unstable_drift.Http1.Total.{Suffices, later_Suffices}
use unstable_drift.Http1.Chunked.{find_crlf, fill, skip_trailers}
use unstable_drift.Http1.Chunked.Lines.{find_crlf-Cut}

-- What filling leaves of the bytes `wire`.
abbrev pub Filled : ℕ → Bytes → Bytes × Rest → Type 0
Filled need wire r = (need ≤ length r.0) × (r.0 ++ r.1.0 ≡ wire)

pub fill-Yields :
    (need : ℕ) (arrivals : List ℕ) (buf incoming : Bytes)
    → Yields (Filled need (buf ++ incoming)) (fill need arrivals buf incoming)
unfolding fill
fill-Yields need [] buf incoming =
    if-cases (Yields (Filled need (buf ++ incoming))) (ltb (length buf) need) (λ e. tt)
      (λ e. (ground arith, refl))
fill-Yields need (arriving ∷ later) buf incoming =
    let m = min arriving (min (need - length buf) 65536) in
    let got = take m incoming in
    let Y : Result Http1Error (Bytes × Rest) → Type 0 = Yields (Filled need (buf ++ incoming)) in
    if-cases Y (ltb (length buf) need)
      (λ e.
        if-cases Y (length got == 0) (λ z. tt)
          (λ z.
            subst (λ w. Yields (Filled need w) (fill need later (buf ++ got) (drop m incoming)))
              (moved m buf incoming) (fill-Yields need later (buf ++ got) (drop m incoming))))
      (λ e. (ground arith, refl))

pub fill_total :
    (need : ℕ) (arrivals : List ℕ) (buf incoming : Bytes)
    → Suffices incoming arrivals
    → need ≤ length buf + length incoming
    → Succeeds (fill need arrivals buf incoming) (λ r. Suffices r.1.0 r.1.1)
unfolding fill
fill_total need [] buf incoming s h =
    ((buf, (incoming, [])), rw (le→ltb (length buf) need (omega (arith, s.1))) refl, s)
fill_total need (arriving ∷ later) buf incoming s h = elim (Bool-cases (ltb (length buf) need)) [
  | inr e ↦ ((buf, (incoming, arriving ∷ later)), rw e refl, s)
  | inl e ↦
      let m = min arriving (min (need - length buf) 65536) in
      let got = take m incoming in
      let t = length-take m incoming in
      let d = length-drop m incoming in
      let l = length-append buf got in
      let p = s.0.0 in
      let less : length buf < need = ground arith in
      let pos : 0 < m = omega arith in
      let some : (length got == 0) ≡ false = ground arith in
      let (r, q, u) =
        fill_total need later (buf ++ got) (drop m incoming)
          (later_Suffices arriving m incoming later pos s) (omega arith) in
      (r, rw (e, some) q, u)
]

cut_shorter :
    (buf : Bytes) (p : ℕ) → find_crlf buf ≡ some p → length (drop (p + 2) buf) < length buf
cut_shorter buf p e =
    let (line, rest, c, n, l) = find_crlf-Cut buf p e in
    let d = length-drop (p + 2) buf in
    let k = length-append line (13 ∷ 10 ∷ rest) in
    let whole : length buf ≡ length (line ++ 13 ∷ 10 ∷ rest) = ap length c in omega arith

-- The trailers change nothing, and the fuel given is enough.
pub skip_trailers_total :
    (fuel : ℕ) (out buf incoming : Bytes) (arrivals : List ℕ)
    → length buf + length incoming + length arrivals < fuel
    → skip_trailers fuel out buf incoming arrivals ≡ ok out
unfolding skip_trailers
skip_trailers_total zero out buf incoming arrivals h = absurd (omega arith)
skip_trailers_total (suc fuel) out buf incoming [] h = elim (Option-cases (find_crlf buf)) [
  | inl e ↦ rw (skip_trailers, e) refl
  | inr (p, e) ↦
      let k = cut_shorter buf p e in
      let next = skip_trailers_total fuel out (drop (p + 2) buf) incoming [] (omega arith) in
      rw (skip_trailers, e) (if-both (λ r. r ≡ ok out) (p == 0) refl next)
]
skip_trailers_total (suc fuel) out buf incoming (arriving ∷ later) h =
    elim (Option-cases (find_crlf buf)) [
      | inl e ↦
          let n = min arriving 4096 in
          let t = length-take n incoming in
          let d = length-drop n incoming in
          let l = length-append buf (take n incoming) in
          let next =
            skip_trailers_total fuel out (buf ++ take n incoming) (drop n incoming) later
              (omega arith) in
          rw (skip_trailers, e)
            (if-both (λ r. r ≡ ok out) (length (take n incoming) == 0) refl next)
      | inr (p, e) ↦
          let k = cut_shorter buf p e in
          let next =
            skip_trailers_total fuel out (drop (p + 2) buf) incoming (arriving ∷ later)
              (omega arith) in
          rw (skip_trailers, e) (if-both (λ r. r ≡ ok out) (p == 0) refl next)
    ]
