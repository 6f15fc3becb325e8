-- ===== src/Http1/Chunked/Sound.antt =====
-- http1.rs, `read_chunked_body`: what is accepted is a chunked body.
use unstable_drift.Prelude.{
  ℕ, zero, suc, ◌+◌, ◌≤◌, ◌<◌, ◌≡◌, refl, ap, sym, subst, ◌∙◌, false, Option, none, some, List, [],
  ◌++◌, length, take, drop, append_assoc, append-nil, length-append, arith,
}
use unstable_drift.Prelude.{
  Result, ok, ◌==◌, if-cases, Yields, Yields-ok, Yields-self, Yields-bind, Yields-map,
  Yields-map_err,
}
use unstable_drift.Bytes.{Bytes}
use unstable_drift.Http1.{over, Rest}
use unstable_drift.Http1.Chunked.{
  Stop, fails, read_size_line, chunk_size, read_chunk, chunks, read_chunked_body,
}
use unstable_drift.Http1.Chunked.Grammar.{
  Encodes, last, chunk, too_long, first_line, Took, read_chunk-Yields,
}
use unstable_drift.Http1.Chunked.Lines.{IsLine, line_end, Waited, size_line-Yields}
use unstable_drift.Http1.Chunked.Trailers.{skip_trailers_total}

-- What the outer loop yields from `out` on.
abbrev Decoded : Option ℕ → Bytes → Bytes → Bytes → Type 0
Decoded most wire out r =
    (body : Bytes) × (r ≡ out ++ body) × Encodes wire body × (over most (length r) ≡ false)

-- The rounds after a chunk.
then_Decoded :
    (most : Option ℕ) (line out wire body : Bytes) (size : ℕ) (taken : Bytes × Bytes × Rest)
    (m : Result Stop Bytes)
    → wire ≡ line ++ line_end body
    → IsLine line
    → chunk_size line ≡ ok size
    → 0 < size
    → Took most size out body taken
    → (length taken.0 + length (taken.1 ++ taken.2.0) ≤ length out + length body
        → over most (length taken.0) ≡ false
        → Yields (Decoded most (taken.1 ++ taken.2.0) taken.0) m)
    → Yields (Decoded most wire out) m
unfolding Took
then_Decoded most line out wire body size taken m front l z pos t k =
    let (content, end, e, n, two, split, o) = t in
    let a = length-append out content in
    let b = length-append content (end ++ (taken.1 ++ taken.2.0)) in
    let c = length-append end (taken.1 ++ taken.2.0) in
    let d : length taken.0 ≡ length (out ++ content) = ap length e in
    let f : length body ≡ length (content ++ (end ++ (taken.1 ++ taken.2.0))) = ap length split in
    Yields-map m
      (λ r d.
        let (more, p, g, w) = d in
        (
          content ++ more,
          p ∙ ap (λ x. x ++ more) e ∙ append_assoc out content more,
          chunk line content end (taken.1 ++ taken.2.0) (front ∙ ap (λ x. line ++ line_end x) split)
              l (z ∙ ap ok (sym n)) (omega (arith, n)) two g,
          w,
        ))
      (k (omega arith) o)

chunks-Yields :
    (fuel : ℕ) (most : Option ℕ) (out buf incoming : Bytes) (arrivals : List ℕ)
    → length out + length (buf ++ incoming) < too_long
    → over most (length out) ≡ false
    → Yields (Decoded most (buf ++ incoming) out) (chunks fuel most out buf incoming arrivals)
unfolding chunks
chunks-Yields zero most out buf incoming arrivals h o = tt
chunks-Yields (suc fuel) most out buf incoming arrivals h o =
    let Q = Decoded most (buf ++ incoming) out in
    Yields-bind (Waited (buf ++ incoming)) Q _ _
      (Yields-map_err (Waited (buf ++ incoming)) fails (read_size_line arrivals buf incoming)
        (size_line-Yields arrivals buf incoming))
      (λ line w.
        let body = drop (line.0 + 2) line.1 in
        let more = line.2.0 in
        let arrivals' = line.2.1 in
        let cut = first_line line.1 line.0 w.0 in
        let front : buf ++ incoming ≡ take line.0 line.1 ++ line_end (body ++ more) =
          sym w.1
          ∙ ap (λ x. x ++ more) cut.0
          ∙ append_assoc (take line.0 line.1) (line_end body) more in
        Yields-bind (λ n. chunk_size (take line.0 line.1) ≡ ok n) Q _ _
          (Yields-map_err (λ n. chunk_size (take line.0 line.1) ≡ ok n) fails
            (chunk_size (take line.0 line.1)) (Yields-self (chunk_size (take line.0 line.1))))
          (λ size z.
            if-cases (Yields Q) (size == 0)
              (λ e.
                let zero : size ≡ 0 = ground arith in
                let done =
                  skip_trailers_total (suc (length body + length more + length arrivals')) out body
                    more arrivals' (omega arith) in
                subst (Yields Q) (sym done) (
                  [],
                  sym (append-nil out),
                  last (take line.0 line.1) (body ++ more) front cut.1 (z ∙ ap ok zero),
                  o,
                ))
              (λ e.
                Yields-bind (Took most size out (body ++ more)) Q
                  (read_chunk most size out body (more, arrivals')) _
                  (read_chunk-Yields most size out body more arrivals' (
                    omega (
                      arith,
                      ap length front,
                      length-append (take line.0 line.1) (line_end (body ++ more)),
                    )))
                  (λ taken t.
                    then_Decoded most (take line.0 line.1) out (buf ++ incoming) (body ++ more) size
                      taken _ front cut.1 z (ground arith) t
                      (λ b o.
                        chunks-Yields fuel most taken.0 taken.1 taken.2.0 taken.2.1
                          (omega (
                            arith,
                            h,
                            b,
                            ap length front,
                            length-append (take line.0 line.1) (line_end (body ++ more)),
                          ))
                          o)))))

nothing_over : (most : Option ℕ) → over most 0 ≡ false
unfolding over
nothing_over none = refl
nothing_over (some m) = ground arith

-- A chunked body that is received, however its bytes arrive: what the peer sent is a sequence of size
-- lines, each followed by as many bytes as it says and two more, up to one that says 0; the body is
-- the chunks put together, and it is not over the limit. What was sent is shorter than a `Vec` can
-- be.
pub read_chunked_body_sound :
    (most : Option ℕ) (prefix incoming : Bytes) (arrivals : List ℕ) (body : Bytes)
    → length (prefix ++ incoming) < too_long
    → read_chunked_body most prefix (incoming, arrivals) ≡ ok body
    → Encodes (prefix ++ incoming) body × (over most (length body) ≡ false)
unfolding read_chunked_body
read_chunked_body_sound most prefix incoming arrivals body h e =
    let (r, p, g, o) =
      Yields-ok (Decoded most (prefix ++ incoming) [])
        (read_chunked_body most prefix (incoming, arrivals))
        (chunks-Yields (suc (length prefix + length incoming)) most [] prefix incoming arrivals
          (omega (arith, h)) (nothing_over most))
        e in
    (subst (Encodes (prefix ++ incoming)) (sym p) g, o)
