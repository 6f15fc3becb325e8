-- ===== src/Http1/Chunked/Grammar.antt =====
-- http1.rs, `read_chunked_body`: what a chunked body is, and what reading one chunk of it takes.
use unstable_drift.Prelude.{
  ℕ, ◌+◌, ◌≤◌, ◌<◌, ◌≡◌, refl, ap, sym, subst, ◌∙◌, false, Option, some, List, [], ◌++◌, length,
  take, drop, append_assoc, take-append-drop, take-length, drop_past, drop-drop, length-append,
  length-take, length-drop, arith,
}
use unstable_drift.Prelude.{Result, ok, ltb, if-cases, Yields, Yields-bind, Yields-map_err}
use unstable_drift.Bytes.{Bytes}
use unstable_drift.Http1.{over, Rest}
use unstable_drift.Http1.Chunked.{
  Stop, fails, usize, find_crlf, chunk_size, fill, take_chunk, read_chunk,
}
use unstable_drift.Http1.Chunked.Lines.{IsLine, line_end, find_crlf-Cut}
use unstable_drift.Http1.Chunked.Trailers.{Filled, fill-Yields}

-- The bytes that encode a body in chunks. The size may be followed by extensions; the two bytes behind
-- a chunk and all that stands behind the last size line are of no account.
pub data Encodes : Bytes → Bytes → Type 0 where
  last :
      {wire : Bytes} (line rest : Bytes)
      → wire ≡ line ++ line_end rest
      → IsLine line
      → chunk_size line ≡ ok 0
      → Encodes wire []
  chunk :
      {wire body : Bytes} (line content end rest : Bytes)
      → wire ≡ line ++ line_end (content ++ (end ++ rest))
      → IsLine line
      → chunk_size line ≡ ok (length content)
      → 0 < length content
      → length end ≡ 2
      → Encodes rest body
      → Encodes wire (content ++ body)

-- More bytes than a `Vec` holds.
abbrev pub too_long : ℕ
too_long = 9223372036854775808

-- The first line of a buffer, and what stands behind it.
pub first_line :
    (buf : Bytes) (p : ℕ)
    → find_crlf buf ≡ some p
    → (buf ≡ take p buf ++ line_end (drop (p + 2) buf)) × IsLine (take p buf)
first_line buf p e =
    let (line, rest, c, n, l) = find_crlf-Cut buf p e in
    let front : take p buf ≡ line =
      ap (take p) c
      ∙ ap (λ k. take k (line ++ line_end rest)) (sym n)
      ∙ take-length line (line_end rest) in
    let back : drop (p + 2) buf ≡ rest =
      ap (drop (p + 2)) c ∙ drop_past (p + 2) 2 line (line_end rest) (omega (arith, n)) in
    (
      c ∙ ap (λ x. x ++ line_end rest) (sym front) ∙ ap (λ x. take p buf ++ line_end x) (sym back),
      subst IsLine (sym front) l,
    )

-- What one round takes.
Taken : Option ℕ → ℕ → Bytes → Bytes → Bytes × Bytes → Type 0
Taken most size out buf r =
    (size ≤ length buf)
    × (r.0 ≡ out ++ take size buf)
    × (r.1 ≡ drop (size + 2) buf)
    × (over most (length out + size) ≡ false)

take_chunk-Yields :
    (most : Option ℕ) (size : ℕ) (out buf : Bytes)
    → length out + length buf < too_long
    → Yields (Taken most size out buf) (take_chunk most size out buf)
unfolding take_chunk Taken
take_chunk-Yields most size out buf h =
    let Y : Result Stop (Bytes × Bytes) → Type 0 = Yields (Taken most size out buf) in
    if-cases Y (over most (usize (length out + size))) (λ e. tt)
      (λ e.
        if-cases Y (ltb (length buf) size) (λ k. tt)
          (λ k.
            let fits : size ≤ length buf = ground arith in
            let sum : usize (length out + size) ≡ length out + size = omega arith in
            let far : usize (size + 2) ≡ size + 2 = omega arith in
            (fits, refl, ap (λ n. drop n buf) far, ap (over most) (sym sum) ∙ e)))

-- What a chunk and its end are in a buffer that holds them.
chunk-split :
    (size : ℕ) (buf more : Bytes)
    → size + 2 ≤ length buf
    → buf ++ more ≡ take size buf ++ (take 2 (drop size buf) ++ (drop (size + 2) buf ++ more))
chunk-split size buf more h =
    ap (λ x. x ++ more)
      (sym (take-append-drop size buf)
        ∙ ap (◌++◌ (take size buf)) (
            sym (take-append-drop 2 (drop size buf))
            ∙ ap (◌++◌ (take 2 (drop size buf))) (drop-drop (size + 2) size 2 buf refl)))
    ∙ append_assoc (take size buf) (take 2 (drop size buf) ++ drop (size + 2) buf) more
    ∙ ap (◌++◌ (take size buf)) (append_assoc (take 2 (drop size buf)) (drop (size + 2) buf) more)

-- What reading a chunk leaves.
unfoldable pub Took : Option ℕ → ℕ → (out wire : Bytes) → Bytes × Bytes × Rest → Type 0
Took most size out wire r =
    (content end : Bytes) × (r.0 ≡ out ++ content)
    × (length content ≡ size)
    × (length end ≡ 2)
    × (wire ≡ content ++ (end ++ (r.1 ++ r.2.0)))
    × (over most (length r.0) ≡ false)

pub read_chunk-Yields :
    (most : Option ℕ) (size : ℕ) (out buf incoming : Bytes) (arrivals : List ℕ)
    → length out + length (buf ++ incoming) < too_long
    → Yields
        (Took most size out (buf ++ incoming))
        (read_chunk most size out buf (incoming, arrivals))
unfolding read_chunk Took Taken
read_chunk-Yields most size out buf incoming arrivals h =
    let Q = Took most size out (buf ++ incoming) in
    let need = usize (size + 2) in
    let F = Filled need (buf ++ incoming) in
    Yields-bind F Q _ _
      (Yields-map_err F fails (fill need arrivals buf incoming)
        (fill-Yields need arrivals buf incoming))
      (λ filled f.
        let l : length filled.0 + length filled.1.0 ≡ length (buf ++ incoming) =
          sym (length-append filled.0 filled.1.0) ∙ ap length f.1 in
        Yields-bind (Taken most size out filled.0) Q (take_chunk most size out filled.0) _
          (take_chunk-Yields most size out filled.0 (omega (arith, l)))
          (λ taken t.
            let fits = t.0 in
            let reached = f.0 in
            let long : size + 2 ≤ length filled.0 = omega (arith, l) in
            let a = length-take size filled.0 in
            let b = length-take 2 (drop size filled.0) in
            let c = length-drop size filled.0 in
            let d : length (out ++ take size filled.0) ≡ length out + size =
              length-append out (take size filled.0) ∙ omega arith in
            (
              take size filled.0,
              take 2 (drop size filled.0),
              t.1,
              omega arith,
              omega arith,
              sym f.1
                  ∙ chunk-split size filled.0 filled.1.0 long
                  ∙ ap
                      (λ x.
                        take size filled.0 ++ (take 2 (drop size filled.0) ++ (x ++ filled.1.0)))
                      (sym t.2),
              ap (λ x. over most (length x)) t.1 ∙ ap (over most) d ∙ t.3,
            )))
