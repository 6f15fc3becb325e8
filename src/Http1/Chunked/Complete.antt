-- ===== src/Http1/Chunked/Complete.antt =====
-- http1.rs, `read_chunked_body`: a chunked body is received.
use unstable_drift.Prelude.{
  ℕ, zero, suc, ◌+◌, ◌≤◌, ◌<◌, ◌≡◌, refl, ap, sym, ◌∙◌, false, Option, none, some, List, [], ◌++◌,
  length, take, drop, All, append_assoc, append-nil, cut_unique, length-append, arith,
}
use unstable_drift.Prelude.{ok, Succeeds, ◌==◌, ltb, le→ltb, Yields-ok}
use unstable_drift.Bytes.{Bytes}
use unstable_drift.Http1.{over, Rest}
use unstable_drift.Http1.Total.{Suffices}
use unstable_drift.Http1.Chunked.{
  usize, find_crlf, read_size_line, chunk_size, fill, take_chunk, read_chunk, chunks,
  read_chunked_body,
}
use unstable_drift.Http1.Chunked.Grammar.{
  Encodes, last, chunk, too_long, first_line, Took, read_chunk-Yields,
}
use unstable_drift.Http1.Chunked.Lines.{
  IsLine, line_end, line_unique, find_crlf-IsLine, Waited, size_line-Yields, size_line_total,
}
use unstable_drift.Http1.Chunked.Trailers.{Filled, fill-Yields, fill_total, skip_trailers_total}

within_less : (most : Option ℕ) (m n : ℕ) → m ≤ n → over most n ≡ false → over most m ≡ false
unfolding over
within_less none m n h o = refl
within_less (some k) m n h o = ground arith

-- A line that the peer sends is read, with what stands behind it.
line_read :
    (arrivals : List ℕ) (buf incoming line rest : Bytes)
    → Suffices incoming arrivals
    → IsLine line
    → buf ++ incoming ≡ line ++ line_end rest
    → Succeeds
        (read_size_line arrivals buf incoming)
        (λ r. Suffices r.2.0 r.2.1 × (take r.0 r.1 ≡ line) × (drop (r.0 + 2) r.1 ++ r.2.0 ≡ rest))
line_read arrivals buf incoming line rest s l e =
    let f : find_crlf (buf ++ incoming) ≡ some (length line) =
      ap find_crlf e ∙ find_crlf-IsLine line rest l in
    let (r, q, u) = size_line_total arrivals buf incoming (length line) s f in
    let w : Waited (buf ++ incoming) r =
      Yields-ok (Waited (buf ++ incoming)) (read_size_line arrivals buf incoming)
        (size_line-Yields arrivals buf incoming) q in
    let cut = first_line r.1 r.0 w.0 in
    let same = line_unique (take r.0 r.1) line (drop (r.0 + 2) r.1 ++ r.2.0) rest cut.1 l (
      sym (append_assoc (take r.0 r.1) (line_end (drop (r.0 + 2) r.1)) r.2.0)
      ∙ ap (λ x. x ++ r.2.0) (sym cut.0)
      ∙ w.1
      ∙ e) in
    (r, q, (u, same.0, same.1))

-- A chunk that is read is the one that the peer sends.
chunk_taken :
    (most : Option ℕ) (out buf incoming content end rest : Bytes) (arrivals : List ℕ)
    (r : Bytes × Bytes × Rest)
    → buf ++ incoming ≡ content ++ (end ++ rest)
    → length end ≡ 2
    → length out + length (buf ++ incoming) < too_long
    → read_chunk most (length content) out buf (incoming, arrivals) ≡ ok r
    → (r.0 ≡ out ++ content) × (r.1 ++ r.2.0 ≡ rest)
unfolding Took
chunk_taken most out buf incoming content end rest arrivals r e two h q =
    let t : Took most (length content) out (buf ++ incoming) r =
      Yields-ok (Took most (length content) out (buf ++ incoming))
        (read_chunk most (length content) out buf (incoming, arrivals))
        (read_chunk-Yields most (length content) out buf incoming arrivals h) q in
    let first = cut_unique t.0 content (t.1 ++ (r.1 ++ r.2.0)) (end ++ rest) t.3 (sym t.5 ∙ e) in
    let second = cut_unique t.1 end (r.1 ++ r.2.0) rest (t.4 ∙ sym two) first.1 in
    (t.2 ∙ ap (◌++◌ out) first.0, second.1)

-- A chunk that the peer sends is read.
chunk_read :
    (most : Option ℕ) (out buf incoming content end rest : Bytes) (arrivals : List ℕ)
    → Suffices incoming arrivals
    → buf ++ incoming ≡ content ++ (end ++ rest)
    → length end ≡ 2
    → length out + length (buf ++ incoming) < too_long
    → over most (length out + length content) ≡ false
    → Succeeds
        (read_chunk most (length content) out buf (incoming, arrivals))
        (λ r. Suffices r.2.0 r.2.1 × (r.0 ≡ out ++ content) × (r.1 ++ r.2.0 ≡ rest))
unfolding read_chunk take_chunk Took
chunk_read most out buf incoming content end rest arrivals s e two h o =
    let size = length content in
    let long : length (buf ++ incoming) ≡ size + (2 + length rest) =
      ap length e
      ∙ length-append content (end ++ rest)
      ∙ omega (arith, length-append end rest, two) in
    let b = length-append buf incoming in
    let sum : usize (length out + size) ≡ length out + size = omega (arith, long) in
    let far : usize (size + 2) ≡ size + 2 = omega (arith, long) in
    let (filled, q, u) =
      fill_total (usize (size + 2)) arrivals buf incoming s (omega (arith, long, b)) in
    let f : Filled (usize (size + 2)) (buf ++ incoming) filled =
      Yields-ok (Filled (usize (size + 2)) (buf ++ incoming))
        (fill (usize (size + 2)) arrivals buf incoming)
        (fill-Yields (usize (size + 2)) arrivals buf incoming) q in
    let fits : ltb (length filled.0) size ≡ false =
      le→ltb (length filled.0) size (omega (arith, f.0, far)) in
    let r : Bytes × Bytes × Rest =
      (out ++ take size filled.0, drop (usize (size + 2)) filled.0, filled.1) in
    let q' : read_chunk most size out buf (incoming, arrivals) ≡ ok r =
      rw (q, ap (over most) sum ∙ o, fits) refl in
    let k = chunk_taken most out buf incoming content end rest arrivals r e two h q' in
    (r, q', (u, k.0, k.1))

-- Every round succeeds, and the fuel lasts.
chunks_total :
    {wire body : Bytes} (most : Option ℕ) (fuel : ℕ) (out buf incoming : Bytes) (arrivals : List ℕ)
    → Encodes wire body
    → buf ++ incoming ≡ wire
    → Suffices incoming arrivals
    → length wire < fuel
    → length out + length wire < too_long
    → over most (length out + length body) ≡ false
    → chunks fuel most out buf incoming arrivals ≡ ok (out ++ body)
unfolding chunks
chunks_total most zero out buf incoming arrivals g e s f h o = absurd (omega arith)
chunks_total most (suc fuel) out buf incoming arrivals (last line rest w l z) e s f h o =
    let (r, q, k) = line_read arrivals buf incoming line rest s l (e ∙ w) in
    let size : chunk_size (take r.0 r.1) ≡ ok 0 = ap chunk_size k.1 ∙ z in
    rw (q, size)
      (skip_trailers_total _ out (drop (r.0 + 2) r.1) r.2.0 r.2.1 (omega arith)
        ∙ ap ok (sym (append-nil out)))
chunks_total most (suc fuel) out buf incoming arrivals
      (chunk {wire} {body} line content end rest w l z pos two g) e s f h o =
    let (r, q, k) = line_read arrivals buf incoming line _ s l (e ∙ w) in
    let size : chunk_size (take r.0 r.1) ≡ ok (length content) = ap chunk_size k.1 ∙ z in
    let more : (length content == 0) ≡ false = ground arith in
    let long = ap length w in
    let a = length-append line (line_end (content ++ (end ++ rest))) in
    let b = length-append content (end ++ rest) in
    let c = length-append end rest in
    let d = length-append content body in
    let i = length-append out content in
    let j = ap length k.2 in
    let (t, q', k') =
      chunk_read most out (drop (r.0 + 2) r.1) r.2.0 content end rest r.2.1 k.0 k.2 two
        (omega arith)
        (within_less most (length out + length content) (length out + length (content ++ body))
          (omega arith) o) in
    let n : length t.0 ≡ length out + length content = ap length k'.1 ∙ i in
    rw (q, size, more, q')
      (chunks_total most fuel t.0 t.1 t.2.0 t.2.1 g k'.2 k'.0 (omega arith) (omega (arith, n))
          (ap (over most) (omega (arith, n, d)) ∙ o)
        ∙ ap (λ x. ok (x ++ body)) k'.1
        ∙ ap ok (append_assoc out content body))

-- A chunked body is received, however its bytes arrive, as long as each read returns one and reads go
-- on until all have been read: the result is the chunks put together. They are not over the limit,
-- and what the peer sends is shorter than a `Vec` can be.
pub read_chunked_body_complete :
    (most : Option ℕ) (prefix incoming : Bytes) (arrivals : List ℕ) (body : Bytes)
    → Encodes (prefix ++ incoming) body
    → All (λ a. 0 < a) arrivals
    → length incoming ≤ length arrivals
    → length (prefix ++ incoming) < too_long
    → over most (length body) ≡ false
    → read_chunked_body most prefix (incoming, arrivals) ≡ ok body
unfolding read_chunked_body
read_chunked_body_complete most prefix incoming arrivals body g positive enough h o =
    let l = length-append prefix incoming in
    chunks_total most (suc (length prefix + length incoming)) [] prefix incoming arrivals g refl
      (positive, enough) (omega arith) (omega arith) (ap (over most) (omega arith) ∙ o)
