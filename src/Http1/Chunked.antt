-- ===== src/Http1/Chunked.antt =====
-- http1.rs: `read_chunked_body`. `usize` has 64 bits, and its sums wrap around.
pub mod Lines
pub mod Trailers
pub mod Grammar
pub mod Sound
pub mod Complete
mod Examples
use unstable_drift.Prelude.{
  ℕ, suc, zero, ◌+◌, ◌-◌, ◌%◌, Option, none, some, List, [], ◌∷◌, ◌++◌, length, take, drop, min,
  ◌&&◌,
}
use unstable_drift.Prelude.{Result, ok, err, ok_or, map_err, ◌>>=◌, ◌==◌, ltb, if◌then◌else◌}
use unstable_drift.Bytes.{Bytes}
use unstable_drift.Bytes.Search.{before_char, trim}
use unstable_drift.Bytes.Digits.{parse_hex}
use unstable_drift.Bytes.Utf8.{is_utf8}
use unstable_drift.Http1.{
  Http1Error, chunked, response_too_large, one_further, over, Rest, found, head_room, body_room,
}

-- How a call ends without a body. The source panics where it cuts a slice out of bounds; fuel is the
-- model's.
pub data Stop : Type 0 where
  fails : Http1Error → Stop
  panics : Stop
  out_of_fuel : Stop

abbrev pub usize : ℕ → ℕ
usize n = n % 18446744073709551616

unfoldable pub find_crlf : Bytes → Option ℕ
find_crlf (a ∷ b ∷ rest) =
    let further = find_crlf (b ∷ rest) in
    if (a == 13) && (b == 10) then some 0 else one_further further
find_crlf _ = none

-- The loop that waits for the end of a size line: its index, the buffer, and what is left.
unfoldable pub read_size_line :
    List ℕ → (buf incoming : Bytes) → Result Http1Error (ℕ × Bytes × Rest)
read_size_line [] buf incoming = found (find_crlf buf) buf (incoming, []) (err chunked)
read_size_line (arriving ∷ later) buf incoming =
    let n = min arriving head_room in
    let got = take n incoming in
    let next = read_size_line later (buf ++ got) (drop n incoming) in
    found (find_crlf buf) buf (incoming, arriving ∷ later)
      (if length got == 0 then err chunked else next)

-- The number on a size line.
unfoldable pub chunk_size : Bytes → Result Http1Error ℕ
chunk_size line =
    if is_utf8 line then ok_or (parse_hex (trim (before_char b';' line))) chunked else err chunked

-- The loop behind the last chunk.
unfoldable pub skip_trailers : (fuel : ℕ) → (out buf incoming : Bytes) → List ℕ → Result Stop Bytes
skip_trailers zero out buf incoming arrivals = err out_of_fuel
skip_trailers (suc fuel) out buf incoming arrivals = elim (find_crlf buf) [
  | some p ↦
      let next = skip_trailers fuel out (drop (p + 2) buf) incoming arrivals in
      if p == 0 then ok out else next
  | none ↦ elim arrivals [
    | [] ↦ ok out
    | arriving ∷ later ↦
        let n = min arriving 4096 in
        let got = take n incoming in
        let next = skip_trailers fuel out (buf ++ got) (drop n incoming) later in
        if length got == 0 then ok out else next
  ]
]

-- The loop that fills the buffer up to `need` bytes.
unfoldable pub fill :
    (need : ℕ) → List ℕ → (buf incoming : Bytes) → Result Http1Error (Bytes × Rest)
fill need [] buf incoming = if ltb (length buf) need then err chunked else ok (buf, (incoming, []))
fill need (arriving ∷ later) buf incoming =
    let m = min arriving (min (need - length buf) body_room) in
    let got = take m incoming in
    let next = fill need later (buf ++ got) (drop m incoming) in
    if ltb (length buf) need
    then (if length got == 0 then err chunked else next)
    else ok (buf, (incoming, arriving ∷ later))

-- The body of a chunk of `size` bytes, put behind `out`, and what is left in the buffer.
unfoldable pub take_chunk : Option ℕ → (size : ℕ) → (out buf : Bytes) → Result Stop (Bytes × Bytes)
take_chunk most size out buf =
    if over most (usize (length out + size))
    then err (fails response_too_large)
    else if ltb (length buf) size
    then err panics
    else ok (out ++ take size buf, drop (usize (size + 2)) buf)

-- A chunk of `size` bytes: the body so far, the buffer, and what is left.
unfoldable pub read_chunk :
    Option ℕ → (size : ℕ) → (out buf : Bytes) → Rest → Result Stop (Bytes × Bytes × Rest)
read_chunk most size out buf (incoming, arrivals) = do
  filled ← map_err fails (fill (usize (size + 2)) arrivals buf incoming)
  taken ← take_chunk most size out filled.0
  ok (taken.0, taken.1, filled.1)

-- The outer loop.
unfoldable pub chunks :
    (fuel : ℕ) → Option ℕ → (out buf incoming : Bytes) → List ℕ → Result Stop Bytes
chunks zero most out buf incoming arrivals = err out_of_fuel
chunks (suc fuel) most out buf incoming arrivals = do
  line ← map_err fails (read_size_line arrivals buf incoming)
  size ← map_err fails (chunk_size (take line.0 line.1))
  let body = drop (line.0 + 2) line.1 in
      let rest = line.2 in
      let next = do
        taken ← read_chunk most size out body rest
        chunks fuel most taken.0 taken.1 taken.2.0 taken.2.1
      in if size == 0
        then skip_trailers (suc (length body + length rest.0 + length rest.1)) out body rest.0
            rest.1
        else next

-- A size line takes two bytes, so there are no more rounds than bytes.
unfoldable pub read_chunked_body : Option ℕ → (prefix : Bytes) → Rest → Result Stop Bytes
read_chunked_body most prefix (incoming, arrivals) =
    chunks (suc (length prefix + length incoming)) most [] prefix incoming arrivals
