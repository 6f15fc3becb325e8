-- ===== src/Http1/Chunked/Examples.antt =====
-- A body of two chunks, a size that fits no `usize` with two bytes more, and a size that is none.
use unstable_drift.Prelude.{ℕ, ◌≡◌, refl, none, some, List, [], ◌∷◌, ◌++◌, ok, err, arith}
use unstable_drift.Bytes.{Bytes}
use unstable_drift.Bytes.Text.{ascii}
use unstable_drift.Http1.{over, chunked}
use unstable_drift.Http1.Chunked.{panics, fails, chunk_size, read_chunked_body}
use unstable_drift.Http1.Chunked.Complete.{read_chunked_body_complete}
use unstable_drift.Http1.Chunked.Grammar.{Encodes, last, chunk}
use unstable_drift.Http1.Chunked.Lines.{line_end}

abbrev front : Bytes
front =
    ascii "2;a"
    ++ line_end
        (ascii "ok" ++ line_end (ascii "0A" ++ line_end (ascii "0123456789" ++ line_end [])))

abbrev rest : Bytes
rest = ascii "0" ++ line_end (line_end [])

abbrev arrivals : List ℕ
arrivals = 1 ∷ 2 ∷ 1 ∷ 1 ∷ 1 ∷ []

abbrev body : Bytes
body = ascii "ok0123456789"

received : read_chunked_body (some 12) front (rest, arrivals) ≡ ok body
unfolding read_chunked_body unstable_drift.Http1.Chunked.chunks
    unstable_drift.Http1.Chunked.read_size_line unstable_drift.Http1.Chunked.find_crlf
    unstable_drift.Http1.Chunked.fill unstable_drift.Http1.Chunked.read_chunk
    unstable_drift.Http1.Chunked.take_chunk unstable_drift.Http1.Chunked.skip_trailers chunk_size
    unstable_drift.Http1.found unstable_drift.Http1.one_further over
    unstable_drift.Bytes.Utf8.is_utf8 unstable_drift.Bytes.Digits.parse_hex
    unstable_drift.Bytes.Digits.usize_digits unstable_drift.Bytes.Digits.hex_digit
    unstable_drift.Bytes.Search.trim unstable_drift.Bytes.Search.trim_end
    unstable_drift.Bytes.Search.trim_start_from unstable_drift.Bytes.Search.only_white
    unstable_drift.Bytes.Search.before_char unstable_drift.Bytes.Text.white
received = refl

is_encoded : Encodes (front ++ rest) body
unfolding chunk_size unstable_drift.Bytes.Utf8.is_utf8 unstable_drift.Bytes.Digits.parse_hex
    unstable_drift.Bytes.Search.trim unstable_drift.Bytes.Search.trim_end
    unstable_drift.Bytes.Search.trim_start_from unstable_drift.Bytes.Search.before_char
    unstable_drift.Bytes.Text.white unstable_drift.Bytes.Search.only_white
    unstable_drift.Bytes.Digits.usize_digits unstable_drift.Bytes.Digits.hex_digit
    unstable_drift.Http1.Chunked.Lines.IsLine
is_encoded =
    chunk (ascii "2;a") (ascii "ok") (line_end []) _ refl (refl, (refl, tt)) refl (omega arith) refl
      (chunk (ascii "0A") (ascii "0123456789") (line_end []) _ refl (refl, tt) refl (omega arith)
        refl (last (ascii "0") (line_end []) refl tt refl))

read_chunked_body_complete_example : read_chunked_body (some 12) front (rest, arrivals) ≡ ok body
unfolding over
read_chunked_body_complete_example =
    read_chunked_body_complete (some 12) front rest arrivals body is_encoded
      (omega arith, (omega arith, (omega arith, (omega arith, (omega arith, tt))))) (omega arith)
      (omega arith) refl

too_far :
    read_chunked_body none (ascii "ffffffffffffffff" ++ line_end (ascii "x")) ([], []) ≡ err panics
unfolding read_chunked_body unstable_drift.Http1.Chunked.chunks
    unstable_drift.Http1.Chunked.read_size_line unstable_drift.Http1.Chunked.find_crlf
    unstable_drift.Http1.Chunked.fill unstable_drift.Http1.Chunked.read_chunk
    unstable_drift.Http1.Chunked.take_chunk unstable_drift.Http1.Chunked.skip_trailers chunk_size
    unstable_drift.Http1.found unstable_drift.Http1.one_further over
    unstable_drift.Bytes.Utf8.is_utf8 unstable_drift.Bytes.Digits.parse_hex
    unstable_drift.Bytes.Digits.usize_digits unstable_drift.Bytes.Digits.hex_digit
    unstable_drift.Bytes.Search.trim unstable_drift.Bytes.Search.trim_end
    unstable_drift.Bytes.Search.trim_start_from unstable_drift.Bytes.Search.only_white
    unstable_drift.Bytes.Search.before_char unstable_drift.Bytes.Text.white
too_far = refl

no_size : read_chunked_body none (ascii "-1" ++ line_end []) ([], []) ≡ err (fails chunked)
unfolding read_chunked_body unstable_drift.Http1.Chunked.chunks
    unstable_drift.Http1.Chunked.read_size_line unstable_drift.Http1.Chunked.find_crlf
    unstable_drift.Http1.Chunked.fill unstable_drift.Http1.Chunked.read_chunk
    unstable_drift.Http1.Chunked.take_chunk unstable_drift.Http1.Chunked.skip_trailers chunk_size
    unstable_drift.Http1.found unstable_drift.Http1.one_further over
    unstable_drift.Bytes.Utf8.is_utf8 unstable_drift.Bytes.Digits.parse_hex
    unstable_drift.Bytes.Digits.usize_digits unstable_drift.Bytes.Digits.hex_digit
    unstable_drift.Bytes.Search.trim unstable_drift.Bytes.Search.trim_end
    unstable_drift.Bytes.Search.trim_start_from unstable_drift.Bytes.Search.only_white
    unstable_drift.Bytes.Search.before_char unstable_drift.Bytes.Text.white
no_size = refl
