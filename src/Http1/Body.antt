-- ===== src/Http1/Body.antt =====
-- http1.rs: `read_body`, which chooses how the end of a body is found.
pub mod Sound
use unstable_drift.Prelude.{ℕ, Bool, true, false, Option, none, some, List, []}
use unstable_drift.Prelude.{Result, ok, err, ok_or, map_err, ◌>>=◌, if◌then◌else◌}
use unstable_drift.Bytes.{Bytes}
use unstable_drift.Bytes.Text.{ascii}
use unstable_drift.Bytes.Search.{to_lowercase, contains}
use unstable_drift.Bytes.Digits.{parse_u64}
use unstable_drift.Http1.{
  Http1Error, parse, unsupported_transfer_encoding, response_too_large, over, Rest, read_exact_body,
  to_the_end,
}
use unstable_drift.Http1.Chunked.{Stop, fails, read_chunked_body}
use unstable_drift.Http1.Headers.{HeaderMap}

unfoldable pub unwrap_or_empty : Option Bytes → Bytes
unwrap_or_empty none = []
unwrap_or_empty (some text) = text

module _ (H : HeaderMap) where
  -- `to_str().unwrap_or("")`
  unfoldable pub text_of : Bytes → Bytes
  text_of v = unwrap_or_empty (H.to_str v)

  -- The body behind a Transfer-Encoding header.
  unfoldable pub encoded_body : (te : Bytes) → Bytes → Option ℕ → Rest → Result Stop Bytes
  encoded_body te prefix most rest =
      if contains (ascii "chunked") (to_lowercase (text_of te))
      then read_chunked_body most prefix rest
      else err (fails unsupported_transfer_encoding)

  -- The body behind a Content-Length header.
  unfoldable pub counted_body : (cl : Bytes) → Bytes → Option ℕ → Rest → Result Stop Bytes
  counted_body cl prefix most rest = do
    n ← ok_or (parse_u64 (text_of cl)) (fails parse)
    if over most n
        then err (fails response_too_large)
        else do body ← map_err fails (read_exact_body prefix n rest); ok body.0

  unfoldable pub choose_body :
      Option Bytes → Option Bytes → Bytes → Option ℕ → Rest → Result Stop Bytes
  choose_body (some te) cl prefix most rest = encoded_body te prefix most rest
  choose_body none (some cl) prefix most rest = counted_body cl prefix most rest
  choose_body none none prefix most (incoming, arrivals) =
      map_err fails (to_the_end most arrivals prefix incoming)

  unfoldable pub read_body : H.Headers → Bytes → Option ℕ → Rest → Result Stop Bytes
  read_body headers prefix most rest =
      choose_body (H.get headers (ascii "transfer-encoding"))
        (H.get headers (ascii "content-length")) prefix most rest
