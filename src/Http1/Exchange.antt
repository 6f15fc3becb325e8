-- ===== src/Http1/Exchange.antt =====
-- http1.rs: `parse_response_head` and `send_request`. The parser of the `httparse` crate and the check of
-- a status code in the `http` crate are arguments. Errors of the stream itself are left out.
pub mod Sound
mod Examples
use unstable_drift.Prelude.{ℕ, zero, Bool, false, Option, none, some, List, [], ◌∷◌, take, drop}
use unstable_drift.Prelude.{Result, ok, err, ok_or, map_err, ◌>>=◌}
use unstable_drift.Bytes.{Bytes}
use unstable_drift.Bytes.Text.{ascii}
use unstable_drift.Bytes.Search.{to_lowercase, same_text}
use unstable_drift.Http1.{
  Http1Error, parse, parse_headers, bad_header, Rest, read_until_headers_end,
}
use unstable_drift.Http1.Body.{read_body}
use unstable_drift.Http1.Chunked.{Stop, fails}
use unstable_drift.Http1.Headers.{HeaderMap}
use unstable_drift.Http1.Request.{Http1Request, encode_request}

pub data Version : Type 0 where
  http_10 : Version
  http_11 : Version

-- What `httparse` makes of a head that it has read whole.
pub record ParsedHead : Type 0 where
  pub version : Option ℕ
  pub code : Option ℕ
  pub headers : List (Bytes × Bytes)

pub data Parsed : Type 0 where
  malformed : Parsed
  partial : Parsed
  complete : ParsedHead → Parsed

unfoldable pub version_of : Option ℕ → Version
version_of (some zero) = http_10
version_of _ = http_11

module _ (H : HeaderMap) (httparse : Bytes → Parsed) (status_from : ℕ → Option ℕ) where
  pub record Head : Type 0 where
    pub version : Version
    pub status : ℕ
    pub headers : H.Headers

  unfoldable pub collect : H.Headers → List (Bytes × Bytes) → Result Http1Error H.Headers
  collect headers [] = ok headers
  collect headers ((n, v) ∷ rest) = do
    name ← ok_or (H.name_from n) bad_header
    value ← ok_or (H.value_from v) bad_header
    collect (H.append headers name value) rest

  unfoldable pub head_of : Parsed → Result Http1Error Head
  head_of malformed = err parse
  head_of partial = err parse_headers
  head_of (complete resp) = do
    code ← ok_or resp.code parse_headers
    status ← ok_or (status_from code) parse
    headers ← collect H.new resp.headers
    ok (record { version = version_of resp.version; status = status; headers = headers })

  unfoldable pub parse_response_head : Bytes → Result Http1Error Head
  parse_response_head head = head_of (httparse head)

  pub record Http1Response : Type 0 where
    pub head : Head
    pub body : Bytes
    pub connection_keep_alive : Bool

  unfoldable pub keeps_alive : Option Bytes → Bool
  keeps_alive none = false
  keeps_alive (some v) = same_text (to_lowercase v) (ascii "keep-alive")

  unfoldable pub text_at : H.Headers → Bytes → Option Bytes
  text_at headers name = and_then (H.get headers name)
    where
      and_then : Option Bytes → Option Bytes
      and_then none = none
      and_then (some v) = H.to_str v

  -- What is written, and what comes of the bytes that the peer sends.
  unfoldable pub send_request : Http1Request H → Option ℕ → Rest → Bytes × Result Stop Http1Response
  send_request req most (incoming, arrivals) = (encode_request H req, answer)
    where
      answer : Result Stop Http1Response
      answer = do
        found ← map_err fails (read_until_headers_end arrivals [] incoming)
        head ← map_err fails (parse_response_head (take found.0 found.1))
        body ← read_body H head.headers (drop found.0 found.1) most found.2
        ok (record {
          head = head;
          body = body;
          connection_keep_alive = keeps_alive (text_at head.headers (ascii "connection"));
        })
