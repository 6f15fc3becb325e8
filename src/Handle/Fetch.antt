-- ===== src/Handle/Fetch.antt =====
-- handle.rs: `perform_http1`, one request over a stream that is open.
pub mod Wanted
pub mod Fields
pub mod Sound
mod Examples
use unstable_drift.Prelude.{
  ℕ, Bool, true, false, ◌&&◌, ◌||◌, Option, none, some, List, [], ◌∷◌, ◌++◌,
}
use unstable_drift.Prelude.{Result, ok, err, ok_or, map_err, ◌>>=◌, ◌==◌, if◌then◌else◌}
use unstable_drift.Bytes.{Bytes}
use unstable_drift.Bytes.Text.{ascii, decimal}
use unstable_drift.Http1.{Rest}
use unstable_drift.Http1.Body.{unwrap_or_empty}
use unstable_drift.Http1.Chunked.{Stop}
use unstable_drift.Http1.Exchange.{Parsed, Http1Response, send_request, text_at}
use unstable_drift.Http1.Headers.{HeaderMap}
use unstable_drift.Http1.Request.{Http1Request}
use unstable_drift.Handle.{UrlScheme, http, https, ParsedUrl}
use unstable_drift.Handle.Compression.{CompressionError, decode_body, accept_encoding_header}
use unstable_drift.Handle.Options.{GeneralOptions}
use unstable_drift.Handle.Settings.{Method, as_str, Body, empty, bytes, text, Header, WispHandle}

-- What `Error::Config` and `Error::Internal` say.
pub data FetchError : Type 0 where
  bad_host : FetchError
  bad_name : FetchError
  bad_value : FetchError
  bad_agent : FetchError
  bad_method : FetchError
  http1 : Stop → FetchError
  decompress : CompressionError → FetchError

unfoldable pub is_default_port : UrlScheme → ℕ → Bool
is_default_port http port = port == 80
is_default_port https port = port == 443

unfoldable pub host_value : ParsedUrl → Bytes
host_value u = if is_default_port u.scheme u.port then u.host else u.host ++ (b':' ∷ decimal u.port)

unfoldable pub body_bytes : Body → Bytes
body_bytes empty = []
body_bytes (bytes v) = v
body_bytes (text s) = s

pub record Response : Type 0 where
  pub status : ℕ
  pub headers : List Header
  pub body : Bytes

module _ (H : HeaderMap) where
  -- The loop over the handle's headers.
  unfoldable pub append_all : List Header → H.Headers → Result FetchError H.Headers
  append_all [] m = ok m
  append_all (h ∷ hs) m = do
    name ← ok_or (H.name_from h.name) bad_name
    value ← ok_or (H.value_from h.value) bad_value
    append_all hs (H.append m name value)

  unfoldable pub with_agent : GeneralOptions → H.Headers → Result FetchError H.Headers
  with_agent general m =
      let added = do
        value ← ok_or (H.value_from general.user_agent) bad_agent
        ok (H.insert m (ascii "user-agent") value)
      in if H.contains_key m (ascii "user-agent") then ok m else added

  unfoldable pub inserted : H.Headers → Option Bytes → H.Headers
  inserted m none = m
  inserted m (some v) = H.insert m (ascii "accept-encoding") v

  unfoldable pub with_encodings : GeneralOptions → H.Headers → H.Headers
  with_encodings general m =
      if H.contains_key m (ascii "accept-encoding")
      then m
      else inserted m (accept_encoding_header general.compression)

  unfoldable pub build_headers : ParsedUrl → WispHandle → Result FetchError H.Headers
  build_headers u h = do
    value ← ok_or (H.value_from (host_value u)) bad_host
    given ← append_all h.headers (H.insert H.new (ascii "host") value)
    named ← with_agent h.general given
    ok (with_encodings h.general named)

  unfoldable pub request_for :
      (method_from : Bytes → Option Bytes)
      → ParsedUrl
      → WispHandle
      → Result FetchError (Http1Request H)
  request_for method_from u h = do
    headers ← build_headers u h
    method ← ok_or (method_from (as_str h.method)) bad_method
    ok (record { method = method; path = u.path; headers = headers; body = body_bytes h.body })

  unfoldable pub out_headers : List (Bytes × Bytes) → List Header
  out_headers [] = []
  out_headers ((name, value) ∷ rest) =
      record { name = name; value = unwrap_or_empty (H.to_str value) } ∷ out_headers rest

  -- What comes of the bytes that the peer sends. The parameters stand for httparse, for the checks of a
  -- method and of a status code, and for the two decoders.
  module _ (httparse : Bytes → Parsed) (status_from : ℕ → Option ℕ)
      (method_from gunzip unbrotli : Bytes → Option Bytes) where
    unfoldable pub response_of :
        Result Stop (Http1Response H httparse status_from) → Result FetchError Response
    response_of answer = do
      resp ← map_err http1 answer
      body ← map_err decompress (
          decode_body gunzip unbrotli resp.body
            (text_at H httparse status_from resp.head.headers (ascii "content-encoding")))
      ok (record {
        status = resp.head.status;
        headers = out_headers (H.entries resp.head.headers);
        body = body;
      })

    -- The bytes written, and the answer.
    unfoldable pub exchanged :
        WispHandle → Rest → Result FetchError (Http1Request H) → Bytes × Result FetchError Response
    exchanged h rest (err e) = ([], err e)
    exchanged h rest (ok req) =
        let sent = send_request H httparse status_from req h.general.max_response_size rest in
        (sent.0, response_of sent.1)

    unfoldable pub perform_http1 :
        ParsedUrl → WispHandle → Rest → Bytes × Result FetchError Response
    perform_http1 u h rest = exchanged h rest (request_for method_from u h)
