-- ===== src/Proxy/HttpConnect.antt =====
-- drift-core/src/proxy/http_connect.rs: the client of HTTP CONNECT.
--
-- A `read` returns some of the bytes that are there, at most as many as its buffer has room for; how
-- many it returns each time is the list `chunks`. Base64 is a parameter, the `base64` crate's.
pub mod Words
pub mod Outcome
use unstable_drift.Prelude.{
  ℕ, zero, suc, ◌+◌, ◌-◌, ◌*◌, ◌/◌, ◌%◌, Bool, true, false, ◌&&◌, ◌||◌, not, Option, none, some,
  List, [], ◌∷◌, ◌++◌, length, take, drop, min,
}
use unstable_drift.Prelude.{Result, ok, err, ok_or, map_err, ◌>>=◌, ◌==◌, leb, ltb, if◌then◌else◌}
use unstable_drift.Bytes.{Bytes}
use unstable_drift.Bytes.Utf8.{from_utf8}
use unstable_drift.Bytes.Text.{ascii, decimal, parse_u16, split_whitespace}
use unstable_drift.Proxy.{
  ProxyAuth, user_password, ProxyError, protocol, refused, eof_in_reply, reply_too_large, non_utf8,
  no_version, no_status_code, bad_status_code,
}
use unstable_drift.Proxy.Link.{Link, write_all}

-- `b"\r\n\r\n"` somewhere in the buffer: `windows(4).any(..)`.
unfoldable pub has_end : Bytes → Bool
has_end (a ∷ b ∷ c ∷ d ∷ rest) =
    let more = has_end (b ∷ c ∷ d ∷ rest) in
    (((a == 13) && (b == 10)) && ((c == 13) && (d == 10))) || more
has_end _ = false

abbrev pub reply_limit : ℕ
reply_limit = 16384

-- The first line: what comes before the first "\r\n", or all of it.
unfoldable pub first_line : Bytes → Bytes
first_line (a ∷ b ∷ rest) =
    let more = first_line (b ∷ rest) in if (a == 13) && (b == 10) then [] else a ∷ more
first_line line = line

abbrev crlf : Bytes
crlf = 13 ∷ 10 ∷ []

-- `{host}:{port}`
unfoldable pub authority : Bytes → ℕ → Bytes
authority host port = host ++ b':' ∷ decimal port

module _ (base64 : Bytes → Bytes) where
  unfoldable pub authorization : Option ProxyAuth → Bytes
  authorization none = []
  authorization (some (user_password user pass)) =
      ascii "Proxy-Authorization: Basic " ++ (base64 (user ++ b':' ∷ pass) ++ crlf)

  unfoldable pub request : Bytes → ℕ → Option ProxyAuth → Bytes
  request host port auth =
      (ascii "CONNECT " ++ (authority host port ++ (ascii " HTTP/1.1" ++ crlf)))
      ++ ((ascii "Host: " ++ (authority host port ++ crlf))
          ++ ((ascii "Proxy-Connection: keep-alive" ++ crlf) ++ (authorization auth ++ crlf)))

-- The loop over `read`. The list says how many bytes arrive at each read, until the peer closes.
unfoldable pub read_reply : List ℕ → (buf : Bytes) → Link → Result ProxyError (Bytes × Link)
read_reply [] buf s = if has_end buf then ok (buf, s) else err (protocol eof_in_reply)
read_reply (arriving ∷ chunks) buf s =
    let n = min arriving 256 in
    let got = take n s.incoming in
    let rest = read_reply chunks (buf ++ got) (record s { incoming = drop n s.incoming }) in
    if has_end buf
    then ok (buf, s)
    else if length got == 0
    then err (protocol eof_in_reply)
    else if ltb reply_limit (length (buf ++ got))
    then err (protocol reply_too_large)
    else rest

unfoldable pub status_of : List Bytes → Result ProxyError ℕ
status_of [] = err (protocol no_version)
status_of (version ∷ []) = err (protocol no_status_code)
status_of (version ∷ code ∷ rest) = ok_or (parse_u16 code) (protocol bad_status_code)

unfoldable pub check_status : Bytes → Result ProxyError (Unit {0})
check_status buf = do
  text ← map_err (λ e. protocol non_utf8) (from_utf8 buf)
  code ← status_of (split_whitespace (first_line text))
  if leb 200 code && ltb code 300 then ok tt else err (refused code)

unfoldable pub negotiate_http_connect :
    (base64 : Bytes → Bytes)
    → Bytes
    → ℕ
    → Option ProxyAuth
    → (chunks : List ℕ) → Link
    → Result ProxyError Link
negotiate_http_connect base64 host port auth chunks s = do
  s ← write_all (request base64 host port auth) s
  got ← read_reply chunks [] s
  checked ← check_status got.0
  ok got.1
