-- ===== src/Wasm/Url.antt =====
-- drift-wasm/src/websocket.rs: `parse_ws_url`, and how it compares with `parse_url` of handle.rs.
use unstable_drift.Prelude.{
  ℕ, ◌≡◌, ◌≢◌, ◌↔◌, refl, ap, sym, ◌∙◌, Option, none, some, [], ◌∷◌, ◌++◌, arith,
}
use unstable_drift.Prelude.{
  Result, ok, err, ok_or, ◌>>=◌, ◌==◌, ==_iff, if◌then◌else◌, Bool-cases, inl, inr,
}
use unstable_drift.Bytes.{Bytes}
use unstable_drift.Bytes.Text.{ascii, parse_u16}
use unstable_drift.Handle.{
  UrlFault, unsupported_scheme, bad_port, UrlScheme, http, https, ParsedUrl, split_scheme,
  scheme_of, prepend, authority_of, path_of, rsplit_colon, default_port, host_port, checked,
  parse_url,
}

-- `strip_prefix`
unfoldable pub strip_prefix : Bytes → Bytes → Option Bytes
strip_prefix [] text = some text
strip_prefix (p ∷ ps) [] = none
strip_prefix (p ∷ ps) (b ∷ bs) = let rest = strip_prefix ps bs in if p == b then rest else none

-- `split_once('/')`
unfoldable pub split_slash : Bytes → Option (Bytes × Bytes)
split_slash [] = none
split_slash (b ∷ bs) =
    let further = prepend b (split_slash bs) in if b == b'/' then some ([], bs) else further

-- The scheme without TLS stands for "ws", the other for "wss".
unfoldable pub scheme_and_rest : Bytes → Option (UrlScheme × Bytes)
scheme_and_rest url = secure (strip_prefix (ascii "wss://") url)
  where
    plain : Option Bytes → Option (UrlScheme × Bytes)
    plain none = none
    plain (some rest) = some (http, rest)

    secure : Option Bytes → Option (UrlScheme × Bytes)
    secure none = plain (strip_prefix (ascii "ws://") url)
    secure (some rest) = some (https, rest)

-- The host with its port, and the path.
unfoldable pub host_and_path : (rest : Bytes) → Option (Bytes × Bytes) → Bytes × Bytes
host_and_path rest none = (rest, b'/' ∷ [])
host_and_path rest (some (hp, p)) = (hp, b'/' ∷ p)

unfoldable pub ws_port : UrlScheme → Bytes → Option (Bytes × Bytes) → Result UrlFault (Bytes × ℕ)
ws_port scheme host none = ok (host, default_port scheme)
ws_port scheme host (some (h, p)) = do port ← ok_or (parse_u16 p) bad_port; ok (h, port)

unfoldable pub parse_ws_url : Bytes → Result UrlFault (Bytes × ℕ × Bytes)
parse_ws_url url = do
  sr ← ok_or (scheme_and_rest url) unsupported_scheme
  let hp = host_and_path sr.1 (split_slash sr.1) in
      do h ← ws_port sr.0 hp.0 (rsplit_colon hp.0); ok (h.0, h.1, hp.1)

-- The two ways to cut at the first slash agree.
slash_lem :
    (rest : Bytes) → host_and_path rest (split_slash rest) ≡ (authority_of rest, path_of rest)
unfolding host_and_path split_slash authority_of path_of prepend
slash_lem [] = refl
slash_lem (b ∷ bs) = elim (Bool-cases (b == 47)) [
  | inl e ↦ let same : b ≡ 47 = (==_iff b 47).0 e in rw e (ap (λ c. ([], c ∷ bs)) (sym same))
  | inr e ↦ rw e (further (split_slash bs) ∙ ap (λ r. (b ∷ r.0, r.1)) (slash_lem bs))
]
  where
    further :
        (o : Option (Bytes × Bytes))
        → host_and_path (b ∷ bs) (prepend b o)
          ≡ (b ∷ (host_and_path bs o).0, (host_and_path bs o).1)
    further none = refl
    further (some (front, back)) = refl

same_port :
    (scheme : UrlScheme) (a : Bytes) (o : Option (Bytes × Bytes))
    → ws_port scheme a o ≡ host_port scheme a o
unfolding ws_port host_port
same_port scheme a none = refl
same_port scheme a (some (h, p)) = refl

-- The two prefixes of a scheme.
abbrev pub web : UrlScheme → Bytes
web http = ascii "http://"
web https = ascii "https://"

abbrev pub ws : UrlScheme → Bytes
ws http = ascii "ws://"
ws https = ascii "wss://"

abbrev parts_of : (path : Bytes) → Bytes × ℕ → Result UrlFault (Bytes × ℕ × Bytes)
parts_of path h = ok (h.0, h.1, path)

parse_url_lem :
    (scheme : UrlScheme) (rest : Bytes)
    → parse_url (web scheme ++ rest) ≡ (
        host_port scheme (authority_of rest) (rsplit_colon (authority_of rest))
        >>= checked scheme (path_of rest))
unfolding parse_url split_scheme scheme_of prepend
parse_url_lem http rest = refl
parse_url_lem https rest = refl

ws_url_lem :
    (scheme : UrlScheme) (rest : Bytes)
    → parse_ws_url (ws scheme ++ rest) ≡ (
        host_port scheme (authority_of rest) (rsplit_colon (authority_of rest))
        >>= parts_of (path_of rest))
unfolding parse_ws_url scheme_and_rest strip_prefix
ws_url_lem http rest = rw (slash_lem rest, same_port) refl
ws_url_lem https rest = rw (slash_lem rest, same_port) refl

same_result :
    (scheme : UrlScheme) (path : Bytes) (r : Result UrlFault (Bytes × ℕ)) (u : ParsedUrl)
    → u.scheme ≡ scheme
    → u.host ≢ []
    → ((r >>= checked scheme path) ≡ ok u) ↔ ((r >>= parts_of path) ≡ ok (u.host, u.port, u.path))
unfolding checked
same_result scheme path (err e) u s h = (λ q. ground arith, λ q. ground arith)
same_result scheme path (ok ([], port)) u s h = (λ q. ground arith, λ q. ground arith)
same_result scheme path (ok (c ∷ host, port)) u s h = (λ q. ground arith, λ q. ground arith)

-- The WebSocket reader and the reader of request addresses agree: an address with `http` or `https` is
-- read as a given result with that scheme and a host that is not empty exactly when the same address
-- with `ws` or `wss` in its place is read as the same host, port and path.
pub parse_ws_url_iff :
    (scheme : UrlScheme) (rest : Bytes) (u : ParsedUrl)
    → u.scheme ≡ scheme
    → u.host ≢ []
    → (parse_url (web scheme ++ rest) ≡ ok u)
      ↔ (parse_ws_url (ws scheme ++ rest) ≡ ok (u.host, u.port, u.path))
parse_ws_url_iff scheme rest u s h =
    let r = host_port scheme (authority_of rest) (rsplit_colon (authority_of rest)) in
    rw (parse_url_lem scheme rest, ws_url_lem scheme rest)
      (same_result scheme (path_of rest) r u s h)
