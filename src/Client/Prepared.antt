-- ===== src/Client/Prepared.antt =====
-- drift/src: the handle that a request is performed with.
use unstable_drift.Prelude.{
  ℕ, ◌≡◌, refl, ap, sym, ◌∙◌, Option, none, some, List, [], ◌∷◌, ◌++◌, append_assoc, append-nil,
}
use unstable_drift.Prelude.{Result, ok, err, if◌then◌else◌, Bool-cases, inl, inr}
use unstable_drift.Bytes.{Bytes}
use unstable_drift.Bytes.Text.{ascii}
use unstable_drift.Bytes.Search.{contains}
use unstable_drift.Proxy.Chain.{Proxy}
use unstable_drift.Handle.Options.{
  TlsOptions, tls_default, HttpOptions, http_default, TcpOptions, tcp_default, TimeoutOptions,
  timeout_default, CookieOptions, cookie_default, DnsOptions, dns_default, GeneralOptions,
  general_default,
}
use unstable_drift.Handle.Settings.{
  Method, Body, Header, WispHandle, ConfigError, add_header, missing_scheme, new, set_body, set_url,
  set_method, set_tls_options, set_http_options, set_tcp_options, set_timeout_options,
  set_cookie_options, set_dns_options, set_general_options, set_mux, set_proxy_chain,
}
use unstable_drift.Client.{
  unwrap_or, ClientInner, ClientBuilder, Setter, mux, tls_options, http_options, tcp_options,
  timeout_options, cookie_options, dns_options, general_options, user_agent, default_header,
  proxy_chain, builder, apply, apply_all, with_agent, build, add_headers, with_mux, make_handle,
  prepare,
}

add_headers_lem :
    (hs : List Header) (h : WispHandle) → add_headers hs h ≡ record h { headers = h.headers ++ hs }
unfolding add_headers add_header
add_headers_lem [] h = ap (λ l. record h { headers = l }) (sym (append-nil h.headers))
add_headers_lem (hdr ∷ hs) h =
    add_headers_lem hs (add_header hdr.name hdr.value h)
    ∙ ap (λ l. record h { headers = l }) (append_assoc h.headers (hdr ∷ []) hs)

-- What the last of the calls of a kind gives, or `before`.
unfoldable pub latest :
    {A : Type 0} → (Setter → Option A) → List Setter → (before : Option A) → Option A
latest f [] before = before
latest f (s ∷ ss) before = latest f ss (or_else (f s) before)
  where
    or_else : {A : Type 0} → Option A → Option A → Option A
    or_else none b = b
    or_else (some a) b = some a

unfoldable pub defaults : List Setter → List Header
defaults [] = []
defaults (default_header name value ∷ ss) = record { name = name; value = value } ∷ defaults ss
defaults (_ ∷ ss) = defaults ss

unfoldable pub as_mux : Setter → Option ℕ
as_mux (mux m) = some m
as_mux _ = none

unfoldable pub as_tls : Setter → Option TlsOptions
as_tls (tls_options o) = some o
as_tls _ = none

unfoldable pub as_http : Setter → Option HttpOptions
as_http (http_options o) = some o
as_http _ = none

unfoldable pub as_tcp : Setter → Option TcpOptions
as_tcp (tcp_options o) = some o
as_tcp _ = none

unfoldable pub as_timeouts : Setter → Option TimeoutOptions
as_timeouts (timeout_options o) = some o
as_timeouts _ = none

unfoldable pub as_cookies : Setter → Option CookieOptions
as_cookies (cookie_options o) = some o
as_cookies _ = none

unfoldable pub as_dns : Setter → Option DnsOptions
as_dns (dns_options o) = some o
as_dns _ = none

unfoldable pub as_general : Setter → Option GeneralOptions
as_general (general_options o) = some o
as_general _ = none

unfoldable pub as_agent : Setter → Option Bytes
as_agent (user_agent ua) = some ua
as_agent _ = none

unfoldable pub as_chain : Setter → Option (List Proxy)
as_chain (proxy_chain c) = some c
as_chain _ = none

-- The builder after the calls: the last call of each kind counts, and the headers add up.
after : List Setter → ClientBuilder → ClientBuilder
after ss b = record {
  mux = latest as_mux ss b.mux;
  tls = latest as_tls ss b.tls;
  http = latest as_http ss b.http;
  tcp = latest as_tcp ss b.tcp;
  timeouts = latest as_timeouts ss b.timeouts;
  cookies = latest as_cookies ss b.cookies;
  dns = latest as_dns ss b.dns;
  general = latest as_general ss b.general;
  proxy_chain = unwrap_or (latest as_chain ss (some b.proxy_chain)) [];
  default_headers = b.default_headers ++ defaults ss;
  user_agent = latest as_agent ss b.user_agent;
}

apply_all-after : (ss : List Setter) (b : ClientBuilder) → apply_all ss b ≡ after ss b
unfolding apply_all apply after latest defaults as_mux as_tls as_http as_tcp as_timeouts as_cookies
    as_dns as_general as_agent as_chain
apply_all-after [] b =
    ap (λ l. record b { default_headers = l }) (sym (append-nil b.default_headers))
apply_all-after (default_header name value ∷ ss) b =
    let h : Header = record { name = name; value = value } in
    apply_all-after ss (record b { default_headers = b.default_headers ++ (h ∷ []) })
    ∙ ap (λ l. record (after ss b) { default_headers = l })
        (append_assoc b.default_headers (h ∷ []) (defaults ss))
apply_all-after (mux m ∷ ss) b = apply_all-after ss (record b { mux = some m })
apply_all-after (s ∷ ss) b = apply_all-after ss (apply s b)

-- The handle for a request of the client that these calls build.
unfoldable pub wanted :
    (version : Bytes) → List Setter → Method → (url : Bytes) → List Header → Body → WispHandle
wanted version ss method url headers body = record {
  url = some url;
  method = method;
  headers = defaults ss ++ headers;
  body = body;
  tls = unwrap_or (latest as_tls ss none) tls_default;
  http = unwrap_or (latest as_http ss none) http_default;
  tcp = unwrap_or (latest as_tcp ss none) tcp_default;
  timeouts = unwrap_or (latest as_timeouts ss none) timeout_default;
  cookies = unwrap_or (latest as_cookies ss none) cookie_default;
  dns = unwrap_or (latest as_dns ss none) dns_default;
  general =
      let general = unwrap_or (latest as_general ss none) (general_default version) in
      record general { user_agent = unwrap_or (latest as_agent ss none) (general.user_agent) };
  proxy_chain = unwrap_or (latest as_chain ss (some [])) [];
  mux = latest as_mux ss none;
  pool = none;
}

with_agent_lem :
    (o : Option Bytes) (g : GeneralOptions)
    → with_agent o g ≡ record g { user_agent = unwrap_or o (g.user_agent) }
unfolding with_agent
with_agent_lem none g = refl
with_agent_lem (some ua) g = refl

-- A fresh handle of a client.
seeded : (version : Bytes) → ClientInner → WispHandle
seeded version c = record (new version) {
  headers = c.default_headers;
  tls = c.tls;
  http = c.http;
  tcp = c.tcp;
  timeouts = c.timeouts;
  cookies = c.cookies;
  dns = c.dns;
  general = c.general;
  proxy_chain = c.proxy_chain;
  mux = c.mux;
}

with_mux_lem : (o : Option ℕ) (h : WispHandle) → h.mux ≡ none → with_mux o h ≡ record h { mux = o }
unfolding with_mux set_mux
with_mux_lem none h e = ap (λ m. record h { mux = m }) e
with_mux_lem (some m) h e = refl

make_handle-seeded : (version : Bytes) (c : ClientInner) → make_handle version c ≡ seeded version c
unfolding make_handle seeded new set_tls_options set_http_options set_tcp_options
    set_timeout_options set_cookie_options set_dns_options set_general_options set_proxy_chain
make_handle-seeded version c =
    ap (with_mux c.mux) (add_headers_lem c.default_headers _) ∙ with_mux_lem c.mux _ refl

-- What any client and request come to: the handle that `perform` is called on has the options that the
-- last call of each kind gave to the builder, or the defaults; the last user agent given stands over
-- that of the general options, whichever came first; the default headers come first, in their order,
-- and then the request's; and there is no pool. A URL without "://" is refused.
pub prepare_outcome :
    (version : Bytes) (ss : List Setter) (method : Method) (url : Bytes) (headers : List Header)
    (body : Body)
    → prepare version (record {
      client = build version (apply_all ss builder);
      method = method;
      url = url;
      headers = headers;
      body = body;
    })
      ≡ (if contains (ascii "://") url
          then ok (wanted version ss method url headers body)
          else err missing_scheme)
unfolding prepare set_url set_method set_body build builder after wanted seeded new
prepare_outcome version ss method url headers body =
    elim (Bool-cases (contains (ascii "://") url)) [
      | inr e ↦ rw e refl
      | inl e ↦
          let c = build version (apply_all ss builder) in
          let h = seeded version c in
          let same : seeded version c ≡ seeded version (build version (after ss builder)) =
            ap (λ b. seeded version (build version b)) (apply_all-after ss builder) in
          let put : WispHandle → Result ConfigError WispHandle = λ h.
            ok (
              set_body body (add_headers headers (record h { url = some url; method = method }))) in
          rw e (
            ap put (make_handle-seeded version c ∙ same)
            ∙ ap (λ h. ok (set_body body h)) (add_headers_lem headers _)
            ∙ ap (λ g. ok (record (wanted version ss method url headers body) { general = g }))
                (with_agent_lem (latest as_agent ss none)
                  (unwrap_or (latest as_general ss none) (general_default version))))
    ]
