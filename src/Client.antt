-- ===== src/Client.antt =====
-- drift/src: the client builder of lib.rs, the request builder of request.rs up to the point where it
-- hands the handle to `perform`, and what response.rs reads off a response.
pub mod Prepared
mod Examples
use unstable_drift.Prelude.{ℕ, Option, none, some, List, [], ◌∷◌, ◌++◌}
use unstable_drift.Prelude.{Result, ok, err, ◌>>=◌, if◌then◌else◌}
use unstable_drift.Bytes.{Bytes}
use unstable_drift.Bytes.Search.{to_lowercase, same_text}
use unstable_drift.Bytes.Utf8.{is_utf8}
use unstable_drift.Proxy.Chain.{Proxy}
use unstable_drift.Handle.Options.{
  TlsOptions, tls_default, HttpOptions, http_default, TcpOptions, tcp_default, TimeoutOptions,
  timeout_default, CookieOptions, cookie_default, DnsOptions, dns_default, GeneralOptions,
  general_default,
}
use unstable_drift.Handle.Settings.{
  Method, Body, Header, WispHandle, ConfigError, new, set_url, set_method, add_header, set_body,
  set_tls_options, set_http_options, set_tcp_options, set_timeout_options, set_cookie_options,
  set_dns_options, set_general_options, set_mux, set_proxy_chain,
}

-- `Option::unwrap_or`
abbrev pub unwrap_or {ℓ} : {A : Type ℓ} → Option A → A → A
unwrap_or none a = a
unwrap_or (some b) a = b

pub record ClientInner : Type 0 where
  pub mux : Option ℕ
  pub tls : TlsOptions
  pub http : HttpOptions
  pub tcp : TcpOptions
  pub timeouts : TimeoutOptions
  pub cookies : CookieOptions
  pub dns : DnsOptions
  pub general : GeneralOptions
  pub proxy_chain : List Proxy
  pub default_headers : List Header

pub record ClientBuilder : Type 0 where
  pub mux : Option ℕ
  pub tls : Option TlsOptions
  pub http : Option HttpOptions
  pub tcp : Option TcpOptions
  pub timeouts : Option TimeoutOptions
  pub cookies : Option CookieOptions
  pub dns : Option DnsOptions
  pub general : Option GeneralOptions
  pub proxy_chain : List Proxy
  pub default_headers : List Header
  pub user_agent : Option Bytes

unfoldable pub builder : ClientBuilder
builder = record {
  mux = none;
  tls = none;
  http = none;
  tcp = none;
  timeouts = none;
  cookies = none;
  dns = none;
  general = none;
  proxy_chain = [];
  default_headers = [];
  user_agent = none;
}

-- A call of a setter of the builder.
pub data Setter : Type 0 where
  mux : ℕ → Setter
  tls_options : TlsOptions → Setter
  http_options : HttpOptions → Setter
  tcp_options : TcpOptions → Setter
  timeout_options : TimeoutOptions → Setter
  cookie_options : CookieOptions → Setter
  dns_options : DnsOptions → Setter
  general_options : GeneralOptions → Setter
  user_agent : Bytes → Setter
  default_header : (name value : Bytes) → Setter
  proxy_chain : List Proxy → Setter

unfoldable pub apply : Setter → ClientBuilder → ClientBuilder
apply (mux m) b = record b { mux = some m }
apply (tls_options opts) b = record b { tls = some opts }
apply (http_options opts) b = record b { http = some opts }
apply (tcp_options opts) b = record b { tcp = some opts }
apply (timeout_options opts) b = record b { timeouts = some opts }
apply (cookie_options opts) b = record b { cookies = some opts }
apply (dns_options opts) b = record b { dns = some opts }
apply (general_options opts) b = record b { general = some opts }
apply (user_agent ua) b = record b { user_agent = some ua }
apply (default_header name value) b = record b {
  default_headers = b.default_headers ++ (record { name = name; value = value } ∷ []);
}
apply (proxy_chain chain) b = record b { proxy_chain = chain }

unfoldable pub apply_all : List Setter → ClientBuilder → ClientBuilder
apply_all [] b = b
apply_all (s ∷ ss) b = apply_all ss (apply s b)

-- `if let Some(ua) = self.user_agent`
unfoldable pub with_agent : Option Bytes → GeneralOptions → GeneralOptions
with_agent none general = general
with_agent (some ua) general = record general { user_agent = ua }

unfoldable pub build : (version : Bytes) → ClientBuilder → ClientInner
build version b = record {
  mux = b.mux;
  tls = unwrap_or b.tls tls_default;
  http = unwrap_or b.http http_default;
  tcp = unwrap_or b.tcp tcp_default;
  timeouts = unwrap_or b.timeouts timeout_default;
  cookies = unwrap_or b.cookies cookie_default;
  dns = unwrap_or b.dns dns_default;
  general = with_agent b.user_agent (unwrap_or b.general (general_default version));
  proxy_chain = b.proxy_chain;
  default_headers = b.default_headers;
}

-- The loop over the headers.
unfoldable pub add_headers : List Header → WispHandle → WispHandle
add_headers [] h = h
add_headers (hdr ∷ rest) h = add_headers rest (add_header hdr.name hdr.value h)

unfoldable pub with_mux : Option ℕ → WispHandle → WispHandle
with_mux none h = h
with_mux (some m) h = set_mux m h

unfoldable pub make_handle : (version : Bytes) → ClientInner → WispHandle
make_handle version c =
    let h = set_tls_options c.tls (new version) in
    let h = set_http_options c.http h in
    let h = set_tcp_options c.tcp h in
    let h = set_timeout_options c.timeouts h in
    let h = set_cookie_options c.cookies h in
    let h = set_dns_options c.dns h in
    let h = set_general_options c.general h in
    let h = set_proxy_chain c.proxy_chain h in
    let h = add_headers c.default_headers h in with_mux c.mux h

pub record RequestBuilder : Type 0 where
  pub client : ClientInner
  pub method : Method
  pub url : Bytes
  pub headers : List Header
  pub body : Body

unfoldable pub request : ClientInner → Method → (url : Bytes) → RequestBuilder
request c method url = record {
  client = c;
  method = method;
  url = url;
  headers = [];
  body = Body.empty;
}

unfoldable pub header : (name value : Bytes) → RequestBuilder → RequestBuilder
header name value r = record r {
  headers = r.headers ++ (record { name = name; value = value } ∷ []);
}

unfoldable pub body_bytes : Bytes → RequestBuilder → RequestBuilder
body_bytes b r = record r { body = Body.bytes b }

unfoldable pub body_text : Bytes → RequestBuilder → RequestBuilder
body_text s r = record r { body = Body.text s }

-- `send`, up to `perform`.
unfoldable pub prepare : (version : Bytes) → RequestBuilder → Result ConfigError WispHandle
prepare version r = do
  h ← set_url r.url (set_method r.method (make_handle version r.client))
  ok (set_body r.body (add_headers r.headers h))

pub record Response : Type 0 where
  pub status : ℕ
  pub headers : List Header
  pub body : Bytes

-- `header`, over the headers of a response.
unfoldable pub header_in : List Header → (name : Bytes) → Option Bytes
header_in [] name = none
header_in (h ∷ rest) name =
    let further = header_in rest name in
    if same_text (to_lowercase h.name) (to_lowercase name) then some h.value else further

-- `text`: none if the body is not UTF-8.
unfoldable pub text_of : Response → Option Bytes
text_of r = if is_utf8 r.body then some r.body else none
