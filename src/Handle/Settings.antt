-- ===== src/Handle/Settings.antt =====
-- handle.rs: `WispHandle` and its setters. A mux and a pool are known by a number.
pub mod Lens
mod Examples
use unstable_drift.Prelude.{ℕ, Bool, true, false, Option, none, some, List, [], ◌∷◌, ◌++◌, length}
use unstable_drift.Prelude.{Result, ok, err, ◌==◌, if◌then◌else◌}
use unstable_drift.Bytes.{Bytes}
use unstable_drift.Bytes.Text.{ascii}
use unstable_drift.Bytes.Search.{contains}
use unstable_drift.Proxy.Chain.{Proxy}
use unstable_drift.Handle.Options.{
  TlsVersion, TlsOptions, tls_default, HttpOptions, http_default, TcpOptions, tcp_default,
  TimeoutOptions, timeout_default, CookieOptions, cookie_default, DnsOptions, dns_default,
  GeneralOptions, general_default,
}

pub data Method : Type 0 where
  get : Method
  post : Method
  put : Method
  delete : Method
  patch : Method
  head : Method
  options : Method
  custom : Bytes → Method

unfoldable pub as_str : Method → Bytes
as_str get = ascii "GET"
as_str post = ascii "POST"
as_str put = ascii "PUT"
as_str delete = ascii "DELETE"
as_str patch = ascii "PATCH"
as_str head = ascii "HEAD"
as_str options = ascii "OPTIONS"
as_str (custom s) = s

pub data Opt : Type 0 where
  tls_verify_peer : Opt
  tls_verify_host : Opt
  tls_min_version : Opt
  tls_max_version : Opt
  http_follow_redirects : Opt
  http_max_redirects : Opt
  tcp_nodelay : Opt
  tcp_keepalive : Opt
  timeout_total : Opt
  timeout_connect : Opt
  cookies_enabled : Opt
  user_agent : Opt
  verbose : Opt
  max_response_size : Opt

pub data OptValue : Type 0 where
  bool : Bool → OptValue
  u32 : ℕ → OptValue
  u64 : ℕ → OptValue
  duration : ℕ → OptValue
  string : Bytes → OptValue
  tls_version : TlsVersion → OptValue
  nothing : OptValue

pub data Body : Type 0 where
  empty : Body
  bytes : Bytes → Body
  text : Bytes → Body

unfoldable pub len : Body → ℕ
len empty = 0
len (bytes b) = length b
len (text s) = length s

unfoldable pub is_empty : Body → Bool
is_empty body = len body == 0

pub record Header : Type 0 where
  pub name : Bytes
  pub value : Bytes

pub record WispHandle : Type 0 where
  pub url : Option Bytes
  pub method : Method
  pub headers : List Header
  pub body : Body
  pub tls : TlsOptions
  pub http : HttpOptions
  pub tcp : TcpOptions
  pub timeouts : TimeoutOptions
  pub cookies : CookieOptions
  pub dns : DnsOptions
  pub general : GeneralOptions
  pub proxy_chain : List Proxy
  pub mux : Option ℕ
  pub pool : Option ℕ

unfoldable pub new : (version : Bytes) → WispHandle
new version = record {
  url = none;
  method = get;
  headers = [];
  body = empty;
  tls = tls_default;
  http = http_default;
  tcp = tcp_default;
  timeouts = timeout_default;
  cookies = cookie_default;
  dns = dns_default;
  general = general_default version;
  proxy_chain = [];
  mux = none;
  pool = none;
}

-- `Error::Config`
pub data ConfigError : Type 0 where
  missing_scheme : ConfigError
  wrong_value : Opt → OptValue → ConfigError

unfoldable pub set_url : Bytes → WispHandle → Result ConfigError WispHandle
set_url s h =
    if contains (ascii "://") s then ok (record h { url = some s }) else err missing_scheme

unfoldable pub add_header : (name value : Bytes) → WispHandle → WispHandle
add_header name value h = record h {
  headers = h.headers ++ (record { name = name; value = value } ∷ []);
}

unfoldable pub set_method : Method → WispHandle → WispHandle
set_method method h = record h { method = method }

unfoldable pub set_body : Body → WispHandle → WispHandle
set_body body h = record h { body = body }

unfoldable pub set_tls_options : TlsOptions → WispHandle → WispHandle
set_tls_options opts h = record h { tls = opts }

unfoldable pub set_http_options : HttpOptions → WispHandle → WispHandle
set_http_options opts h = record h { http = opts }

unfoldable pub set_tcp_options : TcpOptions → WispHandle → WispHandle
set_tcp_options opts h = record h { tcp = opts }

unfoldable pub set_timeout_options : TimeoutOptions → WispHandle → WispHandle
set_timeout_options opts h = record h { timeouts = opts }

unfoldable pub set_cookie_options : CookieOptions → WispHandle → WispHandle
set_cookie_options opts h = record h { cookies = opts }

unfoldable pub set_dns_options : DnsOptions → WispHandle → WispHandle
set_dns_options opts h = record h { dns = opts }

unfoldable pub set_general_options : GeneralOptions → WispHandle → WispHandle
set_general_options opts h = record h { general = opts }

unfoldable pub set_mux : ℕ → WispHandle → WispHandle
set_mux mux h = record h { mux = some mux }

unfoldable pub set_pool : ℕ → WispHandle → WispHandle
set_pool pool h = record h { pool = some pool }

unfoldable pub set_proxy_chain : List Proxy → WispHandle → WispHandle
set_proxy_chain chain h = record h { proxy_chain = chain }

-- The value that the option has afterwards, put where it belongs; `none` if the option does not take it.
unfoldable pub put_option : Opt → OptValue → WispHandle → Option WispHandle
put_option tls_verify_peer (bool b) h = some (record h { tls = record (h.tls) { verify_peer = b } })
put_option tls_verify_host (bool b) h = some (record h { tls = record (h.tls) { verify_host = b } })
put_option tls_min_version (tls_version v) h =
    some (record h { tls = record (h.tls) { min_version = v } })
put_option tls_max_version (tls_version v) h =
    some (record h { tls = record (h.tls) { max_version = v } })
put_option http_follow_redirects (bool b) h =
    some (record h { http = record (h.http) { follow_redirects = b } })
put_option http_max_redirects (u32 n) h =
    some (record h { http = record (h.http) { max_redirects = n } })
put_option tcp_nodelay (bool b) h = some (record h { tcp = record (h.tcp) { nodelay = b } })
put_option tcp_keepalive (bool b) h = some (record h { tcp = record (h.tcp) { keepalive = b } })
put_option timeout_total (duration d) h =
    some (record h { timeouts = record (h.timeouts) { total = some d } })
put_option timeout_total nothing h =
    some (record h { timeouts = record (h.timeouts) { total = none } })
put_option timeout_connect (duration d) h =
    some (record h { timeouts = record (h.timeouts) { connect = d } })
put_option cookies_enabled (bool b) h =
    some (record h { cookies = record (h.cookies) { enabled = b } })
put_option user_agent (string s) h =
    some (record h { general = record (h.general) { user_agent = s } })
put_option verbose (bool b) h = some (record h { general = record (h.general) { verbose = b } })
put_option max_response_size (u64 n) h =
    some (record h { general = record (h.general) { max_response_size = some n } })
put_option max_response_size nothing h =
    some (record h { general = record (h.general) { max_response_size = none } })
put_option key value h = none

-- The handle afterwards, and the result.
unfoldable pub set_option : Opt → OptValue → WispHandle → WispHandle × Result ConfigError (Unit {0})
set_option key value h = outcome (put_option key value h)
  where
    outcome : Option WispHandle → WispHandle × Result ConfigError (Unit {0})
    outcome none = (h, err (wrong_value key value))
    outcome (some h') = (h', ok tt)
