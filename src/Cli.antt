-- ===== src/Cli.antt =====
-- drift-cli/src/main.rs and flags.rs: the flags. Reading a file is an argument, and so is the mux that a
-- `--wisp` URL gives.
pub mod Proxies
pub mod Setters
pub mod Run
pub mod Output
pub mod Chosen
pub mod Wanted
pub mod Leads
pub mod Handed
mod Examples
use unstable_drift.Prelude.{
  ℕ, Bool, true, false, not, ◌||◌, Option, none, some, List, [], ◌∷◌, ◌++◌,
}
use unstable_drift.Prelude.{Result, ok, err, ok_or, ◌>>=◌, ◌==◌, if◌then◌else◌}
use unstable_drift.Bytes.{Bytes}
use unstable_drift.Bytes.Text.{ascii, parse_u16}
use unstable_drift.Bytes.Search.{trim, same_text}
use unstable_drift.Proxy.Chain.{Proxy, ProxyKind, socks4, socks4a, socks5, http_connect}
use unstable_drift.Handle.{split_scheme, rsplit_colon}
use unstable_drift.Handle.Options.{
  TlsOptions, tls_default, HttpOptions, http_default, http1_1, http2, auto, HttpVersion,
  TimeoutOptions, timeout_default, GeneralOptions, general_default, automatic, v1_2, v1_3,
}
use unstable_drift.Handle.Settings.{Method, custom, head, post, get}
use unstable_drift.Client.{
  ClientBuilder, Setter, mux, tls_options, http_options, timeout_options, general_options,
  user_agent, proxy_chain, builder, apply_all, build, RequestBuilder, request, header, body_text,
  body_bytes,
}

-- A number of seconds in floating point, as a duration in nanoseconds if it is one:
-- `Duration::from_secs_f64` panics for the others.
pub data Seconds : Type 0 where
  lasts : ℕ → Seconds
  unfit : Seconds

-- The flags that main.rs reads.
pub record Args : Type 0 where
  pub url : Bytes
  pub method : Option Bytes
  pub headers : List Bytes
  pub user_agent : Option Bytes
  pub data_text : Option Bytes
  pub data_binary : Option Bytes
  pub json : Option Bytes
  pub head : Bool
  pub verbose : Bool
  pub insecure : Bool
  pub cacert : Option Bytes
  pub cert : Option Bytes
  pub key : Option Bytes
  pub tls_v12 : Bool
  pub tls_v13 : Bool
  pub proxy : List Bytes
  pub socks5 : Option Bytes
  pub socks5_hostname : Option Bytes
  pub wisp : Option Bytes
  pub max_time : Option Seconds
  pub connect_timeout : Option Seconds
  pub follow_redirects : Bool
  pub max_redirects : ℕ
  pub compressed : Bool
  pub http1 : Bool
  pub http2 : Bool
  pub include_headers : Bool
  pub output : Option Bytes
  pub dump_header : Option Bytes

pub data CliError : Type 0 where
  panics : CliError
  bad_header : Bytes → CliError
  unreadable : Bytes → CliError
