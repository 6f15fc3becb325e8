-- ===== src/Handle/Options.antt =====
-- drift-core/src/options.rs: the groups of options and their defaults. A duration is in nanoseconds; a
-- text or a path is its bytes.
use unstable_drift.Prelude.{ℕ, ◌*◌, Bool, true, false, Option, none, List, [], ◌++◌}
use unstable_drift.Bytes.{Bytes}
use unstable_drift.Bytes.Text.{ascii}

abbrev pub seconds : ℕ → ℕ
seconds n = n * 1000000000

pub data TlsVersion : Type 0 where
  v1_2 : TlsVersion
  v1_3 : TlsVersion

pub record TlsOptions : Type 0 where
  pub verify_peer : Bool
  pub verify_host : Bool
  pub ca_bundle_path : Option Bytes
  pub ca_bundle_data : Option Bytes
  pub client_cert_path : Option Bytes
  pub client_key_path : Option Bytes
  pub min_version : TlsVersion
  pub max_version : TlsVersion
  pub alpn : List Bytes
  pub sni_override : Option Bytes
  pub session_resumption : Bool
  pub keylog_file : Option Bytes

unfoldable pub tls_default : TlsOptions
tls_default = record {
  verify_peer = true;
  verify_host = true;
  ca_bundle_path = none;
  ca_bundle_data = none;
  client_cert_path = none;
  client_key_path = none;
  min_version = v1_2;
  max_version = v1_3;
  alpn = [];
  sni_override = none;
  session_resumption = true;
  keylog_file = none;
}

pub data HttpVersion : Type 0 where
  http1_1 : HttpVersion
  http2 : HttpVersion
  auto : HttpVersion

pub data RefererPolicy : Type 0 where
  no_referrer : RefererPolicy
  no_referrer_when_downgrade : RefererPolicy
  origin : RefererPolicy
  origin_when_cross_origin : RefererPolicy
  same_origin : RefererPolicy
  strict_origin : RefererPolicy
  strict_origin_when_cross_origin : RefererPolicy
  unsafe_url : RefererPolicy

pub record HttpOptions : Type 0 where
  pub version_preference : HttpVersion
  pub follow_redirects : Bool
  pub max_redirects : ℕ
  pub referer_policy : RefererPolicy
  pub expect_100_timeout : ℕ

unfoldable pub http_default : HttpOptions
http_default = record {
  version_preference = auto;
  follow_redirects = false;
  max_redirects = 20;
  referer_policy = strict_origin_when_cross_origin;
  expect_100_timeout = seconds 1;
}

pub record TcpOptions : Type 0 where
  pub nodelay : Bool
  pub keepalive : Bool
  pub keepidle : ℕ
  pub keepintvl : ℕ
  pub keepcnt : ℕ
  pub interface : Option Bytes
  pub ipv4_only : Bool
  pub ipv6_only : Bool
  pub low_speed_limit : ℕ
  pub low_speed_time : ℕ

unfoldable pub tcp_default : TcpOptions
tcp_default = record {
  nodelay = true;
  keepalive = true;
  keepidle = seconds 60;
  keepintvl = seconds 30;
  keepcnt = 3;
  interface = none;
  ipv4_only = false;
  ipv6_only = false;
  low_speed_limit = 0;
  low_speed_time = seconds 0;
}

pub record TimeoutOptions : Type 0 where
  pub total : Option ℕ
  pub dns : ℕ
  pub connect : ℕ
  pub tls : ℕ
  pub first_byte : ℕ

unfoldable pub timeout_default : TimeoutOptions
timeout_default = record {
  total = none;
  dns = seconds 30;
  connect = seconds 30;
  tls = seconds 30;
  first_byte = seconds 60;
}

pub record CookieOptions : Type 0 where
  pub enabled : Bool
  pub jar_path : Option Bytes
  pub session_only : Bool
  pub secure_only : Bool

unfoldable pub cookie_default : CookieOptions
cookie_default = record {
  enabled = false;
  jar_path = none;
  session_only = false;
  secure_only = false;
}

pub record DnsOptions : Type 0 where
  pub resolve_overrides : List (Bytes × Bytes)
  pub cache_ttl : ℕ
  pub servers : List Bytes
  pub prefer_ipv6 : Bool

unfoldable pub dns_default : DnsOptions
dns_default = record {
  resolve_overrides = [];
  cache_ttl = seconds 60;
  servers = [];
  prefer_ipv6 = false;
}

pub data Compression : Type 0 where
  off : Compression
  gzip : Compression
  brotli : Compression
  automatic : Compression

pub record GeneralOptions : Type 0 where
  pub user_agent : Bytes
  pub verbose : Bool
  pub max_response_size : Option ℕ
  pub buffer_size : ℕ
  pub compression : Compression

-- The version of the package is what the build sets.
unfoldable pub general_default : (version : Bytes) → GeneralOptions
general_default version = record {
  user_agent = ascii "drift/" ++ version;
  verbose = false;
  max_response_size = none;
  buffer_size = 65536;
  compression = automatic;
}
