-- ===== src/Cli/Wanted.antt =====
-- drift-cli/src/flags.rs: what the flags ask for of the method, TLS, HTTP and the user agent, as relations,
-- and that main.rs gives it.
use unstable_drift.Prelude.{◌≡◌, refl, Bool, true, false, not, Option, none, some, [], ◌++◌}
use unstable_drift.Prelude.{if◌then◌else◌}
use unstable_drift.Bytes.{Bytes}
use unstable_drift.Bytes.Text.{ascii}
use unstable_drift.Handle.Options.{
  TlsVersion, TlsOptions, tls_default, HttpOptions, http_default, http1_1, auto, HttpVersion, v1_2,
  v1_3, strict_origin_when_cross_origin, seconds,
}
use unstable_drift.Handle.Settings.{Method, custom, head, post, get}
use unstable_drift.Cli.{Args}
use unstable_drift.Cli.Setters.{http_for, tls_for, agent_or}
use unstable_drift.Cli.Run.{is_given, method_for}

-- The method: the one given, HEAD for `--head`, POST for data, GET.
pub data IsMethod (args : Args) : Method → Type 0 where
  given : (m : Bytes) → args.method ≡ some m → IsMethod args (custom m)
  headed : args.method ≡ none → args.head ≡ true → IsMethod args head
  posted_text :
      (v : Bytes)
      → args.method ≡ none
      → args.head ≡ false
      → args.data_text ≡ some v
      → IsMethod args post
  posted_binary :
      (v : Bytes)
      → args.method ≡ none
      → args.head ≡ false
      → args.data_binary ≡ some v
      → IsMethod args post
  posted_json :
      (v : Bytes) → args.method ≡ none → args.head ≡ false → args.json ≡ some v → IsMethod args post
  got :
      args.method ≡ none
      → args.head ≡ false
      → args.data_text ≡ none
      → args.data_binary ≡ none
      → args.json ≡ none
      → IsMethod args get

-- The TLS versions.
pub data IsVersions (args : Args) : (least most : TlsVersion) → Type 0 where
  only_12 : args.tls_v12 ≡ true → IsVersions args v1_2 v1_2
  only_13 : args.tls_v12 ≡ false → args.tls_v13 ≡ true → IsVersions args v1_3 v1_3
  both : args.tls_v12 ≡ false → args.tls_v13 ≡ false → IsVersions args v1_2 v1_3

pub record IsTls (args : Args) (t : TlsOptions) : Type 0 where
  pub peer : t.verify_peer ≡ not args.insecure
  pub host : t.verify_host ≡ not args.insecure
  pub bundle : t.ca_bundle_path ≡ args.cacert
  pub cert : t.client_cert_path ≡ args.cert
  pub key : t.client_key_path ≡ args.key
  pub versions : IsVersions args t.min_version t.max_version
  pub no_data : t.ca_bundle_data ≡ none
  pub no_alpn : t.alpn ≡ []
  pub no_sni : t.sni_override ≡ none
  pub resumes : t.session_resumption ≡ true
  pub no_keylog : t.keylog_file ≡ none

-- The HTTP version.
pub data IsPreferred (args : Args) : HttpVersion → Type 0 where
  only_1 : args.http1 ≡ true → IsPreferred args http1_1
  prefers_2 : args.http1 ≡ false → args.http2 ≡ true → IsPreferred args HttpVersion.http2
  either : args.http1 ≡ false → args.http2 ≡ false → IsPreferred args auto

pub record IsHttp (args : Args) (t : HttpOptions) : Type 0 where
  pub version : IsPreferred args t.version_preference
  pub follows : t.follow_redirects ≡ args.follow_redirects
  pub most : t.max_redirects ≡ args.max_redirects
  pub referer : t.referer_policy ≡ strict_origin_when_cross_origin
  pub expects : t.expect_100_timeout ≡ seconds 1

pub data IsAgent (version : Bytes) (args : Args) (agent : Bytes) : Type 0 where
  given : args.user_agent ≡ some agent → IsAgent version args agent
  default : args.user_agent ≡ none → agent ≡ ascii "drift/" ++ version → IsAgent version args agent

pub method_for-IsMethod : (args : Args) → IsMethod args (method_for args)
unfolding method_for is_given
method_for-IsMethod args =
    by_data args.method args.head args.data_text args.data_binary args.json refl refl refl refl refl
  where
    by_data :
        (m : Option Bytes) (h : Bool) (t b j : Option Bytes)
        → args.method ≡ m
        → args.head ≡ h
        → args.data_text ≡ t
        → args.data_binary ≡ b
        → args.json ≡ j
        → IsMethod args (
            method_for
              (record args { method = m; head = h; data_text = t; data_binary = b; json = j }))
    by_data (some m) h t b j em eh et eb ej = given m em
    by_data none true t b j em eh et eb ej = headed em eh
    by_data none false (some v) b j em eh et eb ej = posted_text v em eh et
    by_data none false none (some v) j em eh et eb ej = posted_binary v em eh eb
    by_data none false none none (some v) em eh et eb ej = posted_json v em eh ej
    by_data none false none none none em eh et eb ej = got em eh et eb ej

pub tls_for-IsTls : (args : Args) → IsTls args (tls_for args)
unfolding tls_for tls_default
tls_for-IsTls args = record {
  peer = refl;
  host = refl;
  bundle = refl;
  cert = refl;
  key = refl;
  versions = by_flags args.tls_v12 args.tls_v13 refl refl;
  no_data = refl;
  no_alpn = refl;
  no_sni = refl;
  resumes = refl;
  no_keylog = refl;
}
  where
    by_flags :
        (a b : Bool)
        → args.tls_v12 ≡ a
        → args.tls_v13 ≡ b
        → IsVersions args (if a then v1_2 else if b then v1_3 else v1_2) (if a then v1_2 else v1_3)
    by_flags true b e f = only_12 e
    by_flags false true e f = only_13 e f
    by_flags false false e f = both e f

pub http_for-IsHttp : (args : Args) → IsHttp args (http_for args)
unfolding http_for http_default
http_for-IsHttp args = record {
  version = by_flags args.http1 args.http2 refl refl;
  follows = refl;
  most = refl;
  referer = refl;
  expects = refl;
}
  where
    by_flags :
        (a b : Bool)
        → args.http1 ≡ a
        → args.http2 ≡ b
        → IsPreferred args (if a then http1_1 else if b then HttpVersion.http2 else auto)
    by_flags true b e f = only_1 e
    by_flags false true e f = prefers_2 e f
    by_flags false false e f = either e f

pub agent_or-IsAgent :
    (version : Bytes) (args : Args)
    → IsAgent version args (agent_or args.user_agent (ascii "drift/" ++ version))
unfolding agent_or
agent_or-IsAgent version args = by_flag args.user_agent refl
  where
    by_flag :
        (o : Option Bytes)
        → args.user_agent ≡ o
        → IsAgent version args (agent_or o (ascii "drift/" ++ version))
    by_flag none e = default e refl
    by_flag (some ua) e = given e
