-- ===== src/Cli/Setters.antt =====
-- drift-cli/src/main.rs: the calls of the builder's setters that `run` makes for the flags.
use unstable_drift.Prelude.{ℕ, Bool, true, false, not, Option, none, some, List, [], ◌∷◌, ◌++◌}
use unstable_drift.Prelude.{Result, ok, err, ◌>>=◌, if◌then◌else◌}
use unstable_drift.Bytes.{Bytes}
use unstable_drift.Handle.Options.{
  TlsOptions, tls_default, HttpOptions, http_default, http1_1, auto, HttpVersion, TimeoutOptions,
  timeout_default, GeneralOptions, general_default, automatic, v1_2, v1_3,
}
use unstable_drift.Client.{
  Setter, mux, tls_options, http_options, timeout_options, general_options, user_agent,
}
use unstable_drift.Cli.{Seconds, lasts, unfit, Args, CliError, panics}
use unstable_drift.Cli.Proxies.{chain_setters, chain_for}

unfoldable pub maybe {ℓ} : {A : Type ℓ} → (A → Setter) → Option A → List Setter
maybe f none = []
maybe f (some a) = f a ∷ []

unfoldable pub when : Bool → Setter → List Setter
when true s = s ∷ []
when false s = []

unfoldable pub duration : Seconds → Result CliError ℕ
duration (lasts n) = ok n
duration unfit = err panics

unfoldable pub with_total : Option Seconds → TimeoutOptions → Result CliError TimeoutOptions
with_total none t = ok t
with_total (some secs) t = do d ← duration secs; ok (record t { total = some d })

unfoldable pub with_connect : Option Seconds → TimeoutOptions → Result CliError TimeoutOptions
with_connect none t = ok t
with_connect (some secs) t = do d ← duration secs; ok (record t { connect = d })

unfoldable pub touched : Option Seconds → Option Seconds → Bool
touched none none = false
touched _ _ = true

unfoldable pub timeouts_for : Args → Result CliError TimeoutOptions
timeouts_for args = do
  t ← with_total args.max_time timeout_default
  with_connect args.connect_timeout t

unfoldable pub http_for : Args → HttpOptions
http_for args = record http_default {
  version_preference =
      if args.http1 then http1_1 else if args.http2 then HttpVersion.http2 else auto;
  follow_redirects = args.follow_redirects;
  max_redirects = args.max_redirects;
}

unfoldable pub agent_or : Option Bytes → Bytes → Bytes
agent_or none ua = ua
agent_or (some ua) default = ua

-- The options of `--compressed`, and of `--verbose` over them.
unfoldable pub general_for :
    (version : Bytes) → (verbose compressed : Bool) → (ua : Option Bytes) → GeneralOptions
general_for version verbose compressed ua =
    let general = general_default version in
    record general {
      user_agent = agent_or ua general.user_agent;
      compression = if compressed then automatic else general.compression;
      verbose = verbose;
    }

unfoldable pub tls_for : Args → TlsOptions
tls_for args = record tls_default {
  verify_peer = not args.insecure;
  verify_host = not args.insecure;
  ca_bundle_path = args.cacert;
  client_cert_path = args.cert;
  client_key_path = args.key;
  min_version = if args.tls_v12 then v1_2 else if args.tls_v13 then v1_3 else v1_2;
  max_version = if args.tls_v12 then v1_2 else v1_3;
}

-- The calls of the builder's setters.
unfoldable pub setters :
    (version : Bytes) → Args → (wisp_mux : Option ℕ) → Result CliError (List Setter)
setters version args wisp_mux = do
  timeouts ← timeouts_for args
  ok (
      chain_setters (chain_for args)
      ++ (maybe mux wisp_mux
          ++ (maybe user_agent args.user_agent
              ++ (when (touched args.max_time args.connect_timeout) (timeout_options timeouts)
                  ++ (http_options (http_for args)
                      ∷ (when args.compressed (
                            general_options
                              (general_for version false args.compressed args.user_agent))
                          ++ (when args.verbose (
                                general_options
                                  (general_for version true args.compressed args.user_agent))
                              ++ (tls_options (tls_for args) ∷ []))))))))
