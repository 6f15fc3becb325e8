-- ===== src/Cli/Examples.antt =====
-- `wisp -k -L -A me --compressed --socks5-hostname p:1080 --data x http://h/`, and what goes wrong.
use unstable_drift.Prelude.{◌≡◌, refl, true, false, Option, none, some, List, [], ◌∷◌, ok, err}
use unstable_drift.Bytes.{Bytes}
use unstable_drift.Bytes.Text.{ascii}
use unstable_drift.Proxy.Chain.{socks4a}
use unstable_drift.Handle.Settings.{WispHandle, text, post}
use unstable_drift.Handle.Options.{general_default, http_default, timeout_default, tls_default}
use unstable_drift.Client.{
  Setter, proxy_chain, user_agent, timeout_options, http_options, general_options, tls_options,
  build, apply_all, builder, RequestBuilder, prepare,
}
use unstable_drift.Client.Prepared.{wanted, prepare_outcome}
use unstable_drift.Cli.{Args, lasts, unfit, panics}
use unstable_drift.Cli.Proxies.{hop, chain_for, parse_proxy_url}
use unstable_drift.Cli.Setters.{timeouts_for}
use unstable_drift.Cli.Run.{run}
use unstable_drift.Cli.Handed.{IsChosen, run_outcome}

abbrev args : Args
args = record {
  url = ascii "http://h/";
  method = none;
  headers = ascii "A: b" ∷ [];
  user_agent = some (ascii "me");
  data_text = some (ascii "x");
  data_binary = none;
  json = none;
  head = false;
  verbose = false;
  insecure = true;
  cacert = none;
  cert = none;
  key = none;
  tls_v12 = false;
  tls_v13 = false;
  proxy = ascii "ftp://q:1" ∷ [];
  socks5 = none;
  socks5_hostname = some (ascii "p:1080");
  wisp = none;
  max_time = none;
  connect_timeout = some (lasts 5);
  follow_redirects = true;
  max_redirects = 3;
  compressed = true;
  http1 = false;
  http2 = false;
  include_headers = false;
  output = none;
  dump_header = none;
}

-- The hop of `--socks5-hostname` speaks SOCKS4a, and a proxy of an unknown scheme is passed over.
hops : chain_for args ≡ hop socks4a (ascii "p") 1080 ∷ []
unfolding chain_for unstable_drift.Cli.Proxies.build_proxy_chain unstable_drift.Cli.Proxies.shortcut
    unstable_drift.Cli.Proxies.pushed unstable_drift.Cli.Proxies.hop_at
    unstable_drift.Handle.rsplit_colon unstable_drift.Handle.or_here
    unstable_drift.Bytes.Text.parse_u16 unstable_drift.Bytes.Text.u16_digits
    unstable_drift.Cli.Proxies.proxies parse_proxy_url unstable_drift.Handle.split_scheme
    unstable_drift.Handle.prepend unstable_drift.Cli.Proxies.kind_of
    unstable_drift.Bytes.Search.same_text
hops = refl

no_time : timeouts_for (record args { max_time = some unfit }) ≡ err panics
unfolding timeouts_for unstable_drift.Cli.Setters.with_total unstable_drift.Cli.Setters.duration
no_time = refl

abbrev no_file : Bytes → Option Bytes
no_file path = none

abbrev calls : List Setter
calls =
    proxy_chain (hop socks4a (ascii "p") 1080 ∷ [])
    ∷ user_agent (ascii "me")
    ∷ timeout_options (record timeout_default { connect = 5 })
    ∷ http_options (record http_default { follow_redirects = true; max_redirects = 3 })
    ∷ general_options (record (general_default (ascii "1")) { user_agent = ascii "me" })
    ∷ tls_options (record tls_default { verify_peer = false; verify_host = false })
    ∷ []

abbrev req : RequestBuilder
req = record {
  client = build (ascii "1") (apply_all calls builder);
  method = post;
  url = ascii "http://h/";
  headers = record { name = ascii "A"; value = ascii "b" } ∷ [];
  body = text (ascii "x");
}

abbrev handle : WispHandle
handle = wanted (ascii "1") calls post req.url req.headers req.body

sent : run no_file no_file (ascii "1") args none ≡ ok req
unfolding run unstable_drift.Cli.Setters.setters timeouts_for unstable_drift.Cli.Setters.with_total
    unstable_drift.Cli.Setters.with_connect unstable_drift.Cli.Setters.duration
    unstable_drift.Cli.Run.add_flag_headers unstable_drift.Cli.Run.split_colon
    unstable_drift.Cli.Run.with_body unstable_drift.Cli.Run.contents unstable_drift.Client.body_text
    build unstable_drift.Client.header unstable_drift.Client.request
    unstable_drift.Cli.Proxies.chain_setters unstable_drift.Cli.Run.method_for
    unstable_drift.Bytes.Search.trim chain_for unstable_drift.Cli.Run.is_given
    unstable_drift.Bytes.Search.trim_end unstable_drift.Cli.Proxies.build_proxy_chain
    unstable_drift.Bytes.Search.trim_start_from unstable_drift.Cli.Proxies.shortcut
    unstable_drift.Bytes.Text.white unstable_drift.Bytes.Search.only_white
    unstable_drift.Bytes.Search.same_text unstable_drift.Bytes.Text.parse_u16
    unstable_drift.Bytes.Text.u16_digits unstable_drift.Cli.Setters.agent_or
    unstable_drift.Cli.Setters.general_for hop unstable_drift.Cli.Proxies.hop_at
    unstable_drift.Cli.Setters.http_for unstable_drift.Cli.Proxies.kind_of
    unstable_drift.Cli.Setters.maybe parse_proxy_url unstable_drift.Cli.Proxies.proxies
    unstable_drift.Cli.Proxies.pushed unstable_drift.Cli.Setters.tls_for
    unstable_drift.Cli.Setters.touched unstable_drift.Cli.Setters.when unstable_drift.Client.apply
    apply_all unstable_drift.Client.body_bytes builder unstable_drift.Client.with_agent
    unstable_drift.Handle.Options.cookie_default unstable_drift.Handle.Options.dns_default
    general_default http_default unstable_drift.Handle.Options.tcp_default timeout_default
    tls_default unstable_drift.Handle.or_here unstable_drift.Handle.prepend
    unstable_drift.Handle.rsplit_colon unstable_drift.Handle.split_scheme
sent = refl

prepared : prepare (ascii "1") req ≡ ok handle
unfolding unstable_drift.Bytes.Search.contains unstable_drift.Bytes.Search.starts_with
prepared = prepare_outcome (ascii "1") calls post req.url req.headers req.body

run_outcome_example : IsChosen (ascii "1") args none handle
run_outcome_example = run_outcome no_file no_file (ascii "1") args none req handle sent prepared
