-- ===== src/Cli/Proxies.antt =====
-- drift-cli/src/main.rs: the chain of proxies that the flags make.
use unstable_drift.Prelude.{ℕ, ◌||◌, Option, none, some, List, [], ◌∷◌, ◌++◌}
use unstable_drift.Prelude.{if◌then◌else◌}
use unstable_drift.Bytes.{Bytes}
use unstable_drift.Bytes.Text.{ascii, parse_u16}
use unstable_drift.Bytes.Search.{same_text}
use unstable_drift.Proxy.Chain.{Proxy, ProxyKind, socks4, socks4a, socks5, http_connect}
use unstable_drift.Handle.{split_scheme, rsplit_colon}
use unstable_drift.Client.{Setter, proxy_chain}
use unstable_drift.Cli.{Args}

unfoldable pub hop : ProxyKind → Bytes → ℕ → Proxy
hop kind host port = record { kind = kind; host = host; port = port; auth = none }

-- A port behind the last colon.
unfoldable pub hop_at : ProxyKind → Option (Bytes × Bytes) → Option Proxy
hop_at kind none = none
hop_at kind (some (host, port)) = with_port (parse_u16 port)
  where
    with_port : Option ℕ → Option Proxy
    with_port none = none
    with_port (some port) = some (hop kind host port)

unfoldable pub kind_of : (scheme : Bytes) → Option ProxyKind
kind_of scheme =
    if same_text scheme (ascii "socks5")
    then some socks5
    else if same_text scheme (ascii "socks4")
    then some socks4
    else if same_text scheme (ascii "socks4a") || same_text scheme (ascii "socks5h")
    then some socks4a
    else if same_text scheme (ascii "http")
    then some http_connect
    else none

unfoldable pub parse_proxy_url : Bytes → Option Proxy
parse_proxy_url raw = with_scheme (split_scheme raw)
  where
    with_kind : Bytes → Option ProxyKind → Option Proxy
    with_kind rest none = none
    with_kind rest (some kind) = hop_at kind (rsplit_colon rest)

    with_scheme : Option (Bytes × Bytes) → Option Proxy
    with_scheme none = none
    with_scheme (some (scheme, rest)) = with_kind rest (kind_of scheme)

unfoldable pub pushed : Option Proxy → List Proxy
pushed none = []
pushed (some p) = p ∷ []

unfoldable pub proxies : List Bytes → List Proxy
proxies [] = []
proxies (raw ∷ rest) = pushed (parse_proxy_url raw) ++ proxies rest

unfoldable pub shortcut : ProxyKind → Option Bytes → List Proxy
shortcut kind none = []
shortcut kind (some hostport) = pushed (hop_at kind (rsplit_colon hostport))

unfoldable pub build_proxy_chain : Args → List Proxy
build_proxy_chain args =
    shortcut socks5 args.socks5 ++ (shortcut socks4a args.socks5_hostname ++ proxies args.proxy)

unfoldable pub chain_setters : List Proxy → List Setter
chain_setters [] = []
chain_setters (p ∷ ps) = proxy_chain (p ∷ ps) ∷ []

-- The chain is used only without a wisp server.
unfoldable pub chain_for : Args → List Proxy
chain_for args = unless_wisp args.wisp
  where
    unless_wisp : Option Bytes → List Proxy
    unless_wisp none = build_proxy_chain args
    unless_wisp (some url) = []
