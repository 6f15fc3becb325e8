-- ===== src/Proxy/Chain.antt =====
-- `apply_chain` of drift-core/src/proxy/mod.rs.
use unstable_drift.Prelude.{ℕ, ◌≡◌, Option, List, [], ◌∷◌, ◌++◌, length}
use unstable_drift.Prelude.{
  Result, ok, ◌>>=◌, Yields, Yields-bind, Yields-map, Yields-self, Yields-ok,
}
use unstable_drift.Bytes.{Bytes}
use unstable_drift.Proxy.{ProxyAuth, ProxyError, extract_user}
use unstable_drift.Proxy.Link.{Link, Exchange}
use unstable_drift.Proxy.Socks5
use unstable_drift.Proxy.Socks5.{negotiate_socks5, IsChoice, IsGrant, greet}
use unstable_drift.Proxy.Socks5.Sound.{negotiate_socks5_sound}
use unstable_drift.Proxy.Socks4
use unstable_drift.Proxy.Socks4.{Socks4Variant, v4, v4a, negotiate_socks4, dst_ip}
use unstable_drift.Proxy.Socks4.Outcome.{negotiate_socks4-Exchange}
use unstable_drift.Proxy.HttpConnect
use unstable_drift.Proxy.HttpConnect.{negotiate_http_connect, check_status}
use unstable_drift.Proxy.HttpConnect.Outcome.{negotiate_http_connect-Exchange}

pub data ProxyKind : Type 0 where
  socks4 : ProxyKind
  socks4a : ProxyKind
  socks5 : ProxyKind
  http_connect : ProxyKind

pub record Proxy : Type 0 where
  pub kind : ProxyKind
  pub host : Bytes
  pub port : ℕ
  pub auth : Option ProxyAuth

-- A hop and the sizes of the reads that its reply is given in, where it is read in pieces.
abbrev pub Hop : Type 0
Hop = Proxy × List ℕ

-- Where a hop is asked to connect: the next hop, or the destination.
unfoldable pub next_address : List Hop → Bytes × ℕ → Bytes × ℕ
next_address [] final = final
next_address ((p, chunks) ∷ hops) final = (p.host, p.port)

module _ (base64 : Bytes → Bytes) where
  -- `match cur.kind`
  unfoldable pub negotiate :
      ProxyKind → Option ProxyAuth → List ℕ → Bytes × ℕ → Link → Result ProxyError Link
  negotiate socks5 auth chunks (host, port) s = negotiate_socks5 host port auth s
  negotiate socks4 auth chunks (host, port) s = negotiate_socks4 v4 host port (extract_user auth) s
  negotiate socks4a auth chunks (host, port) s =
      negotiate_socks4 v4a host port (extract_user auth) s
  negotiate http_connect auth chunks (host, port) s =
      negotiate_http_connect base64 host port auth chunks s

  unfoldable pub apply_chain : List Hop → Bytes × ℕ → Link → Result ProxyError Link
  apply_chain [] final s = ok s
  apply_chain ((p, chunks) ∷ hops) final s = do
    s ← negotiate p.kind p.auth chunks (next_address hops final) s
    apply_chain hops final s

  -- What a hop of a kind reads and writes when it is asked for an address and grants it.
  pub data Asks (auth : Option ProxyAuth)
      : ProxyKind → Bytes × ℕ → (reply written : Bytes) → Type 0 where
    by_socks5 :
        {host : Bytes} {port : ℕ} {choice sent grant : Bytes}
        → IsChoice auth choice sent
        → IsGrant grant
        → Asks auth socks5
            (host, port)
            (choice ++ grant)
            (greet auth ++ (sent ++ Socks5.request host port))
    by_socks4 :
        {host : Bytes} {port : ℕ} {ip bound : Bytes}
        → dst_ip v4 host ≡ ok ip
        → length bound ≡ 6
        → Asks auth socks4
            (host, port)
            (0 ∷ 90 ∷ bound)
            (Socks4.request v4 ip host port (extract_user auth))
    by_socks4a :
        {host : Bytes} {port : ℕ} {ip bound : Bytes}
        → dst_ip v4a host ≡ ok ip
        → length bound ≡ 6
        → Asks auth socks4a
            (host, port)
            (0 ∷ 90 ∷ bound)
            (Socks4.request v4a ip host port (extract_user auth))
    by_http_connect :
        {host : Bytes} {port : ℕ} {reply : Bytes}
        → check_status reply ≡ ok tt
        → Asks auth http_connect (host, port) reply (HttpConnect.request base64 host port auth)

  -- Each hop in turn has been asked for the address of the one behind it, the last for `final`.
  pub data Tunnelled (final : Bytes × ℕ) : List Hop → Link → Link → Type 0 where
    direct : {s : Link} → Tunnelled final [] s s
    last :
        {p : Proxy} {chunks : List ℕ} {s s' : Link} {reply written : Bytes}
        → Asks p.auth p.kind final reply written
        → Exchange s s' reply written
        → Tunnelled final ((p, chunks) ∷ []) s s'
    via :
        {p q : Proxy} {chunks chunks' : List ℕ} {hops : List Hop} {s s' s'' : Link}
        {reply written : Bytes}
        → Asks p.auth p.kind (q.host, q.port) reply written
        → Exchange s s' reply written
        → Tunnelled final ((q, chunks') ∷ hops) s' s''
        → Tunnelled final ((p, chunks) ∷ (q, chunks') ∷ hops) s s''

  abbrev Asked : Option ProxyAuth → ProxyKind → Bytes × ℕ → Link → Link → Type 0
  Asked auth kind to s s' =
      (reply written : Bytes) × Asks auth kind to reply written × Exchange s s' reply written

  asked :
      (kind : ProxyKind) (auth : Option ProxyAuth) (chunks : List ℕ) (to : Bytes × ℕ) (s s' : Link)
      → negotiate kind auth chunks to s ≡ ok s'
      → Asked auth kind to s s'
  unfolding negotiate
  asked socks5 auth chunks (host, port) s s' e =
      let (short, (choice, sent, grant, c, g, x)) = negotiate_socks5_sound host port auth s s' e in
      (choice ++ grant, greet auth ++ (sent ++ Socks5.request host port), by_socks5 c g, x)
  asked socks4 auth chunks (host, port) s s' e =
      let user = extract_user auth in
      let (ip, bound, i, n, x) = negotiate_socks4-Exchange v4 host port user s s' e in
      (0 ∷ 90 ∷ bound, Socks4.request v4 ip host port user, by_socks4 i n, x)
  asked socks4a auth chunks (host, port) s s' e =
      let user = extract_user auth in
      let (ip, bound, i, n, x) = negotiate_socks4-Exchange v4a host port user s s' e in
      (0 ∷ 90 ∷ bound, Socks4.request v4a ip host port user, by_socks4a i n, x)
  asked http_connect auth chunks (host, port) s s' e =
      let (reply, h, l, c, x) =
        negotiate_http_connect-Exchange base64 host port auth chunks s s' e in
      (reply, HttpConnect.request base64 host port auth, by_http_connect c, x)

  Asked-Yields :
      (p : Proxy) (chunks : List ℕ) (to : Bytes × ℕ) (s : Link)
      → Yields (Asked p.auth p.kind to s) (negotiate p.kind p.auth chunks to s)
  Asked-Yields p chunks to s =
      let m = negotiate p.kind p.auth chunks to s in
      Yields-map m (asked p.kind p.auth chunks to s) (Yields-self m)

  chain-Yields :
      (final : Bytes × ℕ) (hops : List Hop) (s : Link)
      → Yields (Tunnelled final hops s) (apply_chain hops final s)
  unfolding apply_chain next_address
  chain-Yields final [] s = direct
  chain-Yields final ((p, chunks) ∷ []) s =
      Yields-bind (Asked p.auth p.kind final s) (Tunnelled final ((p, chunks) ∷ []) s)
        (negotiate p.kind p.auth chunks final s) _ (Asked-Yields p chunks final s)
        (λ s1 a. last a.2 a.3)
  chain-Yields final ((p, chunks) ∷ (q, chunks') ∷ hops) s =
      Yields-bind (Asked p.auth p.kind (q.host, q.port) s)
        (Tunnelled final ((p, chunks) ∷ (q, chunks') ∷ hops) s)
        (negotiate p.kind p.auth chunks (q.host, q.port) s)
        (apply_chain ((q, chunks') ∷ hops) final) (Asked-Yields p chunks (q.host, q.port) s)
        (λ s1 a.
          Yields-map (apply_chain ((q, chunks') ∷ hops) final s1) (λ s2 t. via a.2 a.3 t)
            (chain-Yields final ((q, chunks') ∷ hops) s1))

  -- A chain that succeeds has asked each proxy in order for the address of the next one, and the last
  -- for the destination, each on the link that the one before left, by the protocol of its kind and
  -- with its own credentials; nothing else is read or written.
  pub apply_chain_sound :
      (hops : List Hop) (final : Bytes × ℕ) (s s' : Link)
      → apply_chain hops final s ≡ ok s'
      → Tunnelled final hops s s'
  apply_chain_sound hops final s s' =
      Yields-ok (Tunnelled final hops s) (apply_chain hops final s) (chain-Yields final hops s)
