-- ===== src/Handle/Streams/Routed.antt =====
-- handle.rs, `perform`: where its calls go, over all its redirects.
use unstable_drift.Prelude.{ℕ, ◌≡◌, ◌≢◌, refl, Bool, Option, none, some, List, [], ◌∷◌, All, arith}
use unstable_drift.Prelude.{ok}
use unstable_drift.Bytes.{Bytes}
use unstable_drift.Proxy.Chain.{Proxy}
use unstable_drift.Pool.{ConnectionPool}
use unstable_drift.Pool
use unstable_drift.Handle.{UrlScheme, http, https, ParsedUrl}
use unstable_drift.Handle.Settings.{Method}
use unstable_drift.Handle.Streams.{
  World, Call, reuses, opens, dials, tunnels, handshakes, exchanges, pools, pooled_or_dialled,
  reach, tunnel, by_chain, open_raw, exchange, perform_http1_tls, request, perform,
}
use unstable_drift.Handle.Streams.Every.{then_do-All, perform-All}

-- Where the settings of a handle let a call go.
pub IsRouted : Option ℕ → List Proxy → Call → Type 0
IsRouted mux chain (opens host port) = mux ≢ none
IsRouted mux [] (dials host port) = mux ≡ none
IsRouted mux (first ∷ further) (dials host port) =
    (mux ≡ none) × (host ≡ first.host) × (port ≡ first.port)
IsRouted mux chain (reuses stream host port) = (mux ≡ none) × (chain ≡ [])
IsRouted mux chain (tunnels stream hops host port) = (mux ≡ none) × (hops ≡ chain)
IsRouted mux chain (handshakes stream host) = Unit
IsRouted mux chain (exchanges k stream u method) = Unit
IsRouted mux chain (pools stream host port) = Unit

-- An exchange for an https URL is over the stream of the TLS handshake of the same request.
pub IsSecured : World → Call → Type 0
IsSecured w (exchanges k stream u method) = u.scheme ≡ https → w.secured k ≡ ok stream
IsSecured w _ = Unit

module _ (mux : Option ℕ) (chain : List Proxy) (w : World) where
  exchange-IsRouted :
      (k : ℕ) (u : ParsedUrl) (method : Method) (stream : ℕ) (pool : Option ConnectionPool)
      → All (IsRouted mux chain) (exchange mux chain w k u method stream pool).2
  unfolding exchange IsRouted
  exchange-IsRouted k u method stream pool = (tt, tt)

  tls-IsRouted :
      (scheme : UrlScheme) (k : ℕ) (u : ParsedUrl) (method : Method) (raw : ℕ)
      (pool : Option ConnectionPool)
      → All (IsRouted mux chain) (perform_http1_tls mux chain w scheme k u method raw pool).2
  unfolding perform_http1_tls IsRouted
  tls-IsRouted http k u method raw pool = exchange-IsRouted k u method raw pool
  tls-IsRouted https k u method raw pool =
      then_do-All (IsRouted mux chain) (w.secured k, pool, handshakes raw u.host ∷ [])
        (exchange mux chain w k u method) (tt, tt)
        (λ stream pool' e. exchange-IsRouted k u method stream pool')

  exchange-IsSecured :
      (k : ℕ) (u : ParsedUrl) (method : Method) (stream : ℕ) (pool : Option ConnectionPool)
      → (u.scheme ≡ https → w.secured k ≡ ok stream)
      → All (IsSecured w) (exchange mux chain w k u method stream pool).2
  unfolding exchange IsSecured
  exchange-IsSecured k u method stream pool h = (h, tt)

  tls-IsSecured :
      (scheme : UrlScheme) (k : ℕ) (u : ParsedUrl) (method : Method) (raw : ℕ)
      (pool : Option ConnectionPool)
      → u.scheme ≡ scheme
      → All (IsSecured w) (perform_http1_tls mux chain w scheme k u method raw pool).2
  unfolding perform_http1_tls IsSecured
  tls-IsSecured http k u method raw pool e =
      exchange-IsSecured k u method raw pool (λ q. ground arith)
  tls-IsSecured https k u method raw pool e =
      then_do-All (IsSecured w) (w.secured k, pool, handshakes raw u.host ∷ [])
        (exchange mux chain w k u method) (tt, tt)
        (λ stream pool' s. exchange-IsSecured k u method stream pool' (λ q. s))

reach-All :
    (mux : Option ℕ) (chain : List Proxy) (w : World) (P : Call → Type 0) (k : ℕ) (u : ParsedUrl)
    (pool : Option ConnectionPool)
    → P (dials u.host u.port)
    → ((stream : ℕ) → P (reuses stream u.host u.port))
    → All P (reach mux chain w k u pool).2
unfolding reach pooled_or_dialled
reach-All mux chain w P k u none h h' = (h, tt)
reach-All mux chain w P k u (some pool) h h' = got (Pool.get (u.host, u.port) (w.starts_at k) pool)
  where
    got : (g : Option ℕ × ConnectionPool) → All P (pooled_or_dialled mux chain w k u g).2
    got (some stream, pool) = (h' stream, tt)
    got (none, pool) = (h, tt)

open_raw-IsRouted :
    (mux : Option ℕ) (chain : List Proxy) (w : World) (k : ℕ) (u : ParsedUrl)
    (pool : Option ConnectionPool)
    → All (IsRouted mux chain) (open_raw mux chain w mux k u pool).2
unfolding open_raw by_chain tunnel IsRouted
open_raw-IsRouted (some m) chain w k u pool = ((λ q. ground arith), tt)
open_raw-IsRouted none [] w k u pool =
    reach-All none [] w (IsRouted none []) k u pool refl (λ stream. (refl, refl))
open_raw-IsRouted none (first ∷ further) w k u pool =
    let chain = first ∷ further in
    then_do-All (IsRouted none chain) (w.connected k, pool, dials first.host first.port ∷ [])
      (tunnel none chain w k u) ((refl, refl, refl), tt) (λ stream pool' e. ((refl, refl), tt))

open_raw-IsSecured :
    (mux : Option ℕ) (chain : List Proxy) (w : World) (k : ℕ) (u : ParsedUrl)
    (pool : Option ConnectionPool)
    → All (IsSecured w) (open_raw mux chain w mux k u pool).2
unfolding open_raw by_chain tunnel IsSecured
open_raw-IsSecured (some m) chain w k u pool = (tt, tt)
open_raw-IsSecured none [] w k u pool = reach-All none [] w (IsSecured w) k u pool tt (λ stream. tt)
open_raw-IsSecured none (first ∷ further) w k u pool =
    let chain = first ∷ further in
    then_do-All (IsSecured w) (w.connected k, pool, dials first.host first.port ∷ [])
      (tunnel none chain w k u) (tt, tt) (λ stream pool' e. (tt, tt))

-- Over all the redirects of a `perform`: with a mux every stream is opened through it, and nothing is
-- dialled or taken from the pool; without one, but with proxies, the first of them is the only address
-- dialled, every tunnel is asked for through the whole chain, and no stream is taken from the pool. A
-- stream is taken from the pool only without a mux and without proxies.
pub perform-IsRouted :
    (mux : Option ℕ) (chain : List Proxy) (w : World) (follow_redirects : Bool) (max_redirects : ℕ)
    (url : Option Bytes) (method : Method) (pool : Option ConnectionPool)
    → All
        (IsRouted mux chain)
        (perform mux chain w follow_redirects max_redirects url method pool).2
unfolding IsRouted request
perform-IsRouted mux chain w =
    perform-All mux chain w (IsRouted mux chain) (λ s h p. tt)
      (λ k u method pool.
        then_do-All (IsRouted mux chain) (open_raw mux chain w mux k u pool)
          (perform_http1_tls mux chain w u.scheme k u method)
          (open_raw-IsRouted mux chain w k u pool)
          (λ raw pool' e. tls-IsRouted mux chain w u.scheme k u method raw pool'))

-- Over all the redirects of a `perform`: an exchange for an https URL is over the stream that the TLS
-- handshake of the same request gave, never over a stream below it.
pub perform-IsSecured :
    (mux : Option ℕ) (chain : List Proxy) (w : World) (follow_redirects : Bool) (max_redirects : ℕ)
    (url : Option Bytes) (method : Method) (pool : Option ConnectionPool)
    → All (IsSecured w) (perform mux chain w follow_redirects max_redirects url method pool).2
unfolding IsSecured request
perform-IsSecured mux chain w =
    perform-All mux chain w (IsSecured w) (λ s h p. tt)
      (λ k u method pool.
        then_do-All (IsSecured w) (open_raw mux chain w mux k u pool)
          (perform_http1_tls mux chain w u.scheme k u method)
          (open_raw-IsSecured mux chain w k u pool)
          (λ raw pool' e. tls-IsSecured mux chain w u.scheme k u method raw pool' refl))
