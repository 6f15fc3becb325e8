-- ===== src/Handle/Streams/Reused.antt =====
-- handle.rs, `perform` with its pool: what a request to the same place gets for its stream.
use unstable_drift.Prelude.{
  ℕ, ◌+◌, ◌<◌, ◌≡◌, refl, ap, true, false, Option, none, some, List, [], ◌∷◌, ◌++◌, arith,
}
use unstable_drift.Prelude.{Result, ok, err}
use unstable_drift.Bytes.{Bytes}
use unstable_drift.Pool
use unstable_drift.Pool.{ConnectionPool, idle_timeout}
use unstable_drift.Pool.Reuse.{put-get}
use unstable_drift.Handle.{UrlScheme, http, https, ParsedUrl, parse_url}
use unstable_drift.Handle.Settings.{Method}
use unstable_drift.Handle.Perform.{Reply, HandleError}
use unstable_drift.Handle.Streams.{
  World, Call, reuses, dials, handshakes, exchanges, pools, Step, after, then_do, put_back,
  pooled_or_dialled, reach, by_chain, open_raw, exchange, perform_http1_tls, request, finish, round,
  perform_loop, perform,
}

-- The calls of a first request to an https URL, over a new connection that is kept.
first_calls :
    (w : World) (url : Bytes) (u : ParsedUrl) (method : Method) (raw tls : ℕ) (reply : Reply)
    → parse_url url ≡ ok u
    → u.scheme ≡ https
    → w.connected 0 ≡ ok raw
    → w.secured 0 ≡ ok tls
    → w.answered 0 ≡ ok reply
    → reply.keep_alive ≡ true
    → perform none [] w false 0 (some url) method (some Pool.new) ≡ (
      ok reply,
      some (Pool.put (u.host, u.port) tls (w.ends_at 0) Pool.new),
      dials u.host u.port
          ∷ (handshakes raw u.host ∷ (exchanges 0 tls u method ∷ (pools tls u.host u.port ∷ []))),
    )
unfolding perform perform_loop round request open_raw by_chain reach pooled_or_dialled then_do after
    perform_http1_tls exchange finish put_back Pool.get Pool.get_at Pool.new
first_calls w url u method raw tls reply p s c t a k = rw (p, c, s, t, a, k) refl

abbrev Begins : List Call → (c c' : Call) → Type 0
Begins calls c c' = (rest : List Call) × (calls ≡ c ∷ (c' ∷ rest))

-- A handshake follows a raw stream that is taken from the pool.
handshake_first :
    (w : World) (u : ParsedUrl) (method : Method) (raw stream : ℕ) (pool : Option ConnectionPool)
    (secured : Result HandleError ℕ)
    → raw ≡ stream
    → Begins
        (reuses raw u.host u.port
          ∷ (then_do (secured, pool, handshakes raw u.host ∷ []) (exchange none [] w 0 u method)).2)
        (reuses stream u.host u.port)
        (handshakes stream u.host)
unfolding then_do after
handshake_first w u method raw stream pool (err e) q =
    ([], ap (λ x. reuses x u.host u.port ∷ (handshakes x u.host ∷ [])) q)
handshake_first w u method raw stream pool (ok t) q =
    let more = (exchange none [] w 0 u method t pool).2 in
    (more, ap (λ x. reuses x u.host u.port ∷ (handshakes x u.host ∷ more)) q)

then_do-Begins :
    {A B : Type 0} (s : Step A) (next : A → Option ConnectionPool → Step B) (c c' : Call)
    → Begins s.2 c c'
    → Begins (then_do s next).2 c c'
unfolding then_do after
then_do-Begins (err e, pool, calls) next c c' b = b
then_do-Begins (ok a, pool, calls) next c c' (rest, e) =
    (rest ++ (next a pool).2, ap (λ cs. cs ++ (next a pool).2) e)

pooled_handshake :
    (w : World) (u : ParsedUrl) (method : Method) (stream : ℕ) (pool : ConnectionPool)
    → u.scheme ≡ https
    → (Pool.get (u.host, u.port) (w.starts_at 0) pool).0 ≡ some stream
    → Begins
        (request none [] w 0 u method (some pool)).2
        (reuses stream u.host u.port)
        (handshakes stream u.host)
unfolding request open_raw by_chain reach pooled_or_dialled then_do after perform_http1_tls
pooled_handshake w u method stream pool s g =
    got u.scheme (Pool.get (u.host, u.port) (w.starts_at 0) pool) s g
  where
    got :
        (scheme : UrlScheme) (o : Option ℕ × ConnectionPool)
        → scheme ≡ https
        → o.0 ≡ some stream
        → Begins
            (then_do
              (pooled_or_dialled none [] w 0 u o)
              (perform_http1_tls none [] w scheme 0 u method)).2
            (reuses stream u.host u.port)
            (handshakes stream u.host)
    got http o s g = ground arith
    got https (none, pool) s g = ground arith
    got https (some t, pool) s g =
        handshake_first w u method t stream (some pool) (w.secured 0) (ground arith)

-- Two requests in a row to an https URL by a handle with a pool, no mux and no proxies, the first over
-- a new connection that the server keeps, the second within 30 seconds of its end: the second takes
-- the TLS stream of the first out of the pool for its raw stream, and handshakes over it again.
pub tls_over_tls :
    (w w' : World) (url : Bytes) (u : ParsedUrl) (method : Method) (raw tls : ℕ) (reply : Reply)
    → parse_url url ≡ ok u
    → u.scheme ≡ https
    → w.connected 0 ≡ ok raw
    → w.secured 0 ≡ ok tls
    → w.answered 0 ≡ ok reply
    → reply.keep_alive ≡ true
    → w'.starts_at 0 < w.ends_at 0 + idle_timeout
    → let first = perform none [] w false 0 (some url) method (some Pool.new) in
      let second = perform none [] w' false 0 (some url) method first.1 in
      Begins second.2 (reuses tls u.host u.port) (handshakes tls u.host)
unfolding perform perform_loop round Pool.or_default Pool.new
tls_over_tls w w' url u method raw tls reply p s c t a k early =
    let key : Pool.Key = (u.host, u.port) in
    let pool = Pool.put key tls (w.ends_at 0) Pool.new in
    let one = first_calls w url u method raw tls reply p s c t a k in
    rw (one, p)
      (then_do-Begins (request none [] w' 0 u method (some pool)) (finish none [] w' 0 u)
        (reuses tls u.host u.port) (handshakes tls u.host)
        (pooled_handshake w' u method tls pool s
          (put-get key tls (w.ends_at 0) (w'.starts_at 0) Pool.new (omega arith) early)))
