-- ===== src/Handle/Streams.antt =====
-- handle.rs: `WispHandle::perform` with its streams and its pool, on a native target.
--
-- A `World` is what the calls of request number k answer: `Mux::open`, `TcpStream::connect`,
-- `apply_chain`, the TLS handshake with its configuration, and `perform_http1`, and what the clock says
-- at its two uses of the pool. A stream is a number; a TLS stream is another one than the stream below.
pub mod Every
pub mod Served
pub mod Routed
pub mod Refined
pub mod Reused
mod Examples
use unstable_drift.Prelude.{
  ℕ, zero, suc, Bool, true, false, ◌&&◌, Option, none, some, List, [], ◌∷◌, ◌++◌,
}
use unstable_drift.Prelude.{Result, ok, err, ◌>>=◌, ◌==◌, if◌then◌else◌}
use unstable_drift.Bytes.{Bytes}
use unstable_drift.Bytes.Search.{same_text}
use unstable_drift.Proxy.Chain.{Proxy}
use unstable_drift.Pool.{ConnectionPool}
use unstable_drift.Pool
use unstable_drift.Handle.{
  UrlFault, UrlScheme, http, https, ParsedUrl, parse_url, resolve_url, is_redirect_status,
}
use unstable_drift.Handle.Settings.{Method}
use unstable_drift.Handle.Perform.{Reply, HandleError, config, no_url, redirect_loop, next_method}

pub record World : Type 0 where
  pub opened : ℕ → Result HandleError ℕ
  pub connected : ℕ → Result HandleError ℕ
  pub tunnelled : ℕ → Result HandleError (Unit {0})
  pub secured : ℕ → Result HandleError ℕ
  pub answered : ℕ → Result HandleError Reply
  pub starts_at : ℕ → ℕ
  pub ends_at : ℕ → ℕ

pub data Call : Type 0 where
  opens : (host : Bytes) → (port : ℕ) → Call
  dials : (host : Bytes) → (port : ℕ) → Call
  tunnels : (stream : ℕ) → List Proxy → (host : Bytes) → (port : ℕ) → Call
  handshakes : (stream : ℕ) → (host : Bytes) → Call
  reuses : (stream : ℕ) → (host : Bytes) → (port : ℕ) → Call
  exchanges : (k stream : ℕ) → ParsedUrl → Method → Call
  pools : (stream : ℕ) → (host : Bytes) → (port : ℕ) → Call

-- A result, the pool that is left, and the calls made.
abbrev pub Step : Type 0 → Type 0
Step A = Result HandleError A × Option ConnectionPool × List Call

unfoldable pub after : {A : Type 0} → List Call → Step A → Step A
after calls (r, pool, more) = (r, pool, calls ++ more)

unfoldable pub then_do : {A B : Type 0} → Step A → (A → Option ConnectionPool → Step B) → Step B
then_do (err e, pool, calls) next = (err e, pool, calls)
then_do (ok a, pool, calls) next = after calls (next a pool)

-- `pool.put`, if the connection is kept and there is a pool.
unfoldable pub put_back :
    Bool → ParsedUrl → (stream now : ℕ) → Option ConnectionPool → Option ConnectionPool × List Call
put_back false u stream now pool = (pool, [])
put_back true u stream now none = (none, [])
put_back true u stream now (some pool) =
    (some (Pool.put (u.host, u.port) stream now pool), pools stream u.host u.port ∷ [])

module _ (mux : Option ℕ) (chain : List Proxy) (w : World) where
  unfoldable pub pooled_or_dialled : (k : ℕ) → ParsedUrl → Option ℕ × ConnectionPool → Step ℕ
  pooled_or_dialled k u (some stream, pool) =
      (ok stream, some pool, reuses stream u.host u.port ∷ [])
  pooled_or_dialled k u (none, pool) = (w.connected k, some pool, dials u.host u.port ∷ [])

  -- A direct connection.
  unfoldable pub reach : (k : ℕ) → ParsedUrl → Option ConnectionPool → Step ℕ
  reach k u none = (w.connected k, none, dials u.host u.port ∷ [])
  reach k u (some pool) = pooled_or_dialled k u (Pool.get (u.host, u.port) (w.starts_at k) pool)

  -- `apply_chain` over the stream to the first proxy.
  unfoldable pub tunnel : (k : ℕ) → ParsedUrl → (stream : ℕ) → Option ConnectionPool → Step ℕ
  tunnel k u stream pool =
      let r = (do t ← w.tunnelled k; ok stream) in
      (r, pool, tunnels stream chain u.host u.port ∷ [])

  unfoldable pub by_chain : List Proxy → (k : ℕ) → ParsedUrl → Option ConnectionPool → Step ℕ
  by_chain [] k u pool = reach k u pool
  by_chain (first ∷ further) k u pool =
      then_do (w.connected k, pool, dials first.host first.port ∷ []) (tunnel k u)

  -- The raw stream of a request.
  unfoldable pub open_raw : Option ℕ → (k : ℕ) → ParsedUrl → Option ConnectionPool → Step ℕ
  open_raw none k u pool = by_chain chain k u pool
  open_raw (some m) k u pool = (w.opened k, pool, opens u.host u.port ∷ [])

  -- `perform_http1`, which gives its stream back.
  unfoldable pub exchange :
      (k : ℕ) → ParsedUrl → Method → (stream : ℕ) → Option ConnectionPool → Step (Reply × ℕ)
  exchange k u method stream pool =
      let r = (do reply ← w.answered k; ok (reply, stream)) in
      (r, pool, exchanges k stream u method ∷ [])

  unfoldable pub perform_http1_tls :
      UrlScheme
      → (k : ℕ) → ParsedUrl
      → Method
      → (raw : ℕ) → Option ConnectionPool
      → Step (Reply × ℕ)
  perform_http1_tls http k u method raw pool = exchange k u method raw pool
  perform_http1_tls https k u method raw pool =
      then_do (w.secured k, pool, handshakes raw u.host ∷ []) (exchange k u method)

  -- One request, on whatever stream.
  unfoldable pub request : (k : ℕ) → ParsedUrl → Method → Option ConnectionPool → Step (Reply × ℕ)
  request k u method pool = then_do (open_raw mux k u pool) (perform_http1_tls u.scheme k u method)

  -- The end of a round without a redirect.
  unfoldable pub finish : (k : ℕ) → ParsedUrl → Reply × ℕ → Option ConnectionPool → Step Reply
  finish k u (reply, stream) pool =
      let (pool', calls) = put_back reply.keep_alive u stream (w.ends_at k) pool in
      (ok reply, pool', calls)

  -- A redirect, behind which `further` goes on.
  unfoldable pub redirect :
      (further : Option ConnectionPool → Step Reply)
      → (next_parsed : Result UrlFault ParsedUrl) → (same : Bool) → (k : ℕ) → ParsedUrl
      → Reply × ℕ
      → Option ConnectionPool
      → Step Reply
  redirect further next_parsed true k u r pool = (err redirect_loop, pool, [])
  redirect further (err e) false k u r pool = (err (config e), pool, [])
  redirect further (ok v) false k u (reply, stream) pool =
      let here = same_text v.host u.host && (v.port == u.port) in
      let (pool', calls) = put_back (reply.keep_alive && here) u stream (w.ends_at k) pool in
      after calls (further pool')

  unfoldable pub located :
      (Bytes → Step Reply) → Reply → Option ConnectionPool → Option Bytes → Step Reply
  located to reply pool none = (ok reply, pool, [])
  located to reply pool (some loc) = to loc

  unfoldable pub follow :
      (further : Bytes → Method → Option ConnectionPool → Step Reply)
      → (k : ℕ) → (url : Bytes) → Method
      → ParsedUrl
      → Reply × ℕ
      → Option ConnectionPool
      → Step Reply
  follow further k url method u r pool =
      let to : Bytes → Step Reply = λ loc.
        let next = resolve_url url loc in
        redirect (further next (next_method r.0.status method)) (parse_url next)
          (same_text next url) k u r pool in
      if is_redirect_status r.0.status then located to r.0 pool r.0.location else finish k u r pool

  unfoldable pub round :
      (k : ℕ)
      → Method
      → Result UrlFault ParsedUrl
      → (rest : ParsedUrl → Reply × ℕ → Option ConnectionPool → Step Reply) → Option ConnectionPool
      → Step Reply
  round k method (err e) rest pool = (err (config e), pool, [])
  round k method (ok u) rest pool = then_do (request k u method pool) (rest u)

  unfoldable pub perform_loop :
      (remaining k : ℕ) → (url : Bytes) → Method → Option ConnectionPool → Step Reply
  perform_loop zero k url method pool = round k method (parse_url url) (finish k) pool
  perform_loop (suc n) k url method pool =
      round k method (parse_url url) (follow (perform_loop n (suc k)) k url method) pool

  unfoldable pub perform :
      (follow_redirects : Bool)
      → (max_redirects : ℕ) → Option Bytes
      → Method
      → Option ConnectionPool
      → Step Reply
  perform follow_redirects max_redirects none method pool = (err no_url, pool, [])
  perform follow_redirects max_redirects (some url) method pool =
      perform_loop (if follow_redirects then max_redirects else 0) 0 url method pool
