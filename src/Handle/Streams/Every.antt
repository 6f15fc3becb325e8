-- ===== src/Handle/Streams/Every.antt =====
-- handle.rs, `perform`: what holds of each of its calls, from what holds of those of a request.
use unstable_drift.Prelude.{
  ℕ, zero, suc, ◌≡◌, refl, Bool, true, false, ◌&&◌, Option, none, some, List, All, All-append,
}
use unstable_drift.Prelude.{Result, ok, err, ◌==◌, if◌then◌else◌, if-both}
use unstable_drift.Bytes.{Bytes}
use unstable_drift.Bytes.Search.{same_text}
use unstable_drift.Proxy.Chain.{Proxy}
use unstable_drift.Pool.{ConnectionPool}
use unstable_drift.Handle.{UrlFault, ParsedUrl, parse_url, resolve_url, is_redirect_status}
use unstable_drift.Handle.Settings.{Method}
use unstable_drift.Handle.Perform.{Reply, next_method}
use unstable_drift.Handle.Streams.{
  World, Call, pools, Step, after, then_do, put_back, request, finish, redirect, located, follow,
  round, perform_loop, perform,
}

after-All :
    {A : Type 0} (P : Call → Type 0) (calls : List Call) (s : Step A)
    → All P calls
    → All P s.2
    → All P (after calls s).2
unfolding after
after-All P calls (r, pool, more) h k = All-append P calls more h k

pub then_do-All :
    {A B : Type 0} (P : Call → Type 0) (s : Step A) (next : A → Option ConnectionPool → Step B)
    → All P s.2
    → ((a : A) (pool : Option ConnectionPool) → s.0 ≡ ok a → All P (next a pool).2)
    → All P (then_do s next).2
unfolding then_do
then_do-All P (err e, pool, calls) next h k = h
then_do-All P (ok a, pool, calls) next h k = after-All P calls (next a pool) h (k a pool refl)

module _ (mux : Option ℕ) (chain : List Proxy) (w : World) where
  -- What holds of each call of a request and of putting a stream back holds of each call of `perform`.
  module _ (P : Call → Type 0) (puts : (s : ℕ) (h : Bytes) (p : ℕ) → P (pools s h p))
      (requests : (k : ℕ) (u : ParsedUrl) (method : Method) (pool : Option ConnectionPool)
        → All P (request mux chain w k u method pool).2) where
    put_back-All :
        (b : Bool) (u : ParsedUrl) (stream now : ℕ) (pool : Option ConnectionPool)
        → All P (put_back b u stream now pool).1
    unfolding put_back
    put_back-All false u stream now pool = tt
    put_back-All true u stream now none = tt
    put_back-All true u stream now (some pool) = (puts stream u.host u.port, tt)

    finish-All :
        (k : ℕ) (u : ParsedUrl) (r : Reply × ℕ) (pool : Option ConnectionPool)
        → All P (finish mux chain w k u r pool).2
    unfolding finish
    finish-All k u (reply, stream) pool = put_back-All reply.keep_alive u stream (w.ends_at k) pool

    redirect-All :
        (further : Option ConnectionPool → Step Reply) (v : Result UrlFault ParsedUrl) (same : Bool)
        (k : ℕ) (u : ParsedUrl) (r : Reply × ℕ) (pool : Option ConnectionPool)
        → ((pool : Option ConnectionPool) → All P (further pool).2)
        → All P (redirect mux chain w further v same k u r pool).2
    unfolding redirect
    redirect-All further v true k u r pool h = tt
    redirect-All further (err e) false k u r pool h = tt
    redirect-All further (ok v) false k u (reply, stream) pool h =
        let here = same_text v.host u.host && (v.port == u.port) in
        let back = put_back (reply.keep_alive && here) u stream (w.ends_at k) pool in
        after-All P back.1 (further back.0)
          (put_back-All (reply.keep_alive && here) u stream (w.ends_at k) pool) (h back.0)

    located-All :
        (to : Bytes → Step Reply) (reply : Reply) (pool : Option ConnectionPool)
        (loc : Option Bytes)
        → ((l : Bytes) → All P (to l).2)
        → All P (located mux chain w to reply pool loc).2
    unfolding located
    located-All to reply pool none h = tt
    located-All to reply pool (some l) h = h l

    follow-All :
        (further : Bytes → Method → Option ConnectionPool → Step Reply) (k : ℕ) (url : Bytes)
        (method : Method) (u : ParsedUrl) (r : Reply × ℕ) (pool : Option ConnectionPool)
        → ((url : Bytes) (method : Method) (pool : Option ConnectionPool)
            → All P (further url method pool).2)
        → All P (follow mux chain w further k url method u r pool).2
    unfolding follow
    follow-All further k url method u r pool h =
        if-both (λ (s : Step Reply). All P s.2) (is_redirect_status r.0.status)
          (located-All _ r.0 pool r.0.location (λ loc.
            let next = resolve_url url loc in
            redirect-All (further next (next_method r.0.status method)) (parse_url next)
              (same_text next url) k u r pool (h next (next_method r.0.status method))))
          (finish-All k u r pool)

    round-All :
        (k : ℕ) (method : Method) (p : Result UrlFault ParsedUrl)
        (rest : ParsedUrl → Reply × ℕ → Option ConnectionPool → Step Reply)
        (pool : Option ConnectionPool)
        → ((u : ParsedUrl) (r : Reply × ℕ) (pool : Option ConnectionPool) → All P (rest u r pool).2)
        → All P (round mux chain w k method p rest pool).2
    unfolding round
    round-All k method (err e) rest pool h = tt
    round-All k method (ok u) rest pool h =
        then_do-All P (request mux chain w k u method pool) (rest u) (requests k u method pool)
          (λ r pool' e. h u r pool')

    loop-All :
        (n k : ℕ) (url : Bytes) (method : Method) (pool : Option ConnectionPool)
        → All P (perform_loop mux chain w n k url method pool).2
    unfolding perform_loop
    loop-All zero k url method pool =
        round-All k method (parse_url url) (finish mux chain w k) pool (finish-All k)
    loop-All (suc n) k url method pool =
        let further = perform_loop mux chain w n (suc k) in
        round-All k method (parse_url url) (follow mux chain w further k url method) pool
          (λ u r pool'. follow-All further k url method u r pool' (loop-All n (suc k)))

    pub perform-All :
        (follow_redirects : Bool) (max_redirects : ℕ) (url : Option Bytes) (method : Method)
        (pool : Option ConnectionPool)
        → All P (perform mux chain w follow_redirects max_redirects url method pool).2
    unfolding perform
    perform-All follow_redirects max_redirects none method pool = tt
    perform-All follow_redirects max_redirects (some url) method pool =
        loop-All (if follow_redirects then max_redirects else 0) 0 url method pool
