-- ===== src/Handle/Perform.antt =====
-- The redirect loop of `WispHandle::perform` in handle.rs.
--
-- What opening a stream to the parsed URL and `perform_http1_tls` give for the request number k is an
-- argument; the method that a 303 leaves in the handle is not a result here. The headers of a response
-- are read for `location` and `connection` only, and a response is
-- those two and the status. The effects are the requests made and the streams put into the pool.
pub mod Bounded
use unstable_drift.Prelude.{
  ℕ, zero, suc, ◌+◌, ◌≤◌, ◌≡◌, ◌⊎◌, inl, inr, refl, Bool, true, false, ◌&&◌, Option, none, some,
  List, [], ◌∷◌, ◌++◌, arith,
}
use unstable_drift.Prelude.{
  Result, ok, err, ◌==◌, if◌then◌else◌, if-cases, Bool-cases, Option-cases, Result-cases,
}
use unstable_drift.Bytes.{Bytes}
use unstable_drift.Bytes.Search.{same_text}
use unstable_drift.Handle.Settings.{Method, get}
use unstable_drift.Handle.{UrlFault, ParsedUrl, parse_url, resolve_url, is_redirect_status}

pub record Reply : Type 0 where
  pub status : ℕ
  pub location : Option Bytes
  pub keep_alive : Bool

pub data HandleError : Type 0 where
  config : UrlFault → HandleError
  no_url : HandleError
  redirect_loop : HandleError
  failed : Bytes → HandleError

pub data Effect : Type 0 where
  requests : (url : Bytes) → Method → Effect
  pools : (host : Bytes) → (port : ℕ) → Effect

-- `pool.put`, if there is a pool and the connection is kept.
unfoldable pub put_back : Bool → ParsedUrl → List Effect
put_back true u = pools u.host u.port ∷ []
put_back false u = []

-- 303 always switches to GET.
unfoldable pub next_method : ℕ → Method → Method
next_method status method = if status == 303 then get else method

abbrev pub Outcome : Type 0
Outcome = Result HandleError Reply × List Effect

module _ (pool : Bool) where
  -- A request that returns what it got.
  unfoldable pub finish : ParsedUrl → Reply → Outcome
  finish u reply = (ok reply, put_back (reply.keep_alive && pool) u)

  -- A redirect, whose further requests are `further`.
  unfoldable pub redirect :
      (further : Outcome)
      → (next_parsed : Result UrlFault ParsedUrl) → (same : Bool) → ParsedUrl
      → Reply
      → Outcome
  redirect further next_parsed true u reply = (err redirect_loop, [])
  redirect further (err e) false u reply = (err (config e), [])
  redirect further (ok v) false u reply =
      let here = same_text v.host u.host && (v.port == u.port) in
      (further.0, put_back ((reply.keep_alive && here) && pool) u ++ further.1)

  -- What a redirect's status does: without a location the response is returned, and not pooled.
  unfoldable pub located : (Bytes → Outcome) → Reply → Option Bytes → Outcome
  located to reply none = (ok reply, [])
  located to reply (some loc) = to loc

  unfoldable pub follow :
      (further : Bytes → Method → Outcome) → (url : Bytes) → Method → ParsedUrl → Reply → Outcome
  follow further url method u reply =
      let to : Bytes → Outcome = λ loc.
        let next = resolve_url url loc in
        redirect (further next (next_method reply.status method)) (parse_url next)
          (same_text next url) u reply in
      if is_redirect_status reply.status then located to reply reply.location else finish u reply

  -- One round of the loop up to the response, and what is done with it.
  unfoldable pub round :
      (url : Bytes)
      → Method
      → Result UrlFault ParsedUrl
      → Result HandleError Reply
      → (ParsedUrl → Reply → Outcome)
      → Outcome
  round url method (err e) reply rest = (err (config e), [])
  round url method (ok u) (err e) rest = (err e, requests url method ∷ [])
  round url method (ok u) (ok reply) rest =
      let (r, effects) = rest u reply in (r, requests url method ∷ effects)

  -- The loop with `remaining` redirects left, when the requests to come are answered by `answer`.
  unfoldable pub perform_loop :
      (remaining : ℕ) → (answer : ℕ → Result HandleError Reply) → (url : Bytes) → Method → Outcome
  perform_loop zero answer url method = round url method (parse_url url) (answer 0) finish
  perform_loop (suc n) answer url method =
      round url method (parse_url url) (answer 0)
        (follow (perform_loop n (λ k. answer (suc k))) url method)

  unfoldable pub perform :
      (answer : ℕ → Result HandleError Reply)
      → (follow_redirects : Bool) → (max_redirects : ℕ) → Option Bytes
      → Method
      → Outcome
  perform answer follow_redirects max_redirects none method = (err no_url, [])
  perform answer follow_redirects max_redirects (some url) method =
      perform_loop (if follow_redirects then max_redirects else 0) answer url method

unfoldable pub requests_in : List Effect → ℕ
requests_in [] = 0
requests_in (requests url method ∷ es) = 1 + requests_in es
requests_in (pools host port ∷ es) = requests_in es
