-- ===== src/Handle/Perform/Bounded.antt =====
-- How many requests the loop of `perform` in handle.rs makes, and when it returns a response.
use unstable_drift.Prelude.{
  ℕ, zero, suc, ◌+◌, ◌≤◌, ◌≡◌, ◌⊎◌, inl, inr, refl, ◌∙◌, sym, Bool, true, false, ◌&&◌, Option, none,
  some, List, ◌∷◌, ◌++◌, arith,
}
use unstable_drift.Prelude.{Result, ok, err, if◌then◌else◌, ◌==◌, if-cases, Yields, Yields-map}
use unstable_drift.Bytes.{Bytes}
use unstable_drift.Handle.{UrlFault, ParsedUrl, parse_url, resolve_url, is_redirect_status}
use unstable_drift.Bytes.Search.{same_text}
use unstable_drift.Handle.Perform.{
  Method, Reply, HandleError, Effect, requests, put_back, next_method, Outcome, finish, redirect,
  located, follow, round, perform_loop, perform, requests_in,
}

-- At most `n` requests; a response that is returned is no redirect, or names no location, or comes
-- after just `n`.
pub record Within (n : ℕ) (r : Result HandleError Reply) (effects : List Effect) : Type 0 where
  pub few : requests_in effects ≤ n
  pub last :
      Yields
        (λ reply.
          (is_redirect_status reply.status ≡ false)
          ⊎ ((reply.location ≡ none) ⊎ (requests_in effects ≡ n)))
        r

none_put : (b : Bool) (u : ParsedUrl) → requests_in (put_back b u) ≡ 0
unfolding requests_in put_back
none_put true u = refl
none_put false u = refl

no_requests :
    (b : Bool) (u : ParsedUrl) (es : List Effect)
    → requests_in (put_back b u ++ es) ≡ requests_in es
unfolding requests_in put_back
no_requests true u es = refl
no_requests false u es = refl

-- More effects, with `k` more requests in them.
recount :
    (k n m : ℕ) (r : Result HandleError Reply) (es es' : List Effect)
    → requests_in es' ≡ k + requests_in es
    → m ≡ k + n
    → Within n r es
    → Within m r es'
recount k n m r es es' e h w = record {
  few = let f = w.few in omega arith;
  last =
      Yields-map r
        (λ reply x. elim x [
          | inl a ↦ inl a
          | inr y ↦ elim y [ inl b ↦ inr (inl b) | inr c ↦ inr (inr (omega arith)) ]
        ])
        w.last;
}

module _ (pool : Bool) where
  finish-Within :
      (u : ParsedUrl) (reply : Reply) (n : ℕ)
      → (is_redirect_status reply.status ≡ false) ⊎ (n ≡ 0)
      → Within n (finish pool u reply).0 (finish pool u reply).1
  unfolding finish put_back requests_in
  finish-Within u reply n h = record {
    few = let z = none_put (reply.keep_alive && pool) u in omega arith;
    last = elim h [
      | inl e ↦ inl e
      | inr e ↦ inr (inr (none_put (reply.keep_alive && pool) u ∙ sym e))
    ];
  }

  redirect-Within :
      (n : ℕ) (further : Outcome) (v : Result UrlFault ParsedUrl) (same : Bool) (u : ParsedUrl)
      (reply : Reply)
      → Within n further.0 further.1
      → let o = redirect pool further v same u reply in Within n o.0 o.1
  unfolding redirect requests_in
  redirect-Within n further v true u reply w = record { few = omega arith; last = tt }
  redirect-Within n further (err e) false u reply w = record { few = omega arith; last = tt }
  redirect-Within n further (ok v) false u reply w =
      let back =
        put_back ((reply.keep_alive && (same_text v.host u.host && (v.port == u.port))) && pool)
          u in
      let z =
        no_requests ((reply.keep_alive && (same_text v.host u.host && (v.port == u.port))) && pool)
          u further.1 in
      recount 0 n n further.0 further.1 (back ++ further.1) (omega arith) (omega arith) w

  located-Within :
      (n : ℕ) (to : Bytes → Outcome) (reply : Reply) (loc : Option Bytes)
      → reply.location ≡ loc
      → ((l : Bytes) → Within n (to l).0 (to l).1)
      → let o = located pool to reply loc in Within n o.0 o.1
  unfolding located requests_in
  located-Within n to reply none e w = record { few = omega arith; last = inr (inl e) }
  located-Within n to reply (some l) e w = w l

  follow-Within :
      (n : ℕ) (further : Bytes → Method → Outcome) (url : Bytes) (method : Method) (u : ParsedUrl)
      (reply : Reply)
      → ((url : Bytes) (method : Method) → Within n (further url method).0 (further url method).1)
      → let o = follow pool further url method u reply in Within n o.0 o.1
  unfolding follow
  follow-Within n further url method u reply w =
      let to : Bytes → Outcome = λ loc.
        let next = resolve_url url loc in
        redirect pool (further next (next_method reply.status method)) (parse_url next)
          (same_text next url) u reply in
      if-cases (λ (o : Outcome). Within n o.0 o.1) (is_redirect_status reply.status)
        (λ e. located-Within n to reply reply.location refl (λ loc.
          let next = resolve_url url loc in
          redirect-Within n (further next (next_method reply.status method)) (parse_url next)
            (same_text next url) u reply (w next (next_method reply.status method))))
        (λ e. finish-Within u reply n (inl e))

  round-Within :
      (n : ℕ) (url : Bytes) (method : Method) (p : Result UrlFault ParsedUrl)
      (a : Result HandleError Reply) (rest : ParsedUrl → Reply → Outcome)
      → ((u : ParsedUrl) (reply : Reply) → Within n (rest u reply).0 (rest u reply).1)
      → let o = round pool url method p a rest in Within (suc n) o.0 o.1
  unfolding round requests_in
  round-Within n url method (err e) a rest w = record { few = omega arith; last = tt }
  round-Within n url method (ok u) (err e) rest w = record { few = omega arith; last = tt }
  round-Within n url method (ok u) (ok reply) rest w =
      let o = rest u reply in
      recount 1 n (suc n) o.0 o.1 (requests url method ∷ o.1) refl (omega arith) (w u reply)

  loop-Within :
      (n : ℕ) (answer : ℕ → Result HandleError Reply) (url : Bytes) (method : Method)
      → let o = perform_loop pool n answer url method in Within (suc n) o.0 o.1
  unfolding perform_loop
  loop-Within zero answer url method =
      round-Within 0 url method (parse_url url) (answer 0) (finish pool)
        (λ u reply. finish-Within u reply 0 (inr refl))
  loop-Within (suc n) answer url method =
      let further = perform_loop pool n (λ k. answer (suc k)) in
      round-Within (suc n) url method (parse_url url) (answer 0) (follow pool further url method)
        (λ u reply.
          follow-Within (suc n) further url method u reply (loop-Within n (λ k. answer (suc k))))

  -- Whatever the servers answer, with a URL set `perform` returns, after at most one request more than
  -- the redirects allowed (none, if it is not to follow any). A response that it returns is no redirect,
  -- or names no location, or is the answer to the last request that is allowed.
  pub perform_bounded :
      (answer : ℕ → Result HandleError Reply) (follow_redirects : Bool) (max_redirects : ℕ)
      (url : Bytes) (method : Method)
      → let (r, effects) = perform pool answer follow_redirects max_redirects (some url) method in
        Within (suc (if follow_redirects then max_redirects else 0)) r effects
  unfolding perform
  perform_bounded answer follow_redirects max_redirects url method =
      loop-Within (if follow_redirects then max_redirects else 0) answer url method
