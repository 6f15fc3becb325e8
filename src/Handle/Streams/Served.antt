-- ===== src/Handle/Streams/Served.antt =====
-- handle.rs, `perform`: the exchanges among its calls.
use unstable_drift.Prelude.{
  ℕ, ◌≡◌, ◌⊎◌, inl, inr, refl, ap, ◌∙◌, Bool, true, false, Option, none, some, List, [], ◌∷◌, ◌++◌,
}
use unstable_drift.Prelude.{Result, ok, err, ◌>>=◌}
use unstable_drift.Proxy.Chain.{Proxy}
use unstable_drift.Pool
use unstable_drift.Pool.{ConnectionPool}
use unstable_drift.Handle.{UrlScheme, http, https, ParsedUrl}
use unstable_drift.Handle.Perform.{Reply, HandleError}
use unstable_drift.Handle.Settings.{Method}
use unstable_drift.Handle.Streams.{
  World, Call, reuses, opens, dials, tunnels, handshakes, exchanges, pools, Step, after, then_do,
  put_back, pooled_or_dialled, reach, tunnel, by_chain, open_raw, exchange, perform_http1_tls,
  request,
}

-- The exchanges of some calls: the number of the request, its URL as parsed, and its method.
unfoldable pub served : List Call → List (ℕ × ParsedUrl × Method)
served [] = []
served (exchanges k stream u method ∷ cs) = (k, u, method) ∷ served cs
served (_ ∷ cs) = served cs

pub served-append : (cs ds : List Call) → served (cs ++ ds) ≡ served cs ++ served ds
unfolding served
served-append [] ds = refl
served-append (reuses s h p ∷ cs) ds = served-append cs ds
served-append (opens h p ∷ cs) ds = served-append cs ds
served-append (dials h p ∷ cs) ds = served-append cs ds
served-append (tunnels s hops h p ∷ cs) ds = served-append cs ds
served-append (handshakes s h ∷ cs) ds = served-append cs ds
served-append (exchanges k s u m ∷ cs) ds = ap (◌∷◌ (k, u, m)) (served-append cs ds)
served-append (pools s h p ∷ cs) ds = served-append cs ds

pub put_back-served :
    (b : Bool) (u : ParsedUrl) (stream now : ℕ) (pool : Option ConnectionPool)
    → served (put_back b u stream now pool).1 ≡ []
unfolding put_back served
put_back-served false u stream now pool = refl
put_back-served true u stream now none = refl
put_back-served true u stream now (some pool) = refl

-- A result without its stream.
unfoldable pub reply_of : Result HandleError (Reply × ℕ) → Result HandleError Reply
reply_of (ok r) = ok r.0
reply_of (err e) = err e

module _ (mux : Option ℕ) (chain : List Proxy) (w : World) where
  -- A request fails before its exchange, or it has one exchange, whose answer it returns.
  unfoldable pub IsServed : (k : ℕ) → ParsedUrl → Method → Step (Reply × ℕ) → Type 0
  IsServed k u method s =
      ((served s.2 ≡ []) × (e : HandleError) × (s.0 ≡ err e))
      ⊎ ((served s.2 ≡ (k, u, method) ∷ []) × (w.answered k ≡ reply_of s.0))

  -- Calls without an exchange in front.
  then_do-IsServed :
      {A : Type 0} (k : ℕ) (u : ParsedUrl) (method : Method) (s : Step A)
      (next : A → Option ConnectionPool → Step (Reply × ℕ))
      → served s.2 ≡ []
      → ((a : A) (pool : Option ConnectionPool) → IsServed k u method (next a pool))
      → IsServed k u method (then_do s next)
  unfolding IsServed then_do after
  then_do-IsServed k u method (err e, pool, calls) next h n = inl (h, e, refl)
  then_do-IsServed k u method (ok a, pool, calls) next h n =
      let more = (next a pool).2 in
      let same = served-append calls more ∙ ap (λ l. l ++ served more) h in
      elim (n a pool) [ inl (x, e, y) ↦ inl (same ∙ x, e, y) | inr (x, y) ↦ inr (same ∙ x, y) ]

  exchange-IsServed :
      (k : ℕ) (u : ParsedUrl) (method : Method) (stream : ℕ) (pool : Option ConnectionPool)
      → IsServed k u method (exchange mux chain w k u method stream pool)
  unfolding IsServed exchange served reply_of
  exchange-IsServed k u method stream pool = inr (refl, kept (w.answered k))
    where
      kept : (r : Result HandleError Reply) → r ≡ reply_of (do reply ← r; ok (reply, stream))
      kept (ok reply) = refl
      kept (err e) = refl

  then_do-quiet :
      {A B : Type 0} (s : Step A) (next : A → Option ConnectionPool → Step B)
      → served s.2 ≡ []
      → ((a : A) (pool : Option ConnectionPool) → served (next a pool).2 ≡ [])
      → served (then_do s next).2 ≡ []
  unfolding then_do after
  then_do-quiet (err e, pool, calls) next h n = h
  then_do-quiet (ok a, pool, calls) next h n =
      let more = (next a pool).2 in
      served-append calls more ∙ ap (λ l. l ++ served more) h ∙ n a pool

  reach-quiet :
      (k : ℕ) (u : ParsedUrl) (pool : Option ConnectionPool)
      → served (reach mux chain w k u pool).2 ≡ []
  unfolding reach pooled_or_dialled served
  reach-quiet k u none = refl
  reach-quiet k u (some pool) = got (Pool.get (u.host, u.port) (w.starts_at k) pool)
    where
      got : (g : Option ℕ × ConnectionPool) → served (pooled_or_dialled mux chain w k u g).2 ≡ []
      got (some stream, pool) = refl
      got (none, pool) = refl

  by_chain-quiet :
      (c : List Proxy) (k : ℕ) (u : ParsedUrl) (pool : Option ConnectionPool)
      → served (by_chain mux chain w c k u pool).2 ≡ []
  unfolding by_chain tunnel served
  by_chain-quiet [] k u pool = reach-quiet k u pool
  by_chain-quiet (first ∷ further) k u pool =
      then_do-quiet (w.connected k, pool, dials first.host first.port ∷ []) (tunnel mux chain w k u)
        refl (λ stream pool'. refl)

  open_raw-quiet :
      (m : Option ℕ) (k : ℕ) (u : ParsedUrl) (pool : Option ConnectionPool)
      → served (open_raw mux chain w m k u pool).2 ≡ []
  unfolding open_raw served
  open_raw-quiet none k u pool = by_chain-quiet chain k u pool
  open_raw-quiet (some m) k u pool = refl

  tls-IsServed :
      (scheme : UrlScheme) (k : ℕ) (u : ParsedUrl) (method : Method) (raw : ℕ)
      (pool : Option ConnectionPool)
      → IsServed k u method (perform_http1_tls mux chain w scheme k u method raw pool)
  unfolding perform_http1_tls served
  tls-IsServed http k u method raw pool = exchange-IsServed k u method raw pool
  tls-IsServed https k u method raw pool =
      then_do-IsServed k u method (w.secured k, pool, handshakes raw u.host ∷ [])
        (exchange mux chain w k u method) refl
        (λ stream pool'. exchange-IsServed k u method stream pool')

  pub request-IsServed :
      (k : ℕ) (u : ParsedUrl) (method : Method) (pool : Option ConnectionPool)
      → IsServed k u method (request mux chain w k u method pool)
  unfolding request
  request-IsServed k u method pool =
      then_do-IsServed k u method (open_raw mux chain w mux k u pool)
        (perform_http1_tls mux chain w u.scheme k u method) (open_raw-quiet mux k u pool)
        (tls-IsServed u.scheme k u method)
