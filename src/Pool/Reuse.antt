-- ===== src/Pool/Reuse.antt =====
-- pool.rs: a `get` after a `put`, and a `get` after the connections have expired.
use unstable_drift.Prelude.{
  ℕ, ◌+◌, ◌≤◌, ◌<◌, ◌≡◌, refl, ap, Bool, true, false, Option, none, some, List, [], ◌∷◌, ◌++◌,
  length, All,
}
use unstable_drift.Prelude.{==-self, ltb, lt→ltb, le→ltb, if◌then◌else◌}
use unstable_drift.Bytes.Search.{same_text_self}
use unstable_drift.Pool.{
  PooledConnection, Key, ConnectionPool, same_key, update, retain, pop, entry, stream_of, get_at,
  get, or_default, put, max_per_host, idle_timeout,
}

pop-append : (cs : List PooledConnection) (c : PooledConnection) → pop (cs ++ c ∷ []) ≡ (some c, cs)
unfolding pop
pop-append [] c = refl
pop-append (d ∷ []) c = refl
pop-append (d ∷ e ∷ cs) c = ap (λ r. (r.0, d ∷ r.1)) (pop-append (e ∷ cs) c)

retain-append :
    (now : ℕ) (cs : List PooledConnection) (c : PooledConnection)
    → now < c.expires_at
    → retain now (cs ++ c ∷ []) ≡ retain now cs ++ c ∷ []
unfolding retain
retain-append now [] c h = rw (lt→ltb now c.expires_at h) refl
retain-append now (d ∷ cs) c h = rw (retain-append now cs c h) (kept (ltb now d.expires_at))
  where
    kept :
        (b : Bool)
        → (if b then d ∷ (retain now cs ++ c ∷ []) else retain now cs ++ c ∷ [])
          ≡ (if b then d ∷ retain now cs else retain now cs) ++ c ∷ []
    kept true = refl
    kept false = refl

same_key_self : (k : Key) → same_key k k ≡ true
unfolding same_key
same_key_self (host, port) = rw (same_text_self host, ==-self port) refl

-- A host and port with fewer than four connections: a `get` for them within 30 seconds of a `put`,
-- with no other call between, hands out the connection that was put in, whatever else is there.
pub put-get :
    (key : Key) (stream now now' : ℕ) (pool : ConnectionPool)
    → length (or_default (pool key)) < max_per_host
    → now' < now + idle_timeout
    → (get key now' (put key stream now pool)).0 ≡ some stream
unfolding put get get_at update stream_of
put-get key stream now now' pool room fresh =
    let cs = or_default (pool key) in
    let c : PooledConnection = record { stream = stream; expires_at = now + 30000000000 } in
    rw
      (
        lt→ltb (length cs) 4 room,
        same_key_self key,
        retain-append now' cs c fresh,
        pop-append (retain now' cs) c,
      )
      refl

retain_expired :
    (now : ℕ) (cs : List PooledConnection) → All (λ c. c.expires_at ≤ now) cs → retain now cs ≡ []
unfolding retain
retain_expired now [] h = refl
retain_expired now (c ∷ cs) h = rw (le→ltb now c.expires_at h.0, retain_expired now cs h.1) refl

get_at_expired :
    (key : Key) (now : ℕ) (pool : ConnectionPool) (e : Option (List PooledConnection))
    → pool key ≡ e
    → All (λ c. c.expires_at ≤ now) (or_default e)
    → ((get_at key now e pool).0 ≡ none) × ((get_at key now e pool).1 key ≡ none)
unfolding get_at or_default update pop entry stream_of
get_at_expired key now pool none e h = (refl, e)
get_at_expired key now pool (some cs) e h =
    rw (retain_expired now cs h, same_key_self key) (refl, refl)

-- Once the clock has reached the time at which every connection of a host and port expires, `get`
-- hands out none of them and forgets them all.
pub get_expired :
    (key : Key) (now : ℕ) (pool : ConnectionPool)
    → All (λ c. c.expires_at ≤ now) (or_default (pool key))
    → ((get key now pool).0 ≡ none) × ((get key now pool).1 key ≡ none)
unfolding get
get_expired key now pool h = get_at_expired key now pool (pool key) refl h
