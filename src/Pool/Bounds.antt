-- ===== src/Pool/Bounds.antt =====
-- The limit of the pool of pool.rs, over any calls.
use unstable_drift.Prelude.{
  ℕ, ◌+◌, ◌≤◌, ◌<◌, ◌≡◌, subst, Bool, true, false, Option, none, some, List, [], ◌∷◌, ◌++◌, length,
  length-append, arith,
}
use unstable_drift.Prelude.{ltb, ltb→lt, if◌then◌else◌, if-cases, if-both}
use unstable_drift.Pool.{
  PooledConnection, Key, ConnectionPool, same_key, update, new, retain, pop, entry, get_at, get,
  or_default, put, cleaned, cleanup, Event, gets, puts, cleans, step, run, max_per_host,
}

-- A host's connections: some, and at most four.
IsBounded : Option (List PooledConnection) → Type 0
IsBounded none = Unit
IsBounded (some cs) = (0 < length cs) × (length cs ≤ max_per_host)

pub IsValid : ConnectionPool → Type 0
IsValid pool = (k : Key) → IsBounded (pool k)

at : (pool : ConnectionPool) (k : Key) → IsValid pool → IsBounded (pool k)
unfolding IsValid
at pool k v = v k

shorter :
    (c : PooledConnection) (cs : List PooledConnection) (n : ℕ) (b : Bool)
    → 1 + length cs ≤ n
    → length cs ≤ n
    → length (if b then c ∷ cs else cs) ≤ n
shorter c cs n true h k = omega arith
shorter c cs n false h k = k

retain-length : (now : ℕ) (cs : List PooledConnection) → length (retain now cs) ≤ length cs
unfolding retain
retain-length now [] = omega arith
retain-length now (c ∷ cs) =
    let h = retain-length now cs in
    shorter c (retain now cs) (length (c ∷ cs)) (ltb now c.expires_at) (omega arith) (omega arith)

pop-length : (cs : List PooledConnection) → length (pop cs).1 ≤ length cs
unfolding pop
pop-length [] = omega arith
pop-length (c ∷ []) = omega arith
pop-length (c ∷ d ∷ cs) = let h = pop-length (d ∷ cs) in omega arith

entry-IsBounded : (cs : List PooledConnection) → length cs ≤ max_per_host → IsBounded (entry cs)
unfolding IsBounded entry
entry-IsBounded [] h = tt
entry-IsBounded (c ∷ cs) h = (omega arith, h)

update-IsValid :
    (key : Key) (e : Option (List PooledConnection)) (pool : ConnectionPool)
    → IsValid pool
    → IsBounded e
    → IsValid (update key e pool)
unfolding IsValid update
update-IsValid key e pool v b k = if-both IsBounded (same_key key k) b (v k)

get_at-IsValid :
    (key : Key) (now : ℕ) (e : Option (List PooledConnection)) (pool : ConnectionPool)
    → IsValid pool
    → IsBounded e
    → IsValid (get_at key now e pool).1
unfolding get_at IsBounded
get_at-IsValid key now none pool v b = v
get_at-IsValid key now (some cs) pool v b =
    let p = pop-length (retain now cs) in
    let r = retain-length now cs in
    update-IsValid key (entry (pop (retain now cs)).1) pool v
      (entry-IsBounded (pop (retain now cs)).1 (omega (arith, b.1)))

push-IsBounded :
    (cs : List PooledConnection) (c : PooledConnection)
    → length cs < 4
    → IsBounded (some (cs ++ c ∷ []))
unfolding IsBounded
push-IsBounded cs c h = let e = length-append cs (c ∷ []) in (omega arith, omega arith)

full-IsBounded :
    (e : Option (List PooledConnection))
    → IsBounded e
    → ltb (length (or_default e)) 4 ≡ false
    → IsBounded (some (or_default e))
unfolding IsBounded or_default
full-IsBounded none b h = ground arith
full-IsBounded (some cs) b h = b

put-IsValid :
    (key : Key) (stream now : ℕ) (pool : ConnectionPool)
    → IsValid pool
    → IsValid (put key stream now pool)
unfolding put
put-IsValid key stream now pool v =
    let cs = or_default (pool key) in
    let c : PooledConnection = record { stream = stream; expires_at = now + 30000000000 } in
    if-cases IsValid (ltb (length cs) 4)
      (λ e.
        update-IsValid key (some (cs ++ c ∷ [])) pool v
          (push-IsBounded cs c (ltb→lt (length cs) 4 e)))
      (λ e. update-IsValid key (some cs) pool v (full-IsBounded (pool key) (at pool key v) e))

cleaned-IsBounded :
    (now : ℕ) (e : Option (List PooledConnection)) → IsBounded e → IsBounded (cleaned now e)
unfolding IsBounded cleaned
cleaned-IsBounded now none b = tt
cleaned-IsBounded now (some cs) b =
    let r = retain-length now cs in entry-IsBounded (retain now cs) (omega (arith, b.1))

cleanup-IsValid : (now : ℕ) (pool : ConnectionPool) → IsValid pool → IsValid (cleanup now pool)
unfolding IsValid cleanup
cleanup-IsValid now pool v k = cleaned-IsBounded now (pool k) (v k)

step-IsValid : (e : Event) (pool : ConnectionPool) → IsValid pool → IsValid (step e pool).1
unfolding step get
step-IsValid (gets key now) pool v = get_at-IsValid key now (pool key) pool v (at pool key v)
step-IsValid (puts key stream now) pool v = put-IsValid key stream now pool v
step-IsValid (cleans now) pool v = cleanup-IsValid now pool v

run-Valid : (es : List Event) (pool : ConnectionPool) → IsValid pool → IsValid (run es pool).1
unfolding run
run-Valid [] pool v = v
run-Valid (e ∷ es) pool v = run-Valid es (step e pool).1 (step-IsValid e pool v)

new-IsValid : IsValid new
unfolding IsValid new IsBounded
new-IsValid k = tt

-- After any calls on a new pool, a host and port that the pool knows has at least one connection and
-- at most four.
pub pool_bounded :
    (es : List Event) (k : Key) (cs : List PooledConnection)
    → (run es new).1 k ≡ some cs
    → (0 < length cs) × (length cs ≤ max_per_host)
unfolding IsBounded
pool_bounded es k cs e = subst IsBounded e (at (run es new).1 k (run-Valid es new new-IsValid))
