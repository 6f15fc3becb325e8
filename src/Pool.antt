-- ===== src/Pool.antt =====
-- drift-core/src/pool.rs: the pool of idle connections.
--
-- A stream is a number, an `Instant` its nanoseconds, and `now` is what the clock says in the call.
-- The map is a function, whose keys are a host and a port.
pub mod Counts
pub mod Bounds
pub mod Reuse
mod Examples
use unstable_drift.Prelude.{
  ℕ, ◌+◌, Bool, true, false, ◌&&◌, Option, none, some, List, [], ◌∷◌, ◌++◌, length,
}
use unstable_drift.Prelude.{◌==◌, ltb, if◌then◌else◌}
use unstable_drift.Bytes.{Bytes}
use unstable_drift.Bytes.Search.{same_text}

abbrev pub max_per_host : ℕ
max_per_host = 4

-- `Duration::from_secs(IDLE_TIMEOUT_SECS)`
abbrev pub idle_timeout : ℕ
idle_timeout = 30000000000

pub record PooledConnection : Type 0 where
  pub stream : ℕ
  pub expires_at : ℕ

abbrev pub Key : Type 0
Key = Bytes × ℕ

abbrev pub ConnectionPool : Type 0
ConnectionPool = Key → Option (List PooledConnection)

unfoldable pub same_key : Key → Key → Bool
same_key (host, port) (host', port') = same_text host host' && (port == port')

unfoldable pub update : Key → Option (List PooledConnection) → ConnectionPool → ConnectionPool
update key entry pool k = if same_key key k then entry else pool k

unfoldable pub new : ConnectionPool
new k = none

-- `retain(|c| c.expires_at > now)`
unfoldable pub retain : (now : ℕ) → List PooledConnection → List PooledConnection
retain now [] = []
retain now (c ∷ cs) = let kept = retain now cs in if ltb now c.expires_at then c ∷ kept else kept

-- `pop`, and the connections left.
unfoldable pub pop : List PooledConnection → Option PooledConnection × List PooledConnection
pop [] = (none, [])
pop (c ∷ []) = (some c, [])
pop (c ∷ d ∷ cs) = let (last, rest) = pop (d ∷ cs) in (last, c ∷ rest)

-- A vector with no connection is taken out of the map.
unfoldable pub entry : List PooledConnection → Option (List PooledConnection)
entry [] = none
entry (c ∷ cs) = some (c ∷ cs)

unfoldable pub stream_of : Option PooledConnection → Option ℕ
stream_of none = none
stream_of (some c) = some c.stream

unfoldable pub get_at :
    Key → (now : ℕ) → Option (List PooledConnection) → ConnectionPool → Option ℕ × ConnectionPool
get_at key now none pool = (none, pool)
get_at key now (some connections) pool =
    let (c, rest) = pop (retain now connections) in (stream_of c, update key (entry rest) pool)

unfoldable pub get : Key → (now : ℕ) → ConnectionPool → Option ℕ × ConnectionPool
unfolding get_at
get key now pool = get_at key now (pool key) pool

-- `entry(key).or_default()`
unfoldable pub or_default : Option (List PooledConnection) → List PooledConnection
or_default none = []
or_default (some cs) = cs

unfoldable pub put : Key → (stream now : ℕ) → ConnectionPool → ConnectionPool
put key stream now pool =
    let connections = or_default (pool key) in
    let c : PooledConnection = record { stream = stream; expires_at = now + idle_timeout } in
    if ltb (length connections) max_per_host
    then update key (some (connections ++ c ∷ [])) pool
    else update key (some connections) pool

unfoldable pub cleaned : (now : ℕ) → Option (List PooledConnection) → Option (List PooledConnection)
cleaned now none = none
cleaned now (some cs) = entry (retain now cs)

unfoldable pub cleanup : (now : ℕ) → ConnectionPool → ConnectionPool
cleanup now pool k = cleaned now (pool k)

-- What the tasks do with a pool.
pub data Event : Type 0 where
  gets : Key → (now : ℕ) → Event
  puts : Key → (stream now : ℕ) → Event
  cleans : (now : ℕ) → Event

-- What a `get` hands out, with its key.
unfoldable pub handed : Key → Option ℕ → List (Key × ℕ)
handed key none = []
handed key (some stream) = (key, stream) ∷ []

-- The pool after a call, and what it hands out.
unfoldable pub step : Event → ConnectionPool → List (Key × ℕ) × ConnectionPool
step (gets key now) pool = let (stream, pool') = get key now pool in (handed key stream, pool')
step (puts key stream now) pool = ([], put key stream now pool)
step (cleans now) pool = ([], cleanup now pool)

unfoldable pub run : List Event → ConnectionPool → List (Key × ℕ) × ConnectionPool
run [] pool = ([], pool)
run (e ∷ es) pool =
    let (out, pool') = step e pool in let (more, pool'') = run es pool' in (out ++ more, pool'')
