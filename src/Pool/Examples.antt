-- ===== src/Pool/Examples.antt =====
-- A pool in use.
use unstable_drift.Prelude.{◌+◌, ◌≤◌, ◌<◌, ◌≡◌, refl, some, List, [], ◌∷◌, length, arith}
use unstable_drift.Pool.{
  PooledConnection, Key, ConnectionPool, new, update, get, put, Event, gets, puts, cleans, run,
  max_per_host,
}
use unstable_drift.Pool.Counts.{given, held, stored, handed_out_once}
use unstable_drift.Pool.Bounds.{pool_bounded}
use unstable_drift.Pool.Reuse.{put-get}

abbrev site : Key
site = (b'a' ∷ b'.' ∷ b'b' ∷ [], 443)

abbrev events : List Event
events =
    puts site 1 0
    ∷ puts site 2 10
    ∷ gets site 20
    ∷ puts site 3 20
    ∷ cleans 30000000005
    ∷ gets site 30000000006
    ∷ []

abbrev left : List PooledConnection
left = record { stream = 1; expires_at = 30000000000 } ∷ []

events-run : (run events new).0 ≡ (site, 2) ∷ (site, 3) ∷ []
unfolding run unstable_drift.Pool.step unstable_drift.Pool.handed get put
    unstable_drift.Pool.or_default new update unstable_drift.Pool.same_key
    unstable_drift.Bytes.Search.same_text unstable_drift.Pool.stream_of unstable_drift.Pool.pop
    unstable_drift.Pool.retain unstable_drift.Pool.cleanup unstable_drift.Pool.cleaned
    unstable_drift.Pool.entry
events-run = refl

handed_out_once_example :
    given site 1 (run events new).0 + held site 1 (run events new).1
    ≤ held site 1 new + stored site 1 events
handed_out_once_example = handed_out_once site 1 events new

one_left : (run (puts site 1 0 ∷ []) new).1 site ≡ some left
unfolding run unstable_drift.Pool.step put unstable_drift.Pool.or_default new update
    unstable_drift.Pool.same_key unstable_drift.Bytes.Search.same_text
one_left = refl

pool_bounded_example : (0 < length left) × (length left ≤ max_per_host)
pool_bounded_example = pool_bounded (puts site 1 0 ∷ []) site left one_left

put-get_example : (get site 20 (put site 5 10 new)).0 ≡ some 5
unfolding new unstable_drift.Pool.or_default
put-get_example = put-get site 5 10 20 new (omega arith) (omega arith)
