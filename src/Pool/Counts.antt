-- ===== src/Pool/Counts.antt =====
-- How often a connection of pool.rs is put in, held and handed out, over any calls.
use unstable_drift.Prelude.{
  ℕ, ◌+◌, ◌≤◌, ◌≡◌, refl, ap, sym, ◌∙◌, Bool, true, false, ◌&&◌, Option, none, some, List, [], ◌∷◌,
  ◌++◌, length, arith,
}
use unstable_drift.Prelude.{◌==◌, ==_iff, ltb, if-cases, if-both, and_true}
use unstable_drift.Bytes.Search.{same_text, same_text_lem}
use unstable_drift.Pool.{
  PooledConnection, Key, ConnectionPool, same_key, update, retain, pop, entry, stream_of, get_at,
  get, or_default, put, cleaned, cleanup, Event, gets, puts, cleans, handed, step, run,
}

pub one_if : Bool → ℕ
one_if true = 1
one_if false = 0

-- How often a stream is among connections,
pub count : ℕ → List PooledConnection → ℕ
count s [] = 0
count s (c ∷ cs) = one_if (s == c.stream) + count s cs

pub held_at : ℕ → Option (List PooledConnection) → ℕ
held_at s none = 0
held_at s (some cs) = count s cs

-- in the pool under a key,
pub held : Key → ℕ → ConnectionPool → ℕ
held k s pool = held_at s (pool k)

-- among the streams handed out for a key,
pub given : Key → ℕ → List (Key × ℕ) → ℕ
given k s [] = 0
given k s ((k', s') ∷ out) = one_if (same_key k' k && (s == s')) + given k s out

-- and among those put in under a key.
pub stored_by : Key → ℕ → Event → ℕ
stored_by k s (puts k' s' now) = one_if (same_key k' k && (s == s'))
stored_by k s (gets k' now) = 0
stored_by k s (cleans now) = 0

pub stored : Key → ℕ → List Event → ℕ
stored k s [] = 0
stored k s (e ∷ es) = stored_by k s e + stored k s es

count-append :
    (s : ℕ) (xs ys : List PooledConnection) → count s (xs ++ ys) ≡ count s xs + count s ys
unfolding count
count-append s [] ys = omega arith
count-append s (c ∷ xs) ys = let h = count-append s xs ys in omega arith

retain_fewer : (s now : ℕ) (cs : List PooledConnection) → count s (retain now cs) ≤ count s cs
unfolding count retain
retain_fewer s now [] = omega arith
retain_fewer s now (c ∷ cs) =
    let h = retain_fewer s now cs in
    if-both (λ l. count s l ≤ one_if (s == c.stream) + count s cs) (ltb now c.expires_at)
      (omega arith) (omega arith)

-- The stream that `pop` gives, counted.
last_is : ℕ → Option PooledConnection → ℕ
last_is s none = 0
last_is s (some c) = one_if (s == c.stream)

pop_splits :
    (s : ℕ) (cs : List PooledConnection) → last_is s (pop cs).0 + count s (pop cs).1 ≡ count s cs
unfolding count pop last_is
pop_splits s [] = omega arith
pop_splits s (c ∷ []) = omega arith
pop_splits s (c ∷ d ∷ cs) = let h = pop_splits s (d ∷ cs) in omega arith

held_at-entry : (s : ℕ) (cs : List PooledConnection) → held_at s (entry cs) ≡ count s cs
unfolding held_at entry count
held_at-entry s [] = refl
held_at-entry s (c ∷ cs) = refl

given-append :
    (k : Key) (s : ℕ) (xs ys : List (Key × ℕ)) → given k s (xs ++ ys) ≡ given k s xs + given k s ys
unfolding given
given-append k s [] ys = omega arith
given-append k s ((k', s') ∷ xs) ys = let h = given-append k s xs ys in omega arith

-- A call at a key: what it hands out and what is then held under `k` are at most what was held and
-- what it put in.
abbrev Balances : Key → ℕ → ConnectionPool → ℕ → List (Key × ℕ) × ConnectionPool → Type 0
Balances k s pool n r = given k s r.0 + held k s r.1 ≤ held k s pool + n

handed-given :
    (k key : Key) (s : ℕ) (o : Option PooledConnection)
    → same_key key k ≡ true
    → given k s (handed key (stream_of o)) ≡ last_is s o
unfolding given handed stream_of last_is
handed-given k key s none e = refl
handed-given k key s (some c) e = rw e (omega arith)

handed_other :
    (k key : Key) (s : ℕ) (o : Option PooledConnection)
    → same_key key k ≡ false
    → given k s (handed key (stream_of o)) ≡ 0
unfolding given handed stream_of one_if
handed_other k key s none e = refl
handed_other k key s (some c) e = rw e refl

same_key_lem : (a b : Key) → same_key a b ≡ true → a ≡ b
unfolding same_key
same_key_lem (x, p) (y, q) h =
    let (e, t) = and_true (same_text x y) (p == q) h in
    ap (λ z. (z, p)) (same_text_lem x y e) ∙ ap (λ z. (y, z)) ((==_iff p q).0 t)

-- An entry replaced under `key`.
held-update :
    (k key : Key) (s : ℕ) (e : Option (List PooledConnection)) (pool : ConnectionPool)
    (P : ℕ → Type 0)
    → (same_key key k ≡ true → P (held_at s e))
    → (same_key key k ≡ false → P (held k s pool))
    → P (held k s (update key e pool))
unfolding held update
held-update k key s e pool P h j = if-cases (λ x. P (held_at s x)) (same_key key k) h j

get_there :
    (k key : Key) (s now : ℕ) (pool : ConnectionPool) (cs : List PooledConnection)
    → pool key ≡ some cs
    → same_key key k ≡ true
    → let o = pop (retain now cs) in
      given k s (handed key (stream_of o.0)) + held_at s (entry o.1) ≤ held k s pool
unfolding held held_at
get_there k key s now pool cs e y =
    let o = pop (retain now cs) in
    let h : held_at s (pool k) ≡ count s cs =
      ap (λ i. held_at s (pool i)) (sym (same_key_lem key k y)) ∙ ap (held_at s) e in
    let q = handed-given k key s o.0 y in
    let a = held_at-entry s o.1 in
    let b = pop_splits s (retain now cs) in let c = retain_fewer s now cs in omega arith

get_at-Balances :
    (k key : Key) (s now : ℕ) (pool : ConnectionPool) (e : Option (List PooledConnection))
    → pool key ≡ e
    → let r = get_at key now e pool in given k s (handed key r.0) + held k s r.1 ≤ held k s pool
unfolding get_at given handed
get_at-Balances k key s now pool none e = omega arith
get_at-Balances k key s now pool (some cs) e =
    let o = pop (retain now cs) in
    held-update k key s (entry o.1) pool
      (λ n. given k s (handed key (stream_of o.0)) + n ≤ held k s pool)
      (get_there k key s now pool cs e) (λ n. let z = handed_other k key s o.0 n in omega arith)

held_at-or_default :
    (s : ℕ) (e : Option (List PooledConnection)) → count s (or_default e) ≡ held_at s e
unfolding held_at or_default count
held_at-or_default s none = refl
held_at-or_default s (some cs) = refl

-- What a vector of the pool becomes under its own key.
put_there :
    (k key : Key) (s : ℕ) (pool : ConnectionPool) (cs : List PooledConnection)
    → same_key key k ≡ true
    → held_at s (some (or_default (pool key) ++ cs)) ≡ held k s pool + count s cs
unfolding held held_at
put_there k key s pool cs y =
    count-append s (or_default (pool key)) cs
    ∙ ap (λ n. n + count s cs)
        (held_at-or_default s (pool key) ∙ ap (λ i. held_at s (pool i)) (same_key_lem key k y))

put-Balances :
    (k key : Key) (s stream now : ℕ) (pool : ConnectionPool)
    → held k s (put key stream now pool) ≤ held k s pool + stored_by k s (puts key stream now)
unfolding put stored_by held held_at count
put-Balances k key s stream now pool =
    let cs = or_default (pool key) in
    let c : PooledConnection = record { stream = stream; expires_at = now + 30000000000 } in
    let n = one_if (same_key key k && (s == stream)) in
    if-both (λ p. held k s p ≤ held k s pool + n) (ltb (length cs) 4)
      (held-update k key s (some (cs ++ c ∷ [])) pool (λ x. x ≤ held k s pool + n)
        (λ y. let h = put_there k key s pool (c ∷ []) y in rw y (omega arith)) (λ n. omega arith))
      (held-update k key s (some cs) pool (λ x. x ≤ held k s pool + n)
        (λ y.
          let h = held_at-or_default s (pool key) in
          let g : held_at s (pool key) ≡ held k s pool =
            ap (λ i. held_at s (pool i)) (same_key_lem key k y) in
          omega arith)
        (λ n. omega arith))

cleaned_fewer :
    (s now : ℕ) (e : Option (List PooledConnection)) → held_at s (cleaned now e) ≤ held_at s e
unfolding held_at cleaned
cleaned_fewer s now none = omega arith
cleaned_fewer s now (some cs) =
    let a = held_at-entry s (retain now cs) in let c = retain_fewer s now cs in omega arith

-- A call hands out and leaves under a key at most what was there and what it put in.
step-Balances :
    (k : Key) (s : ℕ) (e : Event) (pool : ConnectionPool)
    → let r = step e pool in given k s r.0 + held k s r.1 ≤ held k s pool + stored_by k s e
unfolding step get stored_by
step-Balances k s (gets key now) pool =
    let h = get_at-Balances k key s now pool (pool key) refl in omega arith
step-Balances k s (puts key stream now) pool =
    unfold given in let h = put-Balances k key s stream now pool in omega arith
step-Balances k s (cleans now) pool =
    unfold given held cleanup in let h = cleaned_fewer s now (pool k) in omega arith

-- In any sequence of calls, a connection is handed out for a host and port, and still held for them
-- at the end, at most as often in all as it was held at the start and put in for just that host and
-- port: none is handed out twice for one `put`, or to another host.
pub handed_out_once :
    (k : Key) (s : ℕ) (es : List Event) (pool : ConnectionPool)
    → let (out, pool') = run es pool in
      given k s out + held k s pool' ≤ held k s pool + stored k s es
unfolding run given stored
handed_out_once k s [] pool = omega arith
handed_out_once k s (e ∷ es) pool =
    let r = step e pool in
    let rest = run es r.1 in
    let a = step-Balances k s e pool in
    let b = handed_out_once k s es r.1 in let c = given-append k s r.0 rest.0 in omega arith
