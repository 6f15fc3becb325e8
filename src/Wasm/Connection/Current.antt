-- ===== src/Wasm/Connection/Current.antt =====
-- libcurl.rs, `ConnectionState`: which mux a call gets.
use unstable_drift.Prelude.{
  ℕ, zero, suc, ◌≡◌, refl, ◌∙◌, Bool, true, false, Option, none, some, List, [], ◌∷◌, All,
  All-append, arith,
}
use unstable_drift.Bytes.{Bytes}
use unstable_drift.Wasm.Connection.{
  Route, new, set_websocket, set_moonbeam_relay, preferred, World, Event, sets_websocket,
  sets_relay, ensures, connects, begin, pick, finish, step,
}

-- The mux runs over the transport that the settings ask for, and so will those being connected.
pub record IsCurrent (w : World) : Type 0 where
  pub shared : (r : Route) → w.state.mux ≡ some r → preferred w.state ≡ some r
  pub awaited : All (λ r. preferred w.state ≡ some r) w.pending

-- The settings are touched only while nothing is being connected.
pub data IsOrderly : List Event → World → Type 0 where
  over : {w : World} → IsOrderly [] w
  names_server :
      {url : Bytes} {es : List Event} {w : World}
      → w.pending ≡ []
      → IsOrderly es (step (sets_websocket url) w).1
      → IsOrderly (sets_websocket url ∷ es) w
  names_relay :
      {port : Option ℕ} {es : List Event} {w : World}
      → w.pending ≡ []
      → IsOrderly es (step (sets_relay port) w).1
      → IsOrderly (sets_relay port ∷ es) w
  calls :
      {es : List Event} {w : World} → IsOrderly es (step ensures w).1 → IsOrderly (ensures ∷ es) w
  ends :
      {i : ℕ} {connected : Bool} {es : List Event} {w : World}
      → IsOrderly es (step (connects i connected) w).1
      → IsOrderly (connects i connected ∷ es) w

-- In each step of a history, the mux that is handed out is the one the settings then ask for.
unfoldable pub AlwaysCurrent : List Event → World → Type 0
AlwaysCurrent [] w = Unit
AlwaysCurrent (e ∷ es) w =
    ((r : Route) → (step e w).0 ≡ some r → preferred (step e w).1.state ≡ some r)
    × AlwaysCurrent es (step e w).1

-- What a step keeps and hands out.
Kept : Option Route × World → Type 0
Kept (handed, w) = ((r : Route) → handed ≡ some r → preferred w.state ≡ some r) × IsCurrent w

begin-Kept :
    (w : World) (m route : Option Route)
    → w.state.mux ≡ m
    → preferred w.state ≡ route
    → IsCurrent w
    → Kept (begin m route w)
unfolding begin Kept
begin-Kept w (some m) route e p c = (λ r q. c.shared r (e ∙ q), c)
begin-Kept w none none e p c = (λ r q. ground arith, c)
begin-Kept w none (some route) e p c = (
  λ r q. ground arith,
  record {
    shared = c.shared;
    awaited = All-append (λ r. preferred w.state ≡ some r) w.pending (route ∷ []) c.awaited (p, tt);
  },
)

-- What is picked was there.
Picked : (Route → Type 0) → Option Route × List Route → Type 0
Picked P (none, rest) = All P rest
Picked P (some r, rest) = P r × All P rest

pick-Picked : (P : Route → Type 0) (i : ℕ) (rs : List Route) → All P rs → Picked P (pick i rs)
unfolding pick Picked
pick-Picked P i [] h = tt
pick-Picked P zero (r ∷ rs) h = h
pick-Picked P (suc i) (r ∷ rs) (p, h) = more (pick i rs) (pick-Picked P i rs h)
  where
    more : (x : Option Route × List Route) → Picked P x → Picked P (x.0, r ∷ x.1)
    more (none, rest) h = (p, h)
    more (some s, rest) (q, h) = (q, (p, h))

finish-Kept :
    (w : World) (connected : Bool) (x : Option Route × List Route)
    → IsCurrent w
    → Picked (λ r. preferred w.state ≡ some r) x
    → Kept (finish connected x w)
unfolding finish Kept Picked preferred
finish-Kept w true (none, rest) c h =
    (λ r q. ground arith, record { shared = c.shared; awaited = h })
finish-Kept w false (none, rest) c h =
    (λ r q. ground arith, record { shared = c.shared; awaited = h })
finish-Kept w false (some r, rest) c h =
    (λ r q. ground arith, record { shared = c.shared; awaited = h.1 })
finish-Kept w true (some r, rest) c h =
    (λ s q. h.0 ∙ q, record { shared = λ s q. h.0 ∙ q; awaited = h.1 })

none_awaited : (P : Route → Type 0) (rs : List Route) → rs ≡ [] → All P rs
none_awaited P [] e = tt
none_awaited P (r ∷ rs) e = ground arith

-- Settings that are changed while nothing is awaited.
set_websocket-Kept : (url : Bytes) (w : World) → w.pending ≡ [] → Kept (step (sets_websocket url) w)
unfolding step Kept set_websocket
set_websocket-Kept url w e = (
  λ r q. ground arith,
  record { shared = λ r q. ground arith; awaited = none_awaited _ w.pending e },
)

set_relay-Kept :
    (port : Option ℕ) (w : World) → w.pending ≡ [] → IsCurrent w → Kept (step (sets_relay port) w)
unfolding step Kept set_moonbeam_relay
set_relay-Kept none w e c = (λ r q. ground arith, record { shared = c.shared; awaited = c.awaited })
set_relay-Kept (some port) w e c = (
  λ r q. ground arith,
  record { shared = λ r q. ground arith; awaited = none_awaited _ w.pending e },
)

calls-Kept : (w : World) → IsCurrent w → Kept (step ensures w)
unfolding step
calls-Kept w c = begin-Kept w w.state.mux (preferred w.state) refl refl c

ends-Kept :
    (i : ℕ) (connected : Bool) (w : World) → IsCurrent w → Kept (step (connects i connected) w)
unfolding step
ends-Kept i connected w c =
    finish-Kept w connected (pick i w.pending) c (pick-Picked _ i w.pending c.awaited)

-- One step behind which the rest of the history is orderly.
further :
    (e : Event) (es : List Event) (w : World)
    → Kept (step e w)
    → (IsCurrent (step e w).1 → AlwaysCurrent es (step e w).1)
    → AlwaysCurrent (e ∷ es) w
unfolding Kept AlwaysCurrent
further e es w k h = (k.0, h k.1)

always : (es : List Event) (w : World) → IsOrderly es w → IsCurrent w → AlwaysCurrent es w
unfolding AlwaysCurrent
always [] w over c = tt
always (sets_websocket url ∷ es) w (names_server e o) c =
    further _ es w (set_websocket-Kept url w e) (always es (step (sets_websocket url) w).1 o)
always (sets_relay port ∷ es) w (names_relay e o) c =
    further _ es w (set_relay-Kept port w e c) (always es (step (sets_relay port) w).1 o)
always (ensures ∷ es) w (calls o) c =
    further _ es w (calls-Kept w c) (always es (step ensures w).1 o)
always (connects i connected ∷ es) w (ends o) c =
    further _ es w (ends-Kept i connected w c) (always es (step (connects i connected) w).1 o)

abbrev pub start : World
start = record { state = new; pending = [] }

start-IsCurrent : IsCurrent start
unfolding new
start-IsCurrent = record { shared = λ r q. ground arith; awaited = tt }

-- In any history of a `LibCurl` in which the server and the relay are set only while no connection is
-- awaited: each mux that a call gets runs over the transport that the settings ask for when it gets it.
pub handed_out_current : (es : List Event) → IsOrderly es start → AlwaysCurrent es start
handed_out_current es o = always es start o start-IsCurrent
