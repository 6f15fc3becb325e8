-- ===== src/Wasm/Connection.antt =====
-- drift-wasm/src/libcurl.rs: `ConnectionState`, the mux that the requests of a `LibCurl` share.
--
-- A mux is known by the transport it runs over, a message port by a number. The calls of JavaScript and
-- the ends of the connections that `ensure_mux` awaits are events, in any order.
pub mod Current
use unstable_drift.Prelude.{
  ℕ, zero, suc, Bool, true, false, Option, none, some, List, [], ◌∷◌, ◌++◌,
}
use unstable_drift.Bytes.{Bytes}

pub data Route : Type 0 where
  relay : (port : ℕ) → Route
  direct : (url : Bytes) → Route

pub record ConnectionState : Type 0 where
  pub wisp_url : Option Bytes
  pub moonbeam_port : Option ℕ
  pub mux : Option Route

unfoldable pub new : ConnectionState
new = record { wisp_url = none; moonbeam_port = none; mux = none }

unfoldable pub set_websocket : Bytes → ConnectionState → ConnectionState
set_websocket url st = record st { wisp_url = some url; mux = none }

-- `attach_moonbeam` gives a port, or an error that is returned.
unfoldable pub set_moonbeam_relay : Option ℕ → ConnectionState → ConnectionState
set_moonbeam_relay none st = st
set_moonbeam_relay (some port) st = record st {
  moonbeam_port = some port;
  mux = none;
  wisp_url = none;
}

unfoldable pub route_of : (moonbeam_port : Option ℕ) → (wisp_url : Option Bytes) → Option Route
route_of (some port) url = some (relay port)
route_of none (some url) = some (direct url)
route_of none none = none

-- The transport that `ensure_mux` makes.
unfoldable pub preferred : ConnectionState → Option Route
preferred st = route_of st.moonbeam_port st.wisp_url

-- The state, and the transports that are being connected.
pub record World : Type 0 where
  pub state : ConnectionState
  pub pending : List Route

pub data Event : Type 0 where
  sets_websocket : Bytes → Event
  sets_relay : Option ℕ → Event
  ensures : Event
  connects : (i : ℕ) → Bool → Event

-- The mux that a call gets, if it gets one in this step, and what is left.
unfoldable pub begin : Option Route → Option Route → World → Option Route × World
begin (some m) route w = (some m, w)
begin none none w = (none, w)
begin none (some route) w = (none, record w { pending = w.pending ++ route ∷ [] })

-- The connection number i, and the others.
unfoldable pub pick : ℕ → List Route → Option Route × List Route
pick i [] = (none, [])
pick zero (r ∷ rs) = (some r, rs)
pick (suc i) (r ∷ rs) = let (p, rest) = pick i rs in (p, r ∷ rest)

-- The end of `ensure_mux`, with its handshake.
unfoldable pub finish : Bool → Option Route × List Route → World → Option Route × World
finish connected (none, rest) w = (none, record w { pending = rest })
finish false (some route, rest) w = (none, record w { pending = rest })
finish true (some route, rest) w =
    (some route, record { state = record w.state { mux = some route }; pending = rest })

unfoldable pub step : Event → World → Option Route × World
step (sets_websocket url) w = (none, record w { state = set_websocket url w.state })
step (sets_relay port) w = (none, record w { state = set_moonbeam_relay port w.state })
step ensures w = begin w.state.mux (preferred w.state) w
step (connects i connected) w = finish connected (pick i w.pending) w
