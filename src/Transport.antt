-- ===== src/Transport.antt =====
-- drift-core/src/transport/mod.rs: the errors of a transport. The implementations of `send`, `recv`
-- and `close` are calls of WebSocket and browser APIs, and what they answer is an input of the
-- operations that call them.
use unstable_drift.Bytes.{Bytes}

pub data TransportError : Type 0 where
  closed : TransportError
  io framing handshake : (message : Bytes) → TransportError
