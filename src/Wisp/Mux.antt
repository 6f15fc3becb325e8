-- ===== src/Wisp/Mux.antt =====
-- drift-core/src/wisp/mux.rs: the connection's state machine.
--
-- `MuxInner` is what the mutex guards. An operation takes it and gives it back, with its result and
-- the calls that it makes of objects which this file does not implement: the transport, the channel
-- behind `inbound_tx` and the `Notify` behind `credit_notify`. Those objects are shared, so they
-- stand in the state by reference (a number), and what a call of the transport answers is an
-- argument.
pub mod Handshake
pub mod Open
pub mod Traffic
pub mod History
pub mod Cases
pub mod Inv
pub mod Ledger
pub mod Established
pub mod Allocation
pub mod Delivery
pub mod Wakeup
use unstable_drift.Prelude.{ℕ, ◌+◌, ◌-◌, List, [], ◌∷◌, none, some, Bool, not, ◌||◌}
use unstable_drift.Prelude.{Result, ok, err, map_err, ◌>>=◌, ltb, ◌==◌, if◌then◌else◌}
use unstable_drift.Bytes.{Bytes, u32_max}
use unstable_drift.Assoc.{get, insert, remove}
use unstable_drift.Transport.{TransportError}
use unstable_drift.Wisp.Types.{handshake_stream_id}
use unstable_drift.Wisp.Types.PacketType
use unstable_drift.Wisp.Types.PacketType.{PacketType, connect, data_packet, continue, close, info}
use unstable_drift.Wisp.Types.StreamType.{StreamType, tcp, udp}
use unstable_drift.Wisp.Types.CloseReason.{CloseReason}
use unstable_drift.Wisp.Frame.{
  ExtensionEntry, DecodeError, DecodedPacket, encode_packet_to_vec, encode_connect, encode_close,
  encode_info, decode_packet, decode_packet_owned, decode_continue, decode_info,
}

-- The messages of `MuxError::Handshake`, by the `format!` that makes each.
pub data HandshakeFault : Type 0 where
  expected_stream_zero : (stream_id : ℕ) → HandshakeFault
  expected_info_or_continue : PacketType → HandshakeFault
  expected_continue : PacketType → (stream_id : ℕ) → HandshakeFault
  open_before_handshake : HandshakeFault

pub data MuxError : Type 0 where
  transport : TransportError → MuxError
  decode : DecodeError → MuxError
  handshake : HandshakeFault → MuxError
  stream_closed : ℕ → CloseReason → MuxError
  unknown_stream : ℕ → MuxError
  stream_id_exhausted : MuxError

pub record StreamState : Type 0 where
  pub stream_type : StreamType
  pub credit : ℕ
  pub inbound_tx : ℕ
  pub credit_notify : ℕ

pub record StreamHandle : Type 0 where
  pub id : ℕ
  pub stream_type : StreamType
  pub inbound_rx : ℕ
  pub credit_notify : ℕ

pub data HandshakeState : Type 0 where
  pending established closed : HandshakeState

pub record MuxInner : Type 0 where
  pub handshake : HandshakeState
  pub next_stream_id : ℕ
  pub streams : List (ℕ × StreamState)
  pub initial_credit : ℕ

pub data Call : Type 0 where
  transmit : Bytes → Call
  deliver : (tx : ℕ) → Bytes → Call
  notify_waiters : ℕ → Call

-- The result of an operation, the state after it and the calls that it made, in order.
abbrev pub Outcome : Type 0 → Type 0
Outcome A = Result MuxError A × MuxInner × List Call

abbrev pub Answer : Type 0
Answer = Result TransportError (Unit {0})

unfoldable pub new : MuxInner
new = record { handshake = pending; next_stream_id = 1; streams = []; initial_credit = 0 }
