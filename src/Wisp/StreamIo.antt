-- ===== src/Wisp/StreamIo.antt =====
-- drift-core/src/wisp/stream_io.rs: `AsyncRead` and `AsyncWrite` over a stream of the mux.
--
-- The futures that the adapter polls belong to `Mux::send_data` and to the channel; a poll's answer
-- is an argument. The calls that it makes are the sends that it begins, each with its bytes. A
-- `ReadBuf` is the number of bytes that it has room for, and what is put into it is a result.
pub mod Write
pub mod Read
use unstable_drift.Prelude.{ℕ, Bool, false, Option, none, List, [], ◌∷◌}
use unstable_drift.Bytes.{Bytes}
use unstable_drift.Wisp.Mux.{MuxError}
use unstable_drift.Wisp.Stream.{WispStream}

abbrev pub write_flush_threshold : ℕ
write_flush_threshold = 16384

pub data IoError : Type 0 where
  broken_pipe : IoError
  drift_send : MuxError → IoError

-- `Poll<io::Result<A>>`
pub data Poll (A : Type 0) : Type 0 where
  ready : A → Poll A
  failed : IoError → Poll A
  pending : Poll A

-- What the poll of an in-flight send answers.
pub data SendPoll : Type 0 where
  sent : SendPoll
  send_failed : MuxError → SendPoll
  send_pending : SendPoll

-- What the poll of an in-flight receive answers.
pub data RecvPoll : Type 0 where
  received : Bytes → RecvPoll
  disconnected : RecvPoll
  recv_pending : RecvPoll

-- `read_fut` and `write_fut` are present or not; what they will answer comes with each poll.
pub record WispStreamIo : Type 0 where
  pub stream_id : ℕ
  pub inbound_rx : ℕ
  pub read_leftover : Bytes
  pub read_fut : Bool
  pub write_fut : Bool
  pub write_buf : Bytes
  pub closed : Bool

unfoldable pub new : WispStream → WispStreamIo
new stream = record {
  stream_id = stream.id;
  inbound_rx = stream.inbound_rx;
  read_leftover = [];
  read_fut = false;
  write_fut = false;
  write_buf = [];
  closed = false;
}
