-- ===== src/Wisp/Stream.antt =====
-- drift-core/src/wisp/stream.rs: a stream's handle over the mux.
use unstable_drift.Prelude.{ℕ, Bool, false, List, [], ok, err, if◌then◌else◌}
use unstable_drift.Bytes.{Bytes}
use unstable_drift.Wisp.Types.StreamType.{StreamType}
use unstable_drift.Wisp.Types.CloseReason.{CloseReason}
use unstable_drift.Wisp.Mux.{StreamHandle, MuxInner, Call, Answer, Outcome, unknown_stream}
use unstable_drift.Wisp.Mux.Traffic.{Progress, done, send_data, close_stream}

-- The `Arc<Mux>` of the source is the state that each operation takes and gives back.
pub record WispStream : Type 0 where
  pub id : ℕ
  pub stream_type : StreamType
  pub inbound_rx : ℕ
  pub closed : Bool

pub from_handle : StreamHandle → WispStream
from_handle handle = record {
  id = handle.id;
  stream_type = handle.stream_type;
  inbound_rx = handle.inbound_rx;
  closed = false;
}

unfoldable pub send : WispStream → Bytes → Answer → MuxInner → Progress × MuxInner × List Call
send s payload sent m =
    if s.closed then (done (err (unknown_stream s.id)), m, []) else send_data s.id payload sent m

-- `close` consumes the stream.
unfoldable pub close : WispStream → CloseReason → Answer → MuxInner → Outcome (Unit {0})
close s reason sent m = if s.closed then (ok tt, m, []) else close_stream s.id reason sent m
