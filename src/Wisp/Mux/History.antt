-- ===== src/Wisp/Mux/History.antt =====
-- The operations of wisp/mux.rs in sequence. Each event is one call with the answers that it gets;
-- a `send_data` that has to wait comes again as a further event.
use unstable_drift.Prelude.{ℕ, List, [], ◌∷◌, ◌++◌, Result}
use unstable_drift.Bytes.{Bytes}
use unstable_drift.Transport.{TransportError}
use unstable_drift.Wisp.Types.StreamType.{StreamType}
use unstable_drift.Wisp.Types.CloseReason.{CloseReason}
use unstable_drift.Wisp.Frame.{ExtensionEntry}
use unstable_drift.Wisp.Mux.{MuxInner, Call, Answer}
use unstable_drift.Wisp.Mux.Handshake.{run_handshake}
use unstable_drift.Wisp.Mux.Open.{open_stream}
use unstable_drift.Wisp.Mux.Traffic.{send_data, close_stream, dispatch_inbound}

pub data Event : Type 0 where
  handshakes :
      List ExtensionEntry
      → Result TransportError Bytes
      → Answer
      → Result TransportError Bytes
      → Event
  opens : Bytes → ℕ → StreamType → (tx notify : ℕ) → Answer → Event
  sends : ℕ → Bytes → Answer → Event
  closes : ℕ → CloseReason → Answer → Event
  receives : Bytes → Event

-- The state after an event, and the calls made.
unfoldable pub step : Event → MuxInner → MuxInner × List Call
step (handshakes exts first sent second) m =
    let (result, m', calls) = run_handshake exts first sent second m in (m', calls)
step (opens host port stream_type tx notify sent) m =
    let (result, m', calls) = open_stream host port stream_type tx notify sent m in (m', calls)
step (sends id payload sent) m =
    let (result, m', calls) = send_data id payload sent m in (m', calls)
step (closes id reason sent) m =
    let (result, m', calls) = close_stream id reason sent m in (m', calls)
step (receives frame) m = let (result, m', calls) = dispatch_inbound frame m in (m', calls)

unfoldable pub run : List Event → MuxInner → MuxInner × List Call
run [] m = (m, [])
run (e ∷ es) m = let (m', calls) = step e m in let (m'', more) = run es m' in (m'', calls ++ more)
