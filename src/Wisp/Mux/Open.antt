-- ===== src/Wisp/Mux/Open.antt =====
-- `Mux::open` of wisp/mux.rs.
use unstable_drift.Prelude.{ℕ, ◌+◌, [], ◌∷◌, Bool, not}
use unstable_drift.Prelude.{Result, ok, err, ltb, ◌==◌, if◌then◌else◌}
use unstable_drift.Bytes.{Bytes, u32_max}
use unstable_drift.Assoc.{insert}
use unstable_drift.Wisp.Types.{handshake_stream_id}
use unstable_drift.Wisp.Types.PacketType.{connect}
use unstable_drift.Wisp.Types.StreamType.{StreamType, tcp, udp}
use unstable_drift.Wisp.Frame.{encode_packet_to_vec, encode_connect}
use unstable_drift.Wisp.Mux.{
  open_before_handshake, MuxError, transport, stream_id_exhausted, StreamState, StreamHandle,
  HandshakeState, pending, established, closed, MuxInner, transmit, Outcome, Answer,
}

unfoldable pub is_established : HandshakeState → Bool
is_established pending = Bool.false
is_established established = Bool.true
is_established closed = Bool.false

-- The first locked block of `open`: allocate an id. The assignments made before an early return
-- stay made.
unfoldable pub reserve : MuxInner → Result MuxError (ℕ × ℕ) × MuxInner
unfolding is_established
reserve m =
    if not (is_established m.handshake)
    then (err (MuxError.handshake open_before_handshake), m)
    else let id = if m.next_stream_id == 0 then 1 else m.next_stream_id in
      if ltb u32_max (id + 1)
      then (err stream_id_exhausted, record m { next_stream_id = id })
      else let next = if id + 1 == handshake_stream_id then 1 else id + 1 in
        (ok (id, m.initial_credit), record m { next_stream_id = next })

unfoldable pub opening_credit : StreamType → ℕ → ℕ
opening_credit tcp initial_credit = initial_credit
opening_credit udp initial_credit = u32_max

-- The second locked block of `open`.
unfoldable pub register : ℕ → StreamState → MuxInner → MuxInner
register id st m = record m { streams = insert id st m.streams }

unfoldable pub connect_packet : ℕ → StreamType → ℕ → Bytes → Bytes
connect_packet id stream_type port host =
    encode_packet_to_vec connect id (encode_connect stream_type port host)

-- `open` after its first block: the second block, then CONNECT.
unfoldable pub open_reserved :
    (host : Bytes) (port : ℕ)
    → StreamType
    → (tx notify : ℕ) → Answer
    → Result MuxError (ℕ × ℕ) × MuxInner
    → Outcome StreamHandle
open_reserved host port stream_type tx notify sent (err e, m) = (err e, m, [])
open_reserved host port stream_type tx notify sent (ok (id, initial_credit), m) =
    let st : StreamState = record {
      stream_type = stream_type;
      credit = opening_credit stream_type initial_credit;
      inbound_tx = tx;
      credit_notify = notify;
    } in
    let m' = register id st m in
    let packet = connect_packet id stream_type port host in
    elim sent [
      | err e ↦ (err (transport e), m', transmit packet ∷ [])
      | ok _ ↦ (
        ok (record { id = id; stream_type = stream_type; inbound_rx = tx; credit_notify = notify }),
        m',
        transmit packet ∷ [],
      )
    ]

-- `tx` and `notify` are the channel and the `Notify` that `open` makes; the receiving end has the
-- reference of its channel.
unfoldable pub open_stream :
    (host : Bytes) (port : ℕ)
    → StreamType
    → (tx notify : ℕ) → Answer
    → MuxInner
    → Outcome StreamHandle
unfolding open_reserved
open_stream host port stream_type tx notify sent m =
    open_reserved host port stream_type tx notify sent (reserve m)
