-- ===== src/Wisp/Mux/Handshake.antt =====
-- `Mux::run_handshake` of wisp/mux.rs.
use unstable_drift.Prelude.{ℕ, List, [], ◌∷◌, not, ◌||◌}
use unstable_drift.Prelude.{Result, ok, err, map_err, ◌>>=◌, ◌==◌, if◌then◌else◌}
use unstable_drift.Bytes.{Bytes}
use unstable_drift.Transport.{TransportError}
use unstable_drift.Wisp.Types.{handshake_stream_id}
use unstable_drift.Wisp.Types.PacketType
use unstable_drift.Wisp.Types.PacketType.{PacketType, connect, data_packet, continue, close, info}
use unstable_drift.Wisp.Frame.{
  ExtensionEntry, DecodedPacket, encode_packet_to_vec, encode_info, decode_packet, decode_continue,
  decode_info,
}
use unstable_drift.Wisp.Mux.{
  expected_stream_zero, expected_info_or_continue, expected_continue, MuxError, transport, decode,
  established, MuxInner, transmit, Outcome, Answer,
}

-- `run_handshake`. What the first frame asks for: version 1 with its credit, or version 2.
pub data Greeting : Type 0 where
  v1 : (initial_credit : ℕ) → Greeting
  v2 : Greeting

unfoldable pub receive : Result TransportError Bytes → Result MuxError DecodedPacket
receive answer = do frame ← map_err transport answer; map_err decode (decode_packet frame)

unfoldable pub greeting : Result TransportError Bytes → Result MuxError Greeting
unfolding receive
greeting answer = do
  pkt ← receive answer
  if not (pkt.stream_id == handshake_stream_id)
      then err (MuxError.handshake (expected_stream_zero pkt.stream_id))
      else if PacketType.same pkt.packet_type continue
      then (do
        initial_credit ← map_err decode (decode_continue pkt.payload)
        ok (v1 initial_credit))
      else if not (PacketType.same pkt.packet_type info)
      then err (MuxError.handshake (expected_info_or_continue pkt.packet_type))
      else do server_info ← map_err decode (decode_info pkt.payload); ok v2

unfoldable pub server_credit : Result TransportError Bytes → Result MuxError ℕ
unfolding receive
server_credit answer = do
  pkt ← receive answer
  if not (PacketType.same pkt.packet_type continue) || not (pkt.stream_id == handshake_stream_id)
      then err (MuxError.handshake (expected_continue pkt.packet_type pkt.stream_id))
      else map_err decode (decode_continue pkt.payload)

unfoldable pub client_info : List ExtensionEntry → Bytes
client_info extensions = encode_packet_to_vec info handshake_stream_id (encode_info extensions)

unfoldable pub establish : ℕ → MuxInner → MuxInner
establish credit m = record m { handshake = established; initial_credit = credit }

-- `first` and `second` are what the two calls of `recv` answer, `sent` what the call of `send` does.
unfoldable pub run_handshake :
    List ExtensionEntry
    → (first : Result TransportError Bytes) (sent : Answer) (second : Result TransportError Bytes)
    → MuxInner
    → Outcome (Unit {0})
unfolding establish
run_handshake extensions first sent second m =
    let packet = client_info extensions in
    elim (greeting first) [
      | err e ↦ (err e, m, [])
      | ok (v1 credit) ↦ (ok tt, establish credit m, [])
      | ok v2 ↦ elim sent [
        | err e ↦ (err (transport e), m, transmit packet ∷ [])
        | ok _ ↦ elim (server_credit second) [
          | err e ↦ (err e, m, transmit packet ∷ [])
          | ok credit ↦ (ok tt, establish credit m, transmit packet ∷ [])
        ]
      ]
    ]
