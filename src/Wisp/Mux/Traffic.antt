-- ===== src/Wisp/Mux/Traffic.antt =====
-- `Mux::send_data`, `close_stream` and `dispatch_inbound` of wisp/mux.rs.
use unstable_drift.Prelude.{ℕ, ◌-◌, List, [], ◌∷◌, none, some}
use unstable_drift.Prelude.{Result, ok, err, ltb, ◌==◌, if◌then◌else◌}
use unstable_drift.Bytes.{Bytes}
use unstable_drift.Assoc.{get, insert, remove}
use unstable_drift.Wisp.Types.{handshake_stream_id}
use unstable_drift.Wisp.Types.PacketType.{PacketType, connect, data_packet, continue, close, info}
use unstable_drift.Wisp.Types.StreamType.{StreamType, tcp, udp}
use unstable_drift.Wisp.Types.CloseReason.{CloseReason}
use unstable_drift.Wisp.Frame.{
  DecodedPacket, encode_packet_to_vec, encode_close, decode_packet_owned, decode_continue,
}
use unstable_drift.Wisp.Mux.{
  MuxError, transport, decode, unknown_stream, StreamState, MuxInner, Call, transmit, deliver,
  notify_waiters, Outcome, Answer,
}

-- One round of the loop of `send_data`: what the locked block decides.
pub data Attempt : Type 0 where
  granted : Attempt
  refused : Attempt
  blocked : (notify : ℕ) → Attempt

unfoldable pub spend : StreamState → StreamState
spend st = record st { credit = st.credit - 1 }

unfoldable pub attempt_on : ℕ → StreamType → StreamState → MuxInner → Attempt × MuxInner
unfolding spend
attempt_on id udp st m = (granted, m)
attempt_on id tcp st m =
    if ltb 0 st.credit
    then (granted, record m { streams = insert id (spend st) m.streams })
    else (blocked st.credit_notify, m)

unfoldable pub attempt : ℕ → MuxInner → Attempt × MuxInner
unfolding attempt_on
attempt id m = elim (get id m.streams) [
  | none ↦ (refused, m)
  | some st ↦ attempt_on id st.stream_type st m
]

-- What `send_data` has done after one round: it returns, or it waits for a notification and then
-- begins the next round.
pub data Progress : Type 0 where
  done : Result MuxError (Unit {0}) → Progress
  waiting : (notify : ℕ) → Progress

unfoldable pub answered : Answer → Result MuxError (Unit {0})
answered (err e) = err (transport e)
answered (ok _) = ok tt

-- `send_data` after a round's locked block.
unfoldable pub send_decided :
    ℕ → Bytes → Answer → Attempt × MuxInner → Progress × MuxInner × List Call
send_decided id payload sent (refused, m) = (done (err (unknown_stream id)), m, [])
send_decided id payload sent (blocked notify, m) = (waiting notify, m, [])
send_decided id payload sent (granted, m) =
    (done (answered sent), m, transmit (encode_packet_to_vec data_packet id payload) ∷ [])

unfoldable pub send_data : ℕ → Bytes → Answer → MuxInner → Progress × MuxInner × List Call
unfolding send_decided
send_data id payload sent m = send_decided id payload sent (attempt id m)

unfoldable pub close_stream : ℕ → CloseReason → Answer → MuxInner → Outcome (Unit {0})
unfolding answered
close_stream id reason sent m = (
  answered sent,
  record m { streams = remove id m.streams },
  transmit (encode_packet_to_vec close id (encode_close reason)) ∷ [],
)

-- The handlers of `dispatch_inbound`, by packet type.
unfoldable pub on_data : DecodedPacket → MuxInner → Outcome (Unit {0})
on_data pkt m = elim (get pkt.stream_id m.streams) [
  | none ↦ (ok tt, m, [])
  | some st ↦ (ok tt, m, deliver st.inbound_tx pkt.payload ∷ [])
]

unfoldable pub refill : ℕ → StreamState → StreamState
refill credit st = record st { credit = credit }

unfoldable pub on_continue : DecodedPacket → MuxInner → Outcome (Unit {0})
unfolding refill
on_continue pkt m =
    if pkt.stream_id == handshake_stream_id
    then (ok tt, m, [])
    else elim (decode_continue pkt.payload) [
      | err e ↦ (err (decode e), m, [])
      | ok credit ↦ elim (get pkt.stream_id m.streams) [
        | none ↦ (ok tt, m, [])
        | some st ↦ (
          ok tt,
          record m { streams = insert pkt.stream_id (refill credit st) m.streams },
          notify_waiters st.credit_notify ∷ [],
        )
      ]
    ]

unfoldable pub on_close : DecodedPacket → MuxInner → Outcome (Unit {0})
on_close pkt m =
    let m' : MuxInner = record m { streams = remove pkt.stream_id m.streams } in
    elim (get pkt.stream_id m.streams) [
      | none ↦ (ok tt, m', [])
      | some st ↦ (ok tt, m', notify_waiters st.credit_notify ∷ [])
    ]

unfoldable pub handle : PacketType → DecodedPacket → MuxInner → Outcome (Unit {0})
handle data_packet pkt m = on_data pkt m
handle continue pkt m = on_continue pkt m
handle close pkt m = on_close pkt m
handle info pkt m = (ok tt, m, [])
handle connect pkt m = (ok tt, m, [])

unfoldable pub dispatch_inbound : Bytes → MuxInner → Outcome (Unit {0})
dispatch_inbound frame m = elim (decode_packet_owned frame) [
  | err e ↦ (err (decode e), m, [])
  | ok pkt ↦ handle pkt.packet_type pkt m
]
