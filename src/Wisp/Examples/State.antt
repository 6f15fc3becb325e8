-- ===== src/Wisp/Examples/State.antt =====
-- A mux in use: stream 1 is TCP with two packets of credit left, stream 2 is UDP.
use unstable_drift.Prelude.{List, [], ◌∷◌, ok, arith}
use unstable_drift.Bytes.{Bytes, u32_max}
use unstable_drift.Assoc.{get}
use unstable_drift.Wisp.Types.PacketType.{data_packet, continue, close}
use unstable_drift.Wisp.Types.StreamType.{tcp, udp}
use unstable_drift.Wisp.Types.CloseReason.{voluntary}
use unstable_drift.Wisp.Frame.{encode_packet_to_vec, encode_continue, encode_close}
use unstable_drift.Wisp.Mux.{StreamState, established, MuxInner}
use unstable_drift.Wisp.Mux.History.{Event, opens, sends, receives}
use unstable_drift.Wisp.Mux.Inv.{IsValid}

abbrev pub hi : Bytes
hi = b'h' ∷ b'i' ∷ []

abbrev pub first_stream : StreamState
first_stream = record { stream_type = tcp; credit = 2; inbound_tx = 10; credit_notify = 20 }

abbrev pub second_stream : StreamState
second_stream = record { stream_type = udp; credit = u32_max; inbound_tx = 11; credit_notify = 21 }

abbrev pub busy : MuxInner
busy = record {
  handshake = established;
  next_stream_id = 3;
  streams = (1, first_stream) ∷ (2, second_stream) ∷ [];
  initial_credit = 2;
}

pub busy-IsValid : IsValid busy
unfolding get
busy-IsValid = record {
  next_pos = omega arith;
  next_fits = omega arith;
  ids = λ id st e. ground arith;
}

-- Two streams' traffic, a refill, a new stream, a malformed frame and a close by the peer.
abbrev pub history : List Event
history =
    sends 1 hi (ok tt)
    ∷ receives (encode_packet_to_vec data_packet 1 hi)
    ∷ sends 2 hi (ok tt)
    ∷ receives (9 ∷ [])
    ∷ opens hi 80 tcp 12 22 (ok tt)
    ∷ receives (encode_packet_to_vec continue 1 (encode_continue 5))
    ∷ sends 1 hi (ok tt)
    ∷ receives (encode_packet_to_vec data_packet 1 (7 ∷ []))
    ∷ receives (encode_packet_to_vec close 1 (encode_close voluntary))
    ∷ receives (encode_packet_to_vec data_packet 1 (8 ∷ []))
    ∷ sends 1 hi (ok tt)
    ∷ []
