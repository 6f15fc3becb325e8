-- ===== src/Wisp/Mux/Established.antt =====
-- The handshake of wisp/mux.rs: when it succeeds, and what it leaves behind.
use unstable_drift.Prelude.{ℕ, ◌≡◌, ◌⊎◌, inl, inr, refl, List, [], ◌∷◌, All, ok, err, arith}
use unstable_drift.Prelude.{Result, Result-cases}
use unstable_drift.Bytes.{Bytes, IsU32}
use unstable_drift.Transport.{TransportError}
use unstable_drift.Wisp.Types.{handshake_stream_id}
use unstable_drift.Wisp.Types.PacketType
use unstable_drift.Wisp.Types.PacketType.{PacketType, continue, info}
use unstable_drift.Wisp.Types.Codes.{PacketType-same_iff}
use unstable_drift.Wisp.Frame.{
  ExtensionEntry, DecodedPacket, DecodedInfo, encode_packet_to_vec, encode_continue, encode_info,
  decode_packet, decode_continue, decode_info,
}
use unstable_drift.Wisp.Frame.RoundTrip.{
  FitsU32, packet_round_trip, continue_round_trip, info_round_trip,
}
use unstable_drift.Wisp.Mux.{MuxError, transport, established, MuxInner, Answer, transmit}
use unstable_drift.Wisp.Mux.Handshake.{
  v1, v2, receive, greeting, server_credit, client_info, establish, run_handshake,
}

-- The answer is a CONTINUE on stream 0 that carries `credit`.
pub record IsContinue (answer : Result TransportError Bytes) (credit : ℕ) : Type 0 where
  pub frame : Bytes
  pub packet : DecodedPacket
  pub arrived : answer ≡ ok frame
  pub decoded : decode_packet frame ≡ ok packet
  pub typed : packet.packet_type ≡ continue
  pub on_zero : packet.stream_id ≡ handshake_stream_id
  pub carries : decode_continue packet.payload ≡ ok credit

-- The answer is a well-formed INFO on stream 0.
pub record IsInfo (answer : Result TransportError Bytes) : Type 0 where
  pub frame : Bytes
  pub packet : DecodedPacket
  pub server_info : DecodedInfo
  pub arrived : answer ≡ ok frame
  pub decoded : decode_packet frame ≡ ok packet
  pub typed : packet.packet_type ≡ info
  pub on_zero : packet.stream_id ≡ handshake_stream_id
  pub carries : decode_info packet.payload ≡ ok server_info

greeting_v1 : (answer : _) (c : ℕ) → greeting answer ≡ ok (v1 c) → IsContinue answer c
unfolding greeting receive
greeting_v1 (err x) c e = cc
greeting_v1 (ok frame) c e = elim (Result-cases (decode_packet frame)) [
  | inr (x, d) ↦ cc (rw d at e)
  | inl (p, d) ↦ record {
    frame = frame;
    packet = p;
    arrived = refl;
    decoded = d;
    typed = ground (arith, d, PacketType-same_iff p.packet_type continue);
    on_zero = ground (arith, d);
    carries = ground (arith, d);
  }
]

greeting_v2 : (answer : _) → greeting answer ≡ ok v2 → IsInfo answer
unfolding greeting receive
greeting_v2 (err x) e = cc
greeting_v2 (ok frame) e = elim (Result-cases (decode_packet frame)) [
  | inr (x, d) ↦ cc (rw d at e)
  | inl (p, d) ↦ elim (Result-cases (decode_info p.payload)) [
    | inr (x, i) ↦ absurd (ground (arith, d))
    | inl (server, i) ↦ record {
      frame = frame;
      packet = p;
      server_info = server;
      arrived = refl;
      decoded = d;
      typed = ground (arith, d, PacketType-same_iff p.packet_type info);
      on_zero = ground (arith, d);
      carries = i;
    }
  ]
]

server_credit-IsContinue : (answer : _) (c : ℕ) → server_credit answer ≡ ok c → IsContinue answer c
unfolding server_credit receive
server_credit-IsContinue (err x) c e = cc
server_credit-IsContinue (ok frame) c e = elim (Result-cases (decode_packet frame)) [
  | inr (x, d) ↦ cc (rw d at e)
  | inl (p, d) ↦ record {
    frame = frame;
    packet = p;
    arrived = refl;
    decoded = d;
    typed = ground (arith, d, PacketType-same_iff p.packet_type continue);
    on_zero = ground (arith, d);
    carries = ground (arith, d);
  }
]

-- The handshake either fails and leaves the state as it was, or it succeeds: then the server spoke
-- version 1 (a CONTINUE on stream 0, nothing sent) or version 2 (a well-formed INFO on stream 0, our
-- INFO sent, and a CONTINUE on stream 0), the mux is established, and its initial credit is the
-- number in that CONTINUE.
pub run_handshake_outcome :
    (exts : List ExtensionEntry) (first : Result TransportError Bytes) (sent : Answer)
    (second : Result TransportError Bytes) (m : MuxInner)
    → let r = run_handshake exts first sent second m in
      ((e : MuxError) × (r.0 ≡ err e) × (r.1 ≡ m))
      ⊎ ((c : ℕ) × (r.0 ≡ ok tt)
          × (r.1 ≡ record m { handshake = established; initial_credit = c })
          × (((r.2 ≡ []) × IsContinue first c)
              ⊎ ((r.2 ≡ transmit (encode_packet_to_vec info 0 (encode_info exts)) ∷ [])
                  × IsInfo first
                  × (sent ≡ ok tt)
                  × IsContinue second c)))
unfolding run_handshake establish client_info
run_handshake_outcome exts first sent second m = elim (Result-cases (greeting first)) [
  | inr (x, e) ↦ rw (e, run_handshake) (inl (x, refl, refl))
  | inl (v1 c, e) ↦ rw (e, run_handshake) (inr (c, refl, refl, inl (refl, greeting_v1 first c e)))
  | inl (v2, e) ↦ elim (Result-cases sent) [
    | inr (x, s) ↦ rw (e, run_handshake) (rw (s, run_handshake) (inl (transport x, refl, refl)))
    | inl (x, s) ↦ elim (Result-cases (server_credit second)) [
      | inr (y, l) ↦
          rw (e, run_handshake)
            (rw (s, run_handshake) (rw (l, run_handshake) (inl (y, refl, refl))))
      | inl (y, l) ↦
          rw (e, run_handshake)
            (rw (s, run_handshake)
              (rw (l, run_handshake)
                (inr (
                  y,
                  refl,
                  refl,
                  inr (refl, greeting_v2 first e, refl, server_credit-IsContinue second y l),
                ))))
    ]
  ]
]

greeting_hello :
    (server : List ExtensionEntry)
    → All FitsU32 server
    → greeting (ok (encode_packet_to_vec info 0 (encode_info server))) ≡ ok v2
unfolding greeting receive PacketType.same
greeting_hello server h =
    rw ((packet_round_trip info 0 (encode_info server) (omega arith)).1, greeting, receive)
      (rw (info_round_trip server h))

greeting_grant :
    (credit : ℕ)
    → IsU32 credit
    → greeting (ok (encode_packet_to_vec continue 0 (encode_continue credit))) ≡ ok (v1 credit)
unfolding greeting receive PacketType.same
greeting_grant credit u =
    rw ((packet_round_trip continue 0 (encode_continue credit) (omega arith)).1, greeting, receive)
      (rw (continue_round_trip credit u))

server_credit_grant :
    (credit : ℕ)
    → IsU32 credit
    → server_credit (ok (encode_packet_to_vec continue 0 (encode_continue credit))) ≡ ok credit
unfolding server_credit receive PacketType.same
server_credit_grant credit u =
    rw
      (
        (packet_round_trip continue 0 (encode_continue credit) (omega arith)).1,
        server_credit,
        receive,
      )
      (rw (continue_round_trip credit u))

-- A conforming server of either version gets through, whatever extensions it offers: the mux is
-- established with the credit that the server grants and is otherwise as it was; our INFO on stream 0,
-- with our extensions, is what goes out in version 2, and nothing does in version 1.
pub run_handshake_conforming :
    (exts server : List ExtensionEntry) (credit : ℕ) (sent : Answer)
    (second : Result TransportError Bytes) (m : MuxInner)
    → All FitsU32 server
    → IsU32 credit
    → let hello = encode_packet_to_vec info 0 (encode_info server) in
      let grant = encode_packet_to_vec continue 0 (encode_continue credit) in
      let m' = record m { handshake = established; initial_credit = credit } in
      (run_handshake exts (ok hello) (ok tt) (ok grant) m
        ≡ (ok tt, m', transmit (encode_packet_to_vec info 0 (encode_info exts)) ∷ []))
      × (run_handshake exts (ok grant) sent second m ≡ (ok tt, m', []))
unfolding run_handshake establish client_info
run_handshake_conforming exts server credit sent second m h u = (
  rw (greeting_hello server h, run_handshake) (rw (server_credit_grant credit u, run_handshake)),
  rw (greeting_grant credit u, run_handshake),
)
