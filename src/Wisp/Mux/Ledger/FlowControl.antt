-- ===== src/Wisp/Mux/Ledger/FlowControl.antt =====
-- Flow control over any history.
use unstable_drift.Prelude.{ℕ, ◌+◌, ◌≤◌, ◌≡◌, refl, List, [], ◌∷◌, some, arith}
use unstable_drift.Prelude.{
  ◌==◌, if◌then◌else◌, Option-cases, Result-cases, Bool-cases, inl, inr, Result,
}
use unstable_drift.Bytes.{Bytes}
use unstable_drift.Assoc.{get, insert}
use unstable_drift.Transport.{TransportError}
use unstable_drift.Wisp.Types.PacketType
use unstable_drift.Wisp.Types.PacketType.{PacketType, connect, data_packet, continue, close, info}
use unstable_drift.Wisp.Types.StreamType.{StreamType}
use unstable_drift.Wisp.Types.{handshake_stream_id}
use unstable_drift.Wisp.Types.CloseReason.{CloseReason}
use unstable_drift.Wisp.Frame.{
  encode_close, encode_connect, encode_info, ExtensionEntry, DecodedPacket, encode_packet_to_vec,
  decode_packet_owned, decode_continue,
}
use unstable_drift.Wisp.Mux.{StreamState, MuxInner, Answer, transmit}
use unstable_drift.Wisp.Mux.Handshake.{v1, v2, run_handshake, client_info, greeting, server_credit}
use unstable_drift.Wisp.Mux.Open.{open_stream, register, connect_packet}
use unstable_drift.Wisp.Mux.Traffic.{
  send_data, close_stream, dispatch_inbound, handle, on_data, on_continue, on_close, refill, spend,
}
use unstable_drift.Wisp.Mux.History.{Event, handshakes, opens, sends, closes, receives, step, run}
use unstable_drift.Wisp.Mux.Cases.{attempt_cases}
use unstable_drift.Wisp.Mux.Inv.{opened, IsValid, reserve_valid, step-IsValid}
use unstable_drift.Wisp.Mux.Ledger.{
  data_frames, granted_by, carried, granted, credit_left, IsTcpStream, data_frames-append,
  is_data_lem, Settles, idle-Settles, establish-Settles, drop-Settles, put-Settles, allot-Settles,
  control_frames,
}

module _ (id : ℕ) (m : MuxInner) (v : IsValid m) (t : IsTcpStream id m) where
  run_handshake-Settles :
      (exts : List ExtensionEntry) (first : Result TransportError Bytes) (sent : Answer)
      (second : Result TransportError Bytes)
      → let r = run_handshake exts first sent second m in Settles id m 0 r.1 r.2
  unfolding run_handshake client_info PacketType.same data_frames
  run_handshake-Settles exts first sent second = elim (Result-cases (greeting first)) [
    | inr (x, e) ↦ rw (e, run_handshake) (idle-Settles id m t [] refl)
    | inl (v1 c, e) ↦ rw (e, run_handshake) (establish-Settles id m t c [] refl)
    | inl (v2, e) ↦
        rw (e, run_handshake)
          (elim (Result-cases sent) [
            | inr (x, s) ↦ rw (s, run_handshake) (idle-Settles id m t _ hello)
            | inl (x, s) ↦
                rw (s, run_handshake)
                  (elim (Result-cases (server_credit second)) [
                    | inr (y, c) ↦ rw (c, run_handshake) (idle-Settles id m t _ hello)
                    | inl (y, c) ↦ rw (c, run_handshake) (establish-Settles id m t y _ hello)
                  ])
          ])
  ]
    where
      hello : data_frames id (transmit (client_info exts) ∷ []) ≡ 0
      hello = control_frames id m t 0 info (encode_info exts) refl

  open_stream-Settles :
      (host : Bytes) (port : ℕ) (type : StreamType) (tx notify : ℕ) (sent : Answer)
      → let r = open_stream host port type tx notify sent m in Settles id m 0 r.1 r.2
  unfolding open_stream register connect_packet PacketType.same data_frames
  open_stream-Settles host port type tx notify sent = elim (reserve_valid m v) [
    | inl (h, e) ↦ rw e (idle-Settles id m t [] refl)
    | inr (inl (up, h, e)) ↦ rw e (idle-Settles id m t [] refl)
    | inr (inr (up, h, e)) ↦
        rw e
          (elim (Result-cases sent) [ inr (x, s) ↦ rw s registered | inl (x, s) ↦ rw s registered ])
  ]
    where
      registered :
          Settles id m 0
            (record m {
              next_stream_id = m.next_stream_id + 1;
              streams = insert m.next_stream_id (opened type tx notify m) m.streams;
            })
            (transmit (connect_packet m.next_stream_id type port host) ∷ [])
      registered =
          allot-Settles id m t (opened type tx notify m) _
            (control_frames id m t m.next_stream_id connect (encode_connect type port host) refl)

  data_frame_for :
      (j : ℕ) (payload : Bytes) (st : StreamState)
      → get j m.streams ≡ some st
      → data_frames id (transmit (encode_packet_to_vec data_packet j payload) ∷ [])
        ≡ (if j == id then 1 else 0)
  unfolding data_frames
  data_frame_for j payload st e =
      rw (is_data_lem id j payload (omega (arith, v.ids j st e, v.next_fits)))

  send_data-Settles :
      (j : ℕ) (payload : Bytes) (sent : Answer)
      → let r = send_data j payload sent m in Settles id m 0 r.1 r.2
  unfolding send_data data_frames spend
  send_data-Settles j payload sent = elim (attempt_cases j m) [
    | inl (e, a) ↦ rw a (idle-Settles id m t [] refl)
    | inr (inl (st, e, u, a)) ↦
        rw a (idle-Settles id m t _ (ground (arith, data_frame_for j payload st e, t.typed st)))
    | inr (inr (inl (st, e, u, z, a))) ↦ rw a (idle-Settles id m t [] refl)
    | inr (inr (inr (st, e, u, z, a))) ↦ rw a (
        put-Settles id m t j 0 st (spend st) _ e refl
          (λ q. ground (arith, data_frame_for j payload st e))
          (λ q. ground (arith, data_frame_for j payload st e)))
  ]

  close_stream-Settles :
      (j : ℕ) (reason : CloseReason) (sent : Answer)
      → let r = close_stream j reason sent m in Settles id m 0 r.1 r.2
  unfolding close_stream PacketType.same
  close_stream-Settles j reason sent =
      drop-Settles id m t j _ (control_frames id m t j close (encode_close reason) refl)

  on_continue-Settles :
      (p : DecodedPacket) → let r = on_continue p m in Settles id m (carried id p continue) r.1 r.2
  unfolding on_continue carried data_frames refill
  on_continue-Settles p = elim (Bool-cases (p.stream_id == handshake_stream_id)) [
    | inl z ↦ rw (z, on_continue) (idle-Settles id m t [] refl)
    | inr z ↦ elim (Result-cases (decode_continue p.payload)) [
      | inr (x, d) ↦ rw (z, on_continue) (rw (d, on_continue) (idle-Settles id m t [] refl))
      | inl (n, d) ↦ elim (Option-cases (get p.stream_id m.streams)) [
        | inl e ↦ rw (z, on_continue) (rw (d, on_continue) (rw e (idle-Settles id m t [] refl)))
        | inr (st, e) ↦
            rw (z, on_continue)
              (rw (d, on_continue)
                (rw e (
                  put-Settles id m t p.stream_id _ st (refill n st) _ e refl (λ q. ground arith)
                    (λ q. refl))))
      ]
    ]
  ]

  handle-Settles :
      (type : PacketType) (p : DecodedPacket)
      → let r = handle type p m in Settles id m (carried id p type) r.1 r.2
  unfolding handle carried on_data on_close data_frames
  handle-Settles connect p = idle-Settles id m t [] refl
  handle-Settles info p = idle-Settles id m t [] refl
  handle-Settles data_packet p = elim (Option-cases (get p.stream_id m.streams)) [
    | inl e ↦ rw (e, handle, on_data) (idle-Settles id m t _ refl)
    | inr (st, e) ↦ rw (e, handle, on_data) (idle-Settles id m t _ refl)
  ]
  handle-Settles close p = elim (Option-cases (get p.stream_id m.streams)) [
    | inl e ↦ rw (e, handle, on_close) (drop-Settles id m t p.stream_id _ refl)
    | inr (st, e) ↦ rw (e, handle, on_close) (drop-Settles id m t p.stream_id _ refl)
  ]
  handle-Settles continue p = on_continue-Settles p

  dispatch_inbound-Settles :
      (frame : Bytes)
      → let r = dispatch_inbound frame m in Settles id m (granted_by id frame) r.1 r.2
  unfolding dispatch_inbound granted_by data_frames
  dispatch_inbound-Settles frame = elim (Result-cases (decode_packet_owned frame)) [
    | inl (p, e) ↦ rw (e, dispatch_inbound, granted_by) (handle-Settles p.packet_type p)
    | inr (x, e) ↦ rw (e, dispatch_inbound, granted_by) (idle-Settles id m t [] refl)
  ]

step-Settles :
    (id : ℕ) (e : Event) (m : MuxInner)
    → IsValid m
    → IsTcpStream id m
    → Settles id m (granted id (e ∷ [])) (step e m).0 (step e m).1
unfolding step granted
step-Settles id (handshakes exts first sent second) m v t =
    run_handshake-Settles id m v t exts first sent second
step-Settles id (opens host port type tx notify sent) m v t =
    open_stream-Settles id m v t host port type tx notify sent
step-Settles id (sends j payload sent) m v t = send_data-Settles id m v t j payload sent
step-Settles id (closes j reason sent) m v t = close_stream-Settles id m v t j reason sent
step-Settles id (receives frame) m v t =
    let s = dispatch_inbound-Settles id m v t frame in
    record { account = omega (arith, s.account); still = s.still }

granted_cons :
    (id : ℕ) (e : Event) (es : List Event)
    → granted id (e ∷ es) ≡ granted id (e ∷ []) + granted id es
unfolding granted
granted_cons id (receives frame) es = omega arith
granted_cons id (handshakes exts first sent second) es = omega arith
granted_cons id (opens host port type tx notify sent) es = omega arith
granted_cons id (sends j payload sent) es = omega arith
granted_cons id (closes j reason sent) es = omega arith

-- In any history after a TCP stream has been opened, the DATA frames handed to the transport for it,
-- as the peer decodes them, and the credit that is left are at most the credit at the start and what
-- the peer's CONTINUE packets for the stream carried. Other streams' traffic, closing, and waiting
-- sends change nothing in that.
pub flow_control :
    (id : ℕ) (es : List Event) (m : MuxInner)
    → IsValid m
    → IsTcpStream id m
    → data_frames id (run es m).1 + credit_left id (run es m).0 ≤ credit_left id m + granted id es
unfolding run data_frames granted
flow_control id [] m v t = omega arith
flow_control id (e ∷ es) m v t =
    let s = step-Settles id e m v t in
    omega (
      arith,
      s.account,
      granted_cons id e es,
      data_frames-append id (step e m).1 (run es (step e m).0).1,
      flow_control id es (step e m).0 (step-IsValid e m v) s.still,
    )
