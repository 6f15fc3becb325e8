-- ===== src/Wisp/Examples/Muxes.antt =====
-- The theorems on the mux at concrete histories, and tests.
use unstable_drift.Prelude.{ℕ, ◌+◌, ◌≤◌, ◌≡◌, ◌⊎◌, refl, [], ◌∷◌, ok, err, arith}
use unstable_drift.Assoc.{get}
use unstable_drift.Wisp.Types.PacketType.{continue, info}
use unstable_drift.Wisp.Types.StreamType.{tcp}
use unstable_drift.Wisp.Frame.{encode_packet_to_vec, encode_continue, encode_info}
use unstable_drift.Wisp.Mux.{established, Answer, MuxError, transmit, new}
use unstable_drift.Wisp.Mux.Handshake.{run_handshake}
use unstable_drift.Wisp.Mux.Open.{open_stream}
use unstable_drift.Wisp.Mux.History.{run}
use unstable_drift.Wisp.Mux.Inv.{IsValid, run-IsValid}
use unstable_drift.Wisp.Mux.Ledger.{data_frames, credit_left, granted, IsTcpStream}
use unstable_drift.Wisp.Mux.Ledger.FlowControl.{flow_control}
use unstable_drift.Wisp.Mux.Delivery.{delivered, incoming, Owns}
use unstable_drift.Wisp.Mux.Delivery.InOrder.{delivered_in_order}
use unstable_drift.Wisp.Mux.Allocation.{Opening, open_stream_outcome}
use unstable_drift.Wisp.Mux.Established.{
  IsContinue, IsInfo, run_handshake_outcome, run_handshake_conforming,
}
use unstable_drift.Wisp.Examples.State.{hi, first_stream, busy, busy-IsValid, history}

first_IsTcpStream : IsTcpStream 1 busy
unfolding get
first_IsTcpStream = record { allotted = omega arith; typed = λ st e. ground arith }

flow_control_example :
    data_frames 1 (run history busy).1 + credit_left 1 (run history busy).0
    ≤ credit_left 1 busy + granted 1 history
flow_control_example = flow_control 1 history busy busy-IsValid first_IsTcpStream

first_Owns : Owns 1 10 busy
unfolding get
first_Owns = record { allotted = omega arith; only = λ k st e h. ground arith }

delivered_in_order_example : delivered 10 (run history busy).1 ≡ incoming 1 history
unfolding get
delivered_in_order_example =
    delivered_in_order 1 10 history busy busy-IsValid first_Owns (first_stream, refl, refl)
      (omega arith)

run-IsValid_example : IsValid (run history busy).0
run-IsValid_example = run-IsValid history busy busy-IsValid

open_stream_outcome_example :
    Opening hi 80 tcp 12 22 (ok tt) busy (open_stream hi 80 tcp 12 22 (ok tt) busy)
open_stream_outcome_example = open_stream_outcome hi 80 tcp 12 22 (ok tt) busy busy-IsValid

run_handshake_conforming_example :
    (run_handshake []
        (ok (encode_packet_to_vec info 0 (encode_info [])))
        (ok tt)
        (ok (encode_packet_to_vec continue 0 (encode_continue 128)))
        new
      ≡ (
        ok tt,
        record new { handshake = established; initial_credit = 128 },
        transmit (encode_packet_to_vec info 0 (encode_info [])) ∷ [],
      ))
    × (run_handshake []
          (ok (encode_packet_to_vec continue 0 (encode_continue 128)))
          (ok tt)
          (ok [])
          new
        ≡ (ok tt, record new { handshake = established; initial_credit = 128 }, []))
run_handshake_conforming_example =
    run_handshake_conforming [] [] 128 (ok tt) (ok []) new (omega arith) (omega arith)

run_handshake_outcome_example :
    let r = run_handshake [] (ok (9 ∷ [])) (ok tt) (ok []) new in
    ((e : MuxError) × (r.0 ≡ err e) × (r.1 ≡ new))
    ⊎ ((c : ℕ) × (r.0 ≡ ok tt)
        × (r.1 ≡ record new { handshake = established; initial_credit = c })
        × (((r.2 ≡ []) × IsContinue (ok (9 ∷ [])) c)
            ⊎ ((r.2 ≡ transmit (encode_packet_to_vec info 0 (encode_info [])) ∷ [])
                × IsInfo (ok (9 ∷ []))
                × (◌≡◌ {A = Answer} (ok tt) (ok tt))
                × IsContinue (ok []) c)))
run_handshake_outcome_example = run_handshake_outcome [] (ok (9 ∷ [])) (ok tt) (ok []) new
