-- ===== src/Wisp/Mux/Ledger.antt =====
-- Flow control: the DATA frames that go out against the credit that came in.
pub mod FlowControl
use unstable_drift.Prelude.{
  ℕ, zero, suc, ◌+◌, ◌≤◌, ◌<◌, ◌≡◌, ◌≢◌, refl, true, false, Bool, ◌&&◌, List, [], ◌∷◌, ◌++◌, some,
  none, ok, err, arith,
}
use unstable_drift.Prelude.{
  ◌==◌, if◌then◌else◌, Option-cases, Result-cases, Bool-cases, inl, inr, Result, ==_iff, ==-self,
}
use unstable_drift.Bytes.{Bytes, IsU32, u32_max, u32_of_le}
use unstable_drift.Bytes.Laws.{u32_of_le-u32_le}
use unstable_drift.Prelude.{◌%◌, ◌/◌}
use unstable_drift.Assoc.{get, insert, remove, get-insert, get-remove}
use unstable_drift.Transport.{TransportError}
use unstable_drift.Wisp.Types.PacketType
use unstable_drift.Wisp.Types.PacketType.{PacketType, connect, data_packet, continue, close, info}
use unstable_drift.Wisp.Types.StreamType.{StreamType, tcp, udp}
use unstable_drift.Wisp.Types.Codes.{PacketType-from_u8-as_u8}
use unstable_drift.Wisp.Frame.{
  ExtensionEntry, DecodedPacket, encode_packet_to_vec, decode_packet, decode_packet_owned,
  decode_continue,
}
use unstable_drift.Wisp.Mux.{StreamState, MuxInner, Call, Answer, transmit, deliver, notify_waiters}
use unstable_drift.Wisp.Mux.Handshake.{
  run_handshake, client_info, greeting, server_credit, establish,
}
use unstable_drift.Wisp.Mux.Open.{open_stream, open_reserved, reserve, register, connect_packet}
use unstable_drift.Wisp.Mux.Traffic.{
  send_data, send_decided, close_stream, dispatch_inbound, attempt, handle, on_data, on_continue,
  on_close, refill, spend,
}
use unstable_drift.Wisp.Mux.History.{Event, handshakes, opens, sends, closes, receives, step, run}
use unstable_drift.Wisp.Mux.Cases.{attempt_cases}
use unstable_drift.Wisp.Mux.Inv.{IsValid, reserve_valid, step-IsValid}

-- Is this frame a DATA packet of stream `id`? As the peer would decode it.
pub is_data : ℕ → Bytes → Bool
is_data id frame = elim (decode_packet frame) [
  | err e ↦ false
  | ok p ↦ PacketType.same p.packet_type data_packet && p.stream_id == id
]

pub data_frames : ℕ → List Call → ℕ
data_frames id [] = 0
data_frames id (transmit frame ∷ calls) =
    let rest = data_frames id calls in if is_data id frame then suc rest else rest
data_frames id (deliver tx payload ∷ calls) = data_frames id calls
data_frames id (notify_waiters n ∷ calls) = data_frames id calls

-- The credit that a frame from the peer grants to stream `id`: the number that a CONTINUE carries.
pub carried : ℕ → DecodedPacket → PacketType → ℕ
carried id p continue =
    if p.stream_id == id then (elim (decode_continue p.payload) [ err e ↦ 0 | ok n ↦ n ]) else 0
carried id p _ = 0

pub granted_by : ℕ → Bytes → ℕ
unfolding carried
granted_by id frame = elim (decode_packet_owned frame) [
  | err e ↦ 0
  | ok p ↦ carried id p p.packet_type
]

pub granted : ℕ → List Event → ℕ
granted id [] = 0
granted id (receives frame ∷ es) = granted_by id frame + granted id es
granted id (_ ∷ es) = granted id es

abbrev pub credit_left : ℕ → MuxInner → ℕ
credit_left id m = elim (get id m.streams) [ none ↦ 0 | some st ↦ st.credit ]

-- Stream `id` has been given out, and is a TCP stream if it is still there.
pub record IsTcpStream (id : ℕ) (m : MuxInner) : Type 0 where
  pub allotted : id < m.next_stream_id
  pub typed : (st : StreamState) → get id m.streams ≡ some st → st.stream_type ≡ tcp

data_frames-append :
    (id : ℕ) (xs ys : List Call) → data_frames id (xs ++ ys) ≡ data_frames id xs + data_frames id ys
unfolding data_frames
data_frames-append id [] ys = omega arith
data_frames-append id (transmit frame ∷ xs) ys = ground (arith, data_frames-append id xs ys)
data_frames-append id (deliver tx payload ∷ xs) ys = data_frames-append id xs ys
data_frames-append id (notify_waiters n ∷ xs) ys = data_frames-append id xs ys

decode-encode :
    (j : ℕ) (t : PacketType) (payload : Bytes)
    → decode_packet (encode_packet_to_vec t j payload)
      ≡ ok (record {
        packet_type = t;
        stream_id = u32_of_le (j % 256) (j / 256 % 256) (j / 65536 % 256) (j / 16777216 % 256);
        payload = payload;
      })
unfolding decode_packet encode_packet_to_vec
decode-encode j t payload = rw (PacketType-from_u8-as_u8 t)

is_data_control :
    (id j : ℕ) (t : PacketType) (payload : Bytes)
    → PacketType.same t data_packet ≡ false
    → is_data id (encode_packet_to_vec t j payload) ≡ false
unfolding is_data
is_data_control id j t payload h = rw (decode-encode j t payload, is_data) (rw h)

is_data_lem :
    (id j : ℕ) (payload : Bytes)
    → IsU32 j
    → is_data id (encode_packet_to_vec data_packet j payload) ≡ (j == id)
unfolding is_data PacketType.same
is_data_lem id j payload h =
    rw (decode-encode j data_packet payload, is_data) (rw (u32_of_le-u32_le j h))

-- What an operation does to the account of stream `id`: it goes from `m` to `m'`, makes `calls`,
-- and `grant` comes in.
record Settles (id : ℕ) (m : MuxInner) (grant : ℕ) (m' : MuxInner) (calls : List Call)
    : Type 0 where
  account : data_frames id calls + credit_left id m' ≤ credit_left id m + grant
  still : IsTcpStream id m'

module _ (id : ℕ) (m : MuxInner) (t : IsTcpStream id m) where
  idle-Settles :
      {grant : ℕ} (calls : List Call) → data_frames id calls ≡ 0 → Settles id m grant m calls
  idle-Settles calls e = record { account = omega arith; still = t }

  establish-Settles :
      (c : ℕ) (calls : List Call) → data_frames id calls ≡ 0 → Settles id m 0 (establish c m) calls
  unfolding establish
  establish-Settles c calls e = record {
    account = omega arith;
    still = record { allotted = t.allotted; typed = t.typed };
  }

  drop-Settles :
      (j : ℕ) (calls : List Call)
      → data_frames id calls ≡ 0
      → Settles id m 0 (record m { streams = remove j m.streams }) calls
  drop-Settles j calls e = record {
    account = ground (arith, get-remove j id m.streams);
    still = record {
      allotted = t.allotted;
      typed = λ st g. ground (arith, get-remove j id m.streams, t.typed st);
    };
  }

  put-Settles :
      (j grant : ℕ) (old st : StreamState) (calls : List Call)
      → get j m.streams ≡ some old
      → st.stream_type ≡ old.stream_type
      → (j ≡ id → data_frames id calls + st.credit ≤ old.credit + grant)
      → (j ≢ id → data_frames id calls ≡ 0)
      → Settles id m grant (record m { streams = insert j st m.streams }) calls
  put-Settles j grant old st calls e same on off = record {
    account = ground (arith, get-insert j id st m.streams);
    still = record {
      allotted = t.allotted;
      typed = λ s g. ground (arith, get-insert j id st m.streams, t.typed s, t.typed old);
    };
  }

  allot-Settles :
      (st : StreamState) (calls : List Call)
      → data_frames id calls ≡ 0
      → Settles id m 0
          (record m {
            next_stream_id = m.next_stream_id + 1;
            streams = insert m.next_stream_id st m.streams;
          })
          calls
  allot-Settles st calls e = record {
    account = ground (arith, t.allotted, get-insert m.next_stream_id id st m.streams);
    still = record {
      allotted = omega (arith, t.allotted);
      typed =
          λ s g. ground (arith, t.allotted, get-insert m.next_stream_id id st m.streams, t.typed s);
    };
  }

  control_frames :
      (j : ℕ) (p : PacketType) (payload : Bytes)
      → PacketType.same p data_packet ≡ false
      → data_frames id (transmit (encode_packet_to_vec p j payload) ∷ []) ≡ 0
  unfolding data_frames
  control_frames j p payload h = rw (is_data_control id j p payload h)
