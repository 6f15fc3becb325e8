-- ===== src/Wisp/Mux/Allocation.antt =====
-- Stream ids: the branches of `Mux::open` (wisp/mux.rs), and the ids that a history gives out.
use unstable_drift.Prelude.{
  ℕ, ◌+◌, ◌≤◌, ◌<◌, ◌≡◌, ◌≢◌, inl, inr, refl, subst, true, List, [], ◌∷◌, ◌++◌, none, ok, err,
  arith,
}
use unstable_drift.Prelude.{Result, Result-cases, Option-cases}
use unstable_drift.Bytes.{Bytes, IsU16, u32_max}
use unstable_drift.Bytes.Utf8.{is_utf8}
use unstable_drift.Assoc.{get, insert}
use unstable_drift.Transport.{TransportError}
use unstable_drift.Wisp.Types.PacketType.{connect}
use unstable_drift.Wisp.Types.StreamType.{StreamType, tcp, udp}
use unstable_drift.Wisp.Frame.{
  ExtensionEntry, DecodedPacket, encode_packet_to_vec, encode_connect, decode_packet,
  decode_packet_owned, decode_connect,
}
use unstable_drift.Wisp.Frame.RoundTrip.{packet_round_trip, connect_round_trip}
use unstable_drift.Wisp.Mux.{
  MuxError, open_before_handshake, stream_id_exhausted, transport, StreamHandle, established,
  MuxInner, Answer, Outcome, transmit,
}
use unstable_drift.Wisp.Mux.Open.{open_stream, opening_credit, register, connect_packet}
use unstable_drift.Wisp.Mux.Inv.{IsValid, reserve_valid, step-IsValid}
use unstable_drift.Wisp.Mux.Cases.{attempt_cases}
use unstable_drift.Wisp.Mux.Handshake.{run_handshake, establish}
use unstable_drift.Wisp.Mux.Traffic.{
  send_data, close_stream, dispatch_inbound, handle, on_data, on_continue, on_close,
}
use unstable_drift.Wisp.Mux.History.{Event, handshakes, opens, sends, closes, receives, step}

-- What `open` answers, by what the transport answers.
abbrev pub open_result : ℕ → StreamType → ℕ → ℕ → Answer → Result MuxError StreamHandle
open_result id t tx notify (err e) = err (transport e)
open_result id t tx notify (ok _) =
    ok (record { id = id; stream_type = t; inbound_rx = tx; credit_notify = notify })

-- The credit of a new stream, by its type and the mux's initial credit.
pub data IsFirstCredit : StreamType → (initial_credit credit : ℕ) → Type 0 where
  for_tcp : {c : ℕ} → IsFirstCredit tcp c c
  for_udp : {c : ℕ} → IsFirstCredit udp c 4294967295

pub data Opening (host : Bytes) (port : ℕ) (t : StreamType) (tx notify : ℕ) (sent : Answer)
    (m : MuxInner) (r : Outcome StreamHandle) : Type 0 where
  too_early :
      m.handshake ≢ established
      → r ≡ (err (MuxError.handshake open_before_handshake), m, [])
      → Opening host port t tx notify sent m r
  exhausted :
      m.handshake ≡ established
      → m.next_stream_id ≡ u32_max
      → r ≡ (err stream_id_exhausted, m, [])
      → Opening host port t tx notify sent m r
  registered :
      {credit : ℕ}
      → IsFirstCredit t m.initial_credit credit
      → m.handshake ≡ established
      → m.next_stream_id < u32_max
      → get m.next_stream_id m.streams ≡ none
      → r ≡ (
        open_result m.next_stream_id t tx notify sent,
        record m {
          next_stream_id = m.next_stream_id + 1;
          streams =
              insert m.next_stream_id
                (record {
                  stream_type = t;
                  credit = credit;
                  inbound_tx = tx;
                  credit_notify = notify;
                })
                m.streams;
        },
        transmit (encode_packet_to_vec connect m.next_stream_id (encode_connect t port host)) ∷ [],
      )
      → Opening host port t tx notify sent m r

next_unused : (m : MuxInner) → IsValid m → get m.next_stream_id m.streams ≡ none
next_unused m v = elim (Option-cases (get m.next_stream_id m.streams)) [
  | inl e ↦ e
  | inr (st, e) ↦ absurd (omega (arith, v.ids m.next_stream_id st e))
]

first_credit : (t : StreamType) (c : ℕ) → IsFirstCredit t c (opening_credit t c)
unfolding opening_credit
first_credit tcp c = for_tcp
first_credit udp c = for_udp

-- `open` on a valid state does one of three things. Before the handshake it fails and changes
-- nothing. Once the next id is the largest u32 it fails and changes nothing, so that id is never
-- used. Otherwise it takes the next id, which no stream has, stores the stream under it with the
-- initial credit (the largest u32 for UDP) and sends CONNECT; if the transport fails, the caller
-- gets its error while the stream stays stored.
pub open_stream_outcome :
    (host : Bytes) (port : ℕ) (t : StreamType) (tx notify : ℕ) (sent : Answer) (m : MuxInner)
    → IsValid m
    → Opening host port t tx notify sent m (open_stream host port t tx notify sent m)
unfolding open_stream register connect_packet
open_stream_outcome host port t tx notify sent m v = elim (reserve_valid m v) [
  | inl (early, e) ↦ rw e (too_early early refl)
  | inr (inl (up, last, e)) ↦ rw e (exhausted up last refl)
  | inr (inr (up, more, e)) ↦ rw e (elim (Result-cases sent) [
    | inl (x, s) ↦
        rw s (registered (first_credit t m.initial_credit) up more (next_unused m v) refl)
    | inr (x, s) ↦
        rw s (registered (first_credit t m.initial_credit) up more (next_unused m v) refl)
  ])
]

-- The CONNECT packet that goes out decodes to what the caller asked for.
pub connect_packet_decodes :
    (id port : ℕ) (t : StreamType) (host : Bytes)
    → id < u32_max
    → IsU16 port
    → is_utf8 host ≡ true
    → (p : DecodedPacket) × (decode_packet (connect_packet id t port host) ≡ ok p)
      × (p.packet_type ≡ connect)
      × (p.stream_id ≡ id)
      × (decode_connect p.payload ≡ ok (record { stream_type = t; port = port; hostname = host }))
unfolding connect_packet
connect_packet_decodes id port t host h u w = (
  record { packet_type = connect; stream_id = id; payload = encode_connect t port host },
  (packet_round_trip connect id (encode_connect t port host) (omega arith)).1,
  refl,
  refl,
  connect_round_trip t port host u w,
)

abbrev pub returned : Result MuxError StreamHandle → List ℕ
returned (err e) = []
returned (ok h) = h.id ∷ []

-- The ids that the calls of `open` return, in order.
pub id_given : Event → MuxInner → List ℕ
id_given (opens host port t tx notify sent) m =
    returned (open_stream host port t tx notify sent m).0
id_given _ m = []

pub ids_given : List Event → MuxInner → List ℕ
ids_given [] m = []
ids_given (e ∷ es) m = id_given e m ++ ids_given es (step e m).0

-- Each number is above the one before it, the first at least `lo`, and all are below `hi`.
abbrev pub Rising : (lo hi : ℕ) → List ℕ → Type 0
Rising lo hi [] = Unit {0}
Rising lo hi (x ∷ xs) = (lo ≤ x) × (x < hi) × Rising (x + 1) hi xs

Rising-mono : (lo lo' hi : ℕ) (xs : List ℕ) → lo ≤ lo' → Rising lo' hi xs → Rising lo hi xs
Rising-mono lo lo' hi [] h r = tt
Rising-mono lo lo' hi (x ∷ xs) h r = (omega arith, r.1, r.2)

-- An event keeps the next id, unless it is an `open`, which may raise it by one.
next-run_handshake :
    (exts : List ExtensionEntry) (first : Result TransportError Bytes) (sent : Answer)
    (second : Result TransportError Bytes) (m : MuxInner)
    → (run_handshake exts first sent second m).1.next_stream_id ≡ m.next_stream_id
unfolding run_handshake establish
next-run_handshake exts first sent second m = ground arith

next-send_data :
    (id : ℕ) (payload : Bytes) (sent : Answer) (m : MuxInner)
    → (send_data id payload sent m).1.next_stream_id ≡ m.next_stream_id
unfolding send_data
next-send_data id payload sent m = elim (attempt_cases id m) [
  | inl (e, a) ↦ rw a
  | inr (inl (st, e, u, a)) ↦ rw a
  | inr (inr (inl (st, e, u, z, a))) ↦ rw a
  | inr (inr (inr (st, e, u, z, a))) ↦ rw a
]

next-handle :
    (type : _) (p : DecodedPacket) (m : MuxInner)
    → (handle type p m).1.next_stream_id ≡ m.next_stream_id
unfolding handle on_data on_continue on_close
next-handle type p m = ground arith

next-dispatch_inbound :
    (frame : Bytes) (m : MuxInner) → (dispatch_inbound frame m).1.next_stream_id ≡ m.next_stream_id
unfolding dispatch_inbound
next-dispatch_inbound frame m = elim (Result-cases (decode_packet_owned frame)) [
  | inl (p, e) ↦ rw (e, dispatch_inbound) (next-handle p.packet_type p m)
  | inr (x, e) ↦ rw (e, dispatch_inbound)
]

Rising-open :
    (host : Bytes) (port : ℕ) (t : StreamType) (tx notify : ℕ) (sent : Answer) (m : MuxInner)
    (r : Outcome StreamHandle) (xs : List ℕ)
    → Opening host port t tx notify sent m r
    → Rising r.1.next_stream_id u32_max xs
    → Rising m.next_stream_id u32_max (returned r.0 ++ xs)
Rising-open host port t tx notify sent m r xs (too_early up e) k = rw e (rw e at k)
Rising-open host port t tx notify sent m r xs (exhausted up last e) k = rw e (rw e at k)
Rising-open host port t tx notify (ok s) m r xs (registered credit up more new e) k =
    rw e (omega arith, more, rw e at k)
Rising-open host port t tx notify (err s) m r xs (registered credit up more new e) k =
    rw e (Rising-mono m.next_stream_id (m.next_stream_id + 1) u32_max xs (omega arith) (rw e at k))

-- In any history, with handshakes, traffic and closing in between, the ids that `open` returns rise
-- strictly from the next id on and stay below the largest u32: none is given out twice.
pub ids_given-Rising :
    (es : List Event) (m : MuxInner) → IsValid m → Rising m.next_stream_id u32_max (ids_given es m)
unfolding ids_given id_given step close_stream
ids_given-Rising [] m v = tt
ids_given-Rising (e ∷ es) m v = go e (ids_given-Rising es (step e m).0 (step-IsValid e m v))
  where
    kept :
        (m' : MuxInner)
        → m'.next_stream_id ≡ m.next_stream_id
        → Rising m'.next_stream_id u32_max (ids_given es m')
        → Rising m.next_stream_id u32_max (ids_given es m')
    kept m' same r = subst (λ n. Rising n u32_max (ids_given es m')) same r

    go :
        (e : Event)
        → Rising (step e m).0.next_stream_id u32_max (ids_given es (step e m).0)
        → Rising m.next_stream_id u32_max (id_given e m ++ ids_given es (step e m).0)
    go (handshakes exts first sent second) r =
        kept _ (next-run_handshake exts first sent second m) r
    go (opens host port t tx notify sent) r =
        Rising-open host port t tx notify sent m _ _
          (open_stream_outcome host port t tx notify sent m v) r
    go (sends j payload sent) r = kept _ (next-send_data j payload sent m) r
    go (closes j reason sent) r = kept _ refl r
    go (receives frame) r = kept _ (next-dispatch_inbound frame m) r
