-- ===== src/Wisp/Mux/Inv.antt =====
-- The ids in use: each lies between 1 and the next id to be given out, which fits an u32.
use unstable_drift.Prelude.{
  ◌≢◌, ℕ, ◌+◌, ◌≤◌, ◌<◌, ◌≡◌, List, [], ◌∷◌, some, ok, err, arith, Option-cases, Result,
  Result-cases, inl, inr, ◌⊎◌,
}
use unstable_drift.Bytes.{Bytes, u32_max}
use unstable_drift.Assoc.{get, insert, remove, get-insert, get-remove}
use unstable_drift.Wisp.Types.PacketType.{PacketType, connect, data_packet, continue, close, info}
use unstable_drift.Wisp.Types.StreamType.{StreamType}
use unstable_drift.Transport.{TransportError}
use unstable_drift.Wisp.Frame.{ExtensionEntry, DecodedPacket, decode_packet_owned, decode_continue}
use unstable_drift.Wisp.Mux.{
  established, Answer, MuxError, open_before_handshake, stream_id_exhausted, StreamState, MuxInner,
  new,
}
use unstable_drift.Wisp.Mux.Cases.{attempt_cases}
use unstable_drift.Wisp.Mux.Handshake.{run_handshake}
use unstable_drift.Wisp.Mux.Open.{is_established, open_stream, reserve, register, opening_credit}
use unstable_drift.Wisp.Mux.Traffic.{
  send_data, close_stream, dispatch_inbound, handle, spend, on_data, on_continue, on_close, refill,
}
use unstable_drift.Wisp.Mux.History.{Event, handshakes, opens, sends, closes, receives, step, run}

abbrev pub Below : ℕ → List (ℕ × StreamState) → Type 0
Below n m = (id : ℕ) (st : StreamState) → get id m ≡ some st → (1 ≤ id) × (id < n)

pub record IsValid (m : MuxInner) : Type 0 where
  pub next_pos : 1 ≤ m.next_stream_id
  pub next_fits : m.next_stream_id ≤ u32_max
  pub ids : Below m.next_stream_id m.streams

pub insert-Below :
    (n k : ℕ) (v : StreamState) (m : List (ℕ × StreamState))
    → 1 ≤ k
    → k < n
    → Below n m
    → Below n (insert k v m)
insert-Below n k v m lo hi b j st e = ground (arith, get-insert k j v m, b j st)

pub remove-Below : (n k : ℕ) (m : List (ℕ × StreamState)) → Below n m → Below n (remove k m)
remove-Below n k m b j st e = ground (arith, get-remove k j m, b j st)

pub Below-suc : (n : ℕ) (m : List (ℕ × StreamState)) → Below n m → Below (n + 1) m
Below-suc n m b j st e = omega (arith, b j st e)

-- The three changes that the operations make.
pub put-IsValid :
    (m : MuxInner) (k : ℕ) (old st : StreamState)
    → get k m.streams ≡ some old
    → IsValid m
    → IsValid (record m { streams = insert k st m.streams })
put-IsValid m k old st e v = record {
  next_pos = v.next_pos;
  next_fits = v.next_fits;
  ids = insert-Below m.next_stream_id k st m.streams (v.ids k old e).0 (v.ids k old e).1 v.ids;
}

pub drop-IsValid :
    (m : MuxInner) (k : ℕ) → IsValid m → IsValid (record m { streams = remove k m.streams })
drop-IsValid m k v = record {
  next_pos = v.next_pos;
  next_fits = v.next_fits;
  ids = remove-Below m.next_stream_id k m.streams v.ids;
}

pub allot-IsValid :
    (m : MuxInner) (st : StreamState)
    → m.next_stream_id < u32_max
    → IsValid m
    → IsValid (record m {
      next_stream_id = m.next_stream_id + 1;
      streams = insert m.next_stream_id st m.streams;
    })
allot-IsValid m st h v = record {
  next_pos = omega arith;
  next_fits = omega arith;
  ids =
      insert-Below (m.next_stream_id + 1) m.next_stream_id st m.streams v.next_pos (omega arith)
        (Below-suc m.next_stream_id m.streams v.ids);
}

run_handshake-IsValid :
    (exts : List ExtensionEntry) (first : Result TransportError Bytes) (sent : Answer)
    (second : Result TransportError Bytes) (m : MuxInner)
    → IsValid m
    → IsValid (run_handshake exts first sent second m).1
unfolding run_handshake
run_handshake-IsValid exts first sent second m v = ground arith

-- What `open_stream` stores for a stream.
abbrev pub opened : StreamType → ℕ → ℕ → MuxInner → StreamState
opened t tx notify m = record {
  stream_type = t;
  credit = opening_credit t m.initial_credit;
  inbound_tx = tx;
  credit_notify = notify;
}

pub reserve_valid :
    (m : MuxInner)
    → IsValid m
    → ((m.handshake ≢ established)
        × (reserve m ≡ (err (MuxError.handshake open_before_handshake), m)))
      ⊎ ((m.handshake ≡ established)
          × (m.next_stream_id ≡ u32_max)
          × (reserve m ≡ (err stream_id_exhausted, m)))
      ⊎ ((m.handshake ≡ established)
          × (m.next_stream_id < u32_max)
          × (reserve m ≡ (
            ok (m.next_stream_id, m.initial_credit),
            record m { next_stream_id = m.next_stream_id + 1 },
          )))
unfolding reserve is_established
reserve_valid m v = ground arith

open_stream-IsValid :
    (host : Bytes) (port : ℕ) (t : StreamType) (tx notify : ℕ) (sent : Answer) (m : MuxInner)
    → IsValid m
    → IsValid (open_stream host port t tx notify sent m).1
unfolding open_stream register
open_stream-IsValid host port t tx notify sent m v = elim (reserve_valid m v) [
  | inl (h, e) ↦ rw e v
  | inr (inl (up, h, e)) ↦ rw e v
  | inr (inr (up, h, e)) ↦ rw e (ground (arith, allot-IsValid m (opened t tx notify m) h v))
]

send_data-IsValid :
    (id : ℕ) (payload : Bytes) (sent : Answer) (m : MuxInner)
    → IsValid m
    → IsValid (send_data id payload sent m).1
unfolding send_data
send_data-IsValid id payload sent m v = elim (attempt_cases id m) [
  | inl (e, a) ↦ rw a v
  | inr (inl (st, e, u, a)) ↦ rw a v
  | inr (inr (inl (st, e, u, z, a))) ↦ rw a v
  | inr (inr (inr (st, e, u, z, a))) ↦ rw a (put-IsValid m id st (spend st) e v)
]

handle-IsValid :
    (t : PacketType) (p : DecodedPacket) (m : MuxInner) → IsValid m → IsValid (handle t p m).1
unfolding handle on_data on_continue on_close
handle-IsValid data_packet p m v = ground arith
handle-IsValid continue p m v = elim (Option-cases (get p.stream_id m.streams)) [
  | inl e ↦ ground arith
  | inr (st, e) ↦ elim (Result-cases (decode_continue p.payload)) [
    | inl (n, d) ↦ ground (arith, put-IsValid m p.stream_id st (refill n st) e v)
    | inr (x, d) ↦ ground arith
  ]
]
handle-IsValid close p m v = ground (arith, drop-IsValid m p.stream_id v)
handle-IsValid info p m v = v
handle-IsValid connect p m v = v

pub step-IsValid : (e : Event) (m : MuxInner) → IsValid m → IsValid (step e m).0
unfolding step
step-IsValid (handshakes exts first sent second) m v =
    run_handshake-IsValid exts first sent second m v
step-IsValid (opens host port t tx notify sent) m v =
    open_stream-IsValid host port t tx notify sent m v
step-IsValid (sends id payload sent) m v = send_data-IsValid id payload sent m v
step-IsValid (closes id reason sent) m v = unfold close_stream in drop-IsValid m id v
step-IsValid (receives frame) m v =
    unfold dispatch_inbound in
    elim (Result-cases (decode_packet_owned frame)) [
      | inl (p, d) ↦ rw (d, dispatch_inbound) (handle-IsValid p.packet_type p m v)
      | inr (x, d) ↦ rw (d, dispatch_inbound) v
    ]

-- In any history from a valid state (in particular a new mux), with any answers of the transport and
-- any frames from the peer, the state stays valid: the next id is at least 1 and fits an u32, and
-- every stream stored has an id from 1 on below the next id.
pub run-IsValid : (es : List Event) (m : MuxInner) → IsValid m → IsValid (run es m).0
unfolding run
run-IsValid [] m v = v
run-IsValid (e ∷ es) m v = run-IsValid es (step e m).0 (step-IsValid e m v)

new-IsValid : IsValid new
unfolding new get
new-IsValid = record { next_pos = omega arith; next_fits = omega arith; ids = λ id st e. cc }
