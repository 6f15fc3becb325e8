-- ===== src/Wisp/Mux/Wakeup/Quiet.antt =====
-- wisp/mux.rs: histories in which no stored stream refers to a given `Notify`.
use unstable_drift.Prelude.{ℕ, ◌≡◌, ◌≢◌, inl, inr, List, [], ◌∷◌, ◌++◌, arith}
use unstable_drift.Prelude.{◌==◌, Result, Result-cases, Option-cases, Bool-cases}
use unstable_drift.Bytes.{Bytes}
use unstable_drift.Assoc.{get}
use unstable_drift.Transport.{TransportError}
use unstable_drift.Wisp.Types.{handshake_stream_id}
use unstable_drift.Wisp.Types.PacketType.{PacketType, connect, data_packet, continue, close, info}
use unstable_drift.Wisp.Types.StreamType.{StreamType}
use unstable_drift.Wisp.Frame.{ExtensionEntry, DecodedPacket, decode_packet_owned, decode_continue}
use unstable_drift.Wisp.Mux.{MuxInner, Call, Answer, transmit, deliver, notify_waiters}
use unstable_drift.Wisp.Mux.Handshake.{v1, v2, greeting, server_credit, run_handshake}
use unstable_drift.Wisp.Mux.Open.{open_stream, register}
use unstable_drift.Wisp.Mux.Inv.{IsValid, opened, reserve_valid, step-IsValid}
use unstable_drift.Wisp.Mux.Cases.{attempt_cases}
use unstable_drift.Wisp.Mux.Traffic.{
  send_data, close_stream, dispatch_inbound, handle, on_data, on_continue, on_close, refill, spend,
}
use unstable_drift.Wisp.Mux.History.{Event, handshakes, opens, sends, closes, receives, step, run}
use unstable_drift.Prelude.{some, ◌+◌}
use unstable_drift.Wisp.Mux.Handshake.{establish}
use unstable_drift.Wisp.Mux.{StreamState}
use unstable_drift.Assoc.{insert, remove, get-insert, get-remove}

abbrev pub Silent : ℕ → List Call → Type 0
Silent ref [] = Unit {0}
Silent ref (notify_waiters n ∷ calls) = (n ≢ ref) × Silent ref calls
Silent ref (transmit frame ∷ calls) = Silent ref calls
Silent ref (deliver tx b ∷ calls) = Silent ref calls

-- Each `open` makes a `Notify` of its own.
abbrev pub NotifiesOther : ℕ → Event → Type 0
NotifiesOther ref (opens host port type tx notify sent) = notify ≢ ref
NotifiesOther ref _ = Unit {0}

abbrev pub AllNotifyOther : ℕ → List Event → Type 0
AllNotifyOther ref [] = Unit {0}
AllNotifyOther ref (e ∷ es) = NotifiesOther ref e × AllNotifyOther ref es

abbrev pub IsFree : ℕ → MuxInner → Type 0
IsFree ref m = (k : ℕ) (st : StreamState) → get k m.streams ≡ some st → st.credit_notify ≢ ref

record Quiet (ref : ℕ) (m' : MuxInner) (calls : List Call) : Type 0 where
  free : IsFree ref m'
  silent : Silent ref calls

insert-IsFree :
    (ref k n : ℕ) (st : StreamState) (m : MuxInner)
    → st.credit_notify ≢ ref
    → IsFree ref m
    → IsFree ref (record m { next_stream_id = n; streams = insert k st m.streams })
insert-IsFree ref k n st m new f j s e h = ground (arith, get-insert k j st m.streams, f j s, new)

remove-IsFree :
    (ref k : ℕ) (m : MuxInner)
    → IsFree ref m
    → IsFree ref (record m { streams = remove k m.streams })
remove-IsFree ref k m f j s e h = ground (arith, get-remove k j m.streams, f j s)

module _ (ref : ℕ) (m : MuxInner) (v : IsValid m) (free : IsFree ref m) where
  run_handshake-Quiet :
      (exts : List ExtensionEntry) (first : Result TransportError Bytes) (sent : Answer)
      (second : Result TransportError Bytes)
      → let r = run_handshake exts first sent second m in Quiet ref r.1 r.2
  unfolding run_handshake establish
  run_handshake-Quiet exts first sent second = elim (Result-cases (greeting first)) [
    | inr (x, e) ↦ rw (e, run_handshake) (record { free = free; silent = tt })
    | inl (v1 c, e) ↦ rw (e, run_handshake) (record { free = free; silent = tt })
    | inl (v2, e) ↦
        rw (e, run_handshake)
          (elim (Result-cases sent) [
            | inr (x, s) ↦ rw (s, run_handshake) (record { free = free; silent = tt })
            | inl (x, s) ↦
                rw (s, run_handshake)
                  (elim (Result-cases (server_credit second)) [
                    | inr (y, c) ↦ rw (c, run_handshake) (record { free = free; silent = tt })
                    | inl (y, c) ↦ rw (c, run_handshake) (record { free = free; silent = tt })
                  ])
          ])
  ]

  open_stream-Quiet :
      (host : Bytes) (port : ℕ) (type : StreamType) (t notify : ℕ) (sent : Answer)
      → notify ≢ ref
      → let r = open_stream host port type t notify sent m in Quiet ref r.1 r.2
  unfolding open_stream register
  open_stream-Quiet host port type t notify sent new = elim (reserve_valid m v) [
    | inl (h, e) ↦ rw e (record { free = free; silent = tt })
    | inr (inl (up, h, e)) ↦ rw e (record { free = free; silent = tt })
    | inr (inr (up, h, e)) ↦ rw e (elim (Result-cases sent) [
      | inr (x, s) ↦ rw s (record { free = stored; silent = tt })
      | inl (x, s) ↦ rw s (record { free = stored; silent = tt })
    ])
  ]
    where
      stored : IsFree ref (record m {
        next_stream_id = m.next_stream_id + 1;
        streams = insert m.next_stream_id (opened type t notify m) m.streams;
      })
      stored =
          insert-IsFree ref m.next_stream_id (m.next_stream_id + 1) (opened type t notify m) m new
            free

  send_data-Quiet :
      (j : ℕ) (b : Bytes) (sent : Answer) → let r = send_data j b sent m in Quiet ref r.1 r.2
  unfolding send_data spend
  send_data-Quiet j b sent = elim (attempt_cases j m) [
    | inl (e, a) ↦ rw a (record { free = free; silent = tt })
    | inr (inl (st, e, u, a)) ↦ rw a (record { free = free; silent = tt })
    | inr (inr (inl (st, e, u, z, a))) ↦ rw a (record { free = free; silent = tt })
    | inr (inr (inr (st, e, u, z, a))) ↦ rw a (record {
      free = insert-IsFree ref j m.next_stream_id (spend st) m (free j st e) free;
      silent = tt;
    })
  ]

  on_continue-Quiet : (p : DecodedPacket) → let r = on_continue p m in Quiet ref r.1 r.2
  unfolding on_continue refill
  on_continue-Quiet p = elim (Bool-cases (p.stream_id == handshake_stream_id)) [
    | inl z ↦ rw (z, on_continue) (record { free = free; silent = tt })
    | inr z ↦ elim (Result-cases (decode_continue p.payload)) [
      | inr (x, d) ↦ rw (z, on_continue) (rw (d, on_continue) (record { free = free; silent = tt }))
      | inl (n, d) ↦ elim (Option-cases (get p.stream_id m.streams)) [
        | inl e ↦
            rw (z, on_continue) (rw (d, on_continue) (rw e (record { free = free; silent = tt })))
        | inr (st, e) ↦
            rw (z, on_continue)
              (rw (d, on_continue)
                (rw e (record {
                  free =
                      insert-IsFree ref p.stream_id m.next_stream_id (refill n st) m
                        (free p.stream_id st e) free;
                  silent = (free p.stream_id st e, tt);
                })))
      ]
    ]
  ]

  handle-Quiet :
      (type : PacketType) (p : DecodedPacket) → let r = handle type p m in Quiet ref r.1 r.2
  unfolding handle on_close on_data
  handle-Quiet connect p = record { free = free; silent = tt }
  handle-Quiet info p = record { free = free; silent = tt }
  handle-Quiet data_packet p = elim (Option-cases (get p.stream_id m.streams)) [
    | inl e ↦ rw (e, handle, on_data) (record { free = free; silent = tt })
    | inr (st, e) ↦ rw (e, handle, on_data) (record { free = free; silent = tt })
  ]
  handle-Quiet close p = elim (Option-cases (get p.stream_id m.streams)) [
    | inl e ↦
        rw (e, handle, on_close)
          (record { free = remove-IsFree ref p.stream_id m free; silent = tt })
    | inr (st, e) ↦
        rw (e, handle, on_close)
          (record {
            free = remove-IsFree ref p.stream_id m free;
            silent = (free p.stream_id st e, tt);
          })
  ]
  handle-Quiet continue p = on_continue-Quiet p

step-Quiet :
    (ref : ℕ) (e : Event) (m : MuxInner)
    → IsValid m
    → IsFree ref m
    → NotifiesOther ref e
    → Quiet ref (step e m).0 (step e m).1
unfolding step dispatch_inbound close_stream
step-Quiet ref (handshakes exts first sent second) m v f k =
    run_handshake-Quiet ref m v f exts first sent second
step-Quiet ref (opens host port type t notify sent) m v f k =
    open_stream-Quiet ref m v f host port type t notify sent k
step-Quiet ref (sends j b sent) m v f k = send_data-Quiet ref m v f j b sent
step-Quiet ref (closes j reason sent) m v f k = record {
  free = remove-IsFree ref j m f;
  silent = tt;
}
step-Quiet ref (receives frame) m v f k = elim (Result-cases (decode_packet_owned frame)) [
  | inl (p, e) ↦ rw (e, dispatch_inbound) (handle-Quiet ref m v f p.packet_type p)
  | inr (x, e) ↦ rw (e, dispatch_inbound) (record { free = f; silent = tt })
]

Silent-append :
    (ref : ℕ) (xs ys : List Call) → Silent ref xs → Silent ref ys → Silent ref (xs ++ ys)
Silent-append ref [] ys h k = k
Silent-append ref (transmit frame ∷ xs) ys h k = Silent-append ref xs ys h k
Silent-append ref (deliver tx b ∷ xs) ys h k = Silent-append ref xs ys h k
Silent-append ref (notify_waiters n ∷ xs) ys h k = (h.0, Silent-append ref xs ys h.1 k)

pub run-Silent :
    (ref : ℕ) (es : List Event) (m : MuxInner)
    → IsValid m
    → IsFree ref m
    → AllNotifyOther ref es
    → Silent ref (run es m).1
unfolding run
run-Silent ref [] m v f k = tt
run-Silent ref (e ∷ es) m v f k =
    let q = step-Quiet ref e m v f k.0 in
    Silent-append ref (step e m).1 (run es (step e m).0).1 q.silent
      (run-Silent ref es (step e m).0 (step-IsValid e m v) q.free k.1)
