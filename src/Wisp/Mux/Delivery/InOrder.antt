-- ===== src/Wisp/Mux/Delivery/InOrder.antt =====
-- Inbound data of wisp/mux.rs against what the peer sent for a stream.
use unstable_drift.Prelude.{ℕ, ◌≡◌, ◌≢◌, inl, inr, refl, ap, ◌∙◌, List, [], ◌∷◌, ◌++◌, none, arith}
use unstable_drift.Prelude.{◌==◌, Result, Result-cases, Option-cases, Bool-cases}
use unstable_drift.Bytes.{Bytes}
use unstable_drift.Assoc.{get}
use unstable_drift.Transport.{TransportError}
use unstable_drift.Wisp.Types.{handshake_stream_id}
use unstable_drift.Wisp.Types.PacketType.{PacketType, connect, data_packet, continue, close, info}
use unstable_drift.Wisp.Types.StreamType.{StreamType}
use unstable_drift.Wisp.Frame.{ExtensionEntry, DecodedPacket, decode_packet_owned, decode_continue}
use unstable_drift.Wisp.Mux.{MuxInner, Call, Answer, transmit, deliver, notify_waiters}
use unstable_drift.Wisp.Mux.Handshake.{v1, v2, greeting, server_credit, run_handshake}
use unstable_drift.Wisp.Mux.Open.{open_stream, register}
use unstable_drift.Wisp.Mux.Inv.{IsValid, opened, reserve_valid, step-IsValid}
use unstable_drift.Wisp.Mux.Cases.{attempt_cases}
use unstable_drift.Wisp.Mux.Traffic.{
  send_data, close_stream, dispatch_inbound, handle, on_data, on_continue, on_close, refill, spend,
}
use unstable_drift.Wisp.Mux.History.{Event, handshakes, opens, sends, closes, receives, step, run}
use unstable_drift.Wisp.Mux.Delivery.{
  delivered, Effect, payload, ends, nothing, effect, effect_of, incoming, queued, After, MakesOther,
  AllMakeOther, Owns, Open, Moves, same-Moves, establish-Moves, allot-Moves, put-Moves, drop-Moves,
}

delivered-append :
    (tx : ℕ) (xs ys : List Call) → delivered tx (xs ++ ys) ≡ delivered tx xs ++ delivered tx ys
unfolding delivered
delivered-append tx [] ys = refl
delivered-append tx (transmit frame ∷ xs) ys = delivered-append tx xs ys
delivered-append tx (deliver t b ∷ xs) ys = ground (arith, delivered-append tx xs ys)
delivered-append tx (notify_waiters n ∷ xs) ys = delivered-append tx xs ys

module _ (id tx : ℕ) (m : MuxInner) (v : IsValid m) (o : Owns id tx m) where
  run_handshake-Moves :
      (exts : List ExtensionEntry) (first : Result TransportError Bytes) (sent : Answer)
      (second : Result TransportError Bytes)
      → let r = run_handshake exts first sent second m in Moves id tx m nothing r.1 r.2
  unfolding run_handshake delivered
  run_handshake-Moves exts first sent second = elim (Result-cases (greeting first)) [
    | inr (x, e) ↦ rw (e, run_handshake) (same-Moves id tx m o [] refl)
    | inl (v1 c, e) ↦ rw (e, run_handshake) (establish-Moves id tx m o c [] refl)
    | inl (v2, e) ↦
        rw (e, run_handshake)
          (elim (Result-cases sent) [
            | inr (x, s) ↦ rw (s, run_handshake) (same-Moves id tx m o _ refl)
            | inl (x, s) ↦
                rw (s, run_handshake)
                  (elim (Result-cases (server_credit second)) [
                    | inr (y, c) ↦ rw (c, run_handshake) (same-Moves id tx m o _ refl)
                    | inl (y, c) ↦ rw (c, run_handshake) (establish-Moves id tx m o y _ refl)
                  ])
          ])
  ]

  open_stream-Moves :
      (host : Bytes) (port : ℕ) (type : StreamType) (t notify : ℕ) (sent : Answer)
      → t ≢ tx
      → let r = open_stream host port type t notify sent m in Moves id tx m nothing r.1 r.2
  unfolding open_stream register delivered
  open_stream-Moves host port type t notify sent new = elim (reserve_valid m v) [
    | inl (h, e) ↦ rw e (same-Moves id tx m o [] refl)
    | inr (inl (up, h, e)) ↦ rw e (same-Moves id tx m o [] refl)
    | inr (inr (up, h, e)) ↦ rw e (elim (Result-cases sent) [
      | inr (x, s) ↦ rw s (allot-Moves id tx m o (opened type t notify m) _ new refl)
      | inl (x, s) ↦ rw s (allot-Moves id tx m o (opened type t notify m) _ new refl)
    ])
  ]

  send_data-Moves :
      (j : ℕ) (b : Bytes) (sent : Answer)
      → let r = send_data j b sent m in Moves id tx m nothing r.1 r.2
  unfolding send_data delivered spend
  send_data-Moves j b sent = elim (attempt_cases j m) [
    | inl (e, a) ↦ rw a (same-Moves id tx m o [] refl)
    | inr (inl (st, e, u, a)) ↦ rw a (same-Moves id tx m o _ refl)
    | inr (inr (inl (st, e, u, z, a))) ↦ rw a (same-Moves id tx m o [] refl)
    | inr (inr (inr (st, e, u, z, a))) ↦ rw a (put-Moves id tx m o j st (spend st) _ e refl refl)
  ]

  on_data-Moves :
      (p : DecodedPacket) → let r = on_data p m in Moves id tx m (effect id p data_packet) r.1 r.2
  unfolding on_data effect delivered
  on_data-Moves p = elim (Option-cases (get p.stream_id m.streams)) [
    | inl e ↦
        rw (e, on_data)
          (elim (Bool-cases (p.stream_id == id)) [
            | inl y ↦ rw y (record {
              owns = o;
              after = (λ (s, g, h). absurd (ground (arith, e, g, y)), λ g. (g, refl));
            })
            | inr n ↦ rw n (same-Moves id tx m o [] refl)
          ])
    | inr (st, e) ↦
        rw (e, on_data)
          (elim (Bool-cases (p.stream_id == id)) [
            | inl y ↦ rw y (record {
              owns = o;
              after = (
                λ (s, g, h). ((s, g, h), ground (arith, e, g, y, h)),
                λ g. absurd (ground (arith, e, g, y)),
              );
            })
            | inr n ↦ rw n (same-Moves id tx m o _ (ground (arith, n, o.only p.stream_id st)))
          ])
  ]

  on_continue-Moves : (p : DecodedPacket) → let r = on_continue p m in Moves id tx m nothing r.1 r.2
  unfolding on_continue delivered refill
  on_continue-Moves p = elim (Bool-cases (p.stream_id == handshake_stream_id)) [
    | inl z ↦ rw (z, on_continue) (same-Moves id tx m o [] refl)
    | inr z ↦ elim (Result-cases (decode_continue p.payload)) [
      | inr (x, d) ↦ rw (z, on_continue) (rw (d, on_continue) (same-Moves id tx m o [] refl))
      | inl (n, d) ↦ elim (Option-cases (get p.stream_id m.streams)) [
        | inl e ↦ rw (z, on_continue) (rw (d, on_continue) (rw e (same-Moves id tx m o [] refl)))
        | inr (st, e) ↦
            rw (z, on_continue)
              (rw (d, on_continue)
                (rw e (put-Moves id tx m o p.stream_id st (refill n st) _ e refl refl)))
      ]
    ]
  ]

  handle-Moves :
      (type : PacketType) (p : DecodedPacket)
      → let r = handle type p m in Moves id tx m (effect id p type) r.1 r.2
  unfolding handle effect on_close delivered
  handle-Moves connect p = same-Moves id tx m o [] refl
  handle-Moves info p = same-Moves id tx m o [] refl
  handle-Moves data_packet p = on_data-Moves p
  handle-Moves close p = elim (Option-cases (get p.stream_id m.streams)) [
    | inl e ↦ rw (e, handle, on_close) (drop-Moves id tx m o p.stream_id _ refl)
    | inr (st, e) ↦ rw (e, handle, on_close) (drop-Moves id tx m o p.stream_id _ refl)
  ]
  handle-Moves continue p = on_continue-Moves p

step-Moves :
    (id tx : ℕ) (e : Event) (m : MuxInner)
    → IsValid m
    → Owns id tx m
    → MakesOther tx e
    → Moves id tx m (effect_of id e) (step e m).0 (step e m).1
unfolding step effect_of dispatch_inbound close_stream delivered
step-Moves id tx (handshakes exts first sent second) m v o k =
    run_handshake-Moves id tx m v o exts first sent second
step-Moves id tx (opens host port type t notify sent) m v o k =
    open_stream-Moves id tx m v o host port type t notify sent k
step-Moves id tx (sends j b sent) m v o k = send_data-Moves id tx m v o j b sent
step-Moves id tx (closes j reason sent) m v o k = drop-Moves id tx m o j _ refl
step-Moves id tx (receives frame) m v o k = elim (Result-cases (decode_packet_owned frame)) [
  | inl (p, e) ↦ rw (e, dispatch_inbound, effect_of) (handle-Moves id tx m v o p.packet_type p)
  | inr (x, e) ↦ rw (e, dispatch_inbound, effect_of) (same-Moves id tx m o [] refl)
]

module _ (id tx : ℕ) (m m' : MuxInner) (calls : List Call) where
  gone-After :
      (e : Effect)
      → After id tx m m' calls e
      → get id m.streams ≡ none
      → (get id m'.streams ≡ none) × (delivered tx calls ≡ [])
  gone-After (payload b) a g = a.1 g
  gone-After ends a g = a
  gone-After nothing a g = (a.1 g, a.2)

  Open-After :
      (e : Effect) (later rest : List Bytes)
      → After id tx m m' calls e
      → Open id tx m
      → (Open id tx m' → later ≡ rest)
      → (get id m'.streams ≡ none → later ≡ [])
      → delivered tx calls ++ later ≡ queued e rest
  Open-After (payload b) later rest a h kept gone =
      let (h', d) = a.0 h in rw d (ap (◌∷◌ b) (kept h'))
  Open-After ends later rest a h kept gone = rw a.1 (gone a.0)
  Open-After nothing later rest a h kept gone = rw a.2 (kept (a.0 h))

-- Nothing more reaches the channel of a stream that is gone.
gone_silent :
    (id tx : ℕ) (es : List Event) (m : MuxInner)
    → IsValid m
    → Owns id tx m
    → AllMakeOther tx es
    → get id m.streams ≡ none
    → delivered tx (run es m).1 ≡ []
unfolding run delivered
gone_silent id tx [] m v o k g = refl
gone_silent id tx (e ∷ es) m v o k g =
    let s = step-Moves id tx e m v o k.0 in
    let (g', d) = gone-After id tx m (step e m).0 (step e m).1 (effect_of id e) s.after g in
    delivered-append tx (step e m).1 (run es (step e m).0).1
    ∙ rw d (gone_silent id tx es (step e m).0 (step-IsValid e m v) s.owns k.1 g')

-- In any history, the payloads put into the channel of an open stream are those of the DATA packets
-- that the peer sent for it before the first CLOSE of the stream from either side: all of them, in
-- order, and no other. Malformed frames and the traffic of other streams do not matter; every other
-- `open` in the history makes a channel of its own.
pub delivered_in_order :
    (id tx : ℕ) (es : List Event) (m : MuxInner)
    → IsValid m
    → Owns id tx m
    → Open id tx m
    → AllMakeOther tx es
    → delivered tx (run es m).1 ≡ incoming id es
unfolding run delivered incoming
delivered_in_order id tx [] m v o h k = refl
delivered_in_order id tx (e ∷ es) m v o h k =
    let s = step-Moves id tx e m v o k.0 in
    let v' = step-IsValid e m v in
    delivered-append tx (step e m).1 (run es (step e m).0).1
    ∙ Open-After id tx m (step e m).0 (step e m).1 (effect_of id e) _ (incoming id es) s.after h
        (λ h'. delivered_in_order id tx es (step e m).0 v' s.owns h' k.1)
        (λ g. gone_silent id tx es (step e m).0 v' s.owns k.1 g)
