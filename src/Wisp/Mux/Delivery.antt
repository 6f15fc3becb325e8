-- ===== src/Wisp/Mux/Delivery.antt =====
-- Inbound data: what reaches the channel of a stream, in any history.
pub mod InOrder
use unstable_drift.Prelude.{
  ℕ, ◌+◌, ◌<◌, ◌≡◌, ◌≢◌, inl, inr, refl, ap, true, false, Bool, List, [], ◌∷◌, ◌++◌, none, some, ok,
  err, arith,
}
use unstable_drift.Prelude.{◌==◌, if◌then◌else◌, Result, Result-cases, Option-cases, Bool-cases}
use unstable_drift.Bytes.{Bytes, u32_max}
use unstable_drift.Assoc.{get, insert, remove, get-insert, get-remove}
use unstable_drift.Transport.{TransportError}
use unstable_drift.Wisp.Types.{handshake_stream_id}
use unstable_drift.Wisp.Types.PacketType.{PacketType, connect, data_packet, continue, close, info}
use unstable_drift.Wisp.Types.StreamType.{StreamType}
use unstable_drift.Wisp.Types.CloseReason.{CloseReason}
use unstable_drift.Wisp.Frame.{ExtensionEntry, DecodedPacket, decode_packet_owned, decode_continue}
use unstable_drift.Wisp.Mux.{StreamState, MuxInner, Call, Answer, transmit, deliver, notify_waiters}
use unstable_drift.Wisp.Mux.Handshake.{v1, v2, greeting, server_credit, run_handshake, establish}
use unstable_drift.Wisp.Mux.Open.{open_stream, open_reserved, register}
use unstable_drift.Wisp.Mux.Inv.{IsValid, opened, reserve_valid, step-IsValid}
use unstable_drift.Wisp.Mux.Cases.{attempt_cases}
use unstable_drift.Wisp.Mux.Traffic.{
  send_data, close_stream, dispatch_inbound, handle, on_data, on_continue, on_close, refill, spend,
}
use unstable_drift.Wisp.Mux.History.{Event, handshakes, opens, sends, closes, receives, step, run}

-- The payloads put into channel `tx`, in order.
pub delivered : ℕ → List Call → List Bytes
delivered tx [] = []
delivered tx (transmit frame ∷ calls) = delivered tx calls
delivered tx (deliver t payload ∷ calls) =
    let rest = delivered tx calls in if t == tx then payload ∷ rest else rest
delivered tx (notify_waiters n ∷ calls) = delivered tx calls

-- What a packet from the peer does to stream `id`.
pub data Effect : Type 0 where
  payload : Bytes → Effect
  ends : Effect
  nothing : Effect

pub effect : ℕ → DecodedPacket → PacketType → Effect
effect id p data_packet = if p.stream_id == id then payload p.payload else nothing
effect id p close = if p.stream_id == id then ends else nothing
effect id p _ = nothing

pub effect_of : ℕ → Event → Effect
unfolding effect
effect_of id (receives frame) = elim (decode_packet_owned frame) [
  | err e ↦ nothing
  | ok p ↦ effect id p p.packet_type
]
effect_of id (closes j reason sent) = if j == id then ends else nothing
effect_of id _ = nothing

abbrev pub queued : Effect → List Bytes → List Bytes
queued (payload b) rest = b ∷ rest
queued ends rest = []
queued nothing rest = rest

-- The payloads of the DATA packets for stream `id` up to the first CLOSE, from either side.
pub incoming : ℕ → List Event → List Bytes
incoming id [] = []
incoming id (e ∷ es) = let rest = incoming id es in queued (effect_of id e) rest

-- Each `open` makes a channel of its own.
abbrev pub MakesOther : ℕ → Event → Type 0
MakesOther tx (opens host port type t notify sent) = t ≢ tx
MakesOther tx _ = Unit {0}

abbrev pub AllMakeOther : ℕ → List Event → Type 0
AllMakeOther tx [] = Unit {0}
AllMakeOther tx (e ∷ es) = MakesOther tx e × AllMakeOther tx es

-- Channel `tx` belongs to no stream but `id`, which has been given out.
pub record Owns (id tx : ℕ) (m : MuxInner) : Type 0 where
  pub allotted : id < m.next_stream_id
  pub only : (k : ℕ) (st : StreamState) → get k m.streams ≡ some st → st.inbound_tx ≡ tx → k ≡ id

-- Stream `id` is open, and `tx` is its channel.
abbrev pub Open : ℕ → ℕ → MuxInner → Type 0
Open id tx m = (st : StreamState) × (get id m.streams ≡ some st) × (st.inbound_tx ≡ tx)

-- After an effect: a stream stays open unless the effect ends it, and one that is gone stays gone.
abbrev pub After : ℕ → ℕ → MuxInner → MuxInner → List Call → Effect → Type 0
After id tx m m' calls (payload b) =
    (Open id tx m → Open id tx m' × (delivered tx calls ≡ b ∷ []))
    × (get id m.streams ≡ none → (get id m'.streams ≡ none) × (delivered tx calls ≡ []))
After id tx m m' calls ends = (get id m'.streams ≡ none) × (delivered tx calls ≡ [])
After id tx m m' calls nothing =
    (Open id tx m → Open id tx m')
    × (get id m.streams ≡ none → get id m'.streams ≡ none)
    × (delivered tx calls ≡ [])

pub record Moves (id tx : ℕ) (m : MuxInner) (effect : Effect) (m' : MuxInner) (calls : List Call)
    : Type 0 where
  pub owns : Owns id tx m'
  pub after : After id tx m m' calls effect

module _ (id tx : ℕ) (m : MuxInner) (o : Owns id tx m) where
  same-Moves : (calls : List Call) → delivered tx calls ≡ [] → Moves id tx m nothing m calls
  same-Moves calls e = record { owns = o; after = (λ h. h, λ h. h, e) }

  establish-Moves :
      (c : ℕ) (calls : List Call)
      → delivered tx calls ≡ []
      → Moves id tx m nothing (establish c m) calls
  unfolding establish
  establish-Moves c calls e = record {
    owns = record { allotted = o.allotted; only = o.only };
    after = (λ h. h, λ h. h, e);
  }

  allot-Moves :
      (st : StreamState) (calls : List Call)
      → st.inbound_tx ≢ tx
      → delivered tx calls ≡ []
      → Moves id tx m nothing
          (record m {
            next_stream_id = m.next_stream_id + 1;
            streams = insert m.next_stream_id st m.streams;
          })
          calls
  allot-Moves st calls new e = record {
    owns = record {
      allotted = omega (arith, o.allotted);
      only = λ k s g h. ground (arith, get-insert m.next_stream_id k st m.streams, o.only k s, new);
    };
    after = (
      λ (s, g, h). (s, ground (arith, o.allotted, get-insert m.next_stream_id id st m.streams), h),
      λ g. ground (arith, o.allotted, get-insert m.next_stream_id id st m.streams),
      e,
    );
  }

  put-Moves :
      (k : ℕ) (old st : StreamState) (calls : List Call)
      → get k m.streams ≡ some old
      → st.inbound_tx ≡ old.inbound_tx
      → delivered tx calls ≡ []
      → Moves id tx m nothing (record m { streams = insert k st m.streams }) calls
  put-Moves k old st calls e same d = record {
    owns = record {
      allotted = o.allotted;
      only = λ j s g h. ground (arith, get-insert k j st m.streams, o.only j s, o.only k old);
    };
    after = (
      λ (s, g, h). elim (Bool-cases (k == id)) [
        | inl y ↦ (st, ground (arith, get-insert k id st m.streams), ground arith)
        | inr n ↦ (s, ground (arith, get-insert k id st m.streams), h)
      ],
      λ g. ground (arith, get-insert k id st m.streams),
      d,
    );
  }

  drop-Moves :
      (k : ℕ) (calls : List Call)
      → delivered tx calls ≡ []
      → Moves id tx m
          (if k == id then ends else nothing)
          (record m { streams = remove k m.streams })
          calls
  drop-Moves k calls d = record {
    owns = record {
      allotted = o.allotted;
      only = λ j s g h. ground (arith, get-remove k j m.streams, o.only j s);
    };
    after = elim (Bool-cases (k == id)) [
      | inl y ↦ rw y (ground (arith, get-remove k id m.streams), d)
      | inr n ↦ rw n (
        λ (s, g, h). (s, ground (arith, get-remove k id m.streams), h),
        λ g. ground (arith, get-remove k id m.streams),
        d,
      )
    ];
  }
