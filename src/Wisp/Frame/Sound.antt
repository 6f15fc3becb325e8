-- ===== src/Wisp/Frame/Sound.antt =====
-- The decoders of wisp/frame.rs on any input.
use unstable_drift.Prelude.{ℕ, zero, suc, ◌≤◌, ◌≡◌, refl, true, false, arith}
use unstable_drift.Prelude.{List, [], ◌∷◌, length, take, drop, ok, err, ltb, ◌⊎◌, inl, inr, none}
use unstable_drift.Prelude.{take-append-drop, length-take, Bool-cases, Option-cases, Result-cases}
use unstable_drift.Bytes.{Bytes, IsU32, AreBytes, u32_of_le}
use unstable_drift.Bytes.Laws.{u16_le-u16_of_le, u32_le-u32_of_le, u32_of_le-IsU32}
use unstable_drift.Bytes.Utf8.{is_utf8, from_utf8}
use unstable_drift.Wisp.Types.PacketType
use unstable_drift.Wisp.Types.PacketType.{PacketType}
use unstable_drift.Wisp.Types.Codes.{PacketType-as_u8_of_from_u8, StreamType-as_u8_of_from_u8}
use unstable_drift.Wisp.Frame.{
  header_len, encode_packet, encode_connect, ExtensionEntry, clamp_len, encode_extensions,
  DecodeError, DecodedPacket, DecodedConnect, DecodedInfo, decode_packet, decode_packet_owned,
  decode_connect, decode_extensions, decode_info, too_short, unknown_packet_type,
}

-- The borrowing and the owning decoder agree on every buffer.
pub decode_packet_owned_eq : (buf : Bytes) → decode_packet_owned buf ≡ decode_packet buf
unfolding decode_packet decode_packet_owned
decode_packet_owned_eq [] = refl
decode_packet_owned_eq (a ∷ []) = refl
decode_packet_owned_eq (a ∷ b ∷ []) = refl
decode_packet_owned_eq (a ∷ b ∷ c ∷ []) = refl
decode_packet_owned_eq (a ∷ b ∷ c ∷ d ∷ []) = refl
decode_packet_owned_eq (a ∷ b ∷ c ∷ d ∷ e ∷ rest) = refl

packet_sound :
    (buf : Bytes) (p : DecodedPacket)
    → AreBytes buf
    → decode_packet buf ≡ ok p
    → (encode_packet p.packet_type p.stream_id p.payload ≡ buf) × IsU32 p.stream_id
unfolding decode_packet encode_packet
packet_sound [] p h e = cc
packet_sound (a ∷ []) p h e = cc
packet_sound (a ∷ b ∷ []) p h e = cc
packet_sound (a ∷ b ∷ c ∷ []) p h e = cc
packet_sound (a ∷ b ∷ c ∷ d ∷ []) p h e = cc
packet_sound (t ∷ i ∷ j ∷ k ∷ l ∷ rest) p (ht, (hi, (hj, (hk, (hl, hr))))) e = ground (
  arith,
  PacketType-as_u8_of_from_u8 t p.packet_type,
  u32_le-u32_of_le i j k l hi hj hk hl,
  u32_of_le-IsU32 i j k l hi hj hk hl,
)

-- The buffers that `decode_packet` refuses, and what it says of each.
abbrev pub PacketFault : Bytes → DecodeError → Type 0
PacketFault (t ∷ i ∷ j ∷ k ∷ l ∷ rest) e =
    (PacketType.from_u8 t ≡ none) × (e ≡ unknown_packet_type t)
PacketFault buf e = e ≡ too_short (length buf) header_len

packet_fault :
    (buf : Bytes)
    → ((p : DecodedPacket) × (decode_packet buf ≡ ok p))
      ⊎ ((e : DecodeError) × (decode_packet buf ≡ err e) × PacketFault buf e)
unfolding decode_packet
packet_fault [] = inr (_, refl, refl)
packet_fault (a ∷ []) = inr (_, refl, refl)
packet_fault (a ∷ b ∷ []) = inr (_, refl, refl)
packet_fault (a ∷ b ∷ c ∷ []) = inr (_, refl, refl)
packet_fault (a ∷ b ∷ c ∷ d ∷ []) = inr (_, refl, refl)
packet_fault (t ∷ i ∷ j ∷ k ∷ l ∷ rest) = elim (Option-cases (PacketType.from_u8 t)) [
  | inl e ↦ inr (_, rw (e, decode_packet), (e, refl))
  | inr (p, e) ↦ inl (
    record { packet_type = p; stream_id = u32_of_le i j k l; payload = rest },
    rw (e, decode_packet),
  )
]

-- A buffer of bytes either is a packet, of which it is the only encoding and whose id fits an u32,
-- or is refused, and then it is shorter than the header or its first byte is no packet type.
pub decode_packet_exact :
    (buf : Bytes)
    → AreBytes buf
    → ((p : DecodedPacket) × (decode_packet buf ≡ ok p)
        × (encode_packet p.packet_type p.stream_id p.payload ≡ buf)
        × IsU32 p.stream_id)
      ⊎ ((e : DecodeError) × (decode_packet buf ≡ err e) × PacketFault buf e)
decode_packet_exact buf h = elim (packet_fault buf) [
  | inl (p, e) ↦ let (back, fits) = packet_sound buf p h e in inl (p, e, back, fits)
  | inr f ↦ inr f
]

-- A payload of bytes that `decode_connect` accepts is the CONNECT payload of what it returns, and
-- the hostname is UTF-8.
pub decode_connect_sound :
    (payload : Bytes) (c : DecodedConnect)
    → AreBytes payload
    → decode_connect payload ≡ ok c
    → (encode_connect c.stream_type c.port c.hostname ≡ payload) × (is_utf8 c.hostname ≡ true)
unfolding decode_connect encode_connect from_utf8
decode_connect_sound [] c h e = cc
decode_connect_sound (a ∷ []) c h e = cc
decode_connect_sound (a ∷ b ∷ []) c h e = cc
decode_connect_sound (t ∷ i ∷ j ∷ rest) c (ht, (hi, (hj, hr))) e =
    ground (arith, StreamType-as_u8_of_from_u8 t c.stream_type, u16_le-u16_of_le i j hi hj)

clamp_len-length-take :
    (len : ℕ) (rest : Bytes)
    → IsU32 len
    → ltb (length rest) len ≡ false
    → clamp_len (length (take len rest)) ≡ len
unfolding clamp_len
clamp_len-length-take len rest fits enough = ground (arith, length-take len rest)

decode_extensions_sound :
    (bs : Bytes) (skip : ℕ) (exts : List ExtensionEntry)
    → AreBytes bs
    → skip ≤ length bs
    → decode_extensions bs skip ≡ ok exts
    → encode_extensions exts ≡ drop skip bs
unfolding decode_extensions encode_extensions
decode_extensions_sound [] zero exts h s e = ground arith
decode_extensions_sound [] (suc skip) exts h s e = absurd (omega arith)
decode_extensions_sound (b ∷ bs) (suc skip) exts h s e =
    decode_extensions_sound bs skip exts h.1 (omega arith) e
decode_extensions_sound (a ∷ []) zero exts h s e = cc
decode_extensions_sound (a ∷ b ∷ []) zero exts h s e = cc
decode_extensions_sound (a ∷ b ∷ c ∷ []) zero exts h s e = cc
decode_extensions_sound (a ∷ b ∷ c ∷ d ∷ []) zero exts h s e = cc
decode_extensions_sound (id ∷ i ∷ j ∷ k ∷ l ∷ rest) zero exts (hid, (hi, (hj, (hk, (hl, hr))))) s
      e =
    elim (Bool-cases (ltb (length rest) len)) [
      | inl short ↦ cc (rw short at e)
      | inr enough ↦ elim (Result-cases (decode_extensions rest len)) [
        | inr (x, bad) ↦ cc (rw (enough, bad) at e)
        | inl (more, good) ↦
            let back = decode_extensions_sound rest len more hr (ground (arith, enough)) good in
            ground (
              arith,
              good,
              enough,
              back,
              clamp_len-length-take len rest (u32_of_le-IsU32 i j k l hi hj hk hl),
              u32_le-u32_of_le i j k l hi hj hk hl,
              take-append-drop len rest,
            )
      ]
    ]
  where
    len : ℕ
    len = u32_of_le i j k l

-- An INFO payload of bytes that `decode_info` accepts holds its two version bytes and then just the
-- encoding of the extensions that it returns.
pub decode_info_sound :
    (payload : Bytes) (d : DecodedInfo)
    → AreBytes payload
    → decode_info payload ≡ ok d
    → d.major ∷ d.minor ∷ encode_extensions d.extensions ≡ payload
unfolding decode_info
decode_info_sound [] d h e = cc
decode_info_sound (a ∷ []) d h e = cc
decode_info_sound (a ∷ b ∷ rest) d (ha, (hb, hr)) e =
    elim (Result-cases (decode_extensions rest 0)) [
      | inr (x, bad) ↦ cc (rw bad at e)
      | inl (more, good) ↦ ground (arith, decode_extensions_sound rest 0 more hr (omega arith) good)
    ]
