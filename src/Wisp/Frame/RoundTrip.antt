-- ===== src/Wisp/Frame/RoundTrip.antt =====
-- The decoders of wisp/frame.rs on what its encoders write.
use unstable_drift.Prelude.{ℕ, ◌≡◌, refl, true, arith}
use unstable_drift.Prelude.{List, [], ◌∷◌, ◌++◌, length, All, ok}
use unstable_drift.Prelude.{length-append, take-length, le→ltb}
use unstable_drift.Bytes.{Bytes, IsU16, IsU32}
use unstable_drift.Bytes.Laws.{u16_of_le-u16_le, u32_of_le-u32_le}
use unstable_drift.Bytes.Utf8.{is_utf8, from_utf8}
use unstable_drift.Wisp.Types.{wisp_major, wisp_minor}
use unstable_drift.Wisp.Types.PacketType.{PacketType}
use unstable_drift.Wisp.Types.StreamType.{StreamType}
use unstable_drift.Wisp.Types.CloseReason.{CloseReason}
use unstable_drift.Wisp.Types.Codes.{
  PacketType-from_u8-as_u8, StreamType-from_u8-as_u8, CloseReason-from_u8-as_u8, IsCanonical,
}
use unstable_drift.Wisp.Frame.{
  encode_packet, encode_packet_to_vec, encode_connect, encode_continue, encode_close,
  ExtensionEntry, clamp_len, encode_extensions, encode_info, DecodedPacket, decode_packet,
  decode_packet_owned, decode_connect, decode_continue, decode_close, decode_extensions,
  decode_info,
}

-- Whatever payload a packet carries, both decoders give back the type, the stream id and the
-- payload that either encoder was given, for every id that fits an u32.
pub packet_round_trip :
    (t : PacketType) (id : ℕ) (payload : Bytes)
    → IsU32 id
    → let packet : DecodedPacket = record { packet_type = t; stream_id = id; payload = payload } in
      (decode_packet (encode_packet t id payload) ≡ ok packet)
      × (decode_packet (encode_packet_to_vec t id payload) ≡ ok packet)
      × (decode_packet_owned (encode_packet t id payload) ≡ ok packet)
      × (decode_packet_owned (encode_packet_to_vec t id payload) ≡ ok packet)
unfolding encode_packet encode_packet_to_vec decode_packet decode_packet_owned
packet_round_trip t id payload h =
    rw (PacketType-from_u8-as_u8 t, u32_of_le-u32_le id h) (refl, refl, refl, refl)

-- A CONNECT payload gives back its stream type, port and hostname, for a hostname in UTF-8.
pub connect_round_trip :
    (t : StreamType) (port : ℕ) (hostname : Bytes)
    → IsU16 port
    → is_utf8 hostname ≡ true
    → decode_connect (encode_connect t port hostname)
      ≡ ok (record { stream_type = t; port = port; hostname = hostname })
unfolding encode_connect decode_connect from_utf8
connect_round_trip t port hostname h u = rw (StreamType-from_u8-as_u8 t, u16_of_le-u16_le port h, u)

pub continue_round_trip : (n : ℕ) → IsU32 n → decode_continue (encode_continue n) ≡ ok n
unfolding encode_continue decode_continue
continue_round_trip n h = rw (u32_of_le-u32_le n h)

pub close_round_trip : (r : CloseReason) → IsCanonical r → decode_close (encode_close r) ≡ ok r
unfolding encode_close decode_close
close_round_trip r h = rw (CloseReason-from_u8-as_u8 r h)

abbrev pub FitsU32 : ExtensionEntry → Type 0
FitsU32 ext = IsU32 (length ext.metadata)

clamp_len-IsU32 : (n : ℕ) → IsU32 n → clamp_len n ≡ n
unfolding clamp_len
clamp_len-IsU32 n h = ground arith

pub decode_extensions_skip :
    (xs ys : Bytes) → decode_extensions (xs ++ ys) (length xs) ≡ decode_extensions ys 0
unfolding decode_extensions
decode_extensions_skip [] ys = refl
decode_extensions_skip (x ∷ xs) ys = decode_extensions_skip xs ys

decode_extensions-encode_extensions :
    (exts : List ExtensionEntry)
    → All FitsU32 exts
    → decode_extensions (encode_extensions exts) 0 ≡ ok exts
unfolding encode_extensions decode_extensions
decode_extensions-encode_extensions [] h = refl
decode_extensions-encode_extensions (ext ∷ exts) (h, hs) =
    let bytes = ext.metadata in
    rw (
      clamp_len-IsU32 (length bytes) h,
      u32_of_le-u32_le (length bytes) h,
      le→ltb (length (bytes ++ encode_extensions exts)) (length bytes)
          (omega (arith, length-append bytes (encode_extensions exts))),
      decode_extensions_skip bytes (encode_extensions exts),
      decode_extensions-encode_extensions exts hs,
      take-length bytes (encode_extensions exts),
    )

-- An INFO payload gives back the protocol version and every extension, in order, if each
-- extension's metadata is shorter than 4 GiB.
pub info_round_trip :
    (exts : List ExtensionEntry)
    → All FitsU32 exts
    → decode_info (encode_info exts)
      ≡ ok (record { major = wisp_major; minor = wisp_minor; extensions = exts })
unfolding encode_info decode_info
info_round_trip exts h = rw (decode_extensions-encode_extensions exts h)
