-- ===== src/Wisp/Examples/Frames.antt =====
-- Packets: the theorems on wisp/frame.rs and wisp/types.rs at concrete inputs, and tests.
use unstable_drift.Prelude.{◌≡◌, ◌⊎◌, refl, true, List, [], ◌∷◌, ok, err, arith}
use unstable_drift.Bytes.{Bytes, IsU32}
use unstable_drift.Bytes.Utf8.{is_utf8}
use unstable_drift.Wisp.Types.PacketType
use unstable_drift.Wisp.Types.PacketType.{PacketType, connect, data_packet, continue, close, info}
use unstable_drift.Wisp.Frame.{
  encode_packet, encode_info, ExtensionEntry, DecodedPacket, DecodeError, too_short,
  extension_overrun, decode_packet, decode_info, decode_extensions,
}
use unstable_drift.Wisp.Frame.RoundTrip.{info_round_trip}
use unstable_drift.Wisp.Frame.Sound.{decode_packet_exact, PacketFault}

abbrev hi : Bytes
hi = b'h' ∷ b'i' ∷ []

abbrev data_bytes : Bytes
data_bytes = 2 ∷ 1 ∷ 2 ∷ 0 ∷ 0 ∷ b'h' ∷ b'i' ∷ []

encode_packet-hi : encode_packet data_packet 513 hi ≡ data_bytes
unfolding encode_packet PacketType.as_u8
encode_packet-hi = refl

decode_info_overrun : decode_info (2 ∷ 1 ∷ 4 ∷ 9 ∷ 0 ∷ 0 ∷ 0 ∷ 7 ∷ []) ≡ err (extension_overrun 9 1)
unfolding decode_info decode_extensions
decode_info_overrun = refl

decode_info_cut : decode_info (2 ∷ 1 ∷ 4 ∷ 9 ∷ []) ≡ err (too_short 2 5)
unfolding decode_info decode_extensions
decode_info_cut = refl

two_byte_utf8 : is_utf8 (0xC3 ∷ 0xA9 ∷ b'x' ∷ []) ≡ true
unfolding is_utf8
two_byte_utf8 = refl

abbrev offers : List ExtensionEntry
offers = record { id = 1; metadata = [] } ∷ record { id = 4; metadata = hi } ∷ []

info_round_trip_example :
    decode_info (encode_info offers) ≡ ok (record { major = 2; minor = 1; extensions = offers })
info_round_trip_example = info_round_trip offers (omega arith)

decode_packet_exact_example :
    ((p : DecodedPacket) × (decode_packet data_bytes ≡ ok p)
      × (encode_packet p.packet_type p.stream_id p.payload ≡ data_bytes)
      × IsU32 p.stream_id)
    ⊎ ((e : DecodeError) × (decode_packet data_bytes ≡ err e) × PacketFault data_bytes e)
decode_packet_exact_example = decode_packet_exact data_bytes (omega arith)
