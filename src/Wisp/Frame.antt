-- ===== src/Wisp/Frame.antt =====
-- drift-core/src/wisp/frame.rs: the encoders and decoders of packets. A `&[u8]`, `Bytes` or
-- `Vec<u8>` is a list of bytes, and a `str` the list of its UTF-8 bytes.
pub mod RoundTrip
pub mod Sound
use unstable_drift.Prelude.{ℕ, zero, suc, ◌-◌, List, [], ◌∷◌, ◌++◌, length, take}
use unstable_drift.Prelude.{Result, ok, err, ok_or, map_err, ◌>>=◌, ltb, if◌then◌else◌}
use unstable_drift.Bytes.{Bytes, u16_le, u32_le, u16_of_le, u32_of_le, u32_max}
use unstable_drift.Bytes.Utf8.{from_utf8}
use unstable_drift.Wisp.Types.{wisp_major, wisp_minor}
use unstable_drift.Wisp.Types.PacketType
use unstable_drift.Wisp.Types.PacketType.{PacketType}
use unstable_drift.Wisp.Types.StreamType
use unstable_drift.Wisp.Types.StreamType.{StreamType}
use unstable_drift.Wisp.Types.CloseReason
use unstable_drift.Wisp.Types.CloseReason.{CloseReason}
use unstable_drift.Wisp.Types.ExtensionId
use unstable_drift.Wisp.Types.ExtensionId.{ExtensionId}

abbrev pub header_len : ℕ
header_len = 5

unfoldable pub encode_packet : PacketType → ℕ → Bytes → Bytes
encode_packet packet_type stream_id payload =
    (PacketType.as_u8 packet_type) ∷ (u32_le stream_id ++ payload)

unfoldable pub encode_packet_to_vec : PacketType → ℕ → Bytes → Bytes
encode_packet_to_vec packet_type stream_id payload =
    (PacketType.as_u8 packet_type ∷ []) ++ (u32_le stream_id ++ payload)

unfoldable pub encode_connect : StreamType → ℕ → Bytes → Bytes
encode_connect stream_type port hostname =
    (StreamType.as_u8 stream_type) ∷ (u16_le port ++ hostname)

unfoldable pub encode_data : Bytes → Bytes
encode_data payload = payload

unfoldable pub encode_continue : ℕ → Bytes
encode_continue buffer_remaining = u32_le buffer_remaining

unfoldable pub encode_close : CloseReason → Bytes
encode_close reason = CloseReason.as_u8 reason ∷ []

pub record ExtensionEntry : Type 0 where
  pub id : ℕ
  pub metadata : Bytes

pub new_known : ExtensionId → Bytes → ExtensionEntry
new_known id metadata = record { id = ExtensionId.as_u8 id; metadata = metadata }

unfoldable pub empty : ExtensionId → ExtensionEntry
empty id = record { id = ExtensionId.as_u8 id; metadata = [] }

-- `u32::try_from(len).unwrap_or(u32::MAX)`
unfoldable pub clamp_len : ℕ → ℕ
clamp_len len = if ltb u32_max len then u32_max else len

unfoldable pub encode_extensions : List ExtensionEntry → Bytes
encode_extensions [] = []
encode_extensions (ext ∷ exts) =
    ext.id ∷ (u32_le (clamp_len (length ext.metadata)) ++ (ext.metadata ++ encode_extensions exts))

unfoldable pub encode_info : List ExtensionEntry → Bytes
encode_info extensions = wisp_major ∷ wisp_minor ∷ encode_extensions extensions

pub data DecodeError : Type 0 where
  too_short : (got need : ℕ) → DecodeError
  unknown_packet_type : ℕ → DecodeError
  unknown_stream_type : ℕ → DecodeError
  invalid_hostname : DecodeError
  extension_overrun : (declared available : ℕ) → DecodeError

pub record DecodedPacket : Type 0 where
  pub packet_type : PacketType
  pub stream_id : ℕ
  pub payload : Bytes

unfoldable pub decode_packet : Bytes → Result DecodeError DecodedPacket
decode_packet (b ∷ i ∷ j ∷ k ∷ l ∷ rest) = do
  packet_type ← ok_or (PacketType.from_u8 b) (unknown_packet_type b)
  ok (record { packet_type = packet_type; stream_id = u32_of_le i j k l; payload = rest })
decode_packet buf = err (too_short (length buf) header_len)

-- The same over an owned buffer; `buf.slice(5..)` shares what `&buf[5..]` borrows.
unfoldable pub decode_packet_owned : Bytes → Result DecodeError DecodedPacket
decode_packet_owned (b ∷ i ∷ j ∷ k ∷ l ∷ rest) = do
  packet_type ← ok_or (PacketType.from_u8 b) (unknown_packet_type b)
  ok (record { packet_type = packet_type; stream_id = u32_of_le i j k l; payload = rest })
decode_packet_owned buf = err (too_short (length buf) header_len)

pub record DecodedConnect : Type 0 where
  pub stream_type : StreamType
  pub port : ℕ
  pub hostname : Bytes

unfoldable pub decode_connect : Bytes → Result DecodeError DecodedConnect
decode_connect (b ∷ i ∷ j ∷ rest) = do
  stream_type ← ok_or (StreamType.from_u8 b) (unknown_stream_type b)
  hostname ← map_err (λ _. invalid_hostname) (from_utf8 rest)
  ok (record { stream_type = stream_type; port = u16_of_le i j; hostname = hostname })
decode_connect payload = err (too_short (length payload) 3)

unfoldable pub decode_continue : Bytes → Result DecodeError ℕ
decode_continue (i ∷ j ∷ k ∷ l ∷ rest) = ok (u32_of_le i j k l)
decode_continue payload = err (too_short (length payload) 4)

unfoldable pub decode_close : Bytes → Result DecodeError CloseReason
decode_close [] = err (too_short 0 1)
decode_close (b ∷ rest) = ok (CloseReason.from_u8 b)

pub record DecodedInfo : Type 0 where
  pub major : ℕ
  pub minor : ℕ
  pub extensions : List ExtensionEntry

-- The loop of `decode_info`. The list is the payload from some position on, and the number says
-- how many bytes lie between that position and the cursor `i`, which moves past a whole entry at
-- once. A `DecodedExtension` has the fields of an `ExtensionEntry`.
unfoldable pub decode_extensions : Bytes → ℕ → Result DecodeError (List ExtensionEntry)
decode_extensions [] skip = ok []
decode_extensions (b ∷ bs) (suc skip) = decode_extensions bs skip
decode_extensions (id ∷ i ∷ j ∷ k ∷ l ∷ rest) zero =
    let len = u32_of_le i j k l in
    let more = decode_extensions rest len in
    if ltb (length rest) len
    then err (extension_overrun len (length rest))
    else do extensions ← more; ok (record { id = id; metadata = take len rest } ∷ extensions)
decode_extensions short zero = err (too_short (length short) 5)

unfoldable pub decode_info : Bytes → Result DecodeError DecodedInfo
decode_info (major ∷ minor ∷ rest) = do
  extensions ← decode_extensions rest 0
  ok (record { major = major; minor = minor; extensions = extensions })
decode_info payload = err (too_short (length payload) 2)
