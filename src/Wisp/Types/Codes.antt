-- ===== src/Wisp/Types/Codes.antt =====
-- The codes of wisp/types.rs: `from_u8` against `as_u8`.
use unstable_drift.Prelude.{ℕ, ◌≡◌, refl, true, ◌↔◌, some, arith}
use unstable_drift.Bytes.{IsByte}
use unstable_drift.Wisp.Types.PacketType
use unstable_drift.Wisp.Types.PacketType.{PacketType, connect, data_packet, continue, close, info}
use unstable_drift.Wisp.Types.StreamType
use unstable_drift.Wisp.Types.StreamType.{StreamType, tcp, udp}
use unstable_drift.Wisp.Types.ExtensionId
use unstable_drift.Wisp.Types.ExtensionId.{ExtensionId}
use unstable_drift.Wisp.Types.CloseReason
use unstable_drift.Wisp.Types.CloseReason.{CloseReason}

pub PacketType-from_u8-as_u8 : (t : PacketType) → PacketType.from_u8 (PacketType.as_u8 t) ≡ some t
unfolding PacketType.from_u8 PacketType.as_u8
PacketType-from_u8-as_u8 connect = refl
PacketType-from_u8-as_u8 _ = refl

pub PacketType-as_u8_of_from_u8 :
    (b : ℕ) (t : PacketType) → PacketType.from_u8 b ≡ some t → PacketType.as_u8 t ≡ b
unfolding PacketType.from_u8 PacketType.as_u8
PacketType-as_u8_of_from_u8 b t h = ground arith

pub PacketType-as_u8-IsByte : (t : PacketType) → IsByte (PacketType.as_u8 t)
unfolding PacketType.as_u8
PacketType-as_u8-IsByte t = ground arith

pub PacketType-same_iff : (s t : PacketType) → (PacketType.same s t ≡ true) ↔ (s ≡ t)
unfolding PacketType.same
PacketType-same_iff s t = ground arith

pub StreamType-from_u8-as_u8 : (t : StreamType) → StreamType.from_u8 (StreamType.as_u8 t) ≡ some t
unfolding StreamType.from_u8 StreamType.as_u8
StreamType-from_u8-as_u8 tcp = refl
StreamType-from_u8-as_u8 udp = refl

pub StreamType-as_u8_of_from_u8 :
    (b : ℕ) (t : StreamType) → StreamType.from_u8 b ≡ some t → StreamType.as_u8 t ≡ b
unfolding StreamType.from_u8 StreamType.as_u8
StreamType-as_u8_of_from_u8 b t h = ground arith

pub ExtensionId-from_u8-as_u8 :
    (t : ExtensionId) → ExtensionId.from_u8 (ExtensionId.as_u8 t) ≡ some t
unfolding ExtensionId.from_u8 ExtensionId.as_u8
ExtensionId-from_u8-as_u8 ExtensionId.udp = refl
ExtensionId-from_u8-as_u8 _ = refl

pub ExtensionId-as_u8_of_from_u8 :
    (b : ℕ) (t : ExtensionId) → ExtensionId.from_u8 b ≡ some t → ExtensionId.as_u8 t ≡ b
unfolding ExtensionId.from_u8 ExtensionId.as_u8
ExtensionId-as_u8_of_from_u8 b t h = ground arith

pub CloseReason-as_u8-from_u8 : (b : ℕ) → CloseReason.as_u8 (CloseReason.from_u8 b) ≡ b
unfolding CloseReason.from_u8 CloseReason.as_u8
CloseReason-as_u8-from_u8 b = ground arith

-- The bytes that have a named reason.
abbrev pub IsUnassigned : ℕ → Type 0
IsUnassigned b = CloseReason.from_u8 b ≡ CloseReason.unknown b

-- A reason that the decoder can produce: `unknown` holds an unassigned byte only.
abbrev pub IsCanonical : CloseReason → Type 0
IsCanonical (CloseReason.unknown b) = IsUnassigned b
IsCanonical _ = Unit {0}

pub CloseReason-from_u8-as_u8 :
    (r : CloseReason) → IsCanonical r → CloseReason.from_u8 (CloseReason.as_u8 r) ≡ r
unfolding CloseReason.from_u8 CloseReason.as_u8
CloseReason-from_u8-as_u8 CloseReason.unspecified h = refl
CloseReason-from_u8-as_u8 (CloseReason.unknown b) h = h
CloseReason-from_u8-as_u8 _ h = refl

-- Each byte is a packet type exactly if that type's code is the byte.
pub PacketType-code_iff :
    (b : ℕ) (t : PacketType) → (PacketType.from_u8 b ≡ some t) ↔ (PacketType.as_u8 t ≡ b)
PacketType-code_iff b t =
    (PacketType-as_u8_of_from_u8 b t, λ e. rw (← e) (PacketType-from_u8-as_u8 t))
