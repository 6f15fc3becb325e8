-- ===== src/Wisp/Types.antt =====
-- drift-core/src/wisp/types.rs: the enumerations of the wire and the constants.
pub mod PacketType
pub mod StreamType
pub mod CloseReason
pub mod ExtensionId
pub mod Codes
use unstable_drift.Prelude.{ℕ}

abbrev pub handshake_stream_id : ℕ
handshake_stream_id = 0

abbrev pub wisp_major : ℕ
wisp_major = 2

abbrev pub wisp_minor : ℕ
wisp_minor = 1
