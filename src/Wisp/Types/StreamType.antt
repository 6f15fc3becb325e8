-- ===== src/Wisp/Types/StreamType.antt =====
-- `enum StreamType` of wisp/types.rs.
use unstable_drift.Prelude.{ℕ, Option, none, some, ◌==◌, if◌then◌else◌}

pub data StreamType : Type 0 where
  tcp udp : StreamType

unfoldable pub from_u8 : ℕ → Option StreamType
from_u8 b = if b == 0x01 then some tcp else if b == 0x02 then some udp else none

unfoldable pub as_u8 : StreamType → ℕ
as_u8 tcp = 0x01
as_u8 udp = 0x02
