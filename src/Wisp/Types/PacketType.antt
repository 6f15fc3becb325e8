-- ===== src/Wisp/Types/PacketType.antt =====
-- `enum PacketType` of wisp/types.rs. `Data` is spelt out, since `data` is a keyword here.
use unstable_drift.Prelude.{ℕ, Bool, true, false, Option, none, some, ◌==◌, if◌then◌else◌}

pub data PacketType : Type 0 where
  connect data_packet continue close info : PacketType

unfoldable pub from_u8 : ℕ → Option PacketType
from_u8 b =
    if b == 0x01
    then some connect
    else if b == 0x02
    then some data_packet
    else if b == 0x03
    then some continue
    else if b == 0x04
    then some close
    else if b == 0x05
    then some info
    else none

unfoldable pub as_u8 : PacketType → ℕ
as_u8 connect = 0x01
as_u8 data_packet = 0x02
as_u8 continue = 0x03
as_u8 close = 0x04
as_u8 info = 0x05

-- The derived `==`.
unfoldable pub same : PacketType → PacketType → Bool
same connect connect = true
same data_packet data_packet = true
same continue continue = true
same close close = true
same info info = true
same _ _ = false
