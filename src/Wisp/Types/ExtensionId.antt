-- ===== src/Wisp/Types/ExtensionId.antt =====
-- `enum ExtensionId` of wisp/types.rs.
use unstable_drift.Prelude.{ℕ, Option, none, some, ◌==◌, if◌then◌else◌}

pub data ExtensionId : Type 0 where
  udp password_auth pubkey_auth motd stream_open_confirmation : ExtensionId

unfoldable pub from_u8 : ℕ → Option ExtensionId
from_u8 b =
    if b == 0x01
    then some udp
    else if b == 0x02
    then some password_auth
    else if b == 0x03
    then some pubkey_auth
    else if b == 0x04
    then some motd
    else if b == 0x05
    then some stream_open_confirmation
    else none

unfoldable pub as_u8 : ExtensionId → ℕ
as_u8 udp = 0x01
as_u8 password_auth = 0x02
as_u8 pubkey_auth = 0x03
as_u8 motd = 0x04
as_u8 stream_open_confirmation = 0x05
