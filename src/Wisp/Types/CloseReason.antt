-- ===== src/Wisp/Types/CloseReason.antt =====
-- `enum CloseReason` of wisp/types.rs.
use unstable_drift.Prelude.{ℕ, ◌==◌, if◌then◌else◌}

pub data CloseReason : Type 0 where
  unspecified voluntary network_error incompatible_extensions : CloseReason
  stream_invalid_info stream_unreachable stream_timed_out stream_refused : CloseReason
  tcp_data_timed_out stream_blocked throttled : CloseReason
  client_error : CloseReason
  auth_invalid_credentials auth_invalid_signature auth_required : CloseReason
  unknown : ℕ → CloseReason

unfoldable pub from_u8 : ℕ → CloseReason
from_u8 b =
    if b == 0x01
    then unspecified
    else if b == 0x02
    then voluntary
    else if b == 0x03
    then network_error
    else if b == 0x04
    then incompatible_extensions
    else if b == 0x41
    then stream_invalid_info
    else if b == 0x42
    then stream_unreachable
    else if b == 0x43
    then stream_timed_out
    else if b == 0x44
    then stream_refused
    else if b == 0x47
    then tcp_data_timed_out
    else if b == 0x48
    then stream_blocked
    else if b == 0x49
    then throttled
    else if b == 0x81
    then client_error
    else if b == 0xC0
    then auth_invalid_credentials
    else if b == 0xC1
    then auth_invalid_signature
    else if b == 0xC2
    then auth_required
    else unknown b

unfoldable pub as_u8 : CloseReason → ℕ
as_u8 unspecified = 0x01
as_u8 voluntary = 0x02
as_u8 network_error = 0x03
as_u8 incompatible_extensions = 0x04
as_u8 stream_invalid_info = 0x41
as_u8 stream_unreachable = 0x42
as_u8 stream_timed_out = 0x43
as_u8 stream_refused = 0x44
as_u8 tcp_data_timed_out = 0x47
as_u8 stream_blocked = 0x48
as_u8 throttled = 0x49
as_u8 client_error = 0x81
as_u8 auth_invalid_credentials = 0xC0
as_u8 auth_invalid_signature = 0xC1
as_u8 auth_required = 0xC2
as_u8 (unknown b) = b
