-- ===== src/Proxy.antt =====
-- drift-core/src/proxy: the negotiations and the chain of proxies, over an explicit byte stream.
pub mod Link
pub mod Steps
pub mod Socks5
pub mod Socks4
pub mod HttpConnect
pub mod Chain
mod Examples
mod Tunnels
use unstable_drift.Prelude.{ℕ, Option, none, some, []}
use unstable_drift.Bytes.{Bytes}

-- proxy/mod.rs
pub data ProxyAuth : Type 0 where
  user_password : (user pass : Bytes) → ProxyAuth

-- What the messages of `Protocol` say.
pub data ProtocolFault : Type 0 where
  bad_method_version : ℕ → ProtocolFault
  no_credentials : ProtocolFault
  host_too_long : ProtocolFault
  username_too_long : ProtocolFault
  password_too_long : ProtocolFault
  bad_subnegotiation_version : ℕ → ProtocolFault
  bad_connect_version : ℕ → ProtocolFault
  bad_address_type : ℕ → ProtocolFault
  not_ipv4_literal : ProtocolFault
  bad_reply_version : ℕ → ProtocolFault
  unknown_reply_code : ℕ → ProtocolFault
  eof_in_reply : ProtocolFault
  reply_too_large : ProtocolFault
  non_utf8 : ProtocolFault
  no_version : ProtocolFault
  no_status_code : ProtocolFault
  bad_status_code : ProtocolFault

pub data IoFault : Type 0 where
  unexpected_eof : IoFault
  write_failed : IoFault

pub data ProxyError : Type 0 where
  io : IoFault → ProxyError
  protocol : ProtocolFault → ProxyError
  refused : (code : ℕ) → ProxyError
  auth_failed : ProxyError
  unsupported : (chosen : ℕ) → ProxyError

-- `extract_user`
unfoldable pub extract_user : Option ProxyAuth → Bytes
extract_user (some (user_password user pass)) = user
extract_user none = []
