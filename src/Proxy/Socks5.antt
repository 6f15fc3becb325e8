-- ===== src/Proxy/Socks5.antt =====
-- drift-core/src/proxy/socks5.rs: the client of RFC 1928 and RFC 1929.
pub mod Sound
pub mod Complete
use unstable_drift.Prelude.{ℕ, ◌+◌, ◌≡◌, Bool, Option, none, some, List, [], ◌∷◌, ◌++◌, length, not}
use unstable_drift.Prelude.{Result, ok, err, ok_or, ◌>>=◌, ◌==◌, ltb, if◌then◌else◌}
use unstable_drift.Bytes.{Bytes, u16_be}
use unstable_drift.Proxy.{
  ProxyAuth, user_password, ProxyError, protocol, refused, auth_failed, unsupported,
  bad_method_version, no_credentials, host_too_long, username_too_long, password_too_long,
  bad_subnegotiation_version, bad_connect_version, bad_address_type,
}
use unstable_drift.Proxy.Link.{Link, at, read_exact, write_all, to_u8}

abbrev pub ver : ℕ
ver = 5

abbrev pub cmd_connect : ℕ
cmd_connect = 1

abbrev pub rsv : ℕ
rsv = 0

abbrev pub method_no_auth : ℕ
method_no_auth = 0

abbrev pub method_user_pass : ℕ
method_user_pass = 2

abbrev pub method_none_acceptable : ℕ
method_none_acceptable = 255

abbrev pub atyp_ipv4 : ℕ
atyp_ipv4 = 1

abbrev pub atyp_domain : ℕ
atyp_domain = 3

abbrev pub atyp_ipv6 : ℕ
atyp_ipv6 = 4

-- `negotiate_socks5`: the method selection's message. The two methods never overflow a `u8`.
unfoldable pub greet : Option ProxyAuth → Bytes
greet none = ver ∷ 1 ∷ method_no_auth ∷ []
greet (some auth) = ver ∷ 2 ∷ method_no_auth ∷ method_user_pass ∷ []

-- `do_user_pass`: its message and the answer to it.
unfoldable pub credentials : ProxyAuth → Bytes
credentials (user_password user pass) = (1 ∷ length user ∷ user) ++ length pass ∷ pass

unfoldable pub do_user_pass : ProxyAuth → Link → Result ProxyError Link
do_user_pass (user_password user pass) s = do
  ulen ← to_u8 (length user) username_too_long
  plen ← to_u8 (length pass) password_too_long
  s ← write_all ((1 ∷ ulen ∷ user) ++ plen ∷ pass) s
  got ← read_exact 2 s
  if not (at 0 got.0 == 1)
      then err (protocol (bad_subnegotiation_version (at 0 got.0)))
      else if not (at 1 got.0 == 0)
      then err auth_failed
      else ok got.1

-- The answer to the method selection, and the subnegotiation that it asks for.
unfoldable pub select_method : Option ProxyAuth → Link → Result ProxyError Link
select_method auth s = do
  got ← read_exact 2 s
  if not (at 0 got.0 == ver)
      then err (protocol (bad_method_version (at 0 got.0)))
      else if at 1 got.0 == method_no_auth
      then ok got.1
      else if at 1 got.0 == method_user_pass
      then (do auth ← ok_or auth (protocol no_credentials); do_user_pass auth got.1)
      else if at 1 got.0 == method_none_acceptable
      then err auth_failed
      else err (unsupported (at 1 got.0))

-- The CONNECT request.
unfoldable pub request : Bytes → ℕ → Bytes
request host port = (ver ∷ cmd_connect ∷ rsv ∷ atyp_domain ∷ length host ∷ host) ++ u16_be port

-- The bound address and port, which are skipped.
unfoldable pub skip_bound : ℕ → Link → Result ProxyError Link
skip_bound atyp s =
    if atyp == atyp_ipv4
    then (do got ← read_exact 6 s; ok got.1)
    else if atyp == atyp_ipv6
    then (do got ← read_exact 18 s; ok got.1)
    else if atyp == atyp_domain
    then (do len ← read_exact 1 s; got ← read_exact (at 0 len.0 + 2) len.1; ok got.1)
    else err (protocol (bad_address_type atyp))

unfoldable pub connect_reply : Link → Result ProxyError Link
connect_reply s = do
  head ← read_exact 4 s
  if not (at 0 head.0 == ver)
      then err (protocol (bad_connect_version (at 0 head.0)))
      else if not (at 1 head.0 == 0)
      then err (refused (at 1 head.0))
      else skip_bound (at 3 head.0) head.1

unfoldable pub negotiate_socks5 : Bytes → ℕ → Option ProxyAuth → Link → Result ProxyError Link
negotiate_socks5 host port auth s = do
  s ← write_all (greet auth) s
  s ← select_method auth s
  host_len ← to_u8 (length host) host_too_long
  s ← write_all ((ver ∷ cmd_connect ∷ rsv ∷ atyp_domain ∷ host_len ∷ host) ++ u16_be port) s
  connect_reply s

-- What RFC 1928 and RFC 1929 let a server say: the bound address, by its type,
pub data IsBound : ℕ → Bytes → Type 0 where
  ipv4 : {skip : Bytes} → length skip ≡ 6 → IsBound atyp_ipv4 skip
  ipv6 : {skip : Bytes} → length skip ≡ 18 → IsBound atyp_ipv6 skip
  domain : {skip : Bytes} (n : ℕ) → length skip ≡ n + 2 → IsBound atyp_domain (n ∷ skip)

-- a CONNECT that it grants,
pub data IsGrant : Bytes → Type 0 where
  granted :
      (reserved atyp : ℕ) {bound : Bytes}
      → IsBound atyp bound
      → IsGrant (ver ∷ 0 ∷ reserved ∷ atyp ∷ bound)

-- and a method, with what the client then sends of its credentials.
pub data IsChoice (auth : Option ProxyAuth) : (reply sent : Bytes) → Type 0 where
  without_auth : IsChoice auth (ver ∷ method_no_auth ∷ []) []
  with_user_pass :
      (a : ProxyAuth)
      → auth ≡ some a
      → IsChoice auth (ver ∷ method_user_pass ∷ 1 ∷ 0 ∷ []) (credentials a)
