-- ===== src/Proxy/Socks4.antt =====
-- drift-core/src/proxy/socks4.rs: the client of SOCKS4 and SOCKS4a.
--
-- `Ipv4Addr::from_str` is std's: four decimal numbers of at most three digits and 255, with no
-- leading zero, between dots.
pub mod Literal
pub mod Outcome
use unstable_drift.Prelude.{
  ℕ, zero, suc, ◌+◌, ◌*◌, ◌-◌, Bool, true, false, ◌&&◌, Option, none, some, List, [], ◌∷◌, ◌++◌,
  not,
}
use unstable_drift.Prelude.{Result, ok, err, ok_or, ◌>>=◌, ◌==◌, leb, if◌then◌else◌}
use unstable_drift.Bytes.{Bytes, u16_be}
use unstable_drift.Proxy.{
  ProxyError, protocol, refused, not_ipv4_literal, bad_reply_version, unknown_reply_code,
}
use unstable_drift.Proxy.Link.{Link, at, read_exact, write_all}

pub data Socks4Variant : Type 0 where
  v4 : Socks4Variant
  v4a : Socks4Variant

abbrev pub is_digit : ℕ → Bool
is_digit b = leb 48 b && leb b 57

-- `read_number(10, Some(3), false)`: the digits read so far, and their value.
unfoldable pub octet : (digits value : ℕ) → Bytes → Option (ℕ × Bytes)
octet digits value [] = if digits == 0 then none else some (value, [])
octet digits value (b ∷ bs) =
    let next = value * 10 + (b - 48) in
    let more = octet (suc digits) next bs in
    if is_digit b
    then (if (digits == 1) && (value == 0)
        then none
        else if digits == 3
        then none
        else if leb 256 next
        then none
        else more)
    else if digits == 0
    then none
    else some (value, b ∷ bs)

unfoldable pub octet_then : ℕ → Option Bytes → Option Bytes
octet_then x none = none
octet_then x (some xs) = some (x ∷ xs)

unfoldable pub after_dot : (further : Bytes → Option Bytes) → Option (ℕ × Bytes) → Option Bytes
after_dot further none = none
after_dot further (some (x, rest)) = octet_then x (further rest)

-- `n` more octets, each after a dot, and nothing more.
unfoldable pub dotted : ℕ → Bytes → Option Bytes
dotted zero [] = some []
dotted zero (b ∷ bs) = none
dotted (suc n) [] = none
dotted (suc n) (b ∷ bs) = if b == b'.' then after_dot (dotted n) (octet 0 0 bs) else none

unfoldable pub parse_ipv4 : Bytes → Option Bytes
parse_ipv4 host = dotted 4 (b'.' ∷ host)

-- The address in the request.
unfoldable pub dst_ip : Socks4Variant → Bytes → Result ProxyError Bytes
dst_ip v4 host = ok_or (parse_ipv4 host) (protocol not_ipv4_literal)
dst_ip v4a host = ok (0 ∷ 0 ∷ 0 ∷ 1 ∷ [])

unfoldable pub host_name : Socks4Variant → Bytes → Bytes
host_name v4 host = []
host_name v4a host = host ++ 0 ∷ []

unfoldable pub request : Socks4Variant → (ip host : Bytes) → ℕ → Bytes → Bytes
request variant ip host port user =
    (4 ∷ 1 ∷ u16_be port) ++ (ip ++ (user ++ 0 ∷ host_name variant host))

-- `match resp[1]`
unfoldable pub reply_code : ℕ → Link → Result ProxyError Link
reply_code code s =
    if code == 90
    then ok s
    else if code == 91
    then err (refused 91)
    else if code == 92
    then err (refused 92)
    else if code == 93
    then err (refused 93)
    else err (protocol (unknown_reply_code code))

unfoldable pub negotiate_socks4 :
    Socks4Variant → (host : Bytes) → ℕ → (user : Bytes) → Link → Result ProxyError Link
negotiate_socks4 variant host port user s = do
  ip ← dst_ip variant host
  s ← write_all (request variant ip host port user) s
  got ← read_exact 8 s
  if not (at 0 got.0 == 0)
      then err (protocol (bad_reply_version (at 0 got.0)))
      else reply_code (at 1 got.0) got.1

-- What a server of SOCKS4a makes of a request: the port, the address, the user, and the host name
-- where the address is 0.0.0.x with x not 0.
pub data Target : Type 0 where
  address : (port : ℕ) (ip user : Bytes) → Target
  named : (port : ℕ) (user host : Bytes) → Target

unfoldable pub prepend : ℕ → Option (Bytes × Bytes) → Option (Bytes × Bytes)
prepend b none = none
prepend b (some (word, rest)) = some (b ∷ word, rest)

unfoldable pub until_nul : Bytes → Option (Bytes × Bytes)
until_nul [] = none
until_nul (zero ∷ bs) = some ([], bs)
until_nul (suc n ∷ bs) = prepend (suc n) (until_nul bs)

unfoldable pub named_by : ℕ → Bytes → Option (Bytes × Bytes) → Option Target
named_by port user (some (host, [])) = some (named port user host)
named_by port user _ = none

unfoldable pub addressed : (port a b c d : ℕ) → Option (Bytes × Bytes) → Option Target
unfolding named_by
addressed port a b c d none = none
addressed port a b c d (some (user, rest)) =
    if (((a == 0) && (b == 0)) && (c == 0)) && not (d == 0)
    then named_by port user (until_nul rest)
    else some (address port (a ∷ b ∷ c ∷ d ∷ []) user)

unfoldable pub serve : Bytes → Option Target
unfolding addressed
serve (v ∷ cmd ∷ hi ∷ lo ∷ a ∷ b ∷ c ∷ d ∷ rest) =
    if (v == 4) && (cmd == 1) then addressed (hi * 256 + lo) a b c d (until_nul rest) else none
serve _ = none
